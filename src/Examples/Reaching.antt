-- ===== src/Examples/Reaching.antt =====
-- The reachability of the pod "a" by itself: expected, observed and counted.
use k8s_service_validator.Prelude.{
  ◌+◌, Bool, true, false, ◌&&◌, ◌==◌, ◌≡◌, [], ◌∷◌, refl, none, some, arith, list_beq,
  if◌then◌else◌,
}
use k8s_service_validator.GoMap.{lookup, insert}
use k8s_service_validator.Outcome.{ok}
use k8s_service_validator.Text.{Text, codes, text_eq}
use k8s_service_validator.Entities.Pod.{pod_string}
use k8s_service_validator.Matrix.TruthTable.{
  TruthTable, cell, get, get_bandwidth, compare_tables, set, set_bandwidth, write_cell,
}
use k8s_service_validator.Matrix.TruthTable.Size.{size}
use k8s_service_validator.Matrix.Reachability.{
  Peer, Reachability, observe, expect_peer, summary, Counts, is_slow,
}
use k8s_service_validator.Matrix.Reachability.Peers.{IsPlain}
use k8s_service_validator.Matrix.Reachability.Expect.{HasRows, expect_peer_lem, selects_name}
use k8s_service_validator.Matrix.Reachability.Summary.{
  summary_sound, summary_total, summary_complete,
}
use k8s_service_validator.Examples.Data.{
  whole, Bandwidth, heap, before, after, expected, observed, name_a,
}
use k8s_service_validator.Entities.PodString.{new_pod_string}

abbrev everyone : Peer
everyone = record { namespace = codes "x"; pod = [] }

plain : IsPlain (heap 0)
plain = record { node_name = ground arith; namespace = ground arith; name = ground arith }

rows : HasRows heap (0 ∷ []) expected.values
unfolding lookup list_beq pod_string new_pod_string
rows = ((λ h. cc), tt)

expect_peer_lem_example :
    (r' : Reachability Bandwidth) × (expect_peer heap everyone everyone false before ≡ ok r')
    × (cell r'.expected.values name_a name_a ≡ (
        if selects_name heap everyone (0 ∷ []) name_a && selects_name heap everyone (0 ∷ []) name_a
        then some false
        else cell expected.values name_a name_a))
    × HasRows heap (0 ∷ []) r'.expected.values
    × (r'.observed ≡ before.observed)
    × (r'.pods ≡ before.pods)
expect_peer_lem_example =
    expect_peer_lem heap everyone everyone false before name_a name_a (plain, tt) rows

seen : observe name_a name_a true none before ≡ ok after
unfolding observe set write_cell lookup list_beq set_bandwidth insert
seen = refl

abbrev all_right : Counts
all_right = record { true_obs = 1; false_obs = 0; ignored_obs = 0 }

abbrev compared : TruthTable Bandwidth
compared = record expected { bandwidths = [] }

counted : summary whole false false after ≡ ok (all_right, compared)
unfolding summary compare_tables insert get lookup list_beq
counted = refl

summary_sound_example :
    (get observed name_a name_a ≡ true)
    × ((false
          && (get observed name_a name_a && is_slow whole (get_bandwidth observed name_a name_a)))
        ≡ false)
unfolding cell lookup list_beq
summary_sound_example =
    summary_sound whole false false after all_right compared name_a name_a true counted refl refl
      refl

summary_total_example : 1 + 0 + 0 ≡ size expected.values
unfolding lookup
summary_total_example =
    summary_total whole false false after all_right compared (refl, (refl, tt), tt) counted

agrees :
    (from to : Text) (val : Bool)
    → cell expected.values from to ≡ some val
    → (false && from == to) ≡ false
    → (get observed from to ≡ val)
      × ((false && (get observed from to && is_slow whole (get_bandwidth observed from to)))
          ≡ false)
unfolding get
agrees from to val e h = (rw e refl, refl)

summary_complete_example : all_right.false_obs ≡ 0
summary_complete_example =
    summary_complete whole false false after all_right compared counted agrees
