-- ===== src/Examples/Waiting.antt =====
-- Waiting for the servers of one pod, on the cluster in which every command succeeds.
use k8s_service_validator.Prelude.{
  ℕ, List, true, false, [], ◌∷◌, ◌≡◌, refl, sym, ◌∙◌, Option, none, some, subst, is_empty, arith,
  contains, list_beq,
}
use k8s_service_validator.Prelude.Elem.{Elem, here, there, not-Elem-nil}
use k8s_service_validator.Outcome.{Outcome, ok}
use k8s_service_validator.Text.{Text, codes}
use k8s_service_validator.Commands.{protocol_tcp}
use k8s_service_validator.Entities.Pod.{pod_string}
use k8s_service_validator.Matrix.Reachability.{Heap}
use k8s_service_validator.Matrix.Model.{Model, Found, all_pods, all_ports_protocol}
use k8s_service_validator.Matrix.Validate.{Pods}
use k8s_service_validator.Matrix.Validate.Sound.{Confirmed}
use k8s_service_validator.Matrix.Servers.{
  fresh, pods_of_model, Waited, cases_of, max_tries, all_not_ready,
}
use k8s_service_validator.Matrix.Servers.Ready.{servers_ready}
use k8s_service_validator.Matrix.Servers.Honest.{AllConnect, servers_honest}
use k8s_service_validator.Matrix.Servers.Returns.{Populated, TriesEnd, servers_return, servers_run}
use k8s_service_validator.Examples.Data.{whole, answering, wrapping, heap}
use k8s_service_validator.Examples.Honest.{always_connected}

-- A model whose caches are still empty, with the one pod "a".
abbrev pub model : Model
model = record {
  pods = none;
  ports = none;
  protocols = none;
  namespaces = record { name = codes "x"; pods = 0 ∷ [] } ∷ [];
  dns_domain = codes "d";
}

abbrev pub found : Found
found = (80 ∷ [], protocol_tcp ∷ [])

abbrev pub model' : Model
model' = record model { ports = some (80 ∷ []); protocols = some (protocol_tcp ∷ []) }

pub read : all_ports_protocol heap model ≡ ok (found, model')
unfolding all_ports_protocol contains list_beq
read = refl

pub populated : Populated (pods_of_model model') heap
unfolding all_pods
populated a (here h) = subst (λ p. is_empty (heap p).containers ≡ false) h refl
populated a (there at) = absurd (not-Elem-nil at)

waiting : (result : Option ℕ) × Waited whole answering wrapping heap model result
waiting = servers_run whole answering wrapping tt heap model model' found read populated

servers_return_example :
    TriesEnd whole answering wrapping
      (pods_of_model model')
      tt
      (cases_of found)
      max_tries
      heap
      (all_not_ready (cases_of found) [])
      (Waited whole answering wrapping heap model)
servers_return_example =
    servers_return whole answering wrapping tt heap model model' found read populated

pub answering-AllConnect :
    (pods : Pods) (h : Heap) (ports : List ℕ) (protocols : List Text)
    → AllConnect whole answering wrapping pods h ports protocols
answering-AllConnect pods h ports protocols port protocol a b connected _ _ _ _ conf =
    sym conf.connection
    ∙ always_connected conf.heap' conf.result.job conf.result conf.probed
        conf.of_test.measure_bandwidth conf.of_test.reach_target_pod

all_connect :
    AllConnect whole answering wrapping
      (pods_of_model waiting.1.m')
      heap
      waiting.1.found.0
      waiting.1.found.1
all_connect =
    answering-AllConnect (pods_of_model waiting.1.m') heap waiting.1.found.0 waiting.1.found.1

ends_well : waiting.0 ≡ none
ends_well = servers_honest whole answering wrapping heap model waiting.0 waiting.1 all_connect

servers_honest_example : waiting.0 ≡ none
servers_honest_example =
    servers_honest whole answering wrapping heap model waiting.0 waiting.1 all_connect

pub what_was_read :
    {f f' : Found} {m m' : Model}
    → ◌≡◌ {A = Outcome (Found × Model)} (ok (f, m)) (ok (f', m'))
    → (f ≡ f') × (m ≡ m')
what_was_read h = ground arith

as_read : (waiting.1.found ≡ found) × (waiting.1.m' ≡ model')
as_read = what_was_read (sym waiting.1.ports_protocols ∙ read)

pod_a : Elem 0 (pods_of_model waiting.1.m').refs
unfolding all_pods
pod_a = subst (λ m. Elem 0 (pods_of_model m).refs) (sym as_read.1) (here refl)

servers_ready_example :
    Confirmed whole answering wrapping
      (pods_of_model waiting.1.m')
      false
      false
      heap
      (fresh whole answering wrapping (pods_of_model waiting.1.m') heap (80, protocol_tcp))
      (pod_string (heap 0))
      (pod_string (heap 0))
      true
servers_ready_example =
    servers_ready whole answering wrapping heap model waiting.0 waiting.1 80 protocol_tcp 0 0
      ends_well (subst (λ f. Elem 80 f.0) (sym as_read.0) (here refl))
      (subst (λ f. Elem protocol_tcp f.1) (sym as_read.0) (here refl)) pod_a pod_a
