-- ===== src/Matrix/Bandwidth.antt =====
-- pkg/matrix/result.go, the bandwidth of a probe, and the benchmark of pkg/consts/consts.go.
-- `float64` and `strconv.ParseFloat` are the parameter `Floats`.
use k8s_service_validator.Prelude.{ℕ, Bool, ◌++◌, Option, none, some, get_elem?, if◌then◌else◌}
use k8s_service_validator.Outcome.{Outcome, ok, panic, index_out_of_range}
use k8s_service_validator.Text.{Text, codes, split}
use k8s_service_validator.Kubernetes.Exec.{Error}

pub record Floats : Type 1 where
  pub Float : Type 0
  pub zero_float : Float
  pub less_than : Float → ℕ → Bool
  pub divide : Float → ℕ → Float
  -- `ParseFloat(s, 32)` returns a number beside its error too.
  pub parse_float : Text → Float × Option Error
  -- `%f`
  pub format_float : Float → Text

abbrev pub bench_mark_megabytes_per_second : ℕ
bench_mark_megabytes_per_second = 10

module _ (fl : Floats) where
  pub record BandwidthResults : Type 0 where
    pub bandwidth : fl.Float

  -- `splits[8]` panics on a line with fewer fields.
  unfoldable pub from_comma_separated_string : Text → Outcome (BandwidthResults × Option Error)
  from_comma_separated_string s = elim (get_elem? (split b',' s) 8) [
    | none ↦ panic index_out_of_range
    | some field ↦
        let (number, err) = fl.parse_float field in ok (record { bandwidth = number }, err)
  ]

  unfoldable pub bandwidth_to_mega_bytes : BandwidthResults → fl.Float
  bandwidth_to_mega_bytes r = fl.divide r.bandwidth 8000000

  unfoldable bandwidth_to_bytes : BandwidthResults → fl.Float
  bandwidth_to_bytes r = fl.divide r.bandwidth 8

  unfoldable pretty_number : fl.Float → Text → Text
  pretty_number num unit =
      if fl.less_than num 1000
      then fl.format_float num ++ (codes " " ++ (unit ++ codes "/sec"))
      else if fl.less_than num 1000000
      then fl.format_float (fl.divide num 1000) ++ (codes " K" ++ (unit ++ codes "/sec"))
      else if fl.less_than num 1000000000
      then fl.format_float (fl.divide num 1000000) ++ (codes " M" ++ (unit ++ codes "/sec"))
      else fl.format_float (fl.divide num 1000000000) ++ (codes " G" ++ (unit ++ codes "/sec"))

  unfoldable pub pretty_bandwidth : Bool → BandwidthResults → Text
  unfolding pretty_number bandwidth_to_bytes
  pretty_bandwidth in_bytes r =
      if in_bytes
      then pretty_number (bandwidth_to_bytes r) (codes "Bytes")
      else pretty_number r.bandwidth (codes "Bits")
