-- ===== src/Examples/Data.antt =====
-- The pods, the tables and the parameters of the examples.
use k8s_service_validator.Prelude.{
  ℕ, ◌/◌, true, false, [], ◌∷◌, ◌≡◌, ◌≢◌, refl, Option, none, some, ltb, if◌then◌else◌, ◌==◌,
  nat_eq,
}
use k8s_service_validator.Text.{Text, codes, value, itoa}
use k8s_service_validator.Kubernetes.Exec.{Remote, Error}
use k8s_service_validator.Commands.{protocol_tcp}
use k8s_service_validator.Entities.Container.{Container}
use k8s_service_validator.Entities.Pod.{Pod}
use k8s_service_validator.Entities.Service.{pod_ip_type}
use k8s_service_validator.Matrix.Bandwidth.{Floats, BandwidthResults}
use k8s_service_validator.Matrix.Connect.{Wrapping}
use k8s_service_validator.Matrix.TruthTable.{TruthTable}
use k8s_service_validator.Matrix.Reachability.{Heap, Reachability, TestCase}

-- Whole numbers for floats.
abbrev pub whole : Floats
whole = record {
  Float = ℕ;
  zero_float = 0;
  less_than = ltb;
  divide = λ a b. a / b;
  parse_float = λ s. (value s, none);
  format_float = itoa;
}

-- A cluster in which every command prints the same name and succeeds.
abbrev pub answering : Remote
answering = record {
  World = Unit;
  new_executor = λ req. none;
  stream = λ req stdin w. ((codes "b", [], none), w);
}

abbrev pub wrap : Option Error → Text → Option Error
wrap none message = none
wrap (some e) message = some e

pub some_stays : (e : Error) (message : Text) → wrap (some e) message ≢ none
some_stays e message h = cc

pub nil_stays : (message : Text) → wrap none message ≡ none
nil_stays message = refl

abbrev pub wrapping : Wrapping
wrapping = record { wrapf = wrap; wrapf_nil = nil_stays; wrapf_error = some_stays }

abbrev pub container : Container
container = record {
  name = codes "c";
  image = codes "i";
  command = [];
  protocol = protocol_tcp;
  port = 80;
}

abbrev pub pod_named : Text → Pod
pod_named name = record {
  namespace = codes "x";
  name = name;
  node_name = codes "n";
  init_containers = none;
  containers = container ∷ [];
  external_ips = [];
  skip_probe = false;
  service_name = [];
  cluster_ip = [];
  pod_ip = codes "1";
  host_ip = [];
  to_port = 80;
  host_network = false;
  labels = none;
}

-- The place 0 has a pod "a", every other place a pod "b".
abbrev pub heap : Heap
heap p = if p == 0 then pod_named (codes "a") else pod_named (codes "b")

abbrev pub name_a : Text
name_a = codes "n/x/a"

abbrev pub Bandwidth : Type 0
Bandwidth = BandwidthResults whole

abbrev pub expected : TruthTable Bandwidth
expected = record {
  froms = name_a ∷ [];
  tos = name_a ∷ [];
  to_set = (name_a, true) ∷ [];
  values = (name_a, (name_a, true) ∷ []) ∷ [];
  bandwidths = (name_a, []) ∷ [];
}

abbrev pub unobserved : TruthTable Bandwidth
unobserved = record expected { values = (name_a, []) ∷ [] }

abbrev pub observed : TruthTable Bandwidth
observed = record expected { bandwidths = (name_a, (name_a, none) ∷ []) ∷ [] }

abbrev pub before : Reachability Bandwidth
before = record { expected = expected; observed = unobserved; pods = 0 ∷ [] }

abbrev pub after : Reachability Bandwidth
after = record { expected = expected; observed = observed; pods = 0 ∷ [] }

abbrev pub test_case : Reachability Bandwidth → TestCase Bandwidth
test_case r = record {
  to_port = 80;
  protocol = protocol_tcp;
  reachability = r;
  service_type = pod_ip_type;
}
