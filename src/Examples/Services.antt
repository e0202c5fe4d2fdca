-- ===== src/Examples/Services.antt =====
-- Waits, services and their labels on small inputs.
use k8s_service_validator.Prelude.{
  ◌<◌, ◌≤◌, suc, true, false, ◌≡◌, ◌≢◌, ◌⊎◌, List, [], ◌∷◌, refl, none, some, arith, list_beq,
}
use k8s_service_validator.GoMap.{lookup, insert}
use k8s_service_validator.Outcome.{ok}
use k8s_service_validator.Text.{Text, codes, text_eq}
use k8s_service_validator.Kubernetes.PodWait.{
  Seen, phase, polls, poll_immediate, poll_times_to_determine_pending_pod, pod_running_phase,
  pod_pending_phase,
}
use k8s_service_validator.Kubernetes.PodWait.Pending.{seen_running, poll_immediate_sound}
use k8s_service_validator.Kubernetes.Service.{
  K8sService, Api, get_label, set_label, remove_label, create,
}
use k8s_service_validator.Kubernetes.Service.Labels.{get_label-set_label}
use k8s_service_validator.Kubernetes.Service.Wait.{Watch, events, wait_for_cluster_ip}
use k8s_service_validator.Entities.Service.{ServiceTemplate, port_eq, new_service}
use k8s_service_validator.Entities.Service.Ports.{new_service_names}
use k8s_service_validator.Matrix.Template.{nothing, create_service_from_template, template_no_error}
use k8s_service_validator.Examples.Data.{wrapping, heap}

-- Pending twice, then running.
abbrev pub late : List Seen
late = phase pod_pending_phase ∷ phase pod_pending_phase ∷ phase pod_running_phase ∷ []

ended : (poll_immediate (codes "a") late []).0 ≡ none
unfolding poll_immediate list_beq lookup insert
ended = refl

poll_immediate_sound_example :
    (seen_running late ≡ true)
    ⊎ (poll_times_to_determine_pending_pod
        < polls (codes "a") (poll_immediate (codes "a") late []).1)
poll_immediate_sound_example = poll_immediate_sound (codes "a") late [] ended

unseen : polls (codes "a") [] ≤ poll_times_to_determine_pending_pod
unfolding polls lookup
unseen = omega arith

abbrev service : K8sService
service = record {
  name = codes "s";
  namespace = codes "x";
  labels = some ((codes "k", codes "v") ∷ []);
  selector = [];
  ports = [];
  service_type = [];
  cluster_ip = codes "10";
  external_name = [];
  external_traffic_policy = [];
  session_affinity = [];
  ingress = [];
}

-- An API server that has this service and takes every update.
abbrev server : Api
server = record {
  World = Unit;
  create = λ s w. ((s, none), w);
  delete = λ namespace name w. (none, w);
  get = λ namespace name w. ((service, none), w);
  update = λ s w. ((s, none), w);
}

label_set : (set_label server (codes "k") (codes "w") service tt).0 ≡ none
unfolding set_label
label_set = refl

get_label-set_label_example :
    get_label (codes "k") (set_label server (codes "k") (codes "w") service tt).1
    ≡ (codes "w", none)
get_label-set_label_example =
    get_label-set_label server (codes "k") service tt (codes "w") label_set

label_removed : (remove_label server (codes "k") service tt).0 ≡ none
unfolding remove_label lookup list_beq
label_removed = refl

one_not_two : suc 0 ≢ 2
one_not_two = ground arith

new_service_names_example :
    (new_service (heap 0) (some 1)).0.name ≢ (new_service (heap 0) (some 2)).0.name
new_service_names_example = new_service_names (heap 0) (heap 0) 1 2 refl refl one_not_two

abbrev template : ServiceTemplate
template = record {
  name = codes "t";
  namespace = codes "x";
  selector = [];
  protocol_ports = [];
  session_affinity = false;
}

-- No event before the timeout.
abbrev quiet : K8sService → Unit {0} → Watch K8sService
quiet s w = events []

timed_out :
    create_service_from_template wrapping server quiet template none tt ≡ ok (nothing none, 1, tt)
unfolding create_service_from_template create wait_for_cluster_ip list_beq
timed_out = refl

template_no_error_example : (nothing none).err ≡ none
unfolding create
template_no_error_example =
    template_no_error wrapping server quiet template none tt tt 1 (nothing none) timed_out refl

abbrev log : List Text
log = codes "12 PASS tests /basic/TestA" ∷ codes "12 FAIL: tests/basic" ∷ []
