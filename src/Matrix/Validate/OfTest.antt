-- ===== src/Matrix/Validate/OfTest.antt =====
-- The jobs of a test case: between the model's pods, with the case's protocol and kind of service.
use k8s_service_validator.Prelude.{ℕ, Bool, ◌≡◌, refl, subst, ap, ◌∙◌, ◌==◌, nat_eq, if◌then◌else◌}
use k8s_service_validator.Prelude.Elem.{Elem}
use k8s_service_validator.Entities.Pod.{Pod}
use k8s_service_validator.Matrix.Reachability.{Ref, Heap, TestCase, Reachability}
use k8s_service_validator.Matrix.Probe.{ProbeJob, make_job, make_jobs}
use k8s_service_validator.Matrix.Probe.Filled.{OnlyContainers}
use k8s_service_validator.Matrix.Probe.Jobs.{make_jobs_sound}
use k8s_service_validator.Matrix.Validate.{Pods}

module _ {B : Type 0} (pods : Pods) (reach measure : Bool) where
  -- The job is for two pods of the model, as the test case and the two flags ask for it; the port is
  -- the target pod's own if the test case has none.
  pub record OfTest (heap : Heap) (test : TestCase B) (job : ProbeJob) : Type 0 where
    pub source : Elem job.pod_from pods.refs
    pub target : Elem job.pod_to pods.refs
    pub to_port :
        job.to_port ≡ (if test.to_port == 0 then (heap job.pod_to).to_port else test.to_port)
    pub protocol : job.protocol ≡ test.protocol
    pub service_type : job.service_type ≡ test.service_type
    pub reach_target_pod : job.reach_target_pod ≡ reach
    pub measure_bandwidth : job.measure_bandwidth ≡ measure

  made-OfTest :
      (heap : Heap) (test : TestCase B) (a b : Ref)
      → Elem a pods.refs
      → Elem b pods.refs
      → OfTest heap test (make_job heap pods.dns_domain test reach measure a b)
  unfolding make_job
  made-OfTest heap test a b ea eb = record {
    source = ea;
    target = eb;
    to_port = refl;
    protocol = refl;
    service_type = refl;
    reach_target_pod = refl;
    measure_bandwidth = refl;
  }

  pub make_jobs-OfTest :
      (heap : Heap) (test : TestCase B) (job : ProbeJob)
      → Elem job (make_jobs heap pods.dns_domain test reach measure pods.refs)
      → OfTest heap test job
  make_jobs-OfTest heap test job at =
      let (a, b, ea, eb, made) =
        make_jobs_sound heap pods.dns_domain test reach measure pods.refs job at in
      subst (OfTest heap test) made (made-OfTest heap test a b ea eb)

  -- A round changes nothing that a job goes by.
  pub OfTest-earlier :
      (heap heap1 : Heap) (test : TestCase B) (r : Reachability B) (job : ProbeJob)
      → OnlyContainers heap heap1
      → OfTest heap1 (record test { reachability = r }) job
      → OfTest heap test job
  OfTest-earlier heap heap1 test r job same o = record {
    source = o.source;
    target = o.target;
    to_port =
        o.to_port
        ∙ ap (λ (n : ℕ). if test.to_port == 0 then n else test.to_port)
            (ap (λ (p : Pod). p.to_port) (same job.pod_to).0);
    protocol = o.protocol;
    service_type = o.service_type;
    reach_target_pod = o.reach_target_pod;
    measure_bandwidth = o.measure_bandwidth;
  }
