-- ===== src/Matrix/Probe/Jobs.antt =====
-- The jobs of a round: one for each ordered pair of pods, and no other.
use k8s_service_validator.Prelude.{
  Bool, List, [], ◌∷◌, ◌≡◌, inl, inr, refl, subst, map, ◌*◌, length, length-append, length-map,
  arith,
}
use k8s_service_validator.Prelude.Elem.{
  Elem, here, there, Elem-left, Elem-right, Elem-append, Elem-map, Elem-map_inv,
}
use k8s_service_validator.Text.{Text}
use k8s_service_validator.Matrix.Reachability.{Ref, Heap, TestCase}
use k8s_service_validator.Matrix.Probe.{ProbeJob, make_job, jobs_from, make_jobs}

module _ {B : Type 0} (heap : Heap) (dns : Text) (t : TestCase B) (reach measure : Bool) where
  abbrev job_for : Ref → Ref → ProbeJob
  job_for = make_job heap dns t reach measure

  abbrev all_from : List Ref → List Ref → List ProbeJob
  all_from = jobs_from heap dns t reach measure

  jobs_from-Elem :
      (to_pods from_pods : List Ref) (a b : Ref)
      → Elem a from_pods
      → Elem b to_pods
      → Elem (job_for a b) (all_from to_pods from_pods)
  unfolding jobs_from
  jobs_from-Elem to_pods [] a b e eb = elim e [ ]
  jobs_from-Elem to_pods (p ∷ from_pods) a b (here e) eb =
      Elem-left (map (job_for p) to_pods) (all_from to_pods from_pods) (
        subst (λ q. Elem (job_for q b) (map (job_for p) to_pods)) e
          (Elem-map (job_for p) to_pods eb))
  jobs_from-Elem to_pods (p ∷ from_pods) a b (there ea) eb =
      Elem-right (map (job_for p) to_pods) (all_from to_pods from_pods)
        (jobs_from-Elem to_pods from_pods a b ea eb)

  jobs_from-Elem_inv :
      (to_pods from_pods : List Ref) (job : ProbeJob)
      → Elem job (all_from to_pods from_pods)
      → (a b : Ref) × Elem a from_pods × Elem b to_pods × (job_for a b ≡ job)
  unfolding jobs_from
  jobs_from-Elem_inv to_pods [] job e = elim e [ ]
  jobs_from-Elem_inv to_pods (p ∷ from_pods) job e =
      elim (Elem-append (map (job_for p) to_pods) (all_from to_pods from_pods) e) [
        | inl l ↦
            let (b, b_in, made) = Elem-map_inv (job_for p) to_pods l in
            (p, b, here refl, b_in, made)
        | inr r ↦
            let (a, b, a_in, b_in, made) = jobs_from-Elem_inv to_pods from_pods job r in
            (a, b, there a_in, b_in, made)
      ]

  length-jobs_from :
      (to_pods from_pods : List Ref)
      → length (all_from to_pods from_pods) ≡ length from_pods * length to_pods
  unfolding jobs_from
  length-jobs_from to_pods [] = omega arith
  length-jobs_from to_pods (p ∷ from_pods) = omega (
    arith,
    length-append (map (job_for p) to_pods) (all_from to_pods from_pods),
    length-map (job_for p) to_pods,
    length-jobs_from to_pods from_pods,
  )

  -- Every ordered pair of the model's pods has its job.
  pub make_jobs_complete :
      (pods : List Ref) (a b : Ref)
      → Elem a pods
      → Elem b pods
      → Elem (job_for a b) (make_jobs heap dns t reach measure pods)
  unfolding make_jobs
  make_jobs_complete pods a b = jobs_from-Elem pods pods a b

  -- Every job is the one for some ordered pair of the model's pods.
  pub make_jobs_sound :
      (pods : List Ref) (job : ProbeJob)
      → Elem job (make_jobs heap dns t reach measure pods)
      → (a b : Ref) × Elem a pods × Elem b pods × (job_for a b ≡ job)
  unfolding make_jobs
  make_jobs_sound pods job = jobs_from-Elem_inv pods pods job

  -- There are as many jobs as the two channels of a round have room for: the square of the number
  -- of pods.
  length-make_jobs :
      (pods : List Ref)
      → length (make_jobs heap dns t reach measure pods) ≡ length pods * length pods
  unfolding make_jobs
  length-make_jobs pods = length-jobs_from pods pods

  pub job_for_pods : (a b : Ref) → ((job_for a b).pod_from ≡ a) × ((job_for a b).pod_to ≡ b)
  unfolding make_job
  job_for_pods a b = (refl, refl)
