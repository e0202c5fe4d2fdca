-- ===== src/Matrix/Round/Unwritten.antt =====
-- Between pods whose containers have names, as those of a started pod have, the workers of a round
-- write nothing that they share.
use k8s_service_validator.Prelude.{List, [], ◌∷◌, ◌≡◌, ◌≢◌, refl, ap, ◌∙◌, All}
use k8s_service_validator.Kubernetes.Exec.{Remote}
use k8s_service_validator.Entities.Container.{Container}
use k8s_service_validator.Matrix.Bandwidth.{Floats, BandwidthResults}
use k8s_service_validator.Matrix.Connect.{Wrapping}
use k8s_service_validator.Matrix.Reachability.{Ref, Heap, Reachability}
use k8s_service_validator.Matrix.Probe.{ProbeJob}
use k8s_service_validator.Matrix.Probe.Filled.{NamesFilled}
use k8s_service_validator.Matrix.Round.{Round, Steps, start}
use k8s_service_validator.Matrix.Round.Invariant.{Inv-start}
use k8s_service_validator.Matrix.Round.Preserve.{Steps-Inv}

nothing_filled : (cs ds : List Container) → NamesFilled cs ds → All (λ c. c.name ≢ []) cs → ds ≡ cs
nothing_filled [] [] filled named = refl
nothing_filled [] (d ∷ ds) filled named = absurd filled
nothing_filled (c ∷ cs) [] filled named = absurd filled
nothing_filled (c ∷ cs) (d ∷ ds) (same, kept, filled) (has_name, named) =
    let this : d ≡ c = same ∙ ap (λ n. record c { name = n }) (kept has_name) in
    ap (λ e. e ∷ ds) this ∙ ap (λ es. c ∷ es) (nothing_filled cs ds filled named)

-- In every state of a round each pod whose containers have names is as it was at the start: there
-- is no write of one worker that another one could read.
round-unwritten :
    (fl : Floats) (remote : Remote) (wrapping : Wrapping) (heap : Heap) (all : List ProbeJob)
    (r : Reachability (BandwidthResults fl)) (s : Round fl) (p : Ref)
    → Steps fl remote wrapping (start heap all r) s
    → All (λ c. c.name ≢ []) (heap p).containers
    → s.heap p ≡ heap p
round-unwritten fl remote wrapping heap all r s p steps named =
    let i =
      Steps-Inv fl remote wrapping heap all r steps (Inv-start fl remote wrapping heap all r) in
    let (same, _, filled) = i.same p in
    same
    ∙ ap (λ (cs : List Container). record (heap p) { containers = cs })
        (nothing_filled (heap p).containers (s.heap p).containers filled named)
