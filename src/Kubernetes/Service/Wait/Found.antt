-- ===== src/Kubernetes/Service/Wait/Found.antt =====
-- What the waits for a service find, and what it means that they find nothing.
use k8s_service_validator.Prelude.{
  ◌<◌, Bool, true, false, not, ◌&&◌, List, [], ◌∷◌, ◌≡◌, ◌≢◌, ◌⊎◌, refl, none, arith, length, ltb,
  ◌==◌, nat_eq, eq_iff, inl, inr, All, Bool-cases,
}
use k8s_service_validator.Prelude.Elem.{Elem, here, there, Elem-append}
use k8s_service_validator.Outcome.{ok}
use k8s_service_validator.Text.{Text, text_eq}
use k8s_service_validator.Kubernetes.Service.{K8sService}
use k8s_service_validator.Kubernetes.Service.Wait.{
  EndpointSubset, Endpoints, events, any_ready, ready_endpoint, wait_for_endpoint, first_cluster_ip,
  wait_for_cluster_ip, all_ingress, wait_for_external_ip,
}

first_cluster_ip_found :
    (name : Text) (svcs : List K8sService)
    → first_cluster_ip name svcs ≢ []
    → (svc : K8sService) × Elem svc svcs
      × (svc.name ≡ name)
      × (svc.cluster_ip ≡ first_cluster_ip name svcs)
unfolding first_cluster_ip
first_cluster_ip_found name [] h = absurd (h refl)
first_cluster_ip_found name (svc ∷ svcs) h =
    elim (Bool-cases (svc.name == name && not (svc.cluster_ip == []))) [
      | inl this ↦ (svc, here refl, ground (arith, eq_iff svc.name name), ground arith)
      | inr other ↦
          let (found, at, named, same) = first_cluster_ip_found name svcs (rw other at h) in
          (found, there at, named, ground arith)
    ]

-- The event has an address for the service of this name.
abbrev has_address_for : Text → K8sService → Bool
has_address_for name svc = svc.name == name && not (svc.cluster_ip == [])

first_cluster_ip_none :
    (name : Text) (svcs : List K8sService)
    → first_cluster_ip name svcs ≡ []
    → All (λ svc. has_address_for name svc ≡ false) svcs
unfolding first_cluster_ip
first_cluster_ip_none name [] h = tt
first_cluster_ip_none name (s ∷ svcs) h = elim (Bool-cases (has_address_for name s)) [
  | inl this ↦ absurd (ground (arith, eq_iff s.cluster_ip []))
  | inr other ↦ (other, first_cluster_ip_none name svcs (rw other at h))
]

-- If `WaitForClusterIP` returns, it returns the address of an event for a service of its name; or
-- the empty text, and then no event for a service of its name had an address.
wait_for_cluster_ip_lem :
    (s : K8sService) (svcs : List K8sService) (ip : Text)
    → wait_for_cluster_ip s (events svcs) ≡ ok (ip, none)
    → ((svc : K8sService) × Elem svc svcs × (svc.name ≡ s.name) × (svc.cluster_ip ≡ ip) × (ip ≢ []))
      ⊎ ((ip ≡ []) × All (λ svc. has_address_for s.name svc ≡ false) svcs)
unfolding wait_for_cluster_ip
wait_for_cluster_ip_lem s svcs ip e = elim (Bool-cases (ip == [])) [
  | inl empty ↦
      let is_empty = (eq_iff ip []).0 empty in
      inr (is_empty, first_cluster_ip_none s.name svcs (ground arith))
  | inr some_ip ↦
      let not_empty : ip ≢ [] = λ h. ground (arith, eq_iff ip []) in
      let (svc, at, named, same) =
        first_cluster_ip_found s.name svcs (λ h. not_empty (ground arith)) in
      inl (svc, at, named, ground arith, not_empty)
]

any_ready_found :
    (subsets : List EndpointSubset)
    → any_ready subsets ≡ true
    → (subset : EndpointSubset) × Elem subset subsets
      × (0 < length subset.addresses)
      × (length subset.not_ready_addresses ≡ 0)
unfolding any_ready
any_ready_found [] h = absurd (cc)
any_ready_found (s ∷ ss) h =
    elim (Bool-cases (ltb 0 (length s.addresses) && length s.not_ready_addresses == 0)) [
      | inl this ↦ (s, here refl, ground arith, ground arith)
      | inr other ↦
          let (subset, at, has, all) = any_ready_found ss (rw other at h) in
          (subset, there at, has, all)
    ]

-- If `WaitForEndpoint` returns true, some event had a subset with addresses of which all are ready.
-- It may be the event of another service of the namespace, and other subsets of it may not be ready.
wait_for_endpoint_found :
    (es : List Endpoints)
    → (wait_for_endpoint (events es)).0 ≡ true
    → (e : Endpoints) × (subset : EndpointSubset) × Elem e es
      × Elem subset e.subsets
      × (0 < length subset.addresses)
      × (length subset.not_ready_addresses ≡ 0)
unfolding wait_for_endpoint
wait_for_endpoint_found es h = among es h
  where
    among :
        (es : List Endpoints)
        → ready_endpoint es ≡ true
        → (e : Endpoints) × (subset : EndpointSubset) × Elem e es
          × Elem subset e.subsets
          × (0 < length subset.addresses)
          × (length subset.not_ready_addresses ≡ 0)
    among [] h = absurd (cc)
    among (e ∷ es) h = elim (Bool-cases (any_ready e.subsets)) [
      | inl this ↦
          let (subset, at, has, all) = any_ready_found e.subsets this in
          (e, subset, here refl, at, has, all)
      | inr other ↦
          let (found, subset, at, at', has, all) = among es (rw other at h) in
          (found, subset, there at, at', has, all)
    ]

all_ingress_found :
    (name : Text) (svcs : List K8sService) (ip : Text)
    → Elem ip (all_ingress name svcs)
    → (svc : K8sService) × Elem svc svcs × (svc.name ≡ name) × Elem ip svc.ingress
unfolding all_ingress
all_ingress_found name [] ip at = elim at [ ]
all_ingress_found name (svc ∷ svcs) ip at = elim (Bool-cases (svc.name == name)) [
  | inr other ↦
      let (found, place, named, has) = all_ingress_found name svcs ip (rw other at at) in
      (found, there place, named, has)
  | inl this ↦ elim (Elem-append svc.ingress (all_ingress name svcs) (rw this at at)) [
    | inl now ↦ (svc, here refl, (eq_iff svc.name name).0 this, now)
    | inr later ↦
        let (found, place, named, has) = all_ingress_found name svcs ip later in
        (found, there place, named, has)
  ]
]

-- Every address that `WaitForExternalIP` returns is of an event for a service of its name.
wait_for_external_ip_found :
    (s : K8sService) (svcs : List K8sService) (ip : Text)
    → Elem ip (wait_for_external_ip s (events svcs)).0
    → (svc : K8sService) × Elem svc svcs × (svc.name ≡ s.name) × Elem ip svc.ingress
unfolding wait_for_external_ip
wait_for_external_ip_found s svcs ip at = all_ingress_found s.name svcs ip at
