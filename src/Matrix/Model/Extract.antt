-- ===== src/Matrix/Model/Extract.antt =====
-- `extractPortProtocols` collects the ports and the protocols of the containers.
use k8s_service_validator.Prelude.{
  ℕ, Bool, false, not, ◌&&◌, ◌||◌, List, [], ◌∷◌, ◌++◌, ◌≡◌, arith, ◌==◌, nat_eq, eq_iff, contains,
  Eq,
}
use k8s_service_validator.Text.{Text, text_eq}
use k8s_service_validator.Entities.Container.{Container}
use k8s_service_validator.Entities.Namespace.{Namespace}
use k8s_service_validator.Matrix.Reachability.{Ref, Heap}
use k8s_service_validator.Matrix.Model.{
  Found, int_on_slice, protocol_on_slice, extract_container, extract_containers, extract_pods,
  extract_namespaces, extract_port_protocols,
}

-- Some container of the namespaces' pods passes the test.
abbrev pub any_container : (Container → Bool) → List Container → Bool
any_container test [] = false
any_container test (c ∷ cs) = test c || any_container test cs

abbrev pub any_pod : (Container → Bool) → Heap → List Ref → Bool
any_pod test heap [] = false
any_pod test heap (p ∷ ps) = any_container test (heap p).containers || any_pod test heap ps

abbrev pub any_namespace : (Container → Bool) → Heap → List (Namespace Ref) → Bool
any_namespace test heap [] = false
any_namespace test heap (ns ∷ nss) = any_pod test heap ns.pods || any_namespace test heap nss

pub contains-append {ℓ} :
    {A : Type ℓ} ⦃e : Eq A⦄ (a x : A) (xs : List A)
    → contains a (xs ++ x ∷ []) ≡ (contains a xs || x == a)
unfolding contains
contains-append a x [] = ground arith
contains-append a x (y ∷ xs) = ground (arith, contains-append a x xs)

abbrev pub has_port : ℕ → Container → Bool
has_port n c = not (n == 0) && c.port == n

abbrev pub has_protocol : Text → Container → Bool
has_protocol t c = not (t == []) && c.protocol == t

module _ (n : ℕ) where
  port_container :
      (c : Container) (found : Found)
      → contains n (extract_container c found).0 ≡ (contains n found.0 || has_port n c)
  unfolding extract_container int_on_slice
  port_container c (ports, protocols) =
      ground (arith, contains-append n c.port ports, eq_iff c.port n, eq_iff c.port 0, eq_iff n 0)

  port_containers :
      (cs : List Container) (found : Found)
      → contains n (extract_containers cs found).0
        ≡ (contains n found.0 || any_container (has_port n) cs)
  unfolding extract_containers
  port_containers [] found = ground arith
  port_containers (c ∷ cs) found =
      ground (arith, port_container c found, port_containers cs (extract_container c found))

  port_pods :
      (heap : Heap) (ps : List Ref) (found : Found)
      → contains n (extract_pods heap ps found).0
        ≡ (contains n found.0 || any_pod (has_port n) heap ps)
  unfolding extract_pods
  port_pods heap [] found = ground arith
  port_pods heap (p ∷ ps) found = ground (
    arith,
    port_containers (heap p).containers found,
    port_pods heap ps (extract_containers (heap p).containers found),
  )

  port_namespaces :
      (heap : Heap) (nss : List (Namespace Ref)) (found : Found)
      → contains n (extract_namespaces heap nss found).0
        ≡ (contains n found.0 || any_namespace (has_port n) heap nss)
  unfolding extract_namespaces
  port_namespaces heap [] found = ground arith
  port_namespaces heap (ns ∷ nss) found = ground (
    arith,
    port_pods heap ns.pods found,
    port_namespaces heap nss (extract_pods heap ns.pods found),
  )

module _ (t : Text) where
  protocol_container :
      (c : Container) (found : Found)
      → contains t (extract_container c found).1 ≡ (contains t found.1 || has_protocol t c)
  unfolding extract_container protocol_on_slice
  protocol_container c (ports, protocols) = ground (
    arith,
    contains-append t c.protocol protocols,
    eq_iff c.protocol t,
    eq_iff c.protocol [],
    eq_iff t [],
  )

  protocol_containers :
      (cs : List Container) (found : Found)
      → contains t (extract_containers cs found).1
        ≡ (contains t found.1 || any_container (has_protocol t) cs)
  unfolding extract_containers
  protocol_containers [] found = ground arith
  protocol_containers (c ∷ cs) found =
      ground (arith, protocol_container c found, protocol_containers cs (extract_container c found))

  protocol_pods :
      (heap : Heap) (ps : List Ref) (found : Found)
      → contains t (extract_pods heap ps found).1
        ≡ (contains t found.1 || any_pod (has_protocol t) heap ps)
  unfolding extract_pods
  protocol_pods heap [] found = ground arith
  protocol_pods heap (p ∷ ps) found = ground (
    arith,
    protocol_containers (heap p).containers found,
    protocol_pods heap ps (extract_containers (heap p).containers found),
  )

  protocol_namespaces :
      (heap : Heap) (nss : List (Namespace Ref)) (found : Found)
      → contains t (extract_namespaces heap nss found).1
        ≡ (contains t found.1 || any_namespace (has_protocol t) heap nss)
  unfolding extract_namespaces
  protocol_namespaces heap [] found = ground arith
  protocol_namespaces heap (ns ∷ nss) found = ground (
    arith,
    protocol_pods heap ns.pods found,
    protocol_namespaces heap nss (extract_pods heap ns.pods found),
  )

-- The ports that `extractPortProtocols` returns are the ports other than 0 that some container of
-- the namespaces has; the protocols are the protocols with a name that some container has.
pub extract_port_protocols_lem :
    (heap : Heap) (namespaces : List (Namespace Ref)) (n : ℕ) (t : Text)
    → (contains n (extract_port_protocols heap namespaces).0
        ≡ any_namespace (has_port n) heap namespaces)
      × (contains t (extract_port_protocols heap namespaces).1
          ≡ any_namespace (has_protocol t) heap namespaces)
unfolding extract_port_protocols contains
extract_port_protocols_lem heap namespaces n t =
    (port_namespaces n heap namespaces ([], []), protocol_namespaces t heap namespaces ([], []))
