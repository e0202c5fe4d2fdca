-- ===== src/Matrix/Connect/Retry.antt =====
-- The retries of `ProbeConnectivityWithNc`, and the error that it never returns.
use k8s_service_validator.Prelude.{
  ℕ, zero, suc, ◌<◌, Bool, true, false, ◌≡◌, ◌≢◌, Option, none, some, arith, inl, inr, Option-cases,
  subst,
}
use k8s_service_validator.Text.{Text, trim_space}
use k8s_service_validator.Kubernetes.Exec.{Remote, Error}
use k8s_service_validator.Commands.{CommandImpl, execute}
use k8s_service_validator.Commands.Netcat
use k8s_service_validator.Matrix.Connect.{
  Wrapping, max_retries, attempts, failure_message, probe_connectivity, probe_connectivity_with_nc,
}

module _ (remote : Remote) where
  -- The cluster after `k` runs of a command, and what the next run answers.
  pub world_after : ℕ → CommandImpl → remote.World → remote.World
  world_after zero nc w = w
  world_after (suc k) nc w = world_after k nc (execute remote nc w).1

  abbrev pub answer : ℕ → CommandImpl → remote.World → Text × Text × Option Error
  answer k nc w = (execute remote nc (world_after k nc w)).0

  -- The first run without an error, of `n` runs.
  pub data FirstSuccess (nc : CommandImpl) (w : remote.World) (n : ℕ) (ep : Text) : Type 0 where
    at :
        (k : ℕ)
        → k < n
        → ((j : ℕ) → j < k → (answer j nc w).2 ≢ none)
        → (answer k nc w).2 ≡ none
        → ep ≡ trim_space (answer k nc w).0
        → FirstSuccess nc w n ep

  later :
      (n : ℕ) (nc : CommandImpl) (w : remote.World) (ep : Text)
      → (execute remote nc w).0.2 ≢ none
      → FirstSuccess nc (execute remote nc w).1 n ep
      → FirstSuccess nc w (suc n) ep
  unfolding world_after
  later n nc w ep failed (at k in_range all_failed success output) =
      at (suc k) (omega arith) before success output
    where
      before : (j : ℕ) → j < suc k → (answer j nc w).2 ≢ none
      before zero p = failed
      before (suc j) p = all_failed j (omega arith)

  attempts-some :
      (n : ℕ) (nc : CommandImpl) (w : remote.World) (ep : Text)
      → (attempts remote n nc w).0 ≡ some ep
      → FirstSuccess nc w n ep
  unfolding attempts world_after
  attempts-some zero nc w ep h = cc
  attempts-some (suc n) nc w ep h = elim (Option-cases (execute remote nc w).0.2) [
    | inl success ↦ at zero (omega arith) (λ j p. elim p [ ]) success (ground arith)
    | inr (e, failure) ↦
        later n nc w ep (ground arith)
          (attempts-some n nc (execute remote nc w).1 ep (ground arith))
  ]

  attempts-none :
      (n : ℕ) (nc : CommandImpl) (w : remote.World) (k : ℕ)
      → (attempts remote n nc w).0 ≡ none
      → k < n
      → (answer k nc w).2 ≢ none
  unfolding attempts world_after
  attempts-none zero nc w k h p = elim p [ ]
  attempts-none (suc n) nc w zero h p = ground arith
  attempts-none (suc n) nc w (suc k) h p = elim (Option-cases (execute remote nc w).0.2) [
    | inl success ↦ ground arith
    | inr (e, failure) ↦ attempts-none n nc (execute remote nc w).1 k (ground arith) (omega arith)
  ]

module _ (remote : Remote) (wrapping : Wrapping)
    (ns_from pod_from container_from addr_to protocol : Text) (to_port : ℕ) (w : remote.World) where
  abbrev nc_client : CommandImpl
  nc_client = Netcat.new_client ns_from pod_from container_from addr_to to_port protocol

  abbrev pub nc_reply : Bool × Text × Text × Option Error
  nc_reply =
      (probe_connectivity_with_nc remote wrapping ns_from pod_from container_from addr_to protocol
        to_port w).0

  -- A probe with netcat that is connected returns what the first successful one of at most three
  -- runs printed.
  pub nc_connected : nc_reply.0 ≡ true → FirstSuccess remote nc_client w max_retries nc_reply.1
  unfolding probe_connectivity_with_nc
  nc_connected h = elim (Option-cases (attempts remote max_retries nc_client w).0) [
    | inl all_failed ↦ ground arith
    | inr (ep, found) ↦
        let reply : ep ≡ nc_reply.1 = ground arith in
        subst (FirstSuccess remote nc_client w max_retries) reply
          (attempts-some remote max_retries nc_client w ep found)
  ]

  -- A probe with netcat that is not connected has seen three runs fail.
  nc_not_connected :
      (k : ℕ) → nc_reply.0 ≡ false → k < max_retries → (answer remote k nc_client w).2 ≢ none
  unfolding probe_connectivity_with_nc
  nc_not_connected k h p = attempts-none remote max_retries nc_client w k (ground arith) p

  -- A probe with netcat returns no error, not even when each of the three runs failed.
  pub nc_no_error : nc_reply.3 ≡ none
  unfolding probe_connectivity_with_nc
  nc_no_error = ground (arith, wrapping.wrapf_nil (failure_message ns_from pod_from addr_to))

-- A failed agnhost client is no error either.
pub agn_host_no_error :
    (remote : Remote) (ns_from pod_from container_from addr_to protocol : Text) (to_port : ℕ)
    (w : remote.World)
    → (probe_connectivity remote ns_from pod_from container_from addr_to protocol to_port w).0.2
      ≡ none
unfolding probe_connectivity
agn_host_no_error remote ns_from pod_from container_from addr_to protocol to_port w = ground arith
