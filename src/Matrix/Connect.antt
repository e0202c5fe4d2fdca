-- ===== src/Matrix/Connect.antt =====
-- pkg/matrix/manager.go, the three `ProbeConnectivity` methods of KubeManager: each runs a client
-- command in the source pod. The error package github.com/pkg/errors is the parameter `Wrapping`.
pub mod Retry
use k8s_service_validator.Prelude.{
  ℕ, zero, suc, Bool, true, false, ◌++◌, List, [], ◌≡◌, ◌≢◌, Option, none, some, if◌then◌else◌,
}
use k8s_service_validator.Outcome.{Outcome, ok, ◌>>=◌}
use k8s_service_validator.Text.{Text, codes, trim_space}
use k8s_service_validator.Kubernetes.Exec.{Remote, Error, exec_with_options}
use k8s_service_validator.Commands.{CommandImpl, debug_string, execute}
use k8s_service_validator.Commands.AgnHost
use k8s_service_validator.Commands.IPerf
use k8s_service_validator.Commands.Netcat
use k8s_service_validator.Matrix.Bandwidth.{Floats, BandwidthResults, from_comma_separated_string}

-- `errors.Wrapf` is documented to return nil for a nil error, and an error for an error.
pub record Wrapping : Type 0 where
  pub wrapf : Option Error → Text → Option Error
  pub wrapf_nil : (message : Text) → wrapf none message ≡ none
  pub wrapf_error : (e : Error) (message : Text) → wrapf (some e) message ≢ none

abbrev pub max_retries : ℕ
max_retries = 3

module _ (fl : Floats) (remote : Remote) where
  -- A failed command is no error of the probe: the pods are not connected.
  unfoldable pub probe_connectivity_iperf :
      Text
      → Text
      → Text
      → Text
      → Text
      → ℕ
      → remote.World
      → Outcome ((Bool × Option (BandwidthResults fl) × Text × Option Error) × remote.World)
  probe_connectivity_iperf ns_from pod_from container_from addr_to protocol to_port w =
      let iperf = IPerf.new_client ns_from pod_from container_from addr_to to_port protocol in
      let ((stdout, stderr, err), w') = execute remote iperf w in
      elim err [
        | some _ ↦ ok ((false, none, debug_string iperf, none), w')
        | none ↦ do
          parsed ← from_comma_separated_string fl stdout
          let reply : Bool × Option (BandwidthResults fl) × Text × Option Error = elim parsed.1 [
            | some e ↦ (false, none, debug_string iperf, some e)
            | none ↦ (true, some parsed.0, debug_string iperf, none)
          ]
          ok (reply, w')
      ]

-- The loop declares `stdout` and `err` anew, so behind it both are still unset: the message shows
-- a nil error and no output, and the error that is wrapped is nil.
failure_message : Text → Text → Text → Text
failure_message ns_from pod_from addr_to =
    ns_from
    ++ (codes "/"
        ++ (pod_from
            ++ (codes " -> "
                ++ (addr_to ++ codes ": error when running command: err - <nil> /// stdout - "))))

module _ (remote : Remote) where
  unfoldable pub probe_connectivity :
      Text
      → Text
      → Text
      → Text
      → Text
      → ℕ
      → remote.World
      → (Bool × Text × Option Error) × remote.World
  probe_connectivity ns_from pod_from container_from addr_to protocol to_port w =
      let agn_host = AgnHost.new_client ns_from pod_from container_from addr_to to_port protocol in
      let ((stdout, stderr, err), w') = execute remote agn_host w in
      elim err [
        | some _ ↦ ((false, debug_string agn_host, none), w')
        | none ↦ ((true, debug_string agn_host, none), w')
      ]

  unfoldable execute_remote_command :
      Text → Text → Text → List Text → remote.World → (Text × Text × Option Error) × remote.World
  execute_remote_command namespace pod container_name command w =
      exec_with_options remote
        (record {
          command = command;
          namespace = namespace;
          pod_name = pod;
          container_name = container_name;
          stdin = none;
          capture_stdout = true;
          capture_stderr = true;
          preserve_whitespace = false;
          quiet = false;
        })
        w

  -- The loop: the output of the first attempt without an error, if there is one.
  pub attempts : ℕ → CommandImpl → remote.World → Option Text × remote.World
  attempts zero nc w = (none, w)
  attempts (suc n) nc w =
      let ((stdout, stderr, err), w') = execute remote nc w in
      elim err [ none ↦ (some (trim_space stdout), w') | some _ ↦ attempts n nc w' ]

  unfoldable pub probe_connectivity_with_nc :
      Wrapping
      → Text
      → Text
      → Text
      → Text
      → Text
      → ℕ
      → remote.World
      → (Bool × Text × Text × Option Error) × remote.World
  unfolding attempts failure_message
  probe_connectivity_with_nc wrapping ns_from pod_from container_from addr_to protocol to_port w =
      let nc = Netcat.new_client ns_from pod_from container_from addr_to to_port protocol in
      let (found, w') = attempts max_retries nc w in
      elim found [
        | some ep ↦ ((true, ep, debug_string nc, none), w')
        | none ↦ (
          (
            false,
            [],
            debug_string nc,
            wrapping.wrapf none (failure_message ns_from pod_from addr_to),
          ),
          w',
        )
      ]
