-- ===== src/Commands.antt =====
-- pkg/commands: the command lines that probes run. `interface.go` is here, one child for each tool.
-- A nil slice is the empty list. The embedded `Client` interface of `commandImpl` is never called.
pub mod AgnHost
pub mod IPerf
pub mod Netcat
pub mod Laws
use k8s_service_validator.Prelude.{ℕ, Bool, List, ◌∷◌, [], ◌++◌, Option, none, true, false}
use k8s_service_validator.Text.{Text, codes, join}
use k8s_service_validator.Kubernetes.Exec.{Remote, Error, ExecOptions, exec_with_options}

-- `v1.Protocol` is a string type; these are its constants.
abbrev pub protocol_tcp : Text
protocol_tcp = codes "TCP"

abbrev pub protocol_udp : Text
protocol_udp = codes "UDP"

abbrev pub protocol_sctp : Text
protocol_sctp = codes "SCTP"

pub record CommandImpl : Type 0 where
  pub ns_from : Text
  pub pod_from : Text
  pub container_from : Text
  pub addr_to : Text
  pub port : Text
  pub protocol : Text
  pub cmd : List Text

unfoldable pub debug_string : CommandImpl → Text
debug_string c =
    codes "kubectl exec "
    ++ (c.pod_from
        ++ (codes " -c "
            ++ (c.container_from
                ++ (codes " -n " ++ (c.ns_from ++ (codes " -- " ++ join (codes " ") c.cmd))))))

module _ (r : Remote) where
  unfoldable pub execute : CommandImpl → r.World → (Text × Text × Option Error) × r.World
  execute c = exec_with_options r (record {
    command = c.cmd;
    namespace = c.ns_from;
    pod_name = c.pod_from;
    container_name = c.container_from;
    stdin = none;
    capture_stdout = true;
    capture_stderr = true;
    preserve_whitespace = false;
    quiet = false;
  })
