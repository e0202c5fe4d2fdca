-- ===== src/Kubernetes/Exec.antt =====
-- pkg/entities/kubernetes/exec.go, the part that runs a command in a container. The SPDY stream of
-- client-go is the parameter `Remote`: its state `World` is the cluster as it changes in time.
use k8s_service_validator.Prelude.{Bool, true, false, List, [], Option, none, some, if◌then◌else◌}
use k8s_service_validator.Text.{Text, trim_space}

-- A value of Go's `error` type that is not nil, by its message.
pub record Error : Type 0 where
  pub message : Text

pub record ExecOptions : Type 0 where
  pub command : List Text
  pub namespace : Text
  pub pod_name : Text
  pub container_name : Text
  pub stdin : Option Text
  pub capture_stdout : Bool
  pub capture_stderr : Bool
  pub preserve_whitespace : Bool
  pub quiet : Bool

-- The POST request on a pod's `exec` subresource, with its `PodExecOptions`.
pub record ExecRequest : Type 0 where
  pub name : Text
  pub namespace : Text
  pub container : Text
  pub command : List Text
  pub stdin : Bool
  pub stdout : Bool
  pub stderr : Bool
  pub tty : Bool

-- client-go's remotecommand: an executor for a request, or an error; and its stream, which writes
-- what the command prints and returns the command's error.
pub record Remote : Type 1 where
  pub World : Type 0
  pub new_executor : ExecRequest → Option Error
  pub stream : ExecRequest → Option Text → World → (Text × Text × Option Error) × World

is_some {ℓ} : {A : Type ℓ} → Option A → Bool
is_some none = false
is_some (some _) = true

module _ (r : Remote) where
  unfoldable pub execute :
      ExecRequest → Option Text → r.World → (Text × Text × Option Error) × r.World
  execute req stdin w = elim (r.new_executor req) [
    | some err ↦ (([], [], some err), w)
    | none ↦ r.stream req stdin w
  ]

  unfoldable pub exec_with_options : ExecOptions → r.World → (Text × Text × Option Error) × r.World
  unfolding is_some
  exec_with_options options w =
      let req : ExecRequest = record {
        name = options.pod_name;
        namespace = options.namespace;
        container = options.container_name;
        command = options.command;
        stdin = is_some options.stdin;
        stdout = options.capture_stdout;
        stderr = options.capture_stderr;
        tty = false;
      } in
      let ((stdout, stderr, err), w') = execute req options.stdin w in
      if options.preserve_whitespace
      then ((stdout, stderr, err), w')
      else ((trim_space stdout, trim_space stderr, err), w')
