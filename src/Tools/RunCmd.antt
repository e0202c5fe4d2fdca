-- ===== src/Tools/RunCmd.antt =====
-- pkg/tools/helpers.go, `RunCmd`. The programs that it runs, and the error package, are the parameter
-- `Programs`.
use k8s_service_validator.Prelude.{List, [], ◌++◌, Option, none, some}
use k8s_service_validator.Text.{Text, codes}
use k8s_service_validator.Kubernetes.Exec.{Error}

pub record Programs : Type 1 where
  pub World : Type 0
  -- `String` of a command.
  pub shown : Text → List Text → Text
  pub output : Text → List Text → World → (Text × Option Error) × World
  pub wrap : Error → Text → Error

module _ (programs : Programs) where
  -- Beside an error there is no output.
  unfoldable pub run_cmd :
      Text → List Text → programs.World → (Text × Option Error) × programs.World
  run_cmd name args w =
      let ((out, err), w') = programs.output name args w in
      elim err [
        | some e ↦ (
          ([], some (programs.wrap e (codes "failed to run cmd: " ++ programs.shown name args))),
          w',
        )
        | none ↦ ((out, none), w')
      ]
