-- ===== src/Matrix/ClientSet.antt =====
-- pkg/matrix/helper.go, `NewClientSet`: where the configuration of the connection comes from. The
-- file system, the environment and client-go are the parameter `Environment`.
use k8s_service_validator.Prelude.{[], ◌++◌, ◌≡◌, Option, none, some, arith, ◌==◌, if◌then◌else◌}
use k8s_service_validator.Outcome.{Outcome, ok, panic, raised, ◌>>=◌}
use k8s_service_validator.Text.{Text, codes, text_eq}
use k8s_service_validator.Kubernetes.Exec.{Error}

-- What a call of client-go returns beside an error is not looked at.
record Environment : Type 1 where
  pub Config : Type 0
  pub ClientSet : Type 0
  pub lookup_env : Text → Option Text
  pub home_dir : Text
  pub stat : Text → Option Error
  pub build_config_from_flags : Text → Config × Option Error
  pub in_cluster_config : Config × Option Error
  pub new_for_config : Config → ClientSet × Option Error

-- `filepath.Join(home, ".kube", "config")` for a home directory that is written in its short form.
abbrev default_path : Text → Text
default_path home = if home == [] then codes ".kube/config" else home ++ codes "/.kube/config"

-- `if err != nil { panic(err.Error()) }` after a call.
abbrev or_panic : {A : Type 0} → A × Option Error → Outcome A
or_panic (a, err) = elim err [ none ↦ ok a | some e ↦ panic (raised e.message) ]

module _ (e : Environment) where
  open e use {Config, ClientSet}

  unfoldable kubeconfig : Text
  kubeconfig = elim (e.lookup_env (codes "KUBECONFIG")) [
    | some path ↦ path
    | none ↦ default_path e.home_dir
  ]

  unfoldable load_config : Outcome Config
  unfolding kubeconfig
  load_config = elim (e.stat kubeconfig) [
    | none ↦ or_panic (e.build_config_from_flags kubeconfig)
    | some _ ↦ or_panic e.in_cluster_config
  ]

  unfoldable new_client_set : Outcome (ClientSet × Config)
  unfolding load_config
  new_client_set = do
    config ← load_config
    clientset ← or_panic (e.new_for_config config)
    ok (clientset, config)

  -- If `NewClientSet` returns, its configuration is the one of the file that KUBECONFIG names, if
  -- the variable is set and the file is there, and the client set was made of it without an error.
  new_client_set_named :
      (path : Text) (clientset : ClientSet) (config : Config)
      → e.lookup_env (codes "KUBECONFIG") ≡ some path
      → e.stat path ≡ none
      → new_client_set ≡ ok (clientset, config)
      → (e.build_config_from_flags path ≡ (config, none))
        × (e.new_for_config config ≡ (clientset, none))
  unfolding new_client_set
  new_client_set_named path clientset config set there returns = ground arith
