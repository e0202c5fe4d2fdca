-- ===== src/Entities/Container.antt =====
-- pkg/entities/container.go. A port is an int32 that no caller makes negative, so it is a natural
-- number. `random` stands for the result of `rand.Intn(1e5)`; seeding and logging have no part.
use k8s_service_validator.Prelude.{
  ℕ, not, is_empty, List, [], ◌∷◌, ◌++◌, ◌==◌, nat_eq, ltb, if◌then◌else◌,
}
use k8s_service_validator.Text.{Text, codes, text_eq, itoa, to_lower}
use k8s_service_validator.Commands.AgnHost

abbrev pub not_specified_image : Text
not_specified_image = []

abbrev pub agnhost_image : Text
agnhost_image = codes "k8s.gcr.io/e2e-test-images/agnhost:2.31"

pub record Container : Type 0 where
  pub name : Text
  pub image : Text
  pub command : List Text
  pub protocol : Text
  pub port : ℕ

-- `v1.ContainerPort` and `v1.Container`, the fields that the program sets.
pub record ContainerPort : Type 0 where
  pub container_port : ℕ
  pub name : Text
  pub protocol : Text

pub record K8sContainer : Type 0 where
  pub name : Text
  pub image_pull_policy : Text
  pub image : Text
  pub command : List Text
  pub ports : List ContainerPort

-- The name is filled in on first use: the container comes back with it.
unfoldable pub get_name : ℕ → Container → Text × Container
get_name random c =
    let name =
      if c.name == []
      then if c.port == 0
        then codes "cont-" ++ itoa random
        else codes "cont-" ++ (itoa c.port ++ (codes "-" ++ to_lower c.protocol))
      else c.name in
    (name, record c { name = name })

unfoldable pub port_name : ℕ → Container → Text
port_name random c =
    if c.port == 0
    then codes "serve-" ++ itoa random
    else codes "serve-" ++ (itoa c.port ++ (codes "-" ++ to_lower c.protocol))

-- With no command of its own a container of the default image serves; of another image it is an
-- error that is only logged.
unfoldable pub to_k8s_spec : ℕ → ℕ → Container → K8sContainer × Container
unfolding get_name
to_k8s_spec random random' c =
    let (name, c') = get_name random c in
    let image = if not (c'.image == not_specified_image) then c'.image else agnhost_image in
    let cmd =
      if is_empty c'.command
      then if image == agnhost_image
        then AgnHost.serve_command (AgnHost.new_server c'.port c'.protocol)
        else c'.command
      else c'.command in
    let ports =
      if ltb 0 c'.port
      then record { container_port = c'.port; name = port_name random' c'; protocol = c'.protocol }
        ∷ []
      else [] in
    (
      record {
        name = name;
        image_pull_policy = codes "IfNotPresent";
        image = image;
        command = cmd;
        ports = ports;
      },
      c',
    )
