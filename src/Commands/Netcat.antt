-- ===== src/Commands/Netcat.antt =====
-- pkg/commands/netcat.go.
use k8s_service_validator.Prelude.{ℕ, List, [], ◌∷◌, ◌==◌, if◌then◌else◌}
use k8s_service_validator.Text.{Text, codes, text_eq, itoa}
use k8s_service_validator.Commands.{CommandImpl, protocol_tcp, protocol_udp}

unfoldable pub connect_command : CommandImpl → List Text
connect_command c =
    if c.protocol == protocol_tcp
    then codes "nc" ∷ codes "-w10" ∷ c.addr_to ∷ c.port ∷ []
    else if c.protocol == protocol_udp
    then codes "nc" ∷ codes "-u" ∷ codes "-w10" ∷ c.addr_to ∷ c.port ∷ []
    else []

unfoldable pub new_client : Text → Text → Text → Text → ℕ → Text → CommandImpl
new_client ns_from pod_from container_from addr_to port protocol =
    let nc : CommandImpl = record {
      ns_from = ns_from;
      pod_from = pod_from;
      container_from = container_from;
      addr_to = addr_to;
      port = itoa port;
      protocol = protocol;
      cmd = [];
    } in
    record nc { cmd = connect_command nc }
