-- ===== src/Commands/IPerf.antt =====
-- pkg/commands/iperf.go.
use k8s_service_validator.Prelude.{ℕ, List, [], ◌∷◌, ◌==◌, if◌then◌else◌}
use k8s_service_validator.Text.{Text, codes, text_eq, itoa}
use k8s_service_validator.Commands.{CommandImpl, protocol_tcp, protocol_udp, protocol_sctp}

unfoldable pub connect_command : CommandImpl → List Text
connect_command c =
    if c.protocol == protocol_tcp
    then codes "/usr/bin/iperf"
      ∷ codes "--client"
      ∷ c.addr_to
      ∷ codes "--port"
      ∷ c.port
      ∷ codes "-yC"
      ∷ []
    else if c.protocol == protocol_udp
    then codes "/usr/bin/iperf"
      ∷ codes "--client"
      ∷ c.addr_to
      ∷ codes "--port"
      ∷ c.port
      ∷ codes "--udp"
      ∷ codes "-yC"
      ∷ []
    else if c.protocol == protocol_sctp
    then codes "/usr/bin/iperf"
      ∷ codes "--client"
      ∷ c.addr_to
      ∷ codes "--port"
      ∷ c.port
      ∷ codes "--sctp"
      ∷ codes "-yC"
      ∷ []
    else []

unfoldable pub serve_command : CommandImpl → List Text
serve_command c =
    if c.protocol == protocol_tcp
    then codes "/usr/bin/iperf" ∷ codes "--server" ∷ codes "--port" ∷ c.port ∷ []
    else if c.protocol == protocol_udp
    then codes "/usr/bin/iperf" ∷ codes "--server" ∷ codes "--port" ∷ c.port ∷ codes "--udp" ∷ []
    else if c.protocol == protocol_sctp
    then codes "/usr/bin/iperf" ∷ codes "--server" ∷ codes "--port" ∷ c.port ∷ codes "--sctp" ∷ []
    else []

unfoldable pub new_client : Text → Text → Text → Text → ℕ → Text → CommandImpl
new_client ns_from pod_from container_from addr_to port protocol =
    let iperf : CommandImpl = record {
      ns_from = ns_from;
      pod_from = pod_from;
      container_from = container_from;
      addr_to = addr_to;
      port = itoa port;
      protocol = protocol;
      cmd = [];
    } in
    record iperf { cmd = connect_command iperf }

unfoldable pub new_server : ℕ → Text → CommandImpl
new_server port protocol =
    let iperf : CommandImpl = record {
      ns_from = [];
      pod_from = [];
      container_from = [];
      addr_to = [];
      port = itoa port;
      protocol = protocol;
      cmd = [];
    } in
    record iperf { cmd = serve_command iperf }
