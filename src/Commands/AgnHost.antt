-- ===== src/Commands/AgnHost.antt =====
-- pkg/commands/agnhost.go.
use k8s_service_validator.Prelude.{ℕ, List, [], ◌∷◌, ◌++◌, ◌==◌, nat_eq, contains, if◌then◌else◌}
use k8s_service_validator.Text.{Text, codes, text_eq, itoa}
use k8s_service_validator.Commands.{CommandImpl, protocol_tcp, protocol_udp}

-- `net.JoinHostPort`: a host with a colon is an IPv6 address and gets brackets.
unfoldable pub join_host_port : Text → Text → Text
unfolding contains
join_host_port host port =
    if contains b':' host
    then codes "[" ++ (host ++ (codes "]:" ++ port))
    else host ++ (codes ":" ++ port)

unfoldable pub connect_command : CommandImpl → List Text
connect_command c =
    if c.protocol == protocol_tcp
    then codes "/agnhost"
      ∷ codes "connect"
      ∷ join_host_port c.addr_to c.port
      ∷ codes "--timeout=5s"
      ∷ codes "--protocol=tcp"
      ∷ []
    else if c.protocol == protocol_udp
    then codes "/agnhost"
      ∷ codes "connect"
      ∷ join_host_port c.addr_to c.port
      ∷ codes "--timeout=5s"
      ∷ codes "--protocol=udp"
      ∷ []
    else []

unfoldable pub serve_command : CommandImpl → List Text
serve_command c =
    if c.protocol == protocol_tcp
    then codes "/agnhost"
      ∷ codes "serve-hostname"
      ∷ codes "--tcp"
      ∷ codes "--http=false"
      ∷ codes "--port"
      ∷ c.port
      ∷ []
    else if c.protocol == protocol_udp
    then codes "/agnhost"
      ∷ codes "serve-hostname"
      ∷ codes "--udp"
      ∷ codes "--http=false"
      ∷ codes "--port"
      ∷ c.port
      ∷ []
    else []

unfoldable pub new_client : Text → Text → Text → Text → ℕ → Text → CommandImpl
new_client ns_from pod_from container_from addr_to port protocol =
    let agn_host : CommandImpl = record {
      ns_from = ns_from;
      pod_from = pod_from;
      container_from = container_from;
      addr_to = addr_to;
      port = itoa port;
      protocol = protocol;
      cmd = [];
    } in
    record agn_host { cmd = connect_command agn_host }

unfoldable pub new_server : ℕ → Text → CommandImpl
new_server port protocol =
    let agn_host : CommandImpl = record {
      ns_from = [];
      pod_from = [];
      container_from = [];
      addr_to = [];
      port = itoa port;
      protocol = protocol;
      cmd = [];
    } in
    record agn_host { cmd = serve_command agn_host }
