-- ===== src/Commands/Laws.antt =====
-- What the command lines of the three clients say, and which protocols they cover.
use k8s_service_validator.Prelude.{ℕ, Bool, true, not, ◌||◌, ◌≡◌, arith, ◌==◌, eq_iff, is_empty}
use k8s_service_validator.Text.{Text, text_eq}
use k8s_service_validator.Commands.{CommandImpl, protocol_tcp, protocol_udp, protocol_sctp}
use k8s_service_validator.Commands.AgnHost
use k8s_service_validator.Commands.IPerf
use k8s_service_validator.Commands.Netcat

abbrev tcp_or_udp : Text → Bool
tcp_or_udp protocol = protocol == protocol_tcp || protocol == protocol_udp

module _ (ns_from pod_from container_from addr_to : Text) (port : ℕ) (protocol : Text) where
  -- The agnhost and the netcat client have a command exactly for TCP and UDP, the iperf client for
  -- SCTP too; for any other protocol the command is empty. The servers are the same.
  commands_empty :
      (is_empty (AgnHost.new_client ns_from pod_from container_from addr_to port protocol).cmd
        ≡ not (tcp_or_udp protocol))
      × (is_empty (Netcat.new_client ns_from pod_from container_from addr_to port protocol).cmd
          ≡ not (tcp_or_udp protocol))
      × (is_empty (IPerf.new_client ns_from pod_from container_from addr_to port protocol).cmd
          ≡ not (tcp_or_udp protocol || protocol == protocol_sctp))
      × (is_empty (AgnHost.new_server port protocol).cmd ≡ not (tcp_or_udp protocol))
      × (is_empty (IPerf.new_server port protocol).cmd
          ≡ not (tcp_or_udp protocol || protocol == protocol_sctp))
  unfolding AgnHost.new_client Netcat.new_client IPerf.new_client AgnHost.new_server
      IPerf.new_server AgnHost.connect_command Netcat.connect_command IPerf.connect_command
      AgnHost.serve_command IPerf.serve_command
  commands_empty = (ground arith, ground arith, ground arith, ground arith, ground arith)

-- The target of a probe: where to, on which port, by which protocol.
record SameTarget (a b : CommandImpl) : Type 0 where
  pub addr_to : a.addr_to ≡ b.addr_to
  pub port : a.port ≡ b.port
  pub protocol : a.protocol ≡ b.protocol

module _ (a b : CommandImpl) where
  -- Two netcat commands for TCP or UDP that are equal are for the same target.
  nc-SameTarget :
      tcp_or_udp a.protocol ≡ true
      → tcp_or_udp b.protocol ≡ true
      → Netcat.connect_command a ≡ Netcat.connect_command b
      → SameTarget a b
  unfolding Netcat.connect_command
  nc-SameTarget ha hb e = record {
    addr_to = ground arith;
    port = ground arith;
    protocol = ground (
      arith,
      eq_iff a.protocol protocol_tcp,
      eq_iff b.protocol protocol_tcp,
      eq_iff a.protocol protocol_udp,
      eq_iff b.protocol protocol_udp,
    );
  }

  -- Two iperf commands for TCP, UDP or SCTP that are equal are for the same target.
  iperf-SameTarget :
      (tcp_or_udp a.protocol || a.protocol == protocol_sctp) ≡ true
      → (tcp_or_udp b.protocol || b.protocol == protocol_sctp) ≡ true
      → IPerf.connect_command a ≡ IPerf.connect_command b
      → SameTarget a b
  unfolding IPerf.connect_command
  iperf-SameTarget ha hb e = record {
    addr_to = ground arith;
    port = ground arith;
    protocol = ground (
      arith,
      eq_iff a.protocol protocol_tcp,
      eq_iff b.protocol protocol_tcp,
      eq_iff a.protocol protocol_udp,
      eq_iff b.protocol protocol_udp,
      eq_iff a.protocol protocol_sctp,
      eq_iff b.protocol protocol_sctp,
    );
  }
