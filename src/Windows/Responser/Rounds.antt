-- ===== src/Windows/Responser/Rounds.antt =====
-- ProcessReadEvent of the responder on Windows.
use libcastis_heartbeat.Prelude.{ℕ, ◌≤◌, ◌≡◌, refl, ap, true, length, some}
use libcastis_heartbeat.Prelude.Machine.{Post-mono, returns}
use libcastis_heartbeat.Wire.{Host}
use libcastis_heartbeat.Os.{Sockets}
use libcastis_heartbeat.Responser.{on_read_socket_error}
use libcastis_heartbeat.Responser.Whole.{IsWhole, ThroughMessages, receive-Keeps, on_message-Keeps}
use libcastis_heartbeat.Windows.Calls.{Win}
use libcastis_heartbeat.Windows.Net.{NetworkThread, process_read_event}
use libcastis_heartbeat.Windows.Net.Rounds.{Ascending, KeepsSockets, process_read_event-finishes}
use libcastis_heartbeat.Windows.Responser.{Prog, net_virtuals}

module _ {World FdSet Addr : Type 0} (host : Host) (sockets : Sockets World Addr)
    (win : Win World FdSet) where
  anything : ThroughMessages sockets (λ _. Unit {0})
  anything = record { at_recvfrom = λ sock room w k. tt; at_sendto = λ sock bytes addr w k. tt }

  keeps : KeepsSockets (net_virtuals host sockets win) IsWhole
  unfolding on_read_socket_error
  keeps = record {
    net-set_net = λ t s. refl;
    at_count = λ n s p. p;
    on_receive = λ sockfd s p.
        Post-mono (receive-Keeps host sockets (λ _. Unit) anything sockfd s p tt)
          λ _ s' (same, whole, _). (whole, ap (λ (t : NetworkThread FdSet). t.read_sockets) same);
    on_message = λ sockfd m s p.
        Post-mono (on_message-Keeps host sockets (λ _. Unit) anything sockfd m s p tt)
          λ _ s' (same, whole, _). (whole, ap (λ (t : NetworkThread FdSet). t.read_sockets) same);
    on_error = λ sockfd s p. returns (p, refl);
  }

  -- ProcessReadEvent of the responder on Windows returns true on every outcome of the system's calls and
  -- for every datagram, never uses its iterator at a socket that is gone, and never writes past the message
  -- or m_szRecvBuf, if m_ReadSockets is a set, in order and without doubles, the addresses have less
  -- than 2 ^ 31 - 20 bytes together, and m_szRecvBuf has CIHB_MAX_DATA_SIZE bytes: a round of fuel for
  -- each read socket is enough. The read sockets are the same afterwards, and so are these bounds.
  pub process_read_event-IsWhole :
      (fuel : ℕ) (s : Prog FdSet World Addr)
      → IsWhole s
      → Ascending s.net.read_sockets
      → length s.net.read_sockets ≤ fuel
      → (s' : Prog FdSet World Addr) × (process_read_event win
            (net_virtuals host sockets win)
            fuel
            s
          ≡ some (true, s'))
        × (s'.net.read_sockets ≡ s.net.read_sockets)
        × IsWhole s'
  process_read_event-IsWhole fuel s p h le =
      process_read_event-finishes win (net_virtuals host sockets win) IsWhole fuel s keeps p h le
