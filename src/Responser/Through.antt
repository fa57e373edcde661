-- ===== src/Responser/Through.antt =====
-- What the calls of the system that the responder makes do not change.
use libcastis_heartbeat.Prelude.{ℕ, ℤ, List}
use libcastis_heartbeat.Poll.{Pollfd}
use libcastis_heartbeat.Os.{Os}

-- A fact about the world that holds through the calls of a round.
pub record ThroughRounds {World Addr : Type 0} (os : Os World Addr) (K : World → Type 0)
    : Type 0 where
  pub at_poll : (fds : List Pollfd) (timeout : ℤ) (w : World) → K w → K (os.poll fds timeout w).2
  pub at_recvfrom : (sock : ℤ) (room : ℕ) (w : World) → K w → K (os.recvfrom sock room w).1
  pub at_sendto :
      (sock : ℤ) (bytes : List ℕ) (addr : Addr) (w : World)
      → K w
      → K (os.sendto sock bytes addr w).1
  pub at_usleep : (n : ℕ) (w : World) → K w → K (os.usleep n w)
  pub at_ended : (w : World) → K w → K (os.ended w).1

-- And through those that make the socket and close it.
pub record Through {World Addr : Type 0} (os : Os World Addr) (K : World → Type 0) : Type 0 where
  pub rounds : ThroughRounds os K
  pub at_socket : (w : World) → K w → K (os.socket w).1
  pub at_reuse : (sock : ℤ) (value : ℕ) (w : World) → K w → K (os.set_reuse_addr sock value w).1
  pub at_bind : (sock : ℤ) (port : ℕ) (w : World) → K w → K (os.bind sock port w).1
  pub at_close : (sock : ℤ) (w : World) → K w → K (os.close sock w).1

-- Nothing.
pub anything : {World Addr : Type 0} (os : Os World Addr) → ThroughRounds os (λ _. Unit)
anything os = record {
  at_poll = λ fds timeout w p. tt;
  at_recvfrom = λ sock room w p. tt;
  at_sendto = λ sock bytes addr w p. tt;
  at_usleep = λ n w p. tt;
  at_ended = λ w p. tt;
}
