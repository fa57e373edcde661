-- ===== src/Responser/Rounds.antt =====
-- Run of the responder returns, whatever arrives.
use libcastis_heartbeat.Prelude.{ℤ, List, ◌≤◌, ◌≡◌, ap, subst, sym, ◌∙◌, Bool, true, some}
use libcastis_heartbeat.Prelude.Machine.{returns, Post-mono, Post-total}
use libcastis_heartbeat.Wire.{Host}
use libcastis_heartbeat.Poll.{PollBits, max_fd_size}
use libcastis_heartbeat.Os.{Os}
use libcastis_heartbeat.Net.{NetworkThread, run, process_read_event, msleep}
use libcastis_heartbeat.Net.Bounds.{Bounded, process_read_event-Keeping}
use libcastis_heartbeat.Net.Invariant.{Kept, run-Keeping}
use libcastis_heartbeat.Responser.Through.{ThroughRounds, anything}
use libcastis_heartbeat.Responser.{Prog, on_read_socket_error, net_virtuals}
use libcastis_heartbeat.Responser.Whole.{IsWhole, ThroughMessages, receive-Keeps, on_message-Keeps}

-- The count of the entries is within the array, the response fits an `int`, and m_szRecvBuf is whole.
abbrev pub IsSound : {World Addr : Type 0} → Prog World Addr → Type 0
IsSound s = (s.net.table.poll_fd_count ≤ max_fd_size) × IsWhole s

module _ {World Addr : Type 0} (host : Host) (os : Os World Addr) (bits : PollBits)
    (K : List ℤ → World → Type 0) (through : (l : List ℤ) → ThroughRounds os (K l)) where
  -- And a fact about the read sockets and the world.
  abbrev pub Sound : Prog World Addr → Type 0
  Sound s = IsSound s × K s.net.read_sockets s.world

  messages : (l : List ℤ) → ThroughMessages os.sockets (K l)
  messages l = record { at_recvfrom = (through l).at_recvfrom; at_sendto = (through l).at_sendto }

  -- What leaves the base class alone.
  Sound-kept :
      (s s' : Prog World Addr)
      → Sound s
      → (s'.net ≡ s.net) × IsWhole s' × K s.net.read_sockets s'.world
      → Sound s'
  Sound-kept s s' p (same, whole, k) = (
    (subst (λ (t : NetworkThread). t.table.poll_fd_count ≤ max_fd_size) (sym same) p.0.0, whole),
    subst (λ (t : NetworkThread). K t.read_sockets s'.world) (sym same) k,
  )

  bounded : Bounded ⊥ (net_virtuals host os bits) Sound
  unfolding on_read_socket_error
  bounded = record {
    fits = λ s p. p.0.0;
    at_clear = λ i s p. p;
    at_count = λ s p. p;
    on_receive = λ sockfd s p.
        Post-mono
          (receive-Keeps host os.sockets (K s.net.read_sockets) (messages s.net.read_sockets) sockfd
            s p.0.1 p.1)
          λ _ s' k. Sound-kept s s' p k;
    on_message = λ sockfd m s p.
        Post-mono
          (on_message-Keeps host os.sockets (K s.net.read_sockets) (messages s.net.read_sockets)
            sockfd m s p.0.1 p.1)
          λ _ s' k. Sound-kept s s' p k;
    on_error = λ sockfd s p. returns p;
  }

  pub sound : Kept ⊥ os (net_virtuals host os bits) Sound
  unfolding msleep
  sound = record {
    bounded = bounded;
    at_base = λ b s p. p;
    at_events = λ n s p. p;
    at_poll = λ s p. (p.0, (through s.net.read_sockets).at_poll _ _ s.world p.1);
    at_sleep = λ n s p. (p.0, (through s.net.read_sockets).at_usleep _ s.world p.1);
    at_others = λ s p. (p.0, (through s.net.read_sockets).at_ended s.world p.1);
  }

module _ {World Addr : Type 0} (host : Host) (os : Os World Addr) (bits : PollBits) where
  -- ProcessReadEvent of the responder returns true on every outcome of the system's calls and for every
  -- datagram, never reads an entry past the array and never writes past the message or m_szRecvBuf, if
  -- the count of the entries is at most the size of the array, the addresses have less than 2 ^ 31 - 20
  -- bytes together, and m_szRecvBuf has CIHB_MAX_DATA_SIZE bytes; and so it is again afterwards.
  pub process_read_event-returns :
      (s : Prog World Addr)
      → IsSound s
      → (s' : Prog World Addr) × (process_read_event os bits (net_virtuals host os bits) s
          ≡ some (true, s'))
        × IsSound s'
  process_read_event-returns s p =
      let (b, s', e, r) = Post-total (
        process_read_event-Keeping ⊥ os bits (net_virtuals host os bits)
          (Sound host os bits (λ _ _. Unit) (λ _. anything os))
          (bounded host os bits (λ _ _. Unit) (λ _. anything os)) s (p, tt)) in
      (s', e ∙ ap (λ (b : Bool). some (b, s')) r.0, r.1.0)

  -- Run of the responder returns true, if the count of the entries is at most the size of the
  -- array, the addresses have less than 2 ^ 31 - 20 bytes together, and m_szRecvBuf has
  -- CIHB_MAX_DATA_SIZE bytes: when the exit flag is set or not,
  -- whatever poll answers, whatever arrives, and whenever another thread calls EndThread. They hold again
  -- afterwards, so the next Run returns too.
  pub run-returns :
      (s : Prog World Addr)
      → IsSound s
      → (s' : Prog World Addr) × (run os bits (net_virtuals host os bits) s ≡ some (true, s'))
        × IsSound s'
  run-returns s p =
      let (b, s', e, r) = Post-total (
        run-Keeping ⊥ os bits (net_virtuals host os bits)
          (Sound host os bits (λ _ _. Unit) (λ _. anything os))
          (sound host os bits (λ _ _. Unit) (λ _. anything os)) s (p, tt)) in
      (s', e ∙ ap (λ (b : Bool). some (b, s')) r.0, r.1.0)
