-- ===== src/Responser/Patience.antt =====
-- What the run of the responder uses up while another thread may call EndThread.
use libcastis_heartbeat.Prelude.{
  by_test, ℕ, ◌≤◌, ◌<◌, ◌≡◌, ◌⊎◌, Bool-cases, inl, inr, refl, ℤ, ◌==ℤ◌, is_negative, Bool, true,
  false, not, if◌then◌else◌, Option, none, some, arith,
}
use libcastis_heartbeat.Prelude.Machine.{M, pure, ◌>>=◌, Post, returns, Post->>=, Post-mono}
use libcastis_heartbeat.Wire.{Host}
use libcastis_heartbeat.Poll.{PollBits, invalid_socket, max_fd_size, clear_table, poll_fd_add}
use libcastis_heartbeat.Os.{Os}
use libcastis_heartbeat.Semaphore
use libcastis_heartbeat.Thread
use libcastis_heartbeat.Thread.Patience.{Patient}
use libcastis_heartbeat.Net
use libcastis_heartbeat.Net.{add_read_socket, disconnect_all}
use libcastis_heartbeat.Net.Invariant.{run-Keeping}
use libcastis_heartbeat.Responser.{
  Prog, nu_disconnect, nu_create_udp_socket, nu_set_reuse_addr, nu_bind, add_socket, add_poll_fd,
  set_up, init_instance, net_virtuals,
}
use libcastis_heartbeat.Responser.Runs.{thread_virtuals, responser-laws}
use libcastis_heartbeat.Responser.Through.{Through}
use libcastis_heartbeat.Responser.Rounds.{IsSound, Sound, sound}

-- Another thread calls EndThread in the end: `left` bounds the reads of the exit flag before that. Each
-- read finds it called or is one less, and no call of the system adds to them. Waiting for a semaphore
-- returns.
pub record Clock {World Addr : Type 0} (os : Os World Addr) (retries : ℕ) (left : World → ℕ)
    : Type 0 where
  pub through : (n : ℕ) → Through os (λ w. left w ≤ n)
  pub ends : (w : World) → ((os.ended w).0 ≡ true) ⊎ (left (os.ended w).1 < left w)
  pub waits :
      (w : World)
      → (ok : Bool) × (w' : World) × (Semaphore.wait os retries w ≡ some (ok, w'))
        × (left w' ≤ left w)

module _ {World Addr : Type 0} (host : Host) (os : Os World Addr) (bits : PollBits)
    (K : World → Type 0) (through : Through os K) where
  abbrev Keeps : {A : Type 0} → M (Prog World Addr) A → Type 0
  Keeps m =
      (s : Prog World Addr)
      → Sound host os bits (λ _. K) (λ _. through.rounds) s
      → Post ⊥ (λ _ s'. Sound host os bits (λ _. K) (λ _. through.rounds) s') (m s)

  Keeps-then :
      {A B : Type 0} (m : M (Prog World Addr) A) (f : A → M (Prog World Addr) B)
      (s : Prog World Addr)
      → Sound host os bits (λ _. K) (λ _. through.rounds) s
      → Keeps m
      → ((a : A) → Keeps (f a))
      → Post ⊥ (λ _ s'. Sound host os bits (λ _. K) (λ _. through.rounds) s') ((m >>= f) s)
  Keeps-then m f s p h k = Post->>= m f s (h s p) λ a s₁ q. k a s₁ q

  add_socket-Keeps : (sockfd : ℤ) → Keeps (add_socket host os bits sockfd)
  unfolding add_socket add_read_socket
  add_socket-Keeps sockfd s p = elim (Bool-cases (sockfd ==ℤ invalid_socket)) [
    | inl e ↦ rw e (returns p)
    | inr e ↦ rw e (returns p)
  ]

  added :
      (sockfd : ℤ) (s : Prog World Addr)
      → s.net.table.poll_fd_count ≤ max_fd_size
      → (poll_fd_add bits sockfd s.net.table).1.poll_fd_count ≤ max_fd_size
  unfolding poll_fd_add max_fd_size
  added sockfd s le = ground arith

  add_poll_fd-Keeps : (sockfd : ℤ) → Keeps (add_poll_fd host os bits sockfd)
  unfolding add_poll_fd
  add_poll_fd-Keeps sockfd s p = returns ((added sockfd s p.0.0, p.0.1), p.1)

  recorded-Keeps :
      (sockfd : ℤ) (there : Bool)
      → Keeps (
          if not there
          then (do _ ← nu_disconnect host os bits sockfd; pure false)
          else add_poll_fd host os bits sockfd)
  unfolding nu_disconnect
  recorded-Keeps sockfd true s p = add_poll_fd-Keeps sockfd s p
  recorded-Keeps sockfd false s p = returns (p.0, through.at_close sockfd s.world p.1)

  reuse-Keeps : (sockfd : ℤ) → Keeps (nu_set_reuse_addr host os.sockets sockfd true)
  unfolding nu_set_reuse_addr
  reuse-Keeps sockfd s p = returns (p.0, through.at_reuse sockfd 1 s.world p.1)

  bind-Keeps : (sockfd : ℤ) (port : ℕ) → Keeps (nu_bind host os.sockets sockfd port)
  unfolding nu_bind
  bind-Keeps sockfd port s p = returns (p.0, through.at_bind sockfd _ s.world p.1)

  set_up-Keeps : (sockfd : ℤ) → Keeps (set_up host os bits sockfd)
  unfolding set_up
  set_up-Keeps sockfd s p =
      Keeps-then (nu_set_reuse_addr host os.sockets sockfd true) _ s p (reuse-Keeps sockfd)
        λ reused.
          by_test Keeps (not reused) _ _ (λ s₁ q. returns q)
            λ s₁ q.
              Keeps-then (nu_bind host os.sockets sockfd s₁.port_number) _ s₁ q
                (bind-Keeps sockfd _)
                λ is_bound.
                  by_test Keeps (not is_bound) _ _ (λ s₂ r. returns r)
                    λ s₂ r.
                      Keeps-then (add_socket host os bits sockfd) _ s₂ r (add_socket-Keeps sockfd)
                        λ there. recorded-Keeps sockfd there

  found-Keeps :
      (sock : Option ℤ)
      → Keeps (elim sock [ none ↦ pure false | some sockfd ↦ set_up host os bits sockfd ])
  found-Keeps none s p = returns p
  found-Keeps (some sockfd) s p = set_up-Keeps sockfd s p

  pub init_instance-Keeps : Keeps (init_instance host os bits)
  unfolding init_instance nu_create_udp_socket Thread.init_instance
  init_instance-Keeps s p =
      found-Keeps (if is_negative (os.socket s.world).0 then none else some (os.socket s.world).0)
        (record s { world = (os.socket s.world).1 }) (p.0, through.at_socket s.world p.1)

module _ {World Addr : Type 0} (host : Host) (os : Os World Addr) (bits : PollBits) (retries : ℕ)
    (left : World → ℕ) (clock : Clock os retries left) where
  waited :
      (o : Option (Bool × World)) (s : Prog World Addr) (ok : Bool) (w' : World)
      → o ≡ some (ok, w')
      → left w' ≤ left s.world
      → IsSound s
      → Post ⊥
          (λ _ s'. IsSound s' × (left s'.world ≤ left s.world))
          (elim o as (λ _. Option (Bool × Prog World Addr)) [
            | none ↦ none
            | some (ok, w) ↦ some (ok, record s { world = w })
          ])
  waited o s ok w' e le p = rw e (returns (p, le))

  pub responser-Patient : Patient (thread_virtuals host os bits retries) (λ s. left s.world) IsSound
  unfolding Net.exit_instance clear_table max_fd_size
  responser-Patient = record {
    laws = responser-laws host os bits retries;
    at_set_thread = λ t s. refl;
    Inv-set_thread = λ t s p. p;
    at_init = λ s p.
        init_instance-Keeps host os bits (λ w. left w ≤ left s.world) (clock.through (left s.world))
          s (p, omega arith);
    at_run = λ s p.
        Post-mono
          (run-Keeping ⊥ os bits (net_virtuals host os bits) _
            (sound host os bits (λ _ w. left w ≤ left s.world)
              (λ _. (clock.through (left s.world)).rounds))
            s (p, omega arith))
          λ _ s' r. r.1;
    at_exit = λ s p. returns (omega arith, p.1);
    at_wait = λ s p.
        let (ok, w', e, le) = clock.waits s.world in
        waited (Semaphore.wait os retries s.world) s ok w' e le p;
    at_post = λ s p. returns p;
    at_others = λ s p. returns (p, clock.ends s.world);
  }
