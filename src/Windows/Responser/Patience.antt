-- ===== src/Windows/Responser/Patience.antt =====
-- What the run of the responder on Windows uses up while another thread may call EndThread.
use libcastis_heartbeat.Prelude.{
  by_test, ℕ, ◌≤◌, ◌<◌, ◌≡◌, ◌⊎◌, Bool-cases, inl, inr, refl, sym, subst, ℤ, ◌==ℤ◌, is_negative,
  Bool, true, false, not, if◌then◌else◌, Option, none, some, arith,
}
use libcastis_heartbeat.Prelude.Machine.{M, pure, ◌>>=◌, Post, returns, Post->>=, Post-mono}
use libcastis_heartbeat.Wire.{Host}
use libcastis_heartbeat.Poll.{invalid_socket}
use libcastis_heartbeat.Os.{Sockets}
use libcastis_heartbeat.Thread
use libcastis_heartbeat.Thread.{end_thread, set_exit, read_exit}
use libcastis_heartbeat.Thread.Patience.{Patient}
use libcastis_heartbeat.Responser.{nu_create_udp_socket, nu_set_reuse_addr, nu_bind}
use libcastis_heartbeat.Responser.Whole.{IsWhole}
use libcastis_heartbeat.Windows.Calls.{Win}
use libcastis_heartbeat.Windows.Semaphore
use libcastis_heartbeat.Windows.Net.{add_read_socket, fd_set_add, exit_instance, cleared}
use libcastis_heartbeat.Windows.Net.Rounds.{Ascending}
use libcastis_heartbeat.Windows.Net.Order.{insert-Ascending}
use libcastis_heartbeat.Windows.Responser.{
  Prog, nu_disconnect, on_net, set_up, init_instance, thread_virtuals,
}
use libcastis_heartbeat.Windows.Responser.Laws.{responser-laws}
use libcastis_heartbeat.Windows.Responser.Total.{Through, run-Keeping}

module _ {World FdSet Addr : Type 0} (host : Host) (sockets : Sockets World Addr)
    (win : Win World FdSet) (K : World → Type 0) (through : Through sockets win K) where
  -- The messages, the world, and m_ReadSockets in order.
  abbrev Sound : Prog FdSet World Addr → Type 0
  Sound s = (IsWhole s × K s.world) × Ascending s.net.read_sockets

  abbrev Keeps : {A : Type 0} → M (Prog FdSet World Addr) A → Type 0
  Keeps m = (s : Prog FdSet World Addr) → Sound s → Post ⊥ (λ _ s'. Sound s') (m s)

  Keeps-then :
      {A B : Type 0} (m : M (Prog FdSet World Addr) A) (f : A → M (Prog FdSet World Addr) B)
      (s : Prog FdSet World Addr)
      → Sound s
      → Keeps m
      → ((a : A) → Keeps (f a))
      → Post ⊥ (λ _ s'. Sound s') ((m >>= f) s)
  Keeps-then m f s p h k = Post->>= m f s (h s p) λ a s₁ q. k a s₁ q

  add_read_socket-Keeps :
      (sockfd : ℤ) → Keeps (on_net host sockets win (add_read_socket win sockfd))
  unfolding add_read_socket
  add_read_socket-Keeps sockfd s p = elim (Bool-cases (sockfd ==ℤ invalid_socket)) [
    | inl e ↦ rw e (returns p)
    | inr e ↦ rw e (returns (p.0, insert-Ascending sockfd s.net.read_sockets p.1))
  ]

  fd_set_add-Keeps : (sockfd : ℤ) → Keeps (on_net host sockets win (fd_set_add win sockfd))
  unfolding fd_set_add
  fd_set_add-Keeps sockfd s p = elim (Bool-cases (sockfd ==ℤ invalid_socket)) [
    | inl e ↦ rw e (returns p)
    | inr e ↦ rw e (returns p)
  ]

  recorded-Keeps :
      (sockfd : ℤ) (added : Bool)
      → Keeps (
          if not added
          then (do _ ← nu_disconnect host sockets win sockfd; pure false)
          else on_net host sockets win (fd_set_add win sockfd))
  unfolding nu_disconnect
  recorded-Keeps sockfd true s p = fd_set_add-Keeps sockfd s p
  recorded-Keeps sockfd false s p = returns ((p.0.0, through.at_close sockfd s.world p.0.1), p.1)

  reuse-Keeps : (sockfd : ℤ) → Keeps (nu_set_reuse_addr host sockets sockfd true)
  unfolding nu_set_reuse_addr
  reuse-Keeps sockfd s p = returns ((p.0.0, through.at_reuse sockfd 1 s.world p.0.1), p.1)

  bind-Keeps : (sockfd : ℤ) (port : ℕ) → Keeps (nu_bind host sockets sockfd port)
  unfolding nu_bind
  bind-Keeps sockfd port s p = returns ((p.0.0, through.at_bind sockfd _ s.world p.0.1), p.1)

  set_up-Keeps : (sockfd : ℤ) → Keeps (set_up host sockets win sockfd)
  unfolding set_up
  set_up-Keeps sockfd s p =
      Keeps-then (nu_set_reuse_addr host sockets sockfd true) _ s p (reuse-Keeps sockfd) λ reused.
        by_test Keeps (not reused) _ _ (λ s₁ q. returns q)
          λ s₁ q.
            Keeps-then (nu_bind host sockets sockfd s₁.port_number) _ s₁ q (bind-Keeps sockfd _)
              λ is_bound.
                by_test Keeps (not is_bound) _ _ (λ s₂ r. returns r)
                  λ s₂ r.
                    Keeps-then (on_net host sockets win (add_read_socket win sockfd)) _ s₂ r
                      (add_read_socket-Keeps sockfd) λ added. recorded-Keeps sockfd added

  found-Keeps :
      (sock : Option ℤ)
      → Keeps (elim sock [ none ↦ pure false | some sockfd ↦ set_up host sockets win sockfd ])
  found-Keeps none s p = returns p
  found-Keeps (some sockfd) s p = set_up-Keeps sockfd s p

  init_instance-Keeps : Keeps (init_instance host sockets win)
  unfolding init_instance nu_create_udp_socket Thread.init_instance
  init_instance-Keeps s p =
      found-Keeps
        (if is_negative (sockets.socket s.world).0 then none else some (sockets.socket s.world).0)
        (record s { world = (sockets.socket s.world).1 })
        ((p.0.0, through.at_socket s.world p.0.1), p.1)

-- Another thread calls EndThread in the end: `left` bounds the reads of the exit flag before that. Each
-- read finds it called or is one less, and no call of the system adds to them.
pub record Clock {World FdSet Addr : Type 0} (sockets : Sockets World Addr) (win : Win World FdSet)
    (left : World → ℕ) : Type 0 where
  pub through : (n : ℕ) → Through sockets win (λ w. left w ≤ n)
  pub ends : (w : World) → ((win.ended w).0 ≡ true) ⊎ (left (win.ended w).1 < left w)
  pub at_wait : (w : World) → left (win.wait_for_single_object w).1 ≤ left w

-- The bounds that the messages rest on, and m_ReadSockets in order.
abbrev pub IsSound : {World FdSet Addr : Type 0} → Prog FdSet World Addr → Type 0
IsSound s = IsWhole s × Ascending s.net.read_sockets

module _ {World FdSet Addr : Type 0} (host : Host) (sockets : Sockets World Addr)
    (win : Win World FdSet) (left : World → ℕ) (clock : Clock sockets win left) where
  pub responser-Patient : Patient (thread_virtuals host sockets win) (λ s. left s.world) IsSound
  unfolding exit_instance cleared Semaphore.wait
  responser-Patient = record {
    laws = responser-laws host sockets win;
    at_set_thread = λ t s. refl;
    Inv-set_thread = λ t s p. p;
    at_init = λ s p.
        Post-mono
          (init_instance-Keeps host sockets win (λ w. left w ≤ left s.world)
            (clock.through (left s.world)) s ((p.0, omega arith), p.1))
          λ _ s' q. ((q.0.0, q.1), q.0.1);
    at_run = λ s p.
        Post-mono
          (run-Keeping host sockets win (λ w. left w ≤ left s.world)
            (clock.through (left s.world)).rounds s.net.read_sockets p.1 s
            ((p.0, omega arith), refl))
          λ _ s' q. ((q.0.0, subst Ascending (sym q.1) p.1), q.0.1);
    at_exit = λ s p. returns (p.0, tt);
    at_wait = λ s p. returns (p, clock.at_wait s.world);
    at_post = λ s p. returns p;
    at_others = λ s p. returns (p, clock.ends s.world);
  }
