-- ===== src/Programs/Complex/Quiet.antt =====
-- The exit flag of the cihb part is set when the object is built, and only PrepareRunning of that part
-- clears it, which CiUtils does not call: Run never polls.
use libcastis_heartbeat.Prelude.{
  by_test, ℕ, ◌≡◌, refl, ap, ◌∙◌, ℤ, ◌==ℤ◌, is_negative, Bool, true, false, Bool-cases, inl, inr,
  not, if◌then◌else◌, List, [], ◌∷◌, Option, none, some,
}
use libcastis_heartbeat.Prelude.Machine.{
  M, pure, when, ◌>>=◌, Post, returns, fails, Post->>=, Post-mono, Post-some,
}
use libcastis_heartbeat.Wire.{Host}
use libcastis_heartbeat.Poll.{PollBits, invalid_socket}
use libcastis_heartbeat.Os.{Os}
use libcastis_heartbeat.Thread
use libcastis_heartbeat.Thread.{read_exit, end_thread, set_exit}
use libcastis_heartbeat.Net
use libcastis_heartbeat.Net.{thread_access, disconnect_all, add_read_socket}
use libcastis_heartbeat.Responser.{
  Prog, nu_disconnect, nu_create_udp_socket, nu_set_reuse_addr, nu_bind, add_socket, add_poll_fd,
  set_up, init_instance, net_virtuals,
}
use libcastis_heartbeat.Responser.Runs.{thread_virtuals}
use libcastis_heartbeat.Programs.Complex
use libcastis_heartbeat.Programs.Complex.{
  ResponserInComplex, on_base, overridables, Calls, no_call, elsewhere, inits, runs, exits,
}

-- What the world shows does not depend on these calls of the system.
pub record Unheard {World Addr X : Type 0} (os : Os World Addr) (obs : World → X) : Type 0 where
  pub at_socket : (w : World) → obs (os.socket w).1 ≡ obs w
  pub at_reuse : (sock : ℤ) (n : ℕ) (w : World) → obs (os.set_reuse_addr sock n w).1 ≡ obs w
  pub at_bind : (sock : ℤ) (n : ℕ) (w : World) → obs (os.bind sock n w).1 ≡ obs w
  pub at_close : (sock : ℤ) (w : World) → obs (os.close sock w).1 ≡ obs w
  pub at_ended : (w : World) → obs (os.ended w).1 ≡ obs w
  pub at_sem_init : (n : ℕ) (w : World) → obs (os.sem_init n w).1 ≡ obs w

module _ {World Addr X : Type 0} (host : Host) (os : Os World Addr) (bits : PollBits)
    (obs : World → X) (h : Unheard os obs) where
  -- Nothing is shown, and the exit flag is as it was.
  abbrev Hushed : Prog World Addr → Prog World Addr → Type 0
  Hushed s s' = (obs s'.world ≡ obs s.world) × (s'.net.base ≡ s.net.base)

  abbrev Hushes : {A : Type 0} → M (Prog World Addr) A → Type 0
  Hushes m = (s : Prog World Addr) → Post (Unit {0}) (λ _ s'. Hushed s s') (m s)

  Hushes-then :
      {A B : Type 0} (m : M (Prog World Addr) A) (f : A → M (Prog World Addr) B)
      (s : Prog World Addr)
      → Hushes m
      → ((a : A) → Hushes (f a))
      → Post (Unit {0}) (λ _ s'. Hushed s s') ((m >>= f) s)
  Hushes-then m f s a b =
      Post->>= m f s (a s) λ x s₁ e. Post-mono (b x s₁) λ _ s₂ e₂. (e₂.0 ∙ e.0, e₂.1 ∙ e.1)

  nu_set_reuse_addr-Hushes : (sock : ℤ) → Hushes (nu_set_reuse_addr host os.sockets sock true)
  unfolding nu_set_reuse_addr
  nu_set_reuse_addr-Hushes sock s = returns (h.at_reuse sock 1 s.world, refl)

  nu_bind-Hushes : (sock : ℤ) (port : ℕ) → Hushes (nu_bind host os.sockets sock port)
  unfolding nu_bind
  nu_bind-Hushes sock port s = returns (h.at_bind sock (host.htons port) s.world, refl)

  add_socket-Hushes : (sock : ℤ) → Hushes (add_socket host os bits sock)
  unfolding add_socket add_read_socket
  add_socket-Hushes sock s = elim (Bool-cases (sock ==ℤ invalid_socket)) [
    | inl e ↦ returns (refl, rw e)
    | inr e ↦ returns (refl, rw e)
  ]

  recorded-Hushes :
      (sock : ℤ) (added : Bool)
      → Hushes (
          if not added
          then (do _ ← nu_disconnect host os bits sock; pure false)
          else add_poll_fd host os bits sock)
  unfolding nu_disconnect add_poll_fd
  recorded-Hushes sock true s = returns (refl, refl)
  recorded-Hushes sock false s = returns (h.at_close sock s.world, refl)

  set_up-Hushes : (sock : ℤ) → Hushes (set_up host os bits sock)
  unfolding set_up
  set_up-Hushes sock s =
      Hushes-then (nu_set_reuse_addr host os.sockets sock true) _ s (nu_set_reuse_addr-Hushes sock)
        λ reused.
          by_test Hushes (not reused) _ _ (λ s₁. returns (refl, refl))
            λ s₁.
              Hushes-then (nu_bind host os.sockets sock s₁.port_number) _ s₁ (nu_bind-Hushes sock _)
                λ is_bound.
                  by_test Hushes (not is_bound) _ _ (λ s₂. returns (refl, refl))
                    λ s₂.
                      Hushes-then (add_socket host os bits sock) _ s₂ (add_socket-Hushes sock)
                        λ added s₃. recorded-Hushes sock added s₃

  found-Hushes :
      (sock : Option ℤ)
      → Hushes (elim sock [ none ↦ pure false | some sockfd ↦ set_up host os bits sockfd ])
  found-Hushes none s = returns (refl, refl)
  found-Hushes (some sockfd) s = set_up-Hushes sockfd s

  init_instance-Hushes : Hushes (init_instance host os bits)
  unfolding init_instance nu_create_udp_socket Thread.init_instance
  init_instance-Hushes s =
      Post-mono
        (found-Hushes
          (if is_negative (os.socket s.world).0 then none else some (os.socket s.world).0)
          (record s { world = (os.socket s.world).1 }))
        λ _ s' e. (e.0 ∙ h.at_socket s.world, e.1)

  pub disconnect_all-quiet :
      (sockets : List ℤ) (w : World) → obs (disconnect_all os sockets w) ≡ obs w
  unfolding disconnect_all Net.nu_disconnect
  disconnect_all-quiet [] w = refl
  disconnect_all-quiet (sock ∷ rest) w =
      disconnect_all-quiet rest (os.close sock w).1 ∙ h.at_close sock w

  exit_instance-Hushes : Hushes (Net.exit_instance os bits (net_virtuals host os bits))
  unfolding Net.exit_instance
  exit_instance-Hushes s = returns (disconnect_all-quiet s.net.read_sockets s.world, refl)

  -- The flag of the cihb part is set, and the world shows what it did.
  abbrev pub Mute : X → Prog World Addr → Type 0
  Mute x s = (obs s.world ≡ x) × (s.net.base.exit ≡ true)

  when-Mute :
      (x : X) (called : Bool) (s : Prog World Addr)
      → Mute x s
      → Post
          (Unit {0})
          (λ _ s'. Mute x s')
          (when called (end_thread (thread_access os bits (net_virtuals host os bits))) s)
  unfolding end_thread set_exit
  when-Mute x true s m = returns (m.0, refl)
  when-Mute x false s m = returns m

  read_exit-Mute :
      (x : X) (s : Prog World Addr)
      → Mute x s
      → Post
          (Unit {0})
          (λ b s'. (b ≡ true) × Mute x s')
          (read_exit (thread_access os bits (net_virtuals host os bits)) s)
  unfolding read_exit
  read_exit-Mute x s m =
      Post->>=
        (when (os.ended s.world).0 (end_thread (thread_access os bits (net_virtuals host os bits))))
        _ (record s { world = (os.ended s.world).1 })
        (when-Mute x (os.ended s.world).0 (record s { world = (os.ended s.world).1 })
          (h.at_ended s.world ∙ m.0, m.1))
        λ _ s₁ k. returns (k.1, k)

  -- Run does nothing but read the flag.
  run-Mute :
      (x : X) (s : Prog World Addr)
      → Mute x s
      → Post (Unit {0}) (λ _ s'. Mute x s') (Net.run os bits (net_virtuals host os bits) s)
  unfolding Net.run
  run-Mute x s m =
      Post->>= (read_exit (thread_access os bits (net_virtuals host os bits))) _ s
        (read_exit-Mute x s m) λ b s₁ k. rw k.0 (returns k.1)

  Hushed-Mute : (x : X) (s s' : Prog World Addr) → Mute x s → Hushed s s' → Mute x s'
  Hushed-Mute x s s' m e = (e.0 ∙ m.0, ap (λ (t : Thread.Thread). t.exit) e.1 ∙ m.1)

  -- An overridable of the object is one of the cihb part.
  part-Mute :
      {Ci : Type 0} (x : X) (m : M (Prog World Addr) Bool)
      (r r' : ResponserInComplex (Prog World Addr) Ci) (b : Bool)
      → Post (Unit {0}) (λ _ s'. Mute x s') (m r.base)
      → on_base m r ≡ some (b, r')
      → Mute x r'.base
  part-Mute x m r r' b post e = Post-some {F = Unit {0}} (rw e at (lifted (m r.base) post))
    where
      lifted :
          (o : Option (Bool × Prog World Addr))
          → Post (Unit {0}) (λ _ s'. Mute x s') o
          → Post
              (Unit {0})
              (λ _ r'. Mute x r'.base)
              (elim o [ none ↦ none | some (a, b) ↦ some (a, record r { base = b }) ])
      lifted none p = fails tt
      lifted (some (a, s')) p = returns (Post-some p)

  module _ (retries : ℕ) where
    pub Calls-Mute :
        {Ci : Type 0} (x : X) (r r' : ResponserInComplex (Prog World Addr) Ci)
        → Calls (overridables (thread_virtuals host os bits retries)) r r'
        → Mute x r.base
        → Mute x r'.base
    unfolding Complex.init_instance Complex.run Complex.exit_instance
    Calls-Mute x r r' (no_call e) m = rw e m
    Calls-Mute x r r' (elsewhere {r₁ = r₁} c e) m = rw e (Calls-Mute x r r₁ c m)
    Calls-Mute x r r' (inits {r₁ = r₁} {b = b} c e) m =
        let m₁ : Mute x r₁.base = Calls-Mute x r r₁ c m in
        part-Mute x (init_instance host os bits) r₁ r' b
          (Post-mono (init_instance-Hushes r₁.base) λ _ s' k. Hushed-Mute x r₁.base s' m₁ k) e
    Calls-Mute x r r' (runs {r₁ = r₁} {b = b} c e) m =
        part-Mute x (Net.run os bits (net_virtuals host os bits)) r₁ r' b
          (run-Mute x r₁.base (Calls-Mute x r r₁ c m)) e
    Calls-Mute x r r' (exits {r₁ = r₁} {b = b} c e) m =
        let m₁ : Mute x r₁.base = Calls-Mute x r r₁ c m in
        part-Mute x (Net.exit_instance os bits (net_virtuals host os bits)) r₁ r' b
          (Post-mono (exit_instance-Hushes r₁.base) λ _ s' k. Hushed-Mute x r₁.base s' m₁ k) e
