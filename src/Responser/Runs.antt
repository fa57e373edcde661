-- ===== src/Responser/Runs.antt =====
-- The responder as a thread: CCiThread2 with the overridables of CCiHBResponser, and what that thread
-- relies on.
use libcastis_heartbeat.Prelude.{
  by_test, ℕ, ◌≡◌, refl, ap, ◌∙◌, ℤ, pos, ◌==ℤ◌, is_negative, Bool, true, false, Bool-cases, inl,
  inr, not, if◌then◌else◌, List, [], ◌∷◌, ◌++◌, replicate, Option, none, some,
}
use libcastis_heartbeat.Prelude.Machine.{M, pure, ◌>>=◌, Post, returns, fails, Post->>=, Post-mono}
use libcastis_heartbeat.Wire.{Host}
use libcastis_heartbeat.Poll.{PollBits, invalid_socket}
use libcastis_heartbeat.Os.{Os}
use libcastis_heartbeat.Semaphore
use libcastis_heartbeat.Thread
use libcastis_heartbeat.Thread.{Virtuals, is_thread_done, run_thread_here}
use libcastis_heartbeat.Thread.Laws.{Call, waits, inits, runs, exits, posts}
use libcastis_heartbeat.Thread.Edges.{ThreadLaws}
use libcastis_heartbeat.Thread.Log.{logged}
use libcastis_heartbeat.Thread.Calls.{run_thread_here-calls}
use libcastis_heartbeat.Net
use libcastis_heartbeat.Net.{thread_access, add_read_socket}
use libcastis_heartbeat.Net.Keeps.{Keeps-refl, Keeps-eq, NetLaws, exit_instance-Stays, run-Stays}
use libcastis_heartbeat.Responser.{
  Prog, nu_disconnect, nu_create_udp_socket, nu_set_reuse_addr, nu_bind, add_socket, add_poll_fd,
  set_up, init_instance, on_read_socket_error, net_virtuals, system,
}
use libcastis_heartbeat.Responser.Alone.{
  LeavesNet, receive-LeavesNet, on_message-LeavesNet, nu_bind-LeavesNet,
  nu_set_reuse_addr-LeavesNet,
}
use libcastis_heartbeat.Net.{NetworkThread}

module _ {World Addr : Type 0} (host : Host) (os : Os World Addr) (bits : PollBits) where
  -- The semaphore's operations and pthread_create on the object; `retries` is the fuel of Wait.
  abbrev pub thread_virtuals : ℕ → Virtuals (Prog World Addr)
  thread_virtuals retries = record {
    access = thread_access os bits (net_virtuals host os bits);
    init_instance = init_instance host os bits;
    run = Net.run os bits (net_virtuals host os bits);
    exit_instance = Net.exit_instance os bits (net_virtuals host os bits);
    sem_wait = λ s. elim ((Semaphore.linux_semaphore os retries).wait s.world) [
      | none ↦ none
      | some (ok, w) ↦ some (ok, record s { world = w })
    ];
    sem_post = system ((Semaphore.linux_semaphore os retries).post);
    spawn = λ s.
        let r = os.pthread_create s.world in
        some ((if r.0 ==ℤ pos 0 then some r.1 else none), record s { world = r.2 });
  }

  -- The thread part of the object is left as it is.
  abbrev pub Same : {A : Type 0} → M (Prog World Addr) A → Type 0
  Same m = (s : Prog World Addr) → Post (Unit {0}) (λ _ s'. s'.net.base ≡ s.net.base) (m s)

  Same-then :
      {A B : Type 0} (m : M (Prog World Addr) A) (f : A → M (Prog World Addr) B)
      (s : Prog World Addr)
      → Same m
      → ((a : A) → Same (f a))
      → Post (Unit {0}) (λ _ s'. s'.net.base ≡ s.net.base) ((m >>= f) s)
  Same-then m f s h k = Post->>= m f s (h s) λ a s₁ e. Post-mono (k a s₁) λ _ s₂ e₂. e₂ ∙ e

  -- What leaves the base class alone.
  Same-net : {A : Type 0} (m : M (Prog World Addr) A) → LeavesNet m → Same m
  Same-net m h s = Post-mono (h s) λ _ s' e. ap (λ (t : NetworkThread). t.base) e

  add_socket-Same : (sockfd : ℤ) → Same (add_socket host os bits sockfd)
  unfolding add_socket add_read_socket
  add_socket-Same sockfd s = elim (Bool-cases (sockfd ==ℤ invalid_socket)) [
    | inl e ↦ returns (rw e)
    | inr e ↦ returns (rw e)
  ]

  add_poll_fd-Same : (sockfd : ℤ) → Same (add_poll_fd host os bits sockfd)
  unfolding add_poll_fd
  add_poll_fd-Same sockfd s = returns refl

  recorded-Same :
      (sockfd : ℤ) (added : Bool)
      → Same (
          if not added
          then (do _ ← nu_disconnect host os bits sockfd; pure false)
          else add_poll_fd host os bits sockfd)
  unfolding nu_disconnect
  recorded-Same sockfd true s = add_poll_fd-Same sockfd s
  recorded-Same sockfd false s = returns refl

  set_up-Same : (sockfd : ℤ) → Same (set_up host os bits sockfd)
  unfolding set_up
  set_up-Same sockfd s =
      Same-then (nu_set_reuse_addr host os.sockets sockfd true) _ s
        (Same-net _ (nu_set_reuse_addr-LeavesNet host os.sockets sockfd))
        λ reused.
          by_test Same (not reused) _ _ (λ s₁. returns refl)
            λ s₁.
              Same-then (nu_bind host os.sockets sockfd s₁.port_number) _ s₁
                (Same-net _ (nu_bind-LeavesNet host os.sockets sockfd _))
                λ is_bound.
                  by_test Same (not is_bound) _ _ (λ s₂. returns refl)
                    λ s₂.
                      Same-then (add_socket host os bits sockfd) _ s₂ (add_socket-Same sockfd)
                        λ added s₃. recorded-Same sockfd added s₃

  found-Same :
      (sock : Option ℤ)
      → Same (elim sock [ none ↦ pure false | some sockfd ↦ set_up host os bits sockfd ])
  found-Same none s = returns refl
  found-Same (some sockfd) s = set_up-Same sockfd s

  init_instance-Same : Same (init_instance host os bits)
  unfolding init_instance nu_create_udp_socket Thread.init_instance
  init_instance-Same s =
      found-Same (if is_negative (os.socket s.world).0 then none else some (os.socket s.world).0)
        (record s { world = (os.socket s.world).1 })

  net-laws : NetLaws (Unit {0}) (net_virtuals host os bits)
  unfolding on_read_socket_error
  net-laws = record {
    net-set_net = λ t s. refl;
    net-set_world = λ w s. refl;
    on_receive = λ sockfd s.
        Post-mono (Same-net _ (receive-LeavesNet host os.sockets sockfd) s) λ _ s' e. Keeps-eq e;
    on_message = λ sockfd m s.
        Post-mono (Same-net _ (on_message-LeavesNet host os.sockets sockfd m) s)
          λ _ s' e. Keeps-eq e;
    on_error = λ sockfd s. returns (Keeps-refl s.net.base);
  }

  waited-Same :
      (o : Option (Bool × World)) (s : Prog World Addr)
      → Post
          (Unit {0})
          (λ _ s'. s'.net.base ≡ s.net.base)
          (elim o as (λ _. Option (Bool × Prog World Addr)) [
            | none ↦ none
            | some (ok, w) ↦ some (ok, record s { world = w })
          ])
  waited-Same none s = fails tt
  waited-Same (some (ok, w)) s = returns refl

  -- What CCiThread2 relies on holds of the responder.
  pub responser-laws : (retries : ℕ) → ThreadLaws (Unit {0}) (thread_virtuals retries)
  responser-laws retries = record {
    thread-set_thread = λ t s. refl;
    obs-set_thread = λ t s. refl;
    on_init = λ s. Post-mono (init_instance-Same s) λ _ s' e. (Keeps-eq e, refl);
    on_run = λ s.
        Post-mono (run-Stays (Unit {0}) os bits (net_virtuals host os bits) net-laws tt s)
          λ _ s' k. (k, refl);
    on_exit = λ s.
        Post-mono (exit_instance-Stays (Unit {0}) os bits (net_virtuals host os bits) net-laws s)
          λ _ s' k. (k, refl);
    on_wait = λ s.
        Post-mono (waited-Same (Semaphore.wait os retries s.world) s) λ _ s' e. (Keeps-eq e, refl);
    on_post = λ s. returns (Keeps-refl s.net.base, refl);
    on_others = λ s. returns (Keeps-refl s.net.base, refl);
  }

  -- The responder's own run: when RunThreadHere of a CCiHBResponser answers true, its thread is done, and
  -- it has made, in order, one wait for the exit semaphore, one InitInstance, some number of Run, one
  -- ExitInstance and one post of the semaphore (the log holds the latest first), whatever the system
  -- answers and whenever another thread calls EndThread.
  pub responser_run-calls :
      (retries fuel : ℕ) (s s' : Prog World Addr) (log : List Call)
      → run_thread_here (logged (thread_virtuals retries)) fuel (s, []) ≡ some (true, (s', log))
      → (is_thread_done s'.net.base ≡ true)
        × (n : ℕ) × (log ≡ posts ∷ exits ∷ (replicate n runs ++ inits ∷ waits ∷ []))
  responser_run-calls retries fuel s s' log e =
      run_thread_here-calls (thread_virtuals retries) (responser-laws retries) fuel s s' log e
