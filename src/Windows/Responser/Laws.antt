-- ===== src/Windows/Responser/Laws.antt =====
-- The responder on Windows as a thread: what CCiThread2 relies on.
use libcastis_heartbeat.Prelude.{
  by_test, ℕ, ◌≡◌, refl, ap, ◌∙◌, ℤ, ◌==ℤ◌, is_negative, Bool, true, false, not, Bool-cases, inl,
  inr, if◌then◌else◌, Option, none, some, [], pos, length,
}
use libcastis_heartbeat.Prelude.Machine.{M, pure, ◌>>=◌, Post, returns, Post->>=, Post-mono}
use libcastis_heartbeat.Wire.{Host}
use libcastis_heartbeat.Poll.{invalid_socket}
use libcastis_heartbeat.Os.{Sockets}
use libcastis_heartbeat.Thread
use libcastis_heartbeat.Thread.{is_thread_done, run_thread_here}
use libcastis_heartbeat.Thread.Edges.{ThreadLaws}
use libcastis_heartbeat.Thread.Leaves.{Leaves, run_thread_here-leaves}
use libcastis_heartbeat.Net.Keeps.{Keeps-refl, Keeps-eq}
use libcastis_heartbeat.Responser.{
  nu_create_udp_socket, nu_set_reuse_addr, nu_bind, on_read_socket_error,
}
use libcastis_heartbeat.Responser.Alone.{
  LeavesNet, receive-LeavesNet, on_message-LeavesNet, nu_bind-LeavesNet,
  nu_set_reuse_addr-LeavesNet,
}
use libcastis_heartbeat.Windows.Calls.{Win}
use libcastis_heartbeat.Windows.Net.{
  NetworkThread, add_read_socket, fd_set_add, exit_instance, cleared,
}
use libcastis_heartbeat.Windows.Net.Keeps.{NetLaws, exit_instance-Stays, run-Stays}
use libcastis_heartbeat.Windows.Responser.{
  Prog, nu_disconnect, on_net, set_up, init_instance, net_virtuals, thread_virtuals,
}

module _ {World FdSet Addr : Type 0} (host : Host) (sockets : Sockets World Addr)
    (win : Win World FdSet) where
  -- The thread part of the object is left as it is.
  abbrev Same : {A : Type 0} → M (Prog FdSet World Addr) A → Type 0
  Same m = (s : Prog FdSet World Addr) → Post (Unit {0}) (λ _ s'. s'.net.base ≡ s.net.base) (m s)

  Same-then :
      {A B : Type 0} (m : M (Prog FdSet World Addr) A) (f : A → M (Prog FdSet World Addr) B)
      (s : Prog FdSet World Addr)
      → Same m
      → ((a : A) → Same (f a))
      → Post (Unit {0}) (λ _ s'. s'.net.base ≡ s.net.base) ((m >>= f) s)
  Same-then m f s h k = Post->>= m f s (h s) λ a s₁ e. Post-mono (k a s₁) λ _ s₂ e₂. e₂ ∙ e

  Same-net : {A : Type 0} (m : M (Prog FdSet World Addr) A) → LeavesNet m → Same m
  Same-net m h s = Post-mono (h s) λ _ s' e. ap (λ (t : NetworkThread FdSet). t.base) e

  add_read_socket-Same : (sockfd : ℤ) → Same (on_net host sockets win (add_read_socket win sockfd))
  unfolding add_read_socket
  add_read_socket-Same sockfd s = elim (Bool-cases (sockfd ==ℤ invalid_socket)) [
    | inl e ↦ returns (rw e)
    | inr e ↦ returns (rw e)
  ]

  fd_set_add-Same : (sockfd : ℤ) → Same (on_net host sockets win (fd_set_add win sockfd))
  unfolding fd_set_add
  fd_set_add-Same sockfd s = elim (Bool-cases (sockfd ==ℤ invalid_socket)) [
    | inl e ↦ returns (rw e)
    | inr e ↦ returns (rw e)
  ]

  recorded-Same :
      (sockfd : ℤ) (added : Bool)
      → Same (
          if not added
          then (do _ ← nu_disconnect host sockets win sockfd; pure false)
          else on_net host sockets win (fd_set_add win sockfd))
  unfolding nu_disconnect
  recorded-Same sockfd true s = fd_set_add-Same sockfd s
  recorded-Same sockfd false s = returns refl

  set_up-Same : (sockfd : ℤ) → Same (set_up host sockets win sockfd)
  unfolding set_up
  set_up-Same sockfd s =
      Same-then (nu_set_reuse_addr host sockets sockfd true) _ s
        (Same-net _ (nu_set_reuse_addr-LeavesNet host sockets sockfd))
        λ reused.
          by_test Same (not reused) _ _ (λ s₁. returns refl)
            λ s₁.
              Same-then (nu_bind host sockets sockfd s₁.port_number) _ s₁
                (Same-net _ (nu_bind-LeavesNet host sockets sockfd _))
                λ is_bound.
                  by_test Same (not is_bound) _ _ (λ s₂. returns refl)
                    λ s₂.
                      Same-then (on_net host sockets win (add_read_socket win sockfd)) _ s₂
                        (add_read_socket-Same sockfd) λ added. recorded-Same sockfd added

  found-Same :
      (sock : Option ℤ)
      → Same (elim sock [ none ↦ pure false | some sockfd ↦ set_up host sockets win sockfd ])
  found-Same none s = returns refl
  found-Same (some sockfd) s = set_up-Same sockfd s

  init_instance-Same : Same (init_instance host sockets win)
  unfolding init_instance nu_create_udp_socket Thread.init_instance
  init_instance-Same s =
      found-Same
        (if is_negative (sockets.socket s.world).0 then none else some (sockets.socket s.world).0)
        (record s { world = (sockets.socket s.world).1 })

  net-laws : NetLaws (net_virtuals host sockets win)
  unfolding on_read_socket_error
  net-laws = record {
    net-set_net = λ t s. refl;
    net-set_world = λ w s. refl;
    on_receive = λ sockfd s.
        Post-mono (Same-net _ (receive-LeavesNet host sockets sockfd) s) λ _ s' e. Keeps-eq e;
    on_message = λ sockfd m s.
        Post-mono (Same-net _ (on_message-LeavesNet host sockets sockfd m) s) λ _ s' e. Keeps-eq e;
    on_error = λ sockfd s. returns (Keeps-refl s.net.base);
  }

  pub responser-laws : ThreadLaws (Unit {0}) (thread_virtuals host sockets win)
  responser-laws = record {
    thread-set_thread = λ t s. refl;
    obs-set_thread = λ t s. refl;
    on_init = λ s. Post-mono (init_instance-Same s) λ _ s' e. (Keeps-eq e, refl);
    on_run = λ s.
        Post-mono
          (run-Stays win (net_virtuals host sockets win) net-laws (length s.net.read_sockets) s)
          λ _ s' k. (k, refl);
    on_exit = λ s.
        Post-mono (exit_instance-Stays win (net_virtuals host sockets win) net-laws s)
          λ _ s' k. (k, refl);
    on_wait = λ s. returns (Keeps-refl s.net.base, refl);
    on_post = λ s. returns (Keeps-refl s.net.base, refl);
    on_others = λ s. returns (Keeps-refl s.net.base, refl);
  }

  -- No read socket, an empty set with no maximum, and no event.
  abbrev pub IsIdle : Prog FdSet World Addr → Type 0
  IsIdle s =
      (s.net.read_sockets ≡ [])
      × (s.net.fd_set_all_read ≡ win.fd_zero)
      × (s.net.maximum_socket ≡ invalid_socket)
      × (s.net.events_count ≡ pos 0)

  stops : Leaves (thread_virtuals host sockets win) IsIdle
  unfolding exit_instance cleared
  stops = record {
    at_exit = λ s. returns (refl, refl, refl, refl);
    at_set = λ t s p. p;
    at_post = λ s p. returns p;
  }

  -- When RunThreadHere of a CCiHBResponser on Windows answers true, the object has no read socket, the set
  -- of select is empty and has no maximum, and no event is counted, however the run ended.
  pub windows_run-IsIdle :
      (fuel : ℕ) (s s' : Prog FdSet World Addr)
      → run_thread_here (thread_virtuals host sockets win) fuel s ≡ some (true, s')
      → IsIdle s'
  windows_run-IsIdle fuel s s' e =
      run_thread_here-leaves (thread_virtuals host sockets win) responser-laws IsIdle stops fuel s
        s' e
