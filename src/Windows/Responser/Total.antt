-- ===== src/Windows/Responser/Total.antt =====
-- Run of the responder on Windows returns, whatever the system answers.
use libcastis_heartbeat.Prelude.{
  ℕ, ◌≡◌, refl, ap, sym, ◌∙◌, subst, ℤ, pos, ◌==◌, is_negative, is_positive, Bool, true, false, not,
  ◌&&◌, if◌then◌else◌, List, length, arith,
}
use libcastis_heartbeat.Prelude.Machine.{
  M, pure, when, gets, ◌>>=◌, ◌>>◌, Post, returns, Post->>=, Post-mono,
}
use libcastis_heartbeat.Wire.{Host}
use libcastis_heartbeat.Os.{Sockets}
use libcastis_heartbeat.Thread.{end_thread, set_exit, read_exit}
use libcastis_heartbeat.Responser.{on_read_socket_error}
use libcastis_heartbeat.Responser.Whole.{IsWhole, ThroughMessages, receive-Keeps, on_message-Keeps}
use libcastis_heartbeat.Windows.Calls.{Win}
use libcastis_heartbeat.Windows.Net.{
  NetworkThread, thread_access, update_net, system_, msleep, select_read, wait_network_event,
  succ_ℤ, quot_1000, rem_1000_times_1000, process_read_event, run,
}
use libcastis_heartbeat.Windows.Net.Rounds.{Ascending, KeepsSockets, process_read_event-finishes}
use libcastis_heartbeat.Windows.Responser.{Prog, net_virtuals}

-- A fact about the world that holds through the calls of a round of the responder on Windows.
pub record ThroughRounds {World FdSet Addr : Type 0} (sockets : Sockets World Addr)
    (win : Win World FdSet) (K : World → Type 0) : Type 0 where
  pub messages : ThroughMessages sockets K
  pub at_select :
      (n : ℤ) (set : FdSet) (sec usec : ℤ) (w : World) → K w → K (win.select n set sec usec w).2
  pub at_sleep : (n : ℕ) (w : World) → K w → K (win.sleep n w)
  pub at_ended : (w : World) → K w → K (win.ended w).1

-- And through those that make the socket and close it.
pub record Through {World FdSet Addr : Type 0} (sockets : Sockets World Addr)
    (win : Win World FdSet) (K : World → Type 0) : Type 0 where
  pub rounds : ThroughRounds sockets win K
  pub at_socket : (w : World) → K w → K (sockets.socket w).1
  pub at_reuse :
      (sock : ℤ) (value : ℕ) (w : World) → K w → K (sockets.set_reuse_addr sock value w).1
  pub at_bind : (sock : ℤ) (port : ℕ) (w : World) → K w → K (sockets.bind sock port w).1
  pub at_close : (sock : ℤ) (w : World) → K w → K (win.closesocket sock w).1

module _ {World FdSet Addr : Type 0} (host : Host) (sockets : Sockets World Addr)
    (win : Win World FdSet) (K : World → Type 0) (through : ThroughRounds sockets win K) where
  -- The messages and the world, and the read sockets.
  abbrev pub Whole : Prog FdSet World Addr → Type 0
  Whole s = IsWhole s × K s.world

  abbrev pub Reads : List ℤ → Prog FdSet World Addr → Type 0
  Reads xs s = Whole s × (s.net.read_sockets ≡ xs)

  keeps : KeepsSockets (net_virtuals host sockets win) Whole
  unfolding on_read_socket_error
  keeps = record {
    net-set_net = λ t s. refl;
    at_count = λ n s p. p;
    on_receive = λ sockfd s p.
        Post-mono (receive-Keeps host sockets K (through.messages) sockfd s p.0 p.1)
          λ _ s' (same, whole, k).
            ((whole, k), ap (λ (t : NetworkThread FdSet). t.read_sockets) same);
    on_message = λ sockfd m s p.
        Post-mono (on_message-Keeps host sockets K (through.messages) sockfd m s p.0 p.1)
          λ _ s' (same, whole, k).
            ((whole, k), ap (λ (t : NetworkThread FdSet). t.read_sockets) same);
    on_error = λ sockfd s p. returns (p, refl);
  }

  module _ (xs : List ℤ) (ordered : Ascending xs) where
    abbrev Keeping : {A : Type 0} → M (Prog FdSet World Addr) A → Type 0
    Keeping m = (s : Prog FdSet World Addr) → Reads xs s → Post ⊥ (λ _ s'. Reads xs s') (m s)

    Keeping-when :
        (b : Bool) (m : M (Prog FdSet World Addr) (Unit {0})) → Keeping m → Keeping (when b m)
    Keeping-when true m k s p = k s p
    Keeping-when false m k s p = returns p

    after_read :
        (called : Bool)
        → Keeping (
            when called (end_thread (thread_access win (net_virtuals host sockets win))) >>= λ _.
            gets (λ s. s.net.base.exit))
    unfolding end_thread set_exit
    after_read true s p = returns p
    after_read false s p = returns p

    read_exit-Keeping : Keeping (read_exit (thread_access win (net_virtuals host sockets win)))
    unfolding read_exit
    read_exit-Keeping s p =
        after_read (win.ended s.world).0 (record s { world = (win.ended s.world).1 })
          ((p.0.0, through.at_ended s.world p.0.1), p.1)

    after_select :
        (t : NetworkThread FdSet) (count : ℤ) (failed interrupted : Bool)
        → let v = net_virtuals host sockets win in
          Keeping (
            if failed
            then (if interrupted
                then (do update_net win v (λ t. record t { events_count = pos 0 }); pure false)
                else (do
                  system_ win v (msleep win t.timeout_millisec)
                  update_net win v (λ t. record t { events_count = count })
                  pure true))
            else (do update_net win v (λ t. record t { events_count = count }); pure true))
    unfolding msleep
    after_select t count true true s p = returns p
    after_select t count true false s p = returns ((p.0.0, through.at_sleep _ s.world p.0.1), p.1)
    after_select t count false interrupted s p = returns p

    select-Keeping : Keeping (select_read win (net_virtuals host sockets win))
    unfolding select_read
    select-Keeping s p =
        returns
          {a = (win.select (succ_ℤ s.net.maximum_socket) s.net.fd_set_all_read
            (quot_1000 s.net.timeout_millisec) (rem_1000_times_1000 s.net.timeout_millisec)
            s.world).0}
          ((p.0.0, through.at_select _ _ _ _ s.world p.0.1), p.1)

    wait-Keeping : Keeping (wait_network_event win (net_virtuals host sockets win))
    unfolding wait_network_event
    wait-Keeping s p =
        Post->>= (select_read win (net_virtuals host sockets win)) _ s (select-Keeping s p)
          λ count s₁ q.
            after_select s₁.net count (is_negative count) (win.errno s₁.world == win.eintr) s₁ q

    processed-Keeping :
        Keeping
          (process_read_event win (net_virtuals host sockets win) (length xs) >>= λ _. pure tt)
    processed-Keeping s p =
        let v = net_virtuals host sockets win in
        let (s', e, same, whole) =
          process_read_event-finishes win v Whole (length xs) s keeps p.0
            (subst Ascending (sym p.1) ordered)
            (omega (arith, ap (λ (ys : List ℤ). length ys) p.1)) in
        Post->>= {P = λ _ s'. Reads xs s'} (process_read_event win v (length xs)) _ s
          (rw e (returns (whole, same ∙ p.1))) λ _ s₁ q. returns q

    pub run-Keeping : Keeping (run win (net_virtuals host sockets win) (length xs))
    unfolding run
    run-Keeping s p =
        let v = net_virtuals host sockets win in
        Post->>= (read_exit (thread_access win v)) _ s (read_exit-Keeping s p) λ ending s₁ q.
          Post->>= (when (not ending) _) _ s₁
            (Keeping-when (not ending) _
              (λ s₂ p₂.
                Post->>= (wait_network_event win v) _ s₂ (wait-Keeping s₂ p₂) λ waited s₃ p₃.
                  Keeping-when waited _
                    (λ s₄ p₄.
                      Post->>= (read_exit (thread_access win v)) _ s₄ (read_exit-Keeping s₄ p₄)
                        λ ending₁ s₅ p₅.
                          Keeping-when (not ending₁ && is_positive s₅.net.events_count) _
                            processed-Keeping s₅ p₅)
                    s₃ p₃)
              s₁ q)
            λ _ s₂ r. returns r
