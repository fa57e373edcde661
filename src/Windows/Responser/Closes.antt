-- ===== src/Windows/Responser/Closes.antt =====
-- The run of the responder on Windows accounts for the sockets that are open.
use libcastis_heartbeat.Prelude.{
  ℕ, ◌+◌, ◌<◌, ◌≡◌, refl, ◌∙◌, subst, sym, ℤ, true, List, [], ◌∷◌, not, ◌&&◌, ◌==ℤ◌, some,
}
use libcastis_heartbeat.Prelude.Machine.{returns, Post-mono, Post-both, Post-with}
use libcastis_heartbeat.Wire.{Host}
use libcastis_heartbeat.Os.{Sockets}
use libcastis_heartbeat.Thread.{invalid_handle, run_thread_here}
use libcastis_heartbeat.Thread.Patience.{Patient}
use libcastis_heartbeat.Thread.Ends.{run_thread_here-ends}
use libcastis_heartbeat.Responser.Ledger.{
  Books, Unmoved, Closing, SocketsLedger, Accounted, Accounted-Unmoved, Accounted-closed,
  closed_first, is_in,
}
use libcastis_heartbeat.Windows.Calls.{Win}
use libcastis_heartbeat.Windows.Semaphore
use libcastis_heartbeat.Windows.Net.{exit_instance, cleared, nu_disconnect, disconnect_all}
use libcastis_heartbeat.Windows.Responser.{Prog, thread_virtuals}
use libcastis_heartbeat.Windows.Responser.Total.{ThroughRounds, run-Keeping}
use libcastis_heartbeat.Windows.Responser.Patience.{Clock, IsSound, responser-Patient}
use libcastis_heartbeat.Windows.Responser.Opens.{Accounts, init_instance-Accounts}

-- Windows keeps the books: closesocket closes a socket, and no other call but socket opens or closes one.
pub record Ledger {World FdSet Addr : Type 0} (sockets : Sockets World Addr) (win : Win World FdSet)
    (b : Books World) : Type 0 where
  pub on_sockets : SocketsLedger sockets b
  pub at_close : Closing b win.closesocket
  pub at_select :
      (n : ℤ) (set : FdSet) (sec usec : ℤ) (w : World) → Unmoved b w (win.select n set sec usec w).2
  pub at_sleep : (n : ℕ) (w : World) → Unmoved b w (win.sleep n w)
  pub at_ended : (w : World) → Unmoved b w (win.ended w).1
  pub at_create : (n maximum : ℕ) (w : World) → Unmoved b w (win.create_semaphore n maximum w).1
  pub at_wait : (w : World) → Unmoved b w (win.wait_for_single_object w).1
  pub at_release : (w : World) → Unmoved b w (win.release_semaphore w).1
  pub at_close_handle : (w : World) → Unmoved b w (win.close_handle w).1

module _ {World FdSet Addr : Type 0} (host : Host) (sockets : Sockets World Addr)
    (win : Win World FdSet) (b : Books World) (ledger : Ledger sockets win b) where
  disconnect_all-closes :
      (l : List ℤ) (w : World) (fd : ℤ)
      → (b.held fd (disconnect_all win l w) ≡ (not (is_in fd l) && b.held fd w))
        × (b.stray fd (disconnect_all win l w) ≡ b.stray fd w)
  unfolding disconnect_all nu_disconnect
  disconnect_all-closes [] w fd = (refl, refl)
  disconnect_all-closes (k ∷ l) w fd =
      let (h, s) = disconnect_all-closes l (win.closesocket k w).1 fd in
      let (h₁, s₁) = ledger.at_close k w fd in
      (h ∙ rw h₁ (closed_first b (fd ==ℤ k) (is_in fd l) (b.held fd w)), s ∙ s₁)

  -- ExitInstance closes the read sockets.
  pub disconnect_all-Accounted :
      (l : List ℤ) (w : World) → Accounted b l w → Accounted b [] (disconnect_all win l w)
  disconnect_all-Accounted l w h =
      Accounted-closed b l w (disconnect_all win l w) (disconnect_all-closes l w) h

  -- A round neither opens nor closes a socket.
  accounted-rounds : (l : List ℤ) → ThroughRounds sockets win (Accounted b l)
  accounted-rounds l = record {
    messages = record {
      at_recvfrom =
          λ sock room w h. Accounted-Unmoved b l w _ (ledger.on_sockets.at_recvfrom sock room w) h;
      at_sendto = λ sock bytes addr w h.
          Accounted-Unmoved b l w _ (ledger.on_sockets.at_sendto sock bytes addr w) h;
    };
    at_select =
        λ n set sec usec w h. Accounted-Unmoved b l w _ (ledger.at_select n set sec usec w) h;
    at_sleep = λ n w h. Accounted-Unmoved b l w _ (ledger.at_sleep n w) h;
    at_ended = λ w h. Accounted-Unmoved b l w _ (ledger.at_ended w) h;
  }

  module _ (left : World → ℕ) (clock : Clock sockets win left) where
    abbrev pub Steady : Prog FdSet World Addr → Type 0
    Steady s = IsSound s × Accounts host sockets win b ledger.on_sockets s

    Steady-Patient : Patient (thread_virtuals host sockets win) (λ s. left s.world) Steady
    unfolding exit_instance cleared Semaphore.wait Semaphore.post
    Steady-Patient = record {
      laws = patient.laws;
      at_set_thread = patient.at_set_thread;
      Inv-set_thread = λ t s p. (patient.Inv-set_thread t s p.0, p.1);
      at_init = λ s p.
          Post-mono
            (Post-with (init_instance-Accounts host sockets win b ledger.on_sockets s p.1)
              (patient.at_init s p.0))
            λ _ s' q. ((q.1.0, q.0), q.1.1);
      at_run = λ s p.
          Post-mono
            (Post-both (patient.at_run s p.0) (
              run-Keeping host sockets win (Accounted b s.net.read_sockets)
                (accounted-rounds s.net.read_sockets) s.net.read_sockets p.0.1 s
                ((p.0.0, p.1), refl)))
            λ _ s' q. ((q.0.0, subst (λ l. Accounted b l s'.world) (sym q.1.1) q.1.0.1), q.0.1);
      at_exit = λ s p.
          Post-both (patient.at_exit s p.0)
            (returns (disconnect_all-Accounted s.net.read_sockets s.world p.1));
      at_wait = λ s p. returns (
        (p.0, Accounted-Unmoved b s.net.read_sockets s.world _ (ledger.at_wait s.world) p.1),
        clock.at_wait s.world,
      );
      at_post = λ s p.
          returns
            (p.0, Accounted-Unmoved b s.net.read_sockets s.world _ (ledger.at_release s.world) p.1);
      at_others = λ s p. returns (
        (p.0, Accounted-Unmoved b s.net.read_sockets s.world _ (ledger.at_ended s.world) p.1),
        clock.ends s.world,
      );
    }
      where
        patient : Patient (thread_virtuals host sockets win) (λ s. left s.world) IsSound
        patient = responser-Patient host sockets win left clock

    -- Whatever happens in the run, the object accounts for the open descriptors at its end.
    pub run-Accounts :
        (fuel : ℕ) (s : Prog FdSet World Addr)
        → Steady s
        → s.net.base.handle ≡ invalid_handle
        → left s.world + 2 < fuel
        → (s' : Prog FdSet World Addr) × (run_thread_here (thread_virtuals host sockets win) fuel s
            ≡ some (true, s'))
          × Accounted b s'.net.read_sockets s'.world
    run-Accounts fuel s p e enough =
        let (s', returned, q, _) =
          run_thread_here-ends (thread_virtuals host sockets win) (λ s. left s.world) Steady
            Steady-Patient fuel s p e enough in
        (s', returned, q.1)
