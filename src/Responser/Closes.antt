-- ===== src/Responser/Closes.antt =====
-- The run of the responder accounts for the sockets that are open.
use libcastis_heartbeat.Prelude.{
  List, Bool-cases, inl, inr, negsuc, is_negative, ℤ, by_test, ℕ, zero, suc, ◌+◌, ◌<◌, ◌≡◌, ◌∙◌,
  pos, ◌==ℤ◌, ◌==◌, not, ◌&&◌, Bool, true, Option, none, some,
}
use libcastis_heartbeat.Prelude.Machine.{Post, returns, fails, Post-mono, Post-both, Post-with}
use libcastis_heartbeat.Wire.{Host}
use libcastis_heartbeat.Poll.{PollBits}
use libcastis_heartbeat.Os.{Os}
use libcastis_heartbeat.Semaphore
use libcastis_heartbeat.Thread.{invalid_handle, run_thread_here}
use libcastis_heartbeat.Thread.Patience.{Patient}
use libcastis_heartbeat.Thread.Ends.{run_thread_here-ends}
use libcastis_heartbeat.Net
use libcastis_heartbeat.Net.Invariant.{run-Keeping}
use libcastis_heartbeat.Responser.{Prog, init_instance, net_virtuals}
use libcastis_heartbeat.Responser.Runs.{thread_virtuals}
use libcastis_heartbeat.Responser.Rounds.{IsSound, sound}
use libcastis_heartbeat.Responser.Patience.{Clock, responser-Patient}
use libcastis_heartbeat.Responser.Ledger.{
  Books, Unmoved, Ledger, Accounted, Accounted-Unmoved, accounted-rounds, disconnect_all-Accounted,
}
use libcastis_heartbeat.Responser.Opens.{after_no_socket, after_reuse, after_bind, after_all}
use libcastis_heartbeat.Responser.Init.{
  socket_of, reuse, bound, init-steps, init-no_socket, set_up-not_reused, set_up-not_bound,
  set_up-opened,
}

module _ {World Addr : Type 0} (host : Host) (os : Os World Addr) (bits : PollBits)
    (b : Books World) (ledger : Ledger os b) where
  -- The object accounts for the open descriptors.
  abbrev Accounts : Prog World Addr → Type 0
  Accounts s = Accounted b s.net.read_sockets s.world

  -- InitInstance leaves open, and unrecorded, a socket that setsockopt or bind has failed on, and no other.
  init_instance-Accounts :
      (s : Prog World Addr)
      → Accounts s
      → Post (Unit {0}) (λ _ s'. Accounts s') (init_instance host os bits s)
  init_instance-Accounts s h = elim (Bool-cases (is_negative (socket_of host os bits s))) [
    | inl e ↦
        rw (init-no_socket host os bits s e)
          (returns (after_no_socket os.sockets b ledger.on_sockets port l s.world h e))
    | inr valid ↦ elim (Bool-cases ((reuse host os bits s).0 ==ℤ negsuc 0)) [
      | inl e ↦
          rw (init-steps host os bits s valid, set_up-not_reused host os bits s e)
            (returns (after_reuse os.sockets b ledger.on_sockets port l s.world h valid e))
      | inr reused ↦ elim (Bool-cases (is_negative (bound host os bits s).0)) [
        | inl e ↦
            rw (init-steps host os bits s valid, set_up-not_bound host os bits s reused e)
              (returns (after_bind os.sockets b ledger.on_sockets port l s.world h valid reused e))
        | inr e ↦
            rw (init-steps host os bits s valid, set_up-opened host os bits s valid reused e)
              (returns (after_all os.sockets b ledger.on_sockets port l s.world h valid reused e))
      ]
    ]
  ]
    where
      port : ℕ
      port = host.htons s.port_number

      l : List ℤ
      l = s.net.read_sockets

module _ {World Addr : Type 0} (host : Host) (os : Os World Addr) (bits : PollBits) (retries : ℕ)
    (left : World → ℕ) (clock : Clock os retries left) (b : Books World)
    (ledger : Ledger os b) where
  abbrev pub Steady : Prog World Addr → Type 0
  Steady s = IsSound s × Accounts host os bits b ledger s

  wait-Unmoved :
      (n : ℕ) (w : World) → Post (Unit {0}) (λ _ w'. Unmoved b w w') (Semaphore.wait os n w)
  unfolding Semaphore.wait
  wait-Unmoved zero w = fails tt
  wait-Unmoved (suc n) w =
      by_test (Post (Unit {0}) (λ _ w'. Unmoved b w w'))
        (not ((os.sem_wait w).0 ==ℤ pos 0) && os.errno (os.sem_wait w).1 == os.eintr) _ _
        (Post-mono (wait-Unmoved n (os.sem_wait w).1) λ _ w' k fd.
          ((k fd).0 ∙ (ledger.at_sem_wait w fd).0, (k fd).1 ∙ (ledger.at_sem_wait w fd).1))
        (returns (ledger.at_sem_wait w))

  waited-Accounts :
      (o : Option (Bool × World)) (s : Prog World Addr)
      → Accounts host os bits b ledger s
      → Post (Unit {0}) (λ _ w'. Unmoved b s.world w') o
      → Post
          (Unit {0})
          (λ _ s'. Accounts host os bits b ledger s')
          (elim o as (λ _. Option (Bool × Prog World Addr)) [
            | none ↦ none
            | some (ok, w) ↦ some (ok, record s { world = w })
          ])
  waited-Accounts none s h p = fails tt
  waited-Accounts (some (ok, w)) s h (returns k) =
      returns (Accounted-Unmoved b s.net.read_sockets s.world w k h)

  Steady-Patient : Patient (thread_virtuals host os bits retries) (λ s. left s.world) Steady
  unfolding Net.exit_instance Semaphore.post
  Steady-Patient = record {
    laws = patient.laws;
    at_set_thread = patient.at_set_thread;
    Inv-set_thread = λ t s p. (patient.Inv-set_thread t s p.0, p.1);
    at_init = λ s p.
        Post-mono
          (Post-with (init_instance-Accounts host os bits b ledger s p.1) (patient.at_init s p.0))
          λ _ s' q. ((q.1.0, q.0), q.1.1);
    at_run = λ s p.
        Post-mono
          (Post-both (patient.at_run s p.0) (
            run-Keeping ⊥ os bits (net_virtuals host os bits) _
              (sound host os bits (Accounted b) (accounted-rounds os b ledger)) s p))
          λ _ s' q. ((q.0.0, q.1.1.1), q.0.1);
    at_exit = λ s p.
        Post-both (patient.at_exit s p.0)
          (returns (disconnect_all-Accounted os b ledger s.net.read_sockets s.world p.1));
    at_wait = λ s p.
        Post-mono
          (Post-with (waited-Accounts _ s p.1 (wait-Unmoved retries s.world))
            (patient.at_wait s p.0))
          λ _ s' q. ((q.1.0, q.0), q.1.1);
    at_post = λ s p. Post-both (patient.at_post s p.0) (
        returns
          (Accounted-Unmoved b s.net.read_sockets s.world _ (ledger.at_sem_post s.world) p.1));
    at_others = λ s p. returns (
      (p.0, Accounted-Unmoved b s.net.read_sockets s.world _ (ledger.at_ended s.world) p.1),
      clock.ends s.world,
    );
  }
    where
      patient : Patient (thread_virtuals host os bits retries) (λ s. left s.world) IsSound
      patient = responser-Patient host os bits retries left clock

  -- Whatever happens in the run, the object accounts for the open descriptors at its end.
  pub run-Accounts :
      (fuel : ℕ) (s : Prog World Addr)
      → Steady s
      → s.net.base.handle ≡ invalid_handle
      → left s.world + 2 < fuel
      → (s' : Prog World Addr) × (run_thread_here (thread_virtuals host os bits retries) fuel s
          ≡ some (true, s'))
        × Accounts host os bits b ledger s'
  run-Accounts fuel s p e enough =
      let (s', returned, q, _) =
        run_thread_here-ends (thread_virtuals host os bits retries) (λ s. left s.world) Steady
          Steady-Patient fuel s p e enough in
      (s', returned, q.1)
