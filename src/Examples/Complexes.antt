-- ===== src/Examples/Complexes.antt =====
-- The responder in a complex, on a system where a request waits.
use libcastis_heartbeat.Prelude.{
  ℕ, zero, suc, ◌≡◌, refl, ℤ, pos, Bool, true, List, [], ◌∷◌, none, some,
}
use libcastis_heartbeat.Prelude.Machine.{M, pure}
use libcastis_heartbeat.Wire.Hosts.{little}
use libcastis_heartbeat.Thread
use libcastis_heartbeat.Net
use libcastis_heartbeat.Semaphore
use libcastis_heartbeat.Responser.{Prog, new_responser}
use libcastis_heartbeat.Responser.Runs.{thread_virtuals}
use libcastis_heartbeat.Programs.Platform.{
  linux, construct_responser, delete_thread, delete_responser,
}
use libcastis_heartbeat.Programs.Complex
use libcastis_heartbeat.Programs.Complex.{
  ResponserInComplex, SampleHbClientComplex, Overridables, CiUtils, Calls, no_call, runs,
  overridables, new_in_complex, main,
}
use libcastis_heartbeat.Programs.Complex.Quiet.{Unheard}
use libcastis_heartbeat.Programs.Complex.Silent.{responser_in_complex-quiet}
use libcastis_heartbeat.Examples.Systems.{Kernel, kernel, read_flag}
use libcastis_heartbeat.Examples.Polls.{linux_bits}

-- The datagrams that wait and those that were sent.
abbrev traffic : Kernel → List (List ℕ × ℕ) × List (ℤ × List ℕ × ℕ)
traffic w = (w.inbox, w.outbox)

unheard : Unheard kernel traffic
unheard = record {
  at_socket = λ w. refl;
  at_reuse = λ sock n w. refl;
  at_bind = λ sock n w. refl;
  at_close = λ sock w. refl;
  at_ended = λ w. flag_read w w.reads;
  at_sem_init = λ n w. refl;
}
  where
    flag_read :
        (w : Kernel) (n : ℕ)
        → traffic
            (read_flag
              (record { inbox = w.inbox; outbox = w.outbox; closed = w.closed; reads = n })).1
          ≡ traffic w
    flag_read w zero = refl
    flag_read w (suc n) = refl

abbrev waiting : Kernel
waiting = record {
  inbox = (0 ∷ 0 ∷ 0 ∷ 0 ∷ 0 ∷ 0 ∷ 1 ∷ 2 ∷ [], 9) ∷ [];
  outbox = [];
  closed = [];
  reads = 5;
}

abbrev Cx : Type 0
Cx = SampleHbClientComplex (Prog Kernel ℕ) (Unit {0}) (Unit {0})

abbrev Rx : Type 0
Rx = ResponserInComplex (Prog Kernel ℕ) (Unit {0})

-- A complex that calls Run once.
abbrev run_once : Overridables Rx → M Cx Bool
run_once o c = elim (o.run c.responser) [
  | none ↦ none
  | some (b, r) ↦ some (b, record c { responser = r })
]

abbrev ci_utils : CiUtils (Prog Kernel ℕ) (Unit {0}) (Unit {0})
ci_utils = record {
  prepare_complexing = pure true;
  end_complexing = pure true;
  add_ci_thread = pure true;
  delete_ci_thread = pure true;
  set_period_millie_sec = λ period. pure tt;
  run_thread_here = run_once;
}

-- The responder of the program, and what one call of Run makes of it.
abbrev built : Rx
built =
    new_in_complex (linux little kernel linux_bits 1 0 []) (49 ∷ []) 8090 (50 ∷ []) (pos 0) tt
      waiting

abbrev after_run : Rx
after_run = record built { base = record (built.base) { world = record waiting { reads = 4 } } }

built_run : Complex.run (thread_virtuals little kernel linux_bits 1) built ≡ some (true, after_run)
unfolding Complex.run new_in_complex construct_responser Semaphore.initialize new_responser Net.run
    Thread.read_exit Net.new_network_thread Thread.new_thread
built_run = refl

responser_in_complex-quiet_example : traffic after_run.base.world ≡ traffic waiting
responser_in_complex-quiet_example =
    responser_in_complex-quiet little kernel linux_bits traffic unheard 1 0 [] (49 ∷ []) 8090
      (50 ∷ []) (pos 0) tt waiting after_run (runs (no_call refl) built_run)

abbrev ended : Kernel
ended = record waiting { reads = 4 }

main_run : main (linux little kernel linux_bits 1 0 []) ci_utils tt tt waiting ≡ some (pos 0, ended)
unfolding main Complex.new_complex Complex.set_up_complex Complex.live_and_die
    Complex.delete_complex Complex.run new_in_complex construct_responser Semaphore.initialize
    new_responser Net.run Thread.read_exit Net.new_network_thread Thread.new_thread delete_responser
    Semaphore.finalize delete_thread Net.delete_network_thread Net.disconnect_all
main_run = refl
