-- ===== src/Examples/Threads.antt =====
-- Runs of the toy thread.
use libcastis_heartbeat.Prelude.{
  ℕ, ◌≡◌, refl, true, false, List, [], ◌∷◌, ◌++◌, replicate, some, arith,
}
use libcastis_heartbeat.Thread.{
  done, ready, done_initinstance, is_thread_done, set_exit, set_state, read_exit, end_thread,
  finish, leave, run_or_leave, start, dispatch, thread_proc, proc_loop, prepare_running,
  notify_exit, run_thread_here,
}
use libcastis_heartbeat.Thread.Laws.{Call, waits, inits, runs, exits, posts}
use libcastis_heartbeat.Thread.Log.{logged}
use libcastis_heartbeat.Thread.Calls.{run_thread_here-calls}
use libcastis_heartbeat.Thread.Edges.{Edge, thread_proc-Edge}
use libcastis_heartbeat.Thread.Ends.{run_thread_here-ends}
use libcastis_heartbeat.Examples.Toy.{Toy, toy, toy-laws, toy-Patient}

-- An object that another thread ends at the third read of its exit flag.
abbrev fresh : Toy
fresh = record { thread = record { handle = 0; exit = true; state = ready }; reads = 2 }

abbrev finished : Toy
finished = record { thread = record { handle = 0; exit = true; state = done }; reads = 0 }

abbrev calls : List Call
calls = posts ∷ exits ∷ runs ∷ runs ∷ inits ∷ waits ∷ []

fresh_run : run_thread_here (logged toy) 5 (fresh, []) ≡ some (true, (finished, calls))
unfolding is_thread_done set_exit end_thread read_exit set_state finish leave run_or_leave start
    dispatch thread_proc proc_loop prepare_running notify_exit run_thread_here
fresh_run = refl

run_thread_here-calls_example :
    (is_thread_done finished.thread ≡ true)
    × (n : ℕ) × (calls ≡ posts ∷ exits ∷ (replicate n runs ++ inits ∷ waits ∷ []))
run_thread_here-calls_example =
    run_thread_here-calls toy (toy-laws Unit) 5 fresh finished calls fresh_run

run_thread_here-ends_example :
    (s' : Toy) × (run_thread_here toy 5 fresh ≡ some (true, s'))
    × Unit {0}
    × (is_thread_done s'.thread ≡ true)
run_thread_here-ends_example =
    run_thread_here-ends toy (λ s. s.reads) (λ _. Unit {0}) toy-Patient 5 fresh tt refl
      (omega arith)

abbrev running : Toy
running = record {
  thread = record { handle = 0; exit = false; state = done_initinstance };
  reads = 0;
}

running_step : thread_proc toy running ≡ some (tt, finished)
unfolding set_exit end_thread read_exit set_state finish leave run_or_leave dispatch thread_proc
running_step = refl

thread_proc-Edge_example : Edge done_initinstance done
thread_proc-Edge_example = thread_proc-Edge ⊥ toy (toy-laws ⊥) running finished running_step
