-- ===== src/Responser/Steps.antt =====
-- The steps of the loop of ThreadProc for the responder.
use libcastis_heartbeat.Prelude.{
  ℕ, suc, ◌≡◌, ap, ◌∙◌, ℤ, pos, true, false, Bool, List, [], Option, some,
}
use libcastis_heartbeat.Prelude.Machine.{◌>>=◌, >>=-step}
use libcastis_heartbeat.Wire.{Host}
use libcastis_heartbeat.Poll.{Pollfd, PollBits, clear_table}
use libcastis_heartbeat.Thread.{
  done_initinstance, done, done_error, read_exit, end_thread, set_exit, set_state, finish, leave,
  run_or_leave, thread_proc, dispatch, proc_loop, is_thread_done,
}
use libcastis_heartbeat.Os.{Os}
use libcastis_heartbeat.Net.{thread_access, run, exit_instance, disconnect_all}
use libcastis_heartbeat.Responser.{Responser, Prog, net_virtuals}
use libcastis_heartbeat.Responser.Answers.{read_exit-lem}
use libcastis_heartbeat.Responser.Runs.{thread_virtuals}
use libcastis_heartbeat.Responser.Idle.{polling}

module _ {World Addr : Type 0} (host : Host) (os : Os World Addr) (bits : PollBits) where
  module _ (retries : ℕ) where
    -- A round of the thread that is not to end.
    pub round-runs :
        (s s' : Prog World Addr) (w : World)
        → s.net.base.exit ≡ false
        → os.ended s.world ≡ (false, w)
        → run os bits (net_virtuals host os bits) (record s { world = w }) ≡ some (true, s')
        → run_or_leave (thread_virtuals host os bits retries) s ≡ some (tt, s')
    unfolding run_or_leave
    round-runs s s' w on e runs =
        >>=-step (read_exit (thread_access os bits (net_virtuals host os bits))) _
          (read_exit-lem host os bits s w on e)
        ∙ >>=-step (run os bits (net_virtuals host os bits)) _ runs

    -- The object once the run is over, which has closed the read sockets.
    abbrev pub stopped : Responser Addr → World → Prog World Addr
    stopped r w = record {
      obj = record r {
        net = record (r.net) {
          base = record (r.net.base) { exit = true; state = done };
          read_sockets = [];
          table = clear_table;
          events_count = pos 0;
        };
      };
      world = disconnect_all os r.net.read_sockets w;
    }

    read_exit-ended :
        (s : Prog World Addr) (w : World)
        → os.ended s.world ≡ (true, w)
        → read_exit (thread_access os bits (net_virtuals host os bits)) s
          ≡ some (
            true,
            record {
              obj = record (s.obj) {
                net = record (s.net) { base = record (s.net.base) { exit = true } };
              };
              world = w;
            },
          )
    unfolding read_exit end_thread set_exit
    read_exit-ended s w e = rw e

    pub round-ends :
        (fd : ℤ) (frees : List Pollfd) (n : ℤ) (r : Responser Addr) (w w' : World)
        → os.ended w ≡ (true, w')
        → run_or_leave (thread_virtuals host os bits retries) (polling bits fd frees n r w)
          ≡ some (tt, stopped r w')
    unfolding run_or_leave set_state leave finish exit_instance
    round-ends fd frees n r w w' e =
        >>=-step (read_exit (thread_access os bits (net_virtuals host os bits))) _
          (read_exit-ended (polling bits fd frees n r w) w' e)

    -- Another round.
    pub next-round :
        (k : ℕ) (s s₁ : Prog World Addr)
        → run_or_leave (thread_virtuals host os bits retries) s ≡ some (tt, s₁)
        → s₁.net.base.state ≡ done_initinstance
        → (run_or_leave (thread_virtuals host os bits retries) >>= λ _.
              proc_loop (thread_virtuals host os bits retries) (suc k))
            s
          ≡ (run_or_leave (thread_virtuals host os bits retries) >>= λ _.
                proc_loop (thread_virtuals host os bits retries) k)
              s₁
    unfolding proc_loop thread_proc dispatch is_thread_done
    next-round k s s₁ e st =
        let v = thread_virtuals host os bits retries in
        >>=-step (run_or_leave v) _ e
        ∙ ap
            (λ st.
              elim (elim st as (λ _. Bool) [ done ↦ true | done_error ↦ true | _ ↦ false ])
                as (λ _. Option (Unit {0} × Prog World Addr)) [
                  | true ↦ some (tt, s₁)
                  | false ↦ (dispatch v st >>= λ _. proc_loop v k) s₁
                ])
            st

    pub last-round :
        (k : ℕ) (s : Prog World Addr)
        → s.net.base.state ≡ done
        → proc_loop (thread_virtuals host os bits retries) (suc k) s ≡ some (tt, s)
    unfolding proc_loop thread_proc is_thread_done
    last-round k s st =
        let v = thread_virtuals host os bits retries in
        ap
          (λ st.
            elim (elim st as (λ _. Bool) [ done ↦ true | done_error ↦ true | _ ↦ false ])
              as (λ _. Option (Unit {0} × Prog World Addr)) [
                | true ↦ some (tt, s)
                | false ↦ (dispatch v st >>= λ _. proc_loop v k) s
              ])
          st
