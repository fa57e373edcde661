-- ===== src/Responser/Stops.antt =====
-- What is left of the responder when its run is over.
use libcastis_heartbeat.Prelude.{ℕ, ◌≡◌, refl, pos, true, [], some}
use libcastis_heartbeat.Prelude.Machine.{returns}
use libcastis_heartbeat.Wire.{Host}
use libcastis_heartbeat.Poll.{PollBits, clear_table}
use libcastis_heartbeat.Os.{Os}
use libcastis_heartbeat.Thread.{run_thread_here}
use libcastis_heartbeat.Thread.Leaves.{Leaves, run_thread_here-leaves}
use libcastis_heartbeat.Net
use libcastis_heartbeat.Responser.{Prog}
use libcastis_heartbeat.Responser.Runs.{thread_virtuals, responser-laws}

-- No read socket, an empty table and no event.
abbrev pub IsIdle : {World Addr : Type 0} → Prog World Addr → Type 0
IsIdle s = (s.net.read_sockets ≡ []) × (s.net.table ≡ clear_table) × (s.net.events_count ≡ pos 0)

module _ {World Addr : Type 0} (host : Host) (os : Os World Addr) (bits : PollBits) where
  stops : (retries : ℕ) → Leaves (thread_virtuals host os bits retries) IsIdle
  unfolding Net.exit_instance
  stops retries = record {
    at_exit = λ s. returns (refl, refl, refl);
    at_set = λ t s p. p;
    at_post = λ s p. returns p;
  }

  -- When RunThreadHere of a CCiHBResponser answers true, the object has no read socket, the poll table is
  -- empty and no event is counted, as after its construction, however the run ended.
  pub responser_run-IsIdle :
      (retries fuel : ℕ) (s s' : Prog World Addr)
      → run_thread_here (thread_virtuals host os bits retries) fuel s ≡ some (true, s')
      → IsIdle s'
  responser_run-IsIdle retries fuel s s' e =
      run_thread_here-leaves (thread_virtuals host os bits retries)
        (responser-laws host os bits retries) IsIdle (stops retries) fuel s s' e
