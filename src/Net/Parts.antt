-- ===== src/Net/Parts.antt =====
-- The parts of Run of CNetworkThread.
use libcastis_heartbeat.Prelude.{not, ◌&&◌, is_positive}
use libcastis_heartbeat.Prelude.Machine.{M, pure, when, ◌>>=◌, gets}
use libcastis_heartbeat.Poll.{PollBits}
use libcastis_heartbeat.Thread.{read_exit}
use libcastis_heartbeat.Os.{Os}
use libcastis_heartbeat.Net.{NetVirtuals, thread_access, wait_network_event, process_read_event}

module _ {S World Addr : Type 0} (os : Os World Addr) (bits : PollBits)
    (v : NetVirtuals S World) where
  -- What Run does once it has waited, and what it does if it is not to end.
  abbrev pub served : M S (Unit {0})
  served = do
    ending ← read_exit (thread_access os bits v)
    count ← gets (λ s. (v.net s).events_count)
    when (not ending && is_positive count) (process_read_event os bits v >>= λ _. pure tt)

  abbrev pub waited_for : M S (Unit {0})
  waited_for = do waited ← wait_network_event os bits v; when waited served
