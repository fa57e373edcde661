-- ===== src/Responser/Ends.antt =====
-- The run of the responder ends once another thread has called EndThread.
use libcastis_heartbeat.Prelude.{ℕ, ◌+◌, ◌<◌, ◌≡◌, true, some}
use libcastis_heartbeat.Wire.{Host}
use libcastis_heartbeat.Poll.{PollBits}
use libcastis_heartbeat.Os.{Os}
use libcastis_heartbeat.Thread.{invalid_handle, is_thread_done, run_thread_here}
use libcastis_heartbeat.Thread.Ends.{run_thread_here-ends}
use libcastis_heartbeat.Responser.{Prog}
use libcastis_heartbeat.Responser.Runs.{thread_virtuals}
use libcastis_heartbeat.Responser.Rounds.{IsSound}
use libcastis_heartbeat.Responser.Stops.{IsIdle, responser_run-IsIdle}
use libcastis_heartbeat.Responser.Patience.{Clock, responser-Patient}

module _ {World Addr : Type 0} (host : Host) (os : Os World Addr) (bits : PollBits) where
  -- RunThreadHere of a CCiHBResponser whose thread was never created returns true with the thread done,
  -- no read socket, an empty table and no counted event, whatever the calls of the system answer and
  -- whatever arrives, if another thread calls EndThread in the end and waiting for the semaphore returns:
  -- `left` bounds the reads of the exit flag before that, and fuel for three calls of ThreadProc more is
  -- enough. The count of the entries is to be at most the size of the array, the addresses are to have
  -- less than 2 ^ 31 - 20 bytes together, and m_szRecvBuf CIHB_MAX_DATA_SIZE bytes; so it is at the end.
  pub responser_run-ends :
      (retries : ℕ) (left : World → ℕ) (fuel : ℕ) (s : Prog World Addr)
      → Clock os retries left
      → IsSound s
      → s.net.base.handle ≡ invalid_handle
      → left s.world + 2 < fuel
      → (s' : Prog World Addr) × (run_thread_here (thread_virtuals host os bits retries) fuel s
          ≡ some (true, s'))
        × (is_thread_done s'.net.base ≡ true)
        × IsIdle s'
        × IsSound s'
  responser_run-ends retries left fuel s clock p e enough =
      let (s', returned, p', ended) =
        run_thread_here-ends (thread_virtuals host os bits retries) (λ s. left s.world) IsSound
          (responser-Patient host os bits retries left clock) fuel s p e enough in
      (s', returned, ended, responser_run-IsIdle host os bits retries fuel s s' returned, p')
