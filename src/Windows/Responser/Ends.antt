-- ===== src/Windows/Responser/Ends.antt =====
-- The run of the responder on Windows ends once another thread has called EndThread.
use libcastis_heartbeat.Prelude.{ℕ, ◌+◌, ◌<◌, ◌≡◌, true, some}
use libcastis_heartbeat.Wire.{Host}
use libcastis_heartbeat.Os.{Sockets}
use libcastis_heartbeat.Thread.{invalid_handle, is_thread_done, run_thread_here}
use libcastis_heartbeat.Thread.Ends.{run_thread_here-ends}
use libcastis_heartbeat.Windows.Calls.{Win}
use libcastis_heartbeat.Windows.Responser.{Prog, thread_virtuals}
use libcastis_heartbeat.Windows.Responser.Laws.{IsIdle, windows_run-IsIdle}
use libcastis_heartbeat.Windows.Responser.Patience.{Clock, IsSound, responser-Patient}

module _ {World FdSet Addr : Type 0} (host : Host) (sockets : Sockets World Addr)
    (win : Win World FdSet) where
  -- RunThreadHere of a CCiHBResponser on Windows whose thread was never created returns true with the
  -- thread done, no read socket, an empty set for select and no counted event, whatever the calls of the
  -- system answer and whatever arrives, if another thread calls EndThread in the end: `left` bounds the
  -- reads of the exit flag before that, and fuel for three calls of ThreadProc more is enough. The
  -- read sockets are to be in order and without doubles, the addresses to have less than 2 ^ 31 - 20
  -- bytes together, and m_szRecvBuf CIHB_MAX_DATA_SIZE bytes.
  pub windows_run-ends :
      (left : World → ℕ) (fuel : ℕ) (s : Prog FdSet World Addr)
      → Clock sockets win left
      → IsSound s
      → s.net.base.handle ≡ invalid_handle
      → left s.world + 2 < fuel
      → (s' : Prog FdSet World Addr) × (run_thread_here (thread_virtuals host sockets win) fuel s
          ≡ some (true, s'))
        × (is_thread_done s'.net.base ≡ true)
        × IsIdle host sockets win s'
  windows_run-ends left fuel s clock p e enough =
      let (s', returned, p', ended) =
        run_thread_here-ends (thread_virtuals host sockets win) (λ s. left s.world) IsSound
          (responser-Patient host sockets win left clock) fuel s p e enough in
      (s', returned, ended, windows_run-IsIdle host sockets win fuel s s' returned)
