-- ===== src/Programs/Legacy/OnWindows.antt =====
-- The legacy program on Windows ends once another thread has called EndThread.
use libcastis_heartbeat.Prelude.{
  ℕ, ◌+◌, ◌<◌, ◌≡◌, refl, ℤ, pos, true, List, [], length, some, arith,
}
use libcastis_heartbeat.Defs.{max_data_size}
use libcastis_heartbeat.Wire.{Host}
use libcastis_heartbeat.Os.{Sockets}
use libcastis_heartbeat.Session.{bytes_of}
use libcastis_heartbeat.Thread.{new_thread, run_thread_here}
use libcastis_heartbeat.Windows.Calls.{Win}
use libcastis_heartbeat.Windows.Semaphore
use libcastis_heartbeat.Windows.Net.{new_network_thread, delete_network_thread}
use libcastis_heartbeat.Windows.Responser.{Prog, new_responser, thread_virtuals}
use libcastis_heartbeat.Responser.Ledger.{Books, Accounted, Accounted-Unmoved}
use libcastis_heartbeat.Windows.Responser.Patience.{Clock, IsSound}
use libcastis_heartbeat.Windows.Responser.Closes.{Ledger, disconnect_all-Accounted, run-Accounts}
use libcastis_heartbeat.Programs.Platform.{
  Wsa, start_winsock, windows, construct_on_windows, delete_on_windows,
}
use libcastis_heartbeat.Programs.Legacy.{main}

module _ {World FdSet Addr : Type 0} (host : Host) (sockets : Sockets World Addr)
    (win : Win World FdSet) (wsa : Wsa World) (addr : Addr) (buf : List ℕ) where
  -- The object of the program, as its constructors leave it.
  abbrev built : World → Prog FdSet World Addr
  built w =
      construct_on_windows host sockets win addr buf (bytes_of "127.0.0.1") 8090
        (bytes_of "127.0.0.1") (pos 10) w

  built-IsSound : (w : World) → length buf ≡ max_data_size → IsSound (built w)
  unfolding construct_on_windows new_responser new_network_thread
  built-IsSound w size = ((omega arith, size), tt)

  runs :
      (b : Books World) (left : World → ℕ) (fuel : ℕ) (w : World)
      → Clock sockets win left
      → Ledger sockets win b
      → length buf ≡ max_data_size
      → left (Semaphore.initialize win 1 1 w).1 + 2 < fuel
      → ((fd : ℤ) → b.held fd w ≡ b.stray fd w)
      → (s' : Prog FdSet World Addr) × (run_thread_here
            (thread_virtuals host sockets win)
            fuel
            (built w)
          ≡ some (true, s'))
        × Accounted b s'.net.read_sockets s'.world
  unfolding construct_on_windows new_responser new_network_thread new_thread Semaphore.initialize
  runs b left fuel w clock ledger size enough before =
      run-Accounts host sockets win b ledger left clock fuel (built w)
        (
          built-IsSound w size,
          Accounted-Unmoved b [] w _ (ledger.at_create 1 1 w) (λ fd. (before fd, refl)),
        )
        refl enough

  destroyed :
      (b : Books World)
      → Ledger sockets win b
      → (s : Prog FdSet World Addr) → Accounted b s.net.read_sockets s.world
      → (fd : ℤ)
      → b.held fd (delete_on_windows host sockets win s)
        ≡ b.stray fd (delete_on_windows host sockets win s)
  unfolding delete_on_windows delete_network_thread Semaphore.finalize
  destroyed b ledger s h fd =
      (Accounted-Unmoved b [] _ _ (ledger.at_close_handle _)
        (disconnect_all-Accounted host sockets win b ledger s.net.read_sockets s.world h) fd).0

  -- The legacy program on Windows ends with 0, whatever the calls of the system answer and whatever
  -- arrives, if Winsock 2.2 is there and another thread calls EndThread in the end; and it has then closed
  -- every socket that it has opened, but for those that setsockopt or bind has failed on, and nothing
  -- else: the sockets that are open at the end are those that were open before and those. `left` bounds
  -- the reads of the exit flag before EndThread, and three units of fuel more are enough; `held` tells
  -- which sockets are open, and `stray` which of them were open before or were given to a setsockopt or
  -- bind that failed.
  pub main-ends_on_windows :
      (b : Books World) (left : World → ℕ) (fuel : ℕ) (w w₁ : World)
      → Clock sockets win left
      → Ledger sockets win b
      → length buf ≡ max_data_size
      → start_winsock wsa w ≡ (true, w₁)
      → left (Semaphore.initialize win 1 1 w₁).1 + 2 < fuel
      → ((fd : ℤ) → b.held fd w₁ ≡ b.stray fd w₁)
      → (w' : World) × (main (windows host sockets win wsa addr buf) fuel w ≡ some (pos 0, w'))
        × ((fd : ℤ) → b.held fd w' ≡ b.stray fd w')
  unfolding main
  main-ends_on_windows b left fuel w w₁ clock ledger size started enough before =
      let (s', returned, accounted) = runs b left fuel w₁ clock ledger size enough before in
      (
        delete_on_windows host sockets win s',
        rw (started, returned) refl,
        destroyed b ledger s' accounted,
      )
