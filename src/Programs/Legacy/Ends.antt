-- ===== src/Programs/Legacy/Ends.antt =====
-- The legacy program on Linux ends once another thread has called EndThread.
use libcastis_heartbeat.Prelude.{
  ℕ, ◌+◌, ◌<◌, ◌≡◌, refl, ap, ℤ, pos, Bool, List, [], length, Option, none, some, true, arith,
}
use libcastis_heartbeat.Defs.{max_data_size}
use libcastis_heartbeat.Wire.{Host}
use libcastis_heartbeat.Poll.{PollBits, max_fd_size, clear_table}
use libcastis_heartbeat.Os.{Os}
use libcastis_heartbeat.Semaphore
use libcastis_heartbeat.Thread.{new_thread, run_thread_here}
use libcastis_heartbeat.Net.{new_network_thread, delete_network_thread}
use libcastis_heartbeat.Responser.{Prog, new_responser}
use libcastis_heartbeat.Responser.Rounds.{IsSound}
use libcastis_heartbeat.Responser.Patience.{Clock}
use libcastis_heartbeat.Session.{bytes_of}
use libcastis_heartbeat.Responser.Runs.{thread_virtuals}
use libcastis_heartbeat.Responser.Ledger.{
  Books, Ledger, Accounted, Accounted-Unmoved, disconnect_all-Accounted,
}
use libcastis_heartbeat.Responser.Closes.{run-Accounts}
use libcastis_heartbeat.Programs.Platform.{
  linux, construct_responser, delete_responser, delete_thread,
}
use libcastis_heartbeat.Programs.Legacy.{main}

module _ {World Addr : Type 0} (host : Host) (os : Os World Addr) (bits : PollBits) (retries : ℕ)
    (addr : Addr) (buf : List ℕ) where
  -- The object of the program, as its constructors leave it.
  abbrev built : World → Prog World Addr
  built w =
      construct_responser host os bits addr buf (bytes_of "127.0.0.1") 8090 (bytes_of "127.0.0.1")
        (pos 10) w

  built-IsSound : (w : World) → length buf ≡ max_data_size → IsSound (built w)
  unfolding construct_responser new_responser new_network_thread clear_table max_fd_size
  built-IsSound w size = (omega arith, (omega arith, size))

  runs :
      (b : Books World) (left : World → ℕ) (fuel : ℕ) (w : World)
      → Clock os retries left
      → Ledger os b
      → length buf ≡ max_data_size
      → left (Semaphore.initialize os 1 w).1 + 2 < fuel
      → ((fd : ℤ) → b.held fd w ≡ b.stray fd w)
      → (s' : Prog World Addr) × (run_thread_here
            (thread_virtuals host os bits retries)
            fuel
            (built w)
          ≡ some (true, s'))
        × Accounted b s'.net.read_sockets s'.world
  unfolding construct_responser new_responser new_network_thread new_thread Semaphore.initialize
  runs b left fuel w clock ledger size enough before =
      run-Accounts host os bits retries left clock b ledger fuel (built w)
        (
          built-IsSound w size,
          Accounted-Unmoved b [] w _ (ledger.at_sem_init 1 w) (λ fd. (before fd, refl)),
        )
        refl enough

  destroyed :
      (b : Books World)
      → Ledger os b
      → (s : Prog World Addr) → Accounted b s.net.read_sockets s.world
      → (fd : ℤ)
      → b.held fd (delete_responser host os bits s) ≡ b.stray fd (delete_responser host os bits s)
  unfolding delete_responser delete_thread delete_network_thread Semaphore.finalize
  destroyed b ledger s h fd =
      (Accounted-Unmoved b [] _ _ (ledger.at_sem_destroy _)
        (disconnect_all-Accounted os b ledger s.net.read_sockets s.world h) fd).0

  -- The legacy program on Linux ends with 0, whatever the calls of the system answer and whatever
  -- arrives, if another thread calls EndThread in the end and waiting for a semaphore returns; and it has
  -- then closed every socket that it has opened, but for those that setsockopt or bind has failed on, and
  -- nothing else: the descriptors that are open at the end are those that were open before and those.
  -- `left` bounds the reads of the exit flag before EndThread, and three units of fuel more are enough;
  -- `held` tells which descriptors are open, and `stray` which of them were open before or were given to a
  -- setsockopt or bind that failed.
  pub main-ends :
      (b : Books World) (left : World → ℕ) (fuel : ℕ) (w : World)
      → Clock os retries left
      → Ledger os b
      → length buf ≡ max_data_size
      → left (Semaphore.initialize os 1 w).1 + 2 < fuel
      → ((fd : ℤ) → b.held fd w ≡ b.stray fd w)
      → (w' : World) × (main (linux host os bits retries addr buf) fuel w ≡ some (pos 0, w'))
        × ((fd : ℤ) → b.held fd w' ≡ b.stray fd w')
  unfolding main
  main-ends b left fuel w clock ledger size enough before =
      let (s', returned, accounted) = runs b left fuel w clock ledger size enough before in
      (
        delete_responser host os bits s',
        ap
            (λ (o : Option (Bool × Prog World Addr)). elim o as (λ _. Option (ℤ × World)) [
              | none ↦ none
              | some (ok, s) ↦ some (pos 0, delete_responser host os bits s)
            ])
            returned,
        destroyed b ledger s' accounted,
      )
