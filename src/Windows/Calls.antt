-- ===== src/Windows/Calls.antt =====
-- The calls that the Windows branches of legacy_compatible/ make, as a parameter: the kernel and Winsock
-- are a `World` that each call changes, and `FdSet` is fd_set with its macros.
use libcastis_heartbeat.Prelude.{ℕ, ℤ, Bool, true, false, ◌≡◌, ◌≢◌, ◌⊎◌}

pub record Win (World FdSet : Type 0) : Type 0 where
  pub closesocket : ℤ → World → ℤ × World
  pub sleep : ℕ → World → World
  -- select(nfds, readfds, NULL, NULL, timeout): the timeout as seconds and microseconds; the result, and
  -- the set that it leaves
  pub select : ℤ → FdSet → ℤ → ℤ → World → ℤ × FdSet × World
  pub errno : World → ℕ
  -- WSAEINTR
  pub eintr : ℕ
  -- CreateSemaphore: whether there is a handle
  pub create_semaphore : ℕ → ℕ → World → Bool × World
  pub wait_for_single_object : World → ℕ × World
  pub wait_failed : ℕ
  pub wait_abandoned : ℕ
  -- ReleaseSemaphore, CloseHandle: whether the result is not FALSE
  pub release_semaphore : World → Bool × World
  pub close_handle : World → Bool × World
  -- _beginthread: the handle, which may be NULL
  pub begin_thread : World → ℕ × World
  -- whether another thread has called EndThread since the exit flag was last read
  pub ended : World → Bool × World
  -- FD_ZERO, FD_SET, FD_CLR, FD_ISSET
  pub fd_zero : FdSet
  pub fd_set : ℤ → FdSet → FdSet
  pub fd_clr : ℤ → FdSet → FdSet
  pub fd_isset : ℤ → FdSet → Bool
  pub isset-zero : (a : ℤ) → fd_isset a fd_zero ≡ false
  -- A full set takes no more.
  pub isset-set :
      (a b : ℤ) (s : FdSet) → fd_isset a (fd_set b s) ≡ true → (a ≡ b) ⊎ (fd_isset a s ≡ true)
  pub isset-clr :
      (a b : ℤ) (s : FdSet) → fd_isset a (fd_clr b s) ≡ true → (a ≢ b) × (fd_isset a s ≡ true)
