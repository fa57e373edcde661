-- ===== src/Semaphore.antt =====
-- cihb::CCiSemaphore (legacy_compatible/legacy_support.cpp, the Linux branch) over the system's
-- semaphore calls.
pub mod Interface
pub mod Retries
use libcastis_heartbeat.Prelude.{
  ℕ, zero, suc, ℤ, pos, ◌==ℤ◌, ◌==◌, Bool, not, ◌&&◌, if◌then◌else◌, none, some,
}
use libcastis_heartbeat.Prelude.Machine.{M}
use libcastis_heartbeat.Os.{Os}
use Interface.{CiSemaphore}

module _ {World Addr : Type 0} (os : Os World Addr) where
  -- A system call that answers 0 if it succeeds.
  abbrev pub succeeds : ℤ × World → Bool × World
  succeeds r = (r.0 ==ℤ pos 0, r.1)

  unfoldable pub initialize : ℕ → World → Bool × World
  initialize n w = succeeds (os.sem_init n w)

  -- `while ( (iReturn = sem_wait(&m_sem)) != 0 && errno == EINTR );`, with fuel.
  unfoldable pub wait : ℕ → M World Bool
  wait zero w = none
  wait (suc fuel) w =
      let again = wait fuel (os.sem_wait w).1 in
      if not ((os.sem_wait w).0 ==ℤ pos 0) && os.errno (os.sem_wait w).1 == os.eintr
      then again
      else some ((os.sem_wait w).0 ==ℤ pos 0, (os.sem_wait w).1)

  unfoldable pub post : World → Bool × World
  post w = succeeds (os.sem_post w)

  unfoldable pub finalize : World → Bool × World
  finalize w = succeeds (os.sem_destroy w)

  -- The class on Linux, which has no use for the maximum; `retries` is the fuel of Wait.
  abbrev pub linux_semaphore : ℕ → CiSemaphore World
  linux_semaphore retries = record {
    initialize = λ n maximum. initialize n;
    wait = wait retries;
    post = post;
    finalize = finalize;
  }
