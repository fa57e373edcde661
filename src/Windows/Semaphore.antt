-- ===== src/Windows/Semaphore.antt =====
-- cihb::CCiSemaphore, the Windows branch.
use libcastis_heartbeat.Prelude.{ℕ, some, ◌==◌, Bool, not, ◌||◌}
use libcastis_heartbeat.Semaphore.Interface.{CiSemaphore}
use libcastis_heartbeat.Windows.Calls.{Win}

module _ {World FdSet : Type 0} (win : Win World FdSet) where
  unfoldable pub initialize : ℕ → ℕ → World → Bool × World
  initialize n maximum w = win.create_semaphore n maximum w

  unfoldable pub wait : World → Bool × World
  wait w =
      let (result, w₁) = win.wait_for_single_object w in
      (not (result == win.wait_failed || result == win.wait_abandoned), w₁)

  unfoldable pub post : World → Bool × World
  post w = win.release_semaphore w

  unfoldable pub finalize : World → Bool × World
  finalize w = win.close_handle w

  -- The class on Windows.
  abbrev pub windows_semaphore : CiSemaphore World
  windows_semaphore = record {
    initialize = initialize;
    wait = λ w. some (wait w);
    post = post;
    finalize = finalize;
  }
