-- ===== src/Semaphore/Interface.antt =====
-- class cihb::CCiSemaphore (legacy_compatible/legacy_support.h), as the thread uses it: its operations on a
-- `World`. Wait may not return.
use libcastis_heartbeat.Prelude.{ℕ, Bool}
use libcastis_heartbeat.Prelude.Machine.{M}

pub record CiSemaphore (World : Type 0) : Type 0 where
  -- Initialize(lInitialValue, lMaximumValue)
  pub initialize : ℕ → ℕ → World → Bool × World
  pub wait : M World Bool
  pub post : World → Bool × World
  pub finalize : World → Bool × World
