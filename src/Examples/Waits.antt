-- ===== src/Examples/Waits.antt =====
-- A semaphore whose first calls are interrupted by signals.
use libcastis_heartbeat.Prelude.{ℕ, zero, suc, ◌≡◌, refl, inl, pos, negsuc, true, [], some, arith}
use libcastis_heartbeat.Os.{Os}
use libcastis_heartbeat.Semaphore.{wait}
use libcastis_heartbeat.Semaphore.Retries.{uninterrupted, interrupted, wait-retries}
use libcastis_heartbeat.Examples.Systems.{Kernel, kernel}

-- `reads` counts the signals that are still to come.
abbrev signals : Os Kernel ℕ
signals = record kernel {
  sem_wait = λ w. elim w.reads [ zero ↦ (pos 0, w) | suc n ↦ (negsuc 0, record w { reads = n }) ];
  errno = λ w. 4;
}

abbrev after : ℕ → Kernel
after n = record { inbox = []; outbox = []; closed = []; reads = n }

wait-retries_example : wait signals 3 (after 2) ≡ some (true, after 0)
wait-retries_example =
    wait-retries signals 2 3 (after 2) (after 0)
      (interrupted (λ e. cc) refl (interrupted (λ e. cc) refl uninterrupted)) (inl refl)
      (omega arith)
