-- ===== src/Semaphore/Retries.antt =====
-- The retries of CCiSemaphore::Wait.
use libcastis_heartbeat.Prelude.{
  ℕ, zero, suc, ◌<◌, ◌≡◌, ◌≢◌, ◌⊎◌, inl, inr, ◌∙◌, pos, ◌==ℤ◌, ==ℤ_true, ==ℤ_false, ◌==◌, ==_iff,
  ==_refl, Bool-cases, false, some, arith,
}
use libcastis_heartbeat.Os.{Os}
use libcastis_heartbeat.Semaphore.{wait}

module _ {World Addr : Type 0} (os : Os World Addr) where
  -- From a world to another by `n` calls of sem_wait that a signal interrupts.
  pub data Interrupts : ℕ → World → World → Type 0 where
    uninterrupted : {w : World} → Interrupts 0 w w
    interrupted :
        {n : ℕ} {w w' : World}
        → (os.sem_wait w).0 ≢ pos 0
        → os.errno (os.sem_wait w).1 ≡ os.eintr
        → Interrupts n (os.sem_wait w).1 w'
        → Interrupts (suc n) w w'

  -- The call succeeds, or fails for another reason.
  abbrev pub Settles : World → Type 0
  Settles w = ((os.sem_wait w).0 ≡ pos 0) ⊎ (os.errno (os.sem_wait w).1 ≢ os.eintr)

  settled :
      (fuel : ℕ) (w : World)
      → Settles w
      → wait os (suc fuel) w ≡ some ((os.sem_wait w).0 ==ℤ pos 0, (os.sem_wait w).1)
  unfolding wait
  settled fuel w (inl e) = rw (==ℤ_true e)
  settled fuel w (inr h) = elim (Bool-cases ((os.sem_wait w).0 ==ℤ pos 0)) [
    | inl e ↦ rw e
    | inr e ↦ rw (e, different (os.errno (os.sem_wait w).1) os.eintr h)
  ]
    where
      different : (a b : ℕ) → a ≢ b → (a == b) ≡ false
      different a b h = elim (Bool-cases (a == b)) [
        | inl e ↦ absurd (h ((==_iff a b).0 e))
        | inr e ↦ e
      ]

  again :
      (fuel : ℕ) (w : World)
      → (os.sem_wait w).0 ≢ pos 0
      → os.errno (os.sem_wait w).1 ≡ os.eintr
      → wait os (suc fuel) w ≡ wait os fuel (os.sem_wait w).1
  unfolding wait
  again fuel w failed signal = rw (==ℤ_false failed, signal, ==_refl os.eintr)

  -- After any number of interruptions by signals, Wait answers what the first call of sem_wait answers
  -- that is not interrupted, in its world: true if it succeeds and false if it fails; fuel for the
  -- interruptions and that call is enough.
  pub wait-retries :
      (n fuel : ℕ) (w w' : World)
      → Interrupts n w w'
      → Settles w'
      → n < fuel
      → wait os fuel w ≡ some ((os.sem_wait w').0 ==ℤ pos 0, (os.sem_wait w').1)
  wait-retries n zero w w' r h enough = absurd (omega arith)
  wait-retries zero (suc fuel) w w' uninterrupted h enough = settled fuel w h
  wait-retries (suc n) (suc fuel) w w' (interrupted failed signal r) h enough =
      again fuel w failed signal ∙ wait-retries n fuel (os.sem_wait w).1 w' r h (omega arith)
