-- ===== src/Responser/Serves.antt =====
-- The thread of the responder, round after round, until another thread calls EndThread.
use libcastis_heartbeat.Prelude.{
  ℕ, ◌+◌, ◌^◌, ◌<◌, ◌≡◌, ◌≢◌, refl, ◌∙◌, ℤ, pos, negsuc, true, false, List, ◌++◌, drop, length, suc,
  some,
}
use libcastis_heartbeat.Prelude.Machine.{◌>>=◌, >>=-step}
use libcastis_heartbeat.Wire.{Host}
use libcastis_heartbeat.Poll.Table.{new_pollfd}
use libcastis_heartbeat.Poll.{Pollfd, PollBits, invalid_socket}
use libcastis_heartbeat.Thread.{done_initinstance, run_or_leave, proc_loop}
use libcastis_heartbeat.Os.{Os}
use libcastis_heartbeat.Net.{run, msleep}
use libcastis_heartbeat.Responser.{Responser, net_virtuals}
use libcastis_heartbeat.Responser.Datagram.{response_of}
use libcastis_heartbeat.Responser.Answers.{run-answered}
use libcastis_heartbeat.Responser.Runs.{thread_virtuals}
use libcastis_heartbeat.Responser.Script.{
  Script, ends, quiet, interrupted, failed_poll, lost, arrives,
}
use libcastis_heartbeat.Responser.Idle.{
  last, polling, wait-quiet, wait-interrupted, wait-failed, run-idle, run-interrupted,
}
use libcastis_heartbeat.Responser.Lost.{run-lost}
use libcastis_heartbeat.Responser.Steps.{stopped, round-runs, round-ends, next-round, last-round}

module _ {World Addr : Type 0} (host : Host) (os : Os World Addr) (bits : PollBits) (retries : ℕ)
    (fd : ℤ) (frees : List Pollfd) (r₀ : Responser Addr) (on : r₀.net.base.exit ≡ false)
    (st : r₀.net.base.state ≡ done_initinstance) where
  -- The rounds left to the thread end it in the world `w'`.
  abbrev Serves : ℕ → ℤ → Addr → List ℕ → World → World → Type 0
  Serves rounds n a b w w' =
      (a' : Addr) × (b' : List ℕ) × ((run_or_leave (thread_virtuals host os bits retries) >>= λ _.
      proc_loop (thread_virtuals host os bits retries) rounds)
          (polling bits fd frees n (last r₀ a b) w)
        ≡ some (tt, stopped host os bits retries (last r₀ a' b') w'))

  -- One round before the others.
  after-run :
      (k : ℕ) (n n₁ : ℤ) (a a₁ : Addr) (b b₁ : List ℕ) (w w₁ w₂ w' : World)
      → os.ended w ≡ (false, w₁)
      → run os bits (net_virtuals host os bits) (polling bits fd frees n (last r₀ a b) w₁)
        ≡ some (true, polling bits fd frees n₁ (last r₀ a₁ b₁) w₂)
      → Serves k n₁ a₁ b₁ w₂ w'
      → Serves (suc k) n a b w w'
  after-run k n n₁ a a₁ b b₁ w w₁ w₂ w' e runs (a', b', more) = (
    a',
    b',
    next-round host os bits retries k (polling bits fd frees n (last r₀ a b) w)
          (polling bits fd frees n₁ (last r₀ a₁ b₁) w₂)
          (round-runs host os bits retries (polling bits fd frees n (last r₀ a b) w) _ w₁ on e runs)
          st
        ∙ more,
  )

  -- The rounds that are left, the first of them begun.
  pub serves :
      {rounds : ℕ} {arrivals : List (List ℕ × Addr)} {w w' : World} (n : ℤ) (a : Addr) (b : List ℕ)
      → fd ≢ invalid_socket
      → 20 + length r₀.representative_ip + length r₀.local_ip < 2 ^ 31
      → Script host os bits fd r₀.net.timeout_millisec (response_of r₀) rounds w arrivals w'
      → Serves rounds n a b w w'
  serves {w = w} {w' = w'} n a b valid small (ends {n = k} e) = (
    a,
    b,
    >>=-step (run_or_leave (thread_virtuals host os bits retries)) _
          (round-ends host os bits retries fd frees n (last r₀ a b) w w' e)
        ∙ last-round host os bits retries k (stopped host os bits retries (last r₀ a b) w') refl,
  )
  serves {w' = w'} n a b valid small
        (quiet {n = k} {w₁ = w₁} {w₂ = w₂} {w₃ = w₃} {w₄ = w₄} e₁ e₂ polls e₃ more) =
      after-run k n (pos 0) a a b b _ w₁ w₄ w' e₁
        (run-idle host os bits fd frees n (last r₀ a b) on (pos 0) w₁ w₂ w₃ w₄ refl e₂
          (wait-quiet host os bits fd frees n (last r₀ a b) on w₂ w₃ polls) e₃)
        (serves (pos 0) a b valid small more)
  serves {w' = w'} n a b valid small
        (interrupted {n = k} {w₁ = w₁} {w₂ = w₂} {w₃ = w₃} e₁ e₂ polls signal more) =
      after-run k n (pos 0) a a b b _ w₁ w₃ w' e₁
        (run-interrupted host os bits fd frees n (last r₀ a b) on w₁ w₂ w₃ e₂
          (wait-interrupted host os bits fd frees n (last r₀ a b) on w₂ w₃ polls signal))
        (serves (pos 0) a b valid small more)
  serves {w' = w'} n a b valid small
        (failed_poll {n = k} {w₁ = w₁} {w₂ = w₂} {w₃ = w₃} {w₄ = w₄} e₁ e₂ polls other e₃ more) =
      after-run k n (negsuc 0) a a b b _ w₁ w₄ w' e₁
        (run-idle host os bits fd frees n (last r₀ a b) on (negsuc 0) w₁ w₂
          (msleep os r₀.net.timeout_millisec w₃) w₄ refl e₂
          (wait-failed host os bits fd frees n (last r₀ a b) on w₂ w₃ polls other) e₃)
        (serves (negsuc 0) a b valid small more)
  serves {w' = w'} n a b valid small
        (lost {n = k} {w₁ = w₁} {w₂ = w₂} {w₃ = w₃} {w₄ = w₄} {w₅ = w₅} {revents = revents} e₁ e₂
          polls ready e₃ got more) =
      after-run k n (pos 0) a a b b _ w₁ w₅ w' e₁
        (run-lost host os bits (new_pollfd bits fd) frees n (last r₀ a b) revents w₁ w₂ w₃ w₄ w₅ on
          valid e₂ polls ready e₃ got)
        (serves (pos 0) a b valid small more)
  serves {w' = w'} n a b valid small
        (arrives {n = k} {w₁ = w₁} {w₂ = w₂} {w₃ = w₃} {w₄ = w₄} {w₅ = w₅} {revents = revents}
          {bytes = bytes} {addr = addr} e₁ e₂ polls ready e₃ got ok more) =
      after-run k n (pos 0) a addr b (bytes ++ drop (length bytes) b) _ w₁ _ w' e₁
        (run-answered host os bits (new_pollfd bits fd) frees n (last r₀ a b) revents bytes addr w₁
          w₂ w₃ w₄ w₅ on valid e₂ polls ready e₃ got ok small)
        (serves (pos 0) addr (bytes ++ drop (length bytes) b) valid small more)
