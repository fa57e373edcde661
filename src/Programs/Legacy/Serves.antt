-- ===== src/Programs/Legacy/Serves.antt =====
-- The legacy program on Linux, from its start to its end.
use libcastis_heartbeat.Prelude.{
  ℕ, suc, ◌≡◌, refl, ap, ◌∙◌, ℤ, pos, negsuc, ◌==ℤ◌, is_negative, Bool, true, false, List,
  replicate, Option, none, some, arith,
}
use libcastis_heartbeat.Prelude.Machine.{>>=-step}
use libcastis_heartbeat.Wire.{Host}
use libcastis_heartbeat.Defs.{alive}
use libcastis_heartbeat.Poll.{PollBits, empty_pollfd}
use libcastis_heartbeat.Os.{Os}
use libcastis_heartbeat.Semaphore
use libcastis_heartbeat.Thread.{
  new_thread, proc_loop, prepare_running, notify_exit, run_thread_here,
}
use libcastis_heartbeat.Net.{
  new_network_thread, nu_disconnect, disconnect_all, delete_network_thread,
}
use libcastis_heartbeat.Session.{bytes_of}
use libcastis_heartbeat.Responser.{Prog, new_responser}
use libcastis_heartbeat.Responser.Datagram.{response_of}
use libcastis_heartbeat.Responser.Init.{not_invalid}
use libcastis_heartbeat.Responser.Runs.{thread_virtuals}
use libcastis_heartbeat.Responser.Script.{Script}
use libcastis_heartbeat.Responser.Idle.{last}
use libcastis_heartbeat.Responser.Serves.{serves}
use libcastis_heartbeat.Responser.Steps.{stopped}
use libcastis_heartbeat.Programs.Platform.{
  linux, construct_responser, delete_responser, delete_thread,
}
use libcastis_heartbeat.Programs.Legacy.{main}
use libcastis_heartbeat.Programs.Legacy.Begins.{
  built, at_work, prepare-lem, begins, opened_in, reused_in, bound_in,
}

module _ {World Addr : Type 0} (host : Host) (os : Os World Addr) (bits : PollBits) (retries : ℕ)
    (addr : Addr) (buf : List ℕ) where
  -- The thread of the program.
  pub run-serves :
      (rounds : ℕ) (arrivals : List (List ℕ × Addr)) (ok : Bool) (w w₁ w' : World)
      → Semaphore.wait os retries w ≡ some (ok, w₁)
      → is_negative (opened_in host os w₁) ≡ false
      → ((reused_in host os w₁).0 ==ℤ negsuc 0) ≡ false
      → is_negative (bound_in host os w₁).0 ≡ false
      → Script host os bits
          (opened_in host os w₁)
          (pos 10)
          (response_of (built addr buf))
          rounds
          (bound_in host os w₁).1
          arrivals
          w'
      → (a : Addr) × (b : List ℕ) × (run_thread_here
            (thread_virtuals host os bits retries)
            (suc rounds)
            (record { obj = built addr buf; world = w })
          ≡ some (
            true,
            record (stopped host os bits retries
                (last (at_work addr buf (opened_in host os w₁)) a b)
                w') {
                  world = (Semaphore.post os (nu_disconnect os (opened_in host os w₁) w').1).1;
                },
          ))
  unfolding run_thread_here notify_exit new_responser new_network_thread new_thread disconnect_all
  run-serves rounds arrivals ok w w₁ w' waits valid reused is_bound script =
      let v = thread_virtuals host os bits retries in
      let (a, b, e) =
        serves host os bits retries (opened_in host os w₁) (replicate 1023 empty_pollfd)
          (at_work addr buf (opened_in host os w₁)) refl refl (pos 0) addr buf
          (not_invalid host os bits (opened_in host os w₁) valid) (omega arith) script in
      (
        a,
        b,
        >>=-step (prepare_running v) _ (prepare-lem host os bits retries addr buf ok w w₁ waits)
            ∙ >>=-step (proc_loop v (suc rounds)) _
                (begins host os bits retries addr buf rounds w₁ valid reused is_bound ∙ e),
      )

  -- The legacy program on Linux answers every request: if socket, setsockopt and bind succeed and
  -- waiting for the exit semaphore returns, then through any rounds of the thread, of which each finds
  -- no event, an interrupted or failed poll, a failed recvfrom, or a datagram, until another thread
  -- calls EndThread between two of them, `main` makes the calls of the system in the order of those
  -- rounds, answers each datagram that is a request by one response to its sender, and no other, then
  -- closes the socket, posts and destroys the semaphore, and answers 0. A unit of fuel for each round
  -- and one more is enough.
  pub main-serves :
      (rounds : ℕ) (arrivals : List (List ℕ × Addr)) (ok : Bool) (w w₁ w' : World)
      → Semaphore.wait os retries (Semaphore.initialize os 1 w).1 ≡ some (ok, w₁)
      → is_negative (opened_in host os w₁) ≡ false
      → ((reused_in host os w₁).0 ==ℤ negsuc 0) ≡ false
      → is_negative (bound_in host os w₁).0 ≡ false
      → Script host os bits
          (opened_in host os w₁)
          (pos 10)
          (λ seq_num. record {
            seq_num = seq_num;
            representative_ip = bytes_of "127.0.0.1";
            state = alive;
            local_ip = bytes_of "127.0.0.1";
          })
          rounds
          (bound_in host os w₁).1
          arrivals
          w'
      → main (linux host os bits retries addr buf) (suc rounds) w
        ≡ some (
          pos 0,
          (Semaphore.finalize os
              (Semaphore.post os (nu_disconnect os (opened_in host os w₁) w').1).1).1,
        )
  unfolding main construct_responser delete_responser delete_thread delete_network_thread
      disconnect_all new_responser
  main-serves rounds arrivals ok w w₁ w' waits valid reused is_bound script =
      let (a, b, e) =
        run-serves rounds arrivals ok (Semaphore.initialize os 1 w).1 w₁ w' waits valid reused
          is_bound script in
      ap
        (λ (o : Option (Bool × Prog World Addr)). elim o as (λ _. Option (ℤ × World)) [
          | none ↦ none
          | some (ok, s) ↦ some (pos 0, delete_responser host os bits s)
        ])
        e
