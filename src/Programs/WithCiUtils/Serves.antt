-- ===== src/Programs/WithCiUtils/Serves.antt =====
-- The program with CiUtils on Linux, from its start to its end.
use libcastis_heartbeat.Prelude.{
  ℕ, suc, ◌≡◌, ap, ◌∙◌, ℤ, pos, negsuc, ◌==ℤ◌, is_negative, Bool, true, false, List, Option, none,
  some,
}
use libcastis_heartbeat.Wire.{Host}
use libcastis_heartbeat.Defs.{alive}
use libcastis_heartbeat.Poll.{PollBits}
use libcastis_heartbeat.Os.{Os}
use libcastis_heartbeat.Semaphore
use libcastis_heartbeat.Thread
use libcastis_heartbeat.Net.{nu_disconnect, disconnect_all, delete_network_thread}
use libcastis_heartbeat.Session.{bytes_of}
use libcastis_heartbeat.Responser.{Prog, new_responser}
use libcastis_heartbeat.Responser.Runs.{thread_virtuals}
use libcastis_heartbeat.Responser.Script.{Script}
use libcastis_heartbeat.Programs.Platform.{
  Platform, linux, construct_responser, delete_responser, delete_thread,
}
use libcastis_heartbeat.Programs.Legacy.Begins.{built, opened_in, reused_in, bound_in}
use libcastis_heartbeat.Programs.Legacy.Serves.{run-serves}
use libcastis_heartbeat.Programs.WithCiUtils.{
  ResponserWithCiUtils, CiThread, new_with_ci_utils, delete_with_ci_utils, run_thread_here, main,
}
use libcastis_heartbeat.Programs.WithCiUtils.Lifts.{run_thread_here-Lifts}

module _ {World Addr Ci : Type 0} (host : Host) (os : Os World Addr) (bits : PollBits) (retries : ℕ)
    (addr : Addr) (buf : List ℕ) (cu : CiThread Ci World) where
  -- The world after the constructors of the two base classes, and what the second of them leaves.
  abbrev constructed : World → Ci × World
  constructed w = cu.construct (Semaphore.initialize os 1 w).1

  abbrev program : Platform (Prog World Addr) World
  program = linux host os bits retries addr buf

  -- The thread of the object runs in the part of CCiHBResponser.
  run-lem :
      (fuel : ℕ) (w : World) (s' : Prog World Addr)
      → Thread.run_thread_here
          (thread_virtuals host os bits retries)
          fuel
          (record { obj = built addr buf; world = (constructed w).1 })
        ≡ some (true, s')
      → run_thread_here (thread_virtuals host os bits retries) fuel (
          new_with_ci_utils program cu
            (bytes_of "127.0.0.1")
            8090
            (bytes_of "127.0.0.1")
            (pos 10)
            w)
        ≡ some (true, record { base = s'; ci = (constructed w).0 })
  unfolding run_thread_here new_with_ci_utils construct_responser
  run-lem fuel w s' e =
      run_thread_here-Lifts (thread_virtuals host os bits retries) fuel (record {
        base = record { obj = built addr buf; world = (constructed w).1 };
        ci = (constructed w).0;
      })
      ∙ ap
          (λ (o : Option (Bool × Prog World Addr)).
            elim o as (λ _. Option (Bool × ResponserWithCiUtils (Prog World Addr) Ci)) [
              | none ↦ none
              | some (b, s) ↦ some (b, record { base = s; ci = (constructed w).0 })
            ])
          e

  -- The program with CiUtils on Linux answers every request, whatever the constructor and the destructor
  -- of the CCiThread2 of CiUtils do to the system: if socket, setsockopt and bind succeed and waiting for
  -- the exit semaphore returns, then through any rounds of the thread, of which each finds no event, an
  -- interrupted or failed poll, a failed recvfrom, or a datagram, until another thread calls EndThread
  -- between two of them, `main` creates the semaphore, calls that constructor, makes the calls of the
  -- system in the order of those rounds, answers each datagram that is a request by one response to its
  -- sender, and no other, then closes the socket, posts the semaphore, calls that destructor, destroys the
  -- semaphore, and answers 0. A unit of fuel for each round and one more is enough.
  pub main-serves_with_ci_utils :
      (rounds : ℕ) (arrivals : List (List ℕ × Addr)) (ok : Bool) (w w₁ w' : World)
      → Semaphore.wait os retries (constructed w).1 ≡ some (ok, w₁)
      → is_negative (opened_in host os w₁) ≡ false
      → ((reused_in host os w₁).0 ==ℤ negsuc 0) ≡ false
      → is_negative (bound_in host os w₁).0 ≡ false
      → Script host os bits
          (opened_in host os w₁)
          (pos 10)
          (λ seq_num. record {
            seq_num = seq_num;
            representative_ip = bytes_of "127.0.0.1";
            state = alive;
            local_ip = bytes_of "127.0.0.1";
          })
          rounds
          (bound_in host os w₁).1
          arrivals
          w'
      → main program cu (suc rounds) w
        ≡ some (
          pos 0,
          (Semaphore.finalize os (
              cu.destroy
                (constructed w).0
                (Semaphore.post os (nu_disconnect os (opened_in host os w₁) w').1).1)).1,
        )
  unfolding main delete_with_ci_utils delete_responser delete_thread delete_network_thread
      disconnect_all new_responser
  main-serves_with_ci_utils rounds arrivals ok w w₁ w' waits valid reused is_bound script =
      let (a, b, e) =
        run-serves host os bits retries addr buf rounds arrivals ok (constructed w).1 w₁ w' waits
          valid reused is_bound script in
      ap
        (λ (o : Option (Bool × ResponserWithCiUtils (Prog World Addr) Ci)).
          elim o as (λ _. Option (ℤ × World)) [
            | none ↦ none
            | some (ok, s) ↦ some (pos 0, delete_with_ci_utils program cu s)
          ])
        (run-lem (suc rounds) w _ e)
