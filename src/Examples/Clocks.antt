-- ===== src/Examples/Clocks.antt =====
-- The concrete system as a clock, and the legacy responder on it.
use libcastis_heartbeat.Prelude.{
  ℕ, zero, suc, ◌≤◌, ◌<◌, ◌≡◌, ◌⊎◌, inl, inr, refl, pos, true, List, [], ◌∷◌, replicate,
  length-replicate, some, arith,
}
use libcastis_heartbeat.Defs.{max_data_size}
use libcastis_heartbeat.Wire.Hosts.{little}
use libcastis_heartbeat.Poll.{clear_table, max_fd_size}
use libcastis_heartbeat.Semaphore
use libcastis_heartbeat.Thread.{is_thread_done, new_thread, run_thread_here}
use libcastis_heartbeat.Net.{new_network_thread}
use libcastis_heartbeat.Responser.{Prog, new_responser}
use libcastis_heartbeat.Responser.Rounds.{IsSound}
use libcastis_heartbeat.Responser.Runs.{thread_virtuals}
use libcastis_heartbeat.Responser.Stops.{IsIdle}
use libcastis_heartbeat.Responser.Patience.{Clock}
use libcastis_heartbeat.Responser.Ends.{responser_run-ends}
use libcastis_heartbeat.Examples.Systems.{Kernel, kernel, receive, read_flag}
use libcastis_heartbeat.Examples.Polls.{linux_bits}
use libcastis_heartbeat.Examples.Programs.{start}

receive-reads : (room : ℕ) (w : Kernel) → (receive room w).1.reads ≡ w.reads
receive-reads room w = by_inbox w.inbox
  where
    by_inbox :
        (inbox : List (List ℕ × ℕ))
        → (receive room (record {
          inbox = inbox;
          outbox = w.outbox;
          closed = w.closed;
          reads = w.reads;
        })).1.reads
          ≡ w.reads
    by_inbox [] = refl
    by_inbox (datagram ∷ rest) = refl

wears_off :
    (w : Kernel) (n : ℕ)
    → ((read_flag (record w { reads = n })).0 ≡ true)
      ⊎ ((read_flag (record w { reads = n })).1.reads < n)
wears_off w zero = inl refl
wears_off w (suc n) = inr (omega arith)

never_more : (w : Kernel) (n : ℕ) → (read_flag (record w { reads = n })).1.reads ≤ n
never_more w zero = omega arith
never_more w (suc n) = omega arith

kernel-Clock : Clock kernel 1 (λ w. w.reads)
unfolding Semaphore.wait
kernel-Clock = record {
  through = λ n. record {
    at_socket = λ w p. p;
    at_reuse = λ sock value w p. p;
    at_bind = λ sock port w p. p;
    at_close = λ sock w p. p;
    rounds = record {
      at_poll = λ fds timeout w p. p;
      at_recvfrom = λ sock room w p. omega (arith, p, receive-reads room w);
      at_sendto = λ sock bytes addr w p. p;
      at_usleep = λ n w p. p;
      at_ended = λ w p. omega (arith, p, never_more w w.reads);
    };
  };
  ends = λ w. wears_off w w.reads;
  waits = λ w. (true, w, refl, omega arith);
}

-- An object before its thread is created.
abbrev object : Prog Kernel ℕ
object = record {
  obj = new_responser [] 7000 [] (pos 0) 0 (replicate max_data_size 0);
  world = start;
}

object-IsSound : IsSound object
unfolding new_responser new_network_thread clear_table max_fd_size
object-IsSound = (omega arith, (omega arith, length-replicate {A = ℕ} max_data_size 0))

responser_run-ends_example :
    (s' : Prog Kernel ℕ) × (run_thread_here (thread_virtuals little kernel linux_bits 1) 6 object
      ≡ some (true, s'))
    × (is_thread_done s'.net.base ≡ true)
    × IsIdle s'
    × IsSound s'
unfolding new_responser new_network_thread new_thread
responser_run-ends_example =
    responser_run-ends little kernel linux_bits 1 (λ w. w.reads) 6 object kernel-Clock
      object-IsSound refl (omega arith)
