-- ===== src/Examples/WindowsClocks.antt =====
-- A Windows on which another thread calls EndThread in the end.
use libcastis_heartbeat.Prelude.{
  ℕ, zero, suc, ◌≤◌, ◌<◌, ◌≡◌, ◌⊎◌, inl, inr, refl, Bool, pos, true, false, [], length, replicate,
  length-replicate, some, arith,
}
use libcastis_heartbeat.Defs.{max_data_size}
use libcastis_heartbeat.Wire.Hosts.{little}
use libcastis_heartbeat.Os
use libcastis_heartbeat.Thread.{is_thread_done, new_thread, run_thread_here}
use libcastis_heartbeat.Windows.Calls.{Win}
use libcastis_heartbeat.Windows.Net.{new_network_thread}
use libcastis_heartbeat.Windows.Responser.{Prog, new_responser, thread_virtuals}
use libcastis_heartbeat.Windows.Responser.Laws.{IsIdle}
use libcastis_heartbeat.Windows.Responser.Patience.{Clock, IsSound}
use libcastis_heartbeat.Windows.Responser.Ends.{windows_run-ends}
use libcastis_heartbeat.Examples.Sockets.{Sockets, winsock}
use libcastis_heartbeat.Examples.Windows.{requests}

-- The world counts the reads of the exit flag that are left.
abbrev read_flag : ℕ → Bool × ℕ
read_flag zero = (true, zero)
read_flag (suc n) = (false, n)

abbrev clockwork : Win ℕ Sockets
clockwork = record winsock {
  closesocket = λ sock w. (pos 0, w);
  sleep = λ n w. w;
  select = λ n s sec usec w. (pos 1, s, w);
  create_semaphore = λ n m w. (true, w);
  wait_for_single_object = λ w. (0, w);
  release_semaphore = λ w. (true, w);
  close_handle = λ w. (true, w);
  ended = read_flag;
}

abbrev timeless : Os.Sockets ℕ ℕ
timeless = record requests {
  socket = λ w. (pos 3, w);
  set_reuse_addr = λ sock value w. (pos 0, w);
  bind = λ sock port w. (pos 0, w);
  recvfrom = λ sock room w. ((requests.recvfrom sock room w).0, w);
  sendto = λ sock bytes addr w. (pos (length bytes), w);
}

wears_off : (w : ℕ) → ((read_flag w).0 ≡ true) ⊎ ((read_flag w).1 < w)
wears_off zero = inl refl
wears_off (suc n) = inr (omega arith)

never_more : (w : ℕ) → (read_flag w).1 ≤ w
never_more zero = omega arith
never_more (suc n) = omega arith

clockwork-Clock : Clock timeless clockwork (λ w. w)
clockwork-Clock = record {
  through = λ n. record {
    rounds = record {
      messages = record { at_recvfrom = λ sock room w p. p; at_sendto = λ sock bytes addr w p. p };
      at_select = λ k set sec usec w p. p;
      at_sleep = λ k w p. p;
      at_ended = λ w p. omega (arith, p, never_more w);
    };
    at_socket = λ w p. p;
    at_reuse = λ sock value w p. p;
    at_bind = λ sock port w p. p;
    at_close = λ sock w p. p;
  };
  ends = wears_off;
  at_wait = λ w. omega arith;
}

-- An object before its thread is created.
abbrev object : Prog Sockets ℕ ℕ
object = record {
  obj = new_responser little timeless clockwork [] 7000 [] (pos 10) 0 (replicate max_data_size 0);
  world = 3;
}

object-IsSound : IsSound object
unfolding new_responser new_network_thread
object-IsSound = ((omega arith, length-replicate {A = ℕ} max_data_size 0), tt)

windows_run-ends_example :
    (s' : Prog Sockets ℕ ℕ) × (run_thread_here (thread_virtuals little timeless clockwork) 6 object
      ≡ some (true, s'))
    × (is_thread_done s'.net.base ≡ true)
    × IsIdle little timeless clockwork s'
unfolding new_responser new_network_thread new_thread
windows_run-ends_example =
    windows_run-ends little timeless clockwork (λ w. w) 6 object clockwork-Clock object-IsSound refl
      (omega arith)
