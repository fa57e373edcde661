-- ===== src/Examples/Networks.antt =====
-- A plain CNetworkThread, which receives nothing, so that every ready socket is taken for broken.
use libcastis_heartbeat.Prelude.{
  ℕ, ◌≤◌, ◌≡◌, refl, ℤ, pos, ==ℤ_false, ℤ-cases, inl, inr, true, false, List, [], ◌∷◌, length, map,
  some, arith,
}
use libcastis_heartbeat.Prelude.Machine.{pure, returns}
use libcastis_heartbeat.Poll.{Pollfd, max_fd_size, poll_fd_add}
use libcastis_heartbeat.Poll.Table.{table_of}
use libcastis_heartbeat.Thread.{done_initinstance}
use libcastis_heartbeat.Net.{
  add_read_socket, NetworkThread, NetVirtuals, receive_int_message, on_message,
  on_read_socket_error, disable_socket, run,
}
use libcastis_heartbeat.Net.InStep.{copies, InStep, add_read_socket-InStep}
use libcastis_heartbeat.Net.InStep.Rounds.{LeavesSockets, run-InStep}
use libcastis_heartbeat.Examples.Systems.{Kernel, kernel}
use libcastis_heartbeat.Examples.Polls.{linux_bits, three, three-IsTable}

record Plain : Type 0 where
  net : NetworkThread
  world : Kernel

-- The class without its OnReadSocketError, and with it.
abbrev members : NetVirtuals Plain Kernel
members = record {
  net = λ s. s.net;
  set_net = λ t s. record s { net = t };
  world = λ s. s.world;
  set_world = λ w s. record s { world = w };
  receive_int_message = receive_int_message;
  on_message = on_message;
  on_read_socket_error = λ sockfd. pure true;
}

abbrev plain : NetVirtuals Plain Kernel
plain = record members { on_read_socket_error = on_read_socket_error kernel linux_bits members }

one_each : (fds : List Pollfd) → length {A = ℕ} (map (λ p. 1) fds) ≤ length fds
one_each [] = omega arith
one_each (p ∷ fds) = omega (arith, one_each fds)

plain-LeavesSockets : LeavesSockets kernel linux_bits plain
unfolding receive_int_message on_message on_read_socket_error disable_socket
plain-LeavesSockets = record {
  net-set_net = λ t s. refl;
  net-set_world = λ w s. refl;
  on_receive = λ sockfd s. returns refl;
  on_message = λ sockfd m s. returns refl;
  on_error = λ sockfd s. refl;
  poll-length = λ fds timeout w. one_each fds;
}

abbrev running : Plain
running = record {
  net = record {
    base = record { handle = 1; exit = false; state = done_initinstance };
    read_sockets = pos 3 ∷ pos 4 ∷ pos 5 ∷ [];
    table = table_of three;
    events_count = pos 0;
    timeout_millisec = pos 100;
  };
  world = record { inbox = []; outbox = []; closed = []; reads = 9 };
}

running-InStep : InStep running.net
running-InStep = record {
  used = three;
  table = three-IsTable;
  same = λ x. refl;
  once = at_most_once;
}
  where
    at_most_once : (x : ℤ) → copies x (pos 3 ∷ pos 4 ∷ pos 5 ∷ []) ≤ 1
    at_most_once x = elim (ℤ-cases x (pos 3)) [
      | inl e ↦ rw e (omega arith)
      | inr a ↦ rw (==ℤ_false a) (elim (ℤ-cases x (pos 4)) [
        | inl e ↦ rw e (omega arith)
        | inr b ↦ rw (==ℤ_false b) (elim (ℤ-cases x (pos 5)) [
          | inl e ↦ rw e (omega arith)
          | inr c ↦ rw (==ℤ_false c) (omega arith)
        ])
      ])
    ]

run-InStep_example :
    (s' : Plain) × (run kernel linux_bits plain running ≡ some (true, s')) × InStep s'.net
run-InStep_example = run-InStep kernel linux_bits plain plain-LeavesSockets running running-InStep

add_read_socket-InStep_example :
    ((add_read_socket (pos 7) running.net).0 ≡ true)
    × ((poll_fd_add linux_bits (pos 7) (add_read_socket (pos 7) running.net).1.table).0 ≡ true)
    × InStep (record ((add_read_socket (pos 7) running.net).1) {
      table = (poll_fd_add linux_bits (pos 7) (add_read_socket (pos 7) running.net).1.table).1;
    })
unfolding max_fd_size
add_read_socket-InStep_example =
    add_read_socket-InStep linux_bits (pos 7) running.net running-InStep (λ e. cc) refl
      (omega arith)
