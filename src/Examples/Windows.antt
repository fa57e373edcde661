-- ===== src/Examples/Windows.antt =====
-- The responder on Windows, on sockets at each of which the same request waits.
use libcastis_heartbeat.Prelude.{
  ℕ, suc, ◌≡◌, refl, pos, true, false, [], ◌∷◌, length, take, length-take, replicate,
  length-replicate, some, arith,
}
use libcastis_heartbeat.Defs.{alive, max_data_size}
use libcastis_heartbeat.Wire.Hosts.{little}
use libcastis_heartbeat.Os
use libcastis_heartbeat.Os.{received}
use libcastis_heartbeat.Thread.{done_initinstance}
use libcastis_heartbeat.Responser.Datagram.{request_of, response_of, answer}
use libcastis_heartbeat.Responser.Whole.{IsWhole}
use libcastis_heartbeat.Windows.Net.{run, process_read_event}
use libcastis_heartbeat.Windows.Responser.{Responser, Prog, net_virtuals}
use libcastis_heartbeat.Windows.Responser.Answers.{listening}
use libcastis_heartbeat.Windows.Responser.Runs.{run-replies}
use libcastis_heartbeat.Windows.Responser.Rounds.{process_read_event-IsWhole}
use libcastis_heartbeat.Examples.Legacy.{request, request-bytes}
use libcastis_heartbeat.Examples.Sockets.{Sockets, winsock}

-- The world counts the calls.
abbrev pub requests : Os.Sockets ℕ ℕ
requests = record {
  socket = λ w. (pos 3, suc w);
  set_reuse_addr = λ sock value w. (pos 0, suc w);
  set_keep_alive = λ sock value w. (pos 0, suc w);
  bind = λ sock port w. (pos 0, suc w);
  recvfrom = λ sock room w. (received (take room request) 9, suc w);
  sendto = λ sock bytes addr w. (pos (length bytes), suc w);
  recvfrom-le = λ sock room w. omega (arith, length-take room request);
}

abbrev responser : Responser Sockets ℕ
responser = record {
  net = record {
    base = record { handle = 0; exit = false; state = done_initinstance };
    read_sockets = pos 3 ∷ [];
    fd_set_all_read = λ a. true;
    fd_set_read = λ a. true;
    maximum_socket = pos 3;
    events_count = pos 1;
    timeout_millisec = pos 10;
  };
  representative_ip = [];
  local_ip = [];
  port_number = 8090;
  process_state = alive;
  sa_recv = 0;
  recv_buf = replicate max_data_size 0;
}

run-replies_example :
    (s' : Prog Sockets ℕ ℕ) × (run winsock
        (net_virtuals little requests winsock)
        1
        (listening (pos 3) (λ a. false) (pos 0) responser 0)
      ≡ some (true, s'))
    × (s'.world ≡ answer requests (pos 3) (request_of request) 9 (response_of responser) 2)
    × (s'.net.read_sockets ≡ pos 3 ∷ [])
    × (s'.net.fd_set_all_read ≡ λ a. true)
run-replies_example =
    run-replies little requests winsock (pos 3) responser 0 (λ a. false) (λ a. true) (pos 0) request
      9 0 0 1 1 2 refl (λ e. cc) refl refl refl refl refl request-bytes (omega arith)

abbrev waiting : Prog Sockets ℕ ℕ
waiting = record { obj = responser; world = 0 }

process_read_event-IsWhole_example :
    (s' : Prog Sockets ℕ ℕ) × (process_read_event winsock
        (net_virtuals little requests winsock)
        1
        waiting
      ≡ some (true, s'))
    × (s'.net.read_sockets ≡ pos 3 ∷ [])
    × IsWhole s'
process_read_event-IsWhole_example =
    process_read_event-IsWhole little requests winsock 1 waiting
      (omega arith, length-replicate {A = ℕ} max_data_size 0) (tt, tt) (omega arith)
