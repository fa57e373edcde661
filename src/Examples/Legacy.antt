-- ===== src/Examples/Legacy.antt =====
-- The legacy responder on a system with one datagram that waits.
use libcastis_heartbeat.Prelude.{
  ℕ, ◌≡◌, refl, pos, true, false, List, replicate, length-replicate, [], ◌∷◌, All, some, arith,
}
use libcastis_heartbeat.Defs.{max_data_size, alive, sw_error, state_code}
use libcastis_heartbeat.Wire.Hosts.{little}
use libcastis_heartbeat.Wire.Response.{decode, encode}
use libcastis_heartbeat.Poll.{Pollfd, max_fd_size, read_bits}
use libcastis_heartbeat.Thread.{done_initinstance}
use libcastis_heartbeat.Wire.BigEndian.{IsByte}
use libcastis_heartbeat.Responser.Answers.{listening, run-answers}
use libcastis_heartbeat.Net.{run, serve_entry, process_read_event}
use libcastis_heartbeat.Responser.Rounds.{IsSound, process_read_event-returns, run-returns}
use libcastis_heartbeat.Responser.{Responser, Prog, net_virtuals}
use libcastis_heartbeat.Responser.Message.{build_message}
use libcastis_heartbeat.Responser.Build.{build_message-decode, build_message-encode}
use libcastis_heartbeat.Responser.Datagram.{response_of, after_datagram, answer}
use libcastis_heartbeat.Responser.Reply.{cleared, serve_entry-answers}
use libcastis_heartbeat.Examples.Systems.{Kernel, kernel, sockets}
use libcastis_heartbeat.Examples.Polls.{linux_bits, entry}

abbrev pub rip : List ℕ
rip = 49 ∷ 48 ∷ 46 ∷ 49 ∷ []

abbrev pub lip : List ℕ
lip = 49 ∷ 50 ∷ []

build_message-encode_example :
    build_message little (state_code sw_error) rip lip 258
    ≡ some (
        encode
          (record { seq_num = 258; representative_ip = rip; state = sw_error; local_ip = lip }))
build_message-encode_example =
    build_message-encode little sw_error rip lip 258 (omega arith) (omega arith)

build_message-decode_example :
    (message : List ℕ) × (build_message little (state_code sw_error) rip lip 258 ≡ some message)
    × (decode message
        ≡ some (
          record { seq_num = 258; representative_ip = rip; state = sw_error; local_ip = lip },
          [],
        ))
build_message-decode_example =
    build_message-decode little sw_error rip lip 258 (omega arith) (omega arith)

-- A request with the sequence number 258 from the address 9.
abbrev pub request : List ℕ
request = 0 ∷ 0 ∷ 0 ∷ 0 ∷ 0 ∷ 0 ∷ 1 ∷ 2 ∷ []

pub request-bytes : All IsByte request
request-bytes = (
  omega arith,
  (
    omega arith,
    (omega arith, (omega arith, (omega arith, (omega arith, (omega arith, (omega arith, tt)))))),
  ),
)

abbrev fds : List Pollfd
fds = record (entry 3) { revents = 1 } ∷ []

abbrev pub responser : Responser ℕ
responser = record {
  net = record {
    base = record { handle = 0; exit = false; state = done_initinstance };
    read_sockets = pos 3 ∷ [];
    table = record { poll_fds = fds; poll_fd_count = 1 };
    events_count = pos 1;
    timeout_millisec = pos 100;
  };
  representative_ip = rip;
  local_ip = lip;
  port_number = 7000;
  process_state = alive;
  sa_recv = 0;
  recv_buf = replicate max_data_size 0;
}

abbrev pub waiting : Prog Kernel ℕ
waiting = record {
  obj = responser;
  world = record { inbox = (request, 9) ∷ []; outbox = []; closed = []; reads = 0 };
}

abbrev pub taken : Kernel
taken = record { inbox = []; outbox = []; closed = []; reads = 0 }

serve_entry-answers_example :
    serve_entry kernel linux_bits (net_virtuals little kernel linux_bits) 0 waiting
    ≡ some (
      tt,
      after_datagram request 9
          (answer sockets (pos 3) (some 258) 9 (response_of responser) taken)
          (cleared 0 waiting),
    )
serve_entry-answers_example =
    serve_entry-answers little kernel linux_bits 0 request 9 taken waiting (omega arith) (λ e. cc)
      refl request-bytes (omega arith)

waiting-IsSound : IsSound waiting
unfolding max_fd_size
waiting-IsSound = (omega arith, (omega arith, length-replicate {A = ℕ} max_data_size 0))

process_read_event-returns_example :
    (s' : Prog Kernel ℕ) × (process_read_event kernel linux_bits
        (net_virtuals little kernel linux_bits)
        waiting
      ≡ some (true, s'))
    × IsSound s'
process_read_event-returns_example =
    process_read_event-returns little kernel linux_bits waiting waiting-IsSound

run-returns_example :
    (s' : Prog Kernel ℕ) × (run kernel linux_bits (net_virtuals little kernel linux_bits) waiting
      ≡ some (true, s'))
    × IsSound s'
run-returns_example = run-returns little kernel linux_bits waiting waiting-IsSound

-- The same system, with the exit flag unset at the next two reads, and once it was read and the datagram
-- was taken.
abbrev world_with : List (List ℕ × ℕ) → ℕ → Kernel
world_with inbox reads = record { inbox = inbox; outbox = []; closed = []; reads = reads }

run-answers_example :
    (s' : Prog Kernel ℕ) × (run kernel linux_bits
        (net_virtuals little kernel linux_bits)
        (listening (entry 3) [] (pos 0) responser (world_with ((request, 9) ∷ []) 2))
      ≡ some (true, s'))
    × (s'.world ≡ answer sockets (pos 3) (some 258) 9 (response_of responser) (world_with [] 0))
    × (s'.net.table
        ≡ record { poll_fds = record (entry 3) { revents = 0 } ∷ []; poll_fd_count = 1 })
unfolding read_bits
run-answers_example =
    run-answers little kernel linux_bits (entry 3) [] (pos 0) responser 1 request 9
      (world_with ((request, 9) ∷ []) 2) (world_with ((request, 9) ∷ []) 1)
      (world_with ((request, 9) ∷ []) 1) (world_with ((request, 9) ∷ []) 0) (world_with [] 0) refl
      (λ e. cc) refl refl refl refl refl request-bytes (omega arith)
