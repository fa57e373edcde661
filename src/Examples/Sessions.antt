-- ===== src/Examples/Sessions.antt =====
-- The session on a concrete Boost.Asio.
use libcastis_heartbeat.Prelude.{
  ℕ, ◌≡◌, refl, ℤ, pos, true, false, List, [], ◌∷◌, ◌++◌, none, some, to_int32, arith,
}
use libcastis_heartbeat.Prelude.Machine.{M}
use libcastis_heartbeat.Defs.{hw_error, state_code}
use libcastis_heartbeat.Wire.Hosts.{big}
use libcastis_heartbeat.Wire.Response.{encode}
use libcastis_heartbeat.Responser.Message.{build_message}
use libcastis_heartbeat.Session.{
  Session, App, bytes_of, remote_address, handle_error, response_buffer, handle_read_request, clear,
  start, do_read_request, do_write_response,
}
use libcastis_heartbeat.Session.Clear.{clear-ends}
use libcastis_heartbeat.Session.Write.{
  session_response, response_buffer-encode, build_message-response_buffer,
}
use libcastis_heartbeat.Session.Read.{handle_read_request-request, handle_read_request-invalid}
use libcastis_heartbeat.Examples.Systems.{Udp, Buffer, udp}

abbrev session : Session ℕ
session = record {
  socket = true;
  representative_ip = 49 ∷ 48 ∷ [];
  local_ip = 50 ∷ [];
  hb_port = 7000;
  process_state = hw_error;
  sender_endpoint = 9;
}

abbrev idle : Udp
idle = record { sent = []; receives = 1; reports = [] }

abbrev app : App Udp ℕ
app = record { session = session; world = idle }

-- handle_error with one byte for each code.
abbrev report : ℤ → List ℕ → M (App Udp ℕ) (Unit {0})
report = handle_error big udp (λ c. 45 ∷ [])

response_buffer-encode_example :
    udp.contents (response_buffer big udp report session 258)
    ≡ encode (session_response session 258)
response_buffer-encode_example =
    response_buffer-encode big udp report session 258 (omega arith) (omega arith) (omega arith)

build_message-response_buffer_example :
    build_message big (state_code hw_error) (49 ∷ 48 ∷ []) (50 ∷ []) 258
    ≡ some (udp.contents (response_buffer big udp report session 258))
build_message-response_buffer_example =
    build_message-response_buffer big udp report session 258 (omega arith) (omega arith)

-- A request, a short datagram that is none, and the bytes that each holds.
abbrev request : Buffer
request = record { readable = []; arrived = 0 ∷ 0 ∷ 0 ∷ 0 ∷ 0 ∷ 0 ∷ 1 ∷ 2 ∷ [] }

abbrev short : Buffer
short = record { readable = []; arrived = 0 ∷ 0 ∷ 1 ∷ [] }

-- The world once the response is sent.
abbrev answered : Udp
answered = record {
  sent = (udp.contents (response_buffer big udp report session 258), 9) ∷ [];
  receives = 1;
  reports = [];
}

handle_read_request-request_example :
    handle_read_request big udp report request (pos 0) 8 app
    ≡ some (tt, record { session = session; world = record answered { receives = 2 } })
handle_read_request-request_example =
    handle_read_request-request big udp report request 8 258 (0 ∷ 0 ∷ 0 ∷ 0 ∷ 0 ∷ 0 ∷ 1 ∷ 2 ∷ [])
      answered app refl
      (
        omega arith,
        (
          omega arith,
          (
            omega arith,
            (omega arith, (omega arith, (omega arith, (omega arith, (omega arith, tt))))),
          ),
        ),
      )
      refl refl refl

abbrev reported : App Udp ℕ
reported = record {
  session = session;
  world = record idle {
    reports =
        (bytes_of "errorCode = "
          ++ ((45 ∷ [])
              ++ (bytes_of ", errorStr = "
                  ++ ((bytes_of "invalid msg from " ++ (9 ∷ [])) ++ bytes_of "\n"))))
        ∷ [];
  };
}

short_report :
    report (to_int32 256) (bytes_of "invalid msg from " ++ remote_address big udp session) app
    ≡ some (tt, reported)
unfolding handle_error remote_address
short_report = refl

handle_read_request-invalid_example :
    handle_read_request big udp report short (pos 0) 3 app
    ≡ some (tt, record { session = session; world = record (reported.world) { receives = 2 } })
handle_read_request-invalid_example =
    handle_read_request-invalid big udp report short 3 (0 ∷ 0 ∷ 1 ∷ []) app reported refl
      (omega arith, (omega arith, (omega arith, tt))) refl short_report refl

-- The session without its socket.
abbrev cleared_app : App Udp ℕ
cleared_app = record { session = record session { socket = false }; world = idle }

cleared : clear big udp report app ≡ some (tt, cleared_app)
unfolding clear
cleared = refl

clear-ends_example :
    (cleared_app.socket ≡ false)
    × (clear big udp report cleared_app ≡ some (tt, cleared_app))
    × (start big udp report cleared_app ≡ none)
    × (do_read_request big udp report cleared_app ≡ none)
    × ((seq_num : ℕ) → do_write_response big udp report seq_num cleared_app ≡ none)
clear-ends_example = clear-ends big udp report app cleared_app cleared
