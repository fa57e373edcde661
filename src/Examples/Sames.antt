-- ===== src/Examples/Sames.antt =====
-- The legacy responder and the session with the same request.
use libcastis_heartbeat.Prelude.{ℕ, ℤ, ◌≡◌, refl, pos, true, List, [], ◌∷◌, some, arith}
use libcastis_heartbeat.Prelude.Machine.{M}
use libcastis_heartbeat.Defs.{alive}
use libcastis_heartbeat.Wire.Hosts.{little, big}
use libcastis_heartbeat.Wire.Response.{encode}
use libcastis_heartbeat.Net.{serve_entry}
use libcastis_heartbeat.Responser.{net_virtuals}
use libcastis_heartbeat.Responser.Datagram.{response_of, after_datagram}
use libcastis_heartbeat.Responser.Reply.{cleared}
use libcastis_heartbeat.Session.{App, Session, handle_error, handle_read_request}
use libcastis_heartbeat.Session.Same.{serve_entry-handle_read_request}
use libcastis_heartbeat.Examples.Systems.{kernel, sockets, Buffer, Udp, udp}
use libcastis_heartbeat.Examples.Polls.{linux_bits}
use libcastis_heartbeat.Examples.Legacy.{
  rip, lip, request, request-bytes, responser, waiting, taken,
}

abbrev session : Session ℕ
session = record {
  socket = true;
  representative_ip = rip;
  local_ip = lip;
  hb_port = 7000;
  process_state = alive;
  sender_endpoint = 9;
}

abbrev app : App Udp ℕ
app = record { session = session; world = record { sent = []; receives = 1; reports = [] } }

abbrev arrived : Buffer
arrived = record { readable = []; arrived = request }

abbrev message : List ℕ
message = encode (response_of responser 258)

abbrev report : ℤ → List ℕ → M (App Udp ℕ) (Unit {0})
report = handle_error big udp (λ c. [])

serve_entry-handle_read_request_example :
    (serve_entry kernel linux_bits (net_virtuals little kernel linux_bits) 0 waiting
      ≡ some (
        tt,
        after_datagram request 9 (sockets.sendto (pos 3) message 9 taken).1 (cleared 0 waiting),
      ))
    × (handle_read_request big udp report arrived (pos 0) 8 app
        ≡ some (
          tt,
          record {
            session = session;
            world = record { sent = (message, 9) ∷ []; receives = 2; reports = [] };
          },
        ))
serve_entry-handle_read_request_example =
    serve_entry-handle_read_request little big kernel linux_bits udp report 0 8 258 request 9
      arrived taken (record { sent = (message, 9) ∷ []; receives = 1; reports = [] }) waiting app
      request-bytes refl refl (omega arith) (omega arith) (λ e. cc) refl refl refl refl
