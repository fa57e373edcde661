-- ===== src/Programs/AsioBase/Serves.antt =====
-- The session serves every request that arrives.
use libcastis_heartbeat.Prelude.{
  ℕ, drop, All-drop, sym, ◌≡◌, refl, ap, ◌∙◌, ◌<◌, ◌^◌, ℤ, pos, negsuc, true, List, [], ◌∷◌, length,
  All, Option, none, some, arith,
}
use libcastis_heartbeat.Prelude.Machine.{M, >>=-step}
use libcastis_heartbeat.Wire.{Host}
use libcastis_heartbeat.Wire.BigEndian.{IsByte}
use libcastis_heartbeat.Wire.Response.{encode}
use libcastis_heartbeat.Session.Boost.{Asio}
use libcastis_heartbeat.Session.{
  Session, App, start, handle_error, response_buffer, new_session, bytes_of, need_socket, throwing,
  do_read_request, delete_session,
}
use libcastis_heartbeat.Session.Write.{session_response, response_buffer-encode}
use libcastis_heartbeat.Session.Read.{
  front_int, request_parts, session_request_of, handle_read_request-request,
}
use libcastis_heartbeat.Programs.AsioBase.{Arrival, deliver, deliver_all, main}

-- A number of four bytes.
front_int-lt : (bytes : List ℕ) → All IsByte bytes → front_int bytes < 2 ^ 32
front_int-lt [] ok = omega arith
front_int-lt (a ∷ []) ok = omega arith
front_int-lt (a ∷ b ∷ []) ok = omega arith
front_int-lt (a ∷ b ∷ c ∷ []) ok = omega arith
front_int-lt (a ∷ b ∷ c ∷ d ∷ rest) ok = omega (arith, ok.0, ok.1.0, ok.1.1.0, ok.1.1.1.0)

asked-lt :
    (bytes : List ℕ) (seq_num : ℕ)
    → All IsByte bytes
    → session_request_of bytes ≡ some seq_num
    → seq_num < 2 ^ 32
asked-lt bytes seq_num ok e =
    rw (sym (request_parts bytes seq_num e).1)
      (front_int-lt (drop 4 bytes) (All-drop IsByte 4 bytes ok))

module _ {World Endpoint Streambuf : Type 0} (host : Host) (asio : Asio World Endpoint Streambuf)
    (on_error : ℤ → List ℕ → M (App World Endpoint) (Unit {0})) where
  -- The bytes of a datagram.
  abbrev pub datagram : Arrival Endpoint Streambuf → List ℕ
  datagram a = asio.contents (asio.commit a.bytes_recvd a.request)

  -- The session, as its members but for the sender's address are.
  abbrev pub from_sender : Endpoint → Session Endpoint → Session Endpoint
  from_sender e s = record s { sender_endpoint = e }

  -- The answers to requests with these senders and numbers, each followed by the next receive.
  abbrev pub answers : Session Endpoint → List (Endpoint × ℕ) → World → World
  answers s [] w = w
  answers s ((e, seq_num) ∷ rest) w =
      answers (from_sender e s) rest
        (asio.async_receive_from 8 (asio.send_to (encode (session_response s seq_num)) e w).2)

  -- The arrivals are requests with these senders and numbers.
  pub data Requests : List (Arrival Endpoint Streambuf) → List (Endpoint × ℕ) → Type 0 where
    no_more : Requests [] []
    request :
        {a : Arrival Endpoint Streambuf} {rest : List (Arrival Endpoint Streambuf)}
        {asked : List (Endpoint × ℕ)} (seq_num : ℕ)
        → a.err ≡ pos 0
        → All IsByte (datagram a)
        → session_request_of (datagram a) ≡ some seq_num
        → Requests rest asked
        → Requests (a ∷ rest) ((a.sender, seq_num) ∷ asked)

  -- The session after those requests.
  abbrev pub session_after : Session Endpoint → List (Endpoint × ℕ) → Session Endpoint
  session_after s [] = s
  session_after s ((e, seq_num) ∷ rest) = session_after (from_sender e s) rest

  pub session_after-socket :
      (s : Session Endpoint) (asked : List (Endpoint × ℕ))
      → (session_after s asked).socket ≡ s.socket
  session_after-socket s [] = refl
  session_after-socket s ((e, seq_num) ∷ rest) = session_after-socket (from_sender e s) rest

  module _
      (sends : (bytes : List ℕ) (e : Endpoint) (w : World)
        → asio.send_to bytes e w ≡ (length bytes, pos 0, (asio.send_to bytes e w).2)) where
    -- One request.
    deliver-answers :
        (a : Arrival Endpoint Streambuf) (seq_num : ℕ) (s : App World Endpoint)
        → a.err ≡ pos 0
        → All IsByte (datagram a)
        → session_request_of (datagram a) ≡ some seq_num
        → seq_num < 2 ^ 32
        → s.socket ≡ true
        → length s.representative_ip < 2 ^ 32
        → length s.local_ip < 2 ^ 32
        → deliver host asio on_error a s
          ≡ some (
            tt,
            record {
              session = from_sender a.sender s.session;
              world =
                  asio.async_receive_from 8
                    (asio.send_to (encode (session_response s.session seq_num)) a.sender s.world).2;
            },
          )
    deliver-answers a seq_num s err bytes asked small has rip lip =
        let s₁ : App World Endpoint = record {
          session = from_sender a.sender s.session;
          world = s.world;
        } in
        rw err (
          handle_read_request-request host asio on_error a.request a.bytes_recvd seq_num
            (datagram a)
            (asio.send_to (asio.contents (response_buffer host asio on_error s₁.session seq_num))
              a.sender s.world).2
            s₁ refl bytes asked has (sends _ a.sender s.world)
          ∙ ap
              (λ (b : List ℕ). some (
                tt,
                record {
                  session = from_sender a.sender s.session;
                  world = asio.async_receive_from 8 (asio.send_to b a.sender s.world).2;
                },
              ))
              (response_buffer-encode host asio on_error s₁.session seq_num small rip lip))

    pub deliver_all-answers :
        (arrivals : List (Arrival Endpoint Streambuf)) (asked : List (Endpoint × ℕ))
        (s : App World Endpoint)
        → Requests arrivals asked
        → s.socket ≡ true
        → length s.representative_ip < 2 ^ 32
        → length s.local_ip < 2 ^ 32
        → deliver_all host asio on_error arrivals s
          ≡ some (
            tt,
            record {
              session = session_after s.session asked;
              world = answers s.session asked s.world;
            },
          )
    deliver_all-answers arrivals asked s no_more has rip lip = refl
    deliver_all-answers arrivals asked s
          (request {a = a} {rest = rest} {asked = asked'} seq_num err bytes is more) has rip lip =
        >>=-step (deliver host asio on_error a) _ {s = s} (
          deliver-answers a seq_num s err bytes is (asked-lt (datagram a) seq_num bytes is) has rip
            lip)
        ∙ deliver_all-answers rest asked' _ more has rip lip

module _ {World Endpoint Streambuf : Type 0} (host : Host) (asio : Asio World Endpoint Streambuf)
    (show : ℤ → List ℕ)
    (sends : (bytes : List ℕ) (e : Endpoint) (w : World)
      → asio.send_to bytes e w ≡ (length bytes, pos 0, (asio.send_to bytes e w).2)) where
  -- The session of the program.
  abbrev built : Endpoint → Session Endpoint
  built endpoint = new_session (bytes_of "127.0.0.1") (bytes_of "127.0.0.1") 8090 endpoint

  throwing-lem :
      (f : World → Option World) (s : App World Endpoint) (w : World)
      → f s.world ≡ some w
      → throwing host asio f s ≡ some (tt, record s { world = w })
  throwing-lem f s w e = rw (e, throwing)

  start-lem :
      (endpoint : Endpoint) (w w₁ w₂ w₃ : World)
      → asio.open_v4 w ≡ some w₁
      → asio.set_reuse_address w₁ ≡ some w₂
      → asio.bind 8090 w₂ ≡ some w₃
      → start host asio
          (handle_error host asio show)
          (record { session = built endpoint; world = w })
        ≡ some (tt, record { session = built endpoint; world = asio.async_receive_from 8 w₃ })
  unfolding start do_read_request need_socket new_session
  start-lem endpoint w w₁ w₂ w₃ opens reuses binds =
      >>=-step (throwing host asio asio.open_v4) _
        (throwing-lem asio.open_v4 (record { session = built endpoint; world = w }) w₁ opens)
      ∙ >>=-step (throwing host asio asio.set_reuse_address) _ (
          throwing-lem asio.set_reuse_address (record { session = built endpoint; world = w₁ }) w₂
            reuses)
      ∙ >>=-step (throwing host asio (asio.bind 8090)) _
          (throwing-lem (asio.bind 8090) (record { session = built endpoint; world = w₂ }) w₃ binds)

  -- The program answers every request: if the socket opens and binds, send_to sends whole datagrams, and
  -- io_service::run delivers datagrams of any size that the session takes for requests, `main` answers 0, and
  -- every request was answered once, in the order of arrival, to its sender and with its number, each answer
  -- followed by the start of the next receive; then the socket is closed.
  pub main-answers :
      (arrivals : List (Arrival Endpoint Streambuf)) (asked : List (Endpoint × ℕ))
      (endpoint : Endpoint) (w w₁ w₂ w₃ : World)
      → asio.open_v4 w ≡ some w₁
      → asio.set_reuse_address w₁ ≡ some w₂
      → asio.bind 8090 w₂ ≡ some w₃
      → Requests host asio (handle_error host asio show) arrivals asked
      → main host asio show
          (deliver_all host asio (handle_error host asio show) arrivals)
          endpoint
          w
        ≡ (
          pos 0,
          some
              (asio.close (
                answers host asio
                  (handle_error host asio show)
                  (new_session (bytes_of "127.0.0.1") (bytes_of "127.0.0.1") 8090 endpoint)
                  asked
                  (asio.async_receive_from 8 w₃))).1,
        )
  unfolding main new_session delete_session
  main-answers arrivals asked endpoint w w₁ w₂ w₃ opens reuses binds r =
      let has =
        session_after-socket host asio (handle_error host asio show) (built endpoint) asked in
      ap
        (λ (o : Option (Unit {0} × App World Endpoint)). elim o as (λ _. ℤ × Option World) [
          | none ↦ (negsuc 0, none)
          | some (_, s) ↦ (pos 0, some (delete_session host asio s))
        ])
        (>>=-step (start host asio (handle_error host asio show)) _
            (start-lem endpoint w w₁ w₂ w₃ opens reuses binds)
          ∙ deliver_all-answers host asio (handle_error host asio show) sends arrivals asked
              (record { session = built endpoint; world = asio.async_receive_from 8 w₃ }) r refl
              (omega arith) (omega arith))
      ∙ rw has
