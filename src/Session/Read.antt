-- ===== src/Session/Read.antt =====
-- What HeartBeatSession does with a datagram, whole or short.
use libcastis_heartbeat.Prelude.{
  ℕ, ◌≡◌, refl, ap, sym, ◌∙◌, inl, inr, ℤ, pos, ==_refl, leb, to_int32, ◌==◌, if◌then◌else◌, Bool,
  true, false, Bool-cases, List, [], ◌∷◌, ◌++◌, length, take, drop, replicate, All, All-drop, arith,
  Option, none, some,
}
use libcastis_heartbeat.Prelude.Machine.{M, >>=-step}
use libcastis_heartbeat.Wire.{Host}
use libcastis_heartbeat.Wire.BigEndian.{IsByte, be_value, ntohl-load}
use libcastis_heartbeat.Responser.Datagram.{request_of}
use libcastis_heartbeat.Session.Boost.{Asio}
use libcastis_heartbeat.Session.{
  App, bytes_of, remote_address, need_socket, do_read_request, response_buffer, check_sent,
  do_write_response, read_int, read_request, handle_read_request,
}

-- An integer read from the front of the bytes, with zeros for those that are missing.
abbrev pub front_int : List ℕ → ℕ
front_int bytes = be_value (take 4 (bytes ++ replicate 4 0))

-- The datagrams that the session takes for a request.
abbrev pub session_request_of : List ℕ → Option ℕ
session_request_of bytes = if front_int bytes == 0 then some (front_int (drop 4 bytes)) else none

pub request_parts :
    (bytes : List ℕ) (seq_num : ℕ)
    → session_request_of bytes ≡ some seq_num
    → ((front_int bytes == 0) ≡ true) × (front_int (drop 4 bytes) ≡ seq_num)
request_parts bytes seq_num e = elim (Bool-cases (front_int bytes == 0)) [
  | inl z ↦ (z, cc (rw z at e))
  | inr z ↦ cc (rw z at e)
]

not_request : (bytes : List ℕ) → session_request_of bytes ≡ none → (front_int bytes == 0) ≡ false
not_request bytes e = elim (Bool-cases (front_int bytes == 0)) [
  | inl z ↦ cc (rw z at e)
  | inr z ↦ z
]

-- For whole datagrams they are those of the legacy responder.
pub session_request_of-whole :
    (a b c d e f g h : ℕ)
    → session_request_of (a ∷ b ∷ c ∷ d ∷ e ∷ f ∷ g ∷ h ∷ [])
      ≡ request_of (a ∷ b ∷ c ∷ d ∷ e ∷ f ∷ g ∷ h ∷ [])
session_request_of-whole a b c d e f g h = refl

module _ {World Endpoint Streambuf : Type 0} (host : Host) (asio : Asio World Endpoint Streambuf)
    (on_error : ℤ → List ℕ → M (App World Endpoint) (Unit {0})) where
  -- Four bytes, those got and those of the old zero.
  overlay-value :
      (bytes : List ℕ)
      → All IsByte bytes
      → host.ntohl (host.load (take 4 bytes ++ drop (length (take 4 bytes)) (host.store 0)))
        ≡ front_int bytes
  overlay-value [] ok =
      rw host.store-zero
        (ntohl-load host 0 0 0 0 (omega arith) (omega arith) (omega arith) (omega arith))
  overlay-value (a ∷ []) ok =
      rw host.store-zero (ntohl-load host a 0 0 0 ok.0 (omega arith) (omega arith) (omega arith))
  overlay-value (a ∷ b ∷ []) ok =
      rw host.store-zero (ntohl-load host a b 0 0 ok.0 ok.1.0 (omega arith) (omega arith))
  overlay-value (a ∷ b ∷ c ∷ []) ok =
      rw host.store-zero (ntohl-load host a b c 0 ok.0 ok.1.0 ok.1.1.0 (omega arith))
  overlay-value (a ∷ b ∷ c ∷ d ∷ rest) ok =
      rw host.store-zero (ntohl-load host a b c d ok.0 ok.1.0 ok.1.1.0 ok.1.1.1.0)

  read_int-good :
      (b : Streambuf) (bytes : List ℕ)
      → asio.contents b ≡ bytes
      → All IsByte bytes
      → (read_int host asio on_error true b).0 ≡ front_int bytes
  unfolding read_int
  read_int-good b bytes is ok = rw (asio.sgetn-bytes 4 b, is) (overlay-value bytes ok)

  read_int-bad : (b : Streambuf) → (read_int host asio on_error false b).0 ≡ 0
  unfolding read_int
  read_int-bad b = overlay-value [] tt

  read_int-goodness :
      (b : Streambuf) (bytes : List ℕ)
      → asio.contents b ≡ bytes
      → (read_int host asio on_error true b).1 ≡ leb 4 (length (take 4 bytes))
  unfolding read_int
  read_int-goodness b bytes is = rw (asio.sgetn-bytes 4 b, is)

  read_int-rest :
      (b : Streambuf) (bytes : List ℕ)
      → asio.contents b ≡ bytes
      → asio.contents (read_int host asio on_error true b).2 ≡ drop 4 bytes
  unfolding read_int
  read_int-rest b bytes is = asio.sgetn-rest 4 b ∙ ap (drop 4) is

  nothing_left :
      (bytes : List ℕ) → leb 4 (length (take 4 bytes)) ≡ false → front_int (drop 4 bytes) ≡ 0
  nothing_left [] e = refl
  nothing_left (a ∷ []) e = refl
  nothing_left (a ∷ b ∷ []) e = refl
  nothing_left (a ∷ b ∷ c ∷ []) e = refl
  nothing_left (a ∷ b ∷ c ∷ d ∷ rest) e = cc

  -- The second integer: nothing is read of it after a short first one.
  second_int :
      (bytes : List ℕ) (good : Bool) (b rest : Streambuf)
      → leb 4 (length (take 4 bytes)) ≡ good
      → asio.contents rest ≡ drop 4 bytes
      → All IsByte bytes
      → (read_int host asio on_error good rest).0 ≡ front_int (drop 4 bytes)
  second_int bytes true b rest e is ok =
      read_int-good rest (drop 4 bytes) is (All-drop IsByte 4 bytes ok)
  second_int bytes false b rest e is ok = read_int-bad rest ∙ sym (nothing_left bytes e)

  read_request-lem :
      (b : Streambuf) (bytes : List ℕ)
      → asio.contents b ≡ bytes
      → All IsByte bytes
      → read_request host asio on_error b ≡ (front_int bytes, front_int (drop 4 bytes))
  unfolding read_request
  read_request-lem b bytes is ok = λ i. (
    read_int-good b bytes is ok i,
    second_int bytes (read_int host asio on_error true b).1 b (read_int host asio on_error true b).2
        (sym (read_int-goodness b bytes is)) (read_int-rest b bytes is) ok i,
  )

  check_sent-all :
      (n : ℕ) (s : App World Endpoint) → check_sent host asio on_error n n (pos 0) s ≡ some (tt, s)
  unfolding check_sent
  check_sent-all n s = rw (==_refl n)

  -- do_write_response when all of the message is sent.
  write-sent :
      (seq_num : ℕ) (w : World) (s : App World Endpoint)
      → s.socket ≡ true
      → asio.send_to
          (asio.contents (response_buffer host asio on_error s.session seq_num))
          s.sender_endpoint
          s.world
        ≡ (length (asio.contents (response_buffer host asio on_error s.session seq_num)), pos 0, w)
      → do_write_response host asio on_error seq_num s ≡ some (tt, record s { world = w })
  unfolding do_write_response need_socket
  write-sent seq_num w s has sent = rw sent (
      >>=-step (need_socket host asio) _ {s = record s { world = w }} (rw has)
      ∙ check_sent-all _ (record s { world = w }))

  -- After a datagram the session waits for the next.
  rearmed :
      (s : App World Endpoint)
      → s.socket ≡ true
      → do_read_request host asio on_error s
        ≡ some (tt, record s { world = asio.async_receive_from 8 s.world })
  unfolding do_read_request need_socket
  rearmed s has = rw has

  -- A datagram of any size that the session takes for a request, that is, whose first four bytes are
  -- zero as far as there are that many, is answered: with a socket, and if send_to sends all of the
  -- response, the handler returns, the response that was sent carries the number in the next bytes, zeros
  -- standing for those that are missing, and the session waits for the next datagram.
  pub handle_read_request-request :
      (request : Streambuf) (n seq_num : ℕ) (bytes : List ℕ) (w : World) (s : App World Endpoint)
      → asio.contents (asio.commit n request) ≡ bytes
      → All IsByte bytes
      → session_request_of bytes ≡ some seq_num
      → s.socket ≡ true
      → asio.send_to
          (asio.contents (response_buffer host asio on_error s.session seq_num))
          s.sender_endpoint
          s.world
        ≡ (length (asio.contents (response_buffer host asio on_error s.session seq_num)), pos 0, w)
      → handle_read_request host asio on_error request (pos 0) n s
        ≡ some (tt, record s { world = asio.async_receive_from 8 w })
  unfolding handle_read_request
  handle_read_request-request request n seq_num bytes w s is ok wanted has sent =
      let (is_zero, seq_is) = request_parts bytes seq_num wanted in
      rw (read_request-lem (asio.commit n request) bytes is ok, is_zero, seq_is)
        (>>=-step (do_write_response host asio on_error seq_num) _ (write-sent seq_num w s has sent)
          ∙ rearmed (record s { world = w }) has)

  -- Any other datagram is reported with its first integer and the sender's address, and the session
  -- waits for the next, provided that handle_error returns and leaves the socket alone.
  pub handle_read_request-invalid :
      (request : Streambuf) (n : ℕ) (bytes : List ℕ) (s s' : App World Endpoint)
      → asio.contents (asio.commit n request) ≡ bytes
      → All IsByte bytes
      → session_request_of bytes ≡ none
      → on_error
          (to_int32 (front_int bytes))
          (bytes_of "invalid msg from " ++ remote_address host asio s.session)
          s
        ≡ some (tt, s')
      → s'.socket ≡ true
      → handle_read_request host asio on_error request (pos 0) n s
        ≡ some (tt, record s' { world = asio.async_receive_from 8 s'.world })
  unfolding handle_read_request
  handle_read_request-invalid request n bytes s s' is ok wanted reported has =
      rw (read_request-lem (asio.commit n request) bytes is ok, not_request bytes wanted)
        (>>=-step (on_error (to_int32 (front_int bytes)) _) _ reported ∙ rearmed s' has)
