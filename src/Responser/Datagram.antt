-- ===== src/Responser/Datagram.antt =====
-- One datagram: what ReceiveIntMessage stores of it and what OnMessage sends back.
use libcastis_heartbeat.Prelude.{
  is_negative, pos, ◌==ℤ◌, true, inl, inr, ◌⊎◌, Bool-cases, All, ap, ◌∙◌, ℕ, ◌+◌, ◌^◌, ◌<◌, ◌≡◌,
  ◌≢◌, refl, ℤ, ==ℤ_false, ◌==◌, if◌then◌else◌, Bool, false, List, [], ◌∷◌, ◌++◌, length, drop,
  Option, none, some, arith,
}
use libcastis_heartbeat.Prelude.Machine.{>>=-step, pure}
use libcastis_heartbeat.Wire.{Host}
use libcastis_heartbeat.Wire.BigEndian.{be_value, be_value-lt, ntohl-load, IsByte}
use libcastis_heartbeat.Wire.Response.{Response, encode}
use libcastis_heartbeat.Poll.{invalid_socket}
use libcastis_heartbeat.Os.{Sockets, received}
use libcastis_heartbeat.Responser.{
  CiHbResponser, CiHbProg, recv_int, take_datagram, receive_int_message, send_heartbeat_response,
  on_message, on_heartbeat_request,
}
use libcastis_heartbeat.Responser.Build.{build_message-encode}

-- Which datagrams are heartbeat requests, and their sequence numbers: eight bytes, the first four of
-- them zero.
abbrev pub request_of : List ℕ → Option ℕ
request_of (a ∷ b ∷ c ∷ d ∷ e ∷ f ∷ g ∷ h ∷ []) =
    if be_value (a ∷ b ∷ c ∷ d ∷ []) == 0 then some (be_value (e ∷ f ∷ g ∷ h ∷ [])) else none
request_of _ = none

abbrev pub response_of : {N Addr : Type 0} → CiHbResponser N Addr → ℕ → Response
response_of r seq_num = record {
  seq_num = seq_num;
  representative_ip = r.representative_ip;
  state = r.process_state;
  local_ip = r.local_ip;
}

-- The object after a datagram.
abbrev pub after_datagram :
    {N World Addr : Type 0} → List ℕ → Addr → World → CiHbProg N World Addr → CiHbProg N World Addr
after_datagram bytes addr w s = record {
  obj = record (s.obj) { recv_buf = bytes ++ drop (length bytes) s.recv_buf; sa_recv = addr };
  world = w;
}

-- The answer to a datagram: one response to its sender if it is a request, and nothing otherwise.
abbrev pub answer :
    {World Addr : Type 0}
    → Sockets World Addr
    → ℤ
    → Option ℕ
    → Addr
    → (ℕ → Response)
    → World
    → World
answer sockets sockfd none addr respond w = w
answer sockets sockfd (some seq_num) addr respond w =
    (sockets.sendto sockfd (encode (respond seq_num)) addr w).1

module _ {N World Addr : Type 0} (host : Host) (sockets : Sockets World Addr) where
  pub receive-lem :
      (sockfd : ℤ) (bytes : List ℕ) (addr : Addr) (w : World) (s : CiHbProg N World Addr)
      → sockfd ≢ invalid_socket
      → sockets.recvfrom sockfd 8 s.world ≡ (received bytes addr, w)
      → receive_int_message host sockets sockfd s
        ≡ some (
          (if length bytes == 8
              then some (recv_int host 0 (after_datagram bytes addr w s))
              else none),
          after_datagram bytes addr w s,
        )
  unfolding receive_int_message take_datagram
  receive-lem sockfd bytes addr w s valid got = rw (==ℤ_false valid, got)

  sent-lem :
      (sockfd : ℤ) (seq_num : ℕ) (s : CiHbProg N World Addr)
      → 20 + length s.representative_ip + length s.local_ip < 2 ^ 31
      → seq_num < 2 ^ 32
      → (b : Bool) × (send_heartbeat_response host sockets sockfd seq_num s
          ≡ some (
            b,
            record s {
              world =
                  (sockets.sendto sockfd (encode (response_of s.obj seq_num)) s.sa_recv s.world).1;
            },
          ))
  unfolding send_heartbeat_response
  sent-lem sockfd seq_num s small lt = (
    answered,
    rw (build_message-encode host s.process_state s.representative_ip s.local_ip seq_num small lt),
  )
    where
      message : List ℕ
      message = encode (response_of s.obj seq_num)

      sent : ℤ
      sent = (sockets.sendto sockfd message s.sa_recv s.world).0

      answered : Bool
      answered = if is_negative sent then false else sent ==ℤ pos (length message)

  -- A call of OnMessage with a datagram of eight bytes in the buffer.
  pub handle-eight :
      (sockfd : ℤ) (a b c d e f g h : ℕ) (addr : Addr) (w : World) (s : CiHbProg N World Addr)
      → All IsByte (a ∷ b ∷ c ∷ d ∷ e ∷ f ∷ g ∷ h ∷ [])
      → sockfd ≢ invalid_socket
      → 20 + length s.representative_ip + length s.local_ip < 2 ^ 31
      → let bytes = a ∷ b ∷ c ∷ d ∷ e ∷ f ∷ g ∷ h ∷ [] in
        (r : Bool) × (on_message host sockets sockfd
            (be_value (a ∷ b ∷ c ∷ d ∷ []))
            (after_datagram bytes addr w s)
          ≡ some (
            r,
            after_datagram bytes addr
                (answer sockets sockfd (request_of bytes) addr (response_of s.obj) w)
                s,
          ))
  unfolding on_message on_heartbeat_request recv_int
  handle-eight sockfd a b c d e f g h addr w s ok valid small =
      let last : All IsByte (e ∷ f ∷ g ∷ h ∷ []) = ok.1.1.1.1 in
      let seq_num : ℕ = be_value (e ∷ f ∷ g ∷ h ∷ []) in
      let seq_is : host.ntohl (host.load (e ∷ f ∷ g ∷ h ∷ [])) ≡ seq_num =
        ntohl-load host e f g h last.0 last.1.0 last.1.1.0 last.1.1.1.0 in
      let s₁ : CiHbProg N World Addr =
        after_datagram (a ∷ b ∷ c ∷ d ∷ e ∷ f ∷ g ∷ h ∷ []) addr w s in
      let (sent, e_sent) =
        sent-lem sockfd seq_num (after_datagram (a ∷ b ∷ c ∷ d ∷ e ∷ f ∷ g ∷ h ∷ []) addr w s) small
          (be_value-lt e f g h last.0 last.1.0 last.1.1.0 last.1.1.1.0) in
      elim (Bool-cases (be_value (a ∷ b ∷ c ∷ d ∷ []) == 0)) [
        | inl is_request ↦ (
          true,
          rw (==ℤ_false valid, is_request)
              (>>=-step (on_heartbeat_request host sockets sockfd) (λ _. pure true)
                (ap (λ n. send_heartbeat_response host sockets sockfd n s₁) seq_is ∙ e_sent)),
        )
        | inr other ↦ (false, rw (==ℤ_false valid, other))
      ]

-- A datagram has eight bytes, or it is no request.
pub eight-cases :
    (bytes : List ℕ)
    → ((a b c d : ℕ) × ((e f g h : ℕ) × (bytes ≡ a ∷ b ∷ c ∷ d ∷ e ∷ f ∷ g ∷ h ∷ [])))
      ⊎ (((length bytes == 8) ≡ false) × (request_of bytes ≡ none))
eight-cases (a ∷ b ∷ c ∷ d ∷ e ∷ f ∷ g ∷ h ∷ []) = inl (a, b, c, d, (e, f, g, h, refl))
eight-cases _ = inr (ground arith, refl)
