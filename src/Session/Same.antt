-- ===== src/Session/Same.antt =====
-- HeartBeatSession and the legacy responder give the same answer to the same request.
use libcastis_heartbeat.Prelude.{
  ℕ, ◌+◌, ◌^◌, ◌<◌, ◌≡◌, ◌≢◌, ap, sym, ◌∙◌, subst, ℤ, pos, ◌==◌, true, inl, inr, Bool-cases, List,
  [], ◌∷◌, length, All, some, arith,
}
use libcastis_heartbeat.Prelude.Machine.{M}
use libcastis_heartbeat.Wire.{Host}
use libcastis_heartbeat.Wire.BigEndian.{IsByte, be_value, be_value-lt}
use libcastis_heartbeat.Wire.Response.{encode}
use libcastis_heartbeat.Poll.{PollBits, invalid_socket}
use libcastis_heartbeat.Os.{Os, received}
use libcastis_heartbeat.Net.{serve_entry}
use libcastis_heartbeat.Responser.{Prog, net_virtuals}
use libcastis_heartbeat.Responser.Datagram.{request_of, response_of, after_datagram, eight-cases}
use libcastis_heartbeat.Responser.Reply.{cleared, fd_of, serve_entry-answers}
use libcastis_heartbeat.Session.Boost.{Asio}
use libcastis_heartbeat.Session.{App, response_buffer, handle_read_request}
use libcastis_heartbeat.Session.Write.{session_response, response_buffer-encode}
use libcastis_heartbeat.Session.Read.{session_request_of, handle_read_request-request}

-- The number of a request has four bytes, and the session reads the same.
whole-request :
    (a b c d e f g h n : ℕ)
    → All IsByte (a ∷ b ∷ c ∷ d ∷ e ∷ f ∷ g ∷ h ∷ [])
    → request_of (a ∷ b ∷ c ∷ d ∷ e ∷ f ∷ g ∷ h ∷ []) ≡ some n
    → n < 2 ^ 32
whole-request a b c d e f g h n ok is = elim (Bool-cases (be_value (a ∷ b ∷ c ∷ d ∷ []) == 0)) [
  | inl zero_is ↦
      let last : All IsByte (e ∷ f ∷ g ∷ h ∷ []) = ok.1.1.1.1 in
      let n_is : be_value (e ∷ f ∷ g ∷ h ∷ []) ≡ n = cc (rw zero_is at is) in
      subst (λ n. n < 2 ^ 32) n_is (be_value-lt e f g h last.0 last.1.0 last.1.1.0 last.1.1.1.0)
  | inr other ↦ cc (rw other at is)
]

same-request :
    (bytes : List ℕ) (n : ℕ)
    → All IsByte bytes
    → request_of bytes ≡ some n
    → (session_request_of bytes ≡ some n) × (n < 2 ^ 32)
same-request bytes n ok is = elim (eight-cases bytes) [
  | inl (a, b, c, d, (e, f, g, h, eight)) ↦
      let is₁ = ap request_of (sym eight) ∙ is in
      (
        ap session_request_of eight ∙ is₁,
        whole-request a b c d e f g h n (subst (All IsByte) eight ok) is₁,
      )
  | inr (size, none_is) ↦ cc (none_is, is)
]

module _ {World Addr World' Endpoint Streambuf : Type 0} (host host' : Host) (os : Os World Addr)
    (bits : PollBits) (asio : Asio World' Endpoint Streambuf)
    (on_error : ℤ → List ℕ → M (App World' Endpoint) (Unit {0})) where
  -- A request in which the legacy responder finds the sequence number `n` gets the same answer from the
  -- two responders, on any two machines, if they are given the same addresses and are in the same process
  -- state: ProcessReadEvent of the one, for a ready entry that holds a socket, sends one message to its
  -- sender, and handle_read_request of the other, if send_to sends all of it, sends the same bytes to its
  -- sender and starts the next receive. The addresses have less than 2 ^ 31 - 20 bytes together.
  pub serve_entry-handle_read_request :
      (i k n : ℕ) (bytes : List ℕ) (addr : Addr) (request : Streambuf) (w : World) (w' : World')
      (s : Prog World Addr) (t : App World' Endpoint)
      → All IsByte bytes
      → request_of bytes ≡ some n
      → session_response t.session n ≡ response_of s.obj n
      → 20 + length s.representative_ip + length s.local_ip < 2 ^ 31
      → i < length s.net.table.poll_fds
      → fd_of i s ≢ invalid_socket
      → os.recvfrom (fd_of i s) 8 s.world ≡ (received bytes addr, w)
      → asio.contents (asio.commit k request) ≡ bytes
      → t.socket ≡ true
      → asio.send_to (encode (response_of s.obj n)) t.sender_endpoint t.world
        ≡ (length (encode (response_of s.obj n)), pos 0, w')
      → (serve_entry os bits (net_virtuals host os bits) i s
          ≡ some (
            tt,
            after_datagram bytes addr
                (os.sendto (fd_of i s) (encode (response_of s.obj n)) addr w).1
                (cleared i s),
          ))
        × (handle_read_request host' asio on_error request (pos 0) k t
            ≡ some (tt, record t { world = asio.async_receive_from 8 w' }))
  serve_entry-handle_read_request i k n bytes addr request w w' s t ok is same small inside valid
        got holds has sent =
      let (taken, lt) = same-request bytes n ok is in
      let rips : length t.representative_ip ≡ length s.representative_ip =
        ap (λ r. length r.representative_ip) same in
      let lips : length t.local_ip ≡ length s.local_ip = ap (λ r. length r.local_ip) same in
      let written : asio.contents (response_buffer host' asio on_error t.session n)
          ≡ encode (response_of s.obj n) =
        response_buffer-encode host' asio on_error t.session n lt (omega (arith, rips, small))
          (omega (arith, lips, small))
        ∙ ap encode same in
      (
        rw is at (serve_entry-answers host os bits i bytes addr w s inside valid got ok small),
        handle_read_request-request host' asio on_error request k n bytes w' t holds ok taken has
            (rw written sent),
      )
