-- ===== src/Responser/Reply.antt =====
-- What the responder does with a datagram, from ProcessReadEvent down to sendto.
use libcastis_heartbeat.Prelude.{
  not, true, inl, inr, All, sym, ap, ◌∙◌, ℕ, zero, suc, ◌+◌, ◌^◌, ◌<◌, ◌≡◌, ◌≢◌, refl, subst, ℤ,
  ◌==◌, if◌then◌else◌, Bool, false, List, [], ◌∷◌, length, get_or, set, Option, none, some, arith,
}
use libcastis_heartbeat.Prelude.Machine.{>>=-step, pure, when, ◌>>=◌}
use libcastis_heartbeat.Net.{serve_entry, dispatch_message, fd_at}
use libcastis_heartbeat.Wire.{Host}
use libcastis_heartbeat.Wire.BigEndian.{be_value, ntohl-load, IsByte}
use libcastis_heartbeat.Poll.{Pollfd, empty_pollfd, PollBits, invalid_socket}
use libcastis_heartbeat.Os.{Os, received}
use libcastis_heartbeat.Responser.{
  Prog, recv_int, receive_int_message, on_message, on_read_socket_error, net_virtuals,
}
use libcastis_heartbeat.Responser.Datagram.{
  request_of, response_of, after_datagram, answer, receive-lem, handle-eight, eight-cases,
}

get_or-set_self {ℓ} :
    {A : Type ℓ} (xs : List A) (i : ℕ) (v d : A) → i < length xs → get_or (set xs i v) i d ≡ v
get_or-set_self [] i v d h = elim h [ ]
get_or-set_self (x ∷ xs) zero v d h = refl
get_or-set_self (x ∷ xs) (suc i) v d h = get_or-set_self xs i v d (omega arith)

-- The object with the result of poll for the entry `i` cleared.
abbrev pub cleared : {World Addr : Type 0} → ℕ → Prog World Addr → Prog World Addr
cleared i s = record s {
  obj = record (s.obj) {
    net = record (s.net) {
      table = record (s.net.table) {
        poll_fds =
            set s.net.table.poll_fds i
              (record (get_or s.net.table.poll_fds i empty_pollfd) { revents = 0 });
      };
    };
  };
}

abbrev pub fd_of : {World Addr : Type 0} → ℕ → Prog World Addr → ℤ
fd_of i s = (get_or s.net.table.poll_fds i empty_pollfd).fd

module _ {World Addr : Type 0} (host : Host) (os : Os World Addr) (bits : PollBits) where
  fd_of-cleared :
      (i : ℕ) (s : Prog World Addr)
      → i < length s.net.table.poll_fds
      → fd_of i (cleared i s) ≡ fd_of i s
  fd_of-cleared i s h =
      ap (λ (p : Pollfd). p.fd) (get_or-set_self s.net.table.poll_fds i _ empty_pollfd h)

  -- What ProcessReadEvent does with the answers of OnMessage and OnReadSocketError: nothing.
  after_message :
      (handled : Bool) (sockfd : ℤ) (s : Prog World Addr)
      → when (not handled) (on_read_socket_error host os.sockets sockfd >>= λ _. pure tt) s
        ≡ some (tt, s)
  unfolding on_read_socket_error
  after_message true sockfd s = refl
  after_message false sockfd s = refl

  dispatch-none :
      (i : ℕ) (s : Prog World Addr)
      → dispatch_message os bits (net_virtuals host os bits) i none s ≡ some (tt, s)
  unfolding dispatch_message fd_at on_read_socket_error
  dispatch-none i s = refl

  dispatch-some :
      (i m : ℕ) (r : Bool) (s s' : Prog World Addr)
      → on_message host os.sockets (fd_of i s) m s ≡ some (r, s')
      → dispatch_message os bits (net_virtuals host os bits) i (some m) s ≡ some (tt, s')
  unfolding dispatch_message fd_at
  dispatch-some i m r s s' e =
      >>=-step (on_message host os.sockets (fd_of i s) m) _ e ∙ after_message r (fd_of i s') s'

  serve-steps :
      (i : ℕ) (message : Option ℕ) (s s₁ : Prog World Addr)
      → i < length s.net.table.poll_fds
      → receive_int_message host os.sockets (fd_of i s) (cleared i s) ≡ some (message, s₁)
      → serve_entry os bits (net_virtuals host os bits) i s
        ≡ dispatch_message os bits (net_virtuals host os bits) i message s₁
  unfolding serve_entry fd_at
  serve-steps i message s s₁ inside received_is =
      >>=-step (receive_int_message host os.sockets (fd_of i (cleared i s)))
        (dispatch_message os bits (net_virtuals host os bits) i)
        (ap (λ k. receive_int_message host os.sockets k (cleared i s)) (fd_of-cleared i s inside)
          ∙ received_is)

  dispatch-answers :
      (i : ℕ) (bytes : List ℕ) (addr : Addr) (w : World) (s : Prog World Addr)
      → fd_of i s ≢ invalid_socket
      → All IsByte bytes
      → 20 + length s.representative_ip + length s.local_ip < 2 ^ 31
      → let s₁ = after_datagram bytes addr w s in
        dispatch_message os bits
          (net_virtuals host os bits)
          i
          (if length bytes == 8 then some (recv_int host 0 s₁) else none)
          s₁
        ≡ some (
          tt,
          after_datagram bytes addr
              (answer os.sockets (fd_of i s) (request_of bytes) addr (response_of s.obj) w)
              s,
        )
  unfolding recv_int
  dispatch-answers i bytes addr w s valid ok small = elim (eight-cases bytes) [
    | inl (a, b, c, d, (e, f, g, h, is)) ↦
        let all_ok : All IsByte (a ∷ b ∷ c ∷ d ∷ e ∷ f ∷ g ∷ h ∷ []) = subst (All IsByte) is ok in
        let (r, handled) =
          handle-eight host os.sockets (fd_of i s) a b c d e f g h addr w s all_ok valid small in
        rw is (
          ap
            (λ m.
              dispatch_message os bits (net_virtuals host os bits) i (some m)
                (after_datagram (a ∷ b ∷ c ∷ d ∷ e ∷ f ∷ g ∷ h ∷ []) addr w s))
            (ntohl-load host a b c d all_ok.0 all_ok.1.0 all_ok.1.1.0 all_ok.1.1.1.0)
          ∙ dispatch-some i (be_value (a ∷ b ∷ c ∷ d ∷ [])) r _ _ handled)
    | inr (size, none_is) ↦ rw (size, none_is) (dispatch-none i _)
  ]

  -- ProcessReadEvent for a ready entry of the responder's table that holds a socket, when a datagram
  -- arrives, and for addresses of less than 2 ^ 31 - 20 bytes together: the entry's
  -- result is cleared, the datagram and its sender are stored, and exactly the requests are answered, each
  -- by one response to the sender with the request's sequence number, the two addresses and the process
  -- state of the object. Nothing else changes.
  pub serve_entry-answers :
      (i : ℕ) (bytes : List ℕ) (addr : Addr) (w : World) (s : Prog World Addr)
      → i < length s.net.table.poll_fds
      → fd_of i s ≢ invalid_socket
      → os.recvfrom (fd_of i s) 8 s.world ≡ (received bytes addr, w)
      → All IsByte bytes
      → 20 + length s.representative_ip + length s.local_ip < 2 ^ 31
      → serve_entry os bits (net_virtuals host os bits) i s
        ≡ some (
          tt,
          after_datagram bytes addr
              (answer os.sockets (fd_of i s) (request_of bytes) addr (response_of s.obj) w)
              (cleared i s),
        )
  serve_entry-answers i bytes addr w s inside valid got ok small =
      serve-steps i _ s _ inside
        (receive-lem host os.sockets (fd_of i s) bytes addr w (cleared i s) valid got)
      ∙ dispatch-answers i bytes addr w (cleared i s)
          (λ e. valid (sym (fd_of-cleared i s inside) ∙ e)) ok small
      ∙ ap
          (λ fd. some (
            tt,
            after_datagram bytes addr
                (answer os.sockets fd (request_of bytes) addr (response_of s.obj) w) (cleared i s),
          ))
          (fd_of-cleared i s inside)
