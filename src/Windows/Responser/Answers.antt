-- ===== src/Windows/Responser/Answers.antt =====
-- One Run of the responder on Windows, from the wait to the response.
use libcastis_heartbeat.Prelude.{
  ℕ, ◌+◌, ◌^◌, ◌<◌, ◌≡◌, ◌≢◌, refl, ap, ◌∙◌, subst, ℤ, ==ℤ_refl, ◌==◌, Bool, true, false, not, inl,
  inr, if◌then◌else◌, List, [], ◌∷◌, length, All, none, some,
}
use libcastis_heartbeat.Prelude.Machine.{◌>>=◌, >>=-step, pure, when}
use libcastis_heartbeat.Wire.{Host}
use libcastis_heartbeat.Wire.BigEndian.{IsByte, be_value, ntohl-load}
use libcastis_heartbeat.Os.{Sockets, received}
use libcastis_heartbeat.Poll.{invalid_socket}
use libcastis_heartbeat.Responser.{recv_int, receive_int_message, on_message, on_read_socket_error}
use libcastis_heartbeat.Responser.Datagram.{
  request_of, response_of, after_datagram, answer, receive-lem, handle-eight, eight-cases,
}
use libcastis_heartbeat.Windows.Calls.{Win}
use libcastis_heartbeat.Windows.Net.{contains, deref, dispatch_message, serve_socket}
use libcastis_heartbeat.Windows.Responser.{Responser, Prog, net_virtuals}

-- The responder that reads one socket, with the set that select has left and the events that it has
-- counted.
abbrev pub listening :
    {FdSet World Addr : Type 0}
    → ℤ
    → FdSet
    → ℤ
    → Responser FdSet Addr
    → World
    → Prog FdSet World Addr
listening fd ready events r w = record {
  obj = record r {
    net = record (r.net) { read_sockets = fd ∷ []; fd_set_read = ready; events_count = events };
  };
  world = w;
}

module _ {World FdSet Addr : Type 0} (host : Host) (sockets : Sockets World Addr)
    (win : Win World FdSet) (fd : ℤ) where
  -- The iterator at the one socket.
  deref-lem :
      (s : Prog FdSet World Addr)
      → s.net.read_sockets ≡ fd ∷ []
      → deref win (net_virtuals host sockets win) fd s ≡ some (fd, s)
  unfolding deref contains
  deref-lem s e = rw (e, ==ℤ_refl fd)

  dispatch-none :
      (s : Prog FdSet World Addr)
      → s.net.read_sockets ≡ fd ∷ []
      → dispatch_message win (net_virtuals host sockets win) fd none s ≡ some (tt, s)
  unfolding dispatch_message on_read_socket_error
  dispatch-none s e = >>=-step (deref win (net_virtuals host sockets win) fd) _ (deref-lem s e)

  -- What ProcessReadEvent does with the answer of OnMessage: nothing.
  after_message :
      (handled : Bool) (s : Prog FdSet World Addr)
      → s.net.read_sockets ≡ fd ∷ []
      → when
          (not handled)
          (deref win (net_virtuals host sockets win) fd >>= λ sockfd.
            on_read_socket_error host sockets sockfd >>= λ _. pure tt)
          s
        ≡ some (tt, s)
  unfolding on_read_socket_error
  after_message true s e = refl
  after_message false s e =
      >>=-step (deref win (net_virtuals host sockets win) fd) _ (deref-lem s e)

  dispatch-some :
      (m : ℕ) (handled : Bool) (s s' : Prog FdSet World Addr)
      → s.net.read_sockets ≡ fd ∷ []
      → s'.net.read_sockets ≡ fd ∷ []
      → on_message host sockets fd m s ≡ some (handled, s')
      → dispatch_message win (net_virtuals host sockets win) fd (some m) s ≡ some (tt, s')
  unfolding dispatch_message
  dispatch-some m handled s s' e e' is =
      >>=-step (deref win (net_virtuals host sockets win) fd) _ (deref-lem s e)
      ∙ >>=-step (on_message host sockets fd m) _ is
      ∙ after_message handled s' e'

  dispatch-answers :
      (bytes : List ℕ) (addr : Addr) (w : World) (s : Prog FdSet World Addr)
      → s.net.read_sockets ≡ fd ∷ []
      → fd ≢ invalid_socket
      → All IsByte bytes
      → 20 + length s.representative_ip + length s.local_ip < 2 ^ 31
      → dispatch_message win
          (net_virtuals host sockets win)
          fd
          (if length bytes == 8
            then some (recv_int host 0 (after_datagram bytes addr w s))
            else none)
          (after_datagram bytes addr w s)
        ≡ some (
          tt,
          after_datagram bytes addr
              (answer sockets fd (request_of bytes) addr (response_of s.obj) w)
              s,
        )
  unfolding recv_int
  dispatch-answers bytes addr w s reads valid ok small = elim (eight-cases bytes) [
    | inl (a, b, c, d, (e, f, g, h, is)) ↦
        let all_ok : All IsByte (a ∷ b ∷ c ∷ d ∷ e ∷ f ∷ g ∷ h ∷ []) = subst (All IsByte) is ok in
        let (r, handled) =
          handle-eight host sockets fd a b c d e f g h addr w s all_ok valid small in
        rw is (
          ap
            (λ m.
              dispatch_message win (net_virtuals host sockets win) fd (some m)
                (after_datagram (a ∷ b ∷ c ∷ d ∷ e ∷ f ∷ g ∷ h ∷ []) addr w s))
            (ntohl-load host a b c d all_ok.0 all_ok.1.0 all_ok.1.1.0 all_ok.1.1.1.0)
          ∙ dispatch-some (be_value (a ∷ b ∷ c ∷ d ∷ [])) r _ _ reads reads handled)
    | inr (size, none_is) ↦ rw (size, none_is) (dispatch-none _ reads)
  ]

  pub serve-answers :
      (bytes : List ℕ) (addr : Addr) (w : World) (s : Prog FdSet World Addr)
      → s.net.read_sockets ≡ fd ∷ []
      → fd ≢ invalid_socket
      → sockets.recvfrom fd 8 s.world ≡ (received bytes addr, w)
      → All IsByte bytes
      → 20 + length s.representative_ip + length s.local_ip < 2 ^ 31
      → serve_socket win (net_virtuals host sockets win) fd s
        ≡ some (
          tt,
          after_datagram bytes addr
              (answer sockets fd (request_of bytes) addr (response_of s.obj) w)
              s,
        )
  unfolding serve_socket
  serve-answers bytes addr w s reads valid got ok small =
      >>=-step (receive_int_message host sockets fd) _
        (receive-lem host sockets fd bytes addr w s valid got)
      ∙ dispatch-answers bytes addr w s reads valid ok small
