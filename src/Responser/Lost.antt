-- ===== src/Responser/Lost.antt =====
-- One Run of the responder of which recvfrom fails.
use libcastis_heartbeat.Prelude.{
  ℕ, suc, ◌≡◌, ◌≢◌, ℤ, pos, ==ℤ_false, ◌==◌, true, false, List, [], ◌∷◌, bit_and, some,
}
use libcastis_heartbeat.Prelude.Machine.{>>=-step}
use libcastis_heartbeat.Wire.{Host}
use libcastis_heartbeat.Poll.{Pollfd, PollBits, invalid_socket, max_fd_size, read_bits}
use libcastis_heartbeat.Os.{Os, failed}
use libcastis_heartbeat.Net.{
  serve_entry, count_event, is_ready, process_from, process_read_event, run, fd_at,
  dispatch_message, clear_revents,
}
use libcastis_heartbeat.Responser.{
  Responser, net_virtuals, receive_int_message, take_datagram, on_read_socket_error,
}
use libcastis_heartbeat.Responser.Answers.{listening, run-served}

module _ {World Addr : Type 0} (host : Host) (os : Os World Addr) (bits : PollBits) where
  -- The same when recvfrom fails, which OnReadSocketError of the responder ignores.
  serve-lost :
      (p : Pollfd) (frees : List Pollfd) (r : Responser Addr) (w w₁ : World)
      → p.fd ≢ invalid_socket
      → os.recvfrom p.fd 8 w ≡ (failed, w₁)
      → serve_entry os bits (net_virtuals host os bits) 0 (listening p frees (pos 1) r w)
        ≡ some (tt, listening (record p { revents = 0 }) frees (pos 1) r w₁)
  unfolding serve_entry fd_at receive_int_message take_datagram dispatch_message
      on_read_socket_error clear_revents
  serve-lost p frees r w w₁ valid got = rw (==ℤ_false valid, got)

  process_from-lost :
      (rounds : ℕ) (p : Pollfd) (frees : List Pollfd) (r : Responser Addr) (w w₁ : World)
      → p.fd ≢ invalid_socket
      → (bit_and p.revents (read_bits bits) == 0) ≡ false
      → os.recvfrom p.fd 8 w ≡ (failed, w₁)
      → process_from os bits
          (net_virtuals host os bits)
          (suc rounds)
          0
          (listening p frees (pos 1) r w)
        ≡ some (tt, listening (record p { revents = 0 }) frees (pos 0) r w₁)
  unfolding process_from is_ready count_event
  process_from-lost rounds p frees r w w₁ valid ready got =
      rw (==ℤ_false valid, ready)
        (>>=-step (serve_entry os bits (net_virtuals host os bits) 0) _
          (serve-lost p frees r w w₁ valid got))

  process-lost :
      (p : Pollfd) (frees : List Pollfd) (r : Responser Addr) (w w₁ : World)
      → p.fd ≢ invalid_socket
      → (bit_and p.revents (read_bits bits) == 0) ≡ false
      → os.recvfrom p.fd 8 w ≡ (failed, w₁)
      → process_read_event os bits (net_virtuals host os bits) (listening p frees (pos 1) r w)
        ≡ some (true, listening (record p { revents = 0 }) frees (pos 0) r w₁)
  unfolding process_read_event max_fd_size
  process-lost p frees r w w₁ valid ready got =
      >>=-step (process_from os bits (net_virtuals host os bits) 1024 0) _
        (process_from-lost 1023 p frees r w w₁ valid ready got)

  pub run-lost :
      (p : Pollfd) (frees : List Pollfd) (n : ℤ) (r : Responser Addr) (revents : ℕ)
      (w w₁ w₂ w₃ w₄ : World)
      → r.net.base.exit ≡ false
      → p.fd ≢ invalid_socket
      → os.ended w ≡ (false, w₁)
      → os.poll (p ∷ []) r.net.timeout_millisec w₁ ≡ (pos 1, revents ∷ [], w₂)
      → (bit_and revents (read_bits bits) == 0) ≡ false
      → os.ended w₂ ≡ (false, w₃)
      → os.recvfrom p.fd 8 w₃ ≡ (failed, w₄)
      → run os bits (net_virtuals host os bits) (listening p frees n r w)
        ≡ some (true, listening (record p { revents = 0 }) frees (pos 0) r w₄)
  run-lost p frees n r revents w w₁ w₂ w₃ w₄ on valid e₁ polls ready e₂ got =
      run-served host os bits p frees n r revents _ w w₁ w₂ w₃ on e₁ polls e₂
        (process-lost (record p { revents = revents }) frees r w₃ w₄ valid ready got)
