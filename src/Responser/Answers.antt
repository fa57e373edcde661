-- ===== src/Responser/Answers.antt =====
-- One Run of the responder, from the wait to the response.
use libcastis_heartbeat.Prelude.{
  ℕ, suc, ◌+◌, ◌^◌, ◌<◌, ◌≡◌, ◌≢◌, refl, ap, ◌∙◌, ℤ, pos, ==ℤ_false, ◌==◌, true, false, List, [],
  ◌∷◌, length, All, bit_and, some, arith,
}
use libcastis_heartbeat.Prelude.Machine.{>>=-step}
use libcastis_heartbeat.Wire.{Host}
use libcastis_heartbeat.Wire.BigEndian.{IsByte}
use libcastis_heartbeat.Poll.{Pollfd, PollBits, invalid_socket, max_fd_size, read_bits}
use libcastis_heartbeat.Thread.{read_exit}
use libcastis_heartbeat.Os.{Os, received}
use libcastis_heartbeat.Net.Parts.{waited_for}
use libcastis_heartbeat.Net.{
  thread_access, poll_table, set_revents, wait_network_event, serve_entry, count_event, is_ready,
  process_from, process_read_event, run,
}
use libcastis_heartbeat.Responser.{Responser, Prog, net_virtuals}
use libcastis_heartbeat.Responser.Datagram.{request_of, response_of, after_datagram, answer}
use libcastis_heartbeat.Responser.Reply.{cleared, serve_entry-answers}

-- The responder with one socket in its table, and the events that poll has counted.
abbrev pub listening :
    {World Addr : Type 0} → Pollfd → List Pollfd → ℤ → Responser Addr → World → Prog World Addr
listening p frees events r w = record {
  obj = record r {
    net = record (r.net) {
      table = record { poll_fds = p ∷ frees; poll_fd_count = 1 };
      events_count = events;
    };
  };
  world = w;
}

module _ {World Addr : Type 0} (host : Host) (os : Os World Addr) (bits : PollBits) where
  pub read_exit-lem :
      (s : Prog World Addr) (w : World)
      → s.net.base.exit ≡ false
      → os.ended s.world ≡ (false, w)
      → read_exit (thread_access os bits (net_virtuals host os bits)) s
        ≡ some (false, record s { world = w })
  unfolding read_exit
  read_exit-lem s w on e = rw e (ap (λ b. some (b, record s { world = w })) on)

  -- poll finds the one socket ready.
  wait-lem :
      (p : Pollfd) (frees : List Pollfd) (n : ℤ) (r : Responser Addr) (revents : ℕ) (w w₁ : World)
      → os.poll (p ∷ []) r.net.timeout_millisec w ≡ (pos 1, revents ∷ [], w₁)
      → wait_network_event os bits (net_virtuals host os bits) (listening p frees n r w)
        ≡ some (true, listening (record p { revents = revents }) frees (pos 1) r w₁)
  unfolding wait_network_event poll_table set_revents
  wait-lem p frees n r revents w w₁ e = rw e

  -- The object once the datagram is answered and the one event is counted.
  abbrev pub answered :
      Pollfd → List Pollfd → Responser Addr → List ℕ → Addr → World → Prog World Addr
  answered p frees r bytes addr w =
      let s =
        after_datagram bytes addr (answer os.sockets p.fd (request_of bytes) addr (response_of r) w)
          (cleared 0 (listening p frees (pos 1) r w)) in
      record s { obj = record (s.obj) { net = record (s.net) { events_count = pos 0 } } }

  process_from-lem :
      (rounds : ℕ) (p : Pollfd) (frees : List Pollfd) (r : Responser Addr) (bytes : List ℕ)
      (addr : Addr) (w w₁ : World)
      → p.fd ≢ invalid_socket
      → (bit_and p.revents (read_bits bits) == 0) ≡ false
      → os.recvfrom p.fd 8 w ≡ (received bytes addr, w₁)
      → All IsByte bytes
      → 20 + length r.representative_ip + length r.local_ip < 2 ^ 31
      → process_from os bits
          (net_virtuals host os bits)
          (suc rounds)
          0
          (listening p frees (pos 1) r w)
        ≡ some (tt, answered p frees r bytes addr w₁)
  unfolding process_from is_ready count_event
  process_from-lem rounds p frees r bytes addr w w₁ valid ready got ok small =
      rw (==ℤ_false valid, ready)
        (>>=-step (serve_entry os bits (net_virtuals host os bits) 0) _ (
          serve_entry-answers host os bits 0 bytes addr w₁ (listening p frees (pos 1) r w)
            (omega arith) valid got ok small))

  process-lem :
      (p : Pollfd) (frees : List Pollfd) (r : Responser Addr) (bytes : List ℕ) (addr : Addr)
      (w w₁ : World)
      → p.fd ≢ invalid_socket
      → (bit_and p.revents (read_bits bits) == 0) ≡ false
      → os.recvfrom p.fd 8 w ≡ (received bytes addr, w₁)
      → All IsByte bytes
      → 20 + length r.representative_ip + length r.local_ip < 2 ^ 31
      → process_read_event os bits (net_virtuals host os bits) (listening p frees (pos 1) r w)
        ≡ some (true, answered p frees r bytes addr w₁)
  unfolding process_read_event max_fd_size
  process-lem p frees r bytes addr w w₁ valid ready got ok small =
      >>=-step (process_from os bits (net_virtuals host os bits) 1024 0) _
        (process_from-lem 1023 p frees r bytes addr w w₁ valid ready got ok small)

  -- One Run, from what ProcessReadEvent does for the one event that poll has counted.
  pub run-served :
      (p : Pollfd) (frees : List Pollfd) (n : ℤ) (r : Responser Addr) (revents : ℕ)
      (s' : Prog World Addr) (w w₁ w₂ w₃ : World)
      → r.net.base.exit ≡ false
      → os.ended w ≡ (false, w₁)
      → os.poll (p ∷ []) r.net.timeout_millisec w₁ ≡ (pos 1, revents ∷ [], w₂)
      → os.ended w₂ ≡ (false, w₃)
      → process_read_event os bits
          (net_virtuals host os bits)
          (listening (record p { revents = revents }) frees (pos 1) r w₃)
        ≡ some (true, s')
      → run os bits (net_virtuals host os bits) (listening p frees n r w) ≡ some (true, s')
  unfolding run
  run-served p frees n r revents s' w w₁ w₂ w₃ on e₁ polls e₂ served =
      let v = net_virtuals host os bits in
      let p' : Pollfd = record p { revents = revents } in
      >>=-step (read_exit (thread_access os bits v)) _
        (read_exit-lem (listening p frees n r w) w₁ on e₁)
      ∙ >>=-step (waited_for os bits v) _ (
          >>=-step (wait_network_event os bits v) _ (wait-lem p frees n r revents w₁ w₂ polls)
          ∙ >>=-step (read_exit (thread_access os bits v)) _
              (read_exit-lem (listening p' frees (pos 1) r w₂) w₃ on e₂)
          ∙ >>=-step (process_read_event os bits v) _ served)

  pub run-answered :
      (p : Pollfd) (frees : List Pollfd) (n : ℤ) (r : Responser Addr) (revents : ℕ) (bytes : List ℕ)
      (addr : Addr) (w w₁ w₂ w₃ w₄ : World)
      → r.net.base.exit ≡ false
      → p.fd ≢ invalid_socket
      → os.ended w ≡ (false, w₁)
      → os.poll (p ∷ []) r.net.timeout_millisec w₁ ≡ (pos 1, revents ∷ [], w₂)
      → (bit_and revents (read_bits bits) == 0) ≡ false
      → os.ended w₂ ≡ (false, w₃)
      → os.recvfrom p.fd 8 w₃ ≡ (received bytes addr, w₄)
      → All IsByte bytes
      → 20 + length r.representative_ip + length r.local_ip < 2 ^ 31
      → run os bits (net_virtuals host os bits) (listening p frees n r w)
        ≡ some (true, answered (record p { revents = revents }) frees r bytes addr w₄)
  run-answered p frees n r revents bytes addr w w₁ w₂ w₃ w₄ on valid e₁ polls ready e₂ got ok
        small =
      run-served p frees n r revents _ w w₁ w₂ w₃ on e₁ polls e₂ (
        process-lem (record p { revents = revents }) frees r bytes addr w₃ w₄ valid ready got ok
          small)

  -- A Run of the responder answers the request that it finds: with one socket in the table and the exit
  -- flag unset, when poll reports a read event for the socket and recvfrom takes a datagram from it, Run
  -- returns true, a request was answered by one response to its sender, with its number, the addresses and
  -- the process state, as the last call of the system, any other datagram was dropped, and the table
  -- holds the same socket with the same events and its result cleared, ready for the next poll.
  pub run-answers :
      (p : Pollfd) (frees : List Pollfd) (n : ℤ) (r : Responser Addr) (revents : ℕ) (bytes : List ℕ)
      (addr : Addr) (w w₁ w₂ w₃ w₄ : World)
      → r.net.base.exit ≡ false
      → p.fd ≢ invalid_socket
      → os.ended w ≡ (false, w₁)
      → os.poll (p ∷ []) r.net.timeout_millisec w₁ ≡ (pos 1, revents ∷ [], w₂)
      → (bit_and revents (read_bits bits) == 0) ≡ false
      → os.ended w₂ ≡ (false, w₃)
      → os.recvfrom p.fd 8 w₃ ≡ (received bytes addr, w₄)
      → All IsByte bytes
      → 20 + length r.representative_ip + length r.local_ip < 2 ^ 31
      → (s' : Prog World Addr) × (run os bits (net_virtuals host os bits) (listening p frees n r w)
          ≡ some (true, s'))
        × (s'.world ≡ answer os.sockets p.fd (request_of bytes) addr (response_of r) w₄)
        × (s'.net.table ≡ record { poll_fds = record p { revents = 0 } ∷ frees; poll_fd_count = 1 })
  run-answers p frees n r revents bytes addr w w₁ w₂ w₃ w₄ on valid e₁ polls ready e₂ got ok small =
      (
        answered (record p { revents = revents }) frees r bytes addr w₄,
        run-answered p frees n r revents bytes addr w w₁ w₂ w₃ w₄ on valid e₁ polls ready e₂ got ok
            small,
        refl,
        refl,
      )
