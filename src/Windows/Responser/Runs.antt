-- ===== src/Windows/Responser/Runs.antt =====
-- One Run of the responder on Windows that finds a datagram.
use libcastis_heartbeat.Prelude.{
  ℕ, suc, ◌+◌, ◌^◌, ◌<◌, ◌≡◌, ◌≢◌, refl, ap, ◌∙◌, ℤ, pos, ==ℤ_false, true, false, List, [], ◌∷◌,
  length, All, some,
}
use libcastis_heartbeat.Prelude.Machine.{◌>>=◌, >>=-step, gets, when, pure}
use libcastis_heartbeat.Prelude.{not, ◌&&◌, is_positive}
use libcastis_heartbeat.Wire.{Host}
use libcastis_heartbeat.Wire.BigEndian.{IsByte}
use libcastis_heartbeat.Os.{Sockets, received}
use libcastis_heartbeat.Poll.{invalid_socket}
use libcastis_heartbeat.Thread.{read_exit}
use libcastis_heartbeat.Responser.Datagram.{request_of, response_of, after_datagram, answer}
use libcastis_heartbeat.Windows.Calls.{Win}
use libcastis_heartbeat.Windows.Net.{
  succ_ℤ, quot_1000, rem_1000_times_1000, first, thread_access, select_read, wait_network_event,
  serve_socket, count_event, is_ready, process_from, process_read_event, run,
}
use libcastis_heartbeat.Windows.Responser.{Responser, Prog, net_virtuals}
use libcastis_heartbeat.Windows.Responser.Answers.{listening, serve-answers}

module _ {World FdSet Addr : Type 0} (host : Host) (sockets : Sockets World Addr)
    (win : Win World FdSet) (fd : ℤ) (r : Responser FdSet Addr) where
  read_exit-lem :
      (s : Prog FdSet World Addr) (w : World)
      → s.net.base.exit ≡ false
      → win.ended s.world ≡ (false, w)
      → read_exit (thread_access win (net_virtuals host sockets win)) s
        ≡ some (false, record s { world = w })
  unfolding read_exit
  read_exit-lem s w on e = rw e (ap (λ b. some (b, record s { world = w })) on)

  -- select finds the one socket ready.
  wait-lem :
      (old ready : FdSet) (n : ℤ) (w w₁ : World)
      → win.select
          (succ_ℤ r.net.maximum_socket)
          r.net.fd_set_all_read
          (quot_1000 r.net.timeout_millisec)
          (rem_1000_times_1000 r.net.timeout_millisec)
          w
        ≡ (pos 1, ready, w₁)
      → wait_network_event win (net_virtuals host sockets win) (listening fd old n r w)
        ≡ some (true, listening fd ready (pos 1) r w₁)
  unfolding wait_network_event select_read
  wait-lem old ready n w w₁ e = rw e

  -- The object once the datagram is answered and the one event is counted.
  abbrev answered : FdSet → List ℕ → Addr → World → Prog FdSet World Addr
  answered ready bytes addr w =
      after_datagram bytes addr (answer sockets fd (request_of bytes) addr (response_of r) w)
        (listening fd ready (pos 0) r w)

  process_from-lem :
      (rounds : ℕ) (ready : FdSet) (bytes : List ℕ) (addr : Addr) (w w₁ : World)
      → fd ≢ invalid_socket
      → win.fd_isset fd ready ≡ true
      → sockets.recvfrom fd 8 w ≡ (received bytes addr, w₁)
      → All IsByte bytes
      → 20 + length r.representative_ip + length r.local_ip < 2 ^ 31
      → process_from win
          (net_virtuals host sockets win)
          (suc rounds)
          (some fd)
          (listening fd ready (pos 1) r w)
        ≡ some (tt, answered ready bytes addr w₁)
  unfolding process_from is_ready count_event
  process_from-lem rounds ready bytes addr w w₁ valid set got ok small =
      rw (==ℤ_false valid, set)
        (>>=-step (serve_socket win (net_virtuals host sockets win) fd) _ (
          serve-answers host sockets win fd bytes addr w₁ (listening fd ready (pos 1) r w) refl
            valid got ok small))

  process-lem :
      (rounds : ℕ) (ready : FdSet) (bytes : List ℕ) (addr : Addr) (w w₁ : World)
      → fd ≢ invalid_socket
      → win.fd_isset fd ready ≡ true
      → sockets.recvfrom fd 8 w ≡ (received bytes addr, w₁)
      → All IsByte bytes
      → 20 + length r.representative_ip + length r.local_ip < 2 ^ 31
      → process_read_event win
          (net_virtuals host sockets win)
          (suc rounds)
          (listening fd ready (pos 1) r w)
        ≡ some (true, answered ready bytes addr w₁)
  unfolding process_read_event first
  process-lem rounds ready bytes addr w w₁ valid set got ok small =
      >>=-step (process_from win (net_virtuals host sockets win) (suc rounds) (some fd)) _
        (process_from-lem rounds ready bytes addr w w₁ valid set got ok small)

  -- A Run of the responder on Windows answers the request that it finds, as on Linux: with one read
  -- socket and the exit flag unset, when select reports the socket and recvfrom takes a datagram from it,
  -- Run returns true, a request was answered by one response to its sender, with its number, the
  -- addresses and the process state, as the last call of the system, any other datagram was dropped, and
  -- the socket is still read and in the set for the next select. One round of fuel is enough.
  pub run-replies :
      (rounds : ℕ) (old ready : FdSet) (n : ℤ) (bytes : List ℕ) (addr : Addr)
      (w w₁ w₂ w₃ w₄ : World)
      → r.net.base.exit ≡ false
      → fd ≢ invalid_socket
      → win.ended w ≡ (false, w₁)
      → win.select
          (succ_ℤ r.net.maximum_socket)
          r.net.fd_set_all_read
          (quot_1000 r.net.timeout_millisec)
          (rem_1000_times_1000 r.net.timeout_millisec)
          w₁
        ≡ (pos 1, ready, w₂)
      → win.fd_isset fd ready ≡ true
      → win.ended w₂ ≡ (false, w₃)
      → sockets.recvfrom fd 8 w₃ ≡ (received bytes addr, w₄)
      → All IsByte bytes
      → 20 + length r.representative_ip + length r.local_ip < 2 ^ 31
      → (s' : Prog FdSet World Addr) × (run win
            (net_virtuals host sockets win)
            (suc rounds)
            (listening fd old n r w)
          ≡ some (true, s'))
        × (s'.world ≡ answer sockets fd (request_of bytes) addr (response_of r) w₄)
        × (s'.net.read_sockets ≡ fd ∷ [])
        × (s'.net.fd_set_all_read ≡ r.net.fd_set_all_read)
  unfolding run
  run-replies rounds old ready n bytes addr w w₁ w₂ w₃ w₄ on valid e₁ selects set e₂ got ok small =
      let v = net_virtuals host sockets win in
      (
        answered ready bytes addr w₄,
        >>=-step (read_exit (thread_access win v)) _
              (read_exit-lem (listening fd old n r w) w₁ on e₁)
            ∙ >>=-step
                (wait_network_event win v >>= λ waited. when waited (
                  read_exit (thread_access win v) >>= λ ending.
                  gets (λ (s : Prog FdSet World Addr). s.net.events_count) >>= λ count.
                  when (not ending && is_positive count)
                    (process_read_event win v (suc rounds) >>= λ _. pure tt)))
                _
                (>>=-step (wait_network_event win v) _ (wait-lem old ready n w₁ w₂ selects)
                  ∙ >>=-step (read_exit (thread_access win v)) _
                      (read_exit-lem (listening fd ready (pos 1) r w₂) w₃ on e₂)
                  ∙ >>=-step (process_read_event win v (suc rounds)) _
                      (process-lem rounds ready bytes addr w₃ w₄ valid set got ok small)),
        refl,
        refl,
        refl,
      )
