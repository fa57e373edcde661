-- ===== src/Examples/Desks.antt =====
-- Systems with one descriptor, and the legacy program on them.
use libcastis_heartbeat.Prelude.{
  ℕ, zero, suc, ◌≤◌, ◌<◌, ◌≡◌, refl, sym, ◌⊎◌, inl, inr, ℤ, pos, negsuc, ◌==ℤ◌, ==ℤ_iff,
  is_negative, Bool, Bool-cases, true, false, not, ◌&&◌, ◌||◌, if◌then◌else◌, length, map,
  replicate, length-replicate, some, arith,
}
use libcastis_heartbeat.Defs.{max_data_size}
use libcastis_heartbeat.Wire.Hosts.{little}
use libcastis_heartbeat.Semaphore
use libcastis_heartbeat.Os.{Os}
use libcastis_heartbeat.Responser.Patience.{Clock}
use libcastis_heartbeat.Responser.Ledger.{Books, Ledger}
use libcastis_heartbeat.Responser.Opens.{kept}
use libcastis_heartbeat.Programs.Platform.{Wsa, start_winsock, linux, windows}
use libcastis_heartbeat.Programs.Legacy.{main}
use libcastis_heartbeat.Programs.Legacy.Ends.{main-ends}
use libcastis_heartbeat.Programs.Legacy.OnWindows.{main-ends_on_windows}
use libcastis_heartbeat.Examples.Polls.{linux_bits}
use libcastis_heartbeat.Examples.Windows.{requests}
use libcastis_heartbeat.Examples.Sockets.{Sockets, winsock}
use libcastis_heartbeat.Windows
use libcastis_heartbeat.Windows.Calls.{Win}

-- Whether the descriptor 3 is open, and the reads of the exit flag before another thread sets it.
abbrev Desk : Type 0
Desk = Bool × ℕ

abbrev read_flag : Desk → Bool × Desk
read_flag w = elim w.1 [ zero ↦ (true, w) | suc n ↦ (false, (w.0, n)) ]

-- Every poll finds a request, and every call succeeds but socket, if the descriptor is taken.
abbrev desk : Os Desk ℕ
desk = record {
  sockets = record {
    socket = λ w. if w.0 then (negsuc 0, w) else (pos 3, (true, w.1));
    set_reuse_addr = λ sock value w. (pos 0, w);
    set_keep_alive = λ sock value w. (pos 0, w);
    bind = λ sock port w. (pos 0, w);
    recvfrom = λ sock room w. ((requests.recvfrom sock room 0).0, w);
    sendto = λ sock bytes addr w. (pos (length bytes), w);
    recvfrom-le = λ sock room w. requests.recvfrom-le sock room 0;
  };
  close = λ sock w. (pos 0, (not (pos 3 ==ℤ sock) && w.0, w.1));
  poll = λ fds timeout w. (pos (length fds), map (λ p. 1) fds, w);
  usleep = λ n w. w;
  errno = λ w. 11;
  eintr = 4;
  sem_init = λ n w. (pos 0, w);
  sem_wait = λ w. (pos 0, w);
  sem_post = λ w. (pos 0, w);
  sem_destroy = λ w. (pos 0, w);
  pthread_create = λ w. (pos 0, 1, w);
  ended = read_flag;
}

abbrev books : Books Desk
books = record { held = λ fd w. (fd ==ℤ pos 3) && w.0; stray = λ fd w. false }

wears_off : (o : Bool) (n : ℕ) → ((read_flag (o, n)).0 ≡ true) ⊎ ((read_flag (o, n)).1.1 < n)
wears_off o zero = inl refl
wears_off o (suc n) = inr (omega arith)

never_more : (o : Bool) (n : ℕ) → (read_flag (o, n)).1.1 ≤ n
never_more o zero = omega arith
never_more o (suc n) = omega arith

same_desk : (o : Bool) (n : ℕ) → (read_flag (o, n)).1.0 ≡ o
same_desk o zero = refl
same_desk o (suc n) = refl

socket-reads : (o : Bool) (n : ℕ) → (desk.socket (o, n)).1.1 ≡ n
socket-reads true n = refl
socket-reads false n = refl

desk-Clock : Clock desk 1 (λ w. w.1)
unfolding Semaphore.wait
desk-Clock = record {
  through = λ n. record {
    rounds = record {
      at_poll = λ fds timeout w p. p;
      at_recvfrom = λ sock room w p. p;
      at_sendto = λ sock bytes addr w p. p;
      at_usleep = λ n w p. p;
      at_ended = λ w p. omega (arith, p, never_more w.0 w.1);
    };
    at_socket = λ w p. omega (arith, p, socket-reads w.0 w.1);
    at_reuse = λ sock value w p. p;
    at_bind = λ sock port w p. p;
    at_close = λ sock w p. p;
  };
  ends = λ w. wears_off w.0 w.1;
  waits = λ w. (true, w, refl, omega arith);
}

-- The laws of the books at a socket call, by whether the descriptor is taken.
no_socket :
    (o : Bool) (n : ℕ) (fd : ℤ)
    → is_negative (desk.socket (o, n)).0 ≡ true
    → books.held fd (desk.socket (o, n)).1 ≡ books.held fd (o, n)
no_socket true n fd e = refl
no_socket false n fd e = cc

was_free :
    (o : Bool) (n : ℕ)
    → is_negative (desk.socket (o, n)).0 ≡ false
    → books.held (desk.socket (o, n)).0 (o, n) ≡ false
was_free true n e = cc
was_free false n e = refl

taken :
    (o : Bool) (n : ℕ) (fd : ℤ)
    → is_negative (desk.socket (o, n)).0 ≡ false
    → books.held fd (desk.socket (o, n)).1
      ≡ ((fd ==ℤ (desk.socket (o, n)).0) || books.held fd (o, n))
taken true n fd e = cc
taken false n fd e = by_fd (fd ==ℤ pos 3)
  where
    by_fd : (x : Bool) → (x && true) ≡ (x || (x && false))
    by_fd true = refl
    by_fd false = refl

closed :
    (sock fd : ℤ) (o : Bool)
    → ((fd ==ℤ pos 3) && (not (pos 3 ==ℤ sock) && o)) ≡ (not (fd ==ℤ sock) && ((fd ==ℤ pos 3) && o))
closed sock fd o = elim (Bool-cases (fd ==ℤ pos 3)) [
  | inl e ↦ rw e (rw ((==ℤ_iff fd (pos 3)).0 e) refl)
  | inr e ↦ rw e (sym (nothing (not (fd ==ℤ sock))))
]
  where
    nothing : (x : Bool) → (x && false) ≡ false
    nothing true = refl
    nothing false = refl

desk-Ledger : Ledger desk books
desk-Ledger = record {
  on_sockets = record {
    at_no_socket = λ w e fd. (no_socket w.0 w.1 fd e, refl);
    fresh = λ w e. was_free w.0 w.1 e;
    at_socket = λ w e fd. (taken w.0 w.1 fd e, refl);
    at_reuse = λ sock value w fd. (refl, sym (kept (fd ==ℤ sock) false));
    at_bind = λ sock port w fd. (refl, sym (kept (fd ==ℤ sock) false));
    at_recvfrom = λ sock room w fd. (refl, refl);
    at_sendto = λ sock bytes addr w fd. (refl, refl);
  };
  at_close = λ sock w fd. (closed sock fd w.0, refl);
  at_poll = λ fds timeout w fd. (refl, refl);
  at_usleep = λ n w fd. (refl, refl);
  at_ended = λ w fd. (rw (same_desk w.0 w.1) refl, refl);
  at_sem_init = λ n w fd. (refl, refl);
  at_sem_wait = λ w fd. (refl, refl);
  at_sem_post = λ w fd. (refl, refl);
  at_sem_destroy = λ w fd. (refl, refl);
}

abbrev start : Desk
start = (false, 3)

nothing_open : (fd : ℤ) → books.held fd start ≡ books.stray fd start
nothing_open fd = by_fd (fd ==ℤ pos 3)
  where
    by_fd : (x : Bool) → (x && false) ≡ false
    by_fd true = refl
    by_fd false = refl

main-ends_example :
    (w' : Desk) × (main (linux little desk linux_bits 1 0 (replicate max_data_size 0)) 6 start
      ≡ some (pos 0, w'))
    × ((fd : ℤ) → books.held fd w' ≡ books.stray fd w')
unfolding Semaphore.initialize
main-ends_example =
    main-ends little desk linux_bits 1 0 (replicate max_data_size 0) books (λ w. w.1) 6 start
      desk-Clock desk-Ledger (length-replicate {A = ℕ} max_data_size 0) (omega arith) nothing_open

-- The same on Windows.
abbrev win_desk : Win Desk Sockets
win_desk = record {
  closesocket = desk.close;
  sleep = desk.usleep;
  select = λ n s sec usec w. (pos 1, s, w);
  errno = λ w. 0;
  eintr = 10004;
  create_semaphore = λ n maximum w. (true, w);
  wait_for_single_object = λ w. (0, w);
  wait_failed = 4294967295;
  wait_abandoned = 128;
  release_semaphore = λ w. (true, w);
  close_handle = λ w. (true, w);
  begin_thread = λ w. (1, w);
  ended = read_flag;
  fd_zero = winsock.fd_zero;
  fd_set = winsock.fd_set;
  fd_clr = winsock.fd_clr;
  fd_isset = winsock.fd_isset;
  isset-zero = winsock.isset-zero;
  isset-set = winsock.isset-set;
  isset-clr = winsock.isset-clr;
}

win_desk-Clock : Windows.Responser.Patience.Clock desk.sockets win_desk (λ w. w.1)
win_desk-Clock = record {
  through = λ n. record {
    rounds = record {
      messages = record { at_recvfrom = λ sock room w p. p; at_sendto = λ sock bytes addr w p. p };
      at_select = λ k set sec usec w p. p;
      at_sleep = λ k w p. p;
      at_ended = λ w p. omega (arith, p, never_more w.0 w.1);
    };
    at_socket = λ w p. omega (arith, p, socket-reads w.0 w.1);
    at_reuse = λ sock value w p. p;
    at_bind = λ sock port w p. p;
    at_close = λ sock w p. p;
  };
  ends = λ w. wears_off w.0 w.1;
  at_wait = λ w. omega arith;
}

win_desk-Ledger : Windows.Responser.Closes.Ledger desk.sockets win_desk books
win_desk-Ledger = record {
  on_sockets = desk-Ledger.on_sockets;
  at_close = desk-Ledger.at_close;
  at_select = λ n set sec usec w fd. (refl, refl);
  at_sleep = desk-Ledger.at_usleep;
  at_ended = desk-Ledger.at_ended;
  at_create = λ n maximum w fd. (refl, refl);
  at_wait = λ w fd. (refl, refl);
  at_release = λ w fd. (refl, refl);
  at_close_handle = λ w fd. (refl, refl);
}

abbrev wsa : Wsa Desk
wsa = record { startup = λ version w. (pos 0, version, w); cleanup = λ w. w }

main-ends_on_windows_example :
    (w' : Desk) × (main
        (windows little desk.sockets win_desk wsa 0 (replicate max_data_size 0))
        6
        start
      ≡ some (pos 0, w'))
    × ((fd : ℤ) → books.held fd w' ≡ books.stray fd w')
unfolding Windows.Semaphore.initialize start_winsock
main-ends_on_windows_example =
    main-ends_on_windows little desk.sockets win_desk wsa 0 (replicate max_data_size 0) books
      (λ w. w.1) 6 start start win_desk-Clock win_desk-Ledger
      (length-replicate {A = ℕ} max_data_size 0) refl (omega arith) nothing_open
