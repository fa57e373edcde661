-- ===== src/Examples/Systems.antt =====
-- A concrete system for the legacy responder, and a concrete Boost.Asio for the session.
use libcastis_heartbeat.Prelude.{
  ℕ, zero, suc, ◌≤◌, refl, ℤ, pos, Bool, true, false, List, [], ◌∷◌, ◌++◌, length, map, take, drop,
  length-take, some, arith,
}
use libcastis_heartbeat.Os.{Os, Sockets, Received, failed, received, size_of}
use libcastis_heartbeat.Session.Boost.{Asio}

-- The datagrams that wait, those that were sent, the sockets that were closed, and the reads of the
-- exit flag before another thread sets it.
pub record Kernel : Type 0 where
  pub inbox : List (List ℕ × ℕ)
  pub outbox : List (ℤ × List ℕ × ℕ)
  pub closed : List ℤ
  pub reads : ℕ

abbrev pub receive : ℕ → Kernel → Received ℕ × Kernel
receive room w = elim w.inbox [
  | [] ↦ (failed, w)
  | datagram ∷ rest ↦ (received (take room datagram.0) datagram.1, record w { inbox = rest })
]

pub receive-le : (room : ℕ) (w : Kernel) → size_of (receive room w).0 ≤ room
receive-le room w = by_inbox w.inbox
  where
    by_inbox :
        (inbox : List (List ℕ × ℕ))
        → size_of
            (receive room
              (record { inbox = inbox; outbox = w.outbox; closed = w.closed; reads = w.reads })).0
          ≤ room
    by_inbox [] = omega arith
    by_inbox (datagram ∷ rest) = omega (arith, length-take room datagram.0)

abbrev pub read_flag : Kernel → Bool × Kernel
read_flag w = elim w.reads [ zero ↦ (true, w) | suc n ↦ (false, record w { reads = n }) ]

abbrev pub sockets : Sockets Kernel ℕ
sockets = record {
  socket = λ w. (pos 3, w);
  set_reuse_addr = λ sock value w. (pos 0, w);
  set_keep_alive = λ sock value w. (pos 0, w);
  bind = λ sock port w. (pos 0, w);
  recvfrom = λ sock room w. receive room w;
  sendto = λ sock bytes addr w.
      (pos (length bytes), record w { outbox = (sock, bytes, addr) ∷ w.outbox });
  recvfrom-le = λ sock room w. receive-le room w;
}

abbrev pub kernel : Os Kernel ℕ
kernel = record {
  sockets = sockets;
  close = λ sock w. (pos 0, record w { closed = sock ∷ w.closed });
  poll = λ fds timeout w. (pos (length fds), map (λ p. 1) fds, w);
  usleep = λ n w. w;
  errno = λ w. 11;
  eintr = 4;
  sem_init = λ n w. (pos 0, w);
  sem_wait = λ w. (pos 0, w);
  sem_post = λ w. (pos 0, w);
  sem_destroy = λ w. (pos 0, w);
  pthread_create = λ w. (pos 0, 1, w);
  ended = read_flag;
}

-- The stream buffer as the bytes that can be read and those that were received.
pub record Buffer : Type 0 where
  pub readable : List ℕ
  pub arrived : List ℕ

-- The datagrams that the session has sent, how many receives it has started, and what it has
-- reported.
pub record Udp : Type 0 where
  pub sent : List (List ℕ × ℕ)
  pub receives : ℕ
  pub reports : List (List ℕ)

abbrev pub udp : Asio Udp ℕ Buffer
udp = record {
  open_v4 = some;
  set_reuse_address = some;
  bind = λ port w. some w;
  close = λ w. (pos 0, w);
  async_receive_from = λ room w. record w { receives = suc w.receives };
  send_to =
      λ bytes endpoint w. (length bytes, pos 0, record w { sent = (bytes, endpoint) ∷ w.sent });
  message = λ code. [];
  address = λ endpoint. some (endpoint ∷ []);
  cerr = λ text w. record w { reports = text ∷ w.reports };
  new_streambuf = record { readable = []; arrived = [] };
  commit = λ n b. record { readable = b.readable ++ take n b.arrived; arrived = drop n b.arrived };
  sgetn = λ n b. (take n b.readable, record b { readable = drop n b.readable });
  sputn = λ b bytes. record b { readable = b.readable ++ bytes };
  contents = λ b. b.readable;
  prepared = λ b. b.arrived;
  contents-new = refl;
  contents-commit = λ n b. refl;
  sgetn-bytes = λ n b. refl;
  sgetn-rest = λ n b. refl;
  contents-sputn = λ b bytes. refl;
}
