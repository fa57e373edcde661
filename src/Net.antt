-- ===== src/Net.antt =====
-- cihb::CNetworkThread (legacy_compatible/legacy_support.h and .cpp, the Linux branch): the read
-- sockets, the poll table, and the rounds of poll and dispatch that Run makes.
pub mod ReadSockets
pub mod Parts
pub mod Keeps
pub mod Bounds
pub mod Invariant
pub mod InStep
use libcastis_heartbeat.Prelude.{
  ℕ, zero, suc, ◌+◌, ◌-◌, ◌*◌, ◌%◌, ◌^◌, ℤ, pos, negsuc, ◌==ℤ◌, ◌==◌, ltb, pred_ℤ, is_positive,
  is_negative, Bool, true, false, not, ◌&&◌, if◌then◌else◌, List, [], ◌∷◌, get_or, set, take,
  Option, none, some, bit_and,
}
use libcastis_heartbeat.Prelude.Machine.{M, pure, ◌>>=◌, ◌>>◌, gets, modify, when}
use libcastis_heartbeat.Poll.{
  Pollfd, PollBits, PollTable, invalid_socket, max_fd_size, read_bits, empty_pollfd, clear_table,
  poll_fd_delete,
}
use libcastis_heartbeat.Thread.{Thread, Access, read_exit, new_thread}
use libcastis_heartbeat.Os.{Os}
use ReadSockets.{insert, erase}

-- The members of CNetworkThread, its base class among them. `table` is m_PollFds with
-- m_iPollFdCount; m_ReadSockets is the sorted list of a std::set.
pub record NetworkThread : Type 0 where
  pub base : Thread
  pub read_sockets : List ℤ
  pub table : PollTable
  pub events_count : ℤ
  pub timeout_millisec : ℤ

-- The constructor.
unfoldable pub new_network_thread : ℤ → NetworkThread
new_network_thread timeout = record {
  base = new_thread;
  read_sockets = [];
  table = clear_table;
  events_count = pos 0;
  timeout_millisec = timeout;
}

unfoldable pub add_read_socket : ℤ → NetworkThread → Bool × NetworkThread
add_read_socket sockfd t =
    if sockfd ==ℤ invalid_socket
    then (false, t)
    else (true, record t { read_sockets = insert sockfd t.read_sockets })

unfoldable pub delete_read_socket : ℤ → NetworkThread → Bool × NetworkThread
delete_read_socket sockfd t =
    if sockfd ==ℤ invalid_socket
    then (false, t)
    else (true, record t { read_sockets = erase sockfd t.read_sockets })

-- The conversion of an `int` to `unsigned long`.
abbrev pub to_unsigned_long : ℤ → ℕ
to_unsigned_long (pos n) = n
to_unsigned_long (negsuc n) = 2 ^ 64 - 1 - n

-- poll writes the results over the first entries.
unfoldable pub set_revents : List ℕ → List Pollfd → List Pollfd
set_revents [] fds = fds
set_revents (r ∷ rs) [] = []
set_revents (r ∷ rs) (p ∷ fds) = record p { revents = r } ∷ set_revents rs fds

-- revents & ( POLLIN | POLLRDNORM | POLLRDBAND | POLLPRI )
unfoldable pub is_ready : PollBits → Pollfd → Bool
is_ready bits p = not (p.fd ==ℤ invalid_socket) && not (bit_and p.revents (read_bits bits) == 0)

-- ReceiveIntMessage and OnMessage as the class itself has them.
module _ {S : Type 0} where
  unfoldable pub receive_int_message : ℤ → M S (Option ℕ)
  receive_int_message sockfd = pure none

  unfoldable pub on_message : ℤ → ℕ → M S Bool
  on_message sockfd message = pure false

module _ {World Addr : Type 0} (os : Os World Addr) where
  -- nu_disconnect
  unfoldable pub nu_disconnect : ℤ → World → Bool × World
  nu_disconnect sockfd w = ((os.close sockfd w).0 ==ℤ pos 0, (os.close sockfd w).1)

  -- std::for_each(m_ReadSockets.begin(), m_ReadSockets.end(), &nu_disconnect)
  unfoldable pub disconnect_all : List ℤ → World → World
  disconnect_all [] w = w
  disconnect_all (sockfd ∷ rest) w = disconnect_all rest (nu_disconnect sockfd w).1

  -- The destructor.
  unfoldable pub delete_network_thread : NetworkThread → World → World
  delete_network_thread t = disconnect_all t.read_sockets

  -- castis::msleep; usleep takes 32 bits.
  unfoldable pub msleep : ℤ → World → World
  msleep millisec w = os.usleep (to_unsigned_long millisec * 1000 % 2 ^ 64 % 2 ^ 32) w

-- The whole object `S` around the network thread, and what a derived class overrides.
pub record NetVirtuals (S World : Type 0) : Type 0 where
  pub net : S → NetworkThread
  pub set_net : NetworkThread → S → S
  pub world : S → World
  pub set_world : World → S → S
  -- ReceiveIntMessage answers `some` with the message, or `none` for false.
  pub receive_int_message : ℤ → M S (Option ℕ)
  pub on_message : ℤ → ℕ → M S Bool
  pub on_read_socket_error : ℤ → M S Bool

module _ {S World Addr : Type 0} (os : Os World Addr) (bits : PollBits)
    (v : NetVirtuals S World) where
  abbrev pub update_net : (NetworkThread → NetworkThread) → M S (Unit {0})
  update_net f = modify λ s. v.set_net (f (v.net s)) s

  abbrev pub set_table : (PollTable → PollTable) → M S (Unit {0})
  set_table f = update_net λ t. record t { table = f t.table }

  -- The thread part of the object, for the reads of m_bExit.
  abbrev pub thread_access : Access S
  thread_access = record {
    thread = λ s. (v.net s).base;
    set_thread = λ t s. v.set_net (record (v.net s) { base = t }) s;
    others = λ s. some ((os.ended (v.world s)).0, v.set_world (os.ended (v.world s)).1 s);
  }

  -- A call of the system.
  abbrev pub system : {A : Type 0} → (World → A × World) → M S A
  system f s = some ((f (v.world s)).0, v.set_world (f (v.world s)).1 s)

  abbrev pub system_ : (World → World) → M S (Unit {0})
  system_ f s = some (tt, v.set_world (f (v.world s)) s)

  -- poll(m_PollFds.get(), m_iPollFdCount, m_iTimeoutMillisec)
  unfoldable pub poll_table : NetworkThread → M S (ℤ × List ℕ)
  poll_table t = system λ w.
      let (count, revents, w') =
        os.poll (take t.table.poll_fd_count t.table.poll_fds) t.timeout_millisec w in
      ((count, revents), w')

  unfoldable pub exit_instance : M S Bool
  exit_instance = do
    sockets ← gets (λ s. (v.net s).read_sockets)
    system_ (disconnect_all os sockets)
    update_net (λ t. record t { read_sockets = []; table = clear_table; events_count = pos 0 })
    pure true

  -- DisableSocket takes the socket from the poll table and closes it.
  unfoldable pub disable_socket : ℤ → M S Bool
  disable_socket sockfd = if sockfd ==ℤ invalid_socket then pure false else (do
    set_table (λ t. (poll_fd_delete sockfd t).1)
    _ ← system (nu_disconnect os sockfd)
    pure true)

  -- OnReadSocketError as CNetworkThread has it.
  unfoldable pub on_read_socket_error : ℤ → M S Bool
  on_read_socket_error sockfd = if sockfd ==ℤ invalid_socket then pure false else (do
    _ ← disable_socket sockfd
    update_net (λ t. (delete_read_socket sockfd t).1)
    pure true)

  -- WaitNetworkEvent(&m_iEventsCount)
  unfoldable pub wait_network_event : M S Bool
  wait_network_event = do
    t ← gets v.net
    (count, revents) ← poll_table t
    set_table (λ t. record t { poll_fds = set_revents revents t.poll_fds })
    w ← gets v.world
    if is_negative count
        then (if os.errno w == os.eintr
            then (do update_net (λ t. record t { events_count = pos 0 }); pure false)
            else (do
              system_ (msleep os t.timeout_millisec)
              update_net (λ t. record t { events_count = count })
              pure true))
        else (do update_net (λ t. record t { events_count = count }); pure true)

  -- m_PollFds[i].fd
  unfoldable pub fd_at : ℕ → M S ℤ
  fd_at i = gets λ s. (get_or (v.net s).table.poll_fds i empty_pollfd).fd

  -- What ProcessReadEvent does with the message of the entry `i`, or with none.
  unfoldable pub dispatch_message : ℕ → Option ℕ → M S (Unit {0})
  dispatch_message i none = do sockfd ← fd_at i; _ ← v.on_read_socket_error sockfd; pure tt
  dispatch_message i (some m) = do
    sockfd ← fd_at i
    handled ← v.on_message sockfd m
    sockfd₁ ← fd_at i
    when (not handled) (v.on_read_socket_error sockfd₁ >>= λ _. pure tt)

  unfoldable pub clear_revents : ℕ → PollTable → PollTable
  clear_revents i t = record t {
    poll_fds = set t.poll_fds i (record (get_or t.poll_fds i empty_pollfd) { revents = 0 });
  }

  -- What ProcessReadEvent does for a ready entry, up to the count of the events.
  unfoldable pub serve_entry : ℕ → M S (Unit {0})
  unfolding clear_revents
  serve_entry i = do
    set_table (clear_revents i)
    sockfd ← fd_at i
    message ← v.receive_int_message sockfd
    dispatch_message i message

  -- `--m_iEventsCount <= 0`
  unfoldable pub count_event : M S Bool
  count_event = do
    update_net (λ t. record t { events_count = pred_ℤ t.events_count })
    gets (λ s. not (is_positive (v.net s).events_count))

  -- The loop of ProcessReadEvent from the index `i`, with the entries of the array that are left; an
  -- index past the array is an access out of bounds.
  unfoldable pub process_from : ℕ → ℕ → M S (Unit {0})
  process_from zero i s = if ltb i (v.net s).table.poll_fd_count then none else some (tt, s)
  process_from (suc rounds) i s =
      let next = process_from rounds (i + 1) in
      let t = (v.net s).table in
      if ltb i t.poll_fd_count
      then (if is_ready bits (get_or t.poll_fds i empty_pollfd)
          then (serve_entry i >>= λ _. count_event >>= λ last. if last then pure tt else next) s
          else next s)
      else some (tt, s)

  unfoldable pub process_read_event : M S Bool
  process_read_event = do process_from max_fd_size 0; pure true

  unfoldable pub run : M S Bool
  run = do
    ending ← read_exit thread_access
    when (not ending) (do
      waited ← wait_network_event
      when waited (do
        ending₁ ← read_exit thread_access
        count ← gets (λ s. (v.net s).events_count)
        when (not ending₁ && is_positive count) (process_read_event >>= λ _. pure tt)))
    pure true
