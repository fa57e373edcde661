-- ===== src/Windows/Net.antt =====
-- cihb::CNetworkThread, the Windows branch: the sets of select, and the rounds of select and dispatch.
pub mod Sets
pub mod Keeps
pub mod Order
pub mod Maximum
pub mod Erased
pub mod Rounds
use libcastis_heartbeat.Prelude.{
  ℕ, zero, suc, ◌+◌, ◌-◌, ◌*◌, ◌/◌, ◌%◌, ℤ, pos, negsuc, ◌==ℤ◌, ltb_ℤ, pred_ℤ, is_positive,
  is_negative, ◌==◌, Bool, true, false, not, ◌&&◌, if◌then◌else◌, List, [], ◌∷◌, Option, none, some,
}
use libcastis_heartbeat.Prelude.Machine.{M, pure, ◌>>=◌, ◌>>◌, gets, modify, when}
use libcastis_heartbeat.Poll.{invalid_socket}
use libcastis_heartbeat.Thread.{Thread, Access, read_exit, new_thread}
use libcastis_heartbeat.Net.{to_unsigned_long}
use libcastis_heartbeat.Net.ReadSockets.{insert, erase}
use libcastis_heartbeat.Windows.Calls.{Win}
pub use Sets.{NetworkThread, succ_ℤ, quot_1000, rem_1000_times_1000}
unfoldable pub use Sets.{
  next_after, first, contains, new_network_thread, fd_set_add, fd_set_delete, add_read_socket,
  delete_read_socket, nu_disconnect, disconnect_all, delete_network_thread, msleep, cleared,
}

-- The whole object `S` around the network thread, and what a derived class overrides.
pub record NetVirtuals (S World FdSet : Type 0) : Type 0 where
  pub net : S → NetworkThread FdSet
  pub set_net : NetworkThread FdSet → S → S
  pub world : S → World
  pub set_world : World → S → S
  pub receive_int_message : ℤ → M S (Option ℕ)
  pub on_message : ℤ → ℕ → M S Bool
  pub on_read_socket_error : ℤ → M S Bool

module _ {S World FdSet : Type 0} (win : Win World FdSet) (v : NetVirtuals S World FdSet) where
  abbrev pub update_net : (NetworkThread FdSet → NetworkThread FdSet) → M S (Unit {0})
  update_net f = modify λ s. v.set_net (f (v.net s)) s

  abbrev pub thread_access : Access S
  thread_access = record {
    thread = λ s. (v.net s).base;
    set_thread = λ t s. v.set_net (record (v.net s) { base = t }) s;
    others = λ s. some ((win.ended (v.world s)).0, v.set_world (win.ended (v.world s)).1 s);
  }

  abbrev pub system_ : (World → World) → M S (Unit {0})
  system_ f s = some (tt, v.set_world (f (v.world s)) s)

  unfoldable pub exit_instance : M S Bool
  exit_instance = do
    sockets ← gets (λ s. (v.net s).read_sockets)
    system_ (disconnect_all win sockets)
    update_net (cleared win)
    pure true

  unfoldable pub disable_socket : ℤ → M S Bool
  disable_socket sockfd = if sockfd ==ℤ invalid_socket then pure false else (do
    update_net (λ t. (fd_set_delete win sockfd t).1)
    system_ (λ w. (nu_disconnect win sockfd w).1)
    pure true)

  -- OnReadSocketError as CNetworkThread has it.
  unfoldable pub on_read_socket_error : ℤ → M S Bool
  on_read_socket_error sockfd = if sockfd ==ℤ invalid_socket then pure false else (do
    _ ← disable_socket sockfd
    update_net (λ t. (delete_read_socket win sockfd t).1)
    pure true)

  -- select(m_iMaximumSocket+1, &m_fdSetRead, NULL, NULL, &timeout), on the copy of m_fdSetAllRead.
  unfoldable pub select_read : M S ℤ
  select_read = do
    update_net (λ t. record t { fd_set_read = t.fd_set_all_read })
    t ← gets v.net
    w ← gets v.world
    let r =
        win.select (succ_ℤ t.maximum_socket) t.fd_set_read (quot_1000 t.timeout_millisec)
          (rem_1000_times_1000 t.timeout_millisec) w
    system_ (λ _. r.2)
    update_net (λ t. record t { fd_set_read = r.1 })
    pure r.0

  -- WaitNetworkEvent(&m_iEventsCount)
  unfoldable pub wait_network_event : M S Bool
  wait_network_event = do
    count ← select_read
    w ← gets v.world
    t ← gets v.net
    if is_negative count
        then (if win.errno w == win.eintr
            then (do update_net (λ t. record t { events_count = pos 0 }); pure false)
            else (do
              system_ (msleep win t.timeout_millisec)
              update_net (λ t. record t { events_count = count })
              pure true))
        else (do update_net (λ t. record t { events_count = count }); pure true)

  -- `*i`: the iterator must still stand at an element.
  unfoldable pub deref : ℤ → M S ℤ
  deref sockfd s = if contains sockfd (v.net s).read_sockets then some (sockfd, s) else none

  unfoldable pub dispatch_message : ℤ → Option ℕ → M S (Unit {0})
  dispatch_message i none = do sockfd ← deref i; _ ← v.on_read_socket_error sockfd; pure tt
  dispatch_message i (some m) = do
    sockfd ← deref i
    handled ← v.on_message sockfd m
    when (not handled) (deref i >>= λ sockfd₁. v.on_read_socket_error sockfd₁ >>= λ _. pure tt)

  unfoldable pub serve_socket : ℤ → M S (Unit {0})
  serve_socket sockfd = do message ← v.receive_int_message sockfd; dispatch_message sockfd message

  -- `--m_iEventsCount <= 0`
  unfoldable pub count_event : M S Bool
  count_event = do
    update_net (λ t. record t { events_count = pred_ℤ t.events_count })
    gets (λ s. not (is_positive (v.net s).events_count))

  -- `++i`: the iterator must still stand at an element.
  unfoldable pub advance : ℤ → M S (Option ℤ)
  advance sockfd s =
      if contains sockfd (v.net s).read_sockets
      then some (next_after sockfd (v.net s).read_sockets, s)
      else none

  -- FD_ISSET(*i, &m_fdSetRead)
  unfoldable pub is_ready : ℤ → M S Bool
  is_ready sockfd =
      gets λ s. not (sockfd ==ℤ invalid_socket) && win.fd_isset sockfd (v.net s).fd_set_read

  -- The loop of ProcessReadEvent, with fuel, at the iterator's element or at the end.
  unfoldable pub process_from : ℕ → Option ℤ → M S (Unit {0})
  process_from fuel none s = some (tt, s)
  process_from zero (some sockfd) s = none
  process_from (suc fuel) (some sockfd) s =
      let next = advance sockfd >>= process_from fuel in
      let served = (do serve_socket sockfd; last ← count_event; if last then pure tt else next) in
      (is_ready sockfd >>= λ ready. if not ready then next else served) s

  unfoldable pub process_read_event : ℕ → M S Bool
  process_read_event fuel = do
    start ← gets (λ s. first (v.net s).read_sockets)
    process_from fuel start
    pure true

  unfoldable pub run : ℕ → M S Bool
  run fuel = do
    ending ← read_exit thread_access
    when (not ending) (do
      waited ← wait_network_event
      when waited (do
        ending₁ ← read_exit thread_access
        count ← gets (λ s. (v.net s).events_count)
        when (not ending₁ && is_positive count) (process_read_event fuel >>= λ _. pure tt)))
    pure true
