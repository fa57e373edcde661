-- ===== src/Windows/Net/Sets.antt =====
-- The sets of CNetworkThread on Windows: m_ReadSockets and the fd_set of select.
use libcastis_heartbeat.Prelude.{
  ◌^◌, zero, suc, ◌+◌, ◌-◌, ◌*◌, ◌/◌, ◌%◌, ℤ, pos, negsuc, ◌==ℤ◌, ltb_ℤ, pred_ℤ, ◌==◌, Bool, true,
  false, not, if◌then◌else◌, List, [], ◌∷◌, Option, none, some,
}
use libcastis_heartbeat.Poll.{invalid_socket}
use libcastis_heartbeat.Thread.{Thread, new_thread}
use libcastis_heartbeat.Net.{to_unsigned_long}
use libcastis_heartbeat.Net.ReadSockets.{insert, erase}
use libcastis_heartbeat.Windows.Calls.{Win}

-- The members of CNetworkThread. m_ReadSockets is the sorted list of a std::set.
pub record NetworkThread (FdSet : Type 0) : Type 0 where
  pub base : Thread
  pub read_sockets : List ℤ
  pub fd_set_all_read : FdSet
  pub fd_set_read : FdSet
  pub maximum_socket : ℤ
  pub events_count : ℤ
  pub timeout_millisec : ℤ

-- n + 1
abbrev pub succ_ℤ : ℤ → ℤ
succ_ℤ (pos n) = pos (n + 1)
succ_ℤ (negsuc zero) = pos 0
succ_ℤ (negsuc (suc n)) = negsuc n

-- The quotient and the remainder by 1000 of an `int`, which round towards zero.
abbrev pub quot_1000 : ℤ → ℤ
quot_1000 (pos n) = pos (n / 1000)
quot_1000 (negsuc n) = if (n + 1) / 1000 == 0 then pos 0 else negsuc ((n + 1) / 1000 - 1)

abbrev pub rem_1000_times_1000 : ℤ → ℤ
rem_1000_times_1000 (pos n) = pos (n % 1000 * 1000)
rem_1000_times_1000 (negsuc n) =
    if (n + 1) % 1000 == 0 then pos 0 else negsuc ((n + 1) % 1000 * 1000 - 1)

-- The first element after `k`: `++i` at an iterator that stands at `k`.
unfoldable pub next_after : ℤ → List ℤ → Option ℤ
next_after k [] = none
next_after k (x ∷ xs) = if ltb_ℤ k x then some x else next_after k xs

unfoldable pub first : List ℤ → Option ℤ
first [] = none
first (x ∷ xs) = some x

unfoldable pub contains : ℤ → List ℤ → Bool
contains k [] = false
contains k (x ∷ xs) = if k ==ℤ x then true else contains k xs

module _ {World FdSet : Type 0} (win : Win World FdSet) where
  unfoldable pub new_network_thread : ℤ → NetworkThread FdSet
  new_network_thread timeout = record {
    base = new_thread;
    read_sockets = [];
    fd_set_all_read = win.fd_zero;
    fd_set_read = win.fd_zero;
    maximum_socket = invalid_socket;
    events_count = pos 0;
    timeout_millisec = timeout;
  }

  unfoldable pub fd_set_add : ℤ → NetworkThread FdSet → Bool × NetworkThread FdSet
  fd_set_add sockfd t = if sockfd ==ℤ invalid_socket then (false, t) else (
    true,
    record t {
      fd_set_all_read = win.fd_set sockfd t.fd_set_all_read;
      maximum_socket = if ltb_ℤ t.maximum_socket sockfd then sockfd else t.maximum_socket;
    },
  )

  -- `m_iMaximumSocket <= sockfd`
  unfoldable pub fd_set_delete : ℤ → NetworkThread FdSet → Bool × NetworkThread FdSet
  fd_set_delete sockfd t = if sockfd ==ℤ invalid_socket then (false, t) else (
    true,
    record t {
      fd_set_all_read = win.fd_clr sockfd t.fd_set_all_read;
      maximum_socket =
          if not (ltb_ℤ sockfd t.maximum_socket) then pred_ℤ sockfd else t.maximum_socket;
    },
  )

  unfoldable pub add_read_socket : ℤ → NetworkThread FdSet → Bool × NetworkThread FdSet
  add_read_socket sockfd t =
      if sockfd ==ℤ invalid_socket
      then (false, t)
      else (true, record t { read_sockets = insert sockfd t.read_sockets })

  unfoldable pub delete_read_socket : ℤ → NetworkThread FdSet → Bool × NetworkThread FdSet
  delete_read_socket sockfd t =
      if sockfd ==ℤ invalid_socket
      then (false, t)
      else (true, record t { read_sockets = erase sockfd t.read_sockets })

  unfoldable pub nu_disconnect : ℤ → World → Bool × World
  nu_disconnect sockfd w = ((win.closesocket sockfd w).0 ==ℤ pos 0, (win.closesocket sockfd w).1)

  unfoldable pub disconnect_all : List ℤ → World → World
  disconnect_all [] w = w
  disconnect_all (sockfd ∷ rest) w = disconnect_all rest (nu_disconnect sockfd w).1

  -- The destructor.
  unfoldable pub delete_network_thread : NetworkThread FdSet → World → World
  delete_network_thread t = disconnect_all t.read_sockets

  unfoldable pub msleep : ℤ → World → World
  msleep millisec w = win.sleep (to_unsigned_long millisec % 2 ^ 32) w

  -- What ExitInstance leaves of the members.
  unfoldable pub cleared : NetworkThread FdSet → NetworkThread FdSet
  cleared t = record t {
    read_sockets = [];
    fd_set_all_read = win.fd_zero;
    fd_set_read = win.fd_zero;
    maximum_socket = invalid_socket;
    events_count = pos 0;
  }
