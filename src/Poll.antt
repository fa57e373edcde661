-- ===== src/Poll.antt =====
-- The poll table of cihb::CNetworkThread (legacy_compatible/legacy_support.cpp, the Linux branch):
-- m_PollFds, m_iPollFdCount and the four operations on them.
pub mod Table
pub mod Delete
pub mod Bag
pub mod Spec
use libcastis_heartbeat.Prelude.{
  ℕ, zero, suc, ◌+◌, ◌-◌, ℤ, negsuc, ◌==ℤ◌, ◌==◌, leb, if◌then◌else◌, Bool, true, false, List,
  get_or, set, replicate, bit_and, bit_or, bit_xor, Option, none, some,
}

-- struct pollfd; `events` and `revents` are 16-bit masks.
pub record Pollfd : Type 0 where
  pub fd : ℤ
  pub events : ℕ
  pub revents : ℕ

-- The system's bits.
pub record PollBits : Type 0 where
  pub pollin : ℕ
  pub pollrdnorm : ℕ
  pub pollrdband : ℕ
  pub pollpri : ℕ

pub record PollTable : Type 0 where
  pub poll_fds : List Pollfd
  pub poll_fd_count : ℕ

-- NU_INVALID_SOCKET
abbrev pub invalid_socket : ℤ
invalid_socket = negsuc 0

-- NETWORK_THREAD_FD_SETSIZE, which is m_iMaxFDSize.
unfoldable pub max_fd_size : ℕ
max_fd_size = 1024

-- POLLIN | POLLRDNORM | POLLRDBAND | POLLPRI
unfoldable pub read_bits : PollBits → ℕ
read_bits b = bit_or (bit_or (bit_or b.pollin b.pollrdnorm) b.pollrdband) b.pollpri

abbrev pub empty_pollfd : Pollfd
empty_pollfd = record { fd = invalid_socket; events = 0; revents = 0 }

-- The loops of the constructor and of ExitInstance.
unfoldable pub clear_table : PollTable
clear_table = record { poll_fds = replicate max_fd_size empty_pollfd; poll_fd_count = 0 }

unfoldable pub poll_fd_add : PollBits → ℤ → PollTable → Bool × PollTable
poll_fd_add bits sockfd t =
    if sockfd ==ℤ invalid_socket
    then (false, t)
    else if leb max_fd_size poll_fd_count
    then (false, t)
    else (
      true,
      record t {
        poll_fds =
            set poll_fds poll_fd_count
              (record { fd = sockfd; events = read_bits bits; revents = 0 });
        poll_fd_count = poll_fd_count + 1;
      },
    )
  where
    open t use {poll_fds, poll_fd_count}

-- The body of the loop in PollFDDelete at the entry `i` that holds the socket.
unfoldable pub remove_at : ℕ → PollTable → PollTable
remove_at i t =
    let last = poll_fd_count - 1 in
    let moved =
      if i == last then poll_fds else set poll_fds i (get_or poll_fds last empty_pollfd) in
    record t { poll_fds = set moved last empty_pollfd; poll_fd_count = last }
  where
    open t use {poll_fds, poll_fd_count}

-- The loop of PollFDDelete, with the rounds left and the index `i`.
unfoldable pub delete_from : ℕ → ℕ → ℤ → PollTable → Bool × PollTable
delete_from zero i sockfd t = (false, t)
delete_from (suc rounds) i sockfd t =
    let rest = delete_from rounds (i + 1) sockfd t in
    if (get_or t.poll_fds i empty_pollfd).fd ==ℤ sockfd then (true, remove_at i t) else rest

unfoldable pub poll_fd_delete : ℤ → PollTable → Bool × PollTable
poll_fd_delete sockfd t =
    if sockfd ==ℤ invalid_socket then (false, t) else delete_from t.poll_fd_count 0 sockfd t

-- The two operations on a `pollfd *`, which may be NULL.
unfoldable pub poll_fd_enable : PollBits → Option Pollfd → Bool × Option Pollfd
poll_fd_enable bits none = (false, none)
poll_fd_enable bits (some p) =
    if p.fd ==ℤ invalid_socket
    then (false, some p)
    else (true, some (record p { events = bit_or p.events (read_bits bits) }))

unfoldable pub poll_fd_disable : PollBits → Option Pollfd → Bool × Option Pollfd
poll_fd_disable bits none = (false, none)
poll_fd_disable bits (some p) =
    if p.fd ==ℤ invalid_socket
    then (false, some p)
    else (true, some (record p { events = bit_and p.events (bit_xor (read_bits bits) 0xffff) }))
