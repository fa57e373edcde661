-- ===== src/Os.antt =====
-- The system calls that legacy_compatible/ makes, as a parameter: the kernel and the network are a
-- `World` that each call changes.
use libcastis_heartbeat.Prelude.{ℕ, ℤ, Bool, List, ◌≤◌, length}
use libcastis_heartbeat.Poll.{Pollfd}

-- What recvfrom gives: a negative result, or the bytes that it wrote and the sender's address.
pub data Received (Addr : Type 0) : Type 0 where
  failed : Received Addr
  received : List ℕ → Addr → Received Addr

-- The number of bytes that recvfrom wrote.
abbrev pub size_of : {Addr : Type 0} → Received Addr → ℕ
size_of failed = 0
size_of (received bytes addr) = length bytes

-- The calls on datagram sockets, which have the same names on both systems.
pub record Sockets (World Addr : Type 0) : Type 0 where
  -- socket(AF_INET, SOCK_DGRAM, 0)
  pub socket : World → ℤ × World
  -- setsockopt(sock, SOL_SOCKET, SO_REUSEADDR, value), and SO_KEEPALIVE
  pub set_reuse_addr : ℤ → ℕ → World → ℤ × World
  pub set_keep_alive : ℤ → ℕ → World → ℤ × World
  -- bind to INADDR_ANY and a port in network order
  pub bind : ℤ → ℕ → World → ℤ × World
  pub recvfrom : ℤ → ℕ → World → Received Addr × World
  pub sendto : ℤ → List ℕ → Addr → World → ℤ × World
  -- recvfrom writes no more bytes than it was given room for
  pub recvfrom-le : (sockfd : ℤ) (room : ℕ) (w : World) → size_of (recvfrom sockfd room w).0 ≤ room

-- The calls on Linux.
pub record Os (World Addr : Type 0) : Type 0 where
  pub sockets : Sockets World Addr
  pub open sockets use *
  pub close : ℤ → World → ℤ × World
  -- poll reads the entries and gives a result and their `revents`
  pub poll : List Pollfd → ℤ → World → ℤ × List ℕ × World
  pub usleep : ℕ → World → World
  pub errno : World → ℕ
  pub eintr : ℕ
  -- the semaphore m_semExit
  pub sem_init : ℕ → World → ℤ × World
  pub sem_wait : World → ℤ × World
  pub sem_post : World → ℤ × World
  pub sem_destroy : World → ℤ × World
  -- pthread_create: its result and the handle that it writes
  pub pthread_create : World → ℤ × ℕ × World
  -- whether another thread has called EndThread since the exit flag was last read
  pub ended : World → Bool × World
