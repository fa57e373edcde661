-- ===== src/Session.antt =====
-- HeartBeatSession (asio_base/HeartBeatSession.h and .cpp): the heartbeat responder over Boost.Asio.
pub mod Boost
pub mod Write
pub mod Read
pub mod Same
pub mod Clear
use Prim.Native.Char.{code}
use Prim.Native.String
use Prim.Native.String.{String}
use libcastis_heartbeat.Prelude.{
  ℕ, ◌%◌, ◌^◌, ℤ, pos, negsuc, ◌==ℤ◌, ◌==◌, leb, to_int32, Bool, true, false, not, ◌||◌,
  if◌then◌else◌, List, [], ◌∷◌, ◌++◌, length, drop, Option, none, some,
}
use libcastis_heartbeat.Prelude.Machine.{M, pure, lift, ◌>>=◌, ◌>>◌, gets, modify, when}
use libcastis_heartbeat.Defs.{
  ProcessState, alive, sw_error, hw_error, heartbeat_request, heartbeat_response, message_code,
  state_code,
}
use libcastis_heartbeat.Wire.{Host}
use Boost.{Asio}

-- The members of HeartBeatSession; `socket` says whether socket_ holds one.
pub record Session (Endpoint : Type 0) : Type 0 where
  pub socket : Bool
  pub representative_ip : List ℕ
  pub local_ip : List ℕ
  pub hb_port : ℕ
  pub process_state : ProcessState
  pub sender_endpoint : Endpoint

pub record App (World Endpoint : Type 0) : Type 0 where
  pub session : Session Endpoint
  pub open session use *
  pub world : World

-- The constructor; the default endpoint is Boost's.
unfoldable pub new_session : {Endpoint : Type 0} → List ℕ → List ℕ → ℕ → Endpoint → Session Endpoint
new_session representative_ip local_ip hb_port endpoint = record {
  socket = true;
  representative_ip = representative_ip;
  local_ip = local_ip;
  hb_port = hb_port;
  process_state = alive;
  sender_endpoint = endpoint;
}

-- The bytes of a literal.
abbrev pub bytes_of : String → List ℕ
bytes_of String.[] = []
bytes_of (String.◌∷◌ c s) = code c ∷ bytes_of s

module _ {Endpoint : Type 0} where
  unfoldable pub get_process_state : Session Endpoint → ProcessState
  get_process_state s = s.process_state

  unfoldable pub set_process_state : ProcessState → Session Endpoint → Session Endpoint
  set_process_state st s = record s { process_state = st }

  unfoldable pub set_process_hw_error : Session Endpoint → Session Endpoint
  unfolding set_process_state
  set_process_hw_error = set_process_state hw_error

  unfoldable pub set_process_sw_error : Session Endpoint → Session Endpoint
  unfolding set_process_state
  set_process_sw_error = set_process_state sw_error

  unfoldable pub set_process_alive : Session Endpoint → Session Endpoint
  unfolding set_process_state
  set_process_alive = set_process_state alive

module _ {World Endpoint Streambuf : Type 0} (host : Host)
    (asio : Asio World Endpoint Streambuf) where
  abbrev pub update_world : (World → World) → M (App World Endpoint) (Unit {0})
  update_world f = modify λ s. record s { world = f s.world }

  -- An operation that may throw.
  abbrev pub throwing : (World → Option World) → M (App World Endpoint) (Unit {0})
  throwing f s = elim (f s.world) [ none ↦ none | some w ↦ some (tt, record s { world = w }) ]

  -- socket_->, a fault if there is no socket.
  unfoldable pub need_socket : M (App World Endpoint) (Unit {0})
  need_socket s = if s.socket then some (tt, s) else none

  unfoldable pub remote_address : Session Endpoint → List ℕ
  remote_address s = elim (asio.address s.sender_endpoint) [ none ↦ [] | some text ↦ text ]

  -- The destructor; the socket goes with the last pointer to it.
  unfoldable pub delete_session : App World Endpoint → World
  delete_session s = if s.socket then (asio.close s.world).1 else s.world

  -- handle_error, as the class itself has it; `show` prints the code.
  unfoldable pub handle_error : (ℤ → List ℕ) → ℤ → List ℕ → M (App World Endpoint) (Unit {0})
  handle_error show error_code error_str = update_world (
      asio.cerr (
        bytes_of "errorCode = "
        ++ (show error_code ++ (bytes_of ", errorStr = " ++ (error_str ++ bytes_of "\n")))))

module _ {World Endpoint Streambuf : Type 0} (host : Host) (asio : Asio World Endpoint Streambuf)
    (on_error : ℤ → List ℕ → M (App World Endpoint) (Unit {0})) where
  unfoldable pub do_read_request : M (App World Endpoint) (Unit {0})
  do_read_request = do need_socket host asio; update_world host asio (asio.async_receive_from 8)

  unfoldable pub start : M (App World Endpoint) (Unit {0})
  start = do
    need_socket host asio
    throwing host asio asio.open_v4
    throwing host asio asio.set_reuse_address
    port ← gets (λ s. s.hb_port)
    throwing host asio (asio.bind port)
    do_read_request

  unfoldable pub clear : M (App World Endpoint) (Unit {0})
  clear = do
    has ← gets (λ s. s.socket)
    when has (do
      ec ← (λ s. some ((asio.close s.world).0, record s { world = (asio.close s.world).1 }))
      when (not (ec ==ℤ pos 0)) (on_error ec (asio.message ec)))
    modify (λ s. record s { session = record (s.session) { socket = false } })

  -- What `os` is given: four bytes of an integer in network order.
  unfoldable pub write_int : ℕ → Streambuf → Streambuf
  write_int x b = asio.sputn b (host.store (host.htonl (x % 2 ^ 32)))

  -- The stream buffer of do_write_response, once everything is written.
  unfoldable pub response_buffer : Session Endpoint → ℕ → Streambuf
  response_buffer s seq_num =
      let b₁ = write_int (message_code heartbeat_response) asio.new_streambuf in
      let b₂ = write_int seq_num b₁ in
      let b₃ = write_int (length s.representative_ip) b₂ in
      let b₄ = asio.sputn b₃ s.representative_ip in
      let b₅ = write_int (state_code s.process_state) b₄ in
      let b₆ = write_int (length s.local_ip) b₅ in asio.sputn b₆ s.local_ip

  -- The end of do_write_response: the checks of what send_to answers.
  unfoldable pub check_sent : ℕ → ℕ → ℤ → M (App World Endpoint) (Unit {0})
  check_sent size n ec = do
    address ← gets (λ s. remote_address host asio s.session)
    if not (ec ==ℤ pos 0)
        then on_error ec (asio.message ec ++ (bytes_of " from " ++ address))
        else if not (size == n)
        then on_error (to_int32 n) (bytes_of "invalid send size from " ++ address)
        else pure tt

  unfoldable pub do_write_response : ℕ → M (App World Endpoint) (Unit {0})
  do_write_response seq_num s =
      let bytes = asio.contents (response_buffer s.session seq_num) in
      let (n, ec, w) = asio.send_to bytes s.sender_endpoint s.world in
      (need_socket host asio >>= λ _. check_sent (length bytes) n ec) (record s { world = w })

  -- std::istream::read of an `int` that was 0: whether the stream is good, and the bytes over the old.
  unfoldable pub read_int : Bool → Streambuf → ℕ × Bool × Streambuf
  read_int false b = (host.ntohl (host.load (host.store 0)), false, b)
  read_int true b =
      let (got, rest) = asio.sgetn 4 b in
      (host.ntohl (host.load (got ++ drop (length got) (host.store 0))), leb 4 (length got), rest)

  -- The two integers that handle_read_request reads.
  unfoldable pub read_request : Streambuf → ℕ × ℕ
  read_request b =
      let (msg, good, b₁) = read_int true b in
      let (seq_num, good₁, b₂) = read_int good b₁ in (msg, seq_num)

  unfoldable pub handle_read_request : Streambuf → ℤ → ℕ → M (App World Endpoint) (Unit {0})
  handle_read_request request err bytes_recvd = do
    address ← gets (λ s. remote_address host asio s.session)
    if not (err ==ℤ pos 0)
        then on_error err (asio.message err ++ (bytes_of " from " ++ address))
        else (let (msg, seq_num) = read_request (asio.commit bytes_recvd request) in
            (do
              if not (msg == message_code heartbeat_request)
                  then on_error (to_int32 msg) (bytes_of "invalid msg from " ++ address)
                  else do_write_response seq_num
              do_read_request))
