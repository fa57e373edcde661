-- ===== src/Session/Boost.antt =====
-- What asio_base/HeartBeatSession.cpp uses of Boost.Asio, as a parameter: the socket's operations on a
-- `World`, and the stream buffer with the documented meaning of its operations.
use libcastis_heartbeat.Prelude.{ℕ, ℤ, ◌≡◌, List, [], ◌++◌, Option, take, drop}

pub record Asio (World Endpoint Streambuf : Type 0) : Type 0 where
  -- open(udp::v4()), set_option(reuse_address(true)), bind(endpoint(udp::v4(), port)): `none` is thrown
  pub open_v4 : World → Option World
  pub set_reuse_address : World → Option World
  pub bind : ℕ → World → Option World
  -- close(ec): the code, 0 for success
  pub close : World → ℤ × World
  -- async_receive_from for `room` bytes, with handle_read_request as the handler
  pub async_receive_from : ℕ → World → World
  -- send_to(bytes, endpoint, 0, ec): the number of bytes sent and the code
  pub send_to : List ℕ → Endpoint → World → ℕ × ℤ × World
  pub message : ℤ → List ℕ
  -- endpoint.address().to_string(), which may throw
  pub address : Endpoint → Option (List ℕ)
  -- the standard error stream
  pub cerr : List ℕ → World → World
  pub new_streambuf : Streambuf
  pub commit : ℕ → Streambuf → Streambuf
  pub sgetn : ℕ → Streambuf → List ℕ × Streambuf
  pub sputn : Streambuf → List ℕ → Streambuf
  -- the bytes that can be read, and those that a receive has put into the prepared area
  pub contents : Streambuf → List ℕ
  pub prepared : Streambuf → List ℕ
  pub contents-new : contents new_streambuf ≡ []
  pub contents-commit :
      (n : ℕ) (b : Streambuf) → contents (commit n b) ≡ contents b ++ take n (prepared b)
  pub sgetn-bytes : (n : ℕ) (b : Streambuf) → (sgetn n b).0 ≡ take n (contents b)
  pub sgetn-rest : (n : ℕ) (b : Streambuf) → contents (sgetn n b).1 ≡ drop n (contents b)
  pub contents-sputn :
      (b : Streambuf) (bytes : List ℕ) → contents (sputn b bytes) ≡ contents b ++ bytes
