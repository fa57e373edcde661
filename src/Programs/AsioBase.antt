-- ===== src/Programs/AsioBase.antt =====
-- examples/asio_base/asio_base.cpp: the session on an io_service.
pub mod Serves
use libcastis_heartbeat.Prelude.{ℕ, ℤ, pos, negsuc, List, [], ◌∷◌, Option, none, some}
use libcastis_heartbeat.Prelude.Machine.{M, pure, ◌>>=◌, ◌>>◌, modify}
use libcastis_heartbeat.Wire.{Host}
use libcastis_heartbeat.Session.Boost.{Asio}
use libcastis_heartbeat.Session.{
  App, new_session, bytes_of, start, handle_error, delete_session, handle_read_request,
}

-- A receive that is over: the buffer with what came, its sender, the error code and the size.
pub record Arrival (Endpoint Streambuf : Type 0) : Type 0 where
  pub request : Streambuf
  pub sender : Endpoint
  pub err : ℤ
  pub bytes_recvd : ℕ

module _ {World Endpoint Streambuf : Type 0} (host : Host) (asio : Asio World Endpoint Streambuf)
    (on_error : ℤ → List ℕ → M (App World Endpoint) (Unit {0})) where
  -- What io_service::run makes of a receive: Boost has stored the sender, and calls the handler.
  abbrev pub deliver : Arrival Endpoint Streambuf → M (App World Endpoint) (Unit {0})
  deliver a = do
    modify (λ s. record s { session = record (s.session) { sender_endpoint = a.sender } })
    handle_read_request host asio on_error a.request a.err a.bytes_recvd

  -- io_service::run over the receives that end, one after the other, up to the end of the last; with a
  -- receive that is still waiting it would not return.
  abbrev pub deliver_all : List (Arrival Endpoint Streambuf) → M (App World Endpoint) (Unit {0})
  deliver_all [] s = some (tt, s)
  deliver_all (a ∷ rest) s = (deliver a >>= λ _. deliver_all rest) s

module _ {World Endpoint Streambuf : Type 0} (host : Host) (asio : Asio World Endpoint Streambuf)
    (show : ℤ → List ℕ) where
  -- `main`: the exit code, and the world at the end unless an exception was caught. `io_run` stands for
  -- io_service::run; what `main` prints of an exception is left out.
  unfoldable pub main : M (App World Endpoint) (Unit {0}) → Endpoint → World → ℤ × Option World
  main io_run endpoint w =
      elim ((start host asio (handle_error host asio show) >>= λ _. io_run) (record {
        session = new_session (bytes_of "127.0.0.1") (bytes_of "127.0.0.1") 8090 endpoint;
        world = w;
      })) [ none ↦ (negsuc 0, none) | some (_, s) ↦ (pos 0, some (delete_session host asio s)) ]
