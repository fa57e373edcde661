-- ===== src/Session/Clear.antt =====
-- HeartBeatSession after clear.
use libcastis_heartbeat.Prelude.{ℕ, ◌≡◌, refl, ℤ, pos, ◌==ℤ◌, not, false, List, Option, none, some}
use libcastis_heartbeat.Prelude.Machine.{M, when, ◌>>=◌, Post, returns, fails, Post->>=, Post-some}
use libcastis_heartbeat.Wire.{Host}
use libcastis_heartbeat.Session.Boost.{Asio}
use libcastis_heartbeat.Session.{App, need_socket, start, clear, do_read_request, do_write_response}

anything : {S A : Type 0} (o : Option (A × S)) → Post (Unit {0}) (λ _ _. Unit {0}) o
anything none = fails tt
anything (some x) = returns tt

module _ {World Endpoint Streambuf : Type 0} (host : Host) (asio : Asio World Endpoint Streambuf)
    (on_error : ℤ → List ℕ → M (App World Endpoint) (Unit {0})) where
  clear-socket :
      (s : App World Endpoint)
      → Post (Unit {0}) (λ _ s'. s'.socket ≡ false) (clear host asio on_error s)
  unfolding clear
  clear-socket s =
      Post->>= {P = λ _ _. Unit {0}}
        (when s.socket (do
          ec ← (λ s. some ((asio.close s.world).0, record s { world = (asio.close s.world).1 }))
          when (not (ec ==ℤ pos 0)) (on_error ec (asio.message ec))))
        _ s (anything _) λ _ s₁ _. returns {a = tt} refl

  -- Once clear has returned, whatever close answered and handle_error did, the session is without its
  -- socket: a second clear changes nothing, and starting the session, starting a receive and sending a
  -- response each fault on the null pointer.
  pub clear-ends :
      (s s' : App World Endpoint)
      → clear host asio on_error s ≡ some (tt, s')
      → (s'.socket ≡ false)
        × (clear host asio on_error s' ≡ some (tt, s'))
        × (start host asio on_error s' ≡ none)
        × (do_read_request host asio on_error s' ≡ none)
        × ((seq_num : ℕ) → do_write_response host asio on_error seq_num s' ≡ none)
  unfolding clear start do_read_request do_write_response need_socket
  clear-ends s s' e = (gone, again, rw gone, rw gone, λ seq_num. rw gone)
    where
      gone : s'.socket ≡ false
      gone = Post-some (rw e at (clear-socket s))

      again : clear host asio on_error s' ≡ some (tt, s')
      again = rw gone
