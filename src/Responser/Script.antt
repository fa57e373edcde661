-- ===== src/Responser/Script.antt =====
-- What the system does in the rounds of the thread of the responder, until another thread calls EndThread.
use libcastis_heartbeat.Prelude.{
  ℕ, suc, ◌≡◌, ℤ, pos, negsuc, ◌==◌, true, false, List, [], ◌∷◌, All, bit_and,
}
use libcastis_heartbeat.Wire.{Host}
use libcastis_heartbeat.Wire.BigEndian.{IsByte}
use libcastis_heartbeat.Wire.Response.{Response}
use libcastis_heartbeat.Poll.Table.{new_pollfd}
use libcastis_heartbeat.Poll.{PollBits, read_bits}
use libcastis_heartbeat.Os.{Os, failed, received}
use libcastis_heartbeat.Net.{msleep}
use libcastis_heartbeat.Responser.Datagram.{request_of, answer}

module _ {World Addr : Type 0} (host : Host) (os : Os World Addr) (bits : PollBits) where
  -- The calls that poll the socket `fd` and answer what arrives, from a world to another, and the
  -- datagrams with their senders, until a read of the exit flag between two rounds finds that another
  -- thread has called EndThread. The number bounds the rounds.
  pub data Script (fd : ℤ) (timeout : ℤ) (respond : ℕ → Response)
      : ℕ → World → List (List ℕ × Addr) → World → Type 0 where
    ends :
        {n : ℕ} {w w' : World} → os.ended w ≡ (true, w') → Script fd timeout respond (suc n) w [] w'
    -- poll counts no event, or fails: interrupted by a signal, or otherwise, after which Run sleeps. Or it
    -- counts one, and recvfrom fails, or takes a datagram, which is answered if it is a request.
    quiet :
        {n : ℕ} {arrivals : List (List ℕ × Addr)} {w w₁ w₂ w₃ w₄ w' : World}
        → os.ended w ≡ (false, w₁)
        → os.ended w₁ ≡ (false, w₂)
        → os.poll (new_pollfd bits fd ∷ []) timeout w₂ ≡ (pos 0, 0 ∷ [], w₃)
        → os.ended w₃ ≡ (false, w₄)
        → Script fd timeout respond n w₄ arrivals w'
        → Script fd timeout respond (suc n) w arrivals w'
    interrupted :
        {n : ℕ} {arrivals : List (List ℕ × Addr)} {w w₁ w₂ w₃ w' : World}
        → os.ended w ≡ (false, w₁)
        → os.ended w₁ ≡ (false, w₂)
        → os.poll (new_pollfd bits fd ∷ []) timeout w₂ ≡ (negsuc 0, 0 ∷ [], w₃)
        → os.errno w₃ ≡ os.eintr
        → Script fd timeout respond n w₃ arrivals w'
        → Script fd timeout respond (suc n) w arrivals w'
    failed_poll :
        {n : ℕ} {arrivals : List (List ℕ × Addr)} {w w₁ w₂ w₃ w₄ w' : World}
        → os.ended w ≡ (false, w₁)
        → os.ended w₁ ≡ (false, w₂)
        → os.poll (new_pollfd bits fd ∷ []) timeout w₂ ≡ (negsuc 0, 0 ∷ [], w₃)
        → (os.errno w₃ == os.eintr) ≡ false
        → os.ended (msleep os timeout w₃) ≡ (false, w₄)
        → Script fd timeout respond n w₄ arrivals w'
        → Script fd timeout respond (suc n) w arrivals w'
    lost :
        {n : ℕ} {arrivals : List (List ℕ × Addr)} {w w₁ w₂ w₃ w₄ w₅ w' : World} {revents : ℕ}
        → os.ended w ≡ (false, w₁)
        → os.ended w₁ ≡ (false, w₂)
        → os.poll (new_pollfd bits fd ∷ []) timeout w₂ ≡ (pos 1, revents ∷ [], w₃)
        → (bit_and revents (read_bits bits) == 0) ≡ false
        → os.ended w₃ ≡ (false, w₄)
        → os.recvfrom fd 8 w₄ ≡ (failed, w₅)
        → Script fd timeout respond n w₅ arrivals w'
        → Script fd timeout respond (suc n) w arrivals w'
    arrives :
        {n : ℕ} {arrivals : List (List ℕ × Addr)} {w w₁ w₂ w₃ w₄ w₅ w' : World} {revents : ℕ}
        {bytes : List ℕ} {addr : Addr}
        → os.ended w ≡ (false, w₁)
        → os.ended w₁ ≡ (false, w₂)
        → os.poll (new_pollfd bits fd ∷ []) timeout w₂ ≡ (pos 1, revents ∷ [], w₃)
        → (bit_and revents (read_bits bits) == 0) ≡ false
        → os.ended w₃ ≡ (false, w₄)
        → os.recvfrom fd 8 w₄ ≡ (received bytes addr, w₅)
        → All IsByte bytes
        → Script fd timeout respond n
            (answer os.sockets fd (request_of bytes) addr respond w₅)
            arrivals
            w'
        → Script fd timeout respond (suc n) w ((bytes, addr) ∷ arrivals) w'
