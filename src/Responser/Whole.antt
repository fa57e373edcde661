-- ===== src/Responser/Whole.antt =====
-- The members of CCiHBResponser that its messages rest on, on both systems.
use libcastis_heartbeat.Prelude.{
  by_test, ℕ, ◌+◌, ◌%◌, ◌^◌, ◌<◌, ◌≤◌, ◌≡◌, refl, ◌∙◌, ◌++◌, drop, length-append, length-drop, ℤ,
  ◌==ℤ◌, ◌==◌, List, length, arith,
}
use libcastis_heartbeat.Prelude.Machine.{M, Post, returns, Post->>=}
use libcastis_heartbeat.Defs.{max_data_size, message_code, heartbeat_request, state_code}
use libcastis_heartbeat.Wire.{Host}
use libcastis_heartbeat.Poll.{invalid_socket}
use libcastis_heartbeat.Os.{Sockets, Received, failed, received, size_of}
use libcastis_heartbeat.Responser.{
  CiHbProg, recv_int, take_datagram, receive_int_message, send_heartbeat_response,
  on_heartbeat_request, on_message,
}
use libcastis_heartbeat.Responser.Message.{build_message, put_int}
use libcastis_heartbeat.Responser.Build.{build_message-encode}

-- The response fits an `int`, and m_szRecvBuf is whole.
abbrev pub IsWhole : {N World Addr : Type 0} → CiHbProg N World Addr → Type 0
IsWhole s =
    (20 + length s.representative_ip + length s.local_ip < 2 ^ 31)
    × (length s.recv_buf ≡ max_data_size)

-- A fact about the world that holds through recvfrom and sendto.
pub record ThroughMessages {World Addr : Type 0} (sockets : Sockets World Addr) (K : World → Type 0)
    : Type 0 where
  pub at_recvfrom : (sock : ℤ) (room : ℕ) (w : World) → K w → K (sockets.recvfrom sock room w).1
  pub at_sendto :
      (sock : ℤ) (bytes : List ℕ) (addr : Addr) (w : World)
      → K w
      → K (sockets.sendto sock bytes addr w).1

-- A datagram that has room leaves the buffer as long as it is.
overwritten :
    (bytes buf : List ℕ)
    → length bytes ≤ length buf
    → length (bytes ++ drop (length bytes) buf) ≡ length buf
overwritten bytes buf le =
    omega (arith, le, length-append bytes (drop (length bytes) buf), length-drop (length bytes) buf)

-- Of the sequence number only 32 bits are written.
build_message-mod :
    (host : Host) (st : ℕ) (rip lip : List ℕ) (seq : ℕ)
    → build_message host st rip lip seq ≡ build_message host st rip lip (seq % 2 ^ 32)
unfolding build_message put_int
build_message-mod host st rip lip seq = rw (mod_mod seq)
  where
    mod_mod : (x : ℕ) → x % 2 ^ 32 % 2 ^ 32 ≡ x % 2 ^ 32
    mod_mod x = omega arith

module _ {N World Addr : Type 0} (host : Host) (sockets : Sockets World Addr) (K : World → Type 0)
    (through : ThroughMessages sockets K) where
  -- The base class is left alone, and the messages as they were.
  abbrev Keeps : {A : Type 0} → M (CiHbProg N World Addr) A → Type 0
  Keeps m =
      (s : CiHbProg N World Addr)
      → IsWhole s
      → K s.world
      → Post ⊥ (λ _ s'. (s'.net ≡ s.net) × IsWhole s' × K s'.world) (m s)

  take_datagram-Keeps :
      (d : Received Addr) (s : CiHbProg N World Addr)
      → size_of d ≤ 8
      → IsWhole s
      → K s.world
      → Post ⊥ (λ _ s'. (s'.net ≡ s.net) × IsWhole s' × K s'.world) (take_datagram host sockets d s)
  unfolding take_datagram
  take_datagram-Keeps failed s le p k = returns (refl, p, k)
  take_datagram-Keeps (received bytes addr) s le p k =
      returns (refl, (p.0, overwritten bytes s.recv_buf (omega (arith, le, p.1)) ∙ p.1), k)

  pub receive-Keeps : (sockfd : ℤ) → Keeps (receive_int_message host sockets sockfd)
  unfolding receive_int_message
  receive-Keeps sockfd =
      by_test Keeps (sockfd ==ℤ invalid_socket) _ _ (λ s p k. returns (refl, p, k))
        λ s p k.
          Post->>= (take_datagram host sockets (sockets.recvfrom sockfd 8 s.world).0) _
            (record s { world = (sockets.recvfrom sockfd 8 s.world).1 })
            (take_datagram-Keeps (sockets.recvfrom sockfd 8 s.world).0 _
              (sockets.recvfrom-le sockfd 8 s.world) p (through.at_recvfrom sockfd 8 s.world k))
            λ n s₁ q. returns q

  send-Keeps : (sockfd : ℤ) (seq : ℕ) → Keeps (send_heartbeat_response host sockets sockfd seq)
  unfolding send_heartbeat_response
  send-Keeps sockfd seq s p k =
      rw
        (build_message-mod host (state_code s.process_state) s.representative_ip s.local_ip seq
          ∙ build_message-encode host s.process_state s.representative_ip s.local_ip (seq % 2 ^ 32)
              p.0 (omega arith))
        (returns (refl, p, through.at_sendto sockfd _ s.sa_recv s.world k))

  pub on_message-Keeps : (sockfd : ℤ) (m : ℕ) → Keeps (on_message host sockets sockfd m)
  unfolding on_message on_heartbeat_request
  on_message-Keeps sockfd m =
      by_test Keeps (sockfd ==ℤ invalid_socket) _ _ (λ s p k. returns (refl, p, k))
        (by_test Keeps (m == message_code heartbeat_request) _ _
          (λ s p k.
            Post->>= (send_heartbeat_response host sockets sockfd (recv_int host 4 s)) _ s
              (send-Keeps sockfd _ s p k) λ b s₁ q. returns q)
          (λ s p k. returns (refl, p, k)))
