-- ===== src/Responser/Alone.antt =====
-- What the operations of CCiHBResponser that both systems share leave alone: its base class.
use libcastis_heartbeat.Prelude.{
  by_test, ℕ, ◌≡◌, refl, ◌∙◌, ℤ, ◌==ℤ◌, ◌==◌, true, Option, none, some,
}
use libcastis_heartbeat.Prelude.Machine.{M, lift, ◌>>=◌, Post, returns, fails, Post->>=, Post-mono}
use libcastis_heartbeat.Defs.{message_code, heartbeat_request, state_code}
use libcastis_heartbeat.Wire.{Host}
use libcastis_heartbeat.Poll.{invalid_socket}
use libcastis_heartbeat.Os.{Sockets, Received, failed, received}
use libcastis_heartbeat.Responser.Message.{build_message}
use libcastis_heartbeat.Responser.{
  CiHbProg, recv_int, nu_set_reuse_addr, nu_bind, take_datagram, receive_int_message, on_message,
  on_heartbeat_request, send_heartbeat_response,
}

module _ {N World Addr : Type 0} where
  abbrev pub LeavesNet : {A : Type 0} → M (CiHbProg N World Addr) A → Type 0
  LeavesNet m = (s : CiHbProg N World Addr) → Post (Unit {0}) (λ _ s'. s'.net ≡ s.net) (m s)

  module _ (host : Host) (sockets : Sockets World Addr) where
    LeavesNet-then :
        {A B : Type 0} (m : M (CiHbProg N World Addr) A) (f : A → M (CiHbProg N World Addr) B)
        (s : CiHbProg N World Addr)
        → LeavesNet m
        → ((a : A) → LeavesNet (f a))
        → Post (Unit {0}) (λ _ s'. s'.net ≡ s.net) ((m >>= f) s)
    LeavesNet-then m f s h k = Post->>= m f s (h s) λ a s₁ e. Post-mono (k a s₁) λ _ s₂ e₂. e₂ ∙ e

    take_datagram-LeavesNet : (d : Received Addr) → LeavesNet (take_datagram host sockets d)
    unfolding take_datagram
    take_datagram-LeavesNet failed s = returns refl
    take_datagram-LeavesNet (received bytes addr) s = returns refl

    pub receive-LeavesNet : (sockfd : ℤ) → LeavesNet (receive_int_message host sockets sockfd)
    unfolding receive_int_message
    receive-LeavesNet sockfd =
        by_test LeavesNet (sockfd ==ℤ invalid_socket) _ _ (λ s. returns refl)
          λ s.
            LeavesNet-then (take_datagram host sockets (sockets.recvfrom sockfd 8 s.world).0) _
              (record s { world = (sockets.recvfrom sockfd 8 s.world).1 })
              (take_datagram-LeavesNet (sockets.recvfrom sockfd 8 s.world).0) λ n s₁. returns refl

    lift-LeavesNet : {A : Type 0} (o : Option A) → LeavesNet (lift o)
    lift-LeavesNet none s = fails tt
    lift-LeavesNet (some a) s = returns refl

    send-LeavesNet :
        (sockfd : ℤ) (seq_num : ℕ) → LeavesNet (send_heartbeat_response host sockets sockfd seq_num)
    unfolding send_heartbeat_response
    send-LeavesNet sockfd seq_num s =
        LeavesNet-then
          (lift (
            build_message host (state_code s.process_state) s.representative_ip s.local_ip seq_num))
          _ s (lift-LeavesNet _) λ message s₁. returns refl

    pub on_message-LeavesNet : (sockfd : ℤ) (m : ℕ) → LeavesNet (on_message host sockets sockfd m)
    unfolding on_message on_heartbeat_request
    on_message-LeavesNet sockfd m =
        by_test LeavesNet (sockfd ==ℤ invalid_socket) _ _ (λ s. returns refl)
          (by_test LeavesNet (m == message_code heartbeat_request) _ _
            (λ s.
              LeavesNet-then (send_heartbeat_response host sockets sockfd (recv_int host 4 s)) _ s
                (send-LeavesNet sockfd _) λ b s₁. returns refl)
            (λ s. returns refl))

    pub nu_bind-LeavesNet : (sockfd : ℤ) (port : ℕ) → LeavesNet (nu_bind host sockets sockfd port)
    unfolding nu_bind
    nu_bind-LeavesNet sockfd port s = returns refl

    pub nu_set_reuse_addr-LeavesNet :
        (sockfd : ℤ) → LeavesNet (nu_set_reuse_addr host sockets sockfd true)
    unfolding nu_set_reuse_addr
    nu_set_reuse_addr-LeavesNet sockfd s = returns refl
