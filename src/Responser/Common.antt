-- ===== src/Responser/Common.antt =====
-- The part of CCiHBResponser (legacy_compatible/CiHBResponser.h and .cpp) that is the same on Linux and
-- on Windows.
use libcastis_heartbeat.Prelude.{
  ℕ, ℤ, pos, negsuc, ◌==ℤ◌, ◌==◌, is_negative, Bool, true, false, not, if◌then◌else◌, List, ◌++◌,
  length, take, drop, Option, none, some,
}
use libcastis_heartbeat.Prelude.Machine.{M, pure, lift, ◌>>=◌, ◌>>◌, gets, modify}
use libcastis_heartbeat.Defs.{
  ProcessState, alive, sw_error, hw_error, heartbeat_request, message_code, state_code,
}
use libcastis_heartbeat.Wire.{Host}
use libcastis_heartbeat.Poll.{invalid_socket}
use libcastis_heartbeat.Os.{Sockets, Received, failed, received}
use libcastis_heartbeat.Responser.Message.{build_message}

-- The members of CCiHBResponser around those of its base class, which are not the same on both systems.
pub record CiHbResponser (N Addr : Type 0) : Type 0 where
  pub net : N
  pub representative_ip : List ℕ
  pub local_ip : List ℕ
  pub port_number : ℕ
  pub process_state : ProcessState
  pub sa_recv : Addr
  pub recv_buf : List ℕ

-- The object and the world around it.
pub record CiHbProg (N World Addr : Type 0) : Type 0 where
  pub obj : CiHbResponser N Addr
  pub open obj use *
  pub world : World

module _ {N Addr : Type 0} where
  unfoldable pub get_process_state : CiHbResponser N Addr → ProcessState
  get_process_state r = r.process_state

  unfoldable pub set_process_state : ProcessState → CiHbResponser N Addr → CiHbResponser N Addr
  set_process_state st r = record r { process_state = st }

  unfoldable pub set_process_hw_error : CiHbResponser N Addr → CiHbResponser N Addr
  unfolding set_process_state
  set_process_hw_error = set_process_state hw_error

  unfoldable pub set_process_sw_error : CiHbResponser N Addr → CiHbResponser N Addr
  unfolding set_process_state
  set_process_sw_error = set_process_state sw_error

  unfoldable pub set_process_alive : CiHbResponser N Addr → CiHbResponser N Addr
  unfolding set_process_state
  set_process_alive = set_process_state alive

-- The four bytes of m_szRecvBuf from `i`, through memcpy and ntohl.
unfoldable pub recv_int : {N World Addr : Type 0} → Host → ℕ → CiHbProg N World Addr → ℕ
recv_int host i s = host.ntohl (host.load (take 4 (drop i s.recv_buf)))

module _ {N World Addr : Type 0} where
  abbrev pub update_obj :
      (CiHbResponser N Addr → CiHbResponser N Addr) → M (CiHbProg N World Addr) (Unit {0})
  update_obj f = modify λ s. record s { obj = f s.obj }

  abbrev pub set_world : World → CiHbProg N World Addr → CiHbProg N World Addr
  set_world w s = record s { world = w }

  abbrev pub system : {A : Type 0} → (World → A × World) → M (CiHbProg N World Addr) A
  system f s = some ((f s.world).0, set_world (f s.world).1 s)

module _ {N World Addr : Type 0} (host : Host) (sockets : Sockets World Addr) where
  -- nu_create_udp_socket
  unfoldable pub nu_create_udp_socket : M (CiHbProg N World Addr) (Option ℤ)
  nu_create_udp_socket = do
    sock ← system sockets.socket
    pure (if is_negative sock then none else some sock)

  -- nu_set_reuse_addr
  unfoldable pub nu_set_reuse_addr : ℤ → Bool → M (CiHbProg N World Addr) Bool
  nu_set_reuse_addr sock enable = do
    r ← system (sockets.set_reuse_addr sock (if enable then 1 else 0))
    pure (not (r ==ℤ negsuc 0))

  -- nu_set_keep_alive
  unfoldable pub nu_set_keep_alive : ℤ → Bool → M (CiHbProg N World Addr) Bool
  nu_set_keep_alive sock enable = do
    r ← system (sockets.set_keep_alive sock (if enable then 1 else 0))
    pure (not (r ==ℤ negsuc 0))

  -- nu_bind
  unfoldable pub nu_bind : ℤ → ℕ → M (CiHbProg N World Addr) Bool
  nu_bind sock port = do
    r ← system (sockets.bind sock (host.htons port))
    pure (not (is_negative r))

  -- OnReadSocketError, which leaves an unconnected socket alone.
  unfoldable pub on_read_socket_error : ℤ → M (CiHbProg N World Addr) Bool
  on_read_socket_error sockfd = pure true

  -- What recvfrom leaves in m_szRecvBuf and m_saRecv, and the number of bytes that it answers.
  unfoldable pub take_datagram : Received Addr → M (CiHbProg N World Addr) (Option ℕ)
  take_datagram failed = pure none
  take_datagram (received bytes addr) = do
    update_obj
        (λ r. record r { recv_buf = bytes ++ drop (length bytes) r.recv_buf; sa_recv = addr })
    pure (some (length bytes))

  unfoldable pub receive_int_message : ℤ → M (CiHbProg N World Addr) (Option ℕ)
  receive_int_message sockfd = if sockfd ==ℤ invalid_socket then pure none else (do
    datagram ← system (sockets.recvfrom sockfd 8)
    n ← take_datagram datagram
    gets (λ s. elim n [ none ↦ none | some k ↦ if k == 8 then some (recv_int host 0 s) else none ]))

  unfoldable pub send_heartbeat_response : ℤ → ℕ → M (CiHbProg N World Addr) Bool
  send_heartbeat_response sockfd seq_num = do
    r ← gets (λ s. s.obj)
    message ←
        lift
          (build_message host (state_code r.process_state) r.representative_ip r.local_ip seq_num)
    sent ← system (sockets.sendto sockfd message r.sa_recv)
    pure (if is_negative sent then false else sent ==ℤ pos (length message))

  unfoldable pub on_heartbeat_request : ℤ → M (CiHbProg N World Addr) Bool
  on_heartbeat_request sockfd = do
    seq_num ← gets (recv_int host 4)
    send_heartbeat_response sockfd seq_num

  unfoldable pub on_message : ℤ → ℕ → M (CiHbProg N World Addr) Bool
  on_message sockfd message =
      if sockfd ==ℤ invalid_socket
      then pure false
      else if message == message_code heartbeat_request
      then (do _ ← on_heartbeat_request sockfd; pure true)
      else pure false
