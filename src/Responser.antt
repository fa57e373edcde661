-- ===== src/Responser.antt =====
-- CCiHBResponser (legacy_compatible/CiHBResponser.h and .cpp): the heartbeat responder on top of
-- CNetworkThread.
pub mod Message
pub mod Common
pub mod Build
pub mod Datagram
pub mod Reply
pub mod Init
pub mod Alone
pub mod Runs
pub mod Stops
pub mod Through
pub mod Whole
pub mod Rounds
pub mod Patience
pub mod Ends
pub mod Ledger
pub mod Opens
pub mod Closes
pub mod Answers
pub mod Idle
pub mod Lost
pub mod Script
pub mod Steps
pub mod Serves
use libcastis_heartbeat.Prelude.{
  ℕ, zero, suc, ◌+◌, ◌%◌, ◌^◌, ℤ, pos, negsuc, ◌==ℤ◌, ◌==◌, leb, to_int32, is_negative, Bool, true,
  false, not, if◌then◌else◌, List, [], ◌∷◌, ◌++◌, length, take, drop, replicate, Option, none, some,
}
use libcastis_heartbeat.Prelude.Partial
use libcastis_heartbeat.Prelude.Machine.{M, pure, lift, ◌>>=◌, ◌>>◌, gets, modify, when}
use libcastis_heartbeat.Defs.{
  ProcessState, alive, sw_error, hw_error, heartbeat_request, heartbeat_response, message_code,
  state_code, max_data_size,
}
use libcastis_heartbeat.Wire.{Host}
use libcastis_heartbeat.Poll.{PollBits, invalid_socket, poll_fd_add}
use libcastis_heartbeat.Os.{Os, Received, failed, received}
use libcastis_heartbeat.Semaphore
use libcastis_heartbeat.Thread.{Thread, Virtuals}
use libcastis_heartbeat.Net.{NetworkThread, NetVirtuals, new_network_thread, add_read_socket}
use libcastis_heartbeat.Net
use libcastis_heartbeat.Thread
pub use Common.{CiHbResponser, CiHbProg, update_obj, set_world, system}
unfoldable pub use Common.{
  get_process_state, set_process_state, set_process_hw_error, set_process_sw_error,
  set_process_alive, recv_int, nu_create_udp_socket, nu_set_reuse_addr, nu_set_keep_alive, nu_bind,
  on_read_socket_error, take_datagram, receive_int_message, send_heartbeat_response,
  on_heartbeat_request, on_message,
}

-- The members of CCiHBResponser on Linux, and the object with the world around it.
abbrev pub Responser : Type 0 → Type 0
Responser Addr = CiHbResponser NetworkThread Addr

abbrev pub Prog : Type 0 → Type 0 → Type 0
Prog World Addr = CiHbProg NetworkThread World Addr

-- The constructor; `sa_recv` and `recv_buf` are left as memory holds them.
unfoldable pub new_responser :
    {Addr : Type 0} → List ℕ → ℕ → List ℕ → ℤ → Addr → List ℕ → Responser Addr
new_responser representative_ip port_number local_ip timeout sa_recv recv_buf = record {
  net = new_network_thread timeout;
  representative_ip = representative_ip;
  local_ip = local_ip;
  port_number = port_number;
  process_state = alive;
  sa_recv = sa_recv;
  recv_buf = recv_buf;
}

module _ {World Addr : Type 0} (host : Host) (os : Os World Addr) (bits : PollBits) where
  -- cihb::nu_disconnect
  unfoldable pub nu_disconnect : ℤ → M (Prog World Addr) Bool
  nu_disconnect sock = do r ← system (os.close sock); pure (r ==ℤ pos 0)

  -- AddReadSocket and PollFDAdd on the object.
  unfoldable pub add_socket : ℤ → M (Prog World Addr) Bool
  add_socket sockfd s =
      let (b, net) = add_read_socket sockfd s.net in
      some (b, record s { obj = record (s.obj) { net = net } })

  unfoldable pub add_poll_fd : ℤ → M (Prog World Addr) Bool
  add_poll_fd sockfd s =
      let (b, table) = poll_fd_add bits sockfd s.net.table in
      some (b, record s { obj = record (s.obj) { net = record (s.net) { table = table } } })

  -- The steps of InitInstance once the socket is there.
  unfoldable pub set_up : ℤ → M (Prog World Addr) Bool
  set_up sockfd = do
    reused ← nu_set_reuse_addr host os.sockets sockfd true
    if not reused then pure false else (do
      port ← gets (λ s. s.port_number)
      bound ← nu_bind host os.sockets sockfd port
      if not bound then pure false else (do
        added ← add_socket sockfd
        if not added then (do _ ← nu_disconnect sockfd; pure false) else add_poll_fd sockfd))

  unfoldable pub init_instance : M (Prog World Addr) Bool
  init_instance = do
    ok ← Thread.init_instance
    if not ok then pure false else (do
      sock ← nu_create_udp_socket host os.sockets
      elim sock [ none ↦ pure false | some sockfd ↦ set_up sockfd ])

  -- CCiHBResponser as the class that CNetworkThread calls.
  abbrev pub net_virtuals : NetVirtuals (Prog World Addr) World
  net_virtuals = record {
    net = λ s. s.net;
    set_net = λ t s. record s { obj = record (s.obj) { net = t } };
    world = λ s. s.world;
    set_world = set_world;
    receive_int_message = receive_int_message host os.sockets;
    on_message = on_message host os.sockets;
    on_read_socket_error = on_read_socket_error host os.sockets;
  }
