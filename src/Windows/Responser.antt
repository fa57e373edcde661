-- ===== src/Windows/Responser.antt =====
-- CCiHBResponser (legacy_compatible/CiHBResponser.h and .cpp) on Windows: the branches that Linux does
-- not share, on top of the CNetworkThread of Windows.
pub mod Answers
pub mod Runs
pub mod Rounds
pub mod Laws
pub mod Total
pub mod Patience
pub mod Ends
pub mod Opens
pub mod Closes
use libcastis_heartbeat.Prelude.{
  ℕ, ℤ, pos, ◌==ℤ◌, ◌==◌, Bool, true, false, not, length, if◌then◌else◌, List, Option, none, some,
}
use libcastis_heartbeat.Prelude.Machine.{M, pure, ◌>>=◌, ◌>>◌, gets}
use libcastis_heartbeat.Defs.{alive}
use libcastis_heartbeat.Wire.{Host}
use libcastis_heartbeat.Os.{Sockets}
use libcastis_heartbeat.Thread
use libcastis_heartbeat.Thread.{Virtuals}
use libcastis_heartbeat.Responser.{
  CiHbResponser, CiHbProg, system, set_world, nu_create_udp_socket, nu_set_reuse_addr, nu_bind,
  on_read_socket_error, receive_int_message, on_message,
}
use libcastis_heartbeat.Windows.Calls.{Win}
use libcastis_heartbeat.Windows.Semaphore.{windows_semaphore}
use libcastis_heartbeat.Windows.Net.{
  NetworkThread, NetVirtuals, new_network_thread, add_read_socket, fd_set_add, thread_access,
  disconnect_all,
}
use libcastis_heartbeat.Windows.Net

abbrev pub Responser : Type 0 → Type 0 → Type 0
Responser FdSet Addr = CiHbResponser (NetworkThread FdSet) Addr

abbrev pub Prog : Type 0 → Type 0 → Type 0 → Type 0
Prog FdSet World Addr = CiHbProg (NetworkThread FdSet) World Addr

module _ {World FdSet Addr : Type 0} (host : Host) (sockets : Sockets World Addr)
    (win : Win World FdSet) where
  -- The constructor; `sa_recv` and `recv_buf` are left as memory holds them.
  unfoldable pub new_responser : List ℕ → ℕ → List ℕ → ℤ → Addr → List ℕ → Responser FdSet Addr
  new_responser representative_ip port_number local_ip timeout sa_recv recv_buf = record {
    net = new_network_thread win timeout;
    representative_ip = representative_ip;
    local_ip = local_ip;
    port_number = port_number;
    process_state = alive;
    sa_recv = sa_recv;
    recv_buf = recv_buf;
  }

  -- cihb::nu_disconnect
  unfoldable pub nu_disconnect : ℤ → M (Prog FdSet World Addr) Bool
  nu_disconnect sock = do r ← system (win.closesocket sock); pure (r ==ℤ pos 0)

  -- An operation of CNetworkThread on the object.
  abbrev pub on_net :
      (NetworkThread FdSet → Bool × NetworkThread FdSet) → M (Prog FdSet World Addr) Bool
  on_net f s = some ((f s.net).0, record s { obj = record (s.obj) { net = (f s.net).1 } })

  -- The steps of InitInstance once the socket is there.
  unfoldable pub set_up : ℤ → M (Prog FdSet World Addr) Bool
  set_up sockfd = do
    reused ← nu_set_reuse_addr host sockets sockfd true
    if not reused then pure false else (do
      port ← gets (λ s. s.port_number)
      bound ← nu_bind host sockets sockfd port
      if not bound then pure false else (do
        added ← on_net (add_read_socket win sockfd)
        if not added
            then (do _ ← nu_disconnect sockfd; pure false)
            else on_net (fd_set_add win sockfd)))

  unfoldable pub init_instance : M (Prog FdSet World Addr) Bool
  init_instance = do
    ok ← Thread.init_instance
    if not ok then pure false else (do
      sock ← nu_create_udp_socket host sockets
      elim sock [ none ↦ pure false | some sockfd ↦ set_up sockfd ])

  -- CCiHBResponser as the class that CNetworkThread calls.
  abbrev pub net_virtuals : NetVirtuals (Prog FdSet World Addr) World FdSet
  net_virtuals = record {
    net = λ s. s.net;
    set_net = λ t s. record s { obj = record (s.obj) { net = t } };
    world = λ s. s.world;
    set_world = set_world;
    receive_int_message = receive_int_message host sockets;
    on_message = on_message host sockets;
    on_read_socket_error = on_read_socket_error host sockets;
  }

  -- The responder as a thread; ProcessReadEvent has fuel for each read socket.
  abbrev pub thread_virtuals : Virtuals (Prog FdSet World Addr)
  thread_virtuals = record {
    access = thread_access win net_virtuals;
    init_instance = init_instance;
    run = λ s. Net.run win net_virtuals (length s.net.read_sockets) s;
    exit_instance = Net.exit_instance win net_virtuals;
    sem_wait = λ s. elim ((windows_semaphore win).wait s.world) [
      | none ↦ none
      | some (ok, w) ↦ some (ok, record s { world = w })
    ];
    sem_post = system ((windows_semaphore win).post);
    spawn = λ s.
        let (handle, w) = win.begin_thread s.world in
        some ((if handle == 0 then none else some handle), record s { world = w });
  }
