-- ===== src/Programs/Platform.antt =====
-- What the programs of examples/ find around them: the start of Winsock, and a build of the responder
-- for one system.
use libcastis_heartbeat.Prelude.{
  ℕ, ◌+◌, ◌*◌, ◌/◌, ◌%◌, ℤ, pos, ◌==ℤ◌, ◌==◌, Bool, true, false, not, ◌||◌, if◌then◌else◌, List,
}
use libcastis_heartbeat.Wire.{Host}
use libcastis_heartbeat.Poll.{PollBits}
use libcastis_heartbeat.Os.{Os, Sockets}
use libcastis_heartbeat.Semaphore
use libcastis_heartbeat.Thread.{Virtuals}
use libcastis_heartbeat.Net
use libcastis_heartbeat.Responser.{Prog, new_responser, set_world}
use libcastis_heartbeat.Windows
use libcastis_heartbeat.Windows.Calls.{Win}
use libcastis_heartbeat.Responser.Runs.{thread_virtuals}

-- WSAStartup, which answers an error code and writes wVersion, and WSACleanup.
pub record Wsa (World : Type 0) : Type 0 where
  pub startup : ℕ → World → ℤ × ℕ × World
  pub cleanup : World → World

-- MAKEWORD, LOBYTE, HIBYTE
abbrev pub make_word : ℕ → ℕ → ℕ
make_word low high = low % 256 + 256 * (high % 256)

abbrev pub low_byte : ℕ → ℕ
low_byte word = word % 256

abbrev pub high_byte : ℕ → ℕ
high_byte word = word / 256 % 256

-- The Windows part of each `main`: whether Winsock 2.2 is there.
unfoldable pub start_winsock : {World : Type 0} → Wsa World → World → Bool × World
start_winsock wsa w =
    let (err, version, w₁) = wsa.startup (make_word 2 2) w in
    if not (err ==ℤ pos 0)
    then (false, w₁)
    else if not (low_byte version == 2) || not (high_byte version == 2)
    then (false, wsa.cleanup w₁)
    else (true, w₁)

-- A build of the responder for a system; `S` is the object with the world around it.
pub record Platform (S World : Type 0) : Type 0 where
  pub prepare : World → Bool × World
  pub construct : List ℕ → ℕ → List ℕ → ℤ → World → S
  pub virtuals : Virtuals S
  pub destroy : S → World
  pub world : S → World
  pub set_world : World → S → S

module _ {World Addr : Type 0} (host : Host) (os : Os World Addr) (bits : PollBits) where
  -- ~CCiThread2
  unfoldable pub delete_thread : World → World
  delete_thread w = (Semaphore.finalize os w).1

  -- The destructors of CCiHBResponser, CNetworkThread and CCiThread2, in this order.
  unfoldable pub delete_responser : Prog World Addr → World
  delete_responser s = delete_thread (Net.delete_network_thread os s.net s.world)

  -- The constructors, with the memory that they do not initialise.
  unfoldable pub construct_responser :
      Addr → List ℕ → List ℕ → ℕ → List ℕ → ℤ → World → Prog World Addr
  construct_responser addr buf representative_ip port local_ip timeout w = record {
    obj = new_responser representative_ip port local_ip timeout addr buf;
    world = (Semaphore.initialize os 1 w).1;
  }

  -- The build for Linux.
  abbrev pub linux : ℕ → Addr → List ℕ → Platform (Prog World Addr) World
  linux retries addr buf = record {
    prepare = λ w. (true, w);
    construct = construct_responser addr buf;
    virtuals = thread_virtuals host os bits retries;
    destroy = delete_responser;
    world = λ s. s.world;
    set_world = set_world;
  }

module _ {World FdSet Addr : Type 0} (host : Host) (sockets : Sockets World Addr)
    (win : Win World FdSet) where
  -- The same on Windows.
  unfoldable pub delete_on_windows : Windows.Responser.Prog FdSet World Addr → World
  delete_on_windows s =
      (Windows.Semaphore.finalize win (Windows.Net.delete_network_thread win s.net s.world)).1

  unfoldable pub construct_on_windows :
      Addr → List ℕ → List ℕ → ℕ → List ℕ → ℤ → World → Windows.Responser.Prog FdSet World Addr
  construct_on_windows addr buf representative_ip port local_ip timeout w = record {
    obj =
        Windows.Responser.new_responser host sockets win representative_ip port local_ip timeout
          addr buf;
    world = (Windows.Semaphore.initialize win 1 1 w).1;
  }

  -- The build for Windows.
  abbrev pub windows :
      Wsa World → Addr → List ℕ → Platform (Windows.Responser.Prog FdSet World Addr) World
  windows wsa addr buf = record {
    prepare = start_winsock wsa;
    construct = construct_on_windows addr buf;
    virtuals = Windows.Responser.thread_virtuals host sockets win;
    destroy = delete_on_windows;
    world = λ s. s.world;
    set_world = set_world;
  }
