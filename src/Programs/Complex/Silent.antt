-- ===== src/Programs/Complex/Silent.antt =====
-- What the responder in a complex does with its socket, from its construction on.
use libcastis_heartbeat.Prelude.{ℕ, ◌≡◌, refl, ℤ, List}
use libcastis_heartbeat.Wire.{Host}
use libcastis_heartbeat.Poll.{PollBits}
use libcastis_heartbeat.Os.{Os}
use libcastis_heartbeat.Semaphore
use libcastis_heartbeat.Thread.{new_thread}
use libcastis_heartbeat.Net.{new_network_thread}
use libcastis_heartbeat.Responser.{Prog, new_responser}
use libcastis_heartbeat.Responser.Runs.{thread_virtuals}
use libcastis_heartbeat.Programs.Platform.{linux, construct_responser}
use libcastis_heartbeat.Programs.Complex.{ResponserInComplex, Calls, overridables, new_in_complex}
use libcastis_heartbeat.Programs.Complex.Quiet.{Unheard, Mute, Calls-Mute}

module _ {World Addr X : Type 0} (host : Host) (os : Os World Addr) (bits : PollBits)
    (obs : World → X) (h : Unheard os obs) (retries : ℕ) (addr : Addr) (buf : List ℕ) where
  constructed-Mute :
      (rip : List ℕ) (port : ℕ) (lip : List ℕ) (timeout : ℤ) (w : World)
      → Mute host os bits obs h
          (obs w)
          (construct_responser host os bits addr buf rip port lip timeout w)
  unfolding construct_responser Semaphore.initialize new_responser new_network_thread new_thread
  constructed-Mute rip port lip timeout w = (h.at_sem_init 1 w, refl)

  -- A CCiHBResponserWithCiUtils in a complex makes no call of the system but those of Unheard, whatever
  -- calls of its overridables CiUtils makes, in any order and number: nothing that socket, setsockopt, bind,
  -- close, a read of the exit flag and sem_init leave alone has changed since before its construction. What
  -- counts the polls, the datagrams taken or the responses sent is such a thing.
  pub responser_in_complex-quiet :
      {Ci : Type 0} (rip : List ℕ) (port : ℕ) (lip : List ℕ) (timeout : ℤ) (ci : Ci) (w : World)
      (r' : ResponserInComplex (Prog World Addr) Ci)
      → Calls
          (overridables (thread_virtuals host os bits retries))
          (new_in_complex (linux host os bits retries addr buf) rip port lip timeout ci w)
          r'
      → obs r'.base.world ≡ obs w
  unfolding new_in_complex
  responser_in_complex-quiet rip port lip timeout ci w r' c =
      (Calls-Mute host os bits obs h retries (obs w) _ r' c
        (constructed-Mute rip port lip timeout w)).0
