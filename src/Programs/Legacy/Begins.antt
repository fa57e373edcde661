-- ===== src/Programs/Legacy/Begins.antt =====
-- The thread of the legacy program on Linux, up to its first round.
use libcastis_heartbeat.Prelude.{
  ℕ, suc, ◌≡◌, ◌≢◌, refl, ap, ◌∙◌, ℤ, pos, negsuc, ◌==ℤ◌, ==ℤ_false, is_negative, Bool, true, false,
  List, [], ◌∷◌, replicate, Option, none, some,
}
use libcastis_heartbeat.Prelude.Machine.{◌>>=◌, >>=-step}
use libcastis_heartbeat.Wire.{Host}
use libcastis_heartbeat.Poll.{
  PollBits, PollTable, invalid_socket, max_fd_size, empty_pollfd, clear_table, poll_fd_add,
}
use libcastis_heartbeat.Poll.Table.{new_pollfd}
use libcastis_heartbeat.Os.{Os}
use libcastis_heartbeat.Semaphore
use libcastis_heartbeat.Thread.{
  ready, done, done_error, done_initinstance, new_thread, set_state, set_exit, start, run_or_leave,
  dispatch, thread_proc, proc_loop, is_thread_done, prepare_running,
}
use libcastis_heartbeat.Net.{new_network_thread}
use libcastis_heartbeat.Net.ReadSockets.{insert}
use libcastis_heartbeat.Session.{bytes_of}
use libcastis_heartbeat.Responser.{Responser, Prog, new_responser, init_instance}
use libcastis_heartbeat.Responser.Init.{opened, not_invalid, set_up-opened, init-steps}
use libcastis_heartbeat.Responser.Runs.{thread_virtuals}
use libcastis_heartbeat.Responser.Idle.{polling, last}

-- The socket that InitInstance opens in the world `w`, and the world once it is bound.
module _ {World Addr : Type 0} (host : Host) (os : Os World Addr) where
  abbrev pub opened_in : World → ℤ
  opened_in w = (os.socket w).0

  abbrev pub reused_in : World → ℤ × World
  reused_in w = os.set_reuse_addr (opened_in w) 1 (os.socket w).1

  abbrev pub bound_in : World → ℤ × World
  bound_in w = os.bind (opened_in w) (host.htons 8090) (reused_in w).1

module _ {Addr : Type 0} (addr : Addr) (buf : List ℕ) where
  -- The object of the program, as its constructors leave it.
  abbrev pub built : Responser Addr
  built = new_responser (bytes_of "127.0.0.1") 8090 (bytes_of "127.0.0.1") (pos 10) addr buf

  -- The object after PrepareRunning, in the world `w`.
  abbrev pub prepared : {World : Type 0} → World → Prog World Addr
  prepared w = record {
    obj = record built {
      net = record (built.net) { base = record { handle = 0; exit = false; state = ready } };
    };
    world = w;
  }

  -- The object in its rounds, with the socket `fd`.
  abbrev pub at_work : ℤ → Responser Addr
  at_work fd = record built {
    net = record (built.net) {
      base = record { handle = 0; exit = false; state = done_initinstance };
      read_sockets = fd ∷ [];
    };
  }

module _ {World Addr : Type 0} (host : Host) (os : Os World Addr) (bits : PollBits) (retries : ℕ)
    (addr : Addr) (buf : List ℕ) where
  first_add :
      (fd : ℤ)
      → fd ≢ invalid_socket
      → poll_fd_add bits fd clear_table ≡ (
        true,
        record { poll_fds = new_pollfd bits fd ∷ replicate 1023 empty_pollfd; poll_fd_count = 1 },
      )
  unfolding poll_fd_add clear_table max_fd_size
  first_add fd valid = rw (==ℤ_false valid)

  -- ThreadProc of a new thread, up to its first round.
  start-lem :
      (k : ℕ) (s s' : Prog World Addr)
      → s.net.base.state ≡ ready
      → init_instance host os bits s ≡ some (true, s')
      → proc_loop (thread_virtuals host os bits retries) (suc k) s
        ≡ (run_or_leave (thread_virtuals host os bits retries) >>= λ _.
              proc_loop (thread_virtuals host os bits retries) k)
            (record s' {
              obj = record (s'.obj) {
                net = record (s'.net) { base = record (s'.net.base) { state = done_initinstance } };
              };
            })
  unfolding proc_loop thread_proc dispatch is_thread_done start set_state
  start-lem k s s' st inits =
      let v = thread_virtuals host os bits retries in
      ap
        (λ st.
          elim (elim st as (λ _. Bool) [ done ↦ true | done_error ↦ true | _ ↦ false ])
            as (λ _. Option (Unit {0} × Prog World Addr)) [
              | true ↦ some (tt, s)
              | false ↦ (dispatch v st >>= λ _. proc_loop v k) s
            ])
        st
      ∙ ap
          (λ (o : Option (Unit {0} × Prog World Addr)).
            elim o as (λ _. Option (Unit {0} × Prog World Addr)) [
              | none ↦ none
              | some (_, x) ↦ proc_loop v k x
            ])
          (>>=-step (init_instance host os bits) _ inits)

  inits-lem :
      (w : World)
      → is_negative (opened_in host os w) ≡ false
      → ((reused_in host os w).0 ==ℤ negsuc 0) ≡ false
      → is_negative (bound_in host os w).0 ≡ false
      → init_instance host os bits (prepared addr buf w)
        ≡ some (
          true,
          opened host os bits (prepared addr buf w) (record {
            poll_fds = new_pollfd bits (opened_in host os w) ∷ replicate 1023 empty_pollfd;
            poll_fd_count = 1;
          }),
        )
  unfolding new_responser new_network_thread
  inits-lem w valid reused is_bound =
      let add =
        first_add (opened_in host os w) (not_invalid host os bits (opened_in host os w) valid) in
      init-steps host os bits (prepared addr buf w) valid
      ∙ set_up-opened host os bits (prepared addr buf w) valid reused is_bound
      ∙ ap (λ (r : Bool × PollTable). some (r.0, opened host os bits (prepared addr buf w) r.1)) add

  pub prepare-lem :
      (ok : Bool) (w w₁ : World)
      → Semaphore.wait os retries w ≡ some (ok, w₁)
      → prepare_running
          (thread_virtuals host os bits retries)
          (record { obj = built addr buf; world = w })
        ≡ some (true, prepared addr buf w₁)
  unfolding prepare_running set_exit set_state new_responser new_network_thread new_thread
  prepare-lem ok w w₁ waits =
      let s : Prog World Addr = record {
        obj = record (built addr buf) {
          net = record ((built addr buf).net) {
            base = record { handle = 0; exit = false; state = ready };
          };
        };
        world = w;
      } in
      ap
        (λ (o : Option (Bool × World)).
          elim (elim o as (λ _. Option (Bool × Prog World Addr)) [
            | none ↦ none
            | some (ok, w) ↦ some (ok, record s { world = w })
          ])
            as (λ _. Option (Bool × Prog World Addr)) [
              | none ↦ none
              | some (_, s) ↦ some (true, s)
            ])
        waits

  -- Its first round.
  pub begins :
      (k : ℕ) (w : World)
      → is_negative (opened_in host os w) ≡ false
      → ((reused_in host os w).0 ==ℤ negsuc 0) ≡ false
      → is_negative (bound_in host os w).0 ≡ false
      → proc_loop (thread_virtuals host os bits retries) (suc k) (prepared addr buf w)
        ≡ (run_or_leave (thread_virtuals host os bits retries) >>= λ _.
              proc_loop (thread_virtuals host os bits retries) k)
            (polling bits
              (opened_in host os w)
              (replicate 1023 empty_pollfd)
              (pos 0)
              (last (at_work addr buf (opened_in host os w)) addr buf)
              (bound_in host os w).1)
  unfolding new_responser new_network_thread insert
  begins k w valid reused is_bound =
      start-lem k (prepared addr buf w) _ refl (inits-lem w valid reused is_bound)
