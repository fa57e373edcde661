-- ===== src/Thread.antt =====
-- cihb::CCiThread2 (legacy_compatible/legacy_support.h and .cpp): the life of a thread object, driven by
-- ThreadProc, with its exit flag and exit semaphore. What a derived class overrides, and what the
-- object is part of, comes through `Virtuals`.
pub mod Laws
pub mod Edges
pub mod Log
pub mod Calls
pub mod Patience
pub mod Measure
pub mod Ends
pub mod Leaves
use libcastis_heartbeat.Prelude.{
  ℕ, zero, suc, ◌==◌, Bool, true, false, not, ◌||◌, if◌then◌else◌, Option, none, some,
}
use libcastis_heartbeat.Prelude.Machine.{M, pure, ◌>>=◌, ◌>>◌, modify, gets, when}

-- CiThread2State_t
pub data ThreadState : Type 0 where
  ready done_initinstance done_run done_exitinstance done_exitinstance_error : ThreadState
  done done_error error inactive : ThreadState

-- CiThread2Handle_t, an unsigned long on Windows and pthread_t on Linux.
abbrev pub CiThread2Handle : Type 0
CiThread2Handle = ℕ

-- m_ciThreadHandle, m_bExit, m_state
pub record Thread : Type 0 where
  pub handle : CiThread2Handle
  pub exit : Bool
  pub state : ThreadState

-- CI_THREAD2_INVALID_THREAD_HANDLE
abbrev pub invalid_handle : ℕ
invalid_handle = 0

-- The whole object `S` around the thread: its thread part, and the other threads: `others` says
-- whether one of them has called EndThread since the exit flag was last read.
pub record Access (S : Type 0) : Type 0 where
  pub thread : S → Thread
  pub set_thread : Thread → S → S
  pub others : M S Bool

-- The overridables, the operations of m_semExit, and pthread_create with the handle that it writes.
pub record Virtuals (S : Type 0) : Type 0 where
  pub access : Access S
  pub open access use *
  pub init_instance : M S Bool
  pub run : M S Bool
  pub exit_instance : M S Bool
  pub sem_wait : M S Bool
  pub sem_post : M S Bool
  pub spawn : M S (Option ℕ)

-- InitInstance, ExitInstance and Run as the class itself has them.
module _ {S : Type 0} where
  unfoldable pub init_instance : M S Bool
  init_instance = pure true

  unfoldable pub exit_instance : M S Bool
  exit_instance = pure true

  unfoldable pub run : M S Bool
  run = pure true

-- The constructor's initialisers.
unfoldable pub new_thread : Thread
new_thread = record { handle = invalid_handle; exit = true; state = ready }

unfoldable pub is_thread_done : Thread → Bool
is_thread_done t = elim t.state [ done ↦ true | done_error ↦ true | _ ↦ false ]

abbrev pub is_done_run : ThreadState → Bool
is_done_run done_run = true
is_done_run _ = false

abbrev pub is_done_exitinstance : ThreadState → Bool
is_done_exitinstance done_exitinstance = true
is_done_exitinstance _ = false

module _ {S : Type 0} (a : Access S) where
  unfoldable pub set_exit : Bool → M S (Unit {0})
  set_exit b = modify λ s. a.set_thread (record (a.thread s) { exit = b }) s

  -- EndThread
  unfoldable pub end_thread : M S (Unit {0})
  end_thread = set_exit true

  -- A read of m_bExit, which another thread may have set since.
  unfoldable pub read_exit : M S Bool
  read_exit = do called ← a.others; when called end_thread; gets (λ s. (a.thread s).exit)

module _ {S : Type 0} (v : Virtuals S) where
  unfoldable pub set_state : ThreadState → M S (Unit {0})
  set_state st = modify λ s. v.set_thread (record (v.thread s) { state = st }) s

  unfoldable pub set_handle : ℕ → M S (Unit {0})
  set_handle h = modify λ s. v.set_thread (record (v.thread s) { handle = h }) s

  -- The cases of the switch in ThreadProc, in the order in which they run into each other: the last,
  -- CI_THREAD2_DONE_EXITINSTANCE and CI_THREAD2_DONE_EXITINSTANCE_ERROR, first.
  unfoldable pub finish : M S (Unit {0})
  finish = do
    st ← gets (λ s. (v.thread s).state)
    set_state (if is_done_exitinstance st then done else done_error)

  -- CI_THREAD2_DONE_RUN, CI_THREAD2_ERROR, default
  unfoldable pub leave : M S (Unit {0})
  leave = do
    _ ← v.exit_instance
    st ← gets (λ s. (v.thread s).state)
    set_state (if is_done_run st then done_exitinstance else done_exitinstance_error)
    finish

  -- CI_THREAD2_DONE_INITINSTANCE
  unfoldable pub run_or_leave : M S (Unit {0})
  run_or_leave = do
    exit ← read_exit v.access
    if exit
        then (do set_state done_run; leave)
        else (do ok ← v.run; when (not ok) (set_state error))

  -- CI_THREAD2_READY
  unfoldable pub start : M S (Unit {0})
  start = do
    ok ← v.init_instance
    if ok then (do set_state done_initinstance; run_or_leave) else set_state error

  unfoldable pub dispatch : ThreadState → M S (Unit {0})
  dispatch ready = start
  dispatch done_initinstance = run_or_leave
  dispatch done_exitinstance = finish
  dispatch done_exitinstance_error = finish
  dispatch done = pure tt
  dispatch done_error = pure tt
  dispatch _ = leave

  unfoldable pub thread_proc : M S (Unit {0})
  thread_proc s = dispatch (v.thread s).state s

  -- `while ( !IsThreadDone() ) ThreadProc();`, with fuel.
  unfoldable pub proc_loop : ℕ → M S (Unit {0})
  proc_loop zero s = none
  proc_loop (suc fuel) s = elim (is_thread_done (v.thread s)) [
    | true ↦ some (tt, s)
    | false ↦ (thread_proc >>= λ _. proc_loop fuel) s
  ]

  unfoldable pub prepare_running : M S Bool
  prepare_running = do set_exit v.access false; set_state ready; _ ← v.sem_wait; pure true

  -- NotifyExit
  unfoldable pub notify_exit : M S (Unit {0})
  notify_exit = do _ ← v.sem_post; pure tt

  unfoldable pub run_thread_here : ℕ → M S Bool
  run_thread_here fuel = do
    handle ← gets (λ s. (v.thread s).handle)
    if not (handle == invalid_handle) then pure false else (do
      prepared ← prepare_running
      if not prepared
          then (do set_exit v.access true; pure false)
          else (do proc_loop fuel; notify_exit; pure true))

  unfoldable pub create_thread : M S Bool
  create_thread = do
    handle ← gets (λ s. (v.thread s).handle)
    if not (handle == invalid_handle) then pure false else (do
      prepared ← prepare_running
      if not prepared then (do set_exit v.access true; pure false) else (do
        created ← v.spawn
        elim created [
          | some h ↦ (do set_handle h; pure true)
          | none ↦ (do
            set_exit v.access true
            set_handle invalid_handle
            _ ← v.sem_post
            pure false)
        ]))

  -- _CiThread2Entry, which the created thread runs.
  unfoldable pub thread_entry : ℕ → M S (Unit {0})
  thread_entry fuel = do proc_loop fuel; notify_exit

  unfoldable pub wait_until_exit : M S (Unit {0})
  wait_until_exit = do
    handle ← gets (λ s. (v.thread s).handle)
    when (not (handle == invalid_handle))
        (do _ ← v.sem_wait; set_handle invalid_handle; _ ← v.sem_post; pure tt)
