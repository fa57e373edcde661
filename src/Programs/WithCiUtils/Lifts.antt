-- ===== src/Programs/WithCiUtils/Lifts.antt =====
-- Every operation of the thread of CCiHBResponserWithCiUtils is that of its CCiHBResponser part.
use libcastis_heartbeat.Prelude.{
  ℕ, zero, suc, ◌≡◌, refl, ap, ◌∙◌, ◌==◌, Bool, true, false, not, if◌then◌else◌, Option, none, some,
}
use libcastis_heartbeat.Prelude.Machine.{M, pure, gets, when, ◌>>=◌}
use libcastis_heartbeat.Thread
use libcastis_heartbeat.Thread.{
  Virtuals, ThreadState, ready, done_initinstance, done_run, done_exitinstance,
  done_exitinstance_error, done, done_error, error, inactive, is_done_run, is_done_exitinstance,
  is_thread_done, invalid_handle, set_exit, end_thread, read_exit, set_state, finish, leave,
  run_or_leave, start, dispatch, thread_proc, proc_loop, prepare_running, notify_exit,
}
use libcastis_heartbeat.Programs.WithCiUtils.{
  ResponserWithCiUtils, on_base, virtuals, init_instance, exit_instance, run,
}

-- An operation of the object that is one of the base part.
abbrev pub Lifts : {S Ci A : Type 0} → M (ResponserWithCiUtils S Ci) A → M S A → Type 0
Lifts {S} {Ci} m' m = (s : ResponserWithCiUtils S Ci) → m' s ≡ on_base m s

module _ {S Ci A B : Type 0} where
  Lifts->>= :
      (m' : M (ResponserWithCiUtils S Ci) A) (m : M S A) (f' : A → M (ResponserWithCiUtils S Ci) B)
      (f : A → M S B)
      → Lifts m' m
      → ((a : A) → Lifts (f' a) (f a))
      → Lifts (m' >>= f') (m >>= f)
  Lifts->>= m' m f' f h k s =
      ap
        (λ (o : Option (A × ResponserWithCiUtils S Ci)).
          elim o as (λ _. Option (B × ResponserWithCiUtils S Ci)) [
            | none ↦ none
            | some (a, s') ↦ f' a s'
          ])
        (h s)
      ∙ go (m s.base)
    where
      over_base : {C : Type 0} → Option (C × S) → Option (C × ResponserWithCiUtils S Ci)
      over_base {C} o = elim o as (λ _. Option (C × ResponserWithCiUtils S Ci)) [
        | none ↦ none
        | some (c, b) ↦ some (c, record s { base = b })
      ]

      go :
          (o : Option (A × S))
          → (elim (over_base o) as (λ _. Option (B × ResponserWithCiUtils S Ci)) [
            | none ↦ none
            | some (a, s') ↦ f' a s'
          ])
            ≡ over_base (elim o as (λ _. Option (B × S)) [ none ↦ none | some (a, b) ↦ f a b ])
      go none = refl
      go (some x) = k x.0 (record s { base = x.1 })

Lifts-pure : {S Ci A : Type 0} (a : A) → Lifts {S = S} {Ci = Ci} (pure a) (pure a)
Lifts-pure a s = refl

Lifts-if :
    {S Ci A : Type 0} (b : Bool) (m' k' : M (ResponserWithCiUtils S Ci) A) (m k : M S A)
    → Lifts m' m
    → Lifts k' k
    → Lifts (if b then m' else k') (if b then m else k)
Lifts-if true m' k' m k h l = h
Lifts-if false m' k' m k h l = l

Lifts-when :
    {S Ci : Type 0} (b : Bool) (m' : M (ResponserWithCiUtils S Ci) (Unit {0})) (m : M S (Unit {0}))
    → Lifts m' m
    → Lifts (when b m') (when b m)
Lifts-when true m' m h s = h s
Lifts-when false m' m h s = refl

module _ {S Ci : Type 0} (v : Virtuals S) where
  abbrev over : Virtuals (ResponserWithCiUtils S Ci)
  over = virtuals v

  set_state-Lifts : (st : ThreadState) → Lifts (set_state over st) (set_state v st)
  unfolding set_state
  set_state-Lifts st s = refl

  set_exit-Lifts : (b : Bool) → Lifts (set_exit over.access b) (set_exit v.access b)
  unfolding set_exit
  set_exit-Lifts b s = refl

  read_exit-Lifts : Lifts (read_exit over.access) (read_exit v.access)
  unfolding read_exit end_thread
  read_exit-Lifts =
      Lifts->>= over.others v.others _ _ (λ s. refl)
        λ called. Lifts->>= _ _ _ _ (Lifts-when called _ _ (set_exit-Lifts true)) λ _ s. refl

  finish-Lifts : Lifts (finish over) (finish v)
  unfolding finish set_state
  finish-Lifts s = refl

  leave-Lifts : Lifts (leave over) (leave v)
  unfolding leave exit_instance
  leave-Lifts =
      Lifts->>= over.exit_instance v.exit_instance _ _ (λ s. refl)
        λ _.
          Lifts->>= (gets (λ s. (over.thread s).state)) (gets (λ s. (v.thread s).state)) _ _
            (λ s. refl)
            λ st.
              Lifts->>= (set_state over (left st)) (set_state v (left st)) _ _
                (set_state-Lifts (left st)) λ _. finish-Lifts
    where
      left : ThreadState → ThreadState
      left st = if is_done_run st then done_exitinstance else done_exitinstance_error

  run_or_leave-Lifts : Lifts (run_or_leave over) (run_or_leave v)
  unfolding run_or_leave run
  run_or_leave-Lifts =
      Lifts->>= (read_exit over.access) (read_exit v.access) _ _ read_exit-Lifts λ exit.
        Lifts-if exit _ _ _ _
          (Lifts->>= (set_state over done_run) (set_state v done_run) _ _ (set_state-Lifts done_run)
            λ _. leave-Lifts)
          (Lifts->>= over.run v.run _ _ (λ s. refl)
            λ ok. Lifts-when (not ok) _ _ (set_state-Lifts error))

  start-Lifts : Lifts (start over) (start v)
  unfolding start init_instance
  start-Lifts =
      Lifts->>= over.init_instance v.init_instance _ _ (λ s. refl)
        λ ok.
          Lifts-if ok _ _ _ _
            (Lifts->>= (set_state over done_initinstance) (set_state v done_initinstance) _ _
              (set_state-Lifts done_initinstance) λ _. run_or_leave-Lifts)
            (set_state-Lifts error)

  dispatch-Lifts : (st : ThreadState) → Lifts (dispatch over st) (dispatch v st)
  unfolding dispatch
  dispatch-Lifts ready = start-Lifts
  dispatch-Lifts done_initinstance = run_or_leave-Lifts
  dispatch-Lifts done_run = leave-Lifts
  dispatch-Lifts done_exitinstance = finish-Lifts
  dispatch-Lifts done_exitinstance_error = finish-Lifts
  dispatch-Lifts done = Lifts-pure tt
  dispatch-Lifts done_error = Lifts-pure tt
  dispatch-Lifts error = leave-Lifts
  dispatch-Lifts inactive = leave-Lifts

  thread_proc-Lifts : Lifts (thread_proc over) (thread_proc v)
  unfolding thread_proc
  thread_proc-Lifts s = dispatch-Lifts (v.thread s.base).state s

  proc_loop-Lifts : (fuel : ℕ) → Lifts (proc_loop over fuel) (proc_loop v fuel)
  unfolding proc_loop
  proc_loop-Lifts zero s = refl
  proc_loop-Lifts (suc fuel) s = unless (is_thread_done (v.thread s.base)) (
      Lifts->>= (thread_proc over) (thread_proc v) _ _ thread_proc-Lifts (λ _. proc_loop-Lifts fuel)
        s)
    where
      unless :
          (b : Bool)
          → (thread_proc over >>= λ _. proc_loop over fuel) s
            ≡ on_base (thread_proc v >>= λ _. proc_loop v fuel) s
          → (elim b [
            | true ↦ some (tt, s)
            | false ↦ (thread_proc over >>= λ _. proc_loop over fuel) s
          ])
            ≡ on_base
                (λ t. elim b [
                  | true ↦ some (tt, t)
                  | false ↦ (thread_proc v >>= λ _. proc_loop v fuel) t
                ])
                s
      unless true h = refl
      unless false h = h

  prepare_running-Lifts : Lifts (prepare_running over) (prepare_running v)
  unfolding prepare_running
  prepare_running-Lifts =
      Lifts->>= (set_exit over.access false) (set_exit v.access false) _ _ (set_exit-Lifts false)
        λ _.
          Lifts->>= (set_state over ready) (set_state v ready) _ _ (set_state-Lifts ready)
            λ _. Lifts->>= over.sem_wait v.sem_wait _ _ (λ s. refl) λ _ s. refl

  notify_exit-Lifts : Lifts (notify_exit over) (notify_exit v)
  unfolding notify_exit
  notify_exit-Lifts = Lifts->>= over.sem_post v.sem_post _ _ (λ s. refl) λ _ s. refl

  pub run_thread_here-Lifts :
      (fuel : ℕ) → Lifts (Thread.run_thread_here over fuel) (Thread.run_thread_here v fuel)
  unfolding Thread.run_thread_here
  run_thread_here-Lifts fuel =
      Lifts->>= (gets (λ s. (over.thread s).handle)) (gets (λ s. (v.thread s).handle)) _ _
        (λ s. refl)
        λ handle.
          Lifts-if (not (handle == invalid_handle)) _ _ (pure {S = S} false) _ (Lifts-pure false) (
            Lifts->>= (prepare_running over) (prepare_running v) _ _ prepare_running-Lifts
              λ prepared.
                Lifts-if (not prepared) _ _ _ _
                  (Lifts->>= (set_exit over.access true) (set_exit v.access true) _
                    (λ x. pure {S = S} false) (set_exit-Lifts true) λ _. Lifts-pure false)
                  (Lifts->>= (proc_loop over fuel) (proc_loop v fuel) _ _ (proc_loop-Lifts fuel)
                    λ _.
                      Lifts->>= (notify_exit over) (notify_exit v) _ (λ x. pure {S = S} true)
                        notify_exit-Lifts λ _. Lifts-pure true))
