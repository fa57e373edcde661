-- ===== src/Thread/Laws.antt =====
-- What the thread's own code relies on in the object around it, and what each part of ThreadProc does
-- under those laws: to the thread state, and to an observation of the calls that are made.
use libcastis_heartbeat.Prelude.{
  ◌≡◌, refl, ap, subst, ◌∙◌, ◌⊎◌, inl, inr, Bool, true, false, not, if◌then◌else◌, arith,
}
use libcastis_heartbeat.Prelude.Machine.{when, ◌>>=◌, Post, returns, Post->>=, Post-mono}
use libcastis_heartbeat.Thread.{
  ThreadState, done_initinstance, done_run, done_exitinstance, done_exitinstance_error, done,
  done_error, error, Thread, Virtuals, is_done_run, is_done_exitinstance, set_state, set_exit,
  end_thread, read_exit, finish, leave, run_or_leave, start,
}

-- A call leaves the thread's state and handle alone, and does not take back the exit flag.
pub record Keeps (t u : Thread) : Type 0 where
  pub state : u.state ≡ t.state
  pub handle : u.handle ≡ t.handle
  pub exit : t.exit ≡ true → u.exit ≡ true

pub Keeps-trans : {t u w : Thread} → Keeps t u → Keeps u w → Keeps t w
Keeps-trans k l = record {
  state = l.state ∙ k.state;
  handle = l.handle ∙ k.handle;
  exit = λ e. l.exit (k.exit e);
}

-- The calls out of the thread's code.
pub data Call : Type 0 where
  waits inits runs exits posts : Call

-- An observation of the object, and how a call changes it.
pub record Observer (S O : Type 0) : Type 0 where
  pub obs : S → O
  pub emit : Call → O → O

-- `F` is what is known of an overridable that does not return: nothing (`Unit`), or that there is
-- none (`⊥`).
pub record Observed {S O : Type 0} (F : Type 0) (v : Virtuals S) (w : Observer S O) : Type 0 where
  pub thread-set_thread : (t : Thread) (s : S) → v.thread (v.set_thread t s) ≡ t
  pub obs-set_thread : (t : Thread) (s : S) → w.obs (v.set_thread t s) ≡ w.obs s
  pub on_init :
      (s : S)
      → Post F
          (λ _ s'. Keeps (v.thread s) (v.thread s') × (w.obs s' ≡ w.emit inits (w.obs s)))
          (v.init_instance s)
  pub on_run :
      (s : S)
      → Post F
          (λ _ s'. Keeps (v.thread s) (v.thread s') × (w.obs s' ≡ w.emit runs (w.obs s)))
          (v.run s)
  pub on_exit :
      (s : S)
      → Post F
          (λ _ s'. Keeps (v.thread s) (v.thread s') × (w.obs s' ≡ w.emit exits (w.obs s)))
          (v.exit_instance s)
  pub on_wait :
      (s : S)
      → Post F
          (λ _ s'. Keeps (v.thread s) (v.thread s') × (w.obs s' ≡ w.emit waits (w.obs s)))
          (v.sem_wait s)
  pub on_post :
      (s : S)
      → Post F
          (λ _ s'. Keeps (v.thread s) (v.thread s') × (w.obs s' ≡ w.emit posts (w.obs s)))
          (v.sem_post s)
  pub on_others :
      (s : S)
      → Post F (λ _ s'. Keeps (v.thread s) (v.thread s') × (w.obs s' ≡ w.obs s)) (v.others s)

-- CI_THREAD2_DONE after a regular end, CI_THREAD2_DONE_ERROR after any other.
abbrev pub left : ThreadState → ThreadState
left st = if is_done_run st then done else done_error

abbrev finished : ThreadState → ThreadState
finished st = if is_done_exitinstance st then done else done_error

finished-left :
    (st : ThreadState)
    → finished (if is_done_run st then done_exitinstance else done_exitinstance_error) ≡ left st
finished-left st = ground arith

module _ {S O : Type 0} (F : Type 0) (v : Virtuals S) (w : Observer S O)
    (laws : Observed F v w) where
  abbrev pub state_of : S → ThreadState
  state_of s = (v.thread s).state

  -- A write of the thread part, unseen by the observer.
  abbrev pub Writes : Thread → S → S → Type 0
  Writes t s s' = (v.thread s' ≡ t) × (w.obs s' ≡ w.obs s)

  pub set_state-Post :
      (st : ThreadState) (s : S)
      → Post F (λ _ s'. Writes (record (v.thread s) { state = st }) s s') (set_state v st s)
  unfolding set_state
  set_state-Post st s = returns (laws.thread-set_thread _ s, laws.obs-set_thread _ s)

  pub set_exit-Post :
      (b : Bool) (s : S)
      → Post F (λ _ s'. Writes (record (v.thread s) { exit = b }) s s') (set_exit v.access b s)
  unfolding set_exit
  set_exit-Post b s = returns (laws.thread-set_thread _ s, laws.obs-set_thread _ s)

  -- The state that follows, and the observation.
  abbrev pub Goes : ThreadState → O → S → Type 0
  Goes st o s' = (state_of s' ≡ st) × (w.obs s' ≡ o)

  pub finish-Goes :
      (s : S) → Post F (λ _ s'. Goes (finished (state_of s)) (w.obs s) s') (finish v s)
  unfolding finish
  finish-Goes s = Post-mono (set_state-Post _ s) λ _ s' e. (ap (λ (t : Thread). t.state) e.0, e.1)

  pub leave-Goes :
      (s : S) → Post F (λ _ s'. Goes (left (state_of s)) (w.emit exits (w.obs s)) s') (leave v s)
  unfolding leave
  leave-Goes s = Post->>= v.exit_instance _ s (laws.on_exit s) λ b s₁ k.
      Post->>= (set_state v _) _ s₁ (set_state-Post _ s₁) λ _ s₂ e.
        Post-mono (finish-Goes s₂) λ _ s₃ g. (
          g.0
              ∙ ap (λ (t : Thread). finished t.state) e.0
              ∙ finished-left (state_of s₁)
              ∙ ap left k.0.state,
          g.1 ∙ e.1 ∙ k.1,
        )

  when-end_thread :
      (called : Bool) (s : S)
      → Post F
          (λ _ s'. Keeps (v.thread s) (v.thread s') × (w.obs s' ≡ w.obs s))
          (when called (end_thread v.access) s)
  unfolding end_thread
  when-end_thread true s =
      Post-mono (set_exit-Post true s)
        λ _ s' e. (rw e.0 (record { state = refl; handle = refl; exit = λ _. refl }), e.1)
  when-end_thread false s = returns (record { state = refl; handle = refl; exit = λ e. e }, refl)

  pub read_exit-Post :
      (s : S)
      → Post F
          (λ b s'.
            Keeps (v.thread s) (v.thread s') × (w.obs s' ≡ w.obs s) × ((v.thread s').exit ≡ b))
          (read_exit v.access s)
  unfolding read_exit
  read_exit-Post s = Post->>= v.others _ s (laws.on_others s) λ called s₁ k.
      Post->>= (when called (end_thread v.access)) _ s₁ (when-end_thread called s₁)
        λ _ s₂ l. returns (Keeps-trans k.0 l.0, l.1 ∙ k.1, refl)

  -- `Run` has answered: the state stays, or becomes CI_THREAD2_ERROR.
  pub after_run-Goes :
      (ok : Bool) (s : S)
      → Post F
          (λ _ s'. Goes (if ok then state_of s else error) (w.obs s) s')
          (when (not ok) (set_state v error) s)
  after_run-Goes true s = returns (refl, refl)
  after_run-Goes false s =
      Post-mono (set_state-Post error s) λ _ s' e. (ap (λ (t : Thread). t.state) e.0, e.1)

  -- What ThreadProc makes of CI_THREAD2_DONE_INITINSTANCE: Run is called and keeps the state or sets
  -- CI_THREAD2_ERROR, or ExitInstance is called and the thread is done.
  abbrev pub RunsTo : O → S → Type 0
  RunsTo o s' =
      Goes done_initinstance (w.emit runs o) s'
      ⊎ (Goes error (w.emit runs o) s' ⊎ Goes done (w.emit exits o) s')

  run_branch :
      (s : S)
      → state_of s ≡ done_initinstance
      → Post F (λ _ s'. RunsTo (w.obs s) s') ((v.run >>= λ ok. when (not ok) (set_state v error)) s)
  run_branch s e =
      Post->>= v.run _ s (laws.on_run s)
        λ ok s₁ k. Post-mono (after_run-Goes ok s₁) λ _ s₂ g. answer ok s₁ s₂ (k.0.state ∙ e) k.1 g
    where
      answer :
          (ok : Bool) (s₁ s₂ : S)
          → state_of s₁ ≡ done_initinstance
          → w.obs s₁ ≡ w.emit runs (w.obs s)
          → Goes (if ok then state_of s₁ else error) (w.obs s₁) s₂
          → RunsTo (w.obs s) s₂
      answer true s₁ s₂ e₁ o₁ g = inl (g.0 ∙ e₁, g.1 ∙ o₁)
      answer false s₁ s₂ e₁ o₁ g = inr (inl (g.0, g.1 ∙ o₁))

  leave_branch :
      (s : S) → Post F (λ _ s'. RunsTo (w.obs s) s') ((set_state v done_run >>= λ _. leave v) s)
  leave_branch s = Post->>= (set_state v done_run) _ s (set_state-Post done_run s) λ _ s₁ e.
      Post-mono (leave-Goes s₁) λ _ s₂ g.
        inr (inr (g.0 ∙ ap (λ (t : Thread). left t.state) e.0, g.1 ∙ ap (w.emit exits) e.1))

  pub run_or_leave-RunsTo :
      (s : S)
      → state_of s ≡ done_initinstance
      → Post F (λ _ s'. RunsTo (w.obs s) s') (run_or_leave v s)
  unfolding run_or_leave
  run_or_leave-RunsTo s e =
      Post->>= (read_exit v.access) _ s (read_exit-Post s)
        λ b s₁ k. Post-mono (branch b s₁ (k.0.state ∙ e)) λ _ s' r. subst (λ o. RunsTo o s') k.1 r
    where
      branch :
          (b : Bool) (s₁ : S)
          → state_of s₁ ≡ done_initinstance
          → Post F
              (λ _ s'. RunsTo (w.obs s₁) s')
              ((if b
                  then (set_state v done_run >>= λ _. leave v)
                  else (v.run >>= λ ok. when (not ok) (set_state v error)))
                s₁)
      branch true s₁ e₁ = leave_branch s₁
      branch false s₁ e₁ = run_branch s₁ e₁

  -- What ThreadProc makes of CI_THREAD2_READY: InitInstance is called, and it fails or what follows is
  -- as above.
  abbrev pub StartsTo : O → S → Type 0
  StartsTo o s' = Goes error (w.emit inits o) s' ⊎ RunsTo (w.emit inits o) s'

  pub start-StartsTo : (s : S) → Post F (λ _ s'. StartsTo (w.obs s) s') (start v s)
  unfolding start
  start-StartsTo s =
      Post->>= v.init_instance _ s (laws.on_init s) λ ok s₁ k.
        Post-mono (branch ok s₁) λ _ s' r. subst (λ o. Goes error o s' ⊎ RunsTo o s') k.1 r
    where
      branch :
          (ok : Bool) (s₁ : S)
          → Post F
              (λ _ s'. Goes error (w.obs s₁) s' ⊎ RunsTo (w.obs s₁) s')
              ((if ok
                  then (set_state v done_initinstance >>= λ _. run_or_leave v)
                  else set_state v error)
                s₁)
      branch true s₁ = Post->>= (set_state v done_initinstance) _ s₁ (set_state-Post _ s₁) λ _ s₂ e.
          Post-mono (run_or_leave-RunsTo s₂ (ap (λ (t : Thread). t.state) e.0))
            λ _ s₃ r. inr (subst (λ o. RunsTo o s₃) e.1 r)
      branch false s₁ =
          Post-mono (set_state-Post error s₁) λ _ s₂ e. inl (ap (λ (t : Thread). t.state) e.0, e.1)
