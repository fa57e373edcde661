-- ===== src/Thread/Edges.antt =====
-- The diagram of CiThread2State_t: which state ThreadProc leaves the thread in.
use libcastis_heartbeat.Prelude.{◌≡◌, refl, inl, inr, some}
use libcastis_heartbeat.Prelude.Machine.{Post, returns, Post-mono, Post-some}
use libcastis_heartbeat.Thread.{
  ThreadState, ready, done_initinstance, done_run, done_exitinstance, done_exitinstance_error, done,
  done_error, error, inactive, Virtuals, dispatch, thread_proc,
}
use libcastis_heartbeat.Thread.Laws.{
  Observer, Observed, exits, left, Goes, RunsTo, StartsTo, leave-Goes, finish-Goes,
  run_or_leave-RunsTo, start-StartsTo,
}

module _ {S O : Type 0} (F : Type 0) (v : Virtuals S) (w : Observer S O)
    (laws : Observed F v w) where
  -- The state, and the observation, that ThreadProc leads to from each state.
  abbrev pub Steps : ThreadState → O → S → Type 0
  Steps ready o s' = StartsTo F v w laws o s'
  Steps done_initinstance o s' = RunsTo F v w laws o s'
  Steps done_exitinstance o s' = Goes F v w laws done o s'
  Steps done_exitinstance_error o s' = Goes F v w laws done_error o s'
  Steps done o s' = Goes F v w laws done o s'
  Steps done_error o s' = Goes F v w laws done_error o s'
  Steps st o s' = Goes F v w laws (left st) (w.emit exits o) s'

  pub dispatch-Steps :
      (st : ThreadState) (s : S)
      → (v.thread s).state ≡ st
      → Post F (λ _ s'. Steps st (w.obs s) s') (dispatch v st s)
  unfolding dispatch
  dispatch-Steps ready s e = start-StartsTo F v w laws s
  dispatch-Steps done_initinstance s e = run_or_leave-RunsTo F v w laws s e
  dispatch-Steps done_exitinstance s e =
      Post-mono (finish-Goes F v w laws s) λ _ s' g. (rw e at g.0, g.1)
  dispatch-Steps done_exitinstance_error s e =
      Post-mono (finish-Goes F v w laws s) λ _ s' g. (rw e at g.0, g.1)
  dispatch-Steps done s e = returns (e, refl)
  dispatch-Steps done_error s e = returns (e, refl)
  dispatch-Steps _ s e = Post-mono (leave-Goes F v w laws s) λ _ s' g. (rw e at g.0, g.1)

  pub thread_proc-Steps :
      (s : S) → Post F (λ _ s'. Steps (v.thread s).state (w.obs s) s') (thread_proc v s)
  unfolding thread_proc
  thread_proc-Steps s = dispatch-Steps (v.thread s).state s refl

-- The edges of the diagram.
pub data Edge : ThreadState → ThreadState → Type 0 where
  initialised : Edge ready done_initinstance
  init_failed : Edge ready error
  ended_at_once : Edge ready done
  ran : Edge done_initinstance done_initinstance
  run_failed : Edge done_initinstance error
  ended : Edge done_initinstance done
  cleaned_up : Edge done_run done
  recovered : Edge error done_error
  retired : Edge inactive done_error
  closed : Edge done_exitinstance done
  closed_error : Edge done_exitinstance_error done_error
  stays : Edge done done
  stays_error : Edge done_error done_error

-- Nothing is observed.
abbrev pub unseen : (S : Type 0) → Observer S (Unit {0})
unseen S = record { obs = λ _. tt; emit = λ _ _. tt }

-- What the object around the thread must promise.
abbrev pub ThreadLaws : {S : Type 0} → Type 0 → Virtuals S → Type 0
ThreadLaws {S} F v = Observed F v (unseen S)

module _ {S : Type 0} (F : Type 0) (v : Virtuals S) (laws : ThreadLaws F v) where
  Steps-Edge :
      (st : ThreadState) (s' : S) → Steps F v (unseen S) laws st tt s' → Edge st (v.thread s').state
  Steps-Edge ready s' (inl g) = rw g.0 init_failed
  Steps-Edge ready s' (inr (inl g)) = rw g.0 initialised
  Steps-Edge ready s' (inr (inr (inl g))) = rw g.0 init_failed
  Steps-Edge ready s' (inr (inr (inr g))) = rw g.0 ended_at_once
  Steps-Edge done_initinstance s' (inl g) = rw g.0 ran
  Steps-Edge done_initinstance s' (inr (inl g)) = rw g.0 run_failed
  Steps-Edge done_initinstance s' (inr (inr g)) = rw g.0 ended
  Steps-Edge done_run s' g = rw g.0 cleaned_up
  Steps-Edge error s' g = rw g.0 recovered
  Steps-Edge inactive s' g = rw g.0 retired
  Steps-Edge done_exitinstance s' g = rw g.0 closed
  Steps-Edge done_exitinstance_error s' g = rw g.0 closed_error
  Steps-Edge done s' g = rw g.0 stays
  Steps-Edge done_error s' g = rw g.0 stays_error

  -- Each call of ThreadProc that returns takes the thread along one edge of the diagram, whatever the
  -- overridables answer and whenever another thread calls EndThread, provided that the overridables leave
  -- the thread's own state and handle alone and do not take back the exit flag.
  pub thread_proc-Edge :
      (s s' : S) → thread_proc v s ≡ some (tt, s') → Edge (v.thread s).state (v.thread s').state
  thread_proc-Edge s s' e =
      Steps-Edge (v.thread s).state s'
        (Post-some (rw e at (thread_proc-Steps F v (unseen S) laws s)))
