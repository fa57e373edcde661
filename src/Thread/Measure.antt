-- ===== src/Thread/Measure.antt =====
-- How many calls of ThreadProc are left while another thread may call EndThread.
use libcastis_heartbeat.Prelude.{
  ℕ, ◌+◌, ◌≤◌, ◌<◌, ◌≡◌, refl, ◌≢◌, inl, inr, Bool, true, false, if◌then◌else◌, arith,
}
use libcastis_heartbeat.Prelude.Machine.{◌>>=◌, Post, Post->>=, Post-mono, Post-with}
use libcastis_heartbeat.Thread.{
  ThreadState, ready, done_initinstance, done_run, done_exitinstance, done_exitinstance_error, done,
  done_error, error, inactive, Thread, Virtuals, is_thread_done, set_state, run_or_leave, start,
  dispatch, thread_proc,
}
use libcastis_heartbeat.Thread.Laws.{RunsTo, run_or_leave-RunsTo}
use libcastis_heartbeat.Thread.Edges.{dispatch-Steps, unseen}
use libcastis_heartbeat.Thread.Patience.{
  Patient, Nearer, set_state-known, finish-Inv, leave-Inv, run_or_leave-Nearer,
}

module _ {S : Type 0} (v : Virtuals S) (patience : S → ℕ) (Inv : S → Type 0)
    (h : Patient v patience Inv) where
  -- How many calls of ThreadProc are left at most.
  abbrev pub measure : ThreadState → ℕ → ℕ
  measure ready p = p + 2
  measure done_initinstance p = p + 1
  measure done p = 0
  measure done_error p = 0
  measure _ p = 1

  abbrev pub left_of : S → ℕ
  left_of s = measure (v.thread s).state (patience s)

  Nearer-less :
      (s s' : S)
      → RunsTo (Unit {0}) v (unseen S) h.laws tt s'
      → Nearer v patience Inv h s s'
      → left_of s' < patience s + 1
  Nearer-less s s' (inl g) (_, inl e) = cc (g.0, e)
  Nearer-less s s' (inl g) (_, inr lt) = rw g.0 (omega arith)
  Nearer-less s s' (inr (inl g)) (_, inl e) = cc (g.0, e)
  Nearer-less s s' (inr (inl g)) (_, inr lt) = rw g.0 (omega arith)
  Nearer-less s s' (inr (inr g)) n = rw g.0 (omega arith)

  -- An outcome with the invariant and fewer calls left than `n`.
  abbrev Fewer : ℕ → S → Type 0
  Fewer n s' = Inv s' × (left_of s' < n)

  run_or_leave-less :
      (s : S)
      → Inv s
      → (v.thread s).state ≡ done_initinstance
      → Post ⊥ (λ _ s'. Fewer (patience s + 1) s') (run_or_leave v s)
  run_or_leave-less s p e =
      Post-mono
        (Post-with (run_or_leave-RunsTo (Unit {0}) v (unseen S) h.laws s e)
          (run_or_leave-Nearer v patience Inv h s p))
        λ _ s' g. (g.1.0, Nearer-less s s' g.0 g.1)

  start-less : (s : S) → Inv s → Post ⊥ (λ _ s'. Fewer (patience s + 2) s') (start v s)
  unfolding start
  start-less s p = Post->>= v.init_instance _ s (h.at_init s p) λ ok s₁ (q, le). branch ok s₁ q le
    where
      branch :
          (ok : Bool) (s₁ : S)
          → Inv s₁
          → patience s₁ ≤ patience s
          → Post ⊥
              (λ _ s'. Fewer (patience s + 2) s')
              ((if ok
                  then (set_state v done_initinstance >>= λ _. run_or_leave v)
                  else set_state v error)
                s₁)
      branch true s₁ p le =
          Post->>= (set_state v done_initinstance) _ s₁
            (set_state-known v patience Inv h done_initinstance s₁ p)
            λ _ s₂ (e, q, same).
              Post-mono (run_or_leave-less s₂ q e) λ _ s₃ (r, lt). (r, omega (arith, same))
      branch false s₁ p le =
          Post-mono (set_state-known v patience Inv h error s₁ p)
            λ _ s₂ (e, q, _). (q, rw e (omega arith))

  dispatch-less :
      (st : ThreadState) (s : S)
      → Inv s
      → (v.thread s).state ≡ st
      → st ≢ done
      → st ≢ done_error
      → Post ⊥ (λ _ s'. Fewer (measure st (patience s)) s') (dispatch v st s)
  unfolding dispatch
  dispatch-less ready s p e _ _ = start-less s p
  dispatch-less done_initinstance s p e _ _ = run_or_leave-less s p e
  dispatch-less done s p e d _ = absurd (d refl)
  dispatch-less done_error s p e _ d = absurd (d refl)
  dispatch-less done_run s p e _ _ =
      Post-mono
        (Post-with (dispatch-Steps (Unit {0}) v (unseen S) h.laws done_run s e)
          (leave-Inv v patience Inv h s p))
        λ _ s' (g, q). (q, rw g.0 (omega arith))
  dispatch-less done_exitinstance s p e _ _ =
      Post-mono
        (Post-with (dispatch-Steps (Unit {0}) v (unseen S) h.laws done_exitinstance s e)
          (finish-Inv v patience Inv h s p))
        λ _ s' (g, q). (q, rw g.0 (omega arith))
  dispatch-less done_exitinstance_error s p e _ _ =
      Post-mono
        (Post-with (dispatch-Steps (Unit {0}) v (unseen S) h.laws done_exitinstance_error s e)
          (finish-Inv v patience Inv h s p))
        λ _ s' (g, q). (q, rw g.0 (omega arith))
  dispatch-less error s p e _ _ =
      Post-mono
        (Post-with (dispatch-Steps (Unit {0}) v (unseen S) h.laws error s e)
          (leave-Inv v patience Inv h s p))
        λ _ s' (g, q). (q, rw g.0 (omega arith))
  dispatch-less inactive s p e _ _ =
      Post-mono
        (Post-with (dispatch-Steps (Unit {0}) v (unseen S) h.laws inactive s e)
          (leave-Inv v patience Inv h s p))
        λ _ s' (g, q). (q, rw g.0 (omega arith))

  not_done : (t : Thread) → is_thread_done t ≡ false → (t.state ≢ done) × (t.state ≢ done_error)
  unfolding is_thread_done
  not_done t e = (λ d. cc (rw d at e), λ d. cc (rw d at e))

  pub thread_proc-less :
      (s : S)
      → Inv s
      → is_thread_done (v.thread s) ≡ false
      → Post ⊥ (λ _ s'. Fewer (left_of s) s') (thread_proc v s)
  unfolding thread_proc
  thread_proc-less s p e =
      dispatch-less (v.thread s).state s p refl (not_done (v.thread s) e).0
        (not_done (v.thread s) e).1
