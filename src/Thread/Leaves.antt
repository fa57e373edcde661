-- ===== src/Thread/Leaves.antt =====
-- What ExitInstance establishes still holds when a run of the thread is over.
use libcastis_heartbeat.Prelude.{
  ℕ, zero, suc, ◌≡◌, refl, ap, ◌∙◌, Bool, true, false, not, ◌==◌, if◌then◌else◌, some,
}
use libcastis_heartbeat.Prelude.Machine.{
  M, pure, when, ◌>>=◌, ◌>>◌, Post, returns, fails, Post->>=, Post-mono, Post-both, Post-some,
}
use libcastis_heartbeat.Thread.{
  ThreadState, ready, done_initinstance, done_run, done_exitinstance, done_exitinstance_error, done,
  done_error, error, inactive, Thread, Virtuals, invalid_handle, is_thread_done, set_exit,
  set_state, read_exit, finish, leave, run_or_leave, start, dispatch, thread_proc, proc_loop,
  prepare_running, notify_exit, run_thread_here,
}
use libcastis_heartbeat.Thread.Laws.{
  left, set_exit-Post, set_state-Post, read_exit-Post, after_run-Goes, leave-Goes,
}
use libcastis_heartbeat.Thread.Edges.{ThreadLaws, unseen}

-- `P` holds after ExitInstance, and what the thread does after that does not break it.
pub record Leaves {S : Type 0} (v : Virtuals S) (P : S → Type 0) : Type 0 where
  pub at_exit : (s : S) → Post (Unit {0}) (λ _ s'. P s') (v.exit_instance s)
  pub at_set : (t : Thread) (s : S) → P s → P (v.set_thread t s)
  pub at_post : (s : S) → P s → Post (Unit {0}) (λ _ s'. P s') (v.sem_post s)

module _ {S : Type 0} (v : Virtuals S) (laws : ThreadLaws (Unit {0}) v) (P : S → Type 0)
    (h : Leaves v P) where
  -- What is known in each state that the thread can be in between two calls of ThreadProc.
  abbrev Held : ThreadState → S → Type 0
  Held ready s = Unit
  Held done_initinstance s = Unit
  Held error s = Unit
  Held done s = P s
  Held done_error s = P s
  Held _ s = ⊥

  -- An outcome in which it is known.
  abbrev Holds : {A : Type 0} → A → S → Type 0
  Holds _ s' = Held (v.thread s').state s'

  leave-P : (s : S) → Post (Unit {0}) (λ _ s'. P s') (leave v s)
  unfolding leave finish set_state
  leave-P s =
      Post->>= v.exit_instance _ s (h.at_exit s) λ _ s₁ p. returns (h.at_set _ _ (h.at_set _ _ p))

  left-Held : (st : ThreadState) (s : S) → P s → Held (left st) s
  left-Held done_run s p = p
  left-Held _ s p = p

  leave-Held : (s : S) → Post (Unit {0}) Holds (leave v s)
  leave-Held s =
      Post-mono (Post-both (leave-P s) (leave-Goes (Unit {0}) v (unseen S) laws s))
        λ _ s' r. rw r.1.0 (left-Held (v.thread s).state s' r.0)

  after_run-Held :
      (ok : Bool) (s s' : S)
      → (v.thread s).state ≡ done_initinstance
      → (v.thread s').state ≡ (if ok then (v.thread s).state else error)
      → Held (v.thread s').state s'
  after_run-Held true s s' e g = rw (g ∙ e) tt
  after_run-Held false s s' e g = rw g tt

  read-Held :
      (b : Bool) (s : S)
      → (v.thread s).state ≡ done_initinstance
      → Post (Unit {0}) Holds (
          (if b
              then (set_state v done_run >>= λ _. leave v)
              else (v.run >>= λ ok. when (not ok) (set_state v error)))
            s)
  read-Held true s e =
      Post->>= (set_state v done_run) _ s (set_state-Post (Unit {0}) v (unseen S) laws done_run s)
        λ _ s₁ _. leave-Held s₁
  read-Held false s e = Post->>= v.run _ s (laws.on_run s) λ ok s₁ k.
      Post-mono (after_run-Goes (Unit {0}) v (unseen S) laws ok s₁)
        λ _ s₂ g. after_run-Held ok s₁ s₂ (k.0.state ∙ e) g.0

  run_or_leave-Held :
      (s : S) → (v.thread s).state ≡ done_initinstance → Post (Unit {0}) Holds (run_or_leave v s)
  unfolding run_or_leave
  run_or_leave-Held s e =
      Post->>= (read_exit v.access) _ s (read_exit-Post (Unit {0}) v (unseen S) laws s)
        λ b s₁ k. read-Held b s₁ (k.0.state ∙ e)

  started-Held :
      (ok : Bool) (s : S)
      → Post (Unit {0}) Holds (
          (if ok
              then (set_state v done_initinstance >>= λ _. run_or_leave v)
              else set_state v error)
            s)
  started-Held true s =
      Post->>= (set_state v done_initinstance) _ s
        (set_state-Post (Unit {0}) v (unseen S) laws done_initinstance s)
        λ _ s₁ e. run_or_leave-Held s₁ (ap (λ (t : Thread). t.state) e.0)
  started-Held false s =
      Post-mono (set_state-Post (Unit {0}) v (unseen S) laws error s)
        λ _ s₁ e. rw (ap (λ (t : Thread). t.state) e.0) tt

  dispatch-Held :
      (st : ThreadState) (s : S)
      → (v.thread s).state ≡ st
      → Held st s
      → Post (Unit {0}) Holds (dispatch v st s)
  unfolding dispatch start
  dispatch-Held ready s e p =
      Post->>= v.init_instance _ s (laws.on_init s) λ ok s₁ k. started-Held ok s₁
  dispatch-Held done_initinstance s e p = run_or_leave-Held s e
  dispatch-Held error s e p = leave-Held s
  dispatch-Held done s e p = returns (rw e p)
  dispatch-Held done_error s e p = returns (rw e p)
  dispatch-Held done_run s e p = absurd p
  dispatch-Held done_exitinstance s e p = absurd p
  dispatch-Held done_exitinstance_error s e p = absurd p
  dispatch-Held inactive s e p = absurd p

  thread_proc-Held : (s : S) → Held (v.thread s).state s → Post (Unit {0}) Holds (thread_proc v s)
  unfolding thread_proc
  thread_proc-Held s p = dispatch-Held (v.thread s).state s refl p

  done-P :
      (st : ThreadState) (s : S)
      → elim st [ done ↦ true | done_error ↦ true | _ ↦ false ] ≡ true
      → Held st s
      → P s
  done-P done s e p = p
  done-P done_error s e p = p
  done-P ready s e p = cc
  done-P _ s e p = cc

  round-P :
      (rest : M S (Unit {0})) (s : S) (b : Bool)
      → is_thread_done (v.thread s) ≡ b
      → Held (v.thread s).state s
      → ((s₁ : S) → Held (v.thread s₁).state s₁ → Post (Unit {0}) (λ _ s'. P s') (rest s₁))
      → Post
          (Unit {0})
          (λ _ s'. P s')
          (elim b [ true ↦ some (tt, s) | false ↦ (thread_proc v >>= λ _. rest) s ])
  unfolding is_thread_done
  round-P rest s true e p next = returns (done-P (v.thread s).state s e p)
  round-P rest s false e p next =
      Post->>= (thread_proc v) _ s (thread_proc-Held s p) λ _ s₁ q. next s₁ q

  proc_loop-P :
      (fuel : ℕ) (s : S)
      → Held (v.thread s).state s
      → Post (Unit {0}) (λ _ s'. P s') (proc_loop v fuel s)
  unfolding proc_loop
  proc_loop-P zero s p = fails tt
  proc_loop-P (suc fuel) s p =
      round-P (proc_loop v fuel) s (is_thread_done (v.thread s)) refl p (proc_loop-P fuel)

  notify_exit-P : (s : S) → P s → Post (Unit {0}) (λ _ s'. P s') (notify_exit v s)
  unfolding notify_exit
  notify_exit-P s p = Post->>= v.sem_post _ s (h.at_post s p) λ _ s₁ q. returns q

  prepare_running-ready :
      (s : S)
      → Post (Unit {0}) (λ b s'. (b ≡ true) × ((v.thread s').state ≡ ready)) (prepare_running v s)
  unfolding prepare_running
  prepare_running-ready s =
      Post->>= (set_exit v.access false) _ s (set_exit-Post (Unit {0}) v (unseen S) laws false s)
        λ _ s₁ _.
          Post->>= (set_state v ready) _ s₁ (set_state-Post (Unit {0}) v (unseen S) laws ready s₁)
            λ _ s₂ e.
              Post->>= v.sem_wait _ s₂ (laws.on_wait s₂)
                λ _ s₃ k. returns (refl, k.0.state ∙ ap (λ (t : Thread). t.state) e.0)

  run_loop : ℕ → M S Bool
  run_loop fuel = do proc_loop v fuel; notify_exit v; pure true

  prepared-P :
      (fuel : ℕ) (prepared : Bool) (s : S)
      → (prepared ≡ true) × ((v.thread s).state ≡ ready)
      → Post
          (Unit {0})
          (λ b s'. b ≡ true → P s')
          ((if not prepared then (do set_exit v.access true; pure false) else run_loop fuel) s)
  unfolding run_loop
  prepared-P fuel true s r =
      Post->>= (proc_loop v fuel) _ s (proc_loop-P fuel s (rw r.1 tt))
        λ _ s₁ p. Post->>= (notify_exit v) _ s₁ (notify_exit-P s₁ p) λ _ s₂ q. returns (λ _. q)
  prepared-P fuel false s r = cc

  by_handle :
      (fuel : ℕ) (b : Bool) (s : S)
      → Post
          (Unit {0})
          (λ b s'. b ≡ true → P s')
          ((if not b then pure false else (do
            prepared ← prepare_running v
            if not prepared then (do set_exit v.access true; pure false) else run_loop fuel))
            s)
  by_handle fuel true s =
      Post->>= (prepare_running v) _ s (prepare_running-ready s)
        λ prepared s₁ r. prepared-P fuel prepared s₁ r
  by_handle fuel false s = returns (λ e. cc)

  run_thread_here-Post :
      (fuel : ℕ) (s : S) → Post (Unit {0}) (λ b s'. b ≡ true → P s') (run_thread_here v fuel s)
  unfolding run_thread_here run_loop
  run_thread_here-Post fuel s = by_handle fuel ((v.thread s).handle == invalid_handle) s

  pub run_thread_here-leaves :
      (fuel : ℕ) (s s' : S) → run_thread_here v fuel s ≡ some (true, s') → P s'
  run_thread_here-leaves fuel s s' e = Post-some (rw e at (run_thread_here-Post fuel s)) refl
