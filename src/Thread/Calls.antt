-- ===== src/Thread/Calls.antt =====
-- The order of the calls that a run of the thread makes.
use libcastis_heartbeat.Prelude.{
  ℕ, zero, suc, ◌≡◌, refl, ap, ◌∙◌, inl, inr, Bool, true, false, not, ◌==◌, if◌then◌else◌, List, [],
  ◌∷◌, ◌++◌, replicate, some,
}
use libcastis_heartbeat.Prelude.Machine.{
  M, pure, ◌>>=◌, ◌>>◌, Post, returns, fails, Post->>=, Post-some,
}
use libcastis_heartbeat.Thread.{
  ThreadState, ready, done_initinstance, done_run, done_exitinstance, done_exitinstance_error, done,
  done_error, error, inactive, Thread, Virtuals, invalid_handle, is_thread_done, set_exit,
  set_state, thread_proc, proc_loop, prepare_running, notify_exit, run_thread_here,
}
use libcastis_heartbeat.Thread.Laws.{
  Observed, Call, waits, inits, runs, exits, posts, Keeps, set_exit-Post, set_state-Post,
}
use libcastis_heartbeat.Thread.Edges.{Steps, thread_proc-Steps, ThreadLaws}
use libcastis_heartbeat.Thread.Log.{logged, log_of, logged-laws}

-- After the start and `n` calls of Run.
abbrev pub Running : List Call → Type 0
Running log = (n : ℕ) × (log ≡ replicate n runs ++ inits ∷ waits ∷ [])

-- After ExitInstance.
abbrev pub Exited : List Call → Type 0
Exited log = (rest : List Call) × (log ≡ exits ∷ rest) × Running rest

-- What the log holds in each state that the thread can be in between two calls of ThreadProc.
abbrev Logged : ThreadState → List Call → Type 0
Logged ready log = log ≡ waits ∷ []
Logged done_initinstance log = Running log
Logged error log = Running log
Logged done log = Exited log
Logged done_error log = Exited log
Logged _ log = ⊥

Running-runs : {log : List Call} → Running log → Running (runs ∷ log)
Running-runs (n, e) = (suc n, ap (◌∷◌ runs) e)

Running-inits : {log : List Call} → log ≡ waits ∷ [] → Running (inits ∷ log)
Running-inits e = (0, ap (◌∷◌ inits) e)

Exited-exits : {log : List Call} → Running log → Exited (exits ∷ log)
Exited-exits {log} r = (log, refl, r)

module _ {S : Type 0} (v : Virtuals S) (laws : Observed (Unit {0}) (logged v) (log_of S)) where
  Steps-Logged :
      (st : ThreadState) (log : List Call) (s' : S × List Call)
      → Logged st log
      → Steps (Unit {0}) (logged v) (log_of S) laws st log s'
      → Logged (v.thread s'.0).state s'.1
  Steps-Logged ready log s' h (inl g) = rw (g.0, g.1) (Running-inits h)
  Steps-Logged ready log s' h (inr (inl g)) = rw (g.0, g.1) (Running-runs (Running-inits h))
  Steps-Logged ready log s' h (inr (inr (inl g))) = rw (g.0, g.1) (Running-runs (Running-inits h))
  Steps-Logged ready log s' h (inr (inr (inr g))) = rw (g.0, g.1) (Exited-exits (Running-inits h))
  Steps-Logged done_initinstance log s' h (inl g) = rw (g.0, g.1) (Running-runs h)
  Steps-Logged done_initinstance log s' h (inr (inl g)) = rw (g.0, g.1) (Running-runs h)
  Steps-Logged done_initinstance log s' h (inr (inr g)) = rw (g.0, g.1) (Exited-exits h)
  Steps-Logged error log s' h g = rw (g.0, g.1) (Exited-exits h)
  Steps-Logged done log s' h g = rw (g.0, g.1) h
  Steps-Logged done_error log s' h g = rw (g.0, g.1) h
  Steps-Logged done_run log s' h g = absurd h
  Steps-Logged done_exitinstance log s' h g = absurd h
  Steps-Logged done_exitinstance_error log s' h g = absurd h
  Steps-Logged inactive log s' h g = absurd h

  done-Exited :
      (t : Thread) (log : List Call) → is_thread_done t ≡ true → Logged t.state log → Exited log
  unfolding is_thread_done
  done-Exited t log e h = by_state t.state e h
    where
      by_state :
          (st : ThreadState)
          → elim st [ done ↦ true | done_error ↦ true | _ ↦ false ] ≡ true
          → Logged st log
          → Exited log
      by_state done e h = h
      by_state done_error e h = h
      by_state ready e h = cc
      by_state _ e h = cc

  abbrev Finishes : Unit {0} → S × List Call → Type 0
  Finishes _ s' = (is_thread_done (v.thread s'.0) ≡ true) × Exited s'.1

  -- One round of the loop, given what the remaining rounds do.
  round-Finishes :
      (rest : M (S × List Call) (Unit {0})) (s : S × List Call) (b : Bool)
      → is_thread_done (v.thread s.0) ≡ b
      → Logged (v.thread s.0).state s.1
      → ((s₁ : S × List Call)
          → Logged (v.thread s₁.0).state s₁.1
          → Post (Unit {0}) Finishes (rest s₁))
      → Post
          (Unit {0})
          Finishes
          (elim b [ true ↦ some (tt, s) | false ↦ (thread_proc (logged v) >>= λ _. rest) s ])
  round-Finishes rest s true e h next = returns (e, done-Exited (v.thread s.0) s.1 e h)
  round-Finishes rest s false e h next =
      Post->>= (thread_proc (logged v)) _ s
        (thread_proc-Steps (Unit {0}) (logged v) (log_of S) laws s)
        λ _ s₁ g. next s₁ (Steps-Logged (v.thread s.0).state s.1 s₁ h g)

  proc_loop-Finishes :
      (fuel : ℕ) (s : S × List Call)
      → Logged (v.thread s.0).state s.1
      → Post (Unit {0}) Finishes (proc_loop (logged v) fuel s)
  unfolding proc_loop
  proc_loop-Finishes zero s h = fails tt
  proc_loop-Finishes (suc fuel) s h =
      round-Finishes (proc_loop (logged v) fuel) s (is_thread_done (v.thread s.0)) refl h
        (proc_loop-Finishes fuel)

  -- PrepareRunning leaves a thread that is ready, with the semaphore taken.
  prepare_running-Logged :
      (s : S × List Call)
      → s.1 ≡ []
      → Post
          (Unit {0})
          (λ b s'. (b ≡ true) × Logged (v.thread s'.0).state s'.1)
          (prepare_running (logged v) s)
  unfolding prepare_running
  prepare_running-Logged s h =
      Post->>= (set_exit (logged v).access false) _ s
        (set_exit-Post (Unit {0}) (logged v) (log_of S) laws false s)
        λ _ s₁ e₁.
          Post->>= (set_state (logged v) ready) _ s₁
            (set_state-Post (Unit {0}) (logged v) (log_of S) laws ready s₁)
            λ _ s₂ e₂. Post->>= (logged v).sem_wait _ s₂ (laws.on_wait s₂) λ _ s₃ k. returns (
              refl,
              is_ready s₃ (k.0.state ∙ ap (λ (t : Thread). t.state) e₂.0)
                  (k.1 ∙ ap (◌∷◌ waits) (e₂.1 ∙ e₁.1 ∙ h)),
            )
    where
      is_ready :
          (s' : S × List Call)
          → (v.thread s'.0).state ≡ ready
          → s'.1 ≡ waits ∷ []
          → Logged (v.thread s'.0).state s'.1
      is_ready s' e h = rw e h

  -- A run that took place: the thread is done, and the semaphore is given back last.
  abbrev Ran : Bool → S × List Call → Type 0
  Ran b s' =
      b ≡ true
      → (is_thread_done (v.thread s'.0) ≡ true)
        × (rest : List Call) × (s'.1 ≡ posts ∷ rest)
        × Exited rest

  done-same : (t u : Thread) → u.state ≡ t.state → is_thread_done t ≡ true → is_thread_done u ≡ true
  unfolding is_thread_done
  done-same t u e h = rw e h

  run_loop : ℕ → M (S × List Call) Bool
  run_loop fuel = do proc_loop (logged v) fuel; notify_exit (logged v); pure true

  notify_exit-Post :
      (s : S × List Call)
      → Post
          (Unit {0})
          (λ _ s'. Keeps (v.thread s.0) (v.thread s'.0) × (s'.1 ≡ posts ∷ s.1))
          (notify_exit (logged v) s)
  unfolding notify_exit
  notify_exit-Post s = Post->>= (logged v).sem_post _ s (laws.on_post s) λ _ s' k. returns k

  run_loop-Ran :
      (fuel : ℕ) (s : S × List Call)
      → Logged (v.thread s.0).state s.1
      → Post (Unit {0}) Ran (run_loop fuel s)
  unfolding run_loop
  run_loop-Ran fuel s h =
      Post->>= (proc_loop (logged v) fuel) _ s (proc_loop-Finishes fuel s h) λ _ s₁ f.
        Post->>= (notify_exit (logged v)) _ s₁ (notify_exit-Post s₁) λ _ s₂ k.
          returns (λ _. (done-same (v.thread s₁.0) (v.thread s₂.0) k.0.state f.0, s₁.1, k.1, f.1))

  prepared-Ran :
      (fuel : ℕ) (prepared : Bool) (s : S × List Call)
      → (prepared ≡ true) × Logged (v.thread s.0).state s.1
      → Post (Unit {0}) Ran (
          (if not prepared then (do set_exit (logged v).access true; pure false) else run_loop fuel)
            s)
  prepared-Ran fuel true s h = run_loop-Ran fuel s h.1
  prepared-Ran fuel false s h = cc

  run_thread_here-Ran :
      (fuel : ℕ) (s : S × List Call)
      → s.1 ≡ []
      → Post (Unit {0}) Ran (run_thread_here (logged v) fuel s)
  unfolding run_thread_here run_loop
  run_thread_here-Ran fuel s h = by_handle ((v.thread s.0).handle == invalid_handle)
    where
      by_handle :
          (b : Bool)
          → Post (Unit {0}) Ran (
              (if not b then pure false else (do
                prepared ← prepare_running (logged v)
                if not prepared
                    then (do set_exit (logged v).access true; pure false)
                    else run_loop fuel))
                s)
      by_handle true =
          Post->>= (prepare_running (logged v)) _ s (prepare_running-Logged s h)
            λ b s₁ p. prepared-Ran fuel b s₁ p
      by_handle false = returns (λ e. cc)

-- When RunThreadHere answers true, the thread is done, and the calls that it made are, in order: one
-- wait for the exit semaphore, one InitInstance, some number of Run, one ExitInstance and one post of
-- the semaphore (the log holds the latest first). So it is also when InitInstance fails or Run fails,
-- whatever the overridables answer and whenever another thread calls EndThread.
pub run_thread_here-calls :
    {S : Type 0} (v : Virtuals S)
    → ThreadLaws (Unit {0}) v
    → (fuel : ℕ) (s s' : S) (log : List Call)
    → run_thread_here (logged v) fuel (s, []) ≡ some (true, (s', log))
    → (is_thread_done (v.thread s') ≡ true)
      × (n : ℕ) × (log ≡ posts ∷ exits ∷ (replicate n runs ++ inits ∷ waits ∷ []))
run_thread_here-calls v laws fuel s s' log e =
    let ran =
      Post-some (rw e at (run_thread_here-Ran v (logged-laws v laws) fuel (s, []) refl)) refl in
    let exited : Exited ran.1 = ran.3 in
    let running : Running exited.0 = exited.2 in
    (ran.0, running.0, ran.2 ∙ ap (◌∷◌ posts) (exited.1 ∙ ap (◌∷◌ exits) running.1))
