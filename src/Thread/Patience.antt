-- ===== src/Thread/Patience.antt =====
-- What the rounds of ThreadProc use up while another thread may call EndThread.
use libcastis_heartbeat.Prelude.{
  ℕ, ◌≤◌, ◌<◌, ◌≡◌, ap, ◌∙◌, ◌⊎◌, inl, inr, Bool, true, false, not, if◌then◌else◌, arith,
}
use libcastis_heartbeat.Prelude.Machine.{when, ◌>>=◌, Post, returns, Post->>=, Post-mono, Post-with}
use libcastis_heartbeat.Thread.{
  ThreadState, done_run, done, error, Thread, Virtuals, set_exit, set_state, end_thread, read_exit,
  finish, leave, run_or_leave,
}
use libcastis_heartbeat.Thread.Laws.{set_exit-Post, set_state-Post, leave-Goes, left}
use libcastis_heartbeat.Thread.Edges.{ThreadLaws, unseen}

-- The overridables return from the objects with `Inv`, which they keep, and the other threads call
-- EndThread in the end: each read of the exit flag finds it called or uses up some patience, which
-- nothing gives back.
pub record Patient {S : Type 0} (v : Virtuals S) (patience : S → ℕ) (Inv : S → Type 0)
    : Type 0 where
  pub laws : ThreadLaws (Unit {0}) v
  pub at_set_thread : (t : Thread) (s : S) → patience (v.set_thread t s) ≡ patience s
  pub Inv-set_thread : (t : Thread) (s : S) → Inv s → Inv (v.set_thread t s)
  pub at_init :
      (s : S) → Inv s → Post ⊥ (λ _ s'. Inv s' × (patience s' ≤ patience s)) (v.init_instance s)
  pub at_run : (s : S) → Inv s → Post ⊥ (λ _ s'. Inv s' × (patience s' ≤ patience s)) (v.run s)
  pub at_exit : (s : S) → Inv s → Post ⊥ (λ _ s'. Inv s') (v.exit_instance s)
  pub at_wait :
      (s : S) → Inv s → Post ⊥ (λ _ s'. Inv s' × (patience s' ≤ patience s)) (v.sem_wait s)
  pub at_post : (s : S) → Inv s → Post ⊥ (λ _ s'. Inv s') (v.sem_post s)
  pub at_others :
      (s : S)
      → Inv s
      → Post ⊥ (λ called s'. Inv s' × ((called ≡ true) ⊎ (patience s' < patience s))) (v.others s)

module _ {S : Type 0} (v : Virtuals S) (patience : S → ℕ) (Inv : S → Type 0)
    (h : Patient v patience Inv) where
  pub set_state-patience :
      (st : ThreadState) (s : S)
      → Inv s
      → Post ⊥ (λ _ s'. Inv s' × (patience s' ≡ patience s)) (set_state v st s)
  unfolding set_state
  set_state-patience st s p = returns (h.Inv-set_thread _ s p, h.at_set_thread _ s)

  pub set_exit-patience :
      (b : Bool) (s : S)
      → Inv s
      → Post ⊥ (λ _ s'. Inv s' × (patience s' ≡ patience s)) (set_exit v.access b s)
  unfolding set_exit
  set_exit-patience b s p = returns (h.Inv-set_thread _ s p, h.at_set_thread _ s)

  -- What set_state leaves of the object.
  pub set_state-known :
      (st : ThreadState) (s : S)
      → Inv s
      → Post ⊥
          (λ _ s'. ((v.thread s').state ≡ st) × Inv s' × (patience s' ≡ patience s))
          (set_state v st s)
  set_state-known st s p =
      Post-mono
        (Post-with (set_state-Post (Unit {0}) v (unseen S) h.laws st s) (set_state-patience st s p))
        λ _ s' e. (ap (λ (t : Thread). t.state) e.0.0, e.1.0, e.1.1)

  pub finish-Inv : (s : S) → Inv s → Post ⊥ (λ _ s'. Inv s') (finish v s)
  unfolding finish set_state
  finish-Inv s p = returns (h.Inv-set_thread _ s p)

  pub leave-Inv : (s : S) → Inv s → Post ⊥ (λ _ s'. Inv s') (leave v s)
  unfolding leave set_state
  leave-Inv s p =
      Post->>= v.exit_instance _ s (h.at_exit s p) λ _ s₁ q. finish-Inv _ (h.Inv-set_thread _ s₁ q)

  abbrev Found : Bool → S → S → Type 0
  Found called s s' = Inv s' × ((called ≡ true) ⊎ (patience s' < patience s))

  when-Found :
      (called : Bool) (s s₁ : S)
      → Found called s s₁
      → Post ⊥ (λ _ s'. Found (v.thread s').exit s s') (when called (end_thread v.access) s₁)
  unfolding end_thread
  when-Found true s s₁ (p, f) =
      Post-mono
        (Post-with (set_exit-Post (Unit {0}) v (unseen S) h.laws true s₁)
          (set_exit-patience true s₁ p))
        λ _ s' e. (e.1.0, inl (ap (λ (t : Thread). t.exit) e.0.0))
  when-Found false s s₁ (p, inl e) = cc
  when-Found false s s₁ (p, inr lt) = returns (p, inr lt)

  read_exit-Found : (s : S) → Inv s → Post ⊥ (λ b s'. Found b s s') (read_exit v.access s)
  unfolding read_exit
  read_exit-Found s p = Post->>= v.others _ s (h.at_others s p) λ called s₁ f.
      Post->>= (when called (end_thread v.access)) _ s₁ (when-Found called s s₁ f)
        λ _ s₂ g. returns g

  -- The thread is done, or patience was used up.
  abbrev pub Nearer : S → S → Type 0
  Nearer s s' = Inv s' × (((v.thread s').state ≡ done) ⊎ (patience s' < patience s))

  run_branch-Nearer :
      (s s₁ : S)
      → Inv s₁
      → patience s₁ < patience s
      → Post ⊥ (λ _ s'. Nearer s s') ((v.run >>= λ ok. when (not ok) (set_state v error)) s₁)
  run_branch-Nearer s s₁ p lt =
      Post->>= v.run _ s₁ (h.at_run s₁ p) λ ok s₂ (q, le). answer ok s₂ q le
    where
      answer :
          (ok : Bool) (s₂ : S)
          → Inv s₂
          → patience s₂ ≤ patience s₁
          → Post ⊥ (λ _ s'. Nearer s s') (when (not ok) (set_state v error) s₂)
      answer true s₂ q le = returns (q, inr (omega arith))
      answer false s₂ q le =
          Post-mono (set_state-patience error s₂ q) λ _ s₃ (r, e). (r, inr (omega arith))

  leave_branch-Nearer :
      (s s₁ : S)
      → Inv s₁
      → Post ⊥ (λ _ s'. Nearer s s') ((set_state v done_run >>= λ _. leave v) s₁)
  leave_branch-Nearer s s₁ p =
      Post->>= (set_state v done_run) _ s₁ (set_state-known done_run s₁ p) λ _ s₂ (e, q, _).
        Post-mono (Post-with (leave-Goes (Unit {0}) v (unseen S) h.laws s₂) (leave-Inv s₂ q))
          λ _ s₃ (g, r). (r, inl (g.0 ∙ ap left e))

  pub run_or_leave-Nearer : (s : S) → Inv s → Post ⊥ (λ _ s'. Nearer s s') (run_or_leave v s)
  unfolding run_or_leave
  run_or_leave-Nearer s p =
      Post->>= (read_exit v.access) _ s (read_exit-Found s p) λ b s₁ f. branch b s₁ f
    where
      branch :
          (b : Bool) (s₁ : S)
          → Found b s s₁
          → Post ⊥
              (λ _ s'. Nearer s s')
              ((if b
                  then (set_state v done_run >>= λ _. leave v)
                  else (v.run >>= λ ok. when (not ok) (set_state v error)))
                s₁)
      branch true s₁ f = leave_branch-Nearer s s₁ f.0
      branch false s₁ (q, inl e) = cc
      branch false s₁ (q, inr lt) = run_branch-Nearer s s₁ q lt
