-- ===== src/Thread/Ends.antt =====
-- A run of the thread ends once another thread has called EndThread.
use libcastis_heartbeat.Prelude.{
  ℕ, zero, suc, ◌+◌, ◌≤◌, ◌<◌, ◌≡◌, refl, ap, ◌∙◌, Bool, true, false, some, arith,
}
use libcastis_heartbeat.Prelude.Machine.{
  M, pure, ◌>>=◌, ◌>>◌, Post, returns, Post->>=, Post-with, Post-total,
}
use libcastis_heartbeat.Thread.{
  ready, Thread, Virtuals, invalid_handle, is_thread_done, set_exit, set_state, thread_proc,
  proc_loop, prepare_running, notify_exit, run_thread_here,
}
use libcastis_heartbeat.Thread.Laws.{Keeps}
use libcastis_heartbeat.Thread.Patience.{Patient}
use libcastis_heartbeat.Thread.Patience
use libcastis_heartbeat.Thread.Measure

module _ {S : Type 0} (v : Virtuals S) (patience : S → ℕ) (Inv : S → Type 0)
    (h : Patient v patience Inv) where
  abbrev left_of : S → ℕ
  left_of = Measure.left_of v patience Inv h

  abbrev IsDone : Unit {0} → S → Type 0
  IsDone _ s' = Inv s' × (is_thread_done (v.thread s') ≡ true)

  round-total :
      (rest : M S (Unit {0})) (s : S) (b : Bool)
      → Inv s
      → is_thread_done (v.thread s) ≡ b
      → ((s₁ : S) → Inv s₁ → left_of s₁ < left_of s → Post ⊥ IsDone (rest s₁))
      → Post ⊥ IsDone (elim b [ true ↦ some (tt, s) | false ↦ (thread_proc v >>= λ _. rest) s ])
  round-total rest s true p e next = returns (p, e)
  round-total rest s false p e next =
      Post->>= (thread_proc v) _ s (Measure.thread_proc-less v patience Inv h s p e)
        λ _ s₁ (q, lt). next s₁ q lt

  proc_loop-total :
      (fuel : ℕ) (s : S) → Inv s → left_of s < fuel → Post ⊥ IsDone (proc_loop v fuel s)
  unfolding proc_loop
  proc_loop-total zero s p lt = absurd (omega arith)
  proc_loop-total (suc fuel) s p lt =
      round-total (proc_loop v fuel) s (is_thread_done (v.thread s)) p refl
        λ s₁ q less. proc_loop-total fuel s₁ q (omega arith)

  prepare_running-ready :
      (s : S)
      → Inv s
      → Post ⊥
          (λ b s'. (b ≡ true) × ((v.thread s').state ≡ ready) × Inv s' × (patience s' ≤ patience s))
          (prepare_running v s)
  unfolding prepare_running
  prepare_running-ready s p =
      Post->>= (set_exit v.access false) _ s (Patience.set_exit-patience v patience Inv h false s p)
        λ _ s₁ (p₁, e₁).
          Post->>= (set_state v ready) _ s₁ (Patience.set_state-known v patience Inv h ready s₁ p₁)
            λ _ s₂ (st, p₂, e₂).
              Post->>= v.sem_wait _ s₂ (Post-with (h.laws.on_wait s₂) (h.at_wait s₂ p₂))
                λ _ s₃ (k, (p₃, le)). returns (refl, k.0.state ∙ st, p₃, omega (arith, e₁, e₂, le))

  run_loop : ℕ → M S Bool
  run_loop fuel = do proc_loop v fuel; notify_exit v; pure true

  done-same : (t u : Thread) → u.state ≡ t.state → is_thread_done t ≡ true → is_thread_done u ≡ true
  unfolding is_thread_done
  done-same t u e h = rw e h

  abbrev Ended : Bool → S → Type 0
  Ended b s' = (b ≡ true) × Inv s' × (is_thread_done (v.thread s') ≡ true)

  notify_exit-Keeps :
      (s : S) → Inv s → Post ⊥ (λ _ s'. Inv s' × Keeps (v.thread s) (v.thread s')) (notify_exit v s)
  unfolding notify_exit
  notify_exit-Keeps s p =
      Post->>= v.sem_post _ s (Post-with (h.laws.on_post s) (h.at_post s p))
        λ _ s' (k, q). returns (q, k.0)

  run_loop-Ended : (fuel : ℕ) (s : S) → Inv s → left_of s < fuel → Post ⊥ Ended (run_loop fuel s)
  unfolding run_loop
  run_loop-Ended fuel s p lt =
      Post->>= (proc_loop v fuel) _ s (proc_loop-total fuel s p lt) λ _ s₁ (q, d).
        Post->>= (notify_exit v) _ s₁ (notify_exit-Keeps s₁ q)
          λ _ s₂ (r, k). returns (refl, r, done-same (v.thread s₁) (v.thread s₂) k.state d)

  run_thread_here-Ended :
      (fuel : ℕ) (s : S)
      → Inv s
      → (v.thread s).handle ≡ invalid_handle
      → patience s + 2 < fuel
      → Post ⊥ Ended (run_thread_here v fuel s)
  unfolding run_thread_here run_loop
  run_thread_here-Ended fuel s p e enough = rw e (
      Post->>= (prepare_running v) _ s (prepare_running-ready s p)
        λ prepared s₁ r. rw r.0 (run_loop-Ended fuel s₁ r.2 (rw r.1 (omega (arith, r.3)))))

-- RunThreadHere on an object whose thread was never created returns true with the thread done, if the
-- overridables return from the objects with `Inv`, which they keep, and another thread calls EndThread in
-- the end: `patience` bounds the reads of the exit flag before that, and fuel for three calls of
-- ThreadProc more is enough. The object has `Inv` in the end.
pub run_thread_here-ends :
    {S : Type 0} (v : Virtuals S) (patience : S → ℕ) (Inv : S → Type 0)
    → Patient v patience Inv
    → (fuel : ℕ) (s : S) → Inv s
    → (v.thread s).handle ≡ invalid_handle
    → patience s + 2 < fuel
    → (s' : S) × (run_thread_here v fuel s ≡ some (true, s'))
      × Inv s'
      × (is_thread_done (v.thread s') ≡ true)
run_thread_here-ends v patience Inv h fuel s p e enough =
    let (b, s', returned, ended) =
      Post-total (run_thread_here-Ended v patience Inv h fuel s p e enough) in
    (s', returned ∙ ap (λ (b : Bool). some (b, s')) ended.0, ended.1, ended.2)
