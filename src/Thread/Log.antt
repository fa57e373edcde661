-- ===== src/Thread/Log.antt =====
-- The object around a thread with a log of the calls that the thread makes.
use libcastis_heartbeat.Prelude.{◌≡◌, refl, List, ◌∷◌, Option, none, some}
use libcastis_heartbeat.Prelude.Machine.{M, Post, returns, fails}
use libcastis_heartbeat.Thread.{Virtuals}
use libcastis_heartbeat.Thread.Laws.{
  Observer, Observed, Call, waits, inits, runs, exits, posts, Keeps,
}
use libcastis_heartbeat.Thread.Edges.{ThreadLaws}

-- The object with a log of the calls, the latest first.
abbrev pub note : {S A : Type 0} → Call → M S A → M (S × List Call) A
note c m (s, log) = elim (m s) [ none ↦ none | some (a, s') ↦ some (a, (s', c ∷ log)) ]

abbrev pub silent : {S A : Type 0} → M S A → M (S × List Call) A
silent m (s, log) = elim (m s) [ none ↦ none | some (a, s') ↦ some (a, (s', log)) ]

abbrev pub logged : {S : Type 0} → Virtuals S → Virtuals (S × List Call)
logged v = record {
  access = record {
    thread = λ s. v.thread s.0;
    set_thread = λ t s. (v.set_thread t s.0, s.1);
    others = silent v.others;
  };
  init_instance = note inits v.init_instance;
  run = note runs v.run;
  exit_instance = note exits v.exit_instance;
  sem_wait = note waits v.sem_wait;
  sem_post = note posts v.sem_post;
  spawn = silent v.spawn;
}

abbrev pub log_of : (S : Type 0) → Observer (S × List Call) (List Call)
log_of S = record { obs = λ s. s.1; emit = ◌∷◌ }

-- The laws of an object are the laws of the object with its log.
noted-Keeps :
    {S A : Type 0} {F : Type 0} (v : Virtuals S) (c : Call) (s : S) (log : List Call)
    {o : Option (A × S)}
    → Post {S = S} {A = A} F (λ _ s'. Keeps (v.thread s) (v.thread s') × (tt ≡ tt)) o
    → Post F
        (λ _ s'. Keeps (v.thread s) (v.thread s'.0) × (s'.1 ≡ c ∷ log))
        (elim o as (λ _. Option (A × (S × List Call))) [
          | none ↦ none
          | some (a, s') ↦ some (a, (s', c ∷ log))
        ])
noted-Keeps v c s log (returns k) = returns (k.0, refl)
noted-Keeps v c s log (fails x) = fails x

silent-Keeps :
    {S A : Type 0} {F : Type 0} (v : Virtuals S) (s : S) (log : List Call) {o : Option (A × S)}
    → Post {S = S} {A = A} F (λ _ s'. Keeps (v.thread s) (v.thread s') × (tt ≡ tt)) o
    → Post F
        (λ _ s'. Keeps (v.thread s) (v.thread s'.0) × (s'.1 ≡ log))
        (elim o as (λ _. Option (A × (S × List Call))) [
          | none ↦ none
          | some (a, s') ↦ some (a, (s', log))
        ])
silent-Keeps v s log (returns k) = returns (k.0, refl)
silent-Keeps v s log (fails x) = fails x

pub logged-laws :
    {S : Type 0} {F : Type 0} (v : Virtuals S) → ThreadLaws F v → Observed F (logged v) (log_of S)
logged-laws v laws = record {
  thread-set_thread = λ t s. laws.thread-set_thread t s.0;
  obs-set_thread = λ t s. refl;
  on_init = λ s. noted-Keeps v inits s.0 s.1 (laws.on_init s.0);
  on_run = λ s. noted-Keeps v runs s.0 s.1 (laws.on_run s.0);
  on_exit = λ s. noted-Keeps v exits s.0 s.1 (laws.on_exit s.0);
  on_wait = λ s. noted-Keeps v waits s.0 s.1 (laws.on_wait s.0);
  on_post = λ s. noted-Keeps v posts s.0 s.1 (laws.on_post s.0);
  on_others = λ s. silent-Keeps v s.0 s.1 (laws.on_others s.0);
}
