-- ===== src/Examples/Toy.antt =====
-- A thread object whose overridables succeed, and which another thread ends after some reads of
-- its exit flag.
use libcastis_heartbeat.Prelude.{
  ℕ, zero, suc, ◌≡◌, ◌<◌, ◌⊎◌, refl, inl, inr, true, false, some, arith,
}
use libcastis_heartbeat.Prelude.Machine.{pure, Post, returns}
use libcastis_heartbeat.Thread.{Thread, Virtuals}
use libcastis_heartbeat.Thread.Laws.{Keeps}
use libcastis_heartbeat.Thread.Edges.{ThreadLaws}
use libcastis_heartbeat.Thread.Patience.{Patient}

pub record Toy : Type 0 where
  pub thread : Thread
  pub reads : ℕ

abbrev pub toy : Virtuals Toy
toy = record {
  access = record {
    thread = λ s. s.thread;
    set_thread = λ t s. record s { thread = t };
    others =
        λ s. elim s.reads [ zero ↦ some (true, s) | suc n ↦ some (false, record s { reads = n }) ];
  };
  init_instance = pure true;
  run = pure true;
  exit_instance = pure true;
  sem_wait = pure true;
  sem_post = pure true;
  spawn = pure (some 1);
}

same : (t : Thread) → Keeps t t
same t = record { state = refl; handle = refl; exit = λ e. e }

pub toy-laws : (F : Type 0) → ThreadLaws F toy
toy-laws F = record {
  thread-set_thread = λ t s. refl;
  obs-set_thread = λ t s. refl;
  on_init = λ s. returns (same s.thread, refl);
  on_run = λ s. returns (same s.thread, refl);
  on_exit = λ s. returns (same s.thread, refl);
  on_wait = λ s. returns (same s.thread, refl);
  on_post = λ s. returns (same s.thread, refl);
  on_others = λ s. others_keep s s.reads;
}
  where
    others_keep :
        (s : Toy) (n : ℕ)
        → Post F
            (λ _ s'. Keeps s.thread s'.thread × (tt ≡ tt))
            (elim n [ zero ↦ some (true, s) | suc n ↦ some (false, record s { reads = n }) ])
    others_keep s zero = returns (same s.thread, refl)
    others_keep s (suc n) = returns (same s.thread, refl)

pub toy-Patient : Patient toy (λ s. s.reads) (λ _. Unit {0})
toy-Patient = record {
  laws = toy-laws Unit;
  at_set_thread = λ t s. refl;
  Inv-set_thread = λ t s p. tt;
  at_init = λ s p. returns (tt, omega arith);
  at_run = λ s p. returns (tt, omega arith);
  at_exit = λ s p. returns tt;
  at_wait = λ s p. returns (tt, omega arith);
  at_post = λ s p. returns tt;
  at_others = λ s p. wears_off s.thread s.reads;
}
  where
    wears_off :
        (t : Thread) (n : ℕ)
        → Post ⊥
            (λ called s'. Unit × ((called ≡ true) ⊎ (s'.reads < n)))
            (toy.others (record { thread = t; reads = n }))
    wears_off t zero = returns (tt, inl refl)
    wears_off t (suc n) = returns (tt, inr (omega arith))
