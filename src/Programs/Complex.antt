-- ===== src/Programs/Complex.antt =====
-- examples/legacy_compatible_complex_with_ciutils/: the responder as a thread of the CiUtils library, in a
-- CCiThreadRealTimeComplex of that library, which is a parameter.
pub mod Quiet
pub mod Silent
use libcastis_heartbeat.Prelude.{ℕ, ℤ, pos, Bool, not, if◌then◌else◌, List, Option, none, some, ◌≡◌}
use libcastis_heartbeat.Prelude.Machine.{M, pure, ◌>>=◌, ◌>>◌}
use libcastis_heartbeat.Thread
use libcastis_heartbeat.Thread.{Virtuals}
use libcastis_heartbeat.Session.{bytes_of}
use libcastis_heartbeat.Programs.Platform.{Platform}

-- CCiHBResponserWithCiUtils of this program: the part of CCiHBResponser, and that of the CCiThread2 of
-- CiUtils.
pub record ResponserInComplex (S Ci : Type 0) : Type 0 where
  pub base : S
  pub ci : Ci

module _ {S Ci : Type 0} where
  -- An operation of the part of CCiHBResponser.
  abbrev pub on_base : {A : Type 0} → M S A → M (ResponserInComplex S Ci) A
  on_base m s = elim (m s.base) [ none ↦ none | some (a, b) ↦ some (a, record s { base = b }) ]

  unfoldable pub new_in_complex :
      {World : Type 0}
      → Platform S World
      → List ℕ
      → ℕ
      → List ℕ
      → ℤ
      → Ci
      → World
      → ResponserInComplex S Ci
  new_in_complex p representative_ip port local_ip timeout ci w = record {
    base = p.construct representative_ip port local_ip timeout w;
    ci = ci;
  }

  module _ (v : Virtuals S) where
    unfoldable pub init_instance : M (ResponserInComplex S Ci) Bool
    init_instance = on_base v.init_instance

    unfoldable pub exit_instance : M (ResponserInComplex S Ci) Bool
    exit_instance = on_base v.exit_instance

    unfoldable pub run : M (ResponserInComplex S Ci) Bool
    run = on_base v.run

    -- The virtual functions of the cihb part, as the object has them.
    abbrev pub virtuals : Virtuals (ResponserInComplex S Ci)
    virtuals = record {
      access = record {
        thread = λ s. v.thread s.base;
        set_thread = λ t s. record s { base = v.set_thread t s.base };
        others = on_base v.others;
      };
      init_instance = init_instance;
      run = run;
      exit_instance = exit_instance;
      sem_wait = on_base v.sem_wait;
      sem_post = on_base v.sem_post;
      spawn = on_base v.spawn;
    }

    unfoldable pub create_thread : M (ResponserInComplex S Ci) Bool
    create_thread = Thread.create_thread virtuals

    unfoldable pub run_thread_here : ℕ → M (ResponserInComplex S Ci) Bool
    run_thread_here = Thread.run_thread_here virtuals

-- SampleHBClientComplex: the responder that m_pHBResponser owns, and the base class, a
-- CCiThreadRealTimeComplex.
pub record SampleHbClientComplex (S Ci Rt : Type 0) : Type 0 where
  pub responser : ResponserInComplex S Ci
  pub complex : Rt

-- The overridables of CCiThread2 in CiUtils.
pub record Overridables (S : Type 0) : Type 0 where
  pub init_instance : M S Bool
  pub run : M S Bool
  pub exit_instance : M S Bool

abbrev pub overridables : {S Ci : Type 0} → Virtuals S → Overridables (ResponserInComplex S Ci)
overridables v = record {
  init_instance = init_instance v;
  run = run v;
  exit_instance = exit_instance v;
}

-- What calls of the overridables, in any order and number, make of the responder; what else is done
-- leaves the part of CCiHBResponser alone.
pub data Calls {S Ci : Type 0} (o : Overridables (ResponserInComplex S Ci))
    : ResponserInComplex S Ci → ResponserInComplex S Ci → Type 0 where
  no_call : {r r' : ResponserInComplex S Ci} → r'.base ≡ r.base → Calls o r r'
  elsewhere : {r r₁ r' : ResponserInComplex S Ci} → Calls o r r₁ → r'.base ≡ r₁.base → Calls o r r'
  inits :
      {r r₁ r' : ResponserInComplex S Ci} {b : Bool}
      → Calls o r r₁
      → o.init_instance r₁ ≡ some (b, r')
      → Calls o r r'
  runs :
      {r r₁ r' : ResponserInComplex S Ci} {b : Bool}
      → Calls o r r₁
      → o.run r₁ ≡ some (b, r')
      → Calls o r r'
  exits :
      {r r₁ r' : ResponserInComplex S Ci} {b : Bool}
      → Calls o r r₁
      → o.exit_instance r₁ ≡ some (b, r')
      → Calls o r r'

-- The operations of CiUtils that the program calls, on the whole object; the semaphores and the clock of
-- CiUtils are in its own parts, `Ci` and `Rt`. Of the part of CCiHBResponser it knows the overridables.
pub record CiUtils (S Ci Rt : Type 0) : Type 0 where
  pub prepare_complexing : M (ResponserInComplex S Ci) Bool
  pub end_complexing : M (ResponserInComplex S Ci) Bool
  -- AddCiThread, DeleteCiThread, SetPeriodMillieSec
  pub add_ci_thread : M (SampleHbClientComplex S Ci Rt) Bool
  pub delete_ci_thread : M (SampleHbClientComplex S Ci Rt) Bool
  pub set_period_millie_sec : ℤ → M (SampleHbClientComplex S Ci Rt) (Unit {0})
  pub run_thread_here :
      Overridables (ResponserInComplex S Ci) → M (SampleHbClientComplex S Ci Rt) Bool

module _ {S Ci Rt World : Type 0} (p : Platform S World) (cu : CiUtils S Ci Rt) where
  -- An operation of the responder.
  abbrev pub on_responser :
      {A : Type 0} → M (ResponserInComplex S Ci) A → M (SampleHbClientComplex S Ci Rt) A
  on_responser m c = elim (m c.responser) [
    | none ↦ none
    | some (a, r) ↦ some (a, record c { responser = r })
  ]

  -- The constructor, on the object with its new responder.
  unfoldable pub set_up_complex : ℤ → M (SampleHbClientComplex S Ci Rt) (Unit {0})
  set_up_complex period = do
    _ ← on_responser cu.prepare_complexing
    _ ← cu.add_ci_thread
    cu.set_period_millie_sec period

  unfoldable pub new_complex :
      List ℕ → ℕ → List ℕ → ℤ → Ci → Rt → World → Option (Unit {0} × SampleHbClientComplex S Ci Rt)
  new_complex representative_ip port local_ip period ci rt w = set_up_complex period (record {
    responser = new_in_complex p representative_ip port local_ip (pos 0) ci w;
    complex = rt;
  })

  -- The destructor's own body.
  unfoldable pub delete_complex : M (SampleHbClientComplex S Ci Rt) (Unit {0})
  delete_complex = do _ ← on_responser cu.end_complexing; _ ← cu.delete_ci_thread; pure tt

  -- The life of the object after its constructor, up to the end of `main`.
  unfoldable pub live_and_die : M (SampleHbClientComplex S Ci Rt) (Unit {0})
  live_and_die = do _ ← cu.run_thread_here (overridables p.virtuals); delete_complex

  unfoldable pub main : Ci → Rt → World → Option (ℤ × World)
  main ci rt w =
      let (ready, w₁) = p.prepare w in
      let hbc = new_complex (bytes_of "127.0.0.1") 8090 (bytes_of "127.0.0.1") (pos 50) ci rt w₁ in
      if not ready then some (pos 1, w₁) else elim hbc [
        | none ↦ none
        | some (_, c) ↦ elim (live_and_die c) [
          | none ↦ none
          | some (_, c') ↦ some (pos 0, p.destroy c'.responser.base)
        ]
      ]
