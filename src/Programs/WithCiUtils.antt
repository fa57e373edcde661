-- ===== src/Programs/WithCiUtils.antt =====
-- examples/legacy_compatible_with_ciutils/: CCiHBResponserWithCiUtils, which derives from
-- CCiHBResponser and from the CCiThread2 of CiUtils, and overrides by the operations of the former.
pub mod Lifts
pub mod Serves
use libcastis_heartbeat.Prelude.{ℕ, ℤ, pos, Bool, not, if◌then◌else◌, List, Option, none, some}
use libcastis_heartbeat.Prelude.Machine.{M}
use libcastis_heartbeat.Thread
use libcastis_heartbeat.Thread.{Virtuals}
use libcastis_heartbeat.Session.{bytes_of}
use libcastis_heartbeat.Programs.Platform.{Platform}

-- The object: the part of CCiHBResponser, and that of the CCiThread2 of CiUtils.
pub record ResponserWithCiUtils (S Ci : Type 0) : Type 0 where
  pub base : S
  pub ci : Ci

-- The constructor and the destructor of the CCiThread2 of CiUtils, which may call the system.
pub record CiThread (Ci World : Type 0) : Type 0 where
  pub construct : World → Ci × World
  pub destroy : Ci → World → World

module _ {S Ci : Type 0} where
  -- An operation of the part of CCiHBResponser.
  abbrev pub on_base : {A : Type 0} → M S A → M (ResponserWithCiUtils S Ci) A
  on_base m s = elim (m s.base) [ none ↦ none | some (a, b) ↦ some (a, record s { base = b }) ]

  module _ {World : Type 0} (p : Platform S World) (cu : CiThread Ci World) where
    -- The constructors of the two base classes, in this order.
    unfoldable pub new_with_ci_utils : List ℕ → ℕ → List ℕ → ℤ → World → ResponserWithCiUtils S Ci
    new_with_ci_utils representative_ip port local_ip timeout w =
        let base = p.construct representative_ip port local_ip timeout w in
        let (ci, w₁) = cu.construct (p.world base) in record { base = p.set_world w₁ base; ci = ci }

    -- Their destructors, in the opposite order.
    unfoldable pub delete_with_ci_utils : ResponserWithCiUtils S Ci → World
    delete_with_ci_utils s = p.destroy (p.set_world (cu.destroy s.ci (p.world s.base)) s.base)

  module _ (v : Virtuals S) where
    unfoldable pub init_instance : M (ResponserWithCiUtils S Ci) Bool
    init_instance = on_base v.init_instance

    unfoldable pub exit_instance : M (ResponserWithCiUtils S Ci) Bool
    exit_instance = on_base v.exit_instance

    unfoldable pub run : M (ResponserWithCiUtils S Ci) Bool
    run = on_base v.run

    -- The virtual functions of the cihb part, as the object has them.
    abbrev pub virtuals : Virtuals (ResponserWithCiUtils S Ci)
    virtuals = record {
      access = record {
        thread = λ s. v.thread s.base;
        set_thread = λ t s. record s { base = v.set_thread t s.base };
        others = on_base v.others;
      };
      init_instance = init_instance;
      run = run;
      exit_instance = exit_instance;
      sem_wait = on_base v.sem_wait;
      sem_post = on_base v.sem_post;
      spawn = on_base v.spawn;
    }

    unfoldable pub create_thread : M (ResponserWithCiUtils S Ci) Bool
    create_thread = Thread.create_thread virtuals

    unfoldable pub run_thread_here : ℕ → M (ResponserWithCiUtils S Ci) Bool
    run_thread_here = Thread.run_thread_here virtuals

unfoldable pub main :
    {S Ci World : Type 0} → Platform S World → CiThread Ci World → ℕ → World → Option (ℤ × World)
main p cu fuel w =
    let (ready, w₁) = p.prepare w in
    let hbr =
      new_with_ci_utils p cu (bytes_of "127.0.0.1") 8090 (bytes_of "127.0.0.1") (pos 10) w₁ in
    let ran = run_thread_here p.virtuals fuel hbr in
    if not ready
    then some (pos 1, w₁)
    else elim ran [ none ↦ none | some (ok, s) ↦ some (pos 0, delete_with_ci_utils p cu s) ]
