-- ===== src/Prelude/Machine.antt =====
-- Code that reads and writes a state `S` and may fail: `none` is an exception that leaves the code,
-- an access out of bounds, or the end of a loop's fuel.
use mathlib.Core.Path.{◌≡◌, refl}
use mathlib.Core.Option.{Option, none, some}
use mathlib.Core.Bool.{Bool, true, false}

abbrev pub M : Type 0 → Type 0 → Type 0
M S A = S → Option (A × S)

abbrev pub pure : {S A : Type 0} → A → M S A
pure a s = some (a, s)

infixl 5 ◌>>=◌ ◌>>◌
abbrev pub ◌>>=◌ : {S A B : Type 0} → M S A → (A → M S B) → M S B
◌>>=◌ m f s = elim (m s) [ none ↦ none | some (a, s') ↦ f a s' ]

abbrev pub ◌>>◌ : {S A B : Type 0} → M S A → M S B → M S B
m >> k = m >>= λ _. k

-- A computation with no state.
abbrev pub lift : {S A : Type 0} → Option A → M S A
lift none s = none
lift (some a) s = some (a, s)

abbrev pub get : {S : Type 0} → M S S
get s = some (s, s)

abbrev pub modify : {S : Type 0} → (S → S) → M S (Unit {0})
modify f s = some (tt, f s)

abbrev pub gets : {S A : Type 0} → (S → A) → M S A
gets f s = some (f s, s)

-- `if (b) body;`
abbrev pub when : {S : Type 0} → Bool → M S (Unit {0}) → M S (Unit {0})
when true body s = body s
when false body s = some (tt, s)

-- What a computation's outcome satisfies: `P` of its result and final state if it returns one, and
-- `F` if it does not. With `F = ⊥` this is total correctness, with `F = Unit` partial.
pub data Post {S A : Type 0} (F : Type 0) (P : A → S → Type 0) : Option (A × S) → Type 0 where
  returns : {a : A} {s : S} → P a s → Post F P (some (a, s))
  fails : F → Post F P none

module _ {S A B : Type 0} {F : Type 0} where
  Post-elim :
      {P : A → S → Type 0} {Q : B → S → Type 0} (f : A → M S B) {o : Option (A × S)}
      → Post F P o
      → ((a : A) (s : S) → P a s → Post F Q (f a s))
      → Post F Q (elim o [ none ↦ none | some (a, s') ↦ f a s' ])
  Post-elim f (fails x) k = fails x
  Post-elim f (returns {a = a} {s = s} p) k = k a s p

  -- The rule for a step followed by the rest of a block.
  pub Post->>= :
      {P : A → S → Type 0} {Q : B → S → Type 0} (m : M S A) (f : A → M S B) (s : S)
      → Post F P (m s)
      → ((a : A) (s' : S) → P a s' → Post F Q (f a s'))
      → Post F Q ((m >>= f) s)
  Post->>= m f s h k = Post-elim f h k

module _ {S A : Type 0} {F : Type 0} where
  -- Weakening.
  pub Post-mono :
      {P Q : A → S → Type 0} {o : Option (A × S)}
      → Post F P o
      → ((a : A) (s : S) → P a s → Q a s)
      → Post F Q o
  Post-mono (fails x) k = fails x
  Post-mono (returns {a = a} {s = s} p) k = returns (k a s p)

  -- What is known of a computation that has returned.
  pub Post-some : {P : A → S → Type 0} {a : A} {s : S} → Post F P (some (a, s)) → P a s
  Post-some (returns p) = p

-- A computation of which total correctness is known returns.
pub Post-total :
    {S A : Type 0} {P : A → S → Type 0} {o : Option (A × S)}
    → Post ⊥ P o
    → (a : A) × (s : S) × (o ≡ some (a, s)) × P a s
Post-total (returns {a = a} {s = s} p) = (a, s, refl, p)
Post-total (fails x) = absurd x

module _ {S A : Type 0} {F : Type 0} where
  -- Two facts about one outcome.
  pub Post-both :
      {P Q : A → S → Type 0} {o : Option (A × S)}
      → Post F P o
      → Post F Q o
      → Post F (λ a s. P a s × Q a s) o
  Post-both (returns p) (returns q) = returns (p, q)
  Post-both (fails x) (fails y) = fails x

-- A fact about the outcome, if there is one, of a computation that returns.
pub Post-with :
    {S A : Type 0} {P Q : A → S → Type 0} {o : Option (A × S)}
    → Post (Unit {0}) P o
    → Post ⊥ Q o
    → Post ⊥ (λ a s. P a s × Q a s) o
Post-with (returns p) (returns q) = returns (p, q)
Post-with (fails x) (fails y) = fails y

-- A step whose outcome is known.
pub >>=-step :
    {S A B : Type 0} (m : M S A) (f : A → M S B) {s : S} {a : A} {s' : S}
    → m s ≡ some (a, s')
    → (m >>= f) s ≡ f a s'
>>=-step m f e = rw (e, ◌>>=◌)

-- A step that does not return.
pub >>=-none :
    {S A B : Type 0} (m : M S A) (f : A → M S B) {s : S} → m s ≡ none → (m >>= f) s ≡ none
>>=-none m f e = rw (e, ◌>>=◌)
