-- ===== src/Prelude/Partial.antt =====
-- Partial code: `none` is an exception that leaves the code or an access out of bounds.
use mathlib.Core.Option.{Option, none, some}

infixl 5 ◌>>=◌
abbrev pub ◌>>=◌ {ℓ κ} : {A : Type ℓ} {B : Type κ} → Option A → (A → Option B) → Option B
some a >>= f = f a
none >>= f = none
