-- ===== src/Windows/Net/Order.antt =====
-- m_ReadSockets stays a set, in order.
use libcastis_heartbeat.Prelude.{
  ◌≡◌, refl, ℤ, pos, negsuc, ltb_ℤ, ◌==ℤ◌, ◌==ℤ◌, Bool-cases, inl, inr, true, false, List, [], ◌∷◌,
  All, arith,
}
use libcastis_heartbeat.Net.ReadSockets.{insert}
use libcastis_heartbeat.Windows.Net.Rounds.{Ascending}

ltb_ℤ-trans : (x y z : ℤ) → ltb_ℤ x y ≡ true → ltb_ℤ y z ≡ true → ltb_ℤ x z ≡ true
ltb_ℤ-trans (pos a) (pos b) (pos c) h k = ground arith
ltb_ℤ-trans (pos a) (pos b) (negsuc c) h k = cc
ltb_ℤ-trans (pos a) (negsuc b) z h k = cc
ltb_ℤ-trans (negsuc a) (pos b) (pos c) h k = refl
ltb_ℤ-trans (negsuc a) (pos b) (negsuc c) h k = cc
ltb_ℤ-trans (negsuc a) (negsuc b) (pos c) h k = refl
ltb_ℤ-trans (negsuc a) (negsuc b) (negsuc c) h k = ground arith

ltb_ℤ-total : (x y : ℤ) → ltb_ℤ x y ≡ false → (x ==ℤ y) ≡ false → ltb_ℤ y x ≡ true
ltb_ℤ-total (pos a) (pos b) h k = ground arith
ltb_ℤ-total (pos a) (negsuc b) h k = refl
ltb_ℤ-total (negsuc a) (pos b) h k = cc
ltb_ℤ-total (negsuc a) (negsuc b) h k = ground arith

-- Above a number, all those above a larger one.
All-below :
    (x y : ℤ) (zs : List ℤ)
    → ltb_ℤ x y ≡ true
    → All (λ z. ltb_ℤ y z ≡ true) zs
    → All (λ z. ltb_ℤ x z ≡ true) zs
All-below x y [] h a = tt
All-below x y (z ∷ zs) h a = (ltb_ℤ-trans x y z h a.0, All-below x y zs h a.1)

All-insert :
    (x k : ℤ) (ys : List ℤ)
    → ltb_ℤ x k ≡ true
    → All (λ z. ltb_ℤ x z ≡ true) ys
    → All (λ z. ltb_ℤ x z ≡ true) (insert k ys)
unfolding insert
All-insert x k [] h a = (h, tt)
All-insert x k (y ∷ ys) h a = elim (Bool-cases (ltb_ℤ k y)) [
  | inl lt ↦ rw lt (h, a)
  | inr not_lt ↦ elim (Bool-cases (k ==ℤ y)) [
    | inl e ↦ rw (not_lt, e) a
    | inr other ↦ rw (not_lt, other) (a.0, All-insert x k ys h a.1)
  ]
]

pub insert-Ascending : (k : ℤ) (xs : List ℤ) → Ascending xs → Ascending (insert k xs)
unfolding insert
insert-Ascending k [] h = (tt, tt)
insert-Ascending k (x ∷ xs) h = elim (Bool-cases (ltb_ℤ k x)) [
  | inl lt ↦ rw lt ((lt, All-below k x xs lt h.0), h)
  | inr not_lt ↦ elim (Bool-cases (k ==ℤ x)) [
    | inl e ↦ rw (not_lt, e) h
    | inr other ↦
        rw (not_lt, other)
          (All-insert x k xs (ltb_ℤ-total k x not_lt other) h.0, insert-Ascending k xs h.1)
  ]
]
