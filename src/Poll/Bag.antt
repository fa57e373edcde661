-- ===== src/Poll/Bag.antt =====
-- The multiset of a poll table's sockets, and what adding and deleting do to it.
use mathlib.Core.List.{Perm, foldr}
use mathlib.Core.List.Perm
use mathlib.Core.HLevel.{hedberg}
use libcastis_heartbeat.Prelude.{
  ℕ, suc, ◌+◌, ◌-◌, ◌<◌, ◌≤◌, ◌≡◌, ◌≢◌, refl, ap, sym, ◌∙◌, ℤ, ◌==ℤ◌, ◌==◌, leb, ==ℤ_true,
  ==ℤ_false, ==ℤ_refl, Bool-cases, Bool, true, false, ◌||◌, if◌then◌else◌, List, [], ◌∷◌, ◌++◌,
  length, arith, ℕ_discrete, length-append, ◌⊎◌, inl, inr,
}
use libcastis_heartbeat.Poll.{Pollfd, PollBits, invalid_socket, max_fd_size}
use libcastis_heartbeat.Poll.Table.{new_pollfd}
use libcastis_heartbeat.Poll.Delete.{IsAbsent}

pub data Op : Type 0 where
  add : ℤ → Op
  delete : ℤ → Op

-- A multiset of sockets.
pub record Bag : Type 0 where
  pub size : ℕ
  pub count : ℤ → ℕ

abbrev pub empty_bag : Bag
empty_bag = record { size = 0; count = λ x. 0 }

-- What an operation does to the multiset: it is bounded, and the invalid socket is never in it.
abbrev pub in_bag : Op → Bag → Bool × Bag
in_bag (add sockfd) b =
    if (sockfd ==ℤ invalid_socket) || leb max_fd_size b.size then (false, b) else (
      true,
      record { size = b.size + 1; count = λ x. if x ==ℤ sockfd then b.count x + 1 else b.count x },
    )
in_bag (delete sockfd) b = if b.count sockfd == 0 then (false, b) else (
  true,
  record { size = b.size - 1; count = λ x. if x ==ℤ sockfd then b.count x - 1 else b.count x },
)

abbrev pub all_in_bag : List Op → Bag → List Bool × Bag
all_in_bag [] b = ([], b)
all_in_bag (op ∷ ops) b =
    let (r, b₁) = in_bag op b in let (rs, b₂) = all_in_bag ops b₁ in (r ∷ rs, b₂)

abbrev pub occurrences : ℤ → List Pollfd → ℕ
occurrences x = foldr (λ p n. if x ==ℤ p.fd then n + 1 else n) 0

abbrev pub bag_of : List Pollfd → Bag
bag_of used = record { size = length used; count = λ x. occurrences x used }

pub twice :
    (a b : Bool) (n : ℕ)
    → (if a then (if b then n + 1 else n) + 1 else (if b then n + 1 else n))
      ≡ (if b then (if a then n + 1 else n) + 1 else (if a then n + 1 else n))
twice true true n = refl
twice true false n = refl
twice false true n = refl
twice false false n = refl

occurrences-perm : (x : ℤ) {ps qs : List Pollfd} → Perm ps qs → occurrences x ps ≡ occurrences x qs
occurrences-perm x p =
    Perm.foldr-eq (hedberg ℕ_discrete) (λ (p : Pollfd) n. if x ==ℤ p.fd then n + 1 else n)
      (λ a b n. twice (x ==ℤ a.fd) (x ==ℤ b.fd) n) p 0

length-foldr : (ps : List Pollfd) → length ps ≡ foldr (λ p n. suc n) 0 ps
length-foldr [] = refl
length-foldr (p ∷ ps) = ap suc (length-foldr ps)

length-perm : {ps qs : List Pollfd} → Perm ps qs → length ps ≡ length qs
length-perm {ps} {qs} p =
    length-foldr ps
    ∙ Perm.foldr-eq (hedberg ℕ_discrete) (λ (p : Pollfd) n. suc n) (λ a b n. refl) p 0
    ∙ sym (length-foldr qs)

pub occurrences-absent : (x : ℤ) (used : List Pollfd) → IsAbsent x used → occurrences x used ≡ 0
occurrences-absent x [] h = refl
occurrences-absent x (p ∷ used) h =
    rw (==ℤ_false (λ e. h.0 (sym e))) (occurrences-absent x used h.1)

pub occurrences-snoc :
    (x : ℤ) (used : List Pollfd) (p : Pollfd)
    → occurrences x (used ++ p ∷ [])
      ≡ (if x ==ℤ p.fd then occurrences x used + 1 else occurrences x used)
occurrences-snoc x [] p = refl
occurrences-snoc x (q ∷ used) p =
    rw (occurrences-snoc x used p) (twice (x ==ℤ q.fd) (x ==ℤ p.fd) (occurrences x used))

pub bag_of-perm : {ps qs : List Pollfd} → Perm ps qs → bag_of ps ≡ bag_of qs
bag_of-perm p = λ i. record { size = length-perm p i; count = λ x. occurrences-perm x p i }

-- Adding and taking away again.
up_and_down :
    (same : Bool) (n : ℕ)
    → (if same then (if same then n + 1 else n) - 1 else (if same then n + 1 else n)) ≡ n
up_and_down true n = omega arith
up_and_down false n = refl

pub refused_bag :
    (sockfd : ℤ) (b : Bag)
    → (sockfd ≡ invalid_socket) ⊎ (max_fd_size ≤ b.size)
    → in_bag (add sockfd) b ≡ (false, b)
refused_bag sockfd b (inl e) = rw (==ℤ_true e)
refused_bag sockfd b (inr full) = elim (Bool-cases (sockfd ==ℤ invalid_socket)) [
  | inl e ↦ rw e
  | inr e ↦ rw e (ground arith)
]

pub added_bag :
    (bits : PollBits) (sockfd : ℤ) (used : List Pollfd)
    → sockfd ≢ invalid_socket
    → length used < max_fd_size
    → in_bag (add sockfd) (bag_of used) ≡ (true, bag_of (used ++ new_pollfd bits sockfd ∷ []))
added_bag bits sockfd used valid room =
    rw (==ℤ_false valid, not_full)
      (sym λ i. (
        true,
        record {
          size = length-append used (new_pollfd bits sockfd ∷ []) i;
          count = λ x. occurrences-snoc x used (new_pollfd bits sockfd) i;
        },
      ))
  where
    not_full : leb max_fd_size (length used) ≡ false
    not_full = ground arith

pub deleted_bag :
    (sockfd : ℤ) (p : Pollfd) (others : List Pollfd)
    → p.fd ≡ sockfd
    → in_bag (delete sockfd) (bag_of (p ∷ others)) ≡ (true, bag_of others)
deleted_bag sockfd p others e =
    rw (e, ==ℤ_refl sockfd, there)
      λ i. (
        true,
        record {
          size = one_less i;
          count = λ x. up_and_down (x ==ℤ sockfd) (occurrences x others) i;
        },
      )
  where
    there : (occurrences sockfd others + 1 == 0) ≡ false
    there = ground arith

    one_less : suc (length others) - 1 ≡ length others
    one_less = omega arith
