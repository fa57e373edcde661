-- ===== src/Wire/BigEndian.antt =====
-- Network byte order: reading is the inverse of writing.
use libcastis_heartbeat.Prelude.{
  ℕ, ◌+◌, ◌*◌, ◌^◌, ◌<◌, ◌≡◌, refl, ap, sym, ◌∙◌, List, [], ◌∷◌, length, All, arith,
}
use libcastis_heartbeat.Wire.{be32, Host}

abbrev pub IsByte : ℕ → Type 0
IsByte b = b < 256

abbrev pub be_value : List ℕ → ℕ
be_value [] = 0
be_value (b ∷ bs) = b * 256 ^ length bs + be_value bs

pub be_value-be32 : (x : ℕ) → x < 2 ^ 32 → be_value (be32 x) ≡ x
unfolding be32
be_value-be32 x h = omega arith

pub be32-be_value :
    (a b c d : ℕ)
    → a < 256
    → b < 256
    → c < 256
    → d < 256
    → be32 (be_value (a ∷ b ∷ c ∷ d ∷ [])) ≡ a ∷ b ∷ c ∷ d ∷ []
unfolding be32
be32-be_value a b c d ha hb hc hd = ground arith

pub be32-IsByte : (x : ℕ) → All IsByte (be32 x)
unfolding be32
be32-IsByte x = omega arith

pub be_value-lt :
    (a b c d : ℕ) → a < 256 → b < 256 → c < 256 → d < 256 → be_value (a ∷ b ∷ c ∷ d ∷ []) < 2 ^ 32
be_value-lt a b c d ha hb hc hd = omega arith

-- `ntohl` of four bytes copied from the wire.
pub ntohl-load :
    (host : Host) (a b c d : ℕ)
    → a < 256
    → b < 256
    → c < 256
    → d < 256
    → host.ntohl (host.load (a ∷ b ∷ c ∷ d ∷ [])) ≡ be_value (a ∷ b ∷ c ∷ d ∷ [])
ntohl-load host a b c d ha hb hc hd =
    ap (λ bs. host.ntohl (host.load bs))
      (sym (host.store-htonl n n-lt ∙ be32-be_value a b c d ha hb hc hd))
    ∙ ap host.ntohl (host.load-store (host.htonl n) (host.htonl-lt n n-lt))
    ∙ host.ntohl-htonl n n-lt
  where
    n : ℕ
    n = be_value (a ∷ b ∷ c ∷ d ∷ [])

    n-lt : n < 2 ^ 32
    n-lt = be_value-lt a b c d ha hb hc hd

pub length-be32 : (x : ℕ) → length (be32 x) ≡ 4
unfolding be32
length-be32 x = refl
