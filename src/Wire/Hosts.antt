-- ===== src/Wire/Hosts.antt =====
-- Two machines that meet the laws of `Host`: a little-endian one, whose `htonl` swaps the bytes,
-- and a big-endian one, whose `htonl` does nothing.
use libcastis_heartbeat.Prelude.{
  ℕ, ◌+◌, ◌*◌, ◌/◌, ◌%◌, ◌^◌, ◌<◌, ◌≡◌, refl, List, [], ◌∷◌, replicate, length-replicate, arith,
}
use libcastis_heartbeat.Wire.{be32, Host}
use libcastis_heartbeat.Wire.BigEndian.{be_value, be_value-be32}

unfoldable pub le32 : ℕ → List ℕ
le32 x = (x % 256) ∷ (x / 2 ^ 8 % 256) ∷ (x / 2 ^ 16 % 256) ∷ (x / 2 ^ 24 % 256) ∷ []

unfoldable pub le_value : List ℕ → ℕ
le_value [] = 0
le_value (b ∷ bs) = b + 256 * le_value bs

unfoldable pub bswap : ℕ → ℕ
unfolding le_value be32
bswap x = le_value (be32 x)

pub bswap-lt : (x : ℕ) → x < 2 ^ 32 → bswap x < 2 ^ 32
unfolding bswap
bswap-lt x h = omega arith

pub bswap-bswap : (x : ℕ) → x < 2 ^ 32 → bswap (bswap x) ≡ x
unfolding bswap
bswap-bswap x h = omega arith

pub le_value-le32 : (x : ℕ) → x < 2 ^ 32 → le_value (le32 x) ≡ x
unfolding le_value le32
le_value-le32 x h = omega arith

pub le32-bswap : (x : ℕ) → x < 2 ^ 32 → le32 (bswap x) ≡ be32 x
unfolding bswap le32 be32
le32-bswap x h = ground arith

pub le32-zero : le32 0 ≡ replicate 4 0
unfolding le32
le32-zero = refl

pub be32-zero : be32 0 ≡ replicate 4 0
unfolding be32
be32-zero = refl

unfoldable pub swap16 : ℕ → ℕ
swap16 p = p % 256 * 256 + p / 256 % 256

abbrev pub little : Host
little = record {
  htonl = bswap;
  ntohl = bswap;
  htons = swap16;
  store = le32;
  load = le_value;
  new_chars = λ n. replicate n 205;
  htonl-lt = bswap-lt;
  ntohl-htonl = bswap-bswap;
  load-store = le_value-le32;
  store-htonl = le32-bswap;
  store-zero = le32-zero;
  length-new_chars = λ n. length-replicate n 205;
}

abbrev pub big : Host
big = record {
  htonl = λ x. x;
  ntohl = λ x. x;
  htons = λ p. p;
  store = be32;
  load = be_value;
  new_chars = λ n. replicate n 0;
  htonl-lt = λ x h. h;
  ntohl-htonl = λ x h. refl;
  load-store = be_value-be32;
  store-htonl = λ x h. refl;
  store-zero = be32-zero;
  length-new_chars = λ n. length-replicate n 0;
}
