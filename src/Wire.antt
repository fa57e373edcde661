-- ===== src/Wire.antt =====
-- 32-bit integers on the wire, and the machine's own functions for them (`htonl`, `ntohl`, the
-- object representation that `memcpy` and `std::ostream::write` copy), which are a parameter.
pub mod BigEndian
pub mod Response
pub mod Hosts
use libcastis_heartbeat.Prelude.{
  ℕ, ◌+◌, ◌*◌, ◌/◌, ◌%◌, ◌^◌, ◌<◌, ◌≡◌, List, [], ◌∷◌, length, replicate,
}

-- The four bytes of a number below 2 ^ 32, the most significant first: network byte order.
unfoldable pub be32 : ℕ → List ℕ
be32 x = (x / 2 ^ 24 % 256) ∷ (x / 2 ^ 16 % 256) ∷ (x / 2 ^ 8 % 256) ∷ (x % 256) ∷ []

-- The machine that runs the code. A 32-bit `int` is its bit pattern.
pub record Host : Type 0 where
  pub htonl : ℕ → ℕ
  pub ntohl : ℕ → ℕ
  pub htons : ℕ → ℕ
  -- The bytes of an `int` in memory, and the `int` that four bytes hold.
  pub store : ℕ → List ℕ
  pub load : List ℕ → ℕ
  -- What `new char[n]` holds before anything is written.
  pub new_chars : ℕ → List ℕ
  pub htonl-lt : (x : ℕ) → x < 2 ^ 32 → htonl x < 2 ^ 32
  pub ntohl-htonl : (x : ℕ) → x < 2 ^ 32 → ntohl (htonl x) ≡ x
  pub load-store : (x : ℕ) → x < 2 ^ 32 → load (store x) ≡ x
  pub store-htonl : (x : ℕ) → x < 2 ^ 32 → store (htonl x) ≡ be32 x
  -- An `int` that is 0 has no bit set.
  pub store-zero : store 0 ≡ replicate 4 0
  pub length-new_chars : (n : ℕ) → length (new_chars n) ≡ n
