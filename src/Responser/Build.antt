-- ===== src/Responser/Build.antt =====
-- The buffer of SendHeartbeatResponse is filled exactly.
use libcastis_heartbeat.Prelude.{
  ℕ, suc, ◌+◌, ◌-◌, ◌^◌, ◌≤◌, ◌<◌, ◌≡◌, refl, ap, sym, ◌∙◌, subst, to_int32, List, [], ◌∷◌, ◌++◌,
  length, drop, append_assoc, append-nil, length-append, length-drop, take-append, arith, some,
}
use libcastis_heartbeat.Defs.{ProcessState, state_code}
use libcastis_heartbeat.Wire.{Host, be32}
use libcastis_heartbeat.Wire.BigEndian.{length-be32}
use libcastis_heartbeat.Wire.Response.{Response, encode, decode, decode-encode}
use libcastis_heartbeat.Responser.Message.{Cursor, put, put_int, allocate, build_message}

-- `done` is written, the pointer stands behind it, and `n` bytes are free.
record At (done : List ℕ) (n : ℕ) (c : Cursor) : Type 0 where
  rest : List ℕ
  shape : c ≡ record { buf = done ++ rest; p = length done }
  free : length rest ≡ n

drop-append_more : (xs ys : List ℕ) (n : ℕ) → drop (length xs + n) (xs ++ ys) ≡ drop n ys
drop-append_more [] ys n = let e : 0 + n ≡ n = omega arith in ap (λ k. drop k ys) e
drop-append_more (x ∷ xs) ys n =
    let e : suc (length xs) + n ≡ suc (length xs + n) = omega arith in
    ap (λ k. drop k (x ∷ xs ++ ys)) e ∙ drop-append_more xs ys n

put-at :
    (done rest bytes : List ℕ)
    → length bytes ≤ length rest
    → put (record { buf = done ++ rest; p = length done }) bytes
      ≡ some
          (record { buf = (done ++ bytes) ++ drop (length bytes) rest; p = length (done ++ bytes) })
unfolding put
put-at done rest bytes h = ground (
  arith,
  length-append done rest,
  length-append done bytes,
  take-append done rest,
  drop-append_more done rest (length bytes),
  append_assoc done bytes (drop (length bytes) rest),
)

-- A write that fits goes behind what is written.
put-At :
    (done bytes : List ℕ) (n : ℕ) (c : Cursor)
    → At done n c
    → length bytes ≤ n
    → (c' : Cursor) × (put c bytes ≡ some c') × At (done ++ bytes) (n - length bytes) c'
put-At done bytes n c a h = (
  _,
  ap (λ d. put d bytes) a.shape ∙ put-at done a.rest bytes (omega (arith, a.free)),
  record {
    rest = drop (length bytes) a.rest;
    shape = refl;
    free = omega (arith, length-drop (length bytes) a.rest, a.free);
  },
)

put_int-At :
    (host : Host) (done : List ℕ) (x n : ℕ) (c : Cursor)
    → At done n c
    → x < 2 ^ 32
    → 4 ≤ n
    → (c' : Cursor) × (put_int host c x ≡ some c') × At (done ++ be32 x) (n - 4) c'
unfolding put_int
put_int-At host done x n c a lt h =
    let (c', e, b) = put-At done (be32 x) n c a (omega (arith, length-be32 x)) in
    (
      c',
      ap (λ bs. put c bs)
            (ap (λ y. host.store (host.htonl y)) (omega arith) ∙ host.store-htonl x lt)
          ∙ e,
      subst (λ k. At (done ++ be32 x) (n - k) c') (length-be32 x) b,
    )

allocate-At :
    (host : Host) (n : ℕ)
    → n < 2 ^ 31
    → (c : Cursor) × (allocate host (to_int32 n) ≡ some c) × At [] n c
unfolding allocate
allocate-At host n h = (
  record { buf = host.new_chars n; p = 0 },
  ground arith,
  record { rest = host.new_chars n; shape = refl; free = host.length-new_chars n },
)

full-At : (done : List ℕ) (n : ℕ) (c : Cursor) → At done n c → n ≡ 0 → c.buf ≡ done
full-At done n c a none_left =
    ap (λ (d : Cursor). d.buf) a.shape
    ∙ ap (◌++◌ done) (no_bytes a.rest (a.free ∙ none_left))
    ∙ append-nil done
  where
    no_bytes : (xs : List ℕ) → length xs ≡ 0 → xs ≡ []
    no_bytes [] e = refl
    no_bytes (x ∷ xs) e = absurd (omega arith)

state_code-lt : (s : ProcessState) → state_code s < 2 ^ 32
state_code-lt s = ground arith

-- SendHeartbeatResponse computes the size of the message exactly: for addresses of less than 2 ^ 31 - 20
-- bytes together, no memcpy writes past the buffer, every byte of it is written, and what it holds in the
-- end is the response in the layout of the wire, on any machine that `Host` describes.
pub build_message-encode :
    (host : Host) (state : ProcessState) (representative_ip local_ip : List ℕ) (seq_num : ℕ)
    → 20 + length representative_ip + length local_ip < 2 ^ 31
    → seq_num < 2 ^ 32
    → build_message host (state_code state) representative_ip local_ip seq_num
      ≡ some (
          encode (record {
            seq_num = seq_num;
            representative_ip = representative_ip;
            state = state;
            local_ip = local_ip;
          }))
unfolding build_message encode
build_message-encode host state rip lip seq small seq-lt =
    let r : ℕ = length rip in
    let l : ℕ = length lip in
    let (c₀, e₀, a₀) = allocate-At host (4 + 4 + 4 + r + 4 + 4 + l) (omega arith) in
    let (c₁, e₁, a₁) = put_int-At host [] 1 _ c₀ a₀ (omega arith) (omega arith) in
    let (c₂, e₂, a₂) = put_int-At host _ seq _ c₁ a₁ seq-lt (omega arith) in
    let (c₃, e₃, a₃) = put_int-At host _ r _ c₂ a₂ (omega arith) (omega arith) in
    let (c₄, e₄, a₄) = put-At _ rip _ c₃ a₃ (omega arith) in
    let (c₅, e₅, a₅) =
      put_int-At host _ (state_code state) _ c₄ a₄ (state_code-lt state) (omega arith) in
    let (c₆, e₆, a₆) = put_int-At host _ l _ c₅ a₅ (omega arith) (omega arith) in
    let (c₇, e₇, a₇) = put-At _ lip _ c₆ a₆ (omega arith) in
    rw (e₀, e₁, e₂, e₃, e₄, e₅, e₆, e₇)
      (ap some (full-At _ _ c₇ a₇ (omega arith) ∙ simp append_assoc))

-- Round trip: for addresses of less than 2 ^ 31 - 20 bytes together and a number of 32 bits,
-- SendHeartbeatResponse builds a message, and an independent reader of the layout takes it apart into
-- the number, the addresses and the state that it was built from, with no byte left over.
pub build_message-decode :
    (host : Host) (state : ProcessState) (representative_ip local_ip : List ℕ) (seq_num : ℕ)
    → 20 + length representative_ip + length local_ip < 2 ^ 31
    → seq_num < 2 ^ 32
    → (message : List ℕ) × (build_message host (state_code state) representative_ip local_ip seq_num
        ≡ some message)
      × (decode message
          ≡ some (
            record {
              seq_num = seq_num;
              representative_ip = representative_ip;
              state = state;
              local_ip = local_ip;
            },
            [],
          ))
build_message-decode host state rip lip seq_num small seq_lt =
    let r : Response = record {
      seq_num = seq_num;
      representative_ip = rip;
      state = state;
      local_ip = lip;
    } in
    (
      encode r,
      build_message-encode host state rip lip seq_num small seq_lt,
      ap decode (sym (append-nil (encode r)))
          ∙ decode-encode r [] seq_lt (omega arith) (omega arith),
    )
