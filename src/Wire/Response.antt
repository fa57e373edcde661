-- ===== src/Wire/Response.antt =====
-- The heartbeat response as a reader of the wire sees it: the layout that the comment in
-- legacy_compatible/CiHBResponser.cpp (SendHeartbeatResponse) gives, msg_type, seq_num,
-- representative ip length, representative ip, state, local ip length, local ip.
use libcastis_heartbeat.Prelude.{
  ℕ, ◌+◌, ◌^◌, ◌<◌, ◌≡◌, refl, ap, List, [], ◌∷◌, ◌++◌, Option, none, some, length, take, drop, leb,
  ◌==◌, if◌then◌else◌, arith, take-append, drop-append, append_assoc, length-append,
}
use libcastis_heartbeat.Prelude.Partial.{◌>>=◌}
use libcastis_heartbeat.Defs.{
  ProcessState, alive, sw_error, hw_error, heartbeat_response, message_code, state_code,
}
use libcastis_heartbeat.Wire.{be32}
use libcastis_heartbeat.Wire.BigEndian.{be_value, be_value-be32, length-be32}

pub record Response : Type 0 where
  pub seq_num : ℕ
  pub representative_ip : List ℕ
  pub state : ProcessState
  pub local_ip : List ℕ

unfoldable pub encode : Response → List ℕ
encode r =
    be32 (message_code heartbeat_response)
    ++ (be32 r.seq_num
        ++ (be32 (length r.representative_ip)
            ++ (r.representative_ip
                ++ (be32 (state_code r.state) ++ (be32 (length r.local_ip) ++ r.local_ip)))))

pub length-encode :
    (r : Response) → length (encode r) ≡ 20 + length r.representative_ip + length r.local_ip
unfolding encode be32
length-encode r = simp (length-append, length-be32) (omega arith)

-- A reader of its own, written from the layout.
read32 : List ℕ → Option (ℕ × List ℕ)
read32 (a ∷ b ∷ c ∷ d ∷ rest) = some (be_value (a ∷ b ∷ c ∷ d ∷ []), rest)
read32 _ = none

read_bytes : ℕ → List ℕ → Option (List ℕ × List ℕ)
read_bytes n bs = if leb n (length bs) then some (take n bs, drop n bs) else none

read_state : ℕ → Option ProcessState
read_state n =
    if n == 0
    then some alive
    else if n == 1
    then some sw_error
    else if n == 2
    then some hw_error
    else none

read_type : ℕ → Option (Unit {0})
read_type n = if n == message_code heartbeat_response then some tt else none

pub decode : List ℕ → Option (Response × List ℕ)
decode bs = do
  (kind, bs₁) ← read32 bs
  _ ← read_type kind
  (seq_num, bs₂) ← read32 bs₁
  (n, bs₃) ← read32 bs₂
  (representative_ip, bs₄) ← read_bytes n bs₃
  (code, bs₅) ← read32 bs₄
  state ← read_state code
  (m, bs₆) ← read32 bs₅
  (local_ip, rest) ← read_bytes m bs₆
  some (
    record {
      seq_num = seq_num;
      representative_ip = representative_ip;
      state = state;
      local_ip = local_ip;
    },
    rest,
  )

read32-be32 : (x : ℕ) (rest : List ℕ) → x < 2 ^ 32 → read32 (be32 x ++ rest) ≡ some (x, rest)
unfolding read32 be32
read32-be32 x rest h = ap (λ n. some (n, rest)) (unfold be32 in be_value-be32 x h)

read_bytes-append : (xs rest : List ℕ) → read_bytes (length xs) (xs ++ rest) ≡ some (xs, rest)
unfolding read_bytes
read_bytes-append xs rest =
    ground (arith, length-append xs rest, take-append xs rest, drop-append xs rest)

read_state-state_code : (s : ProcessState) → read_state (state_code s) ≡ some s
unfolding read_state
read_state-state_code alive = refl
read_state-state_code sw_error = refl
read_state-state_code hw_error = refl

state_code-lt : (s : ProcessState) → state_code s < 2 ^ 32
state_code-lt s = ground arith

-- A reader gets back what was encoded, and what follows it on the wire.
pub decode-encode :
    (r : Response) (rest : List ℕ)
    → r.seq_num < 2 ^ 32
    → length r.representative_ip < 2 ^ 32
    → length r.local_ip < 2 ^ 32
    → decode (encode r ++ rest) ≡ some (r, rest)
unfolding decode encode read_type
decode-encode r rest hs hr hl = simp append_assoc (
    rw (
      read32-be32 1 _ (omega arith),
      read32-be32 r.seq_num _ hs,
      read32-be32 (length r.representative_ip) _ hr,
      read_bytes-append r.representative_ip,
      read32-be32 (state_code r.state) _ (state_code-lt r.state),
      read_state-state_code r.state,
      read32-be32 (length r.local_ip) _ hl,
      read_bytes-append r.local_ip rest,
    ))
