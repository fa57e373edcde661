-- ===== src/Responser/Message.antt =====
-- The construction of the response in SendHeartbeatResponse: a buffer of the computed size, and a
-- pointer into it that each memcpy moves on.
use libcastis_heartbeat.Prelude.{
  ℕ, ◌+◌, ◌%◌, ◌^◌, ℤ, pos, negsuc, leb, to_int32, if◌then◌else◌, List, ◌++◌, length, take, drop,
  Option, none, some,
}
use libcastis_heartbeat.Prelude.Partial.{◌>>=◌}
use libcastis_heartbeat.Defs.{heartbeat_response, message_code}
use libcastis_heartbeat.Wire.{Host}

pub record Cursor : Type 0 where
  pub buf : List ℕ
  pub p : ℕ

-- `memcpy(p, bytes, n); p = p + n;`, where a write past the end of the buffer is a fault.
unfoldable pub put : Cursor → List ℕ → Option Cursor
put c bytes =
    if leb (c.p + length bytes) (length c.buf)
    then some (record {
      buf = take c.p c.buf ++ (bytes ++ drop (c.p + length bytes) c.buf);
      p = c.p + length bytes;
    })
    else none

module _ (host : Host) where
  -- `iTemp = htonl(x); memcpy(p, (void*)&iTemp, 4); p = p + 4;`, where `x` is converted to uint32_t.
  unfoldable pub put_int : Cursor → ℕ → Option Cursor
  put_int c x = put c (host.store (host.htonl (x % 2 ^ 32)))

  -- new char[iMsgStrSize], which throws for a negative size.
  unfoldable pub allocate : ℤ → Option Cursor
  allocate (pos n) = some (record { buf = host.new_chars n; p = 0 })
  allocate (negsuc n) = none

  unfoldable pub build_message : ℕ → List ℕ → List ℕ → ℕ → Option (List ℕ)
  build_message process_state representative_ip local_ip seq_num = do
    c₀ ← allocate (to_int32 (4 + 4 + 4 + length representative_ip + 4 + 4 + length local_ip))
    c₁ ← put_int c₀ (message_code heartbeat_response)
    c₂ ← put_int c₁ seq_num
    c₃ ← put_int c₂ (length representative_ip)
    c₄ ← put c₃ representative_ip
    c₅ ← put_int c₄ process_state
    c₆ ← put_int c₅ (length local_ip)
    c₇ ← put c₆ local_ip
    some c₇.buf
