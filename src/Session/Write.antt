-- ===== src/Session/Write.antt =====
-- The response that HeartBeatSession sends.
use libcastis_heartbeat.Prelude.{
  ℕ, ◌+◌, ◌^◌, ◌<◌, ◌≡◌, ap, sym, ◌∙◌, List, ◌++◌, length, append_assoc, arith, some,
}
use libcastis_heartbeat.Prelude.{ℤ}
use libcastis_heartbeat.Prelude.Machine.{M}
use libcastis_heartbeat.Defs.{ProcessState, state_code}
use libcastis_heartbeat.Wire.{Host, be32}
use libcastis_heartbeat.Wire.Response.{Response, encode}
use libcastis_heartbeat.Responser.Message.{build_message}
use libcastis_heartbeat.Responser.Build.{build_message-encode}
use libcastis_heartbeat.Session.Boost.{Asio}
use libcastis_heartbeat.Session.{Session, App, write_int, response_buffer}

abbrev pub session_response : {Endpoint : Type 0} → Session Endpoint → ℕ → Response
session_response s seq_num = record {
  seq_num = seq_num;
  representative_ip = s.representative_ip;
  state = s.process_state;
  local_ip = s.local_ip;
}

module _ {World Endpoint Streambuf : Type 0} (host : Host) (asio : Asio World Endpoint Streambuf)
    (on_error : ℤ → List ℕ → M (App World Endpoint) (Unit {0})) where
  contents-write_int :
      (x : ℕ) (b : Streambuf)
      → x < 2 ^ 32
      → asio.contents (write_int host asio on_error x b) ≡ asio.contents b ++ be32 x
  unfolding write_int
  contents-write_int x b h =
      asio.contents-sputn b _
      ∙ ap (◌++◌ (asio.contents b))
          (ap (λ y. host.store (host.htonl y)) (omega arith) ∙ host.store-htonl x h)

  state_code-lt : (st : ProcessState) → state_code st < 2 ^ 32
  state_code-lt st = ground arith

  -- The buffer that do_write_response sends holds the response in the layout of the wire, on any machine
  -- that `Host` describes, for a sequence number and addresses' lengths below 2 ^ 32.
  pub response_buffer-encode :
      (s : Session Endpoint) (seq_num : ℕ)
      → seq_num < 2 ^ 32
      → length s.representative_ip < 2 ^ 32
      → length s.local_ip < 2 ^ 32
      → asio.contents (response_buffer host asio on_error s seq_num)
        ≡ encode (session_response s seq_num)
  unfolding response_buffer encode
  response_buffer-encode s seq_num hs hr hl =
      rw
        (
          asio.contents-sputn,
          contents-write_int (length s.local_ip) _ hl,
          contents-write_int (state_code s.process_state) _ (state_code-lt s.process_state),
          asio.contents-sputn,
          contents-write_int (length s.representative_ip) _ hr,
          contents-write_int seq_num _ hs,
          contents-write_int 1 _ (omega arith),
          asio.contents-new,
        )
        (simp append_assoc)

  -- The two responders answer alike: for the same addresses, process state and sequence number, the
  -- message that SendHeartbeatResponse of the legacy class builds is the one that do_write_response of the
  -- session sends, for addresses of less than 2 ^ 31 - 20 bytes together.
  pub build_message-response_buffer :
      (s : Session Endpoint) (seq_num : ℕ)
      → seq_num < 2 ^ 32
      → 20 + length s.representative_ip + length s.local_ip < 2 ^ 31
      → build_message host (state_code s.process_state) s.representative_ip s.local_ip seq_num
        ≡ some (asio.contents (response_buffer host asio on_error s seq_num))
  build_message-response_buffer s seq_num hs small =
      build_message-encode host s.process_state s.representative_ip s.local_ip seq_num small hs
      ∙ ap some (sym (response_buffer-encode s seq_num hs (omega arith) (omega arith)))
