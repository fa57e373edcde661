-- ===== src/Defs.antt =====
-- legacy_compatible/CiHBDefines.h, and the enumerations of asio_base/HeartBeatSession.h, which have
-- the same values.
use libcastis_heartbeat.Prelude.{ℕ}

pub data MessageType : Type 0 where
  heartbeat_request heartbeat_response : MessageType

pub data ProcessState : Type 0 where
  alive sw_error hw_error : ProcessState

-- The values that the compiler gives to the enumerators.
abbrev pub message_code : MessageType → ℕ
message_code heartbeat_request = 0
message_code heartbeat_response = 1

abbrev pub state_code : ProcessState → ℕ
state_code alive = 0
state_code sw_error = 1
state_code hw_error = 2

-- CIHB_MAX_DATA_SIZE
abbrev pub max_data_size : ℕ
max_data_size = 1350
