-- ===== src/Protocol.antt =====
-- The shared types and constants of src/arc_protocol.h: sizes, flag bits, families, result codes
-- and the decoded frame.
use arc_protocol.Prelude.{ℕ, ◌+◌, ◌-◌}
use arc_protocol.Memory.{Bytes, Ptr}

abbrev pub header_size : ℕ
header_size = 9

abbrev pub crc_size : ℕ
crc_size = 2

abbrev pub overhead : ℕ
overhead = header_size + crc_size

abbrev pub max_encoded_size : ℕ
max_encoded_size = 254

abbrev pub cobs_overhead : ℕ
cobs_overhead = 2

abbrev pub max_frame_size : ℕ
max_frame_size = max_encoded_size - cobs_overhead

abbrev pub max_payload_size : ℕ
max_payload_size = max_frame_size - overhead

abbrev pub flag_reliable : ℕ
flag_reliable = 0x01

abbrev pub flag_ack : ℕ
flag_ack = 0x04

abbrev pub family_netmgmt : ℕ
family_netmgmt = 0x00

abbrev pub netmgmt_ack : ℕ
netmgmt_ack = 0x02

-- The negative values of `arc_result_t`.
pub data Error : Type 0 where
  err_buffer err_too_short err_too_long err_bad_length err_bad_crc : Error
  err_bad_cobs err_bad_version err_bad_arg : Error

-- A return value: `err` is a negative code. A function that returns a size gives it by `ok n`, one
-- that returns `ARC_OK` gives `ok tt`.
pub data Result {ℓ} (A : Type ℓ) : Type ℓ where
  ok : A → Result A
  err : Error → Result A

-- `arc_frame_t`. `payload` holds the bytes that the pointer leads to.
pub record Frame : Type 0 where
  pub src : ℕ
  pub dst : ℕ
  pub flags : ℕ
  pub session : ℕ
  pub seq : ℕ
  pub family : ℕ
  pub type : ℕ
  pub payload : Ptr Bytes
  pub payload_len : ℕ
