-- ===== src/Protocol/Validator.antt =====
-- src/dryve_d1/protocol/validator.py. An ADU is the list of its bytes. Reading a byte that is not
-- there is an IndexError in Python, and `byte` answers so.
pub mod Layout
pub mod Rules
pub mod Response
pub mod Request
use dryve_d.Base.{
  ℕ, ◌+◌, ◌*◌, ◌<◌, ◌≡◌, Bool, true, false, ◌||◌, Option, none, some, List, length, get_or, ltb,
  leb, ◌==◌, is_1_to_4, if◌then◌else◌,
}
use dryve_d.Base.Errors.{
  Error, Result, ok, err, guard, ◌>>=◌, ◌>>◌, index_error, telegram_format, telegram_validation,
}

-- `MBAP`
pub record Mbap : Type 0 where
  pub transaction_id : ℕ
  pub protocol_id : ℕ
  pub length : ℕ
  pub unit_id : ℕ

abbrev pub gateway_function_code : ℕ
gateway_function_code = 0x2B

-- `GATEWAY_FUNCTION_CODE | GATEWAY_EXCEPTION_MASK`
abbrev pub gateway_exception_code : ℕ
gateway_exception_code = 0xAB

abbrev pub gateway_mei_type : ℕ
gateway_mei_type = 0x0D

-- `adu[i]`
abbrev pub byte : List ℕ → ℕ → Result ℕ
byte adu i = if ltb i (length adu) then ok (get_or adu i 0) else err index_error

-- `(hi << 8) | lo` for two bytes, which share no bit.
abbrev pub be16 : ℕ → ℕ → ℕ
be16 hi lo = hi * 256 + lo

unfoldable pub parse_mbap : List ℕ → Result Mbap
parse_mbap adu = do
  guard (leb 7 (length adu)) telegram_format
  b0 ← byte adu 0
  b1 ← byte adu 1
  b2 ← byte adu 2
  b3 ← byte adu 3
  b4 ← byte adu 4
  b5 ← byte adu 5
  unit ← byte adu 6
  ok (record {
    transaction_id = be16 b0 b1;
    protocol_id = be16 b2 b3;
    length = be16 b4 b5;
    unit_id = unit;
  })

unfoldable pub validate_mbap : List ℕ → Result Mbap
unfolding parse_mbap
validate_mbap adu = do
  mbap ← parse_mbap adu
  guard (mbap.protocol_id == 0) telegram_validation
  guard (length adu == 6 + mbap.length) telegram_validation
  ok mbap

-- `_require_byte`
abbrev pub require_byte : List ℕ → ℕ → ℕ → Result (Unit {0})
require_byte adu idx expected = do b ← byte adu idx; guard (b == expected) telegram_validation

-- The reserved bytes, which requests and responses have at the same places.
abbrev pub require_reserved : List ℕ → Result (Unit {0})
require_reserved adu = do
  require_byte adu 10 0x00
  require_byte adu 11 0x00
  require_byte adu 15 0x00
  require_byte adu 16 0x00
  require_byte adu 17 0x00

-- `proto_ctrl == (1 if expect_write else 0)`, where the caller expects anything.
abbrev pub is_expected : Option Bool → ℕ → Bool
is_expected none proto_ctrl = true
is_expected (some true) proto_ctrl = proto_ctrl == 1
is_expected (some false) proto_ctrl = proto_ctrl == 0

-- The size rules of a read request and of a write request.
abbrev pub check_read_size : ℕ → ℕ → ℕ → Result (Unit {0})
check_read_size byte_count mbap_length total = do
  guard (is_1_to_4 byte_count) telegram_validation
  guard (mbap_length == 13) telegram_validation
  guard (total == 19) telegram_validation

abbrev pub check_write_size : ℕ → ℕ → ℕ → Result (Unit {0})
check_write_size byte_count mbap_length total = do
  guard (is_1_to_4 byte_count) telegram_validation
  guard (mbap_length == 13 + byte_count) telegram_validation
  guard (total == 19 + byte_count) telegram_validation

unfoldable pub validate_gateway_request : List ℕ → Option Bool → Result (Unit {0})
unfolding validate_mbap
validate_gateway_request adu expect_write = do
  mbap ← validate_mbap adu
  guard (leb 19 (length adu)) telegram_validation
  require_byte adu 7 gateway_function_code
  require_byte adu 8 gateway_mei_type
  proto_ctrl ← byte adu 9
  guard (proto_ctrl == 0 || proto_ctrl == 1) telegram_validation
  guard (is_expected expect_write proto_ctrl) telegram_validation
  require_reserved adu
  byte_count ← byte adu 18
  (if proto_ctrl == 0
      then check_read_size byte_count mbap.length (length adu)
      else check_write_size byte_count mbap.length (length adu))

-- The size rules of a read response and of a write response.
abbrev pub check_read_reply_size : ℕ → ℕ → Result (Unit {0})
check_read_reply_size byte_count total = do
  guard (is_1_to_4 byte_count) telegram_validation
  guard (total == 19 + byte_count) telegram_validation

abbrev pub check_write_reply_size : ℕ → ℕ → Result (Unit {0})
check_write_reply_size byte_count total =
    if byte_count == 0
    then guard (total == 19) telegram_validation
    else if is_1_to_4 byte_count
    then guard (total == 19 + byte_count) telegram_validation
    else err telegram_validation

-- The checks of a normal response, behind its function code.
abbrev pub validate_normal_response : List ℕ → Result (Unit {0})
validate_normal_response adu = do
  require_byte adu 8 gateway_mei_type
  guard (leb 19 (length adu)) telegram_validation
  proto_ctrl ← byte adu 9
  guard (proto_ctrl == 0 || proto_ctrl == 1) telegram_validation
  require_reserved adu
  byte_count ← byte adu 18
  (if proto_ctrl == 0
      then check_read_reply_size byte_count (length adu)
      else check_write_reply_size byte_count (length adu))

-- An exception response is accepted at any length from 9 on.
unfoldable pub validate_gateway_response : List ℕ → Result (Unit {0})
unfolding validate_mbap
validate_gateway_response adu = do
  _mbap ← validate_mbap adu
  guard (leb 9 (length adu)) telegram_validation
  func ← byte adu 7
  (if func == gateway_exception_code
      then ok tt
      else if func == gateway_function_code
      then validate_normal_response adu
      else err telegram_validation)

unfoldable pub extract_index_subindex : List ℕ → Result (ℕ × ℕ)
extract_index_subindex adu = do
  guard (leb 15 (length adu)) telegram_format
  hi ← byte adu 12
  lo ← byte adu 13
  sub ← byte adu 14
  ok (be16 hi lo, sub)
