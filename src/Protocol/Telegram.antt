-- ===== src/Protocol/Telegram.antt =====
-- src/dryve_d1/protocol/gateway_telegram.py. Python's integers are ℤ where the code tests their
-- sign. The rate-limited log lines are left out: they change nothing but the log.
pub mod Build
pub mod Matching
use dryve_d.Base.{
  ℕ, zero, suc, ◌+◌, ◌-◌, ◌≡◌, Bool, true, false, not, ◌&&◌, ◌||◌, Option, none, some, List, [],
  ◌∷◌, ◌++◌, length, drop, replicate, ltb, leb, ◌==◌, is_1_to_4, if◌then◌else◌,
}
use dryve_d.Base.Int.{ℤ, pos, leb_ℤ, low_byte, high_byte}
use dryve_d.Base.Errors.{
  Error, Result, ok, err, guard, ◌>>=◌, ◌>>◌, value_error, response_mismatch, modbus_gateway,
}
use dryve_d.Protocol.Validator.{
  Mbap, byte, parse_mbap, validate_gateway_request, validate_gateway_response,
  extract_index_subindex, gateway_function_code, gateway_exception_code, gateway_mei_type,
}

-- `GatewayTelegram`: its two derived fields are set from the header.
pub record Telegram : Type 0 where
  pub adu : List ℕ
  pub transaction_id : ℕ
  pub unit_id : ℕ

-- `GatewayTelegram(adu=adu)`, with `__post_init__`.
unfoldable pub telegram : List ℕ → Result Telegram
unfolding parse_mbap
telegram adu = do
  mbap ← parse_mbap adu
  ok (record { adu = adu; transaction_id = mbap.transaction_id; unit_id = mbap.unit_id })

-- `GatewayResponse`. The optional fields that `parse_adu` always gives are numbers here, and
-- `exception_code`, which it always leaves None, is left out.
pub record Response : Type 0 where
  pub transaction_id : ℕ
  pub unit_id : ℕ
  pub function_code : ℕ
  pub protocol_control : ℕ
  pub index : ℕ
  pub subindex : ℕ
  pub byte_count : ℕ
  pub payload : List ℕ

-- `0 <= n <= top`
abbrev pub in_range : ℤ → ℕ → Bool
in_range n top = leb_ℤ (pos 0) n && leb_ℤ n (pos top)

-- `_mbap_bytes`
unfoldable pub mbap_bytes : ℤ → ℕ → ℤ → Result (List ℕ)
mbap_bytes transaction_id length unit_id = do
  guard (in_range transaction_id 0xFFFF) value_error
  guard (in_range (pos length) 0xFFFF) value_error
  guard (in_range unit_id 0xFF) value_error
  ok (
      high_byte transaction_id
      ∷ low_byte transaction_id
      ∷ 0x00
      ∷ 0x00
      ∷ high_byte (pos length)
      ∷ low_byte (pos length)
      ∷ low_byte unit_id
      ∷ [])

-- Bytes 7 to 18 of a request.
abbrev pub pdu_header : ℕ → ℤ → ℤ → ℕ → List ℕ
pdu_header control index subindex count =
    gateway_function_code
    ∷ gateway_mei_type
    ∷ control
    ∷ 0x00
    ∷ 0x00
    ∷ high_byte index
    ∷ low_byte index
    ∷ low_byte subindex
    ∷ 0x00
    ∷ 0x00
    ∷ 0x00
    ∷ low_byte (pos count)
    ∷ []

unfoldable pub build_read_adu : ℤ → ℤ → ℤ → ℤ → ℕ → Result Telegram
unfolding mbap_bytes
build_read_adu transaction_id unit_id index subindex byte_count = do
  guard (is_1_to_4 byte_count) value_error
  guard (in_range index 0xFFFF) value_error
  guard (in_range subindex 0xFF) value_error
  let pdu = pdu_header 0x00 index subindex byte_count
  header ← mbap_bytes transaction_id (1 + length pdu) unit_id
  let adu = header ++ pdu
  validate_gateway_request adu (some false)
  telegram adu

unfoldable pub build_write_adu : ℤ → ℤ → ℤ → ℤ → List ℕ → Result Telegram
unfolding mbap_bytes
build_write_adu transaction_id unit_id index subindex payload = do
  guard (is_1_to_4 (length payload)) value_error
  guard (in_range index 0xFFFF) value_error
  guard (in_range subindex 0xFF) value_error
  let pdu = pdu_header 0x01 index subindex (length payload) ++ payload
  header ← mbap_bytes transaction_id (1 + length pdu) unit_id
  let adu = header ++ pdu
  validate_gateway_request adu (some true)
  telegram adu

-- The two runtime switches, `tid_mismatch_ok` and `unit_id_wildcard_ok`; where the caller gives
-- None the code asks `runtime_policy`, and the answer is what is given here.
pub record Policy : Type 0 where
  pub tid_mismatch_ok : Bool
  pub unit_id_wildcard_ok : Bool

-- `resp.unit_id in (0x00, 0xFF)`
abbrev pub is_wildcard : ℕ → Bool
is_wildcard unit_id = unit_id == 0x00 || unit_id == 0xFF

-- The unit id is the request's, or a tolerated wildcard.
abbrev pub unit_id_matches : Policy → ℕ → ℕ → Bool
unit_id_matches policy resp req = resp == req || (is_wildcard resp && policy.unit_id_wildcard_ok)

-- The end of `parse_adu` for a read: the data has the length announced, and a short answer is
-- padded with zeros to the width requested.
unfoldable pub match_read_data : Response → Telegram → Result Response
match_read_data resp request = do
  req_byte_count ← byte request.adu 18
  guard (length resp.payload == resp.byte_count) response_mismatch
  ok (
      if ltb resp.byte_count req_byte_count
      then record resp {
        byte_count = req_byte_count;
        payload = resp.payload ++ replicate (req_byte_count - resp.byte_count) 0;
      }
      else resp)

-- The block `if request is not None` of `parse_adu`.
unfoldable pub match_request : Policy → Response → Telegram → Result Response
unfolding match_read_data
match_request policy resp request = do
  guard (unit_id_matches policy resp.unit_id request.unit_id) response_mismatch
  (req_index, req_sub) ← extract_index_subindex request.adu
  guard (resp.index == req_index && resp.subindex == req_sub) response_mismatch
  guard (resp.transaction_id == request.transaction_id || policy.tid_mismatch_ok) response_mismatch
  req_control ← byte request.adu 9
  (if req_control == 0x01 then ok resp else match_read_data resp request)

-- A normal response, read off the bytes.
unfoldable pub normal_response : List ℕ → Mbap → ℕ → Result Response
normal_response adu mbap func = do
  proto_ctrl ← byte adu 9
  (index, sub) ← extract_index_subindex adu
  bc ← byte adu 18
  ok (record {
    transaction_id = mbap.transaction_id;
    unit_id = mbap.unit_id;
    function_code = func;
    protocol_control = proto_ctrl;
    index = index;
    subindex = sub;
    byte_count = bc;
    payload = if ltb 19 (length adu) then drop 19 adu else [];
  })

-- `request` is None or the telegram that was sent.
abbrev pub match_optional : Policy → Response → Option Telegram → Result Response
match_optional policy resp none = ok resp
match_optional policy resp (some request) = match_request policy resp request

-- The exception that an exception response is turned into.
abbrev pub raise_exception : List ℕ → Mbap → ℕ → Result Response
raise_exception adu mbap func = do
  exc_code ← byte adu 8
  err (modbus_gateway func exc_code (some mbap.transaction_id) (some mbap.unit_id))

unfoldable pub parse_adu : Policy → List ℕ → Option Telegram → Result Response
unfolding match_request normal_response
parse_adu policy adu request = do
  validate_gateway_response adu
  mbap ← parse_mbap adu
  func ← byte adu 7
  (if func == gateway_exception_code
      then raise_exception adu mbap func
      else normal_response adu mbap func >>= λ resp. match_optional policy resp request)
