-- ===== src/Simulator/Gateway.antt =====
-- The gateway functions of packages/cia402-dryve-d1/src/cia402_dryve_d1/simulator.py: how the
-- simulated drive reads a request and writes a response.
use dryve_d.Base.{
  ℕ, ◌+◌, ◌/◌, ◌%◌, Bool, true, not, ◌&&◌, ◌||◌, List, [], ◌∷◌, ◌++◌, length, take, drop, leb, ◌==◌,
  if◌then◌else◌,
}
use Prim.Native.Nat.{bit_or}
use dryve_d.Base.Errors.{Result, ok, guard, ◌>>=◌, ◌>>◌, value_error}
use dryve_d.Protocol.Validator.{byte, be16}

-- `OBJECT_SIZES`, as the pairs in the order of the source.
abbrev pub object_sizes : List (ℕ × ℕ)
object_sizes =
    (0x6040, 2)
    ∷ (0x6041, 2)
    ∷ (0x6060, 1)
    ∷ (0x6061, 1)
    ∷ (0x6064, 4)
    ∷ (0x606C, 4)
    ∷ (0x607A, 4)
    ∷ (0x6081, 4)
    ∷ (0x6083, 4)
    ∷ (0x6084, 4)
    ∷ (0x60FF, 4)
    ∷ (0x6098, 1)
    ∷ (0x607B, 4)
    ∷ (0x607D, 4)
    ∷ (0x2014, 2)
    ∷ []

-- `idx not in OBJECT_SIZES or byte_count == OBJECT_SIZES[idx]`
unfoldable pub size_matches : ℕ → ℕ → List (ℕ × ℕ) → Bool
size_matches idx byte_count [] = true
size_matches idx byte_count ((i, n) ∷ sizes) =
    if idx == i then byte_count == n else size_matches idx byte_count sizes

-- The switches STRICT_TELEGRAM and STRICT_OBJECT_SIZE.
pub record Strictness : Type 0 where
  pub telegram : Bool
  pub object_size : Bool

-- The dictionary that `parse_gateway_request` returns.
pub record Request : Type 0 where
  pub tid_bytes : List ℕ
  pub unit_id : ℕ
  pub proto_control : ℕ
  pub index_hi : ℕ
  pub index_lo : ℕ
  pub subindex : ℕ
  pub byte_count : ℕ
  pub payload : List ℕ

-- `not_gateway` carries the function code that was found instead.
pub data Parsed : Type 0 where
  gateway : Request → Parsed
  not_gateway : ℕ → Parsed

-- `build_mbap`, for a length that fits 16 bits.
unfoldable pub build_mbap : List ℕ → ℕ → Result (List ℕ)
build_mbap tid_bytes payload_len = do
  guard (length tid_bytes == 2) value_error
  ok (tid_bytes ++ (0x00 ∷ 0x00 ∷ payload_len / 256 ∷ payload_len % 256 ∷ []))

unfoldable pub build_exception : List ℕ → ℕ → ℕ → ℕ → Result (List ℕ)
unfolding build_mbap
build_exception tid_bytes unit_id func exception_code = do
  let pdu : List ℕ = unit_id ∷ bit_or func 0x80 ∷ exception_code % 256 ∷ []
  mbap ← build_mbap tid_bytes (length pdu)
  ok (mbap ++ pdu)

-- The 13 bytes behind the length field, up to the byte count.
abbrev pub response_header : ℕ → ℕ → ℕ → ℕ → ℕ → ℕ → List ℕ
response_header unit_id proto_control index_hi index_lo subindex count =
    unit_id
    ∷ 0x2B
    ∷ 0x0D
    ∷ proto_control % 256
    ∷ 0x00
    ∷ 0x00
    ∷ index_hi % 256
    ∷ index_lo % 256
    ∷ subindex % 256
    ∷ 0x00
    ∷ 0x00
    ∷ 0x00
    ∷ count
    ∷ []

unfoldable pub build_gateway_response :
    List ℕ → ℕ → ℕ → ℕ → ℕ → ℕ → ℕ → List ℕ → Bool → Result (List ℕ)
unfolding build_mbap
build_gateway_response tid_bytes unit_id proto_control index_hi index_lo subindex byte_count bytes
      is_write_handshake =
    let payload : List ℕ =
      if is_write_handshake
      then response_header unit_id proto_control index_hi index_lo subindex 0
      else response_header unit_id proto_control index_hi index_lo subindex (byte_count % 256)
        ++ bytes in
    build_mbap tid_bytes (length payload) >>= λ mbap. ok (mbap ++ payload)

-- `length`, the third field of the header, counts the bytes behind it.
abbrev pub length_field : List ℕ → Result ℕ
length_field frame = do hi ← byte frame 4; lo ← byte frame 5; ok (be16 hi lo)

-- The data of a read request and of a write request.
abbrev pub request_data : List ℕ → ℕ → ℕ → ℕ → Result (List ℕ)
request_data frame proto_control byte_count len =
    if proto_control == 0
    then guard (len == 13) value_error >> ok []
    else guard (len == 13 + byte_count) value_error
      >> (let bytes = take byte_count (drop 19 frame) in
          guard (length bytes == byte_count) value_error >> ok bytes)

-- `parse_gateway_request` behind the test of the function code.
unfoldable pub parse_gateway_body : Strictness → List ℕ → ℕ → ℕ → Result Parsed
parse_gateway_body strict frame len unit_id = do
  guard (leb 13 len) value_error
  mei ← byte frame 8
  proto_control ← byte frame 9
  reserved10 ← byte frame 10
  node_id ← byte frame 11
  index_hi ← byte frame 12
  index_lo ← byte frame 13
  subindex ← byte frame 14
  start15 ← byte frame 15
  start16 ← byte frame 16
  reserved17 ← byte frame 17
  byte_count ← byte frame 18
  guard (mei == 0x0D) value_error
  guard (proto_control == 0 || proto_control == 1) value_error
  guard (leb 1 byte_count && leb byte_count 4) value_error
  guard
      (not strict.telegram
        || (reserved10 == 0 && node_id == 0 && start15 == 0 && start16 == 0 && reserved17 == 0))
      value_error
  bytes ← request_data frame proto_control byte_count len
  guard (not strict.object_size || size_matches (be16 index_hi index_lo) byte_count object_sizes)
      value_error
  ok (
      gateway (record {
        tid_bytes = take 2 frame;
        unit_id = unit_id;
        proto_control = proto_control;
        index_hi = index_hi;
        index_lo = index_lo;
        subindex = subindex;
        byte_count = byte_count;
        payload = bytes;
      }))

unfoldable pub parse_gateway_request : Strictness → List ℕ → Result Parsed
unfolding parse_gateway_body
parse_gateway_request strict frame = do
  guard (leb 19 (length frame)) value_error
  pid_hi ← byte frame 2
  pid_lo ← byte frame 3
  len ← length_field frame
  guard (be16 pid_hi pid_lo == 0) value_error
  guard (length frame == 6 + len) value_error
  unit_id ← byte frame 6
  func ← byte frame 7
  (if func == 0x2B then parse_gateway_body strict frame len unit_id else ok (not_gateway func))
