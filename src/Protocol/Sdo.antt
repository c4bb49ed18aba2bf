-- ===== src/Protocol/Sdo.antt =====
-- src/dryve_d1/protocol/sdo.py. A client is its unit id, which its constructor has checked; the
-- data classes of the two requests are the arguments of the functions.
use dryve_d.Base.{ℕ, Bool, ◌||◌, List, length, some, ◌==◌, if◌then◌else◌}
use dryve_d.Base.Int.{ℤ}
use dryve_d.Base.Errors.{Result, ok, guard, ◌>>=◌, ◌>>◌, value_error, response_mismatch}
use dryve_d.Protocol.Codec.{Endian, pack_int, unpack_int}
use dryve_d.Protocol.Telegram.{
  Telegram, Policy, in_range, build_read_adu, build_write_adu, parse_adu,
}

-- `SDOClient`
pub record SdoClient : Type 0 where
  pub unit_id : ℤ

-- `SDOClient.__init__`
unfoldable pub new_client : ℤ → Result SdoClient
new_client unit_id = do guard (in_range unit_id 0xFF) value_error; ok (record { unit_id = unit_id })

unfoldable pub build_read : SdoClient → ℤ → ℤ → ℕ → ℤ → Result Telegram
build_read client index subindex byte_count transaction_id =
    build_read_adu transaction_id client.unit_id index subindex byte_count

unfoldable pub build_write : SdoClient → ℤ → ℤ → List ℕ → ℤ → Result Telegram
build_write client index subindex payload transaction_id =
    build_write_adu transaction_id client.unit_id index subindex payload

unfoldable pub parse_read_response : Policy → List ℕ → Telegram → Result (List ℕ)
parse_read_response policy adu request = do
  resp ← parse_adu policy adu (some request)
  guard (resp.protocol_control == 0) response_mismatch
  guard (length resp.payload == resp.byte_count) response_mismatch
  ok resp.payload

-- With `byte_count` 0 the code tests for data left over, which is the same test of the length.
unfoldable pub parse_write_response : Policy → List ℕ → Telegram → Result (Unit {0})
parse_write_response policy adu request = do
  resp ← parse_adu policy adu (some request)
  guard (resp.protocol_control == 0 || resp.protocol_control == 1) response_mismatch
  (if resp.byte_count == 0
      then guard (length resp.payload == 0) response_mismatch
      else guard (length resp.payload == resp.byte_count) response_mismatch)

-- The arguments `signed` of the builders of reads are not used by the code.
unfoldable pub build_read_int : SdoClient → ℤ → ℤ → ℕ → ℤ → Result Telegram
unfolding build_read
build_read_int client index subindex size transaction_id =
    build_read client index subindex size transaction_id

unfoldable pub decode_read_int : Policy → List ℕ → Telegram → Bool → Result ℤ
unfolding parse_read_response
decode_read_int policy adu request signed = do
  payload ← parse_read_response policy adu request
  unpack_int payload signed Endian.little

unfoldable pub build_write_int : SdoClient → ℤ → ℤ → ℤ → ℕ → Bool → ℤ → Result Telegram
unfolding build_write
build_write_int client index subindex value size signed transaction_id = do
  payload ← pack_int value size signed Endian.little
  build_write client index subindex payload transaction_id
