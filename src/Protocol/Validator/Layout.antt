-- ===== src/Protocol/Validator/Layout.antt =====
-- The layout of the telegrams byte by byte, as the manual gives it but for one thing: an exception
-- response has 9 bytes there, and may be longer here, as some firmware sends it.
use dryve_d.Base.{ℕ, ◌+◌, ◌*◌, ◌≤◌, ◌≡◌, ◌⊎◌, Bool, true, Option, List, length, get_or}
use dryve_d.Base.Errors.{Error, telegram_format, telegram_validation}
use dryve_d.Protocol.Validator.{Mbap, be16, is_expected}

-- A malformed telegram: TelegramFormatError or TelegramValidationError.
abbrev pub IsTelegramError : Error → Type 0
IsTelegramError e = (e ≡ telegram_format) ⊎ (e ≡ telegram_validation)

abbrev pub get : List ℕ → ℕ → ℕ
get adu i = get_or adu i 0

-- What `validate_mbap` accepts: the protocol is 0 and the length field counts the bytes behind it.
pub record IsFramed (adu : List ℕ) (mbap : Mbap) : Type 0 where
  pub header : 7 ≤ length adu
  pub transaction : mbap.transaction_id ≡ be16 (get adu 0) (get adu 1)
  pub protocol : be16 (get adu 2) (get adu 3) ≡ 0
  pub total : length adu ≡ 6 + mbap.length
  pub length_field : mbap.length ≡ be16 (get adu 4) (get adu 5)
  pub unit : mbap.unit_id ≡ get adu 6

-- The five reserved bytes are 0.
pub record IsReserved (adu : List ℕ) : Type 0 where
  pub byte_10 : get adu 10 ≡ 0
  pub byte_11 : get adu 11 ≡ 0
  pub byte_15 : get adu 15 ≡ 0
  pub byte_16 : get adu 16 ≡ 0
  pub byte_17 : get adu 17 ≡ 0

-- A normal response: function code, MEI type, read or write, reserved bytes, and as many data
-- bytes as byte 18 says, one to four of them, or none in the answer to a write.
pub record IsNormalResponse (adu : List ℕ) : Type 0 where
  pub function : get adu 7 ≡ 0x2B
  pub mei : get adu 8 ≡ 0x0D
  pub control : get adu 9 ≤ 1
  pub reserved : IsReserved adu
  pub count : get adu 18 ≤ 4
  pub read_count : get adu 9 ≡ 0 → 1 ≤ get adu 18
  pub size : length adu ≡ 19 + get adu 18

-- An exception response. The manual's has 9 bytes; a longer one is tolerated, whatever follows.
abbrev pub IsException : List ℕ → Type 0
IsException adu = (get adu 7 ≡ 0xAB) × (9 ≤ length adu)

-- A well framed exception response or normal response.
abbrev pub IsResponse : List ℕ → Type 0
IsResponse adu = (mbap : Mbap) × IsFramed adu mbap × (IsException adu ⊎ IsNormalResponse adu)

-- What `validate_gateway_request` accepts, from a caller that expects a write, a read or either.
pub record IsRequest (adu : List ℕ) (expect_write : Option Bool) : Type 0 where
  pub mbap : Mbap
  pub framed : IsFramed adu mbap
  pub function : get adu 7 ≡ 0x2B
  pub mei : get adu 8 ≡ 0x0D
  pub control : get adu 9 ≤ 1
  pub expected : is_expected expect_write (get adu 9) ≡ true
  pub reserved : IsReserved adu
  pub some_count : 1 ≤ get adu 18
  pub count : get adu 18 ≤ 4
  pub size : length adu ≡ 19 + get adu 9 * get adu 18
