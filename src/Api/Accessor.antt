-- ===== src/Api/Accessor.antt =====
-- src/dryve_d1/api/od_accessor.py: `OdAccessorMixin`. An access takes a transaction id, builds its
-- request, exchanges it in a session, and reads the response.
pub mod Stored
use dryve_d.Base.{ℕ, ◌%◌, ◌-◌, Bool, true, false, not, Option, none, some, List, if◌then◌else◌}
use dryve_d.Base.Int.{ℤ, pos, negsuc, low_u16}
use dryve_d.Base.Errors.{Result, ok, err, runtime_error}
use dryve_d.Io.{Plant}
use dryve_d.Protocol.Telegram.{Telegram, Policy}
use dryve_d.Protocol.Sdo.{
  SdoClient, build_read_int, build_write_int, decode_read_int, parse_write_response,
}

-- What the accessor uses: the session, whose call runs in an executor with a time limit and so may
-- raise, and the event loop. `N` is the state of the session and of all that is behind it.
pub record Link (N : Type 0) : Type 0 where
  pub is_connected : N → Bool
  pub next_transaction_id : N → ℕ × N
  pub transceive : List ℕ → N → Result (List ℕ) × N
  pub sleep : ℕ → N → N
  pub clock : N → ℕ

-- `value & 0xFFFFFFFF`
abbrev pub low_u32 : ℤ → ℕ
low_u32 (pos n) = n % 4294967296
low_u32 (negsuc n) = 4294967295 - n % 4294967296

-- The response of `_transceive`, if it has one, is read.
abbrev pub received :
    {N A : Type 0} → (List ℕ → Telegram → Result A) → Telegram → Result (List ℕ) × N → Result A × N
received parse request (err e, n) = (err e, n)
received parse request (ok adu, n) = (parse adu request, n)

module _ {N : Type 0} (link : Link N) where
  -- The statements after the request was built.
  unfoldable pub exchange :
      {A : Type 0} → (List ℕ → Telegram → Result A) → Result Telegram → N → Result A × N
  exchange parse (err e) n = (err e, n)
  exchange parse (ok request) n = received parse request (link.transceive request.adu n)

  -- An access: `_next_tid`, the request, `_transceive`, and the response.
  unfoldable pub access :
      {A : Type 0} → (ℤ → Result Telegram) → (List ℕ → Telegram → Result A) → N → Result A × N
  access build parse n =
      if not (link.is_connected n)
      then (err runtime_error, n)
      else let (tid, n') = link.next_transaction_id n in exchange parse (build (pos tid)) n'

  module _ (policy : Policy) (sdo : SdoClient) where
    unfoldable pub read_int : ℕ → Bool → ℕ → ℕ → N → Result ℤ × N
    read_int size signed index subindex =
        access (build_read_int sdo (pos index) (pos subindex) size)
          (λ adu request. decode_read_int policy adu request signed)

    unfoldable pub write_int : ℕ → Bool → ℕ → ℤ → ℕ → N → Result (Unit {0}) × N
    write_int size signed index value subindex =
        access (build_write_int sdo (pos index) (pos subindex) value size signed)
          (parse_write_response policy)

    -- The value of a read, masked.
    abbrev masked : (ℤ → ℕ) → Result ℤ × N → Result ℕ × N
    masked mask (ok value, n) = (ok (mask value), n)
    masked mask (err e, n) = (err e, n)

    unfoldable pub read_u16 : ℕ → ℕ → N → Result ℕ × N
    read_u16 index subindex n = masked low_u16 (read_int 2 false index subindex n)

    unfoldable pub read_i32 : ℕ → ℕ → N → Result ℤ × N
    read_i32 = read_int 4 true

    unfoldable pub read_u32 : ℕ → ℕ → N → Result ℕ × N
    read_u32 index subindex n = masked low_u32 (read_int 4 false index subindex n)

    unfoldable pub read_i8 : ℕ → ℕ → N → Result ℤ × N
    read_i8 = read_int 1 true

    unfoldable pub write_u16 : ℕ → ℤ → ℕ → N → Result (Unit {0}) × N
    write_u16 = write_int 2 false

    unfoldable pub write_u32 : ℕ → ℤ → ℕ → N → Result (Unit {0}) × N
    write_u32 = write_int 4 false

    unfoldable pub write_i32 : ℕ → ℤ → ℕ → N → Result (Unit {0}) × N
    write_i32 = write_int 4 true

    unfoldable pub write_u8 : ℕ → ℤ → ℕ → N → Result (Unit {0}) × N
    write_u8 = write_int 1 false

    -- The accessor as the plant of the state machine and of the motion helpers.
    unfoldable pub accessor : Plant N
    accessor = record {
      read_u16 = read_u16;
      read_i8 = read_i8;
      read_i32 = read_i32;
      write_u8 = write_u8;
      write_u16 = write_u16;
      write_u32 = write_u32;
      write_i32 = write_i32;
      sleep = link.sleep;
      clock = link.clock;
    }
