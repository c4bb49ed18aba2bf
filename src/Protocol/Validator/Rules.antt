-- ===== src/Protocol/Validator/Rules.antt =====
-- Rules for the checks that the validators are made of: what each passes on, and what it raises.
use dryve_d.Base.{
  ℕ, ◌+◌, ◌≤◌, ◌<◌, ◌≡◌, lt→ltb, ◌==◌, ==_iff, leb, refl, inl, inr, List, length, get_or, arith,
}
use dryve_d.Base.Errors.{
  Ensures, returns, bind-Ensures, guard-Ensures, last-Ensures, ◌>>=◌, ◌>>◌, Error, Result,
  telegram_format, telegram_validation,
}
use dryve_d.Protocol.Validator.{
  Mbap, be16, byte, require_byte, require_reserved, parse_mbap, validate_mbap,
}
use dryve_d.Protocol.Validator.Layout.{get, IsTelegramError, IsFramed, IsReserved}

module _ {ℓ} {A : Type 0} {E : Error → Type 0} {P : A → Type ℓ} where
  -- A byte that is there can be read.
  pub byte-Ensures :
      (adu : List ℕ) (i : ℕ) (f : ℕ → Result A)
      → i < length adu
      → Ensures E P (f (get_or adu i 0))
      → Ensures E P (byte adu i >>= f)
  byte-Ensures adu i f h k = rw (lt→ltb i (length adu) h) k

  pub require-Ensures :
      (adu : List ℕ) (i expected : ℕ) {k : Result A}
      → i < length adu
      → E telegram_validation
      → (get_or adu i 0 ≡ expected → Ensures E P k)
      → Ensures E P (require_byte adu i expected >> k)
  require-Ensures adu i expected h v k =
      rw (lt→ltb i (length adu) h) (
        guard-Ensures (get_or adu i 0 == expected) telegram_validation v
          (λ e. k ((==_iff _ _).0 e)))

abbrev header_of : List ℕ → Mbap
header_of adu = record {
  transaction_id = be16 (get adu 0) (get adu 1);
  protocol_id = be16 (get adu 2) (get adu 3);
  length = be16 (get adu 4) (get adu 5);
  unit_id = get adu 6;
}

parse_mbap-Ensures :
    (adu : List ℕ)
    → Ensures IsTelegramError (λ mbap. (7 ≤ length adu) × (mbap ≡ header_of adu)) (parse_mbap adu)
unfolding parse_mbap
parse_mbap-Ensures adu = guard-Ensures (leb 7 (length adu)) telegram_format (inl refl) λ h.
    let long : 7 ≤ length adu = ground arith in
    byte-Ensures adu 0 _ (omega arith) (
      byte-Ensures adu 1 _ (omega arith) (
        byte-Ensures adu 2 _ (omega arith) (
          byte-Ensures adu 3 _ (omega arith) (
            byte-Ensures adu 4 _ (omega arith) (
              byte-Ensures adu 5 _ (omega arith)
                (byte-Ensures adu 6 _ (omega arith) (returns (long, refl))))))))

pub validate_mbap-Ensures :
    (adu : List ℕ) → Ensures IsTelegramError (IsFramed adu) (validate_mbap adu)
unfolding validate_mbap
validate_mbap-Ensures adu = bind-Ensures (parse_mbap-Ensures adu) λ mbap h.
    guard-Ensures (mbap.protocol_id == 0) telegram_validation (inr refl) λ p.
      guard-Ensures (length adu == 6 + mbap.length) telegram_validation (inr refl)
        λ t. returns (ground arith)

pub invalid : IsTelegramError telegram_validation
invalid = inr refl

pub IsReserved-Ensures :
    (adu : List ℕ)
    → 19 ≤ length adu
    → Ensures IsTelegramError (λ _. IsReserved adu) (require_reserved adu)
IsReserved-Ensures adu h = require-Ensures adu 10 0x00 (omega arith) invalid λ e10.
    require-Ensures adu 11 0x00 (omega arith) invalid λ e11.
      require-Ensures adu 15 0x00 (omega arith) invalid λ e15.
        require-Ensures adu 16 0x00 (omega arith) invalid λ e16.
          byte-Ensures adu 17 _ (omega arith)
            (last-Ensures (get adu 17 == 0) telegram_validation invalid (λ e17. ground arith))
