-- ===== src/Protocol/Validator/Response.antt =====
-- `validate_gateway_response` and the layout of a response.
use dryve_d.Base.{ℕ, ◌+◌, ◌≤◌, ◌≡◌, ◌==◌, ==_iff, leb, is_1_to_4, inl, inr, List, length, arith}
use dryve_d.Base.Errors.{
  Ensures, weaken-Ensures, returns, raises, bind-Ensures, guard-Ensures, if-Ensures, or-Ensures,
  last-Ensures, Ensures-error, Error, ok, err, telegram_validation,
}
use dryve_d.Protocol.Validator.{validate_normal_response, validate_gateway_response}
use dryve_d.Protocol.Validator.Layout.{get, IsTelegramError, IsNormalResponse, IsResponse}
use dryve_d.Protocol.Validator.Rules.{
  invalid, byte-Ensures, require-Ensures, IsReserved-Ensures, validate_mbap-Ensures,
}

normal-Ensures :
    (adu : List ℕ)
    → 9 ≤ length adu
    → get adu 7 ≡ 0x2B
    → Ensures IsTelegramError (λ _. IsNormalResponse adu) (validate_normal_response adu)
normal-Ensures adu h f = require-Ensures adu 8 0x0D (omega arith) invalid λ mei.
    guard-Ensures (leb 19 (length adu)) telegram_validation invalid λ l.
      let long : 19 ≤ length adu = ground arith in
      byte-Ensures adu 9 _ (omega arith) (
        or-Ensures (get adu 9 == 0) (get adu 9 == 1) telegram_validation invalid λ c.
          bind-Ensures (IsReserved-Ensures adu long) λ _ r. byte-Ensures adu 18 _ (omega arith) (
            if-Ensures (get adu 9 == 0)
              (λ rd. guard-Ensures (is_1_to_4 (get adu 18)) telegram_validation invalid λ bc.
                last-Ensures (length adu == 19 + get adu 18) telegram_validation invalid
                  λ t. ground arith)
              (λ wr.
                if-Ensures (get adu 18 == 0)
                  (λ z.
                    last-Ensures (length adu == 19) telegram_validation invalid λ t. ground arith)
                  (λ nz.
                    if-Ensures (is_1_to_4 (get adu 18))
                      (λ bc.
                        last-Ensures (length adu == 19 + get adu 18) telegram_validation invalid
                          λ t. ground arith)
                      (λ bad. raises invalid)))))

IsResponse-Ensures :
    (adu : List ℕ) → Ensures IsTelegramError (λ _. IsResponse adu) (validate_gateway_response adu)
unfolding validate_gateway_response
IsResponse-Ensures adu = bind-Ensures (validate_mbap-Ensures adu) λ mbap framed.
    guard-Ensures (leb 9 (length adu)) telegram_validation invalid λ l.
      let long : 9 ≤ length adu = ground arith in
      byte-Ensures adu 7 _ (omega arith) (
        if-Ensures (get adu 7 == 0xAB) (λ x. returns (mbap, framed, inl ((==_iff _ _).0 x, long)))
          (λ _.
            if-Ensures (get adu 7 == 0x2B)
              (λ f.
                weaken-Ensures (λ _ n. (mbap, framed, inr n))
                  (normal-Ensures adu long ((==_iff _ _).0 f)))
              (λ _. raises invalid)))

normal_accepts : (adu : List ℕ) → IsNormalResponse adu → validate_normal_response adu ≡ ok tt
normal_accepts adu n = ground arith

pub response_accepts : (adu : List ℕ) → IsResponse adu → validate_gateway_response adu ≡ ok tt
unfolding validate_gateway_response
response_accepts adu (mbap, framed, inl x) = ground arith
response_accepts adu (mbap, framed, inr n) = ground (arith, normal_accepts adu n)

-- A response that is not accepted is a TelegramFormatError or a TelegramValidationError, whatever
-- bytes arrive: no IndexError and no other exception.
pub validate_response-error :
    (adu : List ℕ) (e : Error) → validate_gateway_response adu ≡ err e → IsTelegramError e
validate_response-error adu e = Ensures-error (IsResponse-Ensures adu)
