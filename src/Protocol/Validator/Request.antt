-- ===== src/Protocol/Validator/Request.antt =====
-- `validate_gateway_request` and the layout of a request.
use dryve_d.Base.{
  ℕ, ◌+◌, ◌*◌, ◌≤◌, ◌≡◌, ◌↔◌, ◌==◌, ==_iff, leb, is_1_to_4, ◌⊎◌, inl, inr, Bool, Option, List,
  length, arith,
}
use dryve_d.Base.Errors.{
  Ensures, bind-Ensures, guard-Ensures, if-Ensures, or-Ensures, last-Ensures, Ensures-error,
  Ensures-value, Error, ok, err, telegram_validation,
}
use dryve_d.Protocol.Validator.{is_expected, validate_gateway_request}
use dryve_d.Protocol.Validator.Layout.{get, IsTelegramError, IsRequest}
use dryve_d.Protocol.Validator.Rules.{
  invalid, byte-Ensures, require-Ensures, IsReserved-Ensures, validate_mbap-Ensures,
}

-- The two size rules as one equation.
sized :
    (total count control : ℕ)
    → (control ≡ 0) ⊎ (control ≡ 1)
    → (control ≡ 0 → total ≡ 19)
    → (control ≡ 1 → total ≡ 19 + count)
    → total ≡ 19 + control * count
sized total count control (inl c) r w = rw c (omega (arith, r c))
sized total count control (inr c) r w = rw c (omega (arith, w c))

IsRequest-Ensures :
    (adu : List ℕ) (expect_write : Option Bool)
    → Ensures IsTelegramError
        (λ _. IsRequest adu expect_write)
        (validate_gateway_request adu expect_write)
unfolding validate_gateway_request
IsRequest-Ensures adu w = bind-Ensures (validate_mbap-Ensures adu) λ mbap framed.
    guard-Ensures (leb 19 (length adu)) telegram_validation invalid λ l.
      let long : 19 ≤ length adu = ground arith in
      require-Ensures adu 7 0x2B (omega arith) invalid λ f.
        require-Ensures adu 8 0x0D (omega arith) invalid λ mei. byte-Ensures adu 9 _ (omega arith) (
          or-Ensures (get adu 9 == 0) (get adu 9 == 1) telegram_validation invalid λ c.
            guard-Ensures (is_expected w (get adu 9)) telegram_validation invalid λ x.
              bind-Ensures (IsReserved-Ensures adu long) λ _ r.
                byte-Ensures adu 18 _ (omega arith) (
                  if-Ensures (get adu 9 == 0)
                    (λ rd. guard-Ensures (is_1_to_4 (get adu 18)) telegram_validation invalid λ bc.
                      guard-Ensures (mbap.length == 13) telegram_validation invalid λ m.
                        last-Ensures (length adu == 19) telegram_validation invalid λ t. record {
                          mbap = mbap;
                          framed = framed;
                          function = f;
                          mei = mei;
                          control = ground arith;
                          expected = x;
                          reserved = r;
                          some_count = ground arith;
                          count = ground arith;
                          size =
                              sized _ _ (get adu 9) (inl ((==_iff _ _).0 rd)) (ground arith)
                                (ground arith);
                        })
                    (λ wr. guard-Ensures (is_1_to_4 (get adu 18)) telegram_validation invalid λ bc.
                      guard-Ensures (mbap.length == 13 + get adu 18) telegram_validation invalid
                        λ m.
                          last-Ensures (length adu == 19 + get adu 18) telegram_validation invalid
                            λ t. record {
                              mbap = mbap;
                              framed = framed;
                              function = f;
                              mei = mei;
                              control = ground arith;
                              expected = x;
                              reserved = r;
                              some_count = ground arith;
                              count = ground arith;
                              size =
                                  sized _ _ (get adu 9) (inr (ground arith)) (ground arith)
                                    (ground arith);
                            })))

pub request_accepts :
    (adu : List ℕ) (expect_write : Option Bool)
    → IsRequest adu expect_write
    → validate_gateway_request adu expect_write ≡ ok tt
unfolding validate_gateway_request
request_accepts adu w h = ground arith

-- A request is accepted exactly if it has the layout of the manual and the direction expected.
pub validate-IsRequest-decides :
    (adu : List ℕ) (expect_write : Option Bool)
    → (validate_gateway_request adu expect_write ≡ ok tt) ↔ IsRequest adu expect_write
validate-IsRequest-decides adu w = (Ensures-value (IsRequest-Ensures adu w), request_accepts adu w)

-- A request that is not accepted is a TelegramFormatError or a TelegramValidationError.
pub validate_request-error :
    (adu : List ℕ) (expect_write : Option Bool) (e : Error)
    → validate_gateway_request adu expect_write ≡ err e
    → IsTelegramError e
validate_request-error adu w e = Ensures-error (IsRequest-Ensures adu w)
