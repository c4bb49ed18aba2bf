-- ===== src/Tests/Exchange.antt =====
-- The telegrams of src/dryve_d1/protocol at concrete requests, against the simulated gateway.
use dryve_d.Base.{ℕ, ◌≡◌, ◌↔◌, refl, true, false, none, some, List, [], ◌∷◌, inr, arith}
use dryve_d.Base.Int.{pos}
use dryve_d.Base.Errors.{Result, ok, err, telegram_validation}
use dryve_d.Protocol.Validator.{validate_gateway_request, validate_gateway_response}
use dryve_d.Protocol.Validator.Layout.{IsRequest}
use dryve_d.Protocol.Validator.Request.{validate-IsRequest-decides}
use dryve_d.Protocol.Validator.{extract_index_subindex}
use dryve_d.Protocol.Telegram.Matching.{Answers, match_request-Answers}
use dryve_d.Protocol.Telegram.{Response, match_request, match_read_data, Telegram, Policy}
use dryve_d.Protocol.Telegram.Build.{request_bytes}
use dryve_d.Protocol.Sdo.{build_read, build_write, parse_read_response, parse_write_response}
use dryve_d.Simulator.Gateway.{Strictness, size_matches}
use dryve_d.Simulator.Server.{fit_to, handle_frame}
use dryve_d.Exchange.Read.{SizeAllowed, read_exchange}
use dryve_d.Exchange.Write.{write_exchange}

abbrev cut_reply : List ℕ
cut_reply = 0 ∷ 1 ∷ 0 ∷ 0 ∷ 0 ∷ 3 ∷ 1 ∷ 0xAB ∷ []

cut_reply_refused : validate_gateway_response cut_reply ≡ err telegram_validation
unfolding validate_gateway_response
cut_reply_refused = refl

abbrev read_statusword : List ℕ
read_statusword = request_bytes 0 7 1 0x6041 0 2 []

validate-IsRequest-decides_example :
    (validate_gateway_request read_statusword none ≡ ok tt) ↔ IsRequest read_statusword none
validate-IsRequest-decides_example = validate-IsRequest-decides read_statusword none

-- A read where the caller expects a write.
wrong_direction : validate_gateway_request read_statusword (some true) ≡ err telegram_validation
unfolding validate_gateway_request
wrong_direction = refl

-- A drive of one 16-bit register, kept as its bytes.
abbrev register_read : ℕ → ℕ → ℕ → ℕ → List ℕ → Result (List ℕ)
register_read hi lo sub count s = ok s

abbrev register_write : ℕ → ℕ → ℕ → List ℕ → List ℕ → Result (Unit {0}) × List ℕ
register_write hi lo sub bytes s = (ok tt, bytes)

abbrev strict : Strictness
strict = record { telegram = true; object_size = true }

abbrev exact : Policy
exact = record { tid_mismatch_ok = false; unit_id_wildcard_ok = false }

statusword_size : SizeAllowed strict 0x6041 2
unfolding size_matches
statusword_size = inr refl

controlword_size : SizeAllowed strict 0x6040 2
unfolding size_matches
controlword_size = inr refl

read_exchange_example :
    (request : Telegram) × (reply : List ℕ) × (build_read
        (record { unit_id = pos 1 })
        (pos 0x6041)
        (pos 0)
        2
        (pos 7)
      ≡ ok request)
    × (handle_frame register_read register_write strict request.adu (0x27 ∷ 0x06 ∷ [])
        ≡ record { sent = some reply; open_after = true; drive = 0x27 ∷ 0x06 ∷ [] })
    × (parse_read_response exact reply request ≡ ok (fit_to 2 (0x27 ∷ 0x06 ∷ [])))
read_exchange_example =
    read_exchange {tid = 7} {uid = 1} {index = 0x6041} {sub = 0} (omega arith) register_read
      register_write strict exact 2 (0x27 ∷ 0x06 ∷ []) (0x27 ∷ 0x06 ∷ []) (omega arith)
      (omega arith) statusword_size refl

write_exchange_example :
    (request : Telegram) × (reply : List ℕ) × (build_write
        (record { unit_id = pos 1 })
        (pos 0x6040)
        (pos 0)
        (0x0F ∷ 0 ∷ [])
        (pos 8)
      ≡ ok request)
    × (handle_frame register_read register_write strict request.adu (0x06 ∷ 0 ∷ [])
        ≡ record { sent = some reply; open_after = true; drive = 0x0F ∷ 0 ∷ [] })
    × (parse_write_response exact reply request ≡ ok tt)
write_exchange_example =
    write_exchange {tid = 8} {uid = 1} {index = 0x6040} {sub = 0} (omega arith) register_read
      register_write strict exact (0x0F ∷ 0 ∷ []) (0x06 ∷ 0 ∷ []) (0x0F ∷ 0 ∷ []) (omega arith)
      (omega arith) controlword_size refl

-- The statusword, as an answer to the read above.
abbrev status_answer : Response
status_answer = record {
  transaction_id = 7;
  unit_id = 1;
  function_code = 0x2B;
  protocol_control = 0;
  index = 0x6041;
  subindex = 0;
  byte_count = 2;
  payload = 0x27 ∷ 0x06 ∷ [];
}

abbrev status_request : Telegram
status_request = record { adu = read_statusword; transaction_id = 7; unit_id = 1 }

status_matched : match_request exact status_answer status_request ≡ ok status_answer
unfolding match_request match_read_data extract_index_subindex
status_matched = refl

match_request-Answers_example : Answers exact status_request status_answer
match_request-Answers_example =
    match_request-Answers exact status_answer status_request status_answer status_matched
