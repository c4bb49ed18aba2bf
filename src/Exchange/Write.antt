-- ===== src/Exchange/Write.antt =====
-- A write request, from the driver to the simulated gateway and back.
use dryve_d.Base.{
  ℕ, ◌/◌, ◌%◌, ◌≤◌, ◌≡◌, refl, ap, true, inr, some, List, [], ◌∷◌, length, take, arith,
}
use dryve_d.Base.Int.{pos}
use dryve_d.Base.Errors.{Result, ok}
use dryve_d.Protocol.Validator.{parse_mbap, extract_index_subindex}
use dryve_d.Protocol.Validator.Layout.{IsResponse}
use dryve_d.Protocol.Validator.Response.{response_accepts}
use dryve_d.Protocol.Telegram.{Telegram, Policy, parse_adu}
use dryve_d.Protocol.Telegram.Build.{request_bytes, IsArguments, build_write-ok}
use dryve_d.Protocol.Sdo.{build_write, parse_write_response}
use dryve_d.Simulator.Gateway.{Strictness, gateway, build_gateway_response, parse_gateway_request}
use dryve_d.Simulator.Server.{answer, handle_frame}
use dryve_d.Exchange.Read.{SizeAllowed, reply_bytes, request_fields, size_test}

take_all : (bytes : List ℕ) → take (length bytes) bytes ≡ bytes
take_all [] = refl
take_all (b ∷ bytes) = ap (λ t. b ∷ t) (take_all bytes)

count_byte : (payload : List ℕ) → length payload ≤ 4 → length payload % 256 ≡ length payload
count_byte payload h = omega arith

module _ {tid uid index sub : ℕ} (args : IsArguments tid uid index sub) where
  gateway_reads :
      (strict : Strictness) (payload : List ℕ)
      → 1 ≤ length payload
      → length payload ≤ 4
      → SizeAllowed strict index (length payload)
      → parse_gateway_request strict (request_bytes 1 tid uid index sub (length payload) payload)
        ≡ ok (gateway (request_fields 1 tid uid index sub (length payload) payload))
  unfolding parse_gateway_request
  gateway_reads strict payload lo hi allowed = ground (
    arith,
    size_test args (length payload) hi,
    take_all payload,
    ap (λ n. take n payload) (count_byte payload hi),
  )

  ack_IsResponse : IsResponse (reply_bytes 1 tid uid index sub 0 [])
  ack_IsResponse = (
    record { transaction_id = tid; protocol_id = 0; length = 13; unit_id = uid },
    omega arith,
    inr (record {
      function = refl;
      mei = refl;
      control = omega arith;
      reserved = omega arith;
      count = omega arith;
      read_count = omega arith;
      size = omega arith;
    }),
  )

  driver_accepts :
      (policy : Policy) (count : ℕ) (payload : List ℕ)
      → parse_write_response policy (reply_bytes 1 tid uid index sub 0 []) (record {
        adu = request_bytes 1 tid uid index sub count payload;
        transaction_id = tid;
        unit_id = uid;
      })
        ≡ ok tt
  unfolding parse_write_response parse_adu parse_mbap extract_index_subindex
  driver_accepts policy count payload =
      ground (arith, response_accepts (reply_bytes 1 tid uid index sub 0 []) ack_IsResponse)

  gateway_answers :
      {S : Type 0} (sdo_read : ℕ → ℕ → ℕ → ℕ → S → Result (List ℕ))
      (sdo_write : ℕ → ℕ → ℕ → List ℕ → S → Result (Unit {0}) × S) (strict : Strictness)
      (payload : List ℕ) (s after : S)
      → 1 ≤ length payload
      → length payload ≤ 4
      → SizeAllowed strict index (length payload)
      → sdo_write (index / 256) (index % 256) sub payload s ≡ (ok tt, after)
      → handle_frame sdo_read sdo_write strict
          (request_bytes 1 tid uid index sub (length payload) payload)
          s
        ≡ record {
          sent = some (reply_bytes 1 tid uid index sub 0 []);
          open_after = true;
          drive = after;
        }
  unfolding handle_frame answer build_gateway_response
  gateway_answers sdo_read sdo_write strict payload s after lo hi allowed object =
      let hi_byte : index / 256 % 256 ≡ index / 256 = omega arith in
      let sub_byte : sub % 256 ≡ sub = omega arith in
      rw (gateway_reads strict payload lo hi allowed, hi_byte, sub_byte, object) (ground arith)

  -- A write of one to four bytes that the drive accepts reaches it with exactly the index, subindex
  -- and bytes given, once; the gateway acknowledges it and the driver accepts the acknowledgement.
  pub write_exchange :
      {S : Type 0} (sdo_read : ℕ → ℕ → ℕ → ℕ → S → Result (List ℕ))
      (sdo_write : ℕ → ℕ → ℕ → List ℕ → S → Result (Unit {0}) × S) (strict : Strictness)
      (policy : Policy) (payload : List ℕ) (s after : S)
      → 1 ≤ length payload
      → length payload ≤ 4
      → SizeAllowed strict index (length payload)
      → sdo_write (index / 256) (index % 256) sub payload s ≡ (ok tt, after)
      → (request : Telegram) × (reply : List ℕ) × (build_write
            (record { unit_id = pos uid })
            (pos index)
            (pos sub)
            payload
            (pos tid)
          ≡ ok request)
        × (handle_frame sdo_read sdo_write strict request.adu s
            ≡ record { sent = some reply; open_after = true; drive = after })
        × (parse_write_response policy reply request ≡ ok tt)
  unfolding build_write
  write_exchange sdo_read sdo_write strict policy payload s after lo hi allowed object = (
    record {
      adu = request_bytes 1 tid uid index sub (length payload) payload;
      transaction_id = tid;
      unit_id = uid;
    },
    reply_bytes 1 tid uid index sub 0 [],
    build_write-ok args payload lo hi,
    gateway_answers sdo_read sdo_write strict payload s after lo hi allowed object,
    driver_accepts policy (length payload) payload,
  )
