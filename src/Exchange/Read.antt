-- ===== src/Exchange/Read.antt =====
-- A read request, from the driver to the simulated gateway and back.
use dryve_d.Base.{
  ℕ, ◌+◌, ◌/◌, ◌%◌, ◌≤◌, ◌≡◌, refl, ap₂, true, false, ◌⊎◌, inr, some, List, [], ◌∷◌, length, arith,
}
use dryve_d.Base.Int.{pos}
use dryve_d.Base.Errors.{Result, ok}
use dryve_d.Protocol.Validator.{be16, parse_mbap, extract_index_subindex}
use dryve_d.Protocol.Validator.Layout.{IsResponse}
use dryve_d.Protocol.Validator.Response.{response_accepts}
use dryve_d.Protocol.Telegram.{Telegram, Policy, parse_adu}
use dryve_d.Protocol.Telegram.Build.{request_bytes, IsArguments, build_read-ok}
use dryve_d.Protocol.Sdo.{build_read, parse_read_response}
use dryve_d.Simulator.Gateway.{
  Strictness, Request, gateway, object_sizes, size_matches, build_gateway_response,
  parse_gateway_request,
}
use dryve_d.Simulator.Server.{fit_to, length-fit_to, answer, handle_frame}

-- The gateway is asked for as many bytes as the object has, if it checks that.
abbrev pub SizeAllowed : Strictness → ℕ → ℕ → Type 0
SizeAllowed strict index count =
    (strict.object_size ≡ false) ⊎ (size_matches index count object_sizes ≡ true)

-- The bytes of the gateway's answer to a read.
abbrev pub reply_bytes : ℕ → ℕ → ℕ → ℕ → ℕ → ℕ → List ℕ → List ℕ
reply_bytes control tid uid index sub count raw =
    tid / 256 % 256
    ∷ tid % 256
    ∷ 0
    ∷ 0
    ∷ (13 + length raw) / 256
    ∷ (13 + length raw) % 256
    ∷ uid % 256
    ∷ 0x2B
    ∷ 0x0D
    ∷ control
    ∷ 0
    ∷ 0
    ∷ index / 256 % 256 % 256
    ∷ index % 256 % 256
    ∷ sub % 256 % 256
    ∷ 0
    ∷ 0
    ∷ 0
    ∷ count % 256 % 256
    ∷ raw

abbrev pub request_fields : ℕ → ℕ → ℕ → ℕ → ℕ → ℕ → List ℕ → Request
request_fields control tid uid index sub count payload = record {
  tid_bytes = tid / 256 % 256 ∷ tid % 256 ∷ [];
  unit_id = uid % 256;
  proto_control = control;
  index_hi = index / 256 % 256;
  index_lo = index % 256;
  subindex = sub % 256;
  byte_count = count % 256;
  payload = payload;
}

module _ {tid uid index sub : ℕ} (args : IsArguments tid uid index sub) where
  -- The size test of the gateway, on the bytes that it reads.
  pub size_test :
      (count : ℕ)
      → count ≤ 4
      → size_matches (be16 (index / 256 % 256) (index % 256)) (count % 256) object_sizes
        ≡ size_matches index count object_sizes
  size_test count hi = ap₂ (λ i n. size_matches i n object_sizes) (omega arith) (omega arith)

  gateway_reads :
      (strict : Strictness) (count : ℕ)
      → 1 ≤ count
      → count ≤ 4
      → SizeAllowed strict index count
      → parse_gateway_request strict (request_bytes 0 tid uid index sub count [])
        ≡ ok (gateway (request_fields 0 tid uid index sub count []))
  unfolding parse_gateway_request
  gateway_reads strict count lo hi allowed = ground (arith, size_test count hi)

  reply_IsResponse :
      (count : ℕ) (raw : List ℕ)
      → 1 ≤ count
      → count ≤ 4
      → length raw ≡ count
      → IsResponse (reply_bytes 0 tid uid index sub count raw)
  reply_IsResponse count raw lo hi fits = (
    record { transaction_id = tid; protocol_id = 0; length = 13 + length raw; unit_id = uid },
    omega arith,
    inr (record {
      function = refl;
      mei = refl;
      control = omega arith;
      reserved = omega arith;
      count = omega arith;
      read_count = omega arith;
      size = omega arith;
    }),
  )

  driver_accepts :
      (policy : Policy) (count : ℕ) (raw : List ℕ)
      → 1 ≤ count
      → count ≤ 4
      → length raw ≡ count
      → parse_read_response policy (reply_bytes 0 tid uid index sub count raw) (record {
        adu = request_bytes 0 tid uid index sub count [];
        transaction_id = tid;
        unit_id = uid;
      })
        ≡ ok raw
  unfolding parse_read_response parse_adu parse_mbap extract_index_subindex
  driver_accepts policy count raw lo hi fits = ground (
    arith,
    response_accepts (reply_bytes 0 tid uid index sub count raw)
        (reply_IsResponse count raw lo hi fits),
  )

  gateway_answers :
      {S : Type 0} (sdo_read : ℕ → ℕ → ℕ → ℕ → S → Result (List ℕ))
      (sdo_write : ℕ → ℕ → ℕ → List ℕ → S → Result (Unit {0}) × S) (strict : Strictness) (count : ℕ)
      (raw : List ℕ) (s : S)
      → 1 ≤ count
      → count ≤ 4
      → SizeAllowed strict index count
      → sdo_read (index / 256) (index % 256) sub count s ≡ ok raw
      → handle_frame sdo_read sdo_write strict (request_bytes 0 tid uid index sub count []) s
        ≡ record {
          sent = some (reply_bytes 0 tid uid index sub count (fit_to count raw));
          open_after = true;
          drive = s;
        }
  unfolding handle_frame answer build_gateway_response
  gateway_answers sdo_read sdo_write strict count raw s lo hi allowed object =
      let hi_byte : index / 256 % 256 ≡ index / 256 = omega arith in
      let sub_byte : sub % 256 ≡ sub = omega arith in
      let count_byte : count % 256 ≡ count = omega arith in
      rw (gateway_reads strict count lo hi allowed, hi_byte, sub_byte, count_byte, object)
        (ground arith)

  -- A read of one to four bytes of an object that the drive can read, sent to the gateway and
  -- answered by it, gives the driver exactly the bytes of the object, cut or padded to the count
  -- asked for, under every tolerance policy; the drive and the connection are left as they were.
  pub read_exchange :
      {S : Type 0} (sdo_read : ℕ → ℕ → ℕ → ℕ → S → Result (List ℕ))
      (sdo_write : ℕ → ℕ → ℕ → List ℕ → S → Result (Unit {0}) × S) (strict : Strictness)
      (policy : Policy) (count : ℕ) (raw : List ℕ) (s : S)
      → 1 ≤ count
      → count ≤ 4
      → SizeAllowed strict index count
      → sdo_read (index / 256) (index % 256) sub count s ≡ ok raw
      → (request : Telegram) × (reply : List ℕ) × (build_read
            (record { unit_id = pos uid })
            (pos index)
            (pos sub)
            count
            (pos tid)
          ≡ ok request)
        × (handle_frame sdo_read sdo_write strict request.adu s
            ≡ record { sent = some reply; open_after = true; drive = s })
        × (parse_read_response policy reply request ≡ ok (fit_to count raw))
  unfolding build_read
  read_exchange sdo_read sdo_write strict policy count raw s lo hi allowed object = (
    record {
      adu = request_bytes 0 tid uid index sub count [];
      transaction_id = tid;
      unit_id = uid;
    },
    reply_bytes 0 tid uid index sub count (fit_to count raw),
    build_read-ok args count lo hi,
    gateway_answers sdo_read sdo_write strict count raw s lo hi allowed object,
    driver_accepts policy count (fit_to count raw) lo hi (length-fit_to count raw),
  )
