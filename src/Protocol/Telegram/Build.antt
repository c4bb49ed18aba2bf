-- ===== src/Protocol/Telegram/Build.antt =====
-- The request builders: which arguments they take, and what they write for these.
use dryve_d.Base.{ℕ, ◌+◌, ◌/◌, ◌%◌, ◌≤◌, ◌≡◌, refl, true, false, some, List, [], ◌∷◌, length, arith}
use dryve_d.Base.Int.{ℤ, pos, ◌≤ℤ◌}
use dryve_d.Base.Errors.{ok, err, value_error}
use dryve_d.Protocol.Validator.Layout.{IsRequest}
use dryve_d.Protocol.Validator.Request.{request_accepts}
use dryve_d.Protocol.Telegram.{telegram, build_read_adu, build_write_adu}

-- The bytes of a request: header, fixed part, data.
abbrev pub request_bytes : ℕ → ℕ → ℕ → ℕ → ℕ → ℕ → List ℕ → List ℕ
request_bytes control tid uid index sub count payload =
    tid / 256 % 256
    ∷ tid % 256
    ∷ 0
    ∷ 0
    ∷ (13 + length payload) / 256 % 256
    ∷ (13 + length payload) % 256
    ∷ uid % 256
    ∷ 0x2B
    ∷ 0x0D
    ∷ control
    ∷ 0
    ∷ 0
    ∷ index / 256 % 256
    ∷ index % 256
    ∷ sub % 256
    ∷ 0
    ∷ 0
    ∷ 0
    ∷ count % 256
    ∷ payload

-- The arguments that fit their fields.
pub record IsArguments (tid uid index sub : ℕ) : Type 0 where
  pub tid_fits : tid ≤ 0xFFFF
  pub uid_fits : uid ≤ 0xFF
  pub index_fits : index ≤ 0xFFFF
  pub sub_fits : sub ≤ 0xFF

module _ {tid uid index sub : ℕ} (args : IsArguments tid uid index sub) where
  read-IsRequest :
      (count : ℕ)
      → 1 ≤ count
      → count ≤ 4
      → IsRequest (request_bytes 0 tid uid index sub count []) (some false)
  read-IsRequest count lo hi = record {
    mbap = record { transaction_id = tid; protocol_id = 0; length = 13; unit_id = uid };
    framed = omega arith;
    function = refl;
    mei = refl;
    control = omega arith;
    expected = refl;
    reserved = omega arith;
    some_count = omega arith;
    count = omega arith;
    size = omega arith;
  }

  -- With arguments that fit and one to four bytes wanted, the read request is the prescribed 19
  -- bytes, and the telegram carries its ids.
  pub build_read-ok :
      (count : ℕ)
      → 1 ≤ count
      → count ≤ 4
      → build_read_adu (pos tid) (pos uid) (pos index) (pos sub) count
        ≡ ok (record {
          adu = request_bytes 0 tid uid index sub count [];
          transaction_id = tid;
          unit_id = uid;
        })
  unfolding build_read_adu telegram
  build_read-ok count lo hi = ground (
    arith,
    request_accepts (request_bytes 0 tid uid index sub count []) (some false)
        (read-IsRequest count lo hi),
  )

  write-IsRequest :
      (payload : List ℕ)
      → 1 ≤ length payload
      → length payload ≤ 4
      → IsRequest (request_bytes 1 tid uid index sub (length payload) payload) (some true)
  write-IsRequest payload lo hi = record {
    mbap = record {
      transaction_id = tid;
      protocol_id = 0;
      length = 13 + length payload;
      unit_id = uid;
    };
    framed = omega arith;
    function = refl;
    mei = refl;
    control = omega arith;
    expected = refl;
    reserved = omega arith;
    some_count = omega arith;
    count = omega arith;
    size = omega arith;
  }

  -- With arguments that fit and one to four bytes of data, the write request is the prescribed
  -- header with the data behind it, and the telegram carries its ids.
  pub build_write-ok :
      (payload : List ℕ)
      → 1 ≤ length payload
      → length payload ≤ 4
      → build_write_adu (pos tid) (pos uid) (pos index) (pos sub) payload
        ≡ ok (record {
          adu = request_bytes 1 tid uid index sub (length payload) payload;
          transaction_id = tid;
          unit_id = uid;
        })
  unfolding build_write_adu telegram
  build_write-ok payload lo hi = ground (
    arith,
    request_accepts (request_bytes 1 tid uid index sub (length payload) payload) (some true)
        (write-IsRequest payload lo hi),
  )

-- An integer that a field of the telegram holds, up to `top`.
abbrev pub InField : ℤ → ℕ → Type 0
InField n top = (pos 0 ≤ℤ n) × (n ≤ℤ pos top)

-- An argument that is negative or too large for its field, or a byte count other than one to four,
-- is a ValueError: no request is built.
pub build_read-rejects :
    (tid uid index sub : ℤ) (count : ℕ)
    → ¬ (
        InField tid 0xFFFF
        × InField uid 0xFF
        × InField index 0xFFFF
        × InField sub 0xFF
        × (1 ≤ count)
        × (count ≤ 4))
    → build_read_adu tid uid index sub count ≡ err value_error
unfolding build_read_adu
build_read-rejects tid uid index sub count h = ground arith

-- An argument that is negative or too large for its field, or data of other than one to four
-- bytes, is a ValueError: no request is built.
pub build_write-rejects :
    (tid uid index sub : ℤ) (payload : List ℕ)
    → ¬ (
        InField tid 0xFFFF
        × InField uid 0xFF
        × InField index 0xFFFF
        × InField sub 0xFF
        × (1 ≤ length payload)
        × (length payload ≤ 4))
    → build_write_adu tid uid index sub payload ≡ err value_error
unfolding build_write_adu
build_write-rejects tid uid index sub payload h = ground arith
