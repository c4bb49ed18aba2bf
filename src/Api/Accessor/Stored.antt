-- ===== src/Api/Accessor/Stored.antt =====
-- The accessor in a session with the simulated gateway.
use dryve_d.Base.{
  ℕ, ◌+◌, ◌/◌, ◌%◌, ◌≤◌, ◌≡◌, refl, ap, sym, subst, ◌∙◌, Bool, true, Option, none, some, List,
  IsBytes, length, arith,
}
use dryve_d.Base.Int.{ℤ, pos}
use dryve_d.Base.Errors.{Result, ok, err, connection_error}
use dryve_d.Protocol.Codec.{Endian, pack_int, unpack_int}
use dryve_d.Protocol.Codec.RoundTrip.{Fits, unpack-pack}
use dryve_d.Protocol.Telegram.{Telegram, Policy}
use dryve_d.Protocol.Telegram.Build.{IsArguments}
use dryve_d.Protocol.Sdo.{
  SdoClient, build_read_int, build_write_int, decode_read_int, parse_read_response,
}
use dryve_d.Simulator.Gateway.{Strictness}
use dryve_d.Simulator.Server.{fit_to, handle_frame}
use dryve_d.Transport.TransactionId.{Generator, next}
use dryve_d.Transport.TransactionId.Cycle.{IsValid, next-IsValid}
use dryve_d.Exchange.Read.{SizeAllowed, read_exchange}
use dryve_d.Exchange.Write.{write_exchange}
use dryve_d.Api.Accessor.{Link, received, exchange, access, read_int, write_int}

-- A session that is connected, with the drive behind the gateway.
pub record Simulated (S : Type 0) : Type 0 where
  pub ids : Generator
  pub drive : S
  pub time : ℕ

fit_to_all : (size : ℕ) (bytes : List ℕ) → length bytes ≡ size → fit_to size bytes ≡ bytes
unfolding fit_to
fit_to_all size bytes h = ground (arith, h)

-- The arguments of an access that the builders take, and ids of 16 bits.
pub record IsAddressed (ids : Generator) (uid index sub : ℕ) : Type 0 where
  pub valid : IsValid ids
  pub ids_fit : ids.max_value ≤ 0xFFFF
  pub uid_fits : uid ≤ 0xFF
  pub index_fits : index ≤ 0xFFFF
  pub sub_fits : sub ≤ 0xFF

arguments :
    {ids : Generator} {uid index sub : ℕ}
    → IsAddressed ids uid index sub
    → IsArguments ids.next_id uid index sub
arguments {ids = ids} a =
    let bound : ids.next_id ≤ ids.max_value = a.valid.not_beyond in
    record {
      tid_fits = omega (arith, a.ids_fit);
      uid_fits = a.uid_fits;
      index_fits = a.index_fits;
      sub_fits = a.sub_fits;
    }

later :
    {ids : Generator} {uid index sub : ℕ}
    → IsAddressed ids uid index sub
    → IsAddressed (next ids).1 uid index sub
unfolding next
later {ids = ids} a = record {
  valid = next-IsValid ids a.valid;
  ids_fit = a.ids_fit;
  uid_fits = a.uid_fits;
  index_fits = a.index_fits;
  sub_fits = a.sub_fits;
}

module _ {S : Type 0} (sdo_read : ℕ → ℕ → ℕ → ℕ → S → Result (List ℕ))
    (sdo_write : ℕ → ℕ → ℕ → List ℕ → S → Result (Unit {0}) × S) (strict : Strictness) where
  abbrev pub replied : Option (List ℕ) → Result (List ℕ)
  replied none = err connection_error
  replied (some adu) = ok adu

  -- A network that loses nothing: each frame is handled by the gateway, and its answer comes back.
  abbrev pub simulated_link : Link (Simulated S)
  simulated_link = record {
    is_connected = λ n. true;
    next_transaction_id = λ n. ((next n.ids).0, record n { ids = (next n.ids).1 });
    transceive = λ adu n.
        let round = handle_frame sdo_read sdo_write strict adu n.drive in
        (replied round.sent, record n { drive = round.drive });
    sleep = λ d n. record n { time = n.time + d };
    clock = λ n. n.time;
  }

  -- The drive takes what is written to an object, and keeps it.
  abbrev pub Keeps : ℕ → ℕ → ℕ → Type 0
  Keeps index sub size =
      (bytes : List ℕ) (s : S)
      → length bytes ≡ size
      → IsBytes bytes
      → (after : S) × (sdo_write (index / 256) (index % 256) sub bytes s ≡ (ok tt, after))
        × (sdo_read (index / 256) (index % 256) sub size after ≡ ok bytes)

  -- The state after an access that was answered.
  abbrev pub after_access : Simulated S → S → Simulated S
  after_access n s = record n { ids = (next n.ids).1; drive = s }

  access-answered :
      {A : Type 0} (build : ℤ → Result Telegram) (parse : List ℕ → Telegram → Result A)
      (n : Simulated S) (request : Telegram) (reply : List ℕ) (s : S)
      → build (pos n.ids.next_id) ≡ ok request
      → handle_frame sdo_read sdo_write strict request.adu n.drive
        ≡ record { sent = some reply; open_after = true; drive = s }
      → access simulated_link build parse n ≡ (parse reply request, after_access n s)
  unfolding access exchange next
  access-answered build parse n request reply s built handled =
      ap (λ b. exchange simulated_link parse b (record n { ids = (next n.ids).1 })) built
      ∙ ap
          (λ round.
            received parse request
              (replied round.sent, record n { ids = (next n.ids).1; drive = round.drive }))
          handled

  decoded :
      (policy : Policy) (reply raw : List ℕ) (request : Telegram) (signed : Bool)
      → parse_read_response policy reply request ≡ ok raw
      → decode_read_int policy reply request signed ≡ unpack_int raw signed Endian.little
  unfolding decode_read_int
  decoded policy reply raw request signed parsed = rw (parsed) refl

  module _ {uid index sub : ℕ} (policy : Policy) (size : ℕ) (signed : Bool) (lo : 1 ≤ size)
      (hi : size ≤ 4) (allowed : SizeAllowed strict index size) where
    pub read_int-drive :
        (n : Simulated S) (raw : List ℕ)
        → IsArguments n.ids.next_id uid index sub
        → sdo_read (index / 256) (index % 256) sub size n.drive ≡ ok raw
        → read_int simulated_link policy (record { unit_id = pos uid }) size signed index sub n
          ≡ (unpack_int (fit_to size raw) signed Endian.little, after_access n n.drive)
    unfolding read_int build_read_int
    read_int-drive n raw args object =
        let (request, reply, built, handled, parsed) =
          read_exchange args sdo_read sdo_write strict policy size raw n.drive lo hi allowed
            object in
        access-answered _ _ n request reply n.drive built handled
        ∙ ap (λ r. (r, after_access n n.drive)) (decoded policy reply _ request signed parsed)

    pub write_int-drive :
        (n : Simulated S) (value : ℤ) (bytes : List ℕ) (after : S)
        → IsArguments n.ids.next_id uid index sub
        → pack_int value size signed Endian.little ≡ ok bytes
        → length bytes ≡ size
        → sdo_write (index / 256) (index % 256) sub bytes n.drive ≡ (ok tt, after)
        → write_int simulated_link policy
            (record { unit_id = pos uid })
            size
            signed
            index
            value
            sub
            n
          ≡ (ok tt, after_access n after)
    unfolding write_int build_write_int
    write_int-drive n value bytes after args packed fits object =
        let (request, reply, built, handled, parsed) =
          write_exchange args sdo_read sdo_write strict policy bytes n.drive after
            (omega (arith, fits)) (omega (arith, fits))
            (subst (SizeAllowed strict index) (sym fits) allowed) object in
        access-answered _ _ n request reply _ (rw (packed) built) handled
        ∙ ap (λ r. (r, after_access n after)) parsed

    -- An integer of one to four bytes that fits, written to an object that the simulated drive
    -- keeps, is written without an exception and read back as the same integer: through the
    -- encoding, the telegram, the gateway, the response and its checks, both ways.
    pub write_int-read_int :
        (n : Simulated S) (value : ℤ)
        → IsAddressed n.ids uid index sub
        → Fits value size signed
        → Keeps index sub size
        → let client : SdoClient = record { unit_id = pos uid } in
          let written = write_int simulated_link policy client size signed index value sub n in
          (written.0 ≡ ok tt)
          × ((read_int simulated_link policy client size signed index sub written.1).0 ≡ ok value)
    write_int-read_int n value a fits keeps =
        let (bytes, packed, len, are_bytes, unpacked) =
          unpack-pack value size signed Endian.little lo hi fits in
        let (after, taken, kept) = keeps bytes n.drive len are_bytes in
        let wrote = write_int-drive n value bytes after (arguments a) packed len taken in
        (
          ap (λ x. x.0) wrote,
          ap
                (λ x.
                  (read_int simulated_link policy (record { unit_id = pos uid }) size signed index
                    sub x.1).0)
                wrote
              ∙ ap (λ x. x.0)
                  (read_int-drive (after_access n after) bytes (arguments (later a)) kept)
              ∙ ap (λ b. unpack_int b signed Endian.little) (fit_to_all size bytes len)
              ∙ unpacked,
        )
