-- ===== src/Exchange/Plant.antt =====
-- The simulated drive as the plant of the driver's coroutines: an access of the accessor packs or
-- unpacks the bytes of an object. A write is made at the time of the plant's clock.
use dryve_d.Base.{ℕ, ◌+◌, ◌/◌, ◌%◌, ◌≡◌, ap, ◌∙◌, true, false, Bool, List, arith}
use dryve_d.Base.Int.{ℤ, pos, pos_part}
use dryve_d.Base.Errors.{Result, ok, err}
use dryve_d.Io.{Plant}
use dryve_d.Protocol.Codec.{Endian, pack_int, unpack_int}
use dryve_d.Protocol.Codec.RoundTrip.{Fits, unpack-pack}
use dryve_d.Simulator.Drive.{FakeDrive}
use dryve_d.Simulator.Drive.Objects.{as_struct, sdo_read, sdo_write, read_object}
use dryve_d.Simulator.Statusword.{make_statusword}

abbrev pub Simulation : Type 0
Simulation = FakeDrive × ℕ

-- The value in the bytes that a read returned.
abbrev pub unpacked : Bool → Result (List ℕ) → Result ℤ
unpacked signed (ok bytes) = unpack_int bytes signed Endian.little
unpacked signed (err e) = err e

abbrev pub read_value : ℕ → Bool → ℕ → ℕ → Simulation → Result ℤ × Simulation
read_value size signed index sub s =
    (unpacked signed (sdo_read (index / 256) (index % 256) sub size s.0), s)

abbrev pub written : Result (List ℕ) → ℕ → ℕ → Simulation → Result (Unit {0}) × Simulation
written (ok bytes) index sub s =
    let (r, d) = sdo_write s.1 (index / 256) (index % 256) sub bytes s.0 in (r, (d, s.1))
written (err e) index sub s = (err e, s)

abbrev pub write_value : ℕ → Bool → ℕ → ℤ → ℕ → Simulation → Result (Unit {0}) × Simulation
write_value size signed index value sub =
    written (pack_int value size signed Endian.little) index sub

abbrev pub word_of_value : Result ℤ × Simulation → Result ℕ × Simulation
word_of_value (ok v, s) = (ok (pos_part v), s)
word_of_value (err e, s) = (err e, s)

abbrev pub simulation : Plant Simulation
simulation = record {
  read_u16 = λ index sub s. word_of_value (read_value 2 false index sub s);
  read_i8 = read_value 1 true;
  read_i32 = read_value 4 true;
  write_u8 = write_value 1 false;
  write_u16 = write_value 2 false;
  write_u32 = write_value 4 false;
  write_i32 = write_value 4 true;
  sleep = λ d s. (s.0, s.1 + d);
  clock = λ s. s.1;
}

statusword-Fits : (d : FakeDrive) → Fits (pos (make_statusword d)) 2 false
unfolding make_statusword
statusword-Fits d = omega arith

pub statusword-read :
    (s : Simulation) → simulation.read_u16 0x6041 0 s ≡ (ok (make_statusword s.0), s)
unfolding sdo_read read_object
statusword-read s =
    let (bytes, packed, _, _, back) =
      unpack-pack (pos (make_statusword s.0)) 2 false Endian.little (omega arith) (omega arith)
        (statusword-Fits s.0) in
    ap (λ r. word_of_value (unpacked false (as_struct r), s)) packed
    ∙ ap (λ r. word_of_value (r, s)) back
