-- ===== src/Tests/Transport.antt =====
-- The transport against a peer that sends its bytes one at a time.
use dryve_d.Base.{ℕ, zero, suc, ◌≡◌, ◌⊎◌, refl, true, false, none, some, List, [], ◌∷◌, arith}
use dryve_d.Base.Int.{pos, negsuc, ◌≤ℤ◌}
use dryve_d.Base.Errors.{Result, ok, err, timeout_error}
use dryve_d.Transport.TransactionId.{Generator}
use dryve_d.Transport.TransactionId.Cycle.{IsValid}
use dryve_d.Transport.Client.{
  Socket, IsStream, IsShort, Client, recv_loop, recv_exactly, recv_pdu, transceive,
}
use dryve_d.Transport.Client.Framing.{Delivered, transceive-Delivered}
use dryve_d.Transport.Session.{Runtime, Session, transceive as session_transceive}
use dryve_d.Transport.Session.Retry.{Outcome, transceive-Outcome}
use dryve_d.Protocol.Codec.{Endian, to_bytes, unsigned_of}
use dryve_d.Od.Types.{OdType, range, clamp, pack}
use dryve_d.Od.Types.Clamp.{clamp-nearest}

abbrev ids : Generator
ids = record { max_value = 255; next_id = 7 }

ids-IsValid : IsValid ids
ids-IsValid = record { not_zero = omega arith; not_beyond = omega arith }

-- The bytes that the peer still has to send.
abbrev one_byte : ℕ → List ℕ → Result (List ℕ) × List ℕ
one_byte n [] = (err timeout_error, [])
one_byte zero (b ∷ rest) = (ok [], b ∷ rest)
one_byte (suc n) (b ∷ rest) = (ok (b ∷ []), rest)

abbrev peer : Socket (List ℕ)
peer = record {
  connect = λ net. (ok tt, net);
  sendall = λ adu net. (ok tt, net);
  recv = one_byte;
  close = λ net. net;
}

one_byte-IsShort : (n : ℕ) (net : List ℕ) → IsShort n (one_byte n net).0
one_byte-IsShort n [] = tt
one_byte-IsShort zero (b ∷ rest) = omega arith
one_byte-IsShort (suc n) (b ∷ rest) = omega arith

peer-IsStream : IsStream peer
peer-IsStream = record { recv_short = one_byte-IsShort }

abbrev reply : List ℕ
reply = 0 ∷ 1 ∷ 0 ∷ 0 ∷ 0 ∷ 3 ∷ 1 ∷ 0xAB ∷ 2 ∷ []

abbrev linked : Client (List ℕ)
linked = record { is_connected = true; net = reply }

transceive-Delivered_example : Delivered (transceive peer (0 ∷ 1 ∷ []) linked)
transceive-Delivered_example = transceive-Delivered peer peer-IsStream (0 ∷ 1 ∷ []) linked

abbrev runtime : Runtime (List ℕ)
runtime = record {
  socket = peer;
  on_reconnect = λ net. net;
  is_stopped = λ net. false;
  clock = λ net. 0;
  pause = λ deadline attempts net. net;
}

abbrev session : Session (List ℕ)
session = record {
  client = linked;
  ever_connected = true;
  ids = record { max_value = 255; next_id = 2 };
}

transceive-Outcome_example : Outcome (
    session_transceive runtime
      (record { max_attempts = 3; allow_tid_mismatch = true })
      (0 ∷ 1 ∷ [])
      none
      session)
transceive-Outcome_example =
    transceive-Outcome runtime (record { max_attempts = 3; allow_tid_mismatch = true })
      peer-IsStream (0 ∷ 1 ∷ []) none session

-- The reply arrives whole.
arrives : transceive peer (0 ∷ 1 ∷ []) linked ≡ some (ok reply, [])
unfolding transceive recv_exactly recv_loop recv_pdu
arrives = refl

clamp-nearest_example :
    let c = clamp OdType.int8 (pos 300) in
    (pack OdType.int8 c Endian.little ≡ ok (to_bytes 1 Endian.little (unsigned_of c 1 true)))
    × (((pos 300 ≤ℤ c) × (c ≤ℤ negsuc 4)) ⊎ ((negsuc 4 ≤ℤ c) × (c ≤ℤ pos 300)))
unfolding range
clamp-nearest_example =
    clamp-nearest OdType.int8 (pos 300) (negsuc 4) Endian.little (omega arith) (omega arith)
