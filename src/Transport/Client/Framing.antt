-- ===== src/Transport/Client/Framing.antt =====
-- `_recv_exactly` and `transceive` of the client.
use dryve_d.Base.{
  ℕ, zero, suc, ◌+◌, ◌-◌, ◌≤◌, ◌<◌, ◌≡◌, refl, Bool, true, false, Option, none, some, List, [], ◌∷◌,
  ◌++◌, length, length-append, get_or-append, ltb, arith,
}
use dryve_d.Base.Errors.{Error, Result, ok, err, connection_error}
use dryve_d.Transport.Client.{
  Socket, IsStream, IsShort, Client, recv_loop, recv_exactly, length_field, recv_pdu, transceive,
}

-- It ends: with `n` bytes, or an exception.
pub data Received {N : Type 0} (n : ℕ) : Option (Result (List ℕ) × N) → Type 0 where
  got : {bytes : List ℕ} {net : N} → length bytes ≡ n → Received n (some (ok bytes, net))
  lost : {e : Error} {net : N} → Received n (some (err e, net))

-- It ends: with a frame as long as its length field says, or an exception.
pub data Delivered {N : Type 0} : Option (Result (List ℕ) × N) → Type 0 where
  frame :
      {adu : List ℕ} {net : N}
      → 7 ≤ length adu
      → length adu ≡ 6 + length_field adu
      → Delivered (some (ok adu, net))
  failed : {e : Error} {net : N} → Delivered (some (err e, net))

module _ {N : Type 0} (socket : Socket N) (h : IsStream socket) where
  -- What `_recv_exactly` does with a chunk.
  chunk-Received :
      (rounds n : ℕ) (buf : List ℕ) (net : N) (r : Result (List ℕ))
      → IsShort (n - length buf) r
      → ((chunk : List ℕ)
          → 1 ≤ length chunk
          → length chunk ≤ n - length buf
          → Received n (recv_loop socket rounds n (buf ++ chunk) net))
      → Received n (elim r as (λ _. Option (Result (List ℕ) × N)) [
        | err e ↦ some (err e, net)
        | ok [] ↦ some (err connection_error, net)
        | ok (b ∷ chunk) ↦ recv_loop socket rounds n (buf ++ (b ∷ chunk)) net
      ])
  chunk-Received rounds n buf net (err e) s k = lost
  chunk-Received rounds n buf net (ok []) s k = lost
  chunk-Received rounds n buf net (ok (b ∷ chunk)) s k = k (b ∷ chunk) (omega arith) s

  test-Received :
      (b : Bool) (n : ℕ) {x y : Option (Result (List ℕ) × N)}
      → (b ≡ true → Received n x)
      → (b ≡ false → Received n y)
      → Received n (elim b as (λ _. Option (Result (List ℕ) × N)) [ false ↦ y | true ↦ x ])
  test-Received true n k l = k refl
  test-Received false n k l = l refl

  recv_loop-Received :
      (rounds n : ℕ) (buf : List ℕ) (net : N)
      → length buf ≤ n
      → n < length buf + rounds
      → Received n (recv_loop socket rounds n buf net)
  unfolding recv_loop
  recv_loop-Received zero n buf net le lt = ground arith
  recv_loop-Received (suc rounds) n buf net le lt =
      test-Received (ltb (length buf) n) n
        (λ more'. chunk-Received rounds n buf _ _ (h.recv_short (n - length buf) net) λ chunk l m.
          recv_loop-Received rounds n (buf ++ chunk) _ (omega (arith, length-append buf chunk))
            (omega (arith, length-append buf chunk)))
        (λ full. got (ground arith))

  -- `_recv_exactly` ends, with exactly the bytes asked for or with an exception.
  pub recv_exactly-Received : (n : ℕ) (net : N) → Received n (recv_exactly socket n net)
  unfolding recv_exactly
  recv_exactly-Received n net = recv_loop-Received (suc n) n [] net (omega arith) (omega arith)

  -- The rest of the frame, when the length field of the header is `suc n`.
  frame-Delivered :
      (hdr : List ℕ) (n : ℕ) {o : Option (Result (List ℕ) × N)}
      → length hdr ≡ 7
      → length_field hdr ≡ suc n
      → Received n o
      → Delivered (elim o as (λ _. Option (Result (List ℕ) × N)) [
        | none ↦ none
        | some (err e, net) ↦ some (err e, net)
        | some (ok pdu, net) ↦ some (ok (hdr ++ pdu), net)
      ])
  frame-Delivered hdr n q f lost = failed
  frame-Delivered hdr n q f (got {bytes = pdu} l) =
      let four = get_or-append 4 hdr pdu 0 (omega arith) in
      let five = get_or-append 5 hdr pdu 0 (omega arith) in
      frame (omega (arith, length-append hdr pdu))
        (omega (arith, length-append hdr pdu, four, five))

  pdu-Delivered :
      (hdr : List ℕ) (net : N) (k : ℕ)
      → length hdr ≡ 7
      → length_field hdr ≡ k
      → Delivered (elim k as (λ _. Option (Result (List ℕ) × N)) [
        | zero ↦ some (err connection_error, net)
        | suc to_read ↦
            elim (recv_exactly socket to_read net) as (λ _. Option (Result (List ℕ) × N)) [
              | none ↦ none
              | some (err e, net') ↦ some (err e, net')
              | some (ok pdu, net') ↦ some (ok (hdr ++ pdu), net')
            ]
      ])
  pdu-Delivered hdr net zero q f = failed
  pdu-Delivered hdr net (suc n) q f = frame-Delivered hdr n q f (recv_exactly-Received n net)

  header-Delivered :
      {o : Option (Result (List ℕ) × N)}
      → Received 7 o
      → Delivered (elim o as (λ _. Option (Result (List ℕ) × N)) [
        | none ↦ none
        | some (err e, net) ↦ some (err e, net)
        | some (ok hdr, net) ↦ recv_pdu socket hdr net
      ])
  unfolding recv_pdu
  header-Delivered lost = failed
  header-Delivered (got {bytes = hdr} {net = net} l) = pdu-Delivered hdr net _ l refl

  sent-Delivered :
      (r : Result (Unit {0})) (net : N)
      → Delivered (elim r as (λ _. Option (Result (List ℕ) × N)) [
        | err e ↦ some (err e, net)
        | ok _ ↦ elim (recv_exactly socket 7 net) [
          | none ↦ none
          | some (err e, net') ↦ some (err e, net')
          | some (ok hdr, net') ↦ recv_pdu socket hdr net'
        ]
      ])
  sent-Delivered (err e) net = failed
  sent-Delivered (ok u) net = header-Delivered (recv_exactly-Received 7 net)

  by_flag :
      (adu : List ℕ) (is_connected : Bool) (net : N)
      → Delivered (transceive socket adu (record { is_connected = is_connected; net = net }))
  unfolding transceive
  by_flag adu false net = failed
  by_flag adu true net = sent-Delivered (socket.sendall adu net).0 (socket.sendall adu net).1

  -- `transceive` always ends, for every stream of bytes that the peer sends. What it returns is a
  -- whole frame: its length is the one that its own length field announces.
  pub transceive-Delivered :
      (adu : List ℕ) (client : Client N) → Delivered (transceive socket adu client)
  transceive-Delivered adu client = by_flag adu client.is_connected client.net
