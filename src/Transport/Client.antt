-- ===== src/Transport/Client.antt =====
-- src/dryve_d1/transport/modbus_tcp_client.py: `ModbusTcpClient` over a socket, which is Python's.
pub mod Framing
use dryve_d.Base.{
  ℕ, zero, suc, ◌+◌, ◌-◌, ◌≤◌, Bool, true, false, Option, none, some, List, [], ◌∷◌, ◌++◌, length,
  get_or, ltb, ◌==◌, if◌then◌else◌,
}
use dryve_d.Base.Errors.{Result, ok, err, connection_error}
use dryve_d.Protocol.Validator.{be16}

-- What the client calls of a socket: `connect` with its options, `sendall`, `recv`, and `close`, which
-- is taken not to raise.
pub record Socket (N : Type 0) : Type 0 where
  pub connect : N → Result (Unit {0}) × N
  pub sendall : List ℕ → N → Result (Unit {0}) × N
  pub recv : ℕ → N → Result (List ℕ) × N
  pub close : N → N

abbrev pub IsShort : ℕ → Result (List ℕ) → Type 0
IsShort n (ok chunk) = length chunk ≤ n
IsShort n (err e) = Unit

-- `recv` returns at most as many bytes as asked for.
pub record IsStream {N : Type 0} (socket : Socket N) : Type 0 where
  pub recv_short : (n : ℕ) (net : N) → IsShort n (socket.recv n net).0

-- `_sock is not None`, and the network with the socket in it.
pub record Client (N : Type 0) : Type 0 where
  pub is_connected : Bool
  pub net : N

-- `(hdr[4] << 8) | hdr[5]`
abbrev pub length_field : List ℕ → ℕ
length_field hdr = be16 (get_or hdr 4 0) (get_or hdr 5 0)

module _ {N : Type 0} (socket : Socket N) where
  unfoldable pub connect : Client N → Result (Unit {0}) × Client N
  connect client =
      if client.is_connected
      then (ok tt, client)
      else let (r, net) = socket.connect client.net in
        elim r [
          | ok _ ↦ (ok tt, record { is_connected = true; net = net })
          | err e ↦ (err e, record { is_connected = false; net = socket.close net })
        ]

  unfoldable pub close : Client N → Client N
  close client =
      if client.is_connected
      then record { is_connected = false; net = socket.close client.net }
      else client

  -- The loop of `_recv_exactly`; `rounds` bounds it.
  unfoldable pub recv_loop : ℕ → ℕ → List ℕ → N → Option (Result (List ℕ) × N)
  recv_loop zero n buf net = none
  recv_loop (suc rounds) n buf net = elim (ltb (length buf) n) [
    | false ↦ some (ok buf, net)
    | true ↦ elim (socket.recv (n - length buf) net).0 [
      | err e ↦ some (err e, (socket.recv (n - length buf) net).1)
      | ok [] ↦ some (err connection_error, (socket.recv (n - length buf) net).1)
      | ok (b ∷ chunk) ↦
          recv_loop rounds n (buf ++ (b ∷ chunk)) (socket.recv (n - length buf) net).1
    ]
  ]

  unfoldable pub recv_exactly : ℕ → N → Option (Result (List ℕ) × N)
  recv_exactly n net = recv_loop (suc n) n [] net

  -- The bytes after the header.
  unfoldable pub recv_pdu : List ℕ → N → Option (Result (List ℕ) × N)
  recv_pdu hdr net = elim (length_field hdr) [
    | zero ↦ some (err connection_error, net)
    | suc to_read ↦ elim (recv_exactly to_read net) [
      | none ↦ none
      | some (err e, net') ↦ some (err e, net')
      | some (ok pdu, net') ↦ some (ok (hdr ++ pdu), net')
    ]
  ]

  unfoldable pub transceive : List ℕ → Client N → Option (Result (List ℕ) × N)
  transceive adu client = elim client.is_connected [
    | false ↦ some (err connection_error, client.net)
    | true ↦ elim (socket.sendall adu client.net).0 [
      | err e ↦ some (err e, (socket.sendall adu client.net).1)
      | ok _ ↦ elim (recv_exactly 7 (socket.sendall adu client.net).1) [
        | none ↦ none
        | some (err e, net) ↦ some (err e, net)
        | some (ok hdr, net) ↦ recv_pdu hdr net
      ]
    ]
  ]
