-- ===== src/Simulator/Server.antt =====
-- One round of the loop of `modbus_handle_client` in the simulator, over any drive that answers
-- `sdo_read` and `sdo_write`. Clients are served one at a time, so that a round is atomic.
use dryve_d.Base.{
  ◌≡◌, arith, length-append, length-replicate, length-take, ℕ, ◌-◌, Bool, true, false, Option, none,
  some, List, [], ◌++◌, length, take, replicate, get_or, ltb, leb, ◌==◌, if◌then◌else◌,
}
use dryve_d.Base.Errors.{Result, ok, err, ◌>>=◌}
use dryve_d.Simulator.Gateway.{
  Strictness, Request, Parsed, gateway, not_gateway, build_exception, build_gateway_response,
  parse_gateway_request,
}

-- What a round does: the bytes sent, whether the connection stays open, and the drive after it.
pub record Round (S : Type 0) : Type 0 where
  pub sent : Option (List ℕ)
  pub open_after : Bool
  pub drive : S

-- `conn.sendall(e)`, where computing `e` may raise, which ends the connection.
abbrev pub send : {S : Type 0} → Result (List ℕ) → S → Round S
send (ok adu) s = record { sent = some adu; open_after = true; drive = s }
send (err e) s = record { sent = none; open_after = false; drive = s }

-- The exact number of bytes that was asked for.
unfoldable pub fit_to : ℕ → List ℕ → List ℕ
fit_to count raw =
    if ltb (length raw) count
    then raw ++ replicate (count - length raw) 0
    else if ltb count (length raw)
    then take count raw
    else raw

pub length-fit_to : (count : ℕ) (raw : List ℕ) → length (fit_to count raw) ≡ count
unfolding fit_to
length-fit_to count raw = ground (
  arith,
  length-append raw (replicate (count - length raw) 0),
  length-replicate {A = ℕ} (count - length raw) 0,
  length-take count raw,
)

module _ {S : Type 0} (sdo_read : ℕ → ℕ → ℕ → ℕ → S → Result (List ℕ))
    (sdo_write : ℕ → ℕ → ℕ → List ℕ → S → Result (Unit {0}) × S) where
  -- The answer to a request that was read. An exception of the drive ends the connection.
  unfoldable pub answer : Request → S → Round S
  answer r s =
      if r.proto_control == 0
      then send
          (sdo_read r.index_hi r.index_lo r.subindex r.byte_count s >>= λ raw.
            build_gateway_response r.tid_bytes r.unit_id r.proto_control r.index_hi r.index_lo
              r.subindex r.byte_count (fit_to r.byte_count raw) false)
          s
      else (let (written, after) = sdo_write r.index_hi r.index_lo r.subindex r.payload s in
          send
            (written >>= λ _.
              build_gateway_response r.tid_bytes r.unit_id r.proto_control r.index_hi r.index_lo
                r.subindex r.byte_count [] true)
            after)

  -- A frame that cannot be read is answered by an exception, and the connection ends.
  unfoldable pub refuse : List ℕ → S → Round S
  refuse frame s =
      let round =
        send (build_exception (take 2 frame) (get_or frame 6 0) (get_or frame 7 0) 0x03) s in
      record {
        sent = if leb 8 (length frame) then round.sent else none;
        open_after = false;
        drive = s;
      }

  abbrev pub react : Result Parsed → List ℕ → S → Round S
  react (ok (gateway r)) frame s = answer r s
  react (ok (not_gateway func)) frame s =
      send (build_exception (take 2 frame) (get_or frame 6 0) func 0x01) s
  react (err e) frame s = refuse frame s

  unfoldable pub handle_frame : Strictness → List ℕ → S → Round S
  handle_frame strict frame s = react (parse_gateway_request strict frame) frame s
