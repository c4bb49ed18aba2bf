-- ===== src/Exchange/Words.antt =====
-- Single commands of the driver's state machine with the simulated drive, which obeys at once.
use dryve_d.Base.{
  ℕ, suc, ◌%◌, ◌≡◌, refl, ap, ◌∙◌, true, false, Bool, Option, none, some, [], ◌∷◌, ◌++◌,
  if◌then◌else◌,
}
use dryve_d.Base.Int.{pos}
use dryve_d.Base.Errors.{Result, ok, err}
use dryve_d.Cia402.Preconditions.{require_remote_enabled}
use dryve_d.Cia402.StateMachine.{
  Config, read_statusword, write_controlword, current_state, wait_loop, wait_for_states,
}
use dryve_d.Exchange.Plant.{Simulation, simulation, statusword-read}
use dryve_d.Io.{World, Action, Sent, pure, now, ◌>>=◌, ◌>>◌, raise_if, when, read_u16}
use dryve_d.Od.Statusword.{Cia402State}
use dryve_d.Protocol.Codec.{pack_int, unpack_int, to_bytes, to_bytes_le, from_bytes, from_bytes_le}
use dryve_d.Simulator.Drive.Controlword.{apply_controlword, obey}
use dryve_d.Simulator.Drive.Objects.{sdo_write, write_object}
use dryve_d.Simulator.Drive.{Ds402State, FakeDrive}
use dryve_d.Simulator.Statusword.{make_statusword}
use dryve_d.Simulator.Statusword.Accepted.{make_statusword-accepted}
use dryve_d.Simulator.Statusword.Inferred.{seen, make_statusword-seen}

pub bind-ok :
    {S A B : Type 0} (m : Action S A) (f : A → Action S B) (w v : World S) (a : A)
    → m w ≡ some (ok a, v)
    → (m >>= f) w ≡ f a v
unfolding ◌>>=◌
bind-ok {B = B} m f w v a h =
    ap
      (λ (o : Option (Result _ × World _)). elim o as (λ _. Option (Result B × World _)) [
        | none ↦ none
        | some (ok b, u) ↦ f b u
        | some (err e, u) ↦ some (err e, u)
      ])
      h

if-same : {A : Type 0} (b : Bool) (x : A) → (if b then x else x) ≡ x
if-same true x = refl
if-same false x = refl

-- A controlword that was written: what was sent, and the drive that obeyed it.
abbrev pub command : ℕ → Sent
command cw = record { index = 0x6040; value = pos cw; subindex = 0 }

abbrev pub obeyed : ℕ → World Simulation → World Simulation
obeyed cw w = record {
  plant = (simulation.write_u16 0x6040 (pos cw) 0 w.plant).1;
  sent = w.sent ++ (command cw ∷ []);
}

-- The drive is in the state given, without a fault.
abbrev pub In : Ds402State → World Simulation → Type 0
In st w = (w.plant.0.state ≡ st) × (w.plant.0.fault ≡ false) × (w.plant.0.emergency_active ≡ false)

-- A word takes effect before its write returns.
abbrev pub Takes : ℕ → Ds402State → World Simulation → Type 0
Takes cw st w =
    (simulation.write_u16 0x6040 (pos cw) 0 w.plant ≡ (ok tt, (obeyed cw w).plant))
    × In st (obeyed cw w)

-- The drive is without a fault, and the emergency button is not pressed.
abbrev pub IsFree : FakeDrive → Type 0
IsFree d = (d.fault ≡ false) × (d.emergency_active ≡ false)

pub shutdown-Takes :
    (w : World Simulation) → IsFree w.plant.0 → Takes 0x06 Ds402State.ready_to_switch_on w
unfolding sdo_write write_object pack_int unpack_int to_bytes to_bytes_le from_bytes from_bytes_le
    apply_controlword obey
shutdown-Takes w (f, e) = rw (f, e) (refl, (refl, refl, refl))

pub switch_on-Takes :
    (w : World Simulation) → IsFree w.plant.0 → Takes 0x07 Ds402State.switched_on w
unfolding sdo_write write_object pack_int unpack_int to_bytes to_bytes_le from_bytes from_bytes_le
    apply_controlword obey
switch_on-Takes w (f, e) = rw (f, e) (refl, (refl, refl, refl))

pub enable-Takes :
    (w : World Simulation) → IsFree w.plant.0 → Takes 0x0F Ds402State.operation_enabled w
unfolding sdo_write write_object pack_int unpack_int to_bytes to_bytes_le from_bytes from_bytes_le
    apply_controlword obey
enable-Takes w (f, e) = rw (f, e) (refl, (refl, refl, refl))

module _ (cfg : Config) where
  read_statusword-simulated :
      (w : World Simulation)
      → read_statusword simulation cfg w ≡ some (ok (make_statusword w.plant.0), w)
  unfolding read_statusword ◌>>=◌ raise_if when require_remote_enabled
  read_statusword-simulated w =
      let (remote, booted, narrow) = make_statusword-accepted w.plant.0 in
      bind-ok (read_u16 simulation 0x6041 0) _ w w (make_statusword w.plant.0)
        (ap (λ r. some (r.0, record w { plant = r.1 })) (statusword-read w.plant))
      ∙ rw (narrow, booted, remote)
          (ap
            (λ (m : Action Simulation (Unit {0})). (m >>= λ _. pure (make_statusword w.plant.0)) w)
            (if-same cfg.require_remote (pure tt)))

  current_state-simulated :
      (w : World Simulation)
      → current_state simulation cfg w ≡ some (ok (seen w.plant.0.state w.plant.0.fault), w)
  unfolding current_state
  current_state-simulated w =
      bind-ok (read_statusword simulation cfg) _ w w _ (read_statusword-simulated w)
      ∙ ap (λ st. some (ok st, w)) (make_statusword-seen w.plant.0)

  -- The first poll of a wait sees the state, which the drive has taken at once.
  wait_for_states-simulated :
      (rounds timeout : ℕ) (desired : Cia402State → Bool) (w : World Simulation)
      → desired (seen w.plant.0.state w.plant.0.fault) ≡ true
      → wait_for_states simulation cfg (suc rounds) desired timeout w
        ≡ some (ok (seen w.plant.0.state w.plant.0.fault), w)
  unfolding wait_for_states wait_loop
  wait_for_states-simulated rounds timeout desired w h =
      bind-ok (now simulation) _ w w w.plant.1 refl
      ∙ bind-ok (now simulation) _ w w w.plant.1 refl
      ∙ bind-ok (read_statusword simulation cfg) _ w w _ (read_statusword-simulated w)
      ∙ rw (make_statusword-seen w.plant.0, h)
          (ap (λ st. some (ok st, w)) (make_statusword-seen w.plant.0))

  pub state-simulated :
      (st : Ds402State) (w : World Simulation)
      → In st w
      → current_state simulation cfg w ≡ some (ok (seen st false), w)
  state-simulated st w (s, f, e) =
      current_state-simulated w
      ∙ ap (λ x. some (ok x, w)) (ap (λ t. seen t w.plant.0.fault) s ∙ ap (seen st) f)

  -- A command of the state machine: its word, and a wait that the first poll ends.
  pub command-simulated :
      (rounds timeout cw : ℕ) (st : Ds402State) (desired : Cia402State → Bool)
      (w : World Simulation)
      → Takes cw st w
      → cw % 65536 ≡ cw
      → desired (seen st false) ≡ true
      → (write_controlword simulation cfg cw
            >> (wait_for_states simulation cfg (suc rounds) desired timeout >> pure tt))
          w
        ≡ some (ok tt, obeyed cw w)
  command-simulated rounds timeout cw st desired w (taken, (s, f, e)) narrow h =
      bind-ok (write_controlword simulation cfg cw) _ w (obeyed cw w) tt (
        rw (narrow)
          (ap (λ r. some (r.0, record { plant = r.1; sent = w.sent ++ (command cw ∷ []) })) taken))
      ∙ bind-ok (wait_for_states simulation cfg (suc rounds) desired timeout) _ (obeyed cw w)
          (obeyed cw w) _
          (wait_for_states-simulated rounds timeout desired (obeyed cw w) (rw (s, f) h))
