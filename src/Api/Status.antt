-- ===== src/Api/Status.antt =====
-- src/dryve_d1/api/status_queries.py: the queries beside the statusword. The telemetry is its latest
-- snapshot, if there is one.
pub mod Moving
use dryve_d.Base.{ℕ, Bool, true, false, not, ◌&&◌, Option, none, some, ltb, if◌then◌else◌}
use dryve_d.Base.Int.{ℤ, pos, abs, eqb_ℤ, leb_ℤ}
use dryve_d.Base.Errors.{Result, ok, err, runtime_error, value_error}
use dryve_d.Io.{
  Plant, Action, pure, ◌>>=◌, ◌>>◌, raise_if, attempt, read_u16, read_i8, read_i32, write_i32, now,
}
use dryve_d.Od.Indices.{OdIndex, index_of}
use dryve_d.Od.Statusword.{Flags, Cia402State, decode_statusword, infer_cia402_state}
use dryve_d.Motion.Jog.{Controller, on_drive, controller}

-- The fields of `DriveSnapshot` that the queries use.
pub record Snapshot : Type 0 where
  pub position : Option ℤ
  pub velocity : Option ℤ
  pub mode_display : Option ℤ
  pub decoded_status : Option Flags

abbrev pub field_of : {A : Type 0} → (Snapshot → Option A) → Option Snapshot → Option A
field_of f none = none
field_of f (some snapshot) = f snapshot

module _ {S : Type 0} (p : Plant S) where
  unfoldable pub get_position_live : Action S ℤ
  get_position_live = read_i32 p (index_of OdIndex.position_actual_value) 0

  abbrev pub cached_or_read : Option ℤ → Action S ℤ
  cached_or_read none = get_position_live
  cached_or_read (some position) = pure position

  unfoldable pub get_position : Option Snapshot → Action S ℤ
  get_position snapshot = cached_or_read (field_of (λ s. s.position) snapshot)

  -- An exception of the read means that nothing is known.
  abbrev pub known : Result ℤ → Option ℤ
  known (ok v) = some v
  known (err e) = none

  -- `_read_velocity_or_none`
  unfoldable pub read_velocity_or_none : Option ℤ → Action S (Option ℤ)
  read_velocity_or_none (some velocity) = pure (some velocity)
  read_velocity_or_none none =
      attempt (read_i32 p (index_of OdIndex.velocity_actual_value) 0) >>= λ r. pure (known r)

  module _ (velocity_threshold : ℕ) where
    abbrev pub is_fast : Option ℤ → Bool → Bool
    is_fast none unknown = unknown
    is_fast (some velocity) unknown = ltb velocity_threshold (abs velocity)

    -- `_is_motion_pp`
    unfoldable pub is_motion_pp : Flags → Option ℤ → Action S Bool
    is_motion_pp decoded velocity =
        if decoded.target_reached
        then pure false
        else (read_velocity_or_none velocity >>= λ vel.
            pure (is_fast vel (not decoded.target_reached)))

    -- `_is_motion_pv`
    unfoldable pub is_motion_pv : Option ℤ → Action S Bool
    is_motion_pv velocity = read_velocity_or_none velocity >>= λ vel. pure (is_fast vel true)

    -- What `is_moving` makes of the mode, or of an exception of its read.
    unfoldable pub by_mode : Flags → Option ℤ → Result ℤ → Action S Bool
    by_mode decoded velocity (err e) = pure (not decoded.target_reached)
    by_mode decoded velocity (ok mode_disp) =
        if eqb_ℤ mode_disp (pos 1)
        then is_motion_pp decoded velocity
        else if eqb_ℤ mode_disp (pos 3)
        then is_motion_pv velocity
        else pure (not decoded.target_reached)

    abbrev pub mode_or_read : Option ℤ → Action S (Result ℤ)
    mode_or_read (some mode_disp) = pure (ok mode_disp)
    mode_or_read none = attempt (read_i8 p (index_of OdIndex.modes_of_operation_display) 0)

    -- The statusword, with the mode of the same snapshot.
    abbrev pub decoded_or_read : Option Snapshot → Option Flags → Action S (Flags × Option ℤ)
    decoded_or_read snapshot (some flags) = pure (flags, field_of (λ s. s.mode_display) snapshot)
    decoded_or_read snapshot none =
        read_u16 p (index_of OdIndex.statusword) 0 >>= λ sw. pure (decode_statusword sw, none)

    -- A jog that is on and in time is a motion, whatever the drive shows.
    unfoldable pub is_moving : Bool → Option Snapshot → Action (Controller S) Bool
    is_moving has_jog snapshot =
        on_drive (decoded_or_read snapshot (field_of (λ s. s.decoded_status) snapshot)) >>= λ d.
        controller >>= λ c. on_drive (now p) >>= λ time.
        if has_jog && (c.state.active && ltb time c.state.deadline)
        then pure true
        else (on_drive (mode_or_read d.1) >>= λ mode.
            on_drive (by_mode d.0 (field_of (λ s. s.velocity) snapshot) mode))

  unfoldable pub get_statusword : Action S ℕ
  get_statusword = read_u16 p (index_of OdIndex.statusword) 0

  unfoldable pub get_cia402_state : Action S Cia402State
  get_cia402_state =
      read_u16 p (index_of OdIndex.statusword) 0 >>= λ sw. pure (infer_cia402_state sw)

  unfoldable pub get_velocity_actual : Action S ℤ
  get_velocity_actual = read_i32 p (index_of OdIndex.velocity_actual_value) 0

  unfoldable pub get_mode_display : Action S ℤ
  get_mode_display = read_i8 p (index_of OdIndex.modes_of_operation_display) 0

  unfoldable pub set_position_limits : Bool → ℤ → ℤ → Action S (Unit {0})
  set_position_limits is_connected min_position max_position =
      raise_if (not is_connected) runtime_error
      >> (raise_if (leb_ℤ max_position min_position) value_error
          >> (write_i32 p (index_of OdIndex.position_range_limit) min_position 1
              >> write_i32 p (index_of OdIndex.position_range_limit) max_position 2))

  unfoldable pub get_position_limits : Bool → Action S (ℤ × ℤ)
  get_position_limits is_connected =
      raise_if (not is_connected) runtime_error
      >> (read_i32 p (index_of OdIndex.position_range_limit) 1 >>= λ min_pos.
          read_i32 p (index_of OdIndex.position_range_limit) 2 >>= λ max_pos.
          pure (min_pos, max_pos))
