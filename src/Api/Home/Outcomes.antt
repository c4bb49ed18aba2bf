-- ===== src/Api/Home/Outcomes.antt =====
-- The ends of `home`.
use dryve_d.Base.{ℕ, suc, ◌≡◌, refl, Bool, true, false, not, Option, List, if◌then◌else◌}
use dryve_d.Base.Errors.{Error, Result, ok, err, runtime_error}
use dryve_d.Io.{Plant, IsTimely, World, Sent, pure, ◌>>◌, raise_if}
use dryve_d.Io.Rules.{Ends, ends, bind-Ends, weaken-Ends, if-Ends}
use dryve_d.Io.Steps.{reading-Ends, raising-Ends}
use dryve_d.Io.Log.{Sends, value-Sends}
use dryve_d.Od.Statusword.{Flags, decode_statusword}
use dryve_d.Cia402.StateMachine as Sm
use dryve_d.Cia402.StateMachine.Commands.{EnoughRounds}
use dryve_d.Cia402.StateMachine.Run.{run_to_operation_enabled-Run}
use dryve_d.Motion.Homing as Homing
use dryve_d.Motion.Homing.Homed as Homed
use dryve_d.Api.Stop.{Surroundings, get_status_live}
use dryve_d.Api.Home.{enable_operation, check_drive_ready, require_remote, home}

-- With a fault in the statusword that is read first, nothing is sent. A result is one that a
-- statusword gave, and there was no fault before.
pub data HomeEnds {S : Type 0} (p : Plant S) (w : World S)
    : Result Homing.HomingResult → World S → Type 0 where
  blocked :
      {v : World S} (sw : ℕ)
      → (p.read_u16 0x6041 0 w.plant).0 ≡ ok sw
      → (decode_statusword sw).fault ≡ true
      → v.sent ≡ w.sent
      → HomeEnds p w (err runtime_error) v
  homed :
      {result : Homing.HomingResult} {v : World S} (sw : ℕ)
      → (p.read_u16 0x6041 0 w.plant).0 ≡ ok sw
      → (decode_statusword sw).fault ≡ false
      → Homed.Homed p result v.plant
      → HomeEnds p w (ok result) v
  unread :
      {e : Error} {v : World S}
      → (p.read_u16 0x6041 0 w.plant).0 ≡ err e
      → v.sent ≡ w.sent
      → HomeEnds p w (err e) v
  raised :
      {e : Error} {v : World S} (sw : ℕ)
      → (p.read_u16 0x6041 0 w.plant).0 ≡ ok sw
      → (decode_statusword sw).fault ≡ false
      → HomeEnds p w (err e) v

module _ {S : Type 0} (p : Plant S) (t : IsTimely p) (around : Surroundings S) (cfg : Sm.Config)
    (n : ℕ) (enough : EnoughRounds cfg n) where
  abbrev Any : {A : Type 0} → Result A → World S → Type 0
  Any r v = Unit {0}

  live-Any : (w : World S) → Ends Any (get_status_live p around w)
  unfolding get_status_live
  live-Any w = reading-Ends p _ _ w (λ sw _. ends tt) (λ e _. tt)

  enable-Any : (w : World S) → Ends Any (enable_operation p around cfg true (suc n) w)
  unfolding enable_operation
  enable-Any w =
      raising-Ends false runtime_error _ w
        (λ _. weaken-Ends (run_to_operation_enabled-Run p cfg t n enough w) (λ r v x. tt)) (λ _. tt)

  -- The status that the preconditions look at: that of a drive without a fault.
  data Ready (w : World S) : Result Flags → World S → Type 0 where
    ready :
        {status : Flags} {v : World S} (sw : ℕ)
        → (p.read_u16 0x6041 0 w.plant).0 ≡ ok sw
        → (decode_statusword sw).fault ≡ false
        → Ready w (ok status) v
    faulty : {e : Error} {v : World S} → HomeEnds p w (err e) v → Ready w (err e) v

  -- A live status.
  data Read (w : World S) : Result Flags → World S → Type 0 where
    was_read :
        {v : World S} (sw : ℕ)
        → (p.read_u16 0x6041 0 w.plant).0 ≡ ok sw
        → v.sent ≡ w.sent
        → Read w (ok (decode_statusword sw)) v
    failed :
        {e : Error} {v : World S}
        → (p.read_u16 0x6041 0 w.plant).0 ≡ err e
        → v.sent ≡ w.sent
        → Read w (err e) v

  live-Read : (w : World S) → Ends (Read w) (get_status_live p around w)
  unfolding get_status_live
  live-Read w =
      reading-Ends p (p.read_u16 0x6041 0) _ w (λ sw q. ends (was_read sw q refl))
        (λ e q. failed q refl)

  checked-Ready :
      (w v : World S) (status : Flags)
      → Read w (ok status) v
      → Ends (Ready w) (
          (raise_if status.fault runtime_error
              >> (if not status.operation_enabled
                  then (enable_operation p around cfg true (suc n) >> get_status_live p around)
                  else pure status))
            v)
  checked-Ready w v _ (was_read sw q log) =
      raising-Ends (decode_statusword sw).fault runtime_error _ v
        (λ clear.
          if-Ends (not (decode_statusword sw).operation_enabled) _ _
            (λ _.
              bind-Ends _ (enable-Any v)
                (λ a u _. weaken-Ends (live-Any u) (λ r x _. told sw q clear r x))
                (λ e u _. faulty (raised sw q clear)))
            (λ _. ends (ready sw q clear)))
        (λ fault. faulty (blocked sw q fault log))
    where
      told :
          (sw : ℕ)
          → (p.read_u16 0x6041 0 w.plant).0 ≡ ok sw
          → (decode_statusword sw).fault ≡ false
          → (r : Result Flags) (x : World S) → Ready w r x
      told sw q clear (ok status) x = ready sw q clear
      told sw q clear (err e) x = faulty (raised sw q clear)

  check_drive_ready-Ready :
      (w : World S) → Ends (Ready w) (check_drive_ready p around cfg true (suc n) w)
  unfolding check_drive_ready
  check_drive_ready-Ready w =
      bind-Ends _ (live-Read w) (λ status v x. checked-Ready w v status x) (λ e v x. not_read e v x)
    where
      not_read : (e : Error) (v : World S) → Read w (err e) v → Ready w (err e) v
      not_read e v (failed q log) = faulty (unread q log)

  require_remote-Any :
      (status : Flags) (w : World S) → Ends Any (require_remote p around cfg true status w)
  unfolding require_remote
  require_remote-Any status w =
      if-Ends (not status.remote) _ _ (λ _. reading-Ends p _ _ w (λ sw _. ends tt) (λ e _. tt))
        (λ _. ends tt)

  module _ (aborted : S → Bool) (homing_cfg : Homing.Config) (timeout : Option ℕ)
      (rounds : Homed.EnoughRounds homing_cfg timeout n) (clear_abort : S → S) where
    run-HomeEnds :
        (w v : World S) (sw : ℕ)
        → (p.read_u16 0x6041 0 w.plant).0 ≡ ok sw
        → (decode_statusword sw).fault ≡ false
        → Ends (HomeEnds p w) (Homing.run p aborted homing_cfg (suc n) timeout v)
    run-HomeEnds w v sw q clear =
        weaken-Ends (Homed.run-Homed p t aborted homing_cfg timeout n rounds v)
          (λ r u x. home_end r u x)
      where
        home_end :
            {l before : List Sent} (r : Result Homing.HomingResult) (u : World S)
            → Sends l (λ result u. Homed.Homed p result u.plant) before r u
            → HomeEnds p w r u
        home_end (ok result) u x = homed sw q clear (value-Sends x)
        home_end (err e) u x = raised sw q clear

    started-HomeEnds :
        (w v : World S) (status : Flags)
        → Ready w (ok status) v
        → Ends (HomeEnds p w) (
            (require_remote p around cfg true status
                >> (raise_if false runtime_error >> (λ x.
                    Homing.run p aborted homing_cfg
                      (suc n)
                      timeout
                      (record x { plant = clear_abort x.plant }))))
              v)
    started-HomeEnds w v status (ready sw q clear) =
        bind-Ends _ (require_remote-Any status v)
          (λ a u _.
            raising-Ends false runtime_error _ u
              (λ _. run-HomeEnds w (record u { plant = clear_abort u.plant }) sw q clear)
              (λ _. raised sw q clear))
          (λ e u _. raised sw q clear)

    -- Whatever the drive answers, `home` on a connected driver ends. If the statusword that it reads
    -- first has a fault, it raises and nothing was sent; so it does if that read raises. If it
    -- returns, there was no fault, and the result is what the last statusword that was read says of
    -- homing attained and homing error, one of which is set.
    pub home-HomeEnds :
        (w : World S)
        → Ends
            (HomeEnds p w)
            (home p around cfg true true clear_abort aborted homing_cfg (suc n) timeout w)
    unfolding home
    home-HomeEnds w =
        raising-Ends false runtime_error _ w
          (λ _.
            bind-Ends _ (check_drive_ready-Ready w) (λ status v x. started-HomeEnds w v status x)
              (λ e v x. not_ready e v x))
          (λ h. absurd (cc))
      where
        not_ready : (e : Error) (v : World S) → Ready w (err e) v → HomeEnds p w (err e) v
        not_ready e v (faulty x) = x
