-- ===== src/Motion/Jog/Stopping.antt =====
-- `release`, `keepalive` and `close`.
use dryve_d.Base.{
  ◌⊎◌, inl, inr, ℕ, ◌+◌, ◌≡◌, refl, ap, sym, subst, ◌∙◌, arith, Bool, true, false, not, Option,
  none, some, List, [], ◌∷◌, ◌++◌, if◌then◌else◌,
}
use dryve_d.Base.Int.{ℤ, pos, eqb_ℤ, eq_of_parts}
use dryve_d.Base.Errors.{Error, ok, err}
use dryve_d.Io.{Plant, IsTimely, World, Sent, pure, ◌>>=◌}
use dryve_d.Io.Rules.{Ends, ends, weaken-Ends}
use dryve_d.Io.Log.{Sends, Any, returned-Sends, seq-Sends, write-Sends, part, whole}
use dryve_d.Od.Controlword.{cw_set_bits, cw_clear_bits}
use dryve_d.Motion.{or_default}
use dryve_d.Motion.Rules.{pulse_log}
use dryve_d.Motion.ProfileVelocity as Pv
use dryve_d.Motion.ProfileVelocity.Setpoints.{velocity_log, commanded-Sends, zero-Sends}
use dryve_d.Motion.Jog.{
  Config, Controller, StopMode, changed, send_stop, stop_active, switch_off, stop_locked, keep,
  on_drive, keepalive, press, release,
}
use dryve_d.Motion.Jog.Rules.{
  its_drive, driven, Kept, Outcome, driving-Outcome, asking-Ends, driving-Ends, while_on-Ends,
}
use dryve_d.Motion.Jog.Pressed.{refresh_last, press-Pressed}

-- What a stop sends.
abbrev pub stop_log : StopMode → List Sent
stop_log StopMode.velocity_zero = velocity_log (pos 0)
stop_log StopMode.halt =
    (record { index = 0x6040; value = pos 0x010F; subindex = 0 } ∷ [])
    ++ (velocity_log (pos 0) ++ (record { index = 0x6040; value = pos 0x0F; subindex = 0 } ∷ []))

-- What a keepalive sends.
abbrev pub change_log : Option ℤ → List Sent
change_log none = []
change_log (some velocity) = velocity_log velocity ++ pulse_log

-- No jog is on: it was off before, or it was stopped. The rest is as it was in `c`.
pub record Stopped {S : Type 0} (c d : Controller S) : Type 0 where
  pub inactive : d.state.active ≡ false
  pub at_rest :
      (d.state ≡ c.state) ⊎ ((d.state.velocity ≡ pos 0) × (d.state.last_update ≡ d.state.deadline))
  pub same_mode : d.mode_ready ≡ c.mode_ready
  pub same_task : d.watch_task ≡ c.watch_task

-- What a keepalive changes: nothing without a jog; else the time to live, and the velocity if it
-- is given.
pub data Refreshed {S : Type 0} (velocity : Option ℤ) (ttl : ℕ) (c d : Controller S) : Type 0 where
  ignored : c.state.active ≡ false → d ≡ c → Refreshed velocity ttl c d
  extended :
      c.state.active ≡ true
      → d.state.active ≡ true
      → d.state.velocity ≡ or_default velocity c.state.velocity
      → d.state.deadline ≡ d.state.last_update + ttl
      → d.mode_ready ≡ c.mode_ready
      → d.watch_task ≡ c.watch_task
      → Refreshed velocity ttl c d

eqb_ℤ_lem : (a b : ℤ) → eqb_ℤ a b ≡ true → a ≡ b
eqb_ℤ_lem a b h = eq_of_parts a b (ground arith)

module _ {S : Type 0} (p : Plant S) (t : IsTimely p) (aborted : S → Bool) (cfg : Config) where
  send_stop-Sends :
      (mode : StopMode) (w : World S)
      → Ends (Sends (stop_log mode) Any w.sent) (send_stop p aborted cfg mode w)
  unfolding send_stop Pv.halt cw_set_bits cw_clear_bits
  send_stop-Sends StopMode.velocity_zero w = zero-Sends p w
  send_stop-Sends StopMode.halt w =
      seq-Sends (_ ∷ []) _ _ (write-Sends p p.write_u16 _ _ _ w) λ _ v _.
        seq-Sends (velocity_log (pos 0)) (_ ∷ []) _ (zero-Sends p v)
          λ _ u _. write-Sends p p.write_u16 _ _ _ u

  switch_off-Stopped :
      {l before : List Sent} (w v : World (Controller S))
      → w.plant.mode_ready ≡ v.plant.mode_ready
      → w.plant.watch_task ≡ v.plant.watch_task
      → ((u : World (Controller S))
          → u.sent ≡ w.sent
          → Stopped v.plant u.plant
          → Sends l (λ _ u. Stopped v.plant u.plant) before (ok tt) u)
      → Ends
          (Outcome v.plant l (λ _ u. Stopped v.plant u.plant) before)
          (switch_off p aborted cfg w)
  unfolding switch_off on_drive ◌>>=◌
  switch_off-Stopped w v q r h = ends (record {
    sends =
        h _ refl
          (record { inactive = refl; at_rest = inr (refl, refl); same_mode = q; same_task = r });
    kept = tt;
  })

  stop_active-Stopped :
      (w : World (Controller S))
      → Ends
          (Outcome w.plant (stop_log cfg.stop_mode) (λ _ v. Stopped w.plant v.plant) w.sent)
          (stop_active p aborted cfg w)
  unfolding stop_active
  stop_active-Stopped w =
      driving-Ends _ _ w (send_stop-Sends cfg.stop_mode (its_drive w))
        (λ _ v x. switch_off-Stopped (driven w v) w refl refl (λ u q y. whole u q (λ _. y) x))
        (λ e v x. record { sends = part _ refl x; kept = (refl, refl) })

  -- Whatever the drive answers, a release ends. If no jog is on, nothing is sent; if one is on, the
  -- stop of the configuration is sent. When it returns no jog is on. If it raises, a first part of
  -- the stop was sent, and the jog is as it was.
  pub stop_locked-Stopped :
      (w : World (Controller S))
      → Ends
          (Outcome w.plant
            (if w.plant.state.active then stop_log cfg.stop_mode else [])
            (λ _ v. Stopped w.plant v.plant)
            w.sent)
          (stop_locked p aborted cfg w)
  unfolding stop_locked
  stop_locked-Stopped w = asking-Ends _ w (
      while_on-Ends
        (λ b.
          Outcome w.plant (if b then stop_log cfg.stop_mode else [])
            (λ _ v. Stopped w.plant v.plant) w.sent)
        w.plant.state.active _ w
        (λ q. record {
          sends =
              returned-Sends refl
                (record { inactive = q; at_rest = inl refl; same_mode = refl; same_task = refl });
          kept = tt;
        })
        (λ _. stop_active-Stopped w))

  keep-Outcome :
      (velocity : Option ℤ) (ttl : Option ℕ) (w : World (Controller S))
      → w.plant.state.active ≡ true
      → Ends
          (Outcome w.plant
            (change_log (changed velocity w.plant.state.velocity))
            (λ _ v. Refreshed velocity (or_default ttl cfg.ttl) w.plant v.plant)
            w.sent)
          (keep p aborted cfg
            (changed velocity w.plant.state.velocity)
            w.plant.state.velocity
            ttl
            w)
  unfolding keep
  keep-Outcome none ttl w q = refresh_last p t aborted cfg w.plant.state.velocity ttl w (
      ends
        (record { sends = returned-Sends refl (extended q refl refl refl refl refl); kept = tt }))
  keep-Outcome (some x) ttl w q = decided (eqb_ℤ x w.plant.state.velocity) refl
    where
      decided :
          (b : Bool)
          → eqb_ℤ x w.plant.state.velocity ≡ b
          → Ends
              (Outcome w.plant
                (change_log (if b then none else some x))
                (λ _ v. Refreshed (some x) (or_default ttl cfg.ttl) w.plant v.plant)
                w.sent)
              (keep p aborted cfg (if b then none else some x) w.plant.state.velocity ttl w)
      decided true h = refresh_last p t aborted cfg w.plant.state.velocity ttl w (
          ends (record {
            sends =
                returned-Sends refl
                  (extended q refl (sym (eqb_ℤ_lem x w.plant.state.velocity h)) refl refl refl);
            kept = tt;
          }))
      decided false h =
          driving-Outcome w.plant (velocity_log x ++ pulse_log) [] _ _ w refl refl
            (commanded-Sends p x (its_drive w))
            (λ _ v _. refresh_last p t aborted cfg x ttl _ (
              ends (record {
                sends = returned-Sends refl (extended q refl refl refl refl refl);
                kept = tt;
              })))

  -- Whatever the drive answers, a keepalive ends. If no jog is on, nothing is sent and nothing
  -- changes. If one is on, the velocity and the start pulse are sent if the velocity is a new one;
  -- when it returns, the jog has that velocity and a time to live from now on, and if it raises the
  -- jog is as it was.
  pub keepalive-Refreshed :
      (velocity : Option ℤ) (ttl : Option ℕ) (w : World (Controller S))
      → Ends
          (Outcome w.plant
            (if w.plant.state.active
              then change_log (changed velocity w.plant.state.velocity)
              else [])
            (λ _ v. Refreshed velocity (or_default ttl cfg.ttl) w.plant v.plant)
            w.sent)
          (keepalive p aborted cfg velocity ttl w)
  unfolding keepalive
  keepalive-Refreshed velocity ttl w = asking-Ends _ w (
      while_on-Ends
        (λ b.
          Outcome w.plant (if b then change_log (changed velocity w.plant.state.velocity) else [])
            (λ _ v. Refreshed velocity (or_default ttl cfg.ttl) w.plant v.plant) w.sent)
        w.plant.state.active _ w
        (λ q. record { sends = returned-Sends refl (ignored q refl); kept = tt })
        (keep-Outcome velocity ttl w))

  off-release :
      (v : World (Controller S))
      → v.plant.state.active ≡ false
      → release p aborted cfg v ≡ some (ok tt, v)
  unfolding stop_locked ◌>>=◌
  off-release v q = ap (λ b. (if not b then pure tt else stop_active p aborted cfg) v) q

  -- A press that raises while no jog is on leaves a controller whose release sends nothing, also
  -- if the press had sent the velocity.
  pub failed_press-release :
      (velocity : ℤ) (ttl : Option ℕ) (w : World (Controller S))
      → w.plant.state.active ≡ false
      → Ends
          (λ r v. (e : Error) → r ≡ err e → release p aborted cfg v ≡ some (ok tt, v))
          (press p aborted cfg velocity ttl w)
  failed_press-release velocity ttl w q =
      weaken-Ends (press-Pressed p t aborted cfg velocity ttl w) (λ r v x e h.
        off-release v (ap (λ s. s.active) (subst (λ z. Kept w.plant z v.plant) h x.kept).0 ∙ q))
