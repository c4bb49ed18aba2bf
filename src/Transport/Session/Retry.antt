-- ===== src/Transport/Session/Retry.antt =====
-- The retry loop of the session.
use dryve_d.Base.{
  ℕ, zero, suc, ◌+◌, ◌≤◌, ◌<◌, ◌≡◌, refl, Bool, true, false, Option, none, some, List, length, max,
  arith,
}
use dryve_d.Base.Errors.{Error, Result, ok, err, connection_error}
use dryve_d.Transport.Client.{Socket, IsStream, length_field, close as client_close}
use dryve_d.Transport.Client.Framing.{Delivered, frame, failed, transceive-Delivered}
use dryve_d.Transport.Session.{
  Runtime, Settings, Session, is_retried, can_retry, connect, attempt, close, retry, transceive,
  moved,
}

-- How a call ends.
pub data Outcome {N : Type 0} : Option (Result (List ℕ) × Session N) → Type 0 where
  answered :
      {resp : List ℕ} {s : Session N}
      → 7 ≤ length resp
      → length resp ≡ 6 + length_field resp
      → Outcome (some (ok resp, s))
  given_up :
      {e : Error} {s : Session N}
      → is_retried e ≡ true
      → s.client.is_connected ≡ false
      → Outcome (some (err e, s))
  passed_on : {e : Error} {s : Session N} → is_retried e ≡ false → Outcome (some (err e, s))

-- How one attempt ends.
data Tried {N : Type 0} : Option (Result (List ℕ) × Session N) → Type 0 where
  got :
      {resp : List ℕ} {s : Session N}
      → 7 ≤ length resp
      → length resp ≡ 6 + length_field resp
      → Tried (some (ok resp, s))
  broke : {e : Error} {s : Session N} → Tried (some (err e, s))

can_retry-bound :
    (max_attempts attempts : ℕ) (deadline : Option ℕ) (time : ℕ)
    → can_retry max_attempts attempts deadline time ≡ true
    → attempts < max_attempts
unfolding can_retry
can_retry-bound m a none time q = ground arith
can_retry-bound m a (some d) time q = ground arith

module _ {N : Type 0} where
  -- The tests after a failure, for an exception that is retried.
  stop-Outcome :
      (stopped can : Bool) (e : Error) (s : Session N)
      {again : Option (Result (List ℕ) × Session N)}
      → is_retried e ≡ true
      → s.client.is_connected ≡ false
      → (can ≡ true → Outcome again)
      → Outcome (elim stopped as (λ _. Option (Result (List ℕ) × Session N)) [
        | true ↦ some (err connection_error, s)
        | false ↦ elim can as (λ _. Option (Result (List ℕ) × Session N)) [
          | false ↦ some (err e, s)
          | true ↦ again
        ]
      ])
  stop-Outcome true can e s r c k = given_up refl c
  stop-Outcome false true e s r c k = k refl
  stop-Outcome false false e s r c k = given_up r c

  is_retried-Outcome :
      (b : Bool) (e : Error) (s : Session N) {again : Option (Result (List ℕ) × Session N)}
      → is_retried e ≡ b
      → (is_retried e ≡ true → Outcome again)
      → Outcome (elim b as (λ _. Option (Result (List ℕ) × Session N)) [
        | false ↦ some (err e, s)
        | true ↦ again
      ])
  is_retried-Outcome true e s q k = k q
  is_retried-Outcome false e s q k = passed_on q

  Tried-Outcome :
      (again : Error → Session N → Option (Result (List ℕ) × Session N))
      {o : Option (Result (List ℕ) × Session N)}
      → Tried o
      → ((e : Error) (s : Session N) → is_retried e ≡ true → Outcome (again e s))
      → Outcome (elim o as (λ _. Option (Result (List ℕ) × Session N)) [
        | none ↦ none
        | some (ok resp, s) ↦ some (ok resp, s)
        | some (err e, s) ↦ elim (is_retried e) as (λ _. Option (Result (List ℕ) × Session N)) [
          | false ↦ some (err e, s)
          | true ↦ again e s
        ]
      ])
  Tried-Outcome again (got l q) k = answered l q
  Tried-Outcome again (broke {e = e} {s = s}) k = is_retried-Outcome (is_retried e) e s refl (k e s)

  Delivered-Tried :
      (after_frame : List ℕ → N → Session N) (after_loss : N → Session N)
      {o : Option (Result (List ℕ) × N)}
      → Delivered o
      → Tried (elim o as (λ _. Option (Result (List ℕ) × Session N)) [
        | none ↦ none
        | some (err e, net) ↦ some (err e, after_loss net)
        | some (ok resp, net) ↦ some (ok resp, after_frame resp net)
      ])
  Delivered-Tried f g (frame l q) = got l q
  Delivered-Tried f g failed = broke

  connected-Tried :
      (r : Result (Unit {0})) (s : Session N) {o : Option (Result (List ℕ) × Session N)}
      → Tried o
      → Tried (elim r as (λ _. Option (Result (List ℕ) × Session N)) [
        | err e ↦ some (err e, s)
        | ok _ ↦ o
      ])
  connected-Tried (ok u) s t = t
  connected-Tried (err e) s t = broke

  closed :
      (socket : Socket N) (is_connected : Bool) (net : N)
      → (client_close socket (record { is_connected = is_connected; net = net })).is_connected
        ≡ false
  unfolding client_close
  closed socket true net = refl
  closed socket false net = refl

module _ {N : Type 0} (runtime : Runtime N) (settings : Settings)
    (h : IsStream runtime.socket) where
  close-closed : (s : Session N) → (close runtime settings s).client.is_connected ≡ false
  unfolding close
  close-closed s = closed runtime.socket s.client.is_connected s.client.net

  attempt-Tried : (adu : List ℕ) (s : Session N) → Tried (attempt runtime settings adu s)
  unfolding attempt
  attempt-Tried adu s = connected-Tried (connect runtime settings s).0 _ (
      Delivered-Tried _ _
        (transceive-Delivered runtime.socket h adu (connect runtime settings s).1.client))

  retry-Outcome :
      (rounds attempts : ℕ) (adu : List ℕ) (deadline : Option ℕ) (s : Session N)
      → 1 ≤ rounds
      → settings.max_attempts ≤ attempts + rounds
      → Outcome (retry runtime settings rounds attempts adu deadline s)
  unfolding retry
  retry-Outcome zero attempts adu deadline s a b = ground arith
  retry-Outcome (suc rounds) attempts adu deadline s a b =
      Tried-Outcome _ (attempt-Tried adu s) λ e u q.
        let shut : Session N = close runtime settings u in
        let time : ℕ = runtime.clock shut.client.net in
        stop-Outcome (runtime.is_stopped shut.client.net)
          (can_retry settings.max_attempts (suc attempts) deadline time) e shut q (close-closed u)
          λ c.
            let bound = can_retry-bound settings.max_attempts (suc attempts) deadline time c in
            retry-Outcome rounds (suc attempts) adu deadline
              (moved runtime settings shut (runtime.pause deadline (suc attempts) shut.client.net))
              (omega arith) (omega arith)

  -- `transceive` ends in the rounds that it has, one for each attempt: `max_attempts`, or one if that
  -- is 0. So it makes no more attempts. It ends with a whole frame, with the socket closed after an
  -- exception that is retried, or with another exception.
  pub transceive-Outcome :
      (adu : List ℕ) (deadline : Option ℕ) (s : Session N)
      → Outcome (transceive runtime settings adu deadline s)
  unfolding transceive
  transceive-Outcome adu deadline s =
      retry-Outcome (max 1 settings.max_attempts) 0 adu deadline s (ground arith) (ground arith)
