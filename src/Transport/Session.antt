-- ===== src/Transport/Session.antt =====
-- src/dryve_d1/transport/session.py and retry.py: `ModbusSession.transceive` with its retries. One
-- call holds the session; the keepalive thread and the log lines are left out. The delay before a
-- retry has a random part, so waiting is the runtime's.
pub mod Retry
use dryve_d.Base.{
  ℕ, zero, suc, ◌+◌, ◌*◌, ◌%◌, Bool, true, false, not, ◌&&◌, Option, none, some, List, length,
  get_or, max, ltb, leb, ◌==◌, if◌then◌else◌,
}
use dryve_d.Base.Errors.{Error, Result, ok, err, timeout_error, connection_error, os_error}
use dryve_d.Protocol.Validator.{be16}
use dryve_d.Transport.TransactionId.{Generator, align}
use dryve_d.Transport.Client.{
  Socket, Client, connect as client_connect, transceive as client_transceive, close as client_close,
}

-- The socket, the callback of a reconnection (whose exceptions are caught), the stop event, the
-- clock, and `sleep_before_next` with its deadline and the attempts made.
pub record Runtime (N : Type 0) : Type 0 where
  pub socket : Socket N
  pub on_reconnect : N → N
  pub is_stopped : N → Bool
  pub clock : N → ℕ
  pub pause : Option ℕ → ℕ → N → N

-- `RetryPolicy.max_attempts`, and the environment's `allow_tid_mismatch`.
pub record Settings : Type 0 where
  pub max_attempts : ℕ
  pub allow_tid_mismatch : Bool

pub record Session (N : Type 0) : Type 0 where
  pub client : Client N
  pub ever_connected : Bool
  pub ids : Generator

-- `retry_on`: in Python `TimeoutError` and `ConnectionError` are kinds of `OSError`.
abbrev pub is_retried : Error → Bool
is_retried timeout_error = true
is_retried connection_error = true
is_retried os_error = true
is_retried _ = false

-- `RetryBudget.can_retry`
unfoldable pub can_retry : ℕ → ℕ → Option ℕ → ℕ → Bool
can_retry max_attempts attempts none time = ltb attempts max_attempts
can_retry max_attempts attempts (some deadline) time =
    ltb attempts max_attempts && ltb time deadline

-- The first two bytes of an ADU.
abbrev pub tid_of : List ℕ → ℕ
tid_of adu = be16 (get_or adu 0 0) (get_or adu 1 0)

-- The generator after a response: aligned if the remote used another id.
unfoldable pub align_ids : Bool → List ℕ → List ℕ → Generator → Generator
align_ids allow adu resp ids =
    if allow && leb 2 (length resp) && leb 2 (length adu) && not (tid_of resp == tid_of adu)
    then align ((tid_of resp + 1) % 65536) ids
    else ids

module _ {N : Type 0} (runtime : Runtime N) (settings : Settings) where
  unfoldable pub connect : Session N → Result (Unit {0}) × Session N
  connect session =
      if session.client.is_connected
      then (ok tt, session)
      else let (r, client) = client_connect runtime.socket session.client in
        elim r [
          | err e ↦ (err e, record session { client = client })
          | ok _ ↦ (
            ok tt,
            record session {
              client =
                  if session.ever_connected
                  then record client { net = runtime.on_reconnect client.net }
                  else client;
              ever_connected = true;
            },
          )
        ]

  -- The session after the network moved on.
  abbrev pub moved : Session N → N → Session N
  moved session net = record session {
    client = record { is_connected = session.client.is_connected; net = net };
  }

  -- The body of the `try` statement.
  unfoldable pub attempt : List ℕ → Session N → Option (Result (List ℕ) × Session N)
  attempt adu session = elim (connect session).0 [
    | err e ↦ some (err e, (connect session).1)
    | ok _ ↦ elim (client_transceive runtime.socket adu (connect session).1.client) [
      | none ↦ none
      | some (err e, net) ↦ some (err e, moved (connect session).1 net)
      | some (ok resp, net) ↦ some (
        ok resp,
        record (moved (connect session).1 net) {
          ids = align_ids settings.allow_tid_mismatch adu resp session.ids;
        },
      )
    ]
  ]

  unfoldable pub close : Session N → Session N
  close session = record session { client = client_close runtime.socket session.client }

  -- The loop of `transceive`, after so many attempts; `rounds` bounds it.
  unfoldable pub retry :
      ℕ → ℕ → List ℕ → Option ℕ → Session N → Option (Result (List ℕ) × Session N)
  retry zero attempts adu deadline session = none
  retry (suc rounds) attempts adu deadline session = elim (attempt adu session) [
    | none ↦ none
    | some (ok resp, s) ↦ some (ok resp, s)
    | some (err e, s) ↦ elim (is_retried e) [
      | false ↦ some (err e, s)
      | true ↦ elim (runtime.is_stopped (close s).client.net) [
        | true ↦ some (err connection_error, close s)
        | false ↦
            elim (can_retry settings.max_attempts (suc attempts) deadline
              (runtime.clock (close s).client.net)) [
                | false ↦ some (err e, close s)
                | true ↦
                    retry rounds (suc attempts) adu deadline
                      (moved (close s) (runtime.pause deadline (suc attempts) (close s).client.net))
              ]
      ]
    ]
  ]

  -- Each round is an attempt. There are as many rounds as attempts are allowed, and at least one.
  unfoldable pub transceive : List ℕ → Option ℕ → Session N → Option (Result (List ℕ) × Session N)
  transceive adu deadline session = retry (max 1 settings.max_attempts) 0 adu deadline session
