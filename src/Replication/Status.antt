-- ===== src/Replication/Status.antt =====
-- The positions that are reported to Postgres: `StatusUpdate` of etl/src/replication/apply.rs, and
-- `EventsStream` of etl/src/replication/stream.rs.
pub mod Throttle
pub mod Keep
use pg_replicate.Base.{
  ℕ, ◌-◌, Bool, true, false, ◌&&◌, not, Option, none, some, Result, ok, err, Exec, ltb, leb, ◌==◌,
  if◌then◌else◌, continue,
}

pub record StatusUpdate : Type 0 where
  pub write_lsn : ℕ
  pub flush_lsn : ℕ
  pub apply_lsn : ℕ

-- A position never goes back.
unfoldable pub update_write_lsn : ℕ → StatusUpdate → StatusUpdate
update_write_lsn new_write_lsn s =
    if leb new_write_lsn s.write_lsn then s else record s { write_lsn = new_write_lsn }

unfoldable pub update_flush_lsn : ℕ → StatusUpdate → StatusUpdate
update_flush_lsn flush_lsn s =
    if leb flush_lsn s.flush_lsn then s else record s { flush_lsn = flush_lsn }

unfoldable pub update_apply_lsn : ℕ → StatusUpdate → StatusUpdate
update_apply_lsn apply_lsn s =
    if leb apply_lsn s.apply_lsn then s else record s { apply_lsn = apply_lsn }

pub data EventsStreamError : Type 0 where
  table_copy_failed epoch_calculation_failed : EventsStreamError

-- The fields besides the wrapped stream.
pub record EventsStream : Type 0 where
  pub last_update : Option ℕ
  pub last_flush_lsn : Option ℕ
  pub last_apply_lsn : Option ℕ

unfoldable pub wrap : EventsStream
wrap = record { last_update = none; last_flush_lsn = none; last_apply_lsn = none }

-- The wrapped stream and the clocks, as operations on the world. Times are in milliseconds.
pub record StatusLink (W : Type 0) : Type 0 where
  -- `Instant::now()`
  pub now : W → ℕ × W
  -- `POSTGRES_EPOCH.elapsed()?.as_micros()`
  pub epoch_elapsed : Exec W EventsStreamError ℕ
  -- write, flush and apply position, and the timestamp
  pub standby_status_update : ℕ → ℕ → ℕ → ℕ → Exec W EventsStreamError (Unit {0})

-- STATUS_UPDATE_INTERVAL, in milliseconds.
abbrev pub status_update_interval : ℕ
status_update_interval = 100

-- Nothing new was flushed or applied, and the last update is recent.
recent : ℕ → ℕ → Option ℕ → Option ℕ → Option ℕ → ℕ → Bool
recent flush_lsn apply_lsn (some last_update) (some last_flush) (some last_apply) now =
    (flush_lsn == last_flush)
    && ((apply_lsn == last_apply) && ltb (now - last_update) status_update_interval)
recent flush_lsn apply_lsn _ _ _ now = false

module _ {W : Type 0} (link : StatusLink W) where
  open link use {now, epoch_elapsed, standby_status_update}

  sent :
      ℕ
      → ℕ
      → EventsStream
      → Result EventsStreamError (Unit {0}) × W
      → Result EventsStreamError (Unit {0}) × EventsStream × W
  sent flush_lsn apply_lsn stream (err e, w) = (err e, stream, w)
  sent flush_lsn apply_lsn stream (ok u, w) =
      let (at, w') = now w in
      (
        ok tt,
        record {
          last_update = some at;
          last_flush_lsn = some flush_lsn;
          last_apply_lsn = some apply_lsn;
        },
        w',
      )

  -- Take the timestamp, send the update, and remember it.
  send : ℕ → ℕ → ℕ → EventsStream → W → Result EventsStreamError (Unit {0}) × EventsStream × W
  unfolding sent
  send write_lsn flush_lsn apply_lsn stream w = sent flush_lsn apply_lsn stream (
      let (ts, w') = epoch_elapsed w in
      continue ts (λ t. standby_status_update write_lsn flush_lsn apply_lsn t) w')

  unfoldable pub send_status_update :
      ℕ → ℕ → ℕ → Bool → EventsStream → W → Result EventsStreamError (Unit {0}) × EventsStream × W
  unfolding recent send
  send_status_update write_lsn flush_lsn apply_lsn force stream w =
      let (at, w') = now w in
      if not force
        && recent flush_lsn apply_lsn stream.last_update stream.last_flush_lsn stream.last_apply_lsn
            at
      then (ok tt, stream, w')
      else send write_lsn flush_lsn apply_lsn stream w'
