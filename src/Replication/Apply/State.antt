-- ===== src/Replication/Apply/State.antt =====
-- `ApplyLoopState`, `HandleMessageResult` and their methods.
use pg_replicate.Base.{
  ℕ, Bool, true, false, Option, none, some, List, ltb, if◌then◌else◌, ok, Exec, map_err,
}
use pg_replicate.Conversions.Event.{Event}
use pg_replicate.Replication.Status.{StatusUpdate, EventsStream, StatusLink, send_status_update}
use pg_replicate.Replication.Apply.Interface.{ApplyLoopError, logical_replication_stream_failed}

pub record ApplyLoopState (X : Type 0) : Type 0 where
  pub last_commit_end_lsn : Option ℕ
  pub remote_final_lsn : Option ℕ
  pub next_status_update : StatusUpdate
  pub last_batch_send_time : ℕ
  pub events_batch : List (Event X)

pub data EndBatch : Type 0 where
  inclusive exclusive : EndBatch

pub record HandleMessageResult (X : Type 0) : Type 0 where
  pub event : Option (Event X)
  pub end_lsn : Option ℕ
  pub end_batch : Option EndBatch
  pub skip_table : Option ℕ

unfoldable pub later_end : Option ℕ → Option ℕ → Option ℕ
later_end old none = old
later_end none (some end_lsn) = some end_lsn
later_end (some old) (some end_lsn) = if ltb old end_lsn then some end_lsn else some old

module _ {X : Type 0} where
  -- `HandleMessageResult::default()`
  abbrev pub no_result : HandleMessageResult X
  no_result = record { event = none; end_lsn = none; end_batch = none; skip_table = none }

  -- The event alone.
  abbrev pub event_result : Event X → HandleMessageResult X
  event_result e = record { event = some e; end_lsn = none; end_batch = none; skip_table = none }

  unfoldable pub new : StatusUpdate → List (Event X) → ℕ → ApplyLoopState X
  new next_status_update events_batch now = record {
    last_commit_end_lsn = none;
    remote_final_lsn = none;
    next_status_update = next_status_update;
    last_batch_send_time = now;
    events_batch = events_batch;
  }

  unfoldable pub update_last_commit_end_lsn : Option ℕ → ApplyLoopState X → ApplyLoopState X
  unfolding later_end
  update_last_commit_end_lsn end_lsn s = record s {
    last_commit_end_lsn = later_end s.last_commit_end_lsn end_lsn;
  }

  unfoldable pub handling_transaction : ApplyLoopState X → Bool
  handling_transaction s = elim s.remote_final_lsn [ none ↦ false | some lsn ↦ true ]

-- The variables of the loop: its state, the stream, and the world.
pub record Loop (W X : Type 0) : Type 0 where
  pub state : ApplyLoopState X
  pub stream : EventsStream
  pub world : W

module _ {W X : Type 0} where
  -- An operation on the world, in the loop.
  unfoldable pub on_world :
      {A : Type 0} → Exec W ApplyLoopError A → Exec (Loop W X) ApplyLoopError A
  on_world op s = let (r, w) = op s.world in (r, record s { world = w })

  -- An update of the loop's own state.
  unfoldable pub on_state :
      (ApplyLoopState X → ApplyLoopState X) → Exec (Loop W X) ApplyLoopError (Unit {0})
  on_state f s = (ok tt, record s { state = f s.state })

  -- Report the positions of `next_status_update`.
  unfoldable pub report : StatusLink W → Bool → Exec (Loop W X) ApplyLoopError (Unit {0})
  report link force s =
      let update = s.state.next_status_update in
      let (r, stream, w) =
        send_status_update link update.write_lsn update.flush_lsn update.apply_lsn force s.stream
          s.world in
      (map_err logical_replication_stream_failed r, record s { stream = stream; world = w })
