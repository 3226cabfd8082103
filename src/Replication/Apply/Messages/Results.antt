-- ===== src/Replication/Apply/Messages/Results.antt =====
-- Messages and the transaction that is open.
use pg_replicate.Base.{
  ℕ, ◌≡◌, refl, none, Result, ok, err, Exec, raise, continue, map_err, ◌>>=◌, codes, Text,
}
use pg_replicate.Base.{Option, some, Bool, true, false, pure, ◌==◌, if◌then◌else◌, arith}
use pg_replicate.Base.Triple.{After, Triple, Keeps, Triple-pure, Triple-raise, Triple-bind}
use pg_replicate.Conversions.Protocol.{
  CommitBody, RelationBody, TruncateBody, LogicalReplicationMessage,
}
use pg_replicate.Conversions.Event.{
  Event, EventType, RelationEvent, TruncateEvent, EventConversionError, convert_message_to_event,
}
use pg_replicate.Replication.Apply.Interface.{ApplyLoopError, Surroundings}
use pg_replicate.Replication.Apply.State.{HandleMessageResult, Loop}
use pg_replicate.Replication.Apply.State.{on_world}
use pg_replicate.Replication.Apply.Messages.{
  some_or_raise, end_of_transaction, check_commit_lsn, take_remote_final_lsn, commit_result,
  handle_commit_message, in_transaction, relation_result, handle_relation_message, row_result,
  handle_insert_message, handle_update_message, handle_delete_message, truncate_result,
  handle_truncate_message, dispatch, convert, handle_logical_replication_message,
}

-- The messages that Postgres sends only within a transaction.
abbrev pub IsWithin : LogicalReplicationMessage → Type 0
IsWithin (LogicalReplicationMessage.commit message) = Unit
IsWithin (LogicalReplicationMessage.relation message) = Unit
IsWithin (LogicalReplicationMessage.insert message) = Unit
IsWithin (LogicalReplicationMessage.update message) = Unit
IsWithin (LogicalReplicationMessage.delete message) = Unit
IsWithin (LogicalReplicationMessage.truncate message) = Unit
IsWithin message = ⊥

module _ {W X : Type 0} (env : Surroundings W X) where
  -- The handler refuses, and leaves the loop as it was.
  abbrev Refuses : Loop W X → Exec (Loop W X) ApplyLoopError (HandleMessageResult X) → Type 0
  Refuses s m = (e : ApplyLoopError) × (m s ≡ (err e, s))

  row_refused :
      (name : Text) (rel_id : ℕ) (event : Event X) (s : Loop W X)
      → s.state.remote_final_lsn ≡ none
      → Refuses s (row_result env name rel_id event)
  unfolding row_result in_transaction raise ◌>>=◌
  row_refused name rel_id event s h = (ApplyLoopError.invalid_transaction name, rw h refl)

  relation_refused :
      (event : RelationEvent) (message : RelationBody) (s : Loop W X)
      → s.state.remote_final_lsn ≡ none
      → Refuses s (relation_result env event message)
  unfolding relation_result in_transaction raise ◌>>=◌
  relation_refused event message s h =
      (ApplyLoopError.invalid_transaction (codes "handle_relation_message"), rw h refl)

  truncate_refused :
      (event : TruncateEvent) (message : TruncateBody) (s : Loop W X)
      → s.state.remote_final_lsn ≡ none
      → Refuses s (truncate_result env event message)
  unfolding truncate_result in_transaction raise ◌>>=◌
  truncate_refused event message s h =
      (ApplyLoopError.invalid_transaction (codes "handle_truncate_message"), rw h refl)

  commit_refused :
      (event : Event X) (message : CommitBody) (s : Loop W X)
      → s.state.remote_final_lsn ≡ none
      → Refuses s (commit_result env event message)
  unfolding commit_result take_remote_final_lsn raise ◌>>=◌
  commit_refused event message s h =
      (ApplyLoopError.invalid_transaction (codes "handle_commit_message"), rw h refl)

  dispatch_refused :
      (message : LogicalReplicationMessage) (event : Event X) (s : Loop W X)
      → IsWithin message
      → s.state.remote_final_lsn ≡ none
      → Refuses s (dispatch env message event)
  unfolding dispatch handle_commit_message handle_relation_message handle_insert_message
      handle_update_message handle_delete_message handle_truncate_message raise
  dispatch_refused (LogicalReplicationMessage.commit message) (Event.commit e) s i h =
      commit_refused _ message s h
  dispatch_refused (LogicalReplicationMessage.commit message) event s i h =
      (ApplyLoopError.invalid_event _ EventType.commit, refl)
  dispatch_refused (LogicalReplicationMessage.relation message) (Event.relation e) s i h =
      relation_refused e message s h
  dispatch_refused (LogicalReplicationMessage.relation message) event s i h =
      (ApplyLoopError.invalid_event _ EventType.relation, refl)
  dispatch_refused (LogicalReplicationMessage.insert message) (Event.insert e) s i h =
      row_refused _ _ _ s h
  dispatch_refused (LogicalReplicationMessage.insert message) event s i h =
      (ApplyLoopError.invalid_event _ EventType.insert, refl)
  dispatch_refused (LogicalReplicationMessage.update message) (Event.update e) s i h =
      row_refused _ _ _ s h
  dispatch_refused (LogicalReplicationMessage.update message) event s i h =
      (ApplyLoopError.invalid_event _ EventType.update, refl)
  dispatch_refused (LogicalReplicationMessage.delete message) (Event.delete e) s i h =
      row_refused _ _ _ s h
  dispatch_refused (LogicalReplicationMessage.delete message) event s i h =
      (ApplyLoopError.invalid_event _ EventType.delete, refl)
  dispatch_refused (LogicalReplicationMessage.truncate message) (Event.truncate e) s i h =
      truncate_refused e message s h
  dispatch_refused (LogicalReplicationMessage.truncate message) event s i h =
      (ApplyLoopError.invalid_event _ EventType.truncate, refl)
  dispatch_refused message event s i h = absurd i

  -- A commit, or a message that changes a table or its rows, is refused when no transaction is open,
  -- and the loop is left as it was.
  pub handle_logical_replication_message_refused :
      (message : LogicalReplicationMessage) (s : Loop W X)
      → IsWithin message
      → s.state.remote_final_lsn ≡ none
      → (e : ApplyLoopError) × (handle_logical_replication_message env message s ≡ (err e, s))
  unfolding handle_logical_replication_message convert ◌>>=◌
  handle_logical_replication_message_refused message s i h =
      after (convert_message_to_event env.ext (env.schema_cache s.world) message)
    where
      after :
          (r : Result EventConversionError (Event X))
          → Refuses s
              (λ s. continue (map_err ApplyLoopError.event_conversion r) (dispatch env message) s)
      after (err e) = (ApplyLoopError.event_conversion e, refl)
      after (ok event) = dispatch_refused message event s i h

  -- No transaction is open.
  abbrev IsClosed : Loop W X → Type 0
  IsClosed s = s.state.remote_final_lsn ≡ none

  on_world-IsClosed : {A : Type 0} (op : Exec W ApplyLoopError A) → Keeps IsClosed (on_world op)
  unfolding on_world
  on_world-IsClosed op = record { run = λ s h. either s (op s.world) h }
    where
      either :
          {A : Type 0} (s : Loop W X) (r : Result ApplyLoopError A × W)
          → IsClosed s
          → After (λ _. IsClosed) IsClosed (r.0, record s { world = r.1 })
      either s (ok a, w) h = h
      either s (err e, w) h = h

  -- What a commit that is handled says of the open transaction `o`, and what it leaves.
  abbrev Commits : CommitBody → Option ℕ → HandleMessageResult X → Loop W X → Type 0
  Commits message o result s =
      (o ≡ some message.commit_lsn) × IsClosed s × (result.end_lsn ≡ some message.end_lsn)

  check-Commits :
      (event : Event X) (message : CommitBody) (o : Option ℕ) (lsn : ℕ) (b : Bool)
      → (message.commit_lsn == lsn) ≡ b
      → o ≡ some lsn
      → Triple IsClosed
          (if b
            then end_of_transaction env event message
            else raise (ApplyLoopError.invalid_commit_lsn message.commit_lsn lsn))
          (Commits message o)
          IsClosed
  unfolding end_of_transaction
  check-Commits event message o lsn true same is =
      Triple-bind (λ _. IsClosed) (on_world-IsClosed _)
        λ go_on. Triple-pure _ λ s h. (ground (arith, is, same), h, refl)
  check-Commits event message o lsn false same is = Triple-raise _ λ s h. h

  taken-Commits :
      (event : Event X) (message : CommitBody) (o : Option ℕ)
      → Triple IsClosed
          (some_or_raise o (ApplyLoopError.invalid_transaction (codes "handle_commit_message"))
            >>= check_commit_lsn env event message)
          (Commits message o)
          IsClosed
  unfolding check_commit_lsn raise pure ◌>>=◌
  taken-Commits event message none = record { run = λ s h. h }
  taken-Commits event message (some lsn) = record {
    run = λ s h. (check-Commits event message (some lsn) lsn _ refl refl).run s h;
  }

  -- A commit is only handled in a transaction that is open with its commit position. It closes the
  -- transaction whether it is handled or refused, and its result has its end position.
  pub commit_result_closes :
      (event : Event X) (message : CommitBody) (s : Loop W X)
      → After
          (λ result s'.
            (s.state.remote_final_lsn ≡ some message.commit_lsn)
            × (s'.state.remote_final_lsn ≡ none)
            × (result.end_lsn ≡ some message.end_lsn))
          (λ s'. s'.state.remote_final_lsn ≡ none)
          (commit_result env event message s)
  unfolding commit_result take_remote_final_lsn ◌>>=◌
  commit_result_closes event message s =
      (taken-Commits event message s.state.remote_final_lsn).run
        (record s { state = record s.state { remote_final_lsn = none } }) refl
