-- ===== src/Replication/Apply/Messages.antt =====
-- The handlers of the messages of logical replication. The time is that of the source order: a
-- handler that fails leaves what it wrote before.
pub mod Keep
pub mod Handled
pub mod Results
use pg_replicate.Base.{
  ℕ, Bool, true, false, Option, none, some, List, [], ◌∷◌, ◌++◌, ◌==◌, if◌then◌else◌, Result, ok,
  err, Exec, ◌>>=◌, ◌>>◌, pure, raise, lift, gets, modify, map_err, codes, not, continue,
}
use pg_replicate.Base.{Text}
use pg_replicate.Schema.{TableSchema, partial_eq}
use pg_replicate.Schema.Cache.{get_table_schema}
use pg_replicate.Conversions.Protocol.{
  BeginBody, CommitBody, RelationBody, InsertBody, UpdateBody, DeleteBody, TruncateBody,
  LogicalReplicationMessage,
}
use pg_replicate.Conversions.Event.{
  Event, EventType, event_type, RelationEvent, TruncateEvent, convert_message_to_event,
}
use pg_replicate.Replication.Apply.Interface.{
  ApplyLoopError, event_conversion, invalid_transaction, invalid_commit_lsn, invalid_event,
  missing_table_schema, Surroundings,
}
use pg_replicate.Replication.Apply.State.{
  ApplyLoopState, HandleMessageResult, EndBatch, inclusive, exclusive, Loop, no_result,
  event_result, on_world, on_state,
}

-- `let Some(..) = .. else` with an early return of an error.
abbrev pub some_or_raise : {S E A : Type 0} → Option A → E → Exec S E A
some_or_raise none e = raise e
some_or_raise (some a) e = pure a

module _ {W X : Type 0} (env : Surroundings W X) where
  open env use {ext, hook, schema_cache}

  abbrev pub Handler : Type 0
  Handler = Exec (Loop W X) ApplyLoopError (HandleMessageResult X)

  pub begin_result : Event X → BeginBody → Handler
  begin_result event message = do
    on_state (λ s. record s { remote_final_lsn = some message.final_lsn })
    pure (event_result event)

  pub handle_begin_message : Event X → BeginBody → Handler
  unfolding begin_result event_type
  handle_begin_message (Event.begin event) message = begin_result (Event.begin event) message
  handle_begin_message event message = raise (invalid_event (event_type event) EventType.begin)

  -- `state.remote_final_lsn.take()`
  pub take_remote_final_lsn : Exec (Loop W X) ApplyLoopError (Option ℕ)
  take_remote_final_lsn s =
      (ok s.state.remote_final_lsn, record s { state = record s.state { remote_final_lsn = none } })

  -- The end of the transaction: the hook says whether the worker has come to its end.
  pub end_of_transaction : Event X → CommitBody → Handler
  end_of_transaction event message = do
    continue_loop ← on_world (hook.process_syncing_tables message.end_lsn false)
    pure (record {
      event = some event;
      end_lsn = some message.end_lsn;
      end_batch = if continue_loop then none else some inclusive;
      skip_table = none;
    })

  pub check_commit_lsn : Event X → CommitBody → ℕ → Handler
  unfolding end_of_transaction
  check_commit_lsn event message remote_final_lsn =
      if message.commit_lsn == remote_final_lsn
      then end_of_transaction event message
      else raise (invalid_commit_lsn message.commit_lsn remote_final_lsn)

  pub commit_result : Event X → CommitBody → Handler
  unfolding take_remote_final_lsn check_commit_lsn
  commit_result event message = do
    taken ← take_remote_final_lsn
    remote_final_lsn ← some_or_raise taken (invalid_transaction (codes "handle_commit_message"))
    check_commit_lsn event message remote_final_lsn

  pub handle_commit_message : Event X → CommitBody → Handler
  unfolding commit_result event_type
  handle_commit_message (Event.commit event) message = commit_result (Event.commit event) message
  handle_commit_message event message = raise (invalid_event (event_type event) EventType.commit)

  -- The final lsn of the transaction that is open.
  pub in_transaction : Text → Exec (Loop W X) ApplyLoopError ℕ
  in_transaction name s = some_or_raise s.state.remote_final_lsn (invalid_transaction name) s

  pub compare_schema : RelationEvent → ℕ → Option TableSchema → Handler
  compare_schema event rel_id none = raise (missing_table_schema rel_id)
  compare_schema event rel_id (some existing) =
      if partial_eq existing event.table_schema
      then pure (event_result (Event.relation event))
      else pure (record {
        event = none;
        end_lsn = none;
        end_batch = some exclusive;
        skip_table = some rel_id;
      })

  pub relation_result : RelationEvent → RelationBody → Handler
  unfolding in_transaction compare_schema
  relation_result event message = do
    remote_final_lsn ← in_transaction (codes "handle_relation_message")
    apply ← on_world (hook.should_apply_changes message.rel_id remote_final_lsn)
    existing ← gets (λ s. get_table_schema (schema_cache s.world) message.rel_id)
    if apply then compare_schema event message.rel_id existing else pure no_result

  pub handle_relation_message : Event X → RelationBody → Handler
  unfolding relation_result event_type
  handle_relation_message (Event.relation event) message = relation_result event message
  handle_relation_message event message =
      raise (invalid_event (event_type event) EventType.relation)

  -- What the handlers of insert, update and delete share: the event counts if the hook says so.
  pub row_result : Text → ℕ → Event X → Handler
  unfolding in_transaction
  row_result name rel_id event = do
    remote_final_lsn ← in_transaction name
    apply ← on_world (hook.should_apply_changes rel_id remote_final_lsn)
    if apply then pure (event_result event) else pure no_result

  pub handle_insert_message : Event X → InsertBody → Handler
  unfolding row_result event_type
  handle_insert_message (Event.insert event) message =
      row_result (codes "handle_insert_message") message.rel_id (Event.insert event)
  handle_insert_message event message = raise (invalid_event (event_type event) EventType.insert)

  pub handle_update_message : Event X → UpdateBody → Handler
  unfolding row_result event_type
  handle_update_message (Event.update event) message =
      row_result (codes "handle_update_message") message.rel_id (Event.update event)
  handle_update_message event message = raise (invalid_event (event_type event) EventType.update)

  pub handle_delete_message : Event X → DeleteBody → Handler
  unfolding row_result event_type
  handle_delete_message (Event.delete event) message =
      row_result (codes "handle_delete_message") message.rel_id (Event.delete event)
  handle_delete_message event message = raise (invalid_event (event_type event) EventType.delete)

  -- The loop over the tables of a truncate: those whose changes are to be applied.
  pub wanted_tables : ℕ → List ℕ → Exec (Loop W X) ApplyLoopError (List ℕ)
  wanted_tables remote_final_lsn [] = pure []
  wanted_tables remote_final_lsn (table_id ∷ rest) = do
    apply ← on_world (hook.should_apply_changes table_id remote_final_lsn)
    wanted ← wanted_tables remote_final_lsn rest
    pure (if apply then table_id ∷ wanted else wanted)

  pub truncate_result : TruncateEvent → TruncateBody → Handler
  unfolding in_transaction wanted_tables
  truncate_result event message = do
    remote_final_lsn ← in_transaction (codes "handle_truncate_message")
    rel_ids ← wanted_tables remote_final_lsn message.rel_ids
    pure (event_result (Event.truncate (record event { rel_ids = rel_ids })))

  pub handle_truncate_message : Event X → TruncateBody → Handler
  unfolding truncate_result event_type
  handle_truncate_message (Event.truncate event) message = truncate_result event message
  handle_truncate_message event message =
      raise (invalid_event (event_type event) EventType.truncate)

  pub dispatch : LogicalReplicationMessage → Event X → Handler
  dispatch (LogicalReplicationMessage.begin message) event = handle_begin_message event message
  dispatch (LogicalReplicationMessage.commit message) event = handle_commit_message event message
  dispatch (LogicalReplicationMessage.relation message) event =
      handle_relation_message event message
  dispatch (LogicalReplicationMessage.insert message) event = handle_insert_message event message
  dispatch (LogicalReplicationMessage.update message) event = handle_update_message event message
  dispatch (LogicalReplicationMessage.delete message) event = handle_delete_message event message
  dispatch (LogicalReplicationMessage.truncate message) event =
      handle_truncate_message event message
  dispatch LogicalReplicationMessage.origin event = pure no_result
  dispatch LogicalReplicationMessage.type event = pure no_result
  dispatch LogicalReplicationMessage.other event = pure no_result

  pub convert : LogicalReplicationMessage → Exec (Loop W X) ApplyLoopError (Event X)
  convert message s =
      (map_err event_conversion (convert_message_to_event ext (schema_cache s.world) message), s)

  pub handle_logical_replication_message : LogicalReplicationMessage → Handler
  unfolding convert dispatch
  handle_logical_replication_message message = do event ← convert message; dispatch message event
