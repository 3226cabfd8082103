-- ===== src/Replication/Apply/Messages/Keep.antt =====
-- etl/src/replication/apply.rs: lemmas on the handlers of messages.
use pg_replicate.Base.{
  ℕ, ◌≡◌, ◌≢◌, ◌⊎◌, inl, inr, refl, false, Option, none, some, List, [], ◌∷◌, ok, err, Exec, pure,
  raise, arith,
}
use pg_replicate.Base.{Text}
use pg_replicate.Base.Triple.{Triple, Keeps, Triple-pure, Triple-gets, Triple-if, Triple-bind}
use pg_replicate.Schema.Cache.{SchemaCache}
use pg_replicate.Schema.{TableSchema}
use pg_replicate.Conversions.Protocol.{
  BeginBody, CommitBody, RelationBody, InsertBody, UpdateBody, DeleteBody, TruncateBody,
  LogicalReplicationMessage,
}
use pg_replicate.Conversions.Event.{
  Event, convert_message_to_event, CommitEvent, RelationEvent, TruncateEvent,
}
use pg_replicate.Replication.Apply.Interface.{ApplyLoopError, Surroundings, invalid_transaction}
use pg_replicate.Replication.Apply.State.{
  EndBatch, exclusive, HandleMessageResult, event_result, Loop, on_state, on_world,
}
use pg_replicate.Replication.Apply.Messages.{
  some_or_raise, begin_result, handle_begin_message, take_remote_final_lsn, end_of_transaction,
  check_commit_lsn, commit_result, handle_commit_message, in_transaction, compare_schema,
  relation_result, handle_relation_message, row_result, handle_insert_message,
  handle_update_message, handle_delete_message, wanted_tables, truncate_result,
  handle_truncate_message,
}

-- `I` holds whatever becomes of the open transaction, after the hook is asked whether to apply a
-- change, and after it looks at the syncing tables with `update_state` off.
pub record Survives {W X : Type 0} (env : Surroundings W X) (I : Loop W X → Type 0) : Type 0 where
  pub transaction :
      (s : Loop W X) (lsn : Option ℕ)
      → I s
      → I (record s { state = record s.state { remote_final_lsn = lsn } })
  pub ask : (table_id lsn : ℕ) → Keeps I (on_world (env.hook.should_apply_changes table_id lsn))
  pub look : (lsn : ℕ) → Keeps I (on_world (env.hook.process_syncing_tables lsn false))

-- An end position comes with the commit event that has it, and that event joins the batch.
abbrev pub IsHonest : {X : Type 0} → HandleMessageResult X → Type 0
IsHonest {X = X} result =
    (lsn : ℕ)
    → result.end_lsn ≡ some lsn
    → (e : CommitEvent) × (result.event ≡ some (Event.commit e))
      × (e.end_lsn ≡ lsn)
      × (result.end_batch ≢ some exclusive)

-- The event itself, or a truncate with other tables.
abbrev pub IsOf : {X : Type 0} → Event X → Event X → Type 0
IsOf event e =
    (e ≡ event)
    ⊎ ((t : TruncateEvent) × (ids : List ℕ) × (event ≡ Event.truncate t)
        × (e ≡ Event.truncate (record t { rel_ids = ids })))

-- The message is converted to the event, with some schema cache, and a truncate may lose tables.
abbrev pub ComesFrom :
    {W X : Type 0} → Surroundings W X → LogicalReplicationMessage → Event X → Type 0
ComesFrom {X = X} env message e =
    (cache : SchemaCache) × (event : Event X) × (convert_message_to_event env.ext cache message
      ≡ ok event)
    × IsOf event e

some-injective : {A : Type 0} {a b : A} → some a ≡ some b → b ≡ a
some-injective e = ground arith

some-ne : {A : Type 0} {a : A} → none ≡ some a → ⊥
some-ne e = cc

module _ {W X : Type 0} (env : Surroundings W X) {I : Loop W X → Type 0}
    (survives : Survives env I) where
  -- `I` is kept, and a result is honest and carries no other event than `event`.
  abbrev pub Good : Event X → Exec (Loop W X) ApplyLoopError (HandleMessageResult X) → Type 0
  Good event m =
      Triple I m
        (λ result s. I s × IsHonest result × ((e : Event X) → result.event ≡ some e → IsOf event e))
        I

  plain : (event : Event X) → Good event (pure (event_result event))
  plain event = Triple-pure _ λ s h. (h, (λ lsn e. cc), λ e is. inl (some-injective is))

  pub silent :
      (event : Event X) (end_batch : Option EndBatch) (skip : Option ℕ)
      → Good event
          (pure (record { event = none; end_lsn = none; end_batch = end_batch; skip_table = skip }))
  silent event end_batch skip = Triple-pure _ λ s h. (h, (λ lsn e. cc), λ e is. absurd (some-ne is))

  raises : (event : Event X) (e : ApplyLoopError) → Good event (λ s. (err e, s))
  raises event e = record { run = λ s h. h }

  some_or_raise-Keeps :
      {A : Type 0} (o : Option A) (e : ApplyLoopError) → Keeps I (some_or_raise o e)
  unfolding raise pure
  some_or_raise-Keeps none e = record { run = λ s h. h }
  some_or_raise-Keeps (some a) e = record { run = λ s h. h }

  begin_result-Good :
      (event : Event X) (message : BeginBody) → Good event (begin_result env event message)
  unfolding begin_result on_state
  begin_result-Good event message =
      Triple-bind (λ _. I) (record { run = λ s h. survives.transaction s _ h }) λ _. plain _

  pub handle_begin_message-Good :
      (event : Event X) (message : BeginBody) → Good event (handle_begin_message env event message)
  unfolding handle_begin_message raise
  handle_begin_message-Good (Event.begin event) message = begin_result-Good _ message
  handle_begin_message-Good event message = raises _ _

  end_of_transaction-Good :
      (event : CommitEvent) (message : CommitBody)
      → event.end_lsn ≡ message.end_lsn
      → Good (Event.commit event) (end_of_transaction env (Event.commit event) message)
  unfolding end_of_transaction
  end_of_transaction-Good event message same =
      Triple-bind (λ _. I) (survives.look _)
        λ go_on.
          Triple-pure _
            λ s h. (h, (λ lsn e. (event, refl, cc, ground arith)), λ e is. inl (some-injective is))

  pub commit_result-Good :
      (event : CommitEvent) (message : CommitBody)
      → event.end_lsn ≡ message.end_lsn
      → Good (Event.commit event) (commit_result env (Event.commit event) message)
  unfolding commit_result take_remote_final_lsn check_commit_lsn raise
  commit_result-Good event message same =
      Triple-bind (λ _. I) (record { run = λ s h. survives.transaction s none h })
        λ taken.
          Triple-bind (λ _. I) (some_or_raise-Keeps taken _)
            λ lsn. Triple-if _ (end_of_transaction-Good event message same) (raises _ _)

  handle_commit_message-Good :
      (event : CommitEvent) (message : CommitBody)
      → event.end_lsn ≡ message.end_lsn
      → Good (Event.commit event) (handle_commit_message env (Event.commit event) message)
  unfolding handle_commit_message
  handle_commit_message-Good event message same = commit_result-Good event message same

  in_transaction-Keeps : (name : Text) → Keeps I (in_transaction env name)
  unfolding in_transaction
  in_transaction-Keeps name = record {
    run = λ s h. (some_or_raise-Keeps s.state.remote_final_lsn (invalid_transaction name)).run s h;
  }

  compare_schema-Good :
      (event : RelationEvent) (rel_id : ℕ) (existing : Option TableSchema)
      → Good (Event.relation event) (compare_schema env event rel_id existing)
  unfolding compare_schema raise
  compare_schema-Good event rel_id none = raises _ _
  compare_schema-Good event rel_id (some existing) = Triple-if _ (plain _) (silent _ _ _)

  pub handle_relation_message-Good :
      (event : Event X) (message : RelationBody)
      → Good event (handle_relation_message env event message)
  unfolding handle_relation_message relation_result raise
  handle_relation_message-Good (Event.relation event) message =
      Triple-bind (λ _. I) (in_transaction-Keeps _)
        λ lsn.
          Triple-bind (λ _. I) (survives.ask _ _)
            λ apply.
              Triple-bind (λ _. I) (Triple-gets _ λ s h. h)
                λ existing. Triple-if apply (compare_schema-Good _ _ existing) (silent _ _ _)
  handle_relation_message-Good event message = raises _ _

  row_result-Good :
      (name : Text) (rel_id : ℕ) (event : Event X) → Good event (row_result env name rel_id event)
  unfolding row_result
  row_result-Good name rel_id event =
      Triple-bind (λ _. I) (in_transaction-Keeps name)
        λ lsn.
          Triple-bind (λ _. I) (survives.ask _ _)
            λ apply. Triple-if apply (plain event) (silent event none none)

  pub handle_insert_message-Good :
      (event : Event X) (message : InsertBody)
      → Good event (handle_insert_message env event message)
  unfolding handle_insert_message raise
  handle_insert_message-Good (Event.insert event) message = row_result-Good _ _ _
  handle_insert_message-Good event message = raises _ _

  pub handle_update_message-Good :
      (event : Event X) (message : UpdateBody)
      → Good event (handle_update_message env event message)
  unfolding handle_update_message raise
  handle_update_message-Good (Event.update event) message = row_result-Good _ _ _
  handle_update_message-Good event message = raises _ _

  pub handle_delete_message-Good :
      (event : Event X) (message : DeleteBody)
      → Good event (handle_delete_message env event message)
  unfolding handle_delete_message raise
  handle_delete_message-Good (Event.delete event) message = row_result-Good _ _ _
  handle_delete_message-Good event message = raises _ _

  wanted_tables-Keeps : (lsn : ℕ) (ids : List ℕ) → Keeps I (wanted_tables env lsn ids)
  unfolding wanted_tables
  wanted_tables-Keeps lsn [] = Triple-pure _ λ s h. h
  wanted_tables-Keeps lsn (id ∷ ids) =
      Triple-bind (λ _. I) (survives.ask id lsn)
        λ apply. Triple-bind (λ _. I) (wanted_tables-Keeps lsn ids) λ wanted. Triple-pure _ λ s h. h

  pub handle_truncate_message-Good :
      (event : Event X) (message : TruncateBody)
      → Good event (handle_truncate_message env event message)
  unfolding handle_truncate_message truncate_result raise
  handle_truncate_message-Good (Event.truncate event) message =
      Triple-bind (λ _. I) (in_transaction-Keeps _)
        λ lsn.
          Triple-bind (λ _. I) (wanted_tables-Keeps lsn _)
            λ ids.
              Triple-pure _
                λ s h. (h, (λ lsn e. cc), λ e is. inr (event, ids, refl, some-injective is))
  handle_truncate_message-Good event message = raises _ _
