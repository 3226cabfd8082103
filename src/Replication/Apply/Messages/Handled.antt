-- ===== src/Replication/Apply/Messages/Handled.antt =====
-- etl/src/replication/apply.rs: lemmas on the dispatch of a message.
use pg_replicate.Base.{◌≡◌, map_err, refl, none, some, Result, ok, err, Exec, raise, arith}
use pg_replicate.Base.Triple.{After-mono, After, Triple, Triple-bind}
use pg_replicate.Schema.Cache.{SchemaCache}
use pg_replicate.Conversions.Protocol.{CommitBody, LogicalReplicationMessage}
use pg_replicate.Conversions.Event.{EventConversionError, Event, convert_message_to_event}
use pg_replicate.Replication.Apply.Interface.{ApplyLoopError, Surroundings}
use pg_replicate.Replication.Apply.State.{HandleMessageResult, Loop}
use pg_replicate.Replication.Apply.Messages.{
  handle_commit_message, dispatch, handle_logical_replication_message, convert,
}
use pg_replicate.Replication.Apply.Messages.Keep.{
  Survives, IsHonest, ComesFrom, Good, commit_result-Good, handle_begin_message-Good,
  handle_delete_message-Good, handle_insert_message-Good, handle_relation_message-Good,
  handle_truncate_message-Good, handle_update_message-Good, silent,
}

module _ {W X : Type 0} (env : Surroundings W X) {I : Loop W X → Type 0}
    (survives : Survives env I) where
  -- The event that is converted, and `I`.
  Converted : LogicalReplicationMessage → Event X → Loop W X → Type 0
  Converted message event s =
      I s × ((cache : SchemaCache) × (convert_message_to_event env.ext cache message ≡ ok event))

  convert-Converted :
      (message : LogicalReplicationMessage) → Triple I (convert env message) (Converted message) I
  unfolding convert Converted
  convert-Converted message = record {
    run = λ s h.
        converted s h (convert_message_to_event env.ext (env.schema_cache s.world) message) refl;
  }
    where
      converted :
          (s : Loop W X)
          → I s
          → (r : Result EventConversionError (Event X))
          → convert_message_to_event env.ext (env.schema_cache s.world) message ≡ r
          → After (Converted message) I (map_err ApplyLoopError.event_conversion r, s)
      converted s h (ok event) e = (h, (env.schema_cache s.world, e))
      converted s h (err x) e = h

  -- What `dispatch` makes of the event.
  abbrev pub Handled : LogicalReplicationMessage → HandleMessageResult X → Loop W X → Type 0
  Handled message result s =
      I s × IsHonest result × ((e : Event X) → result.event ≡ some e → ComesFrom env message e)

  after-Converted :
      (message : LogicalReplicationMessage) (event : Event X)
      {m : Exec (Loop W X) ApplyLoopError (HandleMessageResult X)}
      → Good env survives event m
      → Triple (Converted message event) m (Handled message) I
  unfolding Converted
  after-Converted message event {m = m} k = record {
    run = λ s (h, (cache, e)).
        After-mono (m s)
          (λ result s' (h', honest, of). (h', honest, λ x is. (cache, event, e, of x is)))
          (λ s' h'. h') (k.run s h);
  }

  commit-Handled :
      (message : CommitBody) (event : Event X)
      → Triple
          (Converted (LogicalReplicationMessage.commit message) event)
          (handle_commit_message env event message)
          (Handled (LogicalReplicationMessage.commit message))
          I
  unfolding Converted convert_message_to_event handle_commit_message raise
  commit-Handled message (Event.commit event) = record {
    run = λ s (h, (cache, e)).
        (after-Converted (LogicalReplicationMessage.commit message) _
            (commit_result-Good env survives event message (ground arith))).run
          s (h, (cache, e));
  }
  commit-Handled message event = record { run = λ s (h, c). h }

  dispatch-Handled :
      (message : LogicalReplicationMessage) (event : Event X)
      → Triple (Converted message event) (dispatch env message event) (Handled message) I
  unfolding dispatch
  dispatch-Handled (LogicalReplicationMessage.begin message) event =
      after-Converted _ event (handle_begin_message-Good env survives event message)
  dispatch-Handled (LogicalReplicationMessage.commit message) event = commit-Handled message event
  dispatch-Handled (LogicalReplicationMessage.relation message) event =
      after-Converted _ event (handle_relation_message-Good env survives event message)
  dispatch-Handled (LogicalReplicationMessage.insert message) event =
      after-Converted _ event (handle_insert_message-Good env survives event message)
  dispatch-Handled (LogicalReplicationMessage.update message) event =
      after-Converted _ event (handle_update_message-Good env survives event message)
  dispatch-Handled (LogicalReplicationMessage.delete message) event =
      after-Converted _ event (handle_delete_message-Good env survives event message)
  dispatch-Handled (LogicalReplicationMessage.truncate message) event =
      after-Converted _ event (handle_truncate_message-Good env survives event message)
  dispatch-Handled LogicalReplicationMessage.origin event =
      after-Converted _ event (silent env survives event none none)
  dispatch-Handled LogicalReplicationMessage.type event =
      after-Converted _ event (silent env survives event none none)
  dispatch-Handled LogicalReplicationMessage.other event =
      after-Converted _ event (silent env survives event none none)

  -- Every handler keeps `I`, whether it returns or fails, says honestly where a transaction ends, and
  -- passes on no event but that of its message.
  pub handle_logical_replication_message-Handled :
      (message : LogicalReplicationMessage)
      → Triple I (handle_logical_replication_message env message) (Handled message) I
  unfolding handle_logical_replication_message
  handle_logical_replication_message-Handled message =
      Triple-bind (Converted message) (convert-Converted message)
        λ event. dispatch-Handled message event
