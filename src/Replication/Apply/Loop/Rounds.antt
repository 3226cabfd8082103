-- ===== src/Replication/Apply/Loop/Rounds.antt =====
-- etl/src/replication/apply.rs: lemmas on one input of the apply loop.
use pg_replicate.Base.{
  ◌≡◌, Option, none, ◌++◌, append-nil, ℕ, refl, sym, subst, Bool, true, false, some, List, [], ◌∷◌,
  Result, ok, err, map_err,
}
use pg_replicate.Base.Triple.{
  After, Triple, Keeps, Triple-pure, Triple-raise, Triple-gets, Triple-bind, Triple-mono,
  Triple-some, Triple-given,
}
use pg_replicate.Conversions.Protocol.{LogicalReplicationMessage}
use pg_replicate.Conversions.Event.{Event}
use pg_replicate.Replication.Status.Keep.{send_status_update-keeps}
use pg_replicate.Replication.Apply.Interface.{ApplyLoopError, Surroundings}
use pg_replicate.Replication.Apply.State.{
  HandleMessageResult, EndBatch, exclusive, inclusive, Loop, on_state, on_world, report,
}
use pg_replicate.Replication.Apply.Messages.Keep.{IsHonest, ComesFrom}
use pg_replicate.Replication.Apply.Messages.Handled.{handle_logical_replication_message-Handled}
use pg_replicate.Replication.Apply.Loop.{
  ReplicationMessage, x_log_data, primary_keep_alive, other, BatchConfig, Input, shutdown, refresh,
  received, handle_replication_message, handle_replication_message_batch, sync_if_idle,
  housekeeping, round,
}
use pg_replicate.Replication.Apply.Loop.Delivery.{
  At, Own, IsSafe, Delivers, accepted, IsFlushed-write, Inv, Sound, Failed, push_result-Inv,
}
use pg_replicate.Replication.Apply.Loop.Batch.{
  Triple-on_world, Survives-Inv, Failed-Inv, try_send_batch-Sound,
}

-- What one input adds to the events: nothing, or one that comes from its message.
pub data Carries {W X : Type 0} (env : Surroundings W X) : Input → List (Event X) → Type 0 where
  nothing : (input : Input) → Carries env input []
  carried :
      (wal_start wal_end : ℕ) (message : LogicalReplicationMessage) (e : Event X)
      → ComesFrom env message e
      → Carries env (received (ok (x_log_data wal_start wal_end message))) (e ∷ [])

-- What a list of inputs adds, in their order.
pub data Selected {W X : Type 0} (env : Surroundings W X)
    : List Input → List (Event X) → Type 0 where
  stopped : (inputs : List Input) → Selected env inputs []
  then_more :
      (input : Input) (es : List (Event X)) (inputs : List Input) (fs : List (Event X))
      → Carries env input es
      → Selected env inputs fs
      → Selected env (input ∷ inputs) (es ++ fs)

some-ne : {A : Type 0} {a : A} → none ≡ some a → ⊥
some-ne e = cc

module _ {W X : Type 0} (env : Surroundings W X) (start_lsn : ℕ) (log : W → List (Event X))
    (J : W → Type 0) (total : List (Event X)) (delivers : Delivers env start_lsn log J) where
  After-stay :
      {A E : Type 0} (R : Loop W X → Type 0) (r : Result E A) (f : E → ApplyLoopError)
      (s : Loop W X)
      → R s
      → After (λ _. R) R (map_err f r, s)
  After-stay R (ok a) f s h = h
  After-stay R (err e) f s h = h

  report-Inv :
      (done : List (Event X)) (force : Bool)
      → Keeps (Inv start_lsn log J total done) (report env.link force)
  unfolding report
  report-Inv done force = record {
    run = λ s (at, (flushed, pending)). After-stay (Inv start_lsn log J total done) _ _ _ (
      send_status_update-keeps env.link (delivers.timed done) _ _ _ force s.stream s.world
          (delivers.stamped done)
          (subst
            (λ apply.
              (at : ℕ)
              → Keeps (At start_lsn log J done) (
                  env.link.standby_status_update s.state.next_status_update.write_lsn
                    s.state.next_status_update.flush_lsn apply at))
            (sym flushed.1) (λ stamp. delivers.reported done _ _ stamp flushed.0))
          at,
      (flushed, pending),
    );
  }

  -- The event of a result comes from the message.
  abbrev Made : ReplicationMessage → HandleMessageResult X → Type 0
  Made message result =
      (e : Event X) → result.event ≡ some e → Carries env (received (ok message)) (e ∷ [])

  accepted_fields :
      (input : Input) (event : Option (Event X)) (end_lsn : Option ℕ) (end_batch : Option EndBatch)
      (skip : Option ℕ)
      → ((e : Event X) → event ≡ some e → Carries env input (e ∷ []))
      → let result : HandleMessageResult X = record {
        event = event;
        end_lsn = end_lsn;
        end_batch = end_batch;
        skip_table = skip;
      } in
        Carries env input (accepted result)
  accepted_fields input none end_lsn end_batch skip made = Carries.nothing input
  accepted_fields input (some e) end_lsn none skip made = made e refl
  accepted_fields input (some e) end_lsn (some inclusive) skip made = made e refl
  accepted_fields input (some e) end_lsn (some exclusive) skip made = Carries.nothing input

  handle_replication_message-Inv :
      (done : List (Event X)) (message : ReplicationMessage)
      → Triple
          (Inv start_lsn log J total done)
          (handle_replication_message env message)
          (λ result s. Inv start_lsn log J total done s × (IsHonest result × Made message result))
          (Inv start_lsn log J total done)
  unfolding handle_replication_message on_state
  handle_replication_message-Inv done (x_log_data wal_start wal_end message) =
      Triple-bind (λ _. Inv start_lsn log J total done)
        (record {
          run = λ s (at, (flushed, pending)). (
            at,
            (
              IsFlushed-write start_lsn done wal_end _
                  (IsFlushed-write start_lsn done wal_start s.state.next_status_update flushed),
              pending,
            ),
          );
        })
        λ _.
          Triple-mono
            (λ result s (h, honest, made).
              (h, (honest, λ e is. Carries.carried wal_start wal_end message e (made e is))))
            (λ s h. h)
            (handle_logical_replication_message-Handled env
              (Survives-Inv env start_lsn log J total delivers done) message)
  handle_replication_message-Inv done (primary_keep_alive wal_end reply) =
      Triple-bind (λ _. Inv start_lsn log J total done)
        (record {
          run = λ s (at, (flushed, pending)). (
            at,
            (IsFlushed-write start_lsn done wal_end s.state.next_status_update flushed, pending),
          );
        })
        λ _.
          Triple-bind (λ _. Inv start_lsn log J total done) (report-Inv done reply)
            λ _. Triple-pure _ λ s h. (h, ((λ lsn e. cc), λ e is. absurd (some-ne is)))
  handle_replication_message-Inv done other =
      Triple-pure _ λ s h. (h, ((λ lsn e. cc), λ e is. absurd (some-ne is)))

  housekeeping-Sound :
      (done : List (Event X))
      → Triple
          (Inv start_lsn log J total done)
          (housekeeping env)
          (λ _. Sound start_lsn log J total)
          (Failed start_lsn log J total)
  unfolding housekeeping sync_if_idle
  housekeeping-Sound done =
      Triple-bind (λ _. Inv start_lsn log J total done)
        (Triple-mono (λ _ s h. h) (Failed-Inv env start_lsn log J total delivers done)
          (report-Inv done false))
        λ _.
          Triple-bind (λ _. Inv start_lsn log J total done) (Triple-gets _ λ s h. h)
            sync_if_idle-Sound
    where
      sync-Inv :
          (flush_lsn : ℕ)
          → Triple
              (λ s. Inv start_lsn log J total done s × IsSafe start_lsn done flush_lsn)
              (on_world (env.hook.process_syncing_tables flush_lsn true))
              (λ _. Inv start_lsn log J total done)
              (Failed start_lsn log J total)
      sync-Inv flush_lsn = record {
        run = λ s (h, safe).
            (Triple-mono (λ _ s h. h) (Failed-Inv env start_lsn log J total delivers done)
                (Triple-on_world (Own start_lsn log J total done)
                  (delivers.synced done flush_lsn safe))).run
              s h;
      }

      sync_if_idle-Sound :
          (b : Bool)
          → Triple
              (Inv start_lsn log J total done)
              (sync_if_idle env b)
              (λ _. Sound start_lsn log J total)
              (Failed start_lsn log J total)
      sync_if_idle-Sound true = Triple-pure _ λ s h. (done, h)
      sync_if_idle-Sound false =
          Triple-bind
            (λ flush_lsn s. Inv start_lsn log J total done s × IsSafe start_lsn done flush_lsn)
            (Triple-gets _ λ s h. (h, h.1.0.0))
            λ flush_lsn.
              Triple-bind (λ _. Inv start_lsn log J total done) (sync-Inv flush_lsn)
                λ go_on. Triple-pure _ λ s h. (done, h)

  -- After an input the events so far are those before it, and what it carries.
  abbrev pub Moved : Input → Loop W X → Type 0
  Moved input s =
      (es : List (Event X)) × (Carries env input es × Sound start_lsn log J (total ++ es) s)

  abbrev pub Stuck : Input → Loop W X → Type 0
  Stuck input s =
      (es : List (Event X)) × (Carries env input es × Failed start_lsn log J (total ++ es) s)

  pub Moved-Sound : (input : Input) (s : Loop W X) → Sound start_lsn log J total s → Moved input s
  Moved-Sound input s h = (
    [],
    (Carries.nothing input, subst (λ es. Sound start_lsn log J es s) (sym (append-nil total)) h),
  )

  pub Stuck-Failed : (input : Input) (s : Loop W X) → Failed start_lsn log J total s → Stuck input s
  Stuck-Failed input s h = (
    [],
    (Carries.nothing input, subst (λ es. Failed start_lsn log J es s) (sym (append-nil total)) h),
  )

  batch-Moved :
      (done : List (Event X)) (batch : BatchConfig) (message : ReplicationMessage)
      → Triple
          (Inv start_lsn log J total done)
          (handle_replication_message_batch env batch message)
          (λ _. Moved (received (ok message)))
          (Stuck (received (ok message)))
  unfolding handle_replication_message_batch on_state
  batch-Moved done batch message =
      Triple-bind _
        (Triple-mono (λ _ s h. h)
          (λ s h. Stuck-Failed _ s (Failed-Inv env start_lsn log J total delivers done s h))
          (handle_replication_message-Inv done message))
        λ result.
          Triple-bind
            (λ _ s.
              Inv start_lsn log J (total ++ accepted result) done s
              × Carries env (received (ok message)) (accepted result))
            (record {
              run = λ s (h, (honest, made)). (
                push_result-Inv start_lsn log J total done result s honest h,
                accepted_fields _ result.event result.end_lsn result.end_batch result.skip_table
                    made,
              );
            })
            λ _. Triple-given λ carries.
              Triple-mono (λ _ s h. (accepted result, (carries, h)))
                (λ s h. (accepted result, (carries, h)))
                (try_send_batch-Sound env start_lsn log J (total ++ accepted result) delivers done
                  batch _ _)

  pub round-Moved :
      (batch : BatchConfig) (input : Input)
      → Triple
          (Sound start_lsn log J total)
          (round env batch input)
          (λ _. Moved input)
          (Stuck input)
  unfolding round
  round-Moved batch shutdown = Triple-pure _ (Moved-Sound shutdown)
  round-Moved batch refresh =
      Triple-mono (λ _. Moved-Sound refresh) (Stuck-Failed refresh) (Triple-some housekeeping-Sound)
  round-Moved batch (received (err e)) = Triple-some λ done.
      Triple-raise _
        λ s h. Stuck-Failed _ s (Failed-Inv env start_lsn log J total delivers done s h)
  round-Moved batch (received (ok message)) = Triple-some λ done. batch-Moved done batch message
