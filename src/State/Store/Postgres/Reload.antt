-- ===== src/State/Store/Postgres/Reload.antt =====
-- etl/src/state/store/postgres.rs: the rows of the table, the cache, and a restart.
use pg_replicate.Base.{
  ℕ, ◌≡◌, refl, Option, some, Bool, true, false, List, [], ◌∷◌, ok, err, Text, arith, ◌⊎◌, inl, inr,
  ◌∙◌, length, ◌>>=◌,
}
use pg_replicate.Base.Assoc.{Map, get-insert}
use pg_replicate.Base.Assoc
use pg_replicate.State.Phase.{TableReplicationPhase}
use pg_replicate.State.Store.{StateStoreError, database, in_memory_phase}
use pg_replicate.State.Store.Postgres.Rows.{upsert-loads}
use pg_replicate.State.Store.Postgres.{
  LsnText, ReplicationStateRow, PostgresStateStore, TableState, new, rows_of, upsert, try_from,
  replication_phase_from_state, load_rows, load_table_replication_states,
  update_table_replication_state,
}

module _ (lsns : LsnText) where
  -- A decoded row keeps its phase.
  pub decode-encode :
      ((l : ℕ) → lsns.parse (lsns.to_string l) ≡ some l)
      → (p : TableReplicationPhase) (state : TableState) (lsn : Option Text)
      → try_from lsns p ≡ ok (state, lsn)
      → replication_phase_from_state lsns state lsn ≡ ok p
  unfolding try_from replication_phase_from_state
  decode-encode law TableReplicationPhase.init state lsn h = ground arith
  decode-encode law TableReplicationPhase.data_sync state lsn h = ground arith
  decode-encode law TableReplicationPhase.finished_copy state lsn h = ground arith
  decode-encode law TableReplicationPhase.sync_wait state lsn h = cc
  decode-encode law (TableReplicationPhase.catchup l) state lsn h = cc
  decode-encode law (TableReplicationPhase.sync_done l) state lsn h = ground (arith, law l)
  decode-encode law TableReplicationPhase.ready state lsn h = ground arith
  decode-encode law TableReplicationPhase.skipped state lsn h = ground arith

-- Loading the rows of the pipeline succeeds, with the phases that are in the cache.
abbrev pub IsCoherent : LsnText → PostgresStateStore → Type 0
IsCoherent lsns s =
    (m : Map TableReplicationPhase) × (load_rows lsns [] (rows_of s.pipeline_id s.rows) ≡ ok m)
    × ((t : ℕ) → Assoc.get m t ≡ Assoc.get s.table_states t)

module _ (lsns : LsnText) where
  abbrev pub row_for : PostgresStateStore → ℕ → TableState → Option Text → ReplicationStateRow
  row_for s t state lsn = record {
    pipeline_id = s.pipeline_id;
    table_id = t;
    state = state;
    sync_done_lsn = lsn;
  }

  -- The two ways in which an update ends: nothing but the schedule of faults moved, or the row and
  -- the cache are both written.
  abbrev pub Outcome : ℕ → TableReplicationPhase → PostgresStateStore → Type 0
  Outcome t p s =
      ((e : StateStoreError) × (fs : List Bool) × (update_table_replication_state lsns t p s
          ≡ (err e, record s { faults = fs })))
      ⊎ ((state : TableState) × (lsn : Option Text) × (fs : List Bool) × (try_from lsns p
            ≡ ok (state, lsn))
          × (update_table_replication_state lsns t p s ≡ (
            ok tt,
            record s {
              faults = fs;
              rows = upsert (row_for s t state lsn) s.rows;
              table_states = Assoc.insert s.table_states t p;
            },
          )))

  -- The same store with other faults.
  abbrev at_faults : PostgresStateStore → List Bool → PostgresStateStore
  at_faults s fs = record s { faults = fs }

  write-Outcome :
      (t : ℕ) (p : TableReplicationPhase) (s : PostgresStateStore) (state : TableState)
      (lsn : Option Text) (fs : List Bool)
      → try_from lsns p ≡ ok (state, lsn)
      → Outcome t p (at_faults s fs)
  unfolding update_table_replication_state ◌>>=◌
  write-Outcome t p s state lsn [] e =
      inr (state, lsn, [], e, rw (e, update_table_replication_state))
  write-Outcome t p s state lsn (true ∷ fs) e =
      inl (database, fs, rw (e, update_table_replication_state))
  write-Outcome t p s state lsn (false ∷ []) e =
      inr (state, lsn, [], e, rw (e, update_table_replication_state))
  write-Outcome t p s state lsn (false ∷ true ∷ fs) e =
      inl (database, fs, rw (e, update_table_replication_state))
  write-Outcome t p s state lsn (false ∷ false ∷ fs) e =
      inr (state, lsn, fs, e, rw (e, update_table_replication_state))

  pub Outcome-total : (t : ℕ) (p : TableReplicationPhase) (s : PostgresStateStore) → Outcome t p s
  unfolding update_table_replication_state ◌>>=◌
  Outcome-total t TableReplicationPhase.sync_wait s = inl (in_memory_phase, s.faults, refl)
  Outcome-total t (TableReplicationPhase.catchup l) s = inl (in_memory_phase, s.faults, refl)
  Outcome-total t TableReplicationPhase.init s = write-Outcome t _ s _ _ s.faults refl
  Outcome-total t TableReplicationPhase.data_sync s = write-Outcome t _ s _ _ s.faults refl
  Outcome-total t TableReplicationPhase.finished_copy s = write-Outcome t _ s _ _ s.faults refl
  Outcome-total t (TableReplicationPhase.sync_done l) s = write-Outcome t _ s _ _ s.faults refl
  Outcome-total t TableReplicationPhase.ready s = write-Outcome t _ s _ _ s.faults refl
  Outcome-total t TableReplicationPhase.skipped s = write-Outcome t _ s _ _ s.faults refl

  -- Updates one after the other, whatever became of each.
  pub run_updates : List (ℕ × TableReplicationPhase) → PostgresStateStore → PostgresStateStore
  run_updates [] s = s
  run_updates ((t, p) ∷ us) s = run_updates us (update_table_replication_state lsns t p s).1

module _ (lsns : LsnText) (law : (l : ℕ) → lsns.parse (lsns.to_string l) ≡ some l) where
  -- Whether it succeeds or fails, an update keeps the cache equal to what the rows load to.
  pub update-IsCoherent :
      (t : ℕ) (p : TableReplicationPhase) (s : PostgresStateStore)
      → IsCoherent lsns s
      → IsCoherent lsns (update_table_replication_state lsns t p s).1
  update-IsCoherent t p s (m, loaded, same) = elim (Outcome-total lsns t p s) [
    | inl (x, fs, e) ↦ rw e (m, loaded, same)
    | inr (state, lsn, fs, stored, e) ↦
        let (n, loaded', at) =
          upsert-loads lsns (row_for lsns s t state lsn) s.rows m p
            (decode-encode lsns law p state lsn stored) loaded in
        rw e (n, loaded', λ k. at k ∙ ground (arith, same k, get-insert s.table_states t k p))
  ]

  run_updates-IsCoherent :
      (us : List (ℕ × TableReplicationPhase)) (s : PostgresStateStore)
      → IsCoherent lsns s
      → IsCoherent lsns (run_updates lsns us s)
  unfolding run_updates
  run_updates-IsCoherent [] s c = c
  run_updates-IsCoherent ((t, p) ∷ us) s c = run_updates-IsCoherent us _ (update-IsCoherent t p s c)

  -- After any updates of a store that started coherent, failed ones included, a new process that
  -- loads the table with no fault of the database finds for every table the phase that the old
  -- process had in its cache.
  pub restart_recovers :
      (us : List (ℕ × TableReplicationPhase)) (s : PostgresStateStore)
      → IsCoherent lsns s
      → let old = run_updates lsns us s in
        let restarted = load_table_replication_states lsns (new old.pipeline_id old.rows []) in
        ((n : ℕ) × (restarted.0 ≡ ok n))
        × ((t : ℕ) → Assoc.get restarted.1.table_states t ≡ Assoc.get old.table_states t)
  unfolding load_table_replication_states new ◌>>=◌
  restart_recovers us s c =
      let (m, loaded, same) = run_updates-IsCoherent us s c in rw loaded ((length m, refl), same)
