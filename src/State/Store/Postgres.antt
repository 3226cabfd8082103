-- ===== src/State/Store/Postgres.antt =====
-- etl/src/state/store/postgres.rs: the store that keeps the phases in the table
-- `etl.replication_state` of the source database, behind a cache. An lsn is stored as text, by the
-- printing and parsing of `PgLsn`, which are parameters.
mod Rows
pub mod Reload
use pg_replicate.Base.{
  ℕ, ◌≡◌, Option, none, some, Bool, true, false, ◌&&◌, ◌||◌, List, [], ◌∷◌, ◌++◌, Result, ok, err,
  Exec, length, Text, ◌==◌, if◌then◌else◌, ◌>>=◌, ◌>>◌, lift, modify, and_then, ok_or, map_err,
  continue,
}
use pg_replicate.Base.Assoc.{Map}
use pg_replicate.Base.Assoc
use pg_replicate.State.Phase.{TableReplicationPhase}
use pg_replicate.State.Phase
use pg_replicate.State.Store.{
  StateStoreError, database, invalid_confirmed_flush_lsn, in_memory_phase, missing_sync_done_lsn,
}

pub data TableState : Type 0 where
  init data_sync finished_copy sync_done ready skipped : TableState

-- `PgLsn::to_string` and `str::parse::<PgLsn>`.
pub record LsnText : Type 0 where
  pub to_string : ℕ → Text
  pub parse : Text → Option ℕ

pub record ReplicationStateRow : Type 0 where
  pub pipeline_id : ℕ
  pub table_id : ℕ
  pub state : TableState
  pub sync_done_lsn : Option Text

-- The store with the database table behind it. `faults` says which of the next calls of the
-- database (connect, then a query) fail; a call beyond its end succeeds.
pub record PostgresStateStore : Type 0 where
  pub pipeline_id : ℕ
  pub table_states : Map TableReplicationPhase
  pub rows : List ReplicationStateRow
  pub faults : List Bool

unfoldable pub new : ℕ → List ReplicationStateRow → List Bool → PostgresStateStore
new pipeline_id rows faults = record {
  pipeline_id = pipeline_id;
  table_states = [];
  rows = rows;
  faults = faults;
}

-- One call of the database.
pub call_from : List Bool → Exec PostgresStateStore StateStoreError (Unit {0})
call_from [] s = (ok tt, s)
call_from (true ∷ rest) s = (err database, record s { faults = rest })
call_from (false ∷ rest) s = (ok tt, record s { faults = rest })

pub call : Exec PostgresStateStore StateStoreError (Unit {0})
unfolding call_from
call s = call_from s.faults s

-- `where pipeline_id = $1`
unfoldable pub rows_of : ℕ → List ReplicationStateRow → List ReplicationStateRow
rows_of pipeline [] = []
rows_of pipeline (row ∷ rows) =
    let rest = rows_of pipeline rows in if row.pipeline_id == pipeline then row ∷ rest else rest

pub conflicts : ReplicationStateRow → ReplicationStateRow → Bool
conflicts row new_row =
    (row.pipeline_id == new_row.pipeline_id) && (row.table_id == new_row.table_id)

pub has_conflict : ReplicationStateRow → List ReplicationStateRow → Bool
has_conflict new_row [] = false
has_conflict new_row (row ∷ rows) = conflicts row new_row || has_conflict new_row rows

pub overwrite : ReplicationStateRow → List ReplicationStateRow → List ReplicationStateRow
overwrite new_row [] = []
overwrite new_row (row ∷ rows) =
    let rest = overwrite new_row rows in
    if conflicts row new_row
    then record row { state = new_row.state; sync_done_lsn = new_row.sync_done_lsn } ∷ rest
    else row ∷ rest

-- `insert ... on conflict (pipeline_id, table_id) do update set state = $3, sync_done_lsn = $4`
pub upsert : ReplicationStateRow → List ReplicationStateRow → List ReplicationStateRow
upsert new_row rows =
    if has_conflict new_row rows then overwrite new_row rows else rows ++ new_row ∷ []

module _ (lsns : LsnText) where
  open lsns use {to_string, parse}

  -- `TryFrom<TableReplicationPhase> for (TableState, Option<String>)`
  unfoldable pub try_from :
      TableReplicationPhase → Result StateStoreError (TableState × Option Text)
  try_from Phase.TableReplicationPhase.init = ok (TableState.init, none)
  try_from Phase.TableReplicationPhase.data_sync = ok (TableState.data_sync, none)
  try_from Phase.TableReplicationPhase.finished_copy = ok (TableState.finished_copy, none)
  try_from (Phase.TableReplicationPhase.sync_done lsn) =
      ok (TableState.sync_done, some (to_string lsn))
  try_from Phase.TableReplicationPhase.ready = ok (TableState.ready, none)
  try_from Phase.TableReplicationPhase.skipped = ok (TableState.skipped, none)
  try_from Phase.TableReplicationPhase.sync_wait = err in_memory_phase
  try_from (Phase.TableReplicationPhase.catchup lsn) = err in_memory_phase

  sync_done_phase : Option Text → Result StateStoreError TableReplicationPhase
  sync_done_phase none = err missing_sync_done_lsn
  sync_done_phase (some lsn_str) =
      and_then (ok_or (parse lsn_str) (invalid_confirmed_flush_lsn lsn_str))
        λ lsn. ok (TableReplicationPhase.sync_done lsn)

  unfoldable pub replication_phase_from_state :
      TableState → Option Text → Result StateStoreError TableReplicationPhase
  unfolding sync_done_phase
  replication_phase_from_state TableState.init lsn = ok TableReplicationPhase.init
  replication_phase_from_state TableState.data_sync lsn = ok TableReplicationPhase.data_sync
  replication_phase_from_state TableState.finished_copy lsn = ok TableReplicationPhase.finished_copy
  replication_phase_from_state TableState.sync_done lsn = sync_done_phase lsn
  replication_phase_from_state TableState.ready lsn = ok TableReplicationPhase.ready
  replication_phase_from_state TableState.skipped lsn = ok TableReplicationPhase.skipped

  unfoldable pub get_table_replication_state :
      ℕ → Exec PostgresStateStore StateStoreError (Option TableReplicationPhase)
  get_table_replication_state table_id s = (ok (Assoc.get s.table_states table_id), s)

  unfoldable pub get_table_replication_states :
      Exec PostgresStateStore StateStoreError (Map TableReplicationPhase)
  get_table_replication_states s = (ok s.table_states, s)

  -- The loop of `load_table_replication_states` over the rows.
  unfoldable pub load_rows :
      Map TableReplicationPhase
      → List ReplicationStateRow
      → Result StateStoreError (Map TableReplicationPhase)
  load_rows table_states [] = ok table_states
  load_rows table_states (row ∷ rows) =
      and_then (replication_phase_from_state row.state row.sync_done_lsn)
        λ phase. load_rows (Assoc.insert table_states row.table_id phase) rows

  unfoldable pub load_table_replication_states : Exec PostgresStateStore StateStoreError ℕ
  unfolding call rows_of load_rows
  load_table_replication_states = do
    call
    call
    table_states ← λ s. (load_rows [] (rows_of s.pipeline_id s.rows), s)
    modify (λ s. record s { table_states = table_states })
    λ s. (ok (length table_states), s)

  pub update_replication_state :
      ℕ → TableState → Option Text → Exec PostgresStateStore StateStoreError (Unit {0})
  unfolding call upsert
  update_replication_state table_id state sync_done_lsn = do
    call
    call
    modify (λ s. record s {
      rows =
          upsert
            (record {
              pipeline_id = s.pipeline_id;
              table_id = table_id;
              state = state;
              sync_done_lsn = sync_done_lsn;
            })
            s.rows;
    })

  unfoldable pub update_table_replication_state :
      ℕ → TableReplicationPhase → Exec PostgresStateStore StateStoreError (Unit {0})
  unfolding update_replication_state try_from
  update_table_replication_state table_id state = do
    stored ← lift (try_from state)
    update_replication_state table_id stored.0 stored.1
    modify (λ s. record s { table_states = Assoc.insert s.table_states table_id state })
