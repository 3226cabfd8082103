-- ===== src/Tests/Stores.antt =====
-- The stores at concrete inputs.
use pg_replicate.Base.{ℕ, ◌≡◌, refl, Option, none, some, true, false, List, [], ◌∷◌, ok, Text}
use pg_replicate.Base.Assoc
use pg_replicate.State.Phase.{TableReplicationPhase}
use pg_replicate.State.Store.Postgres.{
  LsnText, PostgresStateStore, load_table_replication_states, update_table_replication_state,
  load_rows, rows_of, new,
}
use pg_replicate.State.Store.Postgres.Reload.{
  IsCoherent, run_updates, update-IsCoherent, restart_recovers,
}

-- An lsn as a text of one character.
abbrev parse : Text → Option ℕ
parse (l ∷ s) = some l
parse [] = none

abbrev lsns : LsnText
lsns = record { to_string = λ l. l ∷ []; parse = parse }

-- An empty table, and a database whose third call fails.
abbrev store : PostgresStateStore
store = new 1 [] (false ∷ false ∷ true ∷ [])

store-IsCoherent : IsCoherent lsns store
unfolding new load_rows rows_of
store-IsCoherent = ([], refl, λ t. refl)

update-IsCoherent_example :
    IsCoherent lsns
      (update_table_replication_state lsns 5 (TableReplicationPhase.sync_done 40) store).1
update-IsCoherent_example =
    update-IsCoherent lsns (λ l. refl) 5 (TableReplicationPhase.sync_done 40) store store-IsCoherent

abbrev updates : List (ℕ × TableReplicationPhase)
updates =
    (5, TableReplicationPhase.data_sync)
    ∷ (5, TableReplicationPhase.sync_done 40)
    ∷ (6, TableReplicationPhase.sync_wait)
    ∷ (5, TableReplicationPhase.ready)
    ∷ []

restart_recovers_example :
    let old = run_updates lsns updates store in
    let restarted = load_table_replication_states lsns (new old.pipeline_id old.rows []) in
    ((n : ℕ) × (restarted.0 ≡ ok n))
    × ((t : ℕ) → Assoc.get restarted.1.table_states t ≡ Assoc.get old.table_states t)
restart_recovers_example = restart_recovers lsns (λ l. refl) updates store store-IsCoherent
