-- ===== src/State/Store/Postgres/Rows.antt =====
-- etl/src/state/store/postgres.rs: lemmas on the upsert of one row.
use pg_replicate.Base.{
  ℕ, ◌≡◌, refl, some, true, false, List, [], ◌∷◌, ◌++◌, Result, ok, err, ◌==◌, if◌then◌else◌, arith,
  and_then, ◌⊎◌, inl, inr, Bool-cases, All, ==_iff, ◌∙◌,
}
use pg_replicate.Base.Assoc.{Map, get-insert}
use pg_replicate.Base.Assoc
use pg_replicate.State.Phase.{TableReplicationPhase}
use pg_replicate.State.Store.{StateStoreError}
use pg_replicate.State.Store.Postgres.{
  LsnText, ReplicationStateRow, rows_of, conflicts, has_conflict, overwrite, upsert,
  replication_phase_from_state, load_rows,
}

module _ (lsns : LsnText) where
  load_rows-cons :
      (row : ReplicationStateRow) (rows : List ReplicationStateRow)
      (m m' : Map TableReplicationPhase)
      → load_rows lsns m (row ∷ rows) ≡ ok m'
      → (q : TableReplicationPhase) × (replication_phase_from_state lsns row.state row.sync_done_lsn
          ≡ ok q)
        × (load_rows lsns (Assoc.insert m row.table_id q) rows ≡ ok m')
  unfolding load_rows
  load_rows-cons row rows m m' h =
      go (replication_phase_from_state lsns row.state row.sync_done_lsn) refl h
    where
      go :
          (r : Result StateStoreError TableReplicationPhase)
          → replication_phase_from_state lsns row.state row.sync_done_lsn ≡ r
          → and_then r (λ q. load_rows lsns (Assoc.insert m row.table_id q) rows) ≡ ok m'
          → (q : TableReplicationPhase) × (replication_phase_from_state lsns row.state
                row.sync_done_lsn
              ≡ ok q)
            × (load_rows lsns (Assoc.insert m row.table_id q) rows ≡ ok m')
      go (ok q) e k = (q, e, k)
      go (err x) e k = cc

  load_rows-ok :
      (row : ReplicationStateRow) (rows : List ReplicationStateRow) (m : Map TableReplicationPhase)
      (q : TableReplicationPhase)
      → replication_phase_from_state lsns row.state row.sync_done_lsn ≡ ok q
      → load_rows lsns m (row ∷ rows) ≡ load_rows lsns (Assoc.insert m row.table_id q) rows
  unfolding load_rows
  load_rows-ok row rows m q e = rw e

  module _ (new_row : ReplicationStateRow) (p : TableReplicationPhase)
      (decoded : replication_phase_from_state lsns new_row.state new_row.sync_done_lsn ≡ ok p) where
    abbrev AgreesBut : Map TableReplicationPhase → Map TableReplicationPhase → Type 0
    AgreesBut m n =
        (t : ℕ) → Assoc.get n t ≡ (if new_row.table_id == t then some p else Assoc.get m t)

    load-append :
        (rows : List ReplicationStateRow) (m m' : Map TableReplicationPhase)
        → load_rows lsns m rows ≡ ok m'
        → load_rows lsns m (rows ++ new_row ∷ []) ≡ ok (Assoc.insert m' new_row.table_id p)
    load-append [] m m' h = load_rows-ok new_row [] m p decoded ∙ (unfold load_rows in ground arith)
    load-append (row ∷ rows) m m' h =
        let (q, e, rest) = load_rows-cons row rows m m' h in
        load_rows-ok row _ m q e ∙ load-append rows (Assoc.insert m row.table_id q) m' rest

    -- Every row that conflicts is overwritten, and the map that is loaded differs at its key only.
    load-overwrite :
        (rows : List ReplicationStateRow) (m n m' : Map TableReplicationPhase)
        → All (λ row. (row.pipeline_id == new_row.pipeline_id) ≡ true) rows
        → load_rows lsns m rows ≡ ok m'
        → ((t : ℕ) → (new_row.table_id == t) ≡ false → Assoc.get n t ≡ Assoc.get m t)
        → (Assoc.get n new_row.table_id ≡ some p) ⊎ (has_conflict new_row rows ≡ true)
        → (n' : Map TableReplicationPhase) × (load_rows lsns n (overwrite new_row rows) ≡ ok n')
          × AgreesBut m' n'
    unfolding overwrite conflicts has_conflict
    load-overwrite [] m n m' of h same (inl e) = (
      n,
      unfold load_rows in refl,
      λ t. unfold load_rows in ground (arith, same t, e, ==_iff new_row.table_id t),
    )
    load-overwrite [] m n m' of h same (inr e) = cc
    load-overwrite (row ∷ rows) m n m' of h same hit =
        let (q, e, rest) = load_rows-cons row rows m m' h in
        elim (Bool-cases (row.table_id == new_row.table_id)) [
          | inl key ↦
              let hit_row : conflicts row new_row ≡ true = ground (arith, of.0) in
              let (n', loaded, agrees) =
                load-overwrite rows (Assoc.insert m row.table_id q) (Assoc.insert n row.table_id p)
                  m' of.1 rest
                  (λ t k.
                    ground
                      (arith, get-insert m row.table_id t q, get-insert n row.table_id t p, same t))
                  (inl (ground (arith, get-insert n row.table_id new_row.table_id p))) in
              (n', rw hit_row (load_rows-ok _ _ n p decoded ∙ loaded), agrees)
          | inr other ↦
              let miss : conflicts row new_row ≡ false = ground arith in
              let (n', loaded, agrees) =
                load-overwrite rows (Assoc.insert m row.table_id q) (Assoc.insert n row.table_id q)
                  m' of.1 rest
                  (λ t k.
                    ground
                      (arith, get-insert m row.table_id t q, get-insert n row.table_id t q, same t))
                  (ground (arith, hit, get-insert n row.table_id new_row.table_id q)) in
              (n', rw miss (load_rows-ok _ _ n q e ∙ loaded), agrees)
        ]

-- The rows of the new row's pipeline, before and after the upsert.
module _ (new_row : ReplicationStateRow) where
  rows_of-append :
      (rows : List ReplicationStateRow)
      → rows_of new_row.pipeline_id (rows ++ new_row ∷ [])
        ≡ rows_of new_row.pipeline_id rows ++ new_row ∷ []
  unfolding rows_of
  rows_of-append [] = ground arith
  rows_of-append (row ∷ rows) = ground (arith, rows_of-append rows)

  rows_of-overwrite :
      (rows : List ReplicationStateRow)
      → rows_of new_row.pipeline_id (overwrite new_row rows)
        ≡ overwrite new_row (rows_of new_row.pipeline_id rows)
  unfolding rows_of overwrite conflicts
  rows_of-overwrite [] = refl
  rows_of-overwrite (row ∷ rows) = ground (arith, rows_of-overwrite rows)

  has_conflict-rows_of :
      (rows : List ReplicationStateRow)
      → has_conflict new_row (rows_of new_row.pipeline_id rows) ≡ has_conflict new_row rows
  unfolding rows_of has_conflict conflicts
  has_conflict-rows_of [] = refl
  has_conflict-rows_of (row ∷ rows) = ground (arith, has_conflict-rows_of rows)

  rows_of-All :
      (rows : List ReplicationStateRow)
      → All
          (λ row. (row.pipeline_id == new_row.pipeline_id) ≡ true)
          (rows_of new_row.pipeline_id rows)
  unfolding rows_of
  rows_of-All [] = tt
  rows_of-All (row ∷ rows) = elim (Bool-cases (row.pipeline_id == new_row.pipeline_id)) [
    | inl same ↦ rw same (same, rows_of-All rows)
    | inr other ↦ rw other (rows_of-All rows)
  ]

module _ (lsns : LsnText) where
  -- The upsert of one row changes what is loaded at its key only.
  pub upsert-loads :
      (new_row : ReplicationStateRow) (rows : List ReplicationStateRow)
      (m : Map TableReplicationPhase) (p : TableReplicationPhase)
      → replication_phase_from_state lsns new_row.state new_row.sync_done_lsn ≡ ok p
      → load_rows lsns [] (rows_of new_row.pipeline_id rows) ≡ ok m
      → (n : Map TableReplicationPhase) × (load_rows lsns []
            (rows_of new_row.pipeline_id (upsert new_row rows))
          ≡ ok n)
        × ((t : ℕ) → Assoc.get n t ≡ (if new_row.table_id == t then some p else Assoc.get m t))
  unfolding upsert
  upsert-loads new_row rows m p decoded loaded = elim (Bool-cases (has_conflict new_row rows)) [
    | inl hit ↦
        rw (hit, rows_of-overwrite new_row rows)
          (load-overwrite lsns new_row p decoded (rows_of new_row.pipeline_id rows) [] [] m
            (rows_of-All new_row rows) loaded (λ t k. refl)
            (inr (has_conflict-rows_of new_row rows ∙ hit)))
    | inr miss ↦
        rw (miss, rows_of-append new_row rows)
          (
            Assoc.insert m new_row.table_id p,
            load-append lsns new_row p decoded (rows_of new_row.pipeline_id rows) [] m loaded,
            λ t. get-insert m new_row.table_id t p,
          )
  ]
