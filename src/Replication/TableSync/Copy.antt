-- ===== src/Replication/TableSync/Copy.antt =====
-- etl/src/replication/table_sync.rs: the copy of a table, as a log of its steps.
use pg_replicate.Base.{
  ℕ, ◌≡◌, ◌≢◌, refl, sym, ◌∙◌, Bool, true, false, Option, none, some, List, [], ◌∷◌, ◌++◌,
  append-nil, append_assoc, Result, ok, err, Exec, ◌>>=◌, lift, modify, continue, arith, Text,
}
use pg_replicate.Base.Assoc.{get, get-insert}
use pg_replicate.Base.Triple.{
  After, Triple, Keeps, Triple-pure, Triple-if, Triple-bind, Triple-mono, Triple-from, Triple-given,
  Triple-some,
}
use pg_replicate.State.Phase.{
  TableReplicationPhase, TableReplicationPhaseType, as_type, should_store,
}
use pg_replicate.State.Store.{StateStore, StateStoreError}
use pg_replicate.Schema.{TableSchema}
use pg_replicate.Conversions.Cell.{TableRow}
use pg_replicate.Concurrency.Shutdown.{ShutdownResult}
use pg_replicate.Workers.TableSync.{Worker, set_phase, set_phase_with, store_phase, stored}
use pg_replicate.Replication.TableSync.{
  PgReplicationError, TableSyncError, CopyBatch, CopyLinks, collect, copied_rows, outside, done,
  pg_error, ignore_missing, state_error, enter, clear_slot, copy_rows, copy_schema, finish_copy,
  copy_table,
}

-- What a copy does to the source and to the destination.
pub data CopyStep (X : Type 0) : Type 0 where
  created : Text → ℕ → CopyStep X
  schema : TableSchema → CopyStep X
  rows : List (TableRow X) → CopyStep X
  committed : CopyStep X

-- Batches that all decode, and how they are written.
pub data IsCopied {X : Type 0} : List (CopyBatch X) → List (CopyStep X) → Type 0 where
  nil : IsCopied [] []
  cons :
      (decoded : List (Result (Unit {0}) (TableRow X))) (table_rows : List (TableRow X))
      (batches : List (CopyBatch X)) (steps : List (CopyStep X))
      → collect decoded ≡ ok table_rows
      → IsCopied batches steps
      → IsCopied (ShutdownResult.ok decoded ∷ batches) (rows table_rows ∷ steps)

abbrev pub AnyState : {D : Type 0} → D → Type 0
AnyState d = Unit

-- `log` is what was done: each operation that succeeds joins it.
pub record Logs {D X : Type 0} (links : CopyLinks D X) (log : D → List (CopyStep X)) : Type 0 where
  pub deleted :
      (name : Text) (done : List (CopyStep X)) → Keeps (λ d. log d ≡ done) (links.delete_slot name)
  pub created :
      (name : Text) (done : List (CopyStep X))
      → Triple
          (λ d. log d ≡ done)
          (links.create_slot_with_transaction name)
          (λ lsn d. log d ≡ done ++ created name lsn ∷ [])
          AnyState
  pub described :
      (t : ℕ) (done : List (CopyStep X)) → Keeps (λ d. log d ≡ done) (links.get_table_schema t)
  pub cached : (s : TableSchema) (d : D) → log (links.add_table_schema s d) ≡ log d
  pub announced :
      (s : TableSchema) (done : List (CopyStep X))
      → Triple
          (λ d. log d ≡ done)
          (links.write_table_schema s)
          (λ u d. log d ≡ done ++ schema s ∷ [])
          AnyState
  pub streamed :
      (s : TableSchema) (done : List (CopyStep X))
      → Keeps (λ d. log d ≡ done) (links.get_table_copy_stream s)
  pub written :
      (t : ℕ) (rs : List (TableRow X)) (done : List (CopyStep X))
      → Triple
          (λ d. log d ≡ done)
          (links.write_table_rows t rs)
          (λ u d. log d ≡ done ++ rows rs ∷ [])
          AnyState
  pub ended :
      (done : List (CopyStep X))
      → Triple (λ d. log d ≡ done) links.commit (λ u d. log d ≡ done ++ committed ∷ []) AnyState

module _ {S D X : Type 0} (states : StateStore S) (links : CopyLinks D X)
    (log : D → List (CopyStep X)) (logs : Logs links log) (table_id : ℕ) where
  -- The state store does not have the copy as finished.
  abbrev pub IsUnfinished : Worker S D → Type 0
  IsUnfinished w =
      (get (states.cache w.store) table_id ≢ some TableReplicationPhase.finished_copy)
      × (w.inner.table_id ≡ table_id)

  abbrev At : List (CopyStep X) → Worker S D → Type 0
  At done w = (log w.outside ≡ done) × IsUnfinished w

  -- An operation outside, by what it does to the log.
  outside-At :
      {E A B : Type 0} (result : Result E A → Result TableSyncError B) (op : Exec D E A)
      (before : List (CopyStep X)) (Q : B → D → Type 0)
      → ((d : D) → log d ≡ before → After Q AnyState (result (op d).0, (op d).1))
      → Triple (At before) (outside result op) (λ b w. Q b w.outside × IsUnfinished w) IsUnfinished
  unfolding outside
  outside-At result op before Q k = record { run = λ w (is, h). either Q w h _ (k w.outside is) }
    where
      either :
          {B : Type 0} (Q : B → D → Type 0) (w : Worker S D)
          → IsUnfinished w
          → (r : Result TableSyncError B × D) → After Q AnyState r
          → After
              (λ b v. Q b v.outside × IsUnfinished v)
              IsUnfinished
              (r.0, record w { outside = r.1 })
      either Q w h (ok b, d) q = (q, h)
      either Q w h (err e, d) q = h

  After-pg :
      {A : Type 0} (Q : A → D → Type 0) (F : D → Type 0) (r : Result PgReplicationError A × D)
      → After Q F r
      → After Q AnyState (pg_error r.0, r.1)
  unfolding pg_error
  After-pg Q F (ok a, d) h = h
  After-pg Q F (err e, d) h = tt

  outside-pg :
      {A : Type 0} (op : Exec D PgReplicationError A) (before : List (CopyStep X))
      (Q : A → D → Type 0) (F : D → Type 0)
      → Triple (λ d. log d ≡ before) op Q F
      → Triple
          (At before)
          (outside pg_error op)
          (λ b w. Q b w.outside × IsUnfinished w)
          IsUnfinished
  outside-pg op before Q F k =
      outside-At pg_error op before Q λ d h. After-pg Q F (op d) (k.run d h)

  outside-done :
      {A : Type 0} (op : Exec D TableSyncError A) (before : List (CopyStep X)) (Q : A → D → Type 0)
      → Triple (λ d. log d ≡ before) op Q AnyState
      → Triple (At before) (done op) (λ b w. Q b w.outside × IsUnfinished w) IsUnfinished
  unfolding done
  outside-done op before Q k = outside-At (λ r. r) op before Q λ d h. k.run d h

  After-ignored :
      (I : D → Type 0) (r : Result PgReplicationError (Unit {0}) × D)
      → After (λ u. I) I r
      → After (λ u. I) AnyState (ignore_missing r.0, r.1)
  unfolding ignore_missing
  After-ignored I (ok u, d) h = h
  After-ignored I (err PgReplicationError.slot_not_found, d) h = h
  After-ignored I (err PgReplicationError.other, d) h = tt

  clear_slot-At :
      (phase_type : TableReplicationPhaseType) (name : Text) (before : List (CopyStep X))
      → Triple
          (At before)
          (clear_slot states links table_id phase_type name)
          (λ u. At before)
          IsUnfinished
  unfolding clear_slot
  clear_slot-At phase_type name before =
      Triple-if _
        (outside-At ignore_missing (links.delete_slot name) before (λ u d. log d ≡ before)
          λ d h.
            After-ignored (λ d. log d ≡ before) (links.delete_slot name d)
              ((logs.deleted name before).run d h))
        (Triple-pure tt λ w h. h)

  After-entered :
      (Q : Worker S D → Type 0) (v : Worker S D) (r : Result StateStoreError (Unit {0}))
      → (r ≡ ok tt → Q v)
      → ((e : StateStoreError) → r ≡ err e → IsUnfinished v)
      → After (λ u. Q) IsUnfinished (state_error (stored r), v)
  unfolding state_error stored
  After-entered Q v (ok tt) hq hf = hq refl
  After-entered Q v (err e) hq hf = hf e refl

  get-stored :
      (t : ℕ) (p : TableReplicationPhase) (s : S)
      → (states.update_table_replication_state t p s).0 ≡ ok tt
      → t ≡ table_id
      → get (states.cache (states.update_table_replication_state t p s).1) table_id ≡ some p
  get-stored t p s e same =
      rw (states.update-ok t p s e) (ground (arith, get-insert (states.cache s) t table_id p, same))

  kept :
      (t : ℕ) (p : TableReplicationPhase) (s : S) (x : StateStoreError)
      → (states.update_table_replication_state t p s).0 ≡ err x
      → (get (states.cache s) table_id ≢ some TableReplicationPhase.finished_copy)
      → (get (states.cache (states.update_table_replication_state t p s).1) table_id
          ≢ some TableReplicationPhase.finished_copy)
  kept t p s x e h = rw (states.update-err t p s x e) h

  data_sync-ne : some TableReplicationPhase.data_sync ≡ some TableReplicationPhase.finished_copy → ⊥
  data_sync-ne e = cc

  enter-data_sync :
      (before : List (CopyStep X))
      → Triple
          (At before)
          (enter states TableReplicationPhase.data_sync)
          (λ u. At before)
          IsUnfinished
  unfolding enter set_phase_with set_phase store_phase should_store as_type ◌>>=◌ continue
  enter-data_sync before = record {
    run = λ w (is, (unfinished, same)).
        After-entered (At before) _ _
          (λ e. (is, (λ h. data_sync-ne (sym (get-stored _ _ w.store e same) ∙ h), same)))
          λ x e. (kept _ _ w.store x e unfinished, same);
  }

  enter-finished_copy :
      (before : List (CopyStep X))
      → Triple
          (At before)
          (enter states TableReplicationPhase.finished_copy)
          (λ u w.
            (log w.outside ≡ before)
            × (get (states.cache w.store) table_id ≡ some TableReplicationPhase.finished_copy))
          IsUnfinished
  unfolding enter set_phase_with set_phase store_phase should_store as_type ◌>>=◌ continue
  enter-finished_copy before = record {
    run = λ w (is, (unfinished, same)).
        After-entered
          (λ w.
            (log w.outside ≡ before)
            × (get (states.cache w.store) table_id ≡ some TableReplicationPhase.finished_copy))
          _ _ (λ e. (is, get-stored _ _ w.store e same))
          λ x e. (kept _ _ w.store x e unfinished, same);
  }

  copied_rows-collect :
      (decoded : List (Result (Unit {0}) (TableRow X))) (rs : List (TableRow X))
      → copied_rows decoded ≡ ok rs
      → collect decoded ≡ ok rs
  unfolding copied_rows
  copied_rows-collect decoded rs e = either (collect decoded) e
    where
      either :
          (r : Result (Unit {0}) (List (TableRow X)))
          → (elim r as (λ _. Result TableSyncError (List (TableRow X))) [
            | ok all ↦ ok all
            | err e ↦ err TableSyncError.table_copy_stream
          ])
            ≡ ok rs
          → r ≡ ok rs
      either (ok rs') e = cc
      either (err x) e = cc

  -- After the rows: all of them, or a shutdown.
  abbrev AfterRows : List (CopyBatch X) → List (CopyStep X) → Bool → Worker S D → Type 0
  AfterRows batches before false w = IsUnfinished w
  AfterRows batches before true w =
      (steps : List (CopyStep X)) × IsCopied batches steps × At (before ++ steps) w

  AfterRows-cons :
      (decoded : List (Result (Unit {0}) (TableRow X))) (rs : List (TableRow X))
      (batches : List (CopyBatch X)) (before : List (CopyStep X))
      → collect decoded ≡ ok rs
      → (all : Bool) (w : Worker S D) → AfterRows batches (before ++ rows rs ∷ []) all w
      → AfterRows (ShutdownResult.ok decoded ∷ batches) before all w
  AfterRows-cons decoded rs batches before e false w h = h
  AfterRows-cons decoded rs batches before e true w (steps, copied, (is, h)) = (
    rows rs ∷ steps,
    cons decoded rs batches steps e copied,
    (is ∙ append_assoc before (rows rs ∷ []) steps, h),
  )

  lift-collected :
      (decoded : List (Result (Unit {0}) (TableRow X))) (before : List (CopyStep X))
      → Triple
          (At before)
          (lift (copied_rows decoded))
          (λ rs w. At before w × (collect decoded ≡ ok rs))
          IsUnfinished
  unfolding lift
  lift-collected decoded before = record { run = λ w h. either w h _ (copied_rows-collect decoded) }
    where
      either :
          (w : Worker S D)
          → At before w
          → (r : Result TableSyncError (List (TableRow X)))
          → ((rs : List (TableRow X)) → r ≡ ok rs → collect decoded ≡ ok rs)
          → After (λ rs w. At before w × (collect decoded ≡ ok rs)) IsUnfinished (r, w)
      either w h (ok rs) is = (h, is rs refl)
      either w h (err e) is = h.1

  copy_rows-AfterRows :
      (batches : List (CopyBatch X)) (before : List (CopyStep X))
      → Triple
          (At before)
          (copy_rows states links table_id batches)
          (AfterRows batches before)
          IsUnfinished
  unfolding copy_rows
  copy_rows-AfterRows [] before =
      Triple-pure true λ w (is, h). ([], nil, (is ∙ sym (append-nil before), h))
  copy_rows-AfterRows (ShutdownResult.shutdown u ∷ batches) before = Triple-pure false λ w h. h.1
  copy_rows-AfterRows (ShutdownResult.ok decoded ∷ batches) before =
      Triple-bind (λ rs w. At before w × (collect decoded ≡ ok rs)) (lift-collected decoded before)
        λ rs. Triple-given λ e.
          Triple-bind (λ u. At (before ++ rows rs ∷ []))
            (outside-done (links.write_table_rows table_id rs) before _
              (logs.written table_id rs before))
            λ u.
              Triple-mono (AfterRows-cons decoded rs batches before e) (λ w h. h)
                (copy_rows-AfterRows batches (before ++ rows rs ∷ []))

  copy_schema-At :
      (before : List (CopyStep X))
      → Triple
          (At before)
          (copy_schema states links table_id)
          (λ s. At (before ++ schema s ∷ []))
          IsUnfinished
  unfolding copy_schema modify
  copy_schema-At before =
      Triple-bind (λ s. At before)
        (outside-pg (links.get_table_schema table_id) before _ _ (logs.described table_id before))
        λ s.
          Triple-bind (λ u. At before)
            (record { run = λ w (is, h). (logs.cached s w.outside ∙ is, h) })
            λ u.
              Triple-bind (λ u. At (before ++ schema s ∷ []))
                (outside-done (links.write_table_schema s) before _ (logs.announced s before))
                λ u. Triple-pure s λ w h. h

  -- The copy as a whole: all that was done, with the position of the slot.
  abbrev pub WholeCopy : Text → List (CopyBatch X) → List (CopyStep X) → ℕ → Worker S D → Type 0
  WholeCopy name batches before lsn w =
      (s : TableSchema) × (steps : List (CopyStep X)) × IsCopied batches steps
      × (log w.outside ≡ before ++ created name lsn ∷ schema s ∷ (steps ++ committed ∷ []))
      × (get (states.cache w.store) table_id ≡ some TableReplicationPhase.finished_copy)

  abbrev pub CopyEnds :
      Text → List (CopyBatch X) → List (CopyStep X) → Option ℕ → Worker S D → Type 0
  CopyEnds name batches before none w = IsUnfinished w
  CopyEnds name batches before (some lsn) w = WholeCopy name batches before lsn w

  regroup :
      (before steps : List (CopyStep X)) (name : Text) (lsn : ℕ) (s : TableSchema)
      → (((before ++ created name lsn ∷ []) ++ schema s ∷ []) ++ steps) ++ committed ∷ []
        ≡ before ++ created name lsn ∷ schema s ∷ (steps ++ committed ∷ [])
  regroup before steps name lsn s = simp append_assoc

  finish_copy-CopyEnds :
      (name : Text) (batches : List (CopyBatch X)) (before : List (CopyStep X)) (s : TableSchema)
      (lsn : ℕ) (all : Bool)
      → Triple
          (AfterRows batches ((before ++ created name lsn ∷ []) ++ schema s ∷ []) all)
          (finish_copy states links table_id lsn all)
          (CopyEnds name batches before)
          IsUnfinished
  unfolding finish_copy
  finish_copy-CopyEnds name batches before s lsn false = Triple-pure none λ w h. h
  finish_copy-CopyEnds name batches before s lsn true =
      let start = (before ++ created name lsn ∷ []) ++ schema s ∷ [] in
      Triple-from
        {P = λ w. (steps : List (CopyStep X)) × (At (start ++ steps) w × IsCopied batches steps)}
        (λ w (steps, copied, h). (steps, (h, copied)))
        (Triple-some λ steps. Triple-given λ copied.
          Triple-bind (λ u. At ((start ++ steps) ++ committed ∷ []))
            (outside-pg links.commit (start ++ steps) _ _ (logs.ended (start ++ steps)))
            λ u.
              Triple-bind
                (λ u w.
                  (log w.outside ≡ (start ++ steps) ++ committed ∷ [])
                  × (get (states.cache w.store) table_id
                      ≡ some TableReplicationPhase.finished_copy))
                (enter-finished_copy ((start ++ steps) ++ committed ∷ []))
                λ u.
                  Triple-pure (some lsn)
                    λ w h. (s, steps, copied, h.0 ∙ regroup before steps name lsn s, h.1))

  -- A copy of a table that returns a position has created the slot at it, announced the schema, written the
  -- rows of every batch in order, with no row that failed to decode, and committed, in this order, before
  -- the state store had the copy as finished; a copy that fails or is shut down leaves the state store
  -- without it.
  pub copy_table-CopyEnds :
      (name : Text) (batches : List (CopyBatch X)) (phase_type : TableReplicationPhaseType)
      (w : Worker S D)
      → IsUnfinished w
      → After
          (CopyEnds name batches (log w.outside))
          IsUnfinished
          (copy_table states links table_id batches phase_type name w)
  unfolding copy_table
  copy_table-CopyEnds name batches phase_type w h =
      let before = log w.outside in
      (Triple-bind (λ u. At before) (clear_slot-At phase_type name before)
          λ u.
            Triple-bind (λ u. At before) (enter-data_sync before)
              λ u.
                Triple-bind (λ lsn. At (before ++ created name lsn ∷ []))
                  (outside-pg (links.create_slot_with_transaction name) before _ _
                    (logs.created name before))
                  λ lsn.
                    Triple-bind (λ s. At ((before ++ created name lsn ∷ []) ++ schema s ∷ []))
                      (copy_schema-At (before ++ created name lsn ∷ []))
                      λ s.
                        Triple-bind (λ u. At ((before ++ created name lsn ∷ []) ++ schema s ∷ []))
                          (outside-pg (links.get_table_copy_stream s) _ _ _ (logs.streamed s _))
                          λ u.
                            Triple-bind
                              (AfterRows batches
                                ((before ++ created name lsn ∷ []) ++ schema s ∷ []))
                              (copy_rows-AfterRows batches _)
                              (finish_copy-CopyEnds name batches before s lsn)).run
        w (refl, h)
