-- ===== src/Workers/Apply/Decide.antt =====
-- etl/src/workers/apply.rs: lemmas on `should_apply_changes` and `skip_table`.
use pg_replicate.Base.{
  ℕ, ◌≤◌, ◌≡◌, ◌≢◌, refl, ◌∙◌, ◌↔◌, ◌⊎◌, inl, inr, Bool, true, false, Option, none, some, Result,
  ok, err, arith, ◌>>=◌, pure, gets, leb→le, le→leb, Option-cases, continue,
}
use pg_replicate.Base.Assoc.{get, insert, get-insert}
use pg_replicate.State.Phase.{TableReplicationPhase}
use pg_replicate.State.Store.{StateStore, StateStoreError}
use pg_replicate.Replication.Apply.Interface.{ApplyLoopError}
use pg_replicate.Workers.TableSync.{TableSyncWorkerHandle, set_phase}
use pg_replicate.Workers.Pool.{add_active, get_active_worker_state}
use pg_replicate.Workers.Apply.{
  Shared, Tasks, Act, on_store, on_worker, hook_error, skip_active, skip_table, current_phase,
  applies, should_apply_changes,
}

-- The phases in which the apply worker applies a transaction that was committed at `remote_final_lsn`.
abbrev pub IsApplied : ℕ → Option TableReplicationPhase → Type 0
IsApplied remote_final_lsn (some TableReplicationPhase.ready) = Unit
IsApplied remote_final_lsn (some (TableReplicationPhase.sync_done lsn)) = lsn ≤ remote_final_lsn
IsApplied remote_final_lsn phase = ⊥

abbrev either_phase :
    {J : Type 0}
    → Option (TableSyncWorkerHandle J)
    → Option TableReplicationPhase
    → Option TableReplicationPhase
either_phase none stored = stored
either_phase (some worker) stored = some worker.state.table_replication_phase

module _ {S J D : Type 0} (states : StateStore S) (tasks : Tasks S J D) where
  -- What is known of a table: the phase of its active worker, or else the one in the store.
  abbrev pub known_phase : Shared S J D → ℕ → Option TableReplicationPhase
  known_phase w table_id =
      either_phase (get w.pool.active table_id) (get (states.cache w.store) table_id)

  current_phase-lem :
      (t : ℕ) (w : Shared S J D) → current_phase states tasks t w ≡ (ok (known_phase w t), w)
  unfolding current_phase get_active_worker_state on_store hook_error
  current_phase-lem t w = elim (Option-cases (get w.pool.active t)) [
    | inl e ↦
        rw (current_phase, get_active_worker_state, e, on_store, states.get_lem t w.store) refl
    | inr (worker, e) ↦ rw (current_phase, get_active_worker_state, e) refl
  ]

  applies_iff :
      (lsn : ℕ) (phase : TableReplicationPhase)
      → (applies states tasks lsn phase ≡ true) ↔ IsApplied lsn (some phase)
  unfolding applies
  applies_iff lsn TableReplicationPhase.ready = (λ e. tt, λ h. refl)
  applies_iff lsn (TableReplicationPhase.sync_done l) = (λ e. leb→le l lsn e, λ h. le→leb l lsn h)
  applies_iff lsn phase = (λ e. cc, λ h. absurd h)

  -- The apply worker applies the changes of a table, for a transaction committed at some position, exactly if
  -- the table is ready, or was synchronised up to at most that position; what counts is the phase of the
  -- active table sync worker, or the one in the state store if there is none. To ask never fails and
  -- changes nothing.
  pub should_apply_changes_iff :
      (t lsn : ℕ) (w : Shared S J D)
      → (b : Bool) × (should_apply_changes states tasks t lsn w ≡ (ok b, w))
        × ((b ≡ true) ↔ IsApplied lsn (known_phase w t))
  unfolding should_apply_changes pure ◌>>=◌ continue
  should_apply_changes_iff t lsn w = elim (Option-cases (known_phase w t)) [
    | inl e ↦ (false, rw (current_phase-lem t w, e) refl, rw e (λ h. cc, λ h. absurd h))
    | inr (phase, e) ↦ (
      applies states tasks lsn phase,
      rw (current_phase-lem t w, e) refl,
      rw e (applies_iff lsn phase),
    )
  ]

  -- The phase of an active worker and the one in the store, when one of them is written.
  known-active :
      (w : Shared S J D) (t : ℕ) (worker : TableSyncWorkerHandle J)
      → known_phase (record w { pool = add_active t worker w.pool }) t
        ≡ some worker.state.table_replication_phase
  unfolding add_active
  known-active w t worker = ground (arith, get-insert w.pool.active t t worker)

  known-other :
      (w : Shared S J D) (t j : ℕ) (worker : TableSyncWorkerHandle J)
      → t ≢ j
      → known_phase (record w { pool = add_active t worker w.pool }) j ≡ known_phase w j
  unfolding add_active
  known-other w t j worker ne = ground (arith, get-insert w.pool.active t j worker)

  -- An update of the store, as the rest of `skip_table`.
  abbrev Stored : ℕ → TableReplicationPhase → Shared S J D → Shared S J D → Type 0
  Stored t phase v w =
      (states.cache w.store ≡ insert (states.cache v.store) t phase) × (w.pool ≡ v.pool)

  abbrev then_true :
      Result StateStoreError (Unit {0}) → Shared S J D → Result ApplyLoopError Bool × Shared S J D
  then_true r w = continue (hook_error r) (λ u. pure true) w

  then_true-Stored :
      (t : ℕ) (phase : TableReplicationPhase) (v : Shared S J D) (b : Bool)
      (r : Result StateStoreError (Unit {0})) (store : S)
      → (r ≡ ok tt → states.cache store ≡ insert (states.cache v.store) t phase)
      → (then_true r (record v { store = store })).0 ≡ ok b
      → Stored t phase v (then_true r (record v { store = store })).1
  unfolding hook_error pure continue
  then_true-Stored t phase v b (ok tt) store is e = (is refl, refl)
  then_true-Stored t phase v b (err x) store is e = cc

  store-Stored :
      (t : ℕ) (phase : TableReplicationPhase) (v : Shared S J D) (b : Bool)
      → ((on_store (states.update_table_replication_state t phase) >>= λ u. pure true) v).0 ≡ ok b
      → Stored t phase v
          ((on_store (states.update_table_replication_state t phase) >>= λ u. pure true) v).1
  unfolding ◌>>=◌ on_store
  store-Stored t phase v b e = then_true-Stored t phase v b _ _ (states.update-ok t phase v.store) e

  known-Stored :
      (t : ℕ) (v w : Shared S J D)
      → Stored t TableReplicationPhase.skipped v w
      → ((known_phase v t ≡ some TableReplicationPhase.skipped) ⊎ (get v.pool.active t ≡ none))
      → (known_phase w t ≡ some TableReplicationPhase.skipped)
        × (get (states.cache w.store) t ≡ some TableReplicationPhase.skipped)
        × ((j : ℕ) → t ≢ j → known_phase w j ≡ known_phase v j)
  known-Stored t v w (cached, same) h =
      let stored : get (states.cache w.store) t ≡ some TableReplicationPhase.skipped =
        rw cached
          (ground (arith, get-insert (states.cache v.store) t t TableReplicationPhase.skipped)) in
      (
        rw same (elim h [
          | inl e ↦ elim (Option-cases (get v.pool.active t)) [
            | inl none_is ↦ rw none_is stored
            | inr (worker, some_is) ↦ rw some_is (rw some_is at e)
          ]
          | inr none_is ↦ rw none_is stored
        ]),
        stored,
        λ j ne.
            rw (same, cached)
              (ground (arith, get-insert (states.cache v.store) t j TableReplicationPhase.skipped)),
      )

  abbrev Skips : ℕ → Shared S J D → Shared S J D → Type 0
  Skips t v w =
      (known_phase w t ≡ some TableReplicationPhase.skipped)
      × (get (states.cache w.store) t ≡ some TableReplicationPhase.skipped)
      × ((j : ℕ) → t ≢ j → known_phase w j ≡ known_phase v j)

  abbrev store_skipped : ℕ → Act S J D Bool
  store_skipped t =
      on_store (states.update_table_replication_state t TableReplicationPhase.skipped) >>= λ u.
      pure true

  skip_active-Skips :
      (t : ℕ) (o : Option (TableSyncWorkerHandle J)) (w : Shared S J D) (b : Bool)
      → get w.pool.active t ≡ o
      → ((skip_active states tasks t o >>= λ u. store_skipped t) w).0 ≡ ok b
      → Skips t w ((skip_active states tasks t o >>= λ u. store_skipped t) w).1
  unfolding skip_active on_worker set_phase ◌>>=◌ pure continue
  skip_active-Skips t none w b e h =
      known-Stored t w (store_skipped t w).1 (store-Stored t TableReplicationPhase.skipped w b h)
        (inr e)
  skip_active-Skips t (some worker) w b e h =
      let skipped_worker = record worker {
        state = record worker.state { table_replication_phase = TableReplicationPhase.skipped };
      } in
      let v = record w { pool = add_active t skipped_worker w.pool } in
      let (known, stored, others) =
        known-Stored t v (store_skipped t v).1 (store-Stored t TableReplicationPhase.skipped v b h)
          (inl (known-active w t skipped_worker)) in
      (known, stored, λ j ne. others j ne ∙ known-other w t j skipped_worker ne)

  -- After a table was skipped, it is known as skipped, in memory and in the store, so that the apply worker
  -- applies none of its changes; what is known of the other tables is as before.
  pub skip_table-Skipped :
      (t : ℕ) (w : Shared S J D) (b : Bool)
      → (skip_table states tasks t w).0 ≡ ok b
      → (known_phase (skip_table states tasks t w).1 t ≡ some TableReplicationPhase.skipped)
        × (get (states.cache (skip_table states tasks t w).1.store) t
            ≡ some TableReplicationPhase.skipped)
        × ((j : ℕ) → t ≢ j → known_phase (skip_table states tasks t w).1 j ≡ known_phase w j)
  unfolding skip_table ◌>>=◌ continue gets
  skip_table-Skipped t w b e = skip_active-Skips t (get w.pool.active t) w b refl e
