-- ===== src/Workers/TableSync/Done.antt =====
-- etl/src/workers/table_sync.rs: lemmas on the hook of a table sync worker.
use pg_replicate.Base.{
  ℕ, ◌≡◌, refl, subst, ◌⊎◌, inl, inr, Bool, true, false, some, List, Result, ok, err, arith, ◌==◌,
  ==_refl,
}
use pg_replicate.Base.Assoc
use pg_replicate.Base.Assoc.{get-insert}
use pg_replicate.Base.Triple.{After, Keeps, Triple-pure, Triple-if, Triple-bind}
use pg_replicate.State.Phase.{TableReplicationPhase}
use pg_replicate.State.Store.{StateStore, StateStoreError}
use pg_replicate.Conversions.Event.{Event}
use pg_replicate.Replication.Apply.Loop.Delivery.{IsSafe}
use pg_replicate.Workers.TableSync.{
  Worker, stored, set_phase, store_phase, set_phase_with, catch_up, process_phase,
  process_syncing_tables, skip_table,
}

module _ {S D X : Type 0} (states : StateStore S) (start_lsn : ℕ) (log : D → List (Event X)) where
  -- In memory or in the store the worker's table is done at `lsn`.
  abbrev pub IsMarked : Worker S D → ℕ → Type 0
  IsMarked w lsn =
      (w.inner.table_replication_phase ≡ TableReplicationPhase.sync_done lsn)
      ⊎ (Assoc.get (states.cache w.store) w.inner.table_id
          ≡ some (TableReplicationPhase.sync_done lsn))

  abbrev pub IsDoneSafely : Worker S D → Type 0
  IsDoneSafely w = (lsn : ℕ) → IsMarked w lsn → IsSafe start_lsn (log w.outside) lsn

  abbrev pub At : List (Event X) → Worker S D → Type 0
  At done w = (log w.outside ≡ done) × IsDoneSafely w

  -- A phase that may be set when the destination has `done`.
  abbrev IsAllowed : List (Event X) → TableReplicationPhase → Type 0
  IsAllowed done p = (lsn : ℕ) → p ≡ TableReplicationPhase.sync_done lsn → IsSafe start_lsn done lsn

  After-stored :
      (done : List (Event X)) (r : Result StateStoreError (Unit {0})) (w : Worker S D)
      → At done w
      → After (λ _. At done) (At done) (stored r, w)
  unfolding stored
  After-stored done (ok u) w h = h
  After-stored done (err e) w h = h

  -- What the store says of the table after an update is the new phase, or what it said before.
  cache-update :
      (t : ℕ) (p q : TableReplicationPhase) (s : S) (r : Result StateStoreError (Unit {0}))
      → (states.update_table_replication_state t p s).0 ≡ r
      → Assoc.get (states.cache (states.update_table_replication_state t p s).1) t ≡ some q
      → (p ≡ q) ⊎ (Assoc.get (states.cache s) t ≡ some q)
  cache-update t p q s (ok tt) e is =
      inl
        (ground (arith, states.update-ok t p s e, get-insert (states.cache s) t t p, ==_refl t, is))
  cache-update t p q s (err x) e is = inr (rw (states.update-err t p s x e) at is)

  store_phase-Keeps :
      (done : List (Event X)) (p : TableReplicationPhase)
      → IsAllowed done p
      → Keeps (At done) (store_phase states p)
  unfolding store_phase
  store_phase-Keeps done p allowed = record {
    run = λ w (is, h). After-stored done _ _ (
      is,
      λ lsn m. elim m [
        | inl e ↦ h lsn (inl e)
        | inr e ↦
            elim (cache-update w.inner.table_id p (TableReplicationPhase.sync_done lsn) w.store _
              refl e) [ inl new ↦ rw is (allowed lsn new) | inr old ↦ h lsn (inr old) ]
      ],
    );
  }

  set_phase_with-Keeps :
      (done : List (Event X)) (p : TableReplicationPhase)
      → IsAllowed done p
      → Keeps (At done) (set_phase_with states p)
  unfolding set_phase_with set_phase
  set_phase_with-Keeps done p allowed =
      Triple-bind (λ _. At done)
        (record {
          run = λ w (is, h).
              (is, λ lsn m. elim m [ inl e ↦ rw is (allowed lsn e) | inr e ↦ h lsn (inr e) ]);
        })
        λ _. Triple-if _ (store_phase-Keeps done p allowed) (Triple-pure _ λ w h. h)

  catch_up-Keeps :
      (done : List (Event X)) (current : ℕ) (update_state : Bool) (lsn : ℕ)
      → (update_state ≡ true → IsSafe start_lsn done current)
      → Keeps (At done) (catch_up states current update_state lsn)
  unfolding catch_up
  catch_up-Keeps done current true lsn safe =
      Triple-if _
        (Triple-bind (λ _. At done)
          (set_phase_with-Keeps done _
            λ l e. subst (λ x. IsSafe start_lsn done x) (sync_done-injective e) (safe refl))
          λ _. Triple-pure _ λ w h. h)
        (Triple-pure _ λ w h. h)
    where
      sync_done-injective :
          {a b : ℕ} → TableReplicationPhase.sync_done a ≡ TableReplicationPhase.sync_done b → a ≡ b
      sync_done-injective e = ground arith
  catch_up-Keeps done current false lsn safe =
      Triple-if _ (Triple-pure _ λ w h. h) (Triple-pure _ λ w h. h)

  process_phase-Keeps :
      (done : List (Event X)) (current : ℕ) (update_state : Bool) (p : TableReplicationPhase)
      → (update_state ≡ true → IsSafe start_lsn done current)
      → Keeps (At done) (process_phase states current update_state p)
  unfolding process_phase
  process_phase-Keeps done current update_state (TableReplicationPhase.catchup lsn) safe =
      catch_up-Keeps done current update_state lsn safe
  process_phase-Keeps done current update_state p safe = Triple-pure _ λ w h. h

  pub process-Keeps :
      (done : List (Event X)) (current : ℕ) (update_state : Bool)
      → (update_state ≡ true → IsSafe start_lsn done current)
      → Keeps (At done) (process_syncing_tables states current update_state)
  unfolding process_syncing_tables
  process-Keeps done current update_state safe = record {
    run = λ w h.
        (process_phase-Keeps done current update_state w.inner.table_replication_phase safe).run w
          h;
  }

  pub skip_table-Keeps :
      (done : List (Event X)) (own_id table_id : ℕ)
      → Keeps (At done) (skip_table states own_id table_id)
  unfolding skip_table
  skip_table-Keeps done own_id table_id =
      Triple-if (own_id == table_id)
        (Triple-bind (λ _. At done)
          (set_phase_with-Keeps done TableReplicationPhase.skipped λ l e. absurd (skipped-ne e))
          λ _. Triple-pure _ λ w h. h)
        (Triple-pure _ λ w h. h)
    where
      skipped-ne : {l : ℕ} → TableReplicationPhase.skipped ≡ TableReplicationPhase.sync_done l → ⊥
      skipped-ne e = cc
