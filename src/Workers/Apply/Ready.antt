-- ===== src/Workers/Apply/Ready.antt =====
-- etl/src/workers/apply.rs: lemmas on `process_syncing_tables`.
use pg_replicate.Base.{
  ℕ, ◌≤◌, ◌≡◌, refl, sym, subst, ap, ◌∙◌, ◌↔◌, ◌⊎◌, inl, inr, Bool, true, false, ◌&&◌, Option, none,
  some, List, [], ◌∷◌, ◌++◌, append-nil, append_assoc, Result, ok, err, Exec, ◌>>=◌, pure, leb,
  leb→le, le→leb, if◌then◌else◌, continue, All, Any, Bool-cases,
}
use pg_replicate.Base.Assoc.{Map, retain}
use pg_replicate.Base.Triple.{
  After, Triple, Keeps, Triple-pure, Triple-if, Triple-bind, Triple-mono, Triple-gets, Keeps-after,
}
use pg_replicate.State.Phase.{
  TableReplicationPhase, TableReplicationPhaseType, should_store, as_type, is_done,
}
use pg_replicate.State.Store.{StateStore, StateStoreError}
use pg_replicate.Replication.Common.{is_wanted}
use pg_replicate.Replication.Apply.Interface.{ApplyLoopError}
use pg_replicate.Workers.TableSync.{TableSyncWorkerHandle, set_phase, set_phase_with}
use pg_replicate.Workers.Apply.Starts.{active_tables, get_states-lem, start-store}
use pg_replicate.Workers.Apply.{
  Shared, Tasks, Act, on_store, on_worker, hook_error, ignore, start_table_sync_worker,
  wait_for_sync_done, handle_existing_worker, handle_syncing_table, mark_ready, process_table,
  process_tables, process_syncing_tables,
}

-- `log` is what the apply worker itself has stored: an update that succeeds joins it, and nothing else
-- does.
pub record Logs {S J D : Type 0} (states : StateStore S) (tasks : Tasks S J D)
    (log : S → List (ℕ × TableReplicationPhase)) : Type 0 where
  pub updated :
      (t : ℕ) (p : TableReplicationPhase) (done : List (ℕ × TableReplicationPhase))
      → Triple
          (λ s. log s ≡ done)
          (states.update_table_replication_state t p)
          (λ u s. log s ≡ done ++ (t, p) ∷ [])
          (λ s. log s ≡ done)
  pub waited :
      (t : ℕ) (p : TableReplicationPhaseType) (w : Shared S J D)
      → log (tasks.wait_for_phase_type t p w).1.store ≡ log w.store

-- The tables to mark.
pub due : ℕ → Bool → Map TableReplicationPhase → List (ℕ × TableReplicationPhase)
due current_lsn update_state [] = []
due current_lsn update_state ((t, TableReplicationPhase.sync_done lsn) ∷ rest) =
    if leb lsn current_lsn && update_state
    then (t, TableReplicationPhase.ready) ∷ due current_lsn update_state rest
    else due current_lsn update_state rest
due current_lsn update_state ((t, phase) ∷ rest) = due current_lsn update_state rest

-- A table that was synchronised up to a position that is passed.
abbrev pub IsPassed : ℕ → ℕ × TableReplicationPhase → Type 0
IsPassed current_lsn (t, TableReplicationPhase.sync_done lsn) = lsn ≤ current_lsn
IsPassed current_lsn (t, phase) = ⊥

due-other : {A U B E : Type 0} → (A ↔ (U × B)) → A ↔ (U × ((E × ⊥) ⊎ B))
due-other (to, from) =
    (λ a. ((to a).0, inr (to a).1), λ (u, h). elim h [ inl e ↦ absurd e.1 | inr b ↦ from (u, b) ])

-- A table that was synchronised, before the others.
due-cons :
    {B L : Type 0} (c u : Bool) (t j : ℕ) (marks : List (ℕ × TableReplicationPhase))
    → ((c ≡ true) ↔ L)
    → (Any (λ mark. mark.0 ≡ t) marks ↔ ((u ≡ true) × B))
    → Any (λ mark. mark.0 ≡ t) (if c && u then (j, TableReplicationPhase.ready) ∷ marks else marks)
      ↔ ((u ≡ true) × (((j ≡ t) × L) ⊎ B))
due-cons true true t j marks (reached, passed) (to, from) = (
  λ h. (refl, elim h [ inl e ↦ inl (e, reached refl) | inr m ↦ inr (to m).1 ]),
  λ (u, h). elim h [ inl e ↦ inl e.0 | inr b ↦ inr (from (refl, b)) ],
)
due-cons true false t j marks iff (to, from) =
    (λ m. ((to m).0, inr (to m).1), λ h. absurd (false-ne h.0))
  where
    false-ne : false ≡ true → ⊥
    false-ne e = cc
due-cons false u t j marks (reached, passed) (to, from) = (
  λ m. ((to m).0, inr (to m).1),
  λ (u, h). elim h [ inl e ↦ absurd (false-ne (passed e.1)) | inr b ↦ from (u, b) ],
)
  where
    false-ne : false ≡ true → ⊥
    false-ne e = cc

-- The marks are of the tables that are passed, if marks are wanted at all.
due_iff :
    (current_lsn : ℕ) (update_state : Bool) (t : ℕ) (tables : Map TableReplicationPhase)
    → Any (λ mark. mark.0 ≡ t) (due current_lsn update_state (active_tables tables))
      ↔ ((update_state ≡ true) × Any (λ e. (e.0 ≡ t) × IsPassed current_lsn e) tables)
unfolding due retain is_wanted is_done as_type
due_iff current_lsn update_state t [] = (λ h. absurd h, λ h. absurd h.1)
due_iff current_lsn update_state t ((j, TableReplicationPhase.sync_done lsn) ∷ rest) =
    due-cons (leb lsn current_lsn) update_state t j _
      (leb→le lsn current_lsn, le→leb lsn current_lsn) (due_iff current_lsn update_state t rest)
due_iff current_lsn update_state t ((j, TableReplicationPhase.ready) ∷ rest) =
    due-other (due_iff current_lsn update_state t rest)
due_iff current_lsn update_state t ((j, phase) ∷ rest) =
    due-other (due_iff current_lsn update_state t rest)

due-ready :
    (current_lsn : ℕ) (update_state : Bool) (tables : Map TableReplicationPhase)
    → All (λ mark. mark.1 ≡ TableReplicationPhase.ready) (due current_lsn update_state tables)
unfolding due
due-ready current_lsn update_state [] = tt
due-ready current_lsn update_state ((j, TableReplicationPhase.sync_done lsn) ∷ rest) =
    elim (Bool-cases (leb lsn current_lsn && update_state)) [
      | inl e ↦ rw e (refl, due-ready current_lsn update_state rest)
      | inr e ↦ rw e (due-ready current_lsn update_state rest)
    ]
due-ready current_lsn update_state ((j, phase) ∷ rest) = due-ready current_lsn update_state rest

module _ {S J D : Type 0} where
  After-store :
      {A : Type 0} (Q : A → S → Type 0) (F : S → Type 0) (w : Shared S J D)
      (r : Result StateStoreError A × S)
      → After Q F r
      → After (λ a v. Q a v.store) (λ v. F v.store) (hook_error r.0, record w { store = r.1 })
  unfolding hook_error
  After-store Q F w (ok a, s) h = h
  After-store Q F w (err e, s) h = h

  on_store-Triple :
      {A : Type 0} {P : S → Type 0} {Q : A → S → Type 0} {F : S → Type 0}
      {op : Exec S StateStoreError A}
      → Triple P op Q F
      → Triple {S = Shared S J D}
          (λ w. P w.store)
          (on_store op)
          (λ a w. Q a w.store)
          (λ w. F w.store)
  unfolding on_store
  on_store-Triple {Q = Q} {F = F} {op = op} k = record {
    run = λ w h. After-store Q F w (op w.store) (k.run w.store h);
  }

  ignore-Keeps :
      {A : Type 0} {I : Shared S J D → Type 0} {op : Act S J D A} → Keeps I op → Keeps I (ignore op)
  unfolding ignore
  ignore-Keeps {I = I} {op = op} k = record { run = λ w h. Keeps-after I (op w) (k.run w h) }

  After-both :
      {A : Type 0} (I : Shared S J D → Type 0) (r : Result ApplyLoopError A × Shared S J D)
      → I r.1
      → After (λ a. I) I r
  After-both I (ok a, w) h = h
  After-both I (err e, w) h = h

  -- What leaves the store alone keeps what holds of it.
  same-store :
      {A : Type 0} (P : S → Type 0) (op : Act S J D A)
      → ((w : Shared S J D) → (op w).1.store ≡ w.store)
      → Keeps (λ w. P w.store) op
  same-store P op same = record {
    run = λ w h. After-both (λ w. P w.store) (op w) (subst P (sym (same w)) h);
  }

module _ {S J D : Type 0} (states : StateStore S) (tasks : Tasks S J D)
    (log : S → List (ℕ × TableReplicationPhase)) (logs : Logs states tasks log) where
  abbrev Has : List (ℕ × TableReplicationPhase) → Shared S J D → Type 0
  Has done w = log w.store ≡ done

  mark_ready-Has :
      (t : ℕ) (done : List (ℕ × TableReplicationPhase))
      → Triple
          (Has done)
          (mark_ready states tasks t)
          (λ u. Has (done ++ (t, TableReplicationPhase.ready) ∷ []))
          (Has done)
  unfolding mark_ready
  mark_ready-Has t done = on_store-Triple (logs.updated t TableReplicationPhase.ready done)

  wait-Has :
      (t : ℕ) (done : List (ℕ × TableReplicationPhase))
      → Keeps (Has done) (wait_for_sync_done states tasks t)
  unfolding wait_for_sync_done
  wait-Has t done = record { run = λ w h. logs.waited t _ w ∙ h }

  -- `catchup` is not stored.
  catchup-store :
      (t : ℕ) (worker : TableSyncWorkerHandle J) (lsn : ℕ) (w : Shared S J D)
      → (on_worker t worker (set_phase_with states (TableReplicationPhase.catchup lsn)) w).1.store
        ≡ w.store
  unfolding on_worker set_phase_with set_phase should_store as_type ◌>>=◌ pure continue
  catchup-store t worker lsn w = refl

  handle_existing_worker-Has :
      (t : ℕ) (worker : TableSyncWorkerHandle J) (current_lsn : ℕ)
      (done : List (ℕ × TableReplicationPhase))
      → Keeps (Has done) (handle_existing_worker states tasks t worker current_lsn)
  unfolding handle_existing_worker
  handle_existing_worker-Has t worker current_lsn done =
      Triple-if _
        (Triple-bind (λ u. Has done)
          (same-store (λ s. log s ≡ done) _ (catchup-store t worker current_lsn))
          λ u. wait-Has t done)
        (Triple-pure true λ w h. h)

  handle_syncing_table-Has :
      (t current_lsn : ℕ) (done : List (ℕ × TableReplicationPhase))
      → Keeps (Has done) (handle_syncing_table states tasks t current_lsn)
  unfolding handle_syncing_table
  handle_syncing_table-Has t current_lsn done =
      Triple-bind (λ a. Has done) (Triple-gets _ λ w h. h) λ a. either a
    where
      either :
          (a : Option (TableSyncWorkerHandle J))
          → Keeps (Has done) (elim a [
            | none ↦ start_table_sync_worker states tasks t >>= λ u. pure true
            | some worker ↦ handle_existing_worker states tasks t worker current_lsn
          ])
      either none =
          Triple-bind (λ a. Has done)
            (same-store (λ s. log s ≡ done) _ (start-store states tasks t))
            λ u. Triple-pure true λ w h. h
      either (some worker) = handle_existing_worker-Has t worker current_lsn done

  -- What was marked when a mark failed.
  abbrev pub MarkedPart :
      List (ℕ × TableReplicationPhase) → List (ℕ × TableReplicationPhase) → Shared S J D → Type 0
  MarkedPart done marks w =
      (first : List (ℕ × TableReplicationPhase)) × (rest : List (ℕ × TableReplicationPhase))
      × (marks ≡ first ++ rest)
      × (log w.store ≡ done ++ first)

  abbrev Marks :
      List (ℕ × TableReplicationPhase)
      → List (ℕ × TableReplicationPhase)
      → Act S J D (Unit {0})
      → Type 0
  Marks done marks op = Triple (Has done) op (λ u. Has (done ++ marks)) (MarkedPart done marks)

  none-marked :
      (done marks : List (ℕ × TableReplicationPhase)) (w : Shared S J D)
      → Has done w
      → MarkedPart done marks w
  none-marked done marks w h = ([], marks, refl, h ∙ sym (append-nil done))

  Marks-cons :
      (t : ℕ) (done marks : List (ℕ × TableReplicationPhase)) (rest : Act S J D (Unit {0}))
      → ((done : List (ℕ × TableReplicationPhase)) → Marks done marks rest)
      → Marks done
          ((t, TableReplicationPhase.ready) ∷ marks)
          (mark_ready states tasks t >>= λ u. rest)
  Marks-cons t done marks rest k =
      let mark : ℕ × TableReplicationPhase = (t, TableReplicationPhase.ready) in
      Triple-bind (λ u. Has (done ++ mark ∷ []))
        (Triple-mono (λ u w h. h) (λ w h. none-marked done (mark ∷ marks) w h)
          (mark_ready-Has t done))
        λ u.
          Triple-mono (λ u w h. h ∙ append_assoc done (mark ∷ []) marks)
            (λ w (first, last, e, h).
              (mark ∷ first, last, ap (λ l. mark ∷ l) e, h ∙ append_assoc done (mark ∷ []) first))
            (k (done ++ mark ∷ []))

  Marks-skip :
      (done marks : List (ℕ × TableReplicationPhase)) (op rest : Act S J D (Unit {0}))
      → Keeps (Has done) op
      → Marks done marks rest
      → Marks done marks (op >>= λ u. rest)
  Marks-skip done marks op rest kop k =
      Triple-bind (λ u. Has done) (Triple-mono (λ u w h. h) (λ w h. none-marked done marks w h) kop)
        λ u. k

  process_tables-Marks :
      (current_lsn : ℕ) (update_state : Bool) (tables : Map TableReplicationPhase)
      (done : List (ℕ × TableReplicationPhase))
      → Marks done
          (due current_lsn update_state tables)
          (process_tables states tasks current_lsn update_state tables)
  unfolding process_tables process_table due
  process_tables-Marks current_lsn update_state [] done =
      Triple-pure tt λ w h. h ∙ sym (append-nil done)
  process_tables-Marks current_lsn update_state ((t, TableReplicationPhase.sync_done lsn) ∷ rest)
        done =
      elim (Bool-cases (leb lsn current_lsn && update_state)) [
        | inl e ↦ rw e (Marks-cons t done _ _ (process_tables-Marks current_lsn update_state rest))
        | inr e ↦ rw e (
            Marks-skip done _ _ _ (Triple-pure tt λ w h. h)
              (process_tables-Marks current_lsn update_state rest done))
      ]
  process_tables-Marks current_lsn update_state ((t, phase) ∷ rest) done =
      Marks-skip done _ _ _ (ignore-Keeps (handle_syncing_table-Has t current_lsn done))
        (process_tables-Marks current_lsn update_state rest done)

  -- When the apply worker processes the syncing tables at a position, it marks as ready, in the state store,
  -- exactly the tables that the store had as synchronised up to at most that position, and none if no
  -- update is wanted; it stores nothing else, and never ends the loop. If a mark fails, the marks before
  -- it are stored and it fails.
  pub process_syncing_tables-marks :
      (current_lsn : ℕ) (update_state : Bool) (w : Shared S J D)
      → (marks : List (ℕ × TableReplicationPhase)) × All
          (λ mark. mark.1 ≡ TableReplicationPhase.ready)
          marks
        × ((t : ℕ)
            → Any (λ mark. mark.0 ≡ t) marks ↔ (
                (update_state ≡ true)
                × Any (λ e. (e.0 ≡ t) × IsPassed current_lsn e) (states.cache w.store)))
        × After
            (λ go_on v. (go_on ≡ true) × (log v.store ≡ log w.store ++ marks))
            (MarkedPart (log w.store) marks)
            (process_syncing_tables states tasks current_lsn update_state w)
  unfolding process_syncing_tables on_store ◌>>=◌ hook_error
  process_syncing_tables-marks current_lsn update_state w = (
    due current_lsn update_state (active_tables (states.cache w.store)),
    due-ready current_lsn update_state _,
    λ t. due_iff current_lsn update_state t (states.cache w.store),
    rw (get_states-lem states w.store) (
        (Triple-bind
            (λ u.
              Has (
                log w.store ++ due current_lsn update_state (active_tables (states.cache w.store))))
            (process_tables-Marks current_lsn update_state (active_tables (states.cache w.store))
              (log w.store))
            λ u. Triple-pure true λ v h. (refl, h)).run
          w refl),
  )
