-- ===== src/Workers/Apply/Initialize.antt =====
-- etl/src/workers/apply.rs: lemmas on `initialize`.
use pg_replicate.Base.{
  ℕ, ◌≡◌, refl, sym, subst, ◌∙◌, inl, inr, Bool, true, false, Option, none, some, List, [], ◌∷◌, ok,
  ◌>>=◌, pure, gets, continue, All, arith, if-elim, ==_refl,
}
use pg_replicate.Base.Assoc.{
  Map, get, insert, get-insert, contains_key, contains_key-get, contains_key-cases,
  insert-contains_key, retain,
}
use pg_replicate.State.Phase.{TableReplicationPhase}
use pg_replicate.State.Store.{StateStore}
use pg_replicate.Replication.Common.{is_wanted}
use pg_replicate.Workers.TableSync.{TableSyncWorkerHandle}
use pg_replicate.Workers.Pool.{add_active}
use pg_replicate.Workers.Apply.{
  Shared, Tasks, Act, on_store, hook_error, ignore, start_table_sync_worker, start_missing,
  initialize,
}
use pg_replicate.Workers.Apply.Starts.{active_tables, get_states-lem, with_worker, start-new}

insert-kept :
    {V : Type 0} (m : Map V) (k j : ℕ) (v w : V)
    → get m k ≡ none
    → get m j ≡ some w
    → get (insert m k v) j ≡ some w
insert-kept m k j v w e h = ground (arith, get-insert m k j v)

-- The keys that stay are keys.
retain-keys :
    {V : Type 0} (keep : ℕ → V → Bool) (all m : Map V)
    → All (λ e. contains_key all e.0 ≡ true) m
    → All (λ e. contains_key all e.0 ≡ true) (retain keep m)
unfolding retain
retain-keys keep all [] h = tt
retain-keys keep all ((k, v) ∷ m) (known, h) =
    if-elim (All (λ e. contains_key all e.0 ≡ true)) (keep k v) _ _
      (λ e. (known, retain-keys keep all m h)) λ e. retain-keys keep all m h

keys-in :
    {V : Type 0} (all m : Map V)
    → ((k : ℕ) → contains_key m k ≡ true → contains_key all k ≡ true)
    → All (λ e. contains_key all e.0 ≡ true) m
unfolding contains_key
keys-in all [] sub = tt
keys-in all ((k, v) ∷ m) sub =
    (sub k (ground (arith, ==_refl k)), keys-in all m λ j h. sub j (ground (arith, h)))

module _ {S J D : Type 0} (states : StateStore S) (tasks : Tasks S J D) where
  -- What starting workers leaves as it was.
  pub record IsMore (w v : Shared S J D) : Type 0 where
    pub same : v.store ≡ w.store
    pub kept :
        (j : ℕ) (worker : TableSyncWorkerHandle J)
        → get w.pool.active j ≡ some worker
        → get v.pool.active j ≡ some worker

  abbrev Covers : List (ℕ × TableReplicationPhase) → Shared S J D → Type 0
  Covers tables v = All (λ e. contains_key v.pool.active e.0 ≡ true) tables

  abbrev start_one : ℕ → Option (TableSyncWorkerHandle J) → Act S J D (Unit {0})
  start_one t active = elim active [
    | none ↦ ignore (start_table_sync_worker states tasks t)
    | some worker ↦ pure tt
  ]

  kept-key :
      (t : ℕ) (w v : Shared S J D)
      → IsMore w v
      → contains_key w.pool.active t ≡ true
      → contains_key v.pool.active t ≡ true
  kept-key t w v more there = elim (contains_key-cases w.pool.active t) [
    | inl (new, _) ↦ cc (there, new)
    | inr (worker, _, e) ↦ rw (contains_key-get v.pool.active t, more.kept t worker e) refl
  ]

  start_one-lem :
      (t : ℕ) (w : Shared S J D)
      → contains_key (states.cache w.store) t ≡ true
      → (v : Shared S J D) × (start_one t (get w.pool.active t) w ≡ (ok tt, v))
        × IsMore w v
        × (contains_key v.pool.active t ≡ true)
  unfolding ignore pure add_active
  start_one-lem t w known = elim (contains_key-cases w.pool.active t) [
    | inr (worker, there, e) ↦ (w, rw e refl, record { same = refl; kept = λ j worker h. h }, there)
    | inl (new, e) ↦ elim (contains_key-cases (states.cache w.store) t) [
      | inl (unknown, _) ↦ absurd (true-ne (sym known ∙ unknown))
      | inr (phase, _, found) ↦ (
        with_worker states tasks t phase w,
        rw (e, start-new states tasks t w phase new found) refl,
        record { same = refl; kept = λ j worker h. insert-kept w.pool.active t j _ worker e h },
        insert-contains_key w.pool.active t _,
      )
    ]
  ]
    where
      true-ne : true ≡ false → ⊥
      true-ne e = cc

  start_missing-lem :
      (tables : List (ℕ × TableReplicationPhase)) (w : Shared S J D)
      → All (λ e. contains_key (states.cache w.store) e.0 ≡ true) tables
      → (v : Shared S J D) × (start_missing states tasks tables w ≡ (ok tt, v))
        × IsMore w v
        × Covers tables v
  unfolding start_missing ◌>>=◌ gets continue
  start_missing-lem [] w known = (w, refl, record { same = refl; kept = λ j worker h. h }, tt)
  start_missing-lem ((t, phase) ∷ tables) w (here, known) =
      let (u, e, more, there) = start_one-lem t w here in
      let (v, e', rest, covers) = start_missing-lem tables u (
        subst (λ s. All (λ e. contains_key (states.cache s) e.0 ≡ true) tables) (sym more.same)
          known) in
      (
        v,
        rw (e, e') refl,
        record {
          same = rest.same ∙ more.same;
          kept = λ j worker h. rest.kept j worker (more.kept j worker h);
        },
        (kept-key t u v rest there, covers),
      )

  -- When its loop starts, the apply worker sees to it that every table of the state store that is not done
  -- has an active table sync worker; the workers that were active stay, and the store is only read.
  pub initialize-Covers :
      (w : Shared S J D)
      → (v : Shared S J D) × (initialize states tasks w ≡ (ok tt, v))
        × All (λ e. contains_key v.pool.active e.0 ≡ true) (active_tables (states.cache w.store))
        × ((j : ℕ) (worker : TableSyncWorkerHandle J)
            → get w.pool.active j ≡ some worker
            → get v.pool.active j ≡ some worker)
        × (v.store ≡ w.store)
  unfolding initialize on_store hook_error ◌>>=◌ continue
  initialize-Covers w =
      let (v, e, more, covers) = start_missing-lem (active_tables (states.cache w.store)) w (
        retain-keys (is_wanted false) (states.cache w.store) (states.cache w.store)
          (keys-in (states.cache w.store) (states.cache w.store) λ k h. h)) in
      (v, rw (get_states-lem states w.store, e) refl, covers, more.kept, more.same)
