-- ===== src/Pipeline/States.antt =====
-- etl/src/pipeline.rs: lemmas on the setting up of the states of tables.
use pg_replicate.Base.{
  ℕ, ◌≡◌, refl, inl, inr, true, false, Bool-cases, some, List, [], ◌∷◌, Result, ok, err, ◌>>=◌,
  pure, All, arith,
}
use pg_replicate.Base.Assoc.{
  Map, get, insert, get-insert, contains_key, contains_key-get, contains_key-insert,
  contains_key-cases, insert-contains_key,
}
use pg_replicate.Base.Triple.{After, After-mono, Triple-continue}
use pg_replicate.State.Phase.{TableReplicationPhase}
use pg_replicate.State.Store.{StateStore, StateStoreError}
use pg_replicate.Pipeline.{
  PipelineError, PipelineWorld, Links, store_error, on_store, add_state, add_states, load_and_add,
}

module _ {S D H : Type 0} (states : StateStore S) (links : Links S D H)
    (known : Map TableReplicationPhase) where
  -- Every state that was known is as it was.
  abbrev KeepsKnown : PipelineWorld S D → Type 0
  KeepsKnown w =
      (t : ℕ) (phase : TableReplicationPhase)
      → get known t ≡ some phase
      → get (states.cache w.store) t ≡ some phase

  abbrev HasState : PipelineWorld S D → ℕ → Type 0
  HasState w t = contains_key (states.cache w.store) t ≡ true

  -- What adding a state leaves, for the tables that had one.
  abbrev Adds : ℕ → PipelineWorld S D → PipelineWorld S D → Type 0
  Adds t w v = KeepsKnown v × HasState v t × ((j : ℕ) → HasState w j → HasState v j)

  known-HasState :
      (t : ℕ) (w : PipelineWorld S D) → KeepsKnown w → contains_key known t ≡ true → HasState w t
  known-HasState t w kept there = elim (contains_key-cases known t) [
    | inl (absent, _) ↦ cc (there, absent)
    | inr (phase, _, e) ↦ rw (contains_key-get (states.cache w.store) t, kept t phase e) refl
  ]

  -- The store with a new state.
  insert-Adds :
      (t : ℕ) (w v : PipelineWorld S D)
      → KeepsKnown w
      → contains_key known t ≡ false
      → states.cache v.store ≡ insert (states.cache w.store) t TableReplicationPhase.init
      → Adds t w v
  insert-Adds t w v kept new e = (
    λ j phase is. rw e (
        ground (
          arith,
          get-insert (states.cache w.store) t j TableReplicationPhase.init,
          contains_key-get known t,
          kept j phase is,
          is,
          new,
        )),
    rw e (insert-contains_key (states.cache w.store) t TableReplicationPhase.init),
    λ j has. rw e (
        ground
          (arith, contains_key-insert (states.cache w.store) j t TableReplicationPhase.init, has)),
  )

  After-stored :
      (t : ℕ) (w v : PipelineWorld S D) (r : Result StateStoreError (Unit {0}))
      → (r ≡ ok tt → Adds t w v)
      → After (λ u. Adds t w) (λ v. Unit {0}) (store_error r, v)
  unfolding store_error
  After-stored t w v (ok tt) h = h refl
  After-stored t w v (err e) h = tt

  add_state-Adds :
      (t : ℕ) (w : PipelineWorld S D)
      → KeepsKnown w
      → After (λ u. Adds t w) (λ v. Unit {0}) (add_state states links (contains_key known t) t w)
  unfolding add_state on_store pure
  add_state-Adds t w kept = elim (Bool-cases (contains_key known t)) [
    | inl e ↦ rw (add_state, e) (kept, known-HasState t w kept e, λ j has. has)
    | inr e ↦
        rw (add_state, e)
          (After-stored t w _ _ λ good.
            insert-Adds t w
              (record w {
                store =
                    (states.update_table_replication_state t TableReplicationPhase.init w.store).1;
              })
              kept e (states.update-ok t TableReplicationPhase.init w.store good))
  ]

  -- All the tables, one after the other.
  abbrev AddsAll : List ℕ → PipelineWorld S D → PipelineWorld S D → Type 0
  AddsAll ts w v = KeepsKnown v × All (HasState v) ts × ((j : ℕ) → HasState w j → HasState v j)

  add_states-AddsAll :
      (ts : List ℕ) (w : PipelineWorld S D)
      → KeepsKnown w
      → After (λ u. AddsAll ts w) (λ v. Unit {0}) (add_states states links known ts w)
  unfolding add_states pure ◌>>=◌
  add_states-AddsAll [] w kept = (kept, tt, λ j has. has)
  add_states-AddsAll (t ∷ ts) w kept =
      Triple-continue {E = PipelineError} {F = λ v. Unit {0}} {A = Unit {0}} {B = Unit {0}}
        {M = λ u. Adds t w} {Q = λ u. AddsAll (t ∷ ts) w} _ _
        (λ u. record {
          run = λ v (kept', has, more).
              After-mono {R = λ u. AddsAll (t ∷ ts) w} (add_states states links known ts v)
                (λ u x (kept'', all, more').
                  (kept'', (more' t has, all), λ j h. more' j (more j h)))
                (λ x h. tt) (add_states-AddsAll ts v kept');
        })
        (add_state-Adds t w kept)

module _ {S D H : Type 0} (states : StateStore S) (links : Links S D H) where
  add_loaded-IsSetUp :
      (table_ids : List ℕ) (w : PipelineWorld S D) (r : Result StateStoreError (Unit {0}) × S)
      → After
          (λ u v.
            All (λ t. contains_key (states.cache v.store) t ≡ true) table_ids
            × ((t : ℕ) (phase : TableReplicationPhase)
                → get (states.cache r.1) t ≡ some phase
                → get (states.cache v.store) t ≡ some phase))
          (λ v. Unit {0})
          (((λ w. (store_error r.0, record w { store = r.1 })) >>= λ u.
              on_store states.get_table_replication_states >>= λ known.
              add_states states links known table_ids)
            w)
  unfolding ◌>>=◌ on_store store_error
  add_loaded-IsSetUp table_ids w (err e, s) = tt
  add_loaded-IsSetUp table_ids w (ok tt, s) = rw (states.states_lem s) (
      After-mono (add_states states links (states.cache s) table_ids (record w { store = s }))
        (λ u v (kept, all, more). (all, kept)) (λ v h. tt)
        (add_states-AddsAll states links (states.cache s) table_ids (record w { store = s })
          λ t phase e. e))

  -- After the tables of a publication were set up, each of them has a state in the store, and every state that
  -- was loaded is as it was.
  pub load_and_add-IsSetUp :
      (table_ids : List ℕ) (w : PipelineWorld S D)
      → After
          (λ u v.
            All (λ t. contains_key (states.cache v.store) t ≡ true) table_ids
            × ((t : ℕ) (phase : TableReplicationPhase)
                → get (states.cache (links.load_table_replication_states w.store).1) t ≡ some phase
                → get (states.cache v.store) t ≡ some phase))
          (λ v. Unit {0})
          (load_and_add states links table_ids w)
  unfolding load_and_add on_store ◌>>=◌
  load_and_add-IsSetUp table_ids w =
      add_loaded-IsSetUp table_ids w (links.load_table_replication_states w.store)
