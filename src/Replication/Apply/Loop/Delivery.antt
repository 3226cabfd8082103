-- ===== src/Replication/Apply/Loop/Delivery.antt =====
-- The condition on the surroundings of the apply loop, and the invariant of the loop.
use pg_replicate.Base.{
  ap, ◌∙◌, append-nil, sym, ℕ, ◌≡◌, subst, ◌⊎◌, inl, inr, Bool, true, false, Option, none, some,
  List, [], ◌∷◌, ◌++◌, Any, Any-append_left, Any-append_right, append_assoc, arith, ltb,
  if◌then◌else◌,
}
use pg_replicate.Base.Triple.{Triple, Keeps}
use pg_replicate.Conversions.Event.{Event, CommitEvent}
use pg_replicate.Replication.Status.{
  StatusUpdate, update_write_lsn, update_flush_lsn, update_apply_lsn,
}
use pg_replicate.Replication.Apply.Interface.{Surroundings}
use pg_replicate.Replication.Apply.State.{
  ApplyLoopState, HandleMessageResult, EndBatch, exclusive, inclusive, Loop, later_end,
  update_last_commit_end_lsn,
}
use pg_replicate.Replication.Apply.Messages.Keep.{IsHonest}
use pg_replicate.Replication.Apply.Loop.{push_result}

-- Where the transaction of a commit ends.
abbrev pub commit_end : {X : Type 0} → Event X → Option ℕ
commit_end (Event.commit e) = some e.end_lsn
commit_end event = none

-- The commit that ends at `lsn` is among the events.
abbrev pub IsEnd : {X : Type 0} → List (Event X) → ℕ → Type 0
IsEnd es lsn = Any (λ e. commit_end e ≡ some lsn) es

-- Everything up to `lsn` is safe: it is where the loop started, or the end of a transaction whose
-- commit the destination has.
abbrev pub IsSafe : {X : Type 0} → ℕ → List (Event X) → ℕ → Type 0
IsSafe start_lsn done lsn = (lsn ≡ start_lsn) ⊎ IsEnd done lsn

-- `log` is what the destination has taken. A batch that `write_events` takes joins it, one that it
-- refuses does not, and nothing else changes it. `J` is a property of the world that each operation
-- keeps, where `process_syncing_tables` with `update_state` on and a report to Postgres are only
-- called with a safe position.
pub record Delivers {W X : Type 0} (env : Surroundings W X) (start_lsn : ℕ)
    (log : W → List (Event X)) (J : W → Type 0) : Type 0 where
  pub written :
      (es done : List (Event X))
      → Triple
          (λ w. (log w ≡ done) × J w)
          (env.write_events es)
          (λ _ w. (log w ≡ done ++ es) × J w)
          (λ w. (log w ≡ done) × J w)
  pub asked :
      (done : List (Event X)) (table_id lsn : ℕ)
      → Keeps (λ w. (log w ≡ done) × J w) (env.hook.should_apply_changes table_id lsn)
  pub looked :
      (done : List (Event X)) (lsn : ℕ)
      → Keeps (λ w. (log w ≡ done) × J w) (env.hook.process_syncing_tables lsn false)
  pub synced :
      (done : List (Event X)) (lsn : ℕ)
      → IsSafe start_lsn done lsn
      → Keeps (λ w. (log w ≡ done) × J w) (env.hook.process_syncing_tables lsn true)
  pub skipped :
      (done : List (Event X)) (table_id : ℕ)
      → Keeps (λ w. (log w ≡ done) × J w) (env.hook.skip_table table_id)
  pub timed :
      (done : List (Event X)) (w : W)
      → (log w ≡ done) × J w
      → (log (env.link.now w).1 ≡ done) × J (env.link.now w).1
  pub stamped : (done : List (Event X)) → Keeps (λ w. (log w ≡ done) × J w) env.link.epoch_elapsed
  pub reported :
      (done : List (Event X)) (write_lsn lsn at : ℕ)
      → IsSafe start_lsn done lsn
      → Keeps (λ w. (log w ≡ done) × J w) (env.link.standby_status_update write_lsn lsn lsn at)

-- The flush and the apply position are the same, and safe.
abbrev pub IsFlushed : {X : Type 0} → ℕ → List (Event X) → StatusUpdate → Type 0
IsFlushed start_lsn done update =
    IsSafe start_lsn done update.flush_lsn × (update.apply_lsn ≡ update.flush_lsn)

-- A commit that waits for its acknowledgement is among the events.
abbrev pub HasEnd : {X : Type 0} → List (Event X) → Option ℕ → Type 0
HasEnd es o = (lsn : ℕ) → o ≡ some lsn → IsEnd es lsn

-- What is done and what is in the batch make up the events so far, and a commit that waits is there.
abbrev pub IsPending : {X : Type 0} → List (Event X) → List (Event X) → Option ℕ → Type 0
IsPending total es o = HasEnd es o × (es ≡ total)

-- What a result adds to the batch.
abbrev pub accepted : {X : Type 0} → HandleMessageResult X → List (Event X)
accepted result = elim result.event [
  | none ↦ []
  | some event ↦ elim result.end_batch [ some exclusive ↦ [] | _ ↦ event ∷ [] ]
]

pub IsSafe-more :
    {X : Type 0} (start_lsn : ℕ) (done es : List (Event X)) (lsn : ℕ)
    → IsSafe start_lsn done lsn
    → IsSafe start_lsn (done ++ es) lsn
IsSafe-more start_lsn done es lsn (inl h) = inl h
IsSafe-more start_lsn done es lsn (inr h) = inr (Any-append_left _ done es h)

pub IsFlushed-more :
    {X : Type 0} (start_lsn : ℕ) (done es : List (Event X)) (update : StatusUpdate)
    → IsFlushed start_lsn done update
    → IsFlushed start_lsn (done ++ es) update
IsFlushed-more start_lsn done es update (safe, same) = (IsSafe-more start_lsn done es _ safe, same)

pub IsFlushed-write :
    {X : Type 0} (start_lsn : ℕ) (done : List (Event X)) (lsn : ℕ) (update : StatusUpdate)
    → IsFlushed start_lsn done update
    → IsFlushed start_lsn done (update_write_lsn lsn update)
unfolding update_write_lsn
IsFlushed-write start_lsn done lsn update h = ground arith

pub IsFlushed-acknowledge :
    {X : Type 0} (start_lsn : ℕ) (done : List (Event X)) (lsn : ℕ) (update : StatusUpdate)
    → IsEnd done lsn
    → IsFlushed start_lsn done update
    → IsFlushed start_lsn done (update_apply_lsn lsn (update_flush_lsn lsn update))
unfolding update_apply_lsn update_flush_lsn
IsFlushed-acknowledge start_lsn done lsn update end h = ground arith

HasEnd-if :
    {X : Type 0} (es : List (Event X)) (b : Bool) (x y : Option ℕ)
    → HasEnd es x
    → HasEnd es y
    → HasEnd es (if b then x else y)
HasEnd-if es true x y hx hy = hx
HasEnd-if es false x y hx hy = hy

-- The later of two ends is an end.
HasEnd-later :
    {X : Type 0} (es : List (Event X)) (old new : Option ℕ)
    → HasEnd es old
    → HasEnd es new
    → HasEnd es (later_end old new)
unfolding later_end
HasEnd-later es old none ho hn = ho
HasEnd-later es none (some n) ho hn = hn
HasEnd-later es (some o) (some n) ho hn = HasEnd-if es (ltb o n) _ _ hn ho

commit_event :
    {X : Type 0} (event : Event X) (c : CommitEvent) (lsn : ℕ)
    → some event ≡ some (Event.commit c)
    → c.end_lsn ≡ lsn
    → commit_end event ≡ some lsn
commit_event event c lsn is same = ground arith

module _ {W X : Type 0} (start_lsn : ℕ) (log : W → List (Event X)) (J : W → Type 0) where
  -- The world when the destination has `done`.
  abbrev pub At : List (Event X) → W → Type 0
  At done w = (log w ≡ done) × J w

  -- The loop's own state when the destination has `done`.
  abbrev pub Own : List (Event X) → List (Event X) → ApplyLoopState X → Type 0
  Own total done st =
      IsFlushed start_lsn done st.next_status_update
      × IsPending total (done ++ st.events_batch) st.last_commit_end_lsn

  abbrev pub Inv : List (Event X) → List (Event X) → Loop W X → Type 0
  Inv total done s = At done s.world × Own total done s.state

  -- The same, whatever the destination has.
  abbrev pub Sound : List (Event X) → Loop W X → Type 0
  Sound total s = (done : List (Event X)) × Inv total done s

  -- What is left of it when the loop fails: the destination has the first of the events.
  abbrev pub Failed : List (Event X) → Loop W X → Type 0
  Failed total s =
      (done : List (Event X)) × (rest : List (Event X)) × At done s.world
      × IsFlushed start_lsn done s.state.next_status_update
      × (done ++ rest ≡ total)

  push_event :
      (total done : List (Event X)) (event : Event X) (end_lsn : Option ℕ) (s : Loop W X)
      → ((lsn : ℕ) → end_lsn ≡ some lsn → commit_end event ≡ some lsn)
      → Inv total done s
      → IsPending
          (total ++ event ∷ [])
          (done ++ (s.state.events_batch ++ event ∷ []))
          (later_end s.state.last_commit_end_lsn end_lsn)
  push_event total done event end_lsn s ends (at, (flushed, (pending, all))) = (
    HasEnd-later _ _ _
        (λ lsn e.
          subst (λ es. IsEnd es lsn) (append_assoc done s.state.events_batch (event ∷ []))
            (Any-append_left _ (done ++ s.state.events_batch) _ (pending lsn e)))
        (λ lsn e.
          Any-append_right _ done _ (Any-append_right _ s.state.events_batch _ (inl (ends lsn e)))),
    sym (append_assoc done s.state.events_batch (event ∷ [])) ∙ ap (λ es. es ++ event ∷ []) all,
  )

  push_fields-Inv :
      (total done : List (Event X)) (event : Option (Event X)) (end_lsn : Option ℕ)
      (end_batch : Option EndBatch) (skip : Option ℕ) (s : Loop W X)
      → let result : HandleMessageResult X = record {
        event = event;
        end_lsn = end_lsn;
        end_batch = end_batch;
        skip_table = skip;
      } in
        IsHonest result
        → Inv total done s
        → Inv (total ++ accepted result) done (record s { state = push_result result s.state })
  unfolding push_result update_last_commit_end_lsn
  push_fields-Inv total done none end_lsn end_batch skip s honest h = rw (append-nil total) h
  push_fields-Inv total done (some event) end_lsn (some exclusive) skip s honest h =
      rw (append-nil total) h
  push_fields-Inv total done (some event) end_lsn (some inclusive) skip s honest
        (at, (flushed, p)) =
      (
        at,
        (
          flushed,
          push_event total done event end_lsn s
              (λ lsn e. let (c, is, same, _) = honest lsn e in commit_event event c lsn is same)
              (at, (flushed, p)),
        ),
      )
  push_fields-Inv total done (some event) end_lsn none skip s honest (at, (flushed, p)) = (
    at,
    (
      flushed,
      push_event total done event end_lsn s
          (λ lsn e. let (c, is, same, _) = honest lsn e in commit_event event c lsn is same)
          (at, (flushed, p)),
    ),
  )

  -- An honest result joins the batch.
  pub push_result-Inv :
      (total done : List (Event X)) (result : HandleMessageResult X) (s : Loop W X)
      → IsHonest result
      → Inv total done s
      → Inv (total ++ accepted result) done (record s { state = push_result result s.state })
  push_result-Inv total done result s honest h =
      push_fields-Inv total done result.event result.end_lsn result.end_batch result.skip_table s
        honest h
