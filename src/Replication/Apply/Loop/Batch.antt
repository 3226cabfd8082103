-- ===== src/Replication/Apply/Loop/Batch.antt =====
-- etl/src/replication/apply.rs: lemmas on the sending of a batch and the acknowledgement of its commits.
use pg_replicate.Base.{
  ◌∙◌, ℕ, ◌≡◌, refl, subst, inl, inr, Bool, true, Option, none, some, List, [], ◌∷◌, ◌++◌,
  append-nil, Result, ok, err, Exec, is_empty, Bool-cases,
}
use pg_replicate.Base.Triple.{
  After, Triple, Triple-pure, Triple-gets, Triple-if, Triple-bind, Triple-mono, Triple-some,
}
use pg_replicate.Conversions.Event.{Event}
use pg_replicate.Replication.Apply.Interface.{ApplyLoopError, Surroundings}
use pg_replicate.Replication.Apply.State.{ApplyLoopState, EndBatch, Loop, on_state, on_world}
use pg_replicate.Replication.Apply.Messages.Keep.{Survives}
use pg_replicate.Replication.Apply.Loop.{
  BatchConfig, take_batch, read_clock, write_batch, flush_batch, skip_if_told,
  take_last_commit_end_lsn, acknowledge, send_batch, try_send_batch,
}
use pg_replicate.Replication.Apply.Loop.Delivery.{
  At, Own, IsSafe, Delivers, IsFlushed, HasEnd, IsPending, IsFlushed-more, IsFlushed-acknowledge,
  Inv, Sound, Failed,
}

module _ {W X : Type 0} where
  After-on_world :
      {A : Type 0} (Q : A → W → Type 0) (F : W → Type 0) (R : ApplyLoopState X → Type 0)
      (s : Loop W X) (r : Result ApplyLoopError A × W)
      → R s.state
      → After Q F r
      → After
          (λ a s'. Q a s'.world × R s'.state)
          (λ s'. F s'.world × R s'.state)
          (r.0, record s { world = r.1 })
  After-on_world Q F R s (ok a, w) h q = (q, h)
  After-on_world Q F R s (err e, w) h f = (f, h)

  -- An operation on the world leaves the loop's own state as it is.
  pub Triple-on_world :
      {A : Type 0} {P : W → Type 0} {Q : A → W → Type 0} {F : W → Type 0}
      (R : ApplyLoopState X → Type 0) {op : Exec W ApplyLoopError A}
      → Triple P op Q F
      → Triple
          (λ s. P s.world × R s.state)
          (on_world op)
          (λ a s. Q a s.world × R s.state)
          (λ s. F s.world × R s.state)
  unfolding on_world
  Triple-on_world R {op = op} k = record {
    run = λ s (p, h). After-on_world _ _ R s (op s.world) h (k.run s.world p);
  }

is_empty_nil : {X : Type 0} (es : List (Event X)) → is_empty es ≡ true → es ≡ []
is_empty_nil [] e = refl
is_empty_nil (x ∷ es) e = cc

module _ {W X : Type 0} (env : Surroundings W X) (start_lsn : ℕ) (log : W → List (Event X))
    (J : W → Type 0) (total : List (Event X)) (delivers : Delivers env start_lsn log J) where
  abbrev World : List (Event X) → Loop W X → Type 0
  World done s = At start_lsn log J done s.world

  pub Survives-Inv : (done : List (Event X)) → Survives env (Inv start_lsn log J total done)
  Survives-Inv done = record {
    transaction = λ s lsn h. h;
    ask = λ table_id lsn.
        Triple-on_world (Own start_lsn log J total done) (delivers.asked done table_id lsn);
    look = λ lsn. Triple-on_world (Own start_lsn log J total done) (delivers.looked done lsn);
  }

  pub Failed-Inv :
      (done : List (Event X)) (s : Loop W X)
      → Inv start_lsn log J total done s
      → Failed start_lsn log J total s
  Failed-Inv done s (at, (flushed, (_, all))) = (done, s.state.events_batch, at, flushed, all)

  -- The loop's own state while the batch `es` is on its way.
  abbrev Taken : List (Event X) → List (Event X) → ApplyLoopState X → Type 0
  Taken done es st =
      IsFlushed start_lsn done st.next_status_update
      × IsPending total (done ++ es) st.last_commit_end_lsn
      × (st.events_batch ≡ [])

  -- The loop's own state once the batch is written, and a commit that may still be acknowledged.
  abbrev Clean : List (Event X) → Option ℕ → ApplyLoopState X → Type 0
  Clean done o st =
      IsFlushed start_lsn done st.next_status_update
      × IsPending total done st.last_commit_end_lsn
      × HasEnd done o
      × (st.events_batch ≡ [])

  abbrev Drained : Option ℕ → Loop W X → Type 0
  Drained o s = (done : List (Event X)) × (World done s × Clean done o s.state)

  Failed-Clean :
      (done : List (Event X)) (o : Option ℕ) (s : Loop W X)
      → World done s × Clean done o s.state
      → Failed start_lsn log J total s
  Failed-Clean done o s (at, (flushed, (_, all), _, _)) =
      (done, [], at, flushed, append-nil done ∙ all)

  Failed-Taken :
      (done es : List (Event X)) (s : Loop W X)
      → World done s × Taken done es s.state
      → Failed start_lsn log J total s
  Failed-Taken done es s (at, (flushed, (_, all), _)) = (done, es, at, flushed, all)

  no_end : (es : List (Event X)) → HasEnd es none
  no_end es lsn e = cc

  Clean-Taken :
      (done es : List (Event X)) (st : ApplyLoopState X)
      → Taken done es st
      → Clean (done ++ es) none st
  Clean-Taken done es st (flushed, pending, empty) =
      (IsFlushed-more start_lsn done es st.next_status_update flushed, pending, no_end _, empty)

  Sound-Drained : (o : Option ℕ) (s : Loop W X) → Drained o s → Sound start_lsn log J total s
  Sound-Drained o s (done, (at, (flushed, pending, _, empty))) =
      (done, (at, (flushed, rw (empty, append-nil done) pending)))

  take_batch-Taken :
      (done : List (Event X))
      → Triple
          (Inv start_lsn log J total done)
          (take_batch env)
          (λ es s. World done s × Taken done es s.state)
          (Failed start_lsn log J total)
  unfolding take_batch
  take_batch-Taken done = record {
    run = λ s (at, (flushed, pending)). (at, (flushed, pending, refl));
  }

  read_clock-Keeps :
      (done : List (Event X)) (R : ApplyLoopState X → Type 0) (F : Loop W X → Type 0)
      → Triple (λ s. World done s × R s.state) (read_clock env) (λ _ s. World done s × R s.state) F
  unfolding read_clock
  read_clock-Keeps done R F = record { run = λ s (at, h). (delivers.timed done s.world at, h) }

  write_batch-Drained :
      (done : List (Event X))
      → Triple
          (Inv start_lsn log J total done)
          (write_batch env)
          (λ _. Drained none)
          (Failed start_lsn log J total)
  unfolding write_batch on_state
  write_batch-Drained done = Triple-bind _ (take_batch-Taken done) λ es.
      Triple-bind (λ _ s. World (done ++ es) s × Taken done es s.state)
        (Triple-mono (λ _ s h. h) (λ s. Failed-Taken done es s)
          (Triple-on_world (Taken done es) (delivers.written es done)))
        λ _. Triple-bind _ (read_clock-Keeps (done ++ es) (Taken done es) _) λ at. record {
          run = λ s (at, taken). (done ++ es, (at, Clean-Taken done es s.state taken));
        }

  Drained-empty :
      (done : List (Event X)) (s : Loop W X)
      → is_empty s.state.events_batch ≡ true
      → Inv start_lsn log J total done s
      → Drained none s
  Drained-empty done s empty (at, (flushed, pending)) =
      let nil : s.state.events_batch ≡ [] = is_empty_nil s.state.events_batch empty in
      (
        done,
        (
          at,
          (
            flushed,
            subst (λ es. IsPending total es s.state.last_commit_end_lsn) (append-nil done)
                (subst (λ es. IsPending total (done ++ es) s.state.last_commit_end_lsn) nil
                  pending),
            no_end done,
            nil,
          ),
        ),
      )

  flush_batch-Drained :
      (done : List (Event X))
      → Triple
          (Inv start_lsn log J total done)
          (flush_batch env)
          (λ _. Drained none)
          (Failed start_lsn log J total)
  unfolding flush_batch
  flush_batch-Drained done = record {
    run = λ s h. elim (Bool-cases (is_empty s.state.events_batch)) [
      | inl empty ↦ rw empty (Drained-empty done s empty h)
      | inr full ↦ rw full ((write_batch-Drained done).run s h)
    ];
  }

  skip_if_told-Drained :
      (skip : Option ℕ)
      → Triple
          (Drained none)
          (skip_if_told env skip)
          (λ _. Drained none)
          (Failed start_lsn log J total)
  unfolding skip_if_told
  skip_if_told-Drained none = Triple-pure _ λ s h. h
  skip_if_told-Drained (some table_id) = Triple-some λ done.
      Triple-bind (λ _ s. World done s × Clean done none s.state)
        (Triple-mono (λ _ s h. h) (Failed-Clean done none)
          (Triple-on_world (Clean done none) (delivers.skipped done table_id)))
        λ go_on. Triple-pure _ λ s h. (done, h)

  take_last-Drained :
      Triple (Drained none) (take_last_commit_end_lsn env) Drained (Failed start_lsn log J total)
  unfolding take_last_commit_end_lsn
  take_last-Drained = record {
    run = λ s (done, (at, (flushed, (pending, all), _, empty))).
        (done, (at, (flushed, (no_end done, all), pending, empty)));
  }

  acknowledge-Sound :
      (end_loop : Bool) (o : Option ℕ)
      → Triple
          (Drained o)
          (acknowledge env end_loop o)
          (λ _. Sound start_lsn log J total)
          (Failed start_lsn log J total)
  unfolding acknowledge on_state
  acknowledge-Sound end_loop none = Triple-pure _ (Sound-Drained none)
  acknowledge-Sound end_loop (some lsn) = Triple-some λ done.
      Triple-bind (λ _ s. World done s × Clean done none s.state)
        (record {
          run = λ s (at, (flushed, pending, ends, empty)). (
            at,
            (
              IsFlushed-acknowledge start_lsn done lsn s.state.next_status_update (ends lsn refl)
                  flushed,
              pending,
              no_end done,
              empty,
            ),
          );
        })
        λ _.
          Triple-bind
            (λ flush_lsn s.
              (World done s × Clean done none s.state) × IsSafe start_lsn done flush_lsn)
            (Triple-gets _ λ s h. (h, h.1.0.0))
            λ flush_lsn.
              Triple-bind (λ _. Drained none) (sync-Drained done flush_lsn)
                λ go_on. Triple-pure _ (Sound-Drained none)
    where
      sync-Drained :
          (done : List (Event X)) (flush_lsn : ℕ)
          → Triple
              (λ s. (World done s × Clean done none s.state) × IsSafe start_lsn done flush_lsn)
              (on_world (env.hook.process_syncing_tables flush_lsn true))
              (λ _. Drained none)
              (Failed start_lsn log J total)
      sync-Drained done flush_lsn = record {
        run = λ s (h, safe).
            (Triple-mono (λ _ s h. (done, h)) (Failed-Clean done none)
                (Triple-on_world (Clean done none) (delivers.synced done flush_lsn safe))).run
              s h;
      }

  send_batch-Sound :
      (done : List (Event X)) (skip : Option ℕ)
      → Triple
          (Inv start_lsn log J total done)
          (send_batch env skip)
          (λ _. Sound start_lsn log J total)
          (Failed start_lsn log J total)
  unfolding send_batch
  send_batch-Sound done skip = Triple-bind _ (flush_batch-Drained done) λ _.
      Triple-bind _ (skip_if_told-Drained skip)
        λ end_loop. Triple-bind _ take_last-Drained λ o. acknowledge-Sound end_loop o

  pub try_send_batch-Sound :
      (done : List (Event X)) (batch : BatchConfig) (end_batch : Option EndBatch) (skip : Option ℕ)
      → Triple
          (Inv start_lsn log J total done)
          (try_send_batch env batch end_batch skip)
          (λ _. Sound start_lsn log J total)
          (Failed start_lsn log J total)
  unfolding try_send_batch
  try_send_batch-Sound done batch end_batch skip =
      Triple-bind _ (read_clock-Keeps done (Own start_lsn log J total done) _) λ at.
        Triple-bind (λ _. Inv start_lsn log J total done) (Triple-gets _ λ s h. h)
          λ due. Triple-if due (send_batch-Sound done skip) (Triple-pure _ λ s h. (done, h))
