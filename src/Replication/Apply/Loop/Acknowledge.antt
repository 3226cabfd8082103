-- ===== src/Replication/Apply/Loop/Acknowledge.antt =====
-- etl/src/replication/apply.rs: theorems on the apply loop as a whole.
use pg_replicate.Base.{
  ◌≡◌, Option, ◌++◌, append-nil, append_assoc, ℕ, refl, sym, subst, inl, Bool, true, false, some,
  List, [], ◌∷◌, Result, ok, err, pure, Text,
}
use pg_replicate.Base.Triple.{
  After, After-mono, Triple, Keeps, Keeps-after, Triple-pure, Triple-bind, Triple-mono, Triple-some,
  Triple-lift,
}
use pg_replicate.Conversions.Event.{Event}
use pg_replicate.Replication.Apply.Interface.{ApplyLoopError, Surroundings}
use pg_replicate.Replication.Apply.State.{new, Loop}
use pg_replicate.Replication.Apply.Loop.{
  BatchConfig, Input, ApplyLoopResult, apply_stopped, run_loop, first_state, start_apply_loop,
}
use pg_replicate.Replication.Apply.Loop.Delivery.{Delivers, IsFlushed, Sound, Failed}
use pg_replicate.Replication.Apply.Loop.Rounds.{Carries, Selected, Moved, Stuck, round-Moved}

module _ {W X : Type 0} (env : Surroundings W X) (start_lsn : ℕ) (log : W → List (Event X))
    (J : W → Type 0) (delivers : Delivers env start_lsn log J) where
  -- After the inputs the events so far are those of `total`, and what the inputs carry.
  abbrev pub RunTo : List Input → List (Event X) → Loop W X → Type 0
  RunTo inputs total s =
      (es : List (Event X)) × (Selected env inputs es × Sound start_lsn log J (total ++ es) s)

  abbrev pub RunInto : List Input → List (Event X) → Loop W X → Type 0
  RunInto inputs total s =
      (es : List (Event X)) × (Selected env inputs es × Failed start_lsn log J (total ++ es) s)

  here :
      (inputs : List Input) (total : List (Event X)) (s : Loop W X)
      → Sound start_lsn log J total s
      → RunTo inputs total s
  here inputs total s h = (
    [],
    (Selected.stopped inputs, subst (λ es. Sound start_lsn log J es s) (sym (append-nil total)) h),
  )

  run_loop-Run :
      (total : List (Event X)) (batch : BatchConfig) (inputs : List Input)
      → Triple
          (Sound start_lsn log J total)
          (run_loop env batch inputs)
          (λ _. RunTo inputs total)
          (RunInto inputs total)
  unfolding run_loop
  run_loop-Run total batch [] = Triple-pure _ (here [] total)
  run_loop-Run total batch (input ∷ inputs) =
      Triple-bind (λ _. Moved env start_lsn log J total delivers input)
        (Triple-mono (λ _ s h. h) stuck
          (round-Moved env start_lsn log J total delivers batch input))
        λ end_loop. Triple-some λ es. go end_loop es (run_loop-Run (total ++ es) batch inputs)
    where
      stuck :
          (s : Loop W X)
          → Stuck env start_lsn log J total delivers input s
          → RunInto (input ∷ inputs) total s
      stuck s (es, (carries, h)) = (
        es ++ [],
        (
          Selected.then_more input es inputs [] carries (Selected.stopped inputs),
          subst (λ fs. Failed start_lsn log J (total ++ fs) s) (sym (append-nil es)) h,
        ),
      )

      moved :
          (es : List (Event X)) (s : Loop W X)
          → Carries env input es
          → Sound start_lsn log J (total ++ es) s
          → RunTo (input ∷ inputs) total s
      moved es s carries h = (
        es ++ [],
        (
          Selected.then_more input es inputs [] carries (Selected.stopped inputs),
          subst (λ fs. Sound start_lsn log J (total ++ fs) s) (sym (append-nil es)) h,
        ),
      )

      go :
          (end_loop : Bool) (es : List (Event X))
          → Triple
              (Sound start_lsn log J (total ++ es))
              (run_loop env batch inputs)
              (λ _. RunTo inputs (total ++ es))
              (RunInto inputs (total ++ es))
          → Triple
              (λ s. Carries env input es × Sound start_lsn log J (total ++ es) s)
              (elim end_loop [
                | true ↦ pure (some apply_stopped)
                | false ↦ run_loop env batch inputs
              ])
              (λ _. RunTo (input ∷ inputs) total)
              (RunInto (input ∷ inputs) total)
      go true es k = Triple-pure _ λ s (carries, h). moved es s carries h
      go false es k = record {
        run = λ s (carries, h).
            After-mono (run_loop env batch inputs s)
              (λ _ s' (fs, (selected, h')). (
                es ++ fs,
                (
                  Selected.then_more input es inputs fs carries selected,
                  subst (λ gs. Sound start_lsn log J gs s') (append_assoc total es fs) h',
                ),
              ))
              (λ s' (fs, (selected, h')). (
                es ++ fs,
                (
                  Selected.then_more input es inputs fs carries selected,
                  subst (λ gs. Failed start_lsn log J gs s') (append_assoc total es fs) h',
                ),
              ))
              (k.run s h);
      }

  -- However the loop is fed, at its end the flush position, which is the apply position too, is safe:
  -- it is where the loop started, or the end of a transaction whose commit the destination has taken.
  pub run_loop-IsSafe :
      (total : List (Event X)) (batch : BatchConfig) (inputs : List Input) (s : Loop W X)
      → Sound start_lsn log J total s
      → let s' = (run_loop env batch inputs s).1 in
        IsFlushed start_lsn (log s'.world) s'.state.next_status_update
  run_loop-IsSafe total batch inputs s h =
      flushed (run_loop env batch inputs s) ((run_loop-Run total batch inputs).run s h)
    where
      flushed :
          (r : Result ApplyLoopError (Option ApplyLoopResult) × Loop W X)
          → After (λ _. RunTo inputs total) (RunInto inputs total) r
          → IsFlushed start_lsn (log r.1.world) r.1.state.next_status_update
      flushed (ok a, s') (es, (selected, (done, ((is, j), own)))) = rw is own.0
      flushed (err e, s') (es, (selected, (done, rest, (is, j), own, all))) = rw is own

  -- What the destination has, with the batch behind it, is what it was, with the events of the inputs
  -- behind: at most one for each message, in the order of the messages, none twice and none that is
  -- not converted from its message. If the loop fails, the destination has the first of these events.
  pub run_loop-Selected :
      (total : List (Event X)) (batch : BatchConfig) (inputs : List Input) (s : Loop W X)
      → Sound start_lsn log J total s
      → After
          (λ _ s'.
            (es : List (Event X)) × (Selected env inputs es
              × (log s'.world ++ s'.state.events_batch ≡ total ++ es)))
          (λ s'.
            (es : List (Event X)) × (Selected env inputs es
              × ((rest : List (Event X)) × (log s'.world ++ rest ≡ total ++ es))))
          (run_loop env batch inputs s)
  run_loop-Selected total batch inputs s h =
      After-mono (run_loop env batch inputs s)
        (λ _ s' (es, (selected, (done, ((is, j), own)))). (es, (selected, rw is own.1.1)))
        (λ s' (es, (selected, (done, rest, (is, j), own, all))).
          (es, (selected, (rest, rw is all))))
        ((run_loop-Run total batch inputs).run s h)

  Keeps-world :
      {A : Type 0} (r : Result ApplyLoopError A × Loop W X) (total : List (Event X))
      (inputs : List Input)
      → After (λ _. RunTo inputs total) (RunInto inputs total) r
      → After (λ _. J) J (r.0, r.1.world)
  Keeps-world (ok a, s) total inputs (es, (selected, (done, (at, own)))) = at.1
  Keeps-world (err e, s) total inputs (es, (selected, (done, rest, at, _, _))) = at.1

  first_state-Sound : (w : W) → J w → Sound start_lsn log J (log w) (first_state env start_lsn w)
  unfolding new
  first_state-Sound w j = (
    log w,
    (delivers.timed (log w) w (refl, j), ((inl refl, refl), ((λ lsn e. cc), append-nil (log w)))),
  )

  start_loop-Keeps :
      Keeps J env.hook.initialize
      → ((publication_name slot_name : Text)
          → Keeps J (env.start_logical_replication publication_name slot_name start_lsn))
      → (pipeline_id : ℕ) (publication_name : Text) (batch : BatchConfig) (inputs : List Input)
      → Keeps J (start_apply_loop env pipeline_id start_lsn publication_name batch inputs)
  unfolding start_apply_loop
  start_loop-Keeps initialize start pipeline_id publication_name batch inputs =
      Triple-bind (λ _. J) initialize
        λ _.
          Triple-bind (λ _. J) (Triple-lift _)
            λ slot_name.
              Triple-bind (λ _. J) (start publication_name slot_name)
                λ _. record {
                  run = λ w j.
                      Keeps-world _ (log w) inputs
                        ((run_loop-Run (log w) batch inputs).run _ (first_state-Sound w j));
                }

  -- A property `J` of the world that the operations keep, where a report to Postgres and a call of
  -- `process_syncing_tables` with `update_state` on are assumed to keep it only for a safe position, is
  -- kept by the whole loop, whether it stops, fails or still runs. The hook's initialization and the
  -- start of the replication are assumed to keep it too.
  pub start_apply_loop_keeps :
      Keeps J env.hook.initialize
      → ((publication_name slot_name : Text)
          → Keeps J (env.start_logical_replication publication_name slot_name start_lsn))
      → (pipeline_id : ℕ) (publication_name : Text) (batch : BatchConfig) (inputs : List Input)
        (w : W)
      → J w
      → J (start_apply_loop env pipeline_id start_lsn publication_name batch inputs w).1
  start_apply_loop_keeps initialize start pipeline_id publication_name batch inputs w j =
      Keeps-after J _
        ((start_loop-Keeps initialize start pipeline_id publication_name batch inputs).run w j)
