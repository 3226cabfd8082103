-- ===== src/Workers/TableSync/Loop.antt =====
-- etl/src/workers/table_sync.rs: the apply loop of a table sync worker.
use pg_replicate.Base.{
  ℕ, true, false, ◌≡◌, refl, sym, subst, ◌∙◌, ap, List, ◌++◌, Result, ok, err, Exec, Text,
}
use pg_replicate.Base.Triple.{After, After-mono, Triple, Keeps, Triple-pure}
use pg_replicate.State.Store.{StateStore}
use pg_replicate.Conversions.Event.{Event}
use pg_replicate.Replication.Apply.Interface.{ApplyLoopError}
use pg_replicate.Replication.Apply.Loop.{BatchConfig, Input, start_apply_loop}
use pg_replicate.Replication.Apply.Loop.Delivery.{IsSafe, IsSafe-more, Delivers}
use pg_replicate.Replication.Apply.Loop.Acknowledge.{start_apply_loop_keeps}
use pg_replicate.Workers.TableSync.{Worker, Outside, should_apply_changes, on_outside, surroundings}
use pg_replicate.Workers.TableSync.Done.{IsDoneSafely, At, process-Keeps, skip_table-Keeps}

-- `log` is what the destination has taken: a batch that it takes joins it, and nothing else does.
pub record Logs {D X : Type 0} (rest : Outside D X) (log : D → List (Event X)) : Type 0 where
  pub written :
      (es done : List (Event X))
      → Triple
          (λ d. log d ≡ done)
          (rest.write_events es)
          (λ _ d. log d ≡ done ++ es)
          (λ d. log d ≡ done)
  pub timed : (d : D) → log (rest.link.now d).1 ≡ log d
  pub stamped : (d : D) → log (rest.link.epoch_elapsed d).1 ≡ log d
  pub reported :
      (write flush apply at : ℕ) (d : D)
      → log (rest.link.standby_status_update write flush apply at d).1 ≡ log d
  pub started :
      (publication_name slot_name : Text) (lsn : ℕ) (d : D)
      → log (rest.start_logical_replication publication_name slot_name lsn d).1 ≡ log d

module _ {S D X : Type 0} (states : StateStore S) (start_lsn : ℕ) (log : D → List (Event X))
    (rest : Outside D X) (logs : Logs rest log) where
  At-same :
      (done : List (Event X)) (w : Worker S D) (d : D)
      → log d ≡ log w.outside
      → At states start_lsn log done w
      → At states start_lsn log done (record w { outside = d })
  At-same done w d same (is, h) =
      (same ∙ is, λ lsn m. subst (λ es. IsSafe start_lsn es lsn) (sym same) (h lsn m))

  Keeps-outside :
      {E A : Type 0} (done : List (Event X)) (op : Exec D E A)
      → ((d : D) → log (op d).1 ≡ log d)
      → Keeps (At states start_lsn log done) (on_outside op)
  unfolding on_outside
  Keeps-outside {E = E} {A = A} done op same = record {
    run = λ w h. either w (op w.outside) (At-same done w _ (same w.outside) h);
  }
    where
      either :
          (w : Worker S D) (r : Result E A × D)
          → At states start_lsn log done (record w { outside = r.1 })
          → After
              (λ _. At states start_lsn log done)
              (At states start_lsn log done)
              (r.0, record w { outside = r.1 })
      either w (ok a, d) h = h
      either w (err e, d) h = h

  write-At :
      (es done : List (Event X))
      → Triple
          (At states start_lsn log done)
          (on_outside (rest.write_events es))
          (λ _. At states start_lsn log (done ++ es))
          (At states start_lsn log done)
  unfolding on_outside
  write-At es done = record {
    run = λ w (is, h).
        either w is h (rest.write_events es w.outside) ((logs.written es done).run w.outside is);
  }
    where
      either :
          (w : Worker S D)
          → log w.outside ≡ done
          → IsDoneSafely states start_lsn log w
          → (r : Result ApplyLoopError (Unit {0}) × D)
          → After (λ _ d. log d ≡ done ++ es) (λ d. log d ≡ done) r
          → After
              (λ _. At states start_lsn log (done ++ es))
              (At states start_lsn log done)
              (r.0, record w { outside = r.1 })
      either w is h (ok u, d) e = (
        e,
        λ lsn m.
            subst (λ es. IsSafe start_lsn es lsn) (sym (e ∙ ap (λ ds. ds ++ es) (sym is)))
              (IsSafe-more start_lsn (log w.outside) es lsn (h lsn m)),
      )
      either w is h (err x, d) e = At-same done w d (e ∙ sym is) (is, h)

  table_sync-Delivers :
      (table_id : ℕ)
      → Delivers
          (surroundings states table_id rest)
          start_lsn
          (λ w. log w.outside)
          (IsDoneSafely states start_lsn log)
  unfolding should_apply_changes
  table_sync-Delivers table_id = record {
    written = write-At;
    asked = λ done id lsn. record { run = λ w h. h };
    looked = λ done lsn. process-Keeps states start_lsn log done lsn false λ e. cc;
    synced = λ done lsn safe. process-Keeps states start_lsn log done lsn true λ e. safe;
    skipped = λ done id. skip_table-Keeps states start_lsn log done table_id id;
    timed = λ done w h. At-same done w _ (logs.timed w.outside) h;
    stamped = λ done. Keeps-outside done _ logs.stamped;
    reported = λ done write lsn at safe. Keeps-outside done _ (logs.reported write lsn lsn at);
  }

  -- When the apply loop of a table sync worker ends, stops in an error or still runs, the worker's table
  -- is in `sync_done` at a position, in memory or in the state store, only if that position is where
  -- the loop started or the end of a transaction whose commit the destination has taken, provided that
  -- this held at the start.
  pub start_apply_loop-IsDoneSafely :
      (table_id pipeline_id : ℕ) (publication_name : Text) (batch : BatchConfig)
      (inputs : List Input) (w : Worker S D)
      → IsDoneSafely states start_lsn log w
      → IsDoneSafely states start_lsn log
          (start_apply_loop
            (surroundings states table_id rest)
            pipeline_id
            start_lsn
            publication_name
            batch
            inputs
            w).1
  start_apply_loop-IsDoneSafely table_id pipeline_id publication_name batch inputs w h =
      start_apply_loop_keeps (surroundings states table_id rest) start_lsn (λ w. log w.outside)
        (IsDoneSafely states start_lsn log) (table_sync-Delivers table_id) (Triple-pure _ λ w h. h)
        (λ p n. alone (rest.start_logical_replication p n start_lsn) (logs.started p n start_lsn))
        pipeline_id publication_name batch inputs w h
    where
      alone :
          {A : Type 0} (op : Exec D ApplyLoopError A)
          → ((d : D) → log (op d).1 ≡ log d)
          → Keeps (IsDoneSafely states start_lsn log) (on_outside op)
      alone op same = record {
        run = λ w h.
            After-mono (on_outside op w) (λ _ w' h'. h'.1) (λ w' h'. h'.1)
              ((Keeps-outside (log w.outside) op same).run w (refl, h));
      }
