-- ===== src/Workers/TableSync/Wait.antt =====
-- etl/src/workers/table_sync.rs: waiting for a phase of a table sync worker.
use pg_replicate.Base.{
  ◌≡◌, refl, Bool, true, false, Bool-cases, inl, inr, Option, none, some, List, [], ◌∷◌,
  if◌then◌else◌, Any,
}
use pg_replicate.State.Phase.{TableReplicationPhaseType, as_type, same_type}
use pg_replicate.Concurrency.Shutdown.{ShutdownResult}
use pg_replicate.Workers.TableSync.{Worker}

-- What ends a pause of the wait: the shutdown signal, or a notification or the refresh interval, with
-- what the other tasks did meanwhile.
pub data Signal (S D : Type 0) : Type 0 where
  shutdown : Signal S D
  paused : (Worker S D → Worker S D) → Signal S D

abbrev pub Waited : Type 0 → Type 0 → Type 0
Waited S D = Option (ShutdownResult (Unit {0}) (Unit {0})) × Worker S D

module _ {S D : Type 0} where
  unfoldable pub in_phase : TableReplicationPhaseType → Worker S D → Bool
  in_phase phase_type w = same_type (as_type w.inner.table_replication_phase) phase_type

  -- `none` while the wait goes on. The shutdown signal is looked at first.
  unfoldable pub wait_for_phase_type :
      TableReplicationPhaseType → List (Signal S D) → Worker S D → Waited S D
  wait_for_phase_type phase_type [] w =
      if in_phase phase_type w then (some (ShutdownResult.ok tt), w) else (none, w)
  wait_for_phase_type phase_type (shutdown ∷ signals) w = (some (ShutdownResult.shutdown tt), w)
  wait_for_phase_type phase_type (paused others ∷ signals) w = elim (in_phase phase_type w) [
    | true ↦ (some (ShutdownResult.ok tt), w)
    | false ↦ wait_for_phase_type phase_type signals (others w)
  ]

  -- No shutdown comes, and the phase is never there when it is looked at.
  abbrev pub StaysOut : TableReplicationPhaseType → List (Signal S D) → Worker S D → Type 0
  StaysOut phase_type [] w = in_phase phase_type w ≡ false
  StaysOut phase_type (shutdown ∷ signals) w = ⊥
  StaysOut phase_type (paused others ∷ signals) w =
      (in_phase phase_type w ≡ false) × StaysOut phase_type signals (others w)

  -- What each end of the wait says of the worker and of the signals.
  abbrev pub Says : TableReplicationPhaseType → List (Signal S D) → Worker S D → Waited S D → Type 0
  Says phase_type signals w (none, v) = StaysOut phase_type signals w
  Says phase_type signals w (some (ShutdownResult.ok u), v) = in_phase phase_type v ≡ true
  Says phase_type signals w (some (ShutdownResult.shutdown u), v) = Any (λ s. s ≡ shutdown) signals

  Says-later :
      (phase_type : TableReplicationPhaseType) (others : Worker S D → Worker S D)
      (signals : List (Signal S D)) (w : Worker S D)
      → in_phase phase_type w ≡ false
      → (result : Waited S D) → Says phase_type signals (others w) result
      → Says phase_type (paused others ∷ signals) w result
  Says-later phase_type others signals w e (none, v) h = (e, h)
  Says-later phase_type others signals w e (some (ShutdownResult.ok u), v) h = h
  Says-later phase_type others signals w e (some (ShutdownResult.shutdown u), v) h = inr h

  -- A wait for a phase goes on only while no shutdown comes and the phase is not there whenever it is looked
  -- at; if it ends well, the worker is in that phase, and if it ends with a shutdown, the signal came.
  pub wait_for_phase_type-Says :
      (phase_type : TableReplicationPhaseType) (signals : List (Signal S D)) (w : Worker S D)
      → Says phase_type signals w (wait_for_phase_type phase_type signals w)
  unfolding wait_for_phase_type
  wait_for_phase_type-Says phase_type [] w = elim (Bool-cases (in_phase phase_type w)) [
    | inl e ↦ rw (wait_for_phase_type, e) e
    | inr e ↦ rw (wait_for_phase_type, e) e
  ]
  wait_for_phase_type-Says phase_type (shutdown ∷ signals) w = inl refl
  wait_for_phase_type-Says phase_type (paused others ∷ signals) w =
      elim (Bool-cases (in_phase phase_type w)) [
        | inl e ↦ rw (wait_for_phase_type, e) e
        | inr e ↦
            rw (wait_for_phase_type, e)
              (Says-later phase_type others signals w e _
                (wait_for_phase_type-Says phase_type signals (others w)))
      ]
