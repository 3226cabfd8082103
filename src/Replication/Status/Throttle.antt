-- ===== src/Replication/Status/Throttle.antt =====
-- etl/src/replication/stream.rs: the reports that `send_status_update` sends, as a log.
use pg_replicate.Base.{
  ℕ, ◌≡◌, refl, sym, subst, ◌∙◌, ◌⊎◌, inl, inr, Bool, true, false, some, List, [], ◌∷◌, ◌++◌,
  Result, ok, err, arith, Bool-cases, continue,
}
use pg_replicate.Base.Triple.{After}
use pg_replicate.Replication.Status.{
  EventsStream, EventsStreamError, StatusLink, recent, sent, send, send_status_update,
}

-- A report that Postgres was sent.
pub record Report : Type 0 where
  pub write_lsn : ℕ
  pub flush_lsn : ℕ
  pub apply_lsn : ℕ

-- The last report has these positions.
abbrev pub EndsWith : ℕ → ℕ → List Report → Type 0
EndsWith flush apply reports =
    (before : List Report) × (write : ℕ) × (reports
      ≡ before ++ record { write_lsn = write; flush_lsn = flush; apply_lsn = apply } ∷ [])

-- `log` is what Postgres was sent: a call of its update that succeeds joins it, and a look at a clock
-- does not change it.
pub record Logs {W : Type 0} (link : StatusLink W) (log : W → List Report) : Type 0 where
  pub timed : (w : W) → log (link.now w).1 ≡ log w
  pub stamped : (w : W) → log (link.epoch_elapsed w).1 ≡ log w
  pub reported :
      (write flush apply at : ℕ) (w : W)
      → After
          (λ u v.
            log v
            ≡ log w ++ record { write_lsn = write; flush_lsn = flush; apply_lsn = apply } ∷ [])
          (λ v. Unit {0})
          (link.standby_status_update write flush apply at w)

recent-same :
    (flush apply : ℕ) (stream : EventsStream) (at : ℕ)
    → recent flush apply stream.last_update stream.last_flush_lsn stream.last_apply_lsn at ≡ true
    → (stream.last_flush_lsn ≡ some flush) × (stream.last_apply_lsn ≡ some apply)
unfolding recent
recent-same flush apply stream at h = ground arith

some-injective : {a b : ℕ} → some a ≡ some b → a ≡ b
some-injective e = cc

module _ {W : Type 0} (link : StatusLink W) (log : W → List Report) (logs : Logs link log) where
  -- The positions that the stream remembers are those of the last report.
  abbrev pub Remembers : EventsStream → W → Type 0
  Remembers stream w =
      (flush apply : ℕ)
      → stream.last_flush_lsn ≡ some flush
      → stream.last_apply_lsn ≡ some apply
      → EndsWith flush apply (log w)

  -- What a call that succeeds leaves.
  abbrev pub Agrees : ℕ → ℕ → ℕ → Bool → List Report → EventsStream → W → Type 0
  Agrees write flush apply force before stream w =
      EndsWith flush apply (log w)
      × Remembers stream w
      × ((log w ≡ before ++ record { write_lsn = write; flush_lsn = flush; apply_lsn = apply } ∷ [])
          ⊎ ((force ≡ false) × (log w ≡ before)))

  sent-Agrees :
      (write flush apply : ℕ) (force : Bool) (before : List Report) (stream : EventsStream)
      (r : Result EventsStreamError (Unit {0}) × W)
      → After
          (λ u v.
            log v
            ≡ before ++ record { write_lsn = write; flush_lsn = flush; apply_lsn = apply } ∷ [])
          (λ v. Unit {0})
          r
      → (sent link flush apply stream r).0 ≡ ok tt
      → Agrees write flush apply force before
          (sent link flush apply stream r).1
          (sent link flush apply stream r).2
  unfolding sent
  sent-Agrees write flush apply force before stream (err e, w) is h = cc
  sent-Agrees write flush apply force before stream (ok u, w) is h =
      let last = logs.timed w ∙ is in
      (
        (before, write, last),
        λ f a ef ea.
            subst (λ g. EndsWith g a (log (link.now w).1)) (some-injective ef)
              (subst (λ b. EndsWith flush b (log (link.now w).1)) (some-injective ea)
                (before, write, last)),
        inl last,
      )

  send-reported :
      (write flush apply : ℕ) (before : List Report) (r : Result EventsStreamError ℕ × W)
      → log r.1 ≡ before
      → After
          (λ u v.
            log v
            ≡ before ++ record { write_lsn = write; flush_lsn = flush; apply_lsn = apply } ∷ [])
          (λ v. Unit {0})
          (continue r.0 (λ t. link.standby_status_update write flush apply t) r.1)
  unfolding continue
  send-reported write flush apply before (err e, w) is = tt
  send-reported write flush apply before (ok t, w) is =
      subst
        (λ b.
          After
            (λ u v.
              log v ≡ b ++ record { write_lsn = write; flush_lsn = flush; apply_lsn = apply } ∷ [])
            (λ v. Unit {0}) (link.standby_status_update write flush apply t w))
        is (logs.reported write flush apply t w)

  send-Agrees :
      (write flush apply : ℕ) (force : Bool) (stream : EventsStream) (w : W)
      → (send link write flush apply stream w).0 ≡ ok tt
      → Agrees write flush apply force
          (log w)
          (send link write flush apply stream w).1
          (send link write flush apply stream w).2
  unfolding send
  send-Agrees write flush apply force stream w h =
      sent-Agrees write flush apply force (log w) stream _
        (send-reported write flush apply (log w) (link.epoch_elapsed w) (logs.stamped w)) h

  withheld-Agrees :
      (write flush apply : ℕ) (stream : EventsStream) (w v : W)
      → log v ≡ log w
      → Remembers stream w
      → (stream.last_flush_lsn ≡ some flush) × (stream.last_apply_lsn ≡ some apply)
      → Agrees write flush apply false (log w) stream v
  withheld-Agrees write flush apply stream w v same remembers (ef, ea) =
      let kept : Remembers stream v =
        λ f a ef' ea'. subst (EndsWith f a) (sym same) (remembers f a ef' ea') in
      (kept flush apply ef ea, kept, inr (refl, same))

  later-Agrees :
      (write flush apply : ℕ) (force : Bool) (stream : EventsStream) (w v : W)
      → log v ≡ log w
      → (send link write flush apply stream v).0 ≡ ok tt
      → Agrees write flush apply force
          (log w)
          (send link write flush apply stream v).1
          (send link write flush apply stream v).2
  later-Agrees write flush apply force stream w v same h =
      subst
        (λ b.
          Agrees write flush apply force b (send link write flush apply stream v).1
            (send link write flush apply stream v).2)
        same (send-Agrees write flush apply force stream v h)

  -- If what the stream remembers is the last report, then after a call that succeeds it still is, and the
  -- last report that Postgres was sent has the flush and the apply position of the call: either the
  -- call's own positions were reported, and nothing else, or the call was not forced and sent nothing,
  -- since the last report had these two positions already.
  pub send_status_update_told :
      (write flush apply : ℕ) (force : Bool) (stream : EventsStream) (w : W)
      → Remembers stream w
      → (send_status_update link write flush apply force stream w).0 ≡ ok tt
      → Agrees write flush apply force
          (log w)
          (send_status_update link write flush apply force stream w).1
          (send_status_update link write flush apply force stream w).2
  unfolding send_status_update
  send_status_update_told write flush apply true stream w remembers h =
      later-Agrees write flush apply true stream w (link.now w).1 (logs.timed w) h
  send_status_update_told write flush apply false stream w remembers h =
      elim (Bool-cases (
        recent flush apply stream.last_update stream.last_flush_lsn stream.last_apply_lsn
          (link.now w).0)) [
            | inl skip ↦ rw skip (
                withheld-Agrees write flush apply stream w (link.now w).1 (logs.timed w) remembers
                  (recent-same flush apply stream _ skip))
            | inr sends ↦ rw sends (
                later-Agrees write flush apply false stream w (link.now w).1 (logs.timed w)
                  (rw sends at h))
          ]
