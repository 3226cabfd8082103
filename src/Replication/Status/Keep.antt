-- ===== src/Replication/Status/Keep.antt =====
-- etl/src/replication/stream.rs: conditions on the world over a call of `send_status_update`.
use pg_replicate.Base.{ℕ, Bool, true, false, ◌&&◌, not, Result, ok, err, continue, if◌then◌else◌}
use pg_replicate.Base.Triple.{Keeps, Keeps-after, Triple-continue}
use pg_replicate.Replication.Status.{
  EventsStream, EventsStreamError, StatusLink, recent, sent, send, send_status_update,
}

module _ {W : Type 0} (link : StatusLink W) {I : W → Type 0}
    (now : (w : W) → I w → I (link.now w).1) where
  sent-keeps :
      (flush apply : ℕ) (stream : EventsStream) (r : Result EventsStreamError (Unit {0}) × W)
      → I r.1
      → I (sent link flush apply stream r).2
  unfolding sent
  sent-keeps flush apply stream (err e, w) h = h
  sent-keeps flush apply stream (ok u, w) h = now w h

  if-keeps :
      (b : Bool) (x y : Result EventsStreamError (Unit {0}) × EventsStream × W)
      → I x.2
      → I y.2
      → I (if b then x else y).2
  if-keeps true x y hx hy = hx
  if-keeps false x y hx hy = hy

  -- `I` holds after the call, if the clocks and a report of these positions keep it.
  pub send_status_update-keeps :
      (write flush apply : ℕ) (force : Bool) (stream : EventsStream) (w : W)
      → Keeps I link.epoch_elapsed
      → ((at : ℕ) → Keeps I (link.standby_status_update write flush apply at))
      → I w
      → I (send_status_update link write flush apply force stream w).2
  unfolding send_status_update send continue
  send_status_update-keeps write flush apply force stream w epoch standby h =
      if-keeps
        (not force
          && recent flush apply stream.last_update stream.last_flush_lsn stream.last_apply_lsn
              (link.now w).0)
        _ _ (now w h)
        (sent-keeps flush apply stream _ (
          Keeps-after I _ (
            Triple-continue (link.epoch_elapsed (link.now w).1) _ standby (epoch.run _ (now w h)))))
