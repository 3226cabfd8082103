-- ===== src/Concurrency/Stream.antt =====
-- etl/src/concurrency/stream.rs: the stream that batches the items of another.
pub mod Batches
pub mod Polls
use pg_replicate.Base.{
  ℕ, suc, Bool, true, false, Option, none, some, List, [], ◌∷◌, ◌++◌, length, is_empty, leb,
  if◌then◌else◌,
}
use pg_replicate.Base.Loop.{Turn, return, again, run_turns}
use pg_replicate.Concurrency.{Poll, ready, pending}
use pg_replicate.Concurrency.Shutdown.{ShutdownResult}
use pg_replicate.Replication.Apply.Loop.{BatchConfig}

-- The inner stream and the runtime, on the state `W` of both: the stream's own `poll_next`, the
-- shutdown channel's `has_changed` (`none` is its error), and the timers.
pub record Runtime (B Sleep W : Type 0) : Type 0 where
  pub poll_inner : W → Poll (Option B) × W
  pub has_changed : W → Option Bool
  pub sleep : ℕ → W → Sleep
  pub poll_sleep : Sleep → W → Poll (Unit {0}) × W

pub record BatchStream (B Sleep W : Type 0) : Type 0 where
  pub stream : W
  pub deadline : Option Sleep
  pub items : List B
  pub batch_config : BatchConfig
  pub reset_timer : Bool
  pub inner_stream_ended : Bool
  pub stream_stopped : Bool

abbrev pub Batch : Type 0 → Type 0
Batch B = ShutdownResult (List B) (List B)

unwrap_or_false : Option Bool → Bool
unwrap_or_false none = false
unwrap_or_false (some b) = b

module _ {B Sleep W : Type 0} (runtime : Runtime B Sleep W) where
  abbrev pub wrap : W → BatchConfig → BatchStream B Sleep W
  wrap stream batch_config = record {
    stream = stream;
    deadline = none;
    items = [];
    batch_config = batch_config;
    reset_timer = true;
    inner_stream_ended = false;
    stream_stopped = false;
  }

  pub start_timer : BatchStream B Sleep W → BatchStream B Sleep W
  start_timer s =
      if s.reset_timer
      then record s {
        deadline = some (runtime.sleep s.batch_config.max_fill_ms s.stream);
        reset_timer = false;
      }
      else s

  -- `mem::take` of the items, with the timer to be reset.
  pub take_batch : BatchStream B Sleep W → List B × BatchStream B Sleep W
  take_batch s = (s.items, record s { items = []; reset_timer = true })

  abbrev pub Polled : Type 0
  Polled = Turn (BatchStream B Sleep W) (Poll (Option (Batch B)))

  -- The batch that is full, or due.
  pub give_batch : BatchStream B Sleep W → Polled
  unfolding take_batch
  give_batch s =
      let (items, s') = take_batch s in return (ready (some (ShutdownResult.ok items))) s'

  -- The inner stream ended: what is left is the last batch.
  pub end_stream : BatchStream B Sleep W → Polled
  unfolding give_batch take_batch
  end_stream s =
      if is_empty s.items
      then return (ready none) (record s { inner_stream_ended = true })
      else give_batch (record s { inner_stream_ended = true })

  pub on_item : B → BatchStream B Sleep W → Polled
  unfolding give_batch
  on_item item s =
      let s' = record s { items = s.items ++ item ∷ [] } in
      if leb s'.batch_config.max_size (length s'.items) then give_batch s' else again s'

  on_deadline : Poll (Unit {0}) → BatchStream B Sleep W → Polled
  unfolding give_batch
  on_deadline (ready u) s = give_batch s
  on_deadline pending s = return pending s

  check_deadline : Option Sleep → BatchStream B Sleep W → Polled
  unfolding on_deadline
  check_deadline none s = return pending s
  check_deadline (some deadline) s =
      let (due, w) = runtime.poll_sleep deadline s.stream in
      on_deadline due (record s { stream = w })

  -- After the loop: the inner stream has nothing now, so only a deadline gives a batch.
  pub on_pending : BatchStream B Sleep W → Polled
  unfolding check_deadline
  on_pending s = if is_empty s.items then return pending s else check_deadline s.deadline s

  pub on_polled : Poll (Option B) → BatchStream B Sleep W → Polled
  unfolding on_item end_stream on_pending
  on_polled (ready (some item)) s = on_item item s
  on_polled (ready none) s = end_stream s
  on_polled pending s = on_pending s

  pub poll_stream : BatchStream B Sleep W → Polled
  unfolding on_polled
  poll_stream s =
      let (next, w) = runtime.poll_inner s.stream in on_polled next (record s { stream = w })

  -- One turn of the loop.
  pub turn : BatchStream B Sleep W → Polled
  unfolding unwrap_or_false start_timer poll_stream
  turn s =
      if s.stream_stopped
      then return (ready none) s
      else if unwrap_or_false (runtime.has_changed s.stream)
      then return (ready (some (ShutdownResult.shutdown s.items)))
          (record s { stream_stopped = true; items = [] })
      else poll_stream (start_timer s)

  -- Each further turn has one more item, so the size of a batch bounds the turns.
  unfoldable pub poll_next :
      BatchStream B Sleep W → Option (Poll (Option (Batch B)) × BatchStream B Sleep W)
  unfolding turn run_turns
  poll_next s =
      if s.inner_stream_ended
      then some (ready none, s)
      else run_turns turn (suc s.batch_config.max_size) s
