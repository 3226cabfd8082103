-- ===== src/Replication/Apply/Loop.antt =====
-- The batch, and the apply loop over the inputs that `select!` picks.
pub mod Delivery
pub mod Batch
pub mod Rounds
pub mod Acknowledge
use pg_replicate.Base.{
  ℕ, ◌-◌, Bool, true, false, ◌&&◌, ◌||◌, not, Option, none, some, List, [], ◌∷◌, ◌++◌, ltb, leb,
  ◌==◌, if◌then◌else◌, Result, ok, err, Exec, ◌>>=◌, ◌>>◌, pure, raise, lift, gets, modify, map_err,
  continue, is_empty, length,
}
use pg_replicate.Base.{Text}
use pg_replicate.Conversions.Protocol.{LogicalReplicationMessage}
use pg_replicate.Conversions.Event.{Event}
use pg_replicate.Replication.Slot.{get_slot_name}
use pg_replicate.Replication.Status.{
  EventsStreamError, EventsStream, wrap, update_write_lsn, update_flush_lsn, update_apply_lsn,
}
use pg_replicate.Replication.Apply.Interface.{
  ApplyLoopError, slot, logical_replication_stream_failed, Surroundings,
}
use pg_replicate.Replication.Apply.State.{
  ApplyLoopState, HandleMessageResult, EndBatch, inclusive, exclusive, Loop, no_result, on_world,
  on_state, report, new, update_last_commit_end_lsn, handling_transaction,
}
use pg_replicate.Replication.Apply.Messages.{handle_logical_replication_message}

pub data ReplicationMessage : Type 0 where
  -- wal_start, wal_end and the message
  x_log_data : ℕ → ℕ → LogicalReplicationMessage → ReplicationMessage
  -- wal_end, and whether a reply is asked for
  primary_keep_alive : ℕ → Bool → ReplicationMessage
  other : ReplicationMessage

-- `config.batch`, with the duration in milliseconds.
pub record BatchConfig : Type 0 where
  pub max_size : ℕ
  pub max_fill_ms : ℕ

-- What `select!` finds ready, in its order of preference: the shutdown signal, the next item of the
-- stream, or the end of REFRESH_INTERVAL.
pub data Input : Type 0 where
  shutdown refresh : Input
  received : Result EventsStreamError ReplicationMessage → Input

pub data ApplyLoopResult : Type 0 where
  apply_stopped : ApplyLoopResult

pub is_some : {A : Type 0} → Option A → Bool
is_some none = false
is_some (some a) = true

-- An elapsed time of zero sends the batch too.
pub time_to_send : ℕ → ℕ → Bool
time_to_send elapsed max_fill_ms = (elapsed == 0) || ltb max_fill_ms elapsed

-- The event joins the batch unless the batch ends before it.
pub push_result : {X : Type 0} → HandleMessageResult X → ApplyLoopState X → ApplyLoopState X
push_result result s = elim result.event [
  | none ↦ s
  | some event ↦ elim result.end_batch [
    | some exclusive ↦ s
    | _ ↦
        update_last_commit_end_lsn result.end_lsn
          (record s { events_batch = s.events_batch ++ event ∷ [] })
  ]
]

module _ {W X : Type 0} (env : Surroundings W X) where
  open env use {hook, link, write_events, start_logical_replication}

  pub handle_replication_message :
      ReplicationMessage → Exec (Loop W X) ApplyLoopError (HandleMessageResult X)
  handle_replication_message (x_log_data wal_start wal_end message) = do
    on_state (λ s. record s {
      next_status_update =
          update_write_lsn wal_end (update_write_lsn wal_start s.next_status_update);
    })
    handle_logical_replication_message env message
  handle_replication_message (primary_keep_alive wal_end reply) = do
    on_state (λ s. record s { next_status_update = update_write_lsn wal_end s.next_status_update })
    report link reply
    pure no_result
  handle_replication_message other = pure no_result

  -- `std::mem::replace(&mut state.events_batch, ..)`
  pub take_batch : Exec (Loop W X) ApplyLoopError (List (Event X))
  take_batch s =
      (ok s.state.events_batch, record s { state = record s.state { events_batch = [] } })

  read_clock : Exec (Loop W X) ApplyLoopError ℕ
  read_clock s = let (at, w) = link.now s.world in (ok at, record s { world = w })

  pub write_batch : Exec (Loop W X) ApplyLoopError (Unit {0})
  unfolding take_batch read_clock
  write_batch = do
    events_batch ← take_batch
    on_world (write_events events_batch)
    at ← read_clock
    on_state (λ s. record s { last_batch_send_time = at })

  -- Only a batch that is not empty is sent.
  pub flush_batch : Exec (Loop W X) ApplyLoopError (Unit {0})
  unfolding write_batch
  flush_batch s = if is_empty s.state.events_batch then (ok tt, s) else write_batch s

  -- Returns `end_loop`.
  pub skip_if_told : Option ℕ → Exec (Loop W X) ApplyLoopError Bool
  skip_if_told none = pure false
  skip_if_told (some table_id) = do go_on ← on_world (hook.skip_table table_id); pure (not go_on)

  pub take_last_commit_end_lsn : Exec (Loop W X) ApplyLoopError (Option ℕ)
  take_last_commit_end_lsn s = (
    ok s.state.last_commit_end_lsn,
    record s { state = record s.state { last_commit_end_lsn = none } },
  )

  -- The last commit is flushed: prepare the next status update, and tell the hook.
  pub acknowledge : Bool → Option ℕ → Exec (Loop W X) ApplyLoopError Bool
  acknowledge end_loop none = pure end_loop
  acknowledge end_loop (some last_commit_end_lsn) = do
    on_state (λ s. record s {
      next_status_update =
          update_apply_lsn last_commit_end_lsn
            (update_flush_lsn last_commit_end_lsn s.next_status_update);
    })
    flush_lsn ← gets (λ s. s.state.next_status_update.flush_lsn)
    go_on ← on_world (hook.process_syncing_tables flush_lsn true)
    pure (end_loop || not go_on)

  pub send_batch : Option ℕ → Exec (Loop W X) ApplyLoopError Bool
  unfolding flush_batch skip_if_told take_last_commit_end_lsn acknowledge
  send_batch skip_table = do
    flush_batch
    end_loop ← skip_if_told skip_table
    last_commit_end_lsn ← take_last_commit_end_lsn
    acknowledge end_loop last_commit_end_lsn

  pub try_send_batch :
      BatchConfig → Option EndBatch → Option ℕ → Exec (Loop W X) ApplyLoopError Bool
  unfolding read_clock send_batch is_some time_to_send
  try_send_batch batch end_batch skip_table = do
    at ← read_clock
    due ← gets (λ s.
        time_to_send (at - s.state.last_batch_send_time) batch.max_fill_ms
        || (leb batch.max_size (length s.state.events_batch) || is_some end_batch))
    if due then send_batch skip_table else pure false

  pub handle_replication_message_batch :
      BatchConfig → ReplicationMessage → Exec (Loop W X) ApplyLoopError Bool
  unfolding handle_replication_message push_result try_send_batch
  handle_replication_message_batch batch message = do
    result ← handle_replication_message message
    on_state (push_result result)
    try_send_batch batch result.end_batch result.skip_table

  -- The housekeeping after a pause: the hook is told only between transactions. Returns `end_loop`.
  pub sync_if_idle : Bool → Exec (Loop W X) ApplyLoopError Bool
  sync_if_idle true = pure false
  sync_if_idle false = do
    flush_lsn ← gets (λ s. s.state.next_status_update.flush_lsn)
    continue_loop ← on_world (hook.process_syncing_tables flush_lsn true)
    pure (not continue_loop)

  pub housekeeping : Exec (Loop W X) ApplyLoopError Bool
  unfolding sync_if_idle
  housekeeping = do
    report link false
    in_transaction ← gets (λ s. handling_transaction s.state)
    sync_if_idle in_transaction

  -- One round of the loop; the result says whether the loop ends.
  pub round : BatchConfig → Input → Exec (Loop W X) ApplyLoopError Bool
  unfolding handle_replication_message_batch housekeeping
  round batch shutdown = pure true
  round batch refresh = housekeeping
  round batch (received (err e)) = raise (logical_replication_stream_failed e)
  round batch (received (ok message)) = handle_replication_message_batch batch message

  -- The loop: `none` if it still runs at the end of the inputs.
  pub run_loop : BatchConfig → List Input → Exec (Loop W X) ApplyLoopError (Option ApplyLoopResult)
  unfolding round
  run_loop batch [] = pure none
  run_loop batch (input ∷ inputs) = do
    end_loop ← round batch input
    elim end_loop [ true ↦ pure (some apply_stopped) | false ↦ run_loop batch inputs ]

  abbrev pub first_state : ℕ → W → Loop W X
  first_state start_lsn w =
      let (at, w') = link.now w in
      record {
        state =
            new (record { write_lsn = start_lsn; flush_lsn = start_lsn; apply_lsn = start_lsn }) []
              at;
        stream = wrap;
        world = w';
      }

  pub start_apply_loop :
      ℕ → ℕ → Text → BatchConfig → List Input → Exec W ApplyLoopError (Option ApplyLoopResult)
  unfolding run_loop
  start_apply_loop pipeline_id start_lsn publication_name batch inputs = do
    hook.initialize
    slot_name ← lift (map_err slot (get_slot_name pipeline_id hook.worker_type))
    start_logical_replication publication_name slot_name start_lsn
    λ w. let (r, s) = run_loop batch inputs (first_state start_lsn w) in (r, s.world)
