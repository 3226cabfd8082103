-- ===== src/Tests/Replication.antt =====
-- The apply loop, the status updates and the slot names at concrete inputs.
use pg_replicate.Base.{
  ℕ, ◌≡◌, refl, true, false, some, none, List, [], ◌∷◌, ◌++◌, inl, ok, err, arith, codes, continue,
}
use pg_replicate.Base.Int.{pos}
use pg_replicate.Base.Triple.{After}
use pg_replicate.Conversions.Event.{Event}
use pg_replicate.Conversions.Protocol.{CommitBody, LogicalReplicationMessage}
use pg_replicate.Workers.Base.{table_sync}
use pg_replicate.Replication.Slot.{get_slot_name, slot_name}
use pg_replicate.Replication.Slot.Names.{get_slot_name-ok, get_slot_name-injective}
use pg_replicate.Replication.Status.{EventsStream, StatusLink, send_status_update}
use pg_replicate.Replication.Status.Throttle.{
  Report, Logs, Remembers, Agrees, send_status_update_told,
}
use pg_replicate.Replication.Apply.Interface.{ApplyLoopError}
use pg_replicate.Replication.Apply.State.{Loop, new}
use pg_replicate.Replication.Apply.Messages.{commit_result, handle_logical_replication_message}
use pg_replicate.Replication.Apply.Messages.Results.{
  commit_result_closes, handle_logical_replication_message_refused,
}
use pg_replicate.Replication.Apply.Loop.{
  BatchConfig, Input, received, shutdown, x_log_data, primary_keep_alive, run_loop, first_state,
  start_apply_loop,
}
use pg_replicate.Replication.Apply.Loop.Delivery.{IsFlushed, Sound}
use pg_replicate.Replication.Apply.Loop.Rounds.{Selected}
use pg_replicate.Replication.Apply.Loop.Acknowledge.{
  run_loop-IsSafe, run_loop-Selected, start_apply_loop_keeps,
}
use pg_replicate.Tests.Fixtures.{World, env, IsHonestWorld, delivers}

abbrev pub batch : BatchConfig
batch = record { max_size = 2; max_fill_ms = 1000 }

abbrev commit_message : LogicalReplicationMessage
commit_message =
    LogicalReplicationMessage.commit
      (record { flags = pos 0; commit_lsn = 200; end_lsn = 210; timestamp = pos 0 })

-- One transaction, a keepalive that asks for a reply, and the end.
abbrev pub inputs : List Input
inputs =
    received (
      ok (
        x_log_data 190 190 (
          LogicalReplicationMessage.begin
            (record { final_lsn = 200; timestamp = pos 0; xid = 7 }))))
    ∷ received (ok (x_log_data 200 210 commit_message))
    ∷ received (ok (primary_keep_alive 215 true))
    ∷ shutdown
    ∷ []

abbrev world : World
world = record { taken = []; told = [] }

abbrev loop : Loop World ℕ
loop = first_state env 100 world

loop-Sound : Sound 100 (λ w. w.taken) IsHonestWorld [] loop
unfolding new
loop-Sound = ([], ((refl, tt), ((inl refl, refl), ((λ lsn e. cc), refl))))

-- The loop after the inputs.
abbrev after : Loop World ℕ
after = (run_loop env batch inputs loop).1

run_loop-IsSafe_example : IsFlushed 100 after.world.taken after.state.next_status_update
run_loop-IsSafe_example =
    run_loop-IsSafe env 100 (λ w. w.taken) IsHonestWorld delivers [] batch inputs loop loop-Sound

run_loop-Selected_example :
    After
      (λ _ s.
        (es : List (Event ℕ)) × (Selected env inputs es
          × (s.world.taken ++ s.state.events_batch ≡ [] ++ es)))
      (λ s.
        (es : List (Event ℕ)) × (Selected env inputs es
          × ((rest : List (Event ℕ)) × (s.world.taken ++ rest ≡ [] ++ es))))
      (run_loop env batch inputs loop)
run_loop-Selected_example =
    run_loop-Selected env 100 (λ w. w.taken) IsHonestWorld delivers [] batch inputs loop loop-Sound

start_apply_loop_keeps_example :
    IsHonestWorld (start_apply_loop env 3 100 (codes "pub") batch inputs world).1
start_apply_loop_keeps_example =
    start_apply_loop_keeps env 100 (λ w. w.taken) IsHonestWorld delivers (record { run = λ w h. h })
      (λ p n. record { run = λ w h. h }) 3 (codes "pub") batch inputs world tt

handle_logical_replication_message_refused_example :
    (e : ApplyLoopError) × (handle_logical_replication_message env commit_message loop
      ≡ (err e, loop))
unfolding new
handle_logical_replication_message_refused_example =
    handle_logical_replication_message_refused env commit_message loop tt refl

abbrev body : CommitBody
body = record { flags = pos 0; commit_lsn = 200; end_lsn = 210; timestamp = pos 0 }

abbrev commit : Event ℕ
commit = Event.commit (record { flags = pos 0; commit_lsn = 200; end_lsn = 210; timestamp = pos 0 })

-- The loop in the transaction of this commit.
abbrev in_loop : Loop World ℕ
in_loop = record loop { state = record loop.state { remote_final_lsn = some 200 } }

commit_result_closes_example :
    After
      (λ result s.
        (in_loop.state.remote_final_lsn ≡ some 200)
        × (s.state.remote_final_lsn ≡ none)
        × (result.end_lsn ≡ some 210))
      (λ s. s.state.remote_final_lsn ≡ none)
      (commit_result env commit body in_loop)
commit_result_closes_example = commit_result_closes env commit body in_loop

-- A connection that keeps the reports.
abbrev reporting : StatusLink (List Report)
reporting = record {
  now = λ w. (700, w);
  epoch_elapsed = λ w. (ok 700, w);
  standby_status_update = λ write flush apply at w.
      (ok tt, w ++ record { write_lsn = write; flush_lsn = flush; apply_lsn = apply } ∷ []);
}

reporting-Logs : Logs reporting (λ w. w)
reporting-Logs = record {
  timed = λ w. refl;
  stamped = λ w. refl;
  reported = λ write flush apply at w. refl;
}

abbrev reports : List Report
reports = record { write_lsn = 5; flush_lsn = 4; apply_lsn = 4 } ∷ []

abbrev stream : EventsStream
stream = record { last_update = some 100; last_flush_lsn = some 4; last_apply_lsn = some 4 }

stream-Remembers : Remembers reporting (λ w. w) reporting-Logs stream reports
stream-Remembers flush apply ef ea = ([], 5, rw⁻¹ (same ef, same ea) refl)
  where
    same : {a b : ℕ} → some a ≡ some b → a ≡ b
    same e = cc

told : (send_status_update reporting 9 8 8 false stream reports).0 ≡ ok tt
unfolding send_status_update continue
told = refl

send_status_update_told_example :
    Agrees reporting
      (λ w. w)
      reporting-Logs
      9
      8
      8
      false
      reports
      (send_status_update reporting 9 8 8 false stream reports).1
      (send_status_update reporting 9 8 8 false stream reports).2
send_status_update_told_example =
    send_status_update_told reporting (λ w. w) reporting-Logs 9 8 8 false stream reports
      stream-Remembers told

get_slot_name-ok_example : get_slot_name 7 (table_sync 16384) ≡ ok (slot_name 7 (table_sync 16384))
get_slot_name-ok_example = get_slot_name-ok 7 (table_sync 16384) (omega arith) (omega arith)

abbrev pipeline : ℕ
pipeline = 7

-- The name of worker 3 of pipeline 7.
seven_three : get_slot_name 7 (table_sync 3) ≡ ok (slot_name 7 (table_sync 3))
seven_three = get_slot_name-ok 7 (table_sync 3) (omega arith) (omega arith)

get_slot_name-injective_example : (pipeline ≡ pipeline) × (table_sync 3 ≡ table_sync 3)
get_slot_name-injective_example =
    get_slot_name-injective pipeline pipeline (table_sync 3) (table_sync 3)
      (slot_name 7 (table_sync 3)) seven_three seven_three
