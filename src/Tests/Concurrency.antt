-- ===== src/Tests/Concurrency.antt =====
-- The batched stream and the reactive future at concrete inputs.
use pg_replicate.Base.{
  ℕ, zero, suc, ◌≡◌, ◌<◌, refl, true, false, Option, none, some, List, [], ◌∷◌, ◌++◌, ok, err,
  arith, max, length, All, codes, sym, append-nil, inl, inr,
}
use pg_replicate.Concurrency.{Poll, ready, pending}
use pg_replicate.Concurrency.Stream.{BatchStream, Batch, wrap, poll_next}
use pg_replicate.Concurrency.Stream
use pg_replicate.Concurrency.Stream.Batches.{Gives, IsBatching, IsSized, arrived, IsOver}
use pg_replicate.Concurrency.Stream.Polls.{
  all_passed, poll_times, poll_times-IsPolled, last-poll_next,
}
use pg_replicate.Concurrency.Future.{Outcome, Inner, ReactiveFuture}
use pg_replicate.Concurrency.Future
use pg_replicate.Concurrency.Future.Callback.{
  Happening, Logs, ended, called, IsAnswer, ended_of, outcome, report,
}
use pg_replicate.Concurrency.Future.Await.{await, Spends, Wakes, await-IsAnswer, await-ends}
use pg_replicate.Concurrency.Shutdown.{ShutdownResult}
use pg_replicate.Replication.Apply.Loop.{BatchConfig}

-- What the inner stream still gives, and what it gave.
record Source : Type 0 where
  left : List (Poll (Option ℕ))
  given : List ℕ

abbrev next : List (Poll (Option ℕ)) → List ℕ → Poll (Option ℕ) × Source
next [] given = (ready none, record { left = []; given = given })
next (p ∷ left) given = (p, record { left = left; given = given ++ arrived p })

abbrev runtime : Stream.Runtime ℕ ℕ Source
runtime = record {
  poll_inner = λ w. next w.left w.given;
  has_changed = λ w. some false;
  sleep = λ ms w. ms;
  poll_sleep = λ d w. (ready tt, w);
}

given-next :
    (left : List (Poll (Option ℕ))) (given : List ℕ)
    → (next left given).1.given ≡ given ++ arrived (next left given).0
given-next [] given = sym (append-nil given)
given-next (p ∷ left) given = refl

runtime-Gives : Gives runtime (λ w. w.given)
runtime-Gives = record { polled = λ w. given-next w.left w.given; slept = λ d w. refl }

abbrev batch_config : BatchConfig
batch_config = record { max_size = 2; max_fill_ms = 1000 }

abbrev source : Source
source = record {
  left = ready (some 7) ∷ pending ∷ ready (some 8) ∷ ready (some 9) ∷ [];
  given = [];
}

poll_times-IsPolled_example :
    (answers : List (Poll (Option (Batch ℕ)))) × (s : BatchStream ℕ ℕ Source) × (poll_times runtime
        4
        (wrap runtime source batch_config)
      ≡ some (answers, s))
    × (s.stream.given ≡ all_passed answers ++ s.items)
    × All (IsSized 2) answers
    × (length s.items < max 1 2)
poll_times-IsPolled_example =
    poll_times-IsPolled runtime (λ w. w.given) runtime-Gives batch_config 4 source refl

-- A stream that holds an item when the shutdown signal comes.
abbrev stopping : Stream.Runtime ℕ ℕ Source
stopping = record runtime { has_changed = λ w. some true }

stopping-Gives : Gives stopping (λ w. w.given)
stopping-Gives = record { polled = λ w. given-next w.left w.given; slept = λ d w. refl }

abbrev held : BatchStream ℕ ℕ Source
held = record {
  stream = record { left = ready (some 8) ∷ []; given = 6 ∷ 7 ∷ [] };
  deadline = none;
  items = 7 ∷ [];
  batch_config = batch_config;
  reset_timer = true;
  inner_stream_ended = false;
  stream_stopped = false;
}

abbrev stopped : BatchStream ℕ ℕ Source
stopped = record held { items = []; stream_stopped = true }

abbrev last_answer : Poll (Option (Batch ℕ))
last_answer = ready (some (ShutdownResult.shutdown (7 ∷ [])))

held-stopped : poll_next stopping held ≡ some (last_answer, stopped)
unfolding poll_next
held-stopped = refl

held-open : IsOver held → held.items ≡ []
held-open (inl e) = cc
held-open (inr e) = cc

held-IsBatching : IsBatching (λ w. w.given) batch_config (6 ∷ []) held
held-IsBatching = record { fed = refl; same = refl; fits = omega arith; over = held-open }

last-poll_next_example :
    (stopped.stream.given ≡ (6 ∷ []) ++ 7 ∷ [])
    × (stopped.items ≡ [])
    × (poll_next stopping stopped ≡ some (ready none, stopped))
last-poll_next_example =
    last-poll_next stopping (λ w. w.given) stopping-Gives batch_config (6 ∷ []) held stopped
      last_answer held-IsBatching held-stopped tt

-- An inner future that fails after some waiting, and what happened.
record Task : Type 0 where
  waits : ℕ
  log : List (Happening ℕ ℕ)

abbrev poll_task : ℕ → List (Happening ℕ ℕ) → Poll (Inner ℕ ℕ) × Task
poll_task zero log =
    (ready (ok (err 3)), record { waits = 0; log = log ++ ended (ok (err 3)) ∷ [] })
poll_task (suc n) log = (pending, record { waits = n; log = log })

abbrev failing : Future.Runtime ℕ ℕ Task
failing = record {
  poll_future = λ w. poll_task w.waits w.log;
  poll_lock = λ w. (ready tt, w);
  on_complete = λ id w. record w { log = w.log ++ called id none ∷ [] };
  on_error = λ id e w. record w { log = w.log ++ called id (some e) ∷ [] };
  display = λ e. codes "failed";
  downcast_str = λ p. none;
  downcast_string = λ p. none;
  boxed = λ p. p;
}

log-poll_task :
    (n : ℕ) (log : List (Happening ℕ ℕ))
    → (poll_task n log).1.log ≡ log ++ ended_of (poll_task n log).0
log-poll_task zero log = refl
log-poll_task (suc n) log = sym (append-nil log)

failing-Logs : Logs failing (λ w. w.log)
failing-Logs = record {
  polled = λ w. log-poll_task w.waits w.log;
  locked = λ w. refl;
  completed = λ id w. refl;
  errored = λ id e w. refl;
}

waits-poll_task :
    (n : ℕ) (log : List (Happening ℕ ℕ)) → Spends n (poll_task n log).0 (poll_task n log).1.waits
waits-poll_task zero log = omega arith
waits-poll_task (suc n) log = omega arith

failing-Wakes : Wakes failing (λ w. w.waits)
failing-Wakes = record {
  polled = λ w. waits-poll_task w.waits w.log;
  locked = λ w. omega arith;
  completed = λ id w. omega arith;
  errored = λ id e w. omega arith;
}

abbrev task : Task
task = record { waits = 2; log = [] }

await-IsAnswer_example :
    (answer : Poll (Outcome ℕ ℕ)) × (f : ReactiveFuture ℕ ℕ Task) × (await failing 2
        (Future.new failing 5 task)
      ≡ some (answer, f))
    × IsAnswer failing (λ w. w.log) [] 5 answer f
await-IsAnswer_example = await-IsAnswer failing (λ w. w.log) failing-Logs [] 5 2 task refl

await-ends_example :
    (result : Outcome ℕ ℕ) × (f : ReactiveFuture ℕ ℕ Task) × (r : Inner ℕ ℕ) × (await failing 3
        (Future.new failing 5 task)
      ≡ some (ready result, f))
    × (result ≡ outcome failing r)
    × (f.world.log ≡ [] ++ ended r ∷ called 5 (report failing r) ∷ [])
await-ends_example =
    await-ends failing (λ w. w.log) failing-Logs [] 5 (λ w. w.waits) failing-Wakes 3 task refl
      (omega arith)
