-- ===== src/Concurrency/Future.antt =====
-- etl/src/concurrency/future.rs: the future that calls a callback when the future inside it has ended.
pub mod Callback
pub mod Await
use pg_replicate.Base.{ℕ, Option, none, some, Result, ok, err, Text, codes}
use pg_replicate.Base.Loop.{Turn, return, again, run_turns}
use pg_replicate.Concurrency.{Poll, ready, pending}

pub data ReactiveFutureState : Type 0 where
  poll_inner_future : ReactiveFutureState
  -- with the error, as a text
  invoke_callback : Option Text → ReactiveFutureState
  finished : ReactiveFutureState

-- How a poll that is not pending ends: it returns, or the panic goes on.
pub data Outcome (E P : Type 0) : Type 0 where
  returned : Result E (Unit {0}) → Outcome E P
  resumed : P → Outcome E P

-- What the inner future came to, with its panic caught.
abbrev pub Inner : Type 0 → Type 0 → Type 0
Inner E P = Result P (Result E (Unit {0}))

-- The inner future, the lock on the callback's owner and the callback, on the state `W` of all of them,
-- and the operations on errors and on panics.
pub record Runtime (E P W : Type 0) : Type 0 where
  pub poll_future : W → Poll (Inner E P) × W
  -- whether the write lock is granted
  pub poll_lock : W → Poll (Unit {0}) × W
  pub on_complete : ℕ → W → W
  pub on_error : ℕ → Text → W → W
  pub display : E → Text
  -- the payload as `&str` and as `String`
  pub downcast_str : P → Option Text
  pub downcast_string : P → Option Text
  -- `Box::new` of a payload, as a payload
  pub boxed : P → P

-- `callback_fut` is the callback that waits for the lock, with what it will say.
pub record ReactiveFuture (E P W : Type 0) : Type 0 where
  pub world : W
  pub callback_fut : Option (ℕ × Option Text)
  pub state : ReactiveFutureState
  pub id : ℕ
  pub original_error : Option E
  pub original_panic : Option P

module _ {E P W : Type 0} (runtime : Runtime E P W) where
  abbrev pub new : ℕ → W → ReactiveFuture E P W
  new id world = record {
    world = world;
    callback_fut = none;
    state = ReactiveFutureState.poll_inner_future;
    id = id;
    original_error = none;
    original_panic = none;
  }

  pub panic_text : P → Text
  panic_text p = elim (runtime.downcast_str p) [
    | some s ↦ s
    | none ↦ elim (runtime.downcast_string p) [ some s ↦ s | none ↦ codes "Unknown panic error" ]
  ]

  abbrev pub Polled : Type 0
  Polled = Turn (ReactiveFuture E P W) (Poll (Outcome E P))

  pub on_inner : Poll (Inner E P) → ReactiveFuture E P W → Polled
  unfolding panic_text
  on_inner (ready (ok (ok u))) f =
      again (record f { state = ReactiveFutureState.invoke_callback none })
  on_inner (ready (ok (err e))) f = again (record f {
    original_error = some e;
    state = ReactiveFutureState.invoke_callback (some (runtime.display e));
  })
  on_inner (ready (err p)) f = again (record f {
    original_panic = some (runtime.boxed p);
    state = ReactiveFutureState.invoke_callback (some (panic_text p));
  })
  on_inner pending f = return pending f

  call_back : ℕ × Option Text → W → W
  call_back (id, some e) w = runtime.on_error id e w
  call_back (id, none) w = runtime.on_complete id w

  -- The callback's own future: it waits for the lock, and then tells.
  pub on_lock : ℕ × Option Text → Poll (Unit {0}) → ReactiveFuture E P W → Polled
  unfolding call_back
  on_lock callback (ready u) f =
      again (record f { world = call_back callback f.world; state = ReactiveFutureState.finished })
  on_lock callback pending f = return pending f

  pub poll_callback : Option (ℕ × Option Text) → ReactiveFuture E P W → Polled
  unfolding on_lock
  poll_callback none f = again f
  poll_callback (some callback) f =
      let (granted, w) = runtime.poll_lock f.world in
      on_lock callback granted (record f { world = w })

  -- The callback's future is made once.
  make_callback :
      Option (ℕ × Option Text) → Option Text → ReactiveFuture E P W → ReactiveFuture E P W
  make_callback none error f = record f { callback_fut = some (f.id, error) }
  make_callback (some callback) error f = f

  pub finish : Option P → Option E → ReactiveFuture E P W → Polled
  finish (some p) error f = return (ready (Outcome.resumed p)) (record f { original_panic = none })
  finish none (some e) f =
      return (ready (Outcome.returned (err e))) (record f { original_error = none })
  finish none none f = return (ready (Outcome.returned (ok tt))) f

  -- One turn of the loop.
  pub in_state : ReactiveFutureState → ReactiveFuture E P W → Polled
  unfolding on_inner make_callback poll_callback finish
  in_state ReactiveFutureState.poll_inner_future f =
      let (inner, w) = runtime.poll_future f.world in on_inner inner (record f { world = w })
  in_state (ReactiveFutureState.invoke_callback error) f =
      let g = make_callback f.callback_fut error f in poll_callback g.callback_fut g
  in_state ReactiveFutureState.finished f = finish f.original_panic f.original_error f

  pub turn : ReactiveFuture E P W → Polled
  unfolding in_state
  turn f = in_state f.state f

  -- Each turn that goes on enters the next of the three states.
  pub poll : ReactiveFuture E P W → Option (Poll (Outcome E P) × ReactiveFuture E P W)
  unfolding turn run_turns
  poll f = run_turns turn 3 f
