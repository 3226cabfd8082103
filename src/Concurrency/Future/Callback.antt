-- ===== src/Concurrency/Future/Callback.antt =====
-- etl/src/concurrency/future.rs: what happens in a poll of the reactive future, as a log, and the stages
-- that it goes through.
use pg_replicate.Base.{
  ℕ, ◌<◌, ◌≡◌, refl, sym, ◌∙◌, ap, subst, ◌⊎◌, inl, inr, Option, none, some, List, [], ◌∷◌, ◌++◌,
  append-nil, append_assoc, ok, err, Text, arith,
}
use pg_replicate.Base.Loop.{Turn, Progress, Returns, run_turns-Returns}
use pg_replicate.Concurrency.{Poll, ready, pending}
use pg_replicate.Concurrency.Future.{
  ReactiveFutureState, Outcome, Inner, Runtime, ReactiveFuture, panic_text, on_inner, on_lock,
  call_back, poll_callback, make_callback, finish, in_state, turn, poll,
}

-- What happens in the world: the inner future ends, and the callback is told.
pub data Happening (E P : Type 0) : Type 0 where
  ended : Inner E P → Happening E P
  called : ℕ → Option Text → Happening E P

module _ {E P : Type 0} where
  abbrev pub ended_of : Poll (Inner E P) → List (Happening E P)
  ended_of (ready r) = ended r ∷ []
  ended_of pending = []

  -- The error or the panic that is kept while the callback is told.
  abbrev pub error_of : Inner E P → Option E
  error_of (ok (err e)) = some e
  error_of r = none

-- `log` is what happened so far.
pub record Logs {E P W : Type 0} (runtime : Runtime E P W) (log : W → List (Happening E P))
    : Type 0 where
  pub polled : (w : W) → log (runtime.poll_future w).1 ≡ log w ++ ended_of (runtime.poll_future w).0
  pub locked : (w : W) → log (runtime.poll_lock w).1 ≡ log w
  pub completed : (id : ℕ) (w : W) → log (runtime.on_complete id w) ≡ log w ++ called id none ∷ []
  pub errored :
      (id : ℕ) (e : Text) (w : W) → log (runtime.on_error id e w) ≡ log w ++ called id (some e) ∷ []

module _ {E P W : Type 0} (runtime : Runtime E P W) where
  abbrev pub panic_of : Inner E P → Option P
  panic_of (err p) = some (runtime.boxed p)
  panic_of r = none

  -- What the callback is told: the error or the panic as a text.
  abbrev pub report : Inner E P → Option Text
  report (ok (ok u)) = none
  report (ok (err e)) = some (runtime.display e)
  report (err p) = some (panic_text runtime p)

  -- How the future ends.
  abbrev pub outcome : Inner E P → Outcome E P
  outcome (ok r) = Outcome.returned r
  outcome (err p) = Outcome.resumed (runtime.boxed p)

  -- How far the future is.
  pub data Stage : Type 0 where
    fresh : Stage
    telling told : Inner E P → Stage

  module _ (log : W → List (Happening E P)) (before : List (Happening E P)) (id : ℕ) where
    pub record IsKeeping (r : Inner E P) (f : ReactiveFuture E P W) : Type 0 where
      pub error : f.original_error ≡ error_of r
      pub panic : f.original_panic ≡ panic_of r

    abbrev pub IsAt : Stage → ReactiveFuture E P W → Type 0
    IsAt fresh f =
        (f.state ≡ ReactiveFutureState.poll_inner_future)
        × (f.original_error ≡ none)
        × (f.original_panic ≡ none)
        × (f.callback_fut ≡ none)
        × (f.id ≡ id)
        × (log f.world ≡ before)
    IsAt (telling r) f =
        (f.state ≡ ReactiveFutureState.invoke_callback (report r))
        × IsKeeping r f
        × ((f.callback_fut ≡ none) ⊎ (f.callback_fut ≡ some (id, report r)))
        × (f.id ≡ id)
        × (log f.world ≡ before ++ ended r ∷ [])
    IsAt (told r) f =
        (f.state ≡ ReactiveFutureState.finished)
        × IsKeeping r f
        × (log f.world ≡ before ++ ended r ∷ called id (report r) ∷ [])

    abbrev pub IsStarted : ReactiveFuture E P W → Type 0
    IsStarted f = (stage : Stage) × IsAt stage f

    abbrev pub IsAnswer : Poll (Outcome E P) → ReactiveFuture E P W → Type 0
    IsAnswer pending f = IsAt fresh f ⊎ ((r : Inner E P) × IsAt (telling r) f)
    IsAnswer (ready o) f =
        (r : Inner E P) × (o ≡ outcome r)
        × (log f.world ≡ before ++ ended r ∷ called id (report r) ∷ [])

abbrev rank : ReactiveFutureState → ℕ
rank ReactiveFutureState.poll_inner_future = 2
rank (ReactiveFutureState.invoke_callback error) = 1
rank ReactiveFutureState.finished = 0

rank-lt : (state : ReactiveFutureState) → rank state < 3
rank-lt ReactiveFutureState.poll_inner_future = omega arith
rank-lt (ReactiveFutureState.invoke_callback error) = omega arith
rank-lt ReactiveFutureState.finished = omega arith

module _ {E P W : Type 0} (runtime : Runtime E P W) (log : W → List (Happening E P))
    (logs : Logs runtime log) (before : List (Happening E P)) (id : ℕ) where
  abbrev Goes : ℕ → Turn (ReactiveFuture E P W) (Poll (Outcome E P)) → Type 0
  Goes n t =
      Progress (IsStarted runtime log before id) (IsAnswer runtime log before id)
        (λ f. rank f.state) n t

  on_inner-Goes :
      (inner : Poll (Inner E P)) (f : ReactiveFuture E P W)
      → f.state ≡ ReactiveFutureState.poll_inner_future
      → f.original_error ≡ none
      → f.original_panic ≡ none
      → f.callback_fut ≡ none
      → f.id ≡ id
      → log f.world ≡ before ++ ended_of inner
      → Goes 2 (on_inner runtime inner f)
  unfolding on_inner
  on_inner-Goes (ready (ok (ok u))) f at error panic callback same is = (
    (telling (ok (ok u)), (refl, record { error = error; panic = panic }, inl callback, same, is)),
    omega arith,
  )
  on_inner-Goes (ready (ok (err e))) f at error panic callback same is = (
    (telling (ok (err e)), (refl, record { error = refl; panic = panic }, inl callback, same, is)),
    omega arith,
  )
  on_inner-Goes (ready (err p)) f at error panic callback same is = (
    (telling (err p), (refl, record { error = error; panic = refl }, inl callback, same, is)),
    omega arith,
  )
  on_inner-Goes pending f at error panic callback same is =
      inl (at, error, panic, callback, same, is ∙ append-nil before)

  call_back-log :
      (report : Option Text) (w : W)
      → log (call_back runtime (id, report) w) ≡ log w ++ called id report ∷ []
  unfolding call_back
  call_back-log none w = logs.completed id w
  call_back-log (some e) w = logs.errored id e w

  on_lock-Goes :
      (r : Inner E P) (granted : Poll (Unit {0})) (f : ReactiveFuture E P W)
      → IsAt runtime log before id (telling r) f
      → f.callback_fut ≡ some (id, report runtime r)
      → Goes 1 (on_lock runtime (id, report runtime r) granted f)
  unfolding on_lock
  on_lock-Goes r (ready u) f (at, kept, callback, same, is) made = (
    (
      told r,
      (
        refl,
        record { error = kept.error; panic = kept.panic },
        call_back-log (report runtime r) f.world
            ∙ ap (λ l. l ++ called id (report runtime r) ∷ []) is
            ∙ append_assoc before (ended r ∷ []) (called id (report runtime r) ∷ []),
      ),
    ),
    omega arith,
  )
  on_lock-Goes r pending f h made = inr (r, h)

  finish-Goes :
      (r : Inner E P) (f : ReactiveFuture E P W)
      → IsAt runtime log before id (told r) f
      → Goes 0 (finish runtime f.original_panic f.original_error f)
  unfolding finish
  finish-Goes (ok (ok u)) f (at, kept, is) = rw (kept.panic, kept.error) (ok (ok u), refl, is)
  finish-Goes (ok (err e)) f (at, kept, is) = rw (kept.panic, kept.error) (ok (err e), refl, is)
  finish-Goes (err p) f (at, kept, is) = rw kept.panic (err p, refl, is)

  poll_callback-Goes :
      (r : Inner E P) (f : ReactiveFuture E P W)
      → IsAt runtime log before id (telling r) f
      → f.callback_fut ≡ some (id, report runtime r)
      → Goes 1 (poll_callback runtime f.callback_fut f)
  unfolding poll_callback
  poll_callback-Goes r f (at, kept, callback, same, is) made =
      subst (λ c. Goes 1 (poll_callback runtime c f)) (sym made)
        (on_lock-Goes r _ (record f { world = (runtime.poll_lock f.world).1 })
          (
            at,
            record { error = kept.error; panic = kept.panic },
            callback,
            same,
            logs.locked f.world ∙ is,
          )
          made)

  make_callback-IsAt :
      (r : Inner E P) (callback : Option (ℕ × Option Text)) (f : ReactiveFuture E P W)
      → f.callback_fut ≡ callback
      → IsAt runtime log before id (telling r) f
      → IsAt runtime log before id (telling r) (make_callback runtime callback (report runtime r) f)
        × ((make_callback runtime callback (report runtime r) f).callback_fut
            ≡ some (id, report runtime r))
  unfolding make_callback
  make_callback-IsAt r none f e (at, kept, callback, same, is) =
      let made : some (f.id, report runtime r) ≡ some (id, report runtime r) =
        ap (λ i. some (i, report runtime r)) same in
      ((at, record { error = kept.error; panic = kept.panic }, inr made, same, is), made)
  make_callback-IsAt r (some c) f e (at, kept, inl callback, same, is) =
      absurd (some-ne (sym e ∙ callback))
    where
      some-ne : {A : Type 0} {a : A} → some a ≡ none → ⊥
      some-ne e = cc
  make_callback-IsAt r (some c) f e (at, kept, inr callback, same, is) =
      ((at, kept, inr callback, same, is), callback)

  telling-Goes :
      (r : Inner E P) (f : ReactiveFuture E P W)
      → IsAt runtime log before id (telling r) f
      → Goes 1 (in_state runtime (ReactiveFutureState.invoke_callback (report runtime r)) f)
  unfolding in_state
  telling-Goes r f h =
      let (h', made) = make_callback-IsAt r f.callback_fut f refl h in
      poll_callback-Goes r _ h' made

  turn-Goes :
      (f : ReactiveFuture E P W)
      → IsStarted runtime log before id f
      → Goes (rank f.state) (turn runtime f)
  unfolding turn in_state
  turn-Goes f (fresh, (at, error, panic, callback, same, is)) =
      subst (λ st. Goes (rank st) (in_state runtime st f)) (sym at)
        (on_inner-Goes _ (record f { world = (runtime.poll_future f.world).1 }) at error panic
          callback same
          (logs.polled f.world ∙ ap (λ l. l ++ ended_of (runtime.poll_future f.world).0) is))
  turn-Goes f (telling r, h) =
      subst (λ st. Goes (rank st) (in_state runtime st f)) (sym h.0) (telling-Goes r f h)
  turn-Goes f (told r, h) =
      subst (λ st. Goes (rank st) (in_state runtime st f)) (sym h.0) (finish-Goes r f h)

  pub poll-Returns :
      (f : ReactiveFuture E P W)
      → IsStarted runtime log before id f
      → Returns (IsAnswer runtime log before id) (poll runtime f)
  unfolding poll
  poll-Returns f h =
      run_turns-Returns (turn runtime) (IsStarted runtime log before id)
        (IsAnswer runtime log before id) (λ f. rank f.state) turn-Goes 3 f h (rank-lt f.state)
