-- ===== src/Concurrency/Future/Await.antt =====
-- etl/src/concurrency/future.rs: polling the reactive future a number of times.
use mathlib.Core.Option
use pg_replicate.Base.{
  ℕ, zero, suc, ◌≤◌, ◌<◌, ◌≡◌, refl, sym, subst, inl, inr, Option, none, some, List, ◌∷◌, [], ◌++◌,
  ok, err, Text, arith,
}
use pg_replicate.Base.Loop.{Turn, Kept, OfSome, run_turns-Kept, Returns, Returns-is}
use pg_replicate.Concurrency.{Poll, ready, pending}
use pg_replicate.Concurrency.Future.{
  ReactiveFutureState, Outcome, Inner, Runtime, ReactiveFuture, new, on_inner, on_lock, call_back,
  poll_callback, make_callback, finish, in_state, turn, poll,
}
use pg_replicate.Concurrency.Future.Callback.{
  Happening, ended, called, Logs, IsStarted, IsAnswer, fresh, telling, outcome, report,
  poll-Returns,
}

-- At most `n` polls, until the future is ready.
pub await :
    {E P W : Type 0}
    → Runtime E P W
    → ℕ
    → ReactiveFuture E P W
    → Option (Poll (Outcome E P) × ReactiveFuture E P W)
await runtime zero f = some (pending, f)
await runtime (suc n) f =
    Option.bind (poll runtime f)
      λ (answer, f'). elim answer [ ready o ↦ some (ready o, f') | pending ↦ await runtime n f' ]

-- What is left after an answer, of what there was.
abbrev pub Spends : {A : Type 0} → ℕ → Poll A → ℕ → Type 0
Spends before (ready a) after = after ≤ before
Spends before pending after = after < before

-- `waits` bounds how often the inner future and the lock are still not ready.
pub record Wakes {E P W : Type 0} (runtime : Runtime E P W) (waits : W → ℕ) : Type 0 where
  pub polled :
      (w : W) → Spends (waits w) (runtime.poll_future w).0 (waits (runtime.poll_future w).1)
  pub locked : (w : W) → Spends (waits w) (runtime.poll_lock w).0 (waits (runtime.poll_lock w).1)
  pub completed : (id : ℕ) (w : W) → waits (runtime.on_complete id w) ≤ waits w
  pub errored : (id : ℕ) (e : Text) (w : W) → waits (runtime.on_error id e w) ≤ waits w

module _ {E P W : Type 0} (runtime : Runtime E P W) (waits : W → ℕ) (wakes : Wakes runtime waits)
    (before : ℕ) where
  abbrev Lasts : ReactiveFuture E P W → Type 0
  Lasts f = waits f.world ≤ before

  abbrev SpentBy : Poll (Outcome E P) → ReactiveFuture E P W → Type 0
  SpentBy answer f = Spends before answer (waits f.world)

  abbrev Goes : Turn (ReactiveFuture E P W) (Poll (Outcome E P)) → Type 0
  Goes t = Kept Lasts SpentBy t

  on_inner-Goes :
      (b : ℕ) (inner : Poll (Inner E P)) (f : ReactiveFuture E P W)
      → b ≤ before
      → Spends b inner (waits f.world)
      → Goes (on_inner runtime inner f)
  unfolding on_inner
  on_inner-Goes b (ready (ok (ok u))) f h s = omega arith
  on_inner-Goes b (ready (ok (err e))) f h s = omega arith
  on_inner-Goes b (ready (err p)) f h s = omega arith
  on_inner-Goes b pending f h s = omega arith

  call_back-waits :
      (callback : ℕ × Option Text) (w : W) → waits (call_back runtime callback w) ≤ waits w
  unfolding call_back
  call_back-waits (id, none) w = wakes.completed id w
  call_back-waits (id, some e) w = wakes.errored id e w

  on_lock-Goes :
      (b : ℕ) (callback : ℕ × Option Text) (granted : Poll (Unit {0})) (f : ReactiveFuture E P W)
      → b ≤ before
      → Spends b granted (waits f.world)
      → Goes (on_lock runtime callback granted f)
  unfolding on_lock
  on_lock-Goes b callback (ready u) f h s = omega (arith, call_back-waits callback f.world)
  on_lock-Goes b callback pending f h s = omega arith

  poll_callback-Goes :
      (callback : Option (ℕ × Option Text)) (f : ReactiveFuture E P W)
      → Lasts f
      → Goes (poll_callback runtime callback f)
  unfolding poll_callback
  poll_callback-Goes none f h = h
  poll_callback-Goes (some callback) f h =
      on_lock-Goes (waits f.world) callback _ _ h (wakes.locked f.world)

  make_callback-waits :
      (callback : Option (ℕ × Option Text)) (error : Option Text) (f : ReactiveFuture E P W)
      → waits (make_callback runtime callback error f).world ≡ waits f.world
  unfolding make_callback
  make_callback-waits none error f = refl
  make_callback-waits (some callback) error f = refl

  finish-Goes :
      (panic : Option P) (error : Option E) (f : ReactiveFuture E P W)
      → Lasts f
      → Goes (finish runtime panic error f)
  unfolding finish
  finish-Goes (some p) error f h = h
  finish-Goes none (some e) f h = h
  finish-Goes none none f h = h

  in_state-Goes :
      (state : ReactiveFutureState) (f : ReactiveFuture E P W)
      → Lasts f
      → Goes (in_state runtime state f)
  unfolding in_state
  in_state-Goes ReactiveFutureState.poll_inner_future f h =
      on_inner-Goes (waits f.world) _ _ h (wakes.polled f.world)
  in_state-Goes (ReactiveFutureState.invoke_callback error) f h =
      poll_callback-Goes _ _ (rw (make_callback-waits f.callback_fut error f) h)
  in_state-Goes ReactiveFutureState.finished f h = finish-Goes _ _ f h

  poll-SpentBy : (f : ReactiveFuture E P W) → Lasts f → OfSome SpentBy (poll runtime f)
  unfolding poll turn
  poll-SpentBy f h =
      run_turns-Kept (turn runtime) Lasts SpentBy (λ f h. in_state-Goes f.state f h) 3 f h

module _ {E P W : Type 0} (runtime : Runtime E P W) (log : W → List (Happening E P))
    (logs : Logs runtime log) (before : List (Happening E P)) (id : ℕ) where
  abbrev Ends : Option (Poll (Outcome E P) × ReactiveFuture E P W) → Type 0
  Ends o = Returns (IsAnswer runtime log before id) o

  await-suc :
      (n : ℕ) (f f' : ReactiveFuture E P W) (answer : Poll (Outcome E P))
      → poll runtime f ≡ some (answer, f')
      → await runtime (suc n) f
        ≡ (elim answer [ ready o ↦ some (ready o, f') | pending ↦ await runtime n f' ])
  unfolding await Option.bind
  await-suc n f f' answer e = rw e refl

  started :
      (f : ReactiveFuture E P W)
      → IsAnswer runtime log before id pending f
      → IsStarted runtime log before id f
  started f (inl h) = (fresh, h)
  started f (inr (r, h)) = (telling r, h)

  after :
      (n : ℕ)
      → ((f : ReactiveFuture E P W)
          → IsAnswer runtime log before id pending f
          → Ends (await runtime n f))
      → (answer : Poll (Outcome E P)) (f : ReactiveFuture E P W)
      → IsAnswer runtime log before id answer f
      → Ends (elim answer [ ready o ↦ some (ready o, f) | pending ↦ await runtime n f ])
  after n rest (ready o) f h = (ready o, f, refl, h)
  after n rest pending f h = rest f h

  await-from :
      (n : ℕ) (f : ReactiveFuture E P W)
      → IsAnswer runtime log before id pending f
      → Ends (await runtime n f)
  unfolding await
  await-from zero f h = (pending, f, refl, h)
  await-from (suc n) f h =
      let (answer, f', e, is) = poll-Returns runtime log logs before id f (started f h) in
      subst Ends (sym (await-suc n f f' answer e)) (after n (await-from n) answer f' is)

  -- A new reactive future that is polled any number of times answers every time. While it is pending the
  -- callback was not told. When it ends, the inner future has ended before and the callback was told
  -- once, with the error or the panic as a text or with none. The future then returns what the inner one
  -- returned, a success or the error itself; after a panic it resumes the panic with the payload that was
  -- caught, boxed once more.
  pub await-IsAnswer :
      (n : ℕ) (w : W)
      → log w ≡ before
      → (answer : Poll (Outcome E P)) × (f : ReactiveFuture E P W) × (await runtime n
            (new runtime id w)
          ≡ some (answer, f))
        × IsAnswer runtime log before id answer f
  await-IsAnswer n w e = await-from n (new runtime id w) (inl (refl, refl, refl, refl, refl, e))

  -- Where the inner future and the lock are not ready a bounded number of times, one more poll than that
  -- is enough: the future ends.
  module _ (waits : W → ℕ) (wakes : Wakes runtime waits) where
    abbrev IsOutcome : Option (Poll (Outcome E P) × ReactiveFuture E P W) → Type 0
    IsOutcome o = (result : Outcome E P) × (f : ReactiveFuture E P W) × (o ≡ some (ready result, f))

    after-ready :
        (n : ℕ)
        → ((f : ReactiveFuture E P W)
            → IsAnswer runtime log before id pending f
            → waits f.world < n
            → IsOutcome (await runtime n f))
        → (answer : Poll (Outcome E P)) (f : ReactiveFuture E P W)
        → IsAnswer runtime log before id answer f
        → Spends n answer (waits f.world)
        → IsOutcome (elim answer [ ready o ↦ some (ready o, f) | pending ↦ await runtime n f ])
    after-ready n rest (ready o) f h s = (o, f, refl)
    after-ready n rest pending f h s = rest f h s

    await-ready :
        (n : ℕ) (f : ReactiveFuture E P W)
        → IsAnswer runtime log before id pending f
        → waits f.world < n
        → IsOutcome (await runtime n f)
    await-ready zero f h enough = absurd (omega arith)
    await-ready (suc n) f h enough =
        let (answer, f', e, is) = poll-Returns runtime log logs before id f (started f h) in
        let spent = subst (OfSome _) e (poll-SpentBy runtime waits wakes n f (omega arith)) in
        subst IsOutcome (sym (await-suc n f f' answer e))
          (after-ready n (await-ready n) answer f' is spent)

    -- A new reactive future ends when it is polled more often than the inner future and the lock are found
    -- not ready, and then its callback was told once.
    pub await-ends :
        (n : ℕ) (w : W)
        → log w ≡ before
        → waits w < n
        → (result : Outcome E P) × (f : ReactiveFuture E P W) × (r : Inner E P) × (await runtime n
              (new runtime id w)
            ≡ some (ready result, f))
          × (result ≡ outcome runtime r)
          × (log f.world ≡ before ++ ended r ∷ called id (report runtime r) ∷ [])
    await-ends n w e enough =
        let start = inl (refl, refl, refl, refl, refl, e) in
        let (result, f, got) = await-ready n (new runtime id w) start enough in
        let (r, same, logged) = Returns-is (await-from n (new runtime id w) start) got in
        (result, f, r, got, same, logged)
