-- ===== src/Workers/Pool/Report.antt =====
-- etl/src/workers/pool.rs: the errors of the workers that ended, and the result of waiting for the pool.
use pg_replicate.Base.{
  ℕ, suc, subst, ◌≢◌, ◌≡◌, refl, sym, ap, ◌∙◌, true, Option, none, some, List, [], ◌∷◌, ◌++◌,
  Result, ok, err, ◌⊎◌, inl, inr, Bool-cases, Any, Any-append_left, Any-append_right, ◌↔◌, is_empty,
  Text,
}
use pg_replicate.Base.Assoc.{Map, get, contains_key}
use pg_replicate.Workers.Base.{WorkerWaitError, worker_silently_failed}
use pg_replicate.Workers.Pool.Account.{on_event-started}
use pg_replicate.Workers.Pool.Wait.{AllFine, wait_inactive_iff, on_event-active}
use pg_replicate.Workers.TableSync.{TableSyncWorkerHandle}
use pg_replicate.Workers.Pool.{
  TableSyncWorkerPool, TableSyncWorkerInactiveReason, Finished, add_active, notify_waiting,
  push_inactive, set_worker_finished, PoolEvent, started, finished, contains, on_event, run_events,
  try_wait_all, after_attempt, wait_result, wait_inactive, wait_workers, wait_error, wait,
  completed, errored, Waited, wait_notified, wait_all,
}

Any-split : {A : Type 0} (P : A → Type 0) (xs ys : List A) → Any P (xs ++ ys) → Any P xs ⊎ Any P ys
Any-split P [] ys h = inr h
Any-split P (x ∷ xs) ys (inl p) = inl (inl p)
Any-split P (x ∷ xs) ys (inr h) = elim (Any-split P xs ys h) [ inl a ↦ inl (inr a) | inr b ↦ inr b ]

pub Any-append_iff :
    {A : Type 0} (P : A → Type 0) (xs ys : List A) → Any P (xs ++ ys) ↔ (Any P xs ⊎ Any P ys)
Any-append_iff P xs ys = (Any-split P xs ys, join)
  where
    join : Any P xs ⊎ Any P ys → Any P (xs ++ ys)
    join (inl a) = Any-append_left P xs ys a
    join (inr b) = Any-append_right P xs ys b

either_iff : {P Q R S : Type 0} → P ↔ R → Q ↔ S → (P ⊎ Q) ↔ (R ⊎ S)
either_iff (f, f') (g, g') = (go f g, go f' g')
  where
    go : {P Q R S : Type 0} → (P → R) → (Q → S) → P ⊎ Q → R ⊎ S
    go f g (inl p) = inl (f p)
    go f g (inr q) = inr (g q)

-- A task that ended with this error or panic, or that ended well though an error was reported.
abbrev pub FailsBy :
    WorkerWaitError → Result WorkerWaitError (Unit {0}) → TableSyncWorkerInactiveReason → Type 0
FailsBy e result finish =
    (result ≡ err e)
    ⊎ ((result ≡ ok tt)
        × (text : Text) × (finish ≡ TableSyncWorkerInactiveReason.errored text)
        × (e ≡ worker_silently_failed text))

abbrev errors_of_end :
    Result WorkerWaitError (Unit {0}) → TableSyncWorkerInactiveReason → List WorkerWaitError
errors_of_end result finish = elim result [
  | err e ↦ e ∷ []
  | ok u ↦ elim finish [ errored e ↦ worker_silently_failed e ∷ [] | completed ↦ [] ]
]

errors-FailsBy :
    (e : WorkerWaitError) (r : Result WorkerWaitError (Unit {0}))
    (f : TableSyncWorkerInactiveReason)
    → Any (λ x. x ≡ e) (errors_of_end r f)
    → FailsBy e r f
errors-FailsBy e (ok u) completed h = absurd h
errors-FailsBy e (ok u) (errored text) (inl h) = inr (refl, text, refl, sym h)
errors-FailsBy e (ok u) (errored text) (inr h) = absurd h
errors-FailsBy e (err x) f (inl h) = inl (ap err h)
errors-FailsBy e (err x) f (inr h) = absurd h

FailsBy-errors :
    (e : WorkerWaitError) (r : Result WorkerWaitError (Unit {0}))
    (f : TableSyncWorkerInactiveReason)
    → FailsBy e r f
    → Any (λ x. x ≡ e) (errors_of_end r f)
FailsBy-errors e (ok u) f (inl h) = cc
FailsBy-errors e (ok u) completed (inr (h, text, g, i)) = cc
FailsBy-errors e (ok u) (errored t) (inr (h, text, g, i)) = inl cc
FailsBy-errors e (err x) f (inl h) = inl cc
FailsBy-errors e (err x) f (inr (h, text, g, i)) = cc

compose_iff : {P Q R : Type 0} → P ↔ Q → Q ↔ R → P ↔ R
compose_iff (f, f') (g, g') = (λ p. g (f p), λ r. f' (g' r))

err-injective :
    {x y : List WorkerWaitError} {a b : Option (Result (List WorkerWaitError) (Unit {0}))}
    → a ≡ some (err x)
    → b ≡ some (err y)
    → a ≡ b
    → x ≡ y
err-injective ex ey e = cc

module _ {J : Type 0} (join : J → Result WorkerWaitError (Unit {0})) where
  abbrev pub Failed : WorkerWaitError → Finished J → Type 0
  Failed e (finish, worker) = FailsBy e (wait join worker) finish

  abbrev pub AnyFailed : WorkerWaitError → Map (List (Finished J)) → Type 0
  AnyFailed e inactive = Any (λ entry. Any (Failed e) entry.1) inactive

  -- The errors that a result of the wait has.
  abbrev pub reported : Result (List WorkerWaitError) (Unit {0}) → List WorkerWaitError
  reported (ok u) = []
  reported (err errors) = errors

  -- A result says of the workers that ended what became of them.
  abbrev pub ReportsOn : Result (List WorkerWaitError) (Unit {0}) → Map (List (Finished J)) → Type 0
  ReportsOn r inactive =
      ((e : WorkerWaitError) → Any (λ x. x ≡ e) (reported r) ↔ AnyFailed e inactive)
      × ((r ≡ ok tt) ↔ AllFine join inactive)
      × (r ≢ err [])

  wait_error-Failed :
      (e : WorkerWaitError) (w : Finished J) → Any (λ x. x ≡ e) (wait_error join w) ↔ Failed e w
  unfolding wait_error
  wait_error-Failed e (finish, worker) =
      (errors-FailsBy e (wait join worker) finish, FailsBy-errors e (wait join worker) finish)

  wait_workers-Failed :
      (e : WorkerWaitError) (ws : List (Finished J))
      → Any (λ x. x ≡ e) (wait_workers join ws) ↔ Any (Failed e) ws
  unfolding wait_workers
  wait_workers-Failed e [] = (λ h. h, λ h. h)
  wait_workers-Failed e (w ∷ ws) =
      compose_iff (Any-append_iff (λ x. x ≡ e) (wait_error join w) (wait_workers join ws))
        (either_iff (wait_error-Failed e w) (wait_workers-Failed e ws))

  wait_inactive-Failed :
      (e : WorkerWaitError) (m : Map (List (Finished J)))
      → Any (λ x. x ≡ e) (wait_inactive join m) ↔ AnyFailed e m
  unfolding wait_inactive
  wait_inactive-Failed e [] = (λ h. h, λ h. h)
  wait_inactive-Failed e ((t, ws) ∷ m) =
      compose_iff (Any-append_iff (λ x. x ≡ e) (wait_workers join ws) (wait_inactive join m))
        (either_iff (wait_workers-Failed e ws) (wait_inactive-Failed e m))

  wait_result-ReportsOn :
      (m : Map (List (Finished J))) (errors : List WorkerWaitError)
      → wait_inactive join m ≡ errors
      → (k : ℕ → TableSyncWorkerPool J → Waited join) (p : TableSyncWorkerPool J)
        (r : Result (List WorkerWaitError) (Unit {0}))
      → after_attempt join (wait_result join errors, p) k ≡ some r
      → ReportsOn r m
  unfolding after_attempt wait_result
  wait_result-ReportsOn m errors is k p r e = (
    λ x.
        compose_iff (same_errors errors r e x)
          (subst (λ es. Any (λ y. y ≡ x) es ↔ AnyFailed x m) is (wait_inactive-Failed x m)),
    compose_iff (same_ok errors r e)
        (subst (λ es. (es ≡ []) ↔ AllFine join m) is (wait_inactive_iff join m)),
    some_errors errors r e,
  )
    where
      same_errors :
          (errors : List WorkerWaitError) (r : Result (List WorkerWaitError) (Unit {0}))
          → after_attempt join (wait_result join errors, p) k ≡ some r
          → (x : WorkerWaitError) → Any (λ y. y ≡ x) (reported r) ↔ Any (λ y. y ≡ x) errors
      same_errors [] (ok u) e x = (λ h. h, λ h. h)
      same_errors [] (err es) e x = cc
      same_errors (y ∷ ys) (ok u) e x = cc
      same_errors (y ∷ ys) (err es) e x = (
        λ h. subst (Any (λ z. z ≡ x)) (sym (err-injective refl refl e)) h,
        λ h. subst (Any (λ z. z ≡ x)) (err-injective refl refl e) h,
      )

      some_errors :
          (errors : List WorkerWaitError) (r : Result (List WorkerWaitError) (Unit {0}))
          → after_attempt join (wait_result join errors, p) k ≡ some r
          → r ≢ err []
      some_errors [] r e h = cc
      some_errors (y ∷ ys) r e h = cc

      same_ok :
          (errors : List WorkerWaitError) (r : Result (List WorkerWaitError) (Unit {0}))
          → after_attempt join (wait_result join errors, p) k ≡ some r
          → (r ≡ ok tt) ↔ (errors ≡ [])
      same_ok [] (ok u) e = (λ h. refl, λ h. refl)
      same_ok [] (err es) e = cc
      same_ok (y ∷ ys) (ok u) e = cc
      same_ok (y ∷ ys) (err es) e = (λ h. cc, λ h. cc)

  -- Two pools with the same workers, whoever waits for them.
  abbrev SameWorkers : TableSyncWorkerPool J → TableSyncWorkerPool J → Type 0
  SameWorkers p q = (p.active ≡ q.active) × (p.inactive ≡ q.inactive)

  push_inactive-inactive :
      (t : ℕ) (reason : TableSyncWorkerInactiveReason) (o : Option (TableSyncWorkerHandle J))
      (a b : Option ℕ) (p q : TableSyncWorkerPool J)
      → p.inactive ≡ q.inactive
      → (push_inactive t reason o (notify_waiting a p)).inactive
        ≡ (push_inactive t reason o (notify_waiting b q)).inactive
  unfolding push_inactive notify_waiting
  push_inactive-inactive t reason none none none p q same = same
  push_inactive-inactive t reason none none (some n) p q same = same
  push_inactive-inactive t reason none (some n) none p q same = same
  push_inactive-inactive t reason none (some n) (some m) p q same = same
  push_inactive-inactive t reason (some w) none none p q same = rw same refl
  push_inactive-inactive t reason (some w) none (some n) p q same = rw same refl
  push_inactive-inactive t reason (some w) (some n) none p q same = rw same refl
  push_inactive-inactive t reason (some w) (some n) (some m) p q same = rw same refl

  on_event-inactive :
      (e : PoolEvent J) (p q : TableSyncWorkerPool J)
      → SameWorkers p q
      → (on_event e p).inactive ≡ (on_event e q).inactive
  unfolding on_event add_active set_worker_finished
  on_event-inactive (started t worker) p q (same, held) =
      rw (on_event-started t worker p, on_event-started t worker q, same)
        (elim (Bool-cases (contains_key q.active t)) [ inl e ↦ rw e held | inr e ↦ rw e held ])
  on_event-inactive (finished t reason) p q (same, held) =
      rw same (push_inactive-inactive t reason (get q.active t) p.waiting q.waiting _ _ held)

  on_event-SameWorkers :
      (e : PoolEvent J) (p q : TableSyncWorkerPool J)
      → SameWorkers p q
      → SameWorkers (on_event e p) (on_event e q)
  on_event-SameWorkers e p q h = (on_event-active e p q h.0, on_event-inactive e p q h)

  -- The wait ended, with this result, after some of the events, when no worker was active.
  abbrev pub Ended :
      List (PoolEvent J) → TableSyncWorkerPool J → Result (List WorkerWaitError) (Unit {0}) → Type 0
  Ended es pool r =
      (seen : List (PoolEvent J)) × (rest : List (PoolEvent J)) × (es ≡ seen ++ rest)
      × ((run_events seen pool).active ≡ [])
      × ReportsOn r (run_events seen pool).inactive

  Ended-cons :
      (e : PoolEvent J) (es : List (PoolEvent J)) (pool : TableSyncWorkerPool J)
      (r : Result (List WorkerWaitError) (Unit {0}))
      → Ended es (on_event e pool) r
      → Ended (e ∷ es) pool r
  unfolding run_events
  Ended-cons e es pool r (seen, rest, is, idle, reports) =
      (e ∷ seen, rest, ap (◌∷◌ e) is, idle, reports)

  is_empty-nil : {A : Type 0} (xs : List A) → is_empty xs ≡ true → xs ≡ []
  is_empty-nil [] e = refl
  is_empty-nil (x ∷ xs) e = cc

  attempt-Ended :
      (es : List (PoolEvent J)) (p q : TableSyncWorkerPool J)
      (k : ℕ → TableSyncWorkerPool J → Waited join) (r : Result (List WorkerWaitError) (Unit {0}))
      → SameWorkers p q
      → ((n : ℕ) (p' : TableSyncWorkerPool J) → SameWorkers p' q → k n p' ≡ some r → Ended es q r)
      → after_attempt join (try_wait_all join p) k ≡ some r
      → Ended es q r
  unfolding try_wait_all run_events
  attempt-Ended es p q k r (same, held) go e = elim (Bool-cases (is_empty p.active)) [
    | inl idle ↦ (
      [],
      es,
      refl,
      sym same ∙ is_empty-nil p.active idle,
      wait_result-ReportsOn q.inactive (wait_inactive join p.inactive)
          (ap (wait_inactive join) (sym held)) k _ r (rw idle at e),
    )
    | inr busy ↦
        go p.made (record p { waiting = some p.made; made = suc p.made }) (same, held)
          (unfold after_attempt in (rw busy at e))
  ]

  wait_notified-Ended :
      (es : List (PoolEvent J)) (n : ℕ) (p q : TableSyncWorkerPool J)
      (r : Result (List WorkerWaitError) (Unit {0}))
      → SameWorkers p q
      → wait_notified join es n p ≡ some r
      → Ended es q r
  unfolding wait_notified
  wait_notified-Ended [] n p q r same e = cc
  wait_notified-Ended (x ∷ es) n p q r same e =
      let same' = on_event-SameWorkers x p q same in
      Ended-cons x es q r (elim (Bool-cases (contains (on_event x p).permits n)) [
        | inl given ↦
            attempt-Ended es (on_event x p) (on_event x q) (wait_notified join es) r same'
              (λ m p' s e'. wait_notified-Ended es m p' (on_event x q) r s e')
              (rw (wait_notified, given) at e)
        | inr quiet ↦
            wait_notified-Ended es n (on_event x p) (on_event x q) r same'
              (rw (wait_notified, quiet) at e)
      ])

  -- If the wait for the pool returns, then no worker was active after some of what happened meanwhile, and
  -- its result has exactly the errors of the workers that had ended by then and failed: it has none, and
  -- is a success, exactly if all of them ended well.
  pub wait_all-Ended :
      (es : List (PoolEvent J)) (pool : TableSyncWorkerPool J)
      (r : Result (List WorkerWaitError) (Unit {0}))
      → wait_all join es pool ≡ some r
      → Ended es pool r
  unfolding wait_all
  wait_all-Ended es pool r e =
      attempt-Ended es pool pool (wait_notified join es) r (refl, refl)
        (λ n p same e'. wait_notified-Ended es n p pool r same e') e
