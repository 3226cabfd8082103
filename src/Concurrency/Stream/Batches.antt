-- ===== src/Concurrency/Stream/Batches.antt =====
-- etl/src/concurrency/stream.rs: the state of the batched stream between polls, and lemmas on one poll.
use pg_replicate.Base.{
  ℕ, suc, ◌-◌, ◌≤◌, ◌<◌, max, ◌≡◌, refl, sym, ◌∙◌, ap, ◌⊎◌, inl, inr, Bool, true, false, Option,
  none, some, List, [], ◌∷◌, ◌++◌, append-nil, append_assoc, length, length-append, is_empty, leb,
  arith, Bool-cases, if-elim,
}
use pg_replicate.Base.Loop.{Turn, return, Progress, Returns, run_turns-Returns}
use pg_replicate.Concurrency.{Poll, ready, pending}
use pg_replicate.Concurrency.Shutdown.{ShutdownResult}
use pg_replicate.Replication.Apply.Loop.{BatchConfig}
use pg_replicate.Concurrency.Stream.{
  Runtime, BatchStream, Batch, start_timer, take_batch, give_batch, end_stream, on_item, on_pending,
  on_deadline, check_deadline, unwrap_or_false, on_polled, poll_stream, turn, poll_next,
}

module _ {B : Type 0} where
  -- What one answer of the inner stream adds.
  abbrev pub arrived : Poll (Option B) → List B
  arrived (ready (some b)) = b ∷ []
  arrived p = []

  -- The items that an answer of the batched stream passes on.
  abbrev pub passed : Poll (Option (Batch B)) → List B
  passed (ready (some (ShutdownResult.ok items))) = items
  passed (ready (some (ShutdownResult.shutdown items))) = items
  passed p = []

  -- A batch has an item, and at most `max_size` (one, where that is zero). What a shutdown leaves is no
  -- full batch.
  abbrev pub IsSized : ℕ → Poll (Option (Batch B)) → Type 0
  IsSized size (ready (some (ShutdownResult.ok items))) =
      (1 ≤ length items) × (length items ≤ max 1 size)
  IsSized size (ready (some (ShutdownResult.shutdown items))) = length items < max 1 size
  IsSized size p = Unit

  -- The answers after which the stream gives nothing more.
  abbrev pub IsLast : Poll (Option (Batch B)) → Type 0
  IsLast (ready none) = Unit
  IsLast (ready (some (ShutdownResult.shutdown items))) = Unit
  IsLast p = ⊥

module _ {B Sleep W : Type 0} where
  abbrev pub IsOver : BatchStream B Sleep W → Type 0
  IsOver s = (s.inner_stream_ended ≡ true) ⊎ (s.stream_stopped ≡ true)

is_empty-nil : {A : Type 0} (xs : List A) → is_empty xs ≡ true → xs ≡ []
is_empty-nil [] e = refl
is_empty-nil (x ∷ xs) e = cc

is_empty-cons : {A : Type 0} (xs : List A) → is_empty xs ≡ false → 1 ≤ length xs
is_empty-cons [] e = cc
is_empty-cons (x ∷ xs) e = omega arith

leb-false : (a b : ℕ) → leb a b ≡ false → b < a
leb-false a b e = ground arith

not-over : {a b : Bool} → a ≡ false → b ≡ false → (a ≡ true) ⊎ (b ≡ true) → ⊥
not-over ea eb (inl e) = cc
not-over ea eb (inr e) = cc

-- `given` is what the inner stream gave so far.
pub record Gives {B Sleep W : Type 0} (runtime : Runtime B Sleep W) (given : W → List B)
    : Type 0 where
  pub polled :
      (w : W) → given (runtime.poll_inner w).1 ≡ given w ++ arrived (runtime.poll_inner w).0
  pub slept : (d : Sleep) (w : W) → given (runtime.poll_sleep d w).1 ≡ given w

-- The state between polls, when `delivered` was passed on.
pub record IsBatching {B Sleep W : Type 0} (given : W → List B) (batch_config : BatchConfig)
    (delivered : List B) (s : BatchStream B Sleep W) : Type 0 where
  pub fed : given s.stream ≡ delivered ++ s.items
  pub same : s.batch_config ≡ batch_config
  pub fits : length s.items < max 1 batch_config.max_size
  pub over : IsOver s → s.items ≡ []

-- The same, where the stream goes on.
pub record IsGoing {B Sleep W : Type 0} (given : W → List B) (batch_config : BatchConfig)
    (delivered : List B) (s : BatchStream B Sleep W) : Type 0 where
  pub batching : IsBatching given batch_config delivered s
  pub open_yet : s.inner_stream_ended ≡ false

-- What an answer leaves.
pub record IsAnswer {B Sleep W : Type 0} (given : W → List B) (batch_config : BatchConfig)
    (delivered : List B) (answer : Poll (Option (Batch B))) (s : BatchStream B Sleep W)
    : Type 0 where
  pub rest : IsBatching given batch_config (delivered ++ passed answer) s
  pub sized : IsSized batch_config.max_size answer
  pub last : IsLast answer → IsOver s

module _ {B Sleep W : Type 0} (runtime : Runtime B Sleep W) (given : W → List B)
    (gives : Gives runtime given) (batch_config : BatchConfig) (delivered : List B) where
  abbrev left : BatchStream B Sleep W → ℕ
  left s = s.batch_config.max_size - length s.items

  abbrev Goes : ℕ → Turn (BatchStream B Sleep W) (Poll (Option (Batch B))) → Type 0
  Goes before t =
      Progress (IsGoing given batch_config delivered) (IsAnswer given batch_config delivered) left
        before t

  -- An answer without a batch changes nothing.
  nothing :
      (answer : Poll (Option (Batch B))) (s : BatchStream B Sleep W)
      → passed answer ≡ []
      → IsSized batch_config.max_size answer
      → (IsLast answer → IsOver s)
      → IsBatching given batch_config delivered s
      → IsAnswer given batch_config delivered answer s
  nothing answer s e sized last h = record {
    rest = record {
      fed = rw (e, append-nil delivered) h.fed;
      same = h.same;
      fits = h.fits;
      over = h.over;
    };
    sized = sized;
    last = last;
  }

  give_batch-Goes :
      (before : ℕ) (s : BatchStream B Sleep W)
      → given s.stream ≡ delivered ++ s.items
      → s.batch_config ≡ batch_config
      → 1 ≤ length s.items
      → length s.items ≤ max 1 batch_config.max_size
      → Goes before (give_batch runtime s)
  unfolding give_batch take_batch
  give_batch-Goes before s fed same some_items few = record {
    rest = record {
      fed = fed ∙ sym (append-nil (delivered ++ s.items));
      same = same;
      fits = omega arith;
      over = λ o. refl;
    };
    sized = (some_items, few);
    last = λ l. absurd l;
  }

  end_stream-Goes :
      (before : ℕ) (s : BatchStream B Sleep W)
      → IsBatching given batch_config delivered s
      → Goes before (end_stream runtime s)
  unfolding end_stream
  end_stream-Goes before s h = elim (Bool-cases (is_empty s.items)) [
    | inl e ↦ rw e (
        nothing _ _ refl tt (λ l. inl refl)
          record { fed = h.fed; same = h.same; fits = h.fits; over = λ o. is_empty-nil s.items e })
    | inr e ↦ rw e (
        give_batch-Goes before (record s { inner_stream_ended = true }) h.fed h.same
          (is_empty-cons s.items e) (omega (arith, h.fits)))
  ]

  on_item-Goes :
      (before : ℕ) (item : B) (s : BatchStream B Sleep W)
      → given s.stream ≡ (delivered ++ s.items) ++ item ∷ []
      → s.batch_config ≡ batch_config
      → length s.items < max 1 batch_config.max_size
      → s.inner_stream_ended ≡ false
      → s.stream_stopped ≡ false
      → left s ≤ before
      → Goes before (on_item runtime item s)
  unfolding on_item
  on_item-Goes before item s fed same fits open_yet going bound =
      let fed' : given s.stream ≡ delivered ++ (s.items ++ item ∷ []) =
        fed ∙ append_assoc delivered s.items (item ∷ []) in
      let more = length-append s.items (item ∷ []) in
      let size = ap (λ c. c.max_size) same in
      elim (Bool-cases (leb s.batch_config.max_size (length (s.items ++ item ∷ [])))) [
        | inl e ↦ rw e (
            give_batch-Goes before (record s { items = s.items ++ item ∷ [] }) fed' same
              (omega (arith, more)) (omega (arith, more)))
        | inr e ↦ rw e (
          record {
            batching = record {
              fed = fed';
              same = same;
              fits = omega (arith, size, leb-false _ _ e);
              over = λ o. absurd (not-over open_yet going o);
            };
            open_yet = open_yet;
          },
          omega (arith, more, leb-false _ _ e),
        )
      ]

  on_deadline-Goes :
      (before : ℕ) (due : Poll (Unit {0})) (s : BatchStream B Sleep W)
      → IsBatching given batch_config delivered s
      → 1 ≤ length s.items
      → Goes before (on_deadline runtime due s)
  unfolding on_deadline
  on_deadline-Goes before (ready u) s h some_items =
      give_batch-Goes before s h.fed h.same some_items (omega (arith, h.fits))
  on_deadline-Goes before pending s h some_items = nothing _ s refl tt (λ l. absurd l) h

  check_deadline-Goes :
      (before : ℕ) (deadline : Option Sleep) (s : BatchStream B Sleep W)
      → IsBatching given batch_config delivered s
      → 1 ≤ length s.items
      → Goes before (check_deadline runtime deadline s)
  unfolding check_deadline
  check_deadline-Goes before none s h some_items = nothing _ s refl tt (λ l. absurd l) h
  check_deadline-Goes before (some d) s h some_items =
      on_deadline-Goes before _ _
        (record {
          fed = gives.slept d s.stream ∙ h.fed;
          same = h.same;
          fits = h.fits;
          over = h.over;
        })
        some_items

  -- Without an answer from the inner stream.
  on_pending-Goes :
      (before : ℕ) (s : BatchStream B Sleep W)
      → IsBatching given batch_config delivered s
      → Goes before (on_pending runtime s)
  unfolding on_pending
  on_pending-Goes before s h = elim (Bool-cases (is_empty s.items)) [
    | inl e ↦ rw e (nothing _ s refl tt (λ l. absurd l) h)
    | inr e ↦ rw e (check_deadline-Goes before s.deadline s h (is_empty-cons s.items e))
  ]

  on_polled-Goes :
      (before : ℕ) (next : Poll (Option B)) (s : BatchStream B Sleep W)
      → given s.stream ≡ (delivered ++ s.items) ++ arrived next
      → s.batch_config ≡ batch_config
      → length s.items < max 1 batch_config.max_size
      → s.inner_stream_ended ≡ false
      → s.stream_stopped ≡ false
      → left s ≤ before
      → Goes before (on_polled runtime next s)
  unfolding on_polled
  on_polled-Goes before (ready (some item)) s fed same fits open_yet going bound =
      on_item-Goes before item s fed same fits open_yet going bound
  on_polled-Goes before (ready none) s fed same fits open_yet going bound =
      end_stream-Goes before s record {
        fed = fed ∙ append-nil (delivered ++ s.items);
        same = same;
        fits = fits;
        over = λ o. absurd (not-over open_yet going o);
      }
  on_polled-Goes before pending s fed same fits open_yet going bound =
      on_pending-Goes before s record {
        fed = fed ∙ append-nil (delivered ++ s.items);
        same = same;
        fits = fits;
        over = λ o. absurd (not-over open_yet going o);
      }

  start_timer-IsGoing :
      (s : BatchStream B Sleep W)
      → IsGoing given batch_config delivered s
      → IsGoing given batch_config delivered (start_timer runtime s)
  unfolding start_timer
  start_timer-IsGoing s h =
      if-elim (IsGoing given batch_config delivered) s.reset_timer _ s
        (λ e. record {
          batching = record {
            fed = h.batching.fed;
            same = h.batching.same;
            fits = h.batching.fits;
            over = h.batching.over;
          };
          open_yet = h.open_yet;
        })
        λ e. h

  start_timer-stopped :
      (s : BatchStream B Sleep W) → (start_timer runtime s).stream_stopped ≡ s.stream_stopped
  unfolding start_timer
  start_timer-stopped s =
      if-elim (λ t. t.stream_stopped ≡ s.stream_stopped) s.reset_timer _ s (λ e. refl) λ e. refl

  start_timer-left : (s : BatchStream B Sleep W) → left (start_timer runtime s) ≡ left s
  unfolding start_timer
  start_timer-left s = if-elim (λ t. left t ≡ left s) s.reset_timer _ s (λ e. refl) λ e. refl

  poll_stream-Goes :
      (s : BatchStream B Sleep W)
      → IsGoing given batch_config delivered s
      → s.stream_stopped ≡ false
      → (before : ℕ) → left s ≤ before
      → Goes before (poll_stream runtime s)
  unfolding poll_stream
  poll_stream-Goes s h going before bound =
      on_polled-Goes before _ _
        (gives.polled s.stream
          ∙ ap (λ xs. xs ++ arrived (runtime.poll_inner s.stream).0) h.batching.fed)
        h.batching.same h.batching.fits h.open_yet going bound

  turn-Goes :
      (s : BatchStream B Sleep W)
      → IsGoing given batch_config delivered s
      → Goes (left s) (turn runtime s)
  unfolding turn
  turn-Goes s h =
      if-elim (λ t. Goes (left s) t) s.stream_stopped (return (ready none) s) _
        (λ e. nothing _ s refl tt (λ l. inr e) h.batching)
        λ going.
          if-elim (λ t. Goes (left s) t) (unwrap_or_false (runtime.has_changed s.stream))
            (return _ (record s { stream_stopped = true; items = [] })) _
            (λ changed. record {
              rest = record {
                fed = h.batching.fed ∙ sym (append-nil (delivered ++ s.items));
                same = h.batching.same;
                fits = omega arith;
                over = λ o. refl;
              };
              sized = h.batching.fits;
              last = λ l. inr refl;
            })
            λ quiet.
              poll_stream-Goes (start_timer runtime s) (start_timer-IsGoing s h)
                (start_timer-stopped s ∙ going) (left s) (omega (arith, start_timer-left s))

  -- A poll returns, and with an answer that keeps the order and the size of the batches.
  pub poll_next-Returns :
      (s : BatchStream B Sleep W)
      → IsBatching given batch_config delivered s
      → Returns (IsAnswer given batch_config delivered) (poll_next runtime s)
  unfolding poll_next
  poll_next-Returns s h =
      if-elim {A = Option (Poll (Option (Batch B)) × BatchStream B Sleep W)}
        (λ o. Returns (IsAnswer given batch_config delivered) o) s.inner_stream_ended
        (some (ready none, s)) _ (λ e. (ready none, s, refl, nothing _ s refl tt (λ l. inl e) h))
        λ e.
          run_turns-Returns (turn runtime) (IsGoing given batch_config delivered)
            (IsAnswer given batch_config delivered) left turn-Goes (suc s.batch_config.max_size) s
            (record { batching = h; open_yet = e }) (omega arith)
