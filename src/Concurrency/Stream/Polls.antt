-- ===== src/Concurrency/Stream/Polls.antt =====
-- etl/src/concurrency/stream.rs: polling the batched stream a number of times.
use mathlib.Core.Option
use pg_replicate.Base.{
  ℕ, zero, suc, ◌≡◌, refl, inl, inr, Option, none, some, List, [], ◌∷◌, ◌++◌, All, append_assoc,
  append-nil, arith, max, ◌<◌, length, if-elim,
}
use pg_replicate.Base.Loop.{run_turns, Returns-is}
use pg_replicate.Concurrency.{Poll, ready}
use pg_replicate.Replication.Apply.Loop.{BatchConfig}
use pg_replicate.Concurrency.Stream.{Runtime, BatchStream, Batch, wrap, poll_next, turn}
use pg_replicate.Concurrency.Stream.Batches.{
  Gives, IsBatching, IsSized, IsOver, IsLast, passed, poll_next-Returns,
}

-- What `n` polls give, while each answers.
pub poll_times :
    {B Sleep W : Type 0}
    → Runtime B Sleep W
    → ℕ
    → BatchStream B Sleep W
    → Option (List (Poll (Option (Batch B))) × BatchStream B Sleep W)
poll_times runtime zero s = some ([], s)
poll_times runtime (suc n) s = Option.bind (poll_next runtime s) λ (answer, s').
    Option.bind (poll_times runtime n s') λ (answers, last). some (answer ∷ answers, last)

abbrev pub all_passed : {B : Type 0} → List (Poll (Option (Batch B))) → List B
all_passed [] = []
all_passed (answer ∷ answers) = passed answer ++ all_passed answers

-- What a number of polls leaves.
pub record IsPolled {B Sleep W : Type 0} (given : W → List B) (batch_config : BatchConfig)
    (delivered : List B) (answers : List (Poll (Option (Batch B)))) (s : BatchStream B Sleep W)
    : Type 0 where
  pub kept : IsBatching given batch_config (delivered ++ all_passed answers) s
  pub sized : All (IsSized batch_config.max_size) answers

module _ {B Sleep W : Type 0} (runtime : Runtime B Sleep W) (given : W → List B)
    (gives : Gives runtime given) (batch_config : BatchConfig) where
  abbrev Answers : List B → Option (List (Poll (Option (Batch B))) × BatchStream B Sleep W) → Type 0
  Answers delivered o =
      (answers : List (Poll (Option (Batch B)))) × (s : BatchStream B Sleep W) × (o
        ≡ some (answers, s))
      × IsPolled given batch_config delivered answers s

  poll_times-suc :
      (n : ℕ) (s s' last : BatchStream B Sleep W) (answer : Poll (Option (Batch B)))
      (answers : List (Poll (Option (Batch B))))
      → poll_next runtime s ≡ some (answer, s')
      → poll_times runtime n s' ≡ some (answers, last)
      → poll_times runtime (suc n) s ≡ some (answer ∷ answers, last)
  unfolding poll_times Option.bind
  poll_times-suc n s s' last answer answers e e' = rw (e, e') refl

  poll_times-from :
      (n : ℕ) (delivered : List B) (s : BatchStream B Sleep W)
      → IsBatching given batch_config delivered s
      → Answers delivered (poll_times runtime n s)
  unfolding poll_times
  poll_times-from zero delivered s h =
      ([], s, refl, record { kept = rw (append-nil delivered) h; sized = tt })
  poll_times-from (suc n) delivered s h =
      let (answer, s', e, is) = poll_next-Returns runtime given gives batch_config delivered s h in
      let (answers, last, e', rest) = poll_times-from n (delivered ++ passed answer) s' is.rest in
      (
        answer ∷ answers,
        last,
        poll_times-suc n s s' last answer answers e e',
        record {
          kept = rw⁻¹ (append_assoc delivered (passed answer) (all_passed answers)) rest.kept;
          sized = (is.sized, rest.sized);
        },
      )

  -- A stream that is polled any number of times answers every time, and all that it passed on, with the
  -- items that it holds, is what the inner stream gave since the start, in the same order; each batch
  -- has an item and at most `max_size` (or one, if that is zero), and what is held is no full batch.
  pub poll_times-IsPolled :
      (n : ℕ) (w : W)
      → given w ≡ []
      → (answers : List (Poll (Option (Batch B)))) × (s : BatchStream B Sleep W) × (poll_times
            runtime n
            (wrap runtime w batch_config)
          ≡ some (answers, s))
        × (given s.stream ≡ all_passed answers ++ s.items)
        × All (IsSized batch_config.max_size) answers
        × (length s.items < max 1 batch_config.max_size)
  poll_times-IsPolled n w e =
      let (answers, s, e', is) =
        poll_times-from n [] (wrap runtime w batch_config)
          record { fed = e; same = refl; fits = omega arith; over = λ o. refl } in
      (answers, s, e', is.kept.fed, is.sized, is.kept.fits)

  over-poll_next :
      (s : BatchStream B Sleep W) → IsOver s → poll_next runtime s ≡ some (ready none, s)
  unfolding poll_next turn run_turns
  over-poll_next s (inl e) = rw e refl
  over-poll_next s (inr e) =
      if-elim {A = Option (Poll (Option (Batch B)) × BatchStream B Sleep W)}
        (λ o. o ≡ some (ready none, s)) s.inner_stream_ended (some (ready none, s)) _
        (λ ended. refl) λ going. rw e refl

  -- Once a poll has answered with the end of the stream or with a shutdown, no item is held back, and every
  -- later poll answers with the end of the stream and changes nothing.
  pub last-poll_next :
      (delivered : List B) (s s' : BatchStream B Sleep W) (answer : Poll (Option (Batch B)))
      → IsBatching given batch_config delivered s
      → poll_next runtime s ≡ some (answer, s')
      → IsLast answer
      → (given s'.stream ≡ delivered ++ passed answer)
        × (s'.items ≡ [])
        × (poll_next runtime s' ≡ some (ready none, s'))
  last-poll_next delivered s s' answer h e l =
      let is = Returns-is (poll_next-Returns runtime given gives batch_config delivered s h) e in
      let over = is.last l in
      let empty = is.rest.over over in
      (
        rw (empty, append-nil (delivered ++ passed answer)) at is.rest.fed,
        empty,
        over-poll_next s' over,
      )
