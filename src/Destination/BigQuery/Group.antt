-- ===== src/Destination/BigQuery/Group.antt =====
-- etl/src/destination/bigquery.rs: lemmas on the grouping of events by table.
use pg_replicate.Base.{
  ℕ, ◌≤◌, ◌<◌, ◌≡◌, refl, sym, ap, ◌∙◌, inl, inr, Bool, false, Bool-cases, Option, none, some, List,
  [], ◌∷◌, ◌++◌, append-nil, append_assoc, arith, ◌==◌, ==_iff, subst, if◌then◌else◌, length,
}
use pg_replicate.Base.Assoc.{Map, get, get-insert, contains_key, IsUnique, insert-IsUnique}
use pg_replicate.Conversions.Cell.{TableRow}
use pg_replicate.Conversions.Event.{Event}
use pg_replicate.Destination.BigQuery.{
  upsert, delete, with_operation, or_default, push_row, push_deleted, push_event, collect_events,
  skip_truncates,
}

module _ {X : Type 0} where
  -- What an event writes to a table.
  abbrev pub event_rows : ℕ → Event X → List (TableRow X)
  event_rows t (Event.insert e) =
      if e.table_id == t then with_operation upsert e.table_row ∷ [] else []
  event_rows t (Event.update e) =
      if e.table_id == t then with_operation upsert e.table_row ∷ [] else []
  event_rows t (Event.delete e) = elim e.old_table_row [
    | none ↦ []
    | some (is_key, row) ↦ if e.table_id == t then with_operation delete row ∷ [] else []
  ]
  event_rows t event = []

  -- What the events write to a table, in their order.
  unfoldable pub rows_for : ℕ → List (Event X) → List (TableRow X)
  rows_for t [] = []
  rows_for t (event ∷ events) = event_rows t event ++ rows_for t events

  pub rows_in : ℕ → Map (List (TableRow X)) → List (TableRow X)
  unfolding get or_default
  rows_in t m = or_default (get m t)

  pub rows_in-nil : (t : ℕ) → rows_in t [] ≡ []
  unfolding rows_in get or_default
  rows_in-nil t = refl

  push_row-rows_in :
      (t j : ℕ) (row : TableRow X) (m : Map (List (TableRow X)))
      → rows_in t (push_row j row m) ≡ rows_in t m ++ (if j == t then row ∷ [] else [])
  unfolding rows_in push_row
  push_row-rows_in t j row m = elim (Bool-cases (j == t)) [
    | inl e ↦
        rw (get-insert m j t (or_default (get m j) ++ row ∷ []), e)
          (subst (λ i. or_default (get m j) ++ row ∷ [] ≡ or_default (get m i) ++ row ∷ [])
            ((==_iff j t).0 e) refl)
    | inr e ↦
        rw (get-insert m j t (or_default (get m j) ++ row ∷ []), e)
          (sym (append-nil (or_default (get m t))))
  ]

  push_deleted-rows_in :
      (t j : ℕ) (old : Option (Bool × TableRow X)) (m : Map (List (TableRow X)))
      → rows_in t (push_deleted j old m)
        ≡ rows_in t m ++ (elim old [
          | none ↦ []
          | some (is_key, row) ↦ if j == t then with_operation delete row ∷ [] else []
        ])
  unfolding push_deleted
  push_deleted-rows_in t j none m = sym (append-nil (rows_in t m))
  push_deleted-rows_in t j (some (is_key, row)) m =
      push_row-rows_in t j (with_operation delete row) m

  push_event-rows_in :
      (t : ℕ) (event : Event X) (m : Map (List (TableRow X)))
      → rows_in t (push_event event m) ≡ rows_in t m ++ event_rows t event
  unfolding push_event push_deleted
  push_event-rows_in t (Event.insert e) m = push_row-rows_in t e.table_id _ m
  push_event-rows_in t (Event.update e) m = push_row-rows_in t e.table_id _ m
  push_event-rows_in t (Event.delete e) m = push_deleted-rows_in t e.table_id e.old_table_row m
  push_event-rows_in t event m = sym (append-nil (rows_in t m))

  pub collect_events-rows :
      (t : ℕ) (events : List (Event X)) (m : Map (List (TableRow X)))
      → rows_in t (collect_events events m).0 ++ rows_for t (collect_events events m).1
        ≡ rows_in t m ++ rows_for t events
  unfolding collect_events rows_for
  collect_events-rows t [] m = refl
  collect_events-rows t (Event.truncate e ∷ events) m = refl
  collect_events-rows t (event ∷ events) m =
      collect_events-rows t events (push_event event m)
      ∙ ap (λ rs. rs ++ rows_for t events) (push_event-rows_in t event m)
      ∙ append_assoc (rows_in t m) (event_rows t event) (rows_for t events)

  pub skip_truncates-rows :
      (t : ℕ) (events : List (Event X)) → rows_for t (skip_truncates events) ≡ rows_for t events
  unfolding skip_truncates rows_for
  skip_truncates-rows t [] = refl
  skip_truncates-rows t (Event.truncate e ∷ events) = skip_truncates-rows t events
  skip_truncates-rows t (event ∷ events) = refl

  -- Each turn takes an event.
  skip_truncates-length : (events : List (Event X)) → length (skip_truncates events) ≤ length events
  unfolding skip_truncates
  skip_truncates-length [] = omega arith
  skip_truncates-length (Event.truncate e ∷ events) = omega (arith, skip_truncates-length events)
  skip_truncates-length (event ∷ events) = omega arith

  collect_events-length :
      (events : List (Event X)) (m : Map (List (TableRow X)))
      → length (collect_events events m).1 ≤ length events
  unfolding collect_events
  collect_events-length [] m = omega arith
  collect_events-length (Event.truncate e ∷ events) m = omega arith
  collect_events-length (event ∷ events) m =
      omega (arith, collect_events-length events (push_event event m))

  pub rest-length :
      (event : Event X) (events : List (Event X)) (m : Map (List (TableRow X)))
      → length (skip_truncates (collect_events (event ∷ events) m).1) < length (event ∷ events)
  unfolding collect_events skip_truncates
  rest-length (Event.truncate e) events m = omega (arith, skip_truncates-length events)
  rest-length event events m = omega (
    arith,
    skip_truncates-length (collect_events events (push_event event m)).1,
    collect_events-length events (push_event event m),
  )

  push_event-IsUnique :
      (event : Event X) (m : Map (List (TableRow X))) → IsUnique m → IsUnique (push_event event m)
  unfolding push_event push_row push_deleted
  push_event-IsUnique (Event.insert e) m u = insert-IsUnique m e.table_id _ u
  push_event-IsUnique (Event.update e) m u = insert-IsUnique m e.table_id _ u
  push_event-IsUnique (Event.delete e) m u = deleted e.table_id e.old_table_row
    where
      deleted : (j : ℕ) (old : Option (Bool × TableRow X)) → IsUnique (push_deleted j old m)
      deleted j none = u
      deleted j (some (is_key, row)) = insert-IsUnique m j _ u
  push_event-IsUnique event m u = u

  pub collect_events-IsUnique :
      (events : List (Event X)) (m : Map (List (TableRow X)))
      → IsUnique m
      → IsUnique (collect_events events m).0
  unfolding collect_events
  collect_events-IsUnique [] m u = u
  collect_events-IsUnique (Event.truncate e ∷ events) m u = u
  collect_events-IsUnique (event ∷ events) m u =
      collect_events-IsUnique events (push_event event m) (push_event-IsUnique event m u)

  -- The rows of a table in a grouping, entry by entry.
  abbrev pub entry_rows : ℕ → Map (List (TableRow X)) → List (TableRow X)
  entry_rows t [] = []
  entry_rows t ((j, rows) ∷ m) = (if j == t then rows else []) ++ entry_rows t m

  entry_rows-absent :
      (t : ℕ) (m : Map (List (TableRow X))) → contains_key m t ≡ false → entry_rows t m ≡ []
  unfolding contains_key
  entry_rows-absent t [] h = refl
  entry_rows-absent t ((j, rows) ∷ m) h = ground (arith, entry_rows-absent t m)

  pub entry_rows-rows_in :
      (t : ℕ) (m : Map (List (TableRow X))) → IsUnique m → entry_rows t m ≡ rows_in t m
  unfolding rows_in get or_default
  entry_rows-rows_in t [] u = refl
  entry_rows-rows_in t ((j, rows) ∷ m) (new, u) = elim (Bool-cases (j == t)) [
    | inl e ↦
        rw (e, entry_rows-absent t m (subst (λ i. contains_key m i ≡ false) ((==_iff j t).0 e) new))
          (append-nil rows)
    | inr e ↦ rw e (entry_rows-rows_in t m u)
  ]
