-- ===== src/Destination/BigQuery/Deliver.antt =====
-- etl/src/destination/bigquery.rs: the streaming of a batch of events, as a log of what is streamed.
use pg_replicate.Base.{
  ℕ, suc, ◌<◌, ◌≡◌, refl, sym, ap, subst, ◌∙◌, inl, inr, true, false, Bool-cases, some,
  Option-cases, List, [], ◌∷◌, ◌++◌, append-nil, append_assoc, Result, ok, err, ◌>>=◌, lift, arith,
  ◌==◌, ==_iff, if◌then◌else◌, length, Text, text_eq, text_eq_sound, text_eq_refl,
}
use pg_replicate.Base.Assoc.{Map}
use pg_replicate.Base.Loop.{Progress, run_turns-Returns}
use pg_replicate.Base.Triple.{After, Triple, Triple-pure, Triple-bind, Triple-gets, Triple-given}
use pg_replicate.Schema.{ColumnSchema, TableSchema, as_bigquery_table_id}
use pg_replicate.Schema.Cache.{SchemaCache, get_table_schema}
use pg_replicate.Conversions.Cell.{TableRow}
use pg_replicate.Conversions.Event.{Event}
use pg_replicate.Destination.BigQuery.{
  BigQueryDestinationError, Inner, StreamRows, collect_events, skip_truncates, stream_to,
  load_table_id_and_descriptor, stream_table, stream_tables, Writing, WriteTurn, after_stream,
  write_some, write_turn, write_events,
}
use pg_replicate.Destination.BigQuery.Group.{
  rows_for, rows_in-nil, collect_events-rows, skip_truncates-rows, rest-length,
  collect_events-IsUnique, entry_rows, entry_rows-rows_in,
}

-- `log` is what was streamed, by the table's id in BigQuery: each call that succeeds joins it.
pub record Logs {D X : Type 0} (stream_rows : StreamRows D X)
    (log : D → List (Text × List (TableRow X))) : Type 0 where
  pub streamed :
      (name : Text) (columns : List ColumnSchema) (rows : List (TableRow X))
      (before : List (Text × List (TableRow X)))
      → Triple
          (λ d. log d ≡ before)
          (stream_rows name columns rows)
          (λ u d. log d ≡ before ++ (name, rows) ∷ [])
          (λ d. Unit {0})

-- The rows that were streamed to a table.
pub sent : {X : Type 0} → Text → List (Text × List (TableRow X)) → List (TableRow X)
sent name [] = []
sent name ((n, rows) ∷ log) = (if text_eq n name then rows else []) ++ sent name log

sent-append :
    {X : Type 0} (name : Text) (log more : List (Text × List (TableRow X)))
    → sent name (log ++ more) ≡ sent name log ++ sent name more
unfolding sent
sent-append name [] more = refl
sent-append name ((n, rows) ∷ log) more =
    ap (λ rs. (if text_eq n name then rows else []) ++ rs) (sent-append name log more)
    ∙ sym (append_assoc (if text_eq n name then rows else []) (sent name log) (sent name more))

-- The table, which is the only one in the cache that has its id in BigQuery.
pub record IsAlone (cache : SchemaCache) (t : ℕ) (name : Text) : Type 0 where
  pub schema : TableSchema
  pub found : get_table_schema cache t ≡ some schema
  pub named : as_bigquery_table_id schema.name ≡ name
  pub alone :
      (j : ℕ) (other : TableSchema)
      → get_table_schema cache j ≡ some other
      → as_bigquery_table_id other.name ≡ name
      → j ≡ t

module _ {D X : Type 0} (stream_rows : StreamRows D X) (log : D → List (Text × List (TableRow X)))
    (logs : Logs stream_rows log) (cache : SchemaCache) (t : ℕ) (name : Text)
    (is_alone : IsAlone cache t name) where
  abbrev Sent : List (TableRow X) → Inner D → Type 0
  Sent rows w = (w.schema_cache ≡ some cache) × (sent name (log w.client) ≡ rows)

  same_schema :
      (j : ℕ) (other : TableSchema)
      → j ≡ t
      → get_table_schema cache j ≡ some other
      → other ≡ is_alone.schema
  same_schema j other is e =
      same (sym (subst (λ i. get_table_schema cache i ≡ some other) is e) ∙ is_alone.found)
    where
      same : {A : Type 0} {a b : A} → some a ≡ some b → a ≡ b
      same e = cc

  same_name :
      (j : ℕ) (other : TableSchema)
      → get_table_schema cache j ≡ some other
      → text_eq (as_bigquery_table_id other.name) name ≡ (j == t)
  same_name j other e = elim (Bool-cases (j == t)) [
    | inl is ↦
        rw (is, same_schema j other ((==_iff j t).0 is) e, is_alone.named) (text_eq_refl name)
    | inr ne ↦ elim (Bool-cases (text_eq (as_bigquery_table_id other.name) name)) [
      | inl eq ↦ absurd (
          false-ne (
            sym ne
            ∙ (==_iff j t).1 (
                is_alone.alone j other e
                  (text_eq_sound (as_bigquery_table_id other.name) name eq))))
      | inr differs ↦ rw (differs, ne) refl
    ]
  ]
    where
      false-ne : false ≡ true → ⊥
      false-ne e = cc

  stream_to-Sent :
      (n : Text) (columns : List ColumnSchema) (rows before : List (TableRow X))
      → Triple
          (Sent before)
          (stream_to stream_rows n columns rows)
          (λ u. Sent (before ++ (if text_eq n name then rows else [])))
          (λ w. Unit {0})
  unfolding stream_to sent
  stream_to-Sent n columns rows before = record {
    run = λ w (cached, is).
        either w before cached is _
          ((logs.streamed n columns rows (log w.client)).run w.client refl);
  }
    where
      either :
          (w : Inner D) (before : List (TableRow X))
          → w.schema_cache ≡ some cache
          → sent name (log w.client) ≡ before
          → (r : Result BigQueryDestinationError (Unit {0}) × D)
          → After (λ u d. log d ≡ log w.client ++ (n, rows) ∷ []) (λ d. Unit {0}) r
          → After
              (λ u. Sent (before ++ (if text_eq n name then rows else [])))
              (λ w. Unit {0})
              (r.0, record w { client = r.1 })
      either w before cached is (ok u, d) h = (
        cached,
        ap (sent name) h
            ∙ sent-append name (log w.client) ((n, rows) ∷ [])
            ∙ ap (λ rs. rs ++ sent name ((n, rows) ∷ [])) is
            ∙ ap (λ rs. before ++ rs) (append-nil (if text_eq n name then rows else [])),
      )
      either w before cached is (err e, d) h = tt

  stream_table-Sent :
      (j : ℕ) (rows before : List (TableRow X))
      → Triple
          (Sent before)
          (stream_table stream_rows j rows)
          (λ u. Sent (before ++ (if j == t then rows else [])))
          (λ w. Unit {0})
  unfolding stream_table load_table_id_and_descriptor ◌>>=◌
  stream_table-Sent j rows before =
      Triple-bind (λ o w. Sent before w × (o ≡ some cache))
        (Triple-gets (λ w. w.schema_cache) λ w h. (h, h.0))
        λ o. Triple-given λ e.
          subst
            (λ o.
              Triple (Sent before)
                (lift (load_table_id_and_descriptor stream_rows j o) >>= λ p.
                  stream_to stream_rows p.0 p.1 rows)
                (λ u. Sent (before ++ (if j == t then rows else []))) (λ w. Unit {0}))
            (sym e)
            (elim (Option-cases (get_table_schema cache j)) [
              | inl missing ↦ rw missing (record { run = λ w h. tt })
              | inr (other, found) ↦ rw found (record {
                run = λ w h. rw⁻¹ (same_name j other found) (
                    (stream_to-Sent (as_bigquery_table_id other.name) other.column_schemas rows
                        before).run
                      w h);
              })
            ])

  stream_tables-Sent :
      (m : Map (List (TableRow X))) (before : List (TableRow X))
      → Triple
          (Sent before)
          (stream_tables stream_rows m)
          (λ u. Sent (before ++ entry_rows t m))
          (λ w. Unit {0})
  unfolding stream_tables
  stream_tables-Sent [] before =
      Triple-pure tt λ w (cached, is). (cached, is ∙ sym (append-nil before))
  stream_tables-Sent ((j, rows) ∷ m) before =
      Triple-bind (λ u. Sent (before ++ (if j == t then rows else [])))
        (stream_table-Sent j rows before)
        λ u.
          subst
            (λ rs.
              Triple (Sent (before ++ (if j == t then rows else []))) (stream_tables stream_rows m)
                (λ u. Sent rs) (λ w. Unit {0}))
            (append_assoc before (if j == t then rows else []) (entry_rows t m))
            (stream_tables-Sent m (before ++ (if j == t then rows else [])))

  -- What was sent, with what the events will still send.
  pub record IsWriting (total : List (TableRow X)) (s : Writing stream_rows) : Type 0 where
    pub cached : s.inner.schema_cache ≡ some cache
    pub sums : sent name (log s.inner.client) ++ rows_for t s.events ≡ total

  abbrev IsWritten :
      List (TableRow X) → Result BigQueryDestinationError (Unit {0}) → Writing stream_rows → Type 0
  IsWritten total (ok u) s = sent name (log s.inner.client) ≡ total
  IsWritten total (err e) s = Unit

  abbrev Goes : List (TableRow X) → ℕ → WriteTurn stream_rows → Type 0
  Goes total before turn =
      Progress (IsWriting total) (IsWritten total) (λ s. length s.events) before turn

  after_stream-Goes :
      (total : List (TableRow X)) (before : ℕ) (rest : List (Event X)) (rows : List (TableRow X))
      → rows ++ rows_for t rest ≡ total
      → length (skip_truncates rest) < before
      → (r : Result BigQueryDestinationError (Unit {0}) × Inner D)
      → After (λ u. Sent rows) (λ w. Unit {0}) r
      → Goes total before (after_stream stream_rows rest r)
  unfolding after_stream
  after_stream-Goes total before rest rows e less (ok u, inner) (cached, is) = (
    record {
      cached = cached;
      sums =
          ap (λ rs. rs ++ rows_for t (skip_truncates rest)) is
          ∙ ap (λ rs. rows ++ rs) (skip_truncates-rows t rest)
          ∙ e;
    },
    less,
  )
  after_stream-Goes total before rest rows e less (err x, inner) h = tt

  write_some-Goes :
      (event : Event X) (events : List (Event X)) (inner : Inner D)
      → inner.schema_cache ≡ some cache
      → (total : List (TableRow X))
      → sent name (log inner.client) ++ rows_for t (event ∷ events) ≡ total
      → Goes total (length (event ∷ events)) (write_some stream_rows (event ∷ events) inner)
  unfolding write_some
  write_some-Goes event events inner cached total sums =
      let grouped = collect_events (event ∷ events) [] in
      let rows = sent name (log inner.client) ++ entry_rows t grouped.0 in
      after_stream-Goes total _ grouped.1 rows
        (append_assoc (sent name (log inner.client)) (entry_rows t grouped.0) (rows_for t grouped.1)
          ∙ ap (λ rs. sent name (log inner.client) ++ (rs ++ rows_for t grouped.1))
              (entry_rows-rows_in t grouped.0 (collect_events-IsUnique (event ∷ events) [] tt))
          ∙ ap (λ rs. sent name (log inner.client) ++ rs)
              (collect_events-rows t (event ∷ events) []
                ∙ ap (λ rs. rs ++ rows_for t (event ∷ events)) (rows_in-nil t))
          ∙ sums)
        (rest-length event events []) _
        ((stream_tables-Sent grouped.0 (sent name (log inner.client))).run inner (cached, refl))

  write_from-Goes :
      (total : List (TableRow X)) (events : List (Event X)) (inner : Inner D)
      → IsWriting total (record { events = events; inner = inner })
      → Goes total
          (length events)
          (write_turn stream_rows (record { events = events; inner = inner }))
  unfolding write_turn rows_for
  write_from-Goes total [] inner h = sym (append-nil (sent name (log inner.client))) ∙ h.sums
  write_from-Goes total (event ∷ events) inner h =
      write_some-Goes event events inner h.cached total h.sums

  write_turn-Goes :
      (total : List (TableRow X)) (s : Writing stream_rows)
      → IsWriting total s
      → Goes total (length s.events) (write_turn stream_rows s)
  write_turn-Goes total s h =
      write_from-Goes total s.events s.inner (record { cached = h.cached; sums = h.sums })

  -- Writing events to BigQuery always comes to an end, and if it succeeds, then what it streamed to a table is
  -- the rows of the table's inserts, updates and deletes, in the order of the events and marked as what
  -- they are; whatever the order in which the tables are streamed, and provided that no other table in
  -- the schema cache has the same id in BigQuery.
  pub write_events-Sent :
      (events : List (Event X)) (w : Inner D)
      → w.schema_cache ≡ some cache
      → (r : Result BigQueryDestinationError (Unit {0})) × (s : Writing stream_rows) × (write_events
            stream_rows events w
          ≡ some (r, s))
        × (r ≡ ok tt
            → sent name (log s.inner.client) ≡ sent name (log w.client) ++ rows_for t events)
  unfolding write_events
  write_events-Sent events w cached =
      let (r, s, e, is) =
        run_turns-Returns (write_turn stream_rows)
          (IsWriting (sent name (log w.client) ++ rows_for t events))
          (IsWritten (sent name (log w.client) ++ rows_for t events)) (λ s. length s.events)
          (write_turn-Goes (sent name (log w.client) ++ rows_for t events)) (suc (length events))
          (record { events = events; inner = w }) (record { cached = cached; sums = refl })
          (omega arith) in
      (
        r,
        s,
        e,
        λ good. subst (λ r. IsWritten (sent name (log w.client) ++ rows_for t events) r s) good is,
      )
