-- ===== src/Conversions/Event/Rows.antt =====
-- etl/src/conversions/event.rs: lemmas on `convert_tuple_to_row`.
use pg_replicate.Base.{
  ℕ, suc, ◌≡◌, refl, ap, sym, ◌∙◌, List, [], ◌∷◌, ◌++◌, Result, ok, err, and_then, arith, get_elem?,
  length, length-append, append_assoc, ◌≤◌,
}
use pg_replicate.Schema.{ColumnSchema}
use pg_replicate.Conversions.Protocol.{TupleData}
use pg_replicate.Conversions.Cell.{Cell, TableRow, Externals}
use pg_replicate.Conversions.Event.{
  EventConversionError, convert_cell, next_cell, convert_columns, convert_tuple_to_row,
  tuple_data_not_found,
}

length-snoc : (done : List TupleData) (t : TupleData) → length (done ++ t ∷ []) ≡ suc (length done)
length-snoc done t = omega (arith, length-append done (t ∷ []))

module _ {X : Type 0} (ext : Externals X) where
  -- Column and data side by side: the first error in this order, or a value for each column.
  pub zip_convert :
      ℕ → List ColumnSchema → List TupleData → Result EventConversionError (List (Cell X))
  zip_convert i [] ts = ok []
  zip_convert i (c ∷ cs) [] = err (tuple_data_not_found c.name i)
  zip_convert i (c ∷ cs) (t ∷ ts) =
      and_then (convert_cell ext c.typ t)
        λ v. and_then (zip_convert (suc i) cs ts) λ vs. ok (v ∷ vs)

  get_elem?-append :
      (done ts : List TupleData) → get_elem? (done ++ ts) (length done) ≡ get_elem? ts 0
  get_elem?-append [] ts = refl
  get_elem?-append (d ∷ done) ts = get_elem?-append done ts

  next :
      (done : List TupleData) (t : TupleData) (cs : List ColumnSchema) (ts : List TupleData)
      → convert_columns ext (length (done ++ t ∷ [])) cs ((done ++ t ∷ []) ++ ts)
        ≡ zip_convert (length (done ++ t ∷ [])) cs ts
      → convert_columns ext (suc (length done)) cs ((done ++ t ∷ []) ++ ts)
        ≡ zip_convert (suc (length done)) cs ts
  next done t cs ts h = rw length-snoc at h

  -- The loop at the index behind the data that is done.
  convert_columns-zip :
      (cs : List ColumnSchema) (done ts : List TupleData)
      → convert_columns ext (length done) cs (done ++ ts) ≡ zip_convert (length done) cs ts
  unfolding convert_columns zip_convert
  convert_columns-zip [] done ts = refl
  convert_columns-zip (c ∷ cs) done [] = rw (get_elem?-append done [], next_cell)
  convert_columns-zip (c ∷ cs) done (t ∷ ts) =
      rw (get_elem?-append done (t ∷ ts), next_cell)
        (ap (λ r. and_then (convert_cell ext c.typ t) λ v. and_then r λ vs. ok (v ∷ vs))
          (ap (λ ds. convert_columns ext (suc (length done)) cs ds)
              (sym (append_assoc done (t ∷ []) ts))
            ∙ next done t cs ts (convert_columns-zip cs (done ++ t ∷ []) ts)))

  -- The row of a tuple is what the columns and the tuple data give side by side, errors included.
  pub convert_tuple_to_row-zip :
      (columns : List ColumnSchema) (tuple_data : List TupleData)
      → convert_tuple_to_row ext columns tuple_data
        ≡ and_then (zip_convert 0 columns tuple_data) (λ values. ok (record { values = values }))
  unfolding convert_tuple_to_row
  convert_tuple_to_row-zip columns tuple_data = rw (convert_columns-zip columns [] tuple_data)

  cons_result :
      (r : Result EventConversionError (Cell X)) (q : Result EventConversionError (List (Cell X)))
      (vs : List (Cell X))
      → and_then r (λ v. and_then q λ ws. ok (v ∷ ws)) ≡ ok vs
      → (ws : List (Cell X)) × (q ≡ ok ws) × (length vs ≡ suc (length ws))
  cons_result (ok v) (ok ws) vs h = (ws, refl, ground arith)
  cons_result (ok v) (err e) vs h = cc
  cons_result (err e) q vs h = cc

  zip_convert-length :
      (i : ℕ) (cs : List ColumnSchema) (ts : List TupleData) (vs : List (Cell X))
      → zip_convert i cs ts ≡ ok vs
      → (length vs ≡ length cs) × (length cs ≤ length ts)
  unfolding zip_convert
  zip_convert-length i [] ts vs h = ground arith
  zip_convert-length i (c ∷ cs) [] vs h = cc
  zip_convert-length i (c ∷ cs) (t ∷ ts) vs h =
      let (ws, e, l) = cons_result (convert_cell ext c.typ t) (zip_convert (suc i) cs ts) vs h in
      omega (arith, zip_convert-length (suc i) cs ts ws e, l)

  -- An insert, update or delete that is converted has one value for each column of the table, and
  -- the message held tuple data for all of them.
  pub convert_tuple_to_row-length :
      (columns : List ColumnSchema) (tuple_data : List TupleData) (row : TableRow X)
      → convert_tuple_to_row ext columns tuple_data ≡ ok row
      → (length row.values ≡ length columns) × (length columns ≤ length tuple_data)
  convert_tuple_to_row-length columns tuple_data row h =
      row_length (zip_convert 0 columns tuple_data) (zip_convert-length 0 columns tuple_data)
        (sym (convert_tuple_to_row-zip columns tuple_data) ∙ h)
    where
      row_length :
          (r : Result EventConversionError (List (Cell X)))
          → ((vs : List (Cell X))
              → r ≡ ok vs
              → (length vs ≡ length columns) × (length columns ≤ length tuple_data))
          → and_then r (λ values. ok (record { values = values })) ≡ ok row
          → (length row.values ≡ length columns) × (length columns ≤ length tuple_data)
      row_length (ok vs) fits e = ground (arith, fits vs refl)
      row_length (err x) fits e = cc
