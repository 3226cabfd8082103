-- ===== src/Schema/Compare.antt =====
-- postgres/src/schema.rs: lemmas on `TableSchema::partial_eq`.
use pg_replicate.Base.{
  ◌≡◌, refl, ap, ◌↔◌, true, false, List, [], ◌∷◌, map, arith, text_eq_sound, text_eq_refl, length,
}
use pg_replicate.Schema.Types.{type_eq_iff}
use pg_replicate.Schema.{
  TableName, ColumnSchema, TableSchema, name_eq, column_partial_eq, zip_all_eq, partial_eq,
}

abbrev pub forget_nullable : ColumnSchema → ColumnSchema
forget_nullable c = record c { nullable = false }

abbrev pub comparable : TableSchema → TableSchema
comparable t = record t { column_schemas = map forget_nullable t.column_schemas }

name_eq_sound : (a b : TableName) → name_eq a b ≡ true → a ≡ b
unfolding name_eq
name_eq_sound a b h = ground (arith, text_eq_sound a.schema b.schema, text_eq_sound a.name b.name)

name_eq_refl : (a : TableName) → name_eq a a ≡ true
unfolding name_eq
name_eq_refl a = ground (arith, text_eq_refl a.schema, text_eq_refl a.name)

column_sound :
    (a b : ColumnSchema) → column_partial_eq a b ≡ true → forget_nullable a ≡ forget_nullable b
unfolding column_partial_eq
column_sound a b h = ground (arith, text_eq_sound a.name b.name, type_eq_iff a.typ b.typ)

column_complete :
    (a b : ColumnSchema) → forget_nullable a ≡ forget_nullable b → column_partial_eq a b ≡ true
unfolding column_partial_eq
column_complete a b h = ground (
  arith,
  ap (λ (c : ColumnSchema). c.name) h,
  ap (λ (c : ColumnSchema). c.typ) h,
  ap (λ (c : ColumnSchema). c.modifier) h,
  ap (λ (c : ColumnSchema). c.primary) h,
  text_eq_refl a.name,
  type_eq_iff a.typ b.typ,
)

zip_sound :
    (as' bs : List ColumnSchema)
    → length as' ≡ length bs
    → zip_all_eq as' bs ≡ true
    → map forget_nullable as' ≡ map forget_nullable bs
unfolding zip_all_eq
zip_sound [] [] l h = refl
zip_sound [] (b ∷ bs) l h = absurd (omega arith)
zip_sound (a ∷ as') [] l h = absurd (omega arith)
zip_sound (a ∷ as') (b ∷ bs) l h = ground (arith, column_sound a b, zip_sound as' bs)

zip_complete :
    (as' bs : List ColumnSchema)
    → map forget_nullable as' ≡ map forget_nullable bs
    → (length as' ≡ length bs) × (zip_all_eq as' bs ≡ true)
unfolding zip_all_eq
zip_complete [] [] h = (refl, refl)
zip_complete [] (b ∷ bs) h = cc
zip_complete (a ∷ as') [] h = cc
zip_complete (a ∷ as') (b ∷ bs) h = ground (arith, column_complete a b, zip_complete as' bs)

-- The comparison succeeds exactly when the two schemas have the same id, the same name and the same
-- columns in the same order, where `nullable` is left out of account.
pub partial_eq_iff : (a b : TableSchema) → (partial_eq a b ≡ true) ↔ (comparable a ≡ comparable b)
unfolding partial_eq
partial_eq_iff a b = (
  λ h. ground (arith, name_eq_sound a.name b.name, zip_sound a.column_schemas b.column_schemas),
  λ h. ground (
    arith,
    ap (λ (t : TableSchema). t.id) h,
    ap (λ (t : TableSchema). t.name) h,
    ap (λ (t : TableSchema). t.column_schemas) h,
    name_eq_refl a.name,
    zip_complete a.column_schemas b.column_schemas,
  ),
)
