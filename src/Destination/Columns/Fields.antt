-- ===== src/Destination/Columns/Fields.antt =====
-- etl/src/clients/bigquery.rs and conversions/table_row.rs: the fields of a table's descriptor, by their
-- names, and the values of a row.
use mathlib.Core.Option
use pg_replicate.Base.{
  ℕ, suc, ◌≡◌, false, Option, none, some, List, [], ◌∷◌, ◌++◌, All, Text, codes, text_eq,
  if◌then◌else◌,
}
use pg_replicate.Schema.{ColumnSchema}
use pg_replicate.Conversions.Cell.{Cell, Externals}
use pg_replicate.Conversions.Encode.{Prost, encode_prost}
use pg_replicate.Destination.Columns.{FieldDescriptor}

abbrev pub change_type : Text
change_type = codes "_CHANGE_TYPE"

-- The number of the first field with a name.
pub number_of : Text → List FieldDescriptor → Option ℕ
number_of name [] = none
number_of name (f ∷ fields) = if text_eq f.name name then some f.number else number_of name fields

-- No name twice, and none that is the special one.
abbrev pub AreDistinct : List ColumnSchema → Type 0
AreDistinct [] = Unit
AreDistinct (s ∷ columns) =
    All (λ c. text_eq s.name c.name ≡ false) columns
    × (text_eq s.name change_type ≡ false)
    × AreDistinct columns

-- The values by the names of their columns, and the last by the special name.
abbrev pub named : {X : Type 0} → List ColumnSchema → List (Cell X) → Cell X → List (Text × Cell X)
named (s ∷ columns) (cell ∷ cells) last = (s.name, cell) ∷ named columns cells last
named columns cells last = (change_type, last) ∷ []

-- The numbers under which the columns' names are found.
abbrev Finds : List FieldDescriptor → ℕ → List ColumnSchema → Type 0
Finds fields number [] = number_of change_type fields ≡ some number
Finds fields number (s ∷ columns) =
    (number_of s.name fields ≡ some number) × Finds fields (suc number) columns

module _ {X : Type 0} (ext : Externals X) (prost : Prost X) where
  -- Each value, under the number of the field that has its name; `none` if there is no such field.
  pub encode_named : List FieldDescriptor → List (Text × Cell X) → Option (List ℕ)
  unfolding number_of
  encode_named fields [] = some []
  encode_named fields ((name, cell) ∷ cells) = Option.bind (number_of name fields) λ number.
      Option.bind (encode_named fields cells)
        λ bytes. some (encode_prost ext prost number cell ++ bytes)
