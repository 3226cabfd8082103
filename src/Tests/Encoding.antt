-- ===== src/Tests/Encoding.antt =====
-- The encoding of rows and the columns of BigQuery at concrete inputs: encodings that write the tag and
-- the characters of a text.
use pg_replicate.Base.{
  ℕ, suc, ◌≡◌, refl, true, false, none, some, List, [], ◌∷◌, length, Text, codes,
}
use pg_replicate.Schema.Types.{PgType}
use pg_replicate.Schema.{ColumnSchema}
use pg_replicate.Conversions.Cell.{ArrayCell, Cell, TableRow}
use pg_replicate.Conversions.Encode.{Encoding, Prost, encode_raw, encoded_len}
use pg_replicate.Conversions.Encode.Length.{AllMeasured, length-encode_raw}
use pg_replicate.Tests.Fixtures.{ext}

abbrev tagged : {V : Type 0} → (V → List ℕ) → Encoding V
tagged bytes = record {
  encode = λ tag v. tag ∷ bytes v;
  encoded_len = λ tag v. suc (length (bytes v));
}

abbrev prost : Prost ℕ
prost = record {
  bool = tagged (λ b. 1 ∷ []);
  string = tagged (λ s. s);
  int32 = tagged (λ i. 1 ∷ []);
  int64 = tagged (λ i. 1 ∷ []);
  uint32 = tagged (λ n. n ∷ []);
  float = tagged (λ x. x ∷ []);
  double = tagged (λ x. x ∷ []);
  bytes = tagged (λ bs. bs);
  bools = tagged (λ bs. []);
  strings = tagged (λ ss. []);
  int32s = tagged (λ is. []);
  int64s = tagged (λ is. []);
  uint32s = tagged (λ ns. ns);
  floats = tagged (λ xs. xs);
  doubles = tagged (λ xs. xs);
  byte_strings = tagged (λ bs. []);
  decimal_text = λ x. x ∷ [];
  uuid_text = λ x. x ∷ [];
  json_text = λ x. x ∷ [];
  format = λ f x. x ∷ [];
}

prost-AllMeasured : AllMeasured prost
prost-AllMeasured = record {
  bool = λ tag v. refl;
  string = λ tag v. refl;
  int32 = λ tag v. refl;
  int64 = λ tag v. refl;
  uint32 = λ tag v. refl;
  float = λ tag v. refl;
  double = λ tag v. refl;
  bytes = λ tag v. refl;
  bools = λ tag v. refl;
  strings = λ tag v. refl;
  int32s = λ tag v. refl;
  int64s = λ tag v. refl;
  uint32s = λ tag v. refl;
  floats = λ tag v. refl;
  doubles = λ tag v. refl;
  byte_strings = λ tag v. refl;
}

abbrev row : TableRow ℕ
row = record {
  values =
      Cell.u32 7
      ∷ Cell.null PgType.text
      ∷ Cell.array (ArrayCell.u32 (some 1 ∷ none ∷ some 2 ∷ []))
      ∷ [];
}

abbrev column : Text → PgType → ColumnSchema
column name typ = record { name = name; typ = typ; modifier = 0; nullable = true; primary = false }

abbrev columns : List ColumnSchema
columns =
    column (codes "id") PgType.oid
    ∷ column (codes "name") PgType.text
    ∷ column (codes "tags") PgType.oid_array
    ∷ []

length-encode_raw_example : length (encode_raw ext prost row) ≡ encoded_len ext prost row
length-encode_raw_example = length-encode_raw ext prost prost-AllMeasured row
