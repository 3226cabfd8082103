-- ===== src/Conversions/ArrayText.antt =====
-- `TextFormatConverter::parse_array` of etl/src/conversions/text.rs: the text form of a Postgres
-- array, of one dimension.
pub mod RoundTrip
use pg_replicate.Base.{
  ℕ, ◌+◌, Bool, true, false, ◌&&◌, ◌||◌, not, Option, none, some, List, [], ◌∷◌, ◌++◌, Text, codes,
  text_eq, ltb, leb, ◌==◌, if◌then◌else◌, Result, ok, err, and_then, is_empty,
}

pub data ArrayParseError : Type 0 where
  input_too_short missing_braces : ArrayParseError

-- The length of a text in bytes of UTF-8.
pub utf8_length : Text → ℕ
utf8_length [] = 0
utf8_length (c ∷ s) =
    (if ltb c 0x80 then 1 else if ltb c 0x800 then 2 else if ltb c 0x10000 then 3 else 4)
    + utf8_length s

pub starts_with : ℕ → Text → Bool
starts_with c [] = false
starts_with c (d ∷ s) = c == d

pub ends_with : ℕ → Text → Bool
ends_with c [] = false
ends_with c (d ∷ []) = c == d
ends_with c (d ∷ e ∷ s) = ends_with c (e ∷ s)

-- All but the last character.
pub drop_last : Text → Text
drop_last [] = []
drop_last (d ∷ []) = []
drop_last (d ∷ e ∷ s) = d ∷ drop_last (e ∷ s)

pub tail : Text → Text
tail [] = []
tail (c ∷ s) = s

-- The variables of the loop but `res` and `chars`.
pub record Scan : Type 0 where
  pub val_str : Text
  pub in_quotes : Bool
  pub in_escape : Bool
  pub val_quoted : Bool

-- After a value: `val_str` is cleared, `val_quoted` reset, and the other two are false already.
abbrev pub fresh : Scan
fresh = record { val_str = []; in_quotes = false; in_escape = false; val_quoted = false }

-- A comma outside quotes ends the value.
pub ends_value : ℕ → Scan → Bool
ends_value c s = not s.in_escape && ((c == b',') && not s.in_quotes)

-- Every other character.
pub step : ℕ → Scan → Scan
step c s =
    if s.in_escape
    then record s { val_str = s.val_str ++ c ∷ []; in_escape = false }
    else if c == b'"'
    then record s { val_quoted = s.val_quoted || not s.in_quotes; in_quotes = not s.in_quotes }
    else if c == b'\\'
    then record s { in_escape = true }
    else record s { val_str = s.val_str ++ c ∷ [] }

module _ {T E : Type 0} (to_lowercase : Text → Text) (parse : Text → Result E (Option T)) where
  pub value : Scan → Result E (Option T)
  value s =
      if not s.val_quoted && text_eq (to_lowercase s.val_str) (codes "null")
      then ok none
      else parse s.val_str

  -- The two loops in one: what is left of `chars`, the variables, and `res`.
  pub scan : Text → Scan → List (Option T) → Result E (List (Option T))
  unfolding step ends_value value
  scan [] s res = and_then (value s) λ v. ok (res ++ v ∷ [])
  scan (c ∷ chars) s res =
      let next = and_then (value s) (λ v. scan chars fresh (res ++ v ∷ [])) in
      let more = scan chars (step c s) res in if ends_value c s then next else more

  pub parse_body : Text → Result E (List (Option T))
  unfolding scan
  parse_body s = if is_empty s then ok [] else scan s fresh []

  unfoldable pub parse_array : (ArrayParseError → E) → Text → Result E (List (Option T))
  unfolding utf8_length starts_with ends_with drop_last tail parse_body
  parse_array into s =
      if ltb (utf8_length s) 2
      then err (into ArrayParseError.input_too_short)
      else if not (starts_with b'{' s) || not (ends_with b'}' s)
      then err (into ArrayParseError.missing_braces)
      else parse_body (drop_last (tail s))
