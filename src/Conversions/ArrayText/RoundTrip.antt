-- ===== src/Conversions/ArrayText/RoundTrip.antt =====
-- etl/src/conversions/text.rs: `parse_array` and the text that `array_out` of Postgres writes for an array
-- of texts.
use pg_replicate.Base.{
  ℕ, ◌≤◌, ◌≡◌, refl, ap, ◌∙◌, true, false, Option, none, some, List, [], ◌∷◌, ◌++◌, Text, codes,
  ◌==◌, ◌||◌, if◌then◌else◌, Result, ok, arith, append_assoc, append-nil, is_empty, ltb, leb, ◌&&◌,
  ◌+◌, map, Bool, false, text_eq, if-elim, subst,
}
use pg_replicate.Conversions.ArrayText.{
  ArrayParseError, Scan, fresh, utf8_length, ends_with, drop_last, scan, parse_body, parse_array,
}

-- How `array_out` writes the text of an element between its quotes.
escape_char : ℕ → Text
escape_char c = if (c == b'"') || (c == b'\\') then b'\\' ∷ c ∷ [] else c ∷ []

pub escape : Text → Text
unfolding escape_char
escape [] = []
escape (c ∷ s) = escape_char c ++ escape s

abbrev pub ascii_lower : ℕ → ℕ
ascii_lower c = if ltb 64 c && ltb c 91 then c + 32 else c

-- `pg_strcasecmp(value, "NULL") == 0`
unfoldable pub is_null_word : Text → Bool
is_null_word s = text_eq (map ascii_lower s) (codes "null")

-- A quote, a backslash, a brace or the delimiter, or one of the spaces of `array_isspace`.
is_special : ℕ → Bool
is_special c =
    (c == b'"')
    || ((c == b'\\')
        || ((c == b'{')
            || ((c == b'}') || ((c == b',') || ((c == b' ') || (leb 9 c && leb c 13))))))

has_special : Text → Bool
unfolding is_special
has_special [] = false
has_special (c ∷ s) = is_special c || has_special s

-- `array_out` quotes an element that is empty, that reads as a null, or that has a special character.
needs_quote : Text → Bool
unfolding is_null_word has_special
needs_quote s = is_empty s || (is_null_word s || has_special s)

pub element : Option Text → Text
unfolding escape needs_quote
element none = codes "NULL"
element (some s) = if needs_quote s then b'"' ∷ escape s ++ b'"' ∷ [] else s

-- The elements with commas between them, and what follows.
pub elements : Option Text → List (Option Text) → Text
unfolding element
elements o [] = element o
elements o (p ∷ os) = element o ++ b',' ∷ elements p os

pub body : List (Option Text) → Text
unfolding elements
body [] = []
body (o ∷ os) = elements o os

pub array_text : List (Option Text) → Text
array_text os = b'{' ∷ body os ++ b'}' ∷ []

ends_with-last : (c : ℕ) (s : Text) → ends_with c (s ++ c ∷ []) ≡ true
unfolding ends_with
ends_with-last c [] = ground arith
ends_with-last c (d ∷ []) = ground arith
ends_with-last c (d ∷ e ∷ s) = ends_with-last c (e ∷ s)

drop_last-last : (c : ℕ) (s : Text) → drop_last (s ++ c ∷ []) ≡ s
unfolding drop_last
drop_last-last c [] = refl
drop_last-last c (d ∷ []) = refl
drop_last-last c (d ∷ e ∷ s) = ap (◌∷◌ d) (drop_last-last c (e ∷ s))

utf8_length-last : (c : ℕ) (s : Text) → 1 ≤ utf8_length (s ++ c ∷ [])
unfolding utf8_length
utf8_length-last c [] = ground arith
utf8_length-last c (d ∷ s) = ground (arith, utf8_length-last c s)

element-ne_empty : (o : Option Text) (rest : Text) → is_empty (element o ++ rest) ≡ false
unfolding element needs_quote
element-ne_empty none rest = refl
element-ne_empty (some []) rest = refl
element-ne_empty (some (c ∷ s)) rest =
    if-elim (λ t. is_empty (t ++ rest) ≡ false) (needs_quote (c ∷ s))
      (b'"' ∷ escape (c ∷ s) ++ b'"' ∷ []) (c ∷ s) (λ e. refl) (λ e. refl)

elements-ne_empty : (o : Option Text) (os : List (Option Text)) → is_empty (elements o os) ≡ false
unfolding elements
elements-ne_empty o [] =
    subst (λ t. is_empty t ≡ false) (append-nil (element o)) (element-ne_empty o [])
elements-ne_empty o (p ∷ os) = element-ne_empty o (b',' ∷ elements p os)

ends_with_brace : (s : Text) → ends_with b'}' (b'{' ∷ s ++ b'}' ∷ []) ≡ true
ends_with_brace s = ends_with-last b'}' (b'{' ∷ s)

long_enough : (s : Text) → ltb (utf8_length (b'{' ∷ s ++ b'}' ∷ [])) 2 ≡ false
unfolding utf8_length
long_enough s = ground (arith, utf8_length-last b'}' s)

abbrev quoted : Text → Scan
quoted val = record { val_str = val; in_quotes = true; in_escape = false; val_quoted = true }

abbrev plain : Text → Scan
plain val = record { val_str = val; in_quotes = false; in_escape = false; val_quoted = false }

||-left : {a : Bool} (b : Bool) → a || b ≡ false → a ≡ false
||-left {a} b e = ground arith

||-right : (a : Bool) {b : Bool} → a || b ≡ false → b ≡ false
||-right a {b} e = ground arith

abbrev closed : Text → Scan
closed val = record { val_str = val; in_quotes = false; in_escape = false; val_quoted = true }

module _ {E : Type 0} (to_lowercase : Text → Text) where
  abbrev pub keep : Text → Result E (Option Text)
  keep s = ok (some s)

  scan-char :
      (c : ℕ) (val rest : Text) (res : List (Option Text))
      → scan to_lowercase keep (escape_char c ++ rest) (quoted val) res
        ≡ scan to_lowercase keep rest (quoted (val ++ c ∷ [])) res
  unfolding scan escape_char
  scan-char c val rest res = ground arith

  scan-open :
      (rest : Text) (res : List (Option Text))
      → scan to_lowercase keep (b'"' ∷ rest) fresh res ≡ scan to_lowercase keep rest (quoted []) res
  unfolding scan
  scan-open rest res = refl

  -- Inside quotes an escaped text goes to the value as it was, and the closing quote ends it.
  scan-escape :
      (s val rest : Text) (res : List (Option Text))
      → scan to_lowercase keep (escape s ++ b'"' ∷ rest) (quoted val) res
        ≡ scan to_lowercase keep rest (closed (val ++ s)) res
  unfolding escape
  scan-escape [] val rest res = rw append-nil (unfold scan in refl)
  scan-escape (c ∷ s) val rest res = rw (append_assoc (escape_char c) (escape s) (b'"' ∷ rest)) (
      scan-char c val (escape s ++ b'"' ∷ rest) res
      ∙ scan-escape s (val ++ c ∷ []) rest res
      ∙ ap (λ v. scan to_lowercase keep rest (closed v) res) (append_assoc val (c ∷ []) s))

  scan-quoted :
      (s rest : Text) (res : List (Option Text))
      → scan to_lowercase keep ((b'"' ∷ escape s ++ b'"' ∷ []) ++ rest) fresh res
        ≡ scan to_lowercase keep rest (closed s) res
  scan-quoted s rest res =
      rw (append_assoc (escape s) (b'"' ∷ []) rest)
        (scan-open (escape s ++ b'"' ∷ rest) res ∙ scan-escape s [] rest res)

  scan-plain_char :
      (c : ℕ) (val rest : Text) (res : List (Option Text))
      → is_special c ≡ false
      → scan to_lowercase keep (c ∷ rest) (plain val) res
        ≡ scan to_lowercase keep rest (plain (val ++ c ∷ [])) res
  unfolding scan is_special
  scan-plain_char c val rest res e = ground arith

  -- A text without special characters goes to the value as it is.
  scan-plain :
      (s val rest : Text) (res : List (Option Text))
      → has_special s ≡ false
      → scan to_lowercase keep (s ++ rest) (plain val) res
        ≡ scan to_lowercase keep rest (plain (val ++ s)) res
  unfolding has_special
  scan-plain [] val rest res e = rw append-nil refl
  scan-plain (c ∷ s) val rest res e =
      scan-plain_char c val (s ++ rest) res (||-left (has_special s) e)
      ∙ scan-plain s (val ++ c ∷ []) rest res (||-right (is_special c) e)
      ∙ ap (λ v. scan to_lowercase keep rest (plain v) res) (append_assoc val (c ∷ []) s)

-- The hypothesis is on lower-casing: it gives `null` exactly for the texts that are NULL up to the case of
-- their letters.
module _ (E : Type 0) (to_lowercase : Text → Text)
    (lower : (s : Text) → text_eq (to_lowercase s) (codes "null") ≡ is_null_word s) where
  -- How an element ends, before a comma and at the end of the body.
  abbrev Ends : Option Text → Scan → Type 0
  Ends o s =
      ((rest : Text) (res : List (Option Text))
        → scan to_lowercase (keep {E = E} to_lowercase) (b',' ∷ rest) s res
          ≡ scan to_lowercase (keep {E = E} to_lowercase) rest fresh (res ++ o ∷ []))
      × ((res : List (Option Text))
          → scan to_lowercase (keep {E = E} to_lowercase) [] s res ≡ ok (res ++ o ∷ []))

  -- The scan that an element leads to.
  abbrev Leads : Option Text → Text → Type 0
  Leads o t =
      (s : Scan) × ((rest : Text) (res : List (Option Text))
        → scan to_lowercase (keep {E = E} to_lowercase) (t ++ rest) fresh res
          ≡ scan to_lowercase (keep {E = E} to_lowercase) rest s res)
      × Ends o s

  null-Leads : Leads none (codes "NULL")
  unfolding scan is_null_word text_eq
  null-Leads = (
    plain (codes "NULL"),
    λ rest res. refl,
    (λ rest res. rw (lower (codes "NULL")) refl, λ res. rw (lower (codes "NULL")) refl),
  )

  quoted-Leads : (s : Text) → Leads (some s) (b'"' ∷ escape s ++ b'"' ∷ [])
  unfolding scan
  quoted-Leads s = (closed s, scan-quoted to_lowercase s, (λ rest res. refl, λ res. refl))

  plain-Leads : (s : Text) → needs_quote s ≡ false → Leads (some s) s
  unfolding scan needs_quote
  plain-Leads s e =
      let special = ||-right (is_null_word s) (||-right (is_empty s) e) in
      let word = ||-left (has_special s) (||-right (is_empty s) e) in
      (
        plain s,
        λ rest res. scan-plain to_lowercase s [] rest res special,
        (λ rest res. rw (lower s, word) refl, λ res. rw (lower s, word) refl),
      )

  element-Leads : (o : Option Text) → Leads o (element o)
  unfolding element
  element-Leads none = null-Leads
  element-Leads (some s) =
      if-elim (Leads (some s)) (needs_quote s) (b'"' ∷ escape s ++ b'"' ∷ []) s
        (λ e. quoted-Leads s) (plain-Leads s)

module _ {E : Type 0} (to_lowercase : Text → Text)
    (lower : (s : Text) → text_eq (to_lowercase s) (codes "null") ≡ is_null_word s) where
  scan-element_comma :
      (o : Option Text) (rest : Text) (res : List (Option Text))
      → scan to_lowercase (keep {E = E} to_lowercase) (element o ++ b',' ∷ rest) fresh res
        ≡ scan to_lowercase (keep {E = E} to_lowercase) rest fresh (res ++ o ∷ [])
  scan-element_comma o rest res =
      let (s, leads, ends) = element-Leads E to_lowercase lower o in
      leads (b',' ∷ rest) res ∙ ends.0 rest res

  scan-element :
      (o : Option Text) (res : List (Option Text))
      → scan to_lowercase (keep {E = E} to_lowercase) (element o) fresh res ≡ ok (res ++ o ∷ [])
  scan-element o res =
      let (s, leads, ends) = element-Leads E to_lowercase lower o in
      subst (λ t. scan to_lowercase (keep {E = E} to_lowercase) t fresh res ≡ ok (res ++ o ∷ []))
        (append-nil (element o)) (leads [] res ∙ ends.1 res)

  scan-elements :
      (o : Option Text) (os res : List (Option Text))
      → scan to_lowercase (keep {E = E} to_lowercase) (elements o os) fresh res ≡ ok (res ++ o ∷ os)
  unfolding elements
  scan-elements o [] res = scan-element o res
  scan-elements o (p ∷ os) res =
      scan-element_comma o (elements p os) res
      ∙ scan-elements p os (res ++ o ∷ [])
      ∙ ap ok (append_assoc res (o ∷ []) (p ∷ os))

  parse_body-body :
      (os : List (Option Text))
      → parse_body to_lowercase (keep {E = E} to_lowercase) (body os) ≡ ok os
  unfolding parse_body body
  parse_body-body [] = refl
  parse_body-body (o ∷ os) = rw (elements-ne_empty o os) (scan-elements o os [])

  -- Every list of texts and nulls is read back from the text that Postgres writes for an array of them,
  -- quoted where it must be and bare elsewhere, whatever characters the texts hold: braces, commas,
  -- quotes, backslashes, or the word NULL. It is assumed that lower-casing gives `null` exactly for the
  -- texts that are NULL up to the case of their letters.
  pub parse_array-array_text :
      (into : ArrayParseError → E) (os : List (Option Text))
      → parse_array to_lowercase (keep {E = E} to_lowercase) into (array_text os) ≡ ok os
  unfolding parse_array array_text
  parse_array-array_text into os =
      rw (drop_last-last b'}' (body os), ends_with_brace (body os), long_enough (body os))
        (parse_body-body os)
