-- ===== src/FakeSalesforce/Soql/Scan.antt =====
-- The expressions of fake_salesforce/soql.py's `_TOKEN_RE`, tried at the start of a text. No way of
-- matching less of a repetition lets the rest of these expressions match, so none is tried again.
pub mod Cuts
pub mod Matches
use Prim.Native.String
use salesforce_erp_sync.Common.{
  ℕ, String, Bool, true, false, ◌&&◌, ◌||◌, not, Option, none, some, List, [], ◌∷◌, if◌then◌else◌,
  or_default, ◌==◌, leb, ◌<>◌, is_digit,
}
use salesforce_erp_sync.Python.Regex.{is_decimal, is_space}
use Prim.Native.Char.{Char, code}

-- The expressions: a character of a class, `mn`, `(?:m)?`, `m|n`, `[...]*`, and the rest of a quoted
-- text, `(?:[^'\]|\.)*'`.
infixr 30 ◌⨾◌
pub data Pattern : Type 0 where
  one : (ℕ → Bool) → Pattern
  ◌⨾◌ : Pattern → Pattern → Pattern
  maybe : Pattern → Pattern
  either : Pattern → Pattern → Pattern
  star : (ℕ → Bool) → Pattern
  quoted : Pattern

-- What an expression takes from the start of a text, and what it leaves.
abbrev pub Found : Type 0
Found = Option (String × String)

abbrev pub found_one : (ℕ → Bool) → String → Found
found_one p String.[] = none
found_one p (String.◌∷◌ c s) = if p (code c) then some (String.◌∷◌ c String.[], s) else none

-- a match `a` in front of one more
abbrev pub prepend : String → Found → Found
prepend a none = none
prepend a (some (b, r)) = some (a <> b, r)

abbrev pub follow : Found → (String → Found) → Found
follow none n = none
follow (some (a, r)) n = prepend a (n r)

abbrev pub first_of : Found → Found → Found
first_of none o = o
first_of (some x) o = some x

-- as many characters of a class as there are
abbrev pub taken : Bool → Char → String → String × String → String × String
taken true c s (a, r) = (String.◌∷◌ c a, r)
taken false c s (a, r) = ("", String.◌∷◌ c s)

abbrev pub run : (ℕ → Bool) → String → String × String
run p String.[] = ("", "")
run p (String.◌∷◌ c s) = taken (p (code c)) c s (run p s)

abbrev pub put : Char → Found → Found
put c none = none
put c (some (a, r)) = some (String.◌∷◌ c a, r)

-- up to the closing quote; `escaped` after a backslash
abbrev pub found_quote : Bool → String → Found
found_quote escaped String.[] = none
found_quote escaped (String.◌∷◌ c s) =
    let rest = found_quote (not escaped && code c == 92) s in
    if escaped
    then if code c == 10 then none else put c rest
    else if code c == 39
    then some (String.◌∷◌ c String.[], s)
    else put c rest

abbrev pub scan : Pattern → String → Found
scan (one p) s = found_one p s
scan (m ⨾ n) s = follow (scan m s) (scan n)
scan (maybe m) s = some (or_default (scan m s) ("", s))
scan (either m n) s = first_of (scan m s) (scan n s)
scan (star p) s = some (run p s)
scan quoted s = found_quote false s

abbrev literally : ℕ → Pattern
literally k = one (λ c. c == k)

abbrev pub plus : (ℕ → Bool) → Pattern
plus p = one p ⨾ star p

-- `\d` and `\d{2}`
abbrev digit : Pattern
digit = one is_decimal

abbrev digits_2 : Pattern
digits_2 = digit ⨾ digit

abbrev pub is_letter : ℕ → Bool
is_letter c = (leb b'A' c && leb c b'Z') || (leb b'a' c && leb c b'z') || c == b'_'

abbrev pub is_name : ℕ → Bool
is_name c = is_letter c || is_digit c || c == b'.'

abbrev pub string_pattern : Pattern
string_pattern = literally 39 ⨾ quoted

abbrev pub date_pattern : Pattern
date_pattern = digits_2 ⨾ digits_2 ⨾ literally b'-' ⨾ digits_2 ⨾ literally b'-' ⨾ digits_2

-- `(?:\.\d{1,3})?`, and `Z|[+-]\d{2}:?\d{2}`
abbrev millis : Pattern
millis = maybe (literally b'.' ⨾ digit ⨾ maybe (digit ⨾ maybe digit))

abbrev offset : Pattern
offset =
    either (literally b'Z')
      (one (λ c. c == b'+' || c == b'-') ⨾ digits_2 ⨾ maybe (literally b':') ⨾ digits_2)

abbrev pub datetime_pattern : Pattern
datetime_pattern =
    date_pattern
    ⨾ literally b'T'
    ⨾ digits_2
    ⨾ literally b':'
    ⨾ digits_2
    ⨾ literally b':'
    ⨾ digits_2
    ⨾ millis
    ⨾ offset

abbrev pub number_pattern : Pattern
number_pattern = maybe (literally b'-') ⨾ plus is_decimal ⨾ maybe (literally b'.' ⨾ plus is_decimal)

-- `>=|<=|!=|<>|=|<|>`
abbrev pub op_pattern : Pattern
op_pattern = either (literally b'>' ⨾ literally b'=') (
    either (literally b'<' ⨾ literally b'=') (
      either (literally b'!' ⨾ literally b'=') (
        either (literally b'<' ⨾ literally b'>') (one (λ c. c == b'=' || c == b'<' || c == b'>')))))

-- `_TOKEN_RE`: its alternatives in their order
abbrev pub alternatives : List (String × Pattern)
alternatives =
    ("ws", plus is_space)
    ∷ ("string", string_pattern)
    ∷ ("datetime", datetime_pattern)
    ∷ ("date", date_pattern)
    ∷ ("number", number_pattern)
    ∷ ("op", op_pattern)
    ∷ ("punct", one (λ c. c == b'(' || c == b')' || c == b','))
    ∷ ("ident", one is_letter ⨾ star is_name)
    ∷ []

-- What a match has: `lastgroup`, `group()`, and the text after `end()`.
pub record Match : Type 0 where
  pub kind : String
  pub group : String
  pub rest : String

abbrev pub match_or : String → Found → Option Match → Option Match
match_or kind none later = later
match_or kind (some (a, r)) later = some (record { kind = kind; group = a; rest = r })

abbrev pub first_match : List (String × Pattern) → String → Option Match
first_match [] s = none
first_match ((kind, m) ∷ ms) s = match_or kind (scan m s) (first_match ms s)

-- `_TOKEN_RE.match`
unfoldable pub token_match : String → Option Match
token_match = first_match alternatives
