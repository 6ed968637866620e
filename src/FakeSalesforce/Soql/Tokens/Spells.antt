-- ===== src/FakeSalesforce/Soql/Tokens/Spells.antt =====
-- What `tokenize` of fake_salesforce/soql.py says about its text, and that its loop ends.
use Prim.Native.Char.{Char}
use salesforce_erp_sync.Common.{
  ℕ, ◌+◌, String, ◌≡◌, none, some, List, [], length, codes, ◌<>◌, ◌==◌, ◌||◌,
}
use salesforce_erp_sync.Python.Regex.{is_space}
use salesforce_erp_sync.Outcome.{Outcome, ok, raised}
use salesforce_erp_sync.FakeSalesforce.Soql.{Builtins, malformed}
use salesforce_erp_sync.FakeSalesforce.Soql.Scan.{
  Pattern, one, star, ◌⨾◌, Match, scan, plus, string_pattern, datetime_pattern, date_pattern,
  number_pattern, op_pattern, is_letter, is_name,
}
use salesforce_erp_sync.FakeSalesforce.Soql.Tokens.{Token, token_of, unexpected}

-- a bracket or a comma, and a name
abbrev pub punct_pattern : Pattern
punct_pattern = one (λ c. c == b'(' || c == b')' || c == b',')

abbrev pub ident_pattern : Pattern
ident_pattern = one is_letter ⨾ star is_name

abbrev pub match : String → String → String → Match
match kind group rest = record { kind = kind; group = group; rest = rest }

-- What the expression of a kind takes at the start of a text: a text, a date and time, a date that no time
-- follows, a number that is the start of no date, and the rest, which start with other characters.
pub data TokenAt (s : String) : Match → Type 0 where
  is_ws : {a r : String} → scan (plus is_space) s ≡ some (a, r) → TokenAt s (match "ws" a r)
  is_string : {a r : String} → scan string_pattern s ≡ some (a, r) → TokenAt s (match "string" a r)
  is_datetime :
      {a r : String} → scan datetime_pattern s ≡ some (a, r) → TokenAt s (match "datetime" a r)
  is_date :
      {a r : String}
      → scan datetime_pattern s ≡ none
      → scan date_pattern s ≡ some (a, r)
      → TokenAt s (match "date" a r)
  is_number :
      {a r : String}
      → scan datetime_pattern s ≡ none
      → scan date_pattern s ≡ none
      → scan number_pattern s ≡ some (a, r)
      → TokenAt s (match "number" a r)
  is_op : {a r : String} → scan op_pattern s ≡ some (a, r) → TokenAt s (match "op" a r)
  is_punct : {a r : String} → scan punct_pattern s ≡ some (a, r) → TokenAt s (match "punct" a r)
  is_ident : {a r : String} → scan ident_pattern s ≡ some (a, r) → TokenAt s (match "ident" a r)

-- No expression matches here.
pub record NoToken (s : String) : Type 0 where
  pub no_ws : scan (plus is_space) s ≡ none
  pub no_string : scan string_pattern s ≡ none
  pub no_datetime : scan datetime_pattern s ≡ none
  pub no_date : scan date_pattern s ≡ none
  pub no_number : scan number_pattern s ≡ none
  pub no_op : scan op_pattern s ≡ none
  pub no_punct : scan punct_pattern s ≡ none
  pub no_ident : scan ident_pattern s ≡ none

-- The tokens, with matches of white space between them, make up the text.
pub data Spells : List Token → String → Type 0 where
  done : Spells [] String.[]
  also :
      {tokens : List Token} {s : String} {m : Match}
      → TokenAt s m
      → m.group <> m.rest ≡ s
      → Spells tokens m.rest
      → Spells (token_of m tokens) s

-- After a number of code points, all in matches, a text is left that is not empty and starts with none.
pub data Stops : String → ℕ → String → Type 0 where
  here :
      (c : Char) (s : String) → NoToken (String.◌∷◌ c s) → Stops (String.◌∷◌ c s) 0 (String.◌∷◌ c s)
  later :
      {s : String} {m : Match} {n : ℕ} {left : String}
      → TokenAt s m
      → m.group <> m.rest ≡ s
      → Stops m.rest n left
      → Stops s (length (codes m.group) + n) left

-- How the loop ends at a position: in tokens that spell the text, or in the error that names the position
-- and the first character of what starts no token.
pub data Tokenizes (py : Builtins) (pos : ℕ) (s : String) : Outcome (List Token) → Type 0 where
  spelled : {tokens : List Token} → Spells tokens s → Tokenizes py pos s (ok tokens)
  stopped :
      (n : ℕ) (left : String)
      → Stops s n left
      → Tokenizes py pos s (raised (malformed (unexpected py (pos + n) left)))
