-- ===== src/FakeSalesforce/Soql/Parse.antt =====
-- fake_salesforce/soql.py: `parse`, clause by clause. Every round of a loop takes a token, so the number
-- of tokens is fuel enough.
pub mod Ends
pub mod Complete
pub mod Lists
pub mod Clauses
pub mod Sound
use salesforce_erp_sync.Common.{
  ℕ, zero, suc, ◌+◌, ◌*◌, String, Bool, true, false, ◌&&◌, ◌||◌, not, Option, none, some, List, [],
  ◌∷◌, length, if◌then◌else◌, str_eq, codes, upper, lower, ◌<>◌, any,
}
use mathlib.Core.List.{foldl}
use salesforce_erp_sync.Python.Regex.{is_decimal, decimal_value}
use salesforce_erp_sync.Outcome.{Exn, Outcome, ok, raised, soql_error, ◌>>=◌ as and_then}
use salesforce_erp_sync.Exec.{Exec, pure, raise, lift, ◌>>=◌, ◌>>◌}
use salesforce_erp_sync.FakeSalesforce.Soql.{
  Condition, OrderBy, Query, Builtins, malformed, still_running,
}
use salesforce_erp_sync.FakeSalesforce.Soql.Tokens.{Token, tokenize}
use salesforce_erp_sync.FakeSalesforce.Soql.Parser.{
  Parser, peek, next, keyword, expect_keyword, field, condition,
}

-- a comma goes on with the list
abbrev pub comma : Parser Bool
comma [] = (ok false, [])
comma (tok ∷ toks) = if str_eq tok.text "," then (ok true, toks) else (ok false, tok ∷ toks)

-- the loop over the fields of SELECT
unfoldable pub selected : Builtins → ℕ → Parser (List String)
unfolding field
selected py zero = raise still_running
selected py (suc fuel) = do
  known ← field py
  more ← comma
  if more then (do names ← selected py fuel; pure (known.0 ∷ names)) else pure (known.0 ∷ [])

-- FROM
unfoldable pub from_opportunity : Parser Unit
unfolding expect_keyword lower
from_opportunity = do
  expect_keyword "FROM"
  sobject_tok ← next
  if str_eq (lower sobject_tok.text) "opportunity"
      then pure tt
      else raise (
          soql_error "INVALID_TYPE"
            ("sObject type '" <> sobject_tok.text <> "' is not supported by the fake"))

-- the loop over AND
unfoldable pub and_conditions : Builtins → ℕ → Parser (List Condition)
unfolding keyword condition
and_conditions py zero = raise still_running
and_conditions py (suc fuel) = do
  more ← keyword "AND"
  if more
      then (do cond ← condition py (suc fuel); conds ← and_conditions py fuel; pure (cond ∷ conds))
      else pure []

abbrev pub says_or : Option Token → Bool
says_or none = false
says_or (some tok) = str_eq (upper tok.text) "OR"

-- WHERE
unfoldable pub where_clause : Builtins → ℕ → Parser (List Condition)
unfolding and_conditions upper
where_clause py fuel = do
  found ← keyword "WHERE"
  if found
      then (do
        cond ← condition py fuel
        conds ← and_conditions py fuel
        tok ← peek
        if says_or tok
            then raise (malformed "the fake Salesforce supports AND only")
            else pure (cond ∷ conds))
      else pure []

-- DESC, or an ASC that may be left out
unfoldable pub direction : Parser Bool
unfolding keyword
direction = do
  descending ← keyword "DESC"
  if descending then pure true else (do ascending ← keyword "ASC"; pure false)

-- the loop over the keys of ORDER BY
unfoldable pub order_keys : Builtins → ℕ → Parser (List OrderBy)
unfolding field direction
order_keys py zero = raise still_running
order_keys py (suc fuel) = do
  known ← field py
  descending ← direction
  more ← comma
  let key : OrderBy = record { field = known.0; descending = descending }
  if more then (do keys ← order_keys py fuel; pure (key ∷ keys)) else pure (key ∷ [])

-- ORDER BY
unfoldable pub order_clause : Builtins → ℕ → Parser (List OrderBy)
unfolding order_keys expect_keyword
order_clause py fuel = do
  found ← keyword "ORDER"
  if found then (do expect_keyword "BY"; order_keys py fuel) else pure []

-- `tok.text.isdigit()` of a number
abbrev pub is_digits : List ℕ → Bool
is_digits cs = not (any (λ c. not (is_decimal c)) cs)

-- `int` of its digits
unfoldable pub whole_number : String → ℕ
unfolding codes decimal_value
whole_number s = foldl (λ n c. n * 10 + decimal_value c) 0 (codes s)

-- LIMIT
unfoldable pub limit_clause : Parser (Option ℕ)
unfolding keyword whole_number
limit_clause = do
  found ← keyword "LIMIT"
  if found
      then (do
        tok ← next
        if str_eq tok.kind "number" && is_digits (codes tok.text)
            then pure (some (whole_number tok.text))
            else raise (malformed "LIMIT needs a whole number"))
      else pure none

abbrev pub no_leftover : Builtins → Option Token → Parser Unit
no_leftover py none = pure tt
no_leftover py (some leftover) = raise (malformed ("unexpected token " <> py.repr leftover.text))

-- `parse` of the tokens, with the fuel of its loops
unfoldable pub body : Builtins → ℕ → Parser Query
unfolding selected from_opportunity where_clause order_clause limit_clause
body py fuel = do
  expect_keyword "SELECT"
  names ← selected py fuel
  from_opportunity
  conditions ← where_clause py fuel
  order_by ← order_clause py fuel
  limit ← limit_clause
  leftover ← peek
  no_leftover py leftover
  pure (record {
    fields = names;
    sobject = "Opportunity";
    conditions = conditions;
    order_by = order_by;
    limit = limit;
  })

unfoldable pub query_of : Builtins → List Token → Outcome Query
unfolding body
query_of py toks = (body py (suc (length toks)) toks).0

-- `parse`
unfoldable pub parse : Builtins → String → Outcome Query
unfolding query_of tokenize
parse py soql = and_then (tokenize py soql) (query_of py)
