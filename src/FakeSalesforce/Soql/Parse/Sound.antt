-- ===== src/FakeSalesforce/Soql/Parse/Sound.antt =====
-- fake_salesforce/soql.py's `parse` reads nothing but the queries of the grammar.
use salesforce_erp_sync.Common.{
  ℕ, ◌&&◌, Bool, Option, none, some, List, [], ◌∷◌, if◌then◌else◌, str_eq, codes,
}
use salesforce_erp_sync.Exec.{pure, raise, ◌>>=◌}
use salesforce_erp_sync.FakeSalesforce.Soql.{Condition, OrderBy, Builtins, malformed}
use salesforce_erp_sync.FakeSalesforce.Soql.Parser.{Parser, peek, next, expect_keyword, condition}
use salesforce_erp_sync.FakeSalesforce.Soql.Parse.{
  and_conditions, says_or, order_keys, is_digits, whole_number,
}

module _ (py : Builtins) where
  abbrev after_where : Bool → ℕ → Parser (List Condition)
  after_where found fuel =
      if found
      then (condition py fuel >>= λ cond. and_conditions py fuel >>= λ conds. peek >>= λ tok.
          if says_or tok
          then raise (malformed "the fake Salesforce supports AND only")
          else pure (cond ∷ conds))
      else pure []

  abbrev after_order : Bool → ℕ → Parser (List OrderBy)
  after_order found fuel =
      if found then (expect_keyword "BY" >>= λ _. order_keys py fuel) else pure []

after_limit : Bool → Parser (Option ℕ)
after_limit found =
    if found
    then (next >>= λ tok.
        if str_eq tok.kind "number" && is_digits (codes tok.text)
        then pure (some (whole_number tok.text))
        else raise (malformed "LIMIT needs a whole number"))
    else pure none
