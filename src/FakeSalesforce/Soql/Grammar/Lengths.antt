-- ===== src/FakeSalesforce/Soql/Grammar/Lengths.antt =====
-- What a phrase of fake_salesforce/soql.py's grammar leaves is no longer than what it was given.
use salesforce_erp_sync.Common.{◌≤◌, String, Bool, List, length, arith}
use salesforce_erp_sync.FakeSalesforce.Soql.{Condition, Builtins}
use salesforce_erp_sync.FakeSalesforce.Soql.Tokens.{Token}
use salesforce_erp_sync.FakeSalesforce.Soql.Grammar.{
  Values, last_value, next_value, IsCondition, compares, among, Columns, last_column, next_column,
  Direction, descends, ascends, unsaid, Ands, no_and, next_and, Where, all_records, those,
}

module _ {py : Builtins} where
  Values-le-length :
      {ftype : String} {toks rest : List Token} {vs : List String}
      → Values py ftype toks vs rest
      → length rest ≤ length toks
  Values-le-length (last_value h m) = omega arith
  Values-le-length (next_value h m more) = omega (arith, Values-le-length more)

  pub IsCondition-le-length :
      {toks rest : List Token} {c : Condition}
      → IsCondition py toks c rest
      → length rest ≤ length toks
  IsCondition-le-length (compares col h) = omega arith
  IsCondition-le-length (among col word paren h) = omega (arith, Values-le-length h)

  pub Ands-le-length :
      {toks rest : List Token} {cs : List Condition}
      → Ands py toks cs rest
      → length rest ≤ length toks
  Ands-le-length (no_and h) = omega arith
  Ands-le-length (next_and h c more) = omega (arith, IsCondition-le-length c, Ands-le-length more)

  pub Where-le-length :
      {toks rest : List Token} {cs : List Condition}
      → Where py toks cs rest
      → length rest ≤ length toks
  Where-le-length (all_records h) = omega arith
  Where-le-length (those h c more or_) = omega (arith, IsCondition-le-length c, Ands-le-length more)

pub Columns-le-length :
    {toks rest : List Token} {names : List String}
    → Columns toks names rest
    → length rest ≤ length toks
Columns-le-length (last_column col h) = omega arith
Columns-le-length (next_column col h more) = omega (arith, Columns-le-length more)

pub Direction-le-length :
    {toks rest : List Token} {b : Bool} → Direction toks b rest → length rest ≤ length toks
Direction-le-length (descends h) = omega arith
Direction-le-length (ascends h g) = omega arith
Direction-le-length (unsaid h g) = omega arith
