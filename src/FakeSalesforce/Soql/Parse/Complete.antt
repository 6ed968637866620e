-- ===== src/FakeSalesforce/Soql/Parse/Complete.antt =====
-- fake_salesforce/soql.py reads every query of the grammar as what it says.
use salesforce_erp_sync.Common.{
  ℕ, zero, suc, ◌≤◌, ◌<◌, String, ◌≡◌, refl, ap, ◌∙◌, Bool, true, false, Option, List, [], ◌∷◌,
  length, arith, str_eq, eq_iff,
}
use salesforce_erp_sync.Outcome.{ok}
use salesforce_erp_sync.FakeSalesforce.Soql.{Value, OrderBy, Condition, Query, Builtins}
use salesforce_erp_sync.FakeSalesforce.Soql.Tokens.{Token}
use salesforce_erp_sync.FakeSalesforce.Soql.Grammar.{
  IsWord, Lacks, IsColumn, IsLiteral, nothing, a_time, a_date, truth, falsehood, an_amount, a_text,
  Values, last_value, next_value, IsCondition, compares, among, Columns, last_column, next_column,
  Direction, descends, ascends, unsaid, Keys, last_key, next_key, Order, unordered, ordered_by,
  Limit, unlimited, at_most, Ands, no_and, next_and, Where, all_records, those, IsQuery, selects,
}
use salesforce_erp_sync.FakeSalesforce.Soql.Grammar.Lengths.{
  IsCondition-le-length, Where-le-length, Columns-le-length, Direction-le-length,
}
use salesforce_erp_sync.FakeSalesforce.Soql.Parser.{
  choose, keyword, expect_keyword, field, literal_of, literal, in_values, condition,
}
use salesforce_erp_sync.FakeSalesforce.Soql.Parse.{
  selected, and_conditions, where_clause, direction, order_keys, order_clause, limit_clause, body,
  query_of,
}

-- One text is one mark.
other_mark :
    (s mark other : String)
    → str_eq s mark ≡ true
    → str_eq mark other ≡ false
    → str_eq s other ≡ false
other_mark s mark other h differ = ap (λ t. str_eq t other) ((eq_iff s mark).0 h) ∙ differ

keyword-IsWord :
    (word : String) (tok : Token) (rest : List Token)
    → IsWord word tok
    → keyword word (tok ∷ rest) ≡ (ok true, rest)
unfolding keyword
keyword-IsWord word tok rest h = rw h refl

keyword-Lacks :
    (word : String) (rest : List Token) → Lacks word rest → keyword word rest ≡ (ok false, rest)
unfolding keyword
keyword-Lacks word [] h = refl
keyword-Lacks word (tok ∷ rest) h = rw h refl

expect_keyword-IsWord :
    (word : String) (tok : Token) (rest : List Token)
    → IsWord word tok
    → expect_keyword word (tok ∷ rest) ≡ (ok tt, rest)
unfolding expect_keyword
expect_keyword-IsWord word tok rest h = rw h refl

direction-Direction :
    {toks rest : List Token} {b : Bool} → Direction toks b rest → direction toks ≡ (ok b, rest)
unfolding direction
direction-Direction (descends h) = rw h refl
direction-Direction (ascends h g) = rw (h, g) refl
direction-Direction (unsaid {rest = []} h g) = refl
direction-Direction (unsaid {rest = tok ∷ rest} h g) = rw (h, g) refl

limit_clause-Limit :
    {toks : List Token} {limit : Option ℕ} → Limit toks limit → limit_clause toks ≡ (ok limit, [])
unfolding limit_clause
limit_clause-Limit unlimited = refl
limit_clause-Limit (at_most h g) = rw (h, g) refl

module _ (py : Builtins) where
  field-IsColumn :
      {name ftype : String} {tok : Token} (rest : List Token)
      → IsColumn name ftype tok
      → field py (tok ∷ rest) ≡ (ok (name, ftype), rest)
  unfolding field
  field-IsColumn rest h = rw (h.is_ident, h.known) refl

  literal_of-IsLiteral :
      {ftype : String} {tok : Token} {v : Value} (name : String)
      → IsLiteral py ftype tok v
      → literal_of py name ftype tok ≡ ok v
  unfolding literal_of choose
  literal_of-IsLiteral name (nothing h) = rw h refl
  literal_of-IsLiteral name (a_time h) = rw h refl
  literal_of-IsLiteral name (a_date h) = rw h refl
  literal_of-IsLiteral name (truth h g) = rw (h, g) refl
  literal_of-IsLiteral name (falsehood h g k) = rw (h, g, k) refl
  literal_of-IsLiteral name (an_amount h) = rw h refl
  literal_of-IsLiteral name (a_text h) = rw (h.no_time, h.no_date, h.no_truth, h.no_amount) refl

  literal-IsLiteral :
      {ftype : String} {tok : Token} {v : Value} (name : String) (rest : List Token)
      → IsLiteral py ftype tok v
      → literal py name ftype (tok ∷ rest) ≡ (ok v, rest)
  unfolding literal
  literal-IsLiteral name rest h = rw (literal_of-IsLiteral name h) refl

  in_values-Values :
      {ftype : String} {toks rest : List Token} {vs : List String} (fuel : ℕ) (name : String)
      → Values py ftype toks vs rest
      → length toks ≤ fuel
      → in_values py fuel name ftype toks ≡ (ok vs, rest)
  unfolding in_values
  in_values-Values zero name (last_value h m) le = absurd (omega (arith, le))
  in_values-Values zero name (next_value h m more) le = absurd (omega (arith, le))
  in_values-Values (suc fuel) name (last_value h m) le = rw (literal_of-IsLiteral name h, m) refl
  in_values-Values (suc fuel) name (next_value h m more) le =
      rw
        (
          literal_of-IsLiteral name h,
          m,
          other_mark _ "," ")" m refl,
          in_values-Values fuel name more (omega (arith, le)),
        )
        refl

  condition-IsCondition :
      {toks rest : List Token} {c : Condition} (fuel : ℕ)
      → IsCondition py toks c rest
      → length toks ≤ fuel
      → condition py fuel toks ≡ (ok c, rest)
  unfolding condition
  condition-IsCondition fuel (compares {name = name} col h) le =
      rw (col.is_ident, col.known, literal_of-IsLiteral name h) refl
  condition-IsCondition fuel (among {name = name} col word paren h) le =
      rw (col.is_ident, col.known, word, paren, in_values-Values fuel name h (omega (arith, le)))
        refl

  selected-Columns :
      {toks rest : List Token} {names : List String} (fuel : ℕ)
      → Columns toks names rest
      → length toks ≤ fuel
      → selected py fuel toks ≡ (ok names, rest)
  unfolding selected
  selected-Columns zero (last_column col h) le = absurd (omega (arith, le))
  selected-Columns zero (next_column col h more) le = absurd (omega (arith, le))
  selected-Columns (suc fuel) (last_column {rest = []} col h) le = rw (col.is_ident, col.known) refl
  selected-Columns (suc fuel) (last_column {rest = tok ∷ rest} col h) le =
      rw (col.is_ident, col.known, h) refl
  selected-Columns (suc fuel) (next_column col h more) le =
      rw (col.is_ident, col.known, h, selected-Columns fuel more (omega (arith, le))) refl

  and_conditions-Ands :
      {toks rest : List Token} {cs : List Condition} (fuel : ℕ)
      → Ands py toks cs rest
      → length toks < fuel
      → and_conditions py fuel toks ≡ (ok cs, rest)
  unfolding and_conditions
  and_conditions-Ands zero h le = absurd (omega (arith, le))
  and_conditions-Ands (suc fuel) (no_and {rest = rest} h) le = rw (keyword-Lacks "AND" rest h) refl
  and_conditions-Ands (suc fuel) (next_and h c more) le =
      rw
        (
          h,
          condition-IsCondition (suc fuel) c (omega (arith, le)),
          and_conditions-Ands fuel more (omega (arith, le, IsCondition-le-length c)),
        )
        refl

  where_clause-Where :
      {toks rest : List Token} {cs : List Condition} (fuel : ℕ)
      → Where py toks cs rest
      → length toks < fuel
      → where_clause py fuel toks ≡ (ok cs, rest)
  unfolding where_clause
  where_clause-Where fuel (all_records {rest = rest} h) le = rw (keyword-Lacks "WHERE" rest h) refl
  where_clause-Where fuel (those {rest = []} h c more or_) le =
      rw
        (
          h,
          condition-IsCondition fuel c (omega (arith, le)),
          and_conditions-Ands fuel more (omega (arith, le, IsCondition-le-length c)),
        )
        refl
  where_clause-Where fuel (those {rest = tok ∷ rest} h c more or_) le =
      rw
        (
          h,
          condition-IsCondition fuel c (omega (arith, le)),
          and_conditions-Ands fuel more (omega (arith, le, IsCondition-le-length c)),
          or_,
        )
        refl

  order_keys-Keys :
      {toks rest : List Token} {keys : List OrderBy} (fuel : ℕ)
      → Keys toks keys rest
      → length toks ≤ fuel
      → order_keys py fuel toks ≡ (ok keys, rest)
  unfolding order_keys
  order_keys-Keys zero (last_key col d h) le = absurd (omega (arith, le))
  order_keys-Keys zero (next_key col d h more) le = absurd (omega (arith, le))
  order_keys-Keys (suc fuel) (last_key {rest = []} col d h) le =
      rw (col.is_ident, col.known, direction-Direction d) refl
  order_keys-Keys (suc fuel) (last_key {rest = tok ∷ rest} col d h) le =
      rw (col.is_ident, col.known, direction-Direction d, h) refl
  order_keys-Keys (suc fuel) (next_key col d h more) le =
      rw
        (
          col.is_ident,
          col.known,
          direction-Direction d,
          h,
          order_keys-Keys fuel more (omega (arith, le, Direction-le-length d)),
        )
        refl

  order_clause-Order :
      {toks rest : List Token} {keys : List OrderBy} (fuel : ℕ)
      → Order toks keys rest
      → length toks ≤ fuel
      → order_clause py fuel toks ≡ (ok keys, rest)
  unfolding order_clause
  order_clause-Order fuel (unordered {rest = rest} h) le = rw (keyword-Lacks "ORDER" rest h) refl
  order_clause-Order fuel (ordered_by h g keys) le =
      rw (h, g, order_keys-Keys fuel keys (omega (arith, le))) refl

  body-IsQuery :
      {toks : List Token} {q : Query} (fuel : ℕ)
      → IsQuery py toks q
      → length toks ≤ fuel
      → (body py fuel toks).0 ≡ ok q
  unfolding body
  body-IsQuery fuel (selects s columns f o w order limit) le =
      rw
        (
          s,
          selected-Columns fuel columns (omega (arith, le)),
          f,
          o,
          where_clause-Where fuel w (omega (arith, le, Columns-le-length columns)),
          order_clause-Order fuel order
              (omega (arith, le, Columns-le-length columns, Where-le-length w)),
          limit_clause-Limit limit,
        )
        refl

-- A query of the grammar is read as what it says.
pub query_of-IsQuery :
    (py : Builtins) (toks : List Token) (q : Query) → IsQuery py toks q → query_of py toks ≡ ok q
unfolding query_of
query_of-IsQuery py toks q h = body-IsQuery py (suc (length toks)) h (omega arith)
