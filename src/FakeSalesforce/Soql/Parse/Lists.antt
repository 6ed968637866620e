-- ===== src/FakeSalesforce/Soql/Parse/Lists.antt =====
-- The lists of columns, conditions and keys that fake_salesforce/soql.py's `parse` reads are those of the
-- grammar.
use mathlib.Core.Path.{subst}
use salesforce_erp_sync.Common.{
  ℕ, zero, suc, String, ◌≡◌, refl, sym, ap, Bool, true, false, List, [], ◌∷◌, if◌then◌else◌, str_eq,
}
use salesforce_erp_sync.Outcome.{Outcome, ok}
use salesforce_erp_sync.Exec.{pure, ◌>>=◌}
use salesforce_erp_sync.Exec.Runs.{bind_runs}
use salesforce_erp_sync.FakeSalesforce.Soql.{Condition, Builtins}
use salesforce_erp_sync.FakeSalesforce.Soql.Tokens.{Token}
use salesforce_erp_sync.FakeSalesforce.Soql.Grammar.{
  LacksComma, IsMark, IsColumn, Columns, last_column, next_column, Ands, no_and, next_and,
}
use salesforce_erp_sync.FakeSalesforce.Soql.Parser.{Parser, keyword, field, condition}
use salesforce_erp_sync.FakeSalesforce.Soql.Parser.Sound.{
  keyword_there, keyword-Lacks, field-IsColumn,
}
use salesforce_erp_sync.FakeSalesforce.Soql.Parser.Conditions.{at_result, condition-IsCondition}
use salesforce_erp_sync.FakeSalesforce.Soql.Parse.{comma, selected, and_conditions}

abbrev met : Bool → Token → List Token → Outcome Bool × List Token
met b tok toks = if b then (ok true, toks) else (ok false, tok ∷ toks)

pub comma_there :
    (toks : List Token) {rest : List Token}
    → comma toks ≡ (ok true, rest)
    → (sep : Token) × (toks ≡ sep ∷ rest) × IsMark "," sep
comma_there [] h = cc h
comma_there (tok ∷ toks) {rest} h = on (str_eq tok.text ",") refl h
  where
    on :
        (b : Bool)
        → str_eq tok.text "," ≡ b
        → met b tok toks ≡ (ok true, rest)
        → (sep : Token) × (tok ∷ toks ≡ sep ∷ rest) × IsMark "," sep
    on true same e = (tok, ap (λ x. tok ∷ x.1) e, same)
    on false same e = cc e

pub comma_lacks :
    (toks : List Token) {rest : List Token}
    → comma toks ≡ (ok false, rest)
    → (toks ≡ rest) × LacksComma rest
comma_lacks [] h = (ap (λ x. x.1) h, subst LacksComma (ap (λ x. x.1) h) tt)
comma_lacks (tok ∷ toks) {rest} h = on (str_eq tok.text ",") refl h
  where
    on :
        (b : Bool)
        → str_eq tok.text "," ≡ b
        → met b tok toks ≡ (ok false, rest)
        → (tok ∷ toks ≡ rest) × LacksComma rest
    on true same e = cc e
    on false same e = (ap (λ x. x.1) e, subst LacksComma (ap (λ x. x.1) e) same)

module _ (py : Builtins) where
  abbrev after_column : Bool → ℕ → String → Parser (List String)
  after_column more fuel name =
      if more then (selected py fuel >>= λ names. pure (name ∷ names)) else pure (name ∷ [])

  after_column-Columns :
      (more : Bool) (fuel : ℕ) {name ftype : String} {col : Token} (t1 t2 : List Token)
      {names : List String} {rest : List Token}
      → IsColumn name ftype col
      → comma t1 ≡ (ok more, t2)
      → after_column more fuel name t2 ≡ (ok names, rest)
      → ((ns : List String) (t : List Token) → selected py fuel t2 ≡ (ok ns, t) → Columns t2 ns t)
      → Columns (col ∷ t1) names rest
  after_column-Columns true fuel {name} {ftype} {col} t1 t2 {names} {rest} column said h ih =
      let (sep, at_sep, is_sep) = comma_there t1 said in
      let (ns, t3, got, made) = bind_runs (selected py fuel) (λ names. pure (name ∷ names)) t2 h in
      subst (λ t. Columns (col ∷ t) names rest) (sym at_sep)
        (at_result (Columns (col ∷ sep ∷ t2)) made (next_column column is_sep (ih ns t3 got)))
  after_column-Columns false fuel {name} {ftype} {col} t1 t2 {names} {rest} column said h ih =
      let (same, lacks) = comma_lacks t1 said in
      subst (λ t. Columns (col ∷ t) names rest) (sym same)
        (at_result (Columns (col ∷ t2)) h (last_column column lacks))

  pub selected-Columns :
      (fuel : ℕ) (toks : List Token) {names : List String} {rest : List Token}
      → selected py fuel toks ≡ (ok names, rest)
      → Columns toks names rest
  unfolding selected
  selected-Columns zero toks h = cc h
  selected-Columns (suc fuel) toks {names} {rest} h =
      let (known, t1, named, h1) = bind_runs (field py) _ toks h in
      let (more, t2, said, h2) = bind_runs comma _ t1 h1 in
      let (col, at_col, column) = field-IsColumn py toks named in
      subst (λ t. Columns t names rest) (sym at_col)
        (after_column-Columns more fuel t1 t2 column said h2 (λ ns t e. selected-Columns fuel t2 e))

  abbrev after_and : Bool → ℕ → Parser (List Condition)
  after_and more fuel =
      if more
      then (condition py (suc fuel) >>= λ cond.
          and_conditions py fuel >>= λ conds. pure (cond ∷ conds))
      else pure []

  after_and-Ands :
      (more : Bool) (fuel : ℕ) (toks t1 : List Token) {cs : List Condition} {rest : List Token}
      → keyword "AND" toks ≡ (ok more, t1)
      → after_and more fuel t1 ≡ (ok cs, rest)
      → ((t : List Token) (ds : List Condition) (t' : List Token)
          → and_conditions py fuel t ≡ (ok ds, t')
          → Ands py t ds t')
      → Ands py toks cs rest
  after_and-Ands true fuel toks t1 {cs} {rest} said h ih =
      let (word, at_word, is_and) = keyword_there "AND" toks said in
      let (c, t2, got, h1) = bind_runs (condition py (suc fuel)) _ t1 h in
      let (ds, t3, more, made) = bind_runs (and_conditions py fuel) _ t2 h1 in
      subst (λ t. Ands py t cs rest) (sym at_word)
        (at_result (Ands py (word ∷ t1)) made
          (next_and is_and (condition-IsCondition py (suc fuel) t1 got) (ih t2 ds t3 more)))
  after_and-Ands false fuel toks t1 {cs} {rest} said h ih =
      let (same, lacks) = keyword-Lacks "AND" toks said in
      at_result (Ands py toks) h (subst (Ands py toks []) same (no_and lacks))

  pub and_conditions-Ands :
      (fuel : ℕ) (toks : List Token) {cs : List Condition} {rest : List Token}
      → and_conditions py fuel toks ≡ (ok cs, rest)
      → Ands py toks cs rest
  unfolding and_conditions
  and_conditions-Ands zero toks h = cc h
  and_conditions-Ands (suc fuel) toks h =
      let (more, t1, said, h1) = bind_runs (keyword "AND") _ toks h in
      after_and-Ands more fuel toks t1 said h1 (λ t ds t' e. and_conditions-Ands fuel t e)
