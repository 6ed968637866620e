-- ===== src/FakeSalesforce/Soql/Parser/Conditions.antt =====
-- The conditions that fake_salesforce/soql.py's `_Parser` reads are those of the grammar.
use mathlib.Core.Path.{subst}
use salesforce_erp_sync.Common.{
  ℕ, zero, suc, String, ◌≡◌, refl, sym, ap, ◌∙◌, Bool, true, false, List, [], ◌∷◌, if◌then◌else◌,
  str_eq, eq_iff, ◌<>◌,
}
use salesforce_erp_sync.Outcome.{Outcome, ok}
use salesforce_erp_sync.Exec.{pure, raise, lift, ◌>>=◌}
use salesforce_erp_sync.Exec.Runs.{bind_runs, if_runs}
use salesforce_erp_sync.FakeSalesforce.Soql.{Value, text, texts, Condition, Builtins, malformed}
use salesforce_erp_sync.FakeSalesforce.Soql.Tokens.{Token}
use salesforce_erp_sync.FakeSalesforce.Soql.Grammar.{
  IsColumn, token, IsLiteral, Values, last_value, next_value, IsCondition, compares, among,
}
use salesforce_erp_sync.FakeSalesforce.Soql.Parser.{
  Parser, next, keyword, field, literal_of, literal, text_only, in_values, op_name, condition,
}
use salesforce_erp_sync.FakeSalesforce.Soql.Parser.Sound.{
  keyword_there, keyword-Lacks, next_there, field-IsColumn, literal_of-IsLiteral,
}

pub lift_runs :
    {A : Type 0} (r : Outcome A) (toks : List Token) {a : A} {rest : List Token}
    → lift r toks ≡ (ok a, rest)
    → (r ≡ ok a) × (toks ≡ rest)
lift_runs r toks h = (ap (λ x. x.0) h, ap (λ x. x.1) h)

-- A result moved along the end of a run.
pub at_result :
    {A : Type 0} {a b : A} {s t : List Token} (P : A → List Token → Type 0)
    → pure {S = List Token} a s ≡ (ok b, t)
    → P a s
    → P b t
at_result {a = a} {b = b} {s = s} {t = t} P h p =
    let same : a ≡ b = ok_eq (ap (λ x. x.0) h) in
    subst (P b) (ap (λ x. x.1) h) (subst (λ x. P x s) same p)
  where
    ok_eq : ok a ≡ ok b → a ≡ b
    ok_eq e = cc e

text_only_ok : (v : Value) {s : String} → text_only v ≡ ok s → v ≡ text s
text_only_ok (text s) h = cc h
text_only_ok v h = cc h

module _ (py : Builtins) where
  literal_there :
      (name ftype : String) (toks : List Token) {v : Value} {rest : List Token}
      → literal py name ftype toks ≡ (ok v, rest)
      → (tok : Token) × (toks ≡ tok ∷ rest) × IsLiteral py ftype tok v
  unfolding literal
  literal_there name ftype toks h =
      let (tok, mid, first, more) =
        bind_runs next (λ tok. lift (literal_of py name ftype tok)) toks h in
      let (read, same) = lift_runs (literal_of py name ftype tok) mid more in
      (
        tok,
        next_there toks first ∙ ap (λ t. tok ∷ t) same,
        literal_of-IsLiteral py name ftype tok read,
      )

  -- what follows a value of an IN list, by whether the list is closed
  abbrev after_value : Bool → ℕ → String → String → String → Token → Parser (List String)
  after_value closed fuel name ftype value sep =
      if closed
      then pure (value ∷ [])
      else if str_eq sep.text ","
      then (in_values py fuel name ftype >>= λ values. pure (value ∷ values))
      else raise (malformed "expected , or ) in IN list")

  after_value-Values :
      (fuel : ℕ) (name ftype value : String) (tok sep : Token) (b : Bool) (toks : List Token)
      {vs : List String} {rest : List Token}
      → IsLiteral py ftype tok (text value)
      → str_eq sep.text ")" ≡ b
      → after_value b fuel name ftype value sep toks ≡ (ok vs, rest)
      → ((ws : List String) (t : List Token)
          → in_values py fuel name ftype toks ≡ (ok ws, t)
          → Values py ftype toks ws t)
      → Values py ftype (tok ∷ sep ∷ toks) vs rest
  after_value-Values fuel name ftype value tok sep true toks lit same h ih =
      at_result (Values py ftype (tok ∷ sep ∷ toks)) h (last_value lit same)
  after_value-Values fuel name ftype value tok sep false toks lit same h ih =
      let (comma, more) = if_runs (str_eq sep.text ",") _ _ toks h in
      let (ws, t, got, made) =
        bind_runs (in_values py fuel name ftype) (λ values. pure (value ∷ values)) toks more in
      at_result (Values py ftype (tok ∷ sep ∷ toks)) made (next_value lit comma (ih ws t got))

  in_values-Values :
      (fuel : ℕ) (name ftype : String) (toks : List Token) {vs : List String} {rest : List Token}
      → in_values py fuel name ftype toks ≡ (ok vs, rest)
      → Values py ftype toks vs rest
  unfolding in_values
  in_values-Values zero name ftype toks h = cc h
  in_values-Values (suc fuel) name ftype toks {vs} {rest} h =
      let (v, t1, read, h1) = bind_runs (literal py name ftype) _ toks h in
      let (value, t2, only, h2) = bind_runs (lift (text_only v)) _ t1 h1 in
      let (sep, t3, parted, h3) = bind_runs next _ t2 h2 in
      let (tok, at, lit) = literal_there name ftype toks read in
      let (is_text, same) = lift_runs (text_only v) t1 only in
      let lit' = subst (IsLiteral py ftype tok) (text_only_ok v is_text) lit in
      let whole : tok ∷ sep ∷ t3 ≡ toks =
        sym (at ∙ ap (λ t. tok ∷ t) (same ∙ next_there t2 parted)) in
      subst (λ t. Values py ftype t vs rest) whole
        (after_value-Values fuel name ftype value tok sep (str_eq sep.text ")") t3 lit' refl h3
          (λ ws t e. in_values-Values fuel name ftype t3 e))

  -- the rest of a condition on a field, by whether IN follows
  abbrev after_field : Bool → ℕ → String → String → Parser Condition
  after_field within fuel name ftype =
      if within
      then (next >>= λ paren.
          if str_eq paren.text "("
          then (in_values py fuel name ftype >>= λ values.
              pure (record { field = name; op = "IN"; value = texts values }))
          else raise (malformed "expected ( after IN"))
      else (next >>= λ op_tok.
          if str_eq op_tok.kind "op"
          then (literal py name ftype >>= λ target.
              pure (record { field = name; op = op_name op_tok.text; value = target }))
          else raise (malformed ("expected an operator, got " <> py.repr op_tok.text)))

  after_field-IsCondition :
      (within : Bool) (fuel : ℕ) {name ftype : String} {col : Token} (t1 t2 : List Token)
      {c : Condition} {rest : List Token}
      → IsColumn name ftype col
      → keyword "IN" t1 ≡ (ok within, t2)
      → after_field within fuel name ftype t2 ≡ (ok c, rest)
      → IsCondition py (col ∷ t1) c rest
  after_field-IsCondition true fuel {name} {ftype} {col} t1 t2 {c} {rest} column said h =
      let (word, at_word, is_in) = keyword_there "IN" t1 said in
      let (paren, t3, opened, h1) = bind_runs next _ t2 h in
      let (is_paren, h2) = if_runs (str_eq paren.text "(") _ _ t3 h1 in
      let (vs, t4, listed, made) = bind_runs (in_values py fuel name ftype) _ t3 h2 in
      let whole : col ∷ word ∷ paren ∷ t3 ≡ col ∷ t1 =
        ap (λ t. col ∷ t) (sym (at_word ∙ ap (λ t. word ∷ t) (next_there t2 opened))) in
      subst (λ t. IsCondition py t c rest) whole
        (at_result (IsCondition py (col ∷ word ∷ paren ∷ t3)) made
          (among column is_in is_paren (in_values-Values fuel name ftype t3 listed)))
  after_field-IsCondition false fuel {name} {ftype} {col} t1 t2 {c} {rest} column said h =
      let (op_tok, t3, taken, h1) = bind_runs next _ t2 h in
      let (is_op, h2) = if_runs (str_eq op_tok.kind "op") _ _ t3 h1 in
      let (v, t4, read, made) = bind_runs (literal py name ftype) _ t3 h2 in
      let (lit, at_lit, said_lit) = literal_there name ftype t3 read in
      let op_is : token "op" op_tok.text ≡ op_tok =
        ap (λ k. token k op_tok.text) (sym ((eq_iff op_tok.kind "op").0 is_op)) in
      let same_op : token "op" op_tok.text ∷ lit ∷ t4 ≡ op_tok ∷ lit ∷ t4 =
        ap (λ t. t ∷ lit ∷ t4) op_is in
      let whole : col ∷ token "op" op_tok.text ∷ lit ∷ t4 ≡ col ∷ t1 =
        ap (λ t. col ∷ t)
          (same_op
            ∙ sym (
                (keyword-Lacks "IN" t1 said).0
                ∙ next_there t2 taken
                ∙ ap (λ t. op_tok ∷ t) at_lit)) in
      subst (λ t. IsCondition py t c rest) whole
        (at_result (IsCondition py (col ∷ token "op" op_tok.text ∷ lit ∷ t4)) made
          (compares column said_lit))

  pub condition-IsCondition :
      (fuel : ℕ) (toks : List Token) {c : Condition} {rest : List Token}
      → condition py fuel toks ≡ (ok c, rest)
      → IsCondition py toks c rest
  unfolding condition
  condition-IsCondition fuel toks {c} {rest} h =
      let (known, t1, named, h1) = bind_runs (field py) _ toks h in
      let (within, t2, said, h2) = bind_runs (keyword "IN") _ t1 h1 in
      let (col, at_col, column) = field-IsColumn py toks named in
      subst (λ t. IsCondition py t c rest) (sym at_col)
        (after_field-IsCondition within fuel t1 t2 column said h2)
