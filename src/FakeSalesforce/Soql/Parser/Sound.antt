-- ===== src/FakeSalesforce/Soql/Parser/Sound.antt =====
-- The steps of fake_salesforce/soql.py's `_Parser` read nothing but what the grammar has.
use mathlib.Core.Path.{subst}
use salesforce_erp_sync.Common.{
  String, ◌≡◌, refl, sym, ap, ◌∙◌, Bool, true, false, ◌||◌, Option, none, some, List, [], ◌∷◌,
  if◌then◌else◌, str_eq, eq_iff, lookup, lower, upper, inl, inr, ℤ, ◌⊎◌,
}
use salesforce_erp_sync.Python.Decimal.{Number}
use salesforce_erp_sync.Outcome.{Exn, Outcome, ok, raised}
use salesforce_erp_sync.Exec.{lift}
use salesforce_erp_sync.Exec.Runs.{if_runs}
use salesforce_erp_sync.FakeSalesforce.Soql.{
  Value, null, boolean, number, Builtins, opportunity_fields,
}
use salesforce_erp_sync.FakeSalesforce.Soql.Tokens.{Token}
use salesforce_erp_sync.FakeSalesforce.Soql.Grammar.{
  IsWord, Lacks, IsColumn, token, IsLiteral, nothing, a_time, a_date, truth, falsehood, an_amount,
  a_text,
}
use salesforce_erp_sync.FakeSalesforce.Soql.Parser.{
  next, is_word, known_field, decimal_or_raise, choose, made, keyword, field, literal_of,
}

abbrev met : Bool → Token → List Token → Outcome Bool × List Token
met b tok toks = if b then (ok true, toks) else (ok false, tok ∷ toks)

-- What a keyword that was or was not there says of the tokens.
pub keyword_there :
    (word : String) (toks : List Token) {rest : List Token}
    → keyword word toks ≡ (ok true, rest)
    → (tok : Token) × (toks ≡ tok ∷ rest) × IsWord word tok
unfolding keyword
keyword_there word [] h = cc h
keyword_there word (tok ∷ toks) {rest} h = on (is_word word tok) refl h
  where
    on :
        (b : Bool)
        → is_word word tok ≡ b
        → met b tok toks ≡ (ok true, rest)
        → (tok' : Token) × (tok ∷ toks ≡ tok' ∷ rest) × IsWord word tok'
    on true same e = (tok, ap (λ x. tok ∷ x.1) e, same)
    on false same e = cc e

pub keyword-Lacks :
    (word : String) (toks : List Token) {rest : List Token}
    → keyword word toks ≡ (ok false, rest)
    → (toks ≡ rest) × Lacks word toks
unfolding keyword
keyword-Lacks word [] h = (ap (λ x. x.1) h, tt)
keyword-Lacks word (tok ∷ toks) {rest} h = on (is_word word tok) refl h
  where
    on :
        (b : Bool)
        → is_word word tok ≡ b
        → met b tok toks ≡ (ok false, rest)
        → (tok ∷ toks ≡ rest) × Lacks word (tok ∷ toks)
    on true same e = cc e
    on false same e = (ap (λ x. x.1) e, same)

pub next_there :
    (toks : List Token) {tok : Token} {rest : List Token}
    → next toks ≡ (ok tok, rest)
    → toks ≡ tok ∷ rest
next_there [] h = cc h
next_there (tok ∷ toks) h = cc h

choose_ok :
    (c : Bool) (r r' : Outcome Value) {v : Value}
    → choose c r r' ≡ ok v
    → ((c ≡ true) × (r ≡ ok v)) ⊎ ((c ≡ false) × (r' ≡ ok v))
unfolding choose
choose_ok true r r' h = inl (refl, h)
choose_ok false r r' h = inr (refl, h)

-- A branch that raises where its test fails.
choose_raised :
    (c : Bool) (r : Outcome Value) (e : Exn) {v : Value}
    → choose c r (raised e) ≡ ok v
    → (c ≡ true) × (r ≡ ok v)
unfolding choose
choose_raised true r e h = (refl, h)
choose_raised false r e h = cc h

made_ok :
    (f : ℤ → Value) (r : Outcome ℤ) {v : Value} → made f r ≡ ok v → (z : ℤ) × (r ≡ ok z) × (f z ≡ v)
made_ok f (ok z) h = (z, refl, cc h)
made_ok f (raised e) h = cc h

decimal_ok :
    (o : Option Number) {v : Value}
    → decimal_or_raise o ≡ ok v
    → (x : Number) × (o ≡ some x) × (number x ≡ v)
decimal_ok none h = cc h
decimal_ok (some x) h = (x, refl, cc h)

is_ident_word :
    (tok : Token) (word : String) {b : Bool}
    → str_eq tok.kind "ident" ≡ true
    → str_eq (if str_eq tok.kind "ident" then upper tok.text else "") word ≡ b
    → str_eq (upper tok.text) word ≡ b
is_ident_word tok word ident h =
    ap (λ c. str_eq (if c then upper tok.text else "") word) (sym ident) ∙ h

-- The word of a token that is an identifier.
word_of :
    (b : Bool) (s word : String)
    → str_eq "" word ≡ false
    → str_eq (if b then s else "") word ≡ true
    → (b ≡ true) × (str_eq s word ≡ true)
word_of true s word h e = (refl, e)
word_of false s word h e = cc (h, e)

module _ (py : Builtins) where
  pub field-IsColumn :
      (toks : List Token) {known : String × String} {rest : List Token}
      → field py toks ≡ (ok known, rest)
      → (tok : Token) × (toks ≡ tok ∷ rest) × IsColumn known.0 known.1 tok
  unfolding field
  field-IsColumn [] h = cc h
  field-IsColumn (tok ∷ toks) {known} {rest} h =
      let (is_ident, e) = if_runs (str_eq tok.kind "ident") _ _ toks h in
      let (same, left) = looked (lookup (lower tok.text) opportunity_fields) e in
      (tok, ap (λ r. tok ∷ r) left, record { is_ident = is_ident; known = same })
    where
      looked :
          (o : Option (String × String))
          → lift (known_field tok.text o) toks ≡ (ok known, rest)
          → (o ≡ some known) × (toks ≡ rest)
      looked none e = cc e
      looked (some x) e = (cc e, cc e)

  -- a literal under the names that the tests found
  moved :
      (ft ftype kind : String) (tok : Token) {v w : Value}
      → str_eq ftype ft ≡ true
      → str_eq tok.kind kind ≡ true
      → v ≡ w
      → IsLiteral py ft (token kind tok.text) v
      → IsLiteral py ftype tok w
  moved ft ftype kind tok {v} {w} same_type same_kind same h =
      let at_kind : token kind tok.text ≡ tok =
        ap (λ k. token k tok.text) (sym ((eq_iff tok.kind kind).0 same_kind)) in
      subst (λ f. IsLiteral py f tok w) (sym ((eq_iff ftype ft).0 same_type))
        (subst (λ t. IsLiteral py ft t w) at_kind
          (subst (λ x. IsLiteral py ft (token kind tok.text) x) same h))

  value_eq : {v w : Value} → ok v ≡ ok w → v ≡ w
  value_eq h = cc

  null-IsLiteral :
      (ftype : String) (tok : Token) {v : Value}
      → str_eq (if str_eq tok.kind "ident" then upper tok.text else "") "NULL" ≡ true
      → ok null ≡ ok v
      → IsLiteral py ftype tok v
  null-IsLiteral ftype tok h e =
      let (ident, word) = word_of (str_eq tok.kind "ident") (upper tok.text) "NULL" refl h in
      moved ftype ftype "ident" tok ((eq_iff ftype ftype).1 refl) ident (value_eq e) (nothing word)

  truth-IsLiteral :
      (ftype : String) (tok : Token) (b : Bool) {v : Value}
      → str_eq (if str_eq tok.kind "ident" then upper tok.text else "") "NULL" ≡ false
      → str_eq ftype "boolean" ≡ true
      → str_eq (if str_eq tok.kind "ident" then upper tok.text else "") "TRUE" ≡ b
      → (b || str_eq (if str_eq tok.kind "ident" then upper tok.text else "") "FALSE") ≡ true
      → ok (boolean b) ≡ ok v
      → IsLiteral py ftype tok v
  truth-IsLiteral ftype tok true no_null ft h g e =
      let (ident, word) = word_of (str_eq tok.kind "ident") (upper tok.text) "TRUE" refl h in
      moved "boolean" ftype "ident" tok ft ident (value_eq e)
        (truth (is_ident_word tok "NULL" ident no_null) word)
  truth-IsLiteral ftype tok false no_null ft h g e =
      let (ident, word) = word_of (str_eq tok.kind "ident") (upper tok.text) "FALSE" refl g in
      moved "boolean" ftype "ident" tok ft ident (value_eq e)
        (falsehood (is_ident_word tok "NULL" ident no_null) (is_ident_word tok "TRUE" ident h) word)

  pub literal_of-IsLiteral :
      (name ftype : String) (tok : Token) {v : Value}
      → literal_of py name ftype tok ≡ ok v
      → IsLiteral py ftype tok v
  unfolding literal_of
  literal_of-IsLiteral name ftype tok h = elim (choose_ok _ (ok null) _ h) [
    | inl (is_null, e) ↦ null-IsLiteral ftype tok is_null e
    | inr (no_null, h1) ↦ elim (choose_ok (str_eq ftype "datetime") _ _ h1) [
      | inl (ft, e) ↦
          let (kind, r) = choose_raised (str_eq tok.kind "datetime") _ _ e in
          let (t, got, same) = made_ok _ _ r in
          moved "datetime" ftype "datetime" tok ft kind same (a_time got)
      | inr (no_time, h2) ↦ elim (choose_ok (str_eq ftype "date") _ _ h2) [
        | inl (ft, e) ↦
            let (kind, r) = choose_raised (str_eq tok.kind "date") _ _ e in
            let (d, got, same) = made_ok _ _ r in
            moved "date" ftype "date" tok ft kind same (a_date got)
        | inr (no_date, h3) ↦ elim (choose_ok (str_eq ftype "boolean") _ _ h3) [
          | inl (ft, e) ↦
              let (either_word, r) = choose_raised _ _ _ e in
              truth-IsLiteral ftype tok _ no_null ft refl either_word r
          | inr (no_truth, h4) ↦ elim (choose_ok (str_eq ftype "currency") _ _ h4) [
            | inl (ft, e) ↦
                let (kind, r) = choose_raised (str_eq tok.kind "number") _ _ e in
                let (x, got, same) = decimal_ok _ r in
                moved "currency" ftype "number" tok ft kind same (an_amount got)
            | inr (no_amount, h5) ↦
                let (kind, r) = choose_raised (str_eq tok.kind "string") _ _ h5 in
                moved ftype ftype "string" tok ((eq_iff ftype ftype).1 refl) kind (value_eq r) (
                  a_text (record {
                    no_time = no_time;
                    no_date = no_date;
                    no_truth = no_truth;
                    no_amount = no_amount;
                  }))
          ]
        ]
      ]
    ]
  ]
