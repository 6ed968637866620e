-- ===== src/FakeSalesforce/Soql/Parse/Clauses.antt =====
-- The keys of ORDER BY that fake_salesforce/soql.py's `parse` reads, and the keywords that it expects, are
-- those of the grammar.
use mathlib.Core.Path.{subst}
use salesforce_erp_sync.Common.{
  ℕ, zero, suc, String, ◌≡◌, refl, sym, ap, ◌∙◌, Bool, true, false, Option, List, [], ◌∷◌,
  if◌then◌else◌,
}
use salesforce_erp_sync.Outcome.{Exn, ok}
use salesforce_erp_sync.Exec.{pure, raise, ◌>>=◌}
use salesforce_erp_sync.Exec.Runs.{bind_runs}
use salesforce_erp_sync.FakeSalesforce.Soql.{OrderBy, Builtins}
use salesforce_erp_sync.FakeSalesforce.Soql.Tokens.{Token}
use salesforce_erp_sync.FakeSalesforce.Soql.Grammar.{
  IsWord, Lacks, IsColumn, Direction, descends, ascends, unsaid, key, Keys, last_key, next_key,
}
use salesforce_erp_sync.FakeSalesforce.Soql.Parser.{Parser, peek, keyword, expect_keyword, field}
use salesforce_erp_sync.FakeSalesforce.Soql.Parser.Sound.{
  keyword_there, keyword-Lacks, field-IsColumn,
}
use salesforce_erp_sync.FakeSalesforce.Soql.Parser.Conditions.{at_result}
use salesforce_erp_sync.FakeSalesforce.Soql.Parse.{comma, direction, order_keys}
use salesforce_erp_sync.FakeSalesforce.Soql.Parse.Lists.{comma_there, comma_lacks}

ascending-Direction :
    (asc : Bool) (toks rest : List Token)
    → Lacks "DESC" toks
    → keyword "ASC" toks ≡ (ok asc, rest)
    → Direction toks false rest
ascending-Direction true toks rest lacks said =
    let (word, at_word, is_asc) = keyword_there "ASC" toks said in
    subst (λ t. Direction t false rest) (sym at_word)
      (ascends (subst (Lacks "DESC") at_word lacks) is_asc)
ascending-Direction false toks rest lacks said =
    let (same, no_asc) = keyword-Lacks "ASC" toks said in
    subst (Direction toks false) same (unsaid lacks no_asc)

abbrev after_desc : Bool → Parser Bool
after_desc descending =
    if descending then pure true else (keyword "ASC" >>= λ ascending. pure false)

after_desc-Direction :
    (descending : Bool) (toks t1 : List Token) {b : Bool} {rest : List Token}
    → keyword "DESC" toks ≡ (ok descending, t1)
    → after_desc descending t1 ≡ (ok b, rest)
    → Direction toks b rest
after_desc-Direction true toks t1 {b} {rest} said h =
    let (word, at_word, is_desc) = keyword_there "DESC" toks said in
    subst (λ t. Direction t b rest) (sym at_word)
      (at_result (Direction (word ∷ t1)) h (descends is_desc))
after_desc-Direction false toks t1 {b} {rest} said h =
    let (same, lacks) = keyword-Lacks "DESC" toks said in
    let (asc, t2, said_asc, made) = bind_runs (keyword "ASC") (λ ascending. pure false) t1 h in
    subst (λ t. Direction t b rest) (sym same)
      (at_result (Direction t1) made
        (ascending-Direction asc t1 t2 (subst (Lacks "DESC") same lacks) said_asc))

direction-Direction :
    (toks : List Token) {b : Bool} {rest : List Token}
    → direction toks ≡ (ok b, rest)
    → Direction toks b rest
unfolding direction
direction-Direction toks h =
    let (descending, t1, said, h1) = bind_runs (keyword "DESC") after_desc toks h in
    after_desc-Direction descending toks t1 said h1

module _ (py : Builtins) where
  abbrev after_key : Bool → ℕ → OrderBy → Parser (List OrderBy)
  after_key more fuel k =
      if more then (order_keys py fuel >>= λ keys. pure (k ∷ keys)) else pure (k ∷ [])

  after_key-Keys :
      (more : Bool) (fuel : ℕ) {name ftype : String} {col : Token} {b : Bool}
      (t1 t2 t3 : List Token) {keys : List OrderBy} {rest : List Token}
      → IsColumn name ftype col
      → Direction t1 b t2
      → comma t2 ≡ (ok more, t3)
      → after_key more fuel (key name b) t3 ≡ (ok keys, rest)
      → ((ks : List OrderBy) (t : List Token) → order_keys py fuel t3 ≡ (ok ks, t) → Keys t3 ks t)
      → Keys (col ∷ t1) keys rest
  after_key-Keys true fuel {name} {ftype} {col} {b} t1 t2 t3 {keys} {rest} column d said h ih =
      let (sep, at_sep, is_sep) = comma_there t2 said in
      let (ks, t4, got, made) =
        bind_runs (order_keys py fuel) (λ keys. pure (key name b ∷ keys)) t3 h in
      at_result (Keys (col ∷ t1)) made
        (next_key column (subst (Direction t1 b) at_sep d) is_sep (ih ks t4 got))
  after_key-Keys false fuel {name} {ftype} {col} {b} t1 t2 t3 {keys} {rest} column d said h ih =
      let (same, lacks) = comma_lacks t2 said in
      at_result (Keys (col ∷ t1)) h (last_key column (subst (Direction t1 b) same d) lacks)

  pub order_keys-Keys :
      (fuel : ℕ) (toks : List Token) {keys : List OrderBy} {rest : List Token}
      → order_keys py fuel toks ≡ (ok keys, rest)
      → Keys toks keys rest
  unfolding order_keys
  order_keys-Keys zero toks h = cc h
  order_keys-Keys (suc fuel) toks {keys} {rest} h =
      let (known, t1, named, h1) = bind_runs (field py) _ toks h in
      let (b, t2, directed, h2) = bind_runs direction _ t1 h1 in
      let (more, t3, said, h3) = bind_runs comma _ t2 h2 in
      let (col, at_col, column) = field-IsColumn py toks named in
      subst (λ t. Keys t keys rest) (sym at_col)
        (after_key-Keys more fuel t1 t2 t3 column (direction-Direction t1 directed) said h3
          (λ ks t e. order_keys-Keys fuel t3 e))

got_unit :
    (found : Bool) (e : Option Token → Exn) (toks : List Token) {rest : List Token}
    → (if found then pure tt else (peek >>= λ tok. raise (e tok))) toks ≡ (ok tt, rest)
    → (found ≡ true) × (toks ≡ rest)
got_unit true e toks h = (refl, ap (λ x. x.1) h)
got_unit false e toks h =
    let (tok, t1, peeked, more) = bind_runs peek (λ tok. raise (e tok)) toks h in cc more

pub expected :
    (word : String) (toks : List Token) {rest : List Token}
    → expect_keyword word toks ≡ (ok tt, rest)
    → (tok : Token) × (toks ≡ tok ∷ rest) × IsWord word tok
unfolding expect_keyword
expected word toks {rest} h =
    let (found, t1, said, h1) = bind_runs (keyword word) _ toks h in
    let (yes_, same) = got_unit found _ t1 h1 in
    let (tok, at_tok, is_word_) = keyword_there word toks (said ∙ ap (λ b. (ok b, t1)) yes_) in
    (tok, at_tok ∙ ap (λ t. tok ∷ t) same, is_word_)
