-- ===== src/FakeSalesforce/Reads.antt =====
-- fake_salesforce/store.py: the values that a query tests, and the rows that match.
use salesforce_erp_sync.Common.{
  String, Bool, true, false, ◌||◌, not, Option, none, some, List, [], ◌∷◌, contains, if◌then◌else◌,
  ltb_ℤ, eqb_ℤ, Dict, lookup, ◌<>◌, str_eq, str_ltb, starts_with, suffix,
}
use salesforce_erp_sync.Python.Decimal.{Number}
use salesforce_erp_sync.Outcome.{Outcome, ok, raised, other, ◌>>=◌}
use salesforce_erp_sync.FakeSalesforce.Soql.{
  Value, null, text, boolean, instant, date, texts, Condition, malformed, as_number, number_ltb,
  number_eqb,
}
use salesforce_erp_sync.FakeSalesforce.Store.{Record, Store, get_or_null, won_stage, closed_stages}

-- `==` of Python
unfoldable pub equal : Value → Value → Bool
equal null null = true
equal (text a) (text b) = str_eq a b
equal (instant a) (instant b) = eqb_ℤ a b
equal (date a) (date b) = eqb_ℤ a b
equal v w = numbers (as_number v) (as_number w)
  where
    numbers : Option Number → Option Number → Bool
    numbers (some x) (some y) = number_eqb x y
    numbers _ _ = false

-- `<` of Python; values of different types raise
unfoldable pub below : Value → Value → Outcome Bool
below (text a) (text b) = ok (str_ltb a b)
below (instant a) (instant b) = ok (ltb_ℤ a b)
below (date a) (date b) = ok (ltb_ℤ a b)
below v w = numbers (as_number v) (as_number w)
  where
    numbers : Option Number → Option Number → Outcome Bool
    numbers (some x) (some y) = number_ltb x y
    numbers _ _ = raised (other "TypeError" "not supported between instances")

abbrev is_null : Value → Bool
is_null null = true
is_null v = false

abbrev is_among : Value → Value → Bool
is_among (text a) (texts bs) = contains bs a
is_among v w = false

abbrev not_of : Outcome Bool → Outcome Bool
not_of r = r >>= λ b. ok (not b)

-- the four orderings of `_matches`
abbrev ordered : String → Value → Value → Outcome Bool
ordered op value target =
    if str_eq op ">="
    then not_of (below value target)
    else if str_eq op ">"
    then below target value
    else if str_eq op "<="
    then not_of (below target value)
    else if str_eq op "<"
    then below value target
    else raised (malformed ("unsupported operator " <> op))

-- `_matches`
unfoldable pub matches : Value → Condition → Outcome Bool
unfolding equal below
matches value cond =
    if str_eq cond.op "IN"
    then ok (is_among value cond.value)
    else if str_eq cond.op "="
    then ok (equal value cond.value)
    else if str_eq cond.op "!="
    then ok (not (equal value cond.value))
    else if is_null value || is_null cond.value
    then ok false
    else ordered cond.op value cond.value

abbrev pub text_or_empty : Value → String
text_or_empty (text s) = s
text_or_empty v = ""

-- `_field_value`
unfoldable pub field_value : Store → Record → String → Value
unfolding equal
field_value st opp name =
    if str_eq name "IsWon"
    then boolean (equal (get_or_null "StageName" opp) (text won_stage))
    else if str_eq name "IsClosed"
    then boolean (is_among (get_or_null "StageName" opp) (texts closed_stages))
    else if starts_with "Account." name
    then elim (lookup (text_or_empty (get_or_null "AccountId" opp)) st.accounts) [
      | none ↦ null
      | some account ↦ get_or_null (suffix 8 name) account
    ]
    else get_or_null name opp

-- `all(...)` over the conditions
unfoldable pub all_match : Store → Record → List Condition → Outcome Bool
unfolding matches field_value
all_match st opp [] = ok true
all_match st opp (c ∷ conds) =
    matches (field_value st opp c.field) c >>= λ b. if b then all_match st opp conds else ok false

abbrev pub keep_if : Bool → Record → List Record → List Record
keep_if b opp rows = if b then opp ∷ rows else rows

-- the rows of `run_query`
unfoldable pub matching : Store → List Condition → Dict Record → Outcome (List Record)
unfolding all_match
matching st conds [] = ok []
matching st conds ((_, opp) ∷ rest) =
    all_match st opp conds >>= λ b. matching st conds rest >>= λ rows. ok (keep_if b opp rows)
