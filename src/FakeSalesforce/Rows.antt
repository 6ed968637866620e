-- ===== src/FakeSalesforce/Rows.antt =====
-- fake_salesforce/store.py: the order of a query's rows, their JSON, and `run_query`.
pub mod Order
pub mod Sorted
pub mod Selection
use salesforce_erp_sync.Common.{
  ℕ, zero, suc, ◌-◌, ◌/◌, ◌%◌, String, Bool, true, false, ◌&&◌, ◌||◌, not, Option, none, some, List,
  [], ◌∷◌, ◌++◌, map, contains, if◌then◌else◌, ℤ, pos, negsuc, ltb_ℤ, eqb_ℤ, Dict, lookup, insert,
  or_default, is_some, ◌<>◌, take, str_eq, str_ltb, starts_with, suffix, padded,
}
use salesforce_erp_sync.Python.Decimal.{Number}
use salesforce_erp_sync.Python.Json.{Json, Items, Fields, end, field, get, set, items_of}
use salesforce_erp_sync.Outcome.{Exn, Outcome, ok, raised, other, ◌>>=◌}
use salesforce_erp_sync.FakeSalesforce.Soql.{
  Value, null, text, boolean, instant, date, number, texts, nested, Condition, OrderBy, Query,
  Builtins, malformed, as_number, number_ltb, number_eqb,
}
use salesforce_erp_sync.FakeSalesforce.Store.{Record, Store, get_or_null, won_stage, closed_stages}
use salesforce_erp_sync.FakeSalesforce.Reads.{
  equal, below, matches, field_value, matching, text_or_empty,
}

-- `<` of two keys of `_sort_key`: null is the least
unfoldable pub key_below : Value → Value → Outcome Bool
unfolding equal below
key_below null null = ok false
key_below null w = ok true
key_below v null = ok false
key_below v w = if equal v w then ok false else below v w

-- `x`, which came before `y`, has to move behind it
abbrev pub moves_behind : Store → OrderBy → Record → Record → Outcome Bool
moves_behind st key x y =
    let kx = field_value st x key.field in
    let ky = field_value st y key.field in
    if key.descending then key_below kx ky else key_below ky kx

module _ (behind : Record → Record → Outcome Bool) where
  unfoldable pub insert_row : Record → List Record → Outcome (List Record)
  insert_row x [] = ok (x ∷ [])
  insert_row x (y ∷ ys) =
      behind x y >>= λ b. if b then (insert_row x ys >>= λ zs. ok (y ∷ zs)) else ok (x ∷ y ∷ ys)

  -- `list.sort`, which is stable, with `reverse` too
  unfoldable pub sort_rows : List Record → Outcome (List Record)
  unfolding insert_row
  sort_rows [] = ok []
  sort_rows (x ∷ xs) = sort_rows xs >>= insert_row x

-- `_sorted`: from the last key to the first
unfoldable pub sorted_by : Store → List OrderBy → List Record → Outcome (List Record)
unfolding sort_rows key_below field_value
sorted_by st [] rows = ok rows
sorted_by st (key ∷ keys) rows = sorted_by st keys rows >>= sort_rows (moves_behind st key)

-- `rows[:limit]`
abbrev pub limited : Option ℕ → List Record → List Record
limited none rows = rows
limited (some n) rows = take n rows

-- the records that `run_query` projects
unfoldable pub selection : Store → Query → Outcome (List Record)
unfolding matching sorted_by
selection st q = matching st q.conditions st.opportunities >>= λ rows.
    sorted_by st q.order_by rows >>= λ ordered_rows. ok (limited q.limit ordered_rows)

abbrev pub microsecond : ℤ → ℕ
microsecond (pos n) = n % 1000000
microsecond (negsuc n) = 999999 - n % 1000000

-- `format_datetime`
unfoldable pub format_datetime : Builtins → ℤ → String
unfolding padded
format_datetime py t = py.strftime t <> padded 3 (microsecond t / 1000) <> "+0000"

-- `_to_json`
unfoldable pub to_json : Builtins → Value → Json
unfolding format_datetime
to_json py null = Json.null
to_json py (text s) = Json.text s
to_json py (boolean b) = Json.bool b
to_json py (instant t) = Json.text (format_datetime py t)
to_json py (date d) = Json.text (py.isoformat d)
to_json py (number x) = Json.number x
to_json py (texts ss) = Json.array (items_of (map Json.text ss))
to_json py (nested v) = v

abbrev id_text : Builtins → Value → String
id_text py (text s) = s
id_text py v = py.str_of_value v

-- the `attributes` of a record; a record without an Id is a KeyError
abbrev attributes : Builtins → String → String → Option Value → Outcome Json
attributes py api_version type none = raised (other "KeyError" "'Id'")
attributes py api_version type (some id) = ok (
    Json.object (
      field "type" (Json.text type) (
        field "url"
          (Json.text
            ("/services/data/" <> api_version <> "/sobjects/" <> type <> "/" <> id_text py id))
          end)))

-- the loop of `project`: a field of the account waits for the end
abbrev project_fields :
    Builtins → Store → Record → List String → Fields → List String → Fields × List String
project_fields py st opp [] out account_fields = (out, account_fields)
project_fields py st opp (name ∷ names) out account_fields =
    if starts_with "Account." name
    then project_fields py st opp names
        (if is_some (get out "Account") then out else set out "Account" Json.null)
        (account_fields ++ (suffix 8 name ∷ []))
    else project_fields py st opp names (set out name (to_json py (field_value st opp name)))
        account_fields

abbrev nest : Builtins → Record → List String → Fields → Fields
nest py account [] out = out
nest py account (name ∷ names) out =
    nest py account names (set out name (to_json py (get_or_null name account)))

abbrev with_account : Builtins → String → Option Record → List String → Fields → Outcome Fields
with_account py api_version account [] out = ok out
with_account py api_version none names out = ok out
with_account py api_version (some account) names out =
    attributes py api_version "Account" (lookup "Id" account) >>= λ attrs.
    ok (set out "Account" (Json.object (nest py account names (field "attributes" attrs end))))

-- `project`
unfoldable pub project : Builtins → Store → String → List String → Record → Outcome Fields
unfolding to_json field_value set get
project py st api_version fields opp =
    attributes py api_version "Opportunity" (lookup "Id" opp) >>= λ attrs.
    let (out, account_fields) = project_fields py st opp fields (field "attributes" attrs end) [] in
    with_account py api_version (lookup (text_or_empty (get_or_null "AccountId" opp)) st.accounts)
      account_fields out

unfoldable pub projected :
    Builtins → Store → String → List String → List Record → Outcome (List Fields)
unfolding project
projected py st api_version fields [] = ok []
projected py st api_version fields (opp ∷ rows) = project py st api_version fields opp >>= λ out.
    projected py st api_version fields rows >>= λ outs. ok (out ∷ outs)

-- `run_query`
unfoldable pub run_query : Builtins → Store → Query → String → Outcome (List Fields)
unfolding selection projected
run_query py st q api_version = selection st q >>= λ rows. projected py st api_version q.fields rows
