-- ===== src/Worker/Mapping.antt =====
-- worker/mapping.py: validate an event and map Salesforce fields to ERP fields.
pub mod Refusals
pub mod Valid
use salesforce_erp_sync.Common.{
  String, Bool, true, false, ◌||◌, not, Option, none, some, str_eq, if◌then◌else◌, ℤ, pos, negsuc,
  ltb_ℤ, codes,
}
use salesforce_erp_sync.Python.Decimal.{
  Decimal, Number, finite, infinite, nan, of_int, is_negative, decimal_of_text,
}
use salesforce_erp_sync.Python.Json.{
  Json, null, bool, int, number, text, array, object, Items, Fields, get_or_null, truthy,
}
use salesforce_erp_sync.Python.Regex.{date_match}
use salesforce_erp_sync.Outcome.{Exn, Outcome, ok, raised, permanent_error, ◌>>=◌, ◌>>◌}
use salesforce_erp_sync.Erp.Writer.{Order}

abbrev pub schema : String
schema = "relay.opportunity.v1"

-- The result of `json.loads(body, parse_float=Decimal)`: a value, the text of a JSONDecodeError, or
-- another exception: the RecursionError of deep nesting, the InvalidOperation of a fraction that Decimal
-- refuses, the ValueError of an int with too many digits.
pub data Loaded : Type 0 where
  value : Json → Loaded
  decode_error : String → Loaded
  other_error : Exn → Loaded

-- Python's own JSON reader, its `str` of a value that is no text, and its `repr` of an exception.
pub record Builtins : Type 0 where
  pub loads : String → Loaded
  pub str_of_value : Json → String
  pub repr_of_exn : Exn → String

abbrev pub refuse {ℓ} : {A : Type ℓ} → String → String → Outcome A
refuse reason detail = raised (permanent_error reason detail)

-- `str(value)`
unfoldable pub str_of : Builtins → Json → String
str_of py (text s) = s
str_of py v = py.str_of_value v

unfoldable pub body_of : Loaded → Outcome Fields
body_of (decode_error message) = refuse "malformed_json" message
body_of (other_error e) = raised e
body_of (value (object fields)) = ok fields
body_of (value v) = refuse "malformed_json" "body is not a JSON object"

unfoldable pub parse_body : Builtins → String → Outcome Fields
unfolding body_of
parse_body py body = body_of (py.loads body)

-- `_required_str`
unfoldable pub required_text : Json → String → Outcome String
required_text (text s) name = if str_eq s "" then refuse "missing_field" name else ok s
required_text v name = refuse "missing_field" name

unfoldable pub required_str : Fields → String → Outcome String
unfolding required_text
required_str fields name = required_text (get_or_null fields name) name

-- `Decimal(str(value))`; `none` is an InvalidOperation
unfoldable pub decimal_of : Json → Option Number
decimal_of (int z) = some (finite (of_int z))
decimal_of (number d) = some d
decimal_of (text s) = decimal_of_text s
decimal_of v = none

unfoldable pub checked_amount : Option Number → Outcome Decimal
checked_amount (some (finite d)) = if is_negative d then refuse "invalid_field" "amount" else ok d
checked_amount v = refuse "invalid_field" "amount"

-- `_amount`
unfoldable pub amount : Json → Outcome Decimal
unfolding decimal_of checked_amount
amount (bool b) = refuse "invalid_field" "amount"
amount v = checked_amount (decimal_of v)

-- The tests of `to_order`, each on the value that it reads.
unfoldable pub check_schema : Builtins → Json → Outcome (Unit {0})
unfolding str_of
check_schema py (text s) = if str_eq s schema then ok tt else refuse "unknown_schema" s
check_schema py v = refuse "unknown_schema" (str_of py v)

unfoldable pub opportunity_of : Json → Outcome Fields
opportunity_of (object opp) = ok opp
opportunity_of v = refuse "missing_field" "opportunity"

unfoldable pub check_version : Json → Outcome ℤ
check_version (int z) = if ltb_ℤ (pos 0) z then ok z else refuse "invalid_field" "version"
check_version v = refuse "invalid_field" "version"

unfoldable pub check_account : Json → Outcome (Unit {0})
check_account null = refuse "missing_account" "the deal has no Account"
check_account (text s) =
    if str_eq s "" then refuse "missing_account" "the deal has no Account" else ok tt
check_account v = ok tt

unfoldable pub check_amount : Json → Outcome (Unit {0})
check_amount null = refuse "missing_amount" "the deal has no Amount"
check_amount v = ok tt

unfoldable pub check_date : String → Outcome (Unit {0})
check_date close_date =
    if date_match (codes close_date) then ok tt else refuse "invalid_field" "close_date"

-- `str(opp.get("name") or "")`
unfoldable pub name_of : Builtins → Json → String
unfolding str_of
name_of py v = if truthy v then str_of py v else ""

unfoldable pub to_order : Builtins → Fields → Outcome Order
unfolding required_str amount check_schema opportunity_of check_version check_account check_amount
    check_date name_of
to_order py event = do
  check_schema py (get_or_null event "schema")
  opp ← opportunity_of (get_or_null event "opportunity")
  order_id ← required_str opp "id"
  event_key ← required_str event "event_key"
  version ← check_version (get_or_null event "version")
  check_account (get_or_null opp "account_id")
  check_amount (get_or_null opp "amount")
  total ← amount (get_or_null opp "amount")
  close_date ← required_str opp "close_date"
  check_date close_date
  customer_id ← required_str opp "account_id"
  customer_name ← required_str opp "account_name"
  let opportunity_name = name_of py (get_or_null opp "name")
  source_modstamp ← required_str opp "system_modstamp"
  ok (record {
    order_id = order_id;
    customer_id = customer_id;
    customer_name = customer_name;
    opportunity_name = opportunity_name;
    total = total;
    order_date = close_date;
    version = version;
    source_modstamp = source_modstamp;
    event_key = event_key;
  })
