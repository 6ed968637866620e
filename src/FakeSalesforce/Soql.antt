-- ===== src/FakeSalesforce/Soql.antt =====
-- fake_salesforce/soql.py: the parts of a query, and the literals of its times.
pub mod Scan
pub mod Tokens
pub mod Parser
pub mod Parse
pub mod Grammar
use salesforce_erp_sync.Common.{
  ℕ, ◌-◌, ◌==◌, String, Bool, false, ◌&&◌, ◌||◌, not, Option, none, some, List, [], ◌∷◌, length,
  if◌then◌else◌, ℤ, codes, split_on, join, prefix, suffix, ◌<>◌, Dict,
}
use salesforce_erp_sync.Python.Decimal.{Number, finite, infinite, nan, of_int, decimal_ltb}
use salesforce_erp_sync.Python.Json.{Json}
use salesforce_erp_sync.Python.Regex.{at_end, digits_then}
use salesforce_erp_sync.Outcome.{Exn, Outcome, ok, raised, other}
use salesforce_erp_sync.Common.{pos}

-- `Literal`, and the values of a record: instants in microseconds, dates in days, and JSON arrays and
-- objects, which no query compares
pub data Value : Type 0 where
  null : Value
  text : String → Value
  boolean : Bool → Value
  instant date : ℤ → Value
  number : Number → Value
  texts : List String → Value
  nested : Json → Value

-- API names and field types, by lower-case names
abbrev pub opportunity_fields : Dict (String × String)
opportunity_fields =
    ("id", ("Id", "id"))
    ∷ ("name", ("Name", "string"))
    ∷ ("accountid", ("AccountId", "id"))
    ∷ ("amount", ("Amount", "currency"))
    ∷ ("closedate", ("CloseDate", "date"))
    ∷ ("stagename", ("StageName", "picklist"))
    ∷ ("iswon", ("IsWon", "boolean"))
    ∷ ("isclosed", ("IsClosed", "boolean"))
    ∷ ("systemmodstamp", ("SystemModstamp", "datetime"))
    ∷ ("lastmodifieddate", ("LastModifiedDate", "datetime"))
    ∷ ("createddate", ("CreatedDate", "datetime"))
    ∷ ("account.id", ("Account.Id", "id"))
    ∷ ("account.name", ("Account.Name", "string"))
    ∷ []

pub record Condition : Type 0 where
  pub field : String
  pub op : String
  pub value : Value

pub record OrderBy : Type 0 where
  pub field : String
  pub descending : Bool

pub record Query : Type 0 where
  pub fields : List String
  pub sobject : String
  pub conditions : List Condition
  pub order_by : List OrderBy
  pub limit : Option ℕ

-- Python's `datetime.fromisoformat` as an instant, `date.fromisoformat`, `str` of a value, `repr` of a
-- text, an instant by `strftime("%Y-%m-%dT%H:%M:%S.")`, and a date by `isoformat`.
pub record Builtins : Type 0 where
  pub fromisoformat : String → Outcome ℤ
  pub date_fromisoformat : String → Outcome ℤ
  pub str_of_value : Value → String
  pub repr : String → String
  pub strftime : ℤ → String
  pub isoformat : ℤ → String

-- the loops of the model go on when their fuel is spent
abbrev pub still_running : Exn
still_running = other "StillRunning" "more steps than the fuel"

abbrev pub malformed : String → Exn
malformed message = Exn.soql_error "MALFORMED_QUERY" message

-- `[+-]\d{4}$` at the start of the rest
unfoldable pub offset_here : List ℕ → Bool
offset_here [] = false
offset_here (c ∷ cs) = (c == b'+' || c == b'-') && digits_then 4 at_end cs

-- `re.search` of it
unfoldable pub offset_found : List ℕ → Bool
unfolding offset_here
offset_found [] = false
offset_found (c ∷ cs) = offset_here (c ∷ cs) || offset_found cs

-- `parse_datetime_literal`, for `datetime.fromisoformat` as an instant
unfoldable pub parse_datetime_literal : (String → Outcome ℤ) → String → Outcome ℤ
unfolding offset_found
parse_datetime_literal fromisoformat s =
    let t = join "+00:00" (split_on b'Z' s) in
    let k = length (codes t) - 2 in
    fromisoformat (if offset_found (codes t) then prefix k t <> ":" <> suffix k t else t)

abbrev number_of_bool : Bool → Number
number_of_bool b = finite (of_int (if b then pos 1 else pos 0))

-- the values that compare as numbers, a bool among them
abbrev pub as_number : Value → Option Number
as_number (number x) = some x
as_number (boolean b) = some (number_of_bool b)
as_number v = none

unfoldable pub number_ltb : Number → Number → Outcome Bool
number_ltb nan y = raised (other "InvalidOperation" "comparison involving NaN")
number_ltb x nan = raised (other "InvalidOperation" "comparison involving NaN")
number_ltb (finite a) (finite b) = ok (decimal_ltb a b)
number_ltb (finite a) (infinite negative) = ok (not negative)
number_ltb (infinite negative) (finite b) = ok negative
number_ltb (infinite a) (infinite b) = ok (a && not b)

unfoldable pub number_eqb : Number → Number → Bool
number_eqb (finite a) (finite b) = not (decimal_ltb a b) && not (decimal_ltb b a)
number_eqb (infinite a) (infinite b) = if a then b else not b
number_eqb _ _ = false
