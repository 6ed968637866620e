-- ===== src/Reconciler/Events.antt =====
-- reconciler/events.py: an event of version 1 from a row of a Salesforce query.
pub mod Repair
use salesforce_erp_sync.Common.{
  ℕ, ◌-◌, ◌/◌, ◌==◌, String, Bool, false, ◌&&◌, ◌||◌, not, Option, none, some, leb, if◌then◌else◌,
  ℤ, codes, split_on, join, prefix, suffix, ◌<>◌, length, get_elem?, padded,
}
use salesforce_erp_sync.Python.Json.{
  Json, null, int, text, object, Fields, end, field, get, get_or_null, truthy,
}
use salesforce_erp_sync.Outcome.{Outcome, ok, raised, other, ◌>>=◌}

-- Python's datetime: instants are microseconds since 1970 in UTC. `datetime.fromisoformat(s)` as an
-- instant, `strftime("%Y-%m-%dT%H:%M:%S")`, `.microsecond`, and `int(x.timestamp() * 1000)`.
pub record Datetimes : Type 0 where
  pub fromisoformat : String → Outcome ℤ
  pub date_and_time : ℤ → String
  pub microsecond : ℤ → ℕ
  pub timestamp_ms : ℤ → ℤ

abbrev pub text_value : String → Json → Outcome String
text_value name (text s) = ok s
text_value name v = raised (other "TypeError" name)

abbrev pub text_found : String → Option Json → Outcome String
text_found name none = raised (other "KeyError" name)
text_found name (some v) = text_value name v

-- `row[name]` of a field that Salesforce holds as a text
unfoldable pub text_at : Fields → String → Outcome String
text_at row name = text_found name (get row name)

-- `row[name]` needs a dict: a list, a text, a number or None does not take a text as its index.
unfoldable pub dict_of : Json → Outcome Fields
dict_of (object row) = ok row
dict_of v = raised (other "TypeError" "indices must be integers")

-- the code point `k` places from the end
abbrev from_end : String → ℕ → Option ℕ
from_end s k = if leb k (length (codes s)) then get_elem? (codes s) (length (codes s) - k) else none

abbrev is_sign : Option ℕ → Bool
is_sign none = false
is_sign (some c) = c == b'+' || c == b'-'

abbrev is_colon : Option ℕ → Bool
is_colon none = false
is_colon (some c) = c == b':'

-- the text that `parse_modstamp` reads: `Z` is `+00:00`, and an offset has its colon
unfoldable pub with_offset : String → String
with_offset value =
    let t = join "+00:00" (split_on b'Z' value) in
    let k = length (codes t) - 2 in
    if leb 5 (length (codes t)) && is_sign (from_end t 5) && not (is_colon (from_end t 3))
    then prefix k t <> ":" <> suffix k t
    else t

unfoldable pub parse_modstamp : Datetimes → String → Outcome ℤ
unfolding with_offset
parse_modstamp dt value = dt.fromisoformat (with_offset value)

-- `normalised` of `from_salesforce`
unfoldable pub normalised : Datetimes → ℤ → String
normalised dt stamp = dt.date_and_time stamp <> "." <> padded 3 (dt.microsecond stamp / 1000) <> "Z"

-- `row.get(name) or ""`
abbrev pub or_empty : Json → Json
or_empty v = if truthy v then v else text ""

-- `account.get("Name") if isinstance(account, dict) else None`
abbrev pub account_name_of : Json → Json
account_name_of (object account) = get_or_null account "Name"
account_name_of v = null

unfoldable pub from_salesforce : Datetimes → Fields → ℤ → Outcome Fields
unfolding text_at parse_modstamp normalised
from_salesforce dt row published_at = do
  modstamp ← text_at row "SystemModstamp"
  stamp ← parse_modstamp dt modstamp
  id ← text_at row "Id"
  ok (
      field "schema" (text "relay.opportunity.v1") (
        field "event_key" (text (id <> ":" <> normalised dt stamp)) (
          field "version" (int (dt.timestamp_ms stamp)) (
            field "opportunity"
              (object (
                field "id" (text id) (
                  field "name" (or_empty (get_or_null row "Name")) (
                    field "stage_name" (or_empty (get_or_null row "StageName")) (
                      field "amount" (get_or_null row "Amount") (
                        field "close_date" (get_or_null row "CloseDate") (
                          field "account_id" (get_or_null row "AccountId") (
                            field "account_name" (account_name_of (get_or_null row "Account"))
                              (field "system_modstamp" (text (normalised dt stamp)) end)))))))))
              (field "published_at" (text (dt.date_and_time published_at <> "Z")) end)))))
