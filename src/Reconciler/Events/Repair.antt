-- ===== src/Reconciler/Events/Repair.antt =====
-- The events of reconciler/events.py, as worker/mapping.py reads them.
use mathlib.Core.Path.{subst}
use salesforce_erp_sync.Common.{
  String, ◌≡◌, refl, ◌∙◌, sym, ap, ℤ, Option, none, some, ◌<>◌, Bool-cases, inl, inr,
}
use salesforce_erp_sync.Python.Json.{Json, int, text, object, Fields, get, get_or_null, truthy}
use salesforce_erp_sync.Outcome.{ok, bind_ok}
use salesforce_erp_sync.Erp.Writer.{Order}
use salesforce_erp_sync.Worker.Mapping.{Builtins, name_of, to_order}
use salesforce_erp_sync.Worker.Mapping.Valid.{IsAmount, to_order_sound}
use salesforce_erp_sync.Reconciler.Events.{
  Datetimes, text_value, text_found, text_at, parse_modstamp, normalised, or_empty, account_name_of,
  from_salesforce,
}

text_inj : {a b : String} → text a ≡ text b → a ≡ b
text_inj h = cc

int_inj : {a b : ℤ} → int a ≡ int b → a ≡ b
int_inj h = cc

object_inj : {a b : Fields} → object a ≡ object b → a ≡ b
object_inj h = cc

ok_inj : {a b : Fields} → ok a ≡ ok b → a ≡ b
ok_inj h = cc

text_value-ok : (name : String) (v : Json) {s : String} → text_value name v ≡ ok s → v ≡ text s
text_value-ok name (text s) h = cc h
text_value-ok name _ h = cc h

text_found-ok :
    (name : String) (o : Option Json) {s : String} → text_found name o ≡ ok s → o ≡ some (text s)
text_found-ok name none h = cc h
text_found-ok name (some v) h = ap some (text_value-ok name v h)

text_at-ok :
    (row : Fields) (name : String) {s : String}
    → text_at row name ≡ ok s
    → get row name ≡ some (text s)
unfolding text_at
text_at-ok row name h = text_found-ok name (get row name) h

name_of-or_empty : (py : Builtins) (v : Json) → name_of py (or_empty v) ≡ name_of py v
unfolding name_of truthy
name_of-or_empty py v = elim (Bool-cases (truthy v)) [
  | inl kept ↦ rw (kept, kept) refl
  | inr empty ↦ rw empty refl
]

-- The order of a Salesforce row: each of its fields is read from the row, and its version, its modification
-- time and its event key are those of the row's SystemModstamp.
pub record IsOrderOfRow (py : Builtins) (dt : Datetimes) (row : Fields) (order : Order)
    : Type 0 where
  pub id : get row "Id" ≡ some (text order.order_id)
  pub modstamp : String
  pub stamp : ℤ
  pub stored : get row "SystemModstamp" ≡ some (text modstamp)
  pub parsed : parse_modstamp dt modstamp ≡ ok stamp
  pub version : order.version ≡ dt.timestamp_ms stamp
  pub source_modstamp : order.source_modstamp ≡ normalised dt stamp
  pub event_key : order.event_key ≡ order.order_id <> ":" <> normalised dt stamp
  pub customer : get_or_null row "AccountId" ≡ text order.customer_id
  pub customer_name : account_name_of (get_or_null row "Account") ≡ text order.customer_name
  pub name : order.opportunity_name ≡ name_of py (get_or_null row "Name")
  pub total : IsAmount (get_or_null row "Amount") order.total
  pub date : get_or_null row "CloseDate" ≡ text order.order_date

-- When the worker makes an order of the event that the reconciler builds of a Salesforce row, every field of the
-- order is the row's: the identifier, the account, the name, the amount and the date are read from the row's
-- fields, and the version, the modification time and the event key are those of the row's SystemModstamp.
pub from_salesforce_order :
    (py : Builtins) (dt : Datetimes) (row : Fields) (published_at : ℤ) (event : Fields)
    (order : Order)
    → from_salesforce dt row published_at ≡ ok event
    → to_order py event ≡ ok order
    → IsOrderOfRow py dt row order
unfolding from_salesforce get_or_null get
from_salesforce_order py dt row published_at event order made h =
    let (modstamp, stored, h₁) = bind_ok (text_at row "SystemModstamp") _ made in
    let (stamp, parsed, h₂) = bind_ok (parse_modstamp dt modstamp) _ h₁ in
    let (id, has_id, h₃) = bind_ok (text_at row "Id") _ h₂ in
    let same = ok_inj h₃ in
    let e = to_order_sound py event order h in
    let inside = object_inj (ap (λ f. get_or_null f "opportunity") same ∙ e.has_opportunity) in
    let own_id : id ≡ order.order_id =
      text_inj (ap (λ f. get_or_null f "id") inside ∙ e.id.holds) in
    record {
      id = rw (sym own_id) (text_at-ok row "Id" has_id);
      modstamp = modstamp;
      stamp = stamp;
      stored = text_at-ok row "SystemModstamp" stored;
      parsed = parsed;
      version = int_inj (sym e.version ∙ sym (ap (λ f. get_or_null f "version") same));
      source_modstamp =
          text_inj (sym e.modstamp.holds ∙ sym (ap (λ f. get_or_null f "system_modstamp") inside));
      event_key =
          text_inj (sym e.key.holds ∙ sym (ap (λ f. get_or_null f "event_key") same))
          ∙ ap (λ x. x <> ":" <> normalised dt stamp) own_id;
      customer = ap (λ f. get_or_null f "account_id") inside ∙ e.account.holds;
      customer_name = ap (λ f. get_or_null f "account_name") inside ∙ e.account_name.holds;
      name =
          e.name
          ∙ sym (ap (λ f. name_of py (get_or_null f "name")) inside)
          ∙ name_of-or_empty py (get_or_null row "Name");
      total =
          subst (λ v. IsAmount v order.total) (sym (ap (λ f. get_or_null f "amount") inside))
            e.total;
      date = ap (λ f. get_or_null f "close_date") inside ∙ e.close_date.holds;
    }
