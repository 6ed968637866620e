-- ===== src/Worker/Mapping/Valid.antt =====
-- What worker/mapping.py accepts, as a description of the event.
use mathlib.Core.Path.{subst}
use salesforce_erp_sync.Common.{
  String, ◌≡◌, ◌≢◌, refl, ◌∙◌, sym, true, false, Option, some, none, str_eq, eq_iff, str_ne,
  str_eq-eq_false, Bool-cases, inl, inr, ltb_ℤ, pos, ℤ, codes, arith, ◌<ℤ◌,
}
use salesforce_erp_sync.Python.Decimal.{
  Decimal, Number, finite, infinite, nan, is_negative, of_int, decimal_of_text,
}
use salesforce_erp_sync.Python.Json.{
  Json, null, bool, int, number, text, array, object, Fields, get_or_null,
}
use salesforce_erp_sync.Python.Regex.{date_match}
use salesforce_erp_sync.Outcome.{ok, bind_ok}
use salesforce_erp_sync.Erp.Writer.{Order}
use salesforce_erp_sync.Worker.Mapping.{
  Builtins, schema, required_text, required_str, decimal_of, checked_amount, amount, check_schema,
  opportunity_of, check_version, check_account, check_amount, check_date, name_of, to_order,
}

-- A field that holds a text with at least one character.
pub record HasText (fields : Fields) (name value : String) : Type 0 where
  pub holds : get_or_null fields name ≡ text value
  pub nonempty : value ≢ ""

-- A JSON number, or a text of one, that is finite and not below zero.
pub data IsAmount : Json → Decimal → Type 0 where
  whole : (z : ℤ) → is_negative (of_int z) ≡ false → IsAmount (int z) (of_int z)
  fraction : (d : Decimal) → is_negative d ≡ false → IsAmount (number (finite d)) d
  written_out :
      (s : String) (d : Decimal)
      → decimal_of_text s ≡ some (finite d)
      → is_negative d ≡ false
      → IsAmount (text s) d

-- The event of version 1 that an order comes from.
pub record IsEventOf (py : Builtins) (event : Fields) (order : Order) : Type 0 where
  pub opportunity : Fields
  pub is_v1 : get_or_null event "schema" ≡ text schema
  pub has_opportunity : get_or_null event "opportunity" ≡ object opportunity
  pub id : HasText opportunity "id" order.order_id
  pub key : HasText event "event_key" order.event_key
  pub version : get_or_null event "version" ≡ int order.version
  pub positive : pos 0 <ℤ order.version
  pub total : IsAmount (get_or_null opportunity "amount") order.total
  pub close_date : HasText opportunity "close_date" order.order_date
  pub has_date_form : date_match (codes order.order_date) ≡ true
  pub account : HasText opportunity "account_id" order.customer_id
  pub account_name : HasText opportunity "account_name" order.customer_name
  pub name : order.opportunity_name ≡ name_of py (get_or_null opportunity "name")
  pub modstamp : HasText opportunity "system_modstamp" order.source_modstamp

check_schema-ok :
    (py : Builtins) (v : Json) {u : Unit {0}} → check_schema py v ≡ ok u → v ≡ text schema
unfolding check_schema
check_schema-ok py (text s) h = elim (Bool-cases (str_eq s schema)) [
  | inl same ↦ cc ((eq_iff s schema).0 same)
  | inr differs ↦ cc (rw differs at h)
]
check_schema-ok py _ h = cc

opportunity_of-ok : (v : Json) {o : Fields} → opportunity_of v ≡ ok o → v ≡ object o
unfolding opportunity_of
opportunity_of-ok (object o) h = cc
opportunity_of-ok _ h = cc

required_text-ok :
    (v : Json) (name : String) {s : String} → required_text v name ≡ ok s → (v ≡ text s) × (s ≢ "")
unfolding required_text
required_text-ok (text t) name {s} h = elim (Bool-cases (str_eq t "")) [
  | inl empty ↦ cc (rw empty at h)
  | inr some_ ↦
      let same : t ≡ s = cc (rw some_ at h) in (cc same, λ e. str_ne t "" some_ (same ∙ e))
]
required_text-ok _ name h = cc

required_str-ok :
    (fields : Fields) (name : String) {s : String}
    → required_str fields name ≡ ok s
    → HasText fields name s
unfolding required_str
required_str-ok fields name h =
    let (holds, nonempty) = required_text-ok (get_or_null fields name) name h in
    record { holds = holds; nonempty = nonempty }

check_version-ok : (v : Json) {z : ℤ} → check_version v ≡ ok z → (v ≡ int z) × (pos 0 <ℤ z)
unfolding check_version
check_version-ok (int y) {z} h = elim (Bool-cases (ltb_ℤ (pos 0) y)) [
  | inl above ↦ let same : y ≡ z = cc (rw above at h) in (cc same, rw (sym same) (ground arith))
  | inr below ↦ cc (rw below at h)
]
check_version-ok _ h = cc

check_date-ok : (s : String) {u : Unit {0}} → check_date s ≡ ok u → date_match (codes s) ≡ true
unfolding check_date
check_date-ok s h = elim (Bool-cases (date_match (codes s))) [
  | inl fits ↦ fits
  | inr other_ ↦ cc (rw other_ at h)
]

checked_amount-ok :
    (o : Option Number) {d : Decimal}
    → checked_amount o ≡ ok d
    → (o ≡ some (finite d)) × (is_negative d ≡ false)
unfolding checked_amount
checked_amount-ok (some (finite x)) {d} h = elim (Bool-cases (is_negative x)) [
  | inl below ↦ cc (rw below at h)
  | inr fine ↦ let same : x ≡ d = cc (rw fine at h) in (cc same, rw (sym same) fine)
]
checked_amount-ok (some (infinite b)) h = cc
checked_amount-ok (some nan) h = cc
checked_amount-ok none h = cc

ok_inj : {a b : Order} → ok a ≡ ok b → a ≡ b
ok_inj h = cc

finite_inj : {c d : Decimal} → some (finite c) ≡ some (finite d) → c ≡ d
finite_inj h = cc

amount-ok : (v : Json) {d : Decimal} → amount v ≡ ok d → IsAmount v d
unfolding amount decimal_of
amount-ok (int z) {d} h =
    let (e, fine) = checked_amount-ok (some (finite (of_int z))) h in
    subst (IsAmount (int z)) (finite_inj e) (whole z (rw (finite_inj e) fine))
amount-ok (number x) {d} h =
    let (e, fine) = checked_amount-ok (some x) h in
    let same : x ≡ finite d = cc e in rw same (fraction d fine)
amount-ok (text s) {d} h =
    let (e, fine) = checked_amount-ok (decimal_of_text s) h in written_out s d e fine
amount-ok (bool b) h = cc
amount-ok null h = cc (checked_amount-ok none h).0
amount-ok (array a) h = cc (checked_amount-ok none h).0
amount-ok (object o) h = cc (checked_amount-ok none h).0

-- The event that an order comes from meets the whole description: no order is made of anything else. Of the
-- date the description asks the form alone: what the program's pattern of a date matches.
pub to_order_sound :
    (py : Builtins) (event : Fields) (order : Order)
    → to_order py event ≡ ok order
    → IsEventOf py event order
unfolding to_order
to_order_sound py event order h =
    let (u₁, is_v1, h₁) = bind_ok (check_schema py (get_or_null event "schema")) _ h in
    let (opp, has_opp, h₂) = bind_ok (opportunity_of (get_or_null event "opportunity")) _ h₁ in
    let (id, has_id, h₃) = bind_ok (required_str opp "id") _ h₂ in
    let (key, has_key, h₄) = bind_ok (required_str event "event_key") _ h₃ in
    let (v, has_v, h₅) = bind_ok (check_version (get_or_null event "version")) _ h₄ in
    let (u₆, e₆, h₆) = bind_ok (check_account (get_or_null opp "account_id")) _ h₅ in
    let (u₇, e₇, h₇) = bind_ok (check_amount (get_or_null opp "amount")) _ h₆ in
    let (total, has_total, h₈) = bind_ok (amount (get_or_null opp "amount")) _ h₇ in
    let (date, has_date, h₉) = bind_ok (required_str opp "close_date") _ h₈ in
    let (u₁₀, is_date, h₁₀) = bind_ok (check_date date) _ h₉ in
    let (account, has_account, h₁₁) = bind_ok (required_str opp "account_id") _ h₁₀ in
    let (account_name, has_name, h₁₂) = bind_ok (required_str opp "account_name") _ h₁₁ in
    let (modstamp, has_modstamp, h₁₃) = bind_ok (required_str opp "system_modstamp") _ h₁₂ in
    subst (IsEventOf py event) (ok_inj h₁₃) (record {
      opportunity = opp;
      is_v1 = check_schema-ok py _ is_v1;
      has_opportunity = opportunity_of-ok _ has_opp;
      id = required_str-ok opp "id" has_id;
      key = required_str-ok event "event_key" has_key;
      version = (check_version-ok (get_or_null event "version") has_v).0;
      positive = (check_version-ok (get_or_null event "version") has_v).1;
      total = amount-ok _ has_total;
      close_date = required_str-ok opp "close_date" has_date;
      has_date_form = check_date-ok date is_date;
      account = required_str-ok opp "account_id" has_account;
      account_name = required_str-ok opp "account_name" has_name;
      name = refl;
      modstamp = required_str-ok opp "system_modstamp" has_modstamp;
    })

required_str-eq_ok :
    (fields : Fields) (name : String) {s : String}
    → HasText fields name s
    → required_str fields name ≡ ok s
unfolding required_str required_text
required_str-eq_ok fields name {s} h = rw (h.holds, str_eq-eq_false s "" h.nonempty)

check_schema-eq_ok : (py : Builtins) (v : Json) → v ≡ text schema → check_schema py v ≡ ok tt
unfolding check_schema
check_schema-eq_ok py v h = rw h refl

check_version-eq_ok : (v : Json) (z : ℤ) → v ≡ int z → pos 0 <ℤ z → check_version v ≡ ok z
unfolding check_version
check_version-eq_ok v z h positive = rw h (ground arith)

check_account-eq_ok : (v : Json) {s : String} → v ≡ text s → s ≢ "" → check_account v ≡ ok tt
unfolding check_account
check_account-eq_ok v {s} h nonempty = rw (h, str_eq-eq_false s "" nonempty)

check_amount-eq_ok : {v : Json} {d : Decimal} → IsAmount v d → check_amount v ≡ ok tt
unfolding check_amount
check_amount-eq_ok (whole z h) = refl
check_amount-eq_ok (fraction d h) = refl
check_amount-eq_ok (written_out s d e h) = refl

amount-eq_ok : {v : Json} {d : Decimal} → IsAmount v d → amount v ≡ ok d
unfolding amount decimal_of checked_amount
amount-eq_ok (whole z h) = rw h
amount-eq_ok (fraction d h) = rw h
amount-eq_ok (written_out s d e h) = rw (e, h)

check_date-eq_ok : (s : String) → date_match (codes s) ≡ true → check_date s ≡ ok tt
unfolding check_date
check_date-eq_ok s h = rw h

-- An event that meets the description is never refused: it gives exactly that order.
pub to_order_complete :
    (py : Builtins) (event : Fields) (order : Order)
    → IsEventOf py event order
    → to_order py event ≡ ok order
unfolding to_order
to_order_complete py event order e = rw (
  check_schema-eq_ok py _ e.is_v1,
  e.has_opportunity,
  required_str-eq_ok e.opportunity "id" e.id,
  required_str-eq_ok event "event_key" e.key,
  check_version-eq_ok (get_or_null event "version") order.version e.version e.positive,
  check_account-eq_ok (get_or_null e.opportunity "account_id") e.account.holds e.account.nonempty,
  check_amount-eq_ok e.total,
  amount-eq_ok e.total,
  required_str-eq_ok e.opportunity "close_date" e.close_date,
  check_date-eq_ok order.order_date e.has_date_form,
  required_str-eq_ok e.opportunity "account_id" e.account,
  required_str-eq_ok e.opportunity "account_name" e.account_name,
  required_str-eq_ok e.opportunity "system_modstamp" e.modstamp,
  sym e.name,
)
