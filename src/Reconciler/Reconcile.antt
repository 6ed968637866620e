-- ===== src/Reconciler/Reconcile.antt =====
-- reconciler/reconcile.py: the comparison.
pub mod Accounting
use salesforce_erp_sync.Common.{
  ℕ, ◌+◌, String, Bool, ◌&&◌, not, Option, none, some, List, [], ◌∷◌, ◌++◌, map, length, contains,
  if◌then◌else◌, ℤ, ltb_ℤ, ◌-ℤ◌, Dict, lookup, insert, or_default, ◌<>◌, starts_with, sorted,
}
use salesforce_erp_sync.Python.Json.{Json, Fields, get_or_null, str_of_int}
use salesforce_erp_sync.Outcome
use salesforce_erp_sync.Outcome.{Exn, Outcome, ok, raised, permanent_error}
use salesforce_erp_sync.Exec.{Exec, pure, lift, ◌>>=◌}
use salesforce_erp_sync.Erp.Writer.{Order}
use salesforce_erp_sync.Worker.Mapping.{Builtins, str_of, to_order}
use salesforce_erp_sync.Reconciler.Events.{
  Datetimes, dict_of, text_at, parse_modstamp, from_salesforce,
}

abbrev pub smoke_prefix : String
smoke_prefix = "006SMOKE"

pub record Drift : Type 0 where
  pub kind : String
  pub opportunity_id : String
  pub detail : String

-- An event to enqueue keeps its key beside the whole of it.
pub record Report : Type 0 where
  pub drift : List Drift
  pub to_enqueue : List Fields
  pub checked_deals : ℕ
  pub checked_orders : ℕ

-- `Report.counts`
abbrev pub count_drift : Dict ℕ → List Drift → Dict ℕ
count_drift out [] = out
count_drift out (d ∷ ds) = count_drift (insert d.kind (or_default (lookup d.kind out) 0 + 1) out) ds

abbrev pub counts : Report → Dict ℕ
counts r = count_drift [] r.drift

-- `report.drift.append(...)`, and with `report.to_enqueue.append(event)`
abbrev pub noted : String → String → String → Report → Report
noted kind id detail r = record r {
  drift = r.drift ++ record { kind = kind; opportunity_id = id; detail = detail } ∷ [];
}

abbrev pub enqueued : String → String → String → Fields → Report → Report
enqueued kind id detail event r = record (noted kind id detail r) {
  to_enqueue = r.to_enqueue ++ event ∷ [];
}

-- a deal without an order
unfoldable pub judge_missing : String → Fields → Report → Outcome Order → Outcome Report
judge_missing id event r (ok order) = ok (enqueued "missing_order" id "" event r)
judge_missing id event r (raised (permanent_error reason detail)) =
    ok (noted "invalid_in_source" id reason r)
judge_missing id event r (raised e) = raised e

-- a deal with an order of version `stored`
unfoldable pub judge_stored : String → Fields → ℤ → ℤ → Report → Report
judge_stored id event stored version r =
    if ltb_ℤ stored version
    then enqueued "stale_order" id (str_of_int stored <> " < " <> str_of_int version) event r
    else if ltb_ℤ version stored
    then noted "erp_ahead" id (str_of_int stored <> " > " <> str_of_int version) r
    else r

unfoldable pub judge : Builtins → String → Fields → ℤ → Option ℤ → Report → Outcome Report
unfolding judge_missing judge_stored
judge py id event version none r = judge_missing id event r (to_order py event)
judge py id event version (some stored) r = ok (judge_stored id event stored version r)

-- one row of `won_deals`; a deal of the last `grace` is in flight
unfoldable pub check_deal :
    Builtins → Datetimes → Dict ℤ → ℤ → ℤ → Fields → Report → Outcome (String × Report)
unfolding judge
check_deal py dt order_versions now grace row r = Outcome.◌>>=◌ (text_at row "Id") λ id.
    Outcome.◌>>=◌ (text_at row "SystemModstamp") λ modstamp.
      Outcome.◌>>=◌ (parse_modstamp dt modstamp) λ stamp.
        if ltb_ℤ (now -ℤ grace) stamp
        then ok (id, r)
        else Outcome.◌>>=◌ (from_salesforce dt row now) λ event.
          Outcome.◌>>=◌
            (judge py id event (dt.timestamp_ms stamp) (lookup id order_versions)
              (record r { checked_deals = r.checked_deals + 1 }))
            λ r'. ok (id, r')

-- the loop over `won_deals`, with `won_ids` so far
unfoldable pub check_deals :
    Builtins
    → Datetimes
    → Dict ℤ
    → ℤ
    → ℤ
    → List Json
    → List String
    → Report
    → Outcome (List String × Report)
unfolding dict_of check_deal
check_deals py dt order_versions now grace [] won_ids r = ok (won_ids, r)
check_deals py dt order_versions now grace (v ∷ rows) won_ids r = Outcome.◌>>=◌ (dict_of v) λ row.
    Outcome.◌>>=◌ (check_deal py dt order_versions now grace row r)
      λ checked. check_deals py dt order_versions now grace rows (checked.0 ∷ won_ids) checked.1

abbrev keys : Dict ℤ → List String
keys = map (λ e. e.0)

abbrev filter : (String → Bool) → List String → List String
filter test [] = []
filter test (x ∷ xs) = if test x then x ∷ filter test xs else filter test xs

-- `orphans` of `compare`
unfoldable pub orphans_of : Dict ℤ → List String → List String
orphans_of order_versions won_ids = sorted (
    filter (λ oid. not (contains won_ids oid) && not (starts_with smoke_prefix oid))
      (keys order_versions))

unfoldable pub judge_orphan : Builtins → Dict Fields → String → Report → Report
judge_orphan py found oid r = elim (lookup oid found) [
  | none ↦ noted "not_found" oid "deleted in Salesforce" r
  | some current ↦
      noted "not_won" oid ("stage is " <> str_of py (get_or_null current "StageName")) r
]

abbrev pub judge_orphans : Builtins → Dict Fields → List String → Report → Report
judge_orphans py found [] r = r
judge_orphans py found (oid ∷ oids) r = judge_orphans py found oids (judge_orphan py found oid r)

-- `if orphans:`; the stages are asked for only if there are any
abbrev look_up :
    {S : Type 0}
    → Builtins
    → (List String → Exec S (Dict Fields))
    → List String
    → Report
    → Exec S Report
look_up py lookup_stages [] r = pure r
look_up py lookup_stages (oid ∷ oids) r = do
  found ← lookup_stages (oid ∷ oids)
  pure (judge_orphans py found (oid ∷ oids) r)

unfoldable pub compare :
    {S : Type 0}
    → Builtins
    → Datetimes
    → List Json
    → Dict ℤ
    → (List String → Exec S (Dict Fields))
    → ℤ
    → ℤ
    → Exec S Report
unfolding check_deals orphans_of judge_orphan
compare py dt won_deals order_versions lookup_stages now grace = do
  checked ← lift (
      check_deals py dt order_versions now grace won_deals [] (record {
        drift = [];
        to_enqueue = [];
        checked_deals = 0;
        checked_orders = length order_versions;
      }))
  look_up py lookup_stages (orphans_of order_versions checked.0) checked.1
