-- ===== src/Reconciler/Tests.antt =====
-- Runs of the reconciler, and the theorems at them.
use salesforce_erp_sync.Common.{ℕ, String, ◌≡◌, refl, List, [], ◌∷◌, pos, ◌-ℤ◌, codes, padded}
use salesforce_erp_sync.Python.Json.{
  int, text, object, Fields, end, field, get, get_or_null, truthy,
}
use salesforce_erp_sync.Python.Decimal.{of_int}
use salesforce_erp_sync.Python.Regex.{date_match, is_decimal}
use salesforce_erp_sync.Outcome.{ok}
use salesforce_erp_sync.Worker.Mapping.{to_order}
use salesforce_erp_sync.Worker.Tests.{python, order}
use salesforce_erp_sync.Reconciler.Events.{Datetimes, text_at, parse_modstamp, from_salesforce}
use salesforce_erp_sync.Reconciler.Events.Repair.{IsOrderOfRow, from_salesforce_order}
use salesforce_erp_sync.Reconciler.Reconcile.{Report, check_deals}
use salesforce_erp_sync.Reconciler.Reconcile.Accounting.{IsBalanced, check_deals-IsBalanced}
use salesforce_erp_sync.Reconciler.Scan.{chunks}

abbrev noon : Datetimes
noon = record {
  fromisoformat = λ s. ok (pos 1_790_071_200_000_000);
  date_and_time = λ t. "2026-09-22T10:00:00";
  microsecond = λ t. 0;
  timestamp_ms = λ t. pos 1_790_071_200_000;
}

abbrev row : Fields
row = field "Id" (text "006000000000001") (
    field "Name" (text "Anvils") (
      field "AccountId" (text "001000000000001") (
        field "Account" (object (field "Name" (text "Acme") end)) (
          field "Amount" (int (pos 1200)) (
            field "CloseDate" (text "2026-09-22")
              (field "SystemModstamp" (text "2026-09-22T10:00:00.000+0000") end))))))

abbrev event : Fields
event = field "schema" (text "relay.opportunity.v1") (
    field "event_key" (text "006000000000001:2026-09-22T10:00:00.000Z") (
      field "version" (int (pos 1_790_071_200_000)) (
        field "opportunity"
          (object (
            field "id" (text "006000000000001") (
              field "name" (text "Anvils") (
                field "stage_name" (text "") (
                  field "amount" (int (pos 1200)) (
                    field "close_date" (text "2026-09-22") (
                      field "account_id" (text "001000000000001") (
                        field "account_name" (text "Acme")
                          (field "system_modstamp" (text "2026-09-22T10:00:00.000Z") end)))))))))
          (field "published_at" (text "2026-09-22T10:00:00Z") end))))

built : from_salesforce noon row (pos 1_790_080_000_000_000) ≡ ok event
unfolding from_salesforce text_at get parse_modstamp get_or_null padded truthy
built = refl

accepted : to_order python event ≡ ok order
unfolding to_order get_or_null of_int date_match codes is_decimal truthy
accepted = refl

from_salesforce_order_example : IsOrderOfRow python noon row order
from_salesforce_order_example =
    from_salesforce_order python noon row (pos 1_790_080_000_000_000) event order built accepted

abbrev empty : Report
empty = record { drift = []; to_enqueue = []; checked_deals = 0; checked_orders = 0 }

abbrev repaired : List String × Report
repaired = (
  "006000000000001" ∷ [],
  record {
    drift = record { kind = "missing_order"; opportunity_id = "006000000000001"; detail = "" } ∷ [];
    to_enqueue = event ∷ [];
    checked_deals = 1;
    checked_orders = 0;
  },
)

checked :
    check_deals python noon []
      (pos 1_790_080_000_000_000)
      (pos 600_000_000)
      (object row ∷ [])
      []
      empty
    ≡ ok repaired
unfolding check_deals text_at get parse_modstamp ◌-ℤ◌ from_salesforce to_order get_or_null padded
    of_int date_match codes is_decimal truthy
checked = refl

check_deals-IsBalanced_example : IsBalanced repaired.1
check_deals-IsBalanced_example =
    check_deals-IsBalanced python noon [] (pos 1_790_080_000_000_000) (pos 600_000_000)
      (object row ∷ []) [] empty repaired refl checked

-- two slices of two, and slices that leave elements out
chunks_run :
    (chunks {A = ℕ} 2 2 (1 ∷ 2 ∷ 3 ∷ []) ≡ (1 ∷ 2 ∷ []) ∷ (3 ∷ []) ∷ [])
    × (chunks {A = ℕ} 2 1 (1 ∷ 2 ∷ 3 ∷ []) ≡ (1 ∷ []) ∷ (3 ∷ []) ∷ [])
unfolding chunks
chunks_run = (refl, refl)
