-- ===== src/Erp/Tests.antt =====
-- Runs of erp/writer.py on the in-memory AWS, and the theorems at them.
use salesforce_erp_sync.Common.{
  ◌<>◌, join, some, String, ◌≡◌, refl, Option, none, List, [], ◌∷◌, ℤ, pos, inl, inr, str_ne, map,
  ◌↔◌,
}
use salesforce_erp_sync.Python.Decimal.{of_int, to_int, scaled, decimal_ltb}
use salesforce_erp_sync.Aws.Types.{
  Operand, value, if_not_exists, plus, SetAction, Condition, attribute_not_exists, less, either,
}
use salesforce_erp_sync.Aws.Memory.{memory, memory-IsDynamo}
use salesforce_erp_sync.Erp.Writer.{
  order_update, invoice_update, customer_update, Order, written, duplicate, stale, write_order,
}
use salesforce_erp_sync.Erp.Effect.{IsConfig, after}
use salesforce_erp_sync.Erp.Versions.{absent, IsOrderTable}
use salesforce_erp_sync.Erp.Sync.{InSync, after-InSync}
use salesforce_erp_sync.Erp.Refinement.{Agrees, write_order-Agrees}
use salesforce_erp_sync.Erp.History.{IsConsistent, Advances, write_order-Reach, Reach-Onwards}
use salesforce_erp_sync.Erp.Newest.{newest, Delivered}
use salesforce_erp_sync.Erp.Convergence.{
  Delivery, deliver, AllAcked, deliver-IsOrderTable, deliver_converges,
}

abbrev pub start : memory.World
unfolding memory
start = record { tables = λ table key. []; sent = []; hidden = [] }

pub default-IsConfig : IsConfig []
default-IsConfig = record {
  orders_ne_invoices = str_ne "orders" "invoices" refl;
  orders_ne_customers = str_ne "orders" "customers" refl;
  invoices_ne_customers = str_ne "invoices" "customers" refl;
}

abbrev pub no_versions : String → Option ℤ
no_versions id = none

pub start-IsConsistent : IsConsistent memory [] start no_versions
unfolding memory
start-IsConsistent = record {
  versions = λ id. absent refl refl;
  in_sync = λ id. record {
    deal = refl;
    version = refl;
    amount = refl;
    customer = refl;
    date = refl;
    event_key = refl;
  };
}

abbrev deal : ℤ → Order
deal version = record {
  order_id = "006000000000001";
  customer_id = "001000000000001";
  customer_name = "Acme";
  opportunity_name = "Anvils";
  total = of_int (pos 1200);
  order_date = "2026-09-22";
  version = version;
  source_modstamp = "2026-09-22T10:00:00.000Z";
  event_key = "006000000000001:2026-09-22T10:00:00.000Z";
}

abbrev first : Order
first = deal (pos 1)

abbrev second : Order
second = deal (pos 2)

abbrev now : String
now = "2026-09-22T10:00:00+00:00"

abbrev in_order : List Delivery
in_order = (first, now) ∷ (second, now) ∷ []

abbrev reordered : List Delivery
reordered = (second, now) ∷ (first, now) ∷ (second, now) ∷ []

run_in_order : AllAcked memory [] in_order start
unfolding memory write_order decimal_ltb scaled of_int
run_in_order = ((written, refl), ((written, refl), tt))

run_reordered : AllAcked memory [] reordered start
unfolding memory write_order decimal_ltb scaled of_int to_int
run_reordered = ((written, refl), ((stale, refl), ((duplicate, refl), tt)))

same_versions :
    (id : String) (v : ℤ)
    → Delivered id v (map (λ d. d.0) in_order) ↔ Delivered id v (map (λ d. d.0) reordered)
same_versions id v = (to, from)
  where
    to : Delivered id v (map (λ d. d.0) in_order) → Delivered id v (map (λ d. d.0) reordered)
    to (inl a) = inr (inl a)
    to (inr (inl b)) = inl b
    to (inr (inr e)) = absurd e

    from : Delivered id v (map (λ d. d.0) reordered) → Delivered id v (map (λ d. d.0) in_order)
    from (inl b) = inr (inl b)
    from (inr (inl a)) = inl a
    from (inr (inr (inl b))) = inr (inl b)
    from (inr (inr (inr e))) = absurd e

write_order-Agrees_example :
    Agrees memory [] memory-IsDynamo default-IsConfig first now none start
      (write_order memory [] first now start)
write_order-Agrees_example =
    write_order-Agrees memory [] memory-IsDynamo default-IsConfig first now none start
      (start-IsConsistent.versions "006000000000001")

Reach-Onwards_example :
    (g : String → Option ℤ) × IsConsistent memory [] (write_order memory [] first now start).1 g
    × Advances []
        (memory.stored start)
        (memory.stored (write_order memory [] first now start).1)
        no_versions
        g
Reach-Onwards_example =
    Reach-Onwards memory [] memory-IsDynamo default-IsConfig no_versions start-IsConsistent
      (write_order-Reach memory [] memory-IsDynamo first now start)

deliver-IsOrderTable_example :
    IsOrderTable []
      (memory.stored (deliver memory [] in_order start))
      (newest no_versions (map (λ d. d.0) in_order))
deliver-IsOrderTable_example =
    deliver-IsOrderTable memory [] memory-IsDynamo default-IsConfig in_order no_versions start
      start-IsConsistent.versions run_in_order

deliver_converges_example :
    memory.stored (deliver memory [] in_order start) "orders" "006000000000001" "version"
    ≡ memory.stored (deliver memory [] reordered start) "orders" "006000000000001" "version"
deliver_converges_example =
    deliver_converges memory [] memory-IsDynamo default-IsConfig in_order reordered no_versions
      start start-IsConsistent.versions run_in_order run_reordered same_versions "006000000000001"

after-InSync_example : InSync [] (after [] default-IsConfig first now (memory.stored start))
after-InSync_example =
    after-InSync [] default-IsConfig first now (memory.stored start) start-IsConsistent.in_sync

-- The texts of the expressions, as the source has them.
operand_text : Operand → String
operand_text (value v) = v
operand_text (if_not_exists path v) = "if_not_exists(" <> path <> ", " <> v <> ")"
operand_text (plus a b) = operand_text a <> " + " <> operand_text b

actions_text : List SetAction → String
unfolding operand_text
actions_text acts = "SET " <> join ", " (map (λ a. a.path <> " = " <> operand_text a.operand) acts)

condition_text : Condition → String
condition_text (attribute_not_exists path) = "attribute_not_exists(" <> path <> ")"
condition_text (less path v) = path <> " < " <> v
condition_text (either a b) = condition_text a <> " OR " <> condition_text b

map_condition : Option Condition → String
unfolding condition_text
map_condition none = ""
map_condition (some c) = condition_text c

order_actions :
    actions_text (order_update [] first now).update_expression
    ≡ "SET customer_id = :cid, customer_name = :cname, opportunity_name = :oname, #total = :total, order_date = :odate, #version = :v, source_modstamp = :ms, event_key = :ek, updated_at = :now, created_at = if_not_exists(created_at, :now), revision = if_not_exists(revision, :zero) + :one"
unfolding actions_text join
order_actions = refl

invoice_actions :
    actions_text (invoice_update [] first now).update_expression
    ≡ "SET order_id = :oid, customer_id = :cid, amount = :amt, issue_date = :d, #status = :st, #version = :v, event_key = :ek, updated_at = :now, created_at = if_not_exists(created_at, :now)"
unfolding actions_text join
invoice_actions = refl

customer_actions :
    actions_text (customer_update [] first now).update_expression
    ≡ "SET #name = :name, last_event_key = :ek, updated_at = :now, created_at = if_not_exists(created_at, :now)"
unfolding actions_text join
customer_actions = refl

order_condition :
    map_condition (order_update [] first now).condition_expression
    ≡ "attribute_not_exists(order_id) OR #version < :v"
unfolding map_condition
order_condition = refl
