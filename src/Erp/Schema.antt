-- ===== src/Erp/Schema.antt =====
-- erp/schema.py: the three tables and the keys that are derived from Salesforce IDs.
use text.Mathlib.TextLemmas.{append_cancel_left}
use salesforce_erp_sync.Common.{String, ◌≡◌, List, [], ◌∷◌, Dict, lookup, or_default, ◌<>◌}

pub record TableSpec : Type 0 where
  pub logical_name : String
  pub env_var : String
  pub partition_key : String

-- The property `TableSpec.name`, in an environment of variables.
abbrev pub name : Dict String → TableSpec → String
name environ t = or_default (lookup t.env_var environ) t.logical_name

abbrev pub customers : TableSpec
customers = record {
  logical_name = "customers";
  env_var = "CUSTOMERS_TABLE";
  partition_key = "customer_id";
}

abbrev pub orders : TableSpec
orders = record { logical_name = "orders"; env_var = "ORDERS_TABLE"; partition_key = "order_id" }

abbrev pub invoices : TableSpec
invoices = record {
  logical_name = "invoices";
  env_var = "INVOICES_TABLE";
  partition_key = "invoice_id";
}

abbrev pub all_tables : List TableSpec
all_tables = customers ∷ orders ∷ invoices ∷ []

unfoldable pub invoice_id_for : String → String
invoice_id_for opportunity_id = "INV-" <> opportunity_id

-- Two deals never share an invoice.
pub invoice_id_for_injective : (a b : String) → invoice_id_for a ≡ invoice_id_for b → a ≡ b
unfolding invoice_id_for
invoice_id_for_injective a b h = append_cancel_left "INV-" a b h
