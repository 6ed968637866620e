-- ===== src/Erp/Sync.antt =====
-- The order and its invoice never disagree: docs/data-model.md's invariant over the two tables.
use mathlib.Core.Path.{subst}
use salesforce_erp_sync.Common.{
  String, ◌≡◌, refl, ◌≢◌, ◌∙◌, sym, inl, inr, str_eq, eq_iff, str_ne, Bool-cases, Dict,
}
use salesforce_erp_sync.Aws.Dynamo.{Contents, Attributes, SameContents, updated}
use salesforce_erp_sync.Erp.Schema.{
  name, orders, invoices, invoice_id_for, invoice_id_for_injective,
}
use salesforce_erp_sync.Erp.Writer.{Order, order_update, invoice_update}
use salesforce_erp_sync.Erp.Effect.{
  IsConfig, after, after-orders_self, after-orders_ne, after-invoices_self, after-invoices_ne,
}

-- An order and an invoice of one deal at one version: both absent, or alike in what they share.
pub record Mirrors (order invoice : Attributes) : Type 0 where
  pub deal : order "order_id" ≡ invoice "order_id"
  pub version : order "version" ≡ invoice "version"
  pub amount : order "total" ≡ invoice "amount"
  pub customer : order "customer_id" ≡ invoice "customer_id"
  pub date : order "order_date" ≡ invoice "issue_date"
  pub event_key : order "event_key" ≡ invoice "event_key"

abbrev pub InSync : Dict String → Contents → Type 0
InSync environ c =
    (id : String)
    → Mirrors (c (name environ orders) id) (c (name environ invoices) (invoice_id_for id))

module _ (environ : Dict String) (order : Order) (now : String) where
  -- The two updates write the same values.
  updates-Mirrors :
      (old old' : Attributes)
      → Mirrors
          (updated (order_update environ order now) old)
          (updated (invoice_update environ order now) old')
  unfolding updated
  updates-Mirrors old old' = record {
    deal = refl;
    version = refl;
    amount = refl;
    customer = refl;
    date = refl;
    event_key = refl;
  }

module _ (environ : Dict String) (config : IsConfig environ) (order : Order) (now : String) where
  abbrev MirrorsAfter : Contents → String → Type 0
  MirrorsAfter c id =
      Mirrors (after environ config order now c (name environ orders) id)
        (after environ config order now c (name environ invoices) (invoice_id_for id))

  self-MirrorsAfter : (c : Contents) → MirrorsAfter c order.order_id
  self-MirrorsAfter c =
      rw
        (
          after-orders_self environ config order now c,
          after-invoices_self environ config order now c,
        )
        (updates-Mirrors environ order now _ _)

  ne-MirrorsAfter :
      (c : Contents) (id : String) → order.order_id ≢ id → InSync environ c → MirrorsAfter c id
  ne-MirrorsAfter c id differs h =
      rw
        (
          after-orders_ne environ config order now c id differs,
          after-invoices_ne environ config order now c (invoice_id_for id)
              (λ e. differs (invoice_id_for_injective order.order_id id e)),
        )
        (h id)

  -- An accepted transaction keeps every order in step with its invoice.
  pub after-InSync :
      (c : Contents) → InSync environ c → InSync environ (after environ config order now c)
  after-InSync c h id = elim (Bool-cases (str_eq order.order_id id)) [
    | inl same ↦ subst (MirrorsAfter c) ((eq_iff order.order_id id).0 same) (self-MirrorsAfter c)
    | inr differs ↦ ne-MirrorsAfter c id (str_ne order.order_id id differs) h
  ]

pub SameContents-InSync :
    (environ : Dict String) (c c' : Contents)
    → SameContents c c'
    → InSync environ c
    → InSync environ c'
SameContents-InSync environ c c' same h id =
    let old = h id in
    record {
      deal = same _ _ _ ∙ old.deal ∙ sym (same _ _ _);
      version = same _ _ _ ∙ old.version ∙ sym (same _ _ _);
      amount = same _ _ _ ∙ old.amount ∙ sym (same _ _ _);
      customer = same _ _ _ ∙ old.customer ∙ sym (same _ _ _);
      date = same _ _ _ ∙ old.date ∙ sym (same _ _ _);
      event_key = same _ _ _ ∙ old.event_key ∙ sym (same _ _ _);
    }
