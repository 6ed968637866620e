-- ===== src/Erp/Versions.antt =====
-- The stored versions: the abstract view of the orders table, and the condition of the write.
use mathlib.Core.Path.{subst}
use salesforce_erp_sync.Common.{
  String, ◌≡◌, refl, Bool, true, Option, none, some, str_eq, eq_iff, eq_refl, if◌then◌else◌, Dict,
  ℤ, ltb_ℤ, inl, inr, Bool-cases, str_ne,
}
use salesforce_erp_sync.Python.Decimal.{of_int, decimal_ltb-of_int}
use salesforce_erp_sync.Aws.Types.{s, n}
use salesforce_erp_sync.Aws.Dynamo.{Contents, Attributes, updated, passes}
use salesforce_erp_sync.Erp.Schema.{name, orders}
use salesforce_erp_sync.Erp.Writer.{Order, order_update}
use salesforce_erp_sync.Erp.Effect.{IsConfig, after, after-orders_self, after-orders_ne}

-- An item of the orders table: absent, or with its key and an integer version.
pub data IsOrderItem (id : String) (old : Attributes) : Option ℤ → Type 0 where
  absent : old "order_id" ≡ none → old "version" ≡ none → IsOrderItem id old none
  present :
      (v : ℤ)
      → old "order_id" ≡ some (s id)
      → old "version" ≡ some (n (of_int v))
      → IsOrderItem id old (some v)

-- The order's condition in terms of the stored version.
abbrev pub accepts : Option ℤ → ℤ → Bool
accepts none incoming = true
accepts (some v) incoming = ltb_ℤ v incoming

module _ (environ : Dict String) (order : Order) (now : String) where
  pub passes-eq-accepts :
      (c : Contents) (v : Option ℤ)
      → IsOrderItem order.order_id (c (name environ orders) order.order_id) v
      → passes c (order_update environ order now) ≡ accepts v order.version
  unfolding passes
  passes-eq-accepts c none (absent p q) = rw p
  passes-eq-accepts c (some v) (present _ p q) = rw (p, q) (decimal_ltb-of_int v order.version)

  pub updated_version :
      (old : Attributes)
      → IsOrderItem order.order_id
          (updated (order_update environ order now) old)
          (some order.version)
  unfolding updated
  updated_version old = present order.version refl refl

-- What every item of the orders table is, with its version.
abbrev pub IsOrderTable : Dict String → Contents → (String → Option ℤ) → Type 0
IsOrderTable environ c version =
    (id : String) → IsOrderItem id (c (name environ orders) id) (version id)

-- The specification of an accepted write: it sets the version of its deal.
abbrev pub set_version : (String → Option ℤ) → String → ℤ → String → Option ℤ
set_version version oid v id = if str_eq oid id then some v else version id

module _ (environ : Dict String) (config : IsConfig environ) (order : Order) (now : String) where
  pub after-IsOrderTable :
      (c : Contents) (version : String → Option ℤ)
      → IsOrderTable environ c version
      → IsOrderTable environ
          (after environ config order now c)
          (set_version version order.order_id order.version)
  after-IsOrderTable c version h id = elim (Bool-cases (str_eq order.order_id id)) [
    | inl same ↦
        subst
          (λ i.
            IsOrderItem i (after environ config order now c (name environ orders) i)
              (set_version version order.order_id order.version i))
          ((eq_iff order.order_id id).0 same)
          (rw (after-orders_self environ config order now c, eq_refl order.order_id)
            (updated_version environ order now _))
    | inr differs ↦
        rw (after-orders_ne environ config order now c id (str_ne _ _ differs), differs) (h id)
  ]
