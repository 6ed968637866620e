-- ===== src/Erp/Effect.antt =====
-- What the transaction of erp/writer.py does to the three tables.
use salesforce_erp_sync.Common.{
  String, ◌≡◌, ◌≢◌, ◌∙◌, sym, str_eq, eq_refl, str_eq-eq_false, if◌then◌else◌, Dict, ap,
}
use salesforce_erp_sync.Aws.Dynamo.{Contents, Attributes, updated, after_update, after_updates}
use mathlib.Core.Path.{fun_ext}
use salesforce_erp_sync.Aws.Types.{Update}
use salesforce_erp_sync.Erp.Schema.{name, customers, orders, invoices, invoice_id_for}
use salesforce_erp_sync.Erp.Writer.{
  Order, order_update, invoice_update, customer_update, transaction,
}

-- The environment names three different tables, as docker-compose.yml and template.yaml do.
pub record IsConfig (environ : Dict String) : Type 0 where
  pub orders_ne_invoices : name environ orders ≢ name environ invoices
  pub orders_ne_customers : name environ orders ≢ name environ customers
  pub invoices_ne_customers : name environ invoices ≢ name environ customers

-- An update of one table leaves the others.
after_update_ne :
    (c : Contents) (u : Update) (t k a : String)
    → u.table_name ≢ t
    → after_update c u t k a ≡ c t k a
unfolding after_update
after_update_ne c u t k a h = rw (str_eq-eq_false u.table_name t h)

after_update_same :
    (c : Contents) (u : Update) (k a : String)
    → after_update c u u.table_name k a
      ≡ (if str_eq u.key k then updated u (c u.table_name k) a else c u.table_name k a)
unfolding after_update
after_update_same c u k a = rw (eq_refl u.table_name)

module _ (environ : Dict String) (config : IsConfig environ) (order : Order) (now : String) where
  abbrev ordered : Contents → Contents
  ordered c = after_update c (order_update environ order now)

  abbrev invoiced : Contents → Contents
  invoiced c = after_update (ordered c) (invoice_update environ order now)

  abbrev pub after : Contents → Contents
  after c = after_updates c (transaction environ order now)

  -- The orders table: one item is updated, from what it held.
  pub after-orders :
      (c : Contents) (id a : String)
      → after c (name environ orders) id a ≡ (
          if str_eq order.order_id id
          then updated (order_update environ order now) (c (name environ orders) id) a
          else c (name environ orders) id a)
  unfolding after_updates transaction
  after-orders c id a =
      after_update_ne (invoiced c) (customer_update environ order now) _ id a
        (λ e. config.orders_ne_customers (sym e))
      ∙ after_update_ne (ordered c) (invoice_update environ order now) _ id a
          (λ e. config.orders_ne_invoices (sym e))
      ∙ after_update_same c (order_update environ order now) id a

  ordered-invoices :
      (c : Contents) (k : String)
      → ordered c (name environ invoices) k ≡ c (name environ invoices) k
  ordered-invoices c k =
      fun_ext
        λ a. after_update_ne c (order_update environ order now) _ k a config.orders_ne_invoices

  -- The invoices table likewise, at the invoice of the order.
  pub after-invoices :
      (c : Contents) (k a : String)
      → after c (name environ invoices) k a ≡ (
          if str_eq (invoice_id_for order.order_id) k
          then updated (invoice_update environ order now) (c (name environ invoices) k) a
          else c (name environ invoices) k a)
  unfolding after_updates transaction
  after-invoices c k a =
      after_update_ne (invoiced c) (customer_update environ order now) _ k a
        (λ e. config.invoices_ne_customers (sym e))
      ∙ after_update_same (ordered c) (invoice_update environ order now) k a
      ∙ ap
          (λ (old : Attributes).
            if str_eq (invoice_id_for order.order_id) k
            then updated (invoice_update environ order now) old a
            else old a)
          (ordered-invoices c k)

  invoiced-customers :
      (c : Contents) (k : String)
      → invoiced c (name environ customers) k ≡ c (name environ customers) k
  invoiced-customers c k = fun_ext λ a.
      after_update_ne (ordered c) (invoice_update environ order now) _ k a
        config.invoices_ne_customers
      ∙ after_update_ne c (order_update environ order now) _ k a config.orders_ne_customers

  -- The customers table likewise, at the order's customer.
  pub after-customers :
      (c : Contents) (k a : String)
      → after c (name environ customers) k a ≡ (
          if str_eq order.customer_id k
          then updated (customer_update environ order now) (c (name environ customers) k) a
          else c (name environ customers) k a)
  unfolding after_updates transaction
  after-customers c k a =
      after_update_same (invoiced c) (customer_update environ order now) k a
      ∙ ap
          (λ (old : Attributes).
            if str_eq order.customer_id k
            then updated (customer_update environ order now) old a
            else old a)
          (invoiced-customers c k)

  pub after-orders_self :
      (c : Contents)
      → after c (name environ orders) order.order_id
        ≡ updated (order_update environ order now) (c (name environ orders) order.order_id)
  after-orders_self c = fun_ext λ a. after-orders c order.order_id a ∙ rw (eq_refl order.order_id)

  pub after-orders_ne :
      (c : Contents) (id : String)
      → order.order_id ≢ id
      → after c (name environ orders) id ≡ c (name environ orders) id
  after-orders_ne c id h =
      fun_ext λ a. after-orders c id a ∙ rw (str_eq-eq_false order.order_id id h)

  pub after-invoices_self :
      (c : Contents)
      → let k = invoice_id_for order.order_id in
        after c (name environ invoices) k
        ≡ updated (invoice_update environ order now) (c (name environ invoices) k)
  after-invoices_self c =
      let k = invoice_id_for order.order_id in fun_ext λ a. after-invoices c k a ∙ rw (eq_refl k)

  pub after-invoices_ne :
      (c : Contents) (k : String)
      → invoice_id_for order.order_id ≢ k
      → after c (name environ invoices) k ≡ c (name environ invoices) k
  after-invoices_ne c k h =
      fun_ext λ a. after-invoices c k a ∙ rw (str_eq-eq_false (invoice_id_for order.order_id) k h)
