-- ===== src/Erp/Reading.antt =====
-- `_classify` of erp/writer.py: what a failed transaction is read as.
use salesforce_erp_sync.Common.{
  String, ◌≡◌, refl, ◌∙◌, sym, Option, none, some, List, [], ◌∷◌, arith, str_eq, Dict, lookup, ℤ,
  inl, inr, Bool-cases,
}
use salesforce_erp_sync.Python.Decimal.{of_int, to_int-of_int}
use salesforce_erp_sync.Outcome.{Exn, Outcome, ok, client_error}
use salesforce_erp_sync.Exec.{continue-lift, continue-lift_ok}
use salesforce_erp_sync.Aws.Types.{AttributeValue, n, Item, Reason}
use salesforce_erp_sync.Aws.Client.{Aws}
use salesforce_erp_sync.Aws.Dynamo.{SameContents, IsDynamo, is_cancelled}
use salesforce_erp_sync.Erp.Schema.{name, orders}
use salesforce_erp_sync.Erp.Writer.{
  WriteResult, Order, version_number, stored_version, settle, read_as, read_order, stored_order,
  check_failed, classify_cancelled, classify, on_error, reason_code,
}

module _ (aws : Aws) (environ : Dict String) (d : IsDynamo aws) (order : Order) where
  open aws use {World, get_item, stored}

  abbrev pub Kept : {A : Type 0} → World → Outcome A × World → Type 0
  Kept w r = SameContents (stored w) (stored r.1)

  read_order-Kept : (w : World) → Kept w (read_order aws environ order.order_id w)
  unfolding read_order
  read_order-Kept w = d.read_only (name environ orders) "order_id" order.order_id w

  stored_order-Kept :
      (item : Option Item) (w : World) → Kept w (stored_order aws environ order.order_id item w)
  unfolding stored_order
  stored_order-Kept none w = read_order-Kept w
  stored_order-Kept (some []) w = read_order-Kept w
  stored_order-Kept (some (a ∷ rest)) w = λ t k b. refl

  check_failed-Kept :
      (item : Option Item) (w : World) → Kept w (check_failed aws environ order item w)
  unfolding check_failed
  check_failed-Kept item w =
      let after = stored_order aws environ order.order_id item w in
      rw (continue-lift after.0 (read_as order) after.1) (stored_order-Kept item w)

  classify_cancelled-Kept :
      (rs : List Reason) (w : World) → Kept w (classify_cancelled aws environ order rs w)
  unfolding classify_cancelled
  classify_cancelled-Kept [] w = λ t k b. refl
  classify_cancelled-Kept (r ∷ rest) w =
      elim (Bool-cases (str_eq (reason_code r) "ConditionalCheckFailed")) [
        | inl failed ↦ rw failed (check_failed-Kept r.item w)
        | inr otherwise ↦ rw otherwise (λ t k b. refl)
      ]

  -- Reading a failed transaction changes no table.
  pub on_error-Kept : (e : Exn) (w : World) → Kept w (on_error aws environ order e w)
  unfolding on_error classify
  on_error-Kept (client_error e) w = elim (Bool-cases (is_cancelled e)) [
    | inl yes_ ↦ rw yes_ (classify_cancelled-Kept e.reasons w)
    | inr no_ ↦ rw no_ (λ t k b. refl)
  ]
  on_error-Kept _ w = λ t k b. refl

-- An item that agrees with the stored attributes, if there is one.
abbrev pub Shows : Option Item → (String → Option AttributeValue) → Type 0
Shows item attributes = (it : Item) → item ≡ some it → (a : String) → lookup a it ≡ attributes a

version_number-of_int : (v : ℤ) → version_number (some (n (of_int v))) ≡ ok v
unfolding version_number
version_number-of_int v = ground (arith, to_int-of_int v)

stored_version_lem :
    (it : Item) (v : ℤ)
    → lookup "version" it ≡ some (n (of_int v))
    → stored_version (some it) ≡ ok v
unfolding stored_version
stored_version_lem [] v h = cc
stored_version_lem (a ∷ rest) v h = rw h (version_number-of_int v)

ok_inj : {a b : Option Item} → ok a ≡ ok b → a ≡ b
ok_inj h = cc

read_as-settle :
    (order : Order) (st : Option Item) (v : ℤ)
    → stored_version st ≡ ok v
    → read_as order st ≡ settle v order.version
unfolding read_as
read_as-settle order st v h = rw h

module _ (aws : Aws) (environ : Dict String) (d : IsDynamo aws) (order : Order) where
  open aws use {World, get_item, stored}

  module _ (w : World) (v : ℤ)
      (here : stored w (name environ orders) order.order_id "version" ≡ some (n (of_int v))) where
    read_order-version :
        (st : Option Item)
        → (read_order aws environ order.order_id w).0 ≡ ok st
        → stored_version st ≡ ok v
    unfolding read_order
    read_order-version none e = cc (d.reads_none _ "order_id" order.order_id w e "version", here)
    read_order-version (some it) e =
        stored_version_lem it v (d.reads _ "order_id" order.order_id w it e "version" ∙ here)

    stored_order-version :
        (item st : Option Item)
        → Shows item (stored w (name environ orders) order.order_id)
        → (stored_order aws environ order.order_id item w).0 ≡ ok st
        → stored_version st ≡ ok v
    unfolding stored_order
    stored_order-version none st shows e = read_order-version st e
    stored_order-version (some []) st shows e = read_order-version st e
    stored_order-version (some (a ∷ rest)) st shows e =
        rw (sym (ok_inj e)) (stored_version_lem (a ∷ rest) v (shows _ refl "version" ∙ here))

    pub check_failed-settle :
        (item : Option Item) (r : WriteResult)
        → Shows item (stored w (name environ orders) order.order_id)
        → (check_failed aws environ order item w).0 ≡ ok r
        → settle v order.version ≡ ok r
    unfolding check_failed
    check_failed-settle item r shows e =
        let after = stored_order aws environ order.order_id item w in
        let (st, p, q) = continue-lift_ok after.0 (read_as order) after.1 e in
        sym (read_as-settle order st v (stored_order-version item st shows p)) ∙ q
