-- ===== src/Erp/Convergence.antt =====
-- Deliveries of orders to `write_order`, with duplicates and out of order, as a queue makes them.
use mathlib.Core.Path.{subst}
use salesforce_erp_sync.Common.{
  String, ◌≡◌, refl, ◌∙◌, sym, ap, true, Option, none, some, List, [], ◌∷◌, arith, ◌↔◌, inl, inr,
  str_eq, eq_iff, Bool-cases, ℤ, ◌<ℤ◌, Dict, map,
}
use salesforce_erp_sync.Python.Decimal.{of_int}
use salesforce_erp_sync.Outcome.{ok}
use salesforce_erp_sync.Aws.Types.{AttributeValue, n}
use salesforce_erp_sync.Aws.Client.{Aws}
use salesforce_erp_sync.Aws.Dynamo.{Contents, Attributes, IsDynamo}
use salesforce_erp_sync.Erp.Schema.{name, orders}
use salesforce_erp_sync.Erp.Writer.{Order, WriteResult, written, duplicate, stale, write_order}
use salesforce_erp_sync.Erp.Effect.{IsConfig}
use salesforce_erp_sync.Erp.Versions.{
  IsOrderItem, absent, present, accepts, IsOrderTable, set_version, after-IsOrderTable,
}
use salesforce_erp_sync.Erp.History.{SameContents-IsOrderTable}
use salesforce_erp_sync.Erp.Refinement.{Agrees, write_order-Agrees}
use salesforce_erp_sync.Erp.Newest.{newer, raise_to, newest, Delivered, newest_same}

-- An order and the time of its delivery.
abbrev pub Delivery : Type 0
Delivery = Order × String

module _ (aws : Aws) (environ : Dict String) where
  open aws use {World, stored}

  -- The world after each delivery has gone through `write_order`.
  unfoldable pub deliver : List Delivery → World → World
  deliver [] w = w
  deliver ((o, now) ∷ ds) w = deliver ds (write_order aws environ o now w).1

  -- Every delivery ended in a result, so that the worker acknowledged it.
  abbrev pub AllAcked : List Delivery → World → Type 0
  AllAcked [] w = Unit
  AllAcked ((o, now) ∷ ds) w =
      ((r : WriteResult) × ((write_order aws environ o now w).0 ≡ ok r))
      × AllAcked ds (write_order aws environ o now w).1

-- On an acknowledged delivery the specification raises the version.
accepted_raise :
    (f : String → Option ℤ) (o : Order)
    → accepts (f o.order_id) o.version ≡ true
    → (id : String) → set_version f o.order_id o.version id ≡ raise_to f o id
accepted_raise f o h id = elim (Bool-cases (str_eq o.order_id id)) [
  | inl same ↦ rw same (
      newer_of (f id)
        (subst (λ i. accepts (f i) o.version ≡ true) ((eq_iff o.order_id id).0 same) h))
  | inr differs ↦ rw differs
]
  where
    newer_of : (u : Option ℤ) → accepts u o.version ≡ true → some o.version ≡ newer u o.version
    newer_of none a = refl
    newer_of (some u) a = rw a

kept_raise :
    (f : String → Option ℤ) (o : Order) (u : ℤ)
    → f o.order_id ≡ some u
    → newer (some u) o.version ≡ some u
    → (id : String) → f id ≡ raise_to f o id
kept_raise f o u here keeps id = elim (Bool-cases (str_eq o.order_id id)) [
  | inl same ↦
      let e = subst (λ i. f i ≡ some u) ((eq_iff o.order_id id).0 same) here in
      rw (same, e) (sym keeps)
  | inr differs ↦ rw differs
]

newer_self : (u : ℤ) → newer (some u) u ≡ some u
newer_self u = ground arith

newer_older : (u v : ℤ) → v <ℤ u → newer (some u) v ≡ some u
newer_older u v h = ground arith

-- The attribute that holds a version.
abbrev pub version_attribute : Option ℤ → Option AttributeValue
version_attribute none = none
version_attribute (some v) = some (n (of_int v))

relabel :
    (environ : Dict String) (c : Contents) {f g : String → Option ℤ}
    → ((id : String) → f id ≡ g id)
    → IsOrderTable environ c f
    → IsOrderTable environ c g
relabel environ c same h id =
    subst (λ v. IsOrderItem id (c (name environ orders) id) v) (same id) (h id)

pub IsOrderItem-version :
    {id : String} {old : Attributes} {v : Option ℤ}
    → IsOrderItem id old v
    → old "version" ≡ version_attribute v
IsOrderItem-version (absent p q) = q
IsOrderItem-version (present v p q) = q

module _ (aws : Aws) (environ : Dict String) (d : IsDynamo aws) (config : IsConfig environ) where
  open aws use {World, stored}

  acked_raises :
      (o : Order) (now : String) (f : String → Option ℤ) (w : World) (r : WriteResult)
      → (w' : World) → Agrees aws environ d config o now (f o.order_id) w (ok r, w')
      → IsOrderTable environ (stored w) f
      → IsOrderTable environ (stored w') (raise_to f o)
  acked_raises o now f w written w' (accepted, same) h =
      relabel environ (stored w') (accepted_raise f o accepted) (
        SameContents-IsOrderTable environ _ (stored w') _ same
          (after-IsOrderTable environ config o now (stored w) f h))
  acked_raises o now f w duplicate w' (here, same) h =
      relabel environ (stored w') (kept_raise f o o.version here (newer_self o.version))
        (SameContents-IsOrderTable environ _ (stored w') _ same h)
  acked_raises o now f w stale w' ((u, here, older), same) h =
      relabel environ (stored w') (kept_raise f o u here (newer_older u o.version older))
        (SameContents-IsOrderTable environ _ (stored w') _ same h)

  -- Acknowledged deliveries leave each deal at the newest version delivered.
  pub deliver-IsOrderTable :
      (ds : List Delivery) (f : String → Option ℤ) (w : World)
      → IsOrderTable environ (stored w) f
      → AllAcked aws environ ds w
      → IsOrderTable environ (stored (deliver aws environ ds w)) (newest f (map (λ d. d.0) ds))
  unfolding deliver newest
  deliver-IsOrderTable [] f w h acked = h
  deliver-IsOrderTable ((o, now) ∷ ds) f w h ((r, e), acked) =
      let result = write_order-Agrees aws environ d config o now (f o.order_id) w (h o.order_id) in
      let w' = (write_order aws environ o now w).1 in
      deliver-IsOrderTable ds (raise_to f o) w'
        (acked_raises o now f w r w'
          (subst (λ out. Agrees aws environ d config o now (f o.order_id) w (out, w')) e result) h)
        acked

  -- Two queues that deliver the same versions, in any order and any number of times, leave every deal
  -- at the same stored version, if each delivery was acknowledged.
  pub deliver_converges :
      (ds ds' : List Delivery) (f : String → Option ℤ) (w : World)
      → IsOrderTable environ (stored w) f
      → AllAcked aws environ ds w
      → AllAcked aws environ ds' w
      → ((id : String) (v : ℤ)
          → Delivered id v (map (λ d. d.0) ds) ↔ Delivered id v (map (λ d. d.0) ds'))
      → (id : String)
      → stored (deliver aws environ ds w) (name environ orders) id "version"
        ≡ stored (deliver aws environ ds' w) (name environ orders) id "version"
  deliver_converges ds ds' f w h acked acked' same id =
      IsOrderItem-version (deliver-IsOrderTable ds f w h acked id)
      ∙ ap version_attribute (newest_same f _ _ same id)
      ∙ sym (IsOrderItem-version (deliver-IsOrderTable ds' f w h acked' id))
