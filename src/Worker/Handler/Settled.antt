-- ===== src/Worker/Handler/Settled.antt =====
-- An acknowledged record is never lost: worker/app.py reports every other one.
use mathlib.Core.Path.{subst}
use salesforce_erp_sync.Common.{String, ◌≡◌, ◌∙◌, sym, ap, Option, none, some, Dict, ℤ, ◌≤ℤ◌, arith}
use salesforce_erp_sync.Python.Decimal.{of_int, to_int, to_int-of_int}
use salesforce_erp_sync.Outcome.{ok}
use salesforce_erp_sync.Exec.{lift}
use salesforce_erp_sync.Exec.Keeps.{bind_ok}
use salesforce_erp_sync.Aws.Types.{n}
use salesforce_erp_sync.Aws.Client.{Aws, Message}
use salesforce_erp_sync.Aws.Dynamo.{Attributes, IsDynamo}
use salesforce_erp_sync.Aws.Services.{IsServices}
use salesforce_erp_sync.Erp.Schema.{name, orders}
use salesforce_erp_sync.Erp.Writer.{Order, WriteResult, written, duplicate, stale, write_order}
use salesforce_erp_sync.Erp.Effect.{IsConfig, after-orders_self}
use salesforce_erp_sync.Erp.Versions.{IsOrderItem, present, updated_version}
use salesforce_erp_sync.Erp.Refinement.{Agrees, write_order-Agrees}
use salesforce_erp_sync.Erp.Convergence.{version_attribute, IsOrderItem-version}
use salesforce_erp_sync.Erp.History.{AtMost, AtMost-trans, Reach, Reach-Onwards, IsConsistent}
use salesforce_erp_sync.Worker.Mapping.{Builtins}
use salesforce_erp_sync.Worker.App.{Settings, SqsRecord}
use salesforce_erp_sync.Worker.Handler.{order_of, process}
use salesforce_erp_sync.Worker.Chaos.{Chaos, maybe_fail_erp}
use salesforce_erp_sync.Worker.Handler.Moves.{maybe_fail_erp-Goes}
use salesforce_erp_sync.Worker.Handler.Effects.{Goes, Goes-IsPreorder, Quiet-Goes}

-- The orders table holds a version of the deal that is at least `v`.
pub record HasVersion (aws : Aws) (environ : Dict String) (w : aws.World) (id : String) (v : ℤ)
    : Type 0 where
  pub held : ℤ
  pub stored : aws.stored w (name environ orders) id "version" ≡ some (n (of_int held))
  pub at_least : v ≤ℤ held

IsOrderItem-HasVersion :
    (aws : Aws) (environ : Dict String) (w : aws.World) (id : String) (v : ℤ) (u : Option ℤ)
    → IsOrderItem id (aws.stored w (name environ orders) id) u
    → AtMost (some v) u
    → HasVersion aws environ w id v
IsOrderItem-HasVersion aws environ w id v none item h = absurd h
IsOrderItem-HasVersion aws environ w id v (some u) (present _ p q) h = record {
  held = u;
  stored = q;
  at_least = h;
}

version_attribute_inj :
    (u : Option ℤ) (v : ℤ) → version_attribute u ≡ some (n (of_int v)) → u ≡ some v
version_attribute_inj none v e = cc
version_attribute_inj (some u) v e =
    let same : of_int u ≡ of_int v = cc e in
    sym (to_int-of_int u) ∙ ap to_int same ∙ to_int-of_int v

module _ (aws : Aws) (environ : Dict String) (d : IsDynamo aws) (config : IsConfig environ) where
  open aws use {World, stored}

  -- Each result of `write_order` leaves a version that is no older than the order's.
  result-HasVersion :
      (order : Order) (now : String) (v : Option ℤ) (w w' : World) (r : WriteResult)
      → IsOrderItem order.order_id (stored w (name environ orders) order.order_id) v
      → Agrees aws environ d config order now v w (ok r, w')
      → HasVersion aws environ w' order.order_id order.version
  result-HasVersion order now v w w' written item (accepted, same) = record {
    held = order.version;
    stored =
        same _ _ "version"
        ∙ ap (λ (old : Attributes). old "version")
            (after-orders_self environ config order now (stored w))
        ∙ IsOrderItem-version (updated_version environ order now _);
    at_least = omega arith;
  }
  result-HasVersion order now v w w' duplicate item (found, same) = record {
    held = order.version;
    stored = same _ _ "version" ∙ IsOrderItem-version item ∙ ap version_attribute found;
    at_least = omega arith;
  }
  result-HasVersion order now v w w' stale item ((u, found, older), same) = record {
    held = u;
    stored = same _ _ "version" ∙ IsOrderItem-version item ∙ ap version_attribute found;
    at_least = omega arith;
  }

  write_order-HasVersion :
      (order : Order) (now : String) (f : String → Option ℤ) (w : World) (r : WriteResult)
      → IsConsistent aws environ w f
      → (write_order aws environ order now w).0 ≡ ok r
      → HasVersion aws environ (write_order aws environ order now w).1 order.order_id order.version
  write_order-HasVersion order now f w r h e =
      let item = h.versions order.order_id in
      let w' = (write_order aws environ order now w).1 in
      result-HasVersion order now (f order.order_id) w w' r item (
        subst (λ out. Agrees aws environ d config order now (f order.order_id) w (out, w')) e
          (write_order-Agrees aws environ d config order now (f order.order_id) w item))

  -- A version that is held stays held, or a newer one comes.
  HasVersion-later :
      (f : String → Option ℤ) (w w' : World) (id : String) (v : ℤ)
      → IsConsistent aws environ w f
      → Reach aws environ w w'
      → HasVersion aws environ w id v
      → HasVersion aws environ w' id v
  HasVersion-later f w w' id v h r old =
      let (g, consistent, past) = Reach-Onwards aws environ d config f h r in
      let before =
        version_attribute_inj (f id) old.held
          (sym (IsOrderItem-version (h.versions id)) ∙ old.stored) in
      IsOrderItem-HasVersion aws environ w' id v (g id) (consistent.versions id) (
        AtMost-trans (some v) (some old.held) (g id) old.at_least
          (subst (λ u. AtMost u (g id)) before (past.forward id)))

-- The record's order is in the table, at its version or a newer one; or a message with its body was
-- accepted by the queue it was sent to.
pub data Settled (aws : Aws) (environ : Dict String) (py : Builtins) (r : SqsRecord) (w : aws.World)
    : Type 0 where
  in_table :
      (order : Order)
      → order_of py r ≡ ok order
      → HasVersion aws environ w order.order_id order.version
      → Settled aws environ py r w
  in_queue : (m : Message) → m.body ≡ r.body → aws.accepted w m → Settled aws environ py r w

module _ {aws : Aws} (py : Builtins) (set : Settings) (s : IsServices aws) (d : IsDynamo aws)
    (config : IsConfig set.environ) where
  open aws use {World, stored}

  pub Settled-later :
      (r : SqsRecord) (f : String → Option ℤ) (w w' : World)
      → IsConsistent aws set.environ w f
      → Goes aws set.environ w w'
      → Settled aws set.environ py r w
      → Settled aws set.environ py r w'
  Settled-later r f w w' h g (in_table order e held) = in_table order e (
      HasVersion-later aws set.environ d config f w w' order.order_id order.version h g.history
        held)
  Settled-later r f w w' h g (in_queue m e accepted) = in_queue m e (g.mail m accepted)

  pub IsConsistent-later :
      (f : String → Option ℤ) (w w' : World)
      → IsConsistent aws set.environ w f
      → Goes aws set.environ w w'
      → (g : String → Option ℤ) × IsConsistent aws set.environ w' g
  IsConsistent-later f w w' h g =
      let (f', h', past) = Reach-Onwards aws set.environ d config f h g.history in (f', h')

  -- A result of `process` is that of `write_order` on the record's order.
  process_ok :
      (r : SqsRecord) (chaos : Chaos) (w : World) {result : WriteResult}
      → (process aws set py r chaos w).0 ≡ ok result
      → (order : Order) × (now : String) × (w' : World) × (order_of py r ≡ ok order)
        × Goes aws set.environ w w'
        × (process aws set py r chaos w ≡ write_order aws set.environ order now w')
  unfolding process
  process_ok r chaos w h =
      let (order, is_order, same) = bind_ok (lift (order_of py r)) _ w h in
      let (u, passed, same') =
        bind_ok (maybe_fail_erp aws chaos) _ w (sym (ap (λ x. x.0) same) ∙ h) in
      let w₁ = (maybe_fail_erp aws chaos w).1 in
      let w₂ = (aws.now_iso w₁).1 in
      (
        order,
        (aws.now_iso w₁).0,
        w₂,
        is_order,
        (Goes-IsPreorder aws set.environ).chain ((maybe_fail_erp-Goes py set s chaos).kept w)
            (Quiet-Goes aws set.environ (s.now_quiet w₁)),
        same ∙ same',
      )

  pub process-Settled :
      (r : SqsRecord) (chaos : Chaos) (f : String → Option ℤ) (w : World) {result : WriteResult}
      → IsConsistent aws set.environ w f
      → (process aws set py r chaos w).0 ≡ ok result
      → Settled aws set.environ py r (process aws set py r chaos w).1
  process-Settled r chaos f w h e =
      let (order, now, w', is_order, before, same) = process_ok r chaos w e in
      let (g, h') = IsConsistent-later f w w' h before in
      subst (Settled aws set.environ py r) (sym (ap (λ x. x.1) same)) (
        in_table order is_order (
          write_order-HasVersion aws set.environ d config order now g w' _ h'
            (sym (ap (λ x. x.0) same) ∙ e)))
