-- ===== src/Erp/History.antt =====
-- Any number of workers at once: every interleaving of their transactions, whatever each one's
-- outcome, keeps the invariants of the tables. Only erp/writer.py writes to them.
use mathlib.Core.Path.{subst, fun_ext}
use salesforce_erp_sync.Common.{
  String, ◌≡◌, refl, ◌≢◌, ◌∙◌, sym, ap, true, Option, none, some, arith, inl, inr, str_eq, eq_iff,
  eq_refl, Bool-cases, Dict, ℤ, ◌≤ℤ◌, eq_of_parts,
}
use salesforce_erp_sync.Outcome.{Outcome, ok, raised}
use salesforce_erp_sync.Aws.Client.{Aws}
use salesforce_erp_sync.Aws.Dynamo.{Contents, Attributes, SameContents, Applied, IsDynamo}
use salesforce_erp_sync.Erp.Schema.{
  name, orders, invoices, invoice_id_for, invoice_id_for_injective,
}
use salesforce_erp_sync.Erp.Writer.{Order, transaction, write_order}
use salesforce_erp_sync.Erp.Effect.{IsConfig, after, after-orders_ne, after-invoices_ne}
use salesforce_erp_sync.Erp.Versions.{
  IsOrderItem, accepts, IsOrderTable, set_version, after-IsOrderTable,
}
use salesforce_erp_sync.Erp.Sync.{InSync, after-InSync, SameContents-InSync}
use salesforce_erp_sync.Erp.Reading.{on_error-Kept}
use salesforce_erp_sync.Erp.Refinement.{Applied-accepts}

-- The order of versions; a missing order is below every version.
abbrev pub AtMost : Option ℤ → Option ℤ → Type 0
AtMost none v = Unit
AtMost (some u) none = ⊥
AtMost (some u) (some v) = u ≤ℤ v

pub AtMost-refl : (u : Option ℤ) → AtMost u u
AtMost-refl none = tt
AtMost-refl (some u) = omega arith

pub AtMost-trans : (u v x : Option ℤ) → AtMost u v → AtMost v x → AtMost u x
AtMost-trans none v x p q = tt
AtMost-trans (some u) none x p q = absurd p
AtMost-trans (some u) (some v) none p q = absurd q
AtMost-trans (some u) (some v) (some x) p q = omega arith

pub AtMost-antisymm : (u v : Option ℤ) → AtMost u v → AtMost v u → u ≡ v
AtMost-antisymm none none p q = refl
AtMost-antisymm none (some v) p q = absurd q
AtMost-antisymm (some u) none p q = absurd p
AtMost-antisymm (some u) (some v) p q = ground (arith, eq_of_parts u v)

accepts-AtMost : (u : Option ℤ) (v : ℤ) → accepts u v ≡ true → AtMost u (some v)
accepts-AtMost none v h = tt
accepts-AtMost (some u) v h = ground arith

accepts-ne : (u : Option ℤ) (v : ℤ) → accepts u v ≡ true → some v ≢ u
accepts-ne none v h e = cc
accepts-ne (some u) v h e = ground arith

module _ (environ : Dict String) where
  -- From contents with the versions `f` to contents with the versions `g`: no version goes back, and
  -- a deal whose version stays keeps every attribute of its order and of its invoice.
  pub record Advances (c c' : Contents) (f g : String → Option ℤ) : Type 0 where
    pub forward : (id : String) → AtMost (f id) (g id)
    pub fixed :
        (id : String)
        → g id ≡ f id
        → (a : String)
        → (c' (name environ orders) id a ≡ c (name environ orders) id a)
          × (c' (name environ invoices) (invoice_id_for id) a
              ≡ c (name environ invoices) (invoice_id_for id) a)

  Same-Advances : (c c' : Contents) (f : String → Option ℤ) → SameContents c c' → Advances c c' f f
  Same-Advances c c' f same = record {
    forward = λ id. AtMost-refl (f id);
    fixed = λ id e a. (same _ _ a, same _ _ a);
  }

  Advances-trans :
      {c c' c'' : Contents} {f g h : String → Option ℤ}
      → Advances c c' f g
      → Advances c' c'' g h
      → Advances c c'' f h
  Advances-trans {f = f} {g = g} {h = h} p q = record {
    forward = λ id. AtMost-trans (f id) (g id) (h id) (p.forward id) (q.forward id);
    fixed = λ id e a.
        let stays : g id ≡ f id =
          AtMost-antisymm (g id) (f id) (subst (λ x. AtMost (g id) x) e (q.forward id))
            (p.forward id) in
        let first = p.fixed id stays a in
        let second = q.fixed id (e ∙ sym stays) a in (second.0 ∙ first.0, second.1 ∙ first.1);
  }

module _ (environ : Dict String) (config : IsConfig environ) (order : Order) (now : String) where
  set_version-AtMost :
      (f : String → Option ℤ) (id : String)
      → accepts (f order.order_id) order.version ≡ true
      → AtMost (f id) (set_version f order.order_id order.version id)
  set_version-AtMost f id h = elim (Bool-cases (str_eq order.order_id id)) [
    | inl same ↦ rw same (
        subst (λ i. AtMost (f i) (some order.version)) ((eq_iff order.order_id id).0 same)
          (accepts-AtMost (f order.order_id) order.version h))
    | inr differs ↦ rw differs (AtMost-refl (f id))
  ]

  -- A version that stays is another deal's.
  set_version_ne :
      (f : String → Option ℤ) (id : String)
      → accepts (f order.order_id) order.version ≡ true
      → set_version f order.order_id order.version id ≡ f id
      → order.order_id ≢ id
  set_version_ne f id h e same = accepts-ne (f order.order_id) order.version h (
      let here = subst (λ i. set_version f order.order_id order.version i ≡ f i) (sym same) e in
      rw (eq_refl order.order_id) at here)

  after-Advances :
      (c : Contents) (f : String → Option ℤ)
      → accepts (f order.order_id) order.version ≡ true
      → Advances environ c
          (after environ config order now c)
          f
          (set_version f order.order_id order.version)
  after-Advances c f h = record {
    forward = λ id. set_version-AtMost f id h;
    fixed = λ id e a.
        let other = set_version_ne f id h e in
        (
          ap (λ (old : Attributes). old a) (after-orders_ne environ config order now c id other),
          ap (λ (old : Attributes). old a)
              (after-invoices_ne environ config order now c (invoice_id_for id)
                (λ same. other (invoice_id_for_injective order.order_id id same))),
        );
  }

module _ (aws : Aws) (environ : Dict String) where
  open aws use {World, transact_write_items, stored}

  -- One atomic action on the world: a transaction of some worker, or anything that leaves the tables.
  pub data Step (w w' : World) : Type 0 where
    transacts :
        (order : Order) (now : String)
        → w' ≡ (transact_write_items (transaction environ order now) w).1
        → Step w w'
    outside : SameContents (stored w) (stored w') → Step w w'

  pub data Reach (w : World) : World → Type 0 where
    here : Reach w w
    next : {w' w'' : World} → Reach w w' → Step w' w'' → Reach w w''

  module _ (d : IsDynamo aws) (order : Order) (now : String) (w : World) where
    abbrev attempted : Outcome (Unit {0}) × World
    attempted = transact_write_items (transaction environ order now) w

    attempted-Reach :
        (out : Outcome (Unit {0}))
        → attempted.0 ≡ out
        → Reach w (write_order aws environ order now w).1
    unfolding write_order
    attempted-Reach (ok u) e = rw e (next here (transacts order now refl))
    attempted-Reach (raised x) e = rw e (
        next (next here (transacts order now refl))
          (outside (on_error-Kept aws environ d order x attempted.1)))

    -- A call of `write_order` is such a history, whatever it returns.
    pub write_order-Reach : Reach w (write_order aws environ order now w).1
    write_order-Reach = attempted-Reach attempted.0 refl

  -- The tables hold orders of the versions `f`, each with its invoice.
  pub record IsConsistent (w : World) (f : String → Option ℤ) : Type 0 where
    pub versions : IsOrderTable environ (stored w) f
    pub in_sync : InSync environ (stored w)

pub SameContents-IsOrderTable :
    (environ : Dict String) (c c' : Contents) (f : String → Option ℤ)
    → SameContents c c'
    → IsOrderTable environ c f
    → IsOrderTable environ c' f
SameContents-IsOrderTable environ c c' f same h id =
    subst (λ old. IsOrderItem id old (f id)) (sym (fun_ext (same (name environ orders) id))) (h id)

module _ (aws : Aws) (environ : Dict String) (d : IsDynamo aws) (config : IsConfig environ) where
  open aws use {World, transact_write_items, stored}

  abbrev Onwards : World → World → (String → Option ℤ) → Type 0
  Onwards w w' f =
      (g : String → Option ℤ) × IsConsistent aws environ w' g
      × Advances environ (stored w) (stored w') f g

  Same-Onwards :
      (w w' : World) (f : String → Option ℤ)
      → SameContents (stored w) (stored w')
      → IsConsistent aws environ w f
      → Onwards w w' f
  Same-Onwards w w' f same h = (
    f,
    record {
      versions = SameContents-IsOrderTable environ (stored w) (stored w') f same h.versions;
      in_sync = SameContents-InSync environ (stored w) (stored w') same h.in_sync;
    },
    Same-Advances environ (stored w) (stored w') f same,
  )

  transacts-Onwards :
      (order : Order) (now : String) (w w' : World) (f : String → Option ℤ)
      → Applied aws (transaction environ order now) w w'
      → IsConsistent aws environ w f
      → Onwards w w' f
  transacts-Onwards order now w w' f done h =
      let c = after environ config order now (stored w) in
      let g = set_version f order.order_id order.version in
      let (accepted, same) =
        Applied-accepts aws environ d config order now (f order.order_id) w
          (h.versions order.order_id) w' done in
      (
        g,
        record {
          versions =
              SameContents-IsOrderTable environ c (stored w') g same
                (after-IsOrderTable environ config order now (stored w) f h.versions);
          in_sync =
              SameContents-InSync environ c (stored w') same
                (after-InSync environ config order now (stored w) h.in_sync);
        },
        Advances-trans environ (after-Advances environ config order now (stored w) f accepted)
            (Same-Advances environ c (stored w') g same),
      )

  Step-Onwards :
      (w w' : World) (f : String → Option ℤ)
      → Step aws environ w w'
      → IsConsistent aws environ w f
      → Onwards w w' f
  Step-Onwards w w' f (transacts order now e) h =
      elim (d.atomic (transaction environ order now) w) [
        | inl same ↦ Same-Onwards w w' f (rw e same) h
        | inr done ↦ transacts-Onwards order now w w' f (rw e done) h
      ]
  Step-Onwards w w' f (outside same) h = Same-Onwards w w' f same h

  -- From consistent tables, every history of transactions, in any interleaving and with any outcomes,
  -- leads to consistent tables: each order has its invoice in step, no version goes back, and a deal
  -- whose version stays keeps every attribute of its order and of its invoice.
  pub Reach-Onwards :
      {w w' : World} (f : String → Option ℤ)
      → IsConsistent aws environ w f
      → Reach aws environ w w'
      → (g : String → Option ℤ) × IsConsistent aws environ w' g
        × Advances environ (stored w) (stored w') f g
  Reach-Onwards {w} f h here = Same-Onwards w w f (λ t k a. refl) h
  Reach-Onwards f h (next {w' = u} {w'' = x} r step) =
      let (g, consistent, past) = Reach-Onwards f h r in
      let (g', consistent', last) = Step-Onwards u x g step consistent in
      (g', consistent', Advances-trans environ past last)
