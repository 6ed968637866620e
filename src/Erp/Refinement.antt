-- ===== src/Erp/Refinement.antt =====
-- `write_order` of erp/writer.py against its specification: a deal's version only moves forward, and
-- the result says what the attempt found.
use salesforce_erp_sync.Common.{
  String, ◌≡◌, refl, ◌∙◌, sym, Bool, true, false, ◌&&◌, Option, none, some, List, [], ◌∷◌, ap,
  arith, str_eq, eq_iff, Dict, or_default, ℤ, ◌<ℤ◌, ◌⊎◌, inl, inr, Bool-cases,
}
use salesforce_erp_sync.Python.Decimal.{of_int}
use salesforce_erp_sync.Outcome.{Exn, Outcome, ok, raised, client_error, raised-ne-ok}
use salesforce_erp_sync.Aws.Types.{n, ClientError, Reason}
use salesforce_erp_sync.Aws.Client.{Aws}
use salesforce_erp_sync.Aws.Dynamo.{
  Attributes, Contents, SameContents, Applied, IsDynamo, is_cancelled, first_code, first_item,
  passes, all_pass,
}
use salesforce_erp_sync.Erp.Schema.{name, orders}
use salesforce_erp_sync.Erp.Writer.{
  WriteResult, written, duplicate, stale, Order, settle, order_update, transaction, check_failed,
  classify_cancelled, classify, on_error, reason_code, write_order,
}
use salesforce_erp_sync.Erp.Effect.{IsConfig, after}
use salesforce_erp_sync.Erp.Versions.{IsOrderItem, absent, present, accepts, passes-eq-accepts}
use salesforce_erp_sync.Erp.Reading.{on_error-Kept, check_failed-settle}

-- What a comparison of the stored version with the incoming one returns.
settle_lem :
    (v incoming : ℤ) (r : WriteResult)
    → settle v incoming ≡ ok r
    → ((r ≡ duplicate) × (v ≡ incoming)) ⊎ ((r ≡ stale) × (incoming <ℤ v))
unfolding settle
settle_lem v incoming r h = ground (arith)

code_of :
    (o : Option String)
    → str_eq (or_default o "None") "ConditionalCheckFailed" ≡ true
    → o ≡ some "ConditionalCheckFailed"
code_of none h = cc
code_of (some c) h = ap some ((eq_iff c "ConditionalCheckFailed").0 h)

and_true : (b : Bool) → (b && true) ≡ b
and_true true = refl
and_true false = refl

-- The only condition of the transaction is the order's.
all_pass-transaction :
    (environ : Dict String) (order : Order) (now : String) (c : Contents)
    → all_pass c (transaction environ order now) ≡ passes c (order_update environ order now)
unfolding all_pass transaction
all_pass-transaction environ order now c = and_true (passes c (order_update environ order now))

-- A refusing item is there, with its version.
refusing_item :
    {id : String} {old : Attributes} {v : Option ℤ} (incoming : ℤ) (r : WriteResult)
    → IsOrderItem id old v
    → accepts v incoming ≡ false
    → ((u : ℤ) → old "version" ≡ some (n (of_int u)) → settle u incoming ≡ ok r)
    → (u : ℤ) × (v ≡ some u) × (settle u incoming ≡ ok r)
refusing_item incoming r (absent p q) no_ settled = cc
refusing_item incoming r (present u p q) no_ settled = (u, refl, settled u q)

module _ (aws : Aws) (environ : Dict String) (order : Order) where
  open aws use {World}

  -- An attempt that is read as a result was cancelled by the order's condition.
  record ReadFrom (e : Exn) (w : World) (r : WriteResult) : Type 0 where
    error : ClientError
    raised_by : e ≡ client_error error
    was_cancelled : is_cancelled error ≡ true
    by_the_order : first_code error.reasons ≡ some "ConditionalCheckFailed"
    read : (check_failed aws environ order (first_item error.reasons) w).0 ≡ ok r

  classify_cancelled-ok :
      (rs : List Reason) (w : World) (r : WriteResult)
      → (classify_cancelled aws environ order rs w).0 ≡ ok r
      → (first_code rs ≡ some "ConditionalCheckFailed")
        × ((check_failed aws environ order (first_item rs) w).0 ≡ ok r)
  unfolding classify_cancelled
  classify_cancelled-ok [] w r h = cc
  classify_cancelled-ok (x ∷ rest) w r h =
      elim (Bool-cases (str_eq (reason_code x) "ConditionalCheckFailed")) [
        | inl failed ↦ (code_of x.code failed, rw failed at h)
        | inr otherwise ↦ absurd (raised-ne-ok (rw otherwise at h))
      ]

  on_error-ok :
      (e : Exn) (w : World) (r : WriteResult)
      → (on_error aws environ order e w).0 ≡ ok r
      → ReadFrom e w r
  unfolding on_error classify
  on_error-ok (client_error e) w r h = elim (Bool-cases (is_cancelled e)) [
    | inl yes_ ↦
        let found = classify_cancelled-ok e.reasons w r (rw yes_ at h) in
        record {
          error = e;
          raised_by = refl;
          was_cancelled = yes_;
          by_the_order = found.0;
          read = found.1;
        }
    | inr no_ ↦ absurd (raised-ne-ok (rw no_ at h))
  ]
  on_error-ok _ w r h = cc

module _ (aws : Aws) (environ : Dict String) (d : IsDynamo aws) (config : IsConfig environ) where
  open aws use {World, transact_write_items, stored}

  -- What an attempt at a deal of stored version `v` may do and say.
  abbrev pub Agrees : Order → String → Option ℤ → World → Outcome WriteResult × World → Type 0
  Agrees order now v w (ok written, w') =
      (accepts v order.version ≡ true)
      × SameContents (after environ config order now (stored w)) (stored w')
  Agrees order now v w (ok duplicate, w') =
      (v ≡ some order.version) × SameContents (stored w) (stored w')
  Agrees order now v w (ok stale, w') =
      ((u : ℤ) × (v ≡ some u) × (order.version <ℤ u)) × SameContents (stored w) (stored w')
  Agrees order now v w (raised e, w') =
      SameContents (stored w) (stored w')
      ⊎ ((accepts v order.version ≡ true)
          × SameContents (after environ config order now (stored w)) (stored w'))

  module _ (order : Order) (now : String) (v : Option ℤ) (w : World)
      (item : IsOrderItem order.order_id (stored w (name environ orders) order.order_id) v) where
    pub Applied-accepts :
        (w' : World)
        → Applied aws (transaction environ order now) w w'
        → (accepts v order.version ≡ true)
          × SameContents (after environ config order now (stored w)) (stored w')
    Applied-accepts w' (passed, same) = (
      sym (passes-eq-accepts environ order now (stored w) v item)
          ∙ sym (all_pass-transaction environ order now (stored w))
          ∙ passed,
      same,
    )

    abbrev attempted : Outcome (Unit {0}) × World
    attempted = transact_write_items (transaction environ order now) w

    -- A cancelled attempt whose reasons show the condition's failure, read at a present order.
    settled :
        (e : Exn) (r : WriteResult) (u : ℤ)
        → stored w (name environ orders) order.order_id "version" ≡ some (n (of_int u))
        → attempted.0 ≡ raised e
        → ReadFrom aws environ order e attempted.1 r
        → settle u order.version ≡ ok r
    unfolding transaction
    settled e r u here failed from =
        let failed' = failed ∙ ap raised from.raised_by in
        let same =
          d.cancelled (transaction environ order now) w from.error failed' from.was_cancelled in
        check_failed-settle aws environ d order attempted.1 u (same _ _ "version" ∙ here)
          (first_item from.error.reasons) r
          (λ it shown a.
            d.all_old _ _ w from.error it failed' from.was_cancelled refl shown a
            ∙ sym (same _ _ a))
          from.read

    -- The order's condition was false.
    refused :
        (e : Exn) (r : WriteResult)
        → attempted.0 ≡ raised e
        → ReadFrom aws environ order e attempted.1 r
        → accepts v order.version ≡ false
    unfolding transaction
    refused e r failed from =
        sym (passes-eq-accepts environ order now (stored w) v item)
        ∙ d.check_failed _ _ w from.error (failed ∙ ap raised from.raised_by) from.was_cancelled
            from.by_the_order

    read_result :
        (r : WriteResult) (w' : World)
        → ((u : ℤ) × (v ≡ some u) × (settle u order.version ≡ ok r))
        → SameContents (stored w) (stored w')
        → Agrees order now v w (ok r, w')
    read_result r w' (u, found, verdict) same = elim (settle_lem u order.version r verdict) [
      | inl (is_duplicate, same_version) ↦ rw is_duplicate (found ∙ ap some same_version, same)
      | inr (is_stale, older) ↦ rw is_stale ((u, found, older), same)
    ]

    failed-Agrees :
        (e : Exn)
        → attempted.0 ≡ raised e
        → (out : Outcome WriteResult) → (on_error aws environ order e attempted.1).0 ≡ out
        → Agrees order now v w (out, (on_error aws environ order e attempted.1).1)
    failed-Agrees e failed (ok r) result =
        let from = on_error-ok aws environ order e attempted.1 r result in
        let same =
          d.cancelled _ w from.error (failed ∙ ap raised from.raised_by) from.was_cancelled in
        read_result r _
          (refusing_item order.version r item (refused e r failed from)
            (λ u here. settled e r u here failed from))
          (λ t k a. on_error-Kept aws environ d order e attempted.1 t k a ∙ same t k a)
    failed-Agrees e failed (raised x) result = elim (d.atomic (transaction environ order now) w) [
      | inl same ↦ inl (λ t k a. kept t k a ∙ same t k a)
      | inr applied ↦
          let (accepted, done) = Applied-accepts attempted.1 applied in
          inr (accepted, λ t k a. kept t k a ∙ done t k a)
    ]
      where
        kept :
            SameContents (stored attempted.1) (stored (on_error aws environ order e attempted.1).1)
        kept = on_error-Kept aws environ d order e attempted.1

    attempted-Agrees :
        (out : Outcome (Unit {0}))
        → attempted.0 ≡ out
        → Agrees order now v w (write_order aws environ order now w)
    unfolding write_order
    attempted-Agrees (ok u) e = rw e (Applied-accepts attempted.1 (d.committed _ w e))
    attempted-Agrees (raised x) e =
        rw e (failed-Agrees x e (on_error aws environ order x attempted.1).0 refl)

    -- Each result of `write_order` says what it found and did: `written` exactly the transaction over
    -- a missing order or an older version; `duplicate` and `stale` nothing, over the same and a newer
    -- version; and a raise leaves the tables as they were or has applied the whole accepted transaction.
    pub write_order-Agrees : Agrees order now v w (write_order aws environ order now w)
    write_order-Agrees = attempted-Agrees attempted.0 refl
