-- ===== src/Reconciler/Reconcile/Accounting.antt =====
-- What the report of reconciler/reconcile.py enqueues, against what it lists.
use mathlib.Core.Path.{subst}
use salesforce_erp_sync.Common.{
  ℕ, suc, ◌+◌, String, ◌≡◌, refl, ◌∙◌, sym, ap, Bool, true, false, ◌||◌, Option, none, some, List,
  [], ◌∷◌, ◌++◌, length, str_eq, if◌then◌else◌, Bool-cases, inl, inr, ℤ, ltb_ℤ, ◌-ℤ◌, Dict, lookup,
  arith,
}
use salesforce_erp_sync.Python.Json.{Json, Fields}
use salesforce_erp_sync.Outcome.{Outcome, ok, raised, permanent_error, bind_ok}
use salesforce_erp_sync.Erp.Writer.{Order}
use salesforce_erp_sync.Worker.Mapping.{Builtins, to_order}
use salesforce_erp_sync.Reconciler.Events.{
  Datetimes, dict_of, text_at, parse_modstamp, from_salesforce,
}
use salesforce_erp_sync.Reconciler.Reconcile.{
  Drift, Report, noted, enqueued, judge_missing, judge_stored, judge, check_deal, check_deals,
}

-- the drift that the reconciler repairs
abbrev pub is_repaired : Drift → Bool
is_repaired d = str_eq d.kind "missing_order" || str_eq d.kind "stale_order"

abbrev pub repaired : List Drift → ℕ
repaired [] = 0
repaired (d ∷ ds) = if is_repaired d then suc (repaired ds) else repaired ds

-- One event is enqueued for each deal that the report lists as missing or stale.
abbrev pub IsBalanced : Report → Type 0
IsBalanced r = length r.to_enqueue ≡ repaired r.drift

repaired_one :
    (ds : List Drift) (d : Drift)
    → repaired (ds ++ d ∷ []) ≡ repaired ds + (if is_repaired d then 1 else 0)
repaired_one [] d = ground arith
repaired_one (x ∷ ds) d = ground (arith, repaired_one ds d)

length_one : (xs : List Fields) (x : Fields) → length (xs ++ x ∷ []) ≡ suc (length xs)
length_one [] x = refl
length_one (y ∷ xs) x = ap suc (length_one xs x)

noted-IsBalanced :
    (kind id detail : String) (r : Report)
    → is_repaired (record { kind = kind; opportunity_id = id; detail = detail }) ≡ false
    → IsBalanced r
    → IsBalanced (noted kind id detail r)
noted-IsBalanced kind id detail r other_ h =
    h
    ∙ sym (
        repaired_one r.drift (record { kind = kind; opportunity_id = id; detail = detail })
        ∙ rw other_ (omega arith))

enqueued-IsBalanced :
    (kind id detail : String) (event : Fields) (r : Report)
    → is_repaired (record { kind = kind; opportunity_id = id; detail = detail }) ≡ true
    → IsBalanced r
    → IsBalanced (enqueued kind id detail event r)
enqueued-IsBalanced kind id detail event r this h =
    length_one r.to_enqueue event
    ∙ ap suc h
    ∙ sym (
        repaired_one r.drift (record { kind = kind; opportunity_id = id; detail = detail })
        ∙ rw this (omega arith))

ok_inj : {a b : Report} → ok a ≡ ok b → a ≡ b
ok_inj h = cc

pair_inj : {a b : String × Report} → ok a ≡ ok b → a.1 ≡ b.1
pair_inj h = cc

judge_missing-IsBalanced :
    (id : String) (event : Fields) (r : Report) (o : Outcome Order) {r' : Report}
    → IsBalanced r
    → judge_missing id event r o ≡ ok r'
    → IsBalanced r'
unfolding judge_missing
judge_missing-IsBalanced id event r (ok order) h e =
    subst IsBalanced (ok_inj e) (enqueued-IsBalanced "missing_order" id "" event r refl h)
judge_missing-IsBalanced id event r (raised (permanent_error reason detail)) h e =
    subst IsBalanced (ok_inj e) (noted-IsBalanced "invalid_in_source" id reason r refl h)
judge_missing-IsBalanced id event r (raised _) h e = cc

judge_stored-IsBalanced :
    (id : String) (event : Fields) (stored version : ℤ) (r : Report)
    → IsBalanced r
    → IsBalanced (judge_stored id event stored version r)
unfolding judge_stored
judge_stored-IsBalanced id event stored version r h = elim (Bool-cases (ltb_ℤ stored version)) [
  | inl older ↦ rw older (enqueued-IsBalanced "stale_order" id _ event r refl h)
  | inr same_or_newer ↦ elim (Bool-cases (ltb_ℤ version stored)) [
    | inl newer ↦ rw (same_or_newer, newer) (noted-IsBalanced "erp_ahead" id _ r refl h)
    | inr same ↦ rw (same_or_newer, same) h
  ]
]

judge-IsBalanced :
    (py : Builtins) (id : String) (event : Fields) (version : ℤ) (stored : Option ℤ) (r : Report)
    {r' : Report}
    → IsBalanced r
    → judge py id event version stored r ≡ ok r'
    → IsBalanced r'
unfolding judge
judge-IsBalanced py id event version none r h e =
    judge_missing-IsBalanced id event r (to_order py event) h e
judge-IsBalanced py id event version (some stored) r h e =
    subst IsBalanced (ok_inj e) (judge_stored-IsBalanced id event stored version r h)

late-IsBalanced :
    (b : Bool) (id : String) (r : Report) (rest : Outcome (String × Report)) {x : String × Report}
    → IsBalanced r
    → ((y : String × Report) → rest ≡ ok y → IsBalanced y.1)
    → (if b then ok (id, r) else rest) ≡ ok x
    → IsBalanced x.1
late-IsBalanced true id r rest h k e = subst IsBalanced (pair_inj e) h
late-IsBalanced false id r rest {x} h k e = k x e

module _ (py : Builtins) (dt : Datetimes) (order_versions : Dict ℤ) (now grace : ℤ) where
  check_deal-IsBalanced :
      (row : Fields) (r : Report) {x : String × Report}
      → IsBalanced r
      → check_deal py dt order_versions now grace row r ≡ ok x
      → IsBalanced x.1
  unfolding check_deal
  check_deal-IsBalanced row r h e =
      let (id, e₁, h₁) = bind_ok (text_at row "Id") _ e in
      let (modstamp, e₂, h₂) = bind_ok (text_at row "SystemModstamp") _ h₁ in
      let (stamp, e₃, h₃) = bind_ok (parse_modstamp dt modstamp) _ h₂ in
      late-IsBalanced (ltb_ℤ (now -ℤ grace) stamp) id r _ h
        (λ y judged.
          let (event, e₄, h₄) = bind_ok (from_salesforce dt row now) _ judged in
          let (r', e₅, h₅) =
            bind_ok
              (judge py id event (dt.timestamp_ms stamp) (lookup id order_versions)
                (record r { checked_deals = r.checked_deals + 1 }))
              _ h₄ in
          subst IsBalanced (pair_inj h₅) (
            judge-IsBalanced py id event (dt.timestamp_ms stamp) (lookup id order_versions)
              (record r { checked_deals = r.checked_deals + 1 }) h e₅))
        h₃

  -- The loop over the won deals keeps the balance: the events to enqueue are as many as the deals that
  -- are listed as missing or stale. Deals in flight, invalid in the source or behind the ERP add none.
  pub check_deals-IsBalanced :
      (rows : List Json) (won_ids : List String) (r : Report) (result : List String × Report)
      → IsBalanced r
      → check_deals py dt order_versions now grace rows won_ids r ≡ ok result
      → IsBalanced result.1
  unfolding check_deals
  check_deals-IsBalanced [] won_ids r result h e =
      let same : r ≡ result.1 = cc e in subst IsBalanced same h
  check_deals-IsBalanced (v ∷ rows) won_ids r result h e =
      let (row, e₀, h₀) = bind_ok (dict_of v) _ e in
      let (checked, e₁, h₁) = bind_ok (check_deal py dt order_versions now grace row r) _ h₀ in
      check_deals-IsBalanced rows (checked.0 ∷ won_ids) checked.1 result
        (check_deal-IsBalanced row r h e₁) h₁
