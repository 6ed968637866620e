-- ===== src/Worker/Handler/NoLoss.antt =====
-- `handler` of worker/app.py: every record of the batch is in the response or settled.
use mathlib.Core.Path.{subst}
use salesforce_erp_sync.Common.{
  ℕ, ◌+◌, String, ◌≡◌, refl, ◌∙◌, sym, ap, true, Option, List, [], ◌∷◌, ◌++◌, map, ℤ, Dict, ◌⊎◌,
  inl, inr, Bool-cases, Mem, at_head, in_tail, mem_left, mem_right, Each, none_left, also,
}
use salesforce_erp_sync.Outcome.{Outcome, ok}
use salesforce_erp_sync.Exec.{pure, lift, ◌>>=◌}
use salesforce_erp_sync.Exec.Keeps.{bind_ok}
use salesforce_erp_sync.Aws.Client.{Aws}
use salesforce_erp_sync.Aws.Dynamo.{IsDynamo}
use salesforce_erp_sync.Aws.Services.{IsServices}
use salesforce_erp_sync.Erp.Effect.{IsConfig}
use salesforce_erp_sync.Erp.History.{IsConsistent}
use salesforce_erp_sync.Worker.Mapping.{Builtins}
use salesforce_erp_sync.Worker.Chaos
use salesforce_erp_sync.Worker.Chaos.{Chaos, maybe_crash}
use salesforce_erp_sync.Worker.Logs.{Process, on_world, emit, emit_counts}
use salesforce_erp_sync.Worker.App.{
  Settings, SqsRecord, RecordOutcome, is_retry, metric_for, counted, no_counts,
}
use salesforce_erp_sync.Worker.Handler.{
  handle_record, handle_one, handle_records, noted, out_of_time, returned, handler,
}
use salesforce_erp_sync.Worker.Handler.Effects.{Goes, Goes-IsPreorder, Quiet-Goes}
use salesforce_erp_sync.Worker.Handler.Moves.{
  handle_one-Moves, handle_records-Moves, remaining-Moves,
}
use salesforce_erp_sync.Worker.Handler.Settled.{Settled, Settled-later, IsConsistent-later}
use salesforce_erp_sync.Worker.Handler.Batch.{handle_record-Settled}

-- Every record's identifier is among those that are given back.
given_back :
    (rs : List SqsRecord) (failures : List String) (P : SqsRecord → Type 0)
    → ((r : SqsRecord) → Mem r.message_id (failures ++ map (λ x. x.message_id) rs) → P r)
    → Each P rs
given_back rs failures P h = every rs (λ x. mem_right failures)
  where
    every :
        (ys : List SqsRecord)
        → ((x : String)
            → Mem x (map (λ y. y.message_id) ys)
            → Mem x (failures ++ map (λ y. y.message_id) rs))
        → Each P ys
    every [] k = none_left
    every (y ∷ ys) k = also (h y (k y.message_id at_head)) (every ys (λ x m. k x (in_tail m)))

noted_keeps :
    (out : RecordOutcome) (r : SqsRecord) (failures : List String) (x : String)
    → Mem x failures
    → Mem x (noted out r failures)
noted_keeps out r failures x h = elim (Bool-cases (is_retry out)) [
  | inl retried ↦ rw retried (mem_left (r.message_id ∷ []) h)
  | inr acked ↦ rw acked h
]

noted_retry :
    (out : RecordOutcome) (r : SqsRecord) (failures : List String)
    → is_retry out ≡ true
    → Mem r.message_id (noted out r failures)
noted_retry out r failures h = rw h (mem_right failures at_head)

list_inj : {xs ys : List String} → ok xs ≡ ok ys → xs ≡ ys
list_inj h = cc

module _ {aws : Aws} (py : Builtins) (set : Settings) (s : IsServices aws) (d : IsDynamo aws)
    (config : IsConfig set.environ) where
  -- The record's identifier is in the response, or the record is settled.
  abbrev pub Accounted : List String → Process aws → SqsRecord → Type 0
  Accounted response p r = Mem r.message_id response ⊎ Settled aws set.environ py r p.world

  -- What a record of the loop leaves: the state of `handle_record`, with one count more.
  handle_one_ok :
      (chaos : Chaos) (i : ℕ) (r : SqsRecord) (p : Process aws) {out : RecordOutcome}
      → (handle_one py set chaos i r p).0 ≡ ok out
      → ((handle_record py set r chaos p).0 ≡ ok out)
        × ((handle_one py set chaos i r p).1.world ≡ (handle_record py set r chaos p).1.world)
  unfolding handle_one
  handle_one_ok chaos i r p {out} h =
      let (out', handled, same) = bind_ok (handle_record py set r chaos) _ p h in
      let p₁ = (handle_record py set r chaos p).1 in
      let p₂ : Process aws = record p₁ { counts = counted (metric_for out') p₁.counts } in
      let (u, passed, same') =
        bind_ok (lift (maybe_crash chaos (i + 1))) (λ _. pure out') p₂
          (sym (ap (λ x. x.0) same) ∙ h) in
      (handled ∙ sym (ap (λ x. x.0) (same ∙ same')) ∙ h, ap (λ x. x.1.world) (same ∙ same'))

  handle_one-Accounted :
      (chaos : Chaos) (i : ℕ) (r : SqsRecord) (f : String → Option ℤ) (p : Process aws)
      {out : RecordOutcome}
      → IsConsistent aws set.environ p.world f
      → (handle_one py set chaos i r p).0 ≡ ok out
      → (is_retry out ≡ true) ⊎ Settled aws set.environ py r (handle_one py set chaos i r p).1.world
  handle_one-Accounted chaos i r f p {out} consistent h = elim (Bool-cases (is_retry out)) [
    | inl retried ↦ inl retried
    | inr acked ↦
        let (handled, same) = handle_one_ok chaos i r p h in
        inr (
          subst (Settled aws set.environ py r) (sym same)
            (handle_record-Settled py set s d config r chaos f p consistent handled acked))
  ]

  -- What the rest of the loop returns: the response so far, and every record accounted for.
  record Complete (rs : List SqsRecord) (failures : List String)
      (out : Outcome (List String) × Process aws) : Type 0 where
    response : List String
    returned_as : out.0 ≡ ok response
    keeps : (x : String) → Mem x failures → Mem x response
    accounts : Each (Accounted response out.1) rs

  returned-Complete :
      (rs : List SqsRecord) (failures : List String) (p : Process aws)
      → Complete rs failures (returned py set rs failures p)
  returned-Complete rs failures p = record {
    response = failures ++ map (λ r. r.message_id) rs;
    returned_as = refl;
    keeps = λ x h. mem_left _ h;
    accounts = given_back rs failures _ (λ r h. inl h);
  }

  Accounted-first :
      (r : SqsRecord) (out : RecordOutcome) (failures response : List String)
      (g : String → Option ℤ) (w : aws.World) (p : Process aws)
      → IsConsistent aws set.environ w g
      → Goes aws set.environ w p.world
      → ((x : String) → Mem x (noted out r failures) → Mem x response)
      → ((is_retry out ≡ true) ⊎ Settled aws set.environ py r w)
      → Accounted response p r
  Accounted-first r out failures response g w p consistent later keeps (inl retried) =
      inl (keeps r.message_id (noted_retry out r failures retried))
  Accounted-first r out failures response g w p consistent later keeps (inr settled) =
      inr (Settled-later py set s d config r g w p.world consistent later settled)

  -- One record, and a rest of the loop that is complete.
  one_more-Complete :
      (rs : List SqsRecord) (chaos : Chaos) (i : ℕ) (failures : List String) (r : SqsRecord)
      (g : String → Option ℤ) (p : Process aws) {response : List String}
      → ((out : RecordOutcome) (g' : String → Option ℤ) (q : Process aws)
          → IsConsistent aws set.environ q.world g'
          → (handle_records py set chaos (i + 1) rs (noted out r failures) q).0 ≡ ok response
          → Complete rs
              (noted out r failures)
              (handle_records py set chaos (i + 1) rs (noted out r failures) q))
      → IsConsistent aws set.environ p.world g
      → ((handle_one py set chaos i r >>= λ out.
            handle_records py set chaos (i + 1) rs (noted out r failures))
          p).0
        ≡ ok response
      → Complete (r ∷ rs) failures (
          (handle_one py set chaos i r >>= λ out.
          handle_records py set chaos (i + 1) rs (noted out r failures))
            p)
  one_more-Complete rs chaos i failures r g p complete consistent h =
      let (out, handled, same) =
        bind_ok (handle_one py set chaos i r)
          (λ x. handle_records py set chaos (i + 1) rs (noted x r failures)) p h in
      let q = (handle_one py set chaos i r p).1 in
      let (g', consistent') =
        IsConsistent-later py set s d config g p.world q.world consistent
          ((handle_one-Moves py set s d chaos i r).kept p) in
      let rest = complete out g' q consistent' (sym (ap (λ x. x.0) same) ∙ h) in
      let later =
        (handle_records-Moves py set s d rs chaos (i + 1) (noted out r failures)).kept q in
      subst (Complete (r ∷ rs) failures) (sym same) (record {
        response = rest.response;
        returned_as = rest.returned_as;
        keeps = λ x m. rest.keeps x (noted_keeps out r failures x m);
        accounts =
            also
              (Accounted-first r out failures rest.response g' q.world
                (handle_records py set chaos (i + 1) rs (noted out r failures) q).1 consistent'
                later rest.keeps (handle_one-Accounted chaos i r g p consistent handled))
              rest.accounts;
      })

  handle_records-Complete :
      (rs : List SqsRecord) (chaos : Chaos) (i : ℕ) (failures : List String) (f : String → Option ℤ)
      (p : Process aws) {response : List String}
      → IsConsistent aws set.environ p.world f
      → (handle_records py set chaos i rs failures p).0 ≡ ok response
      → Complete rs failures (handle_records py set chaos i rs failures p)
  unfolding handle_records
  handle_records-Complete [] chaos i failures f p consistent h = record {
    response = failures;
    returned_as = refl;
    keeps = λ x m. m;
    accounts = none_left;
  }
  handle_records-Complete (r ∷ rs) chaos i failures f p consistent h =
      let o = (aws.remaining_ms p.world).0 in
      let p₁ : Process aws = record p { world = (aws.remaining_ms p.world).1 } in
      let (g, consistent₁) =
        IsConsistent-later py set s d config f p.world p₁.world consistent
          ((remaining-Moves py set s d).kept p) in
      elim (Bool-cases (out_of_time set o)) [
        | inl late ↦ rw late (returned-Complete (r ∷ rs) failures p₁)
        | inr in_time ↦ rw in_time (
            one_more-Complete rs chaos i failures r g p₁
              (λ out g' q. handle_records-Complete rs chaos (i + 1) (noted out r failures) g' q)
              consistent₁ (rw in_time at h))
      ]

  emit_quiet : (p : Process aws) → Goes aws set.environ p.world (emit set.service p).world
  unfolding emit emit_counts
  emit_quiet p = emitted p.counts
    where
      emitted :
          (counts : Dict ℕ) → Goes aws set.environ p.world (emit_counts set.service counts p).world
      emitted [] = (Goes-IsPreorder aws set.environ).same p.world
      emitted (c ∷ cs) = Quiet-Goes aws set.environ (s.time_quiet p.world)

  -- The state that the loop starts in.
  abbrev started : Process aws → Process aws
  started p = record p { world = (Chaos.load aws set.param_prefix p.world).1; counts = no_counts }

  started-Goes : (p : Process aws) → Goes aws set.environ p.world (started p).world
  unfolding Chaos.load
  started-Goes p = Quiet-Goes aws set.environ (s.parameters_quiet _ p.world)

  Accounted-later :
      (response : List String) (g : String → Option ℤ) (p q : Process aws) {rs : List SqsRecord}
      → IsConsistent aws set.environ p.world g
      → Goes aws set.environ p.world q.world
      → Each (Accounted response p) rs
      → Each (Accounted response q) rs
  Accounted-later response g p q consistent later none_left = none_left
  Accounted-later response g p q consistent later (also (inl reported) es) =
      also (inl reported) (Accounted-later response g p q consistent later es)
  Accounted-later response g p q consistent later (also (inr settled) es) =
      also (inr (Settled-later py set s d config _ g p.world q.world consistent later settled))
        (Accounted-later response g p q consistent later es)

  -- When `handler` returns, every record of the batch is accounted for: its identifier is in the response,
  -- or its order is in the orders table at its version or a newer one, or a message with its body was
  -- accepted by SQS. Whatever the clocks, the chaos and the services did.
  pub handler_loses_nothing :
      (records : List SqsRecord) (f : String → Option ℤ) (p : Process aws) (response : List String)
      → IsConsistent aws set.environ p.world f
      → (handler py set records p).0 ≡ ok response
      → Each (Accounted response (handler py set records p).1) records
  unfolding handler
  handler_loses_nothing records f p response consistent h =
      let (chaos, loaded, same) = bind_ok (on_world (Chaos.load aws set.param_prefix)) _ p h in
      let q = started p in
      let (g, consistent') =
        IsConsistent-later py set s d config f p.world q.world consistent (started-Goes p) in
      let looped = handle_records py set chaos 0 records [] q in
      let returned_ = sym (ap (λ x. x.0) same) ∙ h in
      let complete = handle_records-Complete records chaos 0 [] g q consistent' returned_ in
      let (g', consistent'') =
        IsConsistent-later py set s d config g q.world looped.1.world consistent'
          ((handle_records-Moves py set s d records chaos 0 []).kept q) in
      let at_end =
        Accounted-later complete.response g' looped.1 (emit set.service looped.1) consistent''
          (emit_quiet looped.1) complete.accounts in
      subst (λ x. Each (Accounted response x.1) records) (sym same)
        (subst (λ x. Each (Accounted x (emit set.service looped.1)) records)
          (list_inj (sym complete.returned_as ∙ returned_)) at_end)
