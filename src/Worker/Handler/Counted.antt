-- ===== src/Worker/Handler/Counted.antt =====
-- The counts of `handler` in worker/app.py, and the records that it returns to the queue.
use mathlib.Core.Path.{subst}
use mathlib.Core.List.{append_assoc, append-nil}
use salesforce_erp_sync.Common.{
  ℕ, suc, ◌+◌, arith, String, ◌≡◌, refl, ◌∙◌, sym, ap, Bool, true, false, Bool-cases, inl, inr,
  Option, none, some, List, [], ◌∷◌, ◌++◌, map, Dict, if◌then◌else◌, Each, none_left, also, str_eq,
  eq_iff, lookup, lookup-insert, or_default,
}
use salesforce_erp_sync.Outcome.{ok}
use salesforce_erp_sync.Exec.{pure, lift, ◌>>=◌}
use salesforce_erp_sync.Exec.Keeps.{bind_ok}
use salesforce_erp_sync.Aws.Client.{Aws}
use salesforce_erp_sync.Worker.Mapping.{Builtins}
use salesforce_erp_sync.Worker.Chaos
use salesforce_erp_sync.Worker.Chaos.{Chaos, maybe_crash}
use salesforce_erp_sync.Worker.Logs.{Process, on_world, log}
use salesforce_erp_sync.Worker.App.{
  Settings, SqsRecord, RecordOutcome, written, duplicate, stale, dead_lettered, retry,
  dlq_send_failed, metric_for, counted, no_counts,
}
use salesforce_erp_sync.Worker.Handler.{
  handle_record, handle_one, handle_records, returned, noted, out_of_time, handler,
}
use salesforce_erp_sync.Worker.Handler.Counts.{handle_record-Same, emit-counts}

-- the outcomes that give a record back to the queue
abbrev pub goes_back : RecordOutcome → Bool
goes_back retry = true
goes_back dlq_send_failed = true
goes_back _ = false

abbrev pub Handled : Type 0
Handled = List (SqsRecord × RecordOutcome)

-- the identifiers of the records that go back
abbrev pub given_back : Handled → List String
given_back [] = []
given_back ((r, out) ∷ rest) =
    if goes_back out then r.message_id ∷ given_back rest else given_back rest

-- how many outcomes a test holds of
abbrev pub tally : (RecordOutcome → Bool) → Handled → ℕ
tally test [] = 0
tally test ((r, out) ∷ rest) = if test out then suc (tally test rest) else tally test rest

abbrev pub is_written : RecordOutcome → Bool
is_written written = true
is_written _ = false

abbrev pub is_duplicate : RecordOutcome → Bool
is_duplicate duplicate = true
is_duplicate _ = false

abbrev pub is_stale : RecordOutcome → Bool
is_stale stale = true
is_stale _ = false

abbrev pub is_put_off : RecordOutcome → Bool
is_put_off retry = true
is_put_off _ = false

abbrev pub is_dead_lettered : RecordOutcome → Bool
is_dead_lettered dead_lettered = true
is_dead_lettered _ = false

noted-given_back :
    (out : RecordOutcome) (r : SqsRecord) (failures : List String) (rest : Handled)
    (ids : List String)
    → noted out r failures ++ (given_back rest ++ ids)
      ≡ failures ++ (given_back ((r, out) ∷ rest) ++ ids)
noted-given_back written r failures rest ids = refl
noted-given_back duplicate r failures rest ids = refl
noted-given_back stale r failures rest ids = refl
noted-given_back dead_lettered r failures rest ids = refl
noted-given_back retry r failures rest ids =
    append_assoc failures (r.message_id ∷ []) (given_back rest ++ ids)
noted-given_back dlq_send_failed r failures rest ids =
    append_assoc failures (r.message_id ∷ []) (given_back rest ++ ids)

abbrev is_name : Option String → String → Bool
is_name none name = false
is_name (some metric) name = str_eq metric name

lookup-counted :
    (metric : Option String) (name : String) (counts : Dict ℕ) (n : ℕ)
    → lookup name counts ≡ some n
    → lookup name (counted metric counts) ≡ some (if is_name metric name then suc n else n)
unfolding counted
lookup-counted none name counts n h = h
lookup-counted (some metric) name counts n h =
    lookup-insert metric name (or_default (lookup metric counts) 0 + 1) counts
    ∙ elim (Bool-cases (str_eq metric name)) [
      | inl same ↦
          let found = rw (sym ((eq_iff metric name).0 same)) at h in
          rw (same, found) (ap some (omega arith))
      | inr other_ ↦ rw other_ h
    ]

-- The name of a metric, and the test of the outcomes that it counts.
record Counts (name : String) (test : RecordOutcome → Bool) : Type 0 where
  agrees : (out : RecordOutcome) → is_name (metric_for out) name ≡ test out

written-Counts : Counts "OrdersWritten" is_written
written-Counts = record { agrees = λ out. each out }
  where
    each : (out : RecordOutcome) → is_name (metric_for out) "OrdersWritten" ≡ is_written out
    each written = refl
    each duplicate = refl
    each stale = refl
    each dead_lettered = refl
    each retry = refl
    each dlq_send_failed = refl

duplicate-Counts : Counts "DuplicatesSkipped" is_duplicate
duplicate-Counts = record { agrees = λ out. each out }
  where
    each : (out : RecordOutcome) → is_name (metric_for out) "DuplicatesSkipped" ≡ is_duplicate out
    each written = refl
    each duplicate = refl
    each stale = refl
    each dead_lettered = refl
    each retry = refl
    each dlq_send_failed = refl

stale-Counts : Counts "StaleVersionsDropped" is_stale
stale-Counts = record { agrees = λ out. each out }
  where
    each : (out : RecordOutcome) → is_name (metric_for out) "StaleVersionsDropped" ≡ is_stale out
    each written = refl
    each duplicate = refl
    each stale = refl
    each dead_lettered = refl
    each retry = refl
    each dlq_send_failed = refl

put_off-Counts : Counts "TransientRetries" is_put_off
put_off-Counts = record { agrees = λ out. each out }
  where
    each : (out : RecordOutcome) → is_name (metric_for out) "TransientRetries" ≡ is_put_off out
    each written = refl
    each duplicate = refl
    each stale = refl
    each dead_lettered = refl
    each retry = refl
    each dlq_send_failed = refl

dead_lettered-Counts : Counts "DeadLettered" is_dead_lettered
dead_lettered-Counts = record { agrees = λ out. each out }
  where
    each : (out : RecordOutcome) → is_name (metric_for out) "DeadLettered" ≡ is_dead_lettered out
    each written = refl
    each duplicate = refl
    each stale = refl
    each dead_lettered = refl
    each retry = refl
    each dlq_send_failed = refl

ok_inj : {xs ys : List String} → ok xs ≡ ok ys → xs ≡ ys
ok_inj h = cc

module _ (aws : Aws) (py : Builtins) (set : Settings) where
  handle_one_counts :
      (chaos : Chaos) (i : ℕ) (r : SqsRecord) (p : Process aws) {out : RecordOutcome}
      → (handle_one py set chaos i r p).0 ≡ ok out
      → ((handle_record py set r chaos p).0 ≡ ok out)
        × ((handle_one py set chaos i r p).1.counts ≡ counted (metric_for out) p.counts)
  unfolding handle_one
  handle_one_counts chaos i r p {out} h =
      let (out', handled, same) = bind_ok (handle_record py set r chaos) _ p h in
      let p₁ = (handle_record py set r chaos p).1 in
      let p₂ : Process aws = record p₁ { counts = counted (metric_for out') p₁.counts } in
      let (u, passed, same') =
        bind_ok (lift (maybe_crash chaos (i + 1))) (λ _. pure out') p₂
          (sym (ap (λ x. x.0) same) ∙ h) in
      let outcomes : out' ≡ out = ok_out (sym (ap (λ x. x.0) (same ∙ same')) ∙ h) in
      (
        handled ∙ ap ok outcomes,
        ap (λ x. x.1.counts) (same ∙ same')
            ∙ ap (λ c. counted (metric_for out') c) ((handle_record-Same py set r chaos).kept p)
            ∙ ap (λ x. counted (metric_for x) p.counts) outcomes,
      )
    where
      ok_out : {x y : RecordOutcome} → ok x ≡ ok y → x ≡ y
      ok_out e = cc

  -- `handle_record` returned this outcome of the record.
  abbrev pub HandledAs : SqsRecord × RecordOutcome → Type 0
  HandledAs (r, out) =
      (chaos : Chaos) × (p : Process aws) × ((handle_record py set r chaos p).0 ≡ ok out)

  -- What the loop returns over the records: those handled, in their order, and those left.
  record Loop (rs : List SqsRecord) (failures : List String) (before : Dict ℕ)
      (response : List String) (q : Process aws) : Type 0 where
    handled : Handled
    unhandled : List SqsRecord
    batch : rs ≡ map (λ x. x.0) handled ++ unhandled
    each : Each HandledAs handled
    together : response ≡ failures ++ (given_back handled ++ map (λ r. r.message_id) unhandled)
    counts :
        (name : String) (test : RecordOutcome → Bool) (n : ℕ)
        → Counts name test
        → lookup name before ≡ some n
        → lookup name q.counts ≡ some (tally test handled + n)

  ended-Loop :
      (rs : List SqsRecord) (failures : List String) (p q : Process aws)
      → q.counts ≡ p.counts
      → Loop rs failures p.counts (failures ++ map (λ r. r.message_id) rs) q
  ended-Loop rs failures p q same = record {
    handled = [];
    unhandled = rs;
    batch = refl;
    each = none_left;
    together = refl;
    counts = λ name test n h e. rw same (e ∙ ap some (omega arith));
  }

  one_more-Loop :
      (rs : List SqsRecord) (chaos : Chaos) (i : ℕ) (failures response : List String)
      (r : SqsRecord) (p : Process aws)
      → ((out : RecordOutcome) (q : Process aws)
          → (handle_records py set chaos (i + 1) rs (noted out r failures) q).0 ≡ ok response
          → Loop rs
              (noted out r failures)
              q.counts
              response
              (handle_records py set chaos (i + 1) rs (noted out r failures) q).1)
      → ((handle_one py set chaos i r >>= λ out.
            handle_records py set chaos (i + 1) rs (noted out r failures))
          p).0
        ≡ ok response
      → Loop
          (r ∷ rs)
          failures
          p.counts
          response
          ((handle_one py set chaos i r >>= λ out.
              handle_records py set chaos (i + 1) rs (noted out r failures))
            p).1
  one_more-Loop rs chaos i failures response r p loop h =
      let (out, handled, same) =
        bind_ok (handle_one py set chaos i r)
          (λ x. handle_records py set chaos (i + 1) rs (noted x r failures)) p h in
      let q = (handle_one py set chaos i r p).1 in
      let rest = loop out q (sym (ap (λ x. x.0) same) ∙ h) in
      let (as_, counts) = handle_one_counts chaos i r p handled in
      rw (ap (λ x. x.1) same) (record {
        handled = (r, out) ∷ rest.handled;
        unhandled = rest.unhandled;
        batch = ap (◌∷◌ r) rest.batch;
        each = also (chaos, p, as_) rest.each;
        together =
            rest.together
            ∙ noted-given_back out r failures rest.handled (map (λ x. x.message_id) rest.unhandled);
        counts = λ name test n c e.
            let first =
              ap (lookup name) counts ∙ lookup-counted (metric_for out) name p.counts n e in
            rest.counts name test (if is_name (metric_for out) name then suc n else n) c first
            ∙ rw (c.agrees out) (added test out rest.handled n);
      })
    where
      added :
          (test : RecordOutcome → Bool) (out : RecordOutcome) (rest : Handled) (n : ℕ)
          → some (tally test rest + (if test out then suc n else n))
            ≡ some (tally test ((r, out) ∷ rest) + n)
      added test out rest n = elim (Bool-cases (test out)) [
        | inl yes_ ↦ rw yes_ (ap some (omega arith))
        | inr no_ ↦ rw no_ refl
      ]

  handle_records-Loop :
      (rs : List SqsRecord) (chaos : Chaos) (i : ℕ) (failures response : List String)
      (p : Process aws)
      → (handle_records py set chaos i rs failures p).0 ≡ ok response
      → Loop rs failures p.counts response (handle_records py set chaos i rs failures p).1
  unfolding handle_records log
  handle_records-Loop [] chaos i failures response p h =
      subst (λ x. Loop [] failures p.counts x p) (append-nil failures ∙ ok_inj h)
        (ended-Loop [] failures p p refl)
  handle_records-Loop (r ∷ rs) chaos i failures response p h =
      let p₁ : Process aws = record p { world = (aws.remaining_ms p.world).1 } in
      elim (Bool-cases (out_of_time set (aws.remaining_ms p.world).0)) [
        | inl late ↦ rw late (
            subst (λ x. Loop (r ∷ rs) failures p.counts x (returned py set (r ∷ rs) failures p₁).1)
              (ok_inj (rw late at h))
              (ended-Loop (r ∷ rs) failures p (returned py set (r ∷ rs) failures p₁).1 refl))
        | inr in_time ↦ rw in_time (
            one_more-Loop rs chaos i failures response r p₁
              (λ out q. handle_records-Loop rs chaos (i + 1) (noted out r failures) response q)
              (rw in_time at h))
      ]

  -- An account of a batch: the first records are handled, each with an outcome of `handle_record`, and the
  -- rest are not. The response has the handled ones that go back, and then the rest. Each metric is the number
  -- of its outcomes.
  pub record Accounts (records : List SqsRecord) (response : List String) (counts : Dict ℕ)
      : Type 0 where
    pub handled : Handled
    pub unhandled : List SqsRecord
    pub batch : records ≡ map (λ x. x.0) handled ++ unhandled
    pub each : Each HandledAs handled
    pub together : response ≡ given_back handled ++ map (λ r. r.message_id) unhandled
    pub orders_written : lookup "OrdersWritten" counts ≡ some (tally is_written handled)
    pub duplicates : lookup "DuplicatesSkipped" counts ≡ some (tally is_duplicate handled)
    pub stale_versions : lookup "StaleVersionsDropped" counts ≡ some (tally is_stale handled)
    pub retries : lookup "TransientRetries" counts ≡ some (tally is_put_off handled)
    pub dead_letters : lookup "DeadLettered" counts ≡ some (tally is_dead_lettered handled)

  -- When `handler` returns, some of the first records of the batch are handled, each with an outcome that
  -- `handle_record` returned of it, and the rest are not. The response has the identifiers of the handled ones
  -- whose outcome is retry or dlq_send_failed and then those of the rest, in their order; and each of the five
  -- metrics is the number of records with its outcome.
  pub handler-Accounts :
      (records : List SqsRecord) (p : Process aws) (response : List String)
      → (handler py set records p).0 ≡ ok response
      → Accounts records response (handler py set records p).1.counts
  unfolding handler
  handler-Accounts records p response h =
      let (chaos, loaded, same) = bind_ok (on_world (Chaos.load aws set.param_prefix)) _ p h in
      let started : Process aws = record p {
        world = (Chaos.load aws set.param_prefix p.world).1;
        counts = no_counts;
      } in
      let looped = handle_records py set chaos 0 records [] started in
      let loop =
        handle_records-Loop records chaos 0 [] response started (sym (ap (λ x. x.0) same) ∙ h) in
      let ends : (handler py set records p).1.counts ≡ looped.1.counts =
        ap (λ x. x.1.counts) same ∙ emit-counts py set looped.1 in
      let metric : (name : String) (test : RecordOutcome → Bool)
          → Counts name test
          → lookup name no_counts ≡ some 0
          → lookup name (handler py set records p).1.counts ≡ some (tally test loop.handled) =
        λ name test c e.
          ap (lookup name) ends ∙ loop.counts name test 0 c e ∙ ap some (omega arith) in
      record {
        handled = loop.handled;
        unhandled = loop.unhandled;
        batch = loop.batch;
        each = loop.each;
        together = loop.together;
        orders_written = metric "OrdersWritten" is_written written-Counts refl;
        duplicates = metric "DuplicatesSkipped" is_duplicate duplicate-Counts refl;
        stale_versions = metric "StaleVersionsDropped" is_stale stale-Counts refl;
        retries = metric "TransientRetries" is_put_off put_off-Counts refl;
        dead_letters = metric "DeadLettered" is_dead_lettered dead_lettered-Counts refl;
      }
