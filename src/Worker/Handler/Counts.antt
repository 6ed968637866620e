-- ===== src/Worker/Handler/Counts.antt =====
-- The counts of `handler` in worker/app.py.
use salesforce_erp_sync.Common.{
  ℕ, suc, ◌+◌, ◌≤◌, arith, String, ◌≡◌, refl, ◌∙◌, Bool, true, false, Option, none, some, List, [],
  ◌∷◌, Dict, ℤ, lookup, insert, length, or_default, ◌++◌, map, pos, if◌then◌else◌,
}
use salesforce_erp_sync.Python.Json.{Json, text, int}
use salesforce_erp_sync.Outcome.{Exn, Outcome, ok, raised, str_of_exn}
use salesforce_erp_sync.Exec.{Exec, gets, continue, ◌>>=◌}
use salesforce_erp_sync.Exec.Keeps.{
  Keeps, IsPreorder, pure-Keeps, lift-Keeps, bind-Keeps, attempt-Keeps,
}
use salesforce_erp_sync.Aws.Client.{Aws}
use salesforce_erp_sync.Erp.Writer.{WriteResult}
use salesforce_erp_sync.Worker.Backoff.{next_visibility_timeout}
use salesforce_erp_sync.Worker.Classify.{Kind, transient, permanent, classify}
use salesforce_erp_sync.Worker.Mapping.{Builtins}
use salesforce_erp_sync.Worker.Chaos
use salesforce_erp_sync.Worker.Chaos.{Chaos, maybe_crash}
use salesforce_erp_sync.Worker.Logs.{Process, on_world, log, emit, emit_counts}
use salesforce_erp_sync.Worker.App.{
  Settings, SqsRecord, RecordOutcome, retry, parked_message, parked_fields, failed_fields,
  result_value, outcome_of, account_of, queue_name, ask_queue_url, known, queue_url, event_key_of,
  attempt_of, delay_redelivery, dead_letter, metric_for, counted, no_counts,
}
use salesforce_erp_sync.Worker.Handler.{
  retry_fields, settled_fields, parked, process, on_decision, conclude, handle_record, handle_one,
  handle_records, returned, noted, out_of_time, handler,
}

-- The sum of the counts.
abbrev pub total : Dict ℕ → ℕ
total [] = 0
total ((name, n) ∷ counts) = n + total counts

pub total-insert :
    (name : String) (counts : Dict ℕ)
    → total (insert name (or_default (lookup name counts) 0 + 1) counts) ≡ suc (total counts)
total-insert name [] = refl
total-insert name ((other, n) ∷ counts) = ground (arith, total-insert name counts)

total-counted :
    (metric : Option String) (counts : Dict ℕ) → total (counted metric counts) ≤ 1 + total counts
unfolding counted
total-counted none counts = omega arith
total-counted (some name) counts = omega (arith, total-insert name counts)

module _ {aws : Aws} (py : Builtins) (set : Settings) where
  abbrev Same : Process aws → Process aws → Type 0
  Same p p' = p'.counts ≡ p.counts

  abbrev same : IsPreorder Same
  same = record { same = λ p. refl; chain = λ a b. b ∙ a }

  world-Same : {A : Type 0} (m : Exec aws.World A) → Keeps Same (on_world m)
  world-Same m = record { kept = λ p. refl }

  log-Same :
      {A : Type 0} (a : A) (level msg : String) (fields : Dict Json)
      → Keeps Same (λ p. (ok a, log set.service level msg fields p))
  unfolding log
  log-Same a level msg fields = record { kept = λ p. refl }

  url-Same :
      (name url : String)
      → Keeps Same (λ p. (ok url, record p { queue_urls = insert name url p.queue_urls }))
  url-Same name url = record { kept = λ p. refl }

  ask_queue_url-Same : (name : String) (r : SqsRecord) → Keeps Same (ask_queue_url name r)
  unfolding ask_queue_url
  ask_queue_url-Same name r = bind-Keeps same (lift-Keeps same (account_of r)) λ account.
      bind-Keeps same (world-Same (aws.get_queue_url name account)) λ url. url-Same name url

  known-Same :
      (o : Option String) (m : Exec (Process aws) String) → Keeps Same m → Keeps Same (known o m)
  known-Same none m h = h
  known-Same (some url) m h = pure-Keeps same url

  queue_url-Same : (name : String) (r : SqsRecord) → Keeps Same (queue_url name r)
  unfolding queue_url
  queue_url-Same name r = record {
    kept = λ p. (known-Same (lookup name p.queue_urls) _ (ask_queue_url-Same name r)).kept p;
  }

  delay_redelivery-Same :
      (r : SqsRecord) (seconds : ℕ) → Keeps Same (delay_redelivery py set r seconds)
  unfolding delay_redelivery
  delay_redelivery-Same r seconds =
      attempt-Keeps same
        (bind-Keeps same (lift-Keeps same (queue_name r)) λ name.
          bind-Keeps same (queue_url-Same name r)
            λ url. world-Same (aws.change_message_visibility url r.receipt_handle seconds))
        λ exc.
          log-Same tt "warn" "could not set backoff" (("error", text (py.repr_of_exn exc)) ∷ [])

  dead_letter-Same :
      (r : SqsRecord) (reason detail key : String)
      → Keeps Same (dead_letter py set r reason detail key)
  unfolding dead_letter
  dead_letter-Same r reason detail key = bind-Keeps same (world-Same (gets aws.now_iso)) λ now.
      attempt-Keeps same
        (bind-Keeps same (queue_url-Same set.dlq_name r) λ url.
          bind-Keeps same
            (world-Same (aws.send_message (parked_message r url reason detail key now)))
            λ _. log-Same true "warn" "dead_lettered" (parked_fields key reason detail))
        λ exc.
          log-Same false "error" "dead-letter send failed" (failed_fields key (py.repr_of_exn exc))

  on_decision-Same :
      (r : SqsRecord) (attempt : ℤ) (exc : Exn) (k : Kind) (reason : String)
      → Keeps Same (on_decision py set r attempt exc k reason)
  on_decision-Same r attempt exc permanent reason =
      bind-Keeps same (dead_letter-Same r reason (str_of_exn exc) (event_key_of r))
        λ done. pure-Keeps same (parked done)
  on_decision-Same r attempt exc transient reason =
      bind-Keeps same (world-Same (gets aws.random)) λ random.
        bind-Keeps same
          (lift-Keeps same
            (next_visibility_timeout set.scale attempt set.backoff_base set.backoff_cap random))
          λ delay.
            bind-Keeps same (log-Same tt "warn" "retry" (retry_fields r reason attempt exc delay))
              λ _. bind-Keeps same (delay_redelivery-Same r delay) λ _. pure-Keeps same retry

  conclude-Same :
      (r : SqsRecord) (attempt : ℤ) (result : Outcome WriteResult)
      → Keeps Same (conclude py set r attempt result)
  conclude-Same r attempt (ok result) =
      log-Same (outcome_of result) "info" (result_value result) (settled_fields r attempt)
  conclude-Same r attempt (raised exc) = record {
    kept = λ p. (on_decision-Same r attempt exc (classify exc).kind (classify exc).reason).kept p;
  }

  pub handle_record-Same :
      (r : SqsRecord) (chaos : Chaos) → Keeps Same (handle_record py set r chaos)
  unfolding handle_record
  handle_record-Same r chaos = bind-Keeps same (lift-Keeps same (attempt_of r)) λ attempt. record {
    kept = λ p.
        let worked = on_world (process aws set py r chaos) p in
        (conclude-Same r attempt worked.0).kept worked.1;
  }

  -- At most `k` more than before are counted.
  record Counts {A : Type 0} (k : ℕ) (m : Exec (Process aws) A) : Type 0 where
    counts : (p : Process aws) → total (m p).1.counts ≤ k + total p.counts

  continue-Counts :
      {A B : Type 0} (j k : ℕ) (r : Outcome A) (f : A → Exec (Process aws) B) (p q : Process aws)
      → total q.counts ≤ j + total p.counts
      → ((a : A) → Counts k (f a))
      → total (continue r f q).1.counts ≤ j + k + total p.counts
  continue-Counts j k (ok a) f p q h g = omega (arith, h, (g a).counts q)
  continue-Counts j k (raised e) f p q h g = omega (arith, h)

  bind-Counts :
      {A B : Type 0} {j k : ℕ} {m : Exec (Process aws) A} {f : A → Exec (Process aws) B}
      → Counts j m
      → ((a : A) → Counts k (f a))
      → Counts (j + k) (m >>= f)
  bind-Counts {j = j} {k = k} {m = m} {f = f} h g = record {
    counts = λ p. continue-Counts j k (m p).0 f p (m p).1 (h.counts p) g;
  }

  Same-Counts : {A : Type 0} {m : Exec (Process aws) A} → Keeps Same m → Counts 0 m
  Same-Counts {m = m} h = record { counts = λ p. let e = h.kept p in rw e (omega arith) }

  count-Counts :
      (out : RecordOutcome)
      → Counts 1
          (λ (p : Process aws). (ok tt, record p { counts = counted (metric_for out) p.counts }))
  count-Counts out = record { counts = λ p. total-counted (metric_for out) p.counts }

  handle_one-Counts :
      (chaos : Chaos) (i : ℕ) (r : SqsRecord) → Counts 1 (handle_one py set chaos i r)
  unfolding handle_one
  handle_one-Counts chaos i r =
      bind-Counts {j = 0} {k = 1} (Same-Counts (handle_record-Same r chaos)) λ out.
        bind-Counts {j = 1} {k = 0} (count-Counts out) λ _.
          bind-Counts {j = 0} {k = 0} (Same-Counts (lift-Keeps same (maybe_crash chaos (i + 1))))
            λ _. Same-Counts (pure-Keeps same out)

  as_Counts : {A : Type 0} {j k : ℕ} {m : Exec (Process aws) A} → j ≡ k → Counts j m → Counts k m
  as_Counts e h = record { counts = λ p. omega (arith, e, h.counts p) }

  late-Counts :
      (late : Bool) (k : ℕ) {A : Type 0} {m n : Exec (Process aws) A}
      → Counts 0 m
      → Counts k n
      → Counts k (if late then m else n)
  late-Counts true k h g = record { counts = λ p. omega (arith, h.counts p) }
  late-Counts false k h g = g

  returned-Same :
      (rs : List SqsRecord) (failures : List String) → Keeps Same (returned py set rs failures)
  returned-Same rs failures =
      log-Same (failures ++ map (λ r. r.message_id) rs) "warn"
        "near timeout, returning unprocessed records" (("remaining", int (pos (length rs))) ∷ [])

  handle_records-Counts :
      (rs : List SqsRecord) (chaos : Chaos) (i : ℕ) (failures : List String)
      → Counts (length rs) (handle_records py set chaos i rs failures)
  unfolding handle_records
  handle_records-Counts [] chaos i failures = Same-Counts (pure-Keeps same failures)
  handle_records-Counts (r ∷ rs) chaos i failures = as_Counts (omega arith) (
      bind-Counts {j = 0} {k = length (r ∷ rs)} (Same-Counts (world-Same (gets aws.remaining_ms)))
        λ remaining.
          late-Counts (out_of_time set remaining) (length (r ∷ rs))
            (Same-Counts (returned-Same (r ∷ rs) failures))
            (as_Counts (omega arith) (
              bind-Counts {j = 1} {k = length rs} (handle_one-Counts chaos i r)
                λ out. handle_records-Counts rs chaos (i + 1) (noted out r failures))))

  pub emit-counts : (p : Process aws) → (emit set.service p).counts ≡ p.counts
  unfolding emit emit_counts
  emit-counts p = emitted p.counts
    where
      emitted : (counts : Dict ℕ) → (emit_counts set.service counts p).counts ≡ p.counts
      emitted [] = refl
      emitted (c ∷ cs) = refl

  -- When the chaos is loaded, the counts of the invocation add up to at most the number of records of the
  -- batch, whether `handler` returns or a crash ends it, and whatever DynamoDB and SQS do.
  pub handler_counts_bounds :
      (records : List SqsRecord) (p : Process aws) (chaos : Chaos)
      → (Chaos.load aws set.param_prefix p.world).0 ≡ ok chaos
      → total (handler py set records p).1.counts ≤ length records
  unfolding handler
  handler_counts_bounds records p chaos loaded =
      let started : Process aws = record p {
        world = (Chaos.load aws set.param_prefix p.world).1;
        counts = no_counts;
      } in
      let ended = (handle_records py set chaos 0 records [] started).1 in
      let bound : total ended.counts ≤ length records =
        omega (arith, (handle_records-Counts records chaos 0 []).counts started) in
      rw loaded (rw (emit-counts ended) bound)
