-- ===== src/Worker/Handler/Total.antt =====
-- One bad record never fails the batch: worker/app.py returns, whatever the events hold and whatever
-- DynamoDB and SQS do.
use salesforce_erp_sync.Common.{
  ℕ, ◌+◌, ◌-◌, ◌≤◌, leb, String, ◌≡◌, refl, Bool, true, false, List, [], ◌∷◌, ◌++◌, map, ℤ, pos,
  ◌≤ℤ◌, pos_part, arith, if◌then◌else◌, length, Each, none_left, also,
}
use salesforce_erp_sync.Python.Json.{text, int}
use salesforce_erp_sync.Outcome.{Exn, Outcome, ok, raised, str_of_exn}
use salesforce_erp_sync.Exec.{Exec, lift, ◌>>=◌}
use salesforce_erp_sync.Exec.Returns.{
  Returns, result-Returns, lift-Returns, gets-Returns, bind-Returns, attempt-Returns, if-Returns,
}
use salesforce_erp_sync.Aws.Client.{Aws}
use salesforce_erp_sync.Erp.Writer.{WriteResult}
use salesforce_erp_sync.Worker.Backoff.{next_visibility_timeout}
use salesforce_erp_sync.Worker.Classify.{Kind, transient, permanent, classify}
use salesforce_erp_sync.Worker.Mapping.{Builtins}
use salesforce_erp_sync.Worker.Chaos
use salesforce_erp_sync.Worker.Chaos.{Chaos, maybe_crash}
use salesforce_erp_sync.Worker.Logs.{Process, on_world, log}
use salesforce_erp_sync.Worker.App.{
  Settings, SqsRecord, RecordOutcome, retry, queue_url, event_key_of, attempt_of, park, dead_letter,
  delay_redelivery, queue_name, failed_fields, outcome_of, result_value, metric_for, counted,
  no_counts,
}
use salesforce_erp_sync.Worker.Handler.{
  retry_fields, settled_fields, parked, process, put_off, on_decision, conclude, handle_record,
  handle_one, handle_records, noted, out_of_time, returned, handler,
}

-- The receive count is a number of at most 1024.
abbrev pub HasCount : SqsRecord → Type 0
HasCount r = (k : ℤ) × (attempt_of r ≡ ok k) × (pos_part k ≤ 1024)

else_ok :
    {A : Type 0} (b : Bool) (e : Exn) (x : A)
    → b ≡ false
    → (a : A) × ((if b then raised e else ok x) ≡ ok a)
else_ok true e x h = cc
else_ok false e x h = (x, refl)

next_visibility_timeout-ok :
    (scale base limit x : ℕ) (attempt : ℤ)
    → pos_part attempt ≤ 1024
    → (d : ℕ) × (next_visibility_timeout scale attempt base limit x ≡ ok d)
unfolding next_visibility_timeout
next_visibility_timeout-ok scale base limit x attempt h =
    else_ok (leb 1024 (pos_part attempt - 1)) _ _ (ground arith)

maybe_crash_off : (chaos : Chaos) (i : ℕ) → chaos.crash_after ≤ℤ pos 0 → maybe_crash chaos i ≡ ok tt
unfolding maybe_crash
maybe_crash_off chaos i h = ground arith

module _ {aws : Aws} (py : Builtins) (set : Settings) where
  on_world-Returns :
      {A : Type 0} {m : Exec aws.World A} → Returns m → Returns (on_world {aws = aws} m)
  on_world-Returns h = record { returns = λ p. h.returns p.world }

  delay_redelivery-Returns :
      (r : SqsRecord) (seconds : ℕ) → Returns (delay_redelivery {aws = aws} py set r seconds)
  unfolding delay_redelivery
  delay_redelivery-Returns r seconds =
      attempt-Returns
        (do
          name ← lift (queue_name r)
          url ← queue_url name r
          on_world (aws.change_message_visibility url r.receipt_handle seconds))
        λ exc. result-Returns tt (
          log set.service "warn" "could not set backoff"
            (("error", text (py.repr_of_exn exc)) ∷ []))

  dead_letter-Returns :
      (r : SqsRecord) (reason detail key : String)
      → Returns (dead_letter {aws = aws} py set r reason detail key)
  unfolding dead_letter
  dead_letter-Returns r reason detail key =
      bind-Returns (on_world-Returns (gets-Returns aws.now_iso)) λ now.
        attempt-Returns (park py set r reason detail key now) λ exc. result-Returns false (
          log set.service "error" "dead-letter send failed"
            (failed_fields key (py.repr_of_exn exc)))

  put_off-Returns :
      (r : SqsRecord) (reason : String) (attempt : ℤ) (exc : Exn)
      → pos_part attempt ≤ 1024
      → Returns (put_off {aws = aws} py set r reason attempt exc)
  put_off-Returns r reason attempt exc few =
      bind-Returns (on_world-Returns (gets-Returns aws.random)) λ random.
        let (d, e) =
          next_visibility_timeout-ok set.scale set.backoff_base set.backoff_cap random attempt
            few in
        bind-Returns
          (lift-Returns
            (next_visibility_timeout set.scale attempt set.backoff_base set.backoff_cap random) e)
          λ delay.
            bind-Returns
              (result-Returns tt
                (log set.service "warn" "retry" (retry_fields r reason attempt exc delay)))
              λ _. bind-Returns (delay_redelivery-Returns r delay) λ _. lift-Returns (ok retry) refl

  on_decision-Returns :
      (r : SqsRecord) (attempt : ℤ) (exc : Exn) (k : Kind) (reason : String)
      → pos_part attempt ≤ 1024
      → Returns (on_decision {aws = aws} py set r attempt exc k reason)
  on_decision-Returns r attempt exc permanent reason few =
      bind-Returns (dead_letter-Returns r reason (str_of_exn exc) (event_key_of r))
        λ done. lift-Returns (ok (parked done)) refl
  on_decision-Returns r attempt exc transient reason few = put_off-Returns r reason attempt exc few

  conclude-Returns :
      (r : SqsRecord) (attempt : ℤ) (result : Outcome WriteResult)
      → pos_part attempt ≤ 1024
      → Returns (conclude {aws = aws} py set r attempt result)
  conclude-Returns r attempt (ok result) few =
      result-Returns (outcome_of result)
        (log set.service "info" (result_value result) (settled_fields r attempt))
  conclude-Returns r attempt (raised exc) few = record {
    returns = λ p.
        (on_decision-Returns r attempt exc (classify exc).kind (classify exc).reason few).returns p;
  }

  handle_record-Returns :
      (r : SqsRecord) (chaos : Chaos)
      → HasCount r
      → Returns (handle_record {aws = aws} py set r chaos)
  unfolding handle_record
  handle_record-Returns r chaos (k, e, few) = record {
    returns = λ p.
        let worked = on_world (process aws set py r chaos) p in
        rw e ((conclude-Returns r k worked.0 few).returns worked.1);
  }

  handle_one-Returns :
      (chaos : Chaos) (i : ℕ) (r : SqsRecord)
      → chaos.crash_after ≤ℤ pos 0
      → HasCount r
      → Returns (handle_one {aws = aws} py set chaos i r)
  unfolding handle_one
  handle_one-Returns chaos i r off few = bind-Returns (handle_record-Returns r chaos few) λ out.
      bind-Returns (counted-Returns out) λ _.
        bind-Returns (lift-Returns (maybe_crash chaos (i + 1)) (maybe_crash_off chaos (i + 1) off))
          λ _. lift-Returns (ok out) refl
    where
      counted-Returns :
          (out : RecordOutcome)
          → Returns {S = Process aws}
              (λ p. (ok tt, record p { counts = counted (metric_for out) p.counts }))
      counted-Returns out = record { returns = λ p. (tt, refl) }

  handle_records-Returns :
      (rs : List SqsRecord) (chaos : Chaos) (i : ℕ) (failures : List String)
      → chaos.crash_after ≤ℤ pos 0
      → Each HasCount rs
      → Returns (handle_records {aws = aws} py set chaos i rs failures)
  unfolding handle_records
  handle_records-Returns [] chaos i failures off none_left = lift-Returns (ok failures) refl
  handle_records-Returns (r ∷ rs) chaos i failures off (also few fews) =
      bind-Returns (on_world-Returns (gets-Returns aws.remaining_ms)) λ remaining.
        if-Returns (out_of_time set remaining) (returned-Returns (r ∷ rs)) (
          bind-Returns (handle_one-Returns chaos i r off few)
            λ out. handle_records-Returns rs chaos (i + 1) (noted out r failures) off fews)
    where
      returned-Returns :
          (xs : List SqsRecord) → Returns {S = Process aws} (returned py set xs failures)
      returned-Returns xs = result-Returns (failures ++ map (λ x. x.message_id) xs) (
          log set.service "warn" "near timeout, returning unprocessed records"
            (("remaining", int (pos (length xs))) ∷ []))

  -- `handler` returns a response, whatever the bodies hold and whatever DynamoDB and SQS do, when the
  -- chaos that it loads does not ask for a crash and each receive count is a number of at most 1024.
  pub handler_returns :
      (records : List SqsRecord) (p : Process aws) (chaos : Chaos)
      → (Chaos.load aws set.param_prefix p.world).0 ≡ ok chaos
      → chaos.crash_after ≤ℤ pos 0
      → Each HasCount records
      → (response : List String) × ((handler py set records p).0 ≡ ok response)
  unfolding handler
  handler_returns records p chaos loaded off few =
      let started : Process aws = record p {
        world = (Chaos.load aws set.param_prefix p.world).1;
        counts = no_counts;
      } in
      rw loaded ((handle_records-Returns records chaos 0 [] off few).returns started)
