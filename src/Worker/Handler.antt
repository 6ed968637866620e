-- ===== src/Worker/Handler.antt =====
-- worker/app.py: a record, and the batch.
pub mod Effects
pub mod Moves
pub mod Settled
pub mod Batch
pub mod NoLoss
pub mod Total
pub mod Counts
pub mod Counted
use salesforce_erp_sync.Common.{
  ℕ, suc, ◌+◌, String, Bool, true, false, Option, none, some, List, [], ◌∷◌, ◌++◌, map, length, ltb,
  if◌then◌else◌, ℤ, pos, Dict,
}
use salesforce_erp_sync.Python.Json.{Json, int, text}
use salesforce_erp_sync.Outcome
use salesforce_erp_sync.Outcome.{Exn, Outcome, ok, raised, str_of_exn}
use salesforce_erp_sync.Exec.{Exec, pure, lift, gets, ◌>>=◌, ◌>>◌}
use salesforce_erp_sync.Aws.Client.{Aws}
use salesforce_erp_sync.Erp.Writer.{WriteResult, Order, write_order}
use salesforce_erp_sync.Worker.Backoff.{next_visibility_timeout}
use salesforce_erp_sync.Worker.Classify.{Kind, transient, permanent, Decision, classify}
use salesforce_erp_sync.Worker.Mapping.{Builtins, parse_body, to_order}
use salesforce_erp_sync.Worker.Chaos
use salesforce_erp_sync.Worker.Chaos.{Chaos, maybe_crash, maybe_fail_erp}
use salesforce_erp_sync.Worker.Logs.{Process, on_world, log, emit}
use salesforce_erp_sync.Worker.App.{
  Settings, SqsRecord, RecordOutcome, dead_lettered, retry, dlq_send_failed, metric_for, is_retry,
  no_counts, counted, result_value, outcome_of, event_key_of, attempt_of, delay_redelivery,
  dead_letter,
}

-- `_out_of_time`
abbrev pub out_of_time : Settings → Option ℕ → Bool
out_of_time set none = false
out_of_time set (some remaining) = ltb remaining set.time_guard_ms

-- `failures.append(...)`, for an outcome in RETRY_OUTCOMES
abbrev pub noted : RecordOutcome → SqsRecord → List String → List String
noted outcome r failures = if is_retry outcome then failures ++ r.message_id ∷ [] else failures

-- `to_order(parse_body(record["body"]))`
abbrev pub order_of : Builtins → SqsRecord → Outcome Order
order_of py r = Outcome.◌>>=◌ (parse_body py r.body) (to_order py)

-- `"dead_lettered" if parked else "dlq_send_failed"`
abbrev pub parked : Bool → RecordOutcome
parked true = dead_lettered
parked false = dlq_send_failed

module _ (aws : Aws) (set : Settings) where
  abbrev pub write_now : Order → Exec aws.World WriteResult
  write_now order = do now ← gets aws.now_iso; write_order aws set.environ order now

  unfoldable pub process : Builtins → SqsRecord → Chaos → Exec aws.World WriteResult
  process py r chaos = do order ← lift (order_of py r); maybe_fail_erp aws chaos; write_now order

-- the fields of the log line of a retry
abbrev pub retry_fields : SqsRecord → String → ℤ → Exn → ℕ → Dict Json
retry_fields r reason attempt exc delay =
    ("event_key", text (event_key_of r))
    ∷ ("reason", text reason)
    ∷ ("error", text (str_of_exn exc))
    ∷ ("attempt", int attempt)
    ∷ ("retry_in_s", int (pos delay))
    ∷ []

abbrev pub settled_fields : SqsRecord → ℤ → Dict Json
settled_fields r attempt = ("event_key", text (event_key_of r)) ∷ ("attempt", int attempt) ∷ []

module _ {aws : Aws} (py : Builtins) (set : Settings) where
  -- the `except` part of `handle_record`
  abbrev pub give_up : SqsRecord → String → Exn → Exec (Process aws) RecordOutcome
  give_up r reason exc = do
    done ← dead_letter py set r reason (str_of_exn exc) (event_key_of r)
    pure (parked done)

  abbrev pub put_off : SqsRecord → String → ℤ → Exn → Exec (Process aws) RecordOutcome
  put_off r reason attempt exc = do
    random ← on_world (gets aws.random)
    delay ← lift (next_visibility_timeout set.scale attempt set.backoff_base set.backoff_cap random)
    λ p. (ok tt, log set.service "warn" "retry" (retry_fields r reason attempt exc delay) p)
    delay_redelivery py set r delay
    pure retry

  abbrev pub on_decision : SqsRecord → ℤ → Exn → Kind → String → Exec (Process aws) RecordOutcome
  on_decision r attempt exc permanent reason = give_up r reason exc
  on_decision r attempt exc transient reason = put_off r reason attempt exc

  abbrev pub conclude : SqsRecord → ℤ → Outcome WriteResult → Exec (Process aws) RecordOutcome
  conclude r attempt (ok result) p = (
    ok (outcome_of result),
    log set.service "info" (result_value result) (settled_fields r attempt) p,
  )
  conclude r attempt (raised exc) p =
      on_decision r attempt exc (classify exc).kind (classify exc).reason p

  unfoldable pub handle_record : SqsRecord → Chaos → Exec (Process aws) RecordOutcome
  unfolding process
  handle_record r chaos = do
    attempt ← lift (attempt_of r)
    λ p.
        (let (result, p') = on_world (process aws set py r chaos) p in conclude r attempt result p')

  -- the early exit of the loop
  abbrev pub returned : List SqsRecord → List String → Exec (Process aws) (List String)
  returned rs failures p = (
    ok (failures ++ map (λ r. r.message_id) rs),
    log set.service "warn" "near timeout, returning unprocessed records"
        (("remaining", int (pos (length rs))) ∷ []) p,
  )

  -- a record in the loop: the outcome, its count, and the crash that chaos asks for
  unfoldable pub handle_one : Chaos → ℕ → SqsRecord → Exec (Process aws) RecordOutcome
  unfolding handle_record
  handle_one chaos i r = do
    outcome ← handle_record r chaos
    λ p. (ok tt, record p { counts = counted (metric_for outcome) p.counts })
    lift (maybe_crash chaos (i + 1))
    pure outcome

  -- the loop of `handler` from index `i` on
  unfoldable pub handle_records :
      Chaos → ℕ → List SqsRecord → List String → Exec (Process aws) (List String)
  unfolding handle_one
  handle_records chaos i [] failures = pure failures
  handle_records chaos i (r ∷ rs) failures = do
    remaining ← on_world (gets aws.remaining_ms)
    if out_of_time set remaining then returned (r ∷ rs) failures else (do
      outcome ← handle_one chaos i r
      handle_records chaos (i + 1) rs (noted outcome r failures))

  -- `try: m finally: emit(...)`
  abbrev with_metrics : {A : Type 0} → Exec (Process aws) A → Exec (Process aws) A
  with_metrics m p = let (result, p') = m p in (result, emit set.service p')

  -- `handler`; the queue URLs of the warm process stay
  unfoldable pub handler : List SqsRecord → Exec (Process aws) (List String)
  unfolding handle_records
  handler records = do
    chaos ← on_world (Chaos.load aws set.param_prefix)
    λ p. (ok tt, record p { counts = no_counts })
    with_metrics (handle_records chaos 0 records [])
