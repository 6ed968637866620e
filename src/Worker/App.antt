-- ===== src/Worker/App.antt =====
-- worker/app.py: one SQS batch in, a partial batch response out.
use salesforce_erp_sync.Common.{
  ℕ, ◌+◌, String, Bool, true, false, Option, none, some, [], ◌∷◌, map, get_elem?, str_eq,
  if◌then◌else◌, or_default, Dict, lookup, insert, ℤ, split_on, last_part, prefix,
}
use salesforce_erp_sync.Python.Decimal.{int_of_text}
use salesforce_erp_sync.Python.Json.{Json, text}
use salesforce_erp_sync.Outcome.{Exn, Outcome, ok, raised, other}
use salesforce_erp_sync.Exec.{Exec, pure, lift, gets, attempt, ◌>>=◌, ◌>>◌}
use salesforce_erp_sync.Aws.Client.{Aws, Message}
use salesforce_erp_sync.Erp.Writer.{WriteResult}
use salesforce_erp_sync.Worker.Mapping.{Builtins}
use salesforce_erp_sync.Worker.Logs.{Process, on_world, log}

-- The module's constants from the environment; the backoff is counted in ticks, `scale` to a second.
pub record Settings : Type 0 where
  pub param_prefix : String
  pub dlq_name : String
  pub scale : ℕ
  pub backoff_base : ℕ
  pub backoff_cap : ℕ
  pub time_guard_ms : ℕ
  pub service : String
  pub environ : Dict String

-- A record of the SQS event. The event key is the attribute's stringValue, where the message has it.
pub record SqsRecord : Type 0 where
  pub message_id : String
  pub receipt_handle : String
  pub body : String
  pub receive_count : Option String
  pub event_key : Option String
  pub event_source_arn : String

-- What `handle_record` returns.
pub data RecordOutcome : Type 0 where
  written duplicate stale dead_lettered retry dlq_send_failed : RecordOutcome

-- METRIC_FOR
abbrev pub metric_for : RecordOutcome → Option String
metric_for written = some "OrdersWritten"
metric_for duplicate = some "DuplicatesSkipped"
metric_for stale = some "StaleVersionsDropped"
metric_for retry = some "TransientRetries"
metric_for dead_lettered = some "DeadLettered"
metric_for dlq_send_failed = none

-- `outcome in RETRY_OUTCOMES`
abbrev pub is_retry : RecordOutcome → Bool
is_retry retry = true
is_retry dlq_send_failed = true
is_retry _ = false

-- `dict.fromkeys(METRIC_FOR.values(), 0)`
abbrev pub no_counts : Dict ℕ
no_counts =
    ("OrdersWritten", 0)
    ∷ ("DuplicatesSkipped", 0)
    ∷ ("StaleVersionsDropped", 0)
    ∷ ("TransientRetries", 0)
    ∷ ("DeadLettered", 0)
    ∷ []

-- `counts[METRIC_FOR[outcome]] += 1`
unfoldable pub counted : Option String → Dict ℕ → Dict ℕ
counted none counts = counts
counted (some name) counts = insert name (or_default (lookup name counts) 0 + 1) counts

-- `result.value`
abbrev pub result_value : WriteResult → String
result_value WriteResult.written = "written"
result_value WriteResult.duplicate = "duplicate"
result_value WriteResult.stale = "stale"

abbrev pub outcome_of : WriteResult → RecordOutcome
outcome_of WriteResult.written = written
outcome_of WriteResult.duplicate = duplicate
outcome_of WriteResult.stale = stale

-- `_event_key`
abbrev pub event_key_of : SqsRecord → String
event_key_of r = elim r.event_key [
  | none ↦ r.message_id
  | some k ↦ if str_eq k "" then r.message_id else k
]

-- `int(record["attributes"].get("ApproximateReceiveCount", "1"))`
unfoldable pub attempt_of : SqsRecord → Outcome ℤ
attempt_of r = elim (int_of_text (or_default r.receive_count "1")) [
  | none ↦ raised (other "ValueError" "invalid literal for int() with base 10")
  | some z ↦ ok z
]

index_error : Exn
index_error = other "IndexError" "list index out of range"

some_or_index_error : Option String → Outcome String
unfolding index_error
some_or_index_error none = raised index_error
some_or_index_error (some s) = ok s

-- `_queue_name`
unfoldable pub queue_name : SqsRecord → Outcome String
unfolding some_or_index_error
queue_name r = some_or_index_error (last_part (split_on b':' r.event_source_arn))

-- `str(record["eventSourceARN"]).split(":")[4]`
unfoldable pub account_of : SqsRecord → Outcome String
unfolding some_or_index_error
account_of r = some_or_index_error (get_elem? (split_on b':' r.event_source_arn) 4)

-- `v or "-"`
abbrev dash_if_empty : String × String → String × String
dash_if_empty (k, v) = (k, if str_eq v "" then "-" else v)

-- the message that `dead_letter` sends
abbrev pub parked_message : SqsRecord → String → String → String → String → String → Message
parked_message r url reason detail event_key now = record {
  queue_url = url;
  body = r.body;
  attributes = map dash_if_empty (
      ("reason", reason)
      ∷ ("detail", prefix 1000 detail)
      ∷ ("event_key", event_key)
      ∷ ("source_message_id", r.message_id)
      ∷ ("failed_at", now)
      ∷ []);
}

-- the fields of the two log lines of `dead_letter`
abbrev pub parked_fields : String → String → String → Dict Json
parked_fields event_key reason detail =
    ("event_key", text event_key) ∷ ("reason", text reason) ∷ ("detail", text detail) ∷ []

abbrev pub failed_fields : String → String → Dict Json
failed_fields event_key error = ("event_key", text event_key) ∷ ("error", text error) ∷ []

module _ {aws : Aws} where
  -- `client("sqs").get_queue_url(...)`, kept in `_queue_urls`
  unfoldable pub ask_queue_url : String → SqsRecord → Exec (Process aws) String
  unfolding account_of
  ask_queue_url name r = do
    account ← lift (account_of r)
    url ← on_world (aws.get_queue_url name account)
    λ p. (ok url, record p { queue_urls = insert name url p.queue_urls })

  -- the URL that is known, or the call
  abbrev pub known : Option String → Exec (Process aws) String → Exec (Process aws) String
  known (some url) m = pure url
  known none m = m

  -- `_queue_url`
  unfoldable pub queue_url : String → SqsRecord → Exec (Process aws) String
  unfolding ask_queue_url
  queue_url name r p = known (lookup name p.queue_urls) (ask_queue_url name r) p

module _ {aws : Aws} (py : Builtins) (set : Settings) where
  -- `_delay_redelivery`: a failure is logged and nothing else
  unfoldable pub delay_redelivery : SqsRecord → ℕ → Exec (Process aws) Unit
  unfolding queue_url queue_name
  delay_redelivery r seconds =
      attempt
        (do
          name ← lift (queue_name r)
          url ← queue_url name r
          on_world (aws.change_message_visibility url r.receipt_handle seconds))
        λ exc p. (
          ok tt,
          log set.service "warn" "could not set backoff" (("error", text (py.repr_of_exn exc)) ∷ [])
              p,
        )

  -- the `try` of `dead_letter`, and its `except`
  abbrev pub park : SqsRecord → String → String → String → String → Exec (Process aws) Bool
  park r reason detail event_key now = do
    url ← queue_url set.dlq_name r
    on_world (aws.send_message (parked_message r url reason detail event_key now))
    λ p. (ok true, log set.service "warn" "dead_lettered" (parked_fields event_key reason detail) p)

  abbrev pub not_parked : String → Exn → Exec (Process aws) Bool
  not_parked event_key exc p = (
    ok false,
    log set.service "error" "dead-letter send failed" (failed_fields event_key (py.repr_of_exn exc))
        p,
  )

  unfoldable pub dead_letter : SqsRecord → String → String → String → Exec (Process aws) Bool
  unfolding queue_url
  dead_letter r reason detail event_key = do
    now ← on_world (gets aws.now_iso)
    attempt (park r reason detail event_key now) (not_parked event_key)
