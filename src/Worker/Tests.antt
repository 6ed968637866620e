-- ===== src/Worker/Tests.antt =====
-- Runs of the worker on the in-memory AWS, and the theorems at them.
use salesforce_erp_sync.Common.{
  ℕ, ◌⊎◌, ◌+◌, ◌*◌, ◌/◌, ◌≤◌, String, ◌≡◌, refl, true, none, some, List, [], ◌∷◌, pos, arith,
  str_eq, if◌then◌else◌, length, Each, none_left, also, contains, min, codes, split_on,
}
use salesforce_erp_sync.Python.Decimal.{of_int, truncated, int_of_text}
use salesforce_erp_sync.Python.Regex.{date_match, is_decimal}
use salesforce_erp_sync.Python.Json.{int, text, object, Fields, end, field, get_or_null, truthy}
use salesforce_erp_sync.Outcome.{ok, raised, permanent_error, class_name, ◌>>=◌}
use salesforce_erp_sync.Aws.Memory.{memory, memory-IsDynamo, memory-IsServices}
use salesforce_erp_sync.Erp.Writer.{Order, write_order}
use salesforce_erp_sync.Erp.Tests.{start, default-IsConfig, no_versions, start-IsConsistent}
use salesforce_erp_sync.Worker.Backoff.{max_visibility_timeout, ceil_div, next_visibility_timeout}
use salesforce_erp_sync.Worker.Backoff.Bounds.{delay, next_visibility_timeout_bounds, retry_budget}
use salesforce_erp_sync.Worker.Classify.{permanent, classify}
use salesforce_erp_sync.Worker.Mapping.{
  Builtins, value, decode_error, other_error, parse_body, to_order,
}
use salesforce_erp_sync.Worker.Mapping.Refusals.{reasons, order_of_refused}
use salesforce_erp_sync.Worker.Mapping.Valid.{IsEventOf, to_order_sound, to_order_complete}
use salesforce_erp_sync.Worker.Chaos
use salesforce_erp_sync.Worker.Chaos.{Chaos, off}
use salesforce_erp_sync.Worker.Logs.{Process, log, emit}
use salesforce_erp_sync.Worker.App.{Settings, SqsRecord, no_counts, attempt_of, dead_letter}
use salesforce_erp_sync.Worker.Handler.{handler}
use salesforce_erp_sync.Worker.Handler.NoLoss.{Accounted, handler_loses_nothing}
use salesforce_erp_sync.Worker.Handler.Counts.{total, handler_counts_bounds}
use salesforce_erp_sync.Worker.Handler.Counted.{Accounts, handler-Accounts}
use salesforce_erp_sync.Worker.Handler.Total.{HasCount, handler_returns}

abbrev settings : Settings
settings = record {
  param_prefix = "/relay";
  dlq_name = "relay-events-dlq";
  scale = 1;
  backoff_base = 60;
  backoff_cap = 900;
  time_guard_ms = 5000;
  service = "worker";
  environ = [];
}

abbrev opportunity : Fields
opportunity = field "id" (text "006000000000001") (
    field "name" (text "Anvils") (
      field "amount" (int (pos 1200)) (
        field "close_date" (text "2026-09-22") (
          field "account_id" (text "001000000000001") (
            field "account_name" (text "Acme")
              (field "system_modstamp" (text "2026-09-22T10:00:00.000Z") end))))))

abbrev event : Fields
event = field "schema" (text "relay.opportunity.v1") (
    field "event_key" (text "006000000000001:2026-09-22T10:00:00.000Z")
      (field "version" (int (pos 1790071200000)) (field "opportunity" (object opportunity) end)))

abbrev pub order : Order
order = record {
  order_id = "006000000000001";
  customer_id = "001000000000001";
  customer_name = "Acme";
  opportunity_name = "Anvils";
  total = of_int (pos 1200);
  order_date = "2026-09-22";
  version = pos 1790071200000;
  source_modstamp = "2026-09-22T10:00:00.000Z";
  event_key = "006000000000001:2026-09-22T10:00:00.000Z";
}

abbrev pub python : Builtins
python = record {
  loads = λ body.
      if str_eq body "{" then decode_error "Expecting property name" else value (object event);
  str_of_value = λ v. "";
  repr_of_exn = class_name;
}

abbrev message : String → String → SqsRecord
message id body = record {
  message_id = id;
  receipt_handle = id;
  body = body;
  receive_count = some "1";
  event_key = none;
  event_source_arn = "arn:aws:sqs:us-east-1:000000000000:relay-events";
}

abbrev batch : List SqsRecord
batch = message "m1" "deal" ∷ message "m2" "{" ∷ []

process_start : Process memory
process_start = record { world = start; queue_urls = []; counts = no_counts; printed = [] }

is_order : to_order python event ≡ ok order
unfolding to_order get_or_null of_int date_match codes is_decimal truthy
is_order = refl

to_order_sound_example : IsEventOf python event order
to_order_sound_example = to_order_sound python event order is_order

to_order_complete_example : to_order python event ≡ ok order
to_order_complete_example = to_order_complete python event order to_order_sound_example

bad_body :
    (parse_body python "{" >>= to_order python)
    ≡ raised (permanent_error "malformed_json" "Expecting property name")
unfolding parse_body
bad_body = refl

order_of_refused_example :
    (python.loads "{" ≡ other_error (permanent_error "malformed_json" "Expecting property name"))
    ⊎ (((classify (permanent_error "malformed_json" "Expecting property name")).kind ≡ permanent)
        × (contains reasons
              (classify (permanent_error "malformed_json" "Expecting property name")).reason
            ≡ true))
order_of_refused_example =
    order_of_refused python "{" (permanent_error "malformed_json" "Expecting property name")
      bad_body

next_visibility_timeout_bounds_example :
    (d : ℕ) × (next_visibility_timeout 1 (pos 3) 60 900 7 ≡ ok d)
    × (min max_visibility_timeout (delay (pos 3) 60 900 / 1) ≤ d)
    × (d ≤ max_visibility_timeout)
    × (d ≤ ceil_div (delay (pos 3) 60 900 + 60) 1)
next_visibility_timeout_bounds_example =
    next_visibility_timeout_bounds 1 60 900 7 (pos 3) (omega arith) (omega arith) (omega arith)

retry_budget_example : (15 * 60 ≤ 60 + 120 + 240 + 480) × (60 + 120 + 240 + 480 ≤ 19 * 60)
unfolding next_visibility_timeout ceil_div
retry_budget_example =
    retry_budget 1 0 0 0 0 60 120 240 480 (omega arith)
      (omega arith, omega arith, omega arith, omega arith) refl refl refl refl

chaos_off : (Chaos.load memory settings.param_prefix start).0 ≡ ok off
unfolding memory Chaos.load truncated of_int
chaos_off = refl

counted_once : (id body : String) → HasCount (message id body)
unfolding attempt_of int_of_text
counted_once id body = (pos 1, refl, omega arith)

counts_known : Each HasCount batch
counts_known = also (counted_once "m1" "deal") (also (counted_once "m2" "{") none_left)

handler_returns_example :
    (response : List String) × ((handler python settings batch process_start).0 ≡ ok response)
unfolding process_start
handler_returns_example =
    handler_returns python settings batch process_start off chaos_off (omega arith) counts_known

handled : (handler python settings batch process_start).0 ≡ ok []
unfolding memory handler Chaos.load attempt_of int_of_text parse_body to_order get_or_null of_int
    date_match codes is_decimal truthy Chaos.maybe_fail_erp write_order process_start
    Chaos.maybe_crash truncated classify dead_letter log emit split_on
handled = refl

handler_loses_nothing_example :
    Each
      (Accounted python settings memory-IsServices memory-IsDynamo default-IsConfig []
        (handler python settings batch process_start).1)
      batch
unfolding process_start
handler_loses_nothing_example =
    handler_loses_nothing python settings memory-IsServices memory-IsDynamo default-IsConfig batch
      no_versions process_start [] start-IsConsistent handled

handler_counts_bounds_example :
    total (handler python settings batch process_start).1.counts ≤ length batch
unfolding process_start
handler_counts_bounds_example =
    handler_counts_bounds python settings batch process_start off chaos_off

handler-Accounts_example :
    Accounts memory python settings batch [] (handler python settings batch process_start).1.counts
unfolding process_start
handler-Accounts_example = handler-Accounts memory python settings batch process_start [] handled
