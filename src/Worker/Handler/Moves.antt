-- ===== src/Worker/Handler/Moves.antt =====
-- The parts of worker/app.py on the whole process, by what they do to its world.
use salesforce_erp_sync.Common.{
  ℕ, String, true, false, Option, none, some, List, [], ◌∷◌, Dict, ℤ, lookup, insert, ◌+◌, ◌++◌,
  map, length, pos,
}
use salesforce_erp_sync.Python.Json.{Json, text, int}
use salesforce_erp_sync.Outcome.{Exn, Outcome, ok, raised, str_of_exn}
use salesforce_erp_sync.Exec.{Exec, gets, attempt}
use salesforce_erp_sync.Exec.Keeps.{
  Keeps, IsPreorder, pure-Keeps, lift-Keeps, bind-Keeps, attempt-Keeps, if-Keeps,
}
use salesforce_erp_sync.Aws.Client.{Aws}
use salesforce_erp_sync.Aws.Dynamo.{IsDynamo}
use salesforce_erp_sync.Aws.Services.{Quiet, IsServices}
use salesforce_erp_sync.Erp.Writer.{Order, WriteResult}
use salesforce_erp_sync.Worker.Backoff.{next_visibility_timeout}
use salesforce_erp_sync.Worker.Classify.{Kind, transient, permanent, classify}
use salesforce_erp_sync.Worker.Mapping.{Builtins}
use salesforce_erp_sync.Worker.Chaos.{Chaos, is_on, hits, throttled, maybe_crash, maybe_fail_erp}
use salesforce_erp_sync.Worker.Logs.{Process, on_world, log}
use salesforce_erp_sync.Worker.App.{
  Settings, SqsRecord, RecordOutcome, retry, parked_message, account_of, queue_name, ask_queue_url,
  known, queue_url, event_key_of, attempt_of, delay_redelivery, dead_letter, parked_fields,
  failed_fields, result_value, outcome_of, metric_for, counted,
}
use salesforce_erp_sync.Worker.Handler.{
  retry_fields, settled_fields, order_of, parked, write_now, process, give_up, put_off, on_decision,
  conclude, handle_record, handle_one, handle_records, returned, noted, out_of_time,
}
use salesforce_erp_sync.Worker.Handler.Effects.{Goes, Goes-IsPreorder, Quiet-Goes, write_order-Goes}

module _ {aws : Aws} (py : Builtins) (set : Settings) (s : IsServices aws) where
  open aws use {World}

  abbrev pub Moves : Process aws → Process aws → Type 0
  Moves p p' = Goes aws set.environ p.world p'.world

  abbrev pub moves : IsPreorder Moves
  moves = record {
    same = λ p. (Goes-IsPreorder aws set.environ).same p.world;
    chain = λ a b. (Goes-IsPreorder aws set.environ).chain a b;
  }

  abbrev goes : IsPreorder (Goes aws set.environ)
  goes = Goes-IsPreorder aws set.environ

  quietly :
      {A : Type 0} (m : Exec World A)
      → ((w : World) → Quiet aws w (m w).1)
      → Keeps Moves (on_world m)
  quietly m h = record { kept = λ p. Quiet-Goes aws set.environ (h p.world) }

  log-Moves :
      {A : Type 0} (a : A) (level msg : String) (fields : Dict Json)
      → Keeps Moves (λ p. (ok a, log set.service level msg fields p))
  unfolding log
  log-Moves a level msg fields = record {
    kept = λ p. Quiet-Goes aws set.environ (s.now_quiet p.world);
  }

  url-Moves :
      (name url : String)
      → Keeps Moves (λ p. (ok url, record p { queue_urls = insert name url p.queue_urls }))
  url-Moves name url = record { kept = λ p. goes.same p.world }

  ask_queue_url-Moves : (name : String) (r : SqsRecord) → Keeps Moves (ask_queue_url name r)
  unfolding ask_queue_url
  ask_queue_url-Moves name r = bind-Keeps moves (lift-Keeps moves (account_of r)) λ account.
      bind-Keeps moves (quietly (aws.get_queue_url name account) (s.queue_url_quiet name account))
        λ url. url-Moves name url

  known-Moves :
      (o : Option String) (m : Exec (Process aws) String) → Keeps Moves m → Keeps Moves (known o m)
  known-Moves none m h = h
  known-Moves (some url) m h = pure-Keeps moves url

  queue_url-Moves : (name : String) (r : SqsRecord) → Keeps Moves (queue_url name r)
  unfolding queue_url
  queue_url-Moves name r = record {
    kept = λ p. (known-Moves (lookup name p.queue_urls) _ (ask_queue_url-Moves name r)).kept p;
  }

  delay_redelivery-Moves :
      (r : SqsRecord) (seconds : ℕ) → Keeps Moves (delay_redelivery py set r seconds)
  unfolding delay_redelivery
  delay_redelivery-Moves r seconds =
      attempt-Keeps moves
        (bind-Keeps moves (lift-Keeps moves (queue_name r)) λ name.
          bind-Keeps moves (queue_url-Moves name r) λ url.
            quietly (aws.change_message_visibility url r.receipt_handle seconds)
              (s.visibility_quiet url r.receipt_handle seconds))
        λ exc.
          log-Moves tt "warn" "could not set backoff" (("error", text (py.repr_of_exn exc)) ∷ [])

  dead_letter-Moves :
      (r : SqsRecord) (reason detail key : String)
      → Keeps Moves (dead_letter py set r reason detail key)
  unfolding dead_letter
  dead_letter-Moves r reason detail key =
      bind-Keeps moves (quietly (gets aws.now_iso) s.now_quiet) λ now.
        attempt-Keeps moves
          (bind-Keeps moves (queue_url-Moves set.dlq_name r) λ url.
            bind-Keeps moves
              (quietly (aws.send_message (parked_message r url reason detail key now))
                (s.send_quiet (parked_message r url reason detail key now)))
              λ _. log-Moves true "warn" "dead_lettered" (parked_fields key reason detail))
          λ exc.
            log-Moves false "error" "dead-letter send failed"
              (failed_fields key (py.repr_of_exn exc))

  give_up-Moves :
      (r : SqsRecord) (reason : String) (exc : Exn) → Keeps Moves (give_up py set r reason exc)
  give_up-Moves r reason exc =
      bind-Keeps moves (dead_letter-Moves r reason (str_of_exn exc) (event_key_of r))
        λ done. pure-Keeps moves (parked done)

  put_off-Moves :
      (r : SqsRecord) (reason : String) (attempt : ℤ) (exc : Exn)
      → Keeps Moves (put_off py set r reason attempt exc)
  put_off-Moves r reason attempt exc =
      bind-Keeps moves (quietly (gets aws.random) s.random_quiet) λ random.
        bind-Keeps moves
          (lift-Keeps moves
            (next_visibility_timeout set.scale attempt set.backoff_base set.backoff_cap random))
          λ delay.
            bind-Keeps moves (log-Moves tt "warn" "retry" (retry_fields r reason attempt exc delay))
              λ _. bind-Keeps moves (delay_redelivery-Moves r delay) λ _. pure-Keeps moves retry

  on_decision-Moves :
      (r : SqsRecord) (attempt : ℤ) (exc : Exn) (k : Kind) (reason : String)
      → Keeps Moves (on_decision py set r attempt exc k reason)
  on_decision-Moves r attempt exc permanent reason = give_up-Moves r reason exc
  on_decision-Moves r attempt exc transient reason = put_off-Moves r reason attempt exc

  conclude-Moves :
      (r : SqsRecord) (attempt : ℤ) (result : Outcome WriteResult)
      → Keeps Moves (conclude py set r attempt result)
  conclude-Moves r attempt (ok result) =
      log-Moves (outcome_of result) "info" (result_value result) (settled_fields r attempt)
  conclude-Moves r attempt (raised exc) = record {
    kept = λ p. (on_decision-Moves r attempt exc (classify exc).kind (classify exc).reason).kept p;
  }

  pub maybe_fail_erp-Goes :
      (chaos : Chaos) → Keeps (Goes aws set.environ) (maybe_fail_erp aws chaos)
  unfolding maybe_fail_erp
  maybe_fail_erp-Goes chaos =
      if-Keeps goes (is_on chaos.erp_fail_rate)
        (bind-Keeps goes random_kept λ x. lift-Keeps goes (throttled (hits x chaos.erp_fail_rate)))
        (pure-Keeps goes tt)
    where
      random_kept : Keeps (Goes aws set.environ) (gets aws.random)
      random_kept = record { kept = λ w. Quiet-Goes aws set.environ (s.random_quiet w) }

  module _ (d : IsDynamo aws) where
    write_now-Goes : (order : Order) → Keeps (Goes aws set.environ) (write_now aws set order)
    write_now-Goes order =
        bind-Keeps goes now_kept λ now. write_order-Goes aws set.environ s order d now
      where
        now_kept : Keeps (Goes aws set.environ) (gets aws.now_iso)
        now_kept = record { kept = λ w. Quiet-Goes aws set.environ (s.now_quiet w) }

    pub process-Goes :
        (r : SqsRecord) (chaos : Chaos) → Keeps (Goes aws set.environ) (process aws set py r chaos)
    unfolding process
    process-Goes r chaos =
        bind-Keeps goes (lift-Keeps goes (order_of py r))
          λ order. bind-Keeps goes (maybe_fail_erp-Goes chaos) λ _. write_now-Goes order

    pub handle_record-Moves :
        (r : SqsRecord) (chaos : Chaos) → Keeps Moves (handle_record py set r chaos)
    unfolding handle_record
    handle_record-Moves r chaos = bind-Keeps moves (lift-Keeps moves (attempt_of r)) λ attempt.
        record {
          kept = λ p.
              let worked = on_world (process aws set py r chaos) p in
              goes.chain ((process-Goes r chaos).kept p.world)
                ((conclude-Moves r attempt worked.0).kept worked.1);
        }

    count-Moves :
        (out : RecordOutcome)
        → Keeps Moves (λ p. (ok tt, record p { counts = counted (metric_for out) p.counts }))
    count-Moves out = record { kept = λ p. goes.same p.world }

    pub handle_one-Moves :
        (chaos : Chaos) (i : ℕ) (r : SqsRecord) → Keeps Moves (handle_one py set chaos i r)
    unfolding handle_one
    handle_one-Moves chaos i r = bind-Keeps moves (handle_record-Moves r chaos) λ out.
        bind-Keeps moves (count-Moves out) λ _.
          bind-Keeps moves (lift-Keeps moves (maybe_crash chaos (i + 1))) λ _. pure-Keeps moves out

    returned-Moves :
        (rs : List SqsRecord) (failures : List String) → Keeps Moves (returned py set rs failures)
    returned-Moves rs failures =
        log-Moves (failures ++ map (λ r. r.message_id) rs) "warn"
          "near timeout, returning unprocessed records" (("remaining", int (pos (length rs))) ∷ [])

    pub remaining-Moves : Keeps Moves (on_world (gets aws.remaining_ms))
    remaining-Moves = quietly (gets aws.remaining_ms) s.remaining_quiet

    pub handle_records-Moves :
        (rs : List SqsRecord) (chaos : Chaos) (i : ℕ) (failures : List String)
        → Keeps Moves (handle_records py set chaos i rs failures)
    unfolding handle_records
    handle_records-Moves [] chaos i failures = pure-Keeps moves failures
    handle_records-Moves (r ∷ rs) chaos i failures = bind-Keeps moves remaining-Moves λ remaining.
        if-Keeps moves (out_of_time set remaining) (returned-Moves (r ∷ rs) failures) (
          bind-Keeps moves (handle_one-Moves chaos i r)
            λ out. handle_records-Moves rs chaos (i + 1) (noted out r failures))
