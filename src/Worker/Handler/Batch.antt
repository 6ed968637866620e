-- ===== src/Worker/Handler/Batch.antt =====
-- The batch of worker/app.py: what a record's outcome says, and what the response leaves out.
use mathlib.Core.Path.{subst}
use salesforce_erp_sync.Common.{
  String, ◌≡◌, refl, ◌∙◌, sym, ap, Bool, true, false, Option, ℤ, inl, inr,
}
use salesforce_erp_sync.Outcome.{Exn, Outcome, ok, raised, str_of_exn}
use salesforce_erp_sync.Exec.{pure, lift, gets, attempt}
use salesforce_erp_sync.Exec.Keeps.{bind_ok, attempt_ok, Yields, pure-Yields, bind-Yields}
use salesforce_erp_sync.Aws.Client.{Aws, Message}
use salesforce_erp_sync.Aws.Dynamo.{IsDynamo}
use salesforce_erp_sync.Aws.Services.{IsServices}
use salesforce_erp_sync.Erp.Writer.{WriteResult}
use salesforce_erp_sync.Erp.Effect.{IsConfig}
use salesforce_erp_sync.Erp.History.{IsConsistent}
use salesforce_erp_sync.Worker.Backoff.{next_visibility_timeout}
use salesforce_erp_sync.Worker.Classify.{Kind, transient, permanent, classify}
use salesforce_erp_sync.Worker.Mapping.{Builtins}
use salesforce_erp_sync.Worker.Chaos.{Chaos}
use salesforce_erp_sync.Worker.Logs.{Process, on_world, log}
use salesforce_erp_sync.Worker.App.{
  Settings, SqsRecord, RecordOutcome, retry, parked_message, queue_url, event_key_of, attempt_of,
  park, not_parked, dead_letter, delay_redelivery, is_retry,
}
use salesforce_erp_sync.Worker.Handler.{
  retry_fields, parked, process, give_up, put_off, on_decision, conclude, handle_record,
}
use salesforce_erp_sync.Worker.Handler.Effects.{Quiet-Goes}
use salesforce_erp_sync.Worker.Handler.Moves.{process-Goes}
use salesforce_erp_sync.Worker.Handler.Settled.{
  Settled, in_queue, Settled-later, IsConsistent-later, process-Settled,
}

abbrev IsRetry : RecordOutcome → Type 0
IsRetry out = is_retry out ≡ true

acked_retry : {A : Type 0} (b : Bool) → b ≡ true → b ≡ false → A
acked_retry b h k = cc

module _ {aws : Aws} (py : Builtins) (set : Settings) (s : IsServices aws) where
  -- A message with this body was accepted.
  abbrev Parked : SqsRecord → Process aws → Type 0
  Parked r p = (m : Message) × (m.body ≡ r.body) × aws.accepted p.world m

  park_ok :
      (r : SqsRecord) (reason detail key now : String) (p : Process aws)
      → (park {aws = aws} py set r reason detail key now p).0 ≡ ok true
      → Parked r (park py set r reason detail key now p).1
  unfolding log
  park_ok r reason detail key now p h =
      let (url, found, same) = bind_ok (queue_url set.dlq_name r) _ p h in
      let p₁ = (queue_url set.dlq_name r p).1 in
      let m = parked_message r url reason detail key now in
      let (u, sent, same') =
        bind_ok (on_world (aws.send_message m)) _ p₁ (sym (ap (λ x. x.0) same) ∙ h) in
      let w = (aws.send_message m p₁.world).1 in
      subst (λ x. Parked r x.1) (sym (same ∙ same'))
        (m, refl, (s.now_quiet w).mail m (s.sent m p₁.world sent))

  false-ne-true : {A : Type 0} → ok false ≡ ok true → A
  false-ne-true h = cc

  dead_letter_ok :
      (r : SqsRecord) (reason detail key : String) (p : Process aws)
      → (dead_letter py set r reason detail key p).0 ≡ ok true
      → Parked r (dead_letter py set r reason detail key p).1
  unfolding dead_letter
  dead_letter_ok r reason detail key p h =
      let now = (aws.now_iso p.world).0 in
      let p₁ : Process aws = record p { world = (aws.now_iso p.world).1 } in
      elim (attempt_ok (park py set r reason detail key now) (not_parked py set key) p₁ h) [
        | inl (sent, same) ↦
            subst (λ x. Parked r x) (sym (ap (λ x. x.1) same))
              (park_ok r reason detail key now p₁ sent)
        | inr (exc, failed, same) ↦ false-ne-true (sym (ap (λ x. x.0) same) ∙ h)
      ]

  parked-true :
      (b : Bool) {out : RecordOutcome} → ok (parked b) ≡ ok out → is_retry out ≡ false → b ≡ true
  parked-true true e h = refl
  parked-true false {out} e h =
      let same : parked false ≡ out = cc e in acked_retry (is_retry out) (sym (ap is_retry same)) h

  give_up_ok :
      (r : SqsRecord) (reason : String) (exc : Exn) (p : Process aws) {out : RecordOutcome}
      → (give_up py set r reason exc p).0 ≡ ok out
      → is_retry out ≡ false
      → Parked r (give_up py set r reason exc p).1
  give_up_ok r reason exc p h acked =
      let (done, sent, same) =
        bind_ok (dead_letter py set r reason (str_of_exn exc) (event_key_of r))
          (λ b. pure (parked b)) p h in
      let is_done = parked-true done (sym (ap (λ x. x.0) same) ∙ h) acked in
      subst (λ x. Parked r x.1) (sym same)
        (dead_letter_ok r reason (str_of_exn exc) (event_key_of r) p (sent ∙ ap ok is_done))

  put_off-Yields :
      (r : SqsRecord) (reason : String) (attempt : ℤ) (exc : Exn)
      → Yields IsRetry (put_off {aws = aws} py set r reason attempt exc)
  put_off-Yields r reason attempt exc = bind-Yields IsRetry (on_world (gets aws.random)) λ random.
      bind-Yields IsRetry
        (lift (next_visibility_timeout set.scale attempt set.backoff_base set.backoff_cap random))
        λ delay.
          bind-Yields IsRetry
            (λ p.
              (ok tt, log set.service "warn" "retry" (retry_fields r reason attempt exc delay) p))
            λ _.
              bind-Yields IsRetry (delay_redelivery py set r delay)
                λ _. pure-Yields IsRetry retry refl

  conclude_ok :
      (r : SqsRecord) (attempt : ℤ) (exc : Exn) (k : Kind) (reason : String) (p : Process aws)
      {out : RecordOutcome}
      → (on_decision py set r attempt exc k reason p).0 ≡ ok out
      → is_retry out ≡ false
      → Parked r (on_decision py set r attempt exc k reason p).1
  conclude_ok r attempt exc permanent reason p h acked = give_up_ok r reason exc p h acked
  conclude_ok r attempt exc transient reason p h acked =
      acked_retry _ ((put_off-Yields r reason attempt exc).yields p _ h) acked

  module _ (d : IsDynamo aws) (config : IsConfig set.environ) where
    abbrev SettledIn : SqsRecord → Process aws → Type 0
    SettledIn r p = Settled aws set.environ py r p.world

    conclude-Settled :
        (r : SqsRecord) (attempt : ℤ) (f : String → Option ℤ) (p : Process aws)
        (result : Outcome WriteResult) {out : RecordOutcome}
        → ((x : WriteResult) → result ≡ ok x → SettledIn r p)
        → (conclude py set r attempt result p).0 ≡ ok out
        → is_retry out ≡ false
        → IsConsistent aws set.environ p.world f
        → SettledIn r (conclude py set r attempt result p).1
    unfolding log
    conclude-Settled r attempt f p (ok x) settled h acked consistent =
        Settled-later py set s d config r f p.world _ consistent
          (Quiet-Goes aws set.environ (s.now_quiet p.world)) (settled x refl)
    conclude-Settled r attempt f p (raised exc) settled h acked consistent =
        let (m, same, accepted) =
          conclude_ok r attempt exc (classify exc).kind (classify exc).reason p h acked in
        in_queue m same accepted

    -- A record whose outcome is acknowledged is settled when `handle_record` returns.
    pub handle_record-Settled :
        (r : SqsRecord) (chaos : Chaos) (f : String → Option ℤ) (p : Process aws)
        {out : RecordOutcome}
        → IsConsistent aws set.environ p.world f
        → (handle_record py set r chaos p).0 ≡ ok out
        → is_retry out ≡ false
        → SettledIn r (handle_record py set r chaos p).1
    unfolding handle_record
    handle_record-Settled r chaos f p consistent h acked =
        let (attempt, counted_, same) = bind_ok (lift (attempt_of r)) _ p h in
        let worked = process aws set py r chaos p.world in
        let p₁ : Process aws = record p { world = worked.1 } in
        let (g, consistent') =
          IsConsistent-later py set s d config f p.world worked.1 consistent
            ((process-Goes py set s d r chaos).kept p.world) in
        subst (λ x. SettledIn r x.1) (sym same)
          (conclude-Settled r attempt g p₁ worked.0
            (λ x e. process-Settled py set s d config r chaos f p.world consistent e)
            (sym (ap (λ x. x.0) same) ∙ h) acked consistent')
