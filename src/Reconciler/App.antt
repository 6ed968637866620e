-- ===== src/Reconciler/App.antt =====
-- reconciler/app.py: the nightly run.
use salesforce_erp_sync.Common.{
  ℕ, suc, ◌+◌, ◌*◌, String, Bool, true, false, Option, none, List, [], ◌∷◌, ◌++◌, map, length,
  if◌then◌else◌, ℤ, pos, negsuc, ◌-ℤ◌, Dict, lookup, or_default, ◌<>◌, str_of_ℕ, is_some,
}
use salesforce_erp_sync.Python.Json.{Json, bool, int, text, object, Fields, update, end}
use salesforce_erp_sync.Outcome
use salesforce_erp_sync.Outcome.{Exn, Outcome, ok, raised, other}
use salesforce_erp_sync.Exec.{Exec, pure, lift, gets, ◌>>=◌, ◌>>◌}
use salesforce_erp_sync.Aws.Types.{Item}
use salesforce_erp_sync.Erp.Schema.{name, orders}
use salesforce_erp_sync.Worker.Mapping.{Builtins}
use salesforce_erp_sync.Worker.Chaos.{values_of}
use salesforce_erp_sync.Worker.Logs.{log_line, metrics_record, count_field}
use salesforce_erp_sync.Reconciler.Events.{Datetimes, text_at}
use salesforce_erp_sync.Reconciler.Reconcile.{Drift, Report, counts, compare}
use salesforce_erp_sync.Reconciler.Salesforce.{Web, Settings, Session, query_all}
use salesforce_erp_sync.Reconciler.Scan.{Page, chunks, stage_lookup, scan_order_versions}

-- An entry of `send_message_batch`; the attributes are those of DataType String.
pub record Entry : Type 0 where
  pub id : String
  pub body : String
  pub attributes : Dict String

-- The clients and clocks of the reconciler, and Python's `json.dumps` and `repr` of a list of texts.
-- `send_message_batch` gives the number of entries under "Successful".
pub record Clients : Type 1 where
  pub web : Web
  pub scan : String → Option Item → Exec web.World Page
  pub get_parameters : List String → Exec web.World (List (String × String))
  pub get_queue_url : String → Exec web.World String
  pub send_message_batch : String → List Entry → Exec web.World ℕ
  pub now : web.World → ℤ × web.World
  pub now_iso : web.World → String × web.World
  pub time_ms : web.World → ℕ × web.World
  pub dumps : Fields → String
  pub repr_of_texts : List String → String

-- The module's constants from the environment, and the fuel of the model for the pages.
pub record Config : Type 0 where
  pub param_prefix : String
  pub queue_name : String
  pub service : String
  pub grace_minutes : ℤ
  pub environ : Dict String
  pub fuel : ℕ

-- What the handler reads of its event.
pub record Invocation : Type 0 where
  pub dry_run : Bool
  pub grace_minutes : Option ℤ

-- `summary`
pub record Summary : Type 0 where
  pub checked_deals : ℕ
  pub checked_orders : ℕ
  pub drift : Dict ℕ
  pub drift_found : ℕ
  pub reenqueued : ℕ
  pub dry_run : Bool
  pub items : List Drift

abbrev setting_names : List String
setting_names = "login_url" ∷ "api_version" ∷ "client_id" ∷ "client_secret" ∷ []

abbrev missing_of : String → Dict String → List String → List String
missing_of prefix values [] = []
missing_of prefix values (n ∷ ns) =
    if is_some (lookup n values)
    then missing_of prefix values ns
    else (prefix <> "/salesforce/" <> n) ∷ missing_of prefix values ns

-- the values of `_salesforce`, which are all there when none is missing
abbrev settings_of : (List String → String) → String → Dict String → Outcome Settings
settings_of repr prefix values = elim (missing_of prefix values setting_names) [
  | [] ↦ ok (record {
    login_url = or_default (lookup "login_url" values) "";
    api_version = or_default (lookup "api_version" values) "";
    client_id = or_default (lookup "client_id" values) "";
    client_secret = or_default (lookup "client_secret" values) "";
  })
  | n ∷ ns ↦ raised (other "RuntimeError" ("missing SSM parameters: " <> repr (n ∷ ns)))
]

-- the entry of an event, number `i` of its chunk
abbrev entry_of : (Fields → String) → ℕ → Fields → Outcome Entry
entry_of dumps i ev = Outcome.◌>>=◌ (text_at ev "event_key") λ event_key. ok (record {
  id = str_of_ℕ i;
  body = dumps ev;
  attributes = ("event_key", event_key) ∷ ("source", "reconciler") ∷ [];
})

abbrev entries_of : (Fields → String) → ℕ → List Fields → Outcome (List Entry)
entries_of dumps i [] = ok []
entries_of dumps i (ev ∷ evs) =
    Outcome.◌>>=◌ (entry_of dumps i ev)
      λ entry. Outcome.◌>>=◌ (entries_of dumps (suc i) evs) λ entries. ok (entry ∷ entries)

abbrev drift_fields : Drift → Dict Json
drift_fields d =
    ("kind", text d.kind)
    ∷ ("opportunity_id", text d.opportunity_id)
    ∷ ("detail", text d.detail)
    ∷ []

-- A run: the world, the Salesforce session's token, and the lines printed.
pub record Run (cl : Clients) : Type 0 where
  pub session : Session cl.web
  pub printed : List Fields

abbrev summary_of : Invocation → Report → ℕ → Summary
summary_of event report enqueued = record {
  checked_deals = report.checked_deals;
  checked_orders = report.checked_orders;
  drift = counts report;
  drift_found = length report.drift;
  reenqueued = enqueued;
  dry_run = event.dry_run;
  items = report.drift;
}

-- `summary` without its items, as the fields of the last log line
abbrev summary_fields : Summary → Dict Json
summary_fields sm =
    ("checked_deals", int (pos sm.checked_deals))
    ∷ ("checked_orders", int (pos sm.checked_orders))
    ∷ ("drift", object (update end (map count_field sm.drift)))
    ∷ ("drift_found", int (pos sm.drift_found))
    ∷ ("reenqueued", int (pos sm.reenqueued))
    ∷ ("dry_run", bool sm.dry_run)
    ∷ []

-- `timedelta(minutes=m)`, in microseconds
unfoldable pub minutes : ℤ → ℤ
minutes (pos m) = pos (m * 60_000_000)
minutes (negsuc m) = pos 0 -ℤ pos (suc m * 60_000_000)

-- WON_SOQL
abbrev pub won_soql : String
won_soql =
    "SELECT Id, Name, AccountId, Account.Name, Amount, CloseDate, StageName, SystemModstamp "
    <> "FROM Opportunity WHERE IsWon = true ORDER BY SystemModstamp ASC, Id ASC"

module _ {cl : Clients} (py : Builtins) (dt : Datetimes) (config : Config) where
  open cl use {
    web, scan, get_parameters, get_queue_url, send_message_batch, now, now_iso, time_ms, dumps,
  }

  abbrev on_session : {A : Type 0} → Exec (Session web) A → Exec (Run cl) A
  on_session m run = let (r, s) = m run.session in (r, record run { session = s })

  abbrev on_world : {A : Type 0} → Exec web.World A → Exec (Run cl) A
  on_world m = on_session λ s. (let (r, w) = m s.world in (r, record s { world = w }))

  abbrev log : String → String → Dict Json → Exec (Run cl) Unit
  log level msg fields = do
    ts ← on_world (gets now_iso)
    λ run. (
      ok tt,
      record run { printed = run.printed ++ log_line ts config.service level msg fields ∷ [] },
    )

  abbrev log_drift : List Drift → Exec (Run cl) Unit
  log_drift [] = pure tt
  log_drift (d ∷ ds) = do log "warn" "drift" (drift_fields d); log_drift ds

  -- `_salesforce`
  unfoldable pub salesforce : Exec (Run cl) Settings
  salesforce = do
    params ←
        on_world
          (get_parameters (map (λ n. config.param_prefix <> "/salesforce/" <> n) setting_names))
    values ← lift (values_of [] params)
    lift (settings_of cl.repr_of_texts config.param_prefix values)

  -- the loop over the chunks of ten, with the number enqueued so far
  unfoldable pub send_chunks : String → List (List Fields) → ℕ → Exec (Run cl) ℕ
  send_chunks url [] enqueued = pure enqueued
  send_chunks url (chunk ∷ rest) enqueued = do
    entries ← lift (entries_of dumps 0 chunk)
    sent ← on_world (send_message_batch url entries)
    send_chunks url rest (enqueued + sent)

  abbrev enqueue : Bool → List Fields → Exec (Run cl) ℕ
  enqueue true events = pure 0
  enqueue false [] = pure 0
  enqueue false (ev ∷ evs) = do
    url ← on_world (get_queue_url config.queue_name)
    send_chunks url (chunks 10 10 (ev ∷ evs)) 0

  abbrev emit_drift : ℕ → Exec (Run cl) Unit
  emit_drift found = do
    ms ← on_world (gets time_ms)
    λ run. (
      ok tt,
      record run {
        printed = run.printed ++ metrics_record ms "reconciler" (("DriftFound", found) ∷ []) ∷ [];
      },
    )

  unfoldable pub handler : Invocation → Exec (Run cl) Summary
  unfolding salesforce send_chunks minutes
  handler event = do
    sf ← salesforce
    λ run. (ok tt, record run { session = record { world = run.session.world; token = none } })
    today ← on_world (gets now)
    won_deals ← on_session (query_all sf config.fuel won_soql)
    order_versions ← on_world (scan_order_versions scan (name config.environ orders) config.fuel)
    report ← on_session (
        compare py dt won_deals order_versions (stage_lookup sf config.fuel) today
          (minutes (or_default event.grace_minutes config.grace_minutes)))
    enqueued ← enqueue event.dry_run report.to_enqueue
    log_drift report.drift
    let summary = summary_of event report enqueued
    log "info" "reconcile complete" (summary_fields summary)
    emit_drift (length report.drift)
    pure summary
