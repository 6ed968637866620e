-- ===== src/FakeSalesforce/Server/Access.antt =====
-- Who may read the data of fake_salesforce/server.py.
use salesforce_erp_sync.Common.{
  String, ◌≡◌, refl, ap, ◌∙◌, ◌⊎◌, inl, inr, Bool, true, false, Option, none, some, List, ◌<>◌,
  if◌then◌else◌, ℤ, pos, ◌-ℤ◌, ltb_ℤ, lookup, insert, lookup-insert, starts_with, suffix,
  starts_with-append, suffix-append, codes, eq_refl, contains, Dict,
}
use salesforce_erp_sync.Python.Json.{Json}
use salesforce_erp_sync.Outcome.{Outcome, ok}
use salesforce_erp_sync.FakeSalesforce.Soql.{Builtins}
use salesforce_erp_sync.FakeSalesforce.Server.{App, Entry, Turn, token_valid, valid_at}
use salesforce_erp_sync.FakeSalesforce.Server.Http.{Request, Reply, Library, send, send_with}
use salesforce_erp_sync.FakeSalesforce.Server.Oauth.{is_given, form_get, grant, org_id}
use salesforce_erp_sync.FakeSalesforce.Server.Data.{
  error_array, not_found, authorised, version_path, versioned, data_request, data_handler,
}

-- The reply refuses, and only the log of requests has changed.
pub record Refuses (app : App) (r : Outcome Reply × App) : Type 0 where
  pub reply : Reply
  pub sent : r.0 ≡ ok reply
  pub status : (reply.status ≡ pos 401) ⊎ (reply.status ≡ pos 404)
  pub untouched : record r.1 { requests = app.requests } ≡ app

log_untouched :
    (b : Bool) (entries : List Entry) (app : App)
    → record (if b then app else record app { requests = entries }) { requests = app.requests }
      ≡ app
log_untouched true entries app = refl
log_untouched false entries app = refl

send-Refuses :
    (req : Request) (status : ℤ) (payload : Json) (app : App)
    → (status ≡ pos 401) ⊎ (status ≡ pos 404)
    → Refuses app (send req status payload app)
unfolding send_with
send-Refuses req status payload app which = record {
  reply = record { status = status; payload = payload };
  sent = refl;
  status = which;
  untouched = log_untouched (starts_with "/__admin" req.path) _ app;
}

module _ (py : Builtins) (lib : Library) (req : Request) (turn : Turn) (app : App)
    (denied : authorised req turn app ≡ false) where
  not_found-Refuses : Refuses app (not_found req app)
  not_found-Refuses = send-Refuses req (pos 404) _ app (inr refl)

  data_request-Refuses :
      (number rest : String) → Refuses app (data_request py lib req turn number rest app)
  unfolding data_request
  data_request-Refuses number rest = rw denied (
      send-Refuses req (pos 401) (error_array "INVALID_SESSION_ID" "Session expired or invalid") app
        (inl refl))

  versioned-Refuses : (o : Option (String × String)) → Refuses app (versioned py lib req turn o app)
  versioned-Refuses none = not_found-Refuses
  versioned-Refuses (some (number, rest)) = on (contains app.config.api_versions number)
    where
      on :
          (b : Bool)
          → Refuses app
              (if b then data_request py lib req turn number rest app else not_found req app)
      on true = data_request-Refuses number rest
      on false = not_found-Refuses

-- A request of the data API without a valid token gets a 401 or a 404, and changes nothing but the log of
-- requests: no call is counted, no fault is used up, and no page is read.
pub data_handler-Refuses :
    (py : Builtins) (lib : Library) (req : Request) (turn : Turn) (path : String) (app : App)
    → authorised req turn app ≡ false
    → Refuses app (data_handler py lib req turn path app)
unfolding data_handler
data_handler-Refuses py lib req turn path app denied =
    versioned-Refuses py lib req turn app denied (version_path path)

bearer_token : (token : String) → suffix 7 ("Bearer " <> token) ≡ token
unfolding codes
bearer_token = suffix-append "Bearer "

-- `_authorised` of a bearer token is `token_valid`.
authorised_bearer :
    (req : Request) (turn : Turn) (app : App) (token : String)
    → req.authorization ≡ some ("Bearer " <> token)
    → authorised req turn app ≡ token_valid token turn app
unfolding authorised
authorised_bearer req turn app token sent =
    rw (sent, starts_with-append "Bearer " token)
      (ap (λ t. token_valid t turn app) (bearer_token token))

-- A token is valid for its time from its issue.
abbrev pub IsLive : Turn → Turn → App → Bool → Type 0
IsLive issued later app b = b ≡ ltb_ℤ (later.monotonic -ℤ issued.monotonic) app.config.token_ttl

valid_issued :
    (token : String) (turn later : Turn) (app app' : App)
    → app'.tokens ≡ insert token turn.monotonic app.tokens
    → app'.config ≡ app.config
    → IsLive turn later app (token_valid token later app')
unfolding token_valid
valid_issued token turn later app app' issued same =
    ap (λ o. valid_at o later app'.config.token_ttl) found
    ∙ ap (λ c. ltb_ℤ (later.monotonic -ℤ turn.monotonic) c.token_ttl) same
  where
    found : lookup token app'.tokens ≡ some turn.monotonic
    found = ap (lookup token) issued ∙ own
      where
        own : lookup token (insert token turn.monotonic app.tokens) ≡ some turn.monotonic
        own = rw (lookup-insert token token turn.monotonic app.tokens, eq_refl token) refl

-- A client that names itself by the configured id and secret is granted a token, and a later request that
-- bears it is authorised exactly while the token's time to live has not passed.
pub grant_lem :
    (req : Request) (turn : Turn) (form : Dict (List String)) (id secret : Option String)
    (app : App) (next : Request) (later : Turn)
    → is_given (form_get "grant_type" form) "client_credentials" ≡ true
    → is_given id app.config.client_id ≡ true
    → is_given secret app.config.client_secret ≡ true
    → next.authorization ≡ some ("Bearer " <> (org_id <> "!" <> turn.secret))
    → IsLive turn later app (authorised next later (grant req turn form app.config id secret app).1)
unfolding grant send_with
grant_lem req turn form id secret app next later typed known trusted bears =
    let token = org_id <> "!" <> turn.secret in
    let granted = (grant req turn form app.config id secret app).1 in
    authorised_bearer next later granted token bears
    ∙ valid_issued token turn later app granted (ap (λ a. a.tokens) logged)
        (ap (λ a. a.config) logged)
  where
    logged :
        record (grant req turn form app.config id secret app).1 { requests = app.requests }
        ≡ record app { tokens = insert (org_id <> "!" <> turn.secret) turn.monotonic app.tokens }
    logged =
        rw (typed, known, trusted)
          (log_untouched (starts_with "/__admin" req.path) _ (record app {
            tokens = insert (org_id <> "!" <> turn.secret) turn.monotonic app.tokens;
          }))
