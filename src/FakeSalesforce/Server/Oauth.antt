-- ===== src/FakeSalesforce/Server/Oauth.antt =====
-- fake_salesforce/server.py: `_token`, the client credentials grant.
use salesforce_erp_sync.Common.{
  String, Bool, true, false, not, Option, none, some, List, [], ◌∷◌, if◌then◌else◌, Dict, lookup,
  insert, or_default, starts_with, str_eq, split_on, join, suffix, ◌<>◌, pos,
}
use salesforce_erp_sync.Python.Json.{Json, text, bool, object, Fields, field, end}
use salesforce_erp_sync.Outcome.{Outcome, ok, ◌>>=◌ as and_then}
use salesforce_erp_sync.Exec.{Exec, lift, gets, ◌>>=◌, ◌>>◌}
use salesforce_erp_sync.FakeSalesforce.Server.{App, Fault, Config, Turn, take_fault}
use salesforce_erp_sync.FakeSalesforce.Server.Http.{Request, Library, Handler, send, send_with}

-- `form.get(k)` of the first values; `parse_qs` gives every key a value
abbrev pub first_value : List String → String
first_value [] = ""
first_value (v ∷ vs) = v

abbrev pub form_get : String → Dict (List String) → Option String
form_get k form = elim (lookup k form) [ none ↦ none | some vs ↦ some (first_value vs) ]

-- `partition(":")`, without the separator
abbrev pub partition_colon : List String → String × String
partition_colon [] = ("", "")
partition_colon (s ∷ rest) = (s, join ":" rest)

abbrev pub is_given : Option String → String → Bool
is_given none expected = false
is_given (some s) expected = str_eq s expected

-- the client's id and secret: of a Basic authorization, and else of the form
unfoldable pub credentials :
    Library → Request → Dict (List String) → Outcome (Option String × Option String)
unfolding split_on join suffix starts_with
credentials lib req form =
    let auth = or_default req.authorization "" in
    if starts_with "Basic " auth
    then and_then (lib.b64decode (suffix 6 auth)) (λ decoded.
      let (id, secret) = partition_colon (split_on b':' decoded) in
      ok (some (lib.unquote_plus id), some (lib.unquote_plus secret)))
    else ok (form_get "client_id" form, form_get "client_secret" form)

abbrev pub error_object : String → String → Json
error_object error description =
    object (field "error" (text error) (field "error_description" (text description) end))

abbrev pub org_id : String
org_id = "00DFAKE0000000001"

abbrev pub user_id : String
user_id = "005FAKE0000000001"

abbrev issue : Turn → String → Exec App Unit
issue turn token app = (ok tt, record app { tokens = insert token turn.monotonic app.tokens })

abbrev token_object : Request → Turn → String → Json
token_object req turn token =
    let host = or_default req.host "localhost" in
    object (
      field "access_token" (text token) (
        field "signature" (text turn.signature) (
          field "scope" (text "api") (
            field "instance_url" (text ("http://" <> host)) (
              field "id"
                (text ("http://" <> host <> "/id/" <> org_id <> "AAA/" <> user_id <> "AAA"))
                (field "token_type" (text "Bearer")
                  (field "issued_at" (text turn.milliseconds) end)))))))

-- the grant, once the client has been read
unfoldable pub grant :
    Request → Turn → Dict (List String) → Config → Option String → Option String → Handler
unfolding send_with
grant req turn form config client_id client_secret =
    if not (is_given (form_get "grant_type" form) "client_credentials")
    then send req (pos 400) (error_object "unsupported_grant_type" "grant type not supported")
    else if not (is_given client_id config.client_id)
    then send req (pos 400) (error_object "invalid_client_id" "client identifier invalid")
    else if not (is_given client_secret config.client_secret)
    then send req (pos 400) (error_object "invalid_client" "invalid client credentials")
    else (do
      let token = org_id <> "!" <> turn.secret
      issue turn token
      send req (pos 200) (token_object req turn token))

abbrev pub injected : Fields
injected = field "fault" (bool true) end

-- a fault that was taken is the reply
abbrev pub unless_fault : Request → Option Fault → Handler → Handler
unless_fault req none handler = handler
unless_fault req (some fault) handler = send_with req fault.status fault.body injected

-- `_token`
unfoldable pub token_handler : Library → Request → Turn → Handler
unfolding take_fault credentials grant send_with
token_handler lib req turn = do
  fault ← gets (take_fault "token")
  unless_fault req fault (do
    let form = lib.parse_qs req.body
    client ← lift (credentials lib req form)
    config ← gets (λ app. (app.config, app))
    grant req turn form config client.0 client.1)
