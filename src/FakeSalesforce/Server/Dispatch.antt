-- ===== src/FakeSalesforce/Server/Dispatch.antt =====
-- fake_salesforce/server.py: the routes (`_admin` and `_dispatch`).
use salesforce_erp_sync.Common.{
  ℤ, String, Bool, ◌&&◌, [], ◌∷◌, map, if◌then◌else◌, or_default, contains, starts_with, str_eq,
  split_on, last_part, ◌<>◌, pos, rstrip_slash,
}
use salesforce_erp_sync.Python.Json.{text, bool, int, object, Fields, field, end}
use salesforce_erp_sync.Outcome.{Exn, ok, class_name, str_of_exn}
use salesforce_erp_sync.Exec.{Exec, raise, lift, gets, attempt, ◌>>=◌, ◌>>◌}
use salesforce_erp_sync.FakeSalesforce.Soql.{Builtins}
use salesforce_erp_sync.FakeSalesforce.Store.{delete_opportunity}
use salesforce_erp_sync.FakeSalesforce.Server.{App, Entry, Turn}
use salesforce_erp_sync.FakeSalesforce.Server.Http.{
  Request, Library, Handler, send, send_with, json_body,
}
use salesforce_erp_sync.FakeSalesforce.Server.Oauth.{token_handler}
use salesforce_erp_sync.FakeSalesforce.Server.Data.{versions, data_handler, not_found}
use salesforce_erp_sync.FakeSalesforce.Server.Admin.{
  record_json, iterated, object_list, put_accounts, put_opportunities, projections,
}
use salesforce_erp_sync.FakeSalesforce.Server.Controls.{
  ok_object, reset_handler, faults_handler, clock_handler, patch_handler,
}

abbrev second : {A : Type 0} → String × A → A
second x = x.1

-- GET of the state
unfoldable pub state_handler : Builtins → Request → Handler
unfolding projections send_with
state_handler py req = do
  store ← gets (λ app. (app.store, app))
  opportunities ← lift (projections py store (map second store.opportunities))
  send req (pos 200) (
      object (
        field "accounts" (object_list (map (record_json py) (map second store.accounts)))
          (field "opportunities" (object_list opportunities) end)))

abbrev entry_object : Entry → Fields
entry_object e =
    field "method" (text e.method)
      (field "path" (text e.path) (field "status" (int e.status) e.extra))

abbrev list_requests : Request → Handler
list_requests req app = send req (pos 200) (object_list (map entry_object app.requests)) app

abbrev clear_requests : Exec App Unit
clear_requests app = (ok tt, record app { requests = [] })

abbrev put_accounts_handler : Builtins → Library → Request → Handler
put_accounts_handler py lib req = do
  sent ← lift (json_body lib req)
  items ← lift (iterated sent)
  accounts ← put_accounts py items
  send req (pos 200) (object_list accounts)

abbrev put_opportunities_handler : Builtins → Library → Request → Turn → Handler
put_opportunities_handler py lib req turn = do
  sent ← lift (json_body lib req)
  items ← lift (iterated sent)
  created ← put_opportunities py turn items
  store ← gets (λ app. (app.store, app))
  outs ← lift (projections py store created)
  send req (pos 200) (object_list outs)

abbrev delete_handler : Request → String → Handler
delete_handler req opp_id = do
  deleted ←
      gets
        (λ app. let (b, st) = delete_opportunity opp_id app.store in (b, record app { store = st }))
  send req (if deleted then pos 200 else pos 404) (object (field "deleted" (bool deleted) end))

abbrev revoke : Exec App Unit
revoke app = (ok tt, record app { tokens = [] })

-- the opportunity that a path names: what follows its last slash
abbrev named : String → String
named path = or_default (last_part (split_on b'/' path)) ""

-- `_admin`
unfoldable pub admin_handler : Builtins → Library → (ℤ → String) → Request → Turn → String → Handler
unfolding state_handler put_accounts put_opportunities projections reset_handler faults_handler
    clock_handler patch_handler json_body send_with starts_with split_on
admin_handler py lib shown req turn path =
    let is : String → String → Bool =
      λ route_ method. str_eq path route_ && str_eq req.command method in
    let under : String → Bool =
      λ method. starts_with "/__admin/opportunities/" path && str_eq req.command method in
    if str_eq path "/__admin/health"
    then send req (pos 200) ok_object
    else if is "/__admin/state" "GET"
    then state_handler py req
    else if is "/__admin/requests" "GET"
    then list_requests req
    else if is "/__admin/requests" "DELETE"
    then (do clear_requests; send req (pos 200) ok_object)
    else if is "/__admin/reset" "POST"
    then reset_handler py lib req turn
    else if is "/__admin/accounts" "PUT"
    then put_accounts_handler py lib req
    else if is "/__admin/opportunities" "PUT"
    then put_opportunities_handler py lib req turn
    else if under "PATCH"
    then patch_handler py lib req turn (named path)
    else if under "DELETE"
    then delete_handler req (named path)
    else if is "/__admin/faults" "POST"
    then faults_handler lib req
    else if is "/__admin/clock" "POST"
    then clock_handler py lib shown req turn
    else if is "/__admin/revoke-tokens" "POST"
    then (do revoke; send req (pos 200) ok_object)
    else send req (pos 404)
        (object (field "error" (text ("unknown admin route " <> req.command <> " " <> path)) end))

-- the exceptions that `_dispatch` answers: ValueError with its subclasses, and KeyError
abbrev pub is_bad_request : Exn → Bool
is_bad_request e =
    contains ("JSONDecodeError" ∷ "KeyError" ∷ "ValueError" ∷ "UnicodeDecodeError" ∷ "Error" ∷ [])
      (class_name e)

-- the routes of `_dispatch`
unfoldable pub route : Builtins → Library → (ℤ → String) → Request → Turn → Handler
unfolding admin_handler token_handler versions data_handler send_with rstrip_slash starts_with
route py lib shown req turn =
    let path = lib.path_of req.path in
    if starts_with "/__admin" path
    then admin_handler py lib shown req turn path
    else if str_eq path "/services/oauth2/token" && str_eq req.command "POST"
    then token_handler lib req turn
    else if str_eq (rstrip_slash path) "/services/data" && str_eq req.command "GET"
    then versions req
    else if starts_with "/services/data/v" path && str_eq req.command "GET"
    then data_handler py lib req turn path
    else not_found req

-- `_dispatch`; any other exception ends the connection
unfoldable pub dispatch : Builtins → Library → (ℤ → String) → Request → Turn → Handler
unfolding route send_with class_name str_of_exn
dispatch py lib shown req turn = attempt (route py lib shown req turn) λ e.
    if is_bad_request e
    then send req (pos 400)
        (object (field "error" (text "bad_request") (field "detail" (text (str_of_exn e)) end)))
    else raise e
