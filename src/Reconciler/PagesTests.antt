-- ===== src/Reconciler/PagesTests.antt =====
-- A query of two pages, and the theorems at it and at one page.
use salesforce_erp_sync.Common.{
  ◌≤◌, ◌+◌, ◌≡◌, ◌↔◌, refl, none, some, [], ◌∷◌, List, String, if◌then◌else◌, str_eq, true, false,
  ◌<>◌,
}
use salesforce_erp_sync.Python.Json.{text, bool, array, object, nil, cons, Fields, field, end}
use salesforce_erp_sync.Outcome.{ok}
use salesforce_erp_sync.Reconciler.Salesforce.{body, Web, Settings, Session, query_all, get_page}
use salesforce_erp_sync.Reconciler.Salesforce.Requests.{logged, sent, get_page_bounds}

abbrev row : String → Fields
row id = field "Id" (text id) end

abbrev token : Fields
token = field "access_token" (text "t") (field "instance_url" (text "http://sf") end)

abbrev first_page : Fields
first_page = field "done" (bool false) (
    field "records" (array (cons (object (row "a")) nil))
      (field "nextRecordsUrl" (text "/next") end))

abbrev second_page : Fields
second_page = field "done" (bool true) (field "records" (array (cons (object (row "b")) nil)) end)

abbrev web : Web
web = record {
  World = Unit;
  urlopen = λ req w. (
    ok (
        body (
          if str_eq req.url "http://sf/services/oauth2/token"
          then token
          else if str_eq req.url "http://sf/next"
          then second_page
          else first_page)),
    w,
  );
  urlencode = λ d. "";
  shown = λ s. s;
}

abbrev settings : Settings
settings = record {
  login_url = "http://sf";
  api_version = "v66.0";
  client_id = "i";
  client_secret = "s";
}

abbrev fresh : Session web
fresh = record { world = tt; token = none }

abbrev signed_in : Session web
signed_in = record { world = tt; token = some token }

two_pages :
    query_all settings 2 "SELECT" fresh ≡ (ok (object (row "a") ∷ object (row "b") ∷ []), signed_in)
unfolding query_all salesforce_erp_sync.Reconciler.Events.text_at
    salesforce_erp_sync.Python.Json.get salesforce_erp_sync.Common.rstrip_slash
    salesforce_erp_sync.Python.Json.truthy salesforce_erp_sync.Python.Json.get_or_null
two_pages = refl

abbrev unsent : Session (logged web)
unsent = record { world = ([], tt); token = none }

get_page_bounds_example : sent web (get_page settings "/next" unsent).1 ≤ 4 + sent web unsent
get_page_bounds_example = get_page_bounds web settings "/next" unsent
