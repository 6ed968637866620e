-- ===== src/FakeSalesforce/ServerTests.antt =====
-- Runs of the stub's server, and its theorems at them.
use salesforce_erp_sync.Common.{
  codes, ◌<>◌, arith, refl, some, ◌≡◌, String, ◌≡◌, refl, none, some, List, [], ◌∷◌, pos, ◌<>◌,
  false, Dict,
}
use salesforce_erp_sync.Python.Json.{null, text, Fields, field, end}
use salesforce_erp_sync.Outcome.{ok, raised, other}
use salesforce_erp_sync.FakeSalesforce.Server.{App, Turn, default_config, take_fault}
use salesforce_erp_sync.FakeSalesforce.Server.Http.{Request, Library}
use salesforce_erp_sync.FakeSalesforce.Server.Oauth.{grant, org_id}
use salesforce_erp_sync.FakeSalesforce.Server.Data.{authorised, data_handler}
use salesforce_erp_sync.FakeSalesforce.Server.Faults.{TakesFault, take_fault-TakesFault}
use salesforce_erp_sync.FakeSalesforce.Server.Digits.{IsDigits}
use salesforce_erp_sync.FakeSalesforce.Server.Locators.{
  IsVersion, IsLocator, next_url, target_of, target_of-next_url,
}
use salesforce_erp_sync.Python.Regex.{is_decimal}
use salesforce_erp_sync.FakeSalesforce.Server.Access.{
  Refuses, data_handler-Refuses, IsLive, grant_lem,
}
use salesforce_erp_sync.FakeSalesforce.QueryTests.{python}

abbrev library : Library
library = record {
  path_of = λ s. s;
  query_of = λ s. "";
  parse_qs = λ s. [];
  json_loads = λ s. raised (other "JSONDecodeError" "Expecting value");
  b64decode = λ s. ok s;
  unquote_plus = λ s. s;
}

abbrev row : String → Fields
row id = field "Id" (text id) end

abbrev rows : List Fields
rows = row "a" ∷ row "b" ∷ row "c" ∷ []

-- a server with pages of two, one running query and one fault
abbrev app : App
app = record {
  config = record default_config { page_size = 2 };
  store = record { accounts = []; opportunities = []; next_id = 1 };
  seed = none;
  tokens = [];
  cursors = ("01gFAKE000000000001", rows) ∷ [];
  faults = ("query", record { status = pos 503; body = null; remaining = pos 1 } ∷ []) ∷ [];
  requests = [];
  api_calls = 0;
  locator_ids = 2;
  frozen_now = none;
}

abbrev turn : Turn
turn = record {
  utc_now = pos 0;
  monotonic = pos 100;
  secret = "s";
  signature = "t";
  milliseconds = "0";
}

abbrev later : Turn
later = record turn { monotonic = pos 500 }

abbrev request : Request
request = record {
  command = "GET";
  path = "/services/data/v66.0/query/01gFAKE000000000001-2";
  authorization = some ("Bearer " <> (org_id <> "!" <> turn.secret));
  host = none;
  body = "";
}

take_fault-TakesFault_example : TakesFault "query" "token" app (take_fault "query" app)
take_fault-TakesFault_example = take_fault-TakesFault "query" "token" app

sixty_six_and_one : IsDigits "66" × IsDigits "000000000001"
unfolding codes is_decimal
sixty_six_and_one =
    (record { digits = refl; some_ = omega arith }, record { digits = refl; some_ = omega arith })

known_66 : IsVersion "66.0"
unfolding is_decimal
known_66 = record {
  major = "66";
  minor = "0";
  whole = refl;
  major_digits = sixty_six_and_one.0;
  minor_digit = refl;
}

known_one : IsLocator "01gFAKE000000000001"
known_one = record { number = "000000000001"; named = refl; number_digits = sixty_six_and_one.1 }

target_of-next_url_example :
    target_of (next_url ("v" <> "66.0") "01gFAKE000000000001" 2000)
    ≡ some (record { version = "v" <> "66.0"; locator = "01gFAKE000000000001"; offset = 2000 })
target_of-next_url_example = target_of-next_url "66.0" "01gFAKE000000000001" 2000 known_66 known_one

denied : authorised request later app ≡ false
unfolding authorised
denied = refl

data_handler-Refuses_example :
    Refuses app (data_handler python library request later request.path app)
data_handler-Refuses_example =
    data_handler-Refuses python library request later request.path app denied

abbrev asked : Request
asked = record request { command = "POST"; path = "/services/oauth2/token"; authorization = none }

abbrev form : Dict (List String)
form = ("grant_type", "client_credentials" ∷ []) ∷ []

grant_lem_example : IsLive turn later app (
    authorised request later
      (grant asked turn form app.config (some "fake-client-id") (some "fake-client-secret") app).1)
grant_lem_example =
    grant_lem asked turn form (some "fake-client-id") (some "fake-client-secret") app request later
      refl refl refl refl
