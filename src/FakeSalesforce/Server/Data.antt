-- ===== src/FakeSalesforce/Server/Data.antt =====
-- fake_salesforce/server.py: the REST data API (`_versions`, `_authorised`, `_data` and the pages).
use salesforce_erp_sync.Common.{
  ℕ, suc, ◌+◌, String, Bool, ◌&&◌, not, Option, none, some, List, [], ◌∷◌, map, length, take, drop,
  if◌then◌else◌, ◌==◌, leb, lookup, insert, is_some, or_default, contains, starts_with, str_eq,
  suffix, padded, str_of_ℕ, rstrip_slash, codes, ◌<>◌, pos,
}
use salesforce_erp_sync.Python.Json.{
  Json, text, bool, int, array, object, Fields, field, end, items_of,
}
use salesforce_erp_sync.Python.Regex.{is_decimal, at_end}
use salesforce_erp_sync.Outcome.{Outcome, ok, raised, soql_error, other, ◌>>=◌ as and_then}
use salesforce_erp_sync.Exec.{Exec, raise, gets, ◌>>=◌, ◌>>◌}
use salesforce_erp_sync.FakeSalesforce.Soql.{Builtins}
use salesforce_erp_sync.FakeSalesforce.Soql.Scan.{Pattern, one, ◌⨾◌, maybe, star, scan}
use salesforce_erp_sync.FakeSalesforce.Soql.Parse.{parse, whole_number}
use salesforce_erp_sync.FakeSalesforce.Store.{erase}
use salesforce_erp_sync.FakeSalesforce.Rows.{run_query}
use salesforce_erp_sync.FakeSalesforce.Server.{App, Turn, take_fault, token_valid}
use salesforce_erp_sync.FakeSalesforce.Server.Http.{Request, Library, Handler, send, send_with}
use salesforce_erp_sync.FakeSalesforce.Server.Oauth.{unless_fault, first_value}

abbrev pub error_array : String → String → Json
error_array code message =
    array
      (items_of (object (field "message" (text message) (field "errorCode" (text code) end)) ∷ []))

abbrev pub not_found : Request → Handler
not_found req = send req (pos 404) (
    array (
      items_of (
        object (
          field "errorCode" (text "NOT_FOUND")
            (field "message" (text "The requested resource does not exist") end))
        ∷ [])))

-- `_versions`
unfoldable pub versions : Request → Handler
unfolding send_with items_of
versions req app =
    send req (pos 200) (array (items_of (map version_object app.config.api_versions))) app
  where
    version_object : String → Json
    version_object v = object (
        field "label" (text ("v" <> v))
          (field "url" (text ("/services/data/v" <> v)) (field "version" (text v) end)))

-- `_authorised`, whose 401 is sent by `_data`
unfoldable pub authorised : Request → Turn → App → Bool
unfolding token_valid starts_with suffix
authorised req turn app =
    let auth = or_default req.authorization "" in
    starts_with "Bearer " auth && token_valid (suffix 7 auth) turn app

abbrev pub any_digits : Pattern
any_digits = one is_decimal ⨾ star is_decimal

abbrev pub version_pattern : Pattern
version_pattern = any_digits ⨾ one (λ c. c == b'.') ⨾ one is_decimal

-- the rest of a versioned path: nothing, or a slash and the line that it starts
abbrev pub rest_pattern : Pattern
rest_pattern = maybe (one (λ c. c == b'/') ⨾ star (λ c. not (c == 10)))

abbrev pub ends_there : Option (String × String) → Option String
ends_there none = none
ends_there (some (found, left)) = if at_end (codes left) then some found else none

abbrev pub then_rest : Option (String × String) → Option (String × String)
then_rest none = none
then_rest (some (version, left)) = elim (ends_there (scan rest_pattern left)) [
  | none ↦ none
  | some rest ↦ some (version, rest)
]

-- `_VERSION_PATH`: the version and the rest
unfoldable pub version_path : String → Option (String × String)
unfolding starts_with suffix codes at_end is_decimal
version_path path =
    if starts_with "/services/data/v" path
    then then_rest (scan version_pattern (suffix 16 path))
    else none

abbrev pub locator_of : Option (String × String) → Option (String × String)
locator_of none = none
locator_of (some (digits, left)) =
    if starts_with "-" left
    then elim (ends_there (scan any_digits (suffix 1 left))) [
      | none ↦ none
      | some offset ↦ some ("01gFAKE" <> digits, offset)
    ]
    else none

-- `_LOCATOR_PATH`: the locator and the offset
unfoldable pub locator_path : String → Option (String × String)
unfolding starts_with suffix codes at_end is_decimal
locator_path rest =
    if starts_with "/query/01gFAKE" rest
    then locator_of (scan any_digits (suffix 14 rest))
    else none

-- the JSON of `_page`
abbrev pub page_object : String → String → ℕ → ℕ → List Fields → Json
page_object version locator offset size records = object (
    field "totalSize" (int (pos (length records))) (
      field "done" (bool (leb (length records) (offset + size))) (
        field "records" (array (items_of (map object (take size (drop offset records))))) (
          if leb (length records) (offset + size)
          then end
          else field "nextRecordsUrl"
              (text (
                "/services/data/"
                <> version
                <> "/query/"
                <> locator
                <> "-"
                <> str_of_ℕ (offset + size)))
              end))))

abbrev pub page_of : String → String → ℕ → App → Option (List Fields) → Outcome Json × App
page_of version locator offset app none = (raised (other "KeyError" locator), app)
page_of version locator offset app (some records) = (
  ok (page_object version locator offset app.config.page_size records),
  if leb (length records) (offset + app.config.page_size)
      then record app { cursors = erase locator app.cursors }
      else app,
)

-- `_page`: the last page drops the cursor
unfoldable pub page : String → String → ℕ → Exec App Json
unfolding str_of_ℕ
page version locator offset app = page_of version locator offset app (lookup locator app.cursors)

abbrev new_locator : List Fields → Exec App String
new_locator records app =
    let locator = "01gFAKE" <> padded 12 app.locator_ids in
    (
      ok locator,
      record app {
        locator_ids = suc app.locator_ids;
        cursors = insert locator records app.cursors;
      },
    )

abbrev with_rows : Request → String → Fields → Outcome (List Fields) → Handler
with_rows req version extra (ok records) = do
  locator ← new_locator records
  body ← page version locator 0
  send_with req (pos 200) body extra
with_rows req version extra (raised (soql_error code message)) =
    send_with req (pos 400) (error_array code message) extra
with_rows req version extra (raised e) = raise e

-- `_first_page`
unfoldable pub first_page : Builtins → Library → Request → String → Handler
unfolding page send_with parse run_query padded
first_page py lib req version app =
    let soql = first_value (or_default (lookup "q" (lib.parse_qs (lib.query_of req.path))) []) in
    with_rows req version (field "soql" (text soql) end)
      (and_then (parse py soql) λ q. run_query py app.store q version) app

-- `_next_page`
unfoldable pub next_page : Request → String → String → ℕ → Handler
unfolding page send_with
next_page req version locator offset app =
    if is_some (lookup locator app.cursors)
    then (do body ← page version locator offset; send req (pos 200) body) app
    else send req (pos 400) (error_array "INVALID_QUERY_LOCATOR" "invalid query locator") app

abbrev located : Request → String → Option (String × String) → Handler
located req version none = not_found req
located req version (some (locator, offset)) = next_page req version locator (whole_number offset)

abbrev count_call : Exec App Unit
count_call app = (ok tt, record app { api_calls = suc app.api_calls })

-- `_data` with a version that is served
unfoldable pub data_request : Builtins → Library → Request → Turn → String → String → Handler
unfolding authorised take_fault first_page next_page locator_path whole_number send_with
    rstrip_slash
data_request py lib req turn number rest app =
    if authorised req turn app
    then (do
      count_call
      fault ← gets (take_fault "query")
      unless_fault req fault (
          if str_eq (rstrip_slash rest) "/query"
          then first_page py lib req ("v" <> number)
          else located req ("v" <> number) (locator_path rest)))
        app
    else send req (pos 401) (error_array "INVALID_SESSION_ID" "Session expired or invalid") app

abbrev pub versioned : Builtins → Library → Request → Turn → Option (String × String) → Handler
versioned py lib req turn none app = not_found req app
versioned py lib req turn (some (number, rest)) app =
    if contains app.config.api_versions number
    then data_request py lib req turn number rest app
    else not_found req app

-- `_data`
unfoldable pub data_handler : Builtins → Library → Request → Turn → String → Handler
unfolding version_path data_request send_with
data_handler py lib req turn path = versioned py lib req turn (version_path path)
