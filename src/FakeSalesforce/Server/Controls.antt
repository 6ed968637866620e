-- ===== src/FakeSalesforce/Server/Controls.antt =====
-- fake_salesforce/server.py: the admin routes that set faults, the clock, the data and one opportunity.
use salesforce_erp_sync.Common.{
  String, true, Option, none, some, [], ◌∷◌, ◌++◌, if◌then◌else◌, ℤ, lookup, insert, or_default,
  str_eq, pos,
}
use salesforce_erp_sync.Python.Decimal.{finite, infinite, nan, truncated, int_of_text}
use salesforce_erp_sync.Python.Json.{
  Json, null, text, bool, int, number, array, object, field, end, get, truthy, items_of,
}
use salesforce_erp_sync.Outcome.{Outcome, ok, raised, other, class_name, ◌>>=◌ as and_then}
use salesforce_erp_sync.Exec.{Exec, pure, raise, lift, gets, attempt, ◌>>=◌, ◌>>◌}
use salesforce_erp_sync.FakeSalesforce.Soql.{Value, Builtins, parse_datetime_literal}
use salesforce_erp_sync.FakeSalesforce.Store.{Record, reset, edit_opportunity}
use salesforce_erp_sync.FakeSalesforce.Rows.{project}
use salesforce_erp_sync.FakeSalesforce.Server.{App, Fault, Turn, now, clock, load_seed, writes}
use salesforce_erp_sync.FakeSalesforce.Server.Http.{
  Request, Library, Handler, send, send_with, json_body,
}
use salesforce_erp_sync.FakeSalesforce.Server.Admin.{all_fields, value_of, record_of, object_of}

abbrev pub ok_object : Json
ok_object = object (field "ok" (bool true) end)

abbrev clear_faults : Exec App Unit
clear_faults app =
    (ok tt, record app { tokens = []; cursors = []; faults = []; frozen_now = none; requests = [] })

abbrev empty_store : Exec App Unit
empty_store app = (ok tt, record app { store = reset app.store })

-- POST of a reset
unfoldable pub reset_handler : Builtins → Library → Request → Turn → Handler
unfolding json_body truthy get load_seed send_with
reset_handler py lib req turn = do
  sent ← lift (json_body lib req)
  clear_faults
  body ← lift (object_of sent)
  if truthy (or_default (get body "seed") (bool true)) then load_seed py turn else empty_store
  send req (pos 200) ok_object

-- `int` of a JSON value
abbrev int_or_raise : Option ℤ → Outcome ℤ
int_or_raise none = raised (other "ValueError" "invalid literal for int()")
int_or_raise (some z) = ok z

unfoldable pub int_of : Json → Outcome ℤ
unfolding truncated int_of_text
int_of (int z) = ok z
int_of (bool b) = ok (if b then pos 1 else pos 0)
int_of (number (finite d)) = ok (truncated d)
int_of (number (infinite negative)) = raised (other "OverflowError" "cannot convert float infinity")
int_of (number nan) = raised (other "ValueError" "cannot convert float NaN to integer")
int_of (text s) = int_or_raise (int_of_text s)
int_of v = raised (other "TypeError" "int() argument must be a string or a number")

abbrev pub unavailable : Json
unavailable = array (
    items_of (
      object (
        field "message" (text "Service Unavailable")
          (field "errorCode" (text "SERVER_UNAVAILABLE") end))
      ∷ []))

abbrev pub add_fault : String → Fault → App → App
add_fault target fault app =
    let queue = or_default (lookup target app.faults) [] in
    record app { faults = insert target (queue ++ (fault ∷ [])) app.faults }

-- No request asks for a target that is no text.
abbrev file_fault : Option Json → Fault → Exec App Unit
file_fault none fault app = (raised (other "KeyError" "'target'"), app)
file_fault (some (text target)) fault app = (ok tt, add_fault target fault app)
file_fault (some (array vs)) fault app = (raised (other "TypeError" "unhashable type"), app)
file_fault (some (object fs)) fault app = (raised (other "TypeError" "unhashable type"), app)
file_fault (some v) fault app = (ok tt, app)

-- POST of a fault
unfoldable pub faults_handler : Library → Request → Handler
unfolding json_body get int_of items_of send_with
faults_handler lib req = do
  sent ← lift (json_body lib req)
  body ← lift (object_of sent)
  status ← lift (int_of (or_default (get body "status") (int (pos 503))))
  remaining ← lift (int_of (or_default (get body "count") (int (pos 1))))
  file_fault (get body "target") (record {
    status = status;
    body = or_default (get body "body") unavailable;
    remaining = remaining;
  })
  send req (pos 200) ok_object

abbrev frozen : Builtins → Json → Outcome (Option ℤ)
frozen py null = ok none
frozen py (text s) = and_then (parse_datetime_literal py.fromisoformat s) λ t. ok (some t)
frozen py v = raised (other "AttributeError" "object has no attribute 'replace'")

-- POST of the clock; `shown` is `isoformat` of the time
unfoldable pub clock_handler : Builtins → Library → (ℤ → String) → Request → Turn → Handler
unfolding json_body get parse_datetime_literal send_with
clock_handler py lib shown req turn = do
  sent ← lift (json_body lib req)
  body ← lift (object_of sent)
  frozen_now ← lift (frozen py (or_default (get body "now") null))
  gets (λ app. (tt, record app { frozen_now = frozen_now }))
  time ← gets (λ app. (now app turn, app))
  send req (pos 200) (object (field "now" (text (shown time)) end))

-- The edit: an unknown opportunity comes before changes that are no object.
abbrev edit_by : Builtins → ℤ → String → Json → Value → Exec App Record
edit_by py stamp opp_id (object fs) modstamp app =
    writes (edit_opportunity py stamp opp_id (record_of fs) modstamp) app
edit_by py stamp opp_id v modstamp app = elim (lookup opp_id app.store.opportunities) [
  | none ↦ (raised (other "KeyError" opp_id), app)
  | some opp ↦ (raised (other "TypeError" "object is not a mapping"), app)
]

-- PATCH of an opportunity: an unknown one is a 404
unfoldable pub patch_handler : Builtins → Library → Request → Turn → String → Handler
unfolding json_body get edit_opportunity clock project class_name send_with
patch_handler py lib req turn opp_id = do
  sent ← lift (json_body lib req)
  body ← lift (object_of sent)
  stamp ← gets (λ app. (clock app turn, app))
  edited ←
      attempt
        (do
          opp ←
              edit_by py stamp opp_id (or_default (get body "changes") (object end))
                (value_of (or_default (get body "SystemModstamp") null))
          pure (some opp))
        (λ e. if str_eq (class_name e) "KeyError" then pure none else raise e)
  answer edited
  where
    answer : Option Record → Handler
    answer none =
        send req (pos 404)
          (object (field "error" (text "no such opportunity") (field "id" (text opp_id) end)))
    answer (some opp) = do
      store ← gets (λ app. (app.store, app))
      out ← lift (project py store "v66.0" all_fields opp)
      send req (pos 200) (object out)
