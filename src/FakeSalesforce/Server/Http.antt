-- ===== src/FakeSalesforce/Server/Http.antt =====
-- fake_salesforce/server.py: a request, its reply, and the log of requests (`_send`).
use salesforce_erp_sync.Common.{
  ◌-◌, String, Option, List, [], ◌∷◌, ◌++◌, length, drop, if◌then◌else◌, ℤ, Dict, starts_with,
  str_eq,
}
use salesforce_erp_sync.Python.Json.{Json, Fields, object, end}
use salesforce_erp_sync.Outcome.{Outcome, ok}
use salesforce_erp_sync.Exec.{Exec}
use salesforce_erp_sync.FakeSalesforce.Server.{App, Entry}

-- A request: `path` with its query, and the body as it was sent.
pub record Request : Type 0 where
  pub command : String
  pub path : String
  pub authorization : Option String
  pub host : Option String
  pub body : String

pub record Reply : Type 0 where
  pub status : ℤ
  pub payload : Json

-- The parsers of the standard library: the path and the query of `urlsplit`, `parse_qs`, `json.loads`,
-- `b64decode` with its `decode`, and `unquote_plus`.
pub record Library : Type 0 where
  pub path_of : String → String
  pub query_of : String → String
  pub parse_qs : String → Dict (List String)
  pub json_loads : String → Outcome Json
  pub b64decode : String → Outcome String
  pub unquote_plus : String → String

abbrev pub Handler : Type 0
Handler = Exec App Reply

-- `deque(maxlen=500)`: an append drops the oldest entry
abbrev pub append_entry : Entry → List Entry → List Entry
append_entry entry entries = let all = entries ++ (entry ∷ []) in drop (length all - 500) all

-- `_send` with its `extra`
unfoldable pub send_with : Request → ℤ → Json → Fields → Handler
send_with req status payload extra app =
    let entry : Entry = record {
      method = req.command;
      path = req.path;
      status = status;
      extra = extra;
    } in
    (
      ok (record { status = status; payload = payload }),
      if starts_with "/__admin" req.path
          then app
          else record app { requests = append_entry entry app.requests },
    )

abbrev pub send : Request → ℤ → Json → Handler
send req status payload = send_with req status payload end

-- `_json_body`
unfoldable pub json_body : Library → Request → Outcome Json
json_body lib req = if str_eq req.body "" then ok (object end) else lib.json_loads req.body
