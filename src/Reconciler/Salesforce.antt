-- ===== src/Reconciler/Salesforce.antt =====
-- reconciler/salesforce.py: the query client, its cached token, and the pages of a result.
pub mod Requests
use Prim.Native.String
use salesforce_erp_sync.Common.{
  ℕ, zero, suc, ◌==◌, String, Bool, true, false, ◌||◌, not, Option, none, some, List, [], ◌∷◌, ◌++◌,
  if◌then◌else◌, Dict, ◌<>◌, str_of_ℕ, rstrip_slash,
}
use salesforce_erp_sync.Python.Json.{
  Json, text, array, object, Items, nil, cons, Fields, end, field, get, get_or_null, truthy,
}
use salesforce_erp_sync.Outcome.{Exn, Outcome, ok, raised, salesforce_error, other}
use salesforce_erp_sync.Exec.{Exec, pure, raise, lift, ◌>>=◌}
use salesforce_erp_sync.Reconciler.Events.{text_at}

-- A request of urllib: its URL, its headers, and the form of a POST.
pub record Request : Type 0 where
  pub url : String
  pub headers : Dict String
  pub form : Option String

-- What `urlopen` gives: the JSON object of the body, or an HTTPError with its code and body.
pub data Reply : Type 0 where
  body : Fields → Reply
  http_error : ℕ → String → Reply

-- The network and urllib as parameters; `shown` is the `repr` of the first 300 bytes.
pub record Web : Type 1 where
  pub World : Type 0
  pub urlopen : Request → Exec World Reply
  pub urlencode : Dict String → String
  pub shown : String → String

pub record Settings : Type 0 where
  pub login_url : String
  pub api_version : String
  pub client_id : String
  pub client_secret : String

-- A `Salesforce` object in its world: `_token` is the cached token.
pub record Session (web : Web) : Type 0 where
  pub world : web.World
  pub token : Option Fields

-- The loop over the pages goes on when the fuel of the model is spent.
abbrev pub still_running : Exn
still_running = other "StillRunning" "more pages than the fuel"

-- the elements that `extend` takes of a value: of a list its own, of a dict its keys, of a text its characters
abbrev pub elements : Items → List Json
elements nil = []
elements (cons v items) = v ∷ elements items

abbrev keys_of : Fields → List Json
keys_of end = []
keys_of (field k v fields) = text k ∷ keys_of fields

abbrev characters : String → List Json
characters String.[] = []
characters (String.◌∷◌ c s) = text (String.◌∷◌ c String.[]) ∷ characters s

unfoldable pub iterated : Json → Outcome (List Json)
iterated (array items) = ok (elements items)
iterated (object fields) = ok (keys_of fields)
iterated (text s) = ok (characters s)
iterated v = raised (other "TypeError" "object is not iterable")

-- the rows of a page, `page.get("records", [])`
unfoldable pub rows_of : Fields → Outcome (List Json)
unfolding iterated
rows_of page = rows (get page "records")
  where
    rows : Option Json → Outcome (List Json)
    rows none = ok []
    rows (some v) = iterated v

-- `page.get("done", True) or not page.get("nextRecordsUrl")`
unfoldable pub is_last : Fields → Bool
is_last page = done (get page "done") || not (truthy (get_or_null page "nextRecordsUrl"))
  where
    done : Option Json → Bool
    done none = true
    done (some v) = truthy v

module _ {web : Web} (sf : Settings) where
  abbrev send : Request → Exec (Session web) Reply
  send request s = let (r, w) = web.urlopen request s.world in (r, record s { world = w })

  abbrev keep_token : Reply → Exec (Session web) Fields
  keep_token (body token) s = (ok token, record s { token = some token })
  keep_token (http_error code said) s = (
    raised (
        salesforce_error ("token request failed: HTTP " <> str_of_ℕ code <> " " <> web.shown said)),
    s,
  )

  abbrev ask_token : Exec (Session web) Fields
  ask_token = do
    reply ← send (record {
      url = rstrip_slash sf.login_url <> "/services/oauth2/token";
      headers = ("Content-Type", "application/x-www-form-urlencoded") ∷ [];
      form = some (
          web.urlencode (
            ("grant_type", "client_credentials")
            ∷ ("client_id", sf.client_id)
            ∷ ("client_secret", sf.client_secret)
            ∷ []));
    })
    keep_token reply

  abbrev known_token : Option Fields → Bool → Exec (Session web) Fields
  known_token (some token) false = pure token
  known_token (some token) true = ask_token
  known_token none refresh = ask_token

  -- `_access_token`
  unfoldable pub access_token : Bool → Exec (Session web) Fields
  access_token refresh s = known_token s.token refresh s

  -- one attempt of `_get`
  abbrev try_get : String → Bool → Exec (Session web) Reply
  try_get path refresh = do
    token ← access_token refresh
    instance_url ← lift (text_at token "instance_url")
    bearer ← lift (text_at token "access_token")
    send (record {
      url = rstrip_slash instance_url <> path;
      headers = ("Authorization", "Bearer " <> bearer) ∷ [];
      form = none;
    })

  abbrev second_reply : Reply → Exec (Session web) Fields
  second_reply (body page) = pure page
  second_reply (http_error code said) =
      raise (salesforce_error ("query failed: HTTP " <> str_of_ℕ code <> " " <> web.shown said))

  abbrev first_reply : String → Reply → Exec (Session web) Fields
  first_reply path (body page) = pure page
  first_reply path (http_error code said) =
      if code == 401
      then (do reply ← try_get path true; second_reply reply)
      else second_reply (http_error code said)

  -- `_get`: an expired session gets a new token and one more try
  unfoldable pub get_page : String → Exec (Session web) Fields
  unfolding access_token
  get_page path = do reply ← try_get path false; first_reply path reply

  -- the loop of `query_all`, with the records so far
  unfoldable pub query_pages : ℕ → String → List Json → Exec (Session web) (List Json)
  unfolding get_page rows_of is_last
  query_pages zero path records = raise still_running
  query_pages (suc fuel) path records = do
    page ← get_page path
    rows ← lift (rows_of page)
    let records' = records ++ rows
    if is_last page
        then pure records'
        else (do next ← lift (text_at page "nextRecordsUrl"); query_pages fuel next records')

  unfoldable pub query_all : ℕ → String → Exec (Session web) (List Json)
  unfolding query_pages
  query_all fuel soql =
      query_pages fuel
        ("/services/data/" <> sf.api_version <> "/query?" <> web.urlencode (("q", soql) ∷ [])) []
