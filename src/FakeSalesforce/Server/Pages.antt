-- ===== src/FakeSalesforce/Server/Pages.antt =====
-- The pages of a query: what a client of fake_salesforce/server.py reads that asks for every
-- `nextRecordsUrl`, by the reader of reconciler/salesforce.py.
use salesforce_erp_sync.Common.{
  ℕ, zero, suc, String, ◌≡◌, Option, none, some, List, ◌++◌, map, if◌then◌else◌, ◌<>◌, pos,
}
use salesforce_erp_sync.Python.Json.{Json, text, object, Fields, end}
use salesforce_erp_sync.Outcome.{Outcome, ok, other}
use salesforce_erp_sync.Exec.{Exec, pure, raise, lift, ◌>>=◌}
use salesforce_erp_sync.Reconciler.Events.{text_at}
use salesforce_erp_sync.Reconciler.Salesforce.{rows_of, is_last}
use salesforce_erp_sync.FakeSalesforce.Soql.{still_running}
use salesforce_erp_sync.FakeSalesforce.Store.{erase}
use salesforce_erp_sync.FakeSalesforce.Server.{App}
use salesforce_erp_sync.FakeSalesforce.Server.Http.{Request, Reply}
use salesforce_erp_sync.FakeSalesforce.Server.Data.{next_page}
use salesforce_erp_sync.FakeSalesforce.Server.Locators.{
  IsVersion, IsLocator, Target, target_of, next_url,
}

abbrev fields_of : Json → Fields
fields_of (object fs) = fs
fields_of v = end

-- what the reader does with a reply: the rows of the page and, if it is not the last, of the pages from the
-- URL that it names
unfoldable pub read_on : (String → Exec App (List Json)) → Reply → Exec App (List Json)
unfolding is_last text_at rows_of
read_on read reply = do
  let found = fields_of reply.payload
  rows ← lift (rows_of found)
  if is_last found
      then pure rows
      else (do next ← lift (text_at found "nextRecordsUrl"); rest ← read next; pure (rows ++ rest))

module _ (req : Request) where
  -- the request for a URL
  abbrev request_for : String → Request
  request_for url = record req { path = url }

  abbrev ask : String → Option Target → Exec App Reply
  ask url none = raise (other "HTTPError" "404")
  ask url (some t) = next_page (request_for url) t.version t.locator t.offset

  -- The reader from a URL on.
  unfoldable pub read_pages : ℕ → String → Exec App (List Json)
  unfolding next_page read_on
  read_pages zero url = raise still_running
  read_pages (suc fuel) url = ask url (target_of url) >>= read_on (read_pages fuel)

-- The reply that has a page.
abbrev with_page : Json → Reply
with_page payload = record { status = pos 200; payload = payload }

-- The records from an offset on were read, and the locator was dropped.
abbrev pub ReadsAll : List Fields → String → App → Outcome (List Json) × App → Type 0
ReadsAll records locator app (result, app') =
    (result ≡ ok (map object records)) × (app'.cursors ≡ erase locator app.cursors)

module _ (req : Request) (version locator : String) (named : IsVersion version)
    (ours : IsLocator locator) where
  abbrev url_at : ℕ → String
  url_at offset = next_url ("v" <> version) locator offset
