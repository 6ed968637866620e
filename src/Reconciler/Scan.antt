-- ===== src/Reconciler/Scan.antt =====
-- reconciler/reconcile.py: the stages of deals by pages of ids, and the versions of all orders.
use salesforce_erp_sync.Common.{
  ℕ, ◌-◌, zero, suc, ◌==◌, String, Bool, true, ◌&&◌, ◌||◌, Option, none, some, List, [], ◌∷◌, map,
  length, take, if◌then◌else◌, ℤ, Dict, lookup, insert, ◌<>◌, join, codes, leb, is_digit,
}
use salesforce_erp_sync.Python.Json.{Json, Fields}
use salesforce_erp_sync.Outcome
use salesforce_erp_sync.Outcome.{Exn, Outcome, ok, raised, other}
use salesforce_erp_sync.Exec.{Exec, pure, raise, lift, ◌>>=◌}
use salesforce_erp_sync.Aws.Types.{AttributeValue, s, n, Item}
use salesforce_erp_sync.Erp.Writer.{version_number}
use salesforce_erp_sync.Reconciler.Events.{dict_of, text_at}
use salesforce_erp_sync.Reconciler.Salesforce.{Web, Settings, Session, query_all, still_running}

abbrev is_alnum : ℕ → Bool
is_alnum c = (leb b'A' c && leb c b'Z') || (leb b'a' c && leb c b'z') || is_digit c

abbrev all_alnum : List ℕ → Bool
all_alnum [] = true
all_alnum (c ∷ cs) = is_alnum c && all_alnum cs

-- `_SF_ID.fullmatch(x)`
unfoldable pub is_sf_id : String → Bool
is_sf_id x = all_alnum (codes x) && (length (codes x) == 15 || length (codes x) == 18)

abbrev pub safe_ids : List String → List String
safe_ids [] = []
safe_ids (x ∷ xs) = if is_sf_id x then x ∷ safe_ids xs else safe_ids xs

-- `xs[i : i + width] for i in range(0, len(xs), step)`: a slice at the elements that are `step` apart, where
-- `skip` more elements come before the next one
abbrev slices : {A : Type 0} → ℕ → ℕ → ℕ → List A → List (List A)
slices skip step width [] = []
slices zero step width (x ∷ xs) = take width (x ∷ xs) ∷ slices (step - 1) step width xs
slices (suc skip) step width (x ∷ xs) = slices skip step width xs

unfoldable pub chunks : {A : Type 0} → ℕ → ℕ → List A → List (List A)
chunks = slices 0

-- the query of a chunk
unfoldable pub stage_soql : List String → String
stage_soql ids =
    "SELECT Id, StageName, IsWon FROM Opportunity WHERE Id IN ("
    <> join ", " (map (λ x. "'" <> x <> "'") ids)
    <> ")"

-- `found[row["Id"]] = row`
abbrev found_rows : List Json → Dict Fields → Outcome (Dict Fields)
found_rows [] found = ok found
found_rows (v ∷ rows) found =
    Outcome.◌>>=◌ (dict_of v)
      λ row. Outcome.◌>>=◌ (text_at row "Id") λ id. found_rows rows (insert id row found)

module _ {web : Web} (sf : Settings) (fuel : ℕ) where
  unfoldable pub lookup_chunks : List (List String) → Dict Fields → Exec (Session web) (Dict Fields)
  unfolding stage_soql
  lookup_chunks [] found = pure found
  lookup_chunks (ids ∷ rest) found = do
    rows ← query_all sf fuel (stage_soql ids)
    found' ← lift (found_rows rows found)
    lookup_chunks rest found'

  -- the function that `stage_lookup` returns
  unfoldable pub stage_lookup : List String → Exec (Session web) (Dict Fields)
  unfolding chunks lookup_chunks
  stage_lookup ids = let safe = safe_ids ids in lookup_chunks (chunks 100 100 safe) []

-- A page of a scan: its items, and where the next page starts.
pub record Page : Type 0 where
  pub items : List Item
  pub last_key : Option Item

-- `item["order_id"]["S"]`
abbrev order_id_of : Option AttributeValue → Outcome String
order_id_of none = raised (other "KeyError" "'order_id'")
order_id_of (some (s text)) = ok text
order_id_of (some (n d)) = raised (other "KeyError" "'S'")

abbrev page_versions : List Item → Dict ℤ → Outcome (Dict ℤ)
page_versions [] versions = ok versions
page_versions (item ∷ items) versions =
    Outcome.◌>>=◌ (version_number (lookup "version" item)) λ version.
      Outcome.◌>>=◌ (order_id_of (lookup "order_id" item))
        λ order_id. page_versions items (insert order_id version versions)

module _ {World : Type 0} (scan : String → Option Item → Exec World Page) (table : String) where
  abbrev next_page :
      Option Item → Dict ℤ → (Option Item → Dict ℤ → Exec World (Dict ℤ)) → Exec World (Dict ℤ)
  next_page none versions go = pure versions
  next_page (some key) versions go = go (some key) versions

  unfoldable pub scan_pages : ℕ → Option Item → Dict ℤ → Exec World (Dict ℤ)
  scan_pages zero start versions = raise still_running
  scan_pages (suc fuel) start versions = do
    page ← scan table start
    versions' ← lift (page_versions page.items versions)
    next_page page.last_key versions' (scan_pages fuel)

  unfoldable pub scan_order_versions : ℕ → Exec World (Dict ℤ)
  unfolding scan_pages
  scan_order_versions fuel = scan_pages fuel none []
