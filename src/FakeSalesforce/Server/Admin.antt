-- ===== src/FakeSalesforce/Server/Admin.antt =====
-- fake_salesforce/server.py: the writes of the admin API.
use salesforce_erp_sync.Common.{String, List, [], ◌∷◌, map}
use salesforce_erp_sync.Python.Decimal.{finite, of_int}
use salesforce_erp_sync.Python.Json.{
  Json, null, text, bool, int, number, array, object, Items, nil, cons, Fields, field, end,
  items_of,
}
use salesforce_erp_sync.Outcome.{Exn, Outcome, ok, raised, other, ◌>>=◌ as and_then}
use salesforce_erp_sync.Exec.{Exec, pure, raise, gets, ◌>>=◌}
use salesforce_erp_sync.FakeSalesforce.Soql.{Value, Builtins, parse_datetime_literal}
use salesforce_erp_sync.FakeSalesforce.Soql
use salesforce_erp_sync.FakeSalesforce.Store.{Record, Store, upsert_account, upsert_opportunity}
use salesforce_erp_sync.FakeSalesforce.Rows.{to_json, project}
use salesforce_erp_sync.FakeSalesforce.Server.{App, Turn, clock, writes}

-- `_ALL_FIELDS`
abbrev pub all_fields : List String
all_fields =
    "Id" ∷ "Name" ∷ "AccountId" ∷ "Account.Name" ∷ "Amount" ∷ "CloseDate" ∷ "StageName" ∷ "IsWon"
    ∷ "SystemModstamp" ∷ []

-- a JSON value as a field of a record, and a record as JSON
abbrev pub value_of : Json → Value
value_of null = Soql.null
value_of (bool b) = Soql.boolean b
value_of (int n) = Soql.number (finite (of_int n))
value_of (number x) = Soql.number x
value_of (text s) = Soql.text s
value_of v = Soql.nested v

abbrev pub record_of : Fields → Record
record_of end = []
record_of (field k v fs) = (k, value_of v) ∷ record_of fs

abbrev pub record_json : Builtins → Record → Fields
record_json py [] = end
record_json py ((k, v) ∷ r) = field k (to_json py v) (record_json py r)

abbrev pub no_attribute : Exn
no_attribute = other "AttributeError" "object has no attribute 'get'"

abbrev pub object_of : Json → Outcome Fields
object_of (object fs) = ok fs
object_of v = raised no_attribute

-- what a PUT iterates over
abbrev pub iterated : Json → Outcome Items
iterated (array vs) = ok vs
iterated (object end) = ok nil
iterated (object (field k v fs)) = raised no_attribute
iterated v = raised (other "TypeError" "object is not iterable")

abbrev pub object_list : List Fields → Json
object_list fs = array (items_of (map object fs))

-- PUT of accounts: those before a bad one stay written
unfoldable pub put_accounts : Builtins → Items → Exec App (List Fields)
unfolding upsert_account
put_accounts py nil = pure []
put_accounts py (cons (object fs) vs) = do
  account ← writes (upsert_account (record_of fs))
  rest ← put_accounts py vs
  pure (record_json py account ∷ rest)
put_accounts py (cons v vs) = raise no_attribute

-- PUT of opportunities
unfoldable pub put_opportunities : Builtins → Turn → Items → Exec App (List Record)
unfolding upsert_opportunity clock
put_opportunities py turn nil = pure []
put_opportunities py turn (cons (object fs) vs) = do
  stamp ← gets (λ app. (clock app turn, app))
  opp ← writes (upsert_opportunity py stamp (record_of fs))
  rest ← put_opportunities py turn vs
  pure (opp ∷ rest)
put_opportunities py turn (cons v vs) = raise no_attribute

unfoldable pub projections : Builtins → Store → List Record → Outcome (List Fields)
unfolding project
projections py st [] = ok []
projections py st (opp ∷ rows) =
    and_then (project py st "v66.0" all_fields opp)
      λ out. and_then (projections py st rows) λ outs. ok (out ∷ outs)
