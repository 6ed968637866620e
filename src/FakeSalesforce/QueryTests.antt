-- ===== src/FakeSalesforce/QueryTests.antt =====
-- Queries of the stub: tokenized, parsed and run.
use salesforce_erp_sync.Common.{List, ℕ, String, ◌≡◌, refl, some, none, [], ◌∷◌, pos, true, false}
use salesforce_erp_sync.Outcome.{ok, raised}
use salesforce_erp_sync.FakeSalesforce.Soql.{
  text, instant, null, Query, boolean, Builtins, malformed,
}
use salesforce_erp_sync.FakeSalesforce.Soql.Tokens.{tokenize}
use salesforce_erp_sync.FakeSalesforce.Store.{Record, Store}
use salesforce_erp_sync.FakeSalesforce.Soql.Parse.{parse}
use salesforce_erp_sync.FakeSalesforce.Soql.Tokens.{Token}

abbrev pub python : Builtins
python = record {
  fromisoformat = λ s. ok (pos 0);
  date_fromisoformat = λ s. ok (pos 0);
  str_of_value = λ v. "";
  repr = λ s. s;
  strftime = λ t. "";
  isoformat = λ d. "";
}

tokenize_small :
    tokenize python "a >= 'x\\' y',2026-09-22T10:00:00.12+00:30 -12.5."
    ≡ raised (malformed "unexpected character at 47: .")
unfolding tokenize salesforce_erp_sync.Python.Regex.is_space
    salesforce_erp_sync.Python.Regex.is_decimal salesforce_erp_sync.Common.str_of_ℕ
tokenize_small = refl

won_query :
    parse python
      "SELECT Id, Name,account.Name FROM Opportunity WHERE IsWon = true AND SystemModstamp <> 2026-09-22T10:00:00Z ORDER BY SystemModstamp, Id DESC LIMIT 200"
    ≡ ok (record {
      fields = "Id" ∷ "Name" ∷ "Account.Name" ∷ [];
      sobject = "Opportunity";
      conditions =
          record { field = "IsWon"; op = "="; value = boolean true }
          ∷ record { field = "SystemModstamp"; op = "!="; value = instant (pos 0) }
          ∷ [];
      order_by =
          record { field = "SystemModstamp"; descending = false }
          ∷ record { field = "Id"; descending = true }
          ∷ [];
      limit = some 200;
    })
unfolding parse salesforce_erp_sync.Python.Regex.is_space
    salesforce_erp_sync.Python.Regex.is_decimal
    salesforce_erp_sync.FakeSalesforce.Soql.Parser.choose
    salesforce_erp_sync.FakeSalesforce.Soql.parse_datetime_literal
won_query = refl

abbrev limited_tokens : List Token
limited_tokens =
    record { kind = "ident"; text = "select" }
    ∷ record { kind = "ident"; text = "id" }
    ∷ record { kind = "ident"; text = "FROM" }
    ∷ record { kind = "ident"; text = "Opportunity" }
    ∷ record { kind = "ident"; text = "LIMIT" }
    ∷ record { kind = "number"; text = "7" }
    ∷ []

abbrev seven_ids : Query
seven_ids = record {
  fields = "Id" ∷ [];
  sobject = "Opportunity";
  conditions = [];
  order_by = [];
  limit = some 7;
}

abbrev opportunity : String → String → ℕ → Record
opportunity id stage stamp =
    ("Id", text id) ∷ ("StageName", text stage) ∷ ("SystemModstamp", instant (pos stamp)) ∷ []

abbrev first_deal : Record
first_deal = opportunity "006000000000001" "Closed Won" 9

abbrev open_deal : Record
open_deal = opportunity "006000000000002" "Prospecting" 4

abbrev last_deal : Record
last_deal = opportunity "006000000000003" "Closed Won" 5

abbrev stored : Store
stored = record {
  accounts = [];
  opportunities =
      ("006000000000001", first_deal)
      ∷ ("006000000000002", open_deal)
      ∷ ("006000000000003", last_deal)
      ∷ [];
  next_id = 1;
}

abbrev won_by_time : Query
won_by_time = record {
  fields = "Id" ∷ [];
  sobject = "Opportunity";
  conditions = record { field = "IsWon"; op = "="; value = boolean true } ∷ [];
  order_by = record { field = "SystemModstamp"; descending = false } ∷ [];
  limit = none;
}
