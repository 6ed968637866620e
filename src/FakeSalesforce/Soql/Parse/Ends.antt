-- ===== src/FakeSalesforce/Soql/Parse/Ends.antt =====
-- `parse` of fake_salesforce/soql.py ends on every text.
use salesforce_erp_sync.Outcome.{Exn, Outcome, ok, raised, ◌>>=◌ as and_then}
use salesforce_erp_sync.FakeSalesforce.Soql.{Query, Builtins}
use salesforce_erp_sync.FakeSalesforce.Soql.Parser.Takes.{IsRefusal, Ends, Takes}

-- How `parse` ends: in a query, or in a refusal.
pub data Parses (py : Builtins) : Outcome Query → Type 0 where
  parsed : (q : Query) → Parses py (ok q)
  unparsed : {e : Exn} → IsRefusal py e → Parses py (raised e)
