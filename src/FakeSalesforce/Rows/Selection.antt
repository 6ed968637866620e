-- ===== src/FakeSalesforce/Rows/Selection.antt =====
-- What `run_query` of fake_salesforce/store.py selects.
use mathlib.Core.List.{Perm}
use salesforce_erp_sync.Common.{◌≡◌, Bool, false, List, [], ◌∷◌, Dict}
use salesforce_erp_sync.Outcome.{Outcome, ok, raised}
use salesforce_erp_sync.FakeSalesforce.Soql.{Condition, OrderBy, Query}
use salesforce_erp_sync.FakeSalesforce.Store.{Record, Store}
use salesforce_erp_sync.FakeSalesforce.Reads.{all_match, keep_if}
use salesforce_erp_sync.FakeSalesforce.Rows.{moves_behind, limited}
use salesforce_erp_sync.FakeSalesforce.Rows.Sorted.{InOrder}

-- Every condition holds of the record.
abbrev says_true : Outcome Bool → Bool
says_true (ok b) = b
says_true (raised e) = false

-- The records that meet the conditions, in the store's order.
abbrev pub meeting : Store → List Condition → Dict Record → List Record
meeting st conds [] = []
meeting st conds ((_, opp) ∷ rest) =
    keep_if (says_true (all_match st opp conds)) opp (meeting st conds rest)

-- The first key of ORDER BY decides between neighbours.
abbrev pub IsOrderedBy : Store → List OrderBy → List Record → Type 0
IsOrderedBy st [] rows = Unit
IsOrderedBy st (key ∷ keys) rows = InOrder (moves_behind st key) rows

-- The rows are the records that meet the conditions, each as often as it is stored, in the query's order
-- and up to its limit.
pub record IsSelection (st : Store) (q : Query) (rows : List Record) : Type 0 where
  pub ordered_rows : List Record
  pub permuted : Perm ordered_rows (meeting st q.conditions st.opportunities)
  pub ordered : IsOrderedBy st q.order_by ordered_rows
  pub cut : rows ≡ limited q.limit ordered_rows
