-- ===== src/FakeSalesforce/Store.antt =====
-- fake_salesforce/store.py: the records in memory, their writes, and the values that a query tests.
use salesforce_erp_sync.Common.{
  ℕ, zero, suc, ◌+◌, String, Bool, ◌||◌, Option, none, some, List, [], ◌∷◌, length, if◌then◌else◌,
  ℤ, Dict, lookup, insert, or_default, is_some, ◌<>◌, str_eq, padded,
}
use salesforce_erp_sync.Python.Decimal.{Number, decimal_of_text}
use salesforce_erp_sync.Outcome.{Outcome, ok, raised, other, ◌>>=◌ as and_then}
use salesforce_erp_sync.Exec.{Exec, pure, ◌>>=◌, ◌>>◌}
use salesforce_erp_sync.FakeSalesforce.Soql.{
  Value, null, text, instant, date, number, Builtins, still_running, parse_datetime_literal,
}

abbrev pub Record : Type 0
Record = Dict Value

-- `Store`: the accounts, the opportunities, and the next number of an identifier.
pub record Store : Type 0 where
  pub accounts : Dict Record
  pub opportunities : Dict Record
  pub next_id : ℕ

-- `WON_STAGE` and `CLOSED_STAGES`
abbrev pub won_stage : String
won_stage = "Closed Won"

abbrev pub closed_stages : List String
closed_stages = "Closed Won" ∷ "Closed Lost" ∷ []

-- `reset`
abbrev pub reset : Store → Store
reset st = record st { accounts = []; opportunities = [] }

-- `{**old, **data}`
abbrev pub merge : Record → Record → Record
merge old [] = old
merge old ((k, v) ∷ data_) = merge (insert k v old) data_

-- `_new_id`: the identifiers in use are skipped; every number up to the fuel may be in use
unfoldable pub new_id : ℕ → String → Exec Store String
new_id zero prefix st = (raised still_running, st)
new_id (suc fuel) prefix st =
    let candidate = prefix <> "FAKE" <> padded 11 st.next_id in
    let st' : Store = record st { next_id = suc st.next_id } in
    let rest = new_id fuel prefix st' in
    if is_some (lookup candidate st.accounts) || is_some (lookup candidate st.opportunities)
    then rest
    else (ok candidate, st')

-- `data.get("Id") or self._new_id(prefix)`, for an Id that is a text
unfoldable pub id_or_new : String → Record → Exec Store String
unfolding new_id
id_or_new prefix data_ = given (or_default (lookup "Id" data_) null)
  where
    fresh : Exec Store String
    fresh st = new_id (suc (length st.accounts + length st.opportunities)) prefix st

    given : Value → Exec Store String
    given (text s) = if str_eq s "" then fresh else pure s
    given v = fresh

-- `upsert_account`
unfoldable pub upsert_account : Record → Exec Store Record
unfolding id_or_new
upsert_account data_ = do
  id ← id_or_new "001" data_
  λ st.
      (let account = insert "Id" (text id) (merge (or_default (lookup id st.accounts) []) data_) in
        (ok account, record st { accounts = insert id account st.accounts }))

-- `_stamp`, where `now` is what the clock says
unfoldable pub stamp_of : Builtins → ℤ → Value → Outcome ℤ
stamp_of py now null = ok now
stamp_of py now (instant t) = ok t
stamp_of py now (text s) = parse_datetime_literal py.fromisoformat s
stamp_of py now v = parse_datetime_literal py.fromisoformat (py.str_of_value v)

-- `setdefault`
abbrev pub set_default : String → Value → Record → Record
set_default k v r = if is_some (lookup k r) then r else insert k v r

abbrev pub get_or_null : String → Record → Value
get_or_null k r = or_default (lookup k r) null

-- the conversions of `upsert_opportunity`, each of the field's value
unfoldable pub created_of : Builtins → Value → Outcome Value
created_of py (text s) = and_then (parse_datetime_literal py.fromisoformat s) λ t. ok (instant t)
created_of py v = ok v

unfoldable pub amount_of : Builtins → Value → Outcome Value
amount_of py null = ok null
amount_of py (number x) = ok (number x)
amount_of py (text s) = read (decimal_of_text s)
  where
    read : Option Number → Outcome Value
    read none = raised (other "InvalidOperation" "conversion syntax")
    read (some x) = ok (number x)
amount_of py v = raised (other "InvalidOperation" "conversion syntax")

unfoldable pub close_date_of : Builtins → Value → Outcome Value
close_date_of py (text s) = and_then (py.date_fromisoformat s) λ d. ok (date d)
close_date_of py v = ok v

-- a conversion of a field that the record has
abbrev convert : (Value → Outcome Value) → String → Record → Outcome Record
convert f k r = elim (lookup k r) [ none ↦ ok r | some v ↦ and_then (f v) λ v'. ok (insert k v' r) ]

-- the record that `upsert_opportunity` keeps
unfoldable pub opportunity_from : Builtins → ℤ → String → Record → Record → Outcome Record
unfolding stamp_of created_of amount_of close_date_of
opportunity_from py now opp_id existing data_ =
    and_then (stamp_of py now (get_or_null "SystemModstamp" data_)) λ stamp.
      let opp = insert "LastModifiedDate" (instant stamp) (
        insert "SystemModstamp" (instant stamp)
          (insert "Id" (text opp_id) (merge existing data_))) in
      let dated =
        set_default "CreatedDate" (or_default (lookup "CreatedDate" existing) (instant stamp))
          opp in
      and_then (convert (created_of py) "CreatedDate" dated) λ created.
        and_then (convert (amount_of py) "Amount" created) λ priced.
          and_then (convert (close_date_of py) "CloseDate" priced)
            λ closed. ok (set_default "Amount" null (set_default "AccountId" null closed))

-- `upsert_opportunity` at its identifier
unfoldable pub save_opportunity : Builtins → ℤ → String → Record → Exec Store Record
unfolding opportunity_from
save_opportunity py now opp_id data_ = do
  opp ← λ st.
      (opportunity_from py now opp_id (or_default (lookup opp_id st.opportunities) []) data_, st)
  λ st. (ok opp, record st { opportunities = insert opp_id opp st.opportunities })

-- `upsert_opportunity`: a new identifier stays taken when the record cannot be made
unfoldable pub upsert_opportunity : Builtins → ℤ → Record → Exec Store Record
unfolding save_opportunity
upsert_opportunity py now data_ = do id ← id_or_new "006" data_; save_opportunity py now id data_

-- `edit_opportunity`
unfoldable pub edit_opportunity : Builtins → ℤ → String → Record → Value → Exec Store Record
unfolding upsert_opportunity
edit_opportunity py now opp_id changes system_modstamp st = elim (lookup opp_id st.opportunities) [
  | none ↦ (raised (other "KeyError" opp_id), st)
  | some old ↦
      upsert_opportunity py now
        (insert "SystemModstamp" system_modstamp (insert "Id" (text opp_id) (merge old changes))) st
]

abbrev pub erase {ℓ} : {A : Type ℓ} → String → Dict A → Dict A
erase k [] = []
erase k ((j, v) ∷ rest) = if str_eq j k then erase k rest else (j, v) ∷ erase k rest

-- `delete_opportunity`
abbrev pub delete_opportunity : String → Store → Bool × Store
delete_opportunity opp_id st = (
  is_some (lookup opp_id st.opportunities),
  record st { opportunities = erase opp_id st.opportunities },
)

-- `load`: each opportunity with what the clock says at its turn; the records before a bad one stay
unfoldable pub load_accounts : List Record → Exec Store Unit
unfolding upsert_account
load_accounts [] = pure tt
load_accounts (account ∷ rest) = do upsert_account account; load_accounts rest

unfoldable pub load_opportunities : Builtins → List (ℤ × Record) → Exec Store Unit
unfolding upsert_opportunity
load_opportunities py [] = pure tt
load_opportunities py ((now, opp) ∷ rest) = do
  upsert_opportunity py now opp
  load_opportunities py rest

unfoldable pub load : Builtins → List Record → List (ℤ × Record) → Exec Store Unit
unfolding load_accounts load_opportunities
load py accounts opportunities = do load_accounts accounts; load_opportunities py opportunities
