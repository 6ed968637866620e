-- ===== src/Aws/Dynamo.antt =====
-- What the program relies on of DynamoDB, as its documentation states it: the meaning of update and
-- condition expressions, and the all-or-nothing transaction. The service itself is a parameter.
use salesforce_erp_sync.Common.{
  String, ◌≡◌, Bool, true, false, ◌&&◌, ◌||◌, not, Option, none, some, List, [], ◌∷◌, ◌⊎◌, str_eq,
  if◌then◌else◌, Dict, lookup, or_default, is_some,
}
use salesforce_erp_sync.Python.Decimal.{decimal_ltb, decimal_add}
use salesforce_erp_sync.Aws.Types.{
  AttributeValue, s, n, Operand, value, if_not_exists, plus, SetAction, Condition,
  attribute_not_exists, less, either, Update, Reason, ClientError,
}
use salesforce_erp_sync.Aws.Client.{Aws}
use salesforce_erp_sync.Outcome.{ok, raised, client_error}

-- an item's attributes, and the tables' items
abbrev pub Attributes : Type 0
Attributes = String → Option AttributeValue

abbrev pub Contents : Type 0
Contents = String → String → Attributes

-- A name placeholder stands for the attribute that it is given.
abbrev pub resolve : Update → String → String
resolve u path = or_default (lookup path u.names) path

abbrev pub sum_of : Option AttributeValue → Option AttributeValue → Option AttributeValue
sum_of (some (n a)) (some (n b)) = some (n (decimal_add a b))
sum_of _ _ = none

-- Operands read the item as it was before the update.
abbrev pub evaluate : Update → Attributes → Operand → Option AttributeValue
evaluate u old (value v) = lookup v u.values
evaluate u old (if_not_exists path v) =
    if is_some (old (resolve u path)) then old (resolve u path) else lookup v u.values
evaluate u old (plus a b) = sum_of (evaluate u old a) (evaluate u old b)

abbrev pub assigned : Update → Attributes → List SetAction → Attributes
assigned u old [] a = old a
assigned u old (act ∷ acts) a =
    if str_eq (resolve u act.path) a then evaluate u old act.operand else assigned u old acts a

-- The item that an update leaves: an update of a missing item creates it with its key.
unfoldable pub updated : Update → Attributes → Attributes
updated u old a =
    if str_eq u.key_name a then some (s u.key) else assigned u old u.update_expression a

unfoldable pub after_update : Contents → Update → Contents
unfolding updated
after_update c u table key a =
    if str_eq u.table_name table && str_eq u.key key
    then updated u (c table key) a
    else c table key a

unfoldable pub after_updates : Contents → List Update → Contents
unfolding after_update
after_updates c [] = c
after_updates c (u ∷ us) = after_updates (after_update c u) us

abbrev pub number_ltb : Option AttributeValue → Option AttributeValue → Bool
number_ltb (some (n a)) (some (n b)) = decimal_ltb a b
number_ltb _ _ = false

unfoldable pub holds : Update → Attributes → Condition → Bool
holds u old (attribute_not_exists path) = not (is_some (old (resolve u path)))
holds u old (less path v) = number_ltb (old (resolve u path)) (lookup v u.values)
holds u old (either a b) = holds u old a || holds u old b

unfoldable pub condition_of : Update → Attributes → Option Condition → Bool
unfolding holds
condition_of u old none = true
condition_of u old (some c) = holds u old c

unfoldable pub passes : Contents → Update → Bool
unfolding condition_of
passes c u = condition_of u (c u.table_name u.key) u.condition_expression

unfoldable pub all_pass : Contents → List Update → Bool
unfolding passes
all_pass c [] = true
all_pass c (u ∷ us) = passes c u && all_pass c us

abbrev pub is_cancelled : ClientError → Bool
is_cancelled e = str_eq (or_default e.code "") "TransactionCanceledException"

-- the first reason of a cancelled transaction: its code, and the stored item that comes with it
abbrev pub first_code : List Reason → Option String
first_code [] = none
first_code (r ∷ rs) = r.code

abbrev pub first_item : List Reason → Option (Dict AttributeValue)
first_item [] = none
first_item (r ∷ rs) = r.item

abbrev pub SameContents : Contents → Contents → Type 0
SameContents c d = (table key a : String) → d table key a ≡ c table key a

module _ (aws : Aws) where
  open aws use {World, transact_write_items, get_item, stored}

  abbrev pub Applied : List Update → World → World → Type 0
  Applied us w w' =
      (all_pass (stored w) us ≡ true) × SameContents (after_updates (stored w) us) (stored w')

  -- What the developer guide states of TransactWriteItems and of a consistent GetItem.
  pub record IsDynamo : Type 0 where
    -- A transaction that succeeds passed every condition and applied every update.
    pub committed :
        (us : List Update) (w : World)
        → (transact_write_items us w).0 ≡ ok tt
        → Applied us w (transact_write_items us w).1
    -- One that is cancelled changed nothing.
    pub cancelled :
        (us : List Update) (w : World) (e : ClientError)
        → (transact_write_items us w).0 ≡ raised (client_error e)
        → is_cancelled e ≡ true
        → SameContents (stored w) (stored (transact_write_items us w).1)
    -- After any other error, a lost reply too, it was applied as a whole or not at all.
    pub atomic :
        (us : List Update) (w : World)
        → SameContents (stored w) (stored (transact_write_items us w).1)
          ⊎ Applied us w (transact_write_items us w).1
    -- The reason ConditionalCheckFailed is given for an update whose condition was false.
    pub check_failed :
        (u : Update) (us : List Update) (w : World) (e : ClientError)
        → (transact_write_items (u ∷ us) w).0 ≡ raised (client_error e)
        → is_cancelled e ≡ true
        → first_code e.reasons ≡ some "ConditionalCheckFailed"
        → passes (stored w) u ≡ false
    -- The reason of a failed check carries the stored item, where the update asks for it.
    pub all_old :
        (u : Update) (us : List Update) (w : World) (e : ClientError) (it : Dict AttributeValue)
        → (transact_write_items (u ∷ us) w).0 ≡ raised (client_error e)
        → is_cancelled e ≡ true
        → u.return_old ≡ true
        → first_item e.reasons ≡ some it
        → (a : String) → lookup a it ≡ stored w u.table_name u.key a
    -- A consistent read returns the stored item and changes nothing.
    pub reads :
        (table key_name key : String) (w : World) (it : Dict AttributeValue)
        → (get_item table key_name key w).0 ≡ ok (some it)
        → (a : String) → lookup a it ≡ stored w table key a
    pub reads_none :
        (table key_name key : String) (w : World)
        → (get_item table key_name key w).0 ≡ ok none
        → (a : String) → stored w table key a ≡ none
    pub read_only :
        (table key_name key : String) (w : World)
        → SameContents (stored w) (stored (get_item table key_name key w).1)
