-- ===== src/Aws/Tables.antt =====
-- The tables of the small AWS in memory, and their updates.
use mathlib.Core.Path.{fun_ext}
use salesforce_erp_sync.Common.{
  String, ◌≡◌, refl, ◌∙◌, ap, ◌&&◌, Option, none, some, List, [], ◌∷◌, arith, inl, inr, str_eq,
  eq_iff, if◌then◌else◌, lookup, insert, lookup-insert, Bool-cases,
}
use salesforce_erp_sync.Aws.Types.{AttributeValue, s, Item, SetAction, Update, Reason, ClientError}
use salesforce_erp_sync.Aws.Dynamo.{
  Attributes, evaluate, resolve, assigned, after_update, after_updates, passes,
}

abbrev pub Tables : Type 0
Tables = String → String → Item

abbrev pub contents : Tables → String → String → Attributes
contents t table key a = lookup a (t table key)

abbrev erase : String → Item → Item
erase k [] = []
erase k ((j, v) ∷ it) = if str_eq j k then erase k it else (j, v) ∷ erase k it

lookup-erase :
    (k j : String) (it : Item) → lookup j (erase k it) ≡ (if str_eq k j then none else lookup j it)
lookup-erase k j [] = ground arith
lookup-erase k j ((i, w) ∷ it) =
    ground (arith, eq_iff k j, eq_iff i k, eq_iff i j, lookup-erase k j it)

abbrev assign : String → Option AttributeValue → Item → Item
assign k none it = erase k it
assign k (some v) it = insert k v it

lookup-assign :
    (k j : String) (o : Option AttributeValue) (it : Item)
    → lookup j (assign k o it) ≡ (if str_eq k j then o else lookup j it)
lookup-assign k j none it = lookup-erase k j it
lookup-assign k j (some v) it = lookup-insert k j v it

assign_all : Update → Item → List SetAction → Item
assign_all u old [] = old
assign_all u old (act ∷ acts) =
    assign (resolve u act.path) (evaluate u (λ a. lookup a old) act.operand) (assign_all u old acts)

lookup-assign_all :
    (u : Update) (old : Item) (acts : List SetAction) (a : String)
    → lookup a (assign_all u old acts) ≡ assigned u (λ b. lookup b old) acts a
unfolding assign_all
lookup-assign_all u old [] a = refl
lookup-assign_all u old (act ∷ acts) a =
    lookup-assign (resolve u act.path) a (evaluate u (λ b. lookup b old) act.operand)
      (assign_all u old acts)
    ∙ rw (lookup-assign_all u old acts a)

unfoldable pub apply_update : Tables → Update → Tables
unfolding assign_all
apply_update t u table key =
    if str_eq u.table_name table && str_eq u.key key
    then insert u.key_name (s u.key) (assign_all u (t table key) u.update_expression)
    else t table key

contents-apply_update :
    (t : Tables) (u : Update) (table key a : String)
    → contents (apply_update t u) table key a ≡ after_update (contents t) u table key a
unfolding apply_update after_update
contents-apply_update t u table key a =
    elim (Bool-cases (str_eq u.table_name table && str_eq u.key key)) [
      | inl here ↦ rw here (
          lookup-insert u.key_name a (s u.key) (assign_all u (t table key) u.update_expression)
          ∙ rw (lookup-assign_all u (t table key) u.update_expression a))
      | inr elsewhere ↦ rw elsewhere
    ]

unfoldable pub apply_updates : Tables → List Update → Tables
apply_updates t [] = t
apply_updates t (u ∷ us) = apply_updates (apply_update t u) us

pub contents-apply_updates :
    (t : Tables) (us : List Update) → contents (apply_updates t us) ≡ after_updates (contents t) us
unfolding apply_updates after_updates
contents-apply_updates t [] = refl
contents-apply_updates t (u ∷ us) =
    contents-apply_updates (apply_update t u) us
    ∙ ap (λ c. after_updates c us)
        (fun_ext λ table. fun_ext λ key. fun_ext λ a. contents-apply_update t u table key a)

unfoldable pub reason_for : Tables → Update → Reason
reason_for t u = record {
  code = if passes (contents t) u then none else some "ConditionalCheckFailed";
  item = some (t u.table_name u.key);
}

unfoldable pub reasons_for : Tables → List Update → List Reason
unfolding reason_for
reasons_for t [] = []
reasons_for t (u ∷ us) = reason_for t u ∷ reasons_for t us

unfoldable pub cancelled_error : Tables → List Update → ClientError
unfolding reasons_for
cancelled_error t us = record {
  class_name = "TransactionCanceledException";
  description = "Transaction cancelled";
  code = some "TransactionCanceledException";
  message = none;
  reasons = reasons_for t us;
}
