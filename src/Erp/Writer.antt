-- ===== src/Erp/Writer.antt =====
-- erp/writer.py: one conditional transaction for the order, its invoice and the customer, and the
-- reading of a failed one.
use salesforce_erp_sync.Common.{
  String, true, false, Option, none, some, List, [], ◌∷◌, map, str_eq, any, contains, if◌then◌else◌,
  lookup, or_default, Dict, ℤ, pos, negsuc, ltb_ℤ, eqb_ℤ, ◌<>◌, join,
}
use salesforce_erp_sync.Python.Decimal.{Decimal, of_int, to_int}
use salesforce_erp_sync.Outcome.{
  Exn, Outcome, ok, raised, erp_rejected, erp_unavailable, client_error, other, ◌>>=◌ as bind,
}
use salesforce_erp_sync.Exec.{Exec, pure, raise, lift, attempt, ◌>>=◌, ◌>>◌}
use salesforce_erp_sync.Aws.Types.{
  AttributeValue, s, n, Item, value, if_not_exists, plus, SetAction, attribute_not_exists, less,
  either, Update, Reason, ClientError,
}
use salesforce_erp_sync.Aws.Client.{Aws}
use salesforce_erp_sync.Erp.Schema.{name, customers, orders, invoices, invoice_id_for}

pub data WriteResult : Type 0 where
  written duplicate stale : WriteResult

-- One deal, already validated and mapped to ERP fields.
pub record Order : Type 0 where
  pub order_id : String
  pub customer_id : String
  pub customer_name : String
  pub opportunity_name : String
  pub total : Decimal
  pub order_date : String
  pub version : ℤ
  pub source_modstamp : String
  pub event_key : String

abbrev pub transient_codes : List String
transient_codes =
    "TransactionConflict" ∷ "ThrottlingError" ∷ "ProvisionedThroughputExceeded"
    ∷ "RequestLimitExceeded" ∷ []

abbrev pub transient_errors : List String
transient_errors =
    "ProvisionedThroughputExceededException" ∷ "ThrottlingException" ∷ "RequestLimitExceeded"
    ∷ "TransactionInProgressException" ∷ "InternalServerError" ∷ "ServiceUnavailable" ∷ []

-- `path = :v`
abbrev pub put : String → String → SetAction
put path v = record { path = path; operand = value v }

-- `created_at = if_not_exists(created_at, :now)`
abbrev pub keep_created : SetAction
keep_created = record { path = "created_at"; operand = if_not_exists "created_at" ":now" }

-- The element 0 of `_transaction`: the order, the only conditional item.
abbrev pub order_update : Dict String → Order → String → Update
order_update environ order now = record {
  table_name = name environ orders;
  key_name = "order_id";
  key = order.order_id;
  update_expression =
      put "customer_id" ":cid"
      ∷ put "customer_name" ":cname"
      ∷ put "opportunity_name" ":oname"
      ∷ put "#total" ":total"
      ∷ put "order_date" ":odate"
      ∷ put "#version" ":v"
      ∷ put "source_modstamp" ":ms"
      ∷ put "event_key" ":ek"
      ∷ put "updated_at" ":now"
      ∷ keep_created
      ∷ record {
        path = "revision";
        operand = plus (if_not_exists "revision" ":zero") (value ":one");
      }
      ∷ [];
  condition_expression = some (either (attribute_not_exists "order_id") (less "#version" ":v"));
  names = ("#total", "total") ∷ ("#version", "version") ∷ [];
  values =
      (":cid", s order.customer_id)
      ∷ (":cname", s order.customer_name)
      ∷ (":oname", s order.opportunity_name)
      ∷ (":total", n order.total)
      ∷ (":odate", s order.order_date)
      ∷ (":v", n (of_int order.version))
      ∷ (":ms", s order.source_modstamp)
      ∷ (":ek", s order.event_key)
      ∷ (":now", s now)
      ∷ (":zero", n (of_int (pos 0)))
      ∷ (":one", n (of_int (pos 1)))
      ∷ [];
  return_old = true;
}

-- The element 1: the invoice mirrors the latest order version.
abbrev pub invoice_update : Dict String → Order → String → Update
invoice_update environ order now = record {
  table_name = name environ invoices;
  key_name = "invoice_id";
  key = invoice_id_for order.order_id;
  update_expression =
      put "order_id" ":oid"
      ∷ put "customer_id" ":cid"
      ∷ put "amount" ":amt"
      ∷ put "issue_date" ":d"
      ∷ put "#status" ":st"
      ∷ put "#version" ":v"
      ∷ put "event_key" ":ek"
      ∷ put "updated_at" ":now"
      ∷ keep_created
      ∷ [];
  condition_expression = none;
  names = ("#status", "status") ∷ ("#version", "version") ∷ [];
  values =
      (":oid", s order.order_id)
      ∷ (":cid", s order.customer_id)
      ∷ (":amt", n order.total)
      ∷ (":d", s order.order_date)
      ∷ (":st", s "ISSUED")
      ∷ (":v", n (of_int order.version))
      ∷ (":ek", s order.event_key)
      ∷ (":now", s now)
      ∷ [];
  return_old = false;
}

-- The element 2: the customer, with no condition of its own.
abbrev pub customer_update : Dict String → Order → String → Update
customer_update environ order now = record {
  table_name = name environ customers;
  key_name = "customer_id";
  key = order.customer_id;
  update_expression =
      put "#name" ":name"
      ∷ put "last_event_key" ":ek"
      ∷ put "updated_at" ":now"
      ∷ keep_created
      ∷ [];
  condition_expression = none;
  names = ("#name", "name") ∷ [];
  values = (":name", s order.customer_name) ∷ (":ek", s order.event_key) ∷ (":now", s now) ∷ [];
  return_old = false;
}

unfoldable pub transaction : Dict String → Order → String → List Update
transaction environ order now =
    order_update environ order now
    ∷ invoice_update environ order now
    ∷ customer_update environ order now
    ∷ []

-- `f"transaction cancelled: {codes}"`, for codes with no quote in them
unfoldable pub cancelled_text : List String → String
cancelled_text codes =
    "transaction cancelled: [" <> join ", " (map (λ c. "'" <> c <> "'") codes) <> "]"

-- `int(stored["version"]["N"])`
unfoldable pub version_number : Option AttributeValue → Outcome ℤ
version_number none = raised (other "KeyError" "'version'")
version_number (some (s text)) = raised (other "KeyError" "'N'")
version_number (some (n d)) = elim (to_int d) [
  | none ↦ raised (other "ValueError" "invalid literal for int() with base 10")
  | some z ↦ ok z
]

-- `int(stored["version"]["N"]) if stored else -1`
unfoldable pub stored_version : Option Item → Outcome ℤ
unfolding version_number
stored_version none = ok (negsuc 0)
stored_version (some []) = ok (negsuc 0)
stored_version (some (a ∷ rest)) = version_number (lookup "version" (a ∷ rest))

-- The comparison of the stored version with the order's.
unfoldable pub settle : ℤ → ℤ → Outcome WriteResult
settle stored incoming =
    if eqb_ℤ stored incoming
    then ok duplicate
    else if ltb_ℤ incoming stored
    then ok stale
    else raised (erp_unavailable "order changed during the write; retrying")

-- What the stored order says of the attempt.
unfoldable pub read_as : Order → Option Item → Outcome WriteResult
unfolding stored_version settle
read_as order item = bind (stored_version item) (λ version. settle version order.version)

-- The other cancellations, by their codes.
unfoldable pub cancelled_by : List String → Exn
cancelled_by codes =
    if any (contains transient_codes) codes
    then erp_unavailable (cancelled_text codes)
    else if contains codes "ValidationError"
    then erp_rejected (cancelled_text codes)
    else erp_unavailable (cancelled_text codes)

abbrev pub reason_code : Reason → String
reason_code r = or_default r.code "None"

-- The errors that are no cancellation.
unfoldable pub refused_by : ClientError → Exn
refused_by e =
    let code = or_default e.code "" in
    if str_eq code "ValidationException"
    then erp_rejected (or_default e.message code)
    else if contains transient_errors code
    then erp_unavailable code
    else client_error e

module _ (aws : Aws) (environ : Dict String) where
  open aws use {World, transact_write_items, get_item}

  unfoldable pub read_order : String → Exec World (Option Item)
  read_order order_id = get_item (name environ orders) "order_id" order_id

  -- `reasons[0].get("Item") or _read_order(ddb, order.order_id)`; an empty item counts as none
  unfoldable pub stored_order : String → Option Item → Exec World (Option Item)
  unfolding read_order
  stored_order order_id none = read_order order_id
  stored_order order_id (some []) = read_order order_id
  stored_order order_id (some (a ∷ rest)) = pure (some (a ∷ rest))

  unfoldable pub check_failed : Order → Option Item → Exec World WriteResult
  unfolding stored_order read_as
  check_failed order item = do
    stored ← stored_order order.order_id item
    lift (read_as order stored)

  unfoldable pub classify_cancelled : Order → List Reason → Exec World WriteResult
  unfolding check_failed cancelled_by
  classify_cancelled order [] = raise (cancelled_by [])
  classify_cancelled order (r ∷ rest) =
      if str_eq (reason_code r) "ConditionalCheckFailed"
      then check_failed order r.item
      else raise (cancelled_by (map reason_code (r ∷ rest)))

  -- `_classify`
  unfoldable pub classify : Order → ClientError → Exec World WriteResult
  unfolding classify_cancelled refused_by
  classify order e =
      if str_eq (or_default e.code "") "TransactionCanceledException"
      then classify_cancelled order e.reasons
      else raise (refused_by e)

  -- `except ClientError` of `write_order`
  unfoldable pub on_error : Order → Exn → Exec World WriteResult
  unfolding classify
  on_error order (client_error e) = classify order e
  on_error order exc = raise exc

  unfoldable pub write_order : Order → String → Exec World WriteResult
  unfolding transaction on_error
  write_order order now =
      attempt (transact_write_items (transaction environ order now) >> pure written)
        (on_error order)
