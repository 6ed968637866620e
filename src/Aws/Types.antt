-- ===== src/Aws/Types.antt =====
-- Requests to DynamoDB as erp/writer.py builds them, and the error that botocore raises.
use salesforce_erp_sync.Common.{String, Bool, Option, List, Dict}
use salesforce_erp_sync.Python.Decimal.{Decimal}

-- {"S": text} and {"N": text}; the text of an N is that of a number, and the number is kept
pub data AttributeValue : Type 0 where
  s : String → AttributeValue
  n : Decimal → AttributeValue

abbrev pub Item : Type 0
Item = Dict AttributeValue

-- The right side of a SET action: `:v`, `if_not_exists(path, :v)`, or a sum of two.
pub data Operand : Type 0 where
  value : String → Operand
  if_not_exists : String → String → Operand
  plus : Operand → Operand → Operand

pub record SetAction : Type 0 where
  pub path : String
  pub operand : Operand

pub data Condition : Type 0 where
  attribute_not_exists : String → Condition
  less : String → String → Condition
  either : Condition → Condition → Condition

-- One {"Update": {...}} of TransactItems. The two expressions are syntax trees; their texts are
-- those of the source (`Erp.Tests`).
pub record Update : Type 0 where
  pub table_name : String
  pub key_name : String
  pub key : String
  pub update_expression : List SetAction
  pub condition_expression : Option Condition
  pub names : Dict String
  pub values : Dict AttributeValue
  -- ReturnValuesOnConditionCheckFailure is "ALL_OLD"
  pub return_old : Bool

-- An entry of CancellationReasons.
pub record Reason : Type 0 where
  pub code : Option String
  pub item : Option Item

-- `exc.response` of a botocore ClientError, with the exception's class name and its `str`.
pub record ClientError : Type 0 where
  pub class_name : String
  pub description : String
  pub code : Option String
  pub message : Option String
  pub reasons : List Reason
