-- ===== src/Aws/Client.antt =====
-- The AWS clients and the clocks as parameters: operations on a world that the model does not know.
-- A call may raise whatever its library raises, and changes the world as the service decides.
use salesforce_erp_sync.Common.{ℕ, String, Option, List, Dict}
use salesforce_erp_sync.Aws.Types.{AttributeValue, Item, Update}
use salesforce_erp_sync.Exec.{Exec}

-- The arguments of `sqs.send_message`; the attributes are those of DataType String.
pub record Message : Type 0 where
  pub queue_url : String
  pub body : String
  pub attributes : Dict String

pub record Aws : Type 1 where
  pub World : Type 0
  -- dynamodb
  pub transact_write_items : List Update → Exec World Unit
  pub get_item : String → String → String → Exec World (Option Item)
  -- sqs
  pub get_queue_url : String → String → Exec World String
  pub send_message : Message → Exec World Unit
  pub change_message_visibility : String → String → ℕ → Exec World Unit
  -- ssm: the names and values of the parameters that exist
  pub get_parameters : List String → Exec World (List (String × String))
  -- `datetime.now(UTC).isoformat()`, `int(time.time() * 1000)`, `random.random()` as a multiple of
  -- 2^-53, and the remaining milliseconds of the invocation, where the context knows them
  pub now_iso : World → String × World
  pub time_ms : World → ℕ × World
  pub random : World → ℕ × World
  pub remaining_ms : World → Option ℕ × World
  -- what the tables hold, by table, key and attribute; and whether a message was ever accepted by SQS
  pub stored : World → String → String → String → Option AttributeValue
  pub accepted : World → Message → Type 0
