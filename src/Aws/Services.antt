-- ===== src/Aws/Services.antt =====
-- What the program relies on of SQS, SSM and the clocks: a sent message was accepted, accepted messages
-- stay accepted, and nothing but DynamoDB's own calls changes a table.
use salesforce_erp_sync.Common.{ℕ, String, ◌≡◌, List}
use salesforce_erp_sync.Outcome.{ok}
use salesforce_erp_sync.Aws.Types.{Update}
use salesforce_erp_sync.Aws.Client.{Aws, Message}
use salesforce_erp_sync.Aws.Dynamo.{SameContents}

module _ (aws : Aws) where
  open aws use {
    World, transact_write_items, get_item, get_queue_url, send_message, change_message_visibility,
    get_parameters, now_iso, time_ms, random, remaining_ms, stored, accepted,
  }

  -- No accepted message is lost.
  abbrev pub KeepsMail : World → World → Type 0
  KeepsMail w w' = (m : Message) → accepted w m → accepted w' m

  -- A call that is not DynamoDB's: the tables stay too.
  pub record Quiet (w w' : World) : Type 0 where
    pub tables : SameContents (stored w) (stored w')
    pub mail : KeepsMail w w'

  pub record IsServices : Type 0 where
    pub sent :
        (m : Message) (w : World) → (send_message m w).0 ≡ ok tt → accepted (send_message m w).1 m
    pub transact_mail : (us : List Update) (w : World) → KeepsMail w (transact_write_items us w).1
    pub get_item_mail :
        (table key_name key : String) (w : World) → KeepsMail w (get_item table key_name key w).1
    pub queue_url_quiet :
        (queue account : String) (w : World) → Quiet w (get_queue_url queue account w).1
    pub send_quiet : (m : Message) (w : World) → Quiet w (send_message m w).1
    pub visibility_quiet :
        (url handle : String) (seconds : ℕ) (w : World)
        → Quiet w (change_message_visibility url handle seconds w).1
    pub parameters_quiet : (names : List String) (w : World) → Quiet w (get_parameters names w).1
    pub now_quiet : (w : World) → Quiet w (now_iso w).1
    pub time_quiet : (w : World) → Quiet w (time_ms w).1
    pub random_quiet : (w : World) → Quiet w (random w).1
    pub remaining_quiet : (w : World) → Quiet w (remaining_ms w).1
