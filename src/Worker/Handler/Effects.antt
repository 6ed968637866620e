-- ===== src/Worker/Handler/Effects.antt =====
-- What each part of worker/app.py does to the world, whatever it returns: only transactions of
-- erp/writer.py reach the tables, and no accepted message is lost.
use salesforce_erp_sync.Common.{String, Option, none, some, List, [], ◌∷◌, Dict, str_eq}
use salesforce_erp_sync.Outcome.{Exn, raised, client_error}
use salesforce_erp_sync.Exec.{raise}
use salesforce_erp_sync.Exec.Keeps.{
  Keeps, IsPreorder, pure-Keeps, lift-Keeps, bind-Keeps, attempt-Keeps, if-Keeps,
}
use salesforce_erp_sync.Aws.Types.{Item, Reason}
use salesforce_erp_sync.Aws.Client.{Aws}
use salesforce_erp_sync.Aws.Dynamo.{IsDynamo}
use salesforce_erp_sync.Aws.Services.{KeepsMail, Quiet, IsServices}
use salesforce_erp_sync.Erp.Writer.{
  Order, written, reason_code, stored_order, read_order, check_failed, classify_cancelled, classify,
  on_error, write_order, transaction,
}
use salesforce_erp_sync.Erp.History.{outside, Reach, here, next, write_order-Reach}

-- After any run of the worker: a history of transactions, and no accepted message lost.
pub record Goes (aws : Aws) (environ : Dict String) (w w' : aws.World) : Type 0 where
  pub history : Reach aws environ w w'
  pub mail : KeepsMail aws w w'

module _ (aws : Aws) (environ : Dict String) where
  open aws use {World, stored}

  Reach-trans :
      {w u v : World} → Reach aws environ w u → Reach aws environ u v → Reach aws environ w v
  Reach-trans r here = r
  Reach-trans r (next q step) = next (Reach-trans r q) step

  mail-IsPreorder : IsPreorder (KeepsMail aws)
  mail-IsPreorder = record { same = λ w m h. h; chain = λ p q m h. q m (p m h) }

  pub Goes-IsPreorder : IsPreorder (Goes aws environ)
  Goes-IsPreorder = record {
    same = λ w. record { history = here; mail = λ m h. h };
    chain = λ p q. record {
      history = Reach-trans p.history q.history;
      mail = λ m h. q.mail m (p.mail m h);
    };
  }

  pub Quiet-Goes : {w w' : World} → Quiet aws w w' → Goes aws environ w w'
  Quiet-Goes q = record { history = next here (outside q.tables); mail = q.mail }

  module _ (s : IsServices aws) (order : Order) where
    read_order_mail : Keeps (KeepsMail aws) (read_order aws environ order.order_id)
    unfolding read_order
    read_order_mail = record { kept = s.get_item_mail _ _ _ }

    stored_order_mail :
        (item : Option Item) → Keeps (KeepsMail aws) (stored_order aws environ order.order_id item)
    unfolding stored_order
    stored_order_mail none = read_order_mail
    stored_order_mail (some []) = read_order_mail
    stored_order_mail (some (a ∷ rest)) = pure-Keeps mail-IsPreorder (some (a ∷ rest))

    check_failed_mail :
        (item : Option Item) → Keeps (KeepsMail aws) (check_failed aws environ order item)
    unfolding check_failed
    check_failed_mail item =
        bind-Keeps mail-IsPreorder (stored_order_mail item) λ stored_. lift-Keeps mail-IsPreorder _

    raise_mail : {A : Type 0} (e : Exn) → Keeps (KeepsMail aws) (raise {A = A} e)
    raise_mail e = lift-Keeps mail-IsPreorder (raised e)

    classify_cancelled_mail :
        (rs : List Reason) → Keeps (KeepsMail aws) (classify_cancelled aws environ order rs)
    unfolding classify_cancelled
    classify_cancelled_mail [] = raise_mail _
    classify_cancelled_mail (r ∷ rest) =
        if-Keeps mail-IsPreorder (str_eq (reason_code r) "ConditionalCheckFailed")
          (check_failed_mail r.item) (raise_mail _)

    on_error_mail : (e : Exn) → Keeps (KeepsMail aws) (on_error aws environ order e)
    unfolding on_error classify
    on_error_mail (client_error e) =
        if-Keeps mail-IsPreorder _ (classify_cancelled_mail e.reasons) (raise_mail _)
    on_error_mail _ = raise_mail _

    write_order_mail : (now : String) → Keeps (KeepsMail aws) (write_order aws environ order now)
    unfolding write_order
    write_order_mail now =
        attempt-Keeps mail-IsPreorder
          (bind-Keeps mail-IsPreorder transact_kept λ _. pure-Keeps mail-IsPreorder written)
          on_error_mail
      where
        transact_kept :
            Keeps (KeepsMail aws) (aws.transact_write_items (transaction environ order now))
        transact_kept = record { kept = s.transact_mail (transaction environ order now) }

    pub write_order-Goes :
        IsDynamo aws → (now : String) → Keeps (Goes aws environ) (write_order aws environ order now)
    write_order-Goes d now = record {
      kept = λ w. record {
        history = write_order-Reach aws environ d order now w;
        mail = (write_order_mail now).kept w;
      };
    }
