-- ===== src/Outcome.antt =====
-- Python's exceptions, and code without state that may raise.
use salesforce_erp_sync.Common.{◌≡◌, refl, String, if◌then◌else◌, str_eq, ◌<>◌}
use salesforce_erp_sync.Aws.Types.{ClientError}

-- The exceptions that the program raises or tells apart; `other` is any other exception, by its
-- class name and its `str`.
pub data Exn : Type 0 where
  permanent_error : String → String → Exn
  erp_rejected erp_unavailable : String → Exn
  client_error : ClientError → Exn
  worker_crash : String → Exn
  salesforce_error : String → Exn
  soql_error : String → String → Exn
  other : String → String → Exn

-- `str(exc)`
unfoldable pub str_of_exn : Exn → String
str_of_exn (permanent_error reason detail) =
    if str_eq detail "" then reason else reason <> ": " <> detail
str_of_exn (erp_rejected message) = message
str_of_exn (erp_unavailable message) = message
str_of_exn (client_error e) = e.description
str_of_exn (worker_crash message) = message
str_of_exn (salesforce_error message) = message
str_of_exn (soql_error error_code message) = message
str_of_exn (other name message) = message

-- `type(exc).__name__`
unfoldable pub class_name : Exn → String
class_name (permanent_error reason detail) = "PermanentError"
class_name (erp_rejected message) = "ErpRejected"
class_name (erp_unavailable message) = "ErpUnavailable"
class_name (client_error e) = e.class_name
class_name (worker_crash message) = "WorkerCrash"
class_name (salesforce_error message) = "SalesforceError"
class_name (soql_error error_code message) = "SoqlError"
class_name (other name message) = name

pub data Outcome {ℓ} (A : Type ℓ) : Type ℓ where
  ok : A → Outcome A
  raised : Exn → Outcome A

infixl 5 ◌>>=◌
abbrev pub ◌>>=◌ {ℓ κ} : {A : Type ℓ} {B : Type κ} → Outcome A → (A → Outcome B) → Outcome B
ok a >>= f = f a
raised e >>= f = raised e

infixl 5 ◌>>◌
abbrev pub ◌>>◌ {ℓ κ} : {A : Type ℓ} {B : Type κ} → Outcome A → Outcome B → Outcome B
m >> k = m >>= λ _. k

-- A raise is no result.
pub raised-ne-ok {ℓ} : {A : Type ℓ} {e : Exn} {a : A} → Outcome.raised e ≡ ok a → ⊥
raised-ne-ok h = cc

-- A bind that ended in a result went through its first step.
pub bind_ok :
    {A B : Type 0} (r : Outcome A) (f : A → Outcome B) {b : B}
    → (r >>= f) ≡ ok b
    → (a : A) × (r ≡ ok a) × (f a ≡ ok b)
bind_ok (ok a) f h = (a, refl, h)
bind_ok (raised e) f h = cc
