-- ===== src/Worker/Classify.antt =====
-- worker/classify.py: transient or permanent.
use salesforce_erp_sync.Common.{String, ◌<>◌}
use salesforce_erp_sync.Outcome.{Exn, permanent_error, erp_rejected, erp_unavailable, class_name}

pub data Kind : Type 0 where
  transient permanent : Kind

pub record Decision : Type 0 where
  pub kind : Kind
  pub reason : String

unfoldable pub classify : Exn → Decision
classify (permanent_error reason detail) = record { kind = permanent; reason = reason }
classify (erp_rejected message) = record { kind = permanent; reason = "erp_rejected" }
classify (erp_unavailable message) = record { kind = transient; reason = "erp_unavailable" }
classify exc = record { kind = transient; reason = "unexpected:" <> class_name exc }
