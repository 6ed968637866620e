-- ===== src/Exec/Returns.antt =====
-- Code that never raises.
use salesforce_erp_sync.Common.{◌≡◌, refl, Bool, true, false, if◌then◌else◌}
use salesforce_erp_sync.Outcome.{Exn, Outcome, ok, raised}
use salesforce_erp_sync.Exec.{Exec, lift, gets, attempt, continue, handle, ◌>>=◌}

-- Every run ends in a result.
pub record Returns {S A : Type 0} (m : Exec S A) : Type 0 where
  pub returns : (s : S) → (a : A) × ((m s).0 ≡ ok a)

module _ {S : Type 0} where
  pub result-Returns : {A : Type 0} (a : A) (f : S → S) → Returns (λ s. (ok a, f s))
  result-Returns a f = record { returns = λ s. (a, refl) }

  pub lift-Returns : {A : Type 0} {a : A} (r : Outcome A) → r ≡ ok a → Returns (lift {S = S} r)
  lift-Returns {a = a} r h = record { returns = λ s. (a, h) }

  pub gets-Returns : {A : Type 0} (f : S → A × S) → Returns (gets f)
  gets-Returns f = record { returns = λ s. ((f s).0, refl) }

  continue-Returns :
      {A B : Type 0} (r : Outcome A) (f : A → Exec S B) (s : S)
      → ((a : A) × (r ≡ ok a))
      → ((a : A) → Returns (f a))
      → (b : B) × ((continue r f s).0 ≡ ok b)
  continue-Returns (ok a) f s h k = (k a).returns s
  continue-Returns (raised e) f s (a, h) k = cc

  pub bind-Returns :
      {A B : Type 0} {m : Exec S A} {f : A → Exec S B}
      → Returns m
      → ((a : A) → Returns (f a))
      → Returns (m >>= f)
  bind-Returns {m = m} {f = f} h k = record {
    returns = λ s. continue-Returns (m s).0 f (m s).1 (h.returns s) k;
  }

  handle-Returns :
      {A : Type 0} (r : Outcome A) (f : Exn → Exec S A) (s : S)
      → ((e : Exn) → Returns (f e))
      → (a : A) × ((handle r f s).0 ≡ ok a)
  handle-Returns (ok a) f s k = (a, refl)
  handle-Returns (raised e) f s k = (k e).returns s

  -- Whatever the body does, if no handler raises.
  pub attempt-Returns :
      {A : Type 0} (m : Exec S A) {f : Exn → Exec S A}
      → ((e : Exn) → Returns (f e))
      → Returns (attempt m f)
  attempt-Returns m {f = f} k = record { returns = λ s. handle-Returns (m s).0 f (m s).1 k }

  pub if-Returns :
      {A : Type 0} (b : Bool) {m n : Exec S A}
      → Returns m
      → Returns n
      → Returns (if b then m else n)
  if-Returns true h k = h
  if-Returns false h k = k
