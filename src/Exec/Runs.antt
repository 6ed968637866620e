-- ===== src/Exec/Runs.antt =====
-- What a run that ended in a result went through, with its states.
use salesforce_erp_sync.Common.{◌≡◌, refl, ap, Bool, true, false, if◌then◌else◌}
use salesforce_erp_sync.Outcome.{Exn, Outcome, ok, raised}
use salesforce_erp_sync.Exec.{Exec, raise, continue, ◌>>=◌}

module _ {S A B : Type 0} where
  continue_runs :
      (r : Outcome A) (f : A → Exec S B) (s : S) {b : B} {t : S}
      → continue r f s ≡ (ok b, t)
      → (a : A) × (r ≡ ok a) × (f a s ≡ (ok b, t))
  continue_runs (ok a) f s h = (a, refl, h)
  continue_runs (raised e) f s h = cc h

  -- The first step of a block, and the rest.
  pub bind_runs :
      (m : Exec S A) (f : A → Exec S B) (s : S) {b : B} {t : S}
      → (m >>= f) s ≡ (ok b, t)
      → (a : A) × (s' : S) × (m s ≡ (ok a, s')) × (f a s' ≡ (ok b, t))
  bind_runs m f s h =
      let (a, got, rest) = continue_runs (m s).0 f (m s).1 h in
      (a, (m s).1, ap (λ r. (r, (m s).1)) got, rest)

module _ {S A : Type 0} where
  -- A step that raises on the other branch.
  pub if_runs :
      (c : Bool) (m : Exec S A) (e : Exn) (s : S) {a : A} {t : S}
      → (if c then m else raise e) s ≡ (ok a, t)
      → (c ≡ true) × (m s ≡ (ok a, t))
  if_runs true m e s h = (refl, h)
  if_runs false m e s h = cc h

  -- A step that raises on this branch.
  pub unless_runs :
      (c : Bool) (e : Exn) (m : Exec S A) (s : S) {a : A} {t : S}
      → (if c then raise e else m) s ≡ (ok a, t)
      → (c ≡ false) × (m s ≡ (ok a, t))
  unless_runs true e m s h = cc h
  unless_runs false e m s h = (refl, h)
