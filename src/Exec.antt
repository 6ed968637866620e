-- ===== src/Exec.antt =====
-- Code that changes state and may raise. What was written before a raise stays written, so the state
-- comes back beside the exception too.
pub mod Keeps
pub mod Returns
pub mod Runs
use salesforce_erp_sync.Common.{◌≡◌, refl}
use salesforce_erp_sync.Outcome.{Exn, Outcome, ok, raised}

abbrev pub Exec : Type 0 → Type 0 → Type 0
Exec S A = S → Outcome A × S

module _ {S A : Type 0} where
  abbrev pub pure : A → Exec S A
  pure a s = (ok a, s)

  abbrev pub raise : Exn → Exec S A
  raise e s = (raised e, s)

  abbrev pub lift : Outcome A → Exec S A
  lift r s = (r, s)

  -- a read of the world that cannot fail
  abbrev pub gets : (S → A × S) → Exec S A
  gets f s = let (a, s') = f s in (ok a, s')

  abbrev pub handle : Outcome A → (Exn → Exec S A) → Exec S A
  handle (ok a) h s = (ok a, s)
  handle (raised e) h s = h e s

  -- `try: m except Exception as e: h(e)`
  abbrev pub attempt : Exec S A → (Exn → Exec S A) → Exec S A
  attempt m h s = handle (m s).0 h (m s).1

module _ {S A B : Type 0} where
  abbrev pub continue : Outcome A → (A → Exec S B) → Exec S B
  continue (ok a) f s = f a s
  continue (raised e) f s = (raised e, s)

  infixl 5 ◌>>=◌ ◌>>◌
  abbrev pub ◌>>=◌ : Exec S A → (A → Exec S B) → Exec S B
  ◌>>=◌ m f s = continue (m s).0 f (m s).1

  abbrev pub ◌>>◌ : Exec S A → Exec S B → Exec S B
  m >> n = m >>= λ _. n

module _ {S A B : Type 0} where
  -- A step without state at the end of a block leaves the state alone.
  pub continue-lift :
      (r : Outcome A) (g : A → Outcome B) (s : S) → (continue r (λ a. lift (g a)) s).1 ≡ s
  continue-lift (ok a) g s = refl
  continue-lift (raised e) g s = refl

  pub continue-lift_ok :
      (r : Outcome A) (g : A → Outcome B) (s : S) {b : B}
      → (continue r (λ a. lift (g a)) s).0 ≡ ok b
      → (a : A) × (r ≡ ok a) × (g a ≡ ok b)
  continue-lift_ok (ok a) g s h = (a, refl, h)
  continue-lift_ok (raised e) g s h = cc
