-- ===== src/Exec/Keeps.antt =====
-- What code does to a state whatever it returns: relations between the state before and after.
use mathlib.Core.Path.{subst}
use salesforce_erp_sync.Common.{
  ◌≡◌, refl, sym, ap, ◌∙◌, ◌⊎◌, inl, inr, Bool, true, false, if◌then◌else◌,
}
use salesforce_erp_sync.Outcome.{Exn, Outcome, ok, raised}
use salesforce_erp_sync.Exec.{Exec, pure, lift, attempt, continue, handle, ◌>>=◌}

-- A run never leaves the relation, raises included.
pub record Keeps {S A : Type 0} (R : S → S → Type 0) (m : Exec S A) : Type 0 where
  pub kept : (s : S) → R s (m s).1

pub record IsPreorder {S : Type 0} (R : S → S → Type 0) : Type 0 where
  pub same : (s : S) → R s s
  pub chain : {s t u : S} → R s t → R t u → R s u

module _ {S : Type 0} {R : S → S → Type 0} (o : IsPreorder R) where
  pub pure-Keeps : {A : Type 0} (a : A) → Keeps R (pure {S = S} a)
  pure-Keeps a = record { kept = o.same }

  pub lift-Keeps : {A : Type 0} (r : Outcome A) → Keeps R (lift {S = S} r)
  lift-Keeps r = record { kept = o.same }

  continue-Keeps :
      {A B : Type 0} (r : Outcome A) (f : A → Exec S B) (s t : S)
      → R s t
      → ((a : A) → Keeps R (f a))
      → R s (continue r f t).1
  continue-Keeps (ok a) f s t h k = o.chain h ((k a).kept t)
  continue-Keeps (raised e) f s t h k = h

  pub bind-Keeps :
      {A B : Type 0} {m : Exec S A} {f : A → Exec S B}
      → Keeps R m
      → ((a : A) → Keeps R (f a))
      → Keeps R (m >>= f)
  bind-Keeps {m = m} {f = f} h k = record {
    kept = λ s. continue-Keeps (m s).0 f s (m s).1 (h.kept s) k;
  }

  handle-Keeps :
      {A : Type 0} (r : Outcome A) (f : Exn → Exec S A) (s t : S)
      → R s t
      → ((e : Exn) → Keeps R (f e))
      → R s (handle r f t).1
  handle-Keeps (ok a) f s t h k = h
  handle-Keeps (raised e) f s t h k = o.chain h ((k e).kept t)

  pub attempt-Keeps :
      {A : Type 0} {m : Exec S A} {f : Exn → Exec S A}
      → Keeps R m
      → ((e : Exn) → Keeps R (f e))
      → Keeps R (attempt m f)
  attempt-Keeps {m = m} {f = f} h k = record {
    kept = λ s. handle-Keeps (m s).0 f s (m s).1 (h.kept s) k;
  }

  pub if-Keeps :
      {A : Type 0} (b : Bool) {m n : Exec S A}
      → Keeps R m
      → Keeps R n
      → Keeps R (if b then m else n)
  if-Keeps true h k = h
  if-Keeps false h k = k

-- A block that ends in a result went through its first step.
module _ {S A B : Type 0} where
  continue_ok :
      (r : Outcome A) (f : A → Exec S B) (s : S) {b : B}
      → (continue r f s).0 ≡ ok b
      → (a : A) × (r ≡ ok a) × (continue r f s ≡ f a s)
  continue_ok (ok a) f s h = (a, refl, refl)
  continue_ok (raised e) f s h = cc

  pub bind_ok :
      (m : Exec S A) (f : A → Exec S B) (s : S) {b : B}
      → ((m >>= f) s).0 ≡ ok b
      → (a : A) × ((m s).0 ≡ ok a) × ((m >>= f) s ≡ f a (m s).1)
  bind_ok m f s h = continue_ok (m s).0 f (m s).1 h

-- A `try` that ended in a result ended in its body's, or in its handler's.
module _ {S A : Type 0} where
  handle_ok :
      (r : Outcome A) (h : Exn → Exec S A) (s : S) {b : A}
      → (handle r h s).0 ≡ ok b
      → ((r ≡ ok b) × (handle r h s ≡ (ok b, s)))
        ⊎ ((e : Exn) × (r ≡ raised e) × (handle r h s ≡ h e s))
  handle_ok (ok a) h s e = inl (e, rw (ok_eq e))
    where
      ok_eq : {a b : A} → ok a ≡ ok b → a ≡ b
      ok_eq e = cc
  handle_ok (raised x) h s e = inr (x, refl, refl)

  pub attempt_ok :
      (m : Exec S A) (h : Exn → Exec S A) (s : S) {b : A}
      → (attempt m h s).0 ≡ ok b
      → (((m s).0 ≡ ok b) × (attempt m h s ≡ (ok b, (m s).1)))
        ⊎ ((e : Exn) × ((m s).0 ≡ raised e) × (attempt m h s ≡ h e (m s).1))
  attempt_ok m h s e = handle_ok (m s).0 h (m s).1 e

-- Whatever a run returns without a raise has the property.
pub record Yields {S A : Type 0} (P : A → Type 0) (m : Exec S A) : Type 0 where
  pub yields : (s : S) (a : A) → (m s).0 ≡ ok a → P a

module _ {S A : Type 0} (P : A → Type 0) where
  pub pure-Yields : (a : A) → P a → Yields P (pure {S = S} a)
  pure-Yields a h = record { yields = λ s b e. let same : a ≡ b = cc e in subst P same h }

  pub bind-Yields :
      {B : Type 0} (m : Exec S B) {f : B → Exec S A}
      → ((b : B) → Yields P (f b))
      → Yields P (m >>= f)
  bind-Yields m {f = f} h = record {
    yields = λ s a e.
        let (b, got, same) = bind_ok m f s e in
        (h b).yields (m s).1 a (sym (ap (λ x. x.0) same) ∙ e);
  }
