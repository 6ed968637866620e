-- ===== src/FakeSalesforce/Soql/Parser/Takes.antt =====
-- How much of its tokens the parser of fake_salesforce/soql.py takes, and how it fails.
use salesforce_erp_sync.Common.{
  ℕ, ◌+◌, ◌-◌, ◌≤◌, ◌<◌, String, ◌≡◌, Bool, true, false, List, length, if◌then◌else◌, arith,
}
use salesforce_erp_sync.Outcome.{Exn, Outcome, ok, raised, soql_error, other}
use salesforce_erp_sync.Exec.{pure, raise, lift, continue, ◌>>=◌}
use salesforce_erp_sync.FakeSalesforce.Soql.{Builtins}
use salesforce_erp_sync.FakeSalesforce.Soql.Tokens.{Token}
use salesforce_erp_sync.FakeSalesforce.Soql.Parser.{Parser}

-- The exceptions of a query that is refused: a SoqlError, or what reading a literal raised.
pub data IsRefusal (py : Builtins) : Exn → Type 0 where
  by_parser : {code message : String} → IsRefusal py (soql_error code message)
  by_time : {s : String} {e : Exn} → py.fromisoformat s ≡ raised e → IsRefusal py e
  by_date : {s : String} {e : Exn} → py.date_fromisoformat s ≡ raised e → IsRefusal py e
  by_number : IsRefusal py (other "InvalidOperation" "conversion syntax")

-- A run over `n` tokens ends in a result and takes `k` of them at least, or refuses.
pub data Ends (py : Builtins) {A : Type 0} (k n : ℕ) : Outcome A × List Token → Type 0 where
  ended : {a : A} {toks : List Token} → k + length toks ≤ n → Ends py k n (ok a, toks)
  refused : {e : Exn} {toks : List Token} → IsRefusal py e → Ends py k n (raised e, toks)

-- So it does on every list of fewer than `b` tokens.
pub record Takes (py : Builtins) {A : Type 0} (k b : ℕ) (m : Parser A) : Type 0 where
  pub takes : (toks : List Token) → length toks < b → Ends py k (length toks) (m toks)

-- How a step without state ends.
pub data Reads (py : Builtins) {A : Type 0} : Outcome A → Type 0 where
  read : (a : A) → Reads py (ok a)
  unread : {e : Exn} → IsRefusal py e → Reads py (raised e)

module _ {py : Builtins} where
  Ends-weaker :
      {A : Type 0} {k j n n' : ℕ} {r : Outcome A × List Token}
      → j ≤ k
      → n ≤ n'
      → Ends py k n r
      → Ends py j n' r
  Ends-weaker h g (ended le) = ended (omega (arith, h, g, le))
  Ends-weaker h g (refused e) = refused e

  pub weaker : {A : Type 0} {k j b : ℕ} {m : Parser A} → j ≤ k → Takes py k b m → Takes py j b m
  weaker h t = record { takes = λ toks le. Ends-weaker h (omega arith) (t.takes toks le) }

  pub pure-Takes : {A : Type 0} (b : ℕ) (a : A) → Takes py 0 b (pure a)
  pure-Takes b a = record { takes = λ toks le. ended (omega arith) }

  pub raise-Takes :
      {A : Type 0} {e : Exn} (k b : ℕ) → IsRefusal py e → Takes py {A = A} k b (raise e)
  raise-Takes k b h = record { takes = λ toks le. refused h }

  pub lift-Takes : {A : Type 0} {r : Outcome A} (b : ℕ) → Reads py r → Takes py 0 b (lift r)
  lift-Takes b (read a) = record { takes = λ toks le. ended (omega arith) }
  lift-Takes b (unread h) = record { takes = λ toks le. refused h }

  continue-Ends :
      {A B : Type 0} {j k n b : ℕ} {f : A → Parser B} (r : Outcome A × List Token)
      → Ends py j n r
      → n < b
      → ((a : A) → Takes py k (b - j) (f a))
      → Ends py (j + k) n (continue r.0 f r.1)
  continue-Ends {B = B} {j = j} {k = k} {n = n} {b = b} (_, _) (ended {a = a} {toks = toks} h) le
        g =
      more ((g a).takes toks (omega (arith, h, le)))
    where
      more : {r : Outcome B × List Token} → Ends py k (length toks) r → Ends py (j + k) n r
      more (ended h') = ended (omega (arith, h, h'))
      more (refused e) = refused e
  continue-Ends (_, _) (refused e) le g = refused e

  pub bind-Takes :
      {A B : Type 0} {j k b : ℕ} {m : Parser A} {f : A → Parser B}
      → Takes py j b m
      → ((a : A) → Takes py k (b - j) (f a))
      → Takes py (j + k) b (m >>= f)
  bind-Takes {m = m} t g = record {
    takes = λ toks le. continue-Ends (m toks) (t.takes toks le) le g;
  }

  pub if-Takes :
      {A : Type 0} {k b : ℕ} {m n : Parser A} (c : Bool)
      → Takes py k b m
      → Takes py k b n
      → Takes py k b (if c then m else n)
  if-Takes true h g = h
  if-Takes false h g = g
