-- ===== src/FakeSalesforce/Soql/Scan/Cuts.antt =====
-- What the expressions of fake_salesforce/soql.py take is the start of the text they are tried on.
use Prim.Native.Char.{Char, code}
use mathlib.Core.Path.{subst}
use text.Mathlib.TextLemmas.{append_assoc, cons-append, nil-append}
use salesforce_erp_sync.Common.{
  ℕ, suc, ◌+◌, ◌≤◌, String, ◌≡◌, refl, ap, ◌∙◌, Bool, true, false, none, some, length, codes,
  or_default, if◌then◌else◌, ◌<>◌, arith, min, ◌&&◌, ◌==◌, not,
}
use salesforce_erp_sync.FakeSalesforce.Soql.Scan.{
  Pattern, one, ◌⨾◌, maybe, either, star, quoted, Found, found_one, prepend, follow, first_of,
  taken, run, put, found_quote, scan,
}

abbrev took : String → String → Found
took a r = some (a, r)

-- A match and what follows it make up the text, and the match has `k` characters at least.
pub record Cut (k : ℕ) (s a r : String) : Type 0 where
  pub whole : a <> r ≡ s
  pub shorter : k + length (codes r) ≤ length (codes s)

Cut-eq : {k : ℕ} {s a r b q : String} → took a r ≡ took b q → Cut k s a r → Cut k s b q
Cut-eq {k} {s} {a} {r} {b} {q} h c =
    let left : a ≡ b = cc h in
    let right : r ≡ q = cc h in subst (λ x. Cut k s x q) left (subst (λ x. Cut k s a x) right c)

pub at_least : {k n : ℕ} {s a r : String} → n ≤ k → Cut k s a r → Cut n s a r
at_least h c = record { whole = c.whole; shorter = omega (arith, h, c.shorter) }

length-codes : (c : Char) (s : String) → length (codes (String.◌∷◌ c s)) ≡ suc (length (codes s))
unfolding codes
length-codes c s = refl

cons-Cut :
    {k : ℕ} (c : Char) {s a r : String}
    → Cut k s a r
    → Cut (suc k) (String.◌∷◌ c s) (String.◌∷◌ c a) r
cons-Cut c {s} {a} {r} h = record {
  whole = cons-append c a r ∙ ap (λ x. String.◌∷◌ c x) h.whole;
  shorter = omega (arith, h.shorter, length-codes c s);
}

nothing-Cut : (s : String) → Cut 0 s "" s
nothing-Cut s = record { whole = nil-append s; shorter = omega arith }

one-Cut : (c : Char) (s : String) → Cut 1 (String.◌∷◌ c s) (String.◌∷◌ c String.[]) s
one-Cut c s = cons-Cut c (nothing-Cut s)

-- Every match that a scan finds is a cut.
abbrev Cutting : ℕ → (String → Found) → Type 0
Cutting k f = (s a r : String) → f s ≡ took a r → Cut k s a r

if_Cut :
    (b : Bool) {k : ℕ} {s a r : String} {x : String × String}
    → Cut k s x.0 x.1
    → (if b then some x else none) ≡ took a r
    → Cut k s a r
if_Cut true h e = Cut-eq e h
if_Cut false h e = cc e

one_cuts : (p : ℕ → Bool) → Cutting 1 (found_one p)
one_cuts p String.[] a r e = cc e
one_cuts p (String.◌∷◌ c s) a r e = if_Cut (p (code c)) (one-Cut c s) e

join-Cut : {j k : ℕ} {s a r b q : String} → Cut j s a r → Cut k r b q → Cut (j + k) s (a <> b) q
join-Cut {a = a} {b = b} {q = q} g h = record {
  whole = append_assoc a b q ∙ ap (λ x. a <> x) h.whole ∙ g.whole;
  shorter = omega (arith, g.shorter, h.shorter);
}

prepend-Cut :
    {j k : ℕ} {s a r b q : String} (o : Found)
    → ((a' r' : String) → o ≡ took a' r' → Cut k r a' r')
    → Cut j s a r
    → prepend a o ≡ took b q
    → Cut (j + k) s b q
prepend-Cut none h c e = cc e
prepend-Cut (some x) h c e = Cut-eq e (join-Cut c (h x.0 x.1 refl))

follow-Cut :
    {j k : ℕ} {n : String → Found} {s b q : String} (o : Found)
    → ((a r : String) → o ≡ took a r → Cut j s a r)
    → Cutting k n
    → follow o n ≡ took b q
    → Cut (j + k) s b q
follow-Cut none g h e = cc e
follow-Cut {n = n} (some x) g h e = prepend-Cut (n x.1) (h x.1) (g x.0 x.1 refl) e

maybe-Cut :
    {k : ℕ} {s : String} (o : Found)
    → ((a r : String) → o ≡ took a r → Cut k s a r)
    → let x = or_default o ("", s) in Cut 0 s x.0 x.1
maybe-Cut {s = s} none g = nothing-Cut s
maybe-Cut (some x) g = at_least (omega arith) (g x.0 x.1 refl)

first-Cut :
    {k n : ℕ} {s a r : String} (o o' : Found)
    → ((a r : String) → o ≡ took a r → Cut k s a r)
    → ((a r : String) → o' ≡ took a r → Cut n s a r)
    → first_of o o' ≡ took a r
    → Cut (min k n) s a r
first-Cut {a = a} {r = r} none o' g h e = at_least (omega arith) (h a r e)
first-Cut (some x) o' g h e = Cut-eq e (at_least (omega arith) (g x.0 x.1 refl))

taken-Cut :
    (b : Bool) (c : Char) {s : String} {x : String × String}
    → Cut 0 s x.0 x.1
    → Cut 0 (String.◌∷◌ c s) (taken b c s x).0 (taken b c s x).1
taken-Cut true c h = at_least (omega arith) (cons-Cut c h)
taken-Cut false c {s} h = nothing-Cut (String.◌∷◌ c s)

run-Cut : (p : ℕ → Bool) (s : String) → Cut 0 s (run p s).0 (run p s).1
run-Cut p String.[] = nothing-Cut String.[]
run-Cut p (String.◌∷◌ c s) = taken-Cut (p (code c)) c (run-Cut p s)

put-Cut :
    (o : Found) (c : Char) {s a r : String}
    → ((b q : String) → o ≡ took b q → Cut 1 s b q)
    → put c o ≡ took a r
    → Cut 1 (String.◌∷◌ c s) a r
put-Cut none c h e = cc e
put-Cut (some x) c h e = Cut-eq e (at_least (omega arith) (cons-Cut c (h x.0 x.1 refl)))

quote-Cut :
    (e k q : Bool) (o : Found) (c : Char) {s a r : String}
    → ((b q : String) → o ≡ took b q → Cut 1 s b q)
    → (if e
        then if k then none else put c o
        else if q
        then some (String.◌∷◌ c String.[], s)
        else put c o)
      ≡ took a r
    → Cut 1 (String.◌∷◌ c s) a r
quote-Cut true true q o c h same = cc same
quote-Cut true false q o c h same = put-Cut o c h same
quote-Cut false k true o c {s} h same = Cut-eq same (one-Cut c s)
quote-Cut false k false o c h same = put-Cut o c h same

quotes_cut : (e : Bool) → Cutting 1 (found_quote e)
quotes_cut e String.[] a r same = cc same
quotes_cut e (String.◌∷◌ c s) a r same =
    let open_ = not e && code c == 92 in
    quote-Cut e (code c == 10) (code c == 39) (found_quote open_ s) c (quotes_cut open_ s) same

-- The least number of characters that an expression takes.
abbrev pub minimum : Pattern → ℕ
minimum (one p) = 1
minimum (m ⨾ n) = minimum m + minimum n
minimum (maybe m) = 0
minimum (either m n) = min (minimum m) (minimum n)
minimum (star p) = 0
minimum quoted = 1

pub scan-Cut : (m : Pattern) (s a r : String) → scan m s ≡ took a r → Cut (minimum m) s a r
scan-Cut (one p) s a r e = one_cuts p s a r e
scan-Cut (m ⨾ n) s a r e = follow-Cut (scan m s) (scan-Cut m s) (scan-Cut n) e
scan-Cut (maybe m) s a r e = Cut-eq e (maybe-Cut (scan m s) (scan-Cut m s))
scan-Cut (either m n) s a r e = first-Cut (scan m s) (scan n s) (scan-Cut m s) (scan-Cut n s) e
scan-Cut (star p) s a r e = Cut-eq e (run-Cut p s)
scan-Cut quoted s a r e = quotes_cut false s a r e
