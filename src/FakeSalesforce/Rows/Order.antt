-- ===== src/FakeSalesforce/Rows/Order.antt =====
-- The order of fake_salesforce/store.py's sort keys is strict: of two values at most one is below the other.
use salesforce_erp_sync.Common.{
  ℕ, ◌+◌, String, ◌≡◌, refl, Bool, true, false, List, [], ◌∷◌, ap, arith, codes, str_ltb, codes_ltb,
  ℤ, pos, negsuc, ltb_ℤ, neg_part, if◌then◌else◌,
}
use salesforce_erp_sync.Python.Decimal.{Decimal, Number, finite, infinite, nan, scaled, decimal_ltb}
use salesforce_erp_sync.Outcome.{Outcome, ok}
use salesforce_erp_sync.FakeSalesforce.Soql.{
  Value, null, text, boolean, instant, date, number, number_ltb,
}
use salesforce_erp_sync.FakeSalesforce.Reads.{equal, below}
use salesforce_erp_sync.FakeSalesforce.Rows.{key_below}

codes_ltb_asym : (cs ds : List ℕ) → codes_ltb cs ds ≡ true → codes_ltb ds cs ≡ false
codes_ltb_asym [] [] h = cc h
codes_ltb_asym [] (d ∷ ds) h = refl
codes_ltb_asym (c ∷ cs) [] h = cc h
codes_ltb_asym (c ∷ cs) (d ∷ ds) h = ground (arith, codes_ltb_asym cs ds)

ltb_ℤ_asym : (a b : ℤ) → ltb_ℤ a b ≡ true → ltb_ℤ b a ≡ false
ltb_ℤ_asym (pos m) (pos n) h = ground arith
ltb_ℤ_asym (pos m) (negsuc n) h = ground arith
ltb_ℤ_asym (negsuc m) (pos n) h = ground arith
ltb_ℤ_asym (negsuc m) (negsuc n) h = ground arith

decimal_ltb_asym : (a b : Decimal) → decimal_ltb a b ≡ true → decimal_ltb b a ≡ false
unfolding decimal_ltb
decimal_ltb_asym a b h =
    let same : neg_part b.exponent + neg_part a.exponent
        ≡ neg_part a.exponent + neg_part b.exponent =
      omega arith in
    rw same (
      ltb_ℤ_asym (scaled (neg_part a.exponent + neg_part b.exponent) a)
        (scaled (neg_part a.exponent + neg_part b.exponent) b) h)

number_ltb_asym : (x y : Number) → number_ltb x y ≡ ok true → number_ltb y x ≡ ok false
unfolding number_ltb
number_ltb_asym (finite a) (finite b) h = ap ok (decimal_ltb_asym a b (cc h))
number_ltb_asym (finite a) (infinite true) h = cc h
number_ltb_asym (finite a) (infinite false) h = refl
number_ltb_asym (infinite true) (finite b) h = refl
number_ltb_asym (infinite false) (finite b) h = cc h
number_ltb_asym (infinite a) (infinite true) h = ground arith
number_ltb_asym (infinite a) (infinite false) h = ground arith
number_ltb_asym nan y h = cc h
number_ltb_asym (finite a) nan h = cc h
number_ltb_asym (infinite a) nan h = cc h

str_ltb_asym : (s t : String) → str_ltb s t ≡ true → str_ltb t s ≡ false
unfolding str_ltb
str_ltb_asym s t h = codes_ltb_asym (codes s) (codes t) h

below_asym : (v w : Value) → below v w ≡ ok true → below w v ≡ ok false
unfolding below
below_asym (text a) (text b) h = ap ok (str_ltb_asym a b (cc h))
below_asym (instant a) (instant b) h = ap ok (ltb_ℤ_asym a b (cc h))
below_asym (date a) (date b) h = ap ok (ltb_ℤ_asym a b (cc h))
below_asym (number a) (number b) h = number_ltb_asym a b h
below_asym (number a) (boolean b) h = number_ltb_asym a _ h
below_asym (boolean a) (number b) h = number_ltb_asym _ b h
below_asym (boolean a) (boolean b) h = number_ltb_asym _ _ h
below_asym v w h = cc h

-- what `key_below` says of two values that are not null
abbrev differs : Bool → Outcome Bool → Outcome Bool
differs same r = if same then ok false else r

differs_asym :
    (same same' : Bool) (r r' : Outcome Bool)
    → (r ≡ ok true → r' ≡ ok false)
    → differs same r ≡ ok true
    → differs same' r' ≡ ok false
differs_asym true same' r r' h k = cc k
differs_asym false true r r' h k = refl
differs_asym false false r r' h k = h k

-- Of two values at most one sorts strictly before the other.
pub key_below_asym : (v w : Value) → key_below v w ≡ ok true → key_below w v ≡ ok false
unfolding key_below
key_below_asym null null h = cc h
key_below_asym null w h = refl
key_below_asym v null h = cc h
key_below_asym v w h =
    differs_asym (equal v w) (equal w v) (below v w) (below w v) (below_asym v w) h
