-- ===== src/FakeSalesforce/Server/Digits.antt =====
-- Texts of digits: what the expressions of fake_salesforce/server.py take of them, and the number that they
-- spell.
use Prim.Native.Char.{code}
use mathlib.Core.List.{foldl, foldl-append}
use native.Mathlib.Nat.{pow-suc}
use package.text.Mathlib.TextLemmas.{cons-append, nil-append}
use salesforce_erp_sync.Common.{
  ℕ, zero, suc, ◌+◌, ◌*◌, ◌/◌, ◌%◌, ◌^◌, ◌≤◌, ◌<◌, String, ◌≡◌, refl, ap, ◌∙◌, Bool, true, false,
  ◌&&◌, some, List, [], ◌∷◌, ◌++◌, length, length-append, codes, ◌<>◌, ltb, digit_text, padded,
  digit_count, str_of_ℕ, arith, Bool-cases, inl, inr,
}
use salesforce_erp_sync.Python.Regex.{is_decimal, decimal_value}
use salesforce_erp_sync.FakeSalesforce.Soql.Scan.{run, scan}
use salesforce_erp_sync.FakeSalesforce.Soql.Parse.{whole_number}
use salesforce_erp_sync.FakeSalesforce.Server.Data.{any_digits}

-- Every character is of the class.
abbrev pub all_codes : (ℕ → Bool) → List ℕ → Bool
all_codes p [] = true
all_codes p (c ∷ cs) = p c && all_codes p cs

-- A text that does not go on with the class.
abbrev pub goes_on : (ℕ → Bool) → String → Bool
goes_on p String.[] = false
goes_on p (String.◌∷◌ c s) = p (code c)

pub all_codes-append :
    (p : ℕ → Bool) (xs ys : List ℕ)
    → all_codes p xs ≡ true
    → all_codes p ys ≡ true
    → all_codes p (xs ++ ys) ≡ true
all_codes-append p [] ys h g = g
all_codes-append p (x ∷ xs) ys h g = ground (arith, all_codes-append p xs ys)

pub codes-append : (s t : String) → codes (s <> t) ≡ codes s ++ codes t
unfolding codes
codes-append String.[] t = rw (nil-append t) refl
codes-append (String.◌∷◌ c s) t = rw (cons-append c s t) (ap (◌∷◌ (code c)) (codes-append s t))

run-ends : (p : ℕ → Bool) (t : String) → goes_on p t ≡ false → run p t ≡ ("", t)
run-ends p String.[] h = refl
run-ends p (String.◌∷◌ c t) h = rw h refl

pub run-append :
    (p : ℕ → Bool) (s t : String)
    → all_codes p (codes s) ≡ true
    → goes_on p t ≡ false
    → run p (s <> t) ≡ (s, t)
unfolding codes
run-append p String.[] t h g = rw (nil-append t) (run-ends p t g)
run-append p (String.◌∷◌ c s) t h g =
    let here : p (code c) ≡ true = ground arith in
    let rest : all_codes p (codes s) ≡ true = ground arith in
    rw (cons-append c s t, here, run-append p s t rest g) refl

-- A run of one digit or more.
pub record IsDigits (s : String) : Type 0 where
  pub digits : all_codes is_decimal (codes s) ≡ true
  pub some_ : 1 ≤ length (codes s)

pub scan-any_digits :
    (s t : String)
    → IsDigits s
    → goes_on is_decimal t ≡ false
    → scan any_digits (s <> t) ≡ some (s, t)
unfolding codes
scan-any_digits String.[] t h g = absurd (omega (arith, h.some_))
scan-any_digits (String.◌∷◌ c s) t h g =
    let all = h.digits in
    let here : is_decimal (code c) ≡ true = ground arith in
    let rest : all_codes is_decimal (codes s) ≡ true = ground arith in
    rw (cons-append c s t, here, run-append is_decimal s t rest g)
      (ap (λ x. some (x, t)) (cons-append c String.[] s ∙ rw (nil-append s) refl))

-- the step of `int` of digits
abbrev step : ℕ → ℕ → ℕ
step n c = n * 10 + decimal_value c

-- One digit: a decimal digit of one character, and its value.
record IsSingle (m : ℕ) : Type 0 where
  decimal : all_codes is_decimal (codes (digit_text m)) ≡ true
  single : length (codes (digit_text m)) ≡ 1

digit_text-IsSingle : (m : ℕ) → IsSingle m
unfolding codes is_decimal
digit_text-IsSingle zero = record { decimal = refl; single = refl }
digit_text-IsSingle (suc zero) = record { decimal = refl; single = refl }
digit_text-IsSingle (suc (suc zero)) = record { decimal = refl; single = refl }
digit_text-IsSingle (suc (suc (suc zero))) = record { decimal = refl; single = refl }
digit_text-IsSingle (suc (suc (suc (suc zero)))) = record { decimal = refl; single = refl }
digit_text-IsSingle (suc (suc (suc (suc (suc zero))))) = record { decimal = refl; single = refl }
digit_text-IsSingle (suc (suc (suc (suc (suc (suc zero)))))) = record {
  decimal = refl;
  single = refl;
}
digit_text-IsSingle (suc (suc (suc (suc (suc (suc (suc zero))))))) = record {
  decimal = refl;
  single = refl;
}
digit_text-IsSingle (suc (suc (suc (suc (suc (suc (suc (suc zero)))))))) = record {
  decimal = refl;
  single = refl;
}
digit_text-IsSingle (suc (suc (suc (suc (suc (suc (suc (suc (suc m))))))))) = record {
  decimal = refl;
  single = refl;
}

step-digit_text : (v m : ℕ) → m < 10 → foldl step v (codes (digit_text m)) ≡ v * 10 + m
unfolding codes decimal_value
step-digit_text v zero h = refl
step-digit_text v (suc zero) h = refl
step-digit_text v (suc (suc zero)) h = refl
step-digit_text v (suc (suc (suc zero))) h = refl
step-digit_text v (suc (suc (suc (suc zero)))) h = refl
step-digit_text v (suc (suc (suc (suc (suc zero))))) h = refl
step-digit_text v (suc (suc (suc (suc (suc (suc zero)))))) h = refl
step-digit_text v (suc (suc (suc (suc (suc (suc (suc zero))))))) h = refl
step-digit_text v (suc (suc (suc (suc (suc (suc (suc (suc zero)))))))) h = refl
step-digit_text v (suc (suc (suc (suc (suc (suc (suc (suc (suc m))))))))) h =
    let nine : m ≡ 0 = omega (arith, h) in rw nine refl

padded-digits : (k n : ℕ) → all_codes is_decimal (codes (padded k n)) ≡ true
unfolding padded codes
padded-digits zero n = refl
padded-digits (suc k) n = rw (codes-append (padded k (n / 10)) (digit_text (n % 10))) (
    all_codes-append is_decimal (codes (padded k (n / 10))) (codes (digit_text (n % 10)))
      (padded-digits k (n / 10)) (digit_text-IsSingle (n % 10)).decimal)

padded-some : (k n : ℕ) → 1 ≤ length (codes (padded (suc k) n))
unfolding padded
padded-some k n = rw (codes-append (padded k (n / 10)) (digit_text (n % 10))) (
    omega (
      arith,
      length-append (codes (padded k (n / 10))) (codes (digit_text (n % 10))),
      (digit_text-IsSingle (n % 10)).single,
    ))

padded-value : (k n : ℕ) → n < 10 ^ k → foldl step 0 (codes (padded k n)) ≡ n
unfolding padded codes
padded-value zero n h = omega (arith, h)
padded-value (suc k) n h =
    let fits : n / 10 < 10 ^ k = omega (arith, h, pow-suc 10 k) in
    rw
      (
        codes-append (padded k (n / 10)) (digit_text (n % 10)),
        foldl-append step 0 (codes (padded k (n / 10))) (codes (digit_text (n % 10))),
        padded-value k (n / 10) fits,
        step-digit_text (n / 10) (n % 10) (omega arith),
      )
      (omega arith)

digit_count-enough : (fuel n : ℕ) → n ≤ fuel → n < 10 ^ digit_count fuel n
unfolding digit_count
digit_count-enough zero n h = omega (arith, h)
digit_count-enough (suc fuel) n h = elim (Bool-cases (ltb n 10)) [
  | inl small ↦ rw small (ground (arith, small))
  | inr large ↦ rw large (
      let rest = digit_count-enough fuel (n / 10) (omega (arith, h)) in
      omega (arith, rest, pow-suc 10 (digit_count fuel (n / 10))))
]

digit_count-some : (fuel n : ℕ) → (k : ℕ) × (digit_count fuel n ≡ suc k)
unfolding digit_count
digit_count-some zero n = (0, refl)
digit_count-some (suc fuel) n = elim (Bool-cases (ltb n 10)) [
  | inl small ↦ rw small (0, refl)
  | inr large ↦ rw large (digit_count fuel (n / 10), refl)
]

-- `int(str(n))` is `n`.
pub whole_number-str_of_ℕ : (n : ℕ) → whole_number (str_of_ℕ n) ≡ n
unfolding whole_number str_of_ℕ
whole_number-str_of_ℕ n = padded-value (digit_count n n) n (digit_count-enough n n (omega arith))

pub padded-IsDigits : (k n : ℕ) → IsDigits (padded (suc k) n)
padded-IsDigits k n = record { digits = padded-digits (suc k) n; some_ = padded-some k n }

pub str_of_ℕ-IsDigits : (n : ℕ) → IsDigits (str_of_ℕ n)
unfolding str_of_ℕ
str_of_ℕ-IsDigits n = let (k, e) = digit_count-some n n in rw e (padded-IsDigits k n)
