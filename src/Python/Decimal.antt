-- ===== src/Python/Decimal.antt =====
-- Numbers with a fraction. A finite `Decimal` or `float` is the decimal that its text denotes
-- (binary rounding is not modelled), so both types share `Number`.
use salesforce_erp_sync.Common.{
  ℕ, zero, suc, ◌+◌, ◌-◌, ◌*◌, ◌/◌, ◌^◌, String, ◌≡◌, refl, Bool, true, false, ◌&&◌, ◌||◌, not,
  Option, none, some, List, [], ◌∷◌, ◌++◌, length, codes, is_digit, ltb, leb, ◌==◌, if◌then◌else◌,
  ℤ, pos, negsuc, ◌+ℤ◌, ◌-ℤ◌, pos_part, neg_part, ltb_ℤ, leb_ℤ, ap, arith, take, drop, str_of_ℕ,
}
use salesforce_erp_sync.Python.Regex.{is_decimal, decimal_value, is_space}
use mathlib.Core.List.{reverse, foldl}

-- (-1)^negative * coefficient * 10^exponent
pub record Decimal : Type 0 where
  pub negative : Bool
  pub coefficient : ℕ
  pub exponent : ℤ

pub data Number : Type 0 where
  finite : Decimal → Number
  infinite : Bool → Number
  nan : Number

-- `Decimal(n)` of an int
unfoldable pub of_int : ℤ → Decimal
of_int (pos n) = record { negative = false; coefficient = n; exponent = pos 0 }
of_int (negsuc n) = record { negative = true; coefficient = suc n; exponent = pos 0 }

-- `int(str(d))`: the text of a decimal is that of an int only at exponent 0
int_at : Bool → ℕ → ℤ → Option ℤ
int_at false n (pos zero) = some (pos n)
int_at true zero (pos zero) = some (pos zero)
int_at true (suc n) (pos zero) = some (negsuc n)
int_at b n e = none

unfoldable pub to_int : Decimal → Option ℤ
unfolding int_at
to_int d = int_at d.negative d.coefficient d.exponent

pub to_int-of_int : (z : ℤ) → to_int (of_int z) ≡ some z
unfolding to_int of_int
to_int-of_int (pos n) = refl
to_int-of_int (negsuc n) = refl

-- `d < 0`
abbrev pub is_negative : Decimal → Bool
is_negative d = d.negative && ltb 0 d.coefficient

unfoldable pub signed : Bool → ℕ → ℤ
signed false n = pos n
signed true zero = pos zero
signed true (suc n) = negsuc n

-- `d * 10^k` as an integer, where `k` is at least `-exponent`
unfoldable pub scaled : ℕ → Decimal → ℤ
unfolding signed
scaled k d =
    signed d.negative (d.coefficient * 10 ^ (k + pos_part d.exponent - neg_part d.exponent))

-- `a < b`
unfoldable pub decimal_ltb : Decimal → Decimal → Bool
decimal_ltb a b =
    let k = neg_part a.exponent + neg_part b.exponent in ltb_ℤ (scaled k a) (scaled k b)

signed_one : (b : Bool) (m : ℕ) → signed b (m * 1) ≡ signed b m
signed_one b m = ap (signed b) (omega arith)

scaled_int : (z : ℤ) → scaled 0 (of_int z) ≡ z
unfolding scaled of_int
scaled_int (pos n) = signed_one false n
scaled_int (negsuc n) = signed_one true (suc n)

exponent-of_int : (z : ℤ) → (of_int z).exponent ≡ pos 0
unfolding of_int
exponent-of_int (pos n) = refl
exponent-of_int (negsuc n) = refl

-- On ints it is the order of the integers.
pub decimal_ltb-of_int : (a b : ℤ) → decimal_ltb (of_int a) (of_int b) ≡ ltb_ℤ a b
unfolding decimal_ltb
decimal_ltb-of_int a b = simp (exponent-of_int, scaled_int)

-- `a + b`, exact
unfoldable pub decimal_add : Decimal → Decimal → Decimal
unfolding scaled of_int ◌+ℤ◌ ◌-ℤ◌
decimal_add a b =
    let k = neg_part a.exponent + neg_part b.exponent in
    record (of_int (scaled k a +ℤ scaled k b)) { exponent = pos 0 -ℤ pos k }

-- `int(d)`: towards zero
unfoldable pub truncated : Decimal → ℤ
unfolding signed
truncated d =
    signed d.negative (d.coefficient * 10 ^ pos_part d.exponent / 10 ^ neg_part d.exponent)

-- The texts that `Decimal`, `float` and `int` read: any decimal digit of Unicode stands for its value.
ascii_code : ℕ → ℕ
ascii_code c = if is_decimal c then 48 + decimal_value c else c

ascii_codes : List ℕ → List ℕ
ascii_codes [] = []
ascii_codes (c ∷ cs) = ascii_code c ∷ ascii_codes cs

drop_spaces : List ℕ → List ℕ
drop_spaces [] = []
drop_spaces (c ∷ cs) = if is_space c then drop_spaces cs else c ∷ cs

strip : List ℕ → List ℕ
strip cs = reverse (drop_spaces (reverse (drop_spaces cs)))

without_underscores : List ℕ → List ℕ
without_underscores [] = []
without_underscores (c ∷ cs) =
    let rest = without_underscores cs in if c == b'_' then rest else c ∷ rest

-- A `float` text has its underscores between digits; `after` says that a digit came just before.
underscores_fit : Bool → List ℕ → Bool
underscores_fit after [] = true
underscores_fit after (c ∷ []) = not (c == b'_')
underscores_fit after (c ∷ d ∷ cs) =
    (not (c == b'_') || (after && is_digit d)) && underscores_fit (is_digit c) (d ∷ cs)

lowered : List ℕ → List ℕ
lowered [] = []
lowered (c ∷ cs) = (if leb b'A' c && leb c b'Z' then c + 32 else c) ∷ lowered cs

same_codes : List ℕ → List ℕ → Bool
same_codes [] [] = true
same_codes (a ∷ as_) (b ∷ bs) = a == b && same_codes as_ bs
same_codes _ _ = false

-- the digits in front, and what follows
digits_of : List ℕ → List ℕ × List ℕ
digits_of [] = ([], [])
digits_of (c ∷ cs) =
    let (ds, rest) = digits_of cs in if is_digit c then (c ∷ ds, rest) else ([], c ∷ cs)

value_of : List ℕ → ℕ
value_of = foldl (λ n c. n * 10 + (c - 48)) 0

whole : Bool → List ℕ × List ℕ → Option ℤ
whole neg (d ∷ ds, []) =
    some (if neg then pos 0 -ℤ pos (value_of (d ∷ ds)) else pos (value_of (d ∷ ds)))
whole neg _ = none

exponent_of : List ℕ → Option ℤ
exponent_of (c ∷ cs) =
    if c == b'-'
    then whole true (digits_of cs)
    else if c == b'+'
    then whole false (digits_of cs)
    else whole false (digits_of (c ∷ cs))
exponent_of [] = none

tail_exponent : List ℕ → Option ℤ
tail_exponent [] = some (pos 0)
tail_exponent (c ∷ cs) = if c == b'e' then exponent_of cs else none

fraction_of : List ℕ → List ℕ × List ℕ
fraction_of [] = ([], [])
fraction_of (c ∷ cs) = if c == b'.' then digits_of cs else ([], c ∷ cs)

finite_of : Bool → List ℕ → ℕ → Option ℤ → Option Number
finite_of neg [] places e = none
finite_of neg ds places none = none
finite_of neg ds places (some e) =
    some (finite (record { negative = neg; coefficient = value_of ds; exponent = e -ℤ pos places }))

unsigned : Bool → List ℕ → Option Number
unsigned neg cs =
    if same_codes cs (codes "inf") || same_codes cs (codes "infinity")
    then some (infinite neg)
    else if same_codes cs (codes "nan")
    then some nan
    else let (ds, after) = digits_of cs in
      let (fs, rest) = fraction_of after in
      finite_of neg (ds ++ fs) (length fs) (tail_exponent rest)

numeral : List ℕ → Option Number
numeral [] = none
numeral (c ∷ cs) =
    if c == b'-'
    then unsigned true cs
    else if c == b'+'
    then unsigned false cs
    else unsigned false (c ∷ cs)

all_digits : List ℕ → Bool
all_digits [] = true
all_digits (c ∷ cs) = is_digit c && all_digits cs

-- `nan`, and digits after it
nan_digits : List ℕ → Bool
nan_digits cs = same_codes (take 3 cs) (codes "nan") && all_digits (drop 3 cs)

quiet_or_signalling : List ℕ → Bool
quiet_or_signalling [] = false
quiet_or_signalling (c ∷ cs) = nan_digits (c ∷ cs) || (c == b's' && nan_digits cs)

-- a sign, and the text of a NaN
nan_text : List ℕ → Bool
nan_text [] = false
nan_text (c ∷ cs) = quiet_or_signalling (if c == b'-' || c == b'+' then cs else c ∷ cs)

-- What `Decimal` holds exactly: the exponent of the first digit is at most 999999999999999999, that of the
-- last at least -1999999999999999997.
abbrev pub fits : Decimal → Bool
fits d =
    leb_ℤ (pos (length (codes (str_of_ℕ d.coefficient))) +ℤ d.exponent)
      (pos 1_000_000_000_000_000_000)
    && leb_ℤ (negsuc 1_999_999_999_999_999_996) d.exponent

exact : Option Number → Option Number
exact (some (finite d)) = if fits d then some (finite d) else none
exact o = o

-- `Decimal(s)`; `none` is InvalidOperation
unfoldable pub decimal_of_text : String → Option Number
unfolding ascii_code ascii_codes drop_spaces strip without_underscores lowered same_codes digits_of
    value_of whole exponent_of tail_exponent fraction_of finite_of unsigned numeral codes all_digits
    nan_digits quiet_or_signalling nan_text exact is_decimal decimal_value is_space str_of_ℕ
decimal_of_text s =
    let cs = lowered (without_underscores (strip (ascii_codes (codes s)))) in
    if nan_text cs then some nan else exact (numeral cs)

-- `float(s)`; `none` is ValueError
unfoldable pub float_of_text : String → Option Number
unfolding underscores_fit ascii_code ascii_codes is_decimal decimal_value is_space drop_spaces strip
    without_underscores lowered same_codes digits_of value_of whole exponent_of tail_exponent
    fraction_of finite_of unsigned numeral codes
float_of_text s =
    let cs = strip (ascii_codes (codes s)) in
    if underscores_fit false cs then numeral (lowered (without_underscores cs)) else none

whole_text : List ℕ → Option ℤ
whole_text [] = none
whole_text (c ∷ cs) = exponent_of (c ∷ cs)

-- `int(s)`; `none` is ValueError
unfoldable pub int_of_text : String → Option ℤ
unfolding underscores_fit ascii_code ascii_codes is_decimal decimal_value is_space drop_spaces strip
    without_underscores digits_of value_of whole exponent_of whole_text codes
int_of_text s =
    let cs = strip (ascii_codes (codes s)) in
    if underscores_fit false cs then whole_text (without_underscores cs) else none

int_of_text_count : (int_of_text "3" ≡ some (pos 3)) × (int_of_text "3.0" ≡ none)
unfolding int_of_text ◌-ℤ◌
int_of_text_count = (refl, refl)

decimal_of_text_price :
    decimal_of_text " 1_234.10 "
    ≡ some (finite (record { negative = false; coefficient = 123410; exponent = negsuc 1 }))
unfolding decimal_of_text ◌-ℤ◌ ◌+ℤ◌
decimal_of_text_price = refl

decimal_of_text_limits :
    (decimal_of_text "1e1000000000000000000" ≡ none)
    × (decimal_of_text "1e999999999999999999"
        ≡ some (
            finite (record {
              negative = false;
              coefficient = 1;
              exponent = pos 999_999_999_999_999_999;
            })))
    × (decimal_of_text "1e-1999999999999999998" ≡ none)
    × (decimal_of_text "-sNaN1" ≡ some nan)
unfolding decimal_of_text ◌-ℤ◌ ◌+ℤ◌
decimal_of_text_limits = (refl, refl, refl, refl)

decimal_of_text_full_width :
    decimal_of_text "１２"
    ≡ some (finite (record { negative = false; coefficient = 12; exponent = pos 0 }))
unfolding decimal_of_text ◌-ℤ◌ ◌+ℤ◌
decimal_of_text_full_width = refl

decimal_of_text_words :
    (decimal_of_text "lots" ≡ none) × (decimal_of_text "-Infinity" ≡ some (infinite true))
unfolding decimal_of_text
decimal_of_text_words = (refl, refl)

float_of_text_rate :
    (float_of_text "3e-1"
      ≡ some (finite (record { negative = false; coefficient = 3; exponent = negsuc 0 })))
    × (float_of_text "1__0" ≡ none)
    × (float_of_text "nan" ≡ some nan)
unfolding float_of_text ◌-ℤ◌
float_of_text_rate = (refl, refl, refl)
