-- ===== src/Python/Regex.antt =====
-- The regular expressions of the program, as tests on code points.
use salesforce_erp_sync.Common.{
  ℕ, zero, suc, ◌+◌, ◌-◌, Bool, true, false, ◌&&◌, ◌||◌, List, [], ◌∷◌, any, leb, ltb, ◌==◌,
  if◌then◌else◌,
}

-- The zeros of Unicode's runs of ten decimal digits.
abbrev digit_zeros : List ℕ
digit_zeros =
    0x30 ∷ 0x660 ∷ 0x6f0 ∷ 0x7c0 ∷ 0x966 ∷ 0x9e6 ∷ 0xa66 ∷ 0xae6 ∷ 0xb66 ∷ 0xbe6 ∷ 0xc66 ∷ 0xce6
    ∷ 0xd66 ∷ 0xde6 ∷ 0xe50 ∷ 0xed0 ∷ 0xf20 ∷ 0x1040 ∷ 0x1090 ∷ 0x17e0 ∷ 0x1810 ∷ 0x1946 ∷ 0x19d0
    ∷ 0x1a80 ∷ 0x1a90 ∷ 0x1b50 ∷ 0x1bb0 ∷ 0x1c40 ∷ 0x1c50 ∷ 0xa620 ∷ 0xa8d0 ∷ 0xa900 ∷ 0xa9d0
    ∷ 0xa9f0 ∷ 0xaa50 ∷ 0xabf0 ∷ 0xff10 ∷ 0x104a0 ∷ 0x10d30 ∷ 0x11066 ∷ 0x110f0 ∷ 0x11136 ∷ 0x111d0
    ∷ 0x112f0 ∷ 0x11450 ∷ 0x114d0 ∷ 0x11650 ∷ 0x116c0 ∷ 0x11730 ∷ 0x118e0 ∷ 0x11950 ∷ 0x11c50
    ∷ 0x11d50 ∷ 0x11da0 ∷ 0x16a60 ∷ 0x16ac0 ∷ 0x16b50 ∷ 0x1d7ce ∷ 0x1d7d8 ∷ 0x1d7e2 ∷ 0x1d7ec
    ∷ 0x1d7f6 ∷ 0x1e140 ∷ 0x1e2f0 ∷ 0x1e950 ∷ 0x1fbf0 ∷ []

-- `\d` of a text pattern
unfoldable pub is_decimal : ℕ → Bool
is_decimal c = any (λ z. leb z c && ltb c (z + 10)) digit_zeros

-- `$`: the end, or a newline that ends the text
unfoldable pub at_end : List ℕ → Bool
at_end [] = true
at_end (c ∷ []) = c == 10
at_end (c ∷ d ∷ cs) = false

-- The value of a digit; 0 for what is none.
abbrev value_in : List ℕ → ℕ → ℕ
value_in [] c = 0
value_in (z ∷ zs) c = if leb z c && ltb c (z + 10) then c - z else value_in zs c

unfoldable pub decimal_value : ℕ → ℕ
decimal_value c = value_in digit_zeros c

-- `\s` of a text pattern
unfoldable pub is_space : ℕ → Bool
is_space c =
    (leb 9 c && leb c 13)
    || (leb 28 c && leb c 32)
    || any (λ x. x == c) (0x85 ∷ 0xa0 ∷ 0x1680 ∷ 0x2028 ∷ 0x2029 ∷ 0x202f ∷ 0x205f ∷ 0x3000 ∷ [])
    || (leb 0x2000 c && leb c 0x200a)

-- A run of `n` digits, and then what `rest` matches.
unfoldable pub digits_then : ℕ → (List ℕ → Bool) → List ℕ → Bool
digits_then zero rest cs = rest cs
digits_then (suc n) rest [] = false
digits_then (suc n) rest (c ∷ cs) = is_decimal c && digits_then n rest cs

unfoldable pub code_then : ℕ → (List ℕ → Bool) → List ℕ → Bool
code_then k rest [] = false
code_then k rest (c ∷ cs) = c == k && rest cs

-- `^\d{4}-\d{2}-\d{2}$`, by `match`
unfoldable pub date_match : List ℕ → Bool
unfolding at_end digits_then code_then
date_match = digits_then 4 (code_then b'-' (digits_then 2 (code_then b'-' (digits_then 2 at_end))))
