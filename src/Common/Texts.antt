-- ===== src/Common/Texts.antt =====
-- Texts that the program walks, as lists of code points.
use Prim.Native.Nat.{ℕ, zero, suc, ◌-◌, ◌/◌, ◌%◌}
use Prim.Native.Char.{Char, code}
use Prim.Native.String.{String, ◌++◌ as append}
use mathlib.Core.Bool.{Bool, true, false, ◌&&◌}
use mathlib.Core.Option.{Option, none, some}
use mathlib.Core.List.{List, [], ◌∷◌}
use text.Mathlib.Text.{◌==◌ as str_eq}
use salesforce_erp_sync.Common.Tests.{ltb, ◌==◌, leb, if◌then◌else◌}

infixr 65 ◌<>◌
abbrev pub ◌<>◌ : String → String → String
s <> t = append s t

-- The code points of a text.
unfoldable pub codes : String → List ℕ
codes String.[] = []
codes (String.◌∷◌ c s) = code c ∷ codes s

abbrev pub is_digit : ℕ → Bool
is_digit c = leb b'0' c && leb c b'9'

abbrev pub digit_text : ℕ → String
digit_text zero = "0"
digit_text (suc zero) = "1"
digit_text (suc (suc zero)) = "2"
digit_text (suc (suc (suc zero))) = "3"
digit_text (suc (suc (suc (suc zero)))) = "4"
digit_text (suc (suc (suc (suc (suc zero))))) = "5"
digit_text (suc (suc (suc (suc (suc (suc zero)))))) = "6"
digit_text (suc (suc (suc (suc (suc (suc (suc zero))))))) = "7"
digit_text (suc (suc (suc (suc (suc (suc (suc (suc zero)))))))) = "8"
digit_text (suc (suc (suc (suc (suc (suc (suc (suc (suc n))))))))) = "9"

-- The last `k` decimal digits of `n`, `f"{n:0kd}"` where `n` has no more than `k` of them.
unfoldable pub padded : ℕ → ℕ → String
padded zero n = ""
padded (suc k) n = padded k (n / 10) <> digit_text (n % 10)

-- The number of decimal digits of `n`, at most `fuel`; `n` itself is fuel enough.
unfoldable pub digit_count : ℕ → ℕ → ℕ
digit_count zero n = 1
digit_count (suc fuel) n = let more = digit_count fuel (n / 10) in if ltb n 10 then 1 else suc more

-- `str(n)` of a natural number
unfoldable pub str_of_ℕ : ℕ → String
unfolding padded digit_count
str_of_ℕ n = padded (digit_count n n) n

-- `", ".join(parts)` and its like
unfoldable pub join : String → List String → String
join sep [] = ""
join sep (x ∷ []) = x
join sep (x ∷ y ∷ rest) = x <> sep <> join sep (y ∷ rest)

-- A character put in front of the first part.
abbrev extend : Char → List String → List String
extend c [] = String.◌∷◌ c String.[] ∷ []
extend c (p ∷ ps) = String.◌∷◌ c p ∷ ps

-- `s.split(sep)`, for a separator of one character
unfoldable pub split_on : ℕ → String → List String
split_on sep String.[] = String.[] ∷ []
split_on sep (String.◌∷◌ c s) =
    let rest = split_on sep s in if code c == sep then String.[] ∷ rest else extend c rest

-- The last of two or more parts: `s.rsplit(sep, 1)[1]`; `none` is an IndexError.
abbrev pub last_part : List String → Option String
last_part [] = none
last_part (p ∷ []) = none
last_part (p ∷ q ∷ []) = some q
last_part (p ∷ q ∷ r ∷ ps) = last_part (q ∷ r ∷ ps)

-- `s[:n]`
unfoldable pub prefix : ℕ → String → String
prefix zero s = String.[]
prefix (suc n) String.[] = String.[]
prefix (suc n) (String.◌∷◌ c s) = String.◌∷◌ c (prefix n s)

-- `s[n:]`
unfoldable pub suffix : ℕ → String → String
suffix zero s = s
suffix (suc n) String.[] = String.[]
suffix (suc n) (String.◌∷◌ c s) = suffix n s

-- the order of code points, as Python compares texts
abbrev pub codes_ltb : List ℕ → List ℕ → Bool
codes_ltb cs [] = false
codes_ltb [] (d ∷ ds) = true
codes_ltb (c ∷ cs) (d ∷ ds) = if ltb c d then true else if ltb d c then false else codes_ltb cs ds

unfoldable pub str_ltb : String → String → Bool
unfolding codes
str_ltb a b = codes_ltb (codes a) (codes b)

-- `sorted(texts)`
abbrev pub insert_sorted : String → List String → List String
insert_sorted x [] = x ∷ []
insert_sorted x (y ∷ ys) = if str_ltb y x then y ∷ insert_sorted x ys else x ∷ y ∷ ys

unfoldable pub sorted : List String → List String
sorted [] = []
sorted (x ∷ xs) = insert_sorted x (sorted xs)

-- `s.startswith(p)`
abbrev pub codes_start : List ℕ → List ℕ → Bool
codes_start [] cs = true
codes_start (p ∷ ps) [] = false
codes_start (p ∷ ps) (c ∷ cs) = p == c && codes_start ps cs

unfoldable pub starts_with : String → String → Bool
unfolding codes
starts_with p s = codes_start (codes p) (codes s)

-- `s.rstrip("/")`
unfoldable pub rstrip_slash : String → String
rstrip_slash String.[] = String.[]
rstrip_slash (String.◌∷◌ c s) =
    let rest = rstrip_slash s in
    if str_eq rest "" && code c == b'/' then String.[] else String.◌∷◌ c rest

-- The character at a place of a text, or `d` where it ends.
abbrev char_at : ℕ → String → Char → Char
char_at n String.[] d = d
char_at zero (String.◌∷◌ c s) d = c
char_at (suc n) (String.◌∷◌ c s) d = char_at n s d

-- the ASCII letters' other case
abbrev upper_char : Char → Char
upper_char c =
    if leb b'a' (code c) && leb (code c) b'z'
    then char_at (code c - 97) "ABCDEFGHIJKLMNOPQRSTUVWXYZ" c
    else c

abbrev lower_char : Char → Char
lower_char c =
    if leb b'A' (code c) && leb (code c) b'Z'
    then char_at (code c - 65) "abcdefghijklmnopqrstuvwxyz" c
    else c

-- `s.upper()` and `s.lower()` on ASCII letters; other characters stay
unfoldable pub upper : String → String
upper String.[] = String.[]
upper (String.◌∷◌ c s) = String.◌∷◌ (upper_char c) (upper s)

unfoldable pub lower : String → String
lower String.[] = String.[]
lower (String.◌∷◌ c s) = String.◌∷◌ (lower_char c) (lower s)

-- The digit of a number below 10.
abbrev pub digit_char : ℕ → Char → Char
digit_char n d = char_at n "0123456789" d
