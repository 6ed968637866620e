-- ===== src/Worker/Backoff.antt =====
-- worker/backoff.py: exponential backoff through SQS's visibility timeout.
pub mod Bounds
use salesforce_erp_sync.Common.{
  ℕ, suc, ◌+◌, ◌-◌, ◌*◌, ◌/◌, ◌^◌, ◌≤◌, ◌<◌, min, ◌≡◌, refl, arith, leb, if◌then◌else◌, ℤ, pos,
  pos_part,
}
use salesforce_erp_sync.Outcome.{Outcome, ok, raised, other}

-- SQS's hard limit, 12 hours in seconds
abbrev pub max_visibility_timeout : ℕ
max_visibility_timeout = 12 * 60 * 60

-- `random.random()` is a multiple of this unit.
abbrev pub random_unit : ℕ
random_unit = 2 ^ 53

-- `math.ceil(a / b)`
unfoldable pub ceil_div : ℕ → ℕ → ℕ
ceil_div a b = (a + (b - 1)) / b

-- `base` and `cap` are counted in ticks, `scale` to the second; `random.uniform(0, base)` is `base`
-- times `r` units. The power of two that no float can hold is an OverflowError.
unfoldable pub next_visibility_timeout : ℕ → ℤ → ℕ → ℕ → ℕ → Outcome ℕ
unfolding ceil_div
next_visibility_timeout scale attempt base cap r =
    let exponent = pos_part attempt - 1 in
    if leb 1024 exponent
    then raised (other "OverflowError" "int too large to convert to float")
    else ok (
        min max_visibility_timeout
          (ceil_div (min cap (base * 2 ^ exponent) * random_unit + base * r) (scale * random_unit)))
