-- ===== src/Worker/Backoff/Bounds.antt =====
-- How long worker/backoff.py makes a message wait.
use native.Mathlib.Nat.{
  div-add-mod', div-mul-le_self, mod-lt, le-div_iff_mul-le, div-lt_iff_lt-mul, mul-le-mul_left,
  mul-le-mul_right,
}
use salesforce_erp_sync.Common.{
  ℕ, suc, ◌+◌, ◌-◌, ◌*◌, ◌/◌, ◌^◌, ◌≤◌, ◌<◌, min, ◌≡◌, sym, ap, ◌∙◌, arith, ℤ, pos, pos_part,
}
use salesforce_erp_sync.Outcome.{ok}
use salesforce_erp_sync.Worker.Backoff.{
  max_visibility_timeout, random_unit, ceil_div, next_visibility_timeout,
}

-- The least number of whole units that covers an amount.
ceil_div-le : (a b m : ℕ) → 0 < b → a ≤ m * b → ceil_div a b ≤ m
unfolding ceil_div
ceil_div-le a b m h k =
    let below : (a + (b - 1)) / b < suc m = (div-lt_iff_lt-mul h).1 (omega arith) in omega arith

le-ceil_div : (a b m : ℕ) → 0 < b → m * b ≤ a → m ≤ ceil_div a b
unfolding ceil_div
le-ceil_div a b m h k = (le-div_iff_mul-le h).1 (omega arith)

ceil_div-mul : (a b : ℕ) → 0 < b → a ≤ ceil_div a b * b
unfolding ceil_div
ceil_div-mul a b h =
    let parts = div-add-mod' (a + (b - 1)) b in let small = mod-lt (a + (b - 1)) h in omega arith

-- The wait in ticks before the jitter.
abbrev pub delay : ℤ → ℕ → ℕ → ℕ
delay attempt base cap = min cap (base * 2 ^ (pos_part attempt - 1))

module _ (scale base cap r : ℕ) (attempt : ℤ) (ticks : 0 < scale) (unit : r ≤ random_unit)
    (few : pos_part attempt ≤ 1024) where
  abbrev wait : ℕ
  wait = ceil_div (delay attempt base cap * random_unit + base * r) (scale * random_unit)

  next-eq-ok :
      next_visibility_timeout scale attempt base cap r ≡ ok (min max_visibility_timeout wait)
  unfolding next_visibility_timeout
  next-eq-ok = ground arith

  wait_lower : (m : ℕ) → m * scale ≤ delay attempt base cap → m ≤ wait
  wait_lower m h = le-ceil_div _ (scale * random_unit) m (omega arith) (omega arith)

  wait_upper : (m : ℕ) → delay attempt base cap + base ≤ m * scale → wait ≤ m
  wait_upper m h =
      let jitter : base * r ≤ base * random_unit = mul-le-mul_left base unit in
      ceil_div-le _ (scale * random_unit) m (omega arith) (omega arith)

  next_bounds :
      (d : ℕ) × (next_visibility_timeout scale attempt base cap r ≡ ok d)
      × (d ≤ max_visibility_timeout)
      × ((m : ℕ) → m * scale ≤ delay attempt base cap → min max_visibility_timeout m ≤ d)
      × ((m : ℕ) → delay attempt base cap + base ≤ m * scale → d ≤ m)
  next_bounds = (
    min max_visibility_timeout wait,
    next-eq-ok,
    omega arith,
    λ m h. let lower = wait_lower m h in omega arith,
    λ m h. let upper = wait_upper m h in omega arith,
  )

  -- Up to 1024 receives, the timeout is a number of seconds that SQS accepts: at least the whole seconds
  -- of the capped exponential delay, as far as SQS's limit allows, and at most the seconds that cover that
  -- delay and one base.
  pub next_visibility_timeout_bounds :
      (d : ℕ) × (next_visibility_timeout scale attempt base cap r ≡ ok d)
      × (min max_visibility_timeout (delay attempt base cap / scale) ≤ d)
      × (d ≤ max_visibility_timeout)
      × (d ≤ ceil_div (delay attempt base cap + base) scale)
  next_visibility_timeout_bounds =
      let (d, returns, limit, lower, upper) = next_bounds in
      (
        d,
        returns,
        lower (delay attempt base cap / scale) (div-mul-le_self (delay attempt base cap) scale),
        limit,
        upper (ceil_div (delay attempt base cap + base) scale)
            (ceil_div-mul (delay attempt base cap + base) scale ticks),
      )

ok_inj : {a b : ℕ} → ok a ≡ ok b → a ≡ b
ok_inj h = cc

one_wait :
    (scale r d k seconds : ℕ)
    → 0 < scale
    → r ≤ random_unit
    → k ≤ 1024
    → 60 * 2 ^ (k - 1) ≡ seconds
    → seconds ≤ 840
    → next_visibility_timeout scale (pos k) (60 * scale) (900 * scale) r ≡ ok d
    → (seconds ≤ d) × (d ≤ seconds + 60)
one_wait scale r d k seconds ticks unit few power small e =
    let (d', e', limit, lower, upper) =
      next_bounds scale (60 * scale) (900 * scale) r (pos k) ticks unit few in
    let same = ok_inj (sym e ∙ e') in
    let scaled = ap (λ (t : ℕ). t * scale) power in
    let capped : seconds * scale ≤ 840 * scale = mul-le-mul_right scale small in
    let exact : delay (pos k) (60 * scale) (900 * scale) ≡ seconds * scale = omega arith in
    let low = lower seconds (omega arith) in
    let high = upper (seconds + 60) (omega arith) in omega arith

-- With the default base of 60 s and cap of 900 s, the four waits before the fifth receive add up to
-- between 15 and 19 minutes, whatever the jitters.
pub retry_budget :
    (scale r₁ r₂ r₃ r₄ d₁ d₂ d₃ d₄ : ℕ)
    → 0 < scale
    → (r₁ ≤ random_unit) × (r₂ ≤ random_unit) × (r₃ ≤ random_unit) × (r₄ ≤ random_unit)
    → next_visibility_timeout scale (pos 1) (60 * scale) (900 * scale) r₁ ≡ ok d₁
    → next_visibility_timeout scale (pos 2) (60 * scale) (900 * scale) r₂ ≡ ok d₂
    → next_visibility_timeout scale (pos 3) (60 * scale) (900 * scale) r₃ ≡ ok d₃
    → next_visibility_timeout scale (pos 4) (60 * scale) (900 * scale) r₄ ≡ ok d₄
    → (15 * 60 ≤ d₁ + d₂ + d₃ + d₄) × (d₁ + d₂ + d₃ + d₄ ≤ 19 * 60)
retry_budget scale r₁ r₂ r₃ r₄ d₁ d₂ d₃ d₄ ticks units e₁ e₂ e₃ e₄ =
    let b₁ = one_wait scale r₁ d₁ 1 60 ticks units.0 (omega arith) (omega arith) (omega arith) e₁ in
    let b₂ =
      one_wait scale r₂ d₂ 2 120 ticks units.1 (omega arith) (omega arith) (omega arith) e₂ in
    let b₃ =
      one_wait scale r₃ d₃ 3 240 ticks units.2 (omega arith) (omega arith) (omega arith) e₃ in
    let b₄ =
      one_wait scale r₄ d₄ 4 480 ticks units.3 (omega arith) (omega arith) (omega arith) e₄ in
    omega arith
