-- ===== src/Policy/Delay.antt =====
-- Bounds of the delay before a retry, and which answers are retried.
use webhooks_engine.Prelude.{
  ℕ, zero, suc, ◌+◌, ◌-◌, ◌*◌, ◌/◌, ◌^◌, ◌≤◌, ◌<◌, ◌≡◌, subst, ◌⊎◌, inl, inr, ◌↔◌, leb, Bool-cases,
  refl, Option, none, some, arith,
}
use webhooks_engine.Types.{sent, failed_retry, dead_lettered}
use webhooks_engine.Policy.Defs.{
  RetryConfig, classify_status, will_retry, capped_delay, jitter, next_delay, outcome_status,
}
use native.Mathlib.Nat.{
  pow-suc, mul-le-mul, pow-le-pow_right, le-div_iff_mul-le, div-mul-le_self, le_trans,
  lt-div-mul-add, mul-le-mul_right, min-eq_left, min-eq_right,
}
use Prim.Native.Nat.add

-- The backoff at an attempt, in whole microseconds, and no more than the cap: `d` is the cap, or
-- `base_delay * backoff_factor ** (attempt - 1)` rounded down.
abbrev pub IsBackoff : ℕ → RetryConfig → ℕ → Type 0
IsBackoff attempt cfg d =
    let power = 100 ^ (attempt - 1) in
    let raw = cfg.base_delay * cfg.backoff_factor ^ (attempt - 1) in
    (d ≤ cfg.max_delay) × (d * power ≤ raw) × ((d ≡ cfg.max_delay) ⊎ (raw < suc d * power))

hundred-pow-pos : (k : ℕ) → 0 < 100 ^ k
hundred-pow-pos k = pow-le-pow_right {n = 100} (omega arith) {i = 0} {j = k} (omega arith)

capped_delay-IsBackoff :
    (attempt : ℕ) (cfg : RetryConfig) → IsBackoff attempt cfg (capped_delay attempt cfg)
unfolding capped_delay
capped_delay-IsBackoff attempt cfg =
    let power = 100 ^ (attempt - 1) in
    let raw = cfg.base_delay * cfg.backoff_factor ^ (attempt - 1) in
    let floor = div-mul-le_self raw power in
    let above = lt-div-mul-add {a = raw} {b = power} (hundred-pow-pos (attempt - 1)) in
    elim (Bool-cases (leb (raw / power) cfg.max_delay)) [
      | inl under ↦
          let le : raw / power ≤ cfg.max_delay = ground arith in
          rw (min-eq_left le) (le, floor, inr (omega (arith, above)))
      | inr over ↦
          let ge : cfg.max_delay ≤ raw / power = ground arith in
          rw (min-eq_right ge) (omega arith, le_trans (mul-le-mul_right power ge) floor, inl refl)
    ]

mul-add-le : (m p : ℕ) → m * 100 ≤ m * (100 + p)
mul-add-le m p = omega arith

own_wait :
    (d p m u : ℕ)
    → d ≤ m
    → u ≤ d * p / 100 + d * p / 100
    → let delay = d + u - d * p / 100 in
      (100 * delay ≤ m * (100 + p))
      × (100 * d ≤ 100 * delay + d * p)
      × (100 * delay ≤ 100 * d + d * p)
own_wait d p m u h range =
    let grown = mul-le-mul_right p h in (omega (arith, grown), omega arith, omega arith)

-- Whatever is drawn in range, no wait is above the cap and its jitter. The wait for a
-- `Retry-After` is what the receiver asked for, or the cap where that is less. A wait of the
-- engine's own is off the capped exponential backoff of the attempt by at most `jitter_pct`
-- hundredths of it.
pub next_delay_bounds :
    (uniform : ℕ → ℕ) (attempt : ℕ) (cfg : RetryConfig) (asked : Option ℕ)
    → ((j : ℕ) → uniform j ≤ j + j)
    → let delay = next_delay uniform attempt cfg asked in
      (100 * delay ≤ cfg.max_delay * (100 + cfg.jitter_pct))
      × ((w : ℕ)
          → asked ≡ some w
          → (delay ≤ w) × (delay ≤ cfg.max_delay) × ((delay ≡ w) ⊎ (delay ≡ cfg.max_delay)))
      × (asked ≡ none
          → (d : ℕ) × IsBackoff attempt cfg d
            × (100 * d ≤ 100 * delay + d * cfg.jitter_pct)
            × (100 * delay ≤ 100 * d + d * cfg.jitter_pct))
unfolding next_delay jitter
next_delay_bounds uniform attempt cfg none range =
    let backoff = capped_delay-IsBackoff attempt cfg in
    let (above, near_below, near_above) =
      own_wait (capped_delay attempt cfg) cfg.jitter_pct cfg.max_delay
        (uniform (jitter attempt cfg)) backoff.0 (range (jitter attempt cfg)) in
    (
      above,
      (λ w e. absurd (ground arith)),
      λ e. (capped_delay attempt cfg, backoff, near_below, near_above),
    )
next_delay_bounds uniform attempt cfg (some w) range = (
  omega (arith, mul-add-le cfg.max_delay cfg.jitter_pct),
  λ w' e. ground arith,
  λ e. absurd (ground arith),
)

regroup : (q p x y f : ℕ) → 100 ≤ f → q * p ≤ x * y → q * (p * 100) ≤ x * (y * f)
regroup q p x y f h le =
    omega (arith, mul-le-mul {n₁ = q * p} {m₁ = 100} {n₂ = x * y} {m₂ = f} le h)

backoff_step : (b f k : ℕ) → 100 ≤ f → b * f ^ k / 100 ^ k ≤ b * f ^ suc k / 100 ^ suc k
backoff_step b f k h = (le-div_iff_mul-le (hundred-pow-pos (suc k))).1 (
    rw (pow-suc f k, pow-suc 100 k)
      (regroup (b * f ^ k / 100 ^ k) (100 ^ k) b (f ^ k) f h (div-mul-le_self _ _)))

backoff_grows : (b f k n : ℕ) → 100 ≤ f → b * f ^ k / 100 ^ k ≤ b * f ^ (n + k) / 100 ^ (n + k)
backoff_grows b f k zero h = rw (add.zero k) (omega arith)
backoff_grows b f k (suc n) h =
    rw (add.suc n k) (le_trans (backoff_grows b f k n h) (backoff_step b f (n + k) h))

-- With a backoff factor of at least 1, a later attempt never waits less, before jitter, than an
-- earlier one, and never more than the cap.
pub capped_delay_mono :
    (cfg : RetryConfig) (attempt later : ℕ)
    → 100 ≤ cfg.backoff_factor
    → attempt ≤ later
    → (capped_delay attempt cfg ≤ capped_delay later cfg) × (capped_delay later cfg ≤ cfg.max_delay)
unfolding capped_delay
capped_delay_mono cfg attempt later h le =
    let k = attempt - 1 in
    let n = (later - 1) - (attempt - 1) in
    let e : n + k ≡ later - 1 = omega arith in
    omega (
      arith,
      subst
          (λ m.
            cfg.base_delay * cfg.backoff_factor ^ k / 100 ^ k
            ≤ cfg.base_delay * cfg.backoff_factor ^ m / 100 ^ m)
          e (backoff_grows cfg.base_delay cfg.backoff_factor k n h),
    )

-- What becomes of an answer: SENT exactly on 2xx; a retry exactly on 5xx (or beyond), 408 or 429
-- while attempts are left; dead otherwise.
pub classify_status-outcome :
    (status attempt : ℕ) (cfg : RetryConfig)
    → let reason = classify_status status in
      let outcome = outcome_status reason (will_retry reason attempt cfg) in
      ((outcome ≡ sent) ↔ ((200 ≤ status) × (status < 300)))
      × ((outcome ≡ failed_retry)
          ↔ (((500 ≤ status) ⊎ ((status ≡ 408) ⊎ (status ≡ 429))) × (attempt < cfg.max_attempts)))
      × ((outcome ≡ sent) ⊎ ((outcome ≡ failed_retry) ⊎ (outcome ≡ dead_lettered)))
unfolding classify_status outcome_status will_retry
classify_status-outcome status attempt cfg = (
  ((λ h. ground arith), (λ h. ground arith)),
  ((λ h. ground arith), (λ h. ground arith)),
  ground arith,
)
