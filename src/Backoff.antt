-- ===== src/Backoff.antt =====
-- `compute_backoff_delay` of src/engine.cpp. A delay is counted in milliseconds, which every value
-- of the presets is a whole number of.
use native.Mathlib.Nat.{pow-le-pow_right, mul-le-mul_left}
use native.Mathlib.Decide.{dec_lt}
use attractor.Prelude.{ℕ, ◌*◌, ◌/◌, ◌%◌, ◌^◌, ◌≤◌, ◌<◌, min, ◌≡◌, arith, nat_eq, if◌then◌else◌}
use attractor.Handler.{
  BackoffPreset, no_delay, fixed_1s, exponential_100ms, exponential_1s, exponential_jitter_1s,
}

unfoldable pub compute_backoff_delay : BackoffPreset → ℕ → ℕ
compute_backoff_delay no_delay attempt = 0
compute_backoff_delay fixed_1s attempt = 1000
compute_backoff_delay exponential_100ms attempt = min (100 * 2 ^ min attempt 7) 10000
compute_backoff_delay exponential_1s attempt = min (1000 * 2 ^ min attempt 6) 60000
compute_backoff_delay exponential_jitter_1s attempt =
    let capped = min (1000 * 2 ^ min attempt 5) 60000 in
    if nat_eq (attempt % 2) 0 then capped * 3 / 4 else capped * 5 / 4

pow_mono : (m n : ℕ) → m ≤ n → 2 ^ m ≤ 2 ^ n
pow_mono m n h = pow-le-pow_right (omega arith) h

-- The clamped exponent does not show below the cap.
clamp_exponent :
    (unit cap k a : ℕ) → cap ≤ unit * 2 ^ k → min (unit * 2 ^ min a k) cap ≡ min (unit * 2 ^ a) cap
clamp_exponent unit cap k a h = elim (dec_lt k a) [
  | yes p ↦
      let e : min a k ≡ k = omega arith in
      rw e (omega (arith, mul-le-mul_left unit (pow_mono k a (omega arith))))
  | no p ↦ let e : min a k ≡ a = omega arith in rw e
]

-- The two presets without jitter are the documented unit * 2^attempt up to their cap, for every
-- attempt: the clamps on the shift never show.
pub exponential_closed :
    (attempt : ℕ)
    → (compute_backoff_delay exponential_100ms attempt ≡ min (100 * 2 ^ attempt) 10000)
      × (compute_backoff_delay exponential_1s attempt ≡ min (1000 * 2 ^ attempt) 60000)
unfolding compute_backoff_delay
exponential_closed attempt = (
  clamp_exponent 100 10000 7 attempt (omega arith),
  clamp_exponent 1000 60000 6 attempt (omega arith),
)

-- What the comment on `exponential_jitter_1s` says: 1s * 2^attempt, capped at 60s, with the jitter.
unfoldable pub documented_jitter : ℕ → ℕ
documented_jitter attempt =
    let capped = min (1000 * 2 ^ attempt) 60000 in
    if nat_eq (attempt % 2) 0 then capped * 3 / 4 else capped * 5 / 4

-- With jitter, the delay of the first six attempts (0 to 5) is the documented one.
pub jitter_documented :
    (attempt : ℕ)
    → attempt ≤ 5
    → compute_backoff_delay exponential_jitter_1s attempt ≡ documented_jitter attempt
unfolding compute_backoff_delay documented_jitter
jitter_documented attempt h = let e : min attempt 5 ≡ attempt = omega arith in rw e

-- With jitter, the delay of every attempt from 6 on is below the documented one.
pub jitter_below :
    (attempt : ℕ)
    → 6 ≤ attempt
    → compute_backoff_delay exponential_jitter_1s attempt < documented_jitter attempt
unfolding compute_backoff_delay documented_jitter
jitter_below attempt h =
    let e : min attempt 5 ≡ 5 = omega arith in
    let p : 64 ≤ 2 ^ attempt = pow_mono 6 attempt h in
    let q : min (1000 * 2 ^ attempt) 60000 ≡ 60000 = omega arith in rw (e, q) (ground arith)
