-- ===== src/Outbox/Backoff.antt =====
-- The wait before the next attempt of an outbox row.
use onboard_ai.Common.{
  ℕ, zero, suc, ◌*◌, ◌^◌, ◌-◌, ◌≤◌, ◌≡◌, min, Option, none, some, arith, ℤ, pos,
}
use native.Mathlib.Nat.{pow-suc}
use onboard_ai.Outbox.Service.{retry_delay_seconds}

double : (e : ℕ) → 2 ^ suc e ≡ 2 * 2 ^ e
double e = omega (arith, pow-suc 2 e)

power_pos : (e : ℕ) → 1 ≤ 2 ^ e
power_pos zero = omega arith
power_pos (suc e) = omega (arith, double e, power_pos e)

power_mono : (d e : ℕ) → d ≤ e → 2 ^ d ≤ 2 ^ e
power_mono zero e h = omega (arith, power_pos e)
power_mono (suc d) zero h = absurd (omega arith)
power_mono (suc d) (suc e) h = omega (arith, double d, double e, power_mono d e (omega arith))

-- The wait lies between two seconds and an hour, and without a hint from Telegram is at most five
-- minutes, whatever the number of attempts and the hint are.
retry_delay_bounds :
    (attempts : ℕ) (hint : Option ℤ)
    → (2 ≤ retry_delay_seconds attempts hint)
      × (retry_delay_seconds attempts hint ≤ 3600)
      × (retry_delay_seconds attempts none ≤ 300)
unfolding retry_delay_seconds
retry_delay_bounds attempts none = omega (arith, power_pos (min (attempts - 1) 20))
retry_delay_bounds attempts (some wait) = omega (arith, power_pos (min (attempts - 1) 20))

-- The wait never falls as the attempts go on, under the same hint; and it is never shorter than
-- the hint, up to an hour.
retry_delay_grows :
    (a b : ℕ) (hint : Option ℤ)
    → a ≤ b
    → (retry_delay_seconds a hint ≤ retry_delay_seconds b hint)
      × ((wait : ℕ) → wait ≤ 3600 → wait ≤ retry_delay_seconds a (some (pos wait)))
unfolding retry_delay_seconds
retry_delay_grows a b none h =
    (omega (arith, power_mono (min (a - 1) 20) (min (b - 1) 20)), λ wait k. omega arith)
retry_delay_grows a b (some wait) h =
    (omega (arith, power_mono (min (a - 1) 20) (min (b - 1) 20)), λ wait k. omega arith)
