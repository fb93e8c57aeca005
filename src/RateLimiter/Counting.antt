-- ===== src/RateLimiter/Counting.antt =====
-- Arithmetic of what has been let through.
use effect_auth.Prelude.{ℕ, ◌+◌, ◌-◌, ◌*◌, min, ◌≤◌, ◌≡◌, Bool, true, false, arith, if◌then◌else◌}

pub mul_mono : (r a b : ℕ) → a ≤ b → r * a ≤ r * b
mul_mono r a b h = go (b - a) (omega arith)
  where
    go : (c : ℕ) → b ≡ a + c → r * a ≤ r * b
    go c e = rw e (omega arith)

pub counted_sum :
    (rate let_in tokens rest start bound : ℕ) (admitted : Bool)
    → rate * ((if admitted then let_in + tokens else let_in) + rest) + start ≤ bound
    → rate * (let_in + (if admitted then tokens + rest else rest)) + start ≤ bound
counted_sum rate let_in tokens rest start bound true h = omega arith
counted_sum rate let_in tokens rest start bound false h = h

-- What a refill adds to the bucket, the time it took pays for.
pub refill_pays :
    (rate limit held added : ℕ)
    → rate * (limit - held) ≤ added * rate + rate * (limit - min limit (held + added))
refill_pays rate limit held added =
    omega (
      arith,
      mul_mono rate (limit - held) (added + (limit - min limit (held + added))) (omega arith),
    )
