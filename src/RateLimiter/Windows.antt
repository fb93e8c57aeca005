-- ===== src/RateLimiter/Windows.antt =====
-- How much a fixed window lets through in time.
use effect_auth.Prelude.{
  ℕ, ◌+◌, ◌*◌, ◌≤◌, ◌≡◌, ◌≢◌, inl, inr, some, List, [], ◌∷◌, Text, text_eq, text_eq_iff, arith, leb,
  leb→le, not, beq_self, nat_eq, ◌==◌, ◌&&◌, Bool-cases, if◌then◌else◌,
}
use effect_auth.Prelude.Maps.{get, get-set, get-retain}
use effect_auth.RateLimiter.{
  FixedCounter, LimiterStore, WindowOptions, Call, window, bucket, sweep, current_counter,
  empty_store, next_counter, over_limit, fixed_window, token_bucket, sweep_at, window_lives,
  after_call, InOrder, last_moment,
}
use effect_auth.RateLimiter.Counting.{mul_mono, counted_sum}
use effect_auth.RateLimiter.Eviction.{
  current-keep_if, empty_store-IsStore, IsStore, after_call-IsStore,
}

-- The tokens of the requests under the key that were within the limit.
unfoldable pub let_through : Text → ℕ → List (ℕ × Call) → LimiterStore → ℕ
let_through key limit [] s = 0
let_through key limit ((now, window options) ∷ calls) s =
    let rest = let_through key limit calls (fixed_window options now s).1 in
    if options.key == key && leb (fixed_window options now s).0.0 limit
    then options.tokens + rest
    else rest
let_through key limit ((now, bucket options) ∷ calls) s =
    let_through key limit calls (token_bucket options now s).1
let_through key limit ((now, sweep) ∷ calls) s = let_through key limit calls (sweep_at now s).1

-- Every request under the key has this limit and this interval.
abbrev pub Configured : Text → ℕ → ℕ → List (ℕ × Call) → Type 0
Configured key limit rate [] = Unit
Configured key limit rate ((now, window options) ∷ calls) =
    (options.key ≡ key → (options.limit ≡ some limit) × (options.refill_rate_millis ≡ rate))
    × Configured key limit rate calls
Configured key limit rate ((now, call) ∷ calls) = Configured key limit rate calls

module _ (key : Text) (limit rate : ℕ) (positive : limit ≢ 0) (start : ℕ) where
  -- What has been let through is paid for by the time until the counter expires, and the counter
  -- is within the limit.
  record IsPaid (now let_in : ℕ) (counter : FixedCounter) : Type 0 where
    paid : rate * let_in + start ≤ counter.expires_at
    within : counter.expires_at ≤ now + rate * counter.count
    few : counter.count ≤ limit

  abbrev Paid : ℕ → ℕ → LimiterStore → Type 0
  Paid now let_in s =
      (later : ℕ)
      → now ≤ later
      → IsPaid later let_in (current_counter later (get key s.fixed_counters))

  IsPaid-mono :
      (now let_in later : ℕ) (counter : FixedCounter)
      → IsPaid now let_in counter
      → now ≤ later
      → IsPaid later let_in (current_counter later (some counter))
  IsPaid-mono now let_in later counter h le = elim (Bool-cases (leb counter.expires_at later)) [
    | inl e ↦ rw e (record {
      paid = omega (arith, h.paid, leb→le _ _ e);
      within = omega arith;
      few = omega arith;
    })
    | inr e ↦ rw e (record { paid = h.paid; within = omega (arith, h.within); few = h.few })
  ]

  over_limit-eq : (wanted : ℕ) → over_limit (some limit) wanted ≡ not (leb wanted limit)
  over_limit-eq wanted = ground arith

  IsPaid-next :
      (now let_in : ℕ) (options : WindowOptions) (counter : FixedCounter)
      → options.limit ≡ some limit
      → options.refill_rate_millis ≡ rate
      → IsPaid now let_in counter
      → IsPaid now
          (if leb (counter.count + options.tokens) limit then let_in + options.tokens else let_in)
          (next_counter options counter)
  IsPaid-next now let_in options counter p q h =
      elim (Bool-cases (leb (counter.count + options.tokens) limit)) [
        | inl e ↦ rw p (
            rw (over_limit-eq (counter.count + options.tokens)) (
              rw e (
                rw q (record {
                  paid = omega (arith, h.paid);
                  within = omega (arith, h.within);
                  few = leb→le (counter.count + options.tokens) limit e;
                }))))
        | inr e ↦ rw p (rw (over_limit-eq (counter.count + options.tokens)) (rw e h))
      ]

  Paid-next :
      (now let_in : ℕ) (options : WindowOptions) (s : LimiterStore)
      → options.key ≡ key
      → options.limit ≡ some limit
      → options.refill_rate_millis ≡ rate
      → Paid now let_in s
      → Paid now
          (if leb (fixed_window options now s).0.0 limit then let_in + options.tokens else let_in)
          (fixed_window options now s).1
  unfolding fixed_window
  Paid-next now let_in options s k p q h later le = rw k (
      rw (get-set s.fixed_counters key key) (
        rw (beq_self key) (
          IsPaid-mono now _ later _
            (IsPaid-next now let_in options (current_counter now (get key s.fixed_counters)) p q
              (h now (omega arith)))
            le)))

  Paid-let_through :
      (begin let_in : ℕ) (calls : List (ℕ × Call)) (s : LimiterStore)
      → IsStore s
      → InOrder begin calls
      → Configured key limit rate calls
      → Paid begin let_in s
      → rate * (let_in + let_through key limit calls s) + start
        ≤ last_moment begin calls + rate * limit
  unfolding let_through fixed_window token_bucket sweep_at
  Paid-let_through begin let_in [] s ok order same h =
      let now = h begin (omega arith) in
      omega (arith, now.paid, now.within, mul_mono rate _ limit now.few)
  Paid-let_through begin let_in ((now, sweep) ∷ calls) s ok order same h =
      Paid-let_through now let_in calls (sweep_at now s).1 (after_call-IsStore now sweep s ok)
        order.1 same
        (λ later le. rw (get-retain (window_lives now) s.fixed_counters key ok.windows) (
          rw (current-keep_if now later (get key s.fixed_counters) le)
            (h later (omega (arith, order.0)))))
  Paid-let_through begin let_in ((now, bucket options) ∷ calls) s ok order same h =
      Paid-let_through now let_in calls (token_bucket options now s).1
        (after_call-IsStore now (bucket options) s ok) order.1 same
        (λ later le. h later (omega (arith, order.0)))
  Paid-let_through begin let_in ((now, window options) ∷ calls) s ok order same h =
      elim (Bool-cases (options.key == key)) [
        | inl own ↦
            let k = (text_eq_iff options.key key).0 own in
            let (p, q) = same.0 k in
            rw own (
              counted_sum rate let_in options.tokens _ start _
                (leb (fixed_window options now s).0.0 limit)
                (Paid-let_through now _ calls (after_call now (window options) s)
                  (after_call-IsStore now (window options) s ok) order.1 same.1
                  (Paid-next now let_in options s k p q
                    (λ later le. h later (omega (arith, order.0))))))
        | inr other ↦ rw other (
            Paid-let_through now let_in calls (after_call now (window options) s)
              (after_call-IsStore now (window options) s ok) order.1 same.1
              (λ later le.
                rw (get-set s.fixed_counters options.key key _)
                  (rw other (h later (omega (arith, order.0))))))
      ]

-- From an empty store, where the clock does not go back and every request under the key asks for
-- the same positive limit and the same interval: whatever requests and sweeps there are in between,
-- the tokens of the requests whose count came back within the limit, times the interval, are at
-- most the time that has passed plus one limit's worth of intervals.
pub let_through_bounded :
    (key : Text) (limit rate start : ℕ) (calls : List (ℕ × Call))
    → limit ≢ 0
    → InOrder start calls
    → Configured key limit rate calls
    → rate * let_through key limit calls empty_store + start
      ≤ last_moment start calls + rate * limit
unfolding get
let_through_bounded key limit rate start calls positive order same = omega (
  arith,
  Paid-let_through key limit rate positive start start 0 calls empty_store empty_store-IsStore order
      same (λ later le. record { paid = omega arith; within = omega arith; few = omega arith }),
)
