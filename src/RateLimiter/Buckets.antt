-- ===== src/RateLimiter/Buckets.antt =====
-- How much a token bucket gives out in time.
use effect_auth.Prelude.{
  ℕ, ◌+◌, ◌-◌, ◌*◌, ◌/◌, ◌≤◌, ◌≡◌, ◌≢◌, min, refl, ap, inl, inr, false, Option, none, some, List,
  [], ◌∷◌, Text, text_eq, text_eq_iff, arith, leb, ltb, leb→le, beq_self, ◌==◌, ◌&&◌, Bool-cases,
  if◌then◌else◌,
}
use native.Mathlib.Nat.{div-mul-le_self}
use effect_auth.Prelude.Maps.{get, get-set, get-retain, keep_if}
use effect_auth.Prelude.Int.{pos, ◌+ℤ◌, ◌-ℤ◌, ◌*ℤ◌, leb_ℤ, min_ℤ}
use effect_auth.RateLimiter.{
  TokenBucket, LimiterStore, BucketOptions, Call, window, bucket, sweep, empty_store, refilled,
  drained, with_expiry, fixed_window, token_bucket, sweep_at, bucket_lives, after_call, InOrder,
  last_moment,
}
use effect_auth.RateLimiter.Counting.{mul_mono, counted_sum, refill_pays}
use effect_auth.RateLimiter.Eviction.{IsStore, after_call-IsStore, empty_store-IsStore}

-- The tokens of the requests under the key that left the bucket out of debt.
unfoldable pub given_out : Text → List (ℕ × Call) → LimiterStore → ℕ
given_out key [] s = 0
given_out key ((now, bucket options) ∷ calls) s =
    let rest = given_out key calls (token_bucket options now s).1 in
    if options.key == key && leb_ℤ (pos 0) (token_bucket options now s).0
    then options.tokens + rest
    else rest
given_out key ((now, window options) ∷ calls) s = given_out key calls (fixed_window options now s).1
given_out key ((now, sweep) ∷ calls) s = given_out key calls (sweep_at now s).1

pub record FitsBucket (limit rate : ℕ) (options : BucketOptions) : Type 0 where
  pub same_limit : options.limit ≡ limit
  pub same_rate : options.refill_rate_millis ≡ rate
  pub no_debt : options.allow_overflow ≡ false

-- Every request under the key has this limit and this interval and may not run into debt.
abbrev pub SameBucket : Text → ℕ → ℕ → List (ℕ × Call) → Type 0
SameBucket key limit rate [] = Unit
SameBucket key limit rate ((now, bucket options) ∷ calls) =
    (options.key ≡ key → FitsBucket limit rate options) × SameBucket key limit rate calls
SameBucket key limit rate ((now, call) ∷ calls) = SameBucket key limit rate calls

leb_left : (held taken : ℕ) → leb_ℤ (pos 0) (pos held -ℤ pos taken) ≡ leb taken held
unfolding ◌-ℤ◌
leb_left held taken = ground arith

pos-sub : (held taken : ℕ) → taken ≤ held → pos held -ℤ pos taken ≡ pos (held - taken)
unfolding ◌-ℤ◌
pos-sub held taken le = ground arith

capped :
    (limit held added : ℕ)
    → min_ℤ (pos limit) (pos held +ℤ pos added) ≡ pos (min limit (held + added))
unfolding ◌+ℤ◌
capped limit held added = ground arith

module _ (key : Text) (limit rate : ℕ) (start : ℕ) where
  -- What has been given out is paid for by the time until the bucket is full.
  record IsHeld (now given : ℕ) (b : TokenBucket) : Type 0 where
    held : ℕ
    is_held : b.tokens ≡ pos held
    few : held ≤ limit
    past : b.last_refill ≤ now
    paid : rate * given + start ≤ b.last_refill + rate * (limit - held)

  abbrev Covered : ℕ → ℕ → Option TokenBucket → Type 0
  Covered now given none = rate * given + start ≤ now
  Covered now given (some b) =
      (h : IsHeld now given b) × (b.expires_at ≡ pos (b.last_refill + rate * (limit - h.held)))

  Covered-mono :
      (now given later : ℕ) (b : Option TokenBucket)
      → now ≤ later
      → Covered now given b
      → Covered later given b
  Covered-mono now given later none le h = omega arith
  Covered-mono now given later (some b) le (h, e) = (
    record {
      held = h.held;
      is_held = h.is_held;
      few = h.few;
      past = omega (arith, h.past);
      paid = h.paid;
    },
    e,
  )

  Covered-total :
      (now given : ℕ) (b : Option TokenBucket)
      → Covered now given b
      → rate * given + start ≤ now + rate * limit
  Covered-total now given none h = omega arith
  Covered-total now given (some b) (h, e) =
      omega (arith, h.paid, h.past, mul_mono rate (limit - h.held) limit (omega arith))

  Covered-keep_if :
      (now given : ℕ) (b : Option TokenBucket)
      → Covered now given b
      → Covered now given (keep_if (bucket_lives now) b)
  Covered-keep_if now given none h = h
  Covered-keep_if now given (some b) (h, e) = elim (Bool-cases (leb_ℤ b.expires_at (pos now))) [
    | inl gone ↦ rw gone (omega (arith, h.paid, leb→le _ _ (rw e at gone)))
    | inr here ↦ rw here (h, e)
  ]

  IsHeld-refilled :
      (now given : ℕ) (options : BucketOptions) (b : Option TokenBucket)
      → FitsBucket limit rate options
      → Covered now given b
      → IsHeld now given (refilled options now b)
  IsHeld-refilled now given options none f h = record {
    held = limit;
    is_held = ap pos f.same_limit;
    few = omega arith;
    past = omega arith;
    paid = omega arith;
  }
  IsHeld-refilled now given options (some b) f (h, e) = rw f.same_limit (
      rw f.same_rate (
        rw h.is_held (elim (Bool-cases (ltb 0 added)) [
          | inl more ↦ rw more (record {
            held = min limit (h.held + added);
            is_held = capped limit h.held added;
            few = omega arith;
            past = omega (arith, div-mul-le_self (now - b.last_refill) rate, h.past);
            paid = omega (arith, h.paid, refill_pays rate limit h.held added);
          })
          | inr idle ↦
              rw idle (record {
                held = h.held;
                is_held = refl;
                few = h.few;
                past = h.past;
                paid = h.paid;
              })
        ])))
    where
      added : ℕ
      added = (now - b.last_refill) / rate

  room :
      (held taken : ℕ) → taken ≤ held → held ≤ limit → limit - (held - taken) ≡ limit - held + taken
  room held taken le few = omega arith

  full_at :
      (held last : ℕ)
      → held ≤ limit
      → pos last +ℤ (pos limit -ℤ pos held) *ℤ rate ≡ pos (last + rate * (limit - held))
  unfolding ◌-ℤ◌ ◌+ℤ◌ ◌*ℤ◌
  full_at held last le = ground arith

  Covered-drained :
      (now given : ℕ) (options : BucketOptions) (b : TokenBucket)
      → FitsBucket limit rate options
      → IsHeld now given b
      → Covered now
          (if leb_ℤ (pos 0) (b.tokens -ℤ pos options.tokens) then given + options.tokens else given)
          (some (with_expiry options (drained options b)))
  Covered-drained now given options b f h = rw f.same_limit (
      rw f.same_rate (
        rw f.no_debt (
          rw h.is_held (elim (Bool-cases (leb options.tokens h.held)) [
            | inl e ↦
                let le = leb→le options.tokens h.held e in
                rw (leb_left h.held options.tokens) (
                  rw e (
                    rw (pos-sub h.held options.tokens le) (
                      record {
                        held = h.held - options.tokens;
                        is_held = refl;
                        few = omega (arith, h.few);
                        past = h.past;
                        paid = omega (
                          arith,
                          h.paid,
                          ap (λ n. rate * n) (room h.held options.tokens le h.few),
                        );
                      },
                      full_at (h.held - options.tokens) b.last_refill (omega (arith, h.few)),
                    )))
            | inr e ↦ rw (leb_left h.held options.tokens) (
                rw e (
                  record {
                    held = h.held;
                    is_held = refl;
                    few = h.few;
                    past = h.past;
                    paid = h.paid;
                  },
                  full_at h.held b.last_refill h.few,
                ))
          ]))))

  Covered-bucket :
      (now given : ℕ) (options : BucketOptions) (s : LimiterStore)
      → options.key ≡ key
      → FitsBucket limit rate options
      → Covered now given (get key s.token_buckets)
      → Covered now
          (if leb_ℤ (pos 0) (token_bucket options now s).0 then given + options.tokens else given)
          (get key (token_bucket options now s).1.token_buckets)
  unfolding token_bucket
  Covered-bucket now given options s k f h = rw k (
      rw (get-set s.token_buckets key key) (
        rw (beq_self key) (
          Covered-drained now given options (refilled options now (get key s.token_buckets)) f
            (IsHeld-refilled now given options (get key s.token_buckets) f h))))

  Covered-given_out :
      (begin given : ℕ) (calls : List (ℕ × Call)) (s : LimiterStore)
      → IsStore s
      → InOrder begin calls
      → SameBucket key limit rate calls
      → Covered begin given (get key s.token_buckets)
      → rate * (given + given_out key calls s) + start ≤ last_moment begin calls + rate * limit
  unfolding given_out fixed_window token_bucket sweep_at
  Covered-given_out begin given [] s ok order same h =
      omega (arith, Covered-total begin given (get key s.token_buckets) h)
  Covered-given_out begin given ((now, sweep) ∷ calls) s ok order same h =
      Covered-given_out now given calls (sweep_at now s).1 (after_call-IsStore now sweep s ok)
        order.1 same
        (rw (get-retain (bucket_lives now) s.token_buckets key ok.buckets)
          (Covered-keep_if now given _ (Covered-mono begin given now _ order.0 h)))
  Covered-given_out begin given ((now, window options) ∷ calls) s ok order same h =
      Covered-given_out now given calls (fixed_window options now s).1
        (after_call-IsStore now (window options) s ok) order.1 same
        (Covered-mono begin given now _ order.0 h)
  Covered-given_out begin given ((now, bucket options) ∷ calls) s ok order same h =
      let earlier = Covered-mono begin given now (get key s.token_buckets) order.0 h in
      elim (Bool-cases (options.key == key)) [
        | inl own ↦
            let k = (text_eq_iff options.key key).0 own in
            rw own (
              counted_sum rate given options.tokens _ start _
                (leb_ℤ (pos 0) (token_bucket options now s).0)
                (Covered-given_out now _ calls (after_call now (bucket options) s)
                  (after_call-IsStore now (bucket options) s ok) order.1 same.1
                  (Covered-bucket now given options s k (same.0 k) earlier)))
        | inr other ↦ rw other (
            Covered-given_out now given calls (after_call now (bucket options) s)
              (after_call-IsStore now (bucket options) s ok) order.1 same.1
              (rw (get-set s.token_buckets options.key key _) (rw other earlier)))
      ]

-- From an empty store, where the clock does not go back and every request under the key asks for
-- the same limit and the same positive interval and may not run into debt: whatever requests there
-- are in between, and whenever the store is swept, the tokens that the bucket gave, times the
-- interval, are at most the time that has passed plus one limit's worth of intervals.
pub given_out_bounded :
    (key : Text) (limit rate start : ℕ) (calls : List (ℕ × Call))
    → rate ≢ 0
    → InOrder start calls
    → SameBucket key limit rate calls
    → rate * given_out key calls empty_store + start ≤ last_moment start calls + rate * limit
unfolding get
given_out_bounded key limit rate start calls positive order same = omega (
  arith,
  Covered-given_out key limit rate start start 0 calls empty_store empty_store-IsStore order same
      (omega arith),
)
