-- ===== src/RateLimiter.antt =====
-- src/internal/rateLimiterStore.ts: the windows and the buckets of the store, and its sweep. An
-- operation is a function of the clock's reading, since it reads the clock once and runs to its
-- end. Durations are whole milliseconds, and the interval of a bucket is positive.
pub mod Windows
pub mod Eviction
pub mod Buckets
mod Counting
mod Tests
use effect_auth.Prelude.{
  ℕ, ◌≤◌, ◌+◌, ◌-◌, ◌*◌, ◌/◌, Bool, true, false, not, ◌&&◌, ◌||◌, Option, none, some, List, [], ◌∷◌,
  Text, text_eq, nat_eq, ltb, leb, ◌==◌, length, if◌then◌else◌,
}
use effect_auth.Prelude.Maps.{Map, get, set, retain}
use effect_auth.Prelude.Int.{ℤ, pos, negsuc, ◌+ℤ◌, ◌-ℤ◌, ◌*ℤ◌, leb_ℤ, min_ℤ}

pub record FixedCounter : Type 0 where
  pub count : ℕ
  pub expires_at : ℕ

-- A bucket in debt holds a negative number of tokens.
pub record TokenBucket : Type 0 where
  pub tokens : ℤ
  pub last_refill : ℕ
  pub expires_at : ℤ

pub data AdaptivePhase : Type 0 where
  inactive cooldown learning learned : AdaptivePhase

pub record AdaptiveState : Type 0 where
  pub phase : AdaptivePhase
  pub epoch : ℕ
  pub cooldown_until : ℕ
  pub learning_started_at : ℕ
  pub observed_tokens : ℕ
  pub learned_limit : ℕ
  pub learned_window_millis : ℕ
  pub expires_at : ℕ

-- The three maps of `make`.
pub record LimiterStore : Type 0 where
  pub fixed_counters : Map FixedCounter
  pub token_buckets : Map TokenBucket
  pub adaptive_states : Map AdaptiveState

abbrev pub empty_store : LimiterStore
empty_store = record { fixed_counters = []; token_buckets = []; adaptive_states = [] }

pub record WindowOptions : Type 0 where
  pub key : Text
  pub tokens : ℕ
  pub refill_rate_millis : ℕ
  pub limit : Option ℕ

-- The counter in force: the stored one, or a new one where there is none or it has expired.
abbrev pub current_counter : ℕ → Option FixedCounter → FixedCounter
current_counter now none = record { count = 0; expires_at = now }
current_counter now (some counter) =
    if leb counter.expires_at now then record { count = 0; expires_at = now } else counter

-- A limit of zero is no limit.
abbrev pub over_limit : Option ℕ → ℕ → Bool
over_limit none wanted = false
over_limit (some limit) wanted = not (limit == 0) && ltb limit wanted

abbrev pub spent : WindowOptions → FixedCounter → FixedCounter
spent options counter = record {
  count = counter.count + options.tokens;
  expires_at = counter.expires_at + options.refill_rate_millis * options.tokens;
}

abbrev pub next_counter : WindowOptions → FixedCounter → FixedCounter
next_counter options counter =
    if over_limit options.limit (counter.count + options.tokens)
    then counter
    else spent options counter

-- The count that the request asked for and the time to live, which is not negative: a counter in
-- force does not expire before now.
unfoldable pub fixed_window : WindowOptions → ℕ → LimiterStore → (ℕ × ℕ) × LimiterStore
fixed_window options now s =
    let counter = current_counter now (get options.key s.fixed_counters) in
    let next = next_counter options counter in
    (
      (counter.count + options.tokens, next.expires_at - now),
      record s { fixed_counters = set options.key next s.fixed_counters },
    )

pub record BucketOptions : Type 0 where
  pub key : Text
  pub tokens : ℕ
  pub limit : ℕ
  pub refill_rate_millis : ℕ
  pub allow_overflow : Bool

-- A clock that went back gives a negative number of intervals in the code and none here; neither
-- adds a token.
abbrev pub tokens_to_add : BucketOptions → ℕ → TokenBucket → ℕ
tokens_to_add options now bucket = (now - bucket.last_refill) / options.refill_rate_millis

abbrev pub refilled : BucketOptions → ℕ → Option TokenBucket → TokenBucket
refilled options now none = record {
  tokens = pos options.limit;
  last_refill = now;
  expires_at = pos now;
}
refilled options now (some bucket) =
    let added = tokens_to_add options now bucket in
    if ltb 0 added
    then record bucket {
      tokens = min_ℤ (pos options.limit) (bucket.tokens +ℤ pos added);
      last_refill = bucket.last_refill + added * options.refill_rate_millis;
    }
    else bucket

abbrev pub drained : BucketOptions → TokenBucket → TokenBucket
drained options bucket =
    let left = bucket.tokens -ℤ pos options.tokens in
    if options.allow_overflow || leb_ℤ (pos 0) left then record bucket { tokens = left } else bucket

-- When the bucket will be full.
abbrev pub with_expiry : BucketOptions → TokenBucket → TokenBucket
with_expiry options bucket = record bucket {
  expires_at =
      pos bucket.last_refill +ℤ (pos options.limit -ℤ bucket.tokens) *ℤ options.refill_rate_millis;
}

unfoldable pub token_bucket : BucketOptions → ℕ → LimiterStore → ℤ × LimiterStore
token_bucket options now s =
    let bucket = refilled options now (get options.key s.token_buckets) in
    (
      bucket.tokens -ℤ pos options.tokens,
      record s {
        token_buckets =
            set options.key (with_expiry options (drained options bucket)) s.token_buckets;
      },
    )

abbrev pub window_lives : ℕ → FixedCounter → Bool
window_lives now counter = not (leb counter.expires_at now)

abbrev pub bucket_lives : ℕ → TokenBucket → Bool
bucket_lives now bucket = not (leb_ℤ bucket.expires_at (pos now))

abbrev pub adaptive_lives : ℕ → AdaptiveState → Bool
adaptive_lives now state = not (leb state.expires_at now)

-- `sweepAt`: the entries that are left, and how many went.
unfoldable pub sweep_at : ℕ → LimiterStore → ℕ × LimiterStore
sweep_at now s =
    let (windows, windows_gone) = retain (window_lives now) s.fixed_counters in
    let (buckets, buckets_gone) = retain (bucket_lives now) s.token_buckets in
    let (states, states_gone) = retain (adaptive_lives now) s.adaptive_states in
    (
      windows_gone + buckets_gone + states_gone,
      record { fixed_counters = windows; token_buckets = buckets; adaptive_states = states },
    )

unfoldable pub size : LimiterStore → ℕ
size s = length s.fixed_counters + length s.token_buckets + length s.adaptive_states

-- What happens to a store in the life of a process, each with the reading of the clock.
pub data Call : Type 0 where
  window : WindowOptions → Call
  bucket : BucketOptions → Call
  sweep : Call

abbrev pub after_call : ℕ → Call → LimiterStore → LimiterStore
after_call now (window options) s = (fixed_window options now s).1
after_call now (bucket options) s = (token_bucket options now s).1
after_call now sweep s = (sweep_at now s).1

-- The readings of the clock never go back.
abbrev pub InOrder : ℕ → List (ℕ × Call) → Type 0
InOrder start [] = Unit
InOrder start ((now, call) ∷ calls) = (start ≤ now) × InOrder now calls

abbrev pub last_moment : ℕ → List (ℕ × Call) → ℕ
last_moment start [] = start
last_moment start ((now, call) ∷ calls) = last_moment now calls
