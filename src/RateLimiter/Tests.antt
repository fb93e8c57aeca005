-- ===== src/RateLimiter/Tests.antt =====
-- The rate limiter's theorems at concrete requests.
use effect_auth.Prelude.{
  ℕ, ◌+◌, ◌*◌, ◌≤◌, ◌≡◌, refl, false, none, some, List, [], ◌∷◌, arith, codes, text_beq,
}
use effect_auth.Prelude.Maps.{get, set, retain, keep_if}
use effect_auth.Prelude.Int.{pos, negsuc, ◌-ℤ◌, ◌+ℤ◌, ◌*ℤ◌}
use effect_auth.RateLimiter.{
  WindowOptions, BucketOptions, LimiterStore, Call, window, bucket, sweep, empty_store,
  fixed_window, token_bucket, sweep_at, size, InOrder, window_lives, bucket_lives, adaptive_lives,
}
use effect_auth.RateLimiter.Eviction.{
  window_replies, without_sweeps, window_replies-without_sweeps, sweep_at_exact,
  empty_store-IsStore, after_call-IsStore,
}
use effect_auth.RateLimiter.Windows.{let_through, let_through_bounded}
use effect_auth.RateLimiter.Buckets.{given_out, given_out_bounded, FitsBucket}

abbrev of_alice : WindowOptions
of_alice = record { key = codes "alice"; tokens = 2; refill_rate_millis = 1000; limit = some 3 }

abbrev of_bob : WindowOptions
of_bob = record { key = codes "bob"; tokens = 1; refill_rate_millis = 500; limit = none }

abbrev alice_bucket : BucketOptions
alice_bucket = record {
  key = codes "alice";
  tokens = 2;
  limit = 3;
  refill_rate_millis = 1000;
  allow_overflow = false;
}

abbrev day : List (ℕ × Call)
day =
    (5, window of_alice)
    ∷ (6, window of_alice)
    ∷ (7, window of_bob)
    ∷ (8, bucket alice_bucket)
    ∷ (9, bucket alice_bucket)
    ∷ (4000, sweep)
    ∷ (4001, window of_alice)
    ∷ (4002, bucket alice_bucket)
    ∷ []

day-InOrder : InOrder 0 day
day-InOrder = (
  omega arith,
  (
    omega arith,
    (omega arith, (omega arith, (omega arith, (omega arith, (omega arith, (omega arith, tt)))))),
  ),
)

answers : window_replies day empty_store ≡ (2, 2000) ∷ (4, 1999) ∷ (1, 500) ∷ (2, 2000) ∷ []
unfolding window_replies fixed_window token_bucket sweep_at get set retain text_beq
answers = refl

debt : (token_bucket alice_bucket 9 (token_bucket alice_bucket 8 empty_store).1).0 ≡ negsuc 0
unfolding token_bucket ◌-ℤ◌ text_beq get set
debt = refl

abbrev one_a_second : BucketOptions
one_a_second = record alice_bucket { tokens = 1; limit = 1 }

-- A bucket that is rebuilt counts its intervals from then: the third request is refused where the
-- bucket that was kept through its full time would have served it.
kept_phase :
    (token_bucket one_a_second 2100
      (token_bucket one_a_second 1500 (token_bucket one_a_second 0 empty_store).1).1).0
    ≡ pos 0
unfolding token_bucket ◌-ℤ◌ ◌+ℤ◌ ◌*ℤ◌ text_beq get set
kept_phase = refl

swept_phase :
    (token_bucket one_a_second 2100
      (token_bucket one_a_second 1500
        (sweep_at 1500 (token_bucket one_a_second 0 empty_store).1).1).1).0
    ≡ negsuc 0
unfolding token_bucket sweep_at ◌-ℤ◌ ◌+ℤ◌ ◌*ℤ◌ text_beq get set retain
swept_phase = refl

window_replies-without_sweeps_example :
    window_replies day empty_store ≡ window_replies (without_sweeps day) empty_store
window_replies-without_sweeps_example =
    window_replies-without_sweeps 0 day empty_store empty_store-IsStore day-InOrder

let_through_bounded_example :
    1000 * let_through (codes "alice") 3 day empty_store + 0 ≤ 4002 + 1000 * 3
let_through_bounded_example =
    let_through_bounded (codes "alice") 3 1000 0 day (λ e. absurd (omega (arith, e))) day-InOrder
      ((λ _. (refl, refl)), ((λ _. (refl, refl)), ((λ e. absurd cc), ((λ _. (refl, refl)), tt))))

given_out_bounded_example : 1000 * given_out (codes "alice") day empty_store + 0 ≤ 4002 + 1000 * 3
given_out_bounded_example =
    given_out_bounded (codes "alice") 3 1000 0 day (λ e. absurd (omega (arith, e))) day-InOrder
      (always, (always, (always, tt)))
  where
    always : codes "alice" ≡ codes "alice" → FitsBucket 3 1000 alice_bucket
    always _ = record { same_limit = refl; same_rate = refl; no_debt = refl }

abbrev used : LimiterStore
used = (fixed_window of_alice 5 empty_store).1

swept_store :
    ((key : List ℕ)
      → get key (sweep_at 4000 used).1.fixed_counters
        ≡ keep_if (window_lives 4000) (get key used.fixed_counters))
    × ((key : List ℕ)
        → get key (sweep_at 4000 used).1.token_buckets
          ≡ keep_if (bucket_lives 4000) (get key used.token_buckets))
    × ((key : List ℕ)
        → get key (sweep_at 4000 used).1.adaptive_states
          ≡ keep_if (adaptive_lives 4000) (get key used.adaptive_states))
    × (size (sweep_at 4000 used).1 + (sweep_at 4000 used).0 ≡ size used)
swept_store =
    sweep_at_exact 4000 used
      (after_call-IsStore 5 (window of_alice) empty_store empty_store-IsStore)
