-- ===== src/RateLimiter/Eviction.antt =====
-- What a sweep does to the answers of the fixed windows: nothing.
use effect_auth.Prelude.{
  ℕ, ◌+◌, ◌-◌, ◌≤◌, ◌≡◌, refl, ap, ◌∙◌, inl, inr, Option, none, some, List, [], ◌∷◌, Text, text_eq,
  arith, ◌==◌, Bool-cases, if◌then◌else◌,
}
use effect_auth.Prelude.Maps.{
  get, keep_if, IsMap, get-set, set-IsMap, get-retain, retain-IsMap, length-retain,
}
use effect_auth.RateLimiter.{
  FixedCounter, LimiterStore, WindowOptions, Call, window, bucket, sweep, current_counter,
  next_counter, fixed_window, token_bucket, sweep_at, size, window_lives, bucket_lives,
  adaptive_lives, empty_store, after_call, InOrder,
}

-- The maps that iteration visits once per key.
pub record IsStore (s : LimiterStore) : Type 0 where
  pub windows : IsMap s.fixed_counters
  pub buckets : IsMap s.token_buckets
  pub states : IsMap s.adaptive_states

pub after_call-IsStore :
    (now : ℕ) (call : Call) (s : LimiterStore) → IsStore s → IsStore (after_call now call s)
unfolding fixed_window token_bucket sweep_at
after_call-IsStore now (window options) s h = record {
  windows = set-IsMap s.fixed_counters _ _ h.windows;
  buckets = h.buckets;
  states = h.states;
}
after_call-IsStore now (bucket options) s h = record {
  windows = h.windows;
  buckets = set-IsMap s.token_buckets _ _ h.buckets;
  states = h.states;
}
after_call-IsStore now sweep s h = record {
  windows = retain-IsMap (window_lives now) s.fixed_counters h.windows;
  buckets = retain-IsMap (bucket_lives now) s.token_buckets h.buckets;
  states = retain-IsMap (adaptive_lives now) s.adaptive_states h.states;
}

pub empty_store-IsStore : IsStore empty_store
empty_store-IsStore = record { windows = tt; buckets = tt; states = tt }

-- What the windows of a store answer, call by call.
unfoldable pub window_replies : List (ℕ × Call) → LimiterStore → List (ℕ × ℕ)
window_replies [] s = []
window_replies ((now, window options) ∷ calls) s =
    (fixed_window options now s).0 ∷ window_replies calls (fixed_window options now s).1
window_replies ((now, bucket options) ∷ calls) s =
    window_replies calls (token_bucket options now s).1
window_replies ((now, sweep) ∷ calls) s = window_replies calls (sweep_at now s).1

unfoldable pub without_sweeps : List (ℕ × Call) → List (ℕ × Call)
without_sweeps [] = []
without_sweeps ((now, sweep) ∷ calls) = without_sweeps calls
without_sweeps ((now, window options) ∷ calls) = (now, window options) ∷ without_sweeps calls
without_sweeps ((now, bucket options) ∷ calls) = (now, bucket options) ∷ without_sweeps calls

-- The counter under a key, as a request at `now` sees it.
abbrev seen : ℕ → Text → LimiterStore → FixedCounter
seen now key s = current_counter now (get key s.fixed_counters)

-- Two stores that a later request cannot tell apart by its window.
abbrev LooksAlike : ℕ → LimiterStore → LimiterStore → Type 0
LooksAlike start s t = (now : ℕ) (key : Text) → start ≤ now → seen now key s ≡ seen now key t

pub current-keep_if :
    (swept now : ℕ) (counter : Option FixedCounter)
    → swept ≤ now
    → current_counter now (keep_if (window_lives swept) counter) ≡ current_counter now counter
current-keep_if swept now none le = refl
current-keep_if swept now (some counter) le = ground arith

LooksAlike-sweep :
    (start now : ℕ) (s t : LimiterStore)
    → IsStore s
    → start ≤ now
    → LooksAlike start s t
    → LooksAlike now (sweep_at now s).1 t
unfolding sweep_at
LooksAlike-sweep start now s t h le same later key after_now =
    rw (get-retain (window_lives now) s.fixed_counters key h.windows) (
      current-keep_if now later (get key s.fixed_counters) after_now ∙ same later key (omega arith))

LooksAlike-window :
    (start now : ℕ) (options : WindowOptions) (s t : LimiterStore)
    → start ≤ now
    → LooksAlike start s t
    → ((fixed_window options now s).0 ≡ (fixed_window options now t).0)
      × LooksAlike now (fixed_window options now s).1 (fixed_window options now t).1
unfolding fixed_window
LooksAlike-window start now options s t le same =
    let counters = same now options.key le in
    (
      ap (λ c. (c.count + options.tokens, (next_counter options c).expires_at - now)) counters,
      λ later key after_now. rw (get-set s.fixed_counters options.key key _) (
          rw (get-set t.fixed_counters options.key key _)
            (agree later key (ap (next_counter options) counters) (same later key (omega arith)))),
    )
  where
    agree :
        (later : ℕ) (key : Text) {c d : FixedCounter}
        → c ≡ d
        → seen later key s ≡ seen later key t
        → current_counter later (if options.key == key then some c else get key s.fixed_counters)
          ≡ current_counter later (if options.key == key then some d else get key t.fixed_counters)
    agree later key p q = elim (Bool-cases (options.key == key)) [
      | inl e ↦ rw e (ap (λ c. current_counter later (some c)) p)
      | inr e ↦ rw e q
    ]

LooksAlike-replies :
    (start : ℕ) (calls : List (ℕ × Call)) (s t : LimiterStore)
    → IsStore s
    → InOrder start calls
    → LooksAlike start s t
    → window_replies calls s ≡ window_replies (without_sweeps calls) t
unfolding window_replies without_sweeps token_bucket
LooksAlike-replies start [] s t h order same = refl
LooksAlike-replies start ((now, sweep) ∷ calls) s t h order same =
    LooksAlike-replies now calls (sweep_at now s).1 t (after_call-IsStore now sweep s h) order.1
      (LooksAlike-sweep start now s t h order.0 same)
LooksAlike-replies start ((now, window options) ∷ calls) s t h order same =
    let step = LooksAlike-window start now options s t order.0 same in
    let rest =
      LooksAlike-replies now calls (after_call now (window options) s)
        (after_call now (window options) t) (after_call-IsStore now (window options) s h) order.1
        step.1 in
    cc (step.0, rest)
LooksAlike-replies start ((now, bucket options) ∷ calls) s t h order same =
    LooksAlike-replies now calls _ _ (after_call-IsStore now (bucket options) s h) order.1
      (λ later key le. same later key (omega (arith, order.0)))

-- Where the clock does not go back: whatever requests and sweeps reach a store whose maps hold each
-- key once, every request for a fixed window is answered, count and time to live, as a store that
-- is never swept answers it.
pub window_replies-without_sweeps :
    (start : ℕ) (calls : List (ℕ × Call)) (s : LimiterStore)
    → IsStore s
    → InOrder start calls
    → window_replies calls s ≡ window_replies (without_sweeps calls) s
window_replies-without_sweeps start calls s h order =
    LooksAlike-replies start calls s s h order (λ now key le. refl)

-- A sweep of a store whose maps hold each key once leaves of each map exactly the entries that have
-- not expired, under the keys and with the values they had, and reports by how many entries the
-- store is smaller.
pub sweep_at_exact :
    (now : ℕ) (s : LimiterStore)
    → IsStore s
    → ((key : Text)
        → get key (sweep_at now s).1.fixed_counters
          ≡ keep_if (window_lives now) (get key s.fixed_counters))
      × ((key : Text)
          → get key (sweep_at now s).1.token_buckets
            ≡ keep_if (bucket_lives now) (get key s.token_buckets))
      × ((key : Text)
          → get key (sweep_at now s).1.adaptive_states
            ≡ keep_if (adaptive_lives now) (get key s.adaptive_states))
      × (size (sweep_at now s).1 + (sweep_at now s).0 ≡ size s)
unfolding sweep_at size
sweep_at_exact now s h = (
  (λ key. get-retain (window_lives now) s.fixed_counters key h.windows),
  (λ key. get-retain (bucket_lives now) s.token_buckets key h.buckets),
  (λ key. get-retain (adaptive_lives now) s.adaptive_states key h.states),
  omega (
    arith,
    length-retain (window_lives now) s.fixed_counters,
    length-retain (bucket_lives now) s.token_buckets,
    length-retain (adaptive_lives now) s.adaptive_states,
  ),
)
