-- ===== src/Assurance/Level.antt =====
-- What the derived level says of the log, whatever its order.
use effect_auth.Prelude.{
  ℕ, ◌≤◌, ◌≡◌, refl, ap, ◌≢◌, ◌↔◌, ◌⊎◌, inl, inr, Bool, true, not, some, List, [], ◌∷◌, ◌++◌, Memᴰ,
  map, arith, ◌==◌, leb, length, any, set_from, Bool-cases, any_sound, any_complete, memᴰ_of_filter,
  memᴰ-filter, memᴰ-append-left, length-set_from, ne_of_beq, subst, if◌then◌else◌,
}
use effect_auth.Assurance.{
  Aal, aal0, aal1, aal2, AuthenticationFactor, no_factor, AuthenticationMethod, factor_eq, is_live,
  live, is_multi_factor_ceremony, level_of, derive_aal,
}

abbrev differs : AuthenticationFactor → AuthenticationMethod → Bool
differs f entry = not (f == entry.factor)

abbrev factor : AuthenticationMethod → AuthenticationFactor
factor entry = entry.factor

-- The set of factors grows past one element exactly if some later factor differs from the first.
factors_from :
    (f : AuthenticationFactor) (rest : List AuthenticationMethod)
    → leb 2 (length (set_from (f ∷ []) (map factor rest))) ≡ any (differs f) rest
factors_from f [] = refl
factors_from f (e ∷ rest) =
    ground (arith, factors_from f rest, length-set_from (f ∷ e.factor ∷ []) (map factor rest))

level_of-cons :
    (e : AuthenticationMethod) (rest : List AuthenticationMethod)
    → level_of (e ∷ rest) ≡ (
        if any is_multi_factor_ceremony (e ∷ rest)
        then aal2
        else if any (differs e.factor) rest
        then aal2
        else aal1)
unfolding level_of
level_of-cons e rest = ground (arith, factors_from e.factor rest)

-- An entry that counts, and two that prove different kinds of thing.
abbrev pub IsLive : AuthenticationMethod → Type 0
IsLive e = e.factor ≢ no_factor

abbrev pub HasCeremony : List AuthenticationMethod → Type 0
HasCeremony ms = (e : AuthenticationMethod) × Memᴰ e ms × IsLive e × (e.user_verified ≡ some true)

abbrev pub HasTwoFactors : List AuthenticationMethod → Type 0
HasTwoFactors ms =
    (a : AuthenticationMethod) × (b : AuthenticationMethod) × Memᴰ a ms
    × Memᴰ b ms
    × IsLive a
    × IsLive b
    × (a.factor ≢ b.factor)

is_live_iff : (e : AuthenticationMethod) → (is_live e ≡ true) ↔ IsLive e
is_live_iff e = ground (arith, factor_eq.test_iff e.factor no_factor)

pub memᴰ-live :
    (ms : List AuthenticationMethod) (e : AuthenticationMethod)
    → Memᴰ e (live ms) ↔ (Memᴰ e ms × IsLive e)
unfolding live
memᴰ-live ms e = (
  (λ m. let (o, l) = memᴰ_of_filter is_live ms e m in (o, (is_live_iff e).0 l)),
  (λ m. memᴰ-filter is_live ms e m.0 ((is_live_iff e).1 m.1)),
)

ceremony_true :
    (e : AuthenticationMethod) → is_multi_factor_ceremony e ≡ true → e.user_verified ≡ some true
ceremony_true e h = ground arith

aal2_cases :
    (cs : List AuthenticationMethod)
    → level_of cs ≡ aal2
    → (any is_multi_factor_ceremony cs ≡ true)
      ⊎ ((a : AuthenticationMethod) × (b : AuthenticationMethod) × Memᴰ a cs
          × Memᴰ b cs
          × (a.factor ≢ b.factor))
unfolding level_of
aal2_cases [] h = absurd (cc)
aal2_cases (e ∷ rest) h = elim (Bool-cases (any is_multi_factor_ceremony (e ∷ rest))) [
  | inl p ↦ inl p
  | inr p ↦
      let differ : any (differs e.factor) rest ≡ true = ground (arith, level_of-cons e rest) in
      let (b, m, d) = any_sound (differs e.factor) rest differ in
      inr (e, b, Memᴰ.head refl, Memᴰ.tail m, ground (arith, factor_eq.test_iff e.factor b.factor))
]

aal2_of_ceremony :
    (cs : List AuthenticationMethod) (e : AuthenticationMethod)
    → Memᴰ e cs
    → e.user_verified ≡ some true
    → level_of cs ≡ aal2
unfolding level_of
aal2_of_ceremony [] e m v = elim m [ ]
aal2_of_ceremony (c ∷ cs) e m v =
    rw (any_complete is_multi_factor_ceremony (c ∷ cs) e m (rw v)) refl

differs_some :
    (f : AuthenticationFactor) (rest : List AuthenticationMethod) (a : AuthenticationMethod)
    → Memᴰ a rest
    → f ≢ a.factor
    → any (differs f) rest ≡ true
differs_some f rest a m d =
    any_complete (differs f) rest a m (ground (arith, factor_eq.test_iff f a.factor))

-- One of two entries with different factors differs from the first of the list.
differs_first :
    (c : AuthenticationMethod) (cs : List AuthenticationMethod) (a b : AuthenticationMethod)
    → Memᴰ a (c ∷ cs)
    → Memᴰ b (c ∷ cs)
    → a.factor ≢ b.factor
    → any (differs c.factor) cs ≡ true
differs_first c cs a b (Memᴰ.head p) (Memᴰ.head q) d = absurd (d (cc))
differs_first c cs a b (Memᴰ.head p) (Memᴰ.tail n) d = differs_some c.factor cs b n (λ e. d (cc))
differs_first c cs a b (Memᴰ.tail m) (Memᴰ.head q) d = differs_some c.factor cs a m (λ e. d (cc))
differs_first c cs a b (Memᴰ.tail m) (Memᴰ.tail n) d = elim (Bool-cases (c.factor == a.factor)) [
  | inl same ↦ differs_some c.factor cs b n (λ e. d (cc ((factor_eq.test_iff _ _).0 same)))
  | inr new ↦ any_complete (differs c.factor) cs a m (rw new)
]

aal2_of_factors :
    (cs : List AuthenticationMethod) (a b : AuthenticationMethod)
    → Memᴰ a cs
    → Memᴰ b cs
    → a.factor ≢ b.factor
    → level_of cs ≡ aal2
aal2_of_factors [] a b m n d = elim m [ ]
aal2_of_factors (c ∷ cs) a b m n d =
    ground (arith, level_of-cons c cs, differs_first c cs a b m n d)

-- Whatever the order of the log, the level is aal2 exactly when some live entry reports user
-- verification or two live entries prove factors of different kinds.
pub derive_aal-eq-aal2 :
    (ms : List AuthenticationMethod) → (derive_aal ms ≡ aal2) ↔ (HasCeremony ms ⊎ HasTwoFactors ms)
unfolding derive_aal
derive_aal-eq-aal2 ms = (
  (λ h. elim (aal2_cases (live ms) h) [
    | inl c ↦
        let (e, m, v) = any_sound is_multi_factor_ceremony (live ms) c in
        let (o, l) = (memᴰ-live ms e).0 m in inl (e, o, l, ceremony_true e v)
    | inr (a, b, ma, mb, d) ↦
        let (oa, la) = (memᴰ-live ms a).0 ma in
        let (ob, lb) = (memᴰ-live ms b).0 mb in inr (a, b, oa, ob, la, lb, d)
  ]),
  (λ h. elim h [
    | inl (e, m, l, v) ↦ aal2_of_ceremony (live ms) e ((memᴰ-live ms e).1 (m, l)) v
    | inr (a, b, ma, mb, la, lb, d) ↦
        aal2_of_factors (live ms) a b ((memᴰ-live ms a).1 (ma, la)) ((memᴰ-live ms b).1 (mb, lb)) d
  ]),
)

level_of-eq-aal0 : (cs : List AuthenticationMethod) → level_of cs ≡ aal0 → cs ≡ []
unfolding level_of
level_of-eq-aal0 [] h = refl
level_of-eq-aal0 (c ∷ cs) h = ground (arith, level_of-cons c cs)

-- The level is aal0 exactly when no entry of the log proves anything.
pub derive_aal-eq-aal0 :
    (ms : List AuthenticationMethod)
    → (derive_aal ms ≡ aal0) ↔ ((e : AuthenticationMethod) → Memᴰ e ms → e.factor ≡ no_factor)
unfolding derive_aal
derive_aal-eq-aal0 ms = (
  (λ h e m. elim (Bool-cases (e.factor == no_factor)) [
    | inl same ↦ (factor_eq.test_iff e.factor no_factor).0 same
    | inr new ↦
        absurd
          (empty_list (level_of-eq-aal0 (live ms) h) ((memᴰ-live ms e).1 (m, ne_of_beq _ _ new)))
  ]),
  (λ none_live.
      ap level_of
        (no_live (live ms) (λ e m. let (o, l) = (memᴰ-live ms e).0 m in l (none_live e o)))),
)
  where
    empty_list : {e : AuthenticationMethod} → live ms ≡ [] → Memᴰ e (live ms) → ⊥
    empty_list {e} q m = nothing (subst (λ l. Memᴰ e l) q m)
      where
        nothing : Memᴰ e [] → ⊥
        nothing o = elim o [ ]

    no_live :
        (cs : List AuthenticationMethod) → ((e : AuthenticationMethod) → Memᴰ e cs → ⊥) → cs ≡ []
    no_live [] none_in = refl
    no_live (c ∷ cs) none_in = absurd (none_in c (Memᴰ.head refl))

-- `rankOf` of src/domain/Sessions.ts
abbrev pub rank_of : Aal → ℕ
rank_of aal0 = 0
rank_of aal1 = 1
rank_of aal2 = 2

HasCeremony-append : (ms ns : List AuthenticationMethod) → HasCeremony ms → HasCeremony (ms ++ ns)
HasCeremony-append ms ns (e, m, l, v) = (e, memᴰ-append-left ns m, l, v)

HasTwoFactors-append :
    (ms ns : List AuthenticationMethod) → HasTwoFactors ms → HasTwoFactors (ms ++ ns)
HasTwoFactors-append ms ns (a, b, m, n, la, lb, d) =
    (a, b, memᴰ-append-left ns m, memᴰ-append-left ns n, la, lb, d)

aal2-append :
    (ms ns : List AuthenticationMethod) → derive_aal ms ≡ aal2 → derive_aal (ms ++ ns) ≡ aal2
aal2-append ms ns h = (derive_aal-eq-aal2 (ms ++ ns)).1 (elim ((derive_aal-eq-aal2 ms).0 h) [
  | inl c ↦ inl (HasCeremony-append ms ns c)
  | inr t ↦ inr (HasTwoFactors-append ms ns t)
])

aal0-append :
    (ms ns : List AuthenticationMethod) → derive_aal (ms ++ ns) ≡ aal0 → derive_aal ms ≡ aal0
aal0-append ms ns h =
    (derive_aal-eq-aal0 ms).1 (λ e m. (derive_aal-eq-aal0 (ms ++ ns)).0 h e (memᴰ-append-left ns m))

rank_le : (a b : Aal) → (a ≡ aal2 → b ≡ aal2) → (b ≡ aal0 → a ≡ aal0) → rank_of a ≤ rank_of b
rank_le aal0 _ h k = omega arith
rank_le aal1 aal0 h k = cc (k refl)
rank_le aal1 aal1 h k = omega arith
rank_le aal1 aal2 h k = omega arith
rank_le aal2 b h k = rw (h refl) (omega arith)

-- More evidence at the end of the log never lowers the level.
pub derive_aal_mono :
    (ms ns : List AuthenticationMethod) → rank_of (derive_aal ms) ≤ rank_of (derive_aal (ms ++ ns))
derive_aal_mono ms ns = rank_le _ _ (aal2-append ms ns) (aal0-append ms ns)
