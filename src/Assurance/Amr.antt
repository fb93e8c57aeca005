-- ===== src/Assurance/Amr.antt =====
-- What the `amr` claim values report.
use effect_auth.Prelude.{
  ◌≡◌, refl, sym, ◌↔◌, ◌⊎◌, inl, inr, true, List, [], ◌∷◌, Memᴰ, Text, text_eq, codes, arith,
  Bool-cases, set_from, memᴰ-set_from, memᴰ-set_add,
}
use effect_auth.Assurance.{
  aal2, AuthenticationMethod, live, derive_aal, amr_entries_of, amr_from, amr_of, is_aal2, Aal,
}
use effect_auth.Assurance.Level.{IsLive, memᴰ-live}

-- Some entry of the list reports the value.
abbrev Reports : Text → List AuthenticationMethod → Type 0
Reports v es = (e : AuthenticationMethod) × Memᴰ e es × Memᴰ v (amr_entries_of e)

memᴰ-amr_from :
    (values : List Text) (es : List AuthenticationMethod) (v : Text)
    → Memᴰ v (amr_from values es) ↔ (Memᴰ v values ⊎ Reports v es)
unfolding amr_from
memᴰ-amr_from values [] v = ((λ m. inl m), (λ m. elim m [ inl o ↦ o | inr (e, o, r) ↦ elim o [ ] ]))
memᴰ-amr_from values (e ∷ es) v = (
  (λ m. elim ((memᴰ-amr_from (set_from values (amr_entries_of e)) es v).0 m) [
    | inl o ↦ elim ((memᴰ-set_from values (amr_entries_of e) v).0 o) [
      | inl p ↦ inl p
      | inr q ↦ inr (e, Memᴰ.head refl, q)
    ]
    | inr (f, o, r) ↦ inr (f, Memᴰ.tail o, r)
  ]),
  (λ m. (memᴰ-amr_from (set_from values (amr_entries_of e)) es v).1 (elim m [
    | inl o ↦ inl ((memᴰ-set_from values (amr_entries_of e) v).1 (inl o))
    | inr (f, o, r) ↦ later f o r
  ])),
)
  where
    later :
        (f : AuthenticationMethod)
        → Memᴰ f (e ∷ es)
        → Memᴰ v (amr_entries_of f)
        → Memᴰ v (set_from values (amr_entries_of e)) ⊎ Reports v es
    later f (Memᴰ.head q) r =
        inl ((memᴰ-set_from values (amr_entries_of e) v).1 (inr (rw (sym q) r)))
    later f (Memᴰ.tail o) r = inr (f, o, r)

is_aal2_iff : (a : Aal) → (is_aal2 a ≡ true) ↔ (a ≡ aal2)
is_aal2_iff a = ground arith

-- A value is reported exactly when a live entry's method stands for it, or it is "mfa" and the
-- derived level is aal2.
pub memᴰ-amr_of :
    (ms : List AuthenticationMethod) (v : Text)
    → Memᴰ v (amr_of ms) ↔ (
        ((e : AuthenticationMethod) × Memᴰ e ms × IsLive e × Memᴰ v (amr_entries_of e))
        ⊎ ((v ≡ codes "mfa") × (derive_aal ms ≡ aal2)))
unfolding amr_of
memᴰ-amr_of ms v = (
  (λ m. elim (Bool-cases (is_aal2 (derive_aal ms))) [
    | inl top ↦ elim ((memᴰ-set_add (amr_from [] (live ms)) (codes "mfa") v).0 (rw top at m)) [
      | inl o ↦ inl (from_live o)
      | inr q ↦ inr (q, (is_aal2_iff _).0 top)
    ]
    | inr low ↦ inl (from_live (rw low at m))
  ]),
  (λ m. elim (Bool-cases (is_aal2 (derive_aal ms))) [
    | inl top ↦ rw top (
        (memᴰ-set_add (amr_from [] (live ms)) (codes "mfa") v).1
          (elim m [ inl (e, o, l, r) ↦ inl (to_live e o l r) | inr (q, h) ↦ inr q ]))
    | inr low ↦ rw low (elim m [
      | inl (e, o, l, r) ↦ to_live e o l r
      | inr (q, h) ↦ cc (low, (is_aal2_iff (derive_aal ms)).1 h)
    ])
  ]),
)
  where
    from_live :
        Memᴰ v (amr_from [] (live ms))
        → (e : AuthenticationMethod) × Memᴰ e ms × IsLive e × Memᴰ v (amr_entries_of e)
    from_live o = elim ((memᴰ-amr_from [] (live ms) v).0 o) [
      | inl p ↦ elim p [ ]
      | inr (e, p, r) ↦ let (q, l) = (memᴰ-live ms e).0 p in (e, q, l, r)
    ]

    to_live :
        (e : AuthenticationMethod)
        → Memᴰ e ms
        → IsLive e
        → Memᴰ v (amr_entries_of e)
        → Memᴰ v (amr_from [] (live ms))
    to_live e o l r = (memᴰ-amr_from [] (live ms) v).1 (inr (e, (memᴰ-live ms e).1 (o, l), r))
