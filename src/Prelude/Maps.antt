-- ===== src/Prelude/Maps.antt =====
-- JavaScript's `Map` with string keys: the list of its entries in the order of insertion.
use Prim.Native.Nat.{ℕ, suc, ◌+◌}
use mathlib.Core.Path.{◌≡◌, refl, ap, sym, ◌∙◌, subst}
use mathlib.Core.Logic.{inl, inr}
use mathlib.Core.Bool.{Bool}
use mathlib.Core.Option.{Option, none, some}
use mathlib.Core.List.{List, [], ◌∷◌}
use native.Mathlib.Omega.{arith}
use effect_auth.Prelude.Tests.{◌==◌, if◌then◌else◌, Bool-cases, beq_ne, ne_of_beq}
use effect_auth.Prelude.Lists.{length}
use effect_auth.Prelude.Strings.{Text, text_eq, text_eq_iff}

abbrev pub Map {ℓ} : Type ℓ → Type ℓ
Map V = List (Text × V)

abbrev pub keep_if {ℓ} : {V : Type ℓ} → (V → Bool) → Option V → Option V
keep_if p none = none
keep_if p (some v) = if p v then some v else none

module _ {ℓ} {V : Type ℓ} where
  unfoldable pub get : Text → Map V → Option V
  get k [] = none
  get k ((j, v) ∷ m) = let rest = get k m in if j == k then some v else rest

  -- `Map.set` writes an entry in its place, or at the end.
  unfoldable pub set : Text → V → Map V → Map V
  set k v [] = (k, v) ∷ []
  set k v ((j, u) ∷ m) = let rest = set k v m in if j == k then (j, v) ∷ m else (j, u) ∷ rest

  -- `Map.delete`, and a deletion by primary key.
  unfoldable pub remove : Text → Map V → Map V
  remove k [] = []
  remove k ((j, v) ∷ m) = let rest = remove k m in if j == k then rest else (j, v) ∷ rest

  -- The loop that deletes every entry but those of the test, and how many it deletes.
  unfoldable pub retain : (V → Bool) → Map V → Map V × ℕ
  retain p [] = ([], 0)
  retain p ((k, v) ∷ m) =
      let (kept, gone) = retain p m in if p v then ((k, v) ∷ kept, gone) else (kept, suc gone)

  -- No key stands in two entries.
  abbrev pub IsMap : Map V → Type ℓ
  IsMap [] = Unit
  IsMap ((k, v) ∷ m) = (get k m ≡ none) × IsMap m

  pub get-set :
      (m : Map V) (k j : Text) (v : V) → get j (set k v m) ≡ (if k == j then some v else get j m)
  unfolding get set
  get-set [] k j v = refl
  get-set ((i, u) ∷ m) k j v = elim (Bool-cases (i == k)) [
    | inl e ↦ rw e (rw ((text_eq_iff i k).0 e) (ground arith))
    | inr e ↦ elim (Bool-cases (i == j)) [
      | inl q ↦
          let ne = beq_ne k j (λ p. ne_of_beq i k e ((text_eq_iff i j).0 q ∙ sym p)) in
          ground (arith, ne)
      | inr q ↦ ground (arith, get-set m k j v)
    ]
  ]

  pub get-remove :
      (m : Map V) (k j : Text) → get j (remove k m) ≡ (if k == j then none else get j m)
  unfolding get remove
  get-remove [] k j = ground arith
  get-remove ((i, u) ∷ m) k j = elim (Bool-cases (i == k)) [
    | inl e ↦ rw e (rw ((text_eq_iff i k).0 e) (ground (arith, get-remove m k j)))
    | inr e ↦ elim (Bool-cases (i == j)) [
      | inl q ↦
          let ne = beq_ne k j (λ p. ne_of_beq i k e ((text_eq_iff i j).0 q ∙ sym p)) in
          rw e (rw q (rw ne refl))
      | inr q ↦ rw e (rw q (get-remove m k j))
    ]
  ]

  pub set-IsMap : (m : Map V) (k : Text) (v : V) → IsMap m → IsMap (set k v m)
  unfolding get set
  set-IsMap [] k v h = (refl, tt)
  set-IsMap ((j, u) ∷ m) k v h = elim (Bool-cases (j == k)) [
    | inl e ↦ rw e h
    | inr e ↦
        rw e (
          get-set m k j v ∙ rw (beq_ne k j (λ p. ne_of_beq j k e (sym p))) h.0,
          set-IsMap m k v h.1,
        )
  ]

  pub get-retain :
      (p : V → Bool) (m : Map V) (k : Text) → IsMap m → get k (retain p m).0 ≡ keep_if p (get k m)
  unfolding get retain
  get-retain p [] k h = refl
  get-retain p ((j, v) ∷ m) k h = elim (Bool-cases (p v)) [
    | inl e ↦ ground (arith, e, get-retain p m k h.1)
    | inr e ↦ elim (Bool-cases (j == k)) [
      | inl q ↦ rw e (
          rw q (
            rw e (
              get-retain p m k h.1
              ∙ ap (keep_if p) (subst (λ i. get i m ≡ none) ((text_eq_iff j k).0 q) h.0))))
      | inr q ↦ rw e (rw q (get-retain p m k h.1))
    ]
  ]

  pub retain-IsMap : (p : V → Bool) (m : Map V) → IsMap m → IsMap (retain p m).0
  unfolding get retain
  retain-IsMap p [] h = tt
  retain-IsMap p ((k, v) ∷ m) h = elim (Bool-cases (p v)) [
    | inl e ↦ rw e (get-retain p m k h.1 ∙ rw h.0 refl, retain-IsMap p m h.1)
    | inr e ↦ rw e (retain-IsMap p m h.1)
  ]

  pub length-retain : (p : V → Bool) (m : Map V) → length (retain p m).0 + (retain p m).1 ≡ length m
  unfolding retain
  length-retain p [] = refl
  length-retain p ((k, v) ∷ m) = ground (arith, length-retain p m)
