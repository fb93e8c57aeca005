-- ===== src/Runtime/Steps.antt =====
-- What a chain of operations did where it succeeded.
use effect_auth.Prelude.{
  suc, ◌≡◌, refl, ap, sym, subst, inl, inr, Bool, Option, none, some, Text, Bool-cases,
  if◌then◌else◌,
}
use effect_auth.Runtime.{
  World, Result, Auth, ok, err, persistence, persist, resume, ◌>>=◌, err-ne-ok, from_option, Error,
}

-- An operation's success is a success of its first part and a success of the rest from there.
pub record Passed {A B : Type 0} (m : Auth A) (f : A → Auth B) (w : World) (b : B) (after : World)
    : Type 0 where
  pub value : A
  pub between : World
  pub first : m w ≡ (ok value, between)
  pub rest : f value between ≡ (ok b, after)

passed :
    {A B : Type 0} (m : Auth A) (f : A → Auth B) (w : World) (b : B) (after : World)
    (r : Result A × World)
    → m w ≡ r
    → resume r f ≡ (ok b, after)
    → Passed m f w b after
passed m f w b after (ok a, between) first rest = record {
  value = a;
  between = between;
  first = first;
  rest = rest;
}
passed m f w b after (err e, between) first rest = absurd (err-ne-ok rest)

pub bind-ok :
    {A B : Type 0} (m : Auth A) (f : A → Auth B) (w : World) (b : B) (after : World)
    → (m >>= f) w ≡ (ok b, after)
    → Passed m f w b after
bind-ok m f w b after h = passed m f w b after (m w) refl h

pub ok_injective :
    {A : Type 0} (a b : A) (w w' : World) → ◌≡◌ {A = Result A × World} (ok a, w) (ok b, w') → a ≡ b
ok_injective {A = A} a b w w' h = ap (λ (r : Result A × World). elim r.0 [ ok x ↦ x | err e ↦ a ]) h

pub world_of :
    {A : Type 0} (r r' : Result A) (w w' : World)
    → ◌≡◌ {A = Result A × World} (r, w) (r', w')
    → w ≡ w'
world_of {A = A} r r' w w' h = ap (λ (x : Result A × World). x.1) h

pub some_injective : {A : Type 0} {a b : A} → ◌≡◌ {A = Option A} (some a) (some b) → a ≡ b
some_injective {A} {a} h = ap (λ (o : Option A). elim o [ some x ↦ x | none ↦ a ]) h

pub from_option-ok :
    {A : Type 0} (o : Option A) (e : Error) (w w' : World) (a : A)
    → from_option o e w ≡ (ok a, w')
    → (o ≡ some a) × (w ≡ w')
from_option-ok none e w w' a h = absurd (err-ne-ok h)
from_option-ok (some b) e w w' a h =
    (ap some (ok_injective b a w w' h), world_of (ok b) (ok a) w w' h)

-- A call of a store fails and has changed nothing, or runs its statement.
pub persist-cases :
    {A : Type 0} (P : Result A × World → Type 0) (operation : Text) (statement : Auth A) (w : World)
    → P (err (persistence operation), record w { calls = suc w.calls })
    → P (statement (record w { calls = suc w.calls }))
    → P (persist operation statement w)
persist-cases {A} P operation statement w failed ran = elim (Bool-cases (w.fault w.calls)) [
  | inl e ↦ subst (λ b. P (outcome b)) (sym e) failed
  | inr e ↦ subst (λ b. P (outcome b)) (sym e) ran
]
  where
    outcome : Bool → Result A × World
    outcome b =
        if b
        then (err (persistence operation), record w { calls = suc w.calls })
        else statement (record w { calls = suc w.calls })
