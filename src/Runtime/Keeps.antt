-- ===== src/Runtime/Keeps.antt =====
-- Invariants of a table: one rule for each way to build an operation. The projection says which
-- table of the world the invariant is about.
use effect_auth.Prelude.{
  suc, inl, inr, ◌≡◌, refl, Bool, true, false, Option, none, some, Text, Bool-cases, if◌then◌else◌,
}
use effect_auth.Runtime.{
  World, Auth, Result, ok, err, Error, resume, from_option, persist, ignore, ◌>>=◌,
}

module _ (P : World → Type 0) where
  -- The operation keeps `P`, whether it succeeds or fails.
  abbrev pub Keeps : {A : Type 0} → Auth A → Type 0
  Keeps m = (w : World) → P w → P (m w).1

  resume-Keeps :
      {A B : Type 0} (r : Result A × World) (f : A → Auth B)
      → P r.1
      → ((a : A) → r.0 ≡ ok a → Keeps (f a))
      → P (resume r f).1
  resume-Keeps (ok a, w) f h k = k a refl w h
  resume-Keeps (err e, w) f h k = h

  pub bind-Keeps :
      {A B : Type 0} (m : Auth A) (f : A → Auth B)
      → Keeps m
      → ((a : A) → Keeps (f a))
      → Keeps (m >>= f)
  bind-Keeps m f km kf w h = resume-Keeps (m w) f (km w h) (λ a _. kf a)

  pub if-Keeps :
      {A : Type 0} (b : Bool) (m n : Auth A) → Keeps m → Keeps n → Keeps (if b then m else n)
  if-Keeps true m n km kn = km
  if-Keeps false m n km kn = kn

  pub from_option-Keeps : {A : Type 0} (o : Option A) (e : Error) → Keeps (from_option o e)
  from_option-Keeps none e w h = h
  from_option-Keeps (some a) e w h = h

  pub ignore-Keeps : {A : Type 0} (m : Auth A) → Keeps m → Keeps (ignore m)
  ignore-Keeps m km w h = km w h

  -- A call that faults changes nothing but the count of calls.
  pub persist-Keeps :
      {A : Type 0} (operation : Text) (m : Auth A)
      → Keeps m
      → ((w : World) → P w → P (record w { calls = suc w.calls }))
      → Keeps (persist operation m)
  persist-Keeps operation m km stable w h = elim (Bool-cases (w.fault w.calls)) [
    | inl down ↦ rw down (stable w h)
    | inr up ↦ rw up (km _ (stable w h))
  ]
