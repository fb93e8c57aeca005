-- ===== src/Totp/Window.antt =====
-- Which codes are accepted, and for which step.
use effect_auth.Prelude.{
  ℕ, zero, suc, ◌+◌, ◌-◌, ◌/◌, ◌*◌, ◌%◌, ◌≤◌, ◌<◌, ◌≡◌, inl, inr, refl, sym, subst, ◌↔◌, false,
  Option, none, some, List, [], ◌∷◌, Memᴰ, text_eq, nat_eq, arith, length, length-append, ◌==◌,
  nat_beq_iff, Bool-cases,
}
use effect_auth.Prelude.Int.{ℤ, pos, pos_part, neg_part, sub_ℕ}
use effect_auth.Totp.{is_used, steps_from, candidates, padded}

abbrev pub AtMost : ℤ → ℤ → Type 0
AtMost a b = pos_part a + neg_part b ≤ pos_part b + neg_part a

-- No more than `window` steps away.
abbrev pub IsNear : ℕ → ℕ → ℤ → Type 0
IsNear current window step =
    AtMost (sub_ℕ current window) step × AtMost step (pos (current + window))

abbrev pub IsUnused : Option ℤ → ℤ → Type 0
IsUnused none step = Unit
IsUnused (some last) step = pos_part last + neg_part step < pos_part step + neg_part last

is_used-IsUnused : (last : Option ℤ) (step : ℤ) → is_used last step ≡ false → IsUnused last step
is_used-IsUnused none step h = tt
is_used-IsUnused (some last) step h = ground arith

IsUnused-false : (last : Option ℤ) (step : ℤ) → IsUnused last step → is_used last step ≡ false
IsUnused-false none step h = refl
IsUnused-false (some last) step h = ground arith

abbrev pub Ascending : List ℤ → Type 0
Ascending [] = Unit
Ascending (x ∷ xs) = ((t : ℤ) → Memᴰ t xs → AtMost x t) × Ascending xs

module _ (current window : ℕ) where
  step_of_mono :
      (i j : ℕ) → i ≤ j → AtMost (sub_ℕ (current + i) window) (sub_ℕ (current + j) window)
  step_of_mono i j h = ground arith

  near : (i : ℕ) → i ≤ 2 * window → IsNear current window (sub_ℕ (current + i) window)
  near i h = ground arith

  of_near :
      (t : ℤ)
      → IsNear current window t
      → t ≡ sub_ℕ (current + (pos_part t + window - neg_part t - current)) window
  of_near t h = ground arith

  offset_within :
      (t : ℤ)
      → IsNear current window t
      → pos_part t + window - neg_part t - current < 0 + (2 * window + 1)
  offset_within t h = ground arith

module _ (current window : ℕ) (last : Option ℤ) where
  abbrev step_of : ℕ → ℤ
  step_of i = sub_ℕ (current + i) window

  -- The step of an offset in the range, not used.
  abbrev Listed : ℕ → ℕ → ℤ → Type 0
  Listed count offset t =
      (i : ℕ) × (offset ≤ i) × (i < offset + count) × (t ≡ step_of i) × IsUnused last t

  Listed-later :
      (count offset : ℕ) (t : ℤ) → Listed count (suc offset) t → Listed (suc count) offset t
  Listed-later count offset t (i, lo, hi, e, u) = (i, omega arith, omega arith, e, u)

  memᴰ_of_steps_from :
      (count offset : ℕ) (t : ℤ)
      → Memᴰ t (steps_from current window last count offset)
      → Listed count offset t
  unfolding steps_from
  memᴰ_of_steps_from zero offset t m = elim m [ ]
  memᴰ_of_steps_from (suc count) offset t m = elim (Bool-cases (is_used last (step_of offset))) [
    | inl e ↦ Listed-later count offset t (memᴰ_of_steps_from count (suc offset) t (rw e at m))
    | inr e ↦
        from_cons (is_used-IsUnused last (step_of offset) e)
          (memᴰ_of_steps_from count (suc offset) t) (rw e at m)
  ]
    where
      from_cons :
          IsUnused last (step_of offset)
          → (Memᴰ t (steps_from current window last count (suc offset))
              → Listed count (suc offset) t)
          → Memᴰ t (step_of offset ∷ steps_from current window last count (suc offset))
          → Listed (suc count) offset t
      from_cons u later (Memᴰ.head q) =
          (offset, omega arith, omega arith, q, subst (IsUnused last) (sym q) u)
      from_cons u later (Memᴰ.tail o) = Listed-later count offset t (later o)

  memᴰ-steps_from :
      (count offset i : ℕ)
      → offset ≤ i
      → i < offset + count
      → IsUnused last (step_of i)
      → Memᴰ (step_of i) (steps_from current window last count offset)
  unfolding steps_from
  memᴰ-steps_from zero offset i lo hi u = absurd (omega arith)
  memᴰ-steps_from (suc count) offset i lo hi u = elim (Bool-cases (i == offset)) [
    | inl e ↦
        let here = (nat_beq_iff i offset).0 e in
        rw (sym here) (rw (IsUnused-false last (step_of i) u) (Memᴰ.head refl))
    | inr e ↦
        let later = memᴰ-steps_from count (suc offset) i (ground arith) (omega arith) u in
        elim (Bool-cases (is_used last (step_of offset))) [
          | inl used ↦ rw used later
          | inr free ↦ rw free (Memᴰ.tail later)
        ]
  ]

  steps_from-Ascending :
      (count offset : ℕ) → Ascending (steps_from current window last count offset)
  unfolding steps_from
  steps_from-Ascending zero offset = tt
  steps_from-Ascending (suc count) offset =
      let later = steps_from-Ascending count (suc offset) in
      elim (Bool-cases (is_used last (step_of offset))) [
        | inl e ↦ rw e later
        | inr e ↦ rw e (
          (λ t m.
              let (i, lo, hi, q, u) = memᴰ_of_steps_from count (suc offset) t m in
              rw q (step_of_mono current window offset i (omega arith))),
          later,
        )
      ]

  pub candidates-Ascending : Ascending (candidates current window last)
  candidates-Ascending = steps_from-Ascending (2 * window + 1) 0

  pub candidates_iff :
      (t : ℤ)
      → Memᴰ t (candidates current window last) ↔ (IsNear current window t × IsUnused last t)
  candidates_iff t = (
    (λ m.
        let (i, lo, hi, q, u) = memᴰ_of_steps_from (2 * window + 1) 0 t m in
        (rw q (near current window i (omega arith)), u)),
    (λ (close, u).
        let i = pos_part t + window - neg_part t - current in
        let q = of_near current window t close in
        subst (λ x. Memᴰ x (candidates current window last)) (sym q)
          (memᴰ-steps_from (2 * window + 1) 0 i (omega arith) (offset_within current window t close)
            (subst (IsUnused last) q u))),
  )

pub length-padded : (digits n : ℕ) → length (padded digits n) ≡ digits
unfolding padded
length-padded zero n = refl
length-padded (suc digits) n = omega (
  arith,
  length-padded digits (n / 10),
  length-append (padded digits (n / 10)) ((48 + n % 10) ∷ []),
)
