-- ===== src/Totp/Compare.antt =====
-- The comparison of two codes decides their equality.
use Prim.Native.Nat.{bit_or, bit_xor}
use effect_auth.Prelude.{
  ℕ, ◌≡◌, ◌↔◌, refl, sym, inl, inr, true, [], ◌∷◌, Text, nat_eq, arith, length, ◌==◌, nat_beq_iff,
  Bool-cases, beq_self,
}
use effect_auth.Totp.{difference, equal_codes}
use effect_auth.Totp.Bits.{xor_zero_iff, or_zero_iff}

difference_zero :
    (acc : ℕ) (s t : Text) → length s ≡ length t → difference acc s t ≡ 0 → (acc ≡ 0) × (s ≡ t)
unfolding difference
difference_zero acc [] [] l h = (h, refl)
difference_zero acc [] (d ∷ t) l h = absurd (omega arith)
difference_zero acc (c ∷ s) [] l h = absurd (omega arith)
difference_zero acc (c ∷ s) (d ∷ t) l h =
    let (acc_zero, rest) = difference_zero (bit_or acc (bit_xor c d)) s t (omega arith) h in
    let (old, here) = (or_zero_iff acc (bit_xor c d)).0 acc_zero in
    (old, cc ((xor_zero_iff c d).0 here, rest))

difference_self : (s : Text) → difference 0 s s ≡ 0
unfolding difference
difference_self [] = refl
difference_self (c ∷ s) =
    let none = (or_zero_iff 0 (bit_xor c c)).1 (refl, (xor_zero_iff c c).1 refl) in
    rw none (difference_self s)

pub equal_codes_iff : (s t : Text) → (equal_codes s t ≡ true) ↔ (s ≡ t)
unfolding equal_codes
equal_codes_iff s t = (
  (λ h. elim (Bool-cases (length s == length t)) [
    | inl e ↦ (difference_zero 0 s t ((nat_beq_iff _ _).0 e) ((nat_beq_iff _ _).0 (rw e at h))).1
    | inr e ↦ absurd (let q = (rw e at h) in cc)
  ]),
  (λ e. rw (sym e) (rw (beq_self (length s)) (rw (difference_self s) refl))),
)
