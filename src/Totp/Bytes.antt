-- ===== src/Totp/Bytes.antt =====
-- The bytes of a counter, read back from the first to the last.
use effect_auth.Prelude.{
  ℕ, ◌+◌, ◌*◌, ◌/◌, ◌%◌, ◌^◌, ◌<◌, ◌≡◌, refl, List, [], ◌∷◌, ◌++◌, arith, length,
}
use effect_auth.Prelude.Int.{pos}
use effect_auth.Totp.{bytes_of, counter_bytes}

-- The number that the bytes stand for, after `acc`.
abbrev pub big_endian : ℕ → List ℕ → ℕ
big_endian acc [] = acc
big_endian acc (b ∷ bytes) = big_endian (acc * 256 + b) bytes

big_endian-append :
    (acc : ℕ) (xs ys : List ℕ) → big_endian acc (xs ++ ys) ≡ big_endian (big_endian acc xs) ys
big_endian-append acc [] ys = refl
big_endian-append acc (x ∷ xs) ys = big_endian-append (acc * 256 + x) xs ys

big_endian-bytes_of : (acc x : ℕ) → big_endian acc (bytes_of 4 (pos x)) ≡ acc * 2 ^ 32 + x % 2 ^ 32
unfolding bytes_of
big_endian-bytes_of acc x = omega arith

-- A counter of less than 64 bits is read back from its eight bytes.
pub big_endian-counter_bytes :
    (n : ℕ)
    → n < 2 ^ 64
    → (length (counter_bytes (pos n)) ≡ 8) × (big_endian 0 (counter_bytes (pos n)) ≡ n)
unfolding counter_bytes bytes_of
big_endian-counter_bytes n h = (
  refl,
  rw (big_endian-append 0 (bytes_of 4 (pos (n / 2 ^ 32))) (bytes_of 4 (pos (n % 2 ^ 32)))) (
      rw (big_endian-bytes_of 0 (n / 2 ^ 32))
        (rw (big_endian-bytes_of (0 * 2 ^ 32 + n / 2 ^ 32 % 2 ^ 32) (n % 2 ^ 32)) (omega arith))),
)
