-- ===== src/Verifications/Tokens.antt =====
-- Subject tokens and identifiers: what is put in comes back, and names do not run into subjects.
use native.Mathlib.Numerals.{add-one}
use effect_auth.Prelude.{
  ℕ, suc, ◌+◌, ◌≡◌, ◌≢◌, refl, ap, ◌∙◌, false, some, [], ◌∷◌, ◌++◌, Text, arith, All, nat_beq,
  length, length-append, drop, take-length-append,
}
use effect_auth.Verifications.{
  Base64, subject_token_separator, index_of, split_at, encode_subject_token, decode_subject_token,
  identifier_of,
}

-- What base64url promises: decoding undoes encoding, the alphabet has no ".", and only the empty
-- text has an empty encoding.
pub record IsBase64 (b : Base64) : Type 0 where
  pub decode-encode : (s : Text) → b.decode (b.encode s) ≡ some s
  pub no_separator : (s : Text) → All (λ d. d ≢ subject_token_separator) (b.encode s)
  pub encode_nonempty : (s : Text) → s ≢ [] → b.encode s ≢ []

index_of-append :
    (c : ℕ) (xs ys : Text) → All (λ d. d ≢ c) xs → index_of c (xs ++ c ∷ ys) ≡ some (length xs)
unfolding index_of
index_of-append c [] ys h = ground arith
index_of-append c (x ∷ xs) ys h = ground (arith, index_of-append c xs ys h.1)

length-pos : (xs : Text) → xs ≢ [] → nat_beq (length xs) 0 ≡ false
length-pos [] h = absurd (h refl)
length-pos (x ∷ xs) h = ground arith

drop-suc : (xs : Text) (c : ℕ) (ys : Text) → drop (suc (length xs)) (xs ++ c ∷ ys) ≡ ys
drop-suc [] c ys = refl
drop-suc (x ∷ xs) c ys = drop-suc xs c ys

not_last :
    (xs : Text) (c : ℕ) (ys : Text)
    → ys ≢ []
    → nat_beq (length xs + 1) (length (xs ++ c ∷ ys)) ≡ false
not_last xs c [] h = absurd (h refl)
not_last xs c (y ∷ ys) h = ground (arith, length-append xs (c ∷ y ∷ ys))

split_at-ok :
    (b : Base64) (e subject secret : Text)
    → e ≢ []
    → secret ≢ []
    → b.decode e ≡ some subject
    → split_at b (e ++ subject_token_separator ∷ secret) (some (length e))
      ≡ some (record { subject = subject; secret = secret })
unfolding split_at
split_at-ok b e subject secret he hk d =
    rw
      (
        length-pos e he,
        not_last e subject_token_separator secret hk,
        take-length-append e (subject_token_separator ∷ secret),
        d,
        add-one (length e),
        drop-suc e subject_token_separator secret,
      )
      refl

-- Where base64url reads back what it writes and writes no separator, a token that was built from a
-- subject and a secret that are not empty is split into the same two.
pub decode-encode_subject_token :
    (b : Base64) (subject secret : Text)
    → IsBase64 b
    → subject ≢ []
    → secret ≢ []
    → decode_subject_token b (encode_subject_token b subject secret)
      ≡ some (record { subject = subject; secret = secret })
unfolding decode_subject_token encode_subject_token
decode-encode_subject_token b subject secret laws hs hk =
    ap (split_at b (b.encode subject ++ subject_token_separator ∷ secret)) (
      index_of-append subject_token_separator (b.encode subject) secret (laws.no_separator subject))
    ∙ split_at-ok b (b.encode subject) subject secret (laws.encode_nonempty subject hs) hk
        (laws.decode-encode subject)

-- A name with no colon is read back from an identifier, and so is the subject.
abbrev pub HasNoColon : Text → Type 0
HasNoColon name = All (λ d. d ≢ b':') name

-- Two purposes whose names hold no colon never share an identifier, and one purpose never gives two
-- subjects the same.
pub identifier_of_injective :
    (n m s t : Text)
    → HasNoColon n
    → HasNoColon m
    → identifier_of n s ≡ identifier_of m t
    → (n ≡ m) × (s ≡ t)
identifier_of_injective [] [] s t hn hm e = (refl, cc)
identifier_of_injective [] (d ∷ m) s t hn hm e = absurd (hm.0 (cc))
identifier_of_injective (c ∷ n) [] s t hn hm e = absurd (hn.0 (cc))
identifier_of_injective (c ∷ n) (d ∷ m) s t hn hm e =
    let (p, q) = identifier_of_injective n m s t hn.1 hm.1 (cc) in (cc, q)
