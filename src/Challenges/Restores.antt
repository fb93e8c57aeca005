-- ===== src/Challenges/Restores.antt =====
-- What a restored row adds to the guesses that a challenge allows.
use effect_auth.Prelude.{
  ℕ, suc, ◌+◌, ◌-◌, ◌≤◌, ◌≡◌, refl, inl, inr, Bool, true, false, ◌&&◌, Option, none, some, [], ◌∷◌,
  Text, codes, text_eq, arith, ◌==◌, Bool-cases, Option-cases, ltb, if◌then◌else◌,
}
use effect_auth.Runtime.{
  World, pure, fail, resume, invalid_code, defect, Verification, Result, Auth, ok, err, ◌>>=◌,
}
use effect_auth.Sql.Totals.{total, total-append}
use effect_auth.Verifications.{
  Base64, Codec, TokenPurpose, SubjectToken, Claimed, purpose, identifier_of, decode_present, issue,
  secret_of, encoded, Span,
}
use effect_auth.Verifications.Store
use effect_auth.Verifications.Store.{names, is_claimable}
use effect_auth.Challenges.{ChallengeRow, row_purpose, restore, spend, answer, code_namespace}

-- A guess is compared where the platform answers.
abbrev pub compared : Option Bool → ℕ
compared none = 0
compared (some matches) = 1

-- The guesses that a row still allows.
abbrev pub guesses : Option ChallengeRow → ℕ
guesses none = 0
guesses (some row) = suc (row.attempts_left - 1)

module _ (rows : Codec ChallengeRow) (identifier value_hash : Text) where
  abbrev pub allowance : Verification → ℕ
  allowance row =
      if names identifier value_hash row then guesses (decode_present rows row.payload) else 0

  abbrev pub budget : World → ℕ
  budget w = total allowance w.verifications

module _ (rows : Codec ChallengeRow)
    (law : (r : ChallengeRow) (t : Text) → rows.encode r ≡ some t → rows.decode t ≡ some r)
    (base64 : Base64) (hash_token : Text → Text) (identifier value_hash : Text) where
  -- What a row under this name and secret adds.
  abbrev pub share : Text → Text → ℕ → ℕ
  share i secret n = if i == identifier && hash_token secret == value_hash then n else 0

  budget-create :
      (row : Verification) (w : World)
      → budget rows identifier value_hash (Store.create row w).1
        ≤ budget rows identifier value_hash w + allowance rows identifier value_hash row
  unfolding Store.create Store.insert_row
  budget-create row w =
      ground (arith, total-append (allowance rows identifier value_hash) w.verifications (row ∷ []))

  abbrev Adds : {A : Type 0} → ℕ → Auth A → Type 0
  Adds n m =
      (w : World)
      → budget rows identifier value_hash (m w).1 ≤ budget rows identifier value_hash w + n

  -- What follows a call and adds nothing.
  then-Adds :
      {A B : Type 0} (n : ℕ) (m : Auth A) (f : A → Auth B)
      → ((a : A) → Adds 0 (f a))
      → Adds n m
      → Adds n (m >>= f)
  then-Adds {A = A} {B = B} n m f nothing adds w = go (m w) (adds w)
    where
      go :
          (r : Result A × World)
          → budget rows identifier value_hash r.1 ≤ budget rows identifier value_hash w + n
          → budget rows identifier value_hash (resume r f).1
            ≤ budget rows identifier value_hash w + n
      go (ok a, after) h = omega (arith, nothing a after)
      go (err e, after) h = h

  budget-put :
      (row : Verification) (r : ChallengeRow) (t : Text) (w : World)
      → row.payload ≡ some t
      → rows.decode t ≡ some r
      → budget rows identifier value_hash (Store.create row w).1
        ≤ budget rows identifier value_hash w
          + (if names identifier value_hash row then suc (r.attempts_left - 1) else 0)
  unfolding decode_present
  budget-put row r t w payload_is decoded =
      let charged : guesses (decode_present rows row.payload) ≡ suc (r.attempts_left - 1) =
        rw (payload_is, decoded) refl in
      omega (arith, rw charged at (budget-create row w))

  budget-issue :
      (name subject secret : Text) (ttl : Span) (r : ChallengeRow)
      → Adds
          (share (identifier_of (code_namespace name) subject) secret (suc (r.attempts_left - 1)))
          (issue base64 hash_token (record {
            purpose = row_purpose rows name;
            subject = subject;
            ttl = ttl;
            payload = r;
            secret = some secret;
          }))
  unfolding issue secret_of encoded purpose
  budget-issue name subject secret ttl r w = elim (Option-cases (rows.encode r)) [
    | inl e ↦ rw e (omega arith)
    | inr (t, e) ↦ rw e (
        then-Adds
          (share (identifier_of (code_namespace name) subject) secret (suc (r.attempts_left - 1)))
          (Store.create _) _ (λ a u. omega arith) (λ u. budget-put _ r t u refl (law r t e)) _)
  ]

  module _ (name : Text) (handle : SubjectToken) (claimed : Claimed ChallengeRow) where
    -- The share of the row that was claimed, if it goes back with these attempts.
    abbrev pub again : ℕ → ℕ
    again n = share (identifier_of (code_namespace name) claimed.subject) handle.secret n

    restore-Adds :
        (n : ℕ) → Adds (again (suc (n - 1))) (restore base64 hash_token rows name handle claimed n)
    unfolding restore
    restore-Adds n w =
        then-Adds (again (suc (n - 1))) (issue base64 hash_token _) (λ _. pure tt)
          (λ a u. omega arith)
          (budget-issue name claimed.subject handle.secret _
            (record claimed.payload { attempts_left = n }))
          _

    again-split :
        ltb 1 claimed.payload.attempts_left ≡ true
        → again (suc (claimed.payload.attempts_left - 1 - 1)) + again 1
          ≤ again (suc (claimed.payload.attempts_left - 1))
    again-split e = ground (arith, e)

    spend-Adds :
        (P : Type 0) (w : World)
        → budget rows identifier value_hash
              (spend base64 hash_token rows name handle claimed {P = P} w).1
            + again 1
          ≤ budget rows identifier value_hash w + again (suc (claimed.payload.attempts_left - 1))
    unfolding spend
    spend-Adds P w = elim (Bool-cases (ltb 1 claimed.payload.attempts_left)) [
      | inl e ↦ rw e (
          omega (
            arith,
            again-split e,
            then-Adds (again (suc (claimed.payload.attempts_left - 1 - 1)))
                (restore base64 hash_token rows name handle claimed
                  (claimed.payload.attempts_left - 1))
                (λ _. fail {A = Claimed P} invalid_code) (λ a u. omega arith)
                (restore-Adds (claimed.payload.attempts_left - 1)) w,
          ))
      | inr e ↦ rw e (ground arith)
    ]

  pub answer-Adds :
      {P : Type 0} (wanted : TokenPurpose P) (handle : SubjectToken)
      (claimed : Claimed ChallengeRow) (outcome : Option Bool) (w : World)
      → budget rows identifier value_hash
            (answer base64 hash_token rows wanted handle claimed outcome w).1
          + again wanted.name handle claimed (compared outcome)
        ≤ budget rows identifier value_hash w
          + again wanted.name handle claimed (suc (claimed.payload.attempts_left - 1))
  unfolding answer
  answer-Adds {P = P} wanted handle claimed none w = ground (
    arith,
    then-Adds (again wanted.name handle claimed (suc (claimed.payload.attempts_left - 1)))
        (restore base64 hash_token rows wanted.name handle claimed claimed.payload.attempts_left)
        (λ _. fail {A = Claimed P} (defect (codes "hmac"))) (λ a u. omega arith)
        (restore-Adds wanted.name handle claimed claimed.payload.attempts_left) w,
  )
  answer-Adds wanted handle claimed (some true) w = ground arith
  answer-Adds {P = P} wanted handle claimed (some false) w =
      spend-Adds wanted.name handle claimed P w
