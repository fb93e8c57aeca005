-- ===== src/Challenges/Budget.antt =====
-- How many guesses at a handle are compared.
use effect_auth.Prelude.{
  ℕ, suc, ◌+◌, ◌-◌, ◌≤◌, ◌≡◌, refl, inl, inr, true, ◌&&◌, Option, none, some, List, [], ◌∷◌, Text,
  text_eq_iff, text_eq, arith, ◌==◌, head?, Bool-cases, Option-cases, if◌then◌else◌,
}
use effect_auth.Runtime.{
  World, from_option, pure, resume, invalid_token, Verification, Result, Auth, ok, err, ◌>>=◌,
}
use effect_auth.Sql.{Dialect, consume_one}
use effect_auth.Sql.Totals.{total-consume_one, head?-consume_one, weight_of, weight_of-head?}
use effect_auth.Verifications.{
  Base64, Codec, TokenPurpose, SubjectToken, Claimed, purpose, identifier_of, decode_present, claim,
  decode_subject_token,
}
use effect_auth.Verifications.Store
use effect_auth.Verifications.Store.{names, is_claimable}
use effect_auth.Challenges.{
  ChallengeRow, Mac, row_purpose, code_matches, answer, claim_row, verify_code, as_invalid_code,
  code_namespace,
}
use effect_auth.Challenges.Restores
use effect_auth.Challenges.Restores.{guesses, budget, compared}

module _ (rows : Codec ChallengeRow)
    (law : (r : ChallengeRow) (t : Text) → rows.encode r ≡ some t → rows.decode t ≡ some r)
    (base64 : Base64) (hash_token : Text → Text) (identifier value_hash : Text) where
  abbrev again : Text → SubjectToken → Claimed ChallengeRow → ℕ → ℕ
  again = Restores.again rows law base64 hash_token identifier value_hash

  abbrev allowance : Verification → ℕ
  allowance = Restores.allowance rows identifier value_hash

  -- What the row that a claim handed out allowed.
  abbrev got : Text → Text → Result (Option Verification) → ℕ
  got i h (ok (some row)) =
      if i == identifier && h == value_hash then guesses (decode_present rows row.payload) else 0
  got i h _ = 0

  got-allowance :
      (i h : Text) (at : ℕ) (row : Verification)
      → is_claimable i h at row ≡ true
      → got i h (ok (some row)) ≡ allowance row
  got-allowance i h at row claimable =
      let i_is : row.identifier ≡ i =
        (text_eq_iff row.identifier i).0 (ground (arith, claimable)) in
      let h_is : row.value_hash ≡ h =
        (text_eq_iff row.value_hash h).0 (ground (arith, claimable)) in
      rw (i_is, h_is) refl

  got-weight_of :
      (d : Dialect) (i h : Text) (at : ℕ) (table : List Verification)
      → got i h (ok (head? (consume_one (is_claimable i h at) d table).1))
        ≡ weight_of (allowance) (head? (consume_one (is_claimable i h at) d table).1)
  got-weight_of d i h at table =
      elim (Option-cases (head? (consume_one (is_claimable i h at) d table).1)) [
        | inl e ↦ rw e refl
        | inr (row, e) ↦
            rw e (got-allowance i h at row (head?-consume_one (is_claimable i h at) d table row e))
      ]

  consume_row-Adds :
      (d : Dialect) (i h : Text) (at : ℕ) (w : World)
      → budget rows identifier value_hash (Store.consume_row d i h at w).1
          + got i h (Store.consume_row d i h at w).0
        ≤ budget rows identifier value_hash w
  unfolding Store.consume_row
  consume_row-Adds d i h at w = omega (
    arith,
    got-weight_of d i h at w.verifications,
    weight_of-head? (allowance) (consume_one (is_claimable i h at) d w.verifications).1,
    total-consume_one (allowance) (is_claimable i h at) d w.verifications,
  )

  consume-Adds :
      (d : Dialect) (i h : Text) (w : World)
      → budget rows identifier value_hash (Store.consume d i h w).1
          + got i h (Store.consume d i h w).0
        ≤ budget rows identifier value_hash w
  unfolding Store.consume Store.consume_now
  consume-Adds d i h w = elim (Bool-cases (w.fault w.calls)) [
    | inl e ↦ rw e (omega arith)
    | inr e ↦ rw e (
        consume_row-Adds d i h (w.clock w.reads)
          (record w { calls = suc w.calls; reads = suc w.reads }))
  ]

  -- What a claim takes over for its handle.
  abbrev pub taken_over : Text → SubjectToken → Result (Claimed ChallengeRow) → ℕ
  taken_over name handle (ok claimed) =
      again name handle claimed (suc (claimed.payload.attempts_left - 1))
  taken_over name handle (err e) = 0

  abbrev finish : Text → SubjectToken → Option Verification → Auth (Claimed ChallengeRow)
  finish name handle consumed = do
    verification ← from_option consumed invalid_token
    payload ← from_option (decode_present rows verification.payload) invalid_token
    pure (record {
      subject = handle.subject;
      payload = payload;
      identifier = identifier_of (code_namespace name) handle.subject;
      verification = verification;
    })

  finish-Adds :
      (name : Text) (handle : SubjectToken) (bound : ℕ) (r : Result (Option Verification) × World)
      → budget rows identifier value_hash r.1
          + got (identifier_of (code_namespace name) handle.subject) (hash_token handle.secret) r.0
        ≤ bound
      → budget rows identifier value_hash (resume r (finish name handle)).1
          + taken_over name handle (resume r (finish name handle)).0
        ≤ bound
  finish-Adds name handle bound (err e, after) h = h
  finish-Adds name handle bound (ok none, after) h = h
  finish-Adds name handle bound (ok (some row), after) h =
      elim (Option-cases (decode_present rows row.payload)) [
        | inl e ↦ rw e (ground (arith, h))
        | inr (r, e) ↦ rw e (rw e at h)
      ]

  claim-Adds :
      (d : Dialect) (name raw : Text) (handle : SubjectToken) (w : World)
      → decode_subject_token base64 raw ≡ some handle
      → budget rows identifier value_hash
            (claim base64 hash_token d (row_purpose rows name) raw w).1
          + taken_over name handle (claim base64 hash_token d (row_purpose rows name) raw w).0
        ≤ budget rows identifier value_hash w
  unfolding claim purpose
  claim-Adds d name raw handle w decoded = rw decoded (
      finish-Adds name handle (budget rows identifier value_hash w) _ (
        consume-Adds d (identifier_of (code_namespace name) handle.subject)
          (hash_token handle.secret) w))

  as_invalid_code-Adds :
      (name : Text) (handle : SubjectToken) (bound : ℕ) (r : Result (Claimed ChallengeRow) × World)
      → budget rows identifier value_hash r.1 + taken_over name handle r.0 ≤ bound
      → budget rows identifier value_hash (as_invalid_code r).1
          + taken_over name handle (as_invalid_code r).0
        ≤ bound
  unfolding as_invalid_code
  as_invalid_code-Adds name handle bound (ok claimed, after) h = h
  as_invalid_code-Adds name handle bound (err invalid_token, after) h = h
  as_invalid_code-Adds name handle bound (err _, after) h = h

  module _ (mac : Mac) where
    abbrev answered : Text → SubjectToken → Text → Result (Claimed ChallengeRow) → ℕ
    answered name handle code (ok claimed) =
        again name handle claimed
          (compared (code_matches mac claimed.identifier code claimed.payload.code_hash))
    answered name handle code (err e) = 0

    abbrev compared_by : Dialect → Text → Text → Option SubjectToken → Text → World → ℕ
    compared_by d name raw none code w = 0
    compared_by d name raw (some handle) code w =
        answered name handle code (claim_row base64 hash_token rows d name raw w).0

    abbrev pub compared_once : {P : Type 0} → Dialect → TokenPurpose P → Text → Text → World → ℕ
    compared_once d wanted raw code w =
        compared_by d wanted.name raw (decode_subject_token base64 raw) code w

    follow-Adds :
        {P : Type 0} (wanted : TokenPurpose P) (handle : SubjectToken) (code : Text) (bound : ℕ)
        (r : Result (Claimed ChallengeRow) × World)
        → budget rows identifier value_hash r.1 + taken_over wanted.name handle r.0 ≤ bound
        → budget rows identifier value_hash
              (resume r (λ claimed.
                answer base64 hash_token rows wanted handle claimed
                  (code_matches mac claimed.identifier code claimed.payload.code_hash))).1
            + answered wanted.name handle code r.0
          ≤ bound
    follow-Adds wanted handle code bound (err e, after) h = h
    follow-Adds wanted handle code bound (ok claimed, after) h = omega (
      arith,
      h,
      Restores.answer-Adds rows law base64 hash_token identifier value_hash wanted handle claimed
          (code_matches mac claimed.identifier code claimed.payload.code_hash) after,
    )

    verify_code-Adds :
        {P : Type 0} (d : Dialect) (wanted : TokenPurpose P) (raw code : Text) (w : World)
        → budget rows identifier value_hash
              (verify_code base64 hash_token mac rows d wanted raw code w).1
            + compared_once d wanted raw code w
          ≤ budget rows identifier value_hash w
    unfolding verify_code
    verify_code-Adds d wanted raw code w = elim (Option-cases (decode_subject_token base64 raw)) [
      | inl e ↦ rw e (omega arith)
      | inr (handle, e) ↦ rw e (
          follow-Adds wanted handle code (budget rows identifier value_hash w) _ (
            as_invalid_code-Adds wanted.name handle (budget rows identifier value_hash w) _
              (claim-Adds d wanted.name raw handle w e)))
    ]

    -- A purpose's name, a handle and a code, as a request presents them.
    module _ {P : Type 0} (d : Dialect) where
      abbrev pub all_compared : List (TokenPurpose P × Text × Text) → World → ℕ
      all_compared [] w = 0
      all_compared ((wanted, raw, code) ∷ rest) w =
          compared_once d wanted raw code w
          + all_compared rest (verify_code base64 hash_token mac rows d wanted raw code w).1

      abbrev pub after_all : List (TokenPurpose P × Text × Text) → World → World
      after_all [] w = w
      after_all ((wanted, raw, code) ∷ rest) w =
          after_all rest (verify_code base64 hash_token mac rows d wanted raw code w).1

      -- Where a row's codec reads back what it writes: whatever guesses are presented one after
      -- the other, under any purposes and at any handles, whichever calls of the store fail,
      -- whatever the clock says and also where the platform cannot compare: the guesses at one
      -- challenge that are compared and the attempts that its rows still allow at the end are no
      -- more than the attempts that its rows allowed at the start.
      pub all_compared-budget :
          (guessed : List (TokenPurpose P × Text × Text)) (w : World)
          → budget rows identifier value_hash (after_all guessed w) + all_compared guessed w
            ≤ budget rows identifier value_hash w
      all_compared-budget [] w = omega arith
      all_compared-budget ((wanted, raw, code) ∷ rest) w = omega (
        arith,
        verify_code-Adds d wanted raw code w,
        all_compared-budget rest (verify_code base64 hash_token mac rows d wanted raw code w).1,
      )
