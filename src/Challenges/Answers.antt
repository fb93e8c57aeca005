-- ===== src/Challenges/Answers.antt =====
-- That the code that was sent answers the challenge.
use effect_auth.Prelude.{
  ℕ, suc, ◌≡◌, ◌≢◌, refl, sym, ap, ◌∙◌, subst, inl, inr, true, false, Option, none, some, List, [],
  ◌∷◌, Text, text_eq, arith, any, ltb, Bool-cases, Option-cases,
}
use effect_auth.Runtime.{World, Verification, Result, ok, err, resume, err-ne-ok}
use effect_auth.Runtime.Steps.{bind-ok, ok_injective, world_of}
use effect_auth.Sql.{Dialect, delete_where}
use effect_auth.Verifications.{
  Base64, Codec, TokenPurpose, Claimed, Issued, IssueOptions, SubjectToken, ahead, identifier_of,
  decode_subject_token, claim, issue, encoded, retire, purpose, decode_present,
}
use effect_auth.Verifications.Tokens.{IsBase64}
use effect_auth.Verifications.Issues.{ReadsBack, issue-claim, encoded-keeps}
use effect_auth.Verifications.Store
use effect_auth.Verifications.Store.{names, has_identifier}
use effect_auth.Challenges.{
  ChallengeRow, Mac, IssueCodeOptions, IssuedCode, row_purpose, signed_bytes, code_hash_of,
  code_namespace, code_matches, issue_code, answer, verify_code, as_invalid_code,
}

-- A tag of the platform survives its encoding and verifies the bytes that it was made for.
pub record IsMac (mac : Mac) : Type 0 where
  pub encodes : (tag : List ℕ) → mac.of_text (mac.to_text tag) ≡ some tag
  pub verifies : (bytes tag : List ℕ) → mac.sign bytes ≡ some tag → mac.verify bytes tag ≡ some true

code_hash_of-matches :
    (mac : Mac) (identifier code hash : Text) (w after : World)
    → IsMac mac
    → code_hash_of mac identifier code w ≡ (ok hash, after)
    → (code_matches mac identifier code hash ≡ some true) × (w ≡ after)
unfolding code_matches
code_hash_of-matches mac identifier code hash w after laws h =
    elim (Option-cases (mac.sign (signed_bytes mac identifier code))) [
      | inl e ↦ absurd (err-ne-ok (rw e at h))
      | inr (tag, e) ↦ (
        rw (sym (ok_injective _ hash _ after (rw e at h)), code_matches, laws.encodes tag)
            (laws.verifies _ tag e),
        world_of _ (ok hash) _ after (rw e at h),
      )
    ]

deleted_unnamed :
    (identifier value_hash : Text) (rows : List Verification)
    → any (names identifier value_hash) (delete_where (has_identifier identifier) rows) ≡ false
deleted_unnamed identifier value_hash [] = refl
deleted_unnamed identifier value_hash (row ∷ rows) =
    ground (arith, deleted_unnamed identifier value_hash rows)

retire-unnamed :
    (name subject : Text) (w after : World) (count : ℕ)
    → retire name subject w ≡ (ok count, after)
    → after.verifications
      ≡ delete_where (has_identifier (identifier_of name subject)) w.verifications
unfolding retire Store.delete_by_identifier Store.delete_rows
retire-unnamed name subject w after count h = elim (Bool-cases (w.fault w.calls)) [
  | inl e ↦ absurd (err-ne-ok (rw e at h))
  | inr e ↦ sym (ap (λ (x : World). x.verifications) (world_of _ (ok count) _ after (rw e at h)))
]

row-ReadsBack :
    (base64 : Base64) (hash_token : Text → Text) (rows : Codec ChallengeRow)
    (law : (r : ChallengeRow) (t : Text) → rows.encode r ≡ some t → rows.decode t ≡ some r)
    (options : IssueOptions ChallengeRow) (name : Text)
    → options.purpose ≡ row_purpose rows name
    → ReadsBack base64 hash_token options
unfolding encoded purpose decode_present
row-ReadsBack base64 hash_token rows law options name same u v stored h =
    elim (Option-cases (rows.encode options.payload)) [
      | inl e ↦ absurd (err-ne-ok (rw (same, e) at h))
      | inr (t, e) ↦
          rw (same, sym (ok_injective _ stored u v (rw (same, e) at h))) (law options.payload t e)
    ]

retire-next :
    (name subject : Text) (w after : World) (count : ℕ)
    → retire name subject w ≡ (ok count, after)
    → after.tokens after.drawn ≡ w.tokens w.drawn
unfolding retire Store.delete_by_identifier Store.delete_rows
retire-next name subject w after count h = elim (Bool-cases (w.fault w.calls)) [
  | inl e ↦ absurd (err-ne-ok (rw e at h))
  | inr e ↦ sym (ap (λ (x : World). x.tokens x.drawn) (world_of _ (ok count) _ after (rw e at h)))
]

claim-reads :
    (base64 : Base64) (hash_token : Text → Text) (rows : Codec ChallengeRow) (d : Dialect)
    (name raw : Text) (w : World) (claimed : Claimed ChallengeRow)
    → (claim base64 hash_token d (row_purpose rows name) raw w).0 ≡ ok claimed
    → (handle : SubjectToken) × (decode_subject_token base64 raw ≡ some handle)
unfolding claim
claim-reads base64 hash_token rows d name raw w claimed h =
    elim (Option-cases (decode_subject_token base64 raw)) [
      | inl e ↦ cc (rw e at h)
      | inr (handle, e) ↦ (handle, e)
    ]

module _ (base64 : Base64) (hash_token : Text → Text) (mac : Mac) (rows : Codec ChallengeRow)
    {P : Type 0} where
  verify_found :
      (d : Dialect) (wanted : TokenPurpose P) (raw code : Text) (w : World) (handle : SubjectToken)
      (claimed : Claimed ChallengeRow) (payload : P)
      → decode_subject_token base64 raw ≡ some handle
      → (claim base64 hash_token d (row_purpose rows wanted.name) raw w).0 ≡ ok claimed
      → code_matches mac claimed.identifier code claimed.payload.code_hash ≡ some true
      → wanted.decode_payload claimed.payload.payload ≡ some payload
      → (verify_code base64 hash_token mac rows d wanted raw code w).0
        ≡ ok (record {
          subject = claimed.subject;
          payload = payload;
          identifier = claimed.identifier;
          verification = claimed.verification;
        })
  unfolding verify_code as_invalid_code answer
  verify_found d wanted raw code w handle claimed payload read found matches decoded =
      rw read (go (claim base64 hash_token d (row_purpose rows wanted.name) raw w) found)
    where
      go :
          (r : Result (Claimed ChallengeRow) × World)
          → r.0 ≡ ok claimed
          → (resume (as_invalid_code r) (λ c.
              answer base64 hash_token rows wanted handle c
                (code_matches mac c.identifier code c.payload.code_hash))).0
            ≡ ok (record {
              subject = claimed.subject;
              payload = payload;
              identifier = claimed.identifier;
              verification = claimed.verification;
            })
      go (ok c, u) h =
          let same : c ≡ claimed = ok_injective c claimed u u (ap (λ x. (x, u)) h) in
          rw (same, matches, decoded) refl
      go (err e, u) h = cc

  abbrev row_issue : IssueCodeOptions P → Text → Option Text → IssueOptions ChallengeRow
  row_issue options hash stored = record {
    purpose = row_purpose rows options.purpose.name;
    subject = options.subject;
    ttl = ahead options.ttl;
    payload = record { code_hash = hash; attempts_left = options.attempts; payload = stored };
    secret = none;
  }

  -- What was asked of the store by the end of an issue.
  record IsSent (options : IssueCodeOptions P) (w : World) (issued : IssuedCode) (after : World)
      : Type 0 where
    before : World
    hash : Text
    stored : Option Text
    sent : Issued
    code : issued.code ≡ w.numeric_codes options.digits w.coded
    handle : issued.handle ≡ sent.token
    expiry : issued.expires_at ≡ sent.expires_at
    tokens : before.tokens before.drawn ≡ w.tokens w.drawn
    matches :
        code_matches mac
          (identifier_of (code_namespace options.purpose.name) options.subject)
          issued.code
          hash
        ≡ some true
    payload : (u v : World) × (encoded options.purpose.payload options.payload u ≡ (ok stored, v))
    unnamed :
        (h : Text)
        → any
            (names (identifier_of (code_namespace options.purpose.name) options.subject) h)
            before.verifications
          ≡ false
    is_issued : issue base64 hash_token (row_issue options hash stored) before ≡ (ok sent, after)

  issue_code-IsSent :
      (options : IssueCodeOptions P) (w after : World) (issued : IssuedCode)
      → IsMac mac
      → issue_code base64 hash_token mac rows options w ≡ (ok issued, after)
      → IsSent options w issued after
  unfolding issue_code
  issue_code-IsSent options w after issued laws h = elim (Bool-cases (ltb options.attempts 1)) [
    | inl e ↦ absurd (err-ne-ok (rw e at h))
    | inr e ↦
        let one =
          bind-ok (encoded options.purpose.payload options.payload) _
            (record w { coded = suc w.coded }) issued after (rw e at h) in
        let two =
          bind-ok (retire options.purpose.name options.subject) _ one.between issued after
            one.rest in
        let three =
          bind-ok (retire (code_namespace options.purpose.name) options.subject) _ two.between
            issued after two.rest in
        let four = bind-ok (code_hash_of mac _ _) _ three.between issued after three.rest in
        let five = bind-ok (issue base64 hash_token _) _ four.between issued after four.rest in
        let (matches, same) =
          code_hash_of-matches mac _ _ four.value three.between four.between laws four.first in
        let answer_is = ok_injective _ issued five.between after five.rest in
        let ended = world_of _ (ok issued) five.between after five.rest in
        let kept =
          encoded-keeps options.purpose.payload options.payload _ one.between one.value one.first in
        record {
          before = four.between;
          hash = four.value;
          stored = one.value;
          sent = five.value;
          code = sym (ap (λ (x : IssuedCode). x.code) answer_is);
          handle = sym (ap (λ (x : IssuedCode). x.handle) answer_is);
          expiry = sym (ap (λ (x : IssuedCode). x.expires_at) answer_is);
          tokens =
              sym (ap (λ (x : World). x.tokens x.drawn) same)
              ∙ retire-next _ _ two.between three.between three.value three.first
              ∙ retire-next _ _ one.between two.between two.value two.first
              ∙ sym (ap (λ (x : World). x.tokens x.drawn) kept);
          matches =
              subst
                (λ c.
                  code_matches mac
                    (identifier_of (code_namespace options.purpose.name) options.subject) c
                    four.value
                  ≡ some true)
                (ap (λ (x : IssuedCode). x.code) answer_is) matches;
          payload = (_, _, one.first);
          unnamed = λ h.
              subst
                (λ table.
                  any
                    (names (identifier_of (code_namespace options.purpose.name) options.subject) h)
                    table
                  ≡ false)
                (sym (retire-unnamed _ _ two.between three.between three.value three.first)
                  ∙ ap (λ (x : World). x.verifications) same)
                (deleted_unnamed _ h two.between.verifications);
          is_issued = five.first ∙ ap (λ x. (ok five.value, x)) ended;
        }
  ]

  -- Where base64url, the purpose, a row's codec and the platform read back what they write: the
  -- handle and the code of an issue, for a subject and with a fresh handle that are not empty, are
  -- answered with the subject and the payload of the issue while the store answers and the lifetime
  -- is not over.
  pub verify_code-issue_code :
      (d : Dialect) (options : IssueCodeOptions P) (w after : World) (issued : IssuedCode)
      → IsBase64 base64
      → IsMac mac
      → ((r : ChallengeRow) (t : Text) → rows.encode r ≡ some t → rows.decode t ≡ some r)
      → ((u v : World) (stored : Option Text)
          → encoded options.purpose.payload options.payload u ≡ (ok stored, v)
          → options.purpose.decode_payload stored ≡ some options.payload)
      → options.subject ≢ []
      → w.tokens w.drawn ≢ []
      → issue_code base64 hash_token mac rows options w ≡ (ok issued, after)
      → after.fault after.calls ≡ false
      → ltb (after.clock after.reads) issued.expires_at ≡ true
      → (row : Verification) × ((verify_code base64 hash_token mac rows d options.purpose
            issued.handle issued.code after).0
          ≡ ok (record {
            subject = options.subject;
            payload = options.payload;
            identifier = identifier_of (code_namespace options.purpose.name) options.subject;
            verification = row;
          }))
  unfolding purpose
  verify_code-issue_code d options w after issued laws platform law reads_back subject_is token_is h
        up live =
      let s = issue_code-IsSent options w after issued platform h in
      let token_fresh : s.before.tokens s.before.drawn ≢ [] =
        subst (λ t. t ≢ []) (sym s.tokens) token_is in
      let (row, expiry, found) =
        issue-claim base64 hash_token d (row_issue options s.hash s.stored) s.before after s.sent
          laws
          (row-ReadsBack base64 hash_token rows law (row_issue options s.hash s.stored)
            options.purpose.name refl)
          refl subject_is token_fresh (s.unnamed _) s.is_issued up
          (subst (λ e. ltb (after.clock after.reads) e ≡ true) s.expiry live) in
      let (u, v, stored) = s.payload in
      let claimable =
        ap (λ raw. (claim base64 hash_token d (row_purpose rows options.purpose.name) raw after).0)
          s.handle
        ∙ found in
      let (handle, read) =
        claim-reads base64 hash_token rows d options.purpose.name issued.handle after _ claimable in
      (
        row,
        verify_found d options.purpose issued.handle issued.code after handle _ options.payload read
            claimable s.matches (reads_back u v s.stored stored),
      )
