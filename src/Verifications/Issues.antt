-- ===== src/Verifications/Issues.antt =====
-- What an issue stores, and that what was issued can be claimed.
use effect_auth.Prelude.{
  ℕ, suc, ◌≡◌, ◌≢◌, refl, sym, ap, ◌∙◌, subst, inl, inr, true, false, Option, none, some, List, [],
  ◌∷◌, ◌++◌, Text, text_eq, beq_self, arith, ◌==◌, head?, any, ltb, Bool-cases, Option-cases,
}
use effect_auth.Runtime.{World, Verification, ok, err-ne-ok}
use effect_auth.Runtime.Steps.{bind-ok, ok_injective, world_of}
use effect_auth.Sql.{Dialect, consume_one}
use effect_auth.Sql.Totals.{consume_one-last}
use effect_auth.Verifications.{
  Base64, Codec, TokenPurpose, Issued, IssueOptions, SubjectToken, identifier_of,
  decode_subject_token, encode_subject_token, claim, issue, secret_of, encoded, add_span,
}
use effect_auth.Verifications.Tokens.{IsBase64, decode-encode_subject_token}
use effect_auth.Verifications.Store
use effect_auth.Verifications.Store.{names, is_claimable}

unclaimable :
    (i h : Text) (at : ℕ) (rows : List Verification)
    → any (names i h) rows ≡ false
    → any (is_claimable i h at) rows ≡ false
unclaimable i h at [] none_names = refl
unclaimable i h at (row ∷ rows) none_names = ground (arith, none_names, unclaimable i h at rows)

claimable_of :
    (i h : Text) (at : ℕ) (row : Verification)
    → row.identifier ≡ i
    → row.value_hash ≡ h
    → ltb at row.expires_at ≡ true
    → is_claimable i h at row ≡ true
claimable_of i h at row i_is h_is live = rw (i_is, h_is, beq_self i, beq_self h) live

create-ok :
    (row stored : Verification) (w after : World)
    → Store.create row w ≡ (ok stored, after)
    → after.verifications ≡ w.verifications ++ row ∷ []
unfolding Store.create Store.insert_row
create-ok row stored w after h = elim (Bool-cases (w.fault w.calls)) [
  | inl e ↦ absurd (err-ne-ok (rw e at h))
  | inr e ↦ elim (Bool-cases (any (λ (r : Verification). r.id == row.id) w.verifications)) [
    | inl taken ↦ absurd (err-ne-ok (rw (e, taken) at h))
    | inr free ↦
        sym
          (ap (λ (x : World). x.verifications) (world_of _ (ok stored) _ after (rw (e, free) at h)))
  ]
]

secret_of-none :
    (o : Option Text) (w : World)
    → o ≡ none
    → secret_of o w ≡ (ok (w.tokens w.drawn), record w { drawn = suc w.drawn })
unfolding secret_of
secret_of-none o w e = rw e refl

pub secret_of-some :
    (o : Option Text) (secret : Text) (w : World) → o ≡ some secret → secret_of o w ≡ (ok secret, w)
unfolding secret_of
secret_of-some o secret w e = rw e refl

pub encoded-keeps :
    {P : Type 0} (codec : Option (Codec P)) (payload : P) (w after : World) (stored : Option Text)
    → encoded codec payload w ≡ (ok stored, after)
    → w ≡ after
unfolding encoded
encoded-keeps none payload w after stored h = world_of _ (ok stored) _ after h
encoded-keeps (some codec) payload w after stored h = elim (Option-cases (codec.encode payload)) [
  | inl e ↦ absurd (err-ne-ok (rw e at h))
  | inr (t, e) ↦ world_of _ (ok stored) _ after (rw e at h)
]

module _ (base64 : Base64) (hash_token : Text → Text) {P : Type 0} where
  -- What was stored for an issue under a secret, from the world in which the secret is there.
  pub record IsIssued (options : IssueOptions P) (secret : Text) (ready : World) (issued : Issued)
      (after : World) : Type 0 where
    pub row : Verification
    pub token : issued.token ≡ encode_subject_token base64 options.subject secret
    pub identifier : row.identifier ≡ identifier_of options.purpose.name options.subject
    pub digest : row.value_hash ≡ hash_token secret
    pub expiry : row.expires_at ≡ issued.expires_at
    pub lifetime : issued.expires_at ≡ add_span (ready.clock ready.reads) options.ttl
    pub encoding :
        (u v : World) × (encoded options.purpose.payload options.payload u ≡ (ok row.payload, v))
    pub stored : after.verifications ≡ ready.verifications ++ row ∷ []

  pub issue_sound :
      (options : IssueOptions P) (secret : Text) (w ready after : World) (issued : Issued)
      → secret_of options.secret w ≡ (ok secret, ready)
      → issue base64 hash_token options w ≡ (ok issued, after)
      → IsIssued options secret ready issued after
  unfolding issue
  issue_sound options secret w ready after issued drawn h =
      let two =
        bind-ok (encoded options.purpose.payload options.payload) _
          (record ready { reads = suc ready.reads }) issued after (rw drawn at h) in
      let kept =
        encoded-keeps options.purpose.payload options.payload
          (record ready { reads = suc ready.reads }) two.between two.value two.first in
      let three = bind-ok (Store.create _) _ _ issued after two.rest in
      let stored = create-ok _ three.value _ three.between three.first in
      let q = ok_injective _ issued three.between after three.rest in
      let ended = world_of _ (ok issued) three.between after three.rest in
      let row : Verification = record {
        id = two.between.ids two.between.minted;
        identifier = identifier_of options.purpose.name options.subject;
        value_hash = hash_token secret;
        payload = two.value;
        expires_at = add_span (ready.clock ready.reads) options.ttl;
        created_at = two.between.clock two.between.reads;
        updated_at = two.between.clock (suc two.between.reads);
      } in
      subst (λ x. IsIssued options secret ready x after) q
        (record {
          row = row;
          token = refl;
          identifier = refl;
          digest = refl;
          expiry = refl;
          lifetime = refl;
          stored =
              ap (λ (x : World). x.verifications) (sym ended)
              ∙ stored
              ∙ sym (ap (λ (x : World). x.verifications ++ row ∷ []) kept);
          encoding = (_, _, two.first);
        })

  -- What the purpose stores of the payload is what it reads back.
  abbrev pub ReadsBack : IssueOptions P → Type 0
  ReadsBack options =
      (u v : World) (stored : Option Text)
      → encoded options.purpose.payload options.payload u ≡ (ok stored, v)
      → options.purpose.decode_payload stored ≡ some options.payload

  claim-found :
      (d : Dialect) (wanted : TokenPurpose P) (raw : Text) (w : World) (parts : SubjectToken)
      (row : Verification) (payload : P)
      → decode_subject_token base64 raw ≡ some parts
      → w.fault w.calls ≡ false
      → head?
          (consume_one
            (is_claimable
              (identifier_of wanted.name parts.subject)
              (hash_token parts.secret)
              (w.clock w.reads))
            d
            w.verifications).1
        ≡ some row
      → wanted.decode_payload row.payload ≡ some payload
      → (claim base64 hash_token d wanted raw w).0
        ≡ ok (record {
          subject = parts.subject;
          payload = payload;
          identifier = identifier_of wanted.name parts.subject;
          verification = row;
        })
  unfolding claim Store.consume Store.consume_now Store.consume_row
  claim-found d wanted raw w parts row payload read up found decoded =
      rw (read, up, found, decoded) refl

  -- What was stored is claimed with its token, while it lives and the store answers.
  pub IsIssued-claim :
      (d : Dialect) (options : IssueOptions P) (secret : Text) (ready after : World)
      (issued : Issued)
      → IsBase64 base64
      → ReadsBack options
      → options.subject ≢ []
      → secret ≢ []
      → any
          (names (identifier_of options.purpose.name options.subject) (hash_token secret))
          ready.verifications
        ≡ false
      → IsIssued options secret ready issued after
      → after.fault after.calls ≡ false
      → ltb (after.clock after.reads) issued.expires_at ≡ true
      → (row : Verification) × (row.expires_at ≡ issued.expires_at)
        × ((claim base64 hash_token d options.purpose issued.token after).0
            ≡ ok (record {
              subject = options.subject;
              payload = options.payload;
              identifier = identifier_of options.purpose.name options.subject;
              verification = row;
            }))
  IsIssued-claim d options secret ready after issued laws reads_back subject_is secret_is unused i
        up live =
      let hash = hash_token secret in
      let name = identifier_of options.purpose.name options.subject in
      let at = after.clock after.reads in
      let claimable =
        claimable_of name hash at i.row i.identifier i.digest
          (subst (λ e. ltb at e ≡ true) (sym i.expiry) live) in
      let found =
        consume_one-last (is_claimable name hash at) d ready.verifications i.row
          (unclaimable name hash at ready.verifications unused) claimable in
      let (u, v, stored) = i.encoding in
      let read =
        ap (decode_subject_token base64) i.token
        ∙ decode-encode_subject_token base64 options.subject secret laws subject_is secret_is in
      (
        i.row,
        i.expiry,
        claim-found d options.purpose issued.token after
            (record { subject = options.subject; secret = secret }) i.row options.payload read up
            (ap (λ rows. head? (consume_one (is_claimable name hash at) d rows).1) i.stored ∙ found)
            (reads_back u v i.row.payload stored),
      )

  -- Where base64url and the purpose read back what they write: a token that was issued for a
  -- subject and with a fresh secret that are not empty is claimed under its purpose, where the
  -- store answers, its lifetime is not over and no row stood under the digest of the secret. The
  -- claim answers the subject and the payload that the token was issued with, and the row with
  -- the expiry that the issuer was told.
  pub issue-claim :
      (d : Dialect) (options : IssueOptions P) (w after : World) (issued : Issued)
      → IsBase64 base64
      → ReadsBack options
      → options.secret ≡ none
      → options.subject ≢ []
      → w.tokens w.drawn ≢ []
      → any
          (names
            (identifier_of options.purpose.name options.subject)
            (hash_token (w.tokens w.drawn)))
          w.verifications
        ≡ false
      → issue base64 hash_token options w ≡ (ok issued, after)
      → after.fault after.calls ≡ false
      → ltb (after.clock after.reads) issued.expires_at ≡ true
      → (row : Verification) × (row.expires_at ≡ issued.expires_at)
        × ((claim base64 hash_token d options.purpose issued.token after).0
            ≡ ok (record {
              subject = options.subject;
              payload = options.payload;
              identifier = identifier_of options.purpose.name options.subject;
              verification = row;
            }))
  issue-claim d options w after issued laws reads_back fresh subject_is secret_is unused h =
      let ready = record w { drawn = suc w.drawn } in
      IsIssued-claim d options (w.tokens w.drawn) ready after issued laws reads_back subject_is
        secret_is unused
        (issue_sound options (w.tokens w.drawn) w ready after issued
          (secret_of-none options.secret w fresh) h)
