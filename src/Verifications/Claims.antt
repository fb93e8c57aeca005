-- ===== src/Verifications/Claims.antt =====
-- What a claim takes, and that what was issued can be claimed.
use effect_auth.Prelude.{
  ℕ, ◌<◌, ◌&&◌, ◌==◌, Bool, not, Memᴰ, filter, length, text_eq_iff, ltb→lt, arith, ◌≡◌, refl, sym,
  ap, ◌∙◌, subst, inl, inr, true, Option, some, Text, text_eq, head?, Bool-cases,
}
use effect_auth.Runtime.{World, Verification, Result, ok, invalid_token, from_option, err-ne-ok}
use effect_auth.Runtime.Steps.{bind-ok, ok_injective, world_of, from_option-ok}
use effect_auth.Sql.{Dialect, consume_one}
use effect_auth.Sql.Totals.{head?-consume_one}
use effect_auth.Sql.Consumed.{taken-memᴰ, fewer_left, others_stay}
use effect_auth.Verifications.{
  Base64, TokenPurpose, Claimed, SubjectToken, identifier_of, decode_subject_token, claim,
}
use effect_auth.Verifications.Store
use effect_auth.Verifications.Store.{names, is_claimable}

consume-ok :
    (d : Dialect) (i h : Text) (w after : World) (found : Option Verification)
    → Store.consume d i h w ≡ (ok found, after)
    → (found ≡ head? (consume_one (is_claimable i h (w.clock w.reads)) d w.verifications).1)
      × (after.verifications
          ≡ (consume_one (is_claimable i h (w.clock w.reads)) d w.verifications).0)
unfolding Store.consume Store.consume_now Store.consume_row
consume-ok d i h w after found q = elim (Bool-cases (w.fault w.calls)) [
  | inl e ↦ absurd (err-ne-ok (rw e at q))
  | inr e ↦ (
    sym (ok_injective _ found _ after (rw e at q)),
    sym (ap (λ (x : World). x.verifications) (world_of _ (ok found) _ after (rw e at q))),
  )
]

-- Rows of an identifier and a digest.
abbrev pub stands_for : Text → Text → Verification → Bool
stands_for identifier value_hash row = row.identifier == identifier && row.value_hash == value_hash

claimable_stands :
    (i h : Text) (at : ℕ) (r : Verification)
    → is_claimable i h at r ≡ true
    → stands_for i h r ≡ true
claimable_stands i h at r live = ground arith

module _ (base64 : Base64) (hash_token : Text → Text) {P : Type 0} (d : Dialect)
    (wanted : TokenPurpose P) where
  -- The row that was handed out stood in the table, under the name of the purpose and the
  -- subject that the token carries, under the digest of its secret, and had not expired; fewer
  -- such rows are left, and no other row is touched.
  pub record IsClaimed (raw : Text) (w : World) (claimed : Claimed P) (after : World) : Type 0 where
    pub parts : SubjectToken
    pub read : decode_subject_token base64 raw ≡ some parts
    pub subject : claimed.subject ≡ parts.subject
    pub identifier : claimed.identifier ≡ identifier_of wanted.name parts.subject
    pub payload : wanted.decode_payload claimed.verification.payload ≡ some claimed.payload
    pub held : Memᴰ claimed.verification w.verifications
    pub named : claimed.verification.identifier ≡ claimed.identifier
    pub digest : claimed.verification.value_hash ≡ hash_token parts.secret
    pub alive : w.clock w.reads < claimed.verification.expires_at
    pub fewer :
        length
          (filter (stands_for claimed.identifier (hash_token parts.secret)) after.verifications)
        < length (filter (stands_for claimed.identifier (hash_token parts.secret)) w.verifications)
    pub others :
        filter
          (λ r. not (stands_for claimed.identifier (hash_token parts.secret) r))
          after.verifications
        ≡ filter
            (λ r. not (stands_for claimed.identifier (hash_token parts.secret) r))
            w.verifications

  -- A claim that succeeds took the token apart into a subject and a secret and handed out a row
  -- that stood in the table, under the purpose's identifier of that subject and the digest of
  -- that secret, which had not expired and whose payload the purpose reads; afterwards there are
  -- fewer rows under that identifier and digest, and all the others are as they were, in every
  -- dialect.
  pub claim_sound :
      (raw : Text) (w after : World) (claimed : Claimed P)
      → claim base64 hash_token d wanted raw w ≡ (ok claimed, after)
      → IsClaimed raw w claimed after
  unfolding claim
  claim_sound raw w after claimed h =
      let one =
        bind-ok (from_option (decode_subject_token base64 raw) invalid_token) _ w claimed after h in
      let two =
        bind-ok
          (Store.consume d (identifier_of wanted.name one.value.subject)
            (hash_token one.value.secret))
          _ one.between claimed after one.rest in
      let three =
        bind-ok (from_option two.value invalid_token) _ two.between claimed after two.rest in
      let four =
        bind-ok (from_option (wanted.decode_payload three.value.payload) invalid_token) _
          three.between claimed after three.rest in
      let (read, same) =
        from_option-ok (decode_subject_token base64 raw) invalid_token w one.between one.value
          one.first in
      let (found, left) =
        consume-ok d (identifier_of wanted.name one.value.subject) (hash_token one.value.secret) w
          two.between two.value
          (subst
            (λ x.
              Store.consume d (identifier_of wanted.name one.value.subject)
                (hash_token one.value.secret) x
              ≡ (ok two.value, two.between))
            (sym same) two.first) in
      let (is_row, kept) =
        from_option-ok two.value invalid_token two.between three.between three.value three.first in
      let (decoded, still) =
        from_option-ok (wanted.decode_payload three.value.payload) invalid_token three.between
          four.between four.value four.first in
      let head_is = sym found ∙ is_row in
      let picked = is_claimable (named one.value) (hashed one.value) (w.clock w.reads) in
      let live = head?-consume_one picked d w.verifications three.value head_is in
      let wider = λ (r : Verification) (h : picked r ≡ true). claimable_stands _ _ _ r h in
      let ended : four.between ≡ after = ap (λ (r : Result (Claimed P) × World). r.1) four.rest in
      let rows_left =
        ap (λ (x : World). x.verifications) (sym ended ∙ sym still ∙ sym kept) ∙ left in
      subst (λ c. IsClaimed raw w c after) (ok_injective _ claimed four.between after four.rest)
        (record {
          parts = one.value;
          read = read;
          subject = refl;
          identifier = refl;
          payload = decoded;
          held = taken-memᴰ picked picked d w.verifications three.value head_is;
          named = (text_eq_iff three.value.identifier (named one.value)).0 (ground (arith, live));
          digest = (text_eq_iff three.value.value_hash (hashed one.value)).0 (ground (arith, live));
          alive = ltb→lt _ _ (ground (arith, live));
          fewer =
              subst
                (λ l.
                  length (filter (stands_for (named one.value) (hashed one.value)) l)
                  < length
                      (filter (stands_for (named one.value) (hashed one.value)) w.verifications))
                (sym rows_left)
                (fewer_left picked (stands_for (named one.value) (hashed one.value)) wider d
                  w.verifications three.value head_is);
          others =
              ap (filter (λ r. not (stands_for (named one.value) (hashed one.value) r))) rows_left
              ∙ others_stay picked (stands_for (named one.value) (hashed one.value)) wider d
                  w.verifications;
        })
    where
      named : SubjectToken → Text
      named parts = identifier_of wanted.name parts.subject

      hashed : SubjectToken → Text
      hashed parts = hash_token parts.secret
