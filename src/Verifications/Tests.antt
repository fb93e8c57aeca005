-- ===== src/Verifications/Tests.antt =====
-- The theorems on tokens and claims at concrete ones, with an encoding that shifts every unit.
use effect_auth.Prelude.{
  ◌+◌, ◌≡◌, ◌≢◌, ◌≤◌, refl, subst, false, none, some, List, [], ◌∷◌, All, codes, text_beq,
}
use effect_auth.Runtime.{World, Verification, ok}
use effect_auth.Runtime.Steps.{ok_injective}
use effect_auth.Runtime.Fixtures.{start, tagged}
use effect_auth.Sql.{pg, mysql, consume_one}
use effect_auth.Verifications.{
  IssueOptions, Issued, Claimed, ahead, encode_subject_token, decode_subject_token, index_of,
  split_at, plain_purpose, decode_absent, identifier_of, issue, claim, encoded, secret_of,
}
use effect_auth.Verifications.Store
use effect_auth.Verifications.Store.{names}
use effect_auth.Verifications.Tokens.{decode-encode_subject_token, identifier_of_injective}
use effect_auth.Verifications.Fixtures.{shifting, shifting-IsBase64}
use effect_auth.Verifications.Races.{
  Statement, insert, consume, delete_past, held, after, wins, issued, wins-issued,
}
use effect_auth.Verifications.Claims.{IsClaimed, claim_sound}
use effect_auth.Verifications.Issues.{ReadsBack, issue-claim}

decode-encode_subject_token_example :
    decode_subject_token shifting (encode_subject_token shifting (codes "alice") (codes "k1"))
    ≡ some (record { subject = codes "alice"; secret = codes "k1" })
decode-encode_subject_token_example =
    decode-encode_subject_token shifting (codes "alice") (codes "k1") shifting-IsBase64 (λ e. cc)
      (λ e. cc)

identifier_of_injective_example : (codes "reset" ≡ codes "reset") × (codes "a:b" ≡ codes "a:b")
identifier_of_injective_example =
    identifier_of_injective (codes "reset") (codes "reset") (codes "a:b") (codes "a:b")
      name_HasNoColon name_HasNoColon refl
  where
    name_HasNoColon : All (λ d. d ≢ b':') (codes "reset")
    name_HasNoColon = ((λ e. cc), ((λ e. cc), ((λ e. cc), ((λ e. cc), ((λ e. cc), tt)))))

abbrev reset : IssueOptions (Unit {0})
reset = record {
  purpose = plain_purpose (codes "reset");
  subject = codes "alice";
  ttl = ahead 60;
  payload = tt;
  secret = none;
}

abbrev reset_issued : Issued
reset_issued = record {
  token = encode_subject_token shifting (codes "alice") (116 ∷ 0 ∷ []);
  expires_at = 1060;
  identifier = identifier_of (codes "reset") (codes "alice");
}

abbrev reset_stored : World
reset_stored = (issue shifting tagged reset start).1

issue-reset : issue shifting tagged reset start ≡ (ok reset_issued, reset_stored)
unfolding text_beq issue encoded secret_of Store.create Store.insert_row plain_purpose
issue-reset = refl

reset-ReadsBack : ReadsBack shifting tagged reset
unfolding encoded plain_purpose decode_absent
reset-ReadsBack u v stored h =
    subst (λ s. decode_absent s ≡ some tt) (ok_injective none stored u v h) refl

reset_answers : reset_stored.fault reset_stored.calls ≡ false
unfolding text_beq issue encoded secret_of Store.create Store.insert_row plain_purpose
reset_answers = refl

issue-claim_example :
    (row : Verification) × (row.expires_at ≡ 1060)
    × ((claim shifting tagged mysql reset.purpose reset_issued.token reset_stored).0
        ≡ ok (record {
          subject = codes "alice";
          payload = tt;
          identifier = identifier_of (plain_purpose (codes "reset")).name (codes "alice");
          verification = row;
        }))
unfolding text_beq issue encoded secret_of Store.create Store.insert_row plain_purpose
issue-claim_example =
    issue-claim shifting tagged mysql reset start reset_stored reset_issued shifting-IsBase64
      reset-ReadsBack refl (λ e. cc) (λ e. cc) refl issue-reset reset_answers refl

abbrev reset_row : Verification
reset_row = record {
  id = 105 ∷ 0 ∷ [];
  identifier = identifier_of (codes "reset") (codes "alice");
  value_hash = tagged (116 ∷ 0 ∷ []);
  payload = none;
  expires_at = 1060;
  created_at = 1001;
  updated_at = 1002;
}

abbrev outstanding : World
outstanding = record start { verifications = reset_row ∷ []; drawn = 1; reads = 3 }

abbrev reset_claimed : Claimed (Unit {0})
reset_claimed = record {
  subject = codes "alice";
  payload = tt;
  identifier = identifier_of (codes "reset") (codes "alice");
  verification = reset_row;
}

claim_reset :
    claim shifting tagged pg (plain_purpose (codes "reset")) reset_issued.token outstanding
    ≡ (ok reset_claimed, record outstanding { verifications = []; reads = 4; calls = 1 })
unfolding text_beq claim decode_subject_token encode_subject_token index_of split_at Store.consume
    Store.consume_now Store.consume_row consume_one plain_purpose decode_absent
claim_reset = refl

claim_sound_example :
    IsClaimed shifting tagged pg
      (plain_purpose (codes "reset"))
      reset_issued.token
      outstanding
      reset_claimed
      (record outstanding { verifications = []; reads = 4; calls = 1 })
claim_sound_example =
    claim_sound shifting tagged pg (plain_purpose (codes "reset")) reset_issued.token outstanding
      (record outstanding { verifications = []; reads = 4; calls = 1 }) reset_claimed claim_reset

-- Two requests claim the token that a third has stored, and a clean-up runs in between.
abbrev race : List Statement
race =
    insert reset_row
    ∷ consume reset_row.identifier reset_row.value_hash
    ∷ delete_past
    ∷ consume reset_row.identifier reset_row.value_hash
    ∷ []

wins-issued_example :
    held pg reset_row.identifier reset_row.value_hash
        (after pg reset_row.identifier reset_row.value_hash race start)
      + wins pg reset_row.identifier reset_row.value_hash race start
    ≤ held pg reset_row.identifier reset_row.value_hash start
      + issued pg reset_row.identifier reset_row.value_hash race
wins-issued_example = wins-issued pg reset_row.identifier reset_row.value_hash race start
