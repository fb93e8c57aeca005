-- ===== src/Challenges/Tests.antt =====
-- Concrete challenges, with a codec and a MAC that are easy to compute.
use effect_auth.Prelude.{
  ◌+◌, ◌≡◌, ◌≤◌, refl, ap, subst, true, false, Option, none, some, List, [], ◌∷◌, ◌++◌, Text,
  length, take, drop, ltb, take-length-append, drop-length-append, codes, text_beq, text_eq_iff,
}
use effect_auth.Runtime.{World, Verification, ok}
use effect_auth.Runtime.Steps.{ok_injective}
use effect_auth.Runtime.Fixtures.{start, tagged}
use effect_auth.Sql.{mysql}
use effect_auth.Verifications.{
  Codec, TokenPurpose, plain_purpose, purpose, encode_subject_token, identifier_of, issue, encoded,
  secret_of, retire, decode_absent,
}
use effect_auth.Verifications.Fixtures.{shifting, shifting-IsBase64}
use effect_auth.Verifications.Store
use effect_auth.Challenges.{
  ChallengeRow, Mac, IssueCodeOptions, IssuedCode, code_namespace, issue_code, verify_code,
}
use effect_auth.Challenges.Answers.{IsMac, verify_code-issue_code}
use effect_auth.Challenges.Restores.{budget}
use effect_auth.Challenges.Budget.{all_compared, after_all, all_compared-budget}

abbrev payload_text : Option Text → Text
payload_text none = []
payload_text (some t) = 1 ∷ t

abbrev text_payload : Text → Option Text
text_payload [] = none
text_payload (c ∷ t) = some t

abbrev encode_row : ChallengeRow → Option Text
encode_row r = some (r.attempts_left ∷ length r.code_hash ∷ r.code_hash ++ payload_text r.payload)

abbrev decode_row : Text → Option ChallengeRow
decode_row (n ∷ l ∷ t) =
    some (record { code_hash = take l t; attempts_left = n; payload = text_payload (drop l t) })
decode_row _ = none

abbrev plain_codec : Codec ChallengeRow
plain_codec = record { encode = encode_row; decode = decode_row }

payload_round : (o : Option Text) → text_payload (payload_text o) ≡ o
payload_round none = refl
payload_round (some t) = refl

reads_back :
    (r : ChallengeRow)
    → decode_row (r.attempts_left ∷ length r.code_hash ∷ r.code_hash ++ payload_text r.payload)
      ≡ some r
reads_back r =
    rw
      (
        take-length-append r.code_hash (payload_text r.payload),
        drop-length-append r.code_hash (payload_text r.payload),
        payload_round r.payload,
      )
      refl

plain_law :
    (r : ChallengeRow) (t : Text) → plain_codec.encode r ≡ some t → plain_codec.decode t ≡ some r
plain_law r t h =
    subst (λ x. decode_row x ≡ some r) (ap (λ o. elim o [ none ↦ [] | some x ↦ x ]) h)
      (reads_back r)

abbrev open_mac : Mac
open_mac = record {
  sign = λ bytes. some bytes;
  verify = λ bytes tag. some (text_beq bytes tag);
  utf8 = λ t. t;
  to_text = λ bytes. bytes;
  of_text = λ t. some t;
}

abbrev email_sign_in : TokenPurpose (Unit {0})
email_sign_in = plain_purpose (codes "sign-in")

abbrev asked : IssueCodeOptions (Unit {0})
asked = record {
  purpose = email_sign_in;
  subject = codes "alice";
  digits = 6;
  ttl = 600;
  attempts = 3;
  payload = tt;
}

abbrev sent : World
sent = (issue_code shifting tagged open_mac plain_codec asked start).1

abbrev handle : Text
handle = encode_subject_token shifting (codes "alice") (116 ∷ 0 ∷ [])

abbrev challenge_identifier : Text
challenge_identifier = identifier_of (code_namespace (codes "sign-in")) (codes "alice")

abbrev guesses : List (TokenPurpose (Unit {0}) × Text × Text)
guesses = (email_sign_in, handle, codes "0") ∷ (email_sign_in, handle, codes "1") ∷ []

all_compared-budget_example :
    budget plain_codec challenge_identifier (tagged (116 ∷ 0 ∷ [])) (
        after_all plain_codec plain_law shifting tagged challenge_identifier
          (tagged (116 ∷ 0 ∷ []))
          open_mac
          mysql
          guesses
          sent)
      + all_compared plain_codec plain_law shifting tagged challenge_identifier
          (tagged (116 ∷ 0 ∷ []))
          open_mac
          mysql
          guesses
          sent
    ≤ budget plain_codec challenge_identifier (tagged (116 ∷ 0 ∷ [])) sent
all_compared-budget_example =
    all_compared-budget plain_codec plain_law shifting tagged challenge_identifier
      (tagged (116 ∷ 0 ∷ [])) open_mac mysql guesses sent

open_mac-IsMac : IsMac open_mac
open_mac-IsMac = record {
  encodes = λ tag. refl;
  verifies = λ bytes tag h.
      ap some ((text_eq_iff bytes tag).1 (ap (λ o. elim o [ none ↦ bytes | some x ↦ x ]) h));
}

abbrev code_sent : IssuedCode
code_sent = record { handle = handle; code = 99 ∷ 0 ∷ []; expires_at = 1600 }

issue_code-asked :
    issue_code shifting tagged open_mac plain_codec asked start ≡ (ok code_sent, sent)
unfolding text_beq issue_code retire Store.delete_by_identifier Store.delete_rows issue encoded
    secret_of Store.create Store.insert_row plain_purpose purpose encode_subject_token
issue_code-asked = refl

asked-reads_back :
    (u v : World) (stored : Option Text)
    → encoded asked.purpose.payload asked.payload u ≡ (ok stored, v)
    → asked.purpose.decode_payload stored ≡ some tt
unfolding encoded plain_purpose decode_absent
asked-reads_back u v stored h =
    subst (λ s. decode_absent s ≡ some tt) (ok_injective none stored u v h) refl

sent-answers : sent.fault sent.calls ≡ false
unfolding text_beq issue_code retire Store.delete_by_identifier Store.delete_rows issue encoded
    secret_of Store.create Store.insert_row plain_purpose purpose encode_subject_token
sent-answers = refl

sent-live : ltb (sent.clock sent.reads) 1600 ≡ true
unfolding text_beq issue_code retire Store.delete_by_identifier Store.delete_rows issue encoded
    secret_of Store.create Store.insert_row plain_purpose purpose encode_subject_token
sent-live = refl

verify_code-issue_code_example :
    (row : Verification) × ((verify_code shifting tagged open_mac plain_codec mysql asked.purpose
        handle
        (99 ∷ 0 ∷ [])
        sent).0
      ≡ ok (record {
        subject = codes "alice";
        payload = tt;
        identifier = identifier_of (code_namespace email_sign_in.name) (codes "alice");
        verification = row;
      }))
verify_code-issue_code_example =
    verify_code-issue_code shifting tagged open_mac plain_codec mysql asked start sent code_sent
      shifting-IsBase64 open_mac-IsMac plain_law asked-reads_back (λ e. cc) (λ e. cc)
      issue_code-asked sent-answers sent-live
