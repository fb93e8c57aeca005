-- ===== src/TwoFactor/Tests.antt =====
-- The theorems on the two-factor store and on recovery codes at concrete requests.
use effect_auth.Prelude.{
  ◌+◌, ◌≤◌, ◌≡◌, refl, none, List, [], ◌∷◌, All, codes, text_beq, text_eq_iff,
}
use effect_auth.Prelude.Maps.{get, set, remove}
use effect_auth.Prelude.Int.{pos}
use effect_auth.Runtime.{World, RecoveryCode}
use effect_auth.Runtime.Fixtures.{alice, bob, start}
use effect_auth.TwoFactor.Store
use effect_auth.TwoFactor.Store.{insert_codes}
use effect_auth.TwoFactor.Replay.{
  FactorStatement, upsert, confirm, consume, drop_enrolment, perform, accepted, Increasing,
  accepted-Increasing,
}
use effect_auth.TwoFactor.Spends
use effect_auth.TwoFactor.Spends.{replace, spend, forget, spends-stored}
use effect_auth.TwoFactor.Codes.{
  format, normalise, generate, groups_from, join_rest, to_upper, fold_characters, reads_as,
  is_letter,
}
use effect_auth.TwoFactor.Codes.Spelling.{IsCode, IsMinted, normalise-generate}
use effect_auth.TwoFactor.Fixtures.{pending, no_other}

-- Two sign-ins race with one code, a stale code comes late, and somebody tries to enrol anew.
abbrev race : List FactorStatement
race =
    upsert pending
    ∷ confirm alice.id 1000 (pos 40)
    ∷ consume alice.id (pos 41)
    ∷ consume alice.id (pos 41)
    ∷ upsert pending
    ∷ consume alice.id (pos 40)
    ∷ drop_enrolment bob.id
    ∷ consume alice.id (pos 43)
    ∷ []

raced : accepted alice.id race start ≡ pos 40 ∷ pos 41 ∷ pos 43 ∷ []
unfolding perform Store.upsert_pending_totp Store.confirm_totp Store.consume_totp_step
    Store.delete_totp get set remove text_beq
raced = refl

accepted-Increasing_example : Increasing alice.id (accepted alice.id race start)
unfolding text_beq
accepted-Increasing_example =
    accepted-Increasing alice.id race start
      ((λ e. absurd (let same = (text_eq_iff bob.id alice.id).1 e in cc)), tt)

abbrev first_code : RecoveryCode
first_code = record {
  id = codes "r1";
  user_id = alice.id;
  code_hash = codes "h1";
  used_at = none;
  created_at = 900;
}

abbrev spending : List Spends.CodeStatement
spending =
    replace [] (first_code ∷ [])
    ∷ spend alice.id (codes "h1") 1000
    ∷ spend alice.id (codes "h1") 1001
    ∷ []

spent_once : Spends.spends alice.id (codes "h1") spending start ≡ 1
unfolding Spends.perform Store.replace_held Store.consume_recovery_code insert_codes text_beq
spent_once = refl

spends-stored_example :
    Spends.unspent_rows alice.id (codes "h1") (Spends.after alice.id (codes "h1") spending start)
      + Spends.spends alice.id (codes "h1") spending start
    ≤ Spends.unspent_rows alice.id (codes "h1") start + Spends.stored alice.id (codes "h1") spending
spends-stored_example = spends-stored alice.id (codes "h1") spending start

abbrev other_code : RecoveryCode
other_code = record first_code { id = codes "r2"; code_hash = codes "h2" }

-- Two replacements of one user: the later read clears what the earlier replacement left, and of two
-- that read at once each leaves its code.
abbrev codes_after : World → List RecoveryCode
codes_after w = w.recovery_codes

replaced_in_turn :
    codes_after
      (Store.replace_recovery_codes alice.id
        (other_code ∷ [])
        (Store.replace_recovery_codes alice.id (first_code ∷ []) start).1).1
    ≡ other_code ∷ []
unfolding Store.replace_recovery_codes Store.replace_held Store.held_codes insert_codes text_beq
replaced_in_turn = refl

replaced_at_once :
    codes_after (
      Spends.perform
        (replace [] (other_code ∷ []))
        (Spends.perform (replace [] (first_code ∷ [])) start))
    ≡ first_code ∷ other_code ∷ []
unfolding Spends.perform Store.replace_held insert_codes text_beq
replaced_at_once = refl

printed : format (codes "ABCDEFGHJKMN") ≡ codes "ABCD-EFGH-JKMN"
unfolding format groups_from join_rest
printed = refl

transcribed : normalise no_other (codes "abcd efgh-JKMN o i") ≡ codes "ABCDEFGHJKMN01"
unfolding normalise to_upper fold_characters reads_as is_letter
transcribed = refl

normalise-generate_example :
    IsCode (normalise no_other (codes "oil"))
    × (normalise no_other (normalise no_other (codes "oil")) ≡ normalise no_other (codes "oil"))
    × All (IsMinted no_other) (generate 2 (7 ∷ 255 ∷ 31 ∷ []))
normalise-generate_example = normalise-generate no_other (codes "oil") 2 (7 ∷ 255 ∷ 31 ∷ [])
