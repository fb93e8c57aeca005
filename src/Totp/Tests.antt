-- ===== src/Totp/Tests.antt =====
-- The time-based codes at concrete moments.
use effect_auth.Prelude.{ℕ, ◌≡◌, refl, Option, none, some, List, [], ◌∷◌, arith, codes, length}
use effect_auth.Prelude.Int.{ℤ, pos, negsuc}
use effect_auth.Runtime.{ok, err, defect}
use effect_auth.Totp.{
  Algorithm, VerifyOptions, bytes_of, counter_bytes, byte_at, last_byte, padded, truncate, code_for,
  generate, verify, matched, steps_from, equal_codes, difference, step_at, bad_digits,
}
use effect_auth.Totp.Bytes.{big_endian, big_endian-counter_bytes}
use effect_auth.Totp.Answers.{IsEarliest, verify_exact}

-- The tag of RFC 4226, section 5.4, for every key and message.
abbrev rfc_sign : Algorithm → List ℕ → List ℕ → List ℕ
rfc_sign algorithm key message =
    0x1f ∷ 0x86 ∷ 0x98 ∷ 0x69 ∷ 0x0e ∷ 0x02 ∷ 0xca ∷ 0x16 ∷ 0x61 ∷ 0x85 ∷ 0x50 ∷ 0xef ∷ 0x7f ∷ 0x19
    ∷ 0xda ∷ 0x8e ∷ 0x94 ∷ 0x5b ∷ 0x55 ∷ 0x5a ∷ []

rfc_code : truncate (rfc_sign Algorithm.sha_1 [] []) 6 ≡ codes "872921"
unfolding truncate last_byte byte_at padded
rfc_code = refl

-- A tag that is the message: it begins with zeros.
abbrev plain_sign : Algorithm → List ℕ → List ℕ → List ℕ
plain_sign algorithm key message = message

abbrev presented : VerifyOptions
presented = record {
  secret = [];
  code = codes "000000";
  now = 61000;
  window = none;
  last_used_step = some (pos 1);
  period = none;
  digits = none;
  algorithm = none;
}

before_epoch : counter_bytes (negsuc 1) ≡ 255 ∷ 255 ∷ 255 ∷ 255 ∷ 255 ∷ 255 ∷ 255 ∷ 254 ∷ []
unfolding counter_bytes bytes_of
before_epoch = refl

too_few : verify plain_sign (record presented { digits = some 4 }) ≡ err (defect bad_digits)
unfolding verify
too_few = refl

verify_exact_example :
    (r : Option ℤ) × (verify plain_sign presented ≡ ok r) × IsEarliest plain_sign presented r
verify_exact_example = verify_exact plain_sign presented refl

counter_read_back :
    (length (counter_bytes (pos 37037036)) ≡ 8)
    × (big_endian 0 (counter_bytes (pos 37037036)) ≡ 37037036)
counter_read_back = big_endian-counter_bytes 37037036 (omega arith)

current_code :
    generate plain_sign (record { secret = []; step = pos 2; digits = none; algorithm = none })
    ≡ ok (codes "000000")
unfolding generate code_for truncate last_byte byte_at padded counter_bytes bytes_of
current_code = refl

replayed : verify plain_sign (record presented { last_used_step = some (pos 3) }) ≡ ok none
unfolding verify step_at steps_from
replayed = refl

accepted : verify plain_sign presented ≡ ok (some (pos 2))
unfolding verify step_at steps_from matched equal_codes difference code_for truncate last_byte
    byte_at padded counter_bytes bytes_of
accepted = refl
