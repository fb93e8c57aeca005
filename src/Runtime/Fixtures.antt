-- ===== src/Runtime/Fixtures.antt =====
-- A world to run the tests in: a clock that ticks, sources that count, and a store that answers.
use effect_auth.Prelude.{◌+◌, true, false, [], ◌∷◌, Text}
use effect_auth.Runtime.{World, User}

abbrev pub alice : User
alice = record { id = 97 ∷ []; email = 97 ∷ 64 ∷ []; email_verified = true }

abbrev pub bob : User
bob = record { id = 98 ∷ []; email = 98 ∷ 64 ∷ []; email_verified = false }

abbrev pub start : World
start = record {
  clock = λ n. 1000 + n;
  reads = 0;
  tokens = λ n. 116 ∷ n ∷ [];
  drawn = 0;
  ids = λ n. 105 ∷ n ∷ [];
  minted = 0;
  numeric_codes = λ digits n. 99 ∷ n ∷ [];
  coded = 0;
  fault = λ n. false;
  calls = 0;
  users = alice ∷ bob ∷ [];
  accounts = [];
  sessions = [];
  verifications = [];
  enrolments = [];
  recovery_codes = [];
  trusted_devices = [];
  events = [];
  mails = [];
}

-- A digest that no two texts share.
abbrev pub tagged : Text → Text
tagged t = 104 ∷ t
