-- ===== src/SignIn/Pipeline.antt =====
-- How deciders combine.
use effect_auth.Prelude.{◌≡◌, refl, Option, none, some}
use effect_auth.Runtime.{World, Result, ok, err, resume, ◌>>=◌}
use effect_auth.SignIn.{
  Decider, SignInDecision, CompleteOptions, proceed, challenge, decided, combine, run_decider,
}

decided_assoc :
    (second third : Decider) (options : CompleteOptions) (r : Result SignInDecision × World)
    → resume (resume r (decided second options)) (decided third options)
      ≡ resume r (decided (λ o. second o >>= decided third o) options)
decided_assoc second third options (ok proceed, w) = refl
decided_assoc second third options (ok (challenge c), w) = refl
decided_assoc second third options (err e, w) = refl

-- It does not matter how three deciders, each of which may be absent, are grouped: the same ones
-- run in the same order, and the answer and the world that they leave are the same.
pub combine_assoc :
    (first second third : Option Decider) (options : CompleteOptions) (w : World)
    → run_decider (combine (combine first second) third) options w
      ≡ run_decider (combine first (combine second third)) options w
unfolding combine
combine_assoc none second third options w = refl
combine_assoc (some first) none third options w = refl
combine_assoc (some first) (some second) none options w = refl
combine_assoc (some first) (some second) (some third) options w =
    decided_assoc second third options (first options w)
