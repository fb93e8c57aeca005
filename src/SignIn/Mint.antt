-- ===== src/SignIn/Mint.antt =====
-- When a sign-in mints a session and what it has run by then.
use effect_auth.Prelude.{◌≡◌, refl, ap, subst, sym, ◌∙◌, Option, [], ◌∷◌, ◌++◌, Text}
use effect_auth.Runtime.{World, Session, User, Result, ok, err, signed_in}
use effect_auth.Runtime.Steps.{bind-ok}
use effect_auth.Sessions.{SessionConfig, CreatedSession}
use effect_auth.Sessions.Service
use effect_auth.Sessions.Mint.{IsMinted, create_sound}
use effect_auth.SignIn.{
  CompleteOptions, SignInChallenge, SignInDecision, SignInResult, Decider, Hooks, Hook, proceed,
  challenge, complete, owed, run_hook, run_decider, method_of, request_of, announce, mint, conclude,
  proceed_to_mint, complete_sign_in,
}

-- The decision that a result stands for.
back : Result SignInResult × World → Result SignInDecision × World
back (ok (owed c), w) = (ok (challenge c), w)
back (ok (complete session user token), w) = (ok proceed, w)
back (err e, w) = (err e, w)

module _ (hash_token : Text → Text) (config : SessionConfig) (options : CompleteOptions) where
  -- What the mint of a sign-in did.
  pub record IsSignedIn (before : World) (session : Session) (user : User) (token : Text)
      (after : World) : Type 0 where
    pub person : user ≡ options.user
    pub owner : session.user_id ≡ options.user.id
    pub drawn : token ≡ before.tokens before.drawn
    pub digest : session.token_hash ≡ hash_token token
    pub stored : after.sessions ≡ before.sessions ++ session ∷ []
    pub published :
        after.events
        ≡ before.events
          ++ signed_in options.user.id session.id (method_of options.source) session.methods ∷ []

  mint-complete :
      (before after : World) (result : SignInResult)
      → mint hash_token config options before ≡ (ok result, after)
      → (session : Session) × (token : Text) × (result ≡ complete session options.user token)
        × IsSignedIn before session options.user token after
  unfolding mint
  mint-complete before after result h =
      let one =
        bind-ok (Service.create hash_token config (request_of options)) (announce options) before
          result after h in
      announced one.value one.between one.first one.rest
    where
      result_of :
          (c : CreatedSession) (between : World)
          → announce options c between ≡ (ok result, after)
          → result ≡ complete c.session options.user c.token
      result_of c between rest = sym (
          ap
            (λ (r : Result SignInResult × World). elim r.0 [
              | ok s ↦ s
              | err e ↦ complete c.session options.user c.token
            ])
            rest)

      announced :
          (c : CreatedSession) (between : World)
          → Service.create hash_token config (request_of options) before ≡ (ok c, between)
          → announce options c between ≡ (ok result, after)
          → (session : Session) × (token : Text) × (result ≡ complete session options.user token)
            × IsSignedIn before session options.user token after
      announced c between first rest =
          let m : IsMinted hash_token config (request_of options) before between c =
            subst (λ x. IsMinted hash_token config (request_of options) before x c)
              (ap (λ (r : Result CreatedSession × World). r.1) first)
              (create_sound hash_token config (request_of options) before c
                (ap (λ (r : Result CreatedSession × World). r.0) first)) in
          let left : record between {
            events =
                between.events
                ++ signed_in options.user.id c.session.id (method_of options.source)
                    c.session.methods
                  ∷ [];
          }
              ≡ after =
            ap (λ (r : Result SignInResult × World). r.1) rest in
          (
            c.session,
            c.token,
            result_of c between rest,
            record {
              person = refl;
              owner = rw m.session refl;
              drawn = m.token;
              digest = rw (m.session, m.token) refl;
              stored = sym (ap (λ (x : World). x.sessions) left) ∙ m.stored;
              published =
                  sym (ap (λ (x : World). x.events) left)
                  ∙ ap
                      (λ x.
                        x
                        ++ signed_in options.user.id c.session.id (method_of options.source)
                            c.session.methods
                          ∷ [])
                      m.events;
            },
          )

  pub record IsPrepared (before_mint : Hook) (undecided : World) (result : SignInResult)
      (after : World) : Type 0 where
    pub before : World
    pub session : Session
    pub token : Text
    pub prepared : run_hook before_mint options undecided ≡ (ok tt, before)
    pub is_complete : result ≡ complete session options.user token
    pub signed : IsSignedIn before session options.user token after

  proceed_to_mint_complete :
      (before_mint : Hook) (undecided after : World) (result : SignInResult)
      → proceed_to_mint hash_token config before_mint options undecided ≡ (ok result, after)
      → IsPrepared before_mint undecided result after
  unfolding proceed_to_mint
  proceed_to_mint_complete before_mint undecided after result h =
      let one = bind-ok (run_hook before_mint options) _ undecided result after h in
      let (session, token, is_complete, signed) = mint-complete one.between after result one.rest in
      record {
        before = one.between;
        session = session;
        token = token;
        prepared = one.first;
        is_complete = is_complete;
        signed = signed;
      }

module _ (hash_token : Text → Text) (config : SessionConfig) (hooks : Hooks)
    (decide : Option Decider) (options : CompleteOptions) where
  record Decided (w : World) (result : SignInResult) (after : World) : Type 0 where
    between : World
    undecided : World
    decision : SignInDecision
    permitted : run_hook hooks.before_session_create options w ≡ (ok tt, between)
    decided : run_decider decide options between ≡ (ok decision, undecided)
    concluded :
        conclude hash_token config hooks.before_session_mint options decision undecided
        ≡ (ok result, after)

  Decided-of :
      (w after : World) (result : SignInResult)
      → complete_sign_in hash_token config hooks decide options w ≡ (ok result, after)
      → Decided w result after
  unfolding complete_sign_in
  Decided-of w after result h =
      let one = bind-ok (run_hook hooks.before_session_create options) _ w result after h in
      let two = bind-ok (run_decider decide options) _ one.between result after one.rest in
      record {
        between = one.between;
        undecided = two.between;
        decision = two.value;
        permitted = one.first;
        decided = two.first;
        concluded = two.rest;
      }

  pub record IsOwed (w : World) (c : SignInChallenge) (after : World) : Type 0 where
    pub between : World
    pub permitted : run_hook hooks.before_session_create options w ≡ (ok tt, between)
    pub interrupted : run_decider decide options between ≡ (ok (challenge c), after)

  pub complete_sign_in-owed :
      (w after : World) (c : SignInChallenge)
      → complete_sign_in hash_token config hooks decide options w ≡ (ok (owed c), after)
      → IsOwed w c after
  unfolding back
  complete_sign_in-owed w after c h =
      let d = Decided-of w after (owed c) h in
      record {
        between = d.between;
        permitted = d.permitted;
        interrupted = d.decided ∙ interrupted d.decision d.undecided d.concluded;
      }
    where
      interrupted :
          (decision : SignInDecision) (undecided : World)
          → conclude hash_token config hooks.before_session_mint options decision undecided
            ≡ (ok (owed c), after)
          → ◌≡◌ {A = Result SignInDecision × World}
              (ok decision, undecided)
              (ok (challenge c), after)
      interrupted (challenge d) undecided concluded = ap back concluded
      interrupted proceed undecided concluded =
          let p =
            proceed_to_mint_complete hash_token config options hooks.before_session_mint undecided
              after (owed c) concluded in
          cc p.is_complete

  pub record IsCompleted (w : World) (session : Session) (user : User) (token : Text)
      (after : World) : Type 0 where
    pub between : World
    pub undecided : World
    pub before : World
    pub permitted : run_hook hooks.before_session_create options w ≡ (ok tt, between)
    pub decided : run_decider decide options between ≡ (ok proceed, undecided)
    pub prepared : run_hook hooks.before_session_mint options undecided ≡ (ok tt, before)
    pub signed : IsSignedIn hash_token config options before session user token after

  abbrev SignedBy : World → World → SignInResult → Type 0
  SignedBy before after (complete session user token) =
      IsSignedIn hash_token config options before session user token after
  SignedBy before after (owed c) = Unit {0}

  pub complete_sign_in-complete :
      (w after : World) (session : Session) (user : User) (token : Text)
      → complete_sign_in hash_token config hooks decide options w
        ≡ (ok (complete session user token), after)
      → IsCompleted w session user token after
  complete_sign_in-complete w after session user token h =
      let d = Decided-of w after (complete session user token) h in
      let p = prepared_by d.decision d.undecided d.concluded in
      record {
        between = d.between;
        undecided = d.undecided;
        before = p.1.before;
        permitted = d.permitted;
        decided = d.decided ∙ ap (λ x. (ok x, d.undecided)) p.0;
        prepared = p.1.prepared;
        signed = subst (SignedBy p.1.before after) (sym p.1.is_complete) p.1.signed;
      }
    where
      prepared_by :
          (decision : SignInDecision) (undecided : World)
          → conclude hash_token config hooks.before_session_mint options decision undecided
            ≡ (ok (complete session user token), after)
          → (decision ≡ proceed)
            × IsPrepared hash_token config options hooks.before_session_mint undecided
                (complete session user token)
                after
      prepared_by (challenge d) undecided concluded =
          cc (ap (λ (r : Result SignInResult × World). r.0) concluded)
      prepared_by proceed undecided concluded = (
        refl,
        proceed_to_mint_complete hash_token config options hooks.before_session_mint undecided after
            (complete session user token) concluded,
      )
