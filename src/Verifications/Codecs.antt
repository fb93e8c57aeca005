-- ===== src/Verifications/Codecs.antt =====
-- What a purpose with a payload reads back of what an issue stores.
use effect_auth.Prelude.{◌≡◌, subst, inl, inr, Option, some, Text, Option-cases}
use effect_auth.Runtime.{err-ne-ok}
use effect_auth.Runtime.Steps.{ok_injective}
use effect_auth.Verifications.{Base64, Codec, Span, purpose, encoded, decode_present}
use effect_auth.Verifications.Issues.{ReadsBack}

module _ (base64 : Base64) (hash_token : Text → Text) {P : Type 0} where
  pub purpose-ReadsBack :
      (codec : Codec P) (name subject : Text) (ttl : Span) (payload : P) (secret : Option Text)
      → ((t : Text) → codec.encode payload ≡ some t → codec.decode t ≡ some payload)
      → ReadsBack base64 hash_token (record {
        purpose = purpose name codec;
        subject = subject;
        ttl = ttl;
        payload = payload;
        secret = secret;
      })
  unfolding encoded purpose decode_present
  purpose-ReadsBack codec name subject ttl payload secret law u v stored h =
      elim (Option-cases (codec.encode payload)) [
        | inl e ↦ absurd (err-ne-ok (rw e at h))
        | inr (t, e) ↦
            subst (λ s. decode_present codec s ≡ some payload)
              (ok_injective (some t) stored u v (rw e at h)) (law t e)
      ]
