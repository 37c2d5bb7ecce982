-- ===== src/Verification/Codes.antt =====
-- What the provider's answers mean: a code that is verified, a request that is sent again.
use agnostic_market.Base.{ℕ, ◌<◌, ◌≡◌, inl, inr, none, some, arith, Option-cases}
use agnostic_market.Text.{Text, strip}
use agnostic_market.Text.Laws.{eq_of_text_eq}
use agnostic_market.Dict.{lookup}
use agnostic_market.Effect.{ok}
use agnostic_market.Verification.Types.{OtpVerification, verified, ChallengeState}
use agnostic_market.Verification.Provider.{
  OtpProvider, outcome, plain, verified_outcome, save, verify_again, attempt, verify_state, verify,
}

-- What a verified outcome shows: the challenge is held, and the code given is the one of the
-- factor it was sent to. Where it had not been verified before, it was open and had an attempt.
pub record IsProven (now : ℕ) (id code : Text) (p : OtpProvider) (v : OtpVerification)
    : Type 0 where
  pub state : ChallengeState
  pub held : lookup id p.challenges ≡ some state
  pub right : lookup state.request.subject.factor_ref p.codes_by_factor_ref ≡ some (strip code)
  pub subject : v.subject ≡ some state.request.subject
  pub is_open :
      state.verified_at_epoch ≡ none
      → (now < state.challenge.expires_at_epoch) × (0 < state.remaining_attempts)

verify_state-verified :
    (now : ℕ) (id code expected : Text) (st : ChallengeState) (p p' : OtpProvider)
    (v : OtpVerification)
    → verify_state now id code expected st p ≡ (ok v, p')
    → v.status ≡ verified
    → (strip code ≡ expected)
      × (v.subject ≡ some st.request.subject)
      × (st.verified_at_epoch ≡ none
          → (now < st.challenge.expires_at_epoch) × (0 < st.remaining_attempts))
unfolding verify_state verify_again attempt outcome plain verified_outcome save
verify_state-verified now id code expected st p p' v answer status =
    ground (arith, eq_of_text_eq (strip code) expected)

-- A code is verified only against a challenge that the provider holds, and only where it is, once
-- stripped, the code of the factor that the challenge was sent to. The outcome names the subject
-- that asked for the challenge, and a challenge that was not verified before has not expired and
-- has attempts left.
pub verify_sound :
    (now : ℕ) (id code : Text) (p p' : OtpProvider) (v : OtpVerification)
    → verify now id code p ≡ (ok v, p')
    → v.status ≡ verified
    → IsProven now id code p v
unfolding verify outcome plain
verify_sound now id code p p' v answer status = elim (Option-cases (lookup id p.challenges)) [
  | inl unknown ↦ ground (arith, answer, status)
  | inr (st, held) ↦
      elim (Option-cases (lookup st.request.subject.factor_ref p.codes_by_factor_ref)) [
        | inl no_code ↦ ground (arith, answer, status)
        | inr (expected, secret) ↦
            let (same, subject, is_open) =
              verify_state-verified now id code expected st p p' v (ground arith) status in
            record {
              state = st;
              held = held;
              right = rw same secret;
              subject = subject;
              is_open = is_open;
            }
      ]
]
