-- ===== src/Verification/Terms.antt =====
-- What a guess leaves of a challenge: its request, its id and its expiry.
use agnostic_market.Base.{
  ℕ, ◌+◌, ◌-◌, ◌≡◌, refl, ◌∙◌, inl, inr, Option, none, some, arith, ◌==◌, if◌then◌else◌, Bool-cases,
  Option-cases,
}
use agnostic_market.Text.{Text, text_eq, strip}
use agnostic_market.Text.Laws.{eq_of_text_eq, text_eq_refl}
use agnostic_market.Dict.{Dict, lookup, insert}
use agnostic_market.Dict.Laws.{lookup-insert}
use agnostic_market.Verification.Types.{
  OtpChallengeRequest, OtpChallenge, OtpVerification, OtpVerificationStatus, ChallengeState,
}
use agnostic_market.Verification.Provider.{
  OtpProvider, outcome, plain, verified_outcome, save, verify_again, attempt, verify_state, verify,
}

-- The parts of a challenge's state that no guess changes.
abbrev pub terms : Option ChallengeState → Option (OtpChallengeRequest × OtpChallenge)
terms (some st) = some (st.request, st.challenge)
terms none = none

outcome-state : (v : OtpVerification) (p : OtpProvider) → (outcome v p).1 ≡ p
unfolding outcome
outcome-state v p = ground arith

terms-insert :
    (id other : Text) (st st' : ChallengeState) (d : Dict ChallengeState)
    → lookup other d ≡ some st
    → (st'.request ≡ st.request) × (st'.challenge ≡ st.challenge)
    → terms (lookup id (insert other st' d)) ≡ terms (lookup id d)
terms-insert id other st st' d found same = elim (Bool-cases (text_eq other id)) [
  | inl here ↦ ground (arith, lookup-insert other id st' d, eq_of_text_eq other id here)
  | inr ne ↦ ground (arith, lookup-insert other id st' d)
]

attempt-terms :
    (id other : Text) (now : ℕ) (code expected : Text) (st : ChallengeState) (p : OtpProvider)
    → lookup other p.challenges ≡ some st
    → let p' = (attempt now other code expected st p).1 in
      (p'.tenant_id ≡ p.tenant_id)
      × (p'.codes_by_factor_ref ≡ p.codes_by_factor_ref)
      × (p'.challenge_by_dispatch ≡ p.challenge_by_dispatch)
      × (terms (lookup id p'.challenges) ≡ terms (lookup id p.challenges))
unfolding attempt save
attempt-terms id other now code expected st p found =
    let used : ChallengeState = record st { remaining_attempts = st.remaining_attempts - 1 } in
    let done : ChallengeState = record used {
      verified_at_epoch = some now;
      proof_expires_at_epoch = some (now + p.proof_ttl_seconds);
    } in
    let saved = insert other used p.challenges in
    elim (Bool-cases (text_eq (strip code) expected)) [
      | inl right ↦
          rw
            (
              right,
              outcome-state (verified_outcome other done)
                  (record p { challenges = insert other done saved }),
            )
            (
              refl,
              refl,
              refl,
              terms-insert id other used done saved
                    (ground
                      (arith, lookup-insert other other used p.challenges, text_eq_refl other))
                    (refl, refl)
                  ∙ terms-insert id other st used p.challenges found (refl, refl),
            )
      | inr wrong ↦
          let status =
            if st.remaining_attempts - 1 == 0
            then OtpVerificationStatus.exhausted
            else OtpVerificationStatus.mismatched in
          rw (wrong, outcome-state (plain other status) (record p { challenges = saved }))
            (refl, refl, refl, terms-insert id other st used p.challenges found (refl, refl))
    ]

verify_again-state :
    (id code expected : Text) (st : ChallengeState) (p : OtpProvider)
    → (verify_again id code expected st p).1 ≡ p
unfolding verify_again
verify_again-state id code expected st p = ground (
  arith,
  outcome-state (plain id OtpVerificationStatus.conflict) p,
  outcome-state (verified_outcome id st) p,
)

verify_state-terms :
    (id other : Text) (now : ℕ) (code expected : Text) (st : ChallengeState) (p : OtpProvider)
    → lookup other p.challenges ≡ some st
    → let p' = (verify_state now other code expected st p).1 in
      (p'.tenant_id ≡ p.tenant_id)
      × (p'.codes_by_factor_ref ≡ p.codes_by_factor_ref)
      × (p'.challenge_by_dispatch ≡ p.challenge_by_dispatch)
      × (terms (lookup id p'.challenges) ≡ terms (lookup id p.challenges))
unfolding verify_state
verify_state-terms id other now code expected st p found = ground (
  arith,
  verify_again-state other code expected st p,
  outcome-state (plain other OtpVerificationStatus.expired) p,
  outcome-state (plain other OtpVerificationStatus.exhausted) p,
  attempt-terms id other now code expected st p found,
)

-- A guess changes neither the tenant, the codes, the keys nor the terms of any challenge.
pub verify-terms :
    (id other : Text) (now : ℕ) (code : Text) (p : OtpProvider)
    → let p' = (verify now other code p).1 in
      (p'.tenant_id ≡ p.tenant_id)
      × (p'.codes_by_factor_ref ≡ p.codes_by_factor_ref)
      × (p'.challenge_by_dispatch ≡ p.challenge_by_dispatch)
      × (terms (lookup id p'.challenges) ≡ terms (lookup id p.challenges))
unfolding verify
verify-terms id other now code p = elim (Option-cases (lookup other p.challenges)) [
  | inl unknown ↦ ground (arith, outcome-state (plain other OtpVerificationStatus.unknown) p)
  | inr (st, found) ↦
      elim (Option-cases (lookup st.request.subject.factor_ref p.codes_by_factor_ref)) [
        | inl no_code ↦ ground arith
        | inr (expected, secret) ↦
            ground (arith, verify_state-terms id other now code expected st p found)
      ]
]
