-- ===== src/Verification/Fixture.antt =====
-- The OTP provider of this repository behind a verification store.
use agnostic_market.Base.{ℕ, ◌≡◌, refl, subst, ◌∙◌, true, some, List, [], ◌∷◌, arith}
use agnostic_market.Text.{Text, strip}
use agnostic_market.Dict.{lookup}
use agnostic_market.Effect.{ok}
use agnostic_market.Verification.Types.{VerificationSubject, ChallengeState, verified}
use agnostic_market.Verification.Provider.{OtpProvider, dispatch, verify}
use agnostic_market.Verification.Cleanup.{retain_only, discard, discard_all}
use agnostic_market.Verification.Store.{
  OtpPort, VerificationStore, challenge_satisfies, authorization_satisfies,
}
use agnostic_market.Verification.Session.{verify_otp, spoken_code}
use agnostic_market.Verification.Bound.{IsBound, KeepsTenant}
use agnostic_market.Verification.Accepted.{verify_otp-IsEarned}
use agnostic_market.Verification.Runs.{is_subject-some}
use agnostic_market.Verification.Codes.{verify_sound}
use agnostic_market.Verification.Resend.{dispatch-tenant}
use agnostic_market.Verification.Terms.{verify-terms}

-- `OtpProvider` as an `OtpPort`
abbrev pub fixture : OtpPort OtpProvider
fixture = record {
  tenant_id = λ p. p.tenant_id;
  dispatch = dispatch;
  verify = verify;
  retain_only = retain_only;
}

discard-tenant : (id : Text) (p : OtpProvider) → (discard id p).tenant_id ≡ p.tenant_id
unfolding discard
discard-tenant id p = ground arith

discard_all-tenant :
    (ids : List Text) (p : OtpProvider) → (discard_all ids p).tenant_id ≡ p.tenant_id
unfolding discard_all
discard_all-tenant [] p = refl
discard_all-tenant (id ∷ ids) p = discard_all-tenant ids (discard id p) ∙ discard-tenant id p

retain_only-tenant :
    (session : Text) (ids : List Text) (p : OtpProvider)
    → (retain_only session ids p).1.tenant_id ≡ p.tenant_id
unfolding retain_only
retain_only-tenant session ids p = grind (arith, discard_all-tenant)

pub fixture-KeepsTenant : KeepsTenant fixture
fixture-KeepsTenant = record {
  dispatch = λ fresh now request p. dispatch-tenant fresh now request p;
  verify = λ now id code p. (verify-terms id id now code p).0;
  retain_only = λ session ids p. retain_only-tenant session ids p;
}

-- A challenge whose code was given, and the authority that it earned.
pub record IsUnlocked (later : ℕ) (id code : Text) (store store' : VerificationStore OtpProvider)
    : Type 0 where
  pub subject : VerificationSubject
  pub sent : lookup id store.subjects_by_challenge ≡ some subject
  pub state : ChallengeState
  pub held : lookup id store.otp.challenges ≡ some state
  pub asked : state.request.subject ≡ subject
  pub right :
      lookup subject.factor_ref store.otp.codes_by_factor_ref ≡ some (strip (spoken_code code))
  pub by_challenge : challenge_satisfies later id subject 2 store' ≡ true
  pub authorized : authorization_satisfies later subject 2 store' ≡ true

-- A store over this repository's provider accepts an answer only where the digits that it speaks
-- are the code of the factor to which that challenge was sent, for the same subject in the
-- provider's record and in the store's. That subject then holds level 2 by the challenge.
pub verify_otp-right_code :
    (tenant session proof_id : Text) (now later : ℕ) (id code : Text)
    (store store' : VerificationStore OtpProvider)
    → IsBound fixture tenant session store
    → verify_otp fixture proof_id now later id code store ≡ (ok verified, store')
    → IsUnlocked later id code store store'
verify_otp-right_code tenant session proof_id now later id code store store' h answer =
    let earned =
      verify_otp-IsEarned fixture tenant session proof_id now later id code store store'
        fixture-KeepsTenant h answer in
    let proven =
      verify_sound now id (spoken_code code) store.otp
        (verify now id (spoken_code code) store.otp).1 earned.outcome
        (λ i. (earned.answered i, (verify now id (spoken_code code) store.otp).1)) earned.right in
    let asked : proven.state.request.subject ≡ earned.subject =
      ground (
        arith,
        proven.subject,
        is_subject-some earned.outcome.subject earned.subject earned.same,
      ) in
    record {
      subject = earned.subject;
      sent = earned.sent;
      state = proven.state;
      held = proven.held;
      asked = asked;
      right =
          subst
            (λ s.
              lookup s.factor_ref store.otp.codes_by_factor_ref ≡ some (strip (spoken_code code)))
            asked proven.right;
      by_challenge = earned.by_challenge;
      authorized = earned.authorized;
    }
