-- ===== src/Verification/Types.antt =====
-- The records of commerce/verification.py, and the proof of dtos/orchestration.py. A time is a
-- number of clock ticks since the epoch.
use agnostic_market.Base.{
  ℕ, Bool, true, false, ◌&&◌, ◌||◌, Option, some, leb, ltb, null, not, ◌==◌, is_some, if◌then◌else◌,
}
use agnostic_market.Effect.{Result, ok, err, validation}
use agnostic_market.Text.{Text, text_eq, strip}

pub data VerificationPurpose : Type 0 where
  identity profile refund : VerificationPurpose

unfoldable pub purpose_eq : VerificationPurpose → VerificationPurpose → Bool
purpose_eq identity identity = true
purpose_eq profile profile = true
purpose_eq refund refund = true
purpose_eq _ _ = false

pub record VerificationSubject : Type 0 where
  pub tenant_id : Text
  pub session_id : Text
  pub customer_ref : Text
  pub factor_ref : Text
  pub purpose : VerificationPurpose

-- `a == b` on subjects
unfoldable pub subject_eq : VerificationSubject → VerificationSubject → Bool
unfolding purpose_eq
subject_eq a b =
    text_eq a.tenant_id b.tenant_id
    && text_eq a.session_id b.session_id
    && text_eq a.customer_ref b.customer_ref
    && text_eq a.factor_ref b.factor_ref
    && purpose_eq a.purpose b.purpose

pub record OtpChallengeRequest : Type 0 where
  pub subject : VerificationSubject
  pub dispatch_idempotency_key : Text
  pub max_attempts : ℕ

-- `a == b` on requests
unfoldable pub request_eq : OtpChallengeRequest → OtpChallengeRequest → Bool
request_eq a b =
    subject_eq a.subject b.subject
    && text_eq a.dispatch_idempotency_key b.dispatch_idempotency_key
    && a.max_attempts == b.max_attempts

-- The field constraints of a request.
unfoldable pub valid_request : OtpChallengeRequest → Bool
valid_request r = not (null r.dispatch_idempotency_key) && leb 1 r.max_attempts

pub record OtpChallenge : Type 0 where
  pub challenge_id : Text
  pub expires_at_epoch : ℕ

pub data OtpVerificationStatus : Type 0 where
  verified mismatched expired exhausted unknown conflict : OtpVerificationStatus

pub record OtpVerification : Type 0 where
  pub challenge_id : Text
  pub status : OtpVerificationStatus
  pub subject : Option VerificationSubject
  pub verified_at_epoch : Option ℕ
  pub proof_expires_at_epoch : Option ℕ

-- A `NonEmptyText` is stripped and not empty. A subject is built from four.
unfoldable pub build_subject :
    Text → Text → Text → Text → VerificationPurpose → Result VerificationSubject
build_subject tenant session customer factor purpose =
    if null (strip tenant) || null (strip session) || null (strip customer) || null (strip factor)
    then err validation
    else ok (record {
      tenant_id = strip tenant;
      session_id = strip session;
      customer_ref = strip customer;
      factor_ref = strip factor;
      purpose = purpose;
    })

abbrev pub before : Option ℕ → Option ℕ → Bool
before (some a) (some b) = ltb a b
before _ _ = false

-- The id is not blank, and `verified_outcome_is_complete`.
unfoldable pub valid_verification : OtpVerification → Bool
valid_verification v = not (null (strip v.challenge_id)) && elim v.status [
  | verified ↦ is_some v.subject && before v.verified_at_epoch v.proof_expires_at_epoch
  | _ ↦ not (is_some v.subject || is_some v.verified_at_epoch || is_some v.proof_expires_at_epoch)
]

-- `method` and `raised_to` of a proof are the constants otp and 2.
pub record VerificationProof : Type 0 where
  pub proof_id : Text
  pub tenant_id : Text
  pub session_id : Text
  pub customer_ref : Text
  pub factor_ref : Text
  pub purpose : VerificationPurpose
  pub challenge_id : Text
  pub verified_at_epoch : ℕ
  pub expires_at_epoch : ℕ

-- `_FixtureChallengeState`
pub record ChallengeState : Type 0 where
  pub request : OtpChallengeRequest
  pub challenge : OtpChallenge
  pub remaining_attempts : ℕ
  pub verified_at_epoch : Option ℕ
  pub proof_expires_at_epoch : Option ℕ
