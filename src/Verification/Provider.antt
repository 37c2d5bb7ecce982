-- ===== src/Verification/Provider.antt =====
-- `OtpProvider`: the challenges of one tenant. The clock's reading and the random challenge id
-- are arguments of the calls that take them.
use agnostic_market.Base.{
  ℕ, ◌+◌, ◌-◌, Bool, ◌&&◌, ◌||◌, none, some, [], leb, ltb, null, not, ◌==◌, is_some, any, all,
  length, if◌then◌else◌,
}
use agnostic_market.Text.{Text, text_eq, strip}
use agnostic_market.Dict.{Dict, lookup, insert}
use agnostic_market.Effect.{
  Result, ok, err, Action, ◌>>=◌, ◌>>◌, pure, raise, gets, or_raise, raise_if, modify, validation,
  value_error, contract, challenge_conflict, key_error,
}
use agnostic_market.Orders.Types.{normalize_tenant_id}
use agnostic_market.Spoken.Digits.{is_digit}
use agnostic_market.Verification.Types.{
  OtpChallengeRequest, OtpChallenge, OtpVerification, OtpVerificationStatus, verified, mismatched,
  expired, exhausted, unknown, conflict, ChallengeState, request_eq, valid_verification,
}

pub record OtpProvider : Type 0 where
  pub tenant_id : Text
  pub codes_by_factor_ref : Dict Text
  pub challenge_ttl_seconds : ℕ
  pub proof_ttl_seconds : ℕ
  pub challenge_by_dispatch : Dict Text
  pub challenges : Dict ChallengeState
  pub dispatch_count : ℕ

-- `re.fullmatch(r"\d{6}", code)`
unfoldable pub six_digits : Text → Bool
unfolding is_digit
six_digits code = length code == 6 && all is_digit code

unfoldable pub bad_factor : Text × Text → Bool
unfolding six_digits
bad_factor (factor_ref, code) = null (strip factor_ref) || not (six_digits code)

-- `OtpProvider(...)` with its `__post_init__`
unfoldable pub new_provider : Text → Dict Text → ℕ → ℕ → Result OtpProvider
unfolding bad_factor
new_provider tenant codes challenge_ttl proof_ttl = elim (normalize_tenant_id tenant) [
  | err e ↦ err e
  | ok normalized ↦
      if null codes || any bad_factor codes
      then err value_error
      else if ltb 0 challenge_ttl && ltb 0 proof_ttl
      then ok (record {
        tenant_id = normalized;
        codes_by_factor_ref = codes;
        challenge_ttl_seconds = challenge_ttl;
        proof_ttl_seconds = proof_ttl;
        challenge_by_dispatch = [];
        challenges = [];
        dispatch_count = 0;
      })
      else err validation
]

abbrev pub Call : Type 0 → Type 0
Call A = Action OtpProvider A

-- The state of a challenge that expires at a time.
unfoldable pub fresh_state : Text → ℕ → OtpChallengeRequest → ChallengeState
fresh_state id expires request = record {
  request = request;
  challenge = record { challenge_id = id; expires_at_epoch = expires };
  remaining_attempts = request.max_attempts;
  verified_at_epoch = none;
  proof_expires_at_epoch = none;
}

-- The part of `dispatch` for a key that is new.
unfoldable pub new_challenge : Text → ℕ → OtpChallengeRequest → Call OtpChallenge
unfolding fresh_state
new_challenge id now request p =
    let st = fresh_state id (now + p.challenge_ttl_seconds) request in
    (
      ok st.challenge,
      record p {
        challenge_by_dispatch = insert request.dispatch_idempotency_key id p.challenge_by_dispatch;
        challenges = insert id st p.challenges;
        dispatch_count = p.dispatch_count + 1;
      },
    )

-- The part of `dispatch` for a key that has a challenge.
unfoldable pub known_challenge : Text → OtpChallengeRequest → Call OtpChallenge
known_challenge existing_id request = do
  found ← gets (λ p. lookup existing_id p.challenges)
  existing ← or_raise found key_error
  raise_if (not (request_eq existing.request request)) challenge_conflict
  pure existing.challenge

unfoldable pub dispatch : Text → ℕ → OtpChallengeRequest → Call OtpChallenge
unfolding new_challenge known_challenge
dispatch id now request = do
  tenant ← gets (λ p. p.tenant_id)
  raise_if (not (text_eq request.subject.tenant_id tenant)) value_error
  code ← gets (λ p. lookup request.subject.factor_ref p.codes_by_factor_ref)
  raise_if (not (is_some code)) value_error
  seen ← gets (λ p. lookup request.dispatch_idempotency_key p.challenge_by_dispatch)
  elim seen [
    | some existing_id ↦ known_challenge existing_id request
    | none ↦ new_challenge id now request
  ]

-- An outcome without proof material.
unfoldable pub plain : Text → OtpVerificationStatus → OtpVerification
plain id status = record {
  challenge_id = id;
  status = status;
  subject = none;
  verified_at_epoch = none;
  proof_expires_at_epoch = none;
}

-- An outcome is built: pydantic strips the id and checks the fields.
unfoldable pub outcome : OtpVerification → Call OtpVerification
outcome v = do
  raise_if (not (valid_verification v)) validation
  pure (record v { challenge_id = strip v.challenge_id })

unfoldable pub verified_outcome : Text → ChallengeState → OtpVerification
verified_outcome id st = record {
  challenge_id = id;
  status = verified;
  subject = some st.request.subject;
  verified_at_epoch = st.verified_at_epoch;
  proof_expires_at_epoch = st.proof_expires_at_epoch;
}

unfoldable pub save : Text → ChallengeState → Call (Unit {0})
save id st = modify (λ p. record p { challenges = insert id st p.challenges })

-- A challenge that has been verified answers the right code again.
unfoldable pub verify_again : Text → Text → Text → ChallengeState → Call OtpVerification
unfolding plain outcome verified_outcome
verify_again id code expected st = do
  let wrong = not (text_eq (strip code) expected)
  if wrong
      then outcome (plain id conflict)
      else if is_some st.proof_expires_at_epoch
      then outcome (verified_outcome id st)
      else raise contract

-- An attempt at an open challenge uses one attempt up, whatever the code.
unfoldable pub attempt : ℕ → Text → Text → Text → ChallengeState → Call OtpVerification
unfolding plain outcome verified_outcome save
attempt now id code expected st = do
  let left = st.remaining_attempts - 1
  save id (record st { remaining_attempts = left })
  ttl ← gets (λ p. p.proof_ttl_seconds)
  let done : ChallengeState = record st {
    remaining_attempts = left;
    verified_at_epoch = some now;
    proof_expires_at_epoch = some (now + ttl);
  }
  if text_eq (strip code) expected
      then (save id done >> outcome (verified_outcome id done))
      else outcome (plain id (if left == 0 then exhausted else mismatched))

unfoldable pub verify_state : ℕ → Text → Text → Text → ChallengeState → Call OtpVerification
unfolding verify_again attempt plain outcome
verify_state now id code expected st =
    if is_some st.verified_at_epoch
    then verify_again id code expected st
    else if leb st.challenge.expires_at_epoch now
    then outcome (plain id expired)
    else if st.remaining_attempts == 0
    then outcome (plain id exhausted)
    else attempt now id code expected st

unfoldable pub verify : ℕ → Text → Text → Call OtpVerification
unfolding verify_state plain outcome
verify now id code = do
  found ← gets (λ p. lookup id p.challenges)
  elim found [
    | none ↦ outcome (plain id unknown)
    | some st ↦ do
      secret ← gets (λ p. lookup st.request.subject.factor_ref p.codes_by_factor_ref)
      expected ← or_raise secret key_error
      verify_state now id code expected st
  ]
