-- ===== src/Verification/Session.antt =====
-- The calls of a `VerificationStore` that reach its provider. A call holds the operation lock
-- from its first read to its last write, so it is one step.
use agnostic_market.Base.{
  ℕ, Bool, false, ◌&&◌, ◌||◌, none, some, [], ◌∷◌, leb, null, not, is_some, if◌then◌else◌,
}
use agnostic_market.Text.{Text, text_eq, strip}
use agnostic_market.Dict.{lookup, insert}
use agnostic_market.Effect.{
  Action, ◌>>=◌, ◌>>◌, pure, gets, or_raise, raise_if, modify, validation, value_error, contract,
  key_error,
}
use agnostic_market.Spoken.Digits.{spoken_digits}
use agnostic_market.Verification.Types.{
  VerificationPurpose, VerificationSubject, subject_eq, build_subject, OtpChallengeRequest,
  valid_request, OtpChallenge, OtpVerification, OtpVerificationStatus, verified, expired,
  VerificationProof,
}
use agnostic_market.Verification.Store.{
  OtpPort, VerificationStore, is_subject, proof_is_fresh, minted, proof_eq, on_otp,
}

-- `spoken or code.strip()`
unfoldable pub spoken_code : Text → Text
unfolding spoken_digits
spoken_code code = let spoken = spoken_digits code in if null spoken then strip code else spoken

module _ {S : Type 0} (port : OtpPort S) where
  -- `subject`: the subject of this session, as pydantic builds it
  unfoldable pub own_subject :
      Text → Text → VerificationPurpose → Action (VerificationStore S) VerificationSubject
  unfolding build_subject
  own_subject customer_ref factor_ref purpose store = (
    build_subject (port.tenant_id store.otp) store.session_id customer_ref factor_ref purpose,
    store,
  )

  -- The last part of `dispatch_otp`: the subject of the challenge is kept.
  unfoldable pub record_subject :
      VerificationSubject → OtpChallenge → Action (VerificationStore S) OtpChallenge
  unfolding subject_eq
  record_subject subject challenge = do
    existing ← gets (λ s. lookup challenge.challenge_id s.subjects_by_challenge)
    raise_if (elim existing [ some e ↦ not (subject_eq e subject) | none ↦ false ]) contract
    modify (λ s. record s {
      subjects_by_challenge = insert challenge.challenge_id subject s.subjects_by_challenge;
    })
    pure challenge

  unfoldable pub dispatch_otp :
      Text → ℕ → VerificationSubject → Text → ℕ → Action (VerificationStore S) OtpChallenge
  unfolding valid_request on_otp record_subject
  dispatch_otp fresh now subject key attempts = do
    tenant ← gets (λ s. port.tenant_id s.otp)
    session ← gets (λ s. s.session_id)
    raise_if (not (text_eq subject.tenant_id tenant && text_eq subject.session_id session))
        value_error
    let request : OtpChallengeRequest = record {
      subject = subject;
      dispatch_idempotency_key = strip key;
      max_attempts = attempts;
    }
    raise_if (not (valid_request request)) validation
    challenge ← on_otp (port.dispatch fresh now request)
    record_subject subject challenge

  -- The proof of a challenge is minted once, and pydantic checks its times.
  unfoldable pub keep_proof : Text → VerificationProof → Action (VerificationStore S) (Unit {0})
  keep_proof id proof = do
    held ← gets (λ s. lookup id s.proofs_by_challenge)
    raise_if (not (is_some held) && leb proof.expires_at_epoch proof.verified_at_epoch) validation
    modify (λ s.
        if is_some held
        then s
        else record s { proofs_by_challenge = insert id proof s.proofs_by_challenge })

  -- The part of `verify_otp` for an outcome whose status is `verified`.
  unfoldable pub accept :
      Text
      → ℕ
      → Text
      → VerificationSubject
      → OtpVerification
      → Action (VerificationStore S) OtpVerificationStatus
  unfolding is_subject minted keep_proof proof_is_fresh
  accept proof_id later id expected outcome = do
    raise_if (not (is_subject outcome.subject expected)) contract
    verified_at ← or_raise outcome.verified_at_epoch contract
    expires_at ← or_raise outcome.proof_expires_at_epoch contract
    keep_proof id (minted proof_id id expected verified_at expires_at)
    found ← gets (λ s. lookup id s.proofs_by_challenge)
    proof ← or_raise found key_error
    pure (if proof_is_fresh later proof then verified else expired)

  -- The part of `verify_otp` after the provider has answered.
  unfoldable pub settle :
      Text
      → ℕ
      → Text
      → VerificationSubject
      → OtpVerification
      → Action (VerificationStore S) OtpVerificationStatus
  unfolding is_subject accept
  settle proof_id later id expected outcome = do
    raise_if (not (text_eq outcome.challenge_id id)) contract
    current ← gets (λ s. lookup id s.subjects_by_challenge)
    raise_if (not (is_subject current expected)) contract
    elim outcome.status [
      | verified ↦ accept proof_id later id expected outcome
      | status ↦ pure status
    ]

  -- `now` is the provider's reading of the clock, and `later` the store's.
  unfoldable pub verify_otp :
      Text → ℕ → ℕ → Text → Text → Action (VerificationStore S) OtpVerificationStatus
  unfolding on_otp settle spoken_code
  verify_otp proof_id now later id code = do
    found ← gets (λ s. lookup id s.subjects_by_challenge)
    expected ← or_raise found contract
    outcome ← on_otp (port.verify now id (spoken_code code))
    settle proof_id later id expected outcome

  -- `self._proofs_by_challenge.get(proof.challenge_id) == proof`
  unfoldable pub is_earned : VerificationProof → VerificationStore S → Bool
  unfolding proof_eq
  is_earned proof s = elim (lookup proof.challenge_id s.proofs_by_challenge) [
    | some held ↦ proof_eq held proof
    | none ↦ false
  ]

  unfoldable pub retain_proof : ℕ → VerificationProof → Action (VerificationStore S) (Unit {0})
  unfolding on_otp is_earned proof_is_fresh
  retain_proof now proof = do
    earned ← gets (is_earned proof)
    raise_if (not earned || not (proof_is_fresh now proof)) value_error
    found ← gets (λ s. lookup proof.challenge_id s.subjects_by_challenge)
    subject ← or_raise found key_error
    session ← gets (λ s. s.session_id)
    on_otp (port.retain_only session (proof.challenge_id ∷ []))
    modify (λ s. record s {
      subjects_by_challenge = (proof.challenge_id, subject) ∷ [];
      proofs_by_challenge = (proof.challenge_id, proof) ∷ [];
    })

  unfoldable pub clear : Action (VerificationStore S) (Unit {0})
  unfolding on_otp
  clear = do
    session ← gets (λ s. s.session_id)
    on_otp (port.retain_only session [])
    modify (λ s. record s { subjects_by_challenge = []; proofs_by_challenge = [] })
