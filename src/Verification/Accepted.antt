-- ===== src/Verification/Accepted.antt =====
-- What a code that the store accepts earns.
use agnostic_market.Base.{
  ℕ, ◌≡◌, ap, subst, inl, inr, Bool, true, false, some, arith, Bool-cases, Option-cases,
}
use agnostic_market.Text.{Text}
use agnostic_market.Text.Laws.{text_eq_refl}
use agnostic_market.Dict.{lookup}
use agnostic_market.Dict.Laws.{lookup-any}
use agnostic_market.Effect.Laws.{Result-cases}
use agnostic_market.Effect.{ok}
use agnostic_market.Verification.Types.{
  VerificationSubject, OtpVerification, verified, VerificationProof,
}
use agnostic_market.Verification.Store.{
  OtpPort, VerificationStore, proof_is_fresh, proof_satisfies, authorization_satisfies,
  challenge_satisfies, is_subject, minted, on_otp,
}
use agnostic_market.Verification.Session.{keep_proof, accept, settle, verify_otp, spoken_code}
use agnostic_market.Verification.Subjects.{subject_eq_refl, purpose_eq_refl, Matches}
use agnostic_market.Verification.Bound.{IsBound, KeepsTenant, renew-IsBound}
use agnostic_market.Verification.Runs.{accept-IsBound, is_subject-some}

Matches-satisfies :
    (now : ℕ) (subject : VerificationSubject) (proof : VerificationProof) (exact : Bool)
    → Matches subject proof
    → proof_is_fresh now proof ≡ true
    → proof_satisfies now proof subject 2 exact ≡ true
unfolding proof_satisfies
Matches-satisfies now subject proof exact match fresh = ground (
  arith,
  match.tenant,
  match.session,
  match.customer,
  match.factor,
  match.purpose,
  text_eq_refl subject.tenant_id,
  text_eq_refl subject.session_id,
  text_eq_refl subject.customer_ref,
  text_eq_refl subject.factor_ref,
  purpose_eq_refl subject.purpose,
)

module _ {S : Type 0} (port : OtpPort S) where
  -- A fresh proof under an id satisfies the subject that the id was sent to.
  IsBound-satisfies :
      (tenant session : Text) (now : ℕ) (id : Text) (subject : VerificationSubject)
      (proof : VerificationProof) (store : VerificationStore S)
      → IsBound port tenant session store
      → lookup id store.subjects_by_challenge ≡ some subject
      → lookup id store.proofs_by_challenge ≡ some proof
      → proof_is_fresh now proof ≡ true
      → (challenge_satisfies now id subject 2 store ≡ true)
        × (authorization_satisfies now subject 2 store ≡ true)
  unfolding challenge_satisfies authorization_satisfies is_subject
  IsBound-satisfies tenant session now id subject proof store h sent proven fresh =
      let (other, recorded, held) = h.backed id proof proven in
      let match : Matches subject proof =
        subst (λ s. Matches s proof) (ground (arith, sent, recorded)) held in
      (
        rw (sent, proven)
            (ground (
              arith,
              subject_eq_refl subject,
              Matches-satisfies now subject proof true match fresh,
            )),
        lookup-any (λ p. proof_satisfies now p subject 2 false) id proof store.proofs_by_challenge
            proven (Matches-satisfies now subject proof false match fresh),
      )

  keep_proof-subjects :
      (id : Text) (proof : VerificationProof) (store : VerificationStore S)
      → (keep_proof port id proof store).1.subjects_by_challenge ≡ store.subjects_by_challenge
  unfolding keep_proof
  keep_proof-subjects id proof store = ground arith

  accept-fresh :
      (proof_id : Text) (later : ℕ) (id : Text) (expected : VerificationSubject)
      (outcome : OtpVerification) (store store' : VerificationStore S)
      → accept port proof_id later id expected outcome store ≡ (ok verified, store')
      → (is_subject outcome.subject expected ≡ true)
        × (store'.subjects_by_challenge ≡ store.subjects_by_challenge)
        × ((proof : VerificationProof) × (lookup id store'.proofs_by_challenge ≡ some proof)
            × (proof_is_fresh later proof ≡ true))
  unfolding accept
  accept-fresh proof_id later id expected outcome store store' answer =
      elim (Option-cases outcome.verified_at_epoch) [
        | inl no_time ↦ ground (arith, answer)
        | inr (from, at) ↦ elim (Option-cases outcome.proof_expires_at_epoch) [
          | inl no_end ↦ ground (arith, answer)
          | inr (until, ends) ↦ elim (Bool-cases (is_subject outcome.subject expected)) [
            | inr other ↦ ground (arith, answer)
            | inl same ↦
                let proof = minted proof_id id expected from until in
                let kept = (keep_proof port id proof store).1 in
                elim (Option-cases (lookup id kept.proofs_by_challenge)) [
                  | inl gone ↦ ground (arith, answer)
                  | inr (held, seen) ↦ (
                    same,
                    ground (arith, answer, keep_proof-subjects id proof store),
                    (held, ground (arith, answer), ground (arith, answer)),
                  )
                ]
          ]
        ]
      ]

  settle-accept :
      (proof_id : Text) (later : ℕ) (id : Text) (expected : VerificationSubject)
      (outcome : OtpVerification) (store store' : VerificationStore S)
      → settle port proof_id later id expected outcome store ≡ (ok verified, store')
      → (outcome.status ≡ verified)
        × (is_subject (lookup id store.subjects_by_challenge) expected ≡ true)
        × (accept port proof_id later id expected outcome store ≡ (ok verified, store'))
  unfolding settle
  settle-accept proof_id later id expected outcome store store' answer =
      elim (Bool-cases (is_subject (lookup id store.subjects_by_challenge) expected)) [
        | inr other ↦ ground (arith, answer)
        | inl same ↦ ground (arith, answer)
      ]

  -- What stands behind a code that the store accepted: the provider verified it for the subject
  -- that the challenge was sent to, and this subject now has a fresh proof of level 2.
  pub record IsEarned (now later : ℕ) (id code : Text) (store store' : VerificationStore S)
      : Type 0 where
    pub subject : VerificationSubject
    pub outcome : OtpVerification
    pub sent : lookup id store.subjects_by_challenge ≡ some subject
    pub answered : (port.verify now id (spoken_code code) store.otp).0 ≡ ok outcome
    pub right : outcome.status ≡ verified
    pub same : is_subject outcome.subject subject ≡ true
    pub by_challenge : challenge_satisfies later id subject 2 store' ≡ true
    pub authorized : authorization_satisfies later subject 2 store' ≡ true

  settle-IsEarned :
      (tenant session proof_id : Text) (now later : ℕ) (id code : Text)
      (expected : VerificationSubject) (outcome : OtpVerification)
      (store asked store' : VerificationStore S)
      → lookup id store.subjects_by_challenge ≡ some expected
      → (port.verify now id (spoken_code code) store.otp).0 ≡ ok outcome
      → IsBound port tenant session asked
      → settle port proof_id later id expected outcome asked ≡ (ok verified, store')
      → IsEarned now later id code store store'
  settle-IsEarned tenant session proof_id now later id code expected outcome store asked store'
        found answered h answer =
      let (right, current, accepted) =
        settle-accept proof_id later id expected outcome asked store' answer in
      let (same, subjects, (proof, held, fresh)) =
        accept-fresh proof_id later id expected outcome asked store' accepted in
      let bound : IsBound port tenant session store' =
        subst (IsBound port tenant session) (ap (λ r. r.1) accepted) (
          accept-IsBound port tenant session proof_id later id expected outcome asked
            (is_subject-some _ expected current) h) in
      let (by_challenge, authorized) =
        IsBound-satisfies tenant session later id expected proof store' bound
          (rw subjects (is_subject-some _ expected current)) held fresh in
      record {
        subject = expected;
        outcome = outcome;
        sent = found;
        answered = answered;
        right = right;
        same = same;
        by_challenge = by_challenge;
        authorized = authorized;
      }

  -- A code that the store accepts was verified by the provider for the subject that the challenge
  -- was sent to. At that reading of the clock this subject holds level 2 by this challenge, and is
  -- authorized.
  pub verify_otp-IsEarned :
      (tenant session proof_id : Text) (now later : ℕ) (id code : Text)
      (store store' : VerificationStore S)
      → KeepsTenant port
      → IsBound port tenant session store
      → verify_otp port proof_id now later id code store ≡ (ok verified, store')
      → IsEarned now later id code store store'
  unfolding verify_otp on_otp
  verify_otp-IsEarned tenant session proof_id now later id code store store' keeps h answer =
      elim (Option-cases (lookup id store.subjects_by_challenge)) [
        | inl unknown ↦ ground (arith, answer)
        | inr (expected, found) ↦
            elim (Result-cases (port.verify now id (spoken_code code) store.otp).0) [
              | inl (e, failed) ↦ ground (arith, answer)
              | inr (outcome, answered) ↦
                  settle-IsEarned tenant session proof_id now later id code expected outcome store
                    (record store { otp = (port.verify now id (spoken_code code) store.otp).1 })
                    store' found answered
                    (renew-IsBound port tenant session store _
                      (keeps.verify now id (spoken_code code) store.otp) h)
                    (ground (arith, answer))
            ]
      ]
