-- ===== src/Verification/Runs.antt =====
-- Any sequence of calls leaves the proofs of a session bound, whatever the provider answers.
use agnostic_market.Base.{
  ℕ, ◌≡◌, refl, ap, subst, ◌∙◌, ◌⊎◌, inl, inr, true, false, ◌&&◌, ◌||◌, Option, none, some, List,
  [], ◌∷◌, arith, not, Bool-cases, Option-cases,
}
use agnostic_market.Text.{Text, text_eq, strip}
use agnostic_market.Text.Laws.{eq_of_text_eq}
use agnostic_market.Dict.{lookup}
use agnostic_market.Effect.Laws.{bind-keeps, raise_if-keeps}
use agnostic_market.Verification.Types.{
  valid_request, VerificationSubject, OtpChallengeRequest, OtpVerification, VerificationProof,
}
use agnostic_market.Verification.Store.{
  OtpPort, VerificationStore, is_subject, proof_is_fresh, proof_eq, on_otp,
}
use agnostic_market.Verification.Session.{
  record_subject, dispatch_otp, accept, settle, verify_otp, spoken_code, is_earned, retain_proof,
  clear,
}
use agnostic_market.Verification.Subjects.{
  eq_of_subject_eq, eq_of_purpose_eq, Matches, minted-Matches,
}
use agnostic_market.Verification.Bound.{
  IsBound, KeepsTenant, renew-IsBound, record_subject-IsBound, keep_proof-IsBound, accept-state,
}

pub is_subject-some :
    (found : Option VerificationSubject) (subject : VerificationSubject)
    → is_subject found subject ≡ true
    → found ≡ some subject
unfolding is_subject
is_subject-some (some s) subject same = ap some (eq_of_subject_eq s subject same)
is_subject-some none subject same = ground arith

guard-scopes :
    (a b tenant session : Text)
    → not (text_eq a tenant && text_eq b session) ≡ false
    → (a ≡ tenant) × (b ≡ session)
guard-scopes a b tenant session h = ground (arith, eq_of_text_eq a tenant, eq_of_text_eq b session)

proof_eq-Matches :
    (subject : VerificationSubject) (held proof : VerificationProof)
    → Matches subject held
    → proof_eq held proof ≡ true
    → Matches subject proof
unfolding proof_eq
proof_eq-Matches subject held proof match same = record {
  tenant = ground (arith, match.tenant, eq_of_text_eq held.tenant_id proof.tenant_id);
  session = ground (arith, match.session, eq_of_text_eq held.session_id proof.session_id);
  customer = ground (arith, match.customer, eq_of_text_eq held.customer_ref proof.customer_ref);
  factor = ground (arith, match.factor, eq_of_text_eq held.factor_ref proof.factor_ref);
  purpose = ground (arith, match.purpose, eq_of_purpose_eq held.purpose proof.purpose);
}

-- The calls of a session, with the readings of the clock and the ids drawn for them.
pub data SessionCall : Type 0 where
  dispatches :
      (fresh : Text) (now : ℕ) (subject : VerificationSubject) (key : Text) (attempts : ℕ)
      → SessionCall
  verifies : (proof_id : Text) (now later : ℕ) (id code : Text) → SessionCall
  retains : (now : ℕ) (proof : VerificationProof) → SessionCall
  clears : SessionCall

module _ {S : Type 0} (port : OtpPort S) where
  unfoldable pub step : SessionCall → VerificationStore S → VerificationStore S
  unfolding dispatch_otp verify_otp retain_proof clear
  step (dispatches fresh now subject key attempts) store =
      (dispatch_otp port fresh now subject key attempts store).1
  step (verifies proof_id now later id code) store =
      (verify_otp port proof_id now later id code store).1
  step (retains now proof) store = (retain_proof port now proof store).1
  step clears store = (clear port store).1

  unfoldable pub run : List SessionCall → VerificationStore S → VerificationStore S
  unfolding step
  run [] store = store
  run (call ∷ calls) store = run calls (step call store)

  pub accept-IsBound :
      (tenant session proof_id : Text) (later : ℕ) (id : Text) (expected : VerificationSubject)
      (outcome : OtpVerification) (store : VerificationStore S)
      → lookup id store.subjects_by_challenge ≡ some expected
      → IsBound port tenant session store
      → IsBound port tenant session (accept port proof_id later id expected outcome store).1
  accept-IsBound tenant session proof_id later id expected outcome store found h =
      elim (accept-state port proof_id later id expected outcome store) [
        | inl same ↦ rw same h
        | inr (from, until, kept) ↦ rw kept (
            keep_proof-IsBound port tenant session id expected _ store found
              (minted-Matches proof_id id expected from until) h)
      ]

  settle-state :
      (proof_id : Text) (later : ℕ) (id : Text) (expected : VerificationSubject)
      (outcome : OtpVerification) (store : VerificationStore S)
      → ((settle port proof_id later id expected outcome store).1 ≡ store)
        ⊎ ((is_subject (lookup id store.subjects_by_challenge) expected ≡ true)
            × ((settle port proof_id later id expected outcome store).1
                ≡ (accept port proof_id later id expected outcome store).1))
  unfolding settle
  settle-state proof_id later id expected outcome store =
      elim (Bool-cases (is_subject (lookup id store.subjects_by_challenge) expected)) [
        | inr other ↦ inl (ground arith)
        | inl same ↦ ground arith
      ]

  pub settle-IsBound :
      (tenant session proof_id : Text) (later : ℕ) (id : Text) (expected : VerificationSubject)
      (outcome : OtpVerification) (store : VerificationStore S)
      → IsBound port tenant session store
      → IsBound port tenant session (settle port proof_id later id expected outcome store).1
  settle-IsBound tenant session proof_id later id expected outcome store h =
      elim (settle-state proof_id later id expected outcome store) [
        | inl same ↦ rw same h
        | inr (found, accepted) ↦ rw accepted (
            accept-IsBound tenant session proof_id later id expected outcome store
              (is_subject-some _ expected found) h)
      ]

  empty-IsBound :
      (tenant session : Text) (store : VerificationStore S)
      → IsBound port tenant session store
      → IsBound port tenant session
          (record store { subjects_by_challenge = []; proofs_by_challenge = [] })
  unfolding lookup
  empty-IsBound tenant session store h = record {
    of_tenant = h.of_tenant;
    of_session = h.of_session;
    scoped = λ id subject held. ground arith;
    backed = λ id proof held. ground (arith, held);
    distinct = tt;
  }

  held-Matches :
      (tenant session id : Text) (subject : VerificationSubject) (held : VerificationProof)
      (store : VerificationStore S)
      → lookup id store.subjects_by_challenge ≡ some subject
      → lookup id store.proofs_by_challenge ≡ some held
      → IsBound port tenant session store
      → Matches subject held
  held-Matches tenant session id subject held store found seen h =
      let (other, recorded, match) = h.backed id held seen in
      subst (λ s. Matches s held) (ground (arith, found, recorded)) match

  earned-Matches :
      (tenant session : Text) (now : ℕ) (subject : VerificationSubject) (proof : VerificationProof)
      (store : VerificationStore S)
      → lookup proof.challenge_id store.subjects_by_challenge ≡ some subject
      → IsBound port tenant session store
      → (not (is_earned port proof store) || not (proof_is_fresh now proof)) ≡ false
      → Matches subject proof
  unfolding is_earned
  earned-Matches tenant session now subject proof store found h earned =
      elim (Option-cases (lookup proof.challenge_id store.proofs_by_challenge)) [
        | inl none_held ↦ ground arith
        | inr (held, seen) ↦
            proof_eq-Matches subject held proof
              (held-Matches tenant session proof.challenge_id subject held store found seen h)
              (ground arith)
      ]

  pub clear-IsBound :
      (tenant session : Text) (store : VerificationStore S)
      → KeepsTenant port
      → IsBound port tenant session store
      → IsBound port tenant session (clear port store).1
  unfolding clear on_otp
  clear-IsBound tenant session store keeps h =
      let renewed =
        renew-IsBound port tenant session store _ (keeps.retain_only store.session_id [] store.otp)
          h in
      bind-keeps (IsBound port tenant session) (on_otp (port.retain_only store.session_id [])) _
        store renewed (λ done answered. empty-IsBound tenant session _ renewed)

  pub verify_otp-IsBound :
      (tenant session proof_id : Text) (now later : ℕ) (id code : Text)
      (store : VerificationStore S)
      → KeepsTenant port
      → IsBound port tenant session store
      → IsBound port tenant session (verify_otp port proof_id now later id code store).1
  unfolding verify_otp on_otp
  verify_otp-IsBound tenant session proof_id now later id code store keeps h =
      elim (Option-cases (lookup id store.subjects_by_challenge)) [
        | inl unknown ↦ rw unknown h
        | inr (expected, seen) ↦
            let renewed =
              renew-IsBound port tenant session store _
                (keeps.verify now id (spoken_code code) store.otp) h in
            rw seen (
              bind-keeps (IsBound port tenant session)
                (on_otp (port.verify now id (spoken_code code))) _ store renewed
                (λ outcome answered.
                  settle-IsBound tenant session proof_id later id expected outcome _ renewed))
      ]

  pub dispatch_otp-IsBound :
      (tenant session fresh : Text) (now : ℕ) (subject : VerificationSubject) (key : Text)
      (attempts : ℕ) (store : VerificationStore S)
      → KeepsTenant port
      → IsBound port tenant session store
      → IsBound port tenant session (dispatch_otp port fresh now subject key attempts store).1
  unfolding dispatch_otp on_otp
  dispatch_otp-IsBound tenant session fresh now subject key attempts store keeps h =
      let P = IsBound port tenant session in
      let request : OtpChallengeRequest = record {
        subject = subject;
        dispatch_idempotency_key = strip key;
        max_attempts = attempts;
      } in
      let renewed =
        renew-IsBound port tenant session store _ (keeps.dispatch fresh now request store.otp) h in
      let bad = not (
        text_eq subject.tenant_id (port.tenant_id store.otp)
        && text_eq subject.session_id store.session_id) in
      elim (Bool-cases bad) [
        | inl other ↦ rw other h
        | inr scoped ↦ elim (Bool-cases (valid_request request)) [
          | inr invalid ↦ rw (scoped, invalid) h
          | inl valid ↦
              let same = guard-scopes _ _ _ _ scoped in
              rw (scoped, valid)
                (bind-keeps P (on_otp (port.dispatch fresh now request))
                  (record_subject port subject) store renewed
                  (λ challenge answered.
                    record_subject-IsBound port tenant session subject challenge _
                      (same.0 ∙ h.of_tenant) (same.1 ∙ h.of_session) renewed))
        ]
      ]

  kept-IsBound :
      (tenant session id : Text) (subject : VerificationSubject) (proof : VerificationProof)
      (store : VerificationStore S)
      → lookup id store.subjects_by_challenge ≡ some subject
      → Matches subject proof
      → IsBound port tenant session store
      → IsBound port tenant session (record store {
        subjects_by_challenge = (id, subject) ∷ [];
        proofs_by_challenge = (id, proof) ∷ [];
      })
  unfolding lookup
  kept-IsBound tenant session id subject proof store found match h = record {
    of_tenant = h.of_tenant;
    of_session = h.of_session;
    scoped = λ j other held. ground (arith, h.scoped id subject found, held);
    backed = λ j other held.
        (subject, ground (arith, held), subst (Matches subject) (ground (arith, held)) match);
    distinct = (refl, tt);
  }

  pub retain_proof-IsBound :
      (tenant session : Text) (now : ℕ) (proof : VerificationProof) (store : VerificationStore S)
      → KeepsTenant port
      → IsBound port tenant session store
      → IsBound port tenant session (retain_proof port now proof store).1
  unfolding retain_proof on_otp
  retain_proof-IsBound tenant session now proof store keeps h =
      let P = IsBound port tenant session in
      let id = proof.challenge_id in
      let bad = not (is_earned port proof store) || not (proof_is_fresh now proof) in
      let renewed =
        renew-IsBound port tenant session store _
          (keeps.retain_only store.session_id (id ∷ []) store.otp) h in
      raise_if-keeps P bad _ _ store h (λ earned.
        elim (Option-cases (lookup id store.subjects_by_challenge)) [
          | inl unknown ↦ rw unknown h
          | inr (subject, seen) ↦ rw seen (
              bind-keeps P (on_otp (port.retain_only store.session_id (id ∷ []))) _ store renewed
                (λ done answered.
                  kept-IsBound tenant session id subject proof _ seen
                    (earned-Matches tenant session now subject proof store seen h earned) renewed))
        ])
