-- ===== src/Verification/Bound.antt =====
-- The proofs of a session stay bound to its tenant, its session and their challenges, whatever
-- the provider answers.
use agnostic_market.Base.{
  ℕ, ◌≡◌, ◌∙◌, ◌⊎◌, inl, inr, some, List, arith, leb, Bool-cases, Option-cases,
}
use agnostic_market.Text.{Text}
use agnostic_market.Dict.{lookup, insert}
use agnostic_market.Dict.Laws.{IsDict, insert-IsDict}
use agnostic_market.Verification.Types.{
  VerificationSubject, subject_eq, OtpChallengeRequest, OtpChallenge, OtpVerification,
  VerificationProof,
}
use agnostic_market.Verification.Store.{OtpPort, VerificationStore, is_subject, minted}
use agnostic_market.Verification.Session.{record_subject, keep_proof, accept}
use agnostic_market.Verification.Subjects.{
  eq_of_subject_eq, Matches, Scoped, Backed, Backed-insert, Scoped-insert, Backed-mint,
}

module _ {S : Type 0} (port : OtpPort S) where
  -- A store of this tenant and session, whose proofs are all backed.
  pub record IsBound (tenant session : Text) (store : VerificationStore S) : Type 0 where
    pub of_tenant : port.tenant_id store.otp ≡ tenant
    pub of_session : store.session_id ≡ session
    pub scoped : Scoped tenant session store.subjects_by_challenge
    pub backed : Backed store.subjects_by_challenge store.proofs_by_challenge
    pub distinct : IsDict store.proofs_by_challenge

  -- No call changes the tenant that a provider answers for.
  pub record KeepsTenant : Type 0 where
    pub dispatch :
        (fresh : Text) (now : ℕ) (request : OtpChallengeRequest) (s : S)
        → port.tenant_id (port.dispatch fresh now request s).1 ≡ port.tenant_id s
    pub verify :
        (now : ℕ) (id code : Text) (s : S)
        → port.tenant_id (port.verify now id code s).1 ≡ port.tenant_id s
    pub retain_only :
        (session : Text) (ids : List Text) (s : S)
        → port.tenant_id (port.retain_only session ids s).1 ≡ port.tenant_id s

  -- The provider may change, as long as its tenant stays.
  pub renew-IsBound :
      (tenant session : Text) (store : VerificationStore S) (s : S)
      → port.tenant_id s ≡ port.tenant_id store.otp
      → IsBound tenant session store
      → IsBound tenant session (record store { otp = s })
  renew-IsBound tenant session store s same h = record {
    of_tenant = same ∙ h.of_tenant;
    of_session = h.of_session;
    scoped = h.scoped;
    backed = h.backed;
    distinct = h.distinct;
  }

  -- Keeping a subject under an id that has no other.
  keep-IsBound :
      (tenant session id : Text) (subject : VerificationSubject) (store : VerificationStore S)
      → subject.tenant_id ≡ tenant
      → subject.session_id ≡ session
      → ((s : VerificationSubject) → lookup id store.subjects_by_challenge ≡ some s → s ≡ subject)
      → IsBound tenant session store
      → IsBound tenant session
          (record store { subjects_by_challenge = insert id subject store.subjects_by_challenge })
  keep-IsBound tenant session id subject store t s same h = record {
    of_tenant = h.of_tenant;
    of_session = h.of_session;
    scoped = Scoped-insert tenant session id subject store.subjects_by_challenge t s h.scoped;
    backed =
        Backed-insert id subject store.subjects_by_challenge store.proofs_by_challenge same
          h.backed;
    distinct = h.distinct;
  }

  pub record_subject-IsBound :
      (tenant session : Text) (subject : VerificationSubject) (challenge : OtpChallenge)
      (store : VerificationStore S)
      → subject.tenant_id ≡ tenant
      → subject.session_id ≡ session
      → IsBound tenant session store
      → IsBound tenant session (record_subject port subject challenge store).1
  unfolding record_subject
  record_subject-IsBound tenant session subject challenge store t s h =
      let id = challenge.challenge_id in
      elim (Option-cases (lookup id store.subjects_by_challenge)) [
        | inl new ↦ rw new (
            keep-IsBound tenant session id subject store t s
              (λ other held. ground (arith, new, held)) h)
        | inr (existing, seen) ↦ elim (Bool-cases (subject_eq existing subject)) [
          | inl same ↦
              rw (seen, same)
                (keep-IsBound tenant session id subject store t s
                  (λ other held. ground (arith, eq_of_subject_eq existing subject same, seen, held))
                  h)
          | inr other ↦ rw (seen, other) h
        ]
      ]

  pub keep_proof-IsBound :
      (tenant session id : Text) (subject : VerificationSubject) (proof : VerificationProof)
      (store : VerificationStore S)
      → lookup id store.subjects_by_challenge ≡ some subject
      → Matches subject proof
      → IsBound tenant session store
      → IsBound tenant session (keep_proof port id proof store).1
  unfolding keep_proof
  keep_proof-IsBound tenant session id subject proof store found match h =
      elim (Option-cases (lookup id store.proofs_by_challenge)) [
        | inr (held, seen) ↦ rw seen h
        | inl none_yet ↦ elim (Bool-cases (leb proof.expires_at_epoch proof.verified_at_epoch)) [
          | inl bad ↦ rw (none_yet, bad) h
          | inr good ↦
              rw (none_yet, good)
                (record {
                  of_tenant = h.of_tenant;
                  of_session = h.of_session;
                  scoped = h.scoped;
                  backed =
                      Backed-mint id subject proof store.subjects_by_challenge
                        store.proofs_by_challenge found match h.backed;
                  distinct = insert-IsDict id proof store.proofs_by_challenge h.distinct;
                })
        ]
      ]

  -- What `accept` leaves: the store as it was, or with the proof it kept.
  pub accept-state :
      (proof_id : Text) (later : ℕ) (id : Text) (expected : VerificationSubject)
      (outcome : OtpVerification) (store : VerificationStore S)
      → ((accept port proof_id later id expected outcome store).1 ≡ store)
        ⊎ ((from : ℕ) × (until : ℕ) × ((accept port proof_id later id expected outcome store).1
              ≡ (keep_proof port id (minted proof_id id expected from until) store).1))
  unfolding accept
  accept-state proof_id later id expected outcome store =
      elim (Option-cases outcome.verified_at_epoch) [
        | inl no_time ↦ inl (ground arith)
        | inr (from, at) ↦ elim (Option-cases outcome.proof_expires_at_epoch) [
          | inl no_end ↦ inl (ground arith)
          | inr (until, ends) ↦ elim (Bool-cases (is_subject outcome.subject expected)) [
            | inl same ↦ inr (from, until, ground arith)
            | inr other ↦ inl (ground arith)
          ]
        ]
      ]
