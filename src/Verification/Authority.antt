-- ===== src/Verification/Authority.antt =====
-- What an authorization of a session rests on.
use agnostic_market.Base.{ℕ, ◌≡◌, refl, sym, subst, ◌∙◌, true, false, some, List, [], ◌∷◌, arith}
use agnostic_market.Text.{Text, strip}
use agnostic_market.Text.Laws.{eq_of_text_eq}
use agnostic_market.Dict.{lookup}
use agnostic_market.Dict.Laws.{any-lookup}
use agnostic_market.Effect.{ok}
use agnostic_market.Verification.Types.{VerificationSubject, VerificationProof}
use agnostic_market.Verification.Store.{
  OtpPort, VerificationStore, new_store, proof_is_fresh, proof_satisfies, authorization_satisfies,
}
use agnostic_market.Verification.Bound.{IsBound, KeepsTenant}
use agnostic_market.Verification.Runs.{
  SessionCall, dispatches, verifies, retains, clears, step, run, dispatch_otp-IsBound,
  verify_otp-IsBound, retain_proof-IsBound, clear-IsBound,
}

-- The parts of a proof that satisfies a subject, its purpose left aside.
satisfied :
    (now : ℕ) (proof : VerificationProof) (subject : VerificationSubject) (required : ℕ)
    → proof_satisfies now proof subject required false ≡ true
    → (proof_is_fresh now proof ≡ true)
      × (proof.tenant_id ≡ subject.tenant_id)
      × (proof.session_id ≡ subject.session_id)
      × (proof.customer_ref ≡ subject.customer_ref)
      × (proof.factor_ref ≡ subject.factor_ref)
unfolding proof_satisfies
satisfied now proof subject required h = ground (
  arith,
  eq_of_text_eq proof.tenant_id subject.tenant_id,
  eq_of_text_eq proof.session_id subject.session_id,
  eq_of_text_eq proof.customer_ref subject.customer_ref,
  eq_of_text_eq proof.factor_ref subject.factor_ref,
)

module _ {S : Type 0} (port : OtpPort S) where
  step-IsBound :
      (tenant session : Text) (call : SessionCall) (store : VerificationStore S)
      → KeepsTenant port
      → IsBound port tenant session store
      → IsBound port tenant session (step port call store)
  unfolding step
  step-IsBound tenant session (dispatches fresh now subject key attempts) store keeps h =
      dispatch_otp-IsBound port tenant session fresh now subject key attempts store keeps h
  step-IsBound tenant session (verifies proof_id now later id code) store keeps h =
      verify_otp-IsBound port tenant session proof_id now later id code store keeps h
  step-IsBound tenant session (retains now proof) store keeps h =
      retain_proof-IsBound port tenant session now proof store keeps h
  step-IsBound tenant session clears store keeps h = clear-IsBound port tenant session store keeps h

  pub run-IsBound :
      (tenant session : Text) (calls : List SessionCall) (store : VerificationStore S)
      → KeepsTenant port
      → IsBound port tenant session store
      → IsBound port tenant session (run port calls store)
  unfolding run
  run-IsBound tenant session [] store keeps h = h
  run-IsBound tenant session (call ∷ calls) store keeps h =
      run-IsBound tenant session calls (step port call store) keeps
        (step-IsBound tenant session call store keeps h)

  pub new_store-IsBound :
      (otp : S) (session : Text) (store : VerificationStore S)
      → new_store otp session ≡ ok store
      → IsBound port (port.tenant_id otp) (strip session) store
  unfolding new_store lookup
  new_store-IsBound otp session store made =
      let empty : VerificationStore S = record {
        otp = otp;
        session_id = strip session;
        subjects_by_challenge = [];
        proofs_by_challenge = [];
      } in
      let same : empty ≡ store = ground arith in
      subst (IsBound port (port.tenant_id otp) (strip session)) same (record {
        of_tenant = refl;
        of_session = refl;
        scoped = λ id subject held. ground (arith, held);
        backed = λ id proof held. ground (arith, held);
        distinct = tt;
      })

  -- What an authorization rests on: a challenge of the store that was sent to the same customer
  -- at the same factor, and its proof, which is still fresh.
  pub record Rests (now : ℕ) (subject : VerificationSubject) (store : VerificationStore S)
      : Type 0 where
    pub id : Text
    pub sent_to : VerificationSubject
    pub proof : VerificationProof
    pub sent : lookup id store.subjects_by_challenge ≡ some sent_to
    pub proven : lookup id store.proofs_by_challenge ≡ some proof
    pub fresh : proof_is_fresh now proof ≡ true
    pub customer : sent_to.customer_ref ≡ subject.customer_ref
    pub factor : sent_to.factor_ref ≡ subject.factor_ref

  IsBound-authorized :
      (tenant session : Text) (now : ℕ) (subject : VerificationSubject) (required : ℕ)
      (store : VerificationStore S)
      → IsBound port tenant session store
      → authorization_satisfies now subject required store ≡ true
      → (subject.tenant_id ≡ tenant) × (subject.session_id ≡ session) × Rests now subject store
  unfolding authorization_satisfies
  IsBound-authorized tenant session now subject required store h given =
      let (id, proof, held, passes) =
        any-lookup (λ p. proof_satisfies now p subject required false) store.proofs_by_challenge
          h.distinct given in
      let (fresh, t, s, c, f) = satisfied now proof subject required passes in
      let (sent_to, sent, match) = h.backed id proof held in
      let scope = h.scoped id sent_to sent in
      (
        sym t ∙ match.tenant ∙ scope.0,
        sym s ∙ match.session ∙ scope.1,
        record {
          id = id;
          sent_to = sent_to;
          proof = proof;
          sent = sent;
          proven = held;
          fresh = fresh;
          customer = sym match.customer ∙ c;
          factor = sym match.factor ∙ f;
        },
      )

  -- A new store authorizes a subject, after any calls, only within its own tenant and session, and
  -- only while it holds a fresh proof of a challenge that it sent to the same customer and factor.
  -- This holds for every provider that keeps its tenant, whatever it answers.
  pub run-authorized :
      (otp : S) (session : Text) (store : VerificationStore S) (calls : List SessionCall) (now : ℕ)
      (subject : VerificationSubject) (required : ℕ)
      → KeepsTenant port
      → new_store otp session ≡ ok store
      → authorization_satisfies now subject required (run port calls store) ≡ true
      → (subject.tenant_id ≡ port.tenant_id otp)
        × (subject.session_id ≡ strip session)
        × Rests now subject (run port calls store)
  run-authorized otp session store calls now subject required keeps made given =
      IsBound-authorized (port.tenant_id otp) (strip session) now subject required
        (run port calls store)
        (run-IsBound _ _ calls store keeps (new_store-IsBound otp session store made)) given
