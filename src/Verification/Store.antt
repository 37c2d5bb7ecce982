-- ===== src/Verification/Store.antt =====
-- `VerificationStore`: the proofs of one session, over the challenges of any provider. The
-- clock's readings and the random ids are arguments of the calls that take them.
use agnostic_market.Base.{
  ℕ, Bool, true, false, ◌&&◌, ◌||◌, Option, none, some, List, [], ◌∷◌, leb, ltb, null, not, ◌==◌,
  max, any, if◌then◌else◌,
}
use agnostic_market.Text.{Text, text_eq, strip}
use agnostic_market.Dict.{Dict, lookup, values}
use agnostic_market.Effect.{Result, ok, err, Action, value_error}
use agnostic_market.Verification.Types.{
  purpose_eq, VerificationSubject, subject_eq, OtpChallengeRequest, OtpChallenge, OtpVerification,
  VerificationProof,
}

-- `OtpPort`, with the provider's state passed on
pub record OtpPort (S : Type 0) : Type 0 where
  pub tenant_id : S → Text
  pub dispatch : Text → ℕ → OtpChallengeRequest → Action S OtpChallenge
  pub verify : ℕ → Text → Text → Action S OtpVerification
  pub retain_only : Text → List Text → Action S (Unit {0})

pub record VerificationStore (S : Type 0) : Type 0 where
  pub otp : S
  pub session_id : Text
  pub subjects_by_challenge : Dict VerificationSubject
  pub proofs_by_challenge : Dict VerificationProof

unfoldable pub new_store : {S : Type 0} → S → Text → Result (VerificationStore S)
new_store otp session =
    if null (strip session)
    then err value_error
    else ok (record {
      otp = otp;
      session_id = strip session;
      subjects_by_challenge = [];
      proofs_by_challenge = [];
    })

-- `_proof_is_fresh`
unfoldable pub proof_is_fresh : ℕ → VerificationProof → Bool
proof_is_fresh now proof = ltb now proof.expires_at_epoch

-- The constant field `raised_to`
abbrev pub raised_to : VerificationProof → ℕ
raised_to proof = 2

-- `_proof_satisfies`
unfoldable pub proof_satisfies : ℕ → VerificationProof → VerificationSubject → ℕ → Bool → Bool
unfolding proof_is_fresh
proof_satisfies now proof subject required exact =
    proof_is_fresh now proof
    && leb required (raised_to proof)
    && text_eq proof.tenant_id subject.tenant_id
    && text_eq proof.session_id subject.session_id
    && text_eq proof.customer_ref subject.customer_ref
    && text_eq proof.factor_ref subject.factor_ref
    && (not exact || purpose_eq proof.purpose subject.purpose)

unfoldable pub fresh_proofs : ℕ → Dict VerificationProof → List VerificationProof
unfolding proof_is_fresh
fresh_proofs now [] = []
fresh_proofs now ((id, proof) ∷ d) =
    let rest = fresh_proofs now d in if proof_is_fresh now proof then proof ∷ rest else rest

unfoldable pub highest : List VerificationProof → ℕ
highest [] = 1
highest (proof ∷ proofs) = max (raised_to proof) (highest proofs)

unfoldable pub grants : {S : Type 0} → ℕ → VerificationStore S → List VerificationProof
unfolding fresh_proofs
grants now store = fresh_proofs now store.proofs_by_challenge

unfoldable pub current_level : {S : Type 0} → ℕ → VerificationStore S → ℕ
unfolding fresh_proofs highest
current_level now store = highest (fresh_proofs now store.proofs_by_challenge)

unfoldable pub proof_for_challenge :
    {S : Type 0} → ℕ → Text → VerificationStore S → Option VerificationProof
unfolding proof_is_fresh
proof_for_challenge now id store = elim (lookup id store.proofs_by_challenge) [
  | some proof ↦ if proof_is_fresh now proof then some proof else none
  | none ↦ none
]

unfoldable pub authorization_satisfies :
    {S : Type 0} → ℕ → VerificationSubject → ℕ → VerificationStore S → Bool
unfolding proof_satisfies
authorization_satisfies now subject required store =
    any (λ proof. proof_satisfies now proof subject required false)
      (values store.proofs_by_challenge)

-- `self._subjects_by_challenge.get(challenge_id) == subject`
unfoldable pub is_subject : Option VerificationSubject → VerificationSubject → Bool
is_subject found subject = elim found [ some s ↦ subject_eq s subject | none ↦ false ]

unfoldable pub challenge_satisfies :
    {S : Type 0} → ℕ → Text → VerificationSubject → ℕ → VerificationStore S → Bool
unfolding proof_satisfies is_subject
challenge_satisfies now id subject required store =
    is_subject (lookup id store.subjects_by_challenge) subject
    && elim (lookup id store.proofs_by_challenge) [
      | some proof ↦ proof_satisfies now proof subject required true
      | none ↦ false
    ]

-- The proof of a subject's challenge.
unfoldable pub minted : Text → Text → VerificationSubject → ℕ → ℕ → VerificationProof
minted proof_id challenge_id subject verified_at expires_at = record {
  proof_id = proof_id;
  tenant_id = subject.tenant_id;
  session_id = subject.session_id;
  customer_ref = subject.customer_ref;
  factor_ref = subject.factor_ref;
  purpose = subject.purpose;
  challenge_id = strip challenge_id;
  verified_at_epoch = verified_at;
  expires_at_epoch = expires_at;
}

-- `a == b` on proofs
unfoldable pub proof_eq : VerificationProof → VerificationProof → Bool
proof_eq a b =
    text_eq a.proof_id b.proof_id
    && text_eq a.tenant_id b.tenant_id
    && text_eq a.session_id b.session_id
    && text_eq a.customer_ref b.customer_ref
    && text_eq a.factor_ref b.factor_ref
    && purpose_eq a.purpose b.purpose
    && text_eq a.challenge_id b.challenge_id
    && a.verified_at_epoch == b.verified_at_epoch
    && a.expires_at_epoch == b.expires_at_epoch

-- A call of the provider, on the store's provider.
unfoldable pub on_otp : {S A : Type 0} → Action S A → Action (VerificationStore S) A
on_otp call store = let answer = call store.otp in (answer.0, record store { otp = answer.1 })
