-- ===== src/Verification/Subjects.antt =====
-- Subjects that are equal, and the updates that keep the proofs of a session backed by them.
use agnostic_market.Base.{ℕ, ◌≡◌, refl, subst, inl, inr, true, some, arith, Bool-cases}
use agnostic_market.Text.{Text, text_eq}
use agnostic_market.Text.Laws.{eq_of_text_eq, text_eq_iff, text_eq_refl}
use agnostic_market.Dict.{Dict, lookup, insert}
use agnostic_market.Dict.Laws.{lookup-insert}
use agnostic_market.Verification.Types.{
  VerificationPurpose, identity, profile, refund, purpose_eq, VerificationSubject, subject_eq,
  VerificationProof,
}
use agnostic_market.Verification.Store.{minted}

pub eq_of_purpose_eq : (a b : VerificationPurpose) → purpose_eq a b ≡ true → a ≡ b
unfolding purpose_eq
eq_of_purpose_eq identity identity _ = refl
eq_of_purpose_eq profile profile _ = refl
eq_of_purpose_eq refund refund _ = refl
eq_of_purpose_eq identity profile h = ground arith
eq_of_purpose_eq identity refund h = ground arith
eq_of_purpose_eq profile identity h = ground arith
eq_of_purpose_eq profile refund h = ground arith
eq_of_purpose_eq refund identity h = ground arith
eq_of_purpose_eq refund profile h = ground arith

pub purpose_eq_refl : (a : VerificationPurpose) → purpose_eq a a ≡ true
unfolding purpose_eq
purpose_eq_refl identity = refl
purpose_eq_refl profile = refl
purpose_eq_refl refund = refl

subject_eq-fields :
    (a b : VerificationSubject)
    → subject_eq a b ≡ true
    → (a.tenant_id ≡ b.tenant_id)
      × (a.session_id ≡ b.session_id)
      × (a.customer_ref ≡ b.customer_ref)
      × (a.factor_ref ≡ b.factor_ref)
      × (a.purpose ≡ b.purpose)
unfolding subject_eq
subject_eq-fields a b same = ground (
  arith,
  eq_of_text_eq a.tenant_id b.tenant_id,
  eq_of_text_eq a.session_id b.session_id,
  eq_of_text_eq a.customer_ref b.customer_ref,
  eq_of_text_eq a.factor_ref b.factor_ref,
  eq_of_purpose_eq a.purpose b.purpose,
)

pub eq_of_subject_eq : (a b : VerificationSubject) → subject_eq a b ≡ true → a ≡ b
eq_of_subject_eq a b same i =
    let (tenant, session, customer, factor, purpose) = subject_eq-fields a b same in
    record {
      tenant_id = tenant i;
      session_id = session i;
      customer_ref = customer i;
      factor_ref = factor i;
      purpose = purpose i;
    }

pub subject_eq_refl : (a : VerificationSubject) → subject_eq a a ≡ true
unfolding subject_eq
subject_eq_refl a = ground (
  arith,
  text_eq_refl a.tenant_id,
  text_eq_refl a.session_id,
  text_eq_refl a.customer_ref,
  text_eq_refl a.factor_ref,
  purpose_eq_refl a.purpose,
)

-- A proof has the authority of the subject it was minted for.
pub record Matches (subject : VerificationSubject) (proof : VerificationProof) : Type 0 where
  pub tenant : proof.tenant_id ≡ subject.tenant_id
  pub session : proof.session_id ≡ subject.session_id
  pub customer : proof.customer_ref ≡ subject.customer_ref
  pub factor : proof.factor_ref ≡ subject.factor_ref
  pub purpose : proof.purpose ≡ subject.purpose

-- Every subject that is recorded is one of this tenant and session.
abbrev pub Scoped : Text → Text → Dict VerificationSubject → Type 0
Scoped tenant session subjects =
    (id : Text) (subject : VerificationSubject)
    → lookup id subjects ≡ some subject
    → (subject.tenant_id ≡ tenant) × (subject.session_id ≡ session)

-- Every proof has the authority of the subject that its challenge was sent to.
abbrev pub Backed : Dict VerificationSubject → Dict VerificationProof → Type 0
Backed subjects proofs =
    (id : Text) (proof : VerificationProof)
    → lookup id proofs ≡ some proof
    → (subject : VerificationSubject) × (lookup id subjects ≡ some subject) × Matches subject proof

-- An update that keeps the entries there are keeps the proofs backed.
pub Backed-insert :
    (id : Text) (subject : VerificationSubject) (subjects : Dict VerificationSubject)
    (proofs : Dict VerificationProof)
    → ((s : VerificationSubject) → lookup id subjects ≡ some s → s ≡ subject)
    → Backed subjects proofs
    → Backed (insert id subject subjects) proofs
Backed-insert id subject subjects proofs same h j proof held =
    let (s, found, match) = h j proof held in
    (s, ground (arith, lookup-insert id j subject subjects, text_eq_iff id j, same s, found), match)

pub Scoped-insert :
    (tenant session id : Text) (subject : VerificationSubject) (subjects : Dict VerificationSubject)
    → subject.tenant_id ≡ tenant
    → subject.session_id ≡ session
    → Scoped tenant session subjects
    → Scoped tenant session (insert id subject subjects)
Scoped-insert tenant session id subject subjects t s h j other held =
    ground (arith, lookup-insert id j subject subjects, h j other, held)

pub minted-Matches :
    (proof_id id : Text) (subject : VerificationSubject) (from until : ℕ)
    → Matches subject (minted proof_id id subject from until)
unfolding minted
minted-Matches proof_id id subject from until = record {
  tenant = refl;
  session = refl;
  customer = refl;
  factor = refl;
  purpose = refl;
}

pub Backed-mint :
    (id : Text) (subject : VerificationSubject) (proof : VerificationProof)
    (subjects : Dict VerificationSubject) (proofs : Dict VerificationProof)
    → lookup id subjects ≡ some subject
    → Matches subject proof
    → Backed subjects proofs
    → Backed subjects (insert id proof proofs)
Backed-mint id subject proof subjects proofs found match h j other held =
    elim (Bool-cases (text_eq id j)) [
      | inl same ↦ (
        subject,
        ground (arith, text_eq_iff id j, found),
        subst (Matches subject) (ground (arith, lookup-insert id j proof proofs, held)) match,
      )
      | inr ne ↦ h j other (ground (arith, lookup-insert id j proof proofs, held))
    ]
