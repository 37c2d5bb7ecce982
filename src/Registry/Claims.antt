-- ===== src/Registry/Claims.antt =====
-- When an expired session may be taken over for its close, and what the claimant gets.
use agnostic_market.Base.{
  ℕ, ◌+◌, ◌≤◌, ◌≡◌, refl, sym, ap, ◌∙◌, ◌⊎◌, inl, inr, Bool, true, false, ◌&&◌, ◌||◌, Option, none,
  some, is_some, arith, not, leb, Bool-cases,
}
use agnostic_market.Text.{Text, text_eq}
use agnostic_market.Text.Laws.{eq_of_text_eq}
use agnostic_market.Registry.Types.{
  SessionLifecycle, Duration, positive, nonpositive, not_finite, is_owner, closed,
  SessionCloseRequest, SessionRegistryRecord, lifecycle_eq, closing, lease_live,
}
use agnostic_market.Registry.Database.{Key, select, Database, ok}
use agnostic_market.Registry.Admission.{Registry, database_fault, lease_duration}
use agnostic_market.Registry.Closing.{
  SessionCloseClaim, taken, claim_expired_locked, claim_expired, close_authority,
}
use agnostic_market.Registry.Statements.{locked_session-found}
use agnostic_market.Registry.Inversion.{>>=-ok, raise_if-ok, in_transaction-ok}
use agnostic_market.Registry.Taking.{
  take_close_lease-result, close_authority-ok, close_claim-result,
}

-- A claim of an expired session that returned, of the record `r`, which it left as `s`.
pub record Claims (k : Key) (now : ℕ) (request : SessionCloseRequest) (db db' : Database)
    (claim : SessionCloseClaim) (r s : SessionRegistryRecord) : Type 0 where
  pub held : select k db.sessions ≡ some r
  pub unclosed : ¬ (r.lifecycle ≡ closed)
  pub due :
      ((ends : ℕ) → r.lease_expires_at ≡ some ends → ends ≤ now)
      ⊎ ((¬ (r.lifecycle ≡ closing)) × (r.expires_at ≤ now))
  pub stored : select k db'.sessions ≡ some s
  pub closes : s.lifecycle ≡ closing
  pub next_fence : s.fencing_generation ≡ r.fencing_generation + 1
  pub owner : s.lease_owner_id ≡ some request.lease_owner_id
  pub operation : s.close_operation_id ≡ some request.operation_id
  pub lasts : ℕ
  pub lasting : request.duration_seconds ≡ positive lasts
  pub lease : s.lease_expires_at ≡ some (now + lasts)
  pub content :
      (s.envelope ≡ r.envelope)
      × (s.session_revision ≡ r.session_revision)
      × (s.checkpoint_namespace ≡ r.checkpoint_namespace)
  pub answered : claim.session ≡ s
  pub authority_fence : claim.authority.fencing_generation ≡ r.fencing_generation + 1
  pub authority_owner : claim.authority.lease_owner_id ≡ request.lease_owner_id
  pub authority_operation : claim.authority.operation_id ≡ request.operation_id

read_after :
    (k : Key) (db db' : Database) (r q : SessionRegistryRecord)
    → db' ≡ db
    → select k db.sessions ≡ some r
    → r ≡ q
    → select k db'.sessions ≡ some q
read_after k db db' r q same there e = rw same (there ∙ ap some e)

lasting_of : (d : Duration) (lasts : ℕ) → lease_duration d ≡ ok lasts → d ≡ positive lasts
unfolding lease_duration
lasting_of not_finite lasts h = cc
lasting_of nonpositive lasts h = cc
lasting_of (positive n) lasts h = ground (arith, h)

own_operation :
    (held : Option Text) (operation : Text)
    → (is_some held && not (is_owner held operation)) ≡ false
    → some (elim held [ none ↦ operation | some o ↦ o ]) ≡ some operation
unfolding is_owner
own_operation none operation ours = refl
own_operation (some o) operation ours =
    ap some (eq_of_text_eq o operation (unnegated (text_eq o operation) ours))
  where
    unnegated : (b : Bool) → not b ≡ false → b ≡ true
    unnegated true h = refl
    unnegated false h = sym h

unclosed_of : (l : SessionLifecycle) → lifecycle_eq l closed ≡ false → ¬ (l ≡ closed)
unfolding lifecycle_eq
unclosed_of l open' e = ground (arith, open', e)

unclosing_of : (l : SessionLifecycle) → lifecycle_eq l closing ≡ false → ¬ (l ≡ closing)
unfolding lifecycle_eq
unclosing_of l open' e = ground (arith, open', e)

ended :
    (lease : Option ℕ) (now ends : ℕ)
    → lease_live lease now ≡ false
    → lease ≡ some ends
    → ends ≤ now
unfolding lease_live
ended lease now ends over e = ground (arith, over, e)

claimed_from :
    (k : Key) (now : ℕ) (request : SessionCloseRequest) (db db' : Database)
    (claim : SessionCloseClaim) (r s : SessionRegistryRecord)
    → select k db.sessions ≡ some r
    → lifecycle_eq r.lifecycle closed ≡ false
    → ((ends : ℕ) → r.lease_expires_at ≡ some ends → ends ≤ now)
      ⊎ ((¬ (r.lifecycle ≡ closing)) × (r.expires_at ≤ now))
    → (lasts : ℕ) → lease_duration request.duration_seconds ≡ ok lasts
    → (is_some r.close_operation_id && not (is_owner r.close_operation_id request.operation_id))
      ≡ false
    → s ≡ taken now lasts request r r
    → select k db'.sessions ≡ some s
    → claim.session ≡ s
    → close_authority s ≡ ok claim.authority
    → Claims k now request db db' claim r s
claimed_from k now request db db' claim r s found open' due lasts lasting ours e there answered
      authorized =
    let (a, b, c) = close_authority-ok s claim.authority authorized in
    let fence : s.fencing_generation ≡ r.fencing_generation + 1 =
      ap (λ (x : SessionRegistryRecord). x.fencing_generation) e in
    let owner : s.lease_owner_id ≡ some request.lease_owner_id =
      ap (λ (x : SessionRegistryRecord). x.lease_owner_id) e in
    let operation : s.close_operation_id ≡ some request.operation_id =
      ap (λ (x : SessionRegistryRecord). x.close_operation_id) e
      ∙ own_operation r.close_operation_id request.operation_id ours in
    record {
      held = found;
      unclosed = unclosed_of r.lifecycle open';
      due = due;
      stored = there;
      closes = ap (λ (x : SessionRegistryRecord). x.lifecycle) e;
      next_fence = fence;
      owner = owner;
      operation = operation;
      lasts = lasts;
      lasting = lasting_of request.duration_seconds lasts lasting;
      lease = ap (λ (x : SessionRegistryRecord). x.lease_expires_at) e;
      content = (
        ap (λ (x : SessionRegistryRecord). x.envelope) e,
        ap (λ (x : SessionRegistryRecord). x.session_revision) e,
        ap (λ (x : SessionRegistryRecord). x.checkpoint_namespace) e,
      );
      answered = answered;
      authority_fence = a ∙ fence;
      authority_owner = ground (arith, b, owner);
      authority_operation = ground (arith, c, operation);
    }

claim_due :
    (now : ℕ) (r : SessionRegistryRecord)
    → (lease_live r.lease_expires_at now
        && (lifecycle_eq r.lifecycle closing || not (leb r.expires_at now)))
      ≡ false
    → ((ends : ℕ) → r.lease_expires_at ≡ some ends → ends ≤ now)
      ⊎ ((¬ (r.lifecycle ≡ closing)) × (r.expires_at ≤ now))
claim_due now r free = elim (Bool-cases (lease_live r.lease_expires_at now)) [
  | inr over ↦ inl (λ ends e. ended r.lease_expires_at now ends over e)
  | inl live ↦ (elim (Bool-cases (lifecycle_eq r.lifecycle closing)) [
    | inl closes ↦ ground (arith, free, live, closes)
    | inr unclosing ↦
        inr (unclosing_of r.lifecycle unclosing, ground (arith, free, live, unclosing))
  ])
]

pub claim_expired-ok :
    (registry : Registry) (now : ℕ) (k : Key) (request : SessionCloseRequest) (db db' : Database)
    (claim : SessionCloseClaim)
    → claim_expired registry now k request db ≡ (ok claim, db')
    → (r : SessionRegistryRecord) × (s : SessionRegistryRecord) × Claims k now request db db' claim
        r s
unfolding claim_expired claim_expired_locked
claim_expired-ok registry now k request db db' claim answer =
    let ran = in_transaction-ok claim db db' database_fault _ answer in
    let (r, db₁, locked, rest) = >>=-ok claim db db' _ _ ran in
    let (same, found, _) = locked_session-found k db db₁ r locked in
    let (s, db₂, took, read) = >>=-ok claim db₁ db' _ _ rest in
    let (not_closed, guarded) = raise_if-ok s db₁ db₂ _ _ _ took in
    let (free, leased) = raise_if-ok s db₁ db₂ _ _ _ guarded in
    let (lasts, lasting, ours, e, there) =
      take_close_lease-result now request k r s db₁ db₂ (rw same found) leased in
    let (kept, answered, authorized) = close_claim-result registry s db₂ db' claim read in
    (
      r,
      s,
      claimed_from k now request db db' claim r s found not_closed (claim_due now r free) lasts
          lasting ours e (read_after k db₂ db' s s kept there refl) answered authorized,
    )
