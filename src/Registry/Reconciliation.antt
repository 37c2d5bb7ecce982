-- ===== src/Registry/Reconciliation.antt =====
-- `classify_checkpoint_revision` and `reconcile_checkpoint_revision`: how far the checkpoint of a
-- session lags behind its state.
use agnostic_market.Base.{
  ℕ, zero, suc, ◌+◌, ◌-◌, Bool, true, false, ◌&&◌, ◌||◌, Option, none, some, List, [], ◌∷◌, map,
  all, leb, ltb, ◌==◌, not, is_some, null, ℤ, pos, negsuc, if◌then◌else◌,
}
use agnostic_market.Text.{text_eq}
use agnostic_market.Session.Payload.{DurableSessionPayload}
use agnostic_market.Registry.Types.{
  checkpoint_invalid, revision_mismatch, revision_gap_unexplained, principal_retirement_pending,
  Fault, session_restore, registry_data, value_error, assertion, opening, lifecycle_eq,
  SessionLeaseAuthority, SessionRegistryRecord,
}
use agnostic_market.Registry.Database.{
  Key, key_eq, OperationRow, Outcome, ok, err, Transaction, raise, gets, from_outcome, raise_if,
  ◌>>=◌, ◌>>◌,
}
use agnostic_market.Registry.Admission.{
  Registry, Method, database_fault, in_transaction, locked_record, lease_key,
}
use agnostic_market.Registry.Envelopes.{
  restore_payload, SessionOperationEvidence, evidence_from_row,
}

pub data CheckpointRevisionDisposition : Type 0 where
  seed_required current session_ahead : CheckpointRevisionDisposition

-- A revision as a checkpoint gives it: any object, of which the integers count, and no Booleans.
pub data RawRevision : Type 0 where
  not_integer : RawRevision
  integer : ℤ → RawRevision

unfoldable pub checked_revision : RawRevision → Option ℕ
checked_revision not_integer = none
checked_revision (integer (pos n)) = some n
checked_revision (integer (negsuc _)) = none

-- `classify_checkpoint_revision`, at a revision of a session that is not negative
unfoldable pub classify_checkpoint_revision :
    RawRevision → ℕ → Outcome CheckpointRevisionDisposition
classify_checkpoint_revision raw revision = elim (checked_revision raw) [
  | none ↦ err (session_restore checkpoint_invalid)
  | some n ↦
      if ltb revision n
      then err (session_restore revision_mismatch)
      else if ltb n revision
      then ok session_ahead
      else ok current
]

pub record CheckpointRevisionReconciliation : Type 0 where
  pub session : SessionRegistryRecord
  pub payload : DurableSessionPayload
  pub checkpoint_revision : Option ℕ
  pub disposition : CheckpointRevisionDisposition
  pub operations : List SessionOperationEvidence

-- `range(first, first + count)`
unfoldable pub revisions_from : ℕ → ℕ → List ℕ
revisions_from first zero = []
revisions_from first (suc count) = first ∷ revisions_from (first + 1) count

unfoldable pub numbers_eq : List ℕ → List ℕ → Bool
numbers_eq [] [] = true
numbers_eq (a ∷ as') (b ∷ bs) = a == b && numbers_eq as' bs
numbers_eq _ _ = false

-- The operations are those of each revision after the checkpoint's, and of this generation.
unfoldable pub is_contiguous : ℕ → SessionRegistryRecord → List SessionOperationEvidence → Bool
is_contiguous checkpoint r operations =
    numbers_eq (map (λ e. e.committed_revision) operations)
      (revisions_from (checkpoint + 1) (r.session_revision - checkpoint))
    && all (λ e. text_eq e.committed_checkpoint_namespace r.checkpoint_namespace) operations

-- `evidence_is_complete`
unfoldable pub valid_reconciliation : CheckpointRevisionReconciliation → Bool
valid_reconciliation c = elim c.disposition [
  | seed_required ↦
      lifecycle_eq c.session.lifecycle opening
      && c.session.session_revision == 0
      && not (is_some c.checkpoint_revision)
      && null c.operations
  | current ↦ (elim c.checkpoint_revision [
    | none ↦ false
    | some n ↦ n == c.session.session_revision && null c.operations
  ])
  | session_ahead ↦ (elim c.checkpoint_revision [
    | none ↦ false
    | some n ↦ c.session.session_revision == n + 1 && is_contiguous n c.session c.operations
  ])
]

-- `SELECT ... WHERE <key> AND committed_revision > %s AND committed_revision <= %s
-- ORDER BY committed_revision`
unfoldable pub insert_by_revision : OperationRow → List OperationRow → List OperationRow
insert_by_revision o [] = o ∷ []
insert_by_revision o (q ∷ rows) =
    if leb o.committed_revision q.committed_revision
    then o ∷ q ∷ rows
    else q ∷ insert_by_revision o rows

unfoldable pub operations_between : Key → (above upto : ℕ) → List OperationRow → List OperationRow
operations_between k above upto [] = []
operations_between k above upto (o ∷ rows) =
    let rest = operations_between k above upto rows in
    if key_eq o.key k && ltb above o.committed_revision && leb o.committed_revision upto
    then insert_by_revision o rest
    else rest

unfoldable pub evidence_of :
    Registry → SessionRegistryRecord → List OperationRow → Outcome (List SessionOperationEvidence)
evidence_of registry r [] = ok []
evidence_of registry r (o ∷ rows) =
    let rest = evidence_of registry r rows in
    elim (evidence_from_row registry r o) [
      | err e ↦ err e
      | ok e ↦ (elim rest [ err f ↦ err f | ok es ↦ ok (e ∷ es) ])
    ]

unfoldable pub build : CheckpointRevisionReconciliation → Outcome CheckpointRevisionReconciliation
build c = if valid_reconciliation c then ok c else err value_error

-- A session that is ahead of its checkpoint by one revision, with the operation that made it.
unfoldable pub explain_gap :
    Registry
    → Key
    → SessionRegistryRecord
    → DurableSessionPayload
    → ℕ
    → Transaction CheckpointRevisionReconciliation
explain_gap registry k r payload n = do
  raise_if (not (r.session_revision == n + 1)) (session_restore revision_gap_unexplained)
  rows ← gets (λ db. operations_between k n r.session_revision db.operations)
  operations ← from_outcome (evidence_of registry r rows)
  raise_if (not (is_contiguous n r operations)) (session_restore revision_gap_unexplained)
  from_outcome (
      build (record {
        session = r;
        payload = payload;
        checkpoint_revision = some n;
        disposition = session_ahead;
        operations = operations;
      }))

unfoldable pub reconcile_locked :
    Registry
    → Key
    → Option RawRevision
    → SessionRegistryRecord
    → Transaction CheckpointRevisionReconciliation
reconcile_locked registry k raw r = do
  payload ← from_outcome (restore_payload registry r)
  raise_if (is_some payload.principal_retirement) (session_restore principal_retirement_pending)
  (elim raw [
    | none ↦ (do
      raise_if (not (lifecycle_eq r.lifecycle opening) || not (r.session_revision == 0))
          (session_restore checkpoint_invalid)
      from_outcome (
          build (record {
            session = r;
            payload = payload;
            checkpoint_revision = none;
            disposition = seed_required;
            operations = [];
          })))
    | some revision ↦ (do
      disposition ← from_outcome (classify_checkpoint_revision revision r.session_revision)
      (elim (checked_revision revision) [
        | none ↦ raise assertion
        | some n ↦ (elim disposition [
          | current ↦ from_outcome (
              build (record {
                session = r;
                payload = payload;
                checkpoint_revision = some n;
                disposition = current;
                operations = [];
              }))
          | _ ↦ explain_gap registry k r payload n
        ])
      ]))
  ])

-- The handlers of `reconcile_checkpoint_revision`.
unfoldable pub reconciliation_fault : Fault → Fault
reconciliation_fault value_error = registry_data
reconciliation_fault e = database_fault e

unfoldable pub reconcile_checkpoint_revision :
    Registry
    → (locked : ℕ) → SessionLeaseAuthority
    → Option RawRevision
    → Method CheckpointRevisionReconciliation
reconcile_checkpoint_revision registry locked a raw =
    in_transaction reconciliation_fault
      (do r ← locked_record a locked; reconcile_locked registry (lease_key a) raw r)
