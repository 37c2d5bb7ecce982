-- ===== src/Registry/Publication.antt =====
-- `restore` and `publish`: what a holder of a session reads and writes.
use agnostic_market.Base.{
  ℕ, ◌+◌, Bool, true, false, ◌&&◌, ◌||◌, Option, none, some, List, [], ◌∷◌, ◌++◌, leb, ◌==◌, not,
  is_some, any, if◌then◌else◌,
}
use agnostic_market.Text.{Text, text_eq}
use agnostic_market.Encryption.{SessionEnvelope}
use agnostic_market.Session.Payload.{DurableSessionPayload, SessionOperationResult}
use agnostic_market.Registry.Types.{
  lifecycle_rejected, stale_revision, operation_conflict, rotation_pending, lease_admission,
  state_write, registry_data, value_error, unique_violation, active, lifecycle_eq,
  SessionLeaseAuthority, SessionRegistryRecord,
}
use agnostic_market.Registry.Database.{
  Key, key_eq, OperationRow, GenerationRow, pending, state_eq, Outcome, ok, err, Transaction, pure,
  gets, from_outcome, raise_if, ◌>>=◌, ◌>>◌, update_session,
}
use agnostic_market.Registry.Admission.{
  Registry, Method, database_fault, in_transaction, record_from_row, locked_record, lease_key,
}
use agnostic_market.Registry.Envelopes.{
  projection_context, operation_context, seal_payload, seal_receipt, restore_payload,
  operation_result_from_row,
}
use agnostic_market.Registry.Leases.{holds, expired_meanwhile}

pub record RestoredSessionState : Type 0 where
  pub session : SessionRegistryRecord
  pub payload : DurableSessionPayload
  pub replayed : Bool
  pub operation_revision : Option ℕ
  pub operation_result : Option SessionOperationResult

-- `operation_receipt_matches_replay`
unfoldable pub valid_restored : RestoredSessionState → Bool
valid_restored s =
    (if s.replayed
      then is_some s.operation_revision && is_some s.operation_result
      else not (is_some s.operation_revision) && not (is_some s.operation_result))
    && (elim s.operation_revision [ none ↦ true | some n ↦ leb n s.session.session_revision ])

unfoldable pub restore :
    Registry → (locked : ℕ) → SessionLeaseAuthority → Method RestoredSessionState
restore registry locked a = in_transaction database_fault (do
  r ← locked_record a locked
  payload ← from_outcome (restore_payload registry r)
  pure (record {
    session = r;
    payload = payload;
    replayed = false;
    operation_revision = none;
    operation_result = none;
  }))

pub record SessionStatePublication : Type 0 where
  pub authority : SessionLeaseAuthority
  pub expected_revision : ℕ
  pub operation_id : Text
  pub request_fingerprint : Text
  pub payload : DurableSessionPayload
  pub operation_result : SessionOperationResult

-- `SELECT 1 FROM platform_checkpoint_generations WHERE <key> AND state = 'pending'`
unfoldable pub has_pending : Key → List GenerationRow → Bool
has_pending k rows = any (λ g. key_eq g.key k && state_eq g.state pending) rows

-- The receipt of an operation, which the primary key makes the only one.
unfoldable pub find_operation : Key → Text → List OperationRow → Option OperationRow
find_operation k operation [] = none
find_operation k operation (o ∷ rows) =
    if key_eq o.key k && text_eq o.operation_id operation
    then some o
    else find_operation k operation rows

-- `INSERT INTO platform_session_operations`, with its unique constraints
unfoldable pub insert_operation : OperationRow → Transaction (Unit {0})
insert_operation new db =
    if any
      (λ o.
        key_eq o.key new.key
        && (text_eq o.operation_id new.operation_id
            || o.committed_revision == new.committed_revision))
      db.operations
    then err unique_violation
    else ok (tt, record db { operations = db.operations ++ new ∷ [] })

-- A receipt that cannot be read is invalid data here.
unfoldable pub as_data_error : {A : Type 0} → Outcome A → Outcome A
as_data_error (ok a) = ok a
as_data_error (err e) = err registry_data

-- The answer to a publication that has a receipt.
unfoldable pub replay_receipt :
    Registry
    → SessionStatePublication
    → SessionRegistryRecord
    → OperationRow
    → Outcome RestoredSessionState
replay_receipt registry p r receipt =
    if not (text_eq receipt.request_fingerprint p.request_fingerprint)
    then err (state_write operation_conflict)
    else (elim (restore_payload registry r) [
      | err e ↦ err e
      | ok payload ↦
          (elim (as_data_error
            (operation_result_from_row registry r receipt p.operation_id p.request_fingerprint)) [
              | err e ↦ err e
              | ok result ↦
                  let state : RestoredSessionState = record {
                    session = r;
                    payload = payload;
                    replayed = true;
                    operation_revision = some receipt.committed_revision;
                    operation_result = some result;
                  } in
                  if valid_restored state then ok state else err value_error
            ])
    ])

-- What a publication leaves: a replayed state, or a row that is read once the transaction is over.
pub data Published : Type 0 where
  replays : RestoredSessionState → Published
  commits : SessionRegistryRecord → Published

-- The receipt of a publication that found its row.
unfoldable pub file_receipt :
    SessionStatePublication
    → SessionRegistryRecord
    → (next : ℕ) → SessionEnvelope
    → (later : ℕ) → Option SessionRegistryRecord
    → Transaction Published
file_receipt p r next result later none = expired_meanwhile r later
file_receipt p r next result later (some row) = do
  insert_operation (record {
    key = lease_key p.authority;
    operation_id = p.operation_id;
    request_fingerprint = p.request_fingerprint;
    committed_revision = next;
    committed_checkpoint_namespace = r.checkpoint_namespace;
    envelope = result;
  })
  pure (commits row)

abbrev pub publishes : SessionStatePublication → ℕ → SessionRegistryRecord → Bool
publishes p now row =
    lifecycle_eq row.lifecycle active
    && holds p.authority now row
    && row.session_revision == p.expected_revision

abbrev pub published :
    (next : ℕ) → SessionEnvelope → (now : ℕ) → SessionRegistryRecord → SessionRegistryRecord
published next envelope now row = record row {
  session_revision = next;
  envelope = some envelope;
  updated_at = now;
}

-- The new revision, with its receipt.
unfoldable pub commit_publication :
    Registry
    → (nonce receipt_nonce : Text) → (now later : ℕ) → SessionStatePublication
    → SessionRegistryRecord
    → Transaction Published
commit_publication registry nonce receipt_nonce now later p r = do
  raise_if (not (p.expected_revision == r.session_revision)) (state_write stale_revision)
  let next = r.session_revision + 1
  envelope ← from_outcome (
      seal_payload registry nonce p.payload
        (projection_context r.tenant_id r.authority.logical_session_id r.checkpoint_namespace next))
  result ← from_outcome (
      seal_receipt registry receipt_nonce
        (record {
          operation_id = p.operation_id;
          request_fingerprint = p.request_fingerprint;
          result = p.operation_result;
        })
        (operation_context r r.checkpoint_namespace next p.operation_id p.request_fingerprint))
  changed ← update_session (lease_key p.authority) (publishes p now) (published next envelope now)
  file_receipt p r next result later changed

unfoldable pub answer_publication :
    Registry
    → (nonce receipt_nonce : Text) → (now later : ℕ) → SessionStatePublication
    → SessionRegistryRecord
    → Option OperationRow
    → Transaction Published
answer_publication registry nonce receipt_nonce now later p r (some row) = do
  state ← from_outcome (replay_receipt registry p r row)
  pure (replays state)
answer_publication registry nonce receipt_nonce now later p r none =
    commit_publication registry nonce receipt_nonce now later p r

unfoldable pub publish_locked :
    Registry
    → (nonce receipt_nonce : Text) → (now later : ℕ) → SessionStatePublication
    → SessionRegistryRecord
    → Transaction Published
publish_locked registry nonce receipt_nonce now later p r = do
  raise_if (not (lifecycle_eq r.lifecycle active)) (lease_admission lifecycle_rejected)
  rotating ← gets (λ db. has_pending (lease_key p.authority) db.generations)
  raise_if rotating (state_write rotation_pending)
  receipt ← gets (λ db. find_operation (lease_key p.authority) p.operation_id db.operations)
  answer_publication registry nonce receipt_nonce now later p r receipt

unfoldable pub read_published :
    SessionStatePublication → Outcome Published → Outcome RestoredSessionState
read_published p (err e) = err e
read_published p (ok (replays state)) = ok state
read_published p (ok (commits row)) = elim (record_from_row row) [
  | err e ↦ err e
  | ok r ↦ ok (record {
    session = r;
    payload = p.payload;
    replayed = false;
    operation_revision = none;
    operation_result = none;
  })
]

unfoldable pub publish :
    Registry
    → (nonce receipt_nonce : Text) → (locked now later : ℕ) → SessionStatePublication
    → Method RestoredSessionState
publish registry nonce receipt_nonce locked now later p db =
    let (answer, db') =
      in_transaction database_fault
        (do
          r ← locked_record p.authority locked
          publish_locked registry nonce receipt_nonce now later p r)
        db in
    (read_published p answer, db')
