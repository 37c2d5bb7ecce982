-- ===== src/Registry/Switching.antt =====
-- The end of a rotation: `switch_checkpoint_generation` and `record_checkpoint_deletion` of the
-- registry.
use agnostic_market.Base.{
  ℕ, Bool, true, ◌&&◌, ◌||◌, Option, none, some, leb, ltb, ◌==◌, not, is_some, if◌then◌else◌,
}
use agnostic_market.Text.{Text, text_eq}
use agnostic_market.Encryption.{SessionEnvelope}
use agnostic_market.Session.Payload.{DurableSessionPayload}
use agnostic_market.Registry.Types.{
  session_expired, lease_expired, lifecycle_rejected, rotation_not_found, lease_admission,
  state_write, registry_data, value_error, assertion, active, lifecycle_eq, is_identifier,
  SessionLeaseAuthority, SessionRegistryRecord,
}
use agnostic_market.Registry.Database.{
  session_key, GenerationRow, pending, current, retired, deleted, state_eq, Outcome, ok, err,
  Transaction, pure, raise, from_outcome, or_raise, raise_if, ◌>>=◌, ◌>>◌, update_session,
}
use agnostic_market.Registry.Generations.{
  CheckpointGeneration, CheckpointRotation, valid_rotation, update_state,
}
use agnostic_market.Registry.Admission.{
  Registry, Method, database_fault, in_transaction, record_from_row, locked_record,
}
use agnostic_market.Registry.Envelopes.{projection_context, seal_payload, restore_payload}
use agnostic_market.Registry.Leases.{holds}
use agnostic_market.Registry.Rotation.{is_marker, is_number, load_generations, rotation_members}

-- A rotation that was completed before is answered again.
unfoldable pub completed_rotation :
    SessionRegistryRecord → CheckpointRotation → ℕ → Outcome CheckpointRotation
completed_rotation r rotation revision =
    if not
        (state_eq rotation.source.row.state retired || state_eq rotation.source.row.state deleted)
      || ltb r.session_revision revision
    then err registry_data
    else if valid_rotation rotation
    then ok rotation
    else err value_error

-- `generation.model_copy(update={"state": ...})`
unfoldable pub in_generation_state : CheckpointGeneration → GenerationRow → CheckpointGeneration
in_generation_state g row = record g { row = row }

unfoldable pub switched :
    (source destination : CheckpointGeneration)
    → SessionRegistryRecord
    → SessionRegistryRecord
    → Bool
switched source destination r row =
    text_eq row.checkpoint_namespace destination.row.checkpoint_namespace
    && row.principal_generation == destination.row.principal_generation
    && is_number destination.row.source_revision row.session_revision

-- Why the switch found no row to change.
unfoldable pub lost_authority : {A : Type 0} → SessionRegistryRecord → ℕ → Transaction A
lost_authority r later = do
  raise_if (leb r.expires_at later) (lease_admission session_expired)
  raise_if (elim r.lease_expires_at [ none ↦ true | some ends ↦ leb ends later ])
      (lease_admission lease_expired)
  raise registry_data

unfoldable pub switched_row :
    SessionRegistryRecord
    → (later : ℕ) → Option SessionRegistryRecord
    → Transaction SessionRegistryRecord
switched_row r later none = lost_authority r later
switched_row r later (some row) = pure row

abbrev pub switches :
    SessionLeaseAuthority
    → (now : ℕ) → CheckpointGeneration
    → (revision : ℕ) → SessionRegistryRecord
    → Bool
switches a now source revision row =
    text_eq row.checkpoint_namespace source.row.checkpoint_namespace
    && row.principal_generation == source.row.principal_generation
    && row.session_revision == revision
    && holds a now row

abbrev pub switched_to :
    CheckpointGeneration
    → SessionEnvelope
    → (now : ℕ) → SessionRegistryRecord
    → SessionRegistryRecord
switched_to destination envelope now row = record row {
  checkpoint_namespace = destination.row.checkpoint_namespace;
  principal_generation = destination.row.principal_generation;
  envelope = some envelope;
  updated_at = now;
}

-- The payload is sealed again for the new generation, the source retires, the destination becomes
-- current, and the session moves to it.
unfoldable pub perform_switch :
    Registry
    → (nonce : Text) → (now later : ℕ) → SessionLeaseAuthority
    → SessionRegistryRecord
    → DurableSessionPayload
    → CheckpointRotation
    → ℕ
    → Transaction CheckpointRotation
perform_switch registry nonce now later a r payload rotation revision = do
  let source = rotation.source
  let destination = rotation.destination
  envelope ← from_outcome (
      seal_payload registry nonce payload (
        projection_context r.tenant_id r.authority.logical_session_id
          destination.row.checkpoint_namespace r.session_revision))
  left ← update_state (session_key r) source.row.checkpoint_namespace (some current) retired
  raise_if (not (is_some left)) registry_data
  entered ← update_state (session_key r) destination.row.checkpoint_namespace (some pending) current
  raise_if (not (is_some entered)) registry_data
  changed ←
      update_session (session_key r) (switches a now source revision)
        (switched_to destination envelope now)
  row ← switched_row r later changed
  checked ← from_outcome (record_from_row row)
  raise_if (not (switched source destination r checked)) registry_data
  let done : CheckpointRotation = record {
    source = in_generation_state source (record (source.row) { state = retired });
    destination = in_generation_state destination (record (destination.row) { state = current });
  }
  raise_if (not (valid_rotation done)) value_error
  pure done

-- The switch to a destination that is pending.
unfoldable pub switch_pending :
    Registry
    → (nonce : Text) → (now later : ℕ) → SessionLeaseAuthority
    → Text
    → SessionRegistryRecord
    → DurableSessionPayload
    → CheckpointRotation
    → ℕ
    → Transaction CheckpointRotation
switch_pending registry nonce now later a transition_id r payload rotation revision = do
  raise_if
      (not (state_eq rotation.source.row.state current)
        || not (text_eq r.checkpoint_namespace rotation.source.row.checkpoint_namespace)
        || not (r.principal_generation == rotation.source.row.principal_generation)
        || not (r.session_revision == revision)
        || not (is_marker payload.principal_retirement transition_id))
      registry_data
  perform_switch registry nonce now later a r payload rotation revision

unfoldable pub switch_members :
    Registry
    → (nonce : Text) → (now later : ℕ) → SessionLeaseAuthority
    → Text
    → SessionRegistryRecord
    → DurableSessionPayload
    → CheckpointRotation
    → ℕ
    → Transaction CheckpointRotation
switch_members registry nonce now later a transition_id r payload rotation revision =
    if not (state_eq rotation.destination.row.state pending)
    then from_outcome (completed_rotation r rotation revision)
    else switch_pending registry nonce now later a transition_id r payload rotation revision

unfoldable pub switch_locked :
    Registry
    → (nonce : Text) → (now later : ℕ) → SessionLeaseAuthority
    → Text
    → SessionRegistryRecord
    → Transaction CheckpointRotation
switch_locked registry nonce now later a transition_id r = do
  raise_if (not (lifecycle_eq r.lifecycle active)) (lease_admission lifecycle_rejected)
  generations ← load_generations registry true r
  found ← from_outcome (rotation_members generations transition_id)
  rotation ← or_raise found (state_write rotation_not_found)
  payload ← from_outcome (restore_payload registry r)
  revision ← or_raise rotation.destination.row.source_revision assertion
  switch_members registry nonce now later a transition_id r payload rotation revision

unfoldable pub switch_checkpoint_generation :
    Registry
    → (nonce : Text) → (locked now later : ℕ) → SessionLeaseAuthority
    → Text
    → Method CheckpointRotation
switch_checkpoint_generation registry nonce locked now later a transition_id db =
    if is_identifier transition_id
    then in_transaction database_fault
        (do r ← locked_record a locked; switch_locked registry nonce now later a transition_id r) db
    else (err value_error, db)

unfoldable pub record_deletion_locked :
    Registry → Text → SessionRegistryRecord → Transaction CheckpointGeneration
record_deletion_locked registry transition_id r = do
  generations ← load_generations registry true r
  found ← from_outcome (rotation_members generations transition_id)
  rotation ← or_raise found (state_write rotation_not_found)
  let source = rotation.source
  raise_if (state_eq rotation.destination.row.state pending || state_eq source.row.state current)
      registry_data
  (if state_eq source.row.state deleted then pure source else (do
    raise_if (not (state_eq source.row.state retired)) registry_data
    changed ← update_state (session_key r) source.row.checkpoint_namespace (some retired) deleted
    raise_if (not (is_some changed)) registry_data
    pure (in_generation_state source (record (source.row) { state = deleted }))))

unfoldable pub record_checkpoint_deletion :
    Registry → (locked : ℕ) → SessionLeaseAuthority → Text → Method CheckpointGeneration
record_checkpoint_deletion registry locked a transition_id db =
    if is_identifier transition_id
    then in_transaction database_fault
        (do r ← locked_record a locked; record_deletion_locked registry transition_id r) db
    else (err value_error, db)
