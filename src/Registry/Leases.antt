-- ===== src/Registry/Leases.antt =====
-- `register_and_acquire`, `activate`, `renew` and `get`: how a worker comes to hold a session and
-- goes on holding it. Each reading of the database's clock is an argument.
use agnostic_market.Base.{
  ℕ, ◌+◌, Bool, ◌&&◌, Option, none, some, leb, ltb, ◌==◌, max, if◌then◌else◌,
}
use agnostic_market.Text.{Text}
use agnostic_market.Session.Payload.{DurableSessionPayload}
use agnostic_market.Registry.Types.{
  session_exists, session_expired, lease_expired, Fault, lease_admission, registry_data,
  registry_error, value_error, unique_violation, psycopg_error, opening, active, lifecycle_eq,
  is_identifier, Duration, SessionRegistration, SessionLeaseRequest, SessionLeaseAuthority,
  SessionRegistryRecord, checkpoint_namespace, lease_live, is_owner,
}
use agnostic_market.Registry.Database.{
  current, ok, err, Transaction, pure, raise, from_outcome, raise_if, ◌>>=◌, ◌>>◌, select,
  update_session, insert_session,
}
use agnostic_market.Registry.Generations.{storage_thread_id, insert_generation}
use agnostic_market.Registry.Admission.{
  Registry, Method, database_fault, in_transaction, Reply, returned, written, record_from_row,
  read_reply, lease_duration, locked_record, lease_key,
}
use agnostic_market.Registry.Envelopes.{projection_context, seal_payload}

-- The handlers of `register_and_acquire`.
unfoldable pub registration_fault : Fault → Fault
registration_fault unique_violation = lease_admission session_exists
registration_fault value_error = registry_data
registration_fault psycopg_error = registry_error
registration_fault e = e

unfoldable pub register_and_acquire :
    Registry
    → (nonce : Text) → (now created updated : ℕ) → SessionRegistration
    → SessionLeaseRequest
    → DurableSessionPayload
    → Method SessionRegistryRecord
register_and_acquire registry nonce now created updated registration lease payload db =
    let session = registration.authority.logical_session_id in
    let namespace = checkpoint_namespace session 1 in
    let (answer, db') =
      in_transaction registration_fault
        (do
          lasts ← from_outcome (lease_duration lease.duration_seconds)
          retained ← from_outcome (lease_duration registration.retention_seconds)
          raise_if (leb retained lasts) registry_data
          envelope ← from_outcome (
              seal_payload registry nonce payload (
                projection_context registration.tenant_id session namespace
                  registration.session_revision))
          row ← insert_session (record {
            tenant_id = registration.tenant_id;
            authority = registration.authority;
            lifecycle = opening;
            checkpoint_namespace = namespace;
            deployment_id = registration.deployment_id;
            graph_contract = registration.graph_contract;
            config_version = registration.config_version;
            principal_generation = registration.principal_generation;
            session_revision = registration.session_revision;
            fencing_generation = 1;
            lease_owner_id = some lease.lease_owner_id;
            lease_expires_at = some (now + lasts);
            close_operation_id = none;
            expires_at = now + retained;
            envelope = some envelope;
            created_at = created;
            updated_at = updated;
          })
          insert_generation (record {
            key = record { tenant_id = registration.tenant_id; logical_session_id = session };
            checkpoint_namespace = namespace;
            storage_thread_id =
                storage_thread_id registry.digest registration.tenant_id registration.deployment_id
                  registration.graph_contract namespace;
            fencing_generation = 1;
            principal_generation = registration.principal_generation;
            state = current;
            transition_id = none;
            source_revision = none;
          })
          pure (written row))
        db in
    (read_reply answer, db')

-- Why an update that names a live lease found no row: the clock went on after the row was locked.
unfoldable pub expired_meanwhile : {A : Type 0} → SessionRegistryRecord → ℕ → Transaction A
expired_meanwhile r now =
    raise (lease_admission (if leb r.expires_at now then session_expired else lease_expired))

-- The row that an update wrote.
unfoldable pub reply_of :
    SessionRegistryRecord → (later : ℕ) → Option SessionRegistryRecord → Transaction Reply
reply_of r later (some row) = pure (written row)
reply_of r later none = expired_meanwhile r later

-- The part of a WHERE clause that an authority's update shares with the others.
unfoldable pub holds : SessionLeaseAuthority → ℕ → SessionRegistryRecord → Bool
holds a now r =
    is_owner r.lease_owner_id a.lease_owner_id
    && r.fencing_generation == a.fencing_generation
    && ltb now r.expires_at
    && lease_live r.lease_expires_at now

abbrev pub activates : SessionLeaseAuthority → ℕ → SessionRegistryRecord → Bool
activates a now row = lifecycle_eq row.lifecycle opening && holds a now row

abbrev pub activated : ℕ → SessionRegistryRecord → SessionRegistryRecord
activated now row = record row { lifecycle = active; updated_at = now }

unfoldable pub activate_row :
    SessionLeaseAuthority → (now later : ℕ) → SessionRegistryRecord → Transaction Reply
activate_row a now later r = if lifecycle_eq r.lifecycle active then pure (returned r) else (do
  changed ← update_session (lease_key a) (activates a now) (activated now)
  reply_of r later changed)

unfoldable pub activate :
    (locked now later : ℕ) → SessionLeaseAuthority → Method SessionRegistryRecord
activate locked now later a db =
    let (answer, db') =
      in_transaction database_fault (do r ← locked_record a locked; activate_row a now later r)
        db in
    (read_reply answer, db')

-- `GREATEST(lease_expires_at, LEAST(expires_at, now + duration))`. Of a NULL and a time, GREATEST
-- takes the time.
unfoldable pub extended : Option ℕ → (expires until' : ℕ) → ℕ
extended none expires until' = if leb expires until' then expires else until'
extended (some ends) expires until' = max ends (if leb expires until' then expires else until')

abbrev pub renewed : (lasts now : ℕ) → SessionRegistryRecord → SessionRegistryRecord
renewed lasts now row = record row {
  lease_expires_at = some (extended row.lease_expires_at row.expires_at (now + lasts));
  updated_at = now;
}

unfoldable pub renew_row :
    SessionLeaseAuthority → (lasts now later : ℕ) → SessionRegistryRecord → Transaction Reply
renew_row a lasts now later r = do
  changed ← update_session (lease_key a) (holds a now) (renewed lasts now)
  reply_of r later changed

-- The handlers of `renew`, where a `ValueError` is invalid data too.
unfoldable pub renewal_fault : Fault → Fault
renewal_fault value_error = registry_data
renewal_fault e = database_fault e

-- A `SessionLeaseRenewal` is an authority with a duration.
unfoldable pub renew :
    (locked now later : ℕ) → SessionLeaseAuthority → Duration → Method SessionRegistryRecord
renew locked now later a duration db =
    let (answer, db') =
      in_transaction renewal_fault
        (do
          lasts ← from_outcome (lease_duration duration)
          r ← locked_record a locked
          renew_row a lasts now later r)
        db in
    (read_reply answer, db')

unfoldable pub get : (tenant session : Text) → Method (Option SessionRegistryRecord)
get tenant session db =
    if is_identifier tenant && is_identifier session
    then (elim (select (record { tenant_id = tenant; logical_session_id = session }) db.sessions) [
      | none ↦ (ok none, db)
      | some row ↦ (elim (record_from_row row) [ ok r ↦ (ok (some r), db) | err e ↦ (err e, db) ])
    ])
    else (err value_error, db)
