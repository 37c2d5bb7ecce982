-- ===== src/Registry/Types.antt =====
-- The enumerations, contracts and records of durability/session_registry.py, and the identifiers of
-- dtos/session.py. The transport provider is always `livekit`, and has no field.
use agnostic_market.Base.{
  ℕ, Bool, true, false, ◌&&◌, ◌||◌, Option, none, some, ◌++◌, ltb, leb, ◌==◌, not, null, is_some,
  any, if◌then◌else◌,
}
use agnostic_market.Text.{Text, codes, text_eq}
use agnostic_market.Text.Decimal.{decimal}
use agnostic_market.Encryption.{SessionEnvelope, valid_envelope}

pub data LeaseAdmissionReason : Type 0 where
  session_exists session_not_found wrong_deployment wrong_graph_contract : LeaseAdmissionReason
  stale_config session_expired lifecycle_rejected wrong_transport : LeaseAdmissionReason
  lease_expired wrong_lease_owner stale_fence : LeaseAdmissionReason

pub data SessionRestoreReason : Type 0 where
  decryption_failed payload_schema_invalid revision_mismatch checkpoint_invalid :
      SessionRestoreReason
  reconstruction_failed revision_gap_unexplained : SessionRestoreReason
  principal_retirement_pending : SessionRestoreReason

pub data SessionStateWriteReason : Type 0 where
  stale_revision operation_conflict rotation_pending : SessionStateWriteReason
  retirement_marker_missing stale_principal rotation_not_found : SessionStateWriteReason

pub data SessionCloseReason : Type 0 where
  not_eligible wrong_close_owner close_fence_stale cleanup_incomplete : SessionCloseReason

-- The exceptions. `unique_violation` and `psycopg_error` are those of the database, which most
-- methods turn into `registry_error`; `assertion` is a failed `assert`.
pub data Fault : Type 0 where
  lease_admission : LeaseAdmissionReason → Fault
  session_restore : SessionRestoreReason → Fault
  state_write : SessionStateWriteReason → Fault
  session_close : SessionCloseReason → Fault
  registry_data registry_error value_error assertion : Fault
  unique_violation psycopg_error : Fault

pub data SessionLifecycle : Type 0 where
  opening active closing closed : SessionLifecycle

unfoldable pub lifecycle_eq : SessionLifecycle → SessionLifecycle → Bool
lifecycle_eq opening opening = true
lifecycle_eq active active = true
lifecycle_eq closing closing = true
lifecycle_eq closed closed = true
lifecycle_eq _ _ = false

-- `lifecycle in {OPENING, ACTIVE}`
unfoldable pub is_open : SessionLifecycle → Bool
is_open opening = true
is_open active = true
is_open _ = false

-- What `\s` matches.
unfoldable pub is_whitespace : ℕ → Bool
is_whitespace c =
    (leb 9 c && leb c 13)
    || c == 32
    || c == 133
    || c == 160
    || c == 5760
    || (leb 8192 c && leb c 8202)
    || c == 8232
    || c == 8233
    || c == 8239
    || c == 8287
    || c == 12288

-- `AuthorityIdentifier`
unfoldable pub is_identifier : Text → Bool
is_identifier s = not (null s) && not (any is_whitespace s)

pub record TransportAuthority : Type 0 where
  pub room_id : Text
  pub assignment_id : Text
  pub worker_id : Text

pub record AdmittedSessionAuthority : Type 0 where
  pub logical_session_id : Text
  pub transport : TransportAuthority

unfoldable pub authority_eq : AdmittedSessionAuthority → AdmittedSessionAuthority → Bool
authority_eq a b =
    text_eq a.logical_session_id b.logical_session_id
    && text_eq a.transport.room_id b.transport.room_id
    && text_eq a.transport.assignment_id b.transport.assignment_id
    && text_eq a.transport.worker_id b.transport.worker_id

pub record SessionContract : Type 0 where
  pub tenant_id : Text
  pub authority : AdmittedSessionAuthority
  pub deployment_id : Text
  pub graph_contract : Text
  pub config_version : Text

-- A float of seconds: not finite, at most zero, or positive, with the microseconds to which
-- `timedelta` rounds it.
pub data Duration : Type 0 where
  not_finite nonpositive : Duration
  positive : (microseconds : ℕ) → Duration

pub record SessionRegistration : Type 0 where
  pub contract : SessionContract
  pub open contract use *
  pub principal_generation : ℕ
  pub session_revision : ℕ
  pub retention_seconds : Duration

pub record SessionLeaseRequest : Type 0 where
  pub lease_owner_id : Text
  pub duration_seconds : Duration

pub record SessionLeaseAuthority : Type 0 where
  pub contract : SessionContract
  pub open contract use *
  pub lease_owner_id : Text
  pub fencing_generation : ℕ

pub record SessionCloseRequest : Type 0 where
  pub operation_id : Text
  pub lease_owner_id : Text
  pub duration_seconds : Duration

pub record SessionCloseAuthority : Type 0 where
  pub contract : SessionContract
  pub open contract use *
  pub operation_id : Text
  pub lease_owner_id : Text
  pub fencing_generation : ℕ

-- A row of `platform_sessions`, which `_record_from_row` reads into the same fields.
pub record SessionRegistryRecord : Type 0 where
  pub tenant_id : Text
  pub authority : AdmittedSessionAuthority
  pub lifecycle : SessionLifecycle
  pub checkpoint_namespace : Text
  pub deployment_id : Text
  pub graph_contract : Text
  pub config_version : Text
  pub principal_generation : ℕ
  pub session_revision : ℕ
  pub fencing_generation : ℕ
  pub lease_owner_id : Option Text
  pub lease_expires_at : Option ℕ
  pub close_operation_id : Option Text
  pub expires_at : ℕ
  pub envelope : Option SessionEnvelope
  pub created_at : ℕ
  pub updated_at : ℕ

-- `_checkpoint_namespace`, and the name of a generation after a rotation
unfoldable pub checkpoint_namespace : Text → ℕ → Text
checkpoint_namespace session fence = session ++ (codes "::fence::" ++ decimal fence)

unfoldable pub principal_namespace : Text → ℕ → ℕ → Text
principal_namespace session fence principal =
    checkpoint_namespace session fence ++ (codes "::principal::" ++ decimal principal)

unfoldable pub checkpoint_namespace_matches : Text → Text → ℕ → ℕ → Bool
checkpoint_namespace_matches namespace session fence principal =
    text_eq namespace (checkpoint_namespace session fence)
    || text_eq namespace (principal_namespace session fence principal)

-- The lease of a record ends at some time, and has not ended.
unfoldable pub lease_live : Option ℕ → ℕ → Bool
lease_live none now = false
lease_live (some ends) now = ltb now ends

-- `owner is not None and owner == lease_owner_id`
unfoldable pub is_owner : Option Text → Text → Bool
is_owner none owner = false
is_owner (some held) owner = text_eq held owner

-- `_validate_state`
unfoldable pub valid_record : SessionRegistryRecord → Bool
valid_record r =
    (elim r.envelope [ none ↦ true | some e ↦ valid_envelope e ])
    && (if is_some r.lease_owner_id
        then is_some r.lease_expires_at
        else not (is_some r.lease_expires_at))
    && (if lifecycle_eq r.lifecycle closed
        then not (is_some r.envelope) && not (is_some r.lease_owner_id)
        else is_some r.envelope && is_some r.lease_owner_id && leb 1 r.fencing_generation)
    && (if lifecycle_eq r.lifecycle closing
        then is_some r.close_operation_id
        else lifecycle_eq r.lifecycle closed || not (is_some r.close_operation_id))
    && (not (is_open r.lifecycle)
        || checkpoint_namespace_matches r.checkpoint_namespace r.authority.logical_session_id
            r.fencing_generation r.principal_generation)
    && (elim r.lease_expires_at [ none ↦ true | some ends ↦ ltb r.created_at ends ])
    && (not (is_open r.lifecycle)
        || (elim r.lease_expires_at [ none ↦ true | some ends ↦ leb ends r.expires_at ]))
    && leb r.created_at r.updated_at
