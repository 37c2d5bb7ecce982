-- ===== src/Registry/Admission.antt =====
-- How a method finds its session and holds it: `_locked_session`, `_locked_record`,
-- `_locked_close_record`, and the tests of an authority against the record.
use agnostic_market.Base.{ℕ, ◌||◌, Option, none, some, leb, ◌==◌, not, if◌then◌else◌}
use agnostic_market.Text.{text_eq}
use agnostic_market.Encryption.{AesGcmSessionCipher}
use agnostic_market.Session.Payload.{PayloadJson}
use agnostic_market.Registry.Types.{
  LeaseAdmissionReason, session_not_found, wrong_deployment, wrong_graph_contract, stale_config,
  session_expired, lifecycle_rejected, wrong_transport, lease_expired, wrong_lease_owner,
  stale_fence, SessionCloseReason, not_eligible, wrong_close_owner, close_fence_stale, Fault,
  lease_admission, session_close, registry_data, registry_error, unique_violation, psycopg_error,
  lifecycle_eq, closing, is_open, authority_eq, Duration, not_finite, nonpositive, positive,
  SessionLeaseAuthority, SessionCloseAuthority, SessionRegistryRecord, lease_live, is_owner,
  valid_record,
}
use agnostic_market.Registry.Database.{
  Key, Database, select, Outcome, ok, err, Transaction, pure, gets, or_raise, from_outcome, raise,
  ◌>>=◌, ◌>>◌,
}
use agnostic_market.Registry.Generations.{Fingerprint}

-- `PostgresSessionRegistry`, with the libraries that it calls. The pool is the database.
pub record Registry : Type 0 where
  pub cipher : AesGcmSessionCipher
  pub json : PayloadJson
  pub digest : Fingerprint

abbrev pub Method : Type 0 → Type 0
Method A = Database → Outcome A × Database

-- `except PsycopgError`: the database's own exceptions become a `SessionRegistryError`.
unfoldable pub database_fault : Fault → Fault
database_fault unique_violation = registry_error
database_fault psycopg_error = registry_error
database_fault e = e

-- `async with connection.transaction()`: a raise inside leaves the database as it was.
unfoldable pub in_transaction : {A : Type 0} → (Fault → Fault) → Transaction A → Method A
in_transaction fault t db = elim (t db) [ ok (a, db') ↦ (ok a, db') | err e ↦ (err (fault e), db) ]

-- A record that was read in the transaction, or the row that its last statement wrote, which is
-- read once the transaction is over.
pub data Reply : Type 0 where
  returned written : SessionRegistryRecord → Reply

-- `_record_from_row`
unfoldable pub record_from_row : SessionRegistryRecord → Outcome SessionRegistryRecord
record_from_row r = if valid_record r then ok r else err registry_data

unfoldable pub read_reply : Outcome Reply → Outcome SessionRegistryRecord
read_reply (ok (returned r)) = ok r
read_reply (ok (written r)) = record_from_row r
read_reply (err e) = err e

-- `timedelta.max`, in microseconds
abbrev pub longest : ℕ
longest = 86399999999999999999

-- `_lease_duration`
unfoldable pub lease_duration : Duration → Outcome ℕ
lease_duration not_finite = err registry_data
lease_duration nonpositive = err registry_data
lease_duration (positive n) = if leb n longest then ok n else err registry_data

-- `_lease_authority_rejection`
unfoldable pub lease_rejection :
    SessionRegistryRecord → SessionLeaseAuthority → ℕ → Option LeaseAdmissionReason
lease_rejection r a now =
    if leb r.expires_at now
    then some session_expired
    else if not (is_open r.lifecycle)
    then some lifecycle_rejected
    else if not (text_eq r.deployment_id a.deployment_id)
    then some wrong_deployment
    else if not (text_eq r.graph_contract a.graph_contract)
    then some wrong_graph_contract
    else if not (text_eq r.config_version a.config_version)
    then some stale_config
    else if not (authority_eq r.authority a.authority)
    then some wrong_transport
    else if not (lease_live r.lease_expires_at now)
    then some lease_expired
    else if not (is_owner r.lease_owner_id a.lease_owner_id)
    then some wrong_lease_owner
    else if not (r.fencing_generation == a.fencing_generation)
    then some stale_fence
    else none

-- `_close_authority_rejection`
unfoldable pub close_rejection :
    SessionRegistryRecord → SessionCloseAuthority → ℕ → Option SessionCloseReason
close_rejection r a now =
    if not (lifecycle_eq r.lifecycle closing)
    then some not_eligible
    else if not (text_eq r.tenant_id a.tenant_id) || not (authority_eq r.authority a.authority)
    then some wrong_close_owner
    else if not (text_eq r.deployment_id a.deployment_id)
        || not (text_eq r.graph_contract a.graph_contract)
        || not (text_eq r.config_version a.config_version)
        || not (is_owner r.lease_owner_id a.lease_owner_id)
        || not (is_owner r.close_operation_id a.operation_id)
    then some wrong_close_owner
    else if not (r.fencing_generation == a.fencing_generation)
    then some close_fence_stale
    else if not (lease_live r.lease_expires_at now)
    then some not_eligible
    else none

-- `_locked_session`: the row of a session, held until the transaction ends.
unfoldable pub locked_session : Key → Transaction SessionRegistryRecord
locked_session k = do
  found ← gets (λ db. select k db.sessions)
  row ← or_raise found (lease_admission session_not_found)
  from_outcome (record_from_row row)

abbrev pub lease_key : SessionLeaseAuthority → Key
lease_key a = record {
  tenant_id = a.tenant_id;
  logical_session_id = a.authority.logical_session_id;
}

abbrev pub close_key : SessionCloseAuthority → Key
close_key a = record {
  tenant_id = a.tenant_id;
  logical_session_id = a.authority.logical_session_id;
}

abbrev pub admitted : Option LeaseAdmissionReason → Transaction (Unit {0})
admitted none = pure tt
admitted (some reason) = raise (lease_admission reason)

abbrev pub close_admitted : Option SessionCloseReason → Transaction (Unit {0})
close_admitted none = pure tt
close_admitted (some reason) = raise (session_close reason)

-- `_locked_record`. The clock is read as the row is locked.
unfoldable pub locked_record : SessionLeaseAuthority → ℕ → Transaction SessionRegistryRecord
locked_record a now = do
  r ← locked_session (lease_key a)
  admitted (lease_rejection r a now)
  pure r

-- `_locked_close_record`
unfoldable pub locked_close_record : SessionCloseAuthority → ℕ → Transaction SessionRegistryRecord
locked_close_record a now = do
  r ← locked_session (close_key a)
  close_admitted (close_rejection r a now)
  pure r
