-- ===== src/Registry/Closing.antt =====
-- How a session comes to be closed: `begin_close`, `claim_expired`, `refresh_close` and the deletion of
-- its checkpoints.
use agnostic_market.Base.{
  ℕ, ◌+◌, Bool, true, false, ◌&&◌, ◌||◌, none, some, List, all, leb, ◌==◌, not, is_some, max,
  if◌then◌else◌,
}
use agnostic_market.Text.{Text, text_eq}
use agnostic_market.Registry.Types.{
  not_eligible, wrong_close_owner, cleanup_incomplete, session_close, registry_data, registry_error,
  value_error, closing, closed, lifecycle_eq, is_identifier, authority_eq, Duration,
  SessionLeaseAuthority, SessionCloseRequest, SessionCloseAuthority, SessionRegistryRecord,
  lease_live, is_owner,
}
use agnostic_market.Registry.Database.{
  Key, key_eq, session_key, deleted, Outcome, ok, err, Transaction, pure, from_outcome, or_raise,
  raise_if, ◌>>=◌, ◌>>◌, update_session,
}
use agnostic_market.Registry.Generations.{
  CheckpointGeneration, valid_generation, generation_of, update_state,
}
use agnostic_market.Registry.Admission.{
  Registry, Method, database_fault, in_transaction, record_from_row, lease_duration,
  lease_rejection, admitted, locked_session, locked_close_record, lease_key, close_key,
}
use agnostic_market.Registry.Rotation.{load_generations, inventory_fault}

pub record SessionCloseClaim : Type 0 where
  pub authority : SessionCloseAuthority
  pub session : SessionRegistryRecord
  pub generations : List CheckpointGeneration

-- `claim_matches_registry_state`
unfoldable pub valid_claim : SessionCloseClaim → Bool
valid_claim c =
    lifecycle_eq c.session.lifecycle closing
    && text_eq c.session.tenant_id c.authority.tenant_id
    && authority_eq c.session.authority c.authority.authority
    && text_eq c.session.deployment_id c.authority.deployment_id
    && text_eq c.session.graph_contract c.authority.graph_contract
    && text_eq c.session.config_version c.authority.config_version
    && is_owner c.session.close_operation_id c.authority.operation_id
    && is_owner c.session.lease_owner_id c.authority.lease_owner_id
    && c.session.fencing_generation == c.authority.fencing_generation
    && all (λ g. key_eq g.row.key (session_key c.session)) c.generations

-- `_close_authority`
unfoldable pub close_authority : SessionRegistryRecord → Outcome SessionCloseAuthority
close_authority r = elim r.close_operation_id [
  | none ↦ err registry_data
  | some operation ↦ (elim r.lease_owner_id [
    | none ↦ err registry_data
    | some owner ↦ ok (record {
      contract = record {
        tenant_id = r.tenant_id;
        authority = r.authority;
        deployment_id = r.deployment_id;
        graph_contract = r.graph_contract;
        config_version = r.config_version;
      };
      operation_id = operation;
      lease_owner_id = owner;
      fencing_generation = r.fencing_generation;
    })
  ])
]

-- `_close_claim`
unfoldable pub close_claim : Registry → SessionRegistryRecord → Transaction SessionCloseClaim
close_claim registry r = do
  authority ← from_outcome (close_authority r)
  generations ← load_generations registry false r
  let claim : SessionCloseClaim = record {
    authority = authority;
    session = r;
    generations = generations;
  }
  raise_if (not (valid_claim claim)) value_error
  pure claim

-- An UPDATE whose WHERE clause names the session alone.
abbrev pub every_row : SessionRegistryRecord → Bool
every_row row = true

abbrev pub taken :
    (now lasts : ℕ)
    → SessionCloseRequest
    → SessionRegistryRecord
    → SessionRegistryRecord
    → SessionRegistryRecord
taken now lasts request r row = record row {
  lifecycle = closing;
  fencing_generation = row.fencing_generation + 1;
  lease_owner_id = some request.lease_owner_id;
  lease_expires_at = some (now + lasts);
  close_operation_id =
      some (elim r.close_operation_id [ none ↦ request.operation_id | some o ↦ o ]);
  updated_at = now;
}

-- `_take_close_lease`: the session is closing, under the next fencing generation.
unfoldable pub take_close_lease :
    (now : ℕ) → SessionCloseRequest → SessionRegistryRecord → Transaction SessionRegistryRecord
take_close_lease now request r = do
  raise_if
      (is_some r.close_operation_id && not (is_owner r.close_operation_id request.operation_id))
      (session_close wrong_close_owner)
  lasts ← from_outcome (lease_duration request.duration_seconds)
  changed ← update_session (session_key r) every_row (taken now lasts request r)
  row ← or_raise changed registry_error
  from_outcome (record_from_row row)

-- The same worker asks again while it holds the closing session.
unfoldable pub is_replay : (now : ℕ) → SessionCloseRequest → SessionRegistryRecord → Bool
is_replay now request r =
    lifecycle_eq r.lifecycle closing
    && is_owner r.close_operation_id request.operation_id
    && is_owner r.lease_owner_id request.lease_owner_id
    && lease_live r.lease_expires_at now

-- The closing lease of the same operation has run out.
unfoldable pub is_reclaim : (now : ℕ) → SessionCloseRequest → SessionRegistryRecord → Bool
is_reclaim now request r =
    lifecycle_eq r.lifecycle closing
    && is_owner r.close_operation_id request.operation_id
    && not (lease_live r.lease_expires_at now)

unfoldable pub begin_close_locked :
    (now : ℕ)
    → SessionLeaseAuthority
    → SessionCloseRequest
    → SessionRegistryRecord
    → Transaction SessionRegistryRecord
begin_close_locked now a request r =
    if is_replay now request r
    then pure r
    else if is_reclaim now request r
    then take_close_lease now request r
    else (do
      raise_if (lifecycle_eq r.lifecycle closing) (session_close wrong_close_owner)
      admitted (lease_rejection r a now)
      take_close_lease now request r)

-- `locked` is `database_now`, which the method reads with the row.
unfoldable pub begin_close :
    Registry → (locked : ℕ) → SessionLeaseAuthority → SessionCloseRequest → Method SessionCloseClaim
begin_close registry locked a request = in_transaction database_fault (do
  r ← locked_session (lease_key a)
  claimed ← begin_close_locked locked a request r
  close_claim registry claimed)

-- An `ExpiredSessionCandidate` with its tenant and session; the method does not read the rest.
unfoldable pub claim_expired_locked :
    (now : ℕ) → SessionCloseRequest → SessionRegistryRecord → Transaction SessionRegistryRecord
claim_expired_locked now request r = do
  raise_if (lifecycle_eq r.lifecycle closed) (session_close not_eligible)
  raise_if
      (lease_live r.lease_expires_at now
        && (lifecycle_eq r.lifecycle closing || not (leb r.expires_at now)))
      (session_close not_eligible)
  take_close_lease now request r

unfoldable pub claim_expired :
    Registry → (locked : ℕ) → Key → SessionCloseRequest → Method SessionCloseClaim
claim_expired registry locked candidate request = in_transaction database_fault (do
  r ← locked_session candidate
  claimed ← claim_expired_locked locked request r
  close_claim registry claimed)

abbrev pub prolonged : (now lasts : ℕ) → SessionRegistryRecord → SessionRegistryRecord
prolonged now lasts row = record row {
  lease_expires_at =
      some (elim row.lease_expires_at [ none ↦ now + lasts | some ends ↦ max ends (now + lasts) ]);
  updated_at = now;
}

-- The lease of a closing session never gets shorter.
unfoldable pub extend_close :
    (now lasts : ℕ) → SessionRegistryRecord → Transaction SessionRegistryRecord
extend_close now lasts r = do
  changed ← update_session (session_key r) every_row (prolonged now lasts)
  row ← or_raise changed registry_error
  from_outcome (record_from_row row)

unfoldable pub refresh_close_locked :
    (now lasts : ℕ)
    → SessionCloseAuthority
    → Duration
    → SessionRegistryRecord
    → Transaction SessionRegistryRecord
refresh_close_locked now lasts a duration r = do
  raise_if (not (lifecycle_eq r.lifecycle closing)) (session_close not_eligible)
  raise_if
      (not (authority_eq r.authority a.authority)
        || not (text_eq r.deployment_id a.deployment_id)
        || not (text_eq r.graph_contract a.graph_contract)
        || not (text_eq r.config_version a.config_version)
        || not (is_owner r.close_operation_id a.operation_id))
      (session_close wrong_close_owner)
  (if lease_live r.lease_expires_at now
      then (do
        raise_if (not (is_owner r.lease_owner_id a.lease_owner_id))
            (session_close wrong_close_owner)
        extend_close now lasts r)
      else take_close_lease now
          (record {
            operation_id = a.operation_id;
            lease_owner_id = a.lease_owner_id;
            duration_seconds = duration;
          })
          r)

unfoldable pub refresh_close :
    Registry → (locked : ℕ) → SessionCloseAuthority → Duration → Method SessionCloseClaim
refresh_close registry locked a duration db = elim (lease_duration duration) [
  | err e ↦ (err e, db)
  | ok lasts ↦
      in_transaction database_fault
        (do
          r ← locked_session (close_key a)
          refreshed ← refresh_close_locked locked lasts a duration r
          close_claim registry refreshed)
        db
]

unfoldable pub close_checkpoint_generations :
    Registry → (locked : ℕ) → SessionCloseAuthority → Method (List CheckpointGeneration)
close_checkpoint_generations registry locked a =
    in_transaction database_fault
      (do r ← locked_close_record a locked; load_generations registry false r)

unfoldable pub record_close_deletion_locked :
    Registry → (namespace : Text) → SessionRegistryRecord → Transaction CheckpointGeneration
record_close_deletion_locked registry namespace r = do
  changed ← update_state (session_key r) namespace none deleted
  row ← or_raise changed (session_close cleanup_incomplete)
  let g = generation_of registry.digest r row
  raise_if (not (valid_generation registry.digest g)) value_error
  pure g

unfoldable pub record_close_checkpoint_deletion :
    Registry
    → (locked : ℕ) → SessionCloseAuthority
    → (namespace : Text) → Method CheckpointGeneration
record_close_checkpoint_deletion registry locked a namespace db =
    if is_identifier namespace
    then in_transaction inventory_fault
        (do r ← locked_close_record a locked; record_close_deletion_locked registry namespace r) db
    else (err value_error, db)
