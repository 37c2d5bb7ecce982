-- ===== src/Registry/Database.antt =====
-- The tables of the registry, with the constraints that durability/migrations.py declares, and the
-- statements that the methods send. A statement names the tenant and the session, which are the
-- primary key of `platform_sessions`.
use agnostic_market.Base.{
  ℕ, Bool, true, false, ◌&&◌, ◌||◌, Option, none, some, List, [], ◌∷◌, ◌++◌, ltb, leb, ◌==◌, not,
  is_some, any, if◌then◌else◌,
}
use agnostic_market.Text.{Text, text_eq}
use agnostic_market.Encryption.{SessionEnvelope, valid_envelope}
use agnostic_market.Registry.Types.{
  SessionRegistryRecord, closed, closing, lifecycle_eq, is_open, checkpoint_namespace_matches,
  Fault, unique_violation, psycopg_error,
}

pub record Key : Type 0 where
  pub tenant_id : Text
  pub logical_session_id : Text

unfoldable pub key_eq : Key → Key → Bool
key_eq a b = text_eq a.tenant_id b.tenant_id && text_eq a.logical_session_id b.logical_session_id

abbrev pub session_key : SessionRegistryRecord → Key
session_key r = record {
  tenant_id = r.tenant_id;
  logical_session_id = r.authority.logical_session_id;
}

pub data GenerationState : Type 0 where
  pending current retired deleted : GenerationState

unfoldable pub state_eq : GenerationState → GenerationState → Bool
state_eq pending pending = true
state_eq current current = true
state_eq retired retired = true
state_eq deleted deleted = true
state_eq _ _ = false

-- A row of `platform_checkpoint_generations`. The binding version is always 1.
pub record GenerationRow : Type 0 where
  pub key : Key
  pub checkpoint_namespace : Text
  pub storage_thread_id : Text
  pub fencing_generation : ℕ
  pub principal_generation : ℕ
  pub state : GenerationState
  pub transition_id : Option Text
  pub source_revision : Option ℕ

-- A row of `platform_session_operations`.
pub record OperationRow : Type 0 where
  pub key : Key
  pub operation_id : Text
  pub request_fingerprint : Text
  pub committed_revision : ℕ
  pub committed_checkpoint_namespace : Text
  pub envelope : SessionEnvelope

-- `checkpoint_rows` has the thread id of each row that LangGraph's saver keeps, and
-- `write_manifests` the session of each pending manifest. The registry writes to neither.
pub record Database : Type 0 where
  pub sessions : List SessionRegistryRecord
  pub generations : List GenerationRow
  pub operations : List OperationRow
  pub checkpoint_rows : List Text
  pub write_manifests : List Key

abbrev pub empty_database : Database
empty_database = record {
  sessions = [];
  generations = [];
  operations = [];
  checkpoint_rows = [];
  write_manifests = [];
}

-- `SELECT ... WHERE tenant_id = %s AND logical_session_id = %s`
unfoldable pub select : Key → List SessionRegistryRecord → Option SessionRegistryRecord
select k [] = none
select k (r ∷ rows) = if key_eq (session_key r) k then some r else select k rows

-- The row under a key is replaced.
unfoldable pub replace :
    Key → SessionRegistryRecord → List SessionRegistryRecord → List SessionRegistryRecord
replace k new [] = []
replace k new (r ∷ rows) = if key_eq (session_key r) k then new ∷ rows else r ∷ replace k new rows

-- The CHECK constraints of `platform_sessions`, as the last migration leaves them.
unfoldable pub row_allowed : SessionRegistryRecord → Bool
row_allowed r =
    (if is_some r.lease_owner_id
      then is_some r.lease_expires_at
      else not (is_some r.lease_expires_at))
    && ltb r.created_at r.expires_at
    && leb r.created_at r.updated_at
    && (if lifecycle_eq r.lifecycle closed
        then not (is_some r.envelope) && not (is_some r.lease_owner_id)
        else is_some r.envelope && is_some r.lease_owner_id && ltb 0 r.fencing_generation)
    && (elim r.envelope [
      | none ↦ true
      | some e ↦ e.payload_schema_version == 2 && valid_envelope e
    ])
    && (not (is_open r.lifecycle)
        || checkpoint_namespace_matches r.checkpoint_namespace r.authority.logical_session_id
            r.fencing_generation r.principal_generation)
    && (elim r.lease_expires_at [
      | none ↦ true
      | some ends ↦
          ltb r.created_at ends && (lifecycle_eq r.lifecycle closing || leb ends r.expires_at)
    ])

-- `UNIQUE (tenant_id, checkpoint_namespace)`, for a row of another session
unfoldable pub namespace_taken : SessionRegistryRecord → List SessionRegistryRecord → Bool
namespace_taken new rows =
    any
      (λ r.
        not (key_eq (session_key r) (session_key new))
        && text_eq r.tenant_id new.tenant_id
        && text_eq r.checkpoint_namespace new.checkpoint_namespace)
      rows

pub data Outcome {ℓ} (A : Type ℓ) : Type ℓ where
  ok : A → Outcome A
  err : Fault → Outcome A

-- Statements in a transaction: an exception rolls all of them back.
abbrev pub Transaction : Type 0 → Type 0
Transaction A = Database → Outcome (A × Database)

module _ {A : Type 0} where
  abbrev pub pure : A → Transaction A
  pure a db = ok (a, db)

  abbrev pub raise : Fault → Transaction A
  raise e db = err e

  unfoldable pub gets : (Database → A) → Transaction A
  gets f db = ok (f db, db)

  -- `if x is None: raise e`
  unfoldable pub or_raise : Option A → Fault → Transaction A
  or_raise none e = raise e
  or_raise (some a) e = pure a

  -- An answer that was computed, or the exception of its computation.
  unfoldable pub from_outcome : Outcome A → Transaction A
  from_outcome (ok a) db = ok (a, db)
  from_outcome (err e) db = err e

unfoldable pub raise_if : Bool → Fault → Transaction (Unit {0})
raise_if true e = raise e
raise_if false e = pure tt

module _ {A B : Type 0} where
  infixl 5 ◌>>=◌ ◌>>◌
  unfoldable pub ◌>>=◌ : Transaction A → (A → Transaction B) → Transaction B
  ◌>>=◌ m f db = elim (m db) [ ok (a, db') ↦ f a db' | err e ↦ err e ]

  abbrev pub ◌>>◌ : Transaction A → Transaction B → Transaction B
  m >> k = m >>= λ _. k

-- A change of the row under a key that the constraints allow.
unfoldable pub write_row : Key → SessionRegistryRecord → Transaction (Unit {0})
write_row k new db =
    if row_allowed new
    then (if namespace_taken new db.sessions
        then err unique_violation
        else ok (tt, record db { sessions = replace k new db.sessions }))
    else err psycopg_error

-- `UPDATE platform_sessions SET ... WHERE <key> AND <test> RETURNING ...`, with the row that it
-- returns, if the test let it change one.
unfoldable pub update_session :
    Key
    → (SessionRegistryRecord → Bool)
    → (SessionRegistryRecord → SessionRegistryRecord)
    → Transaction (Option SessionRegistryRecord)
update_session k test change db = elim (select k db.sessions) [
  | none ↦ ok (none, db)
  | some r ↦
      if test r then (do write_row k (change r); pure (some (change r))) db else ok (none, db)
]

-- `INSERT INTO platform_sessions`
unfoldable pub insert_session : SessionRegistryRecord → Transaction SessionRegistryRecord
insert_session new db =
    if row_allowed new
    then (if is_some (select (session_key new) db.sessions) || namespace_taken new db.sessions
        then err unique_violation
        else ok (new, record db { sessions = db.sessions ++ new ∷ [] }))
    else err psycopg_error
