-- ===== src/Registry/Reaping.antt =====
-- `expired_sessions`, `purge_closed_tombstones` and `tenant_durable_row_counts`: the queries over all
-- sessions of a tenant. The collation, by which the database orders texts, is a parameter.
use agnostic_market.Base.{
  ℕ, zero, suc, Bool, true, false, ◌&&◌, ◌||◌, Option, none, some, List, [], ◌∷◌, leb, ltb, ◌==◌,
  not, ℤ, to_nat, if◌then◌else◌,
}
use agnostic_market.Text.{Text, text_eq}
use agnostic_market.Registry.Types.{
  value_error, closing, closed, lifecycle_eq, is_identifier, SessionRegistryRecord,
}
use agnostic_market.Registry.Database.{
  Key, key_eq, session_key, Database, GenerationRow, OperationRow, ok, err,
}
use agnostic_market.Registry.Finalizing.{without_operations, without_generations}
use agnostic_market.Registry.Admission.{Method}

pub record ExpiredSessionCandidate : Type 0 where
  pub tenant_id : Text
  pub logical_session_id : Text
  pub close_operation_id : Option Text

-- `type(limit) is int and limit >= 1`
unfoldable pub positive_limit : ℤ → Option ℕ
positive_limit limit = elim (to_nat limit) [
  | none ↦ none
  | some n ↦ if leb 1 n then some n else none
]

unfoldable pub ended : (now : ℕ) → Option ℕ → Bool
ended now none = false
ended now (some ends) = leb ends now

-- The WHERE clause of `expired_sessions`.
unfoldable pub is_expired : (tenant : Text) → (now : ℕ) → SessionRegistryRecord → Bool
is_expired tenant now r =
    text_eq r.tenant_id tenant
    && not (lifecycle_eq r.lifecycle closed)
    && (ended now r.lease_expires_at
        || (not (lifecycle_eq r.lifecycle closing) && leb r.expires_at now))

unfoldable pub due_at : SessionRegistryRecord → ℕ
due_at r = elim r.lease_expires_at [ none ↦ r.expires_at | some ends ↦ ends ]

unfoldable pub filter_rows :
    (SessionRegistryRecord → Bool) → List SessionRegistryRecord → List SessionRegistryRecord
filter_rows test [] = []
filter_rows test (r ∷ rows) = let rest = filter_rows test rows in if test r then r ∷ rest else rest

-- `ORDER BY <number>, logical_session_id`
unfoldable pub insert_due :
    (Text → Text → Bool)
    → (SessionRegistryRecord → ℕ)
    → SessionRegistryRecord
    → List SessionRegistryRecord
    → List SessionRegistryRecord
insert_due collate at r [] = r ∷ []
insert_due collate at r (q ∷ rows) =
    if ltb (at r) (at q)
      || (at r == at q && collate r.authority.logical_session_id q.authority.logical_session_id)
    then r ∷ q ∷ rows
    else q ∷ insert_due collate at r rows

unfoldable pub order_due :
    (Text → Text → Bool)
    → (SessionRegistryRecord → ℕ)
    → List SessionRegistryRecord
    → List SessionRegistryRecord
order_due collate at [] = []
order_due collate at (r ∷ rows) = insert_due collate at r (order_due collate at rows)

unfoldable pub take {ℓ} : {A : Type ℓ} → ℕ → List A → List A
take zero xs = []
take (suc n) [] = []
take (suc n) (x ∷ xs) = x ∷ take n xs

unfoldable pub candidates : List SessionRegistryRecord → List ExpiredSessionCandidate
candidates [] = []
candidates (r ∷ rows) =
    record {
      tenant_id = r.tenant_id;
      logical_session_id = r.authority.logical_session_id;
      close_operation_id = r.close_operation_id;
    }
    ∷ candidates rows

unfoldable pub expired_sessions :
    (Text → Text → Bool)
    → (now : ℕ) → (tenant : Text) → (limit : ℤ) → Method (List ExpiredSessionCandidate)
expired_sessions collate now tenant limit db = elim (positive_limit limit) [
  | none ↦ (err value_error, db)
  | some n ↦
      if is_identifier tenant
      then (
        ok (
            candidates (
              take n (order_due collate due_at (filter_rows (is_expired tenant now) db.sessions)))),
        db,
      )
      else (err value_error, db)
]

-- The tombstones that may go: closed, kept long enough, and held by no other transaction.
unfoldable pub is_purgeable :
    (tenant : Text) → (now : ℕ) → (Key → Bool) → SessionRegistryRecord → Bool
is_purgeable tenant now held r =
    text_eq r.tenant_id tenant
    && lifecycle_eq r.lifecycle closed
    && leb r.expires_at now
    && not (held (session_key r))

-- `DELETE FROM platform_sessions`, with the rows that refer to the session.
unfoldable pub without_session : Key → List SessionRegistryRecord → List SessionRegistryRecord
without_session k [] = []
without_session k (r ∷ rows) =
    let rest = without_session k rows in if key_eq (session_key r) k then rest else r ∷ rest

unfoldable pub without_manifests : Key → List Key → List Key
without_manifests k [] = []
without_manifests k (m ∷ rows) =
    let rest = without_manifests k rows in if key_eq m k then rest else m ∷ rest

unfoldable pub delete_session : Key → Database → Database
delete_session k db = record db {
  sessions = without_session k db.sessions;
  operations = without_operations k db.operations;
  generations = without_generations k db.generations;
  write_manifests = without_manifests k db.write_manifests;
}

unfoldable pub delete_all : List SessionRegistryRecord → Database → Database
delete_all [] db = db
delete_all (r ∷ rows) db = delete_all rows (delete_session (session_key r) db)

unfoldable pub count_rows {ℓ} : {A : Type ℓ} → (A → Bool) → List A → ℕ
count_rows test [] = 0
count_rows test (x ∷ xs) = let rest = count_rows test xs in if test x then suc rest else rest

-- `purge_closed_tombstones`, with the number of sessions that it deleted
unfoldable pub purge_closed_tombstones :
    (Text → Text → Bool) → (Key → Bool) → (now : ℕ) → (tenant : Text) → (limit : ℤ) → Method ℕ
purge_closed_tombstones collate held now tenant limit db = elim (positive_limit limit) [
  | none ↦ (err value_error, db)
  | some n ↦
      if is_identifier tenant
      then (let chosen = take n (
            order_due collate (λ r. r.expires_at)
              (filter_rows (is_purgeable tenant now held) db.sessions)) in
          (ok (count_rows (λ _. true) chosen), delete_all chosen db))
      else (err value_error, db)
]

pub record TenantDurableRowCounts : Type 0 where
  pub tenant_id : Text
  pub observed_at : ℕ
  pub platform_sessions : ℕ
  pub platform_session_operations : ℕ
  pub platform_checkpoint_generations : ℕ
  pub platform_checkpoint_write_manifests : ℕ

unfoldable pub tenant_durable_row_counts :
    (now : ℕ) → (tenant : Text) → Method TenantDurableRowCounts
tenant_durable_row_counts now tenant db =
    if is_identifier tenant
    then (
      ok (record {
        tenant_id = tenant;
        observed_at = now;
        platform_sessions = count_rows (λ r. text_eq r.tenant_id tenant) db.sessions;
        platform_session_operations =
            count_rows (λ (o : OperationRow). text_eq o.key.tenant_id tenant) db.operations;
        platform_checkpoint_generations =
            count_rows (λ (g : GenerationRow). text_eq g.key.tenant_id tenant) db.generations;
        platform_checkpoint_write_manifests =
            count_rows (λ (m : Key). text_eq m.tenant_id tenant) db.write_manifests;
      }),
      db,
    )
    else (err value_error, db)
