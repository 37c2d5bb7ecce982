-- ===== src/Registry/Finalizing.antt =====
-- `finalize_close`: what a closed session leaves.
use agnostic_market.Base.{
  ℕ, ◌+◌, Bool, false, ◌||◌, none, List, [], ◌∷◌, any, not, null, if◌then◌else◌,
}
use agnostic_market.Text.{Text, text_eq}
use agnostic_market.Registry.Types.{
  wrong_close_owner, cleanup_incomplete, session_close, registry_error, closed, lifecycle_eq,
  Duration, SessionCloseAuthority, SessionRegistryRecord, is_owner,
}
use agnostic_market.Registry.Database.{
  Key, key_eq, session_key, Database, GenerationRow, OperationRow, deleted, state_eq, ok, err,
  Transaction, pure, gets, or_raise, raise_if, ◌>>=◌, ◌>>◌, update_session,
}
use agnostic_market.Registry.Generations.{CheckpointGeneration}
use agnostic_market.Registry.Admission.{
  Registry, Method, database_fault, in_transaction, Reply, returned, written, read_reply,
  lease_duration, close_rejection, close_admitted, locked_session, close_key,
}
use agnostic_market.Registry.Rotation.{load_generations}
use agnostic_market.Registry.Closing.{every_row}

-- Rows of the saver under one of the generations, and manifests of the session.
unfoldable pub is_stored : List CheckpointGeneration → Text → Bool
is_stored generations thread = any (λ g. text_eq g.row.storage_thread_id thread) generations

unfoldable pub has_leftovers : Key → List CheckpointGeneration → Database → Bool
has_leftovers k generations db =
    any (is_stored generations) db.checkpoint_rows || any (λ m. key_eq m k) db.write_manifests

-- `DELETE FROM ... WHERE <key>`
unfoldable pub without_operations : Key → List OperationRow → List OperationRow
without_operations k [] = []
without_operations k (o ∷ rows) =
    let rest = without_operations k rows in if key_eq o.key k then rest else o ∷ rest

unfoldable pub without_generations : Key → List GenerationRow → List GenerationRow
without_generations k [] = []
without_generations k (g ∷ rows) =
    let rest = without_generations k rows in if key_eq g.key k then rest else g ∷ rest

-- What `finalize_close` leaves of a session: a tombstone.
unfoldable pub tombstone : (now kept : ℕ) → SessionRegistryRecord → SessionRegistryRecord
tombstone now kept row = record row {
  lifecycle = closed;
  lease_owner_id = none;
  lease_expires_at = none;
  envelope = none;
  expires_at = now + kept;
  updated_at = now;
}

unfoldable pub delete_rows : Key → Transaction (Unit {0})
delete_rows k db = ok (
  tt,
  record db {
    operations = without_operations k db.operations;
    generations = without_generations k db.generations;
  },
)

unfoldable pub erase_session : (now kept : ℕ) → SessionRegistryRecord → Transaction Reply
erase_session now kept r = do
  delete_rows (session_key r)
  changed ← update_session (session_key r) every_row (tombstone now kept)
  row ← or_raise changed registry_error
  pure (written row)

-- `finalize_close` of a session that is not closed yet.
unfoldable pub finalize_closing :
    Registry → (now kept : ℕ) → SessionCloseAuthority → SessionRegistryRecord → Transaction Reply
finalize_closing registry now kept a r = do
  close_admitted (close_rejection r a now)
  generations ← load_generations registry false r
  raise_if (null generations || any (λ g. not (state_eq g.row.state deleted)) generations)
      (session_close cleanup_incomplete)
  leftovers ← gets (has_leftovers (session_key r) generations)
  raise_if leftovers (session_close cleanup_incomplete)
  erase_session now kept r

unfoldable pub finalize_locked :
    Registry → (now kept : ℕ) → SessionCloseAuthority → SessionRegistryRecord → Transaction Reply
finalize_locked registry now kept a r =
    if lifecycle_eq r.lifecycle closed
    then (do
      raise_if (not (is_owner r.close_operation_id a.operation_id))
          (session_close wrong_close_owner)
      pure (returned r))
    else finalize_closing registry now kept a r

unfoldable pub finalize_close :
    Registry → (locked : ℕ) → SessionCloseAuthority → Duration → Method SessionRegistryRecord
finalize_close registry locked a retention db = elim (lease_duration retention) [
  | err e ↦ (err e, db)
  | ok kept ↦
      let (answer, db') =
        in_transaction database_fault
          (do r ← locked_session (close_key a); finalize_locked registry locked kept a r) db in
      (read_reply answer, db')
]
