-- ===== src/Registry/InMemory.antt =====
-- `InMemoryCheckpointGenerationAuthority`: the rotation of a checkpoint kept in memory. Its lock makes
-- each method one step; what is written before an exception stays written.
use agnostic_market.Base.{ℕ, ◌+◌, ◌&&◌, ◌||◌, Option, none, some, [], null, if◌then◌else◌}
use agnostic_market.Text.{Text, text_eq}
use agnostic_market.Dict.{Dict, lookup, insert, erase}
use agnostic_market.Registry.Types.{
  operation_conflict, rotation_pending, rotation_not_found, state_write, registry_data, value_error,
  is_identifier, principal_namespace,
}
use agnostic_market.Registry.Database.{
  GenerationState, pending, current, retired, deleted, state_eq, Outcome, ok, err,
}
use agnostic_market.Registry.Generations.{
  Fingerprint, storage_thread_id, CheckpointGeneration, CheckpointRotation, valid_rotation,
}
use agnostic_market.Registry.Rotation.{is_number}

pub record InMemoryAuthority : Type 0 where
  pub current_generation : CheckpointGeneration
  pub pending_rotations : Dict (CheckpointGeneration × CheckpointGeneration)
  pub completed : Dict CheckpointRotation

-- `CheckpointBinding`
pub record CheckpointBinding : Type 0 where
  pub tenant_id : Text
  pub deployment_id : Text
  pub graph_contract : Text
  pub thread_id : Text
  pub logical_session_id : Option Text

unfoldable pub new_in_memory : CheckpointGeneration → Outcome InMemoryAuthority
new_in_memory g =
    if state_eq g.row.state current
    then ok (record { current_generation = g; pending_rotations = []; completed = [] })
    else err value_error

-- `from_binding`
unfoldable pub from_binding :
    Fingerprint → CheckpointBinding → (fencing principal : ℕ) → Outcome InMemoryAuthority
from_binding digest binding fencing principal = elim binding.logical_session_id [
  | none ↦ err value_error
  | some session ↦ new_in_memory (record {
    deployment_id = binding.deployment_id;
    graph_contract = binding.graph_contract;
    row = record {
      key = record { tenant_id = binding.tenant_id; logical_session_id = session };
      checkpoint_namespace = binding.thread_id;
      storage_thread_id =
          storage_thread_id digest binding.tenant_id binding.deployment_id binding.graph_contract
            binding.thread_id;
      fencing_generation = fencing;
      principal_generation = principal;
      state = current;
      transition_id = none;
      source_revision = none;
    };
  })
]

-- `model_copy(update={"state": ...})`
unfoldable pub with_state : GenerationState → CheckpointGeneration → CheckpointGeneration
with_state state g = record g { row = record (g.row) { state = state } }

-- The destination that was allocated under a transition, if any.
unfoldable pub prior_destination : Text → InMemoryAuthority → Option CheckpointGeneration
prior_destination t s = elim (lookup t s.completed) [
  | some rotation ↦ some rotation.destination
  | none ↦ (elim (lookup t s.pending_rotations) [
    | some (source, destination) ↦ some destination
    | none ↦ none
  ])
]

unfoldable pub next_destination :
    Fingerprint → (revision : ℕ) → Text → CheckpointGeneration → CheckpointGeneration
next_destination digest revision t source =
    let namespace =
      principal_namespace source.row.key.logical_session_id source.row.fencing_generation
        (source.row.principal_generation + 1) in
    record {
      deployment_id = source.deployment_id;
      graph_contract = source.graph_contract;
      row = record {
        key = source.row.key;
        checkpoint_namespace = namespace;
        storage_thread_id =
            storage_thread_id digest source.row.key.tenant_id source.deployment_id
              source.graph_contract namespace;
        fencing_generation = source.row.fencing_generation;
        principal_generation = source.row.principal_generation + 1;
        state = pending;
        transition_id = some t;
        source_revision = some revision;
      };
    }

unfoldable pub begin_in_memory :
    Fingerprint
    → (revision : ℕ) → Text
    → InMemoryAuthority
    → Outcome CheckpointGeneration × InMemoryAuthority
begin_in_memory digest revision t s =
    if is_identifier t
    then (elim (prior_destination t s) [
      | some g ↦
          if is_number g.row.source_revision revision
            && (state_eq g.row.state pending || state_eq g.row.state current)
          then (ok g, s)
          else (err (state_write operation_conflict), s)
      | none ↦
          if null s.pending_rotations
          then (let source = s.current_generation in
              let destination = next_destination digest revision t source in
              (
                ok destination,
                record s { pending_rotations = insert t (source, destination) s.pending_rotations },
              ))
          else (err (state_write rotation_pending), s)
    ])
    else (err value_error, s)

-- The rotation that made the source current keeps it as retired.
unfoldable pub retire_history : CheckpointGeneration → InMemoryAuthority → Outcome InMemoryAuthority
retire_history source s = elim source.row.transition_id [
  | none ↦ ok s
  | some u ↦ (elim (lookup u s.completed) [
    | none ↦ err registry_data
    | some prior ↦
        if text_eq prior.destination.row.checkpoint_namespace source.row.checkpoint_namespace
        then ok (record s {
          completed =
              insert u (record prior { destination = with_state retired source }) s.completed;
        })
        else err registry_data
  ])
]

unfoldable pub complete_rotation :
    Text
    → (source destination : CheckpointGeneration) → InMemoryAuthority
    → Outcome CheckpointRotation × InMemoryAuthority
complete_rotation t source destination s = elim (retire_history source s) [
  | err e ↦ (err e, s)
  | ok kept ↦
      let rotation : CheckpointRotation = record {
        source = with_state retired source;
        destination = with_state current destination;
      } in
      if valid_rotation rotation
      then (
        ok rotation,
        record kept {
          current_generation = rotation.destination;
          completed = insert t rotation kept.completed;
        },
      )
      else (err value_error, kept)
]

unfoldable pub switch_in_memory :
    Text → InMemoryAuthority → Outcome CheckpointRotation × InMemoryAuthority
switch_in_memory t s =
    if is_identifier t
    then (elim (lookup t s.completed) [
      | some rotation ↦ (ok rotation, s)
      | none ↦ (elim (lookup t s.pending_rotations) [
        | none ↦ (err (state_write rotation_not_found), s)
        | some (source, destination) ↦
            complete_rotation t source destination
              (record s { pending_rotations = erase t s.pending_rotations })
      ])
    ])
    else (err value_error, s)

unfoldable pub delete_in_memory :
    Text → InMemoryAuthority → Outcome CheckpointGeneration × InMemoryAuthority
delete_in_memory t s =
    if is_identifier t
    then (elim (lookup t s.completed) [
      | none ↦ (err (state_write rotation_not_found), s)
      | some rotation ↦
          if state_eq rotation.source.row.state deleted
          then (ok rotation.source, s)
          else (let gone = with_state deleted rotation.source in
              let next : CheckpointRotation = record {
                source = gone;
                destination = rotation.destination;
              } in
              if valid_rotation next
              then (ok gone, record s { completed = insert t next s.completed })
              else (err value_error, s))
    ])
    else (err value_error, s)
