-- ===== src/Registry/Bound.antt =====
-- `BoundCheckpointGenerationAuthority`: the rotation of a checkpoint in the registry, under one lease.
use agnostic_market.Base.{ℕ, ◌+◌, Bool, ◌&&◌, ◌||◌, ◌==◌, if◌then◌else◌}
use agnostic_market.Text.{Text, text_eq}
use agnostic_market.Registry.Types.{registry_data, value_error, SessionLeaseAuthority}
use agnostic_market.Registry.Database.{
  key_eq, Database, pending, current, deleted, state_eq, Outcome, ok, err,
}
use agnostic_market.Registry.Generations.{CheckpointGeneration, CheckpointRotation}
use agnostic_market.Registry.Admission.{Registry, lease_key}
use agnostic_market.Registry.Rotation.{is_number, is_marker, begin_checkpoint_rotation}
use agnostic_market.Registry.Switching.{switch_checkpoint_generation, record_checkpoint_deletion}
use agnostic_market.Registry.Calls.{Timing}

pub record BoundAuthority : Type 0 where
  pub authority : SessionLeaseAuthority
  pub current_generation : CheckpointGeneration

-- `_validate_scope`
unfoldable pub in_scope : SessionLeaseAuthority → CheckpointGeneration → Bool
in_scope a g =
    key_eq g.row.key (lease_key a)
    && text_eq g.deployment_id a.deployment_id
    && text_eq g.graph_contract a.graph_contract
    && g.row.fencing_generation == a.fencing_generation

unfoldable pub new_bound : SessionLeaseAuthority → CheckpointGeneration → Outcome BoundAuthority
new_bound a g =
    if in_scope a g && state_eq g.row.state current
    then ok (record { authority = a; current_generation = g })
    else err value_error

-- Whether a destination is the one that was asked for.
unfoldable pub is_destination : BoundAuthority → (revision : ℕ) → Text → CheckpointGeneration → Bool
is_destination b revision t g =
    (state_eq g.row.state pending || state_eq g.row.state current)
    && is_marker g.row.transition_id t
    && is_number g.row.source_revision revision
    && g.row.principal_generation == b.current_generation.row.principal_generation + 1

unfoldable pub check_destination :
    BoundAuthority
    → (revision : ℕ) → Text
    → Outcome CheckpointGeneration
    → Outcome CheckpointGeneration
check_destination b revision t (err e) = err e
check_destination b revision t (ok g) =
    if in_scope b.authority g
    then (if is_destination b revision t g then ok g else err registry_data)
    else err value_error

unfoldable pub bound_begin :
    Registry
    → (locked revision : ℕ) → Text
    → BoundAuthority
    → Database
    → Outcome CheckpointGeneration × Database
bound_begin registry locked revision t b db =
    let (answer, db') =
      begin_checkpoint_rotation registry locked b.authority revision
        b.current_generation.row.principal_generation t db in
    (check_destination b revision t answer, db')

unfoldable pub is_switch : BoundAuthority → Text → CheckpointRotation → Bool
is_switch b t rotation =
    text_eq rotation.source.row.checkpoint_namespace b.current_generation.row.checkpoint_namespace
    && state_eq rotation.destination.row.state current
    && is_marker rotation.destination.row.transition_id t

-- The rotation becomes the current one, where it starts at the generation that was current.
unfoldable pub follow_switch :
    BoundAuthority → Text → Outcome CheckpointRotation → Outcome CheckpointRotation × BoundAuthority
follow_switch b t (err e) = (err e, b)
follow_switch b t (ok rotation) =
    if in_scope b.authority rotation.source && in_scope b.authority rotation.destination
    then (if is_switch b t rotation
        then (ok rotation, record b { current_generation = rotation.destination })
        else (err registry_data, b))
    else (err value_error, b)

unfoldable pub bound_switch :
    Registry
    → (nonce : Text) → Timing
    → Text
    → BoundAuthority
    → Database
    → (Outcome CheckpointRotation × BoundAuthority) × Database
bound_switch registry nonce time t b db =
    let (answer, db') =
      switch_checkpoint_generation registry nonce time.locked time.now time.later b.authority t
        db in
    (follow_switch b t answer, db')

unfoldable pub check_deleted :
    BoundAuthority → Outcome CheckpointGeneration → Outcome CheckpointGeneration
check_deleted b (err e) = err e
check_deleted b (ok g) =
    if in_scope b.authority g
    then (if state_eq g.row.state deleted then ok g else err registry_data)
    else err value_error

unfoldable pub bound_delete :
    Registry
    → (locked : ℕ) → Text
    → BoundAuthority
    → Database
    → Outcome CheckpointGeneration × Database
bound_delete registry locked t b db =
    let (answer, db') = record_checkpoint_deletion registry locked b.authority t db in
    (check_deleted b answer, db')
