-- ===== src/Registry/Rotation.antt =====
-- How the rotation of a checkpoint begins when the principal of a session changes:
-- `_checkpoint_generations`, `_rotation_members`, `begin_checkpoint_rotation` and
-- `checkpoint_generations` of the registry.
use agnostic_market.Base.{
  ℕ, ◌+◌, Bool, true, false, ◌&&◌, ◌||◌, Option, none, some, List, [], ◌∷◌, map, all, any, ◌==◌,
  not, is_some, if◌then◌else◌,
}
use agnostic_market.Text.{Text, text_eq}
use agnostic_market.Session.Payload.{DurableSessionPayload}
use agnostic_market.Registry.Types.{
  lifecycle_rejected, stale_revision, operation_conflict, rotation_pending,
  retirement_marker_missing, stale_principal, Fault, lease_admission, state_write, registry_data,
  value_error, active, lifecycle_eq, is_identifier, SessionLeaseAuthority, SessionRegistryRecord,
  principal_namespace,
}
use agnostic_market.Registry.Database.{
  session_key, pending, current, state_eq, Outcome, ok, err, Transaction, pure, gets, from_outcome,
  raise_if, ◌>>=◌, ◌>>◌,
}
use agnostic_market.Registry.Generations.{
  storage_thread_id, CheckpointGeneration, valid_generation, generation_of, CheckpointRotation,
  rows_of, insert_generation,
}
use agnostic_market.Registry.Admission.{
  Registry, Method, database_fault, in_transaction, locked_record,
}
use agnostic_market.Registry.Envelopes.{restore_payload}

unfoldable pub currents : List CheckpointGeneration → List CheckpointGeneration
currents [] = []
currents (g ∷ gs) =
    let rest = currents gs in if state_eq g.row.state current then g ∷ rest else rest

-- The only current generation is the one that the record names.
unfoldable pub is_current : SessionRegistryRecord → List CheckpointGeneration → Bool
is_current r generations = elim (currents generations) [
  | [] ↦ false
  | g ∷ others ↦ (elim others [
    | [] ↦
        text_eq g.row.checkpoint_namespace r.checkpoint_namespace
        && g.row.fencing_generation == r.fencing_generation
        && g.row.principal_generation == r.principal_generation
    | _ ∷ _ ↦ false
  ])
]

-- `_checkpoint_generations`
unfoldable pub load_generations :
    Registry → Bool → SessionRegistryRecord → Transaction (List CheckpointGeneration)
load_generations registry require_current r = do
  rows ← gets (λ db. rows_of (session_key r) db.generations)
  let generations = map (generation_of registry.digest r) rows
  raise_if (not (all (valid_generation registry.digest) generations)) value_error
  raise_if (require_current && not (is_current r generations)) registry_data
  pure generations

unfoldable pub under_transition : Text → CheckpointGeneration → Bool
under_transition transition_id g = elim g.row.transition_id [
  | none ↦ false
  | some t ↦ text_eq t transition_id
]

unfoldable pub find_transition : Text → List CheckpointGeneration → Option CheckpointGeneration
find_transition transition_id [] = none
find_transition transition_id (g ∷ gs) =
    if under_transition transition_id g then some g else find_transition transition_id gs

-- The generations of the principal before.
unfoldable pub sources_of :
    CheckpointGeneration → List CheckpointGeneration → List CheckpointGeneration
sources_of destination [] = []
sources_of destination (g ∷ gs) =
    let rest = sources_of destination gs in
    if g.row.fencing_generation == destination.row.fencing_generation
      && g.row.principal_generation + 1 == destination.row.principal_generation
    then g ∷ rest
    else rest

-- `_rotation_members`
unfoldable pub rotation_members :
    List CheckpointGeneration → Text → Outcome (Option CheckpointRotation)
rotation_members generations transition_id = elim (find_transition transition_id generations) [
  | none ↦ ok none
  | some destination ↦ (elim (sources_of destination generations) [
    | [] ↦ err registry_data
    | source ∷ others ↦ (elim others [
      | _ ∷ _ ↦ err registry_data
      | [] ↦
          if is_some destination.row.source_revision
          then ok (some (record { source = source; destination = destination }))
          else err registry_data
    ])
  ])
]

unfoldable pub is_number : Option ℕ → ℕ → Bool
is_number none n = false
is_number (some m) n = m == n

unfoldable pub is_marker : Option Text → Text → Bool
is_marker none t = false
is_marker (some m) t = text_eq m t

-- A rotation that was begun before is answered again.
unfoldable pub resume_rotation :
    SessionLeaseAuthority
    → (revision principal : ℕ) → Text
    → SessionRegistryRecord
    → DurableSessionPayload
    → CheckpointRotation
    → Transaction CheckpointGeneration
resume_rotation a revision principal transition_id r payload rotation = do
  let source = rotation.source
  let prior = rotation.destination
  raise_if
      (not (is_number prior.row.source_revision revision)
        || not (prior.row.principal_generation == principal + 1)
        || not (prior.row.fencing_generation == a.fencing_generation)
        || not (source.row.principal_generation == principal))
      (state_write operation_conflict)
  raise_if
      (state_eq prior.row.state pending
        && (not (state_eq source.row.state current)
            || not (is_marker payload.principal_retirement transition_id)
            || not (r.session_revision == revision)))
      registry_data
  pure prior

-- The generation that a rotation allocates.
unfoldable pub next_generation : Registry → SessionRegistryRecord → Text → ℕ → CheckpointGeneration
next_generation registry r transition_id revision =
    let namespace =
      principal_namespace r.authority.logical_session_id r.fencing_generation
        (r.principal_generation + 1) in
    record {
      deployment_id = r.deployment_id;
      graph_contract = r.graph_contract;
      row = record {
        key = session_key r;
        checkpoint_namespace = namespace;
        storage_thread_id =
            storage_thread_id registry.digest r.tenant_id r.deployment_id r.graph_contract
              namespace;
        fencing_generation = r.fencing_generation;
        principal_generation = r.principal_generation + 1;
        state = pending;
        transition_id = some transition_id;
        source_revision = some revision;
      };
    }

unfoldable pub allocate_rotation :
    Registry
    → (revision principal : ℕ) → Text
    → SessionRegistryRecord
    → DurableSessionPayload
    → List CheckpointGeneration
    → Transaction CheckpointGeneration
allocate_rotation registry revision principal transition_id r payload generations = do
  raise_if (any (λ g. state_eq g.row.state pending) generations) (state_write rotation_pending)
  raise_if (not (is_some payload.principal_retirement)) (state_write retirement_marker_missing)
  raise_if (not (is_marker payload.principal_retirement transition_id))
      (state_write operation_conflict)
  raise_if (not (r.session_revision == revision)) (state_write stale_revision)
  raise_if (not (r.principal_generation == principal)) (state_write stale_principal)
  let destination = next_generation registry r transition_id revision
  insert_generation destination.row
  pure destination

unfoldable pub answer_rotation :
    Registry
    → SessionLeaseAuthority
    → (revision principal : ℕ) → Text
    → SessionRegistryRecord
    → DurableSessionPayload
    → List CheckpointGeneration
    → Option CheckpointRotation
    → Transaction CheckpointGeneration
answer_rotation registry a revision principal transition_id r payload generations (some members) =
    resume_rotation a revision principal transition_id r payload members
answer_rotation registry a revision principal transition_id r payload generations none =
    allocate_rotation registry revision principal transition_id r payload generations

unfoldable pub begin_rotation_locked :
    Registry
    → SessionLeaseAuthority
    → (revision principal : ℕ) → Text
    → SessionRegistryRecord
    → Transaction CheckpointGeneration
begin_rotation_locked registry a revision principal transition_id r = do
  raise_if (not (lifecycle_eq r.lifecycle active)) (lease_admission lifecycle_rejected)
  generations ← load_generations registry true r
  payload ← from_outcome (restore_payload registry r)
  rotation ← from_outcome (rotation_members generations transition_id)
  answer_rotation registry a revision principal transition_id r payload generations rotation

-- `begin_checkpoint_rotation`, at a revision and a principal generation that are not negative
unfoldable pub begin_checkpoint_rotation :
    Registry
    → (locked : ℕ) → SessionLeaseAuthority
    → (revision principal : ℕ) → Text
    → Method CheckpointGeneration
begin_checkpoint_rotation registry locked a revision principal transition_id db =
    if is_identifier transition_id
    then in_transaction database_fault
        (do
          r ← locked_record a locked
          begin_rotation_locked registry a revision principal transition_id r)
        db
    else (err value_error, db)

-- The handlers of `checkpoint_generations`.
unfoldable pub inventory_fault : Fault → Fault
inventory_fault value_error = registry_data
inventory_fault e = database_fault e

unfoldable pub checkpoint_generations :
    Registry → (locked : ℕ) → SessionLeaseAuthority → Method (List CheckpointGeneration)
checkpoint_generations registry locked a =
    in_transaction inventory_fault (do r ← locked_record a locked; load_generations registry true r)
