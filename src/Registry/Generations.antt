-- ===== src/Registry/Generations.antt =====
-- The checkpoint generations of a session: `CheckpointGeneration` and `CheckpointRotation` of
-- durability/session_registry.py, the binding of checkpoints.py that names their storage, and the
-- statements on `platform_checkpoint_generations`.
use agnostic_market.Base.{
  ◌+◌, Bool, true, false, ◌&&◌, ◌||◌, Option, none, some, List, [], ◌∷◌, ◌++◌, leb, ◌==◌, not,
  is_some, any, if◌then◌else◌,
}
use agnostic_market.Text.{Text, codes, text_eq}
use agnostic_market.Dict.{Dict}
use agnostic_market.Registry.Types.{SessionRegistryRecord, unique_violation, psycopg_error}
use agnostic_market.Registry.Database.{
  Key, key_eq, GenerationState, pending, current, retired, deleted, state_eq, GenerationRow, ok,
  err, Transaction,
}

-- `_fingerprint` of checkpoints.py, the SHA-256 digest of a canonical JSON text.
abbrev pub Fingerprint : Type 0
Fingerprint = Dict Text → Text

-- `CheckpointBinding.namespace` and `storage_thread_id`
unfoldable pub binding_namespace : Fingerprint → (tenant deployment graph : Text) → Text
binding_namespace digest tenant deployment graph =
    codes "ns_"
    ++ digest (
        (codes "tenant_id", tenant)
        ∷ (codes "deployment_id", deployment)
        ∷ (codes "graph_contract", graph)
        ∷ [])

unfoldable pub storage_thread_id : Fingerprint → (tenant deployment graph thread : Text) → Text
storage_thread_id digest tenant deployment graph thread =
    codes "cp_"
    ++ digest (
        (codes "namespace", binding_namespace digest tenant deployment graph)
        ∷ (codes "thread_id", thread)
        ∷ [])

pub record CheckpointGeneration : Type 0 where
  pub deployment_id : Text
  pub graph_contract : Text
  pub row : GenerationRow
  pub open row use *

-- `storage_authority_matches_binding`
unfoldable pub valid_generation : Fingerprint → CheckpointGeneration → Bool
valid_generation digest g = text_eq g.row.storage_thread_id (
    storage_thread_id digest g.row.key.tenant_id g.deployment_id g.graph_contract
      g.row.checkpoint_namespace)

-- The row of a generation with the deployment and the graph of its session.
unfoldable pub generation_of :
    Fingerprint → SessionRegistryRecord → GenerationRow → CheckpointGeneration
generation_of digest r row = record {
  deployment_id = r.deployment_id;
  graph_contract = r.graph_contract;
  row = row;
}

pub record CheckpointRotation : Type 0 where
  pub source : CheckpointGeneration
  pub destination : CheckpointGeneration

-- `generations_form_one_rotation`
unfoldable pub valid_rotation : CheckpointRotation → Bool
valid_rotation rotation =
    let s = rotation.source in
    let d = rotation.destination in
    key_eq s.row.key d.row.key
    && text_eq s.deployment_id d.deployment_id
    && text_eq s.graph_contract d.graph_contract
    && s.row.fencing_generation == d.row.fencing_generation
    && (state_eq s.row.state retired || state_eq s.row.state deleted)
    && not (state_eq d.row.state pending)
    && is_some d.row.transition_id
    && is_some d.row.source_revision
    && d.row.principal_generation == s.row.principal_generation + 1

-- `SELECT ... WHERE <key> ORDER BY fencing_generation, principal_generation`
unfoldable pub ordered_before : GenerationRow → GenerationRow → Bool
ordered_before a b =
    if a.fencing_generation == b.fencing_generation
    then leb a.principal_generation b.principal_generation
    else leb a.fencing_generation b.fencing_generation

unfoldable pub insert_ordered : GenerationRow → List GenerationRow → List GenerationRow
insert_ordered g [] = g ∷ []
insert_ordered g (h ∷ rows) = if ordered_before g h then g ∷ h ∷ rows else h ∷ insert_ordered g rows

unfoldable pub rows_of : Key → List GenerationRow → List GenerationRow
rows_of k [] = []
rows_of k (g ∷ rows) =
    let rest = rows_of k rows in if key_eq g.key k then insert_ordered g rest else rest

-- The UNIQUE constraints and the partial indices: what a new row may not share with another.
unfoldable pub clashes : GenerationRow → GenerationRow → Bool
clashes new g =
    text_eq g.storage_thread_id new.storage_thread_id
    || (key_eq g.key new.key
        && (text_eq g.checkpoint_namespace new.checkpoint_namespace
            || (g.fencing_generation == new.fencing_generation
                && g.principal_generation == new.principal_generation)
            || (elim new.transition_id [
              | none ↦ false
              | some t ↦ (elim g.transition_id [ none ↦ false | some u ↦ text_eq u t ])
            ])
            || (state_eq g.state current && state_eq new.state current)
            || (state_eq g.state pending && state_eq new.state pending)))

-- The CHECK constraints of a generation.
unfoldable pub generation_allowed : GenerationRow → Bool
generation_allowed g =
    (if is_some g.transition_id then is_some g.source_revision else not (is_some g.source_revision))
    && (not (state_eq g.state pending) || is_some g.transition_id)

unfoldable pub insert_generation : GenerationRow → Transaction (Unit {0})
insert_generation new db =
    if generation_allowed new
    then (if any (clashes new) db.generations
        then err unique_violation
        else ok (tt, record db { generations = db.generations ++ new ∷ [] }))
    else err psycopg_error

-- `UPDATE platform_checkpoint_generations SET state = %s WHERE <key> AND checkpoint_namespace = %s`
-- and, where `from` names one, `AND state = %s`
unfoldable pub in_state : Option GenerationState → GenerationState → Bool
in_state none state = true
in_state (some s) state = state_eq s state

unfoldable pub names : Key → Text → Option GenerationState → GenerationRow → Bool
names k namespace from g =
    key_eq g.key k && text_eq g.checkpoint_namespace namespace && in_state from g.state

-- The row that the statement finds, which the primary key makes the only one.
unfoldable pub find_generation : (GenerationRow → Bool) → List GenerationRow → Option GenerationRow
find_generation test [] = none
find_generation test (g ∷ rows) = if test g then some g else find_generation test rows

unfoldable pub set_states :
    (GenerationRow → Bool) → GenerationState → List GenerationRow → List GenerationRow
set_states test state [] = []
set_states test state (g ∷ rows) =
    if test g then record g { state = state } ∷ rows else g ∷ set_states test state rows

-- The partial index lets one generation of a session be current.
unfoldable pub other_current : Key → Text → List GenerationRow → Bool
other_current k namespace rows =
    any
      (λ g.
        key_eq g.key k
        && not (text_eq g.checkpoint_namespace namespace)
        && state_eq g.state current)
      rows

unfoldable pub update_state :
    Key → Text → Option GenerationState → GenerationState → Transaction (Option GenerationRow)
update_state k namespace from state db =
    elim (find_generation (names k namespace from) db.generations) [
      | none ↦ ok (none, db)
      | some g ↦
          if state_eq state current && other_current k namespace db.generations
          then err unique_violation
          else ok (
            some (record g { state = state }),
            record db { generations = set_states (names k namespace from) state db.generations },
          )
    ]
