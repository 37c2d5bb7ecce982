-- ===== src/Registry/Destination.antt =====
-- The generation to which the switch of a rotation moves a session.
use agnostic_market.Base.{
  ℕ, ◌≡◌, refl, sym, ap, subst, ◌∙◌, inl, inr, true, false, List, [], ◌∷◌, Option, none, some,
  arith, Bool-cases, Option-cases,
}
use agnostic_market.Text.{Text, text_eq}
use agnostic_market.Text.Laws.{eq_of_text_eq}
use agnostic_market.Encryption.{SessionEnvelope}
use agnostic_market.Session.Payload.{DurableSessionPayload}
use agnostic_market.Registry.Types.{SessionLeaseAuthority, SessionRegistryRecord}
use agnostic_market.Registry.Database.{
  Key, session_key, select, replace, Database, current, retired, state_eq, Outcome, ok, ◌>>=◌, gets,
  raise_if,
}
use agnostic_market.Registry.Generations.{CheckpointGeneration, CheckpointRotation}
use agnostic_market.Registry.Admission.{Registry}
use agnostic_market.Registry.Rotation.{
  currents, is_current, load_generations, under_transition, find_transition, rotation_members,
}
use agnostic_market.Registry.Switching.{
  completed_rotation, in_generation_state, switches, switched_to, switched_row, lost_authority,
  perform_switch,
}
use agnostic_market.Registry.Rows.{select-replace_self}
use agnostic_market.Registry.Statements.{update_session-result}
use agnostic_market.Registry.Locked.{update_state-sessions}
use agnostic_market.Registry.Inversion.{>>=-ok, raise_if-ok, from_outcome-ok}

module _ (t : Text) (d : CheckpointGeneration) where
  no_current :
      (gs : List CheckpointGeneration)
      → currents gs ≡ []
      → find_transition t gs ≡ some d
      → state_eq d.row.state current ≡ false
  unfolding currents find_transition
  no_current [] nothing found = cc
  no_current (h ∷ gs) nothing found = elim (Bool-cases (state_eq h.row.state current)) [
    | inl is ↦ ground (arith, nothing, is)
    | inr not_current ↦ (elim (Bool-cases (under_transition t h)) [
      | inl hit ↦ ground (arith, found, hit, not_current)
      | inr miss ↦
          no_current gs (ground (arith, nothing, not_current)) (ground (arith, found, miss))
    ])
  ]

  -- The current generation of a transition is the only current one.
  pub one_current :
      (gs : List CheckpointGeneration) (g : CheckpointGeneration)
      → currents gs ≡ g ∷ []
      → find_transition t gs ≡ some d
      → state_eq d.row.state current ≡ true
      → d ≡ g
  unfolding currents find_transition
  one_current [] g only found is = cc
  one_current (h ∷ gs) g only found is = elim (Bool-cases (state_eq h.row.state current)) [
    | inr not_current ↦ (elim (Bool-cases (under_transition t h)) [
      | inl hit ↦ ground (arith, found, hit, not_current, is)
      | inr miss ↦
          one_current gs g (ground (arith, only, not_current)) (ground (arith, found, miss)) is
    ])
    | inl h_current ↦ (elim (Bool-cases (under_transition t h)) [
      | inl hit ↦ ground (arith, found, hit, only, h_current)
      | inr miss ↦
          let late =
            no_current gs (ground (arith, only, h_current)) (ground (arith, found, miss)) in
          ground (arith, late, is)
    ])
  ]

-- A record names a generation.
pub record Names (r : SessionRegistryRecord) (g : CheckpointGeneration) : Type 0 where
  pub namespace : r.checkpoint_namespace ≡ g.row.checkpoint_namespace
  pub principal : r.principal_generation ≡ g.row.principal_generation

pub is_current-Names :
    (r : SessionRegistryRecord) (gs : List CheckpointGeneration)
    → is_current r gs ≡ true
    → (g : CheckpointGeneration) × (currents gs ≡ g ∷ []) × Names r g
unfolding is_current
is_current-Names r gs is = go (currents gs) refl
  where
    go :
        (cs : List CheckpointGeneration)
        → currents gs ≡ cs
        → (g : CheckpointGeneration) × (currents gs ≡ g ∷ []) × Names r g
    go [] e = ground (arith, is, e)
    go (g ∷ _ ∷ _) e = ground (arith, is, e)
    go (g ∷ []) e =
        let named : (text_eq g.row.checkpoint_namespace r.checkpoint_namespace ≡ true)
            × (g.row.principal_generation ≡ r.principal_generation) =
          ground (arith, is, e) in
        (g, e, record { namespace = sym (eq_of_text_eq _ _ named.0); principal = sym named.1 })

pub load_generations-is_current :
    (registry : Registry) (r : SessionRegistryRecord) (db db' : Database)
    (gs : List CheckpointGeneration)
    → load_generations registry true r db ≡ ok (gs, db')
    → (db' ≡ db) × (is_current r gs ≡ true)
unfolding load_generations ◌>>=◌ gets raise_if
load_generations-is_current registry r db db' gs answer =
    (ground (arith, answer), ground (arith, answer))

pub rotation_members-destination :
    (gs : List CheckpointGeneration) (t : Text) (rotation : CheckpointRotation)
    → rotation_members gs t ≡ ok (some rotation)
    → find_transition t gs ≡ some rotation.destination
unfolding rotation_members
rotation_members-destination gs t rotation found = elim (Option-cases (find_transition t gs)) [
  | inl missing ↦ ground (arith, found, missing)
  | inr (d, there) ↦ ground (arith, found, there)
]

pub completed_rotation-same :
    (r : SessionRegistryRecord) (rotation done : CheckpointRotation) (revision : ℕ)
    → completed_rotation r rotation revision ≡ ok done
    → done ≡ rotation
unfolding completed_rotation
completed_rotation-same r rotation done revision answer = ground (arith, answer)

-- The record of a session after a switch: it names the destination, under the fence and the owner that
-- it had.
pub record Follows (k : Key) (db : Database) (r : SessionRegistryRecord) (g : CheckpointGeneration)
    : Type 0 where
  pub row : SessionRegistryRecord
  pub stored : select k db.sessions ≡ some row
  pub named : Names row g
  pub fence : row.fencing_generation ≡ r.fencing_generation
  pub owner : row.lease_owner_id ≡ r.lease_owner_id

switched_row-ok :
    (r row : SessionRegistryRecord) (later : ℕ) (changed : Option SessionRegistryRecord)
    (db db' : Database)
    → switched_row r later changed db ≡ ok (row, db')
    → (changed ≡ some row) × (db' ≡ db)
unfolding switched_row lost_authority ◌>>=◌ raise_if
switched_row-ok r row later none db db' answer = ground (arith, answer)
switched_row-ok r row later (some q) db db' answer =
    (ground (arith, answer), ground (arith, answer))

moved :
    (k : Key) (r q : SessionRegistryRecord) (destination : CheckpointGeneration)
    (envelope : SessionEnvelope) (now : ℕ) (db db₁ db₂ : Database)
    → k ≡ session_key r
    → select k db.sessions ≡ some r
    → db₁.sessions ≡ db.sessions
    → select k db₁.sessions ≡ some q
    → db₂
      ≡ record db₁ { sessions = replace k (switched_to destination envelope now q) db₁.sessions }
    → Follows k db₂ r
        (in_generation_state destination (record (destination.row) { state = current }))
unfolding in_generation_state
moved k r q destination envelope now db db₁ db₂ own found same there wrote =
    let e : q ≡ r = ground (arith, found, same, there) in
    record {
      row = switched_to destination envelope now q;
      stored =
          ap (λ (d : Database). select k d.sessions) wrote
          ∙ select-replace_self k (switched_to destination envelope now q) q db₁.sessions
              (ap session_key e ∙ sym own) there;
      named = record { namespace = refl; principal = refl };
      fence = ap (λ (x : SessionRegistryRecord). x.fencing_generation) e;
      owner = ap (λ (x : SessionRegistryRecord). x.lease_owner_id) e;
    }

pub perform_switch-Follows :
    (registry : Registry) (nonce : Text) (now later : ℕ) (a : SessionLeaseAuthority)
    (r : SessionRegistryRecord) (payload : DurableSessionPayload)
    (rotation done : CheckpointRotation) (revision : ℕ) (db db' : Database)
    → select (session_key r) db.sessions ≡ some r
    → perform_switch registry nonce now later a r payload rotation revision db ≡ ok (done, db')
    → Follows (session_key r) db' r done.destination
unfolding perform_switch
perform_switch-Follows registry nonce now later a r payload rotation done revision db db' found
      answer =
    let (envelope, _, a₁) = from_outcome-ok done db db' _ _ answer in
    let (left, d₁, retires, a₂) = >>=-ok done db db' _ _ a₁ in
    let (_, a₃) = raise_if-ok done d₁ db' _ _ _ a₂ in
    let (entered, d₂, enters, a₄) = >>=-ok done d₁ db' _ _ a₃ in
    let (_, a₅) = raise_if-ok done d₂ db' _ _ _ a₄ in
    let (changed, d₃, updated, a₆) = >>=-ok done d₂ db' _ _ a₅ in
    let (row, d₄, answered, a₇) = >>=-ok done d₃ db' _ _ a₆ in
    let (checked, _, a₈) = from_outcome-ok done d₄ db' _ _ a₇ in
    let (_, a₉) = raise_if-ok done d₄ db' _ _ _ a₈ in
    let (_, last) = raise_if-ok done d₄ db' _ _ _ a₉ in
    let (there, same) = switched_row-ok r row later changed d₃ d₄ answered in
    elim (update_session-result (session_key r) (switches a now rotation.source revision)
      (switched_to rotation.destination envelope now) d₂ d₃ changed updated) [
        | inl (nothing, _) ↦ ground (arith, there, nothing)
        | inr (q, held, _, _, _, wrote) ↦
            finish d₃ d₄ same
              (moved (session_key r) r q rotation.destination envelope now db d₂ d₃ refl found
                (update_state-sessions _ _ _ _ d₁ d₂ entered enters
                  ∙ update_state-sessions _ _ _ _ db d₁ left retires)
                held wrote)
              last
      ]
  where
    finish :
        (d₃ d₄ : Database)
        → d₄ ≡ d₃
        → Follows (session_key r) d₃ r (
            in_generation_state rotation.destination
              (record (rotation.destination.row) { state = current }))
        → ◌≡◌ {A = Outcome (CheckpointRotation × Database)}
            (ok (
              record {
                source =
                    in_generation_state rotation.source
                      (record (rotation.source.row) { state = retired });
                destination =
                    in_generation_state rotation.destination
                      (record (rotation.destination.row) { state = current });
              },
              d₄,
            ))
            (ok (done, db'))
        → Follows (session_key r) db' r done.destination
    finish d₃ d₄ same follows last =
        let f : d₃ ≡ db' = ground (arith, same, last) in
        let g : in_generation_state rotation.destination
              (record (rotation.destination.row) { state = current })
            ≡ done.destination =
          ground (arith, last) in
        subst (λ d. Follows (session_key r) d r done.destination) f
          (subst (λ x. Follows (session_key r) d₃ r x) g follows)
