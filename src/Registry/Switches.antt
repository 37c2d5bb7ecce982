-- ===== src/Registry/Switches.antt =====
-- Where the switch of a rotation leaves a session.
use agnostic_market.Base.{
  ℕ, ◌≡◌, refl, sym, ap, subst, ◌∙◌, inl, inr, true, false, List, none, some, arith, Bool-cases,
  Option-cases,
}
use agnostic_market.Text.{Text, text_eq}
use agnostic_market.Text.Laws.{eq_of_text_eq}
use agnostic_market.Session.Payload.{DurableSessionPayload}
use agnostic_market.Registry.Types.{
  is_owner, is_identifier, SessionLeaseAuthority, SessionRegistryRecord,
}
use agnostic_market.Registry.Database.{
  session_key, select, Database, pending, current, state_eq, ok, ◌>>=◌, from_outcome,
}
use agnostic_market.Registry.Generations.{CheckpointGeneration, CheckpointRotation}
use agnostic_market.Registry.Admission.{
  Registry, in_transaction, database_fault, lease_key, lease_rejection, locked_record,
}
use agnostic_market.Registry.Rotation.{is_current, find_transition}
use agnostic_market.Registry.Switching.{
  completed_rotation, switch_pending, switch_members, switch_locked, switch_checkpoint_generation,
}
use agnostic_market.Registry.Fenced.{lease_rejection-fence}
use agnostic_market.Registry.Rows.{select-key}
use agnostic_market.Registry.Locked.{locked_record-found}
use agnostic_market.Registry.Inversion.{
  >>=-ok, raise_if-ok, from_outcome-ok, or_raise-ok, in_transaction-ok, outcome-ok,
}
use agnostic_market.Registry.Destination.{
  Names, Follows, one_current, is_current-Names, load_generations-is_current,
  rotation_members-destination, completed_rotation-same, perform_switch-Follows,
}

module _ (registry : Registry) (nonce : Text) (now later : ℕ) (a : SessionLeaseAuthority) (t : Text)
    (r : SessionRegistryRecord) (payload : DurableSessionPayload) (rotation : CheckpointRotation)
    (revision : ℕ) (db : Database) where
  members_pending :
      state_eq rotation.destination.row.state pending ≡ true
      → switch_members registry nonce now later a t r payload rotation revision db
        ≡ switch_pending registry nonce now later a t r payload rotation revision db
  unfolding switch_members
  members_pending waits = rw waits refl

  members_over :
      state_eq rotation.destination.row.state pending ≡ false
      → switch_members registry nonce now later a t r payload rotation revision db
        ≡ from_outcome (completed_rotation r rotation revision) db
  unfolding switch_members
  members_over over = rw over refl

switch_members-Follows :
    (registry : Registry) (nonce : Text) (now later : ℕ) (a : SessionLeaseAuthority) (t : Text)
    (r : SessionRegistryRecord) (payload : DurableSessionPayload) (gs : List CheckpointGeneration)
    (rotation done : CheckpointRotation) (revision : ℕ) (db db' : Database)
    → select (session_key r) db.sessions ≡ some r
    → is_current r gs ≡ true
    → find_transition t gs ≡ some rotation.destination
    → state_eq done.destination.row.state current ≡ true
    → switch_members registry nonce now later a t r payload rotation revision db ≡ ok (done, db')
    → Follows (session_key r) db' r done.destination
unfolding switch_pending
switch_members-Follows registry nonce now later a t r payload gs rotation done revision db db' found
      is member is_done answer =
    elim (Bool-cases (state_eq rotation.destination.row.state pending)) [
      | inl waits ↦
          let (_, switched) = raise_if-ok done db db' _ _ _ (
            sym (members_pending registry nonce now later a t r payload rotation revision db waits)
            ∙ answer) in
          perform_switch-Follows registry nonce now later a r payload rotation done revision db db'
            found switched
      | inr over ↦
          let (completed, same) = outcome-ok (completed_rotation r rotation revision) done db db' (
            sym (members_over registry nonce now later a t r payload rotation revision db over)
            ∙ answer) in
          let e = completed_rotation-same r rotation done revision completed in
          let (g, only, named) = is_current-Names r gs is in
          let f : done.destination ≡ g =
            ap (λ (x : CheckpointRotation). x.destination) e
            ∙ one_current t rotation.destination gs g only member (
                ap (λ (x : CheckpointRotation). state_eq x.destination.row.state current) (sym e)
                ∙ is_done) in
          record {
            row = r;
            stored = ap (λ (d : Database). select (session_key r) d.sessions) same ∙ found;
            named = subst (Names r) (sym f) named;
            fence = refl;
            owner = refl;
          }
    ]

lease_rejection-owner :
    (r : SessionRegistryRecord) (a : SessionLeaseAuthority) (now : ℕ)
    → lease_rejection r a now ≡ none
    → r.lease_owner_id ≡ some a.lease_owner_id
unfolding lease_rejection is_owner
lease_rejection-owner r a now admits = elim (Option-cases r.lease_owner_id) [
  | inl free ↦ ground (arith, admits, free)
  | inr (owner, held) ↦
      let same : text_eq owner a.lease_owner_id ≡ true = ground (arith, admits, held) in
      held ∙ ap some (eq_of_text_eq owner a.lease_owner_id same)
]

switch_locked-Follows :
    (registry : Registry) (nonce : Text) (now later : ℕ) (a : SessionLeaseAuthority) (t : Text)
    (r : SessionRegistryRecord) (done : CheckpointRotation) (db db' : Database)
    → select (session_key r) db.sessions ≡ some r
    → state_eq done.destination.row.state current ≡ true
    → switch_locked registry nonce now later a t r db ≡ ok (done, db')
    → Follows (session_key r) db' r done.destination
unfolding switch_locked
switch_locked-Follows registry nonce now later a t r done db db' found is_done answer =
    let (_, a₁) = raise_if-ok done db db' _ _ _ answer in
    let (gs, d, loaded, a₂) = >>=-ok done db db' _ _ a₁ in
    let (same, is) = load_generations-is_current registry r db d gs loaded in
    let (members, there, a₃) = from_outcome-ok done d db' _ _ a₂ in
    let (rotation, some_members, a₄) = or_raise-ok done d db' _ _ _ a₃ in
    let (payload, _, a₅) = from_outcome-ok done d db' _ _ a₄ in
    let (revision, _, a₆) = or_raise-ok done d db' _ _ _ a₅ in
    switch_members-Follows registry nonce now later a t r payload gs rotation done revision d db'
      (ap (λ (x : Database). select (session_key r) x.sessions) same ∙ found) is
      (rotation_members-destination gs t rotation (there ∙ ap ok some_members)) is_done a₆

switch_checkpoint_generation-run :
    (registry : Registry) (nonce : Text) (locked now later : ℕ) (a : SessionLeaseAuthority)
    (t : Text) (db : Database)
    → is_identifier t ≡ true
    → switch_checkpoint_generation registry nonce locked now later a t db
      ≡ in_transaction database_fault
          (locked_record a locked >>= λ r. switch_locked registry nonce now later a t r)
          db
unfolding switch_checkpoint_generation
switch_checkpoint_generation-run registry nonce locked now later a t db good = rw good refl

refused_identifier :
    (registry : Registry) (nonce : Text) (locked now later : ℕ) (a : SessionLeaseAuthority)
    (t : Text) (done : CheckpointRotation) (db db' : Database)
    → is_identifier t ≡ false
    → ¬ (switch_checkpoint_generation registry nonce locked now later a t db ≡ (ok done, db'))
unfolding switch_checkpoint_generation
refused_identifier registry nonce locked now later a t done db db' bad answer =
    ground (arith, answer, bad)

-- A switch under a lease that returned a rotation to a current generation.
pub switch_checkpoint_generation-Follows :
    (registry : Registry) (nonce : Text) (locked now later : ℕ) (a : SessionLeaseAuthority)
    (t : Text) (done : CheckpointRotation) (db db' : Database)
    → state_eq done.destination.row.state current ≡ true
    → switch_checkpoint_generation registry nonce locked now later a t db ≡ (ok done, db')
    → (r : SessionRegistryRecord) × Follows (lease_key a) db' r done.destination
      × (r.fencing_generation ≡ a.fencing_generation)
      × (r.lease_owner_id ≡ some a.lease_owner_id)
switch_checkpoint_generation-Follows registry nonce locked now later a t done db db' is_done
      answer =
    elim (Bool-cases (is_identifier t)) [
      | inr bad ↦
          absurd (refused_identifier registry nonce locked now later a t done db db' bad answer)
      | inl good ↦
          let ran = in_transaction-ok done db db' database_fault _ (
            sym (switch_checkpoint_generation-run registry nonce locked now later a t db good)
            ∙ answer) in
          let (r, d, held, rest) = >>=-ok done db db' _ _ ran in
          let (same, found, _, admits) = locked_record-found a locked db d r held in
          let own = select-key (lease_key a) db.sessions r found in
          (
            r,
            subst (λ k. Follows k db' r done.destination) own
                (switch_locked-Follows registry nonce now later a t r done d db'
                  (subst (λ k. select k d.sessions ≡ some r) (sym own)
                    (ap (λ (x : Database). select (lease_key a) x.sessions) same ∙ found))
                  is_done rest),
            lease_rejection-fence r a locked admits,
            lease_rejection-owner r a locked admits,
          )
    ]
