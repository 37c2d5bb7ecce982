-- ===== src/Registry/Rotating.antt =====
-- The calls of a rotation are moves of the session.
use agnostic_market.Base.{
  ℕ, ◌+◌, ◌≤◌, ◌≡◌, refl, ap, ◌∙◌, inl, inr, Bool, true, false, Option, none, some, List, [], ◌∷◌,
  arith, if◌then◌else◌, Bool-cases, Option-cases,
}
use agnostic_market.Text.{Text}
use agnostic_market.Encryption.{SessionEnvelope}
use agnostic_market.Session.Payload.{DurableSessionPayload}
use agnostic_market.Registry.Types.{
  Fault, SessionLeaseAuthority, SessionRegistryRecord, is_identifier,
}
use agnostic_market.Registry.Database.{
  Key, session_key, Database, pending, deleted, state_eq, Outcome, ok, err,
}
use agnostic_market.Registry.Generations.{
  CheckpointGeneration, CheckpointRotation, insert_generation,
}
use agnostic_market.Registry.Admission.{Registry, database_fault, lease_key}
use agnostic_market.Registry.Rotation.{
  find_transition, sources_of, rotation_members, resume_rotation, next_generation,
  allocate_rotation, answer_rotation, begin_rotation_locked, begin_checkpoint_rotation,
}
use agnostic_market.Registry.Switching.{
  completed_rotation, lost_authority, switched_row, switches, switched_to, perform_switch,
  switch_members, switch_pending, switch_locked, switch_checkpoint_generation,
  record_deletion_locked, record_checkpoint_deletion,
}
use agnostic_market.Registry.Progress.{coherent, Advances, Moves, Moves-refl, IsMove, >>=-IsMove}
use agnostic_market.Registry.Rows.{select-key}
use agnostic_market.Registry.Statements.{
  load_generations-IsRead, raise_if-IsMove, from_outcome-IsMove, or_raise-IsMove, outcome-IsMove,
  pure-IsMove, read-IsMove, insert_generation-IsMove,
}
use agnostic_market.Registry.Locked.{
  in_transaction-Moves, update-then-IsMove, state-then-IsMove, locked_record-IsMove,
}

-- The destination of a rotation is one principal after its source.
sources_of-next :
    (d g : CheckpointGeneration) (gs rest : List CheckpointGeneration)
    → sources_of d gs ≡ g ∷ rest
    → g.row.principal_generation + 1 ≡ d.row.principal_generation
unfolding sources_of
sources_of-next d g [] rest h = cc
sources_of-next d g (h' ∷ gs) rest h = ground (arith, sources_of-next d g gs rest, h)

rotation_members-next :
    (generations : List CheckpointGeneration) (transition_id : Text) (rotation : CheckpointRotation)
    → rotation_members generations transition_id ≡ ok (some rotation)
    → rotation.source.row.principal_generation ≤ rotation.destination.row.principal_generation
unfolding rotation_members
rotation_members-next generations transition_id rotation h =
    elim (Option-cases (find_transition transition_id generations)) [
      | inl missing ↦ ground (arith, h, missing)
      | inr (d, found) ↦ go d found (sources_of d generations) refl
    ]
  where
    go :
        (d : CheckpointGeneration)
        → find_transition transition_id generations ≡ some d
        → (sources : List CheckpointGeneration) → sources_of d generations ≡ sources
        → rotation.source.row.principal_generation ≤ rotation.destination.row.principal_generation
    go d found [] e = ground (arith, h, found, e)
    go d found (g ∷ []) e = ground (arith, h, found, e, sources_of-next d g generations [] e)
    go d found (g ∷ g' ∷ gs) e = ground (arith, h, found, e)

next_generation-key :
    {k : Key} (registry : Registry) (r : SessionRegistryRecord) (t : Text) (revision : ℕ)
    → session_key r ≡ k
    → (next_generation registry r t revision).row.key ≡ k
unfolding next_generation
next_generation-key registry r t revision own = own

module _ (k : Key) (registry : Registry) (a : SessionLeaseAuthority) where
  resume_rotation-IsMove :
      (revision principal : ℕ) (t : Text) (r : SessionRegistryRecord)
      (payload : DurableSessionPayload) (rotation : CheckpointRotation) (db : Database)
      → IsMove k (resume_rotation a revision principal t r payload rotation) db
  unfolding resume_rotation
  resume_rotation-IsMove revision principal t r payload rotation db =
      raise_if-IsMove k _ _ _ db
        (λ _. raise_if-IsMove k _ _ _ db (λ _. pure-IsMove k rotation.destination db))

  allocate_rotation-IsMove :
      (revision principal : ℕ) (t : Text) (r : SessionRegistryRecord)
      (payload : DurableSessionPayload) (gs : List CheckpointGeneration) (db : Database)
      → session_key r ≡ k
      → IsMove k (allocate_rotation registry revision principal t r payload gs) db
  unfolding allocate_rotation
  allocate_rotation-IsMove revision principal t r payload gs db own =
      raise_if-IsMove k _ _ _ db (λ _. raise_if-IsMove k _ _ _ db (λ _.
        raise_if-IsMove k _ _ _ db (λ _. raise_if-IsMove k _ _ _ db (λ _.
          raise_if-IsMove k _ _ _ db (λ _.
            >>=-IsMove k (insert_generation (next_generation registry r t revision).row) _ db
              (insert_generation-IsMove k db _ (next_generation-key registry r t revision own))
              (λ done db' _. pure-IsMove k (next_generation registry r t revision) db'))))))

  answer_rotation-IsMove :
      (revision principal : ℕ) (t : Text) (r : SessionRegistryRecord)
      (payload : DurableSessionPayload) (gs : List CheckpointGeneration)
      (rotation : Option CheckpointRotation) (db : Database)
      → session_key r ≡ k
      → IsMove k (answer_rotation registry a revision principal t r payload gs rotation) db
  unfolding answer_rotation
  answer_rotation-IsMove revision principal t r payload gs (some rotation) db own =
      resume_rotation-IsMove revision principal t r payload rotation db
  answer_rotation-IsMove revision principal t r payload gs none db own =
      allocate_rotation-IsMove revision principal t r payload gs db own

  begin_rotation_locked-IsMove :
      (revision principal : ℕ) (t : Text) (r : SessionRegistryRecord) (db : Database)
      → session_key r ≡ k
      → IsMove k (begin_rotation_locked registry a revision principal t r) db
  unfolding begin_rotation_locked
  begin_rotation_locked-IsMove revision principal t r db own = raise_if-IsMove k _ _ _ db (λ _.
      read-IsMove k _ _ db (load_generations-IsRead registry true r) (λ gs _.
        from_outcome-IsMove k _ _ db (λ payload _. from_outcome-IsMove k _ _ db (λ rotation _.
          answer_rotation-IsMove revision principal t r payload gs rotation db own))))

  lost_authority-IsMove :
      (r : SessionRegistryRecord) (later : ℕ) (db : Database)
      → IsMove k (lost_authority {A = SessionRegistryRecord} r later) db
  unfolding lost_authority
  lost_authority-IsMove r later db =
      raise_if-IsMove k _ _ _ db (λ _. raise_if-IsMove k _ _ _ db (λ _. λ x db' answer. cc))

  switched_row-IsMove :
      (r : SessionRegistryRecord) (later : ℕ) (changed : Option SessionRegistryRecord)
      (db : Database)
      → IsMove k (switched_row r later changed) db
  unfolding switched_row
  switched_row-IsMove r later none db = lost_authority-IsMove r later db
  switched_row-IsMove r later (some row) db = pure-IsMove k row db

  perform_switch-IsMove :
      (nonce : Text) (now later : ℕ) (r : SessionRegistryRecord) (payload : DurableSessionPayload)
      (rotation : CheckpointRotation) (revision : ℕ) (db : Database)
      → session_key r ≡ k
      → rotation.source.row.principal_generation ≤ rotation.destination.row.principal_generation
      → IsMove k (perform_switch registry nonce now later a r payload rotation revision) db
  unfolding perform_switch coherent
  perform_switch-IsMove nonce now later r payload rotation revision db own next =
      from_outcome-IsMove k _ _ db (λ envelope _.
        state-then-IsMove k (session_key r) own db _ _ _ _ (λ left db₁ _.
          raise_if-IsMove k _ _ _ db₁ (λ _.
            state-then-IsMove k (session_key r) own db₁ _ _ _ _ (λ entered db₂ _.
              raise_if-IsMove k _ _ _ db₂ (λ _.
                update-then-IsMove k (session_key r) own db₂
                  (switches a now rotation.source revision)
                  (switched_to rotation.destination envelope now) _
                  (λ row found passed. (refl, moved row envelope passed))
                  (λ changed db₃.
                    >>=-IsMove k (switched_row r later changed) _ db₃
                      (switched_row-IsMove r later changed db₃)
                      (λ row db₄ _. from_outcome-IsMove k _ _ db₄ (λ checked _.
                        raise_if-IsMove k _ _ _ db₄
                          (λ _. raise_if-IsMove k _ _ _ db₄ (λ _. pure-IsMove k _ db₄))))))))))
    where
      moved :
          (row : SessionRegistryRecord) (envelope : SessionEnvelope)
          → switches a now rotation.source revision row ≡ true
          → Advances row (switched_to rotation.destination envelope now row)
      moved row envelope passed = record {
        fence = omega arith;
        life = omega arith;
        revision = omega arith;
        principal = ground (arith, passed, next);
        holder = inr (inr refl);
        coherence = λ h. h;
        operation = inr refl;
      }

  switch_members-IsMove :
      (nonce : Text) (now later : ℕ) (t : Text) (r : SessionRegistryRecord)
      (payload : DurableSessionPayload) (rotation : CheckpointRotation) (revision : ℕ)
      (db : Database)
      → session_key r ≡ k
      → rotation.source.row.principal_generation ≤ rotation.destination.row.principal_generation
      → IsMove k (switch_members registry nonce now later a t r payload rotation revision) db
  unfolding switch_members switch_pending
  switch_members-IsMove nonce now later t r payload rotation revision db own next =
      elim (Bool-cases (state_eq rotation.destination.row.state pending)) [
        | inr other ↦ rw other (outcome-IsMove k (completed_rotation r rotation revision) db)
        | inl begun ↦ rw begun (
            raise_if-IsMove k _ _ _ db
              (λ _. perform_switch-IsMove nonce now later r payload rotation revision db own next))
      ]

  switch_locked-IsMove :
      (nonce : Text) (now later : ℕ) (t : Text) (r : SessionRegistryRecord) (db : Database)
      → session_key r ≡ k
      → IsMove k (switch_locked registry nonce now later a t r) db
  unfolding switch_locked
  switch_locked-IsMove nonce now later t r db own = raise_if-IsMove k _ _ _ db (λ _.
      read-IsMove k _ _ db (load_generations-IsRead registry true r) (λ gs _.
        from_outcome-IsMove k _ _ db (λ found members. or_raise-IsMove k _ _ _ db (λ rotation there.
          from_outcome-IsMove k _ _ db (λ payload _. or_raise-IsMove k _ _ _ db (λ revision _.
            switch_members-IsMove nonce now later t r payload rotation revision db own (
              rotation_members-next gs t rotation
                (members ∙ ap (λ (o : Option CheckpointRotation). ok o) there))))))))

  record_deletion_locked-IsMove :
      (t : Text) (r : SessionRegistryRecord) (db : Database)
      → session_key r ≡ k
      → IsMove k (record_deletion_locked registry t r) db
  unfolding record_deletion_locked
  record_deletion_locked-IsMove t r db own =
      read-IsMove k _ _ db (load_generations-IsRead registry true r) (λ gs _.
        from_outcome-IsMove k _ _ db (λ found _. or_raise-IsMove k _ _ _ db (λ rotation _.
          raise_if-IsMove k _ _ _ db (λ _.
            elim (Bool-cases (state_eq rotation.source.row.state deleted)) [
              | inl done ↦ rw done (pure-IsMove k rotation.source db)
              | inr kept ↦ rw kept (
                  raise_if-IsMove k _ _ _ db (λ _.
                    state-then-IsMove k (session_key r) own db _ _ _ _
                      (λ changed db' _. raise_if-IsMove k _ _ _ db' (λ _. pure-IsMove k _ db'))))
            ]))))

-- A method that refuses its argument at once changes nothing.
pub if-Moves :
    {A : Type 0} (k : Key) (test : Bool) (m : Outcome A × Database) (e : Fault) (db : Database)
    → Moves k db m.1
    → Moves k db (if test then m else (err e, db)).1
if-Moves k true m e db moves = moves
if-Moves k false m e db moves = Moves-refl k db

module _ (registry : Registry) (a : SessionLeaseAuthority) (locked : ℕ) (db : Database) where
  pub begin_checkpoint_rotation-Moves :
      (revision principal : ℕ) (t : Text)
      → Moves
          (lease_key a)
          db
          (begin_checkpoint_rotation registry locked a revision principal t db).1
  unfolding begin_checkpoint_rotation
  begin_checkpoint_rotation-Moves revision principal t =
      if-Moves (lease_key a) (is_identifier t) _ _ db (
        in_transaction-Moves (lease_key a) database_fault _ db (
          locked_record-IsMove db a locked _ (λ r found admits.
            begin_rotation_locked-IsMove (lease_key a) registry a revision principal t r db
              (select-key (lease_key a) db.sessions r found))))

  pub switch_checkpoint_generation-Moves :
      (nonce : Text) (now later : ℕ) (t : Text)
      → Moves
          (lease_key a)
          db
          (switch_checkpoint_generation registry nonce locked now later a t db).1
  unfolding switch_checkpoint_generation
  switch_checkpoint_generation-Moves nonce now later t =
      if-Moves (lease_key a) (is_identifier t) _ _ db (
        in_transaction-Moves (lease_key a) database_fault _ db (
          locked_record-IsMove db a locked _ (λ r found admits.
            switch_locked-IsMove (lease_key a) registry a nonce now later t r db
              (select-key (lease_key a) db.sessions r found))))

  pub record_checkpoint_deletion-Moves :
      (t : Text) → Moves (lease_key a) db (record_checkpoint_deletion registry locked a t db).1
  unfolding record_checkpoint_deletion
  record_checkpoint_deletion-Moves t = if-Moves (lease_key a) (is_identifier t) _ _ db (
      in_transaction-Moves (lease_key a) database_fault _ db (
        locked_record-IsMove db a locked _ (λ r found admits.
          record_deletion_locked-IsMove (lease_key a) registry a t r db
            (select-key (lease_key a) db.sessions r found))))
