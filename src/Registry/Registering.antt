-- ===== src/Registry/Registering.antt =====
-- A registration is a move of its session: it adds a record where there was none.
use agnostic_market.Base.{
  ℕ, ◌≡◌, refl, sym, subst, ◌∙◌, inl, inr, true, false, none, some, [], ◌∷◌, ◌++◌, arith,
  if◌then◌else◌, Bool-cases, Option-cases,
}
use agnostic_market.Text.{Text}
use agnostic_market.Session.Payload.{DurableSessionPayload}
use agnostic_market.Registry.Types.{
  opening, lifecycle_eq, SessionRegistration, SessionLeaseRequest, SessionRegistryRecord,
}
use agnostic_market.Registry.Database.{
  Key, key_eq, session_key, select, Database, row_allowed, namespace_taken, insert_session, ok,
}
use agnostic_market.Registry.Admission.{Registry, written}
use agnostic_market.Registry.Generations.{insert_generation}
use agnostic_market.Registry.Leases.{register_and_acquire, registration_fault}
use agnostic_market.Registry.Progress.{coherent, IsSound, Moves, IsMove, >>=-IsMove}
use agnostic_market.Registry.Rows.{key_eq_refl, select-insert}
use agnostic_market.Registry.Statements.{
  raise_if-IsMove, from_outcome-IsMove, pure-IsMove, insert_generation-IsMove,
}
use agnostic_market.Registry.Locked.{in_transaction-Moves}

-- What an insertion leaves, and where.
pub insert_session-result :
    (new : SessionRegistryRecord) (db db' : Database) (r : SessionRegistryRecord)
    → insert_session new db ≡ ok (r, db')
    → (r ≡ new)
      × (select (session_key new) db.sessions ≡ none)
      × (row_allowed new ≡ true)
      × (db' ≡ record db { sessions = db.sessions ++ new ∷ [] })
unfolding insert_session
insert_session-result new db db' r answer = elim (Bool-cases (row_allowed new)) [
  | inr refused ↦ ground (arith, answer, refused)
  | inl allowed ↦ elim (Option-cases (select (session_key new) db.sessions)) [
    | inr (q, there) ↦ ground (arith, answer, allowed, there)
    | inl absent ↦ elim (Bool-cases (namespace_taken new db.sessions)) [
      | inl taken ↦ ground (arith, answer, allowed, absent, taken)
      | inr free ↦ (
        ground (arith, answer, allowed, absent, free),
        absent,
        allowed,
        ground (arith, answer, allowed, absent, free),
      )
    ]
  ]
]

insert_session-IsMove :
    (new : SessionRegistryRecord) (db : Database)
    → coherent new ≡ true
    → IsMove (session_key new) (insert_session new) db
insert_session-IsMove new db fits r db' answer =
    let (_, absent, allowed, added) = insert_session-result new db db' r answer in
    let moved : Moves (session_key new) db (record db { sessions = db.sessions ++ new ∷ [] }) =
      record {
        own = λ q found. ground (arith, found, absent);
        sound = λ stored s here. subst IsSound (inserted s absent here) (allowed, fits);
        others = λ j other.
            (select-insert j new db.sessions ∙ absent_or_kept j other, refl, λ operation. refl);
        storage = (refl, refl);
      } in
    subst (Moves (session_key new) db) (sym added) moved
  where
    inserted :
        (s : SessionRegistryRecord)
        → select (session_key new) db.sessions ≡ none
        → select (session_key new) (db.sessions ++ new ∷ []) ≡ some s
        → new ≡ s
    inserted s absent here = ground (
      arith,
      absent,
      here,
      select-insert (session_key new) new db.sessions,
      key_eq_refl (session_key new),
    )

    absent_or_kept :
        (j : Key)
        → key_eq (session_key new) j ≡ false
        → (elim (select j db.sessions) [
          | some q ↦ some q
          | none ↦ if key_eq (session_key new) j then some new else none
        ])
          ≡ select j db.sessions
    absent_or_kept j other = ground (arith, other)

opening-coherent :
    (r : SessionRegistryRecord)
    → r.lifecycle ≡ opening
    → r.close_operation_id ≡ none
    → coherent r ≡ true
unfolding coherent lifecycle_eq
opening-coherent r h k = ground (arith, h, k)

pub register_and_acquire-Moves :
    (registry : Registry) (nonce : Text) (now created updated : ℕ)
    (registration : SessionRegistration) (lease : SessionLeaseRequest)
    (payload : DurableSessionPayload) (db : Database)
    → Moves
        (record {
          tenant_id = registration.tenant_id;
          logical_session_id = registration.authority.logical_session_id;
        })
        db
        (register_and_acquire registry nonce now created updated registration lease payload db).1
unfolding register_and_acquire
register_and_acquire-Moves registry nonce now created updated registration lease payload db =
    in_transaction-Moves key registration_fault _ db (
      from_outcome-IsMove key _ _ db (λ lasts _. from_outcome-IsMove key _ _ db (λ retained _.
        raise_if-IsMove key _ _ _ db (λ _. from_outcome-IsMove key _ _ db (λ envelope _.
          >>=-IsMove key (insert_session _) _ db
            (insert_session-IsMove _ db (opening-coherent _ refl refl))
            (λ row db₁ _.
              >>=-IsMove key (insert_generation _) _ db₁ (insert_generation-IsMove key db₁ _ refl)
                (λ done db₂ _. pure-IsMove key (written row) db₂)))))))
  where
    key : Key
    key = record {
      tenant_id = registration.tenant_id;
      logical_session_id = registration.authority.logical_session_id;
    }
