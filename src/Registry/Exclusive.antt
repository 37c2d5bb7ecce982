-- ===== src/Registry/Exclusive.antt =====
-- A session is registered once.
use agnostic_market.Base.{ℕ, ◌≡◌, inl, inr, some, List, arith}
use agnostic_market.Text.{Text}
use agnostic_market.Session.Payload.{DurableSessionPayload}
use agnostic_market.Registry.Types.{
  Fault, SessionRegistration, SessionLeaseRequest, SessionRegistryRecord,
}
use agnostic_market.Registry.Database.{Key, select, Database, Outcome, ok, err, Transaction}
use agnostic_market.Registry.Admission.{Registry, Reply, in_transaction, read_reply}
use agnostic_market.Registry.Leases.{registration_fault, register_and_acquire}
use agnostic_market.Registry.Rows.{Outcome-cases}
use agnostic_market.Registry.Registering.{insert_session-result}
use agnostic_market.Registry.Inversion.{>>=-ok, raise_if-ok, from_outcome-ok}
use agnostic_market.Registry.Calls.{Call, perform_all}
use agnostic_market.Registry.Fencing.{perform_all-Later}

-- The session that a registration names.
abbrev pub registered_key : SessionRegistration → Key
registered_key registration = record {
  tenant_id = registration.tenant_id;
  logical_session_id = registration.authority.logical_session_id;
}

-- A transaction that could not have come to its end was refused.
never_ok :
    (fault : Fault → Fault) (t : Transaction Reply) (db : Database)
    → ((reply : Reply) (db' : Database) → ¬ (t db ≡ ok (reply, db')))
    → (e : Fault) × (◌≡◌ {A = Outcome SessionRegistryRecord × Database}
        (read_reply (in_transaction fault t db).0, (in_transaction fault t db).1)
        (err e, db))
unfolding in_transaction read_reply
never_ok fault t db never = elim (Outcome-cases (t db)) [
  | inl (e, failed) ↦ (fault e, ground (arith, failed))
  | inr ((reply, db'), passed) ↦ absurd (never reply db' passed)
]

register-registered :
    (registry : Registry) (nonce : Text) (now created updated : ℕ)
    (registration : SessionRegistration) (lease : SessionLeaseRequest)
    (payload : DurableSessionPayload) (db : Database) (r : SessionRegistryRecord)
    → select (registered_key registration) db.sessions ≡ some r
    → (e : Fault) × (register_and_acquire registry nonce now created updated registration lease
          payload db
        ≡ (err e, db))
unfolding register_and_acquire
register-registered registry nonce now created updated registration lease payload db r there =
    never_ok registration_fault _ db (λ reply db' answer.
      let (lasts, _, a₁) = from_outcome-ok reply db db' _ _ answer in
      let (retained, _, a₂) = from_outcome-ok reply db db' _ _ a₁ in
      let (_, a₃) = raise_if-ok reply db db' _ _ _ a₂ in
      let (envelope, _, a₄) = from_outcome-ok reply db db' _ _ a₃ in
      let (row, db₁, inserted, _) = >>=-ok reply db db' _ _ a₄ in
      let (_, absent, _, _) = insert_session-result _ db db₁ row inserted in
      ground (arith, absent, there))

-- Once a session is registered, a registration that names it is refused and changes nothing, whatever
-- calls have happened since.
pub register-once :
    (registry : Registry) (nonce : Text) (now created updated : ℕ)
    (registration : SessionRegistration) (lease : SessionLeaseRequest)
    (payload : DurableSessionPayload) (calls : List Call) (db : Database)
    (r : SessionRegistryRecord)
    → select (registered_key registration) db.sessions ≡ some r
    → (e : Fault) × (register_and_acquire registry nonce now created updated registration lease
          payload
          (perform_all registry calls db)
        ≡ (err e, perform_all registry calls db))
register-once registry nonce now created updated registration lease payload calls db r there =
    let (s, still, _) = perform_all-Later registry calls db (registered_key registration) r there in
    register-registered registry nonce now created updated registration lease payload
      (perform_all registry calls db) s still
