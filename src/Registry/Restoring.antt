-- ===== src/Registry/Restoring.antt =====
-- That a restore reads back what a publication stored.
use agnostic_market.Base.{
  ℕ, ◌+◌, ◌≡◌, refl, sym, ap, ◌∙◌, inl, inr, true, false, ◌==◌, Option, none, some, List, All,
  arith, Option-cases,
}
use agnostic_market.Text.{Text}
use agnostic_market.Dict.{lookup}
use agnostic_market.Encryption.{
  AesGcmSessionCipher, SessionEnvelope, SessionEnvelopeContext, encrypt,
}
use agnostic_market.Encryption.Laws.{Opens, decrypt-encrypt}
use agnostic_market.Session.Payload.{DurableSessionPayload, session_payload_schema_version}
use agnostic_market.Registry.Types.{SessionLeaseAuthority, SessionRegistryRecord}
use agnostic_market.Registry.Database.{key_eq, select, Database, ok, ◌>>=◌, from_outcome}
use agnostic_market.Registry.Admission.{Registry, lease_key, in_transaction, locked_record}
use agnostic_market.Registry.Envelopes.{
  projection_context, record_context, seal_payload, restore_payload,
}
use agnostic_market.Registry.Publication.{
  RestoredSessionState, restore, SessionStatePublication, find_operation, publish,
}
use agnostic_market.Registry.Locked.{locked_record-found}
use agnostic_market.Registry.Calls.{Call, perform_all, target}
use agnostic_market.Registry.Publishing.{Commits, publish-Commits}
use agnostic_market.Registry.Fencing.{perform_all-IsUntouched}

encrypt-schema :
    (cipher : AesGcmSessionCipher) (nonce plaintext : Text) (context : SessionEnvelopeContext)
    (envelope : SessionEnvelope)
    → encrypt cipher nonce plaintext context ≡ some envelope
    → envelope.payload_schema_version ≡ context.payload_schema_version
unfolding encrypt
encrypt-schema cipher nonce plaintext context envelope sealed =
    elim (Option-cases (lookup cipher.active_key_version cipher.keys)) [
      | inl missing ↦ ground (arith, sealed, missing)
      | inr (key, held) ↦ ground (arith, sealed, held)
    ]

seal_payload-encrypt :
    (registry : Registry) (nonce : Text) (payload : DurableSessionPayload)
    (context : SessionEnvelopeContext) (envelope : SessionEnvelope)
    → seal_payload registry nonce payload context ≡ ok envelope
    → encrypt registry.cipher nonce (registry.json.dump_payload payload) context ≡ some envelope
unfolding seal_payload
seal_payload-encrypt registry nonce payload context envelope sealed =
    elim (Option-cases
      (encrypt registry.cipher nonce (registry.json.dump_payload payload) context)) [
        | inl refused ↦ ground (arith, sealed, refused)
        | inr (e, made) ↦ ground (arith, sealed, made)
      ]

record_context-schema :
    (r : SessionRegistryRecord)
    → (record_context r).payload_schema_version ≡ session_payload_schema_version
unfolding record_context projection_context
record_context-schema r = refl

-- A payload that was sealed in the context of a record is what the record restores.
pub restore_payload-seal :
    (registry : Registry) (nonce : Text) (payload : DurableSessionPayload)
    (envelope : SessionEnvelope) (r : SessionRegistryRecord)
    → Opens registry.cipher.aead
    → registry.json.load_payload (registry.json.dump_payload payload) ≡ some payload
    → seal_payload registry nonce payload (record_context r) ≡ ok envelope
    → r.envelope ≡ some envelope
    → restore_payload registry r ≡ ok payload
unfolding restore_payload
restore_payload-seal registry nonce payload envelope r opens loads sealed held =
    let made = seal_payload-encrypt registry nonce payload (record_context r) envelope sealed in
    let opened =
      decrypt-encrypt registry.cipher nonce (registry.json.dump_payload payload) (record_context r)
        envelope opens made in
    let schema : (envelope.payload_schema_version == session_payload_schema_version) ≡ true =
      ground (
        arith,
        encrypt-schema registry.cipher nonce (registry.json.dump_payload payload) (record_context r)
            envelope made,
        record_context-schema r,
      ) in
    ground (arith, held, schema, opened, loads)

Commits-payload :
    (registry : Registry) (nonce : Text) (now : ℕ) (p : SessionStatePublication)
    (r row : SessionRegistryRecord) (db db' : Database)
    → Opens registry.cipher.aead
    → registry.json.load_payload (registry.json.dump_payload p.payload) ≡ some p.payload
    → Commits registry nonce now p r row db db'
    → restore_payload registry row ≡ ok p.payload
unfolding record_context
Commits-payload registry nonce now p r row db db' opens loads done =
    restore_payload-seal registry nonce p.payload done.envelope row opens loads
      (ap (seal_payload registry nonce p.payload) (ap record_context done.written) ∙ done.sealed)
      (ap (λ (x : SessionRegistryRecord). x.envelope) done.written)

-- What is restored of a record.
abbrev pub restored : SessionRegistryRecord → DurableSessionPayload → RestoredSessionState
restored r payload = record {
  session = r;
  payload = payload;
  replayed = false;
  operation_revision = none;
  operation_result = none;
}

one_row :
    (r q : SessionRegistryRecord) (before after : Option SessionRegistryRecord)
    → before ≡ some r
    → after ≡ before
    → after ≡ some q
    → r ≡ q
one_row r q before after stored kept found = ground (arith, stored, kept, found)

restore-held :
    (registry : Registry) (locked : ℕ) (a : SessionLeaseAuthority) (r : SessionRegistryRecord)
    (payload : DurableSessionPayload) (db : Database)
    → locked_record a locked db ≡ ok (r, db)
    → restore_payload registry r ≡ ok payload
    → restore registry locked a db ≡ (ok (restored r payload), db)
unfolding restore in_transaction ◌>>=◌ from_outcome
restore-held registry locked a r payload db held loaded = ground (arith, held, loaded)

-- What a publication stored is read back by a restore under the authority that holds the session
-- then, whatever calls on other sessions came in between, and the revision has gone up by one. The
-- publication is new, it was accepted, and what is dumped and sealed is opened and loaded again.
pub restore-publish :
    (registry : Registry) (nonce receipt_nonce : Text) (locked now later : ℕ)
    (p : SessionStatePublication) (db db' : Database) (state : RestoredSessionState)
    (calls : List Call) (a : SessionLeaseAuthority) (locked' : ℕ) (q : SessionRegistryRecord)
    → Opens registry.cipher.aead
    → registry.json.load_payload (registry.json.dump_payload p.payload) ≡ some p.payload
    → find_operation (lease_key p.authority) p.operation_id db.operations ≡ none
    → publish registry nonce receipt_nonce locked now later p db ≡ (ok state, db')
    → All (λ call. key_eq (target call) (lease_key p.authority) ≡ false) calls
    → lease_key a ≡ lease_key p.authority
    → locked_record a locked' (perform_all registry calls db')
      ≡ ok (q, perform_all registry calls db')
    → (q.session_revision ≡ p.expected_revision + 1)
      × (restore registry locked' a (perform_all registry calls db')
          ≡ (ok (restored q p.payload), perform_all registry calls db'))
restore-publish registry nonce receipt_nonce locked now later p db db' state calls a locked' q opens
      loads new answer others own held =
    let (r, row, done) =
      publish-Commits registry nonce receipt_nonce locked now later p db db' state new answer in
    let still = perform_all-IsUntouched registry calls db' (lease_key p.authority) others in
    let (_, found, _, _) =
      locked_record-found a locked' (perform_all registry calls db')
        (perform_all registry calls db') q held in
    let e : row ≡ q =
      one_row row q _ _ done.stored still.session
        (ap (λ k. select k (perform_all registry calls db').sessions) (sym own) ∙ found) in
    (
      ap (λ (x : SessionRegistryRecord). x.session_revision) (sym e ∙ done.written)
          ∙ ap (λ n. n + 1) (sym done.expected),
      restore-held registry locked' a q p.payload (perform_all registry calls db') held (
          ap (restore_payload registry) (sym e)
          ∙ Commits-payload registry nonce now p r row db db' opens loads done),
    )
