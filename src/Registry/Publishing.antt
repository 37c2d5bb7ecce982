-- ===== src/Registry/Publishing.antt =====
-- What a publication that is no replay leaves in the tables.
use agnostic_market.Base.{
  ℕ, ◌+◌, ◌≡◌, refl, sym, ap, subst, ◌∙◌, inl, inr, false, ◌==◌, Option, none, some, arith, not,
}
use agnostic_market.Text.{Text}
use agnostic_market.Encryption.{SessionEnvelope}
use agnostic_market.Registry.Types.{SessionRegistryRecord}
use agnostic_market.Registry.Database.{
  Key, select, replace, Database, OperationRow, Outcome, ok, err,
}
use agnostic_market.Registry.Admission.{Registry, lease_key, database_fault}
use agnostic_market.Registry.Envelopes.{projection_context, seal_payload}
use agnostic_market.Registry.Publication.{
  RestoredSessionState, SessionStatePublication, find_operation, insert_operation, Published,
  commits, file_receipt, publishes, published, commit_publication, answer_publication,
  publish_locked, read_published, publish,
}
use agnostic_market.Registry.Rows.{select-key, select-replace_self}
use agnostic_market.Registry.Statements.{update_session-result}
use agnostic_market.Registry.Locked.{locked_record-found}
use agnostic_market.Registry.Inversion.{
  >>=-ok, raise_if-ok, from_outcome-ok, gets-ok, in_transaction-ok,
}
use agnostic_market.Registry.Leases.{expired_meanwhile}

insert_operation-sessions :
    (new : OperationRow) (db db' : Database) (u : Unit {0})
    → insert_operation new db ≡ ok (u, db')
    → db'.sessions ≡ db.sessions
unfolding insert_operation
insert_operation-sessions new db db' u answer = ground (arith, answer)

committed_sessions :
    (row : SessionRegistryRecord) (x : Published) (db d db' : Database)
    → d.sessions ≡ db.sessions
    → ◌≡◌ {A = Outcome (Published × Database)} (ok (commits row, d)) (ok (x, db'))
    → db'.sessions ≡ db.sessions
committed_sessions row x db d db' kept answered = ground (arith, kept, answered)

file_receipt-result :
    (p : SessionStatePublication) (r : SessionRegistryRecord) (next : ℕ) (result : SessionEnvelope)
    (later : ℕ) (changed : Option SessionRegistryRecord) (db db' : Database) (x : Published)
    → file_receipt p r next result later changed db ≡ ok (x, db')
    → (row : SessionRegistryRecord) × (changed ≡ some row)
      × (x ≡ commits row)
      × (db'.sessions ≡ db.sessions)
unfolding file_receipt expired_meanwhile
file_receipt-result p r next result later none db db' x answer = ground (arith, answer)
file_receipt-result p r next result later (some row) db db' x answer =
    let (u, d, filed, answered) = >>=-ok x db db' _ _ answer in
    let kept = insert_operation-sessions _ db d u filed in
    (row, refl, ground (arith, answered), committed_sessions row x db d db' kept answered)

-- What a publication that is not a replay wrote.
pub record Commits (registry : Registry) (nonce : Text) (now : ℕ) (p : SessionStatePublication)
    (r row : SessionRegistryRecord) (db db' : Database) : Type 0 where
  pub expected : p.expected_revision ≡ r.session_revision
  pub envelope : SessionEnvelope
  pub sealed :
      seal_payload registry nonce p.payload (
        projection_context r.tenant_id r.authority.logical_session_id r.checkpoint_namespace
          (r.session_revision + 1))
      ≡ ok envelope
  pub written : row ≡ published (r.session_revision + 1) envelope now r
  pub stored : select (lease_key p.authority) db'.sessions ≡ some row

unequal : (m n : ℕ) → not (m == n) ≡ false → m ≡ n
unequal m n h = ground (arith, h)

commit-stored :
    (k : Key) (now next : ℕ) (envelope : SessionEnvelope) (r q row : SessionRegistryRecord)
    (db db₁ db' : Database) (changed : Option SessionRegistryRecord)
    → select k db.sessions ≡ some r
    → select k db.sessions ≡ some q
    → changed ≡ some (published next envelope now q)
    → db₁ ≡ record db { sessions = replace k (published next envelope now q) db.sessions }
    → changed ≡ some row
    → db'.sessions ≡ db₁.sessions
    → (row ≡ published next envelope now r) × (select k db'.sessions ≡ some row)
commit-stored k now next envelope r q row db db₁ db' changed found held answered written there
      kept =
    let e : q ≡ r = ground (arith, found, held) in
    let f : row ≡ published next envelope now q = ground (arith, there, answered) in
    (
      f ∙ ap (published next envelope now) e,
      ap (select k) (kept ∙ ap (λ (d : Database). d.sessions) written)
          ∙ select-replace_self k (published next envelope now q) q db.sessions
              (select-key k db.sessions q held) held
          ∙ ap some (sym f),
    )

commit_publication-Commits :
    (registry : Registry) (nonce receipt_nonce : Text) (now later : ℕ) (p : SessionStatePublication)
    (r : SessionRegistryRecord) (db db' : Database) (x : Published)
    → select (lease_key p.authority) db.sessions ≡ some r
    → commit_publication registry nonce receipt_nonce now later p r db ≡ ok (x, db')
    → (row : SessionRegistryRecord) × (x ≡ commits row) × Commits registry nonce now p r row db db'
unfolding commit_publication
commit_publication-Commits registry nonce receipt_nonce now later p r db db' x found answer =
    let (fresh, a₁) = raise_if-ok x db db' _ _ _ answer in
    let (envelope, sealed, a₂) = from_outcome-ok x db db' _ _ a₁ in
    let (result, _, a₃) = from_outcome-ok x db db' _ _ a₂ in
    let (changed, db₁, wrote, a₄) = >>=-ok x db db' _ _ a₃ in
    let (row, there, e, kept) =
      file_receipt-result p r (r.session_revision + 1) result later changed db₁ db' x a₄ in
    elim (update_session-result (lease_key p.authority) (publishes p now)
      (published (r.session_revision + 1) envelope now) db db₁ changed wrote) [
        | inl (nothing, _) ↦ ground (arith, there, nothing)
        | inr (q, held, _, answered, _, written) ↦
            let (is, stored) =
              commit-stored (lease_key p.authority) now (r.session_revision + 1) envelope r q row db
                db₁ db' changed found held answered written there kept in
            (
              row,
              e,
              record {
                expected = unequal p.expected_revision r.session_revision fresh;
                envelope = envelope;
                sealed = sealed;
                written = is;
                stored = stored;
              },
            )
      ]

publish_locked-Commits :
    (registry : Registry) (nonce receipt_nonce : Text) (now later : ℕ) (p : SessionStatePublication)
    (r : SessionRegistryRecord) (db db' : Database) (x : Published)
    → select (lease_key p.authority) db.sessions ≡ some r
    → find_operation (lease_key p.authority) p.operation_id db.operations ≡ none
    → publish_locked registry nonce receipt_nonce now later p r db ≡ ok (x, db')
    → (row : SessionRegistryRecord) × (x ≡ commits row) × Commits registry nonce now p r row db db'
unfolding publish_locked answer_publication
publish_locked-Commits registry nonce receipt_nonce now later p r db db' x found new answer =
    let (_, a₁) = raise_if-ok x db db' _ _ _ answer in
    let a₂ = gets-ok x db db' _ _ a₁ in
    let (_, a₃) = raise_if-ok x db db' _ _ _ a₂ in
    let a₄ = gets-ok x db db' _ _ a₃ in
    commit_publication-Commits registry nonce receipt_nonce now later p r db db' x found (
      subst (λ o. answer_publication registry nonce receipt_nonce now later p r o db ≡ ok (x, db'))
        new a₄)

read_published-ok :
    (p : SessionStatePublication) (o : Outcome Published) (state : RestoredSessionState)
    → read_published p o ≡ ok state
    → (x : Published) × (o ≡ ok x)
unfolding read_published
read_published-ok p (ok x) state answer = (x, refl)
read_published-ok p (err e) state answer = cc

pub publish-Commits :
    (registry : Registry) (nonce receipt_nonce : Text) (locked now later : ℕ)
    (p : SessionStatePublication) (db db' : Database) (state : RestoredSessionState)
    → find_operation (lease_key p.authority) p.operation_id db.operations ≡ none
    → publish registry nonce receipt_nonce locked now later p db ≡ (ok state, db')
    → (r : SessionRegistryRecord) × (row : SessionRegistryRecord) × Commits registry nonce now p r
        row db db'
unfolding publish
publish-Commits registry nonce receipt_nonce locked now later p db db' state new answer =
    let (x, there) = read_published-ok p _ state (λ i. (answer i).0) in
    let ran = in_transaction-ok x db db' database_fault _ (λ i. (there i, (answer i).1)) in
    let (r, db₁, held, rest) = >>=-ok x db db' _ _ ran in
    let (same, found, _, _) = locked_record-found p.authority locked db db₁ r held in
    let (row, _, done) =
      publish_locked-Commits registry nonce receipt_nonce now later p r db db' x found new (
        subst (λ d. publish_locked registry nonce receipt_nonce now later p r d ≡ ok (x, db')) same
          rest) in
    (r, row, done)
