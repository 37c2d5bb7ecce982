-- ===== src/Registry/Holding.antt =====
-- The calls of a session's holder are moves of that session: the leases and the publications.
use agnostic_market.Base.{
  ℕ, ◌+◌, ◌≤◌, ◌≡◌, refl, inl, inr, true, false, Option, none, some, arith, not, ◌==◌, Bool-cases,
}
use agnostic_market.Text.{Text}
use agnostic_market.Encryption.{SessionEnvelope}
use agnostic_market.Registry.Types.{
  Duration, SessionLifecycle, opening, active, closing, closed, lifecycle_eq, SessionLeaseAuthority,
  SessionRegistryRecord,
}
use agnostic_market.Registry.Database.{Key, Database, OperationRow, Transaction, pure, ◌>>=◌}
use agnostic_market.Registry.Admission.{
  Registry, database_fault, returned, written, lease_duration, lease_key,
}
use agnostic_market.Registry.Leases.{
  expired_meanwhile, reply_of, holds, activates, activated, renewed, activate_row, activate,
  renew_row, renew, renewal_fault,
}
use agnostic_market.Registry.Publication.{
  SessionStatePublication, commit_publication, insert_operation, publish_locked, publish,
  file_receipt, publishes, published, answer_publication, replays, commits,
}
use agnostic_market.Registry.Progress.{rank, coherent, Advances, Moves, IsMove, >>=-IsMove}
use agnostic_market.Registry.Statements.{
  raise_if-IsMove, from_outcome-IsMove, gets-IsMove, pure-IsMove, insert_operation-IsMove,
}
use agnostic_market.Registry.Locked.{in_transaction-Moves, update-then-IsMove, locked_record-IsMove}

expired_meanwhile-IsMove :
    {A : Type 0} (k : Key) (r : SessionRegistryRecord) (now : ℕ) (db : Database)
    → IsMove k (expired_meanwhile {A = A} r now) db
unfolding expired_meanwhile
expired_meanwhile-IsMove k r now db a db' answer = cc

reply_of-IsMove :
    (k : Key) (r : SessionRegistryRecord) (later : ℕ) (changed : Option SessionRegistryRecord)
    (db : Database)
    → IsMove k (reply_of r later changed) db
unfolding reply_of
reply_of-IsMove k r later (some row) db = pure-IsMove k (written row) db
reply_of-IsMove k r later none db = expired_meanwhile-IsMove k r later db

-- The holder changes a row, and stays its holder.
stays :
    (row new : SessionRegistryRecord)
    → new.fencing_generation ≡ row.fencing_generation
    → new.lease_owner_id ≡ row.lease_owner_id
    → new.close_operation_id ≡ row.close_operation_id
    → new.principal_generation ≡ row.principal_generation
    → rank row.lifecycle ≤ rank new.lifecycle
    → row.session_revision ≤ new.session_revision
    → (coherent row ≡ true → coherent new ≡ true)
    → Advances row new
stays row new fence owner operation principal life revision coherence = record {
  fence = omega arith;
  life = life;
  revision = revision;
  principal = omega arith;
  holder = inr (inr owner);
  coherence = coherence;
  operation = inr operation;
}

rank-opening : (l m : SessionLifecycle) → lifecycle_eq l opening ≡ true → rank l ≤ rank m
unfolding rank lifecycle_eq
rank-opening opening m h = omega arith
rank-opening active m h = cc
rank-opening closing m h = cc
rank-opening closed m h = cc

activated-coherent :
    (now : ℕ) (row : SessionRegistryRecord)
    → lifecycle_eq row.lifecycle opening ≡ true
    → coherent row ≡ true
    → coherent (activated now row) ≡ true
unfolding coherent lifecycle_eq
activated-coherent now row h k = ground (arith, h, k)

module _ (a : SessionLeaseAuthority) (now later : ℕ) (db : Database) where
  activate_row-IsMove :
      (r : SessionRegistryRecord) → IsMove (lease_key a) (activate_row a now later r) db
  unfolding activate_row
  activate_row-IsMove r = elim (Bool-cases (lifecycle_eq r.lifecycle active)) [
    | inl already ↦ rw already (pure-IsMove (lease_key a) (returned r) db)
    | inr before ↦ rw before (
        update-then-IsMove (lease_key a) (lease_key a) refl db (activates a now) (activated now)
          (reply_of r later)
          (λ row found passed. (
            refl,
            stays row (activated now row) refl refl refl refl
                (rank-opening row.lifecycle active (ground (arith, passed))) (omega arith)
                (activated-coherent now row (ground (arith, passed))),
          ))
          (reply_of-IsMove (lease_key a) r later))
  ]

  renew_row-IsMove :
      (lasts : ℕ) (r : SessionRegistryRecord)
      → IsMove (lease_key a) (renew_row a lasts now later r) db
  unfolding renew_row coherent
  renew_row-IsMove lasts r =
      update-then-IsMove (lease_key a) (lease_key a) refl db (holds a now) (renewed lasts now)
        (reply_of r later)
        (λ row found passed. (
          refl,
          stays row (renewed lasts now row) refl refl refl refl (omega arith) (omega arith)
              (λ h. h),
        ))
        (reply_of-IsMove (lease_key a) r later)

pub activate-Moves :
    (locked now later : ℕ) (a : SessionLeaseAuthority) (db : Database)
    → Moves (lease_key a) db (activate locked now later a db).1
unfolding activate
activate-Moves locked now later a db =
    in_transaction-Moves (lease_key a) database_fault _ db
      (locked_record-IsMove db a locked _ (λ r found admits. activate_row-IsMove a now later db r))

pub renew-Moves :
    (locked now later : ℕ) (a : SessionLeaseAuthority) (duration : Duration) (db : Database)
    → Moves (lease_key a) db (renew locked now later a duration db).1
unfolding renew
renew-Moves locked now later a duration db = in_transaction-Moves (lease_key a) renewal_fault _ db (
    from_outcome-IsMove (lease_key a) (lease_duration duration) _ db (λ lasts _.
      locked_record-IsMove db a locked _
        (λ r found admits. renew_row-IsMove a now later db lasts r)))

-- Of a row under a test that names its revision.
expects : (n m : ℕ) → not (n == m) ≡ false → n ≡ m
expects n m h = ground (arith, h)

insert-then-IsMove :
    {A : Type 0} (k : Key) (new : OperationRow) (f : Unit {0} → Transaction A) (db : Database)
    → new.key ≡ k
    → ((db' : Database) → IsMove k (f tt) db')
    → IsMove k (insert_operation new >>= f) db
insert-then-IsMove k new f db own rest =
    >>=-IsMove k (insert_operation new) f db (insert_operation-IsMove k db new own)
      (λ done db' _. rest db')

module _ (registry : Registry) (p : SessionStatePublication) (now later : ℕ) where
  file_receipt-IsMove :
      (r : SessionRegistryRecord) (next : ℕ) (result : SessionEnvelope)
      (changed : Option SessionRegistryRecord) (db : Database)
      → IsMove (lease_key p.authority) (file_receipt p r next result later changed) db
  unfolding file_receipt
  file_receipt-IsMove r next result none db =
      expired_meanwhile-IsMove (lease_key p.authority) r later db
  file_receipt-IsMove r next result (some row) db =
      insert-then-IsMove (lease_key p.authority) _ (λ _. pure (commits row)) db refl
        (λ db'. pure-IsMove (lease_key p.authority) (commits row) db')

  commit_publication-IsMove :
      (nonce receipt_nonce : Text) (r : SessionRegistryRecord) (db : Database)
      → IsMove
          (lease_key p.authority)
          (commit_publication registry nonce receipt_nonce now later p r)
          db
  unfolding commit_publication coherent
  commit_publication-IsMove nonce receipt_nonce r db =
      raise_if-IsMove (lease_key p.authority) _ _ _ db (λ current.
        from_outcome-IsMove (lease_key p.authority) _ _ db (λ envelope _.
          from_outcome-IsMove (lease_key p.authority) _ _ db (λ result _.
            update-then-IsMove (lease_key p.authority) (lease_key p.authority) refl db
              (publishes p now) (published (r.session_revision + 1) envelope now)
              (file_receipt p r (r.session_revision + 1) result later)
              (λ row found passed. (
                refl,
                stays row (published (r.session_revision + 1) envelope now row) refl refl refl refl
                    (omega arith)
                    (ground (arith, expects p.expected_revision r.session_revision current, passed))
                    (λ h. h),
              ))
              (file_receipt-IsMove r (r.session_revision + 1) result))))

  answer_publication-IsMove :
      (nonce receipt_nonce : Text) (r : SessionRegistryRecord) (receipt : Option OperationRow)
      (db : Database)
      → IsMove
          (lease_key p.authority)
          (answer_publication registry nonce receipt_nonce now later p r receipt)
          db
  unfolding answer_publication
  answer_publication-IsMove nonce receipt_nonce r (some row) db =
      from_outcome-IsMove (lease_key p.authority) _ _ db
        (λ state _. pure-IsMove (lease_key p.authority) (replays state) db)
  answer_publication-IsMove nonce receipt_nonce r none db =
      commit_publication-IsMove nonce receipt_nonce r db

  publish_locked-IsMove :
      (nonce receipt_nonce : Text) (r : SessionRegistryRecord) (db : Database)
      → IsMove
          (lease_key p.authority)
          (publish_locked registry nonce receipt_nonce now later p r)
          db
  unfolding publish_locked
  publish_locked-IsMove nonce receipt_nonce r db =
      raise_if-IsMove (lease_key p.authority) _ _ _ db (λ _.
        gets-IsMove (lease_key p.authority) _ _ db (
          raise_if-IsMove (lease_key p.authority) _ _ _ db (λ _.
            gets-IsMove (lease_key p.authority) _ _ db
              (answer_publication-IsMove nonce receipt_nonce r _ db))))

  pub publish-Moves :
      (nonce receipt_nonce : Text) (locked : ℕ) (db : Database)
      → Moves
          (lease_key p.authority)
          db
          (publish registry nonce receipt_nonce locked now later p db).1
  unfolding publish
  publish-Moves nonce receipt_nonce locked db =
      in_transaction-Moves (lease_key p.authority) database_fault _ db (
        locked_record-IsMove db p.authority locked _
          (λ r found admits. publish_locked-IsMove nonce receipt_nonce r db))
