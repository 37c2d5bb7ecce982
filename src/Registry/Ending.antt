-- ===== src/Registry/Ending.antt =====
-- The calls that register, claim and close a session are moves of it.
use agnostic_market.Base.{
  ℕ, ◌≤◌, ◌≡◌, refl, sym, ap, subst, ◌∙◌, inl, inr, true, false, Option, none, some, arith, not,
  Bool-cases, Option-cases,
}
use agnostic_market.Text.{Text}
use agnostic_market.Registry.Types.{
  Duration, LeaseAdmissionReason, SessionCloseReason, lease_live, lifecycle_eq, is_open, closing,
  closed, opening, active, SessionLifecycle, SessionCloseRequest, SessionCloseAuthority,
  SessionLeaseAuthority, SessionRegistryRecord, is_identifier,
}
use agnostic_market.Registry.Database.{
  Key, session_key, select, Database, Outcome, ok, err, Transaction, ◌>>=◌, ◌>>◌, deleted,
}
use agnostic_market.Registry.Admission.{
  Registry, database_fault, returned, written, lease_duration, lease_key, close_key,
  lease_rejection, close_rejection, admitted, close_admitted,
}
use agnostic_market.Registry.Rotation.{inventory_fault}
use agnostic_market.Registry.Closing.{
  close_claim, every_row, taken, take_close_lease, is_replay, is_reclaim, begin_close_locked,
  begin_close, claim_expired_locked, claim_expired, prolonged, extend_close, refresh_close_locked,
  refresh_close, record_close_deletion_locked, record_close_checkpoint_deletion,
}
use agnostic_market.Registry.Finalizing.{
  tombstone, delete_rows, erase_session, finalize_locked, finalize_closing, finalize_close,
}
use agnostic_market.Registry.Progress.{
  rank, coherent, Advances, Moves, Moves-refl, IsMove, >>=-IsMove,
}
use agnostic_market.Registry.Rows.{select-key}
use agnostic_market.Registry.Statements.{
  load_generations-IsRead, raise_if-IsMove, from_outcome-IsMove, or_raise-IsMove, gets-IsMove,
  outcome-IsMove, pure-IsMove, read-IsMove, erase-Moves,
}
use agnostic_market.Registry.Locked.{
  in_transaction-Moves, update-then-IsMove, state-then-IsMove, locked_session-IsMove,
  locked_close_record-IsMove,
}
use agnostic_market.Registry.Rotating.{if-Moves}

-- Of a lifecycle that is not the last.
rank-open : (l : SessionLifecycle) → lifecycle_eq l closed ≡ false → rank l ≤ rank closing
unfolding rank lifecycle_eq
rank-open opening h = omega arith
rank-open active h = omega arith
rank-open closing h = omega arith
rank-open closed h = cc

rank-closed : (l : SessionLifecycle) → rank l ≤ rank closed
unfolding rank
rank-closed opening = omega arith
rank-closed active = omega arith
rank-closed closing = omega arith
rank-closed closed = omega arith

closed-last : rank closed ≡ 3
unfolding rank
closed-last = refl

tombstone-key :
    (now kept : ℕ) (row : SessionRegistryRecord)
    → session_key (tombstone now kept row) ≡ session_key row
unfolding tombstone
tombstone-key now kept row = refl

taken-coherent :
    (now lasts : ℕ) (request : SessionCloseRequest) (r row : SessionRegistryRecord)
    → coherent row ≡ true
    → coherent (taken now lasts request r row) ≡ true
unfolding coherent lifecycle_eq
taken-coherent now lasts request r row h = refl

tombstone-coherent :
    (now kept : ℕ) (row : SessionRegistryRecord)
    → coherent row ≡ true
    → coherent (tombstone now kept row) ≡ true
unfolding coherent lifecycle_eq tombstone
tombstone-coherent now kept row h = refl

tombstone-Advances :
    (now kept : ℕ) (row : SessionRegistryRecord) → Advances row (tombstone now kept row)
unfolding tombstone
tombstone-Advances now kept row = record {
  fence = omega arith;
  life = rank-closed row.lifecycle;
  revision = omega arith;
  principal = omega arith;
  holder = inr (inl closed-last);
  coherence = tombstone-coherent now kept row;
  operation = inr refl;
}

reclaim-open :
    (now : ℕ) (request : SessionCloseRequest) (r : SessionRegistryRecord)
    → is_reclaim now request r ≡ true
    → lifecycle_eq r.lifecycle closed ≡ false
unfolding is_reclaim lifecycle_eq
reclaim-open now request r h = ground (arith, h)

admitted-open :
    (r : SessionRegistryRecord) (a : SessionLeaseAuthority) (now : ℕ)
    → lease_rejection r a now ≡ none
    → lifecycle_eq r.lifecycle closed ≡ false
unfolding lease_rejection is_open lifecycle_eq
admitted-open r a now h = ground (arith, h)

closing-open :
    (l : SessionLifecycle) → not (lifecycle_eq l closing) ≡ false → lifecycle_eq l closed ≡ false
unfolding lifecycle_eq
closing-open l h = ground (arith, h)

module _ (k : Key) {A : Type 0} where
  admitted-IsMove :
      (reason : Option LeaseAdmissionReason) (f : Transaction A) (db : Database)
      → (reason ≡ none → IsMove k f db)
      → IsMove k (admitted reason >> f) db
  unfolding ◌>>=◌
  admitted-IsMove none f db rest a db' answer = rest refl a db' answer
  admitted-IsMove (some reason) f db rest a db' answer = cc

  close_admitted-IsMove :
      (reason : Option SessionCloseReason) (f : Transaction A) (db : Database)
      → (reason ≡ none → IsMove k f db)
      → IsMove k (close_admitted reason >> f) db
  unfolding ◌>>=◌
  close_admitted-IsMove none f db rest a db' answer = rest refl a db' answer
  close_admitted-IsMove (some reason) f db rest a db' answer = cc

module _ (k : Key) (registry : Registry) where
  close_claim-IsMove :
      (r : SessionRegistryRecord) (db : Database) → IsMove k (close_claim registry r) db
  unfolding close_claim
  close_claim-IsMove r db = from_outcome-IsMove k _ _ db (λ authority _.
      read-IsMove k _ _ db (load_generations-IsRead registry false r)
        (λ gs _. raise_if-IsMove k _ _ _ db (λ _. pure-IsMove k _ db)))

  take_close_lease-IsMove :
      (now : ℕ) (request : SessionCloseRequest) (r : SessionRegistryRecord) (db : Database)
      → select k db.sessions ≡ some r
      → lifecycle_eq r.lifecycle closed ≡ false
      → IsMove k (take_close_lease now request r) db
  unfolding take_close_lease
  take_close_lease-IsMove now request r db found before = raise_if-IsMove k _ _ _ db (λ _.
      from_outcome-IsMove k _ _ db (λ lasts _.
        update-then-IsMove k (session_key r) (select-key k db.sessions r found) db every_row
          (taken now lasts request r) _
          (λ row there _. (refl, stepped lasts row (ground (arith, there, found))))
          (λ changed db'. or_raise-IsMove k _ _ _ db' (λ row _. outcome-IsMove k _ db'))))
    where
      stepped :
          (lasts : ℕ) (row : SessionRegistryRecord)
          → row ≡ r
          → Advances row (taken now lasts request r row)
      stepped lasts row same = record {
        fence = omega arith;
        life =
            rank-open row.lifecycle
              (ap (λ (x : SessionRegistryRecord). lifecycle_eq x.lifecycle closed) same ∙ before);
        revision = omega arith;
        principal = omega arith;
        holder = inl (omega arith);
        coherence = taken-coherent now lasts request r row;
        operation = elim (Option-cases r.close_operation_id) [
          | inl missing ↦
              inl (ap (λ (x : SessionRegistryRecord). x.close_operation_id) same ∙ missing)
          | inr (o, held) ↦
              inr (
                ground (arith, held, ap (λ (x : SessionRegistryRecord). x.close_operation_id) same))
        ];
      }

  begin_close_locked-IsMove :
      (now : ℕ) (a : SessionLeaseAuthority) (request : SessionCloseRequest)
      (r : SessionRegistryRecord) (db : Database)
      → select k db.sessions ≡ some r
      → IsMove k (begin_close_locked now a request r) db
  unfolding begin_close_locked
  begin_close_locked-IsMove now a request r db found = elim (Bool-cases (is_replay now request r)) [
    | inl again ↦ rw again (pure-IsMove k r db)
    | inr first ↦ elim (Bool-cases (is_reclaim now request r)) [
      | inl ran_out ↦
          rw (first, ran_out)
            (take_close_lease-IsMove now request r db found (reclaim-open now request r ran_out))
      | inr fresh ↦
          rw (first, fresh)
            (raise_if-IsMove k _ _ _ db (λ _.
              admitted-IsMove k (lease_rejection r a now) _ db (λ admits.
                take_close_lease-IsMove now request r db found (admitted-open r a now admits))))
    ]
  ]

  claim_expired_locked-IsMove :
      (now : ℕ) (request : SessionCloseRequest) (r : SessionRegistryRecord) (db : Database)
      → select k db.sessions ≡ some r
      → IsMove k (claim_expired_locked now request r) db
  unfolding claim_expired_locked
  claim_expired_locked-IsMove now request r db found = raise_if-IsMove k _ _ _ db (λ before.
      raise_if-IsMove k _ _ _ db (λ _. take_close_lease-IsMove now request r db found before))

  extend_close-IsMove :
      (now lasts : ℕ) (r : SessionRegistryRecord) (db : Database)
      → session_key r ≡ k
      → IsMove k (extend_close now lasts r) db
  unfolding extend_close coherent
  extend_close-IsMove now lasts r db own =
      update-then-IsMove k (session_key r) own db every_row (prolonged now lasts) _
        (λ row there _. (
          refl,
          record {
            fence = omega arith;
            life = omega arith;
            revision = omega arith;
            principal = omega arith;
            holder = inr (inr refl);
            coherence = λ h. h;
            operation = inr refl;
          },
        ))
        (λ changed db'. or_raise-IsMove k _ _ _ db' (λ row _. outcome-IsMove k _ db'))

  refresh_close_locked-IsMove :
      (now lasts : ℕ) (a : SessionCloseAuthority) (duration : Duration) (r : SessionRegistryRecord)
      (db : Database)
      → select k db.sessions ≡ some r
      → IsMove k (refresh_close_locked now lasts a duration r) db
  unfolding refresh_close_locked
  refresh_close_locked-IsMove now lasts a duration r db found =
      raise_if-IsMove k _ _ _ db (λ before. raise_if-IsMove k _ _ _ db (λ _.
        elim (Bool-cases (lease_live r.lease_expires_at now)) [
          | inl live ↦ rw live (
              raise_if-IsMove k _ _ _ db
                (λ _. extend_close-IsMove now lasts r db (select-key k db.sessions r found)))
          | inr over ↦
              rw over (take_close_lease-IsMove now _ r db found (closing-open r.lifecycle before))
        ]))

  record_close_deletion_locked-IsMove :
      (namespace : Text) (r : SessionRegistryRecord) (db : Database)
      → session_key r ≡ k
      → IsMove k (record_close_deletion_locked registry namespace r) db
  unfolding record_close_deletion_locked
  record_close_deletion_locked-IsMove namespace r db own =
      state-then-IsMove k (session_key r) own db namespace none deleted _ (λ changed db' _.
        or_raise-IsMove k _ _ _ db'
          (λ row _. raise_if-IsMove k _ _ _ db' (λ _. pure-IsMove k _ db')))

  delete_rows-IsMove : (db : Database) → IsMove k (delete_rows k) db
  unfolding delete_rows
  delete_rows-IsMove db u db' answer =
      subst (Moves k db) (ground (arith, answer)) (erase-Moves k db)

  erase_session-IsMove :
      (now kept : ℕ) (r : SessionRegistryRecord) (db : Database)
      → session_key r ≡ k
      → IsMove k (erase_session now kept r) db
  unfolding erase_session
  erase_session-IsMove now kept r db own =
      >>=-IsMove k (delete_rows (session_key r)) _ db
        (subst (λ j. IsMove k (delete_rows j) db) (sym own) (delete_rows-IsMove db))
        (λ done db₁ _.
          update-then-IsMove k (session_key r) own db₁ every_row (tombstone now kept) _
            (λ row there _. (tombstone-key now kept row, tombstone-Advances now kept row))
            (λ changed db₂. or_raise-IsMove k _ _ _ db₂ (λ row _. pure-IsMove k (written row) db₂)))

  finalize_locked-IsMove :
      (now kept : ℕ) (a : SessionCloseAuthority) (r : SessionRegistryRecord) (db : Database)
      → session_key r ≡ k
      → IsMove k (finalize_locked registry now kept a r) db
  unfolding finalize_locked finalize_closing
  finalize_locked-IsMove now kept a r db own = elim (Bool-cases (lifecycle_eq r.lifecycle closed)) [
    | inl done ↦ rw done (raise_if-IsMove k _ _ _ db (λ _. pure-IsMove k (returned r) db))
    | inr before ↦ rw before (
        close_admitted-IsMove k (close_rejection r a now) _ db (λ _.
          read-IsMove k _ _ db (load_generations-IsRead registry false r) (λ gs _.
            raise_if-IsMove k _ _ _ db (λ _.
              gets-IsMove k _ _ db
                (raise_if-IsMove k _ _ _ db (λ _. erase_session-IsMove now kept r db own))))))
  ]

pub begin_close-Moves :
    (registry : Registry) (locked : ℕ) (a : SessionLeaseAuthority) (request : SessionCloseRequest)
    (db : Database)
    → Moves (lease_key a) db (begin_close registry locked a request db).1
unfolding begin_close
begin_close-Moves registry locked a request db =
    in_transaction-Moves (lease_key a) database_fault _ db (
      locked_session-IsMove db (lease_key a) _ (λ r found _.
        >>=-IsMove (lease_key a) (begin_close_locked locked a request r) _ db
          (begin_close_locked-IsMove (lease_key a) registry locked a request r db found)
          (λ claimed db' _. close_claim-IsMove (lease_key a) registry claimed db')))

pub claim_expired-Moves :
    (registry : Registry) (locked : ℕ) (k : Key) (request : SessionCloseRequest) (db : Database)
    → Moves k db (claim_expired registry locked k request db).1
unfolding claim_expired
claim_expired-Moves registry locked k request db = in_transaction-Moves k database_fault _ db (
    locked_session-IsMove db k _ (λ r found _.
      >>=-IsMove k (claim_expired_locked locked request r) _ db
        (claim_expired_locked-IsMove k registry locked request r db found)
        (λ claimed db' _. close_claim-IsMove k registry claimed db')))

module _ (registry : Registry) (locked : ℕ) (a : SessionCloseAuthority) (db : Database) where
  pub refresh_close-Moves :
      (duration : Duration) → Moves (close_key a) db (refresh_close registry locked a duration db).1
  unfolding refresh_close
  refresh_close-Moves duration = go (lease_duration duration) refl
    where
      go :
          (o : Outcome ℕ)
          → lease_duration duration ≡ o
          → Moves (close_key a) db (refresh_close registry locked a duration db).1
      go (err e) bad = rw (bad, refresh_close) (Moves-refl (close_key a) db)
      go (ok lasts) good =
          rw (good, refresh_close)
            (in_transaction-Moves (close_key a) database_fault _ db (
              locked_session-IsMove db (close_key a) _ (λ r found _.
                >>=-IsMove (close_key a) (refresh_close_locked locked lasts a duration r) _ db
                  (refresh_close_locked-IsMove (close_key a) registry locked lasts a duration r db
                    found)
                  (λ claimed db' _. close_claim-IsMove (close_key a) registry claimed db'))))

  pub record_close_checkpoint_deletion-Moves :
      (namespace : Text)
      → Moves (close_key a) db (record_close_checkpoint_deletion registry locked a namespace db).1
  unfolding record_close_checkpoint_deletion
  record_close_checkpoint_deletion-Moves namespace =
      if-Moves (close_key a) (is_identifier namespace) _ _ db (
        in_transaction-Moves (close_key a) inventory_fault _ db (
          locked_close_record-IsMove db a locked _ (λ r found _.
            record_close_deletion_locked-IsMove (close_key a) registry namespace r db
              (select-key (close_key a) db.sessions r found))))

  pub finalize_close-Moves :
      (retention : Duration)
      → Moves (close_key a) db (finalize_close registry locked a retention db).1
  unfolding finalize_close
  finalize_close-Moves retention = go (lease_duration retention) refl
    where
      go :
          (o : Outcome ℕ)
          → lease_duration retention ≡ o
          → Moves (close_key a) db (finalize_close registry locked a retention db).1
      go (err e) bad = rw (bad, finalize_close) (Moves-refl (close_key a) db)
      go (ok kept) good =
          rw (good, finalize_close)
            (in_transaction-Moves (close_key a) database_fault _ db (
              locked_session-IsMove db (close_key a) _ (λ r found _.
                finalize_locked-IsMove (close_key a) registry locked kept a r db
                  (select-key (close_key a) db.sessions r found))))
