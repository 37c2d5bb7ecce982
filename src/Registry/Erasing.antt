-- ===== src/Registry/Erasing.antt =====
-- When a close may be finalized, and what is left of the session then.
use agnostic_market.Base.{
  ℕ, ◌≡◌, refl, sym, ap, subst, ◌∙◌, inl, inr, true, false, none, some, [], all, any, null, ◌+◌,
  arith,
}
use agnostic_market.Text.{Text, text_eq}
use agnostic_market.Registry.Types.{
  Duration, SessionCloseAuthority, SessionRegistryRecord, closed, lifecycle_eq,
}
use agnostic_market.Registry.Database.{
  Key, key_eq, session_key, select, Database, deleted, state_eq, Outcome, ok, err, ◌>>=◌,
}
use agnostic_market.Registry.Generations.{rows_of}
use agnostic_market.Registry.Admission.{
  Registry, Reply, written, in_transaction, database_fault, read_reply, lease_duration,
  locked_session, close_key, close_rejection,
}
use agnostic_market.Registry.Publication.{find_operation}
use agnostic_market.Registry.Finalizing.{
  has_leftovers, tombstone, erase_session, finalize_closing, finalize_locked, finalize_close,
}
use agnostic_market.Registry.Rows.{Outcome-cases, select-key}
use agnostic_market.Registry.Statements.{locked_session-found}
use agnostic_market.Registry.Inversion.{>>=-ok, raise_if-ok, gets-ok, in_transaction-ok}
use agnostic_market.Registry.Erased.{
  rows_of-erased, find_operation-erased, load_generations-result, close_admitted-ok, complete,
  inhabited, erase_session-result,
}
use agnostic_market.Registry.Taking.{row_of_ok}
use agnostic_market.Registry.Held.{HoldsClose, close_rejection-HoldsClose, has_leftovers-none}

-- What a finalization of an open close stands on and leaves.
pub record Erases (k : Key) (now : ℕ) (a : SessionCloseAuthority) (q r : SessionRegistryRecord)
    (db db' : Database) : Type 0 where
  pub admitted : close_rejection q a now ≡ none
  pub held : HoldsClose q a now
  pub some_generation : null (rows_of k db.generations) ≡ false
  pub deleted_all : all (λ g. state_eq g.state deleted) (rows_of k db.generations) ≡ true
  pub no_checkpoint :
      any
        (λ thread. any (λ g. text_eq g.storage_thread_id thread) (rows_of k db.generations))
        db.checkpoint_rows
      ≡ false
  pub no_manifest : any (λ m. key_eq m k) db.write_manifests ≡ false
  pub kept : ℕ
  pub stone : r ≡ tombstone now kept q
  pub over : r.lifecycle ≡ closed
  pub unowned : (r.lease_owner_id ≡ none) × (r.lease_expires_at ≡ none)
  pub no_content : r.envelope ≡ none
  pub retained : r.expires_at ≡ now + kept
  pub same_fence : r.fencing_generation ≡ q.fencing_generation
  pub stored : select k db'.sessions ≡ some r
  pub no_generation : rows_of k db'.generations ≡ []
  pub no_receipt : (operation : Text) → find_operation k operation db'.operations ≡ none

finalize_closing-Erases :
    (registry : Registry) (now kept : ℕ) (a : SessionCloseAuthority) (q : SessionRegistryRecord)
    (db db' : Database) (reply : Reply)
    → select (session_key q) db.sessions ≡ some q
    → finalize_closing registry now kept a q db ≡ ok (reply, db')
    → (reply ≡ written (tombstone now kept q))
      × Erases (session_key q) now a q (tombstone now kept q) db db'
unfolding finalize_closing tombstone
finalize_closing-Erases registry now kept a q db db' reply found answer =
    let (held, a₁) = close_admitted-ok reply db db' (close_rejection q a now) _ answer in
    let (generations, d, loaded, a₂) = >>=-ok reply db db' _ _ a₁ in
    let (inventory, same) = load_generations-result registry q db d generations loaded in
    let (over, a₃) = raise_if-ok reply d db' _ _ _ a₂ in
    let a₄ = gets-ok reply d db' _ _ a₃ in
    let (clean, a₅) = raise_if-ok reply d db' _ _ _ a₄ in
    let (replied, stored, none_left, no_receipts) =
      erase_session-result now kept q db db' reply found
        (subst (λ x. erase_session now kept q x ≡ ok (reply, db')) same a₅) in
    let (no_checkpoint, no_manifest) =
      has_leftovers-none registry.digest q (session_key q) (rows_of (session_key q) db.generations)
        db ((λ i. has_leftovers (session_key q) (sym inventory i) (sym same i)) ∙ clean) in
    (
      replied,
      record {
        admitted = held;
        held = close_rejection-HoldsClose q a now held;
        some_generation =
            inhabited registry.digest q (rows_of (session_key q) db.generations) generations
              inventory over;
        deleted_all =
            complete registry.digest q (rows_of (session_key q) db.generations) generations
              inventory over;
        no_checkpoint = no_checkpoint;
        no_manifest = no_manifest;
        kept = kept;
        stone = refl;
        over = refl;
        unowned = (refl, refl);
        no_content = refl;
        retained = refl;
        same_fence = refl;
        stored = stored;
        no_generation = ap (rows_of (session_key q)) none_left ∙ rows_of-erased _ db.generations;
        no_receipt = λ operation.
            ap (find_operation (session_key q) operation) no_receipts
            ∙ find_operation-erased _ operation db.operations;
      },
    )

finalize_locked-unclosed :
    (registry : Registry) (now kept : ℕ) (a : SessionCloseAuthority) (q : SessionRegistryRecord)
    (db : Database)
    → lifecycle_eq q.lifecycle closed ≡ false
    → finalize_locked registry now kept a q db ≡ finalize_closing registry now kept a q db
unfolding finalize_locked
finalize_locked-unclosed registry now kept a q db before = rw before refl

read_reply-ok :
    (o : Outcome Reply) (r : SessionRegistryRecord)
    → read_reply o ≡ ok r
    → (reply : Reply) × (o ≡ ok reply)
unfolding read_reply
read_reply-ok (ok reply) r answer = (reply, refl)
read_reply-ok (err e) r answer = cc

read_written :
    (o : Outcome Reply) (reply : Reply) (row r : SessionRegistryRecord)
    → read_reply o ≡ ok r
    → o ≡ ok reply
    → reply ≡ written row
    → r ≡ row
unfolding read_reply
read_written o reply row r answer there e =
    row_of_ok row r (subst (λ x. read_reply x ≡ ok r) (there ∙ ap ok e) answer)

finalized :
    (registry : Registry) (now kept : ℕ) (a : SessionCloseAuthority) (q r : SessionRegistryRecord)
    (db db' : Database) (X : Outcome Reply × Database)
    → select (close_key a) db.sessions ≡ some q
    → lifecycle_eq q.lifecycle closed ≡ false
    → X
      ≡ in_transaction database_fault
          (locked_session (close_key a) >>= λ s. finalize_locked registry now kept a s)
          db
    → read_reply X.0 ≡ ok r
    → X.1 ≡ db'
    → Erases (close_key a) now a q r db db'
finalized registry now kept a q r db db' X found before ran read there =
    let (reply, replied) = read_reply-ok X.0 r read in
    let run =
      in_transaction-ok reply db db' database_fault _ (sym ran ∙ λ i. (replied i, there i)) in
    let (s, d, held, rest) = >>=-ok reply db db' _ _ run in
    let (same, locked, _) = locked_session-found (close_key a) db d s held in
    let e : s ≡ q = ground (arith, found, locked) in
    let own = select-key (close_key a) db.sessions q found in
    let (wrote, erases) =
      finalize_closing-Erases registry now kept a q db db' reply
        (subst (λ k. select k db.sessions ≡ some q) (sym own) found)
        (sym (finalize_locked-unclosed registry now kept a q db before)
          ∙ (λ i. finalize_locked registry now kept a (sym e i) (sym same i))
          ∙ rest) in
    subst (λ x. Erases (close_key a) now a q x db db')
      (sym (read_written X.0 reply (tombstone now kept q) r read replied wrote))
      (subst (λ k. Erases k now a q (tombstone now kept q) db db') own erases)

finalize_close-run :
    (registry : Registry) (now kept : ℕ) (a : SessionCloseAuthority) (retention : Duration)
    (db : Database)
    → lease_duration retention ≡ ok kept
    → ◌≡◌ {A = Outcome SessionRegistryRecord × Database}
        (finalize_close registry now a retention db)
        (
          read_reply
              (in_transaction database_fault
                (locked_session (close_key a) >>= λ s. finalize_locked registry now kept a s)
                db).0,
          (in_transaction database_fault
              (locked_session (close_key a) >>= λ s. finalize_locked registry now kept a s)
              db).1,
        )
unfolding finalize_close
finalize_close-run registry now kept a retention db good = rw (good, finalize_close) refl

-- A finalization that returned for a session that was not closed before was made under the authority,
-- fencing generation included, that holds the session's close, after every checkpoint generation was
-- deleted, with no checkpoint under their threads and no manifest left; it leaves nothing of the
-- session but the tombstone that it answers, which is closed, unowned and without content, and keeps
-- the fencing generation.
pub finalize_close-Erases :
    (registry : Registry) (now : ℕ) (a : SessionCloseAuthority) (retention : Duration)
    (q r : SessionRegistryRecord) (db db' : Database)
    → select (close_key a) db.sessions ≡ some q
    → lifecycle_eq q.lifecycle closed ≡ false
    → finalize_close registry now a retention db ≡ (ok r, db')
    → Erases (close_key a) now a q r db db'
unfolding finalize_close
finalize_close-Erases registry now a retention q r db db' found before answer =
    elim (Outcome-cases (lease_duration retention)) [
      | inl (e, bad) ↦ ground (arith, answer, bad)
      | inr (kept, good) ↦
          let run = sym (finalize_close-run registry now kept a retention db good) ∙ answer in
          finalized registry now kept a q r db db' _ found before refl (λ i. (run i).0)
            (λ i. (run i).1)
    ]
