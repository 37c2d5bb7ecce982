-- ===== src/Registry/Fencing.antt =====
-- What holds of the registry whatever calls happen to it, and that a holder whose fencing generation
-- is past changes nothing any more.
use agnostic_market.Base.{
  ◌≡◌, refl, sym, ap, subst, ◌∙◌, inl, inr, true, false, some, List, [], ◌∷◌, All, arith,
  Bool-cases,
}
use agnostic_market.Text.{Text}
use agnostic_market.Registry.Types.{
  SessionLeaseAuthority, SessionRegistryRecord, valid_record, lifecycle_eq, is_open,
}
use agnostic_market.Registry.Database.{
  Key, key_eq, select, Database, ok, row_allowed, empty_database,
}
use agnostic_market.Registry.Generations.{rows_of}
use agnostic_market.Registry.Admission.{Registry, lease_key, record_from_row}
use agnostic_market.Registry.Publication.{find_operation}
use agnostic_market.Registry.Rows.{eq_of_key_eq}
use agnostic_market.Registry.Progress.{
  Advances-refl, Advances-trans, Later, IsSound, coherent, Moves,
}
use agnostic_market.Registry.Holding.{activate-Moves, renew-Moves, publish-Moves}
use agnostic_market.Registry.Rotating.{
  begin_checkpoint_rotation-Moves, switch_checkpoint_generation-Moves,
  record_checkpoint_deletion-Moves,
}
use agnostic_market.Registry.Ending.{
  begin_close-Moves, claim_expired-Moves, refresh_close-Moves,
  record_close_checkpoint_deletion-Moves, finalize_close-Moves,
}
use agnostic_market.Registry.Registering.{register_and_acquire-Moves}
use agnostic_market.Registry.Calls.{
  HolderCall, activates_session, renews, publishes_state, begins_rotation, switches_generation,
  records_deletion, Timing, hold, Call, registers, under_lease, begins_close, claims, refreshes,
  deletes_checkpoint, finalizes, perform, perform_all, target,
}

hold-Moves :
    (registry : Registry) (t : Timing) (a : SessionLeaseAuthority) (call : HolderCall)
    (db : Database)
    → Moves (lease_key a) db (hold registry t a call db)
unfolding hold
hold-Moves registry t a activates_session db = activate-Moves t.locked t.now t.later a db
hold-Moves registry t a (renews duration) db = renew-Moves t.locked t.now t.later a duration db
hold-Moves registry t a (publishes_state nonce receipt_nonce revision operation fingerprint p r)
      db =
    publish-Moves registry _ t.now t.later nonce receipt_nonce t.locked db
hold-Moves registry t a (begins_rotation revision principal transition_id) db =
    begin_checkpoint_rotation-Moves registry a t.locked db revision principal transition_id
hold-Moves registry t a (switches_generation nonce transition_id) db =
    switch_checkpoint_generation-Moves registry a t.locked db nonce t.now t.later transition_id
hold-Moves registry t a (records_deletion transition_id) db =
    record_checkpoint_deletion-Moves registry a t.locked db transition_id
hold-Moves registry t a (begins_close request) db = begin_close-Moves registry t.locked a request db

pub perform-Moves :
    (registry : Registry) (call : Call) (db : Database)
    → Moves (target call) db (perform registry call db)
unfolding perform target
perform-Moves registry (registers nonce now created updated registration lease payload) db =
    register_and_acquire-Moves registry nonce now created updated registration lease payload db
perform-Moves registry (under_lease t a call) db = hold-Moves registry t a call db
perform-Moves registry (claims locked k request) db =
    claim_expired-Moves registry locked k request db
perform-Moves registry (refreshes locked a duration) db =
    refresh_close-Moves registry locked a db duration
perform-Moves registry (deletes_checkpoint locked a namespace) db =
    record_close_checkpoint_deletion-Moves registry locked a db namespace
perform-Moves registry (finalizes locked a retention) db =
    finalize_close-Moves registry locked a db retention

perform-Later :
    (registry : Registry) (call : Call) (db : Database) (k : Key) (r : SessionRegistryRecord)
    → select k db.sessions ≡ some r
    → Later r (select k (perform registry call db).sessions)
perform-Later registry call db k r found = elim (Bool-cases (key_eq (target call) k)) [
  | inl here ↦
      subst (λ j. Later r (select j (perform registry call db).sessions))
        (eq_of_key_eq (target call) k here)
        ((perform-Moves registry call db).own r
          (ap (λ j. select j db.sessions) (eq_of_key_eq (target call) k here) ∙ found))
  | inr there ↦ (r, ((perform-Moves registry call db).others k there).0 ∙ found, Advances-refl r)
]

-- Whatever calls happen to the registry, the record of a session stays there, its counters never
-- fall, its lifecycle never goes back, and its holder changes only with the fencing generation or by
-- the close. Purges of tombstones are no such calls.
pub perform_all-Later :
    (registry : Registry) (calls : List Call) (db : Database) (k : Key) (r : SessionRegistryRecord)
    → select k db.sessions ≡ some r
    → Later r (select k (perform_all registry calls db).sessions)
unfolding perform_all
perform_all-Later registry [] db k r found = (r, found, Advances-refl r)
perform_all-Later registry (call ∷ calls) db k r found =
    let (s, there, first) = perform-Later registry call db k r found in
    let (t, then', second) =
      perform_all-Later registry calls (perform registry call db) k s there in
    (t, then', Advances-trans first second)

-- What the tables hold of a session.
pub record IsUntouched (k : Key) (db db' : Database) : Type 0 where
  pub session : select k db'.sessions ≡ select k db.sessions
  pub generations : rows_of k db'.generations ≡ rows_of k db.generations
  pub receipts :
      (operation : Text)
      → find_operation k operation db'.operations ≡ find_operation k operation db.operations

-- Calls that name other sessions leave a session's record, its checkpoint generations and its
-- receipts as they are.
pub perform_all-IsUntouched :
    (registry : Registry) (calls : List Call) (db : Database) (k : Key)
    → All (λ call. key_eq (target call) k ≡ false) calls
    → IsUntouched k db (perform_all registry calls db)
unfolding perform_all
perform_all-IsUntouched registry [] db k h = record {
  session = refl;
  generations = refl;
  receipts = λ operation. refl;
}
perform_all-IsUntouched registry (call ∷ calls) db k h =
    let (x, y, z) = (perform-Moves registry call db).others k h.0 in
    let rest = perform_all-IsUntouched registry calls (perform registry call db) k h.1 in
    record {
      session = rest.session ∙ x;
      generations = rest.generations ∙ y;
      receipts = λ operation. rest.receipts operation ∙ z operation;
    }

-- Every stored record is sound.
abbrev pub AllSound : Database → Type 0
AllSound db = (k : Key) (r : SessionRegistryRecord) → select k db.sessions ≡ some r → IsSound r

perform-AllSound :
    (registry : Registry) (call : Call) (db : Database)
    → AllSound db
    → AllSound (perform registry call db)
perform-AllSound registry call db sound k r found = elim (Bool-cases (key_eq (target call) k)) [
  | inl here ↦
      let e : target call ≡ k = eq_of_key_eq (target call) k here in
      (perform-Moves registry call db).sound (sound (target call)) r
        (ap (λ j. select j (perform registry call db).sessions) e ∙ found)
  | inr there ↦ sound k r (sym (((perform-Moves registry call db).others k there).0) ∙ found)
]

perform_all-AllSound :
    (registry : Registry) (calls : List Call) (db : Database)
    → AllSound db
    → AllSound (perform_all registry calls db)
unfolding perform_all
perform_all-AllSound registry [] db sound = sound
perform_all-AllSound registry (call ∷ calls) db sound =
    perform_all-AllSound registry calls (perform registry call db)
      (perform-AllSound registry call db sound)

sound-valid : (r : SessionRegistryRecord) → IsSound r → valid_record r ≡ true
unfolding coherent row_allowed valid_record lifecycle_eq is_open
sound-valid r (allowed, fits) = ground arith

-- Whatever calls have happened to an empty database, each record that is stored passes the checks by
-- which it is read.
pub perform_all-readable :
    (registry : Registry) (calls : List Call) (k : Key) (r : SessionRegistryRecord)
    → select k (perform_all registry calls empty_database).sessions ≡ some r
    → record_from_row r ≡ ok r
unfolding record_from_row select
perform_all-readable registry calls k r found =
    let valid : valid_record r ≡ true = sound-valid r (
      perform_all-AllSound registry calls empty_database (λ j q there. ground (arith, there)) k r
        found) in
    ground (arith, valid)
