-- ===== src/Registry/Fenced.antt =====
-- What a holder of a lease can still do once its session is closing under a later fencing generation.
use agnostic_market.Base.{
  ℕ, ◌≤◌, ◌<◌, ◌≡◌, refl, ap, ◌∙◌, inl, inr, Bool, true, false, none, some, List, arith, leb,
  if◌then◌else◌, Bool-cases,
}
use agnostic_market.Text.{Text, text_eq}
use agnostic_market.Registry.Progress.{rank, Advances}
use agnostic_market.Registry.Types.{
  Fault, SessionLeaseAuthority, SessionCloseRequest, SessionRegistryRecord, lifecycle_eq, closing,
  SessionLifecycle, opening, active, closed, is_open, is_owner, is_identifier, LeaseAdmissionReason,
  session_expired, lifecycle_rejected, session_close, wrong_close_owner, lease_admission,
}
use agnostic_market.Registry.Database.{
  select, Database, Outcome, ok, err, Transaction, ◌>>=◌, raise_if, from_outcome,
}
use agnostic_market.Registry.Admission.{
  Registry, locked_session, database_fault, in_transaction, lease_duration, lease_key,
  lease_rejection, locked_record,
}
use agnostic_market.Registry.Leases.{activate, renew, renewal_fault}
use agnostic_market.Registry.Publication.{publish}
use agnostic_market.Registry.Rotation.{begin_checkpoint_rotation}
use agnostic_market.Registry.Switching.{switch_checkpoint_generation, record_checkpoint_deletion}
use agnostic_market.Registry.Closing.{
  begin_close, begin_close_locked, is_replay, is_reclaim, close_claim,
}
use agnostic_market.Registry.Rows.{Outcome-cases}
use agnostic_market.Registry.Statements.{locked_session-found}
use agnostic_market.Registry.Locked.{locked_record-found}
use agnostic_market.Registry.Calls.{
  HolderCall, activates_session, renews, publishes_state, begins_rotation, switches_generation,
  records_deletion, begins_close, Timing, hold, Call, perform_all,
}
use agnostic_market.Registry.Fencing.{perform_all-Later}

pub lease_rejection-fence :
    (r : SessionRegistryRecord) (a : SessionLeaseAuthority) (now : ℕ)
    → lease_rejection r a now ≡ none
    → r.fencing_generation ≡ a.fencing_generation
unfolding lease_rejection
lease_rejection-fence r a now admits = ground (arith, admits)

locked_record-refused :
    (a : SessionLeaseAuthority) (now : ℕ) (db : Database) (r : SessionRegistryRecord)
    → select (lease_key a) db.sessions ≡ some r
    → a.fencing_generation < r.fencing_generation
    → (e : Fault) × (locked_record a now db ≡ err e)
locked_record-refused a now db r found past = elim (Outcome-cases (locked_record a now db)) [
  | inl refused ↦ refused
  | inr ((q, d), passed) ↦
      let (_, there, _, admits) = locked_record-found a now db d q passed in
      let e : q ≡ r = ground (arith, found, there) in
      absurd (
        omega (
          arith,
          lease_rejection-fence q a now admits,
          ap (λ (x : SessionRegistryRecord). x.fencing_generation) e,
        ))
]

-- A transaction whose first step fails changes nothing.
refused_first :
    {A B : Type 0} (fault : Fault → Fault) (m : Transaction A) (f : A → Transaction B)
    (db : Database)
    → (e : Fault) × (m db ≡ err e)
    → (in_transaction fault (m >>= f) db).1 ≡ db
unfolding in_transaction ◌>>=◌
refused_first fault m f db (e, failed) = ground (arith, failed)

renewal_refused :
    {B : Type 0} (fault : Fault → Fault) (o : Outcome ℕ) (m : Transaction SessionRegistryRecord)
    (f : ℕ → SessionRegistryRecord → Transaction B) (db : Database)
    → (e : Fault) × (m db ≡ err e)
    → (in_transaction fault (from_outcome o >>= λ lasts. m >>= f lasts) db).1 ≡ db
unfolding in_transaction ◌>>=◌ from_outcome
renewal_refused fault (ok lasts) m f db (e, failed) = ground (arith, failed)
renewal_refused fault (err e') m f db (e, failed) = refl

if-refused :
    {A : Type 0} (test : Bool) (m : Outcome A × Database) (e : Fault) (db : Database)
    → m.1 ≡ db
    → (if test then m else (err e, db)).1 ≡ db
if-refused true m e db h = h
if-refused false m e db h = refl

-- A close that is begun under the close operation of the session, which its owner may take on again.
unfoldable pub continues_close : Text → HolderCall → Bool
continues_close operation (begins_close request) = text_eq operation request.operation_id
continues_close operation _ = false

-- A session that is closing under an operation, or closed by it.
pub record IsOver (r : SessionRegistryRecord) (operation : Text) : Type 0 where
  pub shut : is_open r.lifecycle ≡ false
  pub by : r.close_operation_id ≡ some operation

shut-refused :
    (r : SessionRegistryRecord) (a : SessionLeaseAuthority) (now : ℕ)
    → is_open r.lifecycle ≡ false
    → (reason : LeaseAdmissionReason) × (lease_rejection r a now ≡ some reason)
unfolding lease_rejection
shut-refused r a now shut = elim (Bool-cases (leb r.expires_at now)) [
  | inl over ↦ (session_expired, rw over refl)
  | inr unexpired ↦ (lifecycle_rejected, rw (unexpired, shut) refl)
]

begin_close_locked-refused :
    (now : ℕ) (a : SessionLeaseAuthority) (request : SessionCloseRequest)
    (r : SessionRegistryRecord) (operation : Text) (db : Database)
    → IsOver r operation
    → text_eq operation request.operation_id ≡ false
    → (e : Fault) × (begin_close_locked now a request r db ≡ err e)
unfolding begin_close_locked is_replay is_reclaim is_owner raise_if ◌>>=◌
begin_close_locked-refused now a request r operation db over other =
    let (reason, refused) = shut-refused r a now over.shut in
    elim (Bool-cases (lifecycle_eq r.lifecycle closing)) [
      | inl closes ↦ (session_close wrong_close_owner, ground (arith, over.by, other, closes))
      | inr done ↦ (lease_admission reason, ground (arith, over.by, other, done, refused))
    ]

refused_second :
    {A B C : Type 0} (fault : Fault → Fault) (m : Transaction A) (f : A → Transaction B)
    (g : A → B → Transaction C) (a : A) (db : Database)
    → m db ≡ ok (a, db)
    → (e : Fault) × (f a db ≡ err e)
    → (in_transaction fault (m >>= λ x. f x >>= g x) db).1 ≡ db
unfolding in_transaction ◌>>=◌
refused_second fault m f g a db passed (e, failed) = ground (arith, passed, failed)

begin_close-refused :
    (registry : Registry) (now : ℕ) (a : SessionLeaseAuthority) (request : SessionCloseRequest)
    (db : Database) (r : SessionRegistryRecord) (operation : Text)
    → select (lease_key a) db.sessions ≡ some r
    → IsOver r operation
    → text_eq operation request.operation_id ≡ false
    → (begin_close registry now a request db).1 ≡ db
unfolding begin_close
begin_close-refused registry now a request db r operation found over other =
    elim (Outcome-cases (locked_session (lease_key a) db)) [
      | inl refused ↦ refused_first database_fault (locked_session (lease_key a)) _ db refused
      | inr ((q, d), held) ↦
          let (same, there, _) = locked_session-found (lease_key a) db d q held in
          let e : q ≡ r = ground (arith, found, there) in
          refused_second database_fault (locked_session (lease_key a))
            (begin_close_locked now a request) (λ _ claimed. close_claim registry claimed) r db
            (held ∙ λ i. ok (e i, same i))
            (begin_close_locked-refused now a request r operation db over other)
    ]

hold-refused :
    (registry : Registry) (t : Timing) (a : SessionLeaseAuthority) (call : HolderCall)
    (db : Database) (r : SessionRegistryRecord) (operation : Text)
    → select (lease_key a) db.sessions ≡ some r
    → IsOver r operation
    → continues_close operation call ≡ false
    → (e : Fault) × (locked_record a t.locked db ≡ err e)
    → hold registry t a call db ≡ db
unfolding hold continues_close activate renew publish begin_checkpoint_rotation
    switch_checkpoint_generation record_checkpoint_deletion
hold-refused registry t a activates_session db q op found over other no_lock =
    refused_first database_fault (locked_record a t.locked) _ db no_lock
hold-refused registry t a (renews duration) db q op found over other no_lock =
    renewal_refused renewal_fault (lease_duration duration) (locked_record a t.locked) _ db no_lock
hold-refused registry t a (publishes_state n m revision operation fingerprint p r) db q op found
      over other no_lock =
    refused_first database_fault (locked_record a t.locked) _ db no_lock
hold-refused registry t a (begins_rotation revision principal transition_id) db q op found over
      other no_lock =
    if-refused (is_identifier transition_id) _ _ db
      (refused_first database_fault (locked_record a t.locked) _ db no_lock)
hold-refused registry t a (switches_generation nonce transition_id) db q op found over other
      no_lock =
    if-refused (is_identifier transition_id) _ _ db
      (refused_first database_fault (locked_record a t.locked) _ db no_lock)
hold-refused registry t a (records_deletion transition_id) db q op found over other no_lock =
    if-refused (is_identifier transition_id) _ _ db
      (refused_first database_fault (locked_record a t.locked) _ db no_lock)
hold-refused registry t a (begins_close request) db q op found over other no_lock =
    begin_close-refused registry t.locked a request db q op found over other

unopened : (l : SessionLifecycle) → 2 ≤ rank l → is_open l ≡ false
unfolding rank is_open
unopened opening late = absurd (omega (arith, late))
unopened active late = absurd (omega (arith, late))
unopened closing late = refl
unopened closed late = refl

closing-rank : (l : SessionLifecycle) → l ≡ closing → rank l ≡ 2
unfolding rank
closing-rank l closes = ap rank closes

IsOver-later :
    (r s : SessionRegistryRecord) (operation : Text)
    → r.lifecycle ≡ closing
    → r.close_operation_id ≡ some operation
    → Advances r s
    → IsOver s operation
IsOver-later r s operation closes by later = record {
  shut = unopened s.lifecycle (omega (arith, later.life, closing-rank r.lifecycle closes));
  by = ground (arith, by, later.operation);
}

-- An authority whose fencing generation is past changes nothing, whatever calls came in between, once
-- the session closes under an operation that the call does not continue.
pub fenced_out :
    (registry : Registry) (calls : List Call) (db : Database) (a : SessionLeaseAuthority)
    (r : SessionRegistryRecord) (operation : Text) (t : Timing) (call : HolderCall)
    → select (lease_key a) db.sessions ≡ some r
    → r.lifecycle ≡ closing
    → r.close_operation_id ≡ some operation
    → a.fencing_generation < r.fencing_generation
    → continues_close operation call ≡ false
    → hold registry t a call (perform_all registry calls db) ≡ perform_all registry calls db
fenced_out registry calls db a r operation t call found closes by past other =
    let (s, there, later) = perform_all-Later registry calls db (lease_key a) r found in
    hold-refused registry t a call (perform_all registry calls db) s operation there
      (IsOver-later r s operation closes by later) other
      (locked_record-refused a t.locked (perform_all registry calls db) s there
        (omega (arith, later.fence)))
