-- ===== src/Registry/Calls.antt =====
-- The calls that the registry answers, as a list of them happens to it.
use agnostic_market.Base.{ℕ, List, [], ◌∷◌}
use agnostic_market.Text.{Text}
use agnostic_market.Session.Payload.{DurableSessionPayload, SessionOperationResult}
use agnostic_market.Registry.Types.{
  Duration, SessionRegistration, SessionLeaseRequest, SessionLeaseAuthority, SessionCloseRequest,
  SessionCloseAuthority,
}
use agnostic_market.Registry.Database.{Key, Database}
use agnostic_market.Registry.Admission.{Registry, lease_key, close_key}
use agnostic_market.Registry.Leases.{register_and_acquire, activate, renew}
use agnostic_market.Registry.Publication.{publish}
use agnostic_market.Registry.Rotation.{begin_checkpoint_rotation}
use agnostic_market.Registry.Switching.{switch_checkpoint_generation, record_checkpoint_deletion}
use agnostic_market.Registry.Closing.{
  begin_close, claim_expired, refresh_close, record_close_checkpoint_deletion,
}
use agnostic_market.Registry.Finalizing.{finalize_close}

-- A call that the holder of a lease makes under its authority.
pub data HolderCall : Type 0 where
  activates_session : HolderCall
  renews : Duration → HolderCall
  publishes_state :
      (nonce receipt_nonce : Text) (revision : ℕ) (operation fingerprint : Text)
      (payload : DurableSessionPayload) (result : SessionOperationResult)
      → HolderCall
  begins_rotation : (revision principal : ℕ) (transition_id : Text) → HolderCall
  switches_generation : (nonce transition_id : Text) → HolderCall
  records_deletion : (transition_id : Text) → HolderCall
  begins_close : SessionCloseRequest → HolderCall

-- `locked`, `now` and `later` are the readings of the database's clock.
pub record Timing : Type 0 where
  pub locked : ℕ
  pub now : ℕ
  pub later : ℕ

unfoldable pub hold : Registry → Timing → SessionLeaseAuthority → HolderCall → Database → Database
hold registry t a activates_session db = (activate t.locked t.now t.later a db).1
hold registry t a (renews duration) db = (renew t.locked t.now t.later a duration db).1
hold registry t a
      (publishes_state nonce receipt_nonce revision operation fingerprint payload result) db =
    (publish registry nonce receipt_nonce t.locked t.now t.later
      (record {
        authority = a;
        expected_revision = revision;
        operation_id = operation;
        request_fingerprint = fingerprint;
        payload = payload;
        operation_result = result;
      })
      db).1
hold registry t a (begins_rotation revision principal transition_id) db =
    (begin_checkpoint_rotation registry t.locked a revision principal transition_id db).1
hold registry t a (switches_generation nonce transition_id) db =
    (switch_checkpoint_generation registry nonce t.locked t.now t.later a transition_id db).1
hold registry t a (records_deletion transition_id) db =
    (record_checkpoint_deletion registry t.locked a transition_id db).1
hold registry t a (begins_close request) db = (begin_close registry t.locked a request db).1

-- Any call that writes, but for the purge of tombstones.
pub data Call : Type 0 where
  registers :
      (nonce : Text) (now created updated : ℕ) (registration : SessionRegistration)
      (lease : SessionLeaseRequest) (payload : DurableSessionPayload)
      → Call
  under_lease : Timing → SessionLeaseAuthority → HolderCall → Call
  claims : (locked : ℕ) → Key → SessionCloseRequest → Call
  refreshes : (locked : ℕ) → SessionCloseAuthority → Duration → Call
  deletes_checkpoint : (locked : ℕ) → SessionCloseAuthority → (namespace : Text) → Call
  finalizes : (locked : ℕ) → SessionCloseAuthority → Duration → Call

unfoldable pub perform : Registry → Call → Database → Database
perform registry (registers nonce now created updated registration lease payload) db =
    (register_and_acquire registry nonce now created updated registration lease payload db).1
perform registry (under_lease t a call) db = hold registry t a call db
perform registry (claims locked k request) db = (claim_expired registry locked k request db).1
perform registry (refreshes locked a duration) db = (refresh_close registry locked a duration db).1
perform registry (deletes_checkpoint locked a namespace) db =
    (record_close_checkpoint_deletion registry locked a namespace db).1
perform registry (finalizes locked a retention) db =
    (finalize_close registry locked a retention db).1

unfoldable pub perform_all : Registry → List Call → Database → Database
perform_all registry [] db = db
perform_all registry (call ∷ calls) db = perform_all registry calls (perform registry call db)

-- The session that a call names.
unfoldable pub target : Call → Key
target (registers nonce now created updated registration lease payload) = record {
  tenant_id = registration.tenant_id;
  logical_session_id = registration.authority.logical_session_id;
}
target (under_lease t a call) = lease_key a
target (claims locked k request) = k
target (refreshes locked a duration) = close_key a
target (deletes_checkpoint locked a namespace) = close_key a
target (finalizes locked a retention) = close_key a
