-- ===== src/Registry/Tests.antt =====
-- A session that is registered, activated, published to, and taken over for its close, and the
-- theorems at it.
use agnostic_market.Base.{◌≡◌, refl, some, none, List, [], ◌∷◌, ◌++◌, ◌+◌, Option, arith}
use agnostic_market.Text.{Text, codes, text_eq}
use agnostic_market.Text.Decimal.{digits_from, decimal}
use agnostic_market.Dict.{Dict, lookup}
use agnostic_market.Encryption.{Aead, SessionEnvelope, valid_envelope, encrypt, decrypt}
use agnostic_market.Session.Payload.{DurableSessionPayload, empty_payload, no_result}
use agnostic_market.Registry.Types.{
  SessionRegistration, SessionLeaseRequest, SessionLeaseAuthority, SessionCloseRequest,
  SessionCloseAuthority, SessionRegistryRecord, SessionContract, positive, active, closing,
  lifecycle_eq, is_open, is_whitespace, is_identifier, authority_eq, checkpoint_namespace,
  principal_namespace, checkpoint_namespace_matches, lease_live, is_owner, valid_record,
}
use agnostic_market.Registry.Database.{
  Key, Database, GenerationRow, empty_database, current, ok, err, key_eq, state_eq, select, replace,
  row_allowed, namespace_taken, gets, or_raise, from_outcome, raise_if, ◌>>=◌, write_row,
  update_session, insert_session,
}
use agnostic_market.Registry.Generations.{
  binding_namespace, storage_thread_id, valid_generation, generation_of, insert_ordered,
  ordered_before, rows_of, clashes, generation_allowed, insert_generation, in_state, names,
  find_generation, set_states, other_current, update_state,
}
use agnostic_market.Registry.Admission.{
  Registry, lease_key, database_fault, in_transaction, record_from_row, read_reply, lease_duration,
  lease_rejection, close_rejection, locked_session, locked_record, locked_close_record,
}
use agnostic_market.Registry.Envelopes.{
  projection_context, operation_context, record_context, seal_payload, seal_receipt,
  restore_payload,
}
use agnostic_market.Registry.Leases.{
  register_and_acquire, registration_fault, reply_of, holds, activate_row, activate, extended,
  renew_row, renew,
}
use agnostic_market.Registry.Publication.{
  SessionStatePublication, restore, has_pending, find_operation, insert_operation, file_receipt,
  commit_publication, answer_publication, publish_locked, read_published, publish,
}
use agnostic_market.Registry.Rotation.{currents, is_current, load_generations, inventory_fault}
use agnostic_market.Registry.Closing.{
  SessionCloseClaim, valid_claim, close_authority, close_claim, take_close_lease,
  claim_expired_locked, claim_expired, record_close_deletion_locked,
  record_close_checkpoint_deletion,
}
use agnostic_market.Registry.Finalizing.{
  is_stored, has_leftovers, without_operations, without_generations, tombstone, delete_rows,
  erase_session, finalize_closing, finalize_locked, finalize_close,
}
use agnostic_market.Registry.Calls.{
  Timing, Call, registers, under_lease, claims, hold, activates_session, perform, perform_all,
  target,
}
use agnostic_market.Registry.Fencing.{
  perform_all-Later, IsUntouched, perform_all-IsUntouched, perform_all-readable,
}
use agnostic_market.Registry.Progress.{Later}
use agnostic_market.Registry.Claims.{Claims}
use agnostic_market.Registry.Takeover.{claim_expired-Claims, claim_expired-fences_out}
use agnostic_market.Registry.Restoring.{restored, restore-publish}
use agnostic_market.Registry.Exclusive.{register-once}
use agnostic_market.Registry.Erasing.{Erases, finalize_close-Erases}
use agnostic_market.Registry.Types.{Fault, closed}
use agnostic_market.Encryption.{SessionEnvelopeContext, session_projection}
use agnostic_market.Encryption.Laws.{Opens, decrypt-encrypt}
use agnostic_market.Dict.{insert, erase}
use agnostic_market.Registry.Generations.{CheckpointGeneration, CheckpointRotation, valid_rotation}
use agnostic_market.Registry.Database.{retired}
use agnostic_market.Registry.Rotation.{is_number}
use agnostic_market.Registry.InMemory.{
  InMemoryAuthority, new_in_memory, with_state, prior_destination, next_destination,
  begin_in_memory, retire_history, complete_rotation, switch_in_memory,
}
use agnostic_market.Registry.Bound.{
  BoundAuthority, in_scope, is_switch, follow_switch, bound_switch,
}
use agnostic_market.Registry.Rotated.{switch_in_memory-again, IsAtCurrent, bound_switch-IsAtCurrent}
use agnostic_market.Registry.Fenced.{continues_close}
use agnostic_market.Registry.Calls.{begins_close}
use agnostic_market.Base.{◌⊎◌}
use agnostic_market.Registry.Rotation.{
  under_transition, find_transition, sources_of, rotation_members, is_marker, resume_rotation,
  next_generation, allocate_rotation, answer_rotation, begin_rotation_locked,
  begin_checkpoint_rotation,
}
use agnostic_market.Registry.Switching.{
  completed_rotation, in_generation_state, switched, switched_row, perform_switch, switch_pending,
  switch_members, switch_locked, switch_checkpoint_generation,
}

program : Unit {0}
unfolding text_eq digits_from decimal lookup valid_envelope encrypt decrypt lifecycle_eq is_open
    is_whitespace is_identifier authority_eq checkpoint_namespace principal_namespace
    checkpoint_namespace_matches lease_live is_owner valid_record key_eq state_eq select replace
    row_allowed namespace_taken gets or_raise from_outcome raise_if ◌>>=◌ write_row update_session
    insert_session binding_namespace storage_thread_id valid_generation generation_of insert_ordered
    ordered_before rows_of clashes generation_allowed insert_generation in_state names
    find_generation set_states other_current update_state database_fault in_transaction
    record_from_row read_reply lease_duration lease_rejection close_rejection locked_session
    locked_record locked_close_record projection_context operation_context record_context
    seal_payload seal_receipt restore_payload register_and_acquire registration_fault reply_of holds
    activate_row activate extended renew_row renew restore has_pending find_operation
    insert_operation file_receipt commit_publication answer_publication publish_locked
    read_published publish currents is_current load_generations inventory_fault valid_claim
    close_authority close_claim take_close_lease claim_expired_locked claim_expired
    record_close_deletion_locked record_close_checkpoint_deletion is_stored has_leftovers
    without_operations without_generations tombstone delete_rows erase_session finalize_closing
    finalize_locked finalize_close hold perform perform_all target continues_close
program = tt

-- The tag of the cipher is sixteen zeros.
abbrev tag : Text
tag = codes "0000000000000000"

abbrev untagged : Text → Option Text
untagged (_ ∷ _ ∷ _ ∷ _ ∷ _ ∷ _ ∷ _ ∷ _ ∷ _ ∷ _ ∷ _ ∷ _ ∷ _ ∷ _ ∷ _ ∷ _ ∷ s) = some s
untagged _ = none

abbrev aead : Aead
aead = record {
  encrypt_bytes = λ key nonce plaintext data'. tag ++ plaintext;
  decrypt_bytes = λ key nonce ciphertext data'. untagged ciphertext;
  associated_data = λ context version schema. [];
}

abbrev digest : Dict Text → Text
digest [] = []
digest ((k, v) ∷ d) = v ++ digest d

abbrev registry : Registry
registry = record {
  cipher = record {
    active_key_version = codes "v1";
    keys = (codes "v1", codes "0123456789abcdef0123456789abcdef") ∷ [];
    aead = aead;
  };
  json = record {
    dump_payload = λ p. codes "{}";
    load_payload = λ s. some empty_payload;
    dump_receipt = λ r. codes "{}";
    load_receipt = λ s. none;
  };
  digest = digest;
}

abbrev drawn : Text
drawn = codes "nonce-nonce1"

abbrev contract : SessionContract
contract = record {
  tenant_id = codes "shop";
  authority = record {
    logical_session_id = codes "s1";
    transport = record {
      room_id = codes "room";
      assignment_id = codes "job";
      worker_id = codes "worker";
    };
  };
  deployment_id = codes "d";
  graph_contract = codes "g";
  config_version = codes "c";
}

abbrev registration : SessionRegistration
registration = record {
  contract = contract;
  principal_generation = 0;
  session_revision = 0;
  retention_seconds = positive 1000;
}

abbrev lease : SessionLeaseRequest
lease = record { lease_owner_id = codes "w1"; duration_seconds = positive 60 }

abbrev authority : SessionLeaseAuthority
authority = record { contract = contract; lease_owner_id = codes "w1"; fencing_generation = 1 }

abbrev opened : Database
opened =
    (register_and_acquire registry drawn 0 0 0 registration lease empty_payload empty_database).1

abbrev running : Database
running = (activate 1 2 3 authority opened).1

abbrev running_record : SessionRegistryRecord
running_record = record {
  tenant_id = codes "shop";
  authority = contract.authority;
  lifecycle = active;
  checkpoint_namespace = codes "s1::fence::1";
  deployment_id = codes "d";
  graph_contract = codes "g";
  config_version = codes "c";
  principal_generation = 0;
  session_revision = 0;
  fencing_generation = 1;
  lease_owner_id = some (codes "w1");
  lease_expires_at = some 60;
  close_operation_id = none;
  expires_at = 1000;
  envelope = some (record {
    key_version = codes "v1";
    payload_schema_version = 2;
    nonce = drawn;
    ciphertext = tag ++ codes "{}";
  });
  created_at = 0;
  updated_at = 2;
}

running_session : select (lease_key authority) running.sessions ≡ some running_record
unfolding program
running_session = refl

abbrev request : SessionCloseRequest
request = record {
  operation_id = codes "close-1";
  lease_owner_id = codes "reaper";
  duration_seconds = positive 50;
}

abbrev claimed_record : SessionRegistryRecord
claimed_record = record running_record {
  lifecycle = closing;
  fencing_generation = 2;
  lease_owner_id = some (codes "reaper");
  lease_expires_at = some 150;
  close_operation_id = some (codes "close-1");
  updated_at = 100;
}

abbrev claimed : Database
claimed = (claim_expired registry 100 (lease_key authority) request running).1

abbrev generation : GenerationRow
generation = record {
  key = lease_key authority;
  checkpoint_namespace = codes "s1::fence::1";
  storage_thread_id = codes "cp_ns_shopdgs1::fence::1";
  fencing_generation = 1;
  principal_generation = 0;
  state = current;
  transition_id = none;
  source_revision = none;
}

abbrev close_authority_1 : SessionCloseAuthority
close_authority_1 = record {
  contract = contract;
  operation_id = codes "close-1";
  lease_owner_id = codes "reaper";
  fencing_generation = 2;
}

abbrev claim : SessionCloseClaim
claim = record {
  authority = close_authority_1;
  session = claimed_record;
  generations =
      (record { deployment_id = codes "d"; graph_contract = codes "g"; row = generation }) ∷ [];
}

the_claim : claim_expired registry 100 (lease_key authority) request running ≡ (ok claim, claimed)
unfolding program
the_claim = refl

abbrev timing : Timing
timing = record { locked = 101; now = 102; later = 103 }

abbrev other_claim : Call
other_claim = claims 500 (lease_key authority) request

-- A close under another operation than the claim's.
abbrev late_close : SessionCloseRequest
late_close = record request { operation_id = codes "close-2"; lease_owner_id = codes "w1" }

claim_expired-fences_out_example :
    hold registry timing authority
      (begins_close late_close)
      (perform_all registry (other_claim ∷ []) claimed)
    ≡ perform_all registry (other_claim ∷ []) claimed
unfolding program
claim_expired-fences_out_example =
    claim_expired-fences_out registry 100 request running claimed claim authority running_record
      (other_claim ∷ []) timing (begins_close late_close) the_claim running_session (omega arith)
      refl

claim_expired-Claims_example :
    ((e : Fault) × (claim_expired registry 100 (lease_key authority) request running
        ≡ (err e, running)))
    ⊎ ((claim' : SessionCloseClaim) × (db' : Database) × (claim_expired registry 100
            (lease_key authority)
            request
            running
          ≡ (ok claim', db'))
        × (r : SessionRegistryRecord) × (s : SessionRegistryRecord) × Claims
            (lease_key authority)
            100
            request
            running
            db'
            claim'
            r
            s)
claim_expired-Claims_example =
    claim_expired-Claims registry 100 (lease_key authority) request running

perform_all-Later_example :
    Later running_record
      (select (lease_key authority) (perform_all registry (other_claim ∷ []) running).sessions)
perform_all-Later_example =
    perform_all-Later registry (other_claim ∷ []) running (lease_key authority) running_record
      running_session

abbrev other_key : Key
other_key = record { tenant_id = codes "shop"; logical_session_id = codes "s2" }

perform_all-IsUntouched_example :
    IsUntouched other_key running (perform_all registry (other_claim ∷ []) running)
unfolding program
perform_all-IsUntouched_example =
    perform_all-IsUntouched registry (other_claim ∷ []) running other_key (refl, tt)

abbrev first_calls : List Call
first_calls =
    registers drawn 0 0 0 registration lease empty_payload
    ∷ under_lease (record { locked = 1; now = 2; later = 3 }) authority activates_session
    ∷ []

perform_all-readable_example : record_from_row running_record ≡ ok running_record
unfolding program
perform_all-readable_example =
    perform_all-readable registry first_calls (lease_key authority) running_record refl

register-once_example :
    (e : Fault) × (register_and_acquire registry drawn 200 200 200 registration lease empty_payload
        (perform_all registry (other_claim ∷ []) running)
      ≡ (err e, perform_all registry (other_claim ∷ []) running))
unfolding program
register-once_example =
    register-once registry drawn 200 200 200 registration lease empty_payload (other_claim ∷ [])
      running running_record running_session

abbrev publication : SessionStatePublication
publication = record {
  authority = authority;
  expected_revision = 0;
  operation_id = codes "op-1";
  request_fingerprint = codes "f";
  payload = empty_payload;
  operation_result = no_result;
}

abbrev published_record : SessionRegistryRecord
published_record = record running_record { session_revision = 1; updated_at = 4 }

abbrev after_publication : Database
after_publication = (publish registry drawn drawn 3 4 5 publication running).1

the_publication :
    publish registry drawn drawn 3 4 5 publication running
    ≡ (ok (restored published_record empty_payload), after_publication)
unfolding program
the_publication = refl

aead-Opens : Opens aead
aead-Opens key nonce plaintext data' = refl

abbrev unrelated : List Call
unrelated = claims 500 other_key request ∷ []

restore-publish_example :
    (published_record.session_revision ≡ publication.expected_revision + 1)
    × (restore registry 6 authority (perform_all registry unrelated after_publication) ≡ (
      ok (restored published_record empty_payload),
      perform_all registry unrelated after_publication,
    ))
unfolding program
restore-publish_example =
    restore-publish registry drawn drawn 3 4 5 publication running after_publication
      (restored published_record empty_payload) unrelated authority 6 published_record aead-Opens
      refl refl the_publication (refl, tt) refl refl

abbrev cleaned : Database
cleaned =
    (record_close_checkpoint_deletion registry 110 close_authority_1 (codes "s1::fence::1")
      claimed).1

abbrev tombstone_record : SessionRegistryRecord
tombstone_record = record claimed_record {
  lifecycle = closed;
  lease_owner_id = none;
  lease_expires_at = none;
  envelope = none;
  expires_at = 620;
  updated_at = 120;
}

abbrev buried : Database
buried = (finalize_close registry 120 close_authority_1 (positive 500) cleaned).1

the_end :
    finalize_close registry 120 close_authority_1 (positive 500) cleaned
    ≡ (ok tombstone_record, buried)
unfolding program
the_end = refl

finalize_close-Erases_example :
    Erases
      (lease_key authority)
      120
      close_authority_1
      claimed_record
      tombstone_record
      cleaned
      buried
unfolding program
finalize_close-Erases_example =
    finalize_close-Erases registry 120 close_authority_1 (positive 500) claimed_record
      tombstone_record cleaned buried refl refl the_end

abbrev context : SessionEnvelopeContext
context = record {
  tenant_id = codes "shop";
  logical_session_id = codes "s1";
  checkpoint_namespace = codes "s1::fence::1";
  payload_schema_version = 2;
  payload_purpose = session_projection;
  session_revision = 0;
  operation_id = none;
  request_fingerprint = none;
}

abbrev envelope : SessionEnvelope
envelope = record {
  key_version = codes "v1";
  payload_schema_version = 2;
  nonce = drawn;
  ciphertext = tag ++ codes "{}";
}

decrypt-encrypt_example : decrypt registry.cipher envelope context ≡ some (codes "{}")
unfolding program
decrypt-encrypt_example =
    decrypt-encrypt registry.cipher drawn (codes "{}") context envelope aead-Opens refl

memory_program : Unit {0}
unfolding under_transition find_transition sources_of rotation_members is_marker resume_rotation
    next_generation allocate_rotation answer_rotation begin_rotation_locked
    begin_checkpoint_rotation completed_rotation in_generation_state switched switched_row
    perform_switch switch_pending switch_members switch_locked switch_checkpoint_generation
    is_switch follow_switch bound_switch insert erase is_number new_in_memory with_state
    prior_destination next_destination begin_in_memory retire_history complete_rotation
    switch_in_memory valid_rotation in_scope
memory_program = tt

abbrev first_generation : CheckpointGeneration
first_generation = record {
  deployment_id = codes "d";
  graph_contract = codes "g";
  row = generation;
}

abbrev transition : Text
transition = codes "t1"

abbrev fresh_memory : InMemoryAuthority
fresh_memory = record {
  current_generation = first_generation;
  pending_rotations = [];
  completed = [];
}

abbrev begun_memory : InMemoryAuthority
begun_memory = (begin_in_memory digest 0 transition fresh_memory).1

abbrev switched_memory : InMemoryAuthority
switched_memory = (switch_in_memory transition begun_memory).1

abbrev the_rotation : CheckpointRotation
the_rotation = record {
  source = with_state retired first_generation;
  destination = with_state current (next_destination digest 0 transition first_generation);
}

the_switch : switch_in_memory transition begun_memory ≡ (ok the_rotation, switched_memory)
unfolding program memory_program
the_switch = refl

switch_in_memory-again_example :
    switch_in_memory transition switched_memory ≡ (ok the_rotation, switched_memory)
switch_in_memory-again_example =
    switch_in_memory-again transition begun_memory switched_memory the_rotation the_switch

abbrev bound_authority : BoundAuthority
bound_authority = record { authority = authority; current_generation = first_generation }

-- The session waits for its principal to change.
abbrev marked_payload : DurableSessionPayload
marked_payload = record empty_payload { principal_retirement = some transition }

abbrev marked_registry : Registry
marked_registry = record registry {
  json = record {
    dump_payload = λ p. codes "{}";
    load_payload = λ s. some marked_payload;
    dump_receipt = λ r. codes "{}";
    load_receipt = λ s. none;
  };
}

abbrev rotating : Database
rotating = (begin_checkpoint_rotation marked_registry 4 authority 0 0 transition running).1

abbrev switch_timing : Timing
switch_timing = record { locked = 5; now = 6; later = 7 }

abbrev rotated : Database
rotated = (bound_switch marked_registry drawn switch_timing transition bound_authority rotating).1

abbrev rotated_authority : BoundAuthority
rotated_authority = record bound_authority { current_generation = the_rotation.destination }

the_bound_switch :
    bound_switch marked_registry drawn switch_timing transition bound_authority rotating
    ≡ ((ok the_rotation, rotated_authority), rotated)
unfolding program memory_program
the_bound_switch = refl

bound_switch-IsAtCurrent_example :
    (rotated_authority ≡ record bound_authority { current_generation = the_rotation.destination })
    × IsAtCurrent rotated_authority (perform_all marked_registry unrelated rotated)
unfolding program memory_program
bound_switch-IsAtCurrent_example =
    bound_switch-IsAtCurrent marked_registry drawn switch_timing transition bound_authority
      rotated_authority rotating rotated the_rotation unrelated the_bound_switch (refl, tt)
