-- ===== src/Registry/Envelopes.antt =====
-- What a session's row and its receipts hold sealed: `_envelope_context`, `_restore_payload`,
-- `_operation_result_from_row` and `_operation_evidence_from_row`.
use agnostic_market.Base.{ℕ, ◌&&◌, ◌||◌, none, some, leb, ◌==◌, not, if◌then◌else◌}
use agnostic_market.Text.{Text, text_eq}
use agnostic_market.Encryption.{
  session_projection, operation_result, SessionEnvelopeContext, SessionEnvelope, valid_envelope,
  encrypt, decrypt,
}
use agnostic_market.Session.Payload.{
  DurableSessionPayload, SessionOperationResult, SessionOperationReceiptPayload,
  session_payload_schema_version, session_operation_result_schema_version,
}
use agnostic_market.Registry.Types.{
  decryption_failed, payload_schema_invalid, reconstruction_failed, session_restore, value_error,
  is_identifier, SessionRegistryRecord,
}
use agnostic_market.Registry.Database.{OperationRow, Outcome, ok, err}
use agnostic_market.Registry.Admission.{Registry}

-- `_envelope_context` of a projection: the payload of a session at a revision.
unfoldable pub projection_context : (tenant session namespace : Text) → ℕ → SessionEnvelopeContext
projection_context tenant session namespace revision = record {
  tenant_id = tenant;
  logical_session_id = session;
  checkpoint_namespace = namespace;
  payload_schema_version = session_payload_schema_version;
  payload_purpose = session_projection;
  session_revision = revision;
  operation_id = none;
  request_fingerprint = none;
}

-- `_envelope_context` of an operation's result.
unfoldable pub operation_context :
    SessionRegistryRecord
    → (namespace : Text) → ℕ
    → (operation fingerprint : Text) → SessionEnvelopeContext
operation_context r namespace revision operation fingerprint = record {
  tenant_id = r.tenant_id;
  logical_session_id = r.authority.logical_session_id;
  checkpoint_namespace = namespace;
  payload_schema_version = session_operation_result_schema_version;
  payload_purpose = operation_result;
  session_revision = revision;
  operation_id = some operation;
  request_fingerprint = some fingerprint;
}

-- The context of a record's own payload.
unfoldable pub record_context : SessionRegistryRecord → SessionEnvelopeContext
record_context r =
    projection_context r.tenant_id r.authority.logical_session_id r.checkpoint_namespace
      r.session_revision

-- `cipher.encrypt(payload.to_bytes(), context)`
unfoldable pub seal_payload :
    Registry
    → (nonce : Text) → DurableSessionPayload
    → SessionEnvelopeContext
    → Outcome SessionEnvelope
seal_payload registry nonce payload context =
    elim (encrypt registry.cipher nonce (registry.json.dump_payload payload) context) [
      | none ↦ err value_error
      | some envelope ↦ ok envelope
    ]

unfoldable pub seal_receipt :
    Registry
    → (nonce : Text) → SessionOperationReceiptPayload
    → SessionEnvelopeContext
    → Outcome SessionEnvelope
seal_receipt registry nonce receipt context =
    elim (encrypt registry.cipher nonce (registry.json.dump_receipt receipt) context) [
      | none ↦ err value_error
      | some envelope ↦ ok envelope
    ]

-- `_restore_payload`
unfoldable pub restore_payload : Registry → SessionRegistryRecord → Outcome DurableSessionPayload
restore_payload registry r = elim r.envelope [
  | none ↦ err (session_restore payload_schema_invalid)
  | some envelope ↦
      if envelope.payload_schema_version == session_payload_schema_version
      then (elim (decrypt registry.cipher envelope (record_context r)) [
        | none ↦ err (session_restore decryption_failed)
        | some plaintext ↦ (elim (registry.json.load_payload plaintext) [
          | none ↦ err (session_restore payload_schema_invalid)
          | some payload ↦ ok payload
        ])
      ])
      else err (session_restore payload_schema_invalid)
]

-- `_operation_result_from_row`, with the reason that `_SessionOperationDataError` carries
unfoldable pub operation_result_from_row :
    Registry
    → SessionRegistryRecord
    → OperationRow
    → (operation fingerprint : Text) → Outcome SessionOperationResult
operation_result_from_row registry r row operation fingerprint =
    if not (valid_envelope row.envelope)
    then err (session_restore payload_schema_invalid)
    else if not (row.envelope.payload_schema_version == session_operation_result_schema_version)
    then err (session_restore payload_schema_invalid)
    else if not (is_identifier row.committed_checkpoint_namespace)
        || not (leb 1 row.committed_revision)
    then err (session_restore reconstruction_failed)
    else (elim (decrypt registry.cipher row.envelope (
        operation_context r row.committed_checkpoint_namespace row.committed_revision operation
          fingerprint)) [
            | none ↦ err (session_restore decryption_failed)
            | some plaintext ↦ (elim (registry.json.load_receipt plaintext) [
              | none ↦ err (session_restore payload_schema_invalid)
              | some receipt ↦
                  if text_eq receipt.operation_id operation
                    && text_eq receipt.request_fingerprint fingerprint
                  then ok receipt.result
                  else err (session_restore reconstruction_failed)
            ])
          ])

pub record SessionOperationEvidence : Type 0 where
  pub operation_id : Text
  pub request_fingerprint : Text
  pub committed_revision : ℕ
  pub committed_checkpoint_namespace : Text
  pub result : SessionOperationResult

-- `_operation_evidence_from_row`
unfoldable pub evidence_from_row :
    Registry → SessionRegistryRecord → OperationRow → Outcome SessionOperationEvidence
evidence_from_row registry r row =
    if is_identifier row.operation_id && is_identifier row.committed_checkpoint_namespace
    then (elim (operation_result_from_row registry r row row.operation_id row.request_fingerprint) [
      | err e ↦ err e
      | ok result ↦ ok (record {
        operation_id = row.operation_id;
        request_fingerprint = row.request_fingerprint;
        committed_revision = row.committed_revision;
        committed_checkpoint_namespace = row.committed_checkpoint_namespace;
        result = result;
      })
    ])
    else err (session_restore reconstruction_failed)
