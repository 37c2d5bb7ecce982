-- ===== src/Encryption.antt =====
-- durability/encryption.py: the envelope around what a session stores, and the cipher that opens it.
-- AES-GCM of the cryptography library and `json.dumps` are the parameters `Aead`.
pub mod Laws
use agnostic_market.Base.{
  ℕ, Bool, true, ◌&&◌, Option, none, some, List, [], ◌∷◌, length, all, null, is_some, not, leb,
  ◌==◌, if◌then◌else◌,
}
use agnostic_market.Text.{Text, codes}
use agnostic_market.Dict.{Dict, lookup, values}

pub data PayloadPurpose : Type 0 where
  session_projection operation_result : PayloadPurpose

pub record SessionEnvelopeContext : Type 0 where
  pub tenant_id : Text
  pub logical_session_id : Text
  pub checkpoint_namespace : Text
  pub payload_schema_version : ℕ
  pub payload_purpose : PayloadPurpose
  pub session_revision : ℕ
  pub operation_id : Option Text
  pub request_fingerprint : Option Text

-- `_validate_purpose`
unfoldable pub valid_purpose : SessionEnvelopeContext → Bool
valid_purpose c = elim c.payload_purpose [
  | operation_result ↦ is_some c.operation_id && is_some c.request_fingerprint
  | session_projection ↦ not (is_some c.operation_id) && not (is_some c.request_fingerprint)
]

-- The format is always `aes_256_gcm_v1`, and has no field.
pub record SessionEnvelope : Type 0 where
  pub key_version : Text
  pub payload_schema_version : ℕ
  pub nonce : Text
  pub ciphertext : Text

unfoldable pub valid_envelope : SessionEnvelope → Bool
valid_envelope e =
    leb 1 e.payload_schema_version && length e.nonce == 12 && leb 16 (length e.ciphertext)

-- What the code calls: `AESGCM(key).encrypt` and `decrypt`, where `none` is `InvalidTag`, and
-- `_associated_data`, the JSON text of a context with the key version and the schema version.
pub record Aead : Type 0 where
  pub encrypt_bytes : Text → Text → Text → Text → Text
  pub decrypt_bytes : Text → Text → Text → Text → Option Text
  pub associated_data : SessionEnvelopeContext → Text → ℕ → Text

pub record AesGcmSessionCipher : Type 0 where
  pub active_key_version : Text
  pub keys : Dict Text
  pub aead : Aead

-- `__post_init__`: the active key is there, and each key has 32 bytes.
unfoldable pub new_cipher : Text → Dict Text → Aead → Option AesGcmSessionCipher
new_cipher active keys aead =
    if is_some (lookup active keys) && all (λ k. length k == 32) (values keys)
    then some (record { active_key_version = active; keys = keys; aead = aead })
    else none

-- `none` is the `ValueError` of an empty plaintext, of an envelope that its model refuses, or the
-- `KeyError` of an active key that is not there. The nonce is the drawn one.
unfoldable pub encrypt :
    AesGcmSessionCipher → (nonce plaintext : Text) → SessionEnvelopeContext → Option SessionEnvelope
unfolding valid_envelope
encrypt cipher nonce plaintext context =
    if null plaintext then none else (elim (lookup cipher.active_key_version cipher.keys) [
      | none ↦ none
      | some key ↦
          let envelope : SessionEnvelope = record {
            key_version = cipher.active_key_version;
            payload_schema_version = context.payload_schema_version;
            nonce = nonce;
            ciphertext = cipher.aead.encrypt_bytes key nonce plaintext (
                cipher.aead.associated_data context cipher.active_key_version
                  context.payload_schema_version);
          } in
          if valid_envelope envelope then some envelope else none
    ])

-- `none` is `SessionEnvelopeError`.
unfoldable pub decrypt :
    AesGcmSessionCipher → SessionEnvelope → SessionEnvelopeContext → Option Text
decrypt cipher envelope context = elim (lookup envelope.key_version cipher.keys) [
  | none ↦ none
  | some key ↦
      if envelope.payload_schema_version == context.payload_schema_version
      then cipher.aead.decrypt_bytes key envelope.nonce envelope.ciphertext
          (cipher.aead.associated_data context envelope.key_version envelope.payload_schema_version)
      else none
]
