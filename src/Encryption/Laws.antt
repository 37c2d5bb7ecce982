-- ===== src/Encryption/Laws.antt =====
-- What is sealed under a context is opened under it.
use agnostic_market.Base.{◌≡◌, inl, inr, some, arith, Option-cases}
use agnostic_market.Text.{Text}
use agnostic_market.Dict.{lookup}
use agnostic_market.Encryption.{
  Aead, AesGcmSessionCipher, SessionEnvelope, SessionEnvelopeContext, encrypt, decrypt,
}

-- AES-GCM opens what it sealed with the same key, nonce and associated data.
abbrev pub Opens : Aead → Type 0
Opens aead =
    (key nonce plaintext data' : Text)
    → aead.decrypt_bytes key nonce (aead.encrypt_bytes key nonce plaintext data') data'
      ≡ some plaintext

-- What a cipher sealed under a context it opens under that context, where AES-GCM opens what it
-- sealed.
pub decrypt-encrypt :
    (cipher : AesGcmSessionCipher) (nonce plaintext : Text) (context : SessionEnvelopeContext)
    (envelope : SessionEnvelope)
    → Opens cipher.aead
    → encrypt cipher nonce plaintext context ≡ some envelope
    → decrypt cipher envelope context ≡ some plaintext
unfolding encrypt decrypt
decrypt-encrypt cipher nonce plaintext context envelope opens sealed =
    elim (Option-cases (lookup cipher.active_key_version cipher.keys)) [
      | inl missing ↦ ground (arith, sealed, missing)
      | inr (key, held) ↦ ground (
        arith,
        sealed,
        held,
        opens key nonce plaintext (
            cipher.aead.associated_data context cipher.active_key_version
              context.payload_schema_version),
      )
    ]
