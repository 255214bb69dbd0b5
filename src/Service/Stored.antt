-- ===== src/Service/Stored.antt =====
-- internal/service/crypto.go, and `encryptInput` of internal/service/ingest.go.
use secretmediabot.Base.{
  pos, ◌||◌, not, Option, [], ◌∷◌, String, Uuid, Time, Bytes, ◌==◌, nat_eq, int_eq, string_eq,
  list_eq, if◌then◌else◌, length, is_negative, sha256_size,
}
use secretmediabot.Crypto.{
  Primitives, Outcome, done, failed, corrupt_ciphertext, RecordPurpose, Keyring, EncryptedPayload,
  associated_data, encrypt, decrypt,
}
use secretmediabot.Repository.Mapping.{StoredEncryptedPayload}
use secretmediabot.Repository.Finalize.Checks.{EncryptedBlobInput}

module _ (prims : Primitives) where
  unfoldable pub check_length : StoredEncryptedPayload → Outcome Bytes → Outcome Bytes
  check_length payload (failed e) = failed e
  check_length payload (done plaintext) =
      if not (pos (length plaintext) == payload.plaintext_size)
      then failed corrupt_ciphertext
      else done plaintext

  unfoldable pub decrypt_bound : Keyring → StoredEncryptedPayload → Outcome Bytes → Outcome Bytes
  unfolding check_length
  decrypt_bound ring payload (failed e) = failed e
  decrypt_bound ring payload (done bound) =
      check_length payload
        (decrypt prims ring payload.encryption_key_id payload.nonce payload.ciphertext bound)

  -- `decryptStored`
  unfoldable pub decrypt_stored :
      Keyring → RecordPurpose → Uuid → StoredEncryptedPayload → Outcome Bytes
  unfolding decrypt_bound
  decrypt_stored ring purpose whisper payload =
      if not (payload.encryption_algorithm == "AES-256-GCM") || is_negative payload.plaintext_size
      then failed corrupt_ciphertext
      else if not (length payload.ciphertext_sha256 == sha256_size)
          || not (prims.sum payload.ciphertext == payload.ciphertext_sha256)
      then failed corrupt_ciphertext
      else decrypt_bound ring payload (associated_data prims purpose payload.id (whisper ∷ []))

  unfoldable pub input_of :
      Uuid → String → Bytes → Time → Outcome EncryptedPayload → Outcome EncryptedBlobInput
  input_of id kind plaintext retain (failed e) = failed e
  input_of id kind plaintext retain (done payload) = done (record {
    id = id;
    payload = payload;
    content_type = kind;
    plaintext_size = pos (length plaintext);
    retain_until = retain;
  })

  unfoldable pub encrypt_bound :
      Keyring
      → Option Bytes
      → Uuid
      → Bytes
      → String
      → Time
      → Outcome Bytes
      → Outcome EncryptedBlobInput
  unfolding input_of
  encrypt_bound ring random id plaintext kind retain (failed e) = failed e
  encrypt_bound ring random id plaintext kind retain (done bound) =
      input_of id kind plaintext retain (encrypt prims ring random plaintext bound)

  -- `encryptInput`, from what the reader of random bytes gives.
  unfoldable pub encrypt_input :
      Keyring
      → Option Bytes
      → RecordPurpose
      → Uuid
      → Uuid
      → Bytes
      → String
      → Time
      → Outcome EncryptedBlobInput
  unfolding encrypt_bound
  encrypt_input ring random purpose id whisper plaintext kind retain =
      encrypt_bound ring random id plaintext kind retain
        (associated_data prims purpose id (whisper ∷ []))
