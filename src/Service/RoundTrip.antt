-- ===== src/Service/RoundTrip.antt =====
-- A payload that the service encrypts, the repository stores, and the service reads back.
use secretmediabot.Base.{
  ℤ, ◌≡◌, refl, sym, ap, ◌∙◌, inl, inr, pos, ◌||◌, not, Option, some, List, [], ◌∷◌, String, Uuid,
  Time, Bytes, ◌==◌, nat_eq, int_eq, string_eq, list_eq, arith, length, beq_refl, All, is_negative,
  Bool-cases, sha256_size,
}
use secretmediabot.Crypto.{
  Primitives, Outcome, done, failed, RecordPurpose, Key, Keyring, EncryptedPayload, find_key,
  new_keyring, associated_data, encrypt, decrypt,
}
use secretmediabot.Crypto.Binding.{Writes, IsUuid, Outcome-cases, associated_data-injective}
use secretmediabot.Crypto.RoundTrip.{
  Opens, Authenticates, payload_same, decrypt-encrypt, decrypt-authentic,
}
use secretmediabot.Repository.Rows.{TextPurpose}
use secretmediabot.Repository.Mapping.{
  StoredEncryptedPayload, media_to_stored, text_to_stored, callback_to_stored,
}
use secretmediabot.Repository.Finalize.Checks.{EncryptedBlobInput}
use secretmediabot.Repository.Finalize.Rows.{media_row, text_payload_row, callback_token_row}
use secretmediabot.Service.Stored.{
  check_length, decrypt_bound, decrypt_stored, input_of, encrypt_bound, encrypt_input,
}

head_same : (a b : Uuid) → ◌≡◌ {A = List Uuid} (a ∷ []) (b ∷ []) → a ≡ b
head_same a b h = cc

module _ (prims : Primitives) where
  -- What a successful encryption of an input has done.
  encrypt_input-done :
      (ring : Keyring) (random : Option Bytes) (purpose : RecordPurpose) (id whisper : Uuid)
      (plaintext : Bytes) (kind : String) (retain : Time) (i : EncryptedBlobInput)
      → encrypt_input prims ring random purpose id whisper plaintext kind retain ≡ done i
      → (bound : Bytes) × (associated_data prims purpose id (whisper ∷ []) ≡ done bound)
        × (encrypt prims ring random plaintext bound ≡ done i.payload)
        × (i.id ≡ id)
        × (i.plaintext_size ≡ pos (length plaintext))
  unfolding encrypt_input encrypt_bound input_of
  encrypt_input-done ring random purpose id whisper plaintext kind retain i h =
      elim (Outcome-cases (associated_data prims purpose id (whisper ∷ []))) [
        | inr (e, none_bound) ↦ cc (rw none_bound at h)
        | inl (bound, is_bound) ↦ elim (Outcome-cases (encrypt prims ring random plaintext bound)) [
          | inr (e, none_sealed) ↦ cc (rw (is_bound, none_sealed) at h)
          | inl (payload, is_sealed) ↦
              let same = rw (is_bound, is_sealed) at h in
              (
                bound,
                is_bound,
                is_sealed ∙ ground (arith, same),
                ground (arith, same),
                ground (arith, same),
              )
        ]
      ]

  -- `Sum256` has 32 bytes.
  abbrev pub Digests : Type 0
  Digests = (b : Bytes) → length (prims.sum b) ≡ 32

  -- The columns of a stored payload.
  abbrev stored : Uuid → String → Bytes → Bytes → Bytes → ℤ → String → Time → StoredEncryptedPayload
  stored id key nonce ciphertext hash size kind retain = record {
    id = id;
    encryption_algorithm = "AES-256-GCM";
    encryption_key_id = key;
    nonce = nonce;
    ciphertext = ciphertext;
    ciphertext_sha256 = hash;
    content_type = kind;
    plaintext_size = size;
    retain_until = retain;
  }

  decrypt_stored-done :
      (ring : Keyring) (purpose : RecordPurpose) (id whisper : Uuid) (key : String)
      (nonce ciphertext hash : Bytes) (size : ℤ) (kind : String) (retain : Time)
      (bound plaintext : Bytes)
      → Digests
      → associated_data prims purpose id (whisper ∷ []) ≡ done bound
      → decrypt prims ring key nonce ciphertext bound ≡ done plaintext
      → hash ≡ prims.sum ciphertext
      → size ≡ pos (length plaintext)
      → decrypt_stored prims ring purpose whisper
          (stored id key nonce ciphertext hash size kind retain)
        ≡ done plaintext
  unfolding decrypt_stored decrypt_bound check_length
  decrypt_stored-done ring purpose id whisper key nonce ciphertext hash size kind retain bound
        plaintext digests is_bound opened hashed sized =
      rw
        (
          hashed,
          sized,
          digests ciphertext,
          beq_refl (prims.sum ciphertext),
          is_bound,
          opened,
          beq_refl (length plaintext),
        )
        refl

  -- Under the documented behaviour of GCM and SHA-256, a payload that a keyring encrypts for a purpose, a record
  -- and a whisper, and that is stored as a media, text or caption row or as a callback token, is read back as
  -- the plaintext by every keyring that still has the key.
  pub decrypt_stored-encrypt_input :
      (active : String) (keys : List Key) (ring later : Keyring) (nonce plaintext : Bytes)
      (purpose : RecordPurpose) (id whisper : Uuid) (kind : String) (retain now fallback : Time)
      (column : TextPurpose) (i : EncryptedBlobInput)
      → Opens prims
      → Digests
      → new_keyring active keys ≡ done ring
      → find_key active later.aeads ≡ find_key active keys
      → length nonce ≡ prims.nonce_size
      → encrypt_input prims ring (some nonce) purpose id whisper plaintext kind retain ≡ done i
      → (decrypt_stored prims later purpose whisper
            (media_to_stored (media_row whisper i now fallback))
          ≡ done plaintext)
        × (decrypt_stored prims later purpose whisper
              (text_to_stored (text_payload_row whisper column i now fallback))
            ≡ done plaintext)
        × (decrypt_stored prims later purpose whisper
              (callback_to_stored (callback_token_row whisper i now))
            ≡ done plaintext)
  decrypt_stored-encrypt_input active keys ring later nonce plaintext purpose id whisper kind retain
        now fallback column i opens digests built kept size made =
      let (bound, is_bound, is_sealed, same_id, same_size) =
        encrypt_input-done ring (some nonce) purpose id whisper plaintext kind retain i made in
      let (e, sealed, opened, hashed) =
        decrypt-encrypt prims active keys ring later nonce plaintext bound opens built kept size in
      let same : e ≡ i.payload = payload_same e i.payload (sym sealed ∙ is_sealed) in
      let opened' : decrypt prims later i.payload.key_id i.payload.nonce i.payload.ciphertext bound
          ≡ done plaintext =
        sym (
          ap (λ (x : EncryptedPayload). decrypt prims later x.key_id x.nonce x.ciphertext bound)
            same)
        ∙ opened in
      let hashed' : i.payload.ciphertext_sha256 ≡ prims.sum i.payload.ciphertext =
        sym (ap (λ (x : EncryptedPayload). x.ciphertext_sha256) same)
        ∙ hashed
        ∙ ap (λ (x : EncryptedPayload). prims.sum x.ciphertext) same in
      let bound' : associated_data prims purpose i.id (whisper ∷ []) ≡ done bound =
        ap (λ k. associated_data prims purpose k (whisper ∷ [])) same_id ∙ is_bound in
      let read = λ (content : String) (until : Time).
        decrypt_stored-done later purpose i.id whisper i.payload.key_id i.payload.nonce
          i.payload.ciphertext i.payload.ciphertext_sha256 i.plaintext_size content until bound
          plaintext digests bound' opened' hashed' same_size in
      (read _ _, read _ _, read _ _)

  length_checked :
      (s : StoredEncryptedPayload) (o : Outcome Bytes) (opened : Bytes)
      → check_length prims s o ≡ done opened
      → o ≡ done opened
  unfolding check_length
  length_checked s (done plaintext) opened h = ground (arith, h)
  length_checked s (failed e) opened h = cc

  -- A stored payload that is read back has its associated data, under which it is decrypted.
  decrypt_stored-opened :
      (ring : Keyring) (purpose : RecordPurpose) (id whisper : Uuid) (key : String)
      (nonce ciphertext hash : Bytes) (size : ℤ) (kind : String) (retain : Time) (opened : Bytes)
      → decrypt_stored prims ring purpose whisper
          (stored id key nonce ciphertext hash size kind retain)
        ≡ done opened
      → (bound : Bytes) × (associated_data prims purpose id (whisper ∷ []) ≡ done bound)
        × (decrypt prims ring key nonce ciphertext bound ≡ done opened)
  unfolding decrypt_stored decrypt_bound check_length
  decrypt_stored-opened ring purpose id whisper key nonce ciphertext hash size kind retain opened
        h =
      elim (Bool-cases (is_negative size)) [
        | inl negative ↦ cc (rw negative at h)
        | inr sized ↦
            elim (Bool-cases
              (not (length hash == sha256_size) || not (prims.sum ciphertext == hash))) [
                | inl corrupt ↦ cc (rw (sized, corrupt) at h)
                | inr sound ↦
                    elim (Outcome-cases (associated_data prims purpose id (whisper ∷ []))) [
                      | inr (e, none_bound) ↦ cc (rw (sized, sound, none_bound) at h)
                      | inl (bound, is_bound) ↦ (
                        bound,
                        is_bound,
                        length_checked (stored id key nonce ciphertext hash size kind retain) _
                            opened (rw (sized, sound, is_bound) at h),
                      )
                    ]
              ]
      ]

  -- A payload that is encrypted for one purpose, record and whisper is read back for no other, where GCM authenticates
  -- and identifiers are of 128 bits with distinct texts.
  pub decrypt_stored-binds :
      (active : String) (keys : List Key) (ring later : Keyring) (nonce plaintext opened : Bytes)
      (purpose asked : RecordPurpose) (id row whisper owner : Uuid) (kind : String)
      (retain now fallback : Time) (i : EncryptedBlobInput)
      → Authenticates prims
      → Writes prims
      → All IsUuid (id ∷ whisper ∷ row ∷ owner ∷ [])
      → new_keyring active keys ≡ done ring
      → find_key active later.aeads ≡ find_key active keys
      → encrypt_input prims ring (some nonce) purpose id whisper plaintext kind retain ≡ done i
      → decrypt_stored prims later asked owner
          (media_to_stored (record (media_row whisper i now fallback) { id = row }))
        ≡ done opened
      → (asked ≡ purpose) × (row ≡ id) × (owner ≡ whisper)
  decrypt_stored-binds active keys ring later nonce plaintext opened purpose asked id row whisper
        owner kind retain now fallback i authentic writes ids built kept made read =
      let (bound, is_bound, is_sealed, _, _) =
        encrypt_input-done ring (some nonce) purpose id whisper plaintext kind retain i made in
      let (other, is_other, opens) =
        decrypt_stored-opened later asked row owner _ _ _ _ _ _ _ opened read in
      let same =
        decrypt-authentic prims active keys ring later nonce plaintext bound other opened i.payload
          authentic built kept is_sealed opens in
      let (purposes, rows, owners) =
        associated_data-injective prims asked purpose row id (owner ∷ []) (whisper ∷ []) other
          writes ids.1.1 (ids.0, (ids.1.0, tt)) is_other (is_bound ∙ ap done (sym same)) in
      (purposes, rows, head_same owner whisper owners)
