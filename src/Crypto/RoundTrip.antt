-- ===== src/Crypto/RoundTrip.antt =====
-- What a keyring encrypts, a keyring with the same key decrypts.
use secretmediabot.Base.{
  ◌≡◌, refl, ap, ◌∙◌, inl, inr, some, List, String, Bytes, ◌==◌, nat_eq, string_eq, arith, length,
  Bool-cases, Option-cases, beq_refl,
}
use secretmediabot.Crypto.{
  Primitives, done, Key, Keyring, EncryptedPayload, find_key, new_keyring, seal_with, encrypt,
  unseal_with, decrypt,
}

-- A ring that is built has its active key.
new_keyring-active :
    (active : String) (keys : List Key) (ring : Keyring)
    → new_keyring active keys ≡ done ring
    → (ring.active_id ≡ active)
      × (ring.aeads ≡ keys)
      × ((k : Key) × (find_key active keys ≡ some k))
unfolding new_keyring
new_keyring-active active keys ring h = elim (Option-cases (find_key active keys)) [
  | inl missing ↦ absurd (ground (arith, h, missing))
  | inr found ↦ (ground (arith, h), ground (arith, h), found)
]

pub payload_same : (a b : EncryptedPayload) → done a ≡ done b → a ≡ b
payload_same a b h = cc

module _ (prims : Primitives) where
  -- GCM: what `Seal` gives, `Open` reads back under the same key, nonce and associated data.
  abbrev pub Opens : Type 0
  Opens =
      (key nonce plaintext bound : Bytes)
      → prims.unseal key nonce (prims.seal key nonce plaintext bound) bound ≡ some plaintext

  -- A keyring that `NewKeyring` builds encrypts whatever it is given, once the nonce is read, and
  -- every keyring that still has the key that was active then decrypts the payload, under the same
  -- associated data, to the plaintext.
  pub decrypt-encrypt :
      (active : String) (keys : List Key) (ring later : Keyring) (nonce plaintext bound : Bytes)
      → Opens
      → new_keyring active keys ≡ done ring
      → find_key active later.aeads ≡ find_key active keys
      → length nonce ≡ prims.nonce_size
      → (e : EncryptedPayload) × (encrypt prims ring (some nonce) plaintext bound ≡ done e)
        × (decrypt prims later e.key_id e.nonce e.ciphertext bound ≡ done plaintext)
        × (e.ciphertext_sha256 ≡ prims.sum e.ciphertext)
  unfolding encrypt decrypt seal_with unseal_with
  decrypt-encrypt active keys ring later nonce plaintext bound opens built kept size =
      let (same, all_keys, (k, found)) = new_keyring-active active keys ring built in
      rw (same, all_keys, found)
        (
          record {
            key_id = active;
            nonce = nonce;
            ciphertext = prims.seal k.secret nonce plaintext bound;
            ciphertext_sha256 = prims.sum (prims.seal k.secret nonce plaintext bound);
          },
          refl,
          rw (kept, found, size, beq_refl prims.nonce_size, opens k.secret nonce plaintext bound)
              refl,
          refl,
        )

  -- GCM authenticates: what `Seal` gives does not open under other associated data.
  abbrev pub Authenticates : Type 0
  Authenticates =
      (key nonce plaintext bound other opened : Bytes)
      → prims.unseal key nonce (prims.seal key nonce plaintext bound) other ≡ some opened
      → other ≡ bound

  unseal_with-done :
      (k : Key) (nonce ciphertext other opened : Bytes)
      → unseal_with prims (some k) nonce ciphertext other ≡ done opened
      → prims.unseal k.secret nonce ciphertext other ≡ some opened
  unfolding unseal_with
  unseal_with-done k nonce ciphertext other opened h =
      elim (Option-cases (prims.unseal k.secret nonce ciphertext other)) [
        | inl closed ↦ elim (Bool-cases (length nonce == prims.nonce_size)) [
          | inl fits ↦ cc (rw (fits, closed) at h)
          | inr short ↦ cc (rw short at h)
        ]
        | inr (p, read) ↦ elim (Bool-cases (length nonce == prims.nonce_size)) [
          | inl fits ↦ read ∙ ap some (ground (arith, rw (fits, read) at h))
          | inr short ↦ cc (rw short at h)
        ]
      ]

  pub decrypt-authentic :
      (active : String) (keys : List Key) (ring later : Keyring)
      (nonce plaintext bound other opened : Bytes) (e : EncryptedPayload)
      → Authenticates
      → new_keyring active keys ≡ done ring
      → find_key active later.aeads ≡ find_key active keys
      → encrypt prims ring (some nonce) plaintext bound ≡ done e
      → decrypt prims later e.key_id e.nonce e.ciphertext other ≡ done opened
      → other ≡ bound
  unfolding encrypt decrypt seal_with
  decrypt-authentic active keys ring later nonce plaintext bound other opened e authentic built kept
        made read =
      let (same, all_keys, (k, found)) = new_keyring-active active keys ring built in
      let sealed : EncryptedPayload = record {
        key_id = active;
        nonce = nonce;
        ciphertext = prims.seal k.secret nonce plaintext bound;
        ciphertext_sha256 = prims.sum (prims.seal k.secret nonce plaintext bound);
      } in
      let same_payload : sealed ≡ e = payload_same sealed e (rw (same, all_keys, found) at made) in
      let read' : decrypt prims later active nonce sealed.ciphertext other ≡ done opened =
        ap (λ (x : EncryptedPayload). decrypt prims later x.key_id x.nonce x.ciphertext other)
          same_payload
        ∙ read in
      authentic k.secret nonce plaintext bound other opened
        (unseal_with-done k nonce sealed.ciphertext other opened (rw (kept, found) at read'))
