-- ===== src/Crypto.antt =====
-- internal/secretcrypto/cipher.go: associated data and the ring of encryption keys.
pub mod Binding
pub mod RoundTrip
use secretmediabot.Base.{
  ℕ, Bool, true, false, not, Option, none, some, List, [], ◌∷◌, ◌++◌, String, Uuid, Bytes, Text,
  ◌==◌, nat_eq, string_eq, if◌then◌else◌, length, codes, nil_uuid, is_none,
}
use secretmediabot.Base.Table.{find}

-- What the code takes of crypto/aes, crypto/cipher, crypto/sha256 and google/uuid.
pub record Primitives : Type 0 where
  pub nonce_size : ℕ
  pub seal : Bytes → Bytes → Bytes → Bytes → Bytes
  pub unseal : Bytes → Bytes → Bytes → Bytes → Option Bytes
  pub sum : Bytes → Bytes
  pub id_text : Uuid → Text

-- `panic` is the call of a method on a nil AEAD.
pub data Error : Type 0 where
  missing_record_id invalid_purpose missing_scope_id : Error
  missing_active_id no_keys empty_key_id invalid_key unknown_key : Error
  short_read invalid_nonce rejected corrupt_ciphertext panic : Error

pub data Outcome (A : Type 0) : Type 0 where
  done : A → Outcome A
  failed : Error → Outcome A

abbrev pub key_size : ℕ
key_size = 32

pub data RecordPurpose : Type 0 where
  media text caption callback : RecordPurpose
  other : String → RecordPurpose

unfoldable pub is_known_purpose : RecordPurpose → Bool
is_known_purpose (other s) = false
is_known_purpose _ = true

unfoldable pub purpose_text : RecordPurpose → Text
purpose_text media = codes "media"
purpose_text text = codes "text"
purpose_text caption = codes "caption"
purpose_text callback = codes "callback"
purpose_text (other s) = codes s

-- `strings.Join`, by one separator.
unfoldable pub join : ℕ → List Text → Text
join sep [] = []
join sep (p ∷ []) = p
join sep (p ∷ q ∷ ps) = p ++ sep ∷ join sep (q ∷ ps)

pub record EncryptedPayload : Type 0 where
  pub key_id : String
  pub nonce : Bytes
  pub ciphertext : Bytes
  pub ciphertext_sha256 : Bytes

-- An entry of the map of keys.
pub record Key : Type 0 where
  pub id : String
  pub secret : Bytes

pub record Keyring : Type 0 where
  pub active_id : String
  pub aeads : List Key

abbrev pub key_id : Key → String
key_id k = k.id

abbrev pub find_key : String → List Key → Option Key
find_key id keys = find key_id id keys

unfoldable pub check_keys : List Key → Option Error
check_keys [] = none
check_keys (k ∷ ks) =
    let rest = check_keys ks in
    if k.id == ""
    then some empty_key_id
    else if not (length k.secret == key_size)
    then some invalid_key
    else rest

-- `NewKeyring`; a key of 32 bytes has a cipher and a GCM.
unfoldable pub new_keyring : String → List Key → Outcome Keyring
unfolding check_keys
new_keyring active keys =
    if active == ""
    then failed missing_active_id
    else if length keys == 0
    then failed no_keys
    else elim (check_keys keys) [
      | some e ↦ failed e
      | none ↦
          if is_none (find_key active keys)
          then failed unknown_key
          else done (record { active_id = active; aeads = keys })
    ]

module _ (prims : Primitives) where
  unfoldable pub scope_texts : List Uuid → Outcome (List Text)
  scope_texts [] = done []
  scope_texts (id ∷ ids) =
      let rest = scope_texts ids in
      if id == nil_uuid
      then failed missing_scope_id
      else elim rest [ failed e ↦ failed e | done ts ↦ done (prims.id_text id ∷ ts) ]

  -- `AssociatedData`
  unfoldable pub associated_data : RecordPurpose → Uuid → List Uuid → Outcome Bytes
  unfolding scope_texts is_known_purpose purpose_text join
  associated_data purpose id scope =
      if id == nil_uuid
      then failed missing_record_id
      else if not (is_known_purpose purpose)
      then failed invalid_purpose
      else elim (scope_texts scope) [
        | failed e ↦ failed e
        | done ts ↦ done (
            join b':'
              (codes "secretsantabot" ∷ codes "v1" ∷ purpose_text purpose ∷ prims.id_text id ∷ ts))
      ]

  unfoldable pub seal_with :
      String → Option Key → Option Bytes → Bytes → Bytes → Outcome EncryptedPayload
  seal_with id none random plaintext data_value = failed panic
  seal_with id (some k) none plaintext data_value = failed short_read
  seal_with id (some k) (some nonce) plaintext data_value =
      let ciphertext = prims.seal k.secret nonce plaintext data_value in
      done (record {
        key_id = id;
        nonce = nonce;
        ciphertext = ciphertext;
        ciphertext_sha256 = prims.sum ciphertext;
      })

  -- `Encrypt`, from what the reader of random bytes fills the nonce with, if it does.
  unfoldable pub encrypt : Keyring → Option Bytes → Bytes → Bytes → Outcome EncryptedPayload
  unfolding seal_with
  encrypt ring random plaintext data_value =
      seal_with ring.active_id (find_key ring.active_id ring.aeads) random plaintext data_value

  unfoldable pub unseal_with : Option Key → Bytes → Bytes → Bytes → Outcome Bytes
  unseal_with none nonce ciphertext data_value = failed unknown_key
  unseal_with (some k) nonce ciphertext data_value =
      if not (length nonce == prims.nonce_size)
      then failed invalid_nonce
      else elim (prims.unseal k.secret nonce ciphertext data_value) [
        | none ↦ failed rejected
        | some plaintext ↦ done plaintext
      ]

  -- `Decrypt`
  unfoldable pub decrypt : Keyring → String → Bytes → Bytes → Bytes → Outcome Bytes
  unfolding unseal_with
  decrypt ring id nonce ciphertext data_value =
      unseal_with (find_key id ring.aeads) nonce ciphertext data_value
