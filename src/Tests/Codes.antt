-- ===== src/Tests/Codes.antt =====
-- Tokens and encrypted payloads, over a codec and a cipher that are small enough to compute.
use secretmediabot.Base.{
  ℕ, ◌≡◌, refl, pos, true, Option, none, some, List, [], ◌∷◌, ◌++◌, Bytes, Uuid, ◌==◌, nat_eq,
  list_eq, string_eq, if◌then◌else◌, length, arith, codes, list_beq, Bool-cases, inl, inr, ◌↔◌, ◌+◌,
}
use secretmediabot.Base.Table.{find}
use secretmediabot.Token.{
  Codec, CallbackToken, accepted, callback_prefix, generate, parse_callback_data, parse_and_hash,
  all_token_chars,
}
use secretmediabot.Token.Canonical.{Encodes, parse_callback_data_iff, parse-generate}
use secretmediabot.Crypto.{
  Primitives, done, text, Key, Keyring, find_key, new_keyring, encrypt, associated_data,
}
use secretmediabot.Crypto.Binding.{Writes, lacks}
use secretmediabot.Crypto.RoundTrip.{Opens, Authenticates}
use secretmediabot.Repository.Rows.{TextPurpose}
use secretmediabot.Repository.Mapping.{media_to_stored, text_to_stored, callback_to_stored}
use secretmediabot.Repository.Finalize.Checks.{EncryptedBlobInput}
use secretmediabot.Repository.Finalize.Rows.{media_row, text_payload_row, callback_token_row}
use secretmediabot.Service.Stored.{encrypt_input, decrypt_stored}
use secretmediabot.Service.RoundTrip.{decrypt_stored-encrypt_input, decrypt_stored-binds}
use secretmediabot.Tests.Samples.{hash}

abbrev letters : Bytes
letters = b'A' ∷ b'B' ∷ b'C' ∷ b'D' ∷ b'-' ∷ b'_' ∷ b'0' ∷ b'z' ∷ []

abbrev raw_text : Bytes
raw_text = letters ++ letters ++ letters ++ letters ++ letters ++ b'a' ∷ b'b' ∷ b'c' ∷ []

abbrev sample_codec : Codec
sample_codec = record {
  encode = λ b. if b == hash then raw_text else [];
  decode = λ s. if s == raw_text then some hash else none;
  sum = λ s. length s ∷ [];
}

all_chars : all_token_chars raw_text ≡ true
unfolding all_token_chars
all_chars = refl

hash-Encodes : Encodes sample_codec hash raw_text
unfolding list_beq
hash-Encodes = record {
  size = refl;
  encoded = refl;
  decoded = refl;
  encoded_size = refl;
  alphabet = all_chars;
}

abbrev sample_token : CallbackToken
sample_token = record { data_value = callback_prefix ++ raw_text; raw = raw_text; hash = 43 ∷ [] }

parse_callback_data_iff_example :
    (parse_callback_data sample_codec (callback_prefix ++ raw_text) ≡ accepted raw_text) ↔ (
      (callback_prefix ++ raw_text ≡ callback_prefix ++ raw_text)
      × ((b : Bytes) × Encodes sample_codec b raw_text))
parse_callback_data_iff_example =
    parse_callback_data_iff sample_codec (callback_prefix ++ raw_text) raw_text

sample-generated : generate sample_codec (some hash) ≡ accepted sample_token
unfolding generate list_beq
sample-generated = refl

parse-generate_example :
    (parse_callback_data sample_codec sample_token.data_value ≡ accepted raw_text)
    × (parse_and_hash sample_codec sample_token.data_value ≡ accepted (43 ∷ []))
unfolding list_beq
parse-generate_example = parse-generate sample_codec hash sample_token hash-Encodes sample-generated

-- A cipher that writes its associated data before the plaintext, without secrecy.
read_after : Bytes → Bytes → Option Bytes
read_after [] s = some s
read_after (b ∷ bs) [] = none
read_after (b ∷ bs) (c ∷ s) = let rest = read_after bs s in if b == c then rest else none

abbrev open_plain : Bytes → Bytes → Option Bytes
open_plain bound [] = none
open_plain bound (n ∷ s) = if n == length bound then read_after bound s else none

abbrev plain_cipher : Primitives
plain_cipher = record {
  nonce_size = 2;
  seal = λ key nonce plaintext bound. length bound ∷ bound ++ plaintext;
  unseal = λ key nonce ciphertext bound. open_plain bound ciphertext;
  sum = λ b. hash;
  id_text = λ id. (id + 100) ∷ [];
}

read_after-append : (bound s : Bytes) → read_after bound (bound ++ s) ≡ some s
unfolding read_after
read_after-append [] s = refl
read_after-append (b ∷ bound) s = ground (arith, nat_eq.beq_iff b b, read_after-append bound s)

nat_refl : (n : ℕ) → (n == n) ≡ true
nat_refl n = (nat_eq.beq_iff n n).1 refl

head_same : (u v : ℕ) → ◌≡◌ {A = List ℕ} ((u + 100) ∷ []) ((v + 100) ∷ []) → u ≡ v
head_same u v h = ground (arith, h)

plain-Opens : Opens plain_cipher
plain-Opens key nonce plaintext bound =
    rw (nat_refl (length bound)) (read_after-append bound plaintext)

read_after-same :
    (other bound s opened : Bytes)
    → length bound ≡ length other
    → read_after other (bound ++ s) ≡ some opened
    → other ≡ bound
unfolding read_after
read_after-same [] [] s opened n h = refl
read_after-same [] (b ∷ bound) s opened n h = absurd (ground arith)
read_after-same (c ∷ other) [] s opened n h = absurd (ground arith)
read_after-same (c ∷ other) (b ∷ bound) s opened n h =
    ground (arith, nat_eq.beq_iff c b, read_after-same other bound s opened)

plain-Authenticates : Authenticates plain_cipher
plain-Authenticates key nonce plaintext bound other opened h =
    elim (Bool-cases (length bound == length other)) [
      | inl same ↦
          read_after-same other bound plaintext opened ((nat_eq.beq_iff _ _).0 same) (rw same at h)
      | inr unlike ↦ cc (rw unlike at h)
    ]

plain-Writes : Writes plain_cipher
unfolding lacks
plain-Writes = record {
  id_lacks = λ u. ground arith;
  id_injective = λ u v hu hv h. head_same u v h;
}

abbrev sample_keys : List Key
sample_keys = record { id = "k1"; secret = hash } ∷ record { id = "k2"; secret = hash } ∷ []

abbrev old_ring : Keyring
old_ring = record { active_id = "k1"; aeads = sample_keys }

abbrev new_ring : Keyring
new_ring = record { active_id = "k2"; aeads = sample_keys }

ring_built : new_keyring "k1" sample_keys ≡ done old_ring
unfolding new_keyring find
ring_built = refl

key_kept : find_key "k1" new_ring.aeads ≡ find_key "k1" sample_keys
key_kept = refl

abbrev plaintext : Bytes
plaintext = 104 ∷ 105 ∷ []

abbrev sample_bound : Bytes
sample_bound = codes "secretsantabot:v1:text:i:e"

abbrev pub sealed_input : EncryptedBlobInput
sealed_input = record {
  id = 5;
  payload = record {
    key_id = "k1";
    nonce = 1 ∷ 2 ∷ [];
    ciphertext = 26 ∷ sample_bound ++ plaintext;
    ciphertext_sha256 = hash;
  };
  content_type = "text/plain";
  plaintext_size = pos 2;
  retain_until = 900;
}

input_sealed :
    encrypt_input plain_cipher old_ring (some (1 ∷ 2 ∷ [])) text 5 1 plaintext "text/plain" 900
    ≡ done sealed_input
unfolding encrypt_input find associated_data encrypt
input_sealed = refl

decrypt_stored-encrypt_input_example :
    (decrypt_stored plain_cipher new_ring text 1 (media_to_stored (media_row 1 sealed_input 50 900))
      ≡ done plaintext)
    × (decrypt_stored plain_cipher new_ring text 1
          (text_to_stored (text_payload_row 1 TextPurpose.text sealed_input 50 900))
        ≡ done plaintext)
    × (decrypt_stored plain_cipher new_ring text 1
          (callback_to_stored (callback_token_row 1 sealed_input 50))
        ≡ done plaintext)
decrypt_stored-encrypt_input_example =
    decrypt_stored-encrypt_input plain_cipher "k1" sample_keys old_ring new_ring (1 ∷ 2 ∷ [])
      plaintext text 5 1 "text/plain" 900 50 900 TextPurpose.text sealed_input plain-Opens
      (λ b. refl) ring_built key_kept refl input_sealed

abbrev text_row_id : Uuid
text_row_id = 5

abbrev whisper_id : Uuid
whisper_id = 1

decrypt_stored-binds_example :
    (text ≡ text) × (text_row_id ≡ text_row_id) × (whisper_id ≡ whisper_id)
decrypt_stored-binds_example =
    decrypt_stored-binds plain_cipher "k1" sample_keys old_ring new_ring (1 ∷ 2 ∷ []) plaintext
      plaintext text text text_row_id text_row_id whisper_id whisper_id "text/plain" 900 50 900
      sealed_input plain-Authenticates plain-Writes
      (omega arith, (omega arith, (omega arith, (omega arith, tt)))) ring_built key_kept
      input_sealed decrypt_stored-encrypt_input_example.0
