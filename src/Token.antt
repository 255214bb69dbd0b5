-- ===== src/Token.antt =====
-- internal/token/token.go: the callback tokens, on the bytes of a string.
pub mod Canonical
use secretmediabot.Base.{
  ℕ, ◌*◌, ◌+◌, ◌/◌, ◌≡◌, Bool, true, false, ◌&&◌, ◌||◌, not, Option, none, some, List, [], ◌∷◌,
  ◌++◌, Bytes, ◌==◌, nat_eq, list_eq, if◌then◌else◌, leb, ltb, length, codes, String,
}

-- What the code takes of encoding/base64 (`RawURLEncoding`) and of crypto/sha256.
pub record Codec : Type 0 where
  pub encode : Bytes → Bytes
  pub decode : Bytes → Option Bytes
  pub sum : Bytes → Bytes

pub data Error : Type 0 where
  callback_data_too_long invalid_prefix invalid_token_length invalid_token_encoding : Error
  short_read : Error

pub data Parsed (A : Type 0) : Type 0 where
  accepted : A → Parsed A
  refused : Error → Parsed A

abbrev pub callback_prefix : Bytes
callback_prefix = codes "w:"

abbrev pub raw_token_bytes : ℕ
raw_token_bytes = 32

abbrev pub encoded_token_length : ℕ
encoded_token_length = (raw_token_bytes * 8 + 5) / 6

abbrev pub max_callback_data_length : ℕ
max_callback_data_length = 64

pub record CallbackToken : Type 0 where
  pub data_value : Bytes
  pub raw : Bytes
  pub hash : Bytes

-- `strings.TrimPrefix` of a string that has the prefix, as `HasPrefix` tells.
unfoldable pub strip : Bytes → Bytes → Option Bytes
strip [] s = some s
strip (p ∷ ps) [] = none
strip (p ∷ ps) (c ∷ s) = let rest = strip ps s in if p == c then rest else none

-- The characters of the loop of `ParseCallbackData`.
abbrev pub is_token_char : ℕ → Bool
is_token_char c =
    (leb b'A' c && leb c b'Z')
    || (leb b'a' c && leb c b'z')
    || (leb b'0' c && leb c b'9')
    || c == b'-'
    || c == b'_'

unfoldable pub all_token_chars : Bytes → Bool
all_token_chars [] = true
all_token_chars (c ∷ s) = is_token_char c && all_token_chars s

module _ (codec : Codec) where
  -- The end of `ParseCallbackData`, on what the strict decoder returns.
  unfoldable pub check_decoded : Bytes → Option Bytes → Parsed Bytes
  check_decoded raw none = refused invalid_token_encoding
  check_decoded raw (some decoded) =
      if not (length decoded == raw_token_bytes)
      then refused invalid_token_length
      else if not (codec.encode decoded == raw)
      then refused invalid_token_encoding
      else accepted raw

  unfoldable pub check_raw : Option Bytes → Parsed Bytes
  unfolding check_decoded all_token_chars
  check_raw none = refused invalid_prefix
  check_raw (some raw) =
      if not (length raw == encoded_token_length)
      then refused invalid_token_length
      else if not (all_token_chars raw)
      then refused invalid_token_encoding
      else check_decoded raw (codec.decode raw)

  -- `ParseCallbackData`
  unfoldable pub parse_callback_data : Bytes → Parsed Bytes
  unfolding check_raw strip
  parse_callback_data s =
      if ltb max_callback_data_length (length s)
      then refused callback_data_too_long
      else check_raw (strip callback_prefix s)

  -- `generate`, from what the reader of random bytes fills the buffer with, if it does.
  unfoldable pub generate : Option Bytes → Parsed CallbackToken
  generate none = refused short_read
  generate (some random) = accepted (record {
    data_value = callback_prefix ++ codec.encode random;
    raw = codec.encode random;
    hash = codec.sum (codec.encode random);
  })

  -- `ParseAndHash`
  unfoldable pub parse_and_hash : Bytes → Parsed Bytes
  unfolding parse_callback_data
  parse_and_hash s = elim (parse_callback_data s) [
    | refused e ↦ refused e
    | accepted raw ↦ accepted (codec.sum raw)
  ]
