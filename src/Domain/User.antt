-- ===== src/Domain/User.antt =====
-- internal/domain/user.go and internal/domain/chat.go: the identities that Telegram reports.
use secretmediabot.Base.{
  ℕ, ℤ, Bool, true, false, ◌&&◌, map, String, Time, Text, ◌==◌, nat_eq, leb, ltb, if◌then◌else◌,
  trim_space, ◌+◌, trim_left,
}

pub data ChatType : Type 0 where
  private group supergroup channel : ChatType
  other : String → ChatType

unfoldable pub is_valid_chat_type : ChatType → Bool
is_valid_chat_type (other s) = false
is_valid_chat_type _ = true

-- `ChatType.SupportsWhispers`
unfoldable pub supports_whispers : ChatType → Bool
supports_whispers group = true
supports_whispers supergroup = true
supports_whispers _ = false

pub record User : Type 0 where
  pub telegram_user_id : ℤ
  pub username : Text
  pub first_name : Text
  pub last_name : Text
  pub language_code : Text
  pub is_bot : Bool
  pub has_started_private_chat : Bool
  pub first_seen_at : Time
  pub last_seen_at : Time
  pub updated_at : Time

pub record Chat : Type 0 where
  pub telegram_chat_id : ℤ
  pub chat_type : ChatType
  pub title : Text
  pub username : Text
  pub first_seen_at : Time
  pub last_seen_at : Time
  pub updated_at : Time

-- `unicode.ToLower`, with its table beyond ASCII as an argument.
abbrev pub lower_rune : (ℕ → ℕ) → ℕ → ℕ
lower_rune beyond c = if leb b'A' c && leb c b'Z' then c + 32 else if ltb c 128 then c else beyond c

-- `User.NormalizedUsername`, and `normalizeUsername` of internal/repository/mapping.go.
unfoldable pub normalize_username : (ℕ → ℕ) → Text → Text
unfolding trim_left trim_space
normalize_username beyond s = map (lower_rune beyond) (trim_left (λ c. c == b'@') (trim_space s))
