-- ===== src/Base/Types.antt =====
-- The values that every component handles. Instants and durations are natural numbers of one unit,
-- 0 is the zero `time.Time`; a UUID is its 128 bits as a number, 0 is `uuid.Nil`; a byte string is
-- the list of its bytes, and a text that the code walks is the list of its runes.
use Prim.Native.Nat.{ℕ}
use Prim.Native.Char.{code}
use Prim.Native.String.{String}
use mathlib.Core.Bool.{Bool, ◌&&◌, ◌||◌}
use mathlib.Core.List.{List, [], ◌∷◌, reverse}
use secretmediabot.Base.Tests.{◌==◌, nat_eq, ltb, leb, if◌then◌else◌}

abbrev pub Time : Type 0
Time = ℕ

abbrev pub Uuid : Type 0
Uuid = ℕ

abbrev pub Bytes : Type 0
Bytes = List ℕ

abbrev pub Text : Type 0
Text = List ℕ

abbrev pub nil_uuid : Uuid
nil_uuid = 0

-- `t.IsZero()`, and `a.After(b)`, `a.Before(b)`, `a.Equal(b)` as orders of numbers.
abbrev pub is_zero_time : Time → Bool
is_zero_time t = t == 0

abbrev pub after : Time → Time → Bool
after a b = ltb b a

abbrev pub before : Time → Time → Bool
before a b = ltb a b

-- `sha256.Size`
abbrev pub sha256_size : ℕ
sha256_size = 32

-- `unicode.IsSpace`
pub is_space : ℕ → Bool
is_space c =
    (leb 0x09 c && leb c 0x0d)
    || c == 0x20
    || c == 0x85
    || c == 0xa0
    || c == 0x1680
    || (leb 0x2000 c && leb c 0x200a)
    || c == 0x2028
    || c == 0x2029
    || c == 0x202f
    || c == 0x205f
    || c == 0x3000

unfoldable pub trim_left : (ℕ → Bool) → Text → Text
trim_left p [] = []
trim_left p (c ∷ s) = if p c then trim_left p s else c ∷ s

pub trim_right : (ℕ → Bool) → Text → Text
unfolding trim_left
trim_right p s = reverse (trim_left p (reverse s))

-- `strings.TrimSpace`
unfoldable pub trim_space : Text → Text
unfolding trim_left trim_right is_space
trim_space s = trim_right is_space (trim_left is_space s)

-- The runes of a literal.
abbrev pub codes : String → Text
codes String.[] = []
codes (String.◌∷◌ c s) = code c ∷ codes s
