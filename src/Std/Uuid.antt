-- ===== src/Std/Uuid.antt =====
-- `uuid.UUID` as its 128-bit number, and its canonical text as code points; `bytes.hex`.
pub mod RoundTrip
use cislunar_ground_platform.Base.{
  ℕ, zero, suc, ◌+◌, ◌-◌, ◌*◌, Bool, false, true, not, ◌&&◌, ◌||◌, Option, none, some, List, [],
  ◌∷◌, ◌++◌, Bytes, ltb, leb, ◌==◌, if◌then◌else◌, map, take, drop,
}
use cislunar_ground_platform.Base.Digits.{be_digits}

-- The value of the digits so far, after one more character.
abbrev pub next_value : ℕ → ℕ → ℕ
next_value value c = if c == b'-' then value else value * 16 + (if ltb c 58 then c - 48 else c - 87)

-- `uuid.UUID(text)` of a canonical text: its digits in base 16.
unfoldable pub uuid_of : ℕ → Bytes → ℕ
uuid_of value [] = value
uuid_of value (c ∷ cs) = uuid_of (next_value value c) cs

-- A lower-case hexadecimal digit.
abbrev pub hex_char : ℕ → ℕ
hex_char d = if ltb d 10 then 48 + d else 87 + d

-- Groups of characters with dashes between them.
unfoldable pub groups : List ℕ → Bytes → Bytes
groups [] cs = cs
groups (k ∷ ks) cs = take k cs ++ (b'-' ∷ groups ks (drop k cs))

-- `str(value)`
unfoldable pub uuid_text : ℕ → Bytes
unfolding be_digits groups
uuid_text value = groups (8 ∷ 4 ∷ 4 ∷ 4 ∷ []) (map hex_char (be_digits 15 32 value))

-- `bytes.hex`
unfoldable pub hex : Bytes → Bytes
unfolding be_digits
hex [] = []
hex (b ∷ bs) = map hex_char (be_digits 15 2 b) ++ hex bs
