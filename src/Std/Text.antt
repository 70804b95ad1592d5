-- ===== src/Std/Text.antt =====
-- What the program uses of `str`, on code points: `strip`, `lower`, `split`, `startswith` with
-- `removeprefix`, and `int` of a text; and `hmac.compare_digest`.
pub mod Decimals
use Prim.Native.Char.{code}
use cislunar_ground_platform.Base.{
  ℕ, zero, suc, ◌+◌, ◌*◌, Bool, true, false, not, ◌&&◌, Option, none, some, [], ◌∷◌, Bytes,
  bytes_eq, reverse, ltb, leb, ◌==◌, if◌then◌else◌, String, ◌≡◌, refl,
}
use cislunar_ground_platform.Base.Int.{ℤ, pos, negsuc}
use cislunar_ground_platform.Std.Unicode.{is_space, decimal_value}

abbrev pub codes : String → Bytes
codes String.[] = []
codes (String.◌∷◌ c s) = code c ∷ codes s

unfoldable pub lstrip : Bytes → Bytes
lstrip [] = []
lstrip (c ∷ cs) = if is_space c then lstrip cs else c ∷ cs

unfoldable pub strip : Bytes → Bytes
unfolding lstrip
strip cs = reverse (lstrip (reverse (lstrip cs)))

-- `text.split(separator, 1)[0]`
unfoldable pub before : ℕ → Bytes → Bytes
before separator [] = []
before separator (c ∷ cs) = if c == separator then [] else c ∷ before separator cs

-- `lower` of a text below 256, as headers are; beyond ASCII it maps no letter to an ASCII letter.
abbrev lower_char : ℕ → ℕ
lower_char c = if leb 65 c && leb c 90 then c + 32 else c

unfoldable pub lower : Bytes → Bytes
lower [] = []
lower (c ∷ cs) = lower_char c ∷ lower cs

-- `text.removeprefix(prefix)` where `text.startswith(prefix)`, and `none` where not.
unfoldable pub without_prefix : Bytes → Bytes → Option Bytes
without_prefix [] cs = some cs
without_prefix (p ∷ ps) [] = none
without_prefix (p ∷ ps) (c ∷ cs) = if c == p then without_prefix ps cs else none

-- The digits of an integer literal; single underscores may stand between digits. The second
-- argument says that a digit must follow.
unfoldable pub digits_value : ℕ → Bool → Bytes → Option ℕ
digits_value value true [] = none
digits_value value false [] = some value
digits_value value must (c ∷ cs) = elim (decimal_value c) [
  | some d ↦ digits_value (value * 10 + d) false cs
  | none ↦ if not must && c == b'_' then digits_value value true cs else none
]

-- `int` refuses a text of more than 4300 digits.
unfoldable pub digit_count : Bytes → ℕ
digit_count [] = 0
digit_count (c ∷ cs) = (if c == b'_' then 0 else 1) + digit_count cs

unfoldable pub unsigned_value : Bytes → Option ℕ
unfolding digits_value digit_count
unsigned_value cs = if ltb 4300 (digit_count cs) then none else digits_value 0 true cs

abbrev negated : ℕ → ℤ
negated zero = pos 0
negated (suc n) = negsuc n

unfoldable pub signed_value : Bytes → Option ℤ
unfolding unsigned_value
signed_value [] = none
signed_value (c ∷ cs) =
    if c == b'-'
    then elim (unsigned_value cs) [ none ↦ none | some n ↦ some (negated n) ]
    else elim (unsigned_value (if c == b'+' then cs else c ∷ cs)) [
      | none ↦ none
      | some n ↦ some (pos n)
    ]

-- `int(text)`; `none` stands for the `ValueError`.
unfoldable pub int_of : Bytes → Option ℤ
unfolding strip signed_value
int_of cs = signed_value (strip cs)

unfoldable pub is_ascii : Bytes → Bool
is_ascii [] = true
is_ascii (c ∷ cs) = ltb c 128 && is_ascii cs

-- `hmac.compare_digest` of two texts; `none` stands for the `TypeError` where one is not ASCII.
unfoldable pub compare_digest : Bytes → Bytes → Option Bool
unfolding is_ascii
compare_digest a b = if is_ascii a && is_ascii b then some (bytes_eq a b) else none

-- int(" -1_000 "), int("1__0"), int("")
thousand : int_of (codes " -1_000 ") ≡ some (negsuc 999)
unfolding int_of is_space decimal_value
thousand = refl

doubled : int_of (codes "1__0") ≡ none
unfolding int_of is_space decimal_value
doubled = refl
