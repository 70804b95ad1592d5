-- ===== src/Std/Struct.antt =====
-- Python's `struct` for big-endian formats without padding: a format is a list of fields, `pack`
-- raises `struct.error` on a value out of range or on a wrong count, and `unpack` on a wrong size.
pub mod RoundTrip
use cislunar_ground_platform.Base.{
  ℕ, suc, ◌+◌, ◌-◌, ◌*◌, ◌^◌, Option, none, some, List, [], ◌∷◌, ◌++◌, Bytes, ltb, leb, ◌==◌,
  if◌then◌else◌, length, take, drop,
}
use cislunar_ground_platform.Base.Int.{ℤ, pos, negsuc}
use cislunar_ground_platform.Base.Digits.{be_digits, be_value}

-- `B`, `H`, `I` and `Q` are unsigned of width 1, 2, 4 and 8; `h` and `i` are signed of 2 and 4.
pub data Field : Type 0 where
  unsigned : ℕ → Field
  signed : ℕ → Field

abbrev pub Format : Type 0
Format = List Field

abbrev pub width : Field → ℕ
width (unsigned k) = k
width (signed k) = k

-- `Struct.size`
abbrev pub size : Format → ℕ
size [] = 0
size (f ∷ fs) = width f + size fs

-- The unsigned word that stands for a value in two's complement.
unfoldable pub to_word : Field → ℤ → Option ℕ
to_word (unsigned k) (pos n) = if ltb n (256 ^ k) then some n else none
to_word (unsigned k) (negsuc n) = none
to_word (signed k) (pos n) = if ltb (2 * n) (256 ^ k) then some n else none
to_word (signed k) (negsuc n) = if leb (2 * suc n) (256 ^ k) then some (256 ^ k - suc n) else none

unfoldable pub of_word : Field → ℕ → ℤ
of_word (unsigned k) w = pos w
of_word (signed k) w = if ltb (2 * w) (256 ^ k) then pos w else negsuc (256 ^ k - w - 1)

abbrev pub prepend : Option ℕ → ℕ → Option Bytes → Option Bytes
prepend none k rest = none
prepend (some w) k none = none
prepend (some w) k (some bs) = some (be_digits 255 k w ++ bs)

unfoldable pub pack : Format → List ℤ → Option Bytes
unfolding to_word be_digits
pack [] [] = some []
pack [] (v ∷ vs) = none
pack (f ∷ fs) [] = none
pack (f ∷ fs) (v ∷ vs) = prepend (to_word f v) (width f) (pack fs vs)

unpack_fields : Format → Bytes → List ℤ
unpack_fields [] bs = []
unpack_fields (f ∷ fs) bs =
    of_word f (be_value 255 (take (width f) bs)) ∷ unpack_fields fs (drop (width f) bs)

unfoldable pub unpack : Format → Bytes → Option (List ℤ)
unfolding unpack_fields of_word be_value
unpack fs bs = if length bs == size fs then some (unpack_fields fs bs) else none
