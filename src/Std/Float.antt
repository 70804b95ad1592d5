-- ===== src/Std/Float.antt =====
-- Python's `float` as far as the program computes with it: an IEEE double times a small integer, the
-- quotient of two small integers, and `round`. A finite double is a numerator over a power
-- of two, as of `as_integer_ratio` but not always in lowest terms; a result is rounded to 53 bits, the nearest and a half to the even one.
pub mod Nearest
use cislunar_ground_platform.Base.{
  ℕ, zero, suc, ◌+◌, ◌*◌, ◌/◌, ◌%◌, ◌^◌, true, false, ◌&&◌, ◌||◌, ltb, leb, ◌==◌, if◌then◌else◌,
  ◌≡◌, refl,
}
use cislunar_ground_platform.Base.Int.{ℤ, pos, negsuc}

pub data Float : Type 0 where
  finite : ℤ → ℕ → Float
  infinite : Float
  not_a_number : Float

abbrev pub magnitude : ℤ → ℕ
magnitude (pos n) = n
magnitude (negsuc n) = suc n

abbrev pub minus : ℕ → ℤ
minus zero = pos 0
minus (suc n) = negsuc n

-- The sign of z with another magnitude.
abbrev pub like : ℤ → ℕ → ℤ
like (pos n) m = pos m
like (negsuc n) m = minus m

-- The integer nearest to n / d; a half goes to the even one.
unfoldable pub half_even : ℕ → ℕ → ℕ
half_even n d =
    let q = n / d in
    let r = n % d in if ltb d (2 * r) || (2 * r == d && q % 2 == 1) then q + 1 else q

-- The unit in the last place of a numerator of more than 53 bits, and 1 up to that.
unfoldable pub unit : ℕ → ℕ → ℕ
unit zero x = 1
unit (suc fuel) x = elim (ltb x (2 ^ 53)) [ true ↦ 1 | false ↦ 2 * unit fuel (x / 2) ]

-- A numerator at the precision of a double. No numerator of a double has more than 1024 bits.
unfoldable pub nearest : ℕ → ℕ
unfolding half_even unit
nearest x = let u = unit 2048 x in half_even x u * u

-- A product that is too large is an infinity.
unfoldable pub bounded : ℤ → ℕ → ℕ → Float
bounded n product d = if ltb product (2 ^ 1024 * d) then finite (like n product) d else infinite

-- `value * k` for a small integer k.
unfoldable pub multiply : Float → ℕ → Float
multiply infinite k = infinite
multiply not_a_number k = not_a_number
multiply (finite n d) k = bounded n (nearest (magnitude n * k)) d

-- The denominator of the double nearest to n / d: the numerator gets 53 bits. A double has none
-- beyond 2 ^ 1074.
unfoldable pub denominator_for : ℕ → ℕ → ℕ → ℕ → ℕ
denominator_for zero n d den = den
denominator_for (suc fuel) n d den = elim (leb (d * 2 ^ 52) (n * den)) [
  | true ↦ den
  | false ↦ denominator_for fuel n d (2 * den)
]

unfoldable pub over : ℤ → ℕ → ℕ → Float
over n d den = finite (like n (half_even (magnitude n * den) d)) den

-- `n / d` for integers that doubles hold, n below 2 ^ 52 and d positive.
unfoldable pub divide : ℤ → ℕ → Float
divide n d = over n d (denominator_for 1074 (magnitude n) d 1)

-- 0.0005 * 1000 == 0.5
half : multiply (finite (pos 1152921504606847) (2 ^ 61)) 1000 ≡ finite (pos (2 ^ 60)) (2 ^ 61)
unfolding multiply bounded nearest half_even unit
half = refl

-- 28100 / 1000 == 28.1
quotient : divide (pos 28100) 1000 ≡ finite (pos 7909446845569434) (2 ^ 48)
unfolding divide over half_even denominator_for
quotient = refl
