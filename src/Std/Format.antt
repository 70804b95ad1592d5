-- ===== src/Std/Format.antt =====
-- The integer formats `:0wd` and `:0wX` of f-strings, as code points.
pub mod Injective
pub mod Digits
use cislunar_ground_platform.Base.{
  ℕ, zero, suc, ◌+◌, ◌-◌, ◌/◌, ◌%◌, ◌^◌, List, [], ◌∷◌, ◌++◌, Bytes, ltb, ◌==◌, if◌then◌else◌, map,
  ◌≡◌, refl,
}
use cislunar_ground_platform.Base.Int.{ℤ, pos, negsuc}
use cislunar_ground_platform.Base.Digits.{be_digits}

-- 0-9 and A-F
abbrev pub digit_char : ℕ → ℕ
digit_char d = if ltb d 10 then d + 48 else d + 55

-- The digits of `n` with no leading zero; `n` itself is fuel enough, since a quotient is smaller.
leading_digits : ℕ → ℕ → ℕ → List ℕ
leading_digits b zero n = []
leading_digits b (suc fuel) n =
    let rest = leading_digits b fuel (n / suc b) ++ (n % suc b) ∷ [] in if n == 0 then [] else rest

-- At least `w` digits of `n` in base `suc b`.
pub pad_digits : ℕ → ℕ → ℕ → Bytes
unfolding leading_digits be_digits
pad_digits b w n =
    let high : ℕ = n / suc b ^ w in map digit_char (leading_digits b high high ++ be_digits b w n)

-- The sign counts as one of the `w` characters.
unfoldable pub format_int : ℕ → ℕ → ℤ → Bytes
unfolding pad_digits
format_int b w (pos n) = pad_digits b w n
format_int b w (negsuc n) = b'-' ∷ pad_digits b (w - 1) (suc n)

-- f"{7:02d}", f"{123:02d}", f"{-5:02d}" and f"{0x1AB:08X}"
two_digits : format_int 9 2 (pos 7) ≡ b'0' ∷ b'7' ∷ []
unfolding format_int
two_digits = refl

three_digits : format_int 9 2 (pos 123) ≡ b'1' ∷ b'2' ∷ b'3' ∷ []
unfolding format_int
three_digits = refl

hex_eight : format_int 15 8 (pos 0x1AB) ≡ b'0' ∷ b'0' ∷ b'0' ∷ b'0' ∷ b'0' ∷ b'1' ∷ b'A' ∷ b'B' ∷ []
unfolding format_int
hex_eight = refl
