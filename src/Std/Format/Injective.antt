-- ===== src/Std/Format/Injective.antt =====
-- Laws of the formats: widths, and numbers read back from their digits.
use cislunar_ground_platform.Base.{
  ℕ, suc, ◌^◌, ◌≤◌, ◌<◌, List, [], ◌∷◌, map, ◌≡◌, refl, sym, ap, ◌∙◌, arith, length, All,
}
use cislunar_ground_platform.Base.Int.{pos}
use cislunar_ground_platform.Base.Digits.{
  be_digits, be_value, IsDigit, length-be_digits, be_digits-All, be_value-be_digits,
}
use cislunar_ground_platform.Std.Format.{digit_char, leading_digits, pad_digits, format_int}
use native.Mathlib.Nat.{div-eq_of_lt}

digit_char-injective : (d e : ℕ) → d ≤ 15 → e ≤ 15 → digit_char d ≡ digit_char e → d ≡ e
digit_char-injective d e hd he h = ground arith

map-digit_char-injective :
    (xs ys : List ℕ)
    → All (IsDigit 15) xs
    → All (IsDigit 15) ys
    → map digit_char xs ≡ map digit_char ys
    → xs ≡ ys
map-digit_char-injective [] [] hx hy h = refl
map-digit_char-injective [] (y ∷ ys) hx hy h = cc
map-digit_char-injective (x ∷ xs) [] hx hy h = cc
map-digit_char-injective (x ∷ xs) (y ∷ ys) hx hy h =
    ground (arith, digit_char-injective x y hx.0 hy.0, map-digit_char-injective xs ys hx.1 hy.1)

All-weaken : (b : ℕ) (xs : List ℕ) → b ≤ 15 → All (IsDigit b) xs → All (IsDigit 15) xs
All-weaken b [] h a = tt
All-weaken b (x ∷ xs) h a = (omega arith, All-weaken b xs h a.1)

-- A number that fits is printed in exactly the width.
pub format_int_fits :
    (b w n : ℕ) → n < suc b ^ w → format_int b w (pos n) ≡ map digit_char (be_digits b w n)
unfolding format_int pad_digits leading_digits
format_int_fits b w n h = rw (div-eq_of_lt h)

pub length-format_int : (b w n : ℕ) → n < suc b ^ w → length (format_int b w (pos n)) ≡ w
length-format_int b w n h =
    rw (format_int_fits b w n h) (length-map (be_digits b w n) ∙ length-be_digits b w n)
  where
    length-map : (xs : List ℕ) → length (map digit_char xs) ≡ length xs
    length-map [] = refl
    length-map (x ∷ xs) = omega (arith, length-map xs)

pub format_int-injective :
    (b w m n : ℕ)
    → b ≤ 15
    → m < suc b ^ w
    → n < suc b ^ w
    → format_int b w (pos m) ≡ format_int b w (pos n)
    → m ≡ n
format_int-injective b w m n hb hm hn h =
    sym (be_value-be_digits b w m hm)
    ∙ ap (be_value b) (
        map-digit_char-injective (be_digits b w m) (be_digits b w n)
          (All-weaken b _ hb (be_digits-All b w m)) (All-weaken b _ hb (be_digits-All b w n))
          (sym (format_int_fits b w m hm) ∙ h ∙ format_int_fits b w n hn))
    ∙ be_value-be_digits b w n hn
