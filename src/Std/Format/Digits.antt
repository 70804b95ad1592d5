-- ===== src/Std/Format/Digits.antt =====
-- What the integer formats print, digit by digit, whatever the width.
use native.Mathlib.Nat.{div-le_self, pow-suc, pow-zero, div-lt_self, div-add-mod'}
use cislunar_ground_platform.Base.{
  ℕ, zero, suc, ◌+◌, ◌*◌, ◌/◌, ◌%◌, ◌^◌, ◌≤◌, ◌<◌, ◌≡◌, refl, ap, ◌∙◌, ◌==◌, List, [], ◌∷◌, ◌++◌,
  map, length, length-append, All, All-append, arith, Bool-cases, inl, inr,
}
use cislunar_ground_platform.Base.Int.{pos}
use cislunar_ground_platform.Base.Digits.{horner, IsDigit, be_digits}
use cislunar_ground_platform.Std.Format.{format_int, pad_digits, leading_digits, digit_char}

horner-append : (b v : ℕ) (xs ys : List ℕ) → horner b v (xs ++ ys) ≡ horner b (horner b v xs) ys
unfolding horner
horner-append b v [] ys = refl
horner-append b v (x ∷ xs) ys = horner-append b (v * suc b + x) xs ys

-- The digits of a number with no leading zero.
horner-leading_digits : (b fuel n : ℕ) → 1 ≤ b → n ≤ fuel → horner b 0 (leading_digits b fuel n) ≡ n
unfolding leading_digits horner
horner-leading_digits b zero n h l = omega arith
horner-leading_digits b (suc fuel) n h l = elim (Bool-cases (n == 0)) [
  | inl e ↦ rw e (ground arith)
  | inr e ↦
      let smaller = div-lt_self {n = n} {k = suc b} (ground arith) (omega arith) in
      rw e (
        horner-append b 0 (leading_digits b fuel (n / suc b)) (n % suc b ∷ [])
        ∙ ap (λ v. v * suc b + n % suc b) (horner-leading_digits b fuel (n / suc b) h (omega arith))
        ∙ div-add-mod' n (suc b))
]

length-leading_digits : (b k fuel n : ℕ) → n < suc b ^ k → length (leading_digits b fuel n) ≤ k
unfolding leading_digits
length-leading_digits b k zero n h = omega arith
length-leading_digits b zero (suc fuel) n h =
    let none_left : n ≡ 0 = omega (arith, pow-zero (suc b)) in rw none_left (omega arith)
length-leading_digits b (suc k) (suc fuel) n h = elim (Bool-cases (n == 0)) [
  | inl e ↦ rw e (omega arith)
  | inr e ↦
      let smaller : n / suc b < suc b ^ k = grind (arith, pow-suc (suc b) k) in
      rw e (
        omega (
          arith,
          length-append (leading_digits b fuel (n / suc b)) (n % suc b ∷ []),
          length-leading_digits b k fuel (n / suc b) smaller,
        ))
]

leading_digits-All : (b fuel n : ℕ) → All (IsDigit b) (leading_digits b fuel n)
unfolding leading_digits
leading_digits-All b zero n = tt
leading_digits-All b (suc fuel) n = elim (Bool-cases (n == 0)) [
  | inl e ↦ rw e tt
  | inr e ↦ rw e (
      All-append (IsDigit b) (leading_digits b fuel (n / suc b)) (n % suc b ∷ [])
        (leading_digits-All b fuel (n / suc b)) (omega arith, tt))
]

-- `str` of a number that is not negative: digits whose value it is.
pub format_int-digits :
    (b k n : ℕ)
    → 1 ≤ b
    → n < suc b ^ k
    → (ds : List ℕ) × (format_int b 1 (pos n) ≡ map digit_char ds)
      × All (IsDigit b) ds
      × (horner b 0 ds ≡ n)
      × (1 ≤ length ds)
      × (length ds ≤ suc k)
unfolding format_int pad_digits be_digits
format_int-digits b k n h l =
    let high = n / suc b ^ 1 in
    let one : suc b ^ 1 ≡ suc b = grind (arith, pow-suc (suc b) 0, pow-zero (suc b)) in
    let leading = leading_digits b high high in
    let bound : high < suc b ^ k = omega (arith, div-le_self n (suc b ^ 1)) in
    (
      leading ++ n % suc b ∷ [],
      refl,
      All-append (IsDigit b) leading (n % suc b ∷ []) (leading_digits-All b high high)
          (omega arith, tt),
      horner-append b 0 leading (n % suc b ∷ [])
          ∙ ap (λ v. horner b v (n % suc b ∷ []))
              (horner-leading_digits b high high h (omega arith))
          ∙ unfold horner in (ap (λ p. n / p * suc b + n % suc b) one ∙ div-add-mod' n (suc b)),
      omega (arith, length-append leading (n % suc b ∷ [])),
      omega (
        arith,
        length-append leading (n % suc b ∷ []),
        length-leading_digits b k high high bound,
      ),
    )
