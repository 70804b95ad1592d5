-- ===== src/Base/Digits.antt =====
-- Numbers in a base: fixed-width digits, least or most significant first, and their values.
-- Bytes are base 256; identifiers are printed in base 10 and 16.
use Prim.Native.Nat.{ℕ, zero, suc, ◌+◌, ◌*◌, ◌/◌, ◌%◌, ◌^◌, ◌≤◌, ◌<◌}
use mathlib.Core.Path.{◌≡◌, refl, ap, ◌∙◌, sym}
use mathlib.Core.List.{List, [], ◌∷◌, reverse, reverse_aux, reverse-reverse}
use native.Mathlib.Omega.{arith}
use native.Mathlib.Nat.{pow-suc, pow-zero}
use cislunar_ground_platform.Base.Lists.{length, length-reverse, All, All-reverse}

-- The `k` lowest digits of `n` in base `suc b`, the lowest first.
pub le_digits : ℕ → ℕ → ℕ → List ℕ
le_digits b zero n = []
le_digits b (suc k) n = (n % suc b) ∷ le_digits b k (n / suc b)

pub le_value : ℕ → List ℕ → ℕ
le_value b [] = 0
le_value b (d ∷ ds) = d + suc b * le_value b ds

-- The highest first.
unfoldable pub be_digits : ℕ → ℕ → ℕ → List ℕ
unfolding le_digits
be_digits b k n = reverse (le_digits b k n)

unfoldable pub be_value : ℕ → List ℕ → ℕ
unfolding le_value
be_value b ds = le_value b (reverse ds)

abbrev pub IsDigit : ℕ → ℕ → Type 0
IsDigit b d = d ≤ b

length-le_digits : (b k n : ℕ) → length (le_digits b k n) ≡ k
unfolding le_digits
length-le_digits b zero n = refl
length-le_digits b (suc k) n = omega (arith, length-le_digits b k (n / suc b))

le_digits-All : (b k n : ℕ) → All (IsDigit b) (le_digits b k n)
unfolding le_digits
le_digits-All b zero n = tt
le_digits-All b (suc k) n = (grind arith, le_digits-All b k (n / suc b))

le_value-le_digits : (b k n : ℕ) → n < suc b ^ k → le_value b (le_digits b k n) ≡ n
unfolding le_digits le_value
le_value-le_digits b zero n h = omega (arith, pow-zero (suc b))
le_value-le_digits b (suc k) n h =
    grind (arith, pow-suc (suc b) k, le_value-le_digits b k (n / suc b))

digit_mod : (b d v : ℕ) → d ≤ b → (d + suc b * v) % suc b ≡ d
digit_mod b d v h = grind arith

digit_div : (b d v : ℕ) → d ≤ b → (d + suc b * v) / suc b ≡ v
digit_div b d v h = grind arith

le_digits-le_value :
    (b : ℕ) (ds : List ℕ) → All (IsDigit b) ds → le_digits b (length ds) (le_value b ds) ≡ ds
unfolding le_digits le_value
le_digits-le_value b [] h = refl
le_digits-le_value b (d ∷ ds) h =
    rw (digit_mod b d (le_value b ds) h.0, digit_div b d (le_value b ds) h.0)
      (ap (λ t. d ∷ t) (le_digits-le_value b ds h.1))

le_value-lt : (b : ℕ) (ds : List ℕ) → All (IsDigit b) ds → le_value b ds < suc b ^ length ds
unfolding le_value
le_value-lt b [] h = omega (arith, pow-zero (suc b))
le_value-lt b (d ∷ ds) h = grind (arith, pow-suc (suc b) (length ds), le_value-lt b ds h.1)

pub length-be_digits : (b k n : ℕ) → length (be_digits b k n) ≡ k
unfolding be_digits
length-be_digits b k n = length-reverse (le_digits b k n) ∙ length-le_digits b k n

pub be_digits-All : (b k n : ℕ) → All (IsDigit b) (be_digits b k n)
unfolding be_digits
be_digits-All b k n = All-reverse (IsDigit b) (le_digits b k n) (le_digits-All b k n)

pub be_value-be_digits : (b k n : ℕ) → n < suc b ^ k → be_value b (be_digits b k n) ≡ n
unfolding be_digits be_value
be_value-be_digits b k n h = rw reverse-reverse (le_value-le_digits b k n h)

pub be_digits-be_value :
    (b : ℕ) (ds : List ℕ) → All (IsDigit b) ds → be_digits b (length ds) (be_value b ds) ≡ ds
unfolding be_digits be_value
be_digits-be_value b ds h =
    ap (λ k. reverse (le_digits b k (le_value b (reverse ds)))) (sym (length-reverse ds))
    ∙ ap reverse (le_digits-le_value b (reverse ds) (All-reverse (IsDigit b) ds h))
    ∙ reverse-reverse ds

pub be_value-lt : (b : ℕ) (ds : List ℕ) → All (IsDigit b) ds → be_value b ds < suc b ^ length ds
unfolding be_value
be_value-lt b ds h =
    rw (length-reverse ds) at (le_value-lt b (reverse ds) (All-reverse (IsDigit b) ds h))

-- The digits read from the left, after a value.
unfoldable pub horner : ℕ → ℕ → List ℕ → ℕ
horner b v [] = v
horner b v (d ∷ ds) = horner b (v * suc b + d) ds

horner-reverse_aux :
    (b : ℕ) (ds acc : List ℕ) → horner b (le_value b acc) ds ≡ le_value b (reverse_aux ds acc)
unfolding horner le_value
horner-reverse_aux b [] acc = refl
horner-reverse_aux b (d ∷ ds) acc =
    ap (λ v. horner b v ds) (grind arith) ∙ horner-reverse_aux b ds (d ∷ acc)

pub horner-be_value : (b : ℕ) (ds : List ℕ) → horner b 0 ds ≡ be_value b ds
unfolding be_value le_value
horner-be_value b ds = horner-reverse_aux b ds []
