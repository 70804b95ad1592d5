-- ===== src/Std/Text/Decimals.antt =====
-- `int` reads back the digits of a number, and `strip` takes the line's end from them.
use mathlib.Core.List.{reverse-append, reverse-reverse}
use cislunar_ground_platform.Base.{
  ◌^◌, bytes_eq, ℕ, ◌+◌, ◌*◌, ◌≤◌, ◌<◌, ◌≡◌, refl, sym, ap, subst, ◌∙◌, true, false, not, ltb, ◌==◌,
  some, List, [], ◌∷◌, ◌++◌, Bytes, map, reverse, length, every_below, every_below-true, All,
  All-reverse, arith,
}
use cislunar_ground_platform.Base.Int.{pos}
use cislunar_ground_platform.Base.Digits.{horner, IsDigit}
use cislunar_ground_platform.Std.Format.{format_int, digit_char}
use cislunar_ground_platform.Std.Text.{
  is_ascii, strip, lstrip, int_of, signed_value, unsigned_value, digits_value, digit_count,
}
use cislunar_ground_platform.Std.Format.Digits.{format_int-digits}
use cislunar_ground_platform.Std.Unicode.{is_space, decimal_value}

space_table : every_below 10 (λ d. not (is_space (digit_char d))) ≡ true
unfolding every_below is_space
space_table = refl

digit_char-Visible : (d : ℕ) → d ≤ 9 → is_space (digit_char d) ≡ false
digit_char-Visible d h =
    let e = every_below-true 10 (λ d. not (is_space (digit_char d))) d space_table (omega arith) in
    ground arith

decimal_value-digit_char : (d : ℕ) → d ≤ 9 → decimal_value (digit_char d) ≡ some d
unfolding decimal_value
decimal_value-digit_char d h = ground arith

lstrip-visible : (c : ℕ) (cs : Bytes) → is_space c ≡ false → lstrip (c ∷ cs) ≡ c ∷ cs
unfolding lstrip
lstrip-visible c cs h = rw h refl

IsVisible : ℕ → Type 0
IsVisible c = is_space c ≡ false

lstrip-Visible : (cs : Bytes) → All IsVisible cs → lstrip cs ≡ cs
unfolding IsVisible
lstrip-Visible [] h = unfold lstrip in refl
lstrip-Visible (c ∷ cs) h = lstrip-visible c cs h.0

digits-Visible : (ds : List ℕ) → All (IsDigit 9) ds → All IsVisible (map digit_char ds)
unfolding IsVisible
digits-Visible [] h = tt
digits-Visible (d ∷ ds) h = (digit_char-Visible d h.0, digits-Visible ds h.1)

strip-Visible : (cs : Bytes) → All IsVisible cs → strip cs ≡ cs
unfolding strip
strip-Visible cs h =
    ap (λ x. reverse (lstrip (reverse x))) (lstrip-Visible cs h)
    ∙ ap reverse (lstrip-Visible (reverse cs) (All-reverse IsVisible cs h))
    ∙ reverse-reverse cs

-- A line without spaces keeps its text.
strip-line : (c : ℕ) (cs : Bytes) → All IsVisible (c ∷ cs) → strip (c ∷ cs ++ 10 ∷ []) ≡ c ∷ cs
unfolding strip
strip-line c cs h =
    let newline : lstrip (10 ∷ reverse (c ∷ cs)) ≡ lstrip (reverse (c ∷ cs)) =
      unfold lstrip is_space in refl in
    let first : is_space c ≡ false = unfold IsVisible in h.0 in
    ap (λ x. reverse (lstrip (reverse x))) (lstrip-visible c (cs ++ 10 ∷ []) first)
    ∙ ap (λ x. reverse (lstrip x)) (reverse-append (c ∷ cs) (10 ∷ []))
    ∙ ap reverse (newline ∙ lstrip-Visible (reverse (c ∷ cs)) (All-reverse IsVisible (c ∷ cs) h))
    ∙ reverse-reverse (c ∷ cs)

digits_value-digits :
    (ds : List ℕ) (v : ℕ)
    → All (IsDigit 9) ds
    → digits_value v false (map digit_char ds) ≡ some (horner 9 v ds)
unfolding digits_value horner
digits_value-digits [] v h = refl
digits_value-digits (d ∷ ds) v h =
    rw (digits_value, decimal_value-digit_char d h.0) (digits_value-digits ds (v * 10 + d) h.1)

digit_count-digits :
    (ds : List ℕ) → All (IsDigit 9) ds → digit_count (map digit_char ds) ≡ length ds
unfolding digit_count
digit_count-digits [] h = refl
digit_count-digits (d ∷ ds) h = ground (arith, digit_count-digits ds h.1)

-- `int` of the digits of a number.
pub int_of-digits :
    (ds : List ℕ)
    → All (IsDigit 9) ds
    → 1 ≤ length ds
    → length ds ≤ 4300
    → int_of (map digit_char ds) ≡ some (pos (horner 9 0 ds))
unfolding int_of signed_value unsigned_value
int_of-digits [] h n m = absurd (omega arith)
int_of-digits (d ∷ ds) h n m =
    let count = digit_count-digits (d ∷ ds) h in
    let bound = h.0 in
    let dash : (digit_char d == b'-') ≡ false = ground arith in
    let plus : (digit_char d == b'+') ≡ false = ground arith in
    let short : ltb 4300 (digit_count (map digit_char (d ∷ ds))) ≡ false = ground arith in
    let value : digits_value 0 true (map digit_char (d ∷ ds)) ≡ some (horner 9 0 (d ∷ ds)) =
      unfold digits_value horner in
      rw (digits_value, decimal_value-digit_char d h.0) (digits_value-digits ds (0 * 10 + d) h.1) in
    rw (strip-Visible (map digit_char (d ∷ ds)) (digits-Visible (d ∷ ds) h))
      (rw (dash, plus, short, value) refl)

is_ascii-line : (ds : List ℕ) → All (IsDigit 9) ds → is_ascii (map digit_char ds ++ 10 ∷ []) ≡ true
unfolding is_ascii
is_ascii-line [] h = refl
is_ascii-line (d ∷ ds) h = let bound = h.0 in ground (arith, is_ascii-line ds h.1)

-- A line with a number in decimal: `strip` and `int` read the number back.
abbrev pub Reads : Bytes → ℕ → Type 0
Reads content n =
    (is_ascii content ≡ true)
    × (bytes_eq (strip content) [] ≡ false)
    × (int_of (strip content) ≡ some (pos n))

line-Reads :
    (ds : List ℕ)
    → All (IsDigit 9) ds
    → 1 ≤ length ds
    → length ds ≤ 4300
    → Reads (map digit_char ds ++ 10 ∷ []) (horner 9 0 ds)
line-Reads [] h n m = absurd (omega arith)
line-Reads (d ∷ ds) h n m =
    let e = strip-line (digit_char d) (map digit_char ds) (digits-Visible (d ∷ ds) h) in
    (
      is_ascii-line (d ∷ ds) h,
      ap (λ t. bytes_eq t []) e ∙ unfold bytes_eq in refl,
      ap int_of e ∙ int_of-digits (d ∷ ds) h n m,
    )

pub format_int-Reads :
    (k n : ℕ) → n < 10 ^ k → k ≤ 4299 → Reads (format_int 9 1 (pos n) ++ 10 ∷ []) n
format_int-Reads k n h l =
    let (ds, printed, digits, value, some_digit, few) = format_int-digits 9 k n (omega arith) h in
    subst (λ text. Reads (text ++ 10 ∷ []) n) (sym printed)
      (subst (λ v. Reads (map digit_char ds ++ 10 ∷ []) v) value
        (line-Reads ds digits some_digit (omega arith)))
