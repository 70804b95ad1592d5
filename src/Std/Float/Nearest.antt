-- ===== src/Std/Float/Nearest.antt =====
-- The rounding of a quotient n / d to a double, multiplied by d and rounded again, is n.
use native.Mathlib.Numerals.{unary_clauses}
use native.Mathlib.Nat.{div-add-mod, mod-lt, mul-le-mul_right}
use cislunar_ground_platform.Base.{
  ℕ, zero, suc, ◌+◌, ◌*◌, ◌/◌, ◌%◌, ◌^◌, ◌≤◌, ◌<◌, ◌&&◌, ◌||◌, if◌then◌else◌, ltb, leb, ◌==◌, ◌≡◌,
  ◌∙◌, refl, ◌⊎◌, inl, inr, Bool-cases, arith,
}
use cislunar_ground_platform.Std.Float.{half_even, unit, nearest, denominator_for}

<-cases : (a b : ℕ) → (a + 1 ≤ b) ⊎ ((a ≡ b) ⊎ (b + 1 ≤ a))
<-cases a b = elim (Bool-cases (ltb a b)) [
  | inl e ↦ inl (ground arith)
  | inr e ↦
      inr
        (elim (Bool-cases (ltb b a)) [ inl e' ↦ inr (ground arith) | inr e' ↦ inl (ground arith) ])
]

-- The quotient or the next number, and on which side of the half the remainder is.
abbrev Rounds : ℕ → ℕ → ℕ → ℕ → Type 0
Rounds h q r d = ((h ≡ q) × (2 * r ≤ d)) ⊎ ((h ≡ q + 1) × (d ≤ 2 * r))

choose :
    (q r d : ℕ) → Rounds (if ltb d (2 * r) || (2 * r == d && q % 2 == 1) then q + 1 else q) q r d
choose q r d = elim (Bool-cases (ltb d (2 * r))) [
  | inl above ↦ rw above (inr (refl, ground arith))
  | inr not_above ↦ elim (Bool-cases (2 * r == d && q % 2 == 1)) [
    | inl half ↦ rw (not_above, half) (inr (refl, ground arith))
    | inr other ↦ rw (not_above, other) (inl (refl, ground arith))
  ]
]

half_even-Rounds : (n d : ℕ) → Rounds (half_even n d) (n / d) (n % d) d
unfolding half_even
half_even-Rounds n d = choose (n / d) (n % d) d

-- The rounded quotient times the divisor is within half a divisor.
abbrev Near : ℕ → ℕ → ℕ → Type 0
Near x n d = (2 * x ≤ 2 * n + d) × (2 * n ≤ 2 * x + d)

half_even-Near : (n d : ℕ) → 0 < d → Near (half_even n d * d) n d
half_even-Near n d positive =
    let split = div-add-mod n d in
    let small = mod-lt n positive in
    elim (half_even-Rounds n d) [
      | inl (e, low) ↦ rw e (omega (arith, split, small, low), omega (arith, split, small, low))
      | inr (e, high) ↦ rw e (omega (arith, split, small, high), omega (arith, split, small, high))
    ]

-- A number within less than half a divisor of n * d is rounded to n.
quotient_low :
    (n q d r y : ℕ)
    → d * q + r ≡ y
    → r < d
    → 2 * r ≤ d
    → 2 * y < 2 * (n * d) + d
    → 2 * (n * d) < 2 * y + d
    → q ≡ n
quotient_low n q d r y split small low above below = elim (<-cases q n) [
  | inl under ↦
      let far : (q + 1) * d ≤ n * d = mul-le-mul_right d under in
      absurd (omega (arith, far, split, low, below))
  | inr (inl same) ↦ same
  | inr (inr over) ↦
      let far : (n + 1) * d ≤ q * d = mul-le-mul_right d over in
      absurd (omega (arith, far, split, above))
]

quotient_high :
    (n q d r y : ℕ)
    → d * q + r ≡ y
    → r < d
    → d ≤ 2 * r
    → 2 * y < 2 * (n * d) + d
    → 2 * (n * d) < 2 * y + d
    → q + 1 ≡ n
quotient_high n q d r y split small high above below = elim (<-cases (q + 1) n) [
  | inl under ↦
      let far : (q + 1 + 1) * d ≤ n * d = mul-le-mul_right d under in
      absurd (omega (arith, far, split, small, below))
  | inr (inl same) ↦ same
  | inr (inr over) ↦
      let far : (n + 1) * d ≤ (q + 1) * d = mul-le-mul_right d over in
      absurd (omega (arith, far, split, high, above))
]

half_even-exact :
    (y n d : ℕ) → 2 * y < 2 * (n * d) + d → 2 * (n * d) < 2 * y + d → half_even y d ≡ n
half_even-exact y n d above below =
    let split = div-add-mod y d in
    let q = y / d in
    let small = mod-lt y {m = d} (omega (arith, above, below)) in
    elim (half_even-Rounds y d) [
      | inl (e, low) ↦ e ∙ quotient_low n q d (y % d) y split small low above below
      | inr (e, high) ↦ e ∙ quotient_high n q d (y % d) y split small high above below
    ]

unit-positive : (fuel x : ℕ) → 1 ≤ unit fuel x
unfolding unit
unit-positive zero x = omega arith
unit-positive (suc fuel) x = elim (Bool-cases (ltb x (2 ^ 53))) [
  | inl e ↦ rw (e, unit) (omega arith)
  | inr e ↦ rw (e, unit) (omega (arith, unit-positive fuel (x / 2)))
]

unit-small : (fuel x : ℕ) → (2 ^ 52 * unit fuel x ≤ x) ⊎ (unit fuel x ≡ 1)
unfolding unit
unit-small zero x = inr refl
unit-small (suc fuel) x = elim (Bool-cases (ltb x (2 ^ 53))) [
  | inl e ↦ inr (rw (e, unit) refl)
  | inr e ↦ inl (
      rw (e, unit)
        (elim (unit-small fuel (x / 2)) [ inl h ↦ omega (arith, h) | inr h ↦ rw h (ground arith) ]))
]

denominator_below :
    (fuel n d den : ℕ) → n * den < d * 2 ^ 53 → n * denominator_for fuel n d den < d * 2 ^ 53
unfolding denominator_for
denominator_below zero n d den h = h
denominator_below (suc fuel) n d den h = elim (Bool-cases (leb (d * 2 ^ 52) (n * den))) [
  | inl e ↦ rw (e, denominator_for) h
  | inr e ↦ rw (e, denominator_for) (denominator_below fuel n d (2 * den) (ground arith))
]

twice : (den fuel : ℕ) → 4096 ≤ den * 2 ^ suc fuel → 4096 ≤ 2 * den * 2 ^ fuel
twice den fuel h =
    let doubled : 4096 ≤ den * (2 ^ fuel * 2) = simp unary_clauses at h in omega (arith, doubled)

denominator_above :
    (fuel n d den : ℕ)
    → 1 ≤ d
    → n < 2 ^ 16
    → 4096 ≤ den * 2 ^ fuel
    → 4096 ≤ denominator_for fuel n d den
unfolding denominator_for
denominator_above zero n d den positive small h = omega (arith, h)
denominator_above (suc fuel) n d den positive small h =
    elim (Bool-cases (leb (d * 2 ^ 52) (n * den))) [
      | inl e ↦
          rw (e, denominator_for)
            (let reached : d * 2 ^ 52 ≤ n * den = ground arith in
              let most : n * den ≤ 2 ^ 16 * den = mul-le-mul_right den (omega arith) in
              omega (arith, reached, most))
      | inr e ↦
          rw (e, denominator_for)
            (denominator_above fuel n d (2 * den) positive small (twice den fuel h))
    ]

moves_little :
    (x u y : ℕ)
    → x ≤ 2 ^ 63 + 500
    → (2 ^ 52 * u ≤ x) ⊎ (u ≡ 1)
    → Near y x u
    → (y ≤ x + 1025) × (x ≤ y + 1025)
moves_little x u y h (inl large) near =
    (omega (arith, near.0, large, h), omega (arith, near.1, large, h))
moves_little x u y h (inr one) near = (omega (arith, near.0, one), omega (arith, near.1, one))

-- A number below 2 ^ 63 + 500 moves by at most 1025.
nearest-near : (x : ℕ) → x ≤ 2 ^ 63 + 500 → (nearest x ≤ x + 1025) × (x ≤ nearest x + 1025)
unfolding nearest
nearest-near x h =
    moves_little x (unit 2048 x) (half_even x (unit 2048 x) * unit 2048 x) h (unit-small 2048 x)
      (half_even-Near x (unit 2048 x) (unit-positive 2048 x))

factor : (q d : ℕ) → 1 ≤ q * d → 1 ≤ q
factor zero d h = absurd (omega (arith, h))
factor (suc q) d h = omega arith

far_below : (most den y : ℕ) → 2 ^ 17 ≤ most → y < 2 ^ 17 * den → y < most * den
far_below most den y h below =
    let more : 2 ^ 17 * den ≤ most * den = mul-le-mul_right den h in omega (arith, more, below)

-- For small numbers the double nearest to n / d, times d and rounded, is n again; it is far from an
-- overflow, and it vanishes only for 0.
pub quotient_times :
    (n d : ℕ)
    → 1 ≤ d
    → d ≤ 1000
    → n < 2 ^ 16
    → let den = denominator_for 1074 n d 1 in
      let product = nearest (half_even (n * den) d * d) in
      (half_even product den ≡ n)
      × (product < 2 ^ 1024 * den)
      × (1 ≤ n → (1 ≤ half_even (n * den) d) × (1 ≤ product))
quotient_times n d positive few small =
    let den = denominator_for 1074 n d 1 in
    let below : n * den < d * 2 ^ 53 =
      denominator_below 1074 n d 1 (omega (arith, positive, small)) in
    let above : 4096 ≤ den = denominator_above 1074 n d 1 positive small (omega arith) in
    let near = half_even-Near (n * den) d (omega (arith, positive)) in
    let x = half_even (n * den) d * d in
    let moved = nearest-near x (omega (arith, near.0, below, few)) in
    let most : n * den ≤ 2 ^ 16 * den = mul-le-mul_right den (omega (arith, small)) in
    (
      half_even-exact (nearest x) n den (omega (arith, near.0, moved.0, above, few))
          (omega (arith, near.1, moved.1, above, few)),
      far_below (2 ^ 1024) den (nearest x) (omega arith)
          (omega (arith, near.0, moved.0, most, above, few)),
      λ some_n.
          let least : 1 * den ≤ n * den = mul-le-mul_right den some_n in
          (
            factor (half_even (n * den) d) d (omega (arith, near.1, least, above, few)),
            omega (arith, near.1, moved.1, least, above, few),
          ),
    )
