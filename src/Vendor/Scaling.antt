-- ===== src/Vendor/Scaling.antt =====
-- services/vendor_simulator.py: `_scaled` takes the nearest unit, so a value within its bounds stays
-- within them.
use native.Mathlib.Nat.{
  div-mul-le_self, lt-div-mul-add, one-le-pow, mul-le-mul_right, div-lt_iff_lt-mul,
}
use cislunar_ground_platform.Base.{ℕ, suc, ◌+◌, ◌*◌, ◌^◌, ◌≤◌, ◌<◌, ◌≡◌, true, arith}
use cislunar_ground_platform.Base.Int.{ℤ, pos, negsuc, ◌≤ℤ◌}
use cislunar_ground_platform.Vendor.Readings.{Decimal, between, scaled, half_up}

power-positive : (p : ℕ) → 0 < 10 ^ p
power-positive p = omega (arith, one-le-pow p 10)

half_up-nearest :
    (n factor p : ℕ)
    → (2 * (half_up n factor p * 10 ^ p) ≤ 2 * (n * factor) + 10 ^ p)
      × (2 * (n * factor) < 2 * (half_up n factor p * 10 ^ p) + 10 ^ p)
half_up-nearest n factor p =
    let a = 2 * (n * factor) + 10 ^ p in
    let b = 2 * 10 ^ p in
    (
      omega (arith, div-mul-le_self a b),
      omega (arith, lt-div-mul-add {a = a} {b = b} (omega (arith, power-positive p))),
    )

half_up-bound : (n factor p k : ℕ) → n ≤ k * 10 ^ p → half_up n factor p ≤ k * factor
half_up-bound n factor p k h = omega (
  arith,
  (div-lt_iff_lt-mul {k = 2 * 10 ^ p} {x = 2 * (n * factor) + 10 ^ p} {y = k * factor + 1}
        (omega (arith, power-positive p))).1
      (omega (arith, mul-le-mul_right factor h, power-positive p)),
)

abbrev decimal : ℤ → ℕ → Decimal
decimal z p = record { numerator = z; places = p }

temperature_of :
    (z : ℤ) (p : ℕ)
    → between (negsuc 99) (pos 150) (decimal z p) ≡ true
    → (negsuc 9999 ≤ℤ scaled (decimal z p) 100) × (scaled (decimal z p) 100 ≤ℤ pos 15000)
unfolding between scaled
temperature_of (pos n) p h =
    let b = half_up-bound n 100 p 150 (ground arith) in (omega arith, omega arith)
temperature_of (negsuc n) p h =
    let b = half_up-bound (suc n) 100 p 100 (ground (arith, power-positive p)) in ground arith

-- An allowed temperature is a valid number of hundredths.
pub temperature_lem :
    (d : Decimal)
    → between (negsuc 99) (pos 150) d ≡ true
    → (negsuc 9999 ≤ℤ scaled d 100) × (scaled d 100 ≤ℤ pos 15000)
temperature_lem d h = temperature_of d.numerator d.places h

voltage_of :
    (z : ℤ) (p : ℕ)
    → between (pos 0) (pos 50) (decimal z p) ≡ true
    → (pos 0 ≤ℤ scaled (decimal z p) 1000) × (scaled (decimal z p) 1000 ≤ℤ pos 50000)
unfolding between scaled
voltage_of (pos n) p h =
    let b = half_up-bound n 1000 p 50 (ground arith) in (omega arith, omega arith)
voltage_of (negsuc n) p h = absurd (ground arith)

-- An allowed voltage is a valid number of thousandths.
pub voltage_lem :
    (d : Decimal)
    → between (pos 0) (pos 50) d ≡ true
    → (pos 0 ≤ℤ scaled d 1000) × (scaled d 1000 ≤ℤ pos 50000)
voltage_lem d h = voltage_of d.numerator d.places h
