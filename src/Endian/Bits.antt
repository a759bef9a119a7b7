-- ===== src/Endian/Bits.antt =====
-- Masks and shifts as arithmetic: `&` with one byte of ones, and `|` of fields that do not overlap.
use Prim.Native.Nat.{min, max, digits, bit_and, bit_or, bit_and-bitwise, bit_or-bitwise}
use native.Mathlib.Nat.{le_refl, pow-suc, div-div-eq-div-mul}
use mathlib.Core.Path.{◌∙◌, ap}
use home_replication.Base.{ℕ, zero, suc, ◌+◌, ◌*◌, ◌/◌, ◌%◌, ◌^◌, ◌≤◌, ◌<◌, ◌≡◌, refl, arith}

-- `digits` counts down from its first number; any larger count gives the same.
module _ (z : ℕ → ℕ) (op : ℕ → ℕ → ℕ) where
  digits_count : (f x y : ℕ) → x ≤ f → (g : ℕ) → x ≤ g → digits z op f x y ≡ digits z op g x y
  digits_count zero zero y h zero k = refl
  digits_count zero zero y h (suc g) k = refl
  digits_count zero (suc x) y h g k = absurd (omega arith)
  digits_count (suc f) zero y h zero k = refl
  digits_count (suc f) zero y h (suc g) k = refl
  digits_count (suc f) (suc x) y h zero k = absurd (omega arith)
  digits_count (suc f) (suc x) y h (suc g) k =
      ap (λ (t : ℕ). t * 2 + op (suc x % 2) (y % 2))
        (digits_count f (suc x / 2) (y / 2) (omega arith) g (omega arith))

  lowest_digit :
      (x y : ℕ)
      → digits z op (suc x) (suc x) y
        ≡ digits z op (suc x / 2) (suc x / 2) (y / 2) * 2 + op (suc x % 2) (y % 2)
  lowest_digit x y =
      ap (λ (t : ℕ). t * 2 + op (suc x % 2) (y % 2))
        (digits_count x (suc x / 2) (y / 2) (omega arith) (suc x / 2) (omega arith))

and_lowest : (x y : ℕ) → bit_and x y ≡ bit_and (x / 2) (y / 2) * 2 + min (x % 2) (y % 2)
and_lowest zero y = omega (arith, bit_and-bitwise 0 y, bit_and-bitwise 0 (y / 2))
and_lowest (suc x) y = omega (
  arith,
  lowest_digit (λ b. zero) min x y,
  bit_and-bitwise (suc x) y,
  bit_and-bitwise (suc x / 2) (y / 2),
)

or_lowest : (x y : ℕ) → bit_or x y ≡ bit_or (x / 2) (y / 2) * 2 + max (x % 2) (y % 2)
or_lowest zero y = omega (arith, bit_or-bitwise 0 y, bit_or-bitwise 0 (y / 2))
or_lowest (suc x) y = omega (
  arith,
  lowest_digit (λ b. b) max x y,
  bit_or-bitwise (suc x) y,
  bit_or-bitwise (suc x / 2) (y / 2),
)

and_zero : (n x : ℕ) → x ≤ n → bit_and x 0 ≡ 0
and_zero n zero h = bit_and-bitwise 0 0
and_zero zero (suc x) h = absurd (omega arith)
and_zero (suc n) (suc x) h =
    omega (arith, and_lowest (suc x) 0, and_zero n (suc x / 2) (omega arith))

-- The low nibble, and from it the low byte.
and_nibble : (x m : ℕ) → bit_and x (m * 16 + 15) ≡ bit_and (x / 16) m * 16 + x % 16
and_nibble x m =
    let a1 = and_lowest x (m * 16 + 15) in
    let a2 = and_lowest (x / 2) (m * 8 + 7) in
    let a3 = and_lowest (x / 2 / 2) (m * 4 + 3) in
    let a4 = and_lowest (x / 2 / 2 / 2) (m * 2 + 1) in
    let e1 : (m * 16 + 15) / 2 ≡ m * 8 + 7 = omega arith in
    let e2 : (m * 8 + 7) / 2 ≡ m * 4 + 3 = omega arith in
    let e3 : (m * 4 + 3) / 2 ≡ m * 2 + 1 = omega arith in
    let e4 : (m * 2 + 1) / 2 ≡ m = omega arith in
    let e5 : x / 2 / 2 / 2 / 2 ≡ x / 16 = omega arith in
    ground (arith, a1, a2, a3, a4, e1, e2, e3, e4, e5)

and_byte : (x : ℕ) → bit_and x 255 ≡ x % 256
and_byte x = omega (
  arith,
  and_nibble x 15,
  and_nibble (x / 16) 0,
  and_zero (x / 16 / 16) (x / 16 / 16) (le_refl _),
)

-- A mask of one byte, `k` bits up.
pub and_field : (k x : ℕ) → bit_and x (255 * 2 ^ k) ≡ x / 2 ^ k % 256 * 2 ^ k
and_field zero x = omega (arith, and_byte x)
and_field (suc k) x =
    let mask : 255 * 2 ^ suc k / 2 ≡ 255 * 2 ^ k = omega (arith, pow-suc 2 k) in
    let even : 255 * 2 ^ suc k % 2 ≡ 0 = omega (arith, pow-suc 2 k) in
    let twice : 2 * 2 ^ k ≡ 2 ^ suc k = omega (arith, pow-suc 2 k) in
    let halves : x / 2 / 2 ^ k ≡ x / 2 ^ suc k =
      div-div-eq-div-mul x 2 (2 ^ k) ∙ ap (λ (t : ℕ). x / t) twice in
    let field : ℕ = x / 2 ^ suc k % 256 in
    ground (
      arith,
      and_lowest x (255 * 2 ^ suc k),
      mask,
      even,
      halves,
      and_field k (x / 2),
      ap (λ (t : ℕ). field * t) twice,
    )

-- `lo | (hi << k)` is a sum if `lo` has no more than `k` bits.
pub or_field : (k lo hi : ℕ) → lo < 2 ^ k → bit_or lo (hi * 2 ^ k) ≡ lo + hi * 2 ^ k
or_field zero zero hi h =
    let one : hi * 2 ^ 0 ≡ hi = omega arith in rw one (omega (arith, bit_or-bitwise 0 hi))
or_field zero (suc lo) hi h = absurd (omega arith)
or_field (suc k) lo hi h =
    let half : hi * 2 ^ suc k / 2 ≡ hi * 2 ^ k =
      omega (arith, ap (λ (t : ℕ). hi * t) (pow-suc 2 k)) in
    let even : hi * 2 ^ suc k % 2 ≡ 0 = omega (arith, ap (λ (t : ℕ). hi * t) (pow-suc 2 k)) in
    ground
      (arith, or_lowest lo (hi * 2 ^ suc k), or_field k (lo / 2) hi (omega (arith, pow-suc 2 k)))
