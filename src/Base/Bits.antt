-- ===== src/Base/Bits.antt =====
-- `|` of numbers whose digits do not overlap, and `&` with a single digit.
use Prim.Native.Nat.{
  ℕ, zero, suc, ◌+◌, ◌-◌, ◌*◌, ◌/◌, ◌%◌, ◌^◌, ◌≤◌, ◌<◌, max, min, bit_or, bit_and, digits,
  bit_or-bitwise, bit_and-bitwise,
}
use mathlib.Core.Path.{◌≡◌, refl, ap, ◌∙◌}
use native.Mathlib.Omega.{arith}

-- The recursion on digits has fuel to spare.
module _ (rest : ℕ → ℕ) (op : ℕ → ℕ → ℕ) where
  spare : (fuel b a : ℕ) → a ≤ fuel → digits rest op (suc fuel) a b ≡ digits rest op fuel a b
  spare zero b zero h = refl
  spare (suc fuel) b zero h = refl
  spare zero b (suc a) h = absurd (omega (arith, h))
  spare (suc fuel) b (suc a) h = omega (arith, spare fuel (b / 2) (suc a / 2) (omega (arith, h)))

  spares :
      (more fuel b a : ℕ) → a ≤ fuel → digits rest op (more + fuel) a b ≡ digits rest op fuel a b
  spares zero fuel b a h = ap (λ n. digits rest op n a b) (omega arith)
  spares (suc more) fuel b a h =
      let one : suc more + fuel ≡ suc (more + fuel) = omega arith in
      ap (λ n. digits rest op n a b) one
      ∙ spare (more + fuel) b a (omega (arith, h))
      ∙ spares more fuel b a h

  enough : (a b : ℕ) → digits rest op a (suc a / 2) b ≡ digits rest op (suc a / 2) (suc a / 2) b
  enough a b =
      let parts : a ≡ a - suc a / 2 + suc a / 2 = omega arith in
      ap (λ n. digits rest op n (suc a / 2) b) parts
      ∙ spares (a - suc a / 2) (suc a / 2) b (suc a / 2) (omega arith)

zero-bit_or : (b : ℕ) → bit_or 0 b ≡ b
zero-bit_or b = bit_or-bitwise 0 b

lowest_or : (b a : ℕ) → bit_or a b ≡ max (a % 2) (b % 2) + 2 * bit_or (a / 2) (b / 2)
lowest_or b zero = omega (arith, zero-bit_or (b / 2), zero-bit_or b)
lowest_or b (suc a) =
    let same = enough (λ d. d) max a (b / 2) in
    omega (arith, same, bit_or-bitwise (suc a / 2) (b / 2), bit_or-bitwise (suc a) b)

bit_or-zero_fuel : (n a : ℕ) → a ≤ n → bit_or a 0 ≡ a
bit_or-zero_fuel n zero h = refl
bit_or-zero_fuel zero (suc a) h = absurd (omega arith)
bit_or-zero_fuel (suc n) (suc a) h =
    omega (arith, lowest_or 0 (suc a), bit_or-zero_fuel n (suc a / 2) (omega arith))

no_digit : (lo : ℕ) → lo < 1 → lo ≡ 0
no_digit lo h = omega arith

doubled : (k hi : ℕ) → hi * 2 ^ suc k ≡ (hi * 2 ^ k) * 2
doubled k hi = grind arith

low_digit : (w lo : ℕ) → bit_or w (lo / 2) ≡ w + lo / 2 → bit_or (w * 2) lo ≡ w * 2 + lo
low_digit w lo h =
    let half : w * 2 / 2 ≡ w = omega arith in
    let even : w * 2 % 2 ≡ 0 = omega arith in
    let step = lowest_or lo (w * 2) in omega (arith, rw (half, even) at step, h)

high_digit : (w lo : ℕ) → bit_or (lo / 2) w ≡ lo / 2 + w → bit_or lo (w * 2) ≡ lo + w * 2
high_digit w lo h =
    let half : w * 2 / 2 ≡ w = omega arith in
    let even : w * 2 % 2 ≡ 0 = omega arith in
    let step = lowest_or (w * 2) lo in omega (arith, rw (half, even) at step, h)

-- The digits of `hi` start where those of `lo` end.
pub bit_or-low : (k hi lo : ℕ) → lo < 2 ^ k → bit_or (hi * 2 ^ k) lo ≡ hi * 2 ^ k + lo
bit_or-low zero hi lo h =
    let e = no_digit lo h in
    let f : hi * 2 ^ 0 ≡ hi = omega arith in
    rw (e, f) (omega (arith, bit_or-zero_fuel hi hi (omega arith)))
bit_or-low (suc k) hi lo h =
    rw (doubled k hi) (low_digit (hi * 2 ^ k) lo (bit_or-low k hi (lo / 2) (omega arith)))

pub bit_or-high : (k hi lo : ℕ) → lo < 2 ^ k → bit_or lo (hi * 2 ^ k) ≡ lo + hi * 2 ^ k
bit_or-high zero hi lo h =
    let e = no_digit lo h in
    let f : hi * 2 ^ 0 ≡ hi = omega arith in rw (e, f) (omega (arith, zero-bit_or hi))
bit_or-high (suc k) hi lo h =
    rw (doubled k hi) (high_digit (hi * 2 ^ k) lo (bit_or-high k hi (lo / 2) (omega arith)))

zero-bit_and : (b : ℕ) → bit_and 0 b ≡ 0
zero-bit_and b = bit_and-bitwise 0 b

lowest_and : (b a : ℕ) → bit_and a b ≡ min (a % 2) (b % 2) + 2 * bit_and (a / 2) (b / 2)
lowest_and b zero = omega (arith, zero-bit_and (b / 2), zero-bit_and b)
lowest_and b (suc a) =
    let same = enough (λ d. 0) min a (b / 2) in
    omega (arith, same, bit_and-bitwise (suc a / 2) (b / 2), bit_and-bitwise (suc a) b)

doubled_power : (k : ℕ) → 2 ^ suc k ≡ 2 ^ k * 2
doubled_power k = grind arith

and_digit : (w b c : ℕ) → bit_and w (b / 2) ≡ c → bit_and (w * 2) b ≡ c * 2
and_digit w b c h =
    let half : w * 2 / 2 ≡ w = omega arith in
    let even : w * 2 % 2 ≡ 0 = omega arith in
    let step = lowest_and b (w * 2) in omega (arith, rw (half, even) at step, h)

-- One digit of a number whose digits reach no further.
pub bit_and-below : (k b : ℕ) → b < 2 ^ k → bit_and (2 ^ k) b ≡ 0
bit_and-below zero b h = omega (arith, lowest_and b 1, zero-bit_and (b / 2), no_digit b h)
bit_and-below (suc k) b h =
    rw (doubled_power k)
      (and_digit (2 ^ k) b 0 (bit_and-below k (b / 2) (omega (arith, h, doubled_power k))))

pub bit_and-above : (k lo : ℕ) → lo < 2 ^ k → bit_and (2 ^ k) (lo + 2 ^ k) ≡ 2 ^ k
bit_and-above zero lo h =
    omega (arith, lowest_and (lo + 1) 1, zero-bit_and ((lo + 1) / 2), no_digit lo h)
bit_and-above (suc k) lo h =
    let half : (lo + 2 ^ k * 2) / 2 ≡ lo / 2 + 2 ^ k = omega arith in
    rw (doubled_power k) (
      and_digit (2 ^ k) (lo + 2 ^ k * 2) (2 ^ k)
        (rw half (bit_and-above k (lo / 2) (omega (arith, h, doubled_power k)))))
