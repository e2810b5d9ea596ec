-- ===== src/Base/Bits.antt =====
-- Laws of `&` and `|` that the source relies on: masks, the test for a power of two, tags.
use Prim.Native.Nat.{
  ℕ, zero, suc, ◌+◌, ◌-◌, ◌*◌, ◌/◌, ◌%◌, ◌^◌, ◌≤◌, ◌<◌, min, max, bit_and, bit_or, digits,
  bit_and-bitwise, bit_or-bitwise,
}
use mathlib.Core.Path.{◌≡◌, refl, ◌∙◌, ap}
use native.Mathlib.Omega.{arith}
use native.Mathlib.Nat.{pow-suc, mod-lt, div-add-mod, mul-add-mod_self_left, mod-eq_of_lt, mod_self}
use native.Mathlib.Decide.{ℕ_discrete}

-- With fuel for all the digits of `x`, the amount does not matter: `keep` is what follows them.
module _ (keep : ℕ → ℕ) (op : ℕ → ℕ → ℕ) where
  fuel_enough :
      {x : ℕ} (more less : ℕ) (y : ℕ)
      → x ≤ less
      → x ≤ more
      → digits keep op more x y ≡ digits keep op less x y
  fuel_enough {x = zero} (suc more) (suc less) y k h = refl
  fuel_enough {x = zero} (suc more) zero y k h = refl
  fuel_enough {x = zero} zero (suc less) y k h = refl
  fuel_enough {x = zero} zero zero y k h = refl
  fuel_enough {x = suc x} more zero y k h = absurd (omega arith)
  fuel_enough {x = suc x} zero (suc less) y k h = absurd (omega arith)
  fuel_enough {x = suc x} (suc more) (suc less) y k h =
      let higher = fuel_enough {x = suc x / 2} more less (y / 2) (omega arith) (omega arith) in
      omega arith

zero-bit_and : (y : ℕ) → bit_and 0 y ≡ 0
zero-bit_and = bit_and-bitwise 0

-- The lowest digit apart.
pub bit_and_step : (x y : ℕ) → bit_and x y ≡ bit_and (x / 2) (y / 2) * 2 + min (x % 2) (y % 2)
bit_and_step zero y = let low = zero-bit_and (y / 2) in let all = zero-bit_and y in omega arith
bit_and_step (suc x) y =
    let all = bit_and-bitwise (suc x) y in
    let high = bit_and-bitwise (suc x / 2) (y / 2) in
    let fuel =
      fuel_enough (λ z. zero) min {x = suc x / 2} x (suc x / 2) (y / 2) (omega arith)
        (omega arith) in
    omega arith

bit_and-zero_below : (bound x : ℕ) → x < bound → bit_and x 0 ≡ 0
bit_and-zero_below zero x h = absurd (omega arith)
bit_and-zero_below (suc bound) zero h = zero-bit_and 0
bit_and-zero_below (suc bound) (suc x) h =
    let high = bit_and-zero_below bound (suc x / 2) (omega arith) in
    omega (arith, bit_and_step (suc x) 0)

bit_and-zero : (x : ℕ) → bit_and x 0 ≡ 0
bit_and-zero x = bit_and-zero_below (suc x) x (omega arith)

pub pow-two-pos : (k : ℕ) → 0 < 2 ^ k
pow-two-pos zero = omega arith
pow-two-pos (suc k) = omega (arith, pow-suc 2 k, pow-two-pos k)

-- The remainder by `2 * m`, one digit at a time.
mod-double : (m a : ℕ) → 0 < m → a % (m * 2) ≡ a / 2 % m * 2 + a % 2
mod-double m a h =
    let r : ℕ = a / 2 % m * 2 + a % 2 in
    let small : r < m * 2 = omega (arith, mod-lt (a / 2) h) in
    let whole : a ≡ (m * 2) * (a / 2 / m) + r = omega (arith, div-add-mod (a / 2) m) in
    ap (λ n. n % (m * 2)) whole ∙ mul-add-mod_self_left (m * 2) (a / 2 / m) r ∙ mod-eq_of_lt small

-- A mask of `k` ones keeps the low `k` bits.
pub bit_and_mask : (k a : ℕ) → bit_and a (2 ^ k - 1) ≡ a % 2 ^ k
bit_and_mask zero a = omega (arith, bit_and-zero a)
bit_and_mask (suc k) a =
    let half : (2 ^ suc k - 1) / 2 ≡ 2 ^ k - 1 = omega (arith, pow-suc 2 k, pow-two-pos k) in
    omega (
      arith,
      bit_and_step a (2 ^ suc k - 1),
      ap (bit_and (a / 2)) half,
      bit_and_mask k (a / 2),
      pow-suc 2 k,
      pow-two-pos k,
      mod-double (2 ^ k) a (pow-two-pos k),
      ap (λ n. a % n) (pow-suc 2 k),
    )

bit_and_self_fuel : (n a : ℕ) → a ≤ n → bit_and a a ≡ a
bit_and_self_fuel zero a h = let e : a ≡ 0 = omega arith in omega (arith, ap (λ n. bit_and n n) e)
bit_and_self_fuel (suc n) zero h = refl
bit_and_self_fuel (suc n) (suc a) h =
    omega (arith, bit_and_step (suc a) (suc a), bit_and_self_fuel n (suc a / 2) (omega arith))

bit_and-le_fuel : (n a b : ℕ) → b ≤ n → bit_and a b ≤ b
bit_and-le_fuel n a zero h = omega (arith, bit_and-zero a)
bit_and-le_fuel zero a (suc b) h = absurd (omega arith)
bit_and-le_fuel (suc n) a (suc b) h =
    omega (arith, bit_and_step a (suc b), bit_and-le_fuel n (a / 2) (suc b / 2) (omega arith))

-- Masking never exceeds the mask.
pub bit_and-le : (a b : ℕ) → bit_and a b ≤ b
bit_and-le a b = bit_and-le_fuel b a b (omega arith)

abbrev pub IsPowerOfTwo : ℕ → Type 0
IsPowerOfTwo c = (k : ℕ) × (c ≡ 2 ^ k)

-- `c & (c - 1)` clears the lowest one: it is zero at powers of two, and nowhere else above zero.
power_of_mask_fuel : (n c : ℕ) → c ≤ n → 0 < c → bit_and c (c - 1) ≡ 0 → IsPowerOfTwo c
power_of_mask_fuel zero c h p e = absurd (omega arith)
power_of_mask_fuel (suc n) c h p e = elim (ℕ_discrete (c % 2) 0) [
  | yes even ↦
      let half : (c - 1) / 2 ≡ c / 2 - 1 = omega arith in
      let below : bit_and (c / 2) (c / 2 - 1) ≡ 0 =
        omega (arith, bit_and_step c (c - 1), ap (bit_and (c / 2)) half) in
      let (k, q) = power_of_mask_fuel n (c / 2) (omega arith) (omega arith) below in
      (suc k, omega (arith, pow-suc 2 k))
  | no odd ↦
      let half : (c - 1) / 2 ≡ c / 2 = omega arith in
      (
        0,
        omega (
          arith,
          bit_and_step c (c - 1),
          ap (bit_and (c / 2)) half,
          bit_and_self_fuel (c / 2) (c / 2) (omega arith),
        ),
      )
]

pub power_of_mask : (c : ℕ) → 0 < c → bit_and c (c - 1) ≡ 0 → IsPowerOfTwo c
power_of_mask c = power_of_mask_fuel c c (omega arith)

pub mask_of_power : (k : ℕ) → bit_and (2 ^ k) (2 ^ k - 1) ≡ 0
mask_of_power k = bit_and_mask k (2 ^ k) ∙ omega (arith, pow-two-pos k, mod_self (2 ^ k))

zero-bit_or : (y : ℕ) → bit_or 0 y ≡ y
zero-bit_or = bit_or-bitwise 0

bit_or_step : (x y : ℕ) → bit_or x y ≡ bit_or (x / 2) (y / 2) * 2 + max (x % 2) (y % 2)
bit_or_step zero y = let low = zero-bit_or (y / 2) in let all = zero-bit_or y in omega arith
bit_or_step (suc x) y =
    let all = bit_or-bitwise (suc x) y in
    let high = bit_or-bitwise (suc x / 2) (y / 2) in
    let fuel =
      fuel_enough (λ z. z) max {x = suc x / 2} x (suc x / 2) (y / 2) (omega arith) (omega arith) in
    omega arith

bit_or-zero_fuel : (n a : ℕ) → a ≤ n → bit_or a 0 ≡ a
bit_or-zero_fuel n zero h = refl
bit_or-zero_fuel zero (suc a) h = absurd (omega arith)
bit_or-zero_fuel (suc n) (suc a) h =
    omega (arith, bit_or_step (suc a) 0, bit_or-zero_fuel n (suc a / 2) (omega arith))

-- One digit of a tag below a shifted number.
bit_or_shift :
    (a t n u : ℕ) → bit_or (a / 2) (t / 2) ≡ n → a % 2 ≡ 0 → n * 2 + t % 2 ≡ u → bit_or a t ≡ u
bit_or_shift a t n u e even total = omega (arith, bit_or_step a t)

-- `n << 4 | t` at a tag that fits its four bits.
pub bit_or_tag : (n t : ℕ) → t < 16 → bit_or (n * 16) t ≡ n * 16 + t
bit_or_tag n t h =
    let e₀ : bit_or n 0 ≡ n = bit_or-zero_fuel n n (omega arith) in
    let e₁ : bit_or (n * 2) (t / 8) ≡ n * 2 + t / 8 =
      bit_or_shift (n * 2) (t / 8) n _
        (ap (λ x. bit_or x (t / 8 / 2)) (omega arith) ∙ ap (bit_or n) (omega arith) ∙ e₀)
        (omega arith) (omega arith) in
    let e₂ : bit_or (n * 4) (t / 4) ≡ n * 4 + t / 4 =
      bit_or_shift (n * 4) (t / 4) (n * 2 + t / 8) _
        (ap (λ x. bit_or x (t / 4 / 2)) (omega arith) ∙ ap (bit_or (n * 2)) (omega arith) ∙ e₁)
        (omega arith) (omega arith) in
    let e₃ : bit_or (n * 8) (t / 2) ≡ n * 8 + t / 2 =
      bit_or_shift (n * 8) (t / 2) (n * 4 + t / 4) _
        (ap (λ x. bit_or x (t / 2 / 2)) (omega arith) ∙ ap (bit_or (n * 4)) (omega arith) ∙ e₂)
        (omega arith) (omega arith) in
    bit_or_shift (n * 16) t (n * 8 + t / 2) _ (ap (λ x. bit_or x (t / 2)) (omega arith) ∙ e₃)
      (omega arith) (omega arith)
