-- ===== src/Base/Bits.antt =====
-- Masks as arithmetic: the bitwise operations of the native numbers with `2 ^ k - 1` and `2 ^ k`.
use Prim.Native.Nat.{
  ℕ, zero, suc, ◌+◌, ◌-◌, ◌*◌, ◌/◌, ◌%◌, ◌^◌, ◌≤◌, ◌<◌, min, max, bit_and, bit_or, digits, bitwise,
  bit_and-bitwise, bit_or-bitwise,
}
use mathlib.Core.Path.{◌≡◌, refl, ap, ◌∙◌}
use native.Mathlib.Nat.{
  pow-suc, one-le-pow, div-add-mod, mod-lt, mul-add-div, div-eq_of_lt, mul-le-mul_left,
  mul-div_cancel, mul-mod_left, mod-eq_of_lt, lt_of_mul-lt-mul_left,
}
use native.Mathlib.Omega.{arith}

-- Two amounts of fuel that both reach the number give the same digits.
module _ (past : ℕ → ℕ) (op : ℕ → ℕ → ℕ) where
  digits_agree : (f g x y : ℕ) → x ≤ f → x ≤ g → digits past op f x y ≡ digits past op g x y
  digits_agree zero zero x y h k = refl
  digits_agree (suc f) (suc g) zero y h k = refl
  digits_agree zero (suc g) zero y h k = refl
  digits_agree (suc f) zero zero y h k = refl
  digits_agree zero g (suc x) y h k = elim h [ ]
  digits_agree (suc f) zero (suc x) y h k = elim k [ ]
  digits_agree (suc f) (suc g) (suc x) y h k =
      ap (λ d. d * 2 + op (suc x % 2) (y % 2))
        (digits_agree f g (suc x / 2) (y / 2) (omega arith) (omega arith))

  bitwise_low :
      (x y : ℕ)
      → bitwise past op (suc x) y ≡ bitwise past op (suc x / 2) (y / 2) * 2 + op (suc x % 2) (y % 2)
  bitwise_low x y =
      ap (λ d. d * 2 + op (suc x % 2) (y % 2))
        (digits_agree x (suc x / 2) (suc x / 2) (y / 2) (omega arith) (omega arith))

and_low : (x y : ℕ) → bit_and x y ≡ bit_and (x / 2) (y / 2) * 2 + min (x % 2) (y % 2)
and_low zero y = omega (arith, bit_and-bitwise zero y, bit_and-bitwise zero (y / 2))
and_low (suc x) y = omega (
  arith,
  bit_and-bitwise (suc x) y,
  bit_and-bitwise (suc x / 2) (y / 2),
  bitwise_low (λ b. 0) min x y,
)

or_low : (x y : ℕ) → bit_or x y ≡ bit_or (x / 2) (y / 2) * 2 + max (x % 2) (y % 2)
or_low zero y = omega (arith, bit_or-bitwise zero y, bit_or-bitwise zero (y / 2))
or_low (suc x) y = omega (
  arith,
  bit_or-bitwise (suc x) y,
  bit_or-bitwise (suc x / 2) (y / 2),
  bitwise_low (λ b. b) max x y,
)

-- `bound` is fuel for the induction on halves.
and_nothing : (bound x : ℕ) → x ≤ bound → bit_and x 0 ≡ 0
and_nothing bound zero h = omega (arith, bit_and-bitwise 0 0)
and_nothing zero (suc x) h = elim h [ ]
and_nothing (suc bound) (suc x) h =
    omega (arith, and_low (suc x) 0, and_nothing bound (suc x / 2) (omega arith))

or_nothing : (bound x : ℕ) → x ≤ bound → bit_or x 0 ≡ x
or_nothing bound zero h = omega (arith, bit_or-bitwise 0 0)
or_nothing zero (suc x) h = elim h [ ]
or_nothing (suc bound) (suc x) h =
    omega (arith, or_low (suc x) 0, or_nothing bound (suc x / 2) (omega arith))

pub two_pow_suc : (k : ℕ) → 2 ^ suc k ≡ 2 * 2 ^ k
two_pow_suc k = omega (arith, pow-suc 2 k)

pub two_pow_pos : (k : ℕ) → 0 < 2 ^ k
two_pow_pos k = one-le-pow k 2 (omega arith)

-- The quotient and the remainder of a number by twice a power.
pub half_mod : (x p : ℕ) → 0 < p → x % (2 * p) ≡ 2 * (x / 2 % p) + x % 2
half_mod x p h = grind arith

pub half_div : (x p : ℕ) → 0 < p → x / (2 * p) ≡ x / 2 / p
half_div x p h = grind arith

-- `x & (2^k - 1)` keeps the k low bits.
pub bit_and-ones : (k x : ℕ) → bit_and x (2 ^ k - 1) ≡ x % 2 ^ k
bit_and-ones zero x = omega (arith, and_nothing x x (omega arith))
bit_and-ones (suc k) x = ground (
  arith,
  and_low x (2 ^ suc k - 1),
  two_pow_suc k,
  two_pow_pos k,
  half_mod x (2 ^ k) (two_pow_pos k),
  bit_and-ones k (x / 2),
)

-- `x | (2^k - 1)` sets the k low bits.
pub bit_or-ones : (k x : ℕ) → bit_or x (2 ^ k - 1) ≡ x / 2 ^ k * 2 ^ k + (2 ^ k - 1)
bit_or-ones zero x = omega (arith, or_nothing x x (omega arith))
bit_or-ones (suc k) x = ground (
  arith,
  or_low x (2 ^ suc k - 1),
  two_pow_suc k,
  two_pow_pos k,
  half_div x (2 ^ k) (two_pow_pos k),
  bit_or-ones k (x / 2),
  ap (λ p. x / 2 / 2 ^ k * p) (two_pow_suc k),
)

-- `x & 2^k` is the bit k.
pub bit_and-power : (k x : ℕ) → bit_and x (2 ^ k) ≡ x / 2 ^ k % 2 * 2 ^ k
bit_and-power zero x = omega (arith, and_low x 1, and_nothing (x / 2) (x / 2) (omega arith))
bit_and-power (suc k) x = ground (
  arith,
  and_low x (2 ^ suc k),
  two_pow_suc k,
  two_pow_pos k,
  half_div x (2 ^ k) (two_pow_pos k),
  bit_and-power k (x / 2),
  ap (λ p. x / 2 / 2 ^ k % 2 * p) (two_pow_suc k),
)

div_unique : (d q r : ℕ) → 0 < d → r < d → (d * q + r) / d ≡ q
div_unique d q r h lt = rw (mul-add-div h q r, div-eq_of_lt lt) (omega arith)

-- A number cut at `2 * p`, from its cut at `p`.
twice_shape : (x p : ℕ) → x ≡ 2 * p * (x / p / 2) + (p * (x / p % 2) + x % p)
twice_shape x p =
    let halves : x / p ≡ 2 * (x / p / 2) + x / p % 2 = omega arith in
    omega (arith, div-add-mod x p, ap (λ q. p * q) halves)

bit_rest-lt : (x p : ℕ) → 0 < p → p * (x / p % 2) + x % p < 2 * p
bit_rest-lt x p h = grind (arith, mod-lt x h, mod-lt (x / p) {m = 2} (omega arith))

div_twice : (x p : ℕ) → 0 < p → x / (2 * p) ≡ x / p / 2
div_twice x p h =
    ap (λ y. y / (2 * p)) (twice_shape x p)
    ∙ div_unique (2 * p) (x / p / 2) (p * (x / p % 2) + x % p) (omega arith) (bit_rest-lt x p h)

mod_twice : (x p : ℕ) → 0 < p → x % (2 * p) ≡ p * (x / p % 2) + x % p
mod_twice x p h =
    omega (arith, div-add-mod x (2 * p), twice_shape x p, ap (λ q. 2 * p * q) (div_twice x p h))

-- The bits of a number from `n` up, and the bit n.
pub div-two_pow-suc : (n x : ℕ) → x / 2 ^ suc n ≡ x / 2 ^ n / 2
div-two_pow-suc n x = rw (two_pow_suc n) (div_twice x (2 ^ n) (two_pow_pos n))

pub mod-two_pow-suc : (n x : ℕ) → x % 2 ^ suc n ≡ 2 ^ n * (x / 2 ^ n % 2) + x % 2 ^ n
mod-two_pow-suc n x = rw (two_pow_suc n) (mod_twice x (2 ^ n) (two_pow_pos n))

-- `x & ~(2^k - 1)`, of `n + k` bits, keeps the bits from k up.
pub bit_and-high_ones : (n k x : ℕ) → bit_and x (2 ^ k * (2 ^ n - 1)) ≡ 2 ^ k * (x / 2 ^ k % 2 ^ n)
bit_and-high_ones n zero x =
    let e : 2 ^ 0 * (2 ^ n - 1) ≡ 2 ^ n - 1 = omega arith in
    let f : x / 2 ^ 0 ≡ x = omega arith in rw (e, f, bit_and-ones n x) (omega arith)
bit_and-high_ones n (suc k) x =
    let m = 2 ^ k * (2 ^ n - 1) in
    let p = two_pow_suc k in
    let t : 2 ^ suc k * (2 ^ n - 1) ≡ 2 * m = rw p (grind arith) in
    let e : x / 2 ^ suc k ≡ x / 2 / 2 ^ k = rw p (half_div x (2 ^ k) (two_pow_pos k)) in
    let z = x / 2 / 2 ^ k % 2 ^ n in
    let half : 2 * m / 2 ≡ m = omega arith in
    rw (t, e)
      (omega (
        arith,
        and_low x (2 * m),
        ap (λ y. bit_and (x / 2) y) half,
        bit_and-high_ones n k (x / 2),
        ap (λ q. q * z) p,
      ))

pub two_pow-add : (a b : ℕ) → 2 ^ (a + b) ≡ 2 ^ a * 2 ^ b
two_pow-add zero b = let e : zero + b ≡ b = omega arith in rw e (omega arith)
two_pow-add (suc a) b =
    let e : suc a + b ≡ suc (a + b) = omega arith in
    rw e (omega (arith, two_pow_suc (a + b), two_pow-add a b, ap (λ p. p * 2 ^ b) (two_pow_suc a)))

-- Below a multiple of `d`, a multiple of `d` leaves room for `d` numbers.
pub multiple-room : (d q m : ℕ) → d * q < d * m → d * q + d ≤ d * m
multiple-room d q m h =
    let next : suc q ≤ m = lt_of_mul-lt-mul_left d h in
    omega (arith, mul-le-mul_left {m = suc q} {n = m} d next)

or_zeros : (x y : ℕ) → x ≡ 0 → y ≡ 0 → bit_or x y ≡ 0
or_zeros x y hx hy = rw (hx, hy) (or_nothing 0 0 (omega arith))

half_of_mod : (x p : ℕ) → 0 < p → x % (2 * p) / 2 ≡ x / 2 % p
half_of_mod x p h = omega (arith, half_mod x p h)

bit_of_mod : (x p : ℕ) → 0 < p → x % (2 * p) % 2 ≡ x % 2
bit_of_mod x p h = omega (arith, half_mod x p h)

-- `|` of the high parts and of the low parts.
pub bit_or_split :
    (k x y : ℕ)
    → bit_or x y ≡ bit_or (x / 2 ^ k) (y / 2 ^ k) * 2 ^ k + bit_or (x % 2 ^ k) (y % 2 ^ k)
bit_or_split zero x y =
    let ex : x / 2 ^ 0 ≡ x = omega arith in
    let ey : y / 2 ^ 0 ≡ y = omega arith in
    rw (ex, ey, or_zeros (x % 2 ^ 0) (y % 2 ^ 0) (omega arith) (omega arith)) (omega arith)
bit_or_split (suc k) x y =
    let p = 2 ^ k in
    let pos = two_pow_pos k in
    rw
      (
        two_pow_suc k,
        or_low (x % (2 * p)) (y % (2 * p)),
        half_of_mod x p pos,
        half_of_mod y p pos,
        bit_of_mod x p pos,
        bit_of_mod y p pos,
        half_div x p pos,
        half_div y p pos,
      )
      (omega (arith, or_low x y, bit_or_split k (x / 2) (y / 2)))

pub bit_or-lt : (k x y : ℕ) → x < 2 ^ k → y < 2 ^ k → bit_or x y < 2 ^ k
bit_or-lt zero x y hx hy = omega (arith, or_zeros x y (omega arith) (omega arith))
bit_or-lt (suc k) x y hx hy = ground (arith, or_low x y, two_pow_suc k, bit_or-lt k (x / 2) (y / 2))

and_zeros : (x y : ℕ) → x ≡ 0 → y ≡ 0 → bit_and x y ≡ 0
and_zeros x y hx hy = rw (hx, hy) (and_nothing 0 0 (omega arith))

-- `&` of the high parts and of the low parts.
pub bit_and_split :
    (k x y : ℕ)
    → bit_and x y ≡ bit_and (x / 2 ^ k) (y / 2 ^ k) * 2 ^ k + bit_and (x % 2 ^ k) (y % 2 ^ k)
bit_and_split zero x y =
    let ex : x / 2 ^ 0 ≡ x = omega arith in
    let ey : y / 2 ^ 0 ≡ y = omega arith in
    rw (ex, ey, and_zeros (x % 2 ^ 0) (y % 2 ^ 0) (omega arith) (omega arith)) (omega arith)
bit_and_split (suc k) x y =
    let p = 2 ^ k in
    let pos = two_pow_pos k in
    rw
      (
        two_pow_suc k,
        and_low (x % (2 * p)) (y % (2 * p)),
        half_of_mod x p pos,
        half_of_mod y p pos,
        bit_of_mod x p pos,
        bit_of_mod y p pos,
        half_div x p pos,
        half_div y p pos,
      )
      (omega (arith, and_low x y, bit_and_split k (x / 2) (y / 2)))

or_first : (y : ℕ) → bit_or 0 y ≡ y
or_first y = omega (arith, bit_or-bitwise 0 y)

-- `|` of parts that share no bits is their sum.
pub bit_or-disjoint : (k x y : ℕ) → y < 2 ^ k → bit_or (x * 2 ^ k) y ≡ x * 2 ^ k + y
bit_or-disjoint k x y h =
    let pos = two_pow_pos k in
    rw
      (
        bit_or_split k (x * 2 ^ k) y,
        mul-div_cancel x {n = 2 ^ k} pos,
        mul-mod_left x (2 ^ k),
        div-eq_of_lt {n = y} {m = 2 ^ k} h,
        mod-eq_of_lt {n = y} {m = 2 ^ k} h,
        or_nothing x x (omega arith),
        or_first y,
      )
      refl

pub bit_and-lt : (k x y : ℕ) → x < 2 ^ k → bit_and x y < 2 ^ k
bit_and-lt zero x y h = let e : x ≡ 0 = omega arith in rw e (omega (arith, bit_and-bitwise 0 y))
bit_and-lt (suc k) x y h = ground (arith, and_low x y, two_pow_suc k, bit_and-lt k (x / 2) (y / 2))
