-- ===== src/Address/Ipv6/Ranges.antt =====
-- The checks of address.c on IPv6 ranges, quadrant by quadrant, as checks on 128-bit numbers.
use Prim.Native.Nat.{bit_or}
use fort_validator.Base.{
  ℕ, zero, suc, ◌+◌, ◌-◌, ◌*◌, ◌/◌, ◌%◌, ◌^◌, ◌≤◌, ◌<◌, ◌≡◌, ap, ◌∙◌, true, false, ltb,
  if◌then◌else◌, arith,
}
use native.Mathlib.Nat.{mod-lt, mul-le-mul_left}
use native.Mathlib.Decide.{dec_lt}
use fort_validator.Base.Bits.{bit_or-disjoint, two_pow_pos, two_pow-add}
use fort_validator.Address.Ipv6.{byte, addr6_get_quadrant, inverted_quadrants}
use fort_validator.Address.Ipv6.Bytes.{mod-product}

-- The quadrant that has `n` quadrants after it.
abbrev pub quadrant : ℕ → ℕ → ℕ
quadrant n a = a / 2 ^ (32 * n) % 2 ^ 32

or_bytes :
    (c3 c2 c1 c0 : ℕ)
    → c2 < 256
    → c1 < 256
    → c0 < 256
    → bit_or (bit_or (bit_or (c3 * 2 ^ 24) (c2 * 2 ^ 16)) (c1 * 2 ^ 8)) c0
      ≡ c3 * 2 ^ 24 + c2 * 2 ^ 16 + c1 * 2 ^ 8 + c0
or_bytes c3 c2 c1 c0 h2 h1 h0 =
    let s2 = bit_or-disjoint 24 c3 (c2 * 2 ^ 16) (omega arith) in
    let t2 : c3 * 2 ^ 24 + c2 * 2 ^ 16 ≡ (c3 * 256 + c2) * 2 ^ 16 = omega arith in
    let s1 = bit_or-disjoint 16 (c3 * 256 + c2) (c1 * 2 ^ 8) (omega arith) in
    let t1 : (c3 * 256 + c2) * 2 ^ 16 + c1 * 2 ^ 8 ≡ ((c3 * 256 + c2) * 256 + c1) * 2 ^ 8 =
      omega arith in
    let s0 = bit_or-disjoint 8 ((c3 * 256 + c2) * 256 + c1) c0 h0 in
    rw (s2, t2, s1, t1, s0) (omega arith)

-- addr6_get_quadrant() reads 32 bits of the number.
pub get_quadrant-eq : (n a : ℕ) → n < 4 → addr6_get_quadrant a (3 - n) ≡ quadrant n a
unfolding addr6_get_quadrant byte
get_quadrant-eq zero a h = or_bytes _ _ _ _ (omega arith) (omega arith) (omega arith) ∙ omega arith
get_quadrant-eq (suc zero) a h =
    or_bytes _ _ _ _ (omega arith) (omega arith) (omega arith) ∙ omega arith
get_quadrant-eq (suc (suc zero)) a h =
    or_bytes _ _ _ _ (omega arith) (omega arith) (omega arith) ∙ omega arith
get_quadrant-eq (suc (suc (suc zero))) a h =
    or_bytes _ _ _ _ (omega arith) (omega arith) (omega arith) ∙ omega arith
get_quadrant-eq (suc (suc (suc (suc n)))) a h = absurd (omega arith)

mul_suc : (p x : ℕ) → p * suc x ≡ p * x + p
mul_suc p x = omega arith

inverted_step :
    (p x y r s : ℕ)
    → r < p
    → s < p
    → (if ltb y x then true else if ltb x y then false else ltb s r) ≡ ltb (p * y + s) (p * x + r)
inverted_step p x y r s hr hs = elim (dec_lt x y) [
  | yes below ↦
      let room = mul-le-mul_left {m = suc x} {n = y} p below in ground (arith, mul_suc p x)
  | no up ↦ elim (dec_lt y x) [
    | yes above ↦
        let room = mul-le-mul_left {m = suc y} {n = x} p above in ground (arith, mul_suc p y)
    | no down ↦
        let same : x ≡ y = omega arith in
        let e : p * x ≡ p * y = ap (λ z. p * z) same in ground arith
  ]
]

mod-quadrant : (n a : ℕ) → a % 2 ^ (32 * suc n) ≡ 2 ^ (32 * n) * quadrant n a + a % 2 ^ (32 * n)
mod-quadrant n a =
    let e : 2 ^ (32 * suc n) ≡ 2 ^ (32 * n) * 2 ^ 32 =
      ap (λ i. 2 ^ i) {x = 32 * suc n} {y = 32 * n + 32} (omega arith) ∙ two_pow-add (32 * n) 32 in
    rw e (mod-product (2 ^ (32 * n)) (2 ^ 32) a (two_pow_pos (32 * n)) (omega arith))

-- The loop of check_order6() compares the numbers.
pub inverted_quadrants-eq-ltb :
    (n lo hi : ℕ) → n ≤ 4 → inverted_quadrants n lo hi ≡ ltb (hi % 2 ^ (32 * n)) (lo % 2 ^ (32 * n))
unfolding inverted_quadrants
inverted_quadrants-eq-ltb zero lo hi h = ground arith
inverted_quadrants-eq-ltb (suc n) lo hi h =
    let pos = two_pow_pos (32 * n) in
    rw
      (
        get_quadrant-eq n lo (omega arith),
        get_quadrant-eq n hi (omega arith),
        mod-quadrant n lo,
        mod-quadrant n hi,
        inverted_quadrants-eq-ltb n lo hi (omega arith),
      )
      (inverted_step (2 ^ (32 * n)) (quadrant n lo) (quadrant n hi) (lo % 2 ^ (32 * n))
        (hi % 2 ^ (32 * n)) (mod-lt lo pos) (mod-lt hi pos))
