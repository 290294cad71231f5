-- ===== src/Address/Ipv6/Suffix.antt =====
-- ipv6_suffix_mask() of address.c, as arithmetic on the number of the address.
use fort_validator.Base.{
  ℕ, suc, ◌+◌, ◌-◌, ◌*◌, ◌/◌, ◌%◌, ◌^◌, ◌≤◌, ◌<◌, ◌≡◌, refl, sym, ap, ◌∙◌, arith, ltb, true, false,
}
use native.Mathlib.Nat.{mul-add-div, div-div-eq-div-mul}
use native.Mathlib.Decide.{dec_lt}
use fort_validator.Base.Bits.{two_pow_pos, two_pow-add}
use fort_validator.Address.{u32_suffix_mask}
use fort_validator.Address.Ipv6.{addr6_set_quadrant, addr6_or_quadrant, ipv6_suffix_mask}
use fort_validator.Address.Ipv6.Quadrant.{around4, filled, set_quadrant-around, or_suffix-around}

abbrev ones : ℕ
ones = 0xFFFF_FFFF

-- The quadrants below a given one, set to ones.
ones3 :
    (f l : ℕ) → l < 2 ^ 32 → addr6_set_quadrant (2 ^ 32 * f + l) 3 ones ≡ 2 ^ 32 * f + (2 ^ 32 - 1)
ones3 f l h =
    ap (λ x. addr6_set_quadrant x 3 ones) (omega arith)
    ∙ set_quadrant-around 3 f l 0 ones h (omega arith) (omega arith)
    ∙ omega arith

ones2 :
    (f l : ℕ)
    → l < 2 ^ 64
    → addr6_set_quadrant (addr6_set_quadrant (2 ^ 64 * f + l) 2 ones) 3 ones
      ≡ 2 ^ 64 * f + (2 ^ 64 - 1)
ones2 f l h =
    let s =
      ap (λ x. addr6_set_quadrant x 2 ones) {x = 2 ^ 64 * f + l}
        {y = around4 4 f (l / 2 ^ 32) (l % 2 ^ 32)} (omega arith)
      ∙ set_quadrant-around 2 f (l / 2 ^ 32) (l % 2 ^ 32) ones (omega arith) (omega arith)
          (omega arith) in
    ap (λ x. addr6_set_quadrant x 3 ones) s
    ∙ ones3 (2 ^ 32 * f + ones) (l % 2 ^ 32) (omega arith)
    ∙ omega arith

ones1 :
    (f l : ℕ)
    → l < 2 ^ 96
    → addr6_set_quadrant
        (addr6_set_quadrant (addr6_set_quadrant (2 ^ 96 * f + l) 1 ones) 2 ones)
        3
        ones
      ≡ 2 ^ 96 * f + (2 ^ 96 - 1)
ones1 f l h =
    let s =
      ap (λ x. addr6_set_quadrant x 1 ones) {x = 2 ^ 96 * f + l}
        {y = around4 8 f (l / 2 ^ 64) (l % 2 ^ 64)} (omega arith)
      ∙ set_quadrant-around 1 f (l / 2 ^ 64) (l % 2 ^ 64) ones (omega arith) (omega arith)
          (omega arith) in
    ap (λ x. addr6_set_quadrant (addr6_set_quadrant x 2 ones) 3 ones) s
    ∙ ones2 (2 ^ 32 * f + ones) (l % 2 ^ 64) (omega arith)
    ∙ omega arith

-- A number with its last `k` bits set.
abbrev pub with_suffix : ℕ → ℕ → ℕ
with_suffix k a = a / 2 ^ k * 2 ^ k + (2 ^ k - 1)

mul_suc : (p x : ℕ) → p * suc x ≡ p * x + p
mul_suc p x = omega arith

scaled :
    (p f d s : ℕ) → 0 < p → 0 < d → suc f ≡ d * suc s → p * f + (p - 1) ≡ s * (d * p) + (d * p - 1)
scaled p f d s hp hd e =
    let times : p * suc f ≡ p * (d * suc s) = ap (λ x. p * x) e in
    let left = mul_suc p f in
    let right : p * (d * suc s) ≡ s * (d * p) + d * p = omega arith in
    let some_left : 0 < d * p = grind arith in omega arith

-- The suffix of a quadrant and all below it are the suffix of the number.
filled-suffix :
    (p j a : ℕ)
    → 0 < p
    → j ≤ 32
    → p * filled (a / p / 2 ^ 32) (a / p % 2 ^ 32) j + (p - 1)
      ≡ a / (2 ^ j * p) * (2 ^ j * p) + (2 ^ j * p - 1)
filled-suffix p j a hp hj =
    let d = 2 ^ j in
    let q = a / p in
    let h = q / 2 ^ 32 in
    let rest = 2 ^ (32 - j) in
    let pos = two_pow_pos j in
    let whole : 2 ^ 32 ≡ d * rest =
      ap (λ k. 2 ^ k) {x = 32} {y = j + (32 - j)} (omega arith) ∙ two_pow-add j (32 - j) in
    let split : q ≡ d * (rest * h) + q % 2 ^ 32 = omega (arith, ap (λ w. w * h) whole) in
    let high : q / d ≡ rest * h + q % 2 ^ 32 / d =
      ap (λ x. x / d) split ∙ mul-add-div {m = d} pos (rest * h) (q % 2 ^ 32) in
    let deep : a / (d * p) ≡ q / d =
      ap (λ x. a / x) (omega arith) ∙ sym (div-div-eq-div-mul a p d) in
    let s = rest * h + q % 2 ^ 32 / d in
    let next : suc (filled h (q % 2 ^ 32) j) ≡ d * suc s = omega (arith, ap (λ w. w * h) whole) in
    rw (deep, high) (scaled p (filled h (q % 2 ^ 32) j) d s hp pos next)

-- The suffix bits of one quadrant, and all bits below it.
branch :
    (p j len k a : ℕ)
    → 0 < p
    → len ≤ 32
    → k ≡ j + (32 - len)
    → p ≡ 2 ^ j
    → p * filled (a / p / 2 ^ 32) (a / p % 2 ^ 32) (32 - len) + (p - 1) ≡ with_suffix k a
branch p j len k a hp le hk e =
    let r = filled-suffix p (32 - len) a hp (omega arith) in
    let d : 2 ^ k ≡ 2 ^ (32 - len) * p = rw (hk, e) (two_pow-add j (32 - len) ∙ omega arith) in
    rw d r

or0 :
    (len a : ℕ)
    → len ≤ 32
    → addr6_or_quadrant a 0 (u32_suffix_mask len)
      ≡ 2 ^ 96 * filled (a / 2 ^ 96 / 2 ^ 32) (a / 2 ^ 96 % 2 ^ 32) (32 - len) + a % 2 ^ 96
or0 len a le =
    let q = a / 2 ^ 96 in
    ap (λ x. addr6_or_quadrant x 0 (u32_suffix_mask len)) {x = a}
      {y = around4 12 (q / 2 ^ 32) (q % 2 ^ 32) (a % 2 ^ 96)} (omega arith)
    ∙ or_suffix-around 0 (q / 2 ^ 32) (q % 2 ^ 32) (a % 2 ^ 96) len (omega arith) le (omega arith)

or1 :
    (len a : ℕ)
    → len ≤ 32
    → addr6_or_quadrant a 1 (u32_suffix_mask len)
      ≡ 2 ^ 64 * filled (a / 2 ^ 64 / 2 ^ 32) (a / 2 ^ 64 % 2 ^ 32) (32 - len) + a % 2 ^ 64
or1 len a le =
    let q = a / 2 ^ 64 in
    ap (λ x. addr6_or_quadrant x 1 (u32_suffix_mask len)) {x = a}
      {y = around4 8 (q / 2 ^ 32) (q % 2 ^ 32) (a % 2 ^ 64)} (omega arith)
    ∙ or_suffix-around 1 (q / 2 ^ 32) (q % 2 ^ 32) (a % 2 ^ 64) len (omega arith) le (omega arith)

or2 :
    (len a : ℕ)
    → len ≤ 32
    → addr6_or_quadrant a 2 (u32_suffix_mask len)
      ≡ 2 ^ 32 * filled (a / 2 ^ 32 / 2 ^ 32) (a / 2 ^ 32 % 2 ^ 32) (32 - len) + a % 2 ^ 32
or2 len a le =
    let q = a / 2 ^ 32 in
    ap (λ x. addr6_or_quadrant x 2 (u32_suffix_mask len)) {x = a}
      {y = around4 4 (q / 2 ^ 32) (q % 2 ^ 32) (a % 2 ^ 32)} (omega arith)
    ∙ or_suffix-around 2 (q / 2 ^ 32) (q % 2 ^ 32) (a % 2 ^ 32) len (omega arith) le (omega arith)

or3 :
    (len a : ℕ)
    → len ≤ 32
    → addr6_or_quadrant a 3 (u32_suffix_mask len)
      ≡ 2 ^ 0 * filled (a / 2 ^ 0 / 2 ^ 32) (a / 2 ^ 0 % 2 ^ 32) (32 - len) + a % 2 ^ 0
or3 len a le =
    let q = a / 2 ^ 0 in
    ap (λ x. addr6_or_quadrant x 3 (u32_suffix_mask len)) {x = a}
      {y = around4 0 (q / 2 ^ 32) (q % 2 ^ 32) (a % 2 ^ 0)} (omega arith)
    ∙ or_suffix-around 3 (q / 2 ^ 32) (q % 2 ^ 32) (a % 2 ^ 0) len (omega arith) le (omega arith)

-- ipv6_suffix_mask() sets the bits of an address beyond the prefix length, and keeps the others.
pub ipv6_suffix_mask-eq :
    (len a : ℕ) → len ≤ 128 → ipv6_suffix_mask len a ≡ with_suffix (128 - len) a
unfolding ipv6_suffix_mask
ipv6_suffix_mask-eq len a le = elim (dec_lt len 32) [
  | yes l0 ↦
      let c : ltb len 32 ≡ true = ground arith in
      rw (c, ipv6_suffix_mask, or0 len a (omega arith))
        (ones1 _ (a % 2 ^ 96) (omega arith)
          ∙ branch (2 ^ 96) 96 len (128 - len) a (omega arith) (omega arith) (omega arith) refl)
  | no h0 ↦
      let c0 : ltb len 32 ≡ false = ground arith in
      elim (dec_lt len 64) [
        | yes l1 ↦
            let c : ltb len 64 ≡ true = ground arith in
            rw (c0, c, ipv6_suffix_mask, or1 (len - 32) a (omega arith))
              (ones2 _ (a % 2 ^ 64) (omega arith)
                ∙ branch (2 ^ 64) 64 (len - 32) (128 - len) a (omega arith) (omega arith)
                    (omega arith) refl)
        | no h1 ↦
            let c1 : ltb len 64 ≡ false = ground arith in
            elim (dec_lt len 96) [
              | yes l2 ↦
                  let c : ltb len 96 ≡ true = ground arith in
                  rw (c0, c1, c, ipv6_suffix_mask, or2 (len - 64) a (omega arith))
                    (ones3 _ (a % 2 ^ 32) (omega arith)
                      ∙ branch (2 ^ 32) 32 (len - 64) (128 - len) a (omega arith) (omega arith)
                          (omega arith) refl)
              | no h2 ↦
                  let c2 : ltb len 96 ≡ false = ground arith in
                  rw (c0, c1, c2, ipv6_suffix_mask, or3 (len - 96) a (omega arith))
                    (omega arith
                      ∙ branch 1 0 (len - 96) (128 - len) a (omega arith) (omega arith)
                          (omega arith) refl)
            ]
      ]
]
