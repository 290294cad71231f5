-- ===== src/Address/Encoding.antt =====
-- check_encoding4() of address.c refuses exactly the ranges that a prefix could have encoded.
use fort_validator.Base.{
  ℕ, zero, suc, ◌+◌, ◌-◌, ◌*◌, ◌/◌, ◌%◌, ◌^◌, ◌≤◌, ◌<◌, ◌≡◌, ◌↔◌, refl, true, false, arith, ◌==◌,
  Bool-cases, inl, inr, ap, sym, ◌∙◌, ◌⊎◌,
}
use Prim.Native.Nat.{bit_and}
use fort_validator.Base.Bits.{
  two_pow_pos, two_pow_suc, bit_and-power, div-two_pow-suc, mod-two_pow-suc,
}
use fort_validator.Base.Results.{err, einval, reject-eq-err}
use native.Mathlib.Nat.{mod-lt}
use fort_validator.Address.{Ipv4Range, skip_equal_bits, only_suffix_bits, check_encoding4}

-- A bit of a number, as the source reads it with a mask.
pub bit_and-clear : (n x : ℕ) → x / 2 ^ n % 2 ≡ 0 → bit_and x (2 ^ n) ≡ 0
bit_and-clear n x h = bit_and-power n x ∙ ap (λ b. b * 2 ^ n) h ∙ omega arith

pub bit_and-set : (n x : ℕ) → x / 2 ^ n % 2 ≡ 1 → bit_and x (2 ^ n) ≡ 2 ^ n
bit_and-set n x h = bit_and-power n x ∙ ap (λ b. b * 2 ^ n) h ∙ omega arith

pub bit-cases : (n x : ℕ) → (x / 2 ^ n % 2 ≡ 0) ⊎ (x / 2 ^ n % 2 ≡ 1)
bit-cases n x = omega arith

-- The low bits of the lower end are all 0, and those of the upper end all 1.
abbrev pub SuffixBits : ℕ → ℕ → ℕ → Type 0
SuffixBits n lo hi = (lo % 2 ^ n ≡ 0) × (hi % 2 ^ n ≡ 2 ^ n - 1)

mod-suc_clear : (n x : ℕ) → x / 2 ^ n % 2 ≡ 0 → x % 2 ^ suc n ≡ x % 2 ^ n
mod-suc_clear n x h = mod-two_pow-suc n x ∙ omega (arith, ap (λ b. 2 ^ n * b) h)

mod-suc_set : (n x : ℕ) → x / 2 ^ n % 2 ≡ 1 → x % 2 ^ suc n ≡ 2 ^ n + x % 2 ^ n
mod-suc_set n x h = mod-two_pow-suc n x ∙ omega (arith, ap (λ b. 2 ^ n * b) h)

pub only_suffix_bits_iff : (n lo hi : ℕ) → (only_suffix_bits n lo hi ≡ true) ↔ SuffixBits n lo hi
unfolding only_suffix_bits
only_suffix_bits_iff zero lo hi = (λ _. (omega arith, omega arith), λ _. refl)
only_suffix_bits_iff (suc n) lo hi =
    let pos = two_pow_pos n in
    let twice = two_pow_suc n in
    let lo_lt = mod-lt lo pos in
    let hi_lt = mod-lt hi pos in
    elim (bit-cases n lo) [
      | inr set ↦ (
        (λ h. absurd (ground (arith, bit_and-set n lo set))),
        λ s. absurd (omega (arith, s.0, mod-suc_set n lo set)),
      )
      | inl clear ↦ elim (bit-cases n hi) [
        | inl low ↦ (
          (λ h. absurd (ground (arith, bit_and-clear n hi low))),
          λ s. absurd (omega (arith, s.1, mod-suc_clear n hi low)),
        )
        | inr high ↦
            let rest = only_suffix_bits_iff n lo hi in
            let a = mod-suc_clear n lo clear in
            let b = mod-suc_set n hi high in
            let nz : (2 ^ n == 0) ≡ false = ground arith in
            rw (bit_and-clear n lo clear, bit_and-set n hi high, nz, only_suffix_bits)
              (
                (λ h. let r = rest.0 h in (omega arith, omega arith)),
                λ s. rest.1 (omega arith, omega arith),
              )
      ]
    ]

-- Equal bits from a place up are equal from any higher place up.
div-two_pow_mono : (k d lo hi : ℕ) → lo / 2 ^ k ≡ hi / 2 ^ k → lo / 2 ^ (d + k) ≡ hi / 2 ^ (d + k)
div-two_pow_mono k zero lo hi h = let e : zero + k ≡ k = omega arith in rw e h
div-two_pow_mono k (suc d) lo hi h =
    let e : suc d + k ≡ suc (d + k) = omega arith in
    rw e (
      div-two_pow-suc (d + k) lo
      ∙ ap (λ q. q / 2) (div-two_pow_mono k d lo hi h)
      ∙ sym (div-two_pow-suc (d + k) hi))

bit_and-cong : (n lo hi : ℕ) → lo / 2 ^ n ≡ hi / 2 ^ n → bit_and lo (2 ^ n) ≡ bit_and hi (2 ^ n)
bit_and-cong n lo hi h = bit_and-power n lo ∙ ap (λ q. q % 2 * 2 ^ n) h ∙ sym (bit_and-power n hi)

bit_and-inj :
    (n lo hi : ℕ) → bit_and lo (2 ^ n) ≡ bit_and hi (2 ^ n) → lo / 2 ^ n % 2 ≡ hi / 2 ^ n % 2
bit_and-inj n lo hi h =
    let p = two_pow_pos n in
    elim (bit-cases n lo) [
      | inl a ↦ elim (bit-cases n hi) [
        | inl b ↦ omega arith
        | inr b ↦ absurd (omega (arith, bit_and-clear n lo a, bit_and-set n hi b))
      ]
      | inr a ↦ elim (bit-cases n hi) [
        | inl b ↦ absurd (omega (arith, bit_and-set n lo a, bit_and-clear n hi b))
        | inr b ↦ omega arith
      ]
    ]

-- The first loop stops where the higher bits are still equal.
pub skip_equal_bits-same :
    (n lo hi : ℕ)
    → lo / 2 ^ n ≡ hi / 2 ^ n
    → let m = skip_equal_bits n lo hi in (m ≤ n) × (lo / 2 ^ m ≡ hi / 2 ^ m)
unfolding skip_equal_bits
skip_equal_bits-same zero lo hi h = (omega arith, h)
skip_equal_bits-same (suc n) lo hi h =
    elim (Bool-cases (bit_and lo (2 ^ n) == bit_and hi (2 ^ n))) [
      | inr differ ↦ rw (differ, skip_equal_bits) (omega arith, h)
      | inl same ↦
          let bit = bit_and-inj n lo hi (ground arith) in
          let r =
            skip_equal_bits-same n lo hi
              (omega (arith, div-two_pow-suc n lo, div-two_pow-suc n hi)) in
          rw (same, skip_equal_bits) (omega arith, r.1)
    ]

SuffixBits-top :
    (k lo hi : ℕ) → SuffixBits (suc k) lo hi → (lo / 2 ^ k % 2 ≡ 0) × (hi / 2 ^ k % 2 ≡ 1)
SuffixBits-top k lo hi s =
    let p = two_pow_pos k in
    let q = two_pow_suc k in
    (
      (elim (bit-cases k lo) [
        | inl b ↦ b
        | inr b ↦ absurd (omega (arith, s.0, mod-suc_set k lo b))
      ]),
      (elim (bit-cases k hi) [
        | inl b ↦ absurd (omega (arith, s.1, mod-suc_clear k hi b, mod-lt hi p))
        | inr b ↦ b
      ]),
    )

-- Where the range is a prefix of `k` suffix bits, the first loop stops at `k`.
pub skip_equal_bits-prefix :
    (d k lo hi : ℕ)
    → lo / 2 ^ k ≡ hi / 2 ^ k
    → SuffixBits k lo hi
    → skip_equal_bits (d + k) lo hi ≡ k
unfolding skip_equal_bits
skip_equal_bits-prefix zero zero lo hi h s = refl
skip_equal_bits-prefix zero (suc k) lo hi h s =
    let e : zero + suc k ≡ suc k = omega arith in
    let ends = SuffixBits-top k lo hi s in
    let differ : (bit_and lo (2 ^ k) == bit_and hi (2 ^ k)) ≡ false =
      ground (arith, bit_and-clear k lo ends.0, bit_and-set k hi ends.1, two_pow_pos k) in
    rw e (rw (differ, skip_equal_bits) refl)
skip_equal_bits-prefix (suc d) k lo hi h s =
    let e : suc d + k ≡ suc (d + k) = omega arith in
    let same : (bit_and lo (2 ^ (d + k)) == bit_and hi (2 ^ (d + k))) ≡ true =
      ground (arith, bit_and-cong (d + k) lo hi (div-two_pow_mono k d lo hi h)) in
    rw e (rw (same, skip_equal_bits) (skip_equal_bits-prefix d k lo hi h s))

-- The range holds exactly the addresses of one prefix, with `k` bits of suffix.
abbrev pub IsPrefixRange : Ipv4Range → Type 0
IsPrefixRange r = (k : ℕ) × (k ≤ 32) × (r.min / 2 ^ k ≡ r.max / 2 ^ k) × SuffixBits k r.min r.max

-- A range with 32-bit ends is refused exactly when it is the range of a prefix.
pub check_encoding4_iff :
    (r : Ipv4Range)
    → r.min < 2 ^ 32
    → r.max < 2 ^ 32
    → (check_encoding4 r ≡ err einval) ↔ IsPrefixRange r
unfolding check_encoding4
check_encoding4_iff r hlo hhi =
    let lo = r.min in
    let hi = r.max in
    let m = skip_equal_bits 32 lo hi in
    let same = skip_equal_bits-same 32 lo hi (omega arith) in
    (
      (λ h. (m, same.0, same.1, (only_suffix_bits_iff m lo hi).0 (reject-eq-err _ _ h))),
      λ p.
          let (k, le, top, s) = p in
          let stop : skip_equal_bits 32 lo hi ≡ k =
            let e : 32 ≡ (32 - k) + k = omega arith in
            ap (λ n. skip_equal_bits n lo hi) e ∙ skip_equal_bits-prefix (32 - k) k lo hi top s in
          rw (stop, (only_suffix_bits_iff k lo hi).1 s) refl,
    )
