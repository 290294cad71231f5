-- ===== src/Address/Ipv6/Encoding.antt =====
-- check_encoding6() of address.c, as one pass over 128 bits.
use Prim.Native.Nat.{bit_and}
use fort_validator.Base.{
  ℕ, zero, suc, ◌+◌, ◌-◌, ◌*◌, ◌/◌, ◌%◌, ◌^◌, ◌≤◌, ◌<◌, ◌≡◌, ◌↔◌, refl, sym, ap, ◌∙◌, Bool, true,
  false, not, ◌&&◌, ◌||◌, ◌==◌, arith, inl, inr,
}
use native.Mathlib.Nat.{mod-lt, div-div-eq-div-mul, mul-add-mod_self_left}
use fort_validator.Base.Bits.{two_pow_pos, two_pow_suc, two_pow-add}
use fort_validator.Base.Results.{err, einval, reject-eq-err}
use fort_validator.Address.{skip_equal_bits, only_suffix_bits}
use fort_validator.Address.Encoding.{
  SuffixBits, bit_and-clear, bit_and-set, bit-cases, only_suffix_bits_iff, skip_equal_bits-same,
  skip_equal_bits-prefix,
}
use fort_validator.Address.Ipv6.{Ipv6Range, only_suffix6, could_be_prefix, check_encoding6}
use fort_validator.Address.Ipv6.Bytes.{mod-product, div-shape}
use fort_validator.Address.Ipv6.Ranges.{quadrant, get_quadrant-eq}

-- A bit of a quadrant is a bit of the number.
quadrant_bit : (n m a : ℕ) → m < 32 → quadrant n a / 2 ^ m % 2 ≡ a / 2 ^ (32 * n + m) % 2
quadrant_bit n m a h =
    let x = a / 2 ^ (32 * n) in
    let d = 2 ^ m in
    let w = 2 ^ (31 - m) in
    let whole : 2 ^ 32 ≡ d * (2 * w) =
      ap (λ i. 2 ^ i) {x = 32} {y = m + suc (31 - m)} (omega arith)
      ∙ two_pow-add m (suc (31 - m))
      ∙ ap (λ z. d * z) (two_pow_suc (31 - m)) in
    let pos = two_pow_pos m in
    let wide : 0 < 2 * w = omega (arith, two_pow_pos (31 - m)) in
    let shape = mod-product d (2 * w) x pos wide in
    let deep : x / d ≡ a / 2 ^ (32 * n + m) =
      div-div-eq-div-mul a (2 ^ (32 * n)) d ∙ ap (λ z. a / z) (sym (two_pow-add (32 * n) m)) in
    rw whole (
      ap (λ z. z / d % 2) shape
      ∙ ap (λ z. z % 2) (div-shape d (x / d % (2 * w)) (x % d) (mod-lt x pos))
      ∙ ap (λ z. z % 2) (mod-product 2 w (x / d) (omega arith) (two_pow_pos (31 - m)))
      ∙ mul-add-mod_self_left 2 (x / d / 2 % w) (x / d % 2)
      ∙ omega (arith, ap (λ z. z % 2) deep))

-- Bits that are equal answer a mask alike.
and_zero :
    (n m x y : ℕ)
    → x / 2 ^ n % 2 ≡ y / 2 ^ m % 2
    → (bit_and x (2 ^ n) == 0) ≡ (bit_and y (2 ^ m) == 0)
and_zero n m x y h = elim (bit-cases n x) [
  | inl c ↦ ground (arith, bit_and-clear n x c, bit_and-clear m y (sym h ∙ c))
  | inr s ↦
      ground (arith, bit_and-set n x s, bit_and-set m y (sym h ∙ s), two_pow_pos n, two_pow_pos m)
]

and_same :
    (n m x y v w : ℕ)
    → x / 2 ^ n % 2 ≡ y / 2 ^ m % 2
    → v / 2 ^ n % 2 ≡ w / 2 ^ m % 2
    → (bit_and x (2 ^ n) == bit_and v (2 ^ n)) ≡ (bit_and y (2 ^ m) == bit_and w (2 ^ m))
and_same n m x y v w h k = elim (bit-cases n x) [
  | inl c ↦ elim (bit-cases n v) [
    | inl d ↦ ground (
      arith,
      bit_and-clear n x c,
      bit_and-clear m y (sym h ∙ c),
      bit_and-clear n v d,
      bit_and-clear m w (sym k ∙ d),
    )
    | inr d ↦ ground (
      arith,
      bit_and-clear n x c,
      bit_and-clear m y (sym h ∙ c),
      bit_and-set n v d,
      bit_and-set m w (sym k ∙ d),
      two_pow_pos n,
      two_pow_pos m,
    )
  ]
  | inr c ↦ elim (bit-cases n v) [
    | inl d ↦ ground (
      arith,
      bit_and-set n x c,
      bit_and-set m y (sym h ∙ c),
      bit_and-clear n v d,
      bit_and-clear m w (sym k ∙ d),
      two_pow_pos n,
      two_pow_pos m,
    )
    | inr d ↦ ground (
      arith,
      bit_and-set n x c,
      bit_and-set m y (sym h ∙ c),
      bit_and-set n v d,
      bit_and-set m w (sym k ∙ d),
    )
  ]
]

suffix_step :
    (s s' x y z : Bool)
    → s ≡ s'
    → x ≡ (y && z)
    → (elim s as (λ _. Bool) [ true ↦ false | false ↦ x ])
      ≡ ((elim s' as (λ _. Bool) [ true ↦ false | false ↦ y ]) && z)
suffix_step true s' x y z e h = rw (← e) refl
suffix_step false s' x y z e h = rw (← e) h

only_suffix-join :
    (n m lo hi : ℕ)
    → m ≤ 32
    → only_suffix_bits (32 * n + m) lo hi
      ≡ (only_suffix_bits m (quadrant n lo) (quadrant n hi) && only_suffix_bits (32 * n) lo hi)
unfolding only_suffix_bits
only_suffix-join n zero lo hi h = ap (λ k. only_suffix_bits k lo hi) (omega arith)
only_suffix-join n (suc m) lo hi h =
    let e : 32 * n + suc m ≡ suc (32 * n + m) = omega arith in
    let l = and_zero m (32 * n + m) _ _ (quadrant_bit n m lo (omega arith)) in
    let r = and_zero m (32 * n + m) _ _ (quadrant_bit n m hi (omega arith)) in
    ap (λ k. only_suffix_bits k lo hi) e
    ∙ suffix_step _ _ _ _ (only_suffix_bits (32 * n) lo hi)
        (ap (λ b. not b || bit_and hi (2 ^ (32 * n + m)) == 0) (sym l)
          ∙ ap (λ b. not (bit_and (quadrant n lo) (2 ^ m) == 0) || b) (sym r))
        (only_suffix-join n m lo hi (omega arith))

only_suffix6-step :
    (n m lo hi : ℕ)
    → n < 4
    → m ≤ 32
    → only_suffix6 n 32 lo hi ≡ only_suffix_bits (32 * n) lo hi
    → only_suffix6 (suc n) m lo hi ≡ only_suffix_bits (32 * n + m) lo hi
unfolding only_suffix6
only_suffix6-step n m lo hi h k rest =
    rw (get_quadrant-eq n lo h, get_quadrant-eq n hi h)
      (ap (λ b. only_suffix_bits m (quadrant n lo) (quadrant n hi) && b) rest
        ∙ sym (only_suffix-join n m lo hi k))

-- __check_encoding6() is one loop over the bits.
only_suffix6-eq : (n lo hi : ℕ) → n ≤ 4 → only_suffix6 n 32 lo hi ≡ only_suffix_bits (32 * n) lo hi
unfolding only_suffix6 only_suffix_bits
only_suffix6-eq zero lo hi h = refl
only_suffix6-eq (suc n) lo hi h =
    only_suffix6-step n 32 lo hi (omega arith) (omega arith) (only_suffix6-eq n lo hi (omega arith))
    ∙ ap (λ k. only_suffix_bits k lo hi) (omega arith)

-- Where the quadrant is equal throughout, the search goes on below it.
abbrev stop : ℕ → ℕ → ℕ → ℕ → ℕ
stop n zero lo hi = skip_equal_bits (32 * n) lo hi
stop n (suc k) lo hi = 32 * n + suc k

skip_step :
    (n m lo hi : ℕ) (s s' : Bool) (x y : ℕ)
    → s ≡ s'
    → x ≡ stop n y lo hi
    → (elim s as (λ _. ℕ) [ true ↦ x | false ↦ suc (32 * n + m) ])
      ≡ stop n (elim s' as (λ _. ℕ) [ true ↦ y | false ↦ suc m ]) lo hi
skip_step n m lo hi true s' x y e h = rw (← e) h
skip_step n m lo hi false s' x y e h = rw (← e) (omega arith)

skip-join :
    (n m lo hi : ℕ)
    → m ≤ 32
    → skip_equal_bits (32 * n + m) lo hi
      ≡ stop n (skip_equal_bits m (quadrant n lo) (quadrant n hi)) lo hi
unfolding skip_equal_bits
skip-join n zero lo hi h = ap (λ k. skip_equal_bits k lo hi) (omega arith)
skip-join n (suc m) lo hi h =
    let e : 32 * n + suc m ≡ suc (32 * n + m) = omega arith in
    let l = quadrant_bit n m lo (omega arith) in
    let r = quadrant_bit n m hi (omega arith) in
    ap (λ k. skip_equal_bits k lo hi) e
    ∙ skip_step n m lo hi _ _ _ _ (sym (and_same m (32 * n + m) _ _ _ _ l r))
        (skip-join n m lo hi (omega arith))

skip_equal_bits-le : (m lo hi : ℕ) → skip_equal_bits m lo hi ≤ m
unfolding skip_equal_bits
skip_equal_bits-le zero lo hi = omega arith
skip_equal_bits-le (suc m) lo hi = ground (arith, skip_equal_bits-le m lo hi)

found_step :
    (n lo hi k : ℕ)
    → n < 4
    → k ≤ 32
    → could_be_prefix n lo hi ≡ only_suffix_bits (skip_equal_bits (32 * n) lo hi) lo hi
    → (elim k as (λ _. Bool) [
      | zero ↦ could_be_prefix n lo hi
      | suc m ↦ only_suffix6 (suc n) (suc m) lo hi
    ])
      ≡ only_suffix_bits (stop n k lo hi) lo hi
found_step n lo hi zero h le rest = rest
found_step n lo hi (suc k) h le rest =
    only_suffix6-step n (suc k) lo hi h le (only_suffix6-eq n lo hi (omega arith))

nothing_left : (lo hi : ℕ) → only_suffix_bits (skip_equal_bits 0 lo hi) lo hi ≡ true
unfolding only_suffix_bits skip_equal_bits
nothing_left lo hi = refl

-- check_encoding6() is check_encoding4() over 128 bits.
could_be_prefix-eq :
    (n lo hi : ℕ)
    → n ≤ 4
    → could_be_prefix n lo hi ≡ only_suffix_bits (skip_equal_bits (32 * n) lo hi) lo hi
unfolding could_be_prefix
could_be_prefix-eq zero lo hi h = sym (nothing_left lo hi)
could_be_prefix-eq (suc n) lo hi h =
    let e : 32 * suc n ≡ 32 * n + 32 = omega arith in
    let k = skip_equal_bits 32 (quadrant n lo) (quadrant n hi) in
    rw (get_quadrant-eq n lo (omega arith), get_quadrant-eq n hi (omega arith), could_be_prefix)
      (found_step n lo hi k (omega arith) (skip_equal_bits-le 32 (quadrant n lo) (quadrant n hi))
          (could_be_prefix-eq n lo hi (omega arith))
        ∙ ap (λ z. only_suffix_bits z lo hi)
            (sym (skip-join n 32 lo hi (omega arith)) ∙ ap (λ z. skip_equal_bits z lo hi) (sym e)))

-- The range holds exactly the addresses of one prefix, with `k` bits of suffix.
abbrev pub IsPrefixRange6 : Ipv6Range → Type 0
IsPrefixRange6 r = (k : ℕ) × (k ≤ 128) × (r.min / 2 ^ k ≡ r.max / 2 ^ k) × SuffixBits k r.min r.max

-- An IPv6 range whose ends have 128 bits is refused exactly when it is the range of a prefix.
pub check_encoding6_iff :
    (r : Ipv6Range)
    → r.min < 2 ^ 128
    → r.max < 2 ^ 128
    → (check_encoding6 r ≡ err einval) ↔ IsPrefixRange6 r
unfolding check_encoding6
check_encoding6_iff r hlo hhi =
    let lo = r.min in
    let hi = r.max in
    let m = skip_equal_bits 128 lo hi in
    let same = skip_equal_bits-same 128 lo hi (omega arith) in
    let e = could_be_prefix-eq 4 lo hi (omega arith) in
    (
      (λ h. (m, same.0, same.1, (only_suffix_bits_iff m lo hi).0 (sym e ∙ reject-eq-err _ _ h))),
      λ p.
          let (k, le, top, s) = p in
          let at : skip_equal_bits 128 lo hi ≡ k =
            ap (λ n. skip_equal_bits n lo hi) {x = 128} {y = (128 - k) + k} (omega arith)
            ∙ skip_equal_bits-prefix (128 - k) k lo hi top s in
          rw (e, at, (only_suffix_bits_iff k lo hi).1 s) refl,
    )
