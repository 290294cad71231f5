-- ===== src/Address/Ipv6/Limits.antt =====
-- What the IPv6 range decoder of address.c accepts, and what its prefixes cover.
use Prim.Native.Nat.{bit_and}
use fort_validator.Base.{
  ℕ, zero, suc, ◌+◌, ◌-◌, ◌*◌, ◌/◌, ◌%◌, ◌^◌, ◌≤◌, ◌<◌, ◌≡◌, ◌↔◌, refl, sym, ap, ◌∙◌, subst, true,
  arith,
}
use native.Mathlib.Nat.{
  div-add-mod, mod-lt, mul-sub, mul-le-mul_left, mod-eq_of_lt, div-lt_iff_lt-mul,
  eq_of_mul-eq-mul_left,
}
use fort_validator.Base.Bits.{
  two_pow_pos, two_pow-add, multiple-room, bit_and-high_ones, bit_and_split, bit_and-lt,
}
use fort_validator.Base.Results.{ok, >>=-eq-ok}
use fort_validator.Address.{AddressRange}
use fort_validator.Address.Decode.{AreBytes}
use fort_validator.Address.Ipv6.{
  Ipv6Prefix, Ipv6Range, byte, ipv6_suffix_mask, check_order6, check_encoding6, range6_of,
  prefix6_decode, range6_decode, covered_bytes, ipv6_covered,
}
use fort_validator.Address.Ipv6.Bytes.{
  div-shape, mod-shape, mod-byte, byte-lt, pow256_pos, pow256_suc,
}
use fort_validator.Address.Ipv6.Suffix.{ipv6_suffix_mask-eq}
use fort_validator.Address.Ipv6.Ranges.{inverted_quadrants-eq-ltb}
use fort_validator.Address.Ipv6.Encoding.{IsPrefixRange6, check_encoding6_iff}
use fort_validator.Address.Ipv6.Decode.{
  IsPrefix6, small_power, mask_alone, pow256-two_pow, prefix6_decode-IsPrefix6,
}

-- The upper end of a prefix lies at or above its address, and has 128 bits.
pub suffix-bounds :
    (p : Ipv6Prefix)
    → IsPrefix6 p
    → (p.addr ≤ ipv6_suffix_mask p.len p.addr) × (ipv6_suffix_mask p.len p.addr < 2 ^ 128)
suffix-bounds p v =
    let k = 128 - p.len in
    let pos = two_pow_pos k in
    let e = ipv6_suffix_mask-eq p.len p.addr v.len_in in
    let split = div-add-mod p.addr (2 ^ k) in
    let whole : 2 ^ 128 ≡ 2 ^ k * 2 ^ p.len =
      ap (λ n. 2 ^ n) {x = 128} {y = k + p.len} (omega (arith, v.len_in)) ∙ two_pow-add k p.len in
    let q = p.addr / 2 ^ k in
    let zeros = v.no_suffix in
    let room = multiple-room (2 ^ k) q (2 ^ p.len) (omega (arith, v.addr_in)) in
    (omega arith, omega arith)

range6_of_ok :
    (lo hi : Ipv6Prefix) {r : Ipv6Range}
    → IsPrefix6 lo
    → IsPrefix6 hi
    → range6_of lo hi ≡ ok r
    → (r.min ≤ r.max) × (r.max < 2 ^ 128) × ¬ (IsPrefixRange6 r)
unfolding range6_of check_order6
range6_of_ok lo hi {r} vlo vhi h =
    let got : Ipv6Range = record { min = lo.addr; max = ipv6_suffix_mask hi.len hi.addr } in
    let b = (suffix-bounds hi vhi).1 in
    let turned = inverted_quadrants-eq-ltb 4 got.min got.max (omega arith) in
    let lo_in = mod-eq_of_lt {n = got.min} {m = 2 ^ 128} vlo.addr_in in
    let hi_in = mod-eq_of_lt {n = got.max} {m = 2 ^ 128} b in
    let order : got.min ≤ got.max = ground arith in
    let same : got ≡ r = ground arith in
    let enc : check_encoding6 got ≡ ok tt = ground arith in
    subst (λ (r : Ipv6Range). (r.min ≤ r.max) × (r.max < 2 ^ 128) × ¬ (IsPrefixRange6 r)) same
      (order, b, λ p. cc (enc, (check_encoding6_iff got vlo.addr_in b).1 p))

-- An IPv6 range that is decoded from bytes is in order, has 128-bit ends, and is not the range of a
-- prefix.
pub range6_decode_ok :
    (input : AddressRange) {r : Ipv6Range}
    → AreBytes input.min.buf
    → AreBytes input.max.buf
    → range6_decode input ≡ ok r
    → (r.min ≤ r.max) × (r.max < 2 ^ 128) × ¬ (IsPrefixRange6 r)
unfolding range6_decode
range6_decode_ok input {r} bmin bmax h =
    let (lo, hlo, h1) = >>=-eq-ok (prefix6_decode input.min) _ h in
    let (hi, hhi, h2) = >>=-eq-ok (prefix6_decode input.max) _ h1 in
    range6_of_ok lo hi (prefix6_decode-IsPrefix6 input.min {p = lo} bmin hlo).0
      (prefix6_decode-IsPrefix6 input.max {p = hi} bmax hhi).0 h2

-- Numbers are equal when their parts are.
parts_equal : (p x y r s : ℕ) → r < p → s < p → (p * x + r ≡ p * y + s) ↔ ((x ≡ y) × (r ≡ s))
parts_equal p x y r s hr hs = (
  (λ h.
      let e = ap (λ z. z / p) h in
      let same : x ≡ y = sym (div-shape p x r hr) ∙ e ∙ div-shape p y s hs in
      (same, omega (arith, ap (λ z. p * z) same))),
  λ h. omega (arith, ap (λ z. p * z) h.0),
)

-- The numbers' bits that a mask of `n` bytes leaves out.
abbrev outside : ℕ → ℕ → ℕ
outside n s = 256 ^ n - 1 - s % 256 ^ n

outside-byte : (n s : ℕ) → outside (suc n) s ≡ 256 ^ n * (0xFF - byte s n) + outside n s
outside-byte n s =
    let p = 256 ^ n in
    let b = byte s n in
    let lt = byte-lt s n in
    let r = mod-lt s (pow256_pos n) in
    let back : p * (0xFF - b) ≡ p * 0xFF - p * b = mul-sub p 0xFF b in
    let top : p * b ≤ p * 255 = mul-le-mul_left {m = b} {n = 255} p (omega arith) in
    omega (arith, mod-byte n s, pow256_suc n)

and_parts :
    (n x y r s : ℕ)
    → r < 256 ^ n
    → s < 256 ^ n
    → bit_and (256 ^ n * x + r) (256 ^ n * y + s) ≡ 256 ^ n * bit_and x y + bit_and r s
and_parts n x y r s hr hs =
    let p = 256 ^ n in
    let b : bit_and (p * x + r) (p * y + s)
        ≡ bit_and ((p * x + r) / p) ((p * y + s) / p) * p
          + bit_and ((p * x + r) % p) ((p * y + s) % p) =
      rw (pow256-two_pow n) (bit_and_split (8 * n) _ _) in
    b
    ∙ rw (div-shape p x r hr, div-shape p y s hs, mod-shape p x r hr, mod-shape p y s hs)
        (omega arith)

covered_bytes_iff :
    (n f s son : ℕ)
    → (covered_bytes n f s son ≡ true) ↔ (bit_and (son % 256 ^ n) (outside n s) ≡ f % 256 ^ n)
unfolding covered_bytes
covered_bytes_iff zero f s son =
    let e : son % 256 ^ 0 ≡ 0 = omega arith in
    let z : outside 0 s ≡ 0 = omega arith in
    let fz : f % 256 ^ 0 ≡ 0 = omega arith in rw (e, z, fz) ((λ _. refl), λ _. refl)
covered_bytes_iff (suc n) f s son =
    let p = 256 ^ n in
    let r = son % p in
    let pos = pow256_pos n in
    let lr = mod-lt son pos in
    let t = bit_and r (outside n s) in
    let lt : t < p = rw (pow256-two_pow n) (bit_and-lt (8 * n) _ _ (rw (← pow256-two_pow n) lr)) in
    let joined =
      and_parts n (byte son n) (0xFF - byte s n) r (outside n s) lr (omega (arith, pos)) in
    let c =
      parts_equal p (bit_and (byte son n) (0xFF - byte s n)) (byte f n) t (f % p) lt
        (mod-lt f pos) in
    let rest = covered_bytes_iff n f s son in
    rw (mod-byte n son, mod-byte n f, outside-byte n s, joined)
      (
        (λ h. c.1 (ground arith, rest.0 (ground arith))),
        λ e. let both = c.0 e in let low = rest.1 both.1 in ground arith,
      )

-- For a prefix without suffix bits and a 128-bit address, ipv6_covered() says whether the address
-- agrees with the prefix up to its length.
pub ipv6_covered_iff :
    (p : Ipv6Prefix) (a : ℕ)
    → IsPrefix6 p
    → a < 2 ^ 128
    → (ipv6_covered p.addr p.len a ≡ true) ↔ (a / 2 ^ (128 - p.len) ≡ p.addr / 2 ^ (128 - p.len))
unfolding ipv6_covered
ipv6_covered_iff p a v lt =
    let k = 128 - p.len in
    let q = p.addr / 2 ^ k in
    let pos = two_pow_pos k in
    let c = covered_bytes_iff 16 p.addr (2 ^ k - 1) a in
    let split = div-add-mod p.addr (2 ^ k) in
    let whole : 2 ^ 128 ≡ 2 ^ k * 2 ^ p.len =
      ap (λ n. 2 ^ n) {x = 128} {y = k + p.len} (omega (arith, v.len_in)) ∙ two_pow-add k p.len in
    let room = small_power k (omega arith) in
    let mask : outside 16 (2 ^ k - 1) ≡ 2 ^ k * (2 ^ p.len - 1) = omega (
      arith,
      mul-sub (2 ^ k) (2 ^ p.len) 1,
      mod-eq_of_lt {n = 2 ^ k - 1} {m = 2 ^ 128} (omega arith),
    ) in
    let small : a / 2 ^ k < 2 ^ p.len =
      (div-lt_iff_lt-mul {k = 2 ^ k} {x = a} {y = 2 ^ p.len} pos).1 (omega arith) in
    let ea = mod-eq_of_lt {n = a} {m = 2 ^ 128} lt in
    let ep = mod-eq_of_lt {n = p.addr} {m = 2 ^ 128} v.addr_in in
    let kept : bit_and (a % 2 ^ 128) (outside 16 (2 ^ k - 1)) ≡ 2 ^ k * (a / 2 ^ k) =
      rw (ea, mask)
        (bit_and-high_ones p.len k a ∙ ap (λ z. 2 ^ k * z) (mod-eq_of_lt {n = a / 2 ^ k} small)) in
    rw (mask_alone p.len v.len_in) (
      (λ h.
          eq_of_mul-eq-mul_left (2 ^ k) pos (a / 2 ^ k) q
            (omega (arith, sym kept ∙ c.0 h ∙ ep, v.no_suffix))),
      λ e. c.1 (kept ∙ omega (arith, ap (λ z. 2 ^ k * z) e, v.no_suffix, ep)),
    )
