-- ===== src/Resource/Ip4/Prefixes.antt =====
-- The range of an IPv4 prefix, in ip4.c and in address.c.
use Prim.Native.Nat.{bit_and}
use fort_validator.Base.{
  ℕ, zero, suc, ◌+◌, ◌-◌, ◌*◌, ◌/◌, ◌^◌, ◌≤◌, ◌<◌, ◌≡◌, ◌↔◌, ap, sym, ◌∙◌, true, arith,
}
use native.Mathlib.Nat.{
  div-add-mod, le-div_iff_mul-le, div-lt_iff_lt-mul, mod-eq_of_lt, eq_of_mul-eq-mul_left,
}
use fort_validator.Base.Bits.{two_pow_pos, two_pow-add, bit_and-high_ones}
use fort_validator.Range.{InNode, r4_cmp}
use fort_validator.Range.Order.{IsRangeCmp, asn_cmp-Verdict, r4_cmp-eq-asn_cmp}
use fort_validator.Address.{Ipv4Prefix, u32_suffix_mask, not32, ipv4_covered}
use fort_validator.Address.Masks.{u32_suffix_mask-eq-ones, or-u32_suffix_mask}
use fort_validator.Address.Decode.{IsPrefix4}
use fort_validator.Resource.Ip4.{pton}

-- The callback of ip4.c compares ranges.
pub r4_cmp-IsRangeCmp : IsRangeCmp r4_cmp (λ n. n)
r4_cmp-IsRangeCmp = record { verdict = λ a b. rw r4_cmp-eq-asn_cmp (asn_cmp-Verdict a b) }

-- The range of a prefix without suffix bits holds exactly the addresses that agree with it up to
-- its length.
pub pton-InNode :
    (p : Ipv4Prefix) (a : ℕ)
    → IsPrefix4 p
    → InNode a (pton p) ↔ (a / 2 ^ (32 - p.len) ≡ p.addr / 2 ^ (32 - p.len))
unfolding pton
pton-InNode p a v =
    let k = 32 - p.len in
    let q = p.addr / 2 ^ k in
    let pos = two_pow_pos k in
    let top = or-u32_suffix_mask p.len p.addr v.len_in in
    let split = div-add-mod p.addr (2 ^ k) in
    let lower = le-div_iff_mul-le {k = 2 ^ k} {x = q} {y = a} pos in
    let upper = div-lt_iff_lt-mul {k = 2 ^ k} {x = a} {y = suc q} pos in
    (
      (λ h. omega (
        arith,
        v.no_suffix,
        lower.1 (omega (arith, v.no_suffix)),
        upper.1 (omega (arith, v.no_suffix)),
      )),
      λ e. (
        omega (arith, v.no_suffix, lower.0 (omega arith)),
        omega (arith, v.no_suffix, upper.0 (omega arith)),
      ),
    )

mul-pred : (x y : ℕ) → x * (y - 1) ≡ x * y - x
mul-pred x zero = omega arith
mul-pred x (suc y) = let e : suc y - 1 ≡ y = omega arith in rw e (omega arith)

-- `a & ~mask` clears the suffix of an address.
and-not32-suffix :
    (len a : ℕ)
    → len ≤ 32
    → a < 2 ^ 32
    → bit_and a (not32 (u32_suffix_mask len)) ≡ 2 ^ (32 - len) * (a / 2 ^ (32 - len))
and-not32-suffix len a le lt =
    let k = 32 - len in
    let pos = two_pow_pos k in
    let sum : k + len ≡ 32 = omega arith in
    let whole : 2 ^ 32 ≡ 2 ^ k * 2 ^ len = ap (λ n. 2 ^ n) (sym sum) ∙ two_pow-add k len in
    let small : a / 2 ^ k < 2 ^ len =
      (div-lt_iff_lt-mul {k = 2 ^ k} {x = a} {y = 2 ^ len} pos).1 (omega arith) in
    let mask : not32 (u32_suffix_mask len) ≡ 2 ^ k * (2 ^ len - 1) =
      omega (arith, u32_suffix_mask-eq-ones len le, mul-pred (2 ^ k) (2 ^ len)) in
    rw mask (bit_and-high_ones len k a ∙ ap (λ q. 2 ^ k * q) (mod-eq_of_lt small))

-- For a prefix without suffix bits and a 32-bit address, ipv4_covered() says whether the address
-- lies in the range of the prefix.
pub ipv4_covered-iff-InNode :
    (p : Ipv4Prefix) (a : ℕ)
    → IsPrefix4 p
    → a < 2 ^ 32
    → (ipv4_covered p.addr p.len a ≡ true) ↔ InNode a (pton p)
unfolding ipv4_covered
ipv4_covered-iff-InNode p a v lt =
    let k = 32 - p.len in
    let pos = two_pow_pos k in
    let m = and-not32-suffix p.len a v.len_in lt in
    let split = div-add-mod p.addr (2 ^ k) in
    let q = p.addr / 2 ^ k in
    let inside = pton-InNode p a v in
    (
      (λ h.
          let same : 2 ^ k * (a / 2 ^ k) ≡ 2 ^ k * q = ground (arith, v.no_suffix) in
          inside.1 (eq_of_mul-eq-mul_left (2 ^ k) pos (a / 2 ^ k) q same)),
      λ h. let e = ap (λ x. 2 ^ k * x) (inside.0 h) in ground (arith, v.no_suffix),
    )
