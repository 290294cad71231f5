-- ===== src/Resource/Inherit/Subset.antt =====
-- The resources that src/resource.c gives a certificate, compared with those of its parent.
use fort_validator.Base.{
  ℕ, suc, ◌-◌, ◌^◌, ◌≤◌, ◌<◌, ◌≡◌, refl, sym, ap, ◌∙◌, ◌⊎◌, inl, inr, Bool, true, false, not,
  Option, none, some, arith, subst,
}
use native.Mathlib.Nat.{div-add-mod, mod-lt, mod-eq_of_lt}
use fort_validator.Base.Bits.{two_pow_pos}
use fort_validator.Base.Results.{Result, ok, err, crit, reject, einval}
use fort_validator.Base.Memory.{Memory, Alloc, lift, lift-eq-ok, >>=-eq-ok, ◌>>=◌, ◌>>◌, pure}
use fort_validator.SortedArray.{sarray_create, sarray_contains}
use fort_validator.Range.{Node, asn_cmp, r4_cmp}
use fort_validator.Address.{BitString, AddressRange, Ipv4Prefix, prefix4_decode, range4_decode}
use fort_validator.Address.Masks.{or-u32_suffix_mask}
use fort_validator.Address.Decode.{AreBytes, IsPrefix4, prefix4_decode-IsPrefix4, range4_decode_ok}
use fort_validator.Address.Ipv6.{Ipv6Prefix, Ipv6Range, prefix6_decode, range6_decode}
use fort_validator.Address.Ipv6.Decode.{IsPrefix6, prefix6_decode-IsPrefix6}
use fort_validator.Address.Ipv6.Limits.{suffix-bounds, range6_decode_ok}
use fort_validator.Resource.Ip4.{
  pton, rton, res4_create, res4_add_prefix, res4_add_range, res4_contains_prefix,
  res4_contains_range,
}
use fort_validator.Resource.Ip4.Prefixes.{r4_cmp-IsRangeCmp}
use fort_validator.Resource.Ip6.{
  ptor, r6_cmp, res6_create, res6_add_prefix, res6_add_range, res6_contains_prefix,
  res6_contains_range,
}
use fort_validator.Resource.Ip6.Order.{node6, r6_cmp-IsRangeCmp}
use fort_validator.Resource.Slots.{
  Policy, rfc6484, rfc8360, Slot, inherits, Resources, array_of, overclaims, claim,
}
use fort_validator.Resource.Slots.Claims.{HasRoom, IsWithin, IsWithin-weaken, add_to_slot-IsWithin}
use fort_validator.Resource.Inherit.{add_prefix4, add_prefix6, add_range4, add_range6}

abbrev pub range_of : Node → Node
range_of n = n

-- The parent's slots are valid, and have room for `n` elements.
pub record HaveRoom (n : ℕ) (r : Resources) : Type 0 where
  pub ip4s : HasRoom r4_cmp range_of n r.ip4s
  pub ip6s : HasRoom r6_cmp node6 n r.ip6s
  pub asns : HasRoom asn_cmp range_of n r.asns

-- Each slot of the child is valid, has room for `n` elements, and is within the parent's slot.
pub record AreWithin (n : ℕ) (parent child : Resources) : Type 0 where
  pub ip4s : IsWithin r4_cmp range_of n parent.ip4s child.ip4s
  pub ip6s : IsWithin r6_cmp node6 n parent.ip6s child.ip6s
  pub asns : IsWithin asn_cmp range_of n parent.asns child.asns

pub AreWithin-weaken : (n k : ℕ) (p c : Resources) → k ≤ n → AreWithin n p c → AreWithin k p c
AreWithin-weaken n k p c h w = record {
  ip4s = IsWithin-weaken r4_cmp range_of n k p.ip4s c.ip4s h w.ip4s;
  ip6s = IsWithin-weaken r6_cmp node6 n k p.ip6s c.ip6s h w.ip6s;
  asns = IsWithin-weaken asn_cmp range_of n k p.asns c.asns h w.asns;
}

-- A resource is added only if it does not overclaim; else the resources stay as they are.
claim-cases :
    (policy : Policy) (over : Bool) (r : Resources) (add : Alloc Resources) (m m' : Memory)
    {r' : Resources}
    → claim policy over r add m ≡ ok (r', m')
    → ((over ≡ false) × (add m ≡ ok (r', m'))) ⊎ (r ≡ r')
unfolding claim
claim-cases policy false r add m m' h = inl (refl, h)
claim-cases rfc6484 true r add m m' h = cc
claim-cases rfc8360 true r add m m' {r'} h = inr cc

not_over :
    (contains : Resources → Option Bool) (parent : Resources)
    → overclaims contains (some parent) ≡ ok false
    → contains parent ≡ some true
unfolding overclaims
not_over contains parent h = go (contains parent) h
  where
    go :
        (o : Option Bool)
        → (elim o as (λ _. Result Bool) [ none ↦ crit | some b ↦ ok (not b) ]) ≡ ok false
        → o ≡ some true
    go none h = cc
    go (some true) h = refl
    go (some false) h = cc

pton-order : (p : Ipv4Prefix) → IsPrefix4 p → (pton p).min ≤ (pton p).max
unfolding pton
pton-order p v =
    let k = 32 - p.len in
    let pos = two_pow_pos k in
    let top = or-u32_suffix_mask p.len p.addr v.len_in in
    omega (arith, div-add-mod p.addr (2 ^ k), mod-lt p.addr pos)

ptor-order : (p : Ipv6Prefix) → IsPrefix6 p → (node6 (ptor p)).min ≤ (node6 (ptor p)).max
unfolding ptor
ptor-order p v =
    let b = suffix-bounds p v in
    omega (
      arith,
      b.0,
      mod-eq_of_lt {n = p.addr} {m = 2 ^ 128} v.addr_in,
      mod-eq_of_lt {n = (ptor p).max} {m = 2 ^ 128} b.1,
    )

-- A guard and a decoder that let the addition go on.
pub decoded :
    {D : Type 0} (b : Bool) (decode : Result D) (next : D → Alloc Resources) (m : Memory)
    {out : Resources × Memory}
    → (lift (reject b einval) >> (lift decode >>= next)) m ≡ ok out
    → (d : D) × (decode ≡ ok d) × (next d m ≡ ok out)
decoded true decode next m h = cc
decoded false crit next m h = cc
decoded false (err e) next m h = cc
decoded false (ok d) next m h = (d, refl, h)

-- The end of an addition: either the parent holds the resource, and it is added, or nothing
-- changes.
pub claimed :
    {S : Type 0} (contains : Resources → Option Bool) (parent : Resources) (policy : Policy)
    (r : Resources) (add : Alloc S) (put : S → Resources) (m m' : Memory) {r' : Resources}
    → (lift (overclaims contains (some parent)) >>= λ over.
          claim policy over r (add >>= λ s. pure (put s)))
        m
      ≡ ok (r', m')
    → ((contains parent ≡ some true)
        × (s : S) × (m1 : Memory) × (m2 : Memory) × (add m1 ≡ ok (s, m2))
        × (put s ≡ r'))
      ⊎ (r ≡ r')
claimed contains parent policy r add put m m' {r'} h =
    let (over, m1, h1, h2) = >>=-eq-ok (lift (overclaims contains (some parent))) _ m h in
    elim (claim-cases policy over r _ m1 m' {r' = r'} h2) [
      | inr same ↦ inr same
      | inl (fits, h3) ↦
          let (s, m2, h4, h5) = >>=-eq-ok add _ m1 h3 in
          let held = lift-eq-ok (overclaims contains (some parent)) m h1 in
          inl (not_over contains parent (held ∙ ap ok fits), s, m1, m2, h4, cc)
    ]

contains_prefix4 :
    (o : Option (Slot Node)) (p : Ipv4Prefix)
    → res4_contains_prefix (array_of o) p ≡ sarray_contains r4_cmp (array_of o) (pton p)
unfolding res4_contains_prefix sarray_contains
contains_prefix4 none p = refl
contains_prefix4 (some slot) p = refl

node6-order :
    (r : Ipv6Range) {T : Type 0}
    → (r.min ≤ r.max) × (r.max < 2 ^ 128) × T
    → (node6 r).min ≤ (node6 r).max
node6-order r h = omega (
  arith,
  h.0,
  mod-eq_of_lt {n = r.min} {m = 2 ^ 128} (omega (arith, h.0, h.1)),
  mod-eq_of_lt {n = r.max} {m = 2 ^ 128} h.1,
)

module _ (n : ℕ) (parent : Resources) (hp : HaveRoom 0 parent) (hn : suc n ≤ 2 ^ 31) where
  -- The child after nothing was added to it, and after one slot was replaced.
  pub unchanged : (r r' : Resources) → AreWithin (suc n) parent r → r ≡ r' → AreWithin n parent r'
  unchanged r r' w same =
      subst (AreWithin n parent) same (AreWithin-weaken (suc n) n parent r (omega arith) w)

  with_ip4s :
      (r : Resources) {c : Option (Slot Node)} {r' : Resources}
      → AreWithin (suc n) parent r
      → IsWithin r4_cmp range_of n parent.ip4s c
      → record r { ip4s = c } ≡ r'
      → AreWithin n parent r'
  with_ip4s r {c} w e same =
      let u = AreWithin-weaken (suc n) n parent r (omega arith) w in
      subst (AreWithin n parent) same (record { ip4s = e; ip6s = u.ip6s; asns = u.asns })

  with_ip6s :
      (r : Resources) {c : Option (Slot Ipv6Range)} {r' : Resources}
      → AreWithin (suc n) parent r
      → IsWithin r6_cmp node6 n parent.ip6s c
      → record r { ip6s = c } ≡ r'
      → AreWithin n parent r'
  with_ip6s r {c} w e same =
      let u = AreWithin-weaken (suc n) n parent r (omega arith) w in
      subst (AreWithin n parent) same (record { ip4s = u.ip4s; ip6s = e; asns = u.asns })

  pub with_asns :
      (r : Resources) {c : Option (Slot Node)} {r' : Resources}
      → AreWithin (suc n) parent r
      → IsWithin asn_cmp range_of n parent.asns c
      → record r { asns = c } ≡ r'
      → AreWithin n parent r'
  with_asns r {c} w e same =
      let u = AreWithin-weaken (suc n) n parent r (omega arith) w in
      subst (AreWithin n parent) same (record { ip4s = u.ip4s; ip6s = u.ip6s; asns = e })

  pub add_prefix4-AreWithin :
      (addr : BitString) (r : Resources) (m m' : Memory) {r' : Resources}
      → AreBytes addr.buf
      → AreWithin (suc n) parent r
      → add_prefix4 (some parent) addr r m ≡ ok (r', m')
      → AreWithin n parent r'
  unfolding add_prefix4 res4_create res4_add_prefix sarray_create pton
  add_prefix4-AreWithin addr r m m' {r'} bytes w h =
      let (x, d, h1) =
        decoded (inherits (λ r. r.ip4s) (some parent) r) (prefix4_decode addr) _ m h in
      let v = pton-order x (prefix4_decode-IsPrefix4 addr {p = x} bytes d).0 in
      elim (claimed _ parent r.policy r _ (λ s. record r { ip4s = s }) m m' {r' = r'} h1) [
        | inr same ↦ unchanged r r' w same
        | inl (held, c, m1, m2, a, same) ↦
            let e =
              add_to_slot-IsWithin r4_cmp range_of r4_cmp-IsRangeCmp 0 n parent.ip4s r.ip4s (pton x)
                m1 m2 {c' = c} v hp.ip4s w.ip4s hn (sym (contains_prefix4 parent.ip4s x) ∙ held)
                a in
            with_ip4s r {c = c} {r' = r'} w e same
      ]

  pub add_prefix6-AreWithin :
      (addr : BitString) (r : Resources) (m m' : Memory) {r' : Resources}
      → AreBytes addr.buf
      → AreWithin (suc n) parent r
      → add_prefix6 (some parent) addr r m ≡ ok (r', m')
      → AreWithin n parent r'
  unfolding add_prefix6 res6_create res6_add_prefix res6_contains_prefix sarray_create
  add_prefix6-AreWithin addr r m m' {r'} bytes w h =
      let (x, d, h1) =
        decoded (inherits (λ r. r.ip6s) (some parent) r) (prefix6_decode addr) _ m h in
      let v = ptor-order x (prefix6_decode-IsPrefix6 addr {p = x} bytes d).0 in
      elim (claimed _ parent r.policy r _ (λ s. record r { ip6s = s }) m m' {r' = r'} h1) [
        | inr same ↦ unchanged r r' w same
        | inl (held, c, m1, m2, a, same) ↦
            let e =
              add_to_slot-IsWithin r6_cmp node6 r6_cmp-IsRangeCmp 0 n parent.ip6s r.ip6s (ptor x) m1
                m2 {c' = c} v hp.ip6s w.ip6s hn held a in
            with_ip6s r {c = c} {r' = r'} w e same
      ]

  pub add_range4-AreWithin :
      (input : AddressRange) (r : Resources) (m m' : Memory) {r' : Resources}
      → AreBytes input.min.buf × AreBytes input.max.buf
      → AreWithin (suc n) parent r
      → add_range4 (some parent) input r m ≡ ok (r', m')
      → AreWithin n parent r'
  unfolding add_range4 res4_create res4_add_range res4_contains_range sarray_create rton
  add_range4-AreWithin input r m m' {r'} bytes w h =
      let (x, d, h1) =
        decoded (inherits (λ r. r.ip4s) (some parent) r) (range4_decode input) _ m h in
      let v = (range4_decode_ok input {r = x} bytes.0 bytes.1 d).0 in
      elim (claimed _ parent r.policy r _ (λ s. record r { ip4s = s }) m m' {r' = r'} h1) [
        | inr same ↦ unchanged r r' w same
        | inl (held, c, m1, m2, a, same) ↦
            let e =
              add_to_slot-IsWithin r4_cmp range_of r4_cmp-IsRangeCmp 0 n parent.ip4s r.ip4s (rton x)
                m1 m2 {c' = c} v hp.ip4s w.ip4s hn held a in
            with_ip4s r {c = c} {r' = r'} w e same
      ]

  pub add_range6-AreWithin :
      (input : AddressRange) (r : Resources) (m m' : Memory) {r' : Resources}
      → AreBytes input.min.buf × AreBytes input.max.buf
      → AreWithin (suc n) parent r
      → add_range6 (some parent) input r m ≡ ok (r', m')
      → AreWithin n parent r'
  unfolding add_range6 res6_create res6_add_range res6_contains_range sarray_create
  add_range6-AreWithin input r m m' {r'} bytes w h =
      let (x, d, h1) =
        decoded (inherits (λ r. r.ip6s) (some parent) r) (range6_decode input) _ m h in
      let v = node6-order x (range6_decode_ok input {r = x} bytes.0 bytes.1 d) in
      elim (claimed _ parent r.policy r _ (λ s. record r { ip6s = s }) m m' {r' = r'} h1) [
        | inr same ↦ unchanged r r' w same
        | inl (held, c, m1, m2, a, same) ↦
            let e =
              add_to_slot-IsWithin r6_cmp node6 r6_cmp-IsRangeCmp 0 n parent.ip6s r.ip6s x m1 m2
                {c' = c} v hp.ip6s w.ip6s hn held a in
            with_ip6s r {c = c} {r' = r'} w e same
      ]
