-- ===== src/Resource/Ip6/Order.antt =====
-- The order of IPv6 addresses in ip6.c is that of the numbers that their bytes stand for.
use Prim.Native.Nat.{compare}
use fort_validator.Base.{
  ℕ, zero, suc, ◌+◌, ◌-◌, ◌*◌, ◌/◌, ◌%◌, ◌^◌, ◌<◌, ◌≡◌, ◌↔◌, refl, sym, ap, ◌∙◌, true, false, ◌&&◌,
  not, ◌==◌, ltb, leb, arith, inl, inr, Bool-cases,
}
use native.Mathlib.Nat.{mod-lt, mul-le-mul_left}
use native.Mathlib.Decide.{dec_lt, ℕ_discrete}
use mathlib.Core.Logic.{◌≢◌}
use fort_validator.Range.{Node, asn_cmp}
use fort_validator.Range.Order.{IsRangeCmp, asn_cmp-Verdict}
use fort_validator.Address.Ipv6.{Ipv6Range, byte, set_byte}
use fort_validator.Address.Ipv6.Bytes.{
  pow256_pos, pow256_suc, pow256_add, mod-byte, mod-product, mod-multiple, byte-multiple,
  set_byte-multiple,
}
use fort_validator.Resource.Ip6.{
  or_else, memcmp, addr_cmp, addr_equals, addr_le, addr_lt, increment, addr_is_successor, r6_cmp,
}

-- The range of numbers that a range of addresses stands for.
abbrev pub node6 : Ipv6Range → Node
node6 r = record { min = r.min % 2 ^ 128; max = r.max % 2 ^ 128 }

-- Numbers are compared by their high parts first.
mul_suc : (p x : ℕ) → p * suc x ≡ p * x + p
mul_suc p x = omega arith

compare_parts :
    (p x y r s : ℕ)
    → r < p
    → s < p
    → or_else (compare x y) (compare r s) ≡ compare (p * x + r) (p * y + s)
compare_parts p x y r s hr hs = elim (dec_lt x y) [
  | yes below ↦
      let room = mul-le-mul_left {m = suc x} {n = y} p below in ground (arith, mul_suc p x)
  | no up ↦ elim (dec_lt y x) [
    | yes above ↦
        let room = mul-le-mul_left {m = suc y} {n = x} p above in ground (arith, mul_suc p y)
    | no down ↦
        let same : x ≡ y = omega arith in
        let e : p * x ≡ p * y = ap (λ z. p * z) same in ground arith
  ]
]

memcmp-eq-compare : (n a b : ℕ) → memcmp n a b ≡ compare (a % 256 ^ n) (b % 256 ^ n)
unfolding memcmp
memcmp-eq-compare zero a b = ground arith
memcmp-eq-compare (suc n) a b =
    let p = 256 ^ n in
    let c =
      compare_parts p (byte a n) (byte b n) (a % p) (b % p) (mod-lt a (pow256_pos n))
        (mod-lt b (pow256_pos n)) in
    rw (mod-byte n a, mod-byte n b)
      (ap (or_else (compare (byte a n) (byte b n))) (memcmp-eq-compare n a b) ∙ c)

addr_cmp-eq-compare : (a b : ℕ) → addr_cmp a b ≡ compare (a % 2 ^ 128) (b % 2 ^ 128)
unfolding addr_cmp
addr_cmp-eq-compare a b = memcmp-eq-compare 16 a b

addr_equals_iff : (a b : ℕ) → addr_equals a b ≡ (a % 2 ^ 128 == b % 2 ^ 128)
unfolding addr_equals
addr_equals_iff a b = rw (addr_cmp-eq-compare a b, addr_equals) refl

addr_le-eq-leb : (a b : ℕ) → addr_le a b ≡ leb (a % 2 ^ 128) (b % 2 ^ 128)
unfolding addr_le
addr_le-eq-leb a b = rw (addr_cmp-eq-compare a b, addr_le) refl

addr_lt-eq-ltb : (a b : ℕ) → addr_lt a b ≡ ltb (a % 2 ^ 128) (b % 2 ^ 128)
unfolding addr_lt
addr_lt-eq-ltb a b = rw (addr_cmp-eq-compare a b, addr_lt) refl

-- What the loop has left to find, where the bytes below `p` have been carried over: `h` counts
-- multiples of `p`, and `w` is what of them fits the address.
abbrev Carries : ℕ → ℕ → ℕ → ℕ → Type 0
Carries h p w b = (h % w + 1) * p ≡ b % 2 ^ 128

Carries-room :
    (n h p b : ℕ)
    → 0 < p
    → 2 ^ 128 ≡ p * 256 ^ suc n
    → h % 256 ≢ 255
    → (256 * (h / 256) + (h % 256 + 1) % 256) * p % 2 ^ 128 ≡ (h % 256 ^ suc n + 1) * p
Carries-room n h p b hp whole room =
    let w = 256 ^ n in
    let next : 256 * (h / 256) + (h % 256 + 1) % 256 ≡ suc h = omega arith in
    let high : suc h / 256 ≡ h / 256 = omega arith in
    let low : suc h % 256 ≡ h % 256 + 1 = omega arith in
    let wide = pow256_suc n in
    let same = mod-product 256 w h (omega arith) (pow256_pos n) in
    let up = mod-product 256 w (suc h) (omega arith) (pow256_pos n) in
    let up' = rw (high, low) at up in
    let wrapped : suc h % 256 ^ suc n ≡ h % 256 ^ suc n + 1 = rw wide (omega (arith, same, up')) in
    rw (next, whole, mod-multiple p (256 ^ suc n) (suc h) hp (pow256_pos (suc n)), wrapped)
      (omega arith)

Carries-full :
    (n i h : ℕ)
    → h % 256 ≡ 255
    → (h / 256 % 256 ^ n + 1) * 256 ^ suc i ≡ (h % 256 ^ suc n + 1) * 256 ^ i
Carries-full n i h full =
    let q = h / 256 % 256 ^ n in
    let parts : h % 256 ^ suc n ≡ 256 * q + 255 =
      rw (pow256_suc n) (mod-product 256 (256 ^ n) h (omega arith) (pow256_pos n) ∙ omega arith) in
    rw (parts, pow256_suc i) (grind arith)

increment-full :
    (n x b : ℕ)
    → byte x (15 - n) ≡ 255
    → increment (suc n) x b ≡ increment n (set_byte x (15 - n) 0) b
unfolding increment
increment-full n x b h =
    let e : (byte x (15 - n) == 255) ≡ true = ground arith in rw (e, increment) refl

increment-room :
    (n x b : ℕ)
    → byte x (15 - n) ≢ 255
    → increment (suc n) x b ≡ addr_equals (set_byte x (15 - n) (byte x (15 - n) + 1)) b
unfolding increment
increment-room n x b h =
    let e : (byte x (15 - n) == 255) ≡ false = ground arith in rw (e, increment) refl

increment_end : (x b : ℕ) → increment 0 x b ≡ false
unfolding increment
increment_end x b = refl

increment_iff :
    (n i h b : ℕ)
    → n + i ≡ 16
    → (increment n (h * 256 ^ i) b ≡ true) ↔ Carries h (256 ^ i) (256 ^ n) b
increment_iff zero i h b e =
    let at_end : i ≡ 16 = omega arith in
    rw (increment_end (h * 256 ^ i) b, at_end)
      ((λ f. cc), λ c. absurd (omega (arith, mod-lt b {m = 2 ^ 128} (omega arith))))
increment_iff (suc n) i h b e =
    let p = 256 ^ i in
    let place : 15 - n ≡ i = omega arith in
    let whole : 2 ^ 128 ≡ p * 256 ^ suc n =
      ap (λ k. 256 ^ k) {x = 16} {y = suc n + i} (sym e) ∙ pow256_add (suc n) i ∙ omega arith in
    let at : byte (h * p) (15 - n) ≡ h % 256 = rw place (byte-multiple i h) in
    elim (ℕ_discrete (h % 256) 255) [
      | yes full ↦
          let rest = increment_iff n (suc i) (h / 256) b (omega arith) in
          let carried : set_byte (h * p) (15 - n) 0 ≡ h / 256 * 256 ^ suc i =
            rw place
              (set_byte-multiple i h 0 ∙ omega (arith, ap (λ q. h / 256 * q) (pow256_suc i))) in
          let step : increment (suc n) (h * p) b ≡ increment n (h / 256 * 256 ^ suc i) b =
            increment-full n (h * p) b (at ∙ full) ∙ ap (λ x. increment n x b) carried in
          let same : (h / 256 % 256 ^ n + 1) * 256 ^ suc i ≡ (h % 256 ^ suc n + 1) * p =
            Carries-full n i h full in
          rw (step, ← same) rest
      | no room ↦
          let r = Carries-room n h p b (pow256_pos i) whole room in
          let written : set_byte (h * p) (15 - n) (byte (h * p) (15 - n) + 1)
              ≡ (256 * (h / 256) + (h % 256 + 1) % 256) * p =
            ap (λ v. set_byte (h * p) (15 - n) (v + 1)) at
            ∙ rw place (set_byte-multiple i h (h % 256 + 1)) in
          rw (increment-room n (h * p) b (λ f. room (sym at ∙ f)), written, addr_equals_iff _ b, r)
            ((λ f. ground arith), λ c. ground arith)
    ]

-- addr_is_successor() adds one to the number, and never wraps around.
addr_is_successor_iff : (a b : ℕ) → (addr_is_successor a b ≡ true) ↔ (a % 2 ^ 128 + 1 ≡ b % 2 ^ 128)
unfolding addr_is_successor
addr_is_successor_iff a b =
    let unit : a * 256 ^ 0 ≡ a = omega arith in
    let r = increment_iff 16 0 a b (omega arith) in
    let r' = rw unit at r in ((λ h. omega (arith, r'.0 h)), λ e. r'.1 (omega arith))

addr_is_successor-eq :
    (a b : ℕ) → addr_is_successor a b ≡ (not (b % 2 ^ 128 == 0) && a % 2 ^ 128 == b % 2 ^ 128 - 1)
addr_is_successor-eq a b =
    let r = addr_is_successor_iff a b in
    elim (Bool-cases (addr_is_successor a b)) [
      | inl t ↦ let e = r.0 t in rw t (ground arith)
      | inr f ↦
          let no : ¬ (a % 2 ^ 128 + 1 ≡ b % 2 ^ 128) = λ e. cc (r.1 e, f) in rw f (ground arith)
    ]

-- The comparison is that of AS number ranges, on the numbers of the addresses.
r6_cmp-eq-asn_cmp : (a b : Ipv6Range) → r6_cmp a b ≡ asn_cmp (node6 a) (node6 b)
unfolding r6_cmp asn_cmp
r6_cmp-eq-asn_cmp a b =
    rw
      (
        addr_equals_iff a.min b.min,
        addr_equals_iff a.max b.max,
        addr_le-eq-leb a.min b.min,
        addr_le-eq-leb b.max a.max,
        addr_le-eq-leb b.min a.min,
        addr_le-eq-leb a.max b.max,
        addr_lt-eq-ltb a.max b.min,
        addr_lt-eq-ltb b.max a.min,
        addr_is_successor-eq a.max b.min,
        addr_is_successor-eq b.max a.min,
      )
      refl

-- The comparison callback of ip6.c says how the ranges of numbers lie that the bytes of two
-- address ranges stand for, so that what is proved of sorted arrays holds of IPv6 resources.
pub r6_cmp-IsRangeCmp : IsRangeCmp r6_cmp node6
r6_cmp-IsRangeCmp = record {
  verdict = λ a b. rw (r6_cmp-eq-asn_cmp a b) (asn_cmp-Verdict (node6 a) (node6 b));
}
