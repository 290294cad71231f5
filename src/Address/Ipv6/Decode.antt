-- ===== src/Address/Ipv6/Decode.antt =====
-- What the IPv6 decoders of address.c accept.
use Prim.Native.Nat.{bit_and}
use fort_validator.Base.{
  ℕ, zero, suc, ◌+◌, ◌-◌, ◌*◌, ◌/◌, ◌%◌, ◌^◌, ◌≤◌, ◌<◌, ◌≡◌, ◌↔◌, refl, sym, ap, ◌∙◌, false, List,
  ◌++◌, length, replicate, All-append, length-append, arith,
}
use native.Mathlib.Nat.{mod-lt, mod-eq_of_lt, zero-div}
use fort_validator.Base.Bits.{bit_and-ones, bit_and_split, two_pow_pos, two_pow-add}
use fort_validator.Base.Results.{ok}
use fort_validator.Address.{BitString, unused_bits}
use fort_validator.Address.Decode.{AreBytes, be_value-lt, zeros-AreBytes, length-zeros}
use fort_validator.Address.Ipv6.{
  Ipv6Prefix, byte, common_bits, addr6_bitwise_and, ipv6_suffix_mask, copy_addr6, prefix6_decode,
}
use fort_validator.Address.Ipv6.Bytes.{pow256_pos, pow256_suc, mod-byte, mod-shape, div-shape}
use fort_validator.Address.Ipv6.Suffix.{ipv6_suffix_mask-eq}

-- An IPv6 prefix as the rest of the validator expects it.
pub record IsPrefix6 (p : Ipv6Prefix) : Type 0 where
  pub addr_in : p.addr < 2 ^ 128
  pub len_in : p.len ≤ 128
  pub no_suffix : p.addr % 2 ^ (128 - p.len) ≡ 0

pub pow256-two_pow : (n : ℕ) → 256 ^ n ≡ 2 ^ (8 * n)
pow256-two_pow zero = refl
pow256-two_pow (suc n) =
    let e : 8 * suc n ≡ 8 + 8 * n = omega arith in
    rw e (omega (arith, pow256_suc n, pow256-two_pow n, two_pow-add 8 (8 * n)))

-- `&` byte by byte.
and_bytes :
    (n x y : ℕ)
    → bit_and (x % 256 ^ suc n) (y % 256 ^ suc n)
      ≡ bit_and (byte x n) (byte y n) * 256 ^ n + bit_and (x % 256 ^ n) (y % 256 ^ n)
and_bytes n x y =
    let p = 256 ^ n in
    let x' = p * byte x n + x % p in
    let y' = p * byte y n + y % p in
    let lx = mod-lt x (pow256_pos n) in
    let ly = mod-lt y (pow256_pos n) in
    let s : bit_and x' y' ≡ bit_and (x' / p) (y' / p) * p + bit_and (x' % p) (y' % p) =
      rw (pow256-two_pow n) (bit_and_split (8 * n) _ _) in
    rw (mod-byte n x, mod-byte n y)
      (s
        ∙ rw
            (
              div-shape p (byte x n) (x % p) lx,
              div-shape p (byte y n) (y % p) ly,
              mod-shape p (byte x n) (x % p) lx,
              mod-shape p (byte y n) (y % p) ly,
            )
            refl)

factor_zero : (x p : ℕ) → 0 < p → x * p ≡ 0 → x ≡ 0
factor_zero zero p hp h = refl
factor_zero (suc x) p hp h = absurd (omega (arith, suc_mul x p))
  where
    suc_mul : (x p : ℕ) → suc x * p ≡ x * p + p
    suc_mul x p = omega arith

-- The loop over the last `n` bytes finds no bit in common exactly if there is none.
pub common_bits_iff :
    (n a b : ℕ) → (common_bits n a b ≡ false) ↔ (bit_and (a % 256 ^ n) (b % 256 ^ n) ≡ 0)
unfolding common_bits
common_bits_iff zero a b =
    let ea : a % 256 ^ 0 ≡ 0 = omega arith in
    let eb : b % 256 ^ 0 ≡ 0 = omega arith in rw (ea, eb) ((λ _. refl), λ _. refl)
common_bits_iff (suc n) a b =
    let parts = and_bytes n a b in
    let pos = pow256_pos n in
    let rest = common_bits_iff n a b in
    let high = factor_zero (bit_and (byte a n) (byte b n)) (256 ^ n) pos in
    (
      (λ h.
          let none_here : bit_and (byte a n) (byte b n) ≡ 0 = ground arith in
          let none_below = rest.0 (ground arith) in
          omega (arith, parts, ap (λ z. z * 256 ^ n) none_here)),
      λ h.
          let none_here = high (omega (arith, parts)) in
          let none_below = rest.1 (omega (arith, parts)) in ground arith,
    )

pub small_power : (k : ℕ) → k ≤ 128 → 2 ^ k ≤ 2 ^ 128
small_power k h =
    let whole : 2 ^ 128 ≡ 2 ^ k * 2 ^ (128 - k) =
      ap (λ i. 2 ^ i) {x = 128} {y = k + (128 - k)} (omega arith) ∙ two_pow-add k (128 - k) in
    grind (arith, two_pow_pos (128 - k))

pub mask_alone : (len : ℕ) → len ≤ 128 → ipv6_suffix_mask len 0 ≡ 2 ^ (128 - len) - 1
mask_alone len h = ipv6_suffix_mask-eq len 0 h ∙ rw (zero-div (2 ^ (128 - len))) (omega arith)

-- addr6_bitwise_and() with a suffix mask looks at the bits beyond the prefix length.
pub and_suffix_iff :
    (len a : ℕ)
    → len ≤ 128
    → a < 2 ^ 128
    → (common_bits 16 a (ipv6_suffix_mask len 0) ≡ false) ↔ (a % 2 ^ (128 - len) ≡ 0)
and_suffix_iff len a h lt =
    let c = common_bits_iff 16 a (2 ^ (128 - len) - 1) in
    let room = small_power (128 - len) (omega arith) in
    let pos = two_pow_pos (128 - len) in
    let ea : a % 2 ^ 128 ≡ a = mod-eq_of_lt {n = a} {m = 2 ^ 128} lt in
    let em : (2 ^ (128 - len) - 1) % 2 ^ 128 ≡ 2 ^ (128 - len) - 1 =
      mod-eq_of_lt {n = 2 ^ (128 - len) - 1} {m = 2 ^ 128} (omega arith) in
    let e : bit_and (a % 2 ^ 128) ((2 ^ (128 - len) - 1) % 2 ^ 128) ≡ a % 2 ^ (128 - len) =
      rw (ea, em) (bit_and-ones (128 - len) a) in
    rw (mask_alone len h) ((λ f. sym e ∙ c.0 f), λ z. c.1 (e ∙ z))

copy_addr6-lt : (buf : List ℕ) → AreBytes buf → length buf ≤ 16 → copy_addr6 buf < 2 ^ 128
unfolding copy_addr6
copy_addr6-lt buf h le =
    let pad = replicate {A = ℕ} (16 - length buf) 0 in
    let b = be_value-lt (buf ++ pad) (All-append (λ b. b < 256) buf pad h (zeros-AreBytes _)) in
    let e : length (buf ++ pad) ≡ 16 =
      omega (arith, length-append buf pad, length-zeros (16 - length buf)) in
    omega (arith, b, ap (λ n. 256 ^ n) e)

-- An IPv6 prefix that is decoded from bytes is a prefix: its address has 128 bits, its length is
-- the number of bits used, at most 128, and no bit beyond the length is set.
pub prefix6_decode-IsPrefix6 :
    (str : BitString) {p : Ipv6Prefix}
    → AreBytes str.buf
    → prefix6_decode str ≡ ok p
    → IsPrefix6 p × (p.len + unused_bits str.bits_unused ≡ 8 * length str.buf)
unfolding prefix6_decode addr6_bitwise_and
prefix6_decode-IsPrefix6 str {p} bytes h =
    let size = length str.buf in
    let u = unused_bits str.bits_unused in
    let len = 8 * size - u in
    let small : size ≤ 16 = ground arith in
    let addr = copy_addr6-lt str.buf bytes small in
    let le : len ≤ 128 = ground arith in
    let clean = and_suffix_iff len (copy_addr6 str.buf) le addr in ground arith
