-- ===== src/Address/Decode.antt =====
-- What the decoders of address.c accept.
use fort_validator.Base.{
  ℕ, zero, suc, ◌+◌, ◌-◌, ◌*◌, ◌/◌, ◌%◌, ◌^◌, ◌≤◌, ◌<◌, ◌≡◌, refl, List, [], ◌∷◌, ◌++◌, arith, ap,
  sym, ◌∙◌, subst, length, replicate, All, All-append, length-append,
}
use Prim.Native.Nat.{bit_or}
use native.Mathlib.Nat.{div-add-mod, pow-suc}
use fort_validator.Base.Bits.{two_pow_pos, two_pow-add, multiple-room}
use fort_validator.Base.Results.{ok, >>=-eq-ok}
use fort_validator.Address.{
  BitString, Ipv4Prefix, Ipv4Range, AddressRange, u32_suffix_mask, be_value, copy_addr4,
  unused_bits, prefix4_decode, check_order4, check_encoding4, range4_of, range4_decode,
}
use fort_validator.Address.Masks.{and-u32_suffix_mask, or-u32_suffix_mask}
use fort_validator.Address.Encoding.{IsPrefixRange, check_encoding4_iff}

abbrev pub AreBytes : List ℕ → Type 0
AreBytes = All (λ b. b < 256)

-- An IPv4 prefix as the rest of the validator expects it.
pub record IsPrefix4 (p : Ipv4Prefix) : Type 0 where
  pub addr_in : p.addr < 2 ^ 32
  pub len_in : p.len ≤ 32
  pub no_suffix : p.addr % 2 ^ (32 - p.len) ≡ 0

pub be_value-lt : (bs : List ℕ) → AreBytes bs → be_value bs < 256 ^ length bs
unfolding be_value
be_value-lt [] h = omega arith
be_value-lt (b ∷ bs) h =
    let ih = be_value-lt bs h.1 in let e = pow-suc 256 (length bs) in grind (arith, h.0)

pub zeros-AreBytes : (n : ℕ) → AreBytes (replicate n 0)
zeros-AreBytes zero = tt
zeros-AreBytes (suc n) = (omega arith, zeros-AreBytes n)

pub length-zeros : (n : ℕ) → length (replicate {A = ℕ} n 0) ≡ n
length-zeros zero = refl
length-zeros (suc n) = ap suc (length-zeros n)

copy_addr4-lt : (buf : List ℕ) → AreBytes buf → length buf ≤ 4 → copy_addr4 buf < 2 ^ 32
unfolding copy_addr4
copy_addr4-lt buf h le =
    let pad = replicate {A = ℕ} (4 - length buf) 0 in
    let b = be_value-lt (buf ++ pad) (All-append (λ b. b < 256) buf pad h (zeros-AreBytes _)) in
    let e : length (buf ++ pad) ≡ 4 =
      omega (arith, length-append buf pad, length-zeros (4 - length buf)) in
    omega (arith, b, ap (λ n. 256 ^ n) e)

-- A prefix that is decoded from bytes is a prefix: its address has 32 bits, its length is the
-- number of bits used, at most 32, and no bit beyond the length is set.
pub prefix4_decode-IsPrefix4 :
    (str : BitString) {p : Ipv4Prefix}
    → AreBytes str.buf
    → prefix4_decode str ≡ ok p
    → IsPrefix4 p × (p.len + unused_bits str.bits_unused ≡ 8 * length str.buf)
unfolding prefix4_decode
prefix4_decode-IsPrefix4 str {p} bytes h =
    let size = length str.buf in
    let u = unused_bits str.bits_unused in
    let len = 8 * size - u in
    let small : size ≤ 4 = ground arith in
    let addr = copy_addr4-lt str.buf bytes small in
    ground (arith, and-u32_suffix_mask len (copy_addr4 str.buf))

-- The upper end of a range is a prefix with its suffix filled with ones.
or-suffix-lt : (p : Ipv4Prefix) → IsPrefix4 p → bit_or p.addr (u32_suffix_mask p.len) < 2 ^ 32
or-suffix-lt p v =
    let k = 32 - p.len in
    let pos = two_pow_pos k in
    let e = or-u32_suffix_mask p.len p.addr v.len_in in
    let split = div-add-mod p.addr (2 ^ k) in
    let sum : k + p.len ≡ 32 = omega (arith, v.len_in) in
    let whole : 2 ^ 32 ≡ 2 ^ k * 2 ^ p.len = ap (λ n. 2 ^ n) (sym sum) ∙ two_pow-add k p.len in
    let q = p.addr / 2 ^ k in
    let room = multiple-room (2 ^ k) q (2 ^ p.len) (omega arith) in omega arith

range4_of_ok :
    (lo hi : Ipv4Prefix) {r : Ipv4Range}
    → IsPrefix4 lo
    → IsPrefix4 hi
    → range4_of lo hi ≡ ok r
    → (r.min ≤ r.max) × (r.max < 2 ^ 32) × ¬ (IsPrefixRange r)
unfolding range4_of check_order4
range4_of_ok lo hi {r} vlo vhi h =
    let got : Ipv4Range = record { min = lo.addr; max = bit_or hi.addr (u32_suffix_mask hi.len) } in
    let b = or-suffix-lt hi vhi in
    let order : got.min ≤ got.max = ground arith in
    let same : got ≡ r = ground arith in
    let enc : check_encoding4 got ≡ ok tt = ground arith in
    subst (λ (r : Ipv4Range). (r.min ≤ r.max) × (r.max < 2 ^ 32) × ¬ (IsPrefixRange r)) same
      (order, b, λ p. cc (enc, (check_encoding4_iff got (omega arith) b).1 p))

-- A range that is decoded from bytes is in order, has 32-bit ends, and is not the range of a
-- prefix.
pub range4_decode_ok :
    (input : AddressRange) {r : Ipv4Range}
    → AreBytes input.min.buf
    → AreBytes input.max.buf
    → range4_decode input ≡ ok r
    → (r.min ≤ r.max) × (r.max < 2 ^ 32) × ¬ (IsPrefixRange r)
unfolding range4_decode
range4_decode_ok input {r} bmin bmax h =
    let (lo, hlo, h1) = >>=-eq-ok (prefix4_decode input.min) _ h in
    let (hi, hhi, h2) = >>=-eq-ok (prefix4_decode input.max) _ h1 in
    range4_of_ok lo hi (prefix4_decode-IsPrefix4 input.min {p = lo} bmin hlo).0
      (prefix4_decode-IsPrefix4 input.max {p = hi} bmax hhi).0 h2
