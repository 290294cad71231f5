-- ===== src/Address.antt =====
-- address.c: IPv4 addresses, prefixes and ranges. A `struct in_addr` is the number that ntohl()
-- gives for it; ntohl(), htonl() and memcpy() then disappear, since the masks are converted too.
pub mod Masks
pub mod Encoding
pub mod Decode
pub mod Ipv6
use Prim.Native.Nat.{bit_and, bit_or}
use fort_validator.Base.{
  ℕ, zero, suc, ◌+◌, ◌-◌, ◌*◌, ◌/◌, ◌^◌, Bool, true, false, not, ◌&&◌, ◌||◌, List, [], ◌∷◌, ◌++◌,
  ltb, leb, ◌==◌, if◌then◌else◌, length, replicate,
}
use fort_validator.Base.Int.{ℤ, pos, negsuc}
use fort_validator.Base.Results.{Result, ok, err, einval, ◌>>=◌, ◌>>◌, reject}

-- BIT_STRING_t; `size` is the length of `buf`.
pub record BitString : Type 0 where
  pub buf : List ℕ
  pub bits_unused : ℤ

-- struct ipv4_prefix
pub record Ipv4Prefix : Type 0 where
  pub addr : ℕ
  pub len : ℕ

-- struct ipv4_range
pub record Ipv4Range : Type 0 where
  pub min : ℕ
  pub max : ℕ

-- IPAddressRange_t
pub record AddressRange : Type 0 where
  pub min : BitString
  pub max : BitString

unfoldable pub u32_suffix_mask : ℕ → ℕ
u32_suffix_mask prefix_len = if ltb prefix_len 32 then 0xFFFF_FFFF / 2 ^ prefix_len else 0

-- The number that bytes in network order stand for.
unfoldable pub be_value : List ℕ → ℕ
be_value [] = 0
be_value (b ∷ bs) = b * 256 ^ length bs + be_value bs

-- memset() of four bytes to 0, and memcpy() of the buffer over them.
unfoldable pub copy_addr4 : List ℕ → ℕ
unfolding be_value
copy_addr4 buf = be_value (buf ++ replicate (4 - length buf) 0)

-- bits_unused < 0 || 7 < bits_unused
unfoldable pub bad_bits_unused : ℤ → Bool
bad_bits_unused (negsuc _) = true
bad_bits_unused (pos u) = ltb 7 u

-- 8 * size - bits_unused, where the bits unused are not negative.
unfoldable pub unused_bits : ℤ → ℕ
unused_bits (negsuc _) = 0
unused_bits (pos u) = u

unfoldable pub prefix4_decode : BitString → Result Ipv4Prefix
unfolding u32_suffix_mask copy_addr4 bad_bits_unused unused_bits
prefix4_decode str = do
  let size = length str.buf
  reject (ltb 4 size) einval
  reject (bad_bits_unused str.bits_unused) einval
  let addr = copy_addr4 str.buf
  let unused = unused_bits str.bits_unused
  reject (ltb (8 * size) unused || ltb 32 (8 * size - unused)) einval
  let len = 8 * size - unused
  reject (not (bit_and addr (u32_suffix_mask len) == 0)) einval
  ok (record { addr = addr; len = len })

unfoldable pub check_order4 : Ipv4Range → Result (Unit {0})
check_order4 r = reject (ltb r.max r.min) einval

-- The first loop of check_encoding4(). `suc n` is the mask `2 ^ n`, `zero` the mask 0; the
-- result is the mask at which the two ends differ first.
unfoldable pub skip_equal_bits : ℕ → ℕ → ℕ → ℕ
skip_equal_bits zero lo hi = zero
skip_equal_bits (suc n) lo hi = elim (bit_and lo (2 ^ n) == bit_and hi (2 ^ n)) [
  | true ↦ skip_equal_bits n lo hi
  | false ↦ suc n
]

-- The second loop; `true` if it reaches the mask 0, `false` if it returns.
unfoldable pub only_suffix_bits : ℕ → ℕ → ℕ → Bool
only_suffix_bits zero lo hi = true
only_suffix_bits (suc n) lo hi = elim (not (bit_and lo (2 ^ n) == 0) || bit_and hi (2 ^ n) == 0) [
  | true ↦ false
  | false ↦ only_suffix_bits n lo hi
]

unfoldable pub check_encoding4 : Ipv4Range → Result (Unit {0})
unfolding skip_equal_bits only_suffix_bits
check_encoding4 r = reject (only_suffix_bits (skip_equal_bits 32 r.min r.max) r.min r.max) einval

-- The rest of range4_decode(), from the two decoded prefixes on.
unfoldable pub range4_of : Ipv4Prefix → Ipv4Prefix → Result Ipv4Range
range4_of lo hi = do
  let r : Ipv4Range = record { min = lo.addr; max = bit_or hi.addr (u32_suffix_mask hi.len) }
  check_order4 r
  check_encoding4 r
  ok r

unfoldable pub range4_decode : AddressRange → Result Ipv4Range
range4_decode input = do
  lo ← prefix4_decode input.min
  hi ← prefix4_decode input.max
  range4_of lo hi

unfoldable pub prefix4_equals : Ipv4Prefix → Ipv4Prefix → Bool
prefix4_equals a b = a.addr == b.addr && a.len == b.len

unfoldable pub ipv4_prefix_validate : Ipv4Prefix → Result (Unit {0})
unfolding u32_suffix_mask
ipv4_prefix_validate p = reject (not (bit_and p.addr (u32_suffix_mask p.len) == 0)) einval

-- `~` of 32 bits.
abbrev pub not32 : ℕ → ℕ
not32 x = 0xFFFF_FFFF - x

unfoldable pub ipv4_covered : ℕ → ℕ → ℕ → Bool
unfolding u32_suffix_mask
ipv4_covered f_addr f_len son_addr = bit_and son_addr (not32 (u32_suffix_mask f_len)) == f_addr
