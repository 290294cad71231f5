-- ===== src/Address/Ipv6.antt =====
-- address.c: IPv6 addresses, prefixes and ranges. A `struct in6_addr` is the number that its 16
-- bytes stand for in network order; what a number has beyond 128 bits is never looked at.
pub mod Bytes
pub mod Quadrant
pub mod Suffix
pub mod Ranges
pub mod Encoding
pub mod Decode
pub mod Limits
use Prim.Native.Nat.{bit_and, bit_or}
use fort_validator.Base.{
  ℕ, zero, suc, ◌+◌, ◌-◌, ◌*◌, ◌/◌, ◌%◌, ◌^◌, Bool, true, false, not, ◌&&◌, ◌||◌, List, ◌++◌, ltb,
  ◌==◌, if◌then◌else◌, length, replicate,
}
use fort_validator.Base.Results.{Result, ok, err, einval, ◌>>=◌, ◌>>◌, reject}
use fort_validator.Address.{
  BitString, AddressRange, u32_suffix_mask, be_value, bad_bits_unused, unused_bits, skip_equal_bits,
  only_suffix_bits,
}

-- struct ipv6_prefix
pub record Ipv6Prefix : Type 0 where
  pub addr : ℕ
  pub len : ℕ

-- struct ipv6_range
pub record Ipv6Range : Type 0 where
  pub min : ℕ
  pub max : ℕ

-- s6_addr[15 - n], the byte that stands for multiples of 256 ^ n.
unfoldable pub byte : ℕ → ℕ → ℕ
byte a n = a / 256 ^ n % 256

-- An assignment to s6_addr[15 - n].
unfoldable pub set_byte : ℕ → ℕ → ℕ → ℕ
unfolding byte
set_byte a n value = a - byte a n * 256 ^ n + value % 256 * 256 ^ n

-- The place of the last byte of a quadrant.
abbrev pub last_of : ℕ → ℕ
last_of quadrant = 12 - 4 * quadrant

-- Assignments to the four bytes of a quadrant, by what a byte and its new value give.
unfoldable pub edit_quadrant : (ℕ → ℕ → ℕ) → ℕ → ℕ → ℕ → ℕ
unfolding set_byte byte
edit_quadrant op addr quadrant value =
    let n = last_of quadrant in
    let a3 = set_byte addr (n + 3) (op (byte addr (n + 3)) (value / 2 ^ 24)) in
    let a2 = set_byte a3 (n + 2) (op (byte a3 (n + 2)) (bit_and (value / 2 ^ 16) 0xFF)) in
    let a1 = set_byte a2 (n + 1) (op (byte a2 (n + 1)) (bit_and (value / 2 ^ 8) 0xFF)) in
    set_byte a1 n (op (byte a1 n) (bit_and value 0xFF))

unfoldable pub addr6_set_quadrant : ℕ → ℕ → ℕ → ℕ
unfolding edit_quadrant
addr6_set_quadrant addr quadrant value = edit_quadrant (λ old new. new) addr quadrant value

unfoldable pub addr6_or_quadrant : ℕ → ℕ → ℕ → ℕ
unfolding edit_quadrant
addr6_or_quadrant addr quadrant value = edit_quadrant bit_or addr quadrant value

-- in6_addr_init() writes each quadrant as addr6_set_quadrant() does.
unfoldable pub in6_addr_init : ℕ → ℕ → ℕ → ℕ → ℕ → ℕ
unfolding addr6_set_quadrant
in6_addr_init addr quadrant0 quadrant1 quadrant2 quadrant3 =
    let a0 = addr6_set_quadrant addr 0 quadrant0 in
    let a1 = addr6_set_quadrant a0 1 quadrant1 in
    let a2 = addr6_set_quadrant a1 2 quadrant2 in addr6_set_quadrant a2 3 quadrant3

unfoldable pub addr6_get_quadrant : ℕ → ℕ → ℕ
unfolding byte
addr6_get_quadrant addr quadrant =
    let n = last_of quadrant in
    bit_or
      (bit_or (bit_or (byte addr (n + 3) * 2 ^ 24) (byte addr (n + 2) * 2 ^ 16))
        (byte addr (n + 1) * 2 ^ 8))
      (byte addr n)

-- The loop of addr6_bitwise_and() over the last `n` bytes.
unfoldable pub common_bits : ℕ → ℕ → ℕ → Bool
unfolding byte
common_bits zero a1 a2 = false
common_bits (suc n) a1 a2 = not (bit_and (byte a1 n) (byte a2 n) == 0) || common_bits n a1 a2

unfoldable pub addr6_bitwise_and : ℕ → ℕ → Bool
addr6_bitwise_and a1 a2 = common_bits 16 a1 a2

unfoldable pub ipv6_suffix_mask : ℕ → ℕ → ℕ
ipv6_suffix_mask prefix_len result =
    if ltb prefix_len 32
    then (let r0 = addr6_or_quadrant result 0 (u32_suffix_mask prefix_len) in
        let r1 = addr6_set_quadrant r0 1 0xFFFF_FFFF in
        let r2 = addr6_set_quadrant r1 2 0xFFFF_FFFF in addr6_set_quadrant r2 3 0xFFFF_FFFF)
    else if ltb prefix_len 64
    then (let r1 = addr6_or_quadrant result 1 (u32_suffix_mask (prefix_len - 32)) in
        let r2 = addr6_set_quadrant r1 2 0xFFFF_FFFF in addr6_set_quadrant r2 3 0xFFFF_FFFF)
    else if ltb prefix_len 96
    then (let r2 = addr6_or_quadrant result 2 (u32_suffix_mask (prefix_len - 64)) in
        addr6_set_quadrant r2 3 0xFFFF_FFFF)
    else addr6_or_quadrant result 3 (u32_suffix_mask (prefix_len - 96))

-- The loop of prefix6_equals() over the last `n` bytes.
unfoldable pub same_bytes : ℕ → ℕ → ℕ → Bool
unfolding byte
same_bytes zero a b = true
same_bytes (suc n) a b = byte a n == byte b n && same_bytes n a b

unfoldable pub prefix6_equals : Ipv6Prefix → Ipv6Prefix → Bool
unfolding same_bytes
prefix6_equals a b = same_bytes 16 a.addr b.addr && a.len == b.len

-- memset() of 16 bytes to 0, and memcpy() of the buffer over them.
unfoldable pub copy_addr6 : List ℕ → ℕ
unfolding be_value
copy_addr6 buf = be_value (buf ++ replicate (16 - length buf) 0)

unfoldable pub prefix6_decode : BitString → Result Ipv6Prefix
unfolding bad_bits_unused
prefix6_decode str = do
  let size = length str.buf
  reject (ltb 16 size) einval
  reject (bad_bits_unused str.bits_unused) einval
  let addr = copy_addr6 str.buf
  let unused = unused_bits str.bits_unused
  reject (ltb (8 * size) unused || ltb 128 (8 * size - unused)) einval
  let len = 8 * size - unused
  reject (addr6_bitwise_and addr (ipv6_suffix_mask len 0)) einval
  ok (record { addr = addr; len = len })

-- The loop of check_order6() over the last `n` quadrants: is the range inverted?
unfoldable pub inverted_quadrants : ℕ → ℕ → ℕ → Bool
inverted_quadrants zero lo hi = false
inverted_quadrants (suc n) lo hi =
    let min = addr6_get_quadrant lo (3 - n) in
    let max = addr6_get_quadrant hi (3 - n) in
    if ltb max min then true else if ltb min max then false else inverted_quadrants n lo hi

unfoldable pub check_order6 : Ipv6Range → Result (Unit {0})
check_order6 r = reject (inverted_quadrants 4 r.min r.max) einval

-- __check_encoding6() over the last `n` quadrants, from a mask of the first of them on; `true` if
-- it reaches the end. Its inner loop is that of check_encoding4().
unfoldable pub only_suffix6 : ℕ → ℕ → ℕ → ℕ → Bool
only_suffix6 zero mask lo hi = true
only_suffix6 (suc n) mask lo hi =
    only_suffix_bits mask (addr6_get_quadrant lo (3 - n)) (addr6_get_quadrant hi (3 - n))
    && only_suffix6 n 32 lo hi

-- check_encoding6() over the last `n` quadrants; `true` if the range should have been a prefix.
unfoldable pub could_be_prefix : ℕ → ℕ → ℕ → Bool
could_be_prefix zero lo hi = true
could_be_prefix (suc n) lo hi =
    elim (skip_equal_bits 32 (addr6_get_quadrant lo (3 - n)) (addr6_get_quadrant hi (3 - n))) [
      | zero ↦ could_be_prefix n lo hi
      | suc m ↦ only_suffix6 (suc n) (suc m) lo hi
    ]

unfoldable pub check_encoding6 : Ipv6Range → Result (Unit {0})
check_encoding6 r = reject (could_be_prefix 4 r.min r.max) einval

-- The rest of range6_decode(), from the two decoded prefixes on.
unfoldable pub range6_of : Ipv6Prefix → Ipv6Prefix → Result Ipv6Range
range6_of lo hi = do
  let r : Ipv6Range = record { min = lo.addr; max = ipv6_suffix_mask hi.len hi.addr }
  check_order6 r
  check_encoding6 r
  ok r

unfoldable pub range6_decode : AddressRange → Result Ipv6Range
range6_decode input = do
  lo ← prefix6_decode input.min
  hi ← prefix6_decode input.max
  range6_of lo hi

unfoldable pub ipv6_prefix_validate : Ipv6Prefix → Result (Unit {0})
ipv6_prefix_validate p = reject (common_bits 16 p.addr (ipv6_suffix_mask p.len 0)) einval

-- The loop of ipv6_covered() over the last `n` bytes.
unfoldable pub covered_bytes : ℕ → ℕ → ℕ → ℕ → Bool
unfolding byte
covered_bytes zero f suffix son = true
covered_bytes (suc n) f suffix son =
    bit_and (byte son n) (0xFF - byte suffix n) == byte f n && covered_bytes n f suffix son

unfoldable pub ipv6_covered : ℕ → ℕ → ℕ → Bool
ipv6_covered f_addr f_len son_addr = covered_bytes 16 f_addr (ipv6_suffix_mask f_len 0) son_addr
