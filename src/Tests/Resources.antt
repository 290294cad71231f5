-- ===== src/Tests/Resources.antt =====
-- Sorted arrays, AS numbers and IPv4 prefixes at concrete values.
use fort_validator.Base.{
  ℕ, ◌+◌, ◌*◌, ◌^◌, ◌≤◌, ◌<◌, ◌≡◌, ◌≢◌, ◌↔◌, ◌⊎◌, refl, Bool, true, some, [], ◌∷◌, arith,
}
use fort_validator.Base.Int.{pos}
use fort_validator.Base.Results.{Result, ok, err, einval, walk}
use fort_validator.SortedArray.{
  SortedArray, sarray_add, sarray_contains, compare_last, sarray_grow, get_nth_element,
  comparison_error,
}
use fort_validator.Range.{Node, InNode, asn_cmp, r4_cmp}
use fort_validator.Range.Order.{Verdict, asn_cmp-Verdict, r4_cmp-eq-asn_cmp, asn_cmp-IsRangeCmp}
use fort_validator.Range.Cover.{IsSorted, Holds}
use fort_validator.Range.Search.{sarray_contains-iff-Holds}
use fort_validator.Range.Add.{
  IsValid, AllBefore, in_use, sarray_add-ok_iff, sarray_add-IsValid, sarray_add-Holds,
}
use fort_validator.Address.{
  BitString, Ipv4Prefix, Ipv4Range, AddressRange, prefix4_decode, range4_decode, check_encoding4,
  unused_bits, ipv4_covered, copy_addr4, be_value, bad_bits_unused, u32_suffix_mask, range4_of,
  check_order4, skip_equal_bits, only_suffix_bits,
}
use fort_validator.Address.Encoding.{IsPrefixRange, check_encoding4_iff}
use fort_validator.Address.Decode.{AreBytes, IsPrefix4, prefix4_decode-IsPrefix4, range4_decode_ok}
use fort_validator.Resource.Ip4.{pton}
use fort_validator.Resource.Ip4.Prefixes.{ipv4_covered-iff-InNode}
use fort_validator.Resource.Asn.{rasn_foreach}
use fort_validator.Resource.Asn.Foreach.{numbers, rasn_foreach-eq-numbers}

abbrev range : ℕ → ℕ → Node
range min max = record { min = min; max = max }

-- The AS numbers 10 to 20 and 30.
abbrev asns : SortedArray Node
asns = record { array = range 10 20 ∷ range 30 30 ∷ []; count = 2; len = 8; refcount = 1 }

abbrev node : Node → Node
node n = n

asns-IsSorted : IsSorted node asns.array
asns-IsSorted = ground arith

asns-IsValid : IsValid asn_cmp node asns
asns-IsValid = record {
  counted = refl;
  room = omega arith;
  allocated = omega arith;
  sorted = asns-IsSorted;
}

sarray_contains-iff-Holds_example :
    (b : Bool) × (sarray_contains asn_cmp (some asns) (range 12 20) ≡ some b)
    × ((b ≡ true) ↔ ((a : ℕ) → InNode a (range 12 20) → Holds node asns.array a))
sarray_contains-iff-Holds_example =
    sarray_contains-iff-Holds asn_cmp node asn_cmp-IsRangeCmp asns (range 12 20) refl asns-IsSorted
      (omega arith)

sarray_add-ok_iff_example :
    ((sarray_add asn_cmp true asns (range 40 50)).0 ≡ ok tt)
    ↔ AllBefore asn_cmp node asns.array (range 40 50)
sarray_add-ok_iff_example =
    sarray_add-ok_iff asn_cmp node asn_cmp-IsRangeCmp asns (range 40 50) asns-IsValid (omega arith)

sarray_add-IsValid_example : IsValid asn_cmp node (sarray_add asn_cmp true asns (range 40 50)).1
sarray_add-IsValid_example =
    sarray_add-IsValid asn_cmp node asn_cmp-IsRangeCmp true asns (range 40 50) asns-IsValid
      (omega arith) (omega arith) (omega arith)

added_40_50 : (sarray_add asn_cmp true asns (range 40 50)).0 ≡ ok tt
unfolding sarray_add compare_last get_nth_element comparison_error sarray_grow asn_cmp
added_40_50 = refl

refused_25_35 : (sarray_add asn_cmp true asns (range 25 35)).0 ≢ ok tt
unfolding sarray_add compare_last get_nth_element comparison_error sarray_grow asn_cmp
refused_25_35 h = cc

sarray_add-Holds_example :
    Holds node (in_use asn_cmp node (sarray_add asn_cmp true asns (range 40 50)).1) 45
    ↔ (Holds node (in_use asn_cmp node asns) 45 ⊎ InNode 45 (range 40 50))
sarray_add-Holds_example =
    sarray_add-Holds asn_cmp node asn_cmp-IsRangeCmp true asns (range 40 50) 45 asns-IsValid
      (omega arith) added_40_50

asn_cmp-Verdict_example : Verdict (asn_cmp (range 1 5) (range 6 9)) (range 1 5) (range 6 9)
asn_cmp-Verdict_example = asn_cmp-Verdict (range 1 5) (range 6 9)

r4_cmp-eq-asn_cmp_example : r4_cmp (range 1 5) (range 6 9) ≡ asn_cmp (range 1 5) (range 6 9)
r4_cmp-eq-asn_cmp_example = r4_cmp-eq-asn_cmp (range 1 5) (range 6 9)

-- 192.0.2.0/24
abbrev prefix : Ipv4Prefix
prefix = record { addr = 0xC000_0200; len = 24 }

abbrev encoded : BitString
encoded = record { buf = 192 ∷ 0 ∷ 2 ∷ []; bits_unused = pos 0 }

decoded : prefix4_decode encoded ≡ ok prefix
unfolding prefix4_decode copy_addr4 be_value bad_bits_unused unused_bits u32_suffix_mask
decoded = refl

encoded-AreBytes : AreBytes encoded.buf
encoded-AreBytes = ground arith

prefix4_decode-IsPrefix4_example : IsPrefix4 prefix × (24 + unused_bits (pos 0) ≡ 8 * 3)
prefix4_decode-IsPrefix4_example =
    prefix4_decode-IsPrefix4 encoded {p = prefix} encoded-AreBytes decoded

-- 192.0.2.0 to 192.0.3.127
abbrev encoded_range : AddressRange
encoded_range = record {
  min = encoded;
  max = record { buf = 192 ∷ 0 ∷ 3 ∷ 0 ∷ []; bits_unused = pos 7 };
}

abbrev decoded_range : Ipv4Range
decoded_range = record { min = 0xC000_0200; max = 0xC000_037F }

range_decoded : range4_decode encoded_range ≡ ok decoded_range
unfolding range4_decode range4_of check_order4 check_encoding4 skip_equal_bits only_suffix_bits
    prefix4_decode copy_addr4 be_value bad_bits_unused unused_bits u32_suffix_mask
range_decoded = refl

range4_decode_ok_example :
    (0xC000_0200 ≤ 0xC000_037F) × (0xC000_037F < 2 ^ 32) × ¬ (IsPrefixRange decoded_range)
range4_decode_ok_example =
    range4_decode_ok encoded_range {r = decoded_range} encoded-AreBytes (ground arith) range_decoded

check_encoding4_iff_example :
    (check_encoding4 decoded_range ≡ err einval) ↔ IsPrefixRange decoded_range
check_encoding4_iff_example = check_encoding4_iff decoded_range (omega arith) (omega arith)

ipv4_covered-iff-InNode_example :
    (ipv4_covered 0xC000_0200 24 0xC000_0205 ≡ true) ↔ InNode 0xC000_0205 (pton prefix)
ipv4_covered-iff-InNode_example =
    ipv4_covered-iff-InNode prefix 0xC000_0205
      (prefix4_decode-IsPrefix4 encoded {p = prefix} encoded-AreBytes decoded).0 (omega arith)

-- A callback that adds the numbers up.
abbrev add_up : ℕ → ℕ → Result (Unit {0}) × ℕ
add_up n sum = (ok tt, sum + n)

rasn_foreach-eq-numbers_example : rasn_foreach add_up asns 0 ≡ walk add_up (numbers asns.array) 0
rasn_foreach-eq-numbers_example = rasn_foreach-eq-numbers add_up asns 0 refl (ground arith)
