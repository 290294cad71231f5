-- ===== src/Tests/Inherit.antt =====
-- IPv6 addresses and the resources of certificates at concrete values.
use fort_validator.Base.{
  ℕ, ◌+◌, ◌-◌, ◌*◌, ◌/◌, ◌^◌, ◌≤◌, ◌<◌, ◌≡◌, ◌↔◌, refl, true, false, Option, none, some, List, [],
  ◌∷◌, arith,
}
use fort_validator.Base.Int.{pos}
use fort_validator.Base.Results.{ok, err, einval}
use fort_validator.Base.Memory.{allocation, for_each}
use fort_validator.SortedArray.{
  sarray_create, sarray_add, sarray_contains, contains_loop, compare_last, sarray_grow,
  sarray_append, put_nth_element, get_nth_element,
}
use fort_validator.Range.{Node, asn_cmp, r4_cmp}
use fort_validator.Address.{
  BitString, AddressRange, prefix4_decode, copy_addr4, be_value, bad_bits_unused, unused_bits,
  u32_suffix_mask, skip_equal_bits, only_suffix_bits,
}
use fort_validator.Address.Decode.{AreBytes}
use fort_validator.Address.Ipv6.{
  Ipv6Prefix, Ipv6Range, byte, set_byte, edit_quadrant, addr6_set_quadrant, addr6_or_quadrant,
  addr6_get_quadrant, common_bits, addr6_bitwise_and, ipv6_suffix_mask, copy_addr6, prefix6_decode,
  inverted_quadrants, check_order6, only_suffix6, could_be_prefix, check_encoding6, range6_of,
  range6_decode, ipv6_covered,
}
use fort_validator.Address.Ipv6.Suffix.{with_suffix, ipv6_suffix_mask-eq}
use fort_validator.Address.Ipv6.Decode.{IsPrefix6, prefix6_decode-IsPrefix6}
use fort_validator.Address.Ipv6.Encoding.{IsPrefixRange6, check_encoding6_iff}
use fort_validator.Address.Ipv6.Limits.{range6_decode_ok, ipv6_covered_iff}
use fort_validator.Resource.Ip4.{pton, res4_create, res4_add_prefix, res4_contains_prefix}
use fort_validator.Resource.Asn.{rasn_create, rasn_add, rasn_contains}
use fort_validator.Resource.Extension.{
  address_prefix, addresses_or_ranges, AddressFamily, AsIdOrRange, as_ids_or_ranges, AsIdentifiers,
}
use fort_validator.Resource.Slots.{
  rfc6484, rfc8360, Slot, Resources, inherits, overclaims, claim, add_to_slot, add_existing,
}
use fort_validator.Resource.Inherit.{
  get_addr_family, add_aors, add_aor, add_prefix, add_prefix4, resources_add_ip, add_asn,
  as_id_to_ulong, add_asior, add_asiors, resources_add_asn,
}
use fort_validator.Resource.Inherit.Subset.{HaveRoom, AreWithin}
use fort_validator.Resource.Inherit.Within.{resources_add_ip-AreWithin, resources_add_asn-AreWithin}

-- 2001:db8::/32
abbrev encoded6 : BitString
encoded6 = record { buf = 0x20 ∷ 0x01 ∷ 0x0D ∷ 0xB8 ∷ []; bits_unused = pos 0 }

abbrev prefix6 : Ipv6Prefix
prefix6 = record { addr = 0x2001_0DB8 * 2 ^ 96; len = 32 }

decoded6 : prefix6_decode encoded6 ≡ ok prefix6
unfolding prefix6_decode copy_addr6 be_value unused_bits addr6_bitwise_and common_bits byte
    ipv6_suffix_mask addr6_or_quadrant addr6_set_quadrant edit_quadrant set_byte u32_suffix_mask
decoded6 = refl

encoded6-AreBytes : AreBytes encoded6.buf
encoded6-AreBytes = ground arith

prefix6_decode-IsPrefix6_example : IsPrefix6 prefix6 × (32 + unused_bits (pos 0) ≡ 8 * 4)
prefix6_decode-IsPrefix6_example =
    prefix6_decode-IsPrefix6 encoded6 {p = prefix6} encoded6-AreBytes decoded6

ipv6_suffix_mask-eq_example : ipv6_suffix_mask 32 prefix6.addr ≡ with_suffix (128 - 32) prefix6.addr
ipv6_suffix_mask-eq_example = ipv6_suffix_mask-eq 32 prefix6.addr (omega arith)

ipv6_covered_iff_example :
    (ipv6_covered prefix6.addr 32 (prefix6.addr + 7) ≡ true)
    ↔ ((prefix6.addr + 7) / 2 ^ (128 - 32) ≡ prefix6.addr / 2 ^ (128 - 32))
ipv6_covered_iff_example =
    ipv6_covered_iff prefix6 (prefix6.addr + 7)
      (prefix6_decode-IsPrefix6 encoded6 {p = prefix6} encoded6-AreBytes decoded6).0 (omega arith)

-- 2001:db8:: to 2001:dba:ffff:...:ffff
abbrev encoded_range6 : AddressRange
encoded_range6 = record {
  min = encoded6;
  max = record { buf = 0x20 ∷ 0x01 ∷ 0x0D ∷ 0xBA ∷ []; bits_unused = pos 0 };
}

abbrev decoded_range6 : Ipv6Range
decoded_range6 = record { min = 0x2001_0DB8 * 2 ^ 96; max = 0x2001_0DBB * 2 ^ 96 - 1 }

range_decoded6 : range6_decode encoded_range6 ≡ ok decoded_range6
unfolding range6_decode range6_of check_order6 inverted_quadrants check_encoding6 could_be_prefix
    only_suffix6 skip_equal_bits only_suffix_bits addr6_get_quadrant prefix6_decode copy_addr6
    be_value unused_bits addr6_bitwise_and common_bits byte ipv6_suffix_mask addr6_or_quadrant
    addr6_set_quadrant edit_quadrant set_byte u32_suffix_mask
range_decoded6 = refl

range6_decode_ok_example :
    (decoded_range6.min ≤ decoded_range6.max)
    × (decoded_range6.max < 2 ^ 128)
    × ¬ (IsPrefixRange6 decoded_range6)
range6_decode_ok_example =
    range6_decode_ok encoded_range6 {r = decoded_range6} encoded6-AreBytes (ground arith)
      range_decoded6

check_encoding6_iff_example :
    (check_encoding6 decoded_range6 ≡ err einval) ↔ IsPrefixRange6 decoded_range6
check_encoding6_iff_example = check_encoding6_iff decoded_range6 (omega arith) (omega arith)

abbrev holding : List Node → ℕ → Option (Slot Node)
holding nodes n =
    some (record {
      array = record { array = nodes; count = n; len = 8; refcount = 1 };
      shared = false;
    })

-- A parent with 10.0.0.0/8 and the AS numbers 100 to 200.
abbrev parent : Resources
parent = record {
  ip4s = holding (record { min = 0x0A00_0000; max = 0x0AFF_FFFF } ∷ []) 1;
  ip6s = none;
  asns = holding (record { min = 100; max = 200 } ∷ []) 1;
  policy = rfc6484;
  force_inherit = false;
}

abbrev child : Resources
child = record { ip4s = none; ip6s = none; asns = none; policy = rfc8360; force_inherit = false }

parent-HaveRoom : HaveRoom 5 parent
parent-HaveRoom = record {
  ip4s = (
    record { counted = refl; room = omega arith; allocated = omega arith; sorted = ground arith },
    omega arith,
    omega arith,
  );
  ip6s = tt;
  asns = (
    record { counted = refl; room = omega arith; allocated = omega arith; sorted = ground arith },
    omega arith,
    omega arith,
  );
}

child-AreWithin : (n : ℕ) → AreWithin n parent child
child-AreWithin n = record {
  ip4s = record { room = tt; subset = λ a i. absurd i };
  ip6s = record { room = tt; subset = λ a i. absurd i };
  asns = record { room = tt; subset = λ a i. absurd i };
}

-- 10.1.0.0/16, and 11.0.0.0/8, which overclaims.
abbrev extension : AddressFamily
extension = record {
  address_family = 0 ∷ 1 ∷ [];
  ip_address_choice = addresses_or_ranges (
      address_prefix (record { buf = 10 ∷ 1 ∷ []; bits_unused = pos 0 })
      ∷ address_prefix (record { buf = 11 ∷ []; bits_unused = pos 0 })
      ∷ []);
}

abbrev filled_child : Resources
filled_child = record child {
  ip4s = holding (record { min = 0x0A01_0000; max = 0x0A01_FFFF } ∷ []) 1;
}

filled : resources_add_ip (some parent) extension child [] ≡ ok (filled_child, [])
unfolding resources_add_ip get_addr_family add_aors for_each add_aor add_prefix add_prefix4 inherits
    prefix4_decode copy_addr4 be_value bad_bits_unused unused_bits u32_suffix_mask overclaims
    res4_contains_prefix sarray_contains contains_loop get_nth_element pton r4_cmp claim add_to_slot
    allocation res4_create sarray_create add_existing res4_add_prefix sarray_add compare_last
    sarray_grow sarray_append put_nth_element
filled = refl

resources_add_ip-AreWithin_example : AreWithin 5 parent filled_child
resources_add_ip-AreWithin_example =
    resources_add_ip-AreWithin parent 5 parent-HaveRoom extension child filled_child [] []
      (omega arith) (ground arith) (child-AreWithin (2 + 5)) filled

abbrev as_numbers : AsIdentifiers ℕ
as_numbers = record {
  asnum = some (as_ids_or_ranges (AsIdOrRange.range 110 120 ∷ AsIdOrRange.id 300 ∷ []));
  rdi = false;
}

abbrev numbered_child : Resources
numbered_child = record child { asns = holding (record { min = 110; max = 120 } ∷ []) 1 }

numbered : resources_add_asn some (some parent) as_numbers true child [] ≡ ok (numbered_child, [])
unfolding resources_add_asn add_asiors for_each add_asior inherits as_id_to_ulong add_asn overclaims
    rasn_contains sarray_contains contains_loop get_nth_element asn_cmp claim add_to_slot allocation
    rasn_create sarray_create add_existing rasn_add sarray_add compare_last sarray_grow
    sarray_append put_nth_element
numbered = refl

resources_add_asn-AreWithin_example : AreWithin 5 parent numbered_child
resources_add_asn-AreWithin_example =
    resources_add_asn-AreWithin parent 5 parent-HaveRoom some as_numbers true child numbered_child
      [] [] (omega arith) (child-AreWithin (2 + 5)) numbered
