-- ===== src/Resource/Ip4.antt =====
-- resource/ip4.c: the IPv4 resources of a certificate, a sorted array of address ranges.
pub mod Prefixes
use Prim.Native.Nat.{bit_or}
use fort_validator.Base.{Bool, true, false, Option, none, some}
use fort_validator.Base.Results.{Result}
use fort_validator.SortedArray.{
  SortedArray, sarray_create, sarray_get, sarray_put, sarray_add, sarray_empty, sarray_contains,
}
use fort_validator.Range.{Node, r4_cmp}
use fort_validator.Address.{Ipv4Prefix, Ipv4Range, u32_suffix_mask}

abbrev pub ResourcesIpv4 : Type 0
ResourcesIpv4 = SortedArray Node

unfoldable pub pton : Ipv4Prefix → Node
pton p = record { min = p.addr; max = bit_or p.addr (u32_suffix_mask p.len) }

unfoldable pub rton : Ipv4Range → Node
rton r = record { min = r.min; max = r.max }

unfoldable pub res4_create : Bool → Option ResourcesIpv4
unfolding sarray_create
res4_create alloc = sarray_create Node alloc

unfoldable pub res4_get : ResourcesIpv4 → ResourcesIpv4
unfolding sarray_get
res4_get ips = sarray_get ips

unfoldable pub res4_put : ResourcesIpv4 → Option ResourcesIpv4
unfolding sarray_put
res4_put ips = sarray_put ips

unfoldable pub res4_add_prefix :
    Bool → ResourcesIpv4 → Ipv4Prefix → Result (Unit {0}) × ResourcesIpv4
unfolding pton
res4_add_prefix alloc ips prefix = sarray_add r4_cmp alloc ips (pton prefix)

unfoldable pub res4_add_range : Bool → ResourcesIpv4 → Ipv4Range → Result (Unit {0}) × ResourcesIpv4
unfolding rton
res4_add_range alloc ips range = sarray_add r4_cmp alloc ips (rton range)

unfoldable pub res4_empty : Option ResourcesIpv4 → Bool
unfolding sarray_empty
res4_empty ips = sarray_empty ips

unfoldable pub res4_contains_prefix : Option ResourcesIpv4 → Ipv4Prefix → Option Bool
unfolding pton
res4_contains_prefix none prefix = some false
res4_contains_prefix (some ips) prefix = sarray_contains r4_cmp (some ips) (pton prefix)

unfoldable pub res4_contains_range : Option ResourcesIpv4 → Ipv4Range → Option Bool
unfolding rton
res4_contains_range ips range = sarray_contains r4_cmp ips (rton range)
