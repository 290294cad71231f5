-- ===== src/Resource/Ip6.antt =====
-- resource/ip6.c: the IPv6 resources of a certificate, a sorted array of address ranges.
pub mod Order
use Prim.Native.Nat.{compare, Ordering}
use fort_validator.Base.{
  ℕ, zero, suc, ◌+◌, ◌-◌, Bool, true, false, ◌&&◌, Option, none, some, ◌==◌, if◌then◌else◌,
}
use fort_validator.Base.Results.{Result}
use fort_validator.SortedArray.{
  SortedArray, Comparison, equal, child, parent, left, right, adjacent_left, adjacent_right,
  intersection, sarray_create, sarray_get, sarray_put, sarray_add, sarray_empty, sarray_contains,
}
use fort_validator.Address.Ipv6.{Ipv6Prefix, Ipv6Range, byte, set_byte, ipv6_suffix_mask}

abbrev pub ResourcesIpv6 : Type 0
ResourcesIpv6 = SortedArray Ipv6Range

-- What the first bytes that differ say.
abbrev pub or_else : Ordering → Ordering → Ordering
or_else Ordering.lt rest = Ordering.lt
or_else Ordering.eq rest = rest
or_else Ordering.gt rest = Ordering.gt

-- memcmp() of the last `n` bytes.
unfoldable pub memcmp : ℕ → ℕ → ℕ → Ordering
unfolding byte
memcmp zero a b = Ordering.eq
memcmp (suc n) a b = or_else (compare (byte a n) (byte b n)) (memcmp n a b)

unfoldable pub addr_cmp : ℕ → ℕ → Ordering
unfolding memcmp
addr_cmp a b = memcmp 16 a b

unfoldable pub addr_equals : ℕ → ℕ → Bool
addr_equals a b = elim (addr_cmp a b) [ Ordering.eq ↦ true | _ ↦ false ]

unfoldable pub addr_le : ℕ → ℕ → Bool
addr_le a b = elim (addr_cmp a b) [ Ordering.gt ↦ false | _ ↦ true ]

unfoldable pub addr_lt : ℕ → ℕ → Bool
addr_lt a b = elim (addr_cmp a b) [ Ordering.lt ↦ true | _ ↦ false ]

-- The loop of addr_is_successor(), with `n` bytes left.
unfoldable pub increment : ℕ → ℕ → ℕ → Bool
increment zero a_plus_1 b = false
increment (suc n) a_plus_1 b =
    let i = 15 - n in
    elim (byte a_plus_1 i == 0xFF) [
      | false ↦ addr_equals (set_byte a_plus_1 i (byte a_plus_1 i + 1)) b
      | true ↦ increment n (set_byte a_plus_1 i 0) b
    ]

unfoldable pub addr_is_successor : ℕ → ℕ → Bool
unfolding increment
addr_is_successor a b = increment 16 a b

unfoldable pub r6_cmp : Ipv6Range → Ipv6Range → Comparison
r6_cmp a1 a2 =
    if addr_equals a1.min a2.min && addr_equals a1.max a2.max
    then equal
    else if addr_le a1.min a2.min && addr_le a2.max a1.max
    then child
    else if addr_le a2.min a1.min && addr_le a1.max a2.max
    then parent
    else if addr_is_successor a1.max a2.min
    then adjacent_right
    else if addr_lt a1.max a2.min
    then right
    else if addr_is_successor a2.max a1.min
    then adjacent_left
    else if addr_lt a2.max a1.min
    then left
    else intersection

unfoldable pub ptor : Ipv6Prefix → Ipv6Range
ptor p = record { min = p.addr; max = ipv6_suffix_mask p.len p.addr }

unfoldable pub res6_create : Bool → Option ResourcesIpv6
unfolding sarray_create
res6_create alloc = sarray_create Ipv6Range alloc

unfoldable pub res6_get : ResourcesIpv6 → ResourcesIpv6
unfolding sarray_get
res6_get ips = sarray_get ips

unfoldable pub res6_put : ResourcesIpv6 → Option ResourcesIpv6
unfolding sarray_put
res6_put ips = sarray_put ips

unfoldable pub res6_add_prefix :
    Bool → ResourcesIpv6 → Ipv6Prefix → Result (Unit {0}) × ResourcesIpv6
unfolding ptor
res6_add_prefix alloc ips prefix = sarray_add r6_cmp alloc ips (ptor prefix)

unfoldable pub res6_add_range : Bool → ResourcesIpv6 → Ipv6Range → Result (Unit {0}) × ResourcesIpv6
res6_add_range alloc ips range = sarray_add r6_cmp alloc ips range

unfoldable pub res6_empty : Option ResourcesIpv6 → Bool
unfolding sarray_empty
res6_empty ips = sarray_empty ips

unfoldable pub res6_contains_prefix : Option ResourcesIpv6 → Ipv6Prefix → Option Bool
unfolding ptor
res6_contains_prefix ips prefix = sarray_contains r6_cmp ips (ptor prefix)

unfoldable pub res6_contains_range : Option ResourcesIpv6 → Ipv6Range → Option Bool
res6_contains_range ips range = sarray_contains r6_cmp ips range
