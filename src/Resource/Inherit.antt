-- ===== src/Resource/Inherit.antt =====
-- src/resource.c: the IP addresses and AS numbers that one certificate holds, read from its
-- extensions and checked against those of its parent.
pub mod Subset
pub mod Within
use fort_validator.Base.{
  ℕ, ◌+◌, ◌^◌, Bool, true, false, not, ◌&&◌, Option, none, some, List, [], ◌∷◌, ltb, ◌==◌,
  if◌then◌else◌, length,
}
use fort_validator.Base.Results.{Result, ok, err, crit, reject, einval, enomem}
use fort_validator.Base.Memory.{Alloc, pure, ◌>>=◌, ◌>>◌, allocation, lift, for_each}
use fort_validator.SortedArray.{SortedArray}
use fort_validator.Range.{Node}
use fort_validator.Address.{BitString, AddressRange, Ipv4Prefix, prefix4_decode, range4_decode}
use fort_validator.Address.Ipv6.{Ipv6Prefix, Ipv6Range, prefix6_decode, range6_decode}
use fort_validator.Resource.Slots.{
  Policy, rfc6484, Slot, Resources, array_of, inherits, inherit_slot, overclaims, add_to_slot,
  claim,
}
use fort_validator.Resource.Ip4.{
  res4_create, res4_add_prefix, res4_add_range, res4_contains_prefix, res4_contains_range,
  res4_empty,
}
use fort_validator.Resource.Ip6.{
  res6_create, res6_add_prefix, res6_add_range, res6_contains_prefix, res6_contains_range,
  res6_empty,
}
use fort_validator.Resource.Asn.{rasn_create, rasn_add, rasn_contains, rasn_empty, rasn_foreach}
use fort_validator.Resource.Extension.{
  AddressOrRange, address_prefix, address_range, AddressChoice, addresses_or_ranges, AddressFamily,
  AsIdOrRange, AsIdentifierChoice, as_ids_or_ranges, AsIdentifiers,
}

unfoldable pub resources_create : Bool → Alloc Resources
resources_create force_inherit = do
  allocated ← allocation
  lift (reject (not allocated) enomem)
  pure (record {
    ip4s = none;
    ip6s = none;
    asns = none;
    policy = rfc6484;
    force_inherit = force_inherit;
  })

-- AF_INET and AF_INET6
pub data Family : Type 0 where
  inet inet6 : Family

-- `none` is the -1 of an unknown family.
unfoldable pub get_addr_family : List ℕ → Option Family
get_addr_family (high ∷ low ∷ []) =
    if not (high == 0)
    then none
    else if low == 1
    then some inet
    else if low == 2
    then some inet6
    else none
get_addr_family _ = none

unfoldable pub inherit_aors : Option Resources → Family → Resources → Alloc Resources
inherit_aors none family resources = lift crit
inherit_aors (some parent) inet resources = do
  ip4s ← inherit_slot resources.ip4s parent.ip4s
  pure (record resources { ip4s = ip4s })
inherit_aors (some parent) inet6 resources = do
  ip6s ← inherit_slot resources.ip6s parent.ip6s
  pure (record resources { ip6s = ip6s })

unfoldable pub add_prefix4 : Option Resources → BitString → Resources → Alloc Resources
add_prefix4 parent addr resources = do
  lift (reject (inherits (λ r. r.ip4s) parent resources) einval)
  prefix ← lift (prefix4_decode addr)
  over ← lift (overclaims (λ p. res4_contains_prefix (array_of p.ip4s) prefix) parent)
  claim resources.policy over resources (do
    ip4s ← add_to_slot res4_create (λ alloc ips. res4_add_prefix alloc ips prefix) resources.ip4s
    pure (record resources { ip4s = ip4s }))

unfoldable pub add_prefix6 : Option Resources → BitString → Resources → Alloc Resources
add_prefix6 parent addr resources = do
  lift (reject (inherits (λ r. r.ip6s) parent resources) einval)
  prefix ← lift (prefix6_decode addr)
  over ← lift (overclaims (λ p. res6_contains_prefix (array_of p.ip6s) prefix) parent)
  claim resources.policy over resources (do
    ip6s ← add_to_slot res6_create (λ alloc ips. res6_add_prefix alloc ips prefix) resources.ip6s
    pure (record resources { ip6s = ip6s }))

unfoldable pub add_prefix : Option Resources → Family → BitString → Resources → Alloc Resources
add_prefix parent inet addr resources = add_prefix4 parent addr resources
add_prefix parent inet6 addr resources = add_prefix6 parent addr resources

unfoldable pub add_range4 : Option Resources → AddressRange → Resources → Alloc Resources
add_range4 parent input resources = do
  lift (reject (inherits (λ r. r.ip4s) parent resources) einval)
  range ← lift (range4_decode input)
  over ← lift (overclaims (λ p. res4_contains_range (array_of p.ip4s) range) parent)
  claim resources.policy over resources (do
    ip4s ← add_to_slot res4_create (λ alloc ips. res4_add_range alloc ips range) resources.ip4s
    pure (record resources { ip4s = ip4s }))

unfoldable pub add_range6 : Option Resources → AddressRange → Resources → Alloc Resources
add_range6 parent input resources = do
  lift (reject (inherits (λ r. r.ip6s) parent resources) einval)
  range ← lift (range6_decode input)
  over ← lift (overclaims (λ p. res6_contains_range (array_of p.ip6s) range) parent)
  claim resources.policy over resources (do
    ip6s ← add_to_slot res6_create (λ alloc ips. res6_add_range alloc ips range) resources.ip6s
    pure (record resources { ip6s = ip6s }))

unfoldable pub add_range : Option Resources → Family → AddressRange → Resources → Alloc Resources
add_range parent inet input resources = add_range4 parent input resources
add_range parent inet6 input resources = add_range6 parent input resources

-- A round of the loop of add_aors().
unfoldable pub add_aor : Option Resources → Family → AddressOrRange → Resources → Alloc Resources
add_aor parent family (address_prefix addr) resources = add_prefix parent family addr resources
add_aor parent family (address_range input) resources = add_range parent family input resources
add_aor parent family AddressOrRange.nothing resources = lift (err einval)

unfoldable pub add_aors :
    Option Resources → Family → List AddressOrRange → Resources → Alloc Resources
add_aors parent family aors resources = do
  lift (reject resources.force_inherit einval)
  lift (reject (length aors == 0) einval)
  for_each (add_aor parent family) aors resources

unfoldable pub resources_add_ip : Option Resources → AddressFamily → Resources → Alloc Resources
resources_add_ip parent obj resources = elim (get_addr_family obj.address_family) [
  | none ↦ lift (err einval)
  | some family ↦ elim obj.ip_address_choice [
    | AddressChoice.nothing ↦ lift (err einval)
    | AddressChoice.inherit ↦ inherit_aors parent family resources
    | addresses_or_ranges aors ↦ add_aors parent family aors resources
  ]
]

unfoldable pub inherit_asiors : Option Resources → Resources → Alloc Resources
inherit_asiors none resources = lift crit
inherit_asiors (some parent) resources = do
  asns ← inherit_slot resources.asns parent.asns
  pure (record resources { asns = asns })

unfoldable pub add_asn : ℕ → ℕ → Option Resources → Resources → Alloc Resources
add_asn min max parent resources = do
  lift (reject (ltb max min) einval)
  over ← lift (overclaims (λ p. rasn_contains (array_of p.asns) min max) parent)
  claim resources.policy over resources (do
    asns ← add_to_slot rasn_create (λ alloc asns. rasn_add alloc asns min max) resources.asns
    pure (record resources { asns = asns }))

-- asn_INTEGER2ulong() is asn1c's; it gives an unsigned long, or nothing if it fails.
module _ {I : Type 0} (asn_integer_to_ulong : I → Option ℕ) where
  unfoldable pub as_id_to_ulong : I → Result ℕ
  as_id_to_ulong as_id = elim (asn_integer_to_ulong as_id) [
    | none ↦ err einval
    | some result ↦ if ltb 0xFFFF_FFFF result then err einval else ok result
  ]

  unfoldable pub add_asior : Option Resources → AsIdOrRange I → Resources → Alloc Resources
  add_asior parent obj resources = do
    lift (reject (inherits (λ r. r.asns) parent resources) einval)
    elim obj [
      | AsIdOrRange.nothing ↦ lift (err einval)
      | AsIdOrRange.id as_id ↦
          lift (as_id_to_ulong as_id) >>= λ asn. add_asn asn asn parent resources
      | AsIdOrRange.range min max ↦ lift (as_id_to_ulong min) >>= λ asn_min.
          lift (as_id_to_ulong max) >>= λ asn_max. add_asn asn_min asn_max parent resources
    ]

  unfoldable pub add_asiors : Option Resources → List (AsIdOrRange I) → Resources → Alloc Resources
  add_asiors parent iors resources = do
    lift (reject resources.force_inherit einval)
    lift (reject (length iors == 0) einval)
    for_each (add_asior parent) iors resources

  unfoldable pub resources_add_asn :
      Option Resources → AsIdentifiers I → Bool → Resources → Alloc Resources
  resources_add_asn parent ids allow_inherit resources = elim ids.asnum [
    | none ↦ lift (err einval)
    | some choice ↦ do
      lift (reject ids.rdi einval)
      elim choice [
        | AsIdentifierChoice.nothing ↦ lift (err einval)
        | AsIdentifierChoice.inherit ↦
            lift (reject (not allow_inherit) einval) >> inherit_asiors parent resources
        | as_ids_or_ranges iors ↦ add_asiors parent iors resources
      ]
  ]

unfoldable pub resources_empty : Resources → Bool
resources_empty res =
    rasn_empty (array_of res.asns)
    && res4_empty (array_of res.ip4s)
    && res6_empty (array_of res.ip6s)

unfoldable pub resources_contains_asn : Resources → ℕ → Option Bool
resources_contains_asn res asn = rasn_contains (array_of res.asns) asn asn

unfoldable pub resources_contains_ipv4 : Resources → Ipv4Prefix → Option Bool
resources_contains_ipv4 res prefix = res4_contains_prefix (array_of res.ip4s) prefix

unfoldable pub resources_contains_ipv6 : Resources → Ipv6Prefix → Option Bool
resources_contains_ipv6 res prefix = res6_contains_prefix (array_of res.ip6s) prefix

unfoldable pub resources_get_policy : Resources → Policy
resources_get_policy res = res.policy

unfoldable pub resources_set_policy : Resources → Policy → Resources
resources_set_policy res policy = record res { policy = policy }

-- A null pointer is dereferenced, which is `crit`.
unfoldable pub resources_foreach_asn :
    {S : Type 0} → Resources → (ℕ → S → Result (Unit {0}) × S) → S → Result (Unit {0}) × S
resources_foreach_asn res cb s = elim (array_of res.asns) [
  | none ↦ (crit, s)
  | some asns ↦ rasn_foreach cb asns s
]
