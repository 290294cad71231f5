-- ===== src/Resource/Slots.antt =====
-- The pieces of src/resource.c that its functions for IPv4, IPv6 and AS numbers share: the slots of
-- `struct resources`, inheritance, and the addition of one resource. A slot is `none` where the C
-- pointer is null.
pub mod Claims
use fort_validator.Base.{Bool, true, false, not, Option, none, some}
use fort_validator.Base.Results.{Result, ok, err, crit, einval, enomem}
use fort_validator.Base.Memory.{Alloc, pure, ◌>>=◌, allocation, lift}
use fort_validator.SortedArray.{SortedArray}
use fort_validator.Range.{Node}
use fort_validator.Address.Ipv6.{Ipv6Range}

-- enum rpki_policy
pub data Policy : Type 0 where
  rfc6484 rfc8360 : Policy

-- A pointer to a sorted array that is not null. `shared` says that it is the pointer of the
-- parent's resources.
pub record Slot (A : Type 0) : Type 0 where
  pub array : SortedArray A
  pub shared : Bool

-- struct resources
pub record Resources : Type 0 where
  pub ip4s : Option (Slot Node)
  pub ip6s : Option (Slot Ipv6Range)
  pub asns : Option (Slot Node)
  pub policy : Policy
  pub force_inherit : Bool

abbrev pub array_of : {A : Type 0} → Option (Slot A) → Option (SortedArray A)
array_of none = none
array_of (some slot) = some slot.array

-- resources->slot == parent->slot
abbrev pub same_pointer : {A : Type 0} → Option (Slot A) → Option (Slot A) → Bool
same_pointer none none = true
same_pointer (some slot) (some _) = slot.shared
same_pointer _ _ = false

-- (parent != NULL) && (resources->slot == parent->slot)
unfoldable pub inherits :
    {A : Type 0} → (Resources → Option (Slot A)) → Option Resources → Resources → Bool
inherits slot none resources = false
inherits slot (some parent) resources = same_pointer (slot resources) (slot parent)

-- The parent's pointer. The reference count that it gains is not followed.
abbrev pub share : {A : Type 0} → Option (Slot A) → Option (Slot A)
share none = none
share (some slot) = some (record slot { shared = true })

unfoldable pub inherit_slot :
    {A : Type 0} → Option (Slot A) → Option (Slot A) → Alloc (Option (Slot A))
inherit_slot (some _) parents = lift (err einval)
inherit_slot none parents = pure (share parents)

-- parent && !contains(parent->slot); a search that gives no answer is `crit`.
unfoldable pub overclaims : (Resources → Option Bool) → Option Resources → Result Bool
overclaims contains none = ok false
overclaims contains (some parent) = elim (contains parent) [ none ↦ crit | some b ↦ ok (not b) ]

-- What an addition gives; the array after an error is not described.
abbrev pub added :
    {A : Type 0} → Slot A → Result (Unit {0}) × SortedArray A → Result (Option (Slot A))
added slot (ok _, array) = ok (some (record slot { array = array }))
added slot (err e, array) = err e
added slot (crit, array) = crit

unfoldable pub add_existing :
    {A : Type 0}
    → (Bool → SortedArray A → Result (Unit {0}) × SortedArray A)
    → Slot A
    → Alloc (Option (Slot A))
add_existing add slot = do allocated ← allocation; lift (added slot (add allocated slot.array))

-- The creation of the array, where there is none, and the addition to it.
unfoldable pub add_to_slot :
    {A : Type 0}
    → (Bool → Option (SortedArray A))
    → (Bool → SortedArray A → Result (Unit {0}) × SortedArray A)
    → Option (Slot A)
    → Alloc (Option (Slot A))
add_to_slot create add (some slot) = add_existing add slot
add_to_slot create add none = do
  allocated ← allocation
  elim (create allocated) [
    | none ↦ lift (err enomem)
    | some array ↦ add_existing add (record { array = array; shared = false })
  ]

-- What becomes of a resource that the parent does not hold: RFC 6484 refuses the certificate,
-- RFC 8360 leaves the resource out.
unfoldable pub claim : Policy → Bool → Resources → Alloc Resources → Alloc Resources
claim policy false resources add = add
claim rfc6484 true resources add = lift (err einval)
claim rfc8360 true resources add = pure resources
