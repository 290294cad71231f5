-- ===== src/Range.antt =====
-- The comparison callbacks of resource/asn.c and resource/ip4.c, and the ranges that they compare.
pub mod Order
pub mod Cover
pub mod Search
pub mod Add
use fort_validator.Base.{ℕ, ◌-◌, ◌≤◌, ◌&&◌, ◌==◌, not, ltb, leb, if◌then◌else◌}
use fort_validator.SortedArray.{
  Comparison, equal, child, parent, left, right, adjacent_left, adjacent_right, intersection,
}

-- struct asn_node and struct r4_node; the second holds addresses in host byte order.
pub record Node : Type 0 where
  pub min : ℕ
  pub max : ℕ

-- The numbers that a range holds.
abbrev pub InNode : ℕ → Node → Type 0
InNode a n = (n.min ≤ a) × (a ≤ n.max)

unfoldable pub asn_cmp : Node → Node → Comparison
asn_cmp a b =
    if a.min == b.min && a.max == b.max
    then equal
    else if leb a.min b.min && leb b.max a.max
    then child
    else if leb b.min a.min && leb a.max b.max
    then parent
    else if not (b.min == 0) && a.max == b.min - 1
    then adjacent_right
    else if ltb a.max b.min
    then right
    else if not (a.min == 0) && b.max == a.min - 1
    then adjacent_left
    else if ltb b.max a.min
    then left
    else intersection

unfoldable pub r4_cmp : Node → Node → Comparison
r4_cmp a b =
    if a.min == b.min && a.max == b.max
    then equal
    else if leb a.min b.min && leb b.max a.max
    then child
    else if leb b.min a.min && leb a.max b.max
    then parent
    else if not (b.min == 0) && a.max == b.min - 1
    then adjacent_right
    else if ltb a.max b.min
    then right
    else if not (a.min == 0) && b.max == a.min - 1
    then adjacent_left
    else if ltb b.max a.min
    then left
    else intersection
