-- ===== src/Resource/Asn.antt =====
-- resource/asn.c: the AS numbers of a certificate, a sorted array of ranges.
pub mod Foreach
use fort_validator.Base.{
  ℕ, zero, suc, ◌+◌, ◌-◌, ◌^◌, ◌%◌, Bool, true, false, Option, none, some, leb, ◌==◌, if◌then◌else◌,
}
use fort_validator.Base.Results.{Result, ok, crit, and_then}
use fort_validator.SortedArray.{
  SortedArray, sarray_create, sarray_get, sarray_put, sarray_add, sarray_empty, sarray_contains,
  sarray_foreach,
}
use fort_validator.Range.{Node, asn_cmp}

abbrev pub ResourcesAsn : Type 0
ResourcesAsn = SortedArray Node

abbrev pub ulong_max : ℕ
ulong_max = 2 ^ 64 - 1

unfoldable pub rasn_create : Bool → Option ResourcesAsn
unfolding sarray_create
rasn_create alloc = sarray_create Node alloc

unfoldable pub rasn_get : ResourcesAsn → ResourcesAsn
unfolding sarray_get
rasn_get asns = sarray_get asns

unfoldable pub rasn_put : ResourcesAsn → Option ResourcesAsn
unfolding sarray_put
rasn_put asns = sarray_put asns

unfoldable pub rasn_add : Bool → ResourcesAsn → ℕ → ℕ → Result (Unit {0}) × ResourcesAsn
rasn_add alloc asns min max = sarray_add asn_cmp alloc asns (record { min = min; max = max })

unfoldable pub rasn_empty : Option ResourcesAsn → Bool
unfolding sarray_empty
rasn_empty asns = sarray_empty asns

unfoldable pub rasn_contains : Option ResourcesAsn → ℕ → ℕ → Option Bool
rasn_contains asns min max = sarray_contains asn_cmp asns (record { min = min; max = max })

module _ {S : Type 0} (cb : ℕ → S → Result (Unit {0}) × S) where
  -- The loop of asn_node_cb() from `index` on, an unsigned long of 64 bits, with fuel; out of fuel is
  -- `crit`.
  unfoldable pub asn_loop : ℕ → ℕ → ℕ → S → Result (Unit {0}) × S
  asn_loop zero max index s = (crit, s)
  asn_loop (suc fuel) max index s = elim (leb index max) [
    | false ↦ (ok tt, s)
    | true ↦ and_then (cb index s) (λ s'. elim (index == ulong_max) [
      | true ↦ (ok tt, s')
      | false ↦ asn_loop fuel max ((index + 1) % 2 ^ 64) s'
    ])
  ]

  unfoldable pub asn_node_cb : Node → S → Result (Unit {0}) × S
  unfolding asn_loop
  asn_node_cb node s = asn_loop (node.max - node.min + 2) node.max node.min s

  -- rasn_get() and rasn_put() around the walk cancel out.
  unfoldable pub rasn_foreach : ResourcesAsn → S → Result (Unit {0}) × S
  unfolding sarray_foreach asn_node_cb
  rasn_foreach asns s = sarray_foreach asns asn_node_cb s
