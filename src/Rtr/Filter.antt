-- ===== src/Rtr/Filter.antt =====
-- rtr/db/vrps.c: vrps_foreach_filtered_delta(), which removes the announcements and withdrawals
-- that override each other before it passes the rest on.
pub mod Cancel
pub mod Net
pub mod Ends
use fort_validator.Base.{
  ℕ, ◌≡◌, Bool, true, false, not, Option, none, some, List, [], ◌∷◌, ◌&&◌, if◌then◌else◌, arith,
}
use fort_validator.Base.Results.{Result, ok, err, crit, walk}
use fort_validator.Base.Memory.{Memory, Alloc, pure, malloc, ◌>>◌}
use fort_validator.Rtr.Keys.{Eq, ◌=?◌}
use fort_validator.Rtr.Vrp.{Vrp, RouterKey, Delta, flag_eq, vrp_keys, router_key_keys}
use fort_validator.Rtr.Deltas.{Deltas, deltas_foreach}

-- struct delta_group
pub record DeltaGroup : Type 0 where
  pub serial : ℕ
  pub deltas : Deltas

-- struct sorted_lists, with the memory that is left.
pub record SortedLists : Type 0 where
  pub prefixes : List (Delta Vrp)
  pub router_keys : List (Delta RouterKey)
  pub memory : Memory

-- The loops that look for a node with the same key and the other flag, and remove it.
unfoldable pub cancel : {K : Type 0} ⦃e : Eq K⦄ → Delta K → List (Delta K) → Option (List (Delta K))
cancel delta [] = none
cancel delta (ptr ∷ nodes) =
    let rest = cancel delta nodes in
    if (delta.key =? ptr.key) && not (flag_eq delta.flags ptr.flags)
    then some nodes
    else elim rest [ none ↦ none | some l ↦ some (ptr ∷ l) ]

-- What both callbacks do to their list: remove the node that the change overrides, or insert the
-- change in a new node.
unfoldable pub ovrd_remove :
    {K : Type 0} ⦃e : Eq K⦄ → Delta K → List (Delta K) → Alloc (List (Delta K))
ovrd_remove delta nodes = elim (cancel delta nodes) [
  | some l ↦ pure l
  | none ↦ malloc >> pure (delta ∷ nodes)
]

-- A result that is stored in a state, which stays as it is after an error.
abbrev pub store :
    {A S : Type 0} → (A → Memory → S) → S → Result (A × Memory) → Result (Unit {0}) × S
store put s (ok (a, m)) = (ok tt, put a m)
store put s (err error) = (err error, s)
store put s crit = (crit, s)

unfoldable pub vrp_ovrd_remove : Delta Vrp → SortedLists → Result (Unit {0}) × SortedLists
vrp_ovrd_remove delta lists =
    store (λ l m. record lists { prefixes = l; memory = m }) lists
      (ovrd_remove delta lists.prefixes lists.memory)

unfoldable pub router_key_ovrd_remove :
    Delta RouterKey → SortedLists → Result (Unit {0}) × SortedLists
router_key_ovrd_remove delta lists =
    store (λ l m. record lists { router_keys = l; memory = m }) lists
      (ovrd_remove delta lists.router_keys lists.memory)

-- The loop that fills the filtered lists.
unfoldable pub filter_deltas : List DeltaGroup → Memory → Result (Unit {0}) × SortedLists
unfolding walk deltas_foreach vrp_ovrd_remove router_key_ovrd_remove
filter_deltas groups m =
    walk (λ group. deltas_foreach group.serial group.deltas vrp_ovrd_remove router_key_ovrd_remove)
      groups (record { prefixes = []; router_keys = []; memory = m })

-- A loop that stops at the first error, where `error` already has a value.
unfoldable pub overwrite :
    {A S : Type 0}
    → (A → S → Result (Unit {0}) × S)
    → List A
    → Result (Unit {0}) × S
    → Result (Unit {0}) × S
overwrite cb nodes (crit, s) = (crit, s)
overwrite cb [] (error, s) = (error, s)
overwrite cb (n ∷ nodes) (error, s) = walk cb (n ∷ nodes) s

module _ {S : Type 0} where
  unfoldable pub vrps_foreach_filtered_delta :
      List DeltaGroup
      → (Delta Vrp → S → Result (Unit {0}) × S)
      → (Delta RouterKey → S → Result (Unit {0}) × S)
      → Memory
      → S
      → Result (Unit {0}) × S
  unfolding filter_deltas overwrite walk
  vrps_foreach_filtered_delta groups cb_prefix cb_rk m s =
      let (error, lists) = filter_deltas groups m in
      elim error [
        | ok _ ↦ overwrite cb_rk lists.router_keys (walk cb_prefix lists.prefixes s)
        | err e ↦ (err e, s)
        | crit ↦ (crit, s)
      ]
