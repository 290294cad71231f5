-- ===== src/Rtr/Filter/Ends.antt =====
-- The filter of vrps.c ends without an error while memory lasts.
use fort_validator.Base.{◌≡◌, refl, ◌∙◌, ap, Option, none, some, List, [], ◌∷◌}
use fort_validator.Base.Results.{ok, and_then, walk, walk_ok}
use fort_validator.Base.Memory.{malloc}
use fort_validator.Rtr.Keys.{Eq}
use fort_validator.Rtr.Vrp.{Vrp, RouterKey, Delta, vrp_keys, router_key_keys}
use fort_validator.Rtr.Deltas.{deltas_foreach}
use fort_validator.Rtr.Deltas.Events.{vrp_events, key_events, deltas_foreach-eq-walk}
use fort_validator.Rtr.Filter.{
  DeltaGroup, SortedLists, cancel, ovrd_remove, vrp_ovrd_remove, router_key_ovrd_remove,
  filter_deltas,
}

ovrd_remove_ok :
    {K : Type 0} ⦃e : Eq K⦄ (delta : Delta K) (nodes : List (Delta K))
    → (l : List (Delta K)) × (ovrd_remove delta nodes [] ≡ ok (l, []))
unfolding ovrd_remove malloc
ovrd_remove_ok {K} ⦃e⦄ delta nodes = go (cancel delta nodes) refl
  where
    go :
        (o : Option (List (Delta K)))
        → cancel delta nodes ≡ o
        → (l : List (Delta K)) × (ovrd_remove delta nodes [] ≡ ok (l, []))
    go none c = (delta ∷ nodes, rw (c, ovrd_remove) refl)
    go (some l) c = (l, rw (c, ovrd_remove) refl)

abbrev Plenty : SortedLists → Type 0
Plenty lists = lists.memory ≡ []

vrp_ovrd_remove_ok :
    (delta : Delta Vrp) (lists : SortedLists)
    → Plenty lists
    → (lists' : SortedLists) × (vrp_ovrd_remove delta lists ≡ (ok tt, lists')) × Plenty lists'
unfolding vrp_ovrd_remove
vrp_ovrd_remove_ok delta lists p =
    let (l, h) = ovrd_remove_ok delta lists.prefixes in
    (record lists { prefixes = l; memory = [] }, rw (p, h) refl, refl)

router_key_ovrd_remove_ok :
    (delta : Delta RouterKey) (lists : SortedLists)
    → Plenty lists
    → (lists' : SortedLists) × (router_key_ovrd_remove delta lists ≡ (ok tt, lists'))
      × Plenty lists'
unfolding router_key_ovrd_remove
router_key_ovrd_remove_ok delta lists p =
    let (l, h) = ovrd_remove_ok delta lists.router_keys in
    (record lists { router_keys = l; memory = [] }, rw (p, h) refl, refl)

deltas_foreach_ok :
    (g : DeltaGroup) (lists : SortedLists)
    → Plenty lists
    → (lists' : SortedLists) × (deltas_foreach g.serial g.deltas vrp_ovrd_remove
          router_key_ovrd_remove lists
        ≡ (ok tt, lists'))
      × Plenty lists'
deltas_foreach_ok g lists p =
    let (l1, e1, p1) =
      walk_ok vrp_ovrd_remove Plenty vrp_ovrd_remove_ok (vrp_events g.serial g.deltas) lists p in
    let (l2, e2, p2) =
      walk_ok router_key_ovrd_remove Plenty router_key_ovrd_remove_ok (key_events g.serial g.deltas)
        l1 p1 in
    (
      l2,
      deltas_foreach-eq-walk g.serial g.deltas vrp_ovrd_remove router_key_ovrd_remove lists
          ∙ ap (λ r. and_then r (walk router_key_ovrd_remove (key_events g.serial g.deltas))) e1
          ∙ e2,
      p2,
    )

-- While memory lasts, the filter succeeds on any groups of deltas.
pub filter_deltas_ok :
    (groups : List DeltaGroup) → (lists : SortedLists) × (filter_deltas groups [] ≡ (ok tt, lists))
unfolding filter_deltas
filter_deltas_ok groups =
    let (lists, e, p) =
      walk_ok
        (λ group. deltas_foreach group.serial group.deltas vrp_ovrd_remove router_key_ovrd_remove)
        Plenty deltas_foreach_ok groups (record { prefixes = []; router_keys = []; memory = [] })
        refl in
    (lists, e)
