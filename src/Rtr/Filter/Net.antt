-- ===== src/Rtr/Filter/Net.antt =====
-- What the filter of vrps.c keeps: the net effect of the deltas, each change at most one way.
use mathlib.Core.List.{append_assoc, append-nil}
use fort_validator.Base.{subst, ◌≡◌, refl, ap, ◌∙◌, sym, List, [], ◌∷◌, ◌++◌}
use fort_validator.Base.Results.{Result, ok, err, crit, walk, walk-keeps, and_then-eq-ok}
use fort_validator.Base.Memory.{Memory}
use fort_validator.Rtr.Vrp.{Vrp, RouterKey, Delta, vrp_keys, router_key_keys}
use fort_validator.Rtr.Deltas.{deltas_foreach}
use fort_validator.Rtr.Deltas.Events.{vrp_events, key_events, deltas_foreach-eq-walk}
use fort_validator.Rtr.Filter.Cancel.{Net, Net-ovrd_remove}
use fort_validator.Rtr.Filter.{
  DeltaGroup, SortedLists, vrp_ovrd_remove, router_key_ovrd_remove, filter_deltas, ovrd_remove,
  store,
}

-- The state after a call that stored its result.
stored :
    {A S : Type 0} (put : A → Memory → S) (s : S) (r : Result (A × Memory)) {s' : S}
    → store put s r ≡ (ok tt, s')
    → (a : A × Memory) × (r ≡ ok a) × (put a.0 a.1 ≡ s')
stored put s (ok a) h = (a, refl, ap (λ p. p.1) h)
stored put s (err e) h = cc
stored put s crit h = cc

-- What the filter's lists hold after the changes of a list for payloads and of one for keys.
abbrev Filtered : List (Delta Vrp) → List (Delta RouterKey) → SortedLists → Type 0
Filtered vrps keys lists = Net vrps lists.prefixes × Net keys lists.router_keys

Filtered-vrp_ovrd_remove :
    (vrps : List (Delta Vrp)) (keys : List (Delta RouterKey)) (delta : Delta Vrp)
    (lists lists' : SortedLists)
    → vrp_ovrd_remove delta lists ≡ (ok tt, lists')
    → Filtered vrps keys lists
    → Filtered (vrps ++ delta ∷ []) keys lists'
unfolding vrp_ovrd_remove
Filtered-vrp_ovrd_remove vrps keys delta lists lists' h f =
    let (a, h1, h2) = stored _ lists (ovrd_remove delta lists.prefixes lists.memory) h in
    subst (Filtered (vrps ++ delta ∷ []) keys) h2
      (Net-ovrd_remove vrps delta lists.prefixes lists.memory {r = a} h1 f.0, f.1)

Filtered-router_key_ovrd_remove :
    (vrps : List (Delta Vrp)) (keys : List (Delta RouterKey)) (delta : Delta RouterKey)
    (lists lists' : SortedLists)
    → router_key_ovrd_remove delta lists ≡ (ok tt, lists')
    → Filtered vrps keys lists
    → Filtered vrps (keys ++ delta ∷ []) lists'
unfolding router_key_ovrd_remove
Filtered-router_key_ovrd_remove vrps keys delta lists lists' h f =
    let (a, h1, h2) = stored _ lists (ovrd_remove delta lists.router_keys lists.memory) h in
    subst (Filtered vrps (keys ++ delta ∷ [])) h2
      (f.0, Net-ovrd_remove keys delta lists.router_keys lists.memory {r = a} h1 f.1)

-- The events of all groups, in order.
abbrev pub all_vrp_events : List DeltaGroup → List (Delta Vrp)
all_vrp_events [] = []
all_vrp_events (g ∷ groups) = vrp_events g.serial g.deltas ++ all_vrp_events groups

abbrev pub all_key_events : List DeltaGroup → List (Delta RouterKey)
all_key_events [] = []
all_key_events (g ∷ groups) = key_events g.serial g.deltas ++ all_key_events groups

Filtered-deltas_foreach :
    (vrps : List (Delta Vrp)) (keys : List (Delta RouterKey)) (g : DeltaGroup)
    (lists lists' : SortedLists)
    → deltas_foreach g.serial g.deltas vrp_ovrd_remove router_key_ovrd_remove lists
      ≡ (ok tt, lists')
    → Filtered vrps keys lists
    → Filtered (vrps ++ vrp_events g.serial g.deltas) (keys ++ key_events g.serial g.deltas) lists'
Filtered-deltas_foreach vrps keys g lists lists' h f =
    let (l1, h1, h2) =
      and_then-eq-ok (walk vrp_ovrd_remove (vrp_events g.serial g.deltas) lists)
        (walk router_key_ovrd_remove (key_events g.serial g.deltas))
        (sym (deltas_foreach-eq-walk g.serial g.deltas vrp_ovrd_remove router_key_ovrd_remove lists)
          ∙ h) in
    let f1 =
      walk-keeps vrp_ovrd_remove (λ seen s. Filtered seen keys s)
        (λ xs x s s' e. Filtered-vrp_ovrd_remove xs keys x s s' e) vrps
        (vrp_events g.serial g.deltas) lists l1 h1 f in
    walk-keeps router_key_ovrd_remove
      (λ seen s. Filtered (vrps ++ vrp_events g.serial g.deltas) seen s)
      (λ xs x s s' e.
        Filtered-router_key_ovrd_remove (vrps ++ vrp_events g.serial g.deltas) xs x s s' e)
      keys (key_events g.serial g.deltas) l1 lists' h2 f1

Filtered-groups :
    (vrps : List (Delta Vrp)) (keys : List (Delta RouterKey)) (groups : List DeltaGroup)
    (lists lists' : SortedLists)
    → walk
        (λ group. deltas_foreach group.serial group.deltas vrp_ovrd_remove router_key_ovrd_remove)
        groups
        lists
      ≡ (ok tt, lists')
    → Filtered vrps keys lists
    → Filtered (vrps ++ all_vrp_events groups) (keys ++ all_key_events groups) lists'
unfolding walk
Filtered-groups vrps keys [] lists lists' h f =
    rw (append-nil vrps, append-nil keys) (subst (Filtered vrps keys) (ap (λ p. p.1) h) f)
Filtered-groups vrps keys (g ∷ groups) lists lists' h f =
    let (l1, h1, h2) =
      and_then-eq-ok (deltas_foreach g.serial g.deltas vrp_ovrd_remove router_key_ovrd_remove lists)
        _ h in
    rw
      (
        ← append_assoc vrps (vrp_events g.serial g.deltas) (all_vrp_events groups),
        ← append_assoc keys (key_events g.serial g.deltas) (all_key_events groups),
      )
      (Filtered-groups (vrps ++ vrp_events g.serial g.deltas) (keys ++ key_events g.serial g.deltas)
        groups l1 lists' h2 (Filtered-deltas_foreach vrps keys g lists l1 h1 f))

-- If the filter succeeds, its lists hold the net effect of the groups' changes: of each payload
-- and router key, as many announcements as it was announced more often than withdrawn, and the
-- other way around.
pub filter_deltas-Net :
    (groups : List DeltaGroup) (m : Memory) {lists : SortedLists}
    → filter_deltas groups m ≡ (ok tt, lists)
    → Net (all_vrp_events groups) lists.prefixes × Net (all_key_events groups) lists.router_keys
unfolding filter_deltas
filter_deltas-Net groups m {lists} h =
    Filtered-groups [] [] groups (record { prefixes = []; router_keys = []; memory = m }) lists h
      ((λ k. (refl, refl)), λ k. (refl, refl))
