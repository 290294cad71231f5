-- ===== src/Rtr/Vrps/Answer.antt =====
-- What a router that asks vrps.c for the deltas since its own serial is given.
use mathlib.Core.List.{append_assoc, append-nil}
use fort_validator.Base.{
  ℕ, ◌≡◌, refl, ap, ◌∙◌, sym, subst, Bool, true, false, ◌==◌, none, List, [], ◌∷◌, ◌++◌, arith,
  Bool-cases, inl, inr,
}
use fort_validator.Base.Results.{ok, ok-injective}
use fort_validator.Base.Memory.{Memory, >>=-eq-ok}
use fort_validator.Rtr.Keys.{HashTable}
use fort_validator.Rtr.Vrp.{Vrp, RouterKey, vrp_keys, router_key_keys}
use fort_validator.Rtr.ArrayList
use fort_validator.Rtr.ArrayList.{ArrayList, array-add}
use fort_validator.Rtr.Table.{Db}
use fort_validator.Rtr.Filter.{DeltaGroup, SortedLists, filter_deltas}
use fort_validator.Rtr.Filter.Net.{filter_deltas-Net}
use fort_validator.Rtr.Clients.{Client, clients_get_min_serial}
use fort_validator.Rtr.Vrps.{
  State, vrps_init, vrps_update, collect, vrps_get_deltas_from, get_last_serial_number,
}
use fort_validator.Rtr.Vrps.Chain.{Chain, done, Difference, Chain-Difference}
use fort_validator.Rtr.Vrps.Serves.{Version, Published, newest, Serves, last_one, serves}
use fort_validator.Rtr.Vrps.Update.{
  IsConsistent, nothing, current, versions_after, vrps_update-IsConsistent,
}

-- After the group has been found, the rest is added.
array-collect-true :
    (from : ℕ) (groups : List DeltaGroup) (to : ℕ) (result : ArrayList DeltaGroup) (m : Memory)
    {r : (Bool × (ℕ × ArrayList DeltaGroup)) × Memory}
    → collect from true groups to result m ≡ ok r
    → r.0.1.1.array ≡ result.array ++ groups
unfolding collect
array-collect-true from [] to result m {r} h =
    ap (λ (q : (Bool × (ℕ × ArrayList DeltaGroup)) × Memory). q.0.1.1.array) (sym (ok-injective h))
    ∙ sym (append-nil result.array)
array-collect-true from (g ∷ groups) to result m {r} h =
    let (l, m1, h1, h2) = >>=-eq-ok (ArrayList.add result g) _ m h in
    array-collect-true from groups g.serial l m1 {r = r} h2
    ∙ ap (λ xs. xs ++ groups) (array-add result g m {r = (l, m1)} h1)
    ∙ append_assoc result.array (g ∷ []) groups

module _ (rs : HashTable Vrp) (ks : HashTable RouterKey) where
  to-collect-true :
      {v : Version rs ks} {versions : List (Version rs ks)} {groups : List DeltaGroup} (from to : ℕ)
      (result : ArrayList DeltaGroup) (m : Memory)
      {r : (Bool × (ℕ × ArrayList DeltaGroup)) × Memory}
      → Serves rs ks v versions groups
      → collect from true groups to result m ≡ ok r
      → r.0.1.0 ≡ v.serial
  unfolding collect
  to-collect-true from to result m {r} (last_one {g} e) h =
      let (l, m1, h1, h2) = >>=-eq-ok (ArrayList.add result g) _ m h in
      ap (λ (q : (Bool × (ℕ × ArrayList DeltaGroup)) × Memory). q.0.1.0) (sym (ok-injective h2)) ∙ e
  to-collect-true from to result m {r} (serves {g} table p c s) h =
      let (l, m1, h1, h2) = >>=-eq-ok (ArrayList.add result g) _ m h in
      to-collect-true from g.serial l m1 {r = r} s h2

  -- What is collected leads from a published version with the serial asked for to the newest one,
  -- and the serial that is given is that of the newest one.
  abbrev pub Answers : Version rs ks → List (Version rs ks) → ℕ → ℕ → List DeltaGroup → Type 0
  Answers v versions from to groups =
      (table : Db rs ks) × Published rs ks (record { serial = from; table = table }) (v ∷ versions)
      × Chain rs ks v.table table groups
      × (to ≡ v.serial)

  collect-Answers :
      {v : Version rs ks} {versions : List (Version rs ks)} {groups : List DeltaGroup} (from to : ℕ)
      (m : Memory) {r : (Bool × (ℕ × ArrayList DeltaGroup)) × Memory}
      → Serves rs ks v versions groups
      → collect from false groups to ArrayList.init m ≡ ok r
      → r.0.0 ≡ true
      → Answers v versions from r.0.1.0 r.0.1.1.array
  unfolding collect
  collect-Answers {v} {versions} from to m {r} (last_one {g} e) h t =
      elim (Bool-cases (g.serial == from)) [
        | inl y ↦
            let same = ok-injective (rw (y, collect) at h) in
            let p : v.serial ≡ from = ground arith in
            subst
              (λ (q : (Bool × (ℕ × ArrayList DeltaGroup)) × Memory).
                Answers v versions from q.0.1.0 q.0.1.1.array)
              same
              (
                v.table,
                subst (λ n. Published rs ks (record { serial = n; table = v.table }) (v ∷ versions))
                    p newest,
                done,
                e,
              )
        | inr n ↦ ground (arith, rw (n, collect) at h)
      ]
  collect-Answers {v} {versions} from to m {r} (serves {g} {groups} table p c s) h t =
      elim (Bool-cases (g.serial == from)) [
        | inl y ↦
            let rest : collect from true groups g.serial ArrayList.init m ≡ ok r =
              rw (y, collect) at h in
            let q : g.serial ≡ from = ground arith in
            (
              table,
              subst (λ n. Published rs ks (record { serial = n; table = table }) (v ∷ versions)) q
                  p,
              subst (Chain rs ks v.table table)
                  (sym (array-collect-true from groups g.serial ArrayList.init m {r = r} rest)) c,
              to-collect-true from g.serial ArrayList.init m {r = r} s rest,
            )
        | inr n ↦ collect-Answers from to m {r = r} s (rw (n, collect) at h) t
      ]

  -- In a consistent state, what vrps_get_deltas_from() returns starts at a published version with
  -- the serial asked for, leads to the base, and comes with the serial of the newest version.
  pub vrps_get_deltas_from-Answers :
      (v : Version rs ks) (versions : List (Version rs ks)) (st : State rs ks) (from : ℕ)
      (m : Memory) {r : (ℕ × ArrayList DeltaGroup) × Memory}
      → IsConsistent rs ks (v ∷ versions) st
      → vrps_get_deltas_from rs ks from st m ≡ ok r
      → Answers v versions from r.0.0 r.0.1.array
  unfolding vrps_get_deltas_from
  vrps_get_deltas_from-Answers v versions st from m {r} (current b n lt sv) h =
      let ((found, result), m1, h1, h2) =
        >>=-eq-ok (collect from false st.deltas.array 0 ArrayList.init) _ m
          (rw (b, vrps_get_deltas_from) at h) in
      elim (Bool-cases found) [
        | inl y ↦
            let same : (result, m1) ≡ r = ok-injective (rw y at h2) in
            subst
              (λ (q : (ℕ × ArrayList DeltaGroup) × Memory).
                Answers v versions from q.0.0 q.0.1.array)
              same (collect-Answers from 0 m {r = ((found, result), m1)} sv h1 y)
        | inr no_group ↦ ground (arith, rw no_group at h2)
      ]

  -- The states that vrps_init() and updates lead to, with the versions published so far, newest
  -- first. The clients that ask for deltas do not appear between the two times that an update
  -- looks for them.
  pub data Run : List (Version rs ks) → State rs ks → Type 0 where
    start : (now : ℕ) → Run [] (vrps_init rs ks now)
    updated :
        {versions : List (Version rs ks)} {st st' : State rs ks} (changed : Bool)
        (clients1 clients2 : List Client) (new : Db rs ks) (m m' : Memory)
        → Run versions st
        → (clients_get_min_serial clients1 ≡ none → clients_get_min_serial clients2 ≡ none)
        → vrps_update rs ks clients1 clients2 (ok new) st m ≡ ok ((changed, st'), m')
        → Run (versions_after rs ks changed st new versions) st'

  -- Every state that vrps_init() and successful updates lead to is consistent with the versions
  -- that they published, if no client with a serial appeared in the midst of an update.
  pub Run-IsConsistent :
      {versions : List (Version rs ks)} {st : State rs ks}
      → Run versions st
      → IsConsistent rs ks versions st
  unfolding vrps_init
  Run-IsConsistent (start now) = nothing refl refl (omega arith)
  Run-IsConsistent (updated {versions} {st} {st'} changed clients1 clients2 new m m' run quiet h) =
      vrps_update-IsConsistent rs ks clients1 clients2 new versions st m {r = ((changed, st'), m')}
        (Run-IsConsistent run) quiet h

  -- In every state that vrps_init() and successful updates lead to, if no client with a serial
  -- appeared in the midst of an update, the serial that the routers are told is the one of the
  -- newest version, if there is one.
  pub get_last_serial_number-newest :
      {v : Version rs ks} {versions : List (Version rs ks)} {st : State rs ks}
      → Run (v ∷ versions) st
      → get_last_serial_number rs ks st ≡ ok v.serial
  unfolding get_last_serial_number
  get_last_serial_number-newest {v} {versions} {st} run = go (Run-IsConsistent run)
    where
      go : IsConsistent rs ks (v ∷ versions) st → get_last_serial_number rs ks st ≡ ok v.serial
      go (current b n lt sv) = rw (b, get_last_serial_number) (ap ok (rw n (omega (arith, lt))))

  -- In every state that vrps_init() and successful updates lead to, if no client with a serial
  -- appeared in the midst of an update: if the deltas from a serial on are given and the filter
  -- succeeds on them, the serial that comes with them is the newest version's, and the filtered
  -- deltas are the difference of a version that was published under the serial asked for and the
  -- newest version, each change once.
  pub filtered_deltas-Difference :
      (v : Version rs ks) (versions : List (Version rs ks)) (st : State rs ks) (from : ℕ)
      (m m' : Memory) {r : (ℕ × ArrayList DeltaGroup) × Memory} {lists : SortedLists}
      → Run (v ∷ versions) st
      → vrps_get_deltas_from rs ks from st m ≡ ok r
      → filter_deltas r.0.1.array m' ≡ (ok tt, lists)
      → (r.0.0 ≡ v.serial)
        × ((table : Db rs ks) × Published rs ks
              (record { serial = from; table = table })
              (v ∷ versions)
            × Difference rs ks table v.table lists.prefixes lists.router_keys)
  filtered_deltas-Difference v versions st from m m' {r} {lists} run h f =
      let (table, p, c, t) =
        vrps_get_deltas_from-Answers v versions st from m {r = r} (Run-IsConsistent run) h in
      let (n1, n2) = filter_deltas-Net r.0.1.array m' {lists = lists} f in
      (t, (table, p, Chain-Difference rs ks lists.prefixes lists.router_keys c n1 n2))
