-- ===== src/Rtr/Vrps/Groups.antt =====
-- What the operations of vrps.c that store and drop deltas do to the array of groups.
use fort_validator.Base.{
  ℕ, ◌+◌, ◌≡◌, ◌≢◌, refl, ap, ◌∙◌, sym, subst, ◌⊎◌, ◌||◌, ◌==◌, Option, none, some, List, [], ◌∷◌,
  ◌++◌, arith, Bool-cases, inl, inr, length,
}
use fort_validator.Base.Results.{ok}
use fort_validator.Base.Memory.{Memory, pure, malloc, >>=-eq-ok}
use fort_validator.Rtr.Keys.{HashTable}
use fort_validator.Rtr.Vrp.{Vrp, RouterKey, vrp_keys, router_key_keys}
use fort_validator.Rtr.ArrayList
use fort_validator.Rtr.ArrayList.{ArrayList, array-add}
use fort_validator.Rtr.Deltas.{Deltas, deltas_create}
use fort_validator.Rtr.Filter.{DeltaGroup}
use fort_validator.Rtr.Clients.{Client, clients_get_min_serial}
use fort_validator.Rtr.Vrps.{
  State, create_empty_delta, vrps_purge, store_deltas, shrink, not_older, resize_deltas_db,
}
use fort_validator.Rtr.Vrps.Chain.{Leads}
use fort_validator.Rtr.Vrps.Serves.{Version, Serves, last_one, Serves-snoc, Serves-not_older}

array-resize_deltas_db :
    (db : ArrayList DeltaGroup) (start : List DeltaGroup) (m : Memory)
    {r : ArrayList DeltaGroup × Memory}
    → resize_deltas_db db start m ≡ ok r
    → r.0.array ≡ start
unfolding resize_deltas_db
array-resize_deltas_db db start m {r} h =
    let (c, m1, h1, h2) = >>=-eq-ok (shrink (db.capacity + 1) (length start) db.capacity) _ m h in
    let (u, m2, h3, h4) =
      >>=-eq-ok malloc (λ _. pure (record { array = start; capacity = c })) m1 h2 in
    ground arith

module _ (rs : HashTable Vrp) (ks : HashTable RouterKey) where
  -- A dummy group has been added.
  pub array-create_empty_delta :
      (st : State rs ks) (m : Memory) {r : State rs ks × Memory}
      → create_empty_delta rs ks st m ≡ ok r
      → (d : Deltas) × (r.0.deltas.array
          ≡ st.deltas.array ++ record { serial = st.next_serial; deltas = d } ∷ [])
        × (r.0.next_serial ≡ st.next_serial)
  unfolding create_empty_delta
  array-create_empty_delta st m {r} h =
      let (d, m1, h1, h2) = >>=-eq-ok deltas_create _ m h in
      let group : DeltaGroup = record { serial = st.next_serial; deltas = d } in
      let (l, m2, h3, h4) = >>=-eq-ok (ArrayList.add st.deltas group) _ m1 h2 in
      (d, ground (arith, array-add st.deltas group m1 {r = (l, m2)} h3), ground arith)

  -- Without clients only a dummy group is left.
  pub array-vrps_purge-none :
      (clients : List Client) (st : State rs ks) (m : Memory) {r : State rs ks × Memory}
      → vrps_purge rs ks clients st m ≡ ok r
      → clients_get_min_serial clients ≡ none
      → (d : Deltas) × (r.0.deltas.array ≡ record { serial = st.next_serial; deltas = d } ∷ [])
        × (r.0.next_serial ≡ st.next_serial)
  unfolding vrps_purge
  array-vrps_purge-none clients st m {r} h e =
      array-create_empty_delta (record st { deltas = ArrayList.init }) m {r = r}
        (rw (e, vrps_purge) at h)

  -- With clients the groups stay, or those that are too old go.
  pub array-vrps_purge-some :
      (clients : List Client) (st : State rs ks) (m : Memory) (min_serial : ℕ)
      {r : State rs ks × Memory}
      → vrps_purge rs ks clients st m ≡ ok r
      → clients_get_min_serial clients ≡ some min_serial
      → ((r.0.deltas.array ≡ st.deltas.array)
          ⊎ (r.0.deltas.array ≡ not_older min_serial st.deltas.array)
            × (not_older min_serial st.deltas.array ≢ []))
        × (r.0.next_serial ≡ st.next_serial)
  unfolding vrps_purge
  array-vrps_purge-some clients st m min_serial {r} h e =
      let start = not_older min_serial st.deltas.array in
      elim (Bool-cases (length start == length st.deltas.array || length start == 0)) [
        | inl y ↦
            let same : st ≡ r.0 = ground (arith, rw (e, y, vrps_purge) at h) in
            (
              inl (ap (λ (s : State rs ks). s.deltas.array) (sym same)),
              ap (λ (s : State rs ks). s.next_serial) (sym same),
            )
        | inr n ↦
            let (l, m1, h1, h2) =
              >>=-eq-ok (resize_deltas_db st.deltas start) _ m (rw (e, n, vrps_purge) at h) in
            let a = array-resize_deltas_db st.deltas start m {r = (l, m1)} h1 in
            let same : record st { deltas = l } ≡ r.0 = ground arith in
            (
              inr (
                ap (λ (s : State rs ks). s.deltas.array) (sym same) ∙ a,
                λ e. ground (arith, ap length e),
              ),
              ap (λ (s : State rs ks). s.next_serial) (sym same),
            )
      ]

  -- The deltas have been stored, if a client cares.
  pub array-store_deltas :
      (clients : List Client) (d : Deltas) (st : State rs ks) (m : Memory) (min_serial : ℕ)
      {r : State rs ks × Memory}
      → store_deltas rs ks clients d st m ≡ ok r
      → clients_get_min_serial clients ≡ some min_serial
      → (r.0.deltas.array ≡ st.deltas.array ++ record { serial = st.next_serial; deltas = d } ∷ [])
        × (r.0.next_serial ≡ st.next_serial)
  unfolding store_deltas
  array-store_deltas clients d st m min_serial {r} h e =
      let group : DeltaGroup = record { serial = st.next_serial; deltas = d } in
      let (l, m1, h1, h2) =
        >>=-eq-ok (ArrayList.add st.deltas group) _ m (rw (e, store_deltas) at h) in
      (ground (arith, array-add st.deltas group m {r = (l, m1)} h1), ground arith)

  pub next_serial-store_deltas :
      (clients : List Client) (d : Deltas) (st : State rs ks) (m : Memory)
      {r : State rs ks × Memory}
      → store_deltas rs ks clients d st m ≡ ok r
      → r.0.next_serial ≡ st.next_serial
  unfolding store_deltas
  next_serial-store_deltas clients d st m {r} h = go (clients_get_min_serial clients) refl
    where
      go : (o : Option ℕ) → clients_get_min_serial clients ≡ o → r.0.next_serial ≡ st.next_serial
      go none e = ground (arith, rw (e, store_deltas) at h)
      go (some s) e = (array-store_deltas clients d st m s {r = r} h e).1

  -- Storing and purging, when the clients that ask for deltas do not appear in between.
  pub Serves-store-purge :
      (clients1 clients2 : List Client) (d : Deltas) (st s1 s2 : State rs ks) (m m1 m2 : Memory)
      (v w : Version rs ks) (versions : List (Version rs ks))
      → store_deltas rs ks clients1 d st m ≡ ok (s1, m1)
      → vrps_purge rs ks clients2 s1 m1 ≡ ok (s2, m2)
      → (clients_get_min_serial clients1 ≡ none → clients_get_min_serial clients2 ≡ none)
      → Leads rs ks v.table w.table d
      → w.serial ≡ st.next_serial
      → Serves rs ks v versions st.deltas.array
      → Serves rs ks w (v ∷ versions) s2.deltas.array × (s2.next_serial ≡ st.next_serial)
  Serves-store-purge clients1 clients2 d st s1 s2 m m1 m2 v w versions h1 h2 same l ws sv =
      go (clients_get_min_serial clients2) refl
    where
      n1 : s1.next_serial ≡ st.next_serial
      n1 = next_serial-store_deltas clients1 d st m {r = (s1, m1)} h1

      go :
          (o : Option ℕ)
          → clients_get_min_serial clients2 ≡ o
          → Serves rs ks w (v ∷ versions) s2.deltas.array × (s2.next_serial ≡ st.next_serial)
      go none e =
          let (d', a, n) = array-vrps_purge-none clients2 s1 m1 {r = (s2, m2)} h2 e in
          (
            subst (Serves rs ks w (v ∷ versions))
                (ap (λ n. record { serial = n; deltas = d' } ∷ []) (sym n1) ∙ sym a)
                (last_one (sym ws)),
            n ∙ n1,
          )
      go (some s) e = kept (clients_get_min_serial clients1) refl
        where
          kept :
              (o : Option ℕ)
              → clients_get_min_serial clients1 ≡ o
              → Serves rs ks w (v ∷ versions) s2.deltas.array × (s2.next_serial ≡ st.next_serial)
          kept none e1 = let gone = same e1 in cc
          kept (some s') e1 =
              let (a, _) = array-store_deltas clients1 d st m s' {r = (s1, m1)} h1 e1 in
              let stored = subst (Serves rs ks w (v ∷ versions)) (sym a) (
                Serves-snoc rs ks (record { serial = st.next_serial; deltas = d }) sv l (sym ws)) in
              let (b, n) = array-vrps_purge-some clients2 s1 m1 s {r = (s2, m2)} h2 e in
              elim b [
                | inl all ↦ (subst (Serves rs ks w (v ∷ versions)) (sym all) stored, n ∙ n1)
                | inr (some_left, ne) ↦ (
                  subst (Serves rs ks w (v ∷ versions)) (sym some_left)
                      (Serves-not_older rs ks s stored ne),
                  n ∙ n1,
                )
              ]
