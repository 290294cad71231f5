-- ===== src/Rtr/Vrps/Update.antt =====
-- __vrps_update() of vrps.c keeps the state consistent with what was published.
use fort_validator.Base.{
  ℕ, ◌+◌, ◌%◌, ◌^◌, ◌<◌, ◌≡◌, refl, ap, ◌∙◌, sym, subst, Bool, true, false, ◌==◌, none, some, List,
  [], ◌∷◌, ◌++◌, if◌then◌else◌, arith, Bool-cases, inl, inr,
}
use fort_validator.Base.Results.{ok, ok-injective}
use fort_validator.Base.Memory.{Memory, >>=-eq-ok}
use fort_validator.Rtr.Keys.{HashTable}
use fort_validator.Rtr.Vrp.{Vrp, RouterKey, vrp_keys, router_key_keys}
use fort_validator.Rtr.Deltas.{deltas_is_empty}
use fort_validator.Rtr.Table.{Db, compute_deltas, db_table_roa_count, db_table_router_key_count}
use fort_validator.Rtr.Clients.{Client, clients_get_min_serial}
use fort_validator.Rtr.Vrps.{
  State, create_empty_delta, vrps_purge, store_deltas, publish, vrps_update, next,
}
use fort_validator.Rtr.Vrps.Chain.{compute_deltas-Leads}
use fort_validator.Rtr.Vrps.Serves.{Version, Serves, last_one}
use fort_validator.Rtr.Vrps.Groups.{array-create_empty_delta, Serves-store-purge}

module _ (rs : HashTable Vrp) (ks : HashTable RouterKey) where
  -- The state is well formed: no groups before the first version, and after it the newest version
  -- is the base, the next serial is the one after its own, and the groups serve it.
  pub data IsConsistent : List (Version rs ks) → State rs ks → Type 0 where
    nothing :
        {st : State rs ks}
        → st.base ≡ none
        → st.deltas.array ≡ []
        → st.next_serial < 2 ^ 32
        → IsConsistent [] st
    current :
        {v : Version rs ks} {versions : List (Version rs ks)} {st : State rs ks}
        → st.base ≡ some v.table
        → st.next_serial ≡ next v.serial
        → v.serial < 2 ^ 32
        → Serves rs ks v versions st.deltas.array
        → IsConsistent (v ∷ versions) st

  next_lt : (n : ℕ) → next n < 2 ^ 32
  next_lt n = omega arith

  -- What publish() makes of a state whose groups already serve the new table.
  IsConsistent-publish :
      (new : Db rs ks) (versions : List (Version rs ks)) (st : State rs ks) (n : ℕ) (m : Memory)
      {r : (Bool × State rs ks) × Memory}
      → publish rs ks new st m ≡ ok r
      → st.next_serial ≡ n
      → n < 2 ^ 32
      → Serves rs ks (record { serial = n; table = new }) versions st.deltas.array
      → IsConsistent (record { serial = n; table = new } ∷ versions) r.0.1 × (r.0.0 ≡ true)
  IsConsistent-publish new versions st n m {r} h e lt sv =
      let same : ((true, record st { base = some new; next_serial = next st.next_serial }), m) ≡ r =
        ok-injective h in
      (
        subst
            (λ (q : (Bool × State rs ks) × Memory).
              IsConsistent (record { serial = n; table = new } ∷ versions) q.0.1)
            same (current refl (ap next e) lt sv),
        ap (λ (q : (Bool × State rs ks) × Memory). q.0.0) (sym same),
      )

  -- The versions after an update: one more if the table changed.
  abbrev pub versions_after :
      Bool → State rs ks → Db rs ks → List (Version rs ks) → List (Version rs ks)
  versions_after changed st new versions =
      if changed then record { serial = st.next_serial; table = new } ∷ versions else versions

  IsConsistent-first :
      (new : Db rs ks) (st : State rs ks) (m : Memory) {r : (Bool × State rs ks) × Memory}
      → (clients1 clients2 : List Client) → vrps_update rs ks clients1 clients2 (ok new) st m ≡ ok r
      → st.base ≡ none
      → st.deltas.array ≡ []
      → st.next_serial < 2 ^ 32
      → IsConsistent (versions_after r.0.0 st new []) r.0.1
  unfolding vrps_update
  IsConsistent-first new st m {r} clients1 clients2 h b a lt =
      elim (Bool-cases
        ((db_table_roa_count rs ks new + db_table_router_key_count rs ks new) % 2 ^ 32 == 0)) [
          | inl y ↦
              let same : ((false, st), m) ≡ r = ok-injective (rw (b, y, vrps_update) at h) in
              subst
                (λ (q : (Bool × State rs ks) × Memory).
                  IsConsistent (versions_after q.0.0 st new []) q.0.1)
                same (nothing b a lt)
          | inr n ↦
              let (st1, m1, h1, h2) =
                >>=-eq-ok (create_empty_delta rs ks st) _ m (rw (b, n, vrps_update) at h) in
              let (d, a1, n1) = array-create_empty_delta rs ks st m {r = (st1, m1)} h1 in
              let (c, t) = IsConsistent-publish new [] st1 st.next_serial m1 {r = r} h2 n1 lt (
                subst (Serves rs ks (record { serial = st.next_serial; table = new }) [])
                  (sym
                    (a1 ∙ ap (λ xs. xs ++ record { serial = st.next_serial; deltas = d } ∷ []) a))
                  (last_one refl)) in
              rw t c
        ]

  IsConsistent-next :
      (new : Db rs ks) (v : Version rs ks) (versions : List (Version rs ks)) (st : State rs ks)
      (m : Memory) {r : (Bool × State rs ks) × Memory}
      → (clients1 clients2 : List Client) → vrps_update rs ks clients1 clients2 (ok new) st m ≡ ok r
      → (clients_get_min_serial clients1 ≡ none → clients_get_min_serial clients2 ≡ none)
      → st.base ≡ some v.table
      → st.next_serial < 2 ^ 32
      → Serves rs ks v versions st.deltas.array
      → IsConsistent (v ∷ versions) st
      → IsConsistent (versions_after r.0.0 st new (v ∷ versions)) r.0.1
  unfolding vrps_update
  IsConsistent-next new v versions st m {r} clients1 clients2 h quiet b lt sv i =
      let (d, m0, h0, t0) =
        >>=-eq-ok (compute_deltas rs ks v.table new) _ m (rw (b, vrps_update) at h) in
      let l = compute_deltas-Leads rs ks v.table new m {r = (d, m0)} h0 in
      elim (Bool-cases (deltas_is_empty d)) [
        | inl y ↦
            let same : ((false, st), m0) ≡ r = ok-injective (rw y at t0) in
            subst
              (λ (q : (Bool × State rs ks) × Memory).
                IsConsistent (versions_after q.0.0 st new (v ∷ versions)) q.0.1)
              same i
        | inr n ↦
            let (st1, m1, h1, t1) =
              >>=-eq-ok (store_deltas rs ks clients1 d st) _ m0 (rw n at t0) in
            let (st2, m2, h2, t2) = >>=-eq-ok (vrps_purge rs ks clients2 st1) _ m1 t1 in
            let (sv2, n2) =
              Serves-store-purge rs ks clients1 clients2 d st st1 st2 m0 m1 m2 v
                (record { serial = st.next_serial; table = new }) versions h1 h2 quiet l refl sv in
            let (c, t) =
              IsConsistent-publish new (v ∷ versions) st2 st.next_serial m2 {r = r} t2 n2 lt sv2 in
            rw t c
      ]

  -- An update that succeeds keeps the state consistent with the published versions, one more if
  -- it changed the table, provided that no client with a serial appears in its midst: if none had
  -- one when it asked first, none has one when it asks again.
  pub vrps_update-IsConsistent :
      (clients1 clients2 : List Client) (new : Db rs ks) (versions : List (Version rs ks))
      (st : State rs ks) (m : Memory) {r : (Bool × State rs ks) × Memory}
      → IsConsistent versions st
      → (clients_get_min_serial clients1 ≡ none → clients_get_min_serial clients2 ≡ none)
      → vrps_update rs ks clients1 clients2 (ok new) st m ≡ ok r
      → IsConsistent (versions_after r.0.0 st new versions) r.0.1
  vrps_update-IsConsistent clients1 clients2 new [] st m {r} (nothing b a lt) quiet h =
      IsConsistent-first new st m {r = r} clients1 clients2 h b a lt
  vrps_update-IsConsistent clients1 clients2 new (v ∷ versions) st m {r} (current b n lt sv) quiet
        h =
      IsConsistent-next new v versions st m {r = r} clients1 clients2 h quiet b
        (rw n (next_lt v.serial)) sv (current b n lt sv)
