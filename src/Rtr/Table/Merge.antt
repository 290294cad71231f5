-- ===== src/Rtr/Table/Merge.antt =====
-- db_table_merge() and db_table_clone() of db_table.c as unions of the tables' elements.
use fort_validator.Base.{
  ◌≡◌, refl, ap, sym, ◌∙◌, true, false, not, ◌||◌, ◌⊎◌, ◌==◌, Option, none, some, List, [], ◌∷◌,
  if◌then◌else◌, arith, Bool-cases, inl, inr,
}
use fort_validator.Base.Results.{ok, ok-injective}
use fort_validator.Base.Memory.{Memory, Alloc, malloc, pure, for_each, >>=-eq-ok}
use fort_validator.Rtr.Keys.{Eq, HashTable, count, ◌=?◌}
use fort_validator.Rtr.Vrp.{Address, v4, v6, Vrp, RouterKey, vrp_keys, router_key_keys}
use fort_validator.Rtr.Table.{
  Db, add_roa, add_router_key, duplicate_roa, duplicate_key, rtrhandler_handle_roa_v4,
  rtrhandler_handle_roa_v6, rtrhandler_handle_router_key, db_table_create, db_table_merge,
  db_table_clone,
}

find-replace :
    {K : Type 0} ⦃e : Eq K⦄ (h : HashTable K) (t t' : h.Table) (k j : K)
    → h.replace t k ≡ some t'
    → h.find t' j ≡ ((k =? j) || h.find t j)
find-replace h t t' k j r =
    ground (arith, h.count-items t' j, h.count-items t j, h.count-replace t k j {t' = t'} r)

module _ (rs : HashTable Vrp) (ks : HashTable RouterKey) where
  find-add_roa :
      (d : Db rs ks) (v j : Vrp) (m : Memory) {r : Db rs ks × Memory}
      → add_roa rs ks d v m ≡ ok r
      → (rs.find r.0.roas j ≡ ((v =? j) || rs.find d.roas j)) × (r.0.router_keys ≡ d.router_keys)
  unfolding add_roa
  find-add_roa d v j m {r} h = go (rs.replace d.roas v) refl
    where
      go :
          (o : Option rs.Table)
          → rs.replace d.roas v ≡ o
          → (rs.find r.0.roas j ≡ ((v =? j) || rs.find d.roas j))
            × (r.0.router_keys ≡ d.router_keys)
      go none e = ground (arith, rw (e, add_roa) at h)
      go (some t) e =
          let same : (record d { roas = t }, m) ≡ r = ok-injective (rw (e, add_roa) at h) in
          (
            ap (λ (q : Db rs ks × Memory). rs.find q.0.roas j) (sym same)
                ∙ find-replace rs d.roas t v j e,
            ap (λ (q : Db rs ks × Memory). q.0.router_keys) (sym same),
          )

  find-add_router_key :
      (d : Db rs ks) (k j : RouterKey) (m : Memory) {r : Db rs ks × Memory}
      → add_router_key rs ks d k m ≡ ok r
      → (ks.find r.0.router_keys j ≡ ((k =? j) || ks.find d.router_keys j)) × (r.0.roas ≡ d.roas)
  unfolding add_router_key
  find-add_router_key d k j m {r} h = go (ks.replace d.router_keys k) refl
    where
      go :
          (o : Option ks.Table)
          → ks.replace d.router_keys k ≡ o
          → (ks.find r.0.router_keys j ≡ ((k =? j) || ks.find d.router_keys j))
            × (r.0.roas ≡ d.roas)
      go none e = ground (arith, rw (e, add_router_key) at h)
      go (some t) e =
          let same : (record d { router_keys = t }, m) ≡ r =
            ok-injective (rw (e, add_router_key) at h) in
          (
            ap (λ (q : Db rs ks × Memory). ks.find q.0.router_keys j) (sym same)
                ∙ find-replace ks d.router_keys t k j e,
            ap (λ (q : Db rs ks × Memory). q.0.roas) (sym same),
          )

  pub find-duplicate_roa :
      (d : Db rs ks) (v j : Vrp) (m : Memory) {r : Db rs ks × Memory}
      → duplicate_roa rs ks d v m ≡ ok r
      → (rs.find r.0.roas j ≡ ((v =? j) || rs.find d.roas j)) × (r.0.router_keys ≡ d.router_keys)
  unfolding duplicate_roa rtrhandler_handle_roa_v4 rtrhandler_handle_roa_v6
  find-duplicate_roa d v j m {r} h = go v.prefix refl
    where
      go :
          (a : Address)
          → v.prefix ≡ a
          → (rs.find r.0.roas j ≡ ((v =? j) || rs.find d.roas j))
            × (r.0.router_keys ≡ d.router_keys)
      go (v4 a) e =
          let w : Vrp = record v { prefix = v4 a } in
          let same : w ≡ v = ap (λ x. record v { prefix = x }) (sym e) in
          let (u, m1, h1, h2) =
            >>=-eq-ok malloc (λ _. add_roa rs ks d w) m (rw (e, duplicate_roa) at h) in
          rw (← same) (find-add_roa d w j m1 {r = r} h2)
      go (v6 a) e =
          let w : Vrp = record v { prefix = v6 a } in
          let same : w ≡ v = ap (λ x. record v { prefix = x }) (sym e) in
          let (u, m1, h1, h2) =
            >>=-eq-ok malloc (λ _. add_roa rs ks d w) m (rw (e, duplicate_roa) at h) in
          rw (← same) (find-add_roa d w j m1 {r = r} h2)

  pub find-duplicate_key :
      (d : Db rs ks) (k j : RouterKey) (m : Memory) {r : Db rs ks × Memory}
      → duplicate_key rs ks d k m ≡ ok r
      → (ks.find r.0.router_keys j ≡ ((k =? j) || ks.find d.router_keys j)) × (r.0.roas ≡ d.roas)
  unfolding duplicate_key rtrhandler_handle_router_key
  find-duplicate_key d k j m {r} h =
      let (u, m1, h1, h2) = >>=-eq-ok malloc (λ _. add_router_key rs ks d k) m h in
      find-add_router_key d k j m1 {r = r} h2

  -- One round of each loop of the merge.
  merge_roa : Vrp → Db rs ks → Alloc (Db rs ks)
  merge_roa v d = if rs.find d.roas v then pure d else duplicate_roa rs ks d v

  merge_key : RouterKey → Db rs ks → Alloc (Db rs ks)
  merge_key k d = if ks.find d.router_keys k then pure d else duplicate_key rs ks d k

  find-merge_roa :
      (d : Db rs ks) (v j : Vrp) (m : Memory) {r : Db rs ks × Memory}
      → merge_roa v d m ≡ ok r
      → (rs.find r.0.roas j ≡ ((v =? j) || rs.find d.roas j)) × (r.0.router_keys ≡ d.router_keys)
  unfolding merge_roa
  find-merge_roa d v j m {r} h = elim (Bool-cases (rs.find d.roas v)) [
    | inr new ↦ find-duplicate_roa d v j m {r = r} (rw (new, merge_roa) at h)
    | inl old ↦
        let same : (d, m) ≡ r = ok-injective (rw (old, merge_roa) at h) in
        (
          ap (λ (q : Db rs ks × Memory). rs.find q.0.roas j) (sym same)
              ∙ found old (Bool-cases (v =? j)),
          ap (λ (q : Db rs ks × Memory). q.0.router_keys) (sym same),
        )
  ]
    where
      found :
          rs.find d.roas v ≡ true
          → ((v =? j) ≡ true) ⊎ ((v =? j) ≡ false)
          → rs.find d.roas j ≡ ((v =? j) || rs.find d.roas j)
      found old (inl y) = ground (arith, ap (rs.find d.roas) ((vrp_keys.beq_iff v j).0 y))
      found old (inr n) = ground arith

  find-merge_key :
      (d : Db rs ks) (k j : RouterKey) (m : Memory) {r : Db rs ks × Memory}
      → merge_key k d m ≡ ok r
      → (ks.find r.0.router_keys j ≡ ((k =? j) || ks.find d.router_keys j)) × (r.0.roas ≡ d.roas)
  unfolding merge_key
  find-merge_key d k j m {r} h = elim (Bool-cases (ks.find d.router_keys k)) [
    | inr new ↦ find-duplicate_key d k j m {r = r} (rw (new, merge_key) at h)
    | inl old ↦
        let same : (d, m) ≡ r = ok-injective (rw (old, merge_key) at h) in
        (
          ap (λ (q : Db rs ks × Memory). ks.find q.0.router_keys j) (sym same)
              ∙ found old (Bool-cases (k =? j)),
          ap (λ (q : Db rs ks × Memory). q.0.roas) (sym same),
        )
  ]
    where
      found :
          ks.find d.router_keys k ≡ true
          → ((k =? j) ≡ true) ⊎ ((k =? j) ≡ false)
          → ks.find d.router_keys j ≡ ((k =? j) || ks.find d.router_keys j)
      found old (inl y) =
          ground (arith, ap (ks.find d.router_keys) ((router_key_keys.beq_iff k j).0 y))
      found old (inr n) = ground arith

  find-merge_roas :
      (xs : List Vrp) (d : Db rs ks) (j : Vrp) (m : Memory) {r : Db rs ks × Memory}
      → for_each merge_roa xs d m ≡ ok r
      → (rs.find r.0.roas j ≡ (not (count j xs == 0) || rs.find d.roas j))
        × (r.0.router_keys ≡ d.router_keys)
  unfolding for_each
  find-merge_roas [] d j m {r} h = ground arith
  find-merge_roas (x ∷ xs) d j m {r} h =
      let (d', m', h1, h2) = >>=-eq-ok (merge_roa x d) _ m h in
      let one = find-merge_roa d x j m {r = (d', m')} h1 in
      let rest = find-merge_roas xs d' j m' {r = r} h2 in
      (ground (arith, one.0, rest.0), rest.1 ∙ one.1)

  find-merge_keys :
      (xs : List RouterKey) (d : Db rs ks) (j : RouterKey) (m : Memory) {r : Db rs ks × Memory}
      → for_each merge_key xs d m ≡ ok r
      → (ks.find r.0.router_keys j ≡ (not (count j xs == 0) || ks.find d.router_keys j))
        × (r.0.roas ≡ d.roas)
  unfolding for_each
  find-merge_keys [] d j m {r} h = ground arith
  find-merge_keys (x ∷ xs) d j m {r} h =
      let (d', m', h1, h2) = >>=-eq-ok (merge_key x d) _ m h in
      let one = find-merge_key d x j m {r = (d', m')} h1 in
      let rest = find-merge_keys xs d' j m' {r = r} h2 in
      (ground (arith, one.0, rest.0), rest.1 ∙ one.1)

  -- A merge that succeeds leaves the union: what either table had, of the payloads and of the
  -- router keys.
  pub find-db_table_merge :
      (dst src : Db rs ks) (m : Memory) (v : Vrp) (k : RouterKey) {r : Db rs ks × Memory}
      → db_table_merge rs ks dst src m ≡ ok r
      → (rs.find r.0.roas v ≡ (rs.find src.roas v || rs.find dst.roas v))
        × (ks.find r.0.router_keys k ≡ (ks.find src.router_keys k || ks.find dst.router_keys k))
  unfolding db_table_merge merge_roa merge_key
  find-db_table_merge dst src m v k {r} h =
      let (d, m1, h1, h2) = >>=-eq-ok (for_each merge_roa (rs.items src.roas) dst) _ m h in
      let a = find-merge_roas (rs.items src.roas) dst v m {r = (d, m1)} h1 in
      let b = find-merge_keys (ks.items src.router_keys) d k m1 {r = r} h2 in
      (
        ap (λ t. rs.find t v) b.1 ∙ ground (arith, a.0, rs.count-items src.roas v),
        ground (arith, b.0, ap (λ t. ks.find t k) a.1, ks.count-items src.router_keys k),
      )

  -- A clone that succeeds has exactly the elements of its original.
  pub find-db_table_clone :
      (src : Db rs ks) (m : Memory) (v : Vrp) (k : RouterKey) {r : Db rs ks × Memory}
      → db_table_clone rs ks src m ≡ ok r
      → (rs.find r.0.roas v ≡ rs.find src.roas v)
        × (ks.find r.0.router_keys k ≡ ks.find src.router_keys k)
  unfolding db_table_clone db_table_create
  find-db_table_clone src m v k {r} h =
      let (d, m1, h1, h2) = >>=-eq-ok (db_table_create rs ks) _ m h in
      let (u, m2, g1, g2) =
        >>=-eq-ok malloc (λ _. pure (record { roas = rs.empty; router_keys = ks.empty })) m h1 in
      let same : record { roas = rs.empty; router_keys = ks.empty } ≡ d = ground arith in
      let a = find-db_table_merge d src m1 v k {r = r} h2 in
      (
        a.0
            ∙ ground (
              arith,
              ap (λ (t : Db rs ks). rs.find t.roas v) same,
              rs.count-items rs.empty v,
              ap (count v) rs.items-empty,
            ),
        a.1
            ∙ ground (
              arith,
              ap (λ (t : Db rs ks). ks.find t.router_keys k) same,
              ks.count-items ks.empty k,
              ap (count k) ks.items-empty,
            ),
      )
