-- ===== src/Rtr/Table/Difference.antt =====
-- compute_deltas() of db_table.c: the deltas are the difference of the two tables.
use fort_validator.Base.{
  ℕ, ◌+◌, ◌≡◌, refl, ap, ◌∙◌, Bool, true, false, not, ◌&&◌, List, [], ◌∷◌, if◌then◌else◌, arith,
  Bool-cases, inl, inr,
}
use fort_validator.Base.Results.{ok}
use fort_validator.Base.Memory.{Alloc, Memory, pure, for_each, >>=-eq-ok}
use fort_validator.Rtr.Keys.{Eq, HashTable, bit, count, ◌=?◌}
use fort_validator.Rtr.Vrp.{
  Address, v4, v6, Vrp, RouterKey, Flag, announcement, withdrawal, flag_eq, vrp_keys,
  router_key_keys,
}
use fort_validator.Rtr.Deltas.{Deltas, deltas_create, deltas_add_router_key, no_deltas}
use fort_validator.Rtr.Deltas.Events.{
  payloads, keys, added, count-deltas_add_roa_v4, count-deltas_add_roa_v6,
  count-deltas_add_router_key,
}
use fort_validator.Rtr.Table.{
  Db, add_roa_delta, add_roa_deltas, add_router_key_deltas, compute_deltas,
}

-- How much a loop that adds what is not found counts.
abbrev missing : {K : Type 0} ⦃e : Eq K⦄ → (K → Bool) → Flag → Flag → K → List K → ℕ
missing found op f k xs = if flag_eq op f then (if found k then 0 else count k xs) else 0

missing-cons :
    {K : Type 0} ⦃e : Eq K⦄ (found : K → Bool) (op f : Flag) (k x : K) (xs : List K)
    → missing found op f k (x ∷ xs)
      ≡ (if found x then 0 else added op f x k) + missing found op f k xs
missing-cons ⦃e⦄ found op f k x xs = elim (Bool-cases (x =? k)) [
  | inr other ↦ rw other (ground arith)
  | inl same ↦ let p : x ≡ k = (e.beq_iff x k).0 same in ground (arith, ap found p)
]

-- 1 for an element that is found in the first table only, if the flag is the one asked for.
abbrev difference : {K : Type 0} → (K → Bool) → (K → Bool) → Flag → Flag → K → ℕ
difference found1 found2 op f k = if flag_eq op f then bit (found1 k && not (found2 k)) else 0

abbrev some_vrp : Vrp
some_vrp = record { asn = 0; prefix = v4 0; prefix_length = 0; max_prefix_length = 0 }

abbrev some_key : RouterKey
some_key = record { ski = []; as_number = 0; spk = [] }

module _ (rs : HashTable Vrp) (ks : HashTable RouterKey) where
  count-add_roa_delta :
      (d : Deltas) (v : Vrp) (op f : Flag) (k : Vrp) (m : Memory) {r : Deltas × Memory}
      → add_roa_delta rs ks d v op m ≡ ok r
      → (count k (payloads f r.0) ≡ count k (payloads f d) + added op f v k)
        × (keys f r.0 ≡ keys f d)
  unfolding add_roa_delta
  count-add_roa_delta d v op f k m {r} h = go v.prefix refl
    where
      go :
          (a : Address)
          → v.prefix ≡ a
          → (count k (payloads f r.0) ≡ count k (payloads f d) + added op f v k)
            × (keys f r.0 ≡ keys f d)
      go (v4 a) e = ground (
        arith,
        count-deltas_add_roa_v4 d
            (record {
              as_number = v.asn;
              addr = a;
              len = v.prefix_length;
              max_length = v.max_prefix_length;
            })
            op f k m {r = r},
      )
      go (v6 a) e = ground (
        arith,
        count-deltas_add_roa_v6 d
            (record {
              as_number = v.asn;
              addr = a;
              len = v.prefix_length;
              max_length = v.max_prefix_length;
            })
            op f k m {r = r},
      )

  -- One round of the loop over `roas1`.
  add_missing_roa : rs.Table → Flag → Vrp → Deltas → Alloc Deltas
  add_missing_roa roas2 op v d = if rs.find roas2 v then pure d else add_roa_delta rs ks d v op

  add_missing_key : ks.Table → Flag → RouterKey → Deltas → Alloc Deltas
  add_missing_key keys2 op k d = if ks.find keys2 k then pure d else deltas_add_router_key d k op

  count-add_missing_roas :
      (roas2 : rs.Table) (op f : Flag) (k : Vrp) (xs : List Vrp) (d : Deltas) (m : Memory)
      {r : Deltas × Memory}
      → for_each (add_missing_roa roas2 op) xs d m ≡ ok r
      → (count k (payloads f r.0) ≡ count k (payloads f d) + missing (rs.find roas2) op f k xs)
        × (keys f r.0 ≡ keys f d)
  unfolding for_each add_missing_roa
  count-add_missing_roas roas2 op f k [] d m {r} h = ground arith
  count-add_missing_roas roas2 op f k (x ∷ xs) d m {r} h =
      let (d', m', h1, h2) = >>=-eq-ok (add_missing_roa roas2 op x d) _ m h in
      let rest = count-add_missing_roas roas2 op f k xs d' m' {r = r} h2 in
      let split = missing-cons (rs.find roas2) op f k x xs in
      elim (Bool-cases (rs.find roas2 x)) [
        | inl found ↦ ground (arith, rest, split)
        | inr new ↦
            let one = count-add_roa_delta d x op f k m {r = (d', m')} (ground arith) in
            ground (arith, rest, split, one)
      ]

  count-add_missing-keys :
      (keys2 : ks.Table) (op f : Flag) (k : RouterKey) (xs : List RouterKey) (d : Deltas)
      (m : Memory) {r : Deltas × Memory}
      → for_each (add_missing_key keys2 op) xs d m ≡ ok r
      → (count k (keys f r.0) ≡ count k (keys f d) + missing (ks.find keys2) op f k xs)
        × (payloads f r.0 ≡ payloads f d)
  unfolding for_each add_missing_key
  count-add_missing-keys keys2 op f k [] d m {r} h = ground arith
  count-add_missing-keys keys2 op f k (x ∷ xs) d m {r} h =
      let (d', m', h1, h2) = >>=-eq-ok (add_missing_key keys2 op x d) _ m h in
      let rest = count-add_missing-keys keys2 op f k xs d' m' {r = r} h2 in
      let split = missing-cons (ks.find keys2) op f k x xs in
      elim (Bool-cases (ks.find keys2 x)) [
        | inl found ↦ ground (arith, rest, split)
        | inr new ↦
            let one = count-deltas_add_router_key d x op f k m {r = (d', m')} (ground arith) in
            ground (arith, rest, split, one)
      ]

  count-add_roa_deltas :
      (roas1 roas2 : rs.Table) (op f : Flag) (d : Deltas) (m : Memory) (k : Vrp)
      {r : Deltas × Memory}
      → add_roa_deltas rs ks roas1 roas2 op d m ≡ ok r
      → (count k (payloads f r.0)
          ≡ count k (payloads f d) + difference (rs.find roas1) (rs.find roas2) op f k)
        × (keys f r.0 ≡ keys f d)
  unfolding add_roa_deltas add_missing_roa
  count-add_roa_deltas roas1 roas2 op f d m k {r} h =
      let c = count-add_missing_roas roas2 op f k (rs.items roas1) d m {r = r} h in
      ground (arith, c, rs.count-items roas1 k)

  count-add_router_key_deltas :
      (keys1 keys2 : ks.Table) (op f : Flag) (d : Deltas) (m : Memory) (k : RouterKey)
      {r : Deltas × Memory}
      → add_router_key_deltas rs ks keys1 keys2 op d m ≡ ok r
      → (count k (keys f r.0)
          ≡ count k (keys f d) + difference (ks.find keys1) (ks.find keys2) op f k)
        × (payloads f r.0 ≡ payloads f d)
  unfolding add_router_key_deltas add_missing_key
  count-add_router_key_deltas keys1 keys2 op f d m k {r} h =
      let c = count-add_missing-keys keys2 op f k (ks.items keys1) d m {r = r} h in
      ground (arith, c, ks.count-items keys1 k)

  -- The stages of compute_deltas(), each of which succeeded.
  record Stages (old new : Db rs ks) (m : Memory) (r : Deltas × Memory) : Type 0 where
    d0 : Deltas × Memory
    d1 : Deltas × Memory
    d2 : Deltas × Memory
    d3 : Deltas × Memory
    created : deltas_create m ≡ ok d0
    roas_added : add_roa_deltas rs ks new.roas old.roas announcement d0.0 d0.1 ≡ ok d1
    roas_removed : add_roa_deltas rs ks old.roas new.roas withdrawal d1.0 d1.1 ≡ ok d2
    keys_added :
        add_router_key_deltas rs ks new.router_keys old.router_keys announcement d2.0 d2.1 ≡ ok d3
    keys_removed :
        add_router_key_deltas rs ks old.router_keys new.router_keys withdrawal d3.0 d3.1 ≡ ok r

  stages :
      (old new : Db rs ks) (m : Memory) {r : Deltas × Memory}
      → compute_deltas rs ks old new m ≡ ok r
      → Stages old new m r
  unfolding compute_deltas
  stages old new m {r} h =
      let (a, ma, ha, ta) = >>=-eq-ok deltas_create _ m h in
      let (b, mb, hb, tb) =
        >>=-eq-ok (add_roa_deltas rs ks new.roas old.roas announcement a) _ ma ta in
      let (c, mc, hc, tc) =
        >>=-eq-ok (add_roa_deltas rs ks old.roas new.roas withdrawal b) _ mb tb in
      let (d, md, hd, td) =
        >>=-eq-ok (add_router_key_deltas rs ks new.router_keys old.router_keys announcement c) _ mc
          tc in
      record {
        d0 = (a, ma);
        d1 = (b, mb);
        d2 = (c, mc);
        d3 = (d, md);
        created = ha;
        roas_added = hb;
        roas_removed = hc;
        keys_added = hd;
        keys_removed = td;
      }

  deltas_create-empty :
      (m : Memory) {d : Deltas × Memory} → deltas_create m ≡ ok d → d.0 ≡ no_deltas
  unfolding deltas_create
  deltas_create-empty [] h = ground arith
  deltas_create-empty (true ∷ m) h = ground arith
  deltas_create-empty (false ∷ m) h = cc

  -- What deltas that were computed from two tables say of a payload: announced once if only the
  -- new table has it, withdrawn once if only the old table has it, and not mentioned otherwise.
  pub count-compute_deltas_roas :
      (old new : Db rs ks) (m : Memory) (k : Vrp) {r : Deltas × Memory}
      → compute_deltas rs ks old new m ≡ ok r
      → (count k (payloads announcement r.0) ≡ bit (rs.find new.roas k && not (rs.find old.roas k)))
        × (count k (payloads withdrawal r.0) ≡ bit (rs.find old.roas k && not (rs.find new.roas k)))
  count-compute_deltas_roas old new m k {r} h =
      let s = stages old new m {r = r} h in
      (omega (arith, total s announcement), omega (arith, total s withdrawal))
    where
      total :
          Stages old new m r
          → (f : Flag)
          → count k (payloads f r.0)
            ≡ difference (rs.find new.roas) (rs.find old.roas) announcement f k
              + difference (rs.find old.roas) (rs.find new.roas) withdrawal f k
      total s f =
          let p =
            count-add_roa_deltas new.roas old.roas announcement f s.d0.0 s.d0.1 k {r = s.d1}
              s.roas_added in
          let q =
            count-add_roa_deltas old.roas new.roas withdrawal f s.d1.0 s.d1.1 k {r = s.d2}
              s.roas_removed in
          let i =
            count-add_router_key_deltas new.router_keys old.router_keys announcement f s.d2.0 s.d2.1
              some_key {r = s.d3} s.keys_added in
          let j =
            count-add_router_key_deltas old.router_keys new.router_keys withdrawal f s.d3.0 s.d3.1
              some_key {r = r} s.keys_removed in
          let z : count k (payloads f s.d0.0) ≡ 0 =
            ap (λ d. count k (payloads f d)) (deltas_create-empty m s.created) ∙ none_counted f in
          omega (arith, p.0, q.0, ap (count k) i.1, ap (count k) j.1, z)
        where
          none_counted : (f : Flag) → count k (payloads f no_deltas) ≡ 0
          none_counted announcement = refl
          none_counted withdrawal = refl

  -- What deltas that were computed from two tables say of a router key: announced once if only
  -- the new table has it, withdrawn once if only the old table has it, and not mentioned
  -- otherwise.
  pub count-compute_deltas-keys :
      (old new : Db rs ks) (m : Memory) (k : RouterKey) {r : Deltas × Memory}
      → compute_deltas rs ks old new m ≡ ok r
      → (count k (keys announcement r.0)
          ≡ bit (ks.find new.router_keys k && not (ks.find old.router_keys k)))
        × (count k (keys withdrawal r.0)
            ≡ bit (ks.find old.router_keys k && not (ks.find new.router_keys k)))
  count-compute_deltas-keys old new m k {r} h =
      let s = stages old new m {r = r} h in
      (omega (arith, total s announcement), omega (arith, total s withdrawal))
    where
      total :
          Stages old new m r
          → (f : Flag)
          → count k (keys f r.0)
            ≡ difference (ks.find new.router_keys) (ks.find old.router_keys) announcement f k
              + difference (ks.find old.router_keys) (ks.find new.router_keys) withdrawal f k
      total s f =
          let p =
            count-add_roa_deltas new.roas old.roas announcement f s.d0.0 s.d0.1 some_vrp {r = s.d1}
              s.roas_added in
          let q =
            count-add_roa_deltas old.roas new.roas withdrawal f s.d1.0 s.d1.1 some_vrp {r = s.d2}
              s.roas_removed in
          let i =
            count-add_router_key_deltas new.router_keys old.router_keys announcement f s.d2.0 s.d2.1
              k {r = s.d3} s.keys_added in
          let j =
            count-add_router_key_deltas old.router_keys new.router_keys withdrawal f s.d3.0 s.d3.1 k
              {r = r} s.keys_removed in
          let z : count k (keys f s.d0.0) ≡ 0 =
            ap (λ d. count k (keys f d)) (deltas_create-empty m s.created) ∙ none_counted f in
          omega (arith, i.0, j.0, ap (count k) p.1, ap (count k) q.1, z)
        where
          none_counted : (f : Flag) → count k (keys f no_deltas) ≡ 0
          none_counted announcement = refl
          none_counted withdrawal = refl
