-- ===== src/Slurm/Apply/Rounds.antt =====
-- The loops of slurm_apply() of src/slurm/slurm_loader.c, and what each leaves of the ROA payloads.
use fort_validator.Base.{
  ◌≡◌, refl, sym, ap, ◌∙◌, inl, inr, Bool, not, ◌&&◌, ◌||◌, List, [], ◌∷◌, ◌++◌, ◌==◌, arith,
  Bool-cases,
}
use fort_validator.Base.Results.{Result, ok, err, crit, walk, walk-keeps, and_then-eq-ok}
use fort_validator.Base.Memory.{Alloc}
use fort_validator.Rtr.Keys.{Eq, HashTable, ◌=?◌, count, count-append}
use fort_validator.Rtr.Vrp.{Address, v4, v6, Vrp, RouterKey, vrp_keys, router_key_keys}
use fort_validator.Rtr.Table.{
  Db, db_table_foreach_roa, db_table_foreach_router_key, db_table_remove_roa,
  db_table_remove_router_key, duplicate_roa, duplicate_key,
}
use fort_validator.Rtr.Table.Merge.{find-duplicate_roa, find-duplicate_key}
use fort_validator.Slurm.{
  SlurmPrefix, SlurmBgpsec, Wrap, DbSlurm, any, db_slurm_vrp_is_filtered,
  db_slurm_bgpsec_is_filtered,
}
use fort_validator.Slurm.Flush.{db_slurm_foreach_assertion_bgpsec}
use fort_validator.Slurm.Apply.{
  next_allocation, asserted_vrp, Work, in_work, slurm_pfx_filters_apply, slurm_bgpsec_filters_apply,
  slurm_pfx_assertions_add, slurm_bgpsec_assertions_add, slurm_bgpsec_assertions_apply,
}

find-delete :
    {K : Type 0} ⦃e : Eq K⦄ (h : HashTable K) (t : h.Table) (k j : K)
    → h.find (h.delete t k) j ≡ (not (k =? j) && h.find t j)
find-delete h t k j =
    ground (arith, h.count-items (h.delete t k) j, h.count-items t j, h.count-delete t k j)

-- A payload that some assertion of the list is about.
abbrev pub is_asserted : Vrp → List (Wrap SlurmPrefix) → Bool
is_asserted j = any (λ b. asserted_vrp b.element =? j)

module _ (rs : HashTable Vrp) (ks : HashTable RouterKey) where
  -- One round of the loop over the payloads.
  find-slurm_pfx_filters_apply :
      (slurm : DbSlurm) (x j : Vrp) (w w' : Work rs ks)
      → slurm_pfx_filters_apply rs ks slurm x w ≡ (ok tt, w')
      → rs.find w'.0.roas j
        ≡ (not (x =? j && db_slurm_vrp_is_filtered slurm x) && rs.find w.0.roas j)
  unfolding slurm_pfx_filters_apply db_table_remove_roa
  find-slurm_pfx_filters_apply slurm x j w w' h =
      elim (Bool-cases (db_slurm_vrp_is_filtered slurm x)) [
        | inl e ↦
            let same : (record w.0 { roas = rs.delete w.0.roas x }, w.1) ≡ w' =
              ap (λ p. p.1) (rw (e, slurm_pfx_filters_apply) at h) in
            ap (λ (q : Work rs ks). rs.find q.0.roas j) (sym same)
            ∙ ground (arith, find-delete rs w.0.roas x j)
        | inr e ↦
            let same : w ≡ w' = ap (λ p. p.1) (rw (e, slurm_pfx_filters_apply) at h) in
            ap (λ (q : Work rs ks). rs.find q.0.roas j) (sym same) ∙ ground arith
      ]

  in_work-eq-ok :
      (change : Db rs ks → Alloc (Db rs ks)) (w w' : Work rs ks)
      → in_work rs ks change w ≡ (ok tt, w')
      → change w.0 w.1 ≡ ok w'
  unfolding in_work
  in_work-eq-ok change w w' h = go (change w.0 w.1) refl
    where
      go : (r : Result (Work rs ks)) → change w.0 w.1 ≡ r → change w.0 w.1 ≡ ok w'
      go (ok w1) e = ground (arith, rw (e, in_work) at h)
      go (err x) e = ground (arith, rw (e, in_work) at h)
      go crit e = ground (arith, rw (e, in_work) at h)

  -- An assertion is stored the way a payload is copied.
  slurm_pfx_assertions_add-duplicate_roa :
      (prefix : SlurmPrefix) (w : Work rs ks)
      → slurm_pfx_assertions_add rs ks prefix w
        ≡ in_work rs ks (λ t. duplicate_roa rs ks t (asserted_vrp prefix)) w
  unfolding slurm_pfx_assertions_add duplicate_roa
  slurm_pfx_assertions_add-duplicate_roa prefix w = go (asserted_vrp prefix).prefix refl
    where
      go :
          (a : Address)
          → (asserted_vrp prefix).prefix ≡ a
          → slurm_pfx_assertions_add rs ks prefix w
            ≡ in_work rs ks (λ t. duplicate_roa rs ks t (asserted_vrp prefix)) w
      go (v4 a) e = rw (e, slurm_pfx_assertions_add, duplicate_roa) refl
      go (v6 a) e = rw (e, slurm_pfx_assertions_add, duplicate_roa) refl

  pub find-filters :
      (slurm : DbSlurm) (j : Vrp) (w w' : Work rs ks)
      → db_table_foreach_roa rs ks w.0 (slurm_pfx_filters_apply rs ks slurm) w ≡ (ok tt, w')
      → rs.find w'.0.roas j ≡ (rs.find w.0.roas j && not (db_slurm_vrp_is_filtered slurm j))
  unfolding db_table_foreach_roa
  find-filters slurm j w w' h =
      let end =
        walk-keeps (slurm_pfx_filters_apply rs ks slurm) (λ xs (s : Work rs ks). Left xs s) one []
          (rs.items w.0.roas) w w' h (ground arith) in
      ground (arith, end, rs.count-items w.0.roas j)
    where
      Left : List Vrp → Work rs ks → Type 0
      Left xs s =
          rs.find s.0.roas j
          ≡ (rs.find w.0.roas j && (count j xs == 0 || not (db_slurm_vrp_is_filtered slurm j)))

      one :
          (xs : List Vrp) (x : Vrp) (s s' : Work rs ks)
          → slurm_pfx_filters_apply rs ks slurm x s ≡ (ok tt, s')
          → Left xs s
          → Left (xs ++ x ∷ []) s'
      one xs x s s' h i =
          let step = find-slurm_pfx_filters_apply slurm x j s s' h in
          let counted = count-append j xs (x ∷ []) in
          elim (Bool-cases (x =? j)) [
            | inl e ↦
                let same = ap (db_slurm_vrp_is_filtered slurm) ((vrp_keys.beq_iff x j).0 e) in
                ground (arith, step, counted, same)
            | inr e ↦ ground (arith, step, counted)
          ]

  -- The filters and assertions of router keys leave the payloads as they are.
  pub roas-key_filters :
      (slurm : DbSlurm) (w w' : Work rs ks)
      → db_table_foreach_router_key rs ks w.0 (slurm_bgpsec_filters_apply rs ks slurm) w
        ≡ (ok tt, w')
      → w'.0.roas ≡ w.0.roas
  unfolding db_table_foreach_router_key slurm_bgpsec_filters_apply db_table_remove_router_key
  roas-key_filters slurm w w' h =
      walk-keeps (slurm_bgpsec_filters_apply rs ks slurm)
        (λ xs (s : Work rs ks). s.0.roas ≡ w.0.roas) one [] (ks.items w.0.router_keys) w w' h refl
    where
      one :
          (xs : List RouterKey) (x : RouterKey) (s s' : Work rs ks)
          → slurm_bgpsec_filters_apply rs ks slurm x s ≡ (ok tt, s')
          → s.0.roas ≡ w.0.roas
          → s'.0.roas ≡ w.0.roas
      one xs x s s' h i =
          elim (Bool-cases (db_slurm_bgpsec_is_filtered (next_allocation s.1).0 slurm x)) [
            | inl e ↦ ap (λ p. p.1.0.roas) (sym (rw (e, slurm_bgpsec_filters_apply) at h)) ∙ i
            | inr e ↦ ap (λ p. p.1.0.roas) (sym (rw (e, slurm_bgpsec_filters_apply) at h)) ∙ i
          ]

  pub roas-key_assertions :
      (slurm : DbSlurm) (w w' : Work rs ks)
      → slurm_bgpsec_assertions_apply rs ks slurm w ≡ (ok tt, w')
      → w'.0.roas ≡ w.0.roas
  unfolding slurm_bgpsec_assertions_apply db_slurm_foreach_assertion_bgpsec
      slurm_bgpsec_assertions_add duplicate_key
  roas-key_assertions slurm w w' h =
      walk-keeps (λ (b : Wrap SlurmBgpsec). slurm_bgpsec_assertions_add rs ks b.element)
        (λ xs (s : Work rs ks). s.0.roas ≡ w.0.roas)
        (λ xs b s s' h i.
          let key : RouterKey = record {
            ski = b.element.ski;
            as_number = b.element.asn;
            spk = b.element.router_public_key;
          } in
          (find-duplicate_key rs ks s.0 key key s.1 {r = s'} (in_work-eq-ok _ s s' h)).1 ∙ i)
        [] slurm.lists.assertion_bgpsecs.array w w' h refl

  pub find-assertions :
      (bs : List (Wrap SlurmPrefix)) (j : Vrp) (w w' : Work rs ks)
      → walk (λ b. slurm_pfx_assertions_add rs ks b.element) bs w ≡ (ok tt, w')
      → rs.find w'.0.roas j ≡ (is_asserted j bs || rs.find w.0.roas j)
  unfolding walk any
  find-assertions [] j w w' h = ap (λ p. rs.find p.1.0.roas j) (sym h)
  find-assertions (b ∷ bs) j w w' h =
      let (w1, h1, h2) = and_then-eq-ok (slurm_pfx_assertions_add rs ks b.element w) _ h in
      let added =
        in_work-eq-ok _ w w1 (sym (slurm_pfx_assertions_add-duplicate_roa b.element w) ∙ h1) in
      ground (
        arith,
        (find-duplicate_roa rs ks w.0 (asserted_vrp b.element) j w.1 {r = w1} added).0,
        find-assertions bs j w1 w' h2,
      )
