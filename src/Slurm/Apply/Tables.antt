-- ===== src/Slurm/Apply/Tables.antt =====
-- What slurm_apply() of src/slurm/slurm_loader.c leaves of the ROA payloads of the base.
use fort_validator.Base.{◌≡◌, refl, sym, ap, not, ◌&&◌, ◌||◌, Option, none, some, [], arith}
use fort_validator.Base.Results.{Result, ok, err, crit, and_then-eq-ok}
use fort_validator.Base.Memory.{Memory}
use fort_validator.Rtr.Keys.{HashTable}
use fort_validator.Rtr.Vrp.{Vrp, RouterKey, vrp_keys, router_key_keys}
use fort_validator.Rtr.Table.{Db, db_table_foreach_roa, db_table_foreach_router_key, db_table_clone}
use fort_validator.Rtr.Table.Merge.{find-db_table_clone}
use fort_validator.Slurm.{DbSlurm, db_slurm_vrp_is_filtered}
use fort_validator.Slurm.Flush.{db_slurm_foreach_assertion_prefix}
use fort_validator.Slurm.Apply.{
  Work, slurm_pfx_filters_apply, slurm_bgpsec_filters_apply, slurm_pfx_assertions_apply,
  apply_to_copy, replaced, slurm_apply,
}
use fort_validator.Slurm.Apply.Rounds.{
  is_asserted, find-filters, roas-key_filters, roas-key_assertions, find-assertions,
}

abbrev nothing : RouterKey
nothing = record { ski = []; as_number = 0; spk = [] }

module _ (rs : HashTable Vrp) (ks : HashTable RouterKey) where
  find-apply_to_copy :
      (slurm : DbSlurm) (v : Vrp) (w w' : Work rs ks)
      → apply_to_copy rs ks slurm w ≡ (ok tt, w')
      → rs.find w'.0.roas v ≡ (
          is_asserted v slurm.lists.assertion_prefixes.array
          || (rs.find w.0.roas v && not (db_slurm_vrp_is_filtered slurm v)))
  unfolding apply_to_copy slurm_pfx_assertions_apply db_slurm_foreach_assertion_prefix
  find-apply_to_copy slurm v w w' h =
      let (w1, e1, h1) =
        and_then-eq-ok (db_table_foreach_roa rs ks w.0 (slurm_pfx_filters_apply rs ks slurm) w) _
          h in
      let (w2, e2, h2) =
        and_then-eq-ok
          (db_table_foreach_router_key rs ks w1.0 (slurm_bgpsec_filters_apply rs ks slurm) w1) _
          h1 in
      let (w3, e3, h3) = and_then-eq-ok (slurm_pfx_assertions_apply rs ks slurm w2) _ h2 in
      ground (
        arith,
        ap (λ t. rs.find t v) (roas-key_assertions rs ks slurm w3 w' h3),
        find-assertions rs ks slurm.lists.assertion_prefixes.array v w2 w3 e3,
        ap (λ t. rs.find t v) (roas-key_filters rs ks slurm w1 w2 e2),
        find-filters rs ks slurm v w w1 e1,
      )

  -- What is applied to the end stands in the place of the base.
  slurm_apply-eq-ok :
      (slurm : DbSlurm) (base : Db rs ks) (m : Memory) {r : Db rs ks}
      → slurm_apply rs ks (ok (some slurm)) base m ≡ (ok tt, r)
      → (work work' : Work rs ks) × (db_table_clone rs ks base m ≡ ok work)
        × (apply_to_copy rs ks slurm work ≡ (ok tt, work'))
        × (work'.0 ≡ r)
  unfolding slurm_apply
  slurm_apply-eq-ok slurm base m {r} h = cloned (db_table_clone rs ks base m) refl
    where
      applied :
          (work : Work rs ks) (o : Result (Unit {0}) × Work rs ks)
          → db_table_clone rs ks base m ≡ ok work
          → apply_to_copy rs ks slurm work ≡ o
          → replaced rs ks base o ≡ (ok tt, r)
          → (work work' : Work rs ks) × (db_table_clone rs ks base m ≡ ok work)
            × (apply_to_copy rs ks slurm work ≡ (ok tt, work'))
            × (work'.0 ≡ r)
      applied work (ok tt, w') c e d = (work, w', c, e, ap (λ p. p.1) d)
      applied work (err x, w') c e d = cc
      applied work (crit, w') c e d = cc

      cloned :
          (c : Result (Work rs ks))
          → db_table_clone rs ks base m ≡ c
          → (work work' : Work rs ks) × (db_table_clone rs ks base m ≡ ok work)
            × (apply_to_copy rs ks slurm work ≡ (ok tt, work'))
            × (work'.0 ≡ r)
      cloned (ok work) e =
          applied work (apply_to_copy rs ks slurm work) e refl (rw (e, slurm_apply) at h)
      cloned (err x) e = let no = rw (e, slurm_apply) at h in cc
      cloned crit e = let no = rw (e, slurm_apply) at h in cc

  -- A SLURM that is applied leaves the payloads that some assertion is about, and those of the base
  -- that no filter removes.
  pub find-slurm_apply :
      (slurm : DbSlurm) (base : Db rs ks) (m : Memory) (v : Vrp) {r : Db rs ks}
      → slurm_apply rs ks (ok (some slurm)) base m ≡ (ok tt, r)
      → rs.find r.roas v ≡ (
          is_asserted v slurm.lists.assertion_prefixes.array
          || (rs.find base.roas v && not (db_slurm_vrp_is_filtered slurm v)))
  find-slurm_apply slurm base m v h =
      let (work, work', c, e, same) = slurm_apply-eq-ok slurm base m h in
      ground (
        arith,
        ap (λ (t : Db rs ks). rs.find t.roas v) same,
        find-apply_to_copy slurm v work work' e,
        (find-db_table_clone rs ks base m v nothing {r = work} c).0,
      )

  -- A SLURM that cannot be applied to the end leaves the base as it was.
  pub slurm_apply-fails :
      (loaded : Result (Option DbSlurm)) (base : Db rs ks) (m : Memory) (result : Result (Unit {0}))
      (r : Db rs ks)
      → slurm_apply rs ks loaded base m ≡ (result, r)
      → ¬ (result ≡ ok tt)
      → r ≡ base
  unfolding slurm_apply
  slurm_apply-fails crit base m result r h n = ap (λ p. p.1) (sym h)
  slurm_apply-fails (err x) base m result r h n = ap (λ p. p.1) (sym h)
  slurm_apply-fails (ok none) base m result r h n = ap (λ p. p.1) (sym h)
  slurm_apply-fails (ok (some slurm)) base m result r h n =
      cloned (db_table_clone rs ks base m) refl
    where
      applied :
          (o : Result (Unit {0}) × Work rs ks) → replaced rs ks base o ≡ (result, r) → r ≡ base
      applied (ok tt, w) e = absurd (n (ap (λ p. p.0) (sym e)))
      applied (err x, w) e = ap (λ p. p.1) (sym e)
      applied (crit, w) e = ap (λ p. p.1) (sym e)

      cloned : (c : Result (Work rs ks)) → db_table_clone rs ks base m ≡ c → r ≡ base
      cloned (ok work) e = applied (apply_to_copy rs ks slurm work) (rw (e, slurm_apply) at h)
      cloned (err x) e = ap (λ p. p.1) (sym (rw (e, slurm_apply) at h))
      cloned crit e = ap (λ p. p.1) (sym (rw (e, slurm_apply) at h))
