-- ===== src/Slurm/Apply.antt =====
-- src/slurm/slurm_loader.c: the filters and assertions applied to a copy of the validated table.
-- What is applied is given, with the error of its loading; the hash tables are parameters.
pub mod Tables
pub mod Rounds
use fort_validator.Base.{Bool, true, false, not, Option, none, some, List, [], ◌∷◌, if◌then◌else◌}
use fort_validator.Base.Results.{Result, ok, err, crit, and_then}
use fort_validator.Base.Memory.{Alloc, Memory}
use fort_validator.Rtr.Keys.{HashTable}
use fort_validator.Rtr.Vrp.{Address, v4, v6, Vrp, RouterKey, vrp_keys, router_key_keys}
use fort_validator.Rtr.Table.{
  Db, db_table_foreach_roa, db_table_foreach_router_key, db_table_remove_roa,
  db_table_remove_router_key, rtrhandler_handle_roa_v4, rtrhandler_handle_roa_v6,
  rtrhandler_handle_router_key, db_table_clone,
}
use fort_validator.Slurm.{
  SlurmPrefix, SlurmBgpsec, DbSlurm, has, flag_max_length, db_slurm_vrp_is_filtered,
  db_slurm_bgpsec_is_filtered,
}
use fort_validator.Slurm.Flush.{
  db_slurm_foreach_assertion_prefix, db_slurm_foreach_assertion_bgpsec,
}

-- Whether the next allocation succeeds, and what is left.
abbrev pub next_allocation : Memory → Bool × Memory
next_allocation [] = (true, [])
next_allocation (b ∷ m) = (b, m)

-- The payload of an assertion: without a maximum length, its own length is the maximum.
abbrev pub asserted_vrp : SlurmPrefix → Vrp
asserted_vrp prefix =
    if has prefix.data_flag flag_max_length
    then prefix.vrp
    else record prefix.vrp { max_prefix_length = prefix.vrp.prefix_length }

module _ (rs : HashTable Vrp) (ks : HashTable RouterKey) where
  -- The table in `struct slurm_parser_params`, and what the allocations to come return.
  abbrev pub Work : Type 0
  Work = Db rs ks × Memory

  -- A call that changes the table, in a callback.
  unfoldable pub in_work : (Db rs ks → Alloc (Db rs ks)) → Work → Result (Unit {0}) × Work
  in_work change (table, m) = elim (change table m) [
    | ok work ↦ (ok tt, work)
    | err e ↦ (err e, (table, m))
    | crit ↦ (crit, (table, m))
  ]

  unfoldable pub slurm_pfx_filters_apply : DbSlurm → Vrp → Work → Result (Unit {0}) × Work
  slurm_pfx_filters_apply slurm vrp (table, m) = (
    ok tt,
    (
      (if db_slurm_vrp_is_filtered slurm vrp then db_table_remove_roa rs ks table vrp else table),
      m,
    ),
  )

  unfoldable pub slurm_bgpsec_filters_apply : DbSlurm → RouterKey → Work → Result (Unit {0}) × Work
  slurm_bgpsec_filters_apply slurm key (table, m) =
      let (allocated, m') = next_allocation m in
      (
        ok tt,
        (
          (if db_slurm_bgpsec_is_filtered allocated slurm key
              then db_table_remove_router_key rs ks table key
              else table),
          m',
        ),
      )

  unfoldable pub slurm_pfx_assertions_add : SlurmPrefix → Work → Result (Unit {0}) × Work
  slurm_pfx_assertions_add prefix work =
      let vrp = asserted_vrp prefix in
      elim vrp.prefix [
        | v4 a ↦
            in_work
              (λ t.
                rtrhandler_handle_roa_v4 rs ks t vrp.asn a vrp.prefix_length vrp.max_prefix_length)
              work
        | v6 a ↦
            in_work
              (λ t.
                rtrhandler_handle_roa_v6 rs ks t vrp.asn a vrp.prefix_length vrp.max_prefix_length)
              work
      ]

  unfoldable pub slurm_pfx_assertions_apply : DbSlurm → Work → Result (Unit {0}) × Work
  slurm_pfx_assertions_apply slurm work =
      db_slurm_foreach_assertion_prefix slurm slurm_pfx_assertions_add work

  unfoldable pub slurm_bgpsec_assertions_add : SlurmBgpsec → Work → Result (Unit {0}) × Work
  slurm_bgpsec_assertions_add bgpsec work =
      in_work
        (λ t. rtrhandler_handle_router_key rs ks t bgpsec.ski bgpsec.asn bgpsec.router_public_key)
        work

  unfoldable pub slurm_bgpsec_assertions_apply : DbSlurm → Work → Result (Unit {0}) × Work
  slurm_bgpsec_assertions_apply slurm work =
      db_slurm_foreach_assertion_bgpsec slurm slurm_bgpsec_assertions_add work

  -- From the copy of the base on.
  unfoldable pub apply_to_copy : DbSlurm → Work → Result (Unit {0}) × Work
  apply_to_copy slurm work =
      and_then (db_table_foreach_roa rs ks work.0 (slurm_pfx_filters_apply slurm) work) (λ w1.
        and_then (db_table_foreach_router_key rs ks w1.0 (slurm_bgpsec_filters_apply slurm) w1)
          (λ w2.
            and_then (slurm_pfx_assertions_apply slurm w2)
              (λ w3. slurm_bgpsec_assertions_apply slurm w3)))

  -- What an applied copy leaves as the base.
  abbrev pub replaced : Db rs ks → Result (Unit {0}) × Work → Result (Unit {0}) × Db rs ks
  replaced base (ok _, (table, _)) = (ok tt, table)
  replaced base (err e, _) = (err e, base)
  replaced base (crit, _) = (crit, base)

  -- `loaded` is what load_updated_slurm() gives, `none` where there is no SLURM.
  unfoldable pub slurm_apply :
      Result (Option DbSlurm) → Db rs ks → Memory → Result (Unit {0}) × Db rs ks
  slurm_apply crit base m = (crit, base)
  slurm_apply (err e) base m = (err e, base)
  slurm_apply (ok none) base m = (ok tt, base)
  slurm_apply (ok (some slurm)) base m = elim (db_table_clone rs ks base m) [
    | ok work ↦ replaced base (apply_to_copy slurm work)
    | err e ↦ (err e, base)
    | crit ↦ (crit, base)
  ]
