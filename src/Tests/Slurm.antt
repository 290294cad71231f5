-- ===== src/Tests/Slurm.antt =====
-- SLURM filters and files at concrete values.
use fort_validator.Base.{ℕ, ◌+◌, ◌≡◌, ◌↔◌, refl, true, not, ◌&&◌, ◌||◌, none, some, [], ◌∷◌, arith}
use fort_validator.Base.Results.{ok, walk}
use fort_validator.Base.Memory.{malloc, for_each}
use fort_validator.Address.{u32_suffix_mask, ipv4_covered}
use fort_validator.Rtr.ArrayList
use fort_validator.Rtr.ArrayList.{ArrayList, make_room, grow}
use fort_validator.Rtr.Vrp.{v4, Vrp, RouterKey, vrp_keys, router_key_keys, vrp_eq, address_eq}
use fort_validator.Slurm.{
  SlurmPrefix, SlurmBgpsec, Wrap, DbSlurm, no_lists, wrap, slurm_lists_create, vrp_prefix_cov, any,
  touches, prefix_contained, prefix_exists, in_cache, db_slurm_add_prefix_assertion,
  db_slurm_vrp_is_filtered, prefix_filtered, prefix_filtered_by, filtered_by,
  db_slurm_bgpsec_is_filtered,
}
use fort_validator.Slurm.Filters.{
  SomeFilter, MatchesVrp, MatchesKey, db_slurm_vrp_is_filtered_iff, db_slurm_bgpsec_is_filtered_iff,
}
use fort_validator.Slurm.Apply.{
  slurm_apply, apply_to_copy, slurm_pfx_filters_apply, slurm_bgpsec_filters_apply,
  slurm_pfx_assertions_apply, slurm_pfx_assertions_add, in_work, slurm_bgpsec_assertions_apply,
}
use fort_validator.Slurm.Apply.Rounds.{is_asserted}
use fort_validator.Slurm.Apply.Tables.{find-slurm_apply}
use fort_validator.Rtr.Table.{
  Db, db_table_clone, db_table_create, db_table_merge, duplicate_roa, rtrhandler_handle_roa_v4,
  add_roa, db_table_foreach_roa, db_table_foreach_router_key, db_table_remove_roa,
}
use fort_validator.Tests.Tables.{list_table, find_in, items_of, delete_from}
use fort_validator.Slurm.Flush.{
  db_slurm_start_cache, persist, persist_filter_prefix, persist_filter_bgpsec,
  persist_assertion_prefix, persist_assertion_bgpsec, flush_lists, db_slurm_flush_cache,
  db_slurm_foreach_assertion_prefix, db_slurm_foreach_assertion_bgpsec,
}
use fort_validator.Slurm.Conflicts.{NoConflict}
use fort_validator.Slurm.Reading.{Adds, done, prefix_assertion, entries}
use fort_validator.Slurm.Append.{IsAppend}
use fort_validator.Slurm.Files.{file-NoConflict}

-- A payload for a network of 10.0.0.0/8, by its second byte.
abbrev payload : ℕ → ℕ → Vrp
payload asn second = record {
  asn = asn;
  prefix = v4 (0x0A00_0000 + second);
  prefix_length = 16;
  max_prefix_length = 24;
}

abbrev filters : ArrayList (Wrap SlurmPrefix)
filters = record {
  array = wrap (record { data_flag = 5; vrp = payload 64_500 0x1_0000 }) ∷ [];
  capacity = 8;
}

abbrev key_filters : ArrayList (Wrap SlurmBgpsec)
key_filters = record {
  array = wrap (record { data_flag = 1; asn = 64_500; ski = []; router_public_key = [] }) ∷ [];
  capacity = 8;
}

abbrev db : DbSlurm
db = record {
  lists = record no_lists { filter_prefixes = filters; filter_bgpsecs = key_filters };
  cache = none;
  loaded_date = none;
  csum_list = [];
}

db_slurm_vrp_is_filtered_iff_example :
    (db_slurm_vrp_is_filtered db (payload 64_500 0x1_0000) ≡ true)
    ↔ SomeFilter filters.array (λ f. MatchesVrp f (payload 64_500 0x1_0000))
db_slurm_vrp_is_filtered_iff_example =
    db_slurm_vrp_is_filtered_iff db (payload 64_500 0x1_0000) (ground arith)

abbrev router_key : RouterKey
router_key = record { ski = 1 ∷ []; as_number = 64_500; spk = 2 ∷ [] }

db_slurm_bgpsec_is_filtered_iff_example :
    (db_slurm_bgpsec_is_filtered true db router_key ≡ true)
    ↔ SomeFilter key_filters.array (λ f. MatchesKey f router_key)
db_slurm_bgpsec_is_filtered_iff_example =
    db_slurm_bgpsec_is_filtered_iff db router_key (ground arith)

abbrev started : DbSlurm
started = record db { cache = some no_lists }

starts : db_slurm_start_cache db [] ≡ ok (started, [])
unfolding db_slurm_start_cache slurm_lists_create malloc
starts = refl

-- An assertion about 10.2.0.0/16, which the filter of 10.1.0.0/16 does not touch.
abbrev assertion : SlurmPrefix
assertion = record { data_flag = 13; vrp = payload 64_501 0x2_0000 }

abbrev asserted : ArrayList (Wrap SlurmPrefix)
asserted = record { array = wrap assertion ∷ []; capacity = 8 }

abbrev filled : DbSlurm
filled = record db { cache = some (record no_lists { assertion_prefixes = asserted }) }

adds_assertion : db_slurm_add_prefix_assertion started assertion [] ≡ ok (filled, [])
unfolding db_slurm_add_prefix_assertion prefix_exists touches any prefix_contained vrp_prefix_cov
    ipv4_covered u32_suffix_mask in_cache ArrayList.add make_room grow malloc
adds_assertion = refl

abbrev flushed : DbSlurm
flushed = record db {
  lists = record no_lists {
    filter_prefixes = filters;
    filter_bgpsecs = key_filters;
    assertion_prefixes = asserted;
  };
}

flushes : db_slurm_flush_cache filled [] ≡ ok (flushed, [])
unfolding db_slurm_flush_cache flush_lists persist_filter_prefix persist_filter_bgpsec
    persist_assertion_prefix persist_assertion_bgpsec persist for_each ArrayList.add make_room grow
    malloc
flushes = refl

adds : Adds started filled
adds = prefix_assertion assertion [] [] done adds_assertion

file-NoConflict_example :
    IsAppend db.lists (entries adds) flushed.lists
    × NoConflict db.lists (entries adds)
    × (flushed.cache ≡ none)
file-NoConflict_example = file-NoConflict db started filled flushed [] [] [] [] starts adds flushes

-- A base with a payload that the filter removes and one that it leaves.
abbrev base : Db list_table list_table
base = record { roas = payload 64_500 0x1_0000 ∷ payload 64_500 0x3_0000 ∷ []; router_keys = [] }

abbrev applied : Db list_table list_table
applied = record { roas = assertion.vrp ∷ payload 64_500 0x3_0000 ∷ []; router_keys = [] }

applies : slurm_apply list_table list_table (ok (some flushed)) base [] ≡ (ok tt, applied)
unfolding slurm_apply apply_to_copy db_table_clone db_table_create db_table_merge for_each malloc
    find_in items_of delete_from duplicate_roa rtrhandler_handle_roa_v4 add_roa db_table_foreach_roa
    db_table_foreach_router_key walk slurm_pfx_filters_apply db_slurm_vrp_is_filtered
    prefix_filtered prefix_filtered_by filtered_by any vrp_prefix_cov ipv4_covered u32_suffix_mask
    db_table_remove_roa slurm_bgpsec_filters_apply slurm_pfx_assertions_apply
    db_slurm_foreach_assertion_prefix slurm_pfx_assertions_add in_work slurm_bgpsec_assertions_apply
    db_slurm_foreach_assertion_bgpsec vrp_eq address_eq
applies = refl

find-slurm_apply_example : find_in applied.roas (payload 64_500 0x1_0000) ≡ (
    is_asserted (payload 64_500 0x1_0000) asserted.array
    || (find_in base.roas (payload 64_500 0x1_0000)
        && not (db_slurm_vrp_is_filtered flushed (payload 64_500 0x1_0000))))
find-slurm_apply_example =
    find-slurm_apply list_table list_table flushed base [] (payload 64_500 0x1_0000) applies
