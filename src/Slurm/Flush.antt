-- ===== src/Slurm/Flush.antt =====
-- src/slurm/db_slurm.c: the life of the cache, and what the database is asked for besides filters.
use fort_validator.Base.{ℕ, ◌+◌, Bool, ◌||◌, none, some, List, [], ◌∷◌, ltb, length}
use fort_validator.Base.Results.{Result, ok, err, crit, walk}
use fort_validator.Base.Memory.{Alloc, pure, ◌>>=◌, lift, for_each}
use fort_validator.Rtr.ArrayList
use fort_validator.Rtr.ArrayList.{ArrayList}
use fort_validator.Slurm.{
  SlurmPrefix, SlurmBgpsec, Wrap, SlurmLists, FileCsum, DbSlurm, slurm_lists_create,
}

unfoldable pub db_slurm_start_cache : DbSlurm → Alloc DbSlurm
db_slurm_start_cache db = do cache ← slurm_lists_create; pure (record db { cache = some cache })

abbrev pub slurm_bgpsec_wrap_refget : Wrap SlurmBgpsec → Wrap SlurmBgpsec
slurm_bgpsec_wrap_refget elem = record elem { references = elem.references + 1 }

abbrev pub refget_all : List (Wrap SlurmBgpsec) → List (Wrap SlurmBgpsec)
refget_all [] = []
refget_all (w ∷ ws) = slurm_bgpsec_wrap_refget w ∷ refget_all ws

-- The loop of the four functions that follow.
unfoldable pub persist : {A : Type 0} → List A → ArrayList A → Alloc (ArrayList A)
persist cached list = for_each (λ cursor l. ArrayList.add l cursor) cached list

unfoldable pub persist_filter_prefix : SlurmLists → SlurmLists → Alloc SlurmLists
persist_filter_prefix cache lists = do
  l ← persist cache.filter_prefixes.array lists.filter_prefixes
  pure (record lists { filter_prefixes = l })

unfoldable pub persist_assertion_prefix : SlurmLists → SlurmLists → Alloc SlurmLists
persist_assertion_prefix cache lists = do
  l ← persist cache.assertion_prefixes.array lists.assertion_prefixes
  pure (record lists { assertion_prefixes = l })

-- The elements of the cache, which were copied, gain a reference.
unfoldable pub persist_filter_bgpsec : SlurmLists → SlurmLists → Alloc (SlurmLists × SlurmLists)
persist_filter_bgpsec cache lists = do
  l ← persist cache.filter_bgpsecs.array lists.filter_bgpsecs
  pure (
    record cache {
      filter_bgpsecs = record cache.filter_bgpsecs {
        array = refget_all cache.filter_bgpsecs.array;
      };
    },
    record lists { filter_bgpsecs = l },
  )

unfoldable pub persist_assertion_bgpsec : SlurmLists → SlurmLists → Alloc (SlurmLists × SlurmLists)
persist_assertion_bgpsec cache lists = do
  l ← persist cache.assertion_bgpsecs.array lists.assertion_bgpsecs
  pure (
    record cache {
      assertion_bgpsecs = record cache.assertion_bgpsecs {
        array = refget_all cache.assertion_bgpsecs.array;
      };
    },
    record lists { assertion_bgpsecs = l },
  )

-- The four copies from the cache to the lists.
unfoldable pub flush_lists : SlurmLists → SlurmLists → Alloc SlurmLists
flush_lists cache lists = do
  lists1 ← persist_filter_prefix cache lists
  (cache2, lists2) ← persist_filter_bgpsec cache lists1
  lists3 ← persist_assertion_prefix cache2 lists2
  (cache4, lists4) ← persist_assertion_bgpsec cache2 lists3
  pure lists4

-- slurm_lists_destroy() drops the references of the cache, and with them nothing that is in use.
unfoldable pub db_slurm_flush_cache : DbSlurm → Alloc DbSlurm
db_slurm_flush_cache db = elim db.cache [
  | none ↦ lift crit
  | some cache ↦ do
    lists ← flush_lists cache db.lists
    pure (record db { lists = lists; cache = none })
]

unfoldable pub db_slurm_has_data : DbSlurm → Bool
db_slurm_has_data db =
    ltb 0 (length db.lists.filter_prefixes.array)
    || ltb 0 (length db.lists.filter_bgpsecs.array)
    || ltb 0 (length db.lists.assertion_prefixes.array)
    || ltb 0 (length db.lists.assertion_bgpsecs.array)

-- The argument is what get_current_time() gives.
unfoldable pub db_slurm_update_time : Result ℕ → DbSlurm → Result DbSlurm
db_slurm_update_time crit db = crit
db_slurm_update_time (err e) db = err e
db_slurm_update_time (ok now) db = ok (record db { loaded_date = some now })

unfoldable pub db_slurm_set_csum_list : DbSlurm → List FileCsum → Result DbSlurm
db_slurm_set_csum_list db list = elim db.csum_list [
  | [] ↦ ok (record db { csum_list = list })
  | _ ↦ crit
]

unfoldable pub db_slurm_get_csum_list : DbSlurm → List FileCsum
db_slurm_get_csum_list db = db.csum_list

unfoldable pub db_slurm_foreach_assertion_prefix :
    {S : Type 0} → DbSlurm → (SlurmPrefix → S → Result (Unit {0}) × S) → S → Result (Unit {0}) × S
db_slurm_foreach_assertion_prefix db cb s =
    walk (λ w. cb w.element) db.lists.assertion_prefixes.array s

unfoldable pub db_slurm_foreach_assertion_bgpsec :
    {S : Type 0} → DbSlurm → (SlurmBgpsec → S → Result (Unit {0}) × S) → S → Result (Unit {0}) × S
db_slurm_foreach_assertion_bgpsec db cb s =
    walk (λ w. cb w.element) db.lists.assertion_bgpsecs.array s
