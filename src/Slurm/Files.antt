-- ===== src/Slurm/Files.antt =====
-- A SLURM file as db_slurm.c takes it in, from the start of the cache to its flush.
use fort_validator.Base.{◌≡◌, subst, none}
use fort_validator.Base.Results.{ok}
use fort_validator.Base.Memory.{Memory}
use fort_validator.Slurm.{DbSlurm}
use fort_validator.Slurm.Flush.{db_slurm_start_cache, db_slurm_flush_cache}
use fort_validator.Slurm.Conflicts.{NoConflict, entries_of}
use fort_validator.Slurm.Reading.{Adds, Adds-Loading, start-Loading, entries}
use fort_validator.Slurm.Append.{IsAppend, flush-eq-ok}

-- A file is read: the cache is started, entries are added in any order, and the cache is flushed, all
-- without error. Then each list is the old one with the entries that were added to it after it, in
-- the order in which they were, the cache is gone, and no entry of the file contains one of the
-- earlier entries or is contained in one: no two files conflict.
pub file-NoConflict :
    (db db1 db2 db3 : DbSlurm) (m m' n n' : Memory)
    → db_slurm_start_cache db m ≡ ok (db1, m')
    → (adds : Adds db1 db2) → db_slurm_flush_cache db2 n ≡ ok (db3, n')
    → IsAppend db.lists (entries adds) db3.lists
      × NoConflict db.lists (entries adds)
      × (db3.cache ≡ none)
file-NoConflict db db1 db2 db3 m m' n n' h adds f =
    let l = Adds-Loading db.lists adds (start-Loading db db1 m m' h) in
    let (a, gone) = flush-eq-ok db2 db3 n n' l.cache l.cached f in
    (
      subst (λ z. IsAppend db.lists z db3.lists) l.held
          (subst (λ z. IsAppend z (entries_of l.cache) db3.lists) l.same a),
      l.apart,
      gone,
    )
