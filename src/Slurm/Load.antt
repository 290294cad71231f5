-- ===== src/Slurm/Load.antt =====
-- src/slurm/slurm_loader.c: which SLURM a validation applies, the last one or one loaded anew.
-- The files, their checksums, their parser and the clock are arguments.
use fort_validator.Base.{
  ℕ, Bool, true, false, ◌&&◌, not, Option, none, some, List, [], ◌∷◌, ◌==◌, if◌then◌else◌, length,
  take,
}
use fort_validator.Base.Results.{Result, ok, err, crit}
use fort_validator.Base.Memory.{Alloc, pure, lift, ◌>>=◌}
use fort_validator.Rtr.Vrp.{bytes_eq}
use fort_validator.Slurm.{FileCsum, DbSlurm, any, db_slurm_create}
use fort_validator.Slurm.Flush.{
  db_slurm_has_data, db_slurm_update_time, db_slurm_set_csum_list, db_slurm_get_csum_list,
}

-- The argument is what process_file_or_dir() does with slurm_parse().
unfoldable pub load_slurm_files : (DbSlurm → Result DbSlurm) → Alloc (Option DbSlurm)
unfolding db_slurm_create
load_slurm_files parse = do
  db ← db_slurm_create
  db' ← lift (parse db)
  pure (if db_slurm_has_data db' then some db' else none)

-- The body of the inner loop.
unfoldable pub same_csum : FileCsum → FileCsum → Bool
same_csum newcsum old =
    newcsum.csum_len == old.csum_len
    && bytes_eq (take newcsum.csum_len newcsum.csum) (take newcsum.csum_len old.csum)

-- The outer loop.
unfoldable pub all_found : List FileCsum → List FileCsum → Bool
all_found [] old_list = true
all_found (newcsum ∷ new_list) old_list =
    if any (same_csum newcsum) old_list then all_found new_list old_list else false

-- `list_size` is the length of its list.
unfoldable pub are_csum_lists_equals : List FileCsum → List FileCsum → Bool
are_csum_lists_equals new_list old_list =
    if not (length new_list == length old_list) then false else all_found new_list old_list

-- From the label on: the last SLURM, or else what is loaded.
abbrev pub use_last_slurm : Option DbSlurm → Option DbSlurm → Option DbSlurm
use_last_slurm none db_slurm = db_slurm
use_last_slurm (some last) db_slurm = some last

-- `db_slurm` of the parameters and `last_slurm`.
abbrev pub Chosen : Type 0
Chosen = Option DbSlurm × Option DbSlurm

-- __load_slurm_files(), given what load_slurm_files() and get_current_time() give.
unfoldable pub load_or_use_last :
    Result (Option DbSlurm) → Result ℕ → Option DbSlurm → List FileCsum → Result Chosen
load_or_use_last crit now last csum_list = crit
load_or_use_last (err e) now last csum_list = ok (use_last_slurm last none, last)
load_or_use_last (ok none) now last csum_list = ok (none, none)
load_or_use_last (ok (some db)) now last csum_list = elim (db_slurm_update_time now db) [
  | crit ↦ crit
  | err e ↦ ok (use_last_slurm last (some db), last)
  | ok timed ↦ elim (db_slurm_set_csum_list timed csum_list) [
    | crit ↦ crit
    | err e ↦ err e
    | ok new ↦ ok (some new, some new)
  ]
]

abbrev pub list_equals : Option DbSlurm → List FileCsum → Bool
list_equals none csum_list = false
list_equals (some last) csum_list = are_csum_lists_equals csum_list (db_slurm_get_csum_list last)

-- The first argument is what slurm_load_checksums() gives.
unfoldable pub load_updated_slurm :
    Result (List FileCsum) → Result (Option DbSlurm) → Result ℕ → Option DbSlurm → Result Chosen
load_updated_slurm crit files now last = crit
load_updated_slurm (err e) files now last = err e
load_updated_slurm (ok csum_list) files now last =
    if list_equals last csum_list
    then ok (last, last)
    else if length csum_list == 0
    then ok (none, none)
    else load_or_use_last files now last csum_list
