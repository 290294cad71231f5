-- ===== src/Rtr/Table.antt =====
-- rtr/db/db_table.c: the table of validated ROA payloads and router keys. The hash tables of
-- uthash.h are parameters.
pub mod Difference
pub mod Merge
use fort_validator.Base.{
  ℕ, ◌+◌, ◌^◌, ◌%◌, Bool, true, false, Option, none, some, List, length, if◌then◌else◌,
}
use fort_validator.Base.Results.{Result, ok, err, enomem, and_then, walk}
use fort_validator.Base.Memory.{Alloc, malloc, pure, for_each, ◌>>=◌, ◌>>◌}
use fort_validator.Rtr.Keys.{HashTable}
use fort_validator.Rtr.Vrp.{
  Address, v4, v6, Vrp, RouterKey, Flag, announcement, withdrawal, vrp_keys, router_key_keys,
}
use fort_validator.Rtr.Deltas.{
  DeltaRoa, Deltas, deltas_create, deltas_add_roa_v4, deltas_add_roa_v6, deltas_add_router_key,
}

-- struct db_table, over the types of its two hash tables.
pub record DbTable (R K : Type 0) : Type 0 where
  pub roas : R
  pub router_keys : K

module _ (rs : HashTable Vrp) (ks : HashTable RouterKey) where
  abbrev pub Db : Type 0
  Db = DbTable rs.Table ks.Table

  unfoldable pub db_table_create : Alloc Db
  unfolding malloc
  db_table_create = malloc >> pure (record { roas = rs.empty; router_keys = ks.empty })

  module _ {S : Type 0} where
    unfoldable pub db_table_foreach_roa :
        Db → (Vrp → S → Result (Unit {0}) × S) → S → Result (Unit {0}) × S
    unfolding walk
    db_table_foreach_roa table cb = walk cb (rs.items table.roas)

    unfoldable pub db_table_foreach_router_key :
        Db → (RouterKey → S → Result (Unit {0}) × S) → S → Result (Unit {0}) × S
    unfolding walk
    db_table_foreach_router_key table cb = walk cb (ks.items table.router_keys)

  -- The errno of HASH_REPLACE, which is ENOMEM, is returned with its sign changed.
  unfoldable pub add_roa : Db → Vrp → Alloc Db
  add_roa table new = elim (rs.replace table.roas new) [
    | none ↦ (λ m. err enomem)
    | some roas ↦ pure (record table { roas = roas })
  ]

  unfoldable pub add_router_key : Db → RouterKey → Alloc Db
  add_router_key table new = elim (ks.replace table.router_keys new) [
    | none ↦ (λ m. err enomem)
    | some keys ↦ pure (record table { router_keys = keys })
  ]

  -- rtrhandler_handle_roa_v4() and _v6(), with create_roa() and memset() in the record.
  unfoldable pub rtrhandler_handle_roa_v4 : Db → ℕ → ℕ → ℕ → ℕ → Alloc Db
  unfolding malloc add_roa
  rtrhandler_handle_roa_v4 table asn addr len max_length = do
    malloc
    add_roa table (record {
      asn = asn;
      prefix = v4 addr;
      prefix_length = len;
      max_prefix_length = max_length;
    })

  unfoldable pub rtrhandler_handle_roa_v6 : Db → ℕ → List ℕ → ℕ → ℕ → Alloc Db
  unfolding malloc add_roa
  rtrhandler_handle_roa_v6 table asn addr len max_length = do
    malloc
    add_roa table (record {
      asn = asn;
      prefix = v6 addr;
      prefix_length = len;
      max_prefix_length = max_length;
    })

  unfoldable pub rtrhandler_handle_router_key : Db → List ℕ → ℕ → List ℕ → Alloc Db
  unfolding malloc add_router_key
  rtrhandler_handle_router_key table ski as_number spk = do
    malloc
    add_router_key table (record { ski = ski; as_number = as_number; spk = spk })

  unfoldable pub duplicate_roa : Db → Vrp → Alloc Db
  unfolding rtrhandler_handle_roa_v4 rtrhandler_handle_roa_v6
  duplicate_roa dst vrp = elim vrp.prefix [
    | v4 a ↦ rtrhandler_handle_roa_v4 dst vrp.asn a vrp.prefix_length vrp.max_prefix_length
    | v6 a ↦ rtrhandler_handle_roa_v6 dst vrp.asn a vrp.prefix_length vrp.max_prefix_length
  ]

  unfoldable pub duplicate_key : Db → RouterKey → Alloc Db
  unfolding rtrhandler_handle_router_key
  duplicate_key dst key = rtrhandler_handle_router_key dst key.ski key.as_number key.spk

  -- MERGE_ITER over the ROAs, then over the router keys.
  unfoldable pub db_table_merge : Db → Db → Alloc Db
  unfolding for_each duplicate_roa duplicate_key
  db_table_merge dst src = do
    dst' ←
        for_each (λ v d. if rs.find d.roas v then pure d else duplicate_roa d v) (rs.items src.roas)
          dst
    for_each (λ k d. if ks.find d.router_keys k then pure d else duplicate_key d k)
        (ks.items src.router_keys) dst'

  unfoldable pub db_table_clone : Db → Alloc Db
  unfolding db_table_create db_table_merge
  db_table_clone src = do result ← db_table_create; db_table_merge result src

  -- HASH_COUNT, an unsigned int.
  unfoldable pub db_table_roa_count : Db → ℕ
  db_table_roa_count table = length (rs.items table.roas) % 2 ^ 32

  unfoldable pub db_table_router_key_count : Db → ℕ
  db_table_router_key_count table = length (ks.items table.router_keys) % 2 ^ 32

  unfoldable pub db_table_remove_roa : Db → Vrp → Db
  db_table_remove_roa table del = record table { roas = rs.delete table.roas del }

  unfoldable pub db_table_remove_router_key : Db → RouterKey → Db
  db_table_remove_router_key table del = record table {
    router_keys = ks.delete table.router_keys del;
  }

  unfoldable pub add_roa_delta : Deltas → Vrp → Flag → Alloc Deltas
  add_roa_delta deltas roa op = elim roa.prefix [
    | v4 a ↦
        deltas_add_roa_v4 deltas
          (record {
            as_number = roa.asn;
            addr = a;
            len = roa.prefix_length;
            max_length = roa.max_prefix_length;
          })
          op
    | v6 a ↦
        deltas_add_roa_v6 deltas
          (record {
            as_number = roa.asn;
            addr = a;
            len = roa.prefix_length;
            max_length = roa.max_prefix_length;
          })
          op
  ]

  -- Copies `roas1 - roas2` into the deltas.
  unfoldable pub add_roa_deltas : rs.Table → rs.Table → Flag → Deltas → Alloc Deltas
  unfolding for_each
  add_roa_deltas roas1 roas2 op =
      for_each (λ v d. if rs.find roas2 v then pure d else add_roa_delta d v op) (rs.items roas1)

  unfoldable pub add_router_key_deltas : ks.Table → ks.Table → Flag → Deltas → Alloc Deltas
  unfolding for_each
  add_router_key_deltas keys1 keys2 op =
      for_each (λ k d. if ks.find keys2 k then pure d else deltas_add_router_key d k op)
        (ks.items keys1)

  unfoldable pub compute_deltas : Db → Db → Alloc Deltas
  unfolding deltas_create
  compute_deltas old new = do
    d0 ← deltas_create
    d1 ← add_roa_deltas new.roas old.roas announcement d0
    d2 ← add_roa_deltas old.roas new.roas withdrawal d1
    d3 ← add_router_key_deltas new.router_keys old.router_keys announcement d2
    add_router_key_deltas old.router_keys new.router_keys withdrawal d3
