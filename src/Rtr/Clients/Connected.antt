-- ===== src/Rtr/Clients/Connected.antt =====
-- clients.c: the operations on the table of clients. The hash table of uthash.h, by file
-- descriptor, is a parameter, of which only the documented behaviour is used.
pub mod Version
use fort_validator.Base.{
  ℕ, ◌≡◌, Bool, true, false, Option, none, some, List, [], ◌∷◌, if◌then◌else◌, ◌==◌,
}
use fort_validator.Base.Results.{Result, ok, err, crit, einval, enoent, enomem, walk}
use fort_validator.Base.Memory.{Alloc, malloc, ◌>>◌}
use fort_validator.Rtr.Clients.{Client}

abbrev pub changed : (Client → Client) → Option Client → Option Client
changed change none = none
changed change (some client) = some (change client)

-- `items` is the order of HASH_ITER, `find` is HASH_FIND_INT, `replace` is HASH_REPLACE, where `none`
-- is ENOMEM, the one errno that uthash_nonfatal.h sets, `update` writes to the element that
-- HASH_FIND_INT gives, `delete` is HASH_DEL of that element.
pub record ClientsTable : Type 1 where
  pub Table : Type 0
  pub empty : Table
  pub items : Table → List Client
  pub find : Table → ℕ → Option Client
  pub replace : Table → Client → Option Table
  pub update : Table → ℕ → (Client → Client) → Table
  pub delete : Table → ℕ → Table
  pub find-empty : (fd : ℕ) → find empty fd ≡ none
  pub find-replace :
      (t : Table) (client : Client) (fd : ℕ) {t' : Table}
      → replace t client ≡ some t'
      → find t' fd ≡ (if client.fd == fd then some client else find t fd)
  pub find-update :
      (t : Table) (k fd : ℕ) (change : Client → Client)
      → ((client : Client) → (change client).fd ≡ client.fd)
      → find (update t k change) fd ≡ (if k == fd then changed change (find t fd) else find t fd)
  pub find-delete :
      (t : Table) (k fd : ℕ) → find (delete t k) fd ≡ (if k == fd then none else find t fd)

abbrev pub create_client : ℕ → List ℕ → ℕ → Client
create_client fd addr tid = record {
  fd = fd;
  addr = addr;
  tid = tid;
  serial_number = 0;
  serial_number_set = false;
  rtr_version = 0;
  rtr_version_set = false;
}

abbrev pub with_serial : ℕ → Client → Client
with_serial serial client = record client { serial_number = serial; serial_number_set = true }

abbrev pub with_version : ℕ → Client → Client
with_version version client = record client { rtr_version = version; rtr_version_set = true }

module _ (h : ClientsTable) where
  -- The argument is what pthread_rwlock_init() returns.
  unfoldable pub clients_db_init : Result (Unit {0}) → Result h.Table
  clients_db_init (ok _) = ok h.empty
  clients_db_init (err e) = err e
  clients_db_init crit = crit

  -- The errno of HASH_REPLACE, which is ENOMEM, is returned with its sign changed.
  abbrev pub stored : Option h.Table → Alloc h.Table
  stored none m = err enomem
  stored (some db) m = ok (db, m)

  unfoldable pub clients_add : ℕ → List ℕ → ℕ → h.Table → Alloc h.Table
  unfolding malloc
  clients_add fd addr tid db = malloc >> stored (h.replace db (create_client fd addr tid))

  unfoldable pub clients_get_addr : ℕ → h.Table → Result (List ℕ)
  clients_get_addr fd db = elim (h.find db fd) [ none ↦ err enoent | some client ↦ ok client.addr ]

  unfoldable pub clients_update_serial : ℕ → ℕ → h.Table → h.Table
  clients_update_serial fd serial db = elim (h.find db fd) [
    | none ↦ db
    | some _ ↦ h.update db fd (with_serial serial)
  ]

  unfoldable pub clients_set_rtr_version : ℕ → ℕ → h.Table → Result (Unit {0}) × h.Table
  clients_set_rtr_version fd rtr_version db = elim (h.find db fd) [
    | none ↦ (err enoent, db)
    | some client ↦
        if client.rtr_version_set
        then (err einval, db)
        else (ok tt, h.update db fd (with_version rtr_version))
  ]

  unfoldable pub clients_get_rtr_version_set : ℕ → h.Table → Result (Bool × ℕ)
  clients_get_rtr_version_set fd db = elim (h.find db fd) [
    | none ↦ err enoent
    | some client ↦ ok (client.rtr_version_set, client.rtr_version)
  ]

  unfoldable pub clients_forget : ℕ → h.Table → h.Table
  clients_forget fd db = elim (h.find db fd) [ none ↦ db | some _ ↦ h.delete db fd ]

  unfoldable pub clients_foreach :
      {S : Type 0} → h.Table → (Client → S → Result (Unit {0}) × S) → S → Result (Unit {0}) × S
  clients_foreach db cb = walk cb (h.items db)

  -- The loop of clients_db_destroy(), over the clients that the table had at its start.
  abbrev pub destroy_all : {S : Type 0} → List Client → (ℕ → S → S) → h.Table × S → h.Table × S
  destroy_all [] cb w = w
  destroy_all (node ∷ rest) cb (db, s) = destroy_all rest cb (h.delete db node.fd, cb node.tid s)

  -- What the callback returns is ignored.
  unfoldable pub clients_db_destroy : {S : Type 0} → h.Table → (ℕ → S → S) → S → h.Table × S
  clients_db_destroy db cb s = destroy_all (h.items db) cb (db, s)
