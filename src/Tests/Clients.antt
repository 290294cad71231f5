-- ===== src/Tests/Clients.antt =====
-- A table of clients with the documented behaviour of uthash.h, and a connection in it.
use fort_validator.Base.{
  ℕ, ◌≡◌, refl, true, Option, none, some, List, [], ◌∷◌, if◌then◌else◌, ◌==◌, arith,
}
use fort_validator.Base.Results.{ok, err, einval}
use fort_validator.Base.Memory.{malloc}
use fort_validator.Rtr.Clients.{Client}
use fort_validator.Rtr.Clients.Connected.{
  ClientsTable, changed, create_client, with_serial, with_version, clients_add,
  clients_update_serial, clients_set_rtr_version, clients_get_rtr_version_set, clients_forget,
}
use fort_validator.Rtr.Clients.Connected.Version.{
  Calls, done, added, updated, versioned, forgotten, clients_set_rtr_version-fixed,
}

unfoldable find_client : List Client → ℕ → Option Client
find_client [] fd = none
find_client (c ∷ cs) fd = if c.fd == fd then some c else find_client cs fd

unfoldable delete_client : List Client → ℕ → List Client
delete_client [] k = []
delete_client (c ∷ cs) k = if c.fd == k then delete_client cs k else c ∷ delete_client cs k

unfoldable update_client : List Client → ℕ → (Client → Client) → List Client
update_client [] k change = []
update_client (c ∷ cs) k change =
    if c.fd == k then change c ∷ update_client cs k change else c ∷ update_client cs k change

find-delete_client :
    (t : List Client) (k fd : ℕ)
    → find_client (delete_client t k) fd ≡ (if k == fd then none else find_client t fd)
unfolding find_client delete_client
find-delete_client [] k fd = ground arith
find-delete_client (c ∷ t) k fd = ground (arith, find-delete_client t k fd)

find-update_client :
    (t : List Client) (k fd : ℕ) (change : Client → Client)
    → ((client : Client) → (change client).fd ≡ client.fd)
    → find_client (update_client t k change) fd
      ≡ (if k == fd then changed change (find_client t fd) else find_client t fd)
unfolding find_client update_client
find-update_client [] k fd change same = ground arith
find-update_client (c ∷ t) k fd change same =
    let one = same c in ground (arith, find-update_client t k fd change same)

find-replace_client :
    (t : List Client) (client : Client) (fd : ℕ) {t' : List Client}
    → some (client ∷ delete_client t client.fd) ≡ some t'
    → find_client t' fd ≡ (if client.fd == fd then some client else find_client t fd)
unfolding find_client
find-replace_client t client fd {t'} h =
    let same : client ∷ delete_client t client.fd ≡ t' = cc in
    rw (← same) (ground (arith, find-delete_client t client.fd fd))

find_client-empty : (fd : ℕ) → find_client [] fd ≡ none
unfolding find_client
find_client-empty fd = refl

abbrev clients_table : ClientsTable
clients_table = record {
  Table = List Client;
  empty = [];
  items = λ t. t;
  find = find_client;
  replace = λ t client. some (client ∷ delete_client t client.fd);
  update = update_client;
  delete = delete_client;
  find-empty = find_client-empty;
  find-replace = find-replace_client;
  find-update = find-update_client;
  find-delete = find-delete_client;
}

-- A router that has agreed on version 1.
abbrev router : Client
router = with_version 1 (create_client 3 [] 10)

abbrev connected : List Client
connected = router ∷ []

abbrev both : List Client
both = create_client 4 [] 11 ∷ with_serial 5 router ∷ []

has_version : clients_get_rtr_version_set clients_table 3 connected ≡ ok (true, 1)
unfolding clients_get_rtr_version_set find_client
has_version = refl

joins : clients_add clients_table 4 [] 11 (with_serial 5 router ∷ []) [] ≡ ok (both, [])
unfolding clients_add malloc delete_client
joins = refl

calls : Calls clients_table 3 connected (with_serial 5 router ∷ [])
unfolding clients_update_serial clients_set_rtr_version clients_forget find_client update_client
    delete_client
calls = updated 3 5 (added 4 [] 11 [] [] refl joins (versioned 3 0 (forgotten 4 refl done)))

clients_set_rtr_version-fixed_example :
    (clients_get_rtr_version_set clients_table 3 (with_serial 5 router ∷ []) ≡ ok (true, 1))
    × (clients_set_rtr_version clients_table 3 0 (with_serial 5 router ∷ [])
        ≡ (err einval, with_serial 5 router ∷ []))
clients_set_rtr_version-fixed_example =
    clients_set_rtr_version-fixed clients_table 3 1 0 has_version calls
