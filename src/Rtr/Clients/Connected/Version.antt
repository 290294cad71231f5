-- ===== src/Rtr/Clients/Connected/Version.antt =====
-- clients.c: the protocol version that a router and the server have agreed on.
use fort_validator.Base.{
  ℕ, ◌≡◌, refl, sym, ap, ◌∙◌, true, false, Option, none, some, List, ◌==◌, arith, Bool-cases, inl,
  inr,
}
use fort_validator.Base.Results.{ok, err, einval, ok-injective}
use fort_validator.Base.Memory.{Memory, malloc, >>=-eq-ok}
use fort_validator.Rtr.Clients.{Client}
use fort_validator.Rtr.Clients.Connected.{
  ClientsTable, create_client, with_serial, with_version, stored, clients_add,
  clients_update_serial, clients_set_rtr_version, clients_get_rtr_version_set, clients_forget,
}

module _ (h : ClientsTable) (fd : ℕ) where
  -- What happens to the table while the connection `fd` lasts: calls on any client, but none that
  -- adds or forgets this one.
  pub data Calls : h.Table → h.Table → Type 0 where
    done : {db : h.Table} → Calls db db
    added :
        {db db1 db' : h.Table} (k : ℕ) (addr : List ℕ) (tid : ℕ) (m m' : Memory)
        → (k == fd) ≡ false
        → clients_add h k addr tid db m ≡ ok (db1, m')
        → Calls db1 db'
        → Calls db db'
    updated :
        {db db' : h.Table} (k serial : ℕ)
        → Calls (clients_update_serial h k serial db) db'
        → Calls db db'
    versioned :
        {db db' : h.Table} (k version : ℕ)
        → Calls (clients_set_rtr_version h k version db).1 db'
        → Calls db db'
    forgotten :
        {db db' : h.Table} (k : ℕ)
        → (k == fd) ≡ false
        → Calls (clients_forget h k db) db'
        → Calls db db'

  -- The client has the version.
  Agreed : ℕ → h.Table → Type 0
  Agreed version db =
      (client : Client) × (h.find db fd ≡ some client)
      × (client.rtr_version_set ≡ true)
      × (client.rtr_version ≡ version)

  clients_add-find :
      (k : ℕ) (addr : List ℕ) (tid : ℕ) (db : h.Table) (m m' : Memory) {db' : h.Table}
      → (k == fd) ≡ false
      → clients_add h k addr tid db m ≡ ok (db', m')
      → h.find db' fd ≡ h.find db fd
  unfolding clients_add
  clients_add-find k addr tid db m m' {db'} far e =
      let (u, m1, e1, e2) = >>=-eq-ok malloc _ m e in
      go (h.replace db (create_client k addr tid)) refl m1 e2
    where
      go :
          (o : Option h.Table)
          → h.replace db (create_client k addr tid) ≡ o
          → (m1 : Memory) → stored h o m1 ≡ ok (db', m')
          → h.find db' fd ≡ h.find db fd
      go none q m1 e = cc
      go (some t) q m1 e =
          let same : t ≡ db' = cc in
          ap (λ t. h.find t fd) (sym same)
          ∙ ground (arith, h.find-replace db (create_client k addr tid) fd q)

  Agreed-clients_update_serial :
      (version k serial : ℕ) (db : h.Table)
      → Agreed version db
      → Agreed version (clients_update_serial h k serial db)
  unfolding clients_update_serial Agreed
  Agreed-clients_update_serial version k serial db (client, f, s, v) = go (h.find db k) refl
    where
      go :
          (o : Option Client)
          → h.find db k ≡ o
          → Agreed version (clients_update_serial h k serial db)
      go none e = rw (e, clients_update_serial) (client, f, s, v)
      go (some c) e =
          let found = h.find-update db k fd (with_serial serial) (λ _. refl) in
          rw (e, clients_update_serial)
            (elim (Bool-cases (k == fd)) [
              | inl near ↦ (with_serial serial client, rw (near, f) at found, s, v)
              | inr far ↦ (client, rw (far, f) at found, s, v)
            ])

  Agreed-clients_set_rtr_version :
      (version k other : ℕ) (db : h.Table)
      → Agreed version db
      → Agreed version (clients_set_rtr_version h k other db).1
  unfolding clients_set_rtr_version Agreed
  Agreed-clients_set_rtr_version version k other db (client, f, s, v) = go (h.find db k) refl
    where
      go :
          (o : Option Client)
          → h.find db k ≡ o
          → Agreed version (clients_set_rtr_version h k other db).1
      go none e = rw (e, clients_set_rtr_version) (client, f, s, v)
      go (some c) e = elim (Bool-cases c.rtr_version_set) [
        | inl set ↦ rw (e, set, clients_set_rtr_version) (client, f, s, v)
        | inr unset ↦ elim (Bool-cases (k == fd)) [
          | inl near ↦
              let same : k ≡ fd = ground arith in
              let found : some c ≡ some client = sym e ∙ ap (h.find db) same ∙ f in cc
          | inr far ↦
              let found = h.find-update db k fd (with_version other) (λ _. refl) in
              rw (e, unset, clients_set_rtr_version) (client, rw (far, f) at found, s, v)
        ]
      ]

  Agreed-clients_forget :
      (version k : ℕ) (db : h.Table)
      → (k == fd) ≡ false
      → Agreed version db
      → Agreed version (clients_forget h k db)
  unfolding clients_forget Agreed
  Agreed-clients_forget version k db far (client, f, s, v) = go (h.find db k) refl
    where
      go : (o : Option Client) → h.find db k ≡ o → Agreed version (clients_forget h k db)
      go none e = rw (e, clients_forget) (client, f, s, v)
      go (some c) e =
          let found = h.find-delete db k fd in
          rw (e, clients_forget) (client, rw (far, f) at found, s, v)

  Agreed-Calls :
      (version : ℕ) {db db' : h.Table} → Calls db db' → Agreed version db → Agreed version db'
  unfolding Agreed
  Agreed-Calls version done a = a
  Agreed-Calls version (added {db} {db1} k addr tid m m' far e rest) (client, f, s, v) =
      Agreed-Calls version rest (client, clients_add-find k addr tid db m m' far e ∙ f, s, v)
  Agreed-Calls version (updated {db} k serial rest) a =
      Agreed-Calls version rest (Agreed-clients_update_serial version k serial db a)
  Agreed-Calls version (versioned {db} k other rest) a =
      Agreed-Calls version rest (Agreed-clients_set_rtr_version version k other db a)
  Agreed-Calls version (forgotten {db} k far rest) a =
      Agreed-Calls version rest (Agreed-clients_forget version k db far a)

  -- While a connection lasts, whatever is called for it and for others, the version that its client
  -- has is the one that is read later, and another one is refused.
  pub clients_set_rtr_version-fixed :
      (version other : ℕ) {db db' : h.Table}
      → clients_get_rtr_version_set h fd db ≡ ok (true, version)
      → Calls db db'
      → (clients_get_rtr_version_set h fd db' ≡ ok (true, version))
        × (clients_set_rtr_version h fd other db' ≡ (err einval, db'))
  unfolding clients_get_rtr_version_set clients_set_rtr_version Agreed
  clients_set_rtr_version-fixed version other {db} {db'} e calls = go (h.find db fd) refl
    where
      go :
          (o : Option Client)
          → h.find db fd ≡ o
          → (clients_get_rtr_version_set h fd db' ≡ ok (true, version))
            × (clients_set_rtr_version h fd other db' ≡ (err einval, db'))
      go none f = let no = rw (f, clients_get_rtr_version_set) at e in cc
      go (some client) f =
          let same = ok-injective (rw (f, clients_get_rtr_version_set) at e) in
          let (last, g, s, v) =
            Agreed-Calls version calls (client, f, ap (λ p. p.0) same, ap (λ p. p.1) same) in
          (rw (g, clients_get_rtr_version_set, s, v) refl, rw (g, clients_set_rtr_version, s) refl)
