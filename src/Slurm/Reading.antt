-- ===== src/Slurm/Reading.antt =====
-- The entries of a SLURM file in the cache of db_slurm.c conflict with none of the lists.
use fort_validator.Base.{
  ◌≡◌, refl, sym, ap, ◌∙◌, subst, Bool, true, false, Option, none, some, List, [], ◌∷◌, ◌++◌, All,
  All-append,
}
use fort_validator.Base.Results.{ok, crit, reject, eexist}
use fort_validator.Base.Memory.{Memory, Alloc, pure, lift, ◌>>=◌, ◌>>◌, >>=-eq-ok, malloc}
use fort_validator.Rtr.ArrayList
use fort_validator.Rtr.ArrayList.{ArrayList, array-add}
use fort_validator.Slurm.{
  SlurmPrefix, SlurmBgpsec, Wrap, SlurmLists, DbSlurm, no_lists, slurm_lists_create, prefix_exists,
  bgpsec_exists, in_cache, wrap, db_slurm_add_prefix_filter, db_slurm_add_prefix_assertion,
  db_slurm_add_bgpsec_filter, db_slurm_add_bgpsec_assertion,
}
use fort_validator.Slurm.Flush.{db_slurm_start_cache}
use fort_validator.Slurm.Conflicts.{
  PrefixFree, BgpsecFree, prefix_exists-free, bgpsec_exists-free, Entries, no_entries, entries_of,
  NoConflict,
}

-- The calls that add an entry of a file, in any order; each returns 0.
pub data Adds : DbSlurm → DbSlurm → Type 0 where
  done : {db : DbSlurm} → Adds db db
  prefix_filter :
      {db db1 db2 : DbSlurm} (e : SlurmPrefix) (m m' : Memory)
      → Adds db db1
      → db_slurm_add_prefix_filter db1 e m ≡ ok (db2, m')
      → Adds db db2
  prefix_assertion :
      {db db1 db2 : DbSlurm} (e : SlurmPrefix) (m m' : Memory)
      → Adds db db1
      → db_slurm_add_prefix_assertion db1 e m ≡ ok (db2, m')
      → Adds db db2
  bgpsec_filter :
      {db db1 db2 : DbSlurm} (e : SlurmBgpsec) (m m' : Memory)
      → Adds db db1
      → db_slurm_add_bgpsec_filter db1 e m ≡ ok (db2, m')
      → Adds db db2
  bgpsec_assertion :
      {db db1 db2 : DbSlurm} (e : SlurmBgpsec) (m m' : Memory)
      → Adds db db1
      → db_slurm_add_bgpsec_assertion db1 e m ≡ ok (db2, m')
      → Adds db db2

-- The entries that were added, in order.
abbrev and_filter_prefix : SlurmPrefix → Entries → Entries
and_filter_prefix e es = record es { filter_prefixes = es.filter_prefixes ++ wrap e ∷ [] }

abbrev and_assertion_prefix : SlurmPrefix → Entries → Entries
and_assertion_prefix e es = record es { assertion_prefixes = es.assertion_prefixes ++ wrap e ∷ [] }

abbrev and_filter_bgpsec : SlurmBgpsec → Entries → Entries
and_filter_bgpsec e es = record es { filter_bgpsecs = es.filter_bgpsecs ++ wrap e ∷ [] }

abbrev and_assertion_bgpsec : SlurmBgpsec → Entries → Entries
and_assertion_bgpsec e es = record es { assertion_bgpsecs = es.assertion_bgpsecs ++ wrap e ∷ [] }

abbrev pub entries : {db db' : DbSlurm} → Adds db db' → Entries
entries done = no_entries
entries (prefix_filter e m m' before h) = and_filter_prefix e (entries before)
entries (prefix_assertion e m m' before h) = and_assertion_prefix e (entries before)
entries (bgpsec_filter e m m' before h) = and_filter_bgpsec e (entries before)
entries (bgpsec_assertion e m m' before h) = and_assertion_bgpsec e (entries before)

-- While a file is read, the lists stay, and the cache has the entries so far, which have no conflict
-- with them.
pub record Loading (lists : SlurmLists) (es : Entries) (db : DbSlurm) : Type 0 where
  pub same : db.lists ≡ lists
  pub cache : SlurmLists
  pub cached : db.cache ≡ some cache
  pub held : entries_of cache ≡ es
  pub apart : NoConflict lists es

in_cache-eq-ok :
    (db : DbSlurm) (change : SlurmLists → Alloc SlurmLists) (m m' : Memory) {db' : DbSlurm}
    → in_cache db change m ≡ ok (db', m')
    → (c : SlurmLists) × (db.cache ≡ some c)
      × (c' : SlurmLists) × (m1 : Memory) × (change c m ≡ ok (c', m1))
      × (record db { cache = some c' } ≡ db')
unfolding in_cache
in_cache-eq-ok db change m m' {db'} h = go db.cache refl h
  where
    go :
        (o : Option SlurmLists)
        → db.cache ≡ o
        → (elim o as (λ _. Alloc DbSlurm) [
          | none ↦ lift crit
          | some cache ↦ change cache >>= λ cache'. pure (record db { cache = some cache' })
        ])
            m
          ≡ ok (db', m')
        → (c : SlurmLists) × (db.cache ≡ some c)
          × (c' : SlurmLists) × (m1 : Memory) × (change c m ≡ ok (c', m1))
          × (record db { cache = some c' } ≡ db')
    go none e h = cc
    go (some c) e h = let (c', m1, h1, h2) = >>=-eq-ok (change c) _ m h in (c, e, c', m1, h1, cc)

-- A guard and an addition to one list of the cache.
cached-add :
    {A : Type 0} (db : DbSlurm) (bad : Bool) (list : SlurmLists → ArrayList (Wrap A))
    (put : SlurmLists → ArrayList (Wrap A) → SlurmLists) (e : A) (m m' : Memory) {db' : DbSlurm}
    → (lift (reject bad eexist)
          >> in_cache db (λ cache. ArrayList.add (list cache) (wrap e) >>= λ l. pure (put cache l)))
        m
      ≡ ok (db', m')
    → (bad ≡ false)
      × (c : SlurmLists) × (db.cache ≡ some c)
      × (l : ArrayList (Wrap A)) × (l.array ≡ (list c).array ++ wrap e ∷ [])
      × (record db { cache = some (put c l) } ≡ db')
cached-add db true list put e m m' h = cc
cached-add db false list put e m m' {db'} h =
    let (c, ec, c', m1, h1, same) = in_cache-eq-ok db _ m m' {db' = db'} h in
    let (l, m2, h2, h3) = >>=-eq-ok (ArrayList.add (list c) (wrap e)) _ m h1 in
    let put_eq : put c l ≡ c' = cc in
    (
      refl,
      c,
      ec,
      l,
      array-add (list c) (wrap e) m h2,
      ap (λ z. record db { cache = some z }) put_eq ∙ same,
    )

module _ (lists : SlurmLists) where
  -- One more entry that conflicts with nothing.
  one_more :
      {A : Type 0} (P : Wrap A → Type 0) (xs : List (Wrap A)) (w : Wrap A)
      → All P xs
      → P w
      → All P (xs ++ w ∷ [])
  one_more P xs w h p = All-append P xs (w ∷ []) h (p, tt)

  step :
      (db db' : DbSlurm) (c c' : SlurmLists) (more : Entries → Entries) (es : Entries)
      → Loading lists es db
      → db.cache ≡ some c
      → record db { cache = some c' } ≡ db'
      → entries_of c' ≡ more (entries_of c)
      → (NoConflict lists es → NoConflict lists (more es))
      → Loading lists (more es) db'
  step db db' c c' more es l e same grown keep =
      let mine : l.cache ≡ c = cc (l.cached, e) in
      subst (Loading lists (more es)) same (record {
        same = l.same;
        cache = c';
        cached = refl;
        held = grown ∙ ap more (ap entries_of (sym mine) ∙ l.held);
        apart = keep l.apart;
      })

  pub Adds-Loading :
      {db db' : DbSlurm} (adds : Adds db db')
      → Loading lists no_entries db
      → Loading lists (entries adds) db'
  unfolding db_slurm_add_prefix_filter db_slurm_add_prefix_assertion db_slurm_add_bgpsec_filter
      db_slurm_add_bgpsec_assertion
  Adds-Loading done l = l
  Adds-Loading {db} {db'} (prefix_filter {db1 = d} e m m' before h) l =
      let k = Adds-Loading before l in
      let es = entries before in
      let (good, c, ec, list, grown, same) =
        cached-add d (prefix_exists d e) (λ c. c.filter_prefixes)
          (λ c l. record c { filter_prefixes = l }) e m m' {db' = db'} h in
      step d db' c _ (and_filter_prefix e) es k ec same
        (ap (λ z. record (entries_of c) { filter_prefixes = z }) grown)
        (λ n. record {
          filter_prefixes =
              one_more (λ w. PrefixFree lists w.element) es.filter_prefixes (wrap e)
                n.filter_prefixes
                (subst (λ z. PrefixFree z e) k.same (prefix_exists-free d e good));
          assertion_prefixes = n.assertion_prefixes;
          filter_bgpsecs = n.filter_bgpsecs;
          assertion_bgpsecs = n.assertion_bgpsecs;
        })
  Adds-Loading {db} {db'} (prefix_assertion {db1 = d} e m m' before h) l =
      let k = Adds-Loading before l in
      let es = entries before in
      let (good, c, ec, list, grown, same) =
        cached-add d (prefix_exists d e) (λ c. c.assertion_prefixes)
          (λ c l. record c { assertion_prefixes = l }) e m m' {db' = db'} h in
      step d db' c _ (and_assertion_prefix e) es k ec same
        (ap (λ z. record (entries_of c) { assertion_prefixes = z }) grown)
        (λ n. record {
          filter_prefixes = n.filter_prefixes;
          assertion_prefixes =
              one_more (λ w. PrefixFree lists w.element) es.assertion_prefixes (wrap e)
                n.assertion_prefixes
                (subst (λ z. PrefixFree z e) k.same (prefix_exists-free d e good));
          filter_bgpsecs = n.filter_bgpsecs;
          assertion_bgpsecs = n.assertion_bgpsecs;
        })
  Adds-Loading {db} {db'} (bgpsec_filter {db1 = d} e m m' before h) l =
      let k = Adds-Loading before l in
      let es = entries before in
      let (good, c, ec, list, grown, same) =
        cached-add d (bgpsec_exists d e) (λ c. c.filter_bgpsecs)
          (λ c l. record c { filter_bgpsecs = l }) e m m' {db' = db'} h in
      step d db' c _ (and_filter_bgpsec e) es k ec same
        (ap (λ z. record (entries_of c) { filter_bgpsecs = z }) grown)
        (λ n. record {
          filter_prefixes = n.filter_prefixes;
          assertion_prefixes = n.assertion_prefixes;
          filter_bgpsecs =
              one_more (λ w. BgpsecFree lists w.element) es.filter_bgpsecs (wrap e) n.filter_bgpsecs
                (subst (λ z. BgpsecFree z e) k.same (bgpsec_exists-free d e good));
          assertion_bgpsecs = n.assertion_bgpsecs;
        })
  Adds-Loading {db} {db'} (bgpsec_assertion {db1 = d} e m m' before h) l =
      let k = Adds-Loading before l in
      let es = entries before in
      let (good, c, ec, list, grown, same) =
        cached-add d (bgpsec_exists d e) (λ c. c.assertion_bgpsecs)
          (λ c l. record c { assertion_bgpsecs = l }) e m m' {db' = db'} h in
      step d db' c _ (and_assertion_bgpsec e) es k ec same
        (ap (λ z. record (entries_of c) { assertion_bgpsecs = z }) grown)
        (λ n. record {
          filter_prefixes = n.filter_prefixes;
          assertion_prefixes = n.assertion_prefixes;
          filter_bgpsecs = n.filter_bgpsecs;
          assertion_bgpsecs =
              one_more (λ w. BgpsecFree lists w.element) es.assertion_bgpsecs (wrap e)
                n.assertion_bgpsecs
                (subst (λ z. BgpsecFree z e) k.same (bgpsec_exists-free d e good));
        })

no_entries-NoConflict : (lists : SlurmLists) → NoConflict lists no_entries
no_entries-NoConflict lists = record {
  filter_prefixes = tt;
  assertion_prefixes = tt;
  filter_bgpsecs = tt;
  assertion_bgpsecs = tt;
}

pub start-Loading :
    (db db' : DbSlurm) (m m' : Memory)
    → db_slurm_start_cache db m ≡ ok (db', m')
    → Loading db.lists no_entries db'
unfolding db_slurm_start_cache slurm_lists_create
start-Loading db db' m m' h =
    let (c, m1, h1, h2) = >>=-eq-ok slurm_lists_create _ m h in
    let (_, m2, h3, h4) = >>=-eq-ok malloc _ m h1 in
    let empty : no_lists ≡ c = cc in
    let same : record db { cache = some c } ≡ db' = cc in
    subst (Loading db.lists no_entries) same (record {
      same = refl;
      cache = c;
      cached = refl;
      held = ap entries_of (sym empty);
      apart = no_entries-NoConflict db.lists;
    })
