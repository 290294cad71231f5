-- ===== src/Slurm/Append.antt =====
-- db_slurm_flush_cache() of db_slurm.c appends the cache to the lists.
use fort_validator.Base.{◌≡◌, sym, ap, ◌∙◌, subst, Option, none, some, List, [], ◌∷◌, ◌++◌}
use mathlib.Core.List.{append_assoc, append-nil}
use fort_validator.Base.Results.{ok, crit}
use fort_validator.Base.Memory.{Memory, Alloc, pure, lift, ◌>>=◌, >>=-eq-ok, for_each}
use fort_validator.Rtr.ArrayList
use fort_validator.Rtr.ArrayList.{ArrayList, array-add}
use fort_validator.Slurm.{SlurmPrefix, SlurmBgpsec, Wrap, SlurmLists, DbSlurm}
use fort_validator.Slurm.Conflicts.{Entries, entries_of}
use fort_validator.Slurm.Flush.{
  refget_all, flush_lists, persist, persist_filter_prefix, persist_filter_bgpsec,
  persist_assertion_prefix, persist_assertion_bgpsec, db_slurm_flush_cache,
}

-- The lists with the entries of a file after them.
pub record IsAppend (old : SlurmLists) (new : Entries) (all : SlurmLists) : Type 0 where
  pub filter_prefixes : all.filter_prefixes.array ≡ old.filter_prefixes.array ++ new.filter_prefixes
  pub assertion_prefixes :
      all.assertion_prefixes.array ≡ old.assertion_prefixes.array ++ new.assertion_prefixes
  pub filter_bgpsecs : all.filter_bgpsecs.array ≡ old.filter_bgpsecs.array ++ new.filter_bgpsecs
  pub assertion_bgpsecs :
      all.assertion_bgpsecs.array ≡ old.assertion_bgpsecs.array ++ new.assertion_bgpsecs

-- The loop of the persist functions appends.
persist-append :
    {A : Type 0} (cached : List A) (l l' : ArrayList A) (m m' : Memory)
    → persist cached l m ≡ ok (l', m')
    → l'.array ≡ l.array ++ cached
unfolding persist for_each
persist-append [] l l' m m' h =
    let same : l ≡ l' = cc in
    ap (λ (l : ArrayList _). l.array) (sym same) ∙ sym (append-nil l.array)
persist-append (x ∷ xs) l l' m m' h =
    let (l1, m1, h1, h2) = >>=-eq-ok (ArrayList.add l x) _ m h in
    persist-append xs l1 l' m1 m' h2
    ∙ ap (λ z. z ++ xs) (array-add l x m h1)
    ∙ append_assoc l.array (x ∷ []) xs

persist_filter_prefix-eq-ok :
    (c l : SlurmLists) (m m' : Memory) {out : SlurmLists}
    → persist_filter_prefix c l m ≡ ok (out, m')
    → (n : ArrayList (Wrap SlurmPrefix)) × (n.array
        ≡ l.filter_prefixes.array ++ c.filter_prefixes.array)
      × (record l { filter_prefixes = n } ≡ out)
unfolding persist_filter_prefix
persist_filter_prefix-eq-ok c l m m' h =
    let (n, m1, h1, h2) = >>=-eq-ok (persist c.filter_prefixes.array l.filter_prefixes) _ m h in
    (n, persist-append c.filter_prefixes.array l.filter_prefixes n m m1 h1, cc)

persist_assertion_prefix-eq-ok :
    (c l : SlurmLists) (m m' : Memory) {out : SlurmLists}
    → persist_assertion_prefix c l m ≡ ok (out, m')
    → (n : ArrayList (Wrap SlurmPrefix)) × (n.array
        ≡ l.assertion_prefixes.array ++ c.assertion_prefixes.array)
      × (record l { assertion_prefixes = n } ≡ out)
unfolding persist_assertion_prefix
persist_assertion_prefix-eq-ok c l m m' h =
    let (n, m1, h1, h2) =
      >>=-eq-ok (persist c.assertion_prefixes.array l.assertion_prefixes) _ m h in
    (n, persist-append c.assertion_prefixes.array l.assertion_prefixes n m m1 h1, cc)

persist_filter_bgpsec-eq-ok :
    (c l : SlurmLists) (m m' : Memory) {out : SlurmLists × SlurmLists}
    → persist_filter_bgpsec c l m ≡ ok (out, m')
    → (n : ArrayList (Wrap SlurmBgpsec)) × (n.array
        ≡ l.filter_bgpsecs.array ++ c.filter_bgpsecs.array)
      × (record l { filter_bgpsecs = n } ≡ out.1)
      × (record c {
        filter_bgpsecs = record c.filter_bgpsecs { array = refget_all c.filter_bgpsecs.array };
      }
          ≡ out.0)
unfolding persist_filter_bgpsec
persist_filter_bgpsec-eq-ok c l m m' {out} h =
    let (n, m1, h1, h2) = >>=-eq-ok (persist c.filter_bgpsecs.array l.filter_bgpsecs) _ m h in
    (n, persist-append c.filter_bgpsecs.array l.filter_bgpsecs n m m1 h1, cc, cc)

persist_assertion_bgpsec-eq-ok :
    (c l : SlurmLists) (m m' : Memory) {out : SlurmLists × SlurmLists}
    → persist_assertion_bgpsec c l m ≡ ok (out, m')
    → (n : ArrayList (Wrap SlurmBgpsec)) × (n.array
        ≡ l.assertion_bgpsecs.array ++ c.assertion_bgpsecs.array)
      × (record l { assertion_bgpsecs = n } ≡ out.1)
      × (record c {
        assertion_bgpsecs = record c.assertion_bgpsecs {
          array = refget_all c.assertion_bgpsecs.array;
        };
      }
          ≡ out.0)
unfolding persist_assertion_bgpsec
persist_assertion_bgpsec-eq-ok c l m m' {out} h =
    let (n, m1, h1, h2) = >>=-eq-ok (persist c.assertion_bgpsecs.array l.assertion_bgpsecs) _ m h in
    (n, persist-append c.assertion_bgpsecs.array l.assertion_bgpsecs n m m1 h1, cc, cc)

-- Four changes, each of one list.
appended :
    (c c2 l l1 l2 l3 out : SlurmLists) (n1 : ArrayList (Wrap SlurmPrefix))
    (n2 : ArrayList (Wrap SlurmBgpsec)) (n3 : ArrayList (Wrap SlurmPrefix))
    (n4 : ArrayList (Wrap SlurmBgpsec))
    → n1.array ≡ l.filter_prefixes.array ++ c.filter_prefixes.array
    → record l { filter_prefixes = n1 } ≡ l1
    → n2.array ≡ l1.filter_bgpsecs.array ++ c.filter_bgpsecs.array
    → record l1 { filter_bgpsecs = n2 } ≡ l2
    → record c {
      filter_bgpsecs = record c.filter_bgpsecs { array = refget_all c.filter_bgpsecs.array };
    }
      ≡ c2
    → n3.array ≡ l2.assertion_prefixes.array ++ c2.assertion_prefixes.array
    → record l2 { assertion_prefixes = n3 } ≡ l3
    → n4.array ≡ l3.assertion_bgpsecs.array ++ c2.assertion_bgpsecs.array
    → record l3 { assertion_bgpsecs = n4 } ≡ out
    → IsAppend l (entries_of c) out
appended c c2 l l1 l2 l3 out n1 n2 n3 n4 a1 e1 a2 e2 k2 a3 e3 a4 e4 =
    let fp = λ (z : SlurmLists). z.filter_prefixes.array in
    let fb = λ (z : SlurmLists). z.filter_bgpsecs.array in
    let rp = λ (z : SlurmLists). z.assertion_prefixes.array in
    let rb = λ (z : SlurmLists). z.assertion_bgpsecs.array in
    record {
      filter_prefixes = sym (ap fp e4) ∙ sym (ap fp e3) ∙ sym (ap fp e2) ∙ sym (ap fp e1) ∙ a1;
      filter_bgpsecs =
          sym (ap fb e4)
          ∙ sym (ap fb e3)
          ∙ sym (ap fb e2)
          ∙ a2
          ∙ ap (λ z. z ++ fb c) (sym (ap fb e1));
      assertion_prefixes =
          sym (ap rp e4)
          ∙ sym (ap rp e3)
          ∙ a3
          ∙ ap (λ z. z ++ rp c2) (sym (ap rp e2) ∙ sym (ap rp e1))
          ∙ ap (λ z. rp l ++ z) (sym (ap rp k2));
      assertion_bgpsecs =
          sym (ap rb e4)
          ∙ a4
          ∙ ap (λ z. z ++ rb c2) (sym (ap rb e3) ∙ sym (ap rb e2) ∙ sym (ap rb e1))
          ∙ ap (λ z. rb l ++ z) (sym (ap rb k2));
    }

flush_lists_ok :
    (c l : SlurmLists) (m m' : Memory) {out : SlurmLists}
    → flush_lists c l m ≡ ok (out, m')
    → IsAppend l (entries_of c) out
unfolding flush_lists
flush_lists_ok c l m m' {out} h =
    let (l1, m1, h1, g1) = >>=-eq-ok (persist_filter_prefix c l) _ m h in
    let (r2, m2, h2, g2) = >>=-eq-ok (persist_filter_bgpsec c l1) _ m1 g1 in
    let (l3, m3, h3, g3) = >>=-eq-ok (persist_assertion_prefix r2.0 r2.1) _ m2 g2 in
    let (r4, m4, h4, g4) = >>=-eq-ok (persist_assertion_bgpsec r2.0 l3) _ m3 g3 in
    let last : r4.1 ≡ out = cc in
    let (n1, a1, e1) = persist_filter_prefix-eq-ok c l m m1 {out = l1} h1 in
    let (n2, a2, e2, k2) = persist_filter_bgpsec-eq-ok c l1 m1 m2 {out = r2} h2 in
    let (n3, a3, e3) = persist_assertion_prefix-eq-ok r2.0 r2.1 m2 m3 {out = l3} h3 in
    let (n4, a4, e4, k4) = persist_assertion_bgpsec-eq-ok r2.0 l3 m3 m4 {out = r4} h4 in
    appended c r2.0 l l1 r2.1 l3 out n1 n2 n3 n4 a1 e1 a2 e2 k2 a3 e3 a4 (e4 ∙ last)

pub flush-eq-ok :
    (db db' : DbSlurm) (m m' : Memory) (c : SlurmLists)
    → db.cache ≡ some c
    → db_slurm_flush_cache db m ≡ ok (db', m')
    → IsAppend db.lists (entries_of c) db'.lists × (db'.cache ≡ none)
unfolding db_slurm_flush_cache
flush-eq-ok db db' m m' c e h = go db.cache e h
  where
    go :
        (o : Option SlurmLists)
        → o ≡ some c
        → (elim o as (λ _. Alloc DbSlurm) [
          | none ↦ lift crit
          | some cache ↦ flush_lists cache db.lists >>= λ lists.
              pure (record db { lists = lists; cache = none })
        ])
            m
          ≡ ok (db', m')
        → IsAppend db.lists (entries_of c) db'.lists × (db'.cache ≡ none)
    go none e h = cc
    go (some c') e h =
        let (l, m1, h1, h2) = >>=-eq-ok (flush_lists c' db.lists) _ m h in
        let done' : record db { lists = l; cache = none } ≡ db' = cc in
        let mine : c' ≡ c = cc in
        (
          subst (λ z. IsAppend db.lists (entries_of z) db'.lists) mine
              (subst (λ z. IsAppend db.lists (entries_of c') z)
                (ap (λ (d : DbSlurm). d.lists) done')
                (flush_lists_ok c' db.lists m m1 {out = l} h1)),
          sym (ap (λ (d : DbSlurm). d.cache) done'),
        )
