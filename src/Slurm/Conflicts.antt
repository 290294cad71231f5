-- ===== src/Slurm/Conflicts.antt =====
-- What the entries of a SLURM file in db_slurm.c must not do: conflict with one of the lists.
use fort_validator.Base.{
  ℕ, zero, suc, ◌≡◌, ap, Bool, false, ◌||◌, some, List, [], ◌∷◌, arith, get_elem?, All,
}
use fort_validator.Slurm.{
  SlurmPrefix, SlurmBgpsec, Wrap, SlurmLists, DbSlurm, any, touches, prefix_contained,
  bgpsec_contained, prefix_exists, bgpsec_exists,
}

-- No element of the list contains the other one, or is contained in it.
abbrev pub ApartFrom : {A : Type 0} → (A → A → Bool) → List (Wrap A) → A → Type 0
ApartFrom {A} contained list elem =
    (i : ℕ) (w : Wrap A)
    → get_elem? list i ≡ some w
    → (contained w.element elem ≡ false) × (contained elem w.element ≡ false)

any-false :
    {A : Type 0} (p : A → Bool) (xs : List A) (i : ℕ) (x : A)
    → any p xs ≡ false
    → get_elem? xs i ≡ some x
    → p x ≡ false
unfolding any
any-false p [] i x h g = cc
any-false p (y ∷ ys) zero x h g =
    let same : y ≡ x = cc in let here : p y ≡ false = ground arith in cc (ap p same, here)
any-false p (y ∷ ys) (suc i) x h g = any-false p ys i x (ground arith) g

touches-ApartFrom :
    {A : Type 0} (contained : A → A → Bool) (list : List (Wrap A)) (elem : A)
    → touches contained list elem ≡ false
    → ApartFrom contained list elem
unfolding touches
touches-ApartFrom contained list elem h i w g =
    let f =
      any-false (λ cursor. contained cursor.element elem || contained elem cursor.element) list i w
        h g in
    (ground arith, ground arith)

-- An entry for prefixes, or for BGPsec, that conflicts with none of the lists.
abbrev pub PrefixFree : SlurmLists → SlurmPrefix → Type 0
PrefixFree l e =
    ApartFrom prefix_contained l.filter_prefixes.array e
    × ApartFrom prefix_contained l.assertion_prefixes.array e

abbrev pub BgpsecFree : SlurmLists → SlurmBgpsec → Type 0
BgpsecFree l e =
    ApartFrom bgpsec_contained l.filter_bgpsecs.array e
    × ApartFrom bgpsec_contained l.assertion_bgpsecs.array e

pub prefix_exists-free :
    (db : DbSlurm) (e : SlurmPrefix) → prefix_exists db e ≡ false → PrefixFree db.lists e
unfolding prefix_exists
prefix_exists-free db e h = (
  touches-ApartFrom prefix_contained db.lists.filter_prefixes.array e (ground arith),
  touches-ApartFrom prefix_contained db.lists.assertion_prefixes.array e (ground arith),
)

pub bgpsec_exists-free :
    (db : DbSlurm) (e : SlurmBgpsec) → bgpsec_exists db e ≡ false → BgpsecFree db.lists e
unfolding bgpsec_exists
bgpsec_exists-free db e h = (
  touches-ApartFrom bgpsec_contained db.lists.filter_bgpsecs.array e (ground arith),
  touches-ApartFrom bgpsec_contained db.lists.assertion_bgpsecs.array e (ground arith),
)

-- The entries of a file, as the cache or the lists store them.
pub record Entries : Type 0 where
  pub filter_prefixes : List (Wrap SlurmPrefix)
  pub assertion_prefixes : List (Wrap SlurmPrefix)
  pub filter_bgpsecs : List (Wrap SlurmBgpsec)
  pub assertion_bgpsecs : List (Wrap SlurmBgpsec)

abbrev pub no_entries : Entries
no_entries = record {
  filter_prefixes = [];
  assertion_prefixes = [];
  filter_bgpsecs = [];
  assertion_bgpsecs = [];
}

abbrev pub entries_of : SlurmLists → Entries
entries_of lists = record {
  filter_prefixes = lists.filter_prefixes.array;
  assertion_prefixes = lists.assertion_prefixes.array;
  filter_bgpsecs = lists.filter_bgpsecs.array;
  assertion_bgpsecs = lists.assertion_bgpsecs.array;
}

-- No new entry conflicts with one of the old lists.
pub record NoConflict (old : SlurmLists) (new : Entries) : Type 0 where
  pub filter_prefixes : All (λ w. PrefixFree old w.element) new.filter_prefixes
  pub assertion_prefixes : All (λ w. PrefixFree old w.element) new.assertion_prefixes
  pub filter_bgpsecs : All (λ w. BgpsecFree old w.element) new.filter_bgpsecs
  pub assertion_bgpsecs : All (λ w. BgpsecFree old w.element) new.assertion_bgpsecs
