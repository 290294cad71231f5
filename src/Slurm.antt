-- ===== src/Slurm.antt =====
-- src/slurm/db_slurm.c: the filters and assertions of an operator's SLURM files (RFC 8416). A file
-- is read into the cache, and flushed into the lists when it turns out to be correct.
pub mod Filters
pub mod Flush
pub mod Conflicts
pub mod Reading
pub mod Append
pub mod Files
pub mod Apply
pub mod Load
use Prim.Native.Nat.{bit_and}
use fort_validator.Base.{
  ℕ, ◌+◌, ◌-◌, Bool, true, false, not, ◌&&◌, ◌||◌, Option, none, some, List, [], ◌∷◌, ltb, leb,
  ◌==◌, if◌then◌else◌, length,
}
use fort_validator.Base.Results.{Result, ok, err, crit, reject, eexist, enomem, and_then, walk}
use fort_validator.Base.Memory.{Alloc, pure, malloc, ◌>>=◌, ◌>>◌, lift, allocation, for_each}
use fort_validator.Address.{be_value, ipv4_covered}
use fort_validator.Address.Ipv6.{ipv6_covered}
use fort_validator.Rtr.ArrayList
use fort_validator.Rtr.ArrayList.{ArrayList}
use fort_validator.Rtr.Vrp.{Address, v4, v6, Vrp, RouterKey, bytes_eq}

-- SLURM_COM_FLAG_*, SLURM_PFX_FLAG_* and SLURM_BGPS_FLAG_*
abbrev pub flag_asn : ℕ
flag_asn = 0x01

abbrev pub flag_comment : ℕ
flag_comment = 0x02

abbrev pub flag_prefix : ℕ
flag_prefix = 0x04

abbrev pub flag_max_length : ℕ
flag_max_length = 0x08

abbrev pub flag_ski : ℕ
flag_ski = 0x04

-- struct slurm_prefix
pub record SlurmPrefix : Type 0 where
  pub data_flag : ℕ
  pub vrp : Vrp

-- struct slurm_bgpsec
pub record SlurmBgpsec : Type 0 where
  pub data_flag : ℕ
  pub asn : ℕ
  pub ski : List ℕ
  pub router_public_key : List ℕ

-- struct slurm_prefix_wrap and struct slurm_bgpsec_wrap
pub record Wrap (A : Type 0) : Type 0 where
  pub element : A
  pub references : ℕ

-- struct slurm_lists
pub record SlurmLists : Type 0 where
  pub filter_prefixes : ArrayList (Wrap SlurmPrefix)
  pub assertion_prefixes : ArrayList (Wrap SlurmPrefix)
  pub filter_bgpsecs : ArrayList (Wrap SlurmBgpsec)
  pub assertion_bgpsecs : ArrayList (Wrap SlurmBgpsec)

-- struct slurm_file_csum
pub record FileCsum : Type 0 where
  pub csum : List ℕ
  pub csum_len : ℕ

-- struct db_slurm
pub record DbSlurm : Type 0 where
  pub lists : SlurmLists
  pub cache : Option SlurmLists
  pub loaded_date : Option ℕ
  pub csum_list : List FileCsum

abbrev pub no_lists : SlurmLists
no_lists = record {
  filter_prefixes = ArrayList.init;
  assertion_prefixes = ArrayList.init;
  filter_bgpsecs = ArrayList.init;
  assertion_bgpsecs = ArrayList.init;
}

unfoldable pub slurm_lists_create : Alloc SlurmLists
slurm_lists_create = malloc >> pure no_lists

unfoldable pub db_slurm_create : Alloc DbSlurm
db_slurm_create =
    malloc >> pure (record { lists = no_lists; cache = none; loaded_date = none; csum_list = [] })

-- (data_flag & flag) > 0
abbrev pub has : ℕ → ℕ → Bool
has data_flag flag = ltb 0 (bit_and data_flag flag)

-- data_flag & ~SLURM_COM_FLAG_COMMENT, of 8 bits
abbrev pub uncommented : ℕ → ℕ
uncommented data_flag = bit_and data_flag (0xFF - flag_comment)

-- VRP_PREFIX_COV; an IPv6 address is its bytes.
unfoldable pub vrp_prefix_cov : Vrp → Vrp → Bool
vrp_prefix_cov a b = covers a.prefix b.prefix && leb a.prefix_length b.prefix_length
  where
    covers : Address → Address → Bool
    covers (v4 f) (v4 son) = ipv4_covered f a.prefix_length son
    covers (v6 f) (v6 son) = ipv6_covered (be_value f) a.prefix_length (be_value son)
    covers _ _ = false

-- What prefix_filtered_by() and bgpsec_filtered_by() have in common: the flags of the filter and of
-- the other element, the flag of what is compared beside the AS number, and the two comparisons.
unfoldable pub filtered_by : ℕ → ℕ → ℕ → Bool → Bool → Bool
filtered_by filter other flag asn_eq same =
    if not (uncommented filter == uncommented other)
    then (if uncommented filter == flag_asn + flag
        then asn_eq && same
        else if has filter flag_asn && has other flag_asn
        then asn_eq
        else if has filter flag && has other flag
        then same
        else false)
    else ((if has filter flag_asn then asn_eq else true)
        && (if has filter flag then same else true))

unfoldable pub prefix_filtered_by : Wrap SlurmPrefix → SlurmPrefix → Bool
prefix_filtered_by filter_wrap prefix =
    let filter = filter_wrap.element in
    filtered_by filter.data_flag prefix.data_flag flag_prefix (filter.vrp.asn == prefix.vrp.asn)
      (vrp_prefix_cov filter.vrp prefix.vrp)

unfoldable pub bgpsec_filtered_by : Wrap SlurmBgpsec → SlurmBgpsec → Bool
bgpsec_filtered_by filter_wrap bgpsec =
    let filter = filter_wrap.element in
    filtered_by filter.data_flag bgpsec.data_flag flag_ski (filter.asn == bgpsec.asn)
      (bytes_eq filter.ski bgpsec.ski)

-- A loop that returns true at the first element that passes the test.
unfoldable pub any : {A : Type 0} → (A → Bool) → List A → Bool
any p [] = false
any p (x ∷ xs) = if p x then true else any p xs

unfoldable pub prefix_filtered : DbSlurm → SlurmPrefix → Bool
prefix_filtered db prefix =
    any (λ cursor. prefix_filtered_by cursor prefix) db.lists.filter_prefixes.array

unfoldable pub bgpsec_filtered : DbSlurm → SlurmBgpsec → Bool
bgpsec_filtered db bgpsec =
    any (λ cursor. bgpsec_filtered_by cursor bgpsec) db.lists.filter_bgpsecs.array

unfoldable pub prefix_contained : SlurmPrefix → SlurmPrefix → Bool
prefix_contained left right =
    has left.data_flag flag_prefix
    && has right.data_flag flag_prefix
    && vrp_prefix_cov left.vrp right.vrp

unfoldable pub bgpsec_contained : SlurmBgpsec → SlurmBgpsec → Bool
bgpsec_contained left right =
    has left.data_flag flag_asn && has right.data_flag flag_asn && left.asn == right.asn

-- The loops of prefix_exists() and bgpsec_exists() over one list.
unfoldable pub touches : {A : Type 0} → (A → A → Bool) → List (Wrap A) → A → Bool
touches contained list elem =
    any (λ cursor. contained cursor.element elem || contained elem cursor.element) list

unfoldable pub prefix_exists : DbSlurm → SlurmPrefix → Bool
prefix_exists db elem =
    if touches prefix_contained db.lists.filter_prefixes.array elem
    then true
    else touches prefix_contained db.lists.assertion_prefixes.array elem

unfoldable pub bgpsec_exists : DbSlurm → SlurmBgpsec → Bool
bgpsec_exists db elem =
    if touches bgpsec_contained db.lists.filter_bgpsecs.array elem
    then true
    else touches bgpsec_contained db.lists.assertion_bgpsecs.array elem

-- db->cache, which is dereferenced.
unfoldable pub in_cache : DbSlurm → (SlurmLists → Alloc SlurmLists) → Alloc DbSlurm
in_cache db change = elim db.cache [
  | none ↦ lift crit
  | some cache ↦ do cache' ← change cache; pure (record db { cache = some cache' })
]

abbrev pub wrap : {A : Type 0} → A → Wrap A
wrap elem = record { element = elem; references = 1 }

unfoldable pub db_slurm_add_prefix_filter : DbSlurm → SlurmPrefix → Alloc DbSlurm
db_slurm_add_prefix_filter db elem = do
  lift (reject (prefix_exists db elem) eexist)
  in_cache db (λ cache. do
    l ← ArrayList.add cache.filter_prefixes (wrap elem)
    pure (record cache { filter_prefixes = l }))

unfoldable pub db_slurm_add_prefix_assertion : DbSlurm → SlurmPrefix → Alloc DbSlurm
db_slurm_add_prefix_assertion db elem = do
  lift (reject (prefix_exists db elem) eexist)
  in_cache db (λ cache. do
    l ← ArrayList.add cache.assertion_prefixes (wrap elem)
    pure (record cache { assertion_prefixes = l }))

unfoldable pub db_slurm_add_bgpsec_filter : DbSlurm → SlurmBgpsec → Alloc DbSlurm
db_slurm_add_bgpsec_filter db elem = do
  lift (reject (bgpsec_exists db elem) eexist)
  in_cache db (λ cache. do
    l ← ArrayList.add cache.filter_bgpsecs (wrap elem)
    pure (record cache { filter_bgpsecs = l }))

unfoldable pub db_slurm_add_bgpsec_assertion : DbSlurm → SlurmBgpsec → Alloc DbSlurm
db_slurm_add_bgpsec_assertion db elem = do
  lift (reject (bgpsec_exists db elem) eexist)
  in_cache db (λ cache. do
    l ← ArrayList.add cache.assertion_bgpsecs (wrap elem)
    pure (record cache { assertion_bgpsecs = l }))

unfoldable pub db_slurm_vrp_is_filtered : DbSlurm → Vrp → Bool
db_slurm_vrp_is_filtered db vrp =
    prefix_filtered db (record { data_flag = flag_asn + flag_prefix + flag_max_length; vrp = vrp })

-- The Boolean says whether malloc() succeeds; where it does not, nothing is filtered.
unfoldable pub db_slurm_bgpsec_is_filtered : Bool → DbSlurm → RouterKey → Bool
db_slurm_bgpsec_is_filtered false db key = false
db_slurm_bgpsec_is_filtered true db key = bgpsec_filtered db (record {
  data_flag = flag_asn + flag_ski;
  asn = key.as_number;
  ski = key.ski;
  router_public_key = [];
})
