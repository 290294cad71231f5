-- ===== src/Slurm/Filters.antt =====
-- What the filters of db_slurm.c remove, as RFC 8416 describes it.
use fort_validator.Base.{
  ℕ, zero, suc, ◌<◌, ◌≡◌, ◌↔◌, refl, sym, ap, ◌∙◌, ◌⊎◌, inl, inr, Bool, true, false, not, ◌&&◌,
  ◌||◌, some, List, [], ◌∷◌, arith, get_elem?, All, All-get, Bool-cases, ◌==◌, all_below,
  all_below-at,
}
use fort_validator.Rtr.Vrp.{Vrp, RouterKey, bytes_eq}
use fort_validator.Slurm.{
  SlurmPrefix, SlurmBgpsec, Wrap, DbSlurm, has, flag_asn, flag_prefix, flag_ski, filtered_by,
  vrp_prefix_cov, prefix_filtered_by, bgpsec_filtered_by, any, prefix_filtered, bgpsec_filtered,
  db_slurm_vrp_is_filtered, db_slurm_bgpsec_is_filtered,
}

-- A filter that has an AS number, or something else, or both, and whatever it has agrees.
agrees : Bool → Bool → Bool → Bool → Bool
agrees with_asn with_other asn_eq same =
    (with_asn || with_other) && (not with_asn || asn_eq) && (not with_other || same)

-- if and only if
same_bool : Bool → Bool → Bool
same_bool true b = b
same_bool false b = not b

same_bool-eq : (a b : Bool) → same_bool a b ≡ true → a ≡ b
unfolding same_bool
same_bool-eq true b h = sym h
same_bool-eq false true h = cc
same_bool-eq false false h = refl

-- The comparison of one filter with an element of flags `other`, for all four outcomes of the
-- comparisons.
row : ℕ → ℕ → ℕ → Bool
row other flag filter =
    same_bool (filtered_by filter other flag true true)
      (agrees (has filter flag_asn) (has filter flag) true true)
    && same_bool (filtered_by filter other flag true false)
        (agrees (has filter flag_asn) (has filter flag) true false)
    && same_bool (filtered_by filter other flag false true)
        (agrees (has filter flag_asn) (has filter flag) false true)
    && same_bool (filtered_by filter other flag false false)
        (agrees (has filter flag_asn) (has filter flag) false false)

prefix_table : all_below 16 (row 13 flag_prefix) ≡ true
unfolding all_below row filtered_by agrees same_bool
prefix_table = refl

bgpsec_table : all_below 8 (row 5 flag_ski) ≡ true
unfolding all_below row filtered_by agrees same_bool
bgpsec_table = refl

row-agrees :
    (other flag filter : ℕ) (asn_eq same : Bool)
    → row other flag filter ≡ true
    → filtered_by filter other flag asn_eq same
      ≡ agrees (has filter flag_asn) (has filter flag) asn_eq same
unfolding row
row-agrees other flag filter true true h = same_bool-eq _ _ (ground arith)
row-agrees other flag filter true false h = same_bool-eq _ _ (ground arith)
row-agrees other flag filter false true h = same_bool-eq _ _ (ground arith)
row-agrees other flag filter false false h = same_bool-eq _ _ (ground arith)

-- What a filter asks for, by what it has: `asn_eq` and `same` are what must hold then.
pub record Agrees (with_asn with_other : Bool) (asn_eq same : Type 0) : Type 0 where
  pub something : (with_asn ≡ true) ⊎ (with_other ≡ true)
  pub by_asn : with_asn ≡ true → asn_eq
  pub by_other : with_other ≡ true → same

agrees_iff : (b c x y : Bool) → (agrees b c x y ≡ true) ↔ Agrees b c (x ≡ true) (y ≡ true)
unfolding agrees
agrees_iff true true x y = (
  (λ h. record { something = inl refl; by_asn = λ _. ground arith; by_other = λ _. ground arith }),
  λ a. let p = a.by_asn refl in let q = a.by_other refl in ground arith,
)
agrees_iff true false x y = (
  (λ h. record { something = inl refl; by_asn = λ _. ground arith; by_other = λ e. cc }),
  λ a. let p = a.by_asn refl in ground arith,
)
agrees_iff false true x y = (
  (λ h. record { something = inr refl; by_asn = λ e. cc; by_other = λ _. ground arith }),
  λ a. let p = a.by_other refl in ground arith,
)
agrees_iff false false x y = ((λ h. cc), λ a. elim a.something [ inl e ↦ cc | inr e ↦ cc ])

later :
    {A : Type 0} (p : A → Bool) (y : A) (ys : List A)
    → p y ≡ false
    → (i : ℕ) (x : A) → get_elem? (y ∷ ys) i ≡ some x
    → p x ≡ true
    → ((j : ℕ) → get_elem? ys j ≡ some x → any p ys ≡ true)
    → any p ys ≡ true
later p y ys e zero x g q rest = let same : y ≡ x = cc in let f = ap p same in cc
later p y ys e (suc i) x g q rest = rest i g

-- A loop finds an element exactly if there is one.
any_iff :
    {A : Type 0} (p : A → Bool) (xs : List A)
    → (any p xs ≡ true) ↔ ((i : ℕ) × (x : A) × (get_elem? xs i ≡ some x) × (p x ≡ true))
unfolding any
any_iff p [] = ((λ h. cc), λ (i, x, e, h). cc)
any_iff p (y ∷ ys) =
    let rest = any_iff p ys in
    elim (Bool-cases (p y)) [
      | inl e ↦ rw e ((λ _. (0, y, refl, e)), λ _. refl)
      | inr e ↦ rw e (
        (λ h. let (i, x, g, q) = rest.0 h in (suc i, x, g, q)),
        λ (i, x, g, q). later p y ys e i x g q (λ j g'. rest.1 (j, x, g', q)),
      )
    ]

-- The filter asks for the prefix of the ROA payload, or one that covers it, for its AS number, or
-- for both.
abbrev pub MatchesVrp : SlurmPrefix → Vrp → Type 0
MatchesVrp f vrp =
    Agrees (has f.data_flag flag_asn) (has f.data_flag flag_prefix) ((f.vrp.asn == vrp.asn) ≡ true)
      (vrp_prefix_cov f.vrp vrp ≡ true)

abbrev pub MatchesKey : SlurmBgpsec → RouterKey → Type 0
MatchesKey f key =
    Agrees (has f.data_flag flag_asn) (has f.data_flag flag_ski) ((f.asn == key.as_number) ≡ true)
      (bytes_eq f.ski key.ski ≡ true)

prefix_filtered_by_iff :
    (w : Wrap SlurmPrefix) (vrp : Vrp)
    → w.element.data_flag < 16
    → (prefix_filtered_by w (record { data_flag = 13; vrp = vrp }) ≡ true)
      ↔ MatchesVrp w.element vrp
unfolding prefix_filtered_by
prefix_filtered_by_iff w vrp lt =
    let f = w.element in
    let x = f.vrp.asn == vrp.asn in
    let y = vrp_prefix_cov f.vrp vrp in
    let e =
      row-agrees 13 flag_prefix f.data_flag x y
        (all_below-at 16 (row 13 flag_prefix) f.data_flag prefix_table lt) in
    let a = agrees_iff (has f.data_flag flag_asn) (has f.data_flag flag_prefix) x y in
    ((λ h. a.0 (sym e ∙ h)), λ h. e ∙ a.1 h)

bgpsec_filtered_by_iff :
    (w : Wrap SlurmBgpsec) (key : RouterKey)
    → w.element.data_flag < 8
    → (bgpsec_filtered_by w
          (record { data_flag = 5; asn = key.as_number; ski = key.ski; router_public_key = [] })
        ≡ true)
      ↔ MatchesKey w.element key
unfolding bgpsec_filtered_by
bgpsec_filtered_by_iff w key lt =
    let f = w.element in
    let x = f.asn == key.as_number in
    let y = bytes_eq f.ski key.ski in
    let e =
      row-agrees 5 flag_ski f.data_flag x y
        (all_below-at 8 (row 5 flag_ski) f.data_flag bgpsec_table lt) in
    let a = agrees_iff (has f.data_flag flag_asn) (has f.data_flag flag_ski) x y in
    ((λ h. a.0 (sym e ∙ h)), λ h. e ∙ a.1 h)

-- Some filter of the list matches.
abbrev pub SomeFilter : {A : Type 0} → List (Wrap A) → (A → Type 0) → Type 0
SomeFilter {A} filters matches =
    (i : ℕ) × (w : Wrap A) × (get_elem? filters i ≡ some w) × matches w.element

-- A ROA payload is filtered exactly if some prefix filter that is loaded asks for its AS number, for
-- a prefix that covers its own, or for both, and each that the filter has agrees. The filters carry
-- only flags that are defined.
pub db_slurm_vrp_is_filtered_iff :
    (db : DbSlurm) (vrp : Vrp)
    → All (λ w. w.element.data_flag < 16) db.lists.filter_prefixes.array
    → (db_slurm_vrp_is_filtered db vrp ≡ true)
      ↔ SomeFilter db.lists.filter_prefixes.array (λ f. MatchesVrp f vrp)
unfolding db_slurm_vrp_is_filtered prefix_filtered
db_slurm_vrp_is_filtered_iff db vrp flags =
    let filters = db.lists.filter_prefixes.array in
    let test : SlurmPrefix = record { data_flag = 13; vrp = vrp } in
    let found = any_iff (λ cursor. prefix_filtered_by cursor test) filters in
    let at = λ (i : ℕ) (w : Wrap SlurmPrefix) (g : get_elem? filters i ≡ some w).
      prefix_filtered_by_iff w vrp
        (All-get (λ w. w.element.data_flag < 16) filters i {x = w} flags g) in
    (
      (λ h. let (i, w, g, q) = found.0 h in (i, w, g, (at i w g).0 q)),
      λ (i, w, g, q). found.1 (i, w, g, (at i w g).1 q),
    )

-- While memory lasts, a router key is filtered exactly if some BGPsec filter that is loaded asks for
-- its AS number, its subject key identifier, or both, and each that the filter has agrees. The
-- filters carry only flags that are defined, and no router key.
pub db_slurm_bgpsec_is_filtered_iff :
    (db : DbSlurm) (key : RouterKey)
    → All (λ w. w.element.data_flag < 8) db.lists.filter_bgpsecs.array
    → (db_slurm_bgpsec_is_filtered true db key ≡ true)
      ↔ SomeFilter db.lists.filter_bgpsecs.array (λ f. MatchesKey f key)
unfolding db_slurm_bgpsec_is_filtered bgpsec_filtered
db_slurm_bgpsec_is_filtered_iff db key flags =
    let filters = db.lists.filter_bgpsecs.array in
    let found = any_iff (λ cursor. bgpsec_filtered_by cursor _) filters in
    let at = λ (i : ℕ) (w : Wrap SlurmBgpsec) (g : get_elem? filters i ≡ some w).
      bgpsec_filtered_by_iff w key
        (All-get (λ w. w.element.data_flag < 8) filters i {x = w} flags g) in
    (
      (λ h. let (i, w, g, q) = found.0 h in (i, w, g, (at i w g).0 q)),
      λ (i, w, g, q). found.1 (i, w, g, (at i w g).1 q),
    )
