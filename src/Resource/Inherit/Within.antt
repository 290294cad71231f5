-- ===== src/Resource/Inherit/Within.antt =====
-- The functions of src/resource.c that read a whole extension, for a certificate with a parent.
use fort_validator.Base.{
  ℕ, suc, ◌+◌, ◌^◌, ◌≤◌, ◌≡◌, refl, inl, inr, Bool, true, false, not, Option, none, some, List, [],
  ◌∷◌, arith, length, ltb, All, ◌==◌, subst,
}
use fort_validator.Base.Results.{ok, err, reject, einval}
use fort_validator.Base.Memory.{Memory, Alloc, lift, >>=-eq-ok, ◌>>◌, for_each-keeps}
use fort_validator.SortedArray.{sarray_create}
use fort_validator.Range.{asn_cmp, r4_cmp}
use fort_validator.Range.Order.{asn_cmp-IsRangeCmp}
use fort_validator.Address.Decode.{AreBytes}
use fort_validator.Resource.Asn.{rasn_create, rasn_add, rasn_contains}
use fort_validator.Resource.Extension.{
  AddressOrRange, address_prefix, address_range, AddressChoice, addresses_or_ranges, AddressFamily,
  AsIdOrRange, AsIdentifierChoice, as_ids_or_ranges, AsIdentifiers,
}
use fort_validator.Resource.Slots.{Resources, inherits, inherit_slot}
use fort_validator.Resource.Ip6.{r6_cmp}
use fort_validator.Resource.Ip6.Order.{node6}
use fort_validator.Resource.Slots.Claims.{
  HasRoom-weaken, add_to_slot-IsWithin, inherit_slot-IsWithin,
}
use fort_validator.Resource.Inherit.{
  Family, inet, inet6, get_addr_family, inherit_aors, add_prefix, add_range, add_aor, add_aors,
  resources_add_ip, inherit_asiors, add_asn, as_id_to_ulong, add_asior, add_asiors,
  resources_add_asn,
}
use fort_validator.Resource.Inherit.Subset.{
  HaveRoom, AreWithin, AreWithin-weaken, range_of, claimed, unchanged, with_asns,
  add_prefix4-AreWithin, add_prefix6-AreWithin, add_range4-AreWithin, add_range6-AreWithin,
}

-- The bit strings of an element hold bytes.
abbrev pub HasBytes : AddressOrRange → Type 0
HasBytes AddressOrRange.nothing = Unit
HasBytes (address_prefix addr) = AreBytes addr.buf
HasBytes (address_range input) = AreBytes input.min.buf × AreBytes input.max.buf

abbrev pub ChoiceHasBytes : AddressChoice → Type 0
ChoiceHasBytes AddressChoice.nothing = Unit
ChoiceHasBytes AddressChoice.inherit = Unit
ChoiceHasBytes (addresses_or_ranges aors) = All HasBytes aors

-- The number of elements that an extension lists.
abbrev pub listed : AddressChoice → ℕ
listed AddressChoice.nothing = 0
listed AddressChoice.inherit = 0
listed (addresses_or_ranges aors) = length aors

abbrev pub listed_choice : {I : Type 0} → Option (AsIdentifierChoice I) → ℕ
listed_choice none = 0
listed_choice (some AsIdentifierChoice.nothing) = 0
listed_choice (some AsIdentifierChoice.inherit) = 0
listed_choice (some (as_ids_or_ranges iors)) = length iors

All-Unit : {A : Type 0} (xs : List A) → All (λ _. Unit {0}) xs
All-Unit [] = tt
All-Unit (x ∷ xs) = (tt, All-Unit xs)

guarded :
    (b : Bool) (next : Alloc Resources) (m : Memory) {out : Resources × Memory}
    → (lift (reject b einval) >> next) m ≡ ok out
    → (b ≡ false) × (next m ≡ ok out)
guarded true next m h = cc
guarded false next m h = (refl, h)

module _ (parent : Resources) (hp : HaveRoom 0 parent) where
  add_aor-AreWithin :
      (n : ℕ) (family : Family) (aor : AddressOrRange) (r r' : Resources) (m m' : Memory)
      → suc n ≤ 2 ^ 31
      → HasBytes aor
      → AreWithin (suc n) parent r
      → add_aor (some parent) family aor r m ≡ ok (r', m')
      → AreWithin n parent r'
  unfolding add_aor add_prefix add_range
  add_aor-AreWithin n family AddressOrRange.nothing r r' m m' hn b w h = cc
  add_aor-AreWithin n inet (address_prefix addr) r r' m m' hn b w h =
      add_prefix4-AreWithin n parent hp hn addr r m m' {r' = r'} b w h
  add_aor-AreWithin n inet6 (address_prefix addr) r r' m m' hn b w h =
      add_prefix6-AreWithin n parent hp hn addr r m m' {r' = r'} b w h
  add_aor-AreWithin n inet (address_range input) r r' m m' hn b w h =
      add_range4-AreWithin n parent hp hn input r m m' {r' = r'} b w h
  add_aor-AreWithin n inet6 (address_range input) r r' m m' hn b w h =
      add_range6-AreWithin n parent hp hn input r m m' {r' = r'} b w h

  add_asn-AreWithin :
      (n min max : ℕ) (r r' : Resources) (m m' : Memory)
      → suc n ≤ 2 ^ 31
      → AreWithin (suc n) parent r
      → add_asn min max (some parent) r m ≡ ok (r', m')
      → AreWithin n parent r'
  unfolding add_asn rasn_create rasn_add rasn_contains sarray_create
  add_asn-AreWithin n min max r r' m m' hn w h =
      let (order, h1) = guarded (ltb max min) _ m h in
      let v : min ≤ max = ground arith in
      elim (claimed _ parent r.policy r _ (λ s. record r { asns = s }) m m' {r' = r'} h1) [
        | inr same ↦ unchanged n parent hp hn r r' w same
        | inl (held, c, m1, m2, a, same) ↦
            let e =
              add_to_slot-IsWithin asn_cmp range_of asn_cmp-IsRangeCmp 0 n parent.asns r.asns
                (record { min = min; max = max }) m1 m2 {c' = c} v hp.asns w.asns hn held a in
            with_asns n parent hp hn r {c = c} {r' = r'} w e same
      ]

  -- The invariant of the loops, with the elements left.
  abbrev Left : ℕ → Resources → Type 0
  Left n r = (n ≤ 2 ^ 31) × AreWithin n parent r

  module _ {I : Type 0} (asn_integer_to_ulong : I → Option ℕ) where
    add_asior-AreWithin :
        (n : ℕ) (ior : AsIdOrRange I) (r r' : Resources) (m m' : Memory)
        → suc n ≤ 2 ^ 31
        → AreWithin (suc n) parent r
        → add_asior asn_integer_to_ulong (some parent) ior r m ≡ ok (r', m')
        → AreWithin n parent r'
    unfolding add_asior
    add_asior-AreWithin n AsIdOrRange.nothing r r' m m' hn w h =
        let (_, h1) = guarded (inherits (λ r. r.asns) (some parent) r) _ m h in cc
    add_asior-AreWithin n (AsIdOrRange.id i) r r' m m' hn w h =
        let (_, h1) = guarded (inherits (λ r. r.asns) (some parent) r) _ m h in
        let (asn, m1, _, h2) = >>=-eq-ok (lift (as_id_to_ulong asn_integer_to_ulong i)) _ m h1 in
        add_asn-AreWithin n asn asn r r' m1 m' hn w h2
    add_asior-AreWithin n (AsIdOrRange.range i j) r r' m m' hn w h =
        let (_, h1) = guarded (inherits (λ r. r.asns) (some parent) r) _ m h in
        let (lo, m1, _, h2) = >>=-eq-ok (lift (as_id_to_ulong asn_integer_to_ulong i)) _ m h1 in
        let (hi, m2, _, h3) = >>=-eq-ok (lift (as_id_to_ulong asn_integer_to_ulong j)) _ m1 h2 in
        add_asn-AreWithin n lo hi r r' m2 m' hn w h3

HaveRoom-weaken : (k : ℕ) (p : Resources) → HaveRoom k p → HaveRoom 0 p
HaveRoom-weaken k p h = record {
  ip4s = HasRoom-weaken r4_cmp range_of k 0 p.ip4s (omega arith) h.ip4s;
  ip6s = HasRoom-weaken r6_cmp node6 k 0 p.ip6s (omega arith) h.ip6s;
  asns = HasRoom-weaken asn_cmp range_of k 0 p.asns (omega arith) h.asns;
}

module _ (parent : Resources) (k : ℕ) (hp : HaveRoom k parent) where
  inherit_aors-AreWithin :
      (family : Family) (r r' : Resources) (m m' : Memory)
      → AreWithin k parent r
      → inherit_aors (some parent) family r m ≡ ok (r', m')
      → AreWithin k parent r'
  unfolding inherit_aors
  inherit_aors-AreWithin inet r r' m m' w h =
      let (c, m1, h1, h2) = >>=-eq-ok (inherit_slot r.ip4s parent.ip4s) _ m h in
      let e = inherit_slot-IsWithin r4_cmp range_of k parent.ip4s r.ip4s m m1 {c' = c} hp.ip4s h1 in
      let same : record r { ip4s = c } ≡ r' = cc in
      subst (AreWithin k parent) same (record { ip4s = e; ip6s = w.ip6s; asns = w.asns })
  inherit_aors-AreWithin inet6 r r' m m' w h =
      let (c, m1, h1, h2) = >>=-eq-ok (inherit_slot r.ip6s parent.ip6s) _ m h in
      let e = inherit_slot-IsWithin r6_cmp node6 k parent.ip6s r.ip6s m m1 {c' = c} hp.ip6s h1 in
      let same : record r { ip6s = c } ≡ r' = cc in
      subst (AreWithin k parent) same (record { ip4s = w.ip4s; ip6s = e; asns = w.asns })

  inherit_asiors-AreWithin :
      (r r' : Resources) (m m' : Memory)
      → AreWithin k parent r
      → inherit_asiors (some parent) r m ≡ ok (r', m')
      → AreWithin k parent r'
  unfolding inherit_asiors
  inherit_asiors-AreWithin r r' m m' w h =
      let (c, m1, h1, h2) = >>=-eq-ok (inherit_slot r.asns parent.asns) _ m h in
      let e =
        inherit_slot-IsWithin asn_cmp range_of k parent.asns r.asns m m1 {c' = c} hp.asns h1 in
      let same : record r { asns = c } ≡ r' = cc in
      subst (AreWithin k parent) same (record { ip4s = w.ip4s; ip6s = w.ip6s; asns = e })

  add_aors-AreWithin :
      (family : Family) (aors : List AddressOrRange) (r r' : Resources) (m m' : Memory)
      → length aors + k ≤ 2 ^ 31
      → All HasBytes aors
      → AreWithin (length aors + k) parent r
      → add_aors (some parent) family aors r m ≡ ok (r', m')
      → AreWithin k parent r'
  unfolding add_aors
  add_aors-AreWithin family aors r r' m m' hn b w h =
      let zero_room = HaveRoom-weaken k parent hp in
      let (_, h1) = guarded r.force_inherit _ m h in
      let (_, h2) = guarded (length aors == 0) _ m h1 in
      (for_each-keeps (add_aor (some parent) family) HasBytes (Left parent zero_room)
        (λ n x t t' m m' hx i e. (
          omega (arith, i.0),
          add_aor-AreWithin parent zero_room n family x t t' m m' i.0 hx i.1 e,
        ))
        k aors r r' m m' b (hn, w) h2).1

  -- A certificate with a parent reads an extension of IP addresses without error. If before its
  -- valid slots are within the parent's, so they are afterwards: every address that the certificate
  -- then holds, the parent holds, under both policies. The counters of all slots have room for the
  -- elements that the extension lists, and for `k` more.
  pub resources_add_ip-AreWithin :
      (obj : AddressFamily) (r r' : Resources) (m m' : Memory)
      → listed obj.ip_address_choice + k ≤ 2 ^ 31
      → ChoiceHasBytes obj.ip_address_choice
      → AreWithin (listed obj.ip_address_choice + k) parent r
      → resources_add_ip (some parent) obj r m ≡ ok (r', m')
      → AreWithin k parent r'
  unfolding resources_add_ip
  resources_add_ip-AreWithin obj r r' m m' hn b w h =
      read (get_addr_family obj.address_family) obj.ip_address_choice hn b w h
    where
      read :
          (family : Option Family) (choice : AddressChoice)
          → listed choice + k ≤ 2 ^ 31
          → ChoiceHasBytes choice
          → AreWithin (listed choice + k) parent r
          → (elim family as (λ _. Alloc Resources) [
            | none ↦ lift (err einval)
            | some family ↦ elim choice [
              | AddressChoice.nothing ↦ lift (err einval)
              | AddressChoice.inherit ↦ inherit_aors (some parent) family r
              | addresses_or_ranges aors ↦ add_aors (some parent) family aors r
            ]
          ])
              m
            ≡ ok (r', m')
          → AreWithin k parent r'
      read none choice hn b w h = cc
      read (some family) AddressChoice.nothing hn b w h = cc
      read (some family) AddressChoice.inherit hn b w h =
          inherit_aors-AreWithin family r r' m m'
            (AreWithin-weaken (0 + k) k parent r (omega arith) w) h
      read (some family) (addresses_or_ranges aors) hn b w h =
          add_aors-AreWithin family aors r r' m m' hn b w h

  module _ {I : Type 0} (asn_integer_to_ulong : I → Option ℕ) where
    add_asiors-AreWithin :
        (iors : List (AsIdOrRange I)) (r r' : Resources) (m m' : Memory)
        → length iors + k ≤ 2 ^ 31
        → AreWithin (length iors + k) parent r
        → add_asiors asn_integer_to_ulong (some parent) iors r m ≡ ok (r', m')
        → AreWithin k parent r'
    unfolding add_asiors
    add_asiors-AreWithin iors r r' m m' hn w h =
        let zero_room = HaveRoom-weaken k parent hp in
        let (_, h1) = guarded r.force_inherit _ m h in
        let (_, h2) = guarded (length iors == 0) _ m h1 in
        (for_each-keeps (add_asior asn_integer_to_ulong (some parent)) (λ _. Unit {0})
          (Left parent zero_room)
          (λ n x t t' m m' hx i e. (
            omega (arith, i.0),
            add_asior-AreWithin parent zero_room asn_integer_to_ulong n x t t' m m' i.0 i.1 e,
          ))
          k iors r r' m m' (All-Unit iors) (hn, w) h2).1

    -- A certificate with a parent reads an extension of AS numbers without error. If before its
    -- valid slots are within the parent's, so they are afterwards: every AS number that the
    -- certificate then holds, the parent holds, under both policies. The counters of all slots have
    -- room for the elements that the extension lists, and for `k` more.
    pub resources_add_asn-AreWithin :
        (ids : AsIdentifiers I) (allow_inherit : Bool) (r r' : Resources) (m m' : Memory)
        → listed_choice ids.asnum + k ≤ 2 ^ 31
        → AreWithin (listed_choice ids.asnum + k) parent r
        → resources_add_asn asn_integer_to_ulong (some parent) ids allow_inherit r m ≡ ok (r', m')
        → AreWithin k parent r'
    unfolding resources_add_asn
    resources_add_asn-AreWithin ids allow_inherit r r' m m' hn w h = read ids.asnum hn w h
      where
        read :
            (asnum : Option (AsIdentifierChoice I))
            → listed_choice asnum + k ≤ 2 ^ 31
            → AreWithin (listed_choice asnum + k) parent r
            → (elim asnum as (λ _. Alloc Resources) [
              | none ↦ lift (err einval)
              | some choice ↦ lift (reject ids.rdi einval) >> (elim choice [
                | AsIdentifierChoice.nothing ↦ lift (err einval)
                | AsIdentifierChoice.inherit ↦
                    lift (reject (not allow_inherit) einval) >> inherit_asiors (some parent) r
                | as_ids_or_ranges iors ↦ add_asiors asn_integer_to_ulong (some parent) iors r
              ])
            ])
                m
              ≡ ok (r', m')
            → AreWithin k parent r'
        read none hn w h = cc
        read (some AsIdentifierChoice.nothing) hn w h = let (_, h1) = guarded ids.rdi _ m h in cc
        read (some AsIdentifierChoice.inherit) hn w h =
            let (_, h1) = guarded ids.rdi _ m h in
            let (_, h2) = guarded (not allow_inherit) _ m h1 in
            inherit_asiors-AreWithin r r' m m' (AreWithin-weaken (0 + k) k parent r (omega arith) w)
              h2
        read (some (as_ids_or_ranges iors)) hn w h =
            let (_, h1) = guarded ids.rdi _ m h in add_asiors-AreWithin iors r r' m m' hn w h1
