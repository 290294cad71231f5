-- ===== src/Rtr/Vrp.antt =====
-- rtr/db/vrp.h and object/router_key.h: validated ROA payloads, router keys and their deltas.
use fort_validator.Base.{ℕ, ◌≡◌, ◌↔◌, refl, ap, Bool, true, false, List, [], ◌∷◌, ◌&&◌, ◌==◌, arith}
use fort_validator.Rtr.Keys.{Eq}

-- The union of `prefix`, tagged by `addr_fam`; an IPv6 address is its 16 bytes.
pub data Address : Type 0 where
  v4 : ℕ → Address
  v6 : List ℕ → Address

-- struct vrp
pub record Vrp : Type 0 where
  pub asn : ℕ
  pub prefix : Address
  pub prefix_length : ℕ
  pub max_prefix_length : ℕ

-- struct router_key
pub record RouterKey : Type 0 where
  pub ski : List ℕ
  pub as_number : ℕ
  pub spk : List ℕ

-- FLAG_ANNOUNCEMENT and FLAG_WITHDRAWAL
pub data Flag : Type 0 where
  announcement withdrawal : Flag

-- struct delta_vrp and struct delta_router_key
pub record Delta (K : Type 0) : Type 0 where
  pub serial : ℕ
  pub key : K
  pub flags : Flag

abbrev pub flag_eq : Flag → Flag → Bool
flag_eq announcement announcement = true
flag_eq withdrawal withdrawal = true
flag_eq _ _ = false

-- memcmp() of two arrays of one length, or IN6_ARE_ADDR_EQUAL.
unfoldable pub bytes_eq : List ℕ → List ℕ → Bool
bytes_eq [] [] = true
bytes_eq (a ∷ r) (b ∷ s) = a == b && bytes_eq r s
bytes_eq _ _ = false

-- The address parts of VRP_PREFIX_V4_EQ and VRP_PREFIX_V6_EQ.
unfoldable pub address_eq : Address → Address → Bool
address_eq (v4 a) (v4 b) = a == b
address_eq (v6 a) (v6 b) = bytes_eq a b
address_eq _ _ = false

-- VRP_EQ
unfoldable pub vrp_eq : Vrp → Vrp → Bool
vrp_eq a b =
    a.asn == b.asn
    && (address_eq a.prefix b.prefix && a.prefix_length == b.prefix_length)
    && a.max_prefix_length == b.max_prefix_length

-- The comparison in router_key_ovrd_remove().
unfoldable pub router_key_eq : RouterKey → RouterKey → Bool
router_key_eq a b = a.as_number == b.as_number && bytes_eq a.ski b.ski && bytes_eq a.spk b.spk

bytes_eq_iff : (a b : List ℕ) → (bytes_eq a b ≡ true) ↔ (a ≡ b)
unfolding bytes_eq
bytes_eq_iff [] [] = (λ _. refl, λ _. refl)
bytes_eq_iff [] (b ∷ s) = (λ h. cc, λ h. cc)
bytes_eq_iff (a ∷ r) [] = (λ h. cc, λ h. cc)
bytes_eq_iff (a ∷ r) (b ∷ s) =
    let ih = bytes_eq_iff r s in ((λ h. ground (arith, ih.0)), λ h. ground (arith, ih.1))

address_eq_iff : (a b : Address) → (address_eq a b ≡ true) ↔ (a ≡ b)
unfolding address_eq
address_eq_iff (v4 a) (v4 b) = ((λ h. ground arith), λ h. ground arith)
address_eq_iff (v6 a) (v6 b) =
    let i = bytes_eq_iff a b in ((λ h. ap v6 (i.0 h)), λ h. i.1 (ground arith))
address_eq_iff (v4 a) (v6 b) = (λ h. cc, λ h. cc)
address_eq_iff (v6 a) (v4 b) = (λ h. cc, λ h. cc)

pub vrp_eq_iff : (a b : Vrp) → (vrp_eq a b ≡ true) ↔ (a ≡ b)
unfolding vrp_eq
vrp_eq_iff a b =
    let i = address_eq_iff a.prefix b.prefix in
    ((λ h. ground (arith, i.0)), λ h. let p = i.1 (ap (λ (v : Vrp). v.prefix) h) in ground arith)

pub router_key_eq_iff : (a b : RouterKey) → (router_key_eq a b ≡ true) ↔ (a ≡ b)
unfolding router_key_eq
router_key_eq_iff a b =
    let i = bytes_eq_iff a.ski b.ski in
    let j = bytes_eq_iff a.spk b.spk in
    (
      (λ h. ground (arith, i.0, j.0)),
      λ h.
          let p = i.1 (ap (λ (k : RouterKey). k.ski) h) in
          let q = j.1 (ap (λ (k : RouterKey). k.spk) h) in ground arith,
    )

instance abbrev pub vrp_keys : Eq Vrp
vrp_keys = record { beq = vrp_eq; beq_iff = vrp_eq_iff }

instance abbrev pub router_key_keys : Eq RouterKey
router_key_keys = record { beq = router_key_eq; beq_iff = router_key_eq_iff }
