-- ===== src/Resource/Slots/Claims.antt =====
-- What a slot of `struct resources` holds after an addition, compared with the parent's slot.
use fort_validator.Base.{
  ℕ, suc, ◌+◌, ◌^◌, ◌≤◌, ◌<◌, ◌≡◌, ◌↔◌, refl, sym, ◌∙◌, ◌⊎◌, inl, inr, Bool, true, false, Option,
  none, some, [], arith, subst, Bool-cases,
}
use fort_validator.Base.Results.{Result, ok, err, crit, ok-injective}
use fort_validator.Base.Memory.{Memory, allocation, >>=-eq-ok, lift-eq-ok}
use fort_validator.SortedArray.{
  SortedArray, Comparison, sarray_create, sarray_add, sarray_grow, sarray_append, compare_last,
  sarray_contains,
}
use fort_validator.Range.{Node, InNode}
use fort_validator.Range.Order.{IsRangeCmp}
use fort_validator.Range.Cover.{Holds}
use fort_validator.Range.Search.{sarray_contains-iff-Holds}
use fort_validator.Range.Add.{IsValid, sarray_add-IsValid, Holds-sarray_add}
use fort_validator.Resource.Slots.{Slot, array_of, inherit_slot, added, add_existing, add_to_slot}

module _ {A : Type 0} (cmp : A → A → Comparison) (node : A → Node) where
  -- The slot holds the number.
  abbrev pub HoldsIn : Option (Slot A) → ℕ → Type 0
  HoldsIn none a = ⊥
  HoldsIn (some slot) a = Holds node slot.array.array a

  -- The slot's array is valid, and has room for `n` more elements before its counters wrap.
  abbrev pub HasRoom : ℕ → Option (Slot A) → Type 0
  HasRoom n none = Unit
  HasRoom n (some slot) =
      IsValid cmp node slot.array × (slot.array.count + n ≤ 2 ^ 31) × (slot.array.len < 2 ^ 32)

  -- The child's slot is valid, and holds nothing that the parent's does not hold.
  pub record IsWithin (n : ℕ) (parent child : Option (Slot A)) : Type 0 where
    pub room : HasRoom n child
    pub subset : (a : ℕ) → HoldsIn child a → HoldsIn parent a

  pub HasRoom-weaken : (n k : ℕ) (o : Option (Slot A)) → k ≤ n → HasRoom n o → HasRoom k o
  HasRoom-weaken n k none h r = tt
  HasRoom-weaken n k (some slot) h r = (r.0, omega (arith, r.1), r.2)

  pub IsWithin-weaken : (n k : ℕ) (p c : Option (Slot A)) → k ≤ n → IsWithin n p c → IsWithin k p c
  IsWithin-weaken n k p c h w = record { room = HasRoom-weaken n k c h w.room; subset = w.subset }

  module _ (laws : IsRangeCmp cmp node) where
    sarray_add-HasRoom :
        (alloc : Bool) (s : SortedArray A) (e : A) (n : ℕ)
        → IsValid cmp node s
        → (node e).min ≤ (node e).max
        → s.count + suc n ≤ 2 ^ 31
        → s.len < 2 ^ 32
        → let t = (sarray_add cmp alloc s e).1 in
          IsValid cmp node t × (t.count + n ≤ 2 ^ 31) × (t.len < 2 ^ 32)
    unfolding sarray_add sarray_grow sarray_append compare_last
    sarray_add-HasRoom alloc s e n v ve hc hl = (
      sarray_add-IsValid cmp node laws alloc s e v ve (omega arith) hl,
      ground arith,
      ground arith,
    )

    -- What an addition without error leaves: a slot with one place less, which holds what it held
    -- and the new range.
    abbrev pub Extended : ℕ → A → Option (Slot A) → Option (Slot A) → Type 0
    Extended n e c c' = HasRoom n c' × ((a : ℕ) → HoldsIn c' a ↔ (HoldsIn c a ⊎ InNode a (node e)))

    added-Extended :
        (n : ℕ) (slot : Slot A) (e : A) (alloc : Bool) {c' : Option (Slot A)}
        → (node e).min ≤ (node e).max
        → HasRoom (suc n) (some slot)
        → added slot (sarray_add cmp alloc slot.array e) ≡ ok c'
        → Extended n e (some slot) c'
    added-Extended n slot e alloc {c'} ve v h = go (sarray_add cmp alloc slot.array e) refl h
      where
        go :
            (r : Result (Unit {0}) × SortedArray A)
            → sarray_add cmp alloc slot.array e ≡ r
            → added slot r ≡ ok c'
            → Extended n e (some slot) c'
        go (err x, t) q h = cc
        go (crit, t) q h = cc
        go (ok u, t) q h =
            let stays = sarray_add-HasRoom alloc slot.array e n v.0 ve v.1 v.2 in
            let holds = λ (a : ℕ). Holds-sarray_add cmp node laws alloc slot.array e a v.0 in
            let same : some (record slot { array = t }) ≡ c' = ok-injective h in
            subst (Extended n e (some slot)) same ((rw q at stays), λ a. (rw q at (holds a)) refl)

    existing-Extended :
        (n : ℕ) (slot : Slot A) (e : A) (m m' : Memory) {c' : Option (Slot A)}
        → (node e).min ≤ (node e).max
        → HasRoom (suc n) (some slot)
        → add_existing (λ alloc s. sarray_add cmp alloc s e) slot m ≡ ok (c', m')
        → Extended n e (some slot) c'
    unfolding add_existing
    existing-Extended n slot e m m' {c'} ve v h =
        let (alloc, m1, h1, h2) = >>=-eq-ok allocation _ m h in
        added-Extended n slot e alloc {c' = c'} ve v
          (lift-eq-ok (added slot (sarray_add cmp alloc slot.array e)) m1 h2)

    abbrev fresh : Slot A
    fresh = record {
      array = record { array = []; count = 0; len = 8; refcount = 1 };
      shared = false;
    }

    fresh-HasRoom : (n : ℕ) → suc n ≤ 2 ^ 31 → HasRoom (suc n) (some fresh)
    fresh-HasRoom n h = (
      record { counted = refl; room = omega arith; allocated = omega arith; sorted = tt },
      omega arith,
      omega arith,
    )

    fresh-Extended :
        (n : ℕ) (e : A) (c' : Option (Slot A)) → Extended n e (some fresh) c' → Extended n e none c'
    fresh-Extended n e c' x = (
      x.0,
      λ a. (
        (λ h. elim ((x.1 a).0 h) [ inl old ↦ absurd (ground (arith, old)) | inr new ↦ inr new ]),
        λ o. elim o [ inl old ↦ absurd old | inr new ↦ (x.1 a).1 (inr new) ],
      ),
    )

    -- A slot that is created or extended holds what it held, and the new range.
    pub add_to_slot-Extended :
        (n : ℕ) (c : Option (Slot A)) (e : A) (m m' : Memory) {c' : Option (Slot A)}
        → (node e).min ≤ (node e).max
        → HasRoom (suc n) c
        → suc n ≤ 2 ^ 31
        → add_to_slot (sarray_create A) (λ alloc s. sarray_add cmp alloc s e) c m ≡ ok (c', m')
        → Extended n e c c'
    unfolding add_to_slot sarray_create
    add_to_slot-Extended n (some slot) e m m' {c'} ve v hn h =
        existing-Extended n slot e m m' {c' = c'} ve v h
    add_to_slot-Extended n none e m m' {c'} ve v hn h =
        let (alloc, m1, h1, h2) = >>=-eq-ok allocation _ m h in
        elim (Bool-cases alloc) [
          | inl yes' ↦
              let h3 = rw yes' at h2 in
              fresh-Extended n e c'
                (existing-Extended n fresh e m1 m' {c' = c'} ve (fresh-HasRoom n hn) h3)
          | inr no' ↦ let h3 = rw no' at h2 in cc
        ]

    -- A search that finds a range in the parent's slot finds all its numbers there.
    contains-HoldsIn :
        (k : ℕ) (p : Option (Slot A)) (e : A)
        → HasRoom k p
        → (node e).min ≤ (node e).max
        → sarray_contains cmp (array_of p) e ≡ some true
        → (a : ℕ) → InNode a (node e)
        → HoldsIn p a
    unfolding sarray_contains
    contains-HoldsIn k none e r ve h a i = cc
    contains-HoldsIn k (some slot) e r ve h a i =
        let (b, eq, iff) =
          sarray_contains-iff-Holds cmp node laws slot.array e r.0.counted r.0.sorted ve in
        let both : some b ≡ some true = sym eq ∙ h in let found : b ≡ true = cc in iff.0 found a i

    -- The addition of a range that the parent's slot holds keeps the child within the parent.
    pub add_to_slot-IsWithin :
        (k n : ℕ) (p c : Option (Slot A)) (e : A) (m m' : Memory) {c' : Option (Slot A)}
        → (node e).min ≤ (node e).max
        → HasRoom k p
        → IsWithin (suc n) p c
        → suc n ≤ 2 ^ 31
        → sarray_contains cmp (array_of p) e ≡ some true
        → add_to_slot (sarray_create A) (λ alloc s. sarray_add cmp alloc s e) c m ≡ ok (c', m')
        → IsWithin n p c'
    add_to_slot-IsWithin k n p c e m m' {c'} ve r w hn found h =
        let x = add_to_slot-Extended n c e m m' {c' = c'} ve w.room hn h in
        record {
          room = x.0;
          subset = λ a i. elim ((x.1 a).0 i) [
            | inl old ↦ w.subset a old
            | inr new ↦ contains-HoldsIn k p e r ve found a new
          ];
        }

  -- An inherited slot is the parent's.
  pub inherit_slot-IsWithin :
      (n : ℕ) (p c : Option (Slot A)) (m m' : Memory) {c' : Option (Slot A)}
      → HasRoom n p
      → inherit_slot c p m ≡ ok (c', m')
      → IsWithin n p c'
  unfolding inherit_slot
  inherit_slot-IsWithin n p (some slot) m m' r h = cc
  inherit_slot-IsWithin n none none m m' {c'} r h =
      let same : none ≡ c' = cc in
      subst (IsWithin n none) same (record { room = tt; subset = λ a i. i })
  inherit_slot-IsWithin n (some slot) none m m' {c'} r h =
      let same : some (record slot { shared = true }) ≡ c' = cc in
      subst (IsWithin n (some slot)) same (record { room = r; subset = λ a i. i })
