-- ===== src/Range/Add.antt =====
-- sarray_add() of sorted_array.c over ranges: what it accepts, what it keeps and what it adds.
use fort_validator.Base.{
  ℕ, zero, suc, ◌+◌, ◌-◌, ◌^◌, ◌≤◌, ◌<◌, ◌≡◌, ◌↔◌, ◌≢◌, refl, sym, ◌⊎◌, inl, inr, Bool, true, some,
  List, [], ◌∷◌, ◌++◌, arith, ◌==◌, length, get_elem?, All, length-append, take, ◌%◌, ◌∙◌,
  take-length, drop-length, get_elem?-of_lt, get_elem?-lt, Bool-cases,
}
use native.Mathlib.Decide.{ℕ_discrete}
use fort_validator.Base.Results.{ok}
use fort_validator.SortedArray.{
  SortedArray, Comparison, equal, child, parent, left, right, adjacent_left, adjacent_right,
  intersection, get_nth_element, comparison_error, compare_last, put_nth_element, sarray_grow,
  sarray_append, sarray_add,
}
use fort_validator.Range.{Node, InNode}
use fort_validator.Range.Order.{Verdict, IsRangeCmp}
use fort_validator.Range.Cover.{IsSorted, Holds, IsSorted-valid, IsSorted-apart}

module _ {A : Type 0} (cmp : A → A → Comparison) (node : A → Node) where
  -- The array is what its counters say, and its ranges are sorted.
  pub record IsValid (s : SortedArray A) : Type 0 where
    pub counted : s.count ≡ length s.array
    pub room : s.count ≤ s.len
    pub allocated : 0 < s.len
    pub sorted : IsSorted node s.array

  -- The elements that `count` says are there.
  abbrev pub in_use : SortedArray A → List A
  in_use s = take s.count s.array

  -- Every range of the list ends before the element, and does not touch it.
  abbrev pub AllBefore : List A → A → Type 0
  AllBefore xs e = (i : ℕ) (x : A) → get_elem? xs i ≡ some x → (node x).max + 1 < (node e).min

  All-of_get :
      (P : A → Type 0) (xs : List A) → ((i : ℕ) (x : A) → get_elem? xs i ≡ some x → P x) → All P xs
  All-of_get P [] h = tt
  All-of_get P (x ∷ xs) h = (h 0 x refl, All-of_get P xs (λ i y p. h (suc i) y p))

  All-snoc : (P : A → Type 0) (xs : List A) (e : A) → All P xs → P e → All P (xs ++ e ∷ [])
  All-snoc P [] e h p = (p, tt)
  All-snoc P (x ∷ xs) e h p = (h.0, All-snoc P xs e h.1 p)

  IsSorted-snoc :
      (xs : List A) (e : A)
      → IsSorted node xs
      → AllBefore xs e
      → (node e).min ≤ (node e).max
      → IsSorted node (xs ++ e ∷ [])
  IsSorted-snoc [] e s b v = (v, tt, tt)
  IsSorted-snoc (x ∷ xs) e s b v = (
    s.0,
    All-snoc (λ y. (node x).max + 1 < (node y).min) xs e s.1 (b 0 x refl),
    IsSorted-snoc xs e s.2 (λ i y p. b (suc i) y p) v,
  )

  -- The last range decides for all of them.
  AllBefore-of_last :
      (xs : List A) (e last : A) (k : ℕ)
      → IsSorted node xs
      → suc k ≡ length xs
      → get_elem? xs k ≡ some last
      → (node last).max + 1 < (node e).min
      → AllBefore xs e
  AllBefore-of_last xs e last k s n p h i x q = elim (ℕ_discrete i k) [
    | yes same ↦ let e' : some x ≡ some last = rw (← q, same) p in ground arith
    | no other ↦ omega (
      arith,
      get_elem?-lt xs i {x = x} q,
      IsSorted-apart node xs i k {x = x} {y = last} s (omega (arith, get_elem?-lt xs i {x = x} q)) q
          p,
      IsSorted-valid node xs k {x = last} s p,
    )
  ]

  Holds-snoc-inl : (xs : List A) (e : A) (a : ℕ) → Holds node xs a → Holds node (xs ++ e ∷ []) a
  Holds-snoc-inl [] e a (i, x, p, h) = absurd (ground arith)
  Holds-snoc-inl (y ∷ xs) e a (zero, x, p, h) = (0, x, p, h)
  Holds-snoc-inl (y ∷ xs) e a (suc i, x, p, h) =
      let (j, z, q, g) = Holds-snoc-inl xs e a (i, x, p, h) in (suc j, z, q, g)

  Holds-snoc-inr : (xs : List A) (e : A) (a : ℕ) → InNode a (node e) → Holds node (xs ++ e ∷ []) a
  Holds-snoc-inr [] e a h = (0, e, refl, h)
  Holds-snoc-inr (y ∷ xs) e a h = let (j, z, q, g) = Holds-snoc-inr xs e a h in (suc j, z, q, g)

  Holds-snoc-cases :
      (xs : List A) (e : A) (a : ℕ)
      → Holds node (xs ++ e ∷ []) a
      → Holds node xs a ⊎ InNode a (node e)
  Holds-snoc-cases [] e a (zero, x, p, h) = inr (ground arith)
  Holds-snoc-cases [] e a (suc i, x, p, h) = absurd (ground arith)
  Holds-snoc-cases (y ∷ xs) e a (zero, x, p, h) = inl (0, x, p, h)
  Holds-snoc-cases (y ∷ xs) e a (suc i, x, p, h) = elim (Holds-snoc-cases xs e a (i, x, p, h)) [
    | inl (j, z, q, g) ↦ inl (suc j, z, q, g)
    | inr g ↦ inr g
  ]

  -- Only a range beyond the last one, which it does not touch, is no error.
  comparison_error-ok :
      (c : Comparison) (a b : Node)
      → Verdict c a b
      → a.min ≤ a.max
      → b.min ≤ b.max
      → (comparison_error c ≡ ok tt) ↔ (a.max + 1 < b.min)
  unfolding comparison_error
  comparison_error-ok right a b d va vb = (λ _. d, λ _. refl)
  comparison_error-ok equal a b d va vb = (λ h. cc, λ h. absurd (omega arith))
  comparison_error-ok child a b d va vb = (λ h. cc, λ h. absurd (omega arith))
  comparison_error-ok parent a b d va vb = (λ h. cc, λ h. absurd (omega arith))
  comparison_error-ok left a b d va vb = (λ h. cc, λ h. absurd (omega arith))
  comparison_error-ok adjacent_left a b d va vb = (λ h. cc, λ h. absurd (omega arith))
  comparison_error-ok adjacent_right a b d va vb = (λ h. cc, λ h. absurd (omega arith))
  comparison_error-ok intersection a b d va vb = (λ h. cc, λ h. absurd (omega arith))

  put_nth_element_end :
      (s : SortedArray A) (e : A)
      → s.count ≡ length s.array
      → put_nth_element s.array s.count e ≡ s.array ++ e ∷ []
  unfolding put_nth_element
  put_nth_element_end s e n =
      rw (n, take-length s.array, drop-length (length s.array + 1) s.array (omega arith))

  module _ (laws : IsRangeCmp cmp node) where
    -- compare() lets through exactly the elements that lie right of the array.
    pub compare_last-iff-AllBefore :
        (s : SortedArray A) (e : A)
        → IsValid s
        → (node e).min ≤ (node e).max
        → (compare_last cmp s e ≡ ok tt) ↔ AllBefore s.array e
    unfolding compare_last get_nth_element
    compare_last-iff-AllBefore s e v ve = elim (Bool-cases (s.count == 0)) [
      | inl z ↦ rw z (
        (λ _ i x p. absurd (ground (arith, v.counted, get_elem?-lt s.array i {x = x} p))),
        λ _. refl,
      )
      | inr nz ↦
          let k = s.count - 1 in
          let n : suc k ≡ length s.array = ground (arith, v.counted) in
          let (x, p) = get_elem?-of_lt s.array k (omega arith) in
          let c =
            comparison_error-ok (cmp x e) (node x) (node e) (laws.verdict x e)
              (IsSorted-valid node s.array k {x = x} v.sorted p) ve in
          rw nz (
            rw (p, compare_last)
              ((λ h. AllBefore-of_last s.array e x k v.sorted n p (c.0 h)), λ h. c.1 (h k x p)))
    ]

    -- While memory lasts, an addition to a valid array succeeds exactly if every range of the array
    -- ends before the new one, which is not inverted, and does not touch it.
    pub sarray_add-ok_iff :
        (s : SortedArray A) (e : A)
        → IsValid s
        → (node e).min ≤ (node e).max
        → ((sarray_add cmp true s e).0 ≡ ok tt) ↔ AllBefore s.array e
    unfolding sarray_add sarray_grow sarray_append
    sarray_add-ok_iff s e v ve =
        let c = compare_last-iff-AllBefore s e v ve in
        ((λ h. c.0 (ground arith)), λ b. let h = c.1 b in ground arith)

    array-sarray_add :
        (alloc : Bool) (s : SortedArray A) (e : A)
        → IsValid s
        → (sarray_add cmp alloc s e).0 ≡ ok tt
        → (sarray_add cmp alloc s e).1.array ≡ s.array ++ e ∷ []
    unfolding sarray_add sarray_grow sarray_append
    array-sarray_add alloc s e v h = ground (arith, put_nth_element_end s e v.counted)

    count-sarray_add :
        (alloc : Bool) (s : SortedArray A) (e : A)
        → (sarray_add cmp alloc s e).0 ≡ ok tt
        → (sarray_add cmp alloc s e).1.count ≡ (s.count + 1) % 2 ^ 32
    unfolding sarray_add sarray_grow sarray_append
    count-sarray_add alloc s e h = ground arith

    in_use-sarray_add :
        (alloc : Bool) (s : SortedArray A) (e : A)
        → IsValid s
        → s.count < 2 ^ 32 - 1
        → (sarray_add cmp alloc s e).0 ≡ ok tt
        → in_use (sarray_add cmp alloc s e).1 ≡ s.array ++ e ∷ []
    in_use-sarray_add alloc s e v b h =
        let grown = array-sarray_add alloc s e v h in
        let counted : (sarray_add cmp alloc s e).1.count ≡ length (s.array ++ e ∷ []) =
          count-sarray_add alloc s e h ∙ omega (arith, length-append s.array (e ∷ []), v.counted) in
        rw (counted, grown, take-length (s.array ++ e ∷ [])) refl

    -- An addition to a valid array of less than 2 ^ 31 elements and less than 2 ^ 32 slots,
    -- whether it succeeds or not, leaves a valid array: counted, within its slots, and sorted.
    -- The new range is not inverted.
    pub sarray_add-IsValid :
        (alloc : Bool) (s : SortedArray A) (e : A)
        → IsValid s
        → (node e).min ≤ (node e).max
        → s.count < 2 ^ 31
        → s.len < 2 ^ 32
        → IsValid (sarray_add cmp alloc s e).1
    unfolding sarray_add sarray_grow sarray_append
    sarray_add-IsValid alloc s e v ve hc hl = ground (
      arith,
      put_nth_element_end s e v.counted,
      length-append s.array (e ∷ []),
      compare_last-iff-AllBefore s e v ve,
      IsSorted-snoc s.array e v.sorted,
    )

    pub Holds-sarray_add :
        (alloc : Bool) (s : SortedArray A) (e : A) (a : ℕ)
        → IsValid s
        → (sarray_add cmp alloc s e).0 ≡ ok tt
        → Holds node (sarray_add cmp alloc s e).1.array a
          ↔ (Holds node s.array a ⊎ InNode a (node e))
    Holds-sarray_add alloc s e a v h = rw (array-sarray_add alloc s e v h) (
      Holds-snoc-cases s.array e a,
      λ o. elim o [
        | inl old ↦ Holds-snoc-inl s.array e a old
        | inr new ↦ Holds-snoc-inr s.array e a new
      ],
    )

    -- After an addition that succeeds, to less than 2 ^ 32 - 1 elements, the elements in use hold the
    -- numbers that they held and those of the new range, and no others.
    pub sarray_add-Holds :
        (alloc : Bool) (s : SortedArray A) (e : A) (a : ℕ)
        → IsValid s
        → s.count < 2 ^ 32 - 1
        → (sarray_add cmp alloc s e).0 ≡ ok tt
        → Holds node (in_use (sarray_add cmp alloc s e).1) a
          ↔ (Holds node (in_use s) a ⊎ InNode a (node e))
    sarray_add-Holds alloc s e a v b h =
        let before : in_use s ≡ s.array = rw (v.counted, take-length s.array) refl in
        let after = in_use-sarray_add alloc s e v b h ∙ sym (array-sarray_add alloc s e v h) in
        rw (after, before) (Holds-sarray_add alloc s e a v h)

    -- An addition that fails leaves the array as it was.
    pub sarray_add_error :
        (alloc : Bool) (s : SortedArray A) (e : A)
        → (sarray_add cmp alloc s e).0 ≢ ok tt
        → (sarray_add cmp alloc s e).1 ≡ s
    unfolding sarray_add sarray_grow sarray_append compare_last
    sarray_add_error alloc s e h = ground arith
