-- ===== src/Range/Search.antt =====
-- The binary search of sorted_array.c answers whether one of the ranges covers the element.
use fort_validator.Base.{
  ℕ, zero, suc, ◌+◌, ◌-◌, ◌/◌, ◌≤◌, ◌<◌, ◌≡◌, ◌↔◌, refl, ◌⊎◌, inl, inr, Bool, true, false, Option,
  some, List, arith, leb, ◌==◌, length, get_elem?, get_elem?-of_lt, get_elem?-lt, Bool-cases,
}
use native.Mathlib.Decide.{dec_lt, ℕ_discrete}
use fort_validator.SortedArray.{
  SortedArray, Comparison, equal, child, parent, left, right, adjacent_left, adjacent_right,
  intersection, contains_loop, sarray_contains,
}
use fort_validator.Range.{Node, InNode}
use fort_validator.Range.Order.{Covers, Verdict, IsRangeCmp}
use fort_validator.Range.Cover.{
  IsSorted, CoveredBy, NoneCovers, IsSorted-valid, IsSorted-apart, Holds, NoneCovers-witness,
}

module _ {A : Type 0} (cmp : A → A → Comparison) (node : A → Node) where
  -- The answer of the search, with its reason.
  abbrev pub Answer : List A → Node → Option Bool → Type 0
  Answer xs e r =
      ((r ≡ some true) × CoveredBy node xs e) ⊎ ((r ≡ some false) × NoneCovers node xs e)

  -- What the search knows of the places outside [l, r].
  record Outside (xs : List A) (e : Node) (l r : ℕ) : Type 0 where
    before : (i : ℕ) (x : A) → get_elem? xs i ≡ some x → i < l → ¬ (Covers (node x) e)
    after : (i : ℕ) (x : A) → get_elem? xs i ≡ some x → r < i → ¬ (Covers (node x) e)

  -- A range that meets the element, if it does not cover it, rules out all others.
  only :
      (xs : List A) (e : Node) (m : ℕ) (x : A)
      → IsSorted node xs
      → get_elem? xs m ≡ some x
      → (node x).min ≤ e.max
      → e.min ≤ (node x).max
      → ¬ (Covers (node x) e)
      → NoneCovers node xs e
  only xs e m x s p lo hi n i y q c = elim (dec_lt i m) [
    | yes h ↦ absurd (omega (arith, IsSorted-apart node xs i m {x = y} {y = x} s h q p))
    | no h ↦ elim (dec_lt m i) [
      | yes h' ↦ absurd (omega (arith, IsSorted-apart node xs m i {x = x} {y = y} s h' p q))
      | no h' ↦
          let same : m ≡ i = omega arith in
          let e' : some x ≡ some y = rw (← p, same) q in absurd (n (ground arith))
    ]
  ]

  abbrev outcome : Comparison → Option Bool → Option Bool → Option Bool
  outcome c go_left go_right = elim c [
    | left ↦ go_left
    | adjacent_left ↦ go_left
    | right ↦ go_right
    | adjacent_right ↦ go_right
    | equal ↦ some true
    | child ↦ some true
    | parent ↦ some false
    | intersection ↦ some false
  ]

  -- One round, given what the two ways on would answer.
  round :
      (xs : List A) (e : Node) (m : ℕ) (x : A) (c : Comparison) (go_left go_right : Option Bool)
      → IsSorted node xs
      → e.min ≤ e.max
      → get_elem? xs m ≡ some x
      → Verdict c (node x) e
      → (e.max < (node x).min → Answer xs e go_left)
      → ((node x).max < e.min → Answer xs e go_right)
      → Answer xs e (outcome c go_left go_right)
  round xs e m x equal gl gr s v p d hl hr = inl (refl, (m, x, p, (omega arith, omega arith)))
  round xs e m x child gl gr s v p d hl hr = inl (refl, (m, x, p, d))
  round xs e m x parent gl gr s v p d hl hr =
      let w = IsSorted-valid node xs m {x = x} s p in
      inr (refl, only xs e m x s p (omega arith) (omega arith) d.1)
  round xs e m x left gl gr s v p d hl hr = hl (omega arith)
  round xs e m x right gl gr s v p d hl hr = hr (omega arith)
  round xs e m x adjacent_left gl gr s v p d hl hr = hl (omega arith)
  round xs e m x adjacent_right gl gr s v p d hl hr = hr (omega arith)
  round xs e m x intersection gl gr s v p d hl hr = inr (refl, only xs e m x s p d.0 d.1 d.2)

  -- Past a range that lies right of the element nothing covers it; likewise before one on its left.
  none_after :
      (xs : List A) (e : Node) (m : ℕ) (x : A)
      → IsSorted node xs
      → e.min ≤ e.max
      → get_elem? xs m ≡ some x
      → e.max < (node x).min
      → (i : ℕ) (y : A) → get_elem? xs i ≡ some y
      → m ≤ i
      → ¬ (Covers (node y) e)
  none_after xs e m x s v p h i y q le c = elim (ℕ_discrete m i) [
    | yes same ↦ let e' : some x ≡ some y = rw (← p, same) q in absurd (ground arith)
    | no h' ↦ absurd (
        omega (
          arith,
          IsSorted-apart node xs m i {x = x} {y = y} s (omega arith) p q,
          IsSorted-valid node xs m {x = x} s p,
        ))
  ]

  none_before :
      (xs : List A) (e : Node) (m : ℕ) (x : A)
      → IsSorted node xs
      → e.min ≤ e.max
      → get_elem? xs m ≡ some x
      → (node x).max < e.min
      → (i : ℕ) (y : A) → get_elem? xs i ≡ some y
      → i ≤ m
      → ¬ (Covers (node y) e)
  none_before xs e m x s v p h i y q le c = elim (ℕ_discrete m i) [
    | yes same ↦ let e' : some x ≡ some y = rw (← p, same) q in absurd (ground arith)
    | no h' ↦ absurd (
        omega (
          arith,
          IsSorted-apart node xs i m {x = y} {y = x} s (omega arith) q p,
          IsSorted-valid node xs m {x = x} s p,
        ))
  ]

  -- A way on is taken unless the end of the array is reached.
  turn :
      (xs : List A) (e : Node) (at_end : Bool) (rest : Option Bool)
      → (at_end ≡ true → NoneCovers node xs e)
      → (at_end ≡ false → Answer xs e rest)
      → Answer xs e (elim at_end [ true ↦ some false | false ↦ rest ])
  turn xs e true rest stop next = inr (refl, stop refl)
  turn xs e false rest stop next = next refl

  module _ (laws : IsRangeCmp cmp node) where
    contains_loop_lem :
        (fuel : ℕ) (s : SortedArray A) (elem : A) (l r : ℕ)
        → s.count ≡ length s.array
        → IsSorted node s.array
        → (node elem).min ≤ (node elem).max
        → r < s.count
        → l ≤ r + 1
        → r + 1 < fuel + l
        → Outside s.array (node elem) l r
        → Answer s.array (node elem) (contains_loop cmp fuel s elem l r)
    unfolding contains_loop
    contains_loop_lem zero s elem l r n srt v rc lr f o = absurd (omega arith)
    contains_loop_lem (suc fuel) s elem l r n srt v rc lr f o = elim (Bool-cases (leb l r)) [
      | inr gt ↦
          rw (gt, contains_loop)
            (inr (
              refl,
              λ i x p. elim (dec_lt i l) [
                | yes h ↦ o.before i x p h
                | no h ↦ o.after i x p (ground arith)
              ],
            ))
      | inl le ↦
          let le' : l ≤ r = ground arith in
          let m = l + (r - l) / 2 in
          let (x, p) = get_elem?-of_lt s.array m (omega arith) in
          rw (le, contains_loop)
            (rw (p, contains_loop)
              (round s.array (node elem) m x (cmp x elem) _ _ srt v p (laws.verdict x elem)
                (λ h.
                  turn s.array (node elem) (m == 0) _
                    (λ z i y q. none_after s.array (node elem) m x srt v p h i y q (ground arith))
                    (λ nz.
                      contains_loop_lem fuel s elem l (m - 1) n srt v (omega arith) (ground arith)
                        (ground arith)
                        (record {
                          before = o.before;
                          after = λ i y q k.
                              none_after s.array (node elem) m x srt v p h i y q (ground arith);
                        })))
                (λ h.
                  turn s.array (node elem) (m == s.count - 1) _
                    (λ z i y q.
                      none_before s.array (node elem) m x srt v p h i y q
                        (ground (arith, get_elem?-lt s.array i {x = y} q)))
                    (λ nz.
                      contains_loop_lem fuel s elem (m + 1) r n srt v rc (omega arith) (omega arith)
                        (record {
                          before = λ i y q k.
                              none_before s.array (node elem) m x srt v p h i y q (omega arith);
                          after = o.after;
                        })))))
    ]

    -- The search of a sorted array ends within its fuel, without a read out of range, and says
    -- whether some range covers the element.
    pub sarray_contains-Answer :
        (s : SortedArray A) (elem : A)
        → s.count ≡ length s.array
        → IsSorted node s.array
        → (node elem).min ≤ (node elem).max
        → Answer s.array (node elem) (sarray_contains cmp (some s) elem)
    unfolding sarray_contains
    sarray_contains-Answer s elem n srt v = elim (Bool-cases (s.count == 0)) [
      | inl z ↦
          rw z (inr (refl, λ i x p c. absurd (ground (arith, get_elem?-lt s.array i {x = x} p))))
      | inr nz ↦ rw nz (
          contains_loop_lem (s.count + 1) s elem 0 (s.count - 1) n srt v (ground arith)
            (ground arith) (ground arith)
            (record {
              before = λ i x p h. absurd (omega arith);
              after = λ i x p h c. absurd (ground (arith, get_elem?-lt s.array i {x = x} p));
            }))
    ]

    -- The search of an array that is sorted and counted always answers. The answer is `true`
    -- exactly when the array holds every number of the element's range, which is not inverted.
    pub sarray_contains-iff-Holds :
        (s : SortedArray A) (elem : A)
        → s.count ≡ length s.array
        → IsSorted node s.array
        → (node elem).min ≤ (node elem).max
        → (b : Bool) × (sarray_contains cmp (some s) elem ≡ some b)
          × ((b ≡ true) ↔ ((a : ℕ) → InNode a (node elem) → Holds node s.array a))
    sarray_contains-iff-Holds s elem n srt v = elim (sarray_contains-Answer s elem n srt v) [
      | inl (e, (i, x, p, c)) ↦
          (true, e, ((λ _ a h. (i, x, p, (omega arith, omega arith))), λ _. refl))
      | inr (e, gaps) ↦ (
        false,
        e,
        (
          (λ f. cc),
          λ all.
              let (a, h, gap) = NoneCovers-witness node s.array (node elem) srt v gaps in
              absurd (gap (all a h)),
        ),
      )
    ]
