-- ===== src/Resource/Asn/Foreach.antt =====
-- rasn_foreach() of asn.c visits the AS numbers of the array one by one.
use fort_validator.Base.{
  ℕ, zero, suc, ◌+◌, ◌-◌, ◌^◌, ◌%◌, ◌≤◌, ◌<◌, ◌≡◌, refl, ◌∙◌, ap, sym, List, [], ◌∷◌, ◌++◌, arith,
  leb, ◌==◌, length, take-length, All, Bool-cases, inl, inr,
}
use fort_validator.Base.Results.{Result, and_then, walk, walk-append}
use mathlib.Core.Path.{fun_ext}
use fort_validator.SortedArray.{SortedArray, sarray_foreach}
use fort_validator.Range.{Node}
use fort_validator.Resource.Asn.{ulong_max, asn_loop, asn_node_cb, rasn_foreach}

-- `n` numbers from `i` on.
abbrev pub count_up : ℕ → ℕ → List ℕ
count_up i zero = []
count_up i (suc n) = i ∷ count_up (i + 1) n

-- The numbers of the ranges, in order.
abbrev pub numbers : List Node → List ℕ
numbers [] = []
numbers (x ∷ xs) = count_up x.min (x.max + 1 - x.min) ++ numbers xs

module _ {S : Type 0} (cb : ℕ → S → Result (Unit {0}) × S) where
  asn_loop-eq-walk :
      (fuel max index : ℕ) (s : S)
      → max ≤ ulong_max
      → index ≤ max + 1
      → max + 1 < fuel + index
      → asn_loop cb fuel max index s ≡ walk cb (count_up index (max + 1 - index)) s
  unfolding asn_loop walk
  asn_loop-eq-walk zero max index s m le h = absurd (omega arith)
  asn_loop-eq-walk (suc fuel) max index s m le h = elim (Bool-cases (leb index max)) [
    | inr past ↦ let e : max + 1 - index ≡ 0 = ground arith in rw (e, past, asn_loop) refl
    | inl more ↦
        let e : max + 1 - index ≡ suc (max + 1 - (index + 1)) = ground arith in
        rw (e, more, asn_loop)
          (ap (and_then (cb index s)) (
            fun_ext (λ s'. elim (Bool-cases (index == ulong_max)) [
              | inl last ↦ let e' : max + 1 - (index + 1) ≡ 0 = ground arith in rw (e', last) refl
              | inr not_last ↦
                  let small : index < ulong_max = ground arith in
                  let next : (index + 1) % 2 ^ 64 ≡ index + 1 = omega (arith, small) in
                  rw (not_last, next)
                    (asn_loop-eq-walk fuel max (index + 1) s' m (ground arith) (omega arith))
            ])))
  ]

  -- The ranges are not inverted and fit an unsigned long.
  abbrev AreRanges : List Node → Type 0
  AreRanges = All (λ (n : Node). (n.min ≤ n.max) × (n.max ≤ ulong_max))

  walk-eq-numbers :
      (xs : List Node) (s : S) → AreRanges xs → walk (asn_node_cb cb) xs s ≡ walk cb (numbers xs) s
  unfolding walk asn_node_cb
  walk-eq-numbers [] s h = refl
  walk-eq-numbers (x ∷ xs) s h =
      ap (and_then (asn_node_cb cb x s)) (fun_ext (λ s'. walk-eq-numbers xs s' h.1))
      ∙ ap (λ m. and_then m (walk cb (numbers xs)))
          (asn_loop-eq-walk (x.max - x.min + 2) x.max x.min s h.0.1 (omega arith) (omega arith))
      ∙ sym (walk-append cb (count_up x.min (x.max + 1 - x.min)) (numbers xs) s)

  -- On a counted array whose ranges are not inverted and fit an unsigned long, the callback is
  -- called with every number of the array in order, until it returns an error; the walk ends, also
  -- where the last number is ULONG_MAX, after which the index wraps around to 0.
  pub rasn_foreach-eq-numbers :
      (asns : SortedArray Node) (s : S)
      → asns.count ≡ length asns.array
      → AreRanges asns.array
      → rasn_foreach cb asns s ≡ walk cb (numbers asns.array) s
  unfolding rasn_foreach sarray_foreach
  rasn_foreach-eq-numbers asns s n h =
      rw (n, take-length asns.array) (walk-eq-numbers asns.array s h)
