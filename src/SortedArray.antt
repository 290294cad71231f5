-- ===== src/SortedArray.antt =====
-- sorted_array.c: an array of RFC 3779 resources that only grows at its tail. `A` is the element
-- type and `cmp` the comparison callback.
use fort_validator.Base.{
  ℕ, zero, suc, ◌+◌, ◌-◌, ◌*◌, ◌/◌, ◌%◌, ◌^◌, Bool, true, false, Option, none, some, List, [], ◌∷◌,
  ◌++◌, leb, ◌==◌, if◌then◌else◌, get_elem?, take, drop,
}
use fort_validator.Base.Results.{
  enomem, eequal, echild2, eparent, eleft, eadjleft, eadjright, eintersection, Result, ok, err,
  crit, walk,
}

-- enum sarray_comparison; `right` says that the second element lies to the right of the first.
pub data Comparison : Type 0 where
  equal child parent left right adjacent_left adjacent_right intersection : Comparison

-- struct sorted_array, without the element size and the callback. `array` is what has been written
-- to the slots, `count` the elements in use and `len` the slots allocated.
pub record SortedArray {ℓ} (A : Type ℓ) : Type ℓ where
  pub array : List A
  pub count : ℕ
  pub len : ℕ
  pub refcount : ℕ

abbrev pub uint : ℕ → ℕ
uint n = n % 2 ^ 32

-- The argument says whether malloc() and calloc() succeed.
unfoldable pub sarray_create {ℓ} : (A : Type ℓ) → Bool → Option (SortedArray A)
sarray_create A true = some (record { array = []; count = 0; len = 8; refcount = 1 })
sarray_create A false = none

module _ {ℓ} {A : Type ℓ} where
  unfoldable pub sarray_get : SortedArray A → SortedArray A
  sarray_get s = record s { refcount = uint (s.refcount + 1) }

  -- `none` is the array freed.
  unfoldable pub sarray_put : SortedArray A → Option (SortedArray A)
  sarray_put s =
      let left = uint (s.refcount + 2 ^ 32 - 1) in
      if left == 0 then none else some (record s { refcount = left })

  -- A read outside what has been written is `none`.
  unfoldable pub get_nth_element : SortedArray A → ℕ → Option A
  get_nth_element s index = get_elem? s.array index

  -- memcpy() of an element to a slot.
  unfoldable pub put_nth_element : List A → ℕ → A → List A
  put_nth_element array index element = take index array ++ element ∷ drop (index + 1) array

  unfoldable pub sarray_empty : Option (SortedArray A) → Bool
  sarray_empty none = true
  sarray_empty (some s) = s.count == 0

  -- The callback works on its argument, `S`, and returns 0 or an error that ends the walk.
  unfoldable pub sarray_foreach {κ} :
      {S : Type κ} → SortedArray A → (A → S → Result (Unit {0}) × S) → S → Result (Unit {0}) × S
  sarray_foreach arr cb s = walk cb (take arr.count arr.array) s

-- The error of a comparison between the last element and a new one.
unfoldable pub comparison_error : Comparison → Result (Unit {0})
comparison_error equal = err eequal
comparison_error child = err echild2
comparison_error parent = err eparent
comparison_error left = err eleft
comparison_error right = ok tt
comparison_error adjacent_left = err eadjleft
comparison_error adjacent_right = err eadjright
comparison_error intersection = err eintersection

module _ {ℓ} {A : Type ℓ} (cmp : A → A → Comparison) where
  -- compare(): may the new element be added? A read out of range would be `crit`.
  unfoldable pub compare_last : SortedArray A → A → Result (Unit {0})
  unfolding get_nth_element comparison_error
  compare_last s new = if s.count == 0 then ok tt else (elim (get_nth_element s (s.count - 1)) [
    | none ↦ crit
    | some last ↦ comparison_error (cmp last new)
  ])

  -- The growth of the array; the Boolean says whether realloc() succeeds.
  unfoldable pub sarray_grow : Bool → SortedArray A → Result (SortedArray A)
  sarray_grow alloc s =
      if leb s.len s.count
      then (if alloc then ok (record s { len = uint (s.len * 2) }) else err enomem)
      else ok s

  unfoldable pub sarray_append : SortedArray A → A → SortedArray A
  unfolding put_nth_element
  sarray_append s element = record s {
    array = put_nth_element s.array s.count element;
    count = uint (s.count + 1);
  }

  -- The result and the array afterwards.
  unfoldable pub sarray_add : Bool → SortedArray A → A → Result (Unit {0}) × SortedArray A
  unfolding compare_last sarray_grow sarray_append
  sarray_add alloc s element = elim (compare_last s element) [
    | ok _ ↦ elim (sarray_grow alloc s) [
      | ok s' ↦ (ok tt, sarray_append s' element)
      | err e ↦ (err e, s)
      | crit ↦ (crit, s)
    ]
    | err e ↦ (err e, s)
    | crit ↦ (crit, s)
  ]

  -- The binary search on [left, right], with fuel. `none` is fuel that ran out, or a read out of
  -- range.
  unfoldable pub contains_loop : ℕ → SortedArray A → A → ℕ → ℕ → Option Bool
  unfolding get_nth_element
  contains_loop zero s elem l r = none
  contains_loop (suc fuel) s elem l r = elim (leb l r) [
    | false ↦ some false
    | true ↦
        let mid = l + (r - l) / 2 in
        let go_left : Option Bool = elim (mid == 0) [
          | true ↦ some false
          | false ↦ contains_loop fuel s elem l (mid - 1)
        ] in
        let go_right : Option Bool = elim (mid == s.count - 1) [
          | true ↦ some false
          | false ↦ contains_loop fuel s elem (mid + 1) r
        ] in
        elim (get_nth_element s mid) [
          | none ↦ none
          | some x ↦ elim (cmp x elem) [
            | left ↦ go_left
            | adjacent_left ↦ go_left
            | right ↦ go_right
            | adjacent_right ↦ go_right
            | equal ↦ some true
            | child ↦ some true
            | parent ↦ some false
            | intersection ↦ some false
          ]
        ]
  ]

  -- `none` in place of the array is the null pointer.
  unfoldable pub sarray_contains : Option (SortedArray A) → A → Option Bool
  unfolding contains_loop
  sarray_contains none elem = some false
  sarray_contains (some s) elem =
      if s.count == 0 then some false else contains_loop (s.count + 1) s elem 0 (s.count - 1)
