-- ===== src/Tests/Tables.antt =====
-- A table with the documented behaviour of uthash.h: a list, of which only the first of equal
-- elements counts.
use fort_validator.Base.{
  ◌≡◌, refl, ap, Bool, true, false, some, List, [], ◌∷◌, if◌then◌else◌, arith, Bool-cases, inl, inr,
}
use fort_validator.Rtr.Keys.{Eq, HashTable, bit, count, ◌=?◌}

module _ {K : Type 0} ⦃e : Eq K⦄ where
  unfoldable pub find_in : List K → K → Bool
  find_in [] k = false
  find_in (x ∷ xs) k = if x =? k then true else find_in xs k

  unfoldable pub items_of : List K → List K
  unfolding find_in
  items_of [] = []
  items_of (x ∷ xs) = if find_in xs x then items_of xs else x ∷ items_of xs

  unfoldable pub delete_from : List K → K → List K
  delete_from [] k = []
  delete_from (x ∷ xs) k = if x =? k then delete_from xs k else x ∷ delete_from xs k

  pub items_of-empty : items_of [] ≡ []
  unfolding items_of
  items_of-empty = refl

  find_in-of_eq : (xs : List K) (x k : K) → (x =? k) ≡ true → find_in xs x ≡ find_in xs k
  find_in-of_eq xs x k h = ap (find_in xs) ((e.beq_iff x k).0 h)

  pub count-items_of : (xs : List K) (k : K) → count k (items_of xs) ≡ bit (find_in xs k)
  unfolding items_of find_in
  count-items_of [] k = refl
  count-items_of (x ∷ xs) k = elim (Bool-cases (x =? k)) [
    | inl y ↦ ground (arith, count-items_of xs k, find_in-of_eq xs x k y)
    | inr n ↦ ground (arith, count-items_of xs k)
  ]

  count-items_of-cons :
      (t : List K) (k j : K)
      → count j (items_of (k ∷ t)) ≡ (if k =? j then 1 else count j (items_of t))
  unfolding find_in
  count-items_of-cons t k j = ground (arith, count-items_of (k ∷ t) j, count-items_of t j)

  pub find_in-delete :
      (t : List K) (k j : K) → find_in (delete_from t k) j ≡ (if k =? j then false else find_in t j)
  unfolding find_in delete_from
  find_in-delete [] k j = ground arith
  find_in-delete (x ∷ t) k j = elim (Bool-cases (x =? k)) [
    | inl y ↦
        let same : (x =? j) ≡ (k =? j) = ap (λ c. c =? j) ((e.beq_iff x k).0 y) in
        ground (arith, find_in-delete t k j)
    | inr n ↦ elim (Bool-cases (k =? j)) [
      | inr far ↦ ground (arith, find_in-delete t k j)
      | inl near ↦
          let same : (x =? k) ≡ (x =? j) = ap (λ c. x =? c) ((e.beq_iff k j).0 near) in
          ground (arith, find_in-delete t k j)
    ]
  ]

  pub replaced :
      (t : List K) (k j : K) {t' : List K}
      → some (k ∷ t) ≡ some t'
      → count j (items_of t') ≡ (if k =? j then 1 else count j (items_of t))
  replaced t k j {t'} h =
      let same : k ∷ t ≡ t' = ground arith in rw (← same) (count-items_of-cons t k j)

  pub deleted :
      (t : List K) (k j : K)
      → count j (items_of (delete_from t k)) ≡ (if k =? j then 0 else count j (items_of t))
  deleted t k j =
      ground (arith, count-items_of (delete_from t k) j, count-items_of t j, find_in-delete t k j)

  abbrev pub list_table : HashTable K
  list_table = record {
    Table = List K;
    empty = [];
    items = items_of;
    find = find_in;
    replace = λ t k. some (k ∷ t);
    delete = delete_from;
    items-empty = items_of-empty;
    count-items = count-items_of;
    count-replace = replaced;
    count-delete = deleted;
  }
