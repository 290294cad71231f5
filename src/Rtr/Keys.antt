-- ===== src/Rtr/Keys.antt =====
-- What the database needs of the elements that it stores: a test for equality, how often an
-- element stands in a list, and the hash tables of uthash.h, of which only the documented
-- behaviour is used.
use fort_validator.Base.{
  ℕ, ◌+◌, ◌≡◌, ◌↔◌, refl, Bool, true, Option, some, List, [], ◌∷◌, ◌++◌, if◌then◌else◌, arith,
}

pub record Eq (K : Type 0) : Type 0 where
  pub beq : K → K → Bool
  pub beq_iff : (a b : K) → (beq a b ≡ true) ↔ (a ≡ b)

-- 1 where the test holds.
abbrev pub bit : Bool → ℕ
bit b = if b then 1 else 0

module _ {K : Type 0} ⦃e : Eq K⦄ where
  infix 50 ◌=?◌
  abbrev pub ◌=?◌ : K → K → Bool
  a =? b = e.beq a b

  pub =?-refl : (a : K) → (a =? a) ≡ true
  =?-refl a = (e.beq_iff a a).1 refl

  abbrev pub count : K → List K → ℕ
  count k [] = 0
  count k (x ∷ xs) = bit (x =? k) + count k xs

  pub count-append : (k : K) (xs ys : List K) → count k (xs ++ ys) ≡ count k xs + count k ys
  count-append k [] ys = omega arith
  count-append k (x ∷ xs) ys = omega (arith, count-append k xs ys)

-- A uthash table of elements that are their own keys. `items` is the order of HASH_ITER, `find`
-- is HASH_FIND, `replace` is HASH_REPLACE, where `none` is ENOMEM, the one errno that
-- uthash_nonfatal.h sets, `delete` is
-- HASH_FIND followed by HASH_DELETE.
pub record HashTable (K : Type 0) ⦃e : Eq K⦄ : Type 1 where
  pub Table : Type 0
  pub empty : Table
  pub items : Table → List K
  pub find : Table → K → Bool
  pub replace : Table → K → Option Table
  pub delete : Table → K → Table
  pub items-empty : items empty ≡ []
  pub count-items : (t : Table) (k : K) → count k (items t) ≡ bit (find t k)
  pub count-replace :
      (t : Table) (k j : K) {t' : Table}
      → replace t k ≡ some t'
      → count j (items t') ≡ (if k =? j then 1 else count j (items t))
  pub count-delete :
      (t : Table) (k j : K)
      → count j (items (delete t k)) ≡ (if k =? j then 0 else count j (items t))
