-- ===== src/Rtr/ArrayList.antt =====
-- data_structure/array_list.h: the growing arrays of the RTR database.
pub mod Room
use fort_validator.Base.{
  ◌%◌, ◌^◌, ℕ, zero, suc, ◌+◌, ◌*◌, ◌<◌, ◌≡◌, ◌≢◌, refl, true, false, List, [], ◌∷◌, ◌++◌, arith,
  leb, ◌==◌, if◌then◌else◌, length, Bool-cases, inl, inr,
}
use fort_validator.Base.Results.{ok, crit}
use fort_validator.Base.Memory.{Alloc, Memory, pure, malloc, ◌>>=◌, ◌>>◌, >>=-eq-ok}

-- `len` is the length of `array`; a capacity of 0 goes with the null pointer.
pub record ArrayList (A : Type 0) : Type 0 where
  pub array : List A
  pub capacity : ℕ

abbrev pub init : {A : Type 0} → ArrayList A
init = record { array = []; capacity = 0 }

-- list->capacity *= 2, of a size_t of 64 bits.
abbrev pub doubled : ℕ → ℕ
doubled capacity = capacity * 2 % 2 ^ 64

-- while (list->len >= list->capacity), with fuel; out of fuel is `crit`.
unfoldable pub grow : ℕ → ℕ → ℕ → Alloc ℕ
grow zero len capacity = λ m. crit
grow (suc fuel) len capacity = elim (leb capacity len) [
  | false ↦ pure capacity
  | true ↦ malloc >> grow fuel len (doubled capacity)
]

-- The capacity after an addition that makes the length `len`.
unfoldable pub make_room : ℕ → ℕ → Alloc ℕ
unfolding grow malloc
make_room len capacity = do
  first ← (if capacity == 0 then (malloc >> pure 8) else pure capacity)
  grow (len + 1) len first

module _ {A : Type 0} where
  unfoldable pub add : ArrayList A → A → Alloc (ArrayList A)
  add l elem = do
    capacity ← make_room (length l.array + 1) l.capacity
    pure (record { array = l.array ++ elem ∷ []; capacity = capacity })

  -- An addition that succeeds appends the element.
  pub array-add :
      (l : ArrayList A) (elem : A) (m : Memory) {r : ArrayList A × Memory}
      → add l elem m ≡ ok r
      → r.0.array ≡ l.array ++ elem ∷ []
  unfolding add
  array-add l elem m {r} h =
      let (c, m', h1, h2) = >>=-eq-ok (make_room (length l.array + 1) l.capacity) _ m h in
      ground arith
