-- ===== src/Rtr/ArrayList/Room.antt =====
-- The room that the add functions of data_structure/array_list.h make.
use fort_validator.Base.{
  ℕ, zero, suc, ◌+◌, ◌*◌, ◌^◌, ◌≤◌, ◌<◌, ◌≡◌, refl, ap, ◌∙◌, Bool, true, false, not, ◌||◌, ◌⊎◌, [],
  ◌∷◌, ◌++◌, arith, leb, ◌==◌, length, length-append, Bool-cases, inl, inr,
}
use fort_validator.Base.Results.{ok, err, enomem}
use fort_validator.Base.Memory.{Alloc, Memory, malloc, ◌>>◌, >>=-of_ok}
use fort_validator.Rtr.ArrayList.{ArrayList, doubled, grow, make_room, add}

-- Some call of malloc() or realloc() will fail.
abbrev pub fails : Memory → Bool
fails [] = false
fails (b ∷ m) = not b || fails m

-- Room for `len` elements, or a failed call; while no call fails, none will.
abbrev Made : ℕ → Memory → Alloc ℕ → Type 0
Made len m call =
    ((c : ℕ) × (m' : Memory) × (call m ≡ ok (c, m')) × (len < c) × (m ≡ [] → m' ≡ []))
    ⊎ ((call m ≡ err enomem) × (fails m ≡ true))

-- A call of malloc() or realloc(), and what follows.
Made-malloc :
    (len : ℕ) (call : Alloc ℕ) (m : Memory)
    → ((m' : Memory) → Made len m' call)
    → Made len m (malloc >> call)
unfolding malloc
Made-malloc len call [] rest = rest []
Made-malloc len call (true ∷ m) rest = elim (rest m) [
  | inl (c, m', e, lt, _) ↦ inl (c, m', e, lt, λ h. cc)
  | inr failed ↦ inr failed
]
Made-malloc len call (false ∷ m) rest = inr (refl, refl)

-- The loop ends: the capacity doubles, does not wrap, and passes the length within the fuel.
grow-Made :
    (fuel len capacity : ℕ) (m : Memory)
    → 0 < capacity
    → len + 1 < fuel + capacity
    → 0 < fuel
    → len < 2 ^ 63
    → Made len m (grow fuel len capacity)
unfolding grow
grow-Made zero len capacity m pos lt f b = elim f [ ]
grow-Made (suc fuel) len capacity m pos lt f b = elim (Bool-cases (leb capacity len)) [
  | inr enough ↦ inl (capacity, m, rw (enough, grow) refl, ground arith, λ h. h)
  | inl more ↦
      let le : capacity ≤ len = ground arith in
      let twice : doubled capacity ≡ capacity * 2 = omega (arith, le, b) in
      rw (more, grow)
        (Made-malloc len (grow fuel len (doubled capacity)) m (λ m'.
          grow-Made fuel len (doubled capacity) m' (omega arith) (omega arith) (omega arith) b))
]

from_eight : (len : ℕ) (m : Memory) → len < 2 ^ 63 → Made len m (grow (len + 1) len 8)
from_eight len m b = grow-Made (len + 1) len 8 m (omega arith) (omega arith) (omega arith) b

make_room-Made :
    (len capacity : ℕ) (m : Memory) → len < 2 ^ 63 → Made len m (make_room len capacity)
unfolding make_room malloc
make_room-Made len zero [] b = from_eight len [] b
make_room-Made len zero (true ∷ m) b = Made-malloc len _ (true ∷ m) (λ m'. from_eight len m' b)
make_room-Made len zero (false ∷ m) b = inr (refl, refl)
make_room-Made len (suc c) m b =
    let e : (suc c == 0) ≡ false = ground arith in
    rw e (grow-Made (len + 1) len (suc c) m (omega arith) (omega arith) (omega arith) b)

-- An addition that makes the length less than 2 ^ 63 ends: with the element appended, and the
-- capacity greater than the length, or with -ENOMEM, which takes a call of malloc() or realloc()
-- that fails.
pub add-cases :
    {A : Type 0} (l : ArrayList A) (elem : A) (m : Memory)
    → length l.array + 1 < 2 ^ 63
    → ((l' : ArrayList A) × (m' : Memory) × (add l elem m ≡ ok (l', m'))
        × (l'.array ≡ l.array ++ elem ∷ [])
        × (length l'.array < l'.capacity))
      ⊎ ((add l elem m ≡ err enomem) × (fails m ≡ true))
unfolding add
add-cases l elem m b = elim (make_room-Made (length l.array + 1) l.capacity m b) [
  | inl (c, m', e, lt, _) ↦ inl (
    record { array = l.array ++ elem ∷ []; capacity = c },
    m',
    >>=-of_ok (make_room (length l.array + 1) l.capacity) _ m c m' e,
    refl,
    omega (arith, length-append l.array (elem ∷ [])),
  )
  | inr (e, f) ↦ inr (ground (arith, e), f)
]

-- An addition that makes the length less than 2 ^ 63 succeeds while memory lasts.
pub add_ok :
    {A : Type 0} (l : ArrayList A) (elem : A)
    → length l.array + 1 < 2 ^ 63
    → (l' : ArrayList A) × (add l elem [] ≡ ok (l', []))
unfolding add
add_ok l elem b = elim (make_room-Made (length l.array + 1) l.capacity [] b) [
  | inl (c, m', e, lt, empty) ↦ (
    record { array = l.array ++ elem ∷ []; capacity = c },
    >>=-of_ok (make_room (length l.array + 1) l.capacity) _ [] c m' e
        ∙ ap (λ z. ok (record { array = l.array ++ elem ∷ []; capacity = c }, z)) (empty refl),
  )
  | inr (e, f) ↦ cc
]
