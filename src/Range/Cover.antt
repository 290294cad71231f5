-- ===== src/Range/Cover.antt =====
-- The set of numbers that a sorted list of ranges stands for.
use fort_validator.Base.{
  ℕ, zero, suc, ◌+◌, ◌≤◌, ◌<◌, ◌≡◌, refl, some, List, [], ◌∷◌, arith, get_elem?, All, All-get,
}
use native.Mathlib.Decide.{dec_le, dec_lt}
use fort_validator.Range.{Node, InNode}
use fort_validator.Range.Order.{Covers}

module _ {A : Type 0} (node : A → Node) where
  -- The ranges are not inverted, ascend, and neither overlap nor touch.
  abbrev pub IsSorted : List A → Type 0
  IsSorted [] = Unit
  IsSorted (x ∷ xs) =
      ((node x).min ≤ (node x).max) × All (λ y. (node x).max + 1 < (node y).min) xs × IsSorted xs

  -- Some range of the list holds the number.
  abbrev pub Holds : List A → ℕ → Type 0
  Holds xs a = (i : ℕ) × (x : A) × (get_elem? xs i ≡ some x) × InNode a (node x)

  -- Some range of the list holds the whole of another.
  abbrev pub CoveredBy : List A → Node → Type 0
  CoveredBy xs e = (i : ℕ) × (x : A) × (get_elem? xs i ≡ some x) × Covers (node x) e

  abbrev pub NoneCovers : List A → Node → Type 0
  NoneCovers xs e = (i : ℕ) (x : A) → get_elem? xs i ≡ some x → ¬ (Covers (node x) e)

  pub IsSorted-valid :
      (xs : List A) (i : ℕ) {x : A}
      → IsSorted xs
      → get_elem? xs i ≡ some x
      → (node x).min ≤ (node x).max
  IsSorted-valid [] i s e = absurd (ground arith)
  IsSorted-valid (y ∷ xs) zero s e = ground (arith, s.0)
  IsSorted-valid (y ∷ xs) (suc i) s e = IsSorted-valid xs i s.2 e

  -- Ranges at different places are apart.
  pub IsSorted-apart :
      (xs : List A) (i j : ℕ) {x y : A}
      → IsSorted xs
      → i < j
      → get_elem? xs i ≡ some x
      → get_elem? xs j ≡ some y
      → (node x).max + 1 < (node y).min
  IsSorted-apart [] i j s h ex ey = absurd (ground arith)
  IsSorted-apart (z ∷ xs) i zero s h ex ey = absurd (omega arith)
  IsSorted-apart (z ∷ xs) zero (suc j) {x} {y} s h ex ey =
      ground (arith, All-get (λ y. (node z).max + 1 < (node y).min) xs j {x = y} s.1 ey)
  IsSorted-apart (z ∷ xs) (suc i) (suc j) s h ex ey = IsSorted-apart xs i j s.2 (omega arith) ex ey

  not-Holds-cons :
      (x : A) (xs : List A) (a : ℕ) → ¬ (InNode a (node x)) → ¬ (Holds xs a) → ¬ (Holds (x ∷ xs) a)
  not-Holds-cons x xs a hx hs (zero, y, p, q) = hx (ground arith)
  not-Holds-cons x xs a hx hs (suc i, y, p, q) = hs (i, y, p, q)

  -- A number that a range's end does not pass is in none of the ranges beyond.
  not-Holds-beyond :
      (xs : List A) (b a : ℕ) → All (λ y. b + 1 < (node y).min) xs → a ≤ b + 1 → ¬ (Holds xs a)
  not-Holds-beyond xs b a h le (i, y, p, q) =
      absurd (omega (arith, All-get (λ y. b + 1 < (node y).min) xs i {x = y} h p))

  -- A range that no single range covers has a number that the list does not hold: since ranges
  -- that touch are not accepted, two of them never cover a third together.
  pub NoneCovers-witness :
      (xs : List A) (e : Node)
      → IsSorted xs
      → e.min ≤ e.max
      → NoneCovers xs e
      → (a : ℕ) × InNode a e × ¬ (Holds xs a)
  NoneCovers-witness [] e s v n = (e.min, (omega arith, omega arith), λ h. ground (arith, h.2))
  NoneCovers-witness (x ∷ xs) e s v n = elim (dec_lt e.min (node x).min) [
    | yes before ↦ (
      e.min,
      (omega arith, omega arith),
      not-Holds-cons x xs e.min (λ q. omega arith)
          (not-Holds-beyond xs (node x).max e.min s.1 (omega arith)),
    )
    | no after ↦ elim (dec_le e.min (node x).max) [
      | yes inside ↦
          let short : (node x).max < e.max = elim (dec_lt (node x).max e.max) [
            | yes h ↦ h
            | no h ↦ absurd (n 0 x refl (omega arith, omega arith))
          ] in
          (
            (node x).max + 1,
            (omega arith, omega arith),
            not-Holds-cons x xs ((node x).max + 1) (λ q. omega arith)
                (not-Holds-beyond xs (node x).max ((node x).max + 1) s.1 (omega arith)),
          )
      | no past ↦
          let (a, i, h) = NoneCovers-witness xs e s.2 v (λ i y p. n (suc i) y p) in
          (a, i, not-Holds-cons x xs a (λ q. omega arith) h)
    ]
  ]
