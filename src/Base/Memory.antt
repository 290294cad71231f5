-- ===== src/Base/Memory.antt =====
-- Functions that allocate. A run is given what its calls of malloc() and realloc() will return,
-- `true` for success; past the end of that list every call succeeds.
use Prim.Native.Nat.{ℕ, suc, ◌+◌}
use mathlib.Core.Path.{◌≡◌, refl, ap, subst}
use native.Mathlib.Omega.{arith}
use fort_validator.Base.Lists.{All, length}
use mathlib.Core.Bool.{Bool, true, false}
use mathlib.Core.List.{List, [], ◌∷◌}
use fort_validator.Base.Results.{Result, ok, err, crit, enomem}

abbrev pub Memory : Type 0
Memory = List Bool

-- The result, with what is left of the list.
abbrev pub Alloc : Type 0 → Type 0
Alloc A = Memory → Result (A × Memory)

abbrev pub pure : {A : Type 0} → A → Alloc A
pure a m = ok (a, m)

infixl 5 ◌>>=◌ ◌>>◌
abbrev pub ◌>>=◌ : {A B : Type 0} → Alloc A → (A → Alloc B) → Alloc B
◌>>=◌ x f m = elim (x m) [ ok (a, m') ↦ f a m' | err e ↦ err e | crit ↦ crit ]

abbrev pub ◌>>◌ : {B : Type 0} → Alloc (Unit {0}) → Alloc B → Alloc B
x >> y = x >>= λ _. y

-- if (malloc(...) == NULL) return pr_enomem();
unfoldable pub malloc : Alloc (Unit {0})
malloc [] = ok (tt, [])
malloc (true ∷ m) = ok (tt, m)
malloc (false ∷ m) = err enomem

pub >>=-eq-ok :
    {A B : Type 0} (x : Alloc A) (f : A → Alloc B) (m : Memory) {b : B × Memory}
    → (x >>= f) m ≡ ok b
    → (a : A) × (m' : Memory) × (x m ≡ ok (a, m')) × (f a m' ≡ ok b)
>>=-eq-ok {A} {B} x f m {b} h = go (x m) refl h
  where
    go :
        (r : Result (A × Memory))
        → x m ≡ r
        → (elim r [ ok (a, m') ↦ f a m' | err e ↦ err e | crit ↦ crit ]) ≡ ok b
        → (a : A) × (m' : Memory) × (x m ≡ ok (a, m')) × (f a m' ≡ ok b)
    go (ok (a, m')) e h = (a, m', e, h)
    go (err e') e h = cc
    go crit e h = cc

-- A loop over a list that carries a value and stops at the first error.
unfoldable pub for_each : {A T : Type 0} → (A → T → Alloc T) → List A → T → Alloc T
for_each f [] t = pure t
for_each f (x ∷ xs) t = f x t >>= λ t'. for_each f xs t'

-- What follows a call that succeeds.
pub >>=-of_ok :
    {A B : Type 0} (x : Alloc A) (f : A → Alloc B) (m : Memory) (a : A) (m' : Memory)
    → x m ≡ ok (a, m')
    → (x >>= f) m ≡ f a m'
>>=-of_ok {A} {B} x f m a m' h =
    ap
      (λ (r : Result (A × Memory)). elim r as (λ _. Result (B × Memory)) [
        | ok (a, m') ↦ f a m'
        | err e ↦ err e
        | crit ↦ crit
      ])
      h

-- Whether the next allocation succeeds.
unfoldable pub allocation : Alloc Bool
allocation [] = ok (true, [])
allocation (b ∷ m) = ok (b, m)

-- A call that allocates nothing.
abbrev pub lift : {A : Type 0} → Result A → Alloc A
lift crit m = crit
lift (err e) m = err e
lift (ok a) m = ok (a, m)

pub lift-eq-ok :
    {A : Type 0} (r : Result A) (m : Memory) {a : A} {m' : Memory}
    → lift r m ≡ ok (a, m')
    → r ≡ ok a
lift-eq-ok crit m h = cc
lift-eq-ok (err e) m h = cc
lift-eq-ok (ok x) m h = cc

-- What each round of a loop keeps, the loop keeps; `I n` may count the rounds that are left.
pub for_each-keeps :
    {A T : Type 0} (f : A → T → Alloc T) (P : A → Type 0) (I : ℕ → T → Type 0)
    → ((n : ℕ) (x : A) (t t' : T) (m m' : Memory)
        → P x
        → I (suc n) t
        → f x t m ≡ ok (t', m')
        → I n t')
    → (k : ℕ) (xs : List A) (t t' : T) (m m' : Memory) → All P xs
    → I (length xs + k) t
    → for_each f xs t m ≡ ok (t', m')
    → I k t'
unfolding for_each
for_each-keeps f P I step k [] t t' m m' h i e =
    let same : t ≡ t' = cc in subst (I k) same (subst (λ n. I n t) (omega arith) i)
for_each-keeps f P I step k (x ∷ xs) t t' m m' h i e =
    let (t1, m1, e1, e2) = >>=-eq-ok (f x t) _ m e in
    for_each-keeps f P I step k xs t1 t' m1 m' h.1
      (step (length xs + k) x t t1 m m1 h.0 (subst (λ n. I n t) (omega arith) i) e1) e2
