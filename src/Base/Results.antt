-- ===== src/Base/Results.antt =====
-- What a C function of the validator returns: 0, a negative error code, or nothing at all,
-- because pr_crit() ended the process.
use mathlib.Core.Path.{◌≡◌, refl, sym, ap, ◌∙◌, subst, fun_ext}
use mathlib.Core.List.{List, [], ◌∷◌, ◌++◌, append_assoc, append-nil}
use mathlib.Core.Bool.{Bool, true, false}

-- The error codes that the modelled functions return; `one` is the 1 of a failed `a || b`.
pub data Errno : Type 0 where
  einval enomem eagain esrch epipe enoent eexist : Errno
  one : Errno
  eequal echild2 eparent eleft eadjleft eadjright eintersection : Errno

pub data Result {ℓ} (A : Type ℓ) : Type ℓ where
  crit : Result A
  err : Errno → Result A
  ok : A → Result A

-- `if (bad) return error;`
abbrev pub reject : Bool → Errno → Result (Unit {0})
reject false error = ok tt
reject true error = err error

-- `error = call(); if (error) return error;`, and what follows.
infixl 5 ◌>>=◌ ◌>>◌
abbrev pub ◌>>=◌ {ℓ κ} : {A : Type ℓ} {B : Type κ} → Result A → (A → Result B) → Result B
crit >>= next = crit
err error >>= next = err error
ok value >>= next = next value

abbrev pub ◌>>◌ {κ} : {B : Type κ} → Result (Unit {0}) → Result B → Result B
call >> rest = call >>= λ _. rest

pub >>=-eq-ok {ℓ κ} :
    {A : Type ℓ} {B : Type κ} (call : Result A) (next : A → Result B) {b : B}
    → (call >>= next) ≡ ok b
    → (a : A) × (call ≡ ok a) × (next a ≡ ok b)
>>=-eq-ok crit next h = cc
>>=-eq-ok (err error) next h = cc
>>=-eq-ok (ok value) next h = (value, refl, h)

pub reject-eq-err : (b : Bool) (e : Errno) → reject b e ≡ err e → b ≡ true
reject-eq-err true e h = refl
reject-eq-err false e h = cc

pub reject-eq-ok : (b : Bool) (e : Errno) → reject b e ≡ ok tt → b ≡ false
reject-eq-ok true e h = cc
reject-eq-ok false e h = refl

-- A call that works on a state, and what follows it if it returns 0.
abbrev pub and_then {ℓ} :
    {S : Type ℓ} → Result (Unit {0}) × S → (S → Result (Unit {0}) × S) → Result (Unit {0}) × S
and_then (ok _, s) k = k s
and_then (err e, s) k = (err e, s)
and_then (crit, s) k = (crit, s)

pub and_then_assoc {ℓ} :
    {S : Type ℓ} (m : Result (Unit {0}) × S) (f g : S → Result (Unit {0}) × S)
    → and_then (and_then m f) g ≡ and_then m (λ s. and_then (f s) g)
and_then_assoc (ok _, s) f g = refl
and_then_assoc (err e, s) f g = refl
and_then_assoc (crit, s) f g = refl

-- A loop over a list that stops at the first error.
unfoldable pub walk {ℓ κ} :
    {A : Type ℓ} {S : Type κ} → (A → S → Result (Unit {0}) × S) → List A → S → Result (Unit {0}) × S
walk cb [] s = (ok tt, s)
walk cb (x ∷ xs) s = and_then (cb x s) (λ s'. walk cb xs s')

pub walk-append {ℓ κ} :
    {A : Type ℓ} {S : Type κ} (cb : A → S → Result (Unit {0}) × S) (xs ys : List A) (s : S)
    → walk cb (xs ++ ys) s ≡ and_then (walk cb xs s) (walk cb ys)
unfolding walk
walk-append cb [] ys s = refl
walk-append cb (x ∷ xs) ys s =
    ap (and_then (cb x s)) (fun_ext (walk-append cb xs ys))
    ∙ sym (and_then_assoc (cb x s) (walk cb xs) (walk cb ys))

pub and_then-eq-ok {ℓ} :
    {S : Type ℓ} (m : Result (Unit {0}) × S) (k : S → Result (Unit {0}) × S) {s : S}
    → and_then m k ≡ (ok tt, s)
    → (s1 : S) × (m ≡ (ok tt, s1)) × (k s1 ≡ (ok tt, s))
and_then-eq-ok (ok tt, s1) k h = (s1, refl, h)
and_then-eq-ok (err e, s1) k h = cc
and_then-eq-ok (crit, s1) k h = cc

-- What each round of a loop keeps, the loop keeps.
pub walk-keeps {ℓ κ μ} :
    {A : Type ℓ} {S : Type κ} (cb : A → S → Result (Unit {0}) × S) (I : List A → S → Type μ)
    → ((xs : List A) (x : A) (s s' : S) → cb x s ≡ (ok tt, s') → I xs s → I (xs ++ x ∷ []) s')
    → (seen xs : List A) (s s' : S) → walk cb xs s ≡ (ok tt, s')
    → I seen s
    → I (seen ++ xs) s'
unfolding walk
walk-keeps cb I step seen [] s s' h i = rw (append-nil seen) (subst (I seen) (ap (λ p. p.1) h) i)
walk-keeps cb I step seen (x ∷ xs) s s' h i =
    let (s1, h1, h2) = and_then-eq-ok (cb x s) _ h in
    let rest = walk-keeps cb I step (seen ++ x ∷ []) xs s1 s' h2 (step seen x s s1 h1 i) in
    rw (append_assoc seen (x ∷ []) xs) at rest

pub ok-injective {ℓ} : {A : Type ℓ} {a b : A} → ok a ≡ ok b → a ≡ b
ok-injective h = cc

-- A loop whose rounds all return 0 returns 0.
pub walk_ok {ℓ κ μ} :
    {A : Type ℓ} {S : Type κ} (cb : A → S → Result (Unit {0}) × S) (I : S → Type μ)
    → ((x : A) (s : S) → I s → (s' : S) × (cb x s ≡ (ok tt, s')) × I s')
    → (xs : List A) (s : S) → I s
    → (s' : S) × (walk cb xs s ≡ (ok tt, s')) × I s'
unfolding walk
walk_ok cb I step [] s i = (s, refl, i)
walk_ok cb I step (x ∷ xs) s i =
    let (s1, e1, i1) = step x s i in
    let (s2, e2, i2) = walk_ok cb I step xs s1 i1 in (s2, rw e1 e2, i2)
