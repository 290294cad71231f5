-- ===== src/Rtr/Vrps/Found.antt =====
-- vrps_get_deltas_from() of vrps.c finds the serials that it still has, and what it gives then.
use mathlib.Core.List.{append_assoc, append-nil}
use fort_validator.Base.{
  ℕ, ◌+◌, ◌^◌, ◌<◌, ◌≡◌, refl, ap, sym, ◌∙◌, Bool, true, false, ◌==◌, some, List, [], ◌∷◌, ◌++◌,
  if◌then◌else◌, length, length-append, All, arith, Bool-cases, inl, inr, ◌⊎◌,
}
use fort_validator.Base.Results.{ok, err, esrch}
use fort_validator.Base.Memory.{Alloc, pure, ◌>>=◌, >>=-of_ok}
use fort_validator.Rtr.Keys.{HashTable}
use fort_validator.Rtr.Vrp.{Vrp, RouterKey, vrp_keys, router_key_keys}
use fort_validator.Rtr.ArrayList
use fort_validator.Rtr.ArrayList.{ArrayList, array-add}
use fort_validator.Rtr.ArrayList.Room.{add_ok}
use fort_validator.Rtr.Table.{Db}
use fort_validator.Rtr.Filter.{DeltaGroup}
use fort_validator.Rtr.Vrps.{State, collect, vrps_get_deltas_from}

-- The serial of the last group, from `g` on.
abbrev pub last_serial : DeltaGroup → List DeltaGroup → ℕ
last_serial g [] = g.serial
last_serial g (x ∷ xs) = last_serial x xs

-- No group has the serial.
abbrev pub NoneHas : ℕ → List DeltaGroup → Type 0
NoneHas from = All (λ (g : DeltaGroup). (g.serial == from) ≡ false)

-- The groups are divided at the first one that has the serial.
pub record Divided (from : ℕ) (groups : List DeltaGroup) (to : ℕ) (after : List DeltaGroup)
    : Type 0 where
  pub before : List DeltaGroup
  pub found : DeltaGroup
  pub all : groups ≡ before ++ found ∷ after
  pub first : NoneHas from before
  pub asked : found.serial ≡ from
  pub newest : to ≡ last_serial found after

collect-true_ok :
    (from : ℕ) (groups : List DeltaGroup) (g : DeltaGroup) (result : ArrayList DeltaGroup)
    → length result.array + length groups < 2 ^ 63
    → (l : ArrayList DeltaGroup) × (collect from true groups g.serial result []
        ≡ ok ((true, (last_serial g groups, l)), []))
      × (l.array ≡ result.array ++ groups)
unfolding collect
collect-true_ok from [] g result b = (result, refl, sym (append-nil result.array))
collect-true_ok from (x ∷ groups) g result b =
    let (l, e) = add_ok result x (omega arith) in
    let grown = array-add result x [] e in
    let (l', e', a) =
      collect-true_ok from groups x l
        (omega (arith, ap length grown, length-append result.array (x ∷ []))) in
    (
      l',
      >>=-of_ok (ArrayList.add result x) (λ l. collect from true groups x.serial l) [] l [] e ∙ e',
      a ∙ ap (λ z. z ++ groups) grown ∙ append_assoc result.array (x ∷ []) groups,
    )

-- What the loop comes to from an empty array.
Collected : ℕ → List DeltaGroup → ℕ → Type 0
Collected from groups to =
    ((t : ℕ) × (l : ArrayList DeltaGroup) × (collect from false groups to ArrayList.init []
        ≡ ok ((true, (t, l)), []))
      × Divided from groups t l.array)
    ⊎ (NoneHas from groups
        × (r : ℕ × ArrayList DeltaGroup) × (collect from false groups to ArrayList.init []
            ≡ ok ((false, r), [])))

collect-false_ok :
    (from : ℕ) (groups : List DeltaGroup) (to : ℕ)
    → length groups < 2 ^ 63
    → Collected from groups to
unfolding collect Collected
collect-false_ok from [] to b = inr (tt, (to, ArrayList.init), refl)
collect-false_ok from (g ∷ groups) to b = elim (Bool-cases (g.serial == from)) [
  | inl y ↦
      let (l, e, a) = collect-true_ok from groups g ArrayList.init (omega arith) in
      inl (
        last_serial g groups,
        l,
        rw (y, collect) e,
        record {
          before = [];
          found = g;
          all = ap (λ z. g ∷ z) (sym a);
          first = tt;
          asked = ground arith;
          newest = ap (last_serial g) (sym a);
        },
      )
  | inr n ↦ elim (collect-false_ok from groups to (omega arith)) [
    | inl (t, l, e, d) ↦ inl (
      t,
      l,
      rw (n, collect) e,
      record {
        before = g ∷ d.before;
        found = d.found;
        all = ap (λ z. g ∷ z) d.all;
        first = (n, d.first);
        asked = d.asked;
        newest = d.newest;
      },
    )
    | inr (none, r, e) ↦ inr ((n, none), r, rw (n, collect) e)
  ]
]

module _ (rs : HashTable Vrp) (ks : HashTable RouterKey) where
  -- While memory lasts, a state with a base, and less than 2 ^ 63 groups, answers a serial exactly
  -- if a group has it: with all groups after the first one that does, in order, and the serial of
  -- the last of them, or with -ESRCH if no group has it.
  pub vrps_get_deltas_from-found :
      (from : ℕ) (st : State rs ks) (base : Db rs ks)
      → st.base ≡ some base
      → length st.deltas.array < 2 ^ 63
      → ((to : ℕ) × (l : ArrayList DeltaGroup) × (vrps_get_deltas_from rs ks from st []
            ≡ ok ((to, l), []))
          × Divided from st.deltas.array to l.array)
        ⊎ (NoneHas from st.deltas.array × (vrps_get_deltas_from rs ks from st [] ≡ err esrch))
  unfolding vrps_get_deltas_from Collected
  vrps_get_deltas_from-found from st base b short =
      elim (collect-false_ok from st.deltas.array 0 short) [
        | inl (t, l, e, d) ↦ inl (t, l, rw (b, vrps_get_deltas_from) (step (true, (t, l)) e), d)
        | inr (none, r, e) ↦ inr (none, rw (b, vrps_get_deltas_from) (step (false, r) e))
      ]
    where
      answer : Bool × (ℕ × ArrayList DeltaGroup) → Alloc (ℕ × ArrayList DeltaGroup)
      answer x = if x.0 then pure x.1 else (λ m. err esrch)

      step :
          (x : Bool × (ℕ × ArrayList DeltaGroup))
          → collect from false st.deltas.array 0 ArrayList.init [] ≡ ok (x, [])
          → (collect from false st.deltas.array 0 ArrayList.init >>= answer) [] ≡ answer x []
      step x e = >>=-of_ok (collect from false st.deltas.array 0 ArrayList.init) answer [] x [] e
