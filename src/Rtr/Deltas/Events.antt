-- ===== src/Rtr/Deltas/Events.antt =====
-- What a set of deltas announces and withdraws, whatever array it stands in.
use mathlib.Core.List.{map}
use fort_validator.Base.{ℕ, ◌+◌, ◌≡◌, refl, ap, ◌∙◌, sym, List, [], ◌∷◌, ◌++◌, if◌then◌else◌, arith}
use fort_validator.Base.Results.{Result, ok, and_then, and_then_assoc, walk, walk-append}
use mathlib.Core.Path.{fun_ext}
use fort_validator.Base.Memory.{Memory, >>=-eq-ok}
use fort_validator.Rtr.Keys.{Eq, bit, count, count-append, ◌=?◌}
use fort_validator.Rtr.ArrayList
use fort_validator.Rtr.ArrayList.{ArrayList, array-add}
use fort_validator.Rtr.Vrp.{
  Vrp, RouterKey, Flag, announcement, withdrawal, Delta, flag_eq, vrp_keys, router_key_keys,
}
use fort_validator.Rtr.Deltas.{
  DeltaRoa, Deltas, vrp_of_v4, vrp_of_v6, deltas_add_roa_v4, deltas_add_roa_v6,
  deltas_add_router_key, deltas_foreach, foreach_v4, foreach_v6, foreach_rk,
}

-- The payloads, and the keys, that the deltas announce or withdraw.
abbrev pub payloads : Flag → Deltas → List Vrp
payloads announcement d = map vrp_of_v4 d.v4_adds.array ++ map vrp_of_v6 d.v6_adds.array
payloads withdrawal d = map vrp_of_v4 d.v4_removes.array ++ map vrp_of_v6 d.v6_removes.array

abbrev pub keys : Flag → Deltas → List RouterKey
keys announcement d = d.rk_adds.array
keys withdrawal d = d.rk_removes.array

-- How often an addition of `v` under one flag counts for `k` under another.
abbrev pub added : {K : Type 0} ⦃e : Eq K⦄ → Flag → Flag → K → K → ℕ
added op f v k = if flag_eq op f then bit (v =? k) else 0

count-map-snoc :
    {A : Type 0} (g : A → Vrp) (xs : List A) (x : A) (k : Vrp)
    → count k (map g (xs ++ x ∷ [])) ≡ count k (map g xs) + bit (g x =? k)
count-map-snoc g [] x k = omega arith
count-map-snoc g (y ∷ xs) x k = omega (arith, count-map-snoc g xs x k)

-- The array that an addition extends, counted.
count-add :
    {A : Type 0} (g : A → Vrp) (l : ArrayList A) (x : A) (k : Vrp) (m : Memory)
    {r : ArrayList A × Memory}
    → ArrayList.add l x m ≡ ok r
    → count k (map g r.0.array) ≡ count k (map g l.array) + bit (g x =? k)
count-add g l x k m {r} h =
    ap (λ xs. count k (map g xs)) (array-add l x m {r = r} h) ∙ count-map-snoc g l.array x k

pub count-deltas_add_roa_v4 :
    (d : Deltas) (x : DeltaRoa ℕ) (op f : Flag) (k : Vrp) (m : Memory) {r : Deltas × Memory}
    → deltas_add_roa_v4 d x op m ≡ ok r
    → (count k (payloads f r.0) ≡ count k (payloads f d) + added op f (vrp_of_v4 x) k)
      × (keys f r.0 ≡ keys f d)
unfolding deltas_add_roa_v4
count-deltas_add_roa_v4 d x announcement f k m {r} h =
    let (l, m', h1, h2) = >>=-eq-ok (ArrayList.add d.v4_adds x) _ m h in
    let e = count-add vrp_of_v4 d.v4_adds x k m {r = (l, m')} h1 in
    let same : record d { v4_adds = l } ≡ r.0 = ground arith in
    rw (← same) (
      ground (
        arith,
        e,
        count-append k (map vrp_of_v4 d.v4_adds.array) (map vrp_of_v6 d.v6_adds.array),
        count-append k (map vrp_of_v4 l.array) (map vrp_of_v6 d.v6_adds.array),
      ))
count-deltas_add_roa_v4 d x withdrawal f k m {r} h =
    let (l, m', h1, h2) = >>=-eq-ok (ArrayList.add d.v4_removes x) _ m h in
    let e = count-add vrp_of_v4 d.v4_removes x k m {r = (l, m')} h1 in
    let same : record d { v4_removes = l } ≡ r.0 = ground arith in
    rw (← same) (
      ground (
        arith,
        e,
        count-append k (map vrp_of_v4 d.v4_removes.array) (map vrp_of_v6 d.v6_removes.array),
        count-append k (map vrp_of_v4 l.array) (map vrp_of_v6 d.v6_removes.array),
      ))

pub count-deltas_add_roa_v6 :
    (d : Deltas) (x : DeltaRoa (List ℕ)) (op f : Flag) (k : Vrp) (m : Memory) {r : Deltas × Memory}
    → deltas_add_roa_v6 d x op m ≡ ok r
    → (count k (payloads f r.0) ≡ count k (payloads f d) + added op f (vrp_of_v6 x) k)
      × (keys f r.0 ≡ keys f d)
unfolding deltas_add_roa_v6
count-deltas_add_roa_v6 d x announcement f k m {r} h =
    let (l, m', h1, h2) = >>=-eq-ok (ArrayList.add d.v6_adds x) _ m h in
    let e = count-add vrp_of_v6 d.v6_adds x k m {r = (l, m')} h1 in
    let same : record d { v6_adds = l } ≡ r.0 = ground arith in
    rw (← same) (
      ground (
        arith,
        e,
        count-append k (map vrp_of_v4 d.v4_adds.array) (map vrp_of_v6 d.v6_adds.array),
        count-append k (map vrp_of_v4 d.v4_adds.array) (map vrp_of_v6 l.array),
      ))
count-deltas_add_roa_v6 d x withdrawal f k m {r} h =
    let (l, m', h1, h2) = >>=-eq-ok (ArrayList.add d.v6_removes x) _ m h in
    let e = count-add vrp_of_v6 d.v6_removes x k m {r = (l, m')} h1 in
    let same : record d { v6_removes = l } ≡ r.0 = ground arith in
    rw (← same) (
      ground (
        arith,
        e,
        count-append k (map vrp_of_v4 d.v4_removes.array) (map vrp_of_v6 d.v6_removes.array),
        count-append k (map vrp_of_v4 d.v4_removes.array) (map vrp_of_v6 l.array),
      ))

pub count-deltas_add_router_key :
    (d : Deltas) (x : RouterKey) (op f : Flag) (k : RouterKey) (m : Memory) {r : Deltas × Memory}
    → deltas_add_router_key d x op m ≡ ok r
    → (count k (keys f r.0) ≡ count k (keys f d) + added op f x k) × (payloads f r.0 ≡ payloads f d)
unfolding deltas_add_router_key
count-deltas_add_router_key d x announcement f k m {r} h =
    let (l, m', h1, h2) = >>=-eq-ok (ArrayList.add d.rk_adds x) _ m h in
    let e = array-add d.rk_adds x m {r = (l, m')} h1 in
    let same : record d { rk_adds = l } ≡ r.0 = ground arith in
    rw (← same) (ground (arith, ap (count k) e, count-append k d.rk_adds.array (x ∷ [])))
count-deltas_add_router_key d x withdrawal f k m {r} h =
    let (l, m', h1, h2) = >>=-eq-ok (ArrayList.add d.rk_removes x) _ m h in
    let e = array-add d.rk_removes x m {r = (l, m')} h1 in
    let same : record d { rk_removes = l } ≡ r.0 = ground arith in
    rw (← same) (ground (arith, ap (count k) e, count-append k d.rk_removes.array (x ∷ [])))

-- The events of one array.
abbrev pub events : {K A : Type 0} → (A → K) → ℕ → Flag → List A → List (Delta K)
events g serial op = map (λ x. record { serial = serial; key = g x; flags = op })

-- The events that deltas_foreach() passes on, in order.
abbrev pub vrp_events : ℕ → Deltas → List (Delta Vrp)
vrp_events serial d =
    events vrp_of_v4 serial announcement d.v4_adds.array
    ++ (events vrp_of_v4 serial withdrawal d.v4_removes.array
        ++ (events vrp_of_v6 serial announcement d.v6_adds.array
            ++ events vrp_of_v6 serial withdrawal d.v6_removes.array))

abbrev pub key_events : ℕ → Deltas → List (Delta RouterKey)
key_events serial d =
    events (λ k. k) serial announcement d.rk_adds.array
    ++ events (λ k. k) serial withdrawal d.rk_removes.array

-- How often a key stands in a list of events under a flag.
abbrev pub tally : {K : Type 0} ⦃e : Eq K⦄ → Flag → K → List (Delta K) → ℕ
tally f k [] = 0
tally f k (x ∷ xs) = added x.flags f x.key k + tally f k xs

pub tally-append :
    {K : Type 0} ⦃e : Eq K⦄ (f : Flag) (k : K) (xs ys : List (Delta K))
    → tally f k (xs ++ ys) ≡ tally f k xs + tally f k ys
tally-append f k [] ys = omega arith
tally-append f k (x ∷ xs) ys = omega (arith, tally-append f k xs ys)

tally-events :
    {K A : Type 0} ⦃e : Eq K⦄ (g : A → K) (serial : ℕ) (op f : Flag) (k : K) (xs : List A)
    → tally f k (events g serial op xs) ≡ (if flag_eq op f then count k (map g xs) else 0)
tally-events g serial op f k [] = ground arith
tally-events g serial op f k (x ∷ xs) = ground (arith, tally-events g serial op f k xs)

map_id : {A : Type 0} (xs : List A) → map (λ x. x) xs ≡ xs
map_id [] = refl
map_id (x ∷ xs) = ap (λ l. x ∷ l) (map_id xs)

-- The events carry the payloads of the deltas, as often.
pub tally-vrp_events :
    (serial : ℕ) (d : Deltas) (f : Flag) (k : Vrp)
    → tally f k (vrp_events serial d) ≡ count k (payloads f d)
tally-vrp_events serial d announcement k =
    simp (tally-append, tally-events, count-append) (omega arith)
tally-vrp_events serial d withdrawal k =
    simp (tally-append, tally-events, count-append) (omega arith)

pub tally-key_events :
    (serial : ℕ) (d : Deltas) (f : Flag) (k : RouterKey)
    → tally f k (key_events serial d) ≡ count k (keys f d)
tally-key_events serial d announcement k = simp (tally-append, tally-events, map_id) (omega arith)
tally-key_events serial d withdrawal k = simp (tally-append, tally-events, map_id) (omega arith)

walk-events :
    {K A S : Type 0} (g : A → K) (serial : ℕ) (op : Flag) (cb : Delta K → S → Result (Unit {0}) × S)
    (xs : List A) (s : S)
    → walk (λ x. cb (record { serial = serial; key = g x; flags = op })) xs s
      ≡ walk cb (events g serial op xs) s
unfolding walk
walk-events g serial op cb [] s = refl
walk-events g serial op cb (x ∷ xs) s =
    ap (and_then (cb (record { serial = serial; key = g x; flags = op }) s))
      (fun_ext (walk-events g serial op cb xs))

module _ {S : Type 0} where
  foreach_v4-eq-walk :
      (array : List (DeltaRoa ℕ)) (cb : Delta Vrp → S → Result (Unit {0}) × S) (serial : ℕ)
      (op : Flag) (s : S)
      → foreach_v4 array cb serial op s ≡ walk cb (events vrp_of_v4 serial op array) s
  unfolding foreach_v4
  foreach_v4-eq-walk array cb serial op s = walk-events vrp_of_v4 serial op cb array s

  foreach_v6-eq-walk :
      (array : List (DeltaRoa (List ℕ))) (cb : Delta Vrp → S → Result (Unit {0}) × S) (serial : ℕ)
      (op : Flag) (s : S)
      → foreach_v6 array cb serial op s ≡ walk cb (events vrp_of_v6 serial op array) s
  unfolding foreach_v6
  foreach_v6-eq-walk array cb serial op s = walk-events vrp_of_v6 serial op cb array s

  foreach_rk-eq-walk :
      (array : List RouterKey) (cb : Delta RouterKey → S → Result (Unit {0}) × S) (serial : ℕ)
      (op : Flag) (s : S)
      → foreach_rk array cb serial op s ≡ walk cb (events (λ k. k) serial op array) s
  unfolding foreach_rk
  foreach_rk-eq-walk array cb serial op s = walk-events (λ k. k) serial op cb array s

-- deltas_foreach() walks over the events of the payloads, then over those of the router keys.
pub deltas_foreach-eq-walk :
    {S : Type 0} (serial : ℕ) (d : Deltas) (cb_vrp : Delta Vrp → S → Result (Unit {0}) × S)
    (cb_rk : Delta RouterKey → S → Result (Unit {0}) × S) (s : S)
    → deltas_foreach serial d cb_vrp cb_rk s
      ≡ and_then (walk cb_vrp (vrp_events serial d) s) (walk cb_rk (key_events serial d))
unfolding deltas_foreach
deltas_foreach-eq-walk {S} serial d cb_vrp cb_rk s = simp (
  foreach_v4-eq-walk,
  foreach_v6-eq-walk,
  foreach_rk-eq-walk,
  walk-append cb_vrp,
  and_then_assoc,
  finish,
)
  where
    finish :
        (s : S)
        → and_then
            (walk cb_rk (events (λ k. k) serial announcement d.rk_adds.array) s)
            (foreach_rk d.rk_removes.array cb_rk serial withdrawal)
          ≡ walk cb_rk (key_events serial d) s
    finish s =
        let adds = events (λ k. k) serial announcement d.rk_adds.array in
        let removes = events (λ k. k) serial withdrawal d.rk_removes.array in
        ap (and_then (walk cb_rk adds s))
          (fun_ext (foreach_rk-eq-walk d.rk_removes.array cb_rk serial withdrawal))
        ∙ sym (walk-append cb_rk adds removes s)
