-- ===== src/Rtr/Filter/Cancel.antt =====
-- What the filter of vrps.c does to its lists: they hold the net effect of the changes.
use fort_validator.Base.{
  subst, ◌+◌, ◌-◌, ◌≡◌, refl, ap, ◌∙◌, sym, true, false, not, ◌&&◌, Option, none, some, List, [],
  ◌∷◌, ◌++◌, arith, Bool-cases, inl, inr,
}
use fort_validator.Base.Results.{ok, ok-injective}
use fort_validator.Base.Memory.{Memory, malloc, pure, >>=-eq-ok}
use fort_validator.Rtr.Keys.{Eq, ◌=?◌}
use fort_validator.Rtr.Vrp.{
  Flag, announcement, withdrawal, Delta, flag_eq, vrp_keys, router_key_keys,
}
use fort_validator.Rtr.Deltas.Events.{added, tally, tally-append}
use fort_validator.Rtr.Filter.{cancel, ovrd_remove}

abbrev pub other : Flag → Flag
other announcement = withdrawal
other withdrawal = announcement

module _ {K : Type 0} ⦃e : Eq K⦄ where
  -- A node that overrides a change counts as the opposite of the change.
  overriding :
      (a b k : K) (x y f : Flag)
      → ((a =? b) && not (flag_eq x y)) ≡ true
      → added y f b k ≡ added (other x) f a k
  overriding a b k announcement announcement f h = ground arith
  overriding a b k withdrawal withdrawal f h = ground arith
  overriding a b k announcement withdrawal f h =
      ap (λ c. added withdrawal f c k) (sym ((e.beq_iff a b).0 (ground arith)))
  overriding a b k withdrawal announcement f h =
      ap (λ c. added announcement f c k) (sym ((e.beq_iff a b).0 (ground arith)))

  not_overriding :
      (a b : K) (x y : Flag) → ((a =? b) && not (flag_eq x y)) ≡ false → added y (other x) b a ≡ 0
  not_overriding a b announcement announcement h = refl
  not_overriding a b withdrawal withdrawal h = refl
  not_overriding a b announcement withdrawal h = elim (Bool-cases (b =? a)) [
    | inr n ↦ ground arith
    | inl y ↦ ground (arith, (e.beq_iff a b).1 (sym ((e.beq_iff b a).0 y)))
  ]
  not_overriding a b withdrawal announcement h = elim (Bool-cases (b =? a)) [
    | inr n ↦ ground arith
    | inl y ↦ ground (arith, (e.beq_iff a b).1 (sym ((e.beq_iff b a).0 y)))
  ]

  -- A node that is found is removed: what the delta would have added under its flag, the list
  -- loses under the other.
  cancel-some :
      (delta : Delta K) (nodes : List (Delta K)) (k : K) (f : Flag) {l : List (Delta K)}
      → cancel delta nodes ≡ some l
      → tally f k nodes ≡ tally f k l + added (other delta.flags) f delta.key k
  unfolding cancel
  cancel-some delta [] k f h = cc
  cancel-some delta (ptr ∷ nodes) k f {l} h =
      elim (Bool-cases ((delta.key =? ptr.key) && not (flag_eq delta.flags ptr.flags))) [
        | inl found ↦
            let same : nodes ≡ l = ground arith in
            omega (
              arith,
              ap (tally f k) same,
              overriding delta.key ptr.key k delta.flags ptr.flags f found,
            )
        | inr kept ↦
            go (cancel delta nodes) refl (rw (kept, cancel) at h)
              (λ l' e. cancel-some delta nodes k f {l = l'} e)
      ]
    where
      go :
          (r : Option (List (Delta K)))
          → cancel delta nodes ≡ r
          → elim r [ none ↦ none | some l ↦ some (ptr ∷ l) ] ≡ some l
          → ((l' : List (Delta K))
              → cancel delta nodes ≡ some l'
              → tally f k nodes ≡ tally f k l' + added (other delta.flags) f delta.key k)
          → tally f k (ptr ∷ nodes) ≡ tally f k l + added (other delta.flags) f delta.key k
      go none e q ih = cc
      go (some l') e q ih =
          let same : ptr ∷ l' ≡ l = ground arith in omega (arith, ap (tally f k) same, ih l' e)

  cancel-none :
      (delta : Delta K) (nodes : List (Delta K))
      → cancel delta nodes ≡ none
      → tally (other delta.flags) delta.key nodes ≡ 0
  unfolding cancel
  cancel-none delta [] h = refl
  cancel-none delta (ptr ∷ nodes) h =
      elim (Bool-cases ((delta.key =? ptr.key) && not (flag_eq delta.flags ptr.flags))) [
        | inl found ↦ ground arith
        | inr kept ↦
            go (cancel delta nodes) refl (rw (kept, cancel) at h)
              (not_overriding delta.key ptr.key delta.flags ptr.flags kept)
              (cancel-none delta nodes)
      ]
    where
      go :
          (r : Option (List (Delta K)))
          → cancel delta nodes ≡ r
          → elim r [ none ↦ none | some l ↦ some (ptr ∷ l) ] ≡ none
          → added ptr.flags (other delta.flags) ptr.key delta.key ≡ 0
          → (cancel delta nodes ≡ none → tally (other delta.flags) delta.key nodes ≡ 0)
          → tally (other delta.flags) delta.key (ptr ∷ nodes) ≡ 0
      go none e q z ih = omega (arith, z, ih e)
      go (some l') e q z ih = cc

  -- The filtered list holds the net effect of the changes that it was given: of a key, as many
  -- announcements as it was announced more often than withdrawn, and the other way around.
  abbrev pub Net : List (Delta K) → List (Delta K) → Type 0
  Net changes nodes =
      (k : K)
      → (tally announcement k nodes ≡ tally announcement k changes - tally withdrawal k changes)
        × (tally withdrawal k nodes ≡ tally withdrawal k changes - tally announcement k changes)

  Net-removed :
      (x : Flag) (v k : K) (nodes changes l : List (Delta K))
      → ((f : Flag) → tally f k nodes ≡ tally f k l + added (other x) f v k)
      → Net changes nodes
      → (tally announcement k l
          ≡ (tally announcement k changes + added x announcement v k)
            - (tally withdrawal k changes + added x withdrawal v k))
        × (tally withdrawal k l
            ≡ (tally withdrawal k changes + added x withdrawal v k)
              - (tally announcement k changes + added x announcement v k))
  Net-removed announcement v k nodes changes l h net =
      let n = net k in omega (arith, h announcement, h withdrawal, n.0, n.1)
  Net-removed withdrawal v k nodes changes l h net =
      let n = net k in omega (arith, h announcement, h withdrawal, n.0, n.1)

  Net-inserted :
      (x : Flag) (v k : K) (nodes changes : List (Delta K))
      → tally (other x) v nodes ≡ 0
      → Net changes nodes
      → (added x announcement v k + tally announcement k nodes
          ≡ (tally announcement k changes + added x announcement v k)
            - (tally withdrawal k changes + added x withdrawal v k))
        × (added x withdrawal v k + tally withdrawal k nodes
            ≡ (tally withdrawal k changes + added x withdrawal v k)
              - (tally announcement k changes + added x announcement v k))
  Net-inserted announcement v k nodes changes h net =
      let n = net k in
      elim (Bool-cases (v =? k)) [
        | inr differ ↦ rw differ (omega (arith, n.0, n.1))
        | inl same ↦
            let z = ap (λ c. tally withdrawal c nodes) (sym ((e.beq_iff v k).0 same)) ∙ h in
            rw same (omega (arith, n.0, n.1, z))
      ]
  Net-inserted withdrawal v k nodes changes h net =
      let n = net k in
      elim (Bool-cases (v =? k)) [
        | inr differ ↦ rw differ (omega (arith, n.0, n.1))
        | inl same ↦
            let z = ap (λ c. tally announcement c nodes) (sym ((e.beq_iff v k).0 same)) ∙ h in
            rw same (omega (arith, n.0, n.1, z))
      ]

  Net-snoc :
      (delta : Delta K) (changes l : List (Delta K))
      → ((k : K)
          → (tally announcement k l
              ≡ (tally announcement k changes + added delta.flags announcement delta.key k)
                - (tally withdrawal k changes + added delta.flags withdrawal delta.key k))
            × (tally withdrawal k l
                ≡ (tally withdrawal k changes + added delta.flags withdrawal delta.key k)
                  - (tally announcement k changes + added delta.flags announcement delta.key k)))
      → Net (changes ++ delta ∷ []) l
  Net-snoc delta changes l h k =
      let n = h k in
      omega (
        arith,
        n.0,
        n.1,
        tally-append announcement k changes (delta ∷ []),
        tally-append withdrawal k changes (delta ∷ []),
      )

  -- One more change, whether it removes a node or is inserted.
  Net-cancel-some :
      (delta : Delta K) (changes nodes : List (Delta K)) {l : List (Delta K)}
      → cancel delta nodes ≡ some l
      → Net changes nodes
      → Net (changes ++ delta ∷ []) l
  Net-cancel-some delta changes nodes {l} h net = Net-snoc delta changes l λ k.
      Net-removed delta.flags delta.key k nodes changes l (λ f. cancel-some delta nodes k f h) net

  Net-cancel-none :
      (delta : Delta K) (changes nodes : List (Delta K))
      → cancel delta nodes ≡ none
      → Net changes nodes
      → Net (changes ++ delta ∷ []) (delta ∷ nodes)
  Net-cancel-none delta changes nodes h net =
      Net-snoc delta changes (delta ∷ nodes)
        λ k. Net-inserted delta.flags delta.key k nodes changes (cancel-none delta nodes h) net

  pub Net-ovrd_remove :
      (changes : List (Delta K)) (delta : Delta K) (nodes : List (Delta K)) (m : Memory)
      {r : List (Delta K) × Memory}
      → ovrd_remove delta nodes m ≡ ok r
      → Net changes nodes
      → Net (changes ++ delta ∷ []) r.0
  unfolding ovrd_remove
  Net-ovrd_remove changes delta nodes m {r} h net = go (cancel delta nodes) refl
    where
      go : (o : Option (List (Delta K))) → cancel delta nodes ≡ o → Net (changes ++ delta ∷ []) r.0
      go (some l) e =
          subst (λ (q : List (Delta K) × Memory). Net (changes ++ delta ∷ []) q.0)
            (ok-injective (rw (e, ovrd_remove) at h)) (Net-cancel-some delta changes nodes e net)
      go none e =
          let (u, m', h1, h2) =
            >>=-eq-ok malloc (λ _. pure (delta ∷ nodes)) m (rw (e, ovrd_remove) at h) in
          subst (λ (q : List (Delta K) × Memory). Net (changes ++ delta ∷ []) q.0) (ok-injective h2)
            (Net-cancel-none delta changes nodes e net)
