-- ===== src/Rtr/Vrps/Chain.antt =====
-- What the deltas of vrps.c say: each group leads from one table to the next.
use fort_validator.Base.{
  ℕ, ◌+◌, ◌-◌, ◌≡◌, refl, Bool, true, false, not, ◌&&◌, List, [], ◌∷◌, ◌++◌, arith,
}
use fort_validator.Rtr.Keys.{HashTable, bit, count}
use fort_validator.Rtr.Vrp.{
  Vrp, RouterKey, announcement, withdrawal, Delta, vrp_keys, router_key_keys,
}
use fort_validator.Rtr.Deltas.{Deltas}
use fort_validator.Rtr.Deltas.Events.{
  payloads, keys, tally, tally-append, vrp_events, key_events, tally-vrp_events, tally-key_events,
}
use fort_validator.Rtr.Table.{Db, compute_deltas}
use fort_validator.Rtr.Table.Difference.{count-compute_deltas_roas, count-compute_deltas-keys}
use fort_validator.Rtr.Filter.{DeltaGroup}
use fort_validator.Rtr.Filter.Cancel.{Net}
use fort_validator.Rtr.Filter.Net.{all_vrp_events, all_key_events}
use fort_validator.Base.Results.{ok}
use fort_validator.Base.Memory.{Memory}

bit_exchange : (a b : Bool) → bit (b && not a) + bit a ≡ bit (a && not b) + bit b
bit_exchange true true = refl
bit_exchange true false = refl
bit_exchange false true = refl
bit_exchange false false = refl

-- Announcements and withdrawals that balance two memberships, without what they have in common.
net_bits :
    (old new : Bool) (a w : ℕ) {a' w' : ℕ}
    → a + bit old ≡ w + bit new
    → a' ≡ a - w
    → w' ≡ w - a
    → (a' ≡ bit (new && not old)) × (w' ≡ bit (old && not new))
net_bits true true a w e p q = omega (arith, e, p, q)
net_bits true false a w e p q = omega (arith, e, p, q)
net_bits false true a w e p q = omega (arith, e, p, q)
net_bits false false a w e p q = omega (arith, e, p, q)

module _ (rs : HashTable Vrp) (ks : HashTable RouterKey) where
  -- The deltas announce what only the new table has and withdraw what only the old table has.
  abbrev pub Leads : Db rs ks → Db rs ks → Deltas → Type 0
  Leads old new d =
      ((k : Vrp)
        → (count k (payloads announcement d) ≡ bit (rs.find new.roas k && not (rs.find old.roas k)))
          × (count k (payloads withdrawal d)
              ≡ bit (rs.find old.roas k && not (rs.find new.roas k))))
      × ((k : RouterKey)
          → (count k (keys announcement d)
              ≡ bit (ks.find new.router_keys k && not (ks.find old.router_keys k)))
            × (count k (keys withdrawal d)
                ≡ bit (ks.find old.router_keys k && not (ks.find new.router_keys k))))

  pub compute_deltas-Leads :
      (old new : Db rs ks) (m : Memory) {r : Deltas × Memory}
      → compute_deltas rs ks old new m ≡ ok r
      → Leads old new r.0
  compute_deltas-Leads old new m {r} h = (
    (λ k. count-compute_deltas_roas rs ks old new m k {r = r} h),
    λ k. count-compute_deltas-keys rs ks old new m k {r = r} h,
  )

  -- The groups lead, one after the other, from the first table to the second.
  pub data Chain (new : Db rs ks) : Db rs ks → List DeltaGroup → Type 0 where
    done : Chain new new []
    link :
        {old next : Db rs ks} {g : DeltaGroup} {groups : List DeltaGroup}
        → Leads old next g.deltas
        → Chain new next groups
        → Chain new old (g ∷ groups)

  pub Chain-snoc :
      {new newest old : Db rs ks} {groups : List DeltaGroup} (g : DeltaGroup)
      → Chain new old groups
      → Leads new newest g.deltas
      → Chain newest old (groups ++ g ∷ [])
  Chain-snoc g done l = link l done
  Chain-snoc g (link l' c) l = link l' (Chain-snoc g c l)

  balance_vrps :
      {new old : Db rs ks} {groups : List DeltaGroup}
      → Chain new old groups
      → (k : Vrp)
      → tally announcement k (all_vrp_events groups) + bit (rs.find old.roas k)
        ≡ tally withdrawal k (all_vrp_events groups) + bit (rs.find new.roas k)
  balance_vrps done k = refl
  balance_vrps {new} {old} {groups} (link {next} {g} {groups = rest} l c) k =
      let n = l.0 k in
      omega (
        arith,
        balance_vrps c k,
        n.0,
        n.1,
        bit_exchange (rs.find old.roas k) (rs.find next.roas k),
        tally-append announcement k (vrp_events g.serial g.deltas) (all_vrp_events rest),
        tally-append withdrawal k (vrp_events g.serial g.deltas) (all_vrp_events rest),
        tally-vrp_events g.serial g.deltas announcement k,
        tally-vrp_events g.serial g.deltas withdrawal k,
      )

  balance_keys :
      {new old : Db rs ks} {groups : List DeltaGroup}
      → Chain new old groups
      → (k : RouterKey)
      → tally announcement k (all_key_events groups) + bit (ks.find old.router_keys k)
        ≡ tally withdrawal k (all_key_events groups) + bit (ks.find new.router_keys k)
  balance_keys done k = refl
  balance_keys {new} {old} {groups} (link {next} {g} {groups = rest} l c) k =
      let n = l.1 k in
      omega (
        arith,
        balance_keys c k,
        n.0,
        n.1,
        bit_exchange (ks.find old.router_keys k) (ks.find next.router_keys k),
        tally-append announcement k (key_events g.serial g.deltas) (all_key_events rest),
        tally-append withdrawal k (key_events g.serial g.deltas) (all_key_events rest),
        tally-key_events g.serial g.deltas announcement k,
        tally-key_events g.serial g.deltas withdrawal k,
      )

  -- The filtered deltas of a chain are the difference of the two tables, each change once.
  abbrev pub Difference : Db rs ks → Db rs ks → List (Delta Vrp) → List (Delta RouterKey) → Type 0
  Difference old new prefixes router_keys =
      ((k : Vrp)
        → (tally announcement k prefixes ≡ bit (rs.find new.roas k && not (rs.find old.roas k)))
          × (tally withdrawal k prefixes ≡ bit (rs.find old.roas k && not (rs.find new.roas k))))
      × ((k : RouterKey)
          → (tally announcement k router_keys
              ≡ bit (ks.find new.router_keys k && not (ks.find old.router_keys k)))
            × (tally withdrawal k router_keys
                ≡ bit (ks.find old.router_keys k && not (ks.find new.router_keys k))))

  pub Chain-Difference :
      {new old : Db rs ks} {groups : List DeltaGroup} (prefixes : List (Delta Vrp))
      (router_keys : List (Delta RouterKey))
      → Chain new old groups
      → Net (all_vrp_events groups) prefixes
      → Net (all_key_events groups) router_keys
      → Difference old new prefixes router_keys
  Chain-Difference {new} {old} prefixes router_keys c p r = (
    (λ k.
        net_bits (rs.find old.roas k) (rs.find new.roas k) _ _ (balance_vrps c k) (p k).0 (p k).1),
    λ k.
        net_bits (ks.find old.router_keys k) (ks.find new.router_keys k) _ _ (balance_keys c k)
          (r k).0 (r k).1,
  )
