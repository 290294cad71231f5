-- ===== src/Rtr/Vrps/Serves.antt =====
-- The published versions of vrps.c, and the delta groups that serve the routers that have them.
use fort_validator.Base.{
  ℕ, ◌≡◌, ◌≢◌, refl, sym, subst, leb, List, [], ◌∷◌, ◌++◌, Bool-cases, inl, inr,
}
use fort_validator.Rtr.Keys.{HashTable}
use fort_validator.Rtr.Vrp.{Vrp, RouterKey, vrp_keys, router_key_keys}
use fort_validator.Rtr.Table.{Db}
use fort_validator.Rtr.Filter.{DeltaGroup}
use fort_validator.Rtr.Vrps.{not_older}
use fort_validator.Rtr.Vrps.Chain.{Leads, Chain, done, link, Chain-snoc}

module _ (rs : HashTable Vrp) (ks : HashTable RouterKey) where
  -- A published version, with the serial that the routers were told.
  pub record Version : Type 0 where
    pub serial : ℕ
    pub table : Db rs ks

  pub data Published (v : Version) : List Version → Type 0 where
    newest : {versions : List Version} → Published v (v ∷ versions)
    older :
        {w : Version} {versions : List Version} → Published v versions → Published v (w ∷ versions)

  -- Each group has the serial of a published version, from which the groups after it lead to the
  -- newest version, and the last group has the serial of the newest version.
  pub data Serves (v : Version) (versions : List Version) : List DeltaGroup → Type 0 where
    last_one : {g : DeltaGroup} → g.serial ≡ v.serial → Serves v versions (g ∷ [])
    serves :
        {g : DeltaGroup} {groups : List DeltaGroup} (table : Db rs ks)
        → Published (record { serial = g.serial; table = table }) (v ∷ versions)
        → Chain rs ks v.table table groups
        → Serves v versions groups
        → Serves v versions (g ∷ groups)

  pub Serves-snoc :
      {v w : Version} {versions : List Version} {groups : List DeltaGroup} (g : DeltaGroup)
      → Serves v versions groups
      → Leads rs ks v.table w.table g.deltas
      → g.serial ≡ w.serial
      → Serves w (v ∷ versions) (groups ++ g ∷ [])
  Serves-snoc {v} {w} {versions} g (last_one {g = g0} e) l n =
      serves v.table
        (older (
          subst (λ s. Published (record { serial = s; table = v.table }) (v ∷ versions)) (sym e)
            newest))
        (link l done) (last_one n)
  Serves-snoc g (serves table p c s) l n =
      serves table (older p) (Chain-snoc rs ks g c l) (Serves-snoc g s l n)

  pub Serves-not_older :
      {v : Version} {versions : List Version} {groups : List DeltaGroup} (min_serial : ℕ)
      → Serves v versions groups
      → not_older min_serial groups ≢ []
      → Serves v versions (not_older min_serial groups)
  unfolding not_older
  Serves-not_older min_serial (last_one {g} e) some_left =
      elim (Bool-cases (leb min_serial g.serial)) [
        | inl y ↦ rw y (last_one e)
        | inr n ↦ elim (some_left (rw n refl)) [ ]
      ]
  Serves-not_older min_serial (serves {g} {groups} table p c s) some_left =
      elim (Bool-cases (leb min_serial g.serial)) [
        | inl y ↦ rw y (serves table p c s)
        | inr n ↦ rw n (Serves-not_older min_serial s (rw (n, not_older) at some_left))
      ]
