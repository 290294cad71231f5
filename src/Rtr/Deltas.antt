-- ===== src/Rtr/Deltas.antt =====
-- rtr/db/delta.c: the changes from one version of the database to the next.
pub mod Events
use fort_validator.Base.{ℕ, Bool, List, [], ◌∷◌, ◌&&◌, ◌==◌, length}
use fort_validator.Base.Results.{Result, and_then, walk}
use fort_validator.Base.Memory.{Alloc, malloc, pure, ◌>>=◌, ◌>>◌}
use fort_validator.Rtr.ArrayList
use fort_validator.Rtr.ArrayList.{ArrayList}
use fort_validator.Rtr.Vrp.{Address, v4, v6, Vrp, RouterKey, Flag, announcement, withdrawal, Delta}

-- struct delta_v4 and struct delta_v6; the address is an IPv4 number or the 16 bytes of IPv6.
pub record DeltaRoa (A : Type 0) : Type 0 where
  pub as_number : ℕ
  pub addr : A
  pub len : ℕ
  pub max_length : ℕ

-- struct deltas, without the reference count.
pub record Deltas : Type 0 where
  pub v4_adds : ArrayList (DeltaRoa ℕ)
  pub v4_removes : ArrayList (DeltaRoa ℕ)
  pub v6_adds : ArrayList (DeltaRoa (List ℕ))
  pub v6_removes : ArrayList (DeltaRoa (List ℕ))
  pub rk_adds : ArrayList RouterKey
  pub rk_removes : ArrayList RouterKey

abbrev pub no_deltas : Deltas
no_deltas = record {
  v4_adds = ArrayList.init;
  v4_removes = ArrayList.init;
  v6_adds = ArrayList.init;
  v6_removes = ArrayList.init;
  rk_adds = ArrayList.init;
  rk_removes = ArrayList.init;
}

unfoldable pub deltas_create : Alloc Deltas
unfolding malloc
deltas_create = malloc >> pure no_deltas

unfoldable pub deltas_add_roa_v4 : Deltas → DeltaRoa ℕ → Flag → Alloc Deltas
deltas_add_roa_v4 d delta announcement = do
  l ← ArrayList.add d.v4_adds delta
  pure (record d { v4_adds = l })
deltas_add_roa_v4 d delta withdrawal = do
  l ← ArrayList.add d.v4_removes delta
  pure (record d { v4_removes = l })

unfoldable pub deltas_add_roa_v6 : Deltas → DeltaRoa (List ℕ) → Flag → Alloc Deltas
deltas_add_roa_v6 d delta announcement = do
  l ← ArrayList.add d.v6_adds delta
  pure (record d { v6_adds = l })
deltas_add_roa_v6 d delta withdrawal = do
  l ← ArrayList.add d.v6_removes delta
  pure (record d { v6_removes = l })

unfoldable pub deltas_add_router_key : Deltas → RouterKey → Flag → Alloc Deltas
deltas_add_router_key d key announcement = do
  l ← ArrayList.add d.rk_adds key
  pure (record d { rk_adds = l })
deltas_add_router_key d key withdrawal = do
  l ← ArrayList.add d.rk_removes key
  pure (record d { rk_removes = l })

unfoldable pub deltas_is_empty : Deltas → Bool
deltas_is_empty d =
    length d.v4_adds.array == 0
    && length d.v4_removes.array == 0
    && length d.v6_adds.array == 0
    && length d.v6_removes.array == 0
    && length d.rk_adds.array == 0
    && length d.rk_removes.array == 0

abbrev pub vrp_of_v4 : DeltaRoa ℕ → Vrp
vrp_of_v4 d = record {
  asn = d.as_number;
  prefix = v4 d.addr;
  prefix_length = d.len;
  max_prefix_length = d.max_length;
}

abbrev pub vrp_of_v6 : DeltaRoa (List ℕ) → Vrp
vrp_of_v6 d = record {
  asn = d.as_number;
  prefix = v6 d.addr;
  prefix_length = d.len;
  max_prefix_length = d.max_length;
}

module _ {S : Type 0} where
  unfoldable pub foreach_v4 :
      List (DeltaRoa ℕ)
      → (Delta Vrp → S → Result (Unit {0}) × S)
      → ℕ
      → Flag
      → S
      → Result (Unit {0}) × S
  foreach_v4 array cb serial flags =
      walk (λ d. cb (record { serial = serial; key = vrp_of_v4 d; flags = flags })) array

  unfoldable pub foreach_v6 :
      List (DeltaRoa (List ℕ))
      → (Delta Vrp → S → Result (Unit {0}) × S)
      → ℕ
      → Flag
      → S
      → Result (Unit {0}) × S
  foreach_v6 array cb serial flags =
      walk (λ d. cb (record { serial = serial; key = vrp_of_v6 d; flags = flags })) array

  unfoldable pub foreach_rk :
      List RouterKey
      → (Delta RouterKey → S → Result (Unit {0}) × S)
      → ℕ
      → Flag
      → S
      → Result (Unit {0}) × S
  foreach_rk array cb serial flags =
      walk (λ k. cb (record { serial = serial; key = k; flags = flags })) array

  unfoldable pub deltas_foreach :
      ℕ
      → Deltas
      → (Delta Vrp → S → Result (Unit {0}) × S)
      → (Delta RouterKey → S → Result (Unit {0}) × S)
      → S
      → Result (Unit {0}) × S
  deltas_foreach serial d cb_vrp cb_rk s =
      and_then (foreach_v4 d.v4_adds.array cb_vrp serial announcement s) λ s.
        and_then (foreach_v4 d.v4_removes.array cb_vrp serial withdrawal s) λ s.
          and_then (foreach_v6 d.v6_adds.array cb_vrp serial announcement s) λ s.
            and_then (foreach_v6 d.v6_removes.array cb_vrp serial withdrawal s) λ s.
              and_then (foreach_rk d.rk_adds.array cb_rk serial announcement s)
                (foreach_rk d.rk_removes.array cb_rk serial withdrawal)
