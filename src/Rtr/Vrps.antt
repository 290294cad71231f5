-- ===== src/Rtr/Vrps.antt =====
-- rtr/db/vrps.c: the current table, its serial number, and the deltas that lead to it.
--
-- The locks are not modelled: an operation is one step. The validation and the application of
-- SLURM, which make the new table, are an argument of the update. After an error the state is
-- not described.
pub mod Chain
pub mod Serves
pub mod Groups
pub mod Update
pub mod Answer
pub mod Found
pub mod Session
use fort_validator.Base.{
  ℕ, zero, suc, ◌+◌, ◌-◌, ◌*◌, ◌/◌, ◌%◌, ◌^◌, ◌≡◌, Bool, true, false, not, Option, none, some, List,
  [], ◌∷◌, ◌&&◌, ◌||◌, ◌==◌, if◌then◌else◌, ltb, leb, length, arith,
}
use fort_validator.Base.Results.{Result, ok, err, crit, esrch, eagain, and_then, walk}
use fort_validator.Base.Memory.{Memory, Alloc, pure, malloc, ◌>>=◌, ◌>>◌}
use fort_validator.Rtr.Keys.{HashTable}
use fort_validator.Rtr.Vrp.{Vrp, RouterKey, vrp_keys, router_key_keys}
use fort_validator.Rtr.ArrayList
use fort_validator.Rtr.ArrayList.{ArrayList}
use fort_validator.Rtr.Deltas.{Deltas, deltas_create, deltas_is_empty}
use fort_validator.Rtr.Table.{
  Db, compute_deltas, db_table_roa_count, db_table_router_key_count, db_table_foreach_roa,
  db_table_foreach_router_key,
}
use fort_validator.Rtr.Filter.{DeltaGroup}
use fort_validator.Rtr.Clients.{Client, clients_get_min_serial}

-- serial_t is a 32-bit unsigned integer.
abbrev pub next : ℕ → ℕ
next serial = (serial + 1) % 2 ^ 32

abbrev pub previous : ℕ → ℕ
previous serial = (serial + (2 ^ 32 - 1)) % 2 ^ 32

-- while (db->len < db->capacity / 2) db->capacity /= 2, with fuel; out of fuel is `crit`.
unfoldable pub shrink : ℕ → ℕ → ℕ → Alloc ℕ
shrink zero len capacity = λ m. crit
shrink (suc fuel) len capacity =
    let rest = shrink fuel len (capacity / 2) in
    if ltb len (capacity / 2) then rest else pure capacity

-- `start` is the part of the array that stays.
unfoldable pub resize_deltas_db :
    ArrayList DeltaGroup → List DeltaGroup → Alloc (ArrayList DeltaGroup)
unfolding shrink malloc
resize_deltas_db db start = do
  capacity ← shrink (db.capacity + 1) (length start) db.capacity
  malloc
  pure (record { array = start; capacity = capacity })

-- The groups from the first one on whose serial is not below the minimum.
unfoldable pub not_older : ℕ → List DeltaGroup → List DeltaGroup
not_older min_serial [] = []
not_older min_serial (group ∷ groups) =
    if leb min_serial group.serial then group ∷ groups else not_older min_serial groups

-- The loop of vrps_get_deltas_from(): what comes after the group that has the serial `from`.
unfoldable pub collect :
    ℕ
    → Bool
    → List DeltaGroup
    → ℕ
    → ArrayList DeltaGroup
    → Alloc (Bool × (ℕ × ArrayList DeltaGroup))
collect from found [] to result = pure (found, (to, result))
collect from false (group ∷ groups) to result =
    if group.serial == from
    then collect from true groups group.serial result
    else collect from false groups to result
collect from true (group ∷ groups) to result = do
  result1 ← ArrayList.add result group
  collect from true groups group.serial result1

module _ (rs : HashTable Vrp) (ks : HashTable RouterKey) where
  -- struct state, without the SLURM.
  pub record State : Type 0 where
    pub base : Option (Db rs ks)
    pub deltas : ArrayList DeltaGroup
    pub next_serial : ℕ
    pub v0_session_id : ℕ
    pub v1_session_id : ℕ

  -- The state at the time `now`, in seconds.
  unfoldable pub vrps_init : ℕ → State
  vrps_init now =
      let v0 = now % 2 ^ 16 in
      record {
        base = none;
        deltas = ArrayList.init;
        next_serial = 0;
        v0_session_id = v0;
        v1_session_id = if v0 == 0 then 2 ^ 16 - 1 else v0 - 1;
      }

  unfoldable pub create_empty_delta : State → Alloc State
  unfolding deltas_create
  create_empty_delta state = do
    deltas ← deltas_create
    l ← ArrayList.add state.deltas (record { serial = state.next_serial; deltas = deltas })
    pure (record state { deltas = l })

  unfoldable pub vrps_purge : List Client → State → Alloc State
  unfolding clients_get_min_serial resize_deltas_db not_older
  vrps_purge clients state = elim (clients_get_min_serial clients) [
    | none ↦ create_empty_delta (record state { deltas = ArrayList.init })
    | some min_serial ↦
        let start = not_older min_serial state.deltas.array in
        if length start == length state.deltas.array || length start == 0
        then pure state
        else do l ← resize_deltas_db state.deltas start; pure (record state { deltas = l })
  ]

  -- The deltas are stored if a client cares.
  unfoldable pub store_deltas : List Client → Deltas → State → Alloc State
  unfolding clients_get_min_serial
  store_deltas clients deltas state = elim (clients_get_min_serial clients) [
    | none ↦ pure state
    | some min_serial ↦ do
      l ← ArrayList.add state.deltas (record { serial = state.next_serial; deltas = deltas })
      pure (record state { deltas = l })
  ]

  -- state.base = new_base; state.next_serial++; *changed = true;
  abbrev pub publish : Db rs ks → State → Alloc (Bool × State)
  publish new_base state =
      pure (true, record state { base = some new_base; next_serial = next state.next_serial })

  -- What __vrps_update() does with the table that the validation and SLURM made. The two lists
  -- are the clients at the two times at which it asks for the minimum serial. The result is
  -- `changed`, and the state.
  unfoldable pub vrps_update :
      List Client → List Client → Result (Db rs ks) → State → Alloc (Bool × State)
  unfolding store_deltas vrps_purge create_empty_delta
  vrps_update clients1 clients2 (err error) state = λ m. err error
  vrps_update clients1 clients2 crit state = λ m. crit
  vrps_update clients1 clients2 (ok new_base) state = elim state.base [
    | none ↦
        if (db_table_roa_count rs ks new_base + db_table_router_key_count rs ks new_base) % 2 ^ 32
          == 0
        then pure (false, state)
        else do state1 ← create_empty_delta state; publish new_base state1
    | some base ↦ do
      deltas ← compute_deltas rs ks base new_base
      if deltas_is_empty deltas then pure (false, state) else do
        state1 ← store_deltas clients1 deltas state
        state2 ← vrps_purge clients2 state1
        publish new_base state2
  ]

  -- The serial of the newest group, and the groups, which are added to an empty array.
  unfoldable pub vrps_get_deltas_from : ℕ → State → Alloc (ℕ × ArrayList DeltaGroup)
  unfolding collect
  vrps_get_deltas_from from state = elim state.base [
    | none ↦ (λ m. err eagain)
    | some base ↦ do
      (found, result) ← collect from false state.deltas.array 0 ArrayList.init
      if found then pure result else (λ m. err esrch)
  ]

  unfoldable pub get_last_serial_number : State → Result ℕ
  get_last_serial_number state = elim state.base [
    | none ↦ err eagain
    | some base ↦ ok (previous state.next_serial)
  ]

  unfoldable pub get_current_session_id : ℕ → State → ℕ
  get_current_session_id rtr_version state =
      if rtr_version == 1 then state.v1_session_id else state.v0_session_id

  unfoldable pub vrps_foreach_base :
      {S : Type 0}
      → (Vrp → S → Result (Unit {0}) × S)
      → (RouterKey → S → Result (Unit {0}) × S)
      → State
      → S
      → Result (Unit {0}) × S
  unfolding db_table_foreach_roa db_table_foreach_router_key
  vrps_foreach_base cb_roa cb_rk state s = elim state.base [
    | none ↦ (err eagain, s)
    | some base ↦
        and_then (db_table_foreach_roa rs ks base cb_roa s)
          (db_table_foreach_router_key rs ks base cb_rk)
  ]
