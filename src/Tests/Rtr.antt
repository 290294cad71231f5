-- ===== src/Tests/Rtr.antt =====
-- The database of the RTR server at concrete tables.
use fort_validator.Base.{
  ℕ, ◌<◌, ◌^◌, length, arith, ◌≡◌, refl, subst, true, false, not, ◌&&◌, none, some, List, [], ◌∷◌,
  ◌⊎◌, All,
}
use fort_validator.Base.Results.{Result, ok, err, esrch, enomem, walk}
use fort_validator.Base.Memory.{Memory, malloc}
use fort_validator.Rtr.Keys.{HashTable, bit, count}
use fort_validator.Rtr.Vrp.{
  vrp_eq, router_key_eq, address_eq, bytes_eq, Vrp, RouterKey, announcement, withdrawal, v4,
  vrp_keys, router_key_keys,
}
use fort_validator.Rtr.ArrayList
use fort_validator.Rtr.ArrayList.{ArrayList}
use fort_validator.Rtr.ArrayList.Room.{fails, add-cases}
use fort_validator.Rtr.Deltas.{
  deltas_add_roa_v4, deltas_add_router_key, deltas_is_empty, foreach_v4, foreach_v6, foreach_rk,
  Deltas, deltas_foreach, no_deltas,
}
use fort_validator.Rtr.Table.{
  add_roa_deltas, add_roa_delta, add_router_key_deltas, db_table_roa_count,
  db_table_router_key_count, Db, compute_deltas,
}
use fort_validator.Rtr.Table.Difference.{count-compute_deltas_roas, count-compute_deltas-keys}
use fort_validator.Rtr.Deltas.Events.{payloads, keys}
use fort_validator.Rtr.Filter.{
  vrp_ovrd_remove, router_key_ovrd_remove, ovrd_remove, cancel, DeltaGroup, SortedLists,
  filter_deltas,
}
use fort_validator.Rtr.Table.Merge.{find-db_table_merge, find-db_table_clone}
use fort_validator.Base.{◌||◌}
use fort_validator.Base.Memory.{for_each}
use fort_validator.Rtr.Table.{
  db_table_clone, db_table_merge, duplicate_roa, rtrhandler_handle_roa_v4, duplicate_key,
  rtrhandler_handle_router_key, add_roa, add_router_key,
}
use fort_validator.Rtr.Filter.Cancel.{Net}
use fort_validator.Rtr.Filter.Net.{all_vrp_events, all_key_events, filter_deltas-Net}
use fort_validator.Rtr.Clients.{Client, clients_get_min_serial}
use fort_validator.Rtr.Vrps.{
  State, vrps_init, vrps_update, get_last_serial_number, vrps_get_deltas_from,
}
use fort_validator.Rtr.Vrps.Chain.{Difference}
use fort_validator.Rtr.Vrps.Serves.{Version, Published}
use fort_validator.Rtr.Vrps.Update.{IsConsistent, versions_after, vrps_update-IsConsistent}
use fort_validator.Rtr.Vrps.Answer.{
  Run, start, updated, Run-IsConsistent, filtered_deltas-Difference, get_last_serial_number-newest,
}
use fort_validator.Rtr.Vrps.Found.{Divided, NoneHas, vrps_get_deltas_from-found}
use fort_validator.Rtr.Clients.Minimum.{Reports, IsLowest, clients_get_min_serial-cases}
use fort_validator.Tests.Tables.{list_table, items_of, find_in}

abbrev roa : ℕ → Vrp
roa asn = record { asn = asn; prefix = v4 0xC000_0200; prefix_length = 24; max_prefix_length = 24 }

abbrev key : ℕ → RouterKey
key asn = record { ski = 1 ∷ 2 ∷ []; as_number = asn; spk = 3 ∷ [] }

abbrev roas : HashTable Vrp
roas = list_table

abbrev router_keys : HashTable RouterKey
router_keys = list_table

abbrev table1 : Db roas router_keys
table1 = record { roas = roa 1 ∷ roa 2 ∷ []; router_keys = key 1 ∷ [] }

abbrev table2 : Db roas router_keys
table2 = record { roas = roa 2 ∷ roa 3 ∷ []; router_keys = [] }

abbrev clients : List Client
clients =
    record {
      fd = 3;
      addr = [];
      tid = 1;
      serial_number = 0;
      serial_number_set = true;
      rtr_version = 1;
      rtr_version_set = true;
    }
    ∷ []

abbrev result_of : {A : Type 0} → A → Result (A × Memory) → A
result_of a (ok (b, m)) = b
result_of a _ = a

abbrev state0 : State roas router_keys
state0 = vrps_init roas router_keys 1000

unfoldable state1 : State roas router_keys
state1 = (result_of (false, state0) (vrps_update roas router_keys [] [] (ok table1) state0 [])).1

unfoldable state2 : State roas router_keys
unfolding state1
state2 =
    (result_of (false, state1)
      (vrps_update roas router_keys clients clients (ok table2) state1 [])).1

update1 : vrps_update roas router_keys [] [] (ok table1) state0 [] ≡ ok ((true, state1), [])
unfolding vrps_update vrps_init state1 state2 db_table_roa_count db_table_router_key_count items_of
    find_in vrp_eq router_key_eq address_eq bytes_eq ArrayList.add ArrayList.make_room
    ArrayList.grow malloc
update1 = refl

update2 :
    vrps_update roas router_keys clients clients (ok table2) state1 [] ≡ ok ((true, state2), [])
unfolding vrps_update vrps_init state1 state2 db_table_roa_count db_table_router_key_count items_of
    find_in vrp_eq router_key_eq address_eq bytes_eq ArrayList.add ArrayList.make_room
    ArrayList.grow malloc clients_get_min_serial compute_deltas add_roa_deltas add_roa_delta
    deltas_add_roa_v4 add_router_key_deltas deltas_add_router_key deltas_is_empty
update2 = refl

abbrev version1 : Version roas router_keys
version1 = record { serial = 0; table = table1 }

abbrev version2 : Version roas router_keys
version2 = record { serial = 1; table = table2 }

run1 : Run roas router_keys (version1 ∷ []) state1
unfolding vrps_init
run1 = updated true [] [] table1 [] [] (start 1000) (λ h. h) update1

next_serial1 : state1.next_serial ≡ 1
unfolding vrps_update vrps_init state1 state2 db_table_roa_count db_table_router_key_count items_of
    find_in vrp_eq router_key_eq address_eq bytes_eq ArrayList.add ArrayList.make_room
    ArrayList.grow malloc
next_serial1 = refl

run2 : Run roas router_keys (version2 ∷ version1 ∷ []) state2
run2 =
    subst (λ n. Run roas router_keys (record { serial = n; table = table2 } ∷ version1 ∷ []) state2)
      next_serial1 (updated true clients clients table2 [] [] run1 (λ h. h) update2)

unfoldable answer : ℕ × ArrayList DeltaGroup
unfolding state2
answer = result_of (0, ArrayList.init) (vrps_get_deltas_from roas router_keys 0 state2 [])

answered : vrps_get_deltas_from roas router_keys 0 state2 [] ≡ ok (answer, [])
unfolding vrps_update vrps_init state1 state2 db_table_roa_count db_table_router_key_count items_of
    find_in vrp_eq router_key_eq address_eq bytes_eq ArrayList.add ArrayList.make_room
    ArrayList.grow malloc clients_get_min_serial compute_deltas add_roa_deltas add_roa_delta
    deltas_add_roa_v4 add_router_key_deltas deltas_add_router_key deltas_is_empty answer
    vrps_get_deltas_from
answered = refl

unfoldable filtered : SortedLists
unfolding answer filter_deltas
filtered = (filter_deltas answer.1.array []).1

filtered_answer : filter_deltas answer.1.array [] ≡ (ok tt, filtered)
unfolding vrps_update vrps_init state1 state2 db_table_roa_count db_table_router_key_count items_of
    find_in vrp_eq router_key_eq address_eq bytes_eq ArrayList.add ArrayList.make_room
    ArrayList.grow malloc clients_get_min_serial compute_deltas add_roa_deltas add_roa_delta
    deltas_add_roa_v4 add_router_key_deltas deltas_add_router_key deltas_is_empty answer filtered
    filter_deltas vrp_ovrd_remove router_key_ovrd_remove ovrd_remove cancel deltas_foreach
    foreach_v4 foreach_v6 foreach_rk walk vrps_get_deltas_from
filtered_answer = refl

filtered_deltas-Difference_example :
    (answer.0 ≡ 1)
    × ((table : Db roas router_keys) × Published roas router_keys
          (record { serial = 0; table = table })
          (version2 ∷ version1 ∷ [])
        × Difference roas router_keys table table2 filtered.prefixes filtered.router_keys)
filtered_deltas-Difference_example =
    filtered_deltas-Difference roas router_keys version2 (version1 ∷ []) state2 0 [] []
      {r = (answer, [])} {lists = filtered} run2 answered filtered_answer

get_last_serial_number-newest_example : get_last_serial_number roas router_keys state2 ≡ ok 1
get_last_serial_number-newest_example = get_last_serial_number-newest roas router_keys run2

Run-IsConsistent_example : IsConsistent roas router_keys (version2 ∷ version1 ∷ []) state2
Run-IsConsistent_example = Run-IsConsistent roas router_keys run2

vrps_update-IsConsistent_example :
    IsConsistent roas router_keys
      (versions_after roas router_keys true state1 table2 (version1 ∷ []))
      state2
vrps_update-IsConsistent_example =
    vrps_update-IsConsistent roas router_keys clients clients table2 (version1 ∷ []) state1 []
      {r = ((true, state2), [])} (Run-IsConsistent roas router_keys run1) (λ h. h) update2

filter_deltas-Net_example :
    Net (all_vrp_events answer.1.array) filtered.prefixes
    × Net (all_key_events answer.1.array) filtered.router_keys
filter_deltas-Net_example = filter_deltas-Net answer.1.array [] {lists = filtered} filtered_answer

unfoldable change : Deltas
unfolding compute_deltas
change = result_of no_deltas (compute_deltas roas router_keys table1 table2 [])

changed : compute_deltas roas router_keys table1 table2 [] ≡ ok (change, [])
unfolding vrps_update vrps_init state1 state2 db_table_roa_count db_table_router_key_count items_of
    find_in vrp_eq router_key_eq address_eq bytes_eq ArrayList.add ArrayList.make_room
    ArrayList.grow malloc clients_get_min_serial compute_deltas add_roa_deltas add_roa_delta
    deltas_add_roa_v4 add_router_key_deltas deltas_add_router_key deltas_is_empty change
changed = refl

count-compute_deltas_roas_example :
    (count (roa 3) (payloads announcement change)
      ≡ bit (roas.find table2.roas (roa 3) && not (roas.find table1.roas (roa 3))))
    × (count (roa 3) (payloads withdrawal change)
        ≡ bit (roas.find table1.roas (roa 3) && not (roas.find table2.roas (roa 3))))
count-compute_deltas_roas_example =
    count-compute_deltas_roas roas router_keys table1 table2 [] (roa 3) {r = (change, [])} changed

count-compute_deltas-keys_example :
    (count (key 1) (keys announcement change)
      ≡ bit (
          router_keys.find table2.router_keys (key 1)
          && not (router_keys.find table1.router_keys (key 1))))
    × (count (key 1) (keys withdrawal change)
        ≡ bit (
            router_keys.find table1.router_keys (key 1)
            && not (router_keys.find table2.router_keys (key 1))))
count-compute_deltas-keys_example =
    count-compute_deltas-keys roas router_keys table1 table2 [] (key 1) {r = (change, [])} changed

add-cases_example :
    ((l' : ArrayList ℕ) × (m' : Memory) × (ArrayList.add (ArrayList.init {A = ℕ}) 5 (true ∷ [])
        ≡ ok (l', m'))
      × (l'.array ≡ 5 ∷ [])
      × (length l'.array < l'.capacity))
    ⊎ ((ArrayList.add (ArrayList.init {A = ℕ}) 5 (true ∷ []) ≡ err enomem)
        × (fails (true ∷ []) ≡ true))
add-cases_example = add-cases ArrayList.init 5 (true ∷ []) (omega arith)

clients_get_min_serial-cases_example :
    ((s : ℕ) × (clients_get_min_serial clients ≡ some s) × Reports s clients × IsLowest s clients)
    ⊎ ((clients_get_min_serial clients ≡ none)
        × All (λ (c : Client). c.serial_number_set ≡ false) clients)
clients_get_min_serial-cases_example = clients_get_min_serial-cases clients

base2 : state2.base ≡ some table2
unfolding vrps_update vrps_init state1 state2 db_table_roa_count db_table_router_key_count items_of
    find_in vrp_eq router_key_eq address_eq bytes_eq ArrayList.add ArrayList.make_room
    ArrayList.grow malloc clients_get_min_serial compute_deltas add_roa_deltas add_roa_delta
    deltas_add_roa_v4 add_router_key_deltas deltas_add_router_key deltas_is_empty
base2 = refl

few_groups : length state2.deltas.array < 2 ^ 63
unfolding vrps_update vrps_init state1 state2 db_table_roa_count db_table_router_key_count items_of
    find_in vrp_eq router_key_eq address_eq bytes_eq ArrayList.add ArrayList.make_room
    ArrayList.grow malloc clients_get_min_serial compute_deltas add_roa_deltas add_roa_delta
    deltas_add_roa_v4 add_router_key_deltas deltas_add_router_key deltas_is_empty
few_groups = omega arith

vrps_get_deltas_from-found_example :
    ((to : ℕ) × (l : ArrayList DeltaGroup) × (vrps_get_deltas_from roas router_keys 0 state2 []
        ≡ ok ((to, l), []))
      × Divided 0 state2.deltas.array to l.array)
    ⊎ (NoneHas 0 state2.deltas.array
        × (vrps_get_deltas_from roas router_keys 0 state2 [] ≡ err esrch))
vrps_get_deltas_from-found_example =
    vrps_get_deltas_from-found roas router_keys 0 state2 table2 base2 few_groups

unfoldable copied : Db roas router_keys
unfolding db_table_clone
copied = result_of table2 (db_table_clone roas router_keys table1 [])

cloned : db_table_clone roas router_keys table1 [] ≡ ok (copied, [])
unfolding vrps_update vrps_init state1 state2 db_table_roa_count db_table_router_key_count items_of
    find_in vrp_eq router_key_eq address_eq bytes_eq ArrayList.add ArrayList.make_room
    ArrayList.grow malloc clients_get_min_serial compute_deltas add_roa_deltas add_roa_delta
    deltas_add_roa_v4 add_router_key_deltas deltas_add_router_key deltas_is_empty copied
    db_table_clone db_table_merge duplicate_roa rtrhandler_handle_roa_v4 duplicate_key
    rtrhandler_handle_router_key add_roa add_router_key for_each
cloned = refl

find-db_table_clone_example :
    (roas.find copied.roas (roa 2) ≡ roas.find table1.roas (roa 2))
    × (router_keys.find copied.router_keys (key 9) ≡ router_keys.find table1.router_keys (key 9))
find-db_table_clone_example =
    find-db_table_clone roas router_keys table1 [] (roa 2) (key 9) {r = (copied, [])} cloned

unfoldable merged : Db roas router_keys
unfolding db_table_merge
merged = result_of table2 (db_table_merge roas router_keys table2 table1 [])

merged_all : db_table_merge roas router_keys table2 table1 [] ≡ ok (merged, [])
unfolding vrps_update vrps_init state1 state2 db_table_roa_count db_table_router_key_count items_of
    find_in vrp_eq router_key_eq address_eq bytes_eq ArrayList.add ArrayList.make_room
    ArrayList.grow malloc clients_get_min_serial compute_deltas add_roa_deltas add_roa_delta
    deltas_add_roa_v4 add_router_key_deltas deltas_add_router_key deltas_is_empty merged
    db_table_merge duplicate_roa rtrhandler_handle_roa_v4 duplicate_key rtrhandler_handle_router_key
    add_roa add_router_key for_each
merged_all = refl

find-db_table_merge_example :
    (roas.find merged.roas (roa 1)
      ≡ (roas.find table1.roas (roa 1) || roas.find table2.roas (roa 1)))
    × (router_keys.find merged.router_keys (key 1) ≡ (
        router_keys.find table1.router_keys (key 1) || router_keys.find table2.router_keys (key 1)))
find-db_table_merge_example =
    find-db_table_merge roas router_keys table2 table1 [] (roa 1) (key 1) {r = (merged, [])}
      merged_all
