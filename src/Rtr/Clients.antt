-- ===== src/Rtr/Clients.antt =====
-- clients.c: the routers that are connected, and the serial that the slowest of them has.
pub mod Minimum
pub mod Connected
use fort_validator.Base.{
  ℕ, ◌≤◌, ◌≡◌, ◌⊎◌, inl, inr, Bool, true, false, Option, none, some, List, [], ◌∷◌, if◌then◌else◌,
  ltb, arith, Bool-cases,
}

-- struct client; the address is its bytes.
pub record Client : Type 0 where
  pub fd : ℕ
  pub addr : List ℕ
  pub tid : ℕ
  pub serial_number : ℕ
  pub serial_number_set : Bool
  pub rtr_version : ℕ
  pub rtr_version_set : Bool

-- The loop over the clients; `none` is -ENOENT.
unfoldable pub min_serial : Option ℕ → List Client → Option ℕ
min_serial result [] = result
min_serial none (current ∷ clients) =
    min_serial (if current.serial_number_set then some current.serial_number else none) clients
min_serial (some result) (current ∷ clients) =
    min_serial
      (some (
        if current.serial_number_set
        then (if ltb current.serial_number result then current.serial_number else result)
        else result))
      clients

-- The clients are given in the order of HASH_ITER.
unfoldable pub clients_get_min_serial : List Client → Option ℕ
unfolding min_serial
clients_get_min_serial = min_serial none
