-- ===== src/Rtr/Vrps/Session.antt =====
-- The session IDs of vrps.c.
use fort_validator.Base.{ℕ, ◌^◌, ◌<◌, ◌≢◌, arith}
use fort_validator.Rtr.Keys.{HashTable}
use fort_validator.Rtr.Vrp.{Vrp, RouterKey, vrp_keys, router_key_keys}
use fort_validator.Rtr.Vrps.{vrps_init, get_current_session_id}

module _ (rs : HashTable Vrp) (ks : HashTable RouterKey) where
  -- Whatever the time is, the session IDs of the versions 0 and 1 of the protocol differ, and
  -- both fit 16 bits.
  pub session_ids-differ :
      (now : ℕ)
      → (get_current_session_id rs ks 0 (vrps_init rs ks now)
          ≢ get_current_session_id rs ks 1 (vrps_init rs ks now))
        × (get_current_session_id rs ks 0 (vrps_init rs ks now) < 2 ^ 16)
        × (get_current_session_id rs ks 1 (vrps_init rs ks now) < 2 ^ 16)
  unfolding vrps_init get_current_session_id
  session_ids-differ now = ground arith
