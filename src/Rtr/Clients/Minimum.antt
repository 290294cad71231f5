-- ===== src/Rtr/Clients/Minimum.antt =====
-- What clients_get_min_serial() of clients.c returns.
use fort_validator.Base.{
  ℕ, ◌≤◌, ◌≡◌, ◌⊎◌, inl, inr, refl, true, false, none, some, List, [], ◌∷◌, ltb, arith, Bool-cases,
  All,
}
use fort_validator.Rtr.Clients.{Client, min_serial, clients_get_min_serial}

-- Some client of the list has reported the serial.
abbrev pub Reports : ℕ → List Client → Type 0
Reports s [] = ⊥
Reports s (c ∷ clients) = ((c.serial_number_set ≡ true) × (c.serial_number ≡ s)) ⊎ Reports s clients

-- No client of the list has reported a lower one.
abbrev pub IsLowest : ℕ → List Client → Type 0
IsLowest s = All (λ (c : Client). c.serial_number_set ≡ true → s ≤ c.serial_number)

min_serial-some :
    (r : ℕ) (clients : List Client)
    → (s : ℕ) × (min_serial (some r) clients ≡ some s)
      × ((s ≡ r) ⊎ Reports s clients)
      × (s ≤ r)
      × IsLowest s clients
unfolding min_serial
min_serial-some r [] = (r, refl, inl refl, omega arith, tt)
min_serial-some r (c ∷ clients) = elim (Bool-cases c.serial_number_set) [
  | inr unset ↦
      let (s, e, rep, le, low) = min_serial-some r clients in
      (s, rw unset e, elim rep [ inl a ↦ inl a | inr b ↦ inr (inr b) ], le, ((λ h. cc), low))
  | inl is_set ↦ elim (Bool-cases (ltb c.serial_number r)) [
    | inl lower ↦
        let (s, e, rep, le, low) = min_serial-some c.serial_number clients in
        (
          s,
          rw (is_set, lower) e,
          inr (elim rep [ inl a ↦ inl (is_set, ground arith) | inr b ↦ inr b ]),
          ground arith,
          ((λ h. le), low),
        )
    | inr higher ↦
        let (s, e, rep, le, low) = min_serial-some r clients in
        (
          s,
          rw (is_set, higher) e,
          elim rep [ inl a ↦ inl a | inr b ↦ inr (inr b) ],
          le,
          ((λ h. ground arith), low),
        )
  ]
]

-- The result is the lowest serial that a client has reported; it is -ENOENT if none has reported
-- one.
pub clients_get_min_serial-cases :
    (clients : List Client)
    → ((s : ℕ) × (clients_get_min_serial clients ≡ some s) × Reports s clients × IsLowest s clients)
      ⊎ ((clients_get_min_serial clients ≡ none)
          × All (λ (c : Client). c.serial_number_set ≡ false) clients)
unfolding clients_get_min_serial min_serial
clients_get_min_serial-cases [] = inr (refl, tt)
clients_get_min_serial-cases (c ∷ clients) = elim (Bool-cases c.serial_number_set) [
  | inl is_set ↦
      let (s, e, rep, le, low) = min_serial-some c.serial_number clients in
      inl (
        s,
        rw is_set e,
        elim rep [ inl a ↦ inl (is_set, ground arith) | inr b ↦ inr b ],
        ((λ h. le), low),
      )
  | inr unset ↦ elim (clients_get_min_serial-cases clients) [
    | inl (s, e, rep, low) ↦ inl (s, rw unset e, inr rep, ((λ h. cc), low))
    | inr (e, all) ↦ inr (rw unset e, (unset, all))
  ]
]
