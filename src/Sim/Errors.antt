-- ===== src/Sim/Errors.antt =====
-- errors.go. A Go function that mutates `*State` and returns an `error` becomes a function to
-- the new state with an optional error.
use ssh_moonminer.Common.{Option, none, some, ◌≡◌, refl}

-- `nil_dereference`, `divide_by_zero` and `negative_length` are no error values but panics;
-- `names_used_up` means that a search for a free name ran out of fuel.
pub data SimError : Type 0 where
  insufficient_fuel insufficient_funds hull_breached not_docked in_belt active_run : SimError
  no_active_run invalid_world invalid_asteroid already_full max_upgrade not_eligible : SimError
  not_scanned already_scanned scan_in_progress invalid_run_phase out_of_range : SimError
  route_locked invalid_system already_unlocked cargo_empty cargo_full cargo_does_not_fit : SimError
  ship_remote invalid_ship already_owned not_owned item_locked invalid_slot_item : SimError
  invalid_slot_index power_exceeded slot_empty slot_occupied invalid_inventory : SimError
  duplicate_item no_weapon_installed weapons_locked no_missile_launcher no_missiles : SimError
  missile_cooling_down nil_dereference divide_by_zero negative_length names_used_up : SimError

pub data Result {ℓ} (A : Type ℓ) : Type ℓ where
  ok : A → Result A
  err : SimError → Result A

-- To go on from a computed result with its equation.
pub by_result {ℓ κ} :
    {A : Type ℓ} {Q : Type κ} (r : Result A)
    → ((e : SimError) → r ≡ err e → Q)
    → ((a : A) → r ≡ ok a → Q)
    → Q
by_result (ok a) bad good = good a refl
by_result (err e) bad good = bad e refl

abbrev pub fail {ℓ} : {S : Type ℓ} → S → SimError → S × Option SimError
fail s e = (s, some e)

abbrev pub done {ℓ} : {S : Type ℓ} → S → S × Option SimError
done s = (s, none)
