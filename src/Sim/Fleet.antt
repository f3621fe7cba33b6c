-- ===== src/Sim/Fleet.antt =====
-- ships.go: buying a hull and changing to another one.
pub mod Hangar
pub mod Yard
pub mod Respawn
use text.Mathlib.Text.{◌==◌}
use ssh_moonminer.Common.{
  ℕ, String, Bool, true, false, not, ◌&&◌, ◌||◌, List, [], ◌∷◌, replicate, Option, none, some,
  if◌then◌else◌,
}
use ssh_moonminer.Common.Int.{ℤ, pos, negsuc, pos_part, ◌+ℤ◌, ◌-ℤ◌, ◌*ℤ◌, ltb_ℤ, ◌==ℤ◌}
use ssh_moonminer.Common.Dict.{Dict, lookup, insert}
use ssh_moonminer.Common.Float.{Float}
use ssh_moonminer.Content.{Content, ShipModel}
use ssh_moonminer.Content.Lookup.{ship_by_id, contains_string}
use ssh_moonminer.Sim.Errors.{
  SimError, Result, ok, err, fail, done, in_belt, not_owned, ship_remote, cargo_does_not_fit,
  already_owned, invalid_ship, not_eligible, insufficient_funds,
}
use ssh_moonminer.Sim.State.{ShipInstance, State}
use ssh_moonminer.Sim.Condition.{
  is_docked, owns_ship, nought, sync_active_condition_from_legacy, sync_active_condition_mirror,
}
use ssh_moonminer.Sim.Loadout.{cargo_capacity_units_for}
use ssh_moonminer.Sim.Tracks.{spend}

abbrev pub starter_ship_id : String
starter_ship_id = "skiff"

abbrev pub marked : Option Bool → Bool
marked none = false
marked (some b) = b

abbrev pub reads : Option String → String
reads none = ""
reads (some t) = t

module _ {W : Type 0} where
  unfoldable pub ships_in : String → Dict (ShipInstance W) → ℤ
  ships_in place [] = pos 0
  ships_in place ((id, inst) ∷ ships) =
      let n = ships_in place ships in if inst.system_id == place then n +ℤ pos 1 else n

  unfoldable pub local_ship_count : State W → ℤ
  unfolding ships_in
  local_ship_count s = ships_in s.system_id s.ships

  unfoldable pub was_unlocked : State W → String → Bool
  was_unlocked s id = marked (lookup id s.ships_unlocked)

  unfoldable pub ship_sold_here : State W → Content W → String → Bool
  unfolding was_unlocked
  ship_sold_here s c id = elim (ship_by_id c id) [
    | none ↦ false
    | some model ↦
        (id == starter_ship_id)
        || (contains_string model.sold_in s.system_id
            || (not model.no_buyback
                && (was_unlocked s id && (reads (lookup id s.ships_lost_at) == s.system_id))))
  ]

module _ {W : Type 0} ⦃F : Float W⦄ where
  -- The mirrors belong to the old ship before the change and to the new one after it.
  unfoldable pub activate_ship : State W → Content W → String → State W
  activate_ship s c id =
      sync_active_condition_mirror
        (record (sync_active_condition_from_legacy s c) { active_ship_id = id }) c

  -- OwnsShip is the test of the first `elim`.
  unfoldable pub switch_active_ship : State W → Content W → String → State W × Option SimError
  unfolding activate_ship
  switch_active_ship s c id =
      if not (is_docked s) then fail s in_belt else elim (lookup id s.ships) [
        | none ↦ fail s not_owned
        | some inst ↦
            if id == s.active_ship_id
            then done s
            else if not (inst.system_id == s.system_id)
            then fail s ship_remote
            else if F.lt (cargo_capacity_units_for s c id) s.cargo_units
            then fail s cargo_does_not_fit
            else done (activate_ship s c id)
      ]
