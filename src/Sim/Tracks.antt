-- ===== src/Sim/Tracks.antt =====
-- ships.go: the five stat tracks of a ship, their prices, and BuyShipTrack.
pub mod Upgrades
use text.Mathlib.Text.{◌==◌}
use ssh_moonminer.Common.{String, Bool, not, Option, none, some, if◌then◌else◌}
use ssh_moonminer.Common.Int.{ℤ, pos, ◌+ℤ◌, ◌-ℤ◌, ltb_ℤ, leb_ℤ}
use ssh_moonminer.Common.Dict.{lookup, insert}
use ssh_moonminer.Common.Float.{Float}
use ssh_moonminer.Content.{Content, ShipModel}
use ssh_moonminer.Content.Lookup.{ship_by_id}
use ssh_moonminer.Sim.Errors.{
  SimError, in_belt, invalid_ship, ship_remote, max_upgrade, insufficient_funds, fail, done,
}
use ssh_moonminer.Sim.State.{ShipInstance, State}
use ssh_moonminer.Sim.Condition.{is_docked, put_ship}

-- A track outside the five constants cannot come from the game and is not modelled.
pub data Track : Type 0 where
  track_thrusters track_hull track_fuel_eff track_power_gen track_scanner : Track

abbrev pub track_grade : {W : Type 0} → ShipInstance W → Track → ℤ
track_grade inst track_thrusters = inst.grades.thrusters
track_grade inst track_hull = inst.grades.hull
track_grade inst track_fuel_eff = inst.grades.fuel_eff
track_grade inst track_power_gen = inst.grades.power_gen
track_grade inst track_scanner = inst.grades.scanner

abbrev pub set_track_grade : {W : Type 0} → ShipInstance W → Track → ℤ → ShipInstance W
set_track_grade inst track_thrusters g = record inst {
  grades = record (inst.grades) { thrusters = g };
}
set_track_grade inst track_hull g = record inst { grades = record (inst.grades) { hull = g } }
set_track_grade inst track_fuel_eff g = record inst {
  grades = record (inst.grades) { fuel_eff = g };
}
set_track_grade inst track_power_gen g = record inst {
  grades = record (inst.grades) { power_gen = g };
}
set_track_grade inst track_scanner g = record inst { grades = record (inst.grades) { scanner = g } }

abbrev pub track_cap : {W : Type 0} → ShipModel W → Track → ℤ
track_cap model track_thrusters = model.thrusters_cap
track_cap model track_hull = model.hull_cap
track_cap model track_fuel_eff = model.fuel_eff_cap
track_cap model track_power_gen = model.power_gen_cap
track_cap model track_scanner = model.scanner_cap

unfoldable pub track_start : {W : Type 0} → ShipModel W → Track → ℤ
track_start model track_thrusters = model.thrusters_start
track_start model track_hull = model.hull_start
track_start model track_fuel_eff = model.fuel_eff_start
track_start model track_power_gen = model.power_gen_start
track_start model track_scanner = model.scanner_start

unfoldable pub track_base_price : {W : Type 0} → Content W → Track → ℤ
track_base_price c track_thrusters = c.fleet.thrusters_base_price
track_base_price c track_hull = c.fleet.hull_base_price
track_base_price c track_fuel_eff = c.fleet.fuel_eff_base_price
track_base_price c track_power_gen = c.fleet.power_gen_base_price
track_base_price c track_scanner = c.fleet.scanner_base_price

-- `price` credits change hands: the pilot's balance falls and the lifetime total rises.
abbrev pub spend : {W : Type 0} → State W → ℤ → State W
spend s price = record s {
  credits = s.credits -ℤ price;
  stats = record (s.stats) { credits_spent = s.stats.credits_spent +ℤ price };
}

module _ {W : Type 0} ⦃F : Float W⦄ where
  unfoldable pub track_price : Content W → ShipModel W → Track → ℤ → ℤ
  unfolding track_base_price
  track_price c model t grade = F.round (
      F.mul (F.mul (F.of_int (track_base_price c t)) model.tier_mul)
        (F.pow c.fleet.grade_price_curve (F.of_int grade)))

  buy_grade :
      State W
      → Content W
      → String
      → Track
      → ShipInstance W
      → ShipModel W
      → State W × Option SimError
  buy_grade s c ship_id t inst model =
      let grade = track_grade inst t in
      let price = track_price c model t grade in
      if leb_ℤ (track_cap model t) grade
      then fail s max_upgrade
      else if ltb_ℤ s.credits price
      then fail s insufficient_funds
      else done (put_ship ship_id (set_track_grade inst t (grade +ℤ pos 1)) (spend s price))

  unfoldable pub buy_ship_track : State W → Content W → String → Track → State W × Option SimError
  unfolding buy_grade
  buy_ship_track s c ship_id t =
      if not (is_docked s) then fail s in_belt else elim (lookup ship_id s.ships) [
        | none ↦ fail s invalid_ship
        | some inst ↦
            if not (inst.system_id == s.system_id)
            then fail s ship_remote
            else elim (ship_by_id c inst.model_id) [
              | none ↦ fail s invalid_ship
              | some model ↦ buy_grade s c ship_id t inst model
            ]
      ]
