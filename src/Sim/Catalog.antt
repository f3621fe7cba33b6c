-- ===== src/Sim/Catalog.antt =====
-- slots.go: the catalog of slot devices, with their prices, power draws and masses.
use text.Mathlib.Text.{◌==◌}
use ssh_moonminer.Common.{
  String, Bool, true, false, ◌||◌, List, [], ◌∷◌, Option, none, some, if◌then◌else◌,
}
use ssh_moonminer.Common.Int.{ℤ, pos, ◌+ℤ◌}
use ssh_moonminer.Common.Float.{Float}
use ssh_moonminer.Content.{Content}

-- A kind outside the three constants cannot come from the game and is not modelled.
pub data SlotKind : Type 0 where
  slot_utility slot_weapon slot_internal : SlotKind

abbrev pub same_kind : SlotKind → SlotKind → Bool
same_kind slot_utility slot_utility = true
same_kind slot_weapon slot_weapon = true
same_kind slot_internal slot_internal = true
same_kind _ _ = false

abbrev pub item_cargo : String
item_cargo = "cargo"

abbrev pub item_fuel_tank : String
item_fuel_tank = "fuel_tank"

abbrev pub item_shield : String
item_shield = "shield"

abbrev pub item_seismic_overcharge : String
item_seismic_overcharge = "seismic_overcharge"

abbrev pub item_emp_launcher : String
item_emp_launcher = "emp_launcher"

abbrev pub item_turret : String
item_turret = "turret"

abbrev pub item_missile_launcher : String
item_missile_launcher = "missile_launcher"

abbrev pub item_pulse_laser : String
item_pulse_laser = "pulse_laser"

abbrev pub item_seismic : String
item_seismic = "seismic_sensors"

abbrev pub item_fuel_miner : String
item_fuel_miner = "fuel_miner"

abbrev pub item_jammer : String
item_jammer = "pirate_jammer"

abbrev pub item_heat_sink : String
item_heat_sink = "heat_sink"

-- MaxGrade: the top grade, S.
abbrev pub max_grade : ℤ
max_grade = pos 5

unfoldable pub slot_item_kind : String → SlotKind
slot_item_kind id =
    if id == item_turret || (id == item_missile_launcher || id == item_pulse_laser)
    then slot_weapon
    else if id == item_seismic
        || (id == item_fuel_miner || (id == item_jammer || id == item_heat_sink))
    then slot_internal
    else slot_utility

unfoldable pub utility_items : List String
utility_items =
    item_cargo ∷ item_fuel_tank ∷ item_shield ∷ item_seismic_overcharge ∷ item_emp_launcher ∷ []

unfoldable pub weapon_items : List String
weapon_items = item_turret ∷ item_missile_launcher ∷ item_pulse_laser ∷ []

unfoldable pub internal_items : List String
internal_items = item_seismic ∷ item_fuel_miner ∷ item_jammer ∷ item_heat_sink ∷ []

unfoldable pub slot_items_for : SlotKind → List String
unfolding utility_items weapon_items internal_items
slot_items_for slot_weapon = weapon_items
slot_items_for slot_internal = internal_items
slot_items_for slot_utility = utility_items

unfoldable pub slot_item_name : String → String
slot_item_name id =
    if id == item_cargo
    then "EXTRA CARGO"
    else if id == item_fuel_tank
    then "FUEL TANK"
    else if id == item_shield
    then "SHIELD"
    else if id == item_seismic_overcharge
    then "SEISMIC OVERCHARGE"
    else if id == item_emp_launcher
    then "EMP LAUNCHER"
    else if id == item_turret
    then "AUTOCANNON TURRET"
    else if id == item_missile_launcher
    then "MISSILE LAUNCHER"
    else if id == item_pulse_laser
    then "PULSE LASER"
    else if id == item_seismic
    then "SEISMIC SENSORS"
    else if id == item_fuel_miner
    then "FUEL MINER"
    else if id == item_jammer
    then "PIRATE JAMMER"
    else if id == item_heat_sink
    then "HEAT SINK"
    else id

unfoldable pub slot_item_desc : String → String
slot_item_desc id =
    if id == item_cargo
    then "Adds cargo capacity. Draws no power."
    else if id == item_fuel_tank
    then "Adds fuel capacity. Draws no power."
    else if id == item_shield
    then "Absorbs pirate damage before your hull does; recharges between runs."
    else if id == item_seismic_overcharge
    then "Unique. Raises drill speed well above a bare hull's."
    else if id == item_emp_launcher
    then "Auto-deploys on pirate contact, delaying their approach."
    else if id == item_turret
    then "Fires continuously for steady passive damage."
    else if id == item_missile_launcher
    then "G fires one guided, 100% accurate missile per shot."
    else if id == item_pulse_laser
    then "F fires every fitted laser as one heat-limited volley."
    else if id == item_seismic
    then "Pre-scans 3 in-range asteroids for free on lock."
    else if id == item_fuel_miner
    then "Chance to recover fuel burned while drilling."
    else if id == item_jammer
    then "Suppresses pirate approach for a time after lock."
    else if id == item_heat_sink
    then "Raises weapon heat capacity before overheat lock."
    else ""

unfoldable pub slot_item_locked : String → Bool
unfolding slot_item_desc
slot_item_locked id = slot_item_desc id == ""

module _ {W : Type 0} ⦃F : Float W⦄ where
  unfoldable pub slot_item_base_price : Content W → String → ℤ
  slot_item_base_price c id =
      if id == item_cargo
      then c.slots.cargo_base_price
      else if id == item_fuel_tank
      then c.slots.fuel_tank_base_price
      else if id == item_shield
      then c.slots.shield_base_price
      else if id == item_seismic_overcharge
      then c.slots.seismic_overcharge_base_price
      else if id == item_emp_launcher
      then c.slots.emp_launcher_base_price
      else if id == item_turret
      then c.slots.turret_base_price
      else if id == item_missile_launcher
      then c.slots.missile_launcher_base_price
      else if id == item_pulse_laser
      then c.slots.pulse_laser_base_price
      else if id == item_seismic
      then c.slots.seismic_base_price
      else if id == item_fuel_miner
      then c.slots.fuel_miner_base_price
      else if id == item_jammer
      then c.slots.jammer_base_price
      else if id == item_heat_sink
      then c.slots.heat_sink_base_price
      else pos 0

  unfoldable pub slot_item_price : Content W → String → ℤ → ℤ
  unfolding slot_item_base_price
  slot_item_price c id grade = F.round (
      F.mul (F.of_int (slot_item_base_price c id))
        (F.pow c.fleet.grade_price_curve (F.of_int grade)))

  unfoldable pub slot_item_power_k : Content W → String → Option W
  slot_item_power_k c id =
      if id == item_shield
      then some c.slots.shield_power_k
      else if id == item_seismic_overcharge
      then some c.slots.seismic_overcharge_power_k
      else if id == item_emp_launcher
      then some c.slots.emp_launcher_power_k
      else if id == item_turret
      then some c.slots.turret_power_k
      else if id == item_missile_launcher
      then some c.slots.missile_launcher_power_k
      else if id == item_pulse_laser
      then some c.slots.pulse_laser_power_k
      else if id == item_seismic
          || (id == item_fuel_miner || (id == item_jammer || id == item_heat_sink))
      then some c.slots.internal_power_k
      else none

  -- Extra Cargo and the Fuel Tank draw no power.
  unfoldable pub slot_item_power : Content W → String → ℤ → ℤ
  unfolding slot_item_power_k
  slot_item_power c id grade =
      let g = F.pow (F.of_int (grade +ℤ pos 1)) c.fleet.power_curve_exponent in
      elim (slot_item_power_k c id) [ none ↦ pos 0 | some k ↦ F.round (F.mul k g) ]

  unfoldable pub slot_item_mass : Content W → String → ℤ → W
  slot_item_mass c id grade =
      let n = F.of_int (grade +ℤ pos 1) in
      if id == item_cargo
      then F.mul c.slots.cargo_mass_per_grade n
      else if id == item_fuel_tank
      then F.mul c.slots.fuel_tank_mass_per_grade n
      else if id == item_shield
      then F.mul c.slots.shield_mass_per_grade n
      else if id == item_seismic_overcharge
      then F.mul c.slots.seismic_overcharge_mass_per_grade n
      else if id == item_emp_launcher
      then F.mul c.slots.emp_launcher_mass_per_grade n
      else if id == item_turret
      then F.mul c.slots.turret_mass_per_grade n
      else if id == item_missile_launcher
      then F.mul c.slots.missile_launcher_mass_per_grade n
      else if id == item_pulse_laser
      then F.mul c.slots.pulse_laser_mass_per_grade n
      else if id == item_seismic
          || (id == item_fuel_miner || (id == item_jammer || id == item_heat_sink))
      then F.mul c.slots.internal_mass_per_grade n
      else F.of_int (pos 0)

  -- What the shipyard pays back for a device.
  unfoldable pub slot_item_sell_value : Content W → String → ℤ → ℤ
  slot_item_sell_value c id grade =
      F.round (F.mul (F.of_int (slot_item_price c id grade)) c.slots.sell_value_pct)

-- Shields, overcharges and internal modules: once to a ship.
unfoldable pub slot_item_is_unique : String → Bool
unfolding slot_item_kind
slot_item_is_unique id =
    id == item_shield
    || (id == item_seismic_overcharge || same_kind (slot_item_kind id) slot_internal)
