-- ===== src/Scenarios/DockRuns.antt =====
-- What a docked pilot buys, sells and earns.
use ssh_moonminer.Sim.Fleet.{activate_ship, switch_active_ship}
use ssh_moonminer.Sim.Fleet.Hangar.{Transferred, switch_active_ship-Transferred}
use ssh_moonminer.Scenarios.Samples.{fleet_pilot}
use ssh_moonminer.Sim.Frontier.{visit_system}
use ssh_moonminer.Sim.Frontier.Visits.{
  Event, arrived, sold_from, all_happen, Dated, visit_system-once,
}
use ssh_moonminer.Common.{false, List, [], ◌∷◌}
use ssh_moonminer.Common.Int.{◌/ℤ◌}
use ssh_moonminer.Common.Dict.{delete}
use ssh_moonminer.Sim.Numbers.{clamp, clamp_int}
use ssh_moonminer.Sim.Catalog.{
  slot_item_kind, slot_item_desc, slot_item_locked, slot_item_base_price, slot_item_price,
  slot_item_power_k, slot_item_power, slot_item_mass, slot_item_sell_value, slot_item_is_unique,
}
use ssh_moonminer.Sim.Condition.{
  active_ship, update_ship, max_hull_for, max_hull, ship_hull, fuel_tank_capacity, fuel_in_tanks,
  fuel_amount_for, fuel_amount, add_capacities, fuel_capacity_for, fuel_capacity, fill_tanks,
  set_fuel_amount_for, copy_mirrors, sync_active_condition_mirror, import_fuel, import_hull,
  sync_active_condition_from_legacy, set_active_hull,
}
use ssh_moonminer.Sim.Loadout.{
  device_slice, slot_at, device_slot, set_device, other_holds, find_device, has_other_device,
  validate_unique_slot_item, power_capacity_for, missile_capacity, rearm_missiles_for_ship,
  normalize_ship_missiles, jammer_max_charges, device_power, add_power, ship_power, installed_power,
  add_mass, installed_mass, add_cargo, cargo_capacity_units_for, cargo_capacity_after_change,
  validate_cargo_after_replacement, validate_device_removal_cargo, shield_max_hp_for,
  restore_ship_shield_full, normalize_ship_shield,
}
use ssh_moonminer.Sim.Shipyard.{
  no_shield, reach_slot, finish_device_installation, fit, power_fits, install_checked,
  install_synced, install_slot_device, resolve_occupied_slot, clear_slot, store_synced,
  store_slot_device, sell_synced, sell_slot_device, replace_checked, replace_synced,
  replace_slot_device_with_purchase, inventory_at, refit_checked, refit_synced,
  install_slot_device_from_inventory,
}
use ssh_moonminer.Sim.Market.{
  refuel_points_needed, repair_cost, top_up_all, add_fuel, refuel, repair,
}
use ssh_moonminer.Scenarios.Samples.{worn_pilot}
use ssh_moonminer.Sim.Market.Services.{Paid, refuel-Paid, repair-Paid}
use ssh_moonminer.Common.{arith}
use ssh_moonminer.Common.{◌≡◌, refl}
use ssh_moonminer.Common.Int.{pos}
use ssh_moonminer.Common.Float.{Whole, whole_float}
use ssh_moonminer.Sim.Errors.{done}
use ssh_moonminer.Content.{Content}
use ssh_moonminer.Sim.State.{State}
use ssh_moonminer.Sim.Tracks.{track_thrusters}
use ssh_moonminer.Sim.Tracks.Upgrades.{Upgraded, buy_ship_track-done}
use ssh_moonminer.Sim.Market.Trade.{Permitted, buy_destination_permit-done}
use ssh_moonminer.Sim.Frontier.Certification.{Certified, certify_rating-done}
use ssh_moonminer.Scenarios.Samples.{sector, second_class, docked_pilot}
use ssh_moonminer.Common.Int.{◌+ℤ◌, ◌-ℤ◌, ◌*ℤ◌}
use ssh_moonminer.Common.Dict.{lookup, insert}
use ssh_moonminer.Content.Lookup.{find, before_at, ship_by_id, system_by_id, world_by_id}
use ssh_moonminer.Sim.Condition.{is_docked}
use ssh_moonminer.Sim.Tracks.{track_base_price, track_price, buy_ship_track}
use ssh_moonminer.Sim.Market.{has_permit, buy_destination_permit, credit_origins, sell_cargo}
use ssh_moonminer.Sim.Frontier.{
  blank_record, frontier_record, update_record, next_rating, append_run_log, rating_requirements,
  all_met, certify_rating,
}

abbrev upgraded_pilot : State Whole
upgraded_pilot = (buy_ship_track docked_pilot sector "skiff" track_thrusters).0

upgraded : buy_ship_track docked_pilot sector "skiff" track_thrusters ≡ done upgraded_pilot
unfolding ◌+ℤ◌ ◌-ℤ◌ ◌*ℤ◌ lookup insert find before_at ship_by_id system_by_id world_by_id is_docked
    track_base_price track_price buy_ship_track has_permit buy_destination_permit credit_origins
    sell_cargo frontier_record update_record next_rating append_run_log rating_requirements all_met
    certify_rating
upgraded = refl

buy_ship_track-done_example : Upgraded docked_pilot sector "skiff" track_thrusters upgraded_pilot
buy_ship_track-done_example =
    buy_ship_track-done docked_pilot sector "skiff" track_thrusters upgraded

abbrev permitted_pilot : State Whole
permitted_pilot = (buy_destination_permit docked_pilot sector "ring").0

permitted : buy_destination_permit docked_pilot sector "ring" ≡ done permitted_pilot
unfolding ◌+ℤ◌ ◌-ℤ◌ ◌*ℤ◌ lookup insert find before_at ship_by_id system_by_id world_by_id is_docked
    track_base_price track_price buy_ship_track has_permit buy_destination_permit credit_origins
    sell_cargo frontier_record update_record next_rating append_run_log rating_requirements all_met
    certify_rating
permitted = refl

buy_destination_permit-done_example : Permitted docked_pilot sector "ring" permitted_pilot
buy_destination_permit-done_example =
    buy_destination_permit-done docked_pilot sector "ring" permitted

-- Cargo from two systems.
abbrev trading_pilot : State Whole
trading_pilot = record docked_pilot { cargo_origins = ("vega", pos 5) ∷ ("sol", pos 7) ∷ [] }

abbrev paid_pilot : State Whole
paid_pilot = (sell_cargo trading_pilot sector (pos 7)).0

-- A rating that asks for more than its price, and a pilot who has it.
abbrev demanding_sector : Content Whole
demanding_sector = record sector {
  ratings =
      record second_class { req_cargo_sold_value = pos 5; req_pirates_destroyed = pos 1 } ∷ [];
}

abbrev veteran : State Whole
veteran = record docked_pilot {
  frontier =
      ("sol", record blank_record { cargo_value_sold = pos 6; pirates_destroyed = pos 2 }) ∷ [];
}

abbrev rated_pilot : State Whole
rated_pilot = (certify_rating veteran demanding_sector).0

rated : certify_rating veteran demanding_sector ≡ done rated_pilot
unfolding ◌+ℤ◌ ◌-ℤ◌ ◌*ℤ◌ lookup insert find before_at ship_by_id system_by_id world_by_id is_docked
    track_base_price track_price buy_ship_track has_permit buy_destination_permit credit_origins
    sell_cargo frontier_record update_record next_rating append_run_log rating_requirements all_met
    certify_rating
rated = refl

certify_rating-done_example : Certified veteran demanding_sector rated_pilot
certify_rating-done_example = certify_rating-done veteran demanding_sector rated

abbrev refueled_pilot : State Whole
refueled_pilot = (refuel worn_pilot sector).0

refueled : refuel worn_pilot sector ≡ done refueled_pilot
unfolding ◌+ℤ◌ ◌-ℤ◌ ◌*ℤ◌ ◌/ℤ◌ lookup insert delete find before_at ship_by_id clamp clamp_int
    slot_item_kind slot_item_desc slot_item_locked slot_item_base_price slot_item_price
    slot_item_power_k slot_item_power slot_item_mass slot_item_sell_value slot_item_is_unique
    active_ship is_docked update_ship max_hull_for max_hull ship_hull fuel_tank_capacity
    fuel_in_tanks fuel_amount_for fuel_amount add_capacities fuel_capacity_for fuel_capacity
    fill_tanks set_fuel_amount_for copy_mirrors sync_active_condition_mirror import_fuel import_hull
    sync_active_condition_from_legacy set_active_hull track_base_price track_price buy_ship_track
    device_slice slot_at device_slot set_device other_holds find_device has_other_device
    validate_unique_slot_item power_capacity_for missile_capacity rearm_missiles_for_ship
    normalize_ship_missiles jammer_max_charges device_power add_power ship_power installed_power
    add_mass installed_mass add_cargo cargo_capacity_units_for cargo_capacity_after_change
    validate_cargo_after_replacement validate_device_removal_cargo shield_max_hp_for
    restore_ship_shield_full normalize_ship_shield no_shield reach_slot finish_device_installation
    fit power_fits install_checked install_synced install_slot_device resolve_occupied_slot
    clear_slot store_synced store_slot_device sell_synced sell_slot_device replace_checked
    replace_synced replace_slot_device_with_purchase inventory_at refit_checked refit_synced
    install_slot_device_from_inventory add_fuel top_up_all refuel_points_needed refuel repair_cost
    repair
refueled = refl

refuel-Paid_example : Paid (sync_active_condition_from_legacy worn_pilot sector) refueled_pilot
refuel-Paid_example = refuel-Paid worn_pilot sector (omega arith) refueled

abbrev repaired_pilot : State Whole
repaired_pilot = (repair worn_pilot sector).0

repaired : repair worn_pilot sector ≡ done repaired_pilot
unfolding ◌+ℤ◌ ◌-ℤ◌ ◌*ℤ◌ ◌/ℤ◌ lookup insert delete find before_at ship_by_id clamp clamp_int
    slot_item_kind slot_item_desc slot_item_locked slot_item_base_price slot_item_price
    slot_item_power_k slot_item_power slot_item_mass slot_item_sell_value slot_item_is_unique
    active_ship is_docked update_ship max_hull_for max_hull ship_hull fuel_tank_capacity
    fuel_in_tanks fuel_amount_for fuel_amount add_capacities fuel_capacity_for fuel_capacity
    fill_tanks set_fuel_amount_for copy_mirrors sync_active_condition_mirror import_fuel import_hull
    sync_active_condition_from_legacy set_active_hull track_base_price track_price buy_ship_track
    device_slice slot_at device_slot set_device other_holds find_device has_other_device
    validate_unique_slot_item power_capacity_for missile_capacity rearm_missiles_for_ship
    normalize_ship_missiles jammer_max_charges device_power add_power ship_power installed_power
    add_mass installed_mass add_cargo cargo_capacity_units_for cargo_capacity_after_change
    validate_cargo_after_replacement validate_device_removal_cargo shield_max_hp_for
    restore_ship_shield_full normalize_ship_shield no_shield reach_slot finish_device_installation
    fit power_fits install_checked install_synced install_slot_device resolve_occupied_slot
    clear_slot store_synced store_slot_device sell_synced sell_slot_device replace_checked
    replace_synced replace_slot_device_with_purchase inventory_at refit_checked refit_synced
    install_slot_device_from_inventory add_fuel top_up_all refuel_points_needed refuel repair_cost
    repair
repaired = refl

repair-Paid_example : Paid (sync_active_condition_from_legacy worn_pilot sector) repaired_pilot
repair-Paid_example = repair-Paid worn_pilot sector repaired

abbrev switched_pilot : State Whole
switched_pilot = (switch_active_ship fleet_pilot sector "skiff@vega").0

switched : switch_active_ship fleet_pilot sector "skiff@vega" ≡ done switched_pilot
unfolding ◌+ℤ◌ ◌-ℤ◌ ◌*ℤ◌ ◌/ℤ◌ lookup insert delete find before_at ship_by_id clamp clamp_int
    slot_item_kind slot_item_desc slot_item_locked slot_item_base_price slot_item_price
    slot_item_power_k slot_item_power slot_item_mass slot_item_sell_value slot_item_is_unique
    active_ship is_docked update_ship max_hull_for max_hull ship_hull fuel_tank_capacity
    fuel_in_tanks fuel_amount_for fuel_amount add_capacities fuel_capacity_for fuel_capacity
    fill_tanks set_fuel_amount_for copy_mirrors sync_active_condition_mirror import_fuel import_hull
    sync_active_condition_from_legacy set_active_hull track_base_price track_price buy_ship_track
    device_slice slot_at device_slot set_device other_holds find_device has_other_device
    validate_unique_slot_item power_capacity_for missile_capacity rearm_missiles_for_ship
    normalize_ship_missiles jammer_max_charges device_power add_power ship_power installed_power
    add_mass installed_mass add_cargo cargo_capacity_units_for cargo_capacity_after_change
    validate_cargo_after_replacement validate_device_removal_cargo shield_max_hp_for
    restore_ship_shield_full normalize_ship_shield no_shield reach_slot finish_device_installation
    fit power_fits install_checked install_synced install_slot_device resolve_occupied_slot
    clear_slot store_synced store_slot_device sell_synced sell_slot_device replace_checked
    replace_synced replace_slot_device_with_purchase inventory_at refit_checked refit_synced
    install_slot_device_from_inventory add_fuel top_up_all refuel_points_needed refuel repair_cost
    repair activate_ship switch_active_ship
switched = refl

switch_active_ship-Transferred_example : Transferred fleet_pilot "skiff@vega" switched_pilot
switch_active_ship-Transferred_example =
    switch_active_ship-Transferred fleet_pilot sector "skiff@vega" switched

-- Elsewhere, a sale and a first arrival between two visits.
abbrev journey : List (Event Whole)
journey = arrived "sol" (pos 5) ∷ sold_from (("vega", pos 4) ∷ []) ∷ []

visit_system-once_example :
    (visit_system (all_happen journey (visit_system docked_pilot "vega" (pos 3)).0) "vega" (pos 9)
      ≡ (all_happen journey (visit_system docked_pilot "vega" (pos 3)).0, false))
    × Dated docked_pilot "vega"
        (pos 3)
        (frontier_record
          (all_happen journey (visit_system docked_pilot "vega" (pos 3)).0)
          "vega").first_arrival_at
visit_system-once_example = visit_system-once docked_pilot "vega" (pos 3) (pos 9) journey
