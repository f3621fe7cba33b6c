-- ===== src/Scenarios/ShipyardRuns.antt =====
-- Orders to the shipyard.
use ssh_moonminer.Common.{◌≡◌, refl, inl}
use ssh_moonminer.Common.Int.{ℤ, pos, ◌≤ℤ◌}
use ssh_moonminer.Common.Float.{Whole, whole_float}
use ssh_moonminer.Sim.Errors.{fail, done, slot_occupied}
use ssh_moonminer.Sim.State.{State}
use ssh_moonminer.Sim.Catalog.{slot_weapon}
use ssh_moonminer.Sim.Shipyard.Orders.{buy, sell}
use ssh_moonminer.Sim.Shipyard.Refusals.{carry_out-refused}
use ssh_moonminer.Sim.Shipyard.Budget.{carry_out-within_power}
use ssh_moonminer.Common.{String}
use ssh_moonminer.Sim.Shipyard.Ledger.{
  Booked, price_of, refund_of, carry_out-Booked, purchase_no_debt,
}
use ssh_moonminer.Sim.Shipyard.Holdings.{holdings, given_up, gained, carry_out-balance}
use ssh_moonminer.Scenarios.Samples.{sector, docked_pilot}
use ssh_moonminer.Common.Int.{◌+ℤ◌, ◌-ℤ◌, ◌*ℤ◌, ◌/ℤ◌}
use ssh_moonminer.Common.Dict.{lookup, insert, delete}
use ssh_moonminer.Content.Lookup.{find, before_at, ship_by_id}
use ssh_moonminer.Sim.Numbers.{clamp, clamp_int}
use ssh_moonminer.Sim.Catalog.{
  slot_item_kind, slot_item_desc, slot_item_locked, slot_item_base_price, slot_item_price,
  slot_item_power_k, slot_item_power, slot_item_mass, slot_item_sell_value, slot_item_is_unique,
}
use ssh_moonminer.Sim.Condition.{
  active_ship, is_docked, update_ship, max_hull_for, max_hull, ship_hull, fuel_tank_capacity,
  fuel_in_tanks, fuel_amount_for, fuel_amount, add_capacities, fuel_capacity_for, fuel_capacity,
  fill_tanks, set_fuel_amount_for, copy_mirrors, sync_active_condition_mirror, import_fuel,
  import_hull, sync_active_condition_from_legacy, set_active_hull,
}
use ssh_moonminer.Sim.Tracks.{track_base_price, track_price, buy_ship_track}
use ssh_moonminer.Sim.Loadout.{
  device_slice, slot_at, device_slot, set_device, other_holds, find_device, has_other_device,
  validate_unique_slot_item, power_capacity_for, missile_capacity, rearm_missiles_for_ship,
  normalize_ship_missiles, jammer_max_charges, device_power, add_power, ship_power, installed_power,
  add_mass, installed_mass, add_cargo, cargo_capacity_units_for, cargo_capacity_after_change,
  validate_cargo_after_replacement, validate_device_removal_cargo, shield_max_hp_for,
  restore_ship_shield_full, normalize_ship_shield,
}
use ssh_moonminer.Sim.Shipyard.{
  no_shield, reach_slot, finish_device_installation, fit, power_fits, install_checked,
  install_synced, install_slot_device, resolve_occupied_slot, clear_slot, store_synced,
  store_slot_device, sell_synced, sell_slot_device, replace_checked, replace_synced,
  replace_slot_device_with_purchase, inventory_at, refit_checked, refit_synced,
  install_slot_device_from_inventory,
}
use ssh_moonminer.Sim.Shipyard.Orders.{carry_out_synced, carry_out}

abbrev armed_pilot : State Whole
armed_pilot = (carry_out docked_pilot sector "skiff" (buy slot_weapon (pos 0) "turret" (pos 2))).0

bought :
    carry_out docked_pilot sector "skiff" (buy slot_weapon (pos 0) "turret" (pos 2))
    ≡ done armed_pilot
unfolding ◌+ℤ◌ ◌-ℤ◌ ◌*ℤ◌ ◌/ℤ◌ lookup insert delete find before_at ship_by_id clamp clamp_int
    slot_item_kind slot_item_desc slot_item_locked slot_item_base_price slot_item_price
    slot_item_power_k slot_item_power slot_item_mass slot_item_sell_value slot_item_is_unique
    active_ship is_docked update_ship max_hull_for max_hull ship_hull fuel_tank_capacity
    fuel_in_tanks fuel_amount_for fuel_amount add_capacities fuel_capacity_for fuel_capacity
    fill_tanks set_fuel_amount_for copy_mirrors sync_active_condition_mirror import_fuel import_hull
    sync_active_condition_from_legacy set_active_hull track_base_price track_price buy_ship_track
    device_slice slot_at device_slot set_device other_holds find_device has_other_device
    validate_unique_slot_item power_capacity_for missile_capacity rearm_missiles_for_ship
    normalize_ship_missiles jammer_max_charges device_power add_power ship_power installed_power
    add_mass installed_mass add_cargo cargo_capacity_units_for cargo_capacity_after_change
    validate_cargo_after_replacement validate_device_removal_cargo shield_max_hp_for
    restore_ship_shield_full normalize_ship_shield no_shield reach_slot finish_device_installation
    fit power_fits install_checked install_synced install_slot_device resolve_occupied_slot
    clear_slot store_synced store_slot_device sell_synced sell_slot_device replace_checked
    replace_synced replace_slot_device_with_purchase inventory_at refit_checked refit_synced
    install_slot_device_from_inventory carry_out_synced carry_out
bought = refl

carry_out-within_power_example :
    installed_power armed_pilot sector "skiff" ≤ℤ power_capacity_for armed_pilot sector "skiff"
carry_out-within_power_example =
    carry_out-within_power docked_pilot sector "skiff" (buy slot_weapon (pos 0) "turret" (pos 2))
      refl bought

carry_out-Booked_example :
    Booked docked_pilot armed_pilot (price_of sector (buy slot_weapon (pos 0) "turret" (pos 2))) (
      refund_of
        (sync_active_condition_from_legacy docked_pilot sector)
        sector
        "skiff"
        (buy slot_weapon (pos 0) "turret" (pos 2)))
carry_out-Booked_example =
    carry_out-Booked docked_pilot sector "skiff" (buy slot_weapon (pos 0) "turret" (pos 2)) bought

purchase_no_debt_example : pos 0 ≤ℤ armed_pilot.credits
purchase_no_debt_example =
    purchase_no_debt docked_pilot sector "skiff" slot_weapon (pos 0) "turret" (pos 2) (inl bought)

-- One for every device.
abbrev one : String → ℤ → ℤ
one item grade = pos 1

abbrev unarmed_pilot : State Whole
unarmed_pilot = (carry_out docked_pilot sector "skiff" (sell slot_weapon (pos 1))).0

unloaded : carry_out docked_pilot sector "skiff" (sell slot_weapon (pos 1)) ≡ done unarmed_pilot
unfolding ◌+ℤ◌ ◌-ℤ◌ ◌*ℤ◌ ◌/ℤ◌ lookup insert delete find before_at ship_by_id clamp clamp_int
    slot_item_kind slot_item_desc slot_item_locked slot_item_base_price slot_item_price
    slot_item_power_k slot_item_power slot_item_mass slot_item_sell_value slot_item_is_unique
    active_ship is_docked update_ship max_hull_for max_hull ship_hull fuel_tank_capacity
    fuel_in_tanks fuel_amount_for fuel_amount add_capacities fuel_capacity_for fuel_capacity
    fill_tanks set_fuel_amount_for copy_mirrors sync_active_condition_mirror import_fuel import_hull
    sync_active_condition_from_legacy set_active_hull track_base_price track_price buy_ship_track
    device_slice slot_at device_slot set_device other_holds find_device has_other_device
    validate_unique_slot_item power_capacity_for missile_capacity rearm_missiles_for_ship
    normalize_ship_missiles jammer_max_charges device_power add_power ship_power installed_power
    add_mass installed_mass add_cargo cargo_capacity_units_for cargo_capacity_after_change
    validate_cargo_after_replacement validate_device_removal_cargo shield_max_hp_for
    restore_ship_shield_full normalize_ship_shield no_shield reach_slot finish_device_installation
    fit power_fits install_checked install_synced install_slot_device resolve_occupied_slot
    clear_slot store_synced store_slot_device sell_synced sell_slot_device replace_checked
    replace_synced replace_slot_device_with_purchase inventory_at refit_checked refit_synced
    install_slot_device_from_inventory carry_out_synced carry_out
unloaded = refl

carry_out-balance_example :
    holdings one unarmed_pilot "skiff"
      +ℤ given_up one
          (sync_active_condition_from_legacy docked_pilot sector)
          "skiff"
          (sell slot_weapon (pos 1))
    ≡ holdings one (sync_active_condition_from_legacy docked_pilot sector) "skiff"
      +ℤ gained one (sell slot_weapon (pos 1))
carry_out-balance_example =
    carry_out-balance one docked_pilot sector "skiff" (sell slot_weapon (pos 1)) unloaded

abbrev turned_away : State Whole
turned_away = (carry_out docked_pilot sector "skiff" (buy slot_weapon (pos 1) "turret" (pos 2))).0

occupied :
    carry_out docked_pilot sector "skiff" (buy slot_weapon (pos 1) "turret" (pos 2))
    ≡ fail turned_away slot_occupied
unfolding ◌+ℤ◌ ◌-ℤ◌ ◌*ℤ◌ ◌/ℤ◌ lookup insert delete find before_at ship_by_id clamp clamp_int
    slot_item_kind slot_item_desc slot_item_locked slot_item_base_price slot_item_price
    slot_item_power_k slot_item_power slot_item_mass slot_item_sell_value slot_item_is_unique
    active_ship is_docked update_ship max_hull_for max_hull ship_hull fuel_tank_capacity
    fuel_in_tanks fuel_amount_for fuel_amount add_capacities fuel_capacity_for fuel_capacity
    fill_tanks set_fuel_amount_for copy_mirrors sync_active_condition_mirror import_fuel import_hull
    sync_active_condition_from_legacy set_active_hull track_base_price track_price buy_ship_track
    device_slice slot_at device_slot set_device other_holds find_device has_other_device
    validate_unique_slot_item power_capacity_for missile_capacity rearm_missiles_for_ship
    normalize_ship_missiles jammer_max_charges device_power add_power ship_power installed_power
    add_mass installed_mass add_cargo cargo_capacity_units_for cargo_capacity_after_change
    validate_cargo_after_replacement validate_device_removal_cargo shield_max_hp_for
    restore_ship_shield_full normalize_ship_shield no_shield reach_slot finish_device_installation
    fit power_fits install_checked install_synced install_slot_device resolve_occupied_slot
    clear_slot store_synced store_slot_device sell_synced sell_slot_device replace_checked
    replace_synced replace_slot_device_with_purchase inventory_at refit_checked refit_synced
    install_slot_device_from_inventory carry_out_synced carry_out
occupied = refl

carry_out-refused_example : turned_away ≡ sync_active_condition_from_legacy docked_pilot sector
carry_out-refused_example =
    carry_out-refused docked_pilot sector "skiff" (buy slot_weapon (pos 1) "turret" (pos 2))
      occupied
