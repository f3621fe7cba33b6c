-- ===== src/Sim/Shipyard.antt =====
-- slots.go: buying, storing, selling, swapping and re-fitting slot devices at the dock.
-- Each action first imports the save's mirrors, so also a refused action may leave them synced.
pub mod Tally
pub mod Measure
pub mod Outcomes
pub mod Frame
pub mod Orders
pub mod Refusals
pub mod Budget
pub mod Ledger
pub mod Holdings
use text.Mathlib.Text.{◌==◌}
use ssh_moonminer.Common.{
  ℕ, String, Bool, true, false, not, ◌&&◌, ◌||◌, List, [], ◌∷◌, ◌++◌, Option, none, some,
  if◌then◌else◌, get_elem?, erase_idx,
}
use ssh_moonminer.Common.Int.{ℤ, pos, negsuc, ◌+ℤ◌, ◌-ℤ◌, ltb_ℤ}
use ssh_moonminer.Common.Dict.{lookup, insert}
use ssh_moonminer.Common.Float.{Float}
use ssh_moonminer.Content.{Content}
use ssh_moonminer.Content.Lookup.{ship_by_id}
use ssh_moonminer.Sim.Errors.{
  SimError, Result, ok, err, fail, done, in_belt, item_locked, invalid_slot_item, not_owned,
  ship_remote, slot_occupied, slot_empty, insufficient_funds, power_exceeded, invalid_inventory,
  nil_dereference,
}
use ssh_moonminer.Sim.State.{SlotDevice, ShipInstance, State}
use ssh_moonminer.Sim.Catalog.{
  SlotKind, same_kind, max_grade, item_shield, item_jammer, item_emp_launcher,
  item_missile_launcher, slot_item_kind, slot_item_locked, slot_item_price, slot_item_power,
  slot_item_sell_value,
}
use ssh_moonminer.Sim.Condition.{
  is_docked, put_ship, update_ship, nought, sync_active_condition_from_legacy,
  sync_active_condition_mirror,
}
use ssh_moonminer.Sim.Tracks.{spend}
use ssh_moonminer.Sim.Loadout.{
  Slot, device_slot, set_device, validate_unique_slot_item, power_capacity_for, installed_power,
  device_power, rearm_missiles_for_ship, normalize_ship_missiles, jammer_max_charges,
  validate_cargo_after_replacement, validate_device_removal_cargo, restore_ship_shield_full,
  normalize_ship_shield,
}

abbrev pub bad_grade : ℤ → Bool
bad_grade grade = ltb_ℤ grade (pos 0) || ltb_ℤ max_grade grade

module _ {W : Type 0} ⦃F : Float W⦄ where
  abbrev pub new_device : String → ℤ → SlotDevice W
  new_device item grade = record {
    item_id = item;
    grade = grade;
    emp_armed = false;
    missiles = pos 0;
    fuel = nought;
  }

  -- `c.ShipByID(inst.ModelID).NoShield`, which panics on an unknown model.
  unfoldable pub no_shield : Content W → ShipInstance W → Result Bool
  no_shield c inst = elim (ship_by_id c inst.model_id) [
    | none ↦ err nil_dereference
    | some model ↦ ok model.no_shield
  ]

  -- The guards that both installs and the swap share after the item's own checks: the ship is
  -- owned, here, may carry the item, and has the addressed slot.
  unfoldable pub reach_slot :
      State W → Content W → String → SlotKind → ℤ → String → Result (ShipInstance W × Slot W)
  unfolding no_shield
  reach_slot s c ship_id kind index item = elim (lookup ship_id s.ships) [
    | none ↦ err not_owned
    | some inst ↦
        if not (inst.system_id == s.system_id) then err ship_remote else elim (no_shield c inst) [
          | err e ↦ err e
          | ok refuses ↦
              if refuses && (item == item_shield)
              then err invalid_slot_item
              else elim (device_slot inst kind index) [ err e ↦ err e | ok d ↦ ok (inst, d) ]
        ]
  ]

  abbrev pub armed : SlotDevice W → SlotDevice W
  armed d = if d.item_id == item_emp_launcher then record d { emp_armed = true } else d

  -- finishDeviceInstallation, after the device (an EMP launcher armed) is in its slot.
  unfoldable pub finish_device_installation : State W → Content W → String → SlotDevice W → State W
  finish_device_installation s c ship_id d =
      if d.item_id == item_shield
      then restore_ship_shield_full s c ship_id
      else if d.item_id == item_jammer
      then update_ship ship_id
          (λ inst. record inst { jammer_charges = jammer_max_charges c d.grade }) s
      else if d.item_id == item_missile_launcher
      then rearm_missiles_for_ship s c ship_id
      else s

  abbrev pub settle : State W → Content W → String → State W
  settle s c ship_id = if ship_id == s.active_ship_id then sync_active_condition_mirror s c else s

  -- `*target = d` and the service of a fresh device.
  unfoldable pub fit :
      State W → Content W → String → ShipInstance W → SlotKind → ℤ → SlotDevice W → State W
  unfolding finish_device_installation
  fit s c ship_id inst kind index d =
      finish_device_installation (put_ship ship_id (set_device inst kind index (some (armed d))) s)
        c ship_id d

  unfoldable pub power_fits : State W → Content W → String → Slot W → String → ℤ → Bool
  power_fits s c ship_id old item grade = not (
      ltb_ℤ (power_capacity_for s c ship_id)
        (installed_power s c ship_id -ℤ device_power c old +ℤ slot_item_power c item grade))

  unfoldable pub install_checked :
      State W
      → Content W
      → String
      → SlotKind
      → ℤ
      → String
      → ℤ
      → ShipInstance W
      → Slot W
      → State W × Option SimError
  install_checked s c ship_id kind index item grade inst (some _) = fail s slot_occupied
  install_checked s c ship_id kind index item grade inst none =
      elim (validate_unique_slot_item inst kind index item) [
        | some e ↦ fail s e
        | none ↦
            let price = slot_item_price c item grade in
            if ltb_ℤ s.credits price
            then fail s insufficient_funds
            else if not (power_fits s c ship_id none item grade)
            then fail s power_exceeded
            else done (
                settle (fit (spend s price) c ship_id inst kind index (new_device item grade)) c
                  ship_id)
      ]

  unfoldable pub install_synced :
      State W → Content W → String → SlotKind → ℤ → String → ℤ → State W × Option SimError
  unfolding install_checked
  install_synced s c ship_id kind index item grade =
      if not (is_docked s)
      then fail s in_belt
      else if slot_item_locked item
      then fail s item_locked
      else if not (same_kind (slot_item_kind item) kind)
      then fail s invalid_slot_item
      else if bad_grade grade
      then fail s invalid_slot_item
      else elim (reach_slot s c ship_id kind index item) [
        | err e ↦ fail s e
        | ok (inst, slot) ↦ install_checked s c ship_id kind index item grade inst slot
      ]

  unfoldable pub install_slot_device :
      State W → Content W → String → SlotKind → ℤ → String → ℤ → State W × Option SimError
  unfolding install_synced
  install_slot_device s c ship_id kind index item grade =
      install_synced (sync_active_condition_from_legacy s c) c ship_id kind index item grade

  -- The docked, owned and occupied checks of a removal.
  unfoldable pub resolve_occupied_slot :
      State W → String → SlotKind → ℤ → Result (ShipInstance W × SlotDevice W)
  resolve_occupied_slot s ship_id kind index =
      if not (is_docked s) then err in_belt else elim (lookup ship_id s.ships) [
        | none ↦ err not_owned
        | some inst ↦
            if not (inst.system_id == s.system_id)
            then err ship_remote
            else elim (device_slot inst kind index) [
              | err e ↦ err e
              | ok none ↦ err slot_empty
              | ok (some d) ↦ ok (inst, d)
            ]
      ]

  -- The slot emptied, and what depends on the loadout normalised.
  unfoldable pub clear_slot : State W → Content W → String → ShipInstance W → SlotKind → ℤ → State W
  clear_slot s c ship_id inst kind index =
      settle
        (normalize_ship_missiles
          (normalize_ship_shield (put_ship ship_id (set_device inst kind index none) s) c ship_id) c
          ship_id)
        c ship_id

  unfoldable pub store_synced :
      State W → Content W → String → SlotKind → ℤ → State W × Option SimError
  unfolding resolve_occupied_slot
  store_synced s c ship_id kind index = elim (resolve_occupied_slot s ship_id kind index) [
    | err e ↦ fail s e
    | ok (inst, d) ↦ elim (validate_device_removal_cargo s c ship_id (some d)) [
      | some e ↦ fail s e
      | none ↦ done (
          clear_slot (record s { inventory = s.inventory ++ some d ∷ [] }) c ship_id inst kind
            index)
    ]
  ]

  unfoldable pub store_slot_device :
      State W → Content W → String → SlotKind → ℤ → State W × Option SimError
  unfolding store_synced
  store_slot_device s c ship_id kind index =
      store_synced (sync_active_condition_from_legacy s c) c ship_id kind index

  unfoldable pub sell_synced :
      State W → Content W → String → SlotKind → ℤ → State W × Option SimError
  unfolding resolve_occupied_slot
  sell_synced s c ship_id kind index = elim (resolve_occupied_slot s ship_id kind index) [
    | err e ↦ fail s e
    | ok (inst, d) ↦ elim (validate_device_removal_cargo s c ship_id (some d)) [
      | some e ↦ fail s e
      | none ↦
          let refund = slot_item_sell_value c d.item_id d.grade in
          done (clear_slot (record s { credits = s.credits +ℤ refund }) c ship_id inst kind index)
    ]
  ]

  unfoldable pub sell_slot_device :
      State W → Content W → String → SlotKind → ℤ → State W × Option SimError
  unfolding sell_synced
  sell_slot_device s c ship_id kind index =
      sell_synced (sync_active_condition_from_legacy s c) c ship_id kind index

  -- The refund and the price change hands at once.
  abbrev pub trade : State W → ℤ → ℤ → State W
  trade s refund price = record s {
    credits = s.credits +ℤ (refund -ℤ price);
    stats = record (s.stats) { credits_spent = s.stats.credits_spent +ℤ price };
  }

  unfoldable pub replace_checked :
      State W
      → Content W
      → String
      → SlotKind
      → ℤ
      → String
      → ℤ
      → ShipInstance W
      → Slot W
      → State W × Option SimError
  replace_checked s c ship_id kind index item grade inst none = fail s slot_empty
  replace_checked s c ship_id kind index item grade inst (some old) =
      let replacement = new_device item grade in
      elim (validate_unique_slot_item inst kind index item) [
        | some e ↦ fail s e
        | none ↦ elim (validate_cargo_after_replacement s c ship_id (some old) (some replacement)) [
          | some e ↦ fail s e
          | none ↦
              let price = slot_item_price c item grade in
              let refund = slot_item_sell_value c old.item_id old.grade in
              if not (power_fits s c ship_id (some old) item grade)
              then fail s power_exceeded
              else if ltb_ℤ (s.credits +ℤ refund) price
              then fail s insufficient_funds
              else done (
                  settle
                    (normalize_ship_missiles
                      (normalize_ship_shield
                        (fit (trade s refund price) c ship_id inst kind index replacement) c
                        ship_id)
                      c ship_id)
                    c ship_id)
        ]
      ]

  unfoldable pub replace_synced :
      State W → Content W → String → SlotKind → ℤ → String → ℤ → State W × Option SimError
  unfolding replace_checked
  replace_synced s c ship_id kind index item grade =
      if not (is_docked s)
      then fail s in_belt
      else if slot_item_locked item
          || (not (same_kind (slot_item_kind item) kind) || bad_grade grade)
      then fail s invalid_slot_item
      else elim (reach_slot s c ship_id kind index item) [
        | err e ↦ fail s e
        | ok (inst, slot) ↦ replace_checked s c ship_id kind index item grade inst slot
      ]

  unfoldable pub replace_slot_device_with_purchase :
      State W → Content W → String → SlotKind → ℤ → String → ℤ → State W × Option SimError
  unfolding replace_synced
  replace_slot_device_with_purchase s c ship_id kind index item grade =
      replace_synced (sync_active_condition_from_legacy s c) c ship_id kind index item grade

  unfoldable pub inventory_at : State W → ℤ → Slot W
  inventory_at s (negsuc n) = none
  inventory_at s (pos n) = elim (get_elem? s.inventory n) [ none ↦ none | some d ↦ d ]

  abbrev pub without_stored : State W → ℤ → State W
  without_stored s (negsuc n) = s
  without_stored s (pos n) = record s { inventory = erase_idx s.inventory n }

  unfoldable pub refit_checked :
      State W
      → Content W
      → String
      → SlotKind
      → ℤ
      → ℤ
      → SlotDevice W
      → ShipInstance W
      → Slot W
      → State W × Option SimError
  refit_checked s c ship_id kind index stored d inst (some _) = fail s slot_occupied
  refit_checked s c ship_id kind index stored d inst none =
      elim (validate_unique_slot_item inst kind index d.item_id) [
        | some e ↦ fail s e
        | none ↦
            if not (power_fits s c ship_id none d.item_id d.grade)
            then fail s power_exceeded
            else done (settle (fit (without_stored s stored) c ship_id inst kind index d) c ship_id)
      ]

  unfoldable pub refit_synced :
      State W → Content W → String → SlotKind → ℤ → ℤ → State W × Option SimError
  unfolding refit_checked inventory_at
  refit_synced s c ship_id kind index stored =
      if not (is_docked s) then fail s in_belt else elim (inventory_at s stored) [
        | none ↦ fail s invalid_inventory
        | some d ↦
            if not (same_kind (slot_item_kind d.item_id) kind)
            then fail s invalid_slot_item
            else if slot_item_locked d.item_id
            then fail s item_locked
            else elim (reach_slot s c ship_id kind index d.item_id) [
              | err e ↦ fail s e
              | ok (inst, slot) ↦ refit_checked s c ship_id kind index stored d inst slot
            ]
      ]

  unfoldable pub install_slot_device_from_inventory :
      State W → Content W → String → SlotKind → ℤ → ℤ → State W × Option SimError
  unfolding refit_synced
  install_slot_device_from_inventory s c ship_id kind index stored =
      refit_synced (sync_active_condition_from_legacy s c) c ship_id kind index stored
