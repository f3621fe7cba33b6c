-- ===== src/Sim/Shipyard/Orders.antt =====
-- The five orders that the shipyard takes for a ship, as one type, so that a theorem can speak of
-- all of them.
use ssh_moonminer.Common.{◌≡◌, refl, String, Bool, true, false, Option}
use ssh_moonminer.Common.Int.{ℤ}
use ssh_moonminer.Common.Float.{Float}
use ssh_moonminer.Content.{Content}
use ssh_moonminer.Sim.Errors.{SimError}
use ssh_moonminer.Sim.State.{State}
use ssh_moonminer.Sim.Catalog.{SlotKind}
use ssh_moonminer.Sim.Condition.{sync_active_condition_from_legacy}
use ssh_moonminer.Sim.Shipyard.{
  install_synced, replace_synced, refit_synced, store_synced, sell_synced, install_slot_device,
  replace_slot_device_with_purchase, install_slot_device_from_inventory, store_slot_device,
  sell_slot_device,
}

pub data Order : Type 0 where
  buy : SlotKind → ℤ → String → ℤ → Order  -- the item and its grade
  store : SlotKind → ℤ → Order
  sell : SlotKind → ℤ → Order
  swap : SlotKind → ℤ → String → ℤ → Order
  refit : SlotKind → ℤ → ℤ → Order  -- the device's place in the inventory

-- The orders that put a device into a slot.
abbrev pub fits_device : Order → Bool
fits_device (buy kind i item grade) = true
fits_device (swap kind i item grade) = true
fits_device (refit kind i k) = true
fits_device (store kind i) = false
fits_device (sell kind i) = false

module _ {W : Type 0} ⦃F : Float W⦄ where
  -- The order, once the save's mirrors are imported.
  unfoldable pub carry_out_synced : State W → Content W → String → Order → State W × Option SimError
  carry_out_synced s c id (buy kind i item grade) = install_synced s c id kind i item grade
  carry_out_synced s c id (store kind i) = store_synced s c id kind i
  carry_out_synced s c id (sell kind i) = sell_synced s c id kind i
  carry_out_synced s c id (swap kind i item grade) = replace_synced s c id kind i item grade
  carry_out_synced s c id (refit kind i k) = refit_synced s c id kind i k

  unfoldable pub carry_out : State W → Content W → String → Order → State W × Option SimError
  carry_out s c id (buy kind i item grade) = install_slot_device s c id kind i item grade
  carry_out s c id (store kind i) = store_slot_device s c id kind i
  carry_out s c id (sell kind i) = sell_slot_device s c id kind i
  carry_out s c id (swap kind i item grade) =
      replace_slot_device_with_purchase s c id kind i item grade
  carry_out s c id (refit kind i k) = install_slot_device_from_inventory s c id kind i k

  pub carry_out_lem :
      (s : State W) (c : Content W) (id : String) (o : Order)
      → carry_out s c id o ≡ carry_out_synced (sync_active_condition_from_legacy s c) c id o
  unfolding carry_out carry_out_synced install_slot_device store_slot_device sell_slot_device
      replace_slot_device_with_purchase install_slot_device_from_inventory
  carry_out_lem s c id (buy kind i item grade) = refl
  carry_out_lem s c id (store kind i) = refl
  carry_out_lem s c id (sell kind i) = refl
  carry_out_lem s c id (swap kind i item grade) = refl
  carry_out_lem s c id (refit kind i k) = refl
