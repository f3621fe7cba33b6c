-- ===== src/Sim/Shipyard/Refusals.antt =====
-- What a refused shipyard order leaves: the save as it was, with its mirrors imported.
use ssh_moonminer.Common.{◌≡◌, sym, ◌∙◌, String, none, some, arith, by_option}
use ssh_moonminer.Common.Int.{ℤ}
use ssh_moonminer.Common.Float.{Float}
use ssh_moonminer.Content.{Content}
use ssh_moonminer.Sim.Errors.{SimError, fail, by_result}
use ssh_moonminer.Sim.State.{SlotDevice, ShipInstance, State}
use ssh_moonminer.Sim.Catalog.{SlotKind}
use ssh_moonminer.Sim.Condition.{sync_active_condition_from_legacy}
use ssh_moonminer.Sim.Loadout.{Slot}
use ssh_moonminer.Sim.Shipyard.{
  reach_slot, install_checked, install_synced, replace_checked, replace_synced, refit_checked,
  inventory_at, refit_synced, store_synced, sell_synced,
}
use ssh_moonminer.Sim.Shipyard.Orders.{
  Order, buy, store, sell, swap, refit, carry_out_synced, carry_out, carry_out_lem,
}

module _ {W : Type 0} ⦃F : Float W⦄ where
  install_checked-refused :
      (s : State W) (c : Content W) (id : String) (kind : SlotKind) (i : ℤ) (item : String)
      (grade : ℤ) (inst : ShipInstance W) (slot : Slot W) {t : State W} {e : SimError}
      → install_checked s c id kind i item grade inst slot ≡ fail t e
      → t ≡ s
  unfolding install_checked
  install_checked-refused s c id kind i item grade inst (some d) h = ground arith
  install_checked-refused s c id kind i item grade inst none h = ground arith

  install-refused :
      (s : State W) (c : Content W) (id : String) (kind : SlotKind) (i : ℤ) (item : String)
      (grade : ℤ) {t : State W} {e : SimError}
      → install_synced s c id kind i item grade ≡ fail t e
      → t ≡ s
  unfolding install_synced
  install-refused s c id kind i item grade h =
      by_result (reach_slot s c id kind i item) (λ e r. ground arith)
        (λ p r. ground (arith, install_checked-refused s c id kind i item grade p.0 p.1))

  replace_checked-refused :
      (s : State W) (c : Content W) (id : String) (kind : SlotKind) (i : ℤ) (item : String)
      (grade : ℤ) (inst : ShipInstance W) (slot : Slot W) {t : State W} {e : SimError}
      → replace_checked s c id kind i item grade inst slot ≡ fail t e
      → t ≡ s
  unfolding replace_checked
  replace_checked-refused s c id kind i item grade inst (some d) h = ground arith
  replace_checked-refused s c id kind i item grade inst none h = ground arith

  replace-refused :
      (s : State W) (c : Content W) (id : String) (kind : SlotKind) (i : ℤ) (item : String)
      (grade : ℤ) {t : State W} {e : SimError}
      → replace_synced s c id kind i item grade ≡ fail t e
      → t ≡ s
  unfolding replace_synced
  replace-refused s c id kind i item grade h =
      by_result (reach_slot s c id kind i item) (λ e r. ground arith)
        (λ p r. ground (arith, replace_checked-refused s c id kind i item grade p.0 p.1))

  refit_checked-refused :
      (s : State W) (c : Content W) (id : String) (kind : SlotKind) (i k : ℤ) (d : SlotDevice W)
      (inst : ShipInstance W) (slot : Slot W) {t : State W} {e : SimError}
      → refit_checked s c id kind i k d inst slot ≡ fail t e
      → t ≡ s
  unfolding refit_checked
  refit_checked-refused s c id kind i k d inst (some x) h = ground arith
  refit_checked-refused s c id kind i k d inst none h = ground arith

  refit-refused :
      (s : State W) (c : Content W) (id : String) (kind : SlotKind) (i k : ℤ) {t : State W}
      {e : SimError}
      → refit_synced s c id kind i k ≡ fail t e
      → t ≡ s
  unfolding refit_synced
  refit-refused s c id kind i k h =
      by_option (inventory_at s k) (λ e. ground arith)
        (λ d x.
          by_result (reach_slot s c id kind i d.item_id) (λ e r. ground arith)
            (λ p r. ground (arith, refit_checked-refused s c id kind i k d p.0 p.1)))

  store-refused :
      (s : State W) (c : Content W) (id : String) (kind : SlotKind) (i : ℤ) {t : State W}
      {e : SimError}
      → store_synced s c id kind i ≡ fail t e
      → t ≡ s
  unfolding store_synced
  store-refused s c id kind i h = ground arith

  sell-refused :
      (s : State W) (c : Content W) (id : String) (kind : SlotKind) (i : ℤ) {t : State W}
      {e : SimError}
      → sell_synced s c id kind i ≡ fail t e
      → t ≡ s
  unfolding sell_synced
  sell-refused s c id kind i h = ground arith

  carry_out_synced-refused :
      (s : State W) (c : Content W) (id : String) (o : Order) {t : State W} {e : SimError}
      → carry_out_synced s c id o ≡ fail t e
      → t ≡ s
  unfolding carry_out_synced
  carry_out_synced-refused s c id (buy kind i item grade) h =
      install-refused s c id kind i item grade h
  carry_out_synced-refused s c id (store kind i) h = store-refused s c id kind i h
  carry_out_synced-refused s c id (sell kind i) h = sell-refused s c id kind i h
  carry_out_synced-refused s c id (swap kind i item grade) h =
      replace-refused s c id kind i item grade h
  carry_out_synced-refused s c id (refit kind i k) h = refit-refused s c id kind i k h

  -- A refused shipyard order, whatever the order and the reason, leaves exactly the save it found
  -- with the fuel and hull mirrors imported: no credits, device or ship is lost half-way.
  pub carry_out-refused :
      (s : State W) (c : Content W) (id : String) (o : Order) {t : State W} {e : SimError}
      → carry_out s c id o ≡ fail t e
      → t ≡ sync_active_condition_from_legacy s c
  carry_out-refused s c id o h =
      carry_out_synced-refused _ c id o (sym (carry_out_lem s c id o) ∙ h)
