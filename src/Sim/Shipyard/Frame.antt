-- ===== src/Sim/Shipyard/Frame.antt =====
-- What shipyard work leaves alone outside the hangar: all of the save but the ships and the
-- mirrors of the active one.
use ssh_moonminer.Sim.Condition.{
  differs, fuel_amount, import_fuel, import_hull, set_fuel_amount_for,
  sync_active_condition_from_legacy,
}
use text.Mathlib.Text.{◌==◌}
use ssh_moonminer.Common.{◌≡◌, refl, ap, ◌∙◌, String, by_option, by_bool}
use ssh_moonminer.Common.Int.{ℤ}
use ssh_moonminer.Common.Float.{Float}
use ssh_moonminer.Common.Dict.{Dict, lookup}
use ssh_moonminer.Content.{Content}
use ssh_moonminer.Sim.State.{SlotDevice, ShipInstance, State}
use ssh_moonminer.Sim.Catalog.{SlotKind, item_shield, item_jammer, item_missile_launcher}
use ssh_moonminer.Sim.Condition.{
  update_ship, update_ship_absent, update_ship_present, copy_mirrors, active_ship,
  sync_active_condition_mirror,
}
use ssh_moonminer.Sim.Loadout.{
  rearm_missiles_for_ship, normalize_ship_missiles, normalize_ship_shield, restore_ship_shield_full,
}
use ssh_moonminer.Sim.Shipyard.{settle, fit, clear_slot, finish_device_installation}

pub record Frame {W : Type 0} {B : Type 0} (q : State W → B) : Type 0 where
  pub on_ships :
      (s : State W) (ships : Dict (ShipInstance W)) → q (record s { ships = ships }) ≡ q s
  pub on_mirrors :
      (s : State W) (fuel : W) (hull : ℤ) → q (record s { fuel = fuel; hull = hull }) ≡ q s

module _ {W : Type 0} ⦃F : Float W⦄ {B : Type 0} {q : State W → B} (Q : Frame q) where
  pub frame-update_ship :
      (s : State W) (id : String) (g : ShipInstance W → ShipInstance W)
      → q (update_ship id g s) ≡ q s
  frame-update_ship s id g =
      by_option (lookup id s.ships) (λ e. ap q (update_ship_absent s id g e))
        (λ inst e. ap q (update_ship_present s id g inst e) ∙ Q.on_ships s _)

  frame-finish :
      (s : State W) (c : Content W) (id : String) (d : SlotDevice W)
      → q (finish_device_installation s c id d) ≡ q s
  unfolding finish_device_installation rearm_missiles_for_ship restore_ship_shield_full
  frame-finish s c id d =
      by_bool (d.item_id == item_shield)
        (λ a. rw (a, finish_device_installation) (frame-update_ship s id _))
        (λ a.
          by_bool (d.item_id == item_jammer)
            (λ b. rw (a, b, finish_device_installation) (frame-update_ship s id _))
            (λ b.
              by_bool (d.item_id == item_missile_launcher)
                (λ e. rw (a, b, e, finish_device_installation) (frame-update_ship s id _))
                (λ e. rw (a, b, e, finish_device_installation))))

  frame-copy_mirrors : (s : State W) (c : Content W) → q (copy_mirrors s c) ≡ q s
  unfolding copy_mirrors
  frame-copy_mirrors s c =
      by_option (active_ship s) (λ e. rw (e, copy_mirrors))
        (λ inst e. rw (e, copy_mirrors) (Q.on_mirrors s _ _))

  pub frame-sync : (s : State W) (c : Content W) → q (sync_active_condition_mirror s c) ≡ q s
  unfolding sync_active_condition_mirror
  frame-sync s c = frame-copy_mirrors _ c ∙ frame-update_ship s s.active_ship_id _

  set_fuel-Frame :
      (s : State W) (c : Content W) (id : String) (x : W) → q (set_fuel_amount_for s c id x) ≡ q s
  unfolding set_fuel_amount_for
  set_fuel-Frame s c id x =
      by_option (lookup id s.ships) (λ a. rw (a, set_fuel_amount_for))
        (λ inst a. rw (a, set_fuel_amount_for) (Q.on_ships s _))

  pub legacy-Frame : (s : State W) (c : Content W) → q (sync_active_condition_from_legacy s c) ≡ q s
  unfolding sync_active_condition_from_legacy import_hull import_fuel
  legacy-Frame s c =
      by_option (active_ship s) (λ a. rw (a, sync_active_condition_from_legacy))
        (λ inst a.
          rw (a, sync_active_condition_from_legacy)
            (frame-sync _ c
              ∙ frame-update_ship (import_fuel s c) _ _
              ∙ by_bool (differs s.fuel (fuel_amount s c))
                  (λ d. rw (d, import_fuel) (set_fuel-Frame s c s.active_ship_id s.fuel))
                  (λ d. rw (d, import_fuel))))

  pub frame-settle : (s : State W) (c : Content W) (id : String) → q (settle s c id) ≡ q s
  frame-settle s c id =
      by_bool (id == s.active_ship_id) (λ e. rw (e, settle) (frame-sync s c)) (λ e. rw (e, settle))

  pub frame-fit :
      (s : State W) (c : Content W) (id : String) (inst : ShipInstance W) (kind : SlotKind) (i : ℤ)
      (d : SlotDevice W)
      → q (fit s c id inst kind i d) ≡ q s
  unfolding fit
  frame-fit s c id inst kind i d = frame-finish _ c id d ∙ Q.on_ships s _

  pub frame-normalize :
      (s : State W) (c : Content W) (id : String)
      → q (settle (normalize_ship_missiles (normalize_ship_shield s c id) c id) c id) ≡ q s
  unfolding normalize_ship_missiles normalize_ship_shield
  frame-normalize s c id = frame-settle _ c id ∙ frame-update_ship _ id _ ∙ frame-update_ship s id _

  pub frame-clear_slot :
      (s : State W) (c : Content W) (id : String) (inst : ShipInstance W) (kind : SlotKind) (i : ℤ)
      → q (clear_slot s c id inst kind i) ≡ q s
  unfolding clear_slot
  frame-clear_slot s c id inst kind i = frame-normalize _ c id ∙ Q.on_ships s _

module _ {W : Type 0} where
  pub credits-Frame : Frame {W = W} (λ s. s.credits)
  credits-Frame = record { on_ships = λ s m. refl; on_mirrors = λ s f h. refl }

  pub spent-Frame : Frame {W = W} (λ s. s.stats.credits_spent)
  spent-Frame = record { on_ships = λ s m. refl; on_mirrors = λ s f h. refl }

  pub inventory-Frame : Frame {W = W} (λ s. s.inventory)
  inventory-Frame = record { on_ships = λ s m. refl; on_mirrors = λ s f h. refl }

  pub active-Frame : Frame {W = W} (λ s. s.active_ship_id)
  active-Frame = record { on_ships = λ s m. refl; on_mirrors = λ s f h. refl }
