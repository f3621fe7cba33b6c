-- ===== src/Sim/Shipyard/Measure.antt =====
-- What dock service leaves alone. A measure of a ship is anything that the fuel and hull
-- condition, the shield's charge, the jammer's charges and the missiles do not enter.
use mathlib.Core.Path.{subst}
use text.Mathlib.Text.{◌==◌}
use ssh_moonminer.Common.{
  ◌≡◌, sym, ap, ◌∙◌, String, Bool, map, Option, none, some, inl, inr, eq_iff, Option-cases,
  Bool-cases, if-elim,
}
use ssh_moonminer.Common.Int.{ℤ}
use ssh_moonminer.Common.Dict.{lookup, lookup-insert_self}
use ssh_moonminer.Common.Float.{Float}
use ssh_moonminer.Content.{Content}
use ssh_moonminer.Sim.State.{SlotDevice, ShipInstance, State}
use ssh_moonminer.Sim.Catalog.{SlotKind, item_shield, item_jammer, item_missile_launcher}
use ssh_moonminer.Sim.Condition.{
  put_ship, active_ship, update_ship, update_ship_absent, update_ship_present, clamp_condition,
  copy_mirrors, sync_active_condition_mirror, max_hull,
}
use ssh_moonminer.Sim.Loadout.{
  set_device, on_launcher, rearm_missiles_for_ship, normalize_ship_missiles,
  restore_ship_shield_full, normalize_ship_shield,
}
use ssh_moonminer.Sim.Shipyard.{finish_device_installation, settle, fit, armed, clear_slot}

pub record Measure {W : Type 0} ⦃F : Float W⦄ {B : Type 0} (m : ShipInstance W → B) : Type 0 where
  pub on_weapons :
      (inst : ShipInstance W) (load : SlotDevice W → ℤ)
      → m (record inst { weapon = map (on_launcher load) inst.weapon }) ≡ m inst
  pub on_condition :
      (c : Content W) (top : ℤ) (inst : ShipInstance W) → m (clamp_condition c top inst) ≡ m inst
  pub on_shield :
      (inst : ShipInstance W) (hp : W) (b : Bool)
      → m (record inst { shield_hp = hp; shield_damaged = b }) ≡ m inst
  pub on_jammer : (inst : ShipInstance W) (n : ℤ) → m (record inst { jammer_charges = n }) ≡ m inst

module _ {W : Type 0} {B : Type 0} (m : ShipInstance W → B) where
  abbrev pub measured : Option (ShipInstance W) → Option B
  measured none = none
  measured (some inst) = some (m inst)

  -- The measure of the ship that the hangar holds under a name.
  abbrev pub of_ship : State W → String → Option B
  of_ship s id = measured (lookup id s.ships)

  pub of_ship-put_ship :
      (s : State W) (id : String) (inst : ShipInstance W)
      → of_ship (put_ship id inst s) id ≡ some (m inst)
  of_ship-put_ship s id inst = ap measured (lookup-insert_self id inst s.ships)

  pub of_ship-update_ship :
      (s : State W) (id : String) (g : ShipInstance W → ShipInstance W)
      → ((inst : ShipInstance W) → m (g inst) ≡ m inst)
      → of_ship (update_ship id g s) id ≡ of_ship s id
  of_ship-update_ship s id g keep = elim (Option-cases (lookup id s.ships)) [
    | inl e ↦ ap (λ t. of_ship t id) (update_ship_absent s id g e)
    | inr (inst, e) ↦
        ap (λ t. of_ship t id) (update_ship_present s id g inst e)
        ∙ of_ship-put_ship s id (g inst)
        ∙ ap some (keep inst)
        ∙ sym (ap measured e)
  ]

module _ {W : Type 0} ⦃F : Float W⦄ {B : Type 0} {m : ShipInstance W → B} (M : Measure m) where
  of_ship-rearm :
      (s : State W) (c : Content W) (id : String)
      → of_ship m (rearm_missiles_for_ship s c id) id ≡ of_ship m s id
  unfolding rearm_missiles_for_ship
  of_ship-rearm s c id = of_ship-update_ship m s id _ (λ inst. M.on_weapons inst _)

  of_ship-normalize_missiles :
      (s : State W) (c : Content W) (id : String)
      → of_ship m (normalize_ship_missiles s c id) id ≡ of_ship m s id
  unfolding normalize_ship_missiles
  of_ship-normalize_missiles s c id = of_ship-update_ship m s id _ (λ inst. M.on_weapons inst _)

  of_ship-restore :
      (s : State W) (c : Content W) (id : String)
      → of_ship m (restore_ship_shield_full s c id) id ≡ of_ship m s id
  unfolding restore_ship_shield_full
  of_ship-restore s c id = of_ship-update_ship m s id _ (λ inst. M.on_shield inst _ _)

  abbrev Same : ShipInstance W → ShipInstance W → Type 0
  Same inst t = m t ≡ m inst

  of_ship-normalize_shield :
      (s : State W) (c : Content W) (id : String)
      → of_ship m (normalize_ship_shield s c id) id ≡ of_ship m s id
  unfolding normalize_ship_shield
  of_ship-normalize_shield s c id =
      of_ship-update_ship m s id _ λ inst.
        if-elim (Same inst) _ (M.on_shield inst _ _) (M.on_shield inst _ inst.shield_damaged)

  of_ship-finish :
      (s : State W) (c : Content W) (id : String) (d : SlotDevice W)
      → of_ship m (finish_device_installation s c id d) id ≡ of_ship m s id
  unfolding finish_device_installation
  of_ship-finish s c id d = elim (Bool-cases (d.item_id == item_shield)) [
    | inl a ↦ rw (a, finish_device_installation) (of_ship-restore s c id)
    | inr a ↦ elim (Bool-cases (d.item_id == item_jammer)) [
      | inl b ↦
          rw (a, b, finish_device_installation)
            (of_ship-update_ship m s id _ (λ inst. M.on_jammer inst _))
      | inr b ↦ elim (Bool-cases (d.item_id == item_missile_launcher)) [
        | inl e ↦ rw (a, b, e, finish_device_installation) (of_ship-rearm s c id)
        | inr e ↦ rw (a, b, e, finish_device_installation)
      ]
    ]
  ]

  ships-copy_mirrors : (s : State W) (c : Content W) → (copy_mirrors s c).ships ≡ s.ships
  unfolding copy_mirrors
  ships-copy_mirrors s c = elim (Option-cases (active_ship s)) [
    | inl e ↦ rw (e, copy_mirrors)
    | inr (inst, e) ↦ rw (e, copy_mirrors)
  ]

  of_ship-sync :
      (s : State W) (c : Content W)
      → of_ship m (sync_active_condition_mirror s c) s.active_ship_id ≡ of_ship m s s.active_ship_id
  unfolding sync_active_condition_mirror
  of_ship-sync s c =
      ap (λ t. measured m (lookup s.active_ship_id t)) (ships-copy_mirrors _ c)
      ∙ of_ship-update_ship m s s.active_ship_id _ (M.on_condition c (max_hull s c))

  pub of_ship-settle :
      (s : State W) (c : Content W) (id : String) → of_ship m (settle s c id) id ≡ of_ship m s id
  of_ship-settle s c id = elim (Bool-cases (id == s.active_ship_id)) [
    | inl e ↦
        rw (e, settle)
          (subst (λ j. of_ship m (sync_active_condition_mirror s c) j ≡ of_ship m s j)
            (sym ((eq_iff id s.active_ship_id).0 e)) (of_ship-sync s c))
    | inr e ↦ rw (e, settle)
  ]

  pub of_ship-fit :
      (s : State W) (c : Content W) (id : String) (inst : ShipInstance W) (kind : SlotKind) (i : ℤ)
      (d : SlotDevice W)
      → of_ship m (fit s c id inst kind i d) id ≡ some (m (set_device inst kind i (some (armed d))))
  unfolding fit
  of_ship-fit s c id inst kind i d = of_ship-finish _ c id d ∙ of_ship-put_ship m s id _

  pub of_ship-normalize :
      (s : State W) (c : Content W) (id : String)
      → of_ship m (settle (normalize_ship_missiles (normalize_ship_shield s c id) c id) c id) id
        ≡ of_ship m s id
  of_ship-normalize s c id =
      of_ship-settle _ c id ∙ of_ship-normalize_missiles _ c id ∙ of_ship-normalize_shield s c id

  pub of_ship-clear_slot :
      (s : State W) (c : Content W) (id : String) (inst : ShipInstance W) (kind : SlotKind) (i : ℤ)
      → of_ship m (clear_slot s c id inst kind i) id ≡ some (m (set_device inst kind i none))
  unfolding clear_slot
  of_ship-clear_slot s c id inst kind i = of_ship-normalize _ c id ∙ of_ship-put_ship m s id _
