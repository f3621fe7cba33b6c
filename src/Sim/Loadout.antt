-- ===== src/Sim/Loadout.antt =====
-- slots.go: the device slots of a ship, what is fitted in them, and their dock service.
use text.Mathlib.Text.{◌==◌}
use ssh_moonminer.Common.{
  ℕ, zero, suc, ◌-◌, String, Bool, false, not, ◌&&◌, ◌||◌, List, [], ◌∷◌, map, Option, none, some,
  if◌then◌else◌, get_elem?, set, length, leb,
}
use ssh_moonminer.Common.{◌==◌ as nat_eq}
use ssh_moonminer.Common.Int.{ℤ, pos, negsuc, pos_part, ◌+ℤ◌, ◌*ℤ◌, ◌/ℤ◌, leb_ℤ, max_ℤ}
use ssh_moonminer.Common.Dict.{lookup}
use ssh_moonminer.Common.Float.{Float}
use ssh_moonminer.Content.{Content}
use ssh_moonminer.Content.Lookup.{ship_by_id}
use ssh_moonminer.Sim.Errors.{
  Result, ok, err, invalid_slot_index, SimError, duplicate_item, cargo_does_not_fit,
}
use ssh_moonminer.Sim.State.{SlotDevice, ShipInstance, State}
use ssh_moonminer.Sim.Numbers.{clamp, clamp_int}
use ssh_moonminer.Sim.Catalog.{
  SlotKind, slot_utility, slot_weapon, slot_internal, item_cargo, item_shield,
  item_missile_launcher, max_grade, slot_item_power, slot_item_mass, slot_item_is_unique,
}
use ssh_moonminer.Sim.Condition.{update_ship, nought}

abbrev pub same_index : ℤ → ℕ → Bool
same_index (pos n) i = nat_eq n i
same_index (negsuc n) i = false

abbrev pub Slot : Type 0 → Type 0
Slot W = Option (SlotDevice W)

module _ {W : Type 0} where
  -- InternalDevices: the first internal slot, then the additional ones.
  abbrev pub internal_devices : ShipInstance W → List (Slot W)
  internal_devices inst = inst.internal ∷ inst.additional_internal

  unfoldable pub device_slice : ShipInstance W → SlotKind → List (Slot W)
  device_slice inst slot_utility = inst.utility
  device_slice inst slot_weapon = inst.weapon
  device_slice inst slot_internal = internal_devices inst

  unfoldable pub slot_at : List (Slot W) → ℤ → Result (Slot W)
  slot_at ds (negsuc n) = err invalid_slot_index
  slot_at ds (pos n) = elim (get_elem? ds n) [ none ↦ err invalid_slot_index | some d ↦ ok d ]

  -- deviceSlot, read: what the addressed slot holds, or why there is no such slot.
  unfoldable pub device_slot : ShipInstance W → SlotKind → ℤ → Result (Slot W)
  unfolding slot_at
  device_slot inst slot_utility i = slot_at inst.utility i
  device_slot inst slot_weapon i = slot_at inst.weapon i
  device_slot inst slot_internal (pos zero) = ok inst.internal
  device_slot inst slot_internal (pos (suc n)) = slot_at inst.additional_internal (pos n)
  device_slot inst slot_internal (negsuc n) = err invalid_slot_index

  -- deviceSlot, written through: `*target = d`.
  unfoldable pub set_device : ShipInstance W → SlotKind → ℤ → Slot W → ShipInstance W
  set_device inst slot_utility i d = record inst { utility = set inst.utility (pos_part i) d }
  set_device inst slot_weapon i d = record inst { weapon = set inst.weapon (pos_part i) d }
  set_device inst slot_internal (pos (suc n)) d = record inst {
    additional_internal = set inst.additional_internal n d;
  }
  set_device inst slot_internal _ d = record inst { internal = d }

  abbrev pub holds : String → Slot W → Bool
  holds id none = false
  holds id (some d) = d.item_id == id

  -- The slots from number `i` on, other than `exclude`.
  unfoldable pub other_holds : String → ℤ → ℕ → List (Slot W) → Bool
  other_holds id exclude i [] = false
  other_holds id exclude i (d ∷ ds) =
      (not (same_index exclude i) && holds id d) || other_holds id exclude (suc i) ds

  unfoldable pub find_device : String → List (Slot W) → Slot W
  find_device id [] = none
  find_device id (none ∷ ds) = find_device id ds
  find_device id (some d ∷ ds) = if d.item_id == id then some d else find_device id ds

  unfoldable pub has_other_device : ShipInstance W → SlotKind → ℤ → String → Bool
  unfolding other_holds device_slice
  has_other_device inst kind exclude id = other_holds id exclude 0 (device_slice inst kind)

  unfoldable pub validate_unique_slot_item :
      ShipInstance W → SlotKind → ℤ → String → Option SimError
  unfolding has_other_device
  validate_unique_slot_item inst kind index id =
      if slot_item_is_unique id && has_other_device inst kind index id
      then some duplicate_item
      else none

  unfoldable pub power_capacity_for : State W → Content W → String → ℤ
  power_capacity_for s c id = elim (lookup id s.ships) [
    | none ↦ c.fleet.power_capacity_base
    | some inst ↦
        c.fleet.power_capacity_base +ℤ c.fleet.power_capacity_per_grade *ℤ inst.grades.power_gen
  ]

  unfoldable pub missile_capacity : Content W → ℤ → ℤ
  unfolding clamp_int
  missile_capacity c grade =
      let caps = c.slots.missile_capacity_by_grade in
      let g = pos_part (clamp_int grade (pos 0) max_grade) in
      let i = if leb (length caps) g then length caps - 1 else g in
      elim (get_elem? caps i) [ none ↦ pos 0 | some n ↦ max_ℤ (pos 0) n ]

  abbrev pub on_launcher : (SlotDevice W → ℤ) → Slot W → Slot W
  on_launcher load none = none
  on_launcher load (some d) =
      if d.item_id == item_missile_launcher then some (record d { missiles = load d }) else some d

  unfoldable pub rearm_missiles_for_ship : State W → Content W → String → State W
  rearm_missiles_for_ship s c id =
      update_ship id
        (λ inst. record inst {
          weapon = map (on_launcher (λ d. missile_capacity c d.grade)) inst.weapon;
        })
        s

  unfoldable pub normalize_ship_missiles : State W → Content W → String → State W
  unfolding clamp_int
  normalize_ship_missiles s c id =
      update_ship id
        (λ inst. record inst {
          weapon =
              map (on_launcher (λ d. clamp_int d.missiles (pos 0) (missile_capacity c d.grade)))
                inst.weapon;
        })
        s

  unfoldable pub jammer_max_charges : Content W → ℤ → ℤ
  jammer_max_charges c grade =
      let step = c.slots.jammer_grade_uses_step in
      if leb_ℤ step (pos 0) then pos 1 else pos 1 +ℤ grade /ℤ step

module _ {W : Type 0} ⦃F : Float W⦄ where
  unfoldable pub device_power : Content W → Slot W → ℤ
  device_power c none = pos 0
  device_power c (some d) = slot_item_power c d.item_id d.grade

  -- The loop `total += SlotItemPower(...)` over the devices that are there.
  unfoldable pub add_power : Content W → ℤ → List (Slot W) → ℤ
  add_power c total [] = total
  add_power c total (none ∷ ds) = add_power c total ds
  add_power c total (some d ∷ ds) = add_power c (total +ℤ slot_item_power c d.item_id d.grade) ds

  unfoldable pub ship_power : Content W → ShipInstance W → ℤ
  unfolding add_power
  ship_power c inst =
      add_power c (add_power c (add_power c (pos 0) inst.utility) inst.weapon)
        (internal_devices inst)

  unfoldable pub installed_power : State W → Content W → String → ℤ
  unfolding ship_power
  installed_power s c id = elim (lookup id s.ships) [ none ↦ pos 0 | some inst ↦ ship_power c inst ]

  unfoldable pub add_mass : Content W → W → List (Slot W) → W
  add_mass c total [] = total
  add_mass c total (none ∷ ds) = add_mass c total ds
  add_mass c total (some d ∷ ds) = add_mass c (F.add total (slot_item_mass c d.item_id d.grade)) ds

  unfoldable pub installed_mass : State W → Content W → String → W
  unfolding add_mass
  installed_mass s c id = elim (lookup id s.ships) [
    | none ↦ nought
    | some inst ↦ elim (ship_by_id c inst.model_id) [
      | none ↦ nought
      | some model ↦
          add_mass c (add_mass c (add_mass c model.base_mass inst.utility) inst.weapon)
            (internal_devices inst)
    ]
  ]

  abbrev pub cargo_bonus : Content W → SlotDevice W → W
  cargo_bonus c d = F.mul c.slots.cargo_per_grade (F.of_int (d.grade +ℤ pos 1))

  unfoldable pub add_cargo : Content W → W → List (Slot W) → W
  add_cargo c total [] = total
  add_cargo c total (none ∷ ds) = add_cargo c total ds
  add_cargo c total (some d ∷ ds) =
      add_cargo c (if d.item_id == item_cargo then F.add total (cargo_bonus c d) else total) ds

  unfoldable pub cargo_capacity_units_for : State W → Content W → String → W
  unfolding add_cargo
  cargo_capacity_units_for s c id = elim (lookup id s.ships) [
    | none ↦ F.largest
    | some inst ↦
        let base : W = elim (ship_by_id c inst.model_id) [
          | none ↦ nought
          | some m ↦ m.base_cargo
        ] in
        add_cargo c base inst.utility
  ]

  abbrev pub cargo_part : Content W → Slot W → Option W
  cargo_part c none = none
  cargo_part c (some d) = if d.item_id == item_cargo then some (cargo_bonus c d) else none

  -- The capacity with `old` taken out and `replacement` put in.
  unfoldable pub cargo_capacity_after_change : State W → Content W → String → Slot W → Slot W → W
  cargo_capacity_after_change s c id old replacement =
      let capacity = cargo_capacity_units_for s c id in
      let without : W = elim (cargo_part c old) [ none ↦ capacity | some w ↦ F.sub capacity w ] in
      elim (cargo_part c replacement) [ none ↦ without | some w ↦ F.add without w ]

  -- Both cargo checks of slots.go: only the active ship carries the hold.
  unfoldable pub validate_cargo_after_replacement :
      State W → Content W → String → Slot W → Slot W → Option SimError
  validate_cargo_after_replacement s c id old replacement =
      if (id == s.active_ship_id)
        && F.lt (cargo_capacity_after_change s c id old replacement) s.cargo_units
      then some cargo_does_not_fit
      else none

  unfoldable pub validate_device_removal_cargo :
      State W → Content W → String → Slot W → Option SimError
  validate_device_removal_cargo s c id d =
      if not (id == s.active_ship_id)
      then none
      else if F.lt (cargo_capacity_after_change s c id d none) s.cargo_units
      then some cargo_does_not_fit
      else none

  unfoldable pub shield_max_hp_for : State W → Content W → String → W
  unfolding find_device
  shield_max_hp_for s c id = elim (lookup id s.ships) [
    | none ↦ nought
    | some inst ↦ elim (find_device item_shield inst.utility) [
      | none ↦ nought
      | some d ↦ F.mul c.slots.shield_hp_per_grade (F.of_int (d.grade +ℤ pos 1))
    ]
  ]

  unfoldable pub restore_ship_shield_full : State W → Content W → String → State W
  restore_ship_shield_full s c id =
      update_ship id
        (λ inst. record inst { shield_hp = shield_max_hp_for s c id; shield_damaged = false }) s

  abbrev pub shield_within : W → ShipInstance W → ShipInstance W
  shield_within max_hp inst =
      if F.le max_hp nought
      then record inst { shield_hp = nought; shield_damaged = false }
      else record inst { shield_hp = clamp inst.shield_hp nought max_hp }

  unfoldable pub normalize_ship_shield : State W → Content W → String → State W
  normalize_ship_shield s c id = update_ship id (shield_within (shield_max_hp_for s c id)) s
