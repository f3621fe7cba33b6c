-- ===== src/Sim/Shipyard/Budget.antt =====
-- The power budget of a ship: what is fitted never draws more than the ship's generator gives.
use mathlib.Core.Path.{ap₂}
use ssh_moonminer.Sim.Shipyard.Orders.{
  carry_out, carry_out_lem, fits_device, Order, buy, store, sell, swap, refit, carry_out_synced,
}
use mathlib.Core.Option.{some-injective}
use ssh_moonminer.Common.{
  zero, suc, ◌≡◌, refl, sym, ap, ◌∙◌, String, true, false, Option, none, some, arith, by_option,
}
use ssh_moonminer.Common.Int.{
  ℤ, pos, negsuc, ◌+ℤ◌, ◌-ℤ◌, ◌≤ℤ◌, ltb_ℤ, int_laws, ◌*ℤ◌, +ℤ_parts, -ℤ_parts, parts_of_eq,
}
use ssh_moonminer.Common.Float.{Float}
use ssh_moonminer.Common.Dict.{lookup}
use ssh_moonminer.Content.{Content}
use ssh_moonminer.Sim.Errors.{ok, done}
use ssh_moonminer.Sim.State.{SlotDevice, ShipInstance, State}
use ssh_moonminer.Sim.Catalog.{SlotKind, slot_item_power}
use ssh_moonminer.Sim.Loadout.{
  Slot, set_device, device_slot, installed_power, power_capacity_for, ship_power, device_power,
  internal_devices,
}
use ssh_moonminer.Sim.Shipyard.{settle, fit, new_device, power_fits, armed}
use ssh_moonminer.Sim.Shipyard.Outcomes.{install-via, replace-via, refit-via}
use ssh_moonminer.Sim.Shipyard.Measure.{
  Measure, measured, of_ship, of_ship-settle, of_ship-fit, of_ship-normalize,
}
use ssh_moonminer.Sim.Shipyard.Tally.{
  worth, tally, ship_tally, ship_tally-set_device, ship_tally_weapons, ship_tally_tanks,
  add_power_lem,
}

-- A measure's value, or nothing for a ship that is not there.
abbrev pub or_zero : Option ℤ → ℤ
or_zero none = pos 0
or_zero (some n) = n

room_left :
    (before old item after cap cap' : ℤ)
    → ltb_ℤ cap (before -ℤ old +ℤ item) ≡ false
    → after +ℤ old ≡ before +ℤ item
    → cap' ≡ cap
    → after ≤ℤ cap'
room_left before old item after cap cap' h e k = ground (
  arith,
  -ℤ_parts before old,
  +ℤ_parts (before -ℤ old) item,
  +ℤ_parts after old,
  +ℤ_parts before item,
  parts_of_eq _ _ e,
  k,
)

module _ {W : Type 0} where
  abbrev pub generator : ShipInstance W → ℤ
  generator inst = inst.grades.power_gen

  generator-set_device :
      (inst : ShipInstance W) (kind : SlotKind) (i : ℤ) (d : Slot W)
      → generator (set_device inst kind i d) ≡ generator inst
  unfolding set_device
  generator-set_device inst SlotKind.slot_utility i d = refl
  generator-set_device inst SlotKind.slot_weapon i d = refl
  generator-set_device inst SlotKind.slot_internal (pos zero) d = refl
  generator-set_device inst SlotKind.slot_internal (pos (suc n)) d = refl
  generator-set_device inst SlotKind.slot_internal (negsuc n) d = refl

module _ {W : Type 0} ⦃F : Float W⦄ where
  pub worth-armed :
      (f : String → ℤ → ℤ) (d : SlotDevice W) → worth f (some (armed d)) ≡ f d.item_id d.grade
  worth-armed f d = ground arith

  pub tally-Measure : (f : String → ℤ → ℤ) → Measure {W = W} (ship_tally f)
  tally-Measure f = record {
    on_weapons = ship_tally_weapons f;
    on_condition = λ c top inst. ship_tally_tanks f c inst;
    on_shield = λ inst hp b. refl;
    on_jammer = λ inst n. refl;
  }

  generator-Measure : Measure {W = W} generator
  generator-Measure = record {
    on_weapons = λ inst load. refl;
    on_condition = λ c top inst. refl;
    on_shield = λ inst hp b. refl;
    on_jammer = λ inst n. refl;
  }

  ship_power_lem :
      (c : Content W) (inst : ShipInstance W)
      → ship_power c inst ≡ ship_tally (slot_item_power c) inst
  unfolding ship_power
  ship_power_lem c inst =
      let f : String → ℤ → ℤ = slot_item_power c in
      add_power_lem f c _ (internal_devices inst)
      ∙ ap (λ n. n +ℤ tally f (internal_devices inst))
          (add_power_lem f c _ inst.weapon
            ∙ ap (λ n. n +ℤ tally f inst.weapon)
                (add_power_lem f c (pos 0) inst.utility ∙ omega int_laws))

  installed_power_lem :
      (s : State W) (c : Content W) (id : String)
      → installed_power s c id ≡ or_zero (of_ship (ship_tally (slot_item_power c)) s id)
  unfolding installed_power
  installed_power_lem s c id =
      by_option (lookup id s.ships) (λ e. rw (e, installed_power))
        (λ inst e. rw (e, installed_power) (ship_power_lem c inst))

  capacity_lem :
      (s : State W) (c : Content W) (id : String) (g : ℤ)
      → of_ship generator s id ≡ some g
      → power_capacity_for s c id
        ≡ c.fleet.power_capacity_base +ℤ c.fleet.power_capacity_per_grade *ℤ g
  unfolding power_capacity_for
  capacity_lem s c id g h =
      by_option (lookup id s.ships) (λ e. ground (arith, h, ap (measured generator) e))
        (λ inst e.
          rw (e, power_capacity_for)
            (ap (λ n. c.fleet.power_capacity_base +ℤ c.fleet.power_capacity_per_grade *ℤ n)
              (some-injective _ _ (sym (ap (measured generator) e) ∙ h))))

  device_power_lem : (c : Content W) (d : Slot W) → device_power c d ≡ worth (slot_item_power c) d
  unfolding device_power
  device_power_lem c none = refl
  device_power_lem c (some d) = refl

  fitted_power :
      (s t : State W) (c : Content W) (id : String) (kind : SlotKind) (i : ℤ)
      (inst : ShipInstance W) (old : Slot W) (d : SlotDevice W)
      → lookup id s.ships ≡ some inst
      → device_slot inst kind i ≡ ok old
      → power_fits s c id old d.item_id d.grade ≡ true
      → of_ship (ship_tally (slot_item_power c)) t id
        ≡ some (ship_tally (slot_item_power c) (set_device inst kind i (some (armed d))))
      → of_ship generator t id ≡ some (generator (set_device inst kind i (some (armed d))))
      → installed_power t c id ≤ℤ power_capacity_for t c id
  unfolding power_fits
  fitted_power s t c id kind i inst old d l slot fits p g =
      room_left (installed_power s c id) (device_power c old) (slot_item_power c d.item_id d.grade)
        (installed_power t c id) (power_capacity_for s c id) (power_capacity_for t c id)
        (ground arith)
        (ap (λ n. n +ℤ device_power c old) (installed_power_lem t c id ∙ ap or_zero p)
          ∙ ap (λ n. ship_tally (slot_item_power c) (set_device inst kind i (some (armed d))) +ℤ n)
              (device_power_lem c old)
          ∙ ship_tally-set_device (slot_item_power c) inst kind i old (some (armed d)) slot
          ∙ ap₂ ◌+ℤ◌
              (sym (
                installed_power_lem s c id
                ∙ ap or_zero (ap (measured (ship_tally (slot_item_power c))) l)))
              (worth-armed (slot_item_power c) d))
        (capacity_lem t c id _ g
          ∙ ap (λ n. c.fleet.power_capacity_base +ℤ c.fleet.power_capacity_per_grade *ℤ n)
              (generator-set_device inst kind i _)
          ∙ sym (capacity_lem s c id _ (ap (measured generator) l)))

  fitted :
      (u s t : State W) (c : Content W) (id : String) (kind : SlotKind) (i : ℤ)
      (inst : ShipInstance W) (old : Slot W) (d : SlotDevice W)
      → lookup id s.ships ≡ some inst
      → device_slot inst kind i ≡ ok old
      → power_fits s c id old d.item_id d.grade ≡ true
      → t ≡ settle (fit u c id inst kind i d) c id
      → installed_power t c id ≤ℤ power_capacity_for t c id
  fitted u s t c id kind i inst old d l slot fits e =
      fitted_power s t c id kind i inst old d l slot fits
        (ap (λ x. of_ship (ship_tally (slot_item_power c)) x id) e
          ∙ of_ship-settle (tally-Measure (slot_item_power c)) _ c id
          ∙ of_ship-fit (tally-Measure (slot_item_power c)) u c id inst kind i d)
        (ap (λ x. of_ship generator x id) e
          ∙ of_ship-settle generator-Measure _ c id
          ∙ of_ship-fit generator-Measure u c id inst kind i d)

  carry_out_synced-within_power :
      (s : State W) (c : Content W) (id : String) (o : Order) {t : State W}
      → fits_device o ≡ true
      → carry_out_synced s c id o ≡ done t
      → installed_power t c id ≤ℤ power_capacity_for t c id
  unfolding carry_out_synced
  carry_out_synced-within_power s c id (buy kind i item grade) _ h =
      install-via s c id kind i item grade h
        λ inst l d u funds power e. fitted _ s _ c id kind i inst none _ l d power e
  carry_out_synced-within_power s c id (swap kind i item grade) _ h =
      replace-via s c id kind i item grade h λ inst old l d u power funds e.
        fitted_power s _ c id kind i inst (some old) (new_device item grade) l d power
          (ap (λ x. of_ship (ship_tally (slot_item_power c)) x id) e
            ∙ of_ship-normalize (tally-Measure (slot_item_power c)) _ c id
            ∙ of_ship-fit (tally-Measure (slot_item_power c)) _ c id inst kind i _)
          (ap (λ x. of_ship generator x id) e
            ∙ of_ship-normalize generator-Measure _ c id
            ∙ of_ship-fit generator-Measure _ c id inst kind i _)
  carry_out_synced-within_power s c id (refit kind i k) _ h =
      refit-via s c id kind i k h
        λ inst d at l slot u power e. fitted _ s _ c id kind i inst none d l slot power e
  carry_out_synced-within_power s c id (store kind i) p h = ground arith
  carry_out_synced-within_power s c id (sell kind i) p h = ground arith

  -- After every accepted order that puts a device into a slot, whether bought, swapped in or
  -- taken from the inventory, what the ship's devices draw in all is within the capacity of its
  -- power generator.
  pub carry_out-within_power :
      (s : State W) (c : Content W) (id : String) (o : Order) {t : State W}
      → fits_device o ≡ true
      → carry_out s c id o ≡ done t
      → installed_power t c id ≤ℤ power_capacity_for t c id
  carry_out-within_power s c id o fits h =
      carry_out_synced-within_power _ c id o fits (sym (carry_out_lem s c id o) ∙ h)
