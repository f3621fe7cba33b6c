-- ===== src/Sim/Condition.antt =====
-- ships.go: the fuel and hull of a ship, and the mirrors that the save keeps of the active one.
use text.Mathlib.Text.{◌==◌}
use ssh_moonminer.Common.{
  ◌≡◌, String, Bool, true, false, ◌||◌, List, [], ◌∷◌, map, Option, none, some, if◌then◌else◌,
}
use ssh_moonminer.Common.Int.{ℤ, pos, ◌+ℤ◌, ◌*ℤ◌, ◌==ℤ◌}
use ssh_moonminer.Common.Dict.{lookup, insert}
use ssh_moonminer.Common.Float.{Float}
use ssh_moonminer.Content.{Content}
use ssh_moonminer.Sim.State.{SlotDevice, ShipInstance, State}
use ssh_moonminer.Sim.Numbers.{clamp, clamp_int}
use ssh_moonminer.Sim.Catalog.{item_fuel_tank}

module _ {W : Type 0} where
  unfoldable pub active_ship : State W → Option (ShipInstance W)
  active_ship s = lookup s.active_ship_id s.ships

  unfoldable pub owns_ship : State W → String → Bool
  owns_ship s id = elim (lookup id s.ships) [ none ↦ false | some _ ↦ true ]

  -- IsDocked (state.go): the pilot is at the star chart.
  unfoldable pub is_docked : State W → Bool
  is_docked s = elim s.world_idx [ pos _ ↦ false | _ ↦ true ]

  -- A write through the pointer that the hangar holds under a name.
  abbrev pub put_ship : String → ShipInstance W → State W → State W
  put_ship id inst s = record s { ships = insert id inst s.ships }

  -- `inst := s.Ships[id]; if inst == nil { return }`, then a change of the ship.
  unfoldable pub update_ship : String → (ShipInstance W → ShipInstance W) → State W → State W
  update_ship id g s = elim (lookup id s.ships) [ none ↦ s | some inst ↦ put_ship id (g inst) s ]

  pub update_ship_absent :
      (s : State W) (id : String) (g : ShipInstance W → ShipInstance W)
      → lookup id s.ships ≡ none
      → update_ship id g s ≡ s
  unfolding update_ship
  update_ship_absent s id g e = rw (e, update_ship)

  pub update_ship_present :
      (s : State W) (id : String) (g : ShipInstance W → ShipInstance W) (inst : ShipInstance W)
      → lookup id s.ships ≡ some inst
      → update_ship id g s ≡ put_ship id (g inst) s
  unfolding update_ship
  update_ship_present s id g inst e = rw (e, update_ship)

  unfoldable pub max_hull_for : State W → Content W → String → ℤ
  max_hull_for s c id = elim (lookup id s.ships) [
    | none ↦ c.pilot.start_hull
    | some inst ↦ c.pilot.start_hull +ℤ c.fleet.hull_pool_per_grade *ℤ inst.grades.hull
  ]

  unfoldable pub max_hull : State W → Content W → ℤ
  unfolding max_hull_for
  max_hull s c = max_hull_for s c s.active_ship_id

  unfoldable pub ship_hull : State W → String → ℤ
  ship_hull s id = elim (lookup id s.ships) [ none ↦ pos 0 | some inst ↦ inst.hull ]

module _ {W : Type 0} ⦃F : Float W⦄ where
  abbrev pub nought : W
  nought = F.of_int (pos 0)

  abbrev pub base_tank : Content W → W
  base_tank c = F.of_int c.pilot.start_fuel

  unfoldable pub fuel_tank_capacity : Content W → Option (SlotDevice W) → W
  fuel_tank_capacity c none = nought
  fuel_tank_capacity c (some d) =
      if d.item_id == item_fuel_tank
      then F.mul c.slots.fuel_tank_per_grade (F.of_int (d.grade +ℤ pos 1))
      else nought

  abbrev pub tank_fuel : Content W → Option (SlotDevice W) → W → W
  tank_fuel c none total = total
  tank_fuel c (some d) total =
      if d.item_id == item_fuel_tank
      then F.add total (clamp d.fuel nought (fuel_tank_capacity c (some d)))
      else total

  unfoldable pub fuel_in_tanks : Content W → W → List (Option (SlotDevice W)) → W
  fuel_in_tanks c total [] = total
  fuel_in_tanks c total (d ∷ ds) = fuel_in_tanks c (tank_fuel c d total) ds

  unfoldable pub fuel_amount_for : State W → Content W → String → W
  unfolding fuel_in_tanks
  fuel_amount_for s c id = elim (lookup id s.ships) [
    | none ↦ nought
    | some inst ↦ fuel_in_tanks c (clamp inst.base_fuel nought (base_tank c)) inst.utility
  ]

  unfoldable pub fuel_amount : State W → Content W → W
  unfolding fuel_amount_for
  fuel_amount s c = fuel_amount_for s c s.active_ship_id

  unfoldable pub add_capacities : Content W → W → List (Option (SlotDevice W)) → W
  add_capacities c total [] = total
  add_capacities c total (d ∷ ds) = add_capacities c (F.add total (fuel_tank_capacity c d)) ds

  unfoldable pub fuel_capacity_for : State W → Content W → String → W
  unfolding add_capacities
  fuel_capacity_for s c id = elim (lookup id s.ships) [
    | none ↦ base_tank c
    | some inst ↦ add_capacities c (base_tank c) inst.utility
  ]

  -- FuelCapacity (slots.go), which TankSize (derive.go) repeats.
  unfoldable pub fuel_capacity : State W → Content W → W
  unfolding fuel_capacity_for
  fuel_capacity s c = fuel_capacity_for s c s.active_ship_id

  abbrev pub fill_tank : Content W → Option (SlotDevice W) → W → Option (SlotDevice W) × W
  fill_tank c none remaining = (none, remaining)
  fill_tank c (some d) remaining =
      let held = F.fmin (fuel_tank_capacity c (some d)) remaining in
      if d.item_id == item_fuel_tank
      then (some (record d { fuel = held }), F.sub remaining held)
      else (some d, remaining)

  unfoldable pub fill_tanks :
      Content W → List (Option (SlotDevice W)) → W → List (Option (SlotDevice W)) × W
  fill_tanks c [] remaining = ([], remaining)
  fill_tanks c (d ∷ ds) remaining =
      let (d', left) = fill_tank c d remaining in
      let (ds', rest) = fill_tanks c ds left in (d' ∷ ds', rest)

  -- Detachable tanks first, then the hull's own reserve.
  unfoldable pub set_fuel_amount_for : State W → Content W → String → W → State W
  unfolding fill_tanks clamp
  set_fuel_amount_for s c id amount = elim (lookup id s.ships) [
    | none ↦ s
    | some inst ↦
        let wanted = clamp amount nought (fuel_capacity_for s c id) in
        let (tanks, remaining) = fill_tanks c inst.utility wanted in
        put_ship id
          (record inst { utility = tanks; base_fuel = clamp remaining nought (base_tank c) }) s
  ]

  abbrev pub clamp_tank : Content W → Option (SlotDevice W) → Option (SlotDevice W)
  clamp_tank c none = none
  clamp_tank c (some d) =
      if d.item_id == item_fuel_tank
      then some (record d { fuel = clamp d.fuel nought (fuel_tank_capacity c (some d)) })
      else some d

  abbrev pub clamp_condition : Content W → ℤ → ShipInstance W → ShipInstance W
  clamp_condition c top inst = record inst {
    base_fuel = clamp inst.base_fuel nought (base_tank c);
    utility = map (clamp_tank c) inst.utility;
    hull = clamp_int inst.hull (pos 0) top;
  }

  unfoldable pub copy_mirrors : State W → Content W → State W
  unfolding active_ship
  copy_mirrors s c = elim (active_ship s) [
    | none ↦ s
    | some inst ↦ record s { fuel = fuel_amount s c; hull = inst.hull }
  ]

  -- The active ship's own values are clamped, and copied to the save's mirrors.
  unfoldable pub sync_active_condition_mirror : State W → Content W → State W
  unfolding copy_mirrors
  sync_active_condition_mirror s c =
      copy_mirrors (update_ship s.active_ship_id (clamp_condition c (max_hull s c)) s) c

  -- math.Abs(a - b) > 0.000001
  abbrev pub differs : W → W → Bool
  differs a b = F.lt F.micro (F.sub a b) || F.lt F.micro (F.sub b a)

  unfoldable pub import_fuel : State W → Content W → State W
  import_fuel s c =
      if differs s.fuel (fuel_amount s c)
      then set_fuel_amount_for s c s.active_ship_id s.fuel
      else s

  unfoldable pub import_hull : State W → Content W → State W
  unfolding clamp_int
  import_hull s c =
      update_ship s.active_ship_id
        (λ inst.
          if s.hull ==ℤ inst.hull
          then inst
          else record inst { hull = clamp_int s.hull (pos 0) (max_hull s c) })
        s

  -- Direct writes to the mirrors are imported first.
  unfoldable pub sync_active_condition_from_legacy : State W → Content W → State W
  unfolding import_fuel import_hull active_ship
  sync_active_condition_from_legacy s c = elim (active_ship s) [
    | none ↦ s
    | some _ ↦ sync_active_condition_mirror (import_hull (import_fuel s c) c) c
  ]

  unfoldable pub set_active_hull : State W → Content W → ℤ → State W
  unfolding active_ship clamp_int
  set_active_hull s c hull = elim (active_ship s) [
    | none ↦ s
    | some _ ↦
        sync_active_condition_mirror
          (update_ship s.active_ship_id
            (λ inst. record inst { hull = clamp_int hull (pos 0) (max_hull s c) }) s)
          c
  ]
