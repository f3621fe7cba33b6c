-- ===== src/Sim/Figures.antt =====
-- ships.go and slots.go: what the active ship's grades, mass and devices make of the tables.
use ssh_moonminer.Common.{
  String, false, not, ◌&&◌, ◌||◌, List, [], ◌∷◌, none, some, if◌then◌else◌, get_elem?, length, leb,
  ◌-◌,
}
use text.Mathlib.Text.{◌==◌}
use ssh_moonminer.Common.Int.{ℤ, pos, pos_part, ◌-ℤ◌, ltb_ℤ, leb_ℤ, ◌==ℤ◌}
use ssh_moonminer.Common.Float.{Float}
use ssh_moonminer.Content.{Content}
use ssh_moonminer.Content.Lookup.{ship_by_id}
use ssh_moonminer.Sim.State.{State, ShipInstance}
use ssh_moonminer.Sim.Numbers.{clamp_int}
use ssh_moonminer.Sim.Catalog.{
  max_grade, item_seismic_overcharge, item_fuel_miner, item_fuel_tank, item_shield,
}
use ssh_moonminer.Sim.Condition.{
  active_ship, nought, put_ship, update_ship, sync_active_condition_mirror,
}
use ssh_moonminer.Sim.Loadout.{
  Slot, internal_devices, find_device, installed_mass, cargo_capacity_units_for, shield_max_hp_for,
}

module _ {W : Type 0} where
  abbrev pub internal_device : ShipInstance W → String → Slot W
  internal_device inst id = find_device id (internal_devices inst)

module _ {W : Type 0} ⦃F : Float W⦄ where
  abbrev pub unit : W
  unit = F.of_int (pos 1)

  unfoldable pub mass_ratio : State W → Content W → W
  unfolding active_ship
  mass_ratio s c = elim (active_ship s) [
    | none ↦ unit
    | some inst ↦ elim (ship_by_id c inst.model_id) [
      | none ↦ unit
      | some model ↦
          if F.le model.base_mass nought
          then unit
          else F.div (installed_mass s c s.active_ship_id) model.base_mass
    ]
  ]

  unfoldable pub thruster_mul : State W → Content W → W
  thruster_mul s c = elim (active_ship s) [
    | none ↦ unit
    | some inst ↦ F.pow c.fleet.thruster_escape_mul (F.of_int inst.grades.thrusters)
  ]

  unfoldable pub fuel_eff_mul : State W → Content W → W
  fuel_eff_mul s c = elim (active_ship s) [
    | none ↦ unit
    | some inst ↦ F.pow c.fleet.fuel_eff_mul (F.of_int inst.grades.fuel_eff)
  ]

  unfoldable pub fuel_drain_mul : State W → Content W → W
  unfolding mass_ratio fuel_eff_mul
  fuel_drain_mul s c =
      F.mul (fuel_eff_mul s c)
        (F.add unit (F.mul c.fleet.mass_fuel_coefficient (F.sub (mass_ratio s c) unit)))

  unfoldable pub escape_mul : State W → Content W → W
  unfolding mass_ratio thruster_mul
  escape_mul s c =
      F.mul (thruster_mul s c)
        (F.add unit (F.mul c.fleet.mass_escape_coefficient (F.sub (mass_ratio s c) unit)))

  unfoldable pub cargo_capacity_units : State W → Content W → W
  cargo_capacity_units s c = cargo_capacity_units_for s c s.active_ship_id

  unfoldable pub remaining_cargo_capacity : State W → Content W → W
  unfolding cargo_capacity_units
  remaining_cargo_capacity s c = F.fmax nought (F.sub (cargo_capacity_units s c) s.cargo_units)

  unfoldable pub mining_speed_mul : State W → Content W → W
  mining_speed_mul s c = elim (active_ship s) [
    | none ↦ unit
    | some inst ↦ elim (find_device item_seismic_overcharge inst.utility) [
      | none ↦ unit
      | some d ↦ F.add c.slots.seismic_overcharge_speed_e (
          F.mul c.slots.seismic_overcharge_speed_per_grade
            (F.of_int (clamp_int d.grade (pos 0) max_grade)))
    ]
  ]

  unfoldable pub fuel_miner_recovery_mul : State W → Content W → W
  fuel_miner_recovery_mul s c = elim (active_ship s) [
    | none ↦ nought
    | some inst ↦ elim (internal_device inst item_fuel_miner) [
      | none ↦ nought
      | some d ↦
          F.add c.slots.fuel_miner_e_recovery_mul
            (F.mul c.slots.fuel_miner_per_grade_gain_mul (F.of_int d.grade))
    ]
  ]

  unfoldable pub jammer_duration_seconds : Content W → ℤ → W
  unfolding clamp_int
  jammer_duration_seconds c grade =
      let table = c.slots.jammer_duration_seconds in
      let g = pos_part (clamp_int grade (pos 0) max_grade) in
      let i = if leb (length table) g then length table - 1 else g in
      elim (get_elem? table i) [ none ↦ nought | some x ↦ x ]

  -- From the figure of the lowest grade to that of the highest.
  abbrev pub by_grade : W → W → ℤ → W
  by_grade low high grade = F.add low (
      F.div (F.mul (F.sub high low) (F.of_int (clamp_int grade (pos 0) max_grade)))
        (F.of_int max_grade))

  unfoldable pub emp_deploy_seconds : Content W → ℤ → W
  emp_deploy_seconds c grade =
      by_grade c.slots.emp_launcher_deploy_e_seconds c.slots.emp_launcher_deploy_s_seconds grade

  unfoldable pub shield_max_hp : State W → Content W → W
  shield_max_hp s c = elim (active_ship s) [
    | none ↦ nought
    | some inst ↦ shield_max_hp_for s c s.active_ship_id
  ]

  unfoldable pub shield_recharge_seconds : State W → Content W → W
  shield_recharge_seconds s c = elim (active_ship s) [
    | none ↦ nought
    | some inst ↦ elim (find_device item_shield inst.utility) [
      | none ↦ nought
      | some d ↦
          by_grade c.slots.shield_recharge_e_seconds c.slots.shield_recharge_s_seconds d.grade
    ]
  ]

  -- A grade of the active ship's scanner, 0 without a ship.
  abbrev pub scanner_grade : State W → ℤ
  scanner_grade s = elim (active_ship s) [ none ↦ pos 0 | some inst ↦ inst.grades.scanner ]

  unfoldable pub scanner_scan_seconds : State W → Content W → W → W
  unfolding active_ship clamp_int
  scanner_scan_seconds s c distance =
      let grade = clamp_int (scanner_grade s) (pos 0) max_grade in
      if F.le distance nought
      then nought
      else if (grade ==ℤ max_grade) && F.lt distance c.fleet.scanner_instant_scan_km
      then nought
      else F.mul (F.mul distance c.belt.scan_sec_per_km)
          (F.pow c.fleet.scanner_scan_mul (F.of_int grade))

  unfoldable pub scanner_lock_km : State W → Content W → W
  unfolding active_ship
  scanner_lock_km s c =
      let km =
        F.add c.fleet.scanner_lock_base_km
          (F.mul c.fleet.scanner_lock_per_grade_km (F.of_int (scanner_grade s))) in
      if F.lt c.fleet.scanner_lock_max_km km then c.fleet.scanner_lock_max_km else km

  unfoldable pub scanner_eta_bonus : State W → Content W → W
  unfolding active_ship
  scanner_eta_bonus s c = elim (active_ship s) [
    | none ↦ nought
    | some inst ↦
        if leb_ℤ inst.grades.scanner (pos 3)
        then nought
        else F.mul (F.of_int (inst.grades.scanner -ℤ pos 3)) c.fleet.scanner_eta_bonus_pct
  ]

  -- One tank drained by what remains to be drained.
  abbrev pub draw : Slot W → W → Slot W × W
  draw none remaining = (none, remaining)
  draw (some d) remaining =
      let used = F.fmin d.fuel remaining in
      if not (d.item_id == item_fuel_tank) || F.le remaining nought
      then (some d, remaining)
      else (some (record d { fuel = F.sub d.fuel used }), F.sub remaining used)

  unfoldable pub draw_all : List (Slot W) → W → List (Slot W) × W
  draw_all [] remaining = ([], remaining)
  draw_all (d ∷ ds) remaining =
      let (e, left) = draw d remaining in let (es, rest) = draw_all ds left in (e ∷ es, rest)

  -- The save, and what was consumed: tanks first, then the hull's own reserve.
  unfoldable pub consume_fuel : State W → Content W → W → State W × W
  unfolding draw_all active_ship
  consume_fuel s c amount =
      if F.le amount nought || F.is_nan amount then (s, nought) else elim (active_ship s) [
        | none ↦ (s, nought)
        | some inst ↦
            let (tanks, remaining) = draw_all inst.utility amount in
            let used = F.fmin inst.base_fuel remaining in
            (
              sync_active_condition_mirror
                  (put_ship s.active_ship_id
                    (record inst { utility = tanks; base_fuel = F.sub inst.base_fuel used }) s)
                  c,
              F.sub amount (F.sub remaining used),
            )
      ]

  -- The shield of a ship in the belt, between runs.
  unfoldable pub tick_belt : State W → Content W → W → State W
  unfolding active_ship shield_max_hp shield_recharge_seconds
  tick_belt s c dt =
      let max_hp = shield_max_hp s c in
      let seconds = shield_recharge_seconds s c in
      if ltb_ℤ s.world_idx (pos 0) then s else elim s.run [
        | some _ ↦ s
        | none ↦
            if F.le dt nought || F.is_nan dt
            then s
            else update_ship s.active_ship_id
                (λ inst.
                  let top : W =
                    if inst.shield_damaged
                    then F.mul max_hp c.slots.shield_burst_return_pct
                    else max_hp in
                  if F.le max_hp nought
                  then record inst { shield_hp = nought; shield_damaged = false }
                  else if F.le top inst.shield_hp
                  then inst
                  else if F.le seconds nought
                  then inst
                  else record inst {
                    shield_hp = F.fmin top (F.add inst.shield_hp (F.div (F.mul max_hp dt) seconds));
                  })
                s
      ]

  unfoldable pub restore_burst_shield_on_belt_return : State W → Content W → State W
  unfolding shield_max_hp
  restore_burst_shield_on_belt_return s c =
      let max_hp = shield_max_hp s c in
      update_ship s.active_ship_id
        (λ inst.
          if not inst.shield_damaged
          then inst
          else if F.le max_hp nought
          then record inst { shield_hp = nought; shield_damaged = false }
          else record inst {
            shield_hp = F.fmin max_hp (F.mul max_hp c.slots.shield_burst_return_pct);
          })
        s
