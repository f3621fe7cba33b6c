-- ===== src/Sim/Mining/Weapons.antt =====
-- slots.go and combat.go: what the active ship fires with, and the odds of a fight.
use text.Mathlib.Text.{◌==◌}
use ssh_moonminer.Common.{
  String, Bool, true, false, ◌&&◌, List, [], ◌∷◌, Option, none, some, if◌then◌else◌,
}
use ssh_moonminer.Common.Int.{ℤ, pos, ◌+ℤ◌, ◌-ℤ◌, ltb_ℤ, ◌==ℤ◌, max_ℤ}
use ssh_moonminer.Common.Float.{Float}
use ssh_moonminer.Content.{Content}
use ssh_moonminer.Sim.State.{State, SlotDevice, ActiveRun}
use ssh_moonminer.Sim.Catalog.{
  item_turret, item_missile_launcher, item_pulse_laser, item_heat_sink, item_emp_launcher,
}
use ssh_moonminer.Sim.Condition.{active_ship, nought, update_ship}
use ssh_moonminer.Sim.Loadout.{Slot, find_device}
use ssh_moonminer.Sim.Figures.{internal_device, emp_deploy_seconds}
use ssh_moonminer.Sim.Mining.Accounting.{log_event}

module _ {W : Type 0} where
  unfoldable pub any_fitted : List (Slot W) → Bool
  any_fitted [] = false
  any_fitted (none ∷ ds) = any_fitted ds
  any_fitted (some d ∷ ds) = true

  unfoldable pub has_weapon : State W → Bool
  unfolding any_fitted active_ship
  has_weapon s = elim (active_ship s) [ none ↦ false | some inst ↦ any_fitted inst.weapon ]

  abbrev pub is_there : Slot W → Bool
  is_there none = false
  is_there (some d) = true

  -- HasPulseLaser, which HasManualWeapon repeats.
  unfoldable pub has_manual_weapon : State W → Bool
  unfolding active_ship find_device
  has_manual_weapon s = elim (active_ship s) [
    | none ↦ false
    | some inst ↦ is_there (find_device item_pulse_laser inst.weapon)
  ]

  unfoldable pub has_missile_launcher : State W → Bool
  unfolding active_ship find_device
  has_missile_launcher s = elim (active_ship s) [
    | none ↦ false
    | some inst ↦ is_there (find_device item_missile_launcher inst.weapon)
  ]

  -- The highest grade that a test accepts; of equals, the first.
  unfoldable pub best_grade : (SlotDevice W → Bool) → Slot W → List (Slot W) → Slot W
  best_grade test chosen [] = chosen
  best_grade test chosen (none ∷ ds) = best_grade test chosen ds
  best_grade test none (some d ∷ ds) = best_grade test (if test d then some d else none) ds
  best_grade test (some e) (some d ∷ ds) =
      best_grade test (some (if test d && ltb_ℤ e.grade d.grade then d else e)) ds

  -- A write through the pointer to the chosen device, the first that is accepted at that grade.
  unfoldable pub change_chosen :
      (SlotDevice W → Bool) → (SlotDevice W → SlotDevice W) → List (Slot W) → List (Slot W)
  change_chosen test g [] = []
  change_chosen test g (none ∷ ds) = none ∷ change_chosen test g ds
  change_chosen test g (some d ∷ ds) =
      let rest = change_chosen test g ds in if test d then some (g d) ∷ ds else some d ∷ rest

  abbrev pub is_loaded : SlotDevice W → Bool
  is_loaded d = (d.item_id == item_missile_launcher) && ltb_ℤ (pos 0) d.missiles

  unfoldable pub next_loaded_missile_launcher : State W → Slot W
  unfolding best_grade active_ship
  next_loaded_missile_launcher s = elim (active_ship s) [
    | none ↦ none
    | some inst ↦ best_grade is_loaded none inst.weapon
  ]

  -- One missile leaves the chosen launcher.
  unfoldable pub take_missile : SlotDevice W → State W → State W
  unfolding change_chosen
  take_missile launcher s =
      update_ship s.active_ship_id
        (λ inst. record inst {
          weapon =
              change_chosen (λ d. is_loaded d && (d.grade ==ℤ launcher.grade))
                (λ d. record d { missiles = max_ℤ (pos 0) (d.missiles -ℤ pos 1) }) inst.weapon;
        })
        s

  abbrev pub is_armed_emp : SlotDevice W → Bool
  is_armed_emp d = (d.item_id == item_emp_launcher) && d.emp_armed

-- What one press of the trigger fires.
pub record Volley (W : Type 0) : Type 0 where
  pub damage : W
  pub heat : W
  pub solution_bonus : W

module _ {W : Type 0} ⦃F : Float W⦄ where
  abbrev pub linear : W → W → ℤ → W
  linear base step grade = F.add base (F.mul step (F.of_int grade))

  unfoldable pub weapon_damage_per_shot : Content W → String → ℤ → W
  weapon_damage_per_shot c id grade =
      if id == item_turret
      then linear c.slots.turret_damage_per_shot_base c.slots.turret_damage_per_shot_per_grade grade
      else if id == item_missile_launcher
      then linear c.slots.missile_damage_per_shot_base c.slots.missile_damage_per_shot_per_grade
          grade
      else if id == item_pulse_laser
      then linear c.slots.pulse_laser_damage_per_shot_base
          c.slots.pulse_laser_damage_per_shot_per_grade grade
      else nought

  -- The sum over the fitted devices of an item.
  unfoldable pub sum_fitted : String → (SlotDevice W → W) → W → List (Slot W) → W
  sum_fitted id g total [] = total
  sum_fitted id g total (none ∷ ds) = sum_fitted id g total ds
  sum_fitted id g total (some d ∷ ds) =
      sum_fitted id g (if d.item_id == id then F.add total (g d) else total) ds

  unfoldable pub autocannon_damage_per_second : State W → Content W → W
  unfolding sum_fitted active_ship weapon_damage_per_shot
  autocannon_damage_per_second s c = elim (active_ship s) [
    | none ↦ nought
    | some inst ↦
        if F.le c.slots.turret_shots_per_second nought
        then nought
        else sum_fitted item_turret
            (λ d.
              F.mul (weapon_damage_per_shot c d.item_id d.grade) c.slots.turret_shots_per_second)
            nought inst.weapon
  ]

  unfoldable pub installed_manual_weapon_volley : State W → Content W → Volley W
  unfolding sum_fitted active_ship weapon_damage_per_shot
  installed_manual_weapon_volley s c = elim (active_ship s) [
    | none ↦ record { damage = nought; heat = nought; solution_bonus = nought }
    | some inst ↦ record {
      damage =
          sum_fitted item_pulse_laser (λ d. weapon_damage_per_shot c d.item_id d.grade) nought
            inst.weapon;
      heat =
          sum_fitted item_pulse_laser (λ d. c.slots.pulse_laser_heat_per_shot) nought inst.weapon;
      solution_bonus =
          sum_fitted item_pulse_laser (λ d. c.slots.pulse_laser_solution_bonus) nought inst.weapon;
    }
  ]

  unfoldable pub heat_capacity : State W → Content W → W
  unfolding active_ship find_device
  heat_capacity s c = elim (active_ship s) [
    | none ↦ c.combat.heat_capacity
    | some inst ↦ elim (internal_device inst item_heat_sink) [
      | none ↦ c.combat.heat_capacity
      | some d ↦
          F.add c.combat.heat_capacity
            (F.mul c.slots.heat_sink_capacity_per_grade (F.of_int (d.grade +ℤ pos 1)))
    ]
  ]

  -- The run and the save after an EMP launcher went off, if one could.
  unfoldable pub deploy_emp_launcher :
      State W → Content W → ActiveRun W → ℤ → Option (State W × ActiveRun W)
  unfolding best_grade change_chosen active_ship emp_deploy_seconds log_event
  deploy_emp_launcher s c run now = if run.emp_deployed then none else elim (active_ship s) [
    | none ↦ none
    | some inst ↦ elim (best_grade is_armed_emp none inst.utility) [
      | none ↦ none
      | some chosen ↦
          let spent =
            change_chosen (λ d. is_armed_emp d && (d.grade ==ℤ chosen.grade))
              (λ d. record d { emp_armed = false }) inst.utility in
          some (
            update_ship s.active_ship_id (λ i. record i { utility = spent }) s,
            log_event "emp_deployed" now (record run {
              emp_deployed = true;
              emp_active = true;
              emp_remaining = emp_deploy_seconds c chosen.grade;
            }),
          )
    ]
  ]
