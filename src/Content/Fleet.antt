-- ===== src/Content/Fleet.antt =====
-- content.go: hull designs, and the tables of ship tracks and slot devices.
use ssh_moonminer.Common.Int.{ℤ}
use ssh_moonminer.Common.{String, Bool, List}

pub record ShipModel (W : Type 0) : Type 0 where
  pub id : String
  pub name : String
  pub brand : String
  pub class : String
  pub price : ℤ
  pub tier_mul : W
  pub base_mass : W
  pub base_cargo : W
  pub utility_slots : ℤ
  pub weapon_slots : ℤ
  pub internal_slots : ℤ
  pub sold_in : List String
  pub no_buyback : Bool
  pub no_shield : Bool
  pub dock_repair_pct : W
  pub thrusters_start : ℤ
  pub thrusters_cap : ℤ
  pub hull_start : ℤ
  pub hull_cap : ℤ
  pub fuel_eff_start : ℤ
  pub fuel_eff_cap : ℤ
  pub power_gen_start : ℤ
  pub power_gen_cap : ℤ
  pub scanner_start : ℤ
  pub scanner_cap : ℤ

pub record FleetConfig (W : Type 0) : Type 0 where
  pub grade_price_curve : W
  pub thrusters_base_price : ℤ
  pub hull_base_price : ℤ
  pub fuel_eff_base_price : ℤ
  pub power_gen_base_price : ℤ
  pub scanner_base_price : ℤ
  pub thruster_escape_mul : W
  pub fuel_eff_mul : W
  pub hull_pool_per_grade : ℤ
  pub power_capacity_base : ℤ
  pub power_capacity_per_grade : ℤ
  pub power_curve_exponent : W
  pub scanner_lock_base_km : W
  pub scanner_lock_per_grade_km : W
  pub scanner_lock_max_km : W
  pub scanner_scan_mul : W
  pub scanner_instant_scan_km : W
  pub scanner_eta_bonus_pct : W
  pub mass_fuel_coefficient : W
  pub mass_escape_coefficient : W
  pub distance_rarity_bonus_max : W
  pub event_hull_gate_pct : W
  pub buyback_price_pct : W

pub record SlotsConfig (W : Type 0) : Type 0 where
  pub sell_value_pct : W
  pub cargo_base_price : ℤ
  pub cargo_per_grade : W
  pub cargo_mass_per_grade : W
  pub fuel_tank_base_price : ℤ
  pub fuel_tank_per_grade : W
  pub fuel_tank_mass_per_grade : W
  pub shield_base_price : ℤ
  pub shield_power_k : W
  pub shield_mass_per_grade : W
  pub shield_hp_per_grade : W
  pub shield_recharge_e_seconds : W
  pub shield_recharge_s_seconds : W
  pub shield_burst_return_pct : W
  pub seismic_overcharge_base_price : ℤ
  pub seismic_overcharge_power_k : W
  pub seismic_overcharge_mass_per_grade : W
  pub seismic_overcharge_speed_e : W
  pub seismic_overcharge_speed_per_grade : W
  pub emp_launcher_base_price : ℤ
  pub emp_launcher_power_k : W
  pub emp_launcher_mass_per_grade : W
  pub emp_launcher_deploy_e_seconds : W
  pub emp_launcher_deploy_s_seconds : W
  pub turret_base_price : ℤ
  pub turret_power_k : W
  pub turret_mass_per_grade : W
  pub turret_damage_per_shot_base : W
  pub turret_damage_per_shot_per_grade : W
  pub turret_shots_per_second : W
  pub missile_launcher_base_price : ℤ
  pub missile_launcher_power_k : W
  pub missile_launcher_mass_per_grade : W
  pub missile_damage_per_shot_base : W
  pub missile_damage_per_shot_per_grade : W
  pub missile_capacity_by_grade : List ℤ
  pub missile_cooldown_seconds : W
  pub pulse_laser_base_price : ℤ
  pub pulse_laser_power_k : W
  pub pulse_laser_mass_per_grade : W
  pub pulse_laser_damage_per_shot_base : W
  pub pulse_laser_damage_per_shot_per_grade : W
  pub pulse_laser_heat_per_shot : W
  pub pulse_laser_solution_bonus : W
  pub internal_power_k : W
  pub internal_mass_per_grade : W
  pub seismic_base_price : ℤ
  pub seismic_scan_count : ℤ
  pub fuel_miner_base_price : ℤ
  pub fuel_miner_e_recovery_mul : W
  pub fuel_miner_per_grade_gain_mul : W
  pub jammer_base_price : ℤ
  pub jammer_grade_uses_step : ℤ
  pub jammer_duration_seconds : List W
  pub heat_sink_base_price : ℤ
  pub heat_sink_capacity_per_grade : W
  pub legacy_drive_base_price : ℤ
