-- ===== src/Content/Balance.antt =====
-- content.go: the balance tables that pilots, belts, mining, combat and ports read.
use ssh_moonminer.Common.Int.{ℤ}
use ssh_moonminer.Common.{String, List}

pub record Pirate (W : Type 0) : Type 0 where
  pub id : String
  pub name : String
  pub hull : W
  pub damage_per_second : W
  pub maneuver : W
  pub bounty : ℤ
  pub min_threat : W
  pub max_threat : W
  pub weight : W

pub record CombatConfig (W : Type 0) : Type 0 where
  pub heat_capacity : W
  pub heat_decay_per_second : W
  pub overheat_lock_seconds : W
  pub arc_center : W
  pub arc_half_width : W
  pub solution_range_floor : W
  pub range_min : W
  pub maneuver_w1 : W
  pub maneuver_w2 : W
  pub maneuver_w3 : W
  pub maneuver_amp1 : W
  pub maneuver_amp2 : W
  pub odds_avg_solution_base : W
  pub odds_floor : W
  pub odds_ceiling : W

pub record PilotStart : Type 0 where
  pub start_credits : ℤ
  pub start_fuel : ℤ
  pub start_hull : ℤ

pub record BeltConfig (W : Type 0) : Type 0 where
  pub asteroids_per_belt : ℤ
  pub volume_min : ℤ
  pub volume_max : ℤ
  pub volume_step : ℤ
  pub drill_sec_min : W
  pub drill_sec_max : W
  pub drill_sec_per_vol : W
  pub value_per_volume : W
  pub value_step : ℤ
  pub distance_min : W
  pub distance_max : W
  pub scan_fuel_cost : W
  pub scan_sec_per_km : W
  pub risk_min : ℤ
  pub risk_max : ℤ
  pub risk_base : ℤ
  pub risk_per_tier : ℤ
  pub name_prefixes : List String

pub record TierConfig (W : Type 0) : Type 0 where
  pub labels : List String
  pub glyphs : List String
  pub mults : List W

pub record MiningConfig (W : Type 0) : Type 0 where
  pub tick_hz : ℤ
  pub pirate_approach_base : W
  pub pirate_approach_per_tier : W
  pub fuel_drain_base : W
  pub fuel_drain_per_tier : W
  pub tribute_chance : W
  pub tribute_demand_pct : W
  pub tribute_decision_seconds : W
  pub base_escape_seconds : W
  pub escape_cargo_exponent : W
  pub cargo_escape_penalty_seconds : W
  pub escape_fuel_drain_per_sec : W
  pub fuel_out_escape_penalty_per_sec : W
  pub fuel_out_escape_penalty_cap_seconds : W
  pub attack_hull_damage_per_second : W
  pub remnant_keep_threshold : W
  pub skill_check_min_interval_seconds : W
  pub skill_check_max_interval_seconds : W
  pub skill_check_window_seconds : W
  pub pressure_points_min : ℤ
  pub pressure_points_max : ℤ
  pub skill_check_bonus_pct : W
  pub fuel_asteroid_chance : W
  pub eta_base_uncertainty_pct : W
  pub eta_surveyor_reduction_pct : W
  pub eta_min_uncertainty_pct : W

pub record EventsConfig (W : Type 0) : Type 0 where
  pub base_chance_per_minute : W
  pub low_hull_chance_bonus : W
  pub base_bad_weight : W
  pub low_hull_bad_weight : W
  pub cooldown_seconds : W
  pub power_outage_seconds : W
  pub radar_blackout_seconds : W
  pub life_support_countdown_seconds : W
  pub life_support_bleed_per_second : ℤ
  pub cargo_shift_effect_seconds : W
  pub cargo_shift_escape_pct : W
  pub reactor_surge_seconds : W
  pub reactor_surge_fuel_mul : W
  pub reactor_surge_hull_hit_chance : W
  pub reactor_surge_hull_hit_amount : ℤ

pub record PortConfig (W : Type 0) : Type 0 where
  pub refuel_per_point : ℤ
  pub repair_per_point : ℤ
  pub drydock_surcharge_mul : W
  pub insurance_credits : ℤ
  pub insurance_fuel_threshold : ℤ
  pub insurance_credit_threshold : ℤ
