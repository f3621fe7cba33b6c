-- ===== src/Scenarios/Samples.antt =====
-- A small sector and a docked pilot, on which the theorems are run.
use ssh_moonminer.Common.{false, [], ◌∷◌, none, some}
use ssh_moonminer.Common.Int.{pos, negsuc}
use ssh_moonminer.Common.Float.{Whole, whole}
use ssh_moonminer.Content.{Content, ShipModel, System, World, Rating}
use ssh_moonminer.Sim.State.{State, ShipInstance, SlotDevice, BeltViewMode}

abbrev pub skiff_model : ShipModel Whole
skiff_model = record {
  id = "skiff";
  name = "";
  brand = "";
  class = "";
  price = pos 0;
  tier_mul = whole (pos 1);
  base_mass = whole (pos 0);
  base_cargo = whole (pos 50);
  utility_slots = pos 0;
  weapon_slots = pos 0;
  internal_slots = pos 0;
  sold_in = [];
  no_buyback = false;
  no_shield = false;
  dock_repair_pct = whole (pos 0);
  thrusters_start = pos 0;
  thrusters_cap = pos 3;
  hull_start = pos 0;
  hull_cap = pos 0;
  fuel_eff_start = pos 0;
  fuel_eff_cap = pos 0;
  power_gen_start = pos 0;
  power_gen_cap = pos 3;
  scanner_start = pos 0;
  scanner_cap = pos 0;
}

abbrev pub sol : System
sol = record {
  salvage_advance = pos 0;
  id = "sol";
  name = "SOL";
  links = [];
  starts_unlocked = false;
  required_rating = pos 0;
  signature = "";
  pressure = "";
  hostile = false;
  required_ship_class = "";
}

abbrev pub ring : World Whole
ring = record {
  id = "ring";
  system_id = "sol";
  name = "";
  sub = "";
  ring = "";
  pirate_label = "";
  pirate_mul = whole (pos 0);
  rarity_bias = whole (pos 0);
  travel_fuel = pos 0;
  rarity_label = "";
  desc = "";
  art = "";
  starts_unlocked = false;
  required_fuel_capacity = whole (pos 0);
  permit_fee = pos 30;
  required_ship_class = "";
  drill_time_mul = whole (pos 0);
  pirate_start_distance = whole (pos 0);
  pirates_always_attack = false;
  pirate_attack_mul = whole (pos 0);
  instability_per_second = whole (pos 0);
}

abbrev pub second_class : Rating
second_class = record {
  class = pos 2;
  name = "";
  opens = "";
  certify_in = "sol";
  price = pos 40;
  req_cargo_sold_system = "";
  req_cargo_sold_value = pos 0;
  req_runs_destination = "";
  req_runs_count = pos 0;
  req_pirates_destroyed = pos 0;
  req_legendaries_mined = pos 0;
}

abbrev pub sector : Content Whole
sector = record {
  jump = record {
    reference_mass = whole (pos 0);
    mass_exponent = whole (pos 0);
    scanner_drift_reduction = whole (pos 0);
    hull_floor = pos 0;
    countdown_seconds = pos 0;
    hard_translation_min = whole (pos 0);
    hard_translation_max = whole (pos 0);
    fuel_bloom_min = whole (pos 0);
    fuel_bloom_max = whole (pos 0);
    hot_arrival_eta_mul = whole (pos 0);
    hard_translation_weight = whole (pos 0);
    fuel_bloom_weight = whole (pos 0);
    hot_arrival_weight = whole (pos 0);
  };
  ferry = record { markup = whole (pos 0) };
  gates = [];
  ratings = second_class ∷ [];
  systems = sol ∷ [];
  worlds = ring ∷ [];
  pilot = record { start_credits = pos 0; start_fuel = pos 8; start_hull = pos 10 };
  belt = record {
    asteroids_per_belt = pos 0;
    volume_min = pos 0;
    volume_max = pos 0;
    volume_step = pos 0;
    drill_sec_min = whole (pos 0);
    drill_sec_max = whole (pos 0);
    drill_sec_per_vol = whole (pos 0);
    value_per_volume = whole (pos 0);
    value_step = pos 0;
    distance_min = whole (pos 0);
    distance_max = whole (pos 0);
    scan_fuel_cost = whole (pos 0);
    scan_sec_per_km = whole (pos 0);
    risk_min = pos 0;
    risk_max = pos 0;
    risk_base = pos 0;
    risk_per_tier = pos 0;
    name_prefixes = [];
  };
  tiers = record { labels = []; glyphs = []; mults = [] };
  mining = record {
    tick_hz = pos 0;
    pirate_approach_base = whole (pos 0);
    pirate_approach_per_tier = whole (pos 0);
    fuel_drain_base = whole (pos 0);
    fuel_drain_per_tier = whole (pos 0);
    tribute_chance = whole (pos 0);
    tribute_demand_pct = whole (pos 0);
    tribute_decision_seconds = whole (pos 0);
    base_escape_seconds = whole (pos 0);
    escape_cargo_exponent = whole (pos 0);
    cargo_escape_penalty_seconds = whole (pos 0);
    escape_fuel_drain_per_sec = whole (pos 0);
    fuel_out_escape_penalty_per_sec = whole (pos 0);
    fuel_out_escape_penalty_cap_seconds = whole (pos 0);
    attack_hull_damage_per_second = whole (pos 0);
    remnant_keep_threshold = whole (pos 0);
    skill_check_min_interval_seconds = whole (pos 0);
    skill_check_max_interval_seconds = whole (pos 0);
    skill_check_window_seconds = whole (pos 0);
    pressure_points_min = pos 0;
    pressure_points_max = pos 0;
    skill_check_bonus_pct = whole (pos 0);
    fuel_asteroid_chance = whole (pos 0);
    eta_base_uncertainty_pct = whole (pos 0);
    eta_surveyor_reduction_pct = whole (pos 0);
    eta_min_uncertainty_pct = whole (pos 0);
  };
  combat = record {
    heat_capacity = whole (pos 0);
    heat_decay_per_second = whole (pos 0);
    overheat_lock_seconds = whole (pos 0);
    arc_center = whole (pos 0);
    arc_half_width = whole (pos 0);
    solution_range_floor = whole (pos 0);
    range_min = whole (pos 0);
    maneuver_w1 = whole (pos 0);
    maneuver_w2 = whole (pos 0);
    maneuver_w3 = whole (pos 0);
    maneuver_amp1 = whole (pos 0);
    maneuver_amp2 = whole (pos 0);
    odds_avg_solution_base = whole (pos 0);
    odds_floor = whole (pos 0);
    odds_ceiling = whole (pos 0);
  };
  events = record {
    base_chance_per_minute = whole (pos 0);
    low_hull_chance_bonus = whole (pos 0);
    base_bad_weight = whole (pos 0);
    low_hull_bad_weight = whole (pos 0);
    cooldown_seconds = whole (pos 0);
    power_outage_seconds = whole (pos 0);
    radar_blackout_seconds = whole (pos 0);
    life_support_countdown_seconds = whole (pos 0);
    life_support_bleed_per_second = pos 0;
    cargo_shift_effect_seconds = whole (pos 0);
    cargo_shift_escape_pct = whole (pos 0);
    reactor_surge_seconds = whole (pos 0);
    reactor_surge_fuel_mul = whole (pos 0);
    reactor_surge_hull_hit_chance = whole (pos 0);
    reactor_surge_hull_hit_amount = pos 0;
  };
  port = record {
    refuel_per_point = pos 3;
    repair_per_point = pos 2;
    drydock_surcharge_mul = whole (pos 0);
    insurance_credits = pos 0;
    insurance_fuel_threshold = pos 0;
    insurance_credit_threshold = pos 0;
  };
  fleet = record {
    grade_price_curve = whole (pos 1);
    thrusters_base_price = pos 25;
    hull_base_price = pos 0;
    fuel_eff_base_price = pos 0;
    power_gen_base_price = pos 0;
    scanner_base_price = pos 0;
    thruster_escape_mul = whole (pos 0);
    fuel_eff_mul = whole (pos 0);
    hull_pool_per_grade = pos 0;
    power_capacity_base = pos 5;
    power_capacity_per_grade = pos 0;
    power_curve_exponent = whole (pos 1);
    scanner_lock_base_km = whole (pos 0);
    scanner_lock_per_grade_km = whole (pos 0);
    scanner_lock_max_km = whole (pos 0);
    scanner_scan_mul = whole (pos 0);
    scanner_instant_scan_km = whole (pos 0);
    scanner_eta_bonus_pct = whole (pos 0);
    mass_fuel_coefficient = whole (pos 0);
    mass_escape_coefficient = whole (pos 0);
    distance_rarity_bonus_max = whole (pos 0);
    event_hull_gate_pct = whole (pos 0);
    buyback_price_pct = whole (pos 0);
  };
  slots = record {
    sell_value_pct = whole (pos 1);
    cargo_base_price = pos 0;
    cargo_per_grade = whole (pos 0);
    cargo_mass_per_grade = whole (pos 0);
    fuel_tank_base_price = pos 0;
    fuel_tank_per_grade = whole (pos 0);
    fuel_tank_mass_per_grade = whole (pos 0);
    shield_base_price = pos 0;
    shield_power_k = whole (pos 0);
    shield_mass_per_grade = whole (pos 0);
    shield_hp_per_grade = whole (pos 0);
    shield_recharge_e_seconds = whole (pos 0);
    shield_recharge_s_seconds = whole (pos 0);
    shield_burst_return_pct = whole (pos 0);
    seismic_overcharge_base_price = pos 0;
    seismic_overcharge_power_k = whole (pos 0);
    seismic_overcharge_mass_per_grade = whole (pos 0);
    seismic_overcharge_speed_e = whole (pos 0);
    seismic_overcharge_speed_per_grade = whole (pos 0);
    emp_launcher_base_price = pos 0;
    emp_launcher_power_k = whole (pos 0);
    emp_launcher_mass_per_grade = whole (pos 0);
    emp_launcher_deploy_e_seconds = whole (pos 0);
    emp_launcher_deploy_s_seconds = whole (pos 0);
    turret_base_price = pos 10;
    turret_power_k = whole (pos 1);
    turret_mass_per_grade = whole (pos 0);
    turret_damage_per_shot_base = whole (pos 0);
    turret_damage_per_shot_per_grade = whole (pos 0);
    turret_shots_per_second = whole (pos 0);
    missile_launcher_base_price = pos 0;
    missile_launcher_power_k = whole (pos 0);
    missile_launcher_mass_per_grade = whole (pos 0);
    missile_damage_per_shot_base = whole (pos 0);
    missile_damage_per_shot_per_grade = whole (pos 0);
    missile_capacity_by_grade = pos 2 ∷ [];
    missile_cooldown_seconds = whole (pos 0);
    pulse_laser_base_price = pos 15;
    pulse_laser_power_k = whole (pos 1);
    pulse_laser_mass_per_grade = whole (pos 0);
    pulse_laser_damage_per_shot_base = whole (pos 0);
    pulse_laser_damage_per_shot_per_grade = whole (pos 0);
    pulse_laser_heat_per_shot = whole (pos 0);
    pulse_laser_solution_bonus = whole (pos 0);
    internal_power_k = whole (pos 0);
    internal_mass_per_grade = whole (pos 0);
    seismic_base_price = pos 0;
    seismic_scan_count = pos 0;
    fuel_miner_base_price = pos 0;
    fuel_miner_e_recovery_mul = whole (pos 0);
    fuel_miner_per_grade_gain_mul = whole (pos 0);
    jammer_base_price = pos 0;
    jammer_grade_uses_step = pos 0;
    jammer_duration_seconds = [];
    heat_sink_base_price = pos 0;
    heat_sink_capacity_per_grade = whole (pos 0);
    legacy_drive_base_price = pos 0;
  };
  ships = skiff_model ∷ [];
  pirates = [];
}

abbrev pub turret : SlotDevice Whole
turret = record {
  item_id = "turret";
  grade = pos 0;
  emp_armed = false;
  missiles = pos 0;
  fuel = whole (pos 0);
}

abbrev pub skiff : ShipInstance Whole
skiff = record {
  model_id = "skiff";
  system_id = "sol";
  hull = pos 10;
  base_fuel = whole (pos 8);
  grades = record {
    thrusters = pos 0;
    hull = pos 0;
    fuel_eff = pos 0;
    power_gen = pos 0;
    scanner = pos 0;
  };
  utility = none ∷ [];
  weapon = none ∷ some turret ∷ [];
  internal = none;
  additional_internal = [];
  jammer_charges = pos 0;
  shield_hp = whole (pos 0);
  shield_damaged = false;
}

abbrev pub docked_pilot : State Whole
docked_pilot = record {
  version = pos 0;
  seed = 0;
  belt_count = 0;
  credits = pos 100;
  fuel = whole (pos 8);
  hull = pos 10;
  world_idx = negsuc 0;
  belt = [];
  system_id = "sol";
  jump_class = pos 1;
  jump_count = 0;
  frontier = [];
  cargo_origins = ("sol", pos 12) ∷ [];
  ships_lost_at = [];
  hot_arrivals = [];
  crossed_gates = [];
  last_jump = none;
  destination_permits = [];
  cargo_units = whole (pos 0);
  cargo_value = pos 12;
  bounty_vouchers = pos 5;
  ships = ("skiff", skiff) ∷ [];
  active_ship_id = "skiff";
  ships_unlocked = [];
  inventory = some turret ∷ [];
  settings = record {
    belt_view = BeltViewMode.tiles;
    pirate_aggression = whole (pos 0);
    high_contrast = false;
    ascii_safe = false;
    reduced_motion = false;
    wrap_long_text = false;
    insurance_used = false;
  };
  stats = record {
    runs_total = pos 0;
    runs_departed = pos 0;
    runs_bailed = pos 0;
    runs_tribute_paid = pos 0;
    runs_escaped_under_fire = pos 0;
    ships_lost = pos 0;
    ships_purchased = pos 0;
    credits_earned = pos 0;
    credits_spent = pos 0;
    cargo_value_sold = pos 0;
    legendaries_mined = pos 0;
    pirates_destroyed = pos 0;
    bounty_credits_earned = pos 0;
    fuel_burned = whole (pos 0);
    insurance_claims = pos 0;
    first_seen = pos 0;
    last_seen = pos 0;
  };
  run_log = [];
  run = none;
  scan = none;
  disconnect_notice = none;
  dev_god_mode = false;
}

abbrev pub worn_skiff : ShipInstance Whole
worn_skiff = record skiff { hull = pos 4; base_fuel = whole (pos 3) }

abbrev pub worn_pilot : State Whole
worn_pilot = record docked_pilot {
  fuel = whole (pos 3);
  hull = pos 4;
  ships = ("skiff", worn_skiff) ∷ [];
}

abbrev pub fleet_pilot : State Whole
fleet_pilot = record docked_pilot { ships = ("skiff", skiff) ∷ ("skiff@vega", worn_skiff) ∷ [] }
