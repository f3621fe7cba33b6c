-- ===== src/Content/Map.antt =====
-- content.go and jump.go: the star chart, its gates and the rating ladder.
use ssh_moonminer.Common.Int.{ℤ}
use ssh_moonminer.Common.{String, Bool, List}

pub record System : Type 0 where
  pub salvage_advance : ℤ
  pub id : String
  pub name : String
  pub links : List String
  pub starts_unlocked : Bool
  pub required_rating : ℤ
  pub signature : String
  pub pressure : String
  pub hostile : Bool
  pub required_ship_class : String

pub record World (W : Type 0) : Type 0 where
  pub id : String
  pub system_id : String
  pub name : String
  pub sub : String
  pub ring : String
  pub pirate_label : String
  pub pirate_mul : W
  pub rarity_bias : W
  pub travel_fuel : ℤ
  pub rarity_label : String
  pub desc : String
  pub art : String
  pub starts_unlocked : Bool
  pub required_fuel_capacity : W
  pub permit_fee : ℤ
  pub required_ship_class : String
  pub drill_time_mul : W
  pub pirate_start_distance : W
  pub pirates_always_attack : Bool
  pub pirate_attack_mul : W
  pub instability_per_second : W

pub record JumpConfig (W : Type 0) : Type 0 where
  pub reference_mass : W
  pub mass_exponent : W
  pub scanner_drift_reduction : W
  pub hull_floor : ℤ
  pub countdown_seconds : ℤ
  pub hard_translation_min : W
  pub hard_translation_max : W
  pub fuel_bloom_min : W
  pub fuel_bloom_max : W
  pub hot_arrival_eta_mul : W
  pub hard_translation_weight : W
  pub fuel_bloom_weight : W
  pub hot_arrival_weight : W

pub record FerryConfig (W : Type 0) : Type 0 where
  pub markup : W

pub record Gate (W : Type 0) : Type 0 where
  pub from : String
  pub to : String
  pub required_rating : ℤ
  pub jump_fuel_base : W
  pub hull_stress_pct : W
  pub drift_chance : W
  pub misalignment_weight : W

pub record Rating : Type 0 where
  pub class : ℤ
  pub name : String
  pub opens : String
  pub certify_in : String
  pub price : ℤ
  pub req_cargo_sold_system : String
  pub req_cargo_sold_value : ℤ
  pub req_runs_destination : String
  pub req_runs_count : ℤ
  pub req_pirates_destroyed : ℤ
  pub req_legendaries_mined : ℤ
