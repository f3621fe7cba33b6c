-- ===== src/Sim/State/Pilot.antt =====
-- state.go, jump.go and frontier.go: the pilot's save.
use ssh_moonminer.Common.Int.{ℤ}
use ssh_moonminer.Common.Dict.{Dict}
use ssh_moonminer.Common.{ℕ, String, Bool, List, Option}
use ssh_moonminer.Sim.State.Ship.{SlotDevice, ShipInstance}
use ssh_moonminer.Sim.State.Run.{Asteroid, ActiveRun, ActiveScan}

pub data BeltViewMode : Type 0 where
  tiles ore_scan radar : BeltViewMode

pub record Settings (W : Type 0) : Type 0 where
  pub belt_view : BeltViewMode
  pub pirate_aggression : W
  pub high_contrast : Bool
  pub ascii_safe : Bool
  pub reduced_motion : Bool
  pub wrap_long_text : Bool
  pub insurance_used : Bool

pub record Stats (W : Type 0) : Type 0 where
  pub runs_total : ℤ
  pub runs_departed : ℤ
  pub runs_bailed : ℤ
  pub runs_tribute_paid : ℤ
  pub runs_escaped_under_fire : ℤ
  pub ships_lost : ℤ
  pub ships_purchased : ℤ
  pub credits_earned : ℤ
  pub credits_spent : ℤ
  pub cargo_value_sold : ℤ
  pub legendaries_mined : ℤ
  pub pirates_destroyed : ℤ
  pub bounty_credits_earned : ℤ
  pub fuel_burned : W
  pub insurance_claims : ℤ
  pub first_seen : ℤ
  pub last_seen : ℤ

pub record RunRecord (W : Type 0) : Type 0 where
  pub system_id : String
  pub destination_id : String
  pub when : ℤ
  pub world : String
  pub asteroid : String
  pub tier : ℤ
  pub outcome : String
  pub cargo_value_recovered : ℤ
  pub cargo_value_lost : ℤ
  pub cargo_value_jettisoned : ℤ
  pub hull_delta : ℤ
  pub fuel_delta : W
  pub depleted : Bool
  pub cargo_value_sold : ℤ
  pub events : List String
  pub pirate_destroyed : String
  pub bounty_earned : ℤ
  pub disconnected : Bool

pub record JumpResult (W : Type 0) : Type 0 where
  pub origin_id : String
  pub system_id : String
  pub fuel_cost : W
  pub fuel_after : W
  pub hull_after : ℤ
  pub stress : ℤ
  pub drift_chance : W
  pub drift : String
  pub first_arrival : Bool
  pub low_hull : Bool

pub record FrontierRecord : Type 0 where
  pub visited : Bool
  pub first_arrival_at : ℤ
  pub runs_survived : ℤ
  pub runs_by_destination : Dict ℤ
  pub cargo_value_sold : ℤ
  pub pirates_destroyed : ℤ
  pub legendaries_mined : ℤ
  pub ships_lost : ℤ

pub record State (W : Type 0) : Type 0 where
  pub version : ℤ
  pub seed : ℕ
  pub belt_count : ℕ
  pub credits : ℤ
  pub fuel : W
  pub hull : ℤ
  pub world_idx : ℤ
  pub belt : List (Asteroid W)
  pub system_id : String
  pub jump_class : ℤ
  pub jump_count : ℕ
  pub frontier : Dict FrontierRecord
  pub cargo_origins : Dict ℤ
  pub ships_lost_at : Dict String
  pub hot_arrivals : Dict Bool
  pub crossed_gates : Dict Bool
  pub last_jump : Option (JumpResult W)
  pub destination_permits : Dict Bool
  pub cargo_units : W
  pub cargo_value : ℤ
  pub bounty_vouchers : ℤ
  pub ships : Dict (ShipInstance W)
  pub active_ship_id : String
  pub ships_unlocked : Dict Bool
  pub inventory : List (Option (SlotDevice W))
  pub settings : Settings W
  pub stats : Stats W
  pub run_log : List (RunRecord W)
  pub run : Option (ActiveRun W)
  pub scan : Option (ActiveScan W)
  pub disconnect_notice : Option (RunRecord W)
  pub dev_god_mode : Bool
