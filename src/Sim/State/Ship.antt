-- ===== src/Sim/State/Ship.antt =====
-- state.go: a hull in the hangar, its grades and its devices.
use ssh_moonminer.Common.Int.{ℤ}
use ssh_moonminer.Common.{String, Bool, List, Option}

pub record TrackGrades : Type 0 where
  pub thrusters : ℤ
  pub hull : ℤ
  pub fuel_eff : ℤ
  pub power_gen : ℤ
  pub scanner : ℤ

pub record SlotDevice (W : Type 0) : Type 0 where
  pub item_id : String
  pub grade : ℤ
  pub emp_armed : Bool
  pub missiles : ℤ
  pub fuel : W

pub record ShipInstance (W : Type 0) : Type 0 where
  pub model_id : String
  pub system_id : String
  pub hull : ℤ
  pub base_fuel : W
  pub grades : TrackGrades
  pub utility : List (Option (SlotDevice W))
  pub weapon : List (Option (SlotDevice W))
  pub internal : Option (SlotDevice W)
  pub additional_internal : List (Option (SlotDevice W))
  pub jammer_charges : ℤ
  pub shield_hp : W
  pub shield_damaged : Bool
