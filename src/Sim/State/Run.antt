-- ===== src/Sim/State/Run.antt =====
-- state.go: the asteroid belt and a mining run in progress.
use ssh_moonminer.Common.Int.{ℤ}
use ssh_moonminer.Common.{ℕ, String, Bool, List, Option}

pub data RunPhase : Type 0 where
  mining tribute escaping combat : RunPhase

pub data PirateAction : Type 0 where
  no_action demand_tribute attack : PirateAction

pub data HudTreatment : Type 0 where
  hud_none blackout static red_pulse jitter amber_glow : HudTreatment

pub data PressurePointStatus : Type 0 where
  dormant active hit missed : PressurePointStatus

-- The empty kind, which a fresh run has for its intent, is `undecided`.
pub data OutcomeKind : Type 0 where
  undecided departed bailed tribute_paid escaped_under_fire pirate_destroyed ship_lost : OutcomeKind

pub record Asteroid (W : Type 0) : Type 0 where
  pub id : ℤ
  pub name : String
  pub tier : ℤ
  pub volume : ℤ
  pub drill_sec : W
  pub value : ℤ
  pub risk : ℤ
  pub dots : ℤ
  pub size : String
  pub x : ℤ
  pub y : ℤ
  pub distance : W
  pub scanned : Bool

pub record RunEvent (W : Type 0) : Type 0 where
  pub kind : String
  pub remaining : W
  pub hud_treatment : HudTreatment

pub record RunEventRecord : Type 0 where
  pub kind : String
  pub at : ℤ

pub record CombatState (W : Type 0) : Type 0 where
  pub pirate_name : String
  pub pirate_hull : W
  pub pirate_max_hull : W
  pub pirate_dps : W
  pub bounty : ℤ
  pub odds_pct : ℤ
  pub maneuver : W
  pub bearing : W
  pub range_ : W
  pub solution : W
  pub heat : W
  pub lock_remaining : W
  pub missile_cooldown : W
  pub phase1 : W
  pub phase2 : W
  pub escape_started : Bool
  pub log : List String
  pub shots_fired : ℤ
  pub shots_hit : ℤ

pub record PressurePoint : Type 0 where
  pub position : ℤ
  pub status : PressurePointStatus

pub record SkillCheck (W : Type 0) : Type 0 where
  pub elapsed : W
  pub window : W
  pub pressure_point : ℤ

pub record ActiveRun (W : Type 0) : Type 0 where
  pub belt_stability : W
  pub asteroid_id : ℤ
  pub phase : RunPhase
  pub extracted_units : W
  pub held_units : W
  pub jettisoned_units : W
  pub cargo_value : ℤ
  pub mined_units : W
  pub tribute_cargo_before : ℤ
  pub tribute_demand : ℤ
  pub tribute_cargo_retained : ℤ
  pub pirate_distance : W
  pub pirate_action : PirateAction
  pub pirate_id : String
  pub combat : Option (CombatState W)
  pub pirate_destroyed : String
  pub bounty_earned : ℤ
  pub pirate_bearing : W
  pub pirate_eta_min : W
  pub pirate_eta_max : W
  pub intent : OutcomeKind
  pub tribute_paid : Bool
  pub pressure_points : List PressurePoint
  pub skill_check : Option (SkillCheck W)
  pub next_skill_check_in : W
  pub fuel_asteroid : Bool
  pub asteroid_sprite : ℤ
  pub escape_seconds_required : W
  pub base_escape_seconds_required : W
  pub fuel_out_seconds : W
  pub escape_seconds_elapsed : W
  pub under_attack : Bool
  pub tribute_seconds_elapsed : W
  pub active_event : Option (RunEvent W)
  pub event_log : List RunEventRecord
  pub life_support_breached : Bool
  pub cargo_shift_penalty_mul : W
  pub event_cooldown : W
  pub hull_damage_carry : W
  pub tick_count : ℕ
  pub start_hull : ℤ
  pub start_fuel : W
  pub started_at : ℤ
  pub emp_deployed : Bool
  pub emp_active : Bool
  pub emp_remaining : W
  pub jammer_remaining : W

pub record ActiveScan (W : Type 0) : Type 0 where
  pub asteroid_id : ℤ
  pub elapsed : W
  pub duration : W
