-- ===== src/Scenarios/MiningRuns.antt =====
-- A run with one asteroid, held up by pirates who want all of the cargo.
use ssh_moonminer.Common.{ℕ, ◌≡◌, refl, ap, true, false, none, some, [], ◌∷◌, arith}
use ssh_moonminer.Common.Int.{pos, ◌+ℤ◌, ◌-ℤ◌, ◌*ℤ◌, ◌/ℤ◌}
use ssh_moonminer.Common.Dict.{lookup, insert}
use ssh_moonminer.Common.Float.{Whole, whole, whole_float}
use ssh_moonminer.Content.{Content}
use ssh_moonminer.Content.Lookup.{before_at, ship_by_id, world_by_index}
use ssh_moonminer.Sim.Errors.{done}
use ssh_moonminer.Sim.State.{
  State, ActiveRun, Asteroid, RunRecord, tribute, escaping, undecided, bailed, no_action,
}
use ssh_moonminer.Sim.Condition.{
  sync_active_condition_from_legacy, sync_active_condition_mirror, update_ship, fuel_amount,
  max_hull,
}
use ssh_moonminer.Sim.Figures.{restore_burst_shield_on_belt_return}
use ssh_moonminer.Sim.Dice.{Random, Math}
use ssh_moonminer.Sim.Mining.Rocks.{find_in, find_asteroid, apply_mined_remnant}
use ssh_moonminer.Sim.Mining.Escape.{accept_tribute}
use ssh_moonminer.Sim.Mining.Outcome.{Ended, ended, outcome_of, run_record, resolve_run}
use ssh_moonminer.Sim.Mining.Tribute.{Paid, accept_tribute-Paid}
use ssh_moonminer.Sim.Mining.Settlement.{Settled, resolve_run-Settled}
use ssh_moonminer.Sim.Mining.Abandon.{resolve_abandoned_run, emergency_resolve}
use ssh_moonminer.Sim.Mining.Tick.{tick_run, tick_out}
use ssh_moonminer.Sim.Mining.Accounting.{normalize_run_accounting}
use ssh_moonminer.Sim.Mining.Notices.{Reported, emergency_resolve-Reported}
use ssh_moonminer.Scenarios.Samples.{sector, ring, docked_pilot}

abbrev plain_math : Math Whole
plain_math = record {
  sin = λ x. x;
  fmod = λ x y. x;
  fabs = λ x. x;
  pi = whole (pos 3);
  infinity = whole (pos 1_000_000);
  show_int = λ n. "";
  show_rounded = λ x. "";
}

abbrev greedy_sector : Content Whole
greedy_sector = record sector {
  mining = record (sector.mining) { tribute_demand_pct = whole (pos 1) };
}

abbrev rock : Asteroid Whole
rock = record {
  id = pos 1;
  name = "ROCK";
  tier = pos 1;
  volume = pos 10;
  drill_sec = whole (pos 5);
  value = pos 40;
  risk = pos 1;
  dots = pos 1;
  size = "S";
  x = pos 0;
  y = pos 0;
  distance = whole (pos 2);
  scanned = true;
}

abbrev held_up_run : ActiveRun Whole
held_up_run = record {
  belt_stability = whole (pos 0);
  asteroid_id = pos 1;
  phase = tribute;
  extracted_units = whole (pos 4);
  held_units = whole (pos 4);
  jettisoned_units = whole (pos 0);
  cargo_value = pos 16;
  mined_units = whole (pos 4);
  tribute_cargo_before = pos 0;
  tribute_demand = pos 0;
  tribute_cargo_retained = pos 0;
  pirate_distance = whole (pos 0);
  pirate_action = no_action;
  pirate_id = "";
  combat = none;
  pirate_destroyed = "";
  bounty_earned = pos 0;
  pirate_bearing = whole (pos 0);
  pirate_eta_min = whole (pos 0);
  pirate_eta_max = whole (pos 0);
  intent = undecided;
  tribute_paid = false;
  pressure_points = [];
  skill_check = none;
  next_skill_check_in = whole (pos 0);
  fuel_asteroid = false;
  asteroid_sprite = pos 0;
  escape_seconds_required = whole (pos 0);
  base_escape_seconds_required = whole (pos 0);
  fuel_out_seconds = whole (pos 0);
  escape_seconds_elapsed = whole (pos 0);
  under_attack = false;
  tribute_seconds_elapsed = whole (pos 0);
  active_event = none;
  event_log = [];
  life_support_breached = false;
  cargo_shift_penalty_mul = whole (pos 1);
  event_cooldown = whole (pos 0);
  hull_damage_carry = whole (pos 0);
  tick_count = 3;
  start_hull = pos 10;
  start_fuel = whole (pos 8);
  started_at = pos 1;
  emp_deployed = false;
  emp_active = false;
  emp_remaining = whole (pos 0);
  jammer_remaining = whole (pos 0);
}

abbrev held_up_pilot : State Whole
held_up_pilot = record docked_pilot { world_idx = pos 0; belt = rock ∷ []; run = some held_up_run }

abbrev paying_pilot : State Whole
paying_pilot = (accept_tribute plain_math held_up_pilot greedy_sector (pos 9)).0

rock_found : find_asteroid held_up_pilot (pos 1) ≡ some rock
unfolding find_asteroid find_in
rock_found = refl

tribute_taken : accept_tribute plain_math held_up_pilot greedy_sector (pos 9) ≡ done paying_pilot
unfolding accept_tribute find_asteroid find_in
tribute_taken = refl

accept_tribute-Paid_example :
    (after : ActiveRun Whole) × Paid held_up_pilot paying_pilot held_up_run after
accept_tribute-Paid_example =
    accept_tribute-Paid plain_math held_up_pilot paying_pilot greedy_sector (pos 9) held_up_run rock
      refl rock_found (omega arith) (omega arith) tribute_taken

in_the_ring : world_by_index sector (pos 0) ≡ some ring
unfolding world_by_index
in_the_ring = refl

resolve_run-Settled_example :
    (t : State Whole) × (rec : RunRecord Whole) × (resolve_run plain_math held_up_pilot sector
        bailed
        (pos 9)
      ≡ (t, ended (outcome_of bailed rec)))
    × Settled held_up_pilot t held_up_run rec "sol"
resolve_run-Settled_example =
    resolve_run-Settled plain_math held_up_pilot sector bailed (pos 9) held_up_run ring "sol" refl
      in_the_ring refl

-- A generator that always draws the lowest number.
abbrev low_dice : Random Whole ℕ
low_dice = record {
  seeded = λ n. 0;
  float64 = λ r. (whole (pos 0), r);
  intn = λ n r. (pos 0, r);
  perm = λ n r. (pos 0 ∷ [], r);
}

-- The pilot left while the escape was burning, and the burn is over.
abbrev escaping_run : ActiveRun Whole
escaping_run = record held_up_run { phase = escaping; intent = bailed }

abbrev left_pilot : State Whole
left_pilot = record held_up_pilot { run = some escaping_run }

abbrev left_answer : State Whole × Ended Whole
left_answer = emergency_resolve low_dice plain_math left_pilot sector (pos 9)

abbrev left_rec : RunRecord Whole
left_rec =
    record (run_record left_pilot bailed (normalize_run_accounting escaping_run) (some rock) ring.id
      ring.name (pos 9)) { disconnected = true }

answered : left_answer.1 ≡ ended (outcome_of bailed left_rec)
unfolding emergency_resolve resolve_abandoned_run tick_out tick_run find_asteroid find_in
    normalize_run_accounting resolve_run sync_active_condition_from_legacy lookup
    sync_active_condition_mirror update_ship ◌-ℤ◌ fuel_amount insert max_hull ◌+ℤ◌ ◌*ℤ◌ ◌/ℤ◌
    ship_by_id before_at world_by_index restore_burst_shield_on_belt_return apply_mined_remnant
answered = refl

abandoned : left_answer ≡ (left_answer.0, ended (outcome_of bailed left_rec))
abandoned = ap (λ e. (left_answer.0, e)) answered

emergency_resolve-Reported_example : Reported (left_answer.0) (outcome_of bailed left_rec)
emergency_resolve-Reported_example =
    emergency_resolve-Reported low_dice plain_math left_pilot (left_answer.0) sector (pos 9)
      (outcome_of bailed left_rec) abandoned
