-- ===== src/Sim/Mining/Start.antt =====
-- run.go: the lock on an asteroid, and the scan before it.
use ssh_moonminer.Common.{true, false, not, [], Option, none, some, if◌then◌else◌}
use ssh_moonminer.Common.Int.{ℤ, pos, ◌-ℤ◌, ltb_ℤ, leb_ℤ}
use ssh_moonminer.Common.Dict.{lookup, delete}
use ssh_moonminer.Common.Float.{Float}
use ssh_moonminer.Content.{Content}
use ssh_moonminer.Content.Lookup.{world_by_index}
use ssh_moonminer.Sim.Errors.{
  SimError, fail, done, not_docked, active_run, hull_breached, invalid_asteroid, not_scanned,
  already_scanned, scan_in_progress, out_of_range, cargo_full, insufficient_fuel,
}
use ssh_moonminer.Sim.State.{State, ActiveRun, Asteroid, mining, no_action, undecided}
use ssh_moonminer.Sim.Catalog.{item_jammer}
use ssh_moonminer.Sim.Dice.{Random, run_rng}
use ssh_moonminer.Sim.Condition.{
  active_ship, nought, update_ship, sync_active_condition_from_legacy,
}
use ssh_moonminer.Sim.Loadout.{find_device}
use ssh_moonminer.Sim.Fleet.{marked}
use ssh_moonminer.Sim.Figures.{
  unit, internal_device, remaining_cargo_capacity, jammer_duration_seconds, scanner_scan_seconds,
  consume_fuel,
}
use ssh_moonminer.Sim.Mining.Rocks.{find_asteroid, change_asteroid, is_out_of_range}
use ssh_moonminer.Sim.Mining.Accounting.{put_run}
use ssh_moonminer.Sim.Mining.Fight.{roll_pirate_id}
use ssh_moonminer.Sim.Mining.Points.{roll_pressure_points, roll_next_skill_check_in}
use ssh_moonminer.Sim.Mining.Drill.{update_pirate_eta}

module _ {W : Type 0} ⦃F : Float W⦄ where
  abbrev start_distance : State W → Content W → W
  start_distance s c = elim (world_by_index c s.world_idx) [
    | none ↦ F.of_int (pos 100)
    | some w ↦
        if F.lt nought w.pirate_start_distance then w.pirate_start_distance else F.of_int (pos 100)
  ]

  abbrev fresh_run : State W → Content W → ℤ → ℤ → ActiveRun W
  fresh_run s c id now = record {
    belt_stability = unit;
    asteroid_id = id;
    phase = mining;
    extracted_units = nought;
    held_units = nought;
    jettisoned_units = nought;
    cargo_value = pos 0;
    mined_units = nought;
    tribute_cargo_before = pos 0;
    tribute_demand = pos 0;
    tribute_cargo_retained = pos 0;
    pirate_distance = start_distance s c;
    pirate_action = no_action;
    pirate_id = "";
    combat = none;
    pirate_destroyed = "";
    bounty_earned = pos 0;
    pirate_bearing = nought;
    pirate_eta_min = nought;
    pirate_eta_max = nought;
    intent = undecided;
    tribute_paid = false;
    pressure_points = [];
    skill_check = none;
    next_skill_check_in = nought;
    fuel_asteroid = false;
    asteroid_sprite = pos 0;
    escape_seconds_required = nought;
    base_escape_seconds_required = nought;
    fuel_out_seconds = nought;
    escape_seconds_elapsed = nought;
    under_attack = false;
    tribute_seconds_elapsed = nought;
    active_event = none;
    event_log = [];
    life_support_breached = false;
    cargo_shift_penalty_mul = unit;
    event_cooldown = nought;
    hull_damage_carry = nought;
    tick_count = 0;
    start_hull = s.hull;
    start_fuel = s.fuel;
    started_at = now;
    emp_deployed = false;
    emp_active = false;
    emp_remaining = nought;
    jammer_remaining = nought;
  }

  -- A hot arrival brings the pirate closer, once.
  abbrev warmed : Content W → State W × ActiveRun W → State W × ActiveRun W
  warmed c (s, run) =
      if marked (lookup s.system_id s.hot_arrivals)
      then (
        record s { hot_arrivals = delete s.system_id s.hot_arrivals },
        record run { pirate_distance = F.mul run.pirate_distance c.jump.hot_arrival_eta_mul },
      )
      else (s, run)

  -- A charge of the jammer is spent on the run.
  abbrev jammed : Content W → State W × ActiveRun W → State W × ActiveRun W
  jammed c (s, run) = elim (active_ship s) [
    | none ↦ (s, run)
    | some inst ↦ elim (internal_device inst item_jammer) [
      | none ↦ (s, run)
      | some d ↦
          if ltb_ℤ (pos 0) inst.jammer_charges
          then (
            update_ship s.active_ship_id
                (λ i. record i { jammer_charges = i.jammer_charges -ℤ pos 1 }) s,
            record run { jammer_remaining = jammer_duration_seconds c d.grade },
          )
          else (s, run)
    ]
  ]

  module _ {R : Type 0} (G : Random W R) where
    -- What is rolled for a new run, each from a stream of its own.
    abbrev rolled : Content W → Asteroid W → State W × ActiveRun W → State W
    rolled c a (s, run) =
        let met : ActiveRun W = record run {
          pirate_bearing = (G.float64 (run_rng G s run 7000)).0;
          pirate_id = roll_pirate_id G s c run a;
        } in
        let laid : ActiveRun W = record (roll_pressure_points G s c met) {
          asteroid_sprite = (G.intn (pos 3) (run_rng G s run 6300)).0;
          fuel_asteroid = F.lt (G.float64 (run_rng G s run 7200)).0 c.mining.fuel_asteroid_chance;
        } in
        put_run (update_pirate_eta s c (roll_next_skill_check_in G s c laid) a) s

    abbrev lock_on : State W → Content W → ℤ → ℤ → State W × Option SimError
    lock_on s c id now = if ltb_ℤ s.world_idx (pos 0) then fail s not_docked else elim s.run [
      | some _ ↦ fail s active_run
      | none ↦ if leb_ℤ s.hull (pos 0) then fail s hull_breached else elim (find_asteroid s id) [
        | none ↦ fail s invalid_asteroid
        | some a ↦
            if not a.scanned
            then fail s not_scanned
            else if is_out_of_range s c a
            then fail s out_of_range
            else if F.le (remaining_cargo_capacity s c) nought
            then fail s cargo_full
            else done (rolled c a (jammed c (warmed c (s, fresh_run s c id now))))
      ]
    ]

    unfoldable pub lock : State W → Content W → ℤ → ℤ → State W × Option SimError
    unfolding active_ship find_device jammer_duration_seconds run_rng roll_pirate_id
        roll_pressure_points roll_next_skill_check_in update_pirate_eta is_out_of_range
        remaining_cargo_capacity find_asteroid
    lock s c id now = lock_on (sync_active_condition_from_legacy s c) c id now

  abbrev seen : ℤ → State W → State W
  seen id s = change_asteroid id (λ a. record a { scanned = true }) s

  abbrev scan_from : State W → Content W → ℤ → Asteroid W → State W × Option SimError
  scan_from s c id a =
      let t = (consume_fuel s c c.belt.scan_fuel_cost).0 in
      let seconds = scanner_scan_seconds t c a.distance in
      if F.lt s.fuel c.belt.scan_fuel_cost
      then fail s insufficient_fuel
      else if F.le seconds nought
      then done (seen id t)
      else done (record t {
        scan = some (record { asteroid_id = id; elapsed = nought; duration = seconds });
      })

  abbrev begin_scan : State W → Content W → ℤ → State W × Option SimError
  begin_scan s c id = if ltb_ℤ s.world_idx (pos 0) then fail s not_docked else elim s.run [
    | some _ ↦ fail s active_run
    | none ↦ elim s.scan [
      | some _ ↦ fail s scan_in_progress
      | none ↦ elim (find_asteroid s id) [
        | none ↦ fail s invalid_asteroid
        | some a ↦
            if a.scanned
            then fail s already_scanned
            else if is_out_of_range s c a
            then fail s out_of_range
            else scan_from s c id a
      ]
    ]
  ]

  unfoldable pub scan : State W → Content W → ℤ → State W × Option SimError
  unfolding consume_fuel scanner_scan_seconds change_asteroid is_out_of_range find_asteroid
  scan s c id = begin_scan (sync_active_condition_from_legacy s c) c id

  unfoldable pub tick_scan : State W → W → State W
  unfolding change_asteroid
  tick_scan s dt = elim s.scan [
    | none ↦ s
    | some sc ↦
        let elapsed = F.add sc.elapsed dt in
        if F.lt elapsed sc.duration
        then record s { scan = some (record sc { elapsed = elapsed }) }
        else record (seen sc.asteroid_id s) { scan = none }
  ]
