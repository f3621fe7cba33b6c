-- ===== src/Sim/Mining/Drill.antt =====
-- run.go, tickMining: the drill, and the pirate's approach.
use ssh_moonminer.Common.{Bool, false, not, ◌&&◌, none, some, if◌then◌else◌}
use ssh_moonminer.Common.Int.{pos, ltb_ℤ}
use ssh_moonminer.Common.Float.{Float}
use ssh_moonminer.Content.{Content}
use ssh_moonminer.Content.Lookup.{world_by_index}
use ssh_moonminer.Sim.State.{State, ActiveRun, Asteroid}
use ssh_moonminer.Sim.Numbers.{clamp}
use ssh_moonminer.Sim.Dice.{Random}
use ssh_moonminer.Sim.Condition.{nought, set_active_hull}
use ssh_moonminer.Sim.Market.{add_fuel}
use ssh_moonminer.Sim.Figures.{
  unit, remaining_cargo_capacity, mining_speed_mul, fuel_drain_mul, fuel_miner_recovery_mul,
  consume_fuel, scanner_eta_bonus,
}
use ssh_moonminer.Sim.Mining.Odds.{hundredths}
use ssh_moonminer.Sim.Mining.Damage.{is_event, apply_hull_damage_rate}
use ssh_moonminer.Sim.Mining.Points.{tick_skill_check}

module _ {W : Type 0} ⦃F : Float W⦄ where
  unfoldable pub pirate_approach_rate : State W → Content W → Asteroid W → W
  pirate_approach_rate s c a =
      F.mul
        (F.mul (hundredths a.risk) (
          F.add c.mining.pirate_approach_base
            (F.mul (F.of_int a.tier) c.mining.pirate_approach_per_tier)))
        s.settings.pirate_aggression

  unfoldable pub update_pirate_eta : State W → Content W → ActiveRun W → Asteroid W → ActiveRun W
  unfolding pirate_approach_rate scanner_eta_bonus clamp
  update_pirate_eta s c run a =
      let rate = pirate_approach_rate s c a in
      let left : W = if F.lt nought rate then F.div run.pirate_distance rate else nought in
      let unsure =
        clamp (F.sub c.mining.eta_base_uncertainty_pct (scanner_eta_bonus s c))
          c.mining.eta_min_uncertainty_pct unit in
      let spread = F.div (F.mul left unsure) (F.of_int (pos 2)) in
      record run {
        pirate_eta_min = F.fmax nought (F.sub left spread);
        pirate_eta_max = F.add left spread;
      }

  -- A belt that falls apart: the run, and whether it did.
  abbrev pub destabilized : State W → Content W → ActiveRun W → W → ActiveRun W × Bool
  destabilized s c run dt = elim (world_by_index c s.world_idx) [
    | none ↦ (run, false)
    | some w ↦
        let stability =
          F.fmax nought (F.sub run.belt_stability (F.mul dt w.instability_per_second)) in
        if F.lt nought w.instability_per_second
        then (
          record run { belt_stability = stability },
          F.eq stability nought && not s.dev_god_mode,
        )
        else (run, false)
  ]

  abbrev emp_ticked : ActiveRun W → W → ActiveRun W
  emp_ticked run dt =
      let left = F.sub run.emp_remaining dt in
      if not run.emp_active
      then run
      else if F.le left nought
      then record run { emp_remaining = nought; emp_active = false }
      else record run { emp_remaining = left }

  -- What the drill takes in a tick, before it is known whether that is anything.
  abbrev room_left : State W → Content W → ActiveRun W → Asteroid W → W
  room_left s c run a =
      F.fmin (F.fmax nought (F.sub (F.of_int a.volume) run.extracted_units))
        (F.fmax nought (F.sub (remaining_cargo_capacity s c) run.held_units))

  abbrev dug : W → ActiveRun W → ActiveRun W
  dug mined run =
      let held = F.add run.held_units mined in
      if F.lt nought mined
      then record run {
        extracted_units = F.add run.extracted_units mined;
        held_units = held;
        mined_units = held;
      }
      else run

  abbrev drain_rate : State W → Content W → ActiveRun W → Asteroid W → W
  drain_rate s c run a =
      let base =
        F.mul
          (F.add c.mining.fuel_drain_base (F.mul (F.of_int a.tier) c.mining.fuel_drain_per_tier))
          (fuel_drain_mul s c) in
      if is_event "reactor_surge" run.active_event
      then F.mul base c.events.reactor_surge_fuel_mul
      else base

  -- The fuel that the drill burns, and what a fuel vein gives back of it.
  abbrev burn_drill_fuel : State W → Content W → ActiveRun W → W → State W
  burn_drill_fuel s c run amount =
      let (t, consumed) = consume_fuel s c amount in
      let counted : State W = record t {
        stats = record (t.stats) { fuel_burned = F.add t.stats.fuel_burned consumed };
      } in
      if run.fuel_asteroid && F.lt nought consumed
      then add_fuel counted c (F.mul consumed (fuel_miner_recovery_mul counted c))
      else counted

  unfoldable pub drill : State W → Content W → ActiveRun W → Asteroid W → W → State W × ActiveRun W
  unfolding remaining_cargo_capacity mining_speed_mul fuel_drain_mul consume_fuel add_fuel
      fuel_miner_recovery_mul
  drill s c run a dt =
      let room = room_left s c run a in
      let rate = F.mul (F.div (F.of_int a.volume) a.drill_sec) (mining_speed_mul s c) in
      if F.lt nought room && (F.lt nought s.fuel && F.lt nought a.drill_sec)
      then (
        burn_drill_fuel s c run (F.mul (drain_rate s c run a) dt),
        dug (F.fmin room (F.mul rate dt)) run,
      )
      else (s, run)

  abbrev valued : Asteroid W → ActiveRun W → ActiveRun W
  valued a run =
      if ltb_ℤ (pos 0) a.volume
      then record run {
        cargo_value = F.round (F.div (F.mul (F.of_int a.value) run.held_units) (F.of_int a.volume));
      }
      else run

  -- A jammer holds the pirate off for its part of the tick.
  unfoldable pub approach : State W → Content W → ActiveRun W → Asteroid W → W → ActiveRun W
  unfolding update_pirate_eta
  approach s c run a dt =
      let held_off : W =
        if F.lt nought run.jammer_remaining then F.fmin dt run.jammer_remaining else nought in
      let jammed : ActiveRun W =
        if F.lt nought run.jammer_remaining
        then record run { jammer_remaining = F.fmax nought (F.sub run.jammer_remaining held_off) }
        else run in
      let left : W = if F.lt nought run.jammer_remaining then F.sub dt held_off else dt in
      let nearer : ActiveRun W = record jammed {
        pirate_distance =
            F.fmax nought (F.sub run.pirate_distance (F.mul (pirate_approach_rate s c a) left));
      } in
      if not (is_event "radar_blackout" run.active_event) && F.lt nought left
      then update_pirate_eta s c nearer a
      else jammed

  module _ {R : Type 0} (G : Random W R) where
    abbrev worked : State W → Content W → ActiveRun W → Asteroid W → W → State W × ActiveRun W
    worked s c run a dt =
        let (t, dug_run) = drill s c run a dt in
        if is_event "power_outage" run.active_event
        then (s, run)
        else (t, tick_skill_check G t c (valued a dug_run) a dt)

    abbrev bled : State W × ActiveRun W → Content W → W → State W × ActiveRun W
    bled (s, run) c dt =
        if run.life_support_breached
        then apply_hull_damage_rate s c run (F.of_int c.events.life_support_bleed_per_second) dt
        else (s, run)

    abbrev approached : State W × ActiveRun W → Content W → Asteroid W → W → State W × ActiveRun W
    approached (s, run) c a dt = (s, approach s c run a dt)

    unfoldable pub tick_mining :
        State W → Content W → ActiveRun W → Asteroid W → W → State W × ActiveRun W
    unfolding drill tick_skill_check apply_hull_damage_rate approach set_active_hull
    tick_mining s c run a dt =
        let (steady, lost) = destabilized s c run dt in
        if lost
        then (set_active_hull s c (pos 0), steady)
        else approached (bled (worked s c (emp_ticked steady dt) a dt) c dt) c a dt
