-- ===== src/Sim/Mining/Events.antt =====
-- events.go: what goes wrong on a damaged ship.
use ssh_moonminer.Common.{
  ◌+◌, String, true, not, ◌&&◌, List, [], ◌∷◌, none, some, if◌then◌else◌, get_elem?,
}
use text.Mathlib.Text.{◌==◌}
use ssh_moonminer.Common.Int.{ℤ, pos, pos_part, leb_ℤ}
use ssh_moonminer.Common.Float.{Float}
use ssh_moonminer.Content.{Content}
use ssh_moonminer.Sim.State.{
  State, ActiveRun, RunEvent, HudTreatment, hud_none, blackout, static, red_pulse, jitter,
  amber_glow,
}
use ssh_moonminer.Sim.Numbers.{clamp}
use ssh_moonminer.Sim.Dice.{Random, run_rng}
use ssh_moonminer.Sim.Condition.{nought, max_hull}
use ssh_moonminer.Sim.Figures.{unit}
use ssh_moonminer.Sim.Mining.Accounting.{log_event}
use ssh_moonminer.Sim.Mining.Escape.{is_mining, is_tribute, is_escaping, is_combat}
use ssh_moonminer.Sim.Mining.Damage.{apply_hull_damage_instant}

abbrev pub bad_events : List String
bad_events = "life_support_failure" ∷ "cargo_shift" ∷ "reactor_surge" ∷ []

abbrev pub nuisance_events : List String
nuisance_events = "power_outage" ∷ "radar_blackout" ∷ []

-- events[i], for an index that Intn gives below the length.
abbrev pub nth_event : List String → ℤ → String
nth_event kinds i = elim (get_elem? kinds (pos_part i)) [ none ↦ "" | some k ↦ k ]

module _ {W : Type 0} ⦃F : Float W⦄ where
  abbrev pub event : String → W → HudTreatment → RunEvent W
  event kind remaining hud = record { kind = kind; remaining = remaining; hud_treatment = hud }

  abbrev pub event_of : Content W → String → RunEvent W
  event_of c kind =
      if kind == "power_outage"
      then event kind c.events.power_outage_seconds blackout
      else if kind == "radar_blackout"
      then event kind c.events.radar_blackout_seconds static
      else if kind == "life_support_failure"
      then event kind c.events.life_support_countdown_seconds red_pulse
      else if kind == "cargo_shift"
      then event kind c.events.cargo_shift_effect_seconds jitter
      else if kind == "reactor_surge"
      then event kind c.events.reactor_surge_seconds amber_glow
      else event kind nought hud_none

  abbrev shifted : Content W → ActiveRun W → ActiveRun W
  shifted c run =
      let factor = F.add unit c.events.cargo_shift_escape_pct in
      record run {
        cargo_shift_penalty_mul = F.mul run.cargo_shift_penalty_mul factor;
        base_escape_seconds_required =
            if is_escaping run.phase
            then F.mul run.base_escape_seconds_required factor
            else run.base_escape_seconds_required;
      }

  module _ {R : Type 0} (G : Random W R) where
    -- The blow of a reactor surge, and the shift of the cargo.
    abbrev impact : State W → Content W → ActiveRun W → String → State W × ActiveRun W
    impact s c run kind =
        if kind == "cargo_shift"
        then (s, shifted c run)
        else if kind == "reactor_surge"
        then (if F.lt (G.float64 (run_rng G s run (5000 + run.tick_count))).0
              c.events.reactor_surge_hull_hit_chance
            then apply_hull_damage_instant s c run (F.of_int c.events.reactor_surge_hull_hit_amount)
            else (s, run))
        else (s, run)

    unfoldable pub start_event :
        State W → Content W → ActiveRun W → String → ℤ → State W × ActiveRun W
    unfolding run_rng apply_hull_damage_instant log_event
    start_event s c run kind now =
        let (t, after) = impact s c run kind in
        (t, log_event kind now (record after { active_event = some (event_of c kind) }))

    abbrev running_event : Content W → ActiveRun W → RunEvent W → W → ActiveRun W
    running_event c run ev dt =
        let left = F.sub ev.remaining dt in
        let breached =
          (ev.kind == "life_support_failure")
          && (F.le left nought && (not run.life_support_breached && is_mining run.phase)) in
        let marked : ActiveRun W =
          if breached then record run { life_support_breached = true } else run in
        if F.le left nought
        then record marked { active_event = none; event_cooldown = c.events.cooldown_seconds }
        else record marked { active_event = some (record ev { remaining = left }) }

    -- The roll below the hull gate.
    abbrev roll_event : State W → Content W → ActiveRun W → W → ℤ → State W × ActiveRun W
    roll_event s c run dt now =
        let gate = c.fleet.event_hull_gate_pct in
        let top = max_hull s c in
        let pct = clamp (F.div (F.of_int s.hull) (F.of_int top)) nought unit in
        let serious = F.div (F.sub gate pct) gate in
        let chance =
          F.mul
            (F.div
              (F.add c.events.base_chance_per_minute (F.mul serious c.events.low_hull_chance_bonus))
              (F.of_int (pos 60)))
            dt in
        let (first, next) = G.float64 (run_rng G s run (4000 + run.tick_count)) in
        let weight = F.add c.events.base_bad_weight (F.mul serious c.events.low_hull_bad_weight) in
        let (second, last) = G.float64 next in
        let kind =
          if F.lt second (F.div weight (F.add weight unit))
          then nth_event bad_events (G.intn (pos 3) last).0
          else nth_event nuisance_events (G.intn (pos 2) last).0 in
        if leb_ℤ top (pos 0)
        then (s, run)
        else if F.le gate pct
        then (s, run)
        else if F.le chance first
        then (s, run)
        else start_event s c run kind now

    unfoldable pub tick_events : State W → Content W → ActiveRun W → W → ℤ → State W × ActiveRun W
    unfolding start_event run_rng
    tick_events s c run dt now = if is_tribute run.phase then (s, run) else elim run.active_event [
      | some ev ↦ (s, running_event c run ev dt)
      | none ↦
          if is_combat run.phase
          then (s, run)
          else if F.lt nought run.event_cooldown
          then (s, record run { event_cooldown = F.fmax nought (F.sub run.event_cooldown dt) })
          else roll_event s c run dt now
    ]
