-- ===== src/Sim/Mining/Tick.antt =====
-- run.go: a tick of a run, and what becomes of a run that its pilot leaves.
use ssh_moonminer.Common.{
  Option, none, some, ℕ, zero, suc, ◌+◌, ◌%◌, ◌^◌, Bool, false, not, ◌&&◌, ◌||◌, none, some,
  if◌then◌else◌,
}
use ssh_moonminer.Common.Int.{ℤ, pos, leb_ℤ}
use ssh_moonminer.Common.Float.{Float}
use ssh_moonminer.Content.{Content}
use ssh_moonminer.Content.Lookup.{world_by_index}
use ssh_moonminer.Sim.State.{
  State, ActiveRun, Asteroid, RunPhase, mining, tribute, escaping, combat, demand_tribute, attack,
  OutcomeKind, tribute_paid, escaped_under_fire, ship_lost,
}
use ssh_moonminer.Sim.Dice.{Random, Math, run_rng}
use ssh_moonminer.Sim.Condition.{
  nought, sync_active_condition_from_legacy, sync_active_condition_mirror,
}
use ssh_moonminer.Sim.Mining.Rocks.{find_asteroid}
use ssh_moonminer.Sim.Mining.Accounting.{put_run, no_run, log_event, normalize_run_accounting}
use ssh_moonminer.Sim.Mining.Outcome.{Ended, running, ended, panicked, resolve_run}
use ssh_moonminer.Sim.Mining.Weapons.{has_weapon, deploy_emp_launcher}
use ssh_moonminer.Sim.Mining.Escape.{is_escaping, is_combat}
use ssh_moonminer.Sim.Mining.Fight.{start_combat, refuse_tribute}
use ssh_moonminer.Sim.Mining.Damage.{apply_attack_damage_rate, tick_escape_burn}
use ssh_moonminer.Sim.Mining.Odds.{world_pirate_attack_mul}
use ssh_moonminer.Sim.Mining.Engagement.{tick_combat}
use ssh_moonminer.Sim.Mining.Events.{tick_events}
use ssh_moonminer.Sim.Mining.Drill.{tick_mining}

module _ {W R : Type 0} ⦃F : Float W⦄ (G : Random W R) (M : Math W) where
  -- attackHullDamagePerSecond, then the burn.
  unfoldable pub tick_escape : State W → Content W → ActiveRun W → W → State W × ActiveRun W
  unfolding apply_attack_damage_rate tick_escape_burn world_pirate_attack_mul
  tick_escape s c run dt =
      let rate = F.mul c.mining.attack_hull_damage_per_second (world_pirate_attack_mul s c) in
      let (t, hurt) =
        if run.under_attack then apply_attack_damage_rate s c run rate dt else (s, run) in
      tick_escape_burn t c hurt dt

  abbrev attacked : State W → Content W → ActiveRun W → Asteroid W → ℤ → ActiveRun W
  attacked s c run a now =
      start_combat G M s c (log_event "pirate_attack" now (record run { pirate_action = attack })) a
        (not (has_weapon s)) now

  abbrev always_attacks : State W → Content W → Bool
  always_attacks s c = elim (world_by_index c s.world_idx) [
    | none ↦ false
    | some w ↦ w.pirates_always_attack
  ]

  unfoldable pub roll_pirate_action :
      State W → Content W → ActiveRun W → Asteroid W → ℤ → ActiveRun W
  unfolding start_combat log_event has_weapon run_rng
  roll_pirate_action s c run a now =
      if always_attacks s c
      then attacked s c run a now
      else if F.lt (G.float64 (run_rng G s run 9001)).0 c.mining.tribute_chance
      then log_event "tribute_demanded" now (record run {
        pirate_action = demand_tribute;
        phase = tribute;
        tribute_seconds_elapsed = nought;
      })
      else attacked s c run a now

  -- A pirate that arrived meets the EMP launcher first.
  abbrev arrived : State W → Content W → ActiveRun W → Asteroid W → ℤ → State W
  arrived s c run a now = elim (deploy_emp_launcher s c run now) [
    | some (t, stunned) ↦ put_run stunned t
    | none ↦ put_run (roll_pirate_action s c run a now) s
  ]

  abbrev pirate_is_here : ActiveRun W → Bool
  pirate_is_here run =
      F.le run.pirate_distance nought && (not run.emp_active && F.le run.jammer_remaining nought)

  abbrev mined : State W × ActiveRun W → Content W → Asteroid W → ℤ → State W
  mined (s, run) c a now = if pirate_is_here run then arrived s c run a now else put_run run s

  abbrev decided_late : State W → Content W → ActiveRun W → W → ℤ → State W
  decided_late s c run dt now =
      let elapsed = F.add run.tribute_seconds_elapsed dt in
      let waited = put_run (record run { tribute_seconds_elapsed = elapsed }) s in
      if F.le c.mining.tribute_decision_seconds elapsed
      then (refuse_tribute G M waited c now).0
      else waited

  abbrev both_put : State W × ActiveRun W → State W
  both_put (s, run) = put_run run s

  -- The switch over the phase.
  abbrev pub phase_step :
      RunPhase → State W → Content W → ActiveRun W → Asteroid W → W → ℤ → State W × Ended W
  phase_step mining s c run a dt now = (mined (tick_mining G s c run a dt) c a now, running)
  phase_step tribute s c run a dt now = (decided_late s c run dt now, running)
  phase_step escaping s c run a dt now = (both_put (tick_escape s c run dt), running)
  phase_step combat s c run a dt now = tick_combat M s c run dt now

  abbrev pub burning : ActiveRun W → Bool
  burning run =
      is_escaping run.phase
      || (is_combat run.phase && elim run.combat [ none ↦ false | some cs ↦ cs.escape_started ])

  -- What a finished burn counts as.
  abbrev pub escape_kind : ActiveRun W → OutcomeKind
  escape_kind run =
      if run.tribute_paid
      then tribute_paid
      else if run.under_attack
      then escaped_under_fire
      else run.intent

  abbrev pub settle_burn : State W → Content W → ℤ → Option (ActiveRun W) → State W × Ended W
  settle_burn s c now none = (s, running)
  settle_burn s c now (some run) =
      if burning run && F.le run.escape_seconds_required run.escape_seconds_elapsed
      then resolve_run M s c (escape_kind run) now
      else (s, running)

  -- After the switch: a wreck, an escape, or neither.
  abbrev pub settle_tick : State W × Ended W → Content W → ℤ → State W × Ended W
  settle_tick (s, ended o) c now = (s, ended o)
  settle_tick (s, panicked e) c now = (s, panicked e)
  settle_tick (s, running) c now =
      if leb_ℤ s.hull (pos 0) then resolve_run M s c ship_lost now else settle_burn s c now s.run

  abbrev pub after_events :
      State W × ActiveRun W → Content W → Asteroid W → W → ℤ → State W × Ended W
  after_events (s, run) c a dt now = settle_tick (phase_step run.phase s c run a dt now) c now

  abbrev pub mirrored : Content W → State W × Ended W → State W × Ended W
  mirrored c (s, e) = (sync_active_condition_mirror s c, e)

  abbrev pub sane : W → W
  sane dt = if F.lt dt nought || F.is_nan dt then nought else dt

  abbrev pub ticked_run : ActiveRun W → ActiveRun W
  ticked_run run =
      let normal = normalize_run_accounting run in
      record normal { tick_count = (normal.tick_count + 1) % 2 ^ 64 }

  abbrev pub tick_near :
      State W → Content W → ActiveRun W → W → ℤ → Option (Asteroid W) → State W × Ended W
  tick_near s c run dt now none = (no_run s, running)
  tick_near s c run dt now (some a) =
      after_events (tick_events G s c (ticked_run run) (sane dt) now) c a (sane dt) now

  abbrev pub tick_synced : State W → Content W → W → ℤ → Option (ActiveRun W) → State W × Ended W
  tick_synced s c dt now none = (s, running)
  tick_synced s c dt now (some run) =
      let t = sync_active_condition_from_legacy s c in
      mirrored c (tick_near t c run dt now (find_asteroid t run.asteroid_id))

  unfoldable pub tick_run : State W → Content W → W → ℤ → State W × Ended W
  unfolding roll_pirate_action tick_escape tick_events tick_mining tick_combat refuse_tribute
      resolve_run deploy_emp_launcher find_asteroid normalize_run_accounting
  tick_run s c dt now = tick_synced s c dt now s.run

  abbrev pub go_on : State W × Ended W → (State W → State W × Ended W) → State W × Ended W
  go_on (s, running) next = next s
  go_on (s, ended o) next = (s, ended o)
  go_on (s, panicked e) next = (s, panicked e)

  abbrev pub while_run :
      State W
      → Option (ActiveRun W)
      → State W × Ended W
      → (State W → State W × Ended W)
      → State W × Ended W
  while_run s none o next = (s, running)
  while_run s (some run) o next = go_on o next

  -- The loop of the emergency, on the ticks that are left.
  unfoldable pub tick_out : ℕ → State W → Content W → W → ℤ → State W × Ended W
  tick_out zero s c dt now = (s, running)
  tick_out (suc ticks) s c dt now =
      while_run s s.run (tick_run s c dt now) (λ t. tick_out ticks t c dt now)
