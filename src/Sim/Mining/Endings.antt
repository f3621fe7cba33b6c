-- ===== src/Sim/Mining/Endings.antt =====
-- run.go and combat.go: a run that ended is gone from the save, and its record is the newest one.
use ssh_moonminer.Common.{
  ◌≡◌, refl, ◌∙◌, ℕ, zero, suc, Bool, ◌&&◌, Option, none, some, List, ◌∷◌, take, if-elim,
}
use ssh_moonminer.Common.Int.{ℤ, pos, leb_ℤ}
use ssh_moonminer.Common.Float.{Float}
use ssh_moonminer.Content.{Content, World}
use ssh_moonminer.Content.Lookup.{world_by_index}
use ssh_moonminer.Sim.Errors.{SimError, Result, ok, err}
use ssh_moonminer.Sim.State.{
  State, ActiveRun, Asteroid, RunRecord, RunPhase, mining, tribute, escaping, combat, OutcomeKind,
  CombatState, pirate_destroyed, ship_lost,
}
use ssh_moonminer.Sim.Dice.{Random, Math}
use ssh_moonminer.Sim.Condition.{sync_active_condition_from_legacy}
use ssh_moonminer.Sim.Figures.{unit}
use ssh_moonminer.Sim.Shipyard.Frame.{frame-sync}
use ssh_moonminer.Sim.Fleet.Yard.{respawn_active_ship}
use ssh_moonminer.Sim.Fleet.Respawn.{run_log-Frame, respawn_active_ship-log}
use ssh_moonminer.Sim.Mining.Frames.{book_outcome-log, restore-same}
use ssh_moonminer.Sim.Mining.Rocks.{find_asteroid}
use ssh_moonminer.Sim.Mining.Accounting.{normalize_run_accounting, put_run}
use ssh_moonminer.Sim.Mining.Outcome.{
  Ended, running, ended, panicked, replaced, close_run, resolve_in, resolve_from, resolve_run,
  is_lost, tier_of,
}
use ssh_moonminer.Sim.Mining.Gunnery.{rewarded, win_over, win_combat}
use ssh_moonminer.Sim.Mining.Engagement.{tick_combat, after_exchange, exchange, fight_on, shot_down}
use ssh_moonminer.Sim.Mining.Events.{tick_events}
use ssh_moonminer.Sim.Mining.Tick.{
  sane, ticked_run, phase_step, settle_burn, settle_tick, after_events, mirrored, tick_near,
  tick_synced, burning, escape_kind, tick_run, go_on, while_run, tick_out,
}
use ssh_moonminer.Sim.Mining.Abandon.{
  max_emergency_ticks, abandon, ride_out, leave, resolve_abandoned_run,
}

module _ {W : Type 0} where
  -- Where a step answers an outcome, no run is left, and the outcome's record heads the log.
  abbrev pub Gone : State W × Ended W → Type 0
  Gone (s, running) = Unit
  Gone (s, ended o) = (s.run ≡ none) × (older : List (RunRecord W)) × (s.run_log ≡ o.rec ∷ older)
  Gone (s, panicked e) = Unit

module _ {W : Type 0} ⦃F : Float W⦄ (M : Math W) where
  replaced-Gone :
      (rec : RunRecord W) (kind : OutcomeKind) (s : State W) (c : Content W) (r : Result (State W))
      (older : List (RunRecord W))
      → respawn_active_ship M.show_int s c ≡ r
      → s.run_log ≡ rec ∷ older
      → Gone (replaced rec kind s r)
  replaced-Gone rec kind s c (err e) older h l = tt
  replaced-Gone rec kind s c (ok t) older h l =
      (refl, older, respawn_active_ship-log M.show_int s t c h ∙ l)

  close_run-Gone :
      (rec : RunRecord W) (kind : OutcomeKind) (s : State W) (c : Content W)
      (older : List (RunRecord W))
      → s.run_log ≡ rec ∷ older
      → Gone (close_run M rec kind s c)
  close_run-Gone rec kind s c older l =
      if-elim Gone (is_lost kind) (replaced-Gone rec kind s c _ older refl l)
        (refl, older, restore-same run_log-Frame s c ∙ l)

  resolve_in-Gone :
      (kind : OutcomeKind) (now : ℤ) (run : ActiveRun W) (s settled : State W) (c : Content W)
      (w : Option (World W))
      → Gone (resolve_in M kind now run s settled c w)
  resolve_in-Gone kind now run s settled c none = tt
  resolve_in-Gone kind now run s settled c (some w) =
      close_run-Gone _ kind _ c (take 19 settled.run_log)
        (book_outcome-log _ kind run (tier_of (find_asteroid s run.asteroid_id)) settled)

  resolve_from-Gone :
      (kind : OutcomeKind) (now : ℤ) (run : Option (ActiveRun W)) (s : State W) (c : Content W)
      → Gone (resolve_from M kind now run s c)
  resolve_from-Gone kind now none s c = tt
  resolve_from-Gone kind now (some run) s c =
      resolve_in-Gone kind now (normalize_run_accounting run) s _ c (world_by_index c s.world_idx)

  resolve_run-Gone :
      (s : State W) (c : Content W) (kind : OutcomeKind) (now : ℤ)
      → Gone (resolve_run M s c kind now)
  unfolding resolve_run
  resolve_run-Gone s c kind now = resolve_from-Gone kind now s.run s c

  win_over-Gone :
      (s : State W) (c : Content W) (run : ActiveRun W) (now : ℤ) (cs : Option (CombatState W))
      → Gone (win_over M s c run now cs)
  win_over-Gone s c run now none = tt
  win_over-Gone s c run now (some cs) =
      resolve_run-Gone (rewarded cs run now s) c pirate_destroyed now

  win_combat-Gone :
      (s : State W) (c : Content W) (run : ActiveRun W) (now : ℤ) → Gone (win_combat M s c run now)
  unfolding win_combat
  win_combat-Gone s c run now = win_over-Gone s c run now run.combat

  after_exchange-Gone :
      (o : State W × ActiveRun W) (c : Content W) (won : Bool) (now : ℤ)
      → Gone (after_exchange M o c won now)
  after_exchange-Gone (s, run) c won now =
      if-elim Gone (leb_ℤ s.hull (pos 0)) tt (
        if-elim Gone won (win_combat-Gone (put_run (shot_down M run) s) c (shot_down M run) now) tt)

  fight_on-Gone :
      (s : State W) (c : Content W) (run : ActiveRun W) (dt : W) (now : ℤ)
      (cs : Option (CombatState W))
      → Gone (fight_on M s c run dt now cs)
  fight_on-Gone s c run dt now none = tt
  fight_on-Gone s c run dt now (some cs) = after_exchange-Gone (exchange M s c run _ _) c _ now

  tick_combat-Gone :
      (s : State W) (c : Content W) (run : ActiveRun W) (dt : W) (now : ℤ)
      → Gone (tick_combat M s c run dt now)
  unfolding tick_combat
  tick_combat-Gone s c run dt now = fight_on-Gone s c run dt now run.combat

  module _ {R : Type 0} (G : Random W R) where
    phase_step-Gone :
        (phase : RunPhase) (s : State W) (c : Content W) (run : ActiveRun W) (a : Asteroid W)
        (dt : W) (now : ℤ)
        → Gone (phase_step G M phase s c run a dt now)
    phase_step-Gone mining s c run a dt now = tt
    phase_step-Gone tribute s c run a dt now = tt
    phase_step-Gone escaping s c run a dt now = tt
    phase_step-Gone combat s c run a dt now = tick_combat-Gone s c run dt now

    settle_burn-Gone :
        (s : State W) (c : Content W) (now : ℤ) (run : Option (ActiveRun W))
        → Gone (settle_burn G M s c now run)
    settle_burn-Gone s c now none = tt
    settle_burn-Gone s c now (some run) =
        if-elim Gone
          (burning G M run && F.le run.escape_seconds_required run.escape_seconds_elapsed)
          (resolve_run-Gone s c (escape_kind G M run) now) tt

    settle_tick-Gone :
        (o : State W × Ended W) (c : Content W) (now : ℤ) → Gone o → Gone (settle_tick G M o c now)
    settle_tick-Gone (s, ended o) c now h = h
    settle_tick-Gone (s, panicked e) c now h = tt
    settle_tick-Gone (s, running) c now h =
        if-elim Gone (leb_ℤ s.hull (pos 0)) (resolve_run-Gone s c ship_lost now)
          (settle_burn-Gone s c now s.run)

    after_events-Gone :
        (o : State W × ActiveRun W) (c : Content W) (a : Asteroid W) (dt : W) (now : ℤ)
        → Gone (after_events G M o c a dt now)
    after_events-Gone (s, run) c a dt now =
        settle_tick-Gone (phase_step G M run.phase s c run a dt now) c now
          (phase_step-Gone run.phase s c run a dt now)

    mirrored-Gone : (c : Content W) (o : State W × Ended W) → Gone o → Gone (mirrored G M c o)
    mirrored-Gone c (s, running) h = tt
    mirrored-Gone c (s, panicked e) h = tt
    mirrored-Gone c (s, ended o) (gone, older, l) = (
      frame-sync {q = λ t. t.run} (record { on_ships = λ t b. refl; on_mirrors = λ t a b. refl }) s
            c
          ∙ gone,
      older,
      frame-sync run_log-Frame s c ∙ l,
    )

    tick_near-Gone :
        (s : State W) (c : Content W) (run : ActiveRun W) (dt : W) (now : ℤ)
        (a : Option (Asteroid W))
        → Gone (tick_near G M s c run dt now a)
    tick_near-Gone s c run dt now none = tt
    tick_near-Gone s c run dt now (some a) =
        after_events-Gone (tick_events G s c (ticked_run G M run) (sane G M dt) now) c a
          (sane G M dt) now

    tick_synced-Gone :
        (s : State W) (c : Content W) (dt : W) (now : ℤ) (run : Option (ActiveRun W))
        → Gone (tick_synced G M s c dt now run)
    tick_synced-Gone s c dt now none = tt
    tick_synced-Gone s c dt now (some run) =
        let t = sync_active_condition_from_legacy s c in
        let rock = find_asteroid t run.asteroid_id in
        mirrored-Gone c (tick_near G M t c run dt now rock) (tick_near-Gone t c run dt now rock)

    -- A tick that answers an outcome leaves no run in the save, and the outcome's record as the newest.
    pub tick_run-Gone :
        (s : State W) (c : Content W) (dt : W) (now : ℤ) → Gone (tick_run G M s c dt now)
    unfolding tick_run
    tick_run-Gone s c dt now = tick_synced-Gone s c dt now s.run

    go_on-Gone :
        (o : State W × Ended W) (next : State W → State W × Ended W)
        → Gone o
        → ((t : State W) → Gone (next t))
        → Gone (go_on G M o next)
    go_on-Gone (s, running) next h later = later s
    go_on-Gone (s, panicked e) next h later = tt
    go_on-Gone (s, ended o) next h later = h

    while_run-Gone :
        (s : State W) (run : Option (ActiveRun W)) (o : State W × Ended W)
        (next : State W → State W × Ended W)
        → Gone o
        → ((t : State W) → Gone (next t))
        → Gone (while_run G M s run o next)
    while_run-Gone s none o next h later = tt
    while_run-Gone s (some run) o next h later = go_on-Gone o next h later

    tick_out-Gone :
        (ticks : ℕ) (s : State W) (c : Content W) (dt : W) (now : ℤ)
        → Gone (tick_out G M ticks s c dt now)
    unfolding tick_out
    tick_out-Gone zero s c dt now = tt
    tick_out-Gone (suc ticks) s c dt now =
        while_run-Gone s s.run (tick_run G M s c dt now) (λ t. tick_out G M ticks t c dt now)
          (tick_run-Gone s c dt now) (λ t. tick_out-Gone ticks t c dt now)

    ride_out-Gone :
        (o : State W × Option SimError) (c : Content W) (now : ℤ) → Gone (ride_out G M o c now)
    ride_out-Gone (s, some e) c now = tt
    ride_out-Gone (s, none) c now =
        tick_out-Gone max_emergency_ticks s c (F.div unit (F.of_int c.mining.tick_hz)) now

    abandon-Gone :
        (s : State W) (c : Content W) (now : ℤ) (run : Option (ActiveRun W))
        → Gone (abandon G M s c now run)
    abandon-Gone s c now none = tt
    abandon-Gone s c now (some run) = ride_out-Gone (leave G M run.phase s c run now) c now

    pub abandoned-Gone :
        (s : State W) (c : Content W) (now : ℤ) → Gone (resolve_abandoned_run G M s c now)
    unfolding resolve_abandoned_run
    abandoned-Gone s c now = abandon-Gone s c now s.run
