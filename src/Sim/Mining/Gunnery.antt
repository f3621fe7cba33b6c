-- ===== src/Sim/Mining/Gunnery.antt =====
-- combat.go: volleys, missiles, and the victory they may bring.
use Prim.Native.String.{◌++◌ as text_append}
use ssh_moonminer.Common.{Option, none, some, ◌+◌, String, not, none, some, if◌then◌else◌}
use ssh_moonminer.Common.Int.{ℤ, pos, ◌+ℤ◌}
use ssh_moonminer.Common.Float.{Float}
use ssh_moonminer.Content.{Content}
use ssh_moonminer.Sim.Errors.{
  SimError, no_active_run, invalid_run_phase, no_weapon_installed, weapons_locked,
  no_missile_launcher, missile_cooling_down, no_missiles,
}
use ssh_moonminer.Sim.State.{State, ActiveRun, CombatState, pirate_destroyed}
use ssh_moonminer.Sim.Dice.{Random, Math, run_rng}
use ssh_moonminer.Sim.Condition.{nought}
use ssh_moonminer.Sim.Frontier.{update_record}
use ssh_moonminer.Sim.Mining.Accounting.{put_run, log_event}
use ssh_moonminer.Sim.Mining.Outcome.{Ended, running, resolve_run}
use ssh_moonminer.Sim.Mining.Weapons.{
  has_manual_weapon, has_missile_launcher, next_loaded_missile_launcher, take_missile,
  weapon_damage_per_shot, installed_manual_weapon_volley, heat_capacity,
}
use ssh_moonminer.Sim.Mining.Escape.{is_combat}
use ssh_moonminer.Sim.Mining.Fight.{prepend_combat_log}

-- What an action of the fight answers.
pub data Fired (W : Type 0) : Type 0 where
  refused : SimError → Fired W
  fired : Ended W → Fired W

abbrev pub fired_with : {W : Type 0} → State W × Ended W → State W × Fired W
fired_with (s, e) = (s, fired e)

module _ {W : Type 0} ⦃F : Float W⦄ where
  abbrev pub with_combat : CombatState W → ActiveRun W → ActiveRun W
  with_combat cs run = record run { combat = some cs }

  -- The bounty is booked before the run is resolved.
  abbrev pub rewarded : CombatState W → ActiveRun W → ℤ → State W → State W
  rewarded cs run now s =
      let paid : State W = record s {
        bounty_vouchers = s.bounty_vouchers +ℤ cs.bounty;
        stats = record (s.stats) {
          pirates_destroyed = s.stats.pirates_destroyed +ℤ pos 1;
          bounty_credits_earned = s.stats.bounty_credits_earned +ℤ cs.bounty;
        };
      } in
      put_run
        (log_event "pirate_destroyed" now
          (record run { pirate_destroyed = cs.pirate_name; bounty_earned = cs.bounty }))
        (update_record s.system_id
          (λ f. record f { pirates_destroyed = f.pirates_destroyed +ℤ pos 1 }) paid)

  abbrev pub win_over :
      Math W → State W → Content W → ActiveRun W → ℤ → Option (CombatState W) → State W × Ended W
  win_over M s c run now none = (s, running)
  win_over M s c run now (some cs) = resolve_run M (rewarded cs run now s) c pirate_destroyed now

  unfoldable pub win_combat : Math W → State W → Content W → ActiveRun W → ℤ → State W × Ended W
  unfolding resolve_run update_record log_event
  win_combat M s c run now = win_over M s c run now run.combat

  -- The pirate's hull after a hit, and whether that ends the fight.
  abbrev pub struck : W → CombatState W → CombatState W
  struck damage cs = record cs { pirate_hull = F.fmax nought (F.sub cs.pirate_hull damage) }

  abbrev hit_text : Math W → String → String → W → String
  hit_text M head name damage =
      text_append head (text_append name (text_append " hull -" (M.show_rounded damage)))

  abbrev after_hit :
      Math W → State W → Content W → ActiveRun W → CombatState W → ℤ → State W × Fired W
  after_hit M s c run cs now =
      let hit = with_combat cs run in
      if F.le cs.pirate_hull nought
      then fired_with (win_combat M (put_run hit s) c hit now)
      else (put_run hit s, fired running)

  -- One shot's heat, with the lockout where the capacitor is full.
  abbrev heated : State W → Content W → W → CombatState W → CombatState W
  heated s c heat cs =
      let total = F.add cs.heat heat in
      let top = heat_capacity s c in
      let shot : CombatState W = record cs {
        shots_fired = cs.shots_fired +ℤ pos 1;
        heat = total;
      } in
      if F.le top total
      then record shot {
        heat = top;
        lock_remaining = c.combat.overheat_lock_seconds;
        log = prepend_combat_log cs.log "CAPACITORS OVERHEATED";
      }
      else shot

  module _ {R : Type 0} (G : Random W R) (M : Math W) where
    abbrev volley : State W → Content W → ActiveRun W → CombatState W → ℤ → State W × Fired W
    volley s c run cs now =
        let v = installed_manual_weapon_volley s c in
        let roll = (G.float64 (run_rng G s run (10000 + run.tick_count))).0 in
        let hot = heated s c v.heat cs in
        if F.lt roll cs.solution
        then after_hit M s c run
            (record (struck v.damage hot) {
              shots_hit = hot.shots_hit +ℤ pos 1;
              log = prepend_combat_log hot.log (hit_text M "Direct hit! " hot.pirate_name v.damage);
            })
            now
        else (
          put_run
              (with_combat
                (record hot {
                  log = prepend_combat_log hot.log "Pulse volley missed — solution too weak";
                })
                run)
              s,
          fired running,
        )

    unfoldable pub fire_pulse_lasers_with_outcome : State W → Content W → ℤ → State W × Fired W
    unfolding win_combat has_manual_weapon installed_manual_weapon_volley heat_capacity run_rng
        prepend_combat_log
    fire_pulse_lasers_with_outcome s c now = elim s.run [
      | none ↦ (s, refused no_active_run)
      | some run ↦
          if not (is_combat run.phase) then (s, refused invalid_run_phase) else elim run.combat [
            | none ↦ (s, refused invalid_run_phase)
            | some cs ↦
                if not (has_manual_weapon s)
                then (s, refused no_weapon_installed)
                else if F.lt nought cs.lock_remaining
                then (s, refused weapons_locked)
                else volley s c run cs now
          ]
    ]

  module _ (M : Math W) where
    abbrev launch : State W → Content W → ActiveRun W → CombatState W → ℤ → State W × Fired W
    launch s c run cs now = elim (next_loaded_missile_launcher s) [
      | none ↦ (s, refused no_missiles)
      | some d ↦
          let damage = weapon_damage_per_shot c d.item_id d.grade in
          after_hit M (take_missile d s) c run
            (record (struck damage cs) {
              missile_cooldown = c.slots.missile_cooldown_seconds;
              shots_fired = cs.shots_fired +ℤ pos 1;
              shots_hit = cs.shots_hit +ℤ pos 1;
              log =
                  prepend_combat_log cs.log
                    (hit_text M "Guided missile hit! " cs.pirate_name damage);
            })
            now
    ]

    unfoldable pub fire_missile_with_outcome : State W → Content W → ℤ → State W × Fired W
    unfolding win_combat has_missile_launcher next_loaded_missile_launcher take_missile
        weapon_damage_per_shot prepend_combat_log
    fire_missile_with_outcome s c now = elim s.run [
      | none ↦ (s, refused no_active_run)
      | some run ↦
          if not (is_combat run.phase) then (s, refused invalid_run_phase) else elim run.combat [
            | none ↦ (s, refused invalid_run_phase)
            | some cs ↦
                if not (has_missile_launcher s)
                then (s, refused no_missile_launcher)
                else if F.lt nought cs.missile_cooldown
                then (s, refused missile_cooling_down)
                else launch s c run cs now
          ]
    ]
