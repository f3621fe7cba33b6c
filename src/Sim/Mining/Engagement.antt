-- ===== src/Sim/Mining/Engagement.antt =====
-- combat.go, tickCombat: one tick of a fight.
use Prim.Native.String.{◌++◌ as text_append}
use ssh_moonminer.Common.{Option, none, some, Bool, ◌&&◌, ◌||◌, none, some, if◌then◌else◌}
use ssh_moonminer.Common.Int.{ℤ, pos, leb_ℤ}
use ssh_moonminer.Common.Float.{Float}
use ssh_moonminer.Content.{Content}
use ssh_moonminer.Sim.State.{State, ActiveRun, CombatState}
use ssh_moonminer.Sim.Numbers.{clamp}
use ssh_moonminer.Sim.Dice.{Math}
use ssh_moonminer.Sim.Condition.{nought}
use ssh_moonminer.Sim.Figures.{unit}
use ssh_moonminer.Sim.Mining.Accounting.{put_run}
use ssh_moonminer.Sim.Mining.Outcome.{Ended, running}
use ssh_moonminer.Sim.Mining.Weapons.{autocannon_damage_per_second, installed_manual_weapon_volley}
use ssh_moonminer.Sim.Mining.Fight.{prepend_combat_log}
use ssh_moonminer.Sim.Mining.Gunnery.{with_combat, win_combat}
use ssh_moonminer.Sim.Mining.Damage.{apply_attack_damage_rate, tick_escape_burn}

module _ {W : Type 0} ⦃F : Float W⦄ where
  abbrev pub half : W
  half = F.div unit (F.of_int (pos 2))

  -- angDist01
  unfoldable pub ang_dist : Math W → W → W → W
  ang_dist M a b = let d = M.fabs (F.sub a b) in if F.lt half d then F.sub unit d else d

  unfoldable pub wrap : Math W → W → W
  wrap M v = let r = M.fmod v unit in if F.lt r nought then F.add r unit else r

  -- The tick rate, 4 where the table gives none.
  abbrev pub tick_rate : Content W → W
  tick_rate c = let hz = F.of_int c.mining.tick_hz in if F.lt hz unit then F.of_int (pos 4) else hz

  module _ (M : Math W) where
    -- 2 * pi * w * m * t + phase
    abbrev angle : W → W → W → W → W
    angle w m t phase = F.add (F.mul (F.mul (F.mul (F.mul (F.of_int (pos 2)) M.pi) w) m) t) phase

    -- Where the pirate is and how good the firing solution is; a function of the tick alone.
    unfoldable pub manoeuvred : State W → Content W → ActiveRun W → CombatState W → CombatState W
    unfolding wrap ang_dist clamp installed_manual_weapon_volley
    manoeuvred s c run cs =
        let cc = c.combat in
        let t = F.div (F.of_int (pos run.tick_count)) (tick_rate c) in
        let m = cs.maneuver in
        let bearing = wrap M (
          F.add
            (F.add cc.arc_center
              (F.mul cc.maneuver_amp1 (M.sin (angle cc.maneuver_w1 m t cs.phase1))))
            (F.mul cc.maneuver_amp2 (M.sin (angle cc.maneuver_w2 m t cs.phase2)))) in
        let distance =
          F.add cc.range_min (
            F.mul (F.sub unit cc.range_min)
              (M.fabs (M.sin (angle cc.maneuver_w3 m t cs.phase1)))) in
        let arc_half = F.fmax cc.arc_half_width (F.div unit (F.of_int (pos 10_000))) in
        let arc =
          clamp (F.sub unit (F.div (ang_dist M bearing cc.arc_center) arc_half)) nought unit in
        let near =
          F.add cc.solution_range_floor
            (F.mul (F.sub unit cc.solution_range_floor) (F.sub unit distance)) in
        let bonus = (installed_manual_weapon_volley s c).solution_bonus in
        record cs {
          bearing = bearing;
          range_ = distance;
          solution = clamp (F.add (F.mul arc near) bonus) nought unit;
        }

    abbrev kill_at : State W → Content W → CombatState W → W
    kill_at s c cs =
        let dps = autocannon_damage_per_second s c in
        if F.lt nought dps then F.div (F.fmax nought cs.pirate_hull) dps else M.infinity

    abbrev escape_at : ActiveRun W → CombatState W → W
    escape_at run cs =
        if cs.escape_started
        then F.fmax nought (F.sub run.escape_seconds_required run.escape_seconds_elapsed)
        else M.infinity

    -- The part of the tick until the first of the two ends.
    abbrev combat_dt : W → W → W → W
    combat_dt dt kill escape =
        let d = F.fmin dt (F.fmin kill escape) in if F.lt d nought || F.is_nan d then nought else d

    abbrev cooled : State W → Content W → CombatState W → W → CombatState W
    cooled s c cs d =
        let dps = autocannon_damage_per_second s c in
        record cs {
          heat = F.fmax nought (F.sub cs.heat (F.mul c.combat.heat_decay_per_second d));
          lock_remaining = F.fmax nought (F.sub cs.lock_remaining d);
          missile_cooldown = F.fmax nought (F.sub cs.missile_cooldown d);
          pirate_hull =
              if F.lt nought dps
              then F.fmax nought (F.sub cs.pirate_hull (F.mul dps d))
              else cs.pirate_hull;
        }

    abbrev burned : State W × ActiveRun W → Content W → Bool → W → State W × ActiveRun W
    burned (s, run) c going d = if going then tick_escape_burn s c run d else (s, run)

    -- The exchange of fire over a part of the tick.
    unfoldable pub exchange :
        State W → Content W → ActiveRun W → CombatState W → W → State W × ActiveRun W
    unfolding autocannon_damage_per_second apply_attack_damage_rate tick_escape_burn
    exchange s c run cs d =
        let fought = with_combat (cooled s c cs d) run in
        if F.lt nought d
        then burned (apply_attack_damage_rate s c fought cs.pirate_dps d) c cs.escape_started d
        else (s, with_combat cs run)

    abbrev pub shot_down : ActiveRun W → ActiveRun W
    shot_down run = elim run.combat [
      | none ↦ run
      | some cs ↦
          with_combat
            (record cs {
              pirate_hull = nought;
              log = prepend_combat_log cs.log (text_append "Autocannon destroyed " cs.pirate_name);
            })
            run
    ]

    abbrev pub after_exchange : State W × ActiveRun W → Content W → Bool → ℤ → State W × Ended W
    after_exchange (s, run) c won now =
        if leb_ℤ s.hull (pos 0)
        then (put_run run s, running)
        else if won
        then win_combat M (put_run (shot_down run) s) c (shot_down run) now
        else (put_run run s, running)

    abbrev pub fight_on :
        State W → Content W → ActiveRun W → W → ℤ → Option (CombatState W) → State W × Ended W
    fight_on s c run dt now none = (put_run run s, running)
    fight_on s c run dt now (some before) =
        let cs = manoeuvred s c run before in
        let kill = kill_at s c cs in
        let escape = escape_at run cs in
        after_exchange (exchange s c run cs (combat_dt dt kill escape)) c
          (F.le kill dt && F.le kill escape) now

    unfoldable pub tick_combat : State W → Content W → ActiveRun W → W → ℤ → State W × Ended W
    unfolding manoeuvred exchange win_combat prepend_combat_log autocannon_damage_per_second
    tick_combat s c run dt now = fight_on s c run dt now run.combat
