-- ===== src/Sim/Mining/Fight.antt =====
-- combat.go: who the pirate is, how a fight begins and what the pilot does in it.
use Prim.Native.String.{◌++◌ as text_append}
use ssh_moonminer.Common.{
  String, Bool, true, false, not, ◌&&◌, List, [], ◌∷◌, take, Option, none, some, if◌then◌else◌,
}
use ssh_moonminer.Common.Int.{ℤ, pos}
use ssh_moonminer.Common.Float.{Float}
use ssh_moonminer.Content.{Content, Pirate}
use ssh_moonminer.Content.Lookup.{world_by_index, pirate_by_id}
use ssh_moonminer.Sim.Errors.{
  SimError, fail, done, no_active_run, invalid_run_phase, no_weapon_installed,
}
use ssh_moonminer.Sim.State.{State, ActiveRun, Asteroid, CombatState, combat}
use ssh_moonminer.Sim.Dice.{Random, Math, run_rng}
use ssh_moonminer.Sim.Condition.{nought}
use ssh_moonminer.Sim.Figures.{unit}
use ssh_moonminer.Sim.Mining.Rocks.{find_asteroid}
use ssh_moonminer.Sim.Mining.Accounting.{put_run, no_run, log_event, normalize_run_accounting}
use ssh_moonminer.Sim.Mining.Weapons.{has_weapon}
use ssh_moonminer.Sim.Mining.Odds.{world_pirate_attack_mul, estimate_odds, hundredths}
use ssh_moonminer.Sim.Mining.Escape.{is_tribute, is_combat, configure_escape}

-- prependCombatLog
unfoldable pub prepend_combat_log : List String → String → List String
prepend_combat_log log line = take 6 (line ∷ log)

abbrev first_of {ℓ} : {A : Type ℓ} → List A → Option A
first_of [] = none
first_of (x ∷ xs) = some x

module _ {W : Type 0} ⦃F : Float W⦄ where
  unfoldable pub pirate_threat_band_dist : Pirate W → W → W
  pirate_threat_band_dist p threat =
      if F.lt threat p.min_threat
      then F.sub p.min_threat threat
      else if F.lt p.max_threat threat
      then F.sub threat p.max_threat
      else nought

  abbrev in_band : W → Pirate W → Bool
  in_band threat p = F.le p.min_threat threat && F.le threat p.max_threat

  unfoldable pub eligible_pirates : W → List (Pirate W) → List (Pirate W)
  eligible_pirates threat [] = []
  eligible_pirates threat (p ∷ ps) =
      let rest = eligible_pirates threat ps in if in_band threat p then p ∷ rest else rest

  unfoldable pub total_weight : W → List (Pirate W) → W
  total_weight total [] = total
  total_weight total (p ∷ ps) = total_weight (F.add total (F.fmax p.weight nought)) ps

  unfoldable pub closest : W → Pirate W → List (Pirate W) → Pirate W
  unfolding pirate_threat_band_dist
  closest threat best [] = best
  closest threat best (p ∷ ps) =
      closest threat
        (if F.lt (pirate_threat_band_dist p threat) (pirate_threat_band_dist best threat)
          then p
          else best)
        ps

  -- The first at which the roll is used up, or the last.
  unfoldable pub rolled_pirate : W → Pirate W → List (Pirate W) → String
  rolled_pirate roll p [] = p.id
  rolled_pirate roll p (q ∷ ps) =
      let left = F.sub roll (F.fmax p.weight nought) in
      let rest = rolled_pirate left q ps in if F.le left nought then p.id else rest

  abbrev pub threat_of : State W → Content W → Asteroid W → W
  threat_of s c a =
      let mul : W = elim (world_by_index c s.world_idx) [
        | none ↦ unit
        | some w ↦ if F.lt nought w.pirate_mul then w.pirate_mul else unit
      ] in
      F.mul (hundredths a.risk) mul

  module _ {R : Type 0} (G : Random W R) where
    abbrev pick_pirate :
        State W → ActiveRun W → W → Pirate W → List (Pirate W) → List (Pirate W) → String
    pick_pirate s run threat p ps [] = (closest threat p ps).id
    pick_pirate s run threat p ps (q ∷ qs) =
        let total = total_weight nought (q ∷ qs) in
        if F.le total nought
        then (closest threat p ps).id
        else rolled_pirate (F.mul (G.float64 (run_rng G s run 7100)).0 total) q qs

    unfoldable pub roll_pirate_id : State W → Content W → ActiveRun W → Asteroid W → String
    unfolding eligible_pirates total_weight closest rolled_pirate run_rng
    roll_pirate_id s c run a = elim c.pirates [
      | [] ↦ ""
      | p ∷ ps ↦
          pick_pirate s run (threat_of s c a) p ps (eligible_pirates (threat_of s c a) (p ∷ ps))
    ]

    module _ (M : Math W) where
      abbrev circle : W → W
      circle x = F.mul (F.mul x (F.of_int (pos 2))) M.pi

      abbrev new_combat : State W → Content W → ActiveRun W → Pirate W → CombatState W
      new_combat s c run p =
          let (first, next) = G.float64 (run_rng G s run 9100) in
          record {
            pirate_name = p.name;
            pirate_hull = p.hull;
            pirate_max_hull = p.hull;
            pirate_dps = F.mul p.damage_per_second (world_pirate_attack_mul s c);
            bounty = p.bounty;
            odds_pct = F.round (F.mul (estimate_odds s c p) (F.of_int (pos 100)));
            maneuver = F.fmax p.maneuver (hundredths (pos 1));
            bearing = nought;
            range_ = nought;
            solution = nought;
            heat = nought;
            lock_remaining = nought;
            missile_cooldown = nought;
            phase1 = circle first;
            phase2 = circle (G.float64 next).0;
            escape_started = false;
            log = [];
            shots_fired = pos 0;
            shots_hit = pos 0;
          }

      abbrev pub burn_started : ActiveRun W → ActiveRun W
      burn_started run = elim run.combat [
        | none ↦ run
        | some cs ↦ record run { combat = some (record cs { escape_started = true }) }
      ]

      abbrev engage :
          State W → Content W → ActiveRun W → Asteroid W → Bool → ℤ → Pirate W → ActiveRun W
      engage s c run a with_escape now p =
          let met : ActiveRun W = record run {
            phase = combat;
            under_attack = true;
            combat = some (new_combat s c run p);
          } in
          log_event (text_append "combat_started:" p.id) now
            (if with_escape then burn_started (configure_escape s c met a) else met)

      abbrev or_first : Option (Pirate W) → List (Pirate W) → Option (Pirate W)
      or_first (some p) ps = some p
      or_first none ps = first_of ps

      -- Without any pirate the run goes on as it was.
      unfoldable pub start_combat :
          State W → Content W → ActiveRun W → Asteroid W → Bool → ℤ → ActiveRun W
      unfolding configure_escape log_event normalize_run_accounting world_pirate_attack_mul
          estimate_odds run_rng
      start_combat s c run a with_escape now =
          let normal = normalize_run_accounting run in
          elim (or_first (pirate_by_id c normal.pirate_id) c.pirates) [
            | none ↦ normal
            | some p ↦ engage s c normal a with_escape now p
          ]

      unfoldable pub refuse_tribute : State W → Content W → ℤ → State W × Option SimError
      unfolding start_combat find_asteroid log_event
      refuse_tribute s c now = elim s.run [
        | none ↦ fail s no_active_run
        | some run ↦
            if not (is_tribute run.phase)
            then fail s invalid_run_phase
            else elim (find_asteroid s run.asteroid_id) [
              | none ↦ done (no_run s)
              | some a ↦
                  done
                    (put_run (start_combat s c (log_event "tribute_refused" now run) a true now) s)
            ]
      ]

      unfoldable pub fight_pirates : State W → Content W → ℤ → State W × Option SimError
      unfolding start_combat find_asteroid log_event has_weapon
      fight_pirates s c now = elim s.run [
        | none ↦ fail s no_active_run
        | some run ↦
            if not (is_tribute run.phase)
            then fail s invalid_run_phase
            else if not (has_weapon s)
            then fail s no_weapon_installed
            else elim (find_asteroid s run.asteroid_id) [
              | none ↦ done (no_run s)
              | some a ↦
                  done
                    (put_run (start_combat s c (log_event "tribute_fought" now run) a false now) s)
            ]
      ]

      abbrev escape_from :
          State W → Content W → ActiveRun W → CombatState W → State W × Option SimError
      escape_from s c run cs =
          if cs.escape_started then done s else elim (find_asteroid s run.asteroid_id) [
            | none ↦ done (no_run s)
            | some a ↦
                done
                  (put_run (burn_started (configure_escape s c (normalize_run_accounting run) a)) s)
          ]

      unfoldable pub combat_escape : State W → Content W → State W × Option SimError
      unfolding configure_escape find_asteroid normalize_run_accounting
      combat_escape s c = elim s.run [
        | none ↦ fail s no_active_run
        | some run ↦
            if not (is_combat run.phase) then fail s invalid_run_phase else elim run.combat [
              | none ↦ fail s invalid_run_phase
              | some cs ↦ escape_from s c run cs
            ]
      ]
