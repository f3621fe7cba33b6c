-- ===== src/Sim/Mining/Odds.antt =====
-- combat.go: the odds of a fight.
use ssh_moonminer.Common.{not, ◌&&◌, List, [], ◌∷◌, none, some, if◌then◌else◌}
use ssh_moonminer.Common.Int.{ℤ, pos, ◌+ℤ◌, ◌==ℤ◌}
use ssh_moonminer.Common.Float.{Float}
use ssh_moonminer.Content.{Content, Pirate}
use ssh_moonminer.Content.Lookup.{world_by_index}
use ssh_moonminer.Sim.State.{State}
use ssh_moonminer.Sim.Numbers.{clamp}
use ssh_moonminer.Sim.Condition.{active_ship, nought, max_hull}
use ssh_moonminer.Sim.Loadout.{Slot}
use ssh_moonminer.Sim.Figures.{unit, shield_max_hp}
use ssh_moonminer.Sim.Mining.Weapons.{
  has_weapon, is_loaded, weapon_damage_per_shot, autocannon_damage_per_second,
  installed_manual_weapon_volley,
}

module _ {W : Type 0} ⦃F : Float W⦄ where
  unfoldable pub world_pirate_attack_mul : State W → Content W → W
  world_pirate_attack_mul s c = elim (world_by_index c s.world_idx) [
    | none ↦ unit
    | some w ↦ if F.lt nought w.pirate_attack_mul then w.pirate_attack_mul else unit
  ]

  abbrev loaded_damage : Content W → List (Slot W) → W → ℤ → W × ℤ
  loaded_damage c [] damage missiles = (damage, missiles)
  loaded_damage c (none ∷ ds) damage missiles = loaded_damage c ds damage missiles
  loaded_damage c (some d ∷ ds) damage missiles =
      let counts = is_loaded d in
      loaded_damage c ds
        (if counts
          then F.add damage
              (F.mul (weapon_damage_per_shot c d.item_id d.grade) (F.of_int d.missiles))
          else damage)
        (if counts then missiles +ℤ d.missiles else missiles)

  unfoldable pub missile_dps_for_odds : State W → Content W → W
  unfolding active_ship weapon_damage_per_shot
  missile_dps_for_odds s c = elim (active_ship s) [
    | none ↦ nought
    | some inst ↦
        let (damage, missiles) = loaded_damage c inst.weapon nought (pos 0) in
        if F.le c.slots.missile_cooldown_seconds nought
        then nought
        else if missiles ==ℤ pos 0
        then nought
        else F.div damage (F.mul (F.of_int missiles) c.slots.missile_cooldown_seconds)
  ]

  abbrev pub hundredths : ℤ → W
  hundredths n = F.div (F.of_int n) (F.of_int (pos 100))

  -- EstimateOdds for a pirate that is there.
  unfoldable pub estimate_odds : State W → Content W → Pirate W → W
  unfolding has_weapon installed_manual_weapon_volley missile_dps_for_odds
      autocannon_damage_per_second world_pirate_attack_mul
  estimate_odds s c p =
      let maneuver = F.fmax p.maneuver (hundredths (pos 1)) in
      let average =
        clamp (F.div c.combat.odds_avg_solution_base maneuver) (hundredths (pos 15))
          (hundredths (pos 90)) in
      let v = installed_manual_weapon_volley s c in
      let manual : W =
        if F.lt nought v.damage
          && (F.lt nought v.heat && F.lt nought c.combat.heat_decay_per_second)
        then F.mul (F.mul v.damage (F.div c.combat.heat_decay_per_second v.heat)) average
        else nought in
      let dps =
        F.add (F.add (autocannon_damage_per_second s c) manual) (missile_dps_for_odds s c) in
      let kill = F.div p.hull dps in
      let hits = F.add (F.of_int (max_hull s c)) (shield_max_hp s c) in
      let pirate = F.mul p.damage_per_second (world_pirate_attack_mul s c) in
      let survive = F.div hits pirate in
      if not (has_weapon s)
      then nought
      else if F.le dps nought
      then c.combat.odds_floor
      else if F.le pirate nought
      then c.combat.odds_ceiling
      else clamp (F.div survive (F.add survive kill)) c.combat.odds_floor c.combat.odds_ceiling
