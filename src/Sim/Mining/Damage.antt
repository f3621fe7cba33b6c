-- ===== src/Sim/Mining/Damage.antt =====
-- run.go: damage to shield and hull, and the escape burn, each on the save and its run.
use ssh_moonminer.Common.{String, Bool, true, false, ◌||◌, Option, none, some, if◌then◌else◌}
use ssh_moonminer.Common.Int.{pos, ◌-ℤ◌, ltb_ℤ, max_ℤ}
use text.Mathlib.Text.{◌==◌}
use ssh_moonminer.Common.Float.{Float}
use ssh_moonminer.Content.{Content}
use ssh_moonminer.Sim.State.{State, ActiveRun, RunEvent}
use ssh_moonminer.Sim.Condition.{active_ship, nought, update_ship, set_active_hull}
use ssh_moonminer.Sim.Figures.{fuel_drain_mul, consume_fuel}

abbrev pub is_event : {W : Type 0} → String → Option (RunEvent W) → Bool
is_event kind none = false
is_event kind (some e) = e.kind == kind

module _ {W : Type 0} ⦃F : Float W⦄ where
  -- Whole points reach the hull, the rest is carried over.
  unfoldable pub apply_hull_damage_carry :
      State W → Content W → ActiveRun W → W → State W × ActiveRun W
  unfolding set_active_hull
  apply_hull_damage_carry s c run reduced =
      let carry = F.add run.hull_damage_carry reduced in
      let whole = F.trunc carry in
      if F.le reduced nought || s.dev_god_mode
      then (s, run)
      else if ltb_ℤ (pos 0) whole
      then (
        set_active_hull s c (max_ℤ (pos 0) (s.hull -ℤ whole)),
        record run { hull_damage_carry = F.sub carry (F.of_int whole) },
      )
      else (s, record run { hull_damage_carry = carry })

  unfoldable pub apply_hull_damage_rate :
      State W → Content W → ActiveRun W → W → W → State W × ActiveRun W
  unfolding apply_hull_damage_carry
  apply_hull_damage_rate s c run rate dt =
      if F.le rate nought || F.le dt nought
      then (s, run)
      else apply_hull_damage_carry s c run (F.mul rate dt)

  -- The reactor's one blow.
  unfoldable pub apply_hull_damage_instant :
      State W → Content W → ActiveRun W → W → State W × ActiveRun W
  unfolding apply_hull_damage_carry
  apply_hull_damage_instant s c run amount =
      if F.le amount nought then (s, run) else apply_hull_damage_carry s c run amount

  -- The shield takes what it can; what is left goes to the hull.
  unfoldable pub apply_attack_damage_rate :
      State W → Content W → ActiveRun W → W → W → State W × ActiveRun W
  unfolding apply_hull_damage_carry active_ship
  apply_attack_damage_rate s c run rate dt =
      let amount = F.mul rate dt in
      if F.le rate nought || F.le dt nought then (s, run) else elim (active_ship s) [
        | none ↦ apply_hull_damage_carry s c run amount
        | some inst ↦
            let absorbed = F.fmin inst.shield_hp amount in
            let left = F.sub inst.shield_hp absorbed in
            if F.lt nought inst.shield_hp
            then apply_hull_damage_carry
                (update_ship s.active_ship_id
                  (λ i.
                    if F.le left nought
                    then record i { shield_hp = nought; shield_damaged = true }
                    else record i { shield_hp = left })
                  s)
                c run (F.sub amount absorbed)
            else apply_hull_damage_carry s c run amount
      ]

  unfoldable pub tick_escape_burn : State W → Content W → ActiveRun W → W → State W × ActiveRun W
  unfolding consume_fuel fuel_drain_mul
  tick_escape_burn s c run dt =
      let drain = F.mul c.mining.escape_fuel_drain_per_sec (fuel_drain_mul s c) in
      let surged : W =
        if is_event "reactor_surge" run.active_event
        then F.mul drain c.events.reactor_surge_fuel_mul
        else drain in
      let t = (consume_fuel s c (F.mul surged dt)).0 in
      let out : W =
        if F.le t.fuel nought then F.add run.fuel_out_seconds dt else run.fuel_out_seconds in
      let penalty =
        F.fmin (F.mul out c.mining.fuel_out_escape_penalty_per_sec)
          c.mining.fuel_out_escape_penalty_cap_seconds in
      (
        t,
        record run {
          escape_seconds_elapsed = F.add run.escape_seconds_elapsed dt;
          fuel_out_seconds = out;
          escape_seconds_required = F.add run.base_escape_seconds_required penalty;
        },
      )
