-- ===== src/Sim/Tracks/Upgrades.antt =====
-- Upgrades of a ship's stat tracks.
use mathlib.Core.Path.{subst}
use ssh_moonminer.Common.{◌≡◌, refl, sym, ◌⊎◌, String, false, some, arith, by_option}
use ssh_moonminer.Common.Int.{ℤ, pos, ◌+ℤ◌, ◌-ℤ◌, ◌≤ℤ◌, ltb_ℤ, leb_ℤ, +ℤ_parts, -ℤ_parts}
use ssh_moonminer.Common.Dict.{lookup, lookup-insert_self}
use ssh_moonminer.Common.Float.{Float}
use ssh_moonminer.Content.{Content, ShipModel}
use ssh_moonminer.Content.Lookup.{ship_by_id}
use ssh_moonminer.Sim.Errors.{done}
use ssh_moonminer.Sim.State.{ShipInstance, State}
use ssh_moonminer.Sim.Condition.{put_ship}
use ssh_moonminer.Sim.Tracks.{
  Track, track_thrusters, track_hull, track_fuel_eff, track_power_gen, track_scanner, track_grade,
  set_track_grade, track_cap, track_price, spend, buy_grade, buy_ship_track,
}

module _ {W : Type 0} where
  track_grade-set :
      (inst : ShipInstance W) (t : Track) (g : ℤ) → track_grade (set_track_grade inst t g) t ≡ g
  track_grade-set inst track_thrusters g = refl
  track_grade-set inst track_hull g = refl
  track_grade-set inst track_fuel_eff g = refl
  track_grade-set inst track_power_gen g = refl
  track_grade-set inst track_scanner g = refl

  track_grade-set_other :
      (inst : ShipInstance W) (t u : Track) (g : ℤ)
      → (t ≡ u) ⊎ (track_grade (set_track_grade inst t g) u ≡ track_grade inst u)
  track_grade-set_other inst track_thrusters u g = ground arith
  track_grade-set_other inst track_hull u g = ground arith
  track_grade-set_other inst track_fuel_eff u g = ground arith
  track_grade-set_other inst track_power_gen u g = ground arith
  track_grade-set_other inst track_scanner u g = ground arith

module _ {W : Type 0} ⦃F : Float W⦄ where
  -- The ship before and after, and what it cost.
  abbrev pub Upgraded : State W → Content W → String → Track → State W → Type 0
  Upgraded s c id t u =
      (inst : ShipInstance W) × (model : ShipModel W) × (upgraded : ShipInstance W) × (lookup id
          s.ships
        ≡ some inst)
      × (ship_by_id c inst.model_id ≡ some model)
      × (lookup id u.ships ≡ some upgraded)
      × (track_grade upgraded t ≡ track_grade inst t +ℤ pos 1)
      × (track_grade upgraded t ≤ℤ track_cap model t)
      × ((v : Track) → (t ≡ v) ⊎ (track_grade upgraded v ≡ track_grade inst v))
      × (u.credits ≡ s.credits -ℤ track_price c model t (track_grade inst t))
      × (pos 0 ≤ℤ u.credits)

  abbrev upgraded_state :
      State W → Content W → String → Track → ShipInstance W → ShipModel W → State W
  upgraded_state s c id t inst model =
      put_ship id (set_track_grade inst t (track_grade inst t +ℤ pos 1))
        (spend s (track_price c model t (track_grade inst t)))

  upgrade :
      (s : State W) (c : Content W) (id : String) (t : Track) (inst : ShipInstance W)
      (model : ShipModel W)
      → lookup id s.ships ≡ some inst
      → ship_by_id c inst.model_id ≡ some model
      → leb_ℤ (track_cap model t) (track_grade inst t) ≡ false
      → ltb_ℤ s.credits (track_price c model t (track_grade inst t)) ≡ false
      → Upgraded s c id t (upgraded_state s c id t inst model)
  upgrade s c id t inst model l m room funds =
      let new : ShipInstance W = set_track_grade inst t (track_grade inst t +ℤ pos 1) in
      let grown : track_grade new t ≡ track_grade inst t +ℤ pos 1 = track_grade-set inst t _ in
      (
        inst,
        model,
        new,
        l,
        m,
        lookup-insert_self id new s.ships,
        grown,
        subst (λ n. n ≤ℤ track_cap model t) (sym grown)
            (ground (arith, room, +ℤ_parts (track_grade inst t) (pos 1))),
        (λ v. track_grade-set_other inst t v _),
        refl,
        ground (arith, funds, -ℤ_parts s.credits (track_price c model t (track_grade inst t))),
      )

  -- An accepted upgrade raises the bought track of the ship by exactly one grade and no other
  -- track, never past the cap of the ship's model, takes the price of the grade that the ship
  -- had, and leaves no debt.
  pub buy_ship_track-done :
      (s : State W) (c : Content W) (id : String) (t : Track) {u : State W}
      → buy_ship_track s c id t ≡ done u
      → Upgraded s c id t u
  unfolding buy_ship_track buy_grade
  buy_ship_track-done s c id t {u = u} h =
      by_option (lookup id s.ships) (λ e. ground (arith, e))
        (λ inst l.
          by_option (ship_by_id c inst.model_id) (λ m. ground (arith, l, m))
            (λ model m.
              let made : upgraded_state s c id t inst model ≡ u = ground (arith, l, m) in
              subst (Upgraded s c id t) made
                (upgrade s c id t inst model l m (ground (arith, l, m)) (ground (arith, l, m)))))
