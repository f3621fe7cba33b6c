-- ===== src/Sim/Mining/Rocks.antt =====
-- belt.go: the asteroids of a belt, found by their number.
use ssh_moonminer.Common.{Bool, List, [], ◌∷◌, Option, none, some, if◌then◌else◌}
use ssh_moonminer.Common.Int.{ℤ, pos, ltb_ℤ, leb_ℤ, ◌==ℤ◌}
use ssh_moonminer.Common.Float.{Float}
use ssh_moonminer.Content.{Content}
use ssh_moonminer.Sim.State.{State, Asteroid}
use ssh_moonminer.Sim.Numbers.{clamp}
use ssh_moonminer.Sim.Condition.{nought}
use ssh_moonminer.Sim.Figures.{unit, scanner_lock_km}

module _ {W : Type 0} where
  unfoldable pub find_in : ℤ → List (Asteroid W) → Option (Asteroid W)
  find_in id [] = none
  find_in id (a ∷ belt) = if a.id ==ℤ id then some a else find_in id belt

  unfoldable pub find_asteroid : State W → ℤ → Option (Asteroid W)
  unfolding find_in
  find_asteroid s id = find_in id s.belt

  -- A write through the pointer that FindAsteroid returns: the first asteroid of that number.
  unfoldable pub change_in : ℤ → (Asteroid W → Asteroid W) → List (Asteroid W) → List (Asteroid W)
  change_in id g [] = []
  change_in id g (a ∷ belt) =
      let rest = change_in id g belt in if a.id ==ℤ id then g a ∷ belt else a ∷ rest

  unfoldable pub change_asteroid : ℤ → (Asteroid W → Asteroid W) → State W → State W
  unfolding change_in
  change_asteroid id g s = record s { belt = change_in id g s.belt }

  unfoldable pub drop_in : ℤ → List (Asteroid W) → List (Asteroid W)
  drop_in id [] = []
  drop_in id (a ∷ belt) = let rest = drop_in id belt in if a.id ==ℤ id then belt else a ∷ rest

  unfoldable pub remove_asteroid : ℤ → State W → State W
  unfolding drop_in
  remove_asteroid id s = record s { belt = drop_in id s.belt }

module _ {W : Type 0} ⦃F : Float W⦄ where
  unfoldable pub is_out_of_range : State W → Content W → Asteroid W → Bool
  unfolding scanner_lock_km
  is_out_of_range s c a = F.lt (scanner_lock_km s c) a.distance

  unfoldable pub round1 : W → W
  round1 v = F.div (F.of_int (F.round (F.mul v (F.of_int (pos 10))))) (F.of_int (pos 10))

  -- What is left of an asteroid by a fraction of it.
  abbrev pub shrunk : W → Asteroid W → Asteroid W
  shrunk left a =
      let volume = F.round (F.mul (F.of_int a.volume) left) in
      let drill = round1 (F.mul a.drill_sec left) in
      record a {
        value = F.round (F.mul (F.of_int a.value) left);
        drill_sec =
            if F.lt drill (F.div unit (F.of_int (pos 2)))
            then F.div unit (F.of_int (pos 2))
            else drill;
        volume = if ltb_ℤ volume (pos 1) then pos 1 else volume;
      }

  unfoldable pub apply_mined_remnant : ℤ → W → State W → State W
  unfolding change_asteroid round1
  apply_mined_remnant id mined s =
      change_asteroid id
        (λ a.
          if leb_ℤ a.volume (pos 0)
          then a
          else shrunk
              (clamp (F.div (F.sub (F.of_int a.volume) mined) (F.of_int a.volume)) nought unit) a)
        s
