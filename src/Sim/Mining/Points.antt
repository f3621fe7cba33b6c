-- ===== src/Sim/Mining/Points.antt =====
-- skillcheck.go: the pressure points of an asteroid.
use ssh_moonminer.Common.{
  ℕ, zero, suc, ◌+◌, Bool, true, false, not, ◌&&◌, ◌||◌, List, [], ◌∷◌, set, get_elem?, Option,
  none, some, if◌then◌else◌,
}
use ssh_moonminer.Common.Int.{ℤ, pos, negsuc, pos_part, ◌+ℤ◌, ◌-ℤ◌, ltb_ℤ, leb_ℤ}
use ssh_moonminer.Common.Float.{Float}
use ssh_moonminer.Content.{Content}
use ssh_moonminer.Sim.Errors.{SimError, fail, done, no_active_run}
use ssh_moonminer.Sim.State.{
  State, ActiveRun, Asteroid, SkillCheck, PressurePoint, PressurePointStatus, dormant, active, hit,
  missed,
}
use ssh_moonminer.Sim.Dice.{Random, run_rng}
use ssh_moonminer.Sim.Condition.{nought}
use ssh_moonminer.Sim.Figures.{remaining_cargo_capacity}
use ssh_moonminer.Sim.Mining.Rocks.{find_asteroid}
use ssh_moonminer.Sim.Mining.Accounting.{
  put_run, log_event, normalize_run_accounting, run_depleted, run_cargo_full,
}
use ssh_moonminer.Sim.Mining.Escape.{is_mining}

abbrev pub is_dormant : PressurePointStatus → Bool
is_dormant dormant = true
is_dormant _ = false

-- The index of the first untouched point, from number `i` on.
unfoldable pub next_from : ℤ → List PressurePoint → ℤ
next_from i [] = negsuc 0
next_from i (p ∷ ps) =
    let rest = next_from (i +ℤ pos 1) ps in if is_dormant p.status then i else rest

unfoldable pub set_status : List PressurePoint → ℤ → PressurePointStatus → List PressurePoint
set_status ps (negsuc n) status = ps
set_status ps (pos n) status = elim (get_elem? ps n) [
  | none ↦ ps
  | some p ↦ set ps n (record p { status = status })
]

-- The first `count` of the shuffled positions.
unfoldable pub points_at : ℕ → List ℤ → List PressurePoint
points_at count [] = []
points_at zero (p ∷ ps) = []
points_at (suc count) (p ∷ ps) = record { position = p; status = dormant } ∷ points_at count ps

module _ {W : Type 0} where
  unfoldable pub next_pressure_point : ActiveRun W → ℤ
  unfolding next_from
  next_pressure_point run = next_from (pos 0) run.pressure_points

  unfoldable pub set_pressure_point_status : ActiveRun W → ℤ → PressurePointStatus → ActiveRun W
  unfolding set_status
  set_pressure_point_status run i status = record run {
    pressure_points = set_status run.pressure_points i status;
  }

module _ {W R : Type 0} ⦃F : Float W⦄ (G : Random W R) where
  abbrev point_count : Content W → R → ℤ × R
  point_count c rng =
      let low =
        if ltb_ℤ c.mining.pressure_points_min (pos 1)
        then pos 1
        else c.mining.pressure_points_min in
      let high =
        if ltb_ℤ c.mining.pressure_points_max low then low else c.mining.pressure_points_max in
      if ltb_ℤ low high
      then (let (extra, next) = G.intn (high -ℤ low +ℤ pos 1) rng in (low +ℤ extra, next))
      else (low, rng)

  -- The content check allows three points at most, the shuffle has eight positions.
  unfoldable pub roll_pressure_points : State W → Content W → ActiveRun W → ActiveRun W
  unfolding run_rng points_at
  roll_pressure_points s c run =
      let (count, next) = point_count c (run_rng G s run 6400) in
      record run { pressure_points = points_at (pos_part count) (G.perm (pos 8) next).0 }

  unfoldable pub roll_next_skill_check_in : State W → Content W → ActiveRun W → ActiveRun W
  unfolding run_rng
  roll_next_skill_check_in s c run =
      let low = c.mining.skill_check_min_interval_seconds in
      let high = c.mining.skill_check_max_interval_seconds in
      let roll = (G.float64 (run_rng G s run (6500 + run.tick_count))).0 in
      record run { next_skill_check_in = F.add low (F.mul roll (F.sub high low)) }

  abbrev nothing_to_mine : State W → Content W → ActiveRun W → Asteroid W → Bool
  nothing_to_mine s c run a =
      leb_ℤ a.volume (pos 0) || (run_depleted (some a) run || run_cargo_full s c run)

  abbrev put_out : ActiveRun W → ActiveRun W
  put_out run = elim run.skill_check [
    | none ↦ run
    | some k ↦ record (set_pressure_point_status run k.pressure_point dormant) {
      skill_check = none;
    }
  ]

  abbrev lit_on : State W → Content W → ActiveRun W → SkillCheck W → W → ActiveRun W
  lit_on s c run k dt =
      let elapsed = F.add k.elapsed dt in
      if F.le k.window elapsed
      then roll_next_skill_check_in s c
          (record (set_pressure_point_status run k.pressure_point missed) { skill_check = none })
      else record run { skill_check = some (record k { elapsed = elapsed }) }

  abbrev has_points : List PressurePoint → Bool
  has_points [] = false
  has_points (p ∷ ps) = true

  abbrev light_next : Content W → ActiveRun W → W → ActiveRun W
  light_next c run dt =
      let point = next_pressure_point run in
      let left = F.sub run.next_skill_check_in dt in
      let waiting : ActiveRun W = record run { next_skill_check_in = left } in
      let shown : ActiveRun W =
        if leb_ℤ (pos 0) point then set_pressure_point_status waiting point active else waiting in
      if has_points run.pressure_points && ltb_ℤ point (pos 0)
      then run
      else if F.lt nought left
      then waiting
      else record shown {
        skill_check = some (record {
          elapsed = nought;
          window = c.mining.skill_check_window_seconds;
          pressure_point = point;
        });
      }

  unfoldable pub tick_skill_check : State W → Content W → ActiveRun W → Asteroid W → W → ActiveRun W
  unfolding roll_next_skill_check_in set_pressure_point_status next_pressure_point run_depleted
      run_cargo_full
  tick_skill_check s c run a dt =
      if nothing_to_mine s c run a
      then put_out run
      else elim run.skill_check [ some k ↦ lit_on s c run k dt | none ↦ light_next c run dt ]

  abbrev fractured : State W → Content W → ActiveRun W → Asteroid W → ℤ → ActiveRun W
  fractured s c run a now =
      let free = F.fmax nought (F.sub (remaining_cargo_capacity s c) run.held_units) in
      let remaining = F.fmin (F.sub (F.of_int a.volume) run.extracted_units) free in
      let bonus = F.mul remaining c.mining.skill_check_bonus_pct in
      let held = F.add run.held_units bonus in
      if F.lt nought bonus
      then log_event "pressure_point_hit" now (record run {
        extracted_units = F.add run.extracted_units bonus;
        held_units = held;
        mined_units = held;
        cargo_value = F.round (F.div (F.mul (F.of_int a.value) held) (F.of_int a.volume));
      })
      else run

  abbrev struck_point : State W → Content W → ActiveRun W → SkillCheck W → ActiveRun W
  struck_point s c run k = roll_next_skill_check_in s c (
      set_pressure_point_status (record (normalize_run_accounting run) { skill_check = none })
        k.pressure_point hit)

  abbrev after_strike : State W → Content W → ActiveRun W → ℤ → State W
  after_strike s c run now = elim (find_asteroid s run.asteroid_id) [
    | none ↦ put_run run s
    | some a ↦
        if nothing_to_mine s c run a then put_run run s else put_run (fractured s c run a now) s
  ]

  unfoldable pub attempt_skill_check : State W → Content W → ℤ → State W × Option SimError
  unfolding roll_next_skill_check_in set_pressure_point_status normalize_run_accounting
      find_asteroid run_depleted run_cargo_full log_event remaining_cargo_capacity
  attempt_skill_check s c now = elim s.run [
    | none ↦ fail s no_active_run
    | some run ↦ if not (is_mining run.phase) then done s else elim run.skill_check [
      | none ↦ done s
      | some k ↦ done (after_strike s c (struck_point s c run k) now)
    ]
  ]
