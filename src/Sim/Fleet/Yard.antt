-- ===== src/Sim/Fleet/Yard.antt =====
-- ships.go: new hulls, bought or issued, and what becomes of a pilot whose ship is lost.
use Prim.Native.Nat.{Ordering}
use Prim.Native.String.{◌++◌ as text_append, compare as compare_text}
use text.Mathlib.Text.{◌==◌}
use ssh_moonminer.Common.{
  ℕ, zero, suc, String, Bool, true, false, not, ◌&&◌, [], ◌∷◌, replicate, length, Option, none,
  some, if◌then◌else◌,
}
use ssh_moonminer.Common.Int.{ℤ, pos, negsuc, pos_part, ◌+ℤ◌, ◌-ℤ◌, ◌*ℤ◌, ltb_ℤ, leb_ℤ, ◌==ℤ◌}
use ssh_moonminer.Common.Dict.{Dict, lookup, insert, delete}
use ssh_moonminer.Common.Float.{Float}
use ssh_moonminer.Content.{Content, ShipModel}
use ssh_moonminer.Content.Lookup.{ship_by_id}
use ssh_moonminer.Sim.Errors.{
  SimError, Result, ok, err, fail, done, in_belt, already_owned, invalid_ship, not_eligible,
  insufficient_funds, nil_dereference, negative_length, names_used_up,
}
use ssh_moonminer.Sim.State.{ShipInstance, State}
use ssh_moonminer.Sim.Condition.{is_docked, owns_ship, nought, sync_active_condition_mirror}
use ssh_moonminer.Sim.Tracks.{spend}
use ssh_moonminer.Sim.Fleet.{
  starter_ship_id, local_ship_count, was_unlocked, ship_sold_here, activate_ship,
}

module _ {W : Type 0} ⦃F : Float W⦄ where
  abbrev fresh_of : Content W → String → ShipModel W → ShipInstance W
  fresh_of c id model = record {
    model_id = id;
    system_id = "";
    hull = c.pilot.start_hull +ℤ c.fleet.hull_pool_per_grade *ℤ model.hull_start;
    base_fuel = F.of_int c.pilot.start_fuel;
    grades = record {
      thrusters = model.thrusters_start;
      hull = model.hull_start;
      fuel_eff = model.fuel_eff_start;
      power_gen = model.power_gen_start;
      scanner = model.scanner_start;
    };
    utility = replicate (pos_part model.utility_slots) none;
    weapon = replicate (pos_part model.weapon_slots) none;
    internal = none;
    additional_internal = replicate (pos_part (model.internal_slots -ℤ pos 1)) none;
    jammer_charges = pos 0;
    shield_hp = nought;
    shield_damaged = false;
  }

  -- Every caller writes through the result, so a missing model is a panic there.
  unfoldable pub fresh_ship_instance : Content W → String → Result (ShipInstance W)
  fresh_ship_instance c id = elim (ship_by_id c id) [
    | none ↦ err nil_dereference
    | some model ↦
        if ltb_ℤ model.internal_slots (pos 1) then err negative_length else ok (fresh_of c id model)
  ]

  -- `skiff@SYSTEM`, then `skiff@SYSTEM-2` and so on, up to the first that is free.
  unfoldable pub free_name : (ℤ → String) → String → Dict (ShipInstance W) → ℕ → ℕ → Option String
  free_name show base ships zero i = none
  free_name show base ships (suc fuel) i =
      let name =
        if leb_ℤ (pos i) (pos 1) then base else text_append base (text_append "-" (show (pos i))) in
      elim (lookup name ships) [
        | none ↦ some name
        | some _ ↦ free_name show base ships fuel (suc i)
      ]

  -- The Skiff that the pilot left in another system keeps its place under a name of its own.
  unfoldable pub set_aside : (ℤ → String) → State W → Result (State W)
  unfolding free_name
  set_aside show s = elim (lookup starter_ship_id s.ships) [
    | none ↦ ok s
    | some old ↦
        if old.system_id == s.system_id
        then ok s
        else elim (free_name show (text_append "skiff@" old.system_id) s.ships
            (suc (length s.ships)) 1) [
              | none ↦ err names_used_up
              | some name ↦ ok (record s { ships = insert name old s.ships })
            ]
  ]

  unfoldable pub put_fresh : String → ShipInstance W → State W → State W
  put_fresh id inst s = record s {
    ships = insert id (record inst { system_id = s.system_id }) s.ships;
    ships_unlocked = insert id true s.ships_unlocked;
  }

  unfoldable pub grant_starter_ship : (ℤ → String) → State W → Content W → Result (State W)
  unfolding set_aside fresh_ship_instance put_fresh
  grant_starter_ship show s c = elim (set_aside show s) [
    | err e ↦ err e
    | ok t ↦ elim (fresh_ship_instance c starter_ship_id) [
      | err e ↦ err e
      | ok inst ↦
          ok (record (put_fresh starter_ship_id inst t) { active_ship_id = starter_ship_id })
    ]
  ]

  unfoldable pub ship_acquire_price : State W → Content W → String → ℤ
  unfolding was_unlocked
  ship_acquire_price s c id = elim (ship_by_id c id) [
    | none ↦ pos 0
    | some model ↦
        if not model.no_buyback && was_unlocked s id
        then F.round
            (F.div (F.mul (F.of_int model.price) c.fleet.buyback_price_pct) (F.of_int (pos 10)))
          *ℤ pos 10
        else model.price
  ]

  unfoldable pub is_buyback : State W → Content W → String → Bool
  is_buyback s c id = elim (ship_by_id c id) [
    | none ↦ false
    | some model ↦
        not model.no_buyback
        && (ship_sold_here s c id && (not (owns_ship s id) && was_unlocked s id))
  ]

  abbrev bought : State W → Content W → String → ℤ → State W × Option SimError
  bought s c id price = elim (fresh_ship_instance c id) [
    | err e ↦ fail s e
    | ok inst ↦
        let paid = spend s price in
        let counted : State W = record paid {
          stats = record (paid.stats) { ships_purchased = paid.stats.ships_purchased +ℤ pos 1 };
          settings = record (paid.settings) {
            insurance_used = if ltb_ℤ (pos 0) price then false else paid.settings.insurance_used;
          };
        } in
        done (put_fresh id inst counted)
  ]

  unfoldable pub acquire_ship :
      (ℤ → String) → State W → Content W → String → State W × Option SimError
  unfolding grant_starter_ship ship_acquire_price fresh_ship_instance
  acquire_ship show s c id =
      let price = ship_acquire_price s c id in
      if not (is_docked s)
      then fail s in_belt
      else if (id == starter_ship_id) && (local_ship_count s ==ℤ pos 0)
      then elim (grant_starter_ship show s c) [
        | err e ↦ fail s e
        | ok t ↦ done (sync_active_condition_mirror t c)
      ]
      else if owns_ship s id
      then fail s already_owned
      else elim (ship_by_id c id) [
        | none ↦ fail s invalid_ship
        | some model ↦
            if not (ship_sold_here s c id)
            then fail s not_eligible
            else if ltb_ℤ s.credits price
            then fail s insufficient_funds
            else bought s c id price
      ]

  abbrev price_of : Content W → String → ℤ
  price_of c id = elim (ship_by_id c id) [ none ↦ pos 0 | some model ↦ model.price ]

  -- The order that the hangar is sorted by: dear first, then by name.
  abbrev before_ship : Content W → String → String → Bool
  before_ship c a b =
      if price_of c a ==ℤ price_of c b
      then elim (compare_text a b) [ Ordering.lt ↦ true | _ ↦ false ]
      else ltb_ℤ (price_of c b) (price_of c a)

  abbrev better : Content W → String → Option String → Option String
  better c id none = some id
  better c id (some other) = if before_ship c other id then some other else some id

  unfoldable pub best_of : Content W → String → Dict (ShipInstance W) → Option String
  best_of c place [] = none
  best_of c place ((id, inst) ∷ ships) =
      let rest = best_of c place ships in if inst.system_id == place then better c id rest else rest

  unfoldable pub recovery_ship_id : State W → Content W → Option String
  unfolding best_of
  recovery_ship_id s c = elim (lookup starter_ship_id s.ships) [
    | none ↦ best_of c s.system_id s.ships
    | some skiff ↦
        if skiff.system_id == s.system_id
        then some starter_ship_id
        else best_of c s.system_id s.ships
  ]

  abbrev pub wrecked : State W → State W
  wrecked s = record s {
    ships_lost_at = insert s.active_ship_id s.system_id s.ships_lost_at;
    ships = delete s.active_ship_id s.ships;
    stats = record (s.stats) { ships_lost = s.stats.ships_lost +ℤ pos 1 };
  }

  abbrev pub back_at_dock : State W → State W
  back_at_dock s = record s { world_idx = negsuc 0; belt = []; scan = none }

  unfoldable pub respawn_active_ship : (ℤ → String) → State W → Content W → Result (State W)
  unfolding recovery_ship_id grant_starter_ship
  respawn_active_ship show s c = elim (recovery_ship_id (wrecked s) c) [
    | some next ↦ ok (back_at_dock (activate_ship (wrecked s) c next))
    | none ↦ elim (grant_starter_ship show (wrecked s) c) [
      | err e ↦ err e
      | ok t ↦
          let u = sync_active_condition_mirror t c in
          ok (back_at_dock (activate_ship u c u.active_ship_id))
    ]
  ]
