-- ===== src/Sim/Market.antt =====
-- economy.go: what a docked pilot buys and sells, with the costs of derive.go.
pub mod Trade
pub mod Services
use text.Mathlib.Text.{◌==◌}
use ssh_moonminer.Common.{
  ℕ, String, Bool, true, false, not, ◌&&◌, ◌||◌, List, [], ◌∷◌, Option, none, some, if◌then◌else◌,
}
use ssh_moonminer.Common.Int.{ℤ, pos, ◌+ℤ◌, ◌-ℤ◌, ◌*ℤ◌, ◌/ℤ◌, ltb_ℤ, leb_ℤ, ◌==ℤ◌, min_ℤ}
use ssh_moonminer.Common.Dict.{Dict, lookup, insert}
use ssh_moonminer.Common.Float.{Float}
use ssh_moonminer.Content.{Content}
use ssh_moonminer.Content.Lookup.{system_by_id, world_by_id}
use ssh_moonminer.Sim.Errors.{
  SimError, fail, done, in_belt, invalid_world, already_unlocked, route_locked, insufficient_funds,
  cargo_empty, already_full, divide_by_zero,
}
use ssh_moonminer.Sim.State.{SlotDevice, ShipInstance, State, RunRecord}
use ssh_moonminer.Sim.Catalog.{item_fuel_tank}
use ssh_moonminer.Sim.Condition.{
  is_docked, active_ship, put_ship, nought, base_tank, fuel_tank_capacity, fuel_capacity,
  fuel_amount, max_hull, ship_hull, set_active_hull, sync_active_condition_mirror,
  sync_active_condition_from_legacy,
}
use ssh_moonminer.Sim.Frontier.{update_record, append_run_log}
use ssh_moonminer.Sim.Tracks.{spend}

-- A missing key of a Go map of flags reads as false.
abbrev pub flag : Option Bool → Bool
flag none = false
flag (some b) = b

module _ {W : Type 0} where
  unfoldable pub has_permit : State W → String → Bool
  has_permit s id = flag (lookup id s.destination_permits)

  unfoldable pub buy_destination_permit : State W → Content W → String → State W × Option SimError
  unfolding has_permit
  buy_destination_permit s c destination_id =
      if not (is_docked s) then fail s in_belt else elim (world_by_id c destination_id) [
        | none ↦ fail s invalid_world
        | some w ↦
            if w.starts_unlocked || has_permit s w.id
            then fail s already_unlocked
            else elim (system_by_id c w.system_id) [
              | none ↦ fail s route_locked
              | some y ↦
                  if not (w.system_id == s.system_id)
                  then fail s route_locked
                  else if ltb_ℤ s.credits w.permit_fee
                  then fail s insufficient_funds
                  else done (record (spend s w.permit_fee) {
                    destination_permits = insert w.id true s.destination_permits;
                  })
            ]
      ]

  -- The loop over `s.CargoOrigins`.
  unfoldable pub credit_origins : Dict ℤ → State W → State W
  unfolding update_record
  credit_origins [] s = s
  credit_origins ((id, value) ∷ origins) s =
      credit_origins origins
        (update_record id (λ r. record r { cargo_value_sold = r.cargo_value_sold +ℤ value }) s)

module _ {W : Type 0} ⦃F : Float W⦄ where
  abbrev pub sale_record : State W → Content W → ℤ → RunRecord W
  sale_record s c now = record {
    system_id = "";
    destination_id = "";
    when = now;
    world = elim (system_by_id c s.system_id) [ none ↦ s.system_id | some y ↦ y.name ];
    asteroid = "DOCK SALE";
    tier = pos 0;
    outcome = "cargo_sold";
    cargo_value_recovered = pos 0;
    cargo_value_lost = pos 0;
    cargo_value_jettisoned = pos 0;
    hull_delta = pos 0;
    fuel_delta = nought;
    depleted = false;
    cargo_value_sold = s.cargo_value;
    events = [];
    pirate_destroyed = "";
    bounty_earned = s.bounty_vouchers;
    disconnected = false;
  }

  -- The hold emptied and the vouchers redeemed.
  abbrev pub paid_out : State W → State W
  paid_out s =
      let value = s.cargo_value +ℤ s.bounty_vouchers in
      record s {
        credits = s.credits +ℤ value;
        cargo_origins = [];
        cargo_value = pos 0;
        cargo_units = nought;
        bounty_vouchers = pos 0;
        stats = record (s.stats) {
          credits_earned = s.stats.credits_earned +ℤ value;
          cargo_value_sold = s.stats.cargo_value_sold +ℤ s.cargo_value;
        };
        settings = record (s.settings) { insurance_used = false };
      }

  -- The value that is returned beside the error is what the sale brought.
  unfoldable pub sell_cargo : State W → Content W → ℤ → State W × Option SimError
  unfolding credit_origins append_run_log
  sell_cargo s c now =
      if not (is_docked s)
      then fail s in_belt
      else if leb_ℤ s.cargo_value (pos 0) && leb_ℤ s.bounty_vouchers (pos 0)
      then fail s cargo_empty
      else done (append_run_log (paid_out (credit_origins s.cargo_origins s)) (sale_record s c now))

  unfoldable pub refuel_points_needed : W → W → ℤ
  refuel_points_needed tank fuel =
      let missing = F.sub tank fuel in
      if F.le missing F.micro then pos 0 else F.ceil (F.sub missing F.micro)

  unfoldable pub refuel_cost : State W → Content W → ℤ
  unfolding refuel_points_needed
  refuel_cost s c =
      refuel_points_needed (fuel_capacity s c) (fuel_amount s c) *ℤ c.port.refuel_per_point

  unfoldable pub repair_cost : State W → Content W → ℤ
  repair_cost s c =
      let top = max_hull s c in
      let hull = ship_hull s s.active_ship_id in
      let rate = F.of_int c.port.repair_per_point in
      let full : W = if hull ==ℤ pos 0 then F.mul rate c.port.drydock_surcharge_mul else rate in
      if leb_ℤ top hull then pos 0 else F.round (F.mul (F.of_int (top -ℤ hull)) full)

  -- One tank filled from what remains.
  abbrev pub top_up : Content W → Option (SlotDevice W) → W → Option (SlotDevice W) × W
  top_up c none remaining = (none, remaining)
  top_up c (some d) remaining =
      let added = F.fmin (F.fmax nought (F.sub (fuel_tank_capacity c (some d)) d.fuel)) remaining in
      if not (d.item_id == item_fuel_tank) || F.le remaining nought
      then (some d, remaining)
      else (some (record d { fuel = F.add d.fuel added }), F.sub remaining added)

  unfoldable pub top_up_all :
      Content W → List (Option (SlotDevice W)) → W → List (Option (SlotDevice W)) × W
  top_up_all c [] remaining = ([], remaining)
  top_up_all c (d ∷ ds) remaining =
      let (e, left) = top_up c d remaining in
      let (es, rest) = top_up_all c ds left in (e ∷ es, rest)

  -- AddFuel without the accepted amount, which no caller here reads.
  unfoldable pub add_fuel : State W → Content W → W → State W
  unfolding top_up_all active_ship
  add_fuel s c amount = if F.le amount nought || F.is_nan amount then s else elim (active_ship s) [
    | none ↦ s
    | some inst ↦
        let (tanks, remaining) = top_up_all c inst.utility amount in
        let added = F.fmin (F.fmax nought (F.sub (base_tank c) inst.base_fuel)) remaining in
        sync_active_condition_mirror
          (put_ship s.active_ship_id
            (record inst { utility = tanks; base_fuel = F.add inst.base_fuel added }) s)
          c
  ]

  abbrev pub refuel_from : State W → Content W → State W × Option SimError
  refuel_from s c =
      let tank = fuel_capacity s c in
      let wanted = refuel_points_needed tank s.fuel in
      let points = min_ℤ (s.credits /ℤ c.port.refuel_per_point) wanted in
      if not (is_docked s)
      then fail s in_belt
      else if F.le tank s.fuel
      then fail s already_full
      else if leb_ℤ s.credits (pos 0)
      then fail s insufficient_funds
      else if leb_ℤ wanted (pos 0)
      then fail s already_full
      else if c.port.refuel_per_point ==ℤ pos 0
      then fail s divide_by_zero
      else if leb_ℤ points (pos 0)
      then fail s insufficient_funds
      else done (add_fuel (spend s (points *ℤ c.port.refuel_per_point)) c (F.of_int points))

  unfoldable pub refuel : State W → Content W → State W × Option SimError
  unfolding add_fuel refuel_points_needed
  refuel s c = refuel_from (sync_active_condition_from_legacy s c) c

  abbrev pub repair_from : State W → Content W → State W × Option SimError
  repair_from s c =
      let cost = repair_cost s c in
      if not (is_docked s)
      then fail s in_belt
      else if leb_ℤ (max_hull s c) s.hull
      then fail s already_full
      else if ltb_ℤ s.credits cost
      then fail s insufficient_funds
      else done (set_active_hull (spend s cost) c (max_hull s c))

  unfoldable pub repair : State W → Content W → State W × Option SimError
  unfolding repair_cost
  repair s c = repair_from (sync_active_condition_from_legacy s c) c
