-- ===== src/Sim/Mining/Outcome.antt =====
-- run.go and frontier.go: how a run ends and what it leaves in the save.
use ssh_moonminer.Common.{
  String, Bool, true, false, ◌&&◌, [], map, Option, none, some, if◌then◌else◌,
}
use ssh_moonminer.Common.Int.{ℤ, pos, ◌+ℤ◌, ◌-ℤ◌, ltb_ℤ, ◌==ℤ◌}
use ssh_moonminer.Common.Dict.{lookup, insert}
use ssh_moonminer.Common.Float.{Float}
use ssh_moonminer.Content.{Content, World}
use ssh_moonminer.Content.Lookup.{world_by_index}
use ssh_moonminer.Sim.Errors.{SimError, Result, ok, err, nil_dereference}
use ssh_moonminer.Sim.State.{
  State, FrontierRecord, ActiveRun, Asteroid, RunRecord, OutcomeKind, undecided, departed, bailed,
  tribute_paid, escaped_under_fire, pirate_destroyed, ship_lost,
}
use ssh_moonminer.Sim.Dice.{Math}
use ssh_moonminer.Sim.Condition.{nought}
use ssh_moonminer.Sim.Figures.{unit, restore_burst_shield_on_belt_return}
use ssh_moonminer.Sim.Frontier.{or_0, update_record, append_run_log}
use ssh_moonminer.Sim.Fleet.Yard.{respawn_active_ship}
use ssh_moonminer.Sim.Mining.Rocks.{find_asteroid, remove_asteroid, apply_mined_remnant}
use ssh_moonminer.Sim.Mining.Accounting.{no_run, put_run, normalize_run_accounting, run_depleted}

pub record RunOutcome (W : Type 0) : Type 0 where
  pub kind : OutcomeKind
  pub rec : RunRecord W
  pub description : String
  pub label : String

-- What a step of a run answers; after a panic the save beside it is of no use.
pub data Ended (W : Type 0) : Type 0 where
  running : Ended W
  ended : RunOutcome W → Ended W
  panicked : SimError → Ended W

abbrev pub kind_text : OutcomeKind → String
kind_text undecided = ""
kind_text departed = "departed"
kind_text bailed = "bailed"
kind_text tribute_paid = "tribute_paid"
kind_text escaped_under_fire = "escaped_under_fire"
kind_text pirate_destroyed = "pirate_destroyed"
kind_text ship_lost = "ship_lost"

unfoldable pub outcome_label : OutcomeKind → String
outcome_label undecided = ""
outcome_label departed = "DEPARTED"
outcome_label bailed = "BAILED"
outcome_label tribute_paid = "TRIBUTE PAID"
outcome_label escaped_under_fire = "ESCAPED UNDER FIRE"
outcome_label pirate_destroyed = "PIRATE DESTROYED"
outcome_label ship_lost = "CONNECTION LOST"

unfoldable pub outcome_desc : OutcomeKind → String
outcome_desc undecided = ""
outcome_desc departed =
    "Asteroid depleted. Cargo sealed. No clean run is safe until the dock buys it."
outcome_desc bailed = "Cut the drill and ran with a partial hold."
outcome_desc tribute_paid = "Cargo jettisoned. Pirates took the easy money and let the ship run."
outcome_desc escaped_under_fire = "Hull torn open, engines screaming, cargo still aboard."
outcome_desc pirate_destroyed = "Threat neutralized. Cargo sealed and bounty voucher confirmed."
outcome_desc ship_lost = "The ship and its hold are gone."

abbrev pub is_lost : OutcomeKind → Bool
is_lost ship_lost = true
is_lost _ = false

abbrev pub is_departed : OutcomeKind → Bool
is_departed departed = true
is_departed _ = false

module _ {W : Type 0} where
  -- One more run of a kind.
  abbrev pub counted : OutcomeKind → State W → State W
  counted undecided s = s
  counted departed s = record s {
    stats = record (s.stats) { runs_departed = s.stats.runs_departed +ℤ pos 1 };
  }
  counted bailed s = record s {
    stats = record (s.stats) { runs_bailed = s.stats.runs_bailed +ℤ pos 1 };
  }
  counted tribute_paid s = record s {
    stats = record (s.stats) { runs_tribute_paid = s.stats.runs_tribute_paid +ℤ pos 1 };
  }
  counted escaped_under_fire s = record s {
    stats = record (s.stats) { runs_escaped_under_fire = s.stats.runs_escaped_under_fire +ℤ pos 1 };
  }
  counted pirate_destroyed s = s
  counted ship_lost s = s

module _ {W : Type 0} ⦃F : Float W⦄ where
  unfoldable pub update_stats_on_outcome : OutcomeKind → ℤ → W → State W → State W
  update_stats_on_outcome kind tier extracted s =
      let one_more : State W = record s {
        stats = record (s.stats) { runs_total = s.stats.runs_total +ℤ pos 1 };
      } in
      let t = counted kind one_more in
      if (tier ==ℤ pos 3) && F.lt nought extracted
      then record t {
        stats = record (t.stats) { legendaries_mined = t.stats.legendaries_mined +ℤ pos 1 };
      }
      else t

  -- The record of the system that the run was made in.
  abbrev pub after_run : RunRecord W → OutcomeKind → W → FrontierRecord → FrontierRecord
  after_run rec kind extracted f =
      let mined = (rec.tier ==ℤ pos 3) && F.lt nought extracted in
      let runs = or_0 (lookup rec.destination_id f.runs_by_destination) +ℤ pos 1 in
      record f {
        ships_lost = if is_lost kind then f.ships_lost +ℤ pos 1 else f.ships_lost;
        runs_survived = if is_lost kind then f.runs_survived else f.runs_survived +ℤ pos 1;
        runs_by_destination =
            if is_lost kind
            then f.runs_by_destination
            else insert rec.destination_id runs f.runs_by_destination;
        legendaries_mined = if mined then f.legendaries_mined +ℤ pos 1 else f.legendaries_mined;
      }

  unfoldable pub record_frontier_outcome : RunRecord W → OutcomeKind → W → State W → State W
  unfolding update_record
  record_frontier_outcome rec kind extracted s =
      update_record s.system_id (after_run rec kind extracted) s

  -- The hold goes down with the ship, or takes up what the run holds.
  unfoldable pub settle_cargo : OutcomeKind → ActiveRun W → State W → State W
  settle_cargo kind run s =
      if is_lost kind
      then record s { cargo_value = pos 0; cargo_origins = []; cargo_units = nought }
      else record s {
        cargo_value = s.cargo_value +ℤ run.cargo_value;
        cargo_origins =
            insert s.system_id (or_0 (lookup s.system_id s.cargo_origins) +ℤ run.cargo_value)
              s.cargo_origins;
        cargo_units = F.add s.cargo_units run.held_units;
      }

  -- What becomes of the asteroid.
  abbrev pub remain_ratio : Asteroid W → ActiveRun W → W
  remain_ratio a run =
      if ltb_ℤ (pos 0) a.volume
      then F.sub unit (F.div run.extracted_units (F.of_int a.volume))
      else unit

  abbrev pub exhausted : Asteroid W → ActiveRun W → Bool
  exhausted a run = ltb_ℤ (pos 0) a.volume && F.le (F.of_int a.volume) run.extracted_units

  unfoldable pub settle_asteroid :
      Content W → OutcomeKind → ActiveRun W → Option (Asteroid W) → State W → State W
  settle_asteroid c kind run none s = s
  settle_asteroid c kind run (some a) s =
      if is_lost kind
      then remove_asteroid run.asteroid_id s
      else if is_departed kind && exhausted a run
      then remove_asteroid run.asteroid_id s
      else if F.lt (remain_ratio a run) c.mining.remnant_keep_threshold
      then remove_asteroid run.asteroid_id s
      else apply_mined_remnant run.asteroid_id run.extracted_units s

  abbrev pub name_of : Option (Asteroid W) → String
  name_of none = ""
  name_of (some a) = a.name

  abbrev pub tier_of : Option (Asteroid W) → ℤ
  tier_of none = pos 0
  tier_of (some a) = a.tier

  -- The record of a run: what the save had before its cargo was settled is `s`.
  abbrev pub run_record :
      State W → OutcomeKind → ActiveRun W → Option (Asteroid W) → String → String → ℤ → RunRecord W
  run_record s kind run ast destination world now = record {
    system_id = s.system_id;
    destination_id = destination;
    when = now;
    world = world;
    asteroid = name_of ast;
    tier = tier_of ast;
    outcome = kind_text kind;
    cargo_value_recovered = if is_lost kind then pos 0 else run.cargo_value;
    cargo_value_lost = if is_lost kind then s.cargo_value +ℤ run.cargo_value else pos 0;
    cargo_value_jettisoned = run.tribute_demand;
    hull_delta = s.hull -ℤ run.start_hull;
    fuel_delta = F.sub s.fuel run.start_fuel;
    depleted = run_depleted ast run;
    cargo_value_sold = pos 0;
    events = map (λ e. e.kind) run.event_log;
    pirate_destroyed = run.pirate_destroyed;
    bounty_earned = run.bounty_earned;
    disconnected = false;
  }

  abbrev pub outcome_of : OutcomeKind → RunRecord W → RunOutcome W
  outcome_of kind rec = record {
    kind = kind;
    rec = rec;
    description = outcome_desc kind;
    label = outcome_label kind;
  }

  -- Log, statistics and frontier.
  unfoldable pub book_outcome : RunRecord W → OutcomeKind → ActiveRun W → ℤ → State W → State W
  unfolding append_run_log update_stats_on_outcome record_frontier_outcome
  book_outcome rec kind run tier s =
      record_frontier_outcome rec kind run.extracted_units
        (update_stats_on_outcome kind tier run.extracted_units (append_run_log s rec))

  -- After the purchase of another ship, or its panic.
  abbrev pub replaced : RunRecord W → OutcomeKind → State W → Result (State W) → State W × Ended W
  replaced rec kind s (err e) = (s, panicked e)
  replaced rec kind s (ok t) = (no_run t, ended (outcome_of kind rec))

  module _ (M : Math W) where
    -- The last stage: a lost ship is replaced, a surviving one gets its burst shield back.
    abbrev pub close_run : RunRecord W → OutcomeKind → State W → Content W → State W × Ended W
    close_run rec kind s c =
        if is_lost kind
        then replaced rec kind s (respawn_active_ship M.show_int s c)
        else (no_run (restore_burst_shield_on_belt_return s c), ended (outcome_of kind rec))

    -- What follows the settlement, in the world of the save.
    abbrev pub resolve_in :
        OutcomeKind
        → ℤ
        → ActiveRun W
        → State W
        → State W
        → Content W
        → Option (World W)
        → State W × Ended W
    resolve_in kind now run s settled c none = (settled, panicked nil_dereference)
    resolve_in kind now run s settled c (some w) =
        let ast = find_asteroid s run.asteroid_id in
        let rec = run_record s kind run ast w.id w.name now in
        close_run rec kind (book_outcome rec kind run (tier_of ast) settled) c

    -- `run` is normalized already.
    abbrev pub resolve_normal :
        OutcomeKind → ℤ → ActiveRun W → State W → Content W → State W × Ended W
    resolve_normal kind now run s c =
        resolve_in kind now run s
          (settle_asteroid c kind run (find_asteroid s run.asteroid_id)
            (settle_cargo kind run (put_run run s)))
          c (world_by_index c s.world_idx)

    abbrev pub resolve_from :
        OutcomeKind → ℤ → Option (ActiveRun W) → State W → Content W → State W × Ended W
    resolve_from kind now none s c = (s, running)
    resolve_from kind now (some run) s c =
        resolve_normal kind now (normalize_run_accounting run) s c

    unfoldable pub resolve_run : State W → Content W → OutcomeKind → ℤ → State W × Ended W
    unfolding settle_asteroid settle_cargo book_outcome
    resolve_run s c kind now = resolve_from kind now s.run s c
