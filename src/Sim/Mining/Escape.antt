-- ===== src/Sim/Mining/Escape.antt =====
-- run.go: leaving an asteroid, freely or for a tribute.
use Prim.Native.String.{◌++◌ as text_append}
use ssh_moonminer.Common.{String, Bool, true, false, not, Option, none, some, if◌then◌else◌}
use ssh_moonminer.Common.Int.{ℤ, pos, ◌+ℤ◌, ◌-ℤ◌, ltb_ℤ}
use ssh_moonminer.Common.Float.{Float}
use ssh_moonminer.Content.{Content}
use ssh_moonminer.Sim.Errors.{SimError, fail, done, no_active_run, invalid_run_phase}
use ssh_moonminer.Sim.State.{
  State, ActiveRun, Asteroid, RunPhase, mining, tribute, escaping, combat, OutcomeKind, undecided,
  departed, bailed,
}
use ssh_moonminer.Sim.Numbers.{clamp, clamp_int}
use ssh_moonminer.Sim.Dice.{Math}
use ssh_moonminer.Sim.Condition.{nought}
use ssh_moonminer.Sim.Figures.{unit, cargo_capacity_units, escape_mul}
use ssh_moonminer.Sim.Mining.Rocks.{find_asteroid}
use ssh_moonminer.Sim.Mining.Accounting.{
  put_run, no_run, log_event, normalize_run_accounting, run_depleted, proportional_cargo_loss,
  cargo_units_for_value_loss, reduce_cargo_origins,
}

abbrev pub is_mining : RunPhase → Bool
is_mining mining = true
is_mining _ = false

abbrev pub is_tribute : RunPhase → Bool
is_tribute tribute = true
is_tribute _ = false

abbrev pub is_escaping : RunPhase → Bool
is_escaping escaping = true
is_escaping _ = false

abbrev pub is_combat : RunPhase → Bool
is_combat combat = true
is_combat _ = false

abbrev pub is_undecided : OutcomeKind → Bool
is_undecided undecided = true
is_undecided _ = false

-- What a tribute takes from the hold and from the run.
pub record Toll : Type 0 where
  pub demand : ℤ
  pub from_stored : ℤ
  pub from_run : ℤ

-- Of the demand, each part bears what is proportional to it, and the hold what the run cannot.
unfoldable pub toll_on : {W : Type 0} → Float W → Content W → ℤ → ℤ → Toll
unfolding clamp_int proportional_cargo_loss
toll_on F c stored carried =
    let total = stored +ℤ carried in
    let demand =
      clamp_int (F.round (F.mul (F.of_int total) c.mining.tribute_demand_pct)) (pos 0) total in
    let first = proportional_cargo_loss F demand stored total in
    let rest = demand -ℤ first in
    if ltb_ℤ carried rest
    then record { demand = demand; from_stored = first +ℤ (rest -ℤ carried); from_run = carried }
    else record { demand = demand; from_stored = first; from_run = rest }

module _ {W : Type 0} ⦃F : Float W⦄ where
  -- The kind of leaving is settled when the burn is first configured.
  abbrev decided : Asteroid W → ActiveRun W → OutcomeKind
  decided a run =
      if not (is_undecided run.intent)
      then run.intent
      else if run_depleted (some a) run
      then departed
      else bailed

  abbrev load_ratio : State W → Content W → ActiveRun W → W
  load_ratio s c run =
      let top = cargo_capacity_units s c in
      if F.lt nought top
      then clamp (F.div (F.add s.cargo_units run.held_units) top) nought unit
      else nought

  unfoldable pub configure_escape : State W → Content W → ActiveRun W → Asteroid W → ActiveRun W
  unfolding escape_mul cargo_capacity_units clamp
  configure_escape s c run a =
      let shift : W =
        if F.le run.cargo_shift_penalty_mul nought then unit else run.cargo_shift_penalty_mul in
      let req = F.add c.mining.base_escape_seconds (
        F.mul (F.pow (load_ratio s c run) c.mining.escape_cargo_exponent)
          c.mining.cargo_escape_penalty_seconds) in
      let base = F.mul (F.mul req shift) (escape_mul s c) in
      record run {
        intent = decided a run;
        cargo_shift_penalty_mul = shift;
        base_escape_seconds_required = base;
        fuel_out_seconds = nought;
        escape_seconds_required = base;
        escape_seconds_elapsed = nought;
      }

  -- startEscape; no caller passes `underAttack`.
  unfoldable pub start_escape : State W → Content W → ActiveRun W → Asteroid W → ActiveRun W
  unfolding configure_escape normalize_run_accounting
  start_escape s c run a =
      configure_escape s c (record (normalize_run_accounting run) { phase = escaping }) a

  unfoldable pub bail_or_depart : State W → Content W → State W × Option SimError
  unfolding start_escape normalize_run_accounting find_asteroid
  bail_or_depart s c = elim s.run [
    | none ↦ done s
    | some run ↦
        if not (is_mining run.phase)
        then fail s invalid_run_phase
        else elim (find_asteroid s run.asteroid_id) [
          | none ↦ done (no_run s)
          | some a ↦ done (put_run (start_escape s c (normalize_run_accounting run) a) s)
        ]
  ]

  abbrev pub paid_run : Toll → ℤ → ℤ → ActiveRun W → ActiveRun W
  paid_run toll total stored_after run =
      let lost = cargo_units_for_value_loss run.held_units run.cargo_value toll.from_run in
      let held = F.fmax nought (F.sub run.held_units lost) in
      record run {
        cargo_value = run.cargo_value -ℤ toll.from_run;
        held_units = held;
        jettisoned_units = F.add run.jettisoned_units lost;
        mined_units = held;
        tribute_cargo_before = total;
        tribute_demand = toll.demand;
        tribute_cargo_retained = stored_after +ℤ (run.cargo_value -ℤ toll.from_run);
        tribute_paid = true;
      }

  abbrev pub paid_hold : Toll → State W → State W
  paid_hold toll s =
      let lost = cargo_units_for_value_loss s.cargo_units s.cargo_value toll.from_stored in
      record (reduce_cargo_origins toll.from_stored s) {
        cargo_value = s.cargo_value -ℤ toll.from_stored;
        cargo_units = F.fmax nought (F.sub s.cargo_units lost);
      }

  abbrev pub paid_text : Math W → ℤ → ℤ → ℤ → String
  paid_text M total demand retained = text_append "tribute paid: total " (
      text_append (M.show_int total) (
        text_append ", demand "
          (text_append (M.show_int demand) (text_append ", retained " (M.show_int retained)))))

  -- `run` is normalized already.
  abbrev pub pay_tribute : Math W → State W → Content W → ActiveRun W → Asteroid W → ℤ → State W
  pay_tribute M s c run a now =
      let toll = toll_on F c s.cargo_value run.cargo_value in
      let total = s.cargo_value +ℤ run.cargo_value in
      let t = paid_hold toll s in
      let paid = paid_run toll total t.cargo_value run in
      let logged = log_event (paid_text M total toll.demand paid.tribute_cargo_retained) now paid in
      put_run (start_escape t c logged a) t

  abbrev pub accept_from :
      Math W → State W → Content W → ℤ → Option (ActiveRun W) → State W × Option SimError
  accept_from M s c now none = fail s no_active_run
  accept_from M s c now (some run) =
      if not (is_tribute run.phase)
      then fail s invalid_run_phase
      else elim (find_asteroid s run.asteroid_id) [
        | none ↦ done (no_run s)
        | some a ↦ done (pay_tribute M s c (normalize_run_accounting run) a now)
      ]

  unfoldable pub accept_tribute : Math W → State W → Content W → ℤ → State W × Option SimError
  unfolding toll_on start_escape normalize_run_accounting find_asteroid reduce_cargo_origins
      log_event cargo_units_for_value_loss
  accept_tribute M s c now = accept_from M s c now s.run
