-- ===== src/Sim/Mining/Settlement.antt =====
-- run.go, resolveRun: what a run that the ship survives leaves in the save.
use text.Mathlib.Text.{◌==◌}
use text.Mathlib.TextEquality.{eq_iff}
use text.Mathlib.TextPositions.{eq_refl}
use ssh_moonminer.Common.{
  ◌≡◌, refl, ap, ◌∙◌, String, false, arith, by_bool, if◌then◌else◌, ◌&&◌, Option, none, some, ◌∷◌,
  take, if-elim,
}
use ssh_moonminer.Common.Int.{ℤ, pos, int_laws, ◌+ℤ◌, ◌==ℤ◌}
use ssh_moonminer.Common.Float.{Float}
use ssh_moonminer.Common.Dict.{Dict, lookup, insert, lookup-insert}
use ssh_moonminer.Content.{Content, World}
use ssh_moonminer.Content.Lookup.{world_by_index}
use ssh_moonminer.Sim.State.{
  State, FrontierRecord, ActiveRun, Asteroid, RunRecord, OutcomeKind, undecided, departed, bailed,
  tribute_paid, escaped_under_fire, pirate_destroyed, ship_lost,
}
use ssh_moonminer.Sim.Dice.{Math}
use ssh_moonminer.Sim.Condition.{nought}
use ssh_moonminer.Sim.Figures.{restore_burst_shield_on_belt_return}
use ssh_moonminer.Sim.Frontier.{append_run_log, update_record, frontier_record, or_0}
use ssh_moonminer.Sim.Shipyard.Frame.{Frame}
use ssh_moonminer.Sim.Mining.Rocks.{find_asteroid}
use ssh_moonminer.Sim.Mining.Accounting.{normalize_run_accounting, put_run}
use ssh_moonminer.Sim.Mining.Outcome.{
  ended, is_lost, counted, update_stats_on_outcome, record_frontier_outcome, after_run,
  settle_cargo, settle_asteroid, run_record, book_outcome, tier_of, outcome_of, close_run,
  resolve_in, resolve_from, resolve_run,
}
use ssh_moonminer.Sim.Mining.Tribute.{normal_cargo}
use ssh_moonminer.Sim.Mining.Frames.{
  one_more, settle_asteroid-same, update_stats-same, Apart, cargo_value-Apart, cargo_units-Apart,
  cargo_origins-Apart, system_id-Apart, credits-Apart, vouchers-Apart, book_outcome-same,
  book_outcome-log, restore-same,
}
use ssh_moonminer.Sim.Frontier.Records.{frontier_record-update_record}

origins-insert :
    (here id : String) (v w : ℤ) (m : Dict ℤ)
    → v ≡ w
    → or_0 (lookup id (insert here (or_0 (lookup here m) +ℤ v) m))
      ≡ or_0 (lookup id m) +ℤ (if here == id then w else pos 0)
origins-insert here id v w m same =
    by_bool (here == id)
      (λ e.
        let place : here ≡ id = ground (arith, e, eq_iff here id) in
        rw (lookup-insert here id (or_0 (lookup here m) +ℤ v) m, e, place, same) refl)
      (λ e. rw (lookup-insert here id (or_0 (lookup here m) +ℤ v) m, e) (omega int_laws))

module _ {W : Type 0} ⦃F : Float W⦄ where
  abbrev pub frontier_here : State W → FrontierRecord
  frontier_here t = frontier_record t t.system_id

  -- The run is over, its cargo is in the hold, for the system that it was mined in and for no other,
  -- and its record, which tells so, is the newest one.
  pub record Settled (s t : State W) (run : ActiveRun W) (rec : RunRecord W) (id : String)
      : Type 0 where
    pub over : t.run ≡ none
    pub hauled : t.cargo_value ≡ s.cargo_value +ℤ run.cargo_value
    pub loaded : t.cargo_units ≡ F.add s.cargo_units (normalize_run_accounting run).held_units
    pub mined_here :
        or_0 (lookup id t.cargo_origins)
        ≡ or_0 (lookup id s.cargo_origins) +ℤ (if s.system_id == id then run.cargo_value else pos 0)
    pub logged : t.run_log ≡ take 20 (rec ∷ s.run_log)
    pub recovered : rec.cargo_value_recovered ≡ run.cargo_value
    pub nothing_lost : rec.cargo_value_lost ≡ pos 0
    pub no_pay : (t.credits ≡ s.credits) × (t.bounty_vouchers ≡ s.bounty_vouchers)
    pub counted_run : t.stats.runs_total ≡ s.stats.runs_total +ℤ pos 1
    pub stayed : t.system_id ≡ s.system_id
    pub survived_here : (frontier_here t).runs_survived ≡ (frontier_here s).runs_survived +ℤ pos 1

  module _ (c : Content W) (kind : OutcomeKind) (run : ActiveRun W) (rec : RunRecord W)
      (ast : Option (Asteroid W)) (s : State W) where
    abbrev stored_cargo : State W
    stored_cargo = settle_cargo kind run (put_run run s)

    abbrev cleared_belt : State W
    cleared_belt = settle_asteroid c kind run ast stored_cargo

    abbrev closed : State W
    closed =
        restore_burst_shield_on_belt_return (book_outcome rec kind run (tier_of ast) cleared_belt) c

    closed-same : {B : Type 0} {q : State W → B} → Apart q → q closed ≡ q stored_cargo
    closed-same {q} Q =
        restore-same Q.frame _ c
        ∙ book_outcome-same Q rec kind run (tier_of ast) cleared_belt
        ∙ settle_asteroid-same q Q.on_belt c kind run ast stored_cargo

    stored_cargo-same :
        {B : Type 0} (q : State W → B)
        → ((t : State W) (v : ℤ) (o : Dict ℤ) (u : W)
            → q (record t { cargo_value = v; cargo_origins = o; cargo_units = u }) ≡ q t)
        → q (put_run run s) ≡ q s
        → q stored_cargo ≡ q s
    unfolding settle_cargo
    stored_cargo-same q free same =
        if-elim (λ (t : State W). q t ≡ q s) (is_lost kind) (free (put_run run s) _ _ _ ∙ same)
          (free (put_run run s) _ _ _ ∙ same)

    counted_total :
        (k : OutcomeKind) (t : State W)
        → (counted k (one_more t)).stats.runs_total ≡ t.stats.runs_total +ℤ pos 1
    counted_total undecided t = refl
    counted_total departed t = refl
    counted_total bailed t = refl
    counted_total tribute_paid t = refl
    counted_total escaped_under_fire t = refl
    counted_total pirate_destroyed t = refl
    counted_total ship_lost t = refl

    book_total :
        (t : State W)
        → (book_outcome rec kind run (tier_of ast) t).stats.runs_total ≡ t.stats.runs_total +ℤ pos 1
    unfolding book_outcome record_frontier_outcome update_record append_run_log
        update_stats_on_outcome
    book_total t =
        if-elim (λ (u : State W). u.stats.runs_total ≡ t.stats.runs_total +ℤ pos 1)
          ((tier_of ast ==ℤ pos 3) && F.lt nought run.extracted_units)
          (counted_total kind (append_run_log t rec)) (counted_total kind (append_run_log t rec))

    book_here :
        (t : State W)
        → frontier_here (book_outcome rec kind run (tier_of ast) t)
          ≡ after_run rec kind run.extracted_units (frontier_here t)
    unfolding book_outcome record_frontier_outcome update_record append_run_log frontier_record
    book_here t =
        let u : State W =
          update_stats_on_outcome kind (tier_of ast) run.extracted_units (append_run_log t rec) in
        let here : frontier_here u ≡ frontier_here t =
          update_stats-same frontier_here (λ v st. refl) kind (tier_of ast) run.extracted_units
            (append_run_log t rec) in
        (rw (eq_refl u.system_id) at (
          frontier_record-update_record u.system_id u.system_id
            (after_run rec kind run.extracted_units) u))
        ∙ ap (after_run rec kind run.extracted_units) here

    one_more_survived :
        is_lost kind ≡ false
        → (f : FrontierRecord)
        → (after_run rec kind run.extracted_units f).runs_survived ≡ f.runs_survived +ℤ pos 1
    one_more_survived alive f = rw alive refl

    survivors-Frame : Frame (λ (t : State W). (frontier_here t).runs_survived)
    unfolding frontier_record
    survivors-Frame = record { on_ships = λ t b. refl; on_mirrors = λ t a b. refl }

    closed-Settled :
        (before : ActiveRun W) (id : String)
        → run.held_units ≡ (normalize_run_accounting before).held_units
        → run.cargo_value ≡ before.cargo_value
        → is_lost kind ≡ false
        → rec.cargo_value_recovered ≡ run.cargo_value
        → rec.cargo_value_lost ≡ pos 0
        → Settled s (record closed { run = none }) before rec id
    unfolding settle_cargo frontier_record
    closed-Settled before id held same alive told no_loss = record {
      over = refl;
      hauled =
          closed-same {q = λ t. t.cargo_value} cargo_value-Apart
          ∙ rw alive (ap (λ v. s.cargo_value +ℤ v) same);
      loaded =
          closed-same {q = λ t. t.cargo_units} cargo_units-Apart
          ∙ rw alive (ap (λ u. F.add s.cargo_units u) held);
      mined_here =
          ap (λ m. or_0 (lookup id m)) (closed-same {q = λ t. t.cargo_origins} cargo_origins-Apart)
          ∙ rw alive (
              origins-insert s.system_id id run.cargo_value before.cargo_value s.cargo_origins
                same);
      logged =
          restore-same {q = λ t. t.run_log}
            (record { on_ships = λ t b. refl; on_mirrors = λ t a b. refl })
            (book_outcome rec kind run (tier_of ast) cleared_belt) c
          ∙ book_outcome-log rec kind run (tier_of ast) cleared_belt
          ∙ ap (λ l. take 20 (rec ∷ l))
              (settle_asteroid-same (λ t. t.run_log) (λ t b. refl) c kind run ast stored_cargo
                ∙ stored_cargo-same (λ t. t.run_log) (λ t v o u. refl) refl);
      recovered = told ∙ same;
      nothing_lost = no_loss;
      no_pay = (
        closed-same credits-Apart ∙ stored_cargo-same (λ t. t.credits) (λ t v o u. refl) refl,
        closed-same vouchers-Apart
            ∙ stored_cargo-same (λ t. t.bounty_vouchers) (λ t v o u. refl) refl,
      );
      counted_run =
          restore-same {q = λ t. t.stats.runs_total}
            (record { on_ships = λ t b. refl; on_mirrors = λ t a b. refl }) _ c
          ∙ book_total cleared_belt
          ∙ ap (λ n. n +ℤ pos 1)
              (settle_asteroid-same (λ t. t.stats.runs_total) (λ t b. refl) c kind run ast
                  stored_cargo
                ∙ stored_cargo-same (λ t. t.stats.runs_total) (λ t v o u. refl) refl);
      stayed =
          closed-same system_id-Apart ∙ stored_cargo-same (λ t. t.system_id) (λ t v o u. refl) refl;
      survived_here =
          restore-same {q = λ t. (frontier_here t).runs_survived} survivors-Frame _ c
          ∙ ap (λ f. f.runs_survived) (book_here cleared_belt)
          ∙ one_more_survived alive (frontier_here cleared_belt)
          ∙ (ap (λ f. f.runs_survived +ℤ pos 1)
              (settle_asteroid-same frontier_here (λ t b. refl) c kind run ast stored_cargo
                ∙ stored_cargo-same frontier_here (λ t v o u. refl) refl));
    }

  survived :
      (M : Math W) (c : Content W) (rec : RunRecord W) (kind : OutcomeKind)
      → is_lost kind ≡ false
      → (t : State W)
      → close_run M rec kind t c ≡ (
        record (restore_burst_shield_on_belt_return t c) { run = none },
        ended (outcome_of kind rec),
      )
  survived M c rec kind alive t = rw alive refl

  -- A run that the ship survives, in a world of the content, ends: the value and the units that it
  -- held go to the hold, of the origins the one of the save's system, and no other, rises by that
  -- value, and its record is the newest one and says what was recovered. The run counts, in all and
  -- for the system. No money moves.
  pub resolve_run-Settled :
      (M : Math W) (s : State W) (c : Content W) (kind : OutcomeKind) (now : ℤ) (run : ActiveRun W)
      (w : World W) (id : String)
      → s.run ≡ some run
      → world_by_index c s.world_idx ≡ some w
      → is_lost kind ≡ false
      → (t : State W) × (rec : RunRecord W) × (resolve_run M s c kind now
          ≡ (t, ended (outcome_of kind rec)))
        × Settled s t run rec id
  unfolding resolve_run
  resolve_run-Settled M s c kind now run w id here place alive =
      let normal = normalize_run_accounting run in
      let ast = find_asteroid s normal.asteroid_id in
      let rec = run_record s kind normal ast w.id w.name now in
      (
        record (closed c kind normal rec ast s) { run = none },
        rec,
        ap (λ o. resolve_from M kind now o s c) here
            ∙ ap
                (resolve_in M kind now normal s
                  (settle_asteroid c kind normal ast (settle_cargo kind normal (put_run normal s)))
                  c)
                place
            ∙ survived M c rec kind alive
                (book_outcome rec kind normal (tier_of ast) (cleared_belt c kind normal rec ast s)),
        closed-Settled c kind normal rec ast s run id refl (normal_cargo run) alive (rw alive refl)
            (rw alive refl),
      )
