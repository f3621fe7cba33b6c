-- ===== src/Sim/Mining/Frames.antt =====
-- run.go, resolveRun: what each of its stages leaves alone in the save.
use ssh_moonminer.Common.{◌≡◌, refl, ◌∙◌, ◌&&◌, Option, none, some, List, ◌∷◌, take, if-elim}
use ssh_moonminer.Common.Int.{ℤ, pos, ◌+ℤ◌, ◌==ℤ◌}
use ssh_moonminer.Common.Float.{Float}
use ssh_moonminer.Common.Dict.{Dict}
use ssh_moonminer.Content.{Content}
use ssh_moonminer.Sim.State.{
  State, Stats, FrontierRecord, ActiveRun, Asteroid, RunRecord, OutcomeKind, undecided, departed,
  bailed, tribute_paid, escaped_under_fire, pirate_destroyed, ship_lost,
}
use ssh_moonminer.Sim.Condition.{nought}
use ssh_moonminer.Sim.Figures.{restore_burst_shield_on_belt_return}
use ssh_moonminer.Sim.Frontier.{append_run_log, update_record}
use ssh_moonminer.Sim.Shipyard.Frame.{Frame, frame-update_ship}
use ssh_moonminer.Sim.Mining.Rocks.{remove_asteroid, apply_mined_remnant, change_asteroid}
use ssh_moonminer.Sim.Mining.Outcome.{
  is_lost, is_departed, exhausted, remain_ratio, counted, update_stats_on_outcome,
  record_frontier_outcome, settle_asteroid, book_outcome,
}

module _ {W B : Type 0} (q : State W → B) where
  pub counted-same :
      ((s : State W) (stats : Stats W) → q (record s { stats = stats }) ≡ q s)
      → (kind : OutcomeKind) (s : State W) → q (counted kind s) ≡ q s
  counted-same free undecided s = refl
  counted-same free departed s = free s _
  counted-same free bailed s = free s _
  counted-same free tribute_paid s = free s _
  counted-same free escaped_under_fire s = free s _
  counted-same free pirate_destroyed s = refl
  counted-same free ship_lost s = refl

module _ {W : Type 0} ⦃F : Float W⦄ where
  pub settle_asteroid-same :
      {B : Type 0} (q : State W → B)
      → ((s : State W) (belt : List (Asteroid W)) → q (record s { belt = belt }) ≡ q s)
      → (c : Content W) (kind : OutcomeKind) (run : ActiveRun W) (ast : Option (Asteroid W))
        (s : State W)
      → q (settle_asteroid c kind run ast s) ≡ q s
  unfolding settle_asteroid remove_asteroid apply_mined_remnant change_asteroid
  settle_asteroid-same q free c kind run none s = refl
  settle_asteroid-same q free c kind run (some a) s =
      if-elim (λ (t : State W). q t ≡ q s) (is_lost kind) (free s _)
        (if-elim (λ (t : State W). q t ≡ q s) (is_departed kind && exhausted a run) (free s _)
          (if-elim (λ (t : State W). q t ≡ q s)
            (F.lt (remain_ratio a run) c.mining.remnant_keep_threshold) (free s _) (free s _)))

  abbrev pub one_more : State W → State W
  one_more s = record s { stats = record (s.stats) { runs_total = s.stats.runs_total +ℤ pos 1 } }

  pub update_stats-same :
      {B : Type 0} (q : State W → B)
      → ((s : State W) (stats : Stats W) → q (record s { stats = stats }) ≡ q s)
      → (kind : OutcomeKind) (tier : ℤ) (extracted : W) (s : State W)
      → q (update_stats_on_outcome kind tier extracted s) ≡ q s
  unfolding update_stats_on_outcome
  update_stats-same q free kind tier extracted s =
      if-elim (λ (t : State W). q t ≡ q s) ((tier ==ℤ pos 3) && F.lt nought extracted)
        (free _ _ ∙ counted-same q free kind _ ∙ free s _) (counted-same q free kind _ ∙ free s _)

  -- A part of the save that neither the belt, the statistics, the frontier, the log nor the ships
  -- are in.
  pub record Apart {B : Type 0} (q : State W → B) : Type 0 where
    pub on_belt : (s : State W) (belt : List (Asteroid W)) → q (record s { belt = belt }) ≡ q s
    pub on_stats : (s : State W) (stats : Stats W) → q (record s { stats = stats }) ≡ q s
    pub on_log : (s : State W) (log : List (RunRecord W)) → q (record s { run_log = log }) ≡ q s
    pub on_frontier : (s : State W) (f : Dict FrontierRecord) → q (record s { frontier = f }) ≡ q s
    pub on_run : (s : State W) (r : Option (ActiveRun W)) → q (record s { run = r }) ≡ q s
    pub frame : Frame q

  pub cargo_value-Apart : Apart (λ (t : State W). t.cargo_value)
  cargo_value-Apart = record {
    on_belt = λ t b. refl;
    on_stats = λ t b. refl;
    on_log = λ t b. refl;
    on_frontier = λ t b. refl;
    on_run = λ t b. refl;
    frame = record { on_ships = λ t b. refl; on_mirrors = λ t a b. refl };
  }

  pub credits-Apart : Apart (λ (t : State W). t.credits)
  credits-Apart = record {
    on_belt = λ t b. refl;
    on_stats = λ t b. refl;
    on_log = λ t b. refl;
    on_frontier = λ t b. refl;
    on_run = λ t b. refl;
    frame = record { on_ships = λ t b. refl; on_mirrors = λ t a b. refl };
  }

  pub vouchers-Apart : Apart (λ (t : State W). t.bounty_vouchers)
  vouchers-Apart = record {
    on_belt = λ t b. refl;
    on_stats = λ t b. refl;
    on_log = λ t b. refl;
    on_frontier = λ t b. refl;
    on_run = λ t b. refl;
    frame = record { on_ships = λ t b. refl; on_mirrors = λ t a b. refl };
  }

  pub cargo_units-Apart : Apart (λ (t : State W). t.cargo_units)
  cargo_units-Apart = record {
    on_belt = λ t b. refl;
    on_stats = λ t b. refl;
    on_log = λ t b. refl;
    on_frontier = λ t b. refl;
    on_run = λ t b. refl;
    frame = record { on_ships = λ t b. refl; on_mirrors = λ t a b. refl };
  }

  pub cargo_origins-Apart : Apart (λ (t : State W). t.cargo_origins)
  cargo_origins-Apart = record {
    on_belt = λ t b. refl;
    on_stats = λ t b. refl;
    on_log = λ t b. refl;
    on_frontier = λ t b. refl;
    on_run = λ t b. refl;
    frame = record { on_ships = λ t b. refl; on_mirrors = λ t a b. refl };
  }

  pub system_id-Apart : Apart (λ (t : State W). t.system_id)
  system_id-Apart = record {
    on_belt = λ t b. refl;
    on_stats = λ t b. refl;
    on_log = λ t b. refl;
    on_frontier = λ t b. refl;
    on_run = λ t b. refl;
    frame = record { on_ships = λ t b. refl; on_mirrors = λ t a b. refl };
  }

  pub book_outcome-same :
      {B : Type 0} {q : State W → B}
      → Apart q
      → (rec : RunRecord W) (kind : OutcomeKind) (run : ActiveRun W) (tier : ℤ) (s : State W)
      → q (book_outcome rec kind run tier s) ≡ q s
  unfolding book_outcome record_frontier_outcome update_record append_run_log
  book_outcome-same {q} Q rec kind run tier s =
      Q.on_frontier _ _
      ∙ update_stats-same q Q.on_stats kind tier run.extracted_units _
      ∙ Q.on_log s _

  pub book_outcome-log :
      (rec : RunRecord W) (kind : OutcomeKind) (run : ActiveRun W) (tier : ℤ) (s : State W)
      → (book_outcome rec kind run tier s).run_log ≡ take 20 (rec ∷ s.run_log)
  unfolding book_outcome record_frontier_outcome update_record append_run_log
  book_outcome-log rec kind run tier s =
      update_stats-same (λ u. u.run_log) (λ u st. refl) kind tier run.extracted_units
        (append_run_log s rec)

  pub restore-same :
      {B : Type 0} {q : State W → B}
      → Frame q
      → (s : State W) (c : Content W) → q (restore_burst_shield_on_belt_return s c) ≡ q s
  unfolding restore_burst_shield_on_belt_return
  restore-same Q s c = frame-update_ship Q s s.active_ship_id _
