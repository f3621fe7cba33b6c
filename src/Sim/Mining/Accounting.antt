-- ===== src/Sim/Mining/Accounting.antt =====
-- run.go and derive.go: what a run has extracted and holds; frontier.go: where the cargo is from.
use Prim.Native.Nat.{Ordering}
use Prim.Native.String.{compare as compare_text}
use ssh_moonminer.Common.{
  String, Bool, true, ◌&&◌, ◌||◌, List, [], ◌∷◌, ◌++◌, Option, none, some, if◌then◌else◌,
}
use ssh_moonminer.Common.Int.{ℤ, pos, ◌-ℤ◌, leb_ℤ, min_ℤ}
use ssh_moonminer.Common.Dict.{Dict, lookup, insert}
use ssh_moonminer.Common.Float.{Float}
use ssh_moonminer.Content.{Content}
use ssh_moonminer.Sim.State.{State, ActiveRun, Asteroid}
use ssh_moonminer.Sim.Numbers.{clamp, clamp_int}
use ssh_moonminer.Sim.Condition.{nought}
use ssh_moonminer.Sim.Figures.{remaining_cargo_capacity}
use ssh_moonminer.Sim.Frontier.{or_0}

module _ {W : Type 0} where
  -- The run that `s.Run` points to, changed through the pointer.
  abbrev pub put_run : ActiveRun W → State W → State W
  put_run run s = record s { run = some run }

  abbrev pub change_run : (ActiveRun W → ActiveRun W) → State W → State W
  change_run g s = elim s.run [ none ↦ s | some run ↦ put_run (g run) s ]

  abbrev pub no_run : State W → State W
  no_run s = record s { run = none }

  unfoldable pub log_event : String → ℤ → ActiveRun W → ActiveRun W
  log_event kind now run = record run {
    event_log = run.event_log ++ record { kind = kind; at = now } ∷ [];
  }

-- sort.Strings on the keys of a map, each once.
unfoldable pub insert_sorted : String → List String → List String
insert_sorted id [] = id ∷ []
insert_sorted id (x ∷ xs) =
    let rest = insert_sorted id xs in
    elim (compare_text id x) [ Ordering.gt ↦ x ∷ rest | _ ↦ id ∷ x ∷ xs ]

unfoldable pub sorted_keys : {V : Type 0} → Dict V → List String
unfolding insert_sorted
sorted_keys [] = []
sorted_keys ((id, v) ∷ m) = insert_sorted id (sorted_keys m)

unfoldable pub proportional_cargo_loss : {W : Type 0} → Float W → ℤ → ℤ → ℤ → ℤ
unfolding clamp_int
proportional_cargo_loss F demand portion total =
    if leb_ℤ demand (pos 0) || (leb_ℤ portion (pos 0) || leb_ℤ total (pos 0))
    then pos 0
    else clamp_int (F.round (F.div (F.mul (F.of_int demand) (F.of_int portion)) (F.of_int total)))
        (pos 0) (min_ℤ demand portion)

-- The loop over the sorted systems, with what remains of value and loss.
unfoldable pub cut_origins : {W : Type 0} → Float W → List String → ℤ → ℤ → Dict ℤ → Dict ℤ
unfolding proportional_cargo_loss
cut_origins F [] value loss origins = origins
cut_origins F (id ∷ ids) value loss origins =
    let v = or_0 (lookup id origins) in
    let cut = proportional_cargo_loss F loss v value in
    cut_origins F ids (value -ℤ v) (loss -ℤ cut) (insert id (v -ℤ cut) origins)

module _ {W : Type 0} ⦃F : Float W⦄ where
  abbrev pub adopt_mined : ActiveRun W → ActiveRun W
  adopt_mined run =
      if F.eq run.extracted_units nought
        && (F.eq run.held_units nought && F.lt nought run.mined_units)
      then record run { extracted_units = run.mined_units; held_units = run.mined_units }
      else run

  abbrev pub cover_held : ActiveRun W → ActiveRun W
  cover_held run =
      if F.lt run.extracted_units run.held_units
      then record run { extracted_units = run.held_units }
      else run

  abbrev bound_units : ActiveRun W → ActiveRun W
  bound_units run =
      let extracted = F.fmax nought run.extracted_units in
      let held = clamp run.held_units nought extracted in
      record run {
        extracted_units = extracted;
        held_units = held;
        jettisoned_units = F.fmax nought run.jettisoned_units;
        mined_units = held;
      }

  unfoldable pub normalize_run_accounting : ActiveRun W → ActiveRun W
  normalize_run_accounting run = bound_units (cover_held (adopt_mined run))

  unfoldable pub run_held_units : ActiveRun W → W
  run_held_units run =
      if F.eq run.held_units nought
        && (F.eq run.extracted_units nought && F.lt nought run.mined_units)
      then run.mined_units
      else run.held_units

  unfoldable pub run_extracted_units : ActiveRun W → W
  run_extracted_units run =
      if F.eq run.extracted_units nought
        && (F.eq run.held_units nought && F.lt nought run.mined_units)
      then run.mined_units
      else run.extracted_units

  unfoldable pub run_depleted : Option (Asteroid W) → ActiveRun W → Bool
  unfolding run_extracted_units
  run_depleted none run = true
  run_depleted (some a) run = F.le (F.of_int a.volume) (run_extracted_units run)

  unfoldable pub run_cargo_full : State W → Content W → ActiveRun W → Bool
  unfolding run_held_units
  run_cargo_full s c run = F.le (remaining_cargo_capacity s c) (run_held_units run)

  unfoldable pub cargo_units_for_value_loss : W → ℤ → ℤ → W
  cargo_units_for_value_loss units value loss =
      if F.le units nought || (leb_ℤ value (pos 0) || leb_ℤ loss (pos 0))
      then nought
      else clamp (F.div (F.mul units (F.of_int loss)) (F.of_int value)) nought units

  unfoldable pub reduce_cargo_origins : ℤ → State W → State W
  unfolding cut_origins sorted_keys
  reduce_cargo_origins lost s = record s {
    cargo_origins = cut_origins F (sorted_keys s.cargo_origins) s.cargo_value lost s.cargo_origins;
  }
