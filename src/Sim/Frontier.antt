-- ===== src/Sim/Frontier.antt =====
-- frontier.go: what a pilot has done in each system, and the ratings it earns; with the run log.
pub mod Certification
pub mod Visits
pub mod Records
use Prim.Native.String.{◌++◌ as text_append}
use text.Mathlib.Text.{◌==◌}
use ssh_moonminer.Common.{
  ℕ, String, Bool, true, false, not, ◌&&◌, ◌||◌, ◌++◌, List, [], ◌∷◌, take, Option, none, some,
  if◌then◌else◌,
}
use ssh_moonminer.Common.Int.{ℤ, pos, ◌+ℤ◌, ◌-ℤ◌, ltb_ℤ, ◌==ℤ◌}
use ssh_moonminer.Common.Dict.{Dict, lookup, insert}
use ssh_moonminer.Content.{Content, Rating}
use ssh_moonminer.Content.Lookup.{find, system_by_id, world_by_id}
use ssh_moonminer.Sim.Errors.{
  SimError, Result, ok, err, fail, done, in_belt, max_upgrade, route_locked, not_eligible,
  nil_dereference,
}
use ssh_moonminer.Sim.State.{State, FrontierRecord, RunRecord}
use ssh_moonminer.Sim.Condition.{is_docked}
use ssh_moonminer.Sim.Tracks.{spend}

abbrev pub blank_record : FrontierRecord
blank_record = record {
  visited = false;
  first_arrival_at = pos 0;
  runs_survived = pos 0;
  runs_by_destination = [];
  cargo_value_sold = pos 0;
  pirates_destroyed = pos 0;
  legendaries_mined = pos 0;
  ships_lost = pos 0;
}

abbrev pub or_blank : Option FrontierRecord → FrontierRecord
or_blank none = blank_record
or_blank (some r) = r

abbrev pub or_0 : Option ℤ → ℤ
or_0 none = pos 0
or_0 (some n) = n

module _ {W : Type 0} where
  -- frontierRecord, read; a change of the record is written back by `update_record`.
  unfoldable pub frontier_record : State W → String → FrontierRecord
  frontier_record s id = or_blank (lookup id s.frontier)

  unfoldable pub update_record : String → (FrontierRecord → FrontierRecord) → State W → State W
  unfolding frontier_record
  update_record id g s = record s { frontier = insert id (g (frontier_record s id)) s.frontier }

  -- The new save, and whether this is the first visit.
  unfoldable pub visit_system : State W → String → ℤ → State W × Bool
  unfolding frontier_record update_record
  visit_system s id now =
      let first = not (frontier_record s id).visited in
      (
        update_record id
            (λ r. if first then record r { visited = true; first_arrival_at = now } else r) s,
        first,
      )

  unfoldable pub next_rating : State W → Content W → Option Rating
  unfolding find
  next_rating s c = find (λ r. r.class ==ℤ s.jump_class +ℤ pos 1) c.ratings

  unfoldable pub append_run_log : State W → RunRecord W → State W
  append_run_log s rec = record s { run_log = take 20 (rec ∷ s.run_log) }

pub record Qualification : Type 0 where
  pub label : String
  pub have : ℤ
  pub need : ℤ

abbrev pub row : String → ℤ → ℤ → Qualification
row label have need = record { label = label; have = have; need = need }

-- A row that stands on the checklist only where the rating asks for it.
abbrev pub asked : ℤ → Result Qualification → Result (List Qualification)
asked need r = if ltb_ℤ (pos 0) need then elim r [ ok q ↦ ok (q ∷ []) | err e ↦ err e ] else ok []

abbrev pub followed_by :
    Result (List Qualification) → Result (List Qualification) → Result (List Qualification)
followed_by (ok a) (ok b) = ok (a ++ b)
followed_by (ok a) (err e) = err e
followed_by (err e) _ = err e

module _ {W : Type 0} where
  -- `c.SystemByID(id).Name` and `w.Name + " " + w.Sub`, which panic on an unknown name.
  cargo_row : Content W → Rating → FrontierRecord → Result Qualification
  cargo_row c r f = elim (system_by_id c r.certify_in) [
    | none ↦ err nil_dereference
    | some y ↦
        ok (row (text_append "CARGO SOLD — " y.name) f.cargo_value_sold r.req_cargo_sold_value)
  ]

  runs_row : Content W → Rating → FrontierRecord → Result Qualification
  runs_row c r f = elim (world_by_id c r.req_runs_destination) [
    | none ↦ err nil_dereference
    | some w ↦ ok (
        row (text_append "RUNS SURVIVED — " (text_append w.name (text_append " " w.sub)))
          (or_0 (lookup r.req_runs_destination f.runs_by_destination)) r.req_runs_count)
  ]

  unfoldable pub rating_requirements : State W → Content W → Result (List Qualification)
  unfolding cargo_row runs_row next_rating
  rating_requirements s c = elim (next_rating s c) [
    | none ↦ ok []
    | some r ↦
        let f = or_blank (lookup r.certify_in s.frontier) in
        followed_by (ok (row "CREDITS" s.credits r.price ∷ [])) (
          followed_by (asked r.req_cargo_sold_value (cargo_row c r f)) (
            followed_by (asked r.req_runs_count (runs_row c r f)) (
              followed_by
                (asked r.req_pirates_destroyed
                  (ok (row "PIRATES DESTROYED" f.pirates_destroyed r.req_pirates_destroyed)))
                (asked r.req_legendaries_mined
                  (ok (row "LEGENDARIES MINED" f.legendaries_mined r.req_legendaries_mined))))))
  ]

-- The loop over the rows.
unfoldable pub all_met : List Qualification → Bool
all_met [] = true
all_met (q ∷ qs) = if ltb_ℤ q.have q.need then false else all_met qs

module _ {W : Type 0} where
  unfoldable pub certify_rating : State W → Content W → State W × Option SimError
  unfolding next_rating rating_requirements all_met
  certify_rating s c = if not (is_docked s) then fail s in_belt else elim (next_rating s c) [
    | none ↦ fail s max_upgrade
    | some r ↦
        if not (s.system_id == r.certify_in)
        then fail s route_locked
        else elim (rating_requirements s c) [
          | err e ↦ fail s e
          | ok rows ↦
              if not (all_met rows)
              then fail s not_eligible
              else done (record (spend s r.price) { jump_class = r.class })
        ]
  ]
