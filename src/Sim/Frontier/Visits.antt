-- ===== src/Sim/Frontier/Visits.antt =====
-- First arrivals, and what lies between two of them.
use mathlib.Core.Path.{subst}
use ssh_moonminer.Common.{
  ◌≡◌, refl, sym, ap, ◌∙◌, String, true, false, not, List, [], ◌∷◌, some, arith, by_bool, by_option,
  if◌then◌else◌, ◌⊎◌, inl, inr,
}
use text.Mathlib.Text.{◌==◌}
use text.Mathlib.TextEquality.{eq_iff}
use ssh_moonminer.Common.Int.{ℤ, pos, ◌+ℤ◌}
use ssh_moonminer.Common.Dict.{Dict, lookup, insert, lookup-insert_self, insert-lookup}
use ssh_moonminer.Common.Float.{Float}
use ssh_moonminer.Sim.State.{State, FrontierRecord, RunRecord, OutcomeKind, CombatState, ActiveRun}
use ssh_moonminer.Sim.Frontier.{frontier_record, update_record, visit_system, or_blank}
use ssh_moonminer.Sim.Frontier.Records.{frontier_record-update_record}
use ssh_moonminer.Sim.Market.{credit_origins}
use ssh_moonminer.Sim.Mining.Outcome.{after_run, record_frontier_outcome}
use ssh_moonminer.Sim.Mining.Gunnery.{rewarded}

abbrev arrival : ℤ → FrontierRecord → FrontierRecord
arrival now r = if not r.visited then record r { visited = true; first_arrival_at = now } else r

visited-arrival : (now : ℤ) (r : FrontierRecord) → (arrival now r).visited ≡ true
visited-arrival now r = by_bool r.visited (λ e. rw e) (λ e. rw e)

arrival_again : (now : ℤ) (r : FrontierRecord) → r.visited ≡ true → arrival now r ≡ r
arrival_again now r e = rw e

first_dated :
    (now : ℤ) (r : FrontierRecord) → r.visited ≡ false → (arrival now r).first_arrival_at ≡ now
first_dated now r e = rw e refl

-- Visited, first at a time.
record Seen (at : ℤ) (r : FrontierRecord) : Type 0 where
  visited : r.visited ≡ true
  since : r.first_arrival_at ≡ at

-- What else is written to the frontier records: an arrival anywhere, a sale, a fight that is won,
-- the end of a run.
pub data Event (W : Type 0) : Type 0 where
  arrived : String → ℤ → Event W
  sold_from : Dict ℤ → Event W
  fight_won : CombatState W → ActiveRun W → ℤ → Event W
  run_over : RunRecord W → OutcomeKind → W → Event W

module _ {W : Type 0} where
  visit_again :
      (t : State W) (id : String) (r : FrontierRecord) (later : ℤ)
      → lookup id t.frontier ≡ some r
      → r.visited ≡ true
      → visit_system t id later ≡ (t, false)
  unfolding visit_system update_record frontier_record
  visit_again t id r later l v =
      ap
        (λ o. (
          record t { frontier = insert id (arrival later (or_blank o)) t.frontier },
          not (or_blank o).visited,
        ))
        l
      ∙ ap (λ x. (record t { frontier = insert id x t.frontier }, not r.visited))
          (arrival_again later r v)
      ∙ ap (λ m. (record t { frontier = m }, not r.visited)) (insert-lookup id r t.frontier l)
      ∙ ap (λ b. (t, not b)) v

  visit_known :
      (t : State W) (id : String) (later : ℤ)
      → (frontier_record t id).visited ≡ true
      → visit_system t id later ≡ (t, false)
  unfolding frontier_record
  visit_known t id later v =
      by_option (lookup id t.frontier)
        (λ e.
          let blank : false ≡ true = ap (λ o. (or_blank o).visited) (sym e) ∙ v in
          absurd (ground arith))
        (λ r e. visit_again t id r later e (ap (λ o. (or_blank o).visited) (sym e) ∙ v))

  update_record-Seen :
      (key id : String) (g : FrontierRecord → FrontierRecord) (s : State W) (at : ℤ)
      → ((r : FrontierRecord) → Seen at r → Seen at (g r))
      → Seen at (frontier_record s id)
      → Seen at (frontier_record (update_record key g s) id)
  update_record-Seen key id g s at keeps h =
      let now = frontier_record-update_record key id g s in
      by_bool (key == id) (λ e. rw (now, e) (keeps (frontier_record s id) h)) (λ e. rw (now, e) h)

  visit_system-Seen :
      (place id : String) (now at : ℤ) (s : State W)
      → Seen at (frontier_record s id)
      → Seen at (frontier_record (visit_system s place now).0 id)
  unfolding visit_system
  visit_system-Seen place id now at s h =
      by_bool (place == id)
        (λ e.
          let same : place ≡ id = ground (arith, e, eq_iff place id) in
          let known : visit_system s place now ≡ (s, false) =
            visit_known s place now (ap (λ p. (frontier_record s p).visited) same ∙ h.visited) in
          subst (λ (t : State W). Seen at (frontier_record t id)) (sym (ap (λ o. o.0) known)) h)
        (λ e. rw (frontier_record-update_record place id _ s, e) h)

  credit_origins-Seen :
      (origins : Dict ℤ) (id : String) (at : ℤ) (s : State W)
      → Seen at (frontier_record s id)
      → Seen at (frontier_record (credit_origins origins s) id)
  unfolding credit_origins
  credit_origins-Seen [] id at s h = h
  credit_origins-Seen ((key, v) ∷ origins) id at s h =
      credit_origins-Seen origins id at
        (update_record key (λ r. record r { cargo_value_sold = r.cargo_value_sold +ℤ v }) s)
        (update_record-Seen key id (λ r. record r { cargo_value_sold = r.cargo_value_sold +ℤ v }) s
          at (λ r k. record { visited = k.visited; since = k.since }) h)

  visit_system-arrival :
      (s : State W) (id : String) (now : ℤ)
      → frontier_record (visit_system s id now).0 id ≡ arrival now (frontier_record s id)
  unfolding visit_system update_record frontier_record
  visit_system-arrival s id now =
      ap or_blank (lookup-insert_self id (arrival now (frontier_record s id)) s.frontier)

  -- The first visit of a system is told apart and dated; any other leaves its date.
  abbrev pub Dated : State W → String → ℤ → ℤ → Type 0
  Dated s id now at =
      (((frontier_record s id).visited ≡ true) × (at ≡ (frontier_record s id).first_arrival_at))
      ⊎ (((frontier_record s id).visited ≡ false) × ((visit_system s id now).1 ≡ true) × (at ≡ now))

  visit_system-Dated :
      (s : State W) (id : String) (now : ℤ)
      → Dated s id now (frontier_record (visit_system s id now).0 id).first_arrival_at
  unfolding visit_system
  visit_system-Dated s id now =
      let dated = ap (λ r. r.first_arrival_at) (visit_system-arrival s id now) in
      by_bool (frontier_record s id).visited
        (λ e.
          inl
            (e, dated ∙ ap (λ r. r.first_arrival_at) (arrival_again now (frontier_record s id) e)))
        (λ e. inr (e, ap not e, dated ∙ first_dated now (frontier_record s id) e))

module _ {W : Type 0} ⦃F : Float W⦄ where
  abbrev pub happen : Event W → State W → State W
  happen (arrived id now) s = (visit_system s id now).0
  happen (sold_from origins) s = credit_origins origins s
  happen (fight_won cs run now) s = rewarded cs run now s
  happen (run_over rec kind extracted) s = record_frontier_outcome rec kind extracted s

  abbrev pub all_happen : List (Event W) → State W → State W
  all_happen [] s = s
  all_happen (e ∷ es) s = all_happen es (happen e s)

  happen-Seen :
      (e : Event W) (id : String) (at : ℤ) (s : State W)
      → Seen at (frontier_record s id)
      → Seen at (frontier_record (happen e s) id)
  unfolding record_frontier_outcome update_record frontier_record
  happen-Seen (arrived place now) id at s h = visit_system-Seen place id now at s h
  happen-Seen (sold_from origins) id at s h = credit_origins-Seen origins id at s h
  happen-Seen (fight_won cs run now) id at s h =
      update_record-Seen s.system_id id
        (λ f. record f { pirates_destroyed = f.pirates_destroyed +ℤ pos 1 }) s at
        (λ r k. record { visited = k.visited; since = k.since }) h
  happen-Seen (run_over rec kind extracted) id at s h =
      update_record-Seen s.system_id id (after_run rec kind extracted) s at
        (λ r k. record { visited = k.visited; since = k.since }) h

  all_happen-Seen :
      (es : List (Event W)) (id : String) (at : ℤ) (s : State W)
      → Seen at (frontier_record s id)
      → Seen at (frontier_record (all_happen es s) id)
  all_happen-Seen [] id at s h = h
  all_happen-Seen (e ∷ es) id at s h =
      all_happen-Seen es id at (happen e s) (happen-Seen e id at s h)

  -- A system is entered for the first time only once: after a visit, whatever arrivals, sales, won
  -- fights and ends of runs follow, anywhere, a later visit is not the first and changes nothing. The time of the
  -- first arrival is then still that of the first visit: of this one, which says so, where the system
  -- was not visited before, and otherwise the one recorded before.
  pub visit_system-once :
      (s : State W) (id : String) (now later : ℤ) (between : List (Event W))
      → (visit_system (all_happen between (visit_system s id now).0) id later
          ≡ (all_happen between (visit_system s id now).0, false))
        × Dated s id now
            (frontier_record (all_happen between (visit_system s id now).0) id).first_arrival_at
  visit_system-once s id now later between =
      let t : State W = (visit_system s id now).0 in
      let known =
        ap (λ r. r.visited) (visit_system-arrival s id now)
        ∙ visited-arrival now (frontier_record s id) in
      let kept =
        all_happen-Seen between id (frontier_record t id).first_arrival_at t
          (record { visited = known; since = refl }) in
      (
        visit_known (all_happen between t) id later kept.visited,
        subst (Dated s id now) (sym kept.since) (visit_system-Dated s id now),
      )
