-- ===== src/Sim/Mining/Tribute.antt =====
-- run.go, AcceptTribute: what the pirates take and what is left.
use ssh_moonminer.Common.{
  ◌≡◌, refl, sym, ap, ◌∙◌, true, false, some, arith, by_bool, if◌then◌else◌, if-elim, ◌&&◌, ltb→lt,
}
use ssh_moonminer.Common.Int.{ℤ, pos, ◌+ℤ◌, ◌-ℤ◌, ◌≤ℤ◌, ltb_ℤ, min_ℤ, int_laws}
use ssh_moonminer.Common.Float.{Float}
use ssh_moonminer.Content.{Content}
use ssh_moonminer.Sim.Errors.{SimError, fail, done}
use ssh_moonminer.Sim.State.{State, ActiveRun, Asteroid, escaping}
use ssh_moonminer.Sim.Numbers.{clamp_int}
use ssh_moonminer.Sim.Dice.{Math}
use ssh_moonminer.Sim.Condition.{nought}
use ssh_moonminer.Sim.Mining.Rocks.{find_asteroid}
use ssh_moonminer.Sim.Mining.Accounting.{
  normalize_run_accounting, adopt_mined, cover_held, proportional_cargo_loss, reduce_cargo_origins,
  log_event,
}
use ssh_moonminer.Sim.Mining.Escape.{
  Toll, toll_on, configure_escape, start_escape, paid_hold, paid_run, paid_text, accept_from,
  accept_tribute, pay_tribute, is_tribute,
}

clamp_int-bounds : (v lo hi : ℤ) → lo ≤ℤ hi → (lo ≤ℤ clamp_int v lo hi) × (clamp_int v lo hi ≤ℤ hi)
unfolding clamp_int
clamp_int-bounds v lo hi h = ground arith

module _ {W : Type 0} (F : Float W) where
  proportional_cargo_loss-bounds :
      (demand portion total : ℤ)
      → pos 0 ≤ℤ demand
      → pos 0 ≤ℤ portion
      → (pos 0 ≤ℤ proportional_cargo_loss F demand portion total)
        × (proportional_cargo_loss F demand portion total ≤ℤ demand)
        × (proportional_cargo_loss F demand portion total ≤ℤ portion)
  unfolding proportional_cargo_loss
  proportional_cargo_loss-bounds demand portion total hd hp = ground (
    arith,
    clamp_int-bounds (F.round (F.div (F.mul (F.of_int demand) (F.of_int portion)) (F.of_int total)))
        (pos 0) (min_ℤ demand portion),
  )

conserve :
    (stored carried before first second demand after asked : ℤ)
    → after ≡ carried -ℤ second
    → asked ≡ demand
    → carried ≡ before
    → first +ℤ second ≡ demand
    → stored -ℤ first +ℤ after +ℤ asked ≡ stored +ℤ before
conserve stored carried before first second demand after asked e f g h =
    rw (e, f, ← g, ← h) (omega int_laws)

left_over : (a b : ℤ) → b ≤ℤ a → pos 0 ≤ℤ a -ℤ b
left_over a b h = omega int_laws

fail-done : {S : Type 0} {s t : S} {e : SimError} → fail s e ≡ done t → ⊥
fail-done h = ground arith

-- A toll within what there is, borne whole by hold and run.
pub record Borne (stored carried : ℤ) (t : Toll) : Type 0 where
  pub no_gift : pos 0 ≤ℤ t.demand
  pub no_more : t.demand ≤ℤ stored +ℤ carried
  pub whole : t.from_stored +ℤ t.from_run ≡ t.demand
  pub hold_pays : pos 0 ≤ℤ t.from_stored
  pub hold_has : t.from_stored ≤ℤ stored
  pub run_pays : pos 0 ≤ℤ t.from_run
  pub run_has : t.from_run ≤ℤ carried

le_of_not_ltb_ℤ : (a b : ℤ) → ltb_ℤ a b ≡ false → b ≤ℤ a
le_of_not_ltb_ℤ a b h = ground arith

split_toll-Borne :
    (stored carried demand first : ℤ)
    → pos 0 ≤ℤ stored
    → pos 0 ≤ℤ carried
    → pos 0 ≤ℤ demand
    → demand ≤ℤ stored +ℤ carried
    → pos 0 ≤ℤ first
    → first ≤ℤ demand
    → first ≤ℤ stored
    → Borne stored carried (
        if ltb_ℤ carried (demand -ℤ first)
        then record {
          demand = demand;
          from_stored = first +ℤ (demand -ℤ first -ℤ carried);
          from_run = carried;
        }
        else record { demand = demand; from_stored = first; from_run = demand -ℤ first })
split_toll-Borne stored carried demand first hs hc hd hm h0 h1 h2 =
    by_bool (ltb_ℤ carried (demand -ℤ first))
      (λ over. rw over (record {
        no_gift = hd;
        no_more = hm;
        whole = omega int_laws;
        hold_pays = omega (int_laws, ltb→lt _ _ over);
        hold_has = omega int_laws;
        run_pays = hc;
        run_has = omega arith;
      }))
      (λ within. rw within (record {
        no_gift = hd;
        no_more = hm;
        whole = omega int_laws;
        hold_pays = h0;
        hold_has = h2;
        run_pays = omega int_laws;
        run_has = le_of_not_ltb_ℤ carried (demand -ℤ first) within;
      }))

module _ {W : Type 0} ⦃F : Float W⦄ where
  toll_on-Borne :
      (c : Content W) (stored carried : ℤ)
      → pos 0 ≤ℤ stored
      → pos 0 ≤ℤ carried
      → Borne stored carried (toll_on F c stored carried)
  unfolding toll_on
  toll_on-Borne c stored carried hs hc =
      let asked = F.round (F.mul (F.of_int (stored +ℤ carried)) c.mining.tribute_demand_pct) in
      let demand = clamp_int-bounds asked (pos 0) (stored +ℤ carried) (omega int_laws) in
      let first =
        proportional_cargo_loss-bounds F (clamp_int asked (pos 0) (stored +ℤ carried)) stored
          (stored +ℤ carried) (demand.0) hs in
      split_toll-Borne stored carried (clamp_int asked (pos 0) (stored +ℤ carried))
        (proportional_cargo_loss F (clamp_int asked (pos 0) (stored +ℤ carried)) stored
          (stored +ℤ carried))
        hs hc (demand.0) (demand.1) (first.0) (first.1) (first.2)

  -- A part of a run that does not depend on its units survives the normalization of them.
  module _ {B : Type 0} (q : ActiveRun W → B)
      (free : (r : ActiveRun W) (e h : W)
        → q (record r { extracted_units = e; held_units = h }) ≡ q r) where
    adopt_mined-same : (run : ActiveRun W) → q (adopt_mined run) ≡ q run
    adopt_mined-same run =
        if-elim (λ (t : ActiveRun W). q t ≡ q run)
          (F.eq run.extracted_units nought
            && (F.eq run.held_units nought && F.lt nought run.mined_units))
          (free run run.mined_units run.mined_units) refl

    cover_held-same : (run : ActiveRun W) → q (cover_held (adopt_mined run)) ≡ q run
    cover_held-same run =
        if-elim (λ (t : ActiveRun W). q t ≡ q run)
          (F.lt (adopt_mined run).extracted_units (adopt_mined run).held_units)
          (free (adopt_mined run) (adopt_mined run).held_units (adopt_mined run).held_units
            ∙ adopt_mined-same run)
          (adopt_mined-same run)

  pub normal_cargo :
      (run : ActiveRun W) → (normalize_run_accounting run).cargo_value ≡ run.cargo_value
  unfolding normalize_run_accounting
  normal_cargo run = cover_held-same (λ r. r.cargo_value) (λ r e h. refl) run

  escape_frame :
      (s : State W) (c : Content W) (run : ActiveRun W) (a : Asteroid W)
      → ((start_escape s c run a).cargo_value ≡ run.cargo_value)
        × ((start_escape s c run a).phase ≡ escaping)
        × ((start_escape s c run a).tribute_paid ≡ run.tribute_paid)
        × ((start_escape s c run a).tribute_demand ≡ run.tribute_demand)
        × ((start_escape s c run a).tribute_cargo_retained ≡ run.tribute_cargo_retained)
  unfolding start_escape configure_escape normalize_run_accounting
  escape_frame s c run a = (
    cover_held-same (λ r. r.cargo_value) (λ r e h. refl) run,
    refl,
    cover_held-same (λ r. r.tribute_paid) (λ r e h. refl) run,
    cover_held-same (λ r. r.tribute_demand) (λ r e h. refl) run,
    cover_held-same (λ r. r.tribute_cargo_retained) (λ r e h. refl) run,
  )

  -- The cargo of hold and run before a tribute is what the tribute takes and what is left of both,
  -- none of which is negative, and the ship is on its way out.
  pub record Paid (s t : State W) (before after : ActiveRun W) : Type 0 where
    pub present : t.run ≡ some after
    pub on_its_way : after.phase ≡ escaping
    pub marked_paid : after.tribute_paid ≡ true
    pub conserved :
        t.cargo_value +ℤ after.cargo_value +ℤ after.tribute_demand
        ≡ s.cargo_value +ℤ before.cargo_value
    pub retained : after.tribute_cargo_retained ≡ t.cargo_value +ℤ after.cargo_value
    pub toll_taken : pos 0 ≤ℤ after.tribute_demand
    pub hold_left : pos 0 ≤ℤ t.cargo_value
    pub run_left : pos 0 ≤ℤ after.cargo_value
    pub money : (t.credits ≡ s.credits) × (t.bounty_vouchers ≡ s.bounty_vouchers)

  paid_lem :
      (M : Math W) (s : State W) (c : Content W) (before run : ActiveRun W) (a : Asteroid W)
      (now : ℤ)
      → run.cargo_value ≡ before.cargo_value
      → Borne s.cargo_value run.cargo_value (toll_on F c s.cargo_value run.cargo_value)
      → (after : ActiveRun W) × Paid s (pay_tribute M s c run a now) before after
  unfolding reduce_cargo_origins log_event
  paid_lem M s c before run a now same toll =
      let bill = toll_on F c s.cargo_value run.cargo_value in
      let t = paid_hold bill s in
      let paid = paid_run bill (s.cargo_value +ℤ run.cargo_value) t.cargo_value run in
      let logged =
        log_event
          (paid_text M (s.cargo_value +ℤ run.cargo_value) bill.demand paid.tribute_cargo_retained)
          now paid in
      let kept = escape_frame t c logged a in
      (
        start_escape t c logged a,
        record {
          present = refl;
          on_its_way = kept.1;
          marked_paid = kept.2;
          conserved =
              conserve s.cargo_value run.cargo_value before.cargo_value bill.from_stored
                bill.from_run bill.demand (start_escape t c logged a).cargo_value
                (start_escape t c logged a).tribute_demand (kept.0) (kept.3) same toll.whole;
          retained = kept.4 ∙ ap (λ (v : ℤ). s.cargo_value -ℤ bill.from_stored +ℤ v) (sym (kept.0));
          toll_taken = rw (kept.3) toll.no_gift;
          hold_left = left_over s.cargo_value bill.from_stored toll.hold_has;
          run_left = rw (kept.0) (left_over run.cargo_value bill.from_run toll.run_has);
          money = (refl, refl);
        },
      )

  -- An accepted tribute is conserved: what the pirates take and what is left in hold and run add up
  -- to the cargo before. Nothing that is left is negative, no money moves, and the ship escapes. The
  -- save holds a run, its asteroid is in the belt, and neither cargo value is negative.
  pub accept_tribute-Paid :
      (M : Math W) (s t : State W) (c : Content W) (now : ℤ) (run : ActiveRun W) (a : Asteroid W)
      → s.run ≡ some run
      → find_asteroid s run.asteroid_id ≡ some a
      → pos 0 ≤ℤ s.cargo_value
      → pos 0 ≤ℤ run.cargo_value
      → accept_tribute M s c now ≡ done t
      → (after : ActiveRun W) × Paid s t run after
  unfolding accept_tribute
  accept_tribute-Paid M s t c now run a here rock hs hr h =
      let same = normal_cargo run in
      let paid : (after : ActiveRun W) × Paid s
            (pay_tribute M s c (normalize_run_accounting run) a now) run after =
        paid_lem M s c run (normalize_run_accounting run) a now same (
          toll_on-Borne c s.cargo_value (normalize_run_accounting run).cargo_value hs
            (rw same hr)) in
      let whole : accept_from M s c now (some run) ≡ done t =
        ap (accept_from M s c now) (sym here) ∙ h in
      by_bool (is_tribute run.phase)
        (λ asked.
          let answer : pay_tribute M s c (normalize_run_accounting run) a now ≡ t =
            ap (λ r. r.0) (rw (asked, rock) at whole) in
          (paid.0, rw (← answer) (paid.1)))
        (λ wrong. absurd (fail-done (rw wrong at whole)))
