-- ===== src/Sim/Market/Services.antt =====
-- What fuel and repairs cost a docked pilot.
use native.Mathlib.Nat.{le-div_iff_mul-le}
use mathlib.Core.Path.{subst, ap₂}
use ssh_moonminer.Common.{◌≡◌, sym, ◌∙◌, ℕ, ◌*◌, ◌/◌, ◌≤◌, ◌<◌, ◌||◌, arith, by_bool, by_option}
use ssh_moonminer.Common.Int.{
  ℤ, pos, negsuc, ◌+ℤ◌, ◌-ℤ◌, ◌*ℤ◌, ◌/ℤ◌, ◌≤ℤ◌, ◌<ℤ◌, min_ℤ, int_laws, -ℤ_parts,
}
use ssh_moonminer.Common.Float.{Float}
use ssh_moonminer.Content.{Content}
use ssh_moonminer.Sim.Errors.{done}
use ssh_moonminer.Sim.State.{State}
use ssh_moonminer.Sim.Tracks.{spend}
use ssh_moonminer.Sim.Condition.{
  active_ship, nought, max_hull, fuel_capacity, set_active_hull, sync_active_condition_from_legacy,
}
use ssh_moonminer.Sim.Market.{
  add_fuel, refuel, refuel_from, refuel_points_needed, repair, repair_from, repair_cost,
}
use ssh_moonminer.Sim.Shipyard.Frame.{
  Frame, frame-sync, frame-update_ship, credits-Frame, spent-Frame,
}

mul_pos : (m n : ℕ) → pos m *ℤ pos n ≡ pos (m * n)
unfolding ◌*ℤ◌
mul_pos m n = ground arith

div_pos : (m n : ℕ) → pos m /ℤ pos n ≡ pos (m / n)
unfolding ◌/ℤ◌
div_pos m n = ground arith

covered : (a b : ℕ) (n : ℤ) → 0 < b → pos 0 ≤ℤ n → n ≤ℤ pos (a / b) → pos 0 ≤ℤ pos a -ℤ n *ℤ pos b
covered a b (negsuc m) p q r = ground arith
covered a b (pos m) p q r =
    let paid : m * b ≤ a = (le-div_iff_mul-le {k = b} {x = m} {y = a} p).0 (omega (arith, r)) in
    subst (λ z. pos 0 ≤ℤ pos a -ℤ z) (sym (mul_pos m b))
      (ground (arith, paid, -ℤ_parts (pos a) (pos (m * b))))

min_bound : (x w : ℤ) → min_ℤ x w ≤ℤ x
min_bound x w = ground arith

-- What a purse buys at a price costs no more than the purse.
affordable :
    (purse price wanted : ℤ)
    → pos 0 <ℤ price
    → pos 0 ≤ℤ purse
    → pos 0 ≤ℤ min_ℤ (purse /ℤ price) wanted
    → pos 0 ≤ℤ purse -ℤ min_ℤ (purse /ℤ price) wanted *ℤ price
affordable (pos a) (pos b) wanted p q r =
    covered a b (min_ℤ (pos a /ℤ pos b) wanted) (omega (arith, p)) r
      (subst (λ z. min_ℤ (pos a /ℤ pos b) wanted ≤ℤ z) (div_pos a b) (min_bound _ wanted))
affordable (pos a) (negsuc b) wanted p q r = ground arith
affordable (negsuc a) price wanted p q r = ground arith

module _ {W : Type 0} ⦃F : Float W⦄ where
  add_fuel-Frame :
      {B : Type 0} {q : State W → B} (Q : Frame q) (s : State W) (c : Content W) (amount : W)
      → q (add_fuel s c amount) ≡ q s
  unfolding add_fuel active_ship
  add_fuel-Frame {q = q} Q s c amount =
      by_bool (F.le amount nought || F.is_nan amount) (λ e. rw (e, add_fuel))
        (λ e.
          by_option (active_ship s) (λ a. rw (e, a, add_fuel))
            (λ inst a. rw (e, a, add_fuel) (frame-sync Q _ c ∙ Q.on_ships s _)))

  hull-Frame :
      {B : Type 0} {q : State W → B} (Q : Frame q) (s : State W) (c : Content W) (hull : ℤ)
      → q (set_active_hull s c hull) ≡ q s
  unfolding set_active_hull active_ship
  hull-Frame {q = q} Q s c hull =
      by_option (active_ship s) (λ a. rw (a, set_active_hull))
        (λ inst a.
          rw (a, set_active_hull) (frame-sync Q _ c ∙ frame-update_ship Q s s.active_ship_id _))

  -- Nothing but money that is there is spent, and all that is spent is booked.
  abbrev pub Paid : State W → State W → Type 0
  Paid s t =
      (pos 0 ≤ℤ t.credits)
      × (t.credits +ℤ t.stats.credits_spent ≡ s.credits +ℤ s.stats.credits_spent)

  spend-Paid :
      (s t : State W) (price : ℤ)
      → pos 0 ≤ℤ s.credits -ℤ price
      → t.credits ≡ s.credits -ℤ price
      → t.stats.credits_spent ≡ s.stats.credits_spent +ℤ price
      → Paid s t
  spend-Paid s t price h e k = (subst (λ n. pos 0 ≤ℤ n) (sym e) h, ap₂ ◌+ℤ◌ e k ∙ omega int_laws)

  refueled :
      (s : State W) (c : Content W) (points : ℤ) (amount : W)
      → pos 0 ≤ℤ s.credits -ℤ points *ℤ c.port.refuel_per_point
      → Paid s (add_fuel (spend s (points *ℤ c.port.refuel_per_point)) c amount)
  refueled s c points amount h =
      let paid : State W = spend s (points *ℤ c.port.refuel_per_point) in
      spend-Paid s (add_fuel paid c amount) (points *ℤ c.port.refuel_per_point) h
        (add_fuel-Frame credits-Frame paid c amount) (add_fuel-Frame spent-Frame paid c amount)

  abbrev points_bought : State W → Content W → ℤ
  points_bought s c =
      min_ℤ (s.credits /ℤ c.port.refuel_per_point) (refuel_points_needed (fuel_capacity s c) s.fuel)

  refuel_from-Paid :
      (s : State W) (c : Content W) {t : State W}
      → pos 0 <ℤ c.port.refuel_per_point
      → refuel_from s c ≡ done t
      → Paid s t
  refuel_from-Paid s c {t = t} price h =
      let bought : t
          ≡ add_fuel (spend s (points_bought s c *ℤ c.port.refuel_per_point)) c
              (F.of_int (points_bought s c)) =
        ground arith in
      subst (Paid s) (sym bought) (
        refueled s c (points_bought s c) (F.of_int (points_bought s c)) (
          affordable s.credits c.port.refuel_per_point
            (refuel_points_needed (fuel_capacity s c) s.fuel) price (ground (arith, h))
            (ground (arith, h))))

  -- An accepted refuelling, at a positive price for a point, spends only money that is there, and
  -- books all of it.
  pub refuel-Paid :
      (s : State W) (c : Content W) {t : State W}
      → pos 0 <ℤ c.port.refuel_per_point
      → refuel s c ≡ done t
      → Paid (sync_active_condition_from_legacy s c) t
  unfolding refuel
  refuel-Paid s c price h = refuel_from-Paid (sync_active_condition_from_legacy s c) c price h

  repair_from-Paid :
      (s : State W) (c : Content W) {t : State W} → repair_from s c ≡ done t → Paid s t
  repair_from-Paid s c {t = t} h =
      let paid : State W = spend s (repair_cost s c) in
      let fixed : t ≡ set_active_hull paid c (max_hull s c) = ground arith in
      subst (Paid s) (sym fixed) (
        spend-Paid s (set_active_hull paid c (max_hull s c)) (repair_cost s c)
          (ground (arith, h, -ℤ_parts s.credits (repair_cost s c)))
          (hull-Frame credits-Frame paid c (max_hull s c))
          (hull-Frame spent-Frame paid c (max_hull s c)))

  -- An accepted repair spends only money that is there, and books all of it.
  pub repair-Paid :
      (s : State W) (c : Content W) {t : State W}
      → repair s c ≡ done t
      → Paid (sync_active_condition_from_legacy s c) t
  unfolding repair
  repair-Paid s c h = repair_from-Paid (sync_active_condition_from_legacy s c) c h
