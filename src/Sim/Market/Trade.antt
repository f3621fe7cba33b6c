-- ===== src/Sim/Market/Trade.antt =====
-- What the docked trades do to a pilot's money.
use mathlib.Core.Path.{subst}
use text.Mathlib.Text.{◌==◌}
use ssh_moonminer.Common.{
  ◌≡◌, refl, sym, ap, ◌≤◌, String, true, false, [], ◌∷◌, length, some, arith, by_option,
  if◌then◌else◌,
}
use ssh_moonminer.Common.Int.{ℤ, pos, ◌+ℤ◌, ◌-ℤ◌, ◌≤ℤ◌, ltb_ℤ, -ℤ_parts}
use ssh_moonminer.Common.Dict.{Dict, insert, lookup-insert_self}
use ssh_moonminer.Common.Float.{Float}
use ssh_moonminer.Content.{Content, World}
use ssh_moonminer.Content.Lookup.{system_by_id, world_by_id}
use ssh_moonminer.Sim.Errors.{fail, done, already_unlocked, cargo_empty}
use ssh_moonminer.Sim.State.{State, FrontierRecord}
use ssh_moonminer.Sim.Condition.{is_docked}
use ssh_moonminer.Sim.Frontier.{frontier_record}
use ssh_moonminer.Sim.Tracks.{spend}
use ssh_moonminer.Sim.Market.{flag, has_permit, buy_destination_permit, sell_cargo}

-- What the frontier records say was sold, over all systems.
abbrev pub sold : Dict FrontierRecord → ℤ
sold [] = pos 0
sold ((id, r) ∷ m) = r.cargo_value_sold +ℤ sold m

abbrev pub total : Dict ℤ → ℤ
total [] = pos 0
total ((id, n) ∷ m) = n +ℤ total m

-- What of the cargo was mined in a system.
abbrev pub mined_in : String → Dict ℤ → ℤ
mined_in id [] = pos 0
mined_in id ((key, n) ∷ m) = if key == id then n +ℤ mined_in id m else mined_in id m

-- A record by so much more cargo sold.
abbrev pub risen : FrontierRecord → ℤ → FrontierRecord
risen r value = record r { cargo_value_sold = r.cargo_value_sold +ℤ value }

module _ {W : Type 0} where
  abbrev pub permitted_state : State W → World W → State W
  permitted_state s w = record (spend s w.permit_fee) {
    destination_permits = insert w.id true s.destination_permits;
  }

  abbrev pub Permitted : State W → Content W → String → State W → Type 0
  Permitted s c id t =
      ((w : World W) × (world_by_id c id ≡ some w)
        × (t.credits ≡ s.credits -ℤ w.permit_fee)
        × (has_permit t w.id ≡ true))
      × (pos 0 ≤ℤ t.credits)
      × (buy_destination_permit t c id ≡ fail t already_unlocked)

  bought-again :
      (t : State W) (c : Content W) (id : String) (w : World W)
      → world_by_id c id ≡ some w
      → is_docked t ≡ true
      → has_permit t w.id ≡ true
      → buy_destination_permit t c id ≡ fail t already_unlocked
  unfolding buy_destination_permit
  bought-again t c id w e docked held = ground (arith, e, docked, held)

  permitted :
      (s : State W) (c : Content W) (id : String) (w : World W)
      → world_by_id c id ≡ some w
      → is_docked s ≡ true
      → ltb_ℤ s.credits w.permit_fee ≡ false
      → Permitted s c id (permitted_state s w)
  unfolding has_permit is_docked
  permitted s c id w e docked funds =
      let held : has_permit (permitted_state s w) w.id ≡ true =
        ap flag (lookup-insert_self w.id true s.destination_permits) in
      (
        (w, e, refl, held),
        ground (arith, -ℤ_parts s.credits w.permit_fee, funds),
        bought-again (permitted_state s w) c id w e docked held,
      )

  -- A bought permit takes its fee, leaves no debt, is there afterwards, and buying it once more
  -- is refused without a change.
  pub buy_destination_permit-done :
      (s : State W) (c : Content W) (id : String) {t : State W}
      → buy_destination_permit s c id ≡ done t
      → Permitted s c id t
  unfolding buy_destination_permit
  buy_destination_permit-done s c id {t = t} h =
      by_option (world_by_id c id) (λ e. ground (arith, e))
        (λ w e.
          by_option (system_by_id c w.system_id) (λ f. ground (arith, e, f))
            (λ y f.
              let bought : t ≡ permitted_state s w = ground (arith, e, f) in
              subst (Permitted s c id) (sym bought)
                (permitted s c id w e (ground (arith, e, f)) (ground (arith, e, f)))))

module _ {W : Type 0} ⦃F : Float W⦄ where
  -- All that a pilot could have in credits: the balance, the cargo and the vouchers.
  abbrev pub wealth : State W → ℤ
  wealth s = s.credits +ℤ s.cargo_value +ℤ s.bounty_vouchers

  abbrev pub Sold : State W → Content W → ℤ → String → State W → Type 0
  Sold s c now id t =
      (wealth t ≡ wealth s)
      × (t.cargo_value ≡ pos 0)
      × (t.bounty_vouchers ≡ pos 0)
      × (frontier_record t id ≡ risen (frontier_record s id) (mined_in id s.cargo_origins))
      × (sold t.frontier ≡ sold s.frontier +ℤ total s.cargo_origins)
      × (t.cargo_origins ≡ [])
      × (length t.run_log ≤ 20)
      × (sell_cargo t c now ≡ fail t cargo_empty)
