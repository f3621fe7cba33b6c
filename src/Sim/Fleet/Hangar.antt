-- ===== src/Sim/Fleet/Hangar.antt =====
-- What a change of ship keeps.
use mathlib.Core.Path.{subst}
use text.Mathlib.Text.{◌==◌}
use ssh_moonminer.Common.{
  ◌≡◌, refl, sym, ap, ◌∙◌, String, true, some, arith, by_bool, by_option, eq_iff,
}
use ssh_moonminer.Common.Dict.{lookup, lookup-insert}
use ssh_moonminer.Common.Float.{Float}
use ssh_moonminer.Content.{Content}
use ssh_moonminer.Sim.Errors.{done}
use ssh_moonminer.Sim.State.{ShipInstance, State}
use ssh_moonminer.Sim.Condition.{
  is_docked, owns_ship, active_ship, put_ship, update_ship, update_ship_absent, update_ship_present,
  copy_mirrors, differs, fuel_amount, import_fuel, import_hull, set_fuel_amount_for,
  sync_active_condition_from_legacy, sync_active_condition_mirror,
}
use ssh_moonminer.Sim.Shipyard.Frame.{
  legacy-Frame, frame-sync, credits-Frame, active-Frame, inventory-Frame,
}
use ssh_moonminer.Sim.Fleet.{activate_ship, switch_active_ship}

module _ {W : Type 0} ⦃F : Float W⦄ where
  owns-put_ship :
      (s : State W) (k id : String) (inst : ShipInstance W)
      → owns_ship s id ≡ true
      → owns_ship (put_ship k inst s) id ≡ true
  unfolding owns_ship
  owns-put_ship s k id inst h = ground (arith, lookup-insert k id inst s.ships, h)

  owns-update_ship :
      (s : State W) (k id : String) (g : ShipInstance W → ShipInstance W)
      → owns_ship s id ≡ true
      → owns_ship (update_ship k g s) id ≡ true
  owns-update_ship s k id g h =
      by_option (lookup k s.ships) (λ e. ap (λ t. owns_ship t id) (update_ship_absent s k g e) ∙ h)
        (λ inst e.
          ap (λ t. owns_ship t id) (update_ship_present s k g inst e)
          ∙ owns-put_ship s k id (g inst) h)

  owns-copy_mirrors :
      (s : State W) (c : Content W) (id : String) → owns_ship (copy_mirrors s c) id ≡ owns_ship s id
  unfolding copy_mirrors owns_ship
  owns-copy_mirrors s c id =
      by_option (active_ship s) (λ e. rw (e, copy_mirrors)) (λ inst e. rw (e, copy_mirrors))

  owns-sync :
      (s : State W) (c : Content W) (id : String)
      → owns_ship s id ≡ true
      → owns_ship (sync_active_condition_mirror s c) id ≡ true
  unfolding sync_active_condition_mirror
  owns-sync s c id h = owns-copy_mirrors _ c id ∙ owns-update_ship s s.active_ship_id id _ h

  owns-set_fuel :
      (s : State W) (c : Content W) (k id : String) (x : W)
      → owns_ship s id ≡ true
      → owns_ship (set_fuel_amount_for s c k x) id ≡ true
  unfolding set_fuel_amount_for
  owns-set_fuel s c k id x h =
      by_option (lookup k s.ships) (λ a. rw (a, set_fuel_amount_for) h)
        (λ inst a. rw (a, set_fuel_amount_for) (owns-put_ship s k id _ h))

  owns-legacy :
      (s : State W) (c : Content W) (id : String)
      → owns_ship s id ≡ true
      → owns_ship (sync_active_condition_from_legacy s c) id ≡ true
  unfolding sync_active_condition_from_legacy import_hull import_fuel
  owns-legacy s c id h =
      by_option (active_ship s) (λ a. rw (a, sync_active_condition_from_legacy) h)
        (λ inst a.
          rw (a, sync_active_condition_from_legacy)
            (owns-sync _ c id (
              owns-update_ship (import_fuel s c) _ id _ (
                by_bool (differs s.fuel (fuel_amount s c))
                  (λ d. rw (d, import_fuel) (owns-set_fuel s c s.active_ship_id id s.fuel h))
                  (λ d. rw (d, import_fuel) h)))))

  -- What a change of ship gives: the named ship, still in the hangar, is the active one, and no
  -- money and no stored device moved.
  abbrev pub Transferred : State W → String → State W → Type 0
  Transferred s id t =
      (t.active_ship_id ≡ id)
      × (owns_ship t id ≡ true)
      × (t.credits ≡ s.credits)
      × (t.inventory ≡ s.inventory)
      × (is_docked s ≡ true)

  owned_at :
      (s : State W) (id : String) (inst : ShipInstance W)
      → lookup id s.ships ≡ some inst
      → owns_ship s id ≡ true
  unfolding owns_ship
  owned_at s id inst a = rw (a, owns_ship)

  renamed :
      (s : State W) (id : String)
      → owns_ship s id ≡ true
      → owns_ship (record s { active_ship_id = id }) id ≡ true
  unfolding owns_ship
  renamed s id h = h

  activated :
      (s : State W) (c : Content W) (id : String)
      → owns_ship s id ≡ true
      → is_docked s ≡ true
      → Transferred s id (activate_ship s c id)
  unfolding activate_ship
  activated s c id owned docked =
      let old : State W = sync_active_condition_from_legacy s c in
      let new : State W = record old { active_ship_id = id } in
      (
        frame-sync active-Frame new c,
        owns-sync new c id (renamed old id (owns-legacy s c id owned)),
        frame-sync credits-Frame new c ∙ legacy-Frame credits-Frame s c,
        frame-sync inventory-Frame new c ∙ legacy-Frame inventory-Frame s c,
        docked,
      )

  -- An accepted change of ship is made at the dock. It makes the named ship, which is in the
  -- hangar afterwards too, the active one, and moves no money and no stored device.
  pub switch_active_ship-Transferred :
      (s : State W) (c : Content W) (id : String) {t : State W}
      → switch_active_ship s c id ≡ done t
      → Transferred s id t
  unfolding switch_active_ship
  switch_active_ship-Transferred s c id {t = t} h =
      by_option (lookup id s.ships) (λ a. ground (arith, a))
        (λ inst a.
          by_bool (id == s.active_ship_id)
            (λ e.
              let stayed : t ≡ s = ground (arith, a, e) in
              subst (Transferred s id) (sym stayed) (
                sym ((eq_iff id s.active_ship_id).0 e),
                owned_at s id inst a,
                refl,
                refl,
                ground (arith, a, e),
              ))
            (λ e.
              let moved : t ≡ activate_ship s c id = ground (arith, a, e) in
              subst (Transferred s id) (sym moved)
                (activated s c id (owned_at s id inst a) (ground (arith, a, e)))))
