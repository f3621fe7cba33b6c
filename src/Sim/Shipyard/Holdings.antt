-- ===== src/Sim/Shipyard/Holdings.antt =====
-- The devices that a pilot holds for a ship, in its slots and in the inventory, by any value that
-- an item and its grade determine.
use mathlib.Core.Path.{ap₂}
use mathlib.Core.Option.{some-injective}
use ssh_moonminer.Common.{◌≡◌, sym, ap, ◌∙◌, String, none, some, arith, List, [], ◌∷◌, ◌++◌}
use ssh_moonminer.Common.Int.{ℤ, pos, negsuc, ◌+ℤ◌, int_laws, parts_of_eq}
use ssh_moonminer.Common.Float.{Float}
use ssh_moonminer.Common.Dict.{lookup}
use ssh_moonminer.Content.{Content}
use ssh_moonminer.Sim.Errors.{ok, done}
use ssh_moonminer.Sim.State.{SlotDevice, ShipInstance, State}
use ssh_moonminer.Sim.Catalog.{SlotKind}
use ssh_moonminer.Sim.Loadout.{Slot, set_device, device_slot}
use ssh_moonminer.Sim.Shipyard.{inventory_at, new_device, without_stored, armed}
use ssh_moonminer.Sim.Shipyard.Outcomes.{install-via, replace-via, refit-via, store-via, sell-via}
use ssh_moonminer.Common.{zero, suc, ℕ, get_elem?, erase_idx}
use ssh_moonminer.Sim.Shipyard.Orders.{
  carry_out, carry_out_lem, Order, buy, store, sell, swap, refit, carry_out_synced,
}
use ssh_moonminer.Sim.Shipyard.Measure.{
  measured, of_ship, of_ship-settle, of_ship-fit, of_ship-normalize, of_ship-clear_slot,
}
use ssh_moonminer.Sim.Condition.{sync_active_condition_from_legacy}
use ssh_moonminer.Sim.Shipyard.Frame.{
  frame-settle, frame-fit, frame-normalize, frame-clear_slot, inventory-Frame,
}
use ssh_moonminer.Sim.Shipyard.Tally.{worth, tally, ship_tally, ship_tally-set_device}
use ssh_moonminer.Sim.Shipyard.Budget.{or_zero, tally-Measure, worth-armed}
use ssh_moonminer.Sim.Shipyard.Ledger.{addressed, addressed-ok}

module _ {W : Type 0} (f : String → ℤ → ℤ) where
  tally-append :
      (ds : List (Slot W)) (d : Slot W) → tally f (ds ++ d ∷ []) ≡ tally f ds +ℤ worth f d
  tally-append [] d = omega int_laws
  tally-append (x ∷ ds) d = omega (int_laws, parts_of_eq _ _ (tally-append ds d))

  tally-erase_idx :
      (ds : List (Slot W)) (n : ℕ) (d : Slot W)
      → get_elem? ds n ≡ some d
      → tally f (erase_idx ds n) +ℤ worth f d ≡ tally f ds
  tally-erase_idx [] n d h = ground arith
  tally-erase_idx (x ∷ ds) zero d h =
      let e : x ≡ d = some-injective _ _ h in rw (← e) (omega int_laws)
  tally-erase_idx (x ∷ ds) (suc n) d h =
      omega (int_laws, parts_of_eq _ _ (tally-erase_idx ds n d h))

  -- What the inventory and one ship hold together.
  abbrev pub holdings : State W → String → ℤ
  holdings s id = tally f s.inventory +ℤ or_zero (of_ship (ship_tally f) s id)

module _ (f : String → ℤ → ℤ) where
  -- What an order adds to the holdings from outside, and what it takes away.
  unfoldable pub gained : Order → ℤ
  gained (buy kind i item grade) = f item grade
  gained (swap kind i item grade) = f item grade
  gained (store kind i) = pos 0
  gained (sell kind i) = pos 0
  gained (refit kind i k) = pos 0

module _ {W : Type 0} ⦃F : Float W⦄ (f : String → ℤ → ℤ) where
  without_stored-tally :
      (s : State W) (k : ℤ) (d : SlotDevice W)
      → inventory_at s k ≡ some d
      → tally f (without_stored s k).inventory +ℤ f d.item_id d.grade ≡ tally f s.inventory
  unfolding inventory_at
  without_stored-tally s (negsuc n) d h = ground arith
  without_stored-tally s (pos n) d h = tally-erase_idx f s.inventory n (some d) (ground arith)

  unfoldable pub given_up : State W → String → Order → ℤ
  given_up s id (sell kind i) = worth f (addressed s id kind i)
  given_up s id (swap kind i item grade) = worth f (addressed s id kind i)
  given_up s id (buy kind i item grade) = pos 0
  given_up s id (store kind i) = pos 0
  given_up s id (refit kind i k) = pos 0

  -- The balance of one slot's change with one inventory's.
  balance :
      (s t : State W) (c : Content W) (id : String) (kind : SlotKind) (i : ℤ)
      (inst : ShipInstance W) (old new : Slot W) (stock gain loss : ℤ)
      → lookup id s.ships ≡ some inst
      → device_slot inst kind i ≡ ok old
      → of_ship (ship_tally f) t id ≡ some (ship_tally f (set_device inst kind i new))
      → tally f t.inventory ≡ stock
      → stock +ℤ worth f new +ℤ loss ≡ tally f s.inventory +ℤ worth f old +ℤ gain
      → holdings f t id +ℤ loss ≡ holdings f s id +ℤ gain
  balance s t c id kind i inst old new stock gain loss l slot ship stored e =
      ap₂ (λ a b. a +ℤ or_zero b +ℤ loss) stored ship
      ∙ omega (
        int_laws,
        parts_of_eq _ _ e,
        parts_of_eq _ _ (ship_tally-set_device f inst kind i old new slot),
      )
      ∙ ap (λ b. tally f s.inventory +ℤ or_zero b +ℤ gain) (sym (ap (measured (ship_tally f)) l))

  carry_out_synced-balance :
      (s : State W) (c : Content W) (id : String) (o : Order) {t : State W}
      → carry_out_synced s c id o ≡ done t
      → holdings f t id +ℤ given_up s id o ≡ holdings f s id +ℤ gained f o
  unfolding carry_out_synced gained given_up
  carry_out_synced-balance s c id (buy kind i item grade) {t = t} h =
      install-via s c id kind i item grade h λ inst l d u funds power e.
        balance s t c id kind i inst none (some (armed (new_device item grade)))
          (tally f s.inventory) (f item grade) (pos 0) l d
          (ap (λ x. of_ship (ship_tally f) x id) e
            ∙ of_ship-settle (tally-Measure f) _ c id
            ∙ of_ship-fit (tally-Measure f) _ c id inst kind i _)
          (ap (λ x. tally f x.inventory) e
            ∙ ap (tally f) (
                frame-settle inventory-Frame _ c id
                ∙ frame-fit inventory-Frame _ c id inst kind i _))
          (omega (int_laws, parts_of_eq _ _ (worth-armed f (new_device item grade))))
  carry_out_synced-balance s c id (swap kind i item grade) {t = t} h =
      replace-via s c id kind i item grade h λ inst old l d u power funds e.
        balance s t c id kind i inst (some old) (some (armed (new_device item grade)))
          (tally f s.inventory) (f item grade) _ l d
          (ap (λ x. of_ship (ship_tally f) x id) e
            ∙ of_ship-normalize (tally-Measure f) _ c id
            ∙ of_ship-fit (tally-Measure f) _ c id inst kind i _)
          (ap (λ x. tally f x.inventory) e
            ∙ ap (tally f) (
                frame-normalize inventory-Frame _ c id
                ∙ frame-fit inventory-Frame _ c id inst kind i _))
          (omega (
            int_laws,
            parts_of_eq _ _ (worth-armed f (new_device item grade)),
            parts_of_eq _ _ (ap (worth f) (addressed-ok s id kind i inst (some old) l d)),
          ))
  carry_out_synced-balance s c id (store kind i) {t = t} h =
      store-via s c id kind i h λ inst d l slot e.
        balance s t c id kind i inst (some d) none _ (pos 0) (pos 0) l slot
          (ap (λ x. of_ship (ship_tally f) x id) e
            ∙ of_ship-clear_slot (tally-Measure f) _ c id inst kind i)
          (ap (λ x. tally f x.inventory) e
            ∙ ap (tally f) (frame-clear_slot inventory-Frame _ c id inst kind i)
            ∙ tally-append f s.inventory (some d))
          (omega int_laws)
  carry_out_synced-balance s c id (sell kind i) {t = t} h =
      sell-via s c id kind i h λ inst d l slot e.
        balance s t c id kind i inst (some d) none (tally f s.inventory) (pos 0) _ l slot
          (ap (λ x. of_ship (ship_tally f) x id) e
            ∙ of_ship-clear_slot (tally-Measure f) _ c id inst kind i)
          (ap (λ x. tally f x.inventory) e
            ∙ ap (tally f) (frame-clear_slot inventory-Frame _ c id inst kind i))
          (omega (
            int_laws,
            parts_of_eq _ _ (ap (worth f) (addressed-ok s id kind i inst (some d) l slot)),
          ))
  carry_out_synced-balance s c id (refit kind i k) {t = t} h =
      refit-via s c id kind i k h λ inst d at l slot u power e.
        balance s t c id kind i inst none (some (armed d)) (tally f (without_stored s k).inventory)
          (pos 0) (pos 0) l slot
          (ap (λ x. of_ship (ship_tally f) x id) e
            ∙ of_ship-settle (tally-Measure f) _ c id
            ∙ of_ship-fit (tally-Measure f) _ c id inst kind i d)
          (ap (λ x. tally f x.inventory) e
            ∙ ap (tally f) (
                frame-settle inventory-Frame _ c id
                ∙ frame-fit inventory-Frame _ c id inst kind i d))
          (omega (
            int_laws,
            parts_of_eq _ _ (worth-armed f d),
            parts_of_eq _ _ (without_stored-tally s k d at),
          ))

  -- Devices are neither lost nor made: for every value that an item and its grade determine (to
  -- count one item, say), an accepted order changes the holdings of inventory and ship by what it
  -- brings in, the bought device, less what it gives up, the device that stood in the slot of a
  -- sale or a swap. Storing and refitting only move a device. The holdings
  -- before are those of the save with its mirrors imported.
  pub carry_out-balance :
      (s : State W) (c : Content W) (id : String) (o : Order) {t : State W}
      → carry_out s c id o ≡ done t
      → holdings f t id +ℤ given_up (sync_active_condition_from_legacy s c) id o
        ≡ holdings f (sync_active_condition_from_legacy s c) id +ℤ gained f o
  carry_out-balance s c id o h =
      carry_out_synced-balance _ c id o (sym (carry_out_lem s c id o) ∙ h)
