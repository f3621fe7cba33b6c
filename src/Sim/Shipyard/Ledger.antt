-- ===== src/Sim/Shipyard/Ledger.antt =====
-- What accepted shipyard orders cost.
use mathlib.Core.Path.{subst}
use ssh_moonminer.Common.{◌≡◌, refl, sym, ap, ◌∙◌, String, false, none, some, arith, inl, inr, ◌⊎◌}
use ssh_moonminer.Common.Int.{ℤ, pos, negsuc, ◌+ℤ◌, ◌-ℤ◌, ◌≤ℤ◌, ltb_ℤ, int_laws, +ℤ_parts, -ℤ_parts}
use ssh_moonminer.Common.Float.{Float}
use ssh_moonminer.Common.Dict.{lookup}
use ssh_moonminer.Content.{Content}
use ssh_moonminer.Sim.Errors.{ok, err, done}
use ssh_moonminer.Sim.State.{SlotDevice, ShipInstance, State}
use ssh_moonminer.Sim.Catalog.{SlotKind, slot_item_price, slot_item_sell_value}
use ssh_moonminer.Sim.Loadout.{Slot, device_slot, normalize_ship_missiles, normalize_ship_shield}
use ssh_moonminer.Sim.Shipyard.{settle, fit, without_stored}
use ssh_moonminer.Sim.Shipyard.Outcomes.{install-via, replace-via, refit-via, store-via, sell-via}
use ssh_moonminer.Sim.Condition.{sync_active_condition_from_legacy}
use ssh_moonminer.Sim.Shipyard.Frame.{
  legacy-Frame, Frame, frame-settle, frame-fit, frame-normalize, frame-clear_slot, credits-Frame,
  spent-Frame,
}
use ssh_moonminer.Sim.Shipyard.Orders.{
  carry_out, carry_out_lem, Order, buy, store, sell, swap, refit, carry_out_synced,
}
use ssh_moonminer.Sim.Shipyard.Tally.{worth}

no_debt : (a b : ℤ) → ltb_ℤ a b ≡ false → pos 0 ≤ℤ a -ℤ b
no_debt a b h = ground (arith, -ℤ_parts a b)

no_debt_swap : (a r b : ℤ) → ltb_ℤ (a +ℤ r) b ≡ false → pos 0 ≤ℤ a +ℤ (r -ℤ b)
no_debt_swap a r b h = ground (arith, +ℤ_parts a r, -ℤ_parts r b, +ℤ_parts a (r -ℤ b))

module _ {W : Type 0} where
  -- What stands in the slot that an order names.
  abbrev pub addressed : State W → String → SlotKind → ℤ → Slot W
  addressed s id kind i = elim (lookup id s.ships) [
    | none ↦ none
    | some inst ↦ elim (device_slot inst kind i) [ ok d ↦ d | err e ↦ none ]
  ]

  pub addressed-ok :
      (s : State W) (id : String) (kind : SlotKind) (i : ℤ) (inst : ShipInstance W) (d : Slot W)
      → lookup id s.ships ≡ some inst
      → device_slot inst kind i ≡ ok d
      → addressed s id kind i ≡ d
  addressed-ok s id kind i inst d l e = rw (addressed, l, e)

module _ {W : Type 0} ⦃F : Float W⦄ where
  without_stored-credits : (s : State W) (k : ℤ) → (without_stored s k).credits ≡ s.credits
  without_stored-credits s (pos n) = refl
  without_stored-credits s (negsuc n) = refl

  without_stored-spent :
      (s : State W) (k : ℤ) → (without_stored s k).stats.credits_spent ≡ s.stats.credits_spent
  without_stored-spent s (pos n) = refl
  without_stored-spent s (negsuc n) = refl

  -- What an order costs, and what it brings.
  unfoldable pub price_of : Content W → Order → ℤ
  price_of c (buy kind i item grade) = slot_item_price c item grade
  price_of c (swap kind i item grade) = slot_item_price c item grade
  price_of c (store kind i) = pos 0
  price_of c (sell kind i) = pos 0
  price_of c (refit kind i k) = pos 0

  unfoldable pub refund_of : State W → Content W → String → Order → ℤ
  refund_of s c id (sell kind i) = worth (slot_item_sell_value c) (addressed s id kind i)
  refund_of s c id (swap kind i item grade) = worth (slot_item_sell_value c) (addressed s id kind i)
  refund_of s c id (buy kind i item grade) = pos 0
  refund_of s c id (store kind i) = pos 0
  refund_of s c id (refit kind i k) = pos 0

  fitted-Frame :
      {B : Type 0} {q : State W → B} (Q : Frame q) (s : State W) (c : Content W) (id : String)
      (inst : ShipInstance W) (kind : SlotKind) (i : ℤ) (d : SlotDevice W)
      → q (settle (fit s c id inst kind i d) c id) ≡ q s
  fitted-Frame Q s c id inst kind i d = frame-settle Q _ c id ∙ frame-fit Q s c id inst kind i d

  swapped-Frame :
      {B : Type 0} {q : State W → B} (Q : Frame q) (s : State W) (c : Content W) (id : String)
      (inst : ShipInstance W) (kind : SlotKind) (i : ℤ) (d : SlotDevice W)
      → q (
          settle
            (normalize_ship_missiles (normalize_ship_shield (fit s c id inst kind i d) c id) c id)
            c
            id)
        ≡ q s
  swapped-Frame Q s c id inst kind i d = frame-normalize Q _ c id ∙ frame-fit Q s c id inst kind i d

  unfoldable pub Booked : State W → State W → ℤ → ℤ → Type 0
  Booked s t price refund =
      (t.credits ≡ s.credits +ℤ (refund -ℤ price))
      × (t.stats.credits_spent ≡ s.stats.credits_spent +ℤ price)

  carry_out_synced-Booked :
      (s : State W) (c : Content W) (id : String) (o : Order) {t : State W}
      → carry_out_synced s c id o ≡ done t
      → Booked s t (price_of c o) (refund_of s c id o)
  unfolding carry_out_synced Booked price_of refund_of
  carry_out_synced-Booked s c id (buy kind i item grade) h =
      install-via s c id kind i item grade h λ inst l d u funds power e. (
        ap (λ x. x.credits) e ∙ fitted-Frame credits-Frame _ c id inst kind i _ ∙ omega int_laws,
        ap (λ x. x.stats.credits_spent) e ∙ fitted-Frame spent-Frame _ c id inst kind i _,
      )
  carry_out_synced-Booked s c id (swap kind i item grade) h =
      replace-via s c id kind i item grade h λ inst old l d u power funds e. (
        ap (λ x. x.credits) e
            ∙ swapped-Frame credits-Frame _ c id inst kind i _
            ∙ ap
                (λ x.
                  s.credits +ℤ (worth (slot_item_sell_value c) x -ℤ slot_item_price c item grade))
                (sym (addressed-ok s id kind i inst (some old) l d)),
        ap (λ x. x.stats.credits_spent) e ∙ swapped-Frame spent-Frame _ c id inst kind i _,
      )
  carry_out_synced-Booked s c id (store kind i) h = store-via s c id kind i h λ inst d l slot e. (
    ap (λ x. x.credits) e ∙ frame-clear_slot credits-Frame _ c id inst kind i ∙ omega int_laws,
    ap (λ x. x.stats.credits_spent) e
        ∙ frame-clear_slot spent-Frame _ c id inst kind i
        ∙ omega int_laws,
  )
  carry_out_synced-Booked s c id (sell kind i) h = sell-via s c id kind i h λ inst d l slot e. (
    ap (λ x. x.credits) e
        ∙ frame-clear_slot credits-Frame _ c id inst kind i
        ∙ omega int_laws
        ∙ ap (λ x. s.credits +ℤ (worth (slot_item_sell_value c) x -ℤ pos 0))
            (sym (addressed-ok s id kind i inst (some d) l slot)),
    ap (λ x. x.stats.credits_spent) e
        ∙ frame-clear_slot spent-Frame _ c id inst kind i
        ∙ omega int_laws,
  )
  carry_out_synced-Booked s c id (refit kind i k) h =
      refit-via s c id kind i k h λ inst d at l slot u power e. (
        ap (λ x. x.credits) e
            ∙ fitted-Frame credits-Frame _ c id inst kind i d
            ∙ without_stored-credits s k
            ∙ omega int_laws,
        ap (λ x. x.stats.credits_spent) e
            ∙ fitted-Frame spent-Frame _ c id inst kind i d
            ∙ without_stored-spent s k
            ∙ omega int_laws,
      )

  synced_no_debt :
      (s : State W) (c : Content W) (id : String) (kind : SlotKind) (i : ℤ) (item : String)
      (grade : ℤ) {t : State W}
      → (carry_out_synced s c id (buy kind i item grade) ≡ done t)
        ⊎ (carry_out_synced s c id (swap kind i item grade) ≡ done t)
      → pos 0 ≤ℤ t.credits
  unfolding carry_out_synced
  synced_no_debt s c id kind i item grade (inl h) =
      install-via s c id kind i item grade h λ inst l d u funds power e.
        subst (λ n. pos 0 ≤ℤ n)
          (sym (ap (λ x. x.credits) e ∙ fitted-Frame credits-Frame _ c id inst kind i _))
          (no_debt s.credits _ funds)
  synced_no_debt s c id kind i item grade (inr h) =
      replace-via s c id kind i item grade h λ inst old l d u power funds e.
        subst (λ n. pos 0 ≤ℤ n)
          (sym (ap (λ x. x.credits) e ∙ swapped-Frame credits-Frame _ c id inst kind i _))
          (no_debt_swap s.credits _ _ funds)

  -- Every accepted shipyard order moves the credits by what it pays back less what it costs, and
  -- books what it costs as spent: a purchase costs the item's price, a sale pays the sell value
  -- of the device that stood in the slot, a swap does both, storing and refitting are free.
  pub carry_out-Booked :
      (s : State W) (c : Content W) (id : String) (o : Order) {t : State W}
      → carry_out s c id o ≡ done t
      → Booked s t (price_of c o) (refund_of (sync_active_condition_from_legacy s c) c id o)
  unfolding Booked
  carry_out-Booked s c id o h =
      let u : State W = sync_active_condition_from_legacy s c in
      let booked = carry_out_synced-Booked u c id o (sym (carry_out_lem s c id o) ∙ h) in
      (
        booked.0
            ∙ ap (λ n. n +ℤ (refund_of u c id o -ℤ price_of c o)) (legacy-Frame credits-Frame s c),
        booked.1 ∙ ap (λ n. n +ℤ price_of c o) (legacy-Frame spent-Frame s c),
      )

  -- No accepted purchase or swap leaves a debt.
  pub purchase_no_debt :
      (s : State W) (c : Content W) (id : String) (kind : SlotKind) (i : ℤ) (item : String)
      (grade : ℤ) {t : State W}
      → (carry_out s c id (buy kind i item grade) ≡ done t)
        ⊎ (carry_out s c id (swap kind i item grade) ≡ done t)
      → pos 0 ≤ℤ t.credits
  purchase_no_debt s c id kind i item grade (inl h) =
      synced_no_debt _ c id kind i item grade
        (inl (sym (carry_out_lem s c id (buy kind i item grade)) ∙ h))
  purchase_no_debt s c id kind i item grade (inr h) =
      synced_no_debt _ c id kind i item grade
        (inr (sym (carry_out_lem s c id (swap kind i item grade)) ∙ h))
