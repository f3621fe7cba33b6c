-- ===== src/Sim/Shipyard/Outcomes.antt =====
-- What an accepted shipyard action tells of the state before it, and gives after it. Each lemma
-- hands these facts on, so that a proof about the action starts from them.
use ssh_moonminer.Common.{
  [], ◌∷◌, ◌++◌, ◌≡◌, refl, String, true, false, none, some, arith, by_option, ◌∙◌, ap,
}
use ssh_moonminer.Common.Int.{ℤ, ltb_ℤ, ◌+ℤ◌}
use ssh_moonminer.Common.Dict.{lookup}
use ssh_moonminer.Common.Float.{Float}
use ssh_moonminer.Content.{Content}
use ssh_moonminer.Sim.Errors.{ok, done, by_result}
use ssh_moonminer.Sim.State.{SlotDevice, ShipInstance, State}
use ssh_moonminer.Sim.Catalog.{SlotKind, slot_item_price, slot_item_sell_value}
use ssh_moonminer.Sim.Tracks.{spend}
use ssh_moonminer.Sim.Loadout.{
  Slot, device_slot, validate_unique_slot_item, normalize_ship_missiles, normalize_ship_shield,
}
use ssh_moonminer.Sim.Shipyard.{
  reach_slot, new_device, settle, fit, power_fits, install_checked, install_synced, trade,
  replace_checked, replace_synced, without_stored, refit_checked, inventory_at, refit_synced,
  clear_slot, store_synced, sell_synced, resolve_occupied_slot,
}

module _ {W : Type 0} ⦃F : Float W⦄ where
  pub reach_slot-ok :
      (s : State W) (c : Content W) (id : String) (kind : SlotKind) (i : ℤ) (item : String)
      {inst : ShipInstance W} {slot : Slot W}
      → reach_slot s c id kind i item ≡ ok (inst, slot)
      → (lookup id s.ships ≡ some inst) × (device_slot inst kind i ≡ ok slot)
  unfolding reach_slot
  reach_slot-ok s c id kind i item h = ground arith

  pub resolve-ok :
      (s : State W) (id : String) (kind : SlotKind) (i : ℤ) {inst : ShipInstance W}
      {d : SlotDevice W}
      → resolve_occupied_slot s id kind i ≡ ok (inst, d)
      → (lookup id s.ships ≡ some inst) × (device_slot inst kind i ≡ ok (some d))
  unfolding resolve_occupied_slot
  resolve-ok s id kind i h = ground arith

  install_checked-via :
      (s : State W) (c : Content W) (id : String) (kind : SlotKind) (i : ℤ) (item : String)
      (grade : ℤ) (inst : ShipInstance W) (slot : Slot W) {t : State W} {Q : Type 0}
      → install_checked s c id kind i item grade inst slot ≡ done t
      → (slot ≡ none
          → validate_unique_slot_item inst kind i item ≡ none
          → ltb_ℤ s.credits (slot_item_price c item grade) ≡ false
          → power_fits s c id none item grade ≡ true
          → t
            ≡ settle
                (fit
                  (spend s (slot_item_price c item grade))
                  c
                  id
                  inst
                  kind
                  i
                  (new_device item grade))
                c
                id
          → Q)
      → Q
  unfolding install_checked
  install_checked-via s c id kind i item grade inst (some d) h go = ground arith
  install_checked-via s c id kind i item grade inst none h go =
      go refl (ground arith) (ground arith) (ground arith) (ground arith)

  -- A purchase into an empty slot.
  pub install-via :
      (s : State W) (c : Content W) (id : String) (kind : SlotKind) (i : ℤ) (item : String)
      (grade : ℤ) {t : State W} {Q : Type 0}
      → install_synced s c id kind i item grade ≡ done t
      → ((inst : ShipInstance W)
          → lookup id s.ships ≡ some inst
          → device_slot inst kind i ≡ ok none
          → validate_unique_slot_item inst kind i item ≡ none
          → ltb_ℤ s.credits (slot_item_price c item grade) ≡ false
          → power_fits s c id none item grade ≡ true
          → t
            ≡ settle
                (fit
                  (spend s (slot_item_price c item grade))
                  c
                  id
                  inst
                  kind
                  i
                  (new_device item grade))
                c
                id
          → Q)
      → Q
  unfolding install_synced
  install-via s c id kind i item grade h go =
      by_result (reach_slot s c id kind i item) (λ e r. ground arith)
        (λ p r. install_checked-via s c id kind i item grade p.0 p.1 (ground arith) (λ e.
          go p.0 (reach_slot-ok s c id kind i item r).0
            ((reach_slot-ok s c id kind i item r).1 ∙ ap ok e)))

  replace_checked-via :
      (s : State W) (c : Content W) (id : String) (kind : SlotKind) (i : ℤ) (item : String)
      (grade : ℤ) (inst : ShipInstance W) (slot : Slot W) {t : State W} {Q : Type 0}
      → replace_checked s c id kind i item grade inst slot ≡ done t
      → ((old : SlotDevice W)
          → slot ≡ some old
          → validate_unique_slot_item inst kind i item ≡ none
          → power_fits s c id (some old) item grade ≡ true
          → ltb_ℤ
              (s.credits +ℤ slot_item_sell_value c old.item_id old.grade)
              (slot_item_price c item grade)
            ≡ false
          → t
            ≡ settle
                (normalize_ship_missiles
                  (normalize_ship_shield
                    (fit
                      (trade s
                        (slot_item_sell_value c old.item_id old.grade)
                        (slot_item_price c item grade))
                      c
                      id
                      inst
                      kind
                      i
                      (new_device item grade))
                    c
                    id)
                  c
                  id)
                c
                id
          → Q)
      → Q
  unfolding replace_checked
  replace_checked-via s c id kind i item grade inst none h go = ground arith
  replace_checked-via s c id kind i item grade inst (some old) h go =
      go old refl (ground arith) (ground arith) (ground arith) (ground arith)

  -- A swap.
  pub replace-via :
      (s : State W) (c : Content W) (id : String) (kind : SlotKind) (i : ℤ) (item : String)
      (grade : ℤ) {t : State W} {Q : Type 0}
      → replace_synced s c id kind i item grade ≡ done t
      → ((inst : ShipInstance W) (old : SlotDevice W)
          → lookup id s.ships ≡ some inst
          → device_slot inst kind i ≡ ok (some old)
          → validate_unique_slot_item inst kind i item ≡ none
          → power_fits s c id (some old) item grade ≡ true
          → ltb_ℤ
              (s.credits +ℤ slot_item_sell_value c old.item_id old.grade)
              (slot_item_price c item grade)
            ≡ false
          → t
            ≡ settle
                (normalize_ship_missiles
                  (normalize_ship_shield
                    (fit
                      (trade s
                        (slot_item_sell_value c old.item_id old.grade)
                        (slot_item_price c item grade))
                      c
                      id
                      inst
                      kind
                      i
                      (new_device item grade))
                    c
                    id)
                  c
                  id)
                c
                id
          → Q)
      → Q
  unfolding replace_synced
  replace-via s c id kind i item grade h go =
      by_result (reach_slot s c id kind i item) (λ e r. ground arith)
        (λ p r. replace_checked-via s c id kind i item grade p.0 p.1 (ground arith) (λ old e.
          go p.0 old (reach_slot-ok s c id kind i item r).0
            ((reach_slot-ok s c id kind i item r).1 ∙ ap ok e)))

  refit_checked-via :
      (s : State W) (c : Content W) (id : String) (kind : SlotKind) (i : ℤ) (k : ℤ)
      (d : SlotDevice W) (inst : ShipInstance W) (slot : Slot W) {t : State W} {Q : Type 0}
      → refit_checked s c id kind i k d inst slot ≡ done t
      → (slot ≡ none
          → validate_unique_slot_item inst kind i d.item_id ≡ none
          → power_fits s c id none d.item_id d.grade ≡ true
          → t ≡ settle (fit (without_stored s k) c id inst kind i d) c id
          → Q)
      → Q
  unfolding refit_checked
  refit_checked-via s c id kind i k d inst (some x) h go = ground arith
  refit_checked-via s c id kind i k d inst none h go =
      go refl (ground arith) (ground arith) (ground arith)

  -- A refit from the inventory.
  pub refit-via :
      (s : State W) (c : Content W) (id : String) (kind : SlotKind) (i : ℤ) (k : ℤ) {t : State W}
      {Q : Type 0}
      → refit_synced s c id kind i k ≡ done t
      → ((inst : ShipInstance W) (d : SlotDevice W)
          → inventory_at s k ≡ some d
          → lookup id s.ships ≡ some inst
          → device_slot inst kind i ≡ ok none
          → validate_unique_slot_item inst kind i d.item_id ≡ none
          → power_fits s c id none d.item_id d.grade ≡ true
          → t ≡ settle (fit (without_stored s k) c id inst kind i d) c id
          → Q)
      → Q
  unfolding refit_synced
  refit-via s c id kind i k h go =
      by_option (inventory_at s k) (λ e. ground arith)
        (λ d e.
          by_result (reach_slot s c id kind i d.item_id) (λ x r. ground arith)
            (λ p r. refit_checked-via s c id kind i k d p.0 p.1 (ground arith) (λ x.
              go p.0 d e (reach_slot-ok s c id kind i d.item_id r).0
                ((reach_slot-ok s c id kind i d.item_id r).1 ∙ ap ok x))))

  -- A device taken to the inventory.
  pub store-via :
      (s : State W) (c : Content W) (id : String) (kind : SlotKind) (i : ℤ) {t : State W}
      {Q : Type 0}
      → store_synced s c id kind i ≡ done t
      → ((inst : ShipInstance W) (d : SlotDevice W)
          → lookup id s.ships ≡ some inst
          → device_slot inst kind i ≡ ok (some d)
          → t ≡ clear_slot (record s { inventory = s.inventory ++ some d ∷ [] }) c id inst kind i
          → Q)
      → Q
  unfolding store_synced
  store-via s c id kind i h go =
      by_result (resolve_occupied_slot s id kind i) (λ e r. ground arith)
        (λ p r. go p.0 p.1 (resolve-ok s id kind i r).0 (resolve-ok s id kind i r).1 (ground arith))

  -- A device sold.
  pub sell-via :
      (s : State W) (c : Content W) (id : String) (kind : SlotKind) (i : ℤ) {t : State W}
      {Q : Type 0}
      → sell_synced s c id kind i ≡ done t
      → ((inst : ShipInstance W) (d : SlotDevice W)
          → lookup id s.ships ≡ some inst
          → device_slot inst kind i ≡ ok (some d)
          → t
            ≡ clear_slot
                (record s { credits = s.credits +ℤ slot_item_sell_value c d.item_id d.grade })
                c
                id
                inst
                kind
                i
          → Q)
      → Q
  unfolding sell_synced
  sell-via s c id kind i h go =
      by_result (resolve_occupied_slot s id kind i) (λ e r. ground arith)
        (λ p r. go p.0 p.1 (resolve-ok s id kind i r).0 (resolve-ok s id kind i r).1 (ground arith))
