-- ===== src/Sim/Shipyard/Tally.antt =====
-- Sums over the devices of a ship, for any value that an item and its grade determine: a power
-- draw, or 1 to count. A write to one slot moves the sum by that slot; dock service leaves it.
use mathlib.Core.Path.{ap₂}
use mathlib.Core.Option.{some-injective}
use ssh_moonminer.Common.{
  ℕ, zero, suc, ◌≡◌, refl, ap, String, List, [], ◌∷◌, map, none, some, get_elem?, set, arith,
}
use ssh_moonminer.Common.Int.{ℤ, pos, negsuc, pos_part, ◌+ℤ◌, parts_of_eq, int_laws}
use ssh_moonminer.Common.Float.{Float}
use ssh_moonminer.Content.{Content}
use ssh_moonminer.Sim.Errors.{ok}
use ssh_moonminer.Sim.State.{SlotDevice, ShipInstance}
use ssh_moonminer.Sim.Catalog.{SlotKind, slot_utility, slot_weapon, slot_internal, slot_item_power}
use ssh_moonminer.Sim.Condition.{clamp_tank}
use ssh_moonminer.Sim.Loadout.{
  Slot, internal_devices, slot_at, device_slot, set_device, on_launcher, add_power,
}

module _ (f : String → ℤ → ℤ) where
  abbrev pub worth : {W : Type 0} → Slot W → ℤ
  worth none = pos 0
  worth (some d) = f d.item_id d.grade

  abbrev pub tally : {W : Type 0} → List (Slot W) → ℤ
  tally [] = pos 0
  tally (d ∷ ds) = worth d +ℤ tally ds

  abbrev pub ship_tally : {W : Type 0} → ShipInstance W → ℤ
  ship_tally inst = tally inst.utility +ℤ tally inst.weapon +ℤ tally (internal_devices inst)

module _ {W : Type 0} (f : String → ℤ → ℤ) where
  pub tally-set :
      (ds : List (Slot W)) (i : ℕ) (old new : Slot W)
      → get_elem? ds i ≡ some old
      → tally f (set ds i new) +ℤ worth f old ≡ tally f ds +ℤ worth f new
  tally-set [] i old new h = ground arith
  tally-set (d ∷ ds) zero old new h =
      let e : d ≡ old = some-injective _ _ h in rw (← e) (omega int_laws)
  tally-set (d ∷ ds) (suc i) old new h =
      omega (int_laws, parts_of_eq _ _ (tally-set ds i old new h))

  slot_at-eq-ok :
      (ds : List (Slot W)) (i : ℤ) (old : Slot W)
      → slot_at ds i ≡ ok old
      → get_elem? ds (pos_part i) ≡ some old
  unfolding slot_at
  slot_at-eq-ok ds (negsuc n) old h = ground arith
  slot_at-eq-ok ds (pos n) old h = ground arith

  tally-set_at :
      (ds : List (Slot W)) (i : ℤ) (old new : Slot W)
      → slot_at ds i ≡ ok old
      → tally f (set ds (pos_part i) new) +ℤ worth f old ≡ tally f ds +ℤ worth f new
  tally-set_at ds i old new h = tally-set ds (pos_part i) old new (slot_at-eq-ok ds i old h)

  pub ship_tally-set_device :
      (inst : ShipInstance W) (kind : SlotKind) (i : ℤ) (old new : Slot W)
      → device_slot inst kind i ≡ ok old
      → ship_tally f (set_device inst kind i new) +ℤ worth f old ≡ ship_tally f inst +ℤ worth f new
  unfolding device_slot set_device
  ship_tally-set_device inst slot_utility i old new h =
      omega (int_laws, parts_of_eq _ _ (tally-set_at inst.utility i old new h))
  ship_tally-set_device inst slot_weapon i old new h =
      omega (int_laws, parts_of_eq _ _ (tally-set_at inst.weapon i old new h))
  ship_tally-set_device inst slot_internal (pos zero) old new h =
      omega (int_laws, parts_of_eq _ _ (tally-set (internal_devices inst) 0 old new (ground arith)))
  ship_tally-set_device inst slot_internal (pos (suc n)) old new h =
      omega (int_laws, parts_of_eq _ _ (tally-set_at inst.additional_internal (pos n) old new h))
  ship_tally-set_device inst slot_internal (negsuc n) old new h = ground arith

  -- A pass over the slots that keeps what each one is worth keeps the sum.
  pub tally-map :
      (g : Slot W → Slot W) (ds : List (Slot W))
      → ((d : Slot W) → worth f (g d) ≡ worth f d)
      → tally f (map g ds) ≡ tally f ds
  tally-map g [] h = refl
  tally-map g (d ∷ ds) h = ap₂ ◌+ℤ◌ (h d) (tally-map g ds h)

  worth-on_launcher :
      (load : SlotDevice W → ℤ) (d : Slot W) → worth f (on_launcher load d) ≡ worth f d
  worth-on_launcher load none = refl
  worth-on_launcher load (some d) = ground arith

  pub ship_tally_weapons :
      (inst : ShipInstance W) (load : SlotDevice W → ℤ)
      → ship_tally f (record inst { weapon = map (on_launcher load) inst.weapon })
        ≡ ship_tally f inst
  ship_tally_weapons inst load =
      ap (λ t. tally f inst.utility +ℤ t +ℤ tally f (internal_devices inst))
        (tally-map (on_launcher load) inst.weapon (worth-on_launcher load))

module _ {W : Type 0} ⦃F : Float W⦄ (f : String → ℤ → ℤ) where
  worth-clamp_tank : (c : Content W) (d : Slot W) → worth f (clamp_tank c d) ≡ worth f d
  worth-clamp_tank c none = refl
  worth-clamp_tank c (some d) = ground arith

  pub ship_tally_tanks :
      (c : Content W) (inst : ShipInstance W)
      → ship_tally f (record inst { utility = map (clamp_tank c) inst.utility }) ≡ ship_tally f inst
  ship_tally_tanks c inst =
      ap (λ t. t +ℤ tally f inst.weapon +ℤ tally f (internal_devices inst))
        (tally-map f (clamp_tank c) inst.utility (worth-clamp_tank c))

  pub add_power_lem :
      (c : Content W) (total : ℤ) (ds : List (Slot W))
      → add_power c total ds ≡ total +ℤ tally (slot_item_power c) ds
  unfolding add_power
  add_power_lem c total [] = omega int_laws
  add_power_lem c total (none ∷ ds) = omega (int_laws, parts_of_eq _ _ (add_power_lem c total ds))
  add_power_lem c total (some d ∷ ds) = omega (
    int_laws,
    parts_of_eq _ _ (add_power_lem c (total +ℤ slot_item_power c d.item_id d.grade) ds),
  )
