-- ===== src/Content/Lookup.antt =====
-- content.go and jump.go: the whole configuration and its finders.
use Prim.Native.Char.{code}
use text.Mathlib.Text.{◌==◌}
use ssh_moonminer.Common.{
  String, Bool, true, false, ◌&&◌, ◌||◌, List, [], ◌∷◌, Option, none, some, if◌then◌else◌,
  get_elem?,
}
use ssh_moonminer.Common.{◌==◌ as nat_eq}
use ssh_moonminer.Common.Int.{ℤ, pos, negsuc}
use ssh_moonminer.Content.Map.{System, World, JumpConfig, FerryConfig, Gate, Rating}
use ssh_moonminer.Content.Balance.{
  Pirate, CombatConfig, PilotStart, BeltConfig, TierConfig, MiningConfig, EventsConfig, PortConfig,
}
use ssh_moonminer.Content.Fleet.{ShipModel, FleetConfig, SlotsConfig}

pub record Content (W : Type 0) : Type 0 where
  pub jump : JumpConfig W
  pub ferry : FerryConfig W
  pub gates : List (Gate W)
  pub ratings : List Rating
  pub systems : List System
  pub worlds : List (World W)
  pub pilot : PilotStart
  pub belt : BeltConfig W
  pub tiers : TierConfig W
  pub mining : MiningConfig W
  pub combat : CombatConfig W
  pub events : EventsConfig W
  pub port : PortConfig W
  pub fleet : FleetConfig W
  pub slots : SlotsConfig W
  pub ships : List (ShipModel W)
  pub pirates : List (Pirate W)

-- The first element that a test accepts: the loop of every finder below.
unfoldable pub find {ℓ} : {A : Type ℓ} → (A → Bool) → List A → Option A
find p [] = none
find p (x ∷ xs) = if p x then some x else find p xs

-- The text before the first '@' (strings.Cut), all of it if there is none.
unfoldable pub before_at : String → String
before_at String.[] = String.[]
before_at (String.◌∷◌ c s) = if nat_eq (code c) b'@' then String.[] else String.◌∷◌ c (before_at s)

unfoldable pub contains_string : List String → String → Bool
contains_string [] want = false
contains_string (v ∷ vs) want = if v == want then true else contains_string vs want

module _ {W : Type 0} where
  unfoldable pub ship_by_id : Content W → String → Option (ShipModel W)
  unfolding find
  ship_by_id c id = let base = before_at id in find (λ m. m.id == base) c.ships

  unfoldable pub pirate_by_id : Content W → String → Option (Pirate W)
  unfolding find
  pirate_by_id c id = find (λ p. p.id == id) c.pirates

  unfoldable pub system_by_id : Content W → String → Option System
  unfolding find
  system_by_id c id = find (λ y. y.id == id) c.systems

  unfoldable pub world_by_id : Content W → String → Option (World W)
  unfolding find
  world_by_id c id = find (λ w. w.id == id) c.worlds

  unfoldable pub world_by_index : Content W → ℤ → Option (World W)
  world_by_index c (pos n) = get_elem? c.worlds n
  world_by_index c (negsuc n) = none

  unfoldable pub gate_between : Content W → String → String → Option (Gate W)
  unfolding find
  gate_between c from to =
      find (λ g. (g.from == from && g.to == to) || (g.to == from && g.from == to)) c.gates
