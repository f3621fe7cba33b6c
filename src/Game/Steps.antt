-- ===== src/Game/Steps.antt =====
-- The life of one open save as a step relation: what happens to its actor and to the disk, in any
-- order.
use ssh_moonminer.Common.{◌≡◌, ℕ, Option}
use ssh_moonminer.Common.Int.{ℤ}
use ssh_moonminer.Sim.Errors.{SimError, fail}
use ssh_moonminer.Game.Actor.{
  Rules, Saves, Actor, Policy, intent, tick, take_over, detach, evict, persist, final_flush,
}

-- The disk beside the actor.
pub record Cell (D S : Type 0) : Type 0 where
  pub disk : D
  pub actor : Actor S

abbrev pub cell : {D S : Type 0} → D → Actor S → Cell D S
cell d a = record { disk = d; actor = a }

module _ {S P O D : Type 0} (R : Rules S P O) (V : Saves D P) where
  -- A refused action leaves a state that is encoded as before.
  abbrev pub Refusing : (S → S × Option SimError) → Type 0
  Refusing apply = (st t : S) (e : SimError) → apply st ≡ fail t e → R.encode t ≡ R.encode st

  pub data Step : Cell D S → Cell D S → Type 0 where
    intended :
        (id : ℕ) (apply : S → S × Option SimError)
        → Refusing apply
        → (c : Cell D S) → Step c (cell c.disk (intent R id apply c.actor).0)
    ticked : (now : ℤ) (c : Cell D S) → Step c (cell c.disk (tick R now c.actor).0)
    autosaved :
        (now : ℤ) (c : Cell D S)
        → Step c (cell (persist R V now c.disk c.actor).0 (persist R V now c.disk c.actor).1)
    attached :
        (policy : Policy) (id : ℕ) (now : ℤ) (c : Cell D S)
        → Step c (cell c.disk (take_over R policy id now c.actor).0)
    detached :
        (id : ℕ) (now : ℤ) (c : Cell D S)
        → Step c (cell (detach R V id now c.disk c.actor).0 (detach R V id now c.disk c.actor).1)
    evicted : (now : ℤ) (c : Cell D S) → Step c (cell c.disk (evict R now c.actor).0)
    flushed :
        (now : ℤ) (c : Cell D S)
        → Step c
            (cell (final_flush R V now c.disk c.actor).0 (final_flush R V now c.disk c.actor).1)

  pub data Steps : Cell D S → Cell D S → Type 0 where
    stay : (c : Cell D S) → Steps c c
    then_step : {c d e : Cell D S} → Steps c d → Step d e → Steps c e
