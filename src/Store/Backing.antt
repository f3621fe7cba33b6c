-- ===== src/Store/Backing.antt =====
-- store.go as the store that the save actor writes to.
use ssh_moonminer.Common.{◌≡◌, ap, Bool, true, false, Option, none, some, String, arith}
use ssh_moonminer.Store.Tables.{Database, SaveRow, StoreError, find_row}
use ssh_moonminer.Store.{save_state}
use ssh_moonminer.Store.Keeping.{save_state-inv, find_row-update_rows}
use ssh_moonminer.Game.Actor.{Rules, Saves}
use ssh_moonminer.Game.Steps.{Cell, Steps}
use ssh_moonminer.Game.Durability.{Keeps, Durable, Steps-Durable}

module _ {P : Type 0} where
  -- SaveState as the actor calls it: the database, and whether the answer was nil.
  abbrev pub went_through : Database P × Option StoreError → Database P × Bool
  went_through (d, none) = (d, true)
  went_through (d, some e) = (d, false)

  abbrev pub store_saves : Saves (Database P) P
  store_saves = record {
    save_state = λ d fp slot p version now. went_through (save_state fp slot p version now d);
  }

  abbrev pub state_of : Option (SaveRow P) → Option P
  state_of none = none
  state_of (some r) = some r.state

  -- The state in the row of a save.
  abbrev pub stored_state : Database P → String → String → Option P
  stored_state d fp slot = state_of (find_row fp slot d.saves)

  went_through-inv :
      (o : Database P × Option StoreError) (e : Database P)
      → went_through o ≡ (e, true)
      → o ≡ (e, none)
  went_through-inv (d, none) e h = ground arith
  went_through-inv (d, some x) e h = absurd (ground arith)

  store_saves-Keeps : Keeps store_saves stored_state
  store_saves-Keeps = record {
    saved = λ d e fp slot p version now h.
        let done = save_state-inv fp slot p version now d e (went_through-inv _ e h) in
        let kept = find_row-update_rows fp slot p version now d.saves (done.0) in
        rw (done.1) (ap state_of (kept.2));
  }

  -- Over this store, whatever happens to an open save and wherever the driver fails, a registered
  -- pilot's save that is not marked dirty stays what the database holds, provided that refused
  -- actions leave the encoding alone.
  pub Steps-Stored :
      {S O : Type 0} (R : Rules S P O) (c e : Cell (Database P) S)
      → Steps R store_saves c e
      → Durable R store_saves stored_state c.disk c.actor
      → Durable R store_saves stored_state e.disk e.actor
  Steps-Stored R = Steps-Durable R store_saves stored_state store_saves-Keeps
