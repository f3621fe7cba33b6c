-- ===== src/Sim/Frontier/Records.antt =====
-- frontier.go, frontierRecord: what is read of the records after one of them is written.
use ssh_moonminer.Common.{◌≡◌, String, arith, if◌then◌else◌}
use text.Mathlib.Text.{◌==◌}
use text.Mathlib.TextEquality.{eq_iff}
use ssh_moonminer.Common.Dict.{lookup, lookup-insert}
use ssh_moonminer.Sim.State.{State, FrontierRecord}
use ssh_moonminer.Sim.Frontier.{frontier_record, update_record, or_blank}

module _ {W : Type 0} where
  pub frontier_record-update_record :
      (key id : String) (g : FrontierRecord → FrontierRecord) (s : State W)
      → frontier_record (update_record key g s) id
        ≡ (if key == id then g (frontier_record s id) else frontier_record s id)
  unfolding frontier_record update_record
  frontier_record-update_record key id g s =
      ground (
        arith,
        lookup-insert key id (g (or_blank (lookup key s.frontier))) s.frontier,
        eq_iff key id,
      )
