-- ===== src/Sim/Mining/Abandon.antt =====
-- run.go, EmergencyResolve: a run whose pilot is gone.
use ssh_moonminer.Common.{ℕ, true, List, [], ◌∷◌, Option, none, some, if◌then◌else◌}
use ssh_moonminer.Common.Int.{ℤ}
use ssh_moonminer.Common.Float.{Float}
use ssh_moonminer.Content.{Content}
use ssh_moonminer.Sim.Errors.{SimError}
use ssh_moonminer.Sim.State.{
  State, ActiveRun, RunPhase, mining, tribute, escaping, combat, RunRecord,
}
use ssh_moonminer.Sim.Dice.{Random, Math}
use ssh_moonminer.Sim.Figures.{unit}
use ssh_moonminer.Sim.Mining.Outcome.{RunOutcome, Ended, running, ended, panicked}
use ssh_moonminer.Sim.Mining.Escape.{bail_or_depart}
use ssh_moonminer.Sim.Mining.Fight.{refuse_tribute, combat_escape}
use ssh_moonminer.Sim.Mining.Tick.{tick_out}

abbrev pub max_emergency_ticks : ℕ
max_emergency_ticks = 10000

module _ {W : Type 0} where
  abbrev pub flag_head : List (RunRecord W) → List (RunRecord W)
  flag_head [] = []
  flag_head (r ∷ rs) = record r { disconnected = true } ∷ rs

  abbrev pub head_of : List (RunRecord W) → Option (RunRecord W) → Option (RunRecord W)
  head_of [] old = old
  head_of (r ∷ rs) old = some r

  -- The newest record is flagged, and becomes the notice for the next session.
  abbrev pub noticed : State W → State W
  noticed s = record s {
    run_log = flag_head s.run_log;
    disconnect_notice = head_of (flag_head s.run_log) s.disconnect_notice;
  }

  abbrev pub report_end : State W → RunOutcome W → Option (ActiveRun W) → State W × Ended W
  report_end s o (some _) = (s, ended o)
  report_end s o none =
      (noticed s, ended (record o { rec = record (o.rec) { disconnected = true } }))

  abbrev pub report : State W × Ended W → State W × Ended W
  report (s, running) = (s, running)
  report (s, panicked e) = (s, panicked e)
  report (s, ended o) = report_end s o s.run

  -- AckDisconnectNotice
  unfoldable pub ack_disconnect_notice : State W → State W
  ack_disconnect_notice s = record s { disconnect_notice = none }

module _ {W R : Type 0} ⦃F : Float W⦄ (G : Random W R) (M : Math W) where
  -- The burn that is started for the pilot; a fight's may be running already.
  abbrev pub leave : RunPhase → State W → Content W → ActiveRun W → ℤ → State W × Option SimError
  leave mining s c run now = bail_or_depart s c
  leave tribute s c run now = refuse_tribute G M s c now
  leave escaping s c run now = (s, none)
  leave combat s c run now = elim run.combat [
    | none ↦ (s, none)
    | some cs ↦ if cs.escape_started then (s, none) else combat_escape G M s c
  ]

  abbrev pub ride_out : State W × Option SimError → Content W → ℤ → State W × Ended W
  ride_out (s, some e) c now = (s, running)
  ride_out (s, none) c now =
      tick_out G M max_emergency_ticks s c (F.div unit (F.of_int c.mining.tick_hz)) now

  abbrev pub abandon : State W → Content W → ℤ → Option (ActiveRun W) → State W × Ended W
  abandon s c now none = (s, running)
  abandon s c now (some run) = ride_out (leave run.phase s c run now) c now

  unfoldable pub resolve_abandoned_run : State W → Content W → ℤ → State W × Ended W
  unfolding tick_out bail_or_depart refuse_tribute combat_escape
  resolve_abandoned_run s c now = abandon s c now s.run

  abbrev pub resolve_emergency : State W → Content W → ℤ → Option (ActiveRun W) → State W × Ended W
  resolve_emergency s c now none = (s, running)
  resolve_emergency s c now (some run) = report (resolve_abandoned_run s c now)

  unfoldable pub emergency_resolve : State W → Content W → ℤ → State W × Ended W
  unfolding resolve_abandoned_run
  emergency_resolve s c now = resolve_emergency s c now s.run
