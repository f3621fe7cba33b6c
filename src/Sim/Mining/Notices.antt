-- ===== src/Sim/Mining/Notices.antt =====
-- run.go, EmergencyResolve: what the pilot of an abandoned run is told.
use ssh_moonminer.Common.{◌≡◌, refl, ap, true, Option, none, some, List, ◌∷◌, arith}
use ssh_moonminer.Common.Int.{ℤ}
use ssh_moonminer.Common.Float.{Float}
use ssh_moonminer.Content.{Content}
use ssh_moonminer.Sim.State.{State, ActiveRun, RunRecord}
use ssh_moonminer.Sim.Dice.{Random, Math}
use ssh_moonminer.Sim.Mining.Outcome.{RunOutcome, Ended, running, ended, panicked}
use ssh_moonminer.Sim.Mining.Abandon.{
  report, report_end, flag_head, head_of, resolve_abandoned_run, resolve_emergency,
  emergency_resolve,
}
use ssh_moonminer.Sim.Mining.Endings.{Gone, abandoned-Gone}

module _ {W : Type 0} where
  -- No run is left; the outcome's record, flagged, heads the log and is the notice.
  pub record Reported (t : State W) (o : RunOutcome W) : Type 0 where
    pub over : t.run ≡ none
    pub flagged : o.rec.disconnected ≡ true
    pub logged : (older : List (RunRecord W)) × (t.run_log ≡ o.rec ∷ older)
    pub told : t.disconnect_notice ≡ some o.rec

  abbrev Told : State W × Ended W → Type 0
  Told (s, running) = Unit
  Told (s, ended o) = Reported s o
  Told (s, panicked e) = Unit

  report_end-Told :
      (s : State W) (o : RunOutcome W) (run : Option (ActiveRun W)) (older : List (RunRecord W))
      → s.run ≡ none
      → run ≡ none
      → s.run_log ≡ o.rec ∷ older
      → Told (report_end s o run)
  report_end-Told s o none older gone e log = record {
    over = gone;
    flagged = refl;
    logged = (older, ap flag_head log);
    told = ap (λ l. head_of (flag_head l) s.disconnect_notice) log;
  }
  report_end-Told s o (some run) older gone e log = absurd (ground arith)

  report-Told : (o : State W × Ended W) → Gone o → Told (report o)
  report-Told (s, running) h = tt
  report-Told (s, panicked e) h = tt
  report-Told (s, ended o) (gone, older, log) = report_end-Told s o s.run older gone gone log

module _ {W R : Type 0} ⦃F : Float W⦄ (G : Random W R) (M : Math W) where
  resolve_emergency-Told :
      (s : State W) (c : Content W) (now : ℤ) (run : Option (ActiveRun W))
      → Told (resolve_emergency G M s c now run)
  resolve_emergency-Told s c now none = tt
  resolve_emergency-Told s c now (some run) =
      report-Told (resolve_abandoned_run G M s c now) (abandoned-Gone M G s c now)

  -- Where EmergencyResolve answers an outcome, no run is left in the save, the outcome's record says
  -- that the pilot was gone, and that record is the newest of the log and the notice for the next
  -- session.
  pub emergency_resolve-Reported :
      (s t : State W) (c : Content W) (now : ℤ) (o : RunOutcome W)
      → emergency_resolve G M s c now ≡ (t, ended o)
      → Reported t o
  unfolding emergency_resolve
  emergency_resolve-Reported s t c now o answer =
      let at_end : Told (t, ended o) = rw answer at (resolve_emergency-Told s c now s.run) in at_end
