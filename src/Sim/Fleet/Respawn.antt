-- ===== src/Sim/Fleet/Respawn.antt =====
-- ships.go, respawnActiveShip: another ship for a lost one leaves the run log alone.
use text.Mathlib.Text.{◌==◌}
use ssh_moonminer.Common.{◌≡◌, refl, ap, ◌∙◌, sym, suc, length, String, arith, by_option, by_bool}
use Prim.Native.String.{◌++◌ as text_append}
use ssh_moonminer.Common.Int.{ℤ}
use ssh_moonminer.Common.Float.{Float}
use ssh_moonminer.Common.Dict.{lookup}
use ssh_moonminer.Content.{Content}
use ssh_moonminer.Sim.Errors.{Result, ok, err, by_result}
use ssh_moonminer.Sim.State.{State}
use ssh_moonminer.Sim.Condition.{sync_active_condition_mirror, sync_active_condition_from_legacy}
use ssh_moonminer.Sim.Shipyard.Frame.{Frame, frame-sync, legacy-Frame}
use ssh_moonminer.Sim.Fleet.{activate_ship, starter_ship_id}
use ssh_moonminer.Sim.Fleet.Yard.{
  wrecked, set_aside, free_name, fresh_ship_instance, put_fresh, grant_starter_ship,
  recovery_ship_id, respawn_active_ship,
}

ok-eq : {A : Type 0} {x y : A} → ok x ≡ ok y → x ≡ y
ok-eq h = cc

module _ {W : Type 0} where
  pub run_log-Frame : Frame (λ (t : State W). t.run_log)
  run_log-Frame = record { on_ships = λ t b. refl; on_mirrors = λ t a b. refl }

  -- A step that answers a save answers one with the same log.
  abbrev Logged : State W → Result (State W) → Type 0
  Logged s (err e) = Unit
  Logged s (ok t) = t.run_log ≡ s.run_log

  Logged-ok : (s t : State W) (r : Result (State W)) → r ≡ ok t → Logged s r → t.run_log ≡ s.run_log
  Logged-ok s t (err e) h l = absurd (ground arith)
  Logged-ok s t (ok u) h l = ap (λ v. v.run_log) (sym (ok-eq h)) ∙ l

module _ {W : Type 0} ⦃F : Float W⦄ where
  activate_ship-log :
      (s : State W) (c : Content W) (id : String) → (activate_ship s c id).run_log ≡ s.run_log
  unfolding activate_ship
  activate_ship-log s c id =
      frame-sync run_log-Frame
        (record (sync_active_condition_from_legacy s c) { active_ship_id = id }) c
      ∙ legacy-Frame run_log-Frame s c

  set_aside-Logged : (show : ℤ → String) (s : State W) → Logged s (set_aside show s)
  unfolding set_aside
  set_aside-Logged show s =
      by_option (lookup starter_ship_id s.ships) (λ e. rw (e, set_aside) refl)
        (λ old e.
          by_bool (old.system_id == s.system_id) (λ h. rw (e, h, set_aside) refl)
            (λ h.
              by_option
                (free_name show (text_append "skiff@" old.system_id) s.ships (suc (length s.ships))
                  1)
                (λ f. rw (e, h, f, set_aside) tt) (λ name f. rw (e, h, f, set_aside) refl)))

  grant_starter_ship-Logged :
      (show : ℤ → String) (s : State W) (c : Content W) → Logged s (grant_starter_ship show s c)
  unfolding grant_starter_ship put_fresh
  grant_starter_ship-Logged show s c =
      by_result (set_aside show s) (λ e h. rw (h, grant_starter_ship) tt)
        (λ t h.
          by_result (fresh_ship_instance c starter_ship_id)
            (λ e f. rw (h, f, grant_starter_ship) tt)
            (λ inst f. rw (h, f, grant_starter_ship) (Logged-ok s t _ h (set_aside-Logged show s))))

  respawn_active_ship-Logged :
      (show : ℤ → String) (s : State W) (c : Content W) → Logged s (respawn_active_ship show s c)
  unfolding respawn_active_ship
  respawn_active_ship-Logged show s c =
      by_option (recovery_ship_id (wrecked s) c)
        (λ e.
          by_result (grant_starter_ship show (wrecked s) c)
            (λ x h. rw (e, h, respawn_active_ship) tt)
            (λ t h.
              rw (e, h, respawn_active_ship)
                (activate_ship-log (sync_active_condition_mirror t c) c _
                  ∙ frame-sync run_log-Frame t c
                  ∙ Logged-ok (wrecked s) t _ h (grant_starter_ship-Logged show (wrecked s) c))))
        (λ next e. rw (e, respawn_active_ship) (activate_ship-log (wrecked s) c next))

  pub respawn_active_ship-log :
      (show : ℤ → String) (s t : State W) (c : Content W)
      → respawn_active_ship show s c ≡ ok t
      → t.run_log ≡ s.run_log
  respawn_active_ship-log show s t c h = Logged-ok s t _ h (respawn_active_ship-Logged show s c)
