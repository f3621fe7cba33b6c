-- ===== src/Scenarios/SessionRuns.antt =====
-- The session limit, and a save whose state is a number: a run is on from 100 upwards.
use ssh_moonminer.Common.{
  ◌≡◌, ◌≢◌, refl, ℕ, String, true, false, [], Option, none, some, ◌⊎◌, inl, inr, arith, leb, sym,
  ap, ◌∙◌,
}
use ssh_moonminer.Common.Int.{pos}
use ssh_moonminer.Common.Dict.{Dict, lookup, insert, lookup-insert_self}
use ssh_moonminer.Sim.Errors.{SimError, fail, done}
use ssh_moonminer.Server.Limits.{
  SessionLimits, new_session_limits, acquire, release, Counts, may_open, opened, close,
  new_session_limits-Counts, acquire-Counts, release-Counts,
}
use ssh_moonminer.Game.Actor.{
  Rules, Saves, SaveKey, Actor, policy_takeover, policy_refuse, session_closed, intent, take_over,
  detach, persist, resolve_left,
}
use ssh_moonminer.Game.Steps.{Cell, cell, Steps, stay, then_step, intended, detached}
use ssh_moonminer.Game.Durability.{Keeps, Durable, Steps-Durable, Departed, detach-saved}
use ssh_moonminer.Game.Control.{
  Unsaved, intent-exclusive, take_over-evicts, take_over-refused, Steps-Unsaved,
}

abbrev no_sessions : SessionLimits
no_sessions = new_session_limits (pos 2) (pos 1)

abbrev one_session : SessionLimits
one_session = (acquire no_sessions "a").0

acquire-Counts_example :
    ((acquire no_sessions "a").1 ≡ may_open no_sessions "a" [])
    × Counts one_session (opened (acquire no_sessions "a").1 "a" [])
acquire-Counts_example =
    acquire-Counts no_sessions "a" [] (new_session_limits-Counts (pos 2) (pos 1))

release-Counts_example :
    Counts (release one_session "a") (close "a" (opened (acquire no_sessions "a").1 "a" []))
unfolding acquire new_session_limits lookup
release-Counts_example =
    release-Counts one_session "a" (opened (acquire no_sessions "a").1 "a" [])
      acquire-Counts_example.1 (omega arith)

abbrev rules : Rules ℕ ℕ ℕ
rules = record {
  in_run = λ s. leb 100 s;
  in_belt = λ s. false;
  scanning = λ s. false;
  emergency_resolve = λ s now. 0;
  tick_run = λ s now. (s, none);
  tick_scan = λ s. s;
  tick_belt = λ s. s;
  see = λ s now. s;
  encode = λ s. some s;
  version = λ s. pos 1;
}

abbrev saves : Saves (Dict ℕ) ℕ
saves = record { save_state = λ d fp slot p version now. (insert fp p d, true) }

abbrev load : Dict ℕ → String → String → Option ℕ
load d fp slot = lookup fp d

saves-Keeps : Keeps saves load
saves-Keeps = record {
  saved =
      λ d e fp slot p version now h. ap (λ r. lookup fp r.0) (sym h) ∙ lookup-insert_self fp p d;
}

abbrev pilot_key : SaveKey
pilot_key = record { fingerprint = "f"; slot = "main"; guest_id = "" }

abbrev guest_key : SaveKey
guest_key = record { fingerprint = ""; slot = ""; guest_id = "g" }

abbrev open_save : SaveKey → Actor ℕ
open_save key = record { key = key; state = 7; dirty = true; session = some 1; revision = 0 }

abbrev set_to : ℕ → ℕ → ℕ × Option SimError
set_to n s = done n

pilot_in_charge :
    (n : ℕ) → (intent rules 1 (set_to n) (open_save pilot_key)).2 ≢ some session_closed
unfolding intent
pilot_in_charge n h = ground arith

intent-exclusive_example : ◌≡◌ {A = ℕ} 1 1
intent-exclusive_example =
    intent-exclusive rules 1 1 (set_to 3) (set_to 4) (open_save pilot_key) (pilot_in_charge 3)
      (pilot_in_charge 4)

abbrev taken : Actor ℕ
taken = (take_over rules policy_takeover 2 (pos 5) (open_save pilot_key)).0

take_over-evicts_example :
    (intent rules 1 (set_to 3) taken ≡ (taken, none, some session_closed))
    × ((take_over rules policy_takeover 2 (pos 5) (open_save pilot_key)).1 ≡ some 1)
    × ((intent rules 2 (set_to 3) taken).2 ≢ some session_closed)
take_over-evicts_example =
    take_over-evicts rules 2 1 (pos 5) (set_to 3) (open_save pilot_key) (λ e. ground (arith, e))

take_over-refused_example :
    (((take_over rules policy_refuse 2 (pos 5) (open_save pilot_key)).2 ≡ true)
      × ((take_over rules policy_refuse 2 (pos 5) (open_save pilot_key)).0 ≡ open_save pilot_key)
      × ((open_save pilot_key).session ≢ none))
    ⊎ (((take_over rules policy_refuse 2 (pos 5) (open_save pilot_key)).2 ≡ false)
        × ((open_save pilot_key).session ≡ none)
        × ((take_over rules policy_refuse 2 (pos 5) (open_save pilot_key)).0.session ≡ some 2))
take_over-refused_example = take_over-refused rules 2 (pos 5) (open_save pilot_key)

abbrev start : SaveKey → Cell (Dict ℕ) ℕ
start key = cell [] (open_save key)

fresh-Durable : Durable rules saves load [] (open_save pilot_key)
unfolding Durable
fresh-Durable = inr (inl refl)

abbrev acted : SaveKey → Cell (Dict ℕ) ℕ
acted key = cell [] (intent rules 1 (set_to 150) (open_save key)).0

abbrev left_open : SaveKey → Cell (Dict ℕ) ℕ
left_open key =
    cell (detach rules saves 1 (pos 9) [] (acted key).actor).0
      (detach rules saves 1 (pos 9) [] (acted key).actor).1

set_to-Refusing :
    (s t : ℕ) (e : SimError) → set_to 150 s ≡ fail t e → rules.encode t ≡ rules.encode s
set_to-Refusing s t e h = ground arith

-- A pilot acts and leaves in a run.
visit : (key : SaveKey) → Steps rules saves (start key) (left_open key)
visit key =
    then_step (then_step (stay (start key)) (intended 1 (set_to 150) set_to-Refusing (start key)))
      (detached 1 (pos 9) (acted key))

Steps-Durable_example :
    Durable rules saves load (left_open pilot_key).disk (left_open pilot_key).actor
Steps-Durable_example =
    Steps-Durable rules saves load saves-Keeps (start pilot_key) (left_open pilot_key)
      (visit pilot_key) fresh-Durable

Steps-Unsaved_example : Unsaved rules saves (start guest_key) (left_open guest_key)
Steps-Unsaved_example =
    Steps-Unsaved rules saves (start guest_key) (left_open guest_key) (visit guest_key) refl

-- A pilot who disconnects in the middle of a run.
abbrev mid_run : Actor ℕ
mid_run = record (open_save pilot_key) { state = 150 }

mid_run-Durable : Durable rules saves load [] mid_run
unfolding Durable
mid_run-Durable = inr (inl refl)

dropped : (detach rules saves 1 (pos 9) [] mid_run).2 ≡ true
unfolding detach persist resolve_left
dropped = refl

detach-saved_example :
    ((detach rules saves 1 (pos 9) [] mid_run).1.session ≡ none)
    × (load (detach rules saves 1 (pos 9) [] mid_run).0 "f" "main"
        ≡ rules.encode (detach rules saves 1 (pos 9) [] mid_run).1.state)
    × Departed rules saves load 1 (pos 9) mid_run (detach rules saves 1 (pos 9) [] mid_run).1.state
detach-saved_example =
    detach-saved rules saves load saves-Keeps 1 (pos 9) [] mid_run mid_run-Durable refl dropped
