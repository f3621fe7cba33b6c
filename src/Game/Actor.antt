-- ===== src/Game/Actor.antt =====
-- actor.go, with the parts of session.go and manager.go that run on the actor's goroutine: each
-- function is one closure that the actor runs to its end, so a sequence of calls is a schedule.
use ssh_moonminer.Common.{
  ℕ, ◌+◌, ◌%◌, ◌^◌, String, Bool, true, false, not, ◌&&◌, ◌||◌, Option, none, some, if◌then◌else◌,
}
use ssh_moonminer.Common.{◌==◌ as nat_eq}
use text.Mathlib.Text.{◌==◌}
use ssh_moonminer.Common.Int.{ℤ}
use ssh_moonminer.Sim.Errors.{SimError}

-- What the actor calls of the simulation, on its state `S`, encoded as `P`, with outcomes `O`.
pub record Rules (S P O : Type 0) : Type 0 where
  pub in_run : S → Bool  -- state.Run != nil
  pub in_belt : S → Bool  -- state.WorldIdx >= 0
  pub scanning : S → Bool  -- state.Scan != nil
  pub emergency_resolve : S → ℤ → S
  pub tick_run : S → ℤ → S × Option O
  pub tick_scan : S → S
  pub tick_belt : S → S
  pub see : S → ℤ → S  -- state.Stats.LastSeen = now
  pub encode : S → Option P  -- none: the encoding failed
  pub version : S → ℤ

-- What it calls of the store, on a disk `D`. A save tells whether it went through.
pub record Saves (D P : Type 0) : Type 0 where
  pub save_state : D → String → String → P → ℤ → ℤ → D × Bool

pub record SaveKey : Type 0 where
  pub fingerprint : String
  pub slot : String
  pub guest_id : String

abbrev pub is_guest : SaveKey → Bool
is_guest key = not (key.guest_id == "")

-- A session stands by its number, which the manager never gives twice.
pub record Actor (S : Type 0) : Type 0 where
  pub key : SaveKey
  pub state : S
  pub dirty : Bool
  pub session : Option ℕ
  pub revision : ℕ

pub data Policy : Type 0 where
  policy_takeover policy_refuse : Policy

pub data IntentError : Type 0 where
  session_closed : IntentError
  refused : SimError → IntentError

abbrev pub refusal : Option SimError → Option IntentError
refusal none = none
refusal (some e) = some (refused e)

-- Only an action that went through marks the save.
abbrev pub touched : Option SimError → Bool → Bool
touched none dirty = true
touched (some e) dirty = dirty

abbrev pub held_by : ℕ → Option ℕ → Bool
held_by id none = false
held_by id (some j) = nat_eq j id

abbrev pub unheld : Option ℕ → Bool
unheld none = true
unheld (some j) = false

module _ {S P O : Type 0} (R : Rules S P O) where
  -- The counter is a uint64.
  unfoldable pub snapshot : Actor S → Actor S × (ℕ × S)
  snapshot a = let r = (a.revision + 1) % 2 ^ 64 in (record a { revision = r }, (r, a.state))

  -- Session.intent: a session's action on the state.
  unfoldable pub intent :
      ℕ → (S → S × Option SimError) → Actor S → Actor S × Option (ℕ × S) × Option IntentError
  unfolding snapshot
  intent id apply a =
      if not (held_by id a.session)
      then (a, none, some session_closed)
      else let (st, e) = apply a.state in
        let (b, snap) = snapshot (record a { state = st; dirty = touched e a.dirty }) in
        (b, some snap, refusal e)

  abbrev pub awake : S → Bool
  awake st = R.in_belt st || (R.in_run st || R.scanning st)

  -- The three stages of a tick; each looks at what the one before left.
  abbrev pub advance : S → ℤ → S × Option O
  advance st now =
      let (ran, out) = if R.in_run st then R.tick_run st now else (st, none) in
      let scanned = if R.scanning ran then R.tick_scan ran else ran in
      (if R.in_run scanned then scanned else R.tick_belt scanned, out)

  -- The tick, with the outcome and the snapshot that the session is sent.
  unfoldable pub tick : ℤ → Actor S → Actor S × Option O × Option (ℕ × S)
  unfolding snapshot
  tick now a =
      if not (awake a.state)
      then (a, none, none)
      else let (st, out) = advance a.state now in
        let b : Actor S = record a { state = st; dirty = true } in
        if unheld a.session
        then (b, none, none)
        else let (c, snap) = snapshot b in (c, out, some snap)

  -- The attach of a session to an open save: the actor, the session that is kicked, and
  -- whether the attach was refused.
  unfoldable pub take_over : Policy → ℕ → ℤ → Actor S → Actor S × Option ℕ × Bool
  take_over policy_refuse id now a =
      if not (unheld a.session)
      then (a, none, true)
      else (record a { session = some id; state = R.see a.state now; dirty = true }, none, false)
  take_over policy_takeover id now a =
      (record a { session = some id; state = R.see a.state now; dirty = true }, a.session, false)

  -- A run that a pilot leaves is resolved at once; a guest's is left to vanish.
  unfoldable pub resolve_left : ℤ → Actor S → Actor S
  resolve_left now a =
      if not (is_guest a.key) && R.in_run a.state
      then record a { state = R.emergency_resolve a.state now; dirty = true }
      else a

  abbrev pub let_go : ℕ → ℤ → Actor S → Actor S
  let_go id now a =
      if held_by id a.session then record (resolve_left now a) { session = none } else a

  -- The shutdown's closure for one actor, and the session that it kicks.
  unfoldable pub evict : ℤ → Actor S → Actor S × Option ℕ
  unfolding resolve_left
  evict now a =
      if unheld a.session
      then (a, none)
      else (record (resolve_left now a) { session = none }, a.session)

  module _ {D : Type 0} (V : Saves D P) where
    -- The disk, the actor, and whether the save went through.
    unfoldable pub persist : ℤ → D → Actor S → D × Actor S × Bool
    persist now d a =
        if is_guest a.key
        then (d, a, true)
        else if not a.dirty
        then (d, a, true)
        else if unheld a.session && R.in_run a.state
        then (d, a, false)
        else elim (R.encode a.state) [
          | none ↦ (d, a, false)
          | some payload ↦
              let (e, saved) =
                V.save_state d a.key.fingerprint a.key.slot payload (R.version a.state) now in
              if saved then (e, record a { dirty = false }, true) else (e, a, false)
        ]

    -- Manager.detach: the disk, the actor, and whether the actor is to stop.
    unfoldable pub detach : ℕ → ℤ → D → Actor S → D × Actor S × Bool
    unfolding persist resolve_left
    detach id now d a =
        let (e, b, saved) = persist now d (let_go id now a) in
        (e, b, unheld b.session && (is_guest b.key || not b.dirty))

    -- The end of the actor's loop.
    unfoldable pub final_flush : ℤ → D → Actor S → D × Actor S × Bool
    unfolding persist resolve_left
    final_flush now d a = persist now d (resolve_left now a)
