-- ===== src/Game/Control.antt =====
-- Who controls an open save, and that a guest's never reaches the disk.
use ssh_moonminer.Common.{
  ◌≡◌, refl, ap, ◌∙◌, ◌≢◌, ◌⊎◌, ℕ, true, false, Option, none, some, arith, by_option,
}
use ssh_moonminer.Common.Int.{ℤ}
use ssh_moonminer.Sim.Errors.{SimError}
use ssh_moonminer.Game.Actor.{
  Rules, Saves, Actor, session_closed, policy_takeover, policy_refuse, is_guest, intent, tick,
  take_over, resolve_left, let_go, detach, evict, persist, final_flush, snapshot,
}
use ssh_moonminer.Game.Steps.{
  Cell, Step, intended, ticked, autosaved, attached, detached, evicted, flushed, Steps, stay,
  then_step,
}

module _ {S P O : Type 0} (R : Rules S P O) where
  -- Two sessions whose actions an actor takes are the same session.
  pub intent-exclusive :
      (i j : ℕ) (f g : S → S × Option SimError) (a : Actor S)
      → (intent R i f a).2 ≢ some session_closed
      → (intent R j g a).2 ≢ some session_closed
      → i ≡ j
  unfolding intent
  intent-exclusive i j f g a h k = ground arith

  -- After a takeover the new session is in control: an action of any other session, the old
  -- holder's included, is answered that the session is closed and leaves the actor as it is. The
  -- old holder, if there was one, is the session to kick.
  pub take_over-evicts :
      (id other : ℕ) (now : ℤ) (apply : S → S × Option SimError) (a : Actor S)
      → other ≢ id
      → (intent R other apply (take_over R policy_takeover id now a).0
          ≡ ((take_over R policy_takeover id now a).0, none, some session_closed))
        × ((take_over R policy_takeover id now a).1 ≡ a.session)
        × ((intent R id apply (take_over R policy_takeover id now a).0).2 ≢ some session_closed)
  unfolding take_over intent
  take_over-evicts id other now apply a h = (
    ground arith,
    refl,
    by_option (apply (R.see a.state now)).1 (λ e. ground (arith, e)) (λ x e. ground (arith, e)),
  )

  -- Where sessions are refused, an attach to a save that is open is refused and changes nothing,
  -- and one that is not refused finds no holder.
  pub take_over-refused :
      (id : ℕ) (now : ℤ) (a : Actor S)
      → (((take_over R policy_refuse id now a).2 ≡ true)
          × ((take_over R policy_refuse id now a).0 ≡ a)
          × (a.session ≢ none))
        ⊎ (((take_over R policy_refuse id now a).2 ≡ false)
            × (a.session ≡ none)
            × ((take_over R policy_refuse id now a).0.session ≡ some id))
  unfolding take_over
  take_over-refused id now a = ground arith

module _ {S P O D : Type 0} (R : Rules S P O) (V : Saves D P) where
  abbrev pub Unsaved : Cell D S → Cell D S → Type 0
  Unsaved c e = (e.disk ≡ c.disk) × (is_guest e.actor.key ≡ true)

  persist-guest :
      (now : ℤ) (d : D) (a : Actor S) → is_guest a.key ≡ true → persist R V now d a ≡ (d, a, true)
  unfolding persist
  persist-guest now d a h = rw (persist, h)

  persist_unsaved :
      (now : ℤ) (d : D) (a : Actor S)
      → is_guest a.key ≡ true
      → ((persist R V now d a).0 ≡ d) × (is_guest (persist R V now d a).1.key ≡ true)
  persist_unsaved now d a h = (
    ap (λ r. r.0) (persist-guest now d a h),
    ap (λ r. is_guest r.1.key) (persist-guest now d a h) ∙ h,
  )

  let_go-guest :
      (id : ℕ) (now : ℤ) (a : Actor S)
      → is_guest a.key ≡ true
      → is_guest (let_go R id now a).key ≡ true
  unfolding resolve_left
  let_go-guest id now a h = ground arith

  resolve_left-guest : (now : ℤ) (a : Actor S) → is_guest a.key ≡ true → resolve_left R now a ≡ a
  unfolding resolve_left
  resolve_left-guest now a h = rw (h, resolve_left)

  Step-Unsaved : (c e : Cell D S) → Step R V c e → is_guest c.actor.key ≡ true → Unsaved c e
  unfolding intent tick snapshot take_over evict detach final_flush resolve_left
  Step-Unsaved c e (intended id apply steady _) h = (refl, ground arith)
  Step-Unsaved c e (ticked now _) h = (refl, ground arith)
  Step-Unsaved c e (autosaved now _) h = persist_unsaved now c.disk c.actor h
  Step-Unsaved c e (attached policy_takeover id now _) h = (refl, ground arith)
  Step-Unsaved c e (attached policy_refuse id now _) h = (refl, ground arith)
  Step-Unsaved c e (detached id now _) h =
      persist_unsaved now c.disk (let_go R id now c.actor) (let_go-guest id now c.actor h)
  Step-Unsaved c e (evicted now _) h = (refl, ground arith)
  Step-Unsaved c e (flushed now _) h =
      persist_unsaved now c.disk (resolve_left R now c.actor)
        (ap (λ a. is_guest a.key) (resolve_left-guest now c.actor h) ∙ h)

  -- Whatever happens to a guest's save, in any order, the disk stays as it was.
  pub Steps-Unsaved : (c e : Cell D S) → Steps R V c e → is_guest c.actor.key ≡ true → Unsaved c e
  Steps-Unsaved c e (stay _) h = (refl, h)
  Steps-Unsaved c e (then_step {d = m} before last) h =
      let (same, guest) = Steps-Unsaved c m before h in
      let (same_last, guest_last) = Step-Unsaved m e last guest in (same_last ∙ same, guest_last)
