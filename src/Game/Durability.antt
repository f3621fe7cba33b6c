-- ===== src/Game/Durability.antt =====
-- What is in memory and what is on disk.
use mathlib.Core.Path.{subst}
use ssh_moonminer.Common.{
  ◌≡◌, sym, ◌&&◌, ap, ◌∙◌, ℕ, String, true, false, Option, none, some, arith, by_option, ◌⊎◌, inl,
  inr,
}
use ssh_moonminer.Common.Int.{ℤ}
use ssh_moonminer.Sim.Errors.{SimError}
use ssh_moonminer.Game.Actor.{
  Rules, Saves, Actor, Policy, policy_takeover, policy_refuse, is_guest, held_by, intent, tick,
  take_over, resolve_left, let_go, detach, evict, persist, final_flush, snapshot,
}
use ssh_moonminer.Game.Steps.{
  Cell, Refusing, Step, intended, ticked, autosaved, attached, detached, evicted, flushed, Steps,
  stay, then_step,
}

-- A save that went through is what the store then gives back for that pilot and slot.
pub record Keeps {D P : Type 0} (V : Saves D P) (load : D → String → String → Option P)
    : Type 0 where
  pub saved :
      (d e : D) (fp slot : String) (p : P) (version now : ℤ)
      → V.save_state d fp slot p version now ≡ (e, true)
      → load e fp slot ≡ some p

module _ {S P O D : Type 0} (R : Rules S P O) (V : Saves D P)
    (load : D → String → String → Option P) where
  -- The save is a guest's, or it is marked dirty, or it is what is on disk.
  unfoldable pub Durable : D → Actor S → Type 0
  Durable d a =
      (is_guest a.key ≡ true)
      ⊎ ((a.dirty ≡ true) ⊎ (load d a.key.fingerprint a.key.slot ≡ R.encode a.state))

  persist-Durable :
      (K : Keeps V load) (now : ℤ) (d : D) (a : Actor S)
      → Durable d a
      → Durable (persist R V now d a).0 (persist R V now d a).1
  unfolding Durable persist
  persist-Durable K now d a h =
      by_option (R.encode a.state) (λ none_left. ground arith)
        (λ p e. ground (
          arith,
          K.saved d (persist R V now d a).0 a.key.fingerprint a.key.slot p (R.version a.state) now,
        ))

  intent-Durable :
      (id : ℕ) (apply : S → S × Option SimError)
      → Refusing R V apply
      → (d : D) (a : Actor S) → Durable d a
      → Durable d (intent R id apply a).0
  unfolding Durable intent snapshot
  intent-Durable id apply steady d a h =
      by_option (apply a.state).1 (λ fine. ground arith)
        (λ x e.
          ground
            (arith, e, steady a.state (apply a.state).0 x (ap (λ o. ((apply a.state).0, o)) e)))

  tick-Durable : (now : ℤ) (d : D) (a : Actor S) → Durable d a → Durable d (tick R now a).0
  unfolding Durable tick snapshot
  tick-Durable now d a h = ground arith

  take_over-Durable :
      (policy : Policy) (id : ℕ) (now : ℤ) (d : D) (a : Actor S)
      → Durable d a
      → Durable d (take_over R policy id now a).0
  unfolding Durable take_over
  take_over-Durable policy_takeover id now d a h = ground arith
  take_over-Durable policy_refuse id now d a h = ground arith

  resolve_left-Durable :
      (now : ℤ) (d : D) (a : Actor S) → Durable d a → Durable d (resolve_left R now a)
  unfolding Durable resolve_left
  resolve_left-Durable now d a h = ground arith

  let_go-Durable :
      (id : ℕ) (now : ℤ) (d : D) (a : Actor S) → Durable d a → Durable d (let_go R id now a)
  unfolding Durable resolve_left
  let_go-Durable id now d a h = ground arith

  evict-Durable : (now : ℤ) (d : D) (a : Actor S) → Durable d a → Durable d (evict R now a).0
  unfolding Durable evict resolve_left
  evict-Durable now d a h = ground arith

  detach-Durable :
      (K : Keeps V load) (id : ℕ) (now : ℤ) (d : D) (a : Actor S)
      → Durable d a
      → Durable (detach R V id now d a).0 (detach R V id now d a).1
  unfolding detach
  detach-Durable K id now d a h =
      persist-Durable K now d (let_go R id now a) (let_go-Durable id now d a h)

  flush-Durable :
      (K : Keeps V load) (now : ℤ) (d : D) (a : Actor S)
      → Durable d a
      → Durable (final_flush R V now d a).0 (final_flush R V now d a).1
  unfolding final_flush
  flush-Durable K now d a h =
      persist-Durable K now d (resolve_left R now a) (resolve_left-Durable now d a h)

  Step-Durable :
      (K : Keeps V load) (c e : Cell D S)
      → Step R V c e
      → Durable c.disk c.actor
      → Durable e.disk e.actor
  Step-Durable K c e (intended id apply steady _) h =
      intent-Durable id apply steady c.disk c.actor h
  Step-Durable K c e (ticked now _) h = tick-Durable now c.disk c.actor h
  Step-Durable K c e (autosaved now _) h = persist-Durable K now c.disk c.actor h
  Step-Durable K c e (attached policy id now _) h = take_over-Durable policy id now c.disk c.actor h
  Step-Durable K c e (detached id now _) h = detach-Durable K id now c.disk c.actor h
  Step-Durable K c e (evicted now _) h = evict-Durable now c.disk c.actor h
  Step-Durable K c e (flushed now _) h = flush-Durable K now c.disk c.actor h

  -- Whatever happens to an open save, in any order (actions, ticks, autosaves, attaches and
  -- detaches, shutdown), provided that the store gives back what it saved and that refused
  -- actions leave the encoding of the state alone: if at the start a registered pilot's clean
  -- actor held what is on disk, then it does at the end, so an actor that is marked clean can be
  -- dropped without loss.
  pub Steps-Durable :
      (K : Keeps V load) (c e : Cell D S)
      → Steps R V c e
      → Durable c.disk c.actor
      → Durable e.disk e.actor
  Steps-Durable K c e (stay _) h = h
  Steps-Durable K c e (then_step {d = m} before last) h =
      Step-Durable K m e last (Steps-Durable K c m before h)

  -- Saving changes nothing of the actor but its mark.
  persist-keeps :
      (now : ℤ) (d : D) (a : Actor S)
      → ((persist R V now d a).1.key ≡ a.key)
        × ((persist R V now d a).1.state ≡ a.state)
        × ((persist R V now d a).1.session ≡ a.session)
  unfolding persist
  persist-keeps now d a =
      by_option (R.encode a.state) (λ none_left. ground arith) (λ p e. ground arith)

  let_go-key : (id : ℕ) (now : ℤ) (a : Actor S) → (let_go R id now a).key ≡ a.key
  unfolding resolve_left
  let_go-key id now a = ground arith

  -- What the departure of a session makes of the state: the run that its pilot leaves is resolved.
  abbrev pub Departed : ℕ → ℤ → Actor S → S → Type 0
  Departed id now a t =
      ((held_by id a.session ≡ true)
        × (R.in_run a.state ≡ true)
        × (t ≡ R.emergency_resolve a.state now))
      ⊎ (((held_by id a.session && R.in_run a.state) ≡ false) × (t ≡ a.state))

  let_go-Departed :
      (id : ℕ) (now : ℤ) (a : Actor S)
      → is_guest a.key ≡ false
      → Departed id now a (let_go R id now a).state
  unfolding resolve_left
  let_go-Departed id now a registered = ground (arith, registered)

  -- When a detach tells the manager to drop the actor of a registered pilot, no session holds it, and
  -- its state is what the store gives back. That is the state before, with the run resolved by the
  -- emergency rules where the leaving session held the save during a run, and unchanged otherwise.
  pub detach-saved :
      (K : Keeps V load) (id : ℕ) (now : ℤ) (d : D) (a : Actor S)
      → Durable d a
      → is_guest a.key ≡ false
      → (detach R V id now d a).2 ≡ true
      → ((detach R V id now d a).1.session ≡ none)
        × (load (detach R V id now d a).0 a.key.fingerprint a.key.slot
            ≡ R.encode (detach R V id now d a).1.state)
        × Departed id now a (detach R V id now d a).1.state
  unfolding Durable detach
  detach-saved K id now d a h registered stop =
      let b : Actor S = let_go R id now a in
      let kept = persist-keeps now d b in
      let key : (persist R V now d b).1.key ≡ a.key = kept.0 ∙ let_go-key id now a in
      let same : is_guest (persist R V now d b).1.key ≡ is_guest a.key = ap is_guest key in
      (
        ground (arith, stop),
        subst
            (λ k.
              load (persist R V now d b).0 k.fingerprint k.slot
              ≡ R.encode (persist R V now d b).1.state)
            key
            (elim (detach-Durable K id now d a h) [
              | inl guest ↦ ground (arith, guest, same, registered)
              | inr (inl dirty) ↦ ground (arith, stop, dirty, same, registered)
              | inr (inr stored) ↦ stored
            ]),
        subst (Departed id now a) (sym kept.1) (let_go-Departed id now a registered),
      )
