-- ===== src/Sim/Frontier/Certification.antt =====
-- The ladder of ratings: what a certificate gives and asks.
use mathlib.Core.Path.{subst}
use mathlib.Core.Option.{some-injective}
use text.Mathlib.Text.{◌==◌}
use ssh_moonminer.Common.{
  String, ◌≡◌, refl, sym, ap, ◌∙◌, Bool, true, ◌&&◌, List, [], ◌∷◌, ◌++◌, some, arith, by_bool,
  by_option, ◌⊎◌, inl, inr,
}
use ssh_moonminer.Common.Int.{ℤ, pos, ◌+ℤ◌, ◌-ℤ◌, ◌≤ℤ◌, ltb_ℤ, ◌==ℤ◌, -ℤ_parts, eq_of_parts}
use ssh_moonminer.Common.Dict.{lookup}
use ssh_moonminer.Content.{Content, Rating}
use ssh_moonminer.Content.Lookup.{find}
use ssh_moonminer.Sim.Errors.{Result, ok, err, done, by_result}
use ssh_moonminer.Sim.State.{State, FrontierRecord}
use ssh_moonminer.Sim.Condition.{is_docked}
use ssh_moonminer.Sim.Tracks.{spend}
use ssh_moonminer.Sim.Frontier.{
  Qualification, row, asked, cargo_row, runs_row, or_0, frontier_record, next_rating,
  rating_requirements, all_met, certify_rating, followed_by,
}

find-accepts : {A : Type 0} (p : A → Bool) (xs : List A) {x : A} → find p xs ≡ some x → p x ≡ true
unfolding find
find-accepts p [] h = ground arith
find-accepts p (y ∷ xs) {x = x} h =
    by_bool (p y) (λ e. subst (λ z. p z ≡ true) (some-injective y x (rw e at h)) e)
      (λ e. find-accepts p xs (rw e at h))

-- A checklist in two parts is met where both are.
all_met-append : (a b : List Qualification) → all_met (a ++ b) ≡ (all_met a && all_met b)
unfolding all_met
all_met-append [] b = refl
all_met-append (q ∷ a) b = ground (arith, all_met-append a b)

-- What it takes that an answer is a checklist that is met.
abbrev IsMet : Result (List Qualification) → Type 0
IsMet (ok rows) = all_met rows ≡ true
IsMet (err e) = ⊥

IsMet-followed_by :
    (a b : Result (List Qualification)) → IsMet (followed_by a b) → IsMet a × IsMet b
IsMet-followed_by (ok a) (ok b) h = ground (arith, all_met-append a b)
IsMet-followed_by (ok a) (err e) h = absurd h
IsMet-followed_by (err x) b h = absurd h

-- Nothing is asked, or there is as much as is asked.
abbrev pub Suffices : ℤ → ℤ → Type 0
Suffices have need = (need ≤ℤ pos 0) ⊎ (need ≤ℤ have)

IsMet-row : (label : String) (have need : ℤ) → IsMet (ok (row label have need ∷ [])) → need ≤ℤ have
unfolding all_met
IsMet-row label have need h = ground arith

IsMet-asked :
    (need : ℤ) (r : Result Qualification)
    → IsMet (asked need r)
    → (need ≤ℤ pos 0) ⊎ ((q : Qualification) × (r ≡ ok q) × (q.need ≤ℤ q.have))
unfolding all_met
IsMet-asked need (ok q) h =
    by_bool (ltb_ℤ (pos 0) need) (λ e. inr (q, refl, IsMet-row q.label q.have q.need (rw e at h)))
      (λ e. inl (ground arith))
IsMet-asked need (err x) h =
    by_bool (ltb_ℤ (pos 0) need) (λ e. absurd (rw e at h)) (λ e. inl (ground arith))

Suffices-asked :
    (have need : ℤ) (r : Result Qualification)
    → ((q : Qualification) → r ≡ ok q → (q.have ≡ have) × (q.need ≡ need))
    → IsMet (asked need r)
    → Suffices have need
Suffices-asked have need r read h = elim (IsMet-asked need r h) [
  | inl free ↦ inl free
  | inr (q, e, enough) ↦ inr (rw (← (read q e).0, ← (read q e).1) enough)
]

row-inv :
    (label : String) (have need : ℤ) (q : Qualification)
    → ◌≡◌ {A = Result Qualification} (ok (row label have need)) (ok q)
    → (q.have ≡ have) × (q.need ≡ need)
row-inv label have need q h = ground arith

module _ {W : Type 0} where
  next_rating-class :
      (s : State W) (c : Content W) {r : Rating}
      → next_rating s c ≡ some r
      → r.class ≡ s.jump_class +ℤ pos 1
  unfolding next_rating
  next_rating-class s c {r = r} h =
      eq_of_parts _ _
        (ground (arith, find-accepts (λ x. x.class ==ℤ s.jump_class +ℤ pos 1) c.ratings h))

  -- The demands of a rating, each met by the pilot's record in the system that certifies it.
  abbrev pub Qualified : State W → Rating → Type 0
  Qualified s r =
      (r.price ≤ℤ s.credits)
      × Suffices (frontier_record s r.certify_in).cargo_value_sold r.req_cargo_sold_value
      × Suffices
          (or_0
            (lookup r.req_runs_destination (frontier_record s r.certify_in).runs_by_destination))
          r.req_runs_count
      × Suffices (frontier_record s r.certify_in).pirates_destroyed r.req_pirates_destroyed
      × Suffices (frontier_record s r.certify_in).legendaries_mined r.req_legendaries_mined

  cargo_row-inv :
      (c : Content W) (r : Rating) (f : FrontierRecord) {q : Qualification}
      → cargo_row c r f ≡ ok q
      → (q.have ≡ f.cargo_value_sold) × (q.need ≡ r.req_cargo_sold_value)
  unfolding cargo_row
  cargo_row-inv c r f h = ground arith

  runs_row-inv :
      (c : Content W) (r : Rating) (f : FrontierRecord) {q : Qualification}
      → runs_row c r f ≡ ok q
      → (q.have ≡ or_0 (lookup r.req_runs_destination f.runs_by_destination))
        × (q.need ≡ r.req_runs_count)
  unfolding runs_row
  runs_row-inv c r f h = ground arith

  requirements-Qualified :
      (s : State W) (c : Content W) (r : Rating)
      → next_rating s c ≡ some r
      → IsMet (rating_requirements s c)
      → Qualified s r
  unfolding rating_requirements frontier_record
  requirements-Qualified s c r e h =
      let f : FrontierRecord = frontier_record s r.certify_in in
      let pirates = ok (row "PIRATES DESTROYED" f.pirates_destroyed r.req_pirates_destroyed) in
      let legends = ok (row "LEGENDARIES MINED" f.legendaries_mined r.req_legendaries_mined) in
      let last = asked r.req_legendaries_mined legends in
      let from_pirates = followed_by (asked r.req_pirates_destroyed pirates) last in
      let from_runs = followed_by (asked r.req_runs_count (runs_row c r f)) from_pirates in
      let from_cargo = followed_by (asked r.req_cargo_sold_value (cargo_row c r f)) from_runs in
      let met : IsMet (followed_by (ok (row "CREDITS" s.credits r.price ∷ [])) from_cargo) =
        rw (e, rating_requirements) at h in
      let a = IsMet-followed_by (ok (row "CREDITS" s.credits r.price ∷ [])) from_cargo met in
      let b = IsMet-followed_by (asked r.req_cargo_sold_value (cargo_row c r f)) from_runs a.1 in
      let d = IsMet-followed_by (asked r.req_runs_count (runs_row c r f)) from_pirates b.1 in
      let g = IsMet-followed_by (asked r.req_pirates_destroyed pirates) last d.1 in
      (
        IsMet-row "CREDITS" s.credits r.price a.0,
        Suffices-asked f.cargo_value_sold r.req_cargo_sold_value (cargo_row c r f)
            (λ q k. cargo_row-inv c r f k) b.0,
        Suffices-asked (or_0 (lookup r.req_runs_destination f.runs_by_destination)) r.req_runs_count
            (runs_row c r f) (λ q k. runs_row-inv c r f k) d.0,
        Suffices-asked f.pirates_destroyed r.req_pirates_destroyed pirates (row-inv _ _ _) g.0,
        Suffices-asked f.legendaries_mined r.req_legendaries_mined legends (row-inv _ _ _) g.1,
      )

  abbrev pub Certified : State W → Content W → State W → Type 0
  Certified s c t =
      ((r : Rating) × (next_rating s c ≡ some r)
        × ((s.system_id == r.certify_in) ≡ true)
        × Qualified s r
        × (t.credits ≡ s.credits -ℤ r.price))
      × (t.jump_class ≡ s.jump_class +ℤ pos 1)
      × (pos 0 ≤ℤ t.credits)
      × (is_docked s ≡ true)

  certified :
      (s : State W) (c : Content W) (r : Rating) {t : State W}
      → next_rating s c ≡ some r
      → Qualified s r
      → is_docked s ≡ true
      → s.system_id == r.certify_in ≡ true
      → t ≡ record (spend s r.price) { jump_class = r.class }
      → Certified s c t
  certified s c r e fit docked here e_t =
      let paid = ap (λ x. x.credits) e_t in
      (
        (r, e, here, fit, paid),
        ap (λ x. x.jump_class) e_t ∙ next_rating-class s c e,
        subst (λ n. pos 0 ≤ℤ n) (sym paid) (ground (arith, -ℤ_parts s.credits r.price, fit.0)),
        docked,
      )

  -- A certificate is given only to a docked pilot, in the system that certifies, whose credits cover
  -- the price and whose record there has the cargo sold, the runs survived to the named destination,
  -- the pirates destroyed and the legendaries mined that the rating asks for. It raises the rating by
  -- exactly one class, costs its price, and leaves no debt.
  pub certify_rating-done :
      (s : State W) (c : Content W) {t : State W} → certify_rating s c ≡ done t → Certified s c t
  unfolding certify_rating
  certify_rating-done s c {t = t} h =
      by_option (next_rating s c) (λ e. ground arith)
        (λ r e.
          by_result (rating_requirements s c) (λ x q. ground arith)
            (λ rows q.
              let met : all_met rows ≡ true = ground arith in
              certified s c r {t = t} e (requirements-Qualified s c r e (rw q met)) (ground arith)
                (ground arith) (ground arith)))
