-- ===== src/Server/Limits.antt =====
-- limits.go: how many sessions may be open, in all and for one key.
use mathlib.Core.Path.{subst}
use text.Mathlib.Text.{◌==◌}
use ssh_moonminer.Common.{
  ◌≡◌, refl, sym, ap, ◌∙◌, ℕ, suc, ◌<◌, String, Bool, true, false, ◌&&◌, ◌||◌, Option, none, some,
  arith, by_bool, if◌then◌else◌, List, [], ◌∷◌, length, eq_iff,
}
use ssh_moonminer.Common.Int.{
  ℤ, pos, ◌+ℤ◌, ◌-ℤ◌, ◌==ℤ◌, ltb_ℤ, leb_ℤ, eq_of_parts, +ℤ_parts, -ℤ_parts,
}
use ssh_moonminer.Common.Dict.{Dict, lookup, insert, delete, lookup-insert, lookup-delete}

pub record SessionLimits : Type 0 where
  pub total : ℤ  -- the source's `global`
  pub per_key : Dict ℤ
  pub max_global : ℤ
  pub max_per_key : ℤ

-- A missing key of a Go map of numbers reads as 0.
abbrev pub or_none : Option ℤ → ℤ
or_none none = pos 0
or_none (some n) = n

unfoldable pub open_for : SessionLimits → String → ℤ
open_for l fp = or_none (lookup fp l.per_key)

unfoldable pub new_session_limits : ℤ → ℤ → SessionLimits
new_session_limits max_global max_per_key = record {
  total = pos 0;
  per_key = [];
  max_global = max_global;
  max_per_key = max_per_key;
}

-- The new counts, and whether the session may start.
unfoldable pub acquire : SessionLimits → String → SessionLimits × Bool
unfolding open_for
acquire l fp =
    if leb_ℤ l.max_global l.total || leb_ℤ l.max_per_key (open_for l fp) then (l, false) else (
      record l { total = l.total +ℤ pos 1; per_key = insert fp (open_for l fp +ℤ pos 1) l.per_key },
      true,
    )

-- One session fewer for a key that has `n`; a key with none left is deleted.
unfoldable pub lower : ℤ → String → Dict ℤ → Dict ℤ
lower n fp m =
    if ltb_ℤ (pos 0) n
    then if n -ℤ pos 1 ==ℤ pos 0
      then delete fp (insert fp (n -ℤ pos 1) m)
      else insert fp (n -ℤ pos 1) m
    else m

unfoldable pub release : SessionLimits → String → SessionLimits
unfolding open_for lower
release l fp = record l { total = l.total -ℤ pos 1; per_key = lower (open_for l fp) fp l.per_key }

-- The specification: the sessions that are open, each by its key.
abbrev pub count : String → List String → ℕ
count fp [] = 0
count fp (k ∷ live) = if k == fp then suc (count fp live) else count fp live

abbrev pub close : String → List String → List String
close fp [] = []
close fp (k ∷ live) = if k == fp then live else k ∷ close fp live

-- The counters stand for the list of open sessions.
unfoldable pub Counts : SessionLimits → List String → Type 0
Counts l live =
    (l.total ≡ pos (length live)) × ((fp : String) → open_for l fp ≡ pos (count fp live))

length-close :
    (fp : String) (live : List String)
    → 0 < count fp live
    → suc (length (close fp live)) ≡ length live
length-close fp [] h = omega arith
length-close fp (k ∷ live) h = ground (arith, length-close fp live)

count-close :
    (fp : String) (live : List String)
    → 0 < count fp live
    → suc (count fp (close fp live)) ≡ count fp live
count-close fp [] h = omega arith
count-close fp (k ∷ live) h = ground (arith, count-close fp live)

count-close_other :
    (fp j : String) (live : List String) → fp == j ≡ false → count j (close fp live) ≡ count j live
count-close_other fp j [] h = refl
count-close_other fp j (k ∷ live) h =
    ground (arith, eq_iff k fp, eq_iff k j, eq_iff fp j, count-close_other fp j live h)

pub new_session_limits-Counts : (g k : ℤ) → Counts (new_session_limits g k) []
unfolding Counts new_session_limits open_for lookup
new_session_limits-Counts g k = (refl, λ fp. refl)

-- Whether a session may start is decided by the list alone.
unfoldable pub may_open : SessionLimits → String → List String → Bool
may_open l fp live =
    ltb_ℤ (pos (length live)) l.max_global && ltb_ℤ (pos (count fp live)) l.max_per_key

abbrev pub opened : Bool → String → List String → List String
opened true fp live = fp ∷ live
opened false fp live = live

per_key-acquire :
    (l : SessionLimits) (fp j : String) (live : List String)
    → ((k : String) → open_for l k ≡ pos (count k live))
    → or_none (lookup j (insert fp (open_for l fp +ℤ pos 1) l.per_key)) ≡ pos (count j (fp ∷ live))
unfolding open_for
per_key-acquire l fp j live h = rw (lookup-insert fp j (open_for l fp +ℤ pos 1) l.per_key) (
    by_bool (fp == j) (λ e. ground (arith, e, eq_iff fp j, h fp, +ℤ_parts (open_for l fp) (pos 1)))
      (λ e. ground (arith, e, h j)))

acquire_refused :
    (l : SessionLimits) (fp : String)
    → (leb_ℤ l.max_global l.total || leb_ℤ l.max_per_key (open_for l fp)) ≡ true
    → acquire l fp ≡ (l, false)
unfolding acquire
acquire_refused l fp e = rw (acquire, e)

acquire_accepted :
    (l : SessionLimits) (fp : String)
    → (leb_ℤ l.max_global l.total || leb_ℤ l.max_per_key (open_for l fp)) ≡ false
    → acquire l fp ≡ (
      record l { total = l.total +ℤ pos 1; per_key = insert fp (open_for l fp +ℤ pos 1) l.per_key },
      true,
    )
unfolding acquire
acquire_accepted l fp e = rw (acquire, e)

abbrev Decided : SessionLimits → String → List String → SessionLimits × Bool → Type 0
Decided l fp live r = (r.1 ≡ may_open l fp live) × Counts r.0 (opened r.1 fp live)

-- When the counters stand for the open sessions, a request is accepted exactly when fewer
-- sessions than the two maxima are open, in all and for its key, and afterwards the counters
-- stand for the open sessions with the accepted one.
pub acquire-Counts :
    (l : SessionLimits) (fp : String) (live : List String)
    → Counts l live
    → ((acquire l fp).1 ≡ may_open l fp live)
      × Counts (acquire l fp).0 (opened (acquire l fp).1 fp live)
unfolding Counts acquire open_for may_open
acquire-Counts l fp live (total, each) =
    by_bool (leb_ℤ l.max_global l.total || leb_ℤ l.max_per_key (open_for l fp))
      (λ e.
        subst (Decided l fp live) (sym (acquire_refused l fp e))
          (ground (arith, total, each fp, e), (total, each)))
      (λ e. subst (Decided l fp live) (sym (acquire_accepted l fp e)) (
        ground (arith, total, each fp, e),
        (ground (arith, total, +ℤ_parts l.total (pos 1)), λ j. per_key-acquire l fp j live each),
      ))

lookup-lower :
    (n : ℤ) (fp j : String) (m : Dict ℤ)
    → ltb_ℤ (pos 0) n ≡ true
    → or_none (lookup j (lower n fp m)) ≡ (if fp == j then n -ℤ pos 1 else or_none (lookup j m))
unfolding lower
lookup-lower n fp j m h = ground (
  arith,
  lookup-insert fp j (n -ℤ pos 1) m,
  lookup-delete fp j (insert fp (n -ℤ pos 1) m),
  -ℤ_parts n (pos 1),
  eq_of_parts (n -ℤ pos 1) (pos 0),
)

per_key-release :
    (l : SessionLimits) (fp j : String) (live : List String)
    → ((k : String) → open_for l k ≡ pos (count k live))
    → 0 < count fp live
    → open_for (release l fp) j ≡ pos (count j (close fp live))
unfolding open_for release
per_key-release l fp j live h some_open =
    lookup-lower (open_for l fp) fp j l.per_key (ground (arith, h fp))
    ∙ by_bool (fp == j)
        (λ e. rw e (
          ground (
            arith,
            h fp,
            count-close fp live some_open,
            -ℤ_parts (open_for l fp) (pos 1),
            eq_iff fp j,
            e,
          )))
        (λ e. rw e (h j ∙ ap pos (sym (count-close_other fp j live e))))

-- When the counters stand for the open sessions, releasing the key of an open one leaves
-- counters that stand for the others.
pub release-Counts :
    (l : SessionLimits) (fp : String) (live : List String)
    → Counts l live
    → 0 < count fp live
    → Counts (release l fp) (close fp live)
unfolding Counts release open_for
release-Counts l fp live h some_open = (
  ground (arith, h.0, length-close fp live some_open, -ℤ_parts l.total (pos 1)),
  λ j. per_key-release l fp j live h.1 some_open,
)
