-- ===== src/Store/Migrations.antt =====
-- migrations.go: the schema's scripts are run one by one, each in a transaction of its own.
use ssh_moonminer.Common.{
  ◌≡◌, refl, sym, ap, ◌∙◌, ℕ, zero, suc, ◌≤◌, Bool, true, false, ◌||◌, List, [], ◌∷◌, ◌++◌, length,
  take, drop, if◌then◌else◌, arith, by_bool, ◌⊎◌, inl, inr,
}
use ssh_moonminer.Store.Tables.{next_failure, later_failures}

-- The one script so far makes the two tables.
pub data Script : Type 0 where
  create_accounts_and_saves : Script

abbrev pub migrations : List Script
migrations = create_accounts_and_saves ∷ []

-- PRAGMA user_version, the scripts that were committed, and the driver's failures to come.
pub record Schema : Type 0 where
  pub user_version : ℕ
  pub committed : List Script
  pub failures : List Bool

-- A call of the driver: whether it fails, and what is left of the failures.
abbrev pub rest_after : ℕ → List Bool → List Bool
rest_after zero fs = fs
rest_after (suc calls) fs =
    if next_failure fs then later_failures fs else rest_after calls (later_failures fs)

abbrev pub some_fail : ℕ → List Bool → Bool
some_fail zero fs = false
some_fail (suc calls) fs = next_failure fs || some_fail calls (later_failures fs)

-- Begin, the script, the version, Commit: a transaction is committed whole, or nothing of it is.
unfoldable pub run_script : Script → Schema → Schema × Bool
run_script script s =
    let left = rest_after 4 s.failures in
    if some_fail 4 s.failures then (record s { failures = left }, false) else (
      record s {
        user_version = suc s.user_version;
        committed = s.committed ++ script ∷ [];
        failures = left;
      },
      true,
    )

-- The loop over the scripts from the version on.
unfoldable pub run_scripts : List Script → Schema → Schema × Bool
run_scripts [] s = (s, true)
run_scripts (script ∷ scripts) s =
    let (t, went) = run_script script s in
    let rest = run_scripts scripts t in if went then rest else (t, false)

unfoldable pub migrate : List Script → Schema → Schema × Bool
migrate scripts s =
    let read = record s { failures = later_failures s.failures } in
    if next_failure s.failures
    then (read, false)
    else run_scripts (drop s.user_version scripts) read

-- The next script is the one after those before it.
take-suc :
    (scripts : List Script) (n : ℕ) (x : Script) (rest : List Script)
    → drop n scripts ≡ x ∷ rest
    → (take (suc n) scripts ≡ take n scripts ++ x ∷ [])
      × (drop (suc n) scripts ≡ rest)
      × (suc n ≤ length scripts)
take-suc [] zero x rest h = absurd (ground arith)
take-suc [] (suc n) x rest h = absurd (ground arith)
take-suc (y ∷ ys) zero x rest h =
    let head : y ≡ x = ground arith in
    let tail : ys ≡ rest = ground arith in (rw head refl, tail, omega arith)
take-suc (y ∷ ys) (suc n) x rest h =
    let later = take-suc ys n x rest h in (ap (◌∷◌ y) (later.0), later.1, omega (arith, later.2))

take_all :
    (scripts : List Script) (n : ℕ)
    → drop n scripts ≡ []
    → n ≤ length scripts
    → take n scripts ≡ scripts
take_all [] zero h le = refl
take_all [] (suc n) h le = refl
take_all (y ∷ ys) zero h le = absurd (ground arith)
take_all (y ∷ ys) (suc n) h le = ap (◌∷◌ y) (take_all ys n h (omega arith))

length-le_of_drop-nil : (scripts : List Script) (n : ℕ) → drop n scripts ≡ [] → length scripts ≤ n
length-le_of_drop-nil [] n h = omega arith
length-le_of_drop-nil (y ∷ ys) zero h = absurd (ground arith)
length-le_of_drop-nil (y ∷ ys) (suc n) h = omega (arith, length-le_of_drop-nil ys n h)

-- Up to its version the schema has every script once, in order.
pub record IsCurrent (scripts : List Script) (s : Schema) : Type 0 where
  pub within_scripts : s.user_version ≤ length scripts
  pub in_order : s.committed ≡ take s.user_version scripts

run_script-cases :
    (x : Script) (s : Schema)
    → (((run_script x s).1 ≡ false)
        × ((run_script x s).0.user_version ≡ s.user_version)
        × ((run_script x s).0.committed ≡ s.committed))
      ⊎ (((run_script x s).1 ≡ true)
          × ((run_script x s).0.user_version ≡ suc s.user_version)
          × ((run_script x s).0.committed ≡ s.committed ++ x ∷ []))
unfolding run_script
run_script-cases x s =
    by_bool (some_fail 4 s.failures) (λ broken. inl (rw broken (refl, refl, refl)))
      (λ fine. inr (rw fine (refl, refl, refl)))

-- What a run of scripts reaches.
pub record Advanced (scripts : List Script) (s : Schema) (o : Schema × Bool) : Type 0 where
  pub current : IsCurrent scripts o.0
  pub no_lower : s.user_version ≤ o.0.user_version
  pub whole : (o.1 ≡ false) ⊎ ((o.0.user_version ≡ length scripts) × (o.0.committed ≡ scripts))

run_scripts-Advanced :
    (scripts rest : List Script) (s : Schema)
    → drop s.user_version scripts ≡ rest
    → IsCurrent scripts s
    → Advanced scripts s (run_scripts rest s)
unfolding run_scripts
run_scripts-Advanced scripts [] s e h = record {
  current = h;
  no_lower = omega arith;
  whole = inr (
    omega (arith, length-le_of_drop-nil scripts s.user_version e, h.within_scripts),
    h.in_order ∙ take_all scripts s.user_version e h.within_scripts,
  );
}
run_scripts-Advanced scripts (x ∷ rest) s e h =
    let next = take-suc scripts s.user_version x rest e in
    let t : Schema = (run_script x s).0 in
    elim (run_script-cases x s) [
      | inl (broken, same, kept) ↦ rw broken (record {
        current = record {
          within_scripts = omega (arith, same, h.within_scripts);
          in_order = kept ∙ h.in_order ∙ sym (ap (λ (n : ℕ). take n scripts) same);
        };
        no_lower = omega (arith, same);
        whole = inl refl;
      })
      | inr (fine, more, added) ↦
          let now : IsCurrent scripts t = record {
            within_scripts = omega (arith, more, next.2);
            in_order =
                added
                ∙ ap (λ (l : List Script). l ++ x ∷ []) h.in_order
                ∙ sym (next.0)
                ∙ sym (ap (λ (n : ℕ). take n scripts) more);
          } in
          let later =
            run_scripts-Advanced scripts rest t (ap (λ (n : ℕ). drop n scripts) more ∙ next.1)
              now in
          rw fine (record {
            current = later.current;
            no_lower = omega (arith, more, later.no_lower);
            whole = later.whole;
          })
    ]

-- Where each script up to the version was committed once, in order, that is so wherever a migration
-- stops; the version never sinks, and a migration that answers no error has run them all.
pub migrate-Advanced :
    (scripts : List Script) (s : Schema)
    → IsCurrent scripts s
    → Advanced scripts s (migrate scripts s)
unfolding migrate
migrate-Advanced scripts s h =
    let read : Schema = record s { failures = later_failures s.failures } in
    let current : IsCurrent scripts read = record {
      within_scripts = h.within_scripts;
      in_order = h.in_order;
    } in
    let ran = run_scripts-Advanced scripts (drop s.user_version scripts) read refl current in
    by_bool (next_failure s.failures)
      (λ broken. rw broken (record { current = current; no_lower = omega arith; whole = inl refl }))
      (λ fine.
        rw fine (record { current = ran.current; no_lower = ran.no_lower; whole = ran.whole }))
