-- ===== src/Store/Keeping.antt =====
-- store.go: what is written is read back, and the other saves stay.
use ssh_moonminer.Common.{
  ◌≡◌, refl, ap, ◌∙◌, true, false, none, some, String, List, [], ◌∷◌, arith, by_bool, ◌⊎◌, inl, inr,
  eq_iff,
}
use ssh_moonminer.Common.{◌==◌ as nat_eq}
use ssh_moonminer.Common.Int.{ℤ}
use ssh_moonminer.Store.Tables.{
  SaveRow, Database, StoreError, invalid_key, driver_failed, no_row_for_key, fails, tried, is_row,
  find_row, update_rows, rows_affected,
}
use ssh_moonminer.Store.{valid_keys, save_state, load_save, found_in, row, missing}

module _ {P : Type 0} (fp slot : String) (p : P) (version now : ℤ) where
  -- A row with the new state.
  abbrev pub written : SaveRow P → SaveRow P
  written r = record r { state = p; state_version = version; updated_at = now }

  pub find_row-update_rows :
      (rows : List (SaveRow P))
      → nat_eq (rows_affected fp slot rows) 0 ≡ false
      → (old : SaveRow P) × (find_row fp slot rows ≡ some old)
        × (find_row fp slot (update_rows fp slot p version now rows) ≡ some (written old))
  unfolding find_row update_rows rows_affected
  find_row-update_rows [] h = absurd (ground arith)
  find_row-update_rows (r ∷ rows) h =
      by_bool (is_row fp slot r) (λ here. (r, rw here refl, rw (here, here) refl))
        (λ other.
          let later = find_row-update_rows rows (ground (arith, other)) in
          (later.0, rw other (later.1), rw (other, other) (later.2)))

  pub find_row-update_rows_other :
      (fp' slot' : String) (rows : List (SaveRow P))
      → ((fp' ≡ fp) × (slot' ≡ slot))
        ⊎ (find_row fp' slot' (update_rows fp slot p version now rows) ≡ find_row fp' slot' rows)
  unfolding find_row update_rows
  find_row-update_rows_other fp' slot' [] = inr refl
  find_row-update_rows_other fp' slot' (r ∷ rows) = ground (
    arith,
    find_row-update_rows_other fp' slot' rows,
    eq_iff r.fingerprint fp,
    eq_iff r.fingerprint fp',
    eq_iff r.slot slot,
    eq_iff r.slot slot',
  )

  pub save_state-inv :
      (d e : Database P)
      → save_state fp slot p version now d ≡ (e, none)
      → (nat_eq (rows_affected fp slot d.saves) 0 ≡ false)
        × (e ≡ record (tried d) { saves = update_rows fp slot p version now d.saves })
  unfolding save_state
  save_state-inv d e h = ground arith

  -- A write that went through is what is read afterwards, with the time of creation kept, except
  -- where the driver fails at the read, which then says so; and every other save is as it was.
  pub load_save-save_state :
      (fp' slot' : String) (d e : Database P)
      → save_state fp slot p version now d ≡ (e, none)
      → ((old : SaveRow P) × (find_row fp slot d.saves ≡ some old)
          × (((fails e ≡ true) × ((load_save fp slot e).1 ≡ missing driver_failed))
              ⊎ ((fails e ≡ false) × ((load_save fp slot e).1 ≡ row (written old)))))
        × (((fp' ≡ fp) × (slot' ≡ slot))
            ⊎ (find_row fp' slot' e.saves ≡ find_row fp' slot' d.saves))
  unfolding load_save
  load_save-save_state fp' slot' d e h =
      let done = save_state-inv d e h in
      let kept = find_row-update_rows d.saves (done.0) in
      (
        (
          kept.0,
          kept.1,
          by_bool (fails e) (λ broken. inl (broken, rw broken refl))
              (λ fine. inr (
                fine,
                rw fine (
                    ap found_in
                      (ap (λ (t : Database P). find_row fp slot t.saves) (done.1) ∙ kept.2)),
              )),
        ),
        rw (done.1) (find_row-update_rows_other fp' slot' d.saves),
      )

  find_row-none :
      (rows : List (SaveRow P))
      → nat_eq (rows_affected fp slot rows) 0 ≡ true
      → find_row fp slot rows ≡ none
  unfolding find_row rows_affected
  find_row-none [] h = refl
  find_row-none (r ∷ rows) h = ground (arith, find_row-none rows)

  -- A refused write changes no table; the keys were no keys, the driver failed, or there is no row.
  pub save_state_refused :
      (d e : Database P) (x : StoreError)
      → save_state fp slot p version now d ≡ (e, some x)
      → (e.saves ≡ d.saves)
        × (e.accounts ≡ d.accounts)
        × (((x ≡ invalid_key) × (valid_keys fp slot ≡ false))
            ⊎ (((x ≡ driver_failed) × (fails d ≡ true))
                ⊎ ((x ≡ no_row_for_key) × (find_row fp slot d.saves ≡ none))))
  unfolding save_state
  save_state_refused d e x h = ground (arith, find_row-none d.saves)
