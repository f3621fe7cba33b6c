-- ===== src/Store/Opening.antt =====
-- store.go, LoadOrCreateSave: a save is created once.
use ssh_moonminer.Common.{
  ◌≡◌, refl, Bool, true, false, Option, none, some, String, List, [], ◌∷◌, ◌++◌, if◌then◌else◌,
  arith, by_bool, by_option, ◌⊎◌, inl, inr,
}
use text.Mathlib.TextPositions.{eq_refl}
use ssh_moonminer.Common.Int.{ℤ}
use ssh_moonminer.Store.Tables.{
  SaveRow, Database, driver_failed, fails, tried, is_row, find_row, insert_save,
}
use ssh_moonminer.Store.{valid_keys, load_save, opened, refused, load_or_create_save}

module _ {P : Type 0} where
  pub find_row-append_last :
      (fp slot : String) (rows : List (SaveRow P)) (new : SaveRow P)
      → find_row fp slot rows ≡ none
      → find_row fp slot (rows ++ new ∷ []) ≡ (if is_row fp slot new then some new else none)
  unfolding find_row
  find_row-append_last fp slot [] new h = refl
  find_row-append_last fp slot (r ∷ rows) new h =
      ground (arith, find_row-append_last fp slot rows new)

  is_row_self :
      (fp slot : String) (r : SaveRow P)
      → r.fingerprint ≡ fp
      → r.slot ≡ slot
      → is_row fp slot r ≡ true
  is_row_self fp slot r e f = rw (e, f, eq_refl fp, eq_refl slot) refl

  module _ (fp slot : String) (now : ℤ) (fresh : Option (P × ℤ)) where
    -- Where the save is there, its row is the answer and nothing is written.
    reopened_lem :
        (d : Database P) (old : SaveRow P)
        → valid_keys fp slot ≡ true
        → find_row fp slot d.saves ≡ some old
        → load_or_create_save fp slot now fresh d
          ≡ (tried d, if fails d then refused driver_failed else opened old false)
    unfolding load_or_create_save load_save
    reopened_lem d old valid found = ground (arith, valid, found)

    -- Where it is not, one is made of what create answers.
    created_lem :
        (d e : Database P) (r : SaveRow P) (b : Bool)
        → find_row fp slot d.saves ≡ none
        → load_or_create_save fp slot now fresh d ≡ (e, opened r b)
        → (b ≡ true)
          × (e.saves ≡ d.saves ++ r ∷ [])
          × (find_row fp slot e.saves ≡ some r)
          × (r.created_at ≡ now)
          × (fresh ≡ some (r.state, r.state_version))
    unfolding load_or_create_save load_save insert_save
    created_lem d e r b absent h =
        by_option fresh (λ failed. absurd (ground (arith, absent, failed)))
          (λ (p, version) made.
            let new : SaveRow P = record {
              fingerprint = fp;
              slot = slot;
              created_at = now;
              updated_at = now;
              state = p;
              state_version = version;
            } in
            let kept : find_row fp slot (d.saves ++ new ∷ []) ≡ some new =
              rw (is_row_self fp slot new refl refl) at
                (find_row-append_last fp slot d.saves new absent) in
            ground (arith, absent, made, kept))

    opened_valid :
        (d e : Database P) (r : SaveRow P) (b : Bool)
        → load_or_create_save fp slot now fresh d ≡ (e, opened r b)
        → valid_keys fp slot ≡ true
    unfolding load_or_create_save
    opened_valid d e r b h = ground arith

    -- A save that is there is answered as it is, and nothing is written; a missing one is created
    -- now, from what create gives, after all others. Either way the answer is what is stored.
    pub load_or_create_save_opens :
        (d e : Database P) (r : SaveRow P) (b : Bool)
        → load_or_create_save fp slot now fresh d ≡ (e, opened r b)
        → (find_row fp slot e.saves ≡ some r)
          × (((b ≡ false) × (e.saves ≡ d.saves))
              ⊎ ((b ≡ true)
                  × (find_row fp slot d.saves ≡ none)
                  × (e.saves ≡ d.saves ++ r ∷ [])
                  × (r.created_at ≡ now)
                  × (fresh ≡ some (r.state, r.state_version))))
    load_or_create_save_opens d e r b h =
        by_option (find_row fp slot d.saves)
          (λ absent.
            let made = created_lem d e r b absent h in
            (made.2, inr (made.0, absent, made.1, made.3, made.4)))
          (λ old found.
            let same = reopened_lem d old (opened_valid d e r b h) found in
            ground (arith, same, found))

  -- Opened once, a save is opened again as it was and never created a second time, whatever create
  -- would then give, as long as the driver answers.
  pub load_or_create_save-load_or_create_save :
      (fp slot : String) (now later : ℤ) (fresh other : Option (P × ℤ)) (d e : Database P)
      (r : SaveRow P) (b : Bool)
      → load_or_create_save fp slot now fresh d ≡ (e, opened r b)
      → ((fails e ≡ true) × ((load_or_create_save fp slot later other e).1 ≡ refused driver_failed))
        ⊎ ((load_or_create_save fp slot later other e) ≡ (tried e, opened r false))
  load_or_create_save-load_or_create_save fp slot now later fresh other d e r b h =
      let stored = load_or_create_save_opens fp slot now fresh d e r b h in
      let again =
        reopened_lem fp slot later other e r (opened_valid fp slot now fresh d e r b h)
          (stored.0) in
      by_bool (fails e) (λ broken. inl (broken, rw (again, broken) refl))
        (λ fine. inr (rw (again, fine) refl))
