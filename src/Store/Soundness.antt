-- ===== src/Store/Soundness.antt =====
-- store.go: the constraints of the schema hold after every operation.
use ssh_moonminer.Common.{
  ◌≡◌, refl, ℕ, true, false, not, ◌||◌, Option, none, some, String, List, [], ◌∷◌, ◌++◌, arith,
  by_option, if-elim, eq_iff, All,
}
use text.Mathlib.Text.{◌==◌}
use ssh_moonminer.Common.Int.{ℤ}
use ssh_moonminer.Store.Tables.{
  Account, SaveRow, Database, StoreError, no_rows, invalid_key, no_row_for_key, driver_failed,
  encoding_failed, tried, is_row, find_row, update_rows, known, upsert_account, insert_save,
}
use ssh_moonminer.Store.{
  touch_account, load_or_create_save, save_state, load_save, all_saves, valid_keys, Found, row,
  missing, Opened, reopened, after_insert, create_save, after_load,
}
use ssh_moonminer.Store.Opening.{find_row-append_last}

-- PRIMARY KEY (fingerprint), PRIMARY KEY (fingerprint, slot) and REFERENCES accounts.
abbrev pub UniqueAccounts : List Account → Type 0
UniqueAccounts [] = Unit
UniqueAccounts (a ∷ others) = (known a.fingerprint others ≡ false) × UniqueAccounts others

module _ {P : Type 0} where
  abbrev pub UniqueSaves : List (SaveRow P) → Type 0
  UniqueSaves [] = Unit
  UniqueSaves (r ∷ rows) = (find_row r.fingerprint r.slot rows ≡ none) × UniqueSaves rows

  abbrev pub Owned : List Account → List (SaveRow P) → Type 0
  Owned accounts = All (λ r. known r.fingerprint accounts ≡ true)

  pub record IsSound (d : Database P) : Type 0 where
    pub accounts_differ : UniqueAccounts d.accounts
    pub saves_differ : UniqueSaves d.saves
    pub saves_owned : Owned d.accounts d.saves

known-upsert_account :
    (fp fp' key : String) (now : ℤ) (accounts : List Account)
    → known fp' (upsert_account fp key now accounts) ≡ (fp == fp' || known fp' accounts)
unfolding known upsert_account
known-upsert_account fp fp' key now [] = ground arith
known-upsert_account fp fp' key now (a ∷ others) = ground (
  arith,
  known-upsert_account fp fp' key now others,
  eq_iff a.fingerprint fp,
  eq_iff a.fingerprint fp',
  eq_iff fp fp',
)

upsert_account-UniqueAccounts :
    (fp key : String) (now : ℤ) (accounts : List Account)
    → UniqueAccounts accounts
    → UniqueAccounts (upsert_account fp key now accounts)
unfolding known upsert_account
upsert_account-UniqueAccounts fp key now [] h = (refl, tt)
upsert_account-UniqueAccounts fp key now (a ∷ others) h = ground (
  arith,
  upsert_account-UniqueAccounts fp key now others,
  known-upsert_account fp a.fingerprint key now others,
  eq_iff a.fingerprint fp,
  eq_iff fp a.fingerprint,
)

module _ {P : Type 0} where
  Owned-upsert_account :
      (fp key : String) (now : ℤ) (accounts : List Account) (rows : List (SaveRow P))
      → Owned accounts rows
      → Owned (upsert_account fp key now accounts) rows
  Owned-upsert_account fp key now accounts [] h = tt
  Owned-upsert_account fp key now accounts (r ∷ rows) h = (
    ground (arith, known-upsert_account fp r.fingerprint key now accounts),
    Owned-upsert_account fp key now accounts rows h.1,
  )

  module _ (fp slot : String) (p : P) (version now : ℤ) where
    Owned-update_rows :
        (accounts : List Account) (rows : List (SaveRow P))
        → Owned accounts rows
        → Owned accounts (update_rows fp slot p version now rows)
    unfolding update_rows
    Owned-update_rows accounts [] h = tt
    Owned-update_rows accounts (r ∷ rows) h = (
      if-elim (λ (t : SaveRow P). known t.fingerprint accounts ≡ true) (is_row fp slot r) (h.0)
          (h.0),
      Owned-update_rows accounts rows h.1,
    )

    none-update_rows :
        (fp' slot' : String) (rows : List (SaveRow P))
        → find_row fp' slot' rows ≡ none
        → find_row fp' slot' (update_rows fp slot p version now rows) ≡ none
    unfolding find_row update_rows
    none-update_rows fp' slot' [] h = refl
    none-update_rows fp' slot' (r ∷ rows) h = ground (arith, none-update_rows fp' slot' rows)

    update_rows-UniqueSaves :
        (rows : List (SaveRow P))
        → UniqueSaves rows
        → UniqueSaves (update_rows fp slot p version now rows)
    unfolding update_rows
    update_rows-UniqueSaves [] h = tt
    update_rows-UniqueSaves (r ∷ rows) h =
        let absent = none-update_rows r.fingerprint r.slot rows (h.0) in
        (
          if-elim
              (λ (t : SaveRow P).
                find_row t.fingerprint t.slot (update_rows fp slot p version now rows) ≡ none)
              (is_row fp slot r) absent absent,
          update_rows-UniqueSaves rows h.1,
        )

  append-UniqueSaves :
      (rows : List (SaveRow P)) (new : SaveRow P)
      → find_row new.fingerprint new.slot rows ≡ none
      → UniqueSaves rows
      → UniqueSaves (rows ++ new ∷ [])
  unfolding find_row
  append-UniqueSaves [] new h u = (refl, tt)
  append-UniqueSaves (r ∷ rows) new h u = (
    ground (
      arith,
      find_row-append_last r.fingerprint r.slot rows new,
      eq_iff r.fingerprint new.fingerprint,
      eq_iff r.slot new.slot,
      eq_iff new.fingerprint r.fingerprint,
      eq_iff new.slot r.slot,
    ),
    append-UniqueSaves rows new (ground arith) (u.1),
  )

  append-Owned :
      (accounts : List Account) (rows : List (SaveRow P)) (new : SaveRow P)
      → known new.fingerprint accounts ≡ true
      → Owned accounts rows
      → Owned accounts (rows ++ new ∷ [])
  append-Owned accounts [] new h o = (h, tt)
  append-Owned accounts (r ∷ rows) new h o = (o.0, append-Owned accounts rows new h o.1)

-- The operations that are called from outside.
pub data Call (P : Type 0) : Type 0 where
  touch : String → String → ℤ → Call P
  open_save : String → String → ℤ → Option (P × ℤ) → Call P
  write : String → String → P → ℤ → ℤ → Call P
  read_all : Call P

unfoldable pub perform : {P : Type 0} → Call P → Database P → Database P
perform (touch fp key now) d = (touch_account fp key now d).0
perform (open_save fp slot now fresh) d = (load_or_create_save fp slot now fresh d).0
perform (write fp slot p version now) d = (save_state fp slot p version now d).0
perform read_all d = (all_saves d).0

module _ {P : Type 0} where
  insert_save-IsSound :
      (new : SaveRow P) (d : Database P) → IsSound d → IsSound (insert_save new d).0
  unfolding insert_save
  insert_save-IsSound new d h =
      by_option (find_row new.fingerprint new.slot d.saves)
        (λ absent.
          ground
            (arith, absent, append-UniqueSaves d.saves new, append-Owned d.accounts d.saves new))
        (λ old found. ground (arith, found))

  tried-IsSound : (d : Database P) → IsSound d → IsSound (tried d)
  tried-IsSound d h = ground arith

  reopened-IsSound : (o : Database P × Found P) (n : ℕ) → IsSound o.0 → IsSound (reopened o n).0
  reopened-IsSound (d, missing e) n h = h
  reopened-IsSound (d, row r) n h = h

  module _ (fp slot : String) (now : ℤ) (fresh : Option (P × ℤ)) where
    after_insert-IsSound :
        (o : Database P × Option StoreError × ℕ) → IsSound o.0 → IsSound (after_insert fp slot o).0
    unfolding load_save
    after_insert-IsSound (d, some e, n) h = h
    after_insert-IsSound (d, none, n) h =
        reopened-IsSound (load_save fp slot d) n (tried-IsSound d h)

    create_save-IsSound : (d : Database P) → IsSound d → IsSound (create_save fp slot now fresh d).0
    create_save-IsSound d h = elim fresh as (λ f. IsSound (create_save fp slot now f d).0) [
      | none ↦ h
      | some (p, version) ↦ after_insert-IsSound (insert_save _ d) (insert_save-IsSound _ d h)
    ]

    after_load-IsSound :
        (o : Database P × Found P) → IsSound o.0 → IsSound (after_load fp slot now fresh o).0
    after_load-IsSound (d, row r) h = h
    after_load-IsSound (d, missing no_rows) h = create_save-IsSound d h
    after_load-IsSound (d, missing invalid_key) h = h
    after_load-IsSound (d, missing no_row_for_key) h = h
    after_load-IsSound (d, missing driver_failed) h = h
    after_load-IsSound (d, missing encoding_failed) h = h

    load_or_create-IsSound :
        (d : Database P) → IsSound d → IsSound (load_or_create_save fp slot now fresh d).0
    unfolding load_or_create_save load_save
    load_or_create-IsSound d h =
        if-elim (λ (t : Database P × Opened P). IsSound t.0) (not (valid_keys fp slot)) h
          (after_load-IsSound (load_save fp slot d) (tried-IsSound d h))

  -- Whatever is called on a sound database, and wherever the driver fails, it stays sound: no two
  -- accounts and no two saves share their keys, and every save belongs to an account.
  pub perform-IsSound : (c : Call P) (d : Database P) → IsSound d → IsSound (perform c d)
  unfolding perform touch_account save_state all_saves
  perform-IsSound (touch fp key now) d h = ground (
    arith,
    upsert_account-UniqueAccounts fp key now d.accounts,
    Owned-upsert_account fp key now d.accounts d.saves,
  )
  perform-IsSound (open_save fp slot now fresh) d h = load_or_create-IsSound fp slot now fresh d h
  perform-IsSound (write fp slot p version now) d h = ground (
    arith,
    update_rows-UniqueSaves fp slot p version now d.saves,
    Owned-update_rows fp slot p version now d.accounts d.saves,
  )
  perform-IsSound read_all d h = ground arith
