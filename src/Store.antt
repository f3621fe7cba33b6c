-- ===== src/Store.antt =====
-- The package store: the operations of store.go over the tables.
pub mod Tables
pub mod Keeping
pub mod Opening
pub mod Soundness
pub mod Backing
pub mod Migrations
use ssh_moonminer.Common.{
  ◌≡◌, ℕ, Bool, true, false, not, ◌&&◌, Option, none, some, String, List, [], ◌∷◌, ◌++◌, length,
  leb, if◌then◌else◌,
}
use ssh_moonminer.Common.{◌==◌ as nat_eq}
use text.Mathlib.Text.{◌==◌}
use ssh_moonminer.Common.Int.{ℤ}
use ssh_moonminer.Identity.Text.{all}
use ssh_moonminer.Identity.Slots.{slot_char}
use ssh_moonminer.Identity.Accounts.{codes}
use ssh_moonminer.Store.Tables.{
  SaveRow, Database, StoreError, invalid_key, no_rows, no_row_for_key, driver_failed,
  encoding_failed, fails, tried, find_row, update_rows, rows_affected, upsert_account, insert_save,
}

-- slotPattern and validateKeys
unfoldable pub valid_keys : String → String → Bool
valid_keys fingerprint slot =
    not (fingerprint == "")
    && (all slot_char (codes slot) && (leb 1 (length (codes slot)) && leb (length (codes slot)) 32))

-- A row or the reason that there is none.
pub data Found (P : Type 0) : Type 0 where
  row : SaveRow P → Found P
  missing : StoreError → Found P

-- The outcome of loading or creating: the row, and whether it was created.
pub data Opened (P : Type 0) : Type 0 where
  opened : SaveRow P → Bool → Opened P
  refused : StoreError → Opened P

module _ {P : Type 0} where
  unfoldable pub touch_account : String → String → ℤ → Database P → Database P × Option StoreError
  touch_account fp public_key now d =
      if fp == ""
      then (d, some invalid_key)
      else if fails d
      then (tried d, some driver_failed)
      else (record (tried d) { accounts = upsert_account fp public_key now d.accounts }, none)

  abbrev pub found_in : Option (SaveRow P) → Found P
  found_in none = missing no_rows
  found_in (some r) = row r

  unfoldable pub load_save : String → String → Database P → Database P × Found P
  load_save fp slot d =
      (tried d, if fails d then missing driver_failed else found_in (find_row fp slot d.saves))

  abbrev pub reopened : Database P × Found P → ℕ → Database P × Opened P
  reopened (d, missing e) inserted = (d, refused e)
  reopened (d, row r) inserted = (d, opened r (nat_eq inserted 1))

  abbrev pub after_insert :
      String → String → Database P × Option StoreError × ℕ → Database P × Opened P
  after_insert fp slot (d, some e, n) = (d, refused e)
  after_insert fp slot (d, none, n) = reopened (load_save fp slot d) n

  abbrev pub create_save : String → String → ℤ → Option (P × ℤ) → Database P → Database P × Opened P
  create_save fp slot now none d = (d, refused encoding_failed)
  create_save fp slot now (some (p, version)) d = after_insert fp slot (
      insert_save
        (record {
          fingerprint = fp;
          slot = slot;
          created_at = now;
          updated_at = now;
          state = p;
          state_version = version;
        })
        d)

  -- Only a missing row is created.
  abbrev pub after_load :
      String → String → ℤ → Option (P × ℤ) → Database P × Found P → Database P × Opened P
  after_load fp slot now fresh (d, row r) = (d, opened r false)
  after_load fp slot now fresh (d, missing no_rows) = create_save fp slot now fresh d
  after_load fp slot now fresh (d, missing invalid_key) = (d, refused invalid_key)
  after_load fp slot now fresh (d, missing no_row_for_key) = (d, refused no_row_for_key)
  after_load fp slot now fresh (d, missing driver_failed) = (d, refused driver_failed)
  after_load fp slot now fresh (d, missing encoding_failed) = (d, refused encoding_failed)

  -- `fresh` is what create answers, if it is called.
  unfoldable pub load_or_create_save :
      String → String → ℤ → Option (P × ℤ) → Database P → Database P × Opened P
  load_or_create_save fp slot now fresh d =
      if not (valid_keys fp slot)
      then (d, refused invalid_key)
      else after_load fp slot now fresh (load_save fp slot d)

  unfoldable pub save_state :
      String → String → P → ℤ → ℤ → Database P → Database P × Option StoreError
  save_state fp slot p version now d =
      if not (valid_keys fp slot)
      then (d, some invalid_key)
      else if fails d
      then (tried d, some driver_failed)
      else if nat_eq (rows_affected fp slot d.saves) 0
      then (tried d, some no_row_for_key)
      else (record (tried d) { saves = update_rows fp slot p version now d.saves }, none)

  -- AllSaves, in no order that the statement asks for.
  unfoldable pub all_saves : Database P → Database P × Option (List (SaveRow P))
  all_saves d = (tried d, if fails d then none else some d.saves)
