-- ===== src/Store/Tables.antt =====
-- store.go and migrations.go, the tables and the SQL statements. A table is the list of its rows,
-- and a statement a function on the tables. Whether the driver fails at a statement is not known:
-- the database carries the failures to come, and a statement that fails changes no table.
use ssh_moonminer.Common.{
  ℕ, ◌+◌, Bool, false, ◌&&◌, ◌||◌, Option, none, some, String, List, [], ◌∷◌, ◌++◌, if◌then◌else◌,
}
use text.Mathlib.Text.{◌==◌}
use ssh_moonminer.Common.Int.{ℤ}

pub record Account : Type 0 where
  pub fingerprint : String
  pub public_key : String
  pub created_at : ℤ
  pub last_seen : ℤ

-- `P` stands for the encoded state, which the store never looks into.
pub record SaveRow (P : Type 0) : Type 0 where
  pub fingerprint : String
  pub slot : String
  pub created_at : ℤ
  pub updated_at : ℤ
  pub state : P
  pub state_version : ℤ

pub record Database (P : Type 0) : Type 0 where
  pub accounts : List Account
  pub saves : List (SaveRow P)
  pub failures : List Bool

pub data StoreError : Type 0 where
  invalid_key no_rows no_row_for_key driver_failed encoding_failed : StoreError

abbrev pub next_failure : List Bool → Bool
next_failure [] = false
next_failure (f ∷ fs) = f

abbrev pub later_failures : List Bool → List Bool
later_failures [] = []
later_failures (f ∷ fs) = fs

unfoldable pub known : String → List Account → Bool
known fp [] = false
known fp (a ∷ others) = a.fingerprint == fp || known fp others

-- INSERT INTO accounts … ON CONFLICT (fingerprint) DO UPDATE SET last_seen
unfoldable pub upsert_account : String → String → ℤ → List Account → List Account
upsert_account fp public_key now [] =
    record { fingerprint = fp; public_key = public_key; created_at = now; last_seen = now } ∷ []
upsert_account fp public_key now (a ∷ others) =
    if a.fingerprint == fp
    then record a { last_seen = now } ∷ others
    else a ∷ upsert_account fp public_key now others

module _ {P : Type 0} where
  -- Whether the next statement fails, and the database after it was tried.
  abbrev pub fails : Database P → Bool
  fails d = next_failure d.failures

  abbrev pub tried : Database P → Database P
  tried d = record d { failures = later_failures d.failures }

  abbrev pub is_row : String → String → SaveRow P → Bool
  is_row fp slot row = row.fingerprint == fp && row.slot == slot

  -- SELECT … WHERE fingerprint = ? AND slot = ?
  unfoldable pub find_row : String → String → List (SaveRow P) → Option (SaveRow P)
  find_row fp slot [] = none
  find_row fp slot (row ∷ rows) = if is_row fp slot row then some row else find_row fp slot rows

  -- UPDATE saves SET … WHERE fingerprint = ? AND slot = ?
  unfoldable pub update_rows : String → String → P → ℤ → ℤ → List (SaveRow P) → List (SaveRow P)
  update_rows fp slot p version now [] = []
  update_rows fp slot p version now (row ∷ rows) =
      (if is_row fp slot row
        then record row { state = p; state_version = version; updated_at = now }
        else row)
      ∷ update_rows fp slot p version now rows

  unfoldable pub rows_affected : String → String → List (SaveRow P) → ℕ
  rows_affected fp slot [] = 0
  rows_affected fp slot (row ∷ rows) =
      (if is_row fp slot row then 1 else 0) + rows_affected fp slot rows

  -- INSERT INTO saves … ON CONFLICT DO NOTHING, where the account must exist.
  abbrev pub insert_row :
      Option (SaveRow P) → SaveRow P → Database P → Database P × Option StoreError × ℕ
  insert_row (some old) new d = (d, none, 0)
  insert_row none new d =
      if known new.fingerprint d.accounts
      then (record d { saves = d.saves ++ new ∷ [] }, none, 1)
      else (d, some driver_failed, 0)

  unfoldable pub insert_save : SaveRow P → Database P → Database P × Option StoreError × ℕ
  insert_save new d =
      if fails d
      then (tried d, some driver_failed, 0)
      else insert_row (find_row new.fingerprint new.slot d.saves) new (tried d)
