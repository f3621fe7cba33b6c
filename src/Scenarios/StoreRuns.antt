-- ===== src/Scenarios/StoreRuns.antt =====
-- The store with one account and one save, whose state is a number.
use ssh_moonminer.Common.{
  ◌≡◌, refl, ℕ, String, true, false, Option, none, some, [], ◌∷◌, ◌++◌, ◌⊎◌, inr, arith,
}
use ssh_moonminer.Common.Int.{ℤ, pos}
use ssh_moonminer.Identity.Slots.{slot_char}
use ssh_moonminer.Sim.Errors.{SimError, fail, done}
use ssh_moonminer.Game.Actor.{Rules, Actor, intent}
use ssh_moonminer.Game.Steps.{Cell, cell, Steps, stay, then_step, intended}
use ssh_moonminer.Game.Durability.{Durable}
use ssh_moonminer.Store.Tables.{
  SaveRow, Database, no_row_for_key, invalid_key, driver_failed, fails, tried, known, find_row,
  rows_affected, insert_save,
}
use ssh_moonminer.Store.{
  valid_keys, row, missing, opened, refused, load_save, save_state, load_or_create_save,
}
use ssh_moonminer.Store.Keeping.{written, load_save-save_state, save_state_refused}
use ssh_moonminer.Store.Opening.{load_or_create_save_opens, load_or_create_save-load_or_create_save}
use ssh_moonminer.Store.Soundness.{IsSound, write, perform, perform-IsSound}
use ssh_moonminer.Store.Backing.{store_saves, stored_state, Steps-Stored}
use ssh_moonminer.Store.Migrations.{Schema, migrations, migrate, Advanced, migrate-Advanced}

abbrev first_row : SaveRow ℕ
first_row = record {
  fingerprint = "f";
  slot = "main";
  created_at = pos 1;
  updated_at = pos 1;
  state = 7;
  state_version = pos 1;
}

abbrev database : Database ℕ
database = record {
  accounts =
      record { fingerprint = "f"; public_key = "k"; created_at = pos 1; last_seen = pos 1 } ∷ [];
  saves = first_row ∷ [];
  failures = [];
}

abbrev saved : Database ℕ
saved = (save_state "f" "main" 8 (pos 1) (pos 5) database).0

save_went : save_state "f" "main" 8 (pos 1) (pos 5) database ≡ (saved, none)
unfolding save_state valid_keys slot_char rows_affected
save_went = refl

load_save-save_state_example :
    ((old : SaveRow ℕ) × (find_row "f" "main" database.saves ≡ some old)
      × (((fails saved ≡ true) × ((load_save "f" "main" saved).1 ≡ missing driver_failed))
          ⊎ ((fails saved ≡ false)
              × ((load_save "f" "main" saved).1 ≡ row (written "f" "main" 8 (pos 1) (pos 5) old)))))
    × (((◌≡◌ {A = String} "g" "f") × (◌≡◌ {A = String} "main" "main"))
        ⊎ (find_row "g" "main" saved.saves ≡ find_row "g" "main" database.saves))
load_save-save_state_example =
    load_save-save_state "f" "main" 8 (pos 1) (pos 5) "g" "main" database saved save_went

abbrev unsaved : Database ℕ
unsaved = (save_state "g" "main" 8 (pos 1) (pos 5) database).0

save_refused : save_state "g" "main" 8 (pos 1) (pos 5) database ≡ (unsaved, some no_row_for_key)
unfolding save_state valid_keys slot_char rows_affected
save_refused = refl

save_state_refused_example :
    (unsaved.saves ≡ database.saves)
    × (unsaved.accounts ≡ database.accounts)
    × (((no_row_for_key ≡ invalid_key) × (valid_keys "g" "main" ≡ false))
        ⊎ (((no_row_for_key ≡ driver_failed) × (fails database ≡ true))
            ⊎ ((no_row_for_key ≡ no_row_for_key) × (find_row "g" "main" database.saves ≡ none))))
save_state_refused_example =
    save_state_refused "g" "main" 8 (pos 1) (pos 5) database unsaved no_row_for_key save_refused

abbrev second_row : SaveRow ℕ
second_row = record {
  fingerprint = "f";
  slot = "alt";
  created_at = pos 6;
  updated_at = pos 6;
  state = 0;
  state_version = pos 1;
}

abbrev created : Database ℕ
created = (load_or_create_save "f" "alt" (pos 6) (some (0, pos 1)) database).0

alt_created :
    load_or_create_save "f" "alt" (pos 6) (some (0, pos 1)) database
    ≡ (created, opened second_row true)
unfolding load_or_create_save load_save valid_keys slot_char find_row insert_save known
alt_created = refl

load_or_create_save_opens_example :
    (find_row "f" "alt" created.saves ≡ some second_row)
    × (((true ≡ false) × (created.saves ≡ database.saves))
        ⊎ ((true ≡ true)
            × (find_row "f" "alt" database.saves ≡ none)
            × (created.saves ≡ database.saves ++ second_row ∷ [])
            × (pos 6 ≡ pos 6)
            × (◌≡◌ {A = Option (ℕ × ℤ)} (some (0, pos 1)) (some (0, pos 1)))))
load_or_create_save_opens_example =
    load_or_create_save_opens "f" "alt" (pos 6) (some (0, pos 1)) database created second_row true
      alt_created

load_or_create_save-load_or_create_save_example :
    ((fails created ≡ true)
      × ((load_or_create_save "f" "alt" (pos 9) none created).1 ≡ refused driver_failed))
    ⊎ (load_or_create_save "f" "alt" (pos 9) none created
        ≡ (tried created, opened second_row false))
load_or_create_save-load_or_create_save_example =
    load_or_create_save-load_or_create_save "f" "alt" (pos 6) (pos 9) (some (0, pos 1)) none
      database created second_row true alt_created

database-IsSound : IsSound database
unfolding known find_row
database-IsSound = record {
  accounts_differ = (refl, tt);
  saves_differ = (refl, tt);
  saves_owned = (refl, tt);
}

perform-IsSound_example : IsSound (perform (write "f" "main" 8 (pos 1) (pos 5)) database)
perform-IsSound_example =
    perform-IsSound (write "f" "main" 8 (pos 1) (pos 5)) database database-IsSound

abbrev unmigrated : Schema
unmigrated = record { user_version = 0; committed = []; failures = [] }

migrate-Advanced_example : Advanced migrations unmigrated (migrate migrations unmigrated)
migrate-Advanced_example =
    migrate-Advanced migrations unmigrated
      (record { within_scripts = omega arith; in_order = refl })

-- A state that is a number, of which nothing but a write makes a new one.
abbrev plain_rules : Rules ℕ ℕ ℕ
plain_rules = record {
  in_run = λ s. false;
  in_belt = λ s. false;
  scanning = λ s. false;
  emergency_resolve = λ s now. s;
  tick_run = λ s now. (s, none);
  tick_scan = λ s. s;
  tick_belt = λ s. s;
  see = λ s now. s;
  encode = λ s. some s;
  version = λ s. pos 1;
}

abbrev pilot : Actor ℕ
pilot = record {
  key = record { fingerprint = "f"; slot = "main"; guest_id = "" };
  state = 7;
  dirty = false;
  session = some 1;
  revision = 0;
}

abbrev set_to : ℕ → ℕ → ℕ × Option SimError
set_to n s = done n

set_to-Refusing :
    (s t : ℕ) (e : SimError) → set_to 9 s ≡ fail t e → plain_rules.encode t ≡ plain_rules.encode s
set_to-Refusing s t e h = ground arith

abbrev opened_cell : Cell (Database ℕ) ℕ
opened_cell = cell database pilot

abbrev acted_cell : Cell (Database ℕ) ℕ
acted_cell = cell database (intent plain_rules 1 (set_to 9) pilot).0

act : Steps plain_rules store_saves opened_cell acted_cell
act = then_step (stay opened_cell) (intended 1 (set_to 9) set_to-Refusing opened_cell)

opened-Durable : Durable plain_rules store_saves stored_state database pilot
unfolding Durable find_row
opened-Durable = inr (inr refl)

Steps-Stored_example : Durable plain_rules store_saves stored_state database acted_cell.actor
Steps-Stored_example = Steps-Stored plain_rules opened_cell acted_cell act opened-Durable
