-- ===== src/Identity/Slots.antt =====
-- identity.go, the names of save slots.
pub mod Laws
use ssh_moonminer.Common.{
  ℕ, zero, suc, Bool, true, false, ◌&&◌, ◌||◌, List, [], ◌∷◌, map, ◌==◌, if◌then◌else◌,
}
use ssh_moonminer.Identity.Text.{Bytes, within, is_nil, runes, to_lower, trim_left, trim_right}

abbrev pub max_slot_len : ℕ
max_slot_len = 32

-- a letter, a digit, a dash or an underscore
unfoldable pub slot_char : ℕ → Bool
slot_char r = within b'a' b'z' r || (within b'0' b'9' r || (r == b'-' || r == b'_'))

-- The loop over the runes, with the room that the builder has left. A slot character is one byte.
unfoldable pub keep_slot_chars : ℕ → List ℕ → Bytes
keep_slot_chars zero rs = []
keep_slot_chars (suc room) [] = []
keep_slot_chars (suc room) (r ∷ rs) = elim (slot_char r) [
  | true ↦ r ∷ keep_slot_chars room rs
  | false ↦ keep_slot_chars (suc room) rs
]

unfoldable pub sanitize_slot : Bytes → Bytes
sanitize_slot raw =
    let lowered = map to_lower (trim_right (trim_left (runes raw))) in
    if is_nil lowered then [] else keep_slot_chars max_slot_len lowered

unfoldable pub resolve_slot : Bytes → Bytes → Bytes
resolve_slot username default_slot =
    let slot = sanitize_slot username in if is_nil slot then sanitize_slot default_slot else slot
