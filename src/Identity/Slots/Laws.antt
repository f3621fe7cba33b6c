-- ===== src/Identity/Slots/Laws.antt =====
-- identity.go: sanitized slot names.
use ssh_moonminer.Common.{
  ◌≡◌, refl, ap, ℕ, zero, suc, ◌≤◌, ◌<◌, true, false, List, [], ◌∷◌, map, length, arith, Bool-cases,
  inl, inr,
}
use ssh_moonminer.Identity.Text.{
  Bytes, all, is_nil, runes, runes-IsAscii, to_lower, is_space, trim_left, trim_right, IsAscii,
}
use ssh_moonminer.Identity.Slots.{slot_char, keep_slot_chars, sanitize_slot, resolve_slot}

-- A slot name: at most 32 slot characters.
pub record IsSlot (s : Bytes) : Type 0 where
  pub spelled : all slot_char s ≡ true
  pub short : length s ≤ 32

keep_slot_chars-IsSlot :
    (room : ℕ) (rs : List ℕ)
    → (all slot_char (keep_slot_chars room rs) ≡ true) × (length (keep_slot_chars room rs) ≤ room)
unfolding keep_slot_chars
keep_slot_chars-IsSlot zero rs = (refl, omega arith)
keep_slot_chars-IsSlot (suc room) [] = (refl, omega arith)
keep_slot_chars-IsSlot (suc room) (r ∷ rs) =
    ground (arith, keep_slot_chars-IsSlot room rs, keep_slot_chars-IsSlot (suc room) rs)

pub sanitize_slot-IsSlot : (raw : Bytes) → IsSlot (sanitize_slot raw)
unfolding sanitize_slot
sanitize_slot-IsSlot raw = elim (Bool-cases (is_nil lowered)) [
  | inl e ↦ rw e (record { spelled = refl; short = omega arith })
  | inr e ↦
      let kept = keep_slot_chars-IsSlot 32 lowered in
      rw e (record { spelled = kept.0; short = kept.1 })
]
  where
    lowered : List ℕ
    lowered = map to_lower (trim_right (trim_left (runes raw)))

-- On slot characters each stage does nothing.
slot_char_plain : (c : ℕ) → slot_char c ≡ true → (to_lower c ≡ c) × (is_space c ≡ false) × (c < 128)
unfolding slot_char to_lower is_space
slot_char_plain c h = ground arith

record Plain (s : Bytes) : Type 0 where
  ascii : IsAscii s
  left : trim_left s ≡ s
  right : trim_right s ≡ s
  lower : map to_lower s ≡ s
  kept : (room : ℕ) → length s ≤ room → keep_slot_chars room s ≡ s

spelled-Plain : (s : Bytes) → all slot_char s ≡ true → Plain s
unfolding trim_left trim_right keep_slot_chars
spelled-Plain [] h = record {
  ascii = tt;
  left = refl;
  right = refl;
  lower = refl;
  kept = λ room _. elim room as (λ n. keep_slot_chars n [] ≡ []) [ zero ↦ refl | suc k ↦ refl ];
}
spelled-Plain (c ∷ cs) h =
    let here : slot_char c ≡ true = ground arith in
    let later = spelled-Plain cs (ground arith) in
    let plain = slot_char_plain c here in
    record {
      ascii = (plain.2, later.ascii);
      left = rw plain.1;
      right = rw (plain.1, later.right);
      lower = rw (plain.0, later.lower);
      kept = λ room short.
          elim room as (λ n. length (c ∷ cs) ≤ n → keep_slot_chars n (c ∷ cs) ≡ c ∷ cs) [
            | zero ↦ λ le. absurd (omega arith)
            | suc k ↦ λ le. rw (here, keep_slot_chars) (ap (◌∷◌ c) (later.kept k (omega arith)))
          ]
            short;
    }

sanitize_slot-nil : sanitize_slot [] ≡ []
unfolding sanitize_slot runes trim_left trim_right
sanitize_slot-nil = refl

-- A slot name is its own sanitized form.
pub sanitize_slot-fixed : (s : Bytes) → IsSlot s → sanitize_slot s ≡ s
unfolding sanitize_slot
sanitize_slot-fixed [] h = sanitize_slot-nil
sanitize_slot-fixed (c ∷ cs) h =
    let plain = spelled-Plain (c ∷ cs) h.spelled in
    rw (runes-IsAscii (c ∷ cs) plain.ascii, plain.left, plain.right, plain.lower)
      (plain.kept 32 h.short)

pub IsSlot-IsAscii : (s : Bytes) → IsSlot s → IsAscii s
IsSlot-IsAscii s h = (spelled-Plain s h.spelled).ascii

-- Sanitizing a name twice is sanitizing it once.
pub sanitize_slot_idem : (raw : Bytes) → sanitize_slot (sanitize_slot raw) ≡ sanitize_slot raw
sanitize_slot_idem raw = sanitize_slot-fixed (sanitize_slot raw) (sanitize_slot-IsSlot raw)

pub resolve_slot-IsSlot : (user fallback : Bytes) → IsSlot (resolve_slot user fallback)
unfolding resolve_slot
resolve_slot-IsSlot user fallback = elim (Bool-cases (is_nil (sanitize_slot user))) [
  | inl e ↦ rw e (sanitize_slot-IsSlot fallback)
  | inr e ↦ rw e (sanitize_slot-IsSlot user)
]
