-- ===== src/Identity/Proxy.antt =====
-- proxy.go: the user names in which the arcade's proxy passes on who a player is.
pub mod Hex
pub mod RoundTrip
use ssh_moonminer.Common.{
  ◌≡◌, ℕ, zero, suc, ◌+◌, ◌-◌, ◌*◌, ◌<◌, Bool, true, false, not, ◌&&◌, ◌||◌, Option, none, some,
  List, [], ◌∷◌, ◌++◌, map, All, length, take, drop, ltb, leb, ◌==◌, if◌then◌else◌,
}
use ssh_moonminer.Identity.Text.{Bytes, within, all, is_nil, runes, to_lower, hex_encode}
use ssh_moonminer.Identity.Slots.{sanitize_slot}

-- Every reason is wrapped in ErrProxiedIdentity.
pub data ProxiedError : Type 0 where
  username_too_short missing_separator username_too_long invalid_hex empty_slot : ProxiedError
  invalid_slot : Bytes → ProxiedError
  invalid_guest_token guest_access_disabled guest_key_metadata : ProxiedError

pub data EncodeError : Type 0 where
  nil_key unusable_slot : EncodeError

-- A value, or the error in its place.
pub data Answer (E A : Type 0) : Type 0 where
  given : A → Answer E A
  denied : E → Answer E A

-- u[i]; the callers stay in range.
abbrev pub byte_at : Bytes → ℕ → ℕ
byte_at [] i = 0
byte_at (b ∷ bs) zero = b
byte_at (b ∷ bs) (suc i) = byte_at bs i

abbrev pub eq_bytes : Bytes → Bytes → Bool
eq_bytes [] [] = true
eq_bytes [] (c ∷ cs) = false
eq_bytes (b ∷ bs) [] = false
eq_bytes (b ∷ bs) (c ∷ cs) = b == c && eq_bytes bs cs

unfoldable pub lower_hex : ℕ → Bool
lower_hex c = within b'0' b'9' c || within b'a' b'f' c

-- hex.DecodeString takes upper case letters too.
unfoldable pub from_hex : ℕ → Option ℕ
from_hex c =
    if within b'0' b'9' c
    then some (c - b'0')
    else if within b'a' b'f' c
    then some (c - b'a' + 10)
    else if within b'A' b'F' c
    then some (c - b'A' + 10)
    else none

abbrev join_hex : Option ℕ → Option ℕ → Option Bytes → Option Bytes
join_hex none low rest = none
join_hex (some h) none rest = none
join_hex (some h) (some l) none = none
join_hex (some h) (some l) (some bs) = some ((h * 16 + l) ∷ bs)

unfoldable pub hex_decode : Bytes → Option Bytes
hex_decode [] = some []
hex_decode (c ∷ []) = none
hex_decode (c ∷ d ∷ rest) = join_hex (from_hex c) (from_hex d) (hex_decode rest)

-- The part after the separator.
unfoldable pub parse_slot : Bytes → Bytes → Answer ProxiedError (Bytes × Bytes)
parse_slot raw slot_part =
    if is_nil slot_part
    then denied empty_slot
    else let slot = sanitize_slot slot_part in
      if is_nil slot || not (eq_bytes slot slot_part)
      then denied (invalid_slot slot_part)
      else given (raw, slot)

abbrev pub parse_decoded : Option Bytes → Bytes → Answer ProxiedError (Bytes × Bytes)
parse_decoded none slot_part = denied invalid_hex
parse_decoded (some raw) slot_part =
    if not (length raw == 32) then denied invalid_hex else parse_slot raw slot_part

unfoldable pub parse_proxied_username : Bytes → Answer ProxiedError (Bytes × Bytes)
parse_proxied_username username =
    if ltb (length username) 66
    then denied username_too_short
    else if not (byte_at username 64 == b'.')
    then denied missing_separator
    else if ltb 97 (length username)
    then denied username_too_long
    else if not (all lower_hex (runes (take 64 username)))
    then denied invalid_hex
    else parse_decoded (hex_decode (take 64 username)) (drop 65 username)

-- What the package takes of a key, and the digest that it makes of it.
pub record Wire (K : Type 0) : Type 0 where
  pub marshal : K → Bytes
  pub authorized : K → Bytes  -- gossh.MarshalAuthorizedKey
  pub sha256 : Bytes → Bytes

-- A digest is 32 bytes.
abbrev pub IsDigest : Bytes → Type 0
IsDigest sum = (length sum ≡ 32) × All (λ b. b < 256) sum

-- strings.ToLower on a text of hex digits, which are runes of one byte.
unfoldable pub encode_proxied_username :
    {K : Type 0} → Wire K → Option K → Bytes → Answer EncodeError Bytes
encode_proxied_username w none slot = denied nil_key
encode_proxied_username w (some key) slot =
    let slot = sanitize_slot slot in
    if is_nil slot
    then denied unusable_slot
    else given (map to_lower (runes (hex_encode (w.sha256 (w.marshal key)))) ++ (b'.' ∷ slot))
