-- ===== src/Identity/Accounts.antt =====
-- identity.go and guest.go: the account that a session was resolved to.
use Prim.Native.Char.{code}
use Prim.Native.String.{String}
use ssh_moonminer.Common.{
  ℕ, ◌+◌, ◌-◌, ◌*◌, ◌/◌, ◌%◌, Bool, true, false, not, ◌&&◌, ◌||◌, [], ◌∷◌, ◌++◌, length, ltb, ◌==◌,
  if◌then◌else◌,
}
use ssh_moonminer.Identity.Text.{Bytes, all, is_nil, runes}
use ssh_moonminer.Identity.Slots.{sanitize_slot}
use ssh_moonminer.Identity.Proxy.{
  lower_hex, eq_bytes, Answer, given, denied, ProxiedError, invalid_guest_token, Wire,
}

-- A text literal of the source, which is ASCII.
abbrev pub codes : String → Bytes
codes String.[] = []
codes (String.◌∷◌ c s) = code c ∷ codes s

pub data Kind : Type 0 where
  invalid keyed guest : Kind

pub record SessionIdentity : Type 0 where
  pub kind : Kind
  pub guest_id : Bytes
  pub fingerprint : Bytes
  pub slot : Bytes

unfoldable pub valid_guest_id : Bytes → Bool
valid_guest_id token = length token == 32 && all lower_hex (runes token)

abbrev validate_kind : Kind → SessionIdentity → Bool
validate_kind invalid id = false
validate_kind keyed id =
    not (is_nil id.fingerprint)
    && (not (is_nil id.slot) && (eq_bytes (sanitize_slot id.slot) id.slot && is_nil id.guest_id))
validate_kind guest id = valid_guest_id id.guest_id && (is_nil id.fingerprint && is_nil id.slot)

-- SessionIdentity.Validate: whether it answers nil.
unfoldable pub validate : SessionIdentity → Bool
validate id = validate_kind id.kind id

abbrev guest_kind : Kind → Bool
guest_kind invalid = false
guest_kind keyed = false
guest_kind guest = true

abbrev pub is_guest : SessionIdentity → Bool
is_guest id = guest_kind id.kind

unfoldable pub bucket : SessionIdentity → Bytes
bucket id = if is_guest id then codes "guest:" ++ id.guest_id else codes "key:" ++ id.fingerprint

unfoldable pub label : SessionIdentity → Bytes
label id = if is_guest id then codes "GUEST" else id.slot

-- strings.HasPrefix and strings.TrimPrefix
unfoldable pub has_prefix : Bytes → Bytes → Bool
has_prefix s [] = true
has_prefix [] (p ∷ ps) = false
has_prefix (c ∷ cs) (p ∷ ps) = c == p && has_prefix cs ps

abbrev pub without : Bytes → Bytes → Bytes
without s [] = s
without [] (p ∷ ps) = []
without (c ∷ cs) (p ∷ ps) = without cs ps

unfoldable pub trim_prefix : Bytes → Bytes → Bytes
trim_prefix s prefix = if has_prefix s prefix then without s prefix else s

unfoldable pub parse_guest_username : Bytes → Answer ProxiedError Bytes
parse_guest_username user =
    let token = trim_prefix user (codes "guest.") in
    if not (has_prefix user (codes "guest.")) || not (valid_guest_id token)
    then denied invalid_guest_token
    else given token

-- base64.RawStdEncoding
base64_digit : ℕ → ℕ
base64_digit n =
    if ltb n 26
    then n + b'A'
    else if ltb n 52
    then n - 26 + b'a'
    else if ltb n 62
    then n - 52 + b'0'
    else if n == 62
    then b'+'
    else b'/'

unfoldable pub base64_encode : Bytes → Bytes
unfolding base64_digit
base64_encode [] = []
base64_encode (a ∷ []) = base64_digit (a / 4) ∷ base64_digit (a % 4 * 16) ∷ []
base64_encode (a ∷ b ∷ []) =
    base64_digit (a / 4) ∷ base64_digit (a % 4 * 16 + b / 16) ∷ base64_digit (b % 16 * 4) ∷ []
base64_encode (a ∷ b ∷ c ∷ rest) =
    base64_digit (a / 4)
    ∷ base64_digit (a % 4 * 16 + b / 16)
    ∷ base64_digit (b % 16 * 4 + c / 64)
    ∷ base64_digit (c % 64)
    ∷ base64_encode rest

unfoldable pub fingerprint_from_bytes : Bytes → Bytes
fingerprint_from_bytes sum = codes "SHA256:" ++ base64_encode sum

-- Fingerprint of a key that is there.
unfoldable pub fingerprint : {K : Type 0} → Wire K → K → Bytes
fingerprint w key = fingerprint_from_bytes (w.sha256 (w.marshal key))
