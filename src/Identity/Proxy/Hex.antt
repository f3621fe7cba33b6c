-- ===== src/Identity/Proxy/Hex.antt =====
-- Hex digits as hex.EncodeToString writes and hex.DecodeString reads them.
use ssh_moonminer.Common.{
  ◌≡◌, refl, ℕ, ◌+◌, ◌-◌, ◌*◌, ltb, if◌then◌else◌, by_option, ◌/◌, ◌%◌, ◌<◌, true, some, [], ◌∷◌,
  map, All, length, arith,
}
use ssh_moonminer.Identity.Text.{Bytes, all, IsAscii, to_lower, hex_digit, hex_encode}
use ssh_moonminer.Identity.Proxy.{lower_hex, from_hex, hex_decode}

abbrev pub AreBytes : Bytes → Type 0
AreBytes = All (λ b. b < 256)

hex_digit_plain :
    (n : ℕ)
    → n < 16
    → (lower_hex (hex_digit n) ≡ true)
      × (from_hex (hex_digit n) ≡ some n)
      × (to_lower (hex_digit n) ≡ hex_digit n)
      × (hex_digit n < 128)
unfolding lower_hex hex_digit from_hex to_lower
hex_digit_plain n h = ground arith

pub length-hex_encode : (bs : Bytes) → length (hex_encode bs) ≡ 2 * length bs
unfolding hex_encode
length-hex_encode [] = omega arith
length-hex_encode (b ∷ bs) = omega (arith, length-hex_encode bs)

pub hex_encode_plain :
    (bs : Bytes)
    → AreBytes bs
    → (all lower_hex (hex_encode bs) ≡ true)
      × (hex_decode (hex_encode bs) ≡ some bs)
      × (map to_lower (hex_encode bs) ≡ hex_encode bs)
      × IsAscii (hex_encode bs)
unfolding hex_encode hex_decode
hex_encode_plain [] h = (refl, refl, refl, tt)
hex_encode_plain (b ∷ bs) h =
    let high = hex_digit_plain (b / 16) (omega arith) in
    let low = hex_digit_plain (b % 16) (omega arith) in
    let rest = hex_encode_plain bs h.1 in
    (
      rw (high.0, low.0) (rest.0),
      rw (high.1, low.1, rest.1) (ground arith),
      rw (high.2, low.2, rest.2) refl,
      (high.3, (low.3, rest.3)),
    )

hex_value : ℕ → ℕ
hex_value c = if ltb c b'a' then c - b'0' else c - b'a' + 10

lower_hex_plain :
    (c : ℕ)
    → lower_hex c ≡ true
    → (from_hex c ≡ some (hex_value c)) × (hex_value c < 16) × (hex_digit (hex_value c) ≡ c)
unfolding lower_hex from_hex hex_digit hex_value
lower_hex_plain c h = ground arith

-- What decodes from lower case digits encodes to them again.
pub hex_decode-inv :
    (s : Bytes) {raw : Bytes}
    → all lower_hex s ≡ true
    → hex_decode s ≡ some raw
    → (hex_encode raw ≡ s) × AreBytes raw
unfolding hex_decode hex_encode
hex_decode-inv [] {raw} h e = let nil : raw ≡ [] = ground arith in rw nil (refl, tt)
hex_decode-inv (c ∷ []) h e = absurd (ground arith)
hex_decode-inv (c ∷ d ∷ rest) {raw} h e =
    let high = lower_hex_plain c (ground arith) in
    let low = lower_hex_plain d (ground arith) in
    by_option (hex_decode rest) (λ gone. absurd (ground (arith, gone, high.0, low.0)))
      (λ bs found.
        let more = hex_decode-inv rest (ground arith) found in
        let whole : raw ≡ (hex_value c * 16 + hex_value d) ∷ bs =
          ground (arith, found, high.0, low.0) in
        let up : (hex_value c * 16 + hex_value d) / 16 ≡ hex_value c = omega (arith, low.1) in
        let down : (hex_value c * 16 + hex_value d) % 16 ≡ hex_value d = omega (arith, low.1) in
        rw whole
          (rw (up, down, high.2, low.2, more.0) refl, (omega (arith, high.1, low.1), more.1)))
