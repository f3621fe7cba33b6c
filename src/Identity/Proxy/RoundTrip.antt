-- ===== src/Identity/Proxy/RoundTrip.antt =====
-- proxy.go: what the proxy encodes is what is decoded, and nothing else is.
use ssh_moonminer.Common.{
  ◌≡◌, refl, ap, ℕ, zero, suc, ◌+◌, ◌<◌, Bool, true, false, none, some, List, [], ◌∷◌, ◌++◌, length,
  take, drop, arith, Option, ltb, ◌==◌, ==_iff, by_bool, ◌⊎◌, inl, inr, not, if◌then◌else◌,
  length-append,
}
use ssh_moonminer.Identity.Text.{
  Bytes, all, is_nil, runes, runes-IsAscii, IsAscii, IsAscii-runes, hex_encode,
}
use ssh_moonminer.Identity.Slots.{sanitize_slot}
use ssh_moonminer.Identity.Slots.Laws.{IsSlot, sanitize_slot-IsSlot, sanitize_slot-fixed}
use ssh_moonminer.Identity.Proxy.{
  Answer, given, denied, byte_at, eq_bytes, lower_hex, hex_decode, parse_slot, parse_decoded,
  parse_proxied_username, Wire, IsDigest, encode_proxied_username, unusable_slot,
}
use ssh_moonminer.Identity.Proxy.Hex.{length-hex_encode, hex_encode_plain, hex_decode-inv}

-- protocol v1: the digest in hex, a dot, the slot
abbrev pub proxied_username : Bytes → Bytes → Bytes
proxied_username fp slot = hex_encode fp ++ (b'.' ∷ slot)

module _ (x : ℕ) (ys : Bytes) where
  take-append : (xs : Bytes) (n : ℕ) → length xs ≡ n → take n (xs ++ (x ∷ ys)) ≡ xs
  take-append [] n e = rw (← e) refl
  take-append (c ∷ xs) zero e = absurd (omega arith)
  take-append (c ∷ xs) (suc n) e = ap (◌∷◌ c) (take-append xs n (omega arith))

  byte_at-append : (xs : Bytes) (n : ℕ) → length xs ≡ n → byte_at (xs ++ (x ∷ ys)) n ≡ x
  byte_at-append [] n e = rw (← e) refl
  byte_at-append (c ∷ xs) zero e = absurd (omega arith)
  byte_at-append (c ∷ xs) (suc n) e = byte_at-append xs n (omega arith)

  drop-append : (xs : Bytes) (n : ℕ) → length xs ≡ n → drop (suc n) (xs ++ (x ∷ ys)) ≡ ys
  drop-append [] n e = rw (← e) refl
  drop-append (c ∷ xs) zero e = absurd (omega arith)
  drop-append (c ∷ xs) (suc n) e = drop-append xs n (omega arith)

-- A text is what stands before a place, the byte there and what follows.
split_at : (s : Bytes) (n : ℕ) → n < length s → s ≡ take n s ++ (byte_at s n ∷ drop (suc n) s)
split_at [] n h = absurd (omega arith)
split_at (c ∷ cs) zero h = refl
split_at (c ∷ cs) (suc n) h = ap (◌∷◌ c) (split_at cs n (omega arith))

pub eq_bytes_refl : (s : Bytes) → eq_bytes s s ≡ true
eq_bytes_refl [] = refl
eq_bytes_refl (c ∷ cs) = ground (arith, eq_bytes_refl cs)

eq_bytes-eq : (s t : Bytes) → eq_bytes s t ≡ true → s ≡ t
eq_bytes-eq [] [] h = refl
eq_bytes-eq [] (d ∷ ds) h = absurd (ground arith)
eq_bytes-eq (c ∷ cs) [] h = absurd (ground arith)
eq_bytes-eq (c ∷ cs) (d ∷ ds) h =
    let head : c ≡ d = ground arith in rw (head, eq_bytes-eq cs ds (ground arith)) refl

parse_slot_fixed :
    (raw slot : Bytes)
    → is_nil slot ≡ false
    → sanitize_slot slot ≡ slot
    → parse_slot raw slot ≡ given (raw, slot)
unfolding parse_slot
parse_slot_fixed raw slot filled fixed = rw (filled, fixed, filled, eq_bytes_refl slot) refl

is_nil-eq : (s : Bytes) → is_nil s ≡ true → s ≡ []
is_nil-eq [] h = refl
is_nil-eq (c ∷ cs) h = absurd (ground arith)

filled-length : (s : Bytes) → is_nil s ≡ false → 0 < length s
filled-length [] h = absurd (ground arith)
filled-length (c ∷ cs) h = omega arith

length-proxied_username :
    (fp slot : Bytes) → length fp ≡ 32 → length (proxied_username fp slot) ≡ 65 + length slot
length-proxied_username fp slot h =
    omega (arith, length-append {0} (hex_encode fp) (b'.' ∷ slot), length-hex_encode fp)

-- A name in the form of the protocol is read as its two parts.
pub parse_proxied_username-proxied_username :
    (fp slot : Bytes)
    → IsDigest fp
    → is_nil slot ≡ false
    → IsSlot slot
    → parse_proxied_username (proxied_username fp slot) ≡ given (fp, slot)
unfolding parse_proxied_username
parse_proxied_username-proxied_username fp slot digest filled named =
    let size = length-proxied_username fp slot digest.0 in
    let hexes : length (hex_encode fp) ≡ 64 = omega (arith, length-hex_encode fp, digest.0) in
    let plain = hex_encode_plain fp digest.1 in
    let long : ltb (length (proxied_username fp slot)) 66 ≡ false =
      ground (arith, filled-length slot filled) in
    let short : ltb 97 (length (proxied_username fp slot)) ≡ false = ground (arith, named.short) in
    let digits : all lower_hex (runes (hex_encode fp)) ≡ true =
      rw (runes-IsAscii (hex_encode fp) plain.3) plain.0 in
    let width : (length fp == 32) ≡ true = ground (arith, digest.0) in
    rw
      (
        long,
        byte_at-append b'.' slot (hex_encode fp) 64 hexes,
        short,
        take-append b'.' slot (hex_encode fp) 64 hexes,
        drop-append b'.' slot (hex_encode fp) 64 hexes,
        digits,
        plain.1,
        width,
      )
      (parse_slot_fixed fp slot filled (sanitize_slot-fixed slot named))

parse_slot-inv :
    (raw part : Bytes) {fp slot : Bytes}
    → parse_slot raw part ≡ given (fp, slot)
    → (raw ≡ fp) × (part ≡ slot) × (sanitize_slot part ≡ slot) × (is_nil slot ≡ false)
unfolding parse_slot
parse_slot-inv raw part h = ground (arith, eq_bytes-eq (sanitize_slot part) part)

parse_decoded-inv :
    (read : Option Bytes) (part : Bytes) {fp slot : Bytes}
    → parse_decoded read part ≡ given (fp, slot)
    → (read ≡ some fp) × (length fp ≡ 32) × (parse_slot fp part ≡ given (fp, slot))
parse_decoded-inv none part h = absurd (ground arith)
parse_decoded-inv (some raw) part {fp} {slot} h =
    let step : (length raw ≡ 32) × (parse_slot raw part ≡ given (fp, slot)) = ground arith in
    let same = (parse_slot-inv raw part (step.1)).0 in
    (ap some same, rw (← same) (step.0), rw same at (step.1))

-- Behind four guards that refuse, a value comes from the last branch.
passed_guards :
    {E A : Type 0} (short dotted long digits : Bool) (e f g h : E) (last : Answer E A) {a : A}
    → (if short
        then denied e
        else if not dotted
        then denied f
        else if long
        then denied g
        else if not digits
        then denied h
        else last)
      ≡ given a
    → (short ≡ false) × (dotted ≡ true) × (digits ≡ true) × (last ≡ given a)
passed_guards short dotted long digits e f g h last p = ground arith

long_enough : (n : ℕ) → ltb n 66 ≡ false → 64 < n
long_enough n h = ground arith

parse_guards :
    (user fp slot : Bytes)
    → parse_proxied_username user ≡ given (fp, slot)
    → (64 < length user)
      × (byte_at user 64 ≡ b'.')
      × (all lower_hex (runes (take 64 user)) ≡ true)
      × (parse_decoded (hex_decode (take 64 user)) (drop 65 user) ≡ given (fp, slot))
unfolding parse_proxied_username
parse_guards user fp slot h =
    let passed =
      passed_guards (ltb (length user) 66) (byte_at user 64 == b'.') (ltb 97 (length user))
        (all lower_hex (runes (take 64 user))) _ _ _ _
        (parse_decoded (hex_decode (take 64 user)) (drop 65 user)) h in
    (long_enough (length user) (passed.0), (==_iff _ _).0 (passed.1), passed.2, passed.3)

lower_hex-IsAscii : (rs : List ℕ) → all lower_hex rs ≡ true → IsAscii rs
unfolding lower_hex
lower_hex-IsAscii [] h = tt
lower_hex-IsAscii (r ∷ rs) h = (ground arith, lower_hex-IsAscii rs (ground arith))

-- A name that is read as a digest and a slot is spelled from them, and in no other way.
pub parse_proxied_username-Spelled :
    (user fp slot : Bytes)
    → parse_proxied_username user ≡ given (fp, slot)
    → (user ≡ proxied_username fp slot) × IsDigest fp × IsSlot slot × (is_nil slot ≡ false)
parse_proxied_username-Spelled user fp slot h =
    let guards = parse_guards user fp slot h in
    let decoded = parse_decoded-inv (hex_decode (take 64 user)) (drop 65 user) (guards.3) in
    let named = parse_slot-inv fp (drop 65 user) (decoded.2) in
    let front = take 64 user in
    let plain : runes front ≡ front =
      runes-IsAscii front (IsAscii-runes front (lower_hex-IsAscii (runes front) (guards.2))) in
    let digits : all lower_hex front ≡ true = rw plain at (guards.2) in
    let hexed = hex_decode-inv front digits (decoded.0) in
    let whole : user ≡ front ++ (byte_at user 64 ∷ drop 65 user) = split_at user 64 (guards.0) in
    (
      rw (hexed.0, ← named.1, ← guards.1) whole,
      (decoded.1, hexed.1),
      rw (← named.2) (sanitize_slot-IsSlot (drop 65 user)),
      named.3,
    )

-- Where the digest of the key is 32 bytes, a name is encoded unless nothing is left of the slot,
-- and it is decoded to that digest and the sanitized slot.
pub parse_proxied_username-encode_proxied_username :
    {K : Type 0} (w : Wire K) (key : K) (slot : Bytes)
    → IsDigest (w.sha256 (w.marshal key))
    → ((sanitize_slot slot ≡ [])
        × (encode_proxied_username w (some key) slot ≡ denied unusable_slot))
      ⊎ ((user : Bytes) × (encode_proxied_username w (some key) slot ≡ given user)
          × (parse_proxied_username user ≡ given (w.sha256 (w.marshal key), sanitize_slot slot)))
unfolding encode_proxied_username
parse_proxied_username-encode_proxied_username w key slot digest =
    by_bool (is_nil (sanitize_slot slot))
      (λ gone. inl (is_nil-eq (sanitize_slot slot) gone, rw gone refl))
      (λ filled.
        let plain = hex_encode_plain (w.sha256 (w.marshal key)) digest.1 in
        inr (
          proxied_username (w.sha256 (w.marshal key)) (sanitize_slot slot),
          rw (filled, runes-IsAscii (hex_encode (w.sha256 (w.marshal key))) plain.3, plain.2) refl,
          parse_proxied_username-proxied_username (w.sha256 (w.marshal key)) (sanitize_slot slot)
              digest filled (sanitize_slot-IsSlot slot),
        ))
