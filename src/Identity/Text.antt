-- ===== src/Identity/Text.antt =====
-- What the package identity uses of Go's texts: the bytes, the runes that `range` reads from them,
-- strings.ToLower and strings.TrimSpace on runes, and hex.EncodeToString.
use ssh_moonminer.Common.{
  ◌≡◌, refl, ℕ, zero, suc, ◌+◌, ◌-◌, ◌*◌, ◌/◌, ◌%◌, ◌<◌, Bool, true, false, ◌&&◌, ◌||◌, List, [],
  ◌∷◌, All, ltb, leb, ◌==◌, if◌then◌else◌, arith,
}

abbrev pub Bytes : Type 0
Bytes = List ℕ

abbrev pub within : ℕ → ℕ → ℕ → Bool
within lo hi c = leb lo c && leb c hi

abbrev pub all : (ℕ → Bool) → List ℕ → Bool
all test [] = true
all test (c ∷ cs) = test c && all test cs

-- RuneError
abbrev pub rune_error : ℕ
rune_error = 0xFFFD

abbrev low_second : ℕ → ℕ
low_second b = if b == 0xE0 then 0xA0 else if b == 0xF0 then 0x90 else 0x80

abbrev high_second : ℕ → ℕ
high_second b = if b == 0xED then 0x9F else if b == 0xF4 then 0x8F else 0xBF

abbrev follows : ℕ → Bool
follows = within 0x80 0xBF

-- The rune that starts at a byte, and how many bytes after that one belong to it.
rune_of_two : ℕ → Bytes → ℕ × ℕ
rune_of_two b [] = (rune_error, 0)
rune_of_two b (c ∷ rest) = if follows c then ((b - 0xC0) * 64 + (c - 0x80), 1) else (rune_error, 0)

rune_of_three : ℕ → Bytes → ℕ × ℕ
rune_of_three b [] = (rune_error, 0)
rune_of_three b (c ∷ []) = (rune_error, 0)
rune_of_three b (c ∷ d ∷ rest) =
    if within (low_second b) (high_second b) c && follows d
    then ((b - 0xE0) * 4096 + (c - 0x80) * 64 + (d - 0x80), 2)
    else (rune_error, 0)

rune_of_four : ℕ → Bytes → ℕ × ℕ
rune_of_four b [] = (rune_error, 0)
rune_of_four b (c ∷ []) = (rune_error, 0)
rune_of_four b (c ∷ d ∷ []) = (rune_error, 0)
rune_of_four b (c ∷ d ∷ e ∷ rest) =
    if within (low_second b) (high_second b) c && (follows d && follows e)
    then ((b - 0xF0) * 262144 + (c - 0x80) * 4096 + (d - 0x80) * 64 + (e - 0x80), 3)
    else (rune_error, 0)

rune_at : ℕ → Bytes → ℕ × ℕ
unfolding rune_of_two rune_of_three rune_of_four
rune_at b rest =
    if ltb b 0x80
    then (b, 0)
    else if within 0xC2 0xDF b
    then rune_of_two b rest
    else if within 0xE0 0xEF b
    then rune_of_three b rest
    else if within 0xF0 0xF4 b
    then rune_of_four b rest
    else (rune_error, 0)

runes_after : ℕ → Bytes → List ℕ
runes_after skip [] = []
runes_after zero (b ∷ bs) = (rune_at b bs).0 ∷ runes_after (rune_at b bs).1 bs
runes_after (suc skip) (b ∷ bs) = runes_after skip bs

-- for _, r := range s
unfoldable pub runes : Bytes → List ℕ
unfolding runes_after rune_at
runes s = runes_after 0 s

-- The two runes above ASCII whose lower case is a letter of ASCII are listed; that of any other is
-- above ASCII too, where no test of the package tells runes apart.
unfoldable pub to_lower : ℕ → ℕ
to_lower r =
    if within b'A' b'Z' r
    then r + 32
    else if r == 0x130
    then b'i'
    else if r == 0x212A
    then b'k'
    else r

-- unicode.IsSpace
unfoldable pub is_space : ℕ → Bool
is_space r =
    within 9 13 r
    || (r == 32
        || (r == 0x85
            || (r == 0xA0
                || (r == 0x1680
                    || (within 0x2000 0x200A r
                        || (r == 0x2028
                            || (r == 0x2029 || (r == 0x202F || (r == 0x205F || r == 0x3000)))))))))

unfoldable pub trim_left : List ℕ → List ℕ
trim_left [] = []
trim_left (r ∷ rs) = if is_space r then trim_left rs else r ∷ rs

abbrev pub is_nil : List ℕ → Bool
is_nil [] = true
is_nil (r ∷ rs) = false

unfoldable pub trim_right : List ℕ → List ℕ
trim_right [] = []
trim_right (r ∷ rs) = let kept = trim_right rs in if is_space r && is_nil kept then [] else r ∷ kept

abbrev pub IsAscii : List ℕ → Type 0
IsAscii s = All (λ c. c < 128) s

pub runes-IsAscii : (s : Bytes) → IsAscii s → runes s ≡ s
unfolding runes
runes-IsAscii [] h = refl
runes-IsAscii (c ∷ cs) h = ground (arith, runes-IsAscii cs h.1)

rune_at-ascii :
    (b : ℕ) (rest : Bytes) → (rune_at b rest).0 < 128 → (b < 128) × ((rune_at b rest).1 ≡ 0)
unfolding rune_at
rune_at-ascii b [] h = ground arith
rune_at-ascii b (c ∷ []) h = ground arith
rune_at-ascii b (c ∷ d ∷ []) h = ground arith
rune_at-ascii b (c ∷ d ∷ e ∷ rest) h = ground arith

-- Runes below 128 are read from bytes below 128 only.
pub IsAscii-runes : (s : Bytes) → IsAscii (runes s) → IsAscii s
unfolding runes_after runes
IsAscii-runes [] h = tt
IsAscii-runes (b ∷ bs) h =
    let low = rune_at-ascii b bs h.0 in (low.0, IsAscii-runes bs (rw low.1 at h.1))

-- hex.EncodeToString
unfoldable pub hex_digit : ℕ → ℕ
hex_digit n = if ltb n 10 then n + b'0' else n - 10 + b'a'

unfoldable pub hex_encode : Bytes → Bytes
hex_encode [] = []
hex_encode (b ∷ bs) = hex_digit (b / 16) ∷ hex_digit (b % 16) ∷ hex_encode bs
