-- ===== src/Text/Utf8.antt =====
-- Runes of UTF-8 text: `range` over a string, `strings.ToValidUTF8`, and a rune's bytes.
use netobserv_cli.Common.{
  ℕ, zero, suc, ◌+◌, ◌-◌, ◌*◌, Bool, true, false, ◌&&◌, List, [], ◌∷◌, ◌++◌, ltb, leb, ◌==◌,
  if◌then◌else◌, take, drop, length,
}
use netobserv_cli.Text.{Bytes}

unfoldable pub continues : ℕ → Bool
continues b = leb 0x80 b && leb b 0xBF

-- The second byte that may follow a lead byte.
unfoldable pub second_fits : ℕ → ℕ → Bool
unfolding continues
second_fits a b =
    if a == 0xE0
    then leb 0xA0 b && leb b 0xBF
    else if a == 0xED
    then leb 0x80 b && leb b 0x9F
    else if a == 0xF0
    then leb 0x90 b && leb b 0xBF
    else if a == 0xF4
    then leb 0x80 b && leb b 0x8F
    else continues b

abbrev pub replacement : ℕ
replacement = 0xFFFD

abbrev pub Rune : Type 0
Rune = ℕ × ℕ

abbrev bad_rune : Rune
bad_rune = (replacement, 0)

unfoldable pub rune2 : ℕ → ℕ → Rune
unfolding continues
rune2 a b =
    if leb 0xC2 a && leb a 0xDF && continues b then ((a - 0xC0) * 64 + (b - 0x80), 2) else bad_rune

unfoldable pub rune3 : ℕ → ℕ → ℕ → Rune
unfolding second_fits continues
rune3 a b c =
    if leb 0xE0 a && leb a 0xEF && second_fits a b && continues c
    then ((a - 0xE0) * 4096 + (b - 0x80) * 64 + (c - 0x80), 3)
    else bad_rune

unfoldable pub rune4 : ℕ → ℕ → ℕ → ℕ → Rune
unfolding second_fits continues
rune4 a b c d =
    if leb 0xF0 a && leb a 0xF4 && second_fits a b && continues c && continues d
    then ((a - 0xF0) * 262144 + (b - 0x80) * 4096 + (c - 0x80) * 64 + (d - 0x80), 4)
    else bad_rune

-- The first rune and its width; the width is 0 where the bytes are no UTF-8 (Go then takes one byte
-- for U+FFFD).
unfoldable pub decode_rune : Bytes → Rune
unfolding rune2 rune3 rune4
decode_rune [] = bad_rune
decode_rune (a ∷ []) = if ltb a 0x80 then (a, 1) else bad_rune
decode_rune (a ∷ b ∷ []) = if ltb a 0x80 then (a, 1) else rune2 a b
decode_rune (a ∷ b ∷ c ∷ []) =
    if ltb a 0x80 then (a, 1) else if ltb a 0xE0 then rune2 a b else rune3 a b c
decode_rune (a ∷ b ∷ c ∷ d ∷ s) =
    if ltb a 0x80
    then (a, 1)
    else if ltb a 0xE0
    then rune2 a b
    else if ltb a 0xF0
    then rune3 a b c
    else rune4 a b c d

abbrev pub width_or_one : ℕ → ℕ
width_or_one zero = 1
width_or_one (suc n) = suc n

-- `for _, r := range s`: the runes in order. A rune takes a byte at least: the length is fuel.
unfoldable pub runes_from : ℕ → Bytes → List ℕ
unfolding decode_rune
runes_from zero s = []
runes_from (suc fuel) [] = []
runes_from (suc fuel) (c ∷ s) =
    let (r, w) = decode_rune (c ∷ s) in r ∷ runes_from fuel (drop (width_or_one w) (c ∷ s))

unfoldable pub runes : Bytes → List ℕ
unfolding runes_from
runes s = runes_from (length s) s

-- U+FFFD in UTF-8.
abbrev pub replacement_bytes : Bytes
replacement_bytes = 0xEF ∷ 0xBF ∷ 0xBD ∷ []

-- A run of bytes that are no UTF-8 becomes one U+FFFD; the flag says that such a run is open.
unfoldable pub to_valid_from : ℕ → Bool → Bytes → Bytes
unfolding decode_rune
to_valid_from zero bad s = []
to_valid_from (suc fuel) bad [] = []
to_valid_from (suc fuel) bad (c ∷ s) =
    let (r, w) = decode_rune (c ∷ s) in
    elim (w == 0) [
      | true ↦ (if bad then [] else replacement_bytes) ++ to_valid_from fuel true s
      | false ↦ take w (c ∷ s) ++ to_valid_from fuel false (drop w (c ∷ s))
    ]

unfoldable pub to_valid_utf8 : Bytes → Bytes
unfolding to_valid_from
to_valid_utf8 s = to_valid_from (length s) false s
