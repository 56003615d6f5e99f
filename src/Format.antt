-- ===== src/Format.antt =====
-- The texts of the table's cells: cmd/map_format.go.
pub mod Names
pub mod Cells
pub mod Laws
pub mod Failures
use netobserv_cli.Common.{
  ℕ, zero, suc, ◌+◌, ◌-◌, ◌*◌, ◌^◌, Bool, true, false, ◌&&◌, ◌||◌, List, [], ◌∷◌, ◌++◌, Option,
  none, some, ltb, leb, ◌==◌, if◌then◌else◌, take, drop, length,
}
use netobserv_cli.Text.{Bytes, codes, is_ascii_space}
use netobserv_cli.Text.Utf8.{decode_rune, width_or_one}

-- `unicode.IsSpace`.
unfoldable pub is_space_rune : ℕ → Bool
unfolding is_ascii_space
is_space_rune r =
    is_ascii_space r
    || r == 0x85
    || r == 0xA0
    || r == 0x1680
    || leb 0x2000 r && leb r 0x200A
    || r == 0x2028
    || r == 0x2029
    || r == 0x202F
    || r == 0x205F
    || r == 0x3000

-- A place at which a text may be cut.
unfoldable pub is_break : ℕ → Bool
unfolding is_space_rune
is_break r = is_space_rune r || r == b'_'

-- `for i, r := range text`: the runes and where they start; each round takes a byte at least, so that
-- the length is fuel.
unfoldable pub range_runes : ℕ → ℕ → Bytes → List (ℕ × ℕ)
unfolding decode_rune
range_runes zero i s = []
range_runes (suc fuel) i [] = []
range_runes (suc fuel) i (c ∷ s) =
    let (r, w) = decode_rune (c ∷ s) in
    (i, r) ∷ range_runes fuel (i + width_or_one w) (drop (width_or_one w) (c ∷ s))

-- Where a text of more than `width` runes is cut: at its last break, or at `last_part`. The first
-- number counts the runes so far.
unfoldable pub cut_point : ℕ → ℕ → ℕ → List (ℕ × ℕ) → Option ℕ
unfolding is_break
cut_point width count last_part [] = none
cut_point width count last_part ((i, r) ∷ runes) =
    let further = cut_point width (suc count) (if is_break r then i else last_part) runes in
    if ltb width (suc count) then some last_part else further

-- The three bytes of "…".
abbrev pub ellipsis : Bytes
ellipsis = 0xE2 ∷ 0x80 ∷ 0xA6 ∷ []

unfoldable pub cut_text : Bytes → Option ℕ → Bytes
cut_text text none = text
cut_text text (some last_part) = take last_part text ++ ellipsis

-- `utf8.RuneCountInString`.
unfoldable pub count_runes : Bytes → ℕ
unfolding range_runes
count_runes s = length (range_runes (length s) 0 s)

unfoldable pub spaces : ℕ → Bytes
spaces zero = []
spaces (suc n) = b' ' ∷ spaces n

-- `fmt.Sprintf("%-*s", width, s)`.
unfoldable pub pad : ℕ → Bytes → Bytes
unfolding count_runes spaces
pad width s = s ++ spaces (width - count_runes s)

-- `ellipsizeAndPad`.
unfoldable pub ellipsize_and_pad : Bytes → ℕ → Bytes
unfolding pad cut_text cut_point range_runes
ellipsize_and_pad text width =
    if width == 0
    then text
    else pad width (cut_text text (cut_point width 0 width (range_runes (length text) 0 text)))
