-- ===== src/Format/Laws.antt =====
-- How wide a cell is, and which fields have a text.
use netobserv_cli.Common.{
  ℕ, zero, suc, ◌+◌, ◌-◌, ◌≡◌, ◌≤◌, ◌<◌, ◌⊎◌, refl, sym, ap, subst, Bool, true, false, [], ◌∷◌,
  ◌++◌, none, some, arith, ltb, ◌==◌, if◌then◌else◌, if_true, if_false, Bool-cases, inl, inr, take,
  drop, length, All, All-append, length-append, length-take, ◌∙◌, lt→ltb, append-nil, append_assoc,
}
use netobserv_cli.Text.{Bytes}
use netobserv_cli.Text.Utf8.{decode_rune, width_or_one}
use netobserv_cli.Format.{
  is_break, range_runes, cut_point, ellipsis, cut_text, count_runes, spaces, pad, ellipsize_and_pad,
}

-- A text of ASCII bytes.
abbrev pub IsAscii : Bytes → Type 0
IsAscii s = All (λ c. c < 0x80) s

decode-ascii : (c : ℕ) (s : Bytes) → c < 0x80 → decode_rune (c ∷ s) ≡ (c, 1)
unfolding decode_rune
decode-ascii c [] h = if_true _ _ (lt→ltb c 0x80 h)
decode-ascii c (d ∷ []) h = if_true _ _ (lt→ltb c 0x80 h)
decode-ascii c (d ∷ e ∷ []) h = if_true _ _ (lt→ltb c 0x80 h)
decode-ascii c (d ∷ e ∷ f ∷ s) h = if_true _ _ (lt→ltb c 0x80 h)

range-ascii :
    (fuel i c : ℕ) (s : Bytes)
    → c < 0x80
    → range_runes (suc fuel) i (c ∷ s) ≡ (i, c) ∷ range_runes fuel (i + 1) s
unfolding range_runes
range-ascii fuel i c s h =
    ap
      (λ (r : ℕ × ℕ).
        (i, r.0) ∷ range_runes fuel (i + width_or_one r.1) (drop (width_or_one r.1) (c ∷ s)))
      (decode-ascii c s h)

range-nil : (fuel i : ℕ) → range_runes fuel i [] ≡ []
unfolding range_runes
range-nil zero i = refl
range-nil (suc fuel) i = refl

-- The ellipsis is one rune.
range-ellipsis :
    (fuel i : ℕ) (t : Bytes)
    → length (range_runes (suc fuel) i (ellipsis ++ t)) ≡ suc (length (range_runes fuel (i + 3) t))
unfolding range_runes decode_rune
range-ellipsis fuel i [] = refl
range-ellipsis fuel i (c ∷ t) = refl

-- Each ASCII byte is one rune.
range-append :
    (s t : Bytes) (fuel i : ℕ)
    → IsAscii s
    → length (range_runes (length s + fuel) i (s ++ t))
      ≡ length s + length (range_runes fuel (i + length s) t)
range-append [] t fuel i h =
    let e : i ≡ i + 0 = omega arith in
    let z : 0 + fuel ≡ fuel = omega arith in
    let l = ap (λ n. length (range_runes n i t)) z in
    let r = ap (λ j. length (range_runes fuel j t)) e in omega (arith, l, r)
range-append (c ∷ s) t fuel i h =
    let e : suc (length s) + fuel ≡ suc (length s + fuel) = omega arith in
    let l = ap (λ n. length (range_runes n i (c ∷ s ++ t))) e in
    let m = ap length (range-ascii (length s + fuel) i c (s ++ t) h.0) in
    let j : i + 1 + length s ≡ i + suc (length s) = omega arith in
    let r = ap (λ j. length (range_runes fuel j t)) j in
    omega (arith, l, m, r, range-append s t fuel (i + 1) h.1)

spaces-IsAscii : (n : ℕ) → IsAscii (spaces n)
unfolding spaces
spaces-IsAscii zero = tt
spaces-IsAscii (suc n) = (omega arith, spaces-IsAscii n)

length-spaces : (n : ℕ) → length (spaces n) ≡ n
unfolding spaces
length-spaces zero = refl
length-spaces (suc n) = ap suc (length-spaces n)

count-ascii : (s : Bytes) → IsAscii s → count_runes s ≡ length s
unfolding count_runes
count-ascii s h =
    let e : length s + 0 ≡ length s = omega arith in
    let l = ap (λ n. length (range_runes n 0 (s ++ []))) e in
    let m = ap (λ t. length (range_runes (length s) 0 t)) (append-nil s) in
    let z = ap length (range-nil 0 (0 + length s)) in
    omega (arith, l, m, z, range-append s [] 0 0 h)

-- ASCII text, an ellipsis and more ASCII text.
count-cut :
    (s t : Bytes)
    → IsAscii s
    → IsAscii t
    → count_runes (s ++ (ellipsis ++ t)) ≡ length s + 1 + length t
unfolding count_runes
count-cut s t h k =
    let e : length (s ++ (ellipsis ++ t)) ≡ length s + suc (length t + 2) =
      omega (arith, length-append s (ellipsis ++ t)) in
    let l = ap (λ n. length (range_runes n 0 (s ++ (ellipsis ++ t)))) e in
    let m = range-append s (ellipsis ++ t) (suc (length t + 2)) 0 h in
    let r = range-ellipsis (length t + 2) (0 + length s) t in
    let u = ap (λ v. length (range_runes (length t + 2) (0 + length s + 3) v)) (append-nil t) in
    let w = range-append t [] 2 (0 + length s + 3) k in
    let z = ap length (range-nil 2 (0 + length s + 3 + length t)) in omega (arith, l, m, r, u, w, z)

take-IsAscii : (n : ℕ) (s : Bytes) → IsAscii s → IsAscii (take n s)
take-IsAscii zero s h = tt
take-IsAscii (suc n) [] h = tt
take-IsAscii (suc n) (c ∷ s) h = (h.0, take-IsAscii n s h.1)

-- A text of at most `width` bytes is not cut; a longer one is, at `width` or before.
cut_cases :
    (width fuel i count last_part : ℕ) (s : Bytes)
    → IsAscii s
    → length s ≤ fuel
    → i ≤ count
    → count ≤ width
    → last_part ≤ width
    → ((cut_point width count last_part (range_runes fuel i s) ≡ none) × count + length s ≤ width)
      ⊎ ((k : ℕ) × (cut_point width count last_part (range_runes fuel i s) ≡ some k)
          × k ≤ width
          × width < count + length s)
unfolding cut_point
cut_cases width fuel i count last_part [] h f a b c =
    inl (ap (cut_point width count last_part) (range-nil fuel i), omega (arith, b))
cut_cases width zero i count last_part (x ∷ s) h f a b c = absurd (omega (arith, f))
cut_cases width (suc fuel) i count last_part (x ∷ s) h f a b c =
    subst
      (λ runes.
        ((cut_point width count last_part runes ≡ none) × count + length (x ∷ s) ≤ width)
        ⊎ ((k : ℕ) × (cut_point width count last_part runes ≡ some k)
            × k ≤ width
            × width < count + length (x ∷ s)))
      (sym (range-ascii fuel i x s h.0))
      (elim (Bool-cases (ltb width (suc count))) [
        | inl e ↦ inr (last_part, if_true _ _ e, c, ground (arith, e, length-pos))
        | inr e ↦
            elim (cut_cases width fuel (i + 1) (suc count) (if is_break x then i else last_part) s
              h.1 (omega (arith, f)) (omega (arith, a)) (ground (arith, e))
              (at_most (is_break x))) [
                | inl (none_cut, l) ↦ inl (if_false _ _ e ∙ none_cut, omega (arith, l))
                | inr (k, cut, l, m) ↦ inr (k, if_false _ _ e ∙ cut, l, omega (arith, m))
              ]
      ])
  where
    length-pos : 0 ≤ length s
    length-pos = omega arith

    at_most : (d : Bool) → (if d then i else last_part) ≤ width
    at_most true = omega (arith, a, b)
    at_most false = c

-- A cell's text that is ASCII is as wide as its column, in runes, or wider by one: it is shown whole,
-- with spaces behind it, if it fits, and else up to a place within the width, with an ellipsis.
pub ellipsize_and_pad-width :
    (text : Bytes) (width : ℕ)
    → IsAscii text
    → 0 < width
    → ((length text ≤ width)
        × (ellipsize_and_pad text width ≡ text ++ spaces (width - length text))
        × (count_runes (ellipsize_and_pad text width) ≡ width))
      ⊎ ((k : ℕ) × k ≤ width
          × width < length text
          × (ellipsize_and_pad text width ≡ take k text ++ ellipsis ++ spaces (width - (k + 1)))
          × width ≤ count_runes (ellipsize_and_pad text width)
          × count_runes (ellipsize_and_pad text width) ≤ width + 1)
unfolding ellipsize_and_pad pad cut_text
ellipsize_and_pad-width text width h w =
    elim (cut_cases width (length text) 0 0 width text h (omega arith) (omega arith) (omega arith)
      (omega arith)) [
        | inl (uncut, fits) ↦
            let whole = shown ∙ ap (λ r. pad width (cut_text text r)) uncut ∙ pad_whole in
            inl (
              omega (arith, fits),
              whole,
              ap count_runes whole ∙ padded (width - length text) (omega (arith, fits)),
            )
        | inr (k, cut, l, m) ↦
            let long : length (take k text) ≡ k = omega (arith, length-take k text, l, m) in
            let short = shown ∙ ap (λ r. pad width (cut_text text r)) cut ∙ pad_cut k long in
            let runes = cut_runes k (width - (k + 1)) long in
            let all = ap count_runes short in
            inr (
              k,
              l,
              omega (arith, m),
              short,
              omega (arith, all, runes),
              omega (arith, all, runes, l),
            )
      ]
  where
    shown :
        ellipsize_and_pad text width
        ≡ pad width (cut_text text (cut_point width 0 width (range_runes (length text) 0 text)))
    shown = if_false {b = width == 0} _ _ (ground (arith, w))

    pad_whole : pad width text ≡ text ++ spaces (width - length text)
    pad_whole = ap (λ n. text ++ spaces (width - n)) (count-ascii text h)

    padded : (n : ℕ) → length text + n ≡ width → count_runes (text ++ spaces n) ≡ width
    padded n e =
        let c =
          count-ascii (text ++ spaces n)
            (All-append (λ c. c < 0x80) text (spaces n) h (spaces-IsAscii n)) in
        omega (arith, c, e, length-append text (spaces n), length-spaces n)

    cut_runes :
        (k n : ℕ)
        → length (take k text) ≡ k
        → count_runes (take k text ++ ellipsis ++ spaces n) ≡ k + 1 + n
    cut_runes k n e =
        let c = count-cut (take k text) (spaces n) (take-IsAscii k text h) (spaces-IsAscii n) in
        let a = ap count_runes (append_assoc (take k text) ellipsis (spaces n)) in
        omega (arith, a, c, e, length-spaces n)

    pad_cut :
        (k : ℕ)
        → length (take k text) ≡ k
        → pad width (take k text ++ ellipsis) ≡ take k text ++ ellipsis ++ spaces (width - (k + 1))
    pad_cut k e =
        let c = count-cut (take k text) [] (take-IsAscii k text h) tt in
        let d : count_runes (take k text ++ ellipsis) ≡ k + 1 = omega (arith, c, e) in
        ap (λ n. take k text ++ ellipsis ++ spaces (width - n)) d
