-- ===== src/Text/Numbers.antt =====
-- `strconv.ParseUint` and the decimal print of `fmt`.
use netobserv_cli.Common.{
  ℕ, zero, suc, ◌+◌, ◌-◌, ◌*◌, ◌/◌, ◌%◌, ◌≤◌, ◌<◌, ◌≡◌, ◌∙◌, refl, Bool, ◌&&◌, [], ◌∷◌, Option,
  none, some, ltb, leb, if◌then◌else◌, arith,
}
use netobserv_cli.Text.{Bytes}

unfoldable pub is_digit : ℕ → Bool
is_digit c = leb b'0' c && leb c b'9'

-- One round for each byte; the number so far and the largest number that fits are arguments.
unfoldable pub scan_digits : ℕ → ℕ → Bytes → Option ℕ
unfolding is_digit
scan_digits limit n [] = some n
scan_digits limit n (c ∷ s) =
    let m = n * 10 + (c - b'0') in
    let rest = scan_digits limit m s in
    if is_digit c then if leb m limit then rest else none else none

-- `strconv.ParseUint(s, 10, bits)` with `limit` for `2^bits - 1`; an error is `none`.
unfoldable pub parse_uint : ℕ → Bytes → Option ℕ
unfolding scan_digits
parse_uint limit [] = none
parse_uint limit (c ∷ s) = scan_digits limit 0 (c ∷ s)

scan_digits-le :
    (limit n : ℕ) (s : Bytes) {r : ℕ} → n ≤ limit → scan_digits limit n s ≡ some r → r ≤ limit
unfolding scan_digits
scan_digits-le limit n [] h e = ground arith
scan_digits-le limit n (c ∷ s) {r} h e =
    ground (arith, scan_digits-le limit (n * 10 + (c - b'0')) s {r = r})

pub parse_uint-le : (limit : ℕ) (s : Bytes) {r : ℕ} → parse_uint limit s ≡ some r → r ≤ limit
unfolding parse_uint
parse_uint-le limit [] e = ground arith
parse_uint-le limit (c ∷ s) e = scan_digits-le limit 0 (c ∷ s) (omega arith) e

-- Prints the digits before `acc`; a number has at most as many digits as `suc` of it.
unfoldable pub digits_before : ℕ → ℕ → Bytes → Bytes
digits_before zero n acc = acc
digits_before (suc fuel) n acc =
    let rest = digits_before fuel (n / 10) ((b'0' + n % 10) ∷ acc) in
    if ltb n 10 then (b'0' + n) ∷ acc else rest

-- `%d` of a number that is not negative.
unfoldable pub format_uint : ℕ → Bytes
unfolding digits_before
format_uint n = digits_before (suc n) n []

-- What a run of digits stands for, read after a number `n`.
abbrev pub value_from : ℕ → Bytes → ℕ
value_from n [] = n
value_from n (c ∷ s) = value_from (n * 10 + (c - b'0')) s

scan_digits-digits_before :
    (fuel limit n : ℕ) (acc : Bytes)
    → n < fuel
    → n ≤ limit
    → scan_digits limit 0 (digits_before fuel n acc) ≡ scan_digits limit n acc
unfolding digits_before scan_digits
scan_digits-digits_before zero limit n acc h b = absurd (omega arith)
scan_digits-digits_before (suc fuel) limit n acc h b =
    ground (arith, scan_digits-digits_before fuel limit (n / 10) ((b'0' + n % 10) ∷ acc))

digits_before-cons :
    (fuel n c : ℕ) (acc : Bytes) → (d : ℕ) × (s : Bytes) × (digits_before fuel n (c ∷ acc) ≡ d ∷ s)
unfolding digits_before
digits_before-cons zero n c acc = (c, acc, refl)
digits_before-cons (suc fuel) n c acc =
    let (d, s, e) = digits_before-cons fuel (n / 10) (b'0' + n % 10) (c ∷ acc) in pick (ltb n 10) e
  where
    pick :
        (b : Bool) {d : ℕ} {s : Bytes}
        → digits_before fuel (n / 10) ((b'0' + n % 10) ∷ c ∷ acc) ≡ d ∷ s
        → (d : ℕ) × (s : Bytes) × ((if b
              then (b'0' + n) ∷ c ∷ acc
              else digits_before fuel (n / 10) ((b'0' + n % 10) ∷ c ∷ acc))
            ≡ d ∷ s)
    pick Bool.true e = (b'0' + n, c ∷ acc, refl)
    pick Bool.false {d} {s} e = (d, s, e)

parse_uint-scan :
    (limit : ℕ) (s : Bytes) (d : ℕ) (t : Bytes)
    → s ≡ d ∷ t
    → parse_uint limit s ≡ scan_digits limit 0 s
unfolding parse_uint
parse_uint-scan limit [] d t e = cc
parse_uint-scan limit (c ∷ s) d t e = refl

format_uint-cons : (n : ℕ) → (d : ℕ) × (s : Bytes) × (format_uint n ≡ d ∷ s)
unfolding format_uint digits_before
format_uint-cons n =
    let (d, s, e) = digits_before-cons n (n / 10) (b'0' + n % 10) [] in pick (ltb n 10) e
  where
    pick :
        (b : Bool) {d : ℕ} {s : Bytes}
        → digits_before n (n / 10) ((b'0' + n % 10) ∷ []) ≡ d ∷ s
        → (d : ℕ) × (s : Bytes) × ((if b
              then (b'0' + n) ∷ []
              else digits_before n (n / 10) ((b'0' + n % 10) ∷ []))
            ≡ d ∷ s)
    pick Bool.true e = (b'0' + n, [], refl)
    pick Bool.false {d} {s} e = (d, s, e)

-- A number that fits is read back from its print.
pub parse_uint-format_uint : (limit n : ℕ) → n ≤ limit → parse_uint limit (format_uint n) ≡ some n
unfolding scan_digits
parse_uint-format_uint limit n h =
    let (d, s, e) = format_uint-cons n in
    parse_uint-scan limit (format_uint n) d s e
    ∙ unfold format_uint in scan_digits-digits_before (suc n) limit n [] (omega arith) h
