-- ===== src/Plaintext/Payload/Objects.antt =====
-- What `sliceJSONObject` cuts out.
use netobserv_cli.Common.{
  ℕ, suc, ◌+◌, ◌-◌, ◌≡◌, refl, sym, ap, ◌∙◌, Bool, true, false, [], ◌∷◌, Option, none, some, arith,
  get_elem?, take, drop, not, ◌==◌, Bool-cases, inl, inr, if_true, if_false,
}
use netobserv_cli.Text.{Bytes, codes, has_prefix}
use netobserv_cli.Plaintext.Payload.{scan_object, slice_json_object}

-- A scan that ends read a closing brace last.
pub record Closed (s : Bytes) (i n : ℕ) : Type 0 where
  pub at : ℕ
  pub count : n ≡ i + suc at
  pub brace : get_elem? s at ≡ some b'}'

Closed-later : (c : ℕ) (s : Bytes) (i n : ℕ) → Closed s (suc i) n → Closed (c ∷ s) i n
Closed-later c s i n h = record { at = suc h.at; count = omega (arith, h.count); brace = h.brace }

scan_object-Closed :
    (depth : ℕ) (in_string escape : Bool) (i : ℕ) (s : Bytes) (n : ℕ)
    → scan_object depth in_string escape i s ≡ some n
    → Closed s i n
unfolding scan_object
scan_object-Closed depth in_string escape i [] n e = cc
scan_object-Closed depth true true i (c ∷ s) n e =
    Closed-later c s i n (scan_object-Closed depth true false (suc i) s n e)
scan_object-Closed depth true false i (c ∷ s) n e =
    Closed-later c s i n (scan_object-Closed depth (not (c == b'"')) (c == b'\\') (suc i) s n e)
scan_object-Closed depth false escape i (c ∷ s) n e = elim (Bool-cases (c == b'"')) [
  | inl q ↦
      Closed-later c s i n
        (scan_object-Closed depth true escape (suc i) s n (sym (if_true _ _ q) ∙ e))
  | inr q ↦ elim (Bool-cases (c == b'{')) [
    | inl o ↦ Closed-later c s i n (
        scan_object-Closed (suc depth) false escape (suc i) s n
          (sym (if_true _ _ o) ∙ sym (if_false _ _ q) ∙ e))
    | inr o ↦ elim (Bool-cases (c == b'}')) [
      | inr x ↦ Closed-later c s i n (
          scan_object-Closed depth false escape (suc i) s n
            (sym (if_false _ _ x) ∙ sym (if_false _ _ o) ∙ sym (if_false _ _ q) ∙ e))
      | inl x ↦ elim (Bool-cases (depth - 1 == 0)) [
        | inl z ↦
            let last : some (suc i) ≡ some n =
              sym (if_true _ _ z)
              ∙ sym (if_true _ _ x)
              ∙ sym (if_false _ _ o)
              ∙ sym (if_false _ _ q)
              ∙ e in
            let count : suc i ≡ n = cc in
            record { at = 0; count = omega arith; brace = ap some (ground arith) }
        | inr z ↦ Closed-later c s i n (
            scan_object-Closed (depth - 1) false escape (suc i) s n (
              sym (if_false _ _ z)
              ∙ sym (if_true _ _ x)
              ∙ sym (if_false _ _ o)
              ∙ sym (if_false _ _ q)
              ∙ e))
      ]
    ]
  ]
]

-- The object that is found at a position is the text from there up to and with a closing brace, and an
-- opening brace stands at the position.
pub slice_json_object-Closed :
    (s : Bytes) (start : ℕ) (object : Bytes)
    → slice_json_object s start ≡ some object
    → (has_prefix (codes "{") (drop start s) ≡ true)
      × (n : ℕ) × (object ≡ take n (drop start s))
      × Closed (drop start s) 0 n
unfolding slice_json_object
slice_json_object-Closed s start object e =
    elim (Bool-cases (has_prefix (codes "{") (drop start s))) [
      | inl p ↦
          let (n, cut, closed) =
            by_scan (scan_object 0 false false 0 (drop start s)) refl (sym (if_true _ _ p) ∙ e) in
          (p, n, cut, closed)
      | inr p ↦ let bad : none ≡ some object = sym (if_false _ _ p) ∙ e in cc
    ]
  where
    by_scan :
        (c : Option ℕ)
        → scan_object 0 false false 0 (drop start s) ≡ c
        → (elim c as (λ _. Option Bytes) [ none ↦ none | some n ↦ some (take n (drop start s)) ])
          ≡ some object
        → (n : ℕ) × (object ≡ take n (drop start s)) × Closed (drop start s) 0 n
    by_scan none h f = cc
    by_scan (some n) h f = (n, cc, scan_object-Closed 0 false false 0 (drop start s) n h)
