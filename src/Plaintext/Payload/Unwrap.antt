-- ===== src/Plaintext/Payload/Unwrap.antt =====
-- The searches of the payload's unwrapping: what is stripped, and that the loops have rounds enough.
use netobserv_cli.Common.{
  ℕ, zero, suc, ◌+◌, ◌-◌, ◌≤◌, ◌<◌, ◌≡◌, ◌⊎◌, refl, sym, ap, ◌∙◌, true, false, ◌||◌, [], ◌∷◌,
  Option, none, some, arith, length, drop, inl, inr, min, Bool-cases, subst, if_true, if_false, ltb,
}
use netobserv_cli.Text.{Bytes, is_empty, index}
use netobserv_cli.Extern.{Extern}
use netobserv_cli.Plaintext.Payload.{
  is_application_text_start, skip_prefix, strip_leading_application_prefix, search_marker,
  object_payload,
}

drop-drop : (n : ℕ) (s : Bytes) → drop 1 (drop n s) ≡ drop (suc n) s
drop-drop zero s = refl
drop-drop (suc n) [] = refl
drop-drop (suc n) (c ∷ s) = drop-drop n s

-- A text without its first `at` bytes, the first such text of at most 8 less bytes that starts like
-- application text.
pub record Stripped (s r : Bytes) : Type 0 where
  pub at : ℕ
  pub few : at ≤ 8
  pub rest : r ≡ drop at s
  pub first : (i : ℕ) → i < at → is_application_text_start (drop i s) ≡ false
  pub found : (at ≡ 0) ⊎ (is_application_text_start r ≡ true)

skip_prefix-Stripped :
    (n k : ℕ) (s rest : Bytes)
    → rest ≡ drop k s
    → k + n ≤ 8
    → ((i : ℕ) → i < suc k → is_application_text_start (drop i s) ≡ false)
    → Stripped s (skip_prefix n s rest)
unfolding skip_prefix
skip_prefix-Stripped zero k s rest e l none_before = record {
  at = 0;
  few = omega arith;
  rest = refl;
  first = λ i h. absurd (omega arith);
  found = inl refl;
}
skip_prefix-Stripped (suc n) k s rest e l none_before =
    let next : drop 1 rest ≡ drop (suc k) s = ap (drop 1) e ∙ drop-drop k s in
    elim (Bool-cases (is_application_text_start (drop 1 rest))) [
      | inl t ↦ subst (Stripped s) (sym (if_true _ _ t)) (record {
        at = suc k;
        few = omega arith;
        rest = next;
        first = none_before;
        found = inr t;
      })
      | inr f ↦ subst (Stripped s) (sym (if_false _ _ f)) (
          skip_prefix-Stripped n (suc k) s (drop 1 rest) next (omega arith)
            (none_so_far k s (ap is_application_text_start (sym next) ∙ f) none_before))
    ]
  where
    none_so_far :
        (k : ℕ) (s : Bytes)
        → is_application_text_start (drop (suc k) s) ≡ false
        → ((i : ℕ) → i < suc k → is_application_text_start (drop i s) ≡ false)
        → (i : ℕ) → i < suc (suc k)
        → is_application_text_start (drop i s) ≡ false
    none_so_far k s now before i h = elim (Bool-cases (ltb i (suc k))) [
      | inl le ↦ before i (ground arith)
      | inr gt ↦
          let same : suc k ≡ i = ground arith in
          subst (λ j. is_application_text_start (drop j s) ≡ false) same now
    ]

-- At most 8 bytes are stripped, and only up to the first place at which application text starts.
pub strip-Stripped : (s : Bytes) → Stripped s (strip_leading_application_prefix s)
unfolding strip_leading_application_prefix
strip-Stripped s = elim (Bool-cases (is_empty s || is_application_text_start s)) [
  | inl e ↦ subst (Stripped s) (sym (if_true _ _ e)) (record {
    at = 0;
    few = omega arith;
    rest = refl;
    first = λ i h. absurd (omega arith);
    found = inl refl;
  })
  | inr e ↦ subst (Stripped s) (sym (if_false _ _ e)) (
      skip_prefix-Stripped (min 8 (length s - 1)) 0 s s refl (omega arith)
        (at_start (ground arith)))
]
  where
    at_start :
        is_application_text_start s ≡ false
        → (i : ℕ) → i < 1
        → is_application_text_start (drop i s) ≡ false
    at_start e zero h = e
    at_start e (suc i) h = absurd (omega arith)

-- A marker stands nowhere in an empty text.
index-nil : (marker : Bytes) → is_empty marker ≡ false → index marker [] ≡ none
unfolding index
index-nil [] e = cc
index-nil (c ∷ marker) e = refl

drop-all : (n : ℕ) (s : Bytes) → length s ≤ n → drop n s ≡ []
drop-all zero [] h = refl
drop-all zero (c ∷ s) h = absurd (omega arith)
drop-all (suc n) [] h = refl
drop-all (suc n) (c ∷ s) h = drop-all n s (omega arith)

module _ (ext : Extern) where
  -- One round, after the search for the marker.
  abbrev round : ℕ → Bytes → Bytes → ℕ → Option ℕ → Option Bytes
  round fuel marker s from none = none
  round fuel marker s from (some i) =
      elim (object_payload ext s (i + from)) as (λ _. Option Bytes) [
        | some inner ↦ some inner
        | none ↦ search_marker ext fuel marker s (i + from + 1)
      ]

  by_object :
      (c : Option Bytes) {x y : Option Bytes}
      → x ≡ y
      → (elim c as (λ _. Option Bytes) [ some inner ↦ some inner | none ↦ x ])
        ≡ (elim c as (λ _. Option Bytes) [ some inner ↦ some inner | none ↦ y ])
  by_object none e = e
  by_object (some inner) e = refl

  search_marker-more :
      (fuel : ℕ) (marker s : Bytes) (from : ℕ)
      → is_empty marker ≡ false
      → length s < fuel + from
      → search_marker ext (suc fuel) marker s from ≡ search_marker ext fuel marker s from
  unfolding search_marker
  search_marker-more zero marker s from e h =
      let none_left : index marker (drop from s) ≡ none =
        ap (index marker) (drop-all from s (omega arith)) ∙ index-nil marker e in
      subst (λ c. round zero marker s from c ≡ none) (sym none_left) refl
  search_marker-more (suc fuel) marker s from e h =
      by_index (index marker (drop from s)) (λ at l. search_marker-more fuel marker s at e l)
    where
      by_index :
          (c : Option ℕ)
          → ((at : ℕ)
              → length s < fuel + at
              → search_marker ext (suc fuel) marker s at ≡ search_marker ext fuel marker s at)
          → round (suc fuel) marker s from c ≡ round fuel marker s from c
      by_index none more = refl
      by_index (some i) more =
          by_object (object_payload ext s (i + from)) (more (i + from + 1) (omega arith))

  -- The inner search for a marker that is not empty has rounds enough: any number of further rounds gives the same result.
  pub search_marker-enough :
      (extra : ℕ) (marker s : Bytes)
      → is_empty marker ≡ false
      → search_marker ext (extra + (length s + 1)) marker s 0
        ≡ search_marker ext (length s + 1) marker s 0
  search_marker-enough zero marker s e = ap (λ n. search_marker ext n marker s 0) (omega arith)
  search_marker-enough (suc extra) marker s e =
      ap (λ n. search_marker ext n marker s 0) (omega arith)
      ∙ search_marker-more (extra + (length s + 1)) marker s 0 e (omega arith)
      ∙ search_marker-enough extra marker s e
