-- ===== src/Plaintext/Display/Laws.antt =====
-- Where `ellipsizePlaintextDisplay` cuts.
use netobserv_cli.Common.{
  ℕ, zero, suc, ◌≤◌, ◌<◌, ◌≡◌, ◌⊎◌, refl, Bool, true, false, ◌++◌, none, some, arith, length, take,
  get_elem?, inl, inr, leb, ◌==◌, ◌||◌, if_true, if_false, Bool-cases,
}
use netobserv_cli.Text.{Bytes, codes, rune_start}
use netobserv_cli.Plaintext.Display.{cut_back, ellipsize_plaintext_display}

-- A rune starts at a position.
unfoldable pub starts_at : Bytes → ℕ → Bool
starts_at s i = elim (get_elem? s i) [ none ↦ false | some b ↦ rune_start b ]

cut_back-le : (s : Bytes) (n : ℕ) → cut_back s n ≤ n
unfolding cut_back
cut_back-le s zero = omega arith
cut_back-le s (suc n) = ground (arith, cut_back-le s n)

cut_back-starts : (s : Bytes) (n : ℕ) → (cut_back s n ≡ 0) ⊎ (starts_at s (cut_back s n) ≡ true)
unfolding cut_back starts_at
cut_back-starts s zero = inl refl
cut_back-starts s (suc n) = ground (arith, cut_back-starts s n)

cut_back-last : (s : Bytes) (n i : ℕ) → cut_back s n < i → i ≤ n → starts_at s i ≡ false
unfolding cut_back starts_at
cut_back-last s zero i l h = absurd (omega arith)
cut_back-last s (suc n) i l h = ground (arith, cut_back-last s n i)

-- Where a text is cut to at most `max_len` bytes.
pub record Cut (s : Bytes) (max_len : ℕ) : Type 0 where
  pub at : ℕ
  pub result : ellipsize_plaintext_display s max_len ≡ take at s ++ codes "..."
  pub short : at ≤ max_len
  pub whole_runes : (at ≡ 0) ⊎ (starts_at s at ≡ true)
  pub last : (i : ℕ) → at < i → i ≤ max_len → starts_at s i ≡ false

-- Where `max_len` is above zero: a text of at most `max_len` bytes is shown as it is; a longer one is cut where a rune starts, at the
-- last such place that leaves at most `max_len` bytes (0 if there is none), and three dots follow.
pub ellipsize_cases :
    (s : Bytes) (max_len : ℕ)
    → 0 < max_len
    → ((length s ≤ max_len) × (ellipsize_plaintext_display s max_len ≡ s))
      ⊎ ((max_len < length s) × Cut s max_len)
unfolding ellipsize_plaintext_display
ellipsize_cases s max_len h = elim (Bool-cases (leb (length s) max_len)) [
  | inl e ↦
      inl (ground arith, if_true {b = max_len == 0 || leb (length s) max_len} _ _ (ground arith))
  | inr e ↦ inr (
    ground arith,
    record {
      at = cut_back s max_len;
      result = if_false {b = max_len == 0 || leb (length s) max_len} _ _ (ground arith);
      short = cut_back-le s max_len;
      whole_runes = cut_back-starts s max_len;
      last = cut_back-last s max_len;
    },
  )
]
